-- ===== src/Runtime/Requests.antt =====
-- What a program asks of the system, request by request.
use range_porter.Prelude.{◌≡◌, refl, sym, ap, List, [], ◌∷◌, ◌++◌}
use mathlib.Core.Path.{subst}
use range_porter.Result.{Result, ok, err, ok_inj}
use range_porter.Net.{SocketAddr, v4, v6}
use range_porter.Socket.{
  Io, pure, next, ◌>>◌, Domain, ipv4, ipv6, Kind, stream, dgram, Request, set_reuse_address,
  set_nonblocking, register, set_send_buffer_size, set_recv_buffer_size, listen, bind_to, Sys,
  bind_tcp_listener, bind_udp_socket, domain_for, configure_udp_socket,
}
use range_porter.Runtime.{annotate}

-- A chain that succeeds has succeeded at its first step, and from the world that it left.
pub next-split :
    {World E A B : Type 0} (r : Result E A × World) (f : A → Io World E B) {b : B} {u : World}
    → next r f ≡ (ok b, u)
    → (a : A) × (v : World) × (r ≡ (ok a, v)) × (f a v ≡ (ok b, u))
next-split (ok a, v) f e = (a, v, refl, e)
next-split (err x, v) f e = let failed = ap (λ p. p.0) e in absurd (cc)

pub annotate-split :
    {World E F A : Type 0} (context : E → F) (r : Result E A × World) {a : A} {u : World}
    → annotate context r ≡ (ok a, u)
    → r ≡ (ok a, u)
annotate-split context (ok a, v) e =
    let same = ok_inj (ap (λ p. p.0) e) in let at = ap (λ p. p.1) e in cc
annotate-split context (err x, v) e = let failed = ap (λ p. p.0) e in absurd (cc)

-- A request, with what the system answered.
pub data Asked (Socket : Type 0) : Type 0 where
  makes : Domain → Kind → Socket → Asked Socket
  asks : Socket → Request → Asked Socket
  locates : Socket → SocketAddr → Asked Socket

-- The requests that make a TCP listener at an address, and a UDP socket.
abbrev pub family : SocketAddr → Domain
family (v4 ip port) = ipv4
family (v6 ip port flowinfo scope_id) = ipv6

abbrev asks_of : {Socket : Type 0} → Socket → List Request → List (Asked Socket)
asks_of socket [] = []
asks_of socket (r ∷ rs) = asks socket r ∷ asks_of socket rs

abbrev pub listener_requests : {Socket : Type 0} → SocketAddr → Socket → List (Asked Socket)
listener_requests address socket =
    makes (family address) stream socket
    ∷ asks socket set_reuse_address
    ∷ asks socket (bind_to address)
    ∷ asks socket (listen 1024)
    ∷ asks socket set_nonblocking
    ∷ asks socket register
    ∷ []

abbrev pub udp_requests : {Socket : Type 0} → SocketAddr → Socket → List (Asked Socket)
udp_requests address socket =
    makes (family address) dgram socket
    ∷ asks socket set_reuse_address
    ∷ asks socket (set_send_buffer_size 4_194_304)
    ∷ asks socket (set_recv_buffer_size 4_194_304)
    ∷ asks socket (bind_to address)
    ∷ asks socket set_nonblocking
    ∷ asks socket register
    ∷ []

module _ {World Socket IoError : Type 0} (sys : Sys World Socket IoError) where
  -- The system granted the request, and went from one world to another.
  abbrev pub IsGranted : Asked Socket → World → World → Type 0
  IsGranted (makes domain kind socket) w v = sys.new_socket domain kind w ≡ (ok socket, v)
  IsGranted (asks socket r) w v = sys.request socket r w ≡ (ok tt, v)
  IsGranted (locates socket address) w v = sys.local_addr socket w ≡ (ok address, v)

  -- These requests and no others, each from the world that the one before left.
  abbrev pub AreGranted : List (Asked Socket) → World → World → Type 0
  AreGranted [] w u = w ≡ u
  AreGranted (a ∷ qs) w u = (v : World) × IsGranted a w v × AreGranted qs v u

  pub AreGranted-append :
      (qs rs : List (Asked Socket)) (w v u : World)
      → AreGranted qs w v
      → AreGranted rs v u
      → AreGranted (qs ++ rs) w u
  AreGranted-append [] rs w v u same h = subst (λ x. AreGranted rs x u) (sym same) h
  AreGranted-append (a ∷ qs) rs w v u (x, g, gs) h = (x, g, AreGranted-append qs rs x v u gs h)

  -- The requests one after the other, on one socket.
  abbrev ask_all : Socket → List Request → Io World IoError Socket
  ask_all socket [] = pure socket
  ask_all socket (r ∷ rs) = sys.request socket r >> ask_all socket rs

  ask_all-AreGranted :
      (socket : Socket) (rs : List Request) (w u : World) {s : Socket}
      → ask_all socket rs w ≡ (ok s, u)
      → (socket ≡ s) × AreGranted (asks_of socket rs) w u
  ask_all-AreGranted socket [] w u e = (ok_inj (ap (λ p. p.0) e), ap (λ p. p.1) e)
  ask_all-AreGranted socket (r ∷ rs) w u e =
      let (_, v, asked, rest) = next-split (sys.request socket r w) _ e in
      let (same, granted) = ask_all-AreGranted socket rs v u rest in (same, (v, asked, granted))

  family-domain_for : (address : SocketAddr) → domain_for address ≡ family address
  unfolding domain_for
  family-domain_for (v4 ip port) = refl
  family-domain_for (v6 ip port flowinfo scope_id) = refl

  pub bind_tcp_listener-AreGranted :
      (address : SocketAddr) (w u : World) {socket : Socket}
      → bind_tcp_listener sys address w ≡ (ok socket, u)
      → AreGranted (listener_requests address socket) w u
  unfolding bind_tcp_listener
  bind_tcp_listener-AreGranted address w u e =
      let (made, v, fresh, rest) = next-split (sys.new_socket (domain_for address) stream w) _ e in
      let (same, granted) =
        ask_all-AreGranted made
          (set_reuse_address ∷ bind_to address ∷ listen 1024 ∷ set_nonblocking ∷ register ∷ []) v u
          rest in
      subst (λ s. AreGranted (listener_requests address s) w u) same
        (
          v,
          subst (λ d. sys.new_socket d stream w ≡ (ok made, v)) (family-domain_for address) fresh,
          granted,
        )

  pub bind_udp_socket-AreGranted :
      (address : SocketAddr) (w u : World) {socket : Socket}
      → bind_udp_socket sys address w ≡ (ok socket, u)
      → AreGranted (udp_requests address socket) w u
  unfolding bind_udp_socket configure_udp_socket
  bind_udp_socket-AreGranted address w u e =
      let (made, v, fresh, then_reuse) =
        next-split (sys.new_socket (domain_for address) dgram w) _ e in
      let (_, v1, reuse, then_configure) =
        next-split (sys.request made set_reuse_address v) _ then_reuse in
      let (_, v3, configured, rest) =
        next-split (configure_udp_socket sys made v1) _ then_configure in
      let (_, v2, send, recv) =
        next-split (sys.request made (set_send_buffer_size 4_194_304) v1) _ configured in
      let (same, granted) =
        ask_all-AreGranted made (bind_to address ∷ set_nonblocking ∷ register ∷ []) v3 u rest in
      subst (λ s. AreGranted (udp_requests address s) w u) same
        (
          v,
          subst (λ d. sys.new_socket d dgram w ≡ (ok made, v)) (family-domain_for address) fresh,
          (v1, reuse, (v2, send, (v3, recv, granted))),
        )
