-- ===== src/Runtime/Binding.antt =====
-- The sockets that `start` binds, and the requests that bind them.
use range_porter.Prelude.{
  ◌≡◌, refl, sym, ap, ◌∙◌, ℕ, List, [], ◌∷◌, ◌++◌, Option, none, some, append_assoc, append-nil,
}
use mathlib.Core.Path.{subst}
use range_porter.Result.{ok, ok_inj}
use range_porter.Net.{IpAddr, SocketAddr, socket_addr}
use range_porter.Socket.{Sys, bind_tcp_listener, bind_udp_socket}
use range_porter.Runtime.Requests.{
  Asked, locates, listener_requests, udp_requests, AreGranted, AreGranted-append, next-split,
  annotate-split, bind_tcp_listener-AreGranted, bind_udp_socket-AreGranted,
}
use range_porter.Runtime.{
  stats_bind_failed, tcp_bind_failed, udp_bind_failed, stats_address_failed, with_context, Bound,
  bind_stats, bind_ports,
}

abbrev pub ports_of : {Socket : Type 0} → List (Bound Socket) → List ℕ
ports_of [] = []
ports_of (b ∷ bs) = b.port ∷ ports_of bs

-- Each port in turn: a TCP listener and a UDP socket at the host's address.
abbrev pub port_requests : {Socket : Type 0} → IpAddr → List (Bound Socket) → List (Asked Socket)
port_requests host [] = []
port_requests host (b ∷ bs) =
    listener_requests (socket_addr host b.port) b.tcp_listener
    ++ (udp_requests (socket_addr host b.port) b.udp_socket ++ port_requests host bs)

module _ {World Socket IoError : Type 0} (sys : Sys World Socket IoError) where
  -- The listener of the statistics is made for its address, if it has one, and its own address asked.
  abbrev pub IsServing : Option SocketAddr → Option (Socket × SocketAddr) → World → World → Type 0
  IsServing none none w u = w ≡ u
  IsServing (some address) (some (listener, bound)) w u =
      AreGranted sys (listener_requests address listener ++ (locates listener bound ∷ [])) w u
  IsServing _ _ w u = ⊥

  pub bind_stats-IsServing :
      (address : Option SocketAddr) (w u : World) {endpoint : Option (Socket × SocketAddr)}
      → bind_stats sys address w ≡ (ok endpoint, u)
      → IsServing address endpoint w u
  unfolding bind_stats
  bind_stats-IsServing none w u e =
      subst (λ endpoint. IsServing none endpoint w u) (ok_inj (ap (λ p. p.0) e)) (ap (λ p. p.1) e)
  bind_stats-IsServing (some address) w u e =
      let (listener, v, listens, then_address) =
        next-split (with_context (stats_bind_failed address) (bind_tcp_listener sys address) w) _
          e in
      let (bound, x, located, rest) =
        next-split (with_context stats_address_failed (sys.local_addr listener) v) _ then_address in
      subst (λ endpoint. IsServing (some address) endpoint w u) (ok_inj (ap (λ p. p.0) rest))
        (AreGranted-append sys (listener_requests address listener) (locates listener bound ∷ []) w
          v u
          (bind_tcp_listener-AreGranted sys address w v
            (annotate-split (stats_bind_failed address) _ listens))
          (x, annotate-split stats_address_failed _ located, ap (λ p. p.1) rest))

  -- The loop adds the ports that are left, in order, with the requests for each.
  abbrev AreBound :
      IpAddr → List ℕ → List (Bound Socket) → List (Bound Socket) → World → World → Type 0
  AreBound host ps bs all w u =
      (new : List (Bound Socket)) × (all ≡ bs ++ new)
      × (ports_of new ≡ ps)
      × AreGranted sys (port_requests host new) w u

  pub bind_ports-AreBound :
      (host : IpAddr) (ps : List ℕ) (bs : List (Bound Socket)) (w u : World)
      {all : List (Bound Socket)}
      → bind_ports sys host ps bs w ≡ (ok all, u)
      → AreBound host ps bs all w u
  unfolding bind_ports
  bind_ports-AreBound host [] bs w u e =
      ([], sym (ok_inj (ap (λ p. p.0) e)) ∙ sym (append-nil bs), refl, ap (λ p. p.1) e)
  bind_ports-AreBound host (p ∷ ps) bs w u e =
      let address = socket_addr host p in
      let (tcp, v, listens, then_udp) =
        next-split (with_context (tcp_bind_failed address) (bind_tcp_listener sys address) w) _ e in
      let (udp, x, receives, then_rest) =
        next-split (with_context (udp_bind_failed address) (bind_udp_socket sys address) v) _
          then_udp in
      let b : Bound Socket = record { port = p; tcp_listener = tcp; udp_socket = udp } in
      let (new, same, ports, granted) = bind_ports-AreBound host ps (bs ++ b ∷ []) x u then_rest in
      (
        b ∷ new,
        same ∙ append_assoc bs (b ∷ []) new,
        ap (λ qs. p ∷ qs) ports,
        AreGranted-append sys (listener_requests address tcp)
            (udp_requests address udp ++ port_requests host new) w v u
            (bind_tcp_listener-AreGranted sys address w v
              (annotate-split (tcp_bind_failed address) _ listens))
            (AreGranted-append sys (udp_requests address udp) (port_requests host new) v x u
              (bind_udp_socket-AreGranted sys address v x
                (annotate-split (udp_bind_failed address) _ receives))
              granted),
      )
