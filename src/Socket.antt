-- ===== src/Socket.antt =====
-- src/socket.rs: how sockets are made. `Sys` is the interface of the system (the socket2 crate and
-- tokio), over a `World` that each request changes.
use range_porter.Prelude.{ℕ, ◌*◌, ◌≡◌, refl}
use range_porter.Result.{Result, ok, err}
use range_porter.Net.{SocketAddr, v4, v6}

-- A request that may fail, and changes the world either way.
abbrev pub Io : Type 0 → Type 0 → Type 0 → Type 0
Io World E A = World → Result E A × World

abbrev pub pure : {World E A : Type 0} → A → Io World E A
pure a w = (ok a, w)

-- `?`: the first error ends the chain.
abbrev pub next :
    {World E A B : Type 0} → Result E A × World → (A → Io World E B) → Result E B × World
next (ok a, w) f = f a w
next (err e, w) f = (err e, w)

infixl 5 ◌>>=◌ ◌>>◌
abbrev pub ◌>>=◌ : {World E A B : Type 0} → Io World E A → (A → Io World E B) → Io World E B
◌>>=◌ m f w = next (m w) f

abbrev pub ◌>>◌ : {World E B : Type 0} → Io World E (Unit {0}) → Io World E B → Io World E B
m >> k = m >>= λ _. k

pub data Domain : Type 0 where
  ipv4 ipv6 : Domain

pub data Kind : Type 0 where
  stream dgram : Kind

-- The last one makes a socket of tokio's.
pub data Request : Type 0 where
  set_reuse_address set_nonblocking register : Request
  set_send_buffer_size set_recv_buffer_size listen : ℕ → Request
  bind_to connect_to : SocketAddr → Request

pub record Sys (World Socket IoError : Type 0) : Type 0 where
  pub new_socket : Domain → Kind → Io World IoError Socket
  pub request : Socket → Request → Io World IoError (Unit {0})
  pub local_addr : Socket → Io World IoError SocketAddr

abbrev pub udp_socket_buffer_bytes : ℕ
udp_socket_buffer_bytes = 4 * 1024 * 1024

unfoldable pub domain_for : SocketAddr → Domain
domain_for (v4 ip port) = ipv4
domain_for (v6 ip port flowinfo scope_id) = ipv6

-- The unspecified address of the target's family, and port 0.
unfoldable pub bind_addr : SocketAddr → SocketAddr
bind_addr (v4 ip port) = v4 0 0
bind_addr (v6 ip port flowinfo scope_id) = v6 0 0 0 0

module _ {World Socket IoError : Type 0} (sys : Sys World Socket IoError) where
  unfoldable pub configure_udp_socket : Socket → Io World IoError (Unit {0})
  configure_udp_socket socket = do
    sys.request socket (set_send_buffer_size udp_socket_buffer_bytes)
    sys.request socket (set_recv_buffer_size udp_socket_buffer_bytes)

  unfoldable pub bind_tcp_listener : SocketAddr → Io World IoError Socket
  unfolding domain_for
  bind_tcp_listener address = do
    socket ← sys.new_socket (domain_for address) stream
    sys.request socket set_reuse_address
    sys.request socket (bind_to address)
    sys.request socket (listen 1024)
    sys.request socket set_nonblocking
    sys.request socket register
    pure socket

  unfoldable pub bind_udp_socket : SocketAddr → Io World IoError Socket
  unfolding domain_for configure_udp_socket
  bind_udp_socket address = do
    socket ← sys.new_socket (domain_for address) dgram
    sys.request socket set_reuse_address
    configure_udp_socket socket
    sys.request socket (bind_to address)
    sys.request socket set_nonblocking
    sys.request socket register
    pure socket

  unfoldable pub new_connected_udp_socket : SocketAddr → Io World IoError Socket
  unfolding domain_for bind_addr configure_udp_socket
  new_connected_udp_socket target = do
    socket ← sys.new_socket (domain_for target) dgram
    configure_udp_socket socket
    sys.request socket (bind_to (bind_addr target))
    sys.request socket (connect_to target)
    sys.request socket set_nonblocking
    sys.request socket register
    pure socket

-- A chain that succeeds has succeeded at its first step, and from there on.
pub next-ok :
    {World E A B : Type 0} (r : Result E A × World) (f : A → Io World E B) {b : B}
    → (next r f).0 ≡ ok b
    → (a : A) × (r.0 ≡ ok a) × ((f a (r.1)).0 ≡ ok b)
next-ok (ok a, w) f h = (a, refl, h)
next-ok (err e, w) f h = cc
