-- ===== src/UdpBatch/Sockaddr.antt =====
-- The socket addresses in the form of the system, on a little-endian machine: a field in network
-- order is read with its bytes swapped.
use range_porter.Prelude.{ℕ, ◌+◌, ◌*◌, ◌/◌, ◌%◌, ◌^◌, ◌<◌, ◌≡◌, Option, none, some, arith}
use range_porter.Net.{SocketAddr, v4, v6}

-- `sockaddr_storage`, by its family: the fields of `sockaddr_in` and of `sockaddr_in6` as the
-- machine reads them, the address of the latter as the number of its bytes; or another family.
pub data Storage : Type 0 where
  inet : (sin_port s_addr : ℕ) → Storage
  inet6 : (sin6_port sin6_flowinfo s6_addr sin6_scope_id : ℕ) → Storage
  other_family : ℕ → Storage

-- `u16::from_be` and `u32::from_be`.
unfoldable pub from_be_16 : ℕ → ℕ
from_be_16 n = n % 2 ^ 8 * 2 ^ 8 + n / 2 ^ 8 % 2 ^ 8

unfoldable pub from_be_32 : ℕ → ℕ
from_be_32 n =
    n % 2 ^ 8 * 2 ^ 24
    + n / 2 ^ 8 % 2 ^ 8 * 2 ^ 16
    + n / 2 ^ 16 % 2 ^ 8 * 2 ^ 8
    + n / 2 ^ 24 % 2 ^ 8

unfoldable pub sockaddr_storage_to_socket_addr : Storage → Option SocketAddr
unfolding from_be_16 from_be_32
sockaddr_storage_to_socket_addr (inet sin_port s_addr) =
    some (v4 (from_be_32 s_addr) (from_be_16 sin_port))
sockaddr_storage_to_socket_addr (inet6 sin6_port sin6_flowinfo s6_addr sin6_scope_id) =
    some (v6 s6_addr (from_be_16 sin6_port) sin6_flowinfo sin6_scope_id)
sockaddr_storage_to_socket_addr (other_family f) = none

-- The numbers of an address fit the machine's fields.
abbrev pub Fits : SocketAddr → Type 0
Fits (v4 ip port) = (ip < 2 ^ 32) × (port < 2 ^ 16)
Fits (v6 ip port flowinfo scope_id) = port < 2 ^ 16

pub from_be_16-from_be_16 : (n : ℕ) → n < 2 ^ 16 → from_be_16 (from_be_16 n) ≡ n
unfolding from_be_16
from_be_16-from_be_16 n h = omega arith

pub from_be_32-from_be_32 : (n : ℕ) → n < 2 ^ 32 → from_be_32 (from_be_32 n) ≡ n
unfolding from_be_32
from_be_32-from_be_32 n h = omega arith
