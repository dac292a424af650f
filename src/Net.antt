-- ===== src/Net.antt =====
-- `IpAddr` and `SocketAddr` of Rust's standard library. An address is the number that its bytes
-- spell in network order.
use mathlib.Core.Path.{subst}
use range_porter.Prelude.{Bool-cases, inl, inr, ℕ, Bool, true, false, ◌&&◌, ◌==◌, ◌≡◌, arith}

pub data IpAddr : Type 0 where
  ip_v4 ip_v6 : ℕ → IpAddr

pub data SocketAddr : Type 0 where
  v4 : (ip port : ℕ) → SocketAddr
  v6 : (ip port flowinfo scope_id : ℕ) → SocketAddr

-- `SocketAddr::new`.
unfoldable pub socket_addr : IpAddr → ℕ → SocketAddr
socket_addr (ip_v4 ip) port = v4 ip port
socket_addr (ip_v6 ip) port = v6 ip port 0 0

-- The derived `==`.
unfoldable pub same_addr : SocketAddr → SocketAddr → Bool
same_addr (v4 ip port) (v4 ip' port') = ip == ip' && port == port'
same_addr (v6 ip port flow scope) (v6 ip' port' flow' scope') =
    ip == ip' && port == port' && flow == flow' && scope == scope'
same_addr (v4 _ _) (v6 _ _ _ _) = false
same_addr (v6 _ _ _ _) (v4 _ _) = false

pub same_addr-eq : (a b : SocketAddr) → same_addr a b ≡ true → a ≡ b
unfolding same_addr
same_addr-eq (v4 ip port) (v4 ip' port') e = ground arith
same_addr-eq (v6 ip port flow scope) (v6 ip' port' flow' scope') e = ground arith
same_addr-eq (v4 _ _) (v6 _ _ _ _) e = absurd (cc)
same_addr-eq (v6 _ _ _ _) (v4 _ _) e = absurd (cc)

pub same_addr_self : (a : SocketAddr) → same_addr a a ≡ true
unfolding same_addr
same_addr_self (v4 ip port) = ground arith
same_addr_self (v6 ip port flow scope) = ground arith

pub same_addr-differs : (a b : SocketAddr) → same_addr a b ≡ false → same_addr b a ≡ false
same_addr-differs a b h = elim (Bool-cases (same_addr b a)) [
  | inl same ↦
      let bad : same_addr a a ≡ false =
        subst (λ x. same_addr a x ≡ false) (same_addr-eq b a same) h in
      let self = same_addr_self a in cc
  | inr other ↦ other
]
