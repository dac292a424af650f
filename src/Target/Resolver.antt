-- ===== src/Target/Resolver.antt =====
-- `build_resolver` of src/target.rs, over the resolver's own library.
use range_porter.Prelude.{ℕ, Bool, true, List, [], ◌∷◌, Option, none, some}
use range_porter.Result.{Result, ok, err}
use range_porter.Net.{IpAddr, ip_v4, ip_v6, SocketAddr, v4, v6}
use range_porter.Text.{codes}
use range_porter.Target.{TargetError}

-- `SocketAddr::ip` and `SocketAddr::port`.
unfoldable pub ip_of : SocketAddr → IpAddr
ip_of (v4 ip port) = ip_v4 ip
ip_of (v6 ip port flowinfo scope_id) = ip_v6 ip

unfoldable pub port_of : SocketAddr → ℕ
port_of (v4 ip port) = port
port_of (v6 ip port flowinfo scope_id) = port

-- The hickory resolver. `from_parts` takes no domain and no search list here; `system` reads the
-- configuration of the system, and `none` is its failure.
pub record Hickory (Group Resolver : Type 0) : Type 0 where
  pub from_ips_clear : List IpAddr → ℕ → Bool → Group
  pub from_parts : Group → Resolver
  pub system : Option Resolver

abbrev pub no_system_resolver : TargetError
no_system_resolver = record { message = codes "failed to initialize system DNS resolver" }

unfoldable pub build_resolver :
    {Group Resolver : Type 0}
    → Hickory Group Resolver
    → Option SocketAddr
    → Result TargetError Resolver
unfolding ip_of port_of
build_resolver hickory (some addr) =
    ok (hickory.from_parts (hickory.from_ips_clear (ip_of addr ∷ []) (port_of addr) true))
build_resolver hickory none = elim (hickory.system) [
  | some resolver ↦ ok resolver
  | none ↦ err no_system_resolver
]
