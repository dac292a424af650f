-- ===== src/Target/Resolve.antt =====
-- `resolve_once` and `TargetAddr::bind`. Instants and durations count nanoseconds. The answer of
-- the DNS resolver is a value of `Lookup`; the resolver, and the parser of socket addresses of the
-- standard library, are parameters of `bind`.
use range_porter.Prelude.{
  ℕ, ◌+◌, ◌-◌, ◌*◌, Bool, false, List, [], ◌∷◌, ◌++◌, Option, none, some, ltb, if◌then◌else◌,
}
use range_porter.Result.{Result, ok, err, ◌>>=◌}
use range_porter.Net.{IpAddr, SocketAddr, socket_addr}
use range_porter.Text.{Text, codes}
use range_porter.Target.{TargetError, split_host_port}

abbrev pub second : ℕ
second = 1_000_000_000

abbrev pub dns_positive_min_ttl : ℕ
dns_positive_min_ttl = 5 * second

abbrev pub dns_positive_max_ttl : ℕ
dns_positive_max_ttl = 600 * second

abbrev pub dns_failure_refresh : ℕ
dns_failure_refresh = 30 * second

pub record Resolved : Type 0 where
  pub addr : SocketAddr
  pub valid_until : ℕ

pub record StaticTarget : Type 0 where
  pub raw : Text
  pub addr : SocketAddr

-- `current` is the content of the lock, `refresh_inflight` of the atomic flag.
pub record DynamicTarget (Resolver : Type 0) : Type 0 where
  pub raw : Text
  pub host : Text
  pub port : ℕ
  pub resolver : Resolver
  pub current : Resolved
  pub refresh_inflight : Bool

pub data TargetAddr (Resolver : Type 0) : Type 0 where
  static_target : StaticTarget → TargetAddr Resolver
  dynamic_target : DynamicTarget Resolver → TargetAddr Resolver

-- What `lookup_ip` returns: an error, or the addresses and the instant until which they are valid.
pub data Lookup : Type 0 where
  failed : Lookup
  answered : List IpAddr → ℕ → Lookup

-- `Ord::clamp`.
unfoldable pub clamp : ℕ → ℕ → ℕ → ℕ
clamp value low high = if ltb value low then low else if ltb high value then high else value

unfoldable pub lookup_failed : Text → TargetError
lookup_failed host = record { message = codes "DNS lookup for `" ++ (host ++ codes "` failed") }

unfoldable pub no_records : Text → TargetError
no_records host = record {
  message = codes "DNS lookup for `" ++ (host ++ codes "` returned no records");
}

unfoldable pub resolve_failed : Text → TargetError
resolve_failed host = record {
  message = codes "failed to resolve target host `" ++ (host ++ codes "`");
}

-- The saturating difference of instants is `-` on ℕ.
unfoldable pub resolve_once : Text → ℕ → Lookup → ℕ → Result TargetError (Resolved × ℕ)
unfolding clamp
resolve_once host port failed now = err (lookup_failed host)
resolve_once host port (answered [] ttl_deadline) now = err (no_records host)
resolve_once host port (answered (ip ∷ ips) ttl_deadline) now =
    let clamped_ttl = clamp (ttl_deadline - now) dns_positive_min_ttl dns_positive_max_ttl in
    ok (record { addr = socket_addr ip port; valid_until = now + clamped_ttl }, clamped_ttl)

-- `with_context`: the message in front of an error.
abbrev pub with_context {ℓ} :
    {A : Type ℓ} → Result TargetError A → TargetError → Result TargetError A
with_context (ok a) context = ok a
with_context (err e) context = err context

module _ {Resolver : Type 0} (parse_socket_addr : Text → Option SocketAddr)
    (build_resolver : Option SocketAddr → Result TargetError Resolver)
    (lookup_ip : Resolver → Text → Lookup) where
  unfoldable pub bind_dynamic :
      Text → Text → ℕ → Option SocketAddr → ℕ → Result TargetError (TargetAddr Resolver)
  bind_dynamic raw host port dns_server now = do
    resolver ← build_resolver dns_server
    resolved ←
        with_context (resolve_once host port (lookup_ip resolver host) now) (resolve_failed host)
    ok (
        dynamic_target (record {
          raw = raw;
          host = host;
          port = port;
          resolver = resolver;
          current = resolved.0;
          refresh_inflight = false;
        }))

  unfoldable pub bind : Text → Option SocketAddr → ℕ → Result TargetError (TargetAddr Resolver)
  unfolding bind_dynamic
  bind raw dns_server now = do
    parts ← split_host_port raw
    elim (parse_socket_addr raw) [
      | some addr ↦ ok (static_target (record { raw = raw; addr = addr }))
      | none ↦ bind_dynamic raw (parts.0) (parts.1) dns_server now
    ]

module _ {Resolver : Type 0} where
  unfoldable pub display : TargetAddr Resolver → Text
  display (static_target s) = s.raw
  display (dynamic_target d) = d.raw

  -- The address that a dynamic target answers with is the one in the lock, also when it is stale.
  unfoldable pub current : TargetAddr Resolver → SocketAddr
  current (static_target s) = s.addr
  current (dynamic_target d) = d.current.addr
