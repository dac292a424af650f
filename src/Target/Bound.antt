-- ===== src/Target/Bound.antt =====
-- What a lookup and `TargetAddr::bind` return when they succeed.
use range_porter.Prelude.{
  ℕ, ◌+◌, ◌-◌, ◌≤◌, ◌≡◌, refl, sym, ap, inl, inr, false, List, [], ◌∷◌, Option, none, some, arith,
  Option-cases,
}
use mathlib.Core.Path.{subst}
use range_porter.Result.{Result, ok, err, bind_ok}
use range_porter.Net.{IpAddr, SocketAddr, socket_addr}
use range_porter.Text.{Text}
use range_porter.Target.{TargetError, split_host_port}
use range_porter.Target.HostPort.{Written, split_host_port_iff}
use range_porter.Target.Resolve.{
  dns_positive_min_ttl, dns_positive_max_ttl, Resolved, TargetAddr, static_target, dynamic_target,
  Lookup, failed, answered, clamp, resolve_once, resolve_failed, with_context, bind_dynamic, bind,
}

clamp_bounds :
    (value low high : ℕ) → low ≤ high → (low ≤ clamp value low high) × (clamp value low high ≤ high)
unfolding clamp
clamp_bounds value low high h = ground arith

-- The first address that the resolver gave, with the target's port, for 5 to 600 seconds from `now`.
abbrev pub FirstAnswer : ℕ → Lookup → ℕ → Resolved → Type 0
FirstAnswer port lookup now r =
    (ip : IpAddr) × (ips : List IpAddr) × (deadline : ℕ) × (lookup ≡ answered (ip ∷ ips) deadline)
    × (r.addr ≡ socket_addr ip port)
    × (now + dns_positive_min_ttl ≤ r.valid_until)
    × (r.valid_until ≤ now + dns_positive_max_ttl)

ok_inj : {A : Type 0} {a b : A} → ◌≡◌ {A = Result TargetError A} (ok a) (ok b) → a ≡ b
ok_inj e = cc

pub resolve_once-ok :
    (host : Text) (port : ℕ) (lookup : Lookup) (now : ℕ) (r : Resolved) (ttl : ℕ)
    → resolve_once host port lookup now ≡ ok (r, ttl)
    → FirstAnswer port lookup now r
unfolding resolve_once
resolve_once-ok host port failed now r ttl e = absurd (cc)
resolve_once-ok host port (answered [] d) now r ttl e = absurd (cc)
resolve_once-ok host port (answered (ip ∷ ips) d) now r ttl e =
    let (low, high) =
      clamp_bounds (d - now) dns_positive_min_ttl dns_positive_max_ttl (omega arith) in
    let same = ap (λ (x : Resolved × ℕ). x.0) (ok_inj e) in
    (
      ip,
      ips,
      d,
      refl,
      sym (ap (λ (x : Resolved). x.addr) same),
      omega (arith, low, ap (λ (x : Resolved). x.valid_until) same),
      omega (arith, high, ap (λ (x : Resolved). x.valid_until) same),
    )

with_context-ok :
    {A : Type 0} (r : Result TargetError A) (context : TargetError) {a : A}
    → with_context r context ≡ ok a
    → r ≡ ok a
with_context-ok (ok b) context e = e
with_context-ok (err m) context e = cc

module _ {Resolver : Type 0} (parse_socket_addr : Text → Option SocketAddr)
    (build_resolver : Option SocketAddr → Result TargetError Resolver)
    (lookup_ip : Resolver → Text → Lookup) where
  -- What a bound target is: the text, and the address that was written; or the host and the port,
  -- with the first answer for them and no refresh on its way.
  abbrev pub Bound : Text → Text → ℕ → Option SocketAddr → ℕ → TargetAddr Resolver → Type 0
  Bound raw host port dns_server now (static_target s) =
      (parse_socket_addr raw ≡ some s.addr) × (s.raw ≡ raw)
  Bound raw host port dns_server now (dynamic_target d) =
      (parse_socket_addr raw ≡ none)
      × (build_resolver dns_server ≡ ok d.resolver)
      × (d.raw ≡ raw)
      × (d.host ≡ host)
      × (d.port ≡ port)
      × (d.refresh_inflight ≡ false)
      × FirstAnswer port (lookup_ip d.resolver host) now d.current

  bind_dynamic-ok :
      (raw host : Text) (port : ℕ) (dns_server : Option SocketAddr) (now : ℕ)
      (t : TargetAddr Resolver)
      → parse_socket_addr raw ≡ none
      → bind_dynamic parse_socket_addr build_resolver lookup_ip raw host port dns_server now ≡ ok t
      → Bound raw host port dns_server now t
  unfolding bind_dynamic
  bind_dynamic-ok raw host port dns_server now t unparsed e =
      let (resolver, built, e₁) = bind_ok (build_resolver dns_server) _ e in
      let lookup = resolve_once host port (lookup_ip resolver host) now in
      let (r, asked, e₂) = bind_ok (with_context lookup (resolve_failed host)) _ e₁ in
      subst (Bound raw host port dns_server now) (ok_inj e₂) (
        unparsed,
        built,
        refl,
        refl,
        refl,
        refl,
        resolve_once-ok host port (lookup_ip resolver host) now (r.0) (r.1)
            (with_context-ok lookup (resolve_failed host) asked),
      )

  -- A target is bound only if it is written as a host and a port. It is static where the text is a
  -- socket address, which it then keeps. Otherwise it is dynamic: it has that host and port and the
  -- resolver that was built, no refresh is on its way, and its address is the first that the
  -- resolver answered for the host, with the port, held valid for 5 to 600 seconds.
  pub bind-ok :
      (raw : Text) (dns_server : Option SocketAddr) (now : ℕ) (t : TargetAddr Resolver)
      → bind parse_socket_addr build_resolver lookup_ip raw dns_server now ≡ ok t
      → (host : Text) × (port : ℕ) × Written raw host port × Bound raw host port dns_server now t
  unfolding bind
  bind-ok raw dns_server now t e =
      let ((host, port), parts, e₁) = bind_ok (split_host_port raw) _ e in
      let (written, _) = split_host_port_iff raw host port in
      elim (Option-cases (parse_socket_addr raw)) [
        | inl unparsed ↦ (
          host,
          port,
          written parts,
          bind_dynamic-ok raw host port dns_server now t unparsed (rw unparsed at e₁),
        )
        | inr (a, parsed) ↦ (
          host,
          port,
          written parts,
          subst (Bound raw host port dns_server now) (ok_inj (rw parsed at e₁)) (parsed, refl),
        )
      ]
