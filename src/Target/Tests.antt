-- ===== src/Target/Tests.antt =====
-- The unit tests of src/target.rs, and the theorems at concrete inputs.
use range_porter.Prelude.{
  ℕ, ◌+◌, ◌*◌, ◌≤◌, ◌≡◌, refl, ◌↔◌, ◌⊎◌, inl, inr, false, List, [], ◌∷◌, ◌++◌, Option, none, arith,
}
use range_porter.Result.{Result, ok, err}
use range_porter.Net.{IpAddr, ip_v4, SocketAddr, socket_addr}
use range_porter.Text.{Text, codes, strip_prefix, find, rsplit_once, is_empty, parse_u16}
use range_porter.Target.{TargetError, no_colon, zero_port, parse_port, split_host_port}
use range_porter.Target.HostPort.{Written, split_host_port_iff}
use range_porter.Target.Resolve.{
  second, dns_positive_max_ttl, dns_failure_refresh, Resolved, DynamicTarget, dynamic_target,
  Lookup, failed, answered, resolve_once, bind,
}
use range_porter.Target.Bound.{Bound, bind-ok}
use range_porter.Target.Refresh.{
  Event, reads, tries, answers, reads_stale, stores, releases, after_lookup, read_current,
  exchange_flag, try_spawn_refresh, task_step, step, run, idle,
}
use range_porter.Target.Refresh.Safety.{SingleFlight, single_flight}
use range_porter.Target.Refresh.Entries.{run-addr, run-valid_until}
use range_porter.Target.Refresh.Flight.{IsOver}
use range_porter.Target.Refresh.Progress.{weave, successful_round, failed_round, refresh_round}

rejects_missing_port : split_host_port (codes "example.com") ≡ err (no_colon (codes "example.com"))
unfolding split_host_port strip_prefix rsplit_once find is_empty parse_port parse_u16
rejects_missing_port = refl

rejects_zero_port :
    split_host_port (codes "example.com:0") ≡ err (zero_port (codes "example.com:0"))
unfolding split_host_port strip_prefix rsplit_once find is_empty parse_port parse_u16
rejects_zero_port = refl

parses_bracketed_ipv6 : split_host_port (codes "[2001:db8::1]:443") ≡ ok (codes "2001:db8::1", 443)
unfolding split_host_port strip_prefix rsplit_once find is_empty parse_port parse_u16
parses_bracketed_ipv6 = refl

split_host_port_iff_example :
    (split_host_port (codes "[2001:db8::1]:443") ≡ ok (codes "2001:db8::1", 443))
    ↔ Written (codes "[2001:db8::1]:443") (codes "2001:db8::1") 443
split_host_port_iff_example =
    split_host_port_iff (codes "[2001:db8::1]:443") (codes "2001:db8::1") 443

abbrev loopback : IpAddr
loopback = ip_v4 2_130_706_433

abbrev other : IpAddr
other = ip_v4 167_772_161

data Resolver : Type 0 where
  system : Resolver

-- No text is a socket address here, and there is one resolver.
abbrev no_literal : Text → Option SocketAddr
no_literal raw = none

abbrev one_resolver : Option SocketAddr → Result TargetError Resolver
one_resolver dns_server = ok system

abbrev localhost_lookup : Resolver → Text → Lookup
localhost_lookup resolver host = answered (loopback ∷ other ∷ []) (90 * second)

abbrev localhost : DynamicTarget Resolver
localhost = record {
  raw = codes "localhost:9000";
  host = codes "localhost";
  port = 9000;
  resolver = system;
  current = record { addr = socket_addr loopback 9000; valid_until = 90 * second };
  refresh_inflight = false;
}

localhost_domain_resolves_to_dynamic :
    bind no_literal one_resolver localhost_lookup (codes "localhost:9000") none (10 * second)
    ≡ ok (dynamic_target localhost)
unfolding bind resolve_once split_host_port strip_prefix rsplit_once is_empty parse_port parse_u16
    socket_addr
localhost_domain_resolves_to_dynamic = refl

bind-ok_example :
    (host : Text) × (port : ℕ) × Written (codes "localhost:9000") host port
    × Bound no_literal one_resolver localhost_lookup
        (codes "localhost:9000")
        host
        port
        none
        (10 * second)
        (dynamic_target localhost)
bind-ok_example =
    bind-ok no_literal one_resolver localhost_lookup (codes "localhost:9000") none (10 * second)
      (dynamic_target localhost) localhost_domain_resolves_to_dynamic

-- Two readers find the entry expired, one of them spawns a task, and the next lookup fails.
abbrev steps : List Event
steps =
    reads (90 * second)
    ∷ reads (91 * second)
    ∷ tries
    ∷ tries
    ∷ answers 0 (answered (other ∷ []) (100 * second)) (92 * second)
    ∷ stores 0
    ∷ releases 0
    ∷ reads (120 * second)
    ∷ tries
    ∷ answers 0 failed (121 * second)
    ∷ reads_stale 0 (122 * second)
    ∷ stores 0
    ∷ []

single_flight_example : SingleFlight (run (idle localhost) steps)
single_flight_example = single_flight localhost steps refl

abbrev IsKnown : SocketAddr → Type 0
IsKnown addr = (addr ≡ socket_addr loopback 9000) ⊎ (addr ≡ socket_addr other 9000)

run-addr_example : IsKnown (run (idle localhost) steps).target.current.addr
run-addr_example =
    run-addr localhost IsKnown steps (inl refl)
      (tt, (tt, (tt, (tt, (inr refl, (tt, (tt, (tt, (tt, (tt, (tt, (tt, tt))))))))))))

run-valid_until_example :
    (run (idle localhost) steps).target.current.valid_until ≤ 122 * second + dns_positive_max_ttl
run-valid_until_example = run-valid_until localhost (122 * second) steps (omega arith) (
  omega arith,
  (
    omega arith,
    (
      tt,
      (tt, (omega arith, (tt, (tt, (omega arith, (tt, (omega arith, (omega arith, (tt, tt))))))))),
    ),
  ),
)

-- Another reader finds the entry expired too, before each step of the round.
abbrev meanwhile : ℕ → List Event
meanwhile i = reads (215 * second) ∷ tries ∷ []

refresh_round_example :
    let s = run (idle localhost) (steps ++ (releases 0 ∷ [])) in
    ((r : Resolved) (ttl : ℕ)
      → resolve_once s.target.host s.target.port failed (216 * second) ≡ ok (r, ttl)
      → IsOver
          (record s.target { current = r; refresh_inflight = false })
          (run s
            (reads (214 * second) ∷ weave meanwhile 0 (successful_round failed (216 * second)))))
    × ((e : TargetError)
        → resolve_once s.target.host s.target.port failed (216 * second) ≡ err e
        → IsOver
            (record s.target {
              current = record {
                addr = s.target.current.addr;
                valid_until = 217 * second + dns_failure_refresh;
              };
              refresh_inflight = false;
            })
            (run s (
              reads (214 * second)
              ∷ weave meanwhile 0 (failed_round failed (216 * second) (217 * second)))))
unfolding run step read_current try_spawn_refresh exchange_flag task_step after_lookup resolve_once
refresh_round_example =
    refresh_round localhost (steps ++ (releases 0 ∷ [])) meanwhile (214 * second) (216 * second)
      (217 * second) failed refl refl (omega arith) (λ i. (tt, (tt, tt)))
