-- ===== src/Stats/Registry/Totals.antt =====
-- The totals over all ports.
use range_porter.Prelude.{
  ℕ, ◌+◌, ◌%◌, ◌<◌, ◌≡◌, refl, inl, inr, List, [], ◌∷◌, some, arith, ◌==◌, Bool-cases, some_inj,
}
use range_porter.Word.{u64_mod}
use range_porter.Stats.Port.{PortStats, PortSnapshot}
use range_porter.Stats.Port
use range_porter.Stats.Bucket.{AggregateTotals, no_totals}
use range_porter.Stats.Registry.{
  PortMap, StatsRegistry, get_port, port, update_ports, update_port, add_snapshot, add_snapshots,
  aggregate_from_snapshots, port_snapshots, snapshot,
}

-- The counters that are added up.
pub data Field : Type 0 where
  accepted active closed flows tcp_in tcp_out udp_in udp_out dropped : Field

abbrev pub of_port : Field → PortSnapshot → ℕ
of_port accepted s = s.tcp_accepted
of_port active s = s.tcp_active
of_port closed s = s.tcp_closed
of_port flows s = s.udp_active_flows
of_port tcp_in s = s.tcp_in_bytes
of_port tcp_out s = s.tcp_out_bytes
of_port udp_in s = s.udp_in_bytes
of_port udp_out s = s.udp_out_bytes
of_port dropped s = s.udp_dropped

abbrev pub of_totals : Field → AggregateTotals → ℕ
of_totals accepted t = t.tcp_accepted
of_totals active t = t.tcp_active
of_totals closed t = t.tcp_closed
of_totals flows t = t.udp_active_flows
of_totals tcp_in t = t.tcp_in_bytes
of_totals tcp_out t = t.tcp_out_bytes
of_totals udp_in t = t.udp_in_bytes
of_totals udp_out t = t.udp_out_bytes
of_totals dropped t = t.udp_dropped

abbrev pub sum : Field → List PortSnapshot → ℕ
sum f [] = 0
sum f (s ∷ ss) = of_port f s + sum f ss

of_totals-add_snapshot :
    (f : Field) (t : AggregateTotals) (s : PortSnapshot)
    → of_totals f (add_snapshot t s) ≡ (of_totals f t + of_port f s) % u64_mod
unfolding add_snapshot
of_totals-add_snapshot accepted t s = refl
of_totals-add_snapshot _ t s = refl

of_no_totals : (f : Field) → of_totals f no_totals ≡ 0
of_no_totals accepted = refl
of_no_totals _ = refl

add_snapshots-sum :
    (f : Field) (ss : List PortSnapshot) (t : AggregateTotals)
    → of_totals f t < u64_mod
    → of_totals f (add_snapshots t ss) ≡ (of_totals f t + sum f ss) % u64_mod
unfolding add_snapshots
add_snapshots-sum f [] t h = omega arith
add_snapshots-sum f (s ∷ ss) t h =
    let step = of_totals-add_snapshot f t s in
    omega (arith, step, add_snapshots-sum f ss (add_snapshot t s) (omega (arith, step)))

aggregate-sum :
    (f : Field) (ss : List PortSnapshot)
    → of_totals f (aggregate_from_snapshots ss) ≡ sum f ss % u64_mod
aggregate-sum f ss =
    unfold aggregate_from_snapshots in
    omega (arith, of_no_totals f, add_snapshots-sum f ss no_totals (omega (arith, of_no_totals f)))

-- Each of the totals in a snapshot is the sum modulo 2 ^ 64 of that counter over the ports listed.
pub snapshot-totals :
    (registry : StatsRegistry) (now : ℕ) (f : Field)
    → of_totals f (snapshot registry now).totals ≡ sum f (snapshot registry now).ports % u64_mod
snapshot-totals registry now f = unfold snapshot in aggregate-sum f (port_snapshots registry.ports)

sum-update_ports :
    (f : Field) (p : ℕ) (g : PortStats → PortStats) (s : PortStats) (ports : PortMap)
    → get_port p ports ≡ some s
    → sum f (port_snapshots (update_ports p g ports)) + of_port f (Port.snapshot s)
      ≡ sum f (port_snapshots ports) + of_port f (Port.snapshot (g s))
unfolding get_port update_ports port_snapshots
sum-update_ports f p g s [] e = absurd (cc)
sum-update_ports f p g s ((q, t) ∷ ports) e = elim (Bool-cases (p == q)) [
  | inl same ↦ let found : t ≡ s = some_inj (rw same at e) in rw same (rw found (omega arith))
  | inr ne ↦ rw ne (omega (arith, sum-update_ports f p g s ports (rw ne at e)))
]

-- What a call does to the counters of one port it does, modulo 2 ^ 64, to the totals.
pub totals-update_port :
    (registry : StatsRegistry) (now p : ℕ) (g : PortStats → PortStats) (s : PortStats) (f : Field)
    → port registry p ≡ some s
    → (of_totals f (snapshot (update_port p g registry) now).totals + of_port f (Port.snapshot s))
        % u64_mod
      ≡ (of_totals f (snapshot registry now).totals + of_port f (Port.snapshot (g s))) % u64_mod
totals-update_port registry now p g s f e =
    let moved : sum f (snapshot (update_port p g registry) now).ports + of_port f (Port.snapshot s)
        ≡ sum f (snapshot registry now).ports + of_port f (Port.snapshot (g s)) =
      unfold snapshot update_port port in sum-update_ports f p g s registry.ports e in
    omega (
      arith,
      snapshot-totals registry now f,
      snapshot-totals (update_port p g registry) now f,
      moved,
    )
