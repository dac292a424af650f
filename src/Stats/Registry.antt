-- ===== src/Stats/Registry.antt =====
-- src/stats/mod.rs: the registry. `BTreeMap<u16, Arc<PortStats>>` is an association list in
-- ascending order of the ports; a handle from `port` shares the counters with the map, so what is
-- done through a handle is `update_port` here. The clock is an argument.
pub mod Ports
pub mod Totals
pub mod History
pub mod Task
use range_porter.Prelude.{ℕ, List, [], ◌∷◌, Option, none, some, map, ltb, ◌==◌, if◌then◌else◌}
use range_porter.Word.{add_u64}
use range_porter.Text.{Text}
use range_porter.Stats.Port.{PortStats, PortSnapshot}
use range_porter.Stats.Port
use range_porter.Stats.Bucket.{AggregateTotals, MinuteBucket, BucketRing, no_totals}
use range_porter.Stats.Bucket

abbrev pub PortMap : Type 0
PortMap = List (ℕ × PortStats)

pub record StatsRegistry : Type 0 where
  pub target : Text
  pub started_at_epoch : ℕ
  pub window_minutes : ℕ
  pub ports : PortMap
  pub buckets : BucketRing
  pub previous_totals : AggregateTotals

pub record StatsSnapshot : Type 0 where
  pub target : Text
  pub started_at_epoch : ℕ
  pub generated_at_epoch : ℕ
  pub window_minutes : ℕ
  pub totals : AggregateTotals
  pub ports : List PortSnapshot
  pub minute_buckets : List MinuteBucket

-- `BTreeMap::insert`.
unfoldable pub insert_port : ℕ → PortStats → PortMap → PortMap
insert_port p s [] = (p, s) ∷ []
insert_port p s ((q, t) ∷ ports) =
    let later = (q, t) ∷ insert_port p s ports in
    if ltb p q then (p, s) ∷ (q, t) ∷ ports else if p == q then (p, s) ∷ ports else later

-- `collect()` of the pairs of a port and its new counters.
unfoldable pub collect_ports : List ℕ → PortMap → PortMap
unfolding insert_port
collect_ports [] ports = ports
collect_ports (p ∷ ps) ports = collect_ports ps (insert_port p (Port.new p) ports)

-- `StatsRegistry::new`, at the time `now`.
unfoldable pub new : List ℕ → Text → ℕ → ℕ → StatsRegistry
unfolding collect_ports
new listen_ports target window_minutes now = record {
  target = target;
  started_at_epoch = now;
  window_minutes = window_minutes;
  ports = collect_ports listen_ports [];
  buckets = Bucket.new window_minutes;
  previous_totals = no_totals;
}

-- `BTreeMap::get`.
unfoldable pub get_port : ℕ → PortMap → Option PortStats
get_port p [] = none
get_port p ((q, s) ∷ ports) = if p == q then some s else get_port p ports

-- `StatsRegistry::port`: `none` is the panic at an unknown port.
unfoldable pub port : StatsRegistry → ℕ → Option PortStats
unfolding get_port
port registry p = get_port p registry.ports

-- A method call on the counters of a port, through a handle.
unfoldable pub update_ports : ℕ → (PortStats → PortStats) → PortMap → PortMap
update_ports p f [] = []
update_ports p f ((q, s) ∷ ports) =
    if p == q then (q, f s) ∷ ports else (q, s) ∷ update_ports p f ports

unfoldable pub update_port : ℕ → (PortStats → PortStats) → StatsRegistry → StatsRegistry
unfolding update_ports
update_port p f registry = record registry { ports = update_ports p f registry.ports }

-- One round of the loop of `aggregate_from_snapshots`.
unfoldable pub add_snapshot : AggregateTotals → PortSnapshot → AggregateTotals
unfolding add_u64
add_snapshot totals s = record {
  tcp_accepted = add_u64 totals.tcp_accepted s.tcp_accepted;
  tcp_active = add_u64 totals.tcp_active s.tcp_active;
  tcp_closed = add_u64 totals.tcp_closed s.tcp_closed;
  udp_active_flows = add_u64 totals.udp_active_flows s.udp_active_flows;
  tcp_in_bytes = add_u64 totals.tcp_in_bytes s.tcp_in_bytes;
  tcp_out_bytes = add_u64 totals.tcp_out_bytes s.tcp_out_bytes;
  udp_in_bytes = add_u64 totals.udp_in_bytes s.udp_in_bytes;
  udp_out_bytes = add_u64 totals.udp_out_bytes s.udp_out_bytes;
  udp_dropped = add_u64 totals.udp_dropped s.udp_dropped;
}

unfoldable pub add_snapshots : AggregateTotals → List PortSnapshot → AggregateTotals
add_snapshots totals [] = totals
add_snapshots totals (s ∷ ss) = add_snapshots (add_snapshot totals s) ss

unfoldable pub aggregate_from_snapshots : List PortSnapshot → AggregateTotals
unfolding add_snapshots add_snapshot
aggregate_from_snapshots port_snapshots = add_snapshots no_totals port_snapshots

-- `self.ports.values().map(|port| port.snapshot())`.
unfoldable pub port_snapshots : PortMap → List PortSnapshot
port_snapshots [] = []
port_snapshots ((p, s) ∷ ports) = Port.snapshot s ∷ port_snapshots ports

unfoldable pub snapshot : StatsRegistry → ℕ → StatsSnapshot
unfolding aggregate_from_snapshots port_snapshots
snapshot registry now = record {
  target = registry.target;
  started_at_epoch = registry.started_at_epoch;
  generated_at_epoch = now;
  window_minutes = registry.window_minutes;
  totals = aggregate_from_snapshots (port_snapshots registry.ports);
  ports = port_snapshots registry.ports;
  minute_buckets = Bucket.snapshot registry.buckets;
}

unfoldable pub rollup_at_epoch : StatsRegistry → ℕ → StatsRegistry
unfolding aggregate_from_snapshots port_snapshots
rollup_at_epoch registry now_epoch_seconds =
    let totals = aggregate_from_snapshots (port_snapshots registry.ports) in
    let (buckets', previous') =
      Bucket.rollup registry.buckets now_epoch_seconds totals registry.previous_totals in
    record registry { buckets = buckets'; previous_totals = previous' }
