-- ===== src/Stats/Tests.antt =====
-- tests/stats_rollup.rs, and the theorems at concrete histories.
use range_porter.Prelude.{ℕ, ◌+◌, ◌%◌, ◌<◌, max, ◌≡◌, refl, List, [], ◌∷◌, some, arith, In, sum_by}
use range_porter.Text.{codes}
use range_porter.Word.{u64_mod, add_u64}
use range_porter.Stats.Port
use range_porter.Stats.Port.Accounts
use range_porter.Stats.Port.Accounts.{
  Call, tcp_accept, tcp_close, udp_flow_open, udp_flow_close, tcp_bytes, udp_in, run-accounts,
  run-bytes,
}
use range_porter.Stats.Bucket
use range_porter.Stats.Bucket.{AggregateTotals, MinuteBucket, no_totals}
use range_porter.Stats.Bucket.Minutes.{
  Sample, minute, rollups, record_minutes, nothing, last_minute,
}
use range_porter.Stats.Bucket.Sorting.{Ascending}
use range_porter.Stats.Bucket.Snapshot.{snapshot-rollups}
use range_porter.Stats.Bucket.Sums.{Column, Gauge, in_bucket, peak_in_bucket, gained, highest}
use range_porter.Stats.Bucket.Shown.{snapshot-sums, snapshot-last_totals}
use range_porter.Stats.Registry
use range_porter.Stats.Registry.{StatsRegistry, update_port, rollup_at_epoch}
use range_porter.Stats.Registry.Totals.{Field, sum, snapshot-totals}
use range_porter.Stats.Registry.History
use range_porter.Stats.Registry.History.{Action, counts, rolls, run_rollup, samples, run-rollups}
use range_porter.Stats.Registry.Task.{run_rollup-snapshot}

abbrev first_minute : StatsRegistry → StatsRegistry
first_minute r =
    rollup_at_epoch
      (update_port 4443
        (λ s. Port.add_udp_out 40 (
          Port.add_udp_in 30
            (Port.record_udp_flow_open (Port.add_tcp_bytes 10 20 (Port.record_tcp_accept s)))))
        r)
      60

abbrev second_minute : StatsRegistry → StatsRegistry
second_minute r =
    rollup_at_epoch
      (update_port 4443
        (λ s. Port.add_udp_out 13 (
          Port.add_udp_in 11
            (Port.add_tcp_bytes 5 7 (Port.record_udp_flow_close (Port.record_tcp_close s)))))
        r)
      120

abbrev expected : List MinuteBucket
expected =
    record {
      minute_epoch = 1;
      tcp_new_conn = 1;
      tcp_active_peak = 1;
      udp_active_flows_peak = 1;
      tcp_in_bytes = 10;
      tcp_out_bytes = 20;
      udp_in_bytes = 30;
      udp_out_bytes = 40;
    }
    ∷ record {
      minute_epoch = 2;
      tcp_new_conn = 0;
      tcp_active_peak = 0;
      udp_active_flows_peak = 0;
      tcp_in_bytes = 5;
      tcp_out_bytes = 7;
      udp_in_bytes = 11;
      udp_out_bytes = 13;
    }
    ∷ []

rolls_minute_buckets :
    (Registry.snapshot
      (second_minute (first_minute (Registry.new (4443 ∷ []) (codes "127.0.0.1:8443") 4 0)))
      121).minute_buckets
    ≡ expected
unfolding Registry.snapshot Registry.new Bucket.snapshot Bucket.new Bucket.rollup
    Bucket.fresh_bucket Bucket.add_sample rollup_at_epoch update_port Port.new Port.snapshot
    Port.add_udp_out Port.add_udp_in Port.add_tcp_bytes Port.record_tcp_accept Port.record_tcp_close
    Port.record_udp_flow_open Port.record_udp_flow_close
rolls_minute_buckets = refl

abbrev history : List Call
history =
    tcp_accept
    ∷ udp_flow_open
    ∷ tcp_bytes 10 20
    ∷ tcp_accept
    ∷ tcp_close
    ∷ udp_in 5
    ∷ udp_flow_close
    ∷ []

run-accounts_example :
    let t = Port.snapshot (Accounts.run (Port.new 443) history) in
    (t.tcp_accepted ≡ 2)
    × (t.tcp_closed ≡ 1)
    × (t.tcp_active + t.tcp_closed ≡ t.tcp_accepted)
    × (t.udp_active_flows + 1 ≡ 1)
run-accounts_example = run-accounts 443 history (omega arith) (omega arith)

abbrev totals_at : ℕ → AggregateTotals
totals_at n = record no_totals { tcp_in_bytes = n; tcp_active = 3 }

-- Two rollups in minute 1 and one in minute 6, which takes the slot of minute 1 in a ring of five.
abbrev minutes : List Sample
minutes =
    record { now = 70; totals = totals_at 100 }
    ∷ record { now = 80; totals = totals_at 150 }
    ∷ record { now = 370; totals = totals_at 400 }
    ∷ []

snapshot-rollups_example :
    let bs = Bucket.snapshot (rollups (Bucket.new 5) no_totals minutes).0 in
    let store = record_minutes nothing no_totals minutes in
    Ascending 0 bs
    × ((b : MinuteBucket) → In b bs → (0 < b.minute_epoch) × (store b.minute_epoch ≡ some b))
    × ((m : ℕ) (b : MinuteBucket)
        → 0 < m
        → store m ≡ some b
        → last_minute 0 minutes < m + max 5 1
        → In b bs)
snapshot-rollups_example = snapshot-rollups 5 minutes (omega arith)

snapshot-sums_example :
    let bs = Bucket.snapshot (rollups (Bucket.new 5) no_totals minutes).0 in
    ((b : MinuteBucket)
      → In b bs
      → ((c : Column) → in_bucket c b ≡ gained c b.minute_epoch no_totals minutes % u64_mod)
        × ((g : Gauge) → peak_in_bucket g b ≡ highest g b.minute_epoch minutes))
    × ((s : Sample)
        → In s minutes
        → 0 < minute s
        → last_minute 0 minutes < minute s + max 5 1
        → (b : MinuteBucket) × In b bs × (b.minute_epoch ≡ minute s))
snapshot-sums_example = snapshot-sums 5 minutes (omega arith)

snapshot-last_totals_example :
    sum_by (in_bucket Column.tcp_in) (Bucket.snapshot (rollups (Bucket.new 6) no_totals minutes).0)
    ≡ 400
snapshot-last_totals_example =
    snapshot-last_totals Column.tcp_in 6 minutes (omega arith) (omega arith) (omega arith)
      (omega arith)

abbrev registry_ports : List ℕ
registry_ports = 80 ∷ 443 ∷ []

abbrev registry : StatsRegistry
registry = Registry.new registry_ports (codes "10.0.0.1:443") 4 0

port_80 : Registry.port registry 80 ≡ some (Port.new 80)
unfolding Registry.port Registry.new
port_80 = refl

snapshot-totals_example :
    (Registry.snapshot registry 9).totals.udp_in_bytes
    ≡ sum Field.udp_in (Registry.snapshot registry 9).ports % u64_mod
snapshot-totals_example = snapshot-totals registry 9 Field.udp_in

-- 300 and 100 bytes come in, the second after the last tick of the loop.
abbrev before_shutdown : List Action
before_shutdown = counts 80 (tcp_bytes 300 2) ∷ rolls 60 ∷ counts 443 (tcp_bytes 100 0) ∷ []

run_rollup-snapshot_example :
    let shown = Registry.snapshot (run_rollup registry before_shutdown 125) 125 in
    sum_by (in_bucket Column.tcp_in) shown.minute_buckets ≡ shown.totals.tcp_in_bytes
unfolding Registry.new samples run_rollup History.act Registry.snapshot update_port rollup_at_epoch
    Port.snapshot Accounts.call Port.add_tcp_bytes Port.new add_u64 Bucket.rollup
run_rollup-snapshot_example =
    run_rollup-snapshot Column.tcp_in registry_ports (codes "10.0.0.1:443") 4 0 before_shutdown 125
      (omega arith) (omega arith) (omega arith, (omega arith, tt)) (omega arith)
