-- ===== src/Stats/Registry/History.antt =====
-- A registry in use: connections and flows count on their ports, and the rollup task samples the
-- totals once a second. Every interleaving of these is one list of actions.
use range_porter.Prelude.{ℕ, ◌≡◌, refl, List, [], ◌∷◌}
use range_porter.Stats.Port.Accounts.{Call, call}
use range_porter.Stats.Bucket.Minutes.{Sample, rollups}
use range_porter.Stats.Registry.{StatsRegistry, update_port, rollup_at_epoch, snapshot}

-- A call on the counters of a port, or a rollup at a time.
pub data Action : Type 0 where
  counts : ℕ → Call → Action
  rolls : ℕ → Action

unfoldable pub act : Action → StatsRegistry → StatsRegistry
act (counts p c) r = update_port p (call c) r
act (rolls now) r = rollup_at_epoch r now

unfoldable pub run : StatsRegistry → List Action → StatsRegistry
unfolding act
run r [] = r
run r (a ∷ as_) = run (act a r) as_

-- `run_rollup`: `as_` is what happens up to the shutdown, the rollups of the loop among it, and `now`
-- the time of the last rollup behind the loop. `rollup_now` is a rollup at the time of the clock.
unfoldable pub run_rollup : StatsRegistry → List Action → ℕ → StatsRegistry
unfolding run
run_rollup r as_ now = rollup_at_epoch (run r as_) now

-- The totals that a snapshot would have shown at each rollup, with its time.
unfoldable pub samples : StatsRegistry → List Action → List Sample
samples r [] = []
samples r (counts p c ∷ as_) = samples (act (counts p c) r) as_
samples r (rolls now ∷ as_) =
    record { now = now; totals = (snapshot r now).totals } ∷ samples (act (rolls now) r) as_

-- The buckets after any history are those of a ring that was rolled up with the totals that
-- snapshots at the times of the rollups would have shown: counting on a port leaves them alone.
pub run-rollups :
    (r : StatsRegistry) (as_ : List Action)
    → ((run r as_).buckets, (run r as_).previous_totals)
      ≡ rollups r.buckets r.previous_totals (samples r as_)
unfolding run samples rollups update_port rollup_at_epoch snapshot
run-rollups r [] = refl
run-rollups r (counts p c ∷ as_) = run-rollups (update_port p (call c) r) as_
run-rollups r (rolls now ∷ as_) = run-rollups (rollup_at_epoch r now) as_
