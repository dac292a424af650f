-- ===== src/Stats/Registry/Task.antt =====
-- The rollup task, `run_rollup`, from a new registry to the shutdown.
use range_porter.Prelude.{ℕ, ◌<◌, ◌≡◌, refl, sym, ap, ◌∙◌, List, [], ◌∷◌, ◌++◌, All, sum_by}
use mathlib.Core.Path.{subst}
use range_porter.Word.{u64_mod}
use range_porter.Text.{Text}
use range_porter.Stats.Bucket
use range_porter.Stats.Bucket.{AggregateTotals, no_totals}
use range_porter.Stats.Bucket.Sums.{Column, in_bucket, in_totals}
use range_porter.Stats.Bucket.Conservation.{IsGrowing, last_totals}
use range_porter.Stats.Bucket.Shown.{IsShown, snapshot-last_totals}
use range_porter.Stats.Bucket.Minutes.{Sample, rollups, IsOrdered}
use range_porter.Stats.Registry.{StatsRegistry, new, rollup_at_epoch, snapshot}
use range_porter.Stats.Registry.History.{
  Action, counts, rolls, act, run, run_rollup, samples, run-rollups,
}

samples-append :
    (r : StatsRegistry) (as_ bs : List Action)
    → samples r (as_ ++ bs) ≡ samples r as_ ++ samples (run r as_) bs
unfolding samples run
samples-append r [] bs = refl
samples-append r (counts p c ∷ as_) bs = samples-append (act (counts p c) r) as_ bs
samples-append r (rolls now ∷ as_) bs =
    ap (λ ss. record { now = now; totals = (snapshot r now).totals } ∷ ss)
      (samples-append (act (rolls now) r) as_ bs)

last_totals-append :
    (previous : AggregateTotals) (ss : List Sample) (s : Sample)
    → last_totals previous (ss ++ s ∷ []) ≡ s.totals
last_totals-append previous [] s = refl
last_totals-append previous (t ∷ ss) s = last_totals-append t.totals ss s

-- The samples of the rollup task of a new registry.
abbrev pub task_samples : List ℕ → Text → ℕ → ℕ → List Action → ℕ → List Sample
task_samples listen_ports target window start as_ now =
    samples (new listen_ports target window start) (as_ ++ rolls now ∷ [])

run-append : (r : StatsRegistry) (as_ bs : List Action) → run r (as_ ++ bs) ≡ run (run r as_) bs
unfolding run
run-append r [] bs = refl
run-append r (a ∷ as_) bs = run-append (act a r) as_ bs

run_rollup-run :
    (r : StatsRegistry) (as_ : List Action) (now : ℕ)
    → run_rollup r as_ now ≡ run r (as_ ++ rolls now ∷ [])
unfolding run_rollup snapshot Bucket.snapshot
run_rollup-run r as_ now = sym (run-append r as_ (rolls now ∷ []))

snapshot-rollup_at_epoch :
    (r : StatsRegistry) (now : ℕ)
    → ((rollup_at_epoch r now).previous_totals ≡ (snapshot r now).totals)
      × ((snapshot (rollup_at_epoch r now) now).totals ≡ (snapshot r now).totals)
unfolding snapshot rollup_at_epoch Bucket.rollup
snapshot-rollup_at_epoch r now = (refl, refl)

last_totals-samples :
    (r : StatsRegistry) (as_ : List Action) (now : ℕ)
    → last_totals no_totals (samples r (as_ ++ rolls now ∷ [])) ≡ (snapshot (run r as_) now).totals
unfolding samples
last_totals-samples r as_ now =
    ap (last_totals no_totals) (samples-append r as_ (rolls now ∷ []))
    ∙ last_totals-append no_totals (samples r as_) _

-- Behind the shutdown of the rollup task of a new registry a snapshot is consistent: over the minute
-- buckets that it shows a counter sums to its total, whatever was counted before. The counter is
-- one that does not go down from one rollup to the next and stays below 2^64; the clock does not go
-- back, and all rollups are after minute 0 and within the last `max window 1` minutes.
pub run_rollup-snapshot :
    (c : Column) (listen_ports : List ℕ) (target : Text) (window start : ℕ) (as_ : List Action)
    (now : ℕ)
    → IsOrdered 0 (task_samples listen_ports target window start as_ now)
    → All
        (IsShown window (task_samples listen_ports target window start as_ now))
        (task_samples listen_ports target window start as_ now)
    → IsGrowing c no_totals (task_samples listen_ports target window start as_ now)
    → in_totals c (run_rollup (new listen_ports target window start) as_ now).previous_totals
      < u64_mod
    → let shown = snapshot (run_rollup (new listen_ports target window start) as_ now) now in
      sum_by (in_bucket c) shown.minute_buckets ≡ in_totals c shown.totals
unfolding run_rollup snapshot Bucket.snapshot
run_rollup-snapshot c listen_ports target window start as_ now ordered within growing small =
    ap (λ ring. sum_by (in_bucket c) (Bucket.snapshot ring)) ring
    ∙ snapshot-last_totals c window (task_samples listen_ports target window start as_ now) ordered
        within growing (subst (λ t. in_totals c t < u64_mod) (shown.0 ∙ sym last) small)
    ∙ ap (in_totals c) (last ∙ sym (shown.1))
  where
    r : StatsRegistry
    r = new listen_ports target window start

    last :
        last_totals no_totals (samples r (as_ ++ rolls now ∷ []))
        ≡ (snapshot (run r as_) now).totals
    last = last_totals-samples r as_ now

    shown :
        ((rollup_at_epoch (run r as_) now).previous_totals ≡ (snapshot (run r as_) now).totals)
        × ((snapshot (rollup_at_epoch (run r as_) now) now).totals
            ≡ (snapshot (run r as_) now).totals)
    shown = snapshot-rollup_at_epoch (run r as_) now

    ring :
        (rollup_at_epoch (run r as_) now).buckets
        ≡ (rollups
            (Bucket.new window)
            no_totals
            (task_samples listen_ports target window start as_ now)).0
    ring =
        ap (λ u. u.buckets) (run_rollup-run r as_ now)
        ∙ ap (λ p. p.0) (run-rollups r (as_ ++ rolls now ∷ []))
        ∙ unfold new in refl
