-- ===== src/Stats/Bucket/Conservation.antt =====
-- Over all minutes the buckets count what the totals gained, once.
use range_porter.Prelude.{
  ℕ, zero, suc, ◌+◌, ◌-◌, ◌≤◌, ◌<◌, ◌≡◌, refl, List, [], ◌∷◌, arith, ltb, if◌then◌else◌, All,
}
use native.Mathlib.Nat.{mod-eq_of_lt}
use range_porter.Word.{u64_mod}
use range_porter.Stats.Bucket.{AggregateTotals, no_totals}
use range_porter.Stats.Bucket.Minutes.{Sample, minute, Minutes, record_minutes, nothing}
use range_porter.Stats.Bucket.Sums.{Column, in_bucket, in_totals, gained, held, held-sums}

-- The counter does not go down from one rollup to the next.
abbrev pub IsGrowing : Column → AggregateTotals → List Sample → Type 0
IsGrowing c previous [] = Unit {0}
IsGrowing c previous (s ∷ ss) =
    (in_totals c previous ≤ in_totals c s.totals) × IsGrowing c s.totals ss

abbrev pub last_totals : AggregateTotals → List Sample → AggregateTotals
last_totals previous [] = previous
last_totals previous (s ∷ ss) = last_totals s.totals ss

-- The sum of a counter over the buckets of the first `k` minutes.
unfoldable pub sum_minutes : Column → ℕ → Minutes → ℕ
sum_minutes c zero store = 0
sum_minutes c (suc k) store = in_bucket c (held store k) + sum_minutes c k store

gained_before : Column → ℕ → AggregateTotals → List Sample → ℕ
gained_before c zero previous ss = 0
gained_before c (suc k) previous ss = gained c k previous ss + gained_before c k previous ss

gained_before-nil :
    (c : Column) (k : ℕ) (previous : AggregateTotals) → gained_before c k previous [] ≡ 0
unfolding gained_before gained
gained_before-nil c zero previous = refl
gained_before-nil c (suc k) previous = omega (arith, gained_before-nil c k previous)

gained_before-cons :
    (c : Column) (k : ℕ) (previous : AggregateTotals) (s : Sample) (ss : List Sample)
    → gained_before c k previous (s ∷ ss)
      ≡ (if ltb (minute s) k then in_totals c s.totals - in_totals c previous else 0)
        + gained_before c k s.totals ss
unfolding gained_before gained
gained_before-cons c zero previous s ss = ground arith
gained_before-cons c (suc k) previous s ss = ground (arith, gained_before-cons c k previous s ss)

-- What growing totals gained over minutes that hold every rollup telescopes.
gained_before-telescopes :
    (c : Column) (k : ℕ) (previous : AggregateTotals) (ss : List Sample)
    → IsGrowing c previous ss
    → All (λ s. minute s < k) ss
    → in_totals c previous + gained_before c k previous ss ≡ in_totals c (last_totals previous ss)
gained_before-telescopes c k previous [] g a = omega (arith, gained_before-nil c k previous)
gained_before-telescopes c k previous (s ∷ ss) (g, gs) (a, as_) =
    ground
      (arith, gained_before-cons c k previous s ss, gained_before-telescopes c k s.totals ss gs as_)

sum_minutes-gained_before :
    (c : Column) (k : ℕ) (ss : List Sample)
    → gained_before c k no_totals ss < u64_mod
    → sum_minutes c k (record_minutes nothing no_totals ss) ≡ gained_before c k no_totals ss
unfolding gained_before sum_minutes
sum_minutes-gained_before c zero ss h = refl
sum_minutes-gained_before c (suc k) ss h = omega (
  arith,
  (held-sums k ss).0 c,
  mod-eq_of_lt {n = gained c k no_totals ss} {m = u64_mod} (omega arith),
  sum_minutes-gained_before c k ss (omega arith),
)

in_no_totals : (c : Column) → in_totals c no_totals ≡ 0
in_no_totals Column.new_conn = refl
in_no_totals _ = refl

-- Nothing is lost or counted twice: where a counter of the totals never goes down and stays below
-- 2 ^ 64, its sum over the buckets of all minutes with a rollup is its value at the last rollup.
pub sum_minutes-last_totals :
    (c : Column) (k : ℕ) (ss : List Sample)
    → IsGrowing c no_totals ss
    → All (λ s. minute s < k) ss
    → in_totals c (last_totals no_totals ss) < u64_mod
    → sum_minutes c k (record_minutes nothing no_totals ss) ≡ in_totals c (last_totals no_totals ss)
sum_minutes-last_totals c k ss g a h =
    let whole = gained_before-telescopes c k no_totals ss g a in
    omega (
      arith,
      in_no_totals c,
      whole,
      sum_minutes-gained_before c k ss (omega (arith, in_no_totals c, whole)),
    )
