-- ===== src/Stats/Bucket/Minutes.antt =====
-- What the ring of buckets promises: an unbounded map from minutes to buckets, cut off to the
-- last minutes.
use range_porter.Prelude.{
  ℕ, ◌+◌, ◌/◌, ◌%◌, ◌≤◌, ◌<◌, ◌≡◌, ◌⊎◌, List, [], ◌∷◌, Option, none, some, length, get_or, ◌==◌,
  if◌then◌else◌,
}
use range_porter.Stats.Bucket.{
  AggregateTotals, MinuteBucket, BucketRing, empty_bucket, add_sample, rollup,
}

-- The totals at one rollup, and the time of the rollup in seconds.
pub record Sample : Type 0 where
  pub now : ℕ
  pub totals : AggregateTotals

abbrev pub minute : Sample → ℕ
minute s = s.now / 60

unfoldable pub rollups : BucketRing → AggregateTotals → List Sample → BucketRing × AggregateTotals
rollups ring previous [] = (ring, previous)
rollups ring previous (s ∷ ss) =
    let (ring', previous') = rollup ring s.now s.totals previous in rollups ring' previous' ss

-- The abstract store: a bucket for each minute that saw a rollup.
abbrev pub Minutes : Type 0
Minutes = ℕ → Option MinuteBucket

abbrev pub bucket_at : Option MinuteBucket → ℕ → MinuteBucket
bucket_at none m = empty_bucket m
bucket_at (some b) m = b

unfoldable pub put_minute : Minutes → ℕ → MinuteBucket → Minutes
put_minute store t v m = if t == m then some v else store m

unfoldable pub record_minute : Minutes → ℕ → AggregateTotals → AggregateTotals → Minutes
record_minute store t totals previous =
    put_minute store t (add_sample (bucket_at (store t) t) totals previous)

unfoldable pub record_minutes : Minutes → AggregateTotals → List Sample → Minutes
record_minutes store previous [] = store
record_minutes store previous (s ∷ ss) =
    record_minutes (record_minute store (minute s) s.totals previous) s.totals ss

abbrev pub nothing : Minutes
nothing m = none

-- The clock does not go back.
abbrev pub IsOrdered : ℕ → List Sample → Type 0
IsOrdered t [] = Unit {0}
IsOrdered t (s ∷ ss) = (t ≤ minute s) × IsOrdered (minute s) ss

abbrev pub last_minute : ℕ → List Sample → ℕ
last_minute t [] = t
last_minute t (s ∷ ss) = last_minute (minute s) ss

abbrev pub at : BucketRing → ℕ → MinuteBucket
at ring i = get_or ring.buckets i (empty_bucket 0)

-- Each slot is unused or holds the whole bucket of a minute of its residue; each minute of the
-- store that is no older than the ring is long stands in its slot.
pub record Refines (n : ℕ) (ring : BucketRing) (latest : ℕ) (store : Minutes) : Type 0 where
  pub size : length ring.buckets ≡ n
  pub nonempty : 0 < n
  pub slot :
      (i : ℕ)
      → i < n
      → (at ring i ≡ empty_bucket 0)
        ⊎ (((at ring i).minute_epoch % n ≡ i) × (store (at ring i).minute_epoch ≡ some (at ring i)))
  pub kept :
      (m : ℕ) (b : MinuteBucket)
      → store m ≡ some b
      → (m ≤ latest) × (b.minute_epoch ≡ m) × (latest < m + n → at ring (m % n) ≡ b)
