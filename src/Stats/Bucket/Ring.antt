-- ===== src/Stats/Bucket/Ring.antt =====
-- The ring refines an unbounded map from minutes to buckets, of which it keeps the last minutes.
use range_porter.Prelude.{
  ℕ, zero, suc, ◌+◌, ◌/◌, ◌%◌, ◌≤◌, ◌<◌, max, ◌≡◌, refl, sym, ap, ◌∙◌, ◌≢◌, ◌⊎◌, inl, inr, List, [],
  ◌∷◌, some, arith, get_or, set, replicate, length-set, length-replicate, get_or-set_self,
  get_or-set_ne, Option-cases, some_inj,
}
use mathlib.Core.Option.{none-ne-some}
use native.Mathlib.Nat.{mod-lt, div-add-mod}
use native.Mathlib.Decide.{ℕ_discrete}
use range_porter.Stats.Bucket.{
  AggregateTotals, MinuteBucket, BucketRing, empty_bucket, no_totals, new, fresh_bucket, add_sample,
  rollup,
}
use range_porter.Stats.Bucket.Minutes.{
  Sample, minute, rollups, Minutes, bucket_at, put_minute, record_minute, record_minutes, nothing,
  IsOrdered, last_minute, at, Refines,
}

put_bucket : BucketRing → ℕ → MinuteBucket → BucketRing
put_bucket ring i v = record { buckets = set ring.buckets i v }

mod_apart : (m t n : ℕ) → m < t → t < m + n → m % n ≢ t % n
mod_apart m t n h k e = grind (arith, div-add-mod m n, div-add-mod t n)

fresh_bucket-same : (t : ℕ) (b : MinuteBucket) → b.minute_epoch ≡ t → fresh_bucket t b ≡ b
unfolding fresh_bucket
fresh_bucket-same t b e = ground arith

fresh_bucket-other :
    (t : ℕ) (b : MinuteBucket) → b.minute_epoch ≢ t → fresh_bucket t b ≡ empty_bucket t
unfolding fresh_bucket
fresh_bucket-other t b e = ground arith

fresh_bucket-unused : (t : ℕ) → fresh_bucket t (empty_bucket 0) ≡ empty_bucket t
unfolding fresh_bucket
fresh_bucket-unused t = ground arith

add_sample-epoch :
    (b : MinuteBucket) (totals previous : AggregateTotals)
    → (add_sample b totals previous).minute_epoch ≡ b.minute_epoch
unfolding add_sample
add_sample-epoch b totals previous = refl

module _ (n : ℕ) (ring : BucketRing) (latest : ℕ) (store : Minutes)
    (r : Refines n ring latest store) where
  -- The reset decides rightly: the bucket that is updated is the one of the store.
  fresh_bucket-bucket_at :
      (t : ℕ) → latest ≤ t → fresh_bucket t (at ring (t % n)) ≡ bucket_at (store t) t
  fresh_bucket-bucket_at t h = elim (Option-cases (store t)) [
    | inr (b, e) ↦
        let (old, epoch, here) = r.kept t b e in
        rw (e, here (omega (arith, r.nonempty))) (fresh_bucket-same t b epoch)
    | inl e ↦ rw e (elim (r.slot (t % n) (mod-lt t r.nonempty)) [
      | inl unused ↦ rw unused (fresh_bucket-unused t)
      | inr (_, held) ↦
          fresh_bucket-other t (at ring (t % n))
            (λ same. none-ne-some _ (sym e ∙ ap store (sym same) ∙ held))
    ])
  ]

  -- A bucket of minute `t` put into its slot of the ring and into the store.
  module _ (t : ℕ) (v : MinuteBucket) (later : latest ≤ t) (epoch : v.minute_epoch ≡ t) where
    abbrev put : BucketRing
    put = put_bucket ring (t % n) v

    abbrev store_put : Minutes
    store_put = put_minute store t v

    at-put_self : at put (t % n) ≡ v
    unfolding put_bucket
    at-put_self =
        get_or-set_self ring.buckets (t % n) v (empty_bucket 0)
          (omega (arith, mod-lt t r.nonempty, r.size))

    at-put_ne : (j : ℕ) → t % n ≢ j → at put j ≡ at ring j
    unfolding put_bucket
    at-put_ne j ne = get_or-set_ne ring.buckets (t % n) j v (empty_bucket 0) ne

    store_put_self : store_put t ≡ some v
    unfolding put_minute
    store_put_self = ground arith

    store_put_ne : (m : ℕ) → t ≢ m → store_put m ≡ store m
    unfolding put_minute
    store_put_ne m ne = ground arith

    put-slot :
        (j : ℕ)
        → j < n
        → (at put j ≡ empty_bucket 0)
          ⊎ (((at put j).minute_epoch % n ≡ j)
              × (store_put (at put j).minute_epoch ≡ some (at put j)))
    put-slot j h = elim (ℕ_discrete (t % n) j) [
      | yes e ↦
          let here : at put j ≡ v = ap (at put) (sym e) ∙ at-put_self in
          inr (rw here (ap (λ k. k % n) epoch ∙ e), rw here (ap store_put epoch ∙ store_put_self))
      | no ne ↦ rw (at-put_ne j ne) (elim (r.slot j h) [
        | inl unused ↦ inl unused
        | inr (residue, held) ↦ inr (residue, store_put_ne _ (λ same. ne (rw same residue)) ∙ held)
      ])
    ]

    put-kept :
        (m : ℕ) (b : MinuteBucket)
        → store_put m ≡ some b
        → (m ≤ t) × (b.minute_epoch ≡ m) × (t < m + n → at put (m % n) ≡ b)
    put-kept m b e = elim (ℕ_discrete t m) [
      | yes same ↦
          let found : v ≡ b = some_inj (sym store_put_self ∙ ap store_put same ∙ e) in
          (
            omega arith,
            ap (λ (c : MinuteBucket). c.minute_epoch) (sym found) ∙ epoch ∙ same,
            λ h. ap (λ k. at put (k % n)) (sym same) ∙ at-put_self ∙ found,
          )
      | no ne ↦
          let (old, stamp, here) = r.kept m b (sym (store_put_ne m ne) ∙ e) in
          (
            omega arith,
            stamp,
            λ h.
                at-put_ne (m % n) (λ same. mod_apart m t n (omega arith) h (sym same))
                ∙ here (omega arith),
          )
    ]

    put-Refines : Refines n put t store_put
    unfolding put_bucket
    put-Refines = record {
      size = length-set ring.buckets (t % n) v ∙ r.size;
      nonempty = r.nonempty;
      slot = put-slot;
      kept = put-kept;
    }

  bucket_at-epoch : (t : ℕ) → (bucket_at (store t) t).minute_epoch ≡ t
  bucket_at-epoch t = elim (Option-cases (store t)) [
    | inl e ↦ rw e
    | inr (b, e) ↦ rw e (r.kept t b e).1
  ]

  -- One rollup of the ring is one rollup of the store.
  rollup-Refines :
      (now : ℕ) (totals previous : AggregateTotals)
      → latest ≤ now / 60
      → Refines n
          (rollup ring now totals previous).0
          (now / 60)
          (record_minute store (now / 60) totals previous)
  unfolding rollup record_minute put_bucket
  rollup-Refines now totals previous h = rw r.size (
      rw (fresh_bucket-bucket_at (now / 60) h) (
        put-Refines (now / 60) _ h (
          add_sample-epoch (bucket_at (store (now / 60)) (now / 60)) totals previous
          ∙ bucket_at-epoch (now / 60))))

get_or-replicate : (k i : ℕ) (b : MinuteBucket) → get_or (replicate k b) i b ≡ b
get_or-replicate zero i b = refl
get_or-replicate (suc k) zero b = refl
get_or-replicate (suc k) (suc i) b = get_or-replicate k i b

new-Refines : (window : ℕ) → Refines (max window 1) (new window) 0 nothing
unfolding new
new-Refines window = record {
  size = length-replicate (max window 1) (empty_bucket 0);
  nonempty = omega arith;
  slot = λ i h. inl (get_or-replicate (max window 1) i (empty_bucket 0));
  kept = λ m b e. absurd (none-ne-some b e);
}

rollups-Refines :
    (n : ℕ) (ss : List Sample) (ring : BucketRing) (latest : ℕ) (store : Minutes)
    (previous : AggregateTotals)
    → Refines n ring latest store
    → IsOrdered latest ss
    → Refines n
        (rollups ring previous ss).0
        (last_minute latest ss)
        (record_minutes store previous ss)
unfolding rollups record_minutes rollup
rollups-Refines n [] ring latest store previous r o = r
rollups-Refines n (s ∷ ss) ring latest store previous r (h, o) =
    rollups-Refines n ss (rollup ring s.now s.totals previous).0 (minute s)
      (record_minute store (minute s) s.totals previous) s.totals
      (rollup-Refines n ring latest store r s.now s.totals previous h) o

-- After any rollups from a new ring whose clock does not go back, the ring refines the unbounded
-- map from minutes to buckets: each slot is unused or holds the whole bucket of one minute, and
-- every minute of the last `max window 1` that saw a rollup stands complete in its slot.
pub rollups-new-Refines :
    (window : ℕ) (ss : List Sample)
    → IsOrdered 0 ss
    → Refines
        (max window 1)
        (rollups (new window) no_totals ss).0
        (last_minute 0 ss)
        (record_minutes nothing no_totals ss)
rollups-new-Refines window ss o =
    rollups-Refines (max window 1) ss (new window) 0 nothing no_totals (new-Refines window) o
