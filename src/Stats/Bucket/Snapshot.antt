-- ===== src/Stats/Bucket/Snapshot.antt =====
-- What a snapshot of the buckets shows: the last minutes in order, each once and complete.
use range_porter.Prelude.{
  ℕ, zero, suc, ◌+◌, ◌%◌, ◌<◌, max, ◌≡◌, refl, sym, ap, ◌∙◌, ◌⊎◌, inl, inr, List, [], ◌∷◌, some,
  arith, length, get_or, In,
}
use mathlib.Core.Path.{subst}
use native.Mathlib.Nat.{mod-lt}
use range_porter.Stats.Bucket.{
  MinuteBucket, BucketRing, empty_bucket, no_totals, new, used, snapshot,
}
use range_porter.Stats.Bucket.Minutes.{
  Sample, rollups, Minutes, record_minutes, nothing, IsOrdered, last_minute, Refines,
}
use range_porter.Stats.Bucket.Ring.{rollups-new-Refines}
use range_porter.Stats.Bucket.Sorting.{
  Ascending, Residues, In-sort_by_epoch, In-used, sort_by_epoch-Ascending, used-Above,
  used-Distinct,
}

In-get_or :
    (bs : List MinuteBucket) (i : ℕ) (d : MinuteBucket) → i < length bs → In (get_or bs i d) bs
In-get_or [] i d h = absurd (omega arith)
In-get_or (b ∷ bs) zero d h = inl refl
In-get_or (b ∷ bs) (suc i) d h = inr (In-get_or bs i d (omega arith))

index_of :
    (x : MinuteBucket) (bs : List MinuteBucket) (d : MinuteBucket)
    → In x bs
    → (i : ℕ) × (i < length bs) × (get_or bs i d ≡ x)
index_of x [] d h = absurd h
index_of x (b ∷ bs) d (inl e) = (0, omega arith, sym e)
index_of x (b ∷ bs) d (inr h) = let (i, lt, e) = index_of x bs d h in (suc i, omega arith, e)

Residues-of_slots :
    (n i : ℕ) (bs : List MinuteBucket) (d : MinuteBucket)
    → ((j : ℕ)
        → j < length bs
        → ((get_or bs j d).minute_epoch ≡ 0) ⊎ ((get_or bs j d).minute_epoch % n ≡ i + j))
    → Residues n i bs
Residues-of_slots n i [] d h = tt
Residues-of_slots n i (b ∷ bs) d h = (
  elim (h 0 (omega arith)) [ inl z ↦ inl z | inr e ↦ inr (omega arith) ],
  Residues-of_slots n (suc i) bs d
      (λ j lt. elim (h (suc j) (omega arith)) [ inl z ↦ inl z | inr e ↦ inr (omega arith) ]),
)

module _ (n : ℕ) (ring : BucketRing) (latest : ℕ) (store : Minutes)
    (r : Refines n ring latest store) where
  snapshot-Ascending : Ascending 0 (snapshot ring)
  unfolding snapshot
  snapshot-Ascending = sort_by_epoch-Ascending 0 (used ring.buckets) (used-Above ring.buckets) (
      used-Distinct n 0 ring.buckets (
        Residues-of_slots n 0 ring.buckets (empty_bucket 0) λ j h.
          elim (r.slot j (omega (arith, r.size))) [
            | inl e ↦ inl (rw e)
            | inr (p, _) ↦ inr (omega arith)
          ]))

  snapshot-held :
      (b : MinuteBucket)
      → In b (snapshot ring)
      → (0 < b.minute_epoch) × (store b.minute_epoch ≡ some b)
  unfolding snapshot
  snapshot-held b h =
      let (i, nonzero) =
        (In-used b ring.buckets).0 ((In-sort_by_epoch b (used ring.buckets)).0 h) in
      let (j, lt, e) = index_of b ring.buckets (empty_bucket 0) i in
      elim (r.slot j (omega (arith, r.size))) [
        | inl unused ↦ absurd (nonzero (ap (λ (c : MinuteBucket). c.minute_epoch) (sym e ∙ unused)))
        | inr (_, held) ↦ (omega arith, subst (λ c. store c.minute_epoch ≡ some c) e held)
      ]

  snapshot-kept :
      (m : ℕ) (b : MinuteBucket) → 0 < m → store m ≡ some b → latest < m + n → In b (snapshot ring)
  unfolding snapshot
  snapshot-kept m b pos e h =
      let (old, stamp, here) = r.kept m b e in
      let place =
        In-get_or ring.buckets (m % n) (empty_bucket 0)
          (omega (arith, mod-lt m r.nonempty, r.size)) in
      (In-sort_by_epoch b (used ring.buckets)).1 (
        (In-used b ring.buckets).1
          (subst (λ c. In c ring.buckets) (here h) place, λ z. absurd (omega arith)))

-- After rollups whose clock does not go back, a snapshot lists minutes in strictly ascending order;
-- each bucket in it is the complete bucket of its minute, and no minute after minute 0 among the
-- last `max window 1` that saw a rollup is missing.
pub snapshot-rollups :
    (window : ℕ) (ss : List Sample)
    → IsOrdered 0 ss
    → let bs = snapshot (rollups (new window) no_totals ss).0 in
      let store = record_minutes nothing no_totals ss in
      Ascending 0 bs
      × ((b : MinuteBucket) → In b bs → (0 < b.minute_epoch) × (store b.minute_epoch ≡ some b))
      × ((m : ℕ) (b : MinuteBucket)
          → 0 < m
          → store m ≡ some b
          → last_minute 0 ss < m + max window 1
          → In b bs)
snapshot-rollups window ss o =
    let r = rollups-new-Refines window ss o in
    (snapshot-Ascending _ _ _ _ r, snapshot-held _ _ _ _ r, snapshot-kept _ _ _ _ r)
