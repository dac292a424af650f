-- ===== src/Stats/Bucket/Shown.antt =====
-- What the buckets of a snapshot count, in terms of the rollups alone.
use range_porter.Prelude.{
  ℕ, zero, suc, ◌+◌, ◌%◌, ◌≤◌, ◌<◌, max, ◌≡◌, refl, sym, ap, ◌∙◌, ◌⊎◌, inl, inr, true, List, [],
  ◌∷◌, some, arith, ltb, ◌==◌, if◌then◌else◌, In, All, sum_by, Bool-cases, Option-cases, ==→eq,
}
use mathlib.Core.Path.{subst}
use mathlib.Core.Option.{none-ne-some}
use range_porter.Word.{u64_mod}
use range_porter.Stats.Bucket.{
  AggregateTotals, MinuteBucket, empty_bucket, no_totals, new, snapshot,
}
use range_porter.Stats.Bucket.Minutes.{
  Sample, minute, rollups, Minutes, bucket_at, put_minute, record_minute, record_minutes, nothing,
  IsOrdered, last_minute,
}
use range_porter.Stats.Bucket.Sums.{
  Column, Gauge, in_bucket, peak_in_bucket, in_totals, gained, highest, held, held-sums,
  in_bucket-empty,
}
use range_porter.Stats.Bucket.Conservation.{
  IsGrowing, last_totals, sum_minutes, sum_minutes-last_totals,
}
use range_porter.Stats.Bucket.Ring.{rollups-new-Refines}
use range_porter.Stats.Bucket.Sorting.{Ascending}
use range_porter.Stats.Bucket.Snapshot.{snapshot-rollups}

-- The minutes of the store are those with a rollup.
record_minute-some :
    (store : Minutes) (t m : ℕ) (totals previous : AggregateTotals) (b : MinuteBucket)
    → record_minute store t totals previous m ≡ some b
    → (t ≡ m) ⊎ (store m ≡ some b)
unfolding record_minute put_minute
record_minute-some store t m totals previous b e = elim (Bool-cases (t == m)) [
  | inl same ↦ inl (==→eq t m same)
  | inr other ↦ inr (rw other at e)
]

record_minutes-only :
    (ss : List Sample) (store : Minutes) (previous : AggregateTotals) (m : ℕ) (b : MinuteBucket)
    → record_minutes store previous ss m ≡ some b
    → ((c : MinuteBucket) × (store m ≡ some c)) ⊎ ((s : Sample) × In s ss × (minute s ≡ m))
unfolding record_minutes
record_minutes-only [] store previous m b e = inl (b, e)
record_minutes-only (s ∷ ss) store previous m b e =
    elim (record_minutes-only ss (record_minute store (minute s) s.totals previous) s.totals m b
      e) [
        | inl (c, before) ↦
            elim (record_minute-some store (minute s) m s.totals previous c before) [
              | inl same ↦ inr (s, inl refl, same)
              | inr old ↦ inl (c, old)
            ]
        | inr (r, i, same) ↦ inr (r, inr i, same)
      ]

record_minute-keeps :
    (store : Minutes) (t m : ℕ) (totals previous : AggregateTotals) (b : MinuteBucket)
    → (store m ≡ some b) ⊎ (t ≡ m)
    → (c : MinuteBucket) × (record_minute store t totals previous m ≡ some c)
unfolding record_minute put_minute
record_minute-keeps store t m totals previous b h = elim (Bool-cases (t == m)) [
  | inl same ↦ rw same (_, refl)
  | inr other ↦ rw other (elim h [ inl e ↦ (b, e) | inr e ↦ absurd (ground arith) ])
]

record_minutes-keeps :
    (ss : List Sample) (store : Minutes) (previous : AggregateTotals) (m : ℕ) (b : MinuteBucket)
    → store m ≡ some b
    → (c : MinuteBucket) × (record_minutes store previous ss m ≡ some c)
unfolding record_minutes
record_minutes-keeps [] store previous m b e = (b, e)
record_minutes-keeps (s ∷ ss) store previous m b e =
    let (c, kept) = record_minute-keeps store (minute s) m s.totals previous b (inl e) in
    record_minutes-keeps ss (record_minute store (minute s) s.totals previous) s.totals m c kept

record_minutes-In :
    (ss : List Sample) (store : Minutes) (previous : AggregateTotals) (s : Sample)
    → In s ss
    → (c : MinuteBucket) × (record_minutes store previous ss (minute s) ≡ some c)
unfolding record_minutes
record_minutes-In [] store previous s i = absurd i
record_minutes-In (r ∷ ss) store previous s (inl same) =
    let (c, put) =
      record_minute-keeps store (minute r) (minute s) r.totals previous (empty_bucket 0)
        (inr (ap minute (sym same))) in
    record_minutes-keeps ss (record_minute store (minute r) r.totals previous) r.totals (minute s) c
      put
record_minutes-In (r ∷ ss) store previous s (inr i) =
    record_minutes-In ss (record_minute store (minute r) r.totals previous) r.totals s i

-- After rollups whose clock does not go back, each bucket that a snapshot of the ring shows counts,
-- modulo 2^64, what the totals gained at the rollups of its minute, and its peaks are the highest
-- gauges of those rollups. Each rollup after minute 0 and within the last `max window 1` minutes
-- has such a bucket.
pub snapshot-sums :
    (window : ℕ) (ss : List Sample)
    → IsOrdered 0 ss
    → let bs = snapshot (rollups (new window) no_totals ss).0 in
      ((b : MinuteBucket)
        → In b bs
        → ((c : Column) → in_bucket c b ≡ gained c b.minute_epoch no_totals ss % u64_mod)
          × ((g : Gauge) → peak_in_bucket g b ≡ highest g b.minute_epoch ss))
      × ((s : Sample)
          → In s ss
          → 0 < minute s
          → last_minute 0 ss < minute s + max window 1
          → (b : MinuteBucket) × In b bs × (b.minute_epoch ≡ minute s))
snapshot-sums window ss o =
    let (_, held_, kept) = snapshot-rollups window ss o in
    let r = rollups-new-Refines window ss o in
    (
      λ b i.
          let (_, is) = held_ b i in
          let same : held (record_minutes nothing no_totals ss) b.minute_epoch ≡ b =
            ap (λ o. bucket_at o b.minute_epoch) is in
          let (sums, peaks) = held-sums b.minute_epoch ss in
          (
            λ c. ap (in_bucket c) (sym same) ∙ sums c,
            λ g. ap (peak_in_bucket g) (sym same) ∙ peaks g,
          ),
      λ s i positive recent.
          let (b, is) = record_minutes-In ss nothing no_totals s i in
          let (_, epoch, _) = r.kept (minute s) b is in
          (b, kept (minute s) b positive is recent, epoch),
    )

-- The sum of `g` over the numbers above `lo` and below `k`.
unfoldable above : (ℕ → ℕ) → ℕ → ℕ → ℕ
above g lo zero = 0
above g lo (suc k) = (if ltb lo k then g k else 0) + above g lo k

above-zero : (g : ℕ → ℕ) (lo k : ℕ) → ((m : ℕ) → lo < m → m < k → g m ≡ 0) → above g lo k ≡ 0
unfolding above
above-zero g lo zero h = refl
above-zero g lo (suc k) h =
    let rest = above-zero g lo k (λ m a b. h m a (omega arith)) in
    elim (Bool-cases (ltb lo k)) [
      | inl over ↦ rw over (omega (arith, rest, h k (ground (arith, over)) (omega arith)))
      | inr under ↦ rw under (omega (arith, rest))
    ]

above-gap :
    (g : ℕ → ℕ) (lo e k : ℕ)
    → lo < e
    → e < k
    → ((m : ℕ) → lo < m → m < e → g m ≡ 0)
    → above g lo k ≡ g e + above g e k
unfolding above
above-gap g lo e zero a b h = absurd (omega arith)
above-gap g lo e (suc k) a b h =
    let over : ltb lo k ≡ true = ground arith in
    elim (Bool-cases (ltb e k)) [
      | inl later ↦
          let rest = above-gap g lo e k a (ground (arith, later)) h in
          rw (over, later) (omega (arith, rest))
      | inr last ↦
          let same : e ≡ k = ground (arith, last) in
          let none_before = above-zero g lo k (λ m x y. h m x (omega (arith, same))) in
          let none_after = above-zero g e k (λ m x y. absurd (omega (arith, same))) in
          rw (over, last) (omega (arith, none_before, none_after, ap g same))
    ]

Ascending-In :
    (lo : ℕ) (bs : List MinuteBucket) (b : MinuteBucket)
    → Ascending lo bs
    → In b bs
    → lo < b.minute_epoch
Ascending-In lo [] b a i = absurd i
Ascending-In lo (c ∷ bs) b (first, a) (inl same) =
    omega (arith, first, ap (λ (x : MinuteBucket). x.minute_epoch) same)
Ascending-In lo (c ∷ bs) b (first, a) (inr i) =
    omega (arith, first, Ascending-In c.minute_epoch bs b a i)

sum_by-above :
    (f : MinuteBucket → ℕ) (g : ℕ → ℕ) (lo k : ℕ) (bs : List MinuteBucket)
    → Ascending lo bs
    → ((b : MinuteBucket) → In b bs → (f b ≡ g b.minute_epoch) × (b.minute_epoch < k))
    → ((m : ℕ) → lo < m → m < k → (g m ≡ 0) ⊎ ((b : MinuteBucket) × In b bs × (b.minute_epoch ≡ m)))
    → sum_by f bs ≡ above g lo k
sum_by-above f g lo k [] a each cover =
    sym (above-zero g lo k (λ m x y. elim (cover m x y) [ inl z ↦ z | inr (b, i, e) ↦ absurd i ]))
sum_by-above f g lo k (b ∷ bs) (first, a) each cover =
    let (is, below) = each b (inl refl) in
    let gap = above-gap g lo b.minute_epoch k first below (λ m x y.
      elim (cover m x (omega (arith, below))) [
        | inl z ↦ z
        | inr (c, inl same, e) ↦
            absurd (omega (arith, ap (λ (x : MinuteBucket). x.minute_epoch) same))
        | inr (c, inr i, e) ↦ absurd (omega (arith, Ascending-In b.minute_epoch bs c a i))
      ]) in
    let rest =
      sum_by-above f g b.minute_epoch k bs a (λ c i. each c (inr i))
        (λ m x y. elim (cover m (omega (arith, first)) y) [
          | inl z ↦ inl z
          | inr (c, inl same, e) ↦
              absurd (omega (arith, ap (λ (x : MinuteBucket). x.minute_epoch) same))
          | inr (c, inr i, e) ↦ inr (c, i, e)
        ]) in
    omega (arith, is, gap, rest)

sum_minutes-above :
    (c : Column) (k : ℕ) (store : Minutes)
    → in_bucket c (held store 0) ≡ 0
    → sum_minutes c k store ≡ above (λ m. in_bucket c (held store m)) 0 k
unfolding sum_minutes above
sum_minutes-above c zero store h = refl
sum_minutes-above c (suc k) store h = elim (Bool-cases (ltb 0 k)) [
  | inl over ↦ rw over (omega (arith, sum_minutes-above c k store h))
  | inr first ↦
      let at_0 : k ≡ 0 = ground (arith, first) in
      let now = ap (λ m. in_bucket c (held store m)) at_0 in
      rw first (omega (arith, h, now, sum_minutes-above c k store h))
]

last_minute-le : (t : ℕ) (ss : List Sample) → IsOrdered t ss → t ≤ last_minute t ss
last_minute-le t [] o = omega arith
last_minute-le t (s ∷ ss) (h, o) = omega (arith, h, last_minute-le (minute s) ss o)

minutes_below :
    (t : ℕ) (ss : List Sample) → IsOrdered t ss → All (λ s. minute s < suc (last_minute t ss)) ss
minutes_below t [] o = tt
minutes_below t (s ∷ ss) (h, o) =
    (omega (arith, last_minute-le (minute s) ss o), minutes_below (minute s) ss o)

All-In : {A : Type 0} (P : A → Type 0) (xs : List A) (x : A) → In x xs → All P xs → P x
All-In P [] x i a = absurd i
All-In P (y ∷ xs) x (inl same) a = subst P (sym same) a.0
All-In P (y ∷ xs) x (inr i) a = All-In P xs x i a.1

-- Each rollup is after minute 0, and among the last minutes at the end.
abbrev pub IsShown : ℕ → List Sample → Sample → Type 0
IsShown window ss s = (0 < minute s) × (last_minute 0 ss < minute s + max window 1)

-- Nothing is lost or counted twice in a snapshot: after rollups from a new ring, none in minute 0 and
-- all within the last `max window 1` minutes, whose clock does not go back, the sum of a counter
-- over the buckets that a snapshot shows is its value in the totals at the last rollup, where it
-- never goes down and stays below 2^64.
pub snapshot-last_totals :
    (c : Column) (window : ℕ) (ss : List Sample)
    → IsOrdered 0 ss
    → All (IsShown window ss) ss
    → IsGrowing c no_totals ss
    → in_totals c (last_totals no_totals ss) < u64_mod
    → sum_by (in_bucket c) (snapshot (rollups (new window) no_totals ss).0)
      ≡ in_totals c (last_totals no_totals ss)
snapshot-last_totals c window ss o shown growing small =
    let store = record_minutes nothing no_totals ss in
    let g : ℕ → ℕ = λ m. in_bucket c (held store m) in
    let k = suc (last_minute 0 ss) in
    let (ascending, is_held, kept) = snapshot-rollups window ss o in
    let r = rollups-new-Refines window ss o in
    let each : (b : MinuteBucket)
        → In b (snapshot (rollups (new window) no_totals ss).0)
        → (in_bucket c b ≡ g b.minute_epoch) × (b.minute_epoch < k) =
      λ b i.
        let (_, is) = is_held b i in
        let (old, _, _) = r.kept b.minute_epoch b is in
        (sym (ap (λ o. in_bucket c (bucket_at o b.minute_epoch)) is), omega (arith, old)) in
    let cover : (m : ℕ)
        → 0 < m
        → m < k
        → (g m ≡ 0)
          ⊎ ((b : MinuteBucket) × In b (snapshot (rollups (new window) no_totals ss).0)
              × (b.minute_epoch ≡ m)) =
      λ m positive below. elim (Option-cases (store m)) [
        | inl missing ↦ inl (ap (λ o. in_bucket c (bucket_at o m)) missing ∙ in_bucket-empty c m)
        | inr (b, is) ↦ elim (record_minutes-only ss nothing no_totals m b is) [
          | inl (d, never) ↦ absurd (none-ne-some d never)
          | inr (s, i, same) ↦
              let (_, near) = All-In (IsShown window ss) ss s i shown in
              inr (b, kept m b positive is (omega (arith, near, same)), (r.kept m b is).1)
        ]
      ] in
    let first : in_bucket c (held store 0) ≡ 0 = elim (Option-cases (store 0)) [
      | inl missing ↦ ap (λ o. in_bucket c (bucket_at o 0)) missing ∙ in_bucket-empty c 0
      | inr (b, is) ↦ elim (record_minutes-only ss nothing no_totals 0 b is) [
        | inl (d, never) ↦ absurd (none-ne-some d never)
        | inr (s, i, same) ↦
            let (positive, _) = All-In (IsShown window ss) ss s i shown in
            absurd (omega (arith, positive, same))
      ]
    ] in
    sum_by-above (in_bucket c) g 0 k (snapshot (rollups (new window) no_totals ss).0) ascending each
      cover
    ∙ sym (sum_minutes-above c k store first)
    ∙ sum_minutes-last_totals c k ss growing (minutes_below 0 ss o) small
