-- ===== src/Stats/Bucket/Sorting.antt =====
-- The filter and the sort of a snapshot: elements and order.
use range_porter.Prelude.{
  ℕ, suc, ◌%◌, ◌<◌, ◌≡◌, sym, ap, ◌∙◌, ◌≢◌, ◌⊎◌, ◌↔◌, inl, inr, List, [], ◌∷◌, arith, ◌==◌, In, All,
  Bool-cases, ==→eq, ==_false→ne,
}
use range_porter.Stats.Bucket.{MinuteBucket, used, insert_by_epoch, sort_by_epoch}

In-insert_by_epoch :
    (x b : MinuteBucket) (bs : List MinuteBucket)
    → In x (insert_by_epoch b bs) ↔ ((x ≡ b) ⊎ In x bs)
unfolding insert_by_epoch
In-insert_by_epoch x b [] = (λ h. h, λ h. h)
In-insert_by_epoch x b (c ∷ bs) = (
  λ h. ground (arith, (In-insert_by_epoch x b bs).0),
  λ h. ground (arith, (In-insert_by_epoch x b bs).1),
)

pub In-sort_by_epoch :
    (x : MinuteBucket) (bs : List MinuteBucket) → In x (sort_by_epoch bs) ↔ In x bs
unfolding sort_by_epoch
In-sort_by_epoch x [] = (λ h. h, λ h. h)
In-sort_by_epoch x (b ∷ bs) =
    let rest = In-insert_by_epoch x b (sort_by_epoch bs) in
    let ih = In-sort_by_epoch x bs in
    (
      λ h. elim (rest.0 h) [ inl e ↦ inl e | inr i ↦ inr (ih.0 i) ],
      λ h. rest.1 (elim h [ inl e ↦ inl e | inr i ↦ inr (ih.1 i) ]),
    )

pub In-used :
    (x : MinuteBucket) (bs : List MinuteBucket) → In x (used bs) ↔ (In x bs × (x.minute_epoch ≢ 0))
unfolding used
In-used x [] = (λ h. absurd h, λ h. h.0)
In-used x (b ∷ bs) =
    let ih = In-used x bs in
    elim (Bool-cases (b.minute_epoch == 0)) [
      | inl e ↦ rw e (
        λ h. (inr (ih.0 h).0, (ih.0 h).1),
        λ h. elim h.0 [
          | inl same ↦
              absurd
                (h.1 (ap (λ (c : MinuteBucket). c.minute_epoch) same ∙ ==→eq b.minute_epoch 0 e))
          | inr i ↦ ih.1 (i, h.1)
        ],
      )
      | inr e ↦ rw e (
        λ h. elim h [
          | inl same ↦ (
            inl same,
            λ z.
                ==_false→ne b.minute_epoch 0 e
                  (ap (λ (c : MinuteBucket). c.minute_epoch) (sym same) ∙ z),
          )
          | inr i ↦ (inr (ih.0 i).0, (ih.0 i).1)
        ],
        λ h. elim h.0 [ inl same ↦ inl same | inr i ↦ inr (ih.1 (i, h.1)) ],
      )
    ]

-- Strictly ascending minutes, above the bound.
abbrev pub Ascending : ℕ → List MinuteBucket → Type 0
Ascending t [] = Unit {0}
Ascending t (b ∷ bs) = (t < b.minute_epoch) × Ascending b.minute_epoch bs

abbrev pub Apart : ℕ → List MinuteBucket → Type 0
Apart t = All (λ b. b.minute_epoch ≢ t)

abbrev pub Distinct : List MinuteBucket → Type 0
Distinct [] = Unit {0}
Distinct (b ∷ bs) = Apart b.minute_epoch bs × Distinct bs

insert_by_epoch-Apart :
    (t : ℕ) (b : MinuteBucket) (bs : List MinuteBucket)
    → b.minute_epoch ≢ t
    → Apart t bs
    → Apart t (insert_by_epoch b bs)
unfolding insert_by_epoch
insert_by_epoch-Apart t b [] h a = (h, tt)
insert_by_epoch-Apart t b (c ∷ bs) h a = ground (arith, insert_by_epoch-Apart t b bs h a.1)

sort_by_epoch-Apart : (t : ℕ) (bs : List MinuteBucket) → Apart t bs → Apart t (sort_by_epoch bs)
unfolding sort_by_epoch
sort_by_epoch-Apart t [] a = tt
sort_by_epoch-Apart t (b ∷ bs) (h, a) =
    insert_by_epoch-Apart t b (sort_by_epoch bs) h (sort_by_epoch-Apart t bs a)

insert_by_epoch-Ascending :
    (t : ℕ) (b : MinuteBucket) (bs : List MinuteBucket)
    → t < b.minute_epoch
    → Apart b.minute_epoch bs
    → Ascending t bs
    → Ascending t (insert_by_epoch b bs)
unfolding insert_by_epoch
insert_by_epoch-Ascending t b [] h a s = (h, tt)
insert_by_epoch-Ascending t b (c ∷ bs) h a s =
    ground (arith, insert_by_epoch-Ascending c.minute_epoch b bs)

abbrev pub Above : ℕ → List MinuteBucket → Type 0
Above t = All (λ b. t < b.minute_epoch)

pub sort_by_epoch-Ascending :
    (t : ℕ) (bs : List MinuteBucket) → Above t bs → Distinct bs → Ascending t (sort_by_epoch bs)
unfolding sort_by_epoch
sort_by_epoch-Ascending t [] a d = tt
sort_by_epoch-Ascending t (b ∷ bs) (h, a) (f, d) =
    insert_by_epoch-Ascending t b (sort_by_epoch bs) h (sort_by_epoch-Apart b.minute_epoch bs f)
      (sort_by_epoch-Ascending t bs a d)

pub used-Above : (bs : List MinuteBucket) → Above 0 (used bs)
unfolding used
used-Above [] = tt
used-Above (b ∷ bs) = ground (arith, used-Above bs)

-- From position `i` on, a bucket is unused or its minute has its position as residue.
abbrev pub Residues : ℕ → ℕ → List MinuteBucket → Type 0
Residues n i [] = Unit {0}
Residues n i (b ∷ bs) = ((b.minute_epoch ≡ 0) ⊎ (b.minute_epoch % n ≡ i)) × Residues n (suc i) bs

used-Apart : (n i t : ℕ) (bs : List MinuteBucket) → t % n < i → Residues n i bs → Apart t (used bs)
unfolding used
used-Apart n i t [] h r = tt
used-Apart n i t (b ∷ bs) h (r, rs) = elim (Bool-cases (b.minute_epoch == 0)) [
  | inl e ↦ rw e (used-Apart n (suc i) t bs (omega arith) rs)
  | inr e ↦ rw e (elim r [
    | inl z ↦ absurd (==_false→ne b.minute_epoch 0 e z)
    | inr p ↦ (
      λ same. absurd (omega (arith, ap (λ k. k % n) same)),
      used-Apart n (suc i) t bs (omega arith) rs,
    )
  ])
]

pub used-Distinct : (n i : ℕ) (bs : List MinuteBucket) → Residues n i bs → Distinct (used bs)
unfolding used
used-Distinct n i [] r = tt
used-Distinct n i (b ∷ bs) (r, rs) = elim (Bool-cases (b.minute_epoch == 0)) [
  | inl e ↦ rw e (used-Distinct n (suc i) bs rs)
  | inr e ↦ rw e (elim r [
    | inl z ↦ absurd (==_false→ne b.minute_epoch 0 e z)
    | inr p ↦
        (used-Apart n (suc i) b.minute_epoch bs (omega arith) rs, used-Distinct n (suc i) bs rs)
  ])
]
