-- ===== src/PortSet/Sets.antt =====
-- `BTreeSet<u16>` as a list: order, elements and bounds under `insert` and `extend`.
use range_porter.Prelude.{
  ℕ, zero, suc, ◌+◌, ◌≤◌, ◌<◌, ◌≡◌, refl, ◌⊎◌, inl, inr, ◌↔◌, List, [], ◌∷◌, arith, All, In, sym,
}
use mathlib.Core.Path.{ap₂, subst}
use native.Mathlib.Nat.{eq-or-lt_of_le}
use range_porter.PortSet.{insert, extend}

-- Strictly ascending, and above the bound.
abbrev pub Above : ℕ → List ℕ → Type 0
Above b [] = Unit {0}
Above b (p ∷ ports) = (b < p) × Above p ports

insert-Above : (b p : ℕ) (ports : List ℕ) → b < p → Above b ports → Above b (insert p ports)
unfolding insert
insert-Above b p [] h a = (h, tt)
insert-Above b p (q ∷ ports) h a = ground (arith, insert-Above q p ports)

pub In-insert : (x p : ℕ) (ports : List ℕ) → In x (insert p ports) ↔ ((x ≡ p) ⊎ In x ports)
unfolding insert
In-insert x p [] = (λ h. h, λ h. h)
In-insert x p (q ∷ ports) =
    (λ h. ground (arith, (In-insert x p ports).0), λ h. ground (arith, (In-insert x p ports).1))

insert-bound :
    (m p : ℕ) (ports : List ℕ) → p ≤ m → All (λ q. q ≤ m) ports → All (λ q. q ≤ m) (insert p ports)
unfolding insert
insert-bound m p [] h a = (h, tt)
insert-bound m p (q ∷ ports) h a = ground (arith, insert-bound m p ports h a.1)

pub extend-Above :
    (b start count : ℕ) (ports : List ℕ)
    → b < start
    → Above b ports
    → Above b (extend start count ports)
unfolding extend
extend-Above b start zero ports h a = a
extend-Above b start (suc count) ports h a =
    extend-Above b (suc start) count _ (omega arith) (insert-Above b start ports h a)

pub extend-bound :
    (m start count : ℕ) (ports : List ℕ)
    → start + count ≤ suc m
    → All (λ q. q ≤ m) ports
    → All (λ q. q ≤ m) (extend start count ports)
unfolding extend
extend-bound m start zero ports h a = a
extend-bound m start (suc count) ports h a =
    extend-bound m (suc start) count _ (omega arith) (insert-bound m start ports (omega arith) a)

pub In-extend_sound :
    (x start count : ℕ) (ports : List ℕ)
    → In x (extend start count ports)
    → ((start ≤ x) × (x < start + count)) ⊎ In x ports
unfolding extend
In-extend_sound x start zero ports h = inr h
In-extend_sound x start (suc count) ports h =
    elim (In-extend_sound x (suc start) count (insert start ports) h) [
      | inl inside ↦ inl (omega arith, omega arith)
      | inr old ↦ elim ((In-insert x start ports).0 old) [
        | inl first ↦ inl (omega arith, omega arith)
        | inr older ↦ inr older
      ]
    ]

pub In-extend_old :
    (x start count : ℕ) (ports : List ℕ) → In x ports → In x (extend start count ports)
unfolding extend
In-extend_old x start zero ports h = h
In-extend_old x start (suc count) ports h =
    In-extend_old x (suc start) count _ ((In-insert x start ports).1 (inr h))

pub In-extend_new :
    (x start count : ℕ) (ports : List ℕ)
    → start ≤ x
    → x < start + count
    → In x (extend start count ports)
unfolding extend
In-extend_new x start zero ports h k = absurd (omega arith)
In-extend_new x start (suc count) ports h k = elim (eq-or-lt_of_le h) [
  | inl e ↦ In-extend_old x (suc start) count _ ((In-insert x start ports).1 (inl (sym e)))
  | inr lt ↦ In-extend_new x (suc start) count _ lt (omega arith)
]

In-Above : (x b : ℕ) (ports : List ℕ) → Above b ports → In x ports → b < x
In-Above x b [] a i = elim i [ ]
In-Above x b (p ∷ ports) a (inl e) = omega arith
In-Above x b (p ∷ ports) a (inr i) = omega (arith, In-Above x p ports a.1 i)

In-tail :
    (p : ℕ) (ps qs : List ℕ)
    → Above p ps
    → ((x : ℕ) → In x (p ∷ ps) → In x (p ∷ qs))
    → (x : ℕ) → In x ps
    → In x qs
In-tail p ps qs a same x i = elim (same x (inr i)) [
  | inl e ↦ absurd (omega (arith, In-Above x p ps a i))
  | inr j ↦ j
]

heads_agree :
    (p q : ℕ) (ps qs : List ℕ) → Above p ps → Above q qs → In p (q ∷ qs) → In q (p ∷ ps) → p ≡ q
heads_agree p q ps qs a c (inl e) j = e
heads_agree p q ps qs a c (inr i) (inl e) = sym e
heads_agree p q ps qs a c (inr i) (inr j) =
    absurd (omega (arith, In-Above p q qs c i, In-Above q p ps a j))

-- An ascending list is determined by its elements.
pub Above-ext :
    (b : ℕ) (ps qs : List ℕ)
    → Above b ps
    → Above b qs
    → ((x : ℕ) → In x ps → In x qs)
    → ((x : ℕ) → In x qs → In x ps)
    → ps ≡ qs
Above-ext b [] [] a c there back = refl
Above-ext b [] (q ∷ qs) a c there back = absurd (back q (inl refl))
Above-ext b (p ∷ ps) [] a c there back = absurd (there p (inl refl))
Above-ext b (p ∷ ps) (q ∷ qs) a c there back =
    let first = heads_agree p q ps qs a.1 c.1 (there p (inl refl)) (back q (inl refl)) in
    let c' : Above p qs = rw first c.1 in
    ap₂ (λ x xs. x ∷ xs) first
      (Above-ext p ps qs a.1 c'
        (In-tail p ps qs a.1
          (subst (λ y. (x : ℕ) → In x (p ∷ ps) → In x (y ∷ qs)) (sym first) there))
        (In-tail p qs ps c'
          (subst (λ y. (x : ℕ) → In x (y ∷ qs) → In x (p ∷ ps)) (sym first) back)))
