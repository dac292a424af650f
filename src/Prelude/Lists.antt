-- ===== src/Prelude/Lists.antt =====
-- Lists measured and indexed by native numbers, and predicates on lists by recursion.
use Prim.Native.Nat.{ℕ, zero, suc, ◌+◌, ◌≤◌, ◌<◌, min}
use mathlib.Core.List.{List, [], ◌∷◌, ◌++◌, map}
use mathlib.Core.Logic.{◌⊎◌, ◌≢◌}
use mathlib.Core.Option.{Option, none, some}
use range_porter.Prelude.Tests.{some_inj}
use mathlib.Core.Path.{subst, ◌≡◌, refl, ap, ◌∙◌}
use native.Mathlib.Omega.{arith}

module _ {ℓ} {A : Type ℓ} where
  abbrev pub length : List A → ℕ
  length [] = 0
  length (x ∷ xs) = suc (length xs)

  abbrev pub get_elem? : List A → ℕ → Option A
  get_elem? [] i = none
  get_elem? (x ∷ xs) zero = some x
  get_elem? (x ∷ xs) (suc i) = get_elem? xs i

  -- A write out of bounds changes nothing.
  abbrev pub set : List A → ℕ → A → List A
  set [] i v = []
  set (x ∷ xs) zero v = v ∷ xs
  set (x ∷ xs) (suc i) v = x ∷ set xs i v

  abbrev pub get_or : List A → ℕ → A → A
  get_or [] i d = d
  get_or (x ∷ xs) zero d = x
  get_or (x ∷ xs) (suc i) d = get_or xs i d

  abbrev pub take : ℕ → List A → List A
  take zero xs = []
  take (suc n) [] = []
  take (suc n) (x ∷ xs) = x ∷ take n xs

  abbrev pub drop : ℕ → List A → List A
  drop zero xs = xs
  drop (suc n) [] = []
  drop (suc n) (x ∷ xs) = drop n xs

  abbrev pub replicate : ℕ → A → List A
  replicate zero a = []
  replicate (suc n) a = a ∷ replicate n a

  abbrev pub remove_at : List A → ℕ → List A
  remove_at [] i = []
  remove_at (x ∷ xs) zero = xs
  remove_at (x ∷ xs) (suc i) = x ∷ remove_at xs i

  pub length-append : (xs ys : List A) → length (xs ++ ys) ≡ length xs + length ys
  length-append [] ys = omega arith
  length-append (x ∷ xs) ys = omega (arith, length-append xs ys)

  pub length-set : (xs : List A) (i : ℕ) (v : A) → length (set xs i v) ≡ length xs
  length-set [] i v = refl
  length-set (x ∷ xs) zero v = refl
  length-set (x ∷ xs) (suc i) v = ap suc (length-set xs i v)

  pub length-replicate : (n : ℕ) (a : A) → length (replicate n a) ≡ n
  length-replicate zero a = refl
  length-replicate (suc n) a = ap suc (length-replicate n a)

  pub get_or-set_self :
      (xs : List A) (i : ℕ) (v d : A) → i < length xs → get_or (set xs i v) i d ≡ v
  get_or-set_self [] i v d h = elim h [ ]
  get_or-set_self (x ∷ xs) zero v d h = refl
  get_or-set_self (x ∷ xs) (suc i) v d h = get_or-set_self xs i v d (omega arith)

  pub get_or-set_ne :
      (xs : List A) (i j : ℕ) (v d : A) → i ≢ j → get_or (set xs i v) j d ≡ get_or xs j d
  get_or-set_ne [] i j v d h = refl
  get_or-set_ne (x ∷ xs) zero zero v d h = absurd (h refl)
  get_or-set_ne (x ∷ xs) zero (suc j) v d h = refl
  get_or-set_ne (x ∷ xs) (suc i) zero v d h = refl
  get_or-set_ne (x ∷ xs) (suc i) (suc j) v d h = get_or-set_ne xs i j v d (λ e. h (ap suc e))

module _ {ℓ} {A : Type ℓ} where
  pub get_elem?-set_self :
      (xs : List A) (i : ℕ) (v : A) → i < length xs → get_elem? (set xs i v) i ≡ some v
  get_elem?-set_self [] i v h = absurd (omega arith)
  get_elem?-set_self (x ∷ xs) zero v h = refl
  get_elem?-set_self (x ∷ xs) (suc i) v h = get_elem?-set_self xs i v (omega arith)

  pub get_elem?-set_ne :
      (xs : List A) (i j : ℕ) (v : A) → i ≢ j → get_elem? (set xs i v) j ≡ get_elem? xs j
  get_elem?-set_ne [] i j v h = refl
  get_elem?-set_ne (x ∷ xs) zero zero v h = absurd (h refl)
  get_elem?-set_ne (x ∷ xs) zero (suc j) v h = refl
  get_elem?-set_ne (x ∷ xs) (suc i) zero v h = refl
  get_elem?-set_ne (x ∷ xs) (suc i) (suc j) v h = get_elem?-set_ne xs i j v (λ e. h (ap suc e))

  -- The writes of a list of values from a place on.
  abbrev pub fill : List A → ℕ → List A → List A
  fill xs i [] = xs
  fill xs i (v ∷ vs) = fill (set xs i v) (suc i) vs

  pub length-fill : (vs xs : List A) (i : ℕ) → length (fill xs i vs) ≡ length xs
  length-fill [] xs i = refl
  length-fill (v ∷ vs) xs i = omega (arith, length-fill vs (set xs i v) (suc i), length-set xs i v)

  get_elem?-fill_before :
      (vs xs : List A) (i j : ℕ) → j < i → get_elem? (fill xs i vs) j ≡ get_elem? xs j
  get_elem?-fill_before [] xs i j h = refl
  get_elem?-fill_before (v ∷ vs) xs i j h =
      get_elem?-fill_before vs (set xs i v) (suc i) j (omega arith)
      ∙ get_elem?-set_ne xs i j v (λ e. omega arith)

  pub get_elem?-fill :
      (vs xs : List A) (i k : ℕ) (v : A)
      → i + length vs ≤ length xs
      → get_elem? vs k ≡ some v
      → get_elem? (fill xs i vs) (i + k) ≡ some v
  get_elem?-fill [] xs i k v h e = absurd (cc)
  get_elem?-fill (w ∷ vs) xs i zero v h e =
      let here : i + zero ≡ i = omega arith in
      rw here (
        get_elem?-fill_before vs (set xs i w) (suc i) i (omega arith)
        ∙ get_elem?-set_self xs i w (omega arith)
        ∙ e)
  get_elem?-fill (w ∷ vs) xs i (suc k) v h e =
      let next : i + suc k ≡ suc i + k = omega arith in
      rw next (get_elem?-fill vs (set xs i w) (suc i) k v (omega (arith, length-set xs i w)) e)

pub get_elem?-lt {ℓ} :
    {A : Type ℓ} (xs : List A) (i : ℕ) (x : A) → get_elem? xs i ≡ some x → i < length xs
get_elem?-lt [] i x e = absurd (cc)
get_elem?-lt (y ∷ xs) zero x e = omega arith
get_elem?-lt (y ∷ xs) (suc i) x e = omega (arith, get_elem?-lt xs i x e)

pub length-map {ℓ κ} :
    {A : Type ℓ} {B : Type κ} (f : A → B) (xs : List A) → length (map f xs) ≡ length xs
length-map f [] = refl
length-map f (x ∷ xs) = ap suc (length-map f xs)

pub get_elem?-map {ℓ κ} :
    {A : Type ℓ} {B : Type κ} (f : A → B) (xs : List A) (i : ℕ) (x : A)
    → get_elem? xs i ≡ some x
    → get_elem? (map f xs) i ≡ some (f x)
get_elem?-map f [] i x e = absurd (cc)
get_elem?-map f (y ∷ xs) zero x e = ap (λ z. some (f z)) (some_inj e)
get_elem?-map f (y ∷ xs) (suc i) x e = get_elem?-map f xs i x e

pub get_elem?-fill-map {ℓ κ} :
    {A : Type ℓ} {B : Type κ} (f : A → B) (vs : List A) (xs : List B) (i : ℕ) (v : A)
    → length vs ≤ length xs
    → get_elem? vs i ≡ some v
    → get_elem? (fill xs 0 (map f vs)) i ≡ some (f v)
get_elem?-fill-map f vs xs i v h e =
    let at_i : 0 + i ≡ i = omega arith in
    rw at_i at (
      get_elem?-fill (map f vs) xs 0 i (f v) (omega (arith, length-map f vs))
        (get_elem?-map f vs i v e))

module _ {ℓ κ} {A : Type ℓ} (P : A → Type κ) where
  abbrev pub All : List A → Type κ
  All [] = Unit
  All (x ∷ xs) = P x × All xs

  pub All-append : (xs ys : List A) → All xs → All ys → All (xs ++ ys)
  All-append [] ys _ hy = hy
  All-append (x ∷ xs) ys (px, hx) hy = (px, All-append xs ys hx hy)

pub All-imp {ℓ κ μ} :
    {A : Type ℓ} (P : A → Type κ) (Q : A → Type μ) (xs : List A)
    → ((x : A) → P x → Q x)
    → All P xs
    → All Q xs
All-imp P Q [] f a = tt
All-imp P Q (x ∷ xs) f a = (f x a.0, All-imp P Q xs f a.1)

pub All-imp₂ {ℓ κ μ ν} :
    {A : Type ℓ} (P : A → Type κ) (Q : A → Type μ) (R : A → Type ν) (xs : List A)
    → ((x : A) → P x → Q x → R x)
    → All P xs
    → All Q xs
    → All R xs
All-imp₂ P Q R [] f a b = tt
All-imp₂ P Q R (x ∷ xs) f a b = (f x a.0 b.0, All-imp₂ P Q R xs f a.1 b.1)

module _ {ℓ} {A : Type ℓ} (P : A → Type 0) where
  abbrev pub Any : List A → Type 0
  Any [] = ⊥
  Any (x ∷ xs) = P x ⊎ Any xs

-- Occurrence in a list, with the place kept.
abbrev pub In : {A : Type 0} → A → List A → Type 0
In a [] = ⊥
In a (x ∷ xs) = (a ≡ x) ⊎ In a xs

-- The sum of a measure of the elements.
abbrev pub sum_by {ℓ} : {A : Type ℓ} → (A → ℕ) → List A → ℕ
sum_by f [] = 0
sum_by f (x ∷ xs) = f x + sum_by f xs

module _ {ℓ} {A : Type ℓ} (f : A → ℕ) where
  pub sum_by-set :
      (xs : List A) (i : ℕ) (x v : A)
      → get_elem? xs i ≡ some x
      → sum_by f (set xs i v) + f x ≡ sum_by f xs + f v
  sum_by-set [] i x v e = absurd (cc)
  sum_by-set (y ∷ xs) zero x v e = let same : y ≡ x = some_inj e in omega (arith, ap f same)
  sum_by-set (y ∷ xs) (suc i) x v e = omega (arith, sum_by-set xs i x v e)

  pub le-sum_by : (xs : List A) (i : ℕ) (x : A) → get_elem? xs i ≡ some x → f x ≤ sum_by f xs
  le-sum_by [] i x e = absurd (cc)
  le-sum_by (y ∷ xs) zero x e = let same : y ≡ x = some_inj e in omega (arith, ap f same)
  le-sum_by (y ∷ xs) (suc i) x e = omega (arith, le-sum_by xs i x e)

  pub sum_by-remove_at :
      (xs : List A) (i : ℕ) (x : A)
      → get_elem? xs i ≡ some x
      → sum_by f (remove_at xs i) + f x ≡ sum_by f xs
  sum_by-remove_at [] i x e = absurd (cc)
  sum_by-remove_at (y ∷ xs) zero x e = let same : y ≡ x = some_inj e in omega (arith, ap f same)
  sum_by-remove_at (y ∷ xs) (suc i) x e = omega (arith, sum_by-remove_at xs i x e)

module _ {ℓ κ} {A : Type ℓ} (P : A → Type κ) where
  pub All-set : (xs : List A) (i : ℕ) (v : A) → P v → All P xs → All P (set xs i v)
  All-set [] i v p a = tt
  All-set (x ∷ xs) zero v p a = (p, a.1)
  All-set (x ∷ xs) (suc i) v p a = (a.0, All-set xs i v p a.1)

  pub All-remove_at : (xs : List A) (i : ℕ) → All P xs → All P (remove_at xs i)
  All-remove_at [] i a = tt
  All-remove_at (x ∷ xs) zero a = a.1
  All-remove_at (x ∷ xs) (suc i) a = (a.0, All-remove_at xs i a.1)

  pub All-get_elem? : (xs : List A) (i : ℕ) (v : A) → get_elem? xs i ≡ some v → All P xs → P v
  All-get_elem? [] i v e a = absurd (cc)
  All-get_elem? (x ∷ xs) zero v e a = subst P (some_inj e) a.0
  All-get_elem? (x ∷ xs) (suc i) v e a = All-get_elem? xs i v e a.1

  pub All-take : (n : ℕ) (xs : List A) → All P xs → All P (take n xs)
  All-take zero xs a = tt
  All-take (suc n) [] a = tt
  All-take (suc n) (x ∷ xs) a = (a.0, All-take n xs a.1)

pub length-take {ℓ} : {A : Type ℓ} (n : ℕ) (xs : List A) → length (take n xs) ≡ min n (length xs)
length-take zero xs = omega arith
length-take (suc n) [] = omega arith
length-take (suc n) (x ∷ xs) = omega (arith, length-take n xs)

pub length-remove_at {ℓ} :
    {A : Type ℓ} (xs : List A) (i : ℕ) (v : A)
    → get_elem? xs i ≡ some v
    → suc (length (remove_at xs i)) ≡ length xs
length-remove_at [] i v e = absurd (cc)
length-remove_at (x ∷ xs) zero v e = refl
length-remove_at (x ∷ xs) (suc i) v e = ap suc (length-remove_at xs i v e)
