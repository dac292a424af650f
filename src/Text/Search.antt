-- ===== src/Text/Search.antt =====
-- Searches and cuts of texts: at the first and at the last occurrence of a character.
use range_porter.Prelude.{
  ℕ, suc, ◌+◌, ◌≡◌, refl, ap, ◌∙◌, ◌≢◌, inl, inr, false, [], ◌∷◌, ◌++◌, none, some, arith, take,
  drop, ◌==◌, Bool-cases, Option-cases, some_inj, length, ==→eq,
}
use mathlib.Core.Option.{none-ne-some}
use mathlib.Core.Path.{ap₂, subst}
use range_porter.Text.{Text, is_empty, strip_prefix, find, rsplit_once}
use range_porter.Text.Cuts.{Lacks}

pub find-append : (c : ℕ) (s rest : Text) → Lacks c s → find c (s ++ (c ∷ rest)) ≡ some (length s)
unfolding find
find-append c [] rest h = ground arith
find-append c (d ∷ s) rest h = ground (arith, find-append c s rest h.1)

pub take-length : (s rest : Text) → take (length s) (s ++ rest) ≡ s
take-length [] rest = refl
take-length (c ∷ s) rest = ap (λ l. c ∷ l) (take-length s rest)

pub drop-length : (s : Text) (c : ℕ) (rest : Text) → drop (length s + 1) (s ++ (c ∷ rest)) ≡ rest
drop-length [] c rest = refl
drop-length (d ∷ s) c rest =
    let step : suc (length s) + 1 ≡ suc (length s + 1) = omega arith in
    rw step (drop-length s c rest)

-- The text around the first separator.
pub find_cut :
    (c : ℕ) (s : Text) (i : ℕ)
    → find c s ≡ some i
    → (a : Text) × (b : Text) × (s ≡ a ++ (c ∷ b)) × Lacks c a × (length a ≡ i)
unfolding find
find_cut c [] i e = absurd (none-ne-some i e)
find_cut c (d ∷ s) i e = elim (Bool-cases (d == c)) [
  | inl same ↦ ([], s, ap (λ k. k ∷ s) (==→eq d c same), tt, some_inj (rw same at e))
  | inr ne ↦ elim (Option-cases (find c s)) [
    | inl missing ↦ absurd (none-ne-some i (rw missing at (rw ne at e)))
    | inr (j, found) ↦
        let (a, b, same, lacks, long) = find_cut c s j found in
        let next : j + 1 ≡ i = some_inj (rw found at (rw ne at e)) in
        (d ∷ a, b, ap (λ l. d ∷ l) same, (ne, lacks), omega arith)
  ]
]

pub rsplit_once-none : (c : ℕ) (s : Text) → rsplit_once c s ≡ none → Lacks c s
unfolding rsplit_once
rsplit_once-none c [] e = tt
rsplit_once-none c (d ∷ s) e = ground (arith, rsplit_once-none c s)

pub rsplit_once_cut :
    (c : ℕ) (s a b : Text) → rsplit_once c s ≡ some (a, b) → (s ≡ a ++ (c ∷ b)) × Lacks c b
unfolding rsplit_once
rsplit_once_cut c [] a b e = absurd (none-ne-some (a, b) e)
rsplit_once_cut c (d ∷ s) a b e = elim (Option-cases (rsplit_once c s)) [
  | inr ((a', b'), found) ↦
      let (same, lacks) = rsplit_once_cut c s a' b' found in
      let cut : ◌≡◌ {A = Text × Text} (d ∷ a', b') (a, b) = some_inj (rw found at e) in
      let same_a : d ∷ a' ≡ a = ap (λ (r : Text × Text). r.0) cut in
      let same_b : b' ≡ b = ap (λ (r : Text × Text). r.1) cut in
      (ap (λ l. d ∷ l) same ∙ ap₂ (λ x y. x ++ (c ∷ y)) same_a same_b, subst (Lacks c) same_b lacks)
  | inl missing ↦ elim (Bool-cases (d == c)) [
    | inl here ↦
        let cut : ◌≡◌ {A = Text × Text} ([], s) (a, b) = some_inj (rw here at (rw missing at e)) in
        let same_a : [] ≡ a = ap (λ (r : Text × Text). r.0) cut in
        let same_b : s ≡ b = ap (λ (r : Text × Text). r.1) cut in
        (
          ap (λ k. k ∷ s) (==→eq d c here) ∙ ap₂ (λ x y. x ++ (c ∷ y)) same_a same_b,
          subst (Lacks c) same_b (rsplit_once-none c s missing),
        )
    | inr other ↦ absurd (none-ne-some (a, b) (rw other at (rw missing at e)))
  ]
]

pub strip_prefix-some : (c : ℕ) (s rest : Text) → strip_prefix c s ≡ some rest → s ≡ c ∷ rest
unfolding strip_prefix
strip_prefix-some c [] rest e = absurd (none-ne-some rest e)
strip_prefix-some c (d ∷ s) rest e = ground arith

pub strip_prefix-cons : (c : ℕ) (s : Text) → strip_prefix c (c ∷ s) ≡ some s
unfolding strip_prefix
strip_prefix-cons c s = ground arith

pub ne-nil-of_full : (s : Text) → is_empty s ≡ false → s ≢ []
unfolding is_empty
ne-nil-of_full [] e = cc
ne-nil-of_full (c ∷ s) e = λ h. cc

pub is_empty-of_ne-nil : (s : Text) → s ≢ [] → is_empty s ≡ false
unfolding is_empty
is_empty-of_ne-nil [] h = absurd (h refl)
is_empty-of_ne-nil (c ∷ s) h = refl
