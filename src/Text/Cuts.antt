-- ===== src/Text/Cuts.antt =====
-- Laws of trimming and cutting texts.
use range_porter.Prelude.{
  ℕ, ◌≡◌, refl, sym, ap, ◌∙◌, ◌≢◌, inl, inr, Bool-cases, ==→eq, true, false, [], ◌∷◌, ◌++◌, none,
  some, arith, All, ◌==◌,
}
use mathlib.Core.Bool.{false≢true}
use range_porter.Text.{
  Text, is_whitespace, trim_start, keep_end, trim_end, trim, split, split_once, rsplit_once,
  is_empty,
}

abbrev pub Lacks : ℕ → Text → Type 0
Lacks c = All (λ d. (d == c) ≡ false)

-- No character of the text is white space.
abbrev pub IsSolid : Text → Type 0
IsSolid = All (λ d. is_whitespace d ≡ false)

trim_end-of_solid : (s : Text) → IsSolid s → trim_end s ≡ s
unfolding trim_end keep_end
trim_end-of_solid [] h = refl
trim_end-of_solid (c ∷ []) h = ground arith
trim_end-of_solid (c ∷ d ∷ s) h = ground (arith, trim_end-of_solid (d ∷ s) h.1)

-- Trimming changes nothing in a text without white space.
pub trim-of_solid : (s : Text) → IsSolid s → trim s ≡ s
unfolding trim trim_start
trim-of_solid [] h = unfold trim_end in refl
trim-of_solid (c ∷ s) h = ground (arith, trim_end-of_solid (c ∷ s) h)

pub split-of_Lacks : (sep : ℕ) (s : Text) → Lacks sep s → split sep s ≡ s ∷ []
unfolding split
split-of_Lacks sep [] h = refl
split-of_Lacks sep (c ∷ s) h = ground (arith, split-of_Lacks sep s h.1)

-- Before its first separator a text is cut off whole.
pub split-append :
    (sep : ℕ) (s rest : Text) → Lacks sep s → split sep (s ++ sep ∷ rest) ≡ s ∷ split sep rest
unfolding split
split-append sep [] rest h = ground arith
split-append sep (c ∷ s) rest h = ground (arith, split-append sep s rest h.1)

pub split_once-of_Lacks : (sep : ℕ) (s : Text) → Lacks sep s → split_once sep s ≡ none
unfolding split_once
split_once-of_Lacks sep [] h = refl
split_once-of_Lacks sep (c ∷ s) h = ground (arith, split_once-of_Lacks sep s h.1)

pub split_once-append :
    (sep : ℕ) (s rest : Text) → Lacks sep s → split_once sep (s ++ sep ∷ rest) ≡ some (s, rest)
unfolding split_once
split_once-append sep [] rest h = ground arith
split_once-append sep (c ∷ s) rest h = ground (arith, split_once-append sep s rest h.1)

pub rsplit_once-of_Lacks : (sep : ℕ) (s : Text) → Lacks sep s → rsplit_once sep s ≡ none
unfolding rsplit_once
rsplit_once-of_Lacks sep [] h = refl
rsplit_once-of_Lacks sep (c ∷ s) h = ground (arith, rsplit_once-of_Lacks sep s h.1)

-- `rsplit_once` cuts at the last separator.
pub rsplit_once-append :
    (sep : ℕ) (s rest : Text) → Lacks sep rest → rsplit_once sep (s ++ sep ∷ rest) ≡ some (s, rest)
unfolding rsplit_once
rsplit_once-append sep [] rest h = ground (arith, rsplit_once-of_Lacks sep rest h)
rsplit_once-append sep (c ∷ s) rest h = ground (arith, rsplit_once-append sep s rest h)

pub eq-nil_of_is_empty : (s : Text) → is_empty s ≡ true → s ≡ []
unfolding is_empty
eq-nil_of_is_empty [] e = refl
eq-nil_of_is_empty (c ∷ s) e = cc

-- Every character of the text is white space.
abbrev pub IsBlank : Text → Type 0
IsBlank = All (λ d. is_whitespace d ≡ true)

trim_end-eq-nil : (s : Text) → trim_end s ≡ [] → IsBlank s
unfolding trim_end keep_end
trim_end-eq-nil [] e = tt
trim_end-eq-nil (c ∷ s) e = ground (arith, trim_end-eq-nil s)

trim_start-eq : (s : Text) → IsBlank (trim_start s) → IsBlank s
unfolding trim_start
trim_start-eq [] b = tt
trim_start-eq (c ∷ s) b = elim (Bool-cases (is_whitespace c)) [
  | inl w ↦ (w, trim_start-eq s (rw w at b))
  | inr n ↦ rw n at b
]

-- Only white space is trimmed away whole.
pub trim-eq-nil : (s : Text) → trim s ≡ [] → IsBlank s
unfolding trim
trim-eq-nil s e = trim_start-eq s (trim_end-eq-nil (trim_start s) e)

pub IsBlank-Lacks : (sep : ℕ) (s : Text) → is_whitespace sep ≡ false → IsBlank s → Lacks sep s
IsBlank-Lacks sep [] w b = tt
IsBlank-Lacks sep (c ∷ s) w (h, b) = (
  elim (Bool-cases (c == sep)) [
    | inl e ↦ absurd (false≢true (sym w ∙ ap is_whitespace (sym (==→eq c sep e)) ∙ h))
    | inr e ↦ e
  ],
  IsBlank-Lacks sep s w b,
)

pub split-ne-nil : (sep : ℕ) (s : Text) → split sep s ≢ []
unfolding split
split-ne-nil sep [] = λ e. cc
split-ne-nil sep (c ∷ s) = ground (arith, split-ne-nil sep s)
