-- ===== src/PortSet/Covers.antt =====
-- What a segment of the expression denotes, and why one is refused, apart from the code.
use range_porter.Prelude.{
  ℕ, ◌≤◌, ◌<◌, ◌≡◌, sym, ◌∙◌, ap, Option, true, [], none, some, arith, some_inj,
}
use mathlib.Core.Path.{subst}
use range_porter.Text.{Text, max_u16, is_empty, trim, split_once, parse_u16}
use range_porter.Text.Decimal.{parse_u16_bound}
use range_porter.Text.Cuts.{eq-nil_of_is_empty, trim-of_solid}
use range_porter.PortSet.{
  PortSetError, empty_segment, inverted_range, invalid_port_value, port_zero,
}

-- A port number in decimal, white space around it aside.
abbrev pub IsPort : Text → ℕ → Type 0
IsPort t p = (parse_u16 (trim t) ≡ some p) × (1 ≤ p)

-- A segment is one port, or two ports in order around its first dash.
pub data Denotes (t : Text) (lo hi : ℕ) : Type 0 where
  single : split_once b'-' t ≡ none → IsPort t lo → hi ≡ lo → Denotes t lo hi
  range :
      (first last : Text)
      → split_once b'-' t ≡ some (first, last)
      → IsPort first lo
      → IsPort last hi
      → lo ≤ hi
      → Denotes t lo hi

-- The port lies in the range that the segment denotes.
abbrev pub Covers : ℕ → Text → Type 0
Covers p segment = (lo : ℕ) × (hi : ℕ) × Denotes (trim segment) lo hi × (lo ≤ p) × (p ≤ hi)

-- Why a port is refused.
pub data BadPort (t : Text) (e : PortSetError) : Type 0 where
  not_number : parse_u16 (trim t) ≡ none → e ≡ invalid_port_value t → BadPort t e
  zero_port : parse_u16 (trim t) ≡ some 0 → e ≡ port_zero → BadPort t e

-- Why a segment is refused.
pub data Rejects (segment : Text) (e : PortSetError) : Type 0 where
  blank : is_empty (trim segment) ≡ true → e ≡ empty_segment → Rejects segment e
  bad_single : split_once b'-' (trim segment) ≡ none → BadPort (trim segment) e → Rejects segment e
  bad_first :
      (first last : Text)
      → split_once b'-' (trim segment) ≡ some (first, last)
      → BadPort first e
      → Rejects segment e
  bad_last :
      (first last : Text) (lo : ℕ)
      → split_once b'-' (trim segment) ≡ some (first, last)
      → IsPort first lo
      → BadPort last e
      → Rejects segment e
  inverted :
      (first last : Text) (lo hi : ℕ)
      → split_once b'-' (trim segment) ≡ some (first, last)
      → IsPort first lo
      → IsPort last hi
      → hi < lo
      → e ≡ inverted_range (trim segment)
      → Rejects segment e

pub Denotes-bounds :
    (t : Text) (lo hi : ℕ) → Denotes t lo hi → (1 ≤ lo) × (lo ≤ hi) × (hi ≤ max_u16)
Denotes-bounds t lo hi (single e (p, l) h) =
    (l, omega arith, omega (arith, parse_u16_bound (trim t) lo p))
Denotes-bounds t lo hi (range first last e (p, l) (q, m) h) =
    (l, h, parse_u16_bound (trim last) hi q)

IsPort-unique : (s t : Text) (a b : ℕ) → IsPort s a → IsPort t b → s ≡ t → a ≡ b
IsPort-unique s t a b (p, _) (q, _) e = some_inj (sym p ∙ ap (λ r. parse_u16 (trim r)) e ∙ q)

same_halves :
    {r : Option (Text × Text)} {f g f' g' : Text}
    → r ≡ some (f, g)
    → r ≡ some (f', g')
    → (f ≡ f') × (g ≡ g')
same_halves e e' = (cc, cc)

-- Two readings of one segment agree.
pub Denotes-unique :
    (t : Text) (lo hi lo' hi' : ℕ) → Denotes t lo hi → Denotes t lo' hi' → (lo ≡ lo') × (hi ≡ hi')
Denotes-unique t lo hi lo' hi' (single e (p, l) h) (single e' (p', l') h') = (cc, cc)
Denotes-unique t lo hi lo' hi' (single e (p, l) h) (range f g e' p' q' h') = cc
Denotes-unique t lo hi lo' hi' (range f g e' p' q' h') (single e (p, l) h) = cc
Denotes-unique t lo hi lo' hi' (range f g e p q h) (range f' g' e' p' q' h') = (
  IsPort-unique f f' lo lo' p p' (same_halves e e').0,
  IsPort-unique g g' hi hi' q q' (same_halves e e').1,
)

pub not-Denotes-nil : (lo hi : ℕ) → ¬ Denotes [] lo hi
unfolding split_once parse_u16
not-Denotes-nil lo hi (single e (p, l) h) = cc (trim-of_solid [] tt)
not-Denotes-nil lo hi (range first last e p q h) = cc

not-Denotes-of_empty : (t : Text) (lo hi : ℕ) → is_empty t ≡ true → ¬ Denotes t lo hi
not-Denotes-of_empty t lo hi e d =
    not-Denotes-nil lo hi (subst (λ s. Denotes s lo hi) (eq-nil_of_is_empty t e) d)

not-BadPort : (t : Text) (p : ℕ) (e : PortSetError) → IsPort t p → ¬ BadPort t e
not-BadPort t p e (h, l) (not_number b _) = cc
not-BadPort t p e (h, l) (zero_port b _) = absurd (omega (arith, some_inj (sym h ∙ b)))

-- No segment is both read and refused.
pub not-Rejects :
    (segment : Text) (lo hi : ℕ) (e : PortSetError)
    → Denotes (trim segment) lo hi
    → ¬ Rejects segment e
not-Rejects segment lo hi e d (blank b _) = not-Denotes-of_empty (trim segment) lo hi b d
not-Rejects segment lo hi e (single _ p _) (bad_single _ b) = not-BadPort _ lo e p b
not-Rejects segment lo hi e (single n _ _) (bad_first f g s b) = cc
not-Rejects segment lo hi e (single n _ _) (bad_last f g l s p b) = cc
not-Rejects segment lo hi e (single n _ _) (inverted f g l h s p q o _) = cc
not-Rejects segment lo hi e (range f g s p q o) (bad_single n b) = cc
not-Rejects segment lo hi e (range f g s p q o) (bad_first f' g' s' b) =
    not-BadPort f' lo e (rw (← (same_halves s s').0) p) b
not-Rejects segment lo hi e (range f g s p q o) (bad_last f' g' l s' p' b) =
    not-BadPort g' hi e (rw (← (same_halves s s').1) q) b
not-Rejects segment lo hi e (range f g s p q o) (inverted f' g' l h s' p' q' o' _) = absurd (
    omega (
      arith,
      IsPort-unique f f' lo l p p' (same_halves s s').0,
      IsPort-unique g g' hi h q q' (same_halves s s').1,
    ))
