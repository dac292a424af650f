-- ===== src/Text/Decimal.antt =====
-- What `parse_u16` accepts, and a decimal print that it reads back.
use range_porter.Prelude.{
  ℕ, zero, suc, ◌+◌, ◌-◌, ◌*◌, ◌/◌, ◌%◌, ◌^◌, ◌≤◌, ◌<◌, ◌≡◌, refl, ◌≢◌, ap, [], ◌∷◌, ◌++◌, some,
  arith, All, ltb, if◌then◌else◌, All-append, ◌∙◌, inl, inr, Bool-cases,
}
use mathlib.Core.List.{concat-ne-nil}
use native.Mathlib.Nat.{pow-suc}
use range_porter.Text.{Text, max_u16, scan_u16, digits_u16, parse_u16}

abbrev pub IsDigit : ℕ → Type 0
IsDigit c = (b'0' ≤ c) × (c ≤ b'9')

-- Decimal digits of `n`, at most `f + 1` of them.
pub digits : ℕ → ℕ → Text
digits zero n = (b'0' + n % 10) ∷ []
digits (suc f) n =
    let more = digits f (n / 10) ++ (b'0' + n % 10) ∷ [] in
    if ltb n 10 then (b'0' + n) ∷ [] else more

-- The decimal print of a port: five digits are enough below 100000.
unfoldable pub print_u16 : ℕ → Text
unfolding digits
print_u16 n = digits 4 n

scan_u16_last :
    (s : Text) (acc n : ℕ) (d : ℕ)
    → scan_u16 acc s ≡ some n
    → d < 10
    → n * 10 + d ≤ max_u16
    → scan_u16 acc (s ++ (b'0' + d) ∷ []) ≡ some (n * 10 + d)
unfolding scan_u16
scan_u16_last [] acc n d e h k = ground arith
scan_u16_last (c ∷ s) acc n d e h k = ground (arith, scan_u16_last s (acc * 10 + (c - b'0')) n d)

scan_u16-digits : (f n : ℕ) → n < 10 ^ suc f → n ≤ max_u16 → scan_u16 0 (digits f n) ≡ some n
unfolding digits
scan_u16-digits zero n h k = unfold scan_u16 in ground arith
scan_u16-digits (suc f) n h k = elim (Bool-cases (ltb n 10)) [
  | inl small ↦ rw small (unfold scan_u16 in ground arith)
  | inr big ↦ rw big (
      scan_u16_last (digits f (n / 10)) 0 (n / 10) (n % 10)
        (scan_u16-digits f (n / 10) (omega (arith, pow-suc 10 (suc f))) (omega arith)) (omega arith)
        (omega arith)
      ∙ ap some (omega arith))
]

digits-IsDigit : (f n : ℕ) → All IsDigit (digits f n)
unfolding digits
digits-IsDigit zero n = (omega arith, tt)
digits-IsDigit (suc f) n = elim (Bool-cases (ltb n 10)) [
  | inl small ↦ rw small (ground arith)
  | inr big ↦
      rw big (All-append IsDigit (digits f (n / 10)) _ (digits-IsDigit f (n / 10)) (omega arith))
]

digits-ne-nil : (f n : ℕ) → digits f n ≢ []
unfolding digits
digits-ne-nil zero n = λ e. cc
digits-ne-nil (suc f) n = elim (Bool-cases (ltb n 10)) [
  | inl small ↦ rw small (λ e. cc)
  | inr big ↦ rw big (concat-ne-nil _ (digits f (n / 10)))
]

pub print_u16-IsDigit : (n : ℕ) → All IsDigit (print_u16 n)
unfolding print_u16
print_u16-IsDigit n = digits-IsDigit 4 n

pub print_u16-ne-nil : (n : ℕ) → print_u16 n ≢ []
unfolding print_u16
print_u16-ne-nil n = digits-ne-nil 4 n

parse_u16-scan_u16 : (s : Text) → s ≢ [] → All IsDigit s → parse_u16 s ≡ scan_u16 0 s
unfolding parse_u16
parse_u16-scan_u16 [] h d = absurd (h refl)
parse_u16-scan_u16 (c ∷ s) h d = ground arith

-- The decimal print of a number below 2 ^ 16 is read back as that number.
pub parse_u16-print_u16 : (n : ℕ) → n ≤ max_u16 → parse_u16 (print_u16 n) ≡ some n
parse_u16-print_u16 n h =
    parse_u16-scan_u16 (print_u16 n) (print_u16-ne-nil n) (print_u16-IsDigit n)
    ∙ unfold print_u16 in scan_u16-digits 4 n (omega arith) h

-- The digit loop never leaves 16 bits.
scan_u16_bound : (s : Text) (acc n : ℕ) → acc ≤ max_u16 → scan_u16 acc s ≡ some n → n ≤ max_u16
unfolding scan_u16
scan_u16_bound [] acc n h e = ground arith
scan_u16_bound (c ∷ s) acc n h e = ground (arith, scan_u16_bound s (acc * 10 + (c - b'0')) n)

digits_u16_bound : (s : Text) (n : ℕ) → digits_u16 s ≡ some n → n ≤ max_u16
unfolding digits_u16
digits_u16_bound [] n e = cc
digits_u16_bound (c ∷ s) n e = scan_u16_bound (c ∷ s) 0 n (omega arith) e

pub parse_u16_bound : (s : Text) (n : ℕ) → parse_u16 s ≡ some n → n ≤ max_u16
unfolding parse_u16
parse_u16_bound [] n e = cc
parse_u16_bound (c ∷ s) n e = ground (arith, digits_u16_bound s n, digits_u16_bound (c ∷ s) n)
