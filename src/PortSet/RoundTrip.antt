-- ===== src/PortSet/RoundTrip.antt =====
-- Port sets written as expressions, and read back.
use range_porter.Prelude.{
  ℕ, ◌≤◌, ◌<◌, ◌≡◌, refl, sym, ◌∙◌, ap, ◌≢◌, ◌⊎◌, inl, inr, ◌↔◌, false, List, [], ◌∷◌, ◌++◌, map,
  arith, All, Any, In, All-append,
}
use mathlib.Core.Path.{subst}
use range_porter.Result.{ok}
use range_porter.Text.{Text, max_u16, is_whitespace, trim, split, parse_u16}
use range_porter.Text.Decimal.{IsDigit, print_u16, print_u16-IsDigit, parse_u16-print_u16}
use range_porter.Text.Cuts.{
  Lacks, IsSolid, trim-of_solid, split-of_Lacks, split-append, split_once-of_Lacks,
  split_once-append,
}
use range_porter.PortSet.{parse_portset}
use range_porter.PortSet.Covers.{IsPort, Denotes, single, range, Covers, Denotes-unique}
use range_porter.PortSet.Sets.{Above-ext}
use range_porter.PortSet.Loop.{IsPortSet, Readable}
use range_porter.PortSet.Parse.{parse_portset-ok, parse_portset_accepts}

-- A part of a port expression: a port, or a range of ports.
pub data Item : Type 0 where
  one : ℕ → Item
  span : ℕ → ℕ → Item

abbrev pub low : Item → ℕ
low (one p) = p
low (span lo hi) = lo

abbrev pub high : Item → ℕ
high (one p) = p
high (span lo hi) = hi

abbrev pub IsItem : Item → Type 0
IsItem i = (1 ≤ low i) × (low i ≤ high i) × (high i ≤ max_u16)

abbrev pub Holds : ℕ → Item → Type 0
Holds x i = (low i ≤ x) × (x ≤ high i)

unfoldable pub print_item : Item → Text
print_item (one p) = print_u16 p
print_item (span lo hi) = print_u16 lo ++ (b'-' ∷ print_u16 hi)

unfoldable pub print_items : List Item → Text
unfolding print_item
print_items [] = []
print_items (i ∷ []) = print_item i
print_items (i ∷ j ∷ items) = print_item i ++ (b',' ∷ print_items (j ∷ items))

-- Digits and the dash: no white space, no comma.
abbrev IsPlain : ℕ → Type 0
IsPlain c = (IsDigit c) ⊎ (c ≡ b'-')

digits-Lacks : (sep : ℕ) (s : Text) → sep < b'0' → All IsDigit s → Lacks sep s
digits-Lacks sep [] h a = tt
digits-Lacks sep (c ∷ s) h (d, a) = (ground arith, digits-Lacks sep s h a)

digit-solid : (c : ℕ) → IsDigit c → is_whitespace c ≡ false
unfolding is_whitespace
digit-solid c d = ground arith

digits-IsSolid : (s : Text) → All IsDigit s → IsSolid s
digits-IsSolid [] a = tt
digits-IsSolid (c ∷ s) (d, a) = (digit-solid c d, digits-IsSolid s a)

dash-solid : is_whitespace b'-' ≡ false
unfolding is_whitespace
dash-solid = refl

print_u16-Lacks : (sep n : ℕ) → sep < b'0' → Lacks sep (print_u16 n)
print_u16-Lacks sep n h = digits-Lacks sep (print_u16 n) h (print_u16-IsDigit n)

print_u16-IsSolid : (n : ℕ) → IsSolid (print_u16 n)
print_u16-IsSolid n = digits-IsSolid (print_u16 n) (print_u16-IsDigit n)

print_u16-IsPort : (n : ℕ) → 1 ≤ n → n ≤ max_u16 → IsPort (print_u16 n) n
print_u16-IsPort n h k =
    (ap parse_u16 (trim-of_solid (print_u16 n) (print_u16-IsSolid n)) ∙ parse_u16-print_u16 n k, h)

print_item-Lacks : (i : Item) → Lacks b',' (print_item i)
unfolding print_item
print_item-Lacks (one p) = print_u16-Lacks b',' p (omega arith)
print_item-Lacks (span lo hi) =
    All-append _ (print_u16 lo) _ (print_u16-Lacks b',' lo (omega arith))
      (refl, print_u16-Lacks b',' hi (omega arith))

print_item-IsSolid : (i : Item) → IsSolid (print_item i)
unfolding print_item
print_item-IsSolid (one p) = print_u16-IsSolid p
print_item-IsSolid (span lo hi) =
    All-append _ (print_u16 lo) _ (print_u16-IsSolid lo) (dash-solid, print_u16-IsSolid hi)

Denotes-print_item : (i : Item) → IsItem i → Denotes (print_item i) (low i) (high i)
unfolding print_item
Denotes-print_item (one p) (a, b, c) =
    single (split_once-of_Lacks b'-' (print_u16 p) (print_u16-Lacks b'-' p (omega arith)))
      (print_u16-IsPort p a c) refl
Denotes-print_item (span lo hi) (a, b, c) =
    range (print_u16 lo) (print_u16 hi)
      (split_once-append b'-' (print_u16 lo) (print_u16 hi) (print_u16-Lacks b'-' lo (omega arith)))
      (print_u16-IsPort lo a (omega arith)) (print_u16-IsPort hi (omega arith) c) b

Denotes-trim : (i : Item) → IsItem i → Denotes (trim (print_item i)) (low i) (high i)
Denotes-trim i v =
    subst (λ t. Denotes t (low i) (high i))
      (sym (trim-of_solid (print_item i) (print_item-IsSolid i))) (Denotes-print_item i v)

split-print_items :
    (items : List Item) → items ≢ [] → split b',' (print_items items) ≡ map print_item items
unfolding print_items
split-print_items [] h = absurd (h refl)
split-print_items (i ∷ []) h = split-of_Lacks b',' (print_item i) (print_item-Lacks i)
split-print_items (i ∷ j ∷ items) h =
    split-append b',' (print_item i) (print_items (j ∷ items)) (print_item-Lacks i)
    ∙ ap (λ l. print_item i ∷ l) (split-print_items (j ∷ items) (λ e. cc))

Readable-items : (items : List Item) → All IsItem items → All Readable (map print_item items)
Readable-items [] a = tt
Readable-items (i ∷ items) (v, a) = ((low i, high i, Denotes-trim i v), Readable-items items a)

Covers→Holds :
    (x : ℕ) (items : List Item)
    → All IsItem items
    → Any (Covers x) (map print_item items)
    → Any (Holds x) items
Covers→Holds x [] a c = c
Covers→Holds x (i ∷ items) (v, a) (inl (lo, hi, d, h, k)) =
    let (same_lo, same_hi) = Denotes-unique _ lo hi (low i) (high i) d (Denotes-trim i v) in
    inl (omega arith, omega arith)
Covers→Holds x (i ∷ items) (v, a) (inr c) = inr (Covers→Holds x items a c)

Holds→Covers :
    (x : ℕ) (items : List Item)
    → All IsItem items
    → Any (Holds x) items
    → Any (Covers x) (map print_item items)
Holds→Covers x [] a c = c
Holds→Covers x (i ∷ items) (v, a) (inl (h, k)) = inl (low i, high i, Denotes-trim i v, h, k)
Holds→Covers x (i ∷ items) (v, a) (inr c) = inr (Holds→Covers x items a c)

-- Ports and ranges written with commas between them are read back as the set of their ports,
-- whatever their order and overlap.
pub parse_portset-print_items :
    (items : List Item) (ps : List ℕ)
    → items ≢ []
    → All IsItem items
    → IsPortSet ps
    → ((x : ℕ) → In x ps ↔ Any (Holds x) items)
    → parse_portset (print_items items) ≡ ok ps
parse_portset-print_items items ps h a set same = e ∙ ap ok found
  where
    cut : split b',' (print_items items) ≡ map print_item items
    cut = split-print_items items h

    accepted : (qs : List ℕ) × (parse_portset (print_items items) ≡ ok qs)
    accepted =
        (parse_portset_accepts (print_items items)).1
          (subst (All Readable) (sym cut) (Readable-items items a))

    e : parse_portset (print_items items) ≡ ok accepted.0
    e = accepted.1

    covered : (x : ℕ) → In x accepted.0 ↔ Any (Covers x) (map print_item items)
    covered =
        subst (λ l. (x : ℕ) → In x accepted.0 ↔ Any (Covers x) l) cut
          (parse_portset-ok (print_items items) accepted.0 e).2

    found : accepted.0 ≡ ps
    found =
        Above-ext 0 accepted.0 ps (parse_portset-ok (print_items items) accepted.0 e).0.0 set.0
          (λ x i. (same x).1 (Covers→Holds x items a ((covered x).0 i)))
          (λ x i. (covered x).1 (Holds→Covers x items a ((same x).0 i)))
