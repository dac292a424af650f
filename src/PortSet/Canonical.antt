-- ===== src/PortSet/Canonical.antt =====
-- The set of ports is a canonical form: it forgets how an expression is written, and nothing else.
use range_porter.Prelude.{ℕ, ◌≤◌, refl, arith, [], ◌∷◌, ◌≢◌, All, ◌≡◌, sym, ◌∙◌, ◌↔◌, List, In, Any}
use mathlib.Core.Path.{subst}
use mathlib.Core.HLevel.{Σ_prop_path, ×_prop}
use mathlib.Core.List
use mathlib.Core.Quot
use mathlib.Core.Quot.{Quot, Quot-set}
use native.Mathlib.Bridge.{le_prop}
use native.Mathlib.Nat.{ℕ_set}
use range_porter.Result.{ok}
use range_porter.Text.{Text, split, max_u16}
use range_porter.PortSet.{parse_portset}
use range_porter.PortSet.Covers.{Covers}
use range_porter.PortSet.Sets.{Above, Above-ext}
use range_porter.PortSet.Loop.{IsPortSet}
use range_porter.PortSet.RoundTrip.{
  Item, one, IsItem, Holds, print_items, parse_portset-print_items,
}
use range_porter.PortSet.Parse.{parse_portset-ok}

-- The expressions denote the same ports.
abbrev pub SamePorts : Text → Text → Type 0
SamePorts a b = (p : ℕ) → Any (Covers p) (split b',' a) ↔ Any (Covers p) (split b',' b)

-- Two accepted expressions have the same set of ports exactly when they denote the same ports,
-- whatever the order, the overlap and the spacing of their segments.
pub parse_portset_same :
    (a b : Text) (ps qs : List ℕ)
    → parse_portset a ≡ ok ps
    → parse_portset b ≡ ok qs
    → (ps ≡ qs) ↔ SamePorts a b
parse_portset_same a b ps qs ha hb =
    let (sa, na, ca) = parse_portset-ok a ps ha in
    let (sb, nb, cb) = parse_portset-ok b qs hb in
    (
      λ same p. (
        λ h. (cb p).0 (subst (In p) same ((ca p).1 h)),
        λ h. (ca p).0 (subst (In p) (sym same) ((cb p).1 h)),
      ),
      λ same.
          Above-ext 0 ps qs (sa.0) (sb.0) (λ p i. (cb p).1 ((same p).0 ((ca p).0 i)))
            (λ p i. (ca p).1 ((same p).1 ((cb p).0 i))),
    )

-- An accepted expression, with its ports.
abbrev pub Accepted : Type 0
Accepted = (t : Text) × (ps : List ℕ) × (parse_portset t ≡ ok ps)

abbrev pub SameAccepted : Accepted → Accepted → Type 0
SameAccepted x y = SamePorts (x.0) (y.0)

-- Expressions, up to what they denote.
abbrev pub Expression : Type 0
Expression = Quot SameAccepted

expression_set : IsSet Expression
expression_set = Quot-set

list_set : IsSet (List ℕ)
list_set = List.is_set ℕ_set

unfoldable pub port_set : Expression → List ℕ
unfolding list_set
port_set =
    Quot.lift list_set (λ x. x.1)
      (λ x y same. (parse_portset_same (x.0) (y.0) (x.1) (y.1) (x.2) (y.2)).1 same)

Above-IsProp : (b : ℕ) (ps : List ℕ) → IsProp (Above b ps)
Above-IsProp b [] = hlevel
Above-IsProp b (p ∷ ps) = ×_prop le_prop (Above-IsProp p ps)

bounded-IsProp : (m : ℕ) (ps : List ℕ) → IsProp (All (λ p. p ≤ m) ps)
bounded-IsProp m [] = hlevel
bounded-IsProp m (p ∷ ps) = ×_prop le_prop (bounded-IsProp m ps)

-- The values of `port_set`.
abbrev pub IsListenSet : List ℕ → Type 0
IsListenSet ps = IsPortSet ps × (ps ≢ [])

IsListenSet-IsProp : (ps : List ℕ) → IsProp (IsListenSet ps)
IsListenSet-IsProp ps = ×_prop (×_prop (Above-IsProp 0 ps) (bounded-IsProp max_u16 ps)) (hlevel)

port_set-IsListenSet : (x : Expression) → IsListenSet (port_set x)
unfolding port_set
port_set-IsListenSet =
    Quot.ind (λ x. IsListenSet-IsProp (port_set x))
      λ x. let (is_set, nonempty, _) = parse_portset-ok (x.0) (x.1) (x.2) in (is_set, nonempty)

port_set-injective : (x y : Expression) → port_set x ≡ port_set y → x ≡ y
unfolding port_set
port_set-injective =
    Quot.ind (λ x. hlevel expression_set)
      λ x.
        Quot.ind (λ y. hlevel expression_set)
          λ y. λ same. Quot.sound ((parse_portset_same (x.0) (y.0) (x.1) (y.1) (x.2) (y.2)).0 same)

-- The expression that lists the ports.
singles : List ℕ → List Item
singles [] = []
singles (p ∷ ps) = one p ∷ singles ps

singles-Holds : (x : ℕ) (ps : List ℕ) → In x ps ↔ Any (Holds x) (singles ps)
unfolding singles
singles-Holds x [] = (λ h. h, λ h. h)
singles-Holds x (p ∷ ps) =
    (λ h. ground (arith, (singles-Holds x ps).0), λ h. ground (arith, (singles-Holds x ps).1))

singles-IsItem :
    (b : ℕ) (ps : List ℕ) → Above b ps → All (λ p. p ≤ max_u16) ps → All IsItem (singles ps)
unfolding singles
singles-IsItem b [] a h = tt
singles-IsItem b (p ∷ ps) (above, a) (bound, h) =
    ((omega (arith, above), omega arith, bound), singles-IsItem p ps a h)

singles-ne-nil : (ps : List ℕ) → ps ≢ [] → singles ps ≢ []
unfolding singles
singles-ne-nil [] h e = h refl
singles-ne-nil (p ∷ ps) h e = cc

expression_of : (ps : List ℕ) → IsListenSet ps → (x : Expression) × (port_set x ≡ ps)
unfolding port_set
expression_of ps (is_set, nonempty) = (
  Quot.mk (
    print_items (singles ps),
    ps,
    parse_portset-print_items (singles ps) ps (singles-ne-nil ps nonempty)
        (singles-IsItem 0 ps (is_set.0) (is_set.1)) is_set (λ x. singles-Holds x ps),
  ),
  refl,
)

-- Up to what they denote, the accepted expressions are the nonempty sets of ports from 1 to 65535:
-- each such set is that of exactly one expression, and an expression has no other.
pub port_set_unique :
    (ps : List ℕ)
    → IsProp ((x : Expression) × (port_set x ≡ ps))
      × (((x : Expression) × (port_set x ≡ ps)) ↔ IsListenSet ps)
port_set_unique ps = (
  λ u v.
      Σ_prop_path (λ x. list_set (port_set x) ps)
        (port_set-injective (u.0) (v.0) (u.1 ∙ sym (v.1))),
  (λ u. subst IsListenSet (u.1) (port_set-IsListenSet (u.0)), expression_of ps),
)
