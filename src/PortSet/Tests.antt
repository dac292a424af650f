-- ===== src/PortSet/Tests.antt =====
-- The repository's own examples of port expressions, and the theorems at them.
use range_porter.Prelude.{ℕ, ◌≡◌, refl, ◌≢◌, ◌⊎◌, ◌↔◌, true, List, [], ◌∷◌, arith, Any, In}
use range_porter.Result.{ok, err}
use range_porter.Text.{codes, Text, is_empty, trim, split, parse_u16, split_once}
use range_porter.PortSet.{parse_portset, inverted_range, port_zero, empty_segment, empty_expression}
use range_porter.PortSet.Covers.{Covers}
use range_porter.PortSet.Loop.{IsPortSet}
use range_porter.PortSet.Parse.{parse_portset-ok, parse_portset-err, FirstBad}
use range_porter.PortSet.Canonical.{Expression, port_set, IsListenSet, port_set_unique}
use range_porter.PortSet.RoundTrip.{Item, one, span, Holds, print_items, parse_portset-print_items}

abbrev mixed : Text
mixed = codes "80, 443, 10000-10002, 443"

abbrev mixed_set : List ℕ
mixed_set = 80 ∷ 443 ∷ 10000 ∷ 10001 ∷ 10002 ∷ []

mixed_ports : parse_portset mixed ≡ ok mixed_set
unfolding parse_portset is_empty trim split split_once parse_u16
mixed_ports = refl

inverted_error : parse_portset (codes "100-90") ≡ err (inverted_range (codes "100-90"))
unfolding parse_portset is_empty trim split split_once parse_u16
inverted_error = refl

zero_error : parse_portset (codes "0") ≡ err port_zero
unfolding parse_portset is_empty trim split split_once parse_u16
zero_error = refl

hole_error : parse_portset (codes "80,,443") ≡ err empty_segment
unfolding parse_portset is_empty trim split split_once parse_u16
hole_error = refl

parse_portset-ok_example :
    IsPortSet mixed_set
    × (mixed_set ≢ [])
    × ((x : ℕ) → In x mixed_set ↔ Any (Covers x) (split b',' mixed))
parse_portset-ok_example = parse_portset-ok mixed mixed_set mixed_ports

parse_portset-err_example :
    ((is_empty (trim (codes "80,,443")) ≡ true) × (empty_segment ≡ empty_expression))
    ⊎ FirstBad (split b',' (codes "80,,443")) empty_segment
parse_portset-err_example = parse_portset-err (codes "80,,443") empty_segment hole_error

abbrev items : List Item
items = one 443 ∷ span 80 81 ∷ one 80 ∷ []

items_same : (x : ℕ) → In x (80 ∷ 81 ∷ 443 ∷ []) ↔ Any (Holds x) items
items_same x = (λ i. ground arith, λ a. ground arith)

parse_portset-print_items_example : parse_portset (print_items items) ≡ ok (80 ∷ 81 ∷ 443 ∷ [])
parse_portset-print_items_example =
    parse_portset-print_items items (80 ∷ 81 ∷ 443 ∷ []) (λ e. cc) (omega arith) (omega arith)
      items_same

port_set_unique_example :
    IsProp ((x : Expression) × (port_set x ≡ 80 ∷ 443 ∷ []))
    × (((x : Expression) × (port_set x ≡ 80 ∷ 443 ∷ [])) ↔ IsListenSet (80 ∷ 443 ∷ []))
port_set_unique_example = port_set_unique (80 ∷ 443 ∷ [])
