-- ===== src/PortSet/Rounds.antt =====
-- One round of the loop of `parse_portset`, on every branch.
use range_porter.Prelude.{
  ℕ, zero, suc, ◌-◌, ◌≡◌, refl, ap, ◌⊎◌, inl, inr, List, none, some, Option-cases, Bool-cases,
  arith, ltb,
}
use range_porter.Result.{Result, ok, err}
use range_porter.Text.{Text, is_empty, trim, split_once, parse_u16}
use range_porter.PortSet.{
  PortSetError, empty_segment, inverted_range, invalid_port_value, port_zero, parse_port, insert,
  extend, add_nonempty, add_segment,
}
use range_porter.PortSet.Covers.{
  IsPort, Denotes, single, range, BadPort, not_number, zero_port, Rejects, blank, bad_single,
  bad_first, bad_last, inverted,
}

-- What one call of `parse_port` returns, on every branch.
parse_port-cases :
    (t : Text)
    → ((p : ℕ) × (parse_port t ≡ ok p) × IsPort t p)
      ⊎ ((e : PortSetError) × (parse_port t ≡ err e) × BadPort t e)
unfolding parse_port
parse_port-cases t = elim (Option-cases (parse_u16 (trim t))) [
  | inl e ↦ inr (invalid_port_value t, rw (e, parse_port), not_number e refl)
  | inr (zero, e) ↦ inr (port_zero, rw (e, parse_port), zero_port e refl)
  | inr (suc p, e) ↦ inl (suc p, rw (e, parse_port) (ground arith), (e, omega arith))
]

pub parse_port-of_IsPort : (t : Text) (p : ℕ) → IsPort t p → parse_port t ≡ ok p
unfolding parse_port
parse_port-of_IsPort t p h = rw (h.0, parse_port) (ground arith)

-- The ports after a round that accepted the range from `lo` to `hi`.
abbrev pub with_range : ℕ → ℕ → List ℕ → List ℕ
with_range lo hi ports = extend lo (suc hi - lo) ports

-- What one round of the loop does, on every branch.
abbrev pub Round : Text → List ℕ → Result PortSetError (List ℕ) → Type 0
Round segment ports r =
    ((lo : ℕ) × (hi : ℕ) × (r ≡ ok (with_range lo hi ports)) × Denotes (trim segment) lo hi)
    ⊎ ((e : PortSetError) × (r ≡ err e) × Rejects segment e)

extend_one : (p : ℕ) (ports : List ℕ) → insert p ports ≡ with_range p p ports
unfolding extend
extend_one p ports = let one : suc p - p ≡ 1 = omega arith in rw one refl

range-Round :
    (segment first last : Text) (ports : List ℕ)
    → split_once b'-' (trim segment) ≡ some (first, last)
    → Round segment ports (add_nonempty (trim segment) ports)
unfolding add_nonempty
range-Round segment first last ports e = elim (parse_port-cases first) [
  | inr (x, ex, bx) ↦ inr (x, rw (e, add_nonempty, ex), bad_first first last e bx)
  | inl (lo, el, pl) ↦ elim (parse_port-cases last) [
    | inr (x, ex, bx) ↦ inr (x, rw (e, add_nonempty, el, ex), bad_last first last lo e pl bx)
    | inl (hi, eh, ph) ↦ elim (Bool-cases (ltb hi lo)) [
      | inl lt ↦ inr (
        inverted_range (trim segment),
        rw (e, add_nonempty, el, eh, lt),
        inverted first last lo hi e pl ph (ground arith) refl,
      )
      | inr le ↦
          inl (lo, hi, rw (e, add_nonempty, el, eh, le), range first last e pl ph (ground arith))
    ]
  ]
]

single-Round :
    (segment : Text) (ports : List ℕ)
    → split_once b'-' (trim segment) ≡ none
    → Round segment ports (add_nonempty (trim segment) ports)
unfolding add_nonempty
single-Round segment ports e = elim (parse_port-cases (trim segment)) [
  | inr (x, ex, bx) ↦ inr (x, rw (e, add_nonempty, ex), bad_single e bx)
  | inl (p, ep, pp) ↦
      inl (p, p, rw (e, add_nonempty, ep) (ap ok (extend_one p ports)), single e pp refl)
]

pub add_segment-Round :
    (segment : Text) (ports : List ℕ) → Round segment ports (add_segment segment ports)
unfolding add_segment
add_segment-Round segment ports = elim (Bool-cases (is_empty (trim segment))) [
  | inl e ↦ inr (empty_segment, rw e, blank e refl)
  | inr e ↦ rw e (elim (Option-cases (split_once b'-' (trim segment))) [
    | inl none_found ↦ single-Round segment ports none_found
    | inr ((first, last), found) ↦ range-Round segment first last ports found
  ])
]
