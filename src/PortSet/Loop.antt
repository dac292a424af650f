-- ===== src/PortSet/Loop.antt =====
-- The loop of `parse_portset` over the segments, when it succeeds.
use range_porter.Prelude.{
  ℕ, suc, ◌-◌, ◌≤◌, ◌≡◌, sym, ◌⊎◌, inl, inr, ◌↔◌, List, [], ◌∷◌, arith, All, Any, In,
}
use mathlib.Core.Path.{subst}
use range_porter.Result.{Result, ok, err}
use range_porter.Text.{Text, max_u16, trim}
use range_porter.PortSet.{PortSetError, add_segments}
use range_porter.PortSet.Covers.{Denotes, Covers, Denotes-bounds, Denotes-unique}
use range_porter.PortSet.Rounds.{with_range, add_segment-Round}
use range_porter.PortSet.Sets.{
  Above, extend-Above, extend-bound, In-extend_old, In-extend_new, In-extend_sound,
}

pub ok-injective :
    {ps qs : List ℕ} → ◌≡◌ {A = Result PortSetError (List ℕ)} (ok ps) (ok qs) → ps ≡ qs
ok-injective e = cc

In-with_range :
    (x lo hi : ℕ) (ports : List ℕ)
    → lo ≤ hi
    → In x (with_range lo hi ports) ↔ (((lo ≤ x) × (x ≤ hi)) ⊎ In x ports)
In-with_range x lo hi ports h = (there, back)
  where
    there : In x (with_range lo hi ports) → ((lo ≤ x) × (x ≤ hi)) ⊎ In x ports
    there i = elim (In-extend_sound x lo (suc hi - lo) ports i) [
      | inl (a, b) ↦ inl (a, omega arith)
      | inr old ↦ inr old
    ]

    back : ((lo ≤ x) × (x ≤ hi)) ⊎ In x ports → In x (with_range lo hi ports)
    back (inl (a, b)) = In-extend_new x lo (suc hi - lo) ports a (omega arith)
    back (inr old) = In-extend_old x lo (suc hi - lo) ports old

-- Ascending with no repetition, and every element a valid port.
abbrev pub IsPortSet : List ℕ → Type 0
IsPortSet ports = Above 0 ports × All (λ p. p ≤ max_u16) ports

-- The segment denotes a range of ports.
abbrev pub Readable : Text → Type 0
Readable segment = (lo : ℕ) × (hi : ℕ) × Denotes (trim segment) lo hi

with_range-IsPortSet :
    (t : Text) (lo hi : ℕ) (ports : List ℕ)
    → Denotes t lo hi
    → IsPortSet ports
    → IsPortSet (with_range lo hi ports)
with_range-IsPortSet t lo hi ports d (a, b) =
    let (low, order, high) = Denotes-bounds t lo hi d in
    (
      extend-Above 0 lo (suc hi - lo) ports low a,
      extend-bound max_u16 lo (suc hi - lo) ports (omega arith) b,
    )

-- What the loop over the segments does when it succeeds.
pub record Collected (segments : List Text) (ports ps : List ℕ) : Type 0 where
  pub is_set : IsPortSet ports → IsPortSet ps
  pub readable : All Readable segments
  pub sound : (x : ℕ) → In x ps → Any (Covers x) segments ⊎ In x ports
  pub complete : (x : ℕ) → Any (Covers x) segments ⊎ In x ports → In x ps

Collected-step :
    (segment : Text) (segments : List Text) (ports ps : List ℕ) (lo hi : ℕ)
    → Denotes (trim segment) lo hi
    → Collected segments (with_range lo hi ports) ps
    → Collected (segment ∷ segments) ports ps
Collected-step segment segments ports ps lo hi d c = record {
  is_set = λ v. c.is_set (with_range-IsPortSet (trim segment) lo hi ports d v);
  readable = ((lo, hi, d), c.readable);
  sound = there;
  complete = back;
}
  where
    order : lo ≤ hi
    order = (Denotes-bounds (trim segment) lo hi d).1

    there : (x : ℕ) → In x ps → Any (Covers x) (segment ∷ segments) ⊎ In x ports
    there x i = elim (c.sound x i) [
      | inl later ↦ inl (inr later)
      | inr now ↦ elim ((In-with_range x lo hi ports order).0 now) [
        | inl (a, b) ↦ inl (inl (lo, hi, d, a, b))
        | inr old ↦ inr old
      ]
    ]

    back : (x : ℕ) → Any (Covers x) (segment ∷ segments) ⊎ In x ports → In x ps
    back x (inl (inl (lo', hi', d', a, b))) =
        let (same_lo, same_hi) = Denotes-unique (trim segment) lo hi lo' hi' d d' in
        c.complete x (inr ((In-with_range x lo hi ports order).1 (inl (omega arith, omega arith))))
    back x (inl (inr later)) = c.complete x (inl later)
    back x (inr old) = c.complete x (inr ((In-with_range x lo hi ports order).1 (inr old)))

pub add_segments-Collected :
    (segments : List Text) (ports ps : List ℕ)
    → add_segments segments ports ≡ ok ps
    → Collected segments ports ps
unfolding add_segments
add_segments-Collected [] ports ps e = record {
  is_set = λ v. subst IsPortSet (ok-injective e) v;
  readable = tt;
  sound = λ x i. inr (subst (In x) (sym (ok-injective e)) i);
  complete =
      λ x. elim [ inl none_left ↦ absurd none_left | inr i ↦ subst (In x) (ok-injective e) i ];
}
add_segments-Collected (segment ∷ segments) ports ps e = elim (add_segment-Round segment ports) [
  | inl (lo, hi, r, d) ↦
      Collected-step segment segments ports ps lo hi d
        (add_segments-Collected segments (with_range lo hi ports) ps (rw r at e))
  | inr (x, r, _) ↦ let bad : err x ≡ ok ps = rw r at e in cc
]
