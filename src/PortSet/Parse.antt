-- ===== src/PortSet/Parse.antt =====
-- `parse_portset` as a whole: the ports it returns, the expressions it accepts, its errors.
use range_porter.Prelude.{
  ℕ, ◌≡◌, refl, ap, ◌≢◌, ◌⊎◌, inl, inr, ◌↔◌, true, false, List, [], ◌∷◌, ◌++◌, Bool-cases, arith,
  All, Any, In,
}
use mathlib.Core.Path.{subst}
use range_porter.Result.{Result, ok, err}
use range_porter.Text.{Text, is_whitespace, is_empty, trim, split}
use range_porter.Text.Cuts.{
  eq-nil_of_is_empty, trim-eq-nil, IsBlank-Lacks, split-ne-nil, split-of_Lacks,
}
use range_porter.PortSet.{PortSetError, empty_expression, add_segments, parse_portset}
use range_porter.PortSet.Covers.{
  Denotes, Covers, Rejects, Denotes-bounds, not-Denotes-nil, not-Rejects,
}
use range_porter.PortSet.Rounds.{with_range, add_segment-Round}
use range_porter.PortSet.Loop.{IsPortSet, Readable, Collected, add_segments-Collected}

Any-of_Readable :
    (segments : List Text)
    → segments ≢ []
    → All Readable segments
    → (x : ℕ) × Any (Covers x) segments
Any-of_Readable [] h a = absurd (h refl)
Any-of_Readable (s ∷ segments) h ((lo, hi, d), a) =
    (lo, inl (lo, hi, d, omega arith, (Denotes-bounds (trim s) lo hi d).1))

In-ne-nil : (x : ℕ) (ps : List ℕ) → In x ps → ps ≢ []
In-ne-nil x [] i = absurd i
In-ne-nil x (p ∷ ps) i = λ e. cc

parse_portset-add_segments :
    (input : Text) (ps : List ℕ)
    → parse_portset input ≡ ok ps
    → add_segments (split b',' input) [] ≡ ok ps
unfolding parse_portset
parse_portset-add_segments input ps e = elim (Bool-cases (is_empty (trim input))) [
  | inl blank ↦ let bad : err empty_expression ≡ ok ps = rw blank at e in cc
  | inr full ↦ rw full at e
]

-- The ports of an accepted expression are strictly ascending numbers from 1 to 65535, at least one,
-- and are exactly the ports that some comma-separated segment covers.
pub parse_portset-ok :
    (input : Text) (ps : List ℕ)
    → parse_portset input ≡ ok ps
    → IsPortSet ps × (ps ≢ []) × ((x : ℕ) → In x ps ↔ Any (Covers x) (split b',' input))
parse_portset-ok input ps e =
    (c.is_set (tt, tt), nonempty, λ x. (there x, λ a. c.complete x (inl a)))
  where
    c : Collected (split b',' input) [] ps
    c = add_segments-Collected (split b',' input) [] ps (parse_portset-add_segments input ps e)

    there : (x : ℕ) → In x ps → Any (Covers x) (split b',' input)
    there x i = elim (c.sound x i) [ inl a ↦ a | inr none_left ↦ absurd none_left ]

    nonempty : ps ≢ []
    nonempty =
        let (x, a) = Any-of_Readable (split b',' input) (split-ne-nil b',' input) c.readable in
        In-ne-nil x ps (c.complete x (inl a))

add_segments_total :
    (segments : List Text) (ports : List ℕ)
    → All Readable segments
    → (ps : List ℕ) × (add_segments segments ports ≡ ok ps)
unfolding add_segments
add_segments_total [] ports a = (ports, refl)
add_segments_total (s ∷ segments) ports ((lo, hi, d), a) = elim (add_segment-Round s ports) [
  | inl (lo', hi', r, d') ↦ rw r (add_segments_total segments (with_range lo' hi' ports) a)
  | inr (e, r, x) ↦ absurd (not-Rejects s lo hi e d x)
]

comma-not-white : is_whitespace b',' ≡ false
unfolding is_whitespace
comma-not-white = refl

not-blank-of_Readable :
    (input : Text) → All Readable (split b',' input) → is_empty (trim input) ≡ false
not-blank-of_Readable input a = elim (Bool-cases (is_empty (trim input))) [
  | inr full ↦ full
  | inl blank ↦ absurd (refute blank)
]
  where
    refute : ¬ (is_empty (trim input) ≡ true)
    refute blank =
        let empty = eq-nil_of_is_empty (trim input) blank in
        let whole =
          split-of_Lacks b',' input
            (IsBlank-Lacks b',' input comma-not-white (trim-eq-nil input empty)) in
        let (lo, hi, d) = (subst (All Readable) whole a).0 in
        not-Denotes-nil lo hi (subst (λ t. Denotes t lo hi) empty d)

-- An expression is accepted exactly when each of its segments denotes a range of ports.
pub parse_portset_accepts :
    (input : Text)
    → ((ps : List ℕ) × (parse_portset input ≡ ok ps)) ↔ All Readable (split b',' input)
unfolding parse_portset
parse_portset_accepts input = (there, back)
  where
    there : (ps : List ℕ) × (parse_portset input ≡ ok ps) → All Readable (split b',' input)
    there (ps, e) =
        (add_segments-Collected (split b',' input) [] ps
          (parse_portset-add_segments input ps e)).readable

    back : All Readable (split b',' input) → (ps : List ℕ) × (parse_portset input ≡ ok ps)
    back a =
        rw (not-blank-of_Readable input a, parse_portset)
          (add_segments_total (split b',' input) [] a)

-- The segment at which the loop stopped, and what was read before it.
abbrev pub FirstBad : List Text → PortSetError → Type 0
FirstBad segments e =
    (before : List Text) × (bad : Text) × (after : List Text) × (segments ≡ before ++ (bad ∷ after))
    × All Readable before
    × Rejects bad e

add_segments-FirstBad :
    (segments : List Text) (ports : List ℕ) (e : PortSetError)
    → add_segments segments ports ≡ err e
    → FirstBad segments e
unfolding add_segments
add_segments-FirstBad [] ports e h = absurd (cc)
add_segments-FirstBad (s ∷ segments) ports e h = elim (add_segment-Round s ports) [
  | inl (lo, hi, r, d) ↦
      let (before, bad, after, same, good, x) =
        add_segments-FirstBad segments (with_range lo hi ports) e (rw r at h) in
      (s ∷ before, bad, after, ap (λ l. s ∷ l) same, ((lo, hi, d), good), x)
  | inr (e', r, x) ↦
      let same : ◌≡◌ {A = Result PortSetError (List ℕ)} (err e') (err e) = rw r at h in
      ([], s, segments, refl, tt, subst (Rejects s) (cc) x)
]

-- A refused expression is blank, or its error is the one of its first bad segment; the segments
-- before that one are readable.
pub parse_portset-err :
    (input : Text) (e : PortSetError)
    → parse_portset input ≡ err e
    → ((is_empty (trim input) ≡ true) × (e ≡ empty_expression)) ⊎ FirstBad (split b',' input) e
unfolding parse_portset
parse_portset-err input e h = elim (Bool-cases (is_empty (trim input))) [
  | inl blank ↦
      let same : ◌≡◌ {A = Result PortSetError (List ℕ)} (err empty_expression) (err e) =
        rw blank at h in
      inl (blank, cc)
  | inr full ↦ inr (add_segments-FirstBad (split b',' input) [] e (rw full at h))
]
