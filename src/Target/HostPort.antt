-- ===== src/Target/HostPort.antt =====
-- `split_host_port`: what it accepts, and that it reads back what a user writes.
use range_porter.Prelude.{
  ℕ, ◌+◌, ◌≤◌, ◌≡◌, sym, ap, ◌∙◌, ◌≢◌, ◌⊎◌, ◌↔◌, inl, inr, false, [], ◌∷◌, ◌++◌, none, some, arith,
  take, drop, ◌==◌, if◌then◌else◌, Bool-cases, Option-cases,
}
use mathlib.Core.Path.{ap₂, subst}
use range_porter.Result.{Result, ok, err, ok_or, bind_ok, ok_or-some}
use range_porter.Text.{Text, is_empty, strip_prefix, find, rsplit_once, parse_u16}
use range_porter.Text.Cuts.{Lacks, rsplit_once-append}
use range_porter.Target.{
  TargetError, missing_bracket, no_port_after_bracket, no_colon, empty_host, not_a_port, zero_port,
  parse_port, split_bracketed, split_plain, split_host_port,
}
use range_porter.Text.Search.{
  find-append, take-length, drop-length, find_cut, rsplit_once_cut, strip_prefix-some,
  strip_prefix-cons, ne-nil-of_full, is_empty-of_ne-nil,
}

parse_port-ok :
    (part raw : Text) (p : ℕ) → parse_port part raw ≡ ok p → (parse_u16 part ≡ some p) × (1 ≤ p)
unfolding parse_port
parse_port-ok part raw p e = elim (Option-cases (parse_u16 part)) [
  | inl missing ↦ let bad : err (not_a_port part raw) ≡ ok p = rw missing at e in cc
  | inr (q, found) ↦
      let e' : (if q == 0 then err (zero_port raw) else ok q) ≡ ok p = rw found at e in
      (found ∙ ground arith, ground arith)
]

parse_port-of_some :
    (part raw : Text) (p : ℕ) → parse_u16 part ≡ some p → 1 ≤ p → parse_port part raw ≡ ok p
unfolding parse_port
parse_port-of_some part raw p e h = rw e (ground arith)

-- How a host and a port are written: with the host in brackets, or before the last colon.
abbrev pub Bracketed : Text → Text → Text → Type 0
Bracketed raw host part = (raw ≡ b'[' ∷ (host ++ (b']' ∷ b':' ∷ part))) × Lacks b']' host

abbrev pub Plain : Text → Text → Text → Type 0
Plain raw host part =
    (strip_prefix b'[' raw ≡ none) × (raw ≡ host ++ (b':' ∷ part)) × (host ≢ []) × Lacks b':' part

abbrev pub Written : Text → Text → ℕ → Type 0
Written raw host port =
    (part : Text) × (Bracketed raw host part ⊎ Plain raw host part)
    × (parse_u16 part ≡ some port)
    × (1 ≤ port)

split_bracketed-of_cut :
    (raw host part : Text) (port : ℕ)
    → Lacks b']' host
    → parse_u16 part ≡ some port
    → 1 ≤ port
    → split_bracketed raw (host ++ (b']' ∷ b':' ∷ part)) ≡ ok (host, port)
unfolding split_bracketed
split_bracketed-of_cut raw host part port lacks e h =
    rw (find-append b']' host (b':' ∷ part) lacks) (
      rw (drop-length host b']' (b':' ∷ part), take-length host (b']' ∷ b':' ∷ part))
        (rw (strip_prefix-cons b':' part) (rw (parse_port-of_some part raw port e h))))

split_plain-of_cut :
    (host part : Text) (port : ℕ)
    → host ≢ []
    → Lacks b':' part
    → parse_u16 part ≡ some port
    → 1 ≤ port
    → split_plain (host ++ (b':' ∷ part)) ≡ ok (host, port)
unfolding split_plain
split_plain-of_cut host part port ne lacks e h = rw (rsplit_once-append b':' host part lacks) (
    rw (is_empty-of_ne-nil host ne) (rw (parse_port-of_some part (host ++ (b':' ∷ part)) port e h)))

ok_pair_inj :
    {a b : Text} {p q : ℕ}
    → ◌≡◌ {A = Result TargetError (Text × ℕ)} (ok (a, p)) (ok (b, q))
    → (a ≡ b) × (p ≡ q)
ok_pair_inj e = (cc, cc)

split_bracketed-ok :
    (raw rest host : Text) (port : ℕ)
    → raw ≡ b'[' ∷ rest
    → split_bracketed raw rest ≡ ok (host, port)
    → Written raw host port
unfolding split_bracketed
split_bracketed-ok raw rest host port shape e =
    let (i, at_i, e₁) = bind_ok (ok_or (find b']' rest) (missing_bracket raw)) _ e in
    let (part, at_colon, e₂) =
      bind_ok (ok_or (strip_prefix b':' (drop (i + 1) rest)) (no_port_after_bracket raw)) _ e₁ in
    let (p, parsed, e₃) = bind_ok (parse_port part raw) _ e₂ in
    let (same_host, same_port) = ok_pair_inj e₃ in
    let (a, b, cut, lacks, long) = find_cut b']' rest i (ok_or-some (find b']' rest) _ at_i) in
    let after : b ≡ b':' ∷ part = strip_prefix-some b':' b part (
      subst (λ t. strip_prefix b':' t ≡ some part)
        (ap₂ (λ k t. drop (k + 1) t) (sym long) cut ∙ drop-length a b']' b)
        (ok_or-some (strip_prefix b':' (drop (i + 1) rest)) _ at_colon)) in
    let before : a ≡ host = sym (take-length a (b']' ∷ b)) ∙ ap₂ take long (sym cut) ∙ same_host in
    let (number, positive) = parse_port-ok part raw p parsed in
    (
      part,
      inl (
        shape ∙ ap (λ t. b'[' ∷ t) (cut ∙ ap₂ (λ x y. x ++ (b']' ∷ y)) before after),
        subst (Lacks b']') before lacks,
      ),
      number ∙ ap some same_port,
      omega arith,
    )

split_plain-ok :
    (raw host : Text) (port : ℕ)
    → strip_prefix b'[' raw ≡ none
    → split_plain raw ≡ ok (host, port)
    → Written raw host port
unfolding split_plain
split_plain-ok raw host port open_ e =
    let (cut, at_colon, e₁) = bind_ok (ok_or (rsplit_once b':' raw) (no_colon raw)) _ e in
    elim (Bool-cases (is_empty (cut.0))) [
      | inl empty ↦
          let bad : ◌≡◌ {A = Result TargetError (Text × ℕ)} (err (empty_host raw))
              (ok (host, port)) =
            rw empty at e₁ in
          cc
      | inr full ↦
          let (p, parsed, e₂) =
            bind_ok (parse_port (cut.1) raw) (λ x. ok (cut.0, x)) (rw full at e₁) in
          let (same_host, same_port) = ok_pair_inj e₂ in
          let (shape, lacks) =
            rsplit_once_cut b':' raw (cut.0) (cut.1)
              (ok_or-some (rsplit_once b':' raw) _ at_colon) in
          let (number, positive) = parse_port-ok (cut.1) raw p parsed in
          (
            cut.1,
            inr (
              open_,
              shape ∙ ap (λ x. x ++ (b':' ∷ cut.1)) same_host,
              ne-nil-of_full host (subst (λ x. is_empty x ≡ false) same_host full),
              lacks,
            ),
            number ∙ ap some same_port,
            omega arith,
          )
    ]

-- A target is split into a host and a port exactly when it is written as such: the host in
-- brackets with no bracket inside, or a nonempty host before the last colon of a text that does
-- not begin with a bracket; and behind the colon a decimal number from 1 to 65535.
pub split_host_port_iff :
    (raw host : Text) (port : ℕ) → (split_host_port raw ≡ ok (host, port)) ↔ Written raw host port
unfolding split_host_port
split_host_port_iff raw host port = (there, back)
  where
    there : split_host_port raw ≡ ok (host, port) → Written raw host port
    there e = elim (Option-cases (strip_prefix b'[' raw)) [
      | inl plain ↦ split_plain-ok raw host port plain (rw (plain, split_host_port) at e)
      | inr (rest, bracket) ↦
          split_bracketed-ok raw rest host port (strip_prefix-some b'[' raw rest bracket)
            (rw (bracket, split_host_port) at e)
    ]

    back : Written raw host port → split_host_port raw ≡ ok (host, port)
    back (part, inl (shape, lacks), number, positive) =
        let opened : strip_prefix b'[' raw ≡ some (host ++ (b']' ∷ b':' ∷ part)) =
          rw shape (strip_prefix-cons b'[' (host ++ (b']' ∷ b':' ∷ part))) in
        rw (opened, split_host_port)
          (split_bracketed-of_cut raw host part port lacks number positive)
    back (part, inr (plain, shape, ne, lacks), number, positive) =
        rw (plain, split_host_port)
          (subst (λ t. split_plain t ≡ ok (host, port)) (sym shape)
            (split_plain-of_cut host part port ne lacks number positive))
