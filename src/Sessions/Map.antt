-- ===== src/Sessions/Map.antt =====
-- The map of sessions: what a look-up, a removal and a touch do to its entries.
use range_porter.Prelude.{
  ℕ, suc, ◌≡◌, refl, sym, ap, ◌≢◌, inl, inr, false, [], ◌∷◌, none, some, arith, All, length,
  Bool-cases, some_inj,
}
use mathlib.Core.Path.{subst}
use range_porter.Net.{SocketAddr, same_addr, same_addr-eq}
use range_porter.Sessions.{UdpSession, Entries, get, remove, touch, touch_if, touch_entries}

abbrev pub Entry : Type 0 → Type 0
Entry Socket = SocketAddr × UdpSession Socket

module _ {Socket : Type 0} where
  -- The entry has another key, and its session another id.
  abbrev pub Apart : SocketAddr → ℕ → Entry Socket → Type 0
  Apart a id e = (same_addr a (e.0) ≡ false) × (e.1.id ≢ id)

  -- Each key and each id occurs once.
  abbrev pub Distinct : Entries Socket → Type 0
  Distinct [] = Unit
  Distinct ((a, s) ∷ m) = All (Apart a s.id) m × Distinct m

  pub get-none :
      (a : SocketAddr) (m : Entries Socket)
      → get a m ≡ none
      → All (λ e. same_addr a (e.0) ≡ false) m
  unfolding get
  get-none a [] h = tt
  get-none a ((b, s) ∷ m) h = elim (Bool-cases (same_addr a b)) [
    | inl same ↦ let bad : some s ≡ none = rw (same, get) at h in absurd (cc)
    | inr other ↦ (other, get-none a m (rw (other, get) at h))
  ]

  pub get-All :
      (P : Entry Socket → Type 0) (a : SocketAddr) (m : Entries Socket) (s : UdpSession Socket)
      → get a m ≡ some s
      → All P m
      → P (a, s)
  unfolding get
  get-All P a [] s h p = absurd (cc)
  get-All P a ((b, r) ∷ m) s h p = elim (Bool-cases (same_addr a b)) [
    | inl same ↦
        subst (λ x. P (x, s)) (sym (same_addr-eq a b same))
          (subst (λ x. P (b, x)) (some_inj (rw (same, get) at h)) p.0)
    | inr other ↦ get-All P a m s (rw (other, get) at h) p.1
  ]

  pub All-remove :
      (P : Entry Socket → Type 0) (a : SocketAddr) (m : Entries Socket)
      → All P m
      → All P (remove a m)
  unfolding remove
  All-remove P a [] p = tt
  All-remove P a ((b, s) ∷ m) p = elim (Bool-cases (same_addr a b)) [
    | inl same ↦ rw (same, remove) p.1
    | inr other ↦ rw (other, remove) (p.0, All-remove P a m p.1)
  ]

  pub Distinct-remove : (a : SocketAddr) (m : Entries Socket) → Distinct m → Distinct (remove a m)
  unfolding remove
  Distinct-remove a [] d = tt
  Distinct-remove a ((b, s) ∷ m) d = elim (Bool-cases (same_addr a b)) [
    | inl same ↦ rw (same, remove) d.1
    | inr other ↦ rw (other, remove) (All-remove (Apart b s.id) a m d.0, Distinct-remove a m d.1)
  ]

  pub length-remove :
      (a : SocketAddr) (m : Entries Socket) (s : UdpSession Socket)
      → get a m ≡ some s
      → suc (length (remove a m)) ≡ length m
  unfolding get remove
  length-remove a [] s h = absurd (cc)
  length-remove a ((b, r) ∷ m) s h = elim (Bool-cases (same_addr a b)) [
    | inl same ↦ rw (same, remove) refl
    | inr other ↦ rw (other, remove) (ap suc (length-remove a m s (rw (other, get) at h)))
  ]

  pub touch_if-id : (id now : ℕ) (s : UdpSession Socket) → (touch_if id now s).id ≡ s.id
  unfolding touch_if touch
  touch_if-id id now s = ground arith

  pub All-touch_entries :
      (P : Entry Socket → Type 0) (id now : ℕ) (m : Entries Socket)
      → ((a : SocketAddr) (s : UdpSession Socket) → P (a, s) → P (a, touch_if id now s))
      → All P m
      → All P (touch_entries id now m)
  unfolding touch_entries
  All-touch_entries P id now [] f p = tt
  All-touch_entries P id now ((a, s) ∷ m) f p = (f a s p.0, All-touch_entries P id now m f p.1)

  pub Distinct-touch_entries :
      (id now : ℕ) (m : Entries Socket) → Distinct m → Distinct (touch_entries id now m)
  unfolding touch_entries
  Distinct-touch_entries id now [] d = tt
  Distinct-touch_entries id now ((a, s) ∷ m) d = (
    subst (λ i. All (Apart a i) (touch_entries id now m)) (sym (touch_if-id id now s))
        (All-touch_entries (Apart a s.id) id now m
          (λ b r p. (p.0, subst (λ i. i ≢ s.id) (sym (touch_if-id id now r)) p.1)) d.0),
    Distinct-touch_entries id now m d.1,
  )

  pub length-touch_entries :
      (id now : ℕ) (m : Entries Socket) → length (touch_entries id now m) ≡ length m
  unfolding touch_entries
  length-touch_entries id now [] = refl
  length-touch_entries id now ((a, s) ∷ m) = ap suc (length-touch_entries id now m)

  pub get-of_Apart :
      (a : SocketAddr) (id : ℕ) (m : Entries Socket) → All (Apart a id) m → get a m ≡ none
  unfolding get
  get-of_Apart a id [] p = refl
  get-of_Apart a id ((b, s) ∷ m) p = let other = p.0.0 in rw (other, get) (get-of_Apart a id m p.1)

  -- The entry with another key is not touched by a removal; the removed one is gone.
  pub get-remove_self :
      (a : SocketAddr) (m : Entries Socket) → Distinct m → get a (remove a m) ≡ none
  unfolding get remove
  get-remove_self a [] d = refl
  get-remove_self a ((b, s) ∷ m) d = elim (Bool-cases (same_addr a b)) [
    | inl same ↦
        rw (same, remove)
          (subst (λ x. get x m ≡ none) (sym (same_addr-eq a b same)) (get-of_Apart b s.id m d.0))
    | inr other ↦ rw (other, remove, other, get) (get-remove_self a m d.1)
  ]

  pub get-remove_other :
      (a b : SocketAddr) (m : Entries Socket) → same_addr a b ≡ false → get a (remove b m) ≡ get a m
  unfolding get remove
  get-remove_other a b [] h = refl
  get-remove_other a b ((c, s) ∷ m) h = elim (Bool-cases (same_addr b c)) [
    | inl same ↦
        let differs : same_addr a c ≡ false =
          subst (λ x. same_addr a x ≡ false) (same_addr-eq b c same) h in
        rw (same, remove, differs, get) refl
    | inr other ↦ elim (Bool-cases (same_addr a c)) [
      | inl here ↦ rw (other, remove, here, get) refl
      | inr there ↦ rw (other, remove, there, get) (get-remove_other a b m h)
    ]
  ]
