-- ===== src/Sessions/Lookup.antt =====
-- `get_or_create`: the session that a client's datagram is forwarded on.
use range_porter.Prelude.{
  ℕ, ◌≡◌, refl, sym, ap, ◌∙◌, inl, inr, true, false, [], ◌∷◌, Option, none, some, arith, ◌==◌,
  Bool-cases, Option-cases, some_inj,
}
use range_porter.Result.{Result, ok, err}
use range_porter.Net.{SocketAddr, same_addr, same_addr_self}
use range_porter.Sessions.{
  UdpSession, UdpSessionTable, Entries, new_session, get, touch, touch_if, touch_entries,
  touch_session, enter, get_or_create,
}

module _ {Socket : Type 0} where
  get-touch_entries :
      (a : SocketAddr) (id now : ℕ) (m : Entries Socket) (s : UdpSession Socket)
      → get a m ≡ some s
      → get a (touch_entries id now m) ≡ some (touch_if id now s)
  unfolding get touch_entries
  get-touch_entries a id now [] s h = absurd (cc)
  get-touch_entries a id now ((b, r) ∷ m) s h = elim (Bool-cases (same_addr a b)) [
    | inl same ↦ rw same (ap (λ x. some (touch_if id now x)) (some_inj (rw (same, get) at h)))
    | inr other ↦ rw other (get-touch_entries a id now m s (rw (other, get) at h))
  ]

  touch_if_self : (now : ℕ) (s : UdpSession Socket) → touch_if s.id now s ≡ touch now s
  unfolding touch_if
  touch_if_self now s = let same : (s.id == s.id) ≡ true = ground arith in rw same refl

  -- The session that was used last by the client: the one in the map, touched, or a new one.
  abbrev pub Served : SocketAddr → ℕ → Option (UdpSession Socket) → UdpSession Socket → Type 0
  Served source now (some old) s = s ≡ touch now old
  Served source now none s = (s.source ≡ source) × (s.closed ≡ false) × (s.shutdown ≡ false)

  ok-inj :
      {IoError : Type 0} {a b : UdpSession Socket}
      → ◌≡◌ {A = Result IoError (UdpSession Socket)} (ok a) (ok b)
      → a ≡ b
  ok-inj e = cc

  created-ok :
      (IoError : Type 0) (source : SocketAddr) (opened : Result IoError Socket) (now : ℕ)
      (t : UdpSessionTable Socket) (s : UdpSession Socket)
      → get source t.sessions ≡ none
      → (get_or_create source opened now t).0 ≡ ok s
      → (get source (get_or_create source opened now t).1.sessions ≡ some s)
        × (s.last_active_epoch ≡ now)
        × Served source now (get source t.sessions) s
  unfolding get_or_create enter new_session get
  created-ok IoError source (err e) now t s missing h =
      absurd (let bad : err e ≡ ok s = rw (missing, get_or_create) at h in cc)
  created-ok IoError source (ok upstream) now t s missing h =
      let entered = rw (missing, get_or_create) at h in
      let same : new_session t.next_session_id source upstream now ≡ s =
        ok-inj (rw (missing, enter) at entered) in
      let self = same_addr_self source in
      rw (missing, get_or_create)
        (
          rw (missing, enter) (rw self (ap some same)),
          sym (ap (λ (x : UdpSession Socket). x.last_active_epoch) same),
          (
            sym (ap (λ (x : UdpSession Socket). x.source) same),
            sym (ap (λ (x : UdpSession Socket). x.closed) same),
            sym (ap (λ (x : UdpSession Socket). x.shutdown) same),
          ),
        )

  -- A call of `get_or_create` that returns a session returns the one that the map now has for the
  -- client. Its last activity is the time of the call. It is the session that the map had before,
  -- where there was one, and else an open one for this client.
  pub get_or_create-ok :
      (IoError : Type 0) (source : SocketAddr) (opened : Result IoError Socket) (now : ℕ)
      (t : UdpSessionTable Socket) (s : UdpSession Socket)
      → (get_or_create source opened now t).0 ≡ ok s
      → (get source (get_or_create source opened now t).1.sessions ≡ some s)
        × (s.last_active_epoch ≡ now)
        × Served source now (get source t.sessions) s
  unfolding get_or_create touch_session
  get_or_create-ok IoError source opened now t s h = elim (Option-cases (get source t.sessions)) [
    | inr (old, found) ↦
        let same : touch now old ≡ s = ok-inj (rw (found, get_or_create) at h) in
        rw (found, get_or_create)
          (
            get-touch_entries source old.id now t.sessions old found
                ∙ ap some (touch_if_self now old ∙ same),
            sym (ap (λ (x : UdpSession Socket). x.last_active_epoch) same) ∙ unfold touch in refl,
            sym same,
          )
    | inl missing ↦ created-ok IoError source opened now t s missing h
  ]
