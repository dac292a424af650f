-- ===== src/Sessions/Ticks.antt =====
-- A tick of `cleanup_loop` taken apart: the look at the map, and the removals one by one, with calls
-- of other tasks before each.
use range_porter.Prelude.{
  ℕ, suc, ◌+◌, ◌<◌, ◌≤◌, ◌≡◌, ◌≢◌, ◌⊎◌, refl, sym, ap, ◌∙◌, inl, inr, false, List, [], ◌∷◌, ◌++◌,
  some, arith, All, All-imp, All-imp₂, In, length, length-append, ◌==◌, Bool-cases, Option-cases,
  some_inj,
}
use mathlib.Core.Path.{subst}
use range_porter.Word.{u64_mod}
use range_porter.Net.{SocketAddr, same_addr, same_addr_self, same_addr-eq}
use range_porter.Stats.Port.{PortStats}
use range_porter.Sessions.{
  UdpSession, UdpSessionTable, Entries, new_session, new_table, touch, touch_if, get, remove, close,
  remove_session, remove_all, listed, is_stale, stale, timeout_seconds, clean_up,
}
use range_porter.Sessions.Map.{Entry, Apart, Distinct, get-none, get-remove_self, touch_if-id}
use range_porter.Sessions.Accounting.{Sound, remove_session-Sound}
use range_porter.Sessions.Keeping.{remove_session-All}
use range_porter.Sessions.History.{Call, removes, call, run, run-append, run-Sound}
use range_porter.Sessions.Entries.{times, run-All}

-- What a tick finds idle.
unfoldable pub tick_list : {Socket : Type 0} → ℕ → UdpSessionTable Socket → List (SocketAddr × ℕ)
unfolding listed stale
tick_list now t = listed (stale (timeout_seconds t) now t.sessions)

-- The calls of a tick that removes these sessions: those of other tasks before the `i`-th removal
-- are `between i`.
abbrev pub tick_calls :
    {IoError Socket : Type 0}
    → (ℕ → List (Call IoError Socket))
    → ℕ
    → List (SocketAddr × ℕ)
    → List (Call IoError Socket)
tick_calls between i [] = []
tick_calls between i ((a, id) ∷ l) = between i ++ (removes a id ∷ tick_calls between (suc i) l)

-- Where no other task is about, it is the whole tick.
pub tick_calls-clean_up :
    {Socket : Type 0} (IoError : Type 0) (now : ℕ) (t : UdpSessionTable Socket)
    → run t (tick_calls {IoError = IoError} (λ _. []) 0 (tick_list now t)) ≡ clean_up now t
unfolding tick_list clean_up run call remove_all
tick_calls-clean_up {Socket} IoError now t =
    removals 0 (listed (stale (timeout_seconds t) now t.sessions)) t
  where
    removals :
        (i : ℕ) (l : List (SocketAddr × ℕ)) (u : UdpSessionTable Socket)
        → run u (tick_calls {IoError = IoError} (λ _. []) i l) ≡ remove_all l u
    removals i [] u = refl
    removals i ((a, id) ∷ l) u = removals (suc i) l (remove_session a id u)

module _ {Socket : Type 0} (timeout since : ℕ) (positive : 1 ≤ timeout) where
  -- The session was less than the timeout idle at the tick.
  abbrev IsUsed : Entry Socket → Type 0
  IsUsed e = since < e.1.last_active_epoch + timeout

  -- Or it is still to be removed.
  abbrev Pending : List (SocketAddr × ℕ) → Entry Socket → Type 0
  Pending l e = IsUsed e ⊎ In (e.0, e.1.id) l

  touched-Pending :
      (l : List (SocketAddr × ℕ)) (a : SocketAddr) (s : UdpSession Socket) (id now : ℕ)
      → since ≤ now
      → Pending l (a, s)
      → Pending l (a, touch_if id now s)
  touched-Pending l a s id now h (inl used) = inl (unfold touch_if touch in ground arith)
  touched-Pending l a s id now h (inr listed_) =
      inr (subst (λ i. In (a, i) l) (sym (touch_if-id id now s)) listed_)

  created-Pending :
      (l : List (SocketAddr × ℕ)) (id : ℕ) (a : SocketAddr) (upstream : Socket) (now : ℕ)
      → since ≤ now
      → Pending l (a, new_session id a upstream now)
  created-Pending l id a upstream now h = inl (unfold new_session in omega arith)

  Pending-listed : (m : Entries Socket) → All (Pending (listed (stale timeout since m))) m
  unfolding listed stale
  Pending-listed [] = tt
  Pending-listed ((a, s) ∷ m) =
      let l = listed (stale timeout since m) in
      elim (Bool-cases (is_stale timeout since s)) [
        | inl old ↦
            let first : listed (stale timeout since ((a, s) ∷ m)) ≡ (a, s.id) ∷ l = rw old refl in
            subst (λ k. All (Pending k) ((a, s) ∷ m)) (sym first)
              (
                inr (inl refl),
                All-imp (Pending l) (Pending ((a, s.id) ∷ l)) m
                    (λ e p. elim p [ inl used ↦ inl used | inr later ↦ inr (inr later) ])
                    (Pending-listed m),
              )
        | inr young ↦
            let same : listed (stale timeout since ((a, s) ∷ m)) ≡ l = rw young refl in
            subst (λ k. All (Pending k) ((a, s) ∷ m)) (sym same)
              (inl (ground (arith, young)), Pending-listed m)
      ]

module _ {Socket : Type 0} (a : SocketAddr) (id : ℕ) where
  -- The entry is not the one at the address with the id.
  abbrev IsOther : Entry Socket → Type 0
  IsOther e = e.0 ≡ a → e.1.id ≢ id

  IsOther-of_key : (e : Entry Socket) → same_addr a (e.0) ≡ false → IsOther e
  IsOther-of_key e differs same =
      let self = same_addr_self a in
      let bad : same_addr a a ≡ false = subst (λ x. same_addr a x ≡ false) same differs in
      absurd (cc)

  all-IsOther :
      (m : Entries Socket) (s : UdpSession Socket)
      → Distinct m
      → get a m ≡ some s
      → s.id ≢ id
      → All IsOther m
  unfolding get
  all-IsOther [] s d found other = absurd (cc)
  all-IsOther ((b, r) ∷ m) s d found other = elim (Bool-cases (same_addr a b)) [
    | inl same ↦
        let is : r ≡ s = some_inj (rw (same, get) at found) in
        let key = same_addr-eq a b same in
        (
          (λ _ e. other (sym (ap (λ x. x.id) is) ∙ e)),
          All-imp (Apart b r.id) IsOther m
              (λ e apart.
                IsOther-of_key e (subst (λ x. same_addr x (e.0) ≡ false) (sym key) apart.0))
              d.0,
        )
    | inr differs ↦
        (IsOther-of_key (b, r) differs, all-IsOther m s d.1 (rw (differs, get) at found) other)
  ]

  remove_session-IsOther :
      (t : UdpSessionTable Socket)
      → Distinct t.sessions
      → All IsOther (remove_session a id t).sessions
  unfolding remove_session close
  remove_session-IsOther t d = elim (Option-cases (get a t.sessions)) [
    | inl missing ↦
        rw (missing, remove_session)
          (All-imp _ IsOther t.sessions IsOther-of_key (get-none a t.sessions missing))
    | inr (s, found) ↦ elim (Bool-cases (s.id == id)) [
      | inl same ↦
          rw (found, remove_session, same)
            (All-imp _ IsOther (remove a t.sessions) IsOther-of_key
              (get-none a (remove a t.sessions) (get-remove_self a t.sessions d)))
      | inr other ↦
          let differs : s.id ≢ id = λ e. ground arith in
          rw (found, remove_session, other) (all-IsOther t.sessions s d found differs)
    ]
  ]

module _ {IoError Socket : Type 0} (timeout since : ℕ) (positive : 1 ≤ timeout)
    (between : ℕ → List (Call IoError Socket))
    (forward : (i : ℕ) → All (λ c. All (λ now. since ≤ now) (times c)) (between i)) where
  -- A removal takes its session off the list.
  removal-Pending :
      (a : SocketAddr) (id : ℕ) (l : List (SocketAddr × ℕ)) (t : UdpSessionTable Socket)
      → Distinct t.sessions
      → All (Pending timeout since positive ((a, id) ∷ l)) t.sessions
      → All (Pending timeout since positive l) (remove_session a id t).sessions
  removal-Pending a id l t d p =
      All-imp₂ (Pending timeout since positive ((a, id) ∷ l)) (IsOther a id)
        (Pending timeout since positive l) (remove_session a id t).sessions
        (λ e q other. elim q [
          | inl used ↦ inl used
          | inr (inl same) ↦ absurd (other (ap (λ x. x.0) same) (ap (λ x. x.1) same))
          | inr (inr later) ↦ inr later
        ])
        (remove_session-All (Pending timeout since positive ((a, id) ∷ l)) a id t p)
        (remove_session-IsOther a id t d)

  tick_calls-Pending :
      (l : List (SocketAddr × ℕ)) (i n : ℕ) (t : UdpSessionTable Socket)
      → n + length (tick_calls between i l) + 1 < u64_mod
      → Sound n t
      → All (Pending timeout since positive l) t.sessions
      → All (IsUsed timeout since positive) (run t (tick_calls between i l)).sessions
  unfolding run call
  tick_calls-Pending [] i n t h sound p =
      All-imp _ _ t.sessions
        (λ e q. elim q [ inl used ↦ used | inr none_left ↦ elim none_left [ ] ]) p
  tick_calls-Pending ((a, id) ∷ l) i n t h sound p =
      let rest = tick_calls between (suc i) l in
      let u = run t (between i) in
      let fits = length-append (between i) (removes a id ∷ rest) in
      let before = run-Sound (between i) n t (omega (arith, fits)) sound in
      let pending =
        run-All (Pending timeout since positive ((a, id) ∷ l)) since
          (touched-Pending timeout since positive ((a, id) ∷ l))
          (created-Pending timeout since positive ((a, id) ∷ l)) (between i) t (forward i) p in
      rw (run-append (between i) (removes a id ∷ rest) t) (
        tick_calls-Pending l (suc i) (n + length (between i)) (remove_session a id u)
          (omega (arith, fits)) (remove_session-Sound (n + length (between i)) a id u before)
          (removal-Pending a id l u (before.3) pending))

-- A tick of the clean-up takes its look at the map at a time, and removes what it found idle one by
-- one, while other tasks make any calls, none with a clock reading before that time. Behind its last
-- removal each session in the map was less than the timeout idle at that time: after any calls on a
-- new table, fewer than 2^64 - 1 with those of the tick, and with the port's flow gauge at 0 at
-- first.
pub tick_calls-used :
    {IoError Socket : Type 0} (idle_timeout : ℕ) (stats : PortStats)
    (cs : List (Call IoError Socket)) (now : ℕ) (between : ℕ → List (Call IoError Socket))
    → stats.udp_active_flows ≡ 0
    → length cs
        + length (tick_calls between 0 (tick_list now (run (new_table idle_timeout stats) cs)))
        + 1
      < u64_mod
    → ((i : ℕ) → All (λ c. All (λ at. now ≤ at) (times c)) (between i))
    → let t = run (new_table idle_timeout stats) cs in
      All
        (λ e. now < e.1.last_active_epoch + timeout_seconds t)
        (run t (tick_calls between 0 (tick_list now t))).sessions
unfolding new_table tick_list
tick_calls-used idle_timeout stats cs now between none_yet few forward =
    let t = run (new_table idle_timeout stats) cs in
    let l = listed (stale (timeout_seconds t) now t.sessions) in
    let sound =
      run-Sound cs 0 (new_table idle_timeout stats) (omega arith)
        (none_yet, omega arith, omega arith, tt, tt, tt) in
    let positive : 1 ≤ timeout_seconds t = omega arith in
    tick_calls-Pending (timeout_seconds t) now positive between forward l 0 (0 + length cs) t
      (omega arith) sound (Pending-listed (timeout_seconds t) now positive t.sessions)
