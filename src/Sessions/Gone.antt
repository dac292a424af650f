-- ===== src/Sessions/Gone.antt =====
-- A session that has left the map: its id does not come back, and a late removal of it, by its reply
-- task or by the clean-up, leaves the session that the client has since alone.
use range_porter.Prelude.{
  ℕ, suc, ◌+◌, ◌<◌, ◌≡◌, ◌≢◌, refl, sym, ap, inl, inr, true, false, List, [], ◌∷◌, some, arith, All,
  All-imp, length, ◌==◌, Bool-cases, Option-cases, some_inj,
}
use mathlib.Core.Path.{subst}
use range_porter.Result.{Result, ok, err}
use range_porter.Word.{u64_mod, add_u64_exact}
use range_porter.Net.{SocketAddr, same_addr}
use range_porter.Stats.Port.{PortStats, record_udp_drop}
use range_porter.Sessions.{
  UdpSession, UdpSessionTable, Entries, new_session, new_table, touch_session, get, remove, enter,
  get_or_create, close, remove_session, remove_all, listed, shutdown_all, stale, timeout_seconds,
  clean_up, forward_client_packet,
}
use range_porter.Sessions.Map.{Entry, Apart, Distinct, get-All, touch_if-id, All-touch_entries}
use range_porter.Sessions.Accounting.{IsLive, Sound, remove_session-Sound}
use range_porter.Sessions.Keeping.{
  reply_times, reply_turn-keeps, All-Unit, remove_session-All, remove_session-next_session_id,
}
use range_porter.Sessions.History.{
  Call, gets_or_creates, removes, shuts_down, cleans_up, forwards, replies, call, run, call-Sound,
  run-Sound,
}

module _ {Socket : Type 0} (id : ℕ) where
  abbrev IsOther : Entry Socket → Type 0
  IsOther e = e.1.id ≢ id

  -- The id was given out, and no session of the map has it.
  abbrev Gone : UdpSessionTable Socket → Type 0
  Gone t = (id < t.next_session_id) × All IsOther t.sessions

  touch_session-Gone :
      (i now : ℕ) (t : UdpSessionTable Socket) → Gone t → Gone (touch_session i now t)
  unfolding touch_session
  touch_session-Gone i now t (given, gone) = (
    given,
    All-touch_entries IsOther i now t.sessions
        (λ a s other. subst (λ k. k ≢ id) (sym (touch_if-id i now s)) other) gone,
  )

  remove_session-Gone :
      (source : SocketAddr) (i : ℕ) (t : UdpSessionTable Socket)
      → Gone t
      → Gone (remove_session source i t)
  remove_session-Gone source i t (given, gone) = (
    subst (λ n. id < n) (sym (remove_session-next_session_id source i t)) given,
    remove_session-All IsOther source i t gone,
  )

  remove_all-Gone :
      (l : List (SocketAddr × ℕ)) (t : UdpSessionTable Socket) → Gone t → Gone (remove_all l t)
  unfolding remove_all
  remove_all-Gone [] t gone = gone
  remove_all-Gone ((a, i) ∷ l) t gone =
      remove_all-Gone l (remove_session a i t) (remove_session-Gone a i t gone)

  get_or_create-Gone :
      {IoError : Type 0} (source : SocketAddr) (opened : Result IoError Socket) (now : ℕ)
      (t : UdpSessionTable Socket)
      → t.next_session_id + 1 < u64_mod
      → Gone t
      → Gone (get_or_create source opened now t).1
  unfolding get_or_create enter new_session
  get_or_create-Gone source (err e) now t h gone = elim (Option-cases (get source t.sessions)) [
    | inl missing ↦ rw (missing, get_or_create) gone
    | inr (s, found) ↦ rw (found, get_or_create) (touch_session-Gone s.id now t gone)
  ]
  get_or_create-Gone source (ok upstream) now t h gone =
      elim (Option-cases (get source t.sessions)) [
        | inl missing ↦
            let next = add_u64_exact t.next_session_id 1 h in
            let given = gone.0 in
            rw (missing, get_or_create, missing, enter)
              (omega (arith, next), ((λ same. omega arith), gone.1))
        | inr (s, found) ↦ rw (found, get_or_create) (touch_session-Gone s.id now t gone)
      ]

  call-Gone :
      {IoError : Type 0} (t : UdpSessionTable Socket) (c : Call IoError Socket)
      → t.next_session_id + 1 < u64_mod
      → Gone t
      → Gone (call t c)
  unfolding call shutdown_all clean_up forward_client_packet record_udp_drop
  call-Gone t (gets_or_creates source opened now) h gone =
      get_or_create-Gone source opened now t h gone
  call-Gone t (removes source i) h gone = remove_session-Gone source i t gone
  call-Gone t shuts_down h gone = remove_all-Gone (listed t.sessions) t gone
  call-Gone t (cleans_up now) h gone =
      remove_all-Gone (listed (stale (timeout_seconds t) now t.sessions)) t gone
  call-Gone t (forwards i payload (err e) now) h gone = gone
  call-Gone t (forwards i payload (ok n) now) h gone = touch_session-Gone i now t gone
  call-Gone t (replies session received) h gone =
      reply_turn-keeps Gone (λ _. Unit) (λ i now r _. touch_session-Gone i now r) (λ r g. g)
        remove_session-Gone session received t (All-Unit (reply_times received)) gone

  run-Gone :
      {IoError : Type 0} (cs : List (Call IoError Socket)) (n : ℕ) (t : UdpSessionTable Socket)
      → n + length cs + 2 < u64_mod
      → Sound n t
      → Gone t
      → Gone (run t cs)
  unfolding run
  run-Gone [] n t h sound gone = gone
  run-Gone (c ∷ cs) n t h sound gone =
      let next = sound.2 in
      run-Gone cs (suc n) (call t c) (omega arith) (call-Sound n t c (omega arith) sound)
        (call-Gone t c (omega (arith, next)) gone)

  -- A removal by an id that no session has.
  remove_session-of_Gone :
      (source : SocketAddr) (t : UdpSessionTable Socket)
      → All IsOther t.sessions
      → remove_session source id t ≡ t
  unfolding remove_session
  remove_session-of_Gone source t gone = elim (Option-cases (get source t.sessions)) [
    | inl missing ↦ rw (missing, remove_session) refl
    | inr (s, found) ↦
        let other = get-All IsOther source t.sessions s found gone in
        let differs : (s.id == id) ≡ false = ground arith in
        rw (found, remove_session, differs) refl
  ]

module _ {Socket : Type 0} where
  remove-others :
      (a : SocketAddr) (m : Entries Socket) (s : UdpSession Socket)
      → Distinct m
      → get a m ≡ some s
      → All (λ (e : Entry Socket). e.1.id ≢ s.id) (remove a m)
  unfolding get remove
  remove-others a [] s d found = absurd (cc)
  remove-others a ((b, r) ∷ m) s d found = elim (Bool-cases (same_addr a b)) [
    | inl same ↦
        let is : r ≡ s = some_inj (rw (same, get) at found) in
        rw (same, remove)
          (All-imp (Apart b r.id) (λ e. e.1.id ≢ s.id) m
            (λ e apart. subst (λ k. e.1.id ≢ k) (ap (λ x. x.id) is) apart.1) d.0)
    | inr other ↦
        let later = rw (other, get) at found in
        let apart = get-All (Apart b r.id) a m s later d.0 in
        rw (other, remove) ((λ same. apart.1 (sym same)), remove-others a m s d.1 later)
  ]

  removed-Gone :
      (source : SocketAddr) (s : UdpSession Socket) (n : ℕ) (t : UdpSessionTable Socket)
      → Sound n t
      → get source t.sessions ≡ some s
      → Gone s.id (remove_session source s.id t)
  unfolding remove_session close
  removed-Gone source s n t (_, _, _, distinct, live, _) found =
      let given = get-All (IsLive t.next_session_id) source t.sessions s found live in
      let same : (s.id == s.id) ≡ true = ground arith in
      rw (found, remove_session, same) (given.1, remove-others source t.sessions s distinct found)

-- After any calls on a new table a session is removed from the map. Then, after any further calls, no
-- session of the map has its id, and another removal of it changes nothing: a session that its
-- client was given since stays. The calls are fewer than 2^64 - 2, and the port's flow gauge is
-- at 0 at first.
pub remove_session-late :
    {IoError Socket : Type 0} (idle_timeout : ℕ) (stats : PortStats)
    (cs ds : List (Call IoError Socket)) (source : SocketAddr) (s : UdpSession Socket)
    → stats.udp_active_flows ≡ 0
    → length cs + length ds + 2 < u64_mod
    → get source (run (new_table idle_timeout stats) cs).sessions ≡ some s
    → let t = run (remove_session source s.id (run (new_table idle_timeout stats) cs)) ds in
      All (λ e. e.1.id ≢ s.id) t.sessions × (remove_session source s.id t ≡ t)
unfolding new_table
remove_session-late idle_timeout stats cs ds source s none_yet few found =
    let t = run (new_table idle_timeout stats) cs in
    let sound =
      run-Sound cs 0 (new_table idle_timeout stats) (omega arith)
        (none_yet, omega arith, omega arith, tt, tt, tt) in
    let after =
      run-Gone s.id ds (0 + length cs) (remove_session source s.id t) (omega arith)
        (remove_session-Sound (0 + length cs) source s.id t sound)
        (removed-Gone source s (0 + length cs) t sound found) in
    (after.1, remove_session-of_Gone s.id source _ after.1)
