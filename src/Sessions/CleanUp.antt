-- ===== src/Sessions/CleanUp.antt =====
-- What leaves the map: the idle sessions at a tick, all of them at the shutdown.
use range_porter.Prelude.{
  ℕ, ◌+◌, ◌/◌, ◌≤◌, ◌<◌, ◌≡◌, max, ltb, refl, ap, ◌∙◌, inl, inr, true, false, List, [], ◌∷◌, none,
  some, arith, All, length, ◌==◌, if◌then◌else◌, Bool-cases, Option-cases,
}
use range_porter.Word.{u64_mod}
use range_porter.Net.{SocketAddr, same_addr, same_addr_self, same_addr-differs}
use range_porter.Stats.Port.{PortStats}
use range_porter.Sessions.{
  UdpSession, UdpSessionTable, Entries, new_table, get, remove, close, remove_session, remove_all,
  listed, shutdown_all, is_stale, stale, timeout_seconds, clean_up,
}
use range_porter.Sessions.Map.{Apart, Distinct}
use range_porter.Sessions.Accounting.{remove_all-Sound}
use range_porter.Sessions.History.{Call, run, run-Sound}

module _ {Socket : Type 0} where
  -- The entries after a removal, and after several.
  drop_session : SocketAddr → ℕ → Entries Socket → Entries Socket
  drop_session a id m = elim (get a m) [ none ↦ m | some s ↦ if s.id == id then remove a m else m ]

  drop_sessions : List (SocketAddr × ℕ) → Entries Socket → Entries Socket
  drop_sessions [] m = m
  drop_sessions ((a, id) ∷ l) m = drop_sessions l (drop_session a id m)

  remove_session-drop_session :
      (a : SocketAddr) (id : ℕ) (t : UdpSessionTable Socket)
      → (remove_session a id t).sessions ≡ drop_session a id t.sessions
  unfolding remove_session close drop_session
  remove_session-drop_session a id t = elim (Option-cases (get a t.sessions)) [
    | inl missing ↦ rw (missing, remove_session, drop_session) refl
    | inr (s, found) ↦ elim (Bool-cases (s.id == id)) [
      | inl same ↦ rw (found, remove_session, drop_session, same) refl
      | inr other ↦ rw (found, remove_session, drop_session, other) refl
    ]
  ]

  remove_all-drop_sessions :
      (l : List (SocketAddr × ℕ)) (t : UdpSessionTable Socket)
      → (remove_all l t).sessions ≡ drop_sessions l t.sessions
  unfolding remove_all drop_sessions
  remove_all-drop_sessions [] t = refl
  remove_all-drop_sessions ((a, id) ∷ l) t =
      remove_all-drop_sessions l (remove_session a id t)
      ∙ ap (drop_sessions l) (remove_session-drop_session a id t)

  drop_session-head :
      (a : SocketAddr) (s : UdpSession Socket) (m : Entries Socket)
      → drop_session a s.id ((a, s) ∷ m) ≡ m
  unfolding drop_session get remove
  drop_session-head a s m =
      let self = same_addr_self a in
      let same : (s.id == s.id) ≡ true = ground arith in
      rw (self, drop_session, get, same) (rw (self, remove) refl)

  drop_session-tail :
      (a : SocketAddr) (id : ℕ) (b : SocketAddr) (r : UdpSession Socket) (m : Entries Socket)
      → same_addr a b ≡ false
      → drop_session a id ((b, r) ∷ m) ≡ (b, r) ∷ drop_session a id m
  unfolding drop_session get remove
  drop_session-tail a id b r m other = elim (Option-cases (get a m)) [
    | inl missing ↦ rw (other, drop_session, get, missing) refl
    | inr (s, found) ↦ elim (Bool-cases (s.id == id)) [
      | inl same ↦ rw (other, drop_session, get, found, same) (rw (other, remove) refl)
      | inr differs ↦ rw (other, drop_session, get, found, differs) refl
    ]
  ]

  drop_sessions-tail :
      (l : List (SocketAddr × ℕ)) (b : SocketAddr) (r : UdpSession Socket) (m : Entries Socket)
      → All (λ (p : SocketAddr × ℕ). same_addr (p.0) b ≡ false) l
      → drop_sessions l ((b, r) ∷ m) ≡ (b, r) ∷ drop_sessions l m
  unfolding drop_sessions
  drop_sessions-tail [] b r m other = refl
  drop_sessions-tail ((a, id) ∷ l) b r m other =
      ap (drop_sessions l) (drop_session-tail a id b r m other.0)
      ∙ drop_sessions-tail l b r (drop_session a id m) other.1

  -- The entries that have been active within the last `timeout` seconds.
  abbrev pub active : ℕ → ℕ → Entries Socket → Entries Socket
  active timeout now [] = []
  active timeout now ((a, s) ∷ m) =
      let rest = active timeout now m in if is_stale timeout now s then rest else (a, s) ∷ rest

  stale-differs :
      (timeout now : ℕ) (b : SocketAddr) (id : ℕ) (m : Entries Socket)
      → All (Apart b id) m
      → All (λ (p : SocketAddr × ℕ). same_addr (p.0) b ≡ false) (listed (stale timeout now m))
  unfolding listed stale
  stale-differs timeout now b id [] apart = tt
  stale-differs timeout now b id ((a, s) ∷ m) apart = elim (Bool-cases (is_stale timeout now s)) [
    | inl old ↦ rw (old) (same_addr-differs b a apart.0.0, stale-differs timeout now b id m apart.1)
    | inr young ↦ rw (young) (stale-differs timeout now b id m apart.1)
  ]

  drop_sessions-stale :
      (timeout now : ℕ) (m : Entries Socket)
      → Distinct m
      → drop_sessions (listed (stale timeout now m)) m ≡ active timeout now m
  unfolding listed stale drop_sessions
  drop_sessions-stale timeout now [] d = refl
  drop_sessions-stale timeout now ((a, s) ∷ m) d = elim (Bool-cases (is_stale timeout now s)) [
    | inl old ↦ rw old (
        ap (drop_sessions (listed (stale timeout now m))) (drop_session-head a s m)
        ∙ drop_sessions-stale timeout now m d.1)
    | inr young ↦ rw young (
        drop_sessions-tail (listed (stale timeout now m)) a s m
          (stale-differs timeout now a s.id m d.0)
        ∙ ap (λ (l : Entries Socket). (a, s) ∷ l) (drop_sessions-stale timeout now m d.1))
  ]

  drop_sessions-listed : (m : Entries Socket) → drop_sessions (listed m) m ≡ []
  unfolding listed drop_sessions
  drop_sessions-listed [] = refl
  drop_sessions-listed ((a, s) ∷ m) =
      ap (drop_sessions (listed m)) (drop_session-head a s m) ∙ drop_sessions-listed m

  -- What a tick leaves, by its own test.
  pub clean_up-active :
      (now : ℕ) (t : UdpSessionTable Socket)
      → Distinct t.sessions
      → (clean_up now t).sessions ≡ active (timeout_seconds t) now t.sessions
  unfolding clean_up
  clean_up-active now t d =
      remove_all-drop_sessions (listed (stale (timeout_seconds t) now t.sessions)) t
      ∙ drop_sessions-stale (timeout_seconds t) now t.sessions d

  -- The entries whose last use was less than so many seconds before a time.
  abbrev pub recent : (seconds now : ℕ) → Entries Socket → Entries Socket
  recent seconds now [] = []
  recent seconds now ((a, s) ∷ m) =
      let rest = recent seconds now m in
      if ltb now (s.last_active_epoch + seconds) then (a, s) ∷ rest else rest

  active-recent :
      (seconds now : ℕ) (m : Entries Socket)
      → 1 ≤ seconds
      → active seconds now m ≡ recent seconds now m
  active-recent seconds now [] h = refl
  active-recent seconds now ((a, s) ∷ m) h = elim (Bool-cases (is_stale seconds now s)) [
    | inl old ↦
        let idle : ltb now (s.last_active_epoch + seconds) ≡ false = ground (arith, old, h) in
        rw (old, idle) (active-recent seconds now m h)
    | inr young ↦
        let used : ltb now (s.last_active_epoch + seconds) ≡ true = ground (arith, young, h) in
        rw (young, used) (ap (λ (l : Entries Socket). (a, s) ∷ l) (active-recent seconds now m h))
  ]

  -- A tick of the clean-up takes the sessions out of the map whose last use was at least the timeout
  -- ago, in whole seconds and at least one, and leaves the others as they are and in their order,
  -- where each address and each id occurs once in the map.
  pub clean_up-recent :
      (now : ℕ) (t : UdpSessionTable Socket)
      → Distinct t.sessions
      → (clean_up now t).sessions ≡ recent (max 1 (t.idle_timeout / 1_000_000_000)) now t.sessions
  clean_up-recent now t d =
      clean_up-active now t d
      ∙ active-recent (max 1 (t.idle_timeout / 1_000_000_000)) now t.sessions (omega arith)

-- After any calls on a new table, fewer than 2^64 - 1 of them and with the port's flow gauge at 0 at
-- first, a shutdown leaves no session in the
-- map and no active flow on the port's counters.
pub shutdown_all-run :
    {IoError Socket : Type 0} (idle_timeout : ℕ) (stats : PortStats)
    (cs : List (Call IoError Socket))
    → stats.udp_active_flows ≡ 0
    → length cs + 1 < u64_mod
    → let t = shutdown_all (run (new_table idle_timeout stats) cs) in
      (t.sessions ≡ []) × (t.stats.udp_active_flows ≡ 0)
unfolding shutdown_all new_table
shutdown_all-run idle_timeout stats cs none_yet few =
    let t = run (new_table idle_timeout stats) cs in
    let before =
      run-Sound cs 0 (new_table idle_timeout stats) (omega arith)
        (none_yet, omega arith, omega arith, tt, tt, tt) in
    let empty = remove_all-drop_sessions (listed t.sessions) t ∙ drop_sessions-listed t.sessions in
    let (counted, _, _, _, _, _) = remove_all-Sound (0 + length cs) (listed t.sessions) t before in
    (empty, counted ∙ ap length empty)
