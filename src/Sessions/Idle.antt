-- ===== src/Sessions/Idle.antt =====
-- How long a session may be idle: the timeout and the period of the clean-up, `cleanup_loop`.
use range_porter.Prelude.{
  ℕ, suc, ◌+◌, ◌/◌, ◌≤◌, ◌<◌, ◌≡◌, refl, sym, ap, ◌∙◌, max, inl, inr, List, [], ◌∷◌, arith, All,
  All-imp, length, Bool-cases,
}
use mathlib.Core.Path.{subst}
use range_porter.Word.{u64_mod}
use range_porter.Stats.Port.{PortStats}
use range_porter.Target.Resolve.{second}
use range_porter.Sessions.{
  UdpSessionTable, Entries, new_session, new_table, touch, touch_if, listed, is_stale, stale,
  timeout_seconds, interval_seconds, clean_up,
}
use range_porter.Sessions.Map.{Entry, Distinct}
use range_porter.Sessions.Accounting.{Sound}
use range_porter.Sessions.Keeping.{remove_all-idle_timeout}
use range_porter.Sessions.History.{
  Call, gets_or_creates, removes, shuts_down, cleans_up, forwards, replies, call, run, call-Sound,
}
use range_porter.Sessions.Entries.{times, call-All, call-idle_timeout}
use range_porter.Sessions.CleanUp.{active, clean_up-active}

-- The last tick of the clean-up, behind a call and behind several.
abbrev pub tick : {IoError Socket : Type 0} → ℕ → Call IoError Socket → ℕ
tick since (cleans_up now) = now
tick since _ = since

abbrev pub last_tick : {IoError Socket : Type 0} → ℕ → List (Call IoError Socket) → ℕ
last_tick since [] = since
last_tick since (c ∷ cs) = last_tick (tick since c) cs

-- The clock does not go back behind the last tick.
abbrev pub IsForward : {IoError Socket : Type 0} → ℕ → List (Call IoError Socket) → Type 0
IsForward since [] = Unit
IsForward since (c ∷ cs) = All (λ now. since ≤ now) (times c) × IsForward (tick since c) cs

-- The seconds of an idle timeout.
abbrev timeout : ℕ → ℕ
timeout idle_timeout = max 1 (idle_timeout / second)

module _ {Socket : Type 0} (idle_timeout : ℕ) where
  -- The session was less than the timeout idle at a time.
  abbrev IsUsed : ℕ → Entry Socket → Type 0
  IsUsed since e = since < e.1.last_active_epoch + timeout idle_timeout

  abbrev Used : ℕ → UdpSessionTable Socket → Type 0
  Used since t = (t.idle_timeout ≡ idle_timeout) × All (IsUsed since) t.sessions

  -- A call that is no tick.
  other-Used :
      {IoError : Type 0} (since : ℕ) (t : UdpSessionTable Socket) (c : Call IoError Socket)
      → All (λ now. since ≤ now) (times c)
      → Used since t
      → Used since (call t c)
  other-Used since t c h (same, used) = (
    call-idle_timeout t c ∙ same,
    call-All (IsUsed since) since (λ a s id now le u. unfold touch_if touch in ground arith)
        (λ id a upstream now le. unfold new_session in omega arith) t c h used,
  )

  active-IsUsed :
      (now : ℕ) (m : Entries Socket) → All (IsUsed now) (active (timeout idle_timeout) now m)
  active-IsUsed now [] = tt
  active-IsUsed now ((a, s) ∷ m) = elim (Bool-cases (is_stale (timeout idle_timeout) now s)) [
    | inl old ↦ rw old (active-IsUsed now m)
    | inr young ↦ rw young (ground (arith, young), active-IsUsed now m)
  ]

  clean_up-Used :
      (now : ℕ) (t : UdpSessionTable Socket)
      → Distinct t.sessions
      → t.idle_timeout ≡ idle_timeout
      → Used now (clean_up now t)
  unfolding clean_up
  clean_up-Used now t distinct same = (
    remove_all-idle_timeout (listed (stale (timeout_seconds t) now t.sessions)) t ∙ same,
    subst (All (IsUsed now))
        (sym (clean_up-active now t distinct ∙ ap (λ i. active (timeout i) now t.sessions) same))
        (active-IsUsed now t.sessions),
  )

  call-Used :
      {IoError : Type 0} (since : ℕ) (t : UdpSessionTable Socket) (c : Call IoError Socket)
      → All (λ now. since ≤ now) (times c)
      → Distinct t.sessions
      → Used since t
      → Used (tick since c) (call t c)
  unfolding call
  call-Used {IoError} since t (cleans_up now) h d used = clean_up-Used now t d (used.0)
  call-Used {IoError} since t (gets_or_creates source opened now) h d used =
      other-Used {IoError = IoError} since t (gets_or_creates source opened now) h used
  call-Used {IoError} since t (removes source id) h d used =
      other-Used {IoError = IoError} since t (removes source id) h used
  call-Used {IoError} since t shuts_down h d used =
      other-Used {IoError = IoError} since t shuts_down h used
  call-Used {IoError} since t (forwards id payload sent now) h d used =
      other-Used {IoError = IoError} since t (forwards id payload sent now) h used
  call-Used {IoError} since t (replies session received) h d used =
      other-Used {IoError = IoError} since t (replies session received) h used

  run-Used :
      {IoError : Type 0} (cs : List (Call IoError Socket)) (n since : ℕ)
      (t : UdpSessionTable Socket)
      → n + length cs + 1 < u64_mod
      → IsForward since cs
      → Sound n t
      → Used since t
      → Used (last_tick since cs) (run t cs)
  unfolding run
  run-Used [] n since t h forward sound used = used
  run-Used (c ∷ cs) n since t h forward sound used =
      run-Used cs (suc n) (tick since c) (call t c) (omega arith) forward.1
        (call-Sound n t c (omega arith) sound) (call-Used since t c forward.0 (sound.3) used)

  IsUsed-within :
      (since now d : ℕ) (t : UdpSessionTable Socket)
      → now ≤ since + interval_seconds t + d
      → Used since t
      → All
          (λ e. now < e.1.last_active_epoch + timeout_seconds t + interval_seconds t + d)
          t.sessions
  IsUsed-within since now d t h (same, used) =
      All-imp (IsUsed since) _ t.sessions
        (λ e u.
          let u' = subst (λ i. since < e.1.last_active_epoch + timeout i) (sym same) u in
          omega (arith, h, u'))
        used

-- At any time that is no further behind the last tick of the clean-up than its period, at most 5
-- seconds, and a delay, each session in the map was idle for less than the timeout, that period and
-- that delay together: after any calls on a new table, fewer than 2^64 - 1 of them and with the
-- port's flow gauge at 0 at first, in which no clock reading is before the last tick.
pub run-idle :
    {IoError Socket : Type 0} (idle_timeout : ℕ) (stats : PortStats)
    (cs : List (Call IoError Socket)) (since now d : ℕ)
    → stats.udp_active_flows ≡ 0
    → length cs + 1 < u64_mod
    → IsForward since cs
    → now ≤ last_tick since cs + interval_seconds (run (new_table idle_timeout stats) cs) + d
    → let t = run (new_table idle_timeout stats) cs in
      (interval_seconds t ≤ 5)
      × All
          (λ e. now < e.1.last_active_epoch + timeout_seconds t + interval_seconds t + d)
          t.sessions
unfolding new_table
run-idle idle_timeout stats cs since now d none_yet few forward soon =
    let t = run (new_table idle_timeout stats) cs in
    (
      omega arith,
      IsUsed-within idle_timeout (last_tick since cs) now d t soon (
          run-Used idle_timeout cs 0 since (new_table idle_timeout stats) (omega arith) forward
            (none_yet, omega arith, omega arith, tt, tt, tt) (refl, tt)),
    )
