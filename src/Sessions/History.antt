-- ===== src/Sessions/History.antt =====
-- The calls on a table, and what holds of it after any of them.
use range_porter.Prelude.{ℕ, suc, ◌+◌, ◌<◌, ◌≡◌, List, [], ◌∷◌, ◌++◌, refl, arith, All, length}
use mathlib.Core.Path.{subst}
use range_porter.Result.{Result}
use range_porter.Word.{u64_mod}
use range_porter.Net.{SocketAddr}
use range_porter.Stats.Port.{PortStats, record_udp_drop}
use range_porter.Sessions.{
  UdpSession, UdpSessionTable, Received, new_table, get_or_create, remove_session, listed,
  shutdown_all, stale, timeout_seconds, clean_up, forward_client_packet, reply_turn,
}
use range_porter.Sessions.Map.{Distinct}
use range_porter.Sessions.Keeping.{reply_times, reply_turn-keeps, All-Unit}
use range_porter.Sessions.Accounting.{
  IsLive, IsGone, Sound, touch_session-Sound, remove_session-Sound, remove_all-Sound, Sound-suc,
  get_or_create-Sound, forward-Sound,
}

-- A call on the table, with what the operating system, the clock and the queue answer.
pub data Call (IoError Socket : Type 0) : Type 0 where
  gets_or_creates : SocketAddr → Result IoError Socket → ℕ → Call IoError Socket
  removes : SocketAddr → ℕ → Call IoError Socket
  shuts_down : Call IoError Socket
  cleans_up : ℕ → Call IoError Socket
  forwards : ℕ → List ℕ → Result IoError ℕ → ℕ → Call IoError Socket
  replies : UdpSession Socket → Received → Call IoError Socket

module _ {IoError Socket : Type 0} where
  unfoldable pub call : UdpSessionTable Socket → Call IoError Socket → UdpSessionTable Socket
  call t (gets_or_creates source opened now) = (get_or_create source opened now t).1
  call t (removes source id) = remove_session source id t
  call t shuts_down = shutdown_all t
  call t (cleans_up now) = clean_up now t
  call t (forwards id payload sent now) = forward_client_packet id payload sent now t
  call t (replies session received) = (reply_turn session received t).table

  unfoldable pub run : UdpSessionTable Socket → List (Call IoError Socket) → UdpSessionTable Socket
  run t [] = t
  run t (c ∷ cs) = run (call t c) cs

pub run-append :
    {IoError Socket : Type 0} (cs ds : List (Call IoError Socket)) (t : UdpSessionTable Socket)
    → run t (cs ++ ds) ≡ run (run t cs) ds
unfolding run
run-append [] ds t = refl
run-append (c ∷ cs) ds t = run-append cs ds (call t c)

module _ {Socket : Type 0} where
  reply_turn-Sound :
      (n : ℕ) (session : UdpSession Socket) (received : Received) (t : UdpSessionTable Socket)
      → Sound n t
      → Sound n (reply_turn session received t).table
  unfolding record_udp_drop
  reply_turn-Sound n session received t =
      reply_turn-keeps (Sound n) (λ _. Unit) (λ id now r _. touch_session-Sound n id now r)
        (λ r sound. sound) (remove_session-Sound n) session received t
        (All-Unit (reply_times received))

module _ {IoError Socket : Type 0} where
  pub call-Sound :
      (n : ℕ) (t : UdpSessionTable Socket) (c : Call IoError Socket)
      → suc (suc n) < u64_mod
      → Sound n t
      → Sound (suc n) (call t c)
  unfolding call shutdown_all clean_up
  call-Sound n t (gets_or_creates source opened now) h sound =
      get_or_create-Sound n source opened now t h sound
  call-Sound n t (removes source id) h sound =
      Sound-suc n (remove_session source id t) (remove_session-Sound n source id t sound)
  call-Sound n t shuts_down h sound =
      Sound-suc n (shutdown_all t) (remove_all-Sound n (listed t.sessions) t sound)
  call-Sound n t (cleans_up now) h sound =
      Sound-suc n (clean_up now t)
        (remove_all-Sound n (listed (stale (timeout_seconds t) now t.sessions)) t sound)
  call-Sound n t (forwards id payload sent now) h sound =
      Sound-suc n (forward_client_packet id payload sent now t)
        (forward-Sound n id payload sent now t sound)
  call-Sound n t (replies session received) h sound =
      Sound-suc n ((reply_turn session received t).table)
        (reply_turn-Sound n session received t sound)

  pub run-Sound :
      (cs : List (Call IoError Socket)) (n : ℕ) (t : UdpSessionTable Socket)
      → n + length cs + 1 < u64_mod
      → Sound n t
      → Sound (n + length cs) (run t cs)
  unfolding run
  run-Sound [] n t h sound = subst (λ k. Sound k t) (omega arith) sound
  run-Sound (c ∷ cs) n t h sound =
      subst (λ k. Sound k (run (call t c) cs)) (omega arith)
        (run-Sound cs (suc n) (call t c) (omega arith) (call-Sound n t c (omega arith) sound))

-- After any calls on a new table, fewer than 2^64 - 1 of them and with the port's flow gauge at 0 at
-- first, that gauge is the number of sessions in the map. Each client address and each id occurs there once; each session
-- stands at its own address, is open and not cancelled. Each session that has left the map was
-- closed and its reply loop told to end.
pub run-sessions :
    {IoError Socket : Type 0} (idle_timeout : ℕ) (stats : PortStats)
    (cs : List (Call IoError Socket))
    → stats.udp_active_flows ≡ 0
    → length cs + 1 < u64_mod
    → let t = run (new_table idle_timeout stats) cs in
      (t.stats.udp_active_flows ≡ length t.sessions)
      × Distinct t.sessions
      × All (IsLive t.next_session_id) t.sessions
      × All IsGone t.removed
unfolding new_table
run-sessions idle_timeout stats cs none_yet few =
    let (counted, _, _, distinct, live, gone) =
      run-Sound cs 0 (new_table idle_timeout stats) (omega arith)
        (none_yet, omega arith, omega arith, tt, tt, tt) in
    (counted, distinct, live, gone)
