-- ===== src/UdpListener/Run.antt =====
-- The whole run of a listener, to its shutdown.
use range_porter.Prelude.{
  ℕ, ◌+◌, ◌*◌, ◌<◌, ◌≡◌, refl, ap, ◌∙◌, Bool, true, false, List, [], ◌∷◌, some, arith, All, length,
  sum_by,
}
use mathlib.Core.Path.{subst}
use range_porter.Word.{u64_mod}
use range_porter.Stats.Port.{PortStats}
use range_porter.UdpBatch.{BatchBuf, Filled}
use range_porter.Sessions.{UdpSessionTable, new_table, shutdown_all}
use range_porter.Sessions.CleanUp.{shutdown_all-run}
use range_porter.Sessions.History.{call}
use range_porter.Sessions.History
use range_porter.UdpListener.{Event, cancelled, receive_failed, received, other_task, run_from, run}
use range_porter.UdpListener.Serve.{
  IsReceipt, ByCalls, ByCalls-append, serve_slots-deliver, deliver-ByCalls,
}

-- The table that `run_from` leaves, from the one behind the last turn.
abbrev leave : {Socket : Type 0} → Bool → UdpSessionTable Socket → UdpSessionTable Socket
leave true t = shutdown_all t
leave false t = t

module _ {IoError Socket : Type 0} where
  -- What a turn receives is a receipt.
  abbrev pub IsServable : Event IoError Socket → Type 0
  IsServable (received buf count ios) =
      (before : BatchBuf) × (f : Filled) × IsReceipt before count f buf
  IsServable _ = Unit

  -- The calls on the table that a turn makes at most.
  abbrev pub calls_of : Event IoError Socket → ℕ
  calls_of (received buf count ios) = 2 * count
  calls_of (other_task c) = 1
  calls_of _ = 0

  abbrev pub is_stopped : List (Event IoError Socket) → Bool
  is_stopped [] = false
  is_stopped (cancelled ∷ events) = true
  is_stopped (_ ∷ events) = is_stopped events

  run_from-ByCalls :
      (events : List (Event IoError Socket)) (t : UdpSessionTable Socket)
      → All IsServable events
      → (u : UdpSessionTable Socket) × ByCalls IoError (sum_by calls_of events) t u
        × (run_from events t ≡ some (is_stopped events, leave (is_stopped events) u))
  unfolding run_from History.run
  run_from-ByCalls [] t v = (t, ([], omega arith, refl), refl)
  run_from-ByCalls (cancelled ∷ events) t v = (t, ([], omega arith, refl), refl)
  run_from-ByCalls (receive_failed ∷ events) t v =
      let (u, (cs, few, reach), ran) = run_from-ByCalls events t v.1 in
      (u, (cs, omega (arith, few), reach), ran)
  run_from-ByCalls (other_task c ∷ events) t v =
      let (u, (cs, few, reach), ran) = run_from-ByCalls events (call t c) v.1 in
      (u, (c ∷ cs, omega (arith, few), reach), ran)
  run_from-ByCalls (received buf count ios ∷ events) t ((before, f, receipt), v) =
      let served = serve_slots-deliver before buf count f ios t receipt in
      let first = deliver-ByCalls before.slot_size f.memory ios 0 f.messages t in
      let (u, rest, ran) = run_from-ByCalls events _ v in
      let (cs, few, reach) = ByCalls-append IoError (2 * length f.messages) _ _ _ _ first rest in
      (u, (cs, omega (arith, few, receipt.0), reach), rw served ran)

  -- A listener whose port had no active flow, that is stopped and makes fewer than 2^64 - 1 calls on
  -- its table, whatever the receipts, the failures and the calls of the other tasks in between: it
  -- does not panic, and leaves no session and no active flow.
  pub run-stopped :
      (idle_timeout : ℕ) (stats : PortStats) (events : List (Event IoError Socket))
      → stats.udp_active_flows ≡ 0
      → All IsServable events
      → is_stopped events ≡ true
      → sum_by calls_of events + 1 < u64_mod
      → (t : UdpSessionTable Socket) × (run idle_timeout stats events ≡ some (true, t))
        × (t.sessions ≡ [])
        × (t.stats.udp_active_flows ≡ 0)
  unfolding run
  run-stopped idle_timeout stats events none_yet servable stopped few =
      let (u, (cs, few', reach), ran) =
        run_from-ByCalls events (new_table idle_timeout stats) servable in
      let (empty, idle) = shutdown_all-run idle_timeout stats cs none_yet (omega arith) in
      (
        shutdown_all u,
        ran ∙ ap (λ b. some (b, leave b u)) stopped,
        subst (λ (w : UdpSessionTable Socket). (shutdown_all w).sessions ≡ []) reach empty,
        subst (λ (w : UdpSessionTable Socket). (shutdown_all w).stats.udp_active_flows ≡ 0) reach
            idle,
      )
