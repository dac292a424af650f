-- ===== src/UdpListener.antt =====
-- src/listener/udp.rs, and src/forward/udp.rs: the UDP listener of one port, from its socket to its
-- session table. The calls that the clean-up and the reply tasks make on the table come between
-- the listener's own, in any order.
pub mod Serve
pub mod Run
pub mod Bytes
mod Tests
use range_porter.Prelude.{
  ℕ, zero, suc, ◌+◌, Bool, true, false, List, [], ◌∷◌, Option, none, some, if◌then◌else◌,
}
use range_porter.Result.{Result, ok, err}
use range_porter.Text.{is_empty}
use range_porter.Net.{SocketAddr}
use range_porter.Stats.Port.{PortStats}
use range_porter.UdpBatch.{BatchBuf, slot, addr, ◌>>=◌}
use range_porter.Sessions.{
  UdpSession, UdpSessionTable, new_table, get_or_create, forward_client_packet, shutdown_all,
}
use range_porter.Sessions.History.{Call, call}

-- What the system answers for one datagram: to the opening of a socket, to the sending; and the
-- times at which these are done.
pub record Io (IoError Socket : Type 0) : Type 0 where
  pub opened : Result IoError Socket
  pub opened_at : ℕ
  pub sent : Result IoError ℕ
  pub sent_at : ℕ

-- A turn of the loop: the shutdown; a receipt of a number of datagrams; a failed receipt; or a call
-- of another task on the table.
pub data Event (IoError Socket : Type 0) : Type 0 where
  cancelled receive_failed : Event IoError Socket
  received : BatchBuf → (count : ℕ) → (ℕ → Io IoError Socket) → Event IoError Socket
  other_task : Call IoError Socket → Event IoError Socket

module _ {IoError Socket : Type 0} where
  -- `forward_to_target` is the sending itself.
  unfoldable pub forward :
      List ℕ
      → Io IoError Socket
      → Result IoError (UdpSession Socket)
      → UdpSessionTable Socket
      → UdpSessionTable Socket
  forward payload io (ok session) t = forward_client_packet session.id payload io.sent io.sent_at t
  forward payload io (err e) t = t

  unfoldable pub serve_datagram :
      SocketAddr → List ℕ → Io IoError Socket → UdpSessionTable Socket → UdpSessionTable Socket
  unfolding forward
  serve_datagram source payload io t =
      let created = get_or_create source io.opened io.opened_at t in
      forward payload io (created.0) (created.1)

  -- One round of the loop over the slots; `none` where an index is out of range.
  unfoldable pub serve_slot :
      ℕ → BatchBuf → Io IoError Socket → UdpSessionTable Socket → Option (UdpSessionTable Socket)
  unfolding serve_datagram
  serve_slot i buf io t = addr i buf >>= λ sender. elim sender [
    | none ↦ some t
    | some source ↦ slot i buf >>= λ payload.
        if is_empty payload then some t else some (serve_datagram source payload io t)
  ]

  -- The loop over `count` slots from `i` on.
  unfoldable pub serve_slots :
      ℕ
      → ℕ
      → BatchBuf
      → (ℕ → Io IoError Socket)
      → UdpSessionTable Socket
      → Option (UdpSessionTable Socket)
  unfolding serve_slot
  serve_slots i zero buf ios t = some t
  serve_slots i (suc count) buf ios t =
      serve_slot i buf (ios i) t >>= λ after. serve_slots (suc i) count buf ios after

  -- The loop of `run`, and what follows it. Where the events end without a shutdown it still runs.
  unfoldable pub run_from :
      List (Event IoError Socket) → UdpSessionTable Socket → Option (Bool × UdpSessionTable Socket)
  unfolding serve_slots
  run_from [] t = some (false, t)
  run_from (cancelled ∷ events) t = some (true, shutdown_all t)
  run_from (receive_failed ∷ events) t = run_from events t
  run_from (received buf count ios ∷ events) t =
      serve_slots 0 count buf ios t >>= λ after. run_from events after
  run_from (other_task c ∷ events) t = run_from events (call t c)

  unfoldable pub run :
      ℕ → PortStats → List (Event IoError Socket) → Option (Bool × UdpSessionTable Socket)
  unfolding run_from new_table
  run idle_timeout stats events = run_from events (new_table idle_timeout stats)
