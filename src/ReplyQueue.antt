-- ===== src/ReplyQueue.antt =====
-- The way of a reply: a session's reply loop (src/udp_session.rs) offers it to the queue, and the
-- sender (src/listener/udp_send.rs) takes batches from there. The queue is tokio's; `Channel` says
-- what its documentation promises.
pub mod Flow
mod Tests
use range_porter.Prelude.{ℕ, ◌≤◌, ◌<◌, ◌≡◌, List, [], ◌∷◌, ◌++◌, length}
use range_porter.Stats.Port.{PortStats}
use range_porter.UdpBatch.{ReplyPacket}
use range_porter.Sessions.{
  UdpSession, UdpSessionTable, Datagram, TrySend, queued, full, disconnected, reply_packet,
  reply_batch,
}
use range_porter.UdpSend.{Sent, flush}

abbrev pub reply_queue_capacity : ℕ
reply_queue_capacity = 512

abbrev pub send_batch_size : ℕ
send_batch_size = 32

-- A bounded channel: it is first in, first out. `try_send` adds at the end where there is room, and
-- otherwise changes nothing; `recv_many` takes from the front.
pub record Channel (Q : Type 0) (capacity : ℕ) : Type 0 where
  pub contents : Q → List ReplyPacket
  pub try_send : ReplyPacket → Q → TrySend × Q
  pub recv_many : ℕ → Q → List ReplyPacket × Q
  pub try_send-queued :
      (p : ReplyPacket) (q : Q)
      → (try_send p q).0 ≡ queued
      → (contents ((try_send p q).1) ≡ contents q ++ p ∷ []) × (length (contents q) < capacity)
  pub try_send-full :
      (p : ReplyPacket) (q : Q)
      → (try_send p q).0 ≡ full
      → (contents ((try_send p q).1) ≡ contents q) × (capacity ≤ length (contents q))
  pub try_send-disconnected :
      (p : ReplyPacket) (q : Q)
      → (try_send p q).0 ≡ disconnected
      → contents ((try_send p q).1) ≡ contents q
  pub recv_many-contents :
      (n : ℕ) (q : Q)
      → ((recv_many n q).0 ++ contents ((recv_many n q).1) ≡ contents q)
        × (length ((recv_many n q).0) ≤ n)

pub record Replying (Q Socket : Type 0) : Type 0 where
  pub table : UdpSessionTable Socket
  pub queue : Q

-- A datagram that a session's reply loop received at a time, or a turn of the sender, with the answers
-- to its flush.
pub data Event (Socket : Type 0) : Type 0 where
  offers : UdpSession Socket → (payload : List ℕ) → (now : ℕ) → Event Socket
  serves : List Sent → Event Socket

module _ {Q Socket : Type 0} (channel : Channel Q reply_queue_capacity) where
  -- A turn of the loop over the batch, in `reply_loop` of a session.
  unfoldable pub offer : UdpSession Socket → List ℕ → ℕ → Replying Q Socket → Replying Q Socket
  unfolding reply_batch
  offer session [] now s = s
  offer session (b ∷ bs) now s =
      let sent = channel.try_send (reply_packet session.source (b ∷ bs)) s.queue in
      let d : Datagram = record { payload = b ∷ bs; outcome = sent.0; now = now } in
      record { table = (reply_batch session (d ∷ []) s.table).table; queue = sent.1 }

  -- A turn of `reply_loop` of the sender.
  unfoldable pub serve : List Sent → Replying Q Socket → Replying Q Socket
  unfolding flush
  serve answers s =
      let received = channel.recv_many send_batch_size s.queue in
      record {
        table = record s.table { stats = (flush answers (received.0) s.table.stats).stats };
        queue = received.1;
      }

  unfoldable pub act : Event Socket → Replying Q Socket → Replying Q Socket
  unfolding offer serve
  act (offers session payload now) s = offer session payload now s
  act (serves answers) s = serve answers s

  unfoldable pub run : List (Event Socket) → Replying Q Socket → Replying Q Socket
  unfolding act
  run [] s = s
  run (e ∷ events) s = run events (act e s)
