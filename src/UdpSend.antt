-- ===== src/UdpSend.antt =====
-- src/listener/udp_send.rs: `flush`, which sends a batch of replies, and `reply_loop`, which takes the
-- batches from the queue. The answers of the system calls are a list; the loop of `flush` ends at
-- the end of the batch, at an answer that stops it, or where no further answer is given.
pub mod Flush
pub mod Loop
mod Tests
use range_porter.Prelude.{
  ℕ, zero, suc, ◌+◌, Bool, true, false, List, [], ◌∷◌, length, take, drop, leb, if◌then◌else◌,
}
use range_porter.Stats.Port.{PortStats, add_udp_out}
use range_porter.UdpBatch.{ReplyPacket}

-- What `send_batch` returns: the number of packets sent, an interruption, or another error.
pub data Sent : Type 0 where
  sent : ℕ → Sent
  interrupted failed : Sent

-- Whether the loop came to its end, by the end of the batch or by an answer.
pub record Flushed : Type 0 where
  pub stats : PortStats
  pub start : ℕ
  pub ended : Bool

unfoldable pub add_sent : List ReplyPacket → PortStats → PortStats
add_sent [] stats = stats
add_sent (p ∷ ps) stats = add_sent ps (add_udp_out p.bytes stats)

-- The loop from `start` on. Where more is said to be sent than was given, which sendmmsg does not,
-- the slice panics; here it is what is left.
unfoldable pub flush_from : List Sent → List ReplyPacket → ℕ → PortStats → Flushed
unfolding add_sent
flush_from [] batch start stats = record {
  stats = stats;
  start = start;
  ended = leb (length batch) start;
}
flush_from (answer ∷ answers) batch start stats =
    if leb (length batch) start
    then record { stats = stats; start = start; ended = true }
    else (elim answer [
      | sent zero ↦ record { stats = stats; start = start; ended = true }
      | sent (suc n) ↦
          flush_from answers batch (start + suc n)
            (add_sent (take (suc n) (drop start batch)) stats)
      | interrupted ↦ flush_from answers batch start stats
      | failed ↦ record { stats = stats; start = start; ended = true }
    ])

unfoldable pub flush : List Sent → List ReplyPacket → PortStats → Flushed
unfolding flush_from
flush answers batch stats = flush_from answers batch 0 stats

-- A turn of `reply_loop`: the shutdown, or what `recv_many` gives, which is nothing where all
-- senders are dropped, with the answers to its flush.
pub data Turn : Type 0 where
  cancelled : Turn
  received : List ReplyPacket → List Sent → Turn

pub record Replied : Type 0 where
  pub stats : PortStats
  pub stopped : Bool

-- A flush that has not ended holds the loop up.
unfoldable pub reply_loop : List Turn → PortStats → Replied
unfolding flush
reply_loop [] stats = record { stats = stats; stopped = false }
reply_loop (cancelled ∷ turns) stats = record { stats = stats; stopped = true }
reply_loop (received [] answers ∷ turns) stats = record { stats = stats; stopped = true }
reply_loop (received (p ∷ ps) answers ∷ turns) stats =
    let flushed = flush answers (p ∷ ps) stats in
    let rest = reply_loop turns flushed.stats in
    if flushed.ended then rest else record { stats = flushed.stats; stopped = false }
