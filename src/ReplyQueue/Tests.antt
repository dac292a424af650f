-- ===== src/ReplyQueue/Tests.antt =====
-- A channel that keeps the promises, and the way of two replies through it.
use range_porter.Prelude.{
  ℕ, zero, suc, ◌+◌, ◌%◌, ◌≤◌, ◌<◌, ◌≡◌, refl, ap, false, List, [], ◌∷◌, ◌++◌, arith, length,
  length-take, take, drop, ltb, if◌then◌else◌,
}
use range_porter.Word.{u64_mod}
use range_porter.Net.{v4}
use range_porter.Stats.Port
use range_porter.UdpBatch.{ReplyPacket}
use range_porter.Sessions.{
  UdpSession, TrySend, queued, full, disconnected, new_table, reply_batch, touch_session,
}
use range_porter.Stats.Port.{add_udp_out}
use range_porter.UdpSend.{sent as sends, flush}
use range_porter.UdpSend.Flush.{bytes_of}
use range_porter.ReplyQueue.{
  reply_queue_capacity, Channel, Replying, Event, offers, serves, offer, serve, act, run,
}
use range_porter.ReplyQueue.Flow.{added, taken, sent, dropped, all_of, sum_of, run-fifo}

try_push : ReplyPacket → List ReplyPacket → TrySend × List ReplyPacket
try_push p q = if ltb (length q) reply_queue_capacity then (queued, q ++ p ∷ []) else (full, q)

try_push-queued :
    (p : ReplyPacket) (q : List ReplyPacket)
    → (try_push p q).0 ≡ queued
    → ((try_push p q).1 ≡ q ++ p ∷ []) × (length q < reply_queue_capacity)
unfolding try_push
try_push-queued p q e = ground arith

try_push-full :
    (p : ReplyPacket) (q : List ReplyPacket)
    → (try_push p q).0 ≡ full
    → ((try_push p q).1 ≡ q) × (reply_queue_capacity ≤ length q)
unfolding try_push
try_push-full p q e = ground arith

try_push-disconnected :
    (p : ReplyPacket) (q : List ReplyPacket)
    → (try_push p q).0 ≡ disconnected
    → (try_push p q).1 ≡ q
unfolding try_push
try_push-disconnected p q e = ground arith

take-drop : (n : ℕ) (q : List ReplyPacket) → take n q ++ drop n q ≡ q
take-drop zero q = refl
take-drop (suc n) [] = refl
take-drop (suc n) (p ∷ q) = ap (λ l. p ∷ l) (take-drop n q)

abbrev list_channel : Channel (List ReplyPacket) reply_queue_capacity
list_channel = record {
  contents = λ q. q;
  try_send = try_push;
  recv_many = λ n q. (take n q, drop n q);
  try_send-queued = try_push-queued;
  try_send-full = try_push-full;
  try_send-disconnected = try_push-disconnected;
  recv_many-contents = λ n q. (take-drop n q, omega (arith, length-take n q));
}

abbrev session : UdpSession ℕ
session = record {
  id = 1;
  source = v4 167_772_161 4000;
  upstream = 7;
  last_active_epoch = 100;
  closed = false;
  shutdown = false;
}

abbrev before : Replying (List ReplyPacket) ℕ
before = record { table = new_table 120 (Port.new 443); queue = [] }

-- Two replies are queued, and one of them is sent.
abbrev events : List (Event ℕ)
events = offers session (1 ∷ 2 ∷ []) 101 ∷ offers session (3 ∷ []) 101 ∷ serves (sends 1 ∷ []) ∷ []

abbrev after : Replying (List ReplyPacket) ℕ
after = run list_channel events before

run-fifo_example :
    ([] ++ all_of list_channel (added list_channel) events before
      ≡ all_of list_channel (taken list_channel) events before ++ after.queue)
    × (length after.queue ≤ 512)
    × (after.table.stats.udp_out_bytes % u64_mod
        ≡ (before.table.stats.udp_out_bytes
            + bytes_of (all_of list_channel (sent list_channel) events before))
          % u64_mod)
    × (after.table.stats.udp_dropped % u64_mod
        ≡ (before.table.stats.udp_dropped
            + sum_of list_channel (dropped list_channel) events before)
          % u64_mod)
run-fifo_example = run-fifo list_channel events before (omega arith)

sends_two_bytes : after.table.stats.udp_out_bytes ≡ 2
unfolding run act offer serve try_push reply_batch touch_session flush new_table Port.new
    add_udp_out
sends_two_bytes = refl
