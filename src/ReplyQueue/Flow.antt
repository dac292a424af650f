-- ===== src/ReplyQueue/Flow.antt =====
-- What becomes of the replies, over any interleaving of reply loops and sender.
use range_porter.Prelude.{
  ℕ, ◌+◌, ◌%◌, ◌≤◌, ◌≡◌, refl, sym, ap, ◌∙◌, List, [], ◌∷◌, ◌++◌, arith, length, length-append,
  append_assoc, append-nil,
}
use range_porter.Word.{u64_mod, add_u64}
use range_porter.Stats.Port.{PortStats, record_udp_drop, add_udp_out}
use range_porter.UdpBatch.{ReplyPacket}
use range_porter.Sessions.{
  UdpSession, TrySend, queued, full, disconnected, reply_packet, touch_session, reply_batch,
}
use range_porter.UdpSend.{Sent, add_sent}
use range_porter.UdpSend.Flush.{bytes_of, add_sent-bytes_of}
use range_porter.UdpSend.Loop.{handed, flush-handed}
use range_porter.ReplyQueue.{
  reply_queue_capacity, send_batch_size, Channel, Replying, Event, offers, serves, offer, serve,
  act, run,
}

-- The packet of an offer that was taken, and the number of a full one.
abbrev pub if_queued : TrySend → ReplyPacket → List ReplyPacket
if_queued queued p = p ∷ []
if_queued _ p = []

abbrev pub if_full : TrySend → ℕ
if_full full = 1
if_full _ = 0

add_sent_keeps_drops :
    (ps : List ReplyPacket) (stats : PortStats)
    → (add_sent ps stats).udp_dropped ≡ stats.udp_dropped
unfolding add_sent add_udp_out
add_sent_keeps_drops [] stats = refl
add_sent_keeps_drops (p ∷ ps) stats = add_sent_keeps_drops ps (add_udp_out p.bytes stats)

bytes_of-append : (ps qs : List ReplyPacket) → bytes_of (ps ++ qs) ≡ bytes_of ps + bytes_of qs
bytes_of-append [] qs = omega arith
bytes_of-append (p ∷ ps) qs = omega (arith, bytes_of-append ps qs)

module _ {Q Socket : Type 0} (channel : Channel Q reply_queue_capacity) where
  -- What an event adds to the queue, takes from it, hands to the system, and drops.
  abbrev pub added : Event Socket → Replying Q Socket → List ReplyPacket
  added (offers session [] now) s = []
  added (offers session (b ∷ bs) now) s =
      let p = reply_packet session.source (b ∷ bs) in if_queued ((channel.try_send p s.queue).0) p
  added (serves answers) s = []

  abbrev pub taken : Event Socket → Replying Q Socket → List ReplyPacket
  taken (offers session payload now) s = []
  taken (serves answers) s = (channel.recv_many send_batch_size s.queue).0

  abbrev pub sent : Event Socket → Replying Q Socket → List ReplyPacket
  sent (offers session payload now) s = []
  sent (serves answers) s = handed answers ((channel.recv_many send_batch_size s.queue).0)

  abbrev pub dropped : Event Socket → Replying Q Socket → ℕ
  dropped (offers session [] now) s = 0
  dropped (offers session (b ∷ bs) now) s =
      if_full ((channel.try_send (reply_packet session.source (b ∷ bs)) s.queue).0)
  dropped (serves answers) s = 0

  -- The same of all events.
  abbrev pub all_of :
      (Event Socket → Replying Q Socket → List ReplyPacket)
      → List (Event Socket)
      → Replying Q Socket
      → List ReplyPacket
  all_of f [] s = []
  all_of f (e ∷ events) s = f e s ++ all_of f events (act channel e s)

  abbrev pub sum_of :
      (Event Socket → Replying Q Socket → ℕ) → List (Event Socket) → Replying Q Socket → ℕ
  sum_of f [] s = 0
  sum_of f (e ∷ events) s = f e s + sum_of f events (act channel e s)

  abbrev pub waiting : Replying Q Socket → List ReplyPacket
  waiting s = channel.contents s.queue

  -- One event.
  record Kept (e : Event Socket) (s : Replying Q Socket) : Type 0 where
    in_order : waiting s ++ added e s ≡ taken e s ++ waiting (act channel e s)
    bounded :
        length (waiting s) ≤ reply_queue_capacity
        → length (waiting (act channel e s)) ≤ reply_queue_capacity
    out_bytes :
        (act channel e s).table.stats.udp_out_bytes % u64_mod
        ≡ (s.table.stats.udp_out_bytes + bytes_of (sent e s)) % u64_mod
    drops :
        (act channel e s).table.stats.udp_dropped % u64_mod
        ≡ (s.table.stats.udp_dropped + dropped e s) % u64_mod

  offers-Kept :
      (session : UdpSession Socket) (b : ℕ) (bs : List ℕ) (now : ℕ) (s : Replying Q Socket)
      (o : TrySend)
      → (channel.try_send (reply_packet session.source (b ∷ bs)) s.queue).0 ≡ o
      → Kept (offers session (b ∷ bs) now) s
  unfolding act offer reply_batch touch_session record_udp_drop add_u64
  offers-Kept session b bs now s queued e =
      let (grows, room) =
        channel.try_send-queued (reply_packet session.source (b ∷ bs)) s.queue e in
      record {
        in_order = rw e (sym grows);
        bounded = λ h. omega (
          arith,
          ap length grows,
          length-append (waiting s) (reply_packet session.source (b ∷ bs) ∷ []),
          room,
        );
        out_bytes = rw e (omega arith);
        drops = rw e (omega arith);
      }
  offers-Kept session b bs now s full e =
      let (same, none_left) =
        channel.try_send-full (reply_packet session.source (b ∷ bs)) s.queue e in
      record {
        in_order = rw e (append-nil (waiting s) ∙ sym same);
        bounded = λ h. omega (arith, ap length same, h);
        out_bytes = rw e (omega arith);
        drops = rw e (omega arith);
      }
  offers-Kept session b bs now s disconnected e =
      let same = channel.try_send-disconnected (reply_packet session.source (b ∷ bs)) s.queue e in
      record {
        in_order = rw e (append-nil (waiting s) ∙ sym same);
        bounded = λ h. omega (arith, ap length same, h);
        out_bytes = rw e (omega arith);
        drops = rw e (omega arith);
      }

  serves-Kept : (answers : List Sent) (s : Replying Q Socket) → Kept (serves answers) s
  unfolding act serve add_sent
  serves-Kept answers s =
      let batch = (channel.recv_many send_batch_size s.queue).0 in
      let (front, few) = channel.recv_many-contents send_batch_size s.queue in
      record {
        in_order = append-nil (waiting s) ∙ sym front;
        bounded = λ h. omega (
          arith,
          ap length front,
          length-append batch (channel.contents ((channel.recv_many send_batch_size s.queue).1)),
          h,
        );
        out_bytes =
            rw (flush-handed answers batch s.table.stats)
              (add_sent-bytes_of (handed answers batch) s.table.stats);
        drops =
            rw (flush-handed answers batch s.table.stats)
              (omega (arith, add_sent_keeps_drops (handed answers batch) s.table.stats));
      }

  act-Kept : (e : Event Socket) (s : Replying Q Socket) → Kept e s
  act-Kept (offers session [] now) s =
      unfold act offer in
      record {
        in_order = append-nil (waiting s);
        bounded = λ h. h;
        out_bytes = omega arith;
        drops = omega arith;
      }
  act-Kept (offers session (b ∷ bs) now) s = offers-Kept session b bs now s _ refl
  act-Kept (serves answers) s = serves-Kept answers s

  run-in_order :
      (events : List (Event Socket)) (s : Replying Q Socket)
      → waiting s ++ all_of added events s ≡ all_of taken events s ++ waiting (run channel events s)
  unfolding run
  run-in_order [] s = append-nil (waiting s)
  run-in_order (e ∷ events) s =
      let s' = act channel e s in
      sym (append_assoc (waiting s) (added e s) (all_of added events s'))
      ∙ ap (λ l. l ++ all_of added events s') ((act-Kept e s).in_order)
      ∙ append_assoc (taken e s) (waiting s') (all_of added events s')
      ∙ ap (λ l. taken e s ++ l) (run-in_order events s')
      ∙ sym (append_assoc (taken e s) (all_of taken events s') (waiting (run channel events s')))

  run-bounded :
      (events : List (Event Socket)) (s : Replying Q Socket)
      → length (waiting s) ≤ reply_queue_capacity
      → length (waiting (run channel events s)) ≤ reply_queue_capacity
  unfolding run
  run-bounded [] s h = h
  run-bounded (e ∷ events) s h = run-bounded events (act channel e s) ((act-Kept e s).bounded h)

  run-counts :
      (events : List (Event Socket)) (s : Replying Q Socket)
      → ((run channel events s).table.stats.udp_out_bytes % u64_mod
          ≡ (s.table.stats.udp_out_bytes + bytes_of (all_of sent events s)) % u64_mod)
        × ((run channel events s).table.stats.udp_dropped % u64_mod
            ≡ (s.table.stats.udp_dropped + sum_of dropped events s) % u64_mod)
  unfolding run
  run-counts [] s = (omega arith, omega arith)
  run-counts (e ∷ events) s =
      let s' = act channel e s in
      let k = act-Kept e s in
      let (out, drops) = run-counts events s' in
      (
        omega (arith, out, k.out_bytes, bytes_of-append (sent e s) (all_of sent events s')),
        omega (arith, drops, k.drops),
      )

  -- Under any interleaving of reply loops and sender the sender takes the replies in the order in
  -- which they were queued: what waited and what was queued since is what was taken and what waits
  -- now. No more than 512 wait. The port counts the bytes of the replies that the system took, and
  -- the replies that found the queue full, modulo 2^64.
  pub run-fifo :
      (events : List (Event Socket)) (s : Replying Q Socket)
      → length (waiting s) ≤ reply_queue_capacity
      → (waiting s ++ all_of added events s
          ≡ all_of taken events s ++ waiting (run channel events s))
        × (length (waiting (run channel events s)) ≤ reply_queue_capacity)
        × ((run channel events s).table.stats.udp_out_bytes % u64_mod
            ≡ (s.table.stats.udp_out_bytes + bytes_of (all_of sent events s)) % u64_mod)
        × ((run channel events s).table.stats.udp_dropped % u64_mod
            ≡ (s.table.stats.udp_dropped + sum_of dropped events s) % u64_mod)
  run-fifo events s h =
      let (out, drops) = run-counts events s in
      (run-in_order events s, run-bounded events s h, out, drops)
