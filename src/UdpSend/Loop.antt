-- ===== src/UdpSend/Loop.antt =====
-- What the loop of the reply sender sends and counts.
use range_porter.Prelude.{
  ℕ, zero, suc, ◌+◌, ◌%◌, ◌≤◌, ◌≡◌, refl, sym, ap, ◌∙◌, inl, inr, Bool, true, false, List, [], ◌∷◌,
  ◌++◌, arith, length, take, drop, leb, Bool-cases, All,
}
use range_porter.Word.{u64_mod}
use range_porter.Stats.Port.{PortStats, add_udp_out}
use range_porter.UdpBatch.{ReplyPacket}
use range_porter.UdpSend.{
  Sent, sent, interrupted, failed, add_sent, flush_from, flush, Turn, cancelled, received,
  reply_loop,
}
use range_porter.UdpSend.Flush.{bytes_of, add_sent-bytes_of, effective, flush-ended}

-- The packets of a batch that the system takes, by its answers.
abbrev pub handed : List Sent → List ReplyPacket → List ReplyPacket
handed [] batch = []
handed (sent zero ∷ answers) batch = []
handed (sent (suc n) ∷ answers) batch = take (suc n) batch ++ handed answers (drop (suc n) batch)
handed (interrupted ∷ answers) batch = handed answers batch
handed (failed ∷ answers) batch = []

handed-nil : (answers : List Sent) → handed answers [] ≡ []
handed-nil [] = refl
handed-nil (sent zero ∷ answers) = refl
handed-nil (sent (suc n) ∷ answers) = handed-nil answers
handed-nil (interrupted ∷ answers) = handed-nil answers
handed-nil (failed ∷ answers) = refl

add_sent-append :
    (xs ys : List ReplyPacket) (stats : PortStats)
    → add_sent (xs ++ ys) stats ≡ add_sent ys (add_sent xs stats)
unfolding add_sent
add_sent-append [] ys stats = refl
add_sent-append (x ∷ xs) ys stats = add_sent-append xs ys (add_udp_out x.bytes stats)

drop-drop : (a b : ℕ) (l : List ReplyPacket) → drop b (drop a l) ≡ drop (a + b) l
drop-drop zero b l = let same : zero + b ≡ b = omega arith in rw same refl
drop-drop (suc a) zero [] = let same : suc a + zero ≡ suc a = omega arith in rw same refl
drop-drop (suc a) (suc b) [] =
    let same : suc a + suc b ≡ suc (a + suc b) = omega arith in rw same refl
drop-drop (suc a) b (x ∷ l) =
    let same : suc a + b ≡ suc (a + b) = omega arith in rw same (drop-drop a b l)

drop-le : (n : ℕ) (l : List ReplyPacket) → length l ≤ n → drop n l ≡ []
drop-le zero [] h = refl
drop-le zero (x ∷ l) h = absurd (omega (arith, h))
drop-le (suc n) [] h = refl
drop-le (suc n) (x ∷ l) h = drop-le n l (omega (arith, h))

-- Behind the end of the batch nothing more is sent.
add_sent-handed_end :
    (answers : List Sent) (batch : List ReplyPacket) (start : ℕ) (stats : PortStats)
    → leb (length batch) start ≡ true
    → stats ≡ add_sent (handed answers (drop start batch)) stats
unfolding add_sent
add_sent-handed_end answers batch start stats done =
    rw (drop-le start batch (ground (arith, done)), handed-nil answers) refl

flush_from-handed :
    (answers : List Sent) (batch : List ReplyPacket) (start : ℕ) (stats : PortStats)
    → (flush_from answers batch start stats).stats
      ≡ add_sent (handed answers (drop start batch)) stats
unfolding flush_from add_sent
flush_from-handed [] batch start stats = refl
flush_from-handed (sent zero ∷ answers) batch start stats =
    elim (Bool-cases (leb (length batch) start)) [
      | inl done ↦
          rw (done, flush_from) (add_sent-handed_end (sent zero ∷ answers) batch start stats done)
      | inr more ↦ rw (more, flush_from) refl
    ]
flush_from-handed (sent (suc n) ∷ answers) batch start stats =
    elim (Bool-cases (leb (length batch) start)) [
      | inl done ↦
          rw (done, flush_from)
            (add_sent-handed_end (sent (suc n) ∷ answers) batch start stats done)
      | inr more ↦
          rw (more, flush_from)
            (flush_from-handed answers batch (start + suc n)
                (add_sent (take (suc n) (drop start batch)) stats)
              ∙ ap
                  (λ l.
                    add_sent (handed answers l) (add_sent (take (suc n) (drop start batch)) stats))
                  (sym (drop-drop start (suc n) batch))
              ∙ sym (add_sent-append (take (suc n) (drop start batch)) _ stats))
    ]
flush_from-handed (interrupted ∷ answers) batch start stats =
    elim (Bool-cases (leb (length batch) start)) [
      | inl done ↦
          rw (done, flush_from) (add_sent-handed_end (interrupted ∷ answers) batch start stats done)
      | inr more ↦ rw (more, flush_from) (flush_from-handed answers batch start stats)
    ]
flush_from-handed (failed ∷ answers) batch start stats =
    elim (Bool-cases (leb (length batch) start)) [
      | inl done ↦
          rw (done, flush_from) (add_sent-handed_end (failed ∷ answers) batch start stats done)
      | inr more ↦ rw (more, flush_from) refl
    ]

-- The turns that are served, up to the one that stops the loop.
abbrev pub handed_all : List Turn → List ReplyPacket
handed_all [] = []
handed_all (cancelled ∷ turns) = []
handed_all (received [] answers ∷ turns) = []
handed_all (received (p ∷ ps) answers ∷ turns) = handed answers (p ∷ ps) ++ handed_all turns

abbrev pub is_stopped : List Turn → Bool
is_stopped [] = false
is_stopped (cancelled ∷ turns) = true
is_stopped (received [] answers ∷ turns) = true
is_stopped (received (p ∷ ps) answers ∷ turns) = is_stopped turns

-- The system answers for as many tries, interruptions left out, as the batch has packets.
abbrev pub IsAnswered : Turn → Type 0
IsAnswered cancelled = Unit
IsAnswered (received batch answers) = length batch ≤ effective answers

pub flush-handed :
    (answers : List Sent) (batch : List ReplyPacket) (stats : PortStats)
    → (flush answers batch stats).stats ≡ add_sent (handed answers batch) stats
unfolding flush
flush-handed answers batch stats = flush_from-handed answers batch 0 stats

reply_loop-add_sent :
    (turns : List Turn) (stats : PortStats)
    → All IsAnswered turns
    → reply_loop turns stats
      ≡ record { stats = add_sent (handed_all turns) stats; stopped = is_stopped turns }
unfolding reply_loop add_sent
reply_loop-add_sent [] stats h = refl
reply_loop-add_sent (cancelled ∷ turns) stats h = refl
reply_loop-add_sent (received [] answers ∷ turns) stats h = refl
reply_loop-add_sent (received (p ∷ ps) answers ∷ turns) stats (answered, h) =
    rw
      (
        flush-ended answers (p ∷ ps) stats answered,
        flush-handed answers (p ∷ ps) stats,
        reply_loop-add_sent turns (add_sent (handed answers (p ∷ ps)) stats) h,
      )
      (ap (λ s. record { stats = s; stopped = is_stopped turns })
        (sym (add_sent-append (handed answers (p ∷ ps)) (handed_all turns) stats)))

-- The sender stops at the shutdown, and at an empty queue without senders. Until then it sends,
-- batch by batch, what the system takes of each, and counts nothing else: the bytes of what was
-- sent, modulo 2^64. Each batch has as many answers, interruptions left out, as packets.
pub reply_loop-handed :
    (turns : List Turn) (stats : PortStats)
    → All IsAnswered turns
    → let r = reply_loop turns stats in
      (r.stopped ≡ is_stopped turns)
      × (r.stats ≡ add_sent (handed_all turns) stats)
      × (r.stats.udp_out_bytes % u64_mod
          ≡ (stats.udp_out_bytes + bytes_of (handed_all turns)) % u64_mod)
reply_loop-handed turns stats h =
    rw (reply_loop-add_sent turns stats h) (refl, refl, add_sent-bytes_of (handed_all turns) stats)
