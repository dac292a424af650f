-- ===== src/UdpSend/Flush.antt =====
-- What a flush counts, and that it comes to its end.
use range_porter.Prelude.{
  ℕ, zero, suc, ◌+◌, ◌%◌, ◌≤◌, ◌≡◌, refl, inl, inr, true, List, [], ◌∷◌, arith, length, take, drop,
  leb, Bool-cases,
}
use range_porter.Word.{u64_mod, add_u64}
use range_porter.Stats.Port.{PortStats, add_udp_out}
use range_porter.UdpBatch.{ReplyPacket}
use range_porter.UdpSend.{Sent, sent, interrupted, failed, add_sent, flush_from, flush}

abbrev pub bytes_of : List ReplyPacket → ℕ
bytes_of [] = 0
bytes_of (p ∷ ps) = p.bytes + bytes_of ps

pub add_sent-bytes_of :
    (ps : List ReplyPacket) (stats : PortStats)
    → (add_sent ps stats).udp_out_bytes % u64_mod ≡ (stats.udp_out_bytes + bytes_of ps) % u64_mod
unfolding add_sent add_udp_out add_u64
add_sent-bytes_of [] stats = omega arith
add_sent-bytes_of (p ∷ ps) stats = omega (arith, add_sent-bytes_of ps (add_udp_out p.bytes stats))

bytes_of-take :
    (a b : ℕ) (l : List ReplyPacket)
    → bytes_of (take (a + b) l) ≡ bytes_of (take a l) + bytes_of (take b (drop a l))
bytes_of-take zero b l = let same : zero + b ≡ b = omega arith in rw same (omega arith)
bytes_of-take (suc a) zero [] = let same : suc a + zero ≡ suc a = omega arith in rw same refl
bytes_of-take (suc a) (suc b) [] =
    let same : suc a + suc b ≡ suc (a + suc b) = omega arith in rw same refl
bytes_of-take (suc a) b (p ∷ l) =
    let same : suc a + b ≡ suc (a + b) = omega arith in rw same (omega (arith, bytes_of-take a b l))

flush_from-bytes_of :
    (answers : List Sent) (batch : List ReplyPacket) (start base : ℕ) (stats : PortStats)
    → stats.udp_out_bytes % u64_mod ≡ (base + bytes_of (take start batch)) % u64_mod
    → let f = flush_from answers batch start stats in
      f.stats.udp_out_bytes % u64_mod ≡ (base + bytes_of (take f.start batch)) % u64_mod
unfolding flush_from
flush_from-bytes_of [] batch start base stats h = h
flush_from-bytes_of (sent zero ∷ answers) batch start base stats h =
    elim (Bool-cases (leb (length batch) start)) [
      | inl done ↦ rw (done, flush_from) h
      | inr more ↦ rw (more, flush_from) h
    ]
flush_from-bytes_of (sent (suc n) ∷ answers) batch start base stats h =
    let now_sent = take (suc n) (drop start batch) in
    let counted : (add_sent now_sent stats).udp_out_bytes % u64_mod
        ≡ (base + bytes_of (take (start + suc n) batch)) % u64_mod =
      omega (arith, add_sent-bytes_of now_sent stats, bytes_of-take start (suc n) batch, h) in
    elim (Bool-cases (leb (length batch) start)) [
      | inl done ↦ rw (done, flush_from) h
      | inr more ↦
          rw (more, flush_from)
            (flush_from-bytes_of answers batch (start + suc n) base (add_sent now_sent stats)
              counted)
    ]
flush_from-bytes_of (interrupted ∷ answers) batch start base stats h =
    elim (Bool-cases (leb (length batch) start)) [
      | inl done ↦ rw (done, flush_from) h
      | inr more ↦ rw (more, flush_from) (flush_from-bytes_of answers batch start base stats h)
    ]
flush_from-bytes_of (failed ∷ answers) batch start base stats h =
    elim (Bool-cases (leb (length batch) start)) [
      | inl done ↦ rw (done, flush_from) h
      | inr more ↦ rw (more, flush_from) h
    ]

-- The answers that are not an interruption.
abbrev pub effective : List Sent → ℕ
effective [] = 0
effective (interrupted ∷ answers) = effective answers
effective (_ ∷ answers) = suc (effective answers)

flush_from-ended :
    (answers : List Sent) (batch : List ReplyPacket) (start : ℕ) (stats : PortStats)
    → length batch ≤ start + effective answers
    → (flush_from answers batch start stats).ended ≡ true
unfolding flush_from
flush_from-ended [] batch start stats h = ground arith
flush_from-ended (sent zero ∷ answers) batch start stats h = ground arith
flush_from-ended (sent (suc n) ∷ answers) batch start stats h =
    let rest =
      flush_from-ended answers batch (start + suc n)
        (add_sent (take (suc n) (drop start batch)) stats) (omega arith) in
    ground arith
flush_from-ended (interrupted ∷ answers) batch start stats h =
    let rest = flush_from-ended answers batch start stats h in ground arith
flush_from-ended (failed ∷ answers) batch start stats h = ground arith

-- Whatever the system calls answer, the port's counter of bytes sent to clients grows, modulo 2^64,
-- by the bytes of the packets up to where the flush stopped.
pub flush-bytes_of :
    (answers : List Sent) (batch : List ReplyPacket) (stats : PortStats)
    → let f = flush answers batch stats in
      f.stats.udp_out_bytes % u64_mod
      ≡ (stats.udp_out_bytes + bytes_of (take f.start batch)) % u64_mod
unfolding flush
flush-bytes_of answers batch stats =
    flush_from-bytes_of answers batch 0 stats.udp_out_bytes stats (omega arith)

-- A flush comes to its end where as many answers as the batch has packets are no interruption.
pub flush-ended :
    (answers : List Sent) (batch : List ReplyPacket) (stats : PortStats)
    → length batch ≤ effective answers
    → (flush answers batch stats).ended ≡ true
unfolding flush
flush-ended answers batch stats enough = flush_from-ended answers batch 0 stats (omega arith)
