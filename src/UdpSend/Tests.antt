-- ===== src/UdpSend/Tests.antt =====
-- The theorems at a batch that takes two calls and an interruption.
use range_porter.Prelude.{◌+◌, ◌%◌, ◌≡◌, refl, true, List, [], ◌∷◌, arith, take}
use range_porter.Word.{u64_mod}
use range_porter.Net.{v4}
use range_porter.Stats.Port
use range_porter.Sessions.{reply_packet}
use range_porter.UdpBatch.{ReplyPacket}
use range_porter.UdpSend.{
  Sent, sent, interrupted, failed, flush, add_sent, cancelled, received, reply_loop,
}
use range_porter.UdpSend.Flush.{bytes_of}
use range_porter.UdpSend.Loop.{reply_loop-handed}

abbrev packets : List ReplyPacket
packets =
    reply_packet (v4 167_772_161 4000) (1 ∷ 2 ∷ [])
    ∷ reply_packet (v4 167_772_162 4000) (3 ∷ [])
    ∷ reply_packet (v4 167_772_161 4000) (4 ∷ 5 ∷ 6 ∷ [])
    ∷ []

abbrev answers : List Sent
answers = sent 2 ∷ interrupted ∷ sent 1 ∷ failed ∷ []

reply_loop-handed_example :
    let turns =
      received packets (sent 1 ∷ interrupted ∷ sent 1 ∷ failed ∷ [])
      ∷ cancelled
      ∷ received packets answers
      ∷ [] in
    let r = reply_loop turns (Port.new 443) in
    (r.stopped ≡ true)
    × (r.stats ≡ add_sent (take 2 packets) (Port.new 443))
    × (r.stats.udp_out_bytes % u64_mod
        ≡ ((Port.new 443).udp_out_bytes + bytes_of (take 2 packets)) % u64_mod)
reply_loop-handed_example =
    reply_loop-handed
      (received packets (sent 1 ∷ interrupted ∷ sent 1 ∷ failed ∷ [])
        ∷ cancelled
        ∷ received packets answers
        ∷ [])
      (Port.new 443) (omega arith, (tt, (omega arith, tt)))

sends_all : (flush answers packets (Port.new 443)).stats.udp_out_bytes ≡ 6
unfolding flush Port.new Port.add_udp_out
sends_all = refl
