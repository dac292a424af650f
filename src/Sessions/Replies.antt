-- ===== src/Sessions/Replies.antt =====
-- The datagrams that come back from the target: queued for the client, or counted as dropped.
use range_porter.Prelude.{ℕ, ◌+◌, ◌%◌, ◌≡◌, refl, ap, List, [], ◌∷◌, arith, length}
use range_porter.Word.{u64_mod, add_u64}
use range_porter.Net.{SocketAddr}
use range_porter.Stats.Port.{record_udp_drop}
use range_porter.Sessions.{
  UdpSession, UdpSessionTable, reply_packet, Datagram, TrySend, queued, full, disconnected,
  touch_session, reply_batch,
}
use range_porter.UdpBatch.{ReplyPacket}

-- The datagrams of a batch that are handed to a connected queue: the nonempty ones before the first
-- that finds it disconnected.
abbrev add_offered : List ℕ → TrySend → Datagram → List Datagram → List Datagram
add_offered [] outcome d ds = ds
add_offered (b ∷ bs) disconnected d ds = []
add_offered (b ∷ bs) _ d ds = d ∷ ds

abbrev pub offered : List Datagram → List Datagram
offered [] = []
offered (d ∷ ds) = add_offered (d.payload) (d.outcome) d (offered ds)

-- The packets of those that the queue takes, and the number of those that find it full.
abbrev add_packet : TrySend → ReplyPacket → List ReplyPacket → List ReplyPacket
add_packet queued p ps = p ∷ ps
add_packet _ p ps = ps

abbrev pub taken : SocketAddr → List Datagram → List ReplyPacket
taken dst [] = []
taken dst (d ∷ ds) = add_packet (d.outcome) (reply_packet dst (d.payload)) (taken dst ds)

abbrev one_full : TrySend → ℕ
one_full full = 1
one_full _ = 0

abbrev pub refused : List Datagram → ℕ
refused [] = 0
refused (d ∷ ds) = one_full (d.outcome) + refused ds

module _ {Socket : Type 0} where
  -- The packets of a batch and the drops that it counts.
  abbrev Accounted : UdpSession Socket → List Datagram → UdpSessionTable Socket → Type 0
  Accounted session ds t =
      let after = reply_batch session ds t in
      (after.packets ≡ taken session.source (offered ds))
      × (after.table.stats.udp_dropped % u64_mod
          ≡ (t.stats.udp_dropped + refused (offered ds)) % u64_mod)
      × (length after.packets + refused (offered ds) ≡ length (offered ds))

  reply_first-Accounted :
      (session : UdpSession Socket) (payload : List ℕ) (outcome : TrySend) (now : ℕ)
      (ds : List Datagram) (t : UdpSessionTable Socket)
      → ((r : UdpSessionTable Socket) → Accounted session ds r)
      → Accounted session (record { payload = payload; outcome = outcome; now = now } ∷ ds) t
  unfolding reply_batch record_udp_drop touch_session add_u64
  reply_first-Accounted session [] outcome now ds t rest = rest t
  reply_first-Accounted session (b ∷ bs) queued now ds t rest =
      let (packets, drops, all) = rest (touch_session session.id now t) in
      (
        ap (λ ps. reply_packet session.source (b ∷ bs) ∷ ps) packets,
        omega (arith, drops),
        omega (arith, all),
      )
  reply_first-Accounted session (b ∷ bs) full now ds t rest =
      let (packets, drops, all) = rest (record t { stats = record_udp_drop t.stats }) in
      (packets, omega (arith, drops), omega (arith, all))
  reply_first-Accounted session (b ∷ bs) disconnected now ds t rest = (refl, omega arith, refl)

  -- Of a batch of datagrams from the target, those that are handed to a connected queue are the
  -- nonempty ones before the first that finds it disconnected. The packets queued are those that
  -- the queue takes, in order, whole and to the session's client; the drop counter grows modulo
  -- 2^64 by the number of those that find it full; and each of them is queued or dropped.
  pub reply_batch-offered :
      (session : UdpSession Socket) (ds : List Datagram) (t : UdpSessionTable Socket)
      → let after = reply_batch session ds t in
        (after.packets ≡ taken session.source (offered ds))
        × (after.table.stats.udp_dropped % u64_mod
            ≡ (t.stats.udp_dropped + refused (offered ds)) % u64_mod)
        × (length after.packets + refused (offered ds) ≡ length (offered ds))
  unfolding reply_batch
  reply_batch-offered session [] t = (refl, omega arith, refl)
  reply_batch-offered session (d ∷ ds) t =
      reply_first-Accounted session (d.payload) (d.outcome) (d.now) ds t
        (reply_batch-offered session ds)
