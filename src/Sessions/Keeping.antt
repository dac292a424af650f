-- ===== src/Sessions/Keeping.antt =====
-- What a removal of sessions and a turn of the reply loop keep: whatever their accesses to the table
-- keep.
use range_porter.Prelude.{
  arith, ℕ, ◌≡◌, inl, inr, List, [], ◌∷◌, map, All, ◌==◌, Bool-cases, Option-cases, refl, ◌∙◌,
}
use range_porter.Net.{SocketAddr}
use range_porter.Stats.Port.{record_udp_drop}
use range_porter.Sessions.{
  UdpSession, UdpSessionTable, Datagram, TrySend, queued, full, disconnected, Received, cancelled,
  transient_error, other_error, batch, get, touch_session, close, remove_session, remove_all,
  reply_batch, end_replies, reply_turn,
}
use range_porter.Sessions.Map.{Entry, All-remove}

-- The times at which a batch touches its session, at most.
abbrev pub reply_times : Received → List ℕ
reply_times (batch ds) = map (λ d. d.now) ds
reply_times _ = []

pub All-Unit : {A : Type 0} (xs : List A) → All (λ _. Unit {0}) xs
All-Unit [] = tt
All-Unit (x ∷ xs) = (tt, All-Unit xs)

module _ {Socket : Type 0} where
  pub remove_session-All :
      (P : Entry Socket → Type 0) (source : SocketAddr) (id : ℕ) (t : UdpSessionTable Socket)
      → All P t.sessions
      → All P (remove_session source id t).sessions
  unfolding remove_session close
  remove_session-All P source id t p = elim (Option-cases (get source t.sessions)) [
    | inl missing ↦ rw (missing, remove_session) p
    | inr (s, found) ↦ elim (Bool-cases (s.id == id)) [
      | inl same ↦ rw (found, remove_session, same) (All-remove P source t.sessions p)
      | inr other ↦ rw (found, remove_session, other) p
    ]
  ]

  pub remove_session-idle_timeout :
      (source : SocketAddr) (id : ℕ) (t : UdpSessionTable Socket)
      → (remove_session source id t).idle_timeout ≡ t.idle_timeout
  unfolding remove_session close
  remove_session-idle_timeout source id t = ground arith

  pub remove_session-next_session_id :
      (source : SocketAddr) (id : ℕ) (t : UdpSessionTable Socket)
      → (remove_session source id t).next_session_id ≡ t.next_session_id
  unfolding remove_session close
  remove_session-next_session_id source id t = ground arith

  pub remove_all-idle_timeout :
      (l : List (SocketAddr × ℕ)) (t : UdpSessionTable Socket)
      → (remove_all l t).idle_timeout ≡ t.idle_timeout
  unfolding remove_all
  remove_all-idle_timeout [] t = refl
  remove_all-idle_timeout ((a, id) ∷ l) t =
      remove_all-idle_timeout l (remove_session a id t) ∙ remove_session-idle_timeout a id t

-- `P` is kept by a touch at a time of `Q`, by the count of a drop and by a removal.
module _ {Socket : Type 0} (P : UdpSessionTable Socket → Type 0) (Q : ℕ → Type 0)
    (touches : (id now : ℕ) (t : UdpSessionTable Socket) → Q now → P t → P (touch_session id now t))
    (drops : (t : UdpSessionTable Socket) → P t → P (record t { stats = record_udp_drop t.stats }))
    (removes : (source : SocketAddr) (id : ℕ) (t : UdpSessionTable Socket)
      → P t
      → P (remove_session source id t)) where
  reply_first-keeps :
      (session : UdpSession Socket) (payload : List ℕ) (outcome : TrySend) (now : ℕ)
      (ds : List Datagram) (t : UdpSessionTable Socket)
      → Q now
      → P t
      → ((r : UdpSessionTable Socket) → P r → P (reply_batch session ds r).table)
      → P
          (reply_batch session
            (record { payload = payload; outcome = outcome; now = now } ∷ ds)
            t).table
  unfolding reply_batch
  reply_first-keeps session [] o now ds t q p rest = rest t p
  reply_first-keeps session (b ∷ bs) queued now ds t q p rest =
      rest (touch_session session.id now t) (touches session.id now t q p)
  reply_first-keeps session (b ∷ bs) full now ds t q p rest =
      rest (record t { stats = record_udp_drop t.stats }) (drops t p)
  reply_first-keeps session (b ∷ bs) disconnected now ds t q p rest = p

  reply_batch-keeps :
      (session : UdpSession Socket) (ds : List Datagram) (t : UdpSessionTable Socket)
      → All Q (map (λ d. d.now) ds)
      → P t
      → P (reply_batch session ds t).table
  unfolding reply_batch
  reply_batch-keeps session [] t q p = p
  reply_batch-keeps session (d ∷ ds) t q p =
      reply_first-keeps session (d.payload) (d.outcome) (d.now) ds t (q.0) p
        (λ r. reply_batch-keeps session ds r (q.1))

  pub reply_turn-keeps :
      (session : UdpSession Socket) (received : Received) (t : UdpSessionTable Socket)
      → All Q (reply_times received)
      → P t
      → P (reply_turn session received t).table
  unfolding reply_turn end_replies
  reply_turn-keeps session cancelled t q p = removes session.source session.id t p
  reply_turn-keeps session (batch ds) t q p =
      let after = reply_batch-keeps session ds t q p in
      elim (Bool-cases (reply_batch session ds t).goes_on) [
        | inl on ↦ rw (on, reply_turn) after
        | inr off ↦ rw (off, reply_turn) (removes session.source session.id _ after)
      ]
  reply_turn-keeps session transient_error t q p = p
  reply_turn-keeps session other_error t q p = removes session.source session.id t p
