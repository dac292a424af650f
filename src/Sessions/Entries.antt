-- ===== src/Sessions/Entries.antt =====
-- What any call keeps of each entry of the map: what a touch keeps, and what holds of a new session.
use range_porter.Prelude.{ℕ, ◌≤◌, ◌≡◌, refl, ◌∙◌, inl, inr, List, [], ◌∷◌, All, Option-cases}
use range_porter.Result.{Result, ok, err}
use range_porter.Net.{SocketAddr}
use range_porter.Stats.Port.{record_udp_drop}
use range_porter.Sessions.{
  UdpSession, UdpSessionTable, new_session, touch_if, touch_session, get, enter, get_or_create,
  remove_session, remove_all, listed, shutdown_all, stale, timeout_seconds, clean_up,
  forward_client_packet,
}
use range_porter.Sessions.Map.{Entry, All-touch_entries}
use range_porter.Sessions.Keeping.{
  reply_times, reply_turn-keeps, All-Unit, remove_session-All, remove_session-idle_timeout,
  remove_all-idle_timeout,
}
use range_porter.Sessions.History.{
  Call, gets_or_creates, removes, shuts_down, cleans_up, forwards, replies, call, run,
}

-- What the clock gives in a call that is no tick.
abbrev pub times : {IoError Socket : Type 0} → Call IoError Socket → List ℕ
times (gets_or_creates source opened now) = now ∷ []
times (forwards id payload sent now) = now ∷ []
times (replies session received) = reply_times received
times _ = []

-- `P` is kept by a touch at `since` or later, and holds of a session made then.
module _ {Socket : Type 0} (P : Entry Socket → Type 0) (since : ℕ)
    (touched : (a : SocketAddr) (s : UdpSession Socket) (id now : ℕ)
      → since ≤ now
      → P (a, s)
      → P (a, touch_if id now s))
    (created : (id : ℕ) (a : SocketAddr) (upstream : Socket) (now : ℕ)
      → since ≤ now
      → P (a, new_session id a upstream now)) where
  touch_session-All :
      (id now : ℕ) (t : UdpSessionTable Socket)
      → since ≤ now
      → All P t.sessions
      → All P (touch_session id now t).sessions
  unfolding touch_session
  touch_session-All id now t h p =
      All-touch_entries P id now t.sessions (λ a s q. touched a s id now h q) p

  remove_all-All :
      (l : List (SocketAddr × ℕ)) (t : UdpSessionTable Socket)
      → All P t.sessions
      → All P (remove_all l t).sessions
  unfolding remove_all
  remove_all-All [] t p = p
  remove_all-All ((a, id) ∷ l) t p =
      remove_all-All l (remove_session a id t) (remove_session-All P a id t p)

  get_or_create-All :
      {IoError : Type 0} (source : SocketAddr) (opened : Result IoError Socket) (now : ℕ)
      (t : UdpSessionTable Socket)
      → since ≤ now
      → All P t.sessions
      → All P (get_or_create source opened now t).1.sessions
  unfolding get_or_create enter
  get_or_create-All source (err e) now t h p = elim (Option-cases (get source t.sessions)) [
    | inl missing ↦ rw (missing, get_or_create) p
    | inr (s, found) ↦ rw (found, get_or_create) (touch_session-All s.id now t h p)
  ]
  get_or_create-All source (ok upstream) now t h p = elim (Option-cases (get source t.sessions)) [
    | inl missing ↦
        let new = created t.next_session_id source upstream now h in
        unfold new_session in rw (missing, get_or_create, missing, enter) (new, p)
    | inr (s, found) ↦ rw (found, get_or_create) (touch_session-All s.id now t h p)
  ]

  pub call-All :
      {IoError : Type 0} (t : UdpSessionTable Socket) (c : Call IoError Socket)
      → All (λ now. since ≤ now) (times c)
      → All P t.sessions
      → All P (call t c).sessions
  unfolding call shutdown_all clean_up forward_client_packet record_udp_drop
  call-All t (gets_or_creates source opened now) h p = get_or_create-All source opened now t (h.0) p
  call-All t (removes source id) h p = remove_session-All P source id t p
  call-All t shuts_down h p = remove_all-All (listed t.sessions) t p
  call-All t (cleans_up now) h p =
      remove_all-All (listed (stale (timeout_seconds t) now t.sessions)) t p
  call-All t (forwards id payload (err e) now) h p = p
  call-All t (forwards id payload (ok n) now) h p = touch_session-All id now t (h.0) p
  call-All t (replies session received) h p =
      reply_turn-keeps (λ r. All P r.sessions) (λ now. since ≤ now) touch_session-All (λ r q. q)
        (remove_session-All P) session received t h p

  pub run-All :
      {IoError : Type 0} (cs : List (Call IoError Socket)) (t : UdpSessionTable Socket)
      → All (λ c. All (λ now. since ≤ now) (times c)) cs
      → All P t.sessions
      → All P (run t cs).sessions
  unfolding run
  run-All [] t h p = p
  run-All (c ∷ cs) t h p = run-All cs (call t c) (h.1) (call-All t c (h.0) p)

module _ {IoError Socket : Type 0} where
  get_or_create-idle_timeout :
      (source : SocketAddr) (opened : Result IoError Socket) (now : ℕ) (t : UdpSessionTable Socket)
      → (get_or_create source opened now t).1.idle_timeout ≡ t.idle_timeout
  unfolding get_or_create enter touch_session
  get_or_create-idle_timeout source (err e) now t = elim (Option-cases (get source t.sessions)) [
    | inl missing ↦ rw (missing, get_or_create) refl
    | inr (s, found) ↦ rw (found, get_or_create) refl
  ]
  get_or_create-idle_timeout source (ok upstream) now t =
      elim (Option-cases (get source t.sessions)) [
        | inl missing ↦ unfold new_session in rw (missing, get_or_create, missing, enter) refl
        | inr (s, found) ↦ rw (found, get_or_create) refl
      ]

  pub call-idle_timeout :
      (t : UdpSessionTable Socket) (c : Call IoError Socket)
      → (call t c).idle_timeout ≡ t.idle_timeout
  unfolding call shutdown_all clean_up forward_client_packet record_udp_drop touch_session
  call-idle_timeout t (gets_or_creates source opened now) =
      get_or_create-idle_timeout source opened now t
  call-idle_timeout t (removes source id) = remove_session-idle_timeout source id t
  call-idle_timeout t shuts_down = remove_all-idle_timeout (listed t.sessions) t
  call-idle_timeout t (cleans_up now) =
      remove_all-idle_timeout (listed (stale (timeout_seconds t) now t.sessions)) t
  call-idle_timeout t (forwards id payload (err e) now) = refl
  call-idle_timeout t (forwards id payload (ok n) now) = refl
  call-idle_timeout t (replies session received) =
      reply_turn-keeps (λ r. r.idle_timeout ≡ t.idle_timeout) (λ _. Unit) (λ id now r _ e. e)
        (λ r e. e) (λ a id r e. remove_session-idle_timeout a id r ∙ e) session received t
        (All-Unit (reply_times received)) refl
