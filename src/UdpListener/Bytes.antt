-- ===== src/UdpListener/Bytes.antt =====
-- The bytes that a batch brings to the port's counter.
use range_porter.Prelude.{
  ℕ, suc, ◌+◌, ◌*◌, ◌%◌, ◌≡◌, refl, ap, inl, inr, List, [], ◌∷◌, Option, none, some, arith, length,
  take, drop, Option-cases,
}
use range_porter.Word.{u64_mod, add_u64}
use range_porter.Result.{ok}
use range_porter.Text.{is_empty}
use range_porter.Net.{SocketAddr}
use range_porter.Stats.Port.{add_udp_in, record_udp_flow_open}
use range_porter.UdpBatch.{BatchBuf, Message, Filled}
use range_porter.UdpBatch.Sockaddr.{sockaddr_storage_to_socket_addr}
use range_porter.Sessions.{
  UdpSession, UdpSessionTable, get, touch, enter, touch_session, get_or_create,
  forward_client_packet, new_session,
}
use range_porter.UdpListener.{Io, forward, serve_datagram, serve_slots}
use range_porter.UdpListener.Serve.{IsReceipt, serve_bytes, deliver, serve_slots-deliver}

-- The bytes of the messages from `i` on that have a sender.
abbrev message_bytes : Option SocketAddr → ℕ → ℕ
message_bytes none n = 0
message_bytes (some source) n = n

abbrev pub received_bytes : (size : ℕ) → List ℕ → ℕ → List Message → ℕ
received_bytes size memory i [] = 0
received_bytes size memory i (m ∷ ms) =
    message_bytes (sockaddr_storage_to_socket_addr m.name)
      (length (take m.msg_len (drop (i * size) memory)))
    + received_bytes size memory (suc i) ms

module _ {IoError Socket : Type 0} where
  -- A socket is opened, and the datagram is sent.
  abbrev pub Succeeds : Io IoError Socket → Type 0
  Succeeds io = ((s : Socket) × (io.opened ≡ ok s)) × ((n : ℕ) × (io.sent ≡ ok n))

  created-bytes :
      (source : SocketAddr) (s : Socket) (now : ℕ) (t : UdpSessionTable Socket)
      → (session : UdpSession Socket) × ((get_or_create {IoError = IoError} source (ok s) now t).0
          ≡ ok session)
        × ((get_or_create {IoError = IoError} source (ok s) now t).1.stats.udp_in_bytes
            ≡ t.stats.udp_in_bytes)
  unfolding get_or_create enter touch_session record_udp_flow_open new_session
  created-bytes source s now t = elim (Option-cases (get source t.sessions)) [
    | inl missing ↦
        rw (missing, get_or_create)
          (rw (missing, enter) (new_session t.next_session_id source s now, refl, refl))
    | inr (old, found) ↦ rw (found, get_or_create) (touch now old, refl, refl)
  ]

  serve_datagram-bytes :
      (source : SocketAddr) (payload : List ℕ) (io : Io IoError Socket) (t : UdpSessionTable Socket)
      → Succeeds io
      → (serve_datagram source payload io t).stats.udp_in_bytes
        ≡ add_u64 t.stats.udp_in_bytes (length payload)
  unfolding serve_datagram forward forward_client_packet touch_session add_udp_in
  serve_datagram-bytes source payload io t ((s, opened), (n, sent)) =
      let (session, made, same) = created-bytes source s io.opened_at t in
      rw opened (
        rw (made, forward)
          (rw (sent, forward_client_packet) (ap (λ k. add_u64 k (length payload)) same)))

  serve_bytes-bytes :
      (sender : Option SocketAddr) (payload : List ℕ) (io : Io IoError Socket)
      (t : UdpSessionTable Socket)
      → Succeeds io
      → (serve_bytes sender payload io t).stats.udp_in_bytes % u64_mod
        ≡ (t.stats.udp_in_bytes + message_bytes sender (length payload)) % u64_mod
  unfolding add_u64
  serve_bytes-bytes none payload io t ok_ = omega arith
  serve_bytes-bytes (some source) [] io t ok_ = unfold is_empty in omega arith
  serve_bytes-bytes (some source) (b ∷ bs) io t ok_ =
      unfold is_empty in omega (arith, serve_datagram-bytes source (b ∷ bs) io t ok_)

  deliver-bytes :
      (size : ℕ) (memory : List ℕ) (ios : ℕ → Io IoError Socket) (i : ℕ) (ms : List Message)
      (t : UdpSessionTable Socket)
      → ((k : ℕ) → Succeeds (ios k))
      → (deliver size memory ios i ms t).stats.udp_in_bytes % u64_mod
        ≡ (t.stats.udp_in_bytes + received_bytes size memory i ms) % u64_mod
  deliver-bytes size memory ios i [] t all_ok = omega arith
  deliver-bytes size memory ios i (m ∷ ms) t all_ok =
      let sender = sockaddr_storage_to_socket_addr m.name in
      let payload = take m.msg_len (drop (i * size) memory) in
      let first = serve_bytes-bytes sender payload (ios i) t (all_ok i) in
      let rest : (deliver size memory ios i (m ∷ ms) t).stats.udp_in_bytes % u64_mod
          ≡ ((serve_bytes sender payload (ios i) t).stats.udp_in_bytes
              + received_bytes size memory (suc i) ms)
            % u64_mod =
        deliver-bytes size memory ios (suc i) ms (serve_bytes sender payload (ios i) t) all_ok in
      let sum : received_bytes size memory i (m ∷ ms)
          ≡ message_bytes sender (length payload) + received_bytes size memory (suc i) ms =
        refl in
      omega (arith, first, rest, sum)

  -- A receipt whose sockets are all opened and whose datagrams are all sent: the loop over the slots
  -- does not panic, and the port's counter of bytes from the clients grows, modulo 2^64, by the
  -- bytes of the messages that have a sender's address.
  pub serve_slots-bytes :
      (before buf : BatchBuf) (count : ℕ) (f : Filled) (ios : ℕ → Io IoError Socket)
      (t : UdpSessionTable Socket)
      → IsReceipt before count f buf
      → ((k : ℕ) → Succeeds (ios k))
      → (u : UdpSessionTable Socket) × (serve_slots 0 count buf ios t ≡ some u)
        × (u.stats.udp_in_bytes % u64_mod
            ≡ (t.stats.udp_in_bytes + received_bytes before.slot_size f.memory 0 f.messages)
              % u64_mod)
  serve_slots-bytes before buf count f ios t receipt all_ok = (
    deliver before.slot_size f.memory ios 0 f.messages t,
    serve_slots-deliver before buf count f ios t receipt,
    deliver-bytes before.slot_size f.memory ios 0 f.messages t all_ok,
  )
