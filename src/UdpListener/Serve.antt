-- ===== src/UdpListener/Serve.antt =====
-- A batch that was received is served datagram by datagram, by calls on the session table.
use range_porter.Prelude.{
  ℕ, suc, ◌+◌, ◌*◌, ◌≤◌, ◌≡◌, refl, ap, ◌∙◌, inl, inr, List, [], ◌∷◌, ◌++◌, Option, none, some,
  arith, length, length-append, take, drop, get_elem?, if◌then◌else◌, Bool-cases,
}
use range_porter.Result.{Result-cases}
use range_porter.Text.{is_empty}
use range_porter.Net.{SocketAddr}
use range_porter.UdpBatch.{BatchBuf, slot, addr, Message, Filled}
use range_porter.UdpBatch.Sockaddr.{sockaddr_storage_to_socket_addr}
use range_porter.UdpBatch.Receive.{HoldsSlots}
use range_porter.Sessions.{UdpSessionTable, get_or_create}
use range_porter.Sessions.History.{Call, gets_or_creates, forwards, call, run, run-append}
use range_porter.UdpListener.{Io, forward, serve_datagram, serve_slot, serve_slots}

-- The buffer holds the datagrams of a receipt, as `recv_batch` leaves it.
abbrev pub IsReceipt : BatchBuf → ℕ → Filled → BatchBuf → Type 0
IsReceipt before count f buf =
    (count ≡ length f.messages)
    × HoldsSlots before f buf
    × ((i : ℕ) (m : Message)
        → get_elem? f.messages i ≡ some m
        → addr i buf ≡ some (sockaddr_storage_to_socket_addr m.name))

-- What is done to the table is done by a number of calls, at most.
abbrev pub ByCalls :
    {Socket : Type 0}
    → (IoError : Type 0) → ℕ
    → UdpSessionTable Socket
    → UdpSessionTable Socket
    → Type 0
ByCalls {Socket} IoError n t u =
    (cs : List (Call IoError Socket)) × (length cs ≤ n) × (run t cs ≡ u)

pub ByCalls-append :
    {Socket : Type 0} (IoError : Type 0) (n k : ℕ) (t u v : UdpSessionTable Socket)
    → ByCalls IoError n t u
    → ByCalls IoError k u v
    → ByCalls IoError (n + k) t v
ByCalls-append IoError n k t u v (cs, few, reach) (ds, few', reach') = (
  cs ++ ds,
  omega (arith, length-append cs ds),
  run-append cs ds t ∙ ap (λ w. run w ds) reach ∙ reach',
)

module _ {IoError Socket : Type 0} where
  -- A datagram without an address, or without bytes, is passed over.
  abbrev pub serve_bytes :
      Option SocketAddr
      → List ℕ
      → Io IoError Socket
      → UdpSessionTable Socket
      → UdpSessionTable Socket
  serve_bytes none payload io t = t
  serve_bytes (some source) payload io t =
      if is_empty payload then t else serve_datagram source payload io t

  -- The messages from `i` on, with the bytes that the system wrote for each.
  abbrev pub deliver :
      (size : ℕ)
      → List ℕ
      → (ℕ → Io IoError Socket)
      → ℕ
      → List Message
      → UdpSessionTable Socket
      → UdpSessionTable Socket
  deliver size memory ios i [] t = t
  deliver size memory ios i (m ∷ ms) t = deliver size memory ios (suc i) ms (
      serve_bytes (sockaddr_storage_to_socket_addr m.name) (take m.msg_len (drop (i * size) memory))
        (ios i) t)

  serve_slot-serve_bytes :
      (i : ℕ) (buf : BatchBuf) (io : Io IoError Socket) (t : UdpSessionTable Socket)
      (sender : Option SocketAddr) (payload : List ℕ)
      → addr i buf ≡ some sender
      → slot i buf ≡ some payload
      → serve_slot i buf io t ≡ some (serve_bytes sender payload io t)
  unfolding serve_slot
  serve_slot-serve_bytes i buf io t none payload a s = rw (a, serve_slot) refl
  serve_slot-serve_bytes i buf io t (some source) payload a s =
      rw (a, serve_slot)
        (rw (s, serve_slot)
          (elim (Bool-cases (is_empty payload)) [
            | inl empty ↦ rw empty refl
            | inr full ↦ rw full refl
          ]))

  serve_slots-deliver_from :
      (size : ℕ) (memory : List ℕ) (ios : ℕ → Io IoError Socket) (buf : BatchBuf)
      (ms : List Message) (i : ℕ) (t : UdpSessionTable Socket)
      → ((k : ℕ) (m : Message)
          → get_elem? ms k ≡ some m
          → (addr (i + k) buf ≡ some (sockaddr_storage_to_socket_addr m.name))
            × (slot (i + k) buf ≡ some (take m.msg_len (drop ((i + k) * size) memory))))
      → serve_slots i (length ms) buf ios t ≡ some (deliver size memory ios i ms t)
  unfolding serve_slots
  serve_slots-deliver_from size memory ios buf [] i t held = refl
  serve_slots-deliver_from size memory ios buf (m ∷ ms) i t held =
      let here : i + 0 ≡ i = omega arith in
      let (a, s) = held 0 m refl in
      let served = serve_slot-serve_bytes i buf (ios i) t _ _ (rw here at a) (rw here at s) in
      rw served (
        serve_slots-deliver_from size memory ios buf ms (suc i) _ (λ k n e.
          let next : i + suc k ≡ suc i + k = omega arith in rw next at (held (suc k) n e)))

  -- The loop over the slots of a receipt does not panic, and it serves the bytes that the system
  -- wrote for each message, in order, with the sender's address.
  pub serve_slots-deliver :
      (before buf : BatchBuf) (count : ℕ) (f : Filled) (ios : ℕ → Io IoError Socket)
      (t : UdpSessionTable Socket)
      → IsReceipt before count f buf
      → serve_slots 0 count buf ios t ≡ some (deliver before.slot_size f.memory ios 0 f.messages t)
  serve_slots-deliver before buf count f ios t (counted, (valid, slots), names) = rw counted (
      serve_slots-deliver_from before.slot_size f.memory ios buf f.messages 0 t
        (λ k m e. let at_k : 0 + k ≡ k = omega arith in rw at_k (names k m e, slots k m e)))

  serve_datagram-ByCalls :
      (source : SocketAddr) (payload : List ℕ) (io : Io IoError Socket) (t : UdpSessionTable Socket)
      → ByCalls IoError 2 t (serve_datagram source payload io t)
  unfolding serve_datagram forward run call
  serve_datagram-ByCalls source payload io t =
      elim (Result-cases (get_or_create source io.opened io.opened_at t).0) [
        | inl (session, made) ↦ (
          gets_or_creates source io.opened io.opened_at
              ∷ forwards session.id payload io.sent io.sent_at
              ∷ [],
          omega arith,
          rw (made, forward) refl,
        )
        | inr (e, failed) ↦ (
          gets_or_creates source io.opened io.opened_at ∷ [],
          omega arith,
          rw (failed, forward) refl,
        )
      ]

  serve_bytes-ByCalls :
      (sender : Option SocketAddr) (payload : List ℕ) (io : Io IoError Socket)
      (t : UdpSessionTable Socket)
      → ByCalls IoError 2 t (serve_bytes sender payload io t)
  unfolding run
  serve_bytes-ByCalls none payload io t = ([], omega arith, refl)
  serve_bytes-ByCalls (some source) payload io t = elim (Bool-cases (is_empty payload)) [
    | inl empty ↦ rw empty ([], omega arith, refl)
    | inr full ↦ rw full (serve_datagram-ByCalls source payload io t)
  ]

  pub deliver-ByCalls :
      (size : ℕ) (memory : List ℕ) (ios : ℕ → Io IoError Socket) (i : ℕ) (ms : List Message)
      (t : UdpSessionTable Socket)
      → ByCalls IoError (2 * length ms) t (deliver size memory ios i ms t)
  unfolding run
  deliver-ByCalls size memory ios i [] t = ([], omega arith, refl)
  deliver-ByCalls size memory ios i (m ∷ ms) t =
      let first =
        serve_bytes-ByCalls (sockaddr_storage_to_socket_addr m.name)
          (take m.msg_len (drop (i * size) memory)) (ios i) t in
      let rest = deliver-ByCalls size memory ios (suc i) ms _ in
      let (cs, few, reach) = ByCalls-append IoError 2 (2 * length ms) _ _ _ first rest in
      (cs, omega (arith, few), reach)
