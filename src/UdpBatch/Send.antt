-- ===== src/UdpBatch/Send.antt =====
-- `send_batch`, for Linux and for other systems. The conversion of an address to the form of the
-- system (of the socket2 crate) and the system calls are parameters.
use range_porter.Prelude.{
  ℕ, suc, ◌+◌, ◌≡◌, refl, ap, ◌∙◌, ◌⊎◌, inl, inr, false, List, [], ◌∷◌, some, arith, map, take,
  Option, ◌==◌, if◌then◌else◌,
}
use mathlib.Core.Path.{ap₂}
use range_porter.Result.{Result, ok, err, Result-cases}
use range_porter.Net.{SocketAddr, v4, v6}
use range_porter.UdpBatch.{max_batch_size, ReplyPacket}
use range_porter.UdpBatch.Sockaddr.{
  Storage, inet, inet6, from_be_16, from_be_32, sockaddr_storage_to_socket_addr, Fits,
  from_be_16-from_be_16, from_be_32-from_be_32,
}

-- A message for `sendmmsg`: its bytes, and the address with the length of its form.
pub record Outgoing : Type 0 where
  pub payload : List ℕ
  pub name : Storage
  pub name_len : ℕ

module _ (into : SocketAddr → Storage × ℕ) where
  unfoldable pub socket_addr_to_sockaddr_storage : SocketAddr → Storage × ℕ
  socket_addr_to_sockaddr_storage address = into address

  unfoldable pub outgoing : ReplyPacket → Outgoing
  unfolding socket_addr_to_sockaddr_storage
  outgoing packet =
      let (storage, len) = socket_addr_to_sockaddr_storage packet.dst in
      record { payload = packet.payload; name = storage; name_len = len }

  -- The messages of one call.
  unfoldable pub messages : List ReplyPacket → List Outgoing
  unfolding outgoing
  messages packets = map outgoing (take max_batch_size packets)

  unfoldable pub send_batch :
      {IoError : Type 0} → (List Outgoing → Result IoError ℕ) → List ReplyPacket → Result IoError ℕ
  unfolding messages
  send_batch sendmmsg [] = ok 0
  send_batch sendmmsg (p ∷ ps) = sendmmsg (messages (p ∷ ps))

-- The other systems: `try_send_to k` is what the call after `k` others returns.
unfoldable pub send_each :
    {IoError : Type 0}
    → (ℕ → ReplyPacket → Result IoError ℕ)
    → ℕ
    → List ReplyPacket
    → Result IoError ℕ
send_each try_send_to sent [] = ok sent
send_each try_send_to sent (p ∷ ps) =
    let rest = send_each try_send_to (suc sent) ps in
    elim (try_send_to sent p) [ ok n ↦ rest | err e ↦ if sent == 0 then err e else ok sent ]

-- The fields that `into` gives: port and IPv4 address in network order, the others as they are.
abbrev pub IsNetworkOrder : (SocketAddr → Storage × ℕ) → Type 0
IsNetworkOrder into =
    ((ip port : ℕ) → (into (v4 ip port)).0 ≡ inet (from_be_16 port) (from_be_32 ip))
    × ((ip port flowinfo scope_id : ℕ)
        → (into (v6 ip port flowinfo scope_id)).0 ≡ inet6 (from_be_16 port) flowinfo ip scope_id)

-- An address that fits the fields of the system and is converted to its form, with the port and an
-- IPv4 address in network order, is read back as it was.
pub sockaddr_storage_to_socket_addr-into :
    (into : SocketAddr → Storage × ℕ) (a : SocketAddr)
    → IsNetworkOrder into
    → Fits a
    → sockaddr_storage_to_socket_addr (socket_addr_to_sockaddr_storage into a).0 ≡ some a
unfolding socket_addr_to_sockaddr_storage
sockaddr_storage_to_socket_addr-into into (v4 ip port) order (small_ip, small_port) =
    ap sockaddr_storage_to_socket_addr (order.0 ip port)
    ∙ unfold sockaddr_storage_to_socket_addr in
      ap₂ (λ i p. some (v4 i p)) (from_be_32-from_be_32 ip small_ip)
        (from_be_16-from_be_16 port small_port)
sockaddr_storage_to_socket_addr-into into (v6 ip port flowinfo scope_id) order small_port =
    ap sockaddr_storage_to_socket_addr (order.1 ip port flowinfo scope_id)
    ∙ unfold sockaddr_storage_to_socket_addr in
      ap (λ p. some (v6 ip p flowinfo scope_id)) (from_be_16-from_be_16 port small_port)

-- What a message says: its bytes, and the address it is for.
abbrev pub read_message : Outgoing → List ℕ × Option SocketAddr
read_message m = (m.payload, sockaddr_storage_to_socket_addr m.name)

abbrev pub addressed : ReplyPacket → List ℕ × Option SocketAddr
addressed p = (p.payload, some p.dst)

-- What `send_batch` gives the system: nothing where there is no packet, and otherwise one call, whose
-- messages are those of the first 32 packets.
abbrev pub IsHanded :
    {IoError : Type 0}
    → (List Outgoing → Result IoError ℕ)
    → List ReplyPacket
    → Result IoError ℕ
    → Type 0
IsHanded {IoError} sendmmsg packets result =
    ((packets ≡ []) × (result ≡ ok 0))
    ⊎ ((ms : List Outgoing) × (result ≡ sendmmsg ms)
        × (map read_message ms ≡ map addressed (take 32 packets)))

-- The number of calls that succeed before the first that fails.
abbrev pub leading :
    {IoError : Type 0} → (ℕ → ReplyPacket → Result IoError ℕ) → ℕ → List ReplyPacket → ℕ
leading try_send_to k [] = 0
leading try_send_to k (p ∷ ps) =
    let rest = leading try_send_to (suc k) ps in
    elim (try_send_to k p) [ ok n ↦ suc rest | err e ↦ 0 ]

leading-sent :
    {IoError : Type 0} (try_send_to : ℕ → ReplyPacket → Result IoError ℕ) (k : ℕ) (p : ReplyPacket)
    (ps : List ReplyPacket) (n : ℕ)
    → try_send_to k p ≡ ok n
    → leading try_send_to k (p ∷ ps) ≡ suc (leading try_send_to (suc k) ps)
leading-sent try_send_to k p ps n sent = rw (sent, leading) refl

leading-fails :
    {IoError : Type 0} (try_send_to : ℕ → ReplyPacket → Result IoError ℕ) (k : ℕ) (p : ReplyPacket)
    (ps : List ReplyPacket) (e : IoError)
    → try_send_to k p ≡ err e
    → leading try_send_to k (p ∷ ps) ≡ 0
leading-fails try_send_to k p ps e fails = rw (fails, leading) refl

send_each-suc :
    {IoError : Type 0} (try_send_to : ℕ → ReplyPacket → Result IoError ℕ) (k : ℕ)
    (ps : List ReplyPacket)
    → send_each try_send_to (suc k) ps ≡ ok (suc k + leading try_send_to (suc k) ps)
unfolding send_each
send_each-suc try_send_to k [] = ap ok (omega arith)
send_each-suc try_send_to k (p ∷ ps) = elim (Result-cases (try_send_to (suc k) p)) [
  | inl (n, sent) ↦
      let counts = leading-sent try_send_to (suc k) p ps n sent in
      rw (sent, send_each) (send_each-suc try_send_to (suc k) ps ∙ ap ok (omega (arith, counts)))
  | inr (e, fails) ↦
      let counts = leading-fails try_send_to (suc k) p ps e fails in
      let later : (suc k == 0) ≡ false = ground arith in
      rw (fails, send_each) (rw later (ap ok (omega (arith, counts))))
]

-- The batch of the other systems: it returns the number of packets sent before the first failure,
-- or the error where the first packet fails.
pub send_each-leading :
    {IoError : Type 0} (try_send_to : ℕ → ReplyPacket → Result IoError ℕ) (ps : List ReplyPacket)
    → (send_each try_send_to 0 ps ≡ ok (leading try_send_to 0 ps))
      ⊎ ((p : ReplyPacket) × (rest : List ReplyPacket) × (e : IoError) × (ps ≡ p ∷ rest)
          × (try_send_to 0 p ≡ err e)
          × (send_each try_send_to 0 ps ≡ err e))
unfolding send_each
send_each-leading try_send_to [] = inl refl
send_each-leading try_send_to (p ∷ ps) = elim (Result-cases (try_send_to 0 p)) [
  | inl (n, sent) ↦
      let counts = leading-sent try_send_to 0 p ps n sent in
      inl (rw (sent, send_each) (send_each-suc try_send_to 0 ps ∙ ap ok (omega (arith, counts))))
  | inr (e, fails) ↦ inr (p, ps, e, refl, fails, rw (fails, send_each) refl)
]
