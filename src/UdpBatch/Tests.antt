-- ===== src/UdpBatch/Tests.antt =====
-- A buffer of two slots of four bytes, and a batch of two packets.
use range_porter.Prelude.{
  ℕ, ◌+◌, ◌*◌, ◌≤◌, ◌<◌, ◌≡◌, refl, List, [], ◌∷◌, none, some, arith, length, get_elem?,
}
use mathlib.Core.Path.{subst}
use range_porter.Result.{Result, ok}
use range_porter.Net.{SocketAddr, v4, v6}
use range_porter.UdpBatch.Sockaddr.{
  Storage, inet, inet6, other_family, from_be_16, from_be_32, sockaddr_storage_to_socket_addr,
}
use range_porter.UdpBatch.{
  BatchBuf, zeroed, new, slot, addr, Iov, iovs_of, Message, Filled, would_block, filled, Attempt,
  calls, finished, recv_batch, recv_batch_connected, ReplyPacket,
}
use range_porter.UdpBatch.Slots.{iovs_of-disjoint}
use range_porter.UdpBatch.Receive.{IsFilled, Receives, HoldsSlots, recv_batch-ok}
use range_porter.UdpBatch.Send.{Outgoing, send_batch}

data IoError : Type 0 where
  unreachable : IoError

abbrev two_slots : BatchBuf
two_slots = zeroed 2 4

makes_two_slots : new 2 4 ≡ some two_slots
unfolding new
makes_two_slots = refl

rejects_no_slots : new 0 4 ≡ none
unfolding new
rejects_no_slots = refl

iovs_of-disjoint_example :
    (l : List Iov) × (iovs_of two_slots ≡ some l)
    × ((i : ℕ) (v : Iov)
        → get_elem? l i ≡ some v
        → (v.base ≡ i * 4) × (v.len ≡ 4) × (v.base + v.len ≤ 8))
    × ((i j : ℕ) (v w : Iov)
        → i < j
        → get_elem? l i ≡ some v
        → get_elem? l j ≡ some w
        → v.base + v.len ≤ w.base)
iovs_of-disjoint_example = iovs_of-disjoint two_slots (refl, refl, refl, omega arith, omega arith)

abbrev received : Filled
received = record {
  memory = 1 ∷ 2 ∷ 0 ∷ 0 ∷ 3 ∷ 4 ∷ 5 ∷ 0 ∷ [];
  messages =
      record { msg_len = 2; name = inet 0xbb01 0x0100_007f }
      ∷ record { msg_len = 3; name = other_family 1 }
      ∷ [];
}

abbrev attempts : List (Attempt IoError)
attempts = calls would_block ∷ calls (filled received) ∷ []

received-IsFilled : (f : Filled) → Receives attempts f → IsFilled two_slots f
received-IsFilled f same =
    subst (IsFilled two_slots) same (refl, omega arith, (omega arith, (omega arith, tt)))

abbrev after : BatchBuf
after = record {
  bytes = received.memory;
  lens = 2 ∷ 3 ∷ [];
  addrs = some (v4 2_130_706_433 443) ∷ none ∷ [];
  batch_size = 2;
  slot_size = 4;
}

receives : recv_batch attempts two_slots ≡ finished (ok 2) after
unfolding recv_batch sockaddr_storage_to_socket_addr
receives = refl

recv_batch-ok_example :
    (f : Filled) × Receives attempts f
    × (2 ≡ length f.messages)
    × HoldsSlots two_slots f after
    × ((i : ℕ) (m : Message)
        → get_elem? f.messages i ≡ some m
        → addr i after ≡ some (sockaddr_storage_to_socket_addr m.name))
recv_batch-ok_example =
    recv_batch-ok attempts two_slots after 2 (refl, refl, refl, omega arith, omega arith)
      received-IsFilled receives

second_slot : slot 1 after ≡ some (3 ∷ 4 ∷ 5 ∷ [])
unfolding slot
second_slot = refl

abbrev after_connected : BatchBuf
after_connected = record after { addrs = two_slots.addrs }

receives_connected : recv_batch_connected attempts two_slots ≡ finished (ok 2) after_connected
unfolding recv_batch_connected
receives_connected = refl

-- The conversion of a little-endian Linux.
abbrev into : SocketAddr → Storage × ℕ
into (v4 ip port) = (inet (from_be_16 port) (from_be_32 ip), 16)
into (v6 ip port flowinfo scope_id) = (inet6 (from_be_16 port) flowinfo ip scope_id, 28)

abbrev packets : List ReplyPacket
packets =
    record { dst = v4 2_130_706_433 443; payload = 1 ∷ 2 ∷ []; bytes = 2 }
    ∷ record { dst = v6 1 53 0 0; payload = 3 ∷ []; bytes = 1 }
    ∷ []

-- A system that takes one message of each call.
abbrev takes_one : List Outgoing → Result IoError ℕ
takes_one [] = ok 0
takes_one (m ∷ ms) = ok 1

sends_one : send_batch into takes_one packets ≡ ok 1
unfolding send_batch
sends_one = refl
