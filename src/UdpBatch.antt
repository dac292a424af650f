-- ===== src/UdpBatch.antt =====
-- src/listener/udp_batch.rs: the buffers of received datagrams. A byte is a number, and memory is
-- the list of its bytes. What `recvmmsg` leaves in memory is an argument.
pub mod Sockaddr
pub mod Slots
pub mod Receive
pub mod Fallback
pub mod Send
mod Tests
use range_porter.Prelude.{
  ℕ, zero, suc, ◌+◌, ◌*◌, ◌≤◌, ◌≡◌, Bool, true, false, ◌&&◌, List, [], ◌∷◌, Option, none, some,
  length, take, drop, get_elem?, set, replicate, ltb, leb, if◌then◌else◌, All,
}
use range_porter.Result.{Result, ok, err}
use range_porter.Net.{SocketAddr}
use range_porter.UdpBatch.Sockaddr.{Storage, sockaddr_storage_to_socket_addr}

abbrev pub max_batch_size : ℕ
max_batch_size = 32

abbrev pub max_datagram : ℕ
max_datagram = 65_535

abbrev pub listener_batch_size : ℕ
listener_batch_size = 32

abbrev pub session_batch_size : ℕ
session_batch_size = 8

pub record BatchBuf : Type 0 where
  pub bytes : List ℕ
  pub lens : List ℕ
  pub addrs : List (Option SocketAddr)
  pub batch_size : ℕ
  pub slot_size : ℕ

-- The chain of steps that may panic.
infixl 5 ◌>>=◌
abbrev pub ◌>>=◌ {ℓ κ} : {A : Type ℓ} {B : Type κ} → Option A → (A → Option B) → Option B
none >>= f = none
some a >>= f = f a

abbrev pub zeroed : ℕ → ℕ → BatchBuf
zeroed batch_size slot_size = record {
  bytes = replicate (batch_size * slot_size) 0;
  lens = replicate batch_size 0;
  addrs = replicate batch_size none;
  batch_size = batch_size;
  slot_size = slot_size;
}

-- `none` where the assertion fails.
unfoldable pub new : ℕ → ℕ → Option BatchBuf
new batch_size slot_size =
    if ltb 0 batch_size && leb batch_size max_batch_size
    then some (zeroed batch_size slot_size)
    else none

-- `&bytes[offset..offset + len]`, which panics out of range.
unfoldable pub slice : List ℕ → ℕ → ℕ → Option (List ℕ)
slice bytes offset len =
    if leb (offset + len) (length bytes) then some (take len (drop offset bytes)) else none

unfoldable pub slot : ℕ → BatchBuf → Option (List ℕ)
unfolding slice
slot index buf = do len ← get_elem? buf.lens index; slice buf.bytes (index * buf.slot_size) len

unfoldable pub addr : ℕ → BatchBuf → Option (Option SocketAddr)
addr index buf = get_elem? buf.addrs index

pub record ReplyPacket : Type 0 where
  pub dst : SocketAddr
  pub payload : List ℕ
  pub bytes : ℕ

-- A part of the data, as an `iovec` gives it to the system.
pub record Iov : Type 0 where
  pub base : ℕ
  pub len : ℕ

unfoldable pub slot_mut_full : ℕ → BatchBuf → Option Iov
slot_mut_full index buf =
    if leb (index * buf.slot_size + buf.slot_size) (length buf.bytes)
    then some (record { base = index * buf.slot_size; len = buf.slot_size })
    else none

-- The first loop, over the `count` slots from `i` on.
unfoldable pub iovs_from : ℕ → ℕ → BatchBuf → Option (List Iov)
unfolding slot_mut_full
iovs_from i zero buf = some []
iovs_from i (suc count) buf = do
  iov ← slot_mut_full i buf
  iovs ← iovs_from (suc i) count buf
  some (iov ∷ iovs)

unfoldable pub iovs_of : BatchBuf → Option (List Iov)
unfolding iovs_from
iovs_of buf = iovs_from 0 buf.batch_size buf

-- What the system writes for one datagram besides its bytes.
pub record Message : Type 0 where
  pub msg_len : ℕ
  pub name : Storage

-- A call of `recvmmsg` that received: the bytes of the buffer behind it, and the messages.
pub record Filled : Type 0 where
  pub memory : List ℕ
  pub messages : List Message

-- What the call returns: it would block, fails or receives.
pub data Answer (IoError : Type 0) : Type 0 where
  would_block : Answer IoError
  failed : IoError → Answer IoError
  filled : Filled → Answer IoError

-- A round of the loop: the wait fails, or the call is made.
pub data Attempt (IoError : Type 0) : Type 0 where
  not_readable : IoError → Attempt IoError
  calls : Answer IoError → Attempt IoError

-- An index out of range panics, or the rounds given are over, or the call returns.
pub data Recv (IoError : Type 0) : Type 0 where
  panicked waiting : Recv IoError
  finished : Result IoError ℕ → BatchBuf → Recv IoError

-- The last loop, from `i` on. A store out of range would panic; `IsFilled` rules it out.
unfoldable pub store_lens : ℕ → List Message → BatchBuf → BatchBuf
store_lens i [] buf = buf
store_lens i (m ∷ ms) buf = store_lens (suc i) ms (record buf { lens = set buf.lens i m.msg_len })

unfoldable pub store_messages : ℕ → List Message → BatchBuf → BatchBuf
store_messages i [] buf = buf
store_messages i (m ∷ ms) buf = store_messages (suc i) ms (record buf {
  lens = set buf.lens i m.msg_len;
  addrs = set buf.addrs i (sockaddr_storage_to_socket_addr m.name);
})

module _ {IoError : Type 0} where
  -- The loop of `recv_batch` and of `recv_batch_connected`, which store messages each in their way.
  -- The slots are taken for each call.
  unfoldable pub recv_loop :
      (ℕ → List Message → BatchBuf → BatchBuf) → List (Attempt IoError) → BatchBuf → Recv IoError
  unfolding iovs_of
  recv_loop store [] buf = waiting
  recv_loop store (not_readable e ∷ attempts) buf = finished (err e) buf
  recv_loop store (calls answer ∷ attempts) buf =
      let rest = recv_loop store attempts buf in
      elim (iovs_of buf) [
        | none ↦ panicked
        | some iovs ↦ elim answer [
          | would_block ↦ rest
          | failed e ↦ finished (err e) buf
          | filled f ↦
              finished (ok (length f.messages))
                (store 0 f.messages (record buf { bytes = f.memory }))
        ]
      ]

  unfoldable pub recv_batch : List (Attempt IoError) → BatchBuf → Recv IoError
  unfolding recv_loop store_messages
  recv_batch = recv_loop store_messages

  unfoldable pub recv_batch_connected : List (Attempt IoError) → BatchBuf → Recv IoError
  unfolding recv_loop store_lens
  recv_batch_connected = recv_loop store_lens
