-- ===== src/UdpBatch/Fallback.antt =====
-- The receipts on systems other than Linux: one `recv_from` or `recv` into the first slot. They
-- are receipts of one message.
use range_porter.Prelude.{
  ℕ, ◌+◌, ◌*◌, ◌≡◌, refl, true, List, [], ◌∷◌, none, some, arith, length, set, leb,
}
use range_porter.Result.{Result, ok, err}
use range_porter.Net.{SocketAddr}
use range_porter.UdpBatch.Sockaddr.{sockaddr_storage_to_socket_addr}
use range_porter.UdpBatch.{
  BatchBuf, slot_mut_full, Iov, Message, failed, filled, calls, Recv, panicked, finished, recv_loop,
  store_messages, store_lens,
}
use range_porter.UdpBatch
use range_porter.UdpBatch.Slots.{IsValid, iovs_of-disjoint}

-- A datagram that the system wrote: the bytes of the buffer behind it, its length and its sender.
pub record Received : Type 0 where
  pub memory : List ℕ
  pub bytes_read : ℕ
  pub source : SocketAddr

first_slot :
    (buf : BatchBuf)
    → IsValid buf
    → slot_mut_full 0 buf ≡ some (record { base = 0 * buf.slot_size; len = buf.slot_size })
unfolding slot_mut_full
first_slot buf (bytes, _, _, low, _) =
    let inside : leb (0 * buf.slot_size + buf.slot_size) (length buf.bytes) ≡ true = grind arith in
    rw inside refl

module _ {IoError : Type 0} where
  -- A store out of range would panic; `IsValid` rules it out.
  unfoldable pub recv_batch : Result IoError Received → BatchBuf → Recv IoError
  unfolding slot_mut_full
  recv_batch answer buf = elim (slot_mut_full 0 buf) [
    | none ↦ panicked
    | some slot ↦ elim answer [
      | err e ↦ finished (err e) buf
      | ok r ↦ finished (ok 1) (record buf {
        bytes = r.memory;
        lens = set buf.lens 0 r.bytes_read;
        addrs = set buf.addrs 0 (some r.source);
      })
    ]
  ]

  -- `recv` gives no sender.
  unfoldable pub recv_batch_connected : Result IoError (List ℕ × ℕ) → BatchBuf → Recv IoError
  unfolding slot_mut_full
  recv_batch_connected answer buf = elim (slot_mut_full 0 buf) [
    | none ↦ panicked
    | some slot ↦ elim answer [
      | err e ↦ finished (err e) buf
      | ok r ↦ finished (ok 1) (record buf { bytes = r.0; lens = set buf.lens 0 r.1 })
    ]
  ]

  -- Into a buffer of the right shape the receipt of a datagram does what that of `recvmmsg` does
  -- for one message with the same bytes and the same sender.
  pub recv_batch_agrees :
      (buf : BatchBuf) (memory : List ℕ) (m : Message) (source : SocketAddr)
      → IsValid buf
      → sockaddr_storage_to_socket_addr m.name ≡ some source
      → recv_batch (ok (record { memory = memory; bytes_read = m.msg_len; source = source })) buf
        ≡ UdpBatch.recv_batch
            (calls (filled (record { memory = memory; messages = m ∷ [] })) ∷ [])
            buf
  unfolding recv_batch UdpBatch.recv_batch recv_loop store_messages
  recv_batch_agrees buf memory m source v named =
      let (iovs, given, _, _) = iovs_of-disjoint buf v in
      rw (first_slot buf v, recv_batch) (rw (given, recv_loop, named) refl)

  pub recv_batch_connected_agrees :
      (buf : BatchBuf) (memory : List ℕ) (m : Message)
      → IsValid buf
      → recv_batch_connected (ok (memory, m.msg_len)) buf
        ≡ UdpBatch.recv_batch_connected
            (calls (filled (record { memory = memory; messages = m ∷ [] })) ∷ [])
            buf
  unfolding recv_batch_connected UdpBatch.recv_batch_connected recv_loop store_lens
  recv_batch_connected_agrees buf memory m v =
      let (iovs, given, _, _) = iovs_of-disjoint buf v in
      rw (first_slot buf v, recv_batch_connected) (rw (given, recv_loop) refl)

  pub recv_batch_agrees_err :
      (buf : BatchBuf) (e : IoError)
      → IsValid buf
      → recv_batch (err e) buf ≡ UdpBatch.recv_batch (calls (failed e) ∷ []) buf
  unfolding recv_batch UdpBatch.recv_batch recv_loop
  recv_batch_agrees_err buf e v =
      let (iovs, given, _, _) = iovs_of-disjoint buf v in
      rw (first_slot buf v, recv_batch) (rw (given, recv_loop) refl)
