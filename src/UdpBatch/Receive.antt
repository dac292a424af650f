-- ===== src/UdpBatch/Receive.antt =====
-- A receipt: what the slots and the addresses of the buffer are behind it.
use range_porter.Prelude.{
  ℕ, suc, ◌+◌, ◌*◌, ◌≤◌, ◌≡◌, refl, sym, ap, ◌∙◌, true, List, [], ◌∷◌, Option, some, arith, length,
  take, drop, get_elem?, set, map, fill, length-fill, get_elem?-fill-map, get_elem?-lt, leb, All,
  All-get_elem?,
}
use mathlib.Core.Path.{subst}
use range_porter.Result.{ok, err}
use range_porter.Net.{SocketAddr}
use range_porter.UdpBatch.Sockaddr.{sockaddr_storage_to_socket_addr}
use range_porter.UdpBatch.{
  BatchBuf, slice, slot, addr, Message, Filled, would_block, failed, filled, Attempt, not_readable,
  calls, Recv, finished, store_lens, store_messages, recv_loop, recv_batch, recv_batch_connected,
}
use range_porter.UdpBatch.Slots.{IsValid, iovs_of-disjoint}

-- What `recvmmsg` promises: the memory keeps its size, there is a message for a slot at most, and
-- none is longer than the slot.
abbrev pub IsFilled : BatchBuf → Filled → Type 0
IsFilled buf f =
    (length f.memory ≡ length buf.bytes)
    × (length f.messages ≤ buf.batch_size)
    × All (λ (m : Message). m.msg_len ≤ buf.slot_size) f.messages

-- The first call that does not block receives `f`.
abbrev pub Receives : {IoError : Type 0} → List (Attempt IoError) → Filled → Type 0
Receives [] f = ⊥
Receives (not_readable e ∷ attempts) f = ⊥
Receives (calls would_block ∷ attempts) f = Receives attempts f
Receives (calls (failed e) ∷ attempts) f = ⊥
Receives (calls (filled g) ∷ attempts) f = g ≡ f

store_lens-fill :
    (ms : List Message) (i : ℕ) (buf : BatchBuf)
    → store_lens i ms buf ≡ record buf { lens = fill buf.lens i (map (λ m. m.msg_len) ms) }
unfolding store_lens
store_lens-fill [] i buf = refl
store_lens-fill (m ∷ ms) i buf =
    store_lens-fill ms (suc i) (record buf { lens = set buf.lens i m.msg_len })

abbrev name_of : Message → Option SocketAddr
name_of m = sockaddr_storage_to_socket_addr m.name

store_messages-fill :
    (ms : List Message) (i : ℕ) (buf : BatchBuf)
    → store_messages i ms buf ≡ record buf {
      lens = fill buf.lens i (map (λ m. m.msg_len) ms);
      addrs = fill buf.addrs i (map name_of ms);
    }
unfolding store_messages
store_messages-fill [] i buf = refl
store_messages-fill (m ∷ ms) i buf =
    store_messages-fill ms (suc i)
      (record buf { lens = set buf.lens i m.msg_len; addrs = set buf.addrs i (name_of m) })

module _ {IoError : Type 0} where
  recv_loop-ok :
      (store : ℕ → List Message → BatchBuf → BatchBuf) (attempts : List (Attempt IoError))
      (buf after : BatchBuf) (count : ℕ)
      → IsValid buf
      → recv_loop store attempts buf ≡ finished (ok count) after
      → (f : Filled) × Receives attempts f
        × (count ≡ length f.messages)
        × (after ≡ store 0 f.messages (record buf { bytes = f.memory }))
  unfolding recv_loop
  recv_loop-ok store [] buf after count v e = absurd (cc)
  recv_loop-ok store (not_readable x ∷ attempts) buf after count v e = absurd (cc)
  recv_loop-ok store (calls would_block ∷ attempts) buf after count v e =
      let (iovs, given, _, _) = iovs_of-disjoint buf v in
      recv_loop-ok store attempts buf after count v (rw (given, recv_loop) at e)
  recv_loop-ok store (calls (failed x) ∷ attempts) buf after count v e =
      let (iovs, given, _, _) = iovs_of-disjoint buf v in
      let bad : finished (err x) buf ≡ finished (ok count) after = rw (given, recv_loop) at e in
      absurd (cc)
  recv_loop-ok store (calls (filled f) ∷ attempts) buf after count v e =
      let (iovs, given, _, _) = iovs_of-disjoint buf v in
      let same : ◌≡◌ {A = Recv IoError}
          (finished (ok (length f.messages)) (store 0 f.messages (record buf { bytes = f.memory })))
          (finished (ok count) after) =
        rw (given, recv_loop) at e in
      (f, refl, cc, cc)

-- The slot at `i` of a buffer with these bytes and lengths.
slot-of_len :
    (buf : BatchBuf) (i len : ℕ)
    → get_elem? buf.lens i ≡ some len
    → i * buf.slot_size + len ≤ length buf.bytes
    → slot i buf ≡ some (take len (drop (i * buf.slot_size) buf.bytes))
unfolding slot slice
slot-of_len buf i len e h =
    let inside : leb (i * buf.slot_size + len) (length buf.bytes) ≡ true = ground arith in
    rw (e, slot) (rw inside refl)

-- Behind a receipt: the shape of the buffer is the same, and the slot of each message holds the
-- bytes that the system wrote there.
abbrev pub HoldsSlots : BatchBuf → Filled → BatchBuf → Type 0
HoldsSlots buf f after =
    IsValid after
    × ((i : ℕ) (m : Message)
        → get_elem? f.messages i ≡ some m
        → slot i after ≡ some (take m.msg_len (drop (i * buf.slot_size) f.memory)))

abbrev filled_with : BatchBuf → Filled → List (Option SocketAddr) → BatchBuf
filled_with buf f addrs = record buf {
  bytes = f.memory;
  lens = fill buf.lens 0 (map (λ (m : Message). m.msg_len) f.messages);
  addrs = addrs;
}

filled_with-slot :
    (buf : BatchBuf) (f : Filled) (addrs : List (Option SocketAddr)) (i : ℕ) (m : Message)
    → IsValid buf
    → IsFilled buf f
    → get_elem? f.messages i ≡ some m
    → slot i (filled_with buf f addrs) ≡ some (take m.msg_len (drop (i * buf.slot_size) f.memory))
filled_with-slot buf f addrs i m (bytes, lens, _, low, high) (memory, few, small) e =
    let within =
      All-get_elem? (λ (m : Message). m.msg_len ≤ buf.slot_size) f.messages i m e small in
    let stored =
      get_elem?-fill-map (λ (m : Message). m.msg_len) f.messages buf.lens i m (omega arith) e in
    let below = get_elem?-lt f.messages i m e in
    slot-of_len (filled_with buf f addrs) i m.msg_len stored (grind arith)

filled_with-HoldsSlots :
    (buf : BatchBuf) (f : Filled) (addrs : List (Option SocketAddr))
    → IsValid buf
    → IsFilled buf f
    → length addrs ≡ buf.batch_size
    → HoldsSlots buf f (filled_with buf f addrs)
filled_with-HoldsSlots buf f addrs v filled_ as_many =
    let (bytes, lens, _, low, high) = v in
    (
      (
        filled_.0 ∙ bytes,
        length-fill (map (λ (m : Message). m.msg_len) f.messages) buf.lens 0 ∙ lens,
        as_many,
        low,
        high,
      ),
      λ i m e. filled_with-slot buf f addrs i m v filled_ e,
    )

-- A receipt of `recv_batch` into a buffer of the right shape, where the first call that does not
-- block keeps the promise of `recvmmsg`: the count is the number of its messages. The slot of each
-- of them then holds the bytes that the system wrote there, and its address is the sender's.
pub recv_batch-ok :
    {IoError : Type 0} (attempts : List (Attempt IoError)) (buf after : BatchBuf) (count : ℕ)
    → IsValid buf
    → ((f : Filled) → Receives attempts f → IsFilled buf f)
    → recv_batch attempts buf ≡ finished (ok count) after
    → (f : Filled) × Receives attempts f
      × (count ≡ length f.messages)
      × HoldsSlots buf f after
      × ((i : ℕ) (m : Message)
          → get_elem? f.messages i ≡ some m
          → addr i after ≡ some (sockaddr_storage_to_socket_addr m.name))
unfolding recv_batch addr
recv_batch-ok attempts buf after count v promise e =
    let (f, first, counted, same) = recv_loop-ok store_messages attempts buf after count v e in
    let kept = promise f first in
    let names = fill buf.addrs 0 (map name_of f.messages) in
    let whole : filled_with buf f names ≡ after =
      sym (same ∙ store_messages-fill f.messages 0 (record buf { bytes = f.memory })) in
    let named : (i : ℕ) (m : Message)
        → get_elem? f.messages i ≡ some m
        → get_elem? names i ≡ some (sockaddr_storage_to_socket_addr m.name) =
      λ i m at.
        get_elem?-fill-map name_of f.messages buf.addrs i m (omega (arith, kept.1, v.2)) at in
    (
      f,
      first,
      counted,
      subst (HoldsSlots buf f) whole (
          filled_with-HoldsSlots buf f names v kept
            (length-fill (map name_of f.messages) buf.addrs 0 ∙ v.2)),
      λ i m at. ap (addr i) (sym whole) ∙ named i m at,
    )

-- The same of `recv_batch_connected`, which leaves the addresses as they are.
pub recv_batch_connected-ok :
    {IoError : Type 0} (attempts : List (Attempt IoError)) (buf after : BatchBuf) (count : ℕ)
    → IsValid buf
    → ((f : Filled) → Receives attempts f → IsFilled buf f)
    → recv_batch_connected attempts buf ≡ finished (ok count) after
    → (f : Filled) × Receives attempts f
      × (count ≡ length f.messages)
      × HoldsSlots buf f after
      × (after.addrs ≡ buf.addrs)
unfolding recv_batch_connected
recv_batch_connected-ok attempts buf after count v promise e =
    let (f, first, counted, same) = recv_loop-ok store_lens attempts buf after count v e in
    let whole : filled_with buf f buf.addrs ≡ after =
      sym (same ∙ store_lens-fill f.messages 0 (record buf { bytes = f.memory })) in
    (
      f,
      first,
      counted,
      subst (HoldsSlots buf f) whole
          (filled_with-HoldsSlots buf f buf.addrs v (promise f first) v.2),
      ap (λ (b : BatchBuf). b.addrs) (sym whole),
    )
