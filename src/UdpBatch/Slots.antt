-- ===== src/UdpBatch/Slots.antt =====
-- The slots of a buffer: apart from each other, within the memory, and filled by a receipt.
use range_porter.Prelude.{
  ℕ, zero, suc, ◌+◌, ◌*◌, ◌≤◌, ◌<◌, ◌≡◌, refl, sym, ap, ◌∙◌, inl, inr, true, List, [], ◌∷◌, none,
  some, arith, length, get_elem?, length-replicate, ltb, leb, ◌&&◌, Bool-cases, some_inj,
}
use mathlib.Core.Path.{subst}
use range_porter.UdpBatch.{
  max_batch_size, BatchBuf, zeroed, new, Iov, slot_mut_full, iovs_from, iovs_of,
}

abbrev pub IsValid : BatchBuf → Type 0
IsValid buf =
    (length buf.bytes ≡ buf.batch_size * buf.slot_size)
    × (length buf.lens ≡ buf.batch_size)
    × (length buf.addrs ≡ buf.batch_size)
    × (1 ≤ buf.batch_size)
    × (buf.batch_size ≤ max_batch_size)

new-zeroed :
    (b s : ℕ) (buf : BatchBuf)
    → new b s ≡ some buf
    → (zeroed b s ≡ buf) × (1 ≤ b) × (b ≤ max_batch_size)
unfolding new
new-zeroed b s buf e = elim (Bool-cases (ltb 0 b && leb b max_batch_size)) [
  | inl fits ↦ (some_inj (rw fits at e), ground arith, ground arith)
  | inr outside ↦ let bad : none ≡ some buf = rw outside at e in absurd (cc)
]

new-IsValid : (b s : ℕ) (buf : BatchBuf) → new b s ≡ some buf → IsValid buf
new-IsValid b s buf e =
    let (same, low, high) = new-zeroed b s buf e in
    subst IsValid same
      (length-replicate (b * s) 0, length-replicate b 0, length-replicate b none, low, high)

plan : ℕ → ℕ → ℕ → List Iov
plan i zero size = []
plan i (suc n) size = record { base = i * size; len = size } ∷ plan (suc i) n size

iovs_from-plan :
    (i n : ℕ) (buf : BatchBuf)
    → (i + n) * buf.slot_size ≤ length buf.bytes
    → iovs_from i n buf ≡ some (plan i n buf.slot_size)
unfolding iovs_from slot_mut_full plan
iovs_from-plan i zero buf h = refl
iovs_from-plan i (suc n) buf h =
    let inside : leb (i * buf.slot_size + buf.slot_size) (length buf.bytes) ≡ true = grind arith in
    let rest = iovs_from-plan (suc i) n buf (grind arith) in rw inside (rw rest refl)

get_elem?-plan :
    (i n size k : ℕ) (v : Iov)
    → get_elem? (plan i n size) k ≡ some v
    → (v.base ≡ (i + k) * size) × (v.len ≡ size) × (k < n)
unfolding plan
get_elem?-plan i zero size k v e = absurd (cc)
get_elem?-plan i (suc n) size zero v e =
    let same = some_inj e in
    let at_i : i + 0 ≡ i = omega arith in
    (
      sym (ap (λ (x : Iov). x.base) same) ∙ ap (λ k. k * size) (sym at_i),
      sym (ap (λ (x : Iov). x.len) same),
      omega arith,
    )
get_elem?-plan i (suc n) size (suc k) v e =
    let (b, l, h) = get_elem?-plan (suc i) n size k v e in (grind arith, l, omega arith)

-- The parts of a buffer's memory that the system is given to write to: each begins where its slot
-- begins and has its size, lies within the memory, and ends before the later ones begin. The
-- buffer has one to 32 slots and a slot's size of memory for each, as `new` makes it.
pub iovs_of-disjoint :
    (buf : BatchBuf)
    → IsValid buf
    → (l : List Iov) × (iovs_of buf ≡ some l)
      × ((i : ℕ) (v : Iov)
          → get_elem? l i ≡ some v
          → (v.base ≡ i * buf.slot_size)
            × (v.len ≡ buf.slot_size)
            × (v.base + v.len ≤ length buf.bytes))
      × ((i j : ℕ) (v w : Iov)
          → i < j
          → get_elem? l i ≡ some v
          → get_elem? l j ≡ some w
          → v.base + v.len ≤ w.base)
unfolding iovs_of
iovs_of-disjoint buf (bytes, lens, addrs, low, high) = (
  plan 0 buf.batch_size buf.slot_size,
  iovs_from-plan 0 buf.batch_size buf (grind arith),
  inside,
  apart,
)
  where
    placed :
        (i : ℕ) (v : Iov)
        → get_elem? (plan 0 buf.batch_size buf.slot_size) i ≡ some v
        → (v.base ≡ i * buf.slot_size) × (v.len ≡ buf.slot_size) × (i < buf.batch_size)
    placed i v e =
        let (b, l, h) = get_elem?-plan 0 buf.batch_size buf.slot_size i v e in (grind arith, l, h)

    inside :
        (i : ℕ) (v : Iov)
        → get_elem? (plan 0 buf.batch_size buf.slot_size) i ≡ some v
        → (v.base ≡ i * buf.slot_size)
          × (v.len ≡ buf.slot_size)
          × (v.base + v.len ≤ length buf.bytes)
    inside i v e = let (b, l, h) = placed i v e in (b, l, grind arith)

    apart :
        (i j : ℕ) (v w : Iov)
        → i < j
        → get_elem? (plan 0 buf.batch_size buf.slot_size) i ≡ some v
        → get_elem? (plan 0 buf.batch_size buf.slot_size) j ≡ some w
        → v.base + v.len ≤ w.base
    apart i j v w lt e f =
        let (b, l, h) = placed i v e in let (b', l', h') = placed j w f in grind arith
