-- ===== src/Tcp/Bytes.antt =====
-- The bytes that a port counts against the bytes that were copied on its connections.
use range_porter.Prelude.{
  ℕ, zero, suc, ◌+◌, ◌%◌, ◌≡◌, ◌≢◌, sym, ap, ◌∙◌, inl, inr, List, [], ◌∷◌, some, arith, get_elem?,
  get_elem?-lt, get_elem?-set_self, get_elem?-set_ne, if◌then◌else◌, ◌==◌, Bool-cases, some_inj,
}
use mathlib.Core.Path.{subst}
use range_porter.Word.{u64_mod, add_u64}
use range_porter.Stats.Port.{PortStats, record_tcp_accept, record_tcp_close, add_tcp_bytes}
use range_porter.Tcp.{
  Shared, Outcome, interrupted, failed, copied, proxy, Listener, Move, acquire, acquire_closed,
  acquire_cancelled, accept, accept_failed, accept_cancelled, finish, release, join, return, Server,
  Step, cancel, close, move, Reach, here, later, listen, listen_all, init,
}

-- The bytes from the clients and to them.
abbrev pub Bytes : Type 0
Bytes = ℕ × ℕ

abbrev pub plus : Bytes → Bytes → Bytes
plus (a, b) (c, d) = (a + c, b + d)

-- What an outcome, a move and a step copied, the last on the port at `i`.
abbrev pub of_outcome : Outcome → Bytes
of_outcome (copied in_bytes out_bytes) = (in_bytes, out_bytes)
of_outcome _ = (0, 0)

abbrev pub of_move : {s t : Shared} {l m : Listener} → Move s l t m → Bytes
of_move (finish j outcome at possible) = of_outcome outcome
of_move _ = (0, 0)

abbrev pub of_step : {s t : Server} → ℕ → Step s t → Bytes
of_step i (move k l at mv) = if i == k then of_move mv else (0, 0)
of_step i _ = (0, 0)

abbrev pub of_reach : {s t : Server} → ℕ → Reach s t → Bytes
of_reach i here = (0, 0)
of_reach i (later r st) = plus (of_reach i r) (of_step i st)

-- The counters after some bytes, modulo 2^64.
abbrev pub IsAfter : PortStats → Bytes → PortStats → Type 0
IsAfter before n after =
    (after.tcp_in_bytes % u64_mod ≡ (before.tcp_in_bytes + n.0) % u64_mod)
    × (after.tcp_out_bytes % u64_mod ≡ (before.tcp_out_bytes + n.1) % u64_mod)

same_stats : (stats : PortStats) → IsAfter stats (0, 0) stats
same_stats stats = (omega arith, omega arith)

proxy-IsAfter : (o : Outcome) (stats : PortStats) → IsAfter stats (of_outcome o) (proxy o stats)
unfolding proxy record_tcp_close add_tcp_bytes add_u64
proxy-IsAfter interrupted stats = (omega arith, omega arith)
proxy-IsAfter failed stats = (omega arith, omega arith)
proxy-IsAfter (copied n m) stats = (omega arith, omega arith)

Move-IsAfter :
    {s t : Shared} {l m : Listener} (mv : Move s l t m) → IsAfter l.stats (of_move mv) m.stats
unfolding record_tcp_accept
Move-IsAfter {l = l} (acquire _ _ _) = same_stats l.stats
Move-IsAfter {l = l} (acquire_closed _ _) = same_stats l.stats
Move-IsAfter {l = l} (acquire_cancelled _ _) = same_stats l.stats
Move-IsAfter {l = l} (accept _) = (omega arith, omega arith)
Move-IsAfter {l = l} (accept_failed _) = same_stats l.stats
Move-IsAfter {l = l} (accept_cancelled _ _) = same_stats l.stats
Move-IsAfter {l = l} (finish j o at possible) = proxy-IsAfter o l.stats
Move-IsAfter {l = l} (release _ _) = same_stats l.stats
Move-IsAfter {l = l} (join _ _ _) = same_stats l.stats
Move-IsAfter {l = l} (return _ _) = same_stats l.stats

IsAfter-plus :
    (before between after : PortStats) (n k : Bytes)
    → IsAfter before n between
    → IsAfter between k after
    → IsAfter before (plus n k) after
IsAfter-plus before between after (a, b) (c, d) (p, q) (r, s) = (omega arith, omega arith)

-- The listener at `i` before a step.
Step-IsAfter :
    {s t : Server} (i : ℕ) (m : Listener) (st : Step s t)
    → get_elem? t.listeners i ≡ some m
    → (l : Listener) × (get_elem? s.listeners i ≡ some l) × IsAfter l.stats (of_step i st) m.stats
Step-IsAfter i m cancel at = (m, at, same_stats m.stats)
Step-IsAfter i m close at = (m, at, same_stats m.stats)
Step-IsAfter {s} i m (move k l {t} {m = n} was mv) at = elim (Bool-cases (i == k)) [
  | inl same ↦
      let is : k ≡ i = ground arith in
      let set_here = get_elem?-set_self s.listeners k n (get_elem?-lt s.listeners k l was) in
      let new : n ≡ m = some_inj (sym set_here ∙ rw (sym is) at at) in
      rw same
        (l, rw is at was, subst (λ x. IsAfter l.stats (of_move mv) x.stats) new (Move-IsAfter mv))
  | inr other ↦
      let differs : k ≢ i = λ e. ground arith in
      rw other (m, sym (get_elem?-set_ne s.listeners k i n differs) ∙ at, same_stats m.stats)
]

listen_all-stats :
    (ports : List PortStats) (i : ℕ) (stats : PortStats) (l : Listener)
    → get_elem? ports i ≡ some stats
    → get_elem? (listen_all ports) i ≡ some l
    → stats ≡ l.stats
unfolding listen
listen_all-stats [] i stats l first at = absurd (cc)
listen_all-stats (p ∷ ports) zero stats l first at =
    let is : p ≡ stats = some_inj first in sym is ∙ ap (λ (x : Listener). x.stats) (some_inj at)
listen_all-stats (p ∷ ports) (suc i) stats l first at = listen_all-stats ports i stats l first at

-- After any steps of the listeners of some ports each port counts, on top of what it counted at
-- first and modulo 2^64, the bytes that were copied on its own connections that came to their
-- end, in each direction.
pub Reach-bytes :
    (max : ℕ) (ports : List PortStats) {s : Server} (r : Reach (init max ports) s) (i : ℕ)
    (stats : PortStats) (l : Listener)
    → get_elem? ports i ≡ some stats
    → get_elem? s.listeners i ≡ some l
    → IsAfter stats (of_reach i r) l.stats
Reach-bytes max ports here i stats l first at =
    subst (λ x. IsAfter stats (0, 0) x) (listen_all-stats ports i stats l first at)
      (same_stats stats)
Reach-bytes max ports (later r st) i stats l first at =
    let (before, was, after) = Step-IsAfter i l st at in
    IsAfter-plus stats before.stats l.stats (of_reach i r) (of_step i st)
      (Reach-bytes max ports r i stats before first was) after
