-- ===== src/Tcp/Accounts.antt =====
-- The counters of the ports against the connections.
use range_porter.Prelude.{
  ℕ, ◌+◌, ◌-◌, ◌%◌, ◌<◌, ◌≡◌, refl, sym, ap, Bool, true, false, List, [], ◌∷◌, some, arith, All,
  All-set, All-get_elem?, length, length-set, get_elem?, set, remove_at, sum_by-remove_at,
  sum_by-set, le-sum_by,
}
use range_porter.Word.{u64_mod, add_u64}
use range_porter.Stats.Port.{
  PortStats, saturating_decrement, record_tcp_accept, record_tcp_close, add_tcp_bytes,
}
use range_porter.Tcp.{
  Shared, Phase, acquiring, accepting, draining, returned, Connection, proxying, closing, ended,
  Outcome, interrupted, failed, copied, proxy, Listener, Move, acquire, acquire_closed,
  acquire_cancelled, accept, accept_failed, accept_cancelled, finish, release, join, return, Server,
  Step, cancel, close, move, Reach, here, later, listen, listen_all, init,
}
use range_porter.Tcp.Permits.{
  held, is_proxying, active_connections, active_connections-held, phase_permits, all_permits,
  Reach-all_permits,
}

abbrev pub has_stopped : Phase → Bool
has_stopped acquiring = false
has_stopped accepting = false
has_stopped _ = true

abbrev pub IsAccounted : Listener → Type 0
IsAccounted l =
    (l.stats.tcp_active ≡ active_connections l)
    × (l.stats.tcp_accepted % u64_mod ≡ (l.stats.tcp_active + l.stats.tcp_closed) % u64_mod)
    × (has_stopped l.phase ≡ false
        → length l.connections % u64_mod ≡ l.stats.tcp_accepted % u64_mod)
    × (l.phase ≡ returned → l.connections ≡ [])

proxy-closes :
    (o : Outcome) (stats : PortStats)
    → ((proxy o stats).tcp_active ≡ stats.tcp_active - 1)
      × ((proxy o stats).tcp_closed ≡ add_u64 stats.tcp_closed 1)
      × ((proxy o stats).tcp_accepted ≡ stats.tcp_accepted)
unfolding proxy record_tcp_close add_tcp_bytes saturating_decrement
proxy-closes interrupted stats = (refl, refl, refl)
proxy-closes failed stats = (refl, refl, refl)
proxy-closes (copied n m) stats = (refl, refl, refl)

accept-IsAccounted :
    (l : Listener)
    → active_connections l + 1 < u64_mod
    → has_stopped l.phase ≡ false
    → IsAccounted l
    → IsAccounted (record {
      phase = acquiring;
      stats = record_tcp_accept l.stats;
      connections = proxying ∷ l.connections;
    })
unfolding record_tcp_accept add_u64
accept-IsAccounted l few running (active, sums, unjoined, done) =
    (omega arith, omega arith, λ _. omega (arith, unjoined running), λ e. absurd (cc))

finish-IsAccounted :
    (l : Listener) (j : ℕ) (o : Outcome)
    → get_elem? l.connections j ≡ some proxying
    → IsAccounted l
    → IsAccounted (record l { stats = proxy o l.stats; connections = set l.connections j closing })
unfolding add_u64
finish-IsAccounted l j o at (active, sums, unjoined, done) =
    let (active', closed', accepted') = proxy-closes o l.stats in
    let one_less = sum_by-set is_proxying l.connections j proxying closing at in
    let some_active = le-sum_by is_proxying l.connections j proxying at in
    (
      omega arith,
      omega arith,
      λ running. omega (arith, length-set l.connections j closing, unjoined running),
      λ e. ap (λ (c : List Connection). set c j closing) (done e),
    )

release-IsAccounted :
    (l : Listener) (j : ℕ)
    → get_elem? l.connections j ≡ some closing
    → IsAccounted l
    → IsAccounted (record l { connections = set l.connections j ended })
release-IsAccounted l j at (active, sums, unjoined, done) =
    let same = sum_by-set is_proxying l.connections j closing ended at in
    (
      omega arith,
      sums,
      λ running. omega (arith, length-set l.connections j ended, unjoined running),
      λ e. ap (λ (c : List Connection). set c j ended) (done e),
    )

join-IsAccounted :
    (l : Listener) (j : ℕ)
    → l.phase ≡ draining
    → get_elem? l.connections j ≡ some ended
    → IsAccounted l
    → IsAccounted (record l { connections = remove_at l.connections j })
join-IsAccounted l j draining_ at (active, sums, unjoined, done) =
    let same = sum_by-remove_at is_proxying l.connections j ended at in
    (omega arith, sums, λ running. absurd (cc), λ e. absurd (cc))

-- A change of the phase, at which the tasks and the counters stay.
phase-IsAccounted :
    (l : Listener) (p : Phase)
    → (has_stopped p ≡ false → has_stopped l.phase ≡ false)
    → (p ≡ returned → l.connections ≡ [])
    → IsAccounted l
    → IsAccounted (record l { phase = p })
phase-IsAccounted l p back empty (active, sums, unjoined, done) =
    (active, sums, λ running. unjoined (back running), empty)

Move-IsAccounted :
    {s t : Shared} {l m : Listener}
    → Move s l t m
    → held l < u64_mod
    → IsAccounted l
    → IsAccounted m
Move-IsAccounted {l = l} (acquire at free some_left) few a =
    phase-IsAccounted l accepting (λ _. ap has_stopped at) (λ e. absurd (cc)) a
Move-IsAccounted {l = l} (acquire_closed at shut) few a =
    phase-IsAccounted l draining (λ e. absurd (cc)) (λ e. absurd (cc)) a
Move-IsAccounted {l = l} (acquire_cancelled at stop) few a =
    phase-IsAccounted l draining (λ e. absurd (cc)) (λ e. absurd (cc)) a
Move-IsAccounted {l = l} (accept at) few a =
    accept-IsAccounted l (omega (arith, active_connections-held l, ap phase_permits at))
      (ap has_stopped at) a
Move-IsAccounted {l = l} (accept_failed at) few a =
    phase-IsAccounted l acquiring (λ _. ap has_stopped at) (λ e. absurd (cc)) a
Move-IsAccounted {l = l} (accept_cancelled at stop) few a =
    phase-IsAccounted l draining (λ e. absurd (cc)) (λ e. absurd (cc)) a
Move-IsAccounted {l = l} (finish j o at possible) few a = finish-IsAccounted l j o at a
Move-IsAccounted {l = l} (release j at) few a = release-IsAccounted l j at a
Move-IsAccounted {l = l} (join j at it) few a = join-IsAccounted l j at it a
Move-IsAccounted {l = l} (return at none_left) few a =
    phase-IsAccounted l returned (λ e. absurd (cc)) (λ e. none_left) a

Step-IsAccounted :
    {s t : Server}
    → Step s t
    → all_permits s < u64_mod
    → All IsAccounted s.listeners
    → All IsAccounted t.listeners
Step-IsAccounted cancel few a = a
Step-IsAccounted close few a = a
Step-IsAccounted {s} (move i l {t} {m} at mv) few a =
    let below = le-sum_by held s.listeners i l at in
    All-set IsAccounted s.listeners i m
      (Move-IsAccounted mv (omega arith) (All-get_elem? IsAccounted s.listeners i l at a)) a

-- Counters of a port on which no connection was counted.
abbrev pub IsUnused : PortStats → Type 0
IsUnused stats = (stats.tcp_accepted ≡ 0) × (stats.tcp_active ≡ 0) × (stats.tcp_closed ≡ 0)

listen_all-IsAccounted :
    (ports : List PortStats) → All IsUnused ports → All IsAccounted (listen_all ports)
unfolding listen
listen_all-IsAccounted [] u = tt
listen_all-IsAccounted (p ∷ ports) ((a, b, c), u) = (
  (b, omega arith, λ _. ap (λ n. n % u64_mod) (sym a), λ e. refl),
  listen_all-IsAccounted ports u,
)

-- With a maximum below 2^64 and counters that start at 0, at any time and for each port: the gauge
-- of active connections is the number of connections being forwarded; the accepted ones are the
-- active and the closed ones, modulo 2^64. While the listener runs, its set of tasks has, modulo
-- 2^64, as many entries as connections were ever accepted: none is joined. When it has returned,
-- none is left.
pub Reach-IsAccounted :
    (max : ℕ) (ports : List PortStats) {s : Server}
    → max < u64_mod
    → All IsUnused ports
    → Reach (init max ports) s
    → All IsAccounted s.listeners
Reach-IsAccounted max ports few unused here = listen_all-IsAccounted ports unused
Reach-IsAccounted max ports few unused (later r st) =
    Step-IsAccounted st (omega (arith, Reach-all_permits max ports r))
      (Reach-IsAccounted max ports few unused r)
