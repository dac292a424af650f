-- ===== src/Tcp/Permits.antt =====
-- The permits of the semaphore: where each of them is, and what that bounds.
use range_porter.Prelude.{
  ℕ, ◌+◌, ◌≤◌, ◌≡◌, refl, ap, List, [], ◌∷◌, arith, sum_by, sum_by-set, sum_by-remove_at,
}
use range_porter.Stats.Port.{PortStats}
use range_porter.Tcp.{
  Shared, Phase, accepting, Connection, proxying, closing, ended, Listener, Move, acquire,
  acquire_closed, acquire_cancelled, accept, accept_failed, accept_cancelled, finish, release, join,
  return, Server, Step, cancel, close, move, Reach, here, later, listen, listen_all, init,
}

-- The permits that a task, a listener in its phase, and a listener with its tasks hold.
abbrev pub permits_of : Connection → ℕ
permits_of proxying = 1
permits_of closing = 1
permits_of ended = 0

abbrev pub phase_permits : Phase → ℕ
phase_permits accepting = 1
phase_permits _ = 0

abbrev pub held : Listener → ℕ
held l = phase_permits l.phase + sum_by permits_of l.connections

Move-held : {s t : Shared} {l m : Listener} → Move s l t m → t.permits + held m ≡ s.permits + held l
Move-held {s} {l = l} (acquire at free some_left) = let p = ap phase_permits at in omega arith
Move-held {l = l} (acquire_closed at shut) = let p = ap phase_permits at in omega arith
Move-held {l = l} (acquire_cancelled at stop) = let p = ap phase_permits at in omega arith
Move-held {l = l} (accept at) = let p = ap phase_permits at in omega arith
Move-held {l = l} (accept_failed at) = let p = ap phase_permits at in omega arith
Move-held {l = l} (accept_cancelled at stop) = let p = ap phase_permits at in omega arith
Move-held {l = l} (finish j o at ok) =
    omega (arith, sum_by-set permits_of l.connections j proxying closing at)
Move-held {l = l} (release j at) =
    omega (arith, sum_by-set permits_of l.connections j closing ended at)
Move-held {l = l} (join j at it) =
    omega (arith, sum_by-remove_at permits_of l.connections j ended it)
Move-held {l = l} (return at none_left) = let p = ap phase_permits at in omega arith

abbrev pub all_permits : Server → ℕ
all_permits s = s.shared.permits + sum_by held s.listeners

Step-all_permits : {s t : Server} → Step s t → all_permits t ≡ all_permits s
Step-all_permits cancel = refl
Step-all_permits close = refl
Step-all_permits {s} (move i l {t} {m} at mv) =
    omega (arith, Move-held mv, sum_by-set held s.listeners i l m at)

sum_by-listen_all : (ports : List PortStats) → sum_by held (listen_all ports) ≡ 0
unfolding listen
sum_by-listen_all [] = refl
sum_by-listen_all (p ∷ ports) = omega (arith, sum_by-listen_all ports)

-- The connections that are being forwarded.
abbrev pub is_proxying : Connection → ℕ
is_proxying proxying = 1
is_proxying _ = 0

abbrev pub active_connections : Listener → ℕ
active_connections l = sum_by is_proxying l.connections

is_proxying-permits_of : (cs : List Connection) → sum_by is_proxying cs ≤ sum_by permits_of cs
is_proxying-permits_of [] = omega arith
is_proxying-permits_of (proxying ∷ cs) = omega (arith, is_proxying-permits_of cs)
is_proxying-permits_of (closing ∷ cs) = omega (arith, is_proxying-permits_of cs)
is_proxying-permits_of (ended ∷ cs) = omega (arith, is_proxying-permits_of cs)

pub active_connections-held : (l : Listener) → phase_permits l.phase + active_connections l ≤ held l
active_connections-held l = omega (arith, is_proxying-permits_of l.connections)

sum_by-held : (ls : List Listener) → sum_by active_connections ls ≤ sum_by held ls
sum_by-held [] = omega arith
sum_by-held (l ∷ ls) = omega (arith, active_connections-held l, sum_by-held ls)

pub Reach-all_permits :
    (max : ℕ) (ports : List PortStats) {s : Server} → Reach (init max ports) s → all_permits s ≡ max
Reach-all_permits max ports here = omega (arith, sum_by-listen_all ports)
Reach-all_permits max ports (later r st) =
    omega (arith, Reach-all_permits max ports r, Step-all_permits st)

-- At any time the free permits and those that the listeners and the connection tasks of all ports
-- hold are as many as the configured maximum, and no more connections than that are being forwarded.
pub Reach-permits :
    (max : ℕ) (ports : List PortStats) {s : Server}
    → Reach (init max ports) s
    → (s.shared.permits + sum_by held s.listeners ≡ max)
      × (sum_by active_connections s.listeners ≤ max)
Reach-permits max ports {s} r =
    let all = Reach-all_permits max ports r in (all, omega (arith, all, sum_by-held s.listeners))
