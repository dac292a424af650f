-- ===== src/Tcp/Drain.antt =====
-- The shutdown: behind the cancelled token and the closed semaphore every listener returns.
use range_porter.Prelude.{
  ℕ, suc, ◌+◌, ◌≤◌, ◌≡◌, refl, ap, ◌∙◌, ◌⊎◌, inl, inr, true, List, [], ◌∷◌, some, arith, All,
  get_elem?, set, sum_by, sum_by-set, sum_by-remove_at,
}
use range_porter.Tcp.{
  Shared, Phase, acquiring, accepting, draining, returned, Connection, proxying, closing, ended,
  interrupted, Listener, Move, acquire, acquire_closed, acquire_cancelled, accept, accept_failed,
  accept_cancelled, finish, release, join, return, Server,
}

-- A number of moves, one after the other.
pub data Moves (s : Server) : ℕ → Server → Type 0 where
  still : Moves s 0 s
  then :
      {n : ℕ} {r : Server} (i : ℕ) (l : Listener) {t : Shared} {m : Listener}
      → Moves s n r
      → get_elem? r.listeners i ≡ some l
      → Move r.shared l t m
      → Moves s (suc n) (record { shared = t; listeners = set r.listeners i m })

-- The moves that are left to a task and to a listener behind a closed semaphore, at most.
abbrev task_work : Connection → ℕ
task_work proxying = 3
task_work closing = 2
task_work ended = 1

abbrev phase_work : Phase → ℕ
phase_work acquiring = 2
phase_work accepting = 6
phase_work draining = 1
phase_work returned = 0

abbrev pub work : Listener → ℕ
work l = phase_work l.phase + sum_by task_work l.connections

Move-work : {s t : Shared} {l m : Listener} → Move s l t m → s.closed ≡ true → suc (work m) ≤ work l
Move-work (acquire at free some_left) shut = absurd (cc)
Move-work {l = l} (acquire_closed at _) shut = let p = ap phase_work at in omega arith
Move-work {l = l} (acquire_cancelled at stop) shut = let p = ap phase_work at in omega arith
Move-work {l = l} (accept at) shut = let p = ap phase_work at in omega arith
Move-work {l = l} (accept_failed at) shut = let p = ap phase_work at in omega arith
Move-work {l = l} (accept_cancelled at stop) shut = let p = ap phase_work at in omega arith
Move-work {l = l} (finish j o at possible) shut =
    omega (arith, sum_by-set task_work l.connections j proxying closing at)
Move-work {l = l} (release j at) shut =
    omega (arith, sum_by-set task_work l.connections j closing ended at)
Move-work {l = l} (join j at it) shut =
    omega (arith, sum_by-remove_at task_work l.connections j ended it)
Move-work {l = l} (return at none_left) shut = let p = ap phase_work at in omega arith

-- No move opens the semaphore again, or takes the cancellation back.
Move-flags :
    {s t : Shared} {l m : Listener}
    → Move s l t m
    → (t.closed ≡ s.closed) × (t.cancelled ≡ s.cancelled)
Move-flags (acquire at free some_left) = (refl, refl)
Move-flags (acquire_closed at shut) = (refl, refl)
Move-flags (acquire_cancelled at stop) = (refl, refl)
Move-flags (accept at) = (refl, refl)
Move-flags (accept_failed at) = (refl, refl)
Move-flags (accept_cancelled at stop) = (refl, refl)
Move-flags (finish j o at possible) = (refl, refl)
Move-flags (release j at) = (refl, refl)
Move-flags (join j at it) = (refl, refl)
Move-flags (return at none_left) = (refl, refl)

Moves-shared :
    {s t : Server} {n : ℕ}
    → Moves s n t
    → (t.shared.closed ≡ s.shared.closed) × (t.shared.cancelled ≡ s.shared.cancelled)
Moves-shared still = (refl, refl)
Moves-shared (then i l ms at mv) =
    let (a, b) = Moves-shared ms in let (c, d) = Move-flags mv in (c ∙ a, d ∙ b)

Moves-work :
    {s t : Server} {n : ℕ}
    → Moves s n t
    → s.shared.closed ≡ true
    → n + sum_by work t.listeners ≤ sum_by work s.listeners
Moves-work still shut = omega arith
Moves-work (then {r = r} i l {m = m} ms at mv) shut = omega (
  arith,
  Moves-work ms shut,
  Move-work mv ((Moves-shared ms).0 ∙ shut),
  sum_by-set work r.listeners i l m at,
)

-- A listener that has not returned can move.
abbrev CanMove : Shared → Listener → Type 0
CanMove s l = (t : Shared) × (m : Listener) × Move s l t m

draining-CanMove :
    (s : Shared) (l : Listener) (cs : List Connection)
    → s.cancelled ≡ true
    → l.phase ≡ draining
    → l.connections ≡ cs
    → CanMove s l
draining-CanMove s l [] stop at same = (_, _, return at same)
draining-CanMove s l (proxying ∷ cs) stop at same =
    (_, _, finish 0 interrupted (ap (λ c. get_elem? c 0) same) stop)
draining-CanMove s l (closing ∷ cs) stop at same = (_, _, release 0 (ap (λ c. get_elem? c 0) same))
draining-CanMove s l (ended ∷ cs) stop at same = (_, _, join 0 at (ap (λ c. get_elem? c 0) same))

listener-CanMove :
    (s : Shared) (l : Listener) (p : Phase)
    → s.cancelled ≡ true
    → l.phase ≡ p
    → (l.phase ≡ returned) ⊎ CanMove s l
listener-CanMove s l acquiring stop at = inr (_, _, acquire_cancelled at stop)
listener-CanMove s l accepting stop at = inr (_, _, accept_cancelled at stop)
listener-CanMove s l draining stop at = inr (draining-CanMove s l l.connections stop at refl)
listener-CanMove s l returned stop at = inl at

abbrev pub HasReturned : Listener → Type 0
HasReturned l = l.phase ≡ returned

find_move :
    (s : Shared) (ls : List Listener)
    → s.cancelled ≡ true
    → All HasReturned ls ⊎ ((i : ℕ) × (l : Listener) × (get_elem? ls i ≡ some l) × CanMove s l)
find_move s [] stop = inl tt
find_move s (l ∷ ls) stop = elim (listener-CanMove s l l.phase stop refl) [
  | inr can ↦ inr (0, l, refl, can)
  | inl done ↦ elim (find_move s ls stop) [
    | inl all ↦ inl (done, all)
    | inr (i, k, at, can) ↦ inr (suc i, k, at, can)
  ]
]

-- Behind a cancelled token and a closed semaphore, whatever the order of the moves: there are at
-- most as many of them as `work` counts; and after any of them, either all listeners have returned
-- or a further move can be made.
pub Moves-ends :
    {s t : Server} {n : ℕ}
    → s.shared.closed ≡ true
    → s.shared.cancelled ≡ true
    → Moves s n t
    → (n ≤ sum_by work s.listeners) × (All HasReturned t.listeners ⊎ ((u : Server) × Moves t 1 u))
Moves-ends {t = t} shut stop ms = (omega (arith, Moves-work ms shut), further)
  where
    further : All HasReturned t.listeners ⊎ ((u : Server) × Moves t 1 u)
    further = elim (find_move t.shared t.listeners ((Moves-shared ms).1 ∙ stop)) [
      | inl all ↦ inl all
      | inr (i, l, at, (_, _, mv)) ↦ inr (_, then i l still at mv)
    ]
