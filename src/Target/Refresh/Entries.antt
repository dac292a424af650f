-- ===== src/Target/Refresh/Entries.antt =====
-- Properties of the cache entries, under every interleaving.
use range_porter.Prelude.{
  All-set, All-remove_at, All-get_elem?, ℕ, zero, suc, ◌+◌, ◌≤◌, ◌≡◌, refl, sym, inl, inr, List, [],
  ◌∷◌, some, arith, All, All-imp, get_elem?, leb, Bool-cases, Option,
}
use mathlib.Core.Path.{subst, subst₂}
use range_porter.Text.{Text}
use range_porter.Result.{Result, ok, err}
use range_porter.Target.{TargetError}
use range_porter.Net.{SocketAddr, socket_addr}
use range_porter.Target.Resolve.{
  DynamicTarget, Resolved, answered, dns_positive_max_ttl, dns_failure_refresh, resolve_once,
}
use range_porter.Target.Bound.{resolve_once-ok}
use range_porter.Target.Refresh.{
  Task, resolving, keeping_stale, storing, releasing, System, Event, reads, tries, answers,
  reads_stale, stores, releases, after_lookup, read_current, try_spawn_refresh, task_step, step,
  run, idle,
}

-- A property of cache entries, of the entries that a task is about to store, and of the entries
-- that a step makes.
abbrev TaskHolds : (Resolved → Type 0) → Task → Type 0
TaskHolds P (storing r) = P r
TaskHolds P _ = Unit

abbrev Makes : (Resolved → Type 0) → Text → ℕ → Event → Type 0
Makes P host port (answers i l now) =
    (r : Resolved) (ttl : ℕ) → resolve_once host port l now ≡ ok (r, ttl) → P r
Makes P host port (reads_stale i now) =
    (r : Resolved) → P r → P (record { addr = r.addr; valid_until = now + dns_failure_refresh })
Makes P host port _ = Unit

after_lookup-TaskHolds :
    (P : Resolved → Type 0) (o : Result TargetError (Resolved × ℕ))
    → ((r : Resolved) (ttl : ℕ) → o ≡ ok (r, ttl) → P r)
    → TaskHolds P (after_lookup o)
unfolding after_lookup
after_lookup-TaskHolds P (ok (r, ttl)) m = m r ttl refl
after_lookup-TaskHolds P (err e) m = tt

module _ {Resolver : Type 0} (P : Resolved → Type 0) where
  abbrev Holds : System Resolver → Type 0
  Holds s = P s.target.current × All (TaskHolds P) s.tasks

  task_step-Holds :
      (s : System Resolver) (e : Event) (i : ℕ) (t : Option Task)
      → get_elem? s.tasks i ≡ t
      → Makes P s.target.host s.target.port e
      → Holds s
      → Holds (task_step e t s)
  unfolding task_step
  task_step-Holds s (answers j l now) i (some resolving) e m h =
      (h.0, All-set (TaskHolds P) s.tasks j _ (after_lookup-TaskHolds P _ m) h.1)
  task_step-Holds s (reads_stale j now) i (some keeping_stale) e m h =
      (h.0, All-set (TaskHolds P) s.tasks j _ (m s.target.current h.0) h.1)
  task_step-Holds s (stores j) i (some (storing next)) e m h = (
    All-get_elem? (TaskHolds P) s.tasks i (storing next) e h.1,
    All-set (TaskHolds P) s.tasks j releasing tt h.1,
  )
  task_step-Holds s (releases j) i (some releasing) e m h =
      (h.0, All-remove_at (TaskHolds P) s.tasks j h.1)
  task_step-Holds s _ i _ e m h = h

  try_spawn_refresh-Holds : (n : ℕ) (s : System Resolver) → Holds s → Holds (try_spawn_refresh n s)
  unfolding try_spawn_refresh
  try_spawn_refresh-Holds zero s h = h
  try_spawn_refresh-Holds (suc n) s h = elim (Bool-cases s.target.refresh_inflight) [
    | inl up ↦ rw (up, try_spawn_refresh) h
    | inr down ↦ rw (down, try_spawn_refresh) (h.0, (tt, h.1))
  ]

  read_current-Holds : (now : ℕ) (s : System Resolver) → Holds s → Holds (read_current now s)
  unfolding read_current
  read_current-Holds now s h = elim (Bool-cases (leb s.target.current.valid_until now)) [
    | inl old ↦ rw (old, read_current) h
    | inr good ↦ rw (good, read_current) h
  ]

  step-Holds :
      (s : System Resolver) (e : Event)
      → Makes P s.target.host s.target.port e
      → Holds s
      → Holds (step s e)
  unfolding step
  step-Holds s (reads now) m h = read_current-Holds now s h
  step-Holds s tries m h = try_spawn_refresh-Holds s.expired_readers s h
  step-Holds s (answers i l now) m h =
      task_step-Holds s (answers i l now) i (get_elem? s.tasks i) refl m h
  step-Holds s (reads_stale i now) m h =
      task_step-Holds s (reads_stale i now) i (get_elem? s.tasks i) refl m h
  step-Holds s (stores i) m h = task_step-Holds s (stores i) i (get_elem? s.tasks i) refl m h
  step-Holds s (releases i) m h = task_step-Holds s (releases i) i (get_elem? s.tasks i) refl m h

module _ {Resolver : Type 0} where
  -- The host and the port of a target never change.
  abbrev Names : Text → ℕ → System Resolver → Type 0
  Names host port s = (s.target.host ≡ host) × (s.target.port ≡ port)

  step-Names :
      (host : Text) (port : ℕ) (s : System Resolver) (e : Event)
      → Names host port s
      → Names host port (step s e)
  unfolding step
  step-Names host port s (reads now) n = unfold read_current in ground arith
  step-Names host port s tries n = unfold try_spawn_refresh in try_names s.expired_readers
    where
      try_names : (k : ℕ) → Names host port (try_spawn_refresh k s)
      try_names zero = n
      try_names (suc k) = ground arith
  step-Names host port s e n = ground arith

  run-Holds :
      (P : Resolved → Type 0) (host : Text) (port : ℕ) (es : List Event) (s : System Resolver)
      → Names host port s
      → All (Makes P host port) es
      → Holds P s
      → Holds P (run s es)
  unfolding run
  run-Holds P host port [] s n m h = h
  run-Holds P host port (e ∷ es) s n m h =
      run-Holds P host port es (step s e) (step-Names host port s e n) m.1
        (step-Holds P s e (subst₂ (λ x y. Makes P x y e) (sym n.0) (sym n.1) m.0) h)

-- A new address comes from an answer of the resolver.
abbrev pub Gives : (SocketAddr → Type 0) → ℕ → Event → Type 0
Gives P port (answers i (answered (ip ∷ ips) deadline) now) = P (socket_addr ip port)
Gives P port _ = Unit

Gives→Makes :
    (P : SocketAddr → Type 0) (host : Text) (port : ℕ) (e : Event)
    → Gives P port e
    → Makes (λ r. P r.addr) host port e
Gives→Makes P host port (answers i l now) g = λ r ttl h.
    let (ip, ips, d, asked, same, _, _) = resolve_once-ok host port l now r ttl h in
    subst P (sym same) (subst (λ k. Gives P port (answers i k now)) asked g)
Gives→Makes P host port (reads_stale i now) g = λ r p. p
Gives→Makes P host port _ g = tt

-- From a target with no task: the address in use is the first one or one that some answer of the
-- resolver gave, with the target's port. What holds of all these holds of it. In particular failed
-- lookups keep it.
pub run-addr :
    {Resolver : Type 0} (target : DynamicTarget Resolver) (P : SocketAddr → Type 0)
    (es : List Event)
    → P target.current.addr
    → All (Gives P target.port) es
    → P (run (idle target) es).target.current.addr
run-addr target P es p g =
    (run-Holds (λ r. P r.addr) target.host target.port es (idle target) (refl, refl)
      (All-imp (Gives P target.port) (Makes (λ r. P r.addr) target.host target.port) es
        (Gives→Makes P target.host target.port) g)
      (p, tt)).0

-- The step is taken at `t` at the latest.
abbrev pub IsBy : ℕ → Event → Type 0
IsBy t (reads now) = now ≤ t
IsBy t (answers i l now) = now ≤ t
IsBy t (reads_stale i now) = now ≤ t
IsBy t _ = Unit

abbrev Expires : ℕ → Resolved → Type 0
Expires t r = r.valid_until ≤ t + dns_positive_max_ttl

IsBy→Makes : (t : ℕ) (host : Text) (port : ℕ) (e : Event) → IsBy t e → Makes (Expires t) host port e
IsBy→Makes t host port (answers i l now) b =
    λ r ttl h. let (_, _, _, _, _, _, high) = resolve_once-ok host port l now r ttl h in omega arith
IsBy→Makes t host port (reads_stale i now) b = λ r p. omega arith
IsBy→Makes t host port _ b = tt

-- From a target with no task, whose entry expires 600 seconds after the time `t` at the latest: steps
-- up to `t` leave an entry that does, so that a reader after that asks for a refresh.
pub run-valid_until :
    {Resolver : Type 0} (target : DynamicTarget Resolver) (t : ℕ) (es : List Event)
    → target.current.valid_until ≤ t + dns_positive_max_ttl
    → All (IsBy t) es
    → (run (idle target) es).target.current.valid_until ≤ t + dns_positive_max_ttl
run-valid_until target t es p b =
    (run-Holds (Expires t) target.host target.port es (idle target) (refl, refl)
      (All-imp (IsBy t) (Makes (Expires t) target.host target.port) es
        (IsBy→Makes t target.host target.port) b)
      (p, tt)).0
