-- ===== src/Target/Refresh.antt =====
-- `DynamicTarget::current` and `try_spawn_refresh`: readers on any thread, and the refresh tasks
-- that they spawn, as interleaved steps. Each step is one access to the lock or to the flag.
pub mod Safety
pub mod Entries
pub mod Flight
pub mod Progress
use range_porter.Prelude.{
  ℕ, zero, suc, ◌+◌, ◌-◌, Bool, true, false, List, [], ◌∷◌, Option, none, some, get_elem?,
  remove_at, set, leb, ◌==◌, if◌then◌else◌,
}
use range_porter.Result.{Result, ok, err}
use range_porter.Target.{TargetError}
use range_porter.Target.Resolve.{
  DynamicTarget, Resolved, Lookup, failed, answered, dns_failure_refresh, resolve_once,
}

-- Where a refresh task stands: before the answer of the resolver; after a failed lookup; before the
-- write to the lock; before the release of the flag.
pub data Task : Type 0 where
  resolving keeping_stale releasing : Task
  storing : Resolved → Task

-- `expired_readers` have seen an expired entry and have yet to try the flag.
pub record System (Resolver : Type 0) : Type 0 where
  pub target : DynamicTarget Resolver
  pub expired_readers : ℕ
  pub tasks : List Task

-- A step of a reader, or of the task at a position.
pub data Event : Type 0 where
  reads : (now : ℕ) → Event
  tries : Event
  answers : (i : ℕ) → Lookup → (now : ℕ) → Event
  reads_stale : (i now : ℕ) → Event
  stores releases : (i : ℕ) → Event

-- What follows the answer of the resolver.
unfoldable pub after_lookup : Result TargetError (Resolved × ℕ) → Task
after_lookup (ok (resolved, ttl)) = storing resolved
after_lookup (err e) = keeping_stale

module _ {Resolver : Type 0} where
  -- The read of the lock in `current`, and the test of the time.
  unfoldable pub read_current : ℕ → System Resolver → System Resolver
  read_current now s =
      if leb s.target.current.valid_until now
      then record s { expired_readers = suc s.expired_readers }
      else s

  -- The exchange of the flag, which spawns a task where it succeeds.
  unfoldable pub exchange_flag : System Resolver → System Resolver
  exchange_flag s = if s.target.refresh_inflight then s else record s {
    target = record target { refresh_inflight = true };
    tasks = resolving ∷ s.tasks;
  }
    where
      open s use {target}

  unfoldable pub try_spawn_refresh : ℕ → System Resolver → System Resolver
  unfolding exchange_flag
  try_spawn_refresh zero s = s
  try_spawn_refresh (suc waiting) s = exchange_flag (record s { expired_readers = waiting })

  -- A step of the task at position `i`, which stands at `task`.
  unfoldable pub task_step : Event → Option Task → System Resolver → System Resolver
  unfolding after_lookup
  task_step (answers i lookup now) (some resolving) s = record s {
    tasks = set s.tasks i (after_lookup (resolve_once s.target.host s.target.port lookup now));
  }
  task_step (reads_stale i now) (some keeping_stale) s = record s {
    tasks = set s.tasks i (
        storing (record { addr = s.target.current.addr; valid_until = now + dns_failure_refresh }));
  }
  task_step (stores i) (some (storing next)) s = record s {
    target = record t { current = next };
    tasks = set s.tasks i releasing;
  }
    where
      open s use {target as t}
  task_step (releases i) (some releasing) s = record s {
    target = record t { refresh_inflight = false };
    tasks = remove_at s.tasks i;
  }
    where
      open s use {target as t}
  task_step _ _ s = s

  unfoldable pub step : System Resolver → Event → System Resolver
  unfolding read_current try_spawn_refresh task_step
  step s (reads now) = read_current now s
  step s tries = try_spawn_refresh s.expired_readers s
  step s (answers i lookup now) = task_step (answers i lookup now) (get_elem? s.tasks i) s
  step s (reads_stale i now) = task_step (reads_stale i now) (get_elem? s.tasks i) s
  step s (stores i) = task_step (stores i) (get_elem? s.tasks i) s
  step s (releases i) = task_step (releases i) (get_elem? s.tasks i) s

  unfoldable pub run : System Resolver → List Event → System Resolver
  run s [] = s
  run s (e ∷ es) = run (step s e) es

  -- A target that was just bound.
  abbrev pub idle : DynamicTarget Resolver → System Resolver
  idle target = record { target = target; expired_readers = 0; tasks = [] }
