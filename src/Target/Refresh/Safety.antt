-- ===== src/Target/Refresh/Safety.antt =====
-- What holds of a dynamic target under every interleaving of readers and refresh tasks.
use range_porter.Prelude.{
  ℕ, zero, suc, ◌≡◌, refl, ap, ◌⊎◌, inl, inr, true, false, List, [], ◌∷◌, arith,
}
use range_porter.Target.Resolve.{DynamicTarget}
use range_porter.Target.Refresh.{
  Task, resolving, System, Event, reads, tries, answers, reads_stale, stores, releases,
  read_current, try_spawn_refresh, step, run, idle,
}

module _ {Resolver : Type 0} where
  -- The flag is up exactly while one task is on its way.
  abbrev pub SingleFlight : System Resolver → Type 0
  SingleFlight s =
      ((s.target.refresh_inflight ≡ true) × ((k : Task) × (s.tasks ≡ k ∷ [])))
      ⊎ ((s.target.refresh_inflight ≡ false) × (s.tasks ≡ []))

  read_current-SingleFlight :
      (now : ℕ) (s : System Resolver) → SingleFlight s → SingleFlight (read_current now s)
  unfolding read_current
  read_current-SingleFlight now s f = ground arith

  try_spawn_refresh-SingleFlight :
      (n : ℕ) (s : System Resolver) → SingleFlight s → SingleFlight (try_spawn_refresh n s)
  unfolding try_spawn_refresh
  try_spawn_refresh-SingleFlight zero s f = f
  try_spawn_refresh-SingleFlight (suc n) s (inl (up, (k, t))) = rw up (inl (refl, (k, t)))
  try_spawn_refresh-SingleFlight (suc n) s (inr (down, t)) =
      rw down (inl (refl, (resolving, ap (λ l. resolving ∷ l) t)))

  step-SingleFlight : (s : System Resolver) (e : Event) → SingleFlight s → SingleFlight (step s e)
  unfolding step
  step-SingleFlight s (reads now) f = read_current-SingleFlight now s f
  step-SingleFlight s tries f = try_spawn_refresh-SingleFlight s.expired_readers s f
  step-SingleFlight s (answers zero l now) f = ground arith
  step-SingleFlight s (answers (suc i) l now) f = ground arith
  step-SingleFlight s (reads_stale zero now) f = ground arith
  step-SingleFlight s (reads_stale (suc i) now) f = ground arith
  step-SingleFlight s (stores zero) f = ground arith
  step-SingleFlight s (stores (suc i)) f = ground arith
  step-SingleFlight s (releases zero) f = ground arith
  step-SingleFlight s (releases (suc i)) f = ground arith

  run-SingleFlight :
      (es : List Event) (s : System Resolver) → SingleFlight s → SingleFlight (run s es)
  unfolding run
  run-SingleFlight [] s f = f
  run-SingleFlight (e ∷ es) s f = run-SingleFlight es (step s e) (step-SingleFlight s e f)

-- From a target with the flag down and no task, whatever readers and tasks do, in whatever order: the flag is up exactly while one refresh task is
-- on its way, and there is never a second one.
pub single_flight :
    {Resolver : Type 0} (target : DynamicTarget Resolver) (es : List Event)
    → target.refresh_inflight ≡ false
    → SingleFlight (run (idle target) es)
single_flight target es down = run-SingleFlight es (idle target) (inr (down, refl))
