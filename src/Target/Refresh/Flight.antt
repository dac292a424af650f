-- ===== src/Target/Refresh/Flight.antt =====
-- The stages of one round of a refresh, which steps of readers leave as they are.
use range_porter.Prelude.{
  ℕ, zero, suc, ◌+◌, ◌≤◌, ◌≡◌, refl, ap, ◌∙◌, ◌⊎◌, inl, inr, true, false, List, [], ◌∷◌, All, arith,
  leb,
}
use range_porter.Target.Resolve.{DynamicTarget, Resolved, Lookup, dns_failure_refresh, resolve_once}
use range_porter.Target.Refresh.{
  Task, resolving, keeping_stale, releasing, storing, System, Event, reads, tries, answers,
  reads_stale, stores, releases, after_lookup, read_current, exchange_flag, try_spawn_refresh,
  task_step, step, run,
}

-- A step of a reader.
abbrev pub IsReader : Event → Type 0
IsReader (reads now) = Unit
IsReader tries = Unit
IsReader _ = ⊥

module _ {Resolver : Type 0} where
  -- A round is over: no task is left, and the target is this.
  abbrev pub IsOver : DynamicTarget Resolver → System Resolver → Type 0
  IsOver target s = (s.target ≡ target) × (s.tasks ≡ [])

  -- The flag is up and one task is on its way, at a stage.
  abbrev pub Flight : DynamicTarget Resolver → Task → System Resolver → Type 0
  Flight target task s =
      (s.target ≡ record target { refresh_inflight = true }) × (s.tasks ≡ task ∷ [])

  -- A reader has yet to try the flag, which is down.
  abbrev Waiting : DynamicTarget Resolver → System Resolver → Type 0
  Waiting target s =
      (s.target ≡ target)
      × (target.refresh_inflight ≡ false)
      × (s.tasks ≡ [])
      × (1 ≤ s.expired_readers)

  read-Flight :
      (now : ℕ) (target : DynamicTarget Resolver) (task : Task) (s : System Resolver)
      → Flight target task s
      → Flight target task (read_current now s)
  unfolding read_current
  read-Flight now target task s f = ground arith

  try-Flight :
      (n : ℕ) (target : DynamicTarget Resolver) (task : Task) (s : System Resolver)
      → Flight target task s
      → Flight target task (try_spawn_refresh n s)
  unfolding try_spawn_refresh
  try-Flight zero target task s f = f
  try-Flight (suc n) target task s (same, one) =
      let up : s.target.refresh_inflight ≡ true = ap (λ t. t.refresh_inflight) same in
      simp up (same, one)

  reader-Flight :
      (e : Event) (target : DynamicTarget Resolver) (task : Task) (s : System Resolver)
      → IsReader e
      → Flight target task s
      → Flight target task (step s e)
  unfolding step
  reader-Flight (reads now) target task s r f = read-Flight now target task s f
  reader-Flight tries target task s r f = try-Flight s.expired_readers target task s f
  reader-Flight (answers i l now) target task s r f = elim r [ ]
  reader-Flight (reads_stale i now) target task s r f = elim r [ ]
  reader-Flight (stores i) target task s r f = elim r [ ]
  reader-Flight (releases i) target task s r f = elim r [ ]

  pub readers-Flight :
      (es : List Event) (target : DynamicTarget Resolver) (task : Task) (s : System Resolver)
      → All IsReader es
      → Flight target task s
      → Flight target task (run s es)
  unfolding run
  readers-Flight [] target task s r f = f
  readers-Flight (e ∷ es) target task s r f =
      readers-Flight es target task (step s e) r.1 (reader-Flight e target task s r.0 f)

  try-Waiting :
      (n : ℕ) (target : DynamicTarget Resolver) (s : System Resolver)
      → 1 ≤ n
      → target.refresh_inflight ≡ false
      → s.target ≡ target
      → s.tasks ≡ []
      → Flight target resolving (try_spawn_refresh n s)
  unfolding try_spawn_refresh exchange_flag
  try-Waiting zero target s h down same none_yet = absurd (omega arith)
  try-Waiting (suc n) target s h down same none_yet =
      let is_down : s.target.refresh_inflight ≡ false = ap (λ t. t.refresh_inflight) same ∙ down in
      simp is_down (
        ap {A = DynamicTarget Resolver} (λ t. record t { refresh_inflight = true }) same,
        ap (λ l. resolving ∷ l) none_yet,
      )

  abbrev pub Started : DynamicTarget Resolver → System Resolver → Type 0
  Started target s = Waiting target s ⊎ Flight target resolving s

  pub tries-Started :
      (target : DynamicTarget Resolver) (s : System Resolver)
      → Started target s
      → Flight target resolving (step s tries)
  unfolding step
  tries-Started target s (inl (same, down, none_yet, some_reader)) =
      try-Waiting s.expired_readers target s some_reader down same none_yet
  tries-Started target s (inr f) = try-Flight s.expired_readers target resolving s f

  read-Waiting :
      (now : ℕ) (target : DynamicTarget Resolver) (s : System Resolver)
      → Waiting target s
      → Waiting target (read_current now s)
  unfolding read_current
  read-Waiting now target s w = ground arith

  pub readers-Started :
      (es : List Event) (target : DynamicTarget Resolver) (s : System Resolver)
      → All IsReader es
      → Started target s
      → Started target (run s es)
  unfolding run step
  readers-Started [] target s r w = w
  readers-Started (e ∷ es) target s r (inr f) =
      inr (
        readers-Flight es target resolving (step s e) r.1
          (reader-Flight e target resolving s r.0 f))
  readers-Started (reads now ∷ es) target s r (inl w) =
      readers-Started es target (read_current now s) r.1 (inl (read-Waiting now target s w))
  readers-Started (tries ∷ es) target s r (inl w) =
      readers-Started es target (step s tries) r.1 (inr (tries-Started target s (inl w)))
  readers-Started (answers i l now ∷ es) target s r (inl w) = elim (r.0) [ ]
  readers-Started (reads_stale i now ∷ es) target s r (inl w) = elim (r.0) [ ]
  readers-Started (stores i ∷ es) target s r (inl w) = elim (r.0) [ ]
  readers-Started (releases i ∷ es) target s r (inl w) = elim (r.0) [ ]

  pub read-Started :
      (now : ℕ) (target : DynamicTarget Resolver) (s : System Resolver)
      → s.target ≡ target
      → target.refresh_inflight ≡ false
      → s.tasks ≡ []
      → target.current.valid_until ≤ now
      → Started target (step s (reads now))
  unfolding step read_current
  read-Started now target s same down none_yet old =
      let expired : leb s.target.current.valid_until now ≡ true =
        ap (λ t. leb t.current.valid_until now) same ∙ ground (arith, old) in
      rw expired (inl (same, down, none_yet, omega arith))

  -- The steps of the task.
  pub answers-Flight :
      (target : DynamicTarget Resolver) (s : System Resolver) (lookup : Lookup) (now : ℕ)
      → Flight target resolving s
      → Flight target
          (after_lookup (resolve_once target.host target.port lookup now))
          (step s (answers 0 lookup now))
  unfolding step task_step
  answers-Flight target s lookup now (same, one) =
      rw (one, task_step)
        (same, ap (λ t. after_lookup (resolve_once t.host t.port lookup now) ∷ []) same)

  pub reads_stale-Flight :
      (target : DynamicTarget Resolver) (s : System Resolver) (now : ℕ)
      → Flight target keeping_stale s
      → Flight target
          (storing (record { addr = target.current.addr; valid_until = now + dns_failure_refresh }))
          (step s (reads_stale 0 now))
  unfolding step task_step
  reads_stale-Flight target s now (same, one) =
      rw (one, task_step)
        (
          same,
          ap
              (λ t.
                storing (record { addr = t.current.addr; valid_until = now + dns_failure_refresh })
                ∷ [])
              same,
        )

  pub stores-Flight :
      (target : DynamicTarget Resolver) (s : System Resolver) (next : Resolved)
      → Flight target (storing next) s
      → Flight (record target { current = next }) releasing (step s (stores 0))
  unfolding step task_step
  stores-Flight target s next (same, one) =
      rw (one, task_step)
        (ap {A = DynamicTarget Resolver} (λ t. record t { current = next }) same, refl)

  pub releases-IsOver :
      (target : DynamicTarget Resolver) (s : System Resolver)
      → Flight target releasing s
      → IsOver (record target { refresh_inflight = false }) (step s (releases 0))
  unfolding step task_step
  releases-IsOver target s (same, one) =
      rw (one, task_step)
        (ap {A = DynamicTarget Resolver} (λ t. record t { refresh_inflight = false }) same, refl)
