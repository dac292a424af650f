-- ===== src/Target/Refresh/Progress.antt =====
-- One round of a refresh, from the reader that finds the entry expired to the release of the flag,
-- whatever other readers do meanwhile.
use range_porter.Prelude.{
  ℕ, suc, ◌+◌, ◌≤◌, ◌≡◌, refl, sym, ap, ◌∙◌, inl, inr, false, List, [], ◌∷◌, ◌++◌, All, arith,
}
use mathlib.Core.Path.{subst}
use range_porter.Result.{ok, err}
use range_porter.Target.{TargetError}
use range_porter.Target.Resolve.{DynamicTarget, Resolved, Lookup, dns_failure_refresh, resolve_once}
use range_porter.Target.Refresh.{
  Task, resolving, keeping_stale, releasing, storing, System, Event, reads, tries, answers,
  reads_stale, stores, releases, after_lookup, step, run, idle,
}
use range_porter.Target.Refresh.Safety.{SingleFlight, single_flight}
use range_porter.Target.Refresh.Flight.{
  IsReader, IsOver, Flight, Started, readers-Flight, readers-Started, read-Started, tries-Started,
  answers-Flight, reads_stale-Flight, stores-Flight, releases-IsOver,
}

-- Events with others before each: those before the `i`-th are `between i`.
abbrev pub weave : (ℕ → List Event) → ℕ → List Event → List Event
weave between i [] = []
weave between i (e ∷ es) = between i ++ (e ∷ weave between (suc i) es)

-- What a reader and its task do in a round whose lookup succeeds, and in one whose lookup fails.
abbrev pub successful_round : Lookup → ℕ → List Event
successful_round lookup answered_at =
    tries ∷ answers 0 lookup answered_at ∷ stores 0 ∷ releases 0 ∷ []

abbrev pub failed_round : Lookup → ℕ → ℕ → List Event
failed_round lookup answered_at kept_at =
    tries ∷ answers 0 lookup answered_at ∷ reads_stale 0 kept_at ∷ stores 0 ∷ releases 0 ∷ []

run-append :
    {Resolver : Type 0} (es fs : List Event) (s : System Resolver)
    → run s (es ++ fs) ≡ run (run s es) fs
unfolding run
run-append [] fs s = refl
run-append (e ∷ es) fs s = run-append es fs (step s e)

module _ {Resolver : Type 0} (between : ℕ → List Event)
    (others : (i : ℕ) → All IsReader (between i)) where
  -- From the last event to the first: what is left of the round ends it.
  run-weave :
      (i : ℕ) (e : Event) (es : List Event) (s : System Resolver)
      → run s (weave between i (e ∷ es))
        ≡ run (step (run s (between i)) e) (weave between (suc i) es)
  unfolding run
  run-weave i e es s = run-append (between i) (e ∷ weave between (suc i) es) s

  released-IsOver :
      (i : ℕ) (target : DynamicTarget Resolver) (s : System Resolver)
      → Flight target releasing s
      → IsOver
          (record target { refresh_inflight = false })
          (run s (weave between i (releases 0 ∷ [])))
  unfolding run
  released-IsOver i target s f =
      subst (IsOver (record target { refresh_inflight = false }))
        (sym (run-weave i (releases 0) [] s))
        (releases-IsOver target (run s (between i))
          (readers-Flight (between i) target releasing s (others i) f))

  stored-IsOver :
      (i : ℕ) (next : Resolved) (target : DynamicTarget Resolver) (s : System Resolver)
      → Flight target (storing next) s
      → IsOver
          (record target { current = next; refresh_inflight = false })
          (run s (weave between i (stores 0 ∷ releases 0 ∷ [])))
  stored-IsOver i next target s f =
      subst (IsOver (record target { current = next; refresh_inflight = false }))
        (sym (run-weave i (stores 0) (releases 0 ∷ []) s))
        (released-IsOver (suc i) (record target { current = next }) _
          (stores-Flight target (run s (between i)) next
            (readers-Flight (between i) target (storing next) s (others i) f)))

  kept-IsOver :
      (i kept_at : ℕ) (target : DynamicTarget Resolver) (s : System Resolver)
      → Flight target keeping_stale s
      → IsOver
          (record target {
            current = record {
              addr = target.current.addr;
              valid_until = kept_at + dns_failure_refresh;
            };
            refresh_inflight = false;
          })
          (run s (weave between i (reads_stale 0 kept_at ∷ stores 0 ∷ releases 0 ∷ [])))
  kept-IsOver i kept_at target s f =
      subst (IsOver _) (sym (run-weave i (reads_stale 0 kept_at) (stores 0 ∷ releases 0 ∷ []) s)) (
        stored-IsOver (suc i) _ target _ (
          reads_stale-Flight target (run s (between i)) kept_at
            (readers-Flight (between i) target keeping_stale s (others i) f)))

  tried-Flight :
      (i answered_at : ℕ) (lookup : Lookup) (rest : List Event) (target : DynamicTarget Resolver)
      (next : Task) (s : System Resolver)
      → Started target s
      → after_lookup (resolve_once target.host target.port lookup answered_at) ≡ next
      → (over : DynamicTarget Resolver)
      → ((t : System Resolver)
          → Flight target next t
          → IsOver over (run t (weave between (suc (suc i)) rest)))
      → IsOver over (run s (weave between i (tries ∷ answers 0 lookup answered_at ∷ rest)))
  tried-Flight i answered_at lookup rest target next s w asked over finish =
      let tried = step (run s (between i)) tries in
      let in_flight =
        tries-Started target (run s (between i))
          (readers-Started (between i) target s (others i) w) in
      let resolved = step (run tried (between (suc i))) (answers 0 lookup answered_at) in
      let answered_flight =
        answers-Flight target (run tried (between (suc i))) lookup answered_at
          (readers-Flight (between (suc i)) target resolving tried (others (suc i)) in_flight) in
      subst (IsOver over)
        (sym (
          run-weave i tries (answers 0 lookup answered_at ∷ rest) s
          ∙ run-weave (suc i) (answers 0 lookup answered_at) rest tried))
        (finish resolved (subst (λ task. Flight target task resolved) asked answered_flight))

  round-IsOver :
      (now answered_at kept_at : ℕ) (lookup : Lookup) (s : System Resolver)
      → s.target.refresh_inflight ≡ false
      → s.tasks ≡ []
      → s.target.current.valid_until ≤ now
      → ((r : Resolved) (ttl : ℕ)
          → resolve_once s.target.host s.target.port lookup answered_at ≡ ok (r, ttl)
          → IsOver
              (record s.target { current = r; refresh_inflight = false })
              (run s (reads now ∷ weave between 0 (successful_round lookup answered_at))))
        × ((e : TargetError)
            → resolve_once s.target.host s.target.port lookup answered_at ≡ err e
            → IsOver
                (record s.target {
                  current = record {
                    addr = s.target.current.addr;
                    valid_until = kept_at + dns_failure_refresh;
                  };
                  refresh_inflight = false;
                })
                (run s (reads now ∷ weave between 0 (failed_round lookup answered_at kept_at))))
  unfolding run after_lookup
  round-IsOver now answered_at kept_at lookup s down none_yet old =
      let w = read-Started now s.target s refl down none_yet old in
      (
        (λ r ttl asked.
            tried-Flight 0 answered_at lookup (stores 0 ∷ releases 0 ∷ []) s.target (storing r)
              (step s (reads now)) w (ap after_lookup asked) _ (stored-IsOver 2 r s.target)),
        (λ e asked.
            tried-Flight 0 answered_at lookup (reads_stale 0 kept_at ∷ stores 0 ∷ releases 0 ∷ [])
              s.target keeping_stale (step s (reads now)) w (ap after_lookup asked) _
              (kept-IsOver 2 kept_at s.target)),
      )

no_task :
    {Resolver : Type 0} (s : System Resolver)
    → SingleFlight s
    → s.target.refresh_inflight ≡ false
    → s.tasks ≡ []
no_task s (inl (up, some_task)) down = absurd (ground arith)
no_task s (inr (is_down, none_yet)) down = none_yet

-- Wherever readers and tasks have brought a target that was bound with the flag down: if the flag
-- is down again, a reader that finds the entry expired causes one round, whatever steps of other
-- readers come before each step of the round, expired readers among them. Where the lookup
-- succeeds, the entry becomes the one it gave; where it fails, the old address stays and is valid
-- for 30 seconds more from then. Either way the flag is down at the end and no task is left.
pub refresh_round :
    {Resolver : Type 0} (target : DynamicTarget Resolver) (es : List Event)
    (between : ℕ → List Event) (now answered_at kept_at : ℕ) (lookup : Lookup)
    → target.refresh_inflight ≡ false
    → (run (idle target) es).target.refresh_inflight ≡ false
    → (run (idle target) es).target.current.valid_until ≤ now
    → ((i : ℕ) → All IsReader (between i))
    → let s = run (idle target) es in
      ((r : Resolved) (ttl : ℕ)
        → resolve_once s.target.host s.target.port lookup answered_at ≡ ok (r, ttl)
        → IsOver
            (record s.target { current = r; refresh_inflight = false })
            (run s (reads now ∷ weave between 0 (successful_round lookup answered_at))))
      × ((e : TargetError)
          → resolve_once s.target.host s.target.port lookup answered_at ≡ err e
          → IsOver
              (record s.target {
                current = record {
                  addr = s.target.current.addr;
                  valid_until = kept_at + dns_failure_refresh;
                };
                refresh_inflight = false;
              })
              (run s (reads now ∷ weave between 0 (failed_round lookup answered_at kept_at))))
refresh_round target es between now answered_at kept_at lookup was_down down old others =
    let s = run (idle target) es in
    round-IsOver between others now answered_at kept_at lookup s down
      (no_task s (single_flight target es was_down) down) old
