-- ===== src/Runtime/Shutdown.antt =====
-- What `shutdown` returns, and when it does.
use range_porter.Prelude.{
  ◌≤◌, ◌<◌, ◌≡◌, refl, sym, ap, ◌∙◌, true, List, [], ◌∷◌, Option, none, some, arith, length, take,
}
use range_porter.Result.{ok, err}
use range_porter.Runtime.{
  RunningApp, stop, Join, finished, not_joined, first_or_ok, failure, keep_first, join_all,
  shutdown,
}

keep_first_assoc :
    {Error : Type 0} (a b c : Option Error)
    → keep_first (keep_first a b) c ≡ keep_first a (keep_first b c)
keep_first_assoc none b c = refl
keep_first_assoc (some d) b c = refl

module _ {Error JoinError : Type 0} (join_failure : JoinError → Error) where
  -- The first failure among the results.
  abbrev pub first_failure : List (Join Error JoinError) → Option Error
  first_failure [] = none
  first_failure (finished (ok u) ∷ joins) = first_failure joins
  first_failure (finished (err e) ∷ joins) = some e
  first_failure (not_joined e ∷ joins) = some (join_failure e)

  first_failure-cons :
      (join : Join Error JoinError) (joins : List (Join Error JoinError))
      → first_failure (join ∷ joins) ≡ keep_first (failure join_failure join) (first_failure joins)
  unfolding failure
  first_failure-cons (finished (ok u)) joins = refl
  first_failure-cons (finished (err e)) joins = refl
  first_failure-cons (not_joined e) joins = refl

  join_all-enough :
      {Task : Type 0} (tasks : List Task) (joins : List (Join Error JoinError))
      (first : Option Error)
      → length tasks ≤ length joins
      → join_all join_failure tasks joins first
        ≡ some (keep_first first (first_failure (take (length tasks) joins)))
  unfolding join_all
  join_all-enough [] joins none h = refl
  join_all-enough [] joins (some e) h = refl
  join_all-enough (t ∷ ts) [] first h = absurd (omega (arith, h))
  join_all-enough (t ∷ ts) (j ∷ js) first h =
      join_all-enough ts js (keep_first first (failure join_failure j)) (omega (arith, h))
      ∙ ap some (keep_first_assoc first (failure join_failure j) _)
      ∙ ap (λ o. some (keep_first first o)) (sym (first_failure-cons j (take (length ts) js)))

  join_all-waits :
      {Task : Type 0} (tasks : List Task) (joins : List (Join Error JoinError))
      (first : Option Error)
      → length joins < length tasks
      → join_all join_failure tasks joins first ≡ none
  unfolding join_all
  join_all-waits [] joins first h = absurd (omega (arith, h))
  join_all-waits (t ∷ ts) [] first h = refl
  join_all-waits (t ∷ ts) (j ∷ js) first h =
      join_all-waits ts js (keep_first first (failure join_failure j)) (omega (arith, h))

  -- `shutdown` cancels the token and closes the semaphore, and returns as soon as the tasks of the
  -- program, stopped in this way, have ended; it waits until then. Its result is the first failure
  -- among their results, in the order in which they ended, and is a success if there is none.
  pub shutdown-first :
      {Socket Resolver : Type 0} (app : RunningApp Socket Resolver)
      (ends : RunningApp Socket Resolver → List (Join Error JoinError))
      → let joins = ends (record app { cancelled = true; closed = true }) in
        (length app.tasks ≤ length joins
          → shutdown join_failure app ends
            ≡ some (first_or_ok (first_failure (take (length app.tasks) joins))))
        × (length joins < length app.tasks → shutdown join_failure app ends ≡ none)
  unfolding shutdown stop
  shutdown-first app ends =
      let joins = ends (record app { cancelled = true; closed = true }) in
      (
        λ enough. rw (join_all-enough app.tasks joins none enough) refl,
        λ few. rw (join_all-waits app.tasks joins none few) refl,
      )
