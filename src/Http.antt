-- ===== src/Http.antt =====
-- src/http.rs: the routes of the statistics endpoint. The router and the server are axum's: a request
-- for a path that is no route is answered by axum, and so is a method other than GET or HEAD.
use mathlib.Core.Path.{subst}
use range_porter.Prelude.{ℕ, ◌%◌, ◌≡◌, sym, ap, ◌∙◌, inl, inr, List, [], ◌∷◌, In}
use range_porter.Word.{u64_mod}
use range_porter.Text.{Text, codes}
use range_porter.Stats.Registry.{StatsRegistry, StatsSnapshot, snapshot}
use range_porter.Stats.Registry.Totals.{Field, of_totals, sum, snapshot-totals}

-- The bodies of responses.
pub data Body : Type 0 where
  plain : Text → Body
  json : StatsSnapshot → Body

abbrev pub healthz : Text
healthz = codes "ok"

unfoldable pub stats_snapshot : StatsRegistry → ℕ → StatsSnapshot
unfolding snapshot
stats_snapshot stats now = snapshot stats now

-- A handler answers from the state of the registry and the time.
abbrev pub Handler : Type 0
Handler = StatsRegistry → ℕ → Body

abbrev pub routes : List (Text × Handler)
routes =
    (codes "/healthz", λ stats now. plain healthz)
    ∷ (codes "/stats", λ stats now. json (stats_snapshot stats now))
    ∷ []

-- A route that answers with statistics is `/stats`, and it answers with those of the time: each total
-- is the sum modulo 2^64 of that counter over the ports listed.
pub routes-totals :
    (path : Text) (handler : Handler) (stats : StatsRegistry) (now : ℕ) (s : StatsSnapshot)
    (f : Field)
    → In (path, handler) routes
    → handler stats now ≡ json s
    → (path ≡ codes "/stats")
      × (s.generated_at_epoch ≡ now)
      × (of_totals f s.totals ≡ sum f s.ports % u64_mod)
unfolding stats_snapshot snapshot
routes-totals path handler stats now s f (inl at) e =
    let is_plain : plain healthz ≡ json s = sym (ap (λ r. r.1 stats now) at) ∙ e in absurd (cc)
routes-totals path handler stats now s f (inr (inl at)) e =
    let is_json : json (snapshot stats now) ≡ json s = sym (ap (λ r. r.1 stats now) at) ∙ e in
    let same : snapshot stats now ≡ s = cc in
    (
      ap (λ r. r.0) at,
      ap (λ s. s.generated_at_epoch) (sym same),
      subst (λ s. of_totals f s.totals ≡ sum f s.ports % u64_mod) same
          (snapshot-totals stats now f),
    )
routes-totals path handler stats now s f (inr (inr none_left)) e = elim none_left [ ]
