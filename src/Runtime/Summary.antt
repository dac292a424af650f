-- ===== src/Runtime/Summary.antt =====
-- The summaries that `summary_loop` logs, and `RunningApp::stats_bind`.
use range_porter.Prelude.{ℕ, ◌%◌, ◌≡◌, List, [], ◌∷◌, Option, All, All-imp}
use range_porter.Word.{u64_mod}
use range_porter.Net.{SocketAddr}
use range_porter.Stats.Registry.{StatsRegistry, StatsSnapshot, snapshot}
use range_porter.Stats.Registry.History.{Action, act, run}
use range_porter.Stats.Registry.Totals.{Field, sum, snapshot-totals}
use range_porter.Runtime.{RunningApp}

unfoldable pub stats_bind :
    {Socket Resolver : Type 0} → RunningApp Socket Resolver → Option SocketAddr
stats_bind app = app.stats_bind

-- The fields of the line.
pub record Summary : Type 0 where
  pub tcp_active : ℕ
  pub udp_active_flows : ℕ
  pub tcp_in_bytes : ℕ
  pub tcp_out_bytes : ℕ
  pub udp_in_bytes : ℕ
  pub udp_out_bytes : ℕ

unfoldable pub summary_of : StatsSnapshot → Summary
summary_of s = record {
  tcp_active = s.totals.tcp_active;
  udp_active_flows = s.totals.udp_active_flows;
  tcp_in_bytes = s.totals.tcp_in_bytes;
  tcp_out_bytes = s.totals.tcp_out_bytes;
  udp_in_bytes = s.totals.udp_in_bytes;
  udp_out_bytes = s.totals.udp_out_bytes;
}

-- What other tasks do to the registry, a tick of the interval at a time, or the cancelled token.
pub data Turn : Type 0 where
  acts : Action → Turn
  ticks : ℕ → Turn
  cancelled : Turn

-- The lines.
unfoldable pub summary_loop : List Turn → StatsRegistry → List Summary
unfolding snapshot summary_of act
summary_loop [] r = []
summary_loop (acts a ∷ turns) r = summary_loop turns (act a r)
summary_loop (ticks now ∷ turns) r = summary_of (snapshot r now) ∷ summary_loop turns r
summary_loop (cancelled ∷ turns) r = []

-- The sums over the ports of a registry at one time.
abbrev pub IsSummary : StatsRegistry → Summary → Type 0
IsSummary r l =
    (now : ℕ) × (let ports = (snapshot r now).ports in
      (l.tcp_active ≡ sum Field.active ports % u64_mod)
      × (l.udp_active_flows ≡ sum Field.flows ports % u64_mod)
      × (l.tcp_in_bytes ≡ sum Field.tcp_in ports % u64_mod)
      × (l.tcp_out_bytes ≡ sum Field.tcp_out ports % u64_mod)
      × (l.udp_in_bytes ≡ sum Field.udp_in ports % u64_mod)
      × (l.udp_out_bytes ≡ sum Field.udp_out ports % u64_mod))

summary_of-IsSummary : (r : StatsRegistry) (now : ℕ) → IsSummary r (summary_of (snapshot r now))
unfolding summary_of
summary_of-IsSummary r now =
    let total = snapshot-totals r now in
    (
      now,
      (
        total Field.active,
        total Field.flows,
        total Field.tcp_in,
        total Field.tcp_out,
        total Field.udp_in,
        total Field.udp_out,
      ),
    )

-- The registry of each line: it stands at what the other tasks have made of it by then.
abbrev pub IsOfRun : StatsRegistry → Summary → Type 0
IsOfRun r l = (as_ : List Action) × IsSummary (run r as_) l

-- Each line has the sums over the ports, modulo 2^64, of the counters at one moment of the run.
pub summary_loop-IsOfRun :
    (turns : List Turn) (r : StatsRegistry) → All (IsOfRun r) (summary_loop turns r)
unfolding summary_loop run
summary_loop-IsOfRun [] r = tt
summary_loop-IsOfRun (acts a ∷ turns) r =
    All-imp (IsOfRun (act a r)) (IsOfRun r) (summary_loop turns (act a r))
      (λ l (as_, is_summary). (a ∷ as_, is_summary)) (summary_loop-IsOfRun turns (act a r))
summary_loop-IsOfRun (ticks now ∷ turns) r =
    (([], summary_of-IsSummary r now), summary_loop-IsOfRun turns r)
summary_loop-IsOfRun (cancelled ∷ turns) r = tt
