-- ===== src/Runtime/Tests.antt =====
-- A start on a system that numbers its sockets, and a shutdown.
use range_porter.Prelude.{ℕ, arith, ◌+◌, ◌≡◌, refl, false, List, [], ◌∷◌, some}
use range_porter.Result.{ok, err}
use range_porter.Net.{ip_v4, v4}
use range_porter.Text.{codes}
use range_porter.Socket.{Sys}
use range_porter.Stats.Registry
use range_porter.Target.Resolve.{TargetAddr, static_target, display}
use range_porter.Config.{RuntimeConfig}
use range_porter.Runtime.{
  root, child_token, the_semaphore, Task, rollup, stats_server, tcp_run, udp_run, RunningApp,
  new_semaphore, bind_stats, bind_ports, handle, spawn_listeners, start, failure, Join, finished,
  not_joined, shutdown,
}
use range_porter.Runtime.Start.{IsStarted, start-IsStarted}
use range_porter.Runtime.Shutdown.{shutdown-first}

abbrev sys : Sys ℕ ℕ ℕ
sys = record {
  new_socket = λ domain kind w. (ok w, w + 1);
  request = λ socket r w. (ok tt, w);
  local_addr = λ socket w. (ok (v4 0x7f00_0001 9100), w);
}

abbrev target : TargetAddr (Unit {0})
target = static_target (record { raw = codes "10.0.0.1:80"; addr = v4 0x0a00_0001 80 })

abbrev config : RuntimeConfig (Unit {0})
config = record {
  listen_host = ip_v4 0;
  listen_ports = 8000 ∷ 8001 ∷ [];
  target = target;
  udp_idle_timeout = 120;
  stats_bind = some (v4 0x7f00_0001 0);
  stats_window = 60;
  summary_interval = 0;
  max_tcp_connections = 1024;
}

abbrev tasks : List (Task ℕ (Unit {0}))
tasks =
    rollup (child_token root)
    ∷ stats_server 0 (child_token root)
    ∷ tcp_run 1 target 8000 the_semaphore (child_token root)
    ∷ udp_run 2 target 120 8000 (child_token root)
    ∷ tcp_run 3 target 8001 the_semaphore (child_token root)
    ∷ udp_run 4 target 120 8001 (child_token root)
    ∷ []

abbrev app : RunningApp ℕ (Unit {0})
app = record {
  stats_bind = some (v4 0x7f00_0001 9100);
  stats = Registry.new (8000 ∷ 8001 ∷ []) (codes "10.0.0.1:80") 60 5;
  cancelled = false;
  tasks = tasks;
  permits = 1024;
  closed = false;
}

started : start {IoError = ℕ} sys 4096 config 5 0 ≡ (ok app, 5)
unfolding start new_semaphore bind_stats bind_ports handle spawn_listeners Registry.new display
started = refl

start-IsStarted_example : IsStarted sys 4096 config 5 0 app 5
start-IsStarted_example = start-IsStarted sys 4096 config 5 0 started

abbrev ends : List (Join ℕ ℕ)
ends =
    finished (ok tt)
    ∷ not_joined 7
    ∷ finished (err 3)
    ∷ finished (ok tt)
    ∷ finished (ok tt)
    ∷ finished (ok tt)
    ∷ []

shutdown-first_example : shutdown (λ e. e + 100) app (λ stopped. ends) ≡ some (err 107)
unfolding failure
shutdown-first_example = (shutdown-first (λ (e : ℕ). e + 100) app (λ stopped. ends)).0 (omega arith)
