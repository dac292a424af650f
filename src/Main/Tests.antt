-- ===== src/Main/Tests.antt =====
-- A program for two ports, on a system that numbers its sockets.
use range_porter.Prelude.{ℕ, ◌+◌, ◌≡◌, refl, false, List, [], ◌∷◌, Option, none, some}
use range_porter.Result.{ok, err}
use range_porter.Text.{
  Text, codes, split, split_once, strip_prefix, rsplit_once, is_empty, parse_u16, trim,
}
use range_porter.Net.{ip_v4, SocketAddr, v4}
use range_porter.PortSet.{parse_portset}
use range_porter.Stats.Registry
use range_porter.Target.{parse_port, split_host_port}
use range_porter.Target.Resolve.{TargetAddr, static_target, Lookup, failed, bind, display}
use range_porter.Target.Resolver.{Hickory, build_resolver}
use range_porter.Config.{Cli, from_cli}
use range_porter.Socket.{Sys}
use range_porter.Runtime.{
  root, child_token, the_semaphore, rollup, summary, tcp_run, udp_run, RunningApp, new_semaphore,
  bind_stats, bind_ports, handle, spawn_listeners, start, Join, finished, not_joined, failure,
  join_all, shutdown,
}
use range_porter.Main.{task_failed, launch, main}
use range_porter.Main.Launch.{IsRunning, launch-IsRunning}

abbrev sys : Sys ℕ ℕ ℕ
sys = record {
  new_socket = λ domain kind w. (ok w, w + 1);
  request = λ socket r w. (ok tt, w);
  local_addr = λ socket w. (ok (v4 0x7f00_0001 9100), w);
}

abbrev literal : Text → Option SocketAddr
literal raw = some (v4 0x0a00_0001 80)

abbrev no_resolver : Hickory (Unit {0}) (Unit {0})
no_resolver = record {
  from_ips_clear = λ ips port trust. tt;
  from_parts = λ group. tt;
  system = some tt;
}

abbrev no_answer : Unit {0} → Text → Lookup
no_answer resolver host = failed

abbrev arguments : Cli
arguments = record {
  listen_host = ip_v4 0;
  listen_ports = codes "81,80";
  target = codes "10.0.0.1:80";
  dns_server = none;
  udp_idle_timeout = 120;
  stats_bind = none;
  stats_window = 60;
  summary_interval = 60;
  max_tcp_connections = 1024;
}

abbrev target : TargetAddr (Unit {0})
target = static_target (record { raw = codes "10.0.0.1:80"; addr = v4 0x0a00_0001 80 })

abbrev app : RunningApp ℕ (Unit {0})
app = record {
  stats_bind = none;
  stats = Registry.new (80 ∷ 81 ∷ []) (codes "10.0.0.1:80") 60 5;
  cancelled = false;
  tasks =
      rollup (child_token root)
      ∷ summary 60 (child_token root)
      ∷ tcp_run 0 target 80 the_semaphore (child_token root)
      ∷ udp_run 1 target 120 80 (child_token root)
      ∷ tcp_run 2 target 81 the_semaphore (child_token root)
      ∷ udp_run 3 target 120 81 (child_token root)
      ∷ [];
  permits = 1024;
  closed = false;
}

launched : launch {Error = ℕ} sys 4096 literal no_resolver no_answer arguments 4 5 0 ≡ (ok app, 4)
unfolding launch start new_semaphore bind_stats bind_ports handle spawn_listeners Registry.new
    display from_cli parse_portset is_empty trim split split_once parse_u16 bind split_host_port
    strip_prefix rsplit_once parse_port build_resolver
launched = refl

launch-IsRunning_example : IsRunning sys 4096 literal no_resolver no_answer arguments 4 5 0 app 4
launch-IsRunning_example =
    launch-IsRunning sys 4096 literal no_resolver no_answer arguments 4 5 0 launched

-- The third task to end fails: the program ends with its error.
abbrev joins : List (Join ℕ ℕ)
joins =
    finished (ok tt)
    ∷ finished (ok tt)
    ∷ finished (err 7)
    ∷ not_joined 8
    ∷ finished (ok tt)
    ∷ finished (ok tt)
    ∷ []

fails :
    main sys 4096 literal no_resolver no_answer
      (λ e. e + 100)
      (λ w. (ok tt, w))
      arguments
      4
      5
      (λ stopped. joins)
      0
    ≡ some (err (task_failed 7), 4)
unfolding main launch start new_semaphore bind_stats bind_ports handle spawn_listeners Registry.new
    display from_cli parse_portset is_empty trim split split_once parse_u16 bind split_host_port
    strip_prefix rsplit_once parse_port build_resolver failure join_all shutdown
fails = refl
