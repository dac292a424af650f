-- ===== src/Main/Launch.antt =====
-- From the arguments to the tasks that run.
use range_porter.Prelude.{ℕ, ◌≤◌, ◌≡◌, ◌↔◌, sym, ap, ◌∙◌, List, ◌++◌, ◌∷◌, Option, In, Any}
use mathlib.Core.Path.{subst}
use range_porter.Result.{ok}
use range_porter.Text.{Text, split}
use range_porter.Net.{SocketAddr}
use range_porter.PortSet.Covers.{Covers}
use range_porter.PortSet.Loop.{IsPortSet}
use range_porter.PortSet.Parse.{parse_portset-ok}
use range_porter.Target.Resolve.{Lookup}
use range_porter.Target.Resolver.{Hickory, build_resolver}
use range_porter.Config.{Cli, RuntimeConfig}
use range_porter.Config.Checks.{Configured, from_cli-ok}
use range_porter.Socket.{Sys}
use range_porter.Runtime.{start, RunningApp, Bound, root, child_token, rollup}
use range_porter.Runtime.Requests.{AreGranted, next-split, annotate-split}
use range_porter.Runtime.Binding.{ports_of, port_requests, IsServing}
use range_porter.Runtime.Start.{summaries, servers, all_port_tasks, IsStarted, start-IsStarted}
use range_porter.Main.{not_configured, not_started, launch}

module _ {World Socket IoError Group Resolver : Type 0} (sys : Sys World Socket IoError)
    (max_permits : ℕ) (parse_socket_addr : Text → Option SocketAddr)
    (hickory : Hickory Group Resolver) (lookup_ip : Resolver → Text → Lookup) (cli : Cli)
    (bound_at started_at : ℕ) where
  -- What runs, said of the arguments, and the requests for its sockets.
  abbrev pub IsRunning : World → RunningApp Socket Resolver → World → Type 0
  IsRunning w app u =
      (c : RuntimeConfig Resolver) × (endpoint : Option (Socket × SocketAddr)) × (bs : List
        (Bound Socket))
      × (v : World) × Configured parse_socket_addr (build_resolver hickory) lookup_ip cli bound_at c
      × ((p : ℕ) → In p (ports_of bs) ↔ Any (Covers p) (split b',' cli.listen_ports))
      × IsPortSet (ports_of bs)
      × IsServing sys cli.stats_bind endpoint w v
      × AreGranted sys (port_requests cli.listen_host bs) v u
      × (app.tasks
          ≡ (rollup (child_token root) ∷ summaries cli.summary_interval ++ servers endpoint)
            ++ all_port_tasks c bs)
      × (app.permits ≡ cli.max_tcp_connections)
      × (cli.max_tcp_connections ≤ max_permits)

  IsRunning-of_IsStarted :
      (c : RuntimeConfig Resolver) (w : World) (app : RunningApp Socket Resolver) (u : World)
      → Configured parse_socket_addr (build_resolver hickory) lookup_ip cli bound_at c
      → IsStarted sys max_permits c started_at w app u
      → IsRunning w app u
  IsRunning-of_IsStarted c w app u configured (endpoint, bs, v, serving, bound, ports, few, same) =
      let (parsed, is_set, _, _, _, _, limit, (host, stats, interval)) = configured in
      let (_, _, denoted) = parse_portset-ok cli.listen_ports c.listen_ports parsed in
      (
        c,
        endpoint,
        bs,
        v,
        configured,
        subst (λ ps. (p : ℕ) → In p ps ↔ Any (Covers p) (split b',' cli.listen_ports)) (sym ports)
            denoted,
        subst IsPortSet (sym ports) is_set,
        subst (λ a. IsServing sys a endpoint w v) stats serving,
        subst (λ h. AreGranted sys (port_requests h bs) v u) host bound,
        ap (λ a. a.tasks) same
            ∙ ap
                (λ i.
                  (rollup (child_token root) ∷ summaries i ++ servers endpoint)
                  ++ all_port_tasks c bs)
                interval,
        ap (λ a. a.permits) same ∙ limit.0,
        subst (λ n. n ≤ max_permits) (limit.0) few,
      )

  -- A program that starts has made a TCP listener and a UDP socket, in ascending order, for exactly
  -- the ports that some segment of its first argument covers, bound to the host given, and before
  -- them the statistics listener where an address is given: it has asked the system for these
  -- sockets and nothing else, and all was granted. It runs a task for each, which forwards to what
  -- the target text is bound to. The TCP listeners of all ports share one semaphore, which has as
  -- many permits as the argument says, and all tasks have a child of the token of the shutdown.
  pub launch-IsRunning :
      {Error : Type 0} (w : World) {app : RunningApp Socket Resolver} {u : World}
      → launch {Error = Error} sys max_permits parse_socket_addr hickory lookup_ip cli bound_at
          started_at w
        ≡ (ok app, u)
      → IsRunning w app u
  unfolding launch
  launch-IsRunning w {app} {u} e =
      let (c, v, configured, started) = next-split _ _ e in
      let from = annotate-split not_configured _ configured in
      let same_world : w ≡ v = ap (λ p. p.1) from in
      IsRunning-of_IsStarted c w app u
        (from_cli-ok parse_socket_addr (build_resolver hickory) lookup_ip cli bound_at c
          (ap (λ p. p.0) from))
        (start-IsStarted sys max_permits c started_at w (
          subst (λ x. start sys max_permits c started_at x ≡ (ok app, u)) (sym same_world)
            (annotate-split not_started _ started)))
