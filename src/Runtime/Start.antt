-- ===== src/Runtime/Start.antt =====
-- What `start` asks of the system, and what it leaves running.
use range_porter.Prelude.{
  inl, inr, All, ℕ, zero, suc, ◌≤◌, ◌≡◌, refl, sym, ap, ◌∙◌, true, false, List, [], ◌∷◌, ◌++◌,
  Option, none, some, arith, In, ◌==◌, Bool, if◌then◌else◌, append_assoc, append-nil,
}
use mathlib.Core.Path.{subst}
use range_porter.Result.{Result, ok, err, ok_inj}
use range_porter.Text.{Text}
use range_porter.Net.{SocketAddr}
use range_porter.Socket.{next, Sys}
use range_porter.Stats.Registry.{StatsRegistry, port}
use range_porter.Stats.Registry
use range_porter.Stats.Registry.Ports.{port-new}
use range_porter.Target.Resolve.{display}
use range_porter.Config.{RuntimeConfig}
use range_porter.Runtime.Binding.{
  ports_of, port_requests, IsServing, bind_stats-IsServing, bind_ports-AreBound,
}
use range_porter.Runtime.Requests.{AreGranted, next-split}
use range_porter.Runtime.{
  root, child_token, the_semaphore, Task, rollup, summary, stats_server, tcp_run, udp_run,
  RunningApp, Bound, bound_of, new_semaphore, bind_stats, bind_ports, handle, summary_tasks,
  stats_tasks, spawn_listeners, start, port_tasks,
}

All-In : (ps qs : List ℕ) → ((p : ℕ) → In p ps → In p qs) → All (λ p. In p qs) ps
All-In [] qs h = tt
All-In (p ∷ ps) qs h = (h p (inl refl), All-In ps qs λ q i. h q (inr i))

-- The summaries and the server of the statistics, where there are any.
abbrev pub summaries : {Socket Resolver : Type 0} → ℕ → List (Task Socket Resolver)
summaries zero = []
summaries (suc n) = summary (suc n) (child_token root) ∷ []

abbrev pub servers :
    {Socket Resolver : Type 0} → Option (Socket × SocketAddr) → List (Task Socket Resolver)
servers none = []
servers (some (listener, bound)) = stats_server listener (child_token root) ∷ []

first_tasks-listed :
    {Socket Resolver : Type 0} (interval : ℕ) (endpoint : Option (Socket × SocketAddr))
    → ◌≡◌ {A = List (Task Socket Resolver)}
        (rollup (child_token root) ∷ summary_tasks interval ++ stats_tasks endpoint)
        (rollup (child_token root) ∷ summaries interval ++ servers endpoint)
first_tasks-listed zero none = refl
first_tasks-listed zero (some (listener, bound)) = refl
first_tasks-listed (suc n) none =
    let some_interval : (suc n == 0) ≡ false = ground arith in rw some_interval refl
first_tasks-listed (suc n) (some (listener, bound)) =
    let some_interval : (suc n == 0) ≡ false = ground arith in rw some_interval refl

-- The tasks of the bound ports, in order.
abbrev pub all_port_tasks :
    {Socket Resolver : Type 0}
    → RuntimeConfig Resolver
    → List (Bound Socket)
    → List (Task Socket Resolver)
all_port_tasks config [] = []
all_port_tasks config (b ∷ bs) =
    tcp_run b.tcp_listener config.target b.port the_semaphore (child_token root)
    ∷ udp_run b.udp_socket config.target config.udp_idle_timeout b.port (child_token root)
    ∷ all_port_tasks config bs

module _ {World IoError : Type 0} where
  handle-In :
      (ps : List ℕ) (target : Text) (window now p : ℕ) (w : World)
      → In p ps
      → handle {IoError = IoError} (Registry.new ps target window now) p w ≡ (ok tt, w)
  unfolding handle
  handle-In ps target window now p w i = rw ((port-new ps target window now p).0 i) refl

new_semaphore-le :
    {World IoError : Type 0} (max_permits permits : ℕ) (w : World)
    → permits ≤ max_permits
    → new_semaphore {IoError = IoError} max_permits permits w ≡ (ok permits, w)
unfolding new_semaphore
new_semaphore-le max_permits permits w h = ground arith

few-split :
    {World E A : Type 0} (b : Bool) (x : E) (p : A) (w : World) {q : A} {v : World}
    → ◌≡◌ {A = Result E A × World} (if b then (err x, w) else (ok p, w)) (ok q, v)
    → (b ≡ false) × (p ≡ q) × (w ≡ v)
few-split true x p w e = let failed = ap (λ p. p.0) e in absurd (cc)
few-split false x p w e = (refl, ok_inj (ap (λ p. p.0) e), ap (λ p. p.1) e)

module _ {World Socket IoError Resolver : Type 0} (sys : Sys World Socket IoError) (max_permits : ℕ)
    (config : RuntimeConfig Resolver) (now : ℕ) where
  abbrev new_registry : StatsRegistry
  new_registry = Registry.new config.listen_ports (display config.target) config.stats_window now

  spawn_listeners-served :
      (bs : List (Bound Socket)) (tasks : List (Task Socket Resolver)) (w : World)
      → All (λ p. In p config.listen_ports) (ports_of bs)
      → spawn_listeners {IoError = IoError} config new_registry bs tasks w
        ≡ (ok (tasks ++ all_port_tasks config bs), w)
  unfolding spawn_listeners
  spawn_listeners-served [] tasks w h = ap (λ ts. (ok ts, w)) (sym (append-nil tasks))
  spawn_listeners-served (b ∷ bs) tasks w (i, h) =
      let served =
        handle-In {IoError = IoError} config.listen_ports (display config.target)
          config.stats_window now b.port w i in
      rw (served, next, spawn_listeners-served bs (tasks ++ port_tasks config b) w h)
        (ap (λ ts. (ok ts, w))
          (append_assoc tasks (port_tasks config b) (all_port_tasks config bs)))

  -- What runs: the rollup, the summaries unless their interval is zero, the statistics server if
  -- it has an address, and for each port, in order, its two listeners; on fresh counters. The
  -- requests for the sockets, and no others, lead from one world to the other.
  abbrev pub IsStarted : World → RunningApp Socket Resolver → World → Type 0
  IsStarted w app u =
      (endpoint : Option (Socket × SocketAddr)) × (bs : List (Bound Socket)) × (v : World)
      × IsServing sys config.stats_bind endpoint w v
      × AreGranted sys (port_requests config.listen_host bs) v u
      × (ports_of bs ≡ config.listen_ports)
      × (config.max_tcp_connections ≤ max_permits)
      × (app ≡ record {
        stats_bind = bound_of endpoint;
        stats = new_registry;
        cancelled = false;
        tasks =
            (rollup (child_token root) ∷ summaries config.summary_interval ++ servers endpoint)
            ++ all_port_tasks config bs;
        permits = config.max_tcp_connections;
        closed = false;
      })

  new_semaphore-split :
      (w : World) {permits : ℕ} {v : World}
      → new_semaphore {IoError = IoError} max_permits config.max_tcp_connections w ≡ (ok permits, v)
      → (config.max_tcp_connections ≤ max_permits)
        × (config.max_tcp_connections ≡ permits)
        × (w ≡ v)
  unfolding new_semaphore
  new_semaphore-split w e =
      let (few, same, at) = few-split _ _ _ _ e in (ground (arith, few), same, at)

  -- A start that succeeds has made a TCP listener and a UDP socket, reusable and bound to the
  -- address of each listen port, in the order of the ports, and before them the statistics
  -- listener if an address is configured: it has asked the system for these sockets, their options
  -- and addresses, all were granted, and it has asked nothing else. It runs the rollup, the
  -- summaries unless their interval is zero, the statistics server if it is bound, and the two
  -- listeners of each port on the sockets made for it, on fresh counters, and with all permits,
  -- which are no more than a semaphore can have.
  pub start-IsStarted :
      (w : World) {app : RunningApp Socket Resolver} {u : World}
      → start {IoError = IoError} sys max_permits config now w ≡ (ok app, u)
      → IsStarted w app u
  unfolding start
  start-IsStarted w {app} {u} e =
      let (permits, w0, has_permits, e1) =
        next-split (new_semaphore max_permits config.max_tcp_connections w) _ e in
      let (few, all_of_them, same_world) = new_semaphore-split w has_permits in
      let (endpoint, v, served, e2) = next-split (bind_stats sys config.stats_bind w0) _ e1 in
      let (bs, x, bound, e3) =
        next-split (bind_ports sys config.listen_host config.listen_ports [] v) _ e2 in
      let (new, same, ports, granted) =
        bind_ports-AreBound sys config.listen_host config.listen_ports [] v x bound in
      let in_order : ports_of bs ≡ config.listen_ports = ap ports_of same ∙ ports in
      let known =
        subst (λ ps. All (λ p. In p config.listen_ports) ps) (sym in_order)
          (All-In config.listen_ports config.listen_ports (λ p i. i)) in
      let first_tasks =
        rollup (child_token root) ∷ summary_tasks config.summary_interval ++ stats_tasks endpoint in
      let (all_tasks, y, spawned, last) =
        next-split (spawn_listeners config new_registry bs first_tasks x) _ e3 in
      let served_all = sym (spawn_listeners-served bs first_tasks x known) ∙ spawned in
      let at_end : x ≡ u = ap (λ p. p.1) served_all ∙ ap (λ p. p.1) last in
      (
        endpoint,
        bs,
        v,
        subst (λ w1. IsServing sys config.stats_bind endpoint w1 v) (sym same_world)
            (bind_stats-IsServing sys config.stats_bind w0 v served),
        subst (λ w1. AreGranted sys (port_requests config.listen_host bs) v w1) at_end
            (subst (λ l. AreGranted sys (port_requests config.listen_host l) v x) (sym same)
              granted),
        in_order,
        few,
        sym (ok_inj (ap (λ p. p.0) last))
            ∙ ap (λ n. running endpoint all_tasks n) (sym all_of_them)
            ∙ ap (λ ts. running endpoint ts config.max_tcp_connections)
                (sym (ok_inj (ap (λ p. p.0) served_all))
                  ∙ ap (λ ts. ts ++ all_port_tasks config bs)
                      (first_tasks-listed config.summary_interval endpoint)),
      )
    where
      running :
          Option (Socket × SocketAddr)
          → List (Task Socket Resolver)
          → ℕ
          → RunningApp Socket Resolver
      running endpoint tasks permits = record {
        stats_bind = bound_of endpoint;
        stats = new_registry;
        cancelled = false;
        tasks = tasks;
        permits = permits;
        closed = false;
      }
