-- ===== src/Runtime.antt =====
-- src/runtime.rs: the start of the program and its shutdown. A spawned task is a value that says
-- what it runs. A panic of `start` is an error of its own.
pub mod Requests
pub mod Binding
pub mod Start
pub mod Shutdown
pub mod Summary
mod Tests
use range_porter.Prelude.{
  ℕ, Bool, true, false, List, [], ◌∷◌, ◌++◌, Option, none, some, ltb, ◌==◌, if◌then◌else◌,
}
use mathlib.Core.Option
use range_porter.Result.{Result, ok, err}
use range_porter.Net.{IpAddr, SocketAddr, socket_addr}
use range_porter.Socket.{Io, pure, next, ◌>>=◌, ◌>>◌, Sys, bind_tcp_listener, bind_udp_socket}
use range_porter.Stats.Port.{PortStats}
use range_porter.Stats.Registry.{StatsRegistry, StatsSnapshot, port}
use range_porter.Stats.Registry
use range_porter.Target.Resolve.{TargetAddr, display}
use range_porter.Config.{RuntimeConfig}

-- The first two are panics, of `Semaphore::new` and of `StatsRegistry::port`.
pub data StartError (IoError : Type 0) : Type 0 where
  too_many_permits : StartError IoError
  unknown_port : ℕ → StartError IoError
  stats_bind_failed tcp_bind_failed udp_bind_failed : SocketAddr → IoError → StartError IoError
  stats_address_failed : IoError → StartError IoError

abbrev pub annotate : {World E F A : Type 0} → (E → F) → Result E A × World → Result F A × World
annotate context (ok a, w) = (ok a, w)
annotate context (err e, w) = (err (context e), w)

-- `with_context`.
abbrev pub with_context : {World E F A : Type 0} → (E → F) → Io World E A → Io World F A
with_context context m w = annotate context (m w)

-- The token that `start` makes, and a child of a token, which is cancelled with it.
pub data Token : Type 0 where
  root : Token
  child_token : Token → Token

-- The semaphores that the program makes are numbered; `start` makes the first.
abbrev pub the_semaphore : ℕ
the_semaphore = 0

-- What a task runs, with what it captures. A port stands for the handle of its counters.
pub data Task (Socket Resolver : Type 0) : Type 0 where
  rollup : (shutdown : Token) → Task Socket Resolver
  summary : (interval : ℕ) → (shutdown : Token) → Task Socket Resolver
  stats_server : Socket → (shutdown : Token) → Task Socket Resolver
  tcp_run :
      Socket
      → TargetAddr Resolver
      → (port semaphore : ℕ) → (shutdown : Token) → Task Socket Resolver
  udp_run :
      Socket
      → TargetAddr Resolver
      → (idle_timeout port : ℕ) → (shutdown : Token) → Task Socket Resolver

-- `permits` and `closed` are the state of the semaphore, `cancelled` that of the root token.
pub record RunningApp (Socket Resolver : Type 0) : Type 0 where
  pub stats_bind : Option SocketAddr
  pub stats : StatsRegistry
  pub cancelled : Bool
  pub tasks : List (Task Socket Resolver)
  pub permits : ℕ
  pub closed : Bool

pub record Bound (Socket : Type 0) : Type 0 where
  pub port : ℕ
  pub tcp_listener : Socket
  pub udp_socket : Socket

abbrev pub bound_of : {Socket : Type 0} → Option (Socket × SocketAddr) → Option SocketAddr
bound_of none = none
bound_of (some (listener, bound)) = some bound

-- `Semaphore::new`, which panics above tokio's limit `max_permits`.
unfoldable pub new_semaphore : {World IoError : Type 0} → ℕ → ℕ → Io World (StartError IoError) ℕ
new_semaphore max_permits permits w =
    if ltb max_permits permits then (err too_many_permits, w) else (ok permits, w)

module _ {World Socket IoError : Type 0} (sys : Sys World Socket IoError) where
  unfoldable pub bind_stats :
      Option SocketAddr → Io World (StartError IoError) (Option (Socket × SocketAddr))
  unfolding bind_tcp_listener
  bind_stats none = pure none
  bind_stats (some address) = do
    listener ← with_context (stats_bind_failed address) (bind_tcp_listener sys address)
    bound ← with_context stats_address_failed (sys.local_addr listener)
    pure (some (listener, bound))

  -- The loop that binds the ports, with the listeners that are bound so far.
  unfoldable pub bind_ports :
      IpAddr → List ℕ → List (Bound Socket) → Io World (StartError IoError) (List (Bound Socket))
  unfolding bind_tcp_listener bind_udp_socket
  bind_ports host [] listeners = pure listeners
  bind_ports host (p ∷ ps) listeners = do
    let address = socket_addr host p
    tcp_listener ← with_context (tcp_bind_failed address) (bind_tcp_listener sys address)
    udp_socket ← with_context (udp_bind_failed address) (bind_udp_socket sys address)
    let bound : Bound Socket = record {
      port = p;
      tcp_listener = tcp_listener;
      udp_socket = udp_socket;
    }
    bind_ports host ps (listeners ++ bound ∷ [])

module _ {World IoError : Type 0} where
  abbrev pub found : ℕ → Option PortStats → Io World (StartError IoError) (Unit {0})
  found p none w = (err (unknown_port p), w)
  found p (some s) w = (ok tt, w)

  -- `stats.port(port)`.
  unfoldable pub handle : StatsRegistry → ℕ → Io World (StartError IoError) (Unit {0})
  unfolding port
  handle stats p = found p (port stats p)

module _ {Socket Resolver : Type 0} where
  abbrev pub summary_tasks : ℕ → List (Task Socket Resolver)
  summary_tasks interval = if interval == 0 then [] else summary interval (child_token root) ∷ []

  abbrev pub stats_tasks : Option (Socket × SocketAddr) → List (Task Socket Resolver)
  stats_tasks none = []
  stats_tasks (some (listener, bound)) = stats_server listener (child_token root) ∷ []

  abbrev pub port_tasks : RuntimeConfig Resolver → Bound Socket → List (Task Socket Resolver)
  port_tasks config b =
      tcp_run b.tcp_listener config.target b.port the_semaphore (child_token root)
      ∷ udp_run b.udp_socket config.target config.udp_idle_timeout b.port (child_token root)
      ∷ []

  -- The loop that spawns the two tasks of each port, with the tasks so far.
  unfoldable pub spawn_listeners :
      {World IoError : Type 0}
      → RuntimeConfig Resolver
      → StatsRegistry
      → List (Bound Socket)
      → List (Task Socket Resolver)
      → Io World (StartError IoError) (List (Task Socket Resolver))
  unfolding handle
  spawn_listeners config stats [] tasks = pure tasks
  spawn_listeners config stats (b ∷ bs) tasks =
      handle stats b.port >> spawn_listeners config stats bs (tasks ++ port_tasks config b)

  unfoldable pub start :
      {World IoError : Type 0}
      → Sys World Socket IoError
      → ℕ
      → RuntimeConfig Resolver
      → ℕ
      → Io World (StartError IoError) (RunningApp Socket Resolver)
  unfolding new_semaphore bind_stats bind_ports spawn_listeners
  start sys max_permits config now = do
    tcp_semaphore ← new_semaphore max_permits config.max_tcp_connections
    let stats = Registry.new config.listen_ports (display config.target) config.stats_window now
    stats_endpoint ← bind_stats sys config.stats_bind
    listeners ← bind_ports sys config.listen_host config.listen_ports []
    let tasks =
        rollup (child_token root) ∷ summary_tasks config.summary_interval
        ++ stats_tasks stats_endpoint
    all_tasks ← spawn_listeners config stats listeners tasks
    pure (record {
      stats_bind = bound_of stats_endpoint;
      stats = stats;
      cancelled = false;
      tasks = all_tasks;
      permits = tcp_semaphore;
      closed = false;
    })

-- How a task ends: with its result, or with a failure to join it (a panic).
pub data Join (Error JoinError : Type 0) : Type 0 where
  finished : Result Error (Unit {0}) → Join Error JoinError
  not_joined : JoinError → Join Error JoinError

module _ {Socket Resolver : Type 0} where
  unfoldable pub snapshot : RunningApp Socket Resolver → ℕ → StatsSnapshot
  snapshot app now = Registry.snapshot app.stats now

  -- What `shutdown` does before it waits.
  unfoldable pub stop : RunningApp Socket Resolver → RunningApp Socket Resolver
  stop app = record app { cancelled = true; closed = true }

abbrev pub first_or_ok : {Error : Type 0} → Option Error → Result Error (Unit {0})
first_or_ok (some e) = err e
first_or_ok none = ok tt

-- `if first_error.is_none() { first_error = Some(error) }`.
abbrev pub keep_first : {Error : Type 0} → Option Error → Option Error → Option Error
keep_first none error = error
keep_first (some first) error = some first

-- `join_failure` makes the error of a task that cannot be joined.
module _ {Error JoinError : Type 0} (join_failure : JoinError → Error) where
  -- A task's failure: `none` is its success.
  unfoldable pub failure : Join Error JoinError → Option Error
  failure (finished (ok _)) = none
  failure (finished (err e)) = some e
  failure (not_joined e) = some (join_failure e)

  -- One round of `join_next` for each task. The tasks end in any order: the list holds their ends
  -- in that order, and `none` is the wait for a task that has not ended.
  unfoldable pub join_all :
      {Task : Type 0}
      → List Task
      → List (Join Error JoinError)
      → Option Error
      → Option (Option Error)
  unfolding failure
  join_all [] joins first_error = some first_error
  join_all (task ∷ tasks) [] first_error = none
  join_all (task ∷ tasks) (join ∷ joins) first_error =
      join_all tasks joins (keep_first first_error (failure join))

  -- `ends` says how the tasks of a program in a state end, in the order in which they do.
  unfoldable pub shutdown :
      {Socket Resolver : Type 0}
      → RunningApp Socket Resolver
      → (RunningApp Socket Resolver → List (Join Error JoinError))
      → Option (Result Error (Unit {0}))
  unfolding stop join_all
  shutdown app ends =
      let stopped = stop app in Option.map first_or_ok (join_all stopped.tasks (ends stopped) none)
