-- ===== src/Main.antt =====
-- src/main.rs: the program, from its arguments to its end.
pub mod Launch
mod Tests
use mathlib.Core.Option
use range_porter.Prelude.{ℕ, List, Option, some}
use range_porter.Result.{Result, ok, err}
use range_porter.Text.{Text}
use range_porter.Net.{SocketAddr}
use range_porter.Target.Resolve.{Lookup}
use range_porter.Target.Resolver.{Hickory, build_resolver}
use range_porter.Config.{Cli, RuntimeConfig, ConfigError, from_cli}
use range_porter.Socket.{Io, next, ◌>>=◌, Sys}
use range_porter.Runtime.{StartError, RunningApp, with_context, start, Join, shutdown}

-- The error of the program, by the call that fails.
pub data MainError (IoError Error : Type 0) : Type 0 where
  not_configured : ConfigError → MainError IoError Error
  not_started : StartError IoError → MainError IoError Error
  no_signal : IoError → MainError IoError Error
  task_failed : Error → MainError IoError Error

-- `parse_socket_addr` and `lookup_ip` are those of `from_cli`, `max_permits` that of
-- `start`.
module _ {World Socket IoError Group Resolver Error : Type 0} (sys : Sys World Socket IoError)
    (max_permits : ℕ) (parse_socket_addr : Text → Option SocketAddr)
    (hickory : Hickory Group Resolver) (lookup_ip : Resolver → Text → Lookup) where
  -- The configuration, bound at one time, and the start, at another.
  unfoldable pub launch :
      Cli → ℕ → ℕ → Io World (MainError IoError Error) (RunningApp Socket Resolver)
  unfolding from_cli start build_resolver
  launch cli bound_at started_at = do
    config ←
        with_context not_configured
          (λ w. (from_cli parse_socket_addr (build_resolver hickory) lookup_ip cli bound_at, w))
    with_context not_started (start sys max_permits config started_at)

abbrev pub task_error :
    {IoError Error : Type 0} → Result Error (Unit {0}) → Result (MainError IoError Error) (Unit {0})
task_error (ok u) = ok u
task_error (err e) = err (task_failed e)

module _ {World IoError Error : Type 0} where
  -- `app.shutdown()`, where the signal came.
  abbrev pub ending :
      Option (Result Error (Unit {0}))
      → Result IoError (Unit {0}) × World
      → Option (Result (MainError IoError Error) (Unit {0}) × World)
  ending stopped (err e, w) = some (err (no_signal e), w)
  ending stopped (ok u, w) = Option.map (λ r. (task_error r, w)) stopped

  -- `ctrl_c` waits for the signal. `joins` are the ends of the tasks of a program in a state, in order; `none` is the wait for
  -- one that does not come.
  abbrev pub serve :
      {Socket Resolver JoinError : Type 0}
      → (JoinError → Error)
      → Io World IoError (Unit {0})
      → (RunningApp Socket Resolver → List (Join Error JoinError))
      → Result (MainError IoError Error) (RunningApp Socket Resolver) × World
      → Option (Result (MainError IoError Error) (Unit {0}) × World)
  serve join_failure ctrl_c joins (err e, w) = some (err e, w)
  serve join_failure ctrl_c joins (ok app, w) = ending (shutdown join_failure app joins) (ctrl_c w)

module _ {World Socket IoError Group Resolver Error : Type 0} (sys : Sys World Socket IoError)
    (max_permits : ℕ) (parse_socket_addr : Text → Option SocketAddr)
    (hickory : Hickory Group Resolver) (lookup_ip : Resolver → Text → Lookup) where
  unfoldable pub main :
      {JoinError : Type 0}
      → (JoinError → Error)
      → Io World IoError (Unit {0})
      → Cli
      → ℕ
      → ℕ
      → (RunningApp Socket Resolver → List (Join Error JoinError))
      → World
      → Option (Result (MainError IoError Error) (Unit {0}) × World)
  unfolding launch shutdown
  main join_failure ctrl_c cli bound_at started_at joins w =
      serve join_failure ctrl_c joins
        (launch sys max_permits parse_socket_addr hickory lookup_ip cli bound_at started_at w)
