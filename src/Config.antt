-- ===== src/Config.antt =====
-- src/config.rs: the configuration that the program runs with, checked. `Cli` holds the arguments
-- of src/cli.rs that it is made from, as the argument parser has read them.
pub mod Checks
mod Tests
use range_porter.Prelude.{
  ℕ, Bool, true, false, List, [], ◌∷◌, Option, none, some, ◌==◌, if◌then◌else◌,
}
use range_porter.Result.{Result, ok, err, ◌>>=◌}
use range_porter.Text.{Text}
use range_porter.Net.{IpAddr, SocketAddr}
use range_porter.PortSet.{PortSetError, parse_portset}
use range_porter.Target.{TargetError}
use range_porter.Target.Resolve.{TargetAddr, Lookup, bind}

pub record Cli : Type 0 where
  pub listen_host : IpAddr
  pub listen_ports : Text
  pub target : Text
  pub dns_server : Option SocketAddr
  pub udp_idle_timeout : ℕ
  pub stats_bind : Option SocketAddr
  pub stats_window : ℕ
  pub summary_interval : ℕ
  pub max_tcp_connections : ℕ

pub record RuntimeConfig (Resolver : Type 0) : Type 0 where
  pub listen_host : IpAddr
  pub listen_ports : List ℕ
  pub target : TargetAddr Resolver
  pub udp_idle_timeout : ℕ
  pub stats_bind : Option SocketAddr
  pub stats_window : ℕ
  pub summary_interval : ℕ
  pub max_tcp_connections : ℕ

pub data ConfigError : Type 0 where
  no_listen_port zero_idle_timeout zero_stats_window zero_tcp_connections : ConfigError
  invalid_ports : PortSetError → ConfigError
  invalid_target : TargetError → ConfigError

abbrev pub portset_error {ℓ} : {A : Type ℓ} → Result PortSetError A → Result ConfigError A
portset_error (ok a) = ok a
portset_error (err e) = err (invalid_ports e)

abbrev pub target_error {ℓ} : {A : Type ℓ} → Result TargetError A → Result ConfigError A
target_error (ok a) = ok a
target_error (err e) = err (invalid_target e)

abbrev pub no_ports : List ℕ → Bool
no_ports [] = true
no_ports (p ∷ ps) = false

-- The fields of `c` are the arguments.
unfoldable pub new :
    {Resolver : Type 0} → RuntimeConfig Resolver → Result ConfigError (RuntimeConfig Resolver)
new c =
    if no_ports c.listen_ports
    then err no_listen_port
    else if c.udp_idle_timeout == 0
    then err zero_idle_timeout
    else if c.stats_window == 0
    then err zero_stats_window
    else if c.max_tcp_connections == 0
    then err zero_tcp_connections
    else ok c

module _ {Resolver : Type 0} (parse_socket_addr : Text → Option SocketAddr)
    (build_resolver : Option SocketAddr → Result TargetError Resolver)
    (lookup_ip : Resolver → Text → Lookup) where
  unfoldable pub from_cli : Cli → ℕ → Result ConfigError (RuntimeConfig Resolver)
  unfolding new
  from_cli cli now = do
    listen_ports ← portset_error (parse_portset cli.listen_ports)
    target ←
        target_error (bind parse_socket_addr build_resolver lookup_ip cli.target cli.dns_server now)
    new (record {
      listen_host = cli.listen_host;
      listen_ports = listen_ports;
      target = target;
      udp_idle_timeout = cli.udp_idle_timeout;
      stats_bind = cli.stats_bind;
      stats_window = cli.stats_window;
      summary_interval = cli.summary_interval;
      max_tcp_connections = cli.max_tcp_connections;
    })
