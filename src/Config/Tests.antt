-- ===== src/Config/Tests.antt =====
-- A command line, and its configuration.
use range_porter.Prelude.{◌*◌, ◌≡◌, refl, false, [], ◌∷◌, Option, none}
use range_porter.Result.{Result, ok}
use range_porter.Text.{
  Text, codes, split, split_once, strip_prefix, rsplit_once, is_empty, parse_u16, trim,
}
use range_porter.Net.{ip_v4, SocketAddr, socket_addr}
use range_porter.PortSet.{parse_portset}
use range_porter.Target.{TargetError, parse_port, split_host_port}
use range_porter.Target.Resolve.{second, dynamic_target, Lookup, answered, bind, resolve_once}
use range_porter.Config.{Cli, RuntimeConfig, from_cli}

data Resolver : Type 0 where
  system : Resolver

abbrev no_literal : Text → Option SocketAddr
no_literal raw = none

abbrev one_resolver : Option SocketAddr → Result TargetError Resolver
one_resolver dns_server = ok system

abbrev answer : Resolver → Text → Lookup
answer resolver host = answered (ip_v4 167_772_161 ∷ []) (90 * second)

abbrev arguments : Cli
arguments = record {
  listen_host = ip_v4 0;
  listen_ports = codes "80,443";
  target = codes "example.com:443";
  dns_server = none;
  udp_idle_timeout = 120 * second;
  stats_bind = none;
  stats_window = 60;
  summary_interval = 60 * second;
  max_tcp_connections = 65_536;
}

abbrev config : RuntimeConfig Resolver
config = record {
  listen_host = ip_v4 0;
  listen_ports = 80 ∷ 443 ∷ [];
  target = dynamic_target (record {
    raw = codes "example.com:443";
    host = codes "example.com";
    port = 443;
    resolver = system;
    current = record { addr = socket_addr (ip_v4 167_772_161) 443; valid_until = 90 * second };
    refresh_inflight = false;
  });
  udp_idle_timeout = 120 * second;
  stats_bind = none;
  stats_window = 60;
  summary_interval = 60 * second;
  max_tcp_connections = 65_536;
}

accepts_the_defaults : from_cli no_literal one_resolver answer arguments (10 * second) ≡ ok config
unfolding from_cli parse_portset is_empty trim split split_once parse_u16 bind split_host_port
    strip_prefix rsplit_once parse_port resolve_once
accepts_the_defaults = refl
