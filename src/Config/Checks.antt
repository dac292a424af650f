-- ===== src/Config/Checks.antt =====
-- What a configuration made from the command line satisfies.
use range_porter.Prelude.{ℕ, ◌≤◌, ◌≡◌, ◌≢◌, refl, [], Option, arith}
use mathlib.Core.Path.{subst}
use range_porter.Result.{Result, ok, err, bind_ok}
use range_porter.Text.{Text}
use range_porter.Net.{SocketAddr}
use range_porter.PortSet.{PortSetError, parse_portset}
use range_porter.PortSet.Loop.{IsPortSet}
use range_porter.PortSet.Parse.{parse_portset-ok}
use range_porter.Target.{TargetError}
use range_porter.Target.HostPort.{Written}
use range_porter.Target.Resolve.{Lookup, bind}
use range_porter.Target.Bound.{Bound, bind-ok}
use range_porter.Config.{Cli, RuntimeConfig, portset_error, target_error, new, from_cli}

portset_error-ok :
    {A : Type 0} (r : Result PortSetError A) {a : A} → portset_error r ≡ ok a → r ≡ ok a
portset_error-ok (ok b) e = cc
portset_error-ok (err m) e = cc

target_error-ok : {A : Type 0} (r : Result TargetError A) {a : A} → target_error r ≡ ok a → r ≡ ok a
target_error-ok (ok b) e = cc
target_error-ok (err m) e = cc

module _ {Resolver : Type 0} where
  new-ok :
      (c d : RuntimeConfig Resolver)
      → new c ≡ ok d
      → (c ≡ d) × (1 ≤ c.udp_idle_timeout) × (1 ≤ c.stats_window) × (1 ≤ c.max_tcp_connections)
  unfolding new
  new-ok c d e = ground arith

module _ {Resolver : Type 0} (parse_socket_addr : Text → Option SocketAddr)
    (build_resolver : Option SocketAddr → Result TargetError Resolver)
    (lookup_ip : Resolver → Text → Lookup) where
  abbrev pub Configured : Cli → ℕ → RuntimeConfig Resolver → Type 0
  Configured cli now c =
      (parse_portset cli.listen_ports ≡ ok c.listen_ports)
      × IsPortSet c.listen_ports
      × (c.listen_ports ≢ [])
      × ((host : Text) × (port : ℕ) × Written cli.target host port
          × Bound parse_socket_addr build_resolver lookup_ip cli.target host port cli.dns_server now
              c.target)
      × ((c.udp_idle_timeout ≡ cli.udp_idle_timeout) × (1 ≤ c.udp_idle_timeout))
      × ((c.stats_window ≡ cli.stats_window) × (1 ≤ c.stats_window))
      × ((c.max_tcp_connections ≡ cli.max_tcp_connections) × (1 ≤ c.max_tcp_connections))
      × ((c.listen_host ≡ cli.listen_host)
          × (c.stats_bind ≡ cli.stats_bind)
          × (c.summary_interval ≡ cli.summary_interval))

  -- A configuration made from the command line listens on at least one port, on an ascending set of
  -- ports from 1 to 65535, those of the expression. Its target is one that the target text binds to.
  -- The idle timeout, the stats window and the limit on connections are those of the command line
  -- and not 0; the host, the address of the statistics and the interval of the summaries are those
  -- of the command line.
  pub from_cli-ok :
      (cli : Cli) (now : ℕ) (c : RuntimeConfig Resolver)
      → from_cli parse_socket_addr build_resolver lookup_ip cli now ≡ ok c
      → Configured cli now c
  unfolding from_cli
  from_cli-ok cli now c e =
      let (ports, parsed, e₁) = bind_ok (portset_error (parse_portset cli.listen_ports)) _ e in
      let (target, bound, e₂) =
        bind_ok
          (target_error
            (bind parse_socket_addr build_resolver lookup_ip cli.target cli.dns_server now))
          _ e₁ in
      let (same, timeout, window, limit) = new-ok _ c e₂ in
      let is_parsed = portset_error-ok (parse_portset cli.listen_ports) parsed in
      let (is_set, nonempty, _) = parse_portset-ok cli.listen_ports ports is_parsed in
      let is_bound =
        bind-ok parse_socket_addr build_resolver lookup_ip cli.target cli.dns_server now target (
          target_error-ok
            (bind parse_socket_addr build_resolver lookup_ip cli.target cli.dns_server now)
            bound) in
      subst (Configured cli now) same (
        is_parsed,
        is_set,
        nonempty,
        is_bound,
        (refl, timeout),
        (refl, window),
        (refl, limit),
        (refl, refl, refl),
      )
