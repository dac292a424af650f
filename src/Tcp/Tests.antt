-- ===== src/Tcp/Tests.antt =====
-- Two ports with one permit between them: a connection on the first, and a shutdown.
use range_porter.Prelude.{◌+◌, ◌≤◌, ◌≡◌, ◌⊎◌, refl, true, false, List, [], ◌∷◌, arith, All, sum_by}
use range_porter.Stats.Port
use range_porter.Stats.Port.{PortStats, record_tcp_accept}
use range_porter.Tcp.{
  acquiring, accepting, proxying, closing, copied, proxy, Move, Server, Step, Reach, here, later,
  listen, init,
}
use range_porter.Tcp.Permits.{held, active_connections, Reach-permits}
use range_porter.Tcp.Bytes.{IsAfter, Reach-bytes}
use range_porter.Tcp.Accounts.{IsAccounted, Reach-IsAccounted}
use range_porter.Tcp.Drain.{Moves, still, work, HasReturned, Moves-ends}

abbrev ports : List PortStats
ports = Port.new 80 ∷ Port.new 443 ∷ []

-- The listener of port 80 has accepted a connection; the permit is with the connection's task.
abbrev one_connection : Server
one_connection = record {
  shared = record { permits = 0; closed = false; cancelled = false };
  listeners =
      record {
        phase = acquiring;
        stats = record_tcp_accept (Port.new 80);
        connections = proxying ∷ [];
      }
      ∷ listen (Port.new 443)
      ∷ [];
}

one_connection_reached : Reach (init 1 ports) one_connection
unfolding listen
one_connection_reached =
    later
      (later here (Step.move 0 (listen (Port.new 80)) refl (Move.acquire refl refl (omega arith))))
      (Step.move 0 (record (listen (Port.new 80)) { phase = accepting }) refl (Move.accept refl))

Reach-permits_example :
    (one_connection.shared.permits + sum_by held one_connection.listeners ≡ 1)
    × (sum_by active_connections one_connection.listeners ≤ 1)
Reach-permits_example = Reach-permits 1 ports one_connection_reached

Reach-IsAccounted_example : All IsAccounted one_connection.listeners
unfolding Port.new
Reach-IsAccounted_example =
    Reach-IsAccounted 1 ports (omega arith) (omega arith, (omega arith, tt)) one_connection_reached

abbrev stopped : Server
stopped = record one_connection { shared = record { permits = 0; closed = true; cancelled = true } }

Moves-ends_example :
    (0 ≤ sum_by work stopped.listeners)
    × (All HasReturned stopped.listeners ⊎ ((u : Server) × Moves stopped 1 u))
Moves-ends_example = Moves-ends {s = stopped} {t = stopped} {n = 0} refl refl still

-- The connection comes to its end.
abbrev forwarded : Server
forwarded = record one_connection {
  listeners =
      record {
        phase = acquiring;
        stats = proxy (copied 10 20) (record_tcp_accept (Port.new 80));
        connections = closing ∷ [];
      }
      ∷ listen (Port.new 443)
      ∷ [];
}

forwarded_reached : Reach (init 1 ports) forwarded
unfolding listen
forwarded_reached = later one_connection_reached (
    Step.move 0
      (record {
        phase = acquiring;
        stats = record_tcp_accept (Port.new 80);
        connections = proxying ∷ [];
      })
      refl (Move.finish 0 (copied 10 20) refl tt))

Reach-bytes_example :
    IsAfter (Port.new 80) (10, 20) (proxy (copied 10 20) (record_tcp_accept (Port.new 80)))
unfolding forwarded_reached one_connection_reached
Reach-bytes_example = Reach-bytes 1 ports forwarded_reached 0 (Port.new 80) _ refl refl
