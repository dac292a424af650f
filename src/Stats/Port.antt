-- ===== src/Stats/Port.antt =====
-- src/stats/port.rs: the counters of one listen port. A method of `PortStats` updates atomics
-- behind `&self`; here it returns the new counters.
pub mod Accounts
use range_porter.Prelude.{ℕ, ◌-◌}
use range_porter.Word.{add_u64}

pub record PortStats : Type 0 where
  pub port : ℕ
  pub tcp_accepted : ℕ
  pub tcp_active : ℕ
  pub tcp_closed : ℕ
  pub udp_active_flows : ℕ
  pub tcp_in_bytes : ℕ
  pub tcp_out_bytes : ℕ
  pub udp_in_bytes : ℕ
  pub udp_out_bytes : ℕ
  pub udp_dropped : ℕ

pub record PortSnapshot : Type 0 where
  pub port : ℕ
  pub tcp_accepted : ℕ
  pub tcp_active : ℕ
  pub tcp_closed : ℕ
  pub udp_active_flows : ℕ
  pub tcp_in_bytes : ℕ
  pub tcp_out_bytes : ℕ
  pub udp_in_bytes : ℕ
  pub udp_out_bytes : ℕ
  pub udp_dropped : ℕ

unfoldable pub new : ℕ → PortStats
new port = record {
  port = port;
  tcp_accepted = 0;
  tcp_active = 0;
  tcp_closed = 0;
  udp_active_flows = 0;
  tcp_in_bytes = 0;
  tcp_out_bytes = 0;
  udp_in_bytes = 0;
  udp_out_bytes = 0;
  udp_dropped = 0;
}

-- `saturating_sub(1)`, which `-` on ℕ is.
unfoldable pub saturating_decrement : ℕ → ℕ
saturating_decrement current = current - 1

unfoldable pub record_tcp_accept : PortStats → PortStats
unfolding add_u64
record_tcp_accept s = record s {
  tcp_accepted = add_u64 s.tcp_accepted 1;
  tcp_active = add_u64 s.tcp_active 1;
}

unfoldable pub record_tcp_close : PortStats → PortStats
unfolding saturating_decrement add_u64
record_tcp_close s = record s {
  tcp_active = saturating_decrement s.tcp_active;
  tcp_closed = add_u64 s.tcp_closed 1;
}

unfoldable pub add_tcp_bytes : ℕ → ℕ → PortStats → PortStats
unfolding add_u64
add_tcp_bytes in_bytes out_bytes s = record s {
  tcp_in_bytes = add_u64 s.tcp_in_bytes in_bytes;
  tcp_out_bytes = add_u64 s.tcp_out_bytes out_bytes;
}

unfoldable pub record_udp_flow_open : PortStats → PortStats
unfolding add_u64
record_udp_flow_open s = record s { udp_active_flows = add_u64 s.udp_active_flows 1 }

unfoldable pub record_udp_flow_close : PortStats → PortStats
unfolding saturating_decrement
record_udp_flow_close s = record s { udp_active_flows = saturating_decrement s.udp_active_flows }

unfoldable pub add_udp_in : ℕ → PortStats → PortStats
unfolding add_u64
add_udp_in bytes s = record s { udp_in_bytes = add_u64 s.udp_in_bytes bytes }

unfoldable pub add_udp_out : ℕ → PortStats → PortStats
unfolding add_u64
add_udp_out bytes s = record s { udp_out_bytes = add_u64 s.udp_out_bytes bytes }

unfoldable pub record_udp_drop : PortStats → PortStats
unfolding add_u64
record_udp_drop s = record s { udp_dropped = add_u64 s.udp_dropped 1 }

unfoldable pub snapshot : PortStats → PortSnapshot
snapshot s = record {
  port = s.port;
  tcp_accepted = s.tcp_accepted;
  tcp_active = s.tcp_active;
  tcp_closed = s.tcp_closed;
  udp_active_flows = s.udp_active_flows;
  tcp_in_bytes = s.tcp_in_bytes;
  tcp_out_bytes = s.tcp_out_bytes;
  udp_in_bytes = s.udp_in_bytes;
  udp_out_bytes = s.udp_out_bytes;
  udp_dropped = s.udp_dropped;
}
