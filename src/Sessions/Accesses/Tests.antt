-- ===== src/Sessions/Accesses/Tests.antt =====
-- The one session of a table is closed between its entry and the counting of it, which counts it for
-- good.
use range_porter.Prelude.{ℕ, ◌+◌, ◌≤◌, ◌≡◌, refl, true, false, length, [], ◌∷◌, arith, All}
use range_porter.Net.{SocketAddr, v4, same_addr}
use range_porter.Stats.Port.{record_udp_flow_open, record_udp_flow_close, saturating_decrement}
use range_porter.Stats.Port
use range_porter.Word.{add_u64}
use range_porter.Sessions.{UdpSession, new_session, cancel, mark_closed, new_table, get, remove}
use range_porter.Sessions.Accounting.{IsGone}
use range_porter.Sessions.Accesses.{
  Phase, entered, looking, System, take_id, insert_entry, count_open, take_out, mark, count_close,
  miss, enter_vacant, opens, takes, marks, closes, Reach, here, later, start,
}
use range_porter.Sessions.Accesses.Gauge.{gauge, opening, uncounted, Reach-gauge, Reach-lost}

abbrev client : SocketAddr
client = v4 167_772_161 4000

abbrev session : UdpSession ℕ
session = record {
  id = 1;
  source = client;
  upstream = 7;
  last_active_epoch = 100;
  closed = false;
  shutdown = false;
}

abbrev closed_session : UdpSession ℕ
closed_session = record session { closed = true; shutdown = true }

abbrev state : ℕ → Phase ℕ → ℕ → System ℕ
state active phase marked = record {
  table = record {
    idle_timeout = 60_000_000_000;
    stats = record (Port.new 443) { udp_active_flows = active };
    next_session_id = 2;
    sessions = [];
    removed = closed_session ∷ [];
  };
  phase = phase;
  taken = [];
  marked = marked;
}

-- The listener's loop has entered the session, and another task has taken it out and marked it.
before_close : Reach (start 60_000_000_000 (Port.new 443)) 4 0 (state 0 entered 1)
unfolding start new_table get new_session Port.new take_id insert_entry count_open take_out remove
    mark mark_closed cancel count_close record_udp_flow_open record_udp_flow_close
    saturating_decrement add_u64 same_addr
before_close =
    later
      (later (later (later here (miss client 7 100 refl refl)) (enter_vacant session refl refl))
        (takes client session refl))
      (marks 0 session refl)

drifts : Reach (start 60_000_000_000 (Port.new 443)) 6 1 (state 1 looking 0)
unfolding start new_table get new_session Port.new take_id insert_entry count_open take_out remove
    mark mark_closed cancel count_close record_udp_flow_open record_udp_flow_close
    saturating_decrement add_u64 same_addr
drifts = later (later before_close (closes 0 refl)) (opens refl)

Reach-gauge_example :
    (gauge (state 1 looking 0) + 0 ≡ uncounted (state 1 looking 0) + 1)
    × (1 ≤ 1)
    × All IsGone (closed_session ∷ [])
Reach-gauge_example =
    Reach-gauge 60_000_000_000 (Port.new 443) (unfold Port.new in refl) (omega arith) drifts

Reach-lost_example :
    (opening {Socket = ℕ} entered ≡ 1)
    × (length (state 0 entered 1).table.sessions ≡ 0)
    × (◌≡◌ {A = ℕ} 0 0)
Reach-lost_example =
    Reach-lost 60_000_000_000 (Port.new 443) (unfold Port.new in refl) (omega arith) before_close
      refl refl
