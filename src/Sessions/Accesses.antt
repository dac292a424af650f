-- ===== src/Sessions/Accesses.antt =====
-- The calls on the table taken apart into their accesses to the map, to a session's flags and to the
-- gauge of active flows, which the listener's loop and the tasks that remove sessions make in any
-- order. `get_or_create` is the listener's loop's alone; `remove_session` is any task's.
pub mod Gauge
mod Tests
use range_porter.Prelude.{
  ℕ, suc, ◌+◌, ◌≡◌, Bool, List, [], ◌∷◌, map, some, none, get_elem?, remove_at, ◌==◌, if◌then◌else◌,
}
use range_porter.Word.{add_u64}
use range_porter.Net.{SocketAddr}
use range_porter.Stats.Port.{PortStats, record_udp_flow_open, record_udp_flow_close}
use range_porter.Sessions.{
  UdpSession, UdpSessionTable, new_session, cancel, mark_closed, new_table, get, remove,
  touch_session, touch_if,
}

-- Where `get_or_create` stands: before its first look at the map, with a session of its own, and
-- behind the entry of that session, which is not counted yet.
pub data Phase (Socket : Type 0) : Type 0 where
  looking entered : Phase Socket
  created : UdpSession Socket → Phase Socket

-- `taken` are the sessions that a `remove_session` has taken out of the map and not marked yet, and
-- `marked` is the number of those that are marked and not counted.
pub record System (Socket : Type 0) : Type 0 where
  pub table : UdpSessionTable Socket
  pub phase : Phase Socket
  pub taken : List (UdpSession Socket)
  pub marked : ℕ

module _ {Socket : Type 0} where
  -- `next_session_id.fetch_add`.
  unfoldable pub take_id : UdpSessionTable Socket → UdpSessionTable Socket
  take_id t = record t { next_session_id = add_u64 t.next_session_id 1 }

  -- `entry.insert` at a vacant entry.
  unfoldable pub insert_entry : UdpSession Socket → UdpSessionTable Socket → UdpSessionTable Socket
  insert_entry session t = record t { sessions = (session.source, session) ∷ t.sessions }

  unfoldable pub count_open : UdpSessionTable Socket → UdpSessionTable Socket
  count_open t = record t { stats = record_udp_flow_open t.stats }

  -- What `remove_if` takes out of the map.
  unfoldable pub take_out : SocketAddr → UdpSessionTable Socket → UdpSessionTable Socket
  take_out source t = record t { sessions = remove source t.sessions }

  -- `cancel` and `mark_closed` on a session that has left the map.
  unfoldable pub mark : UdpSession Socket → UdpSessionTable Socket → Bool × UdpSessionTable Socket
  mark session t =
      let (first, closed) = mark_closed (cancel session) in
      (first, record t { removed = closed ∷ t.removed })

  unfoldable pub count_close : UdpSessionTable Socket → UdpSessionTable Socket
  count_close t = record t { stats = record_udp_flow_close t.stats }

  -- A session is shared: a touch reaches it wherever it is.
  unfoldable pub touch_shared : ℕ → ℕ → System Socket → System Socket
  touch_shared id now s = record s {
    table = touch_session id now s.table;
    taken = map (touch_if id now) s.taken;
  }

  -- One access.
  pub data Step (s : System Socket) : System Socket → Type 0 where
    hit :
        (source : SocketAddr) (session : UdpSession Socket) (now : ℕ)
        → s.phase ≡ looking
        → get source s.table.sessions ≡ some session
        → Step s (touch_shared session.id now s)
    miss :
        (source : SocketAddr) (upstream : Socket) (now : ℕ)
        → s.phase ≡ looking
        → get source s.table.sessions ≡ none
        → Step s (record s {
          table = take_id s.table;
          phase = created (new_session s.table.next_session_id source upstream now);
        })
    enter_vacant :
        (session : UdpSession Socket)
        → s.phase ≡ created session
        → get session.source s.table.sessions ≡ none
        → Step s (record s { table = insert_entry session s.table; phase = entered })
    enter_occupied :
        (session existing : UdpSession Socket) (now : ℕ)
        → s.phase ≡ created session
        → get session.source s.table.sessions ≡ some existing
        → Step s (record (touch_shared existing.id now s) { phase = looking })
    opens : s.phase ≡ entered → Step s (record s { table = count_open s.table; phase = looking })
    takes :
        (source : SocketAddr) (session : UdpSession Socket)
        → get source s.table.sessions ≡ some session
        → Step s (record s { table = take_out source s.table; taken = session ∷ s.taken })
    marks :
        (i : ℕ) (session : UdpSession Socket)
        → get_elem? s.taken i ≡ some session
        → Step s (record s {
          table = (mark session s.table).1;
          taken = remove_at s.taken i;
          marked = (if (mark session s.table).0 then 1 else 0) + s.marked;
        })
    closes :
        (n : ℕ) → s.marked ≡ suc n → Step s (record s { table = count_close s.table; marked = n })
    touches : (id now : ℕ) → Step s (touch_shared id now s)

  -- A close that finds the gauge at 0 is lost: the decrement saturates. `k` are lost before.
  abbrev pub lost_by : {s t : System Socket} → Step s t → ℕ → ℕ
  lost_by {s} (closes n e) k = if s.table.stats.udp_active_flows == 0 then suc k else k
  lost_by _ k = k

  -- `n` accesses, of which `k` closes are lost.
  pub data Reach (s : System Socket) : ℕ → ℕ → System Socket → Type 0 where
    here : Reach s 0 0 s
    later :
        {n k : ℕ} {t u : System Socket}
        → Reach s n k t
        → (st : Step t u) → Reach s (suc n) (lost_by st k) u

  unfoldable pub start : ℕ → PortStats → System Socket
  unfolding new_table
  start idle_timeout stats = record {
    table = new_table idle_timeout stats;
    phase = looking;
    taken = [];
    marked = 0;
  }
