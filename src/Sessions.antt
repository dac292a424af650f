-- ===== src/Sessions.antt =====
-- src/udp_session.rs: the UDP sessions of one listen port, one for each client address. The calls
-- on the table are taken one at a time. A `Socket` is a connected upstream socket, and what the
-- operating system answers when one is opened or used is an argument.
pub mod Map
pub mod Accounting
pub mod Keeping
pub mod History
pub mod Lookup
pub mod CleanUp
pub mod Entries
pub mod Idle
pub mod Gone
pub mod Ticks
pub mod Replies
pub mod Accesses
mod Tests
use range_porter.Prelude.{
  ℕ, zero, suc, ◌-◌, ◌/◌, max, min, Bool, true, false, not, List, [], ◌∷◌, ◌++◌, map, Option, none,
  some, length, leb, ◌==◌, if◌then◌else◌,
}
use range_porter.Result.{Result, ok, err}
use range_porter.Word.{add_u64}
use range_porter.Net.{SocketAddr, same_addr}
use range_porter.Stats.Port.{
  PortStats, record_udp_flow_open, record_udp_flow_close, add_udp_in, record_udp_drop,
}
use range_porter.Target.Resolve.{second}
use range_porter.UdpBatch.{ReplyPacket}

pub record UdpSession (Socket : Type 0) : Type 0 where
  pub id : ℕ
  pub source : SocketAddr
  pub upstream : Socket
  pub last_active_epoch : ℕ
  pub closed : Bool
  pub shutdown : Bool

abbrev pub Entries : Type 0 → Type 0
Entries Socket = List (SocketAddr × UdpSession Socket)

-- `removed` are the sessions that have left the map and that their reply tasks may still hold.
pub record UdpSessionTable (Socket : Type 0) : Type 0 where
  pub idle_timeout : ℕ
  pub stats : PortStats
  pub next_session_id : ℕ
  pub sessions : Entries Socket
  pub removed : List (UdpSession Socket)

-- What `try_send` on the reply queue returns.
pub data TrySend : Type 0 where
  queued full disconnected : TrySend

-- A received datagram, what becomes of its packet, and the time in seconds.
pub record Datagram : Type 0 where
  pub payload : List ℕ
  pub outcome : TrySend
  pub now : ℕ

-- What a turn of the reply loop waits for: a cancelled token, a batch, an error that is connection
-- refused, host unreachable or network unreachable, or another error.
pub data Received : Type 0 where
  cancelled transient_error other_error : Received
  batch : List Datagram → Received

abbrev pub reply_packet : SocketAddr → List ℕ → ReplyPacket
reply_packet dst payload = record { dst = dst; payload = payload; bytes = length payload }

-- The packets that were queued, and whether the loop goes on.
pub record Turn (Socket : Type 0) : Type 0 where
  pub packets : List ReplyPacket
  pub goes_on : Bool
  pub table : UdpSessionTable Socket

module _ {Socket : Type 0} where
  unfoldable pub new_session : ℕ → SocketAddr → Socket → ℕ → UdpSession Socket
  new_session id source upstream now = record {
    id = id;
    source = source;
    upstream = upstream;
    last_active_epoch = now;
    closed = false;
    shutdown = false;
  }

  unfoldable pub touch : ℕ → UdpSession Socket → UdpSession Socket
  touch now s = record s { last_active_epoch = now }

  unfoldable pub cancel : UdpSession Socket → UdpSession Socket
  cancel s = record s { shutdown = true }

  -- Whether this call closed the session.
  unfoldable pub mark_closed : UdpSession Socket → Bool × UdpSession Socket
  mark_closed s = (not s.closed, record s { closed = true })

  unfoldable pub new_table : ℕ → PortStats → UdpSessionTable Socket
  new_table idle_timeout stats = record {
    idle_timeout = idle_timeout;
    stats = stats;
    next_session_id = 1;
    sessions = [];
    removed = [];
  }

  -- `DashMap::get` and the removal of an entry.
  unfoldable pub get : SocketAddr → Entries Socket → Option (UdpSession Socket)
  get source [] = none
  get source ((a, s) ∷ m) = let rest = get source m in if same_addr source a then some s else rest

  unfoldable pub remove : SocketAddr → Entries Socket → Entries Socket
  remove source [] = []
  remove source ((a, s) ∷ m) =
      let rest = remove source m in if same_addr source a then m else (a, s) ∷ rest

  unfoldable pub touch_if : ℕ → ℕ → UdpSession Socket → UdpSession Socket
  unfolding touch
  touch_if id now s = if s.id == id then touch now s else s

  unfoldable pub touch_entries : ℕ → ℕ → Entries Socket → Entries Socket
  touch_entries id now [] = []
  touch_entries id now ((a, s) ∷ m) = (a, touch_if id now s) ∷ touch_entries id now m

  -- A session is shared: a touch reaches it in the map, or where it has left the map.
  unfoldable pub touch_session : ℕ → ℕ → UdpSessionTable Socket → UdpSessionTable Socket
  touch_session id now t = record t {
    sessions = touch_entries id now t.sessions;
    removed = map (touch_if id now) t.removed;
  }

  -- The second look at the map, under the lock of its entry.
  unfoldable pub enter :
      UdpSession Socket → ℕ → UdpSessionTable Socket → UdpSession Socket × UdpSessionTable Socket
  unfolding get touch
  enter session now t = elim (get session.source t.sessions) [
    | some existing ↦ (touch now existing, touch_session existing.id now t)
    | none ↦ (
      session,
      record t {
        sessions = (session.source, session) ∷ t.sessions;
        stats = record_udp_flow_open t.stats;
      },
    )
  ]

  -- `opened` is what `new_connected_udp_socket` returns when it is called.
  unfoldable pub get_or_create {ℓ} :
      {IoError : Type ℓ}
      → SocketAddr
      → Result IoError Socket
      → ℕ
      → UdpSessionTable Socket
      → Result IoError (UdpSession Socket) × UdpSessionTable Socket
  unfolding get touch enter add_u64 new_session
  get_or_create source opened now t = elim (get source t.sessions) [
    | some session ↦ (ok (touch now session), touch_session session.id now t)
    | none ↦ elim opened [
      | err e ↦ (err e, t)
      | ok upstream ↦
          let session = new_session t.next_session_id source upstream now in
          let entered =
            enter session now (record t { next_session_id = add_u64 t.next_session_id 1 }) in
          (ok (entered.0), entered.1)
    ]
  ]

  unfoldable pub close :
      SocketAddr → UdpSession Socket → UdpSessionTable Socket → UdpSessionTable Socket
  unfolding remove cancel mark_closed
  close source session t =
      let marked = mark_closed (cancel session) in
      record t {
        sessions = remove source t.sessions;
        removed = marked.1 ∷ t.removed;
        stats = if marked.0 then record_udp_flow_close t.stats else t.stats;
      }

  unfoldable pub remove_session : SocketAddr → ℕ → UdpSessionTable Socket → UdpSessionTable Socket
  unfolding get close
  remove_session source session_id t = elim (get source t.sessions) [
    | some session ↦ if session.id == session_id then close source session t else t
    | none ↦ t
  ]

  unfoldable pub remove_all :
      List (SocketAddr × ℕ) → UdpSessionTable Socket → UdpSessionTable Socket
  remove_all [] t = t
  remove_all ((source, id) ∷ l) t = remove_all l (remove_session source id t)

  unfoldable pub listed : Entries Socket → List (SocketAddr × ℕ)
  listed [] = []
  listed ((a, s) ∷ m) = (a, s.id) ∷ listed m

  unfoldable pub shutdown_all : UdpSessionTable Socket → UdpSessionTable Socket
  unfolding remove_all listed
  shutdown_all t = remove_all (listed t.sessions) t

  abbrev pub timeout_seconds : UdpSessionTable Socket → ℕ
  timeout_seconds t = max 1 (t.idle_timeout / second)

  -- The period of `cleanup_loop`, in seconds.
  abbrev pub interval_seconds : UdpSessionTable Socket → ℕ
  interval_seconds t = min (timeout_seconds t) 5

  abbrev pub is_stale : ℕ → ℕ → UdpSession Socket → Bool
  is_stale timeout now s = leb timeout (now - s.last_active_epoch)

  unfoldable pub stale : ℕ → ℕ → Entries Socket → Entries Socket
  stale timeout now [] = []
  stale timeout now ((a, s) ∷ m) =
      let rest = stale timeout now m in if is_stale timeout now s then (a, s) ∷ rest else rest

  -- A tick of `cleanup_loop`.
  unfoldable pub clean_up : ℕ → UdpSessionTable Socket → UdpSessionTable Socket
  unfolding remove_all listed stale
  clean_up now t = remove_all (listed (stale (timeout_seconds t) now t.sessions)) t

  -- `sent` is the answer of the socket.
  unfoldable pub forward_client_packet {ℓ κ} :
      {IoError : Type ℓ} {Sent : Type κ}
      → ℕ
      → List ℕ
      → Result IoError Sent
      → ℕ
      → UdpSessionTable Socket
      → UdpSessionTable Socket
  unfolding touch_session
  forward_client_packet id payload (err e) now t = t
  forward_client_packet id payload (ok n) now t =
      let touched = touch_session id now t in
      record touched { stats = add_udp_in (length payload) touched.stats }

  -- The datagrams of one received batch.
  unfoldable pub reply_batch :
      UdpSession Socket → List Datagram → UdpSessionTable Socket → Turn Socket
  unfolding touch_session
  reply_batch session [] t = record { packets = []; goes_on = true; table = t }
  reply_batch session (d ∷ ds) t = elim (d.payload) [
    | [] ↦ reply_batch session ds t
    | b ∷ bs ↦ elim (d.outcome) [
      | queued ↦
          let rest = reply_batch session ds (touch_session session.id d.now t) in
          record rest { packets = reply_packet session.source (b ∷ bs) ∷ rest.packets }
      | full ↦ reply_batch session ds (record t { stats = record_udp_drop t.stats })
      | disconnected ↦ record { packets = []; goes_on = false; table = t }
    ]
  ]

  -- The end of `reply_loop`.
  unfoldable pub end_replies : UdpSession Socket → UdpSessionTable Socket → Turn Socket
  unfolding remove_session
  end_replies session t = record {
    packets = [];
    goes_on = false;
    table = remove_session session.source session.id t;
  }

  -- One turn of `reply_loop`.
  unfoldable pub reply_turn : UdpSession Socket → Received → UdpSessionTable Socket → Turn Socket
  unfolding reply_batch end_replies
  reply_turn session cancelled t = end_replies session t
  reply_turn session (batch ds) t =
      let received = reply_batch session ds t in
      if received.goes_on
      then received
      else record (end_replies session received.table) { packets = received.packets }
  reply_turn session transient_error t = record { packets = []; goes_on = true; table = t }
  reply_turn session other_error t = end_replies session t
