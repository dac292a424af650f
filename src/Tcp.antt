-- ===== src/Tcp.antt =====
-- src/listener/tcp.rs and src/forward/tcp.rs: the TCP listeners of all ports, and the connections
-- that they forward, under one semaphore. A move is one step of a listener or of one of its
-- connection tasks, between two waits; the moves of different tasks come in any order. `select!`
-- may take any branch that is ready.
pub mod Permits
pub mod Accounts
pub mod Drain
pub mod Forwarding
pub mod Bytes
mod Tests
use range_porter.Prelude.{
  ℕ, zero, suc, ◌+◌, ◌-◌, ◌<◌, ◌≡◌, Bool, true, false, List, [], ◌∷◌, ◌++◌, Option, none, some,
  get_elem?, set, remove_at,
}
use range_porter.Stats.Port.{PortStats, record_tcp_accept, record_tcp_close, add_tcp_bytes}

-- The semaphore, and the token of the shutdown.
pub record Shared : Type 0 where
  pub permits : ℕ
  pub closed : Bool
  pub cancelled : Bool

-- Where `run` stands: before it has a permit, with one at `accept`, at `join_next`, after it.
pub data Phase : Type 0 where
  acquiring accepting draining returned : Phase

-- A connection task: in `proxy`, behind it with the permit still held, ended.
pub data Connection : Type 0 where
  proxying closing ended : Connection

-- One call of `run`, with its `JoinSet`, which keeps an ended task until it is joined.
pub record Listener : Type 0 where
  pub phase : Phase
  pub stats : PortStats
  pub connections : List Connection

-- How the forwarding of a connection ends: by the shutdown, by an error, or with both directions
-- copied to their end.
pub data Outcome : Type 0 where
  interrupted failed : Outcome
  copied : (in_bytes out_bytes : ℕ) → Outcome

-- What `proxy` counts.
unfoldable pub proxy : Outcome → PortStats → PortStats
unfolding record_tcp_close add_tcp_bytes
proxy interrupted stats = record_tcp_close stats
proxy failed stats = record_tcp_close stats
proxy (copied in_bytes out_bytes) stats = record_tcp_close (add_tcp_bytes in_bytes out_bytes stats)

-- The forwarding is interrupted only where the token is cancelled.
abbrev pub IsPossible : Shared → Outcome → Type 0
IsPossible s interrupted = s.cancelled ≡ true
IsPossible s _ = Unit

-- A step of a listener or of the connection task at `j`.
pub data Move (s : Shared) (l : Listener) : Shared → Listener → Type 0 where
  acquire :
      l.phase ≡ acquiring
      → s.closed ≡ false
      → 0 < s.permits
      → Move s l (record s { permits = s.permits - 1 }) (record l { phase = accepting })
  acquire_closed :
      l.phase ≡ acquiring → s.closed ≡ true → Move s l s (record l { phase = draining })
  acquire_cancelled :
      l.phase ≡ acquiring → s.cancelled ≡ true → Move s l s (record l { phase = draining })
  accept :
      l.phase ≡ accepting
      → Move s l s (record {
        phase = acquiring;
        stats = record_tcp_accept l.stats;
        connections = proxying ∷ l.connections;
      })
  accept_failed :
      l.phase ≡ accepting
      → Move s l (record s { permits = s.permits + 1 }) (record l { phase = acquiring })
  accept_cancelled :
      l.phase ≡ accepting
      → s.cancelled ≡ true
      → Move s l (record s { permits = s.permits + 1 }) (record l { phase = draining })
  finish :
      (j : ℕ) (outcome : Outcome)
      → get_elem? l.connections j ≡ some proxying
      → IsPossible s outcome
      → Move s l s
          (record l { stats = proxy outcome l.stats; connections = set l.connections j closing })
  release :
      (j : ℕ)
      → get_elem? l.connections j ≡ some closing
      → Move s l
          (record s { permits = s.permits + 1 })
          (record l { connections = set l.connections j ended })
  join :
      (j : ℕ)
      → l.phase ≡ draining
      → get_elem? l.connections j ≡ some ended
      → Move s l s (record l { connections = remove_at l.connections j })
  return : l.phase ≡ draining → l.connections ≡ [] → Move s l s (record l { phase = returned })

pub record Server : Type 0 where
  pub shared : Shared
  pub listeners : List Listener

-- `RunningApp::shutdown` cancels the token and closes the semaphore.
pub data Step (s : Server) : Server → Type 0 where
  cancel : Step s (record s { shared = record s.shared { cancelled = true } })
  close : Step s (record s { shared = record s.shared { closed = true } })
  move :
      (i : ℕ) (l : Listener) {t : Shared} {m : Listener}
      → get_elem? s.listeners i ≡ some l
      → Move s.shared l t m
      → Step s (record { shared = t; listeners = set s.listeners i m })

pub data Reach (s : Server) : Server → Type 0 where
  here : Reach s s
  later : {t u : Server} → Reach s t → Step t u → Reach s u

unfoldable pub listen : PortStats → Listener
listen stats = record { phase = acquiring; stats = stats; connections = [] }

abbrev pub listen_all : List PortStats → List Listener
listen_all [] = []
listen_all (stats ∷ rest) = listen stats ∷ listen_all rest

-- The listeners of the ports as `start` spawns them.
abbrev pub init : ℕ → List PortStats → Server
init max_tcp_connections ports = record {
  shared = record { permits = max_tcp_connections; closed = false; cancelled = false };
  listeners = listen_all ports;
}
