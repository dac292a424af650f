-- ===== src/Lib.antt =====
-- range-porter forwards TCP connections and UDP datagrams from a set of listen ports to one
-- target. The command line gives an expression of ports and a target (src/cli.rs). src/config.rs
-- parses the first with src/portset.rs and binds the second with src/target.rs. src/runtime.rs
-- then starts, for each port, a TCP and a UDP listener. These keep the port's counters
-- (src/stats/port.rs); the UDP listener forwards over a table of sessions (src/udp_session.rs). A
-- registry of the counters (src/stats/mod.rs) rolls their totals up into a ring of minute buckets
-- (src/stats/bucket.rs). src/main.rs puts the parts together.
--
-- Files and the code they model:
-- - PortSet: src/portset.rs. `parse_portset` is a loop over the segments; its rounds are
--   `add_segment`. The BTreeSet is its ascending list (`insert`, `extend`). Below it, Sets is
--   about such lists, Covers about what a segment denotes, Rounds and Loop about the loop, Parse
--   and RoundTrip about the whole. Canonical takes expressions up to what they denote, a
--   quotient.
-- - Stats.Port: src/stats/port.rs, a method of `PortStats` each. Accounts is about call
--   histories.
-- - Stats.Bucket: src/stats/bucket.rs, `BucketRing`. Minutes is the abstract view, a map from
--   minutes to buckets without a bound; Ring relates the ring to it, Snapshot and Sorting are
--   about `snapshot`, Sums and Conservation about what the buckets of the map hold, Shown about
--   what the buckets that a snapshot shows do.
-- - Stats.Registry: src/stats/mod.rs, `StatsRegistry`. The map of ports is its ascending list.
--   `update_port` stands for a caller's use of the shared counters. History is about
--   interleavings of counting and rollups, Task about the rollup task up to the shutdown, Ports
--   and Totals about the ports and their sums.
-- - Target: src/target.rs. Target parses (`split_host_port`), HostPort says what is accepted,
--   Resolver models `build_resolver`, Resolve `resolve_once`, `TargetAddr::bind` and its results,
--   and Bound says what they give. Target.Refresh takes `DynamicTarget::current` and
--   `try_spawn_refresh` apart into accesses to the lock and to the flag, which readers and tasks
--   make in any order; Safety and Entries are about those orders, Flight and Progress about one round
--   of a refresh among the steps of other readers.
-- - Sessions: src/udp_session.rs, `UdpSessionTable`. `clean_up` is a tick of `cleanup_loop`,
--   `reply_turn` a turn of `reply_loop`. Map is about the map of sessions, Accounting and History
--   about what holds after any calls, CleanUp, Lookup and Replies about single operations, Idle
--   about how long a session stays, Gone about late removals, Ticks about a tick with calls of
--   other tasks in it; Keeping and Entries have what they share. Accesses takes `get_or_create` and
--   `remove_session` apart into the accesses of both to the map, to a session's flags and to the
--   gauge, in any order; Gauge, below it, counts the closes that a gauge of 0 loses.
-- - UdpBatch: src/listener/udp_batch.rs. A buffer is its memory, a list of bytes. `recv_batch`
--   and `recv_batch_connected` take what recvmmsg answers and leaves in the memory, one answer
--   for each try; UdpBatch.Fallback has the receipts of systems other than Linux, UdpBatch.Send
--   models the batches of replies, Sockaddr the conversion of addresses. Slots is about the parts
--   of the memory given to the system, Receive about a receipt.
-- - UdpListener: src/listener/udp.rs, where the send of src/forward/udp.rs is an answer. An event
--   is a turn of the loop, or a step of another task on the session table between two turns.
--   Serve relates a receipt to the datagrams, Run is about the whole run, Bytes about the
--   counter.
-- - Tcp: src/listener/tcp.rs and src/forward/tcp.rs. A `Move` is a step of a listener or of one
--   of its connection tasks, a `Step` one of all listeners or of the shutdown, in any order, over
--   one semaphore. Permits, Accounts, Bytes and Drain are about what can be reached. Forwarding
--   is the work of one connection, over the interface `Streams`.
-- - Socket: src/socket.rs, over the interface `Sys` of the system's calls.
-- - Runtime: src/runtime.rs, `start` and `RunningApp::shutdown`. A task is a value that says what
--   it runs, with its token and semaphore. Requests and Binding list what is asked of the system,
--   Start is about what a start asks and leaves, Shutdown about what comes back from the tasks,
--   Summary about the lines that `summary_loop` logs.
-- - UdpSend: src/listener/udp_send.rs, `flush` and `reply_loop`, against what the system calls
--   answer and the queue gives. Flush and Loop are about them.
-- - ReplyQueue: the queue between src/udp_session.rs and src/listener/udp_send.rs, over the
--   interface `Channel`; Flow is about what is queued, taken, sent and dropped in any order of
--   the two sides.
-- - Http: src/http.rs, the routes and their handlers.
-- - Main: src/main.rs, `main`, up to the end of the shutdown. Launch goes from the arguments to
--   the tasks that run.
-- - Config: src/config.rs, `RuntimeConfig`, and the record of src/cli.rs.
-- - Prelude, Result, Word, Net, Text: lists and numbers, `Result` with `?`, 64-bit words,
--   addresses, and the text operations of the standard library (Text.Decimal: parsing of u16).
--
-- Conventions. Numbers are natural numbers; a u64 addition is taken modulo 2^64 (`add_u64`) and a
-- saturating subtraction is `-`. `usize` has 64 bits and no vector is as long: where the statistics
-- window is too large for one (2^57 buckets), `BucketRing::new` panics, which is left out. Atomic
-- counters are read and written by whole calls, one after the other. A text is its list of code points.
-- The time is an argument of each operation that reads the clock. Instants and durations count
-- nanoseconds.
--
-- Parameters. The parser of socket addresses, the hickory resolver (`Hickory` says what
-- `build_resolver` uses of it) and its answers (`Lookup`) are parameters of `bind`; nothing is
-- assumed of them. What the operating system and the reply queue answer are arguments of the
-- session table's operations. Of recvmmsg it is assumed, where a theorem says so, that it writes
-- within the parts of memory given to it and reports for each message a length within its part;
-- of sendmmsg that it sends no more messages than it is given. The queue of replies is the
-- interface `Channel`, whose laws are what tokio's documentation says of a bounded channel. The
-- requests on sockets are the record `Sys`, of which nothing is assumed, and the limit of tokio's
-- semaphore is a number. The only fuel is in the printer of decimal numbers, which prints five
-- digits at most; its theorem takes numbers up to 65535.
--
-- Not modelled: axum's part of the HTTP endpoint; the other log lines; the copying of bytes
-- within a TCP connection, which is tokio's; panics of connection tasks. In src/udp_session.rs a
-- call is one step, but for `get_or_create` and `remove_session` in Sessions.Accesses, and for a tick of the clean-up in Sessions.Ticks; interleavings inside a
-- turn of the reply loop are left out. The order in which its map lists sessions is that of their
-- insertion. The line that src/main.rs logs at the start is left out, with the look at the target
-- that it takes.
mod Prelude
pub mod Result
pub mod Word
pub mod Text
pub mod PortSet
pub mod Net
pub mod Stats
pub mod Target
pub mod UdpBatch
pub mod Sessions
pub mod Config
pub mod UdpSend
pub mod Tcp
pub mod UdpListener
pub mod Socket
pub mod Runtime
pub mod Main
pub mod ReplyQueue
pub mod Http
