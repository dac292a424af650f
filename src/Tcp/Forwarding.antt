-- ===== src/Tcp/Forwarding.antt =====
-- One connection of src/forward/tcp.rs: what is done on the sockets, and what it comes to.
use range_porter.Prelude.{ℕ, ◌*◌, ◌≡◌, Bool, true, Option, none, some}
use range_porter.Result.{Result, ok, err}
use range_porter.Net.{SocketAddr}
use range_porter.Socket.{Io, next-ok, ◌>>=◌, ◌>>◌}
use range_porter.Stats.Port.{PortStats}
use range_porter.Tcp.{Outcome, interrupted, failed, copied, proxy}

-- tokio's streams.
pub record Streams (World Stream IoError : Type 0) : Type 0 where
  pub connect : SocketAddr → Io World IoError Stream
  pub set_nodelay : Stream → Bool → Io World IoError (Unit {0})
  pub copy_bidirectional_with_sizes : Stream → Stream → ℕ → ℕ → Io World IoError (ℕ × ℕ)

abbrev pub copy_buffer_bytes : ℕ
copy_buffer_bytes = 256 * 1024

-- `let _ = …`: the result is dropped.
abbrev pub ignore : {World IoError A : Type 0} → Io World IoError A → Io World IoError (Unit {0})
ignore request w = (ok tt, (request w).1)

abbrev pub outcome_of : {IoError : Type 0} → Result IoError (ℕ × ℕ) → Outcome
outcome_of (ok (in_bytes, out_bytes)) = copied in_bytes out_bytes
outcome_of (err e) = failed

module _ {World Stream IoError : Type 0} (streams : Streams World Stream IoError) where
  unfoldable pub forwarding : Stream → SocketAddr → Io World IoError (ℕ × ℕ)
  forwarding downstream target_addr = do
    upstream ← streams.connect target_addr
    ignore (streams.set_nodelay upstream true)
    streams.copy_bidirectional_with_sizes downstream upstream copy_buffer_bytes copy_buffer_bytes

  -- `target_addr` is what `TargetAddr::current` gives. `cancelled_at` is what the sockets are
  -- where the shutdown comes first, and `none` where the forwarding is done first.
  unfoldable pub proxy_connection :
      Stream → SocketAddr → PortStats → Option World → World → PortStats × World
  unfolding forwarding proxy
  proxy_connection downstream target_addr stats (some cancelled_at) w =
      (proxy interrupted stats, cancelled_at)
  proxy_connection downstream target_addr stats none w =
      let started = ignore (streams.set_nodelay downstream true) w in
      let done = forwarding downstream target_addr (started.1) in
      (proxy (outcome_of (done.0)) stats, done.1)

  -- What `copied` counts was copied between the client and a connection to the target, with a
  -- buffer of 256 KiB each way.
  pub forwarding-ok :
      (downstream : Stream) (target_addr : SocketAddr) (w : World) (in_bytes out_bytes : ℕ)
      → outcome_of ((forwarding downstream target_addr w).0) ≡ copied in_bytes out_bytes
      → (upstream : Stream) × (v : World) × ((streams.connect target_addr w).0 ≡ ok upstream)
        × ((streams.copy_bidirectional_with_sizes downstream upstream 262_144 262_144 v).0
            ≡ ok (in_bytes, out_bytes))
  unfolding forwarding
  forwarding-ok downstream target_addr w in_bytes out_bytes e =
      let (upstream, connected, done) =
        next-ok _ _
          (outcome_of-ok ((forwarding downstream target_addr w).0) in_bytes out_bytes e) in
      (upstream, _, connected, done)
    where
      outcome_of-ok :
          (r : Result IoError (ℕ × ℕ)) (i o : ℕ) → outcome_of r ≡ copied i o → r ≡ ok (i, o)
      outcome_of-ok (ok (a, b)) i o e = cc
      outcome_of-ok (err x) i o e = absurd (cc)
