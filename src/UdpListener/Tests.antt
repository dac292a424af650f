-- ===== src/UdpListener/Tests.antt =====
-- A receipt of one datagram, and a run that is stopped behind it.
use range_porter.Prelude.{
  ℕ, zero, suc, ◌*◌, ◌≡◌, refl, true, List, [], ◌∷◌, some, arith, take, drop, get_elem?, some_inj,
}
use mathlib.Core.Path.{subst}
use range_porter.Result.{ok}
use range_porter.Net.{v4}
use range_porter.Stats.Port
use range_porter.Target.Resolve.{second}
use range_porter.UdpBatch.{BatchBuf, zeroed, slot, addr, Message, Filled}
use range_porter.UdpBatch.Sockaddr.{inet, sockaddr_storage_to_socket_addr}
use range_porter.Sessions.{UdpSessionTable, new_table}
use range_porter.Sessions.History.{Call}
use range_porter.UdpListener.{
  Io, Event, cancelled, receive_failed, received, other_task, serve_slots, run,
}
use range_porter.UdpListener.Serve.{IsReceipt, deliver, serve_slots-deliver}
use range_porter.UdpListener.Run.{run-stopped}

data IoError : Type 0 where
  unreachable : IoError

abbrev before : BatchBuf
before = zeroed 1 4

abbrev datagram : Filled
datagram = record {
  memory = 7 ∷ 8 ∷ 9 ∷ 0 ∷ [];
  messages = record { msg_len = 3; name = inet 0xbb01 0x0100_007f } ∷ [];
}

abbrev buffer : BatchBuf
buffer = record {
  bytes = datagram.memory;
  lens = 3 ∷ [];
  addrs = some (v4 2_130_706_433 443) ∷ [];
  batch_size = 1;
  slot_size = 4;
}

buffer-slots :
    (i : ℕ) (m : Message)
    → get_elem? datagram.messages i ≡ some m
    → slot i buffer ≡ some (take m.msg_len (drop (i * 4) datagram.memory))
unfolding slot
buffer-slots zero m e =
    subst (λ (x : Message). slot 0 buffer ≡ some (take x.msg_len datagram.memory)) (some_inj e) refl
buffer-slots (suc i) m e = absurd (cc)

buffer-names :
    (i : ℕ) (m : Message)
    → get_elem? datagram.messages i ≡ some m
    → addr i buffer ≡ some (sockaddr_storage_to_socket_addr m.name)
unfolding addr sockaddr_storage_to_socket_addr
buffer-names zero m e =
    subst (λ (x : Message). addr 0 buffer ≡ some (sockaddr_storage_to_socket_addr x.name))
      (some_inj e) refl
buffer-names (suc i) m e = absurd (cc)

buffer-IsReceipt : IsReceipt before 1 datagram buffer
buffer-IsReceipt =
    (refl, ((refl, refl, refl, omega arith, omega arith), buffer-slots), buffer-names)

abbrev all_well : ℕ → Io IoError ℕ
all_well k = record { opened = ok 5; opened_at = 100; sent = ok 3; sent_at = 100 }

abbrev table : UdpSessionTable ℕ
table = new_table (60 * second) (Port.new 443)

serve_slots-deliver_example :
    serve_slots 0 1 buffer all_well table
    ≡ some (deliver 4 datagram.memory all_well 0 datagram.messages table)
serve_slots-deliver_example =
    serve_slots-deliver before buffer 1 datagram all_well table buffer-IsReceipt

abbrev events : List (Event IoError ℕ)
events =
    received buffer 1 all_well
    ∷ receive_failed
    ∷ other_task (Call.cleans_up 170)
    ∷ received buffer 1 all_well
    ∷ cancelled
    ∷ []

run-stopped_example :
    (t : UdpSessionTable ℕ) × (run (60 * second) (Port.new 443) events ≡ some (true, t))
    × (t.sessions ≡ [])
    × (t.stats.udp_active_flows ≡ 0)
unfolding Port.new
run-stopped_example =
    run-stopped (60 * second) (Port.new 443) events refl
      (
        (before, datagram, buffer-IsReceipt),
        (tt, (tt, ((before, datagram, buffer-IsReceipt), (tt, tt)))),
      )
      refl (omega arith)
