-- ===== src/Sessions/Tests.antt =====
-- The theorems at concrete tables and histories. A socket is a number here.
use range_porter.Prelude.{
  ℕ, ◌+◌, ◌*◌, ◌≤◌, ◌<◌, ◌≡◌, ◌≢◌, some, refl, false, List, [], ◌∷◌, arith, All, length, max,
}
use range_porter.Result.{ok, err}
use range_porter.Net.{SocketAddr, v4, same_addr}
use range_porter.Stats.Port.{PortStats}
use range_porter.Stats.Port
use range_porter.Target.Resolve.{second}
use range_porter.Sessions.{
  UdpSession, UdpSessionTable, disconnected, batch, new_table, touch, get, get_or_create,
  timeout_seconds, interval_seconds, clean_up, new_session, enter, touch_session, remove_all,
  listed, stale, remove_session, touch_entries, touch_if,
}
use range_porter.Sessions.Map.{Distinct}
use range_porter.Sessions.Accounting.{IsLive, IsGone}
use range_porter.Sessions.History.{
  Call, gets_or_creates, removes, cleans_up, forwards, replies, call, run, run-sessions,
}
use range_porter.Sessions.CleanUp.{recent, clean_up-recent}
use range_porter.Sessions.Gone.{remove_session-late}
use range_porter.Sessions.Ticks.{tick_calls, tick_list, tick_calls-used}
use range_porter.Sessions.Idle.{run-idle}

data IoError : Type 0 where
  refused_connection : IoError

abbrev alice : SocketAddr
alice = v4 167_772_161 4000

abbrev bob : SocketAddr
bob = v4 167_772_162 4000

abbrev alice_session : UdpSession ℕ
alice_session = record {
  id = 1;
  source = alice;
  upstream = 7;
  last_active_epoch = 100;
  closed = false;
  shutdown = false;
}

abbrev bob_session : UdpSession ℕ
bob_session = record {
  id = 2;
  source = bob;
  upstream = 8;
  last_active_epoch = 160;
  closed = false;
  shutdown = false;
}

abbrev two : UdpSessionTable ℕ
two = record {
  idle_timeout = 60 * second;
  stats = record (Port.new 443) { udp_active_flows = 2 };
  next_session_id = 3;
  sessions = (bob, bob_session) ∷ (alice, alice_session) ∷ [];
  removed = [];
}

-- A call of each kind; the late removal of session 1 comes after its clean-up.
abbrev calls : List (Call IoError ℕ)
calls =
    gets_or_creates alice (ok 7) 100
    ∷ gets_or_creates bob (err refused_connection) 101
    ∷ gets_or_creates bob (ok 8) 160
    ∷ forwards 2 (1 ∷ 2 ∷ []) (ok 2) 161
    ∷ cleans_up 161
    ∷ gets_or_creates alice (ok 9) 162
    ∷ removes alice 1
    ∷ replies bob_session
        (batch (record { payload = 5 ∷ []; outcome = disconnected; now = 163 } ∷ []))
    ∷ []

run-sessions_example :
    let t = run (new_table (60 * second) (Port.new 443)) calls in
    (t.stats.udp_active_flows ≡ length t.sessions)
    × Distinct t.sessions
    × All (IsLive t.next_session_id) t.sessions
    × All IsGone t.removed
unfolding Port.new
run-sessions_example = run-sessions (60 * second) (Port.new 443) calls refl (omega arith)

-- A second behind the tick at 161.
run-idle_example :
    let t = run (new_table (60 * second) (Port.new 443)) calls in
    (interval_seconds t ≤ 5)
    × All (λ e. 162 < e.1.last_active_epoch + timeout_seconds t + interval_seconds t + 0) t.sessions
run-idle_example =
    run-idle (60 * second) (Port.new 443) calls 100 162 0 (unfold Port.new in refl) (omega arith)
      (omega arith) (omega arith)

-- Alice's first session is removed, and she is given another one before the late removal.
abbrev first_call : List (Call IoError ℕ)
first_call = gets_or_creates alice (ok 7) 100 ∷ []

abbrev next_call : List (Call IoError ℕ)
next_call = gets_or_creates alice (ok 9) 162 ∷ []

first_session :
    get alice (run (new_table (60 * second) (Port.new 443)) first_call).sessions
    ≡ some alice_session
unfolding run call get_or_create enter new_session new_table get same_addr
first_session = refl

remove_session-late_example :
    let before = run (new_table (60 * second) (Port.new 443)) first_call in
    let t = run (remove_session alice 1 before) next_call in
    All (λ e. e.1.id ≢ 1) t.sessions × (remove_session alice 1 t ≡ t)
remove_session-late_example =
    remove_session-late (60 * second) (Port.new 443) first_call next_call alice alice_session
      (unfold Port.new in refl) (omega arith) first_session

-- A tick at 161 finds alice's session idle. Before its removal bob is given one.
abbrev meets_bob : ℕ → List (Call IoError ℕ)
meets_bob i = gets_or_creates bob (ok 8) 161 ∷ []

tick_calls-used_example :
    let t = run (new_table (60 * second) (Port.new 443)) first_call in
    All
      (λ e. 161 < e.1.last_active_epoch + timeout_seconds t)
      (run t (tick_calls meets_bob 0 (tick_list 161 t))).sessions
unfolding tick_list listed stale run call get_or_create enter new_session new_table get Port.new
tick_calls-used_example =
    tick_calls-used (60 * second) (Port.new 443) first_call 161 meets_bob refl (omega arith)
      (λ i. omega arith)

clean_up-recent_example : (clean_up 161 two).sessions ≡ recent (max 1 60) 161 two.sessions
clean_up-recent_example =
    clean_up-recent 161 two ((((unfold same_addr in refl), ground arith), tt), (tt, tt))

served_again :
    (get_or_create {IoError = IoError} alice (ok 9) 170 two).0 ≡ ok (touch 170 alice_session)
unfolding get_or_create same_addr
served_again = refl

abbrev of_alice : UdpSessionTable ℕ
of_alice = record two { sessions = (alice, alice_session) ∷ [] }

-- What a clean-up listed as idle is removed also where it is touched before its removal.
touched_meanwhile :
    (remove_all (listed (stale 60 200 of_alice.sessions)) (touch_session 1 200 of_alice)).sessions
    ≡ []
unfolding remove_all listed stale touch_session remove_session same_addr touch_entries touch_if
touched_meanwhile = refl
