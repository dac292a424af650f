-- ===== src/Stats/Port/Accounts.antt =====
-- What the counters of a port say after any history of calls.
use range_porter.Prelude.{ℕ, suc, ◌+◌, ◌-◌, ◌%◌, ◌<◌, ◌≡◌, refl, List, [], ◌∷◌, arith, length}
use range_porter.Word.{u64_mod}
use range_porter.Stats.Port.{
  PortStats, new, record_tcp_accept, record_tcp_close, add_tcp_bytes, record_udp_flow_open,
  record_udp_flow_close, add_udp_in, add_udp_out, record_udp_drop, snapshot,
}

-- A call of one of the methods.
pub data Call : Type 0 where
  tcp_accept tcp_close udp_flow_open udp_flow_close udp_drop : Call
  tcp_bytes : ℕ → ℕ → Call
  udp_in udp_out : ℕ → Call

unfoldable pub call : Call → PortStats → PortStats
call tcp_accept s = record_tcp_accept s
call tcp_close s = record_tcp_close s
call udp_flow_open s = record_udp_flow_open s
call udp_flow_close s = record_udp_flow_close s
call udp_drop s = record_udp_drop s
call (tcp_bytes a b) s = add_tcp_bytes a b s
call (udp_in a) s = add_udp_in a s
call (udp_out a) s = add_udp_out a s

unfoldable pub run : PortStats → List Call → PortStats
unfolding call
run s [] = s
run s (c ∷ cs) = run (call c s) cs

abbrev pub accepts : List Call → ℕ
accepts [] = 0
accepts (tcp_accept ∷ cs) = suc (accepts cs)
accepts (_ ∷ cs) = accepts cs

abbrev pub closes : List Call → ℕ
closes [] = 0
closes (tcp_close ∷ cs) = suc (closes cs)
closes (_ ∷ cs) = closes cs

abbrev pub opened_flows : List Call → ℕ
opened_flows [] = 0
opened_flows (udp_flow_open ∷ cs) = suc (opened_flows cs)
opened_flows (_ ∷ cs) = opened_flows cs

abbrev pub closed_flows : List Call → ℕ
closed_flows [] = 0
closed_flows (udp_flow_close ∷ cs) = suc (closed_flows cs)
closed_flows (_ ∷ cs) = closed_flows cs

-- With `tcp` connections and `flows` flows open, each close in the history closes an open one.
abbrev pub IsMatched : ℕ → ℕ → List Call → Type 0
IsMatched tcp flows [] = Unit {0}
IsMatched tcp flows (tcp_accept ∷ cs) = IsMatched (suc tcp) flows cs
IsMatched tcp flows (tcp_close ∷ cs) = (0 < tcp) × IsMatched (tcp - 1) flows cs
IsMatched tcp flows (udp_flow_open ∷ cs) = IsMatched tcp (suc flows) cs
IsMatched tcp flows (udp_flow_close ∷ cs) = (0 < flows) × IsMatched tcp (flows - 1) cs
IsMatched tcp flows (_ ∷ cs) = IsMatched tcp flows cs

-- How the counters `t` come from the counters `s` by a matched history.
abbrev pub Counted : PortStats → List Call → PortStats → Type 0
Counted s cs t =
    (t.tcp_accepted ≡ s.tcp_accepted + accepts cs)
    × (t.tcp_closed ≡ s.tcp_closed + closes cs)
    × (t.tcp_active + closes cs ≡ s.tcp_active + accepts cs)
    × (t.udp_active_flows + closed_flows cs ≡ s.udp_active_flows + opened_flows cs)

-- No counter of events reaches 2 ^ 64 within `n` more calls.
abbrev HasRoom : ℕ → PortStats → Type 0
HasRoom n s =
    (s.tcp_accepted + n < u64_mod)
    × (s.tcp_closed + n < u64_mod)
    × (s.tcp_active + n < u64_mod)
    × (s.udp_active_flows + n < u64_mod)

module _ (n : ℕ) (s : PortStats) where
  call-HasRoom : (c : Call) → HasRoom (suc n) s → HasRoom n (call c s)
  unfolding call record_tcp_accept record_tcp_close add_tcp_bytes record_udp_flow_open
      record_udp_flow_close add_udp_in add_udp_out record_udp_drop
  call-HasRoom tcp_accept h = omega arith
  call-HasRoom _ h = omega arith

run-Counted :
    (cs : List Call) (s : PortStats) (tcp flows : ℕ)
    → s.tcp_active ≡ tcp
    → s.udp_active_flows ≡ flows
    → IsMatched tcp flows cs
    → HasRoom (length cs) s
    → Counted s cs (run s cs)
unfolding run record_tcp_accept record_tcp_close add_tcp_bytes record_udp_flow_open
    record_udp_flow_close add_udp_in add_udp_out record_udp_drop
run-Counted [] s tcp flows a f m h = omega arith
run-Counted (tcp_accept ∷ cs) s tcp flows a f m h = omega (
  arith,
  run-Counted cs (call tcp_accept s) (suc tcp) flows (omega arith) f m
      (call-HasRoom (length cs) s tcp_accept h),
)
run-Counted (tcp_close ∷ cs) s tcp flows a f m h = omega (
  arith,
  run-Counted cs (call tcp_close s) (tcp - 1) flows (omega arith) f m.1
      (call-HasRoom (length cs) s tcp_close h),
)
run-Counted (udp_flow_open ∷ cs) s tcp flows a f m h = omega (
  arith,
  run-Counted cs (call udp_flow_open s) tcp (suc flows) a (omega arith) m
      (call-HasRoom (length cs) s udp_flow_open h),
)
run-Counted (udp_flow_close ∷ cs) s tcp flows a f m h = omega (
  arith,
  run-Counted cs (call udp_flow_close s) tcp (flows - 1) a (omega arith) m.1
      (call-HasRoom (length cs) s udp_flow_close h),
)
run-Counted (udp_drop ∷ cs) s tcp flows a f m h = omega (
  arith,
  run-Counted cs (call udp_drop s) tcp flows a f m (call-HasRoom (length cs) s udp_drop h),
)
run-Counted (tcp_bytes x y ∷ cs) s tcp flows a f m h = omega (
  arith,
  run-Counted cs (call (tcp_bytes x y) s) tcp flows a f m
      (call-HasRoom (length cs) s (tcp_bytes x y) h),
)
run-Counted (udp_in x ∷ cs) s tcp flows a f m h = omega (
  arith,
  run-Counted cs (call (udp_in x) s) tcp flows a f m (call-HasRoom (length cs) s (udp_in x) h),
)
run-Counted (udp_out x ∷ cs) s tcp flows a f m h = omega (
  arith,
  run-Counted cs (call (udp_out x) s) tcp flows a f m (call-HasRoom (length cs) s (udp_out x) h),
)

-- Of a port whose every recorded close follows its open, after fewer than 2 ^ 64 calls: the
-- accepted and closed connections are the calls of those methods, what is accepted is active or
-- closed, and the active flows are the opened ones less the closed ones.
pub run-accounts :
    (port : ℕ) (cs : List Call)
    → IsMatched 0 0 cs
    → length cs < u64_mod
    → let t = snapshot (run (new port) cs) in
      (t.tcp_accepted ≡ accepts cs)
      × (t.tcp_closed ≡ closes cs)
      × (t.tcp_active + t.tcp_closed ≡ t.tcp_accepted)
      × (t.udp_active_flows + closed_flows cs ≡ opened_flows cs)
unfolding snapshot new
run-accounts port cs m h = omega (arith, run-Counted cs (new port) 0 0 refl refl m (omega arith))

abbrev pub tcp_in_of : Call → ℕ
tcp_in_of (tcp_bytes a b) = a
tcp_in_of _ = 0

abbrev pub udp_in_of : Call → ℕ
udp_in_of (udp_in a) = a
udp_in_of _ = 0

abbrev pub tcp_out_of : Call → ℕ
tcp_out_of (tcp_bytes a b) = b
tcp_out_of _ = 0

abbrev pub udp_out_of : Call → ℕ
udp_out_of (udp_out a) = a
udp_out_of _ = 0

abbrev pub total : (Call → ℕ) → List Call → ℕ
total f [] = 0
total f (c ∷ cs) = f c + total f cs

-- The byte counters fit 64 bits.
abbrev Fits : PortStats → Type 0
Fits s =
    (s.tcp_in_bytes < u64_mod)
    × (s.tcp_out_bytes < u64_mod)
    × (s.udp_in_bytes < u64_mod)
    × (s.udp_out_bytes < u64_mod)

call-Fits : (c : Call) (s : PortStats) → Fits s → Fits (call c s)
unfolding call record_tcp_accept record_tcp_close add_tcp_bytes record_udp_flow_open
    record_udp_flow_close add_udp_in add_udp_out record_udp_drop
call-Fits tcp_accept s h = omega arith
call-Fits _ s h = omega arith

run_bytes :
    (cs : List Call) (s : PortStats)
    → Fits s
    → let t = run s cs in
      (t.tcp_in_bytes ≡ (s.tcp_in_bytes + total tcp_in_of cs) % u64_mod)
      × (t.tcp_out_bytes ≡ (s.tcp_out_bytes + total tcp_out_of cs) % u64_mod)
      × (t.udp_in_bytes ≡ (s.udp_in_bytes + total udp_in_of cs) % u64_mod)
      × (t.udp_out_bytes ≡ (s.udp_out_bytes + total udp_out_of cs) % u64_mod)
unfolding run record_tcp_accept record_tcp_close add_tcp_bytes record_udp_flow_open
    record_udp_flow_close add_udp_in add_udp_out record_udp_drop
run_bytes [] s h = omega arith
run_bytes (tcp_accept ∷ cs) s h = omega (arith, run_bytes cs (call tcp_accept s) h)
run_bytes (c ∷ cs) s h = omega (arith, run_bytes cs (call c s) (call-Fits c s h))

-- The byte counters of a port are the sums modulo 2 ^ 64 of the bytes that the calls reported, in
-- whatever order connections and flows made them.
pub run-bytes :
    (port : ℕ) (cs : List Call)
    → let t = snapshot (run (new port) cs) in
      (t.tcp_in_bytes ≡ total tcp_in_of cs % u64_mod)
      × (t.tcp_out_bytes ≡ total tcp_out_of cs % u64_mod)
      × (t.udp_in_bytes ≡ total udp_in_of cs % u64_mod)
      × (t.udp_out_bytes ≡ total udp_out_of cs % u64_mod)
unfolding snapshot new
run-bytes port cs = omega (arith, run_bytes cs (new port) (omega arith))
