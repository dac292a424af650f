-- ===== src/Sessions/Accesses/Gauge.antt =====
-- The gauge of active flows under every interleaving of the accesses.
use range_porter.Prelude.{
  ℕ, suc, ◌+◌, ◌≤◌, ◌<◌, ◌≡◌, refl, ap, false, List, [], ◌∷◌, some, arith, All, All-remove_at,
  All-get_elem?, length, length-map, length-remove_at, map, get_elem?, remove_at, ◌==◌,
  if◌then◌else◌,
}
use mathlib.Core.Path.{subst}
use range_porter.Word.{u64_mod, add_u64_exact}
use range_porter.Stats.Port.{
  PortStats, record_udp_flow_open, record_udp_flow_close, saturating_decrement,
}
use range_porter.Sessions.{
  UdpSession, new_session, touch, cancel, mark_closed, touch_session, touch_if,
}
use range_porter.Sessions.Map.{
  Entry, get-All, All-remove, length-remove, All-touch_entries, length-touch_entries,
}
use range_porter.Sessions.Accounting.{IsGone}
use range_porter.Sessions.Accesses.{
  Phase, looking, entered, created, System, take_id, insert_entry, count_open, take_out, mark,
  count_close, touch_shared, Step, hit, miss, enter_vacant, enter_occupied, opens, takes, marks,
  closes, touches, lost_by, Reach, here, later, start,
}

module _ {Socket : Type 0} where
  abbrev pub opening : Phase Socket → ℕ
  opening entered = 1
  opening _ = 0

  opening_le : (p : Phase Socket) → opening p ≤ 1
  opening_le looking = omega arith
  opening_le entered = omega arith
  opening_le (created session) = omega arith

  abbrev pub gauge : System Socket → ℕ
  gauge s = s.table.stats.udp_active_flows

  -- The sessions whose opening is or will be counted, and whose closing is not yet.
  abbrev pub uncounted : System Socket → ℕ
  uncounted s = length s.table.sessions + (length s.taken + s.marked)

  abbrev IsOpen : UdpSession Socket → Type 0
  IsOpen session = session.closed ≡ false

  abbrev IsOwn : Phase Socket → Type 0
  IsOwn (created session) = IsOpen session
  IsOwn _ = Unit

  -- After `n` accesses with `k` lost closes.
  record Inv (n k : ℕ) (s : System Socket) : Type 0 where
    counted : gauge s + opening s.phase ≡ uncounted s + k
    few : gauge s ≤ n
    own : IsOwn s.phase
    live : All (λ (e : Entry Socket). IsOpen (e.1)) s.table.sessions
    held : All IsOpen s.taken
    gone : All IsGone s.table.removed
    lost : k ≤ 1

  touch_if-IsOpen : (id now : ℕ) (s : UdpSession Socket) → IsOpen s → IsOpen (touch_if id now s)
  unfolding touch_if touch
  touch_if-IsOpen id now s h = ground arith

  touch_if-IsGone : (id now : ℕ) (s : UdpSession Socket) → IsGone s → IsGone (touch_if id now s)
  unfolding touch_if touch
  touch_if-IsGone id now s h = ground arith

  All-map :
      (P : UdpSession Socket → Type 0) (f : UdpSession Socket → UdpSession Socket)
      (l : List (UdpSession Socket))
      → ((s : UdpSession Socket) → P s → P (f s))
      → All P l
      → All P (map f l)
  All-map P f [] keep h = tt
  All-map P f (s ∷ l) keep (p, h) = (keep s p, All-map P f l keep h)

  touch_shared-Inv :
      (n k id now : ℕ) (s : System Socket) → Inv n k s → Inv n k (touch_shared id now s)
  unfolding touch_shared touch_session
  touch_shared-Inv n k id now s i = record {
    counted = omega (
      arith,
      i.counted,
      length-touch_entries id now s.table.sessions,
      length-map (touch_if id now) s.taken,
    );
    few = i.few;
    own = i.own;
    live =
        All-touch_entries (λ e. IsOpen (e.1)) id now s.table.sessions
          (λ a r. touch_if-IsOpen id now r) i.live;
    held = All-map IsOpen (touch_if id now) s.taken (touch_if-IsOpen id now) i.held;
    gone = All-map IsGone (touch_if id now) s.table.removed (touch_if-IsGone id now) i.gone;
    lost = i.lost;
  }

  Inv-suc : (n k : ℕ) (s : System Socket) → Inv n k s → Inv (suc n) k s
  Inv-suc n k s i = record {
    counted = i.counted;
    few = omega (arith, i.few);
    own = i.own;
    live = i.live;
    held = i.held;
    gone = i.gone;
    lost = i.lost;
  }

  opens-counted :
      (n k : ℕ) (s : System Socket)
      → s.phase ≡ entered
      → suc n < u64_mod
      → Inv n k s
      → Inv (suc n) k (record s { table = count_open s.table; phase = looking })
  unfolding count_open record_udp_flow_open
  opens-counted n k s at small i =
      let exact = add_u64_exact (gauge s) 1 (omega (arith, i.few)) in
      let p = ap opening at in
      record {
        counted = omega (arith, i.counted, exact);
        few = omega (arith, i.few, exact);
        own = tt;
        live = i.live;
        held = i.held;
        gone = i.gone;
        lost = i.lost;
      }

  closes-counted :
      (n k m : ℕ) (s : System Socket)
      → s.marked ≡ suc m
      → Inv n k s
      → Inv
          (suc n)
          (if gauge s == 0 then suc k else k)
          (record s { table = count_close s.table; marked = m })
  unfolding count_close record_udp_flow_close saturating_decrement
  closes-counted n k m s at i = record {
    counted = ground (arith, i.counted);
    few = omega (arith, i.few);
    own = i.own;
    live = i.live;
    held = i.held;
    gone = i.gone;
    lost = ground (arith, i.counted, opening_le s.phase, i.lost);
  }

  marks-counted :
      (n k j : ℕ) (session : UdpSession Socket) (s : System Socket)
      → get_elem? s.taken j ≡ some session
      → Inv n k s
      → Inv (suc n) k (record s {
        table = (mark session s.table).1;
        taken = remove_at s.taken j;
        marked = (if (mark session s.table).0 then 1 else 0) + s.marked;
      })
  unfolding mark mark_closed cancel
  marks-counted n k j session s at i =
      let is_open : session.closed ≡ false = All-get_elem? IsOpen s.taken j session at i.held in
      record {
        counted = rw is_open (omega (arith, i.counted, length-remove_at s.taken j session at));
        few = omega (arith, i.few);
        own = i.own;
        live = i.live;
        held = All-remove_at IsOpen s.taken j i.held;
        gone = ((refl, refl), i.gone);
        lost = i.lost;
      }

  Step-Inv :
      (n k : ℕ) {s t : System Socket}
      → suc n < u64_mod
      → Inv n k s
      → (st : Step s t) → Inv (suc n) (lost_by st k) t
  Step-Inv n k {s} small i (hit source session now at found) =
      Inv-suc n k _ (touch_shared-Inv n k session.id now s i)
  Step-Inv n k {s} small i (miss source upstream now at missing) =
      unfold take_id new_session in
      record {
        counted = let p = ap opening at in omega (arith, i.counted);
        few = omega (arith, i.few);
        own = refl;
        live = i.live;
        held = i.held;
        gone = i.gone;
        lost = i.lost;
      }
  Step-Inv n k {s} small i (enter_vacant session at missing) =
      unfold insert_entry in
      record {
        counted = let p = ap opening at in omega (arith, i.counted);
        few = omega (arith, i.few);
        own = tt;
        live = (subst IsOwn at i.own, i.live);
        held = i.held;
        gone = i.gone;
        lost = i.lost;
      }
  Step-Inv n k {s} small i (enter_occupied session existing now at found) =
      let j = touch_shared-Inv n k existing.id now s i in
      record {
        counted = let p = ap opening at in unfold touch_shared in omega (arith, j.counted);
        few = omega (arith, j.few);
        own = tt;
        live = j.live;
        held = j.held;
        gone = j.gone;
        lost = j.lost;
      }
  Step-Inv n k {s} small i (opens at) = opens-counted n k s at small i
  Step-Inv n k {s} small i (takes source session found) =
      unfold take_out in
      record {
        counted = omega (arith, i.counted, length-remove source s.table.sessions session found);
        few = omega (arith, i.few);
        own = i.own;
        live = All-remove (λ e. IsOpen (e.1)) source s.table.sessions i.live;
        held = (get-All (λ e. IsOpen (e.1)) source s.table.sessions session found i.live, i.held);
        gone = i.gone;
        lost = i.lost;
      }
  Step-Inv n k {s} small i (marks j session at) = marks-counted n k j session s at i
  Step-Inv n k {s} small i (closes m at) = closes-counted n k m s at i
  Step-Inv n k {s} small i (touches id now) = Inv-suc n k _ (touch_shared-Inv n k id now s i)

  start-Inv :
      (idle_timeout : ℕ) (stats : PortStats)
      → stats.udp_active_flows ≡ 0
      → Inv 0 0 (start idle_timeout stats)
  unfolding start
  start-Inv idle_timeout stats none_active = record {
    counted = omega (arith, none_active);
    few = omega (arith, none_active);
    own = tt;
    live = tt;
    held = tt;
    gone = tt;
    lost = omega arith;
  }

  Reach-Inv : {r s : System Socket} {n k : ℕ} → n < u64_mod → Inv 0 0 r → Reach r n k s → Inv n k s
  Reach-Inv small i here = i
  Reach-Inv small i (later {n} {k} reach st) =
      Step-Inv n k small (Reach-Inv (omega arith) i reach) st

  -- Under every interleaving of fewer than 2^64 accesses, on a new table whose gauge was 0, the gauge
  -- of active flows and the entry that is not counted yet are the sessions in the map, those on
  -- their way out of it, and the closes that were lost to saturation; and of these there is one at
  -- most. Each session that has left is closed and cancelled.
  pub Reach-gauge :
      (idle_timeout : ℕ) (stats : PortStats) {n k : ℕ} {s : System Socket}
      → stats.udp_active_flows ≡ 0
      → n < u64_mod
      → Reach (start idle_timeout stats) n k s
      → (gauge s + opening s.phase ≡ uncounted s + k) × (k ≤ 1) × All IsGone s.table.removed
  Reach-gauge idle_timeout stats none_active small reach =
      let i = Reach-Inv small (start-Inv idle_timeout stats none_active) reach in
      (i.counted, i.lost, i.gone)

  -- A close is lost only where the last session is closed behind its entry and before the entry is
  -- counted.
  pub Reach-lost :
      (idle_timeout : ℕ) (stats : PortStats) {n k m : ℕ} {s : System Socket}
      → stats.udp_active_flows ≡ 0
      → n < u64_mod
      → Reach (start idle_timeout stats) n k s
      → s.marked ≡ suc m
      → gauge s ≡ 0
      → (opening s.phase ≡ 1) × (length s.table.sessions ≡ 0) × (k ≡ 0)
  Reach-lost idle_timeout stats {s} none_active small reach last saturates =
      let i = Reach-Inv small (start-Inv idle_timeout stats none_active) reach in
      let p = opening_le s.phase in
      (omega (arith, i.counted), omega (arith, i.counted), omega (arith, i.counted))
