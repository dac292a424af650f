-- ===== src/Sessions/Accounting.antt =====
-- Well-formed tables, and that each operation keeps them so.
use range_porter.Prelude.{
  ℕ, suc, ◌≤◌, ◌<◌, ◌≡◌, refl, sym, ◌∙◌, inl, inr, true, false, List, [], ◌∷◌, none, some, arith,
  All, All-imp, length, map, ◌==◌, Bool-cases, Option-cases,
}
use range_porter.Result.{Result, ok, err}
use range_porter.Word.{u64_mod, add_u64, add_u64_exact}
use range_porter.Net.{SocketAddr, same_addr}
use range_porter.Stats.Port.{
  record_udp_flow_open, record_udp_flow_close, add_udp_in, saturating_decrement,
}
use range_porter.Sessions.{
  UdpSession, UdpSessionTable, Entries, new_session, touch, cancel, mark_closed, get, touch_if,
  touch_session, enter, get_or_create, close, remove_session, remove_all, forward_client_packet,
}
use range_porter.Sessions.Map.{
  Entry, Apart, Distinct, get-none, get-All, All-remove, Distinct-remove, length-remove,
  All-touch_entries, Distinct-touch_entries, length-touch_entries,
}

-- A session in the map: it stands at its own address, its id was given out, and it is open.
abbrev pub IsLive : {Socket : Type 0} → ℕ → Entry Socket → Type 0
IsLive next e = (e.1.source ≡ e.0) × (e.1.id < next) × (e.1.closed ≡ false) × (e.1.shutdown ≡ false)

-- A session that has left the map: its reply loop is told to end.
abbrev pub IsGone : {Socket : Type 0} → UdpSession Socket → Type 0
IsGone s = (s.closed ≡ true) × (s.shutdown ≡ true)

module _ {Socket : Type 0} where
  -- After at most `n` calls.
  abbrev pub Sound : ℕ → UdpSessionTable Socket → Type 0
  Sound n t =
      (t.stats.udp_active_flows ≡ length t.sessions)
      × (length t.sessions ≤ n)
      × (t.next_session_id ≤ suc n)
      × Distinct t.sessions
      × All (IsLive t.next_session_id) t.sessions
      × All IsGone t.removed

  touch_if-IsLive :
      (next id now : ℕ) (a : SocketAddr) (s : UdpSession Socket)
      → IsLive next (a, s)
      → IsLive next (a, touch_if id now s)
  unfolding touch_if touch
  touch_if-IsLive next id now a s live = elim (Bool-cases (s.id == id)) [
    | inl same ↦ rw (same, touch_if) live
    | inr other ↦ rw (other, touch_if) live
  ]

  touch_if-IsGone : (id now : ℕ) (s : UdpSession Socket) → IsGone s → IsGone (touch_if id now s)
  unfolding touch_if touch
  touch_if-IsGone id now s gone = elim (Bool-cases (s.id == id)) [
    | inl same ↦ rw (same, touch_if) gone
    | inr other ↦ rw (other, touch_if) gone
  ]

  map-IsGone :
      (id now : ℕ) (l : List (UdpSession Socket))
      → All IsGone l
      → All IsGone (map (touch_if id now) l)
  map-IsGone id now [] gone = tt
  map-IsGone id now (s ∷ l) gone = (touch_if-IsGone id now s gone.0, map-IsGone id now l gone.1)

  pub touch_session-Sound :
      (n id now : ℕ) (t : UdpSessionTable Socket) → Sound n t → Sound n (touch_session id now t)
  unfolding touch_session
  touch_session-Sound n id now t (counted, few, next, distinct, live, gone) = (
    counted ∙ sym (length-touch_entries id now t.sessions),
    omega (arith, length-touch_entries id now t.sessions),
    next,
    Distinct-touch_entries id now t.sessions distinct,
    All-touch_entries (IsLive t.next_session_id) id now t.sessions
        (λ a s l. touch_if-IsLive t.next_session_id id now a s l) live,
    map-IsGone id now t.removed gone,
  )

  close-Sound :
      (n : ℕ) (source : SocketAddr) (s : UdpSession Socket) (t : UdpSessionTable Socket)
      → get source t.sessions ≡ some s
      → Sound n t
      → Sound n (close source s t)
  unfolding close mark_closed cancel record_udp_flow_close saturating_decrement
  close-Sound n source s t found (counted, few, next, distinct, live, gone) =
      let one_less = length-remove source t.sessions s found in
      let (_, _, is_open, _) = get-All (IsLive t.next_session_id) source t.sessions s found live in
      (
        rw is_open (omega (arith, one_less, counted)),
        omega (arith, one_less, few),
        next,
        Distinct-remove source t.sessions distinct,
        All-remove (IsLive t.next_session_id) source t.sessions live,
        ((refl, refl), gone),
      )

  pub remove_session-Sound :
      (n : ℕ) (source : SocketAddr) (id : ℕ) (t : UdpSessionTable Socket)
      → Sound n t
      → Sound n (remove_session source id t)
  unfolding remove_session
  remove_session-Sound n source id t sound = elim (Option-cases (get source t.sessions)) [
    | inl missing ↦ rw (missing, remove_session) sound
    | inr (s, found) ↦ elim (Bool-cases (s.id == id)) [
      | inl same ↦ rw (found, remove_session, same) (close-Sound n source s t found sound)
      | inr other ↦ rw (found, remove_session, other) sound
    ]
  ]

  pub remove_all-Sound :
      (n : ℕ) (l : List (SocketAddr × ℕ)) (t : UdpSessionTable Socket)
      → Sound n t
      → Sound n (remove_all l t)
  unfolding remove_all
  remove_all-Sound n [] t sound = sound
  remove_all-Sound n ((source, id) ∷ l) t sound =
      remove_all-Sound n l (remove_session source id t) (remove_session-Sound n source id t sound)

  new_id-Apart :
      (a : SocketAddr) (next : ℕ) (m : Entries Socket)
      → All (λ (e : Entry Socket). same_addr a (e.0) ≡ false) m
      → All (IsLive next) m
      → All (Apart a next) m
  new_id-Apart a next [] other live = tt
  new_id-Apart a next (e ∷ m) other live =
      ((other.0, λ same. let older = live.0.1 in omega arith), new_id-Apart a next m other.1 live.1)

  pub Sound-suc : (n : ℕ) (t : UdpSessionTable Socket) → Sound n t → Sound (suc n) t
  Sound-suc n t (counted, few, next, distinct, live, gone) =
      (counted, omega arith, omega arith, distinct, live, gone)

  create-Sound :
      {IoError : Type 0} (n : ℕ) (source : SocketAddr) (opened : Result IoError Socket) (now : ℕ)
      (t : UdpSessionTable Socket)
      → suc (suc n) < u64_mod
      → get source t.sessions ≡ none
      → Sound n t
      → Sound (suc n) (get_or_create source opened now t).1
  unfolding get_or_create enter new_session record_udp_flow_open
  create-Sound n source (err e) now t h missing sound =
      rw (missing, get_or_create) (Sound-suc n t sound)
  create-Sound n source (ok upstream) now t h missing (counted, few, next, distinct, live, gone) =
      let fresh = add_u64_exact t.next_session_id 1 (omega arith) in
      let opened = add_u64_exact t.stats.udp_active_flows 1 (omega arith) in
      rw (missing, get_or_create, missing, enter)
        (
          omega (arith, opened, counted),
          omega arith,
          omega (arith, fresh),
          (
            new_id-Apart source t.next_session_id t.sessions (get-none source t.sessions missing)
                live,
            distinct,
          ),
          (
            (refl, omega (arith, fresh), refl, refl),
            All-imp (IsLive t.next_session_id) (IsLive (add_u64 t.next_session_id 1)) t.sessions
                (λ e l. (l.0, omega (arith, l.1, fresh), l.2, l.3)) live,
          ),
          gone,
        )

  pub get_or_create-Sound :
      {IoError : Type 0} (n : ℕ) (source : SocketAddr) (opened : Result IoError Socket) (now : ℕ)
      (t : UdpSessionTable Socket)
      → suc (suc n) < u64_mod
      → Sound n t
      → Sound (suc n) (get_or_create source opened now t).1
  unfolding get_or_create
  get_or_create-Sound n source opened now t h sound = elim (Option-cases (get source t.sessions)) [
    | inl missing ↦ create-Sound n source opened now t h missing sound
    | inr (s, found) ↦
        rw (found, get_or_create) (touch_session-Sound (suc n) s.id now t (Sound-suc n t sound))
  ]

  pub forward-Sound :
      {IoError : Type 0} (n id : ℕ) (payload : List ℕ) (sent : Result IoError ℕ) (now : ℕ)
      (t : UdpSessionTable Socket)
      → Sound n t
      → Sound n (forward_client_packet id payload sent now t)
  unfolding forward_client_packet add_udp_in
  forward-Sound n id payload (err e) now t sound = sound
  forward-Sound n id payload (ok k) now t sound = touch_session-Sound n id now t sound
