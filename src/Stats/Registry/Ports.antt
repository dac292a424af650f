-- ===== src/Stats/Registry/Ports.antt =====
-- The map of the ports: look-ups, handles, and the order of the ports in a snapshot.
use range_porter.Prelude.{
  ℕ, ◌≡◌, refl, sym, ap, ◌∙◌, ◌⊎◌, inl, inr, List, [], ◌∷◌, none, some, arith, ◌==◌, if◌then◌else◌,
  In, Bool-cases, ==→eq, ==_false→ne,
}
use mathlib.Core.Option
use range_porter.Text.{Text}
use range_porter.Stats.Port.{PortStats, PortSnapshot}
use range_porter.Stats.Port
use range_porter.Stats.Registry.{
  PortMap, StatsRegistry, insert_port, collect_ports, new, get_port, port, update_ports,
  update_port,
}

get_port-insert_port :
    (p q : ℕ) (s : PortStats) (ports : PortMap)
    → get_port q (insert_port p s ports) ≡ (if q == p then some s else get_port q ports)
unfolding get_port insert_port
get_port-insert_port p q s [] = refl
get_port-insert_port p q s ((r, t) ∷ ports) = ground (arith, get_port-insert_port p q s ports)

get_port-collect_ports-In :
    (p : ℕ) (ps : List ℕ) (ports : PortMap)
    → (In p ps ⊎ (get_port p ports ≡ some (Port.new p)))
    → get_port p (collect_ports ps ports) ≡ some (Port.new p)
unfolding collect_ports
get_port-collect_ports-In p [] ports (inl i) = absurd i
get_port-collect_ports-In p [] ports (inr e) = e
get_port-collect_ports-In p (q ∷ ps) ports h =
    get_port-collect_ports-In p ps (insert_port q (Port.new q) ports) (elim (Bool-cases (p == q)) [
      | inl e ↦ inr (
          get_port-insert_port q p (Port.new q) ports
          ∙ rw e (ap (λ k. some (Port.new k)) (sym (==→eq p q e))))
      | inr e ↦ elim h [
        | inr old ↦ inr (get_port-insert_port q p (Port.new q) ports ∙ rw e old)
        | inl (inl same) ↦ absurd (==_false→ne p q e same)
        | inl (inr i) ↦ inl i
      ]
    ])

get_port-collect_ports_not-In :
    (p : ℕ) (ps : List ℕ) (ports : PortMap)
    → ¬ In p ps
    → get_port p ports ≡ none
    → get_port p (collect_ports ps ports) ≡ none
unfolding collect_ports
get_port-collect_ports_not-In p [] ports h e = e
get_port-collect_ports_not-In p (q ∷ ps) ports h e =
    get_port-collect_ports_not-In p ps (insert_port q (Port.new q) ports) (λ i. h (inr i))
      (get_port-insert_port q p (Port.new q) ports ∙ elim (Bool-cases (p == q)) [
        | inl same ↦ absurd (h (inl (==→eq p q same)))
        | inr ne ↦ rw ne e
      ])

-- A new registry has fresh counters for each listen port, and a request for any other port panics.
pub port-new :
    (ps : List ℕ) (target : Text) (window now p : ℕ)
    → (In p ps → port (new ps target window now) p ≡ some (Port.new p))
      × (¬ In p ps → port (new ps target window now) p ≡ none)
unfolding port new
port-new ps target window now p = (
  λ i. get_port-collect_ports-In p ps [] (inl i),
  λ h. get_port-collect_ports_not-In p ps [] h (unfold get_port in refl),
)

-- What is done through the handle of one port is read back at that port, and at no other.
pub port-update_port :
    (registry : StatsRegistry) (p q : ℕ) (f : PortStats → PortStats)
    → port (update_port p f registry) q
      ≡ (if p == q then Option.map f (port registry q) else port registry q)
unfolding port update_port
port-update_port registry p q f = update registry.ports
  where
    update :
        (ports : PortMap)
        → get_port q (update_ports p f ports)
          ≡ (if p == q then Option.map f (get_port q ports) else get_port q ports)
    update [] = ground arith
    update ((r, s) ∷ ports) = ground (arith, update ports)
