-- ===== src/Paths/PortsNo.antt =====
-- The map of port numbers (`addLogicalPortToMap` and the others of
-- rw_core/core/logical_device_agent.go).
use vol_2619_voltha_go.Prelude.{
  ℕ, Bool, true, false, none, some, List, [], ◌∷◌, ◌==◌, ◌&&◌, ◌||◌, not, if◌then◌else◌, Map, ◌≡◌,
  refl, lookup, insert, delete, lookup-insert, lookup-delete, nat_key, ap, any, Bool-cases, inl,
  inr, ==_iff, ◌∙◌, sym,
}
use vol_2619_voltha_go.Route.{LogicalPort}
use vol_2619_voltha_go.Paths.{
  flag_of, add_logical_port_to_map, add_logical_ports_to_map, delete_logical_ports_from_map,
  is_nni_port,
}

flag-insert :
    (p q : ℕ) (b : Bool) (m : Map ℕ Bool)
    → flag_of (lookup q (insert p b m)) ≡ (if p == q then b else flag_of (lookup q m))
flag-insert p q b m = rw (lookup-insert p q b m) (at (p == q))
  where
    at :
        (same : Bool)
        → flag_of (if same then some b else lookup q m) ≡ (if same then b else flag_of (lookup q m))
    at true = refl
    at false = refl

flag_same :
    (p q : ℕ) (m : Map ℕ Bool) → (p == q) ≡ true → flag_of (lookup p m) ≡ flag_of (lookup q m)
flag_same p q m e = ap (λ i. flag_of (lookup i m)) ((==_iff p q).0 e)

or_false : (a : Bool) → a ≡ (a || false)
or_false true = refl
or_false false = refl

is_nni-add :
    (p q : ℕ) (b : Bool) (m : Map ℕ Bool)
    → is_nni_port q (add_logical_port_to_map p b m) ≡ (is_nni_port q m || (p == q && b))
unfolding is_nni_port add_logical_port_to_map
is_nni-add p q b m = at (flag_of (lookup p m)) refl
  where
    at :
        (old : Bool)
        → flag_of (lookup p m) ≡ old
        → flag_of (lookup q (if not old then insert p b m else m))
          ≡ (flag_of (lookup q m) || (p == q && b))
    at true e = elim (Bool-cases (p == q)) [
      | inl same ↦ rw (sym (flag_same p q m same) ∙ e)
      | inr other ↦ rw other (or_false (flag_of (lookup q m)))
    ]
    at false e = elim (Bool-cases (p == q)) [
      | inl same ↦ rw (flag-insert p q b m, same, sym (flag_same p q m same) ∙ e)
      | inr other ↦ rw (flag-insert p q b m, other) (or_false (flag_of (lookup q m)))
    ]

is_nni-delete :
    (p q : ℕ) (m : Map ℕ Bool) → is_nni_port q (delete p m) ≡ (not (p == q) && is_nni_port q m)
unfolding is_nni_port
is_nni-delete p q m = rw (lookup-delete p q m) (at (p == q))
  where
    at :
        (same : Bool)
        → flag_of (if same then none else lookup q m) ≡ (not same && flag_of (lookup q m))
    at true = refl
    at false = refl

-- The deletion of some ports from the map forgets just the NNI ports among them.
pub is_nni_port-delete_logical_ports :
    (q : ℕ) (ps : List ℕ) (m : Map ℕ Bool)
    → is_nni_port q (delete_logical_ports_from_map ps m)
      ≡ (not (any (λ p. p == q) ps) && is_nni_port q m)
unfolding delete_logical_ports_from_map
is_nni_port-delete_logical_ports q [] m = refl
is_nni_port-delete_logical_ports q (p ∷ ps) m =
    is_nni_port-delete_logical_ports q ps (delete p m)
    ∙ rw (is_nni-delete p q m) (at (p == q) (any (λ p. p == q) ps) (is_nni_port q m))
  where
    at : (a b c : Bool) → (not b && (not a && c)) ≡ (not (a || b) && c)
    at true true c = refl
    at true false c = refl
    at false b c = refl

-- The addition of logical ports to the map makes a port an NNI port just if it was one before or one
-- of the logical ports is a root port with its device port number: no port stops being one.
pub is_nni_port-add_logical_ports :
    (q : ℕ) (lps : List LogicalPort) (m : Map ℕ Bool)
    → is_nni_port q (add_logical_ports_to_map lps m)
      ≡ (is_nni_port q m || any (λ lp. lp.device_port_no == q && lp.root_port) lps)
unfolding add_logical_ports_to_map
is_nni_port-add_logical_ports q [] m = or_false (is_nni_port q m)
is_nni_port-add_logical_ports q (lp ∷ lps) m =
    is_nni_port-add_logical_ports q lps (add_logical_port_to_map lp.device_port_no lp.root_port m)
    ∙ rw (is_nni-add lp.device_port_no q lp.root_port m)
        (or_assoc (is_nni_port q m) (lp.device_port_no == q && lp.root_port) _)
  where
    or_assoc : (a b c : Bool) → ((a || b) || c) ≡ (a || (b || c))
    or_assoc true b c = refl
    or_assoc false b c = refl
