-- ===== src/FlowDecomposer/RuleDevices.antt =====
-- Which devices get rules (rw_core/flowdecomposition/flow_decomposer.go).
use vol_2619_voltha_go.Prelude.{
  ℕ, String, Bool, true, false, some, List, [], ◌∷◌, if◌then◌else◌, lookup, insert, nat_key,
  string_key, ◌≡◌, refl, ◌⊎◌, inl, inr, All, str_eq, eq_iff, eq_refl, insert-cases, sym, subst, ◌∙◌,
}
use vol_2619_voltha_go.Route.{Hop}
use vol_2619_voltha_go.Openflow.{Messages, Flow}
use vol_2619_voltha_go.FlowDecomposer.{
  FlowUtils, FlowUtilsLaws, FlowArgs, Rules, Surroundings, HasDevice,
}
use vol_2619_voltha_go.FlowDecomposer.Trap.{
  add_rule, trap_uni, add_parent_flows, update_parents, parent_flow,
  update_output_port_for_controller_bound_flow_for_parent_devide,
}
use vol_2619_voltha_go.FlowDecomposer.Decompose.{add_rules}

module _ (M : Messages) where
  pub insert-HasDevice :
      (d e : String) (fg : M.FlowsAndGroups) (r : Rules M)
      → HasDevice M e (insert d fg r)
      → (d ≡ e) ⊎ HasDevice M e r
  insert-HasDevice d e fg r has = at (insert-cases d e fg has.0 r has.1)
    where
      at : (d ≡ e) ⊎ (lookup e r ≡ some has.0) → (d ≡ e) ⊎ HasDevice M e r
      at (inl same) = inl same
      at (inr had) = inr (has.0, had)

module _ {M : Messages} (U : FlowUtils M) (laws : FlowUtilsLaws M U) (P : String → Type 0) where
  -- Every device with rules has the property.
  abbrev pub Only : Rules M → Type 0
  Only rules = (d : String) → HasDevice M d rules → P d

  pub Only-nil : Only []
  unfolding lookup
  Only-nil d (fg, e) = cc

  pub Only-add :
      (d : String) (fg : M.FlowsAndGroups) (r : Rules M)
      → P d
      → Only r
      → Only (U.add_flows_and_group d fg r)
  Only-add d fg r h k e has = at (str_eq d e) refl (has.0, sym (laws.lookup_add d e fg r) ∙ has.1)
    where
      at :
          (b : Bool)
          → str_eq d e ≡ b
          → ((g : M.FlowsAndGroups) × ((if b then some fg else lookup e r) ≡ some g))
          → P e
      at true same has = subst P ((eq_iff d e).0 same) h
      at false other has = k e has

  pub Only-add_rule :
      (d : String) (args : FlowArgs U.Field U.Action) (r : Rules M)
      → P d
      → Only r
      → Only (add_rule U d args r)
  unfolding add_rule
  Only-add_rule d args r h k = Only-add d _ r h k

  pub Only-trap_uni :
      (flow : Flow M) (h h' : Hop) (ports : List ℕ) (r : Rules M)
      → P h.device_id
      → P h'.device_id
      → Only r
      → Only (trap_uni U flow h h' ports r)
  unfolding trap_uni
  Only-trap_uni flow h h' [] r p p' k = k
  Only-trap_uni flow h h' (i ∷ is) r p p' k =
      Only-trap_uni flow h h' is _ p p'
        (Only-add_rule h.device_id _ _ p (Only-add_rule h'.device_id _ r p' k))

  -- The devices of the entries of a map.
  entries-Only : (r : Rules M) → Only r → All (λ entry. P entry.0) r
  unfolding lookup
  entries-Only [] k = tt
  entries-Only ((d, fg) ∷ r) k =
      (k d (fg, rw (eq_refl d)), entries-Only r (λ e has. k e (later d e fg r has)))
    where
      later :
          (d e : String) (fg : M.FlowsAndGroups) (r : Rules M)
          → HasDevice M e r
          → HasDevice M e ((d, fg) ∷ r)
      later d e fg r has = at (str_eq d e)
        where
          at :
              (b : Bool) → ((g : M.FlowsAndGroups) × ((if b then some fg else lookup e r) ≡ some g))
          at true = (fg, refl)
          at false = has

  pub Only-or :
      (d : String) (r r' : Rules M)
      → P d
      → Only r
      → ((e : String) → HasDevice M e r' → (d ≡ e) ⊎ HasDevice M e r)
      → Only r'
  Only-or d r r' h k more e has = at (more e has)
    where
      at : (d ≡ e) ⊎ HasDevice M e r → P e
      at (inl same) = subst P same h
      at (inr had) = k e had

  Only-add_parent_flows :
      (d : String) (fs : List (Flow M)) (r : Rules M)
      → P d
      → Only r
      → Only (add_parent_flows U d fs r)
  unfolding add_parent_flows
  Only-add_parent_flows d [] r h k = k
  Only-add_parent_flows d (f ∷ fs) r h k =
      Only-add_parent_flows d fs _ h
        (Only-or d r _ h k (λ e has. laws.devices_add_flow d e (parent_flow U f) r has))

  Only-update_parents :
      (A : Surroundings) (rest r : Rules M)
      → All (λ entry. P entry.0) rest
      → Only r
      → Only (update_parents U A rest r)
  unfolding update_parents
  Only-update_parents A [] r h k = k
  Only-update_parents A ((d, fg) ∷ rest) r h k =
      Only-update_parents A rest _ h.1 (at (A.is_root_device d))
    where
      at :
          (b : Bool)
          → Only (if b then add_parent_flows U d (U.flows_of fg) (U.clear_flows d r) else r)
      at true =
          Only-add_parent_flows d (U.flows_of fg) _ h.0
            (λ e has. k e (laws.devices_clear d e r has))
      at false = k

  pub Only-update_output_port :
      (A : Surroundings) (r : Rules M)
      → Only r
      → Only (update_output_port_for_controller_bound_flow_for_parent_devide U A r)
  unfolding update_output_port_for_controller_bound_flow_for_parent_devide
  Only-update_output_port A r k = Only-update_parents A r r (entries-Only r k) k

  Only-insert :
      (d : String) (fg : M.FlowsAndGroups) (r : Rules M) → P d → Only r → Only (insert d fg r)
  Only-insert d fg r h k =
      Only-or d r (insert d fg r) h k (λ e has. insert-HasDevice M d e fg r has)

  Only-add_entries :
      (A : Surroundings) (r device_rules : Rules M)
      → All (λ entry. P entry.0) r
      → Only device_rules
      → Only (add_rules U A r device_rules)
  unfolding add_rules
  Only-add_entries A [] device_rules h k = k
  Only-add_entries A ((d, fg) ∷ r) device_rules h k =
      Only-add_entries A r _ h.1 (Only-insert d _ device_rules h.0 k)

  pub Only-add_rules :
      (A : Surroundings) (r device_rules : Rules M)
      → Only r
      → Only device_rules
      → Only (add_rules U A r device_rules)
  Only-add_rules A r device_rules h k = Only-add_entries A r device_rules (entries-Only r h) k
