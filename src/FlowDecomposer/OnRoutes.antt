-- ===== src/FlowDecomposer/OnRoutes.antt =====
-- The decomposed rules are for devices on the agent's routes
-- (rw_core/flowdecomposition/flow_decomposer.go).
use vol_2619_voltha_go.Prelude.{
  ℕ, String, Bool, true, false, Option, none, some, List, [], ◌∷◌, ◌==◌, ◌&&◌, not, if◌then◌else◌,
  Map, nat_key, string_key, ◌≡◌, refl, ◌⊎◌, inl, inr, subst,
}
use vol_2619_voltha_go.Status.{Result, ok, err, aborted}
use vol_2619_voltha_go.Route.{Hop}
use vol_2619_voltha_go.Openflow.{Messages, Flow, is_controller_bound}
use vol_2619_voltha_go.FlowDecomposer.{
  FlowUtils, FlowUtilsLaws, FlowArgs, Rules, Surroundings, HasDevice,
}
use vol_2619_voltha_go.FlowDecomposer.Trap.{add_rule, process_controller_bound_flow}
use vol_2619_voltha_go.FlowDecomposer.Directed.{
  process_upstream_non_controller_bound_flow, process_downstream_flow_with_next_table,
  process_unicast_flow, process_multicast_flow, multicast_rules, metadata_rules, metadata_hop,
  recalculated,
}
use vol_2619_voltha_go.FlowDecomposer.Decompose.{
  directed, routed, updated, decompose_flow, and_rest, decompose_all, decompose_rules, group_map,
}
use vol_2619_voltha_go.FlowDecomposer.RuleDevices.{
  Only, Only-nil, Only-add, Only-add_rule, Only-trap_uni, Only-or, Only-update_output_port,
  Only-add_rules,
}

-- A device of a hop of a route of two hops that the agent gives.
abbrev pub OnRoute : Surroundings → String → Type 0
OnRoute A d =
    (i : ℕ) × (o : ℕ) × (h : Hop) × (h' : Hop) × (A.get_route i o ≡ ok (h ∷ h' ∷ []))
    × ((d ≡ h.device_id) ⊎ (d ≡ h'.device_id))

module _ (A : Surroundings) (i o : ℕ) (h h' : Hop) (e : A.get_route i o ≡ ok (h ∷ h' ∷ [])) where
  first_on : OnRoute A h.device_id
  first_on = (i, o, h, h', e, inl refl)

  second_on : OnRoute A h'.device_id
  second_on = (i, o, h, h', e, inr refl)

module _ {M : Messages} (U : FlowUtils M) (laws : FlowUtilsLaws M U) (A : Surroundings) where
  abbrev Routed : Rules M → Type 0
  Routed = Only U laws (OnRoute A)

  -- Whichever of two, both are on routes.
  Routed-if : (b : Bool) (r r' : Rules M) → Routed r → Routed r' → Routed (if b then r else r')
  Routed-if true r r' k k' = k
  Routed-if false r r' k k' = k'

  module _ (h h' : Hop) (on : OnRoute A h.device_id) (on' : OnRoute A h'.device_id) where
    controller_bound-Routed :
        (i : ℕ) (f : Flow M) → Routed (process_controller_bound_flow U A h h' i f)
    unfolding process_controller_bound_flow
    controller_bound-Routed i f =
        Routed-if (A.is_root_port i) _ _
          (Only-add_rule U laws (OnRoute A) _ _ [] on' (Only-nil U laws (OnRoute A)))
          (Only-trap_uni U laws (OnRoute A) f h h' _ [] on on' (Only-nil U laws (OnRoute A)))

    rule-Routed : (args : FlowArgs U.Field U.Action) → Routed (add_rule U h.device_id args [])
    rule-Routed args = Only-add_rule U laws (OnRoute A) _ args [] on (Only-nil U laws (OnRoute A))

    rule'-Routed : (args : FlowArgs U.Field U.Action) → Routed (add_rule U h'.device_id args [])
    rule'-Routed args = Only-add_rule U laws (OnRoute A) _ args [] on' (Only-nil U laws (OnRoute A))

    upstream-Routed :
        (i o : ℕ) (f : Flow M) → Routed (process_upstream_non_controller_bound_flow U h h' i o f)
    unfolding process_upstream_non_controller_bound_flow
    upstream-Routed i o f =
        let nil = Only-nil U laws (OnRoute A) in
        Routed-if (f.table_id == 0 && U.has_next_table f) _ _
          (Routed-if (not (o == 0)) _ _ nil (rule-Routed _))
          (Routed-if (f.table_id == 1 && not (o == 0)) _ _ (rule'-Routed _) nil)

    metadata-Routed :
        (f : Flow M) (n : ℕ) (hop : Option Hop)
        → ((g : Hop) → hop ≡ some g → OnRoute A g.device_id)
        → Routed (metadata_rules U f n hop)
    metadata-Routed f n none on = Only-nil U laws (OnRoute A)
    metadata-Routed f n (some g) on =
        Routed-if (U.get_inner_tag_from_metadata f == 0) _ _ (Only-nil U laws (OnRoute A))
          (Only-add_rule U laws (OnRoute A) _ _ [] (on g refl) (Only-nil U laws (OnRoute A)))

    recalculated-OnRoute :
        (i o : ℕ) (r : Result (List Hop)) (g : Hop)
        → A.get_route i o ≡ r
        → recalculated r ≡ some g
        → OnRoute A g.device_id
    recalculated-OnRoute i o (ok (a ∷ b ∷ [])) g e k = (i, o, a, b, e, inl (same k))
      where
        same : some a ≡ some g → g.device_id ≡ a.device_id
        same k = cc
    recalculated-OnRoute i o (ok []) g e k = cc
    recalculated-OnRoute i o (ok (a ∷ [])) g e k = cc
    recalculated-OnRoute i o (ok (a ∷ b ∷ c ∷ cs)) g e k = cc
    recalculated-OnRoute i o (err c) g e k = cc

    metadata_hop-OnRoute :
        (i n : ℕ) (g : Hop) → metadata_hop A h i n ≡ some g → OnRoute A g.device_id
    metadata_hop-OnRoute i n g = at (not (n == 0))
      where
        at :
            (b : Bool)
            → (if b then recalculated (A.get_route i n) else some h) ≡ some g
            → OnRoute A g.device_id
        at true k = recalculated-OnRoute i n (A.get_route i n) g refl k
        at false k = subst (λ d. OnRoute A d) (same k) on
          where
            same : some h ≡ some g → h.device_id ≡ g.device_id
            same k = cc

    downstream-Routed :
        (i o : ℕ) (f : Flow M) → Routed (process_downstream_flow_with_next_table U A h i o f)
    unfolding process_downstream_flow_with_next_table
    downstream-Routed i o f =
        let nil = Only-nil U laws (OnRoute A) in
        Routed-if (not (o == 0)) _ _ nil (
          Routed-if (not (f.table_id == 0)) _ _ nil (
            Routed-if (not (U.get_metadata_from_write_metadata_action f == 0)) _ _
              (metadata-Routed f _ _ (metadata_hop-OnRoute i _)) (rule-Routed _)))

    unicast-Routed : (f : Flow M) → Routed (process_unicast_flow U h' f)
    unfolding process_unicast_flow
    unicast-Routed f = rule'-Routed _

    multicast_rules-Routed : (f : Flow M) (o : Option M.Group) → Routed (multicast_rules U h f o)
    multicast_rules-Routed f none = Only-nil U laws (OnRoute A)
    multicast_rules-Routed f (some g) = Only-add U laws (OnRoute A) h.device_id _ _ on (
        Only-or U laws (OnRoute A) h.device_id [] _ on (Only-nil U laws (OnRoute A))
          (λ e has. laws.devices_create h.device_id e [] has))

    multicast-Routed :
        (f : Flow M) (id : ℕ) (m : Map ℕ M.Group) → Routed (process_multicast_flow U h f id m)
    unfolding process_multicast_flow
    multicast-Routed f id m = multicast_rules-Routed f _

  -- If there is a result, its devices are on routes.
  abbrev Good : Result (Rules M) → Type 0
  Good (ok rules) = Routed rules
  Good (err c) = Unit

  Good-if : (b : Bool) (r r' : Result (Rules M)) → Good r → Good r' → Good (if b then r else r')
  Good-if true r r' k k' = k
  Good-if false r r' k k' = k'

  directed-Good :
      (m : Map ℕ M.Group) (f : Flow M) (i o : ℕ) (h h' : Hop) (root : Result Bool)
      → OnRoute A h.device_id
      → OnRoute A h'.device_id
      → Good (directed U A m f i o h h' root)
  directed-Good m f i o h h' (err c) on on' = tt
  directed-Good m f i o h h' (ok false) on on' = upstream-Routed h h' on on' i o f
  directed-Good m f i o h h' (ok true) on on' =
      Good-if (U.has_next_table f && f.table_id == 0) _ _ (downstream-Routed h h' on on' i o f) (
        Good-if (f.table_id == 1 && not (o == 0)) _ _ (unicast-Routed h h' on on' f) (
          Good-if (not (U.get_group f == 0) && f.table_id == 0) _ (err aborted)
            (multicast-Routed h h' on on' f _ m) tt))

  routed-Good :
      (m : Map ℕ M.Group) (f : Flow M) (i o : ℕ) (r : Result (List Hop))
      → A.get_route i o ≡ r
      → Good (routed U A m f i o r)
  routed-Good m f i o (err c) e = tt
  routed-Good m f i o (ok []) e = tt
  routed-Good m f i o (ok (h ∷ [])) e = tt
  routed-Good m f i o (ok (h ∷ h' ∷ [])) e =
      Good-if (is_controller_bound o) _ _
        (controller_bound-Routed h h' (first_on A i o h h' e) (second_on A i o h h' e) i f)
        (directed-Good m f i o h h' (A.get_device h.device_id) (first_on A i o h h' e)
          (second_on A i o h h' e))
  routed-Good m f i o (ok (h ∷ h' ∷ g ∷ gs)) e = tt

  updated-Good : (r : Result (Rules M)) → Good r → Good (updated U A r)
  updated-Good (err c) k = tt
  updated-Good (ok rules) k = Only-update_output_port U laws (OnRoute A) A rules k

  decompose_flow-Good : (m : Map ℕ M.Group) (f : Flow M) → Good (decompose_flow U A m f)
  unfolding decompose_flow
  decompose_flow-Good m f = updated-Good _ (routed-Good m f _ _ _ refl)

  decompose_all-Good :
      (m : Map ℕ M.Group) (fs : List (Flow M)) (rules : Rules M)
      → Routed rules
      → Good (decompose_all U A m fs rules)
  unfolding decompose_all
  decompose_all-Good m [] rules k = k
  decompose_all-Good m (f ∷ fs) rules k =
      at (decompose_flow U A m f) (decompose_flow-Good m f) (λ r. decompose_all-Good m fs r)
    where
      at :
          (r : Result (Rules M))
          → Good r
          → ((rs : Rules M) → Routed rs → Good (decompose_all U A m fs rs))
          → Good (and_rest U A rules (decompose_all U A m fs) r)
      at (err c) good rec = tt
      at (ok rs) good rec = rec _ (Only-add_rules U laws (OnRoute A) A rs rules good k)

  -- The decomposition of any flows gives rules to no other devices than those of the hops of routes of
  -- two hops that the agent gives.
  pub decompose_rules-OnRoute :
      (flows : List (Flow M)) (groups : List M.Group) (rules : Rules M) (d : String)
      → decompose_rules U A flows groups ≡ ok rules
      → HasDevice M d rules
      → OnRoute A d
  unfolding decompose_rules
  decompose_rules-OnRoute flows groups rules d e =
      subst Good e
        (decompose_all-Good (group_map U A groups []) flows [] (Only-nil U laws (OnRoute A))) d
