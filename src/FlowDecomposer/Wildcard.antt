-- ===== src/FlowDecomposer/Wildcard.antt =====
-- Trap flows without an input port, which are for every port that the agent gives for the wildcard
-- (`processControllerBoundFlow` of rw_core/flowdecomposition/flow_decomposer.go).
use vol_2619_voltha_go.Prelude.{
  ℕ, String, false, some, List, [], ◌∷◌, ◌++◌, lookup, string_key, ◌≡◌, str_eq, eq_refl, ◌∙◌,
}
use vol_2619_voltha_go.Route.{Hop}
use vol_2619_voltha_go.Openflow.{Messages, Flow}
use vol_2619_voltha_go.FlowDecomposer.{FlowUtils, FlowUtilsLaws, FlowArgs, Rules, Surroundings}
use vol_2619_voltha_go.FlowDecomposer.Trap.{
  add_rule, trap_uni, parent_args, child_args, input_ports, process_controller_bound_flow,
}

module _ {M : Messages} (U : FlowUtils M) (laws : FlowUtilsLaws M U) where
  -- The rules of a device that hold one flow.
  abbrev pub only_flow : FlowArgs U.Field U.Action → M.FlowsAndGroups
  only_flow args = U.add_flow (U.mk_flow_stat args) U.new_flows_and_groups

  lookup-same :
      (d : String) (args : FlowArgs U.Field U.Action) (r : Rules M)
      → lookup d (add_rule U d args r) ≡ some (only_flow args)
  unfolding add_rule
  lookup-same d args r = rw (laws.lookup_add d d (only_flow args) r, eq_refl d)

  lookup-other :
      (d e : String) (args : FlowArgs U.Field U.Action) (r : Rules M)
      → str_eq d e ≡ false
      → lookup e (add_rule U d args r) ≡ lookup e r
  unfolding add_rule
  lookup-other d e args r k = rw (laws.lookup_add d e (only_flow args) r, k)

  module _ (flow : Flow M) (h h' : Hop) (differ : str_eq h.device_id h'.device_id ≡ false) where
    trap_uni-last :
        (ports : List ℕ) (p : ℕ) (r : Rules M)
        → (lookup h'.device_id (trap_uni U flow h h' (ports ++ p ∷ []) r)
            ≡ some (only_flow (parent_args U flow h' p)))
          × (lookup h.device_id (trap_uni U flow h h' (ports ++ p ∷ []) r)
              ≡ some (only_flow (child_args U flow h p)))
    unfolding trap_uni
    trap_uni-last [] p r = (
      lookup-other h.device_id h'.device_id _ _ differ ∙ lookup-same h'.device_id _ r,
      lookup-same h.device_id _ _,
    )
    trap_uni-last (i ∷ is) p r = trap_uni-last is p _

    -- A trap flow without an input port, on a route between different devices, gives the device
    -- of each of the two hops just one flow, that for the last of the ports that the agent gives
    -- for the wildcard; the flows for the other ports are overwritten.
    pub process_controller_bound_flow-last :
        (A : Surroundings) (ports : List ℕ) (p : ℕ)
        → A.is_root_port 0 ≡ false
        → A.get_wildcard_input_ports h'.egress ≡ ports ++ p ∷ []
        → (lookup h'.device_id (process_controller_bound_flow U A h h' 0 flow)
            ≡ some (only_flow (parent_args U flow h' p)))
          × (lookup h.device_id (process_controller_bound_flow U A h h' 0 flow)
              ≡ some (only_flow (child_args U flow h p)))
    unfolding process_controller_bound_flow input_ports
    process_controller_bound_flow-last A ports p no_root given =
        rw (no_root, given) (trap_uni-last ports p [])
