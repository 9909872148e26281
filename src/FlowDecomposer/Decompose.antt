-- ===== src/FlowDecomposer/Decompose.antt =====
-- The decomposition of one flow and of several (rw_core/flowdecomposition/flow_decomposer.go).
use vol_2619_voltha_go.Prelude.{
  ℕ, Bool, true, false, Option, none, some, List, [], ◌∷◌, ◌==◌, ◌&&◌, not, if◌then◌else◌, Map,
  lookup, insert, nat_key, string_key,
}
use vol_2619_voltha_go.Status.{failed_precondition, aborted, Result, ok, err}
use vol_2619_voltha_go.Route.{Hop}
use vol_2619_voltha_go.Openflow.{Messages, Flow, is_controller_bound}
use vol_2619_voltha_go.FlowDecomposer.{FlowUtils, Rules, Surroundings}
use vol_2619_voltha_go.FlowDecomposer.Trap.{
  process_controller_bound_flow, update_output_port_for_controller_bound_flow_for_parent_devide,
}
use vol_2619_voltha_go.FlowDecomposer.Directed.{
  process_upstream_non_controller_bound_flow, process_downstream_flow_with_next_table,
  process_unicast_flow, process_multicast_flow,
}

module _ {M : Messages} (U : FlowUtils M) (A : Surroundings) where
  abbrev pub first_or : ℕ → List ℕ → ℕ
  first_or n [] = n
  first_or n (p ∷ ps) = p

  -- The input port, the first NNI port for a multicast flow without one.
  unfoldable pub in_port_of : Flow M → ℕ
  in_port_of flow =
      if U.has_group flow && U.get_in_port flow == 0
      then first_or (U.get_in_port flow) A.get_nni_ports
      else U.get_in_port flow

  -- From the answer whether the ingress device is a root device.
  abbrev pub directed : Map ℕ M.Group → Flow M → ℕ → ℕ → Hop → Hop → Result Bool → Result (Rules M)
  directed group_map flow in_port_no out_port_no ingress_hop egress_hop (err c) = err c
  directed group_map flow in_port_no out_port_no ingress_hop egress_hop (ok false) = ok (
      process_upstream_non_controller_bound_flow U ingress_hop egress_hop in_port_no out_port_no
        flow)
  directed group_map flow in_port_no out_port_no ingress_hop egress_hop (ok true) =
      if U.has_next_table flow && flow.table_id == 0
      then ok (process_downstream_flow_with_next_table U A ingress_hop in_port_no out_port_no flow)
      else if flow.table_id == 1 && not (out_port_no == 0)
      then ok (process_unicast_flow U egress_hop flow)
      else if not (U.get_group flow == 0) && flow.table_id == 0
      then ok (process_multicast_flow U ingress_hop flow (U.get_group flow) group_map)
      else err aborted

  -- From the route.
  abbrev pub routed : Map ℕ M.Group → Flow M → ℕ → ℕ → Result (List Hop) → Result (Rules M)
  routed group_map flow in_port_no out_port_no (err c) = err c
  routed group_map flow in_port_no out_port_no (ok []) = err failed_precondition
  routed group_map flow in_port_no out_port_no (ok (ingress_hop ∷ egress_hop ∷ [])) =
      if is_controller_bound out_port_no
      then ok (process_controller_bound_flow U A ingress_hop egress_hop in_port_no flow)
      else directed group_map flow in_port_no out_port_no ingress_hop egress_hop
          (A.get_device ingress_hop.device_id)
  routed group_map flow in_port_no out_port_no (ok _) = err aborted

  abbrev pub updated : Result (Rules M) → Result (Rules M)
  updated (err c) = err c
  updated (ok rules) = ok (update_output_port_for_controller_bound_flow_for_parent_devide U A rules)

  unfoldable pub decompose_flow : Map ℕ M.Group → Flow M → Result (Rules M)
  decompose_flow group_map flow =
      let in_port_no = in_port_of flow in
      let out_port_no = U.get_out_port flow in
      updated (routed group_map flow in_port_no out_port_no (A.get_route in_port_no out_port_no))

  -- The loop over the rules of one flow: the rules of each device are added to those that it has.
  unfoldable pub add_rules : Rules M → Rules M → Rules M
  add_rules [] device_rules = device_rules
  add_rules ((device_id, fg) ∷ rest) device_rules =
      add_rules rest
        (insert device_id (U.add_from fg (entry (lookup device_id device_rules))) device_rules)
    where
      entry : Option M.FlowsAndGroups → M.FlowsAndGroups
      entry none = U.new_flows_and_groups
      entry (some fg) = fg

  abbrev pub and_rest : Rules M → (Rules M → Result (Rules M)) → Result (Rules M) → Result (Rules M)
  and_rest device_rules rest (err c) = err c
  and_rest device_rules rest (ok rules) = rest (add_rules rules device_rules)

  -- The loop over the flows.
  unfoldable pub decompose_all : Map ℕ M.Group → List (Flow M) → Rules M → Result (Rules M)
  decompose_all group_map [] device_rules = ok device_rules
  decompose_all group_map (flow ∷ flows) device_rules =
      and_rest device_rules (decompose_all group_map flows) (decompose_flow group_map flow)

  unfoldable pub group_map : List M.Group → Map ℕ M.Group → Map ℕ M.Group
  group_map [] m = m
  group_map (g ∷ gs) m = group_map gs (insert (U.group_id_of g) g m)

  -- Every device with rules is a device to update, so that the filter at the end keeps them all.
  unfoldable pub decompose_rules : List (Flow M) → List M.Group → Result (Rules M)
  decompose_rules flows groups = decompose_all (group_map groups []) flows []
