-- ===== src/FlowDecomposer/Directed.antt =====
-- Flows that are not bound for the controller (rw_core/flowdecomposition/flow_decomposer.go).
use vol_2619_voltha_go.Prelude.{
  ℕ, Option, none, some, List, [], ◌∷◌, ◌++◌, ◌==◌, ◌&&◌, not, if◌then◌else◌, Map, lookup, nat_key,
}
use vol_2619_voltha_go.Status.{Result, ok, err}
use vol_2619_voltha_go.Route.{Hop}
use vol_2619_voltha_go.Openflow.{Messages, Flow}
use vol_2619_voltha_go.FlowDecomposer.{
  FlowUtils, FlowArgs, Rules, Surroundings, in_port_type, metadata_type,
}
use vol_2619_voltha_go.FlowDecomposer.Trap.{flow_args, add_rule}

-- The first hop of the recalculated route, none if there is no route of two hops.
abbrev pub recalculated : Result (List Hop) → Option Hop
recalculated (ok (h ∷ h' ∷ [])) = some h
recalculated (ok _) = none
recalculated (err c) = none

abbrev pub metadata_hop : Surroundings → Hop → ℕ → ℕ → Option Hop
metadata_hop A ingress_hop in_port_no port_number =
    if not (port_number == 0)
    then recalculated (A.get_route in_port_no port_number)
    else some ingress_hop

module _ {M : Messages} (U : FlowUtils M) where
  -- The fields of a flow at a port, with a tunnel, and the flow's own ones but its input port.
  abbrev pub tunnelled : ℕ → ℕ → Flow M → List U.Field
  tunnelled port tunnel flow =
      U.in_port port ∷ U.tunnel_id tunnel ∷ U.get_ofb_fields flow (in_port_type ∷ [])

  -- The flow of the first table, on the device of the ingress hop.
  unfoldable pub next_table_args : Flow M → Hop → ℕ → FlowArgs U.Field U.Action
  next_table_args flow ingress_hop in_port_no =
      flow_args U flow (tunnelled ingress_hop.ingress in_port_no flow)
        (U.get_actions flow ++ U.output ingress_hop.egress ∷ [])

  unfoldable pub upstream_args : Flow M → Hop → ℕ → FlowArgs U.Field U.Action
  upstream_args flow egress_hop in_port_no =
      flow_args U flow (tunnelled egress_hop.ingress in_port_no flow)
        (U.get_actions_but_output flow ++ U.output egress_hop.egress ∷ [])

  unfoldable pub process_upstream_non_controller_bound_flow : Hop → Hop → ℕ → ℕ → Flow M → Rules M
  process_upstream_non_controller_bound_flow ingress_hop egress_hop in_port_no out_port_no flow =
      if flow.table_id == 0 && U.has_next_table flow
      then if not (out_port_no == 0)
        then []
        else add_rule U ingress_hop.device_id (next_table_args flow ingress_hop in_port_no) []
      else if flow.table_id == 1 && not (out_port_no == 0)
      then add_rule U egress_hop.device_id (upstream_args flow egress_hop in_port_no) []
      else []

  unfoldable pub metadata_args : Flow M → Hop → ℕ → FlowArgs U.Field U.Action
  metadata_args flow ingress_hop port_number =
      flow_args U flow
        (U.in_port ingress_hop.ingress
          ∷ U.metadata_ofp (U.get_inner_tag_from_metadata flow)
          ∷ U.tunnel_id port_number
          ∷ U.get_ofb_fields flow (in_port_type ∷ metadata_type ∷ []))
        (U.get_actions flow ++ U.output ingress_hop.egress ∷ [])

  abbrev pub metadata_rules : Flow M → ℕ → Option Hop → Rules M
  metadata_rules flow port_number none = []
  metadata_rules flow port_number (some ingress_hop) =
      if U.get_inner_tag_from_metadata flow == 0
      then []
      else add_rule U ingress_hop.device_id (metadata_args flow ingress_hop port_number) []

  unfoldable pub process_downstream_flow_with_next_table :
      Surroundings → Hop → ℕ → ℕ → Flow M → Rules M
  process_downstream_flow_with_next_table A ingress_hop in_port_no out_port_no flow =
      let port_number = U.get_egress_port_number_from_write_metadata flow in
      if not (out_port_no == 0)
      then []
      else if not (flow.table_id == 0)
      then []
      else if not (U.get_metadata_from_write_metadata_action flow == 0)
      then metadata_rules flow port_number (metadata_hop A ingress_hop in_port_no port_number)
      else add_rule U ingress_hop.device_id (next_table_args flow ingress_hop in_port_no) []

  unfoldable pub unicast_args : Flow M → Hop → FlowArgs U.Field U.Action
  unicast_args flow egress_hop =
      flow_args U flow (U.in_port egress_hop.ingress ∷ U.get_ofb_fields flow (in_port_type ∷ []))
        (U.get_actions_but_output flow ++ U.output egress_hop.egress ∷ [])

  unfoldable pub process_unicast_flow : Hop → Flow M → Rules M
  process_unicast_flow egress_hop flow =
      add_rule U egress_hop.device_id (unicast_args flow egress_hop) []

  abbrev pub multicast_rules : Hop → Flow M → Option M.Group → Rules M
  multicast_rules ingress_hop flow none = []
  multicast_rules ingress_hop flow (some grp) =
      U.add_flows_and_group ingress_hop.device_id (U.add_flow flow U.new_flows_and_groups)
        (U.create_entry_if_not_exist ingress_hop.device_id [])

  -- Of the groups that are in the map, none is nil or without a description.
  unfoldable pub process_multicast_flow : Hop → Flow M → ℕ → Map ℕ M.Group → Rules M
  process_multicast_flow ingress_hop flow grp_id group_map =
      multicast_rules ingress_hop flow (lookup grp_id group_map)
