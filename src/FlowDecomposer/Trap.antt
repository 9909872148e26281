-- ===== src/FlowDecomposer/Trap.antt =====
-- Flows that trap packets to the controller (rw_core/flowdecomposition/flow_decomposer.go).
use vol_2619_voltha_go.Prelude.{
  ℕ, ◌+◌, String, Bool, Option, none, some, List, [], ◌∷◌, ◌==◌, ◌||◌, if◌then◌else◌, any,
}
use vol_2619_voltha_go.Route.{Hop}
use vol_2619_voltha_go.Openflow.{Messages, Flow, ofpp_controller}
use vol_2619_voltha_go.FlowDecomposer.{
  FlowUtils, FlowArgs, Rules, Surroundings, in_port_type, vlan_vid_type, ofpit_apply_actions,
}

module _ {M : Messages} (U : FlowUtils M) where
  -- The arguments that most of the new flows share: the flow's priority, cookie, meter and metadata.
  unfoldable pub flow_args : Flow M → List U.Field → List U.Action → FlowArgs U.Field U.Action
  flow_args flow match_fields actions = record {
    priority = flow.priority;
    cookie = flow.cookie;
    meter_and_metadata =
        some (U.get_meter_id_from_flow flow, U.get_metadata_from_write_metadata_action flow);
    match_fields = match_fields;
    actions = actions;
  }

  -- A new flow as the rules of one device.
  unfoldable pub add_rule : String → FlowArgs U.Field U.Action → Rules M → Rules M
  add_rule device_id args rules =
      U.add_flows_and_group device_id (U.add_flow (U.mk_flow_stat args) U.new_flows_and_groups)
        rules

  -- The two tags of `0x8100` and of the reserved VLAN 4000 with the bit `OFPVID_PRESENT`.
  unfoldable pub parent_args : Flow M → Hop → ℕ → FlowArgs U.Field U.Action
  parent_args flow egress_hop input_port =
      flow_args flow
        (U.in_port egress_hop.ingress
          ∷ U.tunnel_id input_port
          ∷ U.get_ofb_fields flow (in_port_type ∷ []))
        (U.push_vlan 33024
          ∷ U.set_field (U.vlan_vid (4096 + 4000))
          ∷ U.output egress_hop.egress
          ∷ [])

  abbrev pub child_actions : Option ℕ → Hop → List U.Action
  child_actions (some vid) ingress_hop =
      U.push_vlan 33024 ∷ U.set_field (U.vlan_vid vid) ∷ U.output ingress_hop.egress ∷ []
  child_actions none ingress_hop = U.output ingress_hop.egress ∷ []

  abbrev pub child_fields : Option ℕ → Flow M → List U.Field
  child_fields (some vid) flow = U.get_ofb_fields flow (in_port_type ∷ vlan_vid_type ∷ [])
  child_fields none flow = U.get_ofb_fields flow (in_port_type ∷ [])

  unfoldable pub child_args : Flow M → Hop → ℕ → FlowArgs U.Field U.Action
  child_args flow ingress_hop input_port =
      flow_args flow
        (U.in_port ingress_hop.ingress
          ∷ U.tunnel_id input_port
          ∷ child_fields (U.get_vlan_vid flow) flow)
        (child_actions (U.get_vlan_vid flow) ingress_hop)

  -- The loop over the input ports.
  unfoldable pub trap_uni : Flow M → Hop → Hop → List ℕ → Rules M → Rules M
  trap_uni flow ingress_hop egress_hop [] rules = rules
  trap_uni flow ingress_hop egress_hop (input_port ∷ ports) rules =
      trap_uni flow ingress_hop egress_hop ports (
        add_rule ingress_hop.device_id (child_args flow ingress_hop input_port)
          (add_rule egress_hop.device_id (parent_args flow egress_hop input_port) rules))

  -- `trap-nni`, without a meter and metadata.
  unfoldable pub nni_args : Flow M → Hop → FlowArgs U.Field U.Action
  nni_args flow egress_hop = record {
    priority = flow.priority;
    cookie = flow.cookie;
    meter_and_metadata = none;
    match_fields = U.in_port egress_hop.egress ∷ U.get_ofb_fields flow (in_port_type ∷ []);
    actions = U.get_actions flow;
  }

  unfoldable pub input_ports : Surroundings → Hop → ℕ → List ℕ
  input_ports A egress_hop in_port_no =
      if in_port_no == 0 then A.get_wildcard_input_ports egress_hop.egress else in_port_no ∷ []

  unfoldable pub process_controller_bound_flow : Surroundings → Hop → Hop → ℕ → Flow M → Rules M
  process_controller_bound_flow A ingress_hop egress_hop in_port_no flow =
      if A.is_root_port in_port_no
      then add_rule egress_hop.device_id (nni_args flow egress_hop) []
      else trap_uni flow ingress_hop egress_hop (input_ports A egress_hop in_port_no) []

  -- EAPOL, IGMP or UDP.
  unfoldable pub is_controller_field : U.Field → Bool
  is_controller_field field =
      U.same_field field (U.eth_type 34958)
      || U.same_field field (U.ip_proto 2)
      || U.same_field field (U.ip_proto 17)

  unfoldable pub parent_flow : Flow M → Flow M
  parent_flow f =
      let g =
        if any is_controller_field (U.get_ofb_fields f [])
        then U.update_output_port_by_action_type f ofpit_apply_actions ofpp_controller
        else f in
      record g { id = U.hash_flow_stats g }

  unfoldable pub add_parent_flows : String → List (Flow M) → Rules M → Rules M
  add_parent_flows device_id [] rules = rules
  add_parent_flows device_id (f ∷ fs) rules =
      add_parent_flows device_id fs (U.add_flow_to device_id (parent_flow f) rules)

  -- The loop over the rules of the devices, from the copy in the last argument.
  unfoldable pub update_parents : Surroundings → Rules M → Rules M → Rules M
  update_parents A [] rules = rules
  update_parents A ((device_id, fg) ∷ rest) rules = update_parents A rest (
      if A.is_root_device device_id
      then add_parent_flows device_id (U.flows_of fg) (U.clear_flows device_id rules)
      else rules)

  unfoldable pub update_output_port_for_controller_bound_flow_for_parent_devide :
      Surroundings → Rules M → Rules M
  update_output_port_for_controller_bound_flow_for_parent_devide A rules =
      update_parents A rules rules
