-- ===== src/Tests/FlowDecomposer.antt =====
-- The decomposition of a flow from a port of an ONU and of a trap flow for every port
-- (rw_core/flowdecomposition/flow_decomposer.go).
use vol_2619_voltha_go.Prelude.{
  ℕ, ◌==◌, false, Option, none, some, List, [], ◌∷◌, ◌++◌, ◌≡◌, refl, lookup, insert, lookup-insert,
  string_key,
}
use vol_2619_voltha_go.Status.{ok}
use vol_2619_voltha_go.Route.{Hop}
use vol_2619_voltha_go.Openflow.{ofpp_controller, is_controller_bound, Messages, FlowStats, Flow}
use vol_2619_voltha_go.FlowDecomposer.{FlowUtils, FlowUtilsLaws, Surroundings}
use vol_2619_voltha_go.FlowDecomposer.Trap.{
  update_output_port_for_controller_bound_flow_for_parent_devide, update_parents, add_rule,
  process_controller_bound_flow, parent_args, child_args,
}
use vol_2619_voltha_go.FlowDecomposer.Directed.{process_upstream_non_controller_bound_flow}
use vol_2619_voltha_go.FlowDecomposer.Decompose.{
  decompose_all, decompose_flow, add_rules, decompose_rules,
}
use vol_2619_voltha_go.FlowDecomposer.RuleDevices.{insert-HasDevice}
use vol_2619_voltha_go.FlowDecomposer.OnRoutes.{OnRoute, decompose_rules-OnRoute}
use vol_2619_voltha_go.FlowDecomposer.Wildcard.{only_flow, process_controller_bound_flow-last}

-- The body of a flow is its input and its output port, and the rules of a device are flows.
abbrev ports : Messages
ports = record {
  Body = ℕ × ℕ;
  ModBody = Unit;
  Bands = Unit;
  MeterStats = Unit;
  GroupBody = Unit;
  Group = ℕ;
  FlowsAndGroups = List (FlowStats (ℕ × ℕ));
}

abbrev flow : ℕ → ℕ → ℕ → Flow ports
flow table i o = record {
  id = 0;
  table_id = table;
  priority = 1;
  cookie = 2;
  packet_count = 0;
  byte_count = 0;
  body = (i, o);
}

abbrev rule_or_none : Option (List (Flow ports)) → List (Flow ports)
rule_or_none none = []
rule_or_none (some fs) = fs

abbrev utils : FlowUtils ports
utils = record {
  Field = ℕ;
  Action = ℕ;
  in_port = λ n. n;
  tunnel_id = λ n. n;
  metadata_ofp = λ n. n;
  vlan_vid = λ n. n;
  eth_type = λ n. n;
  ip_proto = λ n. n;
  same_field = λ a b. a == b;
  push_vlan = λ n. n;
  set_field = λ n. n;
  output = λ n. n;
  get_ofb_fields = λ f ts. [];
  get_actions = λ f. [];
  get_actions_but_output = λ f. [];
  get_vlan_vid = λ f. none;
  get_meter_id_from_flow = λ f. 0;
  get_metadata_from_write_metadata_action = λ f. 0;
  get_egress_port_number_from_write_metadata = λ f. 0;
  get_inner_tag_from_metadata = λ f. 0;
  has_next_table = λ f. false;
  has_group = λ f. false;
  get_in_port = λ f. f.body.0;
  get_out_port = λ f. f.body.1;
  get_group = λ f. 0;
  mk_flow_stat = λ args. flow args.priority args.cookie 0;
  update_output_port_by_action_type = λ f t p. f;
  hash_flow_stats = λ f. f.id;
  group_id_of = λ g. g;
  new_flows_and_groups = [];
  add_flow = λ f fs. fs ++ f ∷ [];
  add_from = λ fs gs. gs ++ fs;
  flows_of = λ fs. fs;
  add_flows_and_group = insert;
  create_entry_if_not_exist = λ d r. insert d (rule_or_none (lookup d r)) r;
  clear_flows = λ d r. r;
  add_flow_to = λ d f r. insert d (rule_or_none (lookup d r) ++ f ∷ []) r;
}

abbrev laws : FlowUtilsLaws ports utils
laws = record {
  lookup_add = λ d e fg r. lookup-insert d e fg r;
  devices_create = λ d e r has. insert-HasDevice ports d e _ r has;
  devices_clear = λ d e r has. has;
  devices_add_flow = λ d e f r has. insert-HasDevice ports d e _ r has;
}

abbrev uni : Hop
uni = record { device_id = "onu"; ingress = 1; egress = 2 }

abbrev nni : Hop
nni = record { device_id = "olt"; ingress = 3; egress = 4 }

abbrev surroundings : Surroundings
surroundings = record {
  get_route = λ i o. ok (uni ∷ nni ∷ []);
  is_root_port = λ p. false;
  get_wildcard_input_ports = λ p. 16 ∷ 17 ∷ 18 ∷ [];
  get_nni_ports = 4 ∷ [];
  is_root_device = λ d. false;
  get_device = λ d. ok false;
}

process_controller_bound_flow-last_example :
    (lookup "olt"
        (process_controller_bound_flow utils surroundings uni nni 0 (flow 0 0 ofpp_controller))
      ≡ some (only_flow utils laws (parent_args utils (flow 0 0 ofpp_controller) nni 18)))
    × (lookup "onu"
          (process_controller_bound_flow utils surroundings uni nni 0 (flow 0 0 ofpp_controller))
        ≡ some (only_flow utils laws (child_args utils (flow 0 0 ofpp_controller) uni 18)))
process_controller_bound_flow-last_example =
    process_controller_bound_flow-last utils laws (flow 0 0 ofpp_controller) uni nni refl
      surroundings (16 ∷ 17 ∷ []) 18 refl refl

-- A flow of the second table from the ONU to the NNI port.
decompose_rules-OnRoute_example : OnRoute surroundings "olt"
unfolding decompose_rules decompose_all decompose_flow is_controller_bound lookup add_rules
    update_output_port_for_controller_bound_flow_for_parent_devide update_parents
    process_upstream_non_controller_bound_flow add_rule insert
decompose_rules-OnRoute_example =
    decompose_rules-OnRoute utils laws surroundings (flow 1 16 4 ∷ []) [] _ "olt" refl (_, refl)
