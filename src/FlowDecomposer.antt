-- ===== src/FlowDecomposer.antt =====
-- rw_core/flowdecomposition/flow_decomposer.go: the decomposition of the flows of a logical device
-- into flows for its devices. The flow utilities, the logical device agent and the device manager
-- are parameters. What the code writes into a flow that it keeps is the flow's own hash only.
pub mod Trap
pub mod Directed
pub mod Decompose
pub mod RuleDevices
pub mod OnRoutes
pub mod Wildcard
use vol_2619_voltha_go.Prelude.{
  ℕ, String, Bool, Option, List, Map, ◌≡◌, if◌then◌else◌, lookup, string_key, some, none, str_eq,
  ◌^◌, ◌-◌, ◌+◌, [], ◌⊎◌,
}
use vol_2619_voltha_go.Status.{Result}
use vol_2619_voltha_go.Route.{Hop}
use vol_2619_voltha_go.Openflow.{Messages, FlowStats}

-- The types of match fields that are left out when the fields of a flow are copied.
pub data FieldType : Type 0 where
  in_port_type vlan_vid_type metadata_type : FieldType

-- The arguments of a new flow; the meter and the metadata are not always given.
pub record FlowArgs (Field Action : Type 0) : Type 0 where
  pub priority : ℕ
  pub cookie : ℕ
  pub meter_and_metadata : Option (ℕ × ℕ)
  pub match_fields : List Field
  pub actions : List Action

module _ (M : Messages) where
  abbrev pub Rules : Type 0
  Rules = Map String M.FlowsAndGroups

  -- The flow utilities, for the decomposer.
  pub record FlowUtils : Type 1 where
    pub Field : Type 0
    pub Action : Type 0
    pub in_port : ℕ → Field
    pub tunnel_id : ℕ → Field
    pub metadata_ofp : ℕ → Field
    pub vlan_vid : ℕ → Field
    pub eth_type : ℕ → Field
    pub ip_proto : ℕ → Field
    pub same_field : Field → Field → Bool
    pub push_vlan : ℕ → Action
    pub set_field : Field → Action
    pub output : ℕ → Action
    pub get_ofb_fields : FlowStats M.Body → List FieldType → List Field
    pub get_actions : FlowStats M.Body → List Action
    pub get_actions_but_output : FlowStats M.Body → List Action
    pub get_vlan_vid : FlowStats M.Body → Option ℕ
    pub get_meter_id_from_flow : FlowStats M.Body → ℕ
    pub get_metadata_from_write_metadata_action : FlowStats M.Body → ℕ
    pub get_egress_port_number_from_write_metadata : FlowStats M.Body → ℕ
    pub get_inner_tag_from_metadata : FlowStats M.Body → ℕ
    pub has_next_table : FlowStats M.Body → Bool
    pub has_group : FlowStats M.Body → Bool
    pub get_in_port : FlowStats M.Body → ℕ
    pub get_out_port : FlowStats M.Body → ℕ
    pub get_group : FlowStats M.Body → ℕ
    pub mk_flow_stat : FlowArgs Field Action → FlowStats M.Body
    pub update_output_port_by_action_type : FlowStats M.Body → ℕ → ℕ → FlowStats M.Body
    pub hash_flow_stats : FlowStats M.Body → ℕ
    pub group_id_of : M.Group → ℕ
    pub new_flows_and_groups : M.FlowsAndGroups
    pub add_flow : FlowStats M.Body → M.FlowsAndGroups → M.FlowsAndGroups
    pub add_from : M.FlowsAndGroups → M.FlowsAndGroups → M.FlowsAndGroups
    pub flows_of : M.FlowsAndGroups → List (FlowStats M.Body)
    pub add_flows_and_group : String → M.FlowsAndGroups → Rules → Rules
    pub create_entry_if_not_exist : String → Rules → Rules
    pub clear_flows : String → Rules → Rules
    pub add_flow_to : String → FlowStats M.Body → Rules → Rules

  abbrev pub HasDevice : String → Rules → Type 0
  HasDevice d rules = (fg : M.FlowsAndGroups) × (lookup d rules ≡ some fg)

  -- What the theorems rely on: which devices have rules after an operation on the rules, and that
  -- `AddFlowsAndGroup` puts the rules of a device in the place of the ones that it had.
  pub record FlowUtilsLaws (U : FlowUtils) : Type 0 where
    pub lookup_add :
        (d e : String) (fg : M.FlowsAndGroups) (r : Rules)
        → lookup e (FlowUtils.add_flows_and_group U d fg r)
          ≡ (if str_eq d e then some fg else lookup e r)
    pub devices_create :
        (d e : String) (r : Rules)
        → HasDevice e (FlowUtils.create_entry_if_not_exist U d r)
        → (d ≡ e) ⊎ HasDevice e r
    pub devices_clear :
        (d e : String) (r : Rules) → HasDevice e (FlowUtils.clear_flows U d r) → HasDevice e r
    pub devices_add_flow :
        (d e : String) (f : FlowStats M.Body) (r : Rules)
        → HasDevice e (FlowUtils.add_flow_to U d f r)
        → (d ≡ e) ⊎ HasDevice e r

-- The logical device agent and the device manager, for the decomposer. `is_root_device` is false where
-- the manager returns an error, and `get_device` gives whether the device is a root device.
pub record Surroundings : Type 0 where
  pub get_route : ℕ → ℕ → Result (List Hop)
  pub is_root_port : ℕ → Bool
  pub get_wildcard_input_ports : ℕ → List ℕ
  pub get_nni_ports : List ℕ
  pub is_root_device : String → Bool
  pub get_device : String → Result Bool

abbrev pub ofpit_apply_actions : ℕ
ofpit_apply_actions = 4
