-- ===== src/LogicalDevice/Groups.antt =====
-- The group table (rw_core/core/logical_device_agent.go).
use vol_2619_voltha_go.Prelude.{
  ℕ, ◌-◌, ◌^◌, Bool, false, Option, none, some, List, [], ◌∷◌, ◌++◌, ◌==◌, if◌then◌else◌, remove_at,
  set_at,
}
use vol_2619_voltha_go.Status.{Code, other, ◌▸◌}
use vol_2619_voltha_go.Openflow.{Messages, Flow, FlowLib, GroupMod, DeviceRules}
use vol_2619_voltha_go.LogicalDevice.{
  Agent, Surroundings, add_flows_and_groups, update_flows_and_groups, checked,
  update_logical_device_flow_groups, device_flows_and_groups,
}
use vol_2619_voltha_go.LogicalDevice.Meters.{save_flows_if}

abbrev pub ofpg_all : ℕ
ofpg_all = 2 ^ 32 - 4

module _ {M : Messages} where
  -- The rules that hold a group for the root device only.
  abbrev pub root_rules : FlowLib M → Surroundings M → GroupMod M.GroupBody → DeviceRules M
  root_rules L E group_mod =
      (E.root_device_id, L.flows_and_groups_of_group (L.group_entry_from_group_mod group_mod)) ∷ []

  abbrev pub add_unless_found :
      FlowLib M → Surroundings M → GroupMod M.GroupBody → Agent M → Option ℕ → Agent M × Option Code
  add_unless_found L E group_mod a (some idx) = (a, some other)
  add_unless_found L E group_mod a none =
      device_flows_and_groups E add_flows_and_groups (root_rules L E group_mod) (some []) a
      ▸ update_logical_device_flow_groups E
          (a.logical_device.groups ++ L.group_entry_from_group_mod group_mod ∷ [])

  unfoldable pub group_add :
      FlowLib M → Surroundings M → GroupMod M.GroupBody → Agent M → Agent M × Option Code
  group_add L E group_mod a =
      add_unless_found L E group_mod a (L.find_group a.logical_device.groups group_mod.group_id)

  -- The part of `groupDelete` after the groups are changed: whether the flows are, the flows and the
  -- groups.
  unfoldable pub delete_changed :
      Surroundings M → Bool × List (Flow M) → List M.Group → Agent M → Agent M × Option Code
  delete_changed E flows groups a =
      checked (E.decompose_rules flows.1 groups)
        (λ rules. device_flows_and_groups E update_flows_and_groups rules none) a
      ▸ update_logical_device_flow_groups E groups
      ▸ save_flows_if E flows

  abbrev pub delete_if_found :
      FlowLib M → Surroundings M → ℕ → Agent M → Option ℕ → Agent M × Option Code
  delete_if_found L E group_id a none = (a, none)
  delete_if_found L E group_id a (some idx) =
      delete_changed E (L.flows_delete_by_group_id a.logical_device.flows group_id)
        (remove_at idx a.logical_device.groups) a

  unfoldable pub group_delete :
      FlowLib M → Surroundings M → GroupMod M.GroupBody → Agent M → Agent M × Option Code
  group_delete L E group_mod a =
      let ld = a.logical_device in
      let all_deleted = delete_changed E (false, ld.flows) [] a in
      let one_deleted =
        delete_if_found L E group_mod.group_id a (L.find_group ld.groups group_mod.group_id) in
      if group_mod.group_id == ofpg_all then all_deleted else one_deleted

  abbrev pub modify_if_found :
      FlowLib M → Surroundings M → GroupMod M.GroupBody → Agent M → Option ℕ → Agent M × Option Code
  modify_if_found L E group_mod a none = (a, some other)
  modify_if_found L E group_mod a (some idx) =
      device_flows_and_groups E update_flows_and_groups (root_rules L E group_mod) (some []) a
      ▸ update_logical_device_flow_groups E
          (set_at idx (L.group_entry_from_group_mod group_mod) a.logical_device.groups)

  unfoldable pub group_modify :
      FlowLib M → Surroundings M → GroupMod M.GroupBody → Agent M → Agent M × Option Code
  group_modify L E group_mod a =
      modify_if_found L E group_mod a (L.find_group a.logical_device.groups group_mod.group_id)
