-- ===== src/LogicalDevice/Requests.antt =====
-- The requests to change a table (rw_core/core/logical_device_agent.go). A request that is nil, for
-- which the code returns at once, is left out.
use vol_2619_voltha_go.Prelude.{Option, some}
use vol_2619_voltha_go.Status.{Code, internal, ◌▸◌}
use vol_2619_voltha_go.Openflow.{
  Messages, Mod, FlowLib, FlowMod, FlowCommand, GroupCommand, MeterCommand, ofpfc_add, ofpfc_modify,
  ofpfc_modify_strict, ofpfc_delete, ofpfc_delete_strict, ofpfc_other, ofpgc_add, ofpgc_modify,
  ofpgc_delete, ofpgc_other, ofpmc_add, ofpmc_modify, ofpmc_delete, ofpmc_other, MeterMod, GroupMod,
}
use vol_2619_voltha_go.LogicalDevice.{Agent, Surroundings}
use vol_2619_voltha_go.LogicalDevice.Meters.{meter_add, meter_delete, meter_modify}
use vol_2619_voltha_go.LogicalDevice.Flows.{
  flow_add, flow_delete, flow_delete_strict, flow_modify, flow_modify_strict,
}
use vol_2619_voltha_go.LogicalDevice.Groups.{group_add, group_delete, group_modify}

pub data Request (M : Messages) : Type 0 where
  flow_request : FlowMod M.ModBody → Request M
  group_request : GroupMod M.GroupBody → Request M
  meter_request : MeterMod M.Bands → Request M

module _ {M : Messages} where
  unfoldable pub flow_command :
      FlowLib M → Surroundings M → FlowCommand → Mod M → Agent M → Agent M × Option Code
  flow_command L E ofpfc_add flow_mod a = flow_add L E flow_mod a
  flow_command L E ofpfc_delete flow_mod a = flow_delete L E flow_mod a
  flow_command L E ofpfc_delete_strict flow_mod a = flow_delete_strict L E flow_mod a
  flow_command L E ofpfc_modify flow_mod a = flow_modify flow_mod a
  flow_command L E ofpfc_modify_strict flow_mod a = flow_modify_strict flow_mod a
  flow_command L E ofpfc_other flow_mod a = (a, some internal)

  unfoldable pub group_command :
      FlowLib M
      → Surroundings M
      → GroupCommand
      → GroupMod M.GroupBody
      → Agent M
      → Agent M × Option Code
  group_command L E ofpgc_add group_mod a = group_add L E group_mod a
  group_command L E ofpgc_delete group_mod a = group_delete L E group_mod a
  group_command L E ofpgc_modify group_mod a = group_modify L E group_mod a
  group_command L E ofpgc_other group_mod a = (a, some internal)

  unfoldable pub meter_command :
      FlowLib M → Surroundings M → MeterCommand → MeterMod M.Bands → Agent M → Agent M × Option Code
  meter_command L E ofpmc_add meter_mod a = meter_add L E meter_mod a
  meter_command L E ofpmc_delete meter_mod a = meter_delete L E meter_mod a
  meter_command L E ofpmc_modify meter_mod a = meter_modify L E meter_mod a
  meter_command L E ofpmc_other meter_mod a = (a, some internal)

  unfoldable pub update_flow_table :
      FlowLib M → Surroundings M → Mod M → Agent M → Agent M × Option Code
  update_flow_table L E flow_mod a =
      (a, E.generate_device_routes_if_needed) ▸ flow_command L E flow_mod.command flow_mod

  unfoldable pub update_group_table :
      FlowLib M → Surroundings M → GroupMod M.GroupBody → Agent M → Agent M × Option Code
  update_group_table L E group_mod a =
      (a, E.generate_device_routes_if_needed) ▸ group_command L E group_mod.command group_mod

  unfoldable pub update_meter_table :
      FlowLib M → Surroundings M → MeterMod M.Bands → Agent M → Agent M × Option Code
  update_meter_table L E meter_mod a =
      (a, E.generate_device_routes_if_needed) ▸ meter_command L E meter_mod.command meter_mod

  unfoldable pub update_table :
      FlowLib M → Surroundings M → Request M → Agent M → Agent M × Option Code
  update_table L E (flow_request flow_mod) a = update_flow_table L E flow_mod a
  update_table L E (group_request group_mod) a = update_group_table L E group_mod a
  update_table L E (meter_request meter_mod) a = update_meter_table L E meter_mod a
