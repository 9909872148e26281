-- ===== src/LogicalDevice/Requested.antt =====
-- A request keeps every flow's meter in the meter table (`updateFlowTable`, `updateGroupTable` and
-- `updateMeterTable` of rw_core/core/logical_device_agent.go).
use vol_2619_voltha_go.Prelude.{Bool, true, false, none, ◌≡◌, ◌⊎◌, inl, inr}
use vol_2619_voltha_go.Status.{▸-step, ▸-none}
use vol_2619_voltha_go.Openflow.{
  Messages, Mod, FlowLib, FlowLibLaws, FlowCommand, GroupCommand, MeterCommand, ofpfc_add,
  ofpfc_modify, ofpfc_modify_strict, ofpfc_delete, ofpfc_delete_strict, ofpfc_other, ofpgc_add,
  ofpgc_modify, ofpgc_delete, ofpgc_other, ofpmc_add, ofpmc_modify, ofpmc_delete, ofpmc_other,
  MeterMod, GroupMod,
}
use vol_2619_voltha_go.LogicalDevice.{Agent, Surroundings}
use vol_2619_voltha_go.LogicalDevice.Flows.{flow_modify, flow_modify_strict}
use vol_2619_voltha_go.LogicalDevice.Requests.{
  Request, flow_request, group_request, meter_request, update_table, update_flow_table,
  update_group_table, update_meter_table, flow_command, group_command, meter_command,
}
use vol_2619_voltha_go.LogicalDevice.Keeping.{
  Intact, meter_add-Intact, meter_modify-Intact, meter_delete-Intact,
}
use vol_2619_voltha_go.LogicalDevice.FlowKeeping.{
  flow_add-Intact, flow_delete-Intact, flow_delete_strict-Intact, group_add-Intact,
  group_modify-Intact, group_delete-Intact,
}

abbrev pub is_deletion : MeterCommand → Bool
is_deletion ofpmc_delete = true
is_deletion _ = false

abbrev pub is_meter_deletion : {M : Messages} → Request M → Bool
is_meter_deletion (flow_request m) = false
is_meter_deletion (group_request m) = false
is_meter_deletion (meter_request m) = is_deletion m.command

module _ {M : Messages} (L : FlowLib M) (E : Surroundings M) (laws : FlowLibLaws M L) where
  flow_command-Intact :
      (c : FlowCommand) (m : Mod M) (a : Agent M)
      → Intact L E a
      → Intact L E (flow_command L E c m a).0
  unfolding flow_command flow_modify flow_modify_strict
  flow_command-Intact ofpfc_add m a h = flow_add-Intact L E m a h
  flow_command-Intact ofpfc_delete m a h = flow_delete-Intact L E m a h
  flow_command-Intact ofpfc_delete_strict m a h = flow_delete_strict-Intact L E m a h
  flow_command-Intact ofpfc_modify m a h = h
  flow_command-Intact ofpfc_modify_strict m a h = h
  flow_command-Intact ofpfc_other m a h = h

  group_command-Intact :
      (c : GroupCommand) (m : GroupMod M.GroupBody) (a : Agent M)
      → Intact L E a
      → Intact L E (group_command L E c m a).0
  unfolding group_command
  group_command-Intact ofpgc_add m a h = group_add-Intact L E m a h
  group_command-Intact ofpgc_delete m a h = group_delete-Intact L E m a laws h
  group_command-Intact ofpgc_modify m a h = group_modify-Intact L E m a h
  group_command-Intact ofpgc_other m a h = h

  meter_command-Intact :
      (c : MeterCommand) (m : MeterMod M.Bands) (a : Agent M)
      → (is_deletion c ≡ false) ⊎ ((meter_command L E c m a).1 ≡ none)
      → Intact L E a
      → Intact L E (meter_command L E c m a).0
  unfolding meter_command
  meter_command-Intact ofpmc_add m a k h = meter_add-Intact L E m a h
  meter_command-Intact ofpmc_delete m a (inl e) h = cc
  meter_command-Intact ofpmc_delete m a (inr e) h = meter_delete-Intact L E m a e h
  meter_command-Intact ofpmc_modify m a k h = meter_modify-Intact L E m a laws h
  meter_command-Intact ofpmc_other m a k h = h

  -- A request to change the flows, the groups or the meters, whatever the devices, the decomposer and
  -- the data model answer, leaves every flow without a meter or with one in the meter table, if that
  -- was so before; only a deletion of a meter has to return no error for that.
  pub update_table-Intact :
      (r : Request M) (a : Agent M)
      → (is_meter_deletion r ≡ false) ⊎ ((update_table L E r a).1 ≡ none)
      → Intact L E a
      → Intact L E (update_table L E r a).0
  unfolding update_table update_flow_table update_group_table update_meter_table
  update_table-Intact (flow_request m) a k h =
      ▸-step (Intact L E) (a, E.generate_device_routes_if_needed) (flow_command L E m.command m) h
        (λ good. flow_command-Intact m.command m a h)
  update_table-Intact (group_request m) a k h =
      ▸-step (Intact L E) (a, E.generate_device_routes_if_needed) (group_command L E m.command m) h
        (λ good. group_command-Intact m.command m a h)
  update_table-Intact (meter_request m) a (inl e) h =
      ▸-step (Intact L E) (a, E.generate_device_routes_if_needed) (meter_command L E m.command m) h
        (λ good. meter_command-Intact m.command m a (inl e) h)
  update_table-Intact (meter_request m) a (inr e) h =
      ▸-step (Intact L E) (a, E.generate_device_routes_if_needed) (meter_command L E m.command m) h
        (λ good.
          meter_command-Intact m.command m a
            (inr
              (▸-none (a, E.generate_device_routes_if_needed) (meter_command L E m.command m) e).1)
            h)
