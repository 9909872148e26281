-- ===== src/LogicalDevice/Atomicity.antt =====
-- What a request that returns an error leaves of the tables
-- (rw_core/core/logical_device_agent.go).
use vol_2619_voltha_go.Prelude.{
  ℕ, Bool, true, false, Option, none, some, List, [], ◌∷◌, ◌++◌, ◌≡◌, refl, ◌⊎◌, inl, inr,
  if◌then◌else◌, is_some, ◌∙◌,
}
use vol_2619_voltha_go.Status.{Code, Result, ok, err, ◌▸◌}
use vol_2619_voltha_go.Openflow.{
  Messages, Mod, Flow, Meter, FlowLib, FlowCommand, GroupCommand, MeterCommand, ofpfc_add,
  ofpfc_modify, ofpfc_modify_strict, ofpfc_delete, ofpfc_delete_strict, ofpfc_other, ofpgc_add,
  ofpgc_modify, ofpgc_delete, ofpgc_other, ofpmc_add, ofpmc_modify, ofpmc_delete, ofpmc_other,
  MeterMod, GroupMod, DeviceRules,
}
use vol_2619_voltha_go.LogicalDevice.{
  Tables, Agent, Surroundings, Change, delete_flows_and_groups, stored, update_logical_device,
  update_logical_device_flows, update_logical_device_meters, update_logical_device_flow_groups,
  device_flows_and_groups,
}
use vol_2619_voltha_go.LogicalDevice.Meters.{
  meter_of, replace_meter, meter_add, meter_modify, with_meters,
}
use vol_2619_voltha_go.LogicalDevice.Flows.{
  flow_delete, delete_flows, split, flow_modify, flow_modify_strict,
}
use vol_2619_voltha_go.LogicalDevice.Groups.{
  group_add, group_modify, add_unless_found, modify_if_found,
}
use vol_2619_voltha_go.LogicalDevice.Requests.{
  Request, flow_request, group_request, meter_request, update_table, update_flow_table,
  update_group_table, update_meter_table, flow_command, group_command, meter_command,
}
use vol_2619_voltha_go.LogicalDevice.Keeping.{send_flows-device}

module _ {M : Messages} where
  -- Either there is no error, or the agent's tables are as before.
  abbrev IsAtomic : Agent M → Agent M × Option Code → Type 0
  IsAtomic a r = (r.1 ≡ none) ⊎ (r.0.logical_device ≡ a.logical_device)

  stored-IsAtomic : (r : Result Bool) (ld : Tables M) (a : Agent M) → IsAtomic a (stored r ld a)
  stored-IsAtomic (err c) ld a = inr refl
  stored-IsAtomic (ok false) ld a = inr refl
  stored-IsAtomic (ok true) ld a = inl refl

  ▸-IsAtomic :
      (a : Agent M) (m : Agent M × Option Code) (f : Agent M → Agent M × Option Code)
      → m.0.logical_device ≡ a.logical_device
      → IsAtomic m.0 (f m.0)
      → IsAtomic a (m ▸ f)
  unfolding ◌▸◌
  ▸-IsAtomic a (s, none) f e (inl k) = inl k
  ▸-IsAtomic a (s, none) f e (inr k) = inr (k ∙ e)
  ▸-IsAtomic a (s, some c) f e k = inr e

abbrev flows_once : FlowCommand → Bool
flows_once ofpfc_add = false
flows_once ofpfc_delete_strict = false
flows_once _ = true

abbrev groups_once : GroupCommand → Bool
groups_once ofpgc_delete = false
groups_once _ = true

abbrev meters_once : MeterCommand → Bool
meters_once ofpmc_delete = false
meters_once _ = true

-- The requests for which the tables are saved at most once.
abbrev pub saves_once : {M : Messages} → Request M → Bool
saves_once (flow_request m) = flows_once m.command
saves_once (group_request m) = groups_once m.command
saves_once (meter_request m) = meters_once m.command

module _ {M : Messages} (L : FlowLib M) (E : Surroundings M) where
  meter_add-IsAtomic : (m : MeterMod M.Bands) (a : Agent M) → IsAtomic a (meter_add L E m a)
  unfolding meter_add update_logical_device_meters update_logical_device
  meter_add-IsAtomic m a = at (is_some (meter_of m.meter_id a.logical_device.meters))
    where
      at :
          (b : Bool)
          → IsAtomic a (
              if b
              then (a, none)
              else update_logical_device_meters E
                  (a.logical_device.meters ++ L.meter_entry_from_meter_mod m ∷ [])
                  a)
      at true = inl refl
      at false = stored-IsAtomic _ _ a

  meter_modify-IsAtomic : (m : MeterMod M.Bands) (a : Agent M) → IsAtomic a (meter_modify L E m a)
  unfolding meter_modify update_logical_device_meters update_logical_device
  meter_modify-IsAtomic m a =
      at (replace_meter m.meter_id (L.meter_entry_from_meter_mod m) a.logical_device.meters)
    where
      at : (o : Option (List (Meter M))) → IsAtomic a (with_meters E a o)
      at none = inr refl
      at (some ms) = stored-IsAtomic _ _ a

  flow_delete-IsAtomic : (m : Mod M) (a : Agent M) → IsAtomic a (flow_delete L E m a)
  unfolding flow_delete update_logical_device_flows update_logical_device
  flow_delete-IsAtomic m a = at (split L m a.logical_device.flows)
    where
      at : (parts : List (Flow M) × List (Flow M)) → IsAtomic a (delete_flows L E a parts)
      at (to_keep, []) = inl refl
      at (to_keep, f ∷ fs) =
          ▸-IsAtomic a _ (update_logical_device_flows E to_keep)
            (send_flows-device L E delete_flows_and_groups (f ∷ fs) a.logical_device.meters
              a.logical_device.groups a)
            (stored-IsAtomic _ _ _)

  group_saved-IsAtomic :
      (change : Change) (rules : DeviceRules M) (gs : List M.Group) (a : Agent M)
      → IsAtomic a (
          device_flows_and_groups E change rules (some []) a
          ▸ update_logical_device_flow_groups E gs)
  unfolding device_flows_and_groups update_logical_device_flow_groups update_logical_device
  group_saved-IsAtomic change rules gs a =
      ▸-IsAtomic a (device_flows_and_groups E change rules (some []) a)
        (update_logical_device_flow_groups E gs) refl (stored-IsAtomic _ _ _)

  group_add-IsAtomic : (m : GroupMod M.GroupBody) (a : Agent M) → IsAtomic a (group_add L E m a)
  unfolding group_add
  group_add-IsAtomic m a = at (L.find_group a.logical_device.groups m.group_id)
    where
      at : (o : Option ℕ) → IsAtomic a (add_unless_found L E m a o)
      at none = group_saved-IsAtomic _ _ _ a
      at (some i) = inr refl

  group_modify-IsAtomic :
      (m : GroupMod M.GroupBody) (a : Agent M) → IsAtomic a (group_modify L E m a)
  unfolding group_modify
  group_modify-IsAtomic m a = at (L.find_group a.logical_device.groups m.group_id)
    where
      at : (o : Option ℕ) → IsAtomic a (modify_if_found L E m a o)
      at none = inr refl
      at (some i) = group_saved-IsAtomic _ _ _ a

  flow_command-IsAtomic :
      (c : FlowCommand) (m : Mod M) (a : Agent M)
      → flows_once c ≡ true
      → IsAtomic a (flow_command L E c m a)
  unfolding flow_command flow_modify flow_modify_strict
  flow_command-IsAtomic ofpfc_add m a k = cc
  flow_command-IsAtomic ofpfc_delete m a k = flow_delete-IsAtomic m a
  flow_command-IsAtomic ofpfc_delete_strict m a k = cc
  flow_command-IsAtomic ofpfc_modify m a k = inr refl
  flow_command-IsAtomic ofpfc_modify_strict m a k = inr refl
  flow_command-IsAtomic ofpfc_other m a k = inr refl

  group_command-IsAtomic :
      (c : GroupCommand) (m : GroupMod M.GroupBody) (a : Agent M)
      → groups_once c ≡ true
      → IsAtomic a (group_command L E c m a)
  unfolding group_command
  group_command-IsAtomic ofpgc_add m a k = group_add-IsAtomic m a
  group_command-IsAtomic ofpgc_delete m a k = cc
  group_command-IsAtomic ofpgc_modify m a k = group_modify-IsAtomic m a
  group_command-IsAtomic ofpgc_other m a k = inr refl

  meter_command-IsAtomic :
      (c : MeterCommand) (m : MeterMod M.Bands) (a : Agent M)
      → meters_once c ≡ true
      → IsAtomic a (meter_command L E c m a)
  unfolding meter_command
  meter_command-IsAtomic ofpmc_add m a k = meter_add-IsAtomic m a
  meter_command-IsAtomic ofpmc_delete m a k = cc
  meter_command-IsAtomic ofpmc_modify m a k = meter_modify-IsAtomic m a
  meter_command-IsAtomic ofpmc_other m a k = inr refl

  -- A request to change a table, other than the addition and the strict deletion of flows and the
  -- deletion of a group or of a meter, either returns no error or leaves the agent's tables as they
  -- were, whatever was sent to the devices.
  pub update_table-IsAtomic :
      (r : Request M) (a : Agent M)
      → saves_once r ≡ true
      → ((update_table L E r a).1 ≡ none)
        ⊎ ((update_table L E r a).0.logical_device ≡ a.logical_device)
  unfolding update_table update_flow_table update_group_table update_meter_table
  update_table-IsAtomic (flow_request m) a k =
      ▸-IsAtomic a (a, E.generate_device_routes_if_needed) (flow_command L E m.command m) refl
        (flow_command-IsAtomic m.command m a k)
  update_table-IsAtomic (group_request m) a k =
      ▸-IsAtomic a (a, E.generate_device_routes_if_needed) (group_command L E m.command m) refl
        (group_command-IsAtomic m.command m a k)
  update_table-IsAtomic (meter_request m) a k =
      ▸-IsAtomic a (a, E.generate_device_routes_if_needed) (meter_command L E m.command m) refl
        (meter_command-IsAtomic m.command m a k)
