-- ===== src/LogicalDevice/Flows.antt =====
-- The flow table (rw_core/core/logical_device_agent.go).
use vol_2619_voltha_go.Prelude.{
  ℕ, ◌/◌, ◌%◌, Bool, true, false, Option, none, some, List, [], ◌∷◌, ◌++◌, ◌||◌, ◌==◌,
  if◌then◌else◌, is_empty, remove_at, set_at,
}
use vol_2619_voltha_go.Status.{Code, other, Result, ok, err, ◌▸◌}
use vol_2619_voltha_go.Openflow.{
  Messages, FlowStats, MeterConfig, Flow, Mod, Meter, Config, FlowLib,
}
use vol_2619_voltha_go.LogicalDevice.{
  Agent, Surroundings, Change, add_flows_and_groups, delete_flows_and_groups,
  update_logical_device_meters, update_logical_device_flows, device_flows_and_groups, checked,
}
use vol_2619_voltha_go.LogicalDevice.Meters.{meter_of, update_flow_count_of_meter_stats}

-- `OFPFF_CHECK_OVERLAP` and `OFPFF_RESET_COUNTS`, the bits 1 and 2 of the flags.
unfoldable pub check_overlap : ℕ → Bool
check_overlap flags = flags / 2 % 2 == 1

unfoldable pub reset_counts : ℕ → Bool
reset_counts flags = flags / 4 % 2 == 1

abbrev pub is_seen : ℕ → List ℕ → Bool
is_seen id [] = false
is_seen id (i ∷ is) = i == id || is_seen id is

module _ {B : Type 0} where
  abbrev pub config_of :
      ℕ
      → Option (MeterConfig B)
      → (List ℕ → Result (List (MeterConfig B)))
      → List ℕ
      → Result (List (MeterConfig B))
  config_of id none next seen = err other
  config_of id (some c) next seen = consed c (next (id ∷ seen))
    where
      consed : MeterConfig B → Result (List (MeterConfig B)) → Result (List (MeterConfig B))
      consed c (err e) = err e
      consed c (ok cs) = ok (c ∷ cs)

-- What `flowAdd` does to the table: nothing, a new flow at its end, or a flow at an index.
pub data Added (B : Type 0) : Type 0 where
  unchanged : Added B
  appended : FlowStats B → Added B
  replaced : ℕ → FlowStats B → Added B

module _ {M : Messages} where
  -- The configurations of the meters of some flows, each once; the numbers that were seen are `m`.
  unfoldable pub meter_configs :
      FlowLib M → List (Meter M) → List (Flow M) → List ℕ → Result (List (Config M))
  meter_configs L meters [] m = ok []
  meter_configs L meters (f ∷ fs) m =
      let id = L.get_meter_id_from_flow f in
      let skipped = meter_configs L meters fs m in
      if id == 0 || is_seen id m
      then skipped
      else config_of id (meter_of id meters) (meter_configs L meters fs) m

  unfoldable pub get_meter_config :
      FlowLib M → List (Flow M) → List (Meter M) → Result (List (Config M))
  get_meter_config L flows meters = meter_configs L meters flows []

  abbrev pub added_over : FlowLib M → ℕ → Flow M → Option (ℕ × Flow M) → Added M.Body
  added_over L flags flow none = appended flow
  added_over L flags flow (some (idx, old_flow)) =
      let kept =
        if reset_counts flags
        then record flow { byte_count = old_flow.byte_count; packet_count = old_flow.packet_count }
        else flow in
      if L.deep_equal old_flow kept then unchanged else replaced idx kept

  unfoldable pub added : FlowLib M → Mod M → List (Flow M) → Added M.Body
  added L flow_mod flows =
      let flow = L.flow_stats_entry_from_flow_mod_message flow_mod in
      if check_overlap flow_mod.flags
      then if is_empty (L.find_overlapping_flows flows flow_mod) then appended flow else unchanged
      else added_over L flow_mod.flags flow (L.find_flows flows flow)

  abbrev pub save_meters_if :
      Surroundings M → Bool × List (Meter M) → Agent M → Agent M × Option Code
  save_meters_if E (true, meters) a = update_logical_device_meters E meters a
  save_meters_if E (false, meters) a = (a, none)

  -- The rules of some flows, with the configurations of their meters, sent to the devices.
  unfoldable pub send_flows :
      FlowLib M
      → Surroundings M
      → Change
      → List (Flow M)
      → List (Meter M)
      → List M.Group
      → Agent M
      → Agent M × Option Code
  send_flows L E change flows meters groups a =
      checked (get_meter_config L flows meters)
        (λ metadata.
          checked (E.decompose_rules flows groups)
            (λ rules. device_flows_and_groups E change rules (some metadata)))
        a

  -- The part of `flowAdd` after the table is changed.
  unfoldable pub add_changed :
      FlowLib M → Surroundings M → Mod M → Agent M → Added M.Body → Agent M × Option Code
  add_changed L E flow_mod a unchanged = (a, none)
  add_changed L E flow_mod a (appended flow) =
      let ld = a.logical_device in
      send_flows L E add_flows_and_groups (flow ∷ []) ld.meters ld.groups a
      ▸ update_logical_device_flows E (ld.flows ++ flow ∷ [])
      ▸ save_meters_if E (update_flow_count_of_meter_stats L flow_mod.command ld.meters flow)
  add_changed L E flow_mod a (replaced idx flow) =
      let ld = a.logical_device in
      send_flows L E add_flows_and_groups (flow ∷ []) ld.meters ld.groups a
      ▸ update_logical_device_flows E (set_at idx flow ld.flows)

  unfoldable pub flow_add : FlowLib M → Surroundings M → Mod M → Agent M → Agent M × Option Code
  flow_add L E flow_mod a = add_changed L E flow_mod a (added L flow_mod a.logical_device.flows)

  unfoldable pub is_deleted : FlowLib M → Mod M → Flow M → Bool
  is_deleted L flow_mod f =
      L.flow_match f (L.flow_stats_entry_from_flow_mod_message flow_mod)
      || L.flow_matches_mod f flow_mod

  -- The flows to keep and the flows to delete.
  unfoldable pub split : FlowLib M → Mod M → List (Flow M) → List (Flow M) × List (Flow M)
  split L flow_mod [] = ([], [])
  split L flow_mod (f ∷ fs) =
      let rest = split L flow_mod fs in
      if is_deleted L flow_mod f then (rest.0, f ∷ rest.1) else (f ∷ rest.0, rest.1)

  abbrev pub delete_flows :
      FlowLib M → Surroundings M → Agent M → List (Flow M) × List (Flow M) → Agent M × Option Code
  delete_flows L E a (to_keep, []) = (a, none)
  delete_flows L E a (to_keep, f ∷ fs) =
      let ld = a.logical_device in
      send_flows L E delete_flows_and_groups (f ∷ fs) ld.meters ld.groups a
      ▸ update_logical_device_flows E to_keep

  unfoldable pub flow_delete : FlowLib M → Surroundings M → Mod M → Agent M → Agent M × Option Code
  flow_delete L E flow_mod a = delete_flows L E a (split L flow_mod a.logical_device.flows)

  abbrev pub delete_found :
      FlowLib M → Surroundings M → Mod M → Agent M → Option (ℕ × Flow M) → Agent M × Option Code
  delete_found L E flow_mod a none = (a, some other)
  delete_found L E flow_mod a (some (idx, flow)) =
      let ld = a.logical_device in
      let counted = update_flow_count_of_meter_stats L flow_mod.command ld.meters flow in
      save_meters_if E counted a
      ▸ send_flows L E delete_flows_and_groups (flow ∷ []) counted.1 ld.groups
      ▸ update_logical_device_flows E (remove_at idx ld.flows)

  unfoldable pub flow_delete_strict :
      FlowLib M → Surroundings M → Mod M → Agent M → Agent M × Option Code
  flow_delete_strict L E flow_mod a =
      delete_found L E flow_mod a
        (L.find_flows a.logical_device.flows (L.flow_stats_entry_from_flow_mod_message flow_mod))

  unfoldable pub flow_modify : Mod M → Agent M → Agent M × Option Code
  flow_modify flow_mod a = (a, some other)

  unfoldable pub flow_modify_strict : Mod M → Agent M → Agent M × Option Code
  flow_modify_strict flow_mod a = (a, some other)
