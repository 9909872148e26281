-- ===== src/LogicalDevice/Meters.antt =====
-- The meter table (rw_core/core/logical_device_agent.go).
use vol_2619_voltha_go.Prelude.{
  ℕ, zero, suc, ◌+◌, ◌-◌, ◌^◌, ◌%◌, Bool, true, false, Option, none, some, List, [], ◌∷◌, ◌++◌,
  ◌&&◌, not, ◌==◌, if◌then◌else◌, get_elem?, remove_at, is_some, length, map_option,
}
use vol_2619_voltha_go.Status.{Code, other, ◌▸◌}
use vol_2619_voltha_go.Openflow.{
  Messages, MeterEntry, MeterConfig, Flow, Meter, FlowLib, MeterMod, FlowCommand, ofpfc_add,
  ofpfc_delete_strict,
}
use vol_2619_voltha_go.LogicalDevice.{
  Agent, Surroundings, update_logical_device_meters, update_logical_device_flows,
}

-- The count of a meter under a command, with the wrap of 32 bits.
abbrev pub counted : FlowCommand → ℕ → Option ℕ
counted ofpfc_add n = some ((n + 1) % 2 ^ 32)
counted ofpfc_delete_strict n = some ((n + (2 ^ 32 - 1)) % 2 ^ 32)
counted _ n = none

module _ {B S : Type 0} where
  -- The configuration of the first meter with a number.
  unfoldable pub meter_of : ℕ → List (MeterEntry B S) → Option (MeterConfig B)
  meter_of id [] = none
  meter_of id (m ∷ ms) =
      let rest = meter_of id ms in if id == m.config.meter_id then some m.config else rest

  -- The meters without the first one of that number, none if there is no such meter.
  unfoldable pub remove_meter : ℕ → List (MeterEntry B S) → Option (List (MeterEntry B S))
  remove_meter id [] = none
  remove_meter id (m ∷ ms) =
      let rest = remove_meter id ms in
      if id == m.config.meter_id then some ms else map_option (λ rs. m ∷ rs) rest

  -- The meters with the first one of the entry's number replaced, which keeps its count.
  unfoldable pub replace_meter :
      ℕ → MeterEntry B S → List (MeterEntry B S) → Option (List (MeterEntry B S))
  replace_meter id entry [] = none
  replace_meter id entry (m ∷ ms) =
      let rest = replace_meter id entry ms in
      if id == m.config.meter_id
      then some (record entry { flow_count = m.flow_count } ∷ ms)
      else map_option (λ rs. m ∷ rs) rest

  abbrev pub recounted :
      MeterEntry B S → List (MeterEntry B S) → Option ℕ → Bool × List (MeterEntry B S)
  recounted m ms none = (false, m ∷ ms)
  recounted m ms (some n) = (true, record m { flow_count = n } ∷ ms)

  unfoldable pub count_in : FlowCommand → ℕ → List (MeterEntry B S) → Bool × List (MeterEntry B S)
  count_in command meter_id [] = (false, [])
  count_in command meter_id (m ∷ ms) =
      let rest = count_in command meter_id ms in
      if meter_id == m.config.meter_id
      then recounted m ms (counted command m.flow_count)
      else (rest.0, m ∷ rest.1)

module _ {M : Messages} where
  unfoldable pub meter_add :
      FlowLib M → Surroundings M → MeterMod M.Bands → Agent M → Agent M × Option Code
  meter_add L E meter_mod a =
      let meters = a.logical_device.meters in
      if is_some (meter_of meter_mod.meter_id meters)
      then (a, none)
      else update_logical_device_meters E (meters ++ L.meter_entry_from_meter_mod meter_mod ∷ []) a

  unfoldable pub uses_meter : FlowLib M → ℕ → Flow M → Bool
  uses_meter L meter_id f =
      not (L.get_meter_id_from_flow f == 0) && L.get_meter_id_from_flow f == meter_id

  abbrev pub is_used_at : FlowLib M → ℕ → Option (Flow M) → Bool
  is_used_at L meter_id none = false
  is_used_at L meter_id (some f) = uses_meter L meter_id f

  -- The loop over the indexes below the first argument, from the last one down.
  unfoldable pub delete_down : FlowLib M → ℕ → ℕ → List (Flow M) → Bool × List (Flow M)
  delete_down L meter_id zero flows = (false, flows)
  delete_down L meter_id (suc i) flows =
      let removed = delete_down L meter_id i (remove_at i flows) in
      let kept = delete_down L meter_id i flows in
      if is_used_at L meter_id (get_elem? flows i) then (true, removed.1) else kept

  unfoldable pub get_updated_flows_after_delete_by_meter_id :
      FlowLib M → List (Flow M) → ℕ → Bool × List (Flow M)
  get_updated_flows_after_delete_by_meter_id L flows meter_id =
      delete_down L meter_id (length flows) flows

  abbrev pub save_flows_if : Surroundings M → Bool × List (Flow M) → Agent M → Agent M × Option Code
  save_flows_if E (true, flows) a = update_logical_device_flows E flows a
  save_flows_if E (false, flows) a = (a, none)

  abbrev pub without_meter :
      FlowLib M
      → Surroundings M
      → MeterMod M.Bands
      → Agent M
      → Option (List (Meter M))
      → Agent M × Option Code
  without_meter L E meter_mod a none = (a, none)
  without_meter L E meter_mod a (some meters) =
      update_logical_device_meters E meters a
      ▸ save_flows_if E
          (get_updated_flows_after_delete_by_meter_id L a.logical_device.flows meter_mod.meter_id)

  unfoldable pub meter_delete :
      FlowLib M → Surroundings M → MeterMod M.Bands → Agent M → Agent M × Option Code
  meter_delete L E meter_mod a =
      without_meter L E meter_mod a (remove_meter meter_mod.meter_id a.logical_device.meters)

  abbrev pub with_meters :
      Surroundings M → Agent M → Option (List (Meter M)) → Agent M × Option Code
  with_meters E a none = (a, some other)
  with_meters E a (some meters) = update_logical_device_meters E meters a

  unfoldable pub meter_modify :
      FlowLib M → Surroundings M → MeterMod M.Bands → Agent M → Agent M × Option Code
  meter_modify L E meter_mod a = with_meters E a (
      replace_meter meter_mod.meter_id (L.meter_entry_from_meter_mod meter_mod)
        a.logical_device.meters)

  -- Whether a meter changed, and the meters, which the code changes in place.
  unfoldable pub update_flow_count_of_meter_stats :
      FlowLib M → FlowCommand → List (Meter M) → Flow M → Bool × List (Meter M)
  update_flow_count_of_meter_stats L command meters flow =
      let meter_id = L.get_meter_id_from_flow flow in
      if meter_id == 0 then (false, meters) else count_in command meter_id meters
