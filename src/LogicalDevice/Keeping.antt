-- ===== src/LogicalDevice/Keeping.antt =====
-- Each operation on a table keeps every flow's meter in the meter table
-- (rw_core/core/logical_device_agent.go).
use vol_2619_voltha_go.Prelude.{
  Bool, true, false, Option, none, some, List, [], ◌∷◌, ◌++◌, ◌≡◌, refl, is_some, sym, subst,
  if◌then◌else◌,
}
use vol_2619_voltha_go.Status.{Code, Result, ok, err}
use vol_2619_voltha_go.Openflow.{Messages, MeterConfig, MeterMod, Flow, Meter, FlowLib, FlowLibLaws}
use vol_2619_voltha_go.LogicalDevice.{
  Tables, Agent, Surroundings, Change, stored, update_logical_device, update_logical_device_flows,
  update_logical_device_meters, device_flows_and_groups, checked,
}
use vol_2619_voltha_go.LogicalDevice.Meters.{
  meter_of, remove_meter, replace_meter, meter_add, meter_delete, meter_modify, save_flows_if,
  with_meters,
}
use vol_2619_voltha_go.LogicalDevice.Flows.{get_meter_config, send_flows}
use vol_2619_voltha_go.LogicalDevice.MeterRemoval.{meter_delete_lem, meter_delete-none}
use vol_2619_voltha_go.LogicalDevice.References.{
  is_referenced, References, References-append, References-mono, References-remove,
  get_meter_config-referenced, meter_of-replace,
}

module _ {M : Messages} (L : FlowLib M) (E : Surroundings M) where
  abbrev pub Intact : Agent M → Type 0
  Intact a = References L a.logical_device.meters a.logical_device.flows

  -- The update of the model keeps the agent's tables or puts the new ones in their place.
  pub update-inv :
      (P : Tables M → Type 0) (ld : Tables M) (a : Agent M)
      → P a.logical_device
      → P ld
      → P (update_logical_device E ld a).0.logical_device
  unfolding update_logical_device
  update-inv P ld a h k = at (E.update ld)
    where
      at : (r : Result Bool) → P (stored r ld a).0.logical_device
      at (err c) = h
      at (ok false) = h
      at (ok true) = k

  pub checked-device :
      {A : Type 0} (r : Result A) (f : A → Agent M → Agent M × Option Code) (a : Agent M)
      → ((x : A) → (f x a).0.logical_device ≡ a.logical_device)
      → (checked r f a).0.logical_device ≡ a.logical_device
  checked-device (ok x) f a h = h x
  checked-device (err c) f a h = refl

  pub send_flows-device :
      (change : Change) (fs : List (Flow M)) (ms : List (Meter M)) (gs : List M.Group) (a : Agent M)
      → (send_flows L E change fs ms gs a).0.logical_device ≡ a.logical_device
  unfolding send_flows device_flows_and_groups
  send_flows-device change fs ms gs a =
      checked-device (get_meter_config L fs ms) _ a
        (λ metadata. checked-device (E.decompose_rules fs gs) _ a (λ rules. refl))

  -- The flows that are sent are referenced.
  pub send_flows-referenced :
      (change : Change) (f : Flow M) (ms : List (Meter M)) (gs : List M.Group) (a : Agent M)
      → (send_flows L E change (f ∷ []) ms gs a).1 ≡ none
      → is_referenced L ms f ≡ true
  unfolding send_flows
  send_flows-referenced change f ms gs a h = at (get_meter_config L (f ∷ []) ms) refl h
    where
      at :
          (r : Result (List (MeterConfig M.Bands)))
          → get_meter_config L (f ∷ []) ms ≡ r
          → (checked r
              (λ metadata.
                checked
                  (E.decompose_rules (f ∷ []) gs)
                  (λ rules. device_flows_and_groups E change rules (some metadata)))
              a).1
            ≡ none
          → is_referenced L ms f ≡ true
      at (ok cs) e h = get_meter_config-referenced L f ms cs e
      at (err c) e h = cc

  pub update_flows-Intact :
      (fs : List (Flow M)) (a : Agent M)
      → Intact a
      → References L a.logical_device.meters fs
      → Intact (update_logical_device_flows E fs a).0
  unfolding update_logical_device_flows
  update_flows-Intact fs a h k = update-inv (λ ld. References L ld.meters ld.flows) _ a h k

  pub update_meters-Intact :
      (ms : List (Meter M)) (a : Agent M)
      → Intact a
      → References L ms a.logical_device.flows
      → Intact (update_logical_device_meters E ms a).0
  unfolding update_logical_device_meters
  update_meters-Intact ms a h k = update-inv (λ ld. References L ld.meters ld.flows) _ a h k

  pub meter_add-Intact :
      (m : MeterMod M.Bands) (a : Agent M) → Intact a → Intact (meter_add L E m a).0
  unfolding meter_add
  meter_add-Intact m a h = at (is_some (meter_of m.meter_id a.logical_device.meters))
    where
      at :
          (b : Bool)
          → Intact
              (if◌then◌else◌ {A = Agent M × Option Code} b
                (a, none)
                (update_logical_device_meters E
                  (a.logical_device.meters ++ L.meter_entry_from_meter_mod m ∷ [])
                  a)).0
      at true = h
      at false = update_meters-Intact _ a h (References-append L _ a.logical_device.flows _ h)

  pub meter_modify-Intact :
      (m : MeterMod M.Bands) (a : Agent M)
      → FlowLibLaws M L
      → Intact a
      → Intact (meter_modify L E m a).0
  unfolding meter_modify
  meter_modify-Intact m a laws h =
      at (replace_meter m.meter_id (L.meter_entry_from_meter_mod m) a.logical_device.meters) refl
    where
      at :
          (r : Option (List (Meter M)))
          → replace_meter m.meter_id (L.meter_entry_from_meter_mod m) a.logical_device.meters ≡ r
          → Intact (with_meters E a r).0
      at none e = h
      at (some ms) e = update_meters-Intact ms a h (
          References-mono L a.logical_device.meters ms a.logical_device.flows
            (λ j.
              meter_of-replace m.meter_id j (L.meter_entry_from_meter_mod m) a.logical_device.meters
                ms (laws.entry_meter_id m) e)
            h)

  pub save_flows_if-Intact :
      (r : Bool × List (Flow M)) (a : Agent M)
      → Intact a
      → References L a.logical_device.meters r.1
      → Intact (save_flows_if E r a).0
  save_flows_if-Intact (true, fs) a h k = update_flows-Intact fs a h k
  save_flows_if-Intact (false, fs) a h k = h

  -- A deletion of a meter that returns an error may have saved the meters and not the flows.
  pub meter_delete-Intact :
      (m : MeterMod M.Bands) (a : Agent M)
      → (meter_delete L E m a).1 ≡ none
      → Intact a
      → Intact (meter_delete L E m a).0
  meter_delete-Intact m a good h = at (remove_meter m.meter_id a.logical_device.meters) refl
    where
      at :
          (o : Option (List (Meter M)))
          → remove_meter m.meter_id a.logical_device.meters ≡ o
          → Intact (meter_delete L E m a).0
      at none e = subst Intact (sym (meter_delete-none L E m a e)) h
      at (some ms) e =
          subst (λ ld. References L ld.meters ld.flows) (sym (meter_delete_lem L E m a ms e good))
            (References-remove L m.meter_id a.logical_device.meters ms a.logical_device.flows e h)
