-- ===== src/LogicalDevice/FlowKeeping.antt =====
-- The operations that change the flow table, and those on the groups, keep every flow's meter in the
-- meter table (rw_core/core/logical_device_agent.go).
use vol_2619_voltha_go.Prelude.{
  ℕ, Bool, true, false, Option, none, some, List, [], ◌∷◌, ◌++◌, ◌≡◌, refl, is_some, sym, subst,
  remove_at, set_at, if◌then◌else◌, ◌==◌,
}
use vol_2619_voltha_go.Status.{Code, ◌▸◌, ▸-step}
use vol_2619_voltha_go.Openflow.{
  Messages, GroupMod, Flow, Mod, Meter, FlowLib, FlowLibLaws, DeviceRules,
}
use vol_2619_voltha_go.LogicalDevice.{
  Tables, Agent, Surroundings, Change, add_flows_and_groups, delete_flows_and_groups,
  update_flows_and_groups, update_logical_device_flows, update_logical_device_meters,
  update_logical_device_flow_groups, device_flows_and_groups, checked,
}
use vol_2619_voltha_go.LogicalDevice.Meters.{
  meter_of, update_flow_count_of_meter_stats, save_flows_if,
}
use vol_2619_voltha_go.LogicalDevice.Groups.{
  group_add, group_delete, group_modify, delete_changed, add_unless_found, modify_if_found,
  delete_if_found, ofpg_all,
}
use vol_2619_voltha_go.LogicalDevice.Flows.{
  send_flows, save_meters_if, flow_add, flow_delete, flow_delete_strict, Added, unchanged, appended,
  replaced, added, add_changed, split, delete_flows, delete_found, is_deleted,
}
use vol_2619_voltha_go.LogicalDevice.References.{
  References, References-appended, References-set_at, References-remove_at, References-mono,
  is_some-count,
}
use vol_2619_voltha_go.LogicalDevice.Keeping.{
  Intact, update_flows-Intact, update-inv, checked-device, save_flows_if-Intact, send_flows-device,
  send_flows-referenced,
}

module _ {M : Messages} (L : FlowLib M) (E : Surroundings M) where
  abbrev AsBefore : List (Meter M) → Tables M → Type 0
  AsBefore ms ld = References L ld.meters ld.flows × (ld.meters ≡ ms)

  -- Flows sent to the devices, and then a new table saved.
  sent-saved :
      (change : Change) (fs fs' : List (Flow M)) (gs : List M.Group) (a : Agent M)
      → Intact L E a
      → ((send_flows L E change fs a.logical_device.meters gs a).1 ≡ none
          → References L a.logical_device.meters fs')
      → AsBefore a.logical_device.meters
          (send_flows L E change fs a.logical_device.meters gs a
            ▸ update_logical_device_flows E fs').0.logical_device
  unfolding update_logical_device_flows
  sent-saved change fs fs' gs a h new =
      let sent = send_flows L E change fs a.logical_device.meters gs a in
      let same = send_flows-device L E change fs a.logical_device.meters gs a in
      let kept = subst (AsBefore a.logical_device.meters) (sym same) (h, refl) in
      ▸-step (λ s. AsBefore a.logical_device.meters s.logical_device) sent
        (update_logical_device_flows E fs') kept
        (λ good.
          update-inv L E (AsBefore a.logical_device.meters) _ sent.0 kept
            (subst (λ ms. References L ms fs') (sym kept.1) (new good), kept.1))

  save_meters_if-Intact :
      (r : Bool × List (Meter M)) (a : Agent M)
      → Intact L E a
      → References L r.1 a.logical_device.flows
      → Intact L E (save_meters_if E r a).0
  unfolding update_logical_device_meters
  save_meters_if-Intact (true, ms) a h k =
      update-inv L E (λ ld. References L ld.meters ld.flows) _ a h k
  save_meters_if-Intact (false, ms) a h k = h

  add_changed-Intact :
      (m : Mod M) (a : Agent M) (change : Added M.Body)
      → Intact L E a
      → Intact L E (add_changed L E m a change).0
  unfolding add_changed
  add_changed-Intact m a unchanged h = h
  add_changed-Intact m a (appended f) h =
      let ms = a.logical_device.meters in
      let counted = update_flow_count_of_meter_stats L m.command ms f in
      let saved =
        sent-saved add_flows_and_groups (f ∷ []) (a.logical_device.flows ++ f ∷ [])
          a.logical_device.groups a h
          (λ good.
            References-appended L ms a.logical_device.flows h f (
              send_flows-referenced L E add_flows_and_groups f ms a.logical_device.groups a
                good)) in
      ▸-step (Intact L E) _ (save_meters_if E counted) saved.0 (λ good.
        save_meters_if-Intact counted _ saved.0 (
          References-mono L _ counted.1 _
            (λ j k.
              is_some-count L m.command ms f j
                (subst (λ t. is_some (meter_of j t) ≡ true) saved.1 k))
            saved.0))
  add_changed-Intact m a (replaced i f) h =
      (sent-saved add_flows_and_groups (f ∷ []) (set_at i f a.logical_device.flows)
        a.logical_device.groups a h
        (λ good. References-set_at L a.logical_device.meters a.logical_device.flows h i f (
          send_flows-referenced L E add_flows_and_groups f a.logical_device.meters
            a.logical_device.groups a good))).0

  split-References :
      (m : Mod M) (ms : List (Meter M)) (fs : List (Flow M))
      → References L ms fs
      → References L ms (split L m fs).0
  unfolding split References
  split-References m ms [] h = h
  split-References m ms (f ∷ fs) h = at (is_deleted L m f) (split-References m ms fs h.1)
    where
      at :
          (b : Bool)
          → References L ms (split L m fs).0
          → References L ms
              (if◌then◌else◌ {A = List (Flow M) × List (Flow M)} b
                ((split L m fs).0, f ∷ (split L m fs).1)
                (f ∷ (split L m fs).0, (split L m fs).1)).0
      at true rest = rest
      at false rest = (h.0, rest)

  delete_flows-Intact :
      (a : Agent M) (parts : List (Flow M) × List (Flow M))
      → Intact L E a
      → References L a.logical_device.meters parts.0
      → Intact L E (delete_flows L E a parts).0
  delete_flows-Intact a (to_keep, []) h k = h
  delete_flows-Intact a (to_keep, f ∷ fs) h k =
      (sent-saved delete_flows_and_groups (f ∷ fs) to_keep a.logical_device.groups a h (λ _. k)).0

  pub flow_add-Intact : (m : Mod M) (a : Agent M) → Intact L E a → Intact L E (flow_add L E m a).0
  unfolding flow_add
  flow_add-Intact m a h = add_changed-Intact m a (added L m a.logical_device.flows) h

  pub flow_delete-Intact :
      (m : Mod M) (a : Agent M) → Intact L E a → Intact L E (flow_delete L E m a).0
  unfolding flow_delete
  flow_delete-Intact m a h =
      delete_flows-Intact a (split L m a.logical_device.flows) h
        (split-References m a.logical_device.meters a.logical_device.flows h)

  -- The flows of the table and some others are referenced.
  abbrev Both : List (Flow M) → Tables M → Type 0
  Both fs ld = References L ld.meters ld.flows × References L ld.meters fs

  save_meters_if-Both :
      (r : Bool × List (Meter M)) (a : Agent M) (fs : List (Flow M))
      → Both fs a.logical_device
      → Both fs (record (a.logical_device) { meters = r.1 })
      → Both fs (save_meters_if E r a).0.logical_device
  unfolding update_logical_device_meters
  save_meters_if-Both (true, ms) a fs h k = update-inv L E (Both fs) _ a h k
  save_meters_if-Both (false, ms) a fs h k = h

  delete_found-Intact :
      (m : Mod M) (a : Agent M) (found : Option (ℕ × Flow M))
      → Intact L E a
      → Intact L E (delete_found L E m a found).0
  delete_found-Intact m a none h = h
  delete_found-Intact m a (some (i, f)) h =
      let ms = a.logical_device.meters in
      let counted = update_flow_count_of_meter_stats L m.command ms f in
      let fs' = remove_at i a.logical_device.flows in
      let less = References-remove_at L ms a.logical_device.flows h i in
      let more = is_some-count L m.command ms f in
      let saved =
        save_meters_if-Both counted a fs' (h, less)
          (References-mono L ms counted.1 _ more h, References-mono L ms counted.1 _ more less) in
      let sent =
        ▸-step (λ s. Both fs' s.logical_device) (save_meters_if E counted a)
          (send_flows L E delete_flows_and_groups (f ∷ []) counted.1 a.logical_device.groups) saved
          (λ good.
            subst (Both fs')
              (sym (
                send_flows-device L E delete_flows_and_groups (f ∷ []) counted.1
                  a.logical_device.groups _))
              saved) in
      ▸-step (Intact L E) _ (update_logical_device_flows E fs') sent.0
        (λ good. update_flows-Intact L E fs' _ sent.0 sent.1)

  pub flow_delete_strict-Intact :
      (m : Mod M) (a : Agent M) → Intact L E a → Intact L E (flow_delete_strict L E m a).0
  unfolding flow_delete_strict
  flow_delete_strict-Intact m a h = delete_found-Intact m a _ h

  delete_changed-Intact :
      (flows : Bool × List (Flow M)) (gs : List M.Group) (a : Agent M)
      → Intact L E a
      → References L a.logical_device.meters flows.1
      → Intact L E (delete_changed E flows gs a).0
  unfolding delete_changed update_logical_device_flow_groups device_flows_and_groups
  delete_changed-Intact flows gs a h k =
      let sent =
        checked (E.decompose_rules flows.1 gs)
          (λ rules. device_flows_and_groups E update_flows_and_groups rules none) a in
      let same = checked-device L E (E.decompose_rules flows.1 gs) _ a (λ rules. refl) in
      let kept = subst (Both flows.1) (sym same) (h, k) in
      let saved =
        ▸-step (λ s. Both flows.1 s.logical_device) sent (update_logical_device_flow_groups E gs)
          kept (λ good. update-inv L E (Both flows.1) _ sent.0 kept kept) in
      ▸-step (Intact L E) _ (save_flows_if E flows) saved.0
        (λ good. save_flows_if-Intact L E flows _ saved.0 saved.1)

  -- The rules of a group sent to the root device, and then new groups saved.
  group_saved-Intact :
      (change : Change) (rules : DeviceRules M) (gs : List M.Group) (a : Agent M)
      → Intact L E a
      → Intact L E
          (device_flows_and_groups E change rules (some []) a
            ▸ update_logical_device_flow_groups E gs).0
  unfolding update_logical_device_flow_groups device_flows_and_groups
  group_saved-Intact change rules gs a h =
      ▸-step (Intact L E) (device_flows_and_groups E change rules (some []) a)
        (update_logical_device_flow_groups E gs) h
        (λ good. update-inv L E (λ ld. References L ld.meters ld.flows) _ _ h h)

  pub group_add-Intact :
      (m : GroupMod M.GroupBody) (a : Agent M) → Intact L E a → Intact L E (group_add L E m a).0
  unfolding group_add
  group_add-Intact m a h = at (L.find_group a.logical_device.groups m.group_id)
    where
      at : (o : Option ℕ) → Intact L E (add_unless_found L E m a o).0
      at none = group_saved-Intact _ _ _ a h
      at (some i) = h

  pub group_modify-Intact :
      (m : GroupMod M.GroupBody) (a : Agent M) → Intact L E a → Intact L E (group_modify L E m a).0
  unfolding group_modify
  group_modify-Intact m a h = at (L.find_group a.logical_device.groups m.group_id)
    where
      at : (o : Option ℕ) → Intact L E (modify_if_found L E m a o).0
      at none = h
      at (some i) = group_saved-Intact _ _ _ a h

  pub group_delete-Intact :
      (m : GroupMod M.GroupBody) (a : Agent M)
      → FlowLibLaws M L
      → Intact L E a
      → Intact L E (group_delete L E m a).0
  unfolding group_delete References
  group_delete-Intact m a laws h =
      at (m.group_id == ofpg_all) (L.find_group a.logical_device.groups m.group_id)
    where
      at :
          (b : Bool) (o : Option ℕ)
          → Intact L E
              (if◌then◌else◌ {A = Agent M × Option Code} b
                (delete_changed E (false, a.logical_device.flows) [] a)
                (delete_if_found L E m.group_id a o)).0
      at true o = delete_changed-Intact (false, a.logical_device.flows) [] a h h
      at false none = h
      at false (some i) =
          delete_changed-Intact (L.flows_delete_by_group_id a.logical_device.flows m.group_id)
            (remove_at i a.logical_device.groups) a h
            (laws.keeps _ a.logical_device.flows m.group_id h)
