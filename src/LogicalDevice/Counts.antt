-- ===== src/LogicalDevice/Counts.antt =====
-- The counts of the flows that use a meter, under the strict deletion of a flow
-- (`flowDeleteStrict` of rw_core/core/logical_device_agent.go).
use vol_2619_voltha_go.Prelude.{
  All, ℕ, ◌+◌, ◌-◌, ◌^◌, ◌%◌, ◌<◌, Bool, true, false, none, some, List, [], ◌∷◌, ◌≡◌, refl,
  if◌then◌else◌, ◌∙◌, ap, arith, ◌==◌, reject,
}
use vol_2619_voltha_go.Status.{Code, ok, err, ◌▸◌, ▸-none}
use vol_2619_voltha_go.Openflow.{
  Messages, Mod, Flow, Meter, Config, FlowLib, ofpfc_add, ofpfc_delete_strict, MeterEntry,
}
use vol_2619_voltha_go.LogicalDevice.{
  Tables, Agent, Surroundings, delete_flows_and_groups, update_logical_device,
  update_logical_device_flows, update_logical_device_meters,
}
use vol_2619_voltha_go.LogicalDevice.Meters.{update_flow_count_of_meter_stats, count_in, counted}
use vol_2619_voltha_go.LogicalDevice.Flows.{
  send_flows, flow_delete_strict, flow_delete, delete_flows, get_meter_config, split, is_deleted,
}
use vol_2619_voltha_go.LogicalDevice.MeterRemoval.{update-good}
use vol_2619_voltha_go.LogicalDevice.Keeping.{send_flows-device}

wraps : (n : ℕ) → n < 2 ^ 32 → ((n + 1) % 2 ^ 32 + (2 ^ 32 - 1)) % 2 ^ 32 ≡ n
wraps n h = omega arith

module _ {B S : Type 0} where
  abbrev pub IsCounted : MeterEntry B S → Type 0
  IsCounted m = m.flow_count < 2 ^ 32

  count_in-count_in :
      (id : ℕ) (ms : List (MeterEntry B S))
      → All IsCounted ms
      → (count_in ofpfc_delete_strict id (count_in ofpfc_add id ms).1).1 ≡ ms
  unfolding count_in
  count_in-count_in id [] h = refl
  count_in-count_in id (m ∷ ms) h = at (id == m.config.meter_id) refl (count_in-count_in id ms h.1)
    where
      at :
          (b : Bool)
          → (id == m.config.meter_id) ≡ b
          → (count_in ofpfc_delete_strict id (count_in ofpfc_add id ms).1).1 ≡ ms
          → (count_in ofpfc_delete_strict id
              (if◌then◌else◌ {A = Bool × List (MeterEntry B S)} b
                (true, record m { flow_count = (m.flow_count + 1) % 2 ^ 32 } ∷ ms)
                ((count_in ofpfc_add id ms).0, m ∷ (count_in ofpfc_add id ms).1)).1).1
            ≡ m ∷ ms
      at true e rec = rw (e, wraps m.flow_count h.0)
      at false e rec = rw (e, rec)

module _ {M : Messages} (L : FlowLib M) (E : Surroundings M) where
  -- A strict deletion whose counted meters are saved, and which the decomposer then refuses.
  pub flow_delete_strict-saved :
      (m : Mod M) (a : Agent M) (i : ℕ) (f : Flow M) (ms : List (Meter M)) (cs : List (Config M))
      (c : Code)
      → L.find_flows a.logical_device.flows (L.flow_stats_entry_from_flow_mod_message m)
        ≡ some (i, f)
      → update_flow_count_of_meter_stats L m.command a.logical_device.meters f ≡ (true, ms)
      → get_meter_config L (f ∷ []) ms ≡ ok cs
      → E.update (record (a.logical_device) { meters = ms }) ≡ ok true
      → E.decompose_rules (f ∷ []) a.logical_device.groups ≡ err c
      → flow_delete_strict L E m a
        ≡ (record a { logical_device = record (a.logical_device) { meters = ms } }, some c)
  unfolding flow_delete_strict update_logical_device_meters update_logical_device send_flows ◌▸◌
  flow_delete_strict-saved m a i f ms cs c found counted configs saved failed =
      rw (found, counted, saved, configs, failed)

  split-reject : (m : Mod M) (fs : List (Flow M)) → (split L m fs).0 ≡ reject (is_deleted L m) fs
  unfolding split reject
  split-reject m [] = refl
  split-reject m (f ∷ fs) = at (is_deleted L m f) (split-reject m fs)
    where
      at :
          (b : Bool)
          → (split L m fs).0 ≡ reject (is_deleted L m) fs
          → (if◌then◌else◌ {A = List (Flow M) × List (Flow M)} b
              ((split L m fs).0, f ∷ (split L m fs).1)
              (f ∷ (split L m fs).0, (split L m fs).1)).0
            ≡ (if b then reject (is_deleted L m) fs else f ∷ reject (is_deleted L m) fs)
      at true rec = rec
      at false rec = rw rec

  split-none :
      (m : Mod M) (fs : List (Flow M)) → (split L m fs).1 ≡ [] → reject (is_deleted L m) fs ≡ fs
  unfolding split reject
  split-none m [] e = refl
  split-none m (f ∷ fs) e = at (is_deleted L m f) e (split-none m fs)
    where
      at :
          (b : Bool)
          → (if◌then◌else◌ {A = List (Flow M) × List (Flow M)} b
              ((split L m fs).0, f ∷ (split L m fs).1)
              (f ∷ (split L m fs).0, (split L m fs).1)).1
            ≡ []
          → ((split L m fs).1 ≡ [] → reject (is_deleted L m) fs ≡ fs)
          → (if b then reject (is_deleted L m) fs else f ∷ reject (is_deleted L m) fs) ≡ f ∷ fs
      at true e rec = cc
      at false e rec = rw (rec e)

  flows_deleted :
      (a : Agent M) (parts : List (Flow M) × List (Flow M)) (fs : List (Flow M))
      → parts.0 ≡ fs
      → (parts.1 ≡ [] → fs ≡ a.logical_device.flows)
      → (delete_flows L E a parts).1 ≡ none
      → (delete_flows L E a parts).0.logical_device ≡ record (a.logical_device) { flows = fs }
  unfolding update_logical_device_flows
  flows_deleted a (to_keep, []) fs e none_deleted h = rw (none_deleted refl)
  flows_deleted a (to_keep, f ∷ gs) fs e none_deleted h =
      let sent =
        send_flows L E delete_flows_and_groups (f ∷ gs) a.logical_device.meters
          a.logical_device.groups a in
      let same =
        send_flows-device L E delete_flows_and_groups (f ∷ gs) a.logical_device.meters
          a.logical_device.groups a in
      let good = ▸-none sent (update_logical_device_flows E to_keep) h in
      ap (λ s. s.logical_device) good.2
      ∙ ap (λ s. s.logical_device) (update-good L E _ sent.0 good.1)
      ∙ ap (λ (ld : Tables M). record ld { flows = to_keep }) same
      ∙ ap (λ (gs : List (Flow M)). record (a.logical_device) { flows = gs }) e

  -- A deletion of flows that returns no error leaves in the table just the flows that neither match
  -- the flow of the message nor its wildcards, in their order. The meters are as before: the counts of
  -- their flows are not lowered.
  pub flow_delete_lem :
      (m : Mod M) (a : Agent M)
      → (flow_delete L E m a).1 ≡ none
      → (flow_delete L E m a).0.logical_device
        ≡ record (a.logical_device) { flows = reject (is_deleted L m) a.logical_device.flows }
  unfolding flow_delete
  flow_delete_lem m a h =
      flows_deleted a (split L m a.logical_device.flows) _ (split-reject m a.logical_device.flows)
        (split-none m a.logical_device.flows) h

module _ {M : Messages} (L : FlowLib M) where
  -- The count of a flow that is added, and then deleted strictly, leaves the meters as they were, if
  -- their counts are numbers of 32 bits: also where the count wraps round.
  pub update_flow_count-update_flow_count :
      (ms : List (Meter M)) (f : Flow M)
      → All IsCounted ms
      → (update_flow_count_of_meter_stats L ofpfc_delete_strict
          (update_flow_count_of_meter_stats L ofpfc_add ms f).1
          f).1
        ≡ ms
  unfolding update_flow_count_of_meter_stats
  update_flow_count-update_flow_count ms f h = at (L.get_meter_id_from_flow f == 0)
    where
      at :
          (b : Bool)
          → (if◌then◌else◌ {A = Bool × List (Meter M)} b
              (
                false,
                (if◌then◌else◌ {A = Bool × List (Meter M)} b
                    (false, ms)
                    (count_in ofpfc_add (L.get_meter_id_from_flow f) ms)).1,
              )
              (count_in ofpfc_delete_strict
                (L.get_meter_id_from_flow f)
                (if◌then◌else◌ {A = Bool × List (Meter M)} b
                  (false, ms)
                  (count_in ofpfc_add (L.get_meter_id_from_flow f) ms)).1)).1
            ≡ ms
      at true = refl
      at false = count_in-count_in (L.get_meter_id_from_flow f) ms h
