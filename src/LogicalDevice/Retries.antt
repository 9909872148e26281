-- ===== src/LogicalDevice/Retries.antt =====
-- A strict deletion that is tried again (`flowDeleteStrict` of rw_core/core/logical_device_agent.go).
use vol_2619_voltha_go.Prelude.{
  ℕ, zero, suc, ◌+◌, ◌-◌, ◌*◌, ◌^◌, ◌%◌, ◌<◌, Bool, true, false, Option, none, some, List, [], ◌∷◌,
  ◌≡◌, refl, sym, ◌∙◌, ap, subst, if◌then◌else◌, arith, ◌==◌,
}
use vol_2619_voltha_go.Status.{Code, ok, err}
use vol_2619_voltha_go.Openflow.{
  Messages, Mod, Flow, FlowLib, ofpfc_delete_strict, MeterEntry, MeterConfig,
}
use vol_2619_voltha_go.LogicalDevice.{Tables, Agent, Surroundings}
use vol_2619_voltha_go.LogicalDevice.Meters.{update_flow_count_of_meter_stats, count_in, meter_of}
use vol_2619_voltha_go.LogicalDevice.Flows.{flow_delete_strict, get_meter_config, meter_configs}
use vol_2619_voltha_go.LogicalDevice.Counts.{flow_delete_strict-saved}

module _ {B S : Type 0} where
  -- The count of the first meter with a number.
  unfoldable pub count_of : ℕ → List (MeterEntry B S) → Option ℕ
  count_of id [] = none
  count_of id (m ∷ ms) =
      let rest = count_of id ms in if id == m.config.meter_id then some m.flow_count else rest

  -- A meter that has a count is found, and its count is lowered.
  record IsLowered (id n : ℕ) (ms : List (MeterEntry B S)) : Type 0 where
    is_changed : (count_in ofpfc_delete_strict id ms).0 ≡ true
    count : count_of id (count_in ofpfc_delete_strict id ms).1 ≡ some ((n + (2 ^ 32 - 1)) % 2 ^ 32)
    config : MeterConfig B
    is_there : meter_of id (count_in ofpfc_delete_strict id ms).1 ≡ some config

  lowered_lem :
      (id n : ℕ) (ms : List (MeterEntry B S)) → count_of id ms ≡ some n → IsLowered id n ms
  unfolding count_of count_in meter_of
  lowered_lem id n [] h = cc
  lowered_lem id n (m ∷ ms) h = at (id == m.config.meter_id) refl h (lowered_lem id n ms)
    where
      at :
          (b : Bool)
          → (id == m.config.meter_id) ≡ b
          → (if b then some m.flow_count else count_of id ms) ≡ some n
          → (count_of id ms ≡ some n → IsLowered id n ms)
          → IsLowered id n (m ∷ ms)
      at true e k rec = record {
        is_changed = rw e refl;
        count = rw (e, e) (cc k);
        config = m.config;
        is_there = rw (e, e) refl;
      }
      at false e k rec = record {
        is_changed = rw e (rec k).is_changed;
        count = rw (e, e) (rec k).count;
        config = (rec k).config;
        is_there = rw (e, e) (rec k).is_there;
      }

module _ {M : Messages} (L : FlowLib M) (E : Surroundings M) (m : Mod M) where
  -- The agent after some tries of the deletion.
  abbrev pub tries : ℕ → Agent M → Agent M
  tries zero a = a
  tries (suc k) a = tries k (flow_delete_strict L E m a).0

  module _ (f : Flow M) (i : ℕ) (c : Code) (strict : m.command ≡ ofpfc_delete_strict)
      (saved : (t : Tables M) → E.update t ≡ ok true) where
    -- A try: the agent is as before but for the meters.
    one_try :
        (a : Agent M) (n : ℕ)
        → L.find_flows a.logical_device.flows (L.flow_stats_entry_from_flow_mod_message m)
          ≡ some (i, f)
        → (L.get_meter_id_from_flow f == 0) ≡ false
        → IsLowered (L.get_meter_id_from_flow f) n a.logical_device.meters
        → E.decompose_rules (f ∷ []) a.logical_device.groups ≡ err c
        → (flow_delete_strict L E m a).0 ≡ record a {
          logical_device = record (a.logical_device) {
            meters =
                (count_in ofpfc_delete_strict
                  (L.get_meter_id_from_flow f)
                  a.logical_device.meters).1;
          };
        }
    unfolding update_flow_count_of_meter_stats get_meter_config meter_configs
    one_try a n found metered low failed =
        ap (λ r. r.0)
          (flow_delete_strict-saved L E m a i f
            (count_in ofpfc_delete_strict (L.get_meter_id_from_flow f) a.logical_device.meters).1
            (low.config ∷ []) c found
            (rw (strict, metered)
              (ap
                (λ b. (
                  b,
                  (count_in ofpfc_delete_strict (L.get_meter_id_from_flow f)
                      a.logical_device.meters).1,
                ))
                low.is_changed))
            (rw (metered, low.is_there) refl) (saved _) failed)

    -- For a strict deletion that finds a flow whose meter is in the table, when the model takes
    -- every update and the decomposer refuses the flow, any number of tries leaves the flows as
    -- they are and has lowered the count of the meter by one for each try, modulo 2 ^ 32.
    pub count_of-tries :
        (k : ℕ) (a : Agent M) (n : ℕ)
        → n < 2 ^ 32
        → L.find_flows a.logical_device.flows (L.flow_stats_entry_from_flow_mod_message m)
          ≡ some (i, f)
        → (L.get_meter_id_from_flow f == 0) ≡ false
        → count_of (L.get_meter_id_from_flow f) a.logical_device.meters ≡ some n
        → E.decompose_rules (f ∷ []) a.logical_device.groups ≡ err c
        → ((tries k a).logical_device.flows ≡ a.logical_device.flows)
          × (count_of (L.get_meter_id_from_flow f) (tries k a).logical_device.meters
              ≡ some ((n + k * (2 ^ 32 - 1)) % 2 ^ 32))
    count_of-tries zero a n bound found metered counted failed =
        (refl, counted ∙ ap some (omega arith))
    count_of-tries (suc k) a n bound found metered counted failed =
        let low = lowered_lem (L.get_meter_id_from_flow f) n a.logical_device.meters counted in
        let next =
          count_of-tries k
            (record a {
              logical_device = record (a.logical_device) {
                meters =
                    (count_in ofpfc_delete_strict (L.get_meter_id_from_flow f)
                      a.logical_device.meters).1;
              };
            })
            ((n + (2 ^ 32 - 1)) % 2 ^ 32) (omega arith) found metered low.count failed in
        subst
          (λ b.
            ((tries k b).logical_device.flows ≡ a.logical_device.flows)
            × (count_of (L.get_meter_id_from_flow f) (tries k b).logical_device.meters
                ≡ some ((n + suc k * (2 ^ 32 - 1)) % 2 ^ 32)))
          (sym (one_try a n found metered low failed)) (next.0, next.1 ∙ ap some (again k n))
      where
        again :
            (k n : ℕ)
            → ((n + (2 ^ 32 - 1)) % 2 ^ 32 + k * (2 ^ 32 - 1)) % 2 ^ 32
              ≡ (n + suc k * (2 ^ 32 - 1)) % 2 ^ 32
        again k n = omega arith
