-- ===== src/Tests/LogicalDevice.antt =====
-- A logical device with two meters and flows that use one of them
-- (rw_core/core/logical_device_agent.go).
use vol_2619_voltha_go.Prelude.{
  ℕ, ◌==◌, String, true, false, Option, none, some, List, [], ◌∷◌, ◌≡◌, refl, reject, any, ◌⊎◌, inl,
  if◌then◌else◌, arith,
}
use vol_2619_voltha_go.Status.{internal, Result, ok, err, ◌▸◌}
use vol_2619_voltha_go.Response.{wait_for_nil_or_error_responses, receive, receive_all}
use vol_2619_voltha_go.Openflow.{
  Messages, Flow, Meter, FlowLib, FlowLibLaws, MeterMod, FlowMod, ofpfc_add, ofpfc_delete,
  ofpfc_delete_strict, ofpmc_delete,
}
use vol_2619_voltha_go.LogicalDevice.{
  Agent, Surroundings, update_logical_device, update_logical_device_meters,
  update_logical_device_flows, device_flows_and_groups,
}
use vol_2619_voltha_go.LogicalDevice.Meters.{
  meter_delete, remove_meter, update_flow_count_of_meter_stats,
  get_updated_flows_after_delete_by_meter_id, uses_meter, delete_down, meter_of,
}
use vol_2619_voltha_go.LogicalDevice.Flows.{
  flow_delete, is_deleted, split, send_flows, get_meter_config, meter_configs,
}
use vol_2619_voltha_go.LogicalDevice.Requests.{update_table, flow_request}
use vol_2619_voltha_go.LogicalDevice.MeterRemoval.{get_updated_flows_lem, meter_delete_lem}
use vol_2619_voltha_go.LogicalDevice.Requested.{update_table-Intact}
use vol_2619_voltha_go.LogicalDevice.Atomicity.{update_table-IsAtomic}
use vol_2619_voltha_go.LogicalDevice.Counts.{flow_delete_lem, update_flow_count-update_flow_count}
use vol_2619_voltha_go.LogicalDevice.Retries.{count_of, tries, count_of-tries}
use vol_2619_voltha_go.LogicalDevice.References.{is_referenced, References}
use vol_2619_voltha_go.LogicalDevice.Keeping.{Intact}

-- The body of a flow and of its message is the number of its meter.
abbrev messages : Messages
messages = record {
  Body = ℕ;
  ModBody = ℕ;
  Bands = ℕ;
  MeterStats = Unit;
  GroupBody = ℕ;
  Group = ℕ;
  FlowsAndGroups = ℕ;
}

abbrev flow : ℕ → ℕ → Flow messages
flow id meter = record {
  id = id;
  table_id = 0;
  priority = 0;
  cookie = 0;
  packet_count = 0;
  byte_count = 0;
  body = meter;
}

abbrev meter : ℕ → ℕ → Meter messages
meter id count = record {
  config = record { meter_id = id; bands = 0 };
  flow_count = count;
  stats = tt;
}

abbrev first_using : List (Flow messages) → Flow messages → Option (ℕ × Flow messages)
first_using [] f = none
first_using (g ∷ gs) f = if g.body == f.body then some (0, g) else none

abbrev lib : FlowLib messages
lib = record {
  flow_stats_entry_from_flow_mod_message = λ m. flow 0 m.body;
  find_overlapping_flows = λ fs m. [];
  find_flows = first_using;
  flow_match = λ f g. f.body == g.body;
  flow_matches_mod = λ f m. false;
  deep_equal = λ f g. f.id == g.id;
  get_meter_id_from_flow = λ f. f.body;
  meter_entry_from_meter_mod = λ m. meter m.meter_id 0;
  find_group = λ gs i. none;
  flows_delete_by_group_id = λ fs i. (false, fs);
  group_entry_from_group_mod = λ m. m.group_id;
  flows_and_groups_of_group = λ g. g;
}

abbrev laws : FlowLibLaws messages lib
laws = record { entry_meter_id = λ m. refl; keeps = λ P fs i h. h }

abbrev agent : Agent messages
agent = record {
  logical_device = record {
    flows = flow 1 5 ∷ flow 2 0 ∷ flow 3 5 ∷ [];
    meters = meter 4 0 ∷ meter 5 2 ∷ [];
    groups = [];
  };
  pushed = [];
}

-- Devices that answer at once, and a model that takes everything.
abbrev surroundings : Result (List (String × ℕ)) → Surroundings messages
surroundings rules = record {
  generate_device_routes_if_needed = none;
  decompose_rules = λ fs gs. rules;
  call = λ change rule metadata. some (record { time = 1; error_of = none });
  update = λ ld. ok true;
  default_timeout = 10;
  root_device_id = "olt";
}

abbrev good : Surroundings messages
good = surroundings (ok (("olt", 1) ∷ ("onu", 2) ∷ []))

abbrev deletion : MeterMod ℕ
deletion = record { command = ofpmc_delete; meter_id = 5; bands = 0 }

get_updated_flows_lem_example :
    get_updated_flows_after_delete_by_meter_id lib agent.logical_device.flows 5 ≡ (
      any (uses_meter lib 5) agent.logical_device.flows,
      reject (uses_meter lib 5) agent.logical_device.flows,
    )
get_updated_flows_lem_example = get_updated_flows_lem lib 5 agent.logical_device.flows

meter_delete_lem_example :
    (meter_delete lib good deletion agent).0.logical_device ≡ record (agent.logical_device) {
      meters = meter 4 0 ∷ [];
      flows = reject (uses_meter lib 5) agent.logical_device.flows;
    }
unfolding meter_delete remove_meter get_updated_flows_after_delete_by_meter_id ◌▸◌
    update_logical_device_meters update_logical_device delete_down uses_meter
    update_logical_device_flows
meter_delete_lem_example = meter_delete_lem lib good deletion agent (meter 4 0 ∷ []) refl refl

abbrev adding : FlowMod ℕ
adding = record { command = ofpfc_add; flags = 0; body = 4 }

abbrev deleting : FlowMod ℕ
deleting = record { command = ofpfc_delete; flags = 0; body = 5 }

update_table-Intact_example : Intact lib good (update_table lib good (flow_request adding) agent).0
unfolding References is_referenced meter_of
update_table-Intact_example =
    update_table-Intact lib good laws (flow_request adding) agent (inl refl)
      (refl, (refl, (refl, tt)))

flow_delete_lem_example :
    (flow_delete lib good deleting agent).0.logical_device ≡ record (agent.logical_device) {
      flows = reject (is_deleted lib deleting) agent.logical_device.flows;
    }
unfolding flow_delete split is_deleted ◌▸◌ send_flows get_meter_config meter_configs meter_of
    device_flows_and_groups wait_for_nil_or_error_responses receive_all receive
    update_logical_device_flows update_logical_device
flow_delete_lem_example = flow_delete_lem lib good deleting agent refl

update_table-IsAtomic_example :
    ((update_table lib (surroundings (err internal)) (flow_request deleting) agent).1 ≡ none)
    ⊎ ((update_table lib
          (surroundings (err internal))
          (flow_request deleting)
          agent).0.logical_device
        ≡ agent.logical_device)
update_table-IsAtomic_example =
    update_table-IsAtomic lib (surroundings (err internal)) (flow_request deleting) agent refl

abbrev strictly : FlowMod ℕ
strictly = record { command = ofpfc_delete_strict; flags = 0; body = 5 }

-- Three tries of a deletion, with two flows counted by the meter: its count wraps round.
count_of-tries_example :
    ((tries lib (surroundings (err internal)) strictly 3 agent).logical_device.flows
      ≡ agent.logical_device.flows)
    × (count_of 5 (tries lib (surroundings (err internal)) strictly 3 agent).logical_device.meters
        ≡ some 4294967295)
unfolding count_of
count_of-tries_example =
    count_of-tries lib (surroundings (err internal)) strictly (flow 1 5) 0 internal refl (λ t. refl)
      3 agent 2 (omega arith) refl refl refl refl

update_flow_count-update_flow_count_example :
    (update_flow_count_of_meter_stats lib ofpfc_delete_strict
      (update_flow_count_of_meter_stats lib ofpfc_add (meter 4 0 ∷ meter 5 2 ∷ []) (flow 1 5)).1
      (flow 1 5)).1
    ≡ meter 4 0 ∷ meter 5 2 ∷ []
update_flow_count-update_flow_count_example =
    update_flow_count-update_flow_count lib (meter 4 0 ∷ meter 5 2 ∷ []) (flow 1 5)
      (omega arith, (omega arith, tt))
