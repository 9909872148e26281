-- ===== src/LogicalDevice.antt =====
-- rw_core/core/logical_device_agent.go: the tables of flows, meters and groups of a logical device,
-- how they are saved, and how rules are sent to the devices. Every operation holds the lock of the
-- logical device from its start to its end, and reads the tables from a copy that it may change: the
-- agent's own tables change only when a save succeeds. A table without entries stands for a missing
-- one too: `start` gives the device its flows and groups, and the code reads missing meters as none.
use vol_2619_voltha_go.Prelude.{
  ℕ, String, Bool, true, false, Option, none, some, List, [], ◌∷◌, map, ◌++◌,
}
use vol_2619_voltha_go.Status.{Code, internal, aborted, Result, ok, err}
use vol_2619_voltha_go.Response.{Arrival, wait_for_nil_or_error_responses}
use vol_2619_voltha_go.Openflow.{Messages, Flow, Meter, Config, DeviceRules}
pub mod Meters
pub mod Flows
pub mod Groups
pub mod Requests
pub mod MeterRemoval
pub mod References
pub mod Keeping
pub mod FlowKeeping
pub mod Requested
pub mod Atomicity
pub mod Counts
pub mod Retries

-- The operations of the device manager to which the rules of a device go.
pub data Change : Type 0 where
  add_flows_and_groups delete_flows_and_groups update_flows_and_groups : Change

module _ (M : Messages) where
  -- Of `voltha.LogicalDevice`, what these operations change.
  pub record Tables : Type 0 where
    pub flows : List (Flow M)
    pub meters : List (Meter M)
    pub groups : List M.Group

  -- A call of the device manager for some devices; `metadata` is none for a nil pointer.
  pub record Push : Type 0 where
    pub change : Change
    pub rules : DeviceRules M
    pub metadata : Option (List (Config M))

  -- The agent, with the rules that it has sent, the last ones first.
  pub record Agent : Type 0 where
    pub logical_device : Tables
    pub pushed : List Push

  -- What the agent calls: the generation of the routes, the decomposer, the device manager, which
  -- answers for each device, and the data model, whose answer tells whether there is an updated node.
  pub record Surroundings : Type 0 where
    pub generate_device_routes_if_needed : Option Code
    pub decompose_rules : List (Flow M) → List M.Group → Result (DeviceRules M)
    pub call : Change → String × M.FlowsAndGroups → Option (List (Config M)) → Option Arrival
    pub update : Tables → Result Bool
    pub default_timeout : ℕ
    pub root_device_id : String

abbrev pub awaited : Option (List (Option Code)) → Option Code
awaited none = none
awaited (some _) = some aborted

module _ {M : Messages} where
  abbrev pub stored : Result Bool → Tables M → Agent M → Agent M × Option Code
  stored (err c) ld a = (a, some c)
  stored (ok false) ld a = (a, some internal)
  stored (ok true) ld a = (record a { logical_device = ld }, none)

  unfoldable pub update_logical_device : Surroundings M → Tables M → Agent M → Agent M × Option Code
  update_logical_device E ld a = stored (E.update ld) ld a

  unfoldable pub update_logical_device_flows :
      Surroundings M → List (Flow M) → Agent M → Agent M × Option Code
  update_logical_device_flows E flows a =
      update_logical_device E (record (a.logical_device) { flows = flows }) a

  unfoldable pub update_logical_device_meters :
      Surroundings M → List (Meter M) → Agent M → Agent M × Option Code
  update_logical_device_meters E meters a =
      update_logical_device E (record (a.logical_device) { meters = meters }) a

  unfoldable pub update_logical_device_flow_groups :
      Surroundings M → List M.Group → Agent M → Agent M × Option Code
  update_logical_device_flow_groups E groups a =
      update_logical_device E (record (a.logical_device) { groups = groups }) a

  -- `addDeviceFlowsAndGroups`, `deleteDeviceFlowsAndGroups` and `updateDeviceFlowsAndGroups`, which
  -- differ in the change only. A device that answers with an error makes its response an error.
  unfoldable pub device_flows_and_groups :
      Surroundings M
      → Change
      → DeviceRules M
      → Option (List (Config M))
      → Agent M
      → Agent M × Option Code
  device_flows_and_groups E change rules metadata a =
      let responses = map (λ rule. E.call change rule metadata) rules in
      (
        record a {
          pushed = record { change = change; rules = rules; metadata = metadata } ∷ a.pushed;
        },
        awaited (wait_for_nil_or_error_responses E.default_timeout responses),
      )

  -- `if err != nil { return err }` after a call that gives a value.
  abbrev pub checked {ℓ} :
      {A : Type ℓ}
      → Result A
      → (A → Agent M → Agent M × Option Code)
      → Agent M
      → Agent M × Option Code
  checked (ok x) then_do a = then_do x a
  checked (err c) then_do a = (a, some c)
