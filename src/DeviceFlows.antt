-- ===== src/DeviceFlows.antt =====
-- rw_core/core/device_agent.go: the requests of a device agent that change the flows and the groups of
-- its device. Every operation holds the lock of the device until the device is stored, and waits for
-- the adapter's answer after that. The library of flow utilities, the adapter, the data model and the
-- adapter manager are parameters.
pub mod Changes
mod Take
pub mod Compare
pub mod Outcome
pub mod InStep
pub mod Divergence
use vol_2619_voltha_go.Prelude.{
  ℕ, Bool, true, false, Option, none, some, List, [], ◌∷◌, ◌++◌, ◌==◌, ◌&&◌, not, if◌then◌else◌,
  length, get_elem?, is_empty,
}
use vol_2619_voltha_go.Status.{Code, failed_precondition, internal, aborted, Result, ok, err}
use vol_2619_voltha_go.Response.{Arrival, wait_for_nil_or_error_responses}
use vol_2619_voltha_go.DeviceAgent.{Device}
use vol_2619_voltha_go.DeviceFlows.Changes.{Finder, Update, to_update_to_delete, unmatched, matched}

-- The types of the messages, and what the agent calls to compare them. `find_flows` and `find_group`
-- give the entry too that stands at the index that they find, and `none` is for the index -1.
pub record FlowUtils : Type 1 where
  pub Flow : Type 0
  pub Group : Type 0
  pub Metadata : Type 0
  pub flow_finder : Finder Flow
  pub group_finder : Finder Group
  pub deep_equal_flows : List Flow → List Flow → Bool
  pub deep_equal_groups : List Group → List Group → Bool

module _ (U : FlowUtils) where
  -- A device with its flows and groups.
  pub record FlowDevice : Type 0 where
    pub device : Device
    pub flows : List U.Flow
    pub groups : List U.Group

  -- The two messages to an adapter. The device is the one before the change.
  pub data FlowMessage : Type 0 where
    update_flows_bulk : FlowDevice → List U.Flow → List U.Group → Option U.Metadata → FlowMessage
    update_flows_incremental :
        FlowDevice
        → (to_add to_remove : List U.Flow)
        → (groups_to_add groups_to_remove groups_to_update : List U.Group) → Option U.Metadata
        → FlowMessage

  -- The agent, with the messages that it has sent, the last one first.
  pub record FlowAgent : Type 0 where
    pub device : FlowDevice
    pub sent : List FlowMessage

  -- Whether the type of the device accepts incremental updates, none for an unknown type, when the
  -- answer to a message arrives, whether the data model has an updated node, and the default timeout.
  pub record Surroundings : Type 0 where
    pub accepts_add_remove_flow_updates : Option Bool
    pub answer : FlowMessage → Option Arrival
    pub update : FlowDevice → Result Bool
    pub default_timeout : ℕ

  -- A response that is done from the start.
  abbrev pub done_at_once : Option Arrival
  done_at_once = some (record { time = 0; error_of = none })

  abbrev pub stored :
      Result Bool → FlowDevice → Option Arrival → FlowAgent → FlowAgent × Result (Option Arrival)
  stored (err c) d response a = (a, err internal)
  stored (ok false) d response a = (a, err internal)
  stored (ok true) d response a = (record a { device = d }, ok response)

  -- The message is on its way before the device is stored.
  unfoldable pub send_and_store :
      Surroundings → FlowMessage → FlowDevice → FlowAgent → FlowAgent × Result (Option Arrival)
  send_and_store E message d a =
      stored (E.update d) d (E.answer message) (record a { sent = message ∷ a.sent })

  unfoldable pub flows_to_update_to_delete : List U.Flow → List U.Flow → Update U.Flow
  flows_to_update_to_delete = to_update_to_delete U.flow_finder

  unfoldable pub groups_to_update_to_delete : List U.Group → List U.Group → Update U.Group
  groups_to_update_to_delete = to_update_to_delete U.group_finder

  -- `len(items) != 0 && reflect.DeepEqual(existing.Items, items)` for the groups and for the flows.
  unfoldable pub is_unchanged : FlowDevice → List U.Flow → List U.Group → Bool
  is_unchanged d flows groups =
      not (is_empty groups)
      && U.deep_equal_groups d.groups groups
      && not (is_empty flows)
      && U.deep_equal_flows d.flows flows

  abbrev pub add_to :
      Surroundings
      → Option U.Metadata
      → FlowAgent
      → Update U.Flow
      → Update U.Group
      → Option Bool
      → FlowAgent × Result (Option Arrival)
  add_to E metadata a f g none = (a, err failed_precondition)
  add_to E metadata a f g (some false) =
      if is_unchanged a.device f.updated_all g.updated_all
      then (a, ok done_at_once)
      else send_and_store E (update_flows_bulk a.device f.updated_all g.updated_all metadata)
          (record (a.device) { flows = f.updated_all; groups = g.updated_all }) a
  add_to E metadata a f g (some true) =
      send_and_store E
        (update_flows_incremental a.device f.updated_new f.to_delete g.updated_new g.to_delete []
          metadata)
        (record (a.device) { flows = f.updated_all; groups = g.updated_all }) a

  unfoldable pub add_flows_and_groups_to_adapter :
      Surroundings
      → List U.Flow
      → List U.Group
      → Option U.Metadata
      → FlowAgent
      → FlowAgent × Result (Option Arrival)
  add_flows_and_groups_to_adapter E new_flows new_groups metadata a =
      let f = flows_to_update_to_delete new_flows a.device.flows in
      let g = groups_to_update_to_delete new_groups a.device.groups in
      if is_empty new_flows && is_empty new_groups
      then (a, ok done_at_once)
      else if is_empty f.updated_all
          && is_empty f.to_delete
          && is_empty g.updated_all
          && is_empty g.to_delete
      then (a, ok done_at_once)
      else add_to E metadata a f g E.accepts_add_remove_flow_updates

  abbrev pub delete_from :
      Surroundings
      → List U.Flow
      → List U.Group
      → Option U.Metadata
      → FlowAgent
      → List U.Flow
      → List U.Group
      → Option Bool
      → FlowAgent × Result (Option Arrival)
  delete_from E flows_to_del groups_to_del metadata a flows groups none =
      (a, err failed_precondition)
  delete_from E flows_to_del groups_to_del metadata a flows groups (some false) =
      if is_unchanged a.device flows groups
      then (a, ok done_at_once)
      else send_and_store E (update_flows_bulk a.device flows groups metadata)
          (record (a.device) { flows = flows; groups = groups }) a
  delete_from E flows_to_del groups_to_del metadata a flows groups (some true) =
      send_and_store E
        (update_flows_incremental a.device [] flows_to_del [] groups_to_del [] metadata)
        (record (a.device) { flows = flows; groups = groups }) a

  unfoldable pub delete_flows_and_groups_from_adapter :
      Surroundings
      → List U.Flow
      → List U.Group
      → Option U.Metadata
      → FlowAgent
      → FlowAgent × Result (Option Arrival)
  delete_flows_and_groups_from_adapter E flows_to_del groups_to_del metadata a =
      let flows_to_keep = unmatched U.flow_finder flows_to_del a.device.flows in
      let groups_to_keep = unmatched U.group_finder groups_to_del a.device.groups in
      if is_empty flows_to_del && is_empty groups_to_del
      then (a, ok done_at_once)
      else if is_empty flows_to_keep
          && is_empty flows_to_del
          && is_empty groups_to_keep
          && is_empty groups_to_del
      then (a, ok done_at_once)
      else delete_from E flows_to_del groups_to_del metadata a flows_to_keep groups_to_keep
          E.accepts_add_remove_flow_updates

  abbrev pub update_on :
      Surroundings
      → List U.Flow
      → List U.Group
      → Option U.Metadata
      → FlowAgent
      → Option Bool
      → FlowAgent × Result (Option Arrival)
  update_on E flows groups metadata a none = (a, err failed_precondition)
  update_on E flows groups metadata a (some false) =
      send_and_store E (update_flows_bulk a.device flows groups none)
        (record (a.device) { flows = flows; groups = groups }) a
  update_on E flows groups metadata a (some true) =
      let flows_to_add = unmatched U.flow_finder a.device.flows flows in
      let flows_to_delete = matched U.flow_finder flows a.device.flows in
      let groups_to_add = unmatched U.group_finder a.device.groups groups in
      let groups_to_delete = matched U.group_finder groups a.device.groups in
      if is_empty flows_to_add
        && is_empty flows_to_delete
        && is_empty groups_to_add
        && is_empty groups_to_delete
        && is_empty groups
      then (a, ok done_at_once)
      else send_and_store E
          (update_flows_incremental a.device flows_to_add flows_to_delete groups_to_add
            groups_to_delete groups metadata)
          (record (a.device) { flows = flows; groups = groups }) a

  unfoldable pub update_flows_and_groups_to_adapter :
      Surroundings
      → List U.Flow
      → List U.Group
      → Option U.Metadata
      → FlowAgent
      → FlowAgent × Result (Option Arrival)
  update_flows_and_groups_to_adapter E flows groups metadata a =
      if is_empty flows && is_empty groups
      then (a, ok done_at_once)
      else if is_unchanged a.device flows groups
      then (a, ok done_at_once)
      else update_on E flows groups metadata a E.accepts_add_remove_flow_updates

  -- The wait for the adapter's answer.
  abbrev pub waited : Surroundings → FlowAgent × Result (Option Arrival) → FlowAgent × Option Code
  waited E (a, err c) = (a, some c)
  waited E (a, ok response) = (
    a,
    elim (wait_for_nil_or_error_responses E.default_timeout (response ∷ [])) [
      | none ↦ none
      | some errors ↦ some aborted
    ],
  )

  unfoldable pub add_flows_and_groups :
      Surroundings
      → List U.Flow
      → List U.Group
      → Option U.Metadata
      → FlowAgent
      → FlowAgent × Option Code
  add_flows_and_groups E flows groups metadata a =
      waited E (add_flows_and_groups_to_adapter E flows groups metadata a)

  unfoldable pub delete_flows_and_groups :
      Surroundings
      → List U.Flow
      → List U.Group
      → Option U.Metadata
      → FlowAgent
      → FlowAgent × Option Code
  delete_flows_and_groups E flows groups metadata a =
      waited E (delete_flows_and_groups_from_adapter E flows groups metadata a)

  unfoldable pub update_flows_and_groups :
      Surroundings
      → List U.Flow
      → List U.Group
      → Option U.Metadata
      → FlowAgent
      → FlowAgent × Option Code
  update_flows_and_groups E flows groups metadata a =
      waited E (update_flows_and_groups_to_adapter E flows groups metadata a)

  pub data FlowRequest : Type 0 where
    add delete update : List U.Flow → List U.Group → Option U.Metadata → FlowRequest

  unfoldable pub serve : Surroundings → FlowRequest → FlowAgent → FlowAgent × Option Code
  serve E (add flows groups metadata) a = add_flows_and_groups E flows groups metadata a
  serve E (delete flows groups metadata) a = delete_flows_and_groups E flows groups metadata a
  serve E (update flows groups metadata) a = update_flows_and_groups E flows groups metadata a
