-- ===== src/DeviceManager.antt =====
-- rw_core/core/device_manager.go: the map of the device agents and the loading of devices into it.
-- DeviceManager.Lifecycle has the creation and the end of agents, DeviceManager.Dispatch the requests that
-- are passed on to an agent, DeviceManager.Children those on child devices and DeviceManager.Detection the
-- detection of a child. The data model, the device agents and the other managers are parameters. A
-- request is one step, so no load of a device is in progress when one starts.
pub mod Lifecycle
pub mod Dispatch
pub mod Children
pub mod Detection
pub mod Requests
pub mod Agreement
pub mod Agreed
pub mod ChildAgreed
pub mod Served
pub mod Answers
pub mod Loading
use vol_2619_voltha_go.Prelude.{
  ℕ, zero, suc, String, str_eq, Bool, true, false, Option, none, some, List, [], ◌∷◌, ◌++◌, ◌&&◌,
  ◌||◌, not, if◌then◌else◌, any, Map, lookup, insert, delete, string_key, map, is_some, is_empty,
}
use vol_2619_voltha_go.Status.{
  Code, aborted, invalid_argument, not_found, other, Result, ok, err, Run, returned, panicked,
  and_then,
}
use vol_2619_voltha_go.Transitions.{
  AdminState, OperStatus, ConnectStatus, preprovisioned, deleted, same_admin,
}
use vol_2619_voltha_go.Route.{PeerPort}
use vol_2619_voltha_go.DeviceAgent.{Port}

pub record ManagedDevice : Type 0 where
  pub id : String
  pub root : Bool
  pub parent_id : String
  pub parent_port_no : ℕ
  pub adapter : String
  pub admin_state : AdminState
  pub serial_number : String
  pub onu_id : ℕ
  pub host_and_port : String
  pub mac_address : String
  pub ports : List Port

-- An agent, by its device.
pub record ManagedAgent : Type 0 where
  pub device : ManagedDevice
  pub is_root_device : Bool

-- The manager, with the identifiers that it has claimed and abandoned, the last one first.
pub record DeviceManager : Type 0 where
  pub device_agents : Map String ManagedAgent
  pub root_devices : Map String Bool
  pub claimed : List String
  pub abandoned : List String

-- The requests of a device agent.
pub data AgentCall : Type 0 where
  enable disable reboot remove remove_all_ports enable_adminstate : AgentCall
  put_port : Port → AgentCall
  put_peer_port : PeerPort → AgentCall
  remove_peer_ports : String → AgentCall
  put_status : OperStatus → ConnectStatus → AgentCall
  put_ports_state : OperStatus → AgentCall
  put_port_state : (port_type port_no : ℕ) → OperStatus → AgentCall
  put_parent_id : String → AgentCall
  put_reason : String → AgentCall

-- The device of the data model and all of them, the device that an agent loads when it starts, the error
-- of the start for a new device, a fresh identifier, what a request of an agent makes of its device and
-- its error, and the logical device that is stopped for a device, empty for none.
pub record Surroundings : Type 0 where
  pub get_node : String → Result (Option ManagedDevice)
  pub list_nodes : Result (List ManagedDevice)
  pub start_existing : String → Result ManagedDevice
  pub start_new : ManagedDevice → Option Code
  pub fresh_device_id : String
  pub agent_call : AgentCall → ManagedDevice → ManagedDevice × Option Code
  pub stop_logical_device : String → String

unfoldable pub add_device_agent_to_map : String → ManagedAgent → DeviceManager → DeviceManager
add_device_agent_to_map id agent m = record m {
  device_agents =
      if is_some (lookup id m.device_agents)
      then m.device_agents
      else insert id agent m.device_agents;
  root_devices = insert id agent.is_root_device m.root_devices;
}

unfoldable pub delete_device_agent_from_map : String → DeviceManager → DeviceManager
delete_device_agent_from_map id m = record m {
  device_agents = delete id m.device_agents;
  root_devices = delete id m.root_devices;
}

unfoldable pub is_device_in_cache : String → DeviceManager → Bool
is_device_in_cache id m = is_some (lookup id m.device_agents)

unfoldable pub is_root_device : String → DeviceManager → Bool
is_root_device id m = elim (lookup id m.root_devices) [ none ↦ false | some root ↦ root ]

abbrev pub or_not_found : Result (Option ManagedDevice) → Result ManagedDevice
or_not_found (err c) = err c
or_not_found (ok none) = err not_found
or_not_found (ok (some d)) = ok d

unfoldable pub get_device_from_model : Surroundings → String → Result ManagedDevice
get_device_from_model E id = or_not_found (E.get_node id)

abbrev pub agent_id : Surroundings → ManagedDevice → String
agent_id E d = if str_eq d.id "" then E.fresh_device_id else d.id

-- The agent that is made for the first device starts with the second one.
abbrev pub started :
    Surroundings → ManagedDevice → Result ManagedDevice → DeviceManager → Run DeviceManager
started E d (err c) m = panicked
started E d (ok loaded) m =
    returned (
      add_device_agent_to_map (agent_id E d) (record { device = loaded; is_root_device = d.root })
        m)

-- An agent that does not start has no proxy to the data model: its stop, which uses the proxy, panics.
abbrev pub load_from : Surroundings → Result ManagedDevice → DeviceManager → Run DeviceManager
load_from E (err c) m = returned m
load_from E (ok d) m = started E d (E.start_existing (agent_id E d)) m

-- The agent that the load leaves, or the error that there is none.
abbrev pub loaded_agent : String → DeviceManager → Result ManagedAgent
loaded_agent id m = elim (lookup id m.device_agents) [ none ↦ err aborted | some a ↦ ok a ]

unfoldable pub load_device :
    Surroundings → String → DeviceManager → Run (DeviceManager × Result ManagedAgent)
load_device E id m =
    if str_eq id ""
    then returned (m, err invalid_argument)
    else if is_device_in_cache id m
    then returned (m, loaded_agent id m)
    else and_then (load_from E (get_device_from_model E id) m)
        (λ n. returned (n, loaded_agent id n))

abbrev peer_ids : List PeerPort → List String
peer_ids ps = map (λ p. p.device_id) ps

unfoldable pub ids_of_peers : List Port → List String
ids_of_peers [] = []
ids_of_peers (p ∷ ps) = peer_ids p.peers ++ ids_of_peers ps

unfoldable pub get_all_child_device_ids : ManagedDevice → List String
get_all_child_device_ids d = ids_of_peers d.ports

-- The loop over the children, up to the first error.
unfoldable pub load_children :
    Surroundings → List String → DeviceManager → Run (DeviceManager × Option Code)
load_children E [] m = returned (m, none)
load_children E (id ∷ ids) m =
    and_then (load_device E id m)
      (λ (n, r). elim r [ err c ↦ returned (n, some c) | ok a ↦ load_children E ids n ])

-- The logical device of the device is loaded too, and an error of that is only logged.
unfoldable pub load_root_device_parent_and_children :
    Surroundings → ManagedDevice → DeviceManager → Run (DeviceManager × Option Code)
load_root_device_parent_and_children E d m =
    if d.root then load_children E (get_all_child_device_ids d) m else returned (m, none)

abbrev pub is_idle : ManagedDevice → Bool
is_idle d = same_admin d.admin_state preprovisioned || same_admin d.admin_state deleted

-- What follows on the load of a device, with the load of its parent.
abbrev pub load_relatives :
    Surroundings
    → (String → DeviceManager → Option (Run (DeviceManager × Option Code)))
    → ManagedDevice
    → DeviceManager
    → Option (Run (DeviceManager × Option Code))
load_relatives E load_parent d m =
    if is_idle d
    then some (returned (m, none))
    else if d.root
    then some (load_root_device_parent_and_children E d m)
    else if str_eq d.parent_id ""
    then some (returned (m, none))
    else load_parent d.parent_id m

abbrev pub load_rest :
    Surroundings
    → (String → DeviceManager → Option (Run (DeviceManager × Option Code)))
    → Run (DeviceManager × Result ManagedAgent)
    → Option (Run (DeviceManager × Option Code))
load_rest E load_parent panicked = some panicked
load_rest E load_parent (returned (m, err c)) = some (returned (m, some c))
load_rest E load_parent (returned (m, ok a)) = load_relatives E load_parent a.device m

-- None for a recursion that is deeper than the fuel.
unfoldable pub load :
    Surroundings → ℕ → String → DeviceManager → Option (Run (DeviceManager × Option Code))
load E zero id m = none
load E (suc fuel) id m = load_rest E (load E fuel) (load_device E id m)

-- A device without a parent, its parent: two levels.
abbrev pub levels : ℕ
levels = 2

abbrev pub claim_loaded : String → DeviceManager → DeviceManager × Option ManagedAgent
claim_loaded id m = elim (lookup id m.device_agents) [
  | none ↦ (m, none)
  | some a ↦ (record m { claimed = id ∷ m.claimed }, some a)
]

abbrev pub after_load :
    String
    → DeviceManager
    → Option (Run (DeviceManager × Option Code))
    → Run (DeviceManager × Option ManagedAgent)
after_load id m none = panicked
after_load id m (some panicked) = panicked
after_load id m (some (returned (n, some c))) = returned (n, none)
after_load id m (some (returned (n, none))) = returned (claim_loaded id n)

unfoldable pub get_device_agent :
    Surroundings → String → DeviceManager → Run (DeviceManager × Option ManagedAgent)
get_device_agent E id m = elim (lookup id m.device_agents) [
  | none ↦ after_load id m (load E levels id m)
  | some a ↦ returned (m, some a)
]

unfoldable pub get_device :
    Surroundings → String → DeviceManager → Run (DeviceManager × Result ManagedDevice)
get_device E id m =
    and_then (get_device_agent E id m)
      (λ (n, o). returned (n, elim o [ none ↦ err not_found | some a ↦ ok a.device ]))
