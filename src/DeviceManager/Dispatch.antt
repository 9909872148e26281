-- ===== src/DeviceManager/Dispatch.antt =====
-- rw_core/core/device_manager.go: the requests that the manager passes on to one agent.
use vol_2619_voltha_go.Prelude.{
  ℕ, String, Bool, true, false, Option, none, some, List, [], ◌∷◌, if◌then◌else◌, insert,
  string_key,
}
use vol_2619_voltha_go.Status.{
  Code, not_found, unimplemented, ok, err, Run, returned, panicked, and_then,
}
use vol_2619_voltha_go.Transitions.{OperStatus, ConnectStatus}
use vol_2619_voltha_go.Route.{PeerPort}
use vol_2619_voltha_go.DeviceAgent.{Port}
use vol_2619_voltha_go.DeviceManager.{
  ManagedDevice, ManagedAgent, DeviceManager, AgentCall, enable, disable, reboot, remove,
  remove_all_ports, enable_adminstate, put_port, put_peer_port, remove_peer_ports, put_status,
  put_ports_state, put_port_state, put_parent_id, put_reason, Surroundings, get_device_agent,
  get_device,
}

-- A request of the agent of a device that is in the map.
abbrev pub called :
    String
    → ManagedAgent
    → ManagedDevice × Option Code
    → DeviceManager
    → DeviceManager × Option Code
called id a (d, e) m =
    (record m { device_agents = insert id (record a { device = d }) m.device_agents }, e)

abbrev pub call_if_found :
    Surroundings
    → AgentCall
    → String
    → DeviceManager × Option ManagedAgent
    → DeviceManager × Option Code
call_if_found E c id (m, none) = (m, some not_found)
call_if_found E c id (m, some a) = called id a (E.agent_call c a.device) m

unfoldable pub on_agent :
    Surroundings → AgentCall → String → DeviceManager → Run (DeviceManager × Option Code)
on_agent E c id m = and_then (get_device_agent E id m) (λ r. returned (call_if_found E c id r))

-- Two steps, the second one unless the first one fails or panics.
infixl 10 ◌▹◌
unfoldable pub ◌▹◌ :
    Run (DeviceManager × Option Code)
    → (DeviceManager → Run (DeviceManager × Option Code))
    → Run (DeviceManager × Option Code)
panicked ▹ f = panicked
(returned (m, none)) ▹ f = f m
(returned (m, some c)) ▹ f = returned (m, some c)

abbrev pub is_settable : OperStatus → Bool
is_settable OperStatus.active = true
is_settable OperStatus.unknown = true
is_settable _ = false

module _ (E : Surroundings) where
  unfoldable pub enable_device : String → DeviceManager → Run (DeviceManager × Option Code)
  enable_device = on_agent E enable

  unfoldable pub disable_device : String → DeviceManager → Run (DeviceManager × Option Code)
  disable_device = on_agent E disable

  unfoldable pub reboot_device : String → DeviceManager → Run (DeviceManager × Option Code)
  reboot_device = on_agent E reboot

  unfoldable pub delete_device : String → DeviceManager → Run (DeviceManager × Option Code)
  delete_device = on_agent E remove

  unfoldable pub update_device_status :
      String → OperStatus → ConnectStatus → DeviceManager → Run (DeviceManager × Option Code)
  update_device_status id oper conn = on_agent E (put_status oper conn) id

  unfoldable pub update_device_reason :
      String → String → DeviceManager → Run (DeviceManager × Option Code)
  update_device_reason id reason = on_agent E (put_reason reason) id

  unfoldable pub set_parent_id : String → String → DeviceManager → Run (DeviceManager × Option Code)
  set_parent_id id parent_id = on_agent E (put_parent_id parent_id) id

  unfoldable pub delete_peer_ports :
      String → String → DeviceManager → Run (DeviceManager × Option Code)
  delete_peer_ports from_id id = on_agent E (remove_peer_ports id) from_id

  unfoldable pub set_admin_state_to_enable :
      String → DeviceManager → Run (DeviceManager × Option Code)
  set_admin_state_to_enable = on_agent E enable_adminstate

  -- The look at the device after a change, for the notice to its logical device.
  abbrev pub notify : String → DeviceManager → Run (DeviceManager × Option Code)
  notify id m =
      and_then (get_device E id m) (λ (n, r). returned (n, elim r [ err c ↦ some c | ok d ↦ none ]))

  -- The loop over the peers of a port; a peer that is not found is left out.
  unfoldable pub add_to_peers :
      PeerPort → List PeerPort → DeviceManager → Run (DeviceManager × Option Code)
  add_to_peers me [] m = returned (m, none)
  add_to_peers me (p ∷ ps) m =
      (and_then (get_device_agent E p.device_id m) (λ (n, o). returned (elim o [
        | none ↦ (n, none)
        | some a ↦ called p.device_id a (E.agent_call (put_peer_port me) a.device) n
      ])))
      ▹ add_to_peers me ps

  unfoldable pub add_port : String → Port → DeviceManager → Run (DeviceManager × Option Code)
  add_port id port m =
      on_agent E (put_port port) id m
      ▹ add_to_peers (record { device_id = id; port_no = port.port_no }) port.peers
      ▹ notify id

  unfoldable pub delete_all_ports : String → DeviceManager → Run (DeviceManager × Option Code)
  delete_all_ports id m = on_agent E remove_all_ports id m ▹ notify id

  -- The result of the agent is followed by the error that the device is not found.
  unfoldable pub update_port_state :
      String
      → (port_type port_no : ℕ) → OperStatus
      → DeviceManager
      → Run (DeviceManager × Option Code)
  update_port_state id port_type port_no oper m =
      on_agent E (put_port_state port_type port_no oper) id m ▹ (λ n. returned (n, some not_found))

  -- `logical` is the error of the logical device manager.
  unfoldable pub update_ports_state :
      Option Code → String → OperStatus → DeviceManager → Run (DeviceManager × Option Code)
  update_ports_state logical id oper m =
      let set = on_agent E (put_ports_state oper) id m ▹ notify id ▹ (λ n. returned (n, logical)) in
      if is_settable oper
      then set
      else and_then (get_device_agent E id m)
          (λ (n, o). returned (n, elim o [ none ↦ some not_found | some a ↦ some unimplemented ]))
