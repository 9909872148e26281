-- ===== src/DeviceManager/Children.antt =====
-- rw_core/core/device_manager.go: the requests on the children of a device.
use vol_2619_voltha_go.Prelude.{
  ℕ, String, str_eq, Bool, true, false, Option, none, some, List, [], ◌∷◌, ◌&&◌, ◌||◌, ◌==◌, not,
  ltb, if◌then◌else◌, string_key,
}
use vol_2619_voltha_go.Status.{
  Code, aborted, not_found, unavailable, Result, ok, err, Run, returned, panicked, and_then,
}
use vol_2619_voltha_go.Transitions.{OperStatus, ConnectStatus, preprovisioned, deleted, same_admin}
use vol_2619_voltha_go.DeviceManager.{
  ManagedDevice, ManagedAgent, DeviceManager, AgentCall, enable, disable, remove, put_status,
  Surroundings, get_device_agent, get_device, get_all_child_device_ids,
}
use vol_2619_voltha_go.DeviceManager.Dispatch.{called, ◌▹◌}

-- The variables of the loop over the children: the last error, which a request that succeeds sets back
-- to none, and whether all have succeeded.
pub record Outcome : Type 0 where
  pub last : Option Code
  pub all_done : Bool

abbrev pub noted : Outcome → DeviceManager × Option Code → DeviceManager × Outcome
noted o (m, none) = (m, record o { last = none })
noted o (m, some c) = (m, record { last = some c; all_done = false })

abbrev pub child_called :
    Surroundings
    → AgentCall
    → String
    → Outcome
    → DeviceManager × Option ManagedAgent
    → DeviceManager × Outcome
child_called E c id o (m, none) = (m, o)
child_called E c id o (m, some a) = noted o (called id a (E.agent_call c a.device) m)

abbrev pub answered : DeviceManager × Outcome → Run (DeviceManager × Option Code)
answered (m, o) = returned (m, if o.all_done then none else o.last)

module _ (E : Surroundings) where
  -- A request to each of the children that has an agent.
  unfoldable pub call_all :
      AgentCall → List String → DeviceManager × Outcome → Run (DeviceManager × Option Code)
  call_all c [] s = answered s
  call_all c (id ∷ ids) s =
      and_then (get_device_agent E id s.0) (λ r. call_all c ids (child_called E c id s.1 r))

  abbrev pub at_start : Outcome
  at_start = record { last = none; all_done = true }

  unfoldable pub disable_all_child_devices :
      ManagedDevice → DeviceManager → Run (DeviceManager × Option Code)
  disable_all_child_devices d m = call_all disable (get_all_child_device_ids d) (m, at_start)

  unfoldable pub delete_all_child_devices :
      ManagedDevice → DeviceManager → Run (DeviceManager × Option Code)
  delete_all_child_devices d m = call_all remove (get_all_child_device_ids d) (m, at_start)

  -- What is done with a device that is found.
  abbrev pub with_device :
      (Code → Code)
      → Run (DeviceManager × Result ManagedDevice)
      → (ManagedDevice → DeviceManager → Run (DeviceManager × Option Code))
      → Run (DeviceManager × Option Code)
  with_device wrap panicked f = panicked
  with_device wrap (returned (m, err c)) f = returned (m, some (wrap c))
  with_device wrap (returned (m, ok d)) f = f d m

  unfoldable pub child_devices_lost : String → DeviceManager → Run (DeviceManager × Option Code)
  child_devices_lost id m = with_device (λ c. c) (get_device E id m) disable_all_child_devices

  -- Each child is enabled in a routine of its own. The routine's write to the variable of the error,
  -- which races with the return, is left out.
  abbrev pub child_enabled :
      String → Option Code → DeviceManager × Option ManagedAgent → DeviceManager × Option Code
  child_enabled id last (m, none) = (m, some unavailable)
  child_enabled id last (m, some a) = ((called id a (E.agent_call enable a.device) m).0, last)

  unfoldable pub enable_all :
      List String → DeviceManager × Option Code → Run (DeviceManager × Option Code)
  enable_all [] (m, last) = returned (m, last)
  enable_all (id ∷ ids) (m, last) =
      and_then (get_device_agent E id m) (λ r. enable_all ids (child_enabled id last r))

  unfoldable pub child_devices_detected : String → DeviceManager → Run (DeviceManager × Option Code)
  child_devices_detected id m =
      with_device (λ c. c) (get_device E id m)
        (λ d n. enable_all (get_all_child_device_ids d) (n, none))

  -- The loop that ends at the first error.
  unfoldable pub update_each_status :
      OperStatus → ConnectStatus → List String → DeviceManager → Run (DeviceManager × Option Code)
  update_each_status oper conn [] m = returned (m, none)
  update_each_status oper conn (id ∷ ids) m =
      and_then (get_device_agent E id m) (λ (n, o). returned (elim o [
        | none ↦ (n, none)
        | some a ↦
            let (l, e) = called id a (E.agent_call (put_status oper conn) a.device) n in
            (l, elim e [ none ↦ none | some c ↦ some aborted ])
      ]))
      ▹ update_each_status oper conn ids

  unfoldable pub update_children_status :
      String → OperStatus → ConnectStatus → DeviceManager → Run (DeviceManager × Option Code)
  update_children_status id oper conn m =
      with_device (λ c. aborted) (get_device E id m)
        (λ d n. update_each_status oper conn (get_all_child_device_ids d) n)

  -- Whether a child is the one that is asked for; a number of an ONU that is not positive, or an empty
  -- serial number, is not provided.
  unfoldable pub is_child : String → (onu_id parent_port_no : ℕ) → ManagedDevice → Bool
  is_child serial_number onu_id parent_port_no d =
      let found_onu_id = d.onu_id == onu_id && d.parent_port_no == parent_port_no in
      let found_serial_number = str_eq d.serial_number serial_number in
      if ltb 0 onu_id && not (str_eq serial_number "")
      then found_onu_id && found_serial_number
      else found_onu_id || found_serial_number

  abbrev pub found_child :
      (ManagedDevice → Bool)
      → Result ManagedDevice
      → Run (DeviceManager × Result ManagedDevice)
      → DeviceManager
      → Run (DeviceManager × Result ManagedDevice)
  found_child p (err c) rest m = rest
  found_child p (ok d) rest m = if p d then returned (m, ok d) else rest

  unfoldable pub find_child :
      (ManagedDevice → Bool)
      → List String
      → DeviceManager
      → Run (DeviceManager × Result ManagedDevice)
  find_child p [] m = returned (m, err not_found)
  find_child p (id ∷ ids) m =
      and_then (get_device E id m) (λ (n, r). found_child p r (find_child p ids n) n)

  abbrev pub children_searched :
      (ManagedDevice → Bool)
      → Run (DeviceManager × Result ManagedDevice)
      → Run (DeviceManager × Result ManagedDevice)
  children_searched p panicked = panicked
  children_searched p (returned (m, err c)) = returned (m, err aborted)
  children_searched p (returned (m, ok d)) = find_child p (get_all_child_device_ids d) m

  unfoldable pub get_child_device :
      String
      → String
      → (onu_id parent_port_no : ℕ) → DeviceManager
      → Run (DeviceManager × Result ManagedDevice)
  get_child_device parent_id serial_number onu_id parent_port_no m =
      children_searched (is_child serial_number onu_id parent_port_no) (get_device E parent_id m)

  unfoldable pub is_ok_to_reconcile : ManagedDevice → Bool
  is_ok_to_reconcile d =
      not (same_admin d.admin_state preprovisioned) && not (same_admin d.admin_state deleted)
