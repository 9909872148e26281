-- ===== src/DeviceManager/Served.antt =====
-- Each request of the device manager keeps its two maps in agreement
-- (rw_core/core/device_manager.go).
use vol_2619_voltha_go.Prelude.{
  ℕ, suc, String, str_eq, Bool, true, false, Option, none, some, List, [], ◌∷◌, ◌&&◌, ◌==◌, not,
  length, is_empty, if◌then◌else◌,
}
use vol_2619_voltha_go.Status.{
  Code, invalid_argument, other, Result, ok, err, Run, returned, panicked, and_then, IfReturns,
  and_then-IfReturns,
}
use vol_2619_voltha_go.Transitions.{preprovisioned}
use vol_2619_voltha_go.DeviceManager.{
  ManagedDevice, ManagedAgent, DeviceManager, put_port_state, remove_all_ports, Surroundings,
  add_device_agent_to_map, is_device_in_cache, is_root_device, agent_id, started, load, levels,
}
use vol_2619_voltha_go.DeviceManager.Agreement.{
  Agree, add-Agree, delete-Agree, started-Agree, Keeps, IfLoaded, load-Agree, get_device-Agree,
}
use vol_2619_voltha_go.DeviceManager.Lifecycle.{
  create_with, create_device, stop_logical, stop_managing_device, set_up_all, listed, list_devices,
  reconciled_with, reconcile_all, reconcile_devices, is_parent_device_exist,
}
use vol_2619_voltha_go.DeviceManager.Dispatch.{notify, delete_all_ports, update_port_state}
use vol_2619_voltha_go.DeviceManager.Children.{
  disable_all_child_devices, delete_all_child_devices, child_devices_lost, child_devices_detected,
  update_children_status,
}
use vol_2619_voltha_go.DeviceManager.ChildAgreed.{
  get_child_device-Agree, child_device_detected-Agree,
}
use vol_2619_voltha_go.DeviceManager.Requests.{
  ManagerRequest, call, create, stop_managing, list, reconcile, get, join_port, drop_ports,
  set_port, set_ports, disable_children, delete_children, children_lost, children_detected,
  set_children, get_child, detect, state, serve,
}
use vol_2619_voltha_go.DeviceManager.Agreed.{
  on_agent-Agree, then-Agree, notify-Agree, add_port-Agree, update_ports_state-Agree,
  call_all-Agree, with_device-Agree, enable_all-Agree, update_each_status-Agree,
}

module _ (E : Surroundings) where
  create-Agree :
      (d : ManagedDevice) (r : Result (List ManagedDevice)) (m : DeviceManager)
      → Agree m
      → Agree (create_with E d r m).0
  create-Agree d (err c) m h = h
  create-Agree d (ok ds) m h = at (is_parent_device_exist d ds)
    where
      new : ManagedAgent
      new = record {
        device = record d { root = true; id = agent_id E d; admin_state = preprovisioned };
        is_root_device = true;
      }

      at :
          (b : Bool)
          → Agree
              (if◌then◌else◌ {A = DeviceManager × Option Code} b
                (m, some other)
                (add_device_agent_to_map (agent_id E d) new m, E.start_new (new.device))).0
      at true = h
      at false = add-Agree (agent_id E d) new m h

  if-Agree : (b : Bool) (m n : DeviceManager) → Agree m → Agree n → Agree (if b then m else n)
  if-Agree true m n h k = h
  if-Agree false m n h k = k

  set_up_all-Agree :
      (ds : List ManagedDevice) (m : DeviceManager) → Agree m → IfReturns Agree (set_up_all E ds m)
  unfolding set_up_all
  set_up_all-Agree [] m h = h
  set_up_all-Agree (d ∷ ds) m h =
      and_then-IfReturns Agree Agree _ (set_up_all E ds) (at (is_device_in_cache d.id m))
        (set_up_all-Agree ds)
    where
      at :
          (b : Bool)
          → IfReturns Agree
              (if b then returned m else started E d (E.start_existing (agent_id E d)) m)
      at true = h
      at false = started-Agree E d (E.start_existing (agent_id E d)) m h

  listed-Agree :
      (r : Result (List ManagedDevice)) (m : DeviceManager) → Agree m → Keeps (listed E r m)
  listed-Agree (err c) m h = h
  listed-Agree (ok ds) m h =
      and_then-IfReturns Agree (λ p. Agree p.0) (set_up_all E ds m) _ (set_up_all-Agree ds m h)
        (λ n k. k)

  reconcile_all-Agree :
      (ids : List String) (m : DeviceManager) (n : ℕ) → Agree m → Keeps (reconcile_all E ids m n)
  unfolding reconcile_all
  reconcile_all-Agree [] m n h = h
  reconcile_all-Agree (id ∷ ids) m n h =
      at (load E levels id m) (load-Agree E levels id m h) (reconcile_all-Agree ids)
    where
      at :
          (r : Option (Run (DeviceManager × Option Code)))
          → IfLoaded r
          → ((m : DeviceManager) (n : ℕ) → Agree m → Keeps (reconcile_all E ids m n))
          → Keeps (reconciled_with (reconcile_all E ids) n r)
      at none k rec = tt
      at (some panicked) k rec = tt
      at (some (returned (l, none))) k rec = rec l (suc n) k
      at (some (returned (l, some c))) k rec = rec l n k

  reconcile_devices-Agree :
      (ids : List String) (m : DeviceManager) → Agree m → Keeps (reconcile_devices E ids m)
  unfolding reconcile_devices
  reconcile_devices-Agree ids m h = at (is_empty ids)
    where
      at :
          (b : Bool)
          → Keeps (
              if b
              then returned (m, some invalid_argument)
              else and_then (reconcile_all E ids m 0) (λ (l, reconciled).
                returned (l, if length ids == reconciled then none else some other)))
      at true = h
      at false =
          and_then-IfReturns (λ p. Agree p.0) (λ p. Agree p.0) (reconcile_all E ids m 0) _
            (reconcile_all-Agree ids m 0 h) (λ p k. k)

  stop_managing-Agree :
      (id : String) (m : DeviceManager) → Agree m → Agree (stop_managing_device E id m)
  unfolding stop_managing_device
  stop_managing-Agree id m h =
      if-Agree (is_device_in_cache id m) _ m
        (delete-Agree id (stop_logical E id m)
          (if-Agree (is_root_device id m && not (str_eq (E.stop_logical_device id) "")) _ m h h))
        h

  state-Agree : {A : Type 0} (r : Run (DeviceManager × A)) → Keeps r → IfReturns Agree (state r)
  state-Agree (returned p) h = h
  state-Agree panicked h = tt

  -- When the map of the agents and the map of the root devices have the same identifiers, they
  -- still have after each of these requests that does not panic, whatever the data model, the
  -- agents and the logical devices answer: a call of one agent, the creation, the list, the
  -- reconciliation by identifiers and the end of devices, the look for a device or a child, the
  -- additions, deletions and states of ports, the requests on all children of a device, and the
  -- detection of a child device.
  pub serve-Agree :
      (r : ManagerRequest) (m : DeviceManager) → Agree m → IfReturns Agree (serve E r m)
  unfolding serve create_device list_devices delete_all_ports update_port_state
      disable_all_child_devices delete_all_child_devices child_devices_lost child_devices_detected
      update_children_status
  serve-Agree (call c id) m h = state-Agree _ (on_agent-Agree E c id m h)
  serve-Agree (create d) m h = create-Agree d E.list_nodes m h
  serve-Agree (stop_managing id) m h = stop_managing-Agree id m h
  serve-Agree list m h = state-Agree _ (listed-Agree E.list_nodes m h)
  serve-Agree (reconcile ids) m h = state-Agree _ (reconcile_devices-Agree ids m h)
  serve-Agree (get id) m h = state-Agree _ (get_device-Agree E id m h)
  serve-Agree (join_port id port) m h = state-Agree _ (add_port-Agree E id port m h)
  serve-Agree (drop_ports id) m h =
      state-Agree _ (
        then-Agree E _ (notify E id) (on_agent-Agree E remove_all_ports id m h) (notify-Agree E id))
  serve-Agree (set_port id t n oper) m h =
      state-Agree _
        (then-Agree E _ _ (on_agent-Agree E (put_port_state t n oper) id m h) (λ l k. k))
  serve-Agree (set_ports logical id oper) m h =
      state-Agree _ (update_ports_state-Agree E logical id oper m h)
  serve-Agree (disable_children d) m h = state-Agree _ (call_all-Agree E _ _ _ h)
  serve-Agree (delete_children d) m h = state-Agree _ (call_all-Agree E _ _ _ h)
  serve-Agree (children_lost id) m h =
      state-Agree _ (with_device-Agree E _ id m _ h (λ d n k. call_all-Agree E _ _ _ k))
  serve-Agree (children_detected id) m h =
      state-Agree _ (with_device-Agree E _ id m _ h (λ d n k. enable_all-Agree E _ _ k))
  serve-Agree (set_children id oper conn) m h =
      state-Agree _
        (with_device-Agree E _ id m _ h (λ d n k. update_each_status-Agree E oper conn _ n k))
  serve-Agree (get_child id serial onu_id port_no) m h =
      state-Agree _ (get_child_device-Agree E id serial onu_id port_no m h)
  serve-Agree (detect types new) m h = state-Agree _ (child_device_detected-Agree E types new m h)
