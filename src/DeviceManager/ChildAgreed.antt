-- ===== src/DeviceManager/ChildAgreed.antt =====
-- The look for a child and the detection of one keep the two maps of the device manager in agreement
-- (rw_core/core/device_manager.go).
use vol_2619_voltha_go.Prelude.{
  ℕ, String, str_eq, Bool, true, false, Option, none, some, List, [], ◌∷◌, if◌then◌else◌,
}
use vol_2619_voltha_go.Status.{
  Code, not_found, Result, ok, err, Run, returned, panicked, and_then-IfReturns,
}
use vol_2619_voltha_go.DeviceManager.{
  ManagedDevice, DeviceManager, enable, Surroundings, get_device, get_all_child_device_ids,
}
use vol_2619_voltha_go.DeviceManager.Agreement.{Agree, add-Agree, Keeps, get_device-Agree}
use vol_2619_voltha_go.DeviceManager.Children.{
  is_child, found_child, find_child, children_searched, get_child_device,
}
use vol_2619_voltha_go.DeviceManager.Agreed.{with_agent, called-Agree}
use vol_2619_voltha_go.DeviceManager.Detection.{
  VendorType, Detected, Answer, detected_type, child_device, activated, child_started,
  with_new_child, with_parent, with_type, child_device_detected,
}

module _ (E : Surroundings) where
  find_child-Agree :
      (p : ManagedDevice → Bool) (ids : List String) (m : DeviceManager)
      → Agree m
      → Keeps (find_child E p ids m)
  unfolding find_child
  find_child-Agree p [] m h = h
  find_child-Agree p (id ∷ ids) m h =
      and_then-IfReturns (λ q. Agree q.0) (λ q. Agree q.0) (get_device E id m) _
        (get_device-Agree E id m h) (λ (n, r) k. at n r k (find_child-Agree p ids n k))
    where
      at :
          (n : DeviceManager) (r : Result ManagedDevice)
          → Agree n
          → Keeps (find_child E p ids n)
          → Keeps (found_child E p r (find_child E p ids n) n)
      at n (err c) k rec = rec
      at n (ok d) k rec = choose (p d)
        where
          choose : (b : Bool) → Keeps (if b then returned (n, ok d) else find_child E p ids n)
          choose true = k
          choose false = rec

  pub get_child_device-Agree :
      (id serial : String) (onu_id port_no : ℕ) (m : DeviceManager)
      → Agree m
      → Keeps (get_child_device E id serial onu_id port_no m)
  unfolding get_child_device
  get_child_device-Agree id serial onu_id port_no m h =
      at (get_device E id m) (get_device-Agree E id m h)
    where
      at :
          (r : Run (DeviceManager × Result ManagedDevice))
          → Keeps r
          → Keeps (children_searched E (is_child E serial onu_id port_no) r)
      at panicked k = tt
      at (returned (n, err c)) k = k
      at (returned (n, ok d)) k =
          find_child-Agree (is_child E serial onu_id port_no) (get_all_child_device_ids d) n k

  activated-Agree :
      (d : ManagedDevice) (c : Option Code) (m : DeviceManager)
      → Agree m
      → Keeps (child_started E d c m)
  activated-Agree d (some c) m h = h
  activated-Agree d none m h =
      with_agent E d.id (record m { claimed = d.id ∷ m.claimed }) (activated E d) h (λ n k. tt)
        (λ n a k. called-Agree E d.id a (E.agent_call enable a.device) n k)

  with_new_child-Agree :
      (d : ManagedDevice) (r : Run (DeviceManager × Result ManagedDevice))
      → Keeps r
      → Keeps (with_new_child E d r)
  with_new_child-Agree d panicked h = tt
  with_new_child-Agree d (returned (m, ok found)) h = h
  with_new_child-Agree d (returned (m, err c)) h =
      activated-Agree d (E.start_new d) _ (add-Agree d.id _ m h)

  with_parent-Agree :
      (new : Detected) (r : Run (DeviceManager × Result ManagedDevice))
      → Keeps r
      → Keeps (with_parent E new r)
  with_parent-Agree new panicked h = tt
  with_parent-Agree new (returned (m, err c)) h = h
  with_parent-Agree new (returned (m, ok parent)) h =
      with_new_child-Agree (child_device E new)
        (get_child_device E new.parent_id new.serial_number new.onu_id new.parent_port_no m)
        (get_child_device-Agree new.parent_id new.serial_number new.onu_id new.parent_port_no m h)

  with_type-Agree :
      (new : Detected) (m : DeviceManager) (r : Result String)
      → Agree m
      → Keeps (with_type E new m r)
  with_type-Agree new m (err c) h = h
  with_type-Agree new m (ok t) h = at (str_eq t "")
    where
      at :
          (b : Bool)
          → Keeps (
              if◌then◌else◌ {A = Run (DeviceManager × Answer)} b
                (returned (m, (none, some not_found)))
                (with_parent E new (get_device E new.parent_id m)))
      at true = h
      at false =
          with_parent-Agree new (get_device E new.parent_id m)
            (get_device-Agree E new.parent_id m h)

  pub child_device_detected-Agree :
      (types : Result (List VendorType)) (new : Detected) (m : DeviceManager)
      → Agree m
      → Keeps (child_device_detected E types new m)
  unfolding child_device_detected
  child_device_detected-Agree types new m h = with_type-Agree new m (detected_type types new) h
