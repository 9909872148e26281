-- ===== src/DeviceManager/Agreed.antt =====
-- Every request of the device manager keeps its two maps in agreement
-- (rw_core/core/device_manager.go).
use vol_2619_voltha_go.Prelude.{
  String, Bool, true, false, Option, none, some, List, [], ◌∷◌, refl, if◌then◌else◌,
}
use vol_2619_voltha_go.Status.{
  Code, not_found, unimplemented, Result, ok, err, Run, returned, panicked, and_then,
  and_then-IfReturns,
}
use vol_2619_voltha_go.Transitions.{OperStatus, ConnectStatus}
use vol_2619_voltha_go.Route.{PeerPort}
use vol_2619_voltha_go.DeviceAgent.{Port}
use vol_2619_voltha_go.DeviceManager.{
  ManagedDevice, ManagedAgent, DeviceManager, AgentCall, enable, put_peer_port, put_status,
  put_ports_state, put_port, Surroundings, get_device_agent, get_device,
}
use vol_2619_voltha_go.DeviceManager.Agreement.{
  Agree, put-Agree, Keeps, Gives, get_device_agent-Gives, get_device-Agree,
}
use vol_2619_voltha_go.DeviceManager.Dispatch.{
  called, call_if_found, on_agent, ◌▹◌, notify, add_to_peers, add_port, update_ports_state,
  is_settable,
}
use vol_2619_voltha_go.DeviceManager.Children.{
  Outcome, noted, call_all, with_device, enable_all, update_each_status,
}

module _ (E : Surroundings) where
  pub called-Agree :
      (id : String) (a : ManagedAgent) (r : ManagedDevice × Option Code) (m : DeviceManager)
      → Gives id (m, some a)
      → Agree (called id a r m).0
  called-Agree id a r m h = put-Agree id (record a { device = r.0 }) m (h.1 refl) h.0

  -- What follows on the look for an agent.
  pub with_agent :
      {B : Type 0} (id : String) (m : DeviceManager)
      (f : DeviceManager × Option ManagedAgent → Run (DeviceManager × B))
      → Agree m
      → ((n : DeviceManager) → Agree n → Keeps (f (n, none)))
      → ((n : DeviceManager) (a : ManagedAgent) → Gives id (n, some a) → Keeps (f (n, some a)))
      → Keeps (and_then (get_device_agent E id m) f)
  with_agent id m f h absent present =
      and_then-IfReturns (Gives id) (λ p. Agree p.0) (get_device_agent E id m) f
        (get_device_agent-Gives E id m h) at
    where
      at : (p : DeviceManager × Option ManagedAgent) → Gives id p → Keeps (f p)
      at (n, none) k = absent n k.0
      at (n, some a) k = present n a k

  pub on_agent-Agree :
      (c : AgentCall) (id : String) (m : DeviceManager) → Agree m → Keeps (on_agent E c id m)
  unfolding on_agent
  on_agent-Agree c id m h =
      with_agent id m (λ r. returned (call_if_found E c id r)) h (λ n k. k)
        (λ n a k. called-Agree id a (E.agent_call c a.device) n k)

  pub then-Agree :
      (r : Run (DeviceManager × Option Code))
      (f : DeviceManager → Run (DeviceManager × Option Code))
      → Keeps r
      → ((n : DeviceManager) → Agree n → Keeps (f n))
      → Keeps (r ▹ f)
  unfolding ◌▹◌
  then-Agree panicked f h k = tt
  then-Agree (returned (m, none)) f h k = k m h
  then-Agree (returned (m, some c)) f h k = h

  pub notify-Agree : (id : String) (m : DeviceManager) → Agree m → Keeps (notify E id m)
  notify-Agree id m h =
      and_then-IfReturns (λ p. Agree p.0) (λ p. Agree p.0) (get_device E id m) _
        (get_device-Agree E id m h) (λ p k. k)

  add_to_peers-Agree :
      (me : PeerPort) (ps : List PeerPort) (m : DeviceManager)
      → Agree m
      → Keeps (add_to_peers E me ps m)
  unfolding add_to_peers
  add_to_peers-Agree me [] m h = h
  add_to_peers-Agree me (p ∷ ps) m h =
      then-Agree _ (add_to_peers E me ps)
        (with_agent p.device_id m _ h (λ n k. k)
          (λ n a k. called-Agree p.device_id a (E.agent_call (put_peer_port me) a.device) n k))
        (add_to_peers-Agree me ps)

  pub add_port-Agree :
      (id : String) (port : Port) (m : DeviceManager) → Agree m → Keeps (add_port E id port m)
  unfolding add_port
  add_port-Agree id port m h =
      then-Agree _ (notify E id)
        (then-Agree _ _ (on_agent-Agree (put_port port) id m h) (add_to_peers-Agree _ port.peers))
        (notify-Agree id)

  pub update_ports_state-Agree :
      (logical : Option Code) (id : String) (oper : OperStatus) (m : DeviceManager)
      → Agree m
      → Keeps (update_ports_state E logical id oper m)
  unfolding update_ports_state
  update_ports_state-Agree logical id oper m h = at (is_settable oper)
    where
      at :
          (b : Bool)
          → Keeps (
              if b
              then on_agent E (put_ports_state oper) id m
                ▹ notify E id
                ▹ (λ n. returned (n, logical))
              else and_then (get_device_agent E id m) (λ (n, o).
                returned (n, elim o [ none ↦ some not_found | some a ↦ some unimplemented ])))
      at true =
          then-Agree _ _
            (then-Agree _ (notify E id) (on_agent-Agree (put_ports_state oper) id m h)
              (notify-Agree id))
            (λ n k. k)
      at false = with_agent id m _ h (λ n k. k) (λ n a k. k.0)

  noted-Agree : (o : Outcome) (p : DeviceManager × Option Code) → Agree p.0 → Agree (noted o p).0
  noted-Agree o (m, none) h = h
  noted-Agree o (m, some c) h = h

  pub call_all-Agree :
      (c : AgentCall) (ids : List String) (s : DeviceManager × Outcome)
      → Agree s.0
      → Keeps (call_all E c ids s)
  unfolding call_all
  call_all-Agree c [] s h = h
  call_all-Agree c (id ∷ ids) s h =
      with_agent id s.0 _ h (λ n k. call_all-Agree c ids (n, s.1) k)
        (λ n a k. call_all-Agree c ids _ (
          noted-Agree s.1 (called id a (E.agent_call c a.device) n)
            (called-Agree id a (E.agent_call c a.device) n k)))

  pub with_device-Agree :
      (wrap : Code → Code) (id : String) (m : DeviceManager)
      (f : ManagedDevice → DeviceManager → Run (DeviceManager × Option Code))
      → Agree m
      → ((d : ManagedDevice) (n : DeviceManager) → Agree n → Keeps (f d n))
      → Keeps (with_device E wrap (get_device E id m) f)
  with_device-Agree wrap id m f h k = at (get_device E id m) (get_device-Agree E id m h)
    where
      at :
          (r : Run (DeviceManager × Result ManagedDevice))
          → Keeps r
          → Keeps (with_device E wrap r f)
      at panicked l = tt
      at (returned (n, err c)) l = l
      at (returned (n, ok d)) l = k d n l

  pub enable_all-Agree :
      (ids : List String) (s : DeviceManager × Option Code) → Agree s.0 → Keeps (enable_all E ids s)
  unfolding enable_all
  enable_all-Agree [] s h = h
  enable_all-Agree (id ∷ ids) s h =
      with_agent id s.0 _ h (λ n k. enable_all-Agree ids _ k)
        (λ n a k. enable_all-Agree ids _ (called-Agree id a (E.agent_call enable a.device) n k))

  pub update_each_status-Agree :
      (oper : OperStatus) (conn : ConnectStatus) (ids : List String) (m : DeviceManager)
      → Agree m
      → Keeps (update_each_status E oper conn ids m)
  unfolding update_each_status
  update_each_status-Agree oper conn [] m h = h
  update_each_status-Agree oper conn (id ∷ ids) m h =
      then-Agree _ (update_each_status E oper conn ids)
        (with_agent id m _ h (λ n k. k)
          (λ n a k. called-Agree id a (E.agent_call (put_status oper conn) a.device) n k))
        (update_each_status-Agree oper conn ids)
