-- ===== src/DeviceManager/Agreement.antt =====
-- The maps of the agents and of the root devices have the same keys after the loads
-- (rw_core/core/device_manager.go).
use vol_2619_voltha_go.Prelude.{
  ℕ, zero, suc, String, str_eq, Bool, true, false, Option, none, some, List, [], ◌∷◌, ◌≡◌, refl,
  sym, ◌∙◌, if◌then◌else◌, lookup, insert, string_key, is_some, lookup-insert, lookup-delete,
  Bool-cases, inl, inr, subst, eq_iff,
}
use vol_2619_voltha_go.Status.{
  Code, invalid_argument, Result, ok, err, Run, returned, panicked, and_then, IfReturns,
  and_then-IfReturns,
}
use vol_2619_voltha_go.DeviceManager.{
  ManagedDevice, ManagedAgent, DeviceManager, Surroundings, add_device_agent_to_map,
  delete_device_agent_from_map, is_device_in_cache, agent_id, started, load_from,
  get_device_from_model, loaded_agent, load_device, load_children,
  load_root_device_parent_and_children, is_idle, load_relatives, load_rest, load, levels,
  claim_loaded, after_load, get_device_agent, get_device, get_all_child_device_ids,
}

-- An agent is in the map of the agents just if its identifier is in the map of the root devices.
abbrev pub Agree : DeviceManager → Type 0
Agree m = (k : String) → is_some (lookup k m.device_agents) ≡ is_some (lookup k m.root_devices)

abbrev pub IsThere : String → DeviceManager → Type 0
IsThere id m = is_some (lookup id m.device_agents) ≡ true

pub add-Agree :
    (id : String) (a : ManagedAgent) (m : DeviceManager)
    → Agree m
    → Agree (add_device_agent_to_map id a m)
unfolding add_device_agent_to_map
add-Agree id a m h k = at (is_some (lookup id m.device_agents)) refl (str_eq id k) refl
  where
    at :
        (b : Bool)
        → is_some (lookup id m.device_agents) ≡ b
        → (c : Bool) → str_eq id k ≡ c
        → is_some (lookup k (if b then m.device_agents else insert id a m.device_agents))
          ≡ is_some (lookup k (insert id a.is_root_device m.root_devices))
    at true e true c =
        rw (lookup-insert id k a.is_root_device m.root_devices, c)
          (subst (λ j. is_some (lookup j m.device_agents) ≡ true) ((eq_iff id k).0 c) e)
    at true e false c = rw (lookup-insert id k a.is_root_device m.root_devices, c) (h k)
    at false e true c =
        rw
          (
            lookup-insert id k a.is_root_device m.root_devices,
            lookup-insert id k a m.device_agents,
            c,
          )
          refl
    at false e false c =
        rw
          (
            lookup-insert id k a.is_root_device m.root_devices,
            lookup-insert id k a m.device_agents,
            c,
          )
          (h k)

pub delete-Agree :
    (id : String) (m : DeviceManager) → Agree m → Agree (delete_device_agent_from_map id m)
unfolding delete_device_agent_from_map
delete-Agree id m h k = elim (Bool-cases (str_eq id k)) [
  | inl e ↦ rw (lookup-delete id k m.device_agents, lookup-delete id k m.root_devices, e) refl
  | inr e ↦ rw (lookup-delete id k m.device_agents, lookup-delete id k m.root_devices, e) (h k)
]

-- The change of an agent that is there.
pub put-Agree :
    (id : String) (a : ManagedAgent) (m : DeviceManager)
    → IsThere id m
    → Agree m
    → Agree (record m { device_agents = insert id a m.device_agents })
put-Agree id a m i h k = elim (Bool-cases (str_eq id k)) [
  | inl e ↦
      rw (lookup-insert id k a m.device_agents, e)
        (subst (λ j. true ≡ is_some (lookup j m.root_devices)) ((eq_iff id k).0 e) (sym i ∙ h id))
  | inr e ↦ rw (lookup-insert id k a m.device_agents, e) (h k)
]

-- What a request returns with, beside the manager.
abbrev pub Keeps : {A : Type 0} → Run (DeviceManager × A) → Type 0
Keeps r = IfReturns (λ p. Agree p.0) r

abbrev pub IfLoaded : Option (Run (DeviceManager × Option Code)) → Type 0
IfLoaded none = Unit
IfLoaded (some r) = Keeps r

-- The maps agree, and an agent that is given is in the map.
abbrev pub Gives : String → DeviceManager × Option ManagedAgent → Type 0
Gives id p = Agree p.0 × (is_some p.1 ≡ true → IsThere id p.0)

module _ (E : Surroundings) where
  pub started-Agree :
      (d : ManagedDevice) (r : Result ManagedDevice) (m : DeviceManager)
      → Agree m
      → IfReturns Agree (started E d r m)
  started-Agree d (err c) m h = tt
  started-Agree d (ok l) m h = add-Agree (agent_id E d) _ m h

  load_from-Agree :
      (r : Result ManagedDevice) (m : DeviceManager) → Agree m → IfReturns Agree (load_from E r m)
  load_from-Agree (err c) m h = h
  load_from-Agree (ok d) m h = started-Agree d (E.start_existing (agent_id E d)) m h

  load_device-Agree : (id : String) (m : DeviceManager) → Agree m → Keeps (load_device E id m)
  unfolding load_device
  load_device-Agree id m h = at (str_eq id "") (is_device_in_cache id m)
    where
      at :
          (b c : Bool)
          → Keeps (
              if◌then◌else◌ {A = Run (DeviceManager × Result ManagedAgent)} b
                (returned (m, err invalid_argument))
                (if c
                  then returned (m, loaded_agent id m)
                  else and_then
                      (load_from E (get_device_from_model E id) m)
                      (λ n. returned (n, loaded_agent id n))))
      at true c = h
      at false true = h
      at false false =
          and_then-IfReturns Agree (λ p. Agree p.0) (load_from E (get_device_from_model E id) m) _
            (load_from-Agree (get_device_from_model E id) m h) (λ n k. k)

  load_children-Agree :
      (ids : List String) (m : DeviceManager) → Agree m → Keeps (load_children E ids m)
  unfolding load_children
  load_children-Agree [] m h = h
  load_children-Agree (id ∷ ids) m h =
      and_then-IfReturns (λ p. Agree p.0) (λ p. Agree p.0) (load_device E id m) _
        (load_device-Agree id m h) (λ (n, r) k. at n r k (load_children-Agree ids n))
    where
      at :
          (n : DeviceManager) (r : Result ManagedAgent)
          → Agree n
          → (Agree n → Keeps (load_children E ids n))
          → Keeps (elim r [ err c ↦ returned (n, some c) | ok a ↦ load_children E ids n ])
      at n (err c) k rec = k
      at n (ok a) k rec = rec k

  load_relatives-Agree :
      (load_parent : String → DeviceManager → Option (Run (DeviceManager × Option Code)))
      → ((id : String) (n : DeviceManager) → Agree n → IfLoaded (load_parent id n))
      → (d : ManagedDevice) (m : DeviceManager) → Agree m
      → IfLoaded (load_relatives E load_parent d m)
  unfolding load_root_device_parent_and_children
  load_relatives-Agree load_parent keep d m h = at (is_idle d) d.root (str_eq d.parent_id "")
    where
      at :
          (b r p : Bool)
          → IfLoaded (
              if b
              then some (returned (m, none))
              else if r
              then some
                  (if r then load_children E (get_all_child_device_ids d) m else returned (m, none))
              else if p
              then some (returned (m, none))
              else load_parent d.parent_id m)
      at true r p = h
      at false true p = load_children-Agree (get_all_child_device_ids d) m h
      at false false true = h
      at false false false = keep d.parent_id m h

  load_rest-Agree :
      (load_parent : String → DeviceManager → Option (Run (DeviceManager × Option Code)))
      → ((id : String) (n : DeviceManager) → Agree n → IfLoaded (load_parent id n))
      → (r : Run (DeviceManager × Result ManagedAgent)) → Keeps r
      → IfLoaded (load_rest E load_parent r)
  load_rest-Agree load_parent keep panicked h = tt
  load_rest-Agree load_parent keep (returned (m, err c)) h = h
  load_rest-Agree load_parent keep (returned (m, ok a)) h =
      load_relatives-Agree load_parent keep a.device m h

  pub load-Agree :
      (fuel : ℕ) (id : String) (m : DeviceManager) → Agree m → IfLoaded (load E fuel id m)
  unfolding load
  load-Agree zero id m h = tt
  load-Agree (suc fuel) id m h =
      load_rest-Agree (load E fuel) (load-Agree fuel) (load_device E id m)
        (load_device-Agree id m h)

  claim_loaded-Gives : (id : String) (m : DeviceManager) → Agree m → Gives id (claim_loaded id m)
  claim_loaded-Gives id m h = at (lookup id m.device_agents) refl
    where
      at :
          (o : Option ManagedAgent)
          → lookup id m.device_agents ≡ o
          → Gives id (elim o [
            | none ↦ (m, none)
            | some a ↦ (record m { claimed = id ∷ m.claimed }, some a)
          ])
      at none e = (h, λ k. cc)
      at (some a) e = (h, λ k. rw e refl)

  after_load-Gives :
      (id : String) (m : DeviceManager) (r : Option (Run (DeviceManager × Option Code)))
      → IfLoaded r
      → IfReturns (Gives id) (after_load id m r)
  after_load-Gives id m none h = tt
  after_load-Gives id m (some panicked) h = tt
  after_load-Gives id m (some (returned (n, some c))) h = (h, λ k. cc)
  after_load-Gives id m (some (returned (n, none))) h = claim_loaded-Gives id n h

  pub get_device_agent-Gives :
      (id : String) (m : DeviceManager) → Agree m → IfReturns (Gives id) (get_device_agent E id m)
  unfolding get_device_agent
  get_device_agent-Gives id m h = at (lookup id m.device_agents) refl
    where
      at :
          (o : Option ManagedAgent)
          → lookup id m.device_agents ≡ o
          → IfReturns (Gives id) (elim o [
            | none ↦ after_load id m (load E levels id m)
            | some a ↦ returned (m, some a)
          ])
      at none e = after_load-Gives id m (load E levels id m) (load-Agree levels id m h)
      at (some a) e = (h, λ k. rw e refl)

  pub get_device-Agree : (id : String) (m : DeviceManager) → Agree m → Keeps (get_device E id m)
  unfolding get_device
  get_device-Agree id m h =
      and_then-IfReturns (Gives id) (λ p. Agree p.0) (get_device_agent E id m) _
        (get_device_agent-Gives id m h) (λ p k. k.0)
