-- ===== src/DeviceManager/Loading.antt =====
-- The recursion of the load of a device ends (rw_core/core/device_manager.go).
use mathlib.Core.Bool.{true≢false}
use vol_2619_voltha_go.Prelude.{
  ℕ, suc, String, str_eq, Bool, true, false, Option, none, some, some-injective, ◌≡◌, refl, sym,
  ◌∙◌, ap, ◌⊎◌, inl, inr, if◌then◌else◌, lookup, insert, string_key, is_some, lookup-insert, subst,
  eq_iff, Bool-cases,
}
use vol_2619_voltha_go.Status.{
  Code, aborted, invalid_argument, err-ne-ok, Result, ok, err, Run, returned, panicked, and_then,
  IfReturns, and_then-IfReturns,
}
use vol_2619_voltha_go.DeviceManager.{
  ManagedDevice, ManagedAgent, DeviceManager, Surroundings, add_device_agent_to_map,
  is_device_in_cache, agent_id, started, load_from, get_device_from_model, loaded_agent,
  load_device, load_root_device_parent_and_children, is_idle, load_relatives, load_rest, load,
}

module _ (E : Surroundings) where
  -- The device that a load of an identifier can meet: the one of the agent that is there, or the one
  -- that an agent starts with.
  abbrev pub Sees : DeviceManager → String → ManagedDevice → Type 0
  Sees m id d =
      ((a : ManagedAgent) × (lookup id m.device_agents ≡ some a) × (a.device ≡ d))
      ⊎ (E.start_existing id ≡ ok d)

  -- The parent of a device that is not a root device is a root device.
  abbrev pub HasTwoLevels : DeviceManager → Type 0
  HasTwoLevels m =
      (id : String) (d : ManagedDevice)
      → Sees m id d
      → d.root ≡ false
      → (p : ManagedDevice) → Sees m d.parent_id p
      → p.root ≡ true

  -- A later state shows no other devices.
  abbrev Narrows : DeviceManager → DeviceManager → Type 0
  Narrows m n = (k : String) (d : ManagedDevice) → Sees n k d → Sees m k d

  added-Narrows :
      (id : String) (d : ManagedDevice) (root : Bool) (m : DeviceManager)
      → E.start_existing id ≡ ok d
      → Narrows m (add_device_agent_to_map id (record { device = d; is_root_device = root }) m)
  unfolding add_device_agent_to_map
  added-Narrows id d root m s k e (inr start) = inr start
  added-Narrows id d root m s k e (inl (a, found, same)) =
      at (is_some (lookup id m.device_agents)) found
    where
      new : ManagedAgent
      new = record { device = d; is_root_device = root }

      at :
          (b : Bool)
          → lookup k (if b then m.device_agents else insert id new m.device_agents) ≡ some a
          → Sees m k e
      at true f = inl (a, f, same)
      at false f = elim (Bool-cases (str_eq id k)) [
        | inl c ↦
            let made =
              subst (λ b. (if b then some new else lookup k m.device_agents) ≡ some a) c
                (sym (lookup-insert id k new m.device_agents) ∙ f) in
            inr (
              subst (λ j. E.start_existing j ≡ ok e) ((eq_iff id k).0 c)
                (s ∙ ap ok (ap (λ x. x.device) (some-injective _ _ made) ∙ same)))
        | inr c ↦ inl (
          a,
          subst (λ b. (if b then some new else lookup k m.device_agents) ≡ some a) c
              (sym (lookup-insert id k new m.device_agents) ∙ f),
          same,
        )
      ]

  load_from-Narrows :
      (r : Result ManagedDevice) (m : DeviceManager) → IfReturns (Narrows m) (load_from E r m)
  load_from-Narrows (err c) m = λ k d s. s
  load_from-Narrows (ok d) m = at (E.start_existing (agent_id E d)) refl
    where
      at :
          (r : Result ManagedDevice)
          → E.start_existing (agent_id E d) ≡ r
          → IfReturns (Narrows m) (started E d r m)
      at (err c) e = tt
      at (ok l) e = added-Narrows (agent_id E d) l d.root m e

  -- What the load of one device gives.
  abbrev Loads : DeviceManager → String → DeviceManager × Result ManagedAgent → Type 0
  Loads m id p = Narrows m p.0 × ((a : ManagedAgent) → p.1 ≡ ok a → Sees p.0 id a.device)

  loaded-Sees :
      (id : String) (n : DeviceManager) (a : ManagedAgent)
      → loaded_agent id n ≡ ok a
      → Sees n id a.device
  loaded-Sees id n a h = at (lookup id n.device_agents) refl h
    where
      at :
          (o : Option ManagedAgent)
          → lookup id n.device_agents ≡ o
          → elim o [ none ↦ err aborted | some a ↦ ok a ] ≡ ok a
          → Sees n id a.device
      at none e k = elim (err-ne-ok k) [ ]
      at (some b) e k = inl (b, e, ap (λ r. elim r [ err c ↦ b.device | ok x ↦ x.device ]) k)

  load_device-Loads :
      (id : String) (m : DeviceManager) → IfReturns (Loads m id) (load_device E id m)
  unfolding load_device
  load_device-Loads id m = at (str_eq id "") (is_device_in_cache id m)
    where
      at :
          (b c : Bool)
          → IfReturns (Loads m id) (
              if◌then◌else◌ {A = Run (DeviceManager × Result ManagedAgent)} b
                (returned (m, err invalid_argument))
                (if c
                  then returned (m, loaded_agent id m)
                  else and_then
                      (load_from E (get_device_from_model E id) m)
                      (λ n. returned (n, loaded_agent id n))))
      at true c = (λ k d s. s, λ a k. elim (err-ne-ok k) [ ])
      at false true = (λ k d s. s, loaded-Sees id m)
      at false false =
          and_then-IfReturns (Narrows m) (Loads m id) (load_from E (get_device_from_model E id) m) _
            (load_from-Narrows (get_device_from_model E id) m) (λ n k. (k, loaded-Sees id n))

  abbrev LoadOf : Type 0
  LoadOf = String → DeviceManager → Option (Run (DeviceManager × Option Code))

  relatives_end :
      (load_parent : LoadOf) (d : ManagedDevice) (m : DeviceManager)
      → (d.root ≡ false → is_some (load_parent d.parent_id m) ≡ true)
      → is_some (load_relatives E load_parent d m) ≡ true
  relatives_end load_parent d m h = at (is_idle d) d.root (str_eq d.parent_id "") h
    where
      at :
          (i r p : Bool)
          → (r ≡ false → is_some (load_parent d.parent_id m) ≡ true)
          → is_some (
              if i
              then some (returned (m, none))
              else if r
              then some (load_root_device_parent_and_children E d m)
              else if p
              then some (returned (m, none))
              else load_parent d.parent_id m)
            ≡ true
      at true r p k = refl
      at false true p k = refl
      at false false true k = refl
      at false false false k = k refl

  -- The parent of a loaded device that is not a root device loads.
  abbrev ParentLoads : LoadOf → DeviceManager × Result ManagedAgent → Type 0
  ParentLoads load_parent p =
      (a : ManagedAgent)
      → p.1 ≡ ok a
      → a.device.root ≡ false
      → is_some (load_parent a.device.parent_id p.0) ≡ true

  rest_ends :
      (load_parent : LoadOf) (r : Run (DeviceManager × Result ManagedAgent))
      → IfReturns (ParentLoads load_parent) r
      → is_some (load_rest E load_parent r) ≡ true
  rest_ends load_parent panicked h = refl
  rest_ends load_parent (returned (m, err c)) h = refl
  rest_ends load_parent (returned (m, ok a)) h = relatives_end load_parent a.device m (h a refl)

  IfReturns-map :
      {A : Type 0} (P Q : A → Type 0) (r : Run A)
      → ((a : A) → P a → Q a)
      → IfReturns P r
      → IfReturns Q r
  IfReturns-map P Q (returned a) f h = f a h
  IfReturns-map P Q panicked f h = tt

  load_ends_at_root :
      (fuel : ℕ) (id : String) (m : DeviceManager)
      → ((p : ManagedDevice) → Sees m id p → p.root ≡ true)
      → is_some (load E (suc fuel) id m) ≡ true
  unfolding load
  load_ends_at_root fuel id m roots = rest_ends (load E fuel) (load_device E id m) (
      IfReturns-map (Loads m id) (ParentLoads (load E fuel)) (load_device E id m)
        (λ p (narrows, sees) a e f.
          elim (true≢false (sym (roots a.device (narrows id a.device (sees a e))) ∙ f)) [ ])
        (load_device-Loads id m))

  -- When the parent of every device that a load can meet, and that is not a root device, is a
  -- root device, the recursion of the load of a device ends at its second level, whatever the
  -- data model answers: every larger fuel gives a result.
  pub load_lem :
      (fuel : ℕ) (id : String) (m : DeviceManager)
      → HasTwoLevels m
      → is_some (load E (suc (suc fuel)) id m) ≡ true
  unfolding load
  load_lem fuel id m two = rest_ends (load E (suc fuel)) (load_device E id m) (
      IfReturns-map (Loads m id) (ParentLoads (load E (suc fuel))) (load_device E id m)
        (λ p (narrows, sees) a e f. load_ends_at_root fuel a.device.parent_id p.0 (λ q s.
          two id a.device (narrows id a.device (sees a e)) f q (narrows a.device.parent_id q s)))
        (load_device-Loads id m))
