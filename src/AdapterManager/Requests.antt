-- ===== src/AdapterManager/Requests.antt =====
-- Every request keeps the types known (rw_core/core/adapter_manager.go).
use vol_2619_voltha_go.Prelude.{
  String, Bool, true, false, Option, none, some, List, [], ◌∷◌, ◌≡◌, refl, if◌then◌else◌, is_some,
  lookup, string_key, each-inv,
}
use vol_2619_voltha_go.Status.{
  Code, other, Result, ok, err, is_ok, ReturnsWith, ◌▸◌, ▸-inv, for_each-inv,
}
use vol_2619_voltha_go.AdapterManager.{
  Adapter, DeviceType, AdapterAgent, Write, AdapterManager, Surroundings, new_adapter_agent,
  set_agent, save, write_adapter, write_device_type, sentinel, sentinel_adapter_id, add_adapter,
  bare_adapter, save_device_type, add_device_types, loaded_types, loaded,
  load_adapters_and_device_types_in_memory, update_adapter, update_device_type, updated_types,
  updated, restart, update_adapters_and_device_types_in_memory, register_adapter, adapter_updated,
  device_types_updated, get_adapter_name, type_of, get_device_type, Request, load, communicate,
  update_in_memory, register, adapters_changed, device_types_changed, serve,
}
use vol_2619_voltha_go.AdapterManager.Knowledge.{
  Knows, update_adapter-Knows, update_device_type-Knows, communication-Knows,
  each-set_device_type-Knows, types_added, fresh-Knows,
}

save-Knows :
    (E : Surroundings) (r : Result Bool) (w : Write) (m : AdapterManager)
    → Knows m
    → Knows (save E r w m).0
unfolding type_of
save-Knows E (err c) w m h = h
save-Knows E (ok true) w m h = h
save-Knows E (ok false) w m h = h

restart-Knows : (a : Adapter) (m : AdapterManager) → Knows m → Knows (restart a m)
unfolding type_of
restart-Knows a m h = h

module _ (E : Surroundings) where
  add_adapter-Knows :
      (a : Adapter) (save_to_db : Bool) (m : AdapterManager)
      → Knows m
      → Knows (add_adapter E a save_to_db m).0
  unfolding add_adapter new_adapter_agent
  add_adapter-Knows a b m h = at (lookup a.id m.adapter_agents) refl b
    where
      at :
          (o : Option AdapterAgent)
          → lookup a.id m.adapter_agents ≡ o
          → (b : Bool)
          → Knows
              (if◌then◌else◌ {A = AdapterManager × Option Code}
                (is_some o)
                (m, none)
                (if b
                  then save E
                      (E.has_adapter a.id)
                      (write_adapter a)
                      (set_agent a.id (new_adapter_agent a []) m)
                  else (set_agent a.id (new_adapter_agent a []) m, none))).0
      at (some aa) e b = h
      at none e true =
          save-Knows E (E.has_adapter a.id) (write_adapter a) _
            (fresh-Knows m a.id (new_adapter_agent a []) e h)
      at none e false = fresh-Knows m a.id (new_adapter_agent a []) e h

  add_device_types-Knows :
      (ts : Option (List DeviceType)) (save_to_db : Bool) (m : AdapterManager)
      → Knows m
      → Knows (add_device_types E ts save_to_db m).0
  unfolding add_device_types save_device_type
  add_device_types-Knows none b m h = h
  add_device_types-Knows (some ts) true m h =
      for_each-inv Knows (save_device_type E)
        (λ t s. save-Knows E (E.has_device_type t.id) (write_device_type t) s) ts _
        (each-set_device_type-Knows ts ts m (types_added ts []) h)
  add_device_types-Knows (some ts) false m h =
      each-set_device_type-Knows ts ts m (types_added ts []) h

  loaded_types-Knows :
      (r : Result (Option (List DeviceType))) (m : AdapterManager)
      → Knows m
      → Knows (loaded_types E r m).0
  loaded_types-Knows (err c) m h = h
  loaded_types-Knows (ok none) m h = add_device_types-Knows (some (sentinel ∷ [])) true m h
  loaded_types-Knows (ok (some ts)) m h = add_device_types-Knows (some ts) false m h

  loaded-Knows :
      (r : Result (Option (List Adapter))) (m : AdapterManager) → Knows m → Knows (loaded E r m).0
  loaded-Knows (err c) m h = h
  loaded-Knows (ok none) m h = add_adapter-Knows (bare_adapter sentinel_adapter_id) true m h
  loaded-Knows (ok (some adapters)) m h = loaded_types-Knows E.device_types _ (
      each-inv Knows (λ a n. (add_adapter E a false n).0) (λ a n k. add_adapter-Knows a false n k)
        adapters m h)

  updated_types-Knows :
      (r : Result (Option (List DeviceType))) (m : AdapterManager)
      → Knows m
      → Knows (updated_types r m)
  updated_types-Knows (err c) m h = h
  updated_types-Knows (ok none) m h = h
  updated_types-Knows (ok (some ts)) m h =
      each-inv Knows update_device_type update_device_type-Knows ts m h

  updated-Knows :
      (r : Result (Option (List Adapter))) (m : AdapterManager) → Knows m → Knows (updated E r m)
  updated-Knows (err c) m h = h
  updated-Knows (ok none) m h = updated_types-Knows E.device_types m h
  updated-Knows (ok (some adapters)) m h =
      updated_types-Knows E.device_types _
        (each-inv Knows update_adapter update_adapter-Knows adapters m h)

  if-Knows : (b : Bool) (x y : AdapterManager) → Knows x → Knows y → Knows (if b then x else y)
  if-Knows true x y h k = h
  if-Knows false x y h k = k

  -- A request other than a registration without a list of device types.
  abbrev pub has_types : Request → Bool
  has_types (register a none) = false
  has_types _ = true

  -- When the agent of the adapter that each device type is mapped to has that type, every request
  -- to the manager other than a registration with nil for its device types returns, and this is
  -- so after it: the load, a registration, a callback of the data model, an update of the memory
  -- and the time of a message, whatever the data model answers.
  pub serve-Knows :
      (r : Request) (m : AdapterManager)
      → has_types r ≡ true
      → Knows m
      → ReturnsWith Knows (serve E r m)
  unfolding serve load_adapters_and_device_types_in_memory
      update_adapters_and_device_types_in_memory register_adapter adapter_updated
      device_types_updated
  serve-Knows load m t h = loaded-Knows E.adapters m h
  serve-Knows (communicate now id timestamp) m t h = communication-Knows now id timestamp m h
  serve-Knows (update_in_memory a) m t h =
      if-Knows (is_some (lookup a.id m.adapter_agents)) _ _ (restart-Knows a m h)
        (updated-Knows E.adapters m h)
  serve-Knows (register a none) m t h = cc
  serve-Knows (register a (some ts)) m t h = at (is_some (lookup a.id m.adapter_agents))
    where
      at :
          (b : Bool)
          → Knows
              (if◌then◌else◌ {A = AdapterManager × Option Code} b
                (restart a m, none)
                (add_adapter E a true m ▸ add_device_types E (some ts) true)).0
      at true = restart-Knows a m h
      at false =
          ▸-inv Knows (add_adapter E a true m) (add_device_types E (some ts) true)
            (add_adapter-Knows a true m h) (add_device_types-Knows (some ts) true)
  serve-Knows (adapters_changed b latest) m t h =
      if-Knows b _ _ h (each-inv Knows update_adapter update_adapter-Knows latest m h)
  serve-Knows (device_types_changed b latest) m t h =
      if-Knows b _ _ h (each-inv Knows update_device_type update_device_type-Knows latest m h)

-- When the agent of the adapter that each device type is mapped to has that type, the manager
-- gives a definition of a device type exactly when it gives the name of an adapter for it.
pub get_device_type-get_adapter_name :
    (m : AdapterManager) (t : String)
    → Knows m
    → is_some (get_device_type t m) ≡ is_ok (get_adapter_name t m)
unfolding get_device_type get_adapter_name
get_device_type-get_adapter_name m t h = at (lookup t m.device_type_to_adapter_map) (h t)
  where
    at :
        (o : Option String)
        → ((id : String) → o ≡ some id → is_some (type_of m id t) ≡ true)
        → is_some (elim o [ none ↦ none | some id ↦ type_of m id t ])
          ≡ is_ok (elim o [ none ↦ err other | some id ↦ ok id ])
    at none k = refl
    at (some id) k = k id refl
