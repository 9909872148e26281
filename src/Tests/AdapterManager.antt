-- ===== src/Tests/AdapterManager.antt =====
-- An adapter that registers with its device types (rw_core/core/adapter_manager.go).
use vol_2619_voltha_go.Prelude.{
  true, false, none, some, List, [], ◌∷◌, ◌≡◌, refl, lookup, string_key, insert,
}
use vol_2619_voltha_go.Status.{ok, Run, returned, panicked, and_then, ReturnsWith, ◌▸◌, for_each}
use vol_2619_voltha_go.AdapterManager.{
  DeviceType, AdapterManager, Surroundings, register, serve, get_adapter_name, bare_adapter,
  register_adapter, add_adapter, add_device_types, set_device_type, new_adapter_agent, add_type,
  save_device_type,
}
use vol_2619_voltha_go.AdapterManager.Knowledge.{Knows}
use vol_2619_voltha_go.AdapterManager.Requests.{serve-Knows}

abbrev empty : AdapterManager
empty = record { adapter_agents = []; device_type_to_adapter_map = []; writes = []; restarted = [] }

abbrev surroundings : Surroundings
surroundings = record {
  adapters = ok none;
  device_types = ok none;
  has_adapter = λ id. ok false;
  has_device_type = λ id. ok false;
  add_with_id = λ w. none;
}

-- The second type is for an adapter that is not known yet.
abbrev types : List DeviceType
types =
    record { id = "olt"; adapter = "openolt"; accepts_add_remove_flow_updates = true }
    ∷ record { id = "onu"; adapter = "openonu"; accepts_add_remove_flow_updates = false }
    ∷ []

abbrev registered : Run AdapterManager
registered = serve surroundings (register (bare_adapter "openolt") (some types)) empty

empty-Knows : Knows empty
unfolding lookup
empty-Knows t adapter_id e = cc

serve-Knows_example : ReturnsWith Knows registered
serve-Knows_example =
    serve-Knows surroundings (register (bare_adapter "openolt") (some types)) empty refl empty-Knows

onu_known : and_then registered (λ m. returned (get_adapter_name "onu" m)) ≡ returned (ok "openonu")
unfolding get_adapter_name serve register_adapter add_adapter add_device_types set_device_type
    save_device_type new_adapter_agent add_type lookup insert ◌▸◌ for_each
onu_known = refl

nil_types : register_adapter surroundings (bare_adapter "openolt") none empty ≡ panicked
unfolding register_adapter
nil_types = refl
