-- ===== src/AdapterManager.antt =====
-- rw_core/core/adapter_manager.go: the tables of the adapters and of the device types that they serve.
-- Each operation holds the locks of the tables that it changes. The data model is a parameter, and the
-- calls of the device manager are recorded. An adapter and a device type are never nil; a list of device
-- types may be, none here.
pub mod Knowledge
pub mod Requests
use vol_2619_voltha_go.Prelude.{
  ℕ, ◌+◌, ◌*◌, ◌/◌, ◌%◌, ◌^◌, String, str_eq, Bool, true, false, Option, none, some, List, [], ◌∷◌,
  ◌++◌, ◌&&◌, ◌||◌, not, if◌then◌else◌, leb, ltb, is_some, reject, Map, lookup, insert, string_key,
  each, map,
}
use vol_2619_voltha_go.Status.{
  Code, other, Result, ok, err, Run, returned, panicked, and_then, ◌▸◌, for_each,
}

abbrev pub sentinel_adapter_id : String
sentinel_adapter_id = "adapter_sentinel"

abbrev pub sentinel_device_type_id : String
sentinel_device_type_id = "device_type_sentinel"

-- `last_communication` is in nanoseconds, none for a timestamp that is not valid.
pub record Adapter : Type 0 where
  pub id : String
  pub vendor : String
  pub last_communication : Option ℕ

pub record DeviceType : Type 0 where
  pub id : String
  pub adapter : String
  pub accepts_add_remove_flow_updates : Bool

pub record AdapterAgent : Type 0 where
  pub adapter : Adapter
  pub device_types : Map String DeviceType

pub data Write : Type 0 where
  write_adapter : Adapter → Write
  write_device_type : DeviceType → Write

-- The manager, with what it has written to the data model and the adapters that it has told the device
-- manager to have restarted, the last one first.
pub record AdapterManager : Type 0 where
  pub adapter_agents : Map String AdapterAgent
  pub device_type_to_adapter_map : Map String String
  pub writes : List Write
  pub restarted : List Adapter

-- The lists of the data model, none for a missing node, whether it has a node, and the error of a write.
pub record Surroundings : Type 0 where
  pub adapters : Result (Option (List Adapter))
  pub device_types : Result (Option (List DeviceType))
  pub has_adapter : String → Result Bool
  pub has_device_type : String → Result Bool
  pub add_with_id : Write → Option Code

unfoldable pub add_type : DeviceType → Map String DeviceType → Map String DeviceType
add_type t ts = insert t.id t ts

unfoldable pub new_adapter_agent : Adapter → List DeviceType → AdapterAgent
new_adapter_agent adapter ts = record { adapter = adapter; device_types = each add_type ts [] }

-- A time after the current one is ignored, as is one that is not after the last one.
unfoldable pub update_communication_time : ℕ → ℕ → AdapterAgent → AdapterAgent
update_communication_time now new aa =
    if leb new now
      && elim (aa.adapter.last_communication) [ none ↦ true | some last ↦ ltb last new ]
    then record aa { adapter = record (aa.adapter) { last_communication = some new } }
    else aa

abbrev pub set_agent : String → AdapterAgent → AdapterManager → AdapterManager
set_agent id aa m = record m { adapter_agents = insert id aa m.adapter_agents }

-- time.Unix(timestamp/1000, timestamp%1000*1000)
unfoldable pub update_last_adapter_communication : ℕ → String → ℕ → AdapterManager → AdapterManager
update_last_adapter_communication now adapter_id timestamp m =
    elim (lookup adapter_id m.adapter_agents) [
      | none ↦ m
      | some aa ↦
          set_agent adapter_id
            (update_communication_time now (timestamp / 1000 * 10 ^ 9 + timestamp % 1000 * 1000) aa)
            m
    ]

abbrev pub wrote : Surroundings → Write → AdapterManager → AdapterManager × Option Code
wrote E w m = (record m { writes = w ∷ m.writes }, E.add_with_id w)

-- A node is written unless the data model has it.
abbrev pub save : Surroundings → Result Bool → Write → AdapterManager → AdapterManager × Option Code
save E (err c) w m = (m, some c)
save E (ok true) w m = (m, none)
save E (ok false) w m = wrote E w m

unfoldable pub add_adapter :
    Surroundings → Adapter → Bool → AdapterManager → AdapterManager × Option Code
add_adapter E adapter save_to_db m =
    let added = set_agent adapter.id (new_adapter_agent adapter []) m in
    if is_some (lookup adapter.id m.adapter_agents)
    then (m, none)
    else if save_to_db
    then save E (E.has_adapter adapter.id) (write_adapter adapter) added
    else (added, none)

abbrev pub bare_adapter : String → Adapter
bare_adapter id = record { id = id; vendor = ""; last_communication = none }

abbrev pub known_type :
    Option AdapterAgent → List DeviceType → DeviceType → AdapterManager → AdapterManager
known_type (some aa) all t m =
    set_agent t.adapter (record aa { device_types = add_type t aa.device_types }) m
known_type none all t m = set_agent t.adapter (new_adapter_agent (bare_adapter t.adapter) all) m

-- The device type joins its adapter; one that is not known gets an agent with `all` the types.
unfoldable pub set_device_type : List DeviceType → DeviceType → AdapterManager → AdapterManager
set_device_type all t m =
    let k = known_type (lookup t.adapter m.adapter_agents) all t m in
    record k { device_type_to_adapter_map = insert t.id t.adapter k.device_type_to_adapter_map }

unfoldable pub save_device_type :
    Surroundings → DeviceType → AdapterManager → AdapterManager × Option Code
save_device_type E t m = save E (E.has_device_type t.id) (write_device_type t) m

unfoldable pub add_device_types :
    Surroundings → Option (List DeviceType) → Bool → AdapterManager → AdapterManager × Option Code
add_device_types E none save_to_db m = (m, some other)
add_device_types E (some ts) save_to_db m =
    let added = each (set_device_type ts) ts m in
    if save_to_db then for_each (save_device_type E) ts added else (added, none)

abbrev pub sentinel : DeviceType
sentinel = record {
  id = sentinel_device_type_id;
  adapter = sentinel_adapter_id;
  accepts_add_remove_flow_updates = false;
}

abbrev pub loaded_types :
    Surroundings → Result (Option (List DeviceType)) → AdapterManager → AdapterManager × Option Code
loaded_types E (err c) m = (m, some c)
loaded_types E (ok (some ts)) m = add_device_types E (some ts) false m
loaded_types E (ok none) m = add_device_types E (some (sentinel ∷ [])) true m

-- The errors of the single adapters are only logged.
abbrev pub loaded :
    Surroundings → Result (Option (List Adapter)) → AdapterManager → AdapterManager × Option Code
loaded E (err c) m = (m, some c)
loaded E (ok none) m = add_adapter E (bare_adapter sentinel_adapter_id) true m
loaded E (ok (some adapters)) m =
    loaded_types E E.device_types (each (λ a n. (add_adapter E a false n).0) adapters m)

unfoldable pub load_adapters_and_device_types_in_memory :
    Surroundings → AdapterManager → AdapterManager × Option Code
load_adapters_and_device_types_in_memory E m = loaded E E.adapters m

unfoldable pub update_adapter : Adapter → AdapterManager → AdapterManager
update_adapter adapter m = elim (lookup adapter.id m.adapter_agents) [
  | none ↦ set_agent adapter.id (new_adapter_agent adapter []) m
  | some aa ↦ set_agent adapter.id (record aa { adapter = adapter }) m
]

unfoldable pub update_device_type : DeviceType → AdapterManager → AdapterManager
update_device_type t m = set_device_type (t ∷ []) t m

abbrev pub updated_types : Result (Option (List DeviceType)) → AdapterManager → AdapterManager
updated_types (ok (some ts)) m = each update_device_type ts m
updated_types (ok none) m = m
updated_types (err c) m = m

abbrev pub updated : Surroundings → Result (Option (List Adapter)) → AdapterManager → AdapterManager
updated E (err c) m = m
updated E (ok none) m = updated_types E.device_types m
updated E (ok (some adapters)) m = updated_types E.device_types (each update_adapter adapters m)

abbrev pub restart : Adapter → AdapterManager → AdapterManager
restart adapter m = record m { restarted = adapter ∷ m.restarted }

unfoldable pub update_adapters_and_device_types_in_memory :
    Surroundings → Adapter → AdapterManager → AdapterManager
update_adapters_and_device_types_in_memory E adapter m =
    if is_some (lookup adapter.id m.adapter_agents)
    then restart adapter m
    else updated E E.adapters m

-- The log line at the start reads the items of the device types: it panics for nil.
unfoldable pub register_adapter :
    Surroundings
    → Adapter
    → Option (List DeviceType)
    → AdapterManager
    → Run (AdapterManager × Option Code)
register_adapter E adapter none m = panicked
register_adapter E adapter (some ts) m =
    let added = add_adapter E adapter true m ▸ add_device_types E (some ts) true in
    returned
      (if is_some (lookup adapter.id m.adapter_agents) then (restart adapter m, none) else added)

-- The callbacks of the data model, with whether the lists before and after are the same.
unfoldable pub adapter_updated : Bool → List Adapter → AdapterManager → AdapterManager
adapter_updated are_equal latest m = if are_equal then m else each update_adapter latest m

unfoldable pub device_types_updated : Bool → List DeviceType → AdapterManager → AdapterManager
device_types_updated are_equal latest m = if are_equal then m else each update_device_type latest m

unfoldable pub get_adapter_name : String → AdapterManager → Result String
get_adapter_name t m = elim (lookup t m.device_type_to_adapter_map) [
  | none ↦ err other
  | some id ↦ ok id
]

-- The device type, of an agent that may be missing.
unfoldable pub type_of : AdapterManager → String → String → Option DeviceType
type_of m adapter_id t = elim (lookup adapter_id m.adapter_agents) [
  | none ↦ none
  | some aa ↦ lookup t aa.device_types
]

unfoldable pub get_device_type : String → AdapterManager → Option DeviceType
get_device_type t m = elim (lookup t m.device_type_to_adapter_map) [
  | none ↦ none
  | some adapter_id ↦ type_of m adapter_id t
]

unfoldable pub get_adapter : String → AdapterManager → Option Adapter
get_adapter id m = elim (lookup id m.adapter_agents) [ none ↦ none | some aa ↦ some aa.adapter ]

unfoldable pub list_adapters : AdapterManager → List Adapter
list_adapters m =
    reject (λ a. str_eq a.id sentinel_adapter_id) (map (λ e. e.1.adapter) m.adapter_agents)

abbrev types_in : AdapterManager → Map String String → List DeviceType
types_in m [] = []
types_in m ((t, adapter_id) ∷ es) =
    let rest = types_in m es in
    elim (type_of m adapter_id t) [
      | none ↦ rest
      | some d ↦ if str_eq d.id sentinel_device_type_id then rest else d ∷ rest
    ]

unfoldable pub list_device_types : AdapterManager → List DeviceType
list_device_types m = types_in m m.device_type_to_adapter_map

pub data Request : Type 0 where
  load : Request
  communicate : (now : ℕ) → String → (timestamp : ℕ) → Request
  update_in_memory : Adapter → Request
  register : Adapter → Option (List DeviceType) → Request
  adapters_changed : Bool → List Adapter → Request
  device_types_changed : Bool → List DeviceType → Request

unfoldable pub serve : Surroundings → Request → AdapterManager → Run AdapterManager
serve E load m = returned (load_adapters_and_device_types_in_memory E m).0
serve E (communicate now id timestamp) m =
    returned (update_last_adapter_communication now id timestamp m)
serve E (update_in_memory adapter) m =
    returned (update_adapters_and_device_types_in_memory E adapter m)
serve E (register adapter ts) m = and_then (register_adapter E adapter ts m) (λ p. returned p.0)
serve E (adapters_changed are_equal latest) m = returned (adapter_updated are_equal latest m)
serve E (device_types_changed are_equal latest) m =
    returned (device_types_updated are_equal latest m)
