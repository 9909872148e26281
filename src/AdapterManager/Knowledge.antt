-- ===== src/AdapterManager/Knowledge.antt =====
-- The adapter manager knows the device types that it has adapters for
-- (rw_core/core/adapter_manager.go).
use vol_2619_voltha_go.Prelude.{
  ℕ, ◌+◌, ◌*◌, ◌/◌, ◌%◌, ◌^◌, some-injective, String, str_eq, Bool, true, false, Option, none, some,
  List, [], ◌∷◌, ◌&&◌, ◌≡◌, refl, sym, ◌∙◌, if◌then◌else◌, leb, ltb, is_some, All, Map, lookup,
  insert, string_key, lookup-insert, each, each-inv, inl, inr, same_refl, Bool-cases, eq_iff, subst,
}
use vol_2619_voltha_go.AdapterManager.{
  Adapter, DeviceType, AdapterAgent, AdapterManager, add_type, new_adapter_agent,
  update_communication_time, set_agent, update_last_adapter_communication, bare_adapter, known_type,
  set_device_type, update_adapter, update_device_type, type_of,
}

-- The agent of a type's adapter has the type.
abbrev pub Knows : AdapterManager → Type 0
Knows m =
    (t adapter_id : String)
    → lookup t m.device_type_to_adapter_map ≡ some adapter_id
    → is_some (type_of m adapter_id t) ≡ true

abbrev has : Option AdapterAgent → String → Bool
has none t = false
has (some aa) t = is_some (lookup t aa.device_types)

-- A new agent for an adapter loses no type of the old one.
abbrev Grows : Option AdapterAgent → AdapterAgent → Type 0
Grows old aa = (t : String) → has old t ≡ true → has (some aa) t ≡ true

pub is_some-type_of :
    (m : AdapterManager) (id t : String)
    → is_some (type_of m id t) ≡ has (lookup id m.adapter_agents) t
unfolding type_of
is_some-type_of m id t = at (lookup id m.adapter_agents)
  where
    at :
        (o : Option AdapterAgent)
        → is_some (elim o [ none ↦ none | some aa ↦ lookup t aa.device_types ]) ≡ has o t
    at none = refl
    at (some aa) = refl

Grows-none : (aa : AdapterAgent) → Grows none aa
Grows-none aa t h = cc

module _ (m : AdapterManager) where
  has-set_agent :
      (id : String) (aa : AdapterAgent)
      → Grows (lookup id m.adapter_agents) aa
      → (j t : String) → has (lookup j m.adapter_agents) t ≡ true
      → has (lookup j (set_agent id aa m).adapter_agents) t ≡ true
  has-set_agent id aa grows j t h = elim (Bool-cases (str_eq id j)) [
    | inl e ↦
        rw (lookup-insert id j aa m.adapter_agents, e)
          (grows t
            (subst (λ k. has (lookup k m.adapter_agents) t ≡ true) (sym ((eq_iff id j).0 e)) h))
    | inr e ↦ rw (lookup-insert id j aa m.adapter_agents, e) h
  ]

  set_agent-Knows :
      (id : String) (aa : AdapterAgent)
      → Grows (lookup id m.adapter_agents) aa
      → Knows m
      → Knows (set_agent id aa m)
  set_agent-Knows id aa grows h t adapter_id e =
      is_some-type_of (set_agent id aa m) adapter_id t
      ∙ has-set_agent id aa grows adapter_id t
          (sym (is_some-type_of m adapter_id t) ∙ h t adapter_id e)

-- An agent for an adapter that has none.
pub fresh-Knows :
    (m : AdapterManager) (id : String) (aa : AdapterAgent)
    → lookup id m.adapter_agents ≡ none
    → Knows m
    → Knows (set_agent id aa m)
fresh-Knows m id aa e h =
    set_agent-Knows m id aa (subst (λ o. Grows o aa) (sym e) (Grows-none aa)) h

abbrev HasType : String → Map String DeviceType → Type 0
HasType t ts = is_some (lookup t ts) ≡ true

HasType-add_type :
    (t : DeviceType) (j : String) (ts : Map String DeviceType)
    → HasType j ts
    → HasType j (add_type t ts)
unfolding add_type
HasType-add_type t j ts h = elim (Bool-cases (str_eq t.id j)) [
  | inl e ↦ rw (lookup-insert t.id j t ts, e) refl
  | inr e ↦ rw (lookup-insert t.id j t ts, e) h
]

HasType-added : (t : DeviceType) (ts : Map String DeviceType) → HasType t.id (add_type t ts)
unfolding add_type
HasType-added t ts = rw (lookup-insert t.id t.id t ts, same_refl t.id) refl

pub types_added :
    (ts : List DeviceType) (acc : Map String DeviceType)
    → All (λ t. HasType t.id (each add_type ts acc)) ts
types_added [] acc = tt
types_added (t ∷ ts) acc = (
  each-inv (HasType t.id) add_type (λ u s h. HasType-add_type u t.id s h) ts (add_type t acc)
      (HasType-added t acc),
  types_added ts (add_type t acc),
)

-- The agent of a type's adapter has the type once it is known.
known_type-has :
    (o : Option AdapterAgent) (all : List DeviceType) (t : DeviceType) (m : AdapterManager)
    → HasType t.id (each add_type all [])
    → has (lookup t.adapter (known_type o all t m).adapter_agents) t.id ≡ true
unfolding new_adapter_agent
known_type-has none all t m h =
    rw
      (
        lookup-insert t.adapter t.adapter (new_adapter_agent (bare_adapter t.adapter) all)
            m.adapter_agents,
        same_refl t.adapter,
      )
      h
known_type-has (some aa) all t m h =
    rw
      (
        lookup-insert t.adapter t.adapter (record aa { device_types = add_type t aa.device_types })
            m.adapter_agents,
        same_refl t.adapter,
      )
      (HasType-added t aa.device_types)

known_type-Knows :
    (o : Option AdapterAgent) (all : List DeviceType) (t : DeviceType) (m : AdapterManager)
    → lookup t.adapter m.adapter_agents ≡ o
    → Knows m
    → Knows (known_type o all t m)
unfolding new_adapter_agent
known_type-Knows none all t m e h =
    fresh-Knows m t.adapter (new_adapter_agent (bare_adapter t.adapter) all) e h
known_type-Knows (some aa) all t m e h =
    set_agent-Knows m t.adapter _
      (subst (λ o. Grows o (record aa { device_types = add_type t aa.device_types })) (sym e)
        (λ j k. HasType-add_type t j aa.device_types k))
      h

mapped-Knows :
    (k : AdapterManager) (t id : String)
    → has (lookup id k.adapter_agents) t ≡ true
    → Knows k
    → Knows (record k { device_type_to_adapter_map = insert t id k.device_type_to_adapter_map })
mapped-Knows k t id here h j adapter_id e = is_some-type_of _ adapter_id j ∙ at (str_eq t j) refl
  where
    at : (b : Bool) → str_eq t j ≡ b → has (lookup adapter_id k.adapter_agents) j ≡ true
    at true same =
        let new =
          subst
            (λ b. (if b then some id else lookup j k.device_type_to_adapter_map) ≡ some adapter_id)
            same (sym (lookup-insert t j id k.device_type_to_adapter_map) ∙ e) in
        subst (λ a. has (lookup a k.adapter_agents) j ≡ true) (some-injective _ _ new)
          (subst (λ u. has (lookup id k.adapter_agents) u ≡ true) ((eq_iff t j).0 same) here)
    at false differ =
        let old =
          subst
            (λ b. (if b then some id else lookup j k.device_type_to_adapter_map) ≡ some adapter_id)
            differ (sym (lookup-insert t j id k.device_type_to_adapter_map) ∙ e) in
        sym (is_some-type_of k adapter_id j) ∙ h j adapter_id old

set_device_type-Knows :
    (all : List DeviceType) (t : DeviceType) (m : AdapterManager)
    → HasType t.id (each add_type all [])
    → Knows m
    → Knows (set_device_type all t m)
unfolding set_device_type
set_device_type-Knows all t m i h =
    mapped-Knows _ t.id t.adapter (known_type-has (lookup t.adapter m.adapter_agents) all t m i)
      (known_type-Knows (lookup t.adapter m.adapter_agents) all t m refl h)

-- The loop over the device types, which are among all of them.
pub each-set_device_type-Knows :
    (all ts : List DeviceType) (m : AdapterManager)
    → All (λ t. HasType t.id (each add_type all [])) ts
    → Knows m
    → Knows (each (set_device_type all) ts m)
each-set_device_type-Knows all [] m i h = h
each-set_device_type-Knows all (t ∷ ts) m i h =
    each-set_device_type-Knows all ts (set_device_type all t m) i.1
      (set_device_type-Knows all t m i.0 h)

pub update_device_type-Knows :
    (t : DeviceType) (m : AdapterManager) → Knows m → Knows (update_device_type t m)
unfolding update_device_type
update_device_type-Knows t m h = set_device_type-Knows (t ∷ []) t m (HasType-added t []) h

pub update_adapter-Knows : (a : Adapter) (m : AdapterManager) → Knows m → Knows (update_adapter a m)
unfolding update_adapter new_adapter_agent
update_adapter-Knows a m h = at (lookup a.id m.adapter_agents) refl
  where
    at :
        (o : Option AdapterAgent)
        → lookup a.id m.adapter_agents ≡ o
        → Knows (elim o [
          | none ↦ set_agent a.id (new_adapter_agent a []) m
          | some aa ↦ set_agent a.id (record aa { adapter = a }) m
        ])
    at none e = fresh-Knows m a.id (new_adapter_agent a []) e h
    at (some aa) e =
        set_agent-Knows m a.id (record aa { adapter = a })
          (subst (λ o. Grows o (record aa { adapter = a })) (sym e) (λ t k. k)) h

update_communication_time-types :
    (now new : ℕ) (aa : AdapterAgent)
    → (update_communication_time now new aa).device_types ≡ aa.device_types
unfolding update_communication_time
update_communication_time-types now new aa =
    at (
      leb new now
      && elim (aa.adapter.last_communication) [ none ↦ true | some last ↦ ltb last new ])
  where
    at :
        (b : Bool)
        → (if b
            then record aa { adapter = record (aa.adapter) { last_communication = some new } }
            else aa).device_types
          ≡ aa.device_types
    at true = refl
    at false = refl

pub communication-Knows :
    (now : ℕ) (id : String) (timestamp : ℕ) (m : AdapterManager)
    → Knows m
    → Knows (update_last_adapter_communication now id timestamp m)
unfolding update_last_adapter_communication
communication-Knows now id timestamp m h =
    at (lookup id m.adapter_agents) refl (timestamp / 1000 * 10 ^ 9 + timestamp % 1000 * 1000)
  where
    at :
        (o : Option AdapterAgent)
        → lookup id m.adapter_agents ≡ o
        → (new : ℕ)
        → Knows
            (elim o [ none ↦ m | some aa ↦ set_agent id (update_communication_time now new aa) m ])
    at none e new = h
    at (some aa) e new =
        set_agent-Knows m id (update_communication_time now new aa)
          (subst (λ o. Grows o (update_communication_time now new aa)) (sym e)
            (λ t k. subst (HasType t) (sym (update_communication_time-types now new aa)) k))
          h
