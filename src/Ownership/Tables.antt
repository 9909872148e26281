-- ===== src/Ownership/Tables.antt =====
-- The two tables of a core and its channels: what every state keeps between operations
-- (rw_core/core/device_ownership.go).
use vol_2619_voltha_go.Prelude.{
  ℕ, suc, ◌<◌, String, Bool, true, false, Option, none, some, [], ◌∷◌, ◌≡◌, refl, arith, str_eq,
  eq_iff, if◌then◌else◌, string_key, Map, lookup, insert, delete, lookup-insert, lookup-delete, All,
  Bool-cases, ◌⊎◌, inl, inr, ap, eq_refl, ◌==◌, ==_iff, sym, ◌∙◌,
}
use vol_2619_voltha_go.Ownership.{Ownership, DeviceOwnership, is_closed, drop_refs}

abbrev pub is_known : Option Ownership → Bool
is_known none = false
is_known (some _) = true

-- Every cached key is the key of a known device.
abbrev pub Refs : Map String Ownership → Map String String → Type 0
Refs dm = All (λ e. is_known (lookup e.1 dm) ≡ true)

-- The entry of a key bears its name; the channels of two keys differ, are older than the next one and
-- are open; and every cached key is the key of a known device.
pub record IsConsistent (da : DeviceOwnership) : Type 0 where
  pub ids : (k : String) (o : Ownership) → lookup k da.device_map ≡ some o → o.id ≡ k
  pub older :
      (k : String) (o : Ownership) → lookup k da.device_map ≡ some o → o.chnl < da.next_channel
  pub open_channels :
      (k : String) (o : Ownership)
      → lookup k da.device_map ≡ some o
      → is_closed o.chnl da.closed ≡ false
  pub distinct :
      (k j : String) (o p : Ownership)
      → lookup k da.device_map ≡ some o
      → lookup j da.device_map ≡ some p
      → o.chnl ≡ p.chnl
      → k ≡ j
  pub closed_older : (c : ℕ) → is_closed c da.closed ≡ true → c < da.next_channel
  pub refs : Refs da.device_map da.device_to_key_map

Refs-grow :
    (dm dm' : Map String Ownership)
    → ((k : String) → is_known (lookup k dm) ≡ true → is_known (lookup k dm') ≡ true)
    → (m : Map String String) → Refs dm m
    → Refs dm' m
Refs-grow dm dm' g [] h = tt
Refs-grow dm dm' g ((r, k) ∷ m) h = (g k h.0, Refs-grow dm dm' g m h.1)

Refs-insert :
    (dm : Map String Ownership) (r k : String) (m : Map String String)
    → is_known (lookup k dm) ≡ true
    → Refs dm m
    → Refs dm (insert r k m)
unfolding insert
Refs-insert dm r k [] h t = (h, tt)
Refs-insert dm r k ((s, j) ∷ m) h t = elim (Bool-cases (str_eq s r)) [
  | inl e ↦ rw e (h, t.1)
  | inr e ↦ rw e (t.0, Refs-insert dm r k m h t.1)
]

Refs-delete :
    (dm : Map String Ownership) (r : String) (m : Map String String)
    → Refs dm m
    → Refs dm (delete r m)
unfolding delete
Refs-delete dm r [] t = tt
Refs-delete dm r ((s, j) ∷ m) t = elim (Bool-cases (str_eq s r)) [
  | inl e ↦ rw e (Refs-delete dm r m t.1)
  | inr e ↦ rw e (t.0, Refs-delete dm r m t.1)
]

-- After the loop of `AbandonDevice` the cached keys do not name the device, so its entry can go.
Refs-drop_refs :
    (dm : Map String Ownership) (id : String) (m : Map String String)
    → Refs dm m
    → Refs (delete id dm) (drop_refs id m)
unfolding drop_refs
Refs-drop_refs dm id [] t = tt
Refs-drop_refs dm id ((s, j) ∷ m) t = elim (Bool-cases (str_eq id j)) [
  | inl e ↦ rw e (Refs-drop_refs dm id m t.1)
  | inr e ↦ rw e (ground (arith, lookup-delete id j dm, t.0), Refs-drop_refs dm id m t.1)
]

-- No cached key is the abandoned one.
pub drop_refs-ne :
    (id : String) (m : Map String String) → All (λ e. str_eq id e.1 ≡ false) (drop_refs id m)
unfolding drop_refs
drop_refs-ne id [] = tt
drop_refs-ne id ((s, j) ∷ m) = elim (Bool-cases (str_eq id j)) [
  | inl e ↦ rw e (drop_refs-ne id m)
  | inr e ↦ rw e (e, drop_refs-ne id m)
]

-- Caching the key of a known device keeps the tables consistent.
pub IsConsistent-cache :
    (da : DeviceOwnership) (r k : String)
    → is_known (lookup k da.device_map) ≡ true
    → IsConsistent da
    → IsConsistent (record da { device_to_key_map = insert r k da.device_to_key_map })
IsConsistent-cache da r k known h = record {
  ids = h.ids;
  older = h.older;
  open_channels = h.open_channels;
  distinct = h.distinct;
  closed_older = h.closed_older;
  refs = Refs-insert da.device_map r k da.device_to_key_map known h.refs;
}

pub IsConsistent-uncache :
    (da : DeviceOwnership) (r : String)
    → IsConsistent da
    → IsConsistent (record da { device_to_key_map = delete r da.device_to_key_map })
IsConsistent-uncache da r h = record {
  ids = h.ids;
  older = h.older;
  open_channels = h.open_channels;
  distinct = h.distinct;
  closed_older = h.closed_older;
  refs = Refs-delete da.device_map r da.device_to_key_map h.refs;
}

-- A new flag for a known device.
module _ (da : DeviceOwnership) (id : String) (o : Ownership) (owner : Bool)
    (found : lookup id da.device_map ≡ some o) (h : IsConsistent da) where
  abbrev changed : Map String Ownership
  changed = insert id (record o { owned = owner }) da.device_map

  lookup-changed :
      (k : String)
      → lookup k changed
        ≡ (if str_eq id k then some (record o { owned = owner }) else lookup k da.device_map)
  lookup-changed k = lookup-insert id k (record o { owned = owner }) da.device_map

  entry :
      (k : String) (p : Ownership)
      → lookup k changed ≡ some p
      → (q : Ownership) × (lookup k da.device_map ≡ some q) × (q.id ≡ p.id) × (q.chnl ≡ p.chnl)
  entry k p e = elim (Bool-cases (str_eq id k)) [
    | inl same ↦ (
      o,
      cc ((eq_iff id k).0 same, found),
      cc (lookup-changed k, same, e),
      cc (lookup-changed k, same, e),
    )
    | inr other ↦ (p, cc (lookup-changed k, other, e), refl, refl)
  ]

  pub IsConsistent-changed : IsConsistent (record da { device_map = changed })
  IsConsistent-changed = record {
    ids = λ k p e. let (q, at, i, c) = entry k p e in sym i ∙ h.ids k q at;
    older = λ k p e. let (q, at, i, c) = entry k p e in omega (arith, h.older k q at);
    open_channels = λ k p e. let (q, at, i, c) = entry k p e in cc (h.open_channels k q at);
    distinct = λ k j p p' e e' same.
        let (q, at, i, c) = entry k p e in
        let (q', at', i', c') = entry j p' e' in h.distinct k j q q' at at' (c ∙ same ∙ sym c');
    closed_older = h.closed_older;
    refs =
        Refs-grow da.device_map changed (λ k x. ground (arith, lookup-changed k, x))
          da.device_to_key_map h.refs;
  }

-- A new device, with the next channel.
module _ (da : DeviceOwnership) (key : String) (owner : Bool)
    (missing : lookup key da.device_map ≡ none) (h : IsConsistent da) where
  abbrev made : Ownership
  made = record { id = key; owned = owner; chnl = da.next_channel }

  abbrev enlarged : Map String Ownership
  enlarged = insert key made da.device_map

  lookup-enlarged :
      (k : String)
      → lookup k enlarged ≡ (if str_eq key k then some made else lookup k da.device_map)
  lookup-enlarged k = lookup-insert key k made da.device_map

  -- An entry is the new one, or an old one.
  which :
      (k : String) (p : Ownership)
      → lookup k enlarged ≡ some p
      → ((key ≡ k) × (made ≡ p)) ⊎ (lookup k da.device_map ≡ some p)
  which k p e = elim (Bool-cases (str_eq key k)) [
    | inl same ↦ inl ((eq_iff key k).0 same, cc (lookup-enlarged k, same, e))
    | inr other ↦ inr (cc (lookup-enlarged k, other, e))
  ]

  open_next : is_closed da.next_channel da.closed ≡ false
  open_next = elim (Bool-cases (is_closed da.next_channel da.closed)) [
    | inl e ↦ absurd (omega (arith, h.closed_older da.next_channel e))
    | inr e ↦ e
  ]

  pub IsConsistent-enlarged :
      IsConsistent (record da { device_map = enlarged; next_channel = suc da.next_channel })
  IsConsistent-enlarged = record {
    ids = λ k p e. elim (which k p e) [ inl new ↦ cc (new.0, new.1) | inr old ↦ h.ids k p old ];
    older = λ k p e. elim (which k p e) [
      | inl new ↦ omega (arith, ap (λ (o : Ownership). o.chnl) new.1)
      | inr old ↦ omega (arith, h.older k p old)
    ];
    open_channels = λ k p e. elim (which k p e) [
      | inl new ↦ cc (new.1, open_next)
      | inr old ↦ h.open_channels k p old
    ];
    distinct = λ k j p q e e' same. elim (which k p e) [
      | inl new ↦ elim (which j q e') [
        | inl new' ↦ sym new.0 ∙ new'.0
        | inr old' ↦ absurd (omega (arith, h.older j q old', ap (λ (o : Ownership). o.chnl) new.1))
      ]
      | inr old ↦ elim (which j q e') [
        | inl new' ↦ absurd (omega (arith, h.older k p old, ap (λ (o : Ownership). o.chnl) new'.1))
        | inr old' ↦ h.distinct k j p q old old' same
      ]
    ];
    closed_older = λ c e. omega (arith, h.closed_older c e);
    refs =
        Refs-grow da.device_map enlarged (λ k x. ground (arith, lookup-enlarged k, x))
          da.device_to_key_map h.refs;
  }

  pub known-enlarged : is_known (lookup key enlarged) ≡ true
  known-enlarged = ground (arith, lookup-enlarged key, eq_refl key)

-- An abandoned device: its entry and the keys that name it are gone, and its channel is closed.
module _ (da : DeviceOwnership) (id : String) (o : Ownership)
    (found : lookup id da.device_map ≡ some o) (h : IsConsistent da) where
  abbrev reduced : Map String Ownership
  reduced = delete id da.device_map

  lookup-reduced :
      (k : String) → lookup k reduced ≡ (if str_eq id k then none else lookup k da.device_map)
  lookup-reduced k = lookup-delete id k da.device_map

  kept :
      (k : String) (p : Ownership)
      → lookup k reduced ≡ some p
      → (str_eq id k ≡ false) × (lookup k da.device_map ≡ some p)
  kept k p e = elim (Bool-cases (str_eq id k)) [
    | inl same ↦ cc (lookup-reduced k, same, e)
    | inr other ↦ (other, cc (lookup-reduced k, other, e))
  ]

  other_channel :
      (k : String) (p : Ownership) → lookup k reduced ≡ some p → (o.chnl == p.chnl) ≡ false
  other_channel k p e = elim (Bool-cases (o.chnl == p.chnl)) [
    | inl same ↦
        let (ne, at) = kept k p e in
        cc (ne, (eq_iff id k).1 (h.distinct id k o p found at ((==_iff o.chnl p.chnl).0 same)))
    | inr other ↦ other
  ]

  pub IsConsistent-reduced : IsConsistent (record da {
    device_map = reduced;
    device_to_key_map = drop_refs id da.device_to_key_map;
    closed = o.chnl ∷ da.closed;
  })
  IsConsistent-reduced = record {
    ids = λ k p e. h.ids k p (kept k p e).1;
    older = λ k p e. h.older k p (kept k p e).1;
    open_channels = λ k p e. rw (other_channel k p e) (h.open_channels k p (kept k p e).1);
    distinct = λ k j p q e e' same. h.distinct k j p q (kept k p e).1 (kept j q e').1 same;
    closed_older = λ c e. ground (arith, h.closed_older c, h.older id o found);
    refs = Refs-drop_refs da.device_map id da.device_to_key_map h.refs;
  }
