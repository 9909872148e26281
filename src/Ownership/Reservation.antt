-- ===== src/Ownership/Reservation.antt =====
-- What the answers of a core to requests about its devices are (rw_core/core/device_ownership.go).
use vol_2619_voltha_go.Prelude.{
  String, Bool, true, false, Option, none, some, ◌≡◌, refl, arith, eq_refl, if◌then◌else◌, Map,
  lookup, insert, string_key, lookup-insert, sym, subst, some-injective,
}
use vol_2619_voltha_go.Status.{Result, ok, err}
use vol_2619_voltha_go.Ownership.{
  Ownership, DeviceOwnership, KvClient, Device, Managers, Identifier, device_id, logical_device_id,
  nil, unsupported, KeyOf, get_ownership_key, with_key, start_owning, own, own_key, owned_by_me,
  cached_or, key_of_device, key_of_logical_device,
}

-- The text of an identifier.
abbrev pub ref_of : Identifier → Option String
ref_of (device_id ref) = some ref
ref_of (logical_device_id ref) = some ref
ref_of _ = none

-- The core has recorded an answer: the identifier's key is cached, and the key's entry has the answer.
pub record IsRecorded (da : DeviceOwnership) (ref : String) (owned : Bool) : Type 0 where
  pub key : String
  pub entry : Ownership
  pub key_cached : lookup ref da.device_to_key_map ≡ some key
  pub entry_known : lookup key da.device_map ≡ some entry
  pub answer : entry.owned ≡ owned

-- What is answered is recorded.
abbrev Records : String → DeviceOwnership × Result Bool → Type 0
Records ref m = (b : Bool) → m.1 ≡ ok b → IsRecorded m.0 ref b

lookup-insert_self : (k v : String) (m : Map String String) → lookup k (insert k v m) ≡ some v
lookup-insert_self k v m = rw (lookup-insert k k v m, eq_refl k)

lookup-made :
    (k : String) (o : Ownership) (m : Map String Ownership) → lookup k (insert k o m) ≡ some o
lookup-made k o m = rw (lookup-insert k k o m, eq_refl k)

ok_inj : {a b : Bool} → ok a ≡ ok b → a ≡ b
ok_inj e = cc

own-Records :
    (kv : KvClient) (k : KeyOf) (da : DeviceOwnership) (o : Option Ownership)
    → lookup k.ownership_key da.device_map ≡ o
    → (k.cached ≡ true → lookup k.ref da.device_to_key_map ≡ some k.ownership_key)
    → Records k.ref (own kv k.ownership_key (with_key k da) o)
own-Records kv k da (some o) e c b a = at k.cached refl
  where
    at :
        (w : Bool)
        → k.cached ≡ w
        → IsRecorded
            (if w then da else record da {
              device_to_key_map = insert k.ref k.ownership_key da.device_to_key_map;
            })
            k.ref
            b
    at true t = record {
      key = k.ownership_key;
      entry = o;
      key_cached = c t;
      entry_known = e;
      answer = ok_inj a;
    }
    at false t = record {
      key = k.ownership_key;
      entry = o;
      key_cached = lookup-insert_self k.ref k.ownership_key da.device_to_key_map;
      entry_known = e;
      answer = ok_inj a;
    }
own-Records kv k da none e c b a = at k.cached refl a
  where
    at :
        (w : Bool)
        → k.cached ≡ w
        → (let m = start_owning kv k.ownership_key (
              if w then da else record da {
                device_to_key_map = insert k.ref k.ownership_key da.device_to_key_map;
              }) in
            m.1 ≡ ok b → IsRecorded m.0 k.ref b)
    at true t a' = record {
      key = k.ownership_key;
      entry = _;
      key_cached = c t;
      entry_known = lookup-made k.ownership_key _ da.device_map;
      answer = ok_inj a';
    }
    at false t a' = record {
      key = k.ownership_key;
      entry = _;
      key_cached = lookup-insert_self k.ref k.ownership_key da.device_to_key_map;
      entry_known = lookup-made k.ownership_key _ da.device_map;
      answer = ok_inj a';
    }

-- The key of an identifier, as the cache or a manager gives it.
module _ (kv : KvClient) (da : DeviceOwnership) (ref : String) where
  own_key-Records :
      (r : Result KeyOf)
      → ((k : KeyOf)
          → r ≡ ok k
          → (k.ref ≡ ref)
            × (k.cached ≡ true → lookup k.ref da.device_to_key_map ≡ some k.ownership_key))
      → Records ref (own_key kv da r)
  own_key-Records (err c) h b a = cc
  own_key-Records (ok k) h b a =
      let (r, c) = h k refl in
      subst (λ x. IsRecorded (own_key kv da (ok k)).0 x b) r
        (own-Records kv k da (lookup k.ownership_key da.device_map) refl c b a)

  cached_or-faithful :
      (o : Option String) (r : Result KeyOf)
      → lookup ref da.device_to_key_map ≡ o
      → ((k : KeyOf) → r ≡ ok k → (k.ref ≡ ref) × (k.cached ≡ false))
      → (k : KeyOf) → cached_or ref o r ≡ ok k
      → (k.ref ≡ ref) × (k.cached ≡ true → lookup k.ref da.device_to_key_map ≡ some k.ownership_key)
  cached_or-faithful none r e h k a = let (i, f) = h k a in (i, λ t. cc (f, t))
  cached_or-faithful (some key) r e h k a = (ground arith, λ t. ground arith)

key_of_device-new :
    (ref : String) (d : Option Device) (k : KeyOf)
    → key_of_device ref d ≡ ok k
    → (k.ref ≡ ref) × (k.cached ≡ false)
key_of_device-new ref none k a = cc
key_of_device-new ref (some d) k a = ground arith

key_of_logical_device-new :
    (ref : String) (d : Option String) (k : KeyOf)
    → key_of_logical_device ref d ≡ ok k
    → (k.ref ≡ ref) × (k.cached ≡ false)
key_of_logical_device-new ref none k a = cc
key_of_logical_device-new ref (some d) k a = ground arith

owned_by_me-Records :
    (kv : KvClient) (mgr : Managers) (id : Identifier) (da : DeviceOwnership) (ref : String)
    → ref_of id ≡ some ref
    → Records ref (owned_by_me kv mgr id da)
unfolding owned_by_me get_ownership_key
owned_by_me-Records kv mgr nil da ref i b a = cc
owned_by_me-Records kv mgr unsupported da ref i b a = cc
owned_by_me-Records kv mgr (device_id r) da ref i b a =
    subst (λ x. IsRecorded (owned_by_me kv mgr (device_id r) da).0 x b) (some-injective r ref i)
      (own_key-Records kv da r _
        (cached_or-faithful kv da r (lookup r da.device_to_key_map) _ refl
          (key_of_device-new r (mgr.get_device r)))
        b a)
owned_by_me-Records kv mgr (logical_device_id r) da ref i b a =
    subst (λ x. IsRecorded (owned_by_me kv mgr (logical_device_id r) da).0 x b)
      (some-injective r ref i)
      (own_key-Records kv da r _
        (cached_or-faithful kv da r (lookup r da.device_to_key_map) _ refl
          (key_of_logical_device-new r (mgr.get_root_device_id r)))
        b a)

own_recorded :
    (kv : KvClient) (da : DeviceOwnership) (ref : String) (b : Bool) (r : Result KeyOf)
    → (h : IsRecorded da ref b)
    → own_key kv da (cached_or ref (lookup ref da.device_to_key_map) r) ≡ (da, ok b)
own_recorded kv da ref b r h = rw h.key_cached (rw h.entry_known (rw h.answer))

answered :
    (kv : KvClient) (mgr : Managers) (id : Identifier) (da : DeviceOwnership) (ref : String)
    (b : Bool)
    → ref_of id ≡ some ref
    → IsRecorded da ref b
    → owned_by_me kv mgr id da ≡ (da, ok b)
unfolding owned_by_me get_ownership_key
answered kv mgr nil da ref b i h = cc
answered kv mgr unsupported da ref b i h = cc
answered kv mgr (device_id r) da ref b i h =
    own_recorded kv da r b _ (subst (λ x. IsRecorded da x b) (sym (some-injective r ref i)) h)
answered kv mgr (logical_device_id r) da ref b i h =
    own_recorded kv da r b _ (subst (λ x. IsRecorded da x b) (sym (some-injective r ref i)) h)

-- Once a core has answered a request for an identifier, it answers the same to the next one and
-- changes nothing, whatever the store and the managers would say then: the answer is its own record,
-- which only the monitoring of the device and its abandonment change.
pub owned_by_me-owned_by_me :
    (kv kv' : KvClient) (mgr mgr' : Managers) (id : Identifier) (da : DeviceOwnership) (b : Bool)
    → (owned_by_me kv mgr id da).1 ≡ ok b
    → owned_by_me kv' mgr' id (owned_by_me kv mgr id da).0 ≡ ((owned_by_me kv mgr id da).0, ok b)
owned_by_me-owned_by_me kv kv' mgr mgr' (device_id r) da b a =
    answered kv' mgr' (device_id r) _ r b refl
      (owned_by_me-Records kv mgr (device_id r) da r refl b a)
owned_by_me-owned_by_me kv kv' mgr mgr' (logical_device_id r) da b a =
    answered kv' mgr' (logical_device_id r) _ r b refl
      (owned_by_me-Records kv mgr (logical_device_id r) da r refl b a)
owned_by_me-owned_by_me kv kv' mgr mgr' nil da b a = unfold owned_by_me get_ownership_key in cc a
owned_by_me-owned_by_me kv kv' mgr mgr' unsupported da b a =
    unfold owned_by_me get_ownership_key in cc a
