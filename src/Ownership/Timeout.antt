-- ===== src/Ownership/Timeout.antt =====
-- The operations of a core keep the time-out of its reservations (rw_core/core/device_ownership.go).
use vol_2619_voltha_go.Prelude.{
  String, Bool, true, false, Option, none, some, ◌∷◌, ◌≡◌, refl, if◌then◌else◌, lookup, insert,
  delete, string_key,
}
use vol_2619_voltha_go.Status.{Result, ok, err, Run, returned, panicked, IfReturns}
use vol_2619_voltha_go.Ownership.{
  Ownership, DeviceOwnership, KvClient, KeyOf, with_owner, with_key, own, own_key, drop_refs,
  close_channel, abandon, is_closed, and_error,
}

module _ (da : DeviceOwnership) where
  abbrev pub SameTimeout : DeviceOwnership → Type 0
  SameTimeout d = d.reservation_timeout ≡ da.reservation_timeout

  cached-SameTimeout : (k : KeyOf) → SameTimeout (with_key k da)
  cached-SameTimeout k = at k.cached
    where
      at :
          (b : Bool)
          → SameTimeout (
              if b then da else record da {
                device_to_key_map = insert k.ref k.ownership_key da.device_to_key_map;
              })
      at true = refl
      at false = refl

  pub own-SameTimeout : (kv : KvClient) (r : Result KeyOf) → SameTimeout (own_key kv da r).0
  own-SameTimeout kv (err c) = refl
  own-SameTimeout kv (ok k) = at (lookup k.ownership_key da.device_map)
    where
      at : (o : Option Ownership) → SameTimeout (own kv k.ownership_key (with_key k da) o).0
      at none = cached-SameTimeout k
      at (some o) = cached-SameTimeout k

  pub set-SameTimeout :
      (id : String) (owner : Bool) (o : Option Ownership) → SameTimeout (with_owner id owner da o).0
  set-SameTimeout id owner none = refl
  set-SameTimeout id owner (some o) = refl

  pub abandon-SameTimeout :
      (id : String) (o : Option Ownership) → IfReturns (λ r. SameTimeout r.0) (abandon id da o)
  unfolding close_channel
  abandon-SameTimeout id none = refl
  abandon-SameTimeout id (some o) = at (is_closed o.chnl da.closed)
    where
      at :
          (b : Bool)
          → IfReturns
              (λ r. SameTimeout r.0)
              (and_error none (
                if◌then◌else◌ {A = Run DeviceOwnership} b panicked (
                  returned (record da {
                    device_to_key_map = drop_refs id da.device_to_key_map;
                    device_map = delete id da.device_map;
                    closed = o.chnl ∷ da.closed;
                  }))))
      at true = tt
      at false = refl
