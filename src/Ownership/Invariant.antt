-- ===== src/Ownership/Invariant.antt =====
-- What a core's requests keep of its tables (rw_core/core/device_ownership.go).
use vol_2619_voltha_go.Prelude.{
  ℕ, String, Bool, true, false, Option, none, some, List, [], ◌∷◌, ◌≡◌, refl, str_eq, if◌then◌else◌,
  lookup, insert, delete, string_key, Bool-cases, inl, inr, ◌&&◌, ap, ◌∙◌, ◌≤◌, arith,
}
use vol_2619_voltha_go.Status.{Result, ok, err}
use vol_2619_voltha_go.Status.{Run, returned, panicked, and_then, IfReturns}
use vol_2619_voltha_go.Ownership.{
  Ownership, DeviceOwnership, KvClient, Managers, Identifier, KeyOf, MonitorEvent, starting,
  has_ticker, exit_signal, tick, channel_closed, new_device_ownership, try_to_reserve_key,
  with_owner, set_ownership, get_ownership, monitor_ownership, get_ownership_key, with_key,
  start_owning, own, own_key, owned_by_me, drop_refs, close_channel, abandon, abandon_device,
}
use vol_2619_voltha_go.Ownership.Tables.{
  IsConsistent, IsConsistent-cache, IsConsistent-uncache, IsConsistent-changed,
  IsConsistent-enlarged, known-enlarged, IsConsistent-reduced,
}
use vol_2619_voltha_go.Ownership.Timeout.{
  SameTimeout, own-SameTimeout, set-SameTimeout, abandon-SameTimeout,
}

own-IsConsistent :
    (kv : KvClient) (k : KeyOf) (da : DeviceOwnership) (o : Option Ownership)
    → lookup k.ownership_key da.device_map ≡ o
    → IsConsistent da
    → IsConsistent (own kv k.ownership_key (with_key k da) o).0
own-IsConsistent kv k da (some o) e h = at k.cached
  where
    at :
        (b : Bool)
        → IsConsistent (
            if b then da else record da {
              device_to_key_map = insert k.ref k.ownership_key da.device_to_key_map;
            })
    at true = h
    at false = IsConsistent-cache da k.ref k.ownership_key (rw e) h
own-IsConsistent kv k da none e h = at k.cached
  where
    at :
        (b : Bool)
        → IsConsistent
            (start_owning kv k.ownership_key (
              if b then da else record da {
                device_to_key_map = insert k.ref k.ownership_key da.device_to_key_map;
              })).0
    at true = IsConsistent-enlarged da k.ownership_key _ e h
    at false =
        IsConsistent-cache _ k.ref k.ownership_key (known-enlarged da k.ownership_key _ e h)
          (IsConsistent-enlarged da k.ownership_key _ e h)

own_key-IsConsistent :
    (kv : KvClient) (da : DeviceOwnership) (r : Result KeyOf)
    → IsConsistent da
    → IsConsistent (own_key kv da r).0
own_key-IsConsistent kv da (err c) h = h
own_key-IsConsistent kv da (ok k) h =
    own-IsConsistent kv k da (lookup k.ownership_key da.device_map) refl h

with_owner-IsConsistent :
    (id : String) (owner : Bool) (da : DeviceOwnership) (o : Option Ownership)
    → lookup id da.device_map ≡ o
    → IsConsistent da
    → IsConsistent (with_owner id owner da o).0
with_owner-IsConsistent id owner da none e h = h
with_owner-IsConsistent id owner da (some o) e h = IsConsistent-changed da id o owner e h

-- The code returns, and the result has the property.
abbrev pub Returns : {A : Type 0} → (A → Type 0) → Run A → Type 0
Returns P (returned a) = P a
Returns P panicked = ⊥

-- The time-out of the reservations makes a ticker.
abbrev Ticks : DeviceOwnership → Type 0
Ticks da = has_ticker da.reservation_timeout ≡ true

monitor-IsConsistent :
    (kv : KvClient) (id : String) (ev : MonitorEvent) (da : DeviceOwnership)
    → Ticks da
    → IsConsistent da
    → Returns (λ r. IsConsistent r.0) (monitor_ownership kv id ev da)
unfolding monitor_ownership set_ownership
monitor-IsConsistent kv id starting da t h = rw t h
monitor-IsConsistent kv id exit_signal da t h = h
monitor-IsConsistent kv id channel_closed da t h = h
monitor-IsConsistent kv id tick da t h =
    at ((get_ownership id da).0 && (get_ownership id da).1) (try_to_reserve_key kv id da)
  where
    at :
        (b owner : Bool)
        → Returns
            (λ r. IsConsistent r.0)
            (if◌then◌else◌ {A = Run (DeviceOwnership × Bool)} b
              (returned (da, false))
              (returned ((set_ownership id owner da).0, false)))
    at true owner = h
    at false owner = with_owner-IsConsistent id owner da (lookup id da.device_map) refl h

pub close_open :
    (o : Ownership) (da : DeviceOwnership) (h : IsConsistent da) (id : String)
    → lookup id da.device_map ≡ some o
    → abandon id da (some o)
      ≡ returned (
        record da {
          device_map = delete id da.device_map;
          device_to_key_map = drop_refs id da.device_to_key_map;
          closed = o.chnl ∷ da.closed;
        },
        none,
      )
unfolding close_channel
close_open o da h id e = rw (h.open_channels id o e)

abandon-IsConsistent :
    (id : String) (da : DeviceOwnership) (o : Option Ownership)
    → lookup id da.device_map ≡ o
    → IsConsistent da
    → Returns (λ r. IsConsistent r.0) (abandon id da o)
abandon-IsConsistent id da none e h = IsConsistent-uncache da id h
abandon-IsConsistent id da (some o) e h =
    rw (close_open o da h id e) (IsConsistent-reduced da id o e h)

abandon_device-IsConsistent :
    (id : String) (da : DeviceOwnership)
    → IsConsistent da
    → Returns (λ r. IsConsistent r.0) (abandon_device id da)
unfolding abandon_device
abandon_device-IsConsistent id da h = elim (Bool-cases (str_eq id "")) [
  | inl e ↦ rw e h
  | inr e ↦ rw e (abandon-IsConsistent id da (lookup id da.device_map) refl h)
]

-- What a core that has not been stopped is asked, with what the store and the managers answer then.
pub data Request : Type 0 where
  own_request : KvClient → Managers → Identifier → Request
  abandon_request : String → Request
  monitor_request : KvClient → String → MonitorEvent → Request

abbrev drop_result : {A : Type 0} → Run (DeviceOwnership × A) → Run DeviceOwnership
drop_result (returned (da, e)) = returned da
drop_result panicked = panicked

unfoldable pub handle : Request → DeviceOwnership → Run DeviceOwnership
handle (own_request kv mgr id) da = returned (owned_by_me kv mgr id da).0
handle (abandon_request id) da = drop_result (abandon_device id da)
handle (monitor_request kv id ev) da = drop_result (monitor_ownership kv id ev da)

unfoldable pub serve : List Request → DeviceOwnership → Run DeviceOwnership
serve [] da = returned da
serve (r ∷ rs) da = and_then (handle r da) (serve rs)

drop_result-Returns :
    {A : Type 0} (P : DeviceOwnership → Type 0) (r : Run (DeviceOwnership × A))
    → Returns (λ s. P s.0) r
    → Returns P (drop_result r)
drop_result-Returns P (returned (da, e)) h = h
drop_result-Returns P panicked h = h

handle-IsConsistent :
    (r : Request) (da : DeviceOwnership)
    → Ticks da
    → IsConsistent da
    → Returns IsConsistent (handle r da)
unfolding handle owned_by_me
handle-IsConsistent (own_request kv mgr id) da t h =
    own_key-IsConsistent kv da (get_ownership_key mgr id da) h
handle-IsConsistent (abandon_request id) da t h =
    drop_result-Returns IsConsistent (abandon_device id da) (abandon_device-IsConsistent id da h)
handle-IsConsistent (monitor_request kv id ev) da t h =
    drop_result-Returns IsConsistent (monitor_ownership kv id ev da)
      (monitor-IsConsistent kv id ev da t h)

-- What a request that does not panic leaves of the time-out.
module _ (da : DeviceOwnership) where
  if-SameTimeout :
      {A : Type 0} (b : Bool) (r s : Run (DeviceOwnership × A))
      → IfReturns (λ r. SameTimeout da r.0) r
      → IfReturns (λ r. SameTimeout da r.0) s
      → IfReturns (SameTimeout da) (drop_result (if b then r else s))
  if-SameTimeout true (returned p) s h k = h
  if-SameTimeout true panicked s h k = tt
  if-SameTimeout false r (returned p) h k = k
  if-SameTimeout false r panicked h k = tt

  handle-SameTimeout : (r : Request) → IfReturns (SameTimeout da) (handle r da)
  unfolding handle owned_by_me abandon_device monitor_ownership set_ownership
  handle-SameTimeout (own_request kv mgr id) = own-SameTimeout da kv (get_ownership_key mgr id da)
  handle-SameTimeout (abandon_request id) =
      if-SameTimeout (str_eq id "") _ _ refl (abandon-SameTimeout da id (lookup id da.device_map))
  handle-SameTimeout (monitor_request kv id starting) =
      if-SameTimeout (has_ticker da.reservation_timeout) _ _ refl tt
  handle-SameTimeout (monitor_request kv id exit_signal) = refl
  handle-SameTimeout (monitor_request kv id channel_closed) = refl
  handle-SameTimeout (monitor_request kv id tick) =
      if-SameTimeout ((get_ownership id da).0 && (get_ownership id da).1) _ _ refl
        (set-SameTimeout da id (try_to_reserve_key kv id da) (lookup id da.device_map))

then-IsConsistent :
    (m : Run DeviceOwnership) (f : DeviceOwnership → Run DeviceOwnership)
    (P : DeviceOwnership → Type 0)
    → Returns IsConsistent m
    → IfReturns P m
    → ((da : DeviceOwnership) → P da → IsConsistent da → Returns IsConsistent (f da))
    → Returns IsConsistent (and_then m f)
then-IsConsistent (returned da) f P h t k = k da t h
then-IsConsistent panicked f P h t k = h

serve_keeps :
    (rs : List Request) (da : DeviceOwnership)
    → Ticks da
    → IsConsistent da
    → Returns IsConsistent (serve rs da)
unfolding serve
serve_keeps [] da t h = h
serve_keeps (r ∷ rs) da t h =
    then-IsConsistent (handle r da) (serve rs) (SameTimeout da) (handle-IsConsistent r da t h)
      (handle-SameTimeout da r) (λ d same k. serve_keeps rs d (ap has_ticker same ∙ t) k)

ticks_lem : (timeout : ℕ) → 3 ≤ timeout → timeout ≤ 27670116110 → has_ticker timeout ≡ true
unfolding has_ticker
ticks_lem timeout low high = ground arith

new-IsConsistent : (id prefix : String) (n : ℕ) → IsConsistent (new_device_ownership id prefix n)
unfolding new_device_ownership lookup
new-IsConsistent id prefix n = record {
  ids = λ k o e. cc;
  older = λ k o e. absurd (cc);
  open_channels = λ k o e. cc;
  distinct = λ k j o p e e' s. cc;
  closed_older = λ c e. absurd (cc);
  refs = tt;
}

-- With a reservation time-out of at least 3 seconds, and of at most 27670116110, a core that is
-- not stopped never panics, whatever it is asked and whatever the store and the managers answer:
-- the monitoring of a device gets its ticker, and no monitoring channel is closed twice. The
-- tables of the core stay consistent: each entry bears the name of its key, no two devices share
-- a channel, all their channels are open, and every cached ownership key is the key of a device
-- that the core knows.
pub serve-IsConsistent :
    (id prefix : String) (timeout : ℕ) (rs : List Request)
    → 3 ≤ timeout
    → timeout ≤ 27670116110
    → Returns IsConsistent (serve rs (new_device_ownership id prefix timeout))
unfolding new_device_ownership
serve-IsConsistent id prefix timeout rs low high =
    serve_keeps rs (new_device_ownership id prefix timeout) (ticks_lem timeout low high)
      (new-IsConsistent id prefix timeout)
