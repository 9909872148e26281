-- ===== src/Ownership.antt =====
-- rw_core/core/device_ownership.go: which core owns a root device. The reservations in the key-value
-- store are made by a client that is a parameter here, as are the device managers that tell the root
-- device of an identifier. A channel is a number; closing one twice is Go's panic. An operation holds
-- the locks that it needs, so operations run one after another; the monitoring routine of a device is
-- a step for each of its events.

pub mod Tables
mod Timeout
pub mod Invariant
pub mod Reservation
pub mod Abandonment
use vol_2619_voltha_go.Prelude.{
  ℕ, suc, ◌+◌, ◌*◌, ◌/◌, ◌%◌, ◌^◌, ltb, String, Bool, true, false, Option, none, some, List, [],
  ◌∷◌, ◌&&◌, ◌||◌, not, ◌==◌, str_eq, if◌then◌else◌, string_key, Map, lookup, insert, delete, ◌++◌,
}
use vol_2619_voltha_go.Status.{
  Code, failed_precondition, not_found, invalid_argument, Result, ok, err, Run, returned, panicked,
  and_then,
}

pub record Ownership : Type 0 where
  pub id : String
  pub owned : Bool
  pub chnl : ℕ

-- `exit_signals` counts what was sent on the exit channel, `closed` lists the closed channels, and
-- `next_channel` is the next channel that `make` gives out.
pub record DeviceOwnership : Type 0 where
  pub instance_id : String
  pub ownership_prefix : String
  pub reservation_timeout : ℕ
  pub device_map : Map String Ownership
  pub device_to_key_map : Map String String
  pub exit_signals : ℕ
  pub closed : List ℕ
  pub next_channel : ℕ

-- What the client answers to a reservation: nil, a text, or a value that is no text.
pub data Holder : Type 0 where
  nobody : Holder
  held_by : String → Holder
  not_text : Holder

-- The reservation of the key-value store's client, from the prefix and the device that make the key.
-- A renewal changes nothing that a core keeps, and its answer is only logged.
pub record KvClient : Type 0 where
  pub reserve : String → String → String → ℕ → Holder

-- The devices and logical devices that the managers know.
pub record Device : Type 0 where
  pub id : String
  pub root : Bool
  pub parent_id : String

pub record Managers : Type 0 where
  pub get_device : String → Option Device
  pub get_root_device_id : String → Option String

-- The dynamic types that `getOwnershipKey` tells apart.
pub data Identifier : Type 0 where
  nil : Identifier
  device_id : String → Identifier
  logical_device_id : String → Identifier
  unsupported : Identifier

unfoldable pub new_device_ownership : String → String → ℕ → DeviceOwnership
new_device_ownership id prefix timeout = record {
  instance_id = id;
  ownership_prefix = prefix;
  reservation_timeout = timeout;
  device_map = [];
  device_to_key_map = [];
  exit_signals = 0;
  closed = [];
  next_channel = 0;
}

abbrev pub is_holder : Holder → String → Bool
is_holder nobody me = false
is_holder (held_by owner) me = str_eq owner me
is_holder not_text me = str_eq "" me

unfoldable pub try_to_reserve_key : KvClient → String → DeviceOwnership → Bool
try_to_reserve_key kv id da =
    is_holder (kv.reserve da.ownership_prefix id da.instance_id da.reservation_timeout)
      da.instance_id

-- Is the device known, and is it owned by this core?
abbrev pub ownership_of : Option Ownership → Bool × Bool
ownership_of none = (false, false)
ownership_of (some o) = (true, o.owned)

unfoldable pub get_ownership : String → DeviceOwnership → Bool × Bool
get_ownership id da = ownership_of (lookup id da.device_map)

abbrev pub with_owner :
    String → Bool → DeviceOwnership → Option Ownership → DeviceOwnership × Option Code
with_owner id owner da none = (da, some not_found)
with_owner id owner da (some o) =
    (record da { device_map = insert id (record o { owned = owner }) da.device_map }, none)

unfoldable pub set_ownership : String → Bool → DeviceOwnership → DeviceOwnership × Option Code
set_ownership id owner da = with_owner id owner da (lookup id da.device_map)

-- The nanoseconds between two ticks, an unsigned reading of a number of 64 bits. A negative time-out,
-- for which there is no ticker either, is left out.
abbrev pub ticker_duration : ℕ → ℕ
ticker_duration timeout = timeout / 3 * 1000000000 % 2 ^ 64

-- `time.NewTicker` panics unless the number, which is signed, is positive.
unfoldable pub has_ticker : ℕ → Bool
has_ticker timeout = ltb 0 (ticker_duration timeout) && ltb (ticker_duration timeout) (2 ^ 63)

-- The start of the monitoring routine of a device, and what wakes it.
pub data MonitorEvent : Type 0 where
  starting exit_signal tick channel_closed : MonitorEvent

-- The start or one round of `monitorOwnership`; the flag says that the routine ends.
unfoldable pub monitor_ownership :
    KvClient → String → MonitorEvent → DeviceOwnership → Run (DeviceOwnership × Bool)
monitor_ownership kv id starting da =
    if has_ticker da.reservation_timeout then returned (da, false) else panicked
monitor_ownership kv id exit_signal da = returned (da, true)
monitor_ownership kv id channel_closed da = returned (da, true)
monitor_ownership kv id tick da =
    let (device_owned, owned_by_me) = get_ownership id da in
    if device_owned && owned_by_me
    then returned (da, false)
    else returned ((set_ownership id (try_to_reserve_key kv id da) da).0, false)

unfoldable pub get_all_device_ids_owned_by_me : Map String Ownership → List String
get_all_device_ids_owned_by_me [] = []
get_all_device_ids_owned_by_me ((_, o) ∷ m) =
    let rest = get_all_device_ids_owned_by_me m in if o.owned then o.id ∷ rest else rest

-- The ownership key of an identifier, the identifier as a text, and whether the key was cached.
pub record KeyOf : Type 0 where
  pub ownership_key : String
  pub ref : String
  pub cached : Bool

abbrev pub key_of_device : String → Option Device → Result KeyOf
key_of_device ref none = err not_found
key_of_device ref (some d) =
    ok (record { ownership_key = if d.root then d.id else d.parent_id; ref = ref; cached = false })

abbrev pub key_of_logical_device : String → Option String → Result KeyOf
key_of_logical_device ref none = err not_found
key_of_logical_device ref (some root_id) =
    ok (record { ownership_key = root_id; ref = ref; cached = false })

abbrev pub cached_or : String → Option String → Result KeyOf → Result KeyOf
cached_or ref none otherwise = otherwise
cached_or ref (some key) otherwise = ok (record { ownership_key = key; ref = ref; cached = true })

unfoldable pub get_ownership_key : Managers → Identifier → DeviceOwnership → Result KeyOf
get_ownership_key mgr nil da = err invalid_argument
get_ownership_key mgr (device_id ref) da =
    cached_or ref (lookup ref da.device_to_key_map) (key_of_device ref (mgr.get_device ref))
get_ownership_key mgr (logical_device_id ref) da =
    cached_or ref (lookup ref da.device_to_key_map)
      (key_of_logical_device ref (mgr.get_root_device_id ref))
get_ownership_key mgr unsupported da = err not_found

abbrev pub with_key : KeyOf → DeviceOwnership → DeviceOwnership
with_key k da =
    if k.cached
    then da
    else record da { device_to_key_map = insert k.ref k.ownership_key da.device_to_key_map }

-- A device that is not known yet: the reservation, its entry and its channel.
abbrev pub start_owning : KvClient → String → DeviceOwnership → DeviceOwnership × Result Bool
start_owning kv key da =
    let reserved = try_to_reserve_key kv key da in
    (
      record da {
        device_map =
            insert key (record { id = key; owned = reserved; chnl = da.next_channel })
              da.device_map;
        next_channel = suc da.next_channel;
      },
      ok reserved,
    )

abbrev pub own :
    KvClient → String → DeviceOwnership → Option Ownership → DeviceOwnership × Result Bool
own kv key da (some o) = (da, ok o.owned)
own kv key da none = start_owning kv key da

abbrev pub own_key : KvClient → DeviceOwnership → Result KeyOf → DeviceOwnership × Result Bool
own_key kv da (err c) = (da, err c)
own_key kv da (ok k) = own kv k.ownership_key (with_key k da) (lookup k.ownership_key da.device_map)

unfoldable pub owned_by_me :
    KvClient → Managers → Identifier → DeviceOwnership → DeviceOwnership × Result Bool
owned_by_me kv mgr id da = own_key kv da (get_ownership_key mgr id da)

abbrev pub is_closed : ℕ → List ℕ → Bool
is_closed c [] = false
is_closed c (d ∷ ds) = d == c || is_closed c ds

-- `close(chnl)`.
unfoldable pub close_channel : ℕ → DeviceOwnership → Run DeviceOwnership
close_channel c da =
    if is_closed c da.closed then panicked else returned (record da { closed = c ∷ da.closed })

-- The loop of `AbandonDevice` over the cached keys.
unfoldable pub drop_refs : String → Map String String → Map String String
drop_refs id [] = []
drop_refs id ((k, v) ∷ m) = let rest = drop_refs id m in if str_eq id v then rest else (k, v) ∷ rest

abbrev pub and_error : {A : Type 0} → Option Code → Run A → Run (A × Option Code)
and_error e (returned a) = returned (a, e)
and_error e panicked = panicked

abbrev pub abandon :
    String → DeviceOwnership → Option Ownership → Run (DeviceOwnership × Option Code)
abandon id da none =
    returned (record da { device_to_key_map = delete id da.device_to_key_map }, none)
abandon id da (some o) = and_error none (
    close_channel o.chnl (record da {
      device_to_key_map = drop_refs id da.device_to_key_map;
      device_map = delete id da.device_map;
    }))

unfoldable pub abandon_device : String → DeviceOwnership → Run (DeviceOwnership × Option Code)
abandon_device id da =
    if str_eq id ""
    then returned (da, some failed_precondition)
    else abandon id da (lookup id da.device_map)

unfoldable pub close_all : Map String Ownership → DeviceOwnership → Run DeviceOwnership
close_all [] da = returned da
close_all ((_, o) ∷ m) da = and_then (close_channel o.chnl da) (close_all m)

unfoldable pub abandon_all_devices : DeviceOwnership → Run DeviceOwnership
abandon_all_devices da = close_all da.device_map (record da { device_to_key_map = [] })

-- `Stop`.
unfoldable pub stop : DeviceOwnership → Run DeviceOwnership
stop da = abandon_all_devices (record da { exit_signals = suc da.exit_signals })
