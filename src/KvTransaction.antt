-- ===== src/KvTransaction.antt =====
-- rw_core/core/transaction.go: the reservation of a request in the key-value store, by which one of
-- two cores handles it. The store's client is a parameter: its answers to a reservation and to a read,
-- and the events that it delivers for a watched key, interleaved with the expiries of the watch's
-- timer. The context that the package keeps in a variable is an argument.
pub mod Watching
use vol_2619_voltha_go.Prelude.{
  ℕ, ◌+◌, ◌*◌, ◌/◌, ◌%◌, String, Bool, true, false, Option, none, some, List, [], ◌∷◌, ◌&&◌, ◌||◌,
  not, ltb, str_eq, if◌then◌else◌,
}
use Prim.Native.String.{◌++◌ as append}
use vol_2619_voltha_go.Status.{Code, permission_denied, other, Run, returned, panicked}
use vol_2619_voltha_go.Ownership.{Holder, nobody, held_by, not_text}

abbrev pub num_txn_renewal_per_request : ℕ
num_txn_renewal_per_request = 2

abbrev pub min_txn_renewal_interval_in_sec : ℕ
min_txn_renewal_interval_in_sec = 3

abbrev pub min_txn_reservation_duration_in_sec : ℕ
min_txn_reservation_duration_in_sec = 5

abbrev pub transaction_complete : String
transaction_complete = "TRANSACTION-COMPLETE"

pub data Acquisition : Type 0 where
  unknown seized_by_self completed_by_other abandoned_by_other abandoned_watch_by_self : Acquisition

pub record TransactionContext : Type 0 where
  pub owner : String
  pub txn_prefix : String
  pub kv_operation_timeout : ℕ

-- Of the monitoring channel: whether it was made, and whether it was closed.
pub record KvTransaction : Type 0 where
  pub monitor_ch : Option Bool
  pub txn_id : String
  pub txn_key : String

unfoldable pub new_kv_transaction : TransactionContext → String → KvTransaction
new_kv_transaction ctx txn_id = record {
  monitor_ch = none;
  txn_id = txn_id;
  txn_key = append ctx.txn_prefix txn_id;
}

-- The seconds of a reservation, from milliseconds.
unfoldable pub duration_in_secs : ℕ → ℕ
duration_in_secs min_duration =
    let whole = min_duration / 1000 in
    let rounded = if ltb 0 (min_duration % 1000) then whole + 1 else whole in
    if ltb rounded min_txn_reservation_duration_in_sec
    then min_txn_reservation_duration_in_sec
    else rounded

-- The seconds between two renewals of a reservation.
unfoldable pub renew_interval : ℕ → ℕ
renew_interval secs =
    let interval = secs / num_txn_renewal_per_request in
    if ltb interval min_txn_renewal_interval_in_sec
    then min_txn_renewal_interval_in_sec
    else interval

-- The seconds of the reservation of a request: it is kept longer than the request may take.
unfoldable pub reservation_secs : ℕ → ℕ
reservation_secs min_duration = duration_in_secs min_duration * 2

-- From the answer to the reservation: the transaction, and an error if it is not ours.
abbrev pub reserved_by : TransactionContext → Holder → KvTransaction → KvTransaction × Option Code
reserved_by ctx nobody c = (c, some permission_denied)
reserved_by ctx not_text c = (c, some other)
reserved_by ctx (held_by curr_owner) c =
    if str_eq curr_owner ctx.owner
    then (record c { monitor_ch = some false }, none)
    else (c, some permission_denied)

-- The client's answer to a reservation, from the key, the owner and the seconds.
abbrev pub Reserve : Type 0
Reserve = String → String → ℕ → Holder

unfoldable pub try_to_reserve_txn :
    TransactionContext → Reserve → ℕ → KvTransaction → KvTransaction × Option Code
try_to_reserve_txn ctx reserve duration_in_secs c =
    reserved_by ctx (reserve c.txn_key ctx.owner duration_in_secs) c

-- The answer to the read of the key: no entry, its text, or a value that is no text.
pub data Entry : Type 0 where
  absent : Entry
  value : String → Entry
  no_text : Entry

-- What the `select` of a watch takes: the expiry of its timer, or an event of the watch.
pub data WatchEvent : Type 0 where
  timer_expired deleted_key bad_put other_event : WatchEvent
  put : String → String → WatchEvent

-- The loop of `Watch`, none while it waits for more than these events.
unfoldable pub watch_loop : String → Bool → List WatchEvent → Option Acquisition
watch_loop txn_key by_other [] = none
watch_loop txn_key by_other (deleted_key ∷ _) = some abandoned_by_other
watch_loop txn_key by_other (bad_put ∷ _) = some unknown
watch_loop txn_key by_other (other_event ∷ _) = some unknown
watch_loop txn_key by_other (put key val ∷ es) =
    let waiting = watch_loop txn_key true es in
    if str_eq key txn_key
    then if str_eq val transaction_complete then some completed_by_other else waiting
    else some unknown
watch_loop txn_key by_other (timer_expired ∷ es) =
    let waiting = watch_loop txn_key by_other es in
    if not by_other then some abandoned_by_other else waiting

unfoldable pub watch : KvTransaction → Entry → List WatchEvent → Option Acquisition
watch c absent es = watch_loop c.txn_key false es
watch c (value val) es =
    let waiting = watch_loop c.txn_key true es in
    if str_eq val transaction_complete then some completed_by_other else waiting
watch c no_text es = some abandoned_watch_by_self

abbrev pub is_acquired : Acquisition → Bool
is_acquired seized_by_self = true
is_acquired abandoned_by_other = true
is_acquired _ = false

abbrev pub or_watch :
    KvTransaction
    → Entry
    → List WatchEvent
    → KvTransaction × Option Code
    → KvTransaction × Option Acquisition
or_watch c entry es (c', none) = (c', some seized_by_self)
or_watch c entry es (c', some e) = (c', watch c' entry es)

abbrev pub is_set : Option Bool → Bool
is_set none = false
is_set (some b) = b

abbrev pub is_generic : Option Bool → Bool
is_generic none = true
is_generic (some _) = false

-- The result of the acquisition, before it is turned into a flag, from that of the reservation.
abbrev pub acquisition_with :
    Option Bool
    → Entry
    → List WatchEvent
    → KvTransaction × Option Code
    → KvTransaction
    → KvTransaction × Option Acquisition
acquisition_with owned_by_me entry es tried c =
    if is_set owned_by_me || is_generic owned_by_me
    then or_watch c entry es tried
    else (c, watch c entry es)

unfoldable pub acquisition :
    TransactionContext
    → ℕ
    → Option Bool
    → Reserve
    → Entry
    → List WatchEvent
    → KvTransaction
    → KvTransaction × Option Acquisition
acquisition ctx min_duration owned_by_me reserve entry es c =
    acquisition_with owned_by_me entry es
      (try_to_reserve_txn ctx reserve (reservation_secs min_duration) c) c

abbrev pub flag : Option Acquisition → Option Bool
flag none = none
flag (some a) = some (is_acquired a)

-- `Acquired`: none for the flag while it watches. `owned_by_me` is none where it is not given.
unfoldable pub acquired :
    TransactionContext
    → ℕ
    → Option Bool
    → Reserve
    → Entry
    → List WatchEvent
    → KvTransaction
    → KvTransaction × Option Bool
acquired ctx min_duration owned_by_me reserve entry es c =
    let (c', a) = acquisition ctx min_duration owned_by_me reserve entry es c in (c', flag a)

-- `Close`: the transaction, and what it writes to the store.
unfoldable pub close : KvTransaction → Run (KvTransaction × Option String)
close c = elim c.monitor_ch [
  | none ↦ returned (c, none)
  | some closed ↦
      if closed
      then panicked
      else returned (record c { monitor_ch = some true }, some transaction_complete)
]
