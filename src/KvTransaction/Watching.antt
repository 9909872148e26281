-- ===== src/KvTransaction/Watching.antt =====
-- Which core acquires a transaction (rw_core/core/transaction.go).
use vol_2619_voltha_go.Prelude.{
  ℕ, String, Bool, true, false, Option, none, some, List, [], ◌∷◌, ◌++◌, ◌≡◌, ◌≢◌, refl, arith,
  ◌&&◌, ◌||◌, not, str_eq, eq_iff, eq_refl, all, Bool-cases, inl, inr, ◌⊎◌, sym, ◌∙◌,
}
use vol_2619_voltha_go.Ownership.{Holder, nobody, held_by, not_text}
use vol_2619_voltha_go.KvTransaction.{
  TransactionContext, KvTransaction, Entry, absent, value, no_text, WatchEvent, timer_expired,
  deleted_key, bad_put, other_event, put, seized_by_self, abandoned_by_other, completed_by_other,
  transaction_complete, try_to_reserve_txn, reserved_by, reservation_secs, Reserve,
  acquisition_with, watch_loop, watch, acquisition, acquired, flag,
}

abbrev pub is_deletion : WatchEvent → Bool
is_deletion deleted_key = true
is_deletion _ = false

abbrev pub has_deletion : List WatchEvent → Bool
has_deletion [] = false
has_deletion (e ∷ es) = is_deletion e || has_deletion es

watch_loop-needs :
    (key : String) (es : List WatchEvent)
    → watch_loop key true es ≡ some abandoned_by_other
    → has_deletion es ≡ true
unfolding watch_loop
watch_loop-needs key [] h = cc
watch_loop-needs key (deleted_key ∷ es) h = refl
watch_loop-needs key (bad_put ∷ es) h = cc
watch_loop-needs key (other_event ∷ es) h = cc
watch_loop-needs key (timer_expired ∷ es) h = watch_loop-needs key es h
watch_loop-needs key (put k v ∷ es) h = ground (arith, watch_loop-needs key es)

watch_loop-ne-seized :
    (key : String) (b : Bool) (es : List WatchEvent) → watch_loop key b es ≢ some seized_by_self
unfolding watch_loop
watch_loop-ne-seized key b [] h = cc
watch_loop-ne-seized key b (deleted_key ∷ es) h = cc
watch_loop-ne-seized key b (bad_put ∷ es) h = cc
watch_loop-ne-seized key b (other_event ∷ es) h = cc
watch_loop-ne-seized key b (timer_expired ∷ es) h = ground (arith, watch_loop-ne-seized key b es)
watch_loop-ne-seized key b (put k v ∷ es) h = ground (arith, watch_loop-ne-seized key true es)

watch-ne-seized :
    (c : KvTransaction) (entry : Entry) (es : List WatchEvent)
    → watch c entry es ≢ some seized_by_self
unfolding watch
watch-ne-seized c absent es h = watch_loop-ne-seized c.txn_key false es h
watch-ne-seized c (value v) es h = ground (arith, watch_loop-ne-seized c.txn_key true es)
watch-ne-seized c no_text es h = cc

-- A watch that takes a request over saw the key deleted, unless it found no key at its start.
watch-needs :
    (c : KvTransaction) (entry : Entry) (es : List WatchEvent)
    → entry ≢ absent
    → watch c entry es ≡ some abandoned_by_other
    → has_deletion es ≡ true
unfolding watch
watch-needs c absent es n h = absurd (n refl)
watch-needs c (value v) es n h = ground (arith, watch_loop-needs c.txn_key es)
watch-needs c no_text es n h = cc

flag-watch :
    (c : KvTransaction) (entry : Entry) (es : List WatchEvent)
    → flag (watch c entry es) ≡ some true
    → watch c entry es ≡ some abandoned_by_other
flag-watch c entry es h = ground (arith, watch-ne-seized c entry es)

seized_by :
    (ctx : TransactionContext) (owned : Option Bool) (holder : Holder) (entry : Entry)
    (es : List WatchEvent) (c : KvTransaction)
    → entry ≢ absent
    → flag (acquisition_with owned entry es (reserved_by ctx holder c) c).1 ≡ some true
    → (holder ≡ held_by ctx.owner) ⊎ (has_deletion es ≡ true)
seized_by ctx (some false) holder entry es c n h =
    inr (watch-needs c entry es n (flag-watch c entry es h))
seized_by ctx none nobody entry es c n h = inr (watch-needs c entry es n (flag-watch c entry es h))
seized_by ctx none not_text entry es c n h =
    inr (watch-needs c entry es n (flag-watch c entry es h))
seized_by ctx none (held_by owner) entry es c n h = elim (Bool-cases (str_eq owner ctx.owner)) [
  | inl same ↦ inl (cc ((eq_iff owner ctx.owner).0 same))
  | inr different ↦ inr (watch-needs c entry es n (flag-watch c entry es (rw different at h)))
]
seized_by ctx (some true) nobody entry es c n h =
    inr (watch-needs c entry es n (flag-watch c entry es h))
seized_by ctx (some true) not_text entry es c n h =
    inr (watch-needs c entry es n (flag-watch c entry es h))
seized_by ctx (some true) (held_by owner) entry es c n h =
    elim (Bool-cases (str_eq owner ctx.owner)) [
      | inl same ↦ inl (cc ((eq_iff owner ctx.owner).0 same))
      | inr different ↦ inr (watch-needs c entry es n (flag-watch c entry es (rw different at h)))
    ]

held_by_inj : {a b : String} → held_by a ≡ held_by b → a ≡ b
held_by_inj h = cc

-- Two cores to which the store names one and the same holder when they reserve a transaction, and
-- which both find its key in the store, do not both acquire it, whatever the times of their
-- requests, unless one of them saw the key deleted: the holder has then given the request up. In
-- particular a watch of a key that is there never takes the request over because its timer
-- expires.
pub acquired_exclusive :
    (ctx ctx' : TransactionContext) (ms ms' : ℕ) (owned owned' : Option Bool) (holder : Holder)
    (reserve reserve' : Reserve) (entry entry' : Entry) (es es' : List WatchEvent)
    (c c' : KvTransaction)
    → ctx.owner ≢ ctx'.owner
    → reserve c.txn_key ctx.owner (reservation_secs ms) ≡ holder
    → reserve' c'.txn_key ctx'.owner (reservation_secs ms') ≡ holder
    → entry ≢ absent
    → entry' ≢ absent
    → (acquired ctx ms owned reserve entry es c).1 ≡ some true
    → (acquired ctx' ms' owned' reserve' entry' es' c').1 ≡ some true
    → (has_deletion es ≡ true) ⊎ (has_deletion es' ≡ true)
unfolding acquired acquisition try_to_reserve_txn
acquired_exclusive ctx ctx' ms ms' owned owned' holder reserve reserve' entry entry' es es' c c' d f
      f' n n' h h' =
    elim (seized_by ctx owned _ entry es c n h) [
      | inr saw ↦ inl saw
      | inl mine ↦ elim (seized_by ctx' owned' _ entry' es' c' n' h') [
        | inr saw ↦ inr saw
        | inl other ↦ absurd (d (held_by_inj (sym mine ∙ f ∙ sym f' ∙ other)))
      ]
    ]

-- The events that a watch of a key that is there waits through.
abbrev pub waits_through : String → WatchEvent → Bool
waits_through key timer_expired = true
waits_through key (put k v) = str_eq k key && not (str_eq v transaction_complete)
waits_through key _ = false

loop_completes :
    (key : String) (before after : List WatchEvent)
    → all (waits_through key) before ≡ true
    → watch_loop key true (before ++ put key transaction_complete ∷ after) ≡ some completed_by_other
unfolding watch_loop
loop_completes key [] after h = rw (eq_refl key)
loop_completes key (timer_expired ∷ es) after h = loop_completes key es after h
loop_completes key (put k v ∷ es) after h = ground (arith, loop_completes key es after)
loop_completes key (deleted_key ∷ es) after h = cc
loop_completes key (bad_put ∷ es) after h = cc
loop_completes key (other_event ∷ es) after h = cc

-- A core that finds the key in the store and watches it while the other core renews its reservation
-- for as long as it needs, ends with the outcome that the other core completed the transaction as soon
-- as that core writes so.
pub watch_completes :
    (c : KvTransaction) (val : String) (before after : List WatchEvent)
    → all (waits_through c.txn_key) before ≡ true
    → watch c (value val) (before ++ put c.txn_key transaction_complete ∷ after)
      ≡ some completed_by_other
unfolding watch
watch_completes c val before after h = ground (arith, loop_completes c.txn_key before after h)
