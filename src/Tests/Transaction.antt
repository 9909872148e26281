-- ===== src/Tests/Transaction.antt =====
-- Two cores with one request, and the wait for concurrent calls (rw_core/core/transaction.go,
-- rw_core/utils/core_utils.go).
use mathlib.Core.Bool.{false≢true}
use vol_2619_voltha_go.Prelude.{
  eq_iff, String, true, Option, none, some, List, [], ◌∷◌, ◌≡◌, refl, map, if◌then◌else◌, ◌⊎◌, ◌++◌,
}
use vol_2619_voltha_go.Status.{returned, internal, aborted}
use vol_2619_voltha_go.Ownership.{held_by}
use vol_2619_voltha_go.KvTransaction.{
  TransactionContext, KvTransaction, value, deleted_key, timer_expired, put, completed_by_other,
  transaction_complete, new_kv_transaction, watch, watch_loop, acquired, acquisition,
  try_to_reserve_txn,
}
use vol_2619_voltha_go.KvTransaction.Watching.{has_deletion, acquired_exclusive, watch_completes}
use vol_2619_voltha_go.Response.{Arrival, Response, got_error, wait_for_nil_or_error_responses}
use vol_2619_voltha_go.Response.Waiting.{
  outcome, wait_for_nil_or_error_responses_lem, finish, finish_lem,
}

abbrev core : String → TransactionContext
core name = record { owner = name; txn_prefix = "txn/"; kv_operation_timeout = 5 }

abbrev txn : TransactionContext → KvTransaction
txn ctx = new_kv_transaction ctx "7"

-- The first core holds the transaction, and the second takes over once the key is gone.
acquired_exclusive_example :
    (has_deletion [] ≡ true) ⊎ (has_deletion (timer_expired ∷ deleted_key ∷ []) ≡ true)
unfolding acquired acquisition try_to_reserve_txn watch watch_loop new_kv_transaction
acquired_exclusive_example =
    acquired_exclusive (core "a") (core "b") 5000 5000 none none (held_by "a")
      (λ key owner secs. held_by "a") (λ key owner secs. held_by "a") (value "a") (value "a") []
      (timer_expired ∷ deleted_key ∷ []) (txn (core "a")) (txn (core "b"))
      (λ e. false≢true ((eq_iff "a" "b").1 e)) refl refl (λ e. cc) (λ e. cc) refl refl

watch_completes_example :
    watch (txn (core "b")) (value "a") (
      (timer_expired ∷ put "txn/7" "a" ∷ [])
      ++ put (txn (core "b")).txn_key transaction_complete ∷ [])
    ≡ some completed_by_other
unfolding new_kv_transaction
watch_completes_example =
    watch_completes (txn (core "b")) "a" (timer_expired ∷ put "txn/7" "a" ∷ []) [] refl

abbrev answers : List (Option Arrival)
answers =
    some (record { time = 3; error_of = none })
    ∷ some (record { time = 2; error_of = some internal })
    ∷ none
    ∷ []

wait_for_nil_or_error_responses_lem_example :
    wait_for_nil_or_error_responses 10 answers
    ≡ (if got_error (map (outcome 10) answers) then some (map (outcome 10) answers) else none)
wait_for_nil_or_error_responses_lem_example = wait_for_nil_or_error_responses_lem 10 answers

wait_in_order :
    wait_for_nil_or_error_responses 10 answers ≡ some (none ∷ some internal ∷ some aborted ∷ [])
unfolding outcome
wait_in_order = wait_for_nil_or_error_responses_lem 10 answers

finish_lem_example :
    (r : Response) × (finish (some internal) ≡ returned r)
    × (r.err ≡ some internal)
    × (r.ch_closed ≡ true)
finish_lem_example = finish_lem (some internal)
