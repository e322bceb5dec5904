-- ===== src/Budget/Consuming.antt =====
-- `consume` and `enforceRequestBudget` of src/features/security/request-budget.ts. Several instances share
-- the table; each has the time of its next pruning.
use coredot_editor.Prelude.{
  ℕ, ◌+◌, ◌-◌, ◌*◌, ◌/◌, max, Bool, true, false, List, Option, none, some, Text, get, insert,
  text_key, nat_key, or_else, if◌then◌else◌, leb, ltb, [], ◌∷◌, Number, safe_nat,
}
use coredot_editor.Budget.Storage.{BucketKey, Table, upsert, prune_expired}
use coredot_editor.Budget.Contention.{
  Attempt, Retried, committed, exhausted, failed, retry_sqlite_contention,
}

-- RequestBudgetPolicy
pub record RequestBudgetPolicy : Type 0 where
  pub limit : Number
  pub window_ms : Number

-- BudgetScope
pub record BudgetScope : Type 0 where
  pub workspace_id : Text
  pub principal_id : Text

-- RequestBudgetResult
pub record RequestBudgetResult : Type 0 where
  pub allowed : Bool
  pub limit : ℕ
  pub remaining : ℕ
  pub retry_at : ℕ

pub data Consumed : Type 0 where
  answered : RequestBudgetResult → Consumed
  -- RequestBudgetUnavailableError, an error of the storage, and an error of the caller
  unavailable storage_failed rejected : Consumed

-- ConsumeInput, with the instance that is asked, its clock, and what the storage does.
pub record ConsumeInput : Type 0 where
  pub instance_id : ℕ
  pub scope : Option BudgetScope
  pub policy_id : Text
  pub now_ms : ℕ
  pub attempt : ℕ → Attempt
  pub prune_fails : Bool

-- The table, nextPruneAtMs of each instance, the calls of `consume` whose row has come back, and those
-- whose DELETE is under way.
pub record Budget : Type 0 where
  pub table : Table
  pub next_prune_at_ms : List (ℕ × ℕ)
  pub counted : List ConsumeInput
  pub deleting : List ConsumeInput

abbrev pub empty_budget : Budget
empty_budget = record { table = []; next_prune_at_ms = []; counted = []; deleting = [] }

-- `Number.isSafeInteger(n) && n > 0`
abbrev pub positive : Number → Option ℕ
positive n = elim (safe_nat n) [ none ↦ none | some k ↦ if ltb 0 k then some k else none ]

-- Math.floor(nowMs / policy.windowMs) * policy.windowMs
abbrev pub window_start_ms : ℕ → ℕ → ℕ
window_start_ms now window = (now / window) * window

abbrev pub key_of : BudgetScope → Text → ℕ → ℕ → BucketKey
key_of scope policy_id now window = record {
  workspace_id = scope.workspace_id;
  principal_id = scope.principal_id;
  policy_id = policy_id;
  window_start = window_start_ms now window;
}

-- The result of the row that the UPSERT returned.
abbrev pub result_of : ℕ → ℕ → Option ℕ → RequestBudgetResult
result_of limit retry_at none = record {
  allowed = false;
  limit = limit;
  remaining = 0;
  retry_at = retry_at;
}
result_of limit retry_at (some count) = record {
  allowed = true;
  limit = limit;
  remaining = limit - count;
  retry_at = retry_at;
}

-- Whether a call prunes, which is decided once its row has come back: the next time is set, and the
-- DELETE is sent.
unfoldable pub maintain : ℕ → ConsumeInput → Budget → Budget
maintain prune_interval input b =
    if leb (or_else (get input.instance_id b.next_prune_at_ms) 0) input.now_ms
    then record b {
      next_prune_at_ms =
          insert input.instance_id (input.now_ms + prune_interval) b.next_prune_at_ms;
      deleting = input ∷ b.deleting;
    }
    else b

-- The DELETE of a call, run by the database. Where it fails, the table stays.
unfoldable pub run_delete : ConsumeInput → Budget → Budget
run_delete input b = record b {
  table = if input.prune_fails then b.table else prune_expired input.now_ms b.table;
}

-- `consume` once the policy is known, up to the row that the UPSERT gives back. The answer depends on
-- that row only, and comes when the maintenance is over.
unfoldable pub consume_with : ConsumeInput → BudgetScope → ℕ → ℕ → Budget → Budget × Consumed
consume_with input scope limit window b =
    let key = key_of scope input.policy_id input.now_ms window in
    let retry_at = key.window_start + window in
    let (table, count) = upsert key retry_at limit b.table in
    (
      record b { table = table; counted = input ∷ b.counted },
      answered (result_of limit retry_at count),
    )

-- REQUEST_BUDGET_BUSY_RETRY_ATTEMPTS
abbrev pub busy_retry_attempts : ℕ
busy_retry_attempts = 3

-- How the retries end: only an attempt that commits changes the table.
abbrev pub after_retries : Retried → ConsumeInput → BudgetScope → ℕ → ℕ → Budget → Budget × Consumed
after_retries committed input scope limit window b = consume_with input scope limit window b
after_retries exhausted input scope limit window b = (b, unavailable)
after_retries failed input scope limit window b = (b, storage_failed)

-- executeAtomicConsumeWithRetry, and the answer
unfoldable pub execute_atomic_consume_with_retry :
    ℕ → ConsumeInput → BudgetScope → ℕ → ℕ → Budget → Budget × Consumed
execute_atomic_consume_with_retry retry_delay input scope limit window b =
    after_retries
      (retry_sqlite_contention input.attempt retry_delay (max retry_delay (retry_delay * 2))
        busy_retry_attempts 0).0
      input scope limit window b

-- The policy of an id, where it is one.
unfoldable pub policy_of : List (Text × RequestBudgetPolicy) → Text → Option (ℕ × ℕ)
policy_of policies policy_id = elim (get policy_id policies) [
  | none ↦ none
  | some policy ↦ elim (positive policy.limit) [
    | none ↦ none
    | some limit ↦ elim (positive policy.window_ms) [
      | none ↦ none
      | some window ↦ some (limit, window)
    ]
  ]
]

-- The guards of `consume`.
abbrev pub consume_in :
    ℕ → ConsumeInput → Option BudgetScope → Option (ℕ × ℕ) → Budget → Budget × Consumed
consume_in retry_delay input none policy b = (b, rejected)
consume_in retry_delay input (some scope) none b = (b, rejected)
consume_in retry_delay input (some scope) (some (limit, window)) b =
    execute_atomic_consume_with_retry retry_delay input scope limit window b

-- consume, up to the row that the UPSERT gives back
unfoldable pub consume :
    List (Text × RequestBudgetPolicy) → ℕ → ConsumeInput → Budget → Budget × Consumed
consume policies retry_delay input b =
    consume_in retry_delay input input.scope (policy_of policies input.policy_id) b

-- What `enforceRequestBudget` answers: nothing, 429 with its headers, or 503; or it throws.
pub data Reply : Type 0 where
  passes : Reply
  too_many_requests : ℕ → ℕ → ℕ → ℕ → Reply
  service_unavailable throws : Reply

abbrev pub seconds : ℕ → ℕ
seconds ms = (ms + 999) / 1000

-- requestBudgetResponse
abbrev pub request_budget_response : RequestBudgetResult → ℕ → Reply
request_budget_response result now =
    too_many_requests (seconds (result.retry_at - now)) result.limit result.remaining
      (seconds result.retry_at)

-- enforceRequestBudget, of what `consume` gave
unfoldable pub enforce_request_budget : Consumed → ℕ → Reply
enforce_request_budget (answered result) now =
    if result.allowed then passes else request_budget_response result now
enforce_request_budget unavailable now = service_unavailable
enforce_request_budget storage_failed now = throws
enforce_request_budget rejected now = throws
