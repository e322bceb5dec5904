-- ===== src/Budget/Admission.antt =====
-- The limit of src/features/security/request-budget.ts over any requests.
use coredot_editor.Prelude.{
  ℕ, suc, ◌+◌, max, ◌≤◌, ◌<◌, ◌≡◌, ◌≢◌, refl, sym, subst, Bool, true, false, ◌&&◌, List, [], ◌∷◌,
  Option, none, some, Text, text_key, nat_key, if◌then◌else◌, is_some, holds, arith,
}
use coredot_editor.Budget.Storage.{
  BucketKey, BucketKey-discrete, bucket_key, Table, upsert, clock_skew_grace_ms,
}
use coredot_editor.Budget.Consuming.{
  RequestBudgetPolicy, BudgetScope, Consumed, answered, Budget, ConsumeInput, window_start_ms,
  key_of, result_of, consume_with, policy_of, consume,
}
use coredot_editor.Budget.Quota.{Tracks, upsert-Tracks, upsert_other-Tracks, Tracks-later}
use coredot_editor.Budget.Steps.{Step, ask, maintenance, deletion, maintain_at, delete_at}

abbrev pub is_admitted : Consumed → Bool
is_admitted (answered result) = result.allowed
is_admitted _ = false

-- The row that a request is counted in, where it has a scope and a policy.
abbrev pub asks_in : ConsumeInput → Option BudgetScope → Option (ℕ × ℕ) → Option BucketKey
asks_in input none policy = none
asks_in input (some scope) none = none
asks_in input (some scope) (some (limit, window)) =
    some (key_of scope input.policy_id input.now_ms window)

unfoldable pub asks : List (Text × RequestBudgetPolicy) → ConsumeInput → Option BucketKey
asks policies input = asks_in input input.scope (policy_of policies input.policy_id)

abbrev pub is_key : Option BucketKey → BucketKey → Bool
is_key none key = false
is_key (some k) key = holds (BucketKey-discrete k key)

-- How many of the requests among some steps are let through in a row.
unfoldable pub admitted_in :
    BucketKey → List (Text × RequestBudgetPolicy) → ℕ → ℕ → List Step → Budget → ℕ
admitted_in key policies prune_interval retry_delay [] b = 0
admitted_in key policies prune_interval retry_delay (ask input ∷ steps) b =
    let (next, end) = consume policies retry_delay input b in
    let rest = admitted_in key policies prune_interval retry_delay steps next in
    if is_key (asks policies input) key && is_admitted end then suc rest else rest
admitted_in key policies prune_interval retry_delay (maintenance i ∷ steps) b =
    admitted_in key policies prune_interval retry_delay steps (maintain_at prune_interval i b)
admitted_in key policies prune_interval retry_delay (deletion i ∷ steps) b =
    admitted_in key policies prune_interval retry_delay steps (delete_at i b)

pub pair-eq :
    {a b c d : ℕ} → ◌≡◌ {A = Option (ℕ × ℕ)} (some (a, b)) (some (c, d)) → (a ≡ c) × (b ≡ d)
pair-eq e = (cc, cc)

pub policy_of-positive :
    (policies : List (Text × RequestBudgetPolicy)) (id : Text) (limit window : ℕ)
    → policy_of policies id ≡ some (limit, window)
    → (0 < limit) × (0 < window)
unfolding policy_of
policy_of-positive policies id limit window e = ground arith

result-is_some :
    (limit retry_at : ℕ) (count : Option ℕ)
    → (result_of limit retry_at count).allowed ≡ is_some count
result-is_some limit retry_at none = refl
result-is_some limit retry_at (some n) = refl

in_window : (now window : ℕ) → 0 < window → now < window_start_ms now window + window
in_window now window h = omega arith

-- A request in its own row.
pub own_step :
    (input : ConsumeInput) (scope : BudgetScope) (limit window latest admitted : ℕ) (b : Budget)
    → 0 < limit
    → 0 < window
    → latest ≤ input.now_ms + clock_skew_grace_ms
    → Tracks (key_of scope input.policy_id input.now_ms window) limit window latest admitted b.table
    → Tracks
        (key_of scope input.policy_id input.now_ms window)
        limit
        window
        (max latest input.now_ms)
        (if is_admitted (consume_with input scope limit window b).1 then suc admitted else admitted)
        (consume_with input scope limit window b).0.table
unfolding consume_with
own_step input scope limit window latest admitted b pos wide near tracked =
    let key : BucketKey = key_of scope input.policy_id input.now_ms window in
    let retry_at : ℕ = key.window_start + window in
    let row : Table × Option ℕ = upsert key retry_at limit b.table in
    let fresh : latest < key.window_start + window + clock_skew_grace_ms =
      omega (arith, near, in_window input.now_ms window wide) in
    let counted : ℕ = if is_some row.1 then suc admitted else admitted in
    let kept : Tracks key limit window (max latest input.now_ms) counted row.0 =
      Tracks-later key limit window latest (max latest input.now_ms) counted row.0 (omega arith)
        (upsert-Tracks key limit window latest admitted b.table pos fresh tracked) in
    subst
      (λ t.
        Tracks key limit window (max latest input.now_ms) (if t then suc admitted else admitted)
          row.0)
      (sym (result-is_some limit retry_at row.1)) kept

-- A request in another row.
pub other_step :
    (key : BucketKey) (limit window : ℕ) (input : ConsumeInput) (scope : BudgetScope)
    (own_limit own_window latest admitted : ℕ) (b : Budget)
    → key_of scope input.policy_id input.now_ms own_window ≢ key
    → Tracks key limit window latest admitted b.table
    → Tracks key limit window
        (max latest input.now_ms)
        admitted
        (consume_with input scope own_limit own_window b).0.table
unfolding consume_with
other_step key limit window input scope own_limit own_window latest admitted b apart tracked =
    let k : BucketKey = key_of scope input.policy_id input.now_ms own_window in
    let retry_at : ℕ = k.window_start + own_window in
    Tracks-later key limit window latest (max latest input.now_ms) admitted
      (upsert k retry_at own_limit b.table).0 (omega arith)
      (upsert_other-Tracks key limit window latest admitted b.table k retry_at own_limit apart
        tracked)

pub key-eq : (k key : BucketKey) → holds (BucketKey-discrete k key) ≡ true → k ≡ key
key-eq k key h = ground arith

pub key-ne : (k key : BucketKey) → holds (BucketKey-discrete k key) ≡ false → k ≢ key
key-ne k key h = ground arith

pub count_moves :
    (own : Bool) (admitted rest limit : ℕ)
    → (if own then suc admitted else admitted) + rest ≤ limit
    → admitted + (if own then suc rest else rest) ≤ limit
count_moves true admitted rest limit h = omega (arith, h)
count_moves false admitted rest limit h = omega (arith, h)
