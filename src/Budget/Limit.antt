-- ===== src/Budget/Limit.antt =====
-- The limit of src/features/security/request-budget.ts, over any interleaving of requests.
use coredot_editor.Prelude.{
  leb, or_else, get, insert, get_elem?, Option-cases, ℕ, suc, ◌+◌, ◌*◌, max, ◌≤◌, ◌≡◌, refl, sym,
  ap, ◌∙◌, subst, inl, inr, Bool, false, ◌&&◌, List, [], ◌∷◌, Option, none, some, Text, text_key,
  nat_key, Bool-cases, if-elim, if◌then◌else◌, holds, arith,
}
use coredot_editor.Budget.Storage.{BucketKey, BucketKey-discrete, bucket_key, clock_skew_grace_ms}
use coredot_editor.Budget.Contention.{
  Retried, committed, exhausted, failed, retry_sqlite_contention,
}
use coredot_editor.Budget.Consuming.{
  RequestBudgetPolicy, BudgetScope, Consumed, unavailable, storage_failed, rejected, Budget,
  ConsumeInput, key_of, consume_with, busy_retry_attempts, after_retries, consume_in,
  execute_atomic_consume_with_retry, policy_of, consume, maintain, run_delete, empty_budget,
}
use coredot_editor.Budget.Quota.{
  Tracks, HasRow, HasNone, Tracks-le, Tracks-later, run_delete-Tracks,
}
use coredot_editor.Budget.Steps.{
  Step, ask, maintenance, deletion, maintain_at, delete_at, IsAligned, AreBefore, IsBefore,
  get_elem?-IsBefore, remove_at-IsBefore, later-IsBefore,
}
use coredot_editor.Prelude.Splice.{remove_at}
use coredot_editor.Budget.Admission.{
  is_admitted, asks_in, asks, is_key, admitted_in, own_step, other_step, key-eq, key-ne, pair-eq,
  policy_of-positive, count_moves,
}

module _ (key : BucketKey) (policies : List (Text × RequestBudgetPolicy)) (limit window : ℕ)
    (known : policy_of policies key.policy_id ≡ some (limit, window))
    (prune_interval retry_delay : ℕ) where
  -- What a request, in the row or not, makes of the count.
  Counts : ℕ → ℕ → ConsumeInput → Bool → Budget × Consumed → Type 0
  Counts latest admitted input own (next, end) =
      Tracks key limit window (max latest input.now_ms)
        (if own && is_admitted end then suc admitted else admitted) next.table

  unchanged-Counts :
      (latest admitted : ℕ) (input : ConsumeInput) (own : Bool) (b : Budget) (end : Consumed)
      → is_admitted end ≡ false
      → Tracks key limit window latest admitted b.table
      → Counts latest admitted input own (b, end)
  unfolding Counts
  unchanged-Counts latest admitted input own b end e tracked =
      let later : Tracks key limit window (max latest input.now_ms) admitted b.table =
        Tracks-later key limit window latest (max latest input.now_ms) admitted b.table
          (omega arith) tracked in
      if-elim (λ n. Tracks key limit window (max latest input.now_ms) n b.table)
        (own && is_admitted end) (suc admitted) admitted (λ h. ground arith) (λ h. later)

  consume_with-Counts :
      (latest admitted : ℕ) (input : ConsumeInput) (scope : BudgetScope) (l w : ℕ) (b : Budget)
      → policy_of policies input.policy_id ≡ some (l, w)
      → latest ≤ input.now_ms + clock_skew_grace_ms
      → Tracks key limit window latest admitted b.table
      → Counts latest admitted input
          (is_key (some (key_of scope input.policy_id input.now_ms w)) key)
          (consume_with input scope l w b)
  unfolding Counts
  consume_with-Counts latest admitted input scope l w b policy near tracked =
      let k : BucketKey = key_of scope input.policy_id input.now_ms w in
      let out : Budget × Consumed = consume_with input scope l w b in
      let goal : Bool → Type 0 = λ own.
        Tracks key limit window (max latest input.now_ms)
          (if own && is_admitted out.1 then suc admitted else admitted) out.0.table in
      elim (Bool-cases (holds (BucketKey-discrete k key))) [
        | inr h ↦
            subst goal (sym h) (
              other_step key limit window input scope l w latest admitted b (key-ne k key h)
                tracked)
        | inl h ↦
            let same : k ≡ key = key-eq k key h in
            let (is_l, is_w) =
              pair-eq (
                sym policy ∙ ap (λ (x : BucketKey). policy_of policies x.policy_id) same ∙ known) in
            let (pos, wide) = policy_of-positive policies input.policy_id l w policy in
            let start : Tracks k l w latest admitted b.table =
              subst (λ x. Tracks k l x latest admitted b.table) (sym is_w)
                (subst (λ x. Tracks k x window latest admitted b.table) (sym is_l)
                  (subst (λ x. Tracks x limit window latest admitted b.table) (sym same)
                    tracked)) in
            let counted : ℕ = if is_admitted out.1 then suc admitted else admitted in
            let done : Tracks k l w (max latest input.now_ms) counted out.0.table =
              own_step input scope l w latest admitted b pos wide near start in
            subst goal (sym h) (
              subst (λ x. Tracks key limit x (max latest input.now_ms) counted out.0.table) is_w
                (subst (λ x. Tracks key x w (max latest input.now_ms) counted out.0.table) is_l
                  (subst (λ x. Tracks x l w (max latest input.now_ms) counted out.0.table) same
                    done)))
      ]

  after_retries-Counts :
      (end : Retried) (latest admitted : ℕ) (input : ConsumeInput) (scope : BudgetScope) (l w : ℕ)
      (b : Budget)
      → policy_of policies input.policy_id ≡ some (l, w)
      → latest ≤ input.now_ms + clock_skew_grace_ms
      → Tracks key limit window latest admitted b.table
      → Counts latest admitted input
          (is_key (some (key_of scope input.policy_id input.now_ms w)) key)
          (after_retries end input scope l w b)
  after_retries-Counts committed latest admitted input scope l w b policy near tracked =
      consume_with-Counts latest admitted input scope l w b policy near tracked
  after_retries-Counts exhausted latest admitted input scope l w b policy near tracked =
      unchanged-Counts latest admitted input
        (is_key (some (key_of scope input.policy_id input.now_ms w)) key) b unavailable refl tracked
  after_retries-Counts failed latest admitted input scope l w b policy near tracked =
      unchanged-Counts latest admitted input
        (is_key (some (key_of scope input.policy_id input.now_ms w)) key) b storage_failed refl
        tracked

  consume_in-Counts :
      (latest admitted : ℕ) (input : ConsumeInput) (b : Budget) (scope : Option BudgetScope)
      (policy : Option (ℕ × ℕ))
      → policy_of policies input.policy_id ≡ policy
      → latest ≤ input.now_ms + clock_skew_grace_ms
      → Tracks key limit window latest admitted b.table
      → Counts latest admitted input
          (is_key (asks_in input scope policy) key)
          (consume_in retry_delay input scope policy b)
  unfolding execute_atomic_consume_with_retry
  consume_in-Counts latest admitted input b none policy e near tracked =
      unchanged-Counts latest admitted input false b rejected refl tracked
  consume_in-Counts latest admitted input b (some scope) none e near tracked =
      unchanged-Counts latest admitted input false b rejected refl tracked
  consume_in-Counts latest admitted input b (some scope) (some (l, w)) e near tracked =
      after_retries-Counts
        (retry_sqlite_contention input.attempt retry_delay (max retry_delay (retry_delay * 2))
          busy_retry_attempts 0).0
        latest admitted input scope l w b e near tracked

  later-AreBefore :
      (latest later : ℕ) (b : Budget) → latest ≤ later → AreBefore latest b → AreBefore later b
  unfolding AreBefore
  later-AreBefore latest later b le (h, k) =
      (later-IsBefore latest later b.counted le h, later-IsBefore latest later b.deleting le k)

  consume_with-AreBefore :
      (end : Retried) (latest : ℕ) (input : ConsumeInput) (scope : BudgetScope) (l w : ℕ)
      (b : Budget)
      → AreBefore latest b
      → AreBefore (max latest input.now_ms) (after_retries end input scope l w b).0
  unfolding AreBefore consume_with
  consume_with-AreBefore committed latest input scope l w b (h, k) = (
    (omega arith, later-IsBefore latest (max latest input.now_ms) b.counted (omega arith) h),
    later-IsBefore latest (max latest input.now_ms) b.deleting (omega arith) k,
  )
  consume_with-AreBefore exhausted latest input scope l w b h =
      later-AreBefore latest (max latest input.now_ms) b (omega arith) h
  consume_with-AreBefore failed latest input scope l w b h =
      later-AreBefore latest (max latest input.now_ms) b (omega arith) h

  consume_in-AreBefore :
      (latest : ℕ) (input : ConsumeInput) (b : Budget) (scope : Option BudgetScope)
      (policy : Option (ℕ × ℕ))
      → AreBefore latest b
      → AreBefore (max latest input.now_ms) (consume_in retry_delay input scope policy b).0
  unfolding execute_atomic_consume_with_retry
  consume_in-AreBefore latest input b none policy h =
      later-AreBefore latest (max latest input.now_ms) b (omega arith) h
  consume_in-AreBefore latest input b (some scope) none h =
      later-AreBefore latest (max latest input.now_ms) b (omega arith) h
  consume_in-AreBefore latest input b (some scope) (some (l, w)) h =
      consume_with-AreBefore
        (retry_sqlite_contention input.attempt retry_delay (max retry_delay (retry_delay * 2))
          busy_retry_attempts 0).0
        latest input scope l w b h

  -- What is kept by the steps that are no requests.
  Keeps : ℕ → ℕ → Budget → Type 0
  Keeps latest admitted b = AreBefore latest b × Tracks key limit window latest admitted b.table

  maintain-Keeps :
      (latest admitted : ℕ) (input : ConsumeInput) (b : Budget)
      → IsBefore latest input
      → Keeps latest admitted b
      → Keeps latest admitted (maintain prune_interval input b)
  unfolding maintain AreBefore Keeps
  maintain-Keeps latest admitted input b shown (before, tracked) =
      if-elim (Keeps latest admitted)
        (leb (or_else (get input.instance_id b.next_prune_at_ms) 0) input.now_ms)
        (record b {
          next_prune_at_ms =
              insert input.instance_id (input.now_ms + prune_interval) b.next_prune_at_ms;
          deleting = input ∷ b.deleting;
        })
        b (λ e. ((before.0, (shown, before.1)), tracked)) (λ e. (before, tracked))

  maintain_at-Keeps :
      (latest admitted i : ℕ) (b : Budget)
      → Keeps latest admitted b
      → Keeps latest admitted (maintain_at prune_interval i b)
  unfolding maintain_at AreBefore Keeps
  maintain_at-Keeps latest admitted i b (before, tracked) =
      elim (Option-cases (get_elem? b.counted i)) [
        | inl e ↦
            let same : maintain_at prune_interval i b ≡ b = rw (e, maintain_at) refl in
            subst (Keeps latest admitted) (sym same) (before, tracked)
        | inr (input, e) ↦
            let rest : Budget = record b { counted = remove_at i b.counted } in
            let same : maintain_at prune_interval i b ≡ maintain prune_interval input rest =
              rw (e, maintain_at) refl in
            subst (Keeps latest admitted) (sym same) (
              maintain-Keeps latest admitted input rest
                (get_elem?-IsBefore latest i input b.counted e before.0)
                ((remove_at-IsBefore latest i b.counted before.0, before.1), tracked))
      ]

  delete_at-Keeps :
      (latest admitted i : ℕ) (b : Budget)
      → Keeps latest admitted b
      → Keeps latest admitted (delete_at i b)
  unfolding delete_at run_delete AreBefore Keeps
  delete_at-Keeps latest admitted i b (before, tracked) =
      elim (Option-cases (get_elem? b.deleting i)) [
        | inl e ↦
            let same : delete_at i b ≡ b = rw (e, delete_at) refl in
            subst (Keeps latest admitted) (sym same) (before, tracked)
        | inr (input, e) ↦
            let rest : Budget = record b { deleting = remove_at i b.deleting } in
            let same : delete_at i b ≡ run_delete input rest = rw (e, delete_at) refl in
            subst (Keeps latest admitted) (sym same) (
              (before.0, remove_at-IsBefore latest i b.deleting before.1),
              run_delete-Tracks key limit window admitted input rest latest
                  (get_elem?-IsBefore latest i input b.deleting e before.1) tracked,
            )
      ]

  admitted_in-le_from :
      (steps : List Step) (latest admitted : ℕ) (b : Budget)
      → IsAligned latest steps
      → AreBefore latest b
      → Tracks key limit window latest admitted b.table
      → admitted + admitted_in key policies prune_interval retry_delay steps b ≤ limit
  unfolding admitted_in IsAligned Counts consume asks Keeps
  admitted_in-le_from [] latest admitted b aligned before tracked =
      omega (arith, Tracks-le key limit window latest admitted b.table tracked)
  admitted_in-le_from (maintenance i ∷ steps) latest admitted b aligned before tracked =
      let (before', tracked') = maintain_at-Keeps latest admitted i b (before, tracked) in
      admitted_in-le_from steps latest admitted (maintain_at prune_interval i b) aligned before'
        tracked'
  admitted_in-le_from (deletion i ∷ steps) latest admitted b aligned before tracked =
      let (before', tracked') = delete_at-Keeps latest admitted i b (before, tracked) in
      admitted_in-le_from steps latest admitted (delete_at i b) aligned before' tracked'
  admitted_in-le_from (ask input ∷ steps) latest admitted b (near, aligned) before tracked =
      let out : Budget × Consumed = consume policies retry_delay input b in
      let own : Bool = is_key (asks policies input) key && is_admitted out.1 in
      let rest : ℕ = admitted_in key policies prune_interval retry_delay steps out.0 in
      count_moves own admitted rest limit (
        admitted_in-le_from steps (max latest input.now_ms) (if own then suc admitted else admitted)
          out.0 aligned
          (consume_in-AreBefore latest input b input.scope (policy_of policies input.policy_id)
            before)
          (consume_in-Counts latest admitted input b input.scope
            (policy_of policies input.policy_id) refl near tracked))

empty-Tracks : (key : BucketKey) (limit window : ℕ) → Tracks key limit window 0 0 []
unfolding Tracks HasRow HasNone
empty-Tracks key limit window = (tt, inr (refl, inl refl))

empty-AreBefore : AreBefore 0 empty_budget
unfolding AreBefore
empty-AreBefore = (tt, tt)

-- However requests come in, at any number of instances, with contention, failures and pruning, no more
-- of them are let through in a row, that is for a principal, a policy and a window, than the limit of
-- the policy, as long as no clock is behind another by more than the grace. Between the UPSERT of a
-- request, its maintenance and its DELETE, any other requests, maintenance and DELETEs may run, and
-- these may come at any time after the UPSERT, or never.
pub admitted_in-le :
    (key : BucketKey) (policies : List (Text × RequestBudgetPolicy))
    (limit window prune_interval retry_delay : ℕ) (steps : List Step)
    → policy_of policies key.policy_id ≡ some (limit, window)
    → IsAligned 0 steps
    → admitted_in key policies prune_interval retry_delay steps empty_budget ≤ limit
admitted_in-le key policies limit window prune_interval retry_delay steps known aligned = omega (
  arith,
  admitted_in-le_from key policies limit window known prune_interval retry_delay steps 0 0
      empty_budget aligned empty-AreBefore (empty-Tracks key limit window),
)
