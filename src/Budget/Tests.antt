-- ===== src/Budget/Tests.antt =====
-- Requests of src/features/security/request-budget.ts in a window that lets two of them through.
use coredot_editor.Prelude.{
  ℕ, ◌≡◌, ◌≤◌, refl, List, [], ◌∷◌, some, Text, Text-discrete, ℕ_discrete, codes, nat, safe_nat,
  arith, false,
}
use coredot_editor.Budget.Storage.{BucketKey, BucketKey-discrete, upsert, prune_expired}
use coredot_editor.Budget.Contention.{commits, retry_sqlite_contention}
use coredot_editor.Budget.Consuming.{
  RequestBudgetPolicy, BudgetScope, ConsumeInput, policy_of, consume, consume_with,
  execute_atomic_consume_with_retry, maintain, run_delete, empty_budget,
}
use coredot_editor.Budget.Steps.{
  Step, ask, maintenance, deletion, maintain_at, delete_at, IsAligned,
}
use coredot_editor.Budget.Admission.{asks, admitted_in}
use coredot_editor.Budget.Counters.{Ask, Agree, run_table, run_counters, run_table-run_counters}
use coredot_editor.Budget.Limit.{admitted_in-le}

abbrev policies : List (Text × RequestBudgetPolicy)
policies = (codes "ai.review", record { limit = nat 2; window_ms = nat 1000 }) ∷ []

abbrev scope : BudgetScope
scope = record { workspace_id = codes "w"; principal_id = codes "p" }

abbrev at : ℕ → ConsumeInput
at now = record {
  instance_id = 0;
  scope = some scope;
  policy_id = codes "ai.review";
  now_ms = now;
  attempt = λ n. commits;
  prune_fails = false;
}

abbrev key : BucketKey
key = record {
  workspace_id = codes "w";
  principal_id = codes "p";
  policy_id = codes "ai.review";
  window_start = 1000;
}

-- The DELETE of the first request runs after the second one, and that of the fourth never does.
abbrev requests : List Step
requests =
    ask (at 1000)
    ∷ maintenance 0
    ∷ ask (at 1500)
    ∷ deletion 0
    ∷ ask (at 1999)
    ∷ maintenance 1
    ∷ ask (at 2000)
    ∷ maintenance 0
    ∷ ask (at 1400)
    ∷ []

is_policy : policy_of policies key.policy_id ≡ some (2, 1000)
unfolding policy_of Text-discrete ℕ_discrete safe_nat
is_policy = refl

-- Two of the four requests in the window are let through.
two_admitted : admitted_in key policies 1000 25 requests empty_budget ≡ 2
unfolding admitted_in consume asks policy_of Text-discrete ℕ_discrete safe_nat BucketKey-discrete
    execute_atomic_consume_with_retry retry_sqlite_contention consume_with upsert maintain
    prune_expired run_delete maintain_at delete_at
two_admitted = refl

requests-IsAligned : IsAligned 0 requests
unfolding IsAligned
requests-IsAligned = (omega arith, (omega arith, (omega arith, (omega arith, (omega arith, tt)))))

admitted_in-le_example : admitted_in key policies 1000 25 requests empty_budget ≤ 2
admitted_in-le_example =
    admitted_in-le key policies 2 1000 1000 25 requests is_policy requests-IsAligned

abbrev upserts : List Ask
upserts =
    record { key = key; expires_at = 2000; limit = 2 }
    ∷ record { key = key; expires_at = 2000; limit = 2 }
    ∷ record { key = key; expires_at = 2000; limit = 2 }
    ∷ []

empty-Agree : Agree [] (λ k. 0)
unfolding Agree
empty-Agree k = refl

run_table-run_counters_example : run_table upserts [] ≡ run_counters upserts (λ k. 0)
run_table-run_counters_example =
    run_table-run_counters upserts [] (λ k. 0) (omega arith, (omega arith, (omega arith, tt)))
      empty-Agree
