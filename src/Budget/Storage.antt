-- ===== src/Budget/Storage.antt =====
-- The table request_budget_buckets, and the SQL of src/features/security/request-budget.ts on it.
use coredot_editor.Prelude.{
  ℕ, ◌+◌, List, [], ◌∷◌, Option, none, some, Text, Text-discrete, ℕ_discrete, Key, get, insert,
  if◌then◌else◌, ltb, leb,
}

-- The primary key of a row.
pub record BucketKey : Type 0 where
  pub workspace_id : Text
  pub principal_id : Text
  pub policy_id : Text
  pub window_start : ℕ

unfoldable pub BucketKey-discrete : Discrete BucketKey
BucketKey-discrete = hlevel (Text-discrete, ℕ_discrete)

instance abbrev pub bucket_key : Key BucketKey
bucket_key = record { decide = BucketKey-discrete }

pub record Bucket : Type 0 where
  pub request_count : ℕ
  pub expires_at : ℕ

abbrev pub Table : Type 0
Table = List (BucketKey × Bucket)

-- The UPSERT of `consume`: the table, and the count that it returns, where it returns a row.
unfoldable pub upsert : BucketKey → ℕ → ℕ → Table → Table × Option ℕ
upsert key expires_at limit table = elim (get key table) [
  | none ↦ (insert key (record { request_count = 1; expires_at = expires_at }) table, some 1)
  | some bucket ↦
      if ltb bucket.request_count limit
      then (
        insert key (record { request_count = bucket.request_count + 1; expires_at = expires_at })
            table,
        some (bucket.request_count + 1),
      )
      else (table, none)
]

-- REQUEST_BUDGET_CLOCK_SKEW_GRACE_MS
abbrev pub clock_skew_grace_ms : ℕ
clock_skew_grace_ms = 300000

-- The DELETE of `pruneExpired`: `expires_at <= now - grace`, where the right side may be negative.
unfoldable pub prune_expired : ℕ → Table → Table
prune_expired now [] = []
prune_expired now ((key, bucket) ∷ table) =
    let rest = prune_expired now table in
    if leb (bucket.expires_at + clock_skew_grace_ms) now then rest else (key, bucket) ∷ rest
