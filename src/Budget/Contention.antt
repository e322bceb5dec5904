-- ===== src/Budget/Contention.antt =====
-- `retrySqliteContention` of src/db/sqlite-contention.ts. What an attempt meets is an argument; only a
-- contention is retried, and it has not committed.
use coredot_editor.Prelude.{ℕ, zero, suc, ◌*◌, ◌^◌, min, List, [], ◌∷◌}

pub data Attempt : Type 0 where
  commits contended fails : Attempt

pub data Retried : Type 0 where
  committed exhausted failed : Retried

-- The attempts that are left, and the number of those made: how the call ends, and the times that it
-- slept.
unfoldable pub retry_sqlite_contention : (ℕ → Attempt) → ℕ → ℕ → ℕ → ℕ → Retried × List ℕ
retry_sqlite_contention attempt initial_delay max_delay zero made = (exhausted, [])
retry_sqlite_contention attempt initial_delay max_delay (suc zero) made = elim (attempt made) [
  | commits ↦ (committed, [])
  | contended ↦ (exhausted, [])
  | fails ↦ (failed, [])
]
retry_sqlite_contention attempt initial_delay max_delay (suc (suc left)) made =
    let (end, slept) =
      retry_sqlite_contention attempt initial_delay max_delay (suc left) (suc made) in
    elim (attempt made) [
      | commits ↦ (committed, [])
      | contended ↦ (end, min (initial_delay * 2 ^ made) max_delay ∷ slept)
      | fails ↦ (failed, [])
    ]
