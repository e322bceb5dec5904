-- ===== src/Budget/Steps.antt =====
-- The calls of `consume` of src/features/security/request-budget.ts under way at the same time: between
-- the UPSERT of a call, its maintenance and its DELETE, other calls run, at this instance or at others.
use coredot_editor.Prelude.{
  ℕ, max, ◌+◌, ◌≤◌, ◌≡◌, List, [], ◌∷◌, none, some, zero, suc, get_elem?, All, arith,
}
use coredot_editor.Prelude.Splice.{remove_at}
use coredot_editor.Budget.Storage.{clock_skew_grace_ms}
use coredot_editor.Budget.Consuming.{Budget, ConsumeInput, maintain, run_delete}

-- A request, or the maintenance or the DELETE of the call at a position of those that wait for it.
pub data Step : Type 0 where
  ask : ConsumeInput → Step
  maintenance deletion : ℕ → Step

unfoldable pub maintain_at : ℕ → ℕ → Budget → Budget
maintain_at prune_interval i b = elim (get_elem? b.counted i) [
  | none ↦ b
  | some input ↦ maintain prune_interval input (record b { counted = remove_at i b.counted })
]

unfoldable pub delete_at : ℕ → Budget → Budget
delete_at i b = elim (get_elem? b.deleting i) [
  | none ↦ b
  | some input ↦ run_delete input (record b { deleting = remove_at i b.deleting })
]

-- No clock is behind the latest time that another has shown by more than the grace.
unfoldable pub IsAligned : ℕ → List Step → Type 0
IsAligned latest [] = Unit
IsAligned latest (ask input ∷ steps) =
    (latest ≤ input.now_ms + clock_skew_grace_ms) × IsAligned (max latest input.now_ms) steps
IsAligned latest (maintenance i ∷ steps) = IsAligned latest steps
IsAligned latest (deletion i ∷ steps) = IsAligned latest steps

abbrev pub IsBefore : ℕ → ConsumeInput → Type 0
IsBefore latest input = input.now_ms ≤ latest

-- Every call under way has shown its time.
unfoldable pub AreBefore : ℕ → Budget → Type 0
AreBefore latest b = All (IsBefore latest) b.counted × All (IsBefore latest) b.deleting

pub get_elem?-IsBefore :
    (latest i : ℕ) (input : ConsumeInput) (inputs : List ConsumeInput)
    → get_elem? inputs i ≡ some input
    → All (IsBefore latest) inputs
    → IsBefore latest input
get_elem?-IsBefore latest i input [] e h = cc
get_elem?-IsBefore latest zero input (x ∷ inputs) e (k, h) = ground arith
get_elem?-IsBefore latest (suc i) input (x ∷ inputs) e (k, h) =
    get_elem?-IsBefore latest i input inputs e h

pub remove_at-IsBefore :
    (latest i : ℕ) (inputs : List ConsumeInput)
    → All (IsBefore latest) inputs
    → All (IsBefore latest) (remove_at i inputs)
remove_at-IsBefore latest i [] h = tt
remove_at-IsBefore latest zero (x ∷ inputs) (k, h) = h
remove_at-IsBefore latest (suc i) (x ∷ inputs) (k, h) = (k, remove_at-IsBefore latest i inputs h)

pub later-IsBefore :
    (latest later : ℕ) (inputs : List ConsumeInput)
    → latest ≤ later
    → All (IsBefore latest) inputs
    → All (IsBefore later) inputs
later-IsBefore latest later [] le h = tt
later-IsBefore latest later (x ∷ inputs) le (k, h) =
    (omega (arith, le, k), later-IsBefore latest later inputs le h)
