-- ===== src/Session/Ending.antt =====
-- A session of src/features/collaboration/client/session-store.ts that failed for good.
use coredot_editor.Prelude.{◌≡◌, refl, ap, ◌∙◌, false, List, [], ◌∷◌, ◌++◌, none, some, arith, All}
use coredot_editor.Prelude.Result.{ok}
use coredot_editor.Session.View.{
  Status, Lifecycle, State, derive_status, is_writable, create_snapshot,
}
use coredot_editor.Session.{
  Store, create_store, Call, begin_reauthenticating, mark_fatal, effect, call, after_call, calls,
}
use coredot_editor.Session.Publishing.{calls_keep, calls-append, call-state, calls_create-IsCurrent}

abbrev IsBroken : State → Type 0
IsBroken s = (s.lifecycle ≡ Lifecycle.fatal) × (s.permission ≡ none)

effect-IsBroken :
    (s s' : State) (c : Call) → Unit {0} → IsBroken s → effect s c ≡ ok (some s') → IsBroken s'
unfolding effect
effect-IsBroken s s' begin_reauthenticating q v e = ground arith
effect-IsBroken s s' c q v e = ground arith

All-calls : (cs : List Call) → All (λ c. Unit {0}) cs
All-calls [] = tt
All-calls (c ∷ cs) = (tt, All-calls cs)

broken_status :
    (s : State) → IsBroken s → (derive_status s ≡ Status.fatal) × (is_writable s ≡ false)
unfolding is_writable
broken_status s v = ground arith

-- `markFatal` is final: after it, whatever calls follow, the published status is `fatal`, with no
-- permission, and the session is not writable.
pub fatal_final :
    (before cs : List Call)
    → let n = (calls create_store (before ++ mark_fatal ∷ cs)).snapshot in
      (n.status ≡ Status.fatal) × (n.permission ≡ none) × (n.writable ≡ false)
unfolding create_snapshot calls effect
fatal_final before cs =
    let t : Store = calls create_store before in
    let u : Store = after_call t (call t mark_fatal) in
    let start : IsBroken u.state = rw (call-state t mark_fatal) (refl, refl) in
    let broken : IsBroken (calls create_store (before ++ mark_fatal ∷ cs)).state =
      rw (calls-append create_store before (mark_fatal ∷ cs))
        (calls_keep IsBroken (λ d. Unit {0}) effect-IsBroken u cs (All-calls cs) start) in
    let (p, q) = broken_status _ broken in
    let current = calls_create-IsCurrent (before ++ mark_fatal ∷ cs) in
    (
      ap (λ n. n.status) current ∙ p,
      ap (λ n. n.permission) current ∙ broken.1,
      ap (λ n. n.writable) current ∙ q,
    )
