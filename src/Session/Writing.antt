-- ===== src/Session/Writing.antt =====
-- When the session of src/features/collaboration/client/session-store.ts may be edited.
use coredot_editor.Prelude.{
  ◌≡◌, ap, sym, ◌∙◌, Bool, true, false, List, [], ◌∷◌, ◌++◌, some, arith, All,
}
use coredot_editor.Session.Publishing.{
  calls_keep, calls-append, call-state, state_of, calls_create-IsCurrent,
}
use coredot_editor.Prelude.Result.{ok}
use coredot_editor.Session.View.{write, State, is_write, is_writable, create_snapshot}
use coredot_editor.Session.{
  Store, create_store, is_fatal, is_terminal, Call, begin_reauthenticating,
  mark_authorization_expired, mark_fatal, mark_schema_incompatible, mark_transport_synced, effect,
  call, after_call, calls,
}

pub record IsSound (s : State) : Type 0 where
  pub synced_writer :
      s.transport_synced ≡ true → is_write s.permission ≡ true → s.has_completed_initial_sync ≡ true
  pub terminal_reader : is_terminal s ≡ true → is_write s.permission ≡ false
  pub fatal_stale :
      is_fatal s ≡ true → (s.requires_fresh_sync ≡ true) × (s.transport_synced ≡ false)

effect-IsSound :
    (s s' : State) (c : Call) → Unit {0} → IsSound s → effect s c ≡ ok (some s') → IsSound s'
unfolding effect
effect-IsSound s s' begin_reauthenticating u v e = ground arith
effect-IsSound s s' c u v e = ground arith

writable_needs :
    (s : State)
    → IsSound s
    → is_writable s ≡ true
    → (s.permission ≡ some write) × (s.has_completed_initial_sync ≡ true) × (is_terminal s ≡ false)
unfolding is_writable
writable_needs s v h = ground arith

All-calls : (cs : List Call) → All (λ c. Unit {0}) cs
All-calls [] = tt
All-calls (c ∷ cs) = (tt, All-calls cs)

calls-IsSound : (cs : List Call) → IsSound (calls create_store cs).state
unfolding create_store
calls-IsSound cs =
    calls_keep IsSound (λ c. Unit {0}) effect-IsSound create_store cs (All-calls cs)
      (record { synced_writer = λ a b. cc; terminal_reader = λ a. cc; fatal_stale = λ a. cc })

-- After any sequence of calls, a published snapshot that says `writable` has the write permission and
-- belongs to a session that completed its initial synchronisation and is neither fatal nor expired.
pub writable_safe :
    (cs : List Call)
    → (calls create_store cs).snapshot.writable ≡ true
    → let t = calls create_store cs in
      (t.snapshot.permission ≡ some write)
      × (t.snapshot.has_completed_initial_sync ≡ true)
      × (is_terminal t.state ≡ false)
unfolding create_store create_snapshot
writable_safe cs h =
    let t : Store = calls create_store cs in
    let current = calls_create-IsCurrent cs in
    let (p, q, r) =
      writable_needs t.state (calls-IsSound cs) (sym (ap (λ n. n.writable) current) ∙ h) in
    (ap (λ n. n.permission) current ∙ p, ap (λ n. n.has_completed_initial_sync) current ∙ q, r)

-- The calls that synchronise the transport.
abbrev pub resyncs : Call → Bool
resyncs mark_transport_synced = true
resyncs mark_schema_incompatible = true
resyncs _ = false

-- The calls that drop the session's authorization.
abbrev pub drops : Call → Bool
drops begin_reauthenticating = true
drops mark_authorization_expired = true
drops mark_fatal = true
drops _ = false

abbrev IsStale : State → Type 0
IsStale s = (s.requires_fresh_sync ≡ true) × (s.transport_synced ≡ false)

effect-drops :
    (s : State) (c : Call) → drops c ≡ true → IsSound s → IsStale (state_of s (effect s c))
unfolding effect
effect-drops s begin_reauthenticating h v = ground arith
effect-drops s c h v = ground arith

effect-IsStale :
    (s s' : State) (c : Call)
    → resyncs c ≡ false
    → IsStale s
    → effect s c ≡ ok (some s')
    → IsStale s'
unfolding effect
effect-IsStale s s' begin_reauthenticating q v e = ground arith
effect-IsStale s s' c q v e = ground arith

stale_reader : (s : State) → IsStale s → is_writable s ≡ false
unfolding is_writable
stale_reader s v = ground arith

-- Once a session is reauthenticated, expired or fatal, no snapshot says `writable` until the transport
-- is synchronised again, whatever other calls come in between.
pub writable_needs_resync :
    (before : List Call) (c : Call) (cs : List Call)
    → drops c ≡ true
    → All (λ d. resyncs d ≡ false) cs
    → (calls create_store (before ++ c ∷ cs)).snapshot.writable ≡ false
unfolding create_snapshot calls
writable_needs_resync before c cs h q =
    let t : Store = calls create_store before in
    let u : Store = after_call t (call t c) in
    let start : IsStale u.state =
      rw (call-state t c) (effect-drops t.state c h (calls-IsSound before)) in
    let stale : IsStale (calls u cs).state =
      calls_keep IsStale (λ d. resyncs d ≡ false) effect-IsStale u cs q start in
    ap (λ n. n.writable) (calls_create-IsCurrent (before ++ c ∷ cs))
    ∙ stale_reader (calls create_store (before ++ c ∷ cs)).state
        (rw (calls-append create_store before (c ∷ cs)) stale)
