-- ===== src/Session/Tests.antt =====
-- Runs of the session store, and the theorems at concrete inputs.
use coredot_editor.Prelude.{
  length, ◌==◌, ◌+◌, ◌≡◌, ◌≢◌, refl, ◌⊎◌, true, false, List, [], ◌∷◌, ◌++◌, none, some, Text,
  Text-discrete, ℕ_discrete, replicate,
}
use coredot_editor.Session.View.{
  Status, write, is_checksum, create_snapshot, snapshots_equal, Status-discrete,
  Permission-discrete, Texts-discrete,
}
use coredot_editor.Session.{
  create_store, publish, is_terminal, Call, begin_reauthenticating, begin_local_update, mark_fatal,
  mark_transport_synced, mark_authenticated, acknowledge_durable_update,
  mark_awaiting_durable_acknowledgement, resolve_pending_local_update, effect, call, after_call,
  calls, subscribe, Store, Listener, listener_throws,
}
use coredot_editor.Session.Publishing.{IsCurrent, AreCalled, calls_create-IsCurrent, call_notifies}
use coredot_editor.Session.Writing.{writable_safe, writable_needs_resync}
use coredot_editor.Session.Pending.{outstanding, all_recorded, all_acknowledged, calls-outstanding}
use coredot_editor.Session.Ending.{fatal_final}

abbrev digest : Text
digest = replicate 64 b'a'

abbrev opening : List Call
opening =
    mark_authenticated write
    ∷ mark_transport_synced
    ∷ begin_local_update
    ∷ resolve_pending_local_update digest
    ∷ []

opened : (calls create_store opening).snapshot.writable ≡ true
unfolding calls call create_store effect publish create_snapshot snapshots_equal Texts-discrete
    Text-discrete Status-discrete Permission-discrete ℕ_discrete is_checksum
opened = refl

calls_create-IsCurrent_example : IsCurrent (calls create_store opening)
calls_create-IsCurrent_example = calls_create-IsCurrent opening

-- The first of two listeners throws at its first call.
abbrev observed : Store
observed =
    subscribe (subscribe create_store (record { identity = 7; throws = λ n. n == 0 }))
      (record { identity = 8; throws = λ n. false })

call_notifies_example :
    let u = after_call observed (call observed mark_fatal) in
    ((u.snapshot ≡ observed.snapshot)
      × (u.deliveries ≡ observed.deliveries)
      × (listener_throws observed mark_fatal ≡ false))
    ⊎ ((u.snapshot ≢ observed.snapshot)
        × ((those : List Listener) × (u.deliveries ≡ observed.deliveries ++ those)
            × AreCalled
                (length observed.deliveries)
                observed.listeners
                those
                (listener_throws observed mark_fatal)))
call_notifies_example = call_notifies observed mark_fatal

writable_safe_example :
    ((calls create_store opening).snapshot.permission ≡ some write)
    × ((calls create_store opening).snapshot.has_completed_initial_sync ≡ true)
    × (is_terminal (calls create_store opening).state ≡ false)
writable_safe_example = writable_safe opening opened

writable_needs_resync_example :
    (calls create_store
      (opening ++ begin_reauthenticating ∷ mark_authenticated write ∷ [])).snapshot.writable
    ≡ false
writable_needs_resync_example =
    writable_needs_resync opening begin_reauthenticating (mark_authenticated write ∷ []) refl
      (refl, tt)

fatal_final_example :
    let n = (calls create_store (opening ++ mark_fatal ∷ mark_authenticated write ∷ [])).snapshot in
    (n.status ≡ Status.fatal) × (n.permission ≡ none) × (n.writable ≡ false)
fatal_final_example = fatal_final opening (mark_authenticated write ∷ [])

abbrev storing : List Call
storing =
    opening ++ mark_awaiting_durable_acknowledgement digest ∷ acknowledge_durable_update digest ∷ []

calls-outstanding_example :
    outstanding digest (calls create_store storing).state
      + all_acknowledged digest create_store storing
    ≡ outstanding digest create_store.state + all_recorded digest create_store storing
calls-outstanding_example = calls-outstanding digest create_store storing
