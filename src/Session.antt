-- ===== src/Session.antt =====
-- src/features/collaboration/client/session-store.ts: the editor's collaboration session, its methods
-- and its listeners, with `deliveries` for the log of the calls of listeners. A listener that calls the
-- store while it is being called is not modelled. No method writes anything after it has published, so
-- for the state and the snapshot such a call is one more call of the sequence.
pub mod View
pub mod Publishing
pub mod Writing
pub mod Pending
pub mod Ending
mod Tests
use coredot_editor.Prelude.{
  ℕ, zero, suc, ◌+◌, ◌-◌, Bool, true, false, ◌&&◌, ◌||◌, not, List, [], ◌∷◌, ◌++◌, Option, none,
  some, Text, ltb, leb, ◌==◌, if◌then◌else◌, length, all, any, is_some, ite, holds, Text-discrete,
  ℕ_discrete, arith,
}
use coredot_editor.Prelude.Result.{Result, ok, err, ◌>>=◌, ◌>>◌, guard}
use coredot_editor.Session.View.{
  Status, Lifecycle, Permission, read, write, State, Snapshot, is_checksum, is_nonempty,
  has_pending, derive_status, is_write, is_writable, create_snapshot, snapshots_equal,
  initial_state,
}

-- A listener, and whether it throws where it is the call of a listener with a number.
pub record Listener : Type 0 where
  pub identity : ℕ
  pub throws : ℕ → Bool

pub record Store : Type 0 where
  pub state : State
  pub snapshot : Snapshot
  pub listeners : List Listener
  pub deliveries : List Listener

pub create_store : Store
create_store = record {
  state = initial_state;
  snapshot = create_snapshot initial_state;
  listeners = [];
  deliveries = [];
}

-- The listeners that `for (const listener of listeners) listener()` calls, from a number on: one that
-- throws ends the loop.
unfoldable pub called : ℕ → List Listener → List Listener
called n [] = []
called n (l ∷ ls) = let rest = called (suc n) ls in if l.throws n then l ∷ [] else l ∷ rest

-- Whether that loop throws.
unfoldable pub loop_throws : ℕ → List Listener → Bool
loop_throws n [] = false
loop_throws n (l ∷ ls) = let rest = loop_throws (suc n) ls in if l.throws n then true else rest

-- The state is written, and then published.
pub publish : Store → State → Store
publish t s =
    if snapshots_equal t.snapshot (create_snapshot s) then record t { state = s } else record t {
      state = s;
      snapshot = create_snapshot s;
      deliveries = t.deliveries ++ called (length t.deliveries) t.listeners;
    }

abbrev pub is_fatal : State → Bool
is_fatal s = elim s.lifecycle [ Lifecycle.fatal ↦ true | _ ↦ false ]

abbrev pub is_terminal : State → Bool
is_terminal s = elim s.lifecycle [
  | Lifecycle.fatal ↦ true
  | Lifecycle.authorization_expired ↦ true
  | _ ↦ false
]

-- `indexOf`, then `splice(index, 1)`: the list without the first occurrence, if there is one.
pub remove_first : Text → List Text → Option (List Text)
remove_first c [] = none
remove_first c (d ∷ ds) =
    let rest = remove_first c ds in
    ite (Text-discrete d c) (some ds) (elim rest [ none ↦ none | some es ↦ some (d ∷ es) ])

pub data SessionError : Type 0 where
  invalid_checksum no_pending_update : SessionError

pub data Call : Type 0 where
  begin_reauthenticating begin_local_update discard_pending_local_update : Call
  mark_authorization_expired mark_disconnected mark_fatal mark_storage_delayed : Call
  mark_schema_incompatible mark_transport_synced : Call
  begin_connecting : Bool → Call
  mark_authenticated : Permission → Call
  acknowledge_durable_update mark_awaiting_durable_acknowledgement : Text → Call
  record_local_update resolve_pending_local_update : Text → Call

-- A call's early `return`, and the state that it writes before `publish()`.
abbrev pub Effect : Type 0
Effect = Result SessionError (Option State)

abbrev return_early : Effect
return_early = ok none

abbrev publishes : State → Effect
publishes s = ok (some s)

begin_connecting_state : State → Bool → State
begin_connecting_state s again = record s {
  lifecycle = if again then Lifecycle.reconnecting else Lifecycle.connecting;
  permission = if not again || not s.has_completed_initial_sync then none else s.permission;
  storage_delayed = false;
  transport_synced = false;
}

acknowledged_state : State → List Text → State
acknowledged_state s rest = record s {
  pending_durable_acknowledgement_checksums = rest;
  storage_delayed = if is_nonempty rest then s.storage_delayed else false;
}

resolved_state : State → Text → Effect
resolved_state s checksum =
    if s.pending_local_update_count == 0
    then err no_pending_update
    else publishes (record s {
      pending_local_update_count = s.pending_local_update_count - 1;
      pending_local_checksums = s.pending_local_checksums ++ checksum ∷ [];
    })

pub effect : State → Call → Effect
unfolding begin_connecting_state acknowledged_state resolved_state
effect s begin_reauthenticating =
    if is_fatal s
    then return_early
    else publishes (record s {
      lifecycle = Lifecycle.reconnecting;
      permission = none;
      requires_fresh_sync = true;
      storage_delayed = false;
      transport_synced = false;
    })
effect s begin_local_update =
    publishes (record s { pending_local_update_count = s.pending_local_update_count + 1 })
effect s (acknowledge_durable_update checksum) = do
  guard (is_checksum checksum) invalid_checksum
  elim (remove_first checksum s.pending_durable_acknowledgement_checksums) [
    | none ↦ return_early
    | some rest ↦ publishes (acknowledged_state s rest)
  ]
effect s (begin_connecting again) =
    if is_fatal s then return_early else publishes (begin_connecting_state s again)
effect s discard_pending_local_update =
    if s.pending_local_update_count == 0
    then return_early
    else publishes (record s { pending_local_update_count = s.pending_local_update_count - 1 })
effect s (mark_authenticated permission) =
    if is_terminal s
    then return_early
    else publishes (record s {
      permission = some permission;
      has_completed_initial_sync = s.transport_synced || s.has_completed_initial_sync;
    })
effect s mark_authorization_expired =
    if is_fatal s
    then return_early
    else publishes (record s {
      lifecycle = Lifecycle.authorization_expired;
      permission = none;
      requires_fresh_sync = true;
      transport_synced = false;
    })
effect s (mark_awaiting_durable_acknowledgement checksum) = do
  guard (is_checksum checksum) invalid_checksum
  elim (remove_first checksum s.pending_local_checksums) [
    | none ↦ return_early
    | some rest ↦ publishes (record s {
      pending_local_checksums = rest;
      pending_durable_acknowledgement_checksums =
          s.pending_durable_acknowledgement_checksums ++ checksum ∷ [];
    })
  ]
effect s mark_disconnected =
    if is_terminal s
    then return_early
    else publishes (record s {
      lifecycle = Lifecycle.reconnecting;
      permission = if s.has_completed_initial_sync then s.permission else none;
      transport_synced = false;
    })
effect s mark_fatal = publishes (record s {
  lifecycle = Lifecycle.fatal;
  permission = none;
  requires_fresh_sync = true;
  transport_synced = false;
})
effect s mark_storage_delayed =
    if is_terminal s then return_early else publishes (record s { storage_delayed = true })
effect s mark_schema_incompatible =
    if is_fatal s
    then return_early
    else publishes (record s { permission = some read; transport_synced = true })
effect s mark_transport_synced =
    if is_terminal s
    then return_early
    else publishes (record s {
      transport_synced = true;
      requires_fresh_sync = false;
      has_completed_initial_sync = is_some s.permission || s.has_completed_initial_sync;
    })
effect s (record_local_update checksum) = do
  guard (is_checksum checksum) invalid_checksum
  publishes (record s { pending_local_checksums = s.pending_local_checksums ++ checksum ∷ [] })
effect s (resolve_pending_local_update checksum) = do
  guard (is_checksum checksum) invalid_checksum
  resolved_state s checksum

settle : Store → Option State → Store
settle t none = t
settle t (some s) = publish t s

-- One method of the store; `err` is an error that the method throws, after which the store is as it was.
-- It may also throw the error of a listener, after all that it writes (`listener_throws`).
pub call : Store → Call → Result SessionError Store
unfolding settle
call t c = do written ← effect t.state c; ok (settle t written)

-- Whether a method throws the error of a listener.
unfoldable pub listener_throws : Store → Call → Bool
listener_throws t c = elim (effect t.state c) [
  | err e ↦ false
  | ok none ↦ false
  | ok (some s) ↦
      if snapshots_equal t.snapshot (create_snapshot s)
      then false
      else loop_throws (length t.deliveries) t.listeners
]

abbrev pub after_call : Store → Result SessionError Store → Store
after_call t (ok u) = u
after_call t (err e) = t

pub calls : Store → List Call → Store
calls t [] = t
calls t (c ∷ cs) = calls (after_call t (call t c)) cs

without : Listener → List Listener → List Listener
without l [] = []
without l (k ∷ ks) = ite (ℕ_discrete k.identity l.identity) ks (k ∷ without l ks)

-- A `Set` of listeners.
pub subscribe : Store → Listener → Store
subscribe t listener =
    if any (λ l. l.identity == listener.identity) t.listeners
    then t
    else record t { listeners = t.listeners ++ listener ∷ [] }

pub unsubscribe : Store → Listener → Store
unsubscribe t listener = record t { listeners = without listener t.listeners }
