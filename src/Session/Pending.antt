-- ===== src/Session/Pending.antt =====
-- The local updates of src/features/collaboration/client/session-store.ts that are still to be stored.
use coredot_editor.Prelude.{
  ℕ, ◌+◌, ◌≡◌, refl, ◌&&◌, List, [], ◌∷◌, ◌++◌, none, some, Text, ltb, if◌then◌else◌, ite,
  Text-discrete, arith,
}
use coredot_editor.Session.View.{State, is_checksum}
use coredot_editor.Session.{
  Store, remove_first, Call, acknowledge_durable_update, mark_awaiting_durable_acknowledgement,
  record_local_update, resolve_pending_local_update, effect, call, after_call, calls,
}
use coredot_editor.Session.Publishing.{call-state, state_of}

-- How often a checksum stands in a list.
abbrev pub occurrences : Text → List Text → ℕ
occurrences c [] = 0
occurrences c (d ∷ ds) = ite (Text-discrete d c) 1 0 + occurrences c ds

occurrences-append :
    (c : Text) (ds es : List Text) → occurrences c (ds ++ es) ≡ occurrences c ds + occurrences c es
occurrences-append c [] es = omega arith
occurrences-append c (d ∷ ds) es = omega (arith, occurrences-append c ds es)

-- Removal takes one occurrence of the checksum, and fails where there is none.
occurrences-remove_first :
    (c d : Text) (ds : List Text) → elim (remove_first c ds) as (λ o. Type 0) [
      | none ↦ occurrences c ds ≡ 0
      | some es ↦ occurrences d es + ite (Text-discrete c d) 1 0 ≡ occurrences d ds
    ]
unfolding remove_first
occurrences-remove_first c d [] = refl
occurrences-remove_first c d (e ∷ ds) = ground (arith, occurrences-remove_first c d ds)

-- The occurrences of a checksum among the updates that are not acknowledged.
abbrev pub outstanding : Text → State → ℕ
outstanding x s =
    occurrences x s.pending_local_checksums
    + occurrences x s.pending_durable_acknowledgement_checksums

-- Whether a call records an update with the checksum.
abbrev pub recorded : Text → State → Call → ℕ
recorded x s (record_local_update c) = if is_checksum c then ite (Text-discrete c x) 1 0 else 0
recorded x s (resolve_pending_local_update c) =
    if is_checksum c && ltb 0 s.pending_local_update_count then ite (Text-discrete c x) 1 0 else 0
recorded x s _ = 0

-- Whether a call acknowledges an update with the checksum, which was awaiting that.
abbrev pub acknowledged : Text → State → Call → ℕ
acknowledged x s (acknowledge_durable_update c) =
    if is_checksum c && ltb 0 (occurrences c s.pending_durable_acknowledgement_checksums)
    then ite (Text-discrete c x) 1 0
    else 0
acknowledged x s _ = 0

effect-outstanding :
    (x : Text) (s : State) (c : Call)
    → outstanding x (state_of s (effect s c)) + acknowledged x s c
      ≡ outstanding x s + recorded x s c
unfolding effect
effect-outstanding x s (acknowledge_durable_update c) = ground (
  arith,
  occurrences-remove_first c x s.pending_durable_acknowledgement_checksums,
  occurrences-remove_first c c s.pending_durable_acknowledgement_checksums,
)
effect-outstanding x s (mark_awaiting_durable_acknowledgement c) = ground (
  arith,
  occurrences-remove_first c x s.pending_local_checksums,
  occurrences-append x s.pending_durable_acknowledgement_checksums (c ∷ []),
)
effect-outstanding x s (record_local_update c) =
    ground (arith, occurrences-append x s.pending_local_checksums (c ∷ []))
effect-outstanding x s (resolve_pending_local_update c) =
    ground (arith, occurrences-append x s.pending_local_checksums (c ∷ []))
effect-outstanding x s c = ground arith

pub all_recorded : Text → Store → List Call → ℕ
all_recorded x t [] = 0
all_recorded x t (c ∷ cs) = recorded x t.state c + all_recorded x (after_call t (call t c)) cs

pub all_acknowledged : Text → Store → List Call → ℕ
all_acknowledged x t [] = 0
all_acknowledged x t (c ∷ cs) =
    acknowledged x t.state c + all_acknowledged x (after_call t (call t c)) cs

-- No update is lost or stored twice: over any sequence of calls, for every checksum, the updates that
-- are not acknowledged are those that were there and those that were recorded, less those that were
-- acknowledged while they were awaiting it.
pub calls-outstanding :
    (x : Text) (t : Store) (cs : List Call)
    → outstanding x (calls t cs).state + all_acknowledged x t cs
      ≡ outstanding x t.state + all_recorded x t cs
unfolding calls all_recorded all_acknowledged
calls-outstanding x t [] = refl
calls-outstanding x t (c ∷ cs) =
    let u : Store = after_call t (call t c) in
    let now : outstanding x u.state + acknowledged x t.state c
        ≡ outstanding x t.state + recorded x t.state c =
      rw (call-state t c) (effect-outstanding x t.state c) in
    omega (arith, calls-outstanding x u cs)
