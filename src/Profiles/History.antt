-- ===== src/Profiles/History.antt =====
-- A document over its accepted states, from its creation on, under one profile of
-- src/features/projects/project-profile.ts.
use coredot_editor.Prelude.{
  ℕ, suc, ◌≡◌, ◌≢◌, sym, subst, inl, inr, Bool, true, not, List, [], Option, none, some, Text,
  Text-discrete, get, text_key, holds, Option-cases, IsUnique, arith,
}
use coredot_editor.Profiles.Data.{Field, Profile, Metadata, Value}
use coredot_editor.Profiles.Defining.{member, draft, state_ids}
use coredot_editor.Profiles.Metadata.{field_map}
use coredot_editor.Profiles.Readiness.{
  DocumentState, valid, previous_metadata, validate_project_document_state,
}
use coredot_editor.Profiles.Transitions.{transition_inv, validate_project_document_state_inv}
use coredot_editor.Profiles.Accepted.{
  IsAllowed, HasAllowed, IsAccepted, HasRequired, validate_project_metadata-IsAccepted,
  validate_project_metadata-HasAllowed,
}

-- A document after a number of accepted states. An input that is refused changes nothing.
pub data History (p : Profile) : ℕ → DocumentState → Type 0 where
  created :
      (input next : DocumentState)
      → validate_project_document_state p input none ≡ valid next
      → History p 1 next
  updated :
      {n : ℕ} {previous : DocumentState} (input next : DocumentState)
      → History p n previous
      → validate_project_document_state p input (some previous) ≡ valid next
      → History p (suc n) next

-- The state of a document that keeps to its profile.
unfoldable pub IsSound : Profile → DocumentState → Type 0
IsSound p d =
    (member d.readiness (state_ids p.readiness) ≡ true)
    × IsUnique d.metadata_json
    × HasAllowed (field_map p.metadata_fields []) [] d.metadata_json
    × (d.readiness ≢ draft → HasRequired p.metadata_fields d.metadata_json)

none_some : {v : Value} → ◌≢◌ {A = Option Value} none (some v)
none_some e = cc

not-draft : (t : Text) → t ≢ draft → not (holds (Text-discrete t draft)) ≡ true
not-draft t h = ground arith

allowed_before :
    (fields : List (Text × Field)) (previous value : Metadata)
    → HasAllowed fields [] previous
    → HasAllowed fields previous value
    → HasAllowed fields [] value
unfolding HasAllowed IsAllowed
allowed_before fields previous value before now id v e = elim (Option-cases (get id fields)) [
  | inl k ↦ before id v (rw (k, IsAllowed) at (now id v e))
  | inr (field, k) ↦ rw (k, IsAllowed) (rw (k, IsAllowed) at (now id v e))
]

next-IsSound :
    (p : Profile) (input next : DocumentState) (previous : Option DocumentState)
    → IsUnique (previous_metadata previous)
    → HasAllowed (field_map p.metadata_fields []) [] (previous_metadata previous)
    → validate_project_document_state p input previous ≡ valid next
    → IsSound p next
unfolding IsSound IsAccepted
next-IsSound p input next previous unique before e =
    let (run, same, current, at_current, allowed) =
      validate_project_document_state_inv p input next previous e in
    let enforce : Bool = not (holds (Text-discrete input.readiness draft)) in
    let (_, _, _, is_state) = transition_inv p current input.readiness allowed in
    let (u, now) =
      validate_project_metadata-IsAccepted p.metadata_fields input.metadata_json
        (previous_metadata previous) next.metadata_json enforce unique run in
    let (_, full) =
      validate_project_metadata-HasAllowed p.metadata_fields input.metadata_json
        (previous_metadata previous) next.metadata_json enforce unique run in
    (
      subst (λ t. member t (state_ids p.readiness) ≡ true) (sym same) is_state,
      u,
      allowed_before (field_map p.metadata_fields []) (previous_metadata previous)
          next.metadata_json before now,
      λ h. full (not-draft input.readiness (subst (λ t. t ≢ draft) same h)),
    )

nothing_before : (fields : List (Text × Field)) → HasAllowed fields [] []
unfolding HasAllowed
nothing_before fields id v e = absurd (none_some e)

-- However a document was created and changed, every change checked by `validateProjectDocumentState`,
-- its readiness is a state of the profile, each name of its metadata stands once and has a field of
-- the profile, each value is one that its field gives unchanged, and a document that is no draft has a
-- value for each required field, but for those with the name of a property that every object inherits.
pub History-IsSound : (p : Profile) {n : ℕ} {d : DocumentState} → History p n d → IsSound p d
unfolding IsSound
History-IsSound p (created input next e) =
    next-IsSound p input next none tt (nothing_before (field_map p.metadata_fields [])) e
History-IsSound p (updated {previous = previous} input next h e) =
    let (_, unique, kept, _) = History-IsSound p h in
    next-IsSound p input next (some previous) unique kept e
