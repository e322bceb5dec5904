-- ===== src/Profiles/Transitions.antt =====
-- How the readiness of a document changes, in src/features/projects/project-profile.ts and
-- default-project-profiles.ts.
use coredot_editor.Prelude.{
  text-eq, false-true, ◌≡◌, ◌≢◌, refl, sym, ap, ◌∙◌, subst, inl, inr, Bool, true, not, List, [],
  ◌∷◌, Option, some, Text, Text-discrete, holds, any, arith, Bool-cases, Option-cases, text_key,
}
use coredot_editor.Prelude.Result.{ok, Result-cases}
use coredot_editor.Profiles.Data.{ReadinessState, Profile, Metadata, Violation}
use coredot_editor.Profiles.Defining.{member, draft, state_ids}
use coredot_editor.Profiles.Metadata.{validate_project_metadata}
use coredot_editor.Profiles.Readiness.{
  find_state, filter_states, get_project_readiness_options, is_project_readiness_transition_allowed,
  DocumentState, StateResult, valid, invalid, thrown, previous_metadata, current_readiness,
  validate_project_document_state,
}

thrown_valid : {d : DocumentState} → ◌≢◌ {A = StateResult} thrown (valid d)
thrown_valid e = cc

invalid_valid : {v : Violation} {d : DocumentState} → ◌≢◌ {A = StateResult} (invalid v) (valid d)
invalid_valid e = cc

filter_states_inv :
    (allowed : List Text) (states : List ReadinessState) (next : Text)
    → any (λ state. holds (Text-discrete state.id next)) (filter_states allowed states) ≡ true
    → (member next allowed ≡ true) × (member next (state_ids states) ≡ true)
unfolding filter_states
filter_states_inv allowed [] next e = cc
filter_states_inv allowed (state ∷ states) next e = elim (Bool-cases (member state.id allowed)) [
  | inr k ↦
      let (here, there) = filter_states_inv allowed states next (rw (k, filter_states) at e) in
      (here, ground arith)
  | inl k ↦ elim (Bool-cases (holds (Text-discrete state.id next))) [
    | inl h ↦ (subst (λ t. member t allowed ≡ true) (text-eq state.id next h) k, rw h refl)
    | inr h ↦
        let (here, there) = filter_states_inv allowed states next (rw (k, h, filter_states) at e) in
        (here, rw h there)
  ]
]

-- What a transition that is allowed needs.
pub transition_inv :
    (p : Profile) (current next : Text)
    → is_project_readiness_transition_allowed p current next ≡ true
    → (state : ReadinessState) × (find_state current p.readiness ≡ some state)
      × (member next (current ∷ state.transitions) ≡ true)
      × (member next (state_ids p.readiness) ≡ true)
unfolding is_project_readiness_transition_allowed get_project_readiness_options
transition_inv p current next e = elim (Option-cases (find_state current p.readiness)) [
  | inl k ↦ absurd (
      false-true
        (rw (k, is_project_readiness_transition_allowed, get_project_readiness_options) at e))
  | inr (state, k) ↦
      let (here, there) =
        filter_states_inv (current ∷ state.transitions) p.readiness next
          (rw (k, is_project_readiness_transition_allowed, get_project_readiness_options) at e) in
      (state, k, here, there)
]

valid-eq : {a b : DocumentState} → ◌≡◌ {A = StateResult} (valid a) (valid b) → a ≡ b
valid-eq e = cc

-- What a state of a document that is valid has passed.
pub validate_project_document_state_inv :
    (p : Profile) (input next : DocumentState) (previous : Option DocumentState)
    → validate_project_document_state p input previous ≡ valid next
    → (validate_project_metadata p.metadata_fields input.metadata_json
          (previous_metadata previous)
          (not (holds (Text-discrete input.readiness draft)))
        ≡ ok next.metadata_json)
      × (next.readiness ≡ input.readiness)
      × (current : Text) × (current_readiness previous p.readiness ≡ some current)
      × (is_project_readiness_transition_allowed p current input.readiness ≡ true)
unfolding validate_project_document_state
validate_project_document_state_inv p input next previous e =
    let enforce : Bool = not (holds (Text-discrete input.readiness draft)) in
    elim (Result-cases (
      validate_project_metadata p.metadata_fields input.metadata_json (previous_metadata previous)
        enforce)) [
          | inl ((id, reason), k) ↦
              absurd (invalid_valid (rw (k, validate_project_document_state) at e))
          | inr (m, k) ↦ elim (Option-cases (current_readiness previous p.readiness)) [
            | inl k' ↦ absurd (thrown_valid (rw (k, k', validate_project_document_state) at e))
            | inr (current, k') ↦
                elim (Bool-cases
                  (is_project_readiness_transition_allowed p current input.readiness)) [
                    | inl t ↦
                        let same : record { metadata_json = m; readiness = input.readiness }
                            ≡ next =
                          valid-eq (rw (k, k', t, validate_project_document_state) at e) in
                        (
                          k ∙ ap (λ (d : DocumentState). ok d.metadata_json) same,
                          sym (ap (λ (d : DocumentState). d.readiness) same),
                          current,
                          k',
                          t,
                        )
                    | inr t ↦
                        absurd (invalid_valid (rw (k, k', t, validate_project_document_state) at e))
                  ]
          ]
        ]

-- The same, the other way round.
pub validate_project_document_state-valid :
    (p : Profile) (input : DocumentState) (previous : DocumentState) (m : Metadata)
    → validate_project_metadata p.metadata_fields input.metadata_json previous.metadata_json
        (not (holds (Text-discrete input.readiness draft)))
      ≡ ok m
    → is_project_readiness_transition_allowed p previous.readiness input.readiness ≡ true
    → validate_project_document_state p input (some previous)
      ≡ valid (record { metadata_json = m; readiness = input.readiness })
unfolding validate_project_document_state
validate_project_document_state-valid p input previous m k t =
    rw (k, t, validate_project_document_state) refl
