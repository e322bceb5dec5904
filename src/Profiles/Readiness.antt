-- ===== src/Profiles/Readiness.antt =====
-- Readiness, and `validateProjectDocumentState`, in src/features/projects/project-profile.ts.
use coredot_editor.Prelude.{
  Bool, not, List, [], ◌∷◌, Option, none, some, Text, Text-discrete, if◌then◌else◌, holds, any,
}
use coredot_editor.Prelude.Result.{ok, err}
use coredot_editor.Profiles.Data.{
  Field, ReadinessState, Profile, Labels, FieldType, Metadata, Violation, of_field,
  invalid_readiness_transition,
}
use coredot_editor.Profiles.Defining.{member, draft}
use coredot_editor.Profiles.Metadata.{validate_project_metadata}

unfoldable pub find_state : Text → List ReadinessState → Option ReadinessState
find_state id [] = none
find_state id (state ∷ states) =
    let rest = find_state id states in
    if holds (Text-discrete state.id id) then some state else rest

unfoldable pub filter_states : List Text → List ReadinessState → List ReadinessState
filter_states allowed [] = []
filter_states allowed (state ∷ states) =
    let rest = filter_states allowed states in
    if member state.id allowed then state ∷ rest else rest

-- getProjectReadinessOptions
unfoldable pub get_project_readiness_options : Profile → Text → List ReadinessState
get_project_readiness_options profile current = elim (find_state current profile.readiness) [
  | none ↦ []
  | some state ↦ filter_states (current ∷ state.transitions) profile.readiness
]

-- isProjectReadinessTransitionAllowed
unfoldable pub is_project_readiness_transition_allowed : Profile → Text → Text → Bool
is_project_readiness_transition_allowed profile current next =
    any (λ state. holds (Text-discrete state.id next))
      (get_project_readiness_options profile current)

-- The part of a document that a profile is about.
pub record DocumentState : Type 0 where
  pub metadata_json : Metadata
  pub readiness : Text

-- ProjectDocumentStateValidationResult, or a TypeError where the profile has no states at all.
pub data StateResult : Type 0 where
  valid : DocumentState → StateResult
  invalid : Violation → StateResult
  thrown : StateResult

abbrev pub previous_metadata : Option DocumentState → Metadata
previous_metadata none = []
previous_metadata (some previous) = previous.metadata_json

-- `previous?.readiness ?? profile.readiness[0]!.id`
abbrev pub current_readiness : Option DocumentState → List ReadinessState → Option Text
current_readiness (some previous) states = some previous.readiness
current_readiness none [] = none
current_readiness none (state ∷ states) = some state.id

-- validateProjectDocumentState
unfoldable pub validate_project_document_state :
    Profile → DocumentState → Option DocumentState → StateResult
validate_project_document_state profile input previous =
    elim (validate_project_metadata profile.metadata_fields input.metadata_json
      (previous_metadata previous) (not (holds (Text-discrete input.readiness draft)))) [
        | err (id, reason) ↦ invalid (of_field id reason)
        | ok metadata ↦ elim (current_readiness previous profile.readiness) [
          | none ↦ thrown
          | some current ↦
              if is_project_readiness_transition_allowed profile current input.readiness
              then valid (record { metadata_json = metadata; readiness = input.readiness })
              else invalid (invalid_readiness_transition current input.readiness)
        ]
      ]

-- createDocumentFilterDefinitions
pub record FilterDefinition : Type 0 where
  pub id : Text
  pub labels : Labels
  pub options : Option (List Text)
  pub type : FieldType

unfoldable pub create_document_filter_definitions : List Field → List FilterDefinition
create_document_filter_definitions [] = []
create_document_filter_definitions (f ∷ fields) =
    let rest = create_document_filter_definitions fields in
    if f.filterable
    then record { id = f.id; labels = f.labels; options = f.options; type = f.type } ∷ rest
    else rest
