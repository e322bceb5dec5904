-- ===== src/Profiles/Tests.antt =====
-- The profiles of src/features/projects/default-project-profiles.ts, and runs under them.
use coredot_editor.Prelude.{
  inl, inr, ◌≡◌, ◌≤◌, refl, true, false, [], ◌∷◌, none, some, Text, Text-discrete, ℕ_discrete,
  codes, get, text_key, arith,
}
use coredot_editor.Prelude.Result.{ok}
use coredot_editor.Profiles.Texts.{trim, trim_start, trim_end, is_calendar_date, reads_back}
use coredot_editor.Profiles.Data.{Field, date, Metadata, string, array, word}
use coredot_editor.Profiles.Defining.{
  member, set_size, each, assert_non_blank, assert_metadata_field_limit,
  validate_metadata_field_caps, check_options, check_field, check_state, check_profile,
  define_project_profile,
}
use coredot_editor.Profiles.Metadata.{
  normalize_field_value, normalize_tags, normalize_text, words, trimmed, field_map, keep_legacy,
  accept_entry, accept_entries, missing, validate_project_metadata,
}
use coredot_editor.Profiles.Readiness.{
  find_state, filter_states, get_project_readiness_options, is_project_readiness_transition_allowed,
  DocumentState, valid, validate_project_document_state,
}
use coredot_editor.Profiles.Defaults.{
  default_profile, legal_review, research_writing, needs_review, ready, approved, readiness_order,
  progressive_transitions, filter_field, default_project_profiles, builtin_template_keys, register,
  create_project_profile_registry, labels,
}
use coredot_editor.Profiles.Normal.{normalize_field_value_again}
use coredot_editor.Profiles.Accepted.{HasRequired, validate_project_metadata-IsAccepted}
use coredot_editor.Profiles.Limits.{HasTypes, validate_project_metadata-HasTypes}
use coredot_editor.Profiles.Resubmission.{HasNumbers, validate_project_metadata_again}
use coredot_editor.Profiles.History.{History, created, updated, IsSound, History-IsSound}
use coredot_editor.Profiles.Progress.{IsProgressive, rank, History-rank}
use coredot_editor.Profiles.Approval.{
  IsComplete, Changes, HasValues, HasDefaultStates, Changes-approved,
}

default_is_defined : define_project_profile default_profile ≡ ok default_profile
unfolding define_project_profile check_profile assert_non_blank trim trim_end trim_start set_size
    each Text-discrete ℕ_discrete check_state check_field check_options validate_metadata_field_caps
    assert_metadata_field_limit
default_is_defined = refl

legal_is_defined : define_project_profile legal_review ≡ ok legal_review
unfolding define_project_profile check_profile assert_non_blank trim trim_end trim_start set_size
    each Text-discrete ℕ_discrete check_state check_field check_options validate_metadata_field_caps
    assert_metadata_field_limit
legal_is_defined = refl

research_is_defined : define_project_profile research_writing ≡ ok research_writing
unfolding define_project_profile check_profile assert_non_blank trim trim_end trim_start set_size
    each Text-discrete ℕ_discrete check_state check_field check_options validate_metadata_field_caps
    assert_metadata_field_limit
research_is_defined = refl

-- A date is trimmed, a tag that is blank goes.
abbrev sent : Metadata
sent =
    (codes "dueDate", string (codes " 2024-02-29 "))
    ∷ (codes "tags", array (word (codes " a ") ∷ word (codes " ") ∷ []))
    ∷ []

abbrev stored : Metadata
stored =
    (codes "dueDate", string (codes "2024-02-29"))
    ∷ (codes "tags", array (word (codes "a") ∷ []))
    ∷ []

sent_is_stored : validate_project_metadata legal_review.metadata_fields sent [] true ≡ ok stored
unfolding validate_project_metadata accept_entries accept_entry field_map Text-discrete ℕ_discrete
    normalize_field_value trim trim_end trim_start normalize_text is_calendar_date reads_back words
    normalize_tags trimmed missing keep_legacy
sent_is_stored = refl

no_such_day : is_calendar_date (codes "2023-02-29") ≡ false
unfolding is_calendar_date reads_back
no_such_day = refl

-- The program's own profiles make a registry.
are_registered :
    create_project_profile_registry default_project_profiles builtin_template_keys
    ≡ ok (
        (codes "default", default_profile)
        ∷ (codes "legal-review", legal_review)
        ∷ (codes "research-writing", research_writing)
        ∷ [])
unfolding create_project_profile_registry register Text-discrete ℕ_discrete
are_registered = refl

abbrev due_date : Field
due_date = filter_field (codes "dueDate") (labels (codes "Due date") (codes "기한")) date none

due_date_once :
    normalize_field_value due_date (string (codes " 2024-02-29 "))
    ≡ ok (some (string (codes "2024-02-29")))
unfolding normalize_field_value Text-discrete ℕ_discrete trim trim_end trim_start normalize_text
    is_calendar_date reads_back
due_date_once = refl

normalize_field_value_again_example :
    normalize_field_value due_date (string (codes "2024-02-29"))
    ≡ ok (some (string (codes "2024-02-29")))
normalize_field_value_again_example =
    normalize_field_value_again due_date (string (codes " 2024-02-29 "))
      (string (codes "2024-02-29")) due_date_once

validate_project_metadata-HasTypes_example :
    HasTypes (field_map legal_review.metadata_fields []) [] stored
    × (true ≡ true → HasRequired legal_review.metadata_fields stored)
validate_project_metadata-HasTypes_example =
    validate_project_metadata-HasTypes legal_review.metadata_fields sent [] stored true tt
      sent_is_stored

stored-HasNumbers : HasNumbers stored
unfolding HasNumbers
stored-HasNumbers id e = ground arith

validate_project_metadata_again_example :
    (next : Metadata) × (validate_project_metadata legal_review.metadata_fields stored stored true
      ≡ ok next)
    × ((id : Text) → get id next ≡ get id stored)
validate_project_metadata_again_example =
    validate_project_metadata_again legal_review.metadata_fields sent [] stored true tt
      stored-HasNumbers sent_is_stored

-- A document that is created in review and then ready.
abbrev in_review : DocumentState
in_review = record { metadata_json = stored; readiness = needs_review }

abbrev is_ready : DocumentState
is_ready = record { metadata_json = stored; readiness = ready }

review_is_valid :
    validate_project_document_state legal_review
      (record { metadata_json = sent; readiness = needs_review })
      none
    ≡ valid in_review
unfolding validate_project_document_state validate_project_metadata accept_entries accept_entry
    field_map Text-discrete ℕ_discrete normalize_field_value trim trim_end trim_start normalize_text
    is_calendar_date reads_back words normalize_tags trimmed missing keep_legacy
    is_project_readiness_transition_allowed get_project_readiness_options find_state filter_states
review_is_valid = refl

ready_is_valid :
    validate_project_document_state legal_review
      (record { metadata_json = sent; readiness = ready })
      (some in_review)
    ≡ valid is_ready
unfolding validate_project_document_state validate_project_metadata accept_entries accept_entry
    field_map Text-discrete ℕ_discrete normalize_field_value trim trim_end trim_start normalize_text
    is_calendar_date reads_back words normalize_tags trimmed missing keep_legacy
    is_project_readiness_transition_allowed get_project_readiness_options find_state filter_states
ready_is_valid = refl

changes : History legal_review 2 is_ready
changes =
    updated (record { metadata_json = sent; readiness = ready }) is_ready
      (created (record { metadata_json = sent; readiness = needs_review }) in_review
        review_is_valid)
      ready_is_valid

History-IsSound_example : IsSound legal_review is_ready
History-IsSound_example = History-IsSound legal_review changes

legal-IsProgressive : IsProgressive legal_review
unfolding IsProgressive
legal-IsProgressive = (codes "초안", codes "법무 검토 필요", codes "서명 준비", codes "승인됨", refl)

History-rank_example : rank ready ≤ 2
History-rank_example = History-rank legal_review legal-IsProgressive changes

review-IsComplete : IsComplete legal_review.metadata_fields stored
unfolding IsComplete missing
review-IsComplete = (
  [],
  validate_project_metadata-IsAccepted legal_review.metadata_fields sent [] stored true tt
      sent_is_stored,
  refl,
  stored-HasNumbers,
)

is_known : member needs_review readiness_order ≡ true
unfolding Text-discrete ℕ_discrete
is_known = refl

default-HasDefaultStates : HasDefaultStates default_profile
unfolding HasDefaultStates
default-HasDefaultStates =
    (codes "초안", codes "검토 필요", codes "준비 완료", codes "승인됨", none, refl, inl refl)

legal-HasDefaultStates : HasDefaultStates legal_review
unfolding HasDefaultStates
legal-HasDefaultStates = (
  codes "초안",
  codes "법무 검토 필요",
  codes "서명 준비",
  codes "승인됨",
  some progressive_transitions,
  refl,
  inr refl,
)

Changes-approved_example :
    (e : DocumentState) × Changes legal_review in_review e
    × (e.readiness ≡ approved)
    × HasValues in_review e
Changes-approved_example =
    Changes-approved legal_review in_review legal-HasDefaultStates is_known review-IsComplete
