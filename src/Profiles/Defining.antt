-- ===== src/Profiles/Defining.antt =====
-- `defineProjectProfile` of src/features/projects/project-profile.ts. Its copy is frozen, which a value is
-- here anyway.
use coredot_editor.Prelude.{
  ℕ, suc, Bool, true, false, not, ◌&&◌, List, [], ◌∷◌, Option, none, some, Text, Text-discrete,
  codes, if◌then◌else◌, holds, leb, ◌==◌, map, length, max_safe_integer, is_some,
}
use coredot_editor.Prelude.Result.{Result, ok, ◌>>◌, guard}
use coredot_editor.Profiles.Texts.{trim, is_empty}
use coredot_editor.Profiles.Data.{
  Cap, exactly, FieldType, select, tags, text, Field, ReadinessState, Profile,
}

-- The errors of `defineProjectProfile`, without the names in their messages.
pub data ProfileError : Type 0 where
  empty_subject duplicate_templates no_readiness not_draft : ProfileError
  duplicate_readiness duplicate_transitions unknown_transition : ProfileError
  duplicate_fields no_options options_not_allowed duplicate_options : ProfileError
  invalid_limit limits_not_allowed : ProfileError

abbrev pub Check : Type 0
Check = Result ProfileError (Unit {0})

abbrev pub member : Text → List Text → Bool
member x [] = false
member x (y ∷ ys) = if holds (Text-discrete y x) then true else member x ys

-- new Set(ids).size
unfoldable pub set_size : List Text → ℕ
set_size [] = 0
set_size (x ∷ xs) = let rest = set_size xs in if member x xs then rest else suc rest

abbrev pub is_set : List Text → Bool
is_set ids = set_size ids == length ids

-- A loop that may throw.
unfoldable pub each : {A : Type 0} → (A → Check) → List A → Check
each check [] = ok tt
each check (x ∷ xs) = do check x; each check xs

-- assertNonBlank
unfoldable pub assert_non_blank : Text → Check
assert_non_blank value = guard (not (is_empty (trim value))) empty_subject

-- Number.isSafeInteger(value) && value >= 1 && value <= maximum
abbrev pub is_limit : ℕ → Cap → Bool
is_limit maximum (exactly n) = leb n max_safe_integer && leb 1 n && leb n maximum
is_limit maximum _ = false

-- assertMetadataFieldLimit
unfoldable pub assert_metadata_field_limit : Option Cap → ℕ → Check
assert_metadata_field_limit none maximum = ok tt
assert_metadata_field_limit (some cap) maximum = guard (is_limit maximum cap) invalid_limit

-- PROJECT_METADATA_LIMITS
abbrev pub max_tag_count : ℕ
max_tag_count = 32

abbrev pub max_tag_length : ℕ
max_tag_length = 64

abbrev pub max_text_length : ℕ
max_text_length = 2000

-- validateMetadataFieldCaps
unfoldable pub validate_metadata_field_caps : Field → Check
validate_metadata_field_caps field = elim field.type [
  | text ↦ do
    assert_metadata_field_limit field.max_length max_text_length
    guard (not (is_some field.max_items) && not (is_some field.item_max_length)) limits_not_allowed
  | tags ↦ do
    assert_metadata_field_limit field.max_items max_tag_count
    assert_metadata_field_limit field.item_max_length max_tag_length
    guard (not (is_some field.max_length)) limits_not_allowed
  | _ ↦
      guard
        (not (is_some field.max_length)
          && not (is_some field.max_items)
          && not (is_some field.item_max_length))
        limits_not_allowed
]

abbrev pub is_select : FieldType → Bool
is_select select = true
is_select _ = false

abbrev pub has_options : Option (List Text) → Bool
has_options none = false
has_options (some options) = not (is_empty options)

-- The options of a field, each of which is not blank and stands once.
unfoldable pub check_options : Option (List Text) → Check
check_options none = ok tt
check_options (some options) = do
  each assert_non_blank options
  guard (is_set options) duplicate_options

unfoldable pub check_field : Field → Check
check_field field = do
  assert_non_blank field.id
  assert_non_blank field.labels.en
  assert_non_blank field.labels.ko
  guard (not (is_select field.type && not (has_options field.options))) no_options
  guard (not (not (is_select field.type) && is_some field.options)) options_not_allowed
  check_options field.options
  validate_metadata_field_caps field

unfoldable pub check_state : List Text → ReadinessState → Check
check_state ids state = do
  assert_non_blank state.id
  assert_non_blank state.labels.en
  assert_non_blank state.labels.ko
  guard (is_set state.transitions) duplicate_transitions
  each (λ transition. guard (member transition ids) unknown_transition) state.transitions

abbrev pub draft : Text
draft = codes "draft"

abbrev pub starts_as_draft : List ReadinessState → Bool
starts_as_draft [] = false
starts_as_draft (state ∷ states) = holds (Text-discrete state.id draft)

abbrev pub state_ids : List ReadinessState → List Text
state_ids states = map (λ s. s.id) states

unfoldable pub check_profile : Profile → Check
check_profile profile = do
  assert_non_blank profile.id
  assert_non_blank profile.labels.en
  assert_non_blank profile.labels.ko
  guard (is_set profile.default_template_ids) duplicate_templates
  each assert_non_blank profile.default_template_ids
  guard (not (is_empty profile.readiness)) no_readiness
  guard (starts_as_draft profile.readiness) not_draft
  guard (is_set (state_ids profile.readiness)) duplicate_readiness
  each (check_state (state_ids profile.readiness)) profile.readiness
  guard (is_set (map (λ f. f.id) profile.metadata_fields)) duplicate_fields
  each check_field profile.metadata_fields

-- defineProjectProfile
unfoldable pub define_project_profile : Profile → Result ProfileError Profile
define_project_profile profile = do check_profile profile; ok profile
