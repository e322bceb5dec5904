-- ===== src/Profiles/Limits.antt =====
-- The types of the values of `normalizeFieldValue` and `validateProjectMetadata` in
-- src/features/projects/project-profile.ts.
use coredot_editor.Prelude.{
  ◌≡◌, ◌≢◌, refl, sym, ap, ◌∙◌, inl, inr, Bool, true, false, List, [], ◌∷◌, Option, none, some,
  Text, get, text_key, arith, or_else, length, Bool-cases, Option-cases, any, All, IsUnique,
}
use coredot_editor.Prelude.Result.{ok}
use coredot_editor.Profiles.Texts.{trim, is_empty}
use coredot_editor.Profiles.Data.{
  exactly, FieldType, boolean, date, number, select, tags, text, Field, Value, null, not_a_number,
  truth, finite, infinity, string, array, Metadata,
}
use coredot_editor.Profiles.Defining.{member}
use coredot_editor.Profiles.Metadata.{
  exceeds, words, trimmed, items_of, normalize_tags, normalize_text, normalize_array,
  normalize_string, normalize_as, normalize_field_value, is_blank, includes, field_map,
  validate_project_metadata,
}
use coredot_editor.Profiles.Values.{
  IsTrimmed, IsText, IsChoice, IsTag, AreTags, IsOfType, exceeds-HasSize, trim-IsTrimmed,
  is_calendar_date_lem, member-choice,
}
use coredot_editor.Profiles.Normal.{normalize_text_eq, normalize_tags_eq, refused, emptied}
use coredot_editor.Profiles.Accepted.{
  IsAllowed, HasAllowed, HasRequired, validate_project_metadata-HasAllowed,
}

includes-choice :
    (options : Option (List Text)) (t : Text)
    → includes options t ≡ true
    → (given : List Text) × (options ≡ some given) × (member t given ≡ true)
includes-choice none t e = cc
includes-choice (some given) t e = (given, refl, e)

abbrev is_texty : FieldType → Bool
is_texty text = true
is_texty select = true
is_texty date = true
is_texty _ = false

text-IsOfType :
    (kind : FieldType) (field : Field) (t : Text) (v : Value)
    → field.type ≡ kind
    → IsTrimmed t
    → normalize_text field t ≡ ok (some v)
    → is_texty kind ≡ true
    → IsOfType kind field v
unfolding IsOfType IsText IsChoice normalize_text
text-IsOfType text field t v k h e _ = (
  t,
  normalize_text_eq field t v e,
  (h, exceeds-HasSize (length t) (or_else field.max_length (exactly 2000)) (ground arith)),
)
text-IsOfType select field t v k h e _ =
    let (options, at, there) = includes-choice field.options t (ground arith) in
    let (before, after_, same) = member-choice t options there in
    (t, normalize_text_eq field t v e, h, (before, after_, at ∙ ap some same))
text-IsOfType date field t v k h e _ =
    (t, normalize_text_eq field t v e, is_calendar_date_lem t (ground arith))
text-IsOfType tags field t v k h e w = cc
text-IsOfType boolean field t v k h e w = cc
text-IsOfType number field t v k h e w = cc

trimmed-AllTrimmed : (ws : List Text) → All IsTrimmed (trimmed ws)
unfolding trimmed
trimmed-AllTrimmed [] = tt
trimmed-AllTrimmed (w ∷ ws) = elim (Bool-cases (is_empty (trim w))) [
  | inl e ↦ rw e (trimmed-AllTrimmed ws)
  | inr e ↦ rw e (trim-IsTrimmed w e, trimmed-AllTrimmed ws)
]

All-IsTag :
    (field : Field) (ws : List Text)
    → All IsTrimmed ws
    → any (λ w. exceeds (length w) (or_else field.item_max_length (exactly 64))) ws ≡ false
    → All (IsTag field) ws
unfolding IsTag
All-IsTag field [] h e = tt
All-IsTag field (w ∷ ws) (t, h) e = (
  (t, exceeds-HasSize (length w) (or_else field.item_max_length (exactly 64)) (ground arith)),
  All-IsTag field ws h (ground arith),
)

empty_tags : is_empty {A = Text} [] ≢ false
empty_tags e = cc

tags-AreTags :
    (field : Field) (ws : List Text) (v : Value)
    → All IsTrimmed ws
    → normalize_tags field ws ≡ ok (some v)
    → (v ≡ array (items_of ws)) × AreTags field ws
unfolding normalize_tags AreTags
tags-AreTags field ws v h e =
    let (same, full) = normalize_tags_eq field ws v e in
    (
      same,
      (
        (λ k. empty_tags (ap is_empty (sym k) ∙ full)),
        exceeds-HasSize (length ws) (or_else field.max_items (exactly 32)) (ground arith),
        All-IsTag field ws h (ground arith),
      ),
    )

string-IsOfType :
    (kind : FieldType) (field : Field) (c v : Value)
    → field.type ≡ kind
    → is_texty kind ≡ true
    → normalize_string field c ≡ ok (some v)
    → IsOfType kind field v
string-IsOfType kind field (string s) v k texty e = elim (Bool-cases (is_empty (trim s))) [
  | inl h ↦ cc
  | inr h ↦ text-IsOfType kind field (trim s) v k (trim-IsTrimmed s h) (rw h at e) texty
]
string-IsOfType kind field null v k texty e = cc
string-IsOfType kind field not_a_number v k texty e = cc
string-IsOfType kind field (truth b) v k texty e = cc
string-IsOfType kind field (finite b) v k texty e = cc
string-IsOfType kind field (infinity b) v k texty e = cc
string-IsOfType kind field (array b) v k texty e = cc

array-IsOfType :
    (field : Field) (c v : Value) → normalize_array field c ≡ ok (some v) → IsOfType tags field v
unfolding IsOfType
array-IsOfType field (array items) v e = elim (Option-cases (words items)) [
  | inl k ↦ absurd (refused (rw (k, normalize_array) at e))
  | inr (ws, k) ↦
      let (same, are) =
        tags-AreTags field (trimmed ws) v (trimmed-AllTrimmed ws) (rw (k, normalize_array) at e) in
      (trimmed ws, same, are)
]
array-IsOfType field null v e = cc
array-IsOfType field not_a_number v e = cc
array-IsOfType field (truth b) v e = cc
array-IsOfType field (finite b) v e = cc
array-IsOfType field (infinity b) v e = cc
array-IsOfType field (string b) v e = cc

kind-IsOfType :
    (kind : FieldType) (field : Field) (c v : Value)
    → field.type ≡ kind
    → normalize_as kind field c ≡ ok (some v)
    → IsOfType kind field v
unfolding IsOfType
kind-IsOfType boolean field c v k e = ground arith
kind-IsOfType number field c v k e = ground arith
kind-IsOfType tags field c v k e = array-IsOfType field c v e
kind-IsOfType date field c v k e = string-IsOfType date field c v k refl e
kind-IsOfType select field c v k e = string-IsOfType select field c v k refl e
kind-IsOfType text field c v k e = string-IsOfType text field c v k refl e

normalize_field_value-IsOfType :
    (field : Field) (c v : Value)
    → normalize_field_value field c ≡ ok (some v)
    → IsOfType field.type field v
unfolding normalize_field_value
normalize_field_value-IsOfType field c v e = elim (Bool-cases (is_blank c)) [
  | inl k ↦ absurd (emptied (rw k at e))
  | inr k ↦ kind-IsOfType field.type field c v refl (rw k at e)
]

-- A value that may stand under a name: one of the type of the name's field, or for a name without a
-- field the value that was stored under it before.
unfoldable pub IsTyped : List (Text × Field) → Metadata → Text → Value → Type 0
IsTyped fields previous id v = elim (get id fields) [
  | none ↦ get id previous ≡ some v
  | some field ↦ IsOfType field.type field v
]

IsAllowed-IsTyped :
    (fields : List (Text × Field)) (previous : Metadata) (id : Text) (v : Value)
    → IsAllowed fields previous id v
    → IsTyped fields previous id v
unfolding IsAllowed IsTyped
IsAllowed-IsTyped fields previous id v h = elim (Option-cases (get id fields)) [
  | inl e ↦ rw (e, IsTyped) (rw (e, IsAllowed) at h)
  | inr (field, e) ↦
      rw (e, IsTyped) (normalize_field_value-IsOfType field v v (rw (e, IsAllowed) at h))
]

-- Every value is of its type.
unfoldable pub HasTypes : List (Text × Field) → Metadata → Metadata → Type 0
HasTypes fields previous value =
    (id : Text) (v : Value) → get id value ≡ some v → IsTyped fields previous id v

-- Where `validateProjectMetadata` accepts an input, each value that it stores under a name with a field
-- is of the field's type. A boolean is true or false, and a number is finite. A text is trimmed, not
-- empty, and at most as long as the field's limit, or 2,000 characters where the field states none. A
-- choice is trimmed, not empty, and one of the field's options. A date has the form dddd-dd-dd and is a
-- day of the Gregorian calendar. Tags are at least one and at most as many as the field's limit, or 32,
-- and each is trimmed, not empty and at most as long as the field's limit for one, or 64 characters. A
-- limit that is not a whole number admits the sizes up to it, and NaN all. A value under a name without
-- a field is the one stored under it before, in metadata that has each name once. Where required fields
-- are enforced, each of them has a value, but for those with the name of a property that every object
-- inherits.
pub validate_project_metadata-HasTypes :
    (fields : List Field) (input previous value : Metadata) (enforce_required : Bool)
    → IsUnique previous
    → validate_project_metadata fields input previous enforce_required ≡ ok value
    → HasTypes (field_map fields []) previous value
      × (enforce_required ≡ true → HasRequired fields value)
unfolding HasTypes HasAllowed
validate_project_metadata-HasTypes fields input previous value enforce u e =
    let (allowed, full) =
      validate_project_metadata-HasAllowed fields input previous value enforce u e in
    ((λ id v h. IsAllowed-IsTyped (field_map fields []) previous id v (allowed id v h)), full)
