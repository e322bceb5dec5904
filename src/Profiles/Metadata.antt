-- ===== src/Profiles/Metadata.antt =====
-- `validateProjectMetadata` of src/features/projects/project-profile.ts.
use coredot_editor.Prelude.{
  ℕ, Bool, true, false, not, ◌&&◌, ◌||◌, List, [], ◌∷◌, Option, none, some, Text, Text-discrete,
  get, insert, text_key, or_else, if◌then◌else◌, holds, ltb, ◌==◌, length, any, is_some, codes,
}
use coredot_editor.Prelude.Result.{Result, ok, err}
use coredot_editor.Profiles.Texts.{trim, is_empty, is_calendar_date}
use coredot_editor.Profiles.Data.{
  Cap, exactly, below_zero, fraction, nan, infinite, FieldType, boolean, date, number, select, tags,
  text, Field, Item, word, other, Value, null, truth, finite, infinity, string, array, Metadata,
  Reason, invalid_length, invalid_option, invalid_type, required, unknown_field,
}
use coredot_editor.Profiles.Defining.{member, max_tag_count, max_tag_length, max_text_length}

-- `n > limit`
abbrev pub exceeds : ℕ → Cap → Bool
exceeds n (exactly m) = ltb m n
exceeds n below_zero = true
exceeds n (fraction m) = ltb m n
exceeds n nan = false
exceeds n infinite = false

-- getProjectMetadataFieldLimits
abbrev pub max_length_of : Field → Cap
max_length_of field = or_else field.max_length (exactly max_text_length)

abbrev pub max_items_of : Field → Cap
max_items_of field = or_else field.max_items (exactly max_tag_count)

abbrev pub item_max_length_of : Field → Cap
item_max_length_of field = or_else field.item_max_length (exactly max_tag_length)

-- The items of an array, where all are strings.
unfoldable pub words : List Item → Option (List Text)
words [] = some []
words (other n ∷ items) = none
words (word w ∷ items) = elim (words items) [ none ↦ none | some ws ↦ some (w ∷ ws) ]

-- `.map((item) => item.trim()).filter(Boolean)`
unfoldable pub trimmed : List Text → List Text
trimmed [] = []
trimmed (w ∷ ws) = let rest = trimmed ws in if is_empty (trim w) then rest else trim w ∷ rest

abbrev pub items_of : List Text → List Item
items_of [] = []
items_of (w ∷ ws) = word w ∷ items_of ws

-- The value of a field that may be left out.
abbrev pub Normal : Type 0
Normal = Result Reason (Option Value)

unfoldable pub normalize_tags : Field → List Text → Normal
normalize_tags field ws =
    if exceeds (length ws) (max_items_of field)
      || any (λ w. exceeds (length w) (item_max_length_of field)) ws
    then err invalid_length
    else if is_empty ws
    then ok none
    else ok (some (array (items_of ws)))

abbrev pub includes : Option (List Text) → Text → Bool
includes none t = false
includes (some options) t = member t options

-- A text that is trimmed and not empty.
unfoldable pub normalize_text : Field → Text → Normal
normalize_text field t = elim field.type [
  | text ↦
      if exceeds (length t) (max_length_of field) then err invalid_length else ok (some (string t))
  | date ↦ if is_calendar_date t then ok (some (string t)) else err invalid_type
  | select ↦ if includes field.options t then ok (some (string t)) else err invalid_option
  | _ ↦ ok (some (string t))
]

abbrev pub normalize_boolean : Value → Normal
normalize_boolean (truth b) = ok (some (truth b))
normalize_boolean _ = err invalid_type

abbrev pub normalize_number : Value → Normal
normalize_number (finite n) = ok (some (finite n))
normalize_number _ = err invalid_type

abbrev pub normalize_array : Field → Value → Normal
normalize_array field (array items) = elim (words items) [
  | none ↦ err invalid_type
  | some ws ↦ normalize_tags field (trimmed ws)
]
normalize_array field _ = err invalid_type

abbrev pub normalize_string : Field → Value → Normal
normalize_string field (string s) =
    if is_empty (trim s) then ok none else normalize_text field (trim s)
normalize_string field _ = err invalid_type

abbrev pub is_blank : Value → Bool
is_blank null = true
is_blank (string []) = true
is_blank _ = false

abbrev pub normalize_as : FieldType → Field → Value → Normal
normalize_as boolean field candidate = normalize_boolean candidate
normalize_as number field candidate = normalize_number candidate
normalize_as tags field candidate = normalize_array field candidate
normalize_as date field candidate = normalize_string field candidate
normalize_as select field candidate = normalize_string field candidate
normalize_as text field candidate = normalize_string field candidate

-- normalizeFieldValue
unfoldable pub normalize_field_value : Field → Value → Normal
normalize_field_value field candidate =
    if is_blank candidate then ok none else normalize_as field.type field candidate

abbrev pub item_equal : Item → Item → Bool
item_equal (word v) (word w) = holds (Text-discrete v w)
item_equal (other m) (other n) = m == n
item_equal _ _ = false

unfoldable pub items_equal : List Item → List Item → Bool
items_equal [] [] = true
items_equal (x ∷ xs) (y ∷ ys) = item_equal x y && items_equal xs ys
items_equal _ _ = false

abbrev pub bool_equal : Bool → Bool → Bool
bool_equal true b = b
bool_equal false b = not b

-- metadataValuesEqual, of a value that is there
unfoldable pub metadata_values_equal : Value → Value → Bool
metadata_values_equal null null = true
metadata_values_equal (truth a) (truth b) = bool_equal a b
metadata_values_equal (finite m) (finite n) = m == n
metadata_values_equal (infinity a) (infinity b) = bool_equal a b
metadata_values_equal (string s) (string t) = holds (Text-discrete s t)
metadata_values_equal (array xs) (array ys) = items_equal xs ys
metadata_values_equal _ _ = false

-- new Map(fields.map((field) => [field.id, field]))
unfoldable pub field_map : List Field → List (Text × Field) → List (Text × Field)
field_map [] m = m
field_map (field ∷ fields) m = field_map fields (insert field.id field m)

-- The values of before under names that the profile has no field for.
unfoldable pub keep_legacy : List (Text × Field) → Metadata → Metadata → Metadata
keep_legacy fields [] value = value
keep_legacy fields ((id, legacy) ∷ previous) value =
    let kept = keep_legacy fields previous (insert id legacy value) in
    let left = keep_legacy fields previous value in if is_some (get id fields) then left else kept

-- The properties that every object inherits from `Object.prototype`.
abbrev pub inherited : List Text
inherited =
    codes "constructor"
    ∷ codes "__defineGetter__"
    ∷ codes "__defineSetter__"
    ∷ codes "hasOwnProperty"
    ∷ codes "__lookupGetter__"
    ∷ codes "__lookupSetter__"
    ∷ codes "isPrototypeOf"
    ∷ codes "propertyIsEnumerable"
    ∷ codes "toString"
    ∷ codes "valueOf"
    ∷ codes "__proto__"
    ∷ codes "toLocaleString"
    ∷ []

unfoldable pub is_inherited : Text → Bool
is_inherited id = member id inherited

-- `previous[id]`: a value of its own, or an inherited one, which no value of JSON equals.
pub data Property : Type 0 where
  own : Value → Property
  from_prototype absent : Property

unfoldable pub property : Metadata → Text → Property
property m id = elim (get id m) [
  | some v ↦ own v
  | none ↦ if is_inherited id then from_prototype else absent
]

-- One entry of the input: the value after it, or what is wrong with the entry.
unfoldable pub accept_entry :
    List (Text × Field) → Metadata → Text → Value → Metadata → Result (Text × Reason) Metadata
accept_entry fields previous id candidate value = elim (get id fields) [
  | none ↦ elim (property previous id) [
    | absent ↦ err (id, unknown_field)
    | from_prototype ↦ err (id, unknown_field)
    | own before ↦
        if metadata_values_equal before candidate
        then ok (insert id before value)
        else err (id, unknown_field)
  ]
  | some field ↦ elim (normalize_field_value field candidate) [
    | err reason ↦ err (id, reason)
    | ok none ↦ ok value
    | ok (some normal) ↦ ok (insert id normal value)
  ]
]

unfoldable pub accept_entries :
    List (Text × Field) → Metadata → Metadata → Metadata → Result (Text × Reason) Metadata
accept_entries fields previous [] value = ok value
accept_entries fields previous ((id, candidate) ∷ input) value =
    elim (accept_entry fields previous id candidate value) [
      | err violation ↦ err violation
      | ok next ↦ accept_entries fields previous input next
    ]

-- `value[id] !== undefined`
abbrev pub has_property : Metadata → Text → Bool
has_property m id = is_some (get id m) || is_inherited id

-- The first required field without a value.
unfoldable pub missing : List Field → Metadata → Option Text
missing [] value = none
missing (field ∷ fields) value =
    let rest = missing fields value in
    if field.required && not (has_property value field.id) then some field.id else rest

-- validateProjectMetadata
unfoldable pub validate_project_metadata :
    List Field → Metadata → Metadata → Bool → Result (Text × Reason) Metadata
validate_project_metadata fields input previous enforce_required =
    elim (accept_entries (field_map fields []) previous input
      (keep_legacy (field_map fields []) previous [])) [
        | err violation ↦ err violation
        | ok value ↦ elim (missing fields value) [
          | none ↦ ok value
          | some id ↦ if enforce_required then err (id, required) else ok value
        ]
      ]
