-- ===== src/Profiles/Resubmission.antt =====
-- `validateProjectMetadata` of src/features/projects/project-profile.ts on metadata that it accepted
-- before: what a client that saves a document again sends.
use coredot_editor.Prelude.{
  ◌≡◌, ◌≢◌, refl, sym, ap, ◌∙◌, subst, ◌⊎◌, inl, inr, Bool, true, false, List, [], ◌∷◌, none, some,
  Text, Text-discrete, get, insert, text_key, arith, Bool-cases, Option-cases, is_some,
  get-insert_ne, get-insert-some, IsUnique, if_neg, holds,
}
use coredot_editor.Prelude.Result.{ok}
use coredot_editor.Profiles.Data.{
  Field, Item, word, other, Value, not_a_number, null, truth, finite, infinity, string, array,
  Metadata,
}
use coredot_editor.Profiles.Metadata.{
  normalize_field_value, item_equal, items_equal, bool_equal, metadata_values_equal, field_map,
  keep_legacy, accept_entry, accept_entries, missing, validate_project_metadata, property,
}
use coredot_editor.Profiles.Accepted.{
  IsAllowed, HasAllowed, IsAccepted, AllIn, IsUnique-AllIn, some_none,
  validate_project_metadata_inv, validate_project_metadata-IsAccepted,
}

item_equal_refl : (x : Item) → item_equal x x ≡ true
unfolding Text-discrete
item_equal_refl (word w) = ground arith
item_equal_refl (other n) = ground arith

items_equal_refl : (xs : List Item) → items_equal xs xs ≡ true
unfolding items_equal
items_equal_refl [] = refl
items_equal_refl (x ∷ xs) = rw (item_equal_refl x) (items_equal_refl xs)

bool_equal_refl : (b : Bool) → bool_equal b b ≡ true
bool_equal_refl true = refl
bool_equal_refl false = refl

text_equal_refl : (t : Text) → holds (Text-discrete t t) ≡ true
text_equal_refl t = ground arith

metadata_values_equal_refl : (v : Value) → v ≢ not_a_number → metadata_values_equal v v ≡ true
unfolding metadata_values_equal
metadata_values_equal_refl null h = refl
metadata_values_equal_refl not_a_number h = absurd (h refl)
metadata_values_equal_refl (truth b) h = bool_equal_refl b
metadata_values_equal_refl (finite n) h = ground arith
metadata_values_equal_refl (infinity b) h = bool_equal_refl b
metadata_values_equal_refl (string t) h = text_equal_refl t
metadata_values_equal_refl (array xs) h = items_equal_refl xs

-- The entries of `part` written one after the other.
insert_all : Metadata → Metadata → Metadata
insert_all [] value = value
insert_all ((id, v) ∷ part) value = insert_all part (insert id v value)

-- No value is NaN, as none of a JSON text is.
unfoldable pub HasNumbers : Metadata → Type 0
HasNumbers m = (id : Text) → get id m ≢ some not_a_number

accept_entry_again :
    (fields : List (Text × Field)) (previous whole : Metadata) (id : Text) (c : Value)
    (value : Metadata)
    → IsAllowed fields previous id c
    → get id whole ≡ some c
    → c ≢ not_a_number
    → accept_entry fields whole id c value ≡ ok (insert id c value)
unfolding accept_entry property IsAllowed
accept_entry_again fields previous whole id c value allowed here real =
    elim (Option-cases (get id fields)) [
      | inl k ↦ rw (k, here, metadata_values_equal_refl c real, accept_entry, property) refl
      | inr (field, k) ↦
          let same : normalize_field_value field c ≡ ok (some c) = rw (k, IsAllowed) at allowed in
          rw (k, same, accept_entry) refl
    ]

accept_entries_again :
    (fields : List (Text × Field)) (previous whole part value : Metadata)
    → HasAllowed fields previous whole
    → HasNumbers whole
    → AllIn whole part
    → accept_entries fields whole part value ≡ ok (insert_all part value)
unfolding accept_entries insert_all AllIn HasAllowed HasNumbers
accept_entries_again fields previous whole [] value kept real known = refl
accept_entries_again fields previous whole ((id, c) ∷ part) value kept real (here, known) =
    let step : accept_entry fields whole id c value ≡ ok (insert id c value) =
      accept_entry_again fields previous whole id c value (kept id c here) here
        (λ e. real id (here ∙ ap some e)) in
    rw (step, accept_entries)
      (accept_entries_again fields previous whole part (insert id c value) kept real known)

insert_all-get :
    (whole part value : Metadata) (id : Text)
    → AllIn whole part
    → (get id value ≡ get id whole) ⊎ (get id part ≢ none)
    → get id (insert_all part value) ≡ get id whole
unfolding insert_all AllIn
insert_all-get whole [] value id known (inl h) = h
insert_all-get whole [] value id known (inr h) = absurd (h refl)
insert_all-get whole ((k, v) ∷ part) value id (here, known) placed =
    insert_all-get whole part (insert k v value) id known (elim (Text-discrete k id) [
      | yes same ↦
          inl
            (get-insert-some k id v value same ∙ sym (subst (λ x. get x whole ≡ some v) same here))
      | no apart ↦ elim placed [
        | inl h ↦ inl (get-insert_ne k id v value apart ∙ h)
        | inr h ↦ inr (λ e. h (if_neg (Text-discrete k id) apart (some v) (get id part) ∙ e))
      ]
    ])

-- A value that comes from the whole metadata.
AgreesWith : Metadata → Metadata → Type 0
AgreesWith whole value = (id : Text) → (get id value ≡ none) ⊎ (get id value ≡ get id whole)

keep_legacy-AgreesWith :
    (fields : List (Text × Field)) (whole part value : Metadata)
    → AllIn whole part
    → AgreesWith whole value
    → AgreesWith whole (keep_legacy fields part value)
unfolding keep_legacy AllIn AgreesWith
keep_legacy-AgreesWith fields whole [] value known agrees = agrees
keep_legacy-AgreesWith fields whole ((id, v) ∷ part) value (here, known) agrees =
    elim (Bool-cases (is_some (get id fields))) [
      | inl e ↦ rw e (keep_legacy-AgreesWith fields whole part value known agrees)
      | inr e ↦ rw e (
          keep_legacy-AgreesWith fields whole part (insert id v value) known (λ k.
            elim (Text-discrete id k) [
              | yes same ↦ inr (
                  get-insert-some id k v value same
                  ∙ sym (subst (λ x. get x whole ≡ some v) same here))
              | no apart ↦
                  subst (λ x. (x ≡ none) ⊎ (x ≡ get k whole))
                    (sym (get-insert_ne id k v value apart)) (agrees k)
            ]))
    ]

pub missing-get :
    (fields : List Field) (a b : Metadata)
    → ((id : Text) → get id a ≡ get id b)
    → missing fields a ≡ missing fields b
unfolding missing
missing-get [] a b same = refl
missing-get (field ∷ fields) a b same = rw (same field.id, missing-get fields a b same) refl

pub accepted_again :
    (fields : List Field) (previous value : Metadata) (enforce_required : Bool)
    → IsAccepted (field_map fields []) previous value
    → HasNumbers value
    → (missing fields value ≡ none) ⊎ (enforce_required ≡ false)
    → (next : Metadata) × (validate_project_metadata fields value value enforce_required ≡ ok next)
      × ((id : Text) → get id next ≡ get id value)
unfolding validate_project_metadata IsAccepted AgreesWith
accepted_again fields previous value enforce (unique, kept) real whole =
    let m : List (Text × Field) = field_map fields [] in
    let known : AllIn value value = IsUnique-AllIn value unique in
    let start : Metadata = keep_legacy m value [] in
    let next : Metadata = insert_all value start in
    let run : accept_entries m value value start ≡ ok next =
      accept_entries_again m previous value value start kept real known in
    let agrees : AgreesWith value start =
      keep_legacy-AgreesWith m value value [] known (λ id. inl refl) in
    let same : (id : Text) → get id next ≡ get id value = λ id.
      insert_all-get value value start id known (elim (Option-cases (get id value)) [
        | inl none_there ↦ elim (agrees id) [ inl h ↦ inl (h ∙ sym none_there) | inr h ↦ inl h ]
        | inr (v, there) ↦ inr (λ h. some_none (sym there ∙ h))
      ]) in
    (
      next,
      elim whole [
        | inl full ↦
            rw (run, missing-get fields next value same, full, validate_project_metadata) refl
        | inr lax ↦ elim (Option-cases (missing fields next)) [
          | inl k ↦ rw (run, k, validate_project_metadata) refl
          | inr (id, k) ↦ rw (run, k, lax, validate_project_metadata) refl
        ]
      ],
      same,
    )

-- The metadata that a save stores can be sent back as it is: it is accepted again, under the same
-- profile and the same demand for required fields, and each name has the same value after it. The
-- names of the metadata before are distinct, and no stored value is NaN.
pub validate_project_metadata_again :
    (fields : List Field) (input previous value : Metadata) (enforce_required : Bool)
    → IsUnique previous
    → HasNumbers value
    → validate_project_metadata fields input previous enforce_required ≡ ok value
    → (next : Metadata) × (validate_project_metadata fields value value enforce_required ≡ ok next)
      × ((id : Text) → get id next ≡ get id value)
validate_project_metadata_again fields input previous value enforce u real e =
    accepted_again fields previous value enforce
      (validate_project_metadata-IsAccepted fields input previous value enforce u e) real
      (validate_project_metadata_inv fields input previous value enforce e).1
