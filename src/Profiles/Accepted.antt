-- ===== src/Profiles/Accepted.antt =====
-- Metadata that `validateProjectMetadata` of src/features/projects/project-profile.ts accepts.
use coredot_editor.Prelude.{
  ◌≡◌, ◌≢◌, refl, sym, ap, ◌∙◌, subst, ◌⊎◌, inl, inr, Bool, true, false, List, [], ◌∷◌, Option,
  none, some, Text, Text-discrete, get, insert, text_key, arith, Bool-cases, Option-cases, is_some,
  get-insert_ne, get-insert-some, IsUnique, insert-IsUnique, if_pos, if_neg,
}
use coredot_editor.Prelude.Result.{Result, ok, err, Result-cases}
use coredot_editor.Profiles.Data.{Field, Value, Metadata, Reason}
use coredot_editor.Profiles.Metadata.{
  normalize_field_value, metadata_values_equal, field_map, keep_legacy, accept_entry,
  accept_entries, missing, validate_project_metadata, property, is_inherited,
}
use coredot_editor.Profiles.Normal.{normalize_field_value_again}

-- A value that may stand under a name: one that the field of the name gives unchanged, or for a name
-- without a field the value of before.
unfoldable pub IsAllowed : List (Text × Field) → Metadata → Text → Value → Type 0
IsAllowed fields previous id v = elim (get id fields) [
  | none ↦ get id previous ≡ some v
  | some field ↦ normalize_field_value field v ≡ ok (some v)
]

-- Every value is allowed under its name.
unfoldable pub HasAllowed : List (Text × Field) → Metadata → Metadata → Type 0
HasAllowed fields previous value =
    (id : Text) (v : Value) → get id value ≡ some v → IsAllowed fields previous id v

pub some-eq : {v w : Value} → some v ≡ some w → v ≡ w
some-eq e = cc

pub ok-eq : {a b : Metadata} → ◌≡◌ {A = Result (Text × Reason) Metadata} (ok a) (ok b) → a ≡ b
ok-eq e = cc

pub failed :
    {x : Text × Reason} {b : Metadata} → ◌≢◌ {A = Result (Text × Reason) Metadata} (err x) (ok b)
failed e = cc

true-false : true ≢ false
true-false e = cc

pub insert-HasAllowed :
    (fields : List (Text × Field)) (previous value : Metadata) (id : Text) (v : Value)
    → IsAllowed fields previous id v
    → HasAllowed fields previous value
    → HasAllowed fields previous (insert id v value)
unfolding HasAllowed
insert-HasAllowed fields previous value id v allowed kept k w e = elim (Text-discrete id k) [
  | yes same ↦
      let there : v ≡ w = some-eq (sym (get-insert-some id k v value same) ∙ e) in
      subst (λ x. IsAllowed fields previous k x) there
        (subst (λ x. IsAllowed fields previous x v) same allowed)
  | no apart ↦ kept k w (sym (get-insert_ne id k v value apart) ∙ e)
]

-- The entries of a list are those that the whole metadata has.
unfoldable pub AllIn : Metadata → Metadata → Type 0
AllIn whole [] = Unit
AllIn whole ((id, v) ∷ part) = (get id whole ≡ some v) × AllIn whole part

pub some_none : {v : Value} → ◌≢◌ {A = Option Value} (some v) none
some_none e = cc

AllIn-cons :
    (id : Text) (v : Value) (whole part : Metadata)
    → get id whole ≡ none
    → AllIn whole part
    → AllIn ((id, v) ∷ whole) part
unfolding AllIn
AllIn-cons id v whole [] fresh h = tt
AllIn-cons id v whole ((k, w) ∷ part) fresh (here, h) = (
  elim (Text-discrete id k) [
    | yes same ↦ absurd (some_none (sym here ∙ subst (λ x. get x whole ≡ none) same fresh))
    | no apart ↦ if_neg (Text-discrete id k) apart (some v) (get k whole) ∙ here
  ],
  AllIn-cons id v whole part fresh h,
)

pub IsUnique-AllIn : (m : Metadata) → IsUnique m → AllIn m m
unfolding AllIn
IsUnique-AllIn [] u = tt
IsUnique-AllIn ((id, v) ∷ m) (fresh, u) = (
  if_pos (Text-discrete id id) refl (some v) (get id m),
  AllIn-cons id v m m fresh (IsUnique-AllIn m u),
)

pub keep_legacy-HasAllowed :
    (fields : List (Text × Field)) (whole previous value : Metadata)
    → AllIn whole previous
    → HasAllowed fields whole value
    → HasAllowed fields whole (keep_legacy fields previous value)
unfolding keep_legacy AllIn IsAllowed
keep_legacy-HasAllowed fields whole [] value known kept = kept
keep_legacy-HasAllowed fields whole ((id, v) ∷ previous) value (here, known) kept =
    elim (Option-cases (get id fields)) [
      | inr (field, e) ↦ rw e (keep_legacy-HasAllowed fields whole previous value known kept)
      | inl e ↦
          let allowed : IsAllowed fields whole id v = rw (e, IsAllowed) here in
          rw e (
            keep_legacy-HasAllowed fields whole previous (insert id v value) known
              (insert-HasAllowed fields whole value id v allowed kept))
    ]

pub keep_legacy-IsUnique :
    (fields : List (Text × Field)) (previous value : Metadata)
    → IsUnique value
    → IsUnique (keep_legacy fields previous value)
unfolding keep_legacy
keep_legacy-IsUnique fields [] value u = u
keep_legacy-IsUnique fields ((id, v) ∷ previous) value u =
    elim (Bool-cases (is_some (get id fields))) [
      | inl e ↦ rw e (keep_legacy-IsUnique fields previous value u)
      | inr e ↦
          rw e (
            keep_legacy-IsUnique fields previous (insert id v value) (insert-IsUnique id v value u))
    ]

-- What an entry that is accepted does to the value: nothing, or a write of an allowed value.
accept_entry_inv :
    (fields : List (Text × Field)) (previous : Metadata) (id : Text) (c : Value)
    (value next : Metadata)
    → accept_entry fields previous id c value ≡ ok next
    → (next ≡ value) ⊎ ((v : Value) × (next ≡ insert id v value) × IsAllowed fields previous id v)
unfolding accept_entry property IsAllowed
accept_entry_inv fields previous id c value next e = elim (Option-cases (get id fields)) [
  | inl k ↦ elim (Option-cases (get id previous)) [
    | inl k' ↦ elim (Bool-cases (is_inherited id)) [
      | inl own_of ↦ absurd (failed (rw (k, k', own_of, accept_entry, property) at e))
      | inr own_of ↦ absurd (failed (rw (k, k', own_of, accept_entry, property) at e))
    ]
    | inr (before, k') ↦ elim (Bool-cases (metadata_values_equal before c)) [
      | inl same ↦ inr (
        before,
        sym (ok-eq (rw (k, k', same, accept_entry, property) at e)),
        rw (k, IsAllowed) k',
      )
      | inr other ↦ absurd (failed (rw (k, k', other, accept_entry, property) at e))
    ]
  ]
  | inr (field, k) ↦ elim (Result-cases (normalize_field_value field c)) [
    | inl (reason, k') ↦ absurd (failed (rw (k, k', accept_entry) at e))
    | inr (none, k') ↦ inl (sym (ok-eq (rw (k, k', accept_entry) at e)))
    | inr (some v, k') ↦ inr (
      v,
      sym (ok-eq (rw (k, k', accept_entry) at e)),
      rw (k, IsAllowed) (normalize_field_value_again field c v k'),
    )
  ]
]

-- The metadata so far: each name once, and each value allowed.
unfoldable pub IsAccepted : List (Text × Field) → Metadata → Metadata → Type 0
IsAccepted fields previous value = IsUnique value × HasAllowed fields previous value

accept_entries-IsAccepted :
    (fields : List (Text × Field)) (previous input value next : Metadata)
    → accept_entries fields previous input value ≡ ok next
    → IsAccepted fields previous value
    → IsAccepted fields previous next
unfolding accept_entries IsAccepted
accept_entries-IsAccepted fields previous [] value next e kept =
    subst (IsAccepted fields previous) (ok-eq e) kept
accept_entries-IsAccepted fields previous ((id, c) ∷ input) value next e kept =
    elim (Result-cases (accept_entry fields previous id c value)) [
      | inl (violation, k) ↦ absurd (failed (rw (k, accept_entries) at e))
      | inr (m, k) ↦
          accept_entries-IsAccepted fields previous input m next (rw (k, accept_entries) at e)
            (elim (accept_entry_inv fields previous id c value m k) [
              | inl same ↦ subst (IsAccepted fields previous) (sym same) kept
              | inr (v, same, allowed) ↦ subst (IsAccepted fields previous) (sym same) (
                insert-IsUnique id v value kept.0,
                insert-HasAllowed fields previous value id v allowed kept.1,
              )
            ])
    ]

-- Each required field has a value, or the name of a property that every object inherits.
unfoldable pub HasRequired : List Field → Metadata → Type 0
HasRequired [] value = Unit
HasRequired (field ∷ fields) value =
    (field.required ≡ true → (is_some (get field.id value) ≡ true) ⊎ (is_inherited field.id ≡ true))
    × HasRequired fields value

missing-HasRequired :
    (fields : List Field) (value : Metadata)
    → missing fields value ≡ none
    → HasRequired fields value
unfolding missing HasRequired
missing-HasRequired [] value e = tt
missing-HasRequired (field ∷ fields) value e = ground (arith, missing-HasRequired fields value)

-- What `validateProjectMetadata` has done where it accepts.
pub validate_project_metadata_inv :
    (fields : List Field) (input previous value : Metadata) (enforce_required : Bool)
    → validate_project_metadata fields input previous enforce_required ≡ ok value
    → (accept_entries
          (field_map fields [])
          previous
          input
          (keep_legacy (field_map fields []) previous [])
        ≡ ok value)
      × ((missing fields value ≡ none) ⊎ (enforce_required ≡ false))
unfolding validate_project_metadata
validate_project_metadata_inv fields input previous value enforce e =
    elim (Result-cases (
      accept_entries (field_map fields []) previous input
        (keep_legacy (field_map fields []) previous []))) [
          | inl (violation, k) ↦ absurd (failed (rw (k, validate_project_metadata) at e))
          | inr (m, k) ↦ elim (Option-cases (missing fields m)) [
            | inl k' ↦
                let same : m ≡ value = ok-eq (rw (k, k', validate_project_metadata) at e) in
                (k ∙ ap ok same, inl (subst (λ x. missing fields x ≡ none) same k'))
            | inr (id, k') ↦ elim (Bool-cases enforce) [
              | inl t ↦ absurd (failed (rw (k, k', t, validate_project_metadata) at e))
              | inr t ↦
                  let same : m ≡ value = ok-eq (rw (k, k', t, validate_project_metadata) at e) in
                  (k ∙ ap ok same, inr t)
            ]
          ]
        ]

nothing-IsAccepted :
    (fields : List (Text × Field)) (previous : Metadata) → IsAccepted fields previous []
unfolding IsAccepted HasAllowed
nothing-IsAccepted fields previous = (tt, λ id v e. absurd (some_none (sym e)))

pub validate_project_metadata-IsAccepted :
    (fields : List Field) (input previous value : Metadata) (enforce_required : Bool)
    → IsUnique previous
    → validate_project_metadata fields input previous enforce_required ≡ ok value
    → IsAccepted (field_map fields []) previous value
unfolding IsAccepted
validate_project_metadata-IsAccepted fields input previous value enforce u e =
    let m : List (Text × Field) = field_map fields [] in
    accept_entries-IsAccepted m previous input (keep_legacy m previous []) value
      (validate_project_metadata_inv fields input previous value enforce e).0
      (
        keep_legacy-IsUnique m previous [] tt,
        keep_legacy-HasAllowed m previous previous [] (IsUnique-AllIn previous u)
            (nothing-IsAccepted m previous).1,
      )

-- The values of accepted metadata are allowed, and where it is enforced the required ones are there.
pub validate_project_metadata-HasAllowed :
    (fields : List Field) (input previous value : Metadata) (enforce_required : Bool)
    → IsUnique previous
    → validate_project_metadata fields input previous enforce_required ≡ ok value
    → HasAllowed (field_map fields []) previous value
      × (enforce_required ≡ true → HasRequired fields value)
unfolding IsAccepted
validate_project_metadata-HasAllowed fields input previous value enforce u e = (
  (validate_project_metadata-IsAccepted fields input previous value enforce u e).1,
  λ t. elim (validate_project_metadata_inv fields input previous value enforce e).1 [
    | inl h ↦ missing-HasRequired fields value h
    | inr h ↦ absurd (true-false (sym t ∙ h))
  ],
)
