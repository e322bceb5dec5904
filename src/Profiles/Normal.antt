-- ===== src/Profiles/Normal.antt =====
-- Values that `normalizeFieldValue` of src/features/projects/project-profile.ts gives.
use coredot_editor.Prelude.{
  ◌≡◌, ◌≢◌, refl, false, List, [], ◌∷◌, none, some, Text, arith, inl, inr, Bool-cases, Option-cases,
}
use coredot_editor.Prelude.Result.{ok, err}
use coredot_editor.Profiles.Texts.{trim, is_empty}
use coredot_editor.Profiles.Data.{
  FieldType, boolean, date, number, select, tags, text, Field, Value, null, not_a_number, truth,
  finite, infinity, string, array, Reason,
}
use coredot_editor.Profiles.Metadata.{
  words, trimmed, items_of, Normal, normalize_tags, normalize_text, normalize_boolean,
  normalize_number, normalize_array, normalize_string, normalize_as, normalize_field_value,
  is_blank,
}
use coredot_editor.Profiles.Trimming.{trim-trim, trimmed-trimmed}

words-items_of : (ws : List Text) → words (items_of ws) ≡ some ws
unfolding words
words-items_of [] = refl
words-items_of (w ∷ ws) = rw (words-items_of ws) refl

pub refused : {r : Reason} {v : Value} → ◌≢◌ {A = Normal} (err r) (ok (some v))
refused e = cc

pub emptied : {v : Value} → ◌≢◌ {A = Normal} (ok none) (ok (some v))
emptied e = cc

pub normalize_text_eq :
    (field : Field) (t : Text) (v : Value) → normalize_text field t ≡ ok (some v) → v ≡ string t
unfolding normalize_text
normalize_text_eq field t v e = ground arith

pub normalize_tags_eq :
    (field : Field) (ws : List Text) (v : Value)
    → normalize_tags field ws ≡ ok (some v)
    → (v ≡ array (items_of ws)) × (is_empty ws ≡ false)
unfolding normalize_tags
normalize_tags_eq field ws v e = ground arith

-- A value that the rule of its field keeps as it is.
abbrev pub IsFixed : FieldType → Field → Value → Type 0
IsFixed kind field v = (is_blank v ≡ false) × (normalize_as kind field v ≡ ok (some v))

not_blank : (t : Text) → is_empty t ≡ false → is_blank (string t) ≡ false
not_blank [] e = cc
not_blank (c ∷ t) e = refl

string-IsFixed :
    (field : Field) (c v : Value)
    → normalize_string field c ≡ ok (some v)
    → (is_blank v ≡ false) × (normalize_string field v ≡ ok (some v))
string-IsFixed field (string s) v e = elim (Bool-cases (is_empty (trim s))) [
  | inl k ↦ cc
  | inr k ↦
      let h : normalize_text field (trim s) ≡ ok (some v) = rw k at e in
      let same : v ≡ string (trim s) = normalize_text_eq field (trim s) v h in
      let h' : normalize_text field (trim s) ≡ ok (some (string (trim s))) = rw same at h in
      rw same (not_blank (trim s) k, rw (trim-trim s, k) h')
]
string-IsFixed field null v e = cc
string-IsFixed field not_a_number v e = cc
string-IsFixed field (truth b) v e = cc
string-IsFixed field (finite b) v e = cc
string-IsFixed field (infinity b) v e = cc
string-IsFixed field (array b) v e = cc

array-IsFixed :
    (field : Field) (c v : Value)
    → normalize_array field c ≡ ok (some v)
    → (is_blank v ≡ false) × (normalize_array field v ≡ ok (some v))
array-IsFixed field (array items) v e = elim (Option-cases (words items)) [
  | inl k ↦ absurd (refused (rw (k, normalize_array) at e))
  | inr (ws, k) ↦
      let h : normalize_tags field (trimmed ws) ≡ ok (some v) = rw (k, normalize_array) at e in
      let same : v ≡ array (items_of (trimmed ws)) = (normalize_tags_eq field (trimmed ws) v h).0 in
      let h' : normalize_tags field (trimmed ws) ≡ ok (some (array (items_of (trimmed ws)))) =
        rw same at h in
      rw same (refl, rw (words-items_of (trimmed ws), normalize_array) (rw (trimmed-trimmed ws) h'))
]
array-IsFixed field null v e = cc
array-IsFixed field not_a_number v e = cc
array-IsFixed field (truth b) v e = cc
array-IsFixed field (finite b) v e = cc
array-IsFixed field (infinity b) v e = cc
array-IsFixed field (string b) v e = cc

truth-IsFixed :
    (c v : Value)
    → normalize_boolean c ≡ ok (some v)
    → (is_blank v ≡ false) × (normalize_boolean v ≡ ok (some v))
truth-IsFixed c v e = ground arith

finite-IsFixed :
    (c v : Value)
    → normalize_number c ≡ ok (some v)
    → (is_blank v ≡ false) × (normalize_number v ≡ ok (some v))
finite-IsFixed c v e = ground arith

kind-IsFixed :
    (kind : FieldType) (field : Field) (c v : Value)
    → normalize_as kind field c ≡ ok (some v)
    → IsFixed kind field v
kind-IsFixed boolean field c v e = truth-IsFixed c v e
kind-IsFixed number field c v e = finite-IsFixed c v e
kind-IsFixed tags field c v e = array-IsFixed field c v e
kind-IsFixed date field c v e = string-IsFixed field c v e
kind-IsFixed select field c v e = string-IsFixed field c v e
kind-IsFixed text field c v e = string-IsFixed field c v e

-- A value that a field's rule gives, trimmed and within the limits as it is, is given again unchanged
-- when it is normalized once more.
pub normalize_field_value_again :
    (field : Field) (candidate v : Value)
    → normalize_field_value field candidate ≡ ok (some v)
    → normalize_field_value field v ≡ ok (some v)
unfolding normalize_field_value
normalize_field_value_again field candidate v e = elim (Bool-cases (is_blank candidate)) [
  | inl k ↦ absurd (emptied (rw k at e))
  | inr k ↦
      let (there, again) = kind-IsFixed field.type field candidate v (rw k at e) in rw there again
]
