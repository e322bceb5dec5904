-- ===== src/Redline/Sides.antt =====
-- The two texts that the segments of src/features/proposals/redline-diff.ts are read back to.
use coredot_editor.Prelude.{
  text-eq, ℕ, zero, suc, ◌+◌, ◌-◌, ◌≡◌, ◌≤◌, ◌<◌, refl, sym, ap, ◌∙◌, subst, Bool, true, false,
  List, [], ◌∷◌, ◌++◌, Option, none, some, inl, inr, Text, Text-discrete, if◌then◌else◌, holds, ltb,
  ◌==◌, length, get_elem?, take, drop, arith, Bool-cases,
}
use coredot_editor.Redline.{
  SegmentType, deleted, inserted, SegmentType-discrete, RedlineSegment, tokenize, add_unit,
  alternative, join, prefix_length, same_token, suffix_goes_on, suffix_length, push_segment, slice,
  without_empty_text,
}

pub append_nil : (xs : Text) → xs ++ [] ≡ xs
append_nil [] = refl
append_nil (x ∷ xs) = ap (◌∷◌ x) (append_nil xs)

pub append_assoc : (xs ys zs : Text) → (xs ++ ys) ++ zs ≡ xs ++ (ys ++ zs)
append_assoc [] ys zs = refl
append_assoc (x ∷ xs) ys zs = ap (◌∷◌ x) (append_assoc xs ys zs)

join-add_unit : (c : ℕ) (tokens : List Text) → join (add_unit c tokens) ≡ c ∷ join tokens
unfolding add_unit
join-add_unit c [] = refl
join-add_unit c ([] ∷ tokens) = refl
join-add_unit c ((d ∷ token) ∷ tokens) = elim (Bool-cases (alternative c == alternative d)) [
  | inl e ↦ rw e refl
  | inr e ↦ rw e refl
]

-- The tokens of a text are the text.
pub join-tokenize : (text : Text) → join (tokenize text) ≡ text
unfolding tokenize
join-tokenize [] = refl
join-tokenize (c ∷ text) = join-add_unit c (tokenize text) ∙ ap (◌∷◌ c) (join-tokenize text)

-- The text of the segments of some types.
abbrev pub read_side : (SegmentType → Bool) → List RedlineSegment → Text
read_side keeps [] = []
read_side keeps (s ∷ segments) = (if keeps s.kind then s.text else []) ++ read_side keeps segments

abbrev pub in_original : SegmentType → Bool
in_original inserted = false
in_original _ = true

abbrev pub in_replacement : SegmentType → Bool
in_replacement deleted = false
in_replacement _ = true

same_type : (k l : SegmentType) → holds (SegmentType-discrete k l) ≡ true → k ≡ l
same_type k l e = ground arith

merged :
    (keeps : SegmentType → Bool) (seen text : Text) (k l : SegmentType)
    → k ≡ l
    → (if keeps k then seen ++ text else []) ++ []
      ≡ ((if keeps k then seen else []) ++ []) ++ (if keeps l then text else [])
merged keeps seen text k l same =
    subst
      (λ l.
        (if keeps k then seen ++ text else []) ++ []
        ≡ ((if keeps k then seen else []) ++ []) ++ (if keeps l then text else []))
      same
      (elim (Bool-cases (keeps k)) [
        | inl e ↦ rw e (append_nil (seen ++ text) ∙ ap (λ t. t ++ text) (sym (append_nil seen)))
        | inr e ↦ rw e refl
      ])

pub read_side-push_segment :
    (keeps : SegmentType → Bool) (segments : List RedlineSegment) (k : SegmentType) (text : Text)
    → read_side keeps (push_segment segments k text)
      ≡ read_side keeps segments ++ (if keeps k then text else [])
unfolding push_segment
read_side-push_segment keeps [] k text = append_nil (if keeps k then text else [])
read_side-push_segment keeps (s ∷ []) k text =
    let seen : Text = if keeps s.kind then s.text else [] in
    let new : Text = if keeps k then text else [] in
    elim (Bool-cases (holds (SegmentType-discrete s.kind k))) [
      | inl e ↦ rw e (merged keeps s.text text s.kind k (same_type s.kind k e))
      | inr e ↦
          rw e (ap (λ t. seen ++ t) (append_nil new) ∙ ap (λ t. t ++ new) (sym (append_nil seen)))
    ]
read_side-push_segment keeps (s ∷ r ∷ segments) k text =
    let seen : Text = if keeps s.kind then s.text else [] in
    ap (λ t. seen ++ t) (read_side-push_segment keeps (r ∷ segments) k text)
    ∙ sym (append_assoc seen (read_side keeps (r ∷ segments)) (if keeps k then text else []))

empty_part : (b : Bool) (text : Text) → ltb 0 (length text) ≡ false → (if b then text else []) ≡ []
empty_part false text e = refl
empty_part true [] e = refl
empty_part true (c ∷ text) e = ground arith

pub read_side-without_empty_text :
    (keeps : SegmentType → Bool) (segments : List RedlineSegment)
    → read_side keeps (without_empty_text segments) ≡ read_side keeps segments
read_side-without_empty_text keeps [] = refl
read_side-without_empty_text keeps (s ∷ segments) =
    let rest = read_side-without_empty_text keeps segments in
    let seen : Text = if keeps s.kind then s.text else [] in
    elim (Bool-cases (ltb 0 (length s.text))) [
      | inl e ↦ rw e (ap (λ t. seen ++ t) rest)
      | inr e ↦ rw e (
          rest ∙ ap (λ t. t ++ read_side keeps segments) (sym (empty_part (keeps s.kind) s.text e)))
    ]

join-take-drop : (m : ℕ) (xs : List Text) → join (take m xs) ++ join (drop m xs) ≡ join xs
join-take-drop zero xs = refl
join-take-drop (suc m) [] = refl
join-take-drop (suc m) (x ∷ xs) =
    append_assoc x (join (take m xs)) (join (drop m xs)) ∙ ap (λ t. x ++ t) (join-take-drop m xs)

pub join-slice :
    (p m : ℕ) (xs : List Text)
    → p ≤ m
    → join (take p xs) ++ (join (slice p m xs) ++ join (drop m xs)) ≡ join xs
join-slice zero m xs h = join-take-drop m xs
join-slice (suc p) zero xs h = absurd (omega arith)
join-slice (suc p) (suc m) [] h = refl
join-slice (suc p) (suc m) (x ∷ xs) h =
    append_assoc x (join (take p xs)) (join (slice p m xs) ++ join (drop m xs))
    ∙ ap (λ t. x ++ t) (join-slice p m xs (omega arith))

pub take-prefix_length :
    (xs ys : List Text) → take (prefix_length xs ys) xs ≡ take (prefix_length xs ys) ys
unfolding prefix_length
take-prefix_length [] ys = refl
take-prefix_length (x ∷ xs) [] = refl
take-prefix_length (x ∷ xs) (y ∷ ys) = elim (Bool-cases (holds (Text-discrete x y))) [
  | inl e ↦
      let n : ℕ = prefix_length xs ys in
      rw e (ap (λ t. t ∷ take n xs) (text-eq x y e) ∙ ap (◌∷◌ y) (take-prefix_length xs ys))
  | inr e ↦ rw e refl
]

pub prefix_length-le :
    (xs ys : List Text) → (prefix_length xs ys ≤ length xs) × (prefix_length xs ys ≤ length ys)
unfolding prefix_length
prefix_length-le [] ys = (omega arith, omega arith)
prefix_length-le (x ∷ xs) [] = (omega arith, omega arith)
prefix_length-le (x ∷ xs) (y ∷ ys) =
    let (a, b) = prefix_length-le xs ys in (ground arith, ground arith)

drop-get_elem? :
    (i : ℕ) (x : Text) (xs : List Text) → get_elem? xs i ≡ some x → drop i xs ≡ x ∷ drop (suc i) xs
drop-get_elem? i x [] e = cc
drop-get_elem? zero x (y ∷ xs) e = ground arith
drop-get_elem? (suc i) x (y ∷ xs) e = drop-get_elem? i x xs e

some_element : (i : ℕ) (xs : List Text) → i < length xs → (x : Text) × (get_elem? xs i ≡ some x)
some_element i [] h = absurd (omega arith)
some_element zero (x ∷ xs) h = (x, refl)
some_element (suc i) (x ∷ xs) h = some_element i xs (omega arith)

same_token-eq : (a b : Option Text) → same_token a b ≡ true → a ≡ b
same_token-eq none none e = refl
same_token-eq none (some y) e = cc
same_token-eq (some x) none e = cc
same_token-eq (some x) (some y) e = ap some (text-eq x y e)

pub suffix_goes_on_inv :
    (o r : List Text) (p s : ℕ)
    → suffix_goes_on o r p s ≡ true
    → (s < length o - p)
      × (s < length r - p)
      × (same_token (get_elem? o (length o - s - 1)) (get_elem? r (length r - s - 1)) ≡ true)
unfolding suffix_goes_on
suffix_goes_on_inv o r p s e = (ground arith, ground arith, ground arith)

drop_last :
    (xs : List Text) (s : ℕ) (x : Text)
    → s < length xs
    → get_elem? xs (length xs - s - 1) ≡ some x
    → drop (length xs - (s + 1)) xs ≡ x ∷ drop (length xs - s) xs
drop_last xs s x h e =
    let i : length xs - s - 1 ≡ length xs - (s + 1) = omega arith in
    let j : suc (length xs - s - 1) ≡ length xs - s = omega arith in
    subst (λ n. drop n xs ≡ x ∷ drop (length xs - s) xs) i
      (subst (λ n. drop (length xs - s - 1) xs ≡ x ∷ drop n xs) j
        (drop-get_elem? (length xs - s - 1) x xs e))

abbrev pub IsCommon : List Text → List Text → ℕ → ℕ → Type 0
IsCommon o r p s =
    (drop (length o - s) o ≡ drop (length r - s) r) × (s ≤ length o - p) × (s ≤ length r - p)

suffix_step :
    (o r : List Text) (p s : ℕ)
    → suffix_goes_on o r p s ≡ true
    → IsCommon o r p s
    → IsCommon o r p (s + 1)
suffix_step o r p s e (common, a, b) =
    let (in_o, in_r, token) = suffix_goes_on_inv o r p s e in
    let (x, at) = some_element (length o - s - 1) o (omega arith) in
    let same =
      same_token-eq (get_elem? o (length o - s - 1)) (get_elem? r (length r - s - 1)) token in
    (
      drop_last o s x (omega arith) at
          ∙ ap (◌∷◌ x) common
          ∙ sym (drop_last r s x (omega arith) (sym same ∙ at)),
      omega arith,
      omega arith,
    )

pub suffix_length-IsCommon :
    (fuel : ℕ) (o r : List Text) (p s : ℕ)
    → IsCommon o r p s
    → IsCommon o r p (suffix_length fuel o r p s)
unfolding suffix_length
suffix_length-IsCommon zero o r p s h = h
suffix_length-IsCommon (suc fuel) o r p s h = elim (Bool-cases (suffix_goes_on o r p s)) [
  | inl e ↦ rw e (suffix_length-IsCommon fuel o r p (s + 1) (suffix_step o r p s e h))
  | inr e ↦ rw e h
]

drop-length : (xs : List Text) → drop (length xs) xs ≡ []
drop-length [] = refl
drop-length (x ∷ xs) = drop-length xs

pub start-IsCommon : (o r : List Text) (p : ℕ) → IsCommon o r p 0
start-IsCommon o r p =
    let whole : (xs : List Text) → drop (length xs - 0) xs ≡ [] = (λ xs.
      let n : length xs ≡ length xs - 0 = omega arith in
      subst (λ i. drop i xs ≡ []) n (drop-length xs)) in
    (whole o ∙ sym (whole r), omega arith, omega arith)
