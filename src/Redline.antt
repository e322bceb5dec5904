-- ===== src/Redline.antt =====
-- src/features/proposals/redline-diff.ts: the segments that show what a proposal deletes and inserts.
pub mod Sides
pub mod RoundTrip
pub mod Stops
mod Tests
use coredot_editor.Prelude.{
  ℕ, zero, suc, ◌+◌, ◌-◌, Bool, true, false, ◌&&◌, ◌||◌, not, List, [], ◌∷◌, ◌++◌, Option, none,
  some, Text, Text-discrete, if◌then◌else◌, holds, ltb, leb, ◌==◌, length, get_elem?, take, drop,
}

pub data SegmentType : Type 0 where
  equal deleted inserted : SegmentType

unfoldable pub SegmentType-discrete : Discrete SegmentType
SegmentType-discrete = hlevel

-- RedlineSegment
pub record RedlineSegment : Type 0 where
  pub kind : SegmentType
  pub text : Text

abbrev within : ℕ → ℕ → ℕ → Bool
within low high c = leb low c && leb c high

-- `\s`: the white space and the line terminators of ECMAScript.
abbrev pub is_space : ℕ → Bool
is_space c =
    within 9 13 c
    || c == 32
    || c == 160
    || c == 5760
    || within 8192 8202 c
    || c == 8232
    || c == 8233
    || c == 8239
    || c == 8287
    || c == 12288
    || c == 65279

-- `[A-Za-z0-9]`
abbrev pub is_alphanumeric : ℕ → Bool
is_alphanumeric c = within 65 90 c || within 97 122 c || within 48 57 c

-- The alternative of the token pattern that a code unit belongs to.
abbrev pub alternative : ℕ → ℕ
alternative c = if is_space c then 0 else if is_alphanumeric c then 1 else 2

-- A token runs as far as its alternative does.
unfoldable pub add_unit : ℕ → List Text → List Text
add_unit c [] = (c ∷ []) ∷ []
add_unit c ([] ∷ tokens) = (c ∷ []) ∷ tokens
add_unit c ((d ∷ token) ∷ tokens) =
    if alternative c == alternative d
    then (c ∷ d ∷ token) ∷ tokens
    else (c ∷ []) ∷ (d ∷ token) ∷ tokens

-- tokenize
unfoldable pub tokenize : Text → List Text
tokenize [] = []
tokenize (c ∷ text) = add_unit c (tokenize text)

-- `tokens.join("")`
abbrev pub join : List Text → Text
join [] = []
join (token ∷ tokens) = token ++ join tokens

-- The first loop.
unfoldable pub prefix_length : List Text → List Text → ℕ
prefix_length [] ys = 0
prefix_length (x ∷ xs) [] = 0
prefix_length (x ∷ xs) (y ∷ ys) =
    let rest = prefix_length xs ys in if holds (Text-discrete x y) then suc rest else 0

-- `left[i] === right[j]`
abbrev pub same_token : Option Text → Option Text → Bool
same_token none none = true
same_token none (some y) = false
same_token (some x) none = false
same_token (some x) (some y) = holds (Text-discrete x y)

-- The condition of the second loop.
unfoldable pub suffix_goes_on : List Text → List Text → ℕ → ℕ → Bool
suffix_goes_on original replacement prefix suffix =
    ltb suffix (length original - prefix)
    && ltb suffix (length replacement - prefix)
    && same_token (get_elem? original (length original - suffix - 1))
        (get_elem? replacement (length replacement - suffix - 1))

-- The second loop, on fuel.
unfoldable pub suffix_length : ℕ → List Text → List Text → ℕ → ℕ → ℕ
suffix_length zero original replacement prefix suffix = suffix
suffix_length (suc fuel) original replacement prefix suffix =
    let rest = suffix_length fuel original replacement prefix (suffix + 1) in
    if suffix_goes_on original replacement prefix suffix then rest else suffix

-- pushSegment
unfoldable pub push_segment : List RedlineSegment → SegmentType → Text → List RedlineSegment
push_segment [] k text = record { kind = k; text = text } ∷ []
push_segment (s ∷ []) k text =
    if holds (SegmentType-discrete s.kind k)
    then record s { text = s.text ++ text } ∷ []
    else s ∷ record { kind = k; text = text } ∷ []
push_segment (s ∷ r ∷ segments) k text = s ∷ push_segment (r ∷ segments) k text

abbrev pub slice : {A : Type 0} → ℕ → ℕ → List A → List A
slice start end xs = drop start (take end xs)

-- `segments.filter((segment) => segment.text.length > 0)`
abbrev pub without_empty_text : List RedlineSegment → List RedlineSegment
without_empty_text [] = []
without_empty_text (s ∷ segments) =
    if ltb 0 (length s.text) then s ∷ without_empty_text segments else without_empty_text segments

-- The segments of token lists with a common prefix and suffix.
unfoldable pub segments_of : List Text → List Text → ℕ → ℕ → List RedlineSegment
segments_of original replacement p s =
    let pushed = push_segment [] equal (join (take p original)) in
    let pushed =
      push_segment pushed inserted (join (slice p (length replacement - s) replacement)) in
    let pushed = push_segment pushed deleted (join (slice p (length original - s) original)) in
    push_segment pushed equal (join (drop (length original - s) original))

-- createRedlineSegments
unfoldable pub create_redline_segments : Text → Text → List RedlineSegment
create_redline_segments original_text replacement_text =
    if holds (Text-discrete original_text replacement_text)
    then if length original_text == 0
      then []
      else record { kind = equal; text = original_text } ∷ []
    else let original = tokenize original_text in
      let replacement = tokenize replacement_text in
      let p = prefix_length original replacement in
      let s = suffix_length (length original) original replacement p 0 in
      without_empty_text (segments_of original replacement p s)
