-- ===== src/Redline/RoundTrip.antt =====
-- The segments of src/features/proposals/redline-diff.ts, read back.
use coredot_editor.Prelude.{
  text-eq, ℕ, ◌-◌, ◌≡◌, ◌≤◌, refl, ap, ◌∙◌, Bool, true, List, [], ◌∷◌, ◌++◌, inl, inr, Text,
  Text-discrete, if◌then◌else◌, holds, ◌==◌, length, take, drop, arith, Bool-cases,
}
use coredot_editor.Redline.{
  SegmentType, equal, deleted, inserted, RedlineSegment, tokenize, join, prefix_length,
  suffix_length, push_segment, slice, segments_of, create_redline_segments,
}
use coredot_editor.Redline.Sides.{
  append_nil, append_assoc, join-tokenize, read_side, in_original, in_replacement,
  read_side-push_segment, read_side-without_empty_text, join-slice, take-prefix_length,
  prefix_length-le, IsCommon, suffix_length-IsCommon, start-IsCommon,
}

read_side-segments_of :
    (keeps : SegmentType → Bool) (o r : List Text) (p s : ℕ)
    → read_side keeps (segments_of o r p s)
      ≡ (((if keeps equal then join (take p o) else [])
            ++ (if keeps inserted then join (slice p (length r - s) r) else []))
          ++ (if keeps deleted then join (slice p (length o - s) o) else []))
        ++ (if keeps equal then join (drop (length o - s) o) else [])
unfolding segments_of
read_side-segments_of keeps o r p s =
    let a : Text = join (take p o) in
    let b : Text = join (slice p (length r - s) r) in
    let c : Text = join (slice p (length o - s) o) in
    let d : Text = join (drop (length o - s) o) in
    let one : List RedlineSegment = push_segment [] equal a in
    let two : List RedlineSegment = push_segment one inserted b in
    let three : List RedlineSegment = push_segment two deleted c in
    rw
      (
        read_side-push_segment keeps three equal d,
        read_side-push_segment keeps two deleted c,
        read_side-push_segment keeps one inserted b,
        read_side-push_segment keeps [] equal a,
      )
      refl

segments_of-original :
    (o r : List Text) (p s : ℕ)
    → p ≤ length o
    → IsCommon o r p s
    → read_side in_original (segments_of o r p s) ≡ join o
segments_of-original o r p s h (common, a, b) =
    let first : Text = join (take p o) in
    let middle : Text = join (slice p (length o - s) o) in
    let last : Text = join (drop (length o - s) o) in
    read_side-segments_of in_original o r p s
    ∙ ap (λ t. (t ++ middle) ++ last) (append_nil first)
    ∙ append_assoc first middle last
    ∙ join-slice p (length o - s) o (omega arith)

segments_of-replacement :
    (o r : List Text) (p s : ℕ)
    → p ≤ length r
    → take p o ≡ take p r
    → IsCommon o r p s
    → read_side in_replacement (segments_of o r p s) ≡ join r
segments_of-replacement o r p s h prefix (common, a, b) =
    let first : Text = join (take p o) in
    let middle : Text = join (slice p (length r - s) r) in
    let last : Text = join (drop (length o - s) o) in
    read_side-segments_of in_replacement o r p s
    ∙ ap (λ t. t ++ last) (append_nil (first ++ middle))
    ∙ append_assoc first middle last
    ∙ ap (λ t. join t ++ (middle ++ last)) prefix
    ∙ ap (λ t. join (take p r) ++ (middle ++ join t)) common
    ∙ join-slice p (length r - s) r (omega arith)

no_text : (text : Text) → (length text == 0) ≡ true → [] ≡ text
no_text [] e = refl
no_text (c ∷ text) e = ground arith

-- The segments of a proposal hold both texts: those that are equal or deleted, read in their order, are
-- the original text, and those that are equal or inserted are the replacement.
pub create_redline_segments-sides :
    (original_text replacement_text : Text)
    → (read_side in_original (create_redline_segments original_text replacement_text)
        ≡ original_text)
      × (read_side in_replacement (create_redline_segments original_text replacement_text)
          ≡ replacement_text)
unfolding create_redline_segments
create_redline_segments-sides a b =
    let o : List Text = tokenize a in
    let r : List Text = tokenize b in
    let p : ℕ = prefix_length o r in
    let s : ℕ = suffix_length (length o) o r p 0 in
    let common = suffix_length-IsCommon (length o) o r p 0 (start-IsCommon o r p) in
    let (in_o, in_r) = prefix_length-le o r in
    elim (Bool-cases (holds (Text-discrete a b))) [
      | inl e ↦ elim (Bool-cases (length a == 0)) [
        | inl z ↦ rw (e, z) (no_text a z, no_text a z ∙ text-eq a b e)
        | inr z ↦ rw (e, z) (append_nil a, append_nil a ∙ text-eq a b e)
      ]
      | inr e ↦ rw e (
        read_side-without_empty_text in_original (segments_of o r p s)
            ∙ segments_of-original o r p s in_o common
            ∙ join-tokenize a,
        read_side-without_empty_text in_replacement (segments_of o r p s)
            ∙ segments_of-replacement o r p s in_r (take-prefix_length o r) common
            ∙ join-tokenize b,
      )
    ]
