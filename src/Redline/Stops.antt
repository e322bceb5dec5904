-- ===== src/Redline/Stops.antt =====
-- The loop over the common suffix in src/features/proposals/redline-diff.ts.
use coredot_editor.Prelude.{
  ℕ, zero, suc, ◌+◌, ◌≡◌, ◌≤◌, false, List, Text, inl, inr, length, arith, Bool-cases,
}
use coredot_editor.Redline.{suffix_goes_on, suffix_length}

suffix_out_of_range : (o r : List Text) (p s : ℕ) → length o ≤ s → suffix_goes_on o r p s ≡ false
unfolding suffix_goes_on
suffix_out_of_range o r p s h = ground arith

suffix_stops :
    (fuel : ℕ) (o r : List Text) (p s : ℕ)
    → length o ≤ fuel + s
    → suffix_goes_on o r p (suffix_length fuel o r p s) ≡ false
unfolding suffix_length
suffix_stops zero o r p s h = suffix_out_of_range o r p s (omega arith)
suffix_stops (suc fuel) o r p s h = elim (Bool-cases (suffix_goes_on o r p s)) [
  | inl e ↦ rw e (suffix_stops fuel o r p (s + 1) (omega arith))
  | inr e ↦ rw e e
]

-- The loop over the common suffix ends because its condition fails, not for want of fuel: as much fuel
-- as there are tokens of the original text is enough, whatever the texts and the prefix are.
pub suffix_length_ends :
    (o r : List Text) (p : ℕ) → suffix_goes_on o r p (suffix_length (length o) o r p 0) ≡ false
suffix_length_ends o r p = suffix_stops (length o) o r p 0 (omega arith)
