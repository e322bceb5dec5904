-- ===== src/Profiles/Trimming.antt =====
-- `trim` of src/features/projects/project-profile.ts, done twice.
use coredot_editor.Prelude.{
  ℕ, ◌≡◌, refl, ap, ◌∙◌, false, List, [], ◌∷◌, Text, arith, ◌⊎◌, inl, inr, Bool-cases, list-cases,
}
use coredot_editor.Redline.{is_space}
use coredot_editor.Profiles.Texts.{trim_start, trim_end, trim, is_empty}
use coredot_editor.Profiles.Metadata.{trimmed}

trim_end_again : (text : Text) → trim_end (trim_end text) ≡ trim_end text
unfolding trim_end
trim_end_again [] = refl
trim_end_again (c ∷ text) = ground (arith, trim_end_again text)

trim_start-trim_end :
    (c : ℕ) (text : Text)
    → is_space c ≡ false
    → trim_start (trim_end (c ∷ text)) ≡ trim_end (c ∷ text)
unfolding trim_end trim_start
trim_start-trim_end c text h = elim (list-cases (trim_end text)) [
  | inl e ↦ rw (e, h, trim_end) (rw (h, trim_start) refl)
  | inr (d, rest, e) ↦ rw (e, trim_end) (rw (h, trim_start) refl)
]

pub trim_start-cases :
    (text : Text)
    → (trim_start text ≡ [])
      ⊎ ((c : ℕ) × (rest : Text) × (trim_start text ≡ c ∷ rest) × (is_space c ≡ false))
unfolding trim_start
trim_start-cases [] = inl refl
trim_start-cases (c ∷ text) = elim (Bool-cases (is_space c)) [
  | inl s ↦ rw s (trim_start-cases text)
  | inr s ↦ rw s (inr (c, text, refl, s))
]

pub trim-trim : (text : Text) → trim (trim text) ≡ trim text
unfolding trim trim_start trim_end
trim-trim text = elim (trim_start-cases text) [
  | inl e ↦ rw e refl
  | inr (c, rest, e, s) ↦
      rw e (ap trim_end (trim_start-trim_end c rest s) ∙ trim_end_again (c ∷ rest))
]

pub trimmed-trimmed : (ws : List Text) → trimmed (trimmed ws) ≡ trimmed ws
unfolding trimmed
trimmed-trimmed [] = refl
trimmed-trimmed (w ∷ ws) = elim (Bool-cases (is_empty (trim w))) [
  | inl e ↦ rw e (trimmed-trimmed ws)
  | inr e ↦ rw (e, trimmed) (rw (trim-trim w, e, trimmed) (ap (◌∷◌ (trim w)) (trimmed-trimmed ws)))
]
