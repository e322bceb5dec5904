-- ===== src/Profiles/Values.antt =====
-- The values that the fields of src/features/projects/project-profile.ts may have, said apart from the code
-- that checks them: sizes, trimmed texts, dates of the calendar, choices and tags.
use coredot_editor.Prelude.{
  ℕ, ◌+◌, ◌*◌, ◌%◌, ◌≤◌, ◌<◌, ◌≡◌, ◌≢◌, refl, sym, ap, ◌∙◌, ◌⊎◌, inl, inr, Bool, true, false, List,
  [], ◌∷◌, ◌++◌, some, Text, Text-discrete, text_key, arith, or_else, length, Bool-cases,
  list-cases, holds, All, text-eq,
}
use coredot_editor.Redline.{is_space}
use coredot_editor.Profiles.Texts.{
  trim_start, trim_end, trim, is_empty, days_in_month, reads_back, is_digit, digit,
  is_calendar_date,
}
use coredot_editor.Profiles.Data.{
  Cap, exactly, below_zero, fraction, nan, infinite, FieldType, boolean, date, number, select, tags,
  text, Field, Value, truth, finite, string, array,
}
use coredot_editor.Profiles.Defining.{member}
use coredot_editor.Profiles.Metadata.{exceeds, items_of}
use coredot_editor.Profiles.Trimming.{trim_start-cases}

-- A size is at most a limit; no size is at most NaN, and none exceeds it either.
unfoldable pub HasSize : ℕ → Cap → Type 0
HasSize n (exactly m) = n ≤ m
HasSize n below_zero = n < 0
HasSize n (fraction m) = n ≤ m
HasSize n nan = Unit
HasSize n infinite = Unit

-- A text that is not empty and neither begins nor ends with white space.
unfoldable pub IsTrimmed : Text → Type 0
IsTrimmed t =
    ((c : ℕ) × (rest : Text) × (t ≡ c ∷ rest) × (is_space c ≡ false))
    × ((before : Text) × (c : ℕ) × (t ≡ before ++ c ∷ []) × (is_space c ≡ false))

-- The days of the Gregorian calendar.
unfoldable pub IsDay : ℕ → ℕ → ℕ → Type 0
IsDay year month day =
    (day ≤ 28)
    ⊎ (((day ≤ 30) × (month ≢ 2))
        ⊎ (((day ≤ 31) × (month ≢ 2) × (month ≢ 4) × (month ≢ 6) × (month ≢ 9) × (month ≢ 11))
            ⊎ ((day ≤ 29) × (month ≡ 2) × (year % 4 ≡ 0) × ((year % 100 ≢ 0) ⊎ (year % 400 ≡ 0)))))

-- The character of a digit.
abbrev pub figure : ℕ → ℕ
figure d = 48 + d

-- A date written with four digits for the year, two for the month and two for the day.
unfoldable pub IsDate : Text → Type 0
IsDate t =
    (y3 : ℕ) × (y2 : ℕ) × (y1 : ℕ) × (y0 : ℕ) × (m1 : ℕ) × (m0 : ℕ) × (d1 : ℕ) × (d0 : ℕ) × ((y3
        < 10)
      × (y2 < 10)
      × (y1 < 10)
      × (y0 < 10))
    × ((m1 < 10) × (m0 < 10) × (d1 < 10) × (d0 < 10))
    × (t
        ≡ figure y3
          ∷ figure y2
          ∷ figure y1
          ∷ figure y0
          ∷ 45
          ∷ figure m1
          ∷ figure m0
          ∷ 45
          ∷ figure d1
          ∷ figure d0
          ∷ [])
    × ((1 ≤ m1 * 10 + m0) × (m1 * 10 + m0 ≤ 12) × (1 ≤ d1 * 10 + d0))
    × IsDay (y3 * 1000 + y2 * 100 + y1 * 10 + y0) (m1 * 10 + m0) (d1 * 10 + d0)

unfoldable pub IsText : Field → Text → Type 0
IsText field t = IsTrimmed t × HasSize (length t) (or_else field.max_length (exactly 2000))

unfoldable pub IsChoice : Field → Text → Type 0
IsChoice field t =
    (before : List Text) × (after_ : List Text) × (field.options ≡ some (before ++ t ∷ after_))

unfoldable pub IsTag : Field → Text → Type 0
IsTag field w = IsTrimmed w × HasSize (length w) (or_else field.item_max_length (exactly 64))

unfoldable pub AreTags : Field → List Text → Type 0
AreTags field ws =
    (ws ≢ []) × HasSize (length ws) (or_else field.max_items (exactly 32)) × All (IsTag field) ws

-- A value of a field, by the field's type.
unfoldable pub IsOfType : FieldType → Field → Value → Type 0
IsOfType boolean field v = (b : Bool) × (v ≡ truth b)
IsOfType number field v = (n : ℕ) × (v ≡ finite n)
IsOfType date field v = (t : Text) × (v ≡ string t) × IsDate t
IsOfType select field v = (t : Text) × (v ≡ string t) × IsTrimmed t × IsChoice field t
IsOfType text field v = (t : Text) × (v ≡ string t) × IsText field t
IsOfType tags field v = (ws : List Text) × (v ≡ array (items_of ws)) × AreTags field ws

pub exceeds-HasSize : (n : ℕ) (cap : Cap) → exceeds n cap ≡ false → HasSize n cap
unfolding HasSize
exceeds-HasSize n (exactly m) e = ground arith
exceeds-HasSize n below_zero e = cc
exceeds-HasSize n (fraction m) e = ground arith
exceeds-HasSize n nan e = tt
exceeds-HasSize n infinite e = tt

-- The end of a text without the white space after it.
trim_end-ends :
    (t : Text)
    → (trim_end t ≡ [])
      ⊎ ((before : Text) × (c : ℕ) × (trim_end t ≡ before ++ c ∷ []) × (is_space c ≡ false))
unfolding trim_end
trim_end-ends [] = inl refl
trim_end-ends (c ∷ t) = elim (list-cases (trim_end t)) [
  | inl e ↦ elim (Bool-cases (is_space c)) [
    | inl s ↦ inl (rw (e, s, trim_end) refl)
    | inr s ↦ inr ([], c, rw (e, trim_end) (rw s refl), s)
  ]
  | inr (d, rest, e) ↦ elim (trim_end-ends t) [
    | inl k ↦ cc
    | inr (before, l, k, s) ↦ inr (c ∷ before, l, rw (e, trim_end) (ap (◌∷◌ c) (sym e ∙ k)), s)
  ]
]

empty_text : is_empty {A = ℕ} [] ≢ false
empty_text e = cc

trim_end-starts :
    (c : ℕ) (t : Text) → is_space c ≡ false → (rest : Text) × (trim_end (c ∷ t) ≡ c ∷ rest)
unfolding trim_end
trim_end-starts c t s = elim (list-cases (trim_end t)) [
  | inl e ↦ ([], rw (e, s, trim_end) refl)
  | inr (d, rest, e) ↦ (d ∷ rest, rw (e, trim_end) refl)
]

pub trim-IsTrimmed : (t : Text) → is_empty (trim t) ≡ false → IsTrimmed (trim t)
unfolding IsTrimmed trim trim_end
trim-IsTrimmed t full = (
  elim (trim_start-cases t) [
    | inl e ↦ absurd (empty_text (ap (λ x. is_empty (trim_end x)) (sym e) ∙ full))
    | inr (c, rest, e, s) ↦
        let (more, k) = trim_end-starts c rest s in (c, more, ap trim_end e ∙ k, s)
  ],
  elim (trim_end-ends (trim_start t)) [
    | inl e ↦ absurd (empty_text (ap is_empty (sym e) ∙ full))
    | inr found ↦ found
  ],
)

days-IsDay : (year month day : ℕ) → day ≤ days_in_month year month → IsDay year month day
unfolding IsDay
days-IsDay year month day h = ground arith

reads_back-IsDay :
    (year month day : ℕ)
    → reads_back year month day ≡ true
    → (1 ≤ month) × (month ≤ 12) × (1 ≤ day) × IsDay year month day
unfolding reads_back
reads_back-IsDay year month day e =
    (ground arith, ground arith, ground arith, days-IsDay year month day (ground arith))

figure-digit : (c : ℕ) → is_digit c ≡ true → (c ≡ figure (digit c)) × (digit c < 10)
figure-digit c h = (ground arith, ground arith)

pub is_calendar_date_lem : (t : Text) → is_calendar_date t ≡ true → IsDate t
unfolding IsDate is_calendar_date
is_calendar_date_lem [] is_date = cc
is_calendar_date_lem (a ∷ []) is_date = cc
is_calendar_date_lem (a ∷ b ∷ []) is_date = cc
is_calendar_date_lem (a ∷ b ∷ c ∷ []) is_date = cc
is_calendar_date_lem (a ∷ b ∷ c ∷ d ∷ []) is_date = cc
is_calendar_date_lem (a ∷ b ∷ c ∷ d ∷ x ∷ []) is_date = cc
is_calendar_date_lem (a ∷ b ∷ c ∷ d ∷ x ∷ e ∷ []) is_date = cc
is_calendar_date_lem (a ∷ b ∷ c ∷ d ∷ x ∷ e ∷ f ∷ []) is_date = cc
is_calendar_date_lem (a ∷ b ∷ c ∷ d ∷ x ∷ e ∷ f ∷ y ∷ []) is_date = cc
is_calendar_date_lem (a ∷ b ∷ c ∷ d ∷ x ∷ e ∷ f ∷ y ∷ i ∷ []) is_date = cc
is_calendar_date_lem (a ∷ b ∷ c ∷ d ∷ x ∷ e ∷ f ∷ y ∷ i ∷ j ∷ z ∷ more) is_date = cc
is_calendar_date_lem (a ∷ b ∷ c ∷ d ∷ x ∷ e ∷ f ∷ y ∷ i ∷ j ∷ []) is_date =
    let (a', a10) = figure-digit a (ground arith) in
    let (b', b10) = figure-digit b (ground arith) in
    let (c', c10) = figure-digit c (ground arith) in
    let (d', d10) = figure-digit d (ground arith) in
    let (e', e10) = figure-digit e (ground arith) in
    let (f', f10) = figure-digit f (ground arith) in
    let (i', i10) = figure-digit i (ground arith) in
    let (j', j10) = figure-digit j (ground arith) in
    let (from_month, to_month, from_day, in_month) =
      reads_back-IsDay (digit a * 1000 + digit b * 100 + digit c * 10 + digit d)
        (digit e * 10 + digit f) (digit i * 10 + digit j) (ground arith) in
    let x45 : x ≡ 45 = ground arith in
    let y45 : y ≡ 45 = ground arith in
    (
      digit a,
      digit b,
      digit c,
      digit d,
      digit e,
      digit f,
      digit i,
      digit j,
      (a10, b10, c10, d10),
      (e10, f10, i10, j10),
      cc,
      (from_month, to_month, from_day),
      in_month,
    )

pub member-choice :
    (t : Text) (options : List Text)
    → member t options ≡ true
    → (before : List Text) × (after_ : List Text) × (options ≡ before ++ t ∷ after_)
member-choice t [] e = cc
member-choice t (o ∷ options) e = elim (Bool-cases (holds (Text-discrete o t))) [
  | inl h ↦ ([], options, ap (λ x. x ∷ options) (text-eq o t h))
  | inr h ↦
      let (before, after_, k) = member-choice t options (rw h at e) in
      (o ∷ before, after_, ap (◌∷◌ o) k)
]
