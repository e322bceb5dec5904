-- ===== src/Profiles/Texts.antt =====
-- The built-ins of JavaScript that src/features/projects/project-profile.ts uses on texts: `trim`, and the
-- reading and printing of a date by `Date`.
use coredot_editor.Prelude.{
  ℕ, ◌+◌, ◌-◌, ◌*◌, ◌%◌, Bool, true, false, ◌&&◌, ◌||◌, List, [], ◌∷◌, Text, if◌then◌else◌, leb,
  ◌==◌,
}
use coredot_editor.Redline.{is_space}

unfoldable pub trim_start : Text → Text
trim_start [] = []
trim_start (c ∷ text) = let rest = trim_start text in if is_space c then rest else c ∷ text

unfoldable pub trim_end : Text → Text
trim_end [] = []
trim_end (c ∷ text) = elim (trim_end text) [
  | [] ↦ if is_space c then [] else c ∷ []
  | d ∷ rest ↦ c ∷ d ∷ rest
]

unfoldable pub trim : Text → Text
trim text = trim_end (trim_start text)

abbrev pub is_empty : {A : Type 0} → List A → Bool
is_empty [] = true
is_empty (x ∷ xs) = false

abbrev pub is_leap : ℕ → Bool
is_leap year = (year % 4 == 0) && (if year % 100 == 0 then year % 400 == 0 else true)

abbrev pub days_in_month : ℕ → ℕ → ℕ
days_in_month year month =
    if month == 2
    then (if is_leap year then 29 else 28)
    else if month == 4 || month == 6 || month == 9 || month == 11
    then 30
    else 31

-- `new Date` of a year, a month and a day takes any day up to 31, and a day past the end of its month
-- is one of the next month: whether the date reads back as it was written.
unfoldable pub reads_back : ℕ → ℕ → ℕ → Bool
reads_back year month day =
    leb 1 month && leb month 12 && leb 1 day && leb day 31 && leb day (days_in_month year month)

abbrev pub is_digit : ℕ → Bool
is_digit c = leb 48 c && leb c 57

abbrev pub digit : ℕ → ℕ
digit c = c - 48

-- isCalendarDate
unfoldable pub is_calendar_date : Text → Bool
is_calendar_date (a ∷ b ∷ c ∷ d ∷ h ∷ e ∷ f ∷ k ∷ i ∷ j ∷ []) =
    is_digit a
    && is_digit b
    && is_digit c
    && is_digit d
    && h == 45
    && is_digit e
    && is_digit f
    && k == 45
    && is_digit i
    && is_digit j
    && reads_back (digit a * 1000 + digit b * 100 + digit c * 10 + digit d) (digit e * 10 + digit f)
        (digit i * 10 + digit j)
is_calendar_date _ = false
