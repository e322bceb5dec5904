-- ===== src/Prelude/Strings.antt =====
-- JavaScript strings as lists of UTF-16 code units, and the numbers that a caller may pass.
use Prim.Native.Nat.{ℕ, ◌-◌, ◌^◌}
use Prim.Native.Char.{code}
use Prim.Native.String.{String}
use mathlib.Core.List.{List, [], ◌∷◌}
use mathlib.Core.Path.{◌≡◌}
use native.Mathlib.Omega.{arith}
use mathlib.Core.Option.{Option, none, some}
use mathlib.Core.Bool.{true, false}
use native.Mathlib.Decide.{ℕ_discrete}
use coredot_editor.Prelude.Tests.{leb, holds}
use coredot_editor.Prelude.Map.{Key}

abbrev pub Text : Type 0
Text = List ℕ

-- The code units of a literal, which is ASCII wherever it is used.
abbrev pub codes : String → Text
codes String.[] = []
codes (String.◌∷◌ c s) = code c ∷ codes s

unfoldable pub Text-discrete : Discrete Text
Text-discrete = hlevel ℕ_discrete

pub text-eq : (x y : Text) → holds (Text-discrete x y) ≡ true → x ≡ y
text-eq x y e = ground arith

instance abbrev pub text_key : Key Text
text_key = record { decide = Text-discrete }

instance abbrev pub nat_key : Key ℕ
nat_key = record { decide = ℕ_discrete }

-- A number that a caller passes: a natural number, a negative one, or none (a fraction, NaN, ∞).
pub data Number : Type 0 where
  nat : ℕ → Number
  negative : Number
  inexact : Number

abbrev pub max_safe_integer : ℕ
max_safe_integer = 2 ^ 53 - 1

-- The value of a number that passes `Number.isSafeInteger(n) && n >= 0`.
unfoldable pub safe_nat : Number → Option ℕ
safe_nat (nat n) = elim (leb n max_safe_integer) [ true ↦ some n | false ↦ none ]
safe_nat negative = none
safe_nat inexact = none
