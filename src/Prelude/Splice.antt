-- ===== src/Prelude/Splice.antt =====
-- `Array.prototype.splice` of one element, and what it does to positions, lengths and sums.
use Prim.Native.Nat.{ℕ, zero, suc, ◌+◌, ◌<◌, ◌≤◌}
use mathlib.Core.Path.{◌≡◌, refl, ap}
use mathlib.Core.List.{List, [], ◌∷◌, ◌++◌}
use mathlib.Core.Option.{some}
use native.Mathlib.Omega.{arith}
use coredot_editor.Prelude.Lists.{length, get_elem?, set, take, drop}

module _ {ℓ} {A : Type ℓ} where
  -- `xs.splice(i, 1)`, and also `xs.filter((_, index) => index !== i)`.
  abbrev pub remove_at : ℕ → List A → List A
  remove_at i [] = []
  remove_at zero (x ∷ xs) = xs
  remove_at (suc i) (x ∷ xs) = x ∷ remove_at i xs

  -- `xs.splice(i, 0, y)`, which adds at the end where `i` is past it.
  abbrev pub insert_at : ℕ → A → List A → List A
  insert_at zero y xs = y ∷ xs
  insert_at (suc i) y [] = y ∷ []
  insert_at (suc i) y (x ∷ xs) = x ∷ insert_at i y xs

  pub length-remove_at :
      (i : ℕ) (xs : List A) → i < length xs → length (remove_at i xs) + 1 ≡ length xs
  length-remove_at i [] h = elim h [ ]
  length-remove_at zero (x ∷ xs) h = omega arith
  length-remove_at (suc i) (x ∷ xs) h = omega (arith, length-remove_at i xs)

  pub length-insert_at : (i : ℕ) (y : A) (xs : List A) → length (insert_at i y xs) ≡ length xs + 1
  length-insert_at zero y xs = omega arith
  length-insert_at (suc i) y [] = omega arith
  length-insert_at (suc i) y (x ∷ xs) = omega (arith, length-insert_at i y xs)

  pub get_elem?-insert_at :
      (i : ℕ) (y : A) (xs : List A) → i ≤ length xs → get_elem? (insert_at i y xs) i ≡ some y
  get_elem?-insert_at zero y xs h = refl
  get_elem?-insert_at (suc i) y [] h = absurd (omega arith)
  get_elem?-insert_at (suc i) y (x ∷ xs) h = get_elem?-insert_at i y xs (omega arith)

  pub remove_at-insert_at :
      (i : ℕ) (y : A) (xs : List A) → i ≤ length xs → remove_at i (insert_at i y xs) ≡ xs
  remove_at-insert_at zero y xs h = refl
  remove_at-insert_at (suc i) y [] h = absurd (omega arith)
  remove_at-insert_at (suc i) y (x ∷ xs) h = ap (◌∷◌ x) (remove_at-insert_at i y xs (omega arith))

  pub get_elem?-lt : (xs : List A) (i : ℕ) (x : A) → get_elem? xs i ≡ some x → i < length xs
  get_elem?-lt [] i x h = cc
  get_elem?-lt (y ∷ xs) zero x h = omega arith
  get_elem?-lt (y ∷ xs) (suc i) x h = omega (arith, get_elem?-lt xs i x h)

module _ {ℓ} {A : Type ℓ} (weigh : A → ℕ) where
  abbrev pub total : List A → ℕ
  total [] = 0
  total (x ∷ xs) = weigh x + total xs

  pub total-append : (xs ys : List A) → total (xs ++ ys) ≡ total xs + total ys
  total-append [] ys = omega arith
  total-append (x ∷ xs) ys = omega (arith, total-append xs ys)

  pub total-remove_at :
      (i : ℕ) (x : A) (xs : List A)
      → get_elem? xs i ≡ some x
      → total (remove_at i xs) + weigh x ≡ total xs
  total-remove_at i x [] h = cc
  total-remove_at zero x (y ∷ xs) h = ground arith
  total-remove_at (suc i) x (y ∷ xs) h = omega (arith, total-remove_at i x xs h)

  pub total-insert_at :
      (i : ℕ) (y : A) (xs : List A) → total (insert_at i y xs) ≡ total xs + weigh y
  total-insert_at zero y xs = omega arith
  total-insert_at (suc i) y [] = omega arith
  total-insert_at (suc i) y (x ∷ xs) = omega (arith, total-insert_at i y xs)

  pub total-set :
      (i : ℕ) (x y : A) (xs : List A)
      → get_elem? xs i ≡ some x
      → total (set xs i y) + weigh x ≡ total xs + weigh y
  total-set i x y [] h = cc
  total-set zero x y (z ∷ xs) h = ground arith
  total-set (suc i) x y (z ∷ xs) h = omega (arith, total-set i x y xs h)

  pub total-take-drop : (n : ℕ) (xs : List A) → total (take n xs) + total (drop n xs) ≡ total xs
  total-take-drop zero xs = omega arith
  total-take-drop (suc n) [] = omega arith
  total-take-drop (suc n) (x ∷ xs) = omega (arith, total-take-drop n xs)
