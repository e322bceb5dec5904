-- ===== src/Prelude/Map.antt =====
-- A JavaScript `Map`: the entries in the order of insertion. Writing to a key that is there keeps its
-- place; deleting a key removes its entry.
use mathlib.Core.Path.{◌≡◌, refl}
use mathlib.Core.Logic.{ite, ◌≢◌}
use mathlib.Core.List.{List, [], ◌∷◌}
use mathlib.Core.Option.{Option, none, some}
use mathlib.Core.Bool.{Bool}
use native.Mathlib.Omega.{arith}
use coredot_editor.Prelude.Tests.{is_some}

-- Keys are compared by a decision, which an instance gives.
pub record Key {ℓ} (K : Type ℓ) : Type ℓ where
  pub decide : Discrete K

module _ {ℓ} {K V : Type ℓ} ⦃e : Key K⦄ where
  abbrev pub get : K → List (K × V) → Option V
  get k [] = none
  get k ((j, v) ∷ m) = ite (e.decide j k) (some v) (get k m)

  abbrev pub insert : K → V → List (K × V) → List (K × V)
  insert k v [] = (k, v) ∷ []
  insert k v ((j, w) ∷ m) = ite (e.decide j k) ((k, v) ∷ m) ((j, w) ∷ insert k v m)

  abbrev pub delete : K → List (K × V) → List (K × V)
  delete k [] = []
  delete k ((j, w) ∷ m) = ite (e.decide j k) m ((j, w) ∷ delete k m)

  abbrev pub has : K → List (K × V) → Bool
  has k m = is_some (get k m)

  pub get-insert :
      (k j : K) (v : V) (m : List (K × V))
      → get j (insert k v m) ≡ ite (e.decide k j) (some v) (get j m)
  get-insert k j v [] = refl
  get-insert k j v ((i, w) ∷ m) = ground (arith, get-insert k j v m)

  pub get-insert_self : (k : K) (v : V) (m : List (K × V)) → get k (insert k v m) ≡ some v
  get-insert_self k v m = ground (arith, get-insert k k v m)

  pub get-insert_ne : (k j : K) (v : V) (m : List (K × V)) → k ≢ j → get j (insert k v m) ≡ get j m
  get-insert_ne k j v m h = ground (arith, get-insert k j v m)

  pub get-insert-some : (k j : K) (v : V) (m : List (K × V)) → k ≡ j → get j (insert k v m) ≡ some v
  get-insert-some k j v m h = ground (arith, get-insert k j v m)

  pub get-delete_ne : (k j : K) (m : List (K × V)) → k ≢ j → get j (delete k m) ≡ get j m
  get-delete_ne k j [] h = refl
  get-delete_ne k j ((i, w) ∷ m) h = ground (arith, get-delete_ne k j m h)

  -- No key has two entries.
  abbrev pub IsUnique : List (K × V) → Type ℓ
  IsUnique [] = Unit
  IsUnique ((k, v) ∷ m) = (get k m ≡ none) × IsUnique m

  pub get-delete_self : (k : K) (m : List (K × V)) → IsUnique m → get k (delete k m) ≡ none
  get-delete_self k [] u = refl
  get-delete_self k ((i, w) ∷ m) u = ground (arith, get-delete_self k m u.1)

  pub delete-IsUnique : (k : K) (m : List (K × V)) → IsUnique m → IsUnique (delete k m)
  delete-IsUnique k [] u = u
  delete-IsUnique k ((i, w) ∷ m) u = ground (arith, delete-IsUnique k m u.1, get-delete_ne k i m)

  pub insert-IsUnique : (k : K) (v : V) (m : List (K × V)) → IsUnique m → IsUnique (insert k v m)
  insert-IsUnique k v [] u = (refl, tt)
  insert-IsUnique k v ((i, w) ∷ m) u = ground (arith, insert-IsUnique k v m u.1, get-insert k i v m)
