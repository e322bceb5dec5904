-- ===== src/Resources/Counts.antt =====
-- How the count maps follow the reservations, for src/features/collaboration/server/resource-limits.ts.
use coredot_editor.Prelude.{
  ℕ, ◌+◌, ◌-◌, ◌≤◌, ◌<◌, ◌≡◌, refl, sym, ◌∙◌, ite, List, [], ◌∷◌, none, some, Text, get, insert,
  delete, or_else, IsUnique, get-insert, get-delete_ne, get-delete_self, delete-IsUnique,
  insert-IsUnique, Text-discrete, text_key, arith,
}
use coredot_editor.Resources.{Reservation, decrement, count}

-- How many reservations belong to a key.
module _ (owner : Reservation → Text) where
  abbrev pub tally : Text → List (Text × Reservation) → ℕ
  tally t [] = 0
  tally t ((k, r) ∷ rs) = ite (Text-discrete (owner r) t) 1 0 + tally t rs

  pub tally-insert_new :
      (t k : Text) (r : Reservation) (rs : List (Text × Reservation))
      → get k rs ≡ none
      → tally t (insert k r rs) ≡ ite (Text-discrete (owner r) t) 1 0 + tally t rs
  tally-insert_new t k r [] h = refl
  tally-insert_new t k r ((j, s) ∷ rs) h = ground (arith, tally-insert_new t k r rs)

  pub tally-insert_old :
      (t k : Text) (q r : Reservation) (rs : List (Text × Reservation))
      → get k rs ≡ some q
      → owner r ≡ owner q
      → tally t (insert k r rs) ≡ tally t rs
  tally-insert_old t k q r [] h e = ground arith
  tally-insert_old t k q r ((j, s) ∷ rs) h e = ground (arith, tally-insert_old t k q r rs)

  pub tally-delete :
      (t k : Text) (r : Reservation) (rs : List (Text × Reservation))
      → get k rs ≡ some r
      → ite (Text-discrete (owner r) t) 1 0 + tally t (delete k rs) ≡ tally t rs
  tally-delete t k r [] h = ground arith
  tally-delete t k r ((j, s) ∷ rs) h = ground (arith, tally-delete t k r rs)

pub count-insert :
    (counts : List (Text × ℕ)) (k t : Text) (n : ℕ)
    → count (insert k n counts) t ≡ ite (Text-discrete k t) n (count counts t)
count-insert counts k t n = ground (arith, get-insert k t n counts)

pub decrement-IsUnique :
    (counts : List (Text × ℕ)) (k : Text) → IsUnique counts → IsUnique (decrement counts k)
unfolding decrement
decrement-IsUnique counts k u =
    ground
      (arith, delete-IsUnique k counts u, insert-IsUnique k (or_else (get k counts) 1 - 1) counts u)

pub count-decrement :
    (counts : List (Text × ℕ)) (k t : Text)
    → IsUnique counts
    → count (decrement counts k) t ≡ count counts t - ite (Text-discrete k t) 1 0
unfolding decrement
count-decrement counts k t u = ground (
  arith,
  get-insert k t (or_else (get k counts) 1 - 1) counts,
  get-delete_ne k t counts,
  get-delete_self k counts u,
)

-- One of the three count maps agrees with the reservations, and no count is above its limit.
pub record IsCounted (owner : Reservation → Text) (limit : ℕ) (counts : List (Text × ℕ))
    (rs : List (Text × Reservation)) : Type 0 where
  pub distinct : IsUnique counts
  pub counted : (t : Text) → count counts t ≡ tally owner t rs
  pub bounded : (t : Text) → count counts t ≤ limit

module _ {owner : Reservation → Text} {limit : ℕ} (counts : List (Text × ℕ)) (k : Text)
    (r : Reservation) (rs : List (Text × Reservation)) where
  pub IsCounted-reserve :
      IsCounted owner limit counts rs
      → get k rs ≡ none
      → count counts (owner r) < limit
      → IsCounted owner limit (insert (owner r) (count counts (owner r) + 1) counts) (insert k r rs)
  IsCounted-reserve v fresh room = record {
    distinct = insert-IsUnique (owner r) (count counts (owner r) + 1) counts v.distinct;
    counted = λ t. ground (
      arith,
      count-insert counts (owner r) t (count counts (owner r) + 1),
      tally-insert_new owner t k r rs,
      v.counted t,
    );
    bounded = λ t.
        ground (arith, count-insert counts (owner r) t (count counts (owner r) + 1), v.bounded t);
  }

  pub IsCounted-release :
      IsCounted owner limit counts rs
      → get k rs ≡ some r
      → IsCounted owner limit (decrement counts (owner r)) (delete k rs)
  IsCounted-release v found = record {
    distinct = decrement-IsUnique counts (owner r) v.distinct;
    counted = λ t. ground (
      arith,
      count-decrement counts (owner r) t v.distinct,
      tally-delete owner t k r rs,
      v.counted t,
    );
    bounded = λ t. ground (arith, count-decrement counts (owner r) t v.distinct, v.bounded t);
  }

  pub IsCounted-attach :
      (q : Reservation)
      → IsCounted owner limit counts rs
      → get k rs ≡ some q
      → owner r ≡ owner q
      → IsCounted owner limit counts (insert k r rs)
  IsCounted-attach q v found same = record {
    distinct = v.distinct;
    counted = λ t. v.counted t ∙ sym (tally-insert_old owner t k q r rs found same);
    bounded = v.bounded;
  }
