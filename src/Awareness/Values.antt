-- ===== src/Awareness/Values.antt =====
-- The JSON values that src/features/collaboration/server/awareness-policy.ts reads. An object is its
-- properties in their order, each name once.
use coredot_editor.Prelude.{
  ℕ, Bool, true, false, ◌||◌, ◌&&◌, List, [], ◌∷◌, ◌++◌, Option, none, some, Text, Text-discrete,
  if◌then◌else◌, holds, ltb, ◌==◌,
}

mutual
  pub data Json : Type 0 where
    null : Json
    boolean : Bool → Json
    -- a natural number, and the integer -(n + 1)
    nat negsuc : ℕ → Json
    -- any other number
    fraction : ℕ → Json
    str : Text → Json
    arr : Items → Json
    obj : Fields → Json

  pub data Items : Type 0 where
    nil : Items
    cons : Json → Items → Items

  pub data Fields : Type 0 where
    end : Fields
    field : Text → Json → Fields → Fields

-- `value.name`, where `none` is `undefined`
unfoldable pub property : Text → Fields → Option Json
property name end = none
property name (field n v fs) =
    let rest = property name fs in if holds (Text-discrete n name) then some v else rest

-- Object.keys, Object.entries
abbrev pub keys : Fields → List Text
keys end = []
keys (field n v fs) = n ∷ keys fs

abbrev pub entries_of : Fields → List (Text × Json)
entries_of end = []
entries_of (field n v fs) = (n, v) ∷ entries_of fs

-- `value ?? undefined`
abbrev pub present : Option Json → Option Json
present (some null) = none
present o = o

abbrev pub member : Text → List Text → Bool
member x [] = false
member x (y ∷ ys) = holds (Text-discrete y x) || member x ys

-- The order of strings by code units.
unfoldable pub text_leb : Text → Text → Bool
text_leb [] t = true
text_leb (c ∷ s) [] = false
text_leb (c ∷ s) (d ∷ t) = ltb c d || (c == d && text_leb s t)

unfoldable pub insert_sorted : Text → List Text → List Text
insert_sorted x [] = x ∷ []
insert_sorted x (y ∷ ys) =
    let rest = insert_sorted x ys in if text_leb x y then x ∷ y ∷ ys else y ∷ rest

-- toSorted
unfoldable pub sorted : List Text → List Text
sorted [] = []
sorted (x ∷ xs) = insert_sorted x (sorted xs)

-- join(",")
unfoldable pub comma_joined : List Text → Text
comma_joined [] = []
comma_joined (x ∷ []) = x
comma_joined (x ∷ y ∷ xs) = x ++ 44 ∷ comma_joined (y ∷ xs)
