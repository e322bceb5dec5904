-- ===== src/Movement/Targets.antt =====
-- The locations, targets and results of src/features/documents/block-movement.ts, and how the editor's
-- input becomes a location and a target. Indices are natural numbers, and `isInteger` is the bound of
-- the safe integers.
use coredot_editor.Prelude.{
  ℕ, ◌^◌, Bool, not, List, [], ◌∷◌, Option, none, some, or_else, Text, if◌then◌else◌, ltb,
}
use coredot_editor.Prelude.Options.{fmap}
use coredot_editor.Blocks.Tree.{Node}

-- DocumentBlockLocation
pub data Location : Type 0 where
  in_list : List ℕ → Location
  top_level : ℕ → Location

pub data Placement : Type 0 where
  before after : Placement

pub data Direction : Type 0 where
  down indent outdent up : Direction

-- DocumentBlockRelativeTarget and DocumentBlockSlotTarget. The Boolean of `beside_item` says whether
-- `destinationKind` is "topLevel".
pub data Target : Type 0 where
  between_items : List ℕ → Placement → Target
  beside_item : Bool → List ℕ → Placement → Target
  relative : Direction → Target
  beside_top_level : ℕ → Placement → Target
  top_level_slot : ℕ → Target
  list_item_slot : ℕ → List ℕ → Target
  between_items_slot : ℕ → List ℕ → Target

-- DocumentBlockMoveIntent
pub record Intent : Type 0 where
  pub document_signature : Option Text
  pub source : Location
  pub target : Target

pub data Reason : Type 0 where
  invalid same_slot stale : Reason

-- DocumentBlockMoveResult
pub data MoveResult : Type 0 where
  unchanged : Reason → MoveResult
  changed : Node → Location → MoveResult

pub data NormalizedTarget : Type 0 where
  -- dropIndex, listIndex
  between : ℕ → ℕ → NormalizedTarget
  -- dropIndex, indent, listIndex, parentPath
  into_list : ℕ → Bool → ℕ → List ℕ → NormalizedTarget
  -- dropIndex
  into_top_level : ℕ → NormalizedTarget

pub record ParsedListItemPath : Type 0 where
  pub item_index : ℕ
  pub list_index : ℕ
  pub parent_path : List ℕ

-- DocumentBlockRangeInput. The Boolean says whether `kind` is "topLevel".
pub record RangeInput : Type 0 where
  pub is_top_level : Bool
  pub list_item_path : Option (List ℕ)
  pub top_level_index : ℕ

pub data DropKind : Type 0 where
  drop_between drop_item drop_level drop_top_level : DropKind

-- DocumentBlockDropInput. The Boolean of an `action` says whether it is "indent".
pub record DropInput : Type 0 where
  pub action : Option Bool
  pub drop_index : ℕ
  pub kind : DropKind
  pub list_item_path : Option (List ℕ)
  pub top_level_index : Option ℕ

abbrev pub is_integer : ℕ → Bool
is_integer n = ltb n (2 ^ 53)

-- createDocumentBlockLocation
unfoldable pub create_document_block_location : RangeInput → Option Location
create_document_block_location input =
    if not (is_integer input.top_level_index)
    then none
    else if input.is_top_level
    then some (top_level input.top_level_index)
    else elim input.list_item_path [
      | none ↦ none
      | some [] ↦ none
      | some (item ∷ path) ↦ some (in_list (input.top_level_index ∷ item ∷ path))
    ]

-- createDocumentBlockMoveTarget
unfoldable pub create_document_block_move_target : DropInput → Option Target
create_document_block_move_target input = elim input.kind [
  | drop_level ↦ fmap (λ indents. relative (if indents then indent else outdent)) input.action
  | drop_top_level ↦ some (top_level_slot input.drop_index)
  | drop_between ↦
      fmap (λ index. between_items_slot input.drop_index (index ∷ [])) input.top_level_index
  | drop_item ↦
      fmap (λ index. list_item_slot input.drop_index (index ∷ or_else input.list_item_path []))
        input.top_level_index
]
