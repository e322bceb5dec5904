-- ===== src/Movement/Slots.antt =====
-- From a target to a slot of a list or of the document, in src/features/documents/block-movement.ts.
use coredot_editor.Prelude.{
  ℕ, ◌+◌, ◌-◌, Bool, true, false, ◌&&◌, ◌||◌, not, List, Option, none, some, if◌then◌else◌, ltb,
  leb, ◌==◌, length, get_elem?, take,
}
use coredot_editor.Prelude.Options.{◌>>=◌, ◌>>◌}
use coredot_editor.Blocks.Tree.{Node, children}
use coredot_editor.Blocks.ListPath.{same_path}
use coredot_editor.Blocks.{unless, clamp}
use coredot_editor.Movement.Targets.{
  is_integer, Location, in_list, top_level, Placement, before, after, Direction, down, indent,
  outdent, up, Target, between_items, beside_item, relative, beside_top_level, top_level_slot,
  list_item_slot, between_items_slot, NormalizedTarget, between, into_list, into_top_level,
}
use coredot_editor.Movement.Reading.{
  parse_list_item_path, parse_list_path, read_list_at_path, list_length_at_path,
  read_list_item_at_path, top_level_length, is_valid_location, will_remove_source_top_level_list,
}

abbrev pub offset : Placement → ℕ
offset before = 0
offset after = 1

-- normalizeRelativeTarget
unfoldable pub normalize_relative_target : Node → Location → Direction → Option NormalizedTarget
normalize_relative_target doc (top_level index) outdent = none
normalize_relative_target doc (top_level index) indent = none
normalize_relative_target doc (top_level index) up =
    some (into_top_level (clamp (index - 1) (top_level_length doc)))
normalize_relative_target doc (top_level index) down =
    some (into_top_level (clamp (index + 2) (top_level_length doc)))
normalize_relative_target doc (in_list path) direction = do
  parsed ← parse_list_item_path path
  let depth = length parsed.parent_path
  let size = list_length_at_path doc parsed.list_index parsed.parent_path
  elim direction [
    | indent ↦ some (into_list parsed.item_index true parsed.list_index parsed.parent_path)
    | outdent ↦ do
      unless (depth == 0)
      parent ← get_elem? parsed.parent_path (depth - 2)
      some (into_list (parent + 1) false parsed.list_index (take (depth - 2) parsed.parent_path))
    | up ↦
        some (
          into_list (clamp (parsed.item_index - 1) size) false parsed.list_index parsed.parent_path)
    | down ↦
        some (
          into_list (clamp (parsed.item_index + 2) size) false parsed.list_index parsed.parent_path)
  ]

-- The part of `normalizeTarget` for a slot of a list.
unfoldable pub normalize_list_slot : Node → Bool → ℕ → List ℕ → Option NormalizedTarget
normalize_list_slot doc splits index path = do
  list_path ← parse_list_path path
  list ← read_list_at_path doc list_path.0 list_path.1
  unless (splits && not (length list_path.1 == 0))
  unless (not (is_integer index) || ltb (length (children list)) index)
  some (if splits then between index list_path.0 else into_list index false list_path.0 list_path.1)

-- The part of `normalizeTarget` for a place beside a list item.
unfoldable pub normalize_beside : Node → Bool → List ℕ → Placement → Option NormalizedTarget
normalize_beside doc splits path placement = do
  item ← read_list_item_at_path doc path
  parsed ← parse_list_item_path path
  unless (splits && not (length parsed.parent_path == 0))
  some (
      if splits
      then between (parsed.item_index + offset placement) parsed.list_index
      else into_list (parsed.item_index + offset placement) false parsed.list_index
          parsed.parent_path)

-- normalizeTarget
unfoldable pub normalize_target : Node → Location → Target → Option NormalizedTarget
normalize_target doc source (relative direction) = normalize_relative_target doc source direction
normalize_target doc source (top_level_slot index) =
    if is_integer index && leb index (top_level_length doc)
    then some (into_top_level index)
    else none
normalize_target doc source (list_item_slot index path) = normalize_list_slot doc false index path
normalize_target doc source (between_items_slot index path) =
    normalize_list_slot doc true index path
normalize_target doc source (beside_top_level index placement) =
    if is_valid_location doc (top_level index)
    then some (into_top_level (index + offset placement))
    else none
normalize_target doc source (beside_item outside path placement) =
    normalize_beside doc outside path placement
normalize_target doc source (between_items path placement) =
    normalize_beside doc true path placement

abbrev pub beside : ℕ → ℕ → Bool
beside drop_index index = drop_index == index || drop_index == index + 1

-- isSameSlot
unfoldable pub is_same_slot : Node → Location → NormalizedTarget → Bool
is_same_slot doc (top_level index) (into_top_level drop_index) = beside drop_index index
is_same_slot doc (top_level index) _ = false
is_same_slot doc (in_list path) target = elim (parse_list_item_path path) [
  | none ↦ false
  | some parsed ↦ elim target [
    | between drop_index list_index ↦ false
    | into_top_level drop_index ↦
        will_remove_source_top_level_list doc parsed && beside drop_index parsed.list_index
    | into_list drop_index indented list_index parent_path ↦
        not indented
        && parsed.list_index == list_index
        && same_path parsed.parent_path parent_path
        && beside drop_index parsed.item_index
  ]
]
