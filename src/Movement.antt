-- ===== src/Movement.antt =====
-- src/features/documents/block-movement.ts: a move of a block from a location to a target, given as a
-- neighbour, a direction or a slot. `JSON.stringify` is the parameter `stringify`.
pub mod Targets
pub mod Reading
pub mod Slots
pub mod Weight
pub mod Destination
pub mod Staleness
pub mod Agreement
mod Tests
use coredot_editor.Prelude.{
  ℕ, ◌+◌, ◌-◌, ◌%◌, ◌^◌, Bool, true, false, ◌&&◌, ◌||◌, not, List, [], ◌∷◌, ◌++◌, Option, none,
  some, or_else, Text, Text-discrete, if◌then◌else◌, holds, ltb, leb, ◌==◌, length, get_elem?, take,
  drop,
}
use coredot_editor.Prelude.Options.{◌>>=◌, ◌>>◌, fmap}
use coredot_editor.Blocks.Tree.{
  Node, Kind, list_item, task_item, children, content_of, is_list_node,
}
use coredot_editor.Blocks.ListPath.{same_path, starts_with_path, adjust_list_path_after_removal}
use coredot_editor.Blocks.{unless, clamp, is_kind, move_top_level_block}
use coredot_editor.Blocks.Moves.{
  MoveListItemInput, IndentedItem, indent_list_item, move_list_item, move_list_item_to_top_level,
  move_top_level_block_to_list_item, move_top_level_block_between,
}
use coredot_editor.Movement.Targets.{
  Location, in_list, top_level, Placement, before, after, Direction, down, indent, outdent, up,
  Target, between_items, beside_item, relative, beside_top_level, top_level_slot, list_item_slot,
  between_items_slot, Intent, Reason, invalid, same_slot, stale, MoveResult, unchanged, changed,
  NormalizedTarget, between, into_list, into_top_level, ParsedListItemPath,
}
use coredot_editor.Movement.Reading.{
  parse_list_item_path, parse_list_path, read_list_at_path, length_of, list_length_at_path,
  read_list_item_at_path, top_level_length, is_valid_location, will_remove_source_top_level_list,
  will_remove_source_nested_list,
}
use coredot_editor.Movement.Slots.{normalize_target, is_same_slot}

abbrev pub moved_top_level_index : ℕ → ℕ → ℕ → ℕ
moved_top_level_index source_index drop_index content_length =
    let clamped = clamp drop_index content_length in
    if ltb source_index clamped then clamped - 1 else clamped

abbrev pub moved_top_level_index_inside_split_list : Node → ℕ → ℕ → ℕ → ℕ
moved_top_level_index_inside_split_list doc source_index drop_index list_index =
    let clamped = clamp drop_index (length_of (get_elem? (children doc) list_index)) in
    let adjusted = if ltb source_index list_index then list_index - 1 else list_index in
    adjusted + (if ltb 0 clamped then 1 else 0)

-- The result of an operation of tiptap-blocks.ts: where it changed nothing, the reason given.
abbrev pub result_of : Option Node → Reason → Location → MoveResult
result_of none reason destination = unchanged reason
result_of (some doc) reason destination = changed doc destination

-- moveTopLevelSource
unfoldable pub move_top_level_source : Node → ℕ → NormalizedTarget → MoveResult
move_top_level_source doc source_index (into_top_level drop_index) =
    result_of (move_top_level_block doc source_index drop_index) invalid
      (top_level (moved_top_level_index source_index drop_index (top_level_length doc)))
move_top_level_source doc source_index (between drop_index list_index) =
    result_of (move_top_level_block_between doc drop_index list_index source_index) invalid
      (top_level (moved_top_level_index_inside_split_list doc source_index drop_index list_index))
move_top_level_source doc source_index (into_list drop_index indented list_index parent_path) =
    result_of
      (move_top_level_block_to_list_item doc drop_index list_index source_index (some parent_path)
        [])
      invalid
      (in_list (
        (if ltb source_index list_index then list_index - 1 else list_index)
        ∷ (parent_path ++ drop_index ∷ [])))

-- The index of the list that `moveListItemSource` moved an item to, in the new document.
abbrev pub destination_list_index : Node → ParsedListItemPath → ℕ → ℕ
destination_list_index doc source list_index =
    if not (source.list_index == list_index)
      && will_remove_source_top_level_list doc source
      && ltb source.list_index list_index
    then list_index - 1
    else list_index

-- adjustListParentPathAfterRemoval, which is written as `adjustListPathAfterRemoval` of tiptap-blocks.ts.
abbrev pub adjust_list_parent_path_after_removal : List ℕ → List ℕ → ℕ → Bool → List ℕ
adjust_list_parent_path_after_removal target_parent_path source_parent_path source_index
      source_list_removed =
    adjust_list_path_after_removal target_parent_path source_parent_path source_index
      source_list_removed

-- The path of the list that an item moved to, in the new document.
abbrev pub adjusted_parent_path : Node → ParsedListItemPath → ℕ → List ℕ → List ℕ
adjusted_parent_path doc source list_index parent_path =
    if source.list_index == list_index
    then adjust_list_parent_path_after_removal parent_path source.parent_path source.item_index
        (will_remove_source_nested_list doc source)
    else parent_path

abbrev pub destination_index : ParsedListItemPath → ℕ → ℕ → List ℕ → ℕ
destination_index source drop_index list_index parent_path =
    if source.list_index == list_index
      && same_path source.parent_path parent_path
      && ltb source.item_index drop_index
    then drop_index - 1
    else drop_index

abbrev pub indented_result : ParsedListItemPath → Option IndentedItem → MoveResult
indented_result source none = unchanged same_slot
indented_result source (some result) = changed result.content_json (
    in_list (
      source.list_index
      ∷ (source.parent_path
          ++ (source.item_index - 1) ∷ result.nested_list_ordinal ∷ result.item_index ∷ [])))

-- moveListItemSource, and the guard of its caller against a target between items.
unfoldable pub move_list_item_source : Node → ParsedListItemPath → NormalizedTarget → MoveResult
move_list_item_source doc source (between drop_index list_index) = unchanged invalid
move_list_item_source doc source (into_top_level drop_index) =
    result_of
      (move_list_item_to_top_level doc drop_index source.list_index source.item_index
        (some source.parent_path) [])
      invalid
      (in_list (
        (if will_remove_source_top_level_list doc source
          then moved_top_level_index source.list_index drop_index (top_level_length doc)
          else clamp drop_index (top_level_length doc))
        ∷ 0
        ∷ []))
move_list_item_source doc source (into_list drop_index true list_index parent_path) =
    indented_result source
      (indent_list_item doc source.list_index source.item_index (some source.parent_path) [])
move_list_item_source doc source (into_list drop_index false list_index parent_path) =
    if source.list_index == list_index
      && starts_with_path parent_path (source.parent_path ++ source.item_index ∷ [])
    then unchanged invalid
    else result_of
        (move_list_item doc (record {
          drop_index = drop_index;
          list_index = source.list_index;
          source_index = source.item_index;
          source_list_path = some source.parent_path;
          source_parent_path = [];
          target_list_index = some list_index;
          target_list_path = some parent_path;
          target_parent_path = [];
        }))
        invalid
        (in_list (
          destination_list_index doc source list_index
          ∷ (adjusted_parent_path doc source list_index parent_path
              ++ destination_index source drop_index list_index parent_path ∷ [])))

-- The source is a block of the document or an item of a list.
unfoldable pub move_source : Node → Location → NormalizedTarget → MoveResult
move_source doc (top_level index) target = move_top_level_source doc index target
move_source doc (in_list path) target = elim (parse_list_item_path path) [
  | none ↦ unchanged invalid
  | some source ↦ move_list_item_source doc source target
]

module _ (stringify : Node → Text) where
  -- `intent.documentSignature !== undefined && intent.documentSignature !== ...`
  unfoldable pub is_stale : Node → Option Text → Bool
  is_stale doc none = false
  is_stale doc (some signature) = not (holds (Text-discrete signature (stringify doc)))

  -- moveDocumentBlock
  unfoldable pub move_document_block : Node → Intent → MoveResult
  move_document_block doc intent =
      if is_stale doc intent.document_signature
      then unchanged stale
      else if not (is_valid_location doc intent.source)
      then unchanged invalid
      else elim (normalize_target doc intent.source intent.target) [
        | none ↦ unchanged invalid
        | some target ↦
            if is_same_slot doc intent.source target
            then unchanged same_slot
            else move_source doc intent.source target
      ]
