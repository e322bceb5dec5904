-- ===== src/Blocks/Moves.antt =====
-- The operations of src/features/documents/tiptap-blocks.ts on list items, and between list items and
-- top-level blocks.
use coredot_editor.Prelude.{
  ℕ, suc, ◌+◌, ◌-◌, Bool, false, ◌&&◌, ◌||◌, not, List, [], ◌∷◌, ◌++◌, Option, none, some, or_else,
  if◌then◌else◌, ltb, leb, ◌==◌, length, get_elem?, set, take, drop,
}
use coredot_editor.Prelude.Options.{◌>>=◌, ◌>>◌}
use coredot_editor.Prelude.Splice.{remove_at, insert_at}
use coredot_editor.Blocks.Tree.{Node, children, content_of, with_content, is_list_node, header}
use coredot_editor.Blocks.ListPath.{
  read_list_node_at_path, update_list_node_at_path, remove_list_item_at_path, same_path,
  starts_with_path, adjust_list_path_after_removal, resolve_list_path,
}
use coredot_editor.Blocks.{
  unless, clamp, is_kind, move_inside, normalize_list_item_for_target_list,
  create_list_item_from_block, create_continuation_list_node,
  create_top_level_blocks_from_list_item,
}

pub record MoveListItemInput : Type 0 where
  pub drop_index : ℕ
  pub list_index : ℕ
  pub source_index : ℕ
  pub source_list_path : Option (List ℕ)
  pub source_parent_path : List ℕ
  pub target_list_index : Option ℕ
  pub target_list_path : Option (List ℕ)
  pub target_parent_path : List ℕ

pub record IndentedItem : Type 0 where
  pub content_json : Node
  pub item_index : ℕ
  pub nested_list_ordinal : ℕ

abbrev pub list_count : List Node → ℕ
list_count [] = 0
list_count (n ∷ ns) = (if is_list_node n then 1 else 0) + list_count ns

-- Whether the last child of the previous item takes the indented item.
unfoldable pub reusable_list : Node → List Node → Option Node
reusable_list source_list content = elim (get_elem? content (length content - 1)) [
  | none ↦ none
  | some terminal ↦
      if is_list_node terminal && is_kind (header source_list).kind terminal
      then some terminal
      else none
]

-- The content of the previous item with the indented item in its last list.
unfoldable pub indented_content : Node → List Node → Node → List Node
indented_content source_list content moved = elim (reusable_list source_list content) [
  | none ↦
      content
      ++ with_content source_list
          (normalize_list_item_for_target_list moved (with_content source_list []) ∷ [])
        ∷ []
  | some terminal ↦ set content (length content - 1) (
      with_content terminal
        (children terminal ++ normalize_list_item_for_target_list moved terminal ∷ []))
]

-- indentListItemInTiptapJson
unfoldable pub indent_list_item : Node → ℕ → ℕ → Option (List ℕ) → List ℕ → Option IndentedItem
indent_list_item doc list_index source_index source_list_path source_parent_path = do
  let path = resolve_list_path source_list_path source_parent_path
  top ← get_elem? (children doc) list_index
  source_list ← read_list_node_at_path top path
  let list_content = children source_list
  unless (source_index == 0 || leb (length list_content) source_index)
  moved ← get_elem? list_content source_index
  previous ← get_elem? list_content (source_index - 1)
  previous_content ← content_of previous
  let reused = reusable_list source_list previous_content
  let next =
      set (remove_at source_index list_content) (source_index - 1)
        (with_content previous (indented_content source_list previous_content moved))
  some (record {
    content_json = with_content doc (
        set (children doc) list_index
          (update_list_node_at_path top path (λ list. with_content list next)));
    item_index = elim reused [ none ↦ 0 | some terminal ↦ length (children terminal) ];
    nested_list_ordinal =
        list_count previous_content - elim reused [ none ↦ 0 | some terminal ↦ 1 ];
  })

-- moveListItemInsideSameParent
unfoldable pub move_list_item_inside_same_parent : Node → Node → ℕ → ℕ → ℕ → List ℕ → Option Node
move_list_item_inside_same_parent doc list drop_index list_index source_index path = do
  source_list ← read_list_node_at_path list path
  next ← move_inside (children source_list) source_index drop_index
  some (
      with_content doc (
        set (children doc) list_index
          (update_list_node_at_path list path (λ target. with_content target next))))

-- The top-level content without a list that became empty, or with its new state.
abbrev pub replace_or_remove : List Node → ℕ → Node → List Node
replace_or_remove content list_index list =
    if length (children list) == 0
    then remove_at list_index content
    else set content list_index list

-- moveListItemAcrossTopLevelLists
unfoldable pub move_list_item_across : Node → ℕ → ℕ → ℕ → List ℕ → ℕ → List ℕ → Option Node
move_list_item_across doc drop_index list_index source_index source_path target_index target_path =
    do
      let content = children doc
      source_top ← get_elem? content list_index
      target_top ← get_elem? content target_index
      unless (not (is_list_node source_top) || not (is_list_node target_top))
      removal ← remove_list_item_at_path source_top source_path source_index
      let next = replace_or_remove content list_index removal.1
      let adjusted =
          if length (children removal.1) == 0 && ltb list_index target_index
          then target_index - 1
          else target_index
      adjusted_top ← get_elem? next adjusted
      unless (not (is_list_node adjusted_top))
      target_list ← read_list_node_at_path adjusted_top target_path
      let target_content = children target_list
      let inserted =
          insert_at (clamp drop_index (length target_content))
            (normalize_list_item_for_target_list removal.0 target_list) target_content
      some (
          with_content doc (
            set next adjusted (
              update_list_node_at_path adjusted_top target_path
                (λ list. with_content list inserted))))

-- Whether the source list goes with its only item.
abbrev pub has_one_item : Option Node → Bool
has_one_item none = false
has_one_item (some list) = length (children list) == 1

-- The last part of `moveListItemInTiptapJson`: to another list below the same top-level list.
unfoldable pub move_list_item_below : Node → Node → ℕ → ℕ → ℕ → List ℕ → List ℕ → Option Node
move_list_item_below doc list drop_index list_index source_index source_path target_path = do
  unless (starts_with_path target_path (source_path ++ source_index ∷ []))
  let removed_list = has_one_item (read_list_node_at_path list source_path)
  removal ← remove_list_item_at_path list source_path source_index
  let adjusted = adjust_list_path_after_removal target_path source_path source_index removed_list
  target_list ← read_list_node_at_path removal.1 adjusted
  let target_content = children target_list
  let inserted = insert_at (clamp drop_index (length target_content)) removal.0 target_content
  some (
      with_content doc (
        set (children doc) list_index
          (update_list_node_at_path removal.1 adjusted (λ target. with_content target inserted))))

-- moveListItemInTiptapJson
unfoldable pub move_list_item : Node → MoveListItemInput → Option Node
move_list_item doc input = do
  let source_path = resolve_list_path input.source_list_path input.source_parent_path
  let target_path = resolve_list_path input.target_list_path input.target_parent_path
  let target_index = or_else input.target_list_index input.list_index
  list ← get_elem? (children doc) input.list_index
  if not (target_index == input.list_index)
      then move_list_item_across doc input.drop_index input.list_index input.source_index
          source_path target_index target_path
      else if same_path source_path target_path
      then move_list_item_inside_same_parent doc list input.drop_index input.list_index
          input.source_index source_path
      else move_list_item_below doc list input.drop_index input.list_index input.source_index
          source_path target_path

-- moveListItemToTopLevelInTiptapJson
unfoldable pub move_list_item_to_top_level :
    Node → ℕ → ℕ → ℕ → Option (List ℕ) → List ℕ → Option Node
move_list_item_to_top_level doc drop_index list_index source_index source_list_path
      source_parent_path =
    do
      let path = resolve_list_path source_list_path source_parent_path
      let content = children doc
      list ← get_elem? content list_index
      source_list ← read_list_node_at_path list path
      let list_content = children source_list
      unless (leb (length list_content) source_index)
      let clamped = clamp drop_index (length content)
      unless (
          length path == 0
          && length list_content == 1
          && (clamped == list_index || clamped == list_index + 1))
      removal ← remove_list_item_at_path list path source_index
      let moved_list = with_content source_list (removal.0 ∷ [])
      let adjusted =
          if length (children removal.1) == 0 && ltb list_index clamped
          then clamped - 1
          else clamped
      some (
          with_content doc
            (insert_at adjusted moved_list (replace_or_remove content list_index removal.1)))

-- moveTopLevelBlockToListItemInTiptapJson
unfoldable pub move_top_level_block_to_list_item :
    Node → ℕ → ℕ → ℕ → Option (List ℕ) → List ℕ → Option Node
move_top_level_block_to_list_item doc drop_index list_index source_index target_list_path
      target_parent_path =
    do
      let path = resolve_list_path target_list_path target_parent_path
      let content = children doc
      source ← get_elem? content source_index
      list ← get_elem? content list_index
      unless (source_index == list_index || not (is_list_node list))
      let adjusted = if ltb source_index list_index then list_index - 1 else list_index
      let next = remove_at source_index content
      adjusted_list ← get_elem? next adjusted
      unless (not (is_list_node adjusted_list))
      target_list ← read_list_node_at_path adjusted_list path
      let target_content = children target_list
      let inserted =
          insert_at (clamp drop_index (length target_content))
            (create_list_item_from_block source target_list) target_content
      some (
          with_content doc (
            set next adjusted (
              update_list_node_at_path adjusted_list path
                (λ target. with_content target inserted))))

-- The lists before and after a block that splits a list, where they are not empty.
abbrev pub list_before : Node → List Node → List Node
list_before list [] = []
list_before list (item ∷ items) = with_content list (item ∷ items) ∷ []

abbrev pub list_after : Node → List Node → ℕ → List Node
list_after list [] skipped = []
list_after list (item ∷ items) skipped =
    create_continuation_list_node list (item ∷ items) skipped ∷ []

-- `content.splice(index, 1, ...replacements)`
abbrev pub replace_at : ℕ → List Node → List Node → List Node
replace_at index replacements content =
    take index content ++ (replacements ++ drop (suc index) content)

-- moveTopLevelBlockBetweenListItemsInTiptapJson
unfoldable pub move_top_level_block_between : Node → ℕ → ℕ → ℕ → Option Node
move_top_level_block_between doc drop_index list_index source_index = do
  let content = children doc
  source ← get_elem? content source_index
  list ← get_elem? content list_index
  unless (source_index == list_index || not (is_list_node list))
  let clamped = clamp drop_index (length (children list))
  unless (length (children list) == 0)
  let adjusted = if ltb source_index list_index then list_index - 1 else list_index
  let next = remove_at source_index content
  adjusted_list ← get_elem? next adjusted
  unless (not (is_list_node adjusted_list))
  let before = take clamped (children adjusted_list)
  let remaining = drop clamped (children adjusted_list)
  some (
      with_content doc (
        replace_at adjusted
          (list_before adjusted_list before
            ++ source ∷ list_after adjusted_list remaining (length before))
          next))

-- convertListItemToTopLevelParagraphInTiptapJson
unfoldable pub convert_list_item_to_top_level_paragraph : Node → ℕ → ℕ → Option Node
convert_list_item_to_top_level_paragraph doc list_index source_index = do
  list ← get_elem? (children doc) list_index
  unless (not (is_list_node list))
  item ← get_elem? (children list) source_index
  let before = take source_index (children list)
  let remaining = drop (suc source_index) (children list)
  some (
      with_content doc (
        replace_at list_index
          (list_before list before
            ++ (create_top_level_blocks_from_list_item item
                ++ list_after list remaining (length before + 1)))
          (children doc)))
