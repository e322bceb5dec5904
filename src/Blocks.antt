-- ===== src/Blocks.antt =====
-- src/features/documents/tiptap-blocks.ts: moving, indenting and converting the blocks of a document.
-- Indices are natural numbers; `none` stands for `{ changed: false }`, after which the caller keeps the
-- document, and `some` for the changed document.
pub mod Tree
pub mod ListPath
pub mod Weight
pub mod Moves
pub mod Conserve
pub mod Between
pub mod Split
pub mod Items
pub mod Landing
pub mod Indent
pub mod Parts
mod Tests
use coredot_editor.Prelude.{
  ℕ, zero, suc, ◌+◌, ◌-◌, Bool, true, false, ◌&&◌, ◌||◌, not, List, [], ◌∷◌, ◌++◌, Option, none,
  some, or_else, Text, codes, get, insert, text_key, min, if◌then◌else◌, holds, ltb, leb, ◌==◌,
  length, get_elem?, set, take, drop, map,
}
use coredot_editor.Prelude.Options.{◌>>=◌, ◌>>◌, fmap}
use coredot_editor.Prelude.Splice.{remove_at, insert_at}
use Tree.{
  Kind, ordered_list, task_list, list_item, task_item, paragraph, heading, Kind-discrete, Value,
  Finite, natural, below, natural_and, below_and, boolean, number, opaque, Header, Node, leaf,
  children, content_of, header, with_content, is_list_node,
}
use ListPath.{
  find_nested_list_index, read_list_node_at_path, update_list_node_at_path,
  remove_list_item_at_path, same_path, starts_with_path, adjust_list_path_after_removal,
  resolve_list_path,
}

-- `if (!test) return { changed: false }`
abbrev pub unless : Bool → Option (Unit {0})
unless true = none
unless false = some tt

-- clamp(value, 0, max)
abbrev pub clamp : ℕ → ℕ → ℕ
clamp value max = min value max

abbrev pub is_kind : Kind → Node → Bool
is_kind k n = holds (Kind-discrete (header n).kind k)

-- The header of a node that the code makes.
abbrev pub plain : Kind → Header
plain k = record { kind = k; attrs = none; rest = 0 }

abbrev pub empty_paragraph : Node
empty_paragraph = leaf (plain paragraph)

-- `{ ...node, type, attrs }` around some content.
abbrev pub with_header : Kind → Option (List (Text × Value)) → Node → List Node → Node
with_header k attrs n content =
    with_content (leaf (record (header n) { kind = k; attrs = attrs })) content

abbrev pub truth : Option Value → Bool
truth none = false
truth (some (boolean b)) = b
truth (some (number (natural n))) = not (n == 0)
truth (some (number n)) = true
truth (some (opaque t n)) = t

abbrev pub attr : Text → Node → Option Value
attr name n = do attrs ← (header n).attrs; get name attrs

-- normalizeListItemForTargetList
unfoldable pub normalize_list_item_for_target_list : Node → Node → Node
normalize_list_item_for_target_list item target =
    let content = or_else (content_of item) (empty_paragraph ∷ []) in
    if is_kind task_list target
    then with_header task_item
        (some ((codes "checked", boolean (truth (attr (codes "checked") item))) ∷ [])) item content
    else with_header list_item none item content

-- normalizeListItemContent
unfoldable pub normalize_list_item_content : Node → List Node
normalize_list_item_content block =
    if is_kind paragraph block
    then block ∷ []
    else if is_kind heading block
    then elim (content_of block) [
      | none ↦ empty_paragraph ∷ []
      | some content ↦ with_content empty_paragraph content ∷ []
    ]
    else empty_paragraph ∷ block ∷ []

-- createListItemFromBlock
unfoldable pub create_list_item_from_block : Node → Node → Node
create_list_item_from_block block target =
    let content = normalize_list_item_content block in
    if is_kind task_list target
    then with_content
        (leaf (record (plain task_item) { attrs = some ((codes "checked", boolean false) ∷ []) }))
        content
    else with_content (leaf (plain list_item)) content

-- readOrderedListStart
unfoldable pub read_ordered_list_start : Node → Finite
read_ordered_list_start list = elim (attr (codes "start") list) [
  | some (number n) ↦ n
  | _ ↦ natural 1
]

-- `start + count`, without rounding.
unfoldable pub plus : Finite → ℕ → Finite
plus (natural n) k = natural (n + k)
plus (below n) k = if leb k n then below (n - k) else natural (k - (n + 1))
plus (natural_and n f) k = natural_and (n + k) f
plus (below_and n f) k = if leb k n then below_and (n - k) f else natural_and (k - (n + 1)) f

-- createContinuationListNode
unfoldable pub create_continuation_list_node : Node → List Node → ℕ → Node
create_continuation_list_node list content skipped =
    if is_kind ordered_list list
    then with_header ordered_list
        (some (
          insert (codes "start") (number (plus (read_ordered_list_start list) skipped))
            (or_else (header list).attrs [])))
        list content
    else with_content list content

-- createTopLevelBlocksFromListItem
unfoldable pub create_top_level_blocks_from_list_item : Node → List Node
create_top_level_blocks_from_list_item item = elim (children item) [
  | [] ↦ empty_paragraph ∷ []
  | first ∷ remaining ↦ (if is_kind paragraph first then first else empty_paragraph) ∷ remaining
]

-- The index at which an element lands that moves to a gap of its own list.
abbrev pub landing : ℕ → ℕ → ℕ
landing source_index drop_index = if ltb source_index drop_index then drop_index - 1 else drop_index

-- The shared body of `moveTopLevelBlockInTiptapJson` and `moveListItemInsideSameParent`: the content
-- with one element moved, unless it is out of range or would stay where it is.
unfoldable pub move_inside : List Node → ℕ → ℕ → Option (List Node)
move_inside content source_index drop_index = do
  unless (leb (length content) source_index)
  let clamped = clamp drop_index (length content)
  unless (clamped == source_index || clamped == source_index + 1)
  moved ← get_elem? content source_index
  some (insert_at (landing source_index clamped) moved (remove_at source_index content))

-- moveTopLevelBlockInTiptapJson
unfoldable pub move_top_level_block : Node → ℕ → ℕ → Option Node
move_top_level_block doc source_index drop_index = do
  content ← move_inside (children doc) source_index drop_index
  some (with_content doc content)
