-- ===== src/Blocks/ListPath.antt =====
-- List paths of src/features/documents/tiptap-blocks.ts: they alternate the index of an item and the
-- ordinal of a nested list, and a path of odd length is refused (`isListPath`).
use coredot_editor.Prelude.{
  ℕ, zero, suc, ◌-◌, Bool, true, false, ◌&&◌, List, [], ◌∷◌, Option, none, some, or_else,
  if◌then◌else◌, holds, ltb, leb, ◌==◌, length, get_elem?, set, take, Text-discrete,
}
use coredot_editor.Prelude.Options.{◌>>=◌, fmap}
use coredot_editor.Prelude.Splice.{remove_at}
use coredot_editor.Blocks.Tree.{Node, children, content_of, with_content, is_list_node}

-- findNestedListIndex
unfoldable pub find_nested_list_index : List Node → ℕ → Option ℕ
find_nested_list_index [] ordinal = none
find_nested_list_index (n ∷ ns) ordinal =
    let rest = find_nested_list_index ns (if is_list_node n then ordinal - 1 else ordinal) in
    if is_list_node n && ordinal == 0 then some 0 else fmap suc rest

-- readNestedListNode
unfoldable pub read_nested_list_node : Node → ℕ → Option Node
read_nested_list_node item ordinal = do
  index ← find_nested_list_index (children item) ordinal
  get_elem? (children item) index

-- readListNodeAtPath
unfoldable pub read_list_node_at_path : Node → List ℕ → Option Node
read_list_node_at_path list [] = some list
read_list_node_at_path list (item_index ∷ []) = none
read_list_node_at_path list (item_index ∷ ordinal ∷ path) = do
  item ← get_elem? (children list) item_index
  nested ← read_nested_list_node item ordinal
  read_list_node_at_path nested path

-- updateListNodeAtPath: the list with `updater` made at the path, or as it was where there is no list
-- at the path.
unfoldable pub update_list_node_at_path : Node → List ℕ → (Node → Node) → Node
update_list_node_at_path list [] updater = updater list
update_list_node_at_path list (item_index ∷ []) updater = list
update_list_node_at_path list (item_index ∷ ordinal ∷ path) updater =
    or_else
      (do
        item ← get_elem? (children list) item_index
        content ← content_of item
        index ← find_nested_list_index content ordinal
        nested ← get_elem? content index
        some (
            with_content list (
              set (children list) item_index (
                with_content item
                  (set content index (update_list_node_at_path nested path updater))))))
      list

-- The content of an item without a nested list that became empty.
abbrev pub without_empty : List Node → ℕ → Node → List Node
without_empty content index nested =
    if length (children nested) == 0 then remove_at index content else set content index nested

-- removeListItemAtPath: the removed item, and the list without it.
unfoldable pub remove_list_item_at_path : Node → List ℕ → ℕ → Option (Node × Node)
remove_list_item_at_path list [] source_index = do
  item ← get_elem? (children list) source_index
  some (item, with_content list (remove_at source_index (children list)))
remove_list_item_at_path list (item_index ∷ []) source_index = none
remove_list_item_at_path list (item_index ∷ ordinal ∷ path) source_index = do
  item ← get_elem? (children list) item_index
  content ← content_of item
  index ← find_nested_list_index content ordinal
  nested ← get_elem? content index
  removal ← remove_list_item_at_path nested path source_index
  some (
    removal.0,
    with_content list (
        set (children list) item_index (with_content item (without_empty content index removal.1))),
  )

unfoldable pub same_path : List ℕ → List ℕ → Bool
same_path left right = holds (Text-discrete left right)

unfoldable pub starts_with_path : List ℕ → List ℕ → Bool
starts_with_path path [] = true
starts_with_path [] (p ∷ prefix) = false
starts_with_path (q ∷ path) (p ∷ prefix) = q == p && starts_with_path path prefix

-- `path.map((value, index) => index === at ? value - 1 : value)`
abbrev pub decrement_at : ℕ → List ℕ → List ℕ
decrement_at at [] = []
decrement_at zero (p ∷ path) = (p - 1) ∷ path
decrement_at (suc at) (p ∷ path) = p ∷ decrement_at at path

-- Whether the element of a path, if there is one, is above a number.
abbrev pub element_above : List ℕ → ℕ → ℕ → Bool
element_above path at n = elim (get_elem? path at) [ none ↦ false | some value ↦ ltb n value ]

-- adjustListPathAfterRemoval
unfoldable pub adjust_list_path_after_removal : List ℕ → List ℕ → ℕ → Bool → List ℕ
adjust_list_path_after_removal target source source_index source_list_removed =
    let at = length source - 1 in
    let ordinal = or_else (get_elem? source at) 0 in
    if source_list_removed
      && leb 2 (length source)
      && starts_with_path target (take at source)
      && element_above target at ordinal
    then decrement_at at target
    else if ltb (length source) (length target)
        && starts_with_path target source
        && element_above target (length source) source_index
    then decrement_at (length source) target
    else target

-- resolveListPath: the given path, or the legacy path of item indices.
abbrev pub with_ordinals : List ℕ → List ℕ
with_ordinals [] = []
with_ordinals (item_index ∷ path) = item_index ∷ 0 ∷ with_ordinals path

unfoldable pub resolve_list_path : Option (List ℕ) → List ℕ → List ℕ
resolve_list_path none legacy = with_ordinals legacy
resolve_list_path (some path) legacy = path
