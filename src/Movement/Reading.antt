-- ===== src/Movement/Reading.antt =====
-- Reading lists and items at paths in src/features/documents/block-movement.ts.
use coredot_editor.Prelude.{
  ℕ, ◌-◌, ◌%◌, Bool, true, false, ◌&&◌, ◌||◌, not, List, [], ◌∷◌, Option, none, some, if◌then◌else◌,
  ltb, ◌==◌, length, get_elem?, take, drop,
}
use coredot_editor.Prelude.Options.{◌>>=◌, ◌>>◌}
use coredot_editor.Blocks.Tree.{Node, list_item, task_item, children, is_list_node}
use coredot_editor.Blocks.{unless, is_kind}
use coredot_editor.Movement.Targets.{is_integer, Location, in_list, top_level, ParsedListItemPath}

abbrev pub has_unsafe : List ℕ → Bool
has_unsafe [] = false
has_unsafe (n ∷ path) = not (is_integer n) || has_unsafe path

unfoldable pub parse_list_item_path : List ℕ → Option ParsedListItemPath
parse_list_item_path path = do
  unless (ltb (length path) 2 || not (length path % 2 == 0) || has_unsafe path)
  list ← get_elem? path 0
  item ← get_elem? path (length path - 1)
  some (record {
    item_index = item;
    list_index = list;
    parent_path = take (length path - 2) (drop 1 path);
  })

unfoldable pub parse_list_path : List ℕ → Option (ℕ × List ℕ)
parse_list_path path = do
  unless (ltb (length path) 1 || not (length path % 2 == 1) || has_unsafe path)
  list ← get_elem? path 0
  some (list, drop 1 path)

abbrev pub is_item_node : Node → Bool
is_item_node n = is_kind list_item n || is_kind task_item n

-- `.filter(isListNode)`
abbrev pub lists_of : List Node → List Node
lists_of [] = []
lists_of (n ∷ ns) = if is_list_node n then n ∷ lists_of ns else lists_of ns

-- The loop of `readListAtPath`.
unfoldable pub read_list_below : Node → List ℕ → Option Node
read_list_below list [] = some list
read_list_below list (item_index ∷ []) = none
read_list_below list (item_index ∷ ordinal ∷ path) = do
  item ← get_elem? (children list) item_index
  unless (not (is_item_node item))
  nested ← get_elem? (lists_of (children item)) ordinal
  read_list_below nested path

unfoldable pub read_list_at_path : Node → ℕ → List ℕ → Option Node
read_list_at_path doc list_index parent_path = do
  unless (not (length parent_path % 2 == 0) || has_unsafe parent_path)
  top ← get_elem? (children doc) list_index
  unless (not (is_list_node top))
  read_list_below top parent_path

abbrev pub length_of : Option Node → ℕ
length_of none = 0
length_of (some list) = length (children list)

abbrev pub list_length_at_path : Node → ℕ → List ℕ → ℕ
list_length_at_path doc list_index parent_path =
    length_of (read_list_at_path doc list_index parent_path)

unfoldable pub read_list_item_at_path : Node → List ℕ → Option Node
read_list_item_at_path doc path = do
  parsed ← parse_list_item_path path
  list ← read_list_at_path doc parsed.list_index parsed.parent_path
  item ← get_elem? (children list) parsed.item_index
  unless (not (is_item_node item))
  some item

abbrev pub top_level_length : Node → ℕ
top_level_length doc = length (children doc)

abbrev pub is_there : {A : Type 0} → Option A → Bool
is_there none = false
is_there (some x) = true

unfoldable pub is_valid_location : Node → Location → Bool
is_valid_location doc (top_level index) = is_integer index && ltb index (top_level_length doc)
is_valid_location doc (in_list path) = is_there (read_list_item_at_path doc path)

-- `Array.isArray(list?.content) && list.content.length === 1`
abbrev pub has_one : Option Node → Bool
has_one list = length_of list == 1

abbrev pub will_remove_source_top_level_list : Node → ParsedListItemPath → Bool
will_remove_source_top_level_list doc source =
    length source.parent_path == 0 && has_one (get_elem? (children doc) source.list_index)

abbrev pub will_remove_source_nested_list : Node → ParsedListItemPath → Bool
will_remove_source_nested_list doc source =
    not (length source.parent_path == 0)
    && has_one (read_list_at_path doc source.list_index source.parent_path)
