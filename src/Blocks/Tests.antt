-- ===== src/Blocks/Tests.antt =====
-- Runs of the block operations, and the theorems at a concrete document.
use coredot_editor.Prelude.{
  List, min, ltb, if◌then◌else◌, take, drop, ◌++◌, ◌-◌, ℕ, ◌+◌, ◌≡◌, refl, true, [], ◌∷◌, Option,
  none, some, length, or_else, text_key, ◌↔◌, ◌≢◌, ◌<◌, arith, get_elem?, ℕ_discrete,
}
use coredot_editor.Prelude.Splice.{remove_at}
use coredot_editor.Blocks.Tree.{
  Header, Node, leaf, branch, Kind-discrete, is_list_node, bullet_list, ordered_list, list_item,
  paragraph, text_run, other, nodes, children, weight, IsTidy,
}
use coredot_editor.Blocks.ListPath.{
  resolve_list_path, read_list_node_at_path, update_list_node_at_path, remove_list_item_at_path,
}
use coredot_editor.Blocks.{
  plain, is_kind, create_top_level_blocks_from_list_item, clamp, move_inside, move_top_level_block,
  normalize_list_item_for_target_list, normalize_list_item_content, create_list_item_from_block,
  create_continuation_list_node,
}
use coredot_editor.Blocks.Moves.{
  MoveListItemInput, IndentedItem, convert_list_item_to_top_level_paragraph, indent_list_item,
  indented_content, reusable_list, move_list_item_across, move_list_item,
  move_list_item_to_top_level, move_top_level_block_to_list_item, move_top_level_block_between,
}
use coredot_editor.Blocks.Conserve.{move_top_level_block-weight}
use coredot_editor.Blocks.Split.{move_top_level_block_to_list_item-weight}
use coredot_editor.Blocks.Landing.{
  landed, back_gap, move_top_level_block_lands, move_top_level_block_iff, move_top_level_block_back,
}
use coredot_editor.Blocks.Parts.{
  IsSplit, move_top_level_block_between-IsSplit, convert_list_item_to_top_level_paragraph-IsSplit,
}
use coredot_editor.Blocks.Items.{move_list_item-weight}

abbrev run : ℕ → Node
run n = leaf (record (plain text_run) { rest = n })

abbrev words : ℕ → Node
words n = branch (plain paragraph) (nodes (run n ∷ []))

abbrev entry : ℕ → Node
entry n = branch (plain list_item) (nodes (words n ∷ []))

-- Two lists and a paragraph; a run has the length that its header holds.
abbrev doc : Node
doc = branch (plain (other 0)) (
    nodes (
      branch (plain bullet_list) (nodes (entry 3 ∷ entry 4 ∷ []))
      ∷ words 5
      ∷ branch (plain ordered_list) (nodes (entry 6 ∷ []))
      ∷ []))

abbrev size : Header → ℕ
size h = h.rest

doc-weight : weight size doc ≡ 18
unfolding weight
doc-weight = refl

abbrev result : Option Node → Node
result o = or_else o doc

abbrev swapped : Node
swapped = result (move_top_level_block doc 0 2)

swapped_runs : move_top_level_block doc 0 2 ≡ some swapped
unfolding move_top_level_block move_inside
swapped_runs = refl

move_top_level_block-weight_example : weight size swapped ≡ weight size doc
move_top_level_block-weight_example = move_top_level_block-weight size doc swapped 0 2 swapped_runs

-- The second entry goes to the end of the ordered list.
abbrev across : MoveListItemInput
across = record {
  drop_index = 1;
  list_index = 0;
  source_index = 1;
  source_list_path = none;
  source_parent_path = [];
  target_list_index = some 2;
  target_list_path = none;
  target_parent_path = [];
}

abbrev renumbered : Node
renumbered = result (move_list_item doc across)

renumbered_runs : move_list_item doc across ≡ some renumbered
unfolding resolve_list_path move_list_item move_list_item_across remove_list_item_at_path
    read_list_node_at_path is_list_node normalize_list_item_for_target_list update_list_node_at_path
    Kind-discrete ℕ_discrete
renumbered_runs = refl

doc-IsTidy : IsTidy doc
unfolding IsTidy is_list_node
doc-IsTidy = ground arith

move_list_item-weight_example : weight size renumbered ≡ weight size doc
move_list_item-weight_example =
    move_list_item-weight size doc renumbered across doc-IsTidy renumbered_runs

abbrev lifted : Node
lifted = result (move_list_item_to_top_level doc 3 0 0 none [])

lifted_runs : move_list_item_to_top_level doc 3 0 0 none [] ≡ some lifted
unfolding resolve_list_path move_list_item_to_top_level remove_list_item_at_path
    read_list_node_at_path
lifted_runs = refl

abbrev entered : Node
entered = result (move_top_level_block_to_list_item doc 0 2 1 none [])

entered_runs : move_top_level_block_to_list_item doc 0 2 1 none [] ≡ some entered
unfolding resolve_list_path move_top_level_block_to_list_item read_list_node_at_path
    update_list_node_at_path is_list_node create_list_item_from_block normalize_list_item_content
    Kind-discrete ℕ_discrete
entered_runs = refl

move_top_level_block_to_list_item-weight_example : weight size entered ≡ weight size doc
move_top_level_block_to_list_item-weight_example =
    move_top_level_block_to_list_item-weight size doc entered 0 2 1 none [] entered_runs

abbrev parted : Node
parted = result (move_top_level_block_between doc 1 0 1)

parted_runs : move_top_level_block_between doc 1 0 1 ≡ some parted
unfolding move_top_level_block_between is_list_node create_continuation_list_node Kind-discrete
    ℕ_discrete
parted_runs = refl

first_is : get_elem? (children doc) 0 ≡ some (result (get_elem? (children doc) 0))
first_is = refl

move_top_level_block_lands_example :
    let gap : ℕ = min 2 (length (children doc)) in
    let first : Node = result (get_elem? (children doc) 0) in
    children swapped ≡ (
      if ltb 0 gap
      then remove_at 0 (take gap (children doc)) ++ first ∷ drop gap (children doc)
      else take gap (children doc) ++ first ∷ remove_at (0 - gap) (drop gap (children doc)))
move_top_level_block_lands_example =
    move_top_level_block_lands doc swapped (result (get_elem? (children doc) 0)) 0 2 first_is
      swapped_runs

move_top_level_block_iff_example : ((doc' : Node) × (move_top_level_block doc 2 3 ≡ some doc')) ↔ (
    (2 < length (children doc))
    × (clamp 3 (length (children doc)) ≢ 2)
    × (clamp 3 (length (children doc)) ≢ 2 + 1))
move_top_level_block_iff_example = move_top_level_block_iff doc 2 3

move_top_level_block_back_example :
    move_top_level_block swapped (landed doc 0 2) (back_gap doc 0 2) ≡ some doc
move_top_level_block_back_example = move_top_level_block_back doc swapped 0 2 swapped_runs

abbrev unindented : IndentedItem
unindented = record { content_json = doc; item_index = 0; nested_list_ordinal = 0 }

abbrev indented : IndentedItem
indented = or_else (indent_list_item doc 0 1 none []) unindented

indented_runs : indent_list_item doc 0 1 none [] ≡ some indented
unfolding resolve_list_path indent_list_item indented_content reusable_list read_list_node_at_path
    update_list_node_at_path is_list_node normalize_list_item_for_target_list Kind-discrete
    ℕ_discrete
indented_runs = refl

abbrev first_list : Node
first_list = branch (plain bullet_list) (nodes (entry 3 ∷ entry 4 ∷ []))

first_list_is_list : is_list_node first_list ≡ true
unfolding is_list_node
first_list_is_list = refl

abbrev unlisted : Node
unlisted = result (convert_list_item_to_top_level_paragraph doc 0 1)

unlisted_runs : convert_list_item_to_top_level_paragraph doc 0 1 ≡ some unlisted
unfolding convert_list_item_to_top_level_paragraph create_top_level_blocks_from_list_item
    create_continuation_list_node is_list_node Kind-discrete ℕ_discrete
unlisted_runs = refl

words_is_paragraph : is_kind paragraph (words 4) ≡ true
unfolding Kind-discrete
words_is_paragraph = refl

convert_list_item_to_top_level_paragraph-IsSplit_example :
    (before : List Node) × (after_ : List Node) × (parts : List Node) × (children doc
      ≡ before ++ first_list ∷ after_)
    × (length before ≡ 0)
    × (children unlisted ≡ before ++ (parts ++ after_))
    × IsSplit first_list (entry 3 ∷ []) (words 4 ∷ []) [] parts
convert_list_item_to_top_level_paragraph-IsSplit_example =
    convert_list_item_to_top_level_paragraph-IsSplit doc first_list (entry 4) (words 4) unlisted 0 1
      refl refl refl words_is_paragraph unlisted_runs

move_top_level_block_between-IsSplit_example :
    (before : List Node) × (after_ : List Node) × (parts : List Node) × (remove_at 1 (children doc)
      ≡ before ++ first_list ∷ after_)
    × (length before ≡ (if ltb 1 0 then 0 - 1 else 0))
    × (children parted ≡ before ++ (parts ++ after_))
    × IsSplit first_list
        (entry 3 ∷ [])
        (result (get_elem? (children doc) 1) ∷ [])
        (entry 4 ∷ [])
        parts
move_top_level_block_between-IsSplit_example =
    move_top_level_block_between-IsSplit doc parted (result (get_elem? (children doc) 1)) first_list
      1 0 1 refl refl parted_runs
