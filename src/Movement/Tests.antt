-- ===== src/Movement/Tests.antt =====
-- Runs of moves, and the theorems at a concrete document.
use coredot_editor.Prelude.{
  ℕ, ◌≡◌, ◌≢◌, ◌↔◌, refl, [], ◌∷◌, none, some, Text, ℕ_discrete, get_elem?, arith, text_key, true,
}
use coredot_editor.Prelude.Splice.{remove_at}
use coredot_editor.Blocks.Tree.{
  Header, Node, leaf, branch, Kind-discrete, is_list_node, bullet_list, list_item, paragraph,
  text_run, other, nodes, children, weight, IsTidy,
}
use coredot_editor.Blocks.ListPath.{
  resolve_list_path, read_list_node_at_path, update_list_node_at_path,
}
use coredot_editor.Blocks.{
  plain, move_inside, move_top_level_block, normalize_list_item_for_target_list,
}
use coredot_editor.Blocks.Moves.{indent_list_item, indented_content, reusable_list}
use coredot_editor.Movement.Targets.{
  in_list, top_level, relative, top_level_slot, up, down, indent, Intent, MoveResult, unchanged,
  changed, stale, into_top_level,
}
use coredot_editor.Movement.Reading.{
  parse_list_item_path, read_list_at_path, read_list_below, read_list_item_at_path,
  is_valid_location,
}
use coredot_editor.Movement.Slots.{normalize_target, normalize_relative_target, is_same_slot}
use coredot_editor.Movement.{
  move_source, move_top_level_source, move_list_item_source, is_stale, move_document_block,
}
use coredot_editor.Movement.Agreement.{read_list_at_path-read_list_node_at_path}
use coredot_editor.Movement.Weight.{move_document_block-weight}
use coredot_editor.Movement.Destination.{move_document_block_lands, move_document_block_up_down}
use coredot_editor.Movement.Staleness.{move_document_block_stale_iff}

abbrev words : ℕ → Node
words n = branch (plain paragraph) (nodes (leaf (record (plain text_run) { rest = n }) ∷ []))

abbrev entry : ℕ → Node
entry n = branch (plain list_item) (nodes (words n ∷ []))

-- A list of two items and a paragraph.
abbrev doc : Node
doc =
    branch (plain (other 0))
      (nodes (branch (plain bullet_list) (nodes (entry 3 ∷ entry 4 ∷ [])) ∷ words 5 ∷ []))

abbrev size : Header → ℕ
size h = h.rest

-- A stand-in for `JSON.stringify`, by the length of the text.
abbrev stringify : Node → Text
stringify n = weight size n ∷ []

abbrev new_document : MoveResult → Node
new_document (unchanged reason) = doc
new_document (changed n destination) = n

-- The second item goes into the first.
abbrev indentation : Intent
indentation = record {
  document_signature = none;
  source = in_list (0 ∷ 1 ∷ []);
  target = relative indent;
}

abbrev indented : Node
indented = new_document (move_document_block stringify doc indentation)

indented_runs :
    move_document_block stringify doc indentation ≡ changed indented (in_list (0 ∷ 0 ∷ 0 ∷ 0 ∷ []))
unfolding move_document_block is_stale is_valid_location read_list_item_at_path parse_list_item_path
    read_list_at_path read_list_below normalize_target normalize_relative_target is_same_slot
    move_source move_list_item_source indent_list_item indented_content reusable_list
    resolve_list_path read_list_node_at_path update_list_node_at_path is_list_node
    normalize_list_item_for_target_list Kind-discrete ℕ_discrete
indented_runs = refl

doc-IsTidy : IsTidy doc
unfolding IsTidy is_list_node
doc-IsTidy = ground arith

move_document_block-weight_example : weight size indented ≡ weight size doc
move_document_block-weight_example =
    move_document_block-weight size stringify doc indented (in_list (0 ∷ 0 ∷ 0 ∷ 0 ∷ []))
      indentation doc-IsTidy indented_runs

abbrev to_end : Intent
to_end = record { document_signature = none; source = top_level 0; target = top_level_slot 2 }

abbrev turned : Node
turned = new_document (move_document_block stringify doc to_end)

turned_runs : move_document_block stringify doc to_end ≡ changed turned (top_level 1)
unfolding move_document_block is_stale is_valid_location normalize_target is_same_slot move_source
    move_top_level_source move_top_level_block move_inside
turned_runs = refl

to_end_slot : normalize_target doc (top_level 0) to_end.target ≡ some (into_top_level 2)
unfolding normalize_target
to_end_slot = refl

move_document_block_lands_example :
    (get_elem? (children turned) 1 ≡ get_elem? (children doc) 0)
    × (remove_at 1 (children turned) ≡ remove_at 0 (children doc))
move_document_block_lands_example =
    move_document_block_lands stringify doc turned 0 2 1 to_end refl to_end_slot turned_runs

abbrev late : Intent
late = record {
  document_signature = some (7 ∷ []);
  source = top_level 0;
  target = top_level_slot 2;
}

move_document_block_stale_iff_example :
    (move_document_block stringify doc late ≡ unchanged stale) ↔ (
      (signature : Text) × (late.document_signature ≡ some signature) × (signature ≢ stringify doc))
move_document_block_stale_iff_example = move_document_block_stale_iff stringify doc late

abbrev upwards : Intent
upwards = record { document_signature = none; source = top_level 1; target = relative up }

raised_runs : move_document_block stringify doc upwards ≡ changed turned (top_level 0)
unfolding move_document_block is_stale is_valid_location normalize_target normalize_relative_target
    is_same_slot move_source move_top_level_source move_top_level_block move_inside
raised_runs = refl

move_document_block_up_down_example :
    move_document_block stringify turned
      (record { document_signature = none; source = top_level 0; target = relative down })
    ≡ changed doc (top_level 1)
move_document_block_up_down_example =
    move_document_block_up_down stringify doc turned 1 (top_level 0) raised_runs

abbrev first_list : Node
first_list = branch (plain bullet_list) (nodes (entry 3 ∷ entry 4 ∷ []))

first_list_read : read_list_at_path doc 0 [] ≡ some first_list
unfolding read_list_at_path read_list_below is_list_node
first_list_read = refl

read_list_at_path-read_list_node_at_path_example :
    (top : Node) × (get_elem? (children doc) 0 ≡ some top)
    × (is_list_node top ≡ true)
    × (read_list_node_at_path top [] ≡ some first_list)
read_list_at_path-read_list_node_at_path_example =
    read_list_at_path-read_list_node_at_path doc first_list 0 [] first_list_read
