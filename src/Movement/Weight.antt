-- ===== src/Movement/Weight.antt =====
-- The text of a document under the moves of src/features/documents/block-movement.ts.
use coredot_editor.Prelude.{
  ℕ, ◌%◌, ◌≡◌, refl, sym, ◌∙◌, subst, inl, inr, Bool, true, false, ◌&&◌, ◌||◌, not, List, [], ◌∷◌,
  ◌++◌, Option, none, some, Text, if◌then◌else◌, ◌==◌, length, get_elem?, arith, Option-cases,
}
use coredot_editor.Prelude.Options.{>>=-eq-some, some-inj}
use coredot_editor.Blocks.Tree.{Header, Node, children, is_list_node, IsTidy, weight}
use coredot_editor.Blocks.ListPath.{starts_with_path}
use coredot_editor.Blocks.{move_top_level_block}
use coredot_editor.Blocks.Moves.{
  MoveListItemInput, IndentedItem, indent_list_item, move_list_item, move_list_item_to_top_level,
  move_top_level_block_to_list_item, move_top_level_block_between,
}
use coredot_editor.Blocks.Conserve.{unless-false, move_top_level_block-weight}
use coredot_editor.Blocks.Between.{move_list_item_to_top_level-weight}
use coredot_editor.Blocks.Split.{
  move_top_level_block_to_list_item-weight, move_top_level_block_between-weight,
}
use coredot_editor.Blocks.Items.{move_list_item-weight}
use coredot_editor.Blocks.Indent.{indent_list_item-weight}
use coredot_editor.Movement.Targets.{
  Location, in_list, top_level, Intent, Reason, invalid, same_slot, stale, MoveResult, unchanged,
  changed, NormalizedTarget, between, into_list, into_top_level, ParsedListItemPath,
}
use coredot_editor.Movement.Reading.{
  parse_list_item_path, read_list_at_path, read_list_item_at_path, is_valid_location, is_there,
  has_unsafe,
}
use coredot_editor.Movement.Slots.{normalize_target, is_same_slot}
use coredot_editor.Movement.{
  result_of, move_top_level_source, indented_result, move_list_item_source, move_source, is_stale,
  move_document_block,
}

pub result_of_inv :
    (o : Option Node) (reason : Reason) (d dest : Location) (doc' : Node)
    → result_of o reason d ≡ changed doc' dest
    → (o ≡ some doc') × (d ≡ dest)
result_of_inv none reason d dest doc' e = cc
result_of_inv (some doc) reason d dest doc' e = (cc, cc)

test-changed :
    (b : Bool) (reason : Reason) (r : MoveResult) {doc : Node} {dest : Location}
    → (if b then unchanged reason else r) ≡ changed doc dest
    → (b ≡ false) × (r ≡ changed doc dest)
test-changed true reason r e = cc
test-changed false reason r e = (refl, e)

indented_result_inv :
    (source : ParsedListItemPath) (o : Option IndentedItem) (dest : Location) (doc' : Node)
    → indented_result source o ≡ changed doc' dest
    → (result : IndentedItem) × (o ≡ some result) × (result.content_json ≡ doc')
indented_result_inv source none dest doc' e = cc
indented_result_inv source (some result) dest doc' e = (result, refl, cc)

-- What the checks before a move leave.
pub move_document_block_inv :
    (stringify : Node → Text) (doc doc' : Node) (dest : Location) (intent : Intent)
    → move_document_block stringify doc intent ≡ changed doc' dest
    → (target : NormalizedTarget) × (is_stale stringify doc intent.document_signature ≡ false)
      × (is_valid_location doc intent.source ≡ true)
      × (normalize_target doc intent.source intent.target ≡ some target)
      × (is_same_slot doc intent.source target ≡ false)
      × (move_source doc intent.source target ≡ changed doc' dest)
unfolding move_document_block
move_document_block_inv stringify doc doc' dest intent e =
    let (fresh, e1) = test-changed (is_stale stringify doc intent.document_signature) stale _ e in
    let (valid, e2) = test-changed (not (is_valid_location doc intent.source)) invalid _ e1 in
    elim (Option-cases (normalize_target doc intent.source intent.target)) [
      | inl there ↦ absurd (ground (arith, e2, there))
      | inr (target, there) ↦
          let (other, e3) =
            test-changed (is_same_slot doc intent.source target) same_slot
              (move_source doc intent.source target) (rw there at e2) in
          (target, fresh, ground arith, there, other, e3)
    ]

is_there-some : {A : Type 0} (o : Option A) → is_there o ≡ true → (x : A) × (o ≡ some x)
is_there-some none e = cc
is_there-some (some x) e = (x, refl)

-- The top-level block around a valid location in a list is a list.
source_top :
    (doc : Node) (path : List ℕ) (source : ParsedListItemPath)
    → is_valid_location doc (in_list path) ≡ true
    → parse_list_item_path path ≡ some source
    → (top : Node) × (get_elem? (children doc) source.list_index ≡ some top)
      × (is_list_node top ≡ true)
unfolding is_valid_location read_list_item_at_path read_list_at_path
source_top doc path source valid parsed =
    let (item, found) = is_there-some (read_list_item_at_path doc path) valid in
    let (source', e1, f1) = >>=-eq-some (parse_list_item_path path) _ found in
    let (list, e2, f2) =
      >>=-eq-some (read_list_at_path doc source'.list_index source'.parent_path) _ f1 in
    let (_, f3) =
      unless-false (not (length source'.parent_path % 2 == 0) || has_unsafe source'.parent_path) _
        e2 in
    let (top, e3, f4) = >>=-eq-some (get_elem? (children doc) source'.list_index) _ f3 in
    let (is_list, _) = unless-false (not (is_list_node top)) _ f4 in
    let same : source ≡ source' = some-inj (sym parsed ∙ e1) in (top, rw same e3, ground arith)

module _ (measure : Header → ℕ) where
  move_top_level_source-weight :
      (doc doc' : Node) (s : ℕ) (target : NormalizedTarget) (dest : Location)
      → move_top_level_source doc s target ≡ changed doc' dest
      → weight measure doc' ≡ weight measure doc
  unfolding move_top_level_source
  move_top_level_source-weight doc doc' s (into_top_level d) dest e =
      move_top_level_block-weight measure doc doc' s d
        (result_of_inv (move_top_level_block doc s d) _ _ dest doc' e).0
  move_top_level_source-weight doc doc' s (between d i) dest e =
      move_top_level_block_between-weight measure doc doc' d i s
        (result_of_inv (move_top_level_block_between doc d i s) _ _ dest doc' e).0
  move_top_level_source-weight doc doc' s (into_list d indented i path) dest e =
      move_top_level_block_to_list_item-weight measure doc doc' d i s (some path) []
        (result_of_inv (move_top_level_block_to_list_item doc d i s (some path) []) _ _ dest doc'
          e).0

  move_list_item_source-weight :
      (doc doc' top : Node) (source : ParsedListItemPath) (target : NormalizedTarget)
      (dest : Location)
      → IsTidy doc
      → get_elem? (children doc) source.list_index ≡ some top
      → is_list_node top ≡ true
      → move_list_item_source doc source target ≡ changed doc' dest
      → weight measure doc' ≡ weight measure doc
  unfolding move_list_item_source
  move_list_item_source-weight doc doc' top source (between d i) dest t at k e = cc
  move_list_item_source-weight doc doc' top source (into_top_level d) dest t at k e =
      move_list_item_to_top_level-weight measure doc doc' d source.list_index source.item_index
        (some source.parent_path) []
        (result_of_inv
          (move_list_item_to_top_level doc d source.list_index source.item_index
            (some source.parent_path) [])
          _ _ dest doc' e).0
  move_list_item_source-weight doc doc' top source (into_list d true i path) dest t at k e =
      let (result, e1, e2) =
        indented_result_inv source
          (indent_list_item doc source.list_index source.item_index (some source.parent_path) [])
          dest doc' e in
      subst (λ n. weight measure n ≡ weight measure doc) e2
        (indent_list_item-weight measure doc top result source.list_index source.item_index
          (some source.parent_path) [] t at k e1)
  move_list_item_source-weight doc doc' top source (into_list d false i path) dest t at k e =
      let input : MoveListItemInput = record {
        drop_index = d;
        list_index = source.list_index;
        source_index = source.item_index;
        source_list_path = some source.parent_path;
        source_parent_path = [];
        target_list_index = some i;
        target_list_path = some path;
        target_parent_path = [];
      } in
      let (_, e1) =
        test-changed
          (source.list_index == i
            && starts_with_path path (source.parent_path ++ source.item_index ∷ []))
          invalid _ e in
      move_list_item-weight measure doc doc' input t
        (result_of_inv (move_list_item doc input) _ _ dest doc' e1).0

  move_source-weight :
      (doc doc' : Node) (source : Location) (target : NormalizedTarget) (dest : Location)
      → IsTidy doc
      → is_valid_location doc source ≡ true
      → move_source doc source target ≡ changed doc' dest
      → weight measure doc' ≡ weight measure doc
  unfolding move_source
  move_source-weight doc doc' (top_level s) target dest t valid e =
      move_top_level_source-weight doc doc' s target dest e
  move_source-weight doc doc' (in_list path) target dest t valid e =
      elim (Option-cases (parse_list_item_path path)) [
        | inl there ↦ absurd (ground (arith, e, there))
        | inr (source, there) ↦
            let (top, at, k) = source_top doc path source valid there in
            move_list_item_source-weight doc doc' top source target dest t at k
              (rw (there, move_source) at e)
      ]

  -- A move of a block keeps the text: in a document whose list items have content arrays, whatever the
  -- source and the target are, the document that a move gives has the text that it had before, weighed
  -- by any measure of a run of text.
  pub move_document_block-weight :
      (stringify : Node → Text) (doc doc' : Node) (dest : Location) (intent : Intent)
      → IsTidy doc
      → move_document_block stringify doc intent ≡ changed doc' dest
      → weight measure doc' ≡ weight measure doc
  move_document_block-weight stringify doc doc' dest intent t e =
      let (target, _, valid, _, _, e1) = move_document_block_inv stringify doc doc' dest intent e in
      move_source-weight doc doc' intent.source target dest t valid e1
