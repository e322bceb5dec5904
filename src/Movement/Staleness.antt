-- ===== src/Movement/Staleness.antt =====
-- When src/features/documents/block-movement.ts refuses a move as stale.
use coredot_editor.Prelude.{
  ℕ, ◌≡◌, ◌≢◌, refl, ◌↔◌, inl, inr, Bool, true, false, ◌&&◌, not, [], ◌∷◌, ◌++◌, Option, none, some,
  Text, if◌then◌else◌, ◌==◌, arith, Bool-cases, Option-cases,
}
use coredot_editor.Blocks.Tree.{Node}
use coredot_editor.Blocks.ListPath.{starts_with_path}
use coredot_editor.Blocks.{move_top_level_block}
use coredot_editor.Blocks.Moves.{
  IndentedItem, move_top_level_block_to_list_item, move_top_level_block_between,
}
use coredot_editor.Movement.Targets.{
  Location, in_list, top_level, Intent, Reason, invalid, same_slot, stale, MoveResult, unchanged,
  NormalizedTarget, between, into_list, into_top_level, ParsedListItemPath,
}
use coredot_editor.Movement.Reading.{parse_list_item_path, is_valid_location}
use coredot_editor.Movement.Slots.{normalize_target, is_same_slot}
use coredot_editor.Movement.{
  result_of, move_top_level_source, indented_result, move_list_item_source, move_source, is_stale,
  move_document_block,
}

result_of_never : (o : Option Node) (d : Location) → result_of o invalid d ≢ unchanged stale
result_of_never none d e = cc
result_of_never (some doc) d e = cc

indented_never :
    (source : ParsedListItemPath) (o : Option IndentedItem)
    → indented_result source o ≢ unchanged stale
indented_never source none e = cc
indented_never source (some result) e = cc

test_never :
    (b : Bool) (reason : Reason) (r : MoveResult)
    → reason ≢ stale
    → r ≢ unchanged stale
    → (if b then unchanged reason else r) ≢ unchanged stale
test_never true reason r n m e = n cc
test_never false reason r n m e = m e

move_top_level_source_never :
    (doc : Node) (s : ℕ) (target : NormalizedTarget)
    → move_top_level_source doc s target ≢ unchanged stale
unfolding move_top_level_source
move_top_level_source_never doc s (into_top_level d) =
    result_of_never (move_top_level_block doc s d) _
move_top_level_source_never doc s (between d i) =
    result_of_never (move_top_level_block_between doc d i s) _
move_top_level_source_never doc s (into_list d indented i path) =
    result_of_never (move_top_level_block_to_list_item doc d i s (some path) []) _

move_list_item_source_never :
    (doc : Node) (source : ParsedListItemPath) (target : NormalizedTarget)
    → move_list_item_source doc source target ≢ unchanged stale
unfolding move_list_item_source
move_list_item_source_never doc source (between d i) = (λ e. cc)
move_list_item_source_never doc source (into_top_level d) = result_of_never _ _
move_list_item_source_never doc source (into_list d true i path) = indented_never source _
move_list_item_source_never doc source (into_list d false i path) =
    test_never
      (source.list_index == i
        && starts_with_path path (source.parent_path ++ source.item_index ∷ []))
      invalid _ (λ e. cc) (result_of_never _ _)

move_source_never :
    (doc : Node) (source : Location) (target : NormalizedTarget)
    → move_source doc source target ≢ unchanged stale
unfolding move_source
move_source_never doc (top_level s) target e = move_top_level_source_never doc s target e
move_source_never doc (in_list path) target e = elim (Option-cases (parse_list_item_path path)) [
  | inl there ↦ cc
  | inr (source, there) ↦
      move_list_item_source_never doc source target (rw (there, move_source) at e)
]

is_stale_inv :
    (stringify : Node → Text) (doc : Node) (o : Option Text)
    → is_stale stringify doc o ≡ true
    → (signature : Text) × (o ≡ some signature) × (signature ≢ stringify doc)
unfolding is_stale
is_stale_inv stringify doc none e = cc
is_stale_inv stringify doc (some signature) e = (signature, refl, ground arith)

is_stale-some :
    (stringify : Node → Text) (doc : Node) (signature : Text)
    → signature ≢ stringify doc
    → is_stale stringify doc (some signature) ≡ true
unfolding is_stale
is_stale-some stringify doc signature n = ground arith

-- The checks after the signature give another reason.
fresh_never :
    (stringify : Node → Text) (doc : Node) (intent : Intent)
    → is_stale stringify doc intent.document_signature ≡ false
    → move_document_block stringify doc intent ≢ unchanged stale
unfolding move_document_block
fresh_never stringify doc intent fresh e =
    test_never (not (is_valid_location doc intent.source)) invalid _ (λ r. cc)
      (λ r. elim (Option-cases (normalize_target doc intent.source intent.target)) [
        | inl there ↦ absurd (ground (arith, r, there))
        | inr (target, there) ↦
            test_never (is_same_slot doc intent.source target) same_slot
              (move_source doc intent.source target) (λ r'. cc)
              (move_source_never doc intent.source target) (rw there at r)
      ])
      (rw (fresh, move_document_block) at e)

-- A move is refused as stale exactly where the intent carries the signature of another document.
pub move_document_block_stale_iff :
    (stringify : Node → Text) (doc : Node) (intent : Intent)
    → (move_document_block stringify doc intent ≡ unchanged stale) ↔ (
        (signature : Text) × (intent.document_signature ≡ some signature)
        × (signature ≢ stringify doc))
unfolding move_document_block
move_document_block_stale_iff stringify doc intent = (
  (λ e. elim (Bool-cases (is_stale stringify doc intent.document_signature)) [
    | inl b ↦ is_stale_inv stringify doc intent.document_signature b
    | inr b ↦ absurd (fresh_never stringify doc intent b e)
  ]),
  (λ (signature, given, differs).
      let b : is_stale stringify doc intent.document_signature ≡ true =
        rw given (is_stale-some stringify doc signature differs) in
      rw b refl),
)
