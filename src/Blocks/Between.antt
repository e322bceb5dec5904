-- ===== src/Blocks/Between.antt =====
-- The text of a document under moves of list items below their top-level list and to the top level, in
-- src/features/documents/tiptap-blocks.ts.
use coredot_editor.Prelude.{
  ℕ, ◌+◌, ◌-◌, ◌≡◌, refl, true, ◌&&◌, ◌||◌, List, [], ◌∷◌, ◌++◌, Option, some, inl, inr,
  if◌then◌else◌, ltb, leb, ◌==◌, length, get_elem?, set, arith, Bool-cases, text_key,
}
use coredot_editor.Prelude.Options.{>>=-eq-some, some-inj}
use coredot_editor.Prelude.Splice.{insert_at, total, total-set, total-remove_at, total-insert_at}
use coredot_editor.Blocks.Tree.{Header, Node, children, with_content, weight}
use coredot_editor.Blocks.ListPath.{
  read_list_node_at_path, update_list_node_at_path, remove_list_item_at_path, resolve_list_path,
  starts_with_path, adjust_list_path_after_removal,
}
use coredot_editor.Blocks.Weight.{
  weight-with_content, read_list_node-update, read_list_node-weight, remove_list_item-weight,
}
use coredot_editor.Blocks.{clamp}
use coredot_editor.Blocks.Moves.{
  move_list_item_below, replace_or_remove, move_list_item_to_top_level, has_one_item,
}
use coredot_editor.Blocks.Conserve.{unless-false, weight-same}

module _ (measure : Header → ℕ) where
  pub move_list_item_below-weight :
      (doc list doc' : Node) (d i s : ℕ) (source_path target_path : List ℕ)
      → get_elem? (children doc) i ≡ some list
      → move_list_item_below doc list d i s source_path target_path ≡ some doc'
      → weight measure doc' ≡ weight measure doc
  unfolding move_list_item_below
  move_list_item_below-weight doc list doc' d i s source_path target_path at e =
      let (_, f0) = unless-false (starts_with_path target_path (source_path ++ s ∷ [])) _ e in
      let (removal, e1, f1) = >>=-eq-some (remove_list_item_at_path list source_path s) _ f0 in
      let path : List ℕ =
        adjust_list_path_after_removal target_path source_path s
          (has_one_item (read_list_node_at_path list source_path)) in
      let (target, e2, f2) = >>=-eq-some (read_list_node_at_path removal.1 path) _ f1 in
      let next : List Node =
        insert_at (clamp d (length (children target))) removal.0 (children target) in
      let list' : Node = update_list_node_at_path removal.1 path (λ n. with_content n next) in
      let (kept, own) = remove_list_item-weight measure list source_path s removal e1 in
      let same : total (weight measure) (set (children doc) i list')
          ≡ total (weight measure) (children doc) =
        omega (
          arith,
          kept,
          total-set (weight measure) i list list' (children doc) at,
          read_list_node-update measure removal.1 path target (λ n. with_content n next) e2,
          weight-with_content measure target next,
          read_list_node-weight measure removal.1 path target own e2,
          total-insert_at (weight measure) (clamp d (length (children target))) removal.0
              (children target),
        ) in
      weight-same measure doc list i (set (children doc) i list') doc' at same (some-inj f2)

  total_empty : (ns : List Node) → (length ns == 0) ≡ true → total (weight measure) ns ≡ 0
  total_empty [] e = refl
  total_empty (n ∷ ns) e = ground arith

  -- A top-level list that lost an item is replaced, or goes where it became empty.
  pub replace_or_remove-total :
      (content : List Node) (i : ℕ) (list list' : Node)
      → get_elem? content i ≡ some list
      → weight measure list' ≡ total (weight measure) (children list')
      → total (weight measure) (replace_or_remove content i list') + weight measure list
        ≡ total (weight measure) content + weight measure list'
  replace_or_remove-total content i list list' at own =
      elim (Bool-cases (length (children list') == 0)) [
        | inl e ↦ rw e (
            omega (
              arith,
              own,
              total_empty (children list') e,
              total-remove_at (weight measure) i list content at,
            ))
        | inr e ↦ rw e (total-set (weight measure) i list list' content at)
      ]

  -- A list item that becomes a top-level list of its own takes its text along: the weight of the text
  -- by any measure of a run stays, also where the list it leaves becomes empty and goes.
  pub move_list_item_to_top_level-weight :
      (doc doc' : Node) (d i s : ℕ) (list_path : Option (List ℕ)) (parent_path : List ℕ)
      → move_list_item_to_top_level doc d i s list_path parent_path ≡ some doc'
      → weight measure doc' ≡ weight measure doc
  unfolding move_list_item_to_top_level
  move_list_item_to_top_level-weight doc doc' d i s list_path parent_path e =
      let path : List ℕ = resolve_list_path list_path parent_path in
      let content : List Node = children doc in
      let c : ℕ = clamp d (length content) in
      let (list, e1, f1) = >>=-eq-some (get_elem? content i) _ e in
      let (source, e2, f2) = >>=-eq-some (read_list_node_at_path list path) _ f1 in
      let (_, f3) = unless-false (leb (length (children source)) s) _ f2 in
      let (_, f4) =
        unless-false (length path == 0 && length (children source) == 1 && (c == i || c == i + 1)) _
          f3 in
      let (removal, e3, f5) = >>=-eq-some (remove_list_item_at_path list path s) _ f4 in
      let moved : Node = with_content source (removal.0 ∷ []) in
      let adjusted : ℕ = if length (children removal.1) == 0 && ltb i c then c - 1 else c in
      let next : List Node = insert_at adjusted moved (replace_or_remove content i removal.1) in
      let (kept, own) = remove_list_item-weight measure list path s removal e3 in
      let same : total (weight measure) next ≡ total (weight measure) content = omega (
        arith,
        kept,
        replace_or_remove-total content i list removal.1 e1 own,
        total-insert_at (weight measure) adjusted moved (replace_or_remove content i removal.1),
        weight-with_content measure source (removal.0 ∷ []),
      ) in
      weight-same measure doc list i next doc' e1 same (some-inj f5)
