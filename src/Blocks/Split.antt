-- ===== src/Blocks/Split.antt =====
-- The text of a document where blocks become list items and where lists are split, in
-- src/features/documents/tiptap-blocks.ts.
use coredot_editor.Prelude.{
  ℕ, zero, suc, ◌+◌, ◌-◌, ◌≡◌, refl, ◌∙◌, true, not, ◌||◌, List, [], ◌∷◌, ◌++◌, Option, some, inl,
  inr, if◌then◌else◌, ltb, ◌==◌, length, get_elem?, set, take, drop, arith, Bool-cases, text_key,
}
use coredot_editor.Prelude.Options.{>>=-eq-some, some-inj}
use coredot_editor.Prelude.Splice.{
  remove_at, insert_at, total, total-append, total-remove_at, total-insert_at, total-take-drop,
}
use coredot_editor.Blocks.Tree.{
  Kind, heading, task_list, ordered_list, Header, Node, leaf, branch, elems, children, with_content,
  is_list_node, header, weight,
}
use coredot_editor.Blocks.ListPath.{
  read_list_node_at_path, update_list_node_at_path, resolve_list_path,
}
use coredot_editor.Blocks.Weight.{
  weight-branch, weight-with_content, weight-content, weight-list, read_list_node-weight,
}
use coredot_editor.Blocks.{
  clamp, is_kind, empty_paragraph, normalize_list_item_content, create_list_item_from_block,
  create_continuation_list_node,
}
use coredot_editor.Blocks.Moves.{
  move_top_level_block_to_list_item, list_before, list_after, replace_at,
  move_top_level_block_between,
}
use coredot_editor.Blocks.Conserve.{unless-false, weight-same, update-total}

pub is_kind-eq : (k : Kind) (n : Node) → is_kind k n ≡ true → (header n).kind ≡ k
is_kind-eq k n e = ground arith

module _ (measure : Header → ℕ) where
  -- A block's text is that of the content of the item made from it.
  normalize_list_item_content-total :
      (block : Node)
      → total (weight measure) (normalize_list_item_content block) ≡ weight measure block
  unfolding normalize_list_item_content weight
  normalize_list_item_content-total (leaf h) =
      ground (arith, is_kind-eq heading (leaf h), weight measure (leaf h))
  normalize_list_item_content-total (branch h ns) = ground (
    arith,
    weight-content measure (branch h ns) (elems ns) refl,
    weight-with_content measure empty_paragraph (elems ns),
  )

  pub create_list_item_from_block-weight :
      (block target : Node)
      → weight measure (create_list_item_from_block block target) ≡ weight measure block
  unfolding create_list_item_from_block
  create_list_item_from_block-weight block target = elim (Bool-cases (is_kind task_list target)) [
    | inl e ↦ rw e (
        weight-branch measure _ (normalize_list_item_content block)
        ∙ normalize_list_item_content-total block)
    | inr e ↦ rw e (
        weight-branch measure _ (normalize_list_item_content block)
        ∙ normalize_list_item_content-total block)
  ]

  -- A top-level block that becomes a list item keeps its text, and so does the rest of the document: the
  -- weight of the text by any measure of a run stays.
  pub move_top_level_block_to_list_item-weight :
      (doc doc' : Node) (d i s : ℕ) (list_path : Option (List ℕ)) (parent_path : List ℕ)
      → move_top_level_block_to_list_item doc d i s list_path parent_path ≡ some doc'
      → weight measure doc' ≡ weight measure doc
  unfolding move_top_level_block_to_list_item
  move_top_level_block_to_list_item-weight doc doc' d i s list_path parent_path e =
      let path : List ℕ = resolve_list_path list_path parent_path in
      let content : List Node = children doc in
      let next : List Node = remove_at s content in
      let adjusted : ℕ = if ltb s i then i - 1 else i in
      let (source, e1, f1) = >>=-eq-some (get_elem? content s) _ e in
      let (list, e2, f2) = >>=-eq-some (get_elem? content i) _ f1 in
      let (_, f3) = unless-false (s == i || not (is_list_node list)) _ f2 in
      let (top, e3, f4) = >>=-eq-some (get_elem? next adjusted) _ f3 in
      let (is_list, f5) = unless-false (not (is_list_node top)) _ f4 in
      let (target, e4, f6) = >>=-eq-some (read_list_node_at_path top path) _ f5 in
      let item : Node = create_list_item_from_block source target in
      let inserted : List Node =
        insert_at (clamp d (length (children target))) item (children target) in
      let top' : Node = update_list_node_at_path top path (λ n. with_content n inserted) in
      let own =
        read_list_node-weight measure top path target (weight-list measure top (ground arith)) e4 in
      let same : total (weight measure) (set next adjusted top') ≡ total (weight measure) content =
        omega (
          arith,
          own,
          update-total measure next top target adjusted path inserted e3 e4,
          total-remove_at (weight measure) s source content e1,
          total-insert_at (weight measure) (clamp d (length (children target))) item
              (children target),
          create_list_item_from_block-weight source target,
        ) in
      weight-same measure doc source s (set next adjusted top') doc' e1 same (some-inj f6)

  pub total-list_before :
      (list : Node) (items : List Node)
      → total (weight measure) (list_before list items) ≡ total (weight measure) items
  total-list_before list [] = refl
  total-list_before list (item ∷ items) =
      omega (arith, weight-with_content measure list (item ∷ items))

  pub create_continuation-weight :
      (list : Node) (items : List Node) (skipped : ℕ)
      → weight measure (create_continuation_list_node list items skipped)
        ≡ total (weight measure) items
  unfolding create_continuation_list_node
  create_continuation-weight list items skipped = elim (Bool-cases (is_kind ordered_list list)) [
    | inl e ↦ rw e (weight-branch measure _ items)
    | inr e ↦ rw e (weight-with_content measure list items)
  ]

  pub total-list_after :
      (list : Node) (items : List Node) (skipped : ℕ)
      → total (weight measure) (list_after list items skipped) ≡ total (weight measure) items
  total-list_after list [] skipped = refl
  total-list_after list (item ∷ items) skipped =
      omega (arith, create_continuation-weight list (item ∷ items) skipped)

  pub total-replace_at :
      (i : ℕ) (replacements content : List Node) (x : Node)
      → get_elem? content i ≡ some x
      → total (weight measure) (replace_at i replacements content) + weight measure x
        ≡ total (weight measure) content + total (weight measure) replacements
  total-replace_at i replacements [] x e = cc
  total-replace_at zero replacements (y ∷ content) x e =
      ground (arith, total-append (weight measure) replacements content)
  total-replace_at (suc i) replacements (y ∷ content) x e =
      omega (arith, total-replace_at i replacements content x e)

  -- A top-level block that splits a list keeps the weight of the text of the document, by any measure
  -- of a run.
  pub move_top_level_block_between-weight :
      (doc doc' : Node) (d i s : ℕ)
      → move_top_level_block_between doc d i s ≡ some doc'
      → weight measure doc' ≡ weight measure doc
  unfolding move_top_level_block_between
  move_top_level_block_between-weight doc doc' d i s e =
      let content : List Node = children doc in
      let next : List Node = remove_at s content in
      let adjusted : ℕ = if ltb s i then i - 1 else i in
      let (source, e1, f1) = >>=-eq-some (get_elem? content s) _ e in
      let (list, e2, f2) = >>=-eq-some (get_elem? content i) _ f1 in
      let (_, f3) = unless-false (s == i || not (is_list_node list)) _ f2 in
      let (_, f4) = unless-false (length (children list) == 0) _ f3 in
      let (top, e3, f5) = >>=-eq-some (get_elem? next adjusted) _ f4 in
      let (is_list, f6) = unless-false (not (is_list_node top)) _ f5 in
      let c : ℕ = clamp d (length (children list)) in
      let before : List Node = take c (children top) in
      let remaining : List Node = drop c (children top) in
      let after_ : List Node = list_after top remaining (length before) in
      let parts : List Node = list_before top before ++ source ∷ after_ in
      let same : total (weight measure) (replace_at adjusted parts next)
          ≡ total (weight measure) content =
        omega (
          arith,
          weight-list measure top (ground arith),
          total-replace_at adjusted parts next top e3,
          total-append (weight measure) (list_before top before) (source ∷ after_),
          total-list_before top before,
          total-list_after top remaining (length before),
          total-take-drop (weight measure) c (children top),
          total-remove_at (weight measure) s source content e1,
        ) in
      weight-same measure doc source s (replace_at adjusted parts next) doc' e1 same (some-inj f6)
