-- ===== src/Blocks/Indent.antt =====
-- The text of a document under indentListItemInTiptapJson of src/features/documents/tiptap-blocks.ts.
use coredot_editor.Prelude.{
  ℕ, zero, suc, ◌+◌, ◌-◌, ◌≡◌, ◌<◌, refl, sym, ap, ◌∙◌, subst, true, ◌||◌, List, [], ◌∷◌, ◌++◌,
  Option, some, inl, inr, leb, ◌==◌, length, get_elem?, set, arith, Option-cases, text_key,
}
use coredot_editor.Prelude.Options.{>>=-eq-some, some-inj}
use coredot_editor.Prelude.Splice.{remove_at, total, total-append, total-set, total-remove_at}
use coredot_editor.Blocks.Tree.{
  Header, Node, children, content_of, with_content, is_list_node, has_content, IsTidy, weight,
}
use coredot_editor.Blocks.ListPath.{
  read_nested_list_node, read_list_node_at_path, update_list_node_at_path, resolve_list_path,
}
use coredot_editor.Blocks.Weight.{
  nested_inv, find_nested_list_index-is_list, weight-with_content, weight-content, weight-list,
}
use coredot_editor.Blocks.{normalize_list_item_for_target_list}
use coredot_editor.Blocks.Moves.{IndentedItem, indented_content, indent_list_item, reusable_list}
use coredot_editor.Blocks.Conserve.{unless-false, weight-same, update-total}
use coredot_editor.Blocks.Items.{
  IsTidy-get_elem?, IsTidy-content, item-has_content, normalize_list_item_for_target_list-weight,
}

-- The list at a path is a list of the editor's schema where the list above is one.
pub read_list_node-IsTidy :
    (list target : Node) (path : List ℕ)
    → IsTidy list
    → is_list_node list ≡ true
    → read_list_node_at_path list path ≡ some target
    → IsTidy target × (is_list_node target ≡ true)
unfolding read_list_node_at_path
read_list_node-IsTidy list target [] t k e =
    subst (λ n. IsTidy n × (is_list_node n ≡ true)) (some-inj e) (t, k)
read_list_node-IsTidy list target (i ∷ []) t k e = cc
read_list_node-IsTidy list target (i ∷ o ∷ path) t k e =
    let (item, e1, e2) = >>=-eq-some (get_elem? (children list) i) _ e in
    let (nested, e3, e4) = >>=-eq-some (read_nested_list_node item o) _ e2 in
    let (content, index, e5, e6, e7) = nested_inv (λ h. 0) item nested o e3 in
    let tidy = IsTidy-content item nested content index (IsTidy-get_elem? list item i t e1) e5 e7 in
    read_list_node-IsTidy nested target path tidy
      (find_nested_list_index-is_list content o index nested e6 e7) e4

get_elem?-remove_at :
    {A : Type 0} (xs : List A) (i s : ℕ) → i < s → get_elem? (remove_at s xs) i ≡ get_elem? xs i
get_elem?-remove_at [] i s h = refl
get_elem?-remove_at (x ∷ xs) i zero h = absurd (omega arith)
get_elem?-remove_at (x ∷ xs) zero (suc s) h = refl
get_elem?-remove_at (x ∷ xs) (suc i) (suc s) h = get_elem?-remove_at xs i s (omega arith)

reusable_list_inv :
    (source terminal : Node) (content : List Node)
    → reusable_list source content ≡ some terminal
    → (get_elem? content (length content - 1) ≡ some terminal) × (is_list_node terminal ≡ true)
unfolding reusable_list
reusable_list_inv source terminal content e = ground arith

module _ (measure : Header → ℕ) where
  indented_content-total :
      (source moved : Node) (content : List Node)
      → has_content moved ≡ true
      → total (weight measure) (indented_content source content moved)
        ≡ total (weight measure) content + weight measure moved
  unfolding indented_content
  indented_content-total source moved content k =
      elim (Option-cases (reusable_list source content)) [
        | inl e ↦
            let item : Node = normalize_list_item_for_target_list moved (with_content source []) in
            rw (e, indented_content)
              (omega (
                arith,
                total-append (weight measure) content (with_content source (item ∷ []) ∷ []),
                weight-with_content measure source (item ∷ []),
                normalize_list_item_for_target_list-weight measure moved (with_content source []) k,
              ))
        | inr (terminal, e) ↦
            let (last, is_list) = reusable_list_inv source terminal content e in
            let item : Node = normalize_list_item_for_target_list moved terminal in
            let terminal' : Node = with_content terminal (children terminal ++ item ∷ []) in
            rw (e, indented_content)
              (omega (
                arith,
                total-set (weight measure) (length content - 1) terminal terminal' content last,
                weight-with_content measure terminal (children terminal ++ item ∷ []),
                weight-list measure terminal is_list,
                total-append (weight measure) (children terminal) (item ∷ []),
                normalize_list_item_for_target_list-weight measure moved terminal k,
              ))
      ]

  -- In a document whose list items have content arrays, an item of a list that is indented keeps its
  -- text, and so does the rest of the document: the weight of the text by any measure of a run stays.
  pub indent_list_item-weight :
      (doc top : Node) (result : IndentedItem) (i s : ℕ) (list_path : Option (List ℕ))
      (parent_path : List ℕ)
      → IsTidy doc
      → get_elem? (children doc) i ≡ some top
      → is_list_node top ≡ true
      → indent_list_item doc i s list_path parent_path ≡ some result
      → weight measure result.content_json ≡ weight measure doc
  unfolding indent_list_item
  indent_list_item-weight doc top result i s list_path parent_path t at k e =
      let path : List ℕ = resolve_list_path list_path parent_path in
      let (top', e1, f1) = >>=-eq-some (get_elem? (children doc) i) _ e in
      let (list, e2, f2) = >>=-eq-some (read_list_node_at_path top' path) _ f1 in
      let content : List Node = children list in
      let (guard, f3) = unless-false (s == 0 || leb (length content) s) _ f2 in
      let (moved, e3, f4) = >>=-eq-some (get_elem? content s) _ f3 in
      let (previous, e4, f5) = >>=-eq-some (get_elem? content (s - 1)) _ f4 in
      let (previous_content, e5, f6) = >>=-eq-some (content_of previous) _ f5 in
      let same_top : top ≡ top' = some-inj (sym at ∙ e1) in
      let (tidy, is_list) =
        read_list_node-IsTidy top' list path (IsTidy-get_elem? doc top' i t e1)
          (subst (λ n. is_list_node n ≡ true) same_top k) e2 in
      let next_content : List Node = indented_content list previous_content moved in
      let next : List Node =
        set (remove_at s content) (s - 1) (with_content previous next_content) in
      let whole : List Node =
        set (children doc) i (update_list_node_at_path top' path (λ n. with_content n next)) in
      let before : get_elem? (remove_at s content) (s - 1) ≡ some previous =
        get_elem?-remove_at content (s - 1) s (ground arith) ∙ e4 in
      let same : total (weight measure) whole ≡ total (weight measure) (children doc) = omega (
        arith,
        update-total measure (children doc) top' list i path next e1 e2,
        weight-list measure list is_list,
        total-set (weight measure) (s - 1) previous (with_content previous next_content)
            (remove_at s content) before,
        total-remove_at (weight measure) s moved content e3,
        weight-with_content measure previous next_content,
        weight-content measure previous previous_content e5,
        indented_content-total list moved previous_content
            (item-has_content list moved s tidy is_list e3),
      ) in
      weight-same measure doc top' i whole result.content_json e1 same
        (ap (λ r. r.content_json) (some-inj f6))
