-- ===== src/Blocks/Items.antt =====
-- The text of a document under moveListItemInTiptapJson of src/features/documents/tiptap-blocks.ts.
use coredot_editor.Prelude.{
  ℕ, zero, suc, ◌-◌, ◌≡◌, refl, sym, ◌∙◌, subst, true, not, ◌&&◌, ◌||◌, List, [], ◌∷◌, none, some,
  or_else, inl, inr, if◌then◌else◌, ltb, ◌==◌, length, get_elem?, set, arith, Bool-cases, All,
  codes, text_key,
}
use coredot_editor.Prelude.Options.{>>=-eq-some, some-inj}
use coredot_editor.Prelude.Splice.{remove_at, insert_at, total, total-insert_at}
use coredot_editor.Blocks.Tree.{
  task_item, list_item, boolean, task_list, Header, Node, leaf, branch, Nodes, nil, cons, elems,
  children, content_of, with_content, is_list_node, has_content, IsTidy, AllTidy, weight,
}
use coredot_editor.Blocks.ListPath.{
  read_list_node_at_path, update_list_node_at_path, remove_list_item_at_path, resolve_list_path,
  same_path,
}
use coredot_editor.Blocks.Weight.{
  weight-branch, find_nested_list_index-is_list, remove_list_item_inv, weight-content, weight-list,
  read_list_node-weight, remove_list_item-weight,
}
use coredot_editor.Blocks.{clamp, is_kind, truth, attr, normalize_list_item_for_target_list}
use coredot_editor.Blocks.Moves.{
  MoveListItemInput, move_list_item_across, move_list_item, replace_or_remove,
}
use coredot_editor.Blocks.Conserve.{
  unless-false, weight-same, update-total, move_list_item_inside_same_parent-weight,
}
use coredot_editor.Blocks.Between.{replace_or_remove-total, move_list_item_below-weight}

AllTidy-get_elem? :
    (ns : Nodes) (i : ℕ) (n : Node) → AllTidy ns → get_elem? (elems ns) i ≡ some n → IsTidy n
unfolding IsTidy
AllTidy-get_elem? nil i n t e = cc
AllTidy-get_elem? (cons m ms) zero n t e = subst IsTidy (some-inj e) t.0
AllTidy-get_elem? (cons m ms) (suc i) n t e = AllTidy-get_elem? ms i n t.1 e

pub IsTidy-get_elem? :
    (n child : Node) (i : ℕ) → IsTidy n → get_elem? (children n) i ≡ some child → IsTidy child
unfolding IsTidy
IsTidy-get_elem? (leaf h) child i t e = cc
IsTidy-get_elem? (branch h ns) child i t e = AllTidy-get_elem? ns i child t.1 e

pub IsTidy-content :
    (n child : Node) (content : List Node) (i : ℕ)
    → IsTidy n
    → content_of n ≡ some content
    → get_elem? content i ≡ some child
    → IsTidy child
unfolding IsTidy
IsTidy-content (leaf h) child content i t e f = cc
IsTidy-content (branch h ns) child content i t e f =
    AllTidy-get_elem? ns i child t.1 (rw (some-inj e) f)

All-get_elem? :
    (ns : List Node) (i : ℕ) (n : Node)
    → All (λ m. has_content m ≡ true) ns
    → get_elem? ns i ≡ some n
    → has_content n ≡ true
All-get_elem? [] i n a e = cc
All-get_elem? (m ∷ ms) zero n a e = ground arith
All-get_elem? (m ∷ ms) (suc i) n a e = All-get_elem? ms i n a.1 e

-- An item of a list has a content array.
pub item-has_content :
    (list item : Node) (i : ℕ)
    → IsTidy list
    → is_list_node list ≡ true
    → get_elem? (children list) i ≡ some item
    → has_content item ≡ true
unfolding IsTidy is_list_node
item-has_content (leaf h) item i t k e = cc
item-has_content (branch h ns) item i t k e = All-get_elem? (elems ns) i item (t.0 k) e

removed-has_content :
    (list : Node) (path : List ℕ) (i : ℕ) (removal : Node × Node)
    → IsTidy list
    → is_list_node list ≡ true
    → remove_list_item_at_path list path i ≡ some removal
    → has_content removal.0 ≡ true
unfolding remove_list_item_at_path
removed-has_content list [] i removal t k e =
    let (item, e1, e2) =
      >>=-eq-some (get_elem? (children list) i)
        (λ x. some (x, with_content list (remove_at i (children list)))) e in
    subst (λ r. has_content r.0 ≡ true) (some-inj e2) (item-has_content list item i t k e1)
removed-has_content list (j ∷ []) i removal t k e = cc
removed-has_content list (j ∷ o ∷ path) i removal t k e =
    let (parent, content, index, nested, inner, e1, e2, e3, e4, e5, same) =
      remove_list_item_inv (λ h. 0) list j o path i removal e in
    let tidy =
      IsTidy-content parent nested content index (IsTidy-get_elem? list parent j t e1) e2 e4 in
    subst (λ r. has_content r.0 ≡ true) same
      (removed-has_content nested path i inner tidy
        (find_nested_list_index-is_list content o index nested e3 e4) e5)

module _ (measure : Header → ℕ) where
  pub normalize_list_item_for_target_list-weight :
      (item target : Node)
      → has_content item ≡ true
      → weight measure (normalize_list_item_for_target_list item target) ≡ weight measure item
  unfolding normalize_list_item_for_target_list weight
  normalize_list_item_for_target_list-weight (leaf h) target k = cc
  normalize_list_item_for_target_list-weight (branch h ns) target k =
      elim (Bool-cases (is_kind task_list target)) [
        | inl e ↦
            let task : Header = record h {
              kind = task_item;
              attrs =
                  some (
                    (codes "checked", boolean (truth (attr (codes "checked") (branch h ns)))) ∷ []);
            } in
            rw e (
              weight-branch measure task (elems ns)
              ∙ sym (weight-content measure (branch h ns) (elems ns) refl))
        | inr e ↦
            let plain_item : Header = record h { kind = list_item; attrs = none } in
            rw e (
              weight-branch measure plain_item (elems ns)
              ∙ sym (weight-content measure (branch h ns) (elems ns) refl))
      ]

  move_list_item_across-weight :
      (doc doc' : Node) (d i s : ℕ) (source_path : List ℕ) (j : ℕ) (target_path : List ℕ)
      → IsTidy doc
      → move_list_item_across doc d i s source_path j target_path ≡ some doc'
      → weight measure doc' ≡ weight measure doc
  unfolding move_list_item_across
  move_list_item_across-weight doc doc' d i s source_path j target_path tidy e =
      let content : List Node = children doc in
      let (source_top, e1, f1) = >>=-eq-some (get_elem? content i) _ e in
      let (target_top, e2, f2) = >>=-eq-some (get_elem? content j) _ f1 in
      let (lists, f3) =
        unless-false (not (is_list_node source_top) || not (is_list_node target_top)) _ f2 in
      let (removal, e3, f4) =
        >>=-eq-some (remove_list_item_at_path source_top source_path s) _ f3 in
      let next : List Node = replace_or_remove content i removal.1 in
      let adjusted : ℕ = if length (children removal.1) == 0 && ltb i j then j - 1 else j in
      let (top, e4, f5) = >>=-eq-some (get_elem? next adjusted) _ f4 in
      let (is_list, f6) = unless-false (not (is_list_node top)) _ f5 in
      let (target, e5, f7) = >>=-eq-some (read_list_node_at_path top target_path) _ f6 in
      let item : Node = normalize_list_item_for_target_list removal.0 target in
      let inserted : List Node =
        insert_at (clamp d (length (children target))) item (children target) in
      let top' : Node = update_list_node_at_path top target_path (λ n. with_content n inserted) in
      let (kept, own) = remove_list_item-weight measure source_top source_path s removal e3 in
      let holds_content =
        removed-has_content source_top source_path s removal
          (IsTidy-get_elem? doc source_top i tidy e1) (ground arith) e3 in
      let same : total (weight measure) (set next adjusted top') ≡ total (weight measure) content =
        omega (
          arith,
          kept,
          replace_or_remove-total measure content i source_top removal.1 e1 own,
          read_list_node-weight measure top target_path target
              (weight-list measure top (ground arith)) e5,
          update-total measure next top target adjusted target_path inserted e4 e5,
          total-insert_at (weight measure) (clamp d (length (children target))) item
              (children target),
          normalize_list_item_for_target_list-weight removal.0 target holds_content,
        ) in
      weight-same measure doc source_top i (set next adjusted top') doc' e1 same (some-inj f7)

  -- In a document whose list items have content arrays, a move of a list item, inside its list, below
  -- the same top-level list or to another one, keeps the weight of the text by any measure of a run.
  pub move_list_item-weight :
      (doc doc' : Node) (input : MoveListItemInput)
      → IsTidy doc
      → move_list_item doc input ≡ some doc'
      → weight measure doc' ≡ weight measure doc
  unfolding move_list_item
  move_list_item-weight doc doc' input tidy e =
      let source : List ℕ = resolve_list_path input.source_list_path input.source_parent_path in
      let target : List ℕ = resolve_list_path input.target_list_path input.target_parent_path in
      let j : ℕ = or_else input.target_list_index input.list_index in
      let (list, e1, f1) = >>=-eq-some (get_elem? (children doc) input.list_index) _ e in
      elim (Bool-cases (j == input.list_index)) [
        | inr k ↦
            move_list_item_across-weight doc doc' input.drop_index input.list_index
              input.source_index source j target tidy (rw k at f1)
        | inl k ↦ elim (Bool-cases (same_path source target)) [
          | inl p ↦
              move_list_item_inside_same_parent-weight measure doc list doc' input.drop_index
                input.list_index input.source_index source e1 (rw (k, p) at f1)
          | inr p ↦
              move_list_item_below-weight measure doc list doc' input.drop_index input.list_index
                input.source_index source target e1 (rw (k, p) at f1)
        ]
      ]
