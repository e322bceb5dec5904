-- ===== src/Movement/Agreement.antt =====
-- src/features/documents/block-movement.ts and tiptap-blocks.ts each walk a path of lists in their own
-- way: by filtering the lists of an item, and by searching for the index of a list.
use coredot_editor.Prelude.{
  ℕ, zero, suc, ◌-◌, ◌%◌, ◌≡◌, refl, ◌∙◌, true, false, ◌||◌, not, List, [], ◌∷◌, Option, none, some,
  inl, inr, ◌==◌, length, get_elem?, arith, Bool-cases,
}
use coredot_editor.Prelude.Options.{◌>>=◌, fmap, >>=-eq-some}
use coredot_editor.Blocks.Tree.{Node, children, is_list_node}
use coredot_editor.Blocks.ListPath.{
  find_nested_list_index, read_nested_list_node, read_list_node_at_path,
}
use coredot_editor.Blocks.Conserve.{unless-false}
use coredot_editor.Movement.Reading.{
  has_unsafe, is_item_node, lists_of, read_list_below, read_list_at_path,
}

get_elem?-suc :
    (r : Option ℕ) (n : Node) (ns : List Node)
    → (fmap suc r >>= get_elem? (n ∷ ns)) ≡ (r >>= get_elem? ns)
get_elem?-suc none n ns = refl
get_elem?-suc (some i) n ns = refl

suc_positive : (n : ℕ) → (suc n == 0) ≡ false
suc_positive n = ground arith

suc_minus : (n : ℕ) → suc n - 1 ≡ n
suc_minus n = omega arith

-- The list of an ordinal, found by its index, is that of the filtered content.
pub lists_of-get_elem? :
    (ns : List Node) (o : ℕ)
    → (find_nested_list_index ns o >>= get_elem? ns) ≡ get_elem? (lists_of ns) o
unfolding find_nested_list_index
lists_of-get_elem? [] o = refl
lists_of-get_elem? (n ∷ ns) zero = elim (Bool-cases (is_list_node n)) [
  | inl e ↦ rw e refl
  | inr e ↦ rw e (get_elem?-suc (find_nested_list_index ns 0) n ns ∙ lists_of-get_elem? ns 0)
]
lists_of-get_elem? (n ∷ ns) (suc o) = elim (Bool-cases (is_list_node n)) [
  | inl e ↦
      rw (e, suc_positive o, suc_minus o)
        (get_elem?-suc (find_nested_list_index ns o) n ns ∙ lists_of-get_elem? ns o)
  | inr e ↦
      rw e (get_elem?-suc (find_nested_list_index ns (suc o)) n ns ∙ lists_of-get_elem? ns (suc o))
]

read_nested_list_node-lists_of :
    (item : Node) (o : ℕ) → read_nested_list_node item o ≡ get_elem? (lists_of (children item)) o
unfolding read_nested_list_node
read_nested_list_node-lists_of item o = lists_of-get_elem? (children item) o

read_list_below-read_list_node :
    (list found : Node) (path : List ℕ)
    → read_list_below list path ≡ some found
    → read_list_node_at_path list path ≡ some found
unfolding read_list_below read_list_node_at_path
read_list_below-read_list_node list found [] e = e
read_list_below-read_list_node list found (i ∷ []) e = e
read_list_below-read_list_node list found (i ∷ o ∷ path) e =
    let (item, e1, f1) = >>=-eq-some (get_elem? (children list) i) _ e in
    let (_, f2) = unless-false (not (is_item_node item)) _ f1 in
    let (nested, e2, f3) = >>=-eq-some (get_elem? (lists_of (children item)) o) _ f2 in
    rw (e1, read_nested_list_node-lists_of item o, e2)
      (read_list_below-read_list_node nested found path f3)

-- A list that block-movement.ts finds at a path below a top-level block is the list that
-- tiptap-blocks.ts reads at the same path, and the block is a list.
pub read_list_at_path-read_list_node_at_path :
    (doc list : Node) (i : ℕ) (path : List ℕ)
    → read_list_at_path doc i path ≡ some list
    → (top : Node) × (get_elem? (children doc) i ≡ some top)
      × (is_list_node top ≡ true)
      × (read_list_node_at_path top path ≡ some list)
unfolding read_list_at_path
read_list_at_path-read_list_node_at_path doc list i path e =
    let (_, f1) = unless-false (not (length path % 2 == 0) || has_unsafe path) _ e in
    let (top, e1, f2) = >>=-eq-some (get_elem? (children doc) i) _ f1 in
    let (is_list, f3) = unless-false (not (is_list_node top)) _ f2 in
    (top, e1, ground arith, read_list_below-read_list_node top list path f3)
