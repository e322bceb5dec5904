-- ===== src/Blocks/Weight.antt =====
-- The weight of the text in the nodes of src/features/documents/tiptap-blocks.ts, and how reading,
-- updating and removing at a list path bear on it.
use coredot_editor.Prelude.{
  ℕ, zero, suc, ◌+◌, ◌-◌, ◌≡◌, refl, sym, ap, ◌∙◌, true, List, [], ◌∷◌, some, inl, inr,
  if◌then◌else◌, ◌==◌, length, get_elem?, set, arith, Bool-cases, subst,
}
use coredot_editor.Prelude.Options.{>>=-eq-some, some-inj}
use coredot_editor.Prelude.Splice.{remove_at, total, total-set, total-remove_at}
use coredot_editor.Blocks.Tree.{
  Header, Node, leaf, branch, Nodes, nil, cons, elems, nodes, elems-nodes, children,
  children-with_content, content_of, with_content, is_list_node, header, weight, weight_all,
}
use coredot_editor.Blocks.ListPath.{
  find_nested_list_index, read_nested_list_node, read_list_node_at_path, update_list_node_at_path,
  remove_list_item_at_path, without_empty,
}

module _ (measure : Header → ℕ) where
  weight_all-elems : (ns : Nodes) → weight_all measure ns ≡ total (weight measure) (elems ns)
  unfolding weight_all
  weight_all-elems nil = refl
  weight_all-elems (cons n ns) = omega (arith, weight_all-elems ns)

  pub weight-branch :
      (h : Header) (ns : List Node)
      → weight measure (branch h (nodes ns)) ≡ total (weight measure) ns
  unfolding weight
  weight-branch h ns = weight_all-elems (nodes ns) ∙ ap (total (weight measure)) (elems-nodes ns)

  pub weight-with_content :
      (n : Node) (ns : List Node) → weight measure (with_content n ns) ≡ total (weight measure) ns
  weight-with_content n ns = weight-branch (header n) ns

  pub weight-content :
      (n : Node) (ns : List Node)
      → content_of n ≡ some ns
      → weight measure n ≡ total (weight measure) ns
  unfolding weight
  weight-content (leaf h) ns e = cc
  weight-content (branch h ms) ns e = ground (arith, weight_all-elems ms)

  -- A node with a child, and a list, weigh what their children do.
  pub weight-get_elem? :
      (n child : Node) (i : ℕ)
      → get_elem? (children n) i ≡ some child
      → weight measure n ≡ total (weight measure) (children n)
  weight-get_elem? (leaf h) child i e = cc
  weight-get_elem? (branch h ms) child i e = weight-content (branch h ms) (elems ms) refl

  pub weight-list :
      (n : Node) → is_list_node n ≡ true → weight measure n ≡ total (weight measure) (children n)
  unfolding weight is_list_node
  weight-list (leaf h) e = ground arith
  weight-list (branch h ms) e = weight_all-elems ms

  -- The nested list below one item of a list.
  pub nested_inv :
      (item nested : Node) (o : ℕ)
      → read_nested_list_node item o ≡ some nested
      → (content : List Node) × (index : ℕ) × (content_of item ≡ some content)
        × (find_nested_list_index content o ≡ some index)
        × (get_elem? content index ≡ some nested)
  unfolding read_nested_list_node find_nested_list_index
  nested_inv (leaf h) nested o e = cc
  nested_inv (branch h ns) nested o e =
      let (index, found, got) = >>=-eq-some (find_nested_list_index (elems ns) o) _ e in
      (elems ns, index, refl, found, got)

  -- Replacing a nested list changes the weight by what the nested list changes.
  weight-set_nested :
      (list item nested nested' : Node) (content : List Node) (i index : ℕ)
      → get_elem? (children list) i ≡ some item
      → content_of item ≡ some content
      → get_elem? content index ≡ some nested
      → weight measure (
            with_content list
              (set (children list) i (with_content item (set content index nested'))))
          + weight measure nested
        ≡ weight measure list + weight measure nested'
  weight-set_nested list item nested nested' content i index e1 e2 e3 =
      let item' : Node = with_content item (set content index nested') in
      omega (
        arith,
        weight-with_content list (set (children list) i item'),
        weight-with_content item (set content index nested'),
        weight-get_elem? list item i e1,
        weight-content item content e2,
        total-set (weight measure) i item item' (children list) e1,
        total-set (weight measure) index nested nested' content e3,
      )

  pub read_list_node-update :
      (list : Node) (path : List ℕ) (target : Node) (f : Node → Node)
      → read_list_node_at_path list path ≡ some target
      → weight measure (update_list_node_at_path list path f) + weight measure target
        ≡ weight measure list + weight measure (f target)
  unfolding read_list_node_at_path update_list_node_at_path
  read_list_node-update list [] target f e = ground arith
  read_list_node-update list (i ∷ []) target f e = cc
  read_list_node-update list (i ∷ o ∷ path) target f e =
      let (item, e1, e2) = >>=-eq-some _ _ e in
      let (nested, e3, e4) = >>=-eq-some _ _ e2 in
      let (content, index, e5, e6, e7) = nested_inv item nested o e3 in
      let step =
        weight-set_nested list item nested (update_list_node_at_path nested path f) content i index
          e1 e5 e7 in
      rw (e1, e5, e6, e7) (omega (arith, step, read_list_node-update nested path target f e4))

  total_empty : (ns : List Node) → (length ns == 0) ≡ true → total (weight measure) ns ≡ 0
  total_empty [] e = refl
  total_empty (n ∷ ns) e = ground arith

  -- Replacing or dropping the nested list that an item was taken from.
  weight-without_empty :
      (list item nested nested' : Node) (content : List Node) (i index : ℕ)
      → get_elem? (children list) i ≡ some item
      → content_of item ≡ some content
      → get_elem? content index ≡ some nested
      → weight measure nested' ≡ total (weight measure) (children nested')
      → weight measure (
            with_content list
              (set (children list) i (with_content item (without_empty content index nested'))))
          + weight measure nested
        ≡ weight measure list + weight measure nested'
  weight-without_empty list item nested nested' content i index e1 e2 e3 w =
      elim (Bool-cases (length (children nested') == 0)) [
        | inr e ↦ rw e (weight-set_nested list item nested nested' content i index e1 e2 e3)
        | inl e ↦
            let item' : Node = with_content item (remove_at index content) in
            let none_left : weight measure nested' ≡ 0 = w ∙ total_empty (children nested') e in
            rw e (
              omega (
                arith,
                none_left,
                weight-with_content list (set (children list) i item'),
                weight-with_content item (remove_at index content),
                weight-get_elem? list item i e1,
                weight-content item content e2,
                total-set (weight measure) i item item' (children list) e1,
                total-remove_at (weight measure) index nested content e3,
              ))
      ]

  -- Whatever content a node is given, it weighs what its children do.
  weight-children :
      (n : Node) (ns : List Node)
      → weight measure (with_content n ns) ≡ total (weight measure) (children (with_content n ns))
  weight-children n ns =
      weight-with_content n ns ∙ sym (ap (total (weight measure)) (children-with_content n ns))

  pub remove_list_item_inv :
      (list : Node) (k o : ℕ) (path : List ℕ) (i : ℕ) (removal : Node × Node)
      → remove_list_item_at_path list (k ∷ o ∷ path) i ≡ some removal
      → (parent : Node) × (content : List Node) × (index : ℕ) × (nested : Node) × (inner : Node
          × Node)
        × (get_elem? (children list) k ≡ some parent)
        × (content_of parent ≡ some content)
        × (find_nested_list_index content o ≡ some index)
        × (get_elem? content index ≡ some nested)
        × (remove_list_item_at_path nested path i ≡ some inner)
        × ◌≡◌ {A = Node × Node}
            (
              inner.0,
              with_content list (
                  set
                    (children list)
                    k
                    (with_content parent (without_empty content index inner.1))),
            )
            removal
  unfolding remove_list_item_at_path
  remove_list_item_inv list k o path i removal e =
      let (parent, e1, f1) = >>=-eq-some (get_elem? (children list) k) _ e in
      let (content, e2, f2) = >>=-eq-some (content_of parent) _ f1 in
      let (index, e3, f3) = >>=-eq-some (find_nested_list_index content o) _ f2 in
      let (nested, e4, f4) = >>=-eq-some (get_elem? content index) _ f3 in
      let (inner, e5, f5) = >>=-eq-some (remove_list_item_at_path nested path i) _ f4 in
      (parent, content, index, nested, inner, e1, e2, e3, e4, e5, some-inj f5)

  abbrev pub Keeps : Node → Node × Node → Type 0
  Keeps list removal =
      (weight measure removal.1 + weight measure removal.0 ≡ weight measure list)
      × (weight measure removal.1 ≡ total (weight measure) (children removal.1))

  -- Removal keeps the text: what goes from the list is the removed item.
  pub remove_list_item-weight :
      (list : Node) (path : List ℕ) (i : ℕ) (removal : Node × Node)
      → remove_list_item_at_path list path i ≡ some removal
      → Keeps list removal
  unfolding remove_list_item_at_path
  remove_list_item-weight list [] i removal e =
      let (item, e1, e2) =
        >>=-eq-some (get_elem? (children list) i)
          (λ x. some (x, with_content list (remove_at i (children list)))) e in
      let same = some-inj e2 in
      subst (Keeps list) same (
        omega (
          arith,
          weight-with_content list (remove_at i (children list)),
          weight-get_elem? list item i e1,
          total-remove_at (weight measure) i item (children list) e1,
        ),
        weight-children list (remove_at i (children list)),
      )
  remove_list_item-weight list (k ∷ []) i removal e = cc
  remove_list_item-weight list (k ∷ o ∷ path) i removal e =
      let (parent, content, index, nested, inner, e1, e2, e3, e4, e5, same) =
        remove_list_item_inv list k o path i removal e in
      let (a, b) = remove_list_item-weight nested path i inner e5 in
      let step = weight-without_empty list parent nested inner.1 content k index e1 e2 e4 b in
      subst (Keeps list) same (
        omega (arith, a, step),
        weight-children list
            (set (children list) k (with_content parent (without_empty content index inner.1))),
      )

-- What `findNestedListIndex` finds is a list.
pub find_nested_list_index-is_list :
    (content : List Node) (o j : ℕ) (n : Node)
    → find_nested_list_index content o ≡ some j
    → get_elem? content j ≡ some n
    → is_list_node n ≡ true
unfolding find_nested_list_index
find_nested_list_index-is_list [] o j n e f = cc
find_nested_list_index-is_list (m ∷ ms) o zero n e f = ground arith
find_nested_list_index-is_list (m ∷ ms) o (suc j) n e f =
    find_nested_list_index-is_list ms (if is_list_node m then o - 1 else o) j n (ground arith) f

module _ (measure : Header → ℕ) where
  -- A list at a path weighs what its children do, if the list above does.
  pub read_list_node-weight :
      (list : Node) (path : List ℕ) (target : Node)
      → weight measure list ≡ total (weight measure) (children list)
      → read_list_node_at_path list path ≡ some target
      → weight measure target ≡ total (weight measure) (children target)
  unfolding read_list_node_at_path
  read_list_node-weight list [] target w e = ground arith
  read_list_node-weight list (i ∷ []) target w e = cc
  read_list_node-weight list (i ∷ o ∷ path) target w e =
      let (item, e1, e2) = >>=-eq-some (get_elem? (children list) i) _ e in
      let (nested, e3, e4) = >>=-eq-some (read_nested_list_node item o) _ e2 in
      let (content, index, e5, e6, e7) = nested_inv measure item nested o e3 in
      read_list_node-weight nested path target
        (weight-list measure nested (find_nested_list_index-is_list content o index nested e6 e7))
        e4
