-- ===== src/Blocks/Parts.antt =====
-- What becomes of a list that is split, by moveTopLevelBlockBetweenListItemsInTiptapJson and by
-- convertListItemToTopLevelParagraphInTiptapJson of src/features/documents/tiptap-blocks.ts.
use coredot_editor.Prelude.{
  ℕ, zero, suc, ◌+◌, ◌-◌, ◌<◌, ◌≡◌, ◌≢◌, refl, sym, ap, ◌∙◌, subst, true, not, ◌||◌, List, [], ◌∷◌,
  ◌++◌, some, inl, inr, if◌then◌else◌, ltb, ◌==◌, length, get_elem?, take, drop, min, arith,
  Bool-cases, text_key,
}
use coredot_editor.Prelude.Options.{>>=-eq-some, some-inj}
use coredot_editor.Prelude.Splice.{remove_at}
use coredot_editor.Blocks.Tree.{
  paragraph, ordered_list, Node, elems-nodes, header, children, with_content, is_list_node,
  children-with_content,
}
use coredot_editor.Blocks.{
  is_kind, empty_paragraph, create_continuation_list_node, create_top_level_blocks_from_list_item,
}
use coredot_editor.Blocks.Moves.{
  list_before, list_after, replace_at, move_top_level_block_between,
  convert_list_item_to_top_level_paragraph,
}
use coredot_editor.Blocks.Conserve.{unless-false}
use coredot_editor.Blocks.Split.{is_kind-eq}

-- The nodes that hold the items of a part of a list: none where there is no item, and otherwise one
-- list, of the same kind and with the same fields besides attributes and content.
unfoldable pub IsPart : Node → List Node → List Node → Type 0
IsPart list [] ns = ns ≡ []
IsPart list (item ∷ items) ns =
    (n : Node) × (ns ≡ n ∷ [])
    × ((header n).kind ≡ (header list).kind)
    × ((header n).rest ≡ (header list).rest)
    × (children n ≡ item ∷ items)

-- The nodes of a part of a list, then some nodes, then the nodes of another part of it.
unfoldable pub IsSplit : Node → List Node → List Node → List Node → List Node → Type 0
IsSplit list former middle latter ns =
    (p : List Node) × (q : List Node) × (ns ≡ p ++ (middle ++ q))
    × IsPart list former p
    × IsPart list latter q

list_before-IsPart : (list : Node) (items : List Node) → IsPart list items (list_before list items)
unfolding IsPart
list_before-IsPart list [] = refl
list_before-IsPart list (item ∷ items) =
    (with_content list (item ∷ items), refl, refl, refl, children-with_content list (item ∷ items))

list_after-IsPart :
    (list : Node) (items : List Node) (skipped : ℕ)
    → IsPart list items (list_after list items skipped)
unfolding IsPart create_continuation_list_node
list_after-IsPart list [] skipped = refl
list_after-IsPart list (item ∷ items) skipped = elim (Bool-cases (is_kind ordered_list list)) [
  | inl e ↦ rw e (_, refl, sym (is_kind-eq ordered_list list e), refl, elems-nodes (item ∷ items))
  | inr e ↦ rw e (_, refl, refl, refl, elems-nodes (item ∷ items))
]

module _ {ℓ} {A : Type ℓ} where
  get_elem?-remove_at_above :
      (s j : ℕ) (xs : List A) → s < suc j → get_elem? (remove_at s xs) j ≡ get_elem? xs (suc j)
  get_elem?-remove_at_above s j [] h = refl
  get_elem?-remove_at_above zero j (x ∷ xs) h = refl
  get_elem?-remove_at_above (suc s) zero (x ∷ xs) h = absurd (omega arith)
  get_elem?-remove_at_above (suc s) (suc j) (x ∷ xs) h =
      get_elem?-remove_at_above s j xs (omega arith)

  get_elem?-remove_at_below :
      (s i : ℕ) (xs : List A) → i < s → get_elem? (remove_at s xs) i ≡ get_elem? xs i
  get_elem?-remove_at_below s i [] h = refl
  get_elem?-remove_at_below zero i (x ∷ xs) h = absurd (omega arith)
  get_elem?-remove_at_below (suc s) zero (x ∷ xs) h = refl
  get_elem?-remove_at_below (suc s) (suc i) (x ∷ xs) h =
      get_elem?-remove_at_below s i xs (omega arith)

  get_elem?-remove_at_after :
      (s i : ℕ) (xs : List A) → s < i → get_elem? (remove_at s xs) (i - 1) ≡ get_elem? xs i
  get_elem?-remove_at_after s zero xs h = absurd (omega arith)
  get_elem?-remove_at_after s (suc j) xs h =
      subst (λ k. get_elem? (remove_at s xs) k ≡ get_elem? xs (suc j)) (omega arith)
        (get_elem?-remove_at_above s j xs (omega arith))

  get_elem?-remove_at :
      (s i : ℕ) (xs : List A)
      → s ≢ i
      → get_elem? (remove_at s xs) (if ltb s i then i - 1 else i) ≡ get_elem? xs i
  get_elem?-remove_at s i xs h = elim (Bool-cases (ltb s i)) [
    | inl e ↦ rw e (get_elem?-remove_at_after s i xs (ground arith))
    | inr e ↦ rw e (get_elem?-remove_at_below s i xs (ground arith))
  ]

  take-get_elem?-drop :
      (i : ℕ) (x : A) (xs : List A)
      → get_elem? xs i ≡ some x
      → (xs ≡ take i xs ++ x ∷ drop (suc i) xs) × (length (take i xs) ≡ i)
  take-get_elem?-drop i x [] e = cc
  take-get_elem?-drop zero x (y ∷ xs) e = (cc, refl)
  take-get_elem?-drop (suc i) x (y ∷ xs) e =
      let (same, n) = take-get_elem?-drop i x xs e in (ap (◌∷◌ y) same, ap suc n)

children-eq :
    (doc doc' : Node) (content : List Node)
    → with_content doc content ≡ doc'
    → children doc' ≡ content
children-eq doc doc' content e =
    subst (λ n. children n ≡ content) e (children-with_content doc content)

-- The content with a list split around a node.
abbrev between : List Node → ℕ → Node → Node → ℕ → List Node
between content i source list gap =
    replace_at i
      (list_before list (take gap (children list))
        ++ source ∷ list_after list (drop gap (children list)) (length (take gap (children list))))
      content

between_inv :
    (doc doc' : Node) (d i s : ℕ)
    → move_top_level_block_between doc d i s ≡ some doc'
    → let next : List Node = remove_at s (children doc) in
      let adjusted : ℕ = if ltb s i then i - 1 else i in
      (source : Node) × (list : Node) × (top : Node) × (get_elem? (children doc) s ≡ some source)
      × (get_elem? (children doc) i ≡ some list)
      × (get_elem? next adjusted ≡ some top)
      × (s ≢ i)
      × (children doc' ≡ between next adjusted source top (min d (length (children list))))
unfolding move_top_level_block_between
between_inv doc doc' d i s e =
    let content : List Node = children doc in
    let next : List Node = remove_at s content in
    let adjusted : ℕ = if ltb s i then i - 1 else i in
    let (source, e1, f1) = >>=-eq-some (get_elem? content s) _ e in
    let (list, e2, f2) = >>=-eq-some (get_elem? content i) _ f1 in
    let (apart, f3) = unless-false (s == i || not (is_list_node list)) _ f2 in
    let (_, f4) = unless-false (length (children list) == 0) _ f3 in
    let (top, e3, f5) = >>=-eq-some (get_elem? next adjusted) _ f4 in
    let (_, f6) = unless-false (not (is_list_node top)) _ f5 in
    (
      source,
      list,
      top,
      e1,
      e2,
      e3,
      ground arith,
      children-eq doc doc' (between next adjusted source top (min d (length (children list))))
          (some-inj f6),
    )

-- A list that a top-level block splits keeps its place among the other blocks and all its items in
-- order: where the list was, there are the items before the gap in a list of its kind, then the block,
-- then the items after the gap in a list of its kind. There is no list where there are no items. The
-- other blocks are as they were, but for the block at its old place.
pub move_top_level_block_between-IsSplit :
    (doc doc' source list : Node) (d i s : ℕ)
    → get_elem? (children doc) s ≡ some source
    → get_elem? (children doc) i ≡ some list
    → move_top_level_block_between doc d i s ≡ some doc'
    → let gap : ℕ = min d (length (children list)) in
      (before : List Node) × (after_ : List Node) × (parts : List Node) × (remove_at s
          (children doc)
        ≡ before ++ list ∷ after_)
      × (length before ≡ (if ltb s i then i - 1 else i))
      × (children doc' ≡ before ++ (parts ++ after_))
      × IsSplit list (take gap (children list)) (source ∷ []) (drop gap (children list)) parts
unfolding move_top_level_block_between IsSplit
move_top_level_block_between-IsSplit doc doc' source list d i s at_source at_list e =
    let next : List Node = remove_at s (children doc) in
    let adjusted : ℕ = if ltb s i then i - 1 else i in
    let gap : ℕ = min d (length (children list)) in
    let (source', list', top, e1, e2, e3, apart, made) = between_inv doc doc' d i s e in
    let there : get_elem? next adjusted ≡ some list =
      get_elem?-remove_at s i (children doc) apart ∙ at_list in
    let made' : children doc' ≡ between next adjusted source list gap =
      made
      ∙ ap (λ n. between next adjusted n top (min d (length (children list'))))
          (some-inj (sym e1 ∙ at_source))
      ∙ ap (λ n. between next adjusted source n (min d (length (children list'))))
          (some-inj (sym e3 ∙ there))
      ∙ ap (λ n. between next adjusted source list (min d (length (children n))))
          (some-inj (sym e2 ∙ at_list)) in
    let (whole, n) = take-get_elem?-drop adjusted list next there in
    (
      take adjusted next,
      drop (suc adjusted) next,
      list_before list (take gap (children list))
          ++ source
            ∷ list_after list (drop gap (children list)) (length (take gap (children list))),
      whole,
      n,
      made',
      (
        list_before list (take gap (children list)),
        list_after list (drop gap (children list)) (length (take gap (children list))),
        refl,
        list_before-IsPart list (take gap (children list)),
        list_after-IsPart list (drop gap (children list)) (length (take gap (children list))),
      ),
    )

-- The content with a list split around the blocks of one of its items.
abbrev around : List Node → ℕ → Node → ℕ → List Node → List Node
around content i list s blocks =
    replace_at i
      (list_before list (take s (children list))
        ++ (blocks
            ++ list_after list (drop (suc s) (children list))
                (length (take s (children list)) + 1)))
      content

around_inv :
    (doc doc' : Node) (i s : ℕ)
    → convert_list_item_to_top_level_paragraph doc i s ≡ some doc'
    → (list : Node) × (item : Node) × (get_elem? (children doc) i ≡ some list)
      × (get_elem? (children list) s ≡ some item)
      × (children doc'
          ≡ around (children doc) i list s (create_top_level_blocks_from_list_item item))
unfolding convert_list_item_to_top_level_paragraph
around_inv doc doc' i s e =
    let (list, e1, f1) = >>=-eq-some (get_elem? (children doc) i) _ e in
    let (_, f2) = unless-false (not (is_list_node list)) _ f1 in
    let (item, e2, f3) = >>=-eq-some (get_elem? (children list) s) _ f2 in
    (
      list,
      item,
      e1,
      e2,
      children-eq doc doc'
          (around (children doc) i list s (create_top_level_blocks_from_list_item item))
          (some-inj f3),
    )

begins_with :
    (first : Node) (content : List Node)
    → get_elem? content 0 ≡ some first
    → is_kind paragraph first ≡ true
    → (elim content as (λ _. List Node) [
      | [] ↦ empty_paragraph ∷ []
      | n ∷ remaining ↦ (if is_kind paragraph n then n else empty_paragraph) ∷ remaining
    ])
      ≡ content
begins_with first [] e k = cc
begins_with first (n ∷ ns) e k =
    let same : is_kind paragraph n ≡ true = ap (is_kind paragraph) (some-inj e) ∙ k in rw same refl

begins :
    (item first : Node)
    → get_elem? (children item) 0 ≡ some first
    → is_kind paragraph first ≡ true
    → create_top_level_blocks_from_list_item item ≡ children item
unfolding create_top_level_blocks_from_list_item
begins item first e k = begins_with first (children item) e k

-- An item that begins with a paragraph and becomes top-level blocks leaves the other items of its list
-- in order: where the list was, there are the items before it in a list of the same kind, then the
-- blocks of the item, all of them, then the items after it in a list of the same kind. There is no list
-- where there are no items. The other blocks of the document are as they were.
pub convert_list_item_to_top_level_paragraph-IsSplit :
    (doc list item first doc' : Node) (i s : ℕ)
    → get_elem? (children doc) i ≡ some list
    → get_elem? (children list) s ≡ some item
    → get_elem? (children item) 0 ≡ some first
    → is_kind paragraph first ≡ true
    → convert_list_item_to_top_level_paragraph doc i s ≡ some doc'
    → (before : List Node) × (after_ : List Node) × (parts : List Node) × (children doc
        ≡ before ++ list ∷ after_)
      × (length before ≡ i)
      × (children doc' ≡ before ++ (parts ++ after_))
      × IsSplit list (take s (children list)) (children item) (drop (suc s) (children list)) parts
unfolding convert_list_item_to_top_level_paragraph IsSplit
convert_list_item_to_top_level_paragraph-IsSplit doc list item first doc' i s at there starts k e =
    let content : List Node = children doc in
    let (list', item', e1, e2, made) = around_inv doc doc' i s e in
    let same : list' ≡ list = some-inj (sym e1 ∙ at) in
    let there' : get_elem? (children list') s ≡ some item =
      ap (λ n. get_elem? (children n) s) same ∙ there in
    let made' : children doc' ≡ around content i list s (children item) =
      made
      ∙ ap (λ n. around content i list' s (create_top_level_blocks_from_list_item n))
          (some-inj (sym e2 ∙ there'))
      ∙ ap (around content i list' s) (begins item first starts k)
      ∙ ap (λ n. around content i n s (children item)) same in
    let (whole, n) = take-get_elem?-drop i list content at in
    (
      take i content,
      drop (suc i) content,
      list_before list (take s (children list))
          ++ (children item
              ++ list_after list (drop (suc s) (children list))
                  (length (take s (children list)) + 1)),
      whole,
      n,
      made',
      (
        list_before list (take s (children list)),
        list_after list (drop (suc s) (children list)) (length (take s (children list)) + 1),
        refl,
        list_before-IsPart list (take s (children list)),
        list_after-IsPart list (drop (suc s) (children list)) (length (take s (children list)) + 1),
      ),
    )
