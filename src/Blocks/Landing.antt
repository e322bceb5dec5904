-- ===== src/Blocks/Landing.antt =====
-- Where moveTopLevelBlockInTiptapJson of src/features/documents/tiptap-blocks.ts puts a block.
use coredot_editor.Prelude.{
  ℕ, zero, suc, ◌+◌, ◌≡◌, ◌≢◌, ◌<◌, ◌≤◌, ◌-◌, ◌++◌, ◌||◌, min, take, drop, inl, inr, Bool-cases,
  refl, sym, ap, ◌∙◌, subst, List, [], ◌∷◌, some, if◌then◌else◌, ltb, leb, ◌==◌, length, get_elem?,
  arith, ◌↔◌,
}
use coredot_editor.Prelude.Options.{>>=-eq-some, some-inj}
use coredot_editor.Prelude.Splice.{
  remove_at, insert_at, length-remove_at, length-insert_at, get_elem?-insert_at,
  remove_at-insert_at, get_elem?-lt,
}
use coredot_editor.Blocks.Tree.{
  Node, leaf, branch, Nodes, nil, cons, elems, nodes, children, children-with_content, with_content,
}
use coredot_editor.Blocks.{clamp, landing, move_inside, move_top_level_block}
use coredot_editor.Blocks.Conserve.{unless-false, move_inside_inv}

module _ {ℓ} {A : Type ℓ} where
  insert_at-remove_at :
      (i : ℕ) (x : A) (xs : List A) → get_elem? xs i ≡ some x → insert_at i x (remove_at i xs) ≡ xs
  insert_at-remove_at i x [] e = cc
  insert_at-remove_at zero x (y ∷ xs) e = ground arith
  insert_at-remove_at (suc i) x (y ∷ xs) e = ap (◌∷◌ y) (insert_at-remove_at i x xs e)

  get_elem?-some : (i : ℕ) (xs : List A) → i < length xs → (x : A) × (get_elem? xs i ≡ some x)
  get_elem?-some i [] h = absurd (omega arith)
  get_elem?-some zero (x ∷ xs) h = (x, refl)
  get_elem?-some (suc i) (x ∷ xs) h = get_elem?-some i xs (omega arith)

-- The position of the moved block in the new document.
abbrev pub landed : Node → ℕ → ℕ → ℕ
landed doc source_index drop_index = landing source_index (clamp drop_index (length (children doc)))

-- What the guards of a move leave.
moved_inv :
    (doc doc' : Node) (s d : ℕ)
    → move_top_level_block doc s d ≡ some doc'
    → (moved : Node) × (get_elem? (children doc) s ≡ some moved)
      × (children doc' ≡ insert_at (landed doc s d) moved (remove_at s (children doc)))
      × (with_content doc (children doc') ≡ doc')
unfolding move_top_level_block
moved_inv doc doc' s d e =
    let (next, e1, e2) = >>=-eq-some (move_inside (children doc) s d) _ e in
    let (moved, at, same) = move_inside_inv (children doc) next s d e1 in
    let is_next : children doc' ≡ next =
      subst (λ n. children n ≡ next) (some-inj e2) (children-with_content doc next) in
    (
      moved,
      at,
      is_next ∙ sym same,
      subst (λ n. with_content doc n ≡ doc') (sym is_next) (some-inj e2),
    )

pub landed_lt : (n s d : ℕ) → s < n → landing s (clamp d n) < n
landed_lt n s d h = ground arith

-- The gap to which a moved block goes back.
abbrev pub back_gap : Node → ℕ → ℕ → ℕ
back_gap doc source_index drop_index =
    if ltb source_index (clamp drop_index (length (children doc)))
    then source_index
    else suc source_index

-- The moved block is at `landed`, and without it the documents are the same.
pub landed_inv :
    (doc doc' : Node) (s d : ℕ)
    → move_top_level_block doc s d ≡ some doc'
    → (get_elem? (children doc') (landed doc s d) ≡ get_elem? (children doc) s)
      × (remove_at (landed doc s d) (children doc') ≡ remove_at s (children doc))
      × (length (children doc') ≡ length (children doc))
landed_inv doc doc' s d e =
    let (moved, at, is_next, _) = moved_inv doc doc' s d e in
    let inside : s < length (children doc) = get_elem?-lt (children doc) s moved at in
    let lt : landed doc s d < length (children doc) =
      landed_lt (length (children doc)) s d inside in
    let kept = length-remove_at s (children doc) inside in
    let le : landed doc s d ≤ length (remove_at s (children doc)) = omega (arith, lt, kept) in
    (
      rw (is_next, at) (get_elem?-insert_at (landed doc s d) moved (remove_at s (children doc)) le),
      rw is_next (remove_at-insert_at (landed doc s d) moved (remove_at s (children doc)) le),
      rw is_next (length-insert_at (landed doc s d) moved (remove_at s (children doc)) ∙ kept),
    )

module _ {ℓ} {A : Type ℓ} where
  insert_at-remove_at_before :
      (s : ℕ) (g : ℕ) (x : A) (xs : List A)
      → s < suc g
      → g < length xs
      → insert_at g x (remove_at s xs) ≡ remove_at s (take (suc g) xs) ++ x ∷ drop (suc g) xs
  insert_at-remove_at_before s g x [] h k = absurd (omega arith)
  insert_at-remove_at_before zero zero x (y ∷ xs) h k = refl
  insert_at-remove_at_before zero (suc g) x (y ∷ []) h k = absurd (omega arith)
  insert_at-remove_at_before zero (suc g) x (y ∷ z ∷ xs) h k =
      ap (◌∷◌ z) (insert_at-remove_at_before zero g x (y ∷ xs) (omega arith) (omega arith))
  insert_at-remove_at_before (suc s) zero x (y ∷ xs) h k = absurd (omega arith)
  insert_at-remove_at_before (suc s) (suc g) x (y ∷ xs) h k =
      ap (◌∷◌ y) (insert_at-remove_at_before s g x xs (omega arith) (omega arith))

  insert_at-remove_at_after :
      (s g k : ℕ) (x : A) (xs : List A)
      → s ≡ k + g
      → insert_at g x (remove_at s xs) ≡ take g xs ++ x ∷ remove_at k (drop g xs)
  insert_at-remove_at_after s zero k x xs h = ap (λ i. x ∷ remove_at i xs) (omega (arith, h))
  insert_at-remove_at_after s (suc g) k x [] h = refl
  insert_at-remove_at_after zero (suc g) k x (y ∷ xs) h = absurd (omega (arith, h))
  insert_at-remove_at_after (suc s) (suc g) k x (y ∷ xs) h =
      ap (◌∷◌ y) (insert_at-remove_at_after s g k x xs (omega (arith, h)))

  before_gap :
      (s g : ℕ) (x : A) (xs : List A)
      → s < g
      → g ≤ length xs
      → insert_at (g - 1) x (remove_at s xs) ≡ remove_at s (take g xs) ++ x ∷ drop g xs
  before_gap s zero x xs h k = absurd (omega arith)
  before_gap s (suc g) x xs h k =
      subst
        (λ i. insert_at i x (remove_at s xs) ≡ remove_at s (take (suc g) xs) ++ x ∷ drop (suc g) xs)
        (omega arith) (insert_at-remove_at_before s g x xs (omega arith) (omega arith))

  around_gap :
      (s d : ℕ) (x : A) (xs : List A)
      → s < length xs
      → let gap : ℕ = min d (length xs) in
        insert_at (landing s gap) x (remove_at s xs) ≡ (
          if ltb s gap
          then remove_at s (take gap xs) ++ x ∷ drop gap xs
          else take gap xs ++ x ∷ remove_at (s - gap) (drop gap xs))
  around_gap s d x xs h = elim (Bool-cases (ltb s (min d (length xs)))) [
    | inl e ↦ rw e (before_gap s (min d (length xs)) x xs (ground arith) (omega arith))
    | inr e ↦
        let k : ℕ = s - min d (length xs) in
        rw e (insert_at-remove_at_after s (min d (length xs)) k x xs (ground arith))
  ]

-- A block that moves to a gap of the document, which counts the blocks before it and is at most at the
-- end, is at that gap: the new document has the blocks before the gap, then the moved block, then the
-- blocks after the gap, where the moved block is left out of those among which it was.
pub move_top_level_block_lands :
    (doc doc' moved : Node) (s d : ℕ)
    → get_elem? (children doc) s ≡ some moved
    → move_top_level_block doc s d ≡ some doc'
    → let gap : ℕ = min d (length (children doc)) in
      children doc' ≡ (
        if ltb s gap
        then remove_at s (take gap (children doc)) ++ moved ∷ drop gap (children doc)
        else take gap (children doc) ++ moved ∷ remove_at (s - gap) (drop gap (children doc)))
move_top_level_block_lands doc doc' moved s d at e =
    let (m, at', is_next, _) = moved_inv doc doc' s d e in
    let same : m ≡ moved = some-inj (sym at' ∙ at) in
    is_next
    ∙ ap (λ n. insert_at (landed doc s d) n (remove_at s (children doc))) same
    ∙ around_gap s d moved (children doc) (get_elem?-lt (children doc) s moved at)

-- The guards.
pub move_inside-some :
    (content : List Node) (s d : ℕ) (moved : Node)
    → get_elem? content s ≡ some moved
    → clamp d (length content) ≢ s
    → clamp d (length content) ≢ s + 1
    → move_inside content s d
      ≡ some (insert_at (landing s (clamp d (length content))) moved (remove_at s content))
unfolding move_inside
move_inside-some content s d moved at a b =
    let inside = get_elem?-lt content s moved at in ground arith

guards_inv :
    (content next : List Node) (s d : ℕ)
    → move_inside content s d ≡ some next
    → (s < length content) × (clamp d (length content) ≢ s) × (clamp d (length content) ≢ s + 1)
unfolding move_inside
guards_inv content next s d e =
    let c : ℕ = clamp d (length content) in
    let (a, f) = unless-false (leb (length content) s) _ e in
    let (b, _) = unless-false (c == s || c == s + 1) _ f in ground arith

nodes-elems : (ns : Nodes) → nodes (elems ns) ≡ ns
nodes-elems nil = refl
nodes-elems (cons n ns) = ap (cons n) (nodes-elems ns)

-- A node that has a child is rebuilt from its content.
with_content-same :
    (n child : Node) (i : ℕ)
    → get_elem? (children n) i ≡ some child
    → with_content n (children n) ≡ n
with_content-same (leaf h) child i e = cc
with_content-same (branch h ns) child i e = ap (branch h) (nodes-elems ns)

landing_back :
    (n s d : ℕ)
    → s < n
    → clamp d n ≢ s
    → clamp d n ≢ s + 1
    → let there : ℕ = landing s (clamp d n) in
      let gap : ℕ = if ltb s (clamp d n) then s else suc s in
      (clamp gap n ≢ there) × (clamp gap n ≢ there + 1) × (landing there (clamp gap n) ≡ s)
landing_back n s d h a b = (ground arith, ground arith, ground arith)

-- A move is made exactly where there is a block and the gap is not beside it.
pub move_top_level_block_iff :
    (doc : Node) (s d : ℕ)
    → ((doc' : Node) × (move_top_level_block doc s d ≡ some doc')) ↔ (
        (s < length (children doc))
        × (clamp d (length (children doc)) ≢ s)
        × (clamp d (length (children doc)) ≢ s + 1))
unfolding move_top_level_block
move_top_level_block_iff doc s d = (
  (λ made.
      let (next, e1, _) = >>=-eq-some (move_inside (children doc) s d) _ made.1 in
      guards_inv (children doc) next s d e1),
  (λ guards.
      let (moved, at) = get_elem?-some s (children doc) guards.0 in
      (
        with_content doc (insert_at (landed doc s d) moved (remove_at s (children doc))),
        rw (move_inside-some (children doc) s d moved at guards.1 guards.2) refl,
      )),
)

-- A move is undone by moving the block back to its gap.
pub move_top_level_block_back :
    (doc doc' : Node) (s d : ℕ)
    → move_top_level_block doc s d ≡ some doc'
    → move_top_level_block doc' (landed doc s d) (back_gap doc s d) ≡ some doc
unfolding move_top_level_block
move_top_level_block_back doc doc' s d e =
    let (moved, at, is_next, same) = moved_inv doc doc' s d e in
    let (there, others, n) = landed_inv doc doc' s d e in
    let (inside, a, b) = (move_top_level_block_iff doc s d).0 (doc', e) in
    let (a', b', home) = landing_back (length (children doc)) s d inside a b in
    let back =
      move_inside-some (children doc') (landed doc s d) (back_gap doc s d) moved (there ∙ at)
        (rw n a') (rw n b') in
    let content : insert_at
          (landing (landed doc s d) (clamp (back_gap doc s d) (length (children doc')))) moved
          (remove_at (landed doc s d) (children doc'))
        ≡ children doc =
      rw (n, home, others) (insert_at-remove_at s moved (children doc) at) in
    let whole : with_content doc' (children doc) ≡ doc =
      subst (λ m. with_content m (children doc) ≡ doc) same (with_content-same doc moved s at) in
    rw (back, content, whole) refl
