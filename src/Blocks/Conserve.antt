-- ===== src/Blocks/Conserve.antt =====
-- The text of a document under moves inside one list, in src/features/documents/tiptap-blocks.ts.
use coredot_editor.Prelude.{
  ℕ, ◌+◌, ◌≡◌, refl, subst, Bool, true, false, ◌||◌, List, Option, some, leb, ◌==◌, length,
  get_elem?, set, arith, text_key,
}
use coredot_editor.Prelude.Options.{◌>>◌, >>=-eq-some, some-inj}
use coredot_editor.Prelude.Splice.{
  remove_at, insert_at, total, total-set, total-remove_at, total-insert_at,
}
use coredot_editor.Blocks.Tree.{Header, Node, children, with_content, weight}
use coredot_editor.Blocks.ListPath.{read_list_node_at_path, update_list_node_at_path}
use coredot_editor.Blocks.Weight.{weight-with_content, weight-get_elem?, read_list_node-update}
use coredot_editor.Blocks.{unless, clamp, landing, move_inside, move_top_level_block}
use coredot_editor.Blocks.Moves.{move_list_item_inside_same_parent}

pub unless-false :
    (b : Bool) {B : Type 0} (o : Option B) {x : B}
    → (unless b >> o) ≡ some x
    → (b ≡ false) × (o ≡ some x)
unless-false true o h = cc
unless-false false o h = (refl, h)

-- What a list has where one element was moved.
pub move_inside_inv :
    (content next : List Node) (s d : ℕ)
    → move_inside content s d ≡ some next
    → (moved : Node) × (get_elem? content s ≡ some moved)
      × (insert_at (landing s (clamp d (length content))) moved (remove_at s content) ≡ next)
unfolding move_inside
move_inside_inv content next s d e =
    let c : ℕ = clamp d (length content) in
    let (a, f) = unless-false (leb (length content) s) _ e in
    let (b, g) = unless-false (c == s || c == s + 1) _ f in
    let (moved, e1, e2) = >>=-eq-some (get_elem? content s) _ g in (moved, e1, some-inj e2)

module _ (measure : Header → ℕ) where
  pub move_inside-total :
      (content next : List Node) (s d : ℕ)
      → move_inside content s d ≡ some next
      → total (weight measure) next ≡ total (weight measure) content
  move_inside-total content next s d e =
      let (moved, e1, e2) = move_inside_inv content next s d e in
      subst (λ xs. total (weight measure) xs ≡ total (weight measure) content) e2
        (omega (
          arith,
          total-insert_at (weight measure) (landing s (clamp d (length content))) moved
              (remove_at s content),
          total-remove_at (weight measure) s moved content e1,
        ))

  -- A document whose content weighs as much as before.
  pub weight-same :
      (doc child : Node) (i : ℕ) (content : List Node) (doc' : Node)
      → get_elem? (children doc) i ≡ some child
      → total (weight measure) content ≡ total (weight measure) (children doc)
      → with_content doc content ≡ doc'
      → weight measure doc' ≡ weight measure doc
  weight-same doc child i content doc' at same e =
      subst (λ n. weight measure n ≡ weight measure doc) e
        (omega
          (arith, weight-with_content measure doc content, weight-get_elem? measure doc child i at))

  -- A move of a top-level block keeps the text: the runs of text weigh, by any measure of a run, what
  -- they did before.
  pub move_top_level_block-weight :
      (doc doc' : Node) (s d : ℕ)
      → move_top_level_block doc s d ≡ some doc'
      → weight measure doc' ≡ weight measure doc
  unfolding move_top_level_block
  move_top_level_block-weight doc doc' s d e =
      let (next, e1, e2) = >>=-eq-some (move_inside (children doc) s d) _ e in
      let (moved, at, _) = move_inside_inv (children doc) next s d e1 in
      weight-same doc moved s next doc' at (move_inside-total (children doc) next s d e1)
        (some-inj e2)

  -- The content that a list gets at a path replaces what stood there.
  pub update-total :
      (content : List Node) (top target : Node) (i : ℕ) (path : List ℕ) (next : List Node)
      → get_elem? content i ≡ some top
      → read_list_node_at_path top path ≡ some target
      → total
            (weight measure)
            (set content i (update_list_node_at_path top path (λ n. with_content n next)))
          + weight measure target
        ≡ total (weight measure) content + total (weight measure) next
  update-total content top target i path next at e =
      let top' : Node = update_list_node_at_path top path (λ n. with_content n next) in
      omega (
        arith,
        total-set (weight measure) i top top' content at,
        read_list_node-update measure top path target (λ n. with_content n next) e,
        weight-with_content measure target next,
      )

  pub move_list_item_inside_same_parent-weight :
      (doc list doc' : Node) (d i s : ℕ) (path : List ℕ)
      → get_elem? (children doc) i ≡ some list
      → move_list_item_inside_same_parent doc list d i s path ≡ some doc'
      → weight measure doc' ≡ weight measure doc
  unfolding move_list_item_inside_same_parent
  move_list_item_inside_same_parent-weight doc list doc' d i s path at e =
      let (source, e1, f1) = >>=-eq-some (read_list_node_at_path list path) _ e in
      let (next, e2, f2) = >>=-eq-some (move_inside (children source) s d) _ f1 in
      let (moved, here, _) = move_inside_inv (children source) next s d e2 in
      let content : List Node =
        set (children doc) i (update_list_node_at_path list path (λ n. with_content n next)) in
      let same : total (weight measure) content ≡ total (weight measure) (children doc) = omega (
        arith,
        update-total (children doc) list source i path next at e1,
        move_inside-total (children source) next s d e2,
        weight-get_elem? measure source moved s here,
      ) in
      weight-same doc list i content doc' at same (some-inj f2)
