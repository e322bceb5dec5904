-- ===== src/Movement/Destination.antt =====
-- Where a move of src/features/documents/block-movement.ts puts a top-level block.
use coredot_editor.Prelude.{
  ℕ, suc, ◌+◌, ◌-◌, ◌≡◌, refl, sym, ap, ◌∙◌, subst, true, false, ◌&&◌, none, some, Text,
  if◌then◌else◌, ltb, length, get_elem?, arith,
}
use coredot_editor.Prelude.Options.{some-inj}
use coredot_editor.Blocks.Tree.{Node, children}
use coredot_editor.Blocks.{clamp, landing, move_top_level_block}
use coredot_editor.Blocks.Landing.{landed, back_gap, landed_inv, move_top_level_block_back}
use coredot_editor.Movement.Targets.{
  is_integer, Location, top_level, Direction, down, up, relative, Intent, changed, into_top_level,
}
use coredot_editor.Movement.Reading.{is_valid_location}
use coredot_editor.Movement.Slots.{
  normalize_target, normalize_relative_target, is_same_slot, beside,
}
use coredot_editor.Movement.{move_top_level_source, move_source, is_stale, move_document_block}
use coredot_editor.Movement.Weight.{move_document_block_inv, result_of_inv}
use coredot_editor.Prelude.Splice.{remove_at}

top_level_inv :
    (doc doc' : Node) (s d : ℕ) (dest : Location)
    → move_source doc (top_level s) (into_top_level d) ≡ changed doc' dest
    → (move_top_level_block doc s d ≡ some doc') × (top_level (landed doc s d) ≡ dest)
unfolding move_source move_top_level_source
top_level_inv doc doc' s d dest e = result_of_inv (move_top_level_block doc s d) _ _ dest doc' e

index_inj : {i j : ℕ} → top_level i ≡ top_level j → i ≡ j
index_inj e = cc

-- A top-level block that is moved to another gap of the top level is at the destination that the move
-- reports, and the other blocks keep their order.
pub move_document_block_lands :
    (stringify : Node → Text) (doc doc' : Node) (s d k : ℕ) (intent : Intent)
    → intent.source ≡ top_level s
    → normalize_target doc (top_level s) intent.target ≡ some (into_top_level d)
    → move_document_block stringify doc intent ≡ changed doc' (top_level k)
    → (get_elem? (children doc') k ≡ get_elem? (children doc) s)
      × (remove_at k (children doc') ≡ remove_at s (children doc))
move_document_block_lands stringify doc doc' s d k intent src to e =
    let (target, _, _, there, _, e1) =
      move_document_block_inv stringify doc doc' (top_level k) intent e in
    let here : into_top_level d ≡ target =
      some-inj
        (sym to ∙ subst (λ l. normalize_target doc l intent.target ≡ some target) src there) in
    let run : move_source doc (top_level s) (into_top_level d) ≡ changed doc' (top_level k) =
      subst (λ t. move_source doc (top_level s) t ≡ changed doc' (top_level k)) (sym here)
        (subst (λ l. move_source doc l target ≡ changed doc' (top_level k)) src e1) in
    let (made, dest) = top_level_inv doc doc' s d (top_level k) run in
    let (a, b, _) = landed_inv doc doc' s d made in
    let same : landed doc s d ≡ k = index_inj dest in
    subst
      (λ i.
        (get_elem? (children doc') i ≡ get_elem? (children doc) s)
        × (remove_at i (children doc') ≡ remove_at s (children doc)))
      same (a, b)

-- A move of a top-level block in a direction, where its checks pass.
relative_move :
    (stringify : Node → Text) (doc doc' : Node) (k d : ℕ) (direction : Direction)
    → is_valid_location doc (top_level k) ≡ true
    → normalize_target doc (top_level k) (relative direction) ≡ some (into_top_level d)
    → beside d k ≡ false
    → move_top_level_block doc k d ≡ some doc'
    → move_document_block stringify doc
        (record { document_signature = none; source = top_level k; target = relative direction })
      ≡ changed doc' (top_level (landed doc k d))
unfolding move_document_block is_stale move_source move_top_level_source is_same_slot
relative_move stringify doc doc' k d direction valid to apart made =
    rw (valid, to, apart, made) refl

-- The numbers of a move up and of the move down after it.
numbers :
    (n s : ℕ)
    → (is_integer s && ltb s n) ≡ true
    → beside (clamp (s - 1) n) s ≡ false
    → let k : ℕ = landing s (clamp (clamp (s - 1) n) n) in
      let gap : ℕ = if ltb s (clamp (clamp (s - 1) n) n) then s else suc s in
      (clamp (k + 2) n ≡ gap)
      × ((is_integer k && ltb k n) ≡ true)
      × (beside gap k ≡ false)
      × (landing k (clamp gap n) ≡ s)
numbers n s valid off = (ground arith, ground arith, ground arith, ground arith)

-- A top-level block that was moved up goes back to where it was when it is moved down from the
-- destination that the move reported.
pub move_document_block_up_down :
    (stringify : Node → Text) (doc doc' : Node) (s : ℕ) (dest : Location)
    → move_document_block stringify doc
        (record { document_signature = none; source = top_level s; target = relative up })
      ≡ changed doc' dest
    → move_document_block stringify doc'
        (record { document_signature = none; source = dest; target = relative down })
      ≡ changed doc (top_level s)
unfolding is_valid_location normalize_target normalize_relative_target is_same_slot
move_document_block_up_down stringify doc doc' s dest e =
    let n : ℕ = length (children doc) in
    let d : ℕ = clamp (s - 1) n in
    let (target, _, valid, to, apart, e1) = move_document_block_inv stringify doc doc' dest _ e in
    let here : into_top_level d ≡ target = some-inj to in
    let run : move_source doc (top_level s) (into_top_level d) ≡ changed doc' dest =
      subst (λ t. move_source doc (top_level s) t ≡ changed doc' dest) (sym here) e1 in
    let off : beside d s ≡ false =
      subst (λ t. is_same_slot doc (top_level s) t ≡ false) (sym here) apart in
    let (made, at) = top_level_inv doc doc' s d dest run in
    let (_, _, same) = landed_inv doc doc' s d made in
    let back = move_top_level_block_back doc doc' s d made in
    let k : ℕ = landed doc s d in
    let (gap, valid', apart', home) = numbers n s valid off in
    let there : clamp (k + 2) (length (children doc')) ≡ back_gap doc s d = rw same gap in
    let moved =
      relative_move stringify doc' doc k (back_gap doc s d) down (rw same valid')
        (ap (λ g. some (into_top_level g)) there) apart' back in
    let home' : landed doc' k (back_gap doc s d) ≡ s = rw same home in
    subst
      (λ l.
        move_document_block stringify doc'
          (record { document_signature = none; source = l; target = relative down })
        ≡ changed doc (top_level s))
      at
      (subst
        (λ i.
          move_document_block stringify doc'
            (record { document_signature = none; source = top_level k; target = relative down })
          ≡ changed doc (top_level i))
        home' moved)
