-- ===== src/Blocks/Tree.antt =====
-- The Tiptap nodes that src/features/documents/tiptap-blocks.ts reads and builds. A header holds all
-- of a node but its `content`; a leaf has no `content` array.
use coredot_editor.Prelude.{
  ℕ, ◌+◌, ◌≡◌, refl, Bool, true, false, List, [], ◌∷◌, Option, none, some, Text, or_else, text_key,
  ℕ_discrete, ap, is_some, All,
}

pub data Kind : Type 0 where
  bullet_list ordered_list task_list list_item task_item paragraph heading text_run : Kind
  other : ℕ → Kind

unfoldable pub Kind-discrete : Discrete Kind
Kind-discrete = hlevel ℕ_discrete

-- A finite number: `natural n` is n and `below n` is -1 - n, and `natural_and n f` and `below_and n f`
-- are these with a fraction between 0 and 1 added, which f names.
pub data Finite : Type 0 where
  natural below : ℕ → Finite
  natural_and below_and : ℕ → ℕ → Finite

-- A value of an attribute. `opaque t n` is any value that is neither a boolean nor a finite number,
-- with its truth value `t`.
pub data Value : Type 0 where
  boolean : Bool → Value
  number : Finite → Value
  opaque : Bool → ℕ → Value

pub record Header : Type 0 where
  pub kind : Kind
  pub attrs : Option (List (Text × Value))
  pub rest : ℕ

mutual
  pub data Node : Type 0 where
    leaf : Header → Node
    branch : Header → Nodes → Node

  pub data Nodes : Type 0 where
    nil : Nodes
    cons : Node → Nodes → Nodes

abbrev pub elems : Nodes → List Node
elems nil = []
elems (cons n ns) = n ∷ elems ns

abbrev pub nodes : List Node → Nodes
nodes [] = nil
nodes (n ∷ ns) = cons n (nodes ns)

pub elems-nodes : (ns : List Node) → elems (nodes ns) ≡ ns
elems-nodes [] = refl
elems-nodes (n ∷ ns) = ap (◌∷◌ n) (elems-nodes ns)

abbrev pub header : Node → Header
header (leaf h) = h
header (branch h ns) = h

-- `Array.isArray(node.content)`
abbrev pub content_of : Node → Option (List Node)
content_of (leaf h) = none
content_of (branch h ns) = some (elems ns)

-- `Array.isArray(node?.content) ? node.content : []`
abbrev pub children : Node → List Node
children n = or_else (content_of n) []

-- `{ ...node, content }`
abbrev pub with_content : Node → List Node → Node
with_content n content = branch (header n) (nodes content)

pub children-with_content : (n : Node) (ns : List Node) → children (with_content n ns) ≡ ns
children-with_content n ns = elems-nodes ns

abbrev pub is_list_kind : Kind → Bool
is_list_kind bullet_list = true
is_list_kind ordered_list = true
is_list_kind task_list = true
is_list_kind _ = false

unfoldable pub is_list_node : Node → Bool
is_list_node n = is_list_kind (header n).kind

-- The weight of the text of a node: its text runs, measured by any function of their headers.
module _ (measure : Header → ℕ) where
  abbrev pub run_weight : Header → ℕ
  run_weight h = elim h.kind [ text_run ↦ measure h | _ ↦ 0 ]

unfoldable mutual
  pub weight : (Header → ℕ) → Node → ℕ
  weight measure (leaf h) = run_weight measure h
  weight measure (branch h ns) = weight_all measure ns

  pub weight_all : (Header → ℕ) → Nodes → ℕ
  weight_all measure nil = 0
  weight_all measure (cons n ns) = weight measure n + weight_all measure ns

-- The items of every list have a content array, as the editor's schema has it.
abbrev pub has_content : Node → Bool
has_content n = is_some (content_of n)

unfoldable mutual
  pub IsTidy : Node → Type 0
  IsTidy (leaf h) = Unit {0}
  IsTidy (branch h ns) =
      (is_list_kind h.kind ≡ true → All (λ n. has_content n ≡ true) (elems ns)) × AllTidy ns

  pub AllTidy : Nodes → Type 0
  AllTidy nil = Unit {0}
  AllTidy (cons n ns) = IsTidy n × AllTidy ns
