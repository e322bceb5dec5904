-- ===== src/Awareness/Decoding.antt =====
-- Decoding an awareness frame, in src/features/collaboration/server/awareness-policy.ts. The decoder of
-- lib0, `JSON.parse` and `isDeepStrictEqual` of node:util are parameters; `none` is a throw.
use coredot_editor.Prelude.{
  ℕ, zero, suc, Bool, true, false, not, ◌||◌, List, [], ◌∷◌, Option, none, some, Text, ltb, leb,
  ◌==◌, max_safe_integer,
}
use coredot_editor.Prelude.Options.{◌>>=◌, ◌>>◌}
use coredot_editor.Awareness.Values.{Json, null, obj, Fields}

pub record Wire : Type 0 where
  pub read_var_uint : List ℕ → Option (ℕ × List ℕ)
  pub read_var_string : List ℕ → Option (Text × List ℕ)
  pub parse_json : Text → Option Json
  pub deep_strict_equal : Fields → Fields → Bool

-- ParsedAwarenessEntry
pub record ParsedEntry : Type 0 where
  pub client_id : ℕ
  pub clock : ℕ
  pub state : Option Fields

-- `if (!test) throw rejected()`
abbrev pub require : Bool → Option (Unit {0})
require true = some tt
require false = none

-- The state of an entry: an object, or null.
abbrev pub state_of : Json → Option (Option Fields)
state_of null = some none
state_of (obj fields) = some (some fields)
state_of _ = none

abbrev pub contains : List ℕ → ℕ → Bool
contains [] n = false
contains (m ∷ ms) n = m == n || contains ms n

abbrev pub is_empty : List ℕ → Bool
is_empty [] = true
is_empty (x ∷ xs) = false

module _ (w : Wire) where
  -- The loop of `parseAwarenessPayload`: the entries left to read, and the client ids seen.
  unfoldable pub parse_entries : ℕ → List ℕ → List ℕ → Option (List ParsedEntry)
  parse_entries zero seen bytes = do require (is_empty bytes); some []
  parse_entries (suc count) seen bytes = do
    client ← w.read_var_uint bytes
    clock ← w.read_var_uint client.1
    encoded ← w.read_var_string clock.1
    require (
        not
          (ltb max_safe_integer client.0 || ltb max_safe_integer clock.0 || contains seen client.0))
    value ← w.parse_json encoded.0
    state ← state_of value
    rest ← parse_entries count (client.0 ∷ seen) encoded.1
    some (record { client_id = client.0; clock = clock.0; state = state } ∷ rest)

  unfoldable pub parse_awareness_payload : List ℕ → Option (List ParsedEntry)
  parse_awareness_payload payload = do
    count ← w.read_var_uint payload
    require (leb count.0 8)
    parse_entries count.0 [] count.1
