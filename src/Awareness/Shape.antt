-- ===== src/Awareness/Shape.antt =====
-- What an awareness state may look like, in src/features/collaboration/server/awareness-policy.ts. A check
-- that throws in the source is false here.
use coredot_editor.Prelude.{
  ℕ, ◌+◌, Bool, true, false, not, ◌&&◌, ◌||◌, List, [], ◌∷◌, Option, none, some, Text,
  Text-discrete, codes, if◌then◌else◌, holds, leb, ◌==◌, length, all, any, map, is_some,
  max_safe_integer,
}
use coredot_editor.Awareness.Values.{
  Json, null, nat, negsuc, str, obj, Fields, property, keys, entries_of, present, member, sorted,
  comma_joined,
}

-- Number.isSafeInteger(value) && value >= 0
abbrev pub is_safe_natural : Option Json → Bool
is_safe_natural (some (nat n)) = leb n max_safe_integer
is_safe_natural _ = false

abbrev pub has_keys : Text → Fields → Bool
has_keys expected fields = holds (Text-discrete (comma_joined (sorted (keys fields))) expected)

-- validateYjsId
unfoldable pub validate_yjs_id : Json → Bool
validate_yjs_id (obj fields) =
    has_keys (codes "client,clock") fields
    && is_safe_natural (property (codes "client") fields)
    && is_safe_natural (property (codes "clock") fields)
validate_yjs_id _ = false

-- A check of a part that may be absent.
abbrev pub if_present : (Json → Bool) → Option Json → Bool
if_present check none = true
if_present check (some value) = check value

-- An integer from -1 to 1.
abbrev pub is_assoc : Json → Bool
is_assoc (nat n) = leb n 1
is_assoc (negsuc n) = n == 0
is_assoc _ = false

abbrev pub is_body : Json → Bool
is_body (str name) = holds (Text-discrete name (codes "body"))
is_body _ = false

abbrev pub position_keys : List Text
position_keys = codes "assoc" ∷ codes "item" ∷ codes "tname" ∷ codes "type" ∷ []

abbrev pub bool_xor : Bool → Bool → Bool
bool_xor true b = not b
bool_xor false b = b

-- validateRelativePosition
unfoldable pub validate_relative_position : Option Json → Bool
validate_relative_position (some (obj fields)) =
    let tname = present (property (codes "tname") fields) in
    let type_id = present (property (codes "type") fields) in
    let item = present (property (codes "item") fields) in
    let assoc = present (property (codes "assoc") fields) in
    leb 2 (length (keys fields))
    && all (λ key. member key position_keys) (keys fields)
    && bool_xor (is_some tname) (is_some type_id)
    && if_present is_assoc assoc
    && if_present is_body tname
    && if_present validate_yjs_id type_id
    && if_present validate_yjs_id item
validate_relative_position _ = false

-- validateCursor
unfoldable pub validate_cursor : Json → Bool
validate_cursor (obj fields) =
    has_keys (codes "anchor,head") fields
    && validate_relative_position (property (codes "anchor") fields)
    && validate_relative_position (property (codes "head") fields)
validate_cursor _ = false

abbrev pub lower : ℕ → ℕ
lower c = if leb 65 c && leb c 90 then c + 32 else c

-- FORBIDDEN_KEYS, with its flag `i`
abbrev pub forbidden_keys : List Text
forbidden_keys =
    codes "authorization"
    ∷ codes "capability"
    ∷ codes "content"
    ∷ codes "document"
    ∷ codes "email"
    ∷ codes "metadata"
    ∷ codes "role"
    ∷ codes "title"
    ∷ codes "token"
    ∷ []

unfoldable pub is_forbidden : Text → Bool
is_forbidden key = member (map lower key) forbidden_keys

-- `[\u0000-\u001f\u007f-\u009f]`
abbrev pub is_control : ℕ → Bool
is_control c = leb c 31 || (leb 127 c && leb c 159)

-- A property of an untrusted user: a name and a value.
unfoldable pub is_user_property : Text × Json → Bool
is_user_property (key, str text) =
    leb 1 (length key)
    && leb (length key) 64
    && not (is_forbidden key)
    && leb (length text) 128
    && not (any is_control text)
is_user_property (key, null) = leb 1 (length key) && leb (length key) 64 && not (is_forbidden key)
is_user_property (key, _) = false

-- validateUntrustedUser
unfoldable pub validate_untrusted_user : Json → Bool
validate_untrusted_user (obj fields) =
    leb (length (entries_of fields)) 8 && all is_user_property (entries_of fields)
validate_untrusted_user _ = false

abbrev pub allowed_state_keys : List Text
allowed_state_keys = codes "cursor" ∷ codes "user" ∷ []

-- validateState
unfoldable pub validate_state : Fields → Bool
validate_state state =
    leb (length (keys state)) 2
    && all (λ key. member key allowed_state_keys) (keys state)
    && if_present validate_cursor (present (property (codes "cursor") state))
    && if_present validate_untrusted_user (property (codes "user") state)
