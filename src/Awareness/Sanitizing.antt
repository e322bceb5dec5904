-- ===== src/Awareness/Sanitizing.antt =====
-- `sanitizeStates` of src/features/collaboration/server/awareness-policy.ts. A Boolean says whether the
-- call returns (true) or throws; what it wrote before it threw stays.
use coredot_editor.Prelude.{
  ℕ, max, Bool, true, false, not, ◌&&◌, List, [], ◌∷◌, Option, none, some, Text, Text-discrete,
  codes, get, insert, delete, text_key, nat_key, or_else, if◌then◌else◌, holds, ◌==◌, map,
}
use coredot_editor.Awareness.Values.{Json, str, obj, Fields, end, field, property}
use coredot_editor.Awareness.Decoding.{ParsedEntry, contains}
use coredot_editor.Awareness.State.{Owner, Context, Owners, Policy, room_owners}

-- The states of a scratch Awareness: an object, or null.
abbrev pub States : Type 0
States = List (ℕ × Option Fields)

-- The user that the others see.
abbrev pub identity : Context → Json
identity c = obj (
    field (codes "color") (str c.color) (
      field (codes "displayName") (str c.display_name) (
        field (codes "principalId") (str c.principal_id)
          (field (codes "sessionId") (str c.session_id) end))))

abbrev pub cursor_field : Option Json → Fields
cursor_field none = end
cursor_field (some cursor) = field (codes "cursor") cursor end

unfoldable pub sanitized : Context → Fields → Fields
sanitized c state =
    field (codes "user") (identity c) (cursor_field (property (codes "cursor") state))

-- A room without one client id, or without the room where it was the last.
unfoldable pub without_owner : Owners → Text → ℕ → Owners
without_owner owners room client_id = elim (get room owners) [
  | none ↦ owners
  | some held ↦ elim (delete client_id held) [
    | [] ↦ delete room owners
    | o ∷ os ↦ insert room (o ∷ os) owners
  ]
]

unfoldable pub with_owner : Owners → Text → ℕ → Owner → Owners
with_owner owners room client_id owner =
    insert room (insert client_id owner (room_owners owners room)) owners

-- The first loop of `sanitizeStates`: only the ids of the frame stay.
unfoldable pub only_inbound : List ℕ → States → States
only_inbound ids [] = []
only_inbound ids ((id, s) ∷ states) =
    let rest = only_inbound ids states in if contains ids id then (id, s) ∷ rest else rest

-- An entry of the frame that is not ignored, with a state. `none` is a throw.
unfoldable pub publish_entry :
    Policy → ℕ → Context → Text → ParsedEntry → Fields → States → Option (Policy × States)
publish_entry p connection c room entry state states = elim (get entry.client_id states) [
  | some (some existing) ↦
      let shown = sanitized c state in
      some (
        record p {
          owners =
              with_owner p.owners room entry.client_id
                (record { clock = entry.clock; connection = connection; state = shown });
          active_client = insert connection entry.client_id p.active_client;
          active_clock =
              insert connection (max entry.clock (or_else (get connection p.active_clock) 0))
                p.active_clock;
        },
        insert entry.client_id (some shown) states,
      )
  | _ ↦ if entry.clock == 0 then some (p, states) else none
]

-- An entry of the frame in the second loop of `sanitizeStates`.
unfoldable pub sanitize_entry :
    Policy → ℕ → Context → Text → List ℕ → ParsedEntry → States → Option (Policy × States)
sanitize_entry p connection c room ignored entry states =
    if contains ignored entry.client_id
    then some (p, delete entry.client_id states)
    else elim entry.state [
      | none ↦ some (
        record p {
          owners = without_owner p.owners room entry.client_id;
          active_client = delete connection p.active_client;
          active_clock = delete connection p.active_clock;
        },
        insert entry.client_id none states,
      )
      | some state ↦ publish_entry p connection c room entry state states
    ]

-- The second loop of `sanitizeStates`. A throw leaves what was written before it.
unfoldable pub sanitize_entries :
    Policy → ℕ → Context → Text → List ℕ → List ParsedEntry → States → (Policy × States) × Bool
sanitize_entries p connection c room ignored [] states = ((p, states), true)
sanitize_entries p connection c room ignored (entry ∷ entries) states =
    elim (sanitize_entry p connection c room ignored entry states) [
      | none ↦ ((p, states), false)
      | some (q, next) ↦ sanitize_entries q connection c room ignored entries next
    ]

abbrev pub test_room : Text
test_room = codes "__test__"

abbrev pub same_text : Text → Text → Bool
same_text s t = holds (Text-discrete s t)

-- `pending.delete(connection)` after the loop.
abbrev pub settled : ℕ → (Policy × States) × Bool → (Policy × States) × Bool
settled connection ((p, states), true) =
    ((record p { pending = delete connection p.pending }, states), true)
settled connection ((p, states), false) = ((p, states), false)

-- sanitizeStates
unfoldable pub sanitize_states : Policy → ℕ → Context → States → (Policy × States) × Bool
sanitize_states p connection c states = elim (get connection p.pending) [
  | none ↦ ((p, states), false)
  | some inbound ↦
      if not (same_text inbound.room c.room) && not (same_text inbound.room test_room)
      then ((p, states), false)
      else settled connection (
          sanitize_entries p connection c
            (if same_text inbound.room test_room then inbound.room else c.room)
            inbound.ignored_client_ids inbound.entries
            (only_inbound (map (λ e. e.client_id) inbound.entries) states))
]
