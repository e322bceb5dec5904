-- ===== src/Awareness/Leaving.antt =====
-- `finish`, `release` and `trackedRoomCount` of src/features/collaboration/server/awareness-policy.ts.
use coredot_editor.Prelude.{
  ℕ, List, [], ◌∷◌, none, some, Text, get, insert, delete, text_key, nat_key, if◌then◌else◌, ◌==◌,
  length,
}
use coredot_editor.Awareness.Decoding.{is_empty}
use coredot_editor.Awareness.State.{Owner, Owners, Policy}

-- finish
unfoldable pub finish : Policy → ℕ → Policy
finish p connection = record p { pending = delete connection p.pending }

-- A connection leaves the client id that it owns in a room.
unfoldable pub leave_room : ℕ → ℕ → List (ℕ × Owner) → List (ℕ × Owner)
leave_room connection client_id held = elim (get client_id held) [
  | none ↦ held
  | some owner ↦ if owner.connection == connection then delete client_id held else held
]

-- The loop of `release` over all rooms.
unfoldable pub leave_rooms : ℕ → ℕ → Owners → Owners
leave_rooms connection client_id [] = []
leave_rooms connection client_id ((room, held) ∷ owners) =
    let rest = leave_rooms connection client_id owners in
    elim (leave_room connection client_id held) [ [] ↦ rest | o ∷ os ↦ (room, o ∷ os) ∷ rest ]

-- The room that `release` is given.
unfoldable pub leave_exact : ℕ → ℕ → Text → Owners → Owners
leave_exact connection client_id room owners = elim (get room owners) [
  | none ↦ owners
  | some held ↦ elim (leave_room connection client_id held) [
    | [] ↦ delete room owners
    | o ∷ os ↦ insert room (o ∷ os) owners
  ]
]

-- release. An empty text is no room.
unfoldable pub release : Policy → ℕ → Text → Policy
release p connection exact_room =
    let q = record p {
      pending = delete connection p.pending;
      rates = delete connection p.rates;
      total_rates = delete connection p.total_rates;
      active_client = delete connection p.active_client;
      active_clock = delete connection p.active_clock;
    } in
    elim (get connection p.active_client) [
      | none ↦ q
      | some client_id ↦
          if is_empty exact_room
          then record q { owners = leave_rooms connection client_id p.owners }
          else record q { owners = leave_exact connection client_id exact_room p.owners }
    ]

-- trackedRoomCount
unfoldable pub tracked_room_count : Policy → ℕ
tracked_room_count p = length p.owners
