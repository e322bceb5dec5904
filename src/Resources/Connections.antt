-- ===== src/Resources/Connections.antt =====
-- The connection quotas of src/features/collaboration/server/resource-limits.ts.
use coredot_editor.Prelude.{
  ℕ, ◌<◌, ◌≡◌, refl, ◌⊎◌, ◌↔◌, inl, inr, false, List, [], ◌∷◌, none, some, Text, Number, get,
  IsUnique, delete-IsUnique, insert-IsUnique, Option-cases, Bool-cases, text_key, has, arith,
}
use coredot_editor.Prelude.Result.{ok, err, after}
use coredot_editor.Resources.{
  Limits, Registry, Reservation, Event, connection_limit, commit, rollback, release_document,
  reserve_document, with_document, with_growth, reserve_document_growth, attach, consume, release,
  unload, reserve, load, grow, settle, undo, attach_connection, consume_update, release_connection,
  reserve_connection, over_quota, with_reservation, nul_joined, ConnectionIdentity, first_of_pair,
  step, run, empty,
}
use coredot_editor.Resources.Counts.{
  tally, IsCounted, IsCounted-reserve, IsCounted-release, IsCounted-attach,
}

pub record HasQuotas (l : Limits) (g : Registry) : Type 0 where
  pub keys : IsUnique g.reservations
  pub principals :
      IsCounted (λ r. r.principal) l.max_connections_per_principal g.principal_counts g.reservations
  pub rooms : IsCounted (λ r. r.room) l.max_connections_per_room g.room_counts g.reservations
  pub workspaces :
      IsCounted (λ r. r.workspace) l.max_connections_per_workspace g.workspace_counts g.reservations

-- The quotas depend on the four connection maps only.
HasQuotas-same :
    (l : Limits) (g h : Registry)
    → h.reservations ≡ g.reservations
    → h.principal_counts ≡ g.principal_counts
    → h.room_counts ≡ g.room_counts
    → h.workspace_counts ≡ g.workspace_counts
    → HasQuotas l g
    → HasQuotas l h
HasQuotas-same l g h a b c d v = record {
  keys = rw a v.keys;
  principals = rw (a, b) v.principals;
  rooms = rw (a, c) v.rooms;
  workspaces = rw (a, d) v.workspaces;
}

attach-HasQuotas :
    (l : Limits) (g : Registry) (key : Text) (connection : ℕ)
    → HasQuotas l g
    → HasQuotas l (attach_connection g key connection)
unfolding attach_connection
attach-HasQuotas l g key connection v = elim (Option-cases (get key g.reservations)) [
  | inl e ↦ rw (e, attach_connection) v
  | inr (q, e) ↦
      let r : Reservation = record q { connection = some connection } in
      rw (e, attach_connection)
        (record {
          keys = insert-IsUnique key r g.reservations v.keys;
          principals = IsCounted-attach _ key r g.reservations q v.principals e refl;
          rooms = IsCounted-attach _ key r g.reservations q v.rooms e refl;
          workspaces = IsCounted-attach _ key r g.reservations q v.workspaces e refl;
        })
]

release-HasQuotas :
    (l : Limits) (g : Registry) (key : Text)
    → HasQuotas l g
    → HasQuotas l (release_connection g key).0
unfolding release_connection
release-HasQuotas l g key v = elim (Option-cases (get key g.reservations)) [
  | inl e ↦ rw (e, release_connection) v
  | inr (r, e) ↦
      rw (e, release_connection)
        (record {
          keys = delete-IsUnique key g.reservations v.keys;
          principals = IsCounted-release _ key r g.reservations v.principals e;
          rooms = IsCounted-release _ key r g.reservations v.rooms e;
          workspaces = IsCounted-release _ key r g.reservations v.workspaces e;
        })
]

pub with_reservation-HasQuotas :
    (l : Limits) (g : Registry) (key principal room workspace : Text)
    → HasQuotas l g
    → has key g.reservations ≡ false
    → over_quota l g principal room workspace ≡ false
    → HasQuotas l (with_reservation g key principal room workspace)
unfolding with_reservation over_quota
with_reservation-HasQuotas l g key principal room workspace v fresh within =
    let r : Reservation = record {
      connection = none;
      principal = principal;
      room = room;
      workspace = workspace;
    } in
    let absent : get key g.reservations ≡ none = ground arith in
    record {
      keys = insert-IsUnique key r g.reservations v.keys;
      principals = IsCounted-reserve _ key r g.reservations v.principals absent (ground arith);
      rooms = IsCounted-reserve _ key r g.reservations v.rooms absent (ground arith);
      workspaces = IsCounted-reserve _ key r g.reservations v.workspaces absent (ground arith);
    }

reserve-HasQuotas :
    (l : Limits) (g : Registry) (socket_id : Text) (c : ConnectionIdentity)
    → HasQuotas l g
    → HasQuotas l (after g (first_of_pair (reserve_connection l g socket_id c)))
unfolding reserve_connection
reserve-HasQuotas l g socket_id c v =
    let key : Text = nul_joined socket_id c.room in
    let principal : Text = nul_joined c.workspace_id c.principal_id in
    elim (Bool-cases (has key g.reservations)) [
      | inl e ↦ rw e v
      | inr e ↦ elim (Bool-cases (over_quota l g principal c.room c.workspace_id)) [
        | inl f ↦ rw (e, f) v
        | inr f ↦
            rw (e, f) (with_reservation-HasQuotas l g key principal c.room c.workspace_id v e f)
      ]
    ]

-- What a call does not touch.
abbrev SameConnections : Registry → Registry → Type 0
SameConnections g h =
    (h.reservations ≡ g.reservations)
    × (h.principal_counts ≡ g.principal_counts)
    × (h.room_counts ≡ g.room_counts)
    × (h.workspace_counts ≡ g.workspace_counts)

same-HasQuotas : (l : Limits) (g h : Registry) → SameConnections g h → HasQuotas l g → HasQuotas l h
same-HasQuotas l g h (a, b, c, d) v = HasQuotas-same l g h a b c d v

consume-SameConnections :
    (l : Limits) (now : ℕ) (g : Registry) (connection : ℕ) (bytes : Number)
    → SameConnections g (after g (consume_update l now g connection bytes))
unfolding consume_update
consume-SameConnections l now g connection bytes = ground arith

unload-SameConnections : (g : Registry) (room : Text) → SameConnections g (release_document g room)
unfolding release_document
unload-SameConnections g room = ground arith

load-SameConnections :
    (l : Limits) (g : Registry) (room : Text) (bytes : Number)
    → SameConnections g (after g (reserve_document l g room bytes))
unfolding reserve_document with_document
load-SameConnections l g room bytes = ground arith

grow-SameConnections :
    (l : Limits) (g : Registry) (room : Text) (bytes : Number)
    → SameConnections g (after g (first_of_pair (reserve_document_growth l g room bytes)))
unfolding reserve_document_growth with_growth
grow-SameConnections l g room bytes = ground arith

commit-SameConnections : (g : Registry) (handle : ℕ) → SameConnections g (commit g handle)
unfolding commit
commit-SameConnections g handle = ground arith

rollback-SameConnections : (g : Registry) (handle : ℕ) → SameConnections g (rollback g handle)
unfolding rollback
rollback-SameConnections g handle = ground arith

step-HasQuotas : (l : Limits) (g : Registry) (e : Event) → HasQuotas l g → HasQuotas l (step l g e)
unfolding step
step-HasQuotas l g (attach key connection) v = attach-HasQuotas l g key connection v
step-HasQuotas l g (consume now connection bytes) v =
    same-HasQuotas l g _ (consume-SameConnections l now g connection bytes) v
step-HasQuotas l g (release key) v = release-HasQuotas l g key v
step-HasQuotas l g (unload room) v = same-HasQuotas l g _ (unload-SameConnections g room) v
step-HasQuotas l g (reserve socket_id c) v = reserve-HasQuotas l g socket_id c v
step-HasQuotas l g (load room bytes) v =
    same-HasQuotas l g _ (load-SameConnections l g room bytes) v
step-HasQuotas l g (grow room bytes) v =
    same-HasQuotas l g _ (grow-SameConnections l g room bytes) v
step-HasQuotas l g (settle handle) v = same-HasQuotas l g _ (commit-SameConnections g handle) v
step-HasQuotas l g (undo handle) v = same-HasQuotas l g _ (rollback-SameConnections g handle) v

run-HasQuotas :
    (l : Limits) (g : Registry) (es : List Event) → HasQuotas l g → HasQuotas l (run l g es)
unfolding run
run-HasQuotas l g [] v = v
run-HasQuotas l g (e ∷ es) v = run-HasQuotas l (step l g e) es (step-HasQuotas l g e v)

none-IsCounted : (owner : Reservation → Text) (limit : ℕ) → IsCounted owner limit [] []
none-IsCounted owner limit = record {
  distinct = tt;
  counted = λ t. refl;
  bounded = λ t. omega arith;
}

-- After any sequence of calls from the empty registry, each of the three count maps has one entry for
-- a key at most, gives for every key the number of the reservations that belong to it, and stays
-- within its limit.
pub run-empty-HasQuotas : (l : Limits) (es : List Event) → HasQuotas l (run l empty es)
run-empty-HasQuotas l es = run-HasQuotas l empty es (record {
  keys = tt;
  principals = none-IsCounted _ _;
  rooms = none-IsCounted _ _;
  workspaces = none-IsCounted _ _;
})

-- The reservations that belong to a principal, a room and a workspace are all below their limits.
abbrev pub HasRoom : Limits → Registry → ConnectionIdentity → Type 0
HasRoom l g c =
    (tally (λ r. r.principal) (nul_joined c.workspace_id c.principal_id) g.reservations
      < l.max_connections_per_principal)
    × (tally (λ r. r.room) c.room g.reservations < l.max_connections_per_room)
    × (tally (λ r. r.workspace) c.workspace_id g.reservations < l.max_connections_per_workspace)

over_quota-HasRoom :
    (l : Limits) (g : Registry) (c : ConnectionIdentity)
    → HasQuotas l g
    → (over_quota l g (nul_joined c.workspace_id c.principal_id) c.room c.workspace_id ≡ false)
      ↔ HasRoom l g c
unfolding over_quota
over_quota-HasRoom l g c v = ground (
  arith,
  v.principals.counted (nul_joined c.workspace_id c.principal_id),
  v.rooms.counted c.room,
  v.workspaces.counted c.workspace_id,
)

-- On a registry whose counts are right, a connection is reserved, under the key of its socket and its
-- room, exactly when that key is free and the numbers of reservations of its principal, its room and
-- its workspace are all below their limits. Otherwise the call throws `connection_limit`.
pub reserve_connection_iff :
    (l : Limits) (g : Registry) (socket_id : Text) (c : ConnectionIdentity)
    → HasQuotas l g
    → (((h : Registry) × (reserve_connection l g socket_id c ≡ ok (h, nul_joined socket_id c.room)))
        ↔ ((get (nul_joined socket_id c.room) g.reservations ≡ none) × HasRoom l g c))
      × ((reserve_connection l g socket_id c ≡ err connection_limit)
          ⊎ ((h : Registry) × (reserve_connection l g socket_id c
                ≡ ok (h, nul_joined socket_id c.room))))
unfolding reserve_connection
reserve_connection_iff l g socket_id c v =
    let key : Text = nul_joined socket_id c.room in
    let principal : Text = nul_joined c.workspace_id c.principal_id in
    let quota = over_quota-HasRoom l g c v in
    elim (Option-cases (get key g.reservations)) [
      | inr (r, e) ↦ rw e ((λ (h, f). cc, λ (f, room). cc), inl refl)
      | inl e ↦ elim (Bool-cases (over_quota l g principal c.room c.workspace_id)) [
        | inl f ↦ rw (e, f) ((λ (h, k). cc, λ (k, room). cc (quota.1 room)), inl refl)
        | inr f ↦
            let h : Registry = with_reservation g key principal c.room c.workspace_id in
            rw (e, f) ((λ k. (refl, quota.0 f), λ k. (h, refl)), inr (h, refl))
      ]
    ]
