-- ===== src/Resources.antt =====
-- src/features/collaboration/server/resource-limits.ts: the registry of the collaboration sidecar's
-- connections, update windows and resident documents. Objects are numbers, and the closures that
-- `reserveDocumentGrowth` returns are handles into a list.
mod Counts
pub mod Connections
pub mod Release
mod Ledger
pub mod Documents
mod Rollback
pub mod Total
pub mod Updates
mod Tests
use coredot_editor.Prelude.{
  ℕ, suc, ◌+◌, ◌-◌, ◌*◌, Bool, true, false, ◌||◌, not, List, [], ◌∷◌, ◌++◌, Option, none, some,
  Text, Number, safe_nat, get, insert, delete, has, or_else, is_some, ltb, leb, ◌==◌, if◌then◌else◌,
  length, get_elem?, set, text_key, nat_key,
}
use coredot_editor.Prelude.Result.{Result, ok, err, ◌>>=◌, ◌>>◌, guard, after}

pub data Category : Type 0 where
  connection_limit document_limit update_limit : Category

pub record Limits : Type 0 where
  pub max_connections_per_principal : ℕ
  pub max_connections_per_room : ℕ
  pub max_connections_per_workspace : ℕ
  pub max_loaded_document_bytes : ℕ
  pub max_loaded_documents : ℕ
  pub update_bytes_per_window : ℕ
  pub update_messages_per_window : ℕ
  pub update_window_ms : ℕ

abbrev pub collaboration_limits : Limits
collaboration_limits = record {
  max_connections_per_principal = 5;
  max_connections_per_room = 50;
  max_connections_per_workspace = 200;
  max_loaded_document_bytes = 64 * 1024 * 1024;
  max_loaded_documents = 64;
  update_bytes_per_window = 2 * 1024 * 1024;
  update_messages_per_window = 120;
  update_window_ms = 1000;
}

pub record ConnectionIdentity : Type 0 where
  pub principal_id : Text
  pub room : Text
  pub workspace_id : Text

pub record Reservation : Type 0 where
  pub connection : Option ℕ
  pub principal : Text
  pub room : Text
  pub workspace : Text

pub record UpdateWindow : Type 0 where
  pub bytes : ℕ
  pub messages : ℕ
  pub started_at : ℕ

pub record LoadedDocument : Type 0 where
  pub bytes : ℕ
  pub incarnation : ℕ

-- What the closures of one growth share.
pub record Growth : Type 0 where
  pub room : Text
  pub bytes : ℕ
  pub incarnation : ℕ
  pub settled : Bool

pub record Registry : Type 0 where
  pub reservations : List (Text × Reservation)
  pub principal_counts : List (Text × ℕ)
  pub room_counts : List (Text × ℕ)
  pub workspace_counts : List (Text × ℕ)
  pub update_windows : List (ℕ × UpdateWindow)
  pub loaded_documents : List (Text × LoadedDocument)
  pub loaded_document_bytes : ℕ
  pub next_document_incarnation : ℕ
  pub growths : List Growth

abbrev pub empty : Registry
empty = record {
  reservations = [];
  principal_counts = [];
  room_counts = [];
  workspace_counts = [];
  update_windows = [];
  loaded_documents = [];
  loaded_document_bytes = 0;
  next_document_incarnation = 1;
  growths = [];
}

pub attach_connection : Registry → Text → ℕ → Registry
attach_connection g key connection = elim (get key g.reservations) [
  | none ↦ g
  | some r ↦ record g {
    reservations = insert key (record r { connection = some connection }) g.reservations;
  }
]

-- The window that an update at `now` counts against.
pub window_at : Limits → ℕ → Option UpdateWindow → UpdateWindow
window_at l now none = record { bytes = 0; messages = 0; started_at = now }
window_at l now (some w) =
    if leb (w.started_at + l.update_window_ms) now
    then record { bytes = 0; messages = 0; started_at = now }
    else w

pub admit_update : Limits → UpdateWindow → ℕ → Option UpdateWindow
admit_update l w bytes =
    if ltb l.update_messages_per_window (w.messages + 1)
      || ltb l.update_bytes_per_window (w.bytes + bytes)
    then none
    else some (record w { messages = w.messages + 1; bytes = w.bytes + bytes })

pub or_throw : {A : Type 0} → Option A → Category → Result Category A
or_throw none c = err c
or_throw (some a) c = ok a

pub consume_update : Limits → ℕ → Registry → ℕ → Number → Result Category Registry
unfolding or_throw
consume_update l now g connection bytes = do
  n ← or_throw (safe_nat bytes) update_limit
  w ← or_throw (admit_update l (window_at l now (get connection g.update_windows)) n) update_limit
  ok (record g { update_windows = insert connection w g.update_windows })

pub decrement : List (Text × ℕ) → Text → List (Text × ℕ)
decrement counts key =
    let next = or_else (get key counts) 1 - 1 in
    if next == 0 then delete key counts else insert key next counts

-- The registry after the call, and the connection that was attached.
pub release_connection : Registry → Text → Registry × Option ℕ
release_connection g key = elim (get key g.reservations) [
  | none ↦ (g, none)
  | some r ↦ (
    record g {
      reservations = delete key g.reservations;
      principal_counts = decrement g.principal_counts r.principal;
      room_counts = decrement g.room_counts r.room;
      workspace_counts = decrement g.workspace_counts r.workspace;
    },
    r.connection,
  )
]

pub release_document : Registry → Text → Registry
release_document g room = elim (get room g.loaded_documents) [
  | none ↦ g
  | some d ↦ record g {
    loaded_documents = delete room g.loaded_documents;
    loaded_document_bytes = g.loaded_document_bytes - d.bytes;
  }
]

-- `${left}\0${right}`
abbrev pub nul_joined : Text → Text → Text
nul_joined left right = left ++ 0 ∷ right

abbrev pub count : List (Text × ℕ) → Text → ℕ
count counts key = or_else (get key counts) 0

-- The tests of `reserveConnection` against the limits.
pub over_quota : Limits → Registry → Text → Text → Text → Bool
over_quota l g principal room workspace =
    leb l.max_connections_per_principal (count g.principal_counts principal)
    || leb l.max_connections_per_room (count g.room_counts room)
    || leb l.max_connections_per_workspace (count g.workspace_counts workspace)

-- The writes of `reserveConnection`.
pub with_reservation : Registry → Text → Text → Text → Text → Registry
with_reservation g key principal room workspace = record g {
  reservations =
      insert key
        (record { connection = none; principal = principal; room = room; workspace = workspace })
        g.reservations;
  principal_counts = insert principal (count g.principal_counts principal + 1) g.principal_counts;
  room_counts = insert room (count g.room_counts room + 1) g.room_counts;
  workspace_counts = insert workspace (count g.workspace_counts workspace + 1) g.workspace_counts;
}

pub reserve_connection :
    Limits → Registry → Text → ConnectionIdentity → Result Category (Registry × Text)
reserve_connection l g socket_id c = do
  let key = nul_joined socket_id c.room
  let principal = nul_joined c.workspace_id c.principal_id
  guard (not (has key g.reservations)) connection_limit
  guard (not (over_quota l g principal c.room c.workspace_id)) connection_limit
  ok (with_reservation g key principal c.room c.workspace_id, key)

-- The writes of `reserveDocument`.
pub with_document : Registry → Text → ℕ → Registry
with_document g room bytes = record g {
  loaded_documents =
      insert room (record { bytes = bytes; incarnation = g.next_document_incarnation })
        g.loaded_documents;
  next_document_incarnation = g.next_document_incarnation + 1;
  loaded_document_bytes = g.loaded_document_bytes + bytes;
}

pub reserve_document : Limits → Registry → Text → Number → Result Category Registry
unfolding or_throw
reserve_document l g room bytes = do
  n ← or_throw (safe_nat bytes) document_limit
  if has room g.loaded_documents
      then ok g
      else if leb l.max_loaded_documents (length g.loaded_documents)
          || ltb l.max_loaded_document_bytes (g.loaded_document_bytes + n)
      then err document_limit
      else ok (with_document g room n)

-- The writes of `reserveDocumentGrowth`.
pub with_growth : Registry → Text → LoadedDocument → ℕ → Registry
with_growth g room d bytes = record g {
  loaded_documents = insert room (record d { bytes = d.bytes + bytes }) g.loaded_documents;
  loaded_document_bytes = g.loaded_document_bytes + bytes;
  growths =
      g.growths
      ++ record { room = room; bytes = bytes; incarnation = d.incarnation; settled = false } ∷ [];
}

-- The registry after the call, and the handle of the growth.
pub reserve_document_growth : Limits → Registry → Text → Number → Result Category (Registry × ℕ)
unfolding or_throw
reserve_document_growth l g room bytes = do
  n ← or_throw (safe_nat bytes) document_limit
  d ← or_throw (get room g.loaded_documents) document_limit
  if ltb l.max_loaded_document_bytes (g.loaded_document_bytes + n)
      then err document_limit
      else ok (with_growth g room d n, length g.growths)

pub commit : Registry → ℕ → Registry
commit g handle = elim (get_elem? g.growths handle) [
  | none ↦ g
  | some w ↦ record g { growths = set g.growths handle (record w { settled = true }) }
]

-- The bytes of a growth leave the document that is still the one that grew.
pub shrink : Registry → Growth → Registry
shrink g w = elim (get w.room g.loaded_documents) [
  | none ↦ g
  | some latest ↦
      if latest.incarnation == w.incarnation
      then record g {
        loaded_documents =
            insert w.room (record latest { bytes = latest.bytes - w.bytes }) g.loaded_documents;
        loaded_document_bytes = g.loaded_document_bytes - w.bytes;
      }
      else g
]

pub rollback : Registry → ℕ → Registry
unfolding shrink
rollback g handle = elim (get_elem? g.growths handle) [
  | none ↦ g
  | some w ↦
      if w.settled
      then g
      else shrink (record g { growths = set g.growths handle (record w { settled = true }) }) w
]

pub data Event : Type 0 where
  attach : Text → ℕ → Event
  consume : ℕ → ℕ → Number → Event
  release : Text → Event
  unload : Text → Event
  reserve : Text → ConnectionIdentity → Event
  load : Text → Number → Event
  grow : Text → Number → Event
  settle undo : ℕ → Event

abbrev pub first_of_pair : {A B : Type 0} → Result Category (A × B) → Result Category A
first_of_pair (ok p) = ok p.0
first_of_pair (err e) = err e

-- One call of the registry; a call that throws leaves it as it was.
pub step : Limits → Registry → Event → Registry
step l g (attach key connection) = attach_connection g key connection
step l g (consume now connection bytes) = after g (consume_update l now g connection bytes)
step l g (release key) = (release_connection g key).0
step l g (unload room) = release_document g room
step l g (reserve socket_id c) = after g (first_of_pair (reserve_connection l g socket_id c))
step l g (load room bytes) = after g (reserve_document l g room bytes)
step l g (grow room bytes) = after g (first_of_pair (reserve_document_growth l g room bytes))
step l g (settle handle) = commit g handle
step l g (undo handle) = rollback g handle

pub run : Limits → Registry → List Event → Registry
run l g [] = g
run l g (e ∷ es) = run l (step l g e) es
