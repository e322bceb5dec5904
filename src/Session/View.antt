-- ===== src/Session/View.antt =====
-- The session's state, and the snapshot that src/features/collaboration/client/session-store.ts derives
-- from it; the test of src/features/collaboration/client/durability-state.ts.
use coredot_editor.Prelude.{
  ℕ, Bool, true, false, ◌&&◌, ◌||◌, not, List, [], ◌∷◌, Option, none, some, Text, ltb, leb, ◌==◌,
  if◌then◌else◌, length, all, holds, ℕ_discrete,
}

pub data Status : Type 0 where
  authorization_expired connecting fatal offline_pending read_only reconnecting storage_delayed
        synced :
      Status

pub data Lifecycle : Type 0 where
  authorization_expired connecting fatal reconnecting : Lifecycle

pub data Permission : Type 0 where
  read write : Permission

pub record State : Type 0 where
  pub has_completed_initial_sync : Bool
  pub lifecycle : Lifecycle
  pub pending_durable_acknowledgement_checksums : List Text
  pub pending_local_checksums : List Text
  pub pending_local_update_count : ℕ
  pub permission : Option Permission
  pub requires_fresh_sync : Bool
  pub storage_delayed : Bool
  pub transport_synced : Bool

pub record Snapshot : Type 0 where
  pub has_completed_initial_sync : Bool
  pub pending_durable_acknowledgement_checksums : List Text
  pub pending_local_checksums : List Text
  pub pending_local_update_count : ℕ
  pub permission : Option Permission
  pub status : Status
  pub transport_synced : Bool
  pub writable : Bool

unfoldable pub Status-discrete : Discrete Status
Status-discrete = hlevel

unfoldable pub Permission-discrete : Discrete (Option Permission)
Permission-discrete = hlevel

unfoldable pub Texts-discrete : Discrete (List Text)
Texts-discrete = hlevel ℕ_discrete

abbrev pub is_hex : ℕ → Bool
is_hex c = (leb b'0' c && leb c b'9') || (leb b'a' c && leb c b'f')

-- `/^[0-9a-f]{64}$/`
unfoldable pub is_checksum : Text → Bool
is_checksum checksum = length checksum == 64 && all is_hex checksum

abbrev pub lifecycle_status : Lifecycle → Status
lifecycle_status Lifecycle.authorization_expired = Status.authorization_expired
lifecycle_status Lifecycle.connecting = Status.connecting
lifecycle_status Lifecycle.fatal = Status.fatal
lifecycle_status Lifecycle.reconnecting = Status.reconnecting

abbrev pub is_nonempty : List Text → Bool
is_nonempty [] = false
is_nonempty (c ∷ cs) = true

abbrev pub has_pending : State → Bool
has_pending s =
    is_nonempty s.pending_local_checksums
    || ltb 0 s.pending_local_update_count
    || is_nonempty s.pending_durable_acknowledgement_checksums

-- The tests of `deriveStatus` after those on the lifecycle.
abbrev pub settled_status : State → Status
settled_status s =
    if s.storage_delayed
    then Status.storage_delayed
    else if not s.transport_synced
    then lifecycle_status s.lifecycle
    else elim s.permission [
      | none ↦ lifecycle_status s.lifecycle
      | some read ↦ Status.read_only
      | some write ↦ Status.synced
    ]

abbrev pub status_in : Lifecycle → State → Status
status_in Lifecycle.fatal s = Status.fatal
status_in Lifecycle.authorization_expired s = Status.authorization_expired
status_in Lifecycle.reconnecting s =
    if has_pending s then Status.offline_pending else settled_status s
status_in Lifecycle.connecting s = settled_status s

unfoldable pub derive_status : State → Status
derive_status s = status_in s.lifecycle s

abbrev pub is_write : Option Permission → Bool
is_write none = false
is_write (some read) = false
is_write (some write) = true

abbrev pub online_status : Status → Bool
online_status Status.synced = true
online_status Status.storage_delayed = true
online_status _ = false

abbrev pub offline_status : Status → Bool
offline_status Status.reconnecting = true
offline_status Status.offline_pending = true
offline_status Status.storage_delayed = true
offline_status _ = false

unfoldable pub is_writable : State → Bool
unfolding derive_status
is_writable s =
    is_write s.permission
    && ((s.transport_synced && online_status (derive_status s))
        || (s.has_completed_initial_sync
            && not s.requires_fresh_sync
            && offline_status (derive_status s)))

unfoldable pub create_snapshot : State → Snapshot
unfolding is_writable
create_snapshot s = record {
  has_completed_initial_sync = s.has_completed_initial_sync;
  pending_durable_acknowledgement_checksums = s.pending_durable_acknowledgement_checksums;
  pending_local_checksums = s.pending_local_checksums;
  pending_local_update_count = s.pending_local_update_count;
  permission = s.permission;
  status = derive_status s;
  transport_synced = s.transport_synced;
  writable = is_writable s;
}

abbrev pub bool_eq : Bool → Bool → Bool
bool_eq true b = b
bool_eq false b = not b

unfoldable pub snapshots_equal : Snapshot → Snapshot → Bool
snapshots_equal previous next =
    holds (Permission-discrete previous.permission next.permission)
    && bool_eq previous.has_completed_initial_sync next.has_completed_initial_sync
    && holds (Status-discrete previous.status next.status)
    && bool_eq previous.transport_synced next.transport_synced
    && bool_eq previous.writable next.writable
    && previous.pending_local_update_count == next.pending_local_update_count
    && holds (Texts-discrete previous.pending_local_checksums next.pending_local_checksums)
    && holds (
        Texts-discrete previous.pending_durable_acknowledgement_checksums
          next.pending_durable_acknowledgement_checksums)

-- hasPendingCollaborationUpdates
unfoldable pub has_pending_collaboration_updates : Snapshot → Bool
has_pending_collaboration_updates n =
    ltb 0 n.pending_local_update_count
    || is_nonempty n.pending_local_checksums
    || is_nonempty n.pending_durable_acknowledgement_checksums

abbrev pub initial_state : State
initial_state = record {
  has_completed_initial_sync = false;
  lifecycle = Lifecycle.connecting;
  pending_durable_acknowledgement_checksums = [];
  pending_local_checksums = [];
  pending_local_update_count = 0;
  permission = none;
  requires_fresh_sync = false;
  storage_delayed = false;
  transport_synced = false;
}
