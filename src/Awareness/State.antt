-- ===== src/Awareness/State.antt =====
-- The state of the policy of src/features/collaboration/server/awareness-policy.ts, and its rates.
-- Connections are numbers; the maps from connections are lists of entries.
use coredot_editor.Prelude.{
  ℕ, ◌+◌, ◌-◌, List, [], Option, none, some, Text, get, insert, text_key, nat_key, or_else,
  if◌then◌else◌, leb,
}
use coredot_editor.Awareness.Values.{Fields}
use coredot_editor.Awareness.Decoding.{ParsedEntry}

pub record RateLimit : Type 0 where
  pub messages : ℕ
  pub window_ms : ℕ

-- AWARENESS_RATE_LIMIT, AWARENESS_TOTAL_RATE_LIMIT
abbrev pub awareness_rate_limit : RateLimit
awareness_rate_limit = record { messages = 20; window_ms = 1000 }

abbrev pub awareness_total_rate_limit : RateLimit
awareness_total_rate_limit = record { messages = 256; window_ms = 1000 }

pub record Rate : Type 0 where
  pub count : ℕ
  pub window_started_at : ℕ

-- AwarenessOwner
pub record Owner : Type 0 where
  pub clock : ℕ
  pub connection : ℕ
  pub state : Fields

-- PendingAwareness
pub record PendingAwareness : Type 0 where
  pub entries : List ParsedEntry
  pub ignored_client_ids : List ℕ
  pub room : Text

-- The part of VerifiedCollaborationContext that the policy reads.
pub record Context : Type 0 where
  pub color : Text
  pub display_name : Text
  pub principal_id : Text
  pub session_id : Text
  pub room : Text

abbrev pub Rates : Type 0
Rates = List (ℕ × Rate)

abbrev pub Owners : Type 0
Owners = List (Text × List (ℕ × Owner))

pub record Policy : Type 0 where
  pub pending : List (ℕ × PendingAwareness)
  pub rates : Rates
  pub total_rates : Rates
  pub active_client : List (ℕ × ℕ)
  pub active_clock : List (ℕ × ℕ)
  pub owners : Owners

abbrev pub create_policy : Policy
create_policy = record {
  pending = [];
  rates = [];
  total_rates = [];
  active_client = [];
  active_clock = [];
  owners = [];
}

-- tryConsumeRate: the rates after it, or `none` where it gives false.
unfoldable pub try_consume_rate : RateLimit → Rates → ℕ → ℕ → Option Rates
try_consume_rate limit rates connection timestamp = elim (get connection rates) [
  | none ↦ some (insert connection (record { count = 1; window_started_at = timestamp }) rates)
  | some current ↦
      if leb limit.window_ms (timestamp - current.window_started_at)
      then some (insert connection (record { count = 1; window_started_at = timestamp }) rates)
      else if leb limit.messages current.count
      then none
      else some (insert connection (record current { count = current.count + 1 }) rates)
]

abbrev pub room_owners : Owners → Text → List (ℕ × Owner)
room_owners owners room = or_else (get room owners) []

-- The owner of a client id in a room.
abbrev pub owner_of : Owners → Text → ℕ → Option Owner
owner_of owners room client_id = get client_id (room_owners owners room)
