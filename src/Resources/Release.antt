-- ===== src/Resources/Release.antt =====
-- Reserving a connection and giving it back, in src/features/collaboration/server/resource-limits.ts.
use coredot_editor.Prelude.{
  ℕ, ◌+◌, ◌≡◌, false, List, none, Text, get, insert, IsUnique, get-insert_self, get-delete_self,
  text_key, has, arith,
}
use coredot_editor.Prelude.Result.{ok}
use coredot_editor.Resources.{
  Limits, Registry, Reservation, release_connection, decrement, count, reserve_connection,
  over_quota, with_reservation, nul_joined, ConnectionIdentity,
}
use coredot_editor.Resources.Counts.{count-insert, count-decrement}
use coredot_editor.Resources.Connections.{HasQuotas, with_reservation-HasQuotas}

-- What a reservation that succeeds has tested and written.
reserve_connection_inv :
    (l : Limits) (g h : Registry) (socket_id : Text) (c : ConnectionIdentity) (key : Text)
    → reserve_connection l g socket_id c ≡ ok (h, key)
    → let principal = nul_joined c.workspace_id c.principal_id in
      (has key g.reservations ≡ false)
      × (over_quota l g principal c.room c.workspace_id ≡ false)
      × (h ≡ with_reservation g key principal c.room c.workspace_id)
unfolding reserve_connection
reserve_connection_inv l g h socket_id c key e = ground arith

count_restored :
    (counts : List (Text × ℕ)) (k t : Text)
    → IsUnique (insert k (count counts k + 1) counts)
    → count (decrement (insert k (count counts k + 1) counts) k) t ≡ count counts t
count_restored counts k t u = ground (
  arith,
  count-decrement (insert k (count counts k + 1) counts) k t u,
  count-insert counts k t (count counts k + 1),
)

module _ (l : Limits) (g : Registry) (key principal room workspace t : Text)
    (w : HasQuotas l (with_reservation g key principal room workspace)) where
  release_restores :
      let k = (release_connection (with_reservation g key principal room workspace) key).0 in
      (count k.principal_counts t ≡ count g.principal_counts t)
      × (count k.room_counts t ≡ count g.room_counts t)
      × (count k.workspace_counts t ≡ count g.workspace_counts t)
      × (get key k.reservations ≡ none)
  unfolding release_connection with_reservation
  release_restores =
      let r : Reservation = record {
        connection = none;
        principal = principal;
        room = room;
        workspace = workspace;
      } in
      rw (get-insert_self key r g.reservations, release_connection)
        (
          count_restored g.principal_counts principal t w.principals.distinct,
          count_restored g.room_counts room t w.rooms.distinct,
          count_restored g.workspace_counts workspace t w.workspaces.distinct,
          get-delete_self key (insert key r g.reservations) w.keys,
        )

release_absent :
    (k : Registry) (key : Text)
    → get key k.reservations ≡ none
    → release_connection k key ≡ (k, none)
unfolding release_connection
release_absent k key e = rw (e, release_connection)

-- Releasing a connection that was just reserved gives its place back: every count is what it was
-- before the reservation, and the key is free. Releasing the key once more changes nothing.
pub release-reserve :
    (l : Limits) (g h : Registry) (socket_id : Text) (c : ConnectionIdentity) (key t : Text)
    → HasQuotas l g
    → reserve_connection l g socket_id c ≡ ok (h, key)
    → let k = (release_connection h key).0 in
      (count k.principal_counts t ≡ count g.principal_counts t)
      × (count k.room_counts t ≡ count g.room_counts t)
      × (count k.workspace_counts t ≡ count g.workspace_counts t)
      × (get key k.reservations ≡ none)
      × (release_connection k key ≡ (k, none))
release-reserve l g h socket_id c key t v e =
    let principal : Text = nul_joined c.workspace_id c.principal_id in
    let (fresh, within, same) = reserve_connection_inv l g h socket_id c key e in
    let w = with_reservation-HasQuotas l g key principal c.room c.workspace_id v fresh within in
    let (a, b, d, f) = release_restores l g key principal c.room c.workspace_id t w in
    rw same (a, b, d, f, release_absent _ key f)
