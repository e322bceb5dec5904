-- ===== src/Resources/Tests.antt =====
-- Runs of the registry, and the theorems at concrete inputs.
use coredot_editor.Prelude.{
  inl, ℕ, ◌+◌, ◌≡◌, ◌≤◌, refl, ◌⊎◌, ◌↔◌, ite, List, [], ◌∷◌, none, some, codes, Number, nat,
  negative, get, text_key, nat_key, arith, ℕ_discrete, Text-discrete, safe_nat,
}
use coredot_editor.Prelude.Result.{ok, err}
use coredot_editor.Resources.{
  over_quota, attach_connection, rollback, shrink, reserve_document, with_document,
  release_document, reserve_document_growth, with_growth, or_throw, admit_update, Limits, Registry,
  ConnectionIdentity, Event, attach, reserve, load, grow, undo, unload, step, run, empty,
  nul_joined, count, reserve_connection, release_connection, with_reservation, connection_limit,
  consume_update, update_limit, window_at, UpdateWindow,
}
use coredot_editor.Resources.Connections.{
  HasQuotas, HasRoom, run-empty-HasQuotas, reserve_connection_iff,
}
use coredot_editor.Resources.Release.{release-reserve}
use coredot_editor.Resources.Documents.{HasBytes}
use coredot_editor.Resources.Total.{run-empty-HasBytes}
use coredot_editor.Resources.Updates.{burst, burst-le_limits, consume_update_iff, IsOpen}

abbrev tight : Limits
tight = record {
  max_connections_per_principal = 1;
  max_connections_per_room = 2;
  max_connections_per_workspace = 2;
  max_loaded_document_bytes = 10;
  max_loaded_documents = 2;
  update_bytes_per_window = 8;
  update_messages_per_window = 2;
  update_window_ms = 100;
}

abbrev ann : ConnectionIdentity
ann = record { principal_id = codes "ann"; room = codes "r"; workspace_id = codes "w" }

abbrev history : List Event
history =
    reserve (codes "s") ann
    ∷ reserve (codes "t") ann
    ∷ attach (nul_joined (codes "s") (codes "r")) 7
    ∷ []

second_refused : count (run tight empty history).room_counts (codes "r") ≡ 1
unfolding run step reserve_connection over_quota with_reservation attach_connection Text-discrete
    ℕ_discrete
second_refused = refl

run-empty-HasQuotas_example : HasQuotas tight (run tight empty history)
run-empty-HasQuotas_example = run-empty-HasQuotas tight history

abbrev reloaded : List Event
reloaded =
    load (codes "r") (nat 4)
    ∷ grow (codes "r") (nat 3)
    ∷ unload (codes "r")
    ∷ load (codes "r") (nat 5)
    ∷ undo 0
    ∷ []

-- A growth of the unloaded document does not touch the one that was loaded after it.
reloaded_total : (run tight empty reloaded).loaded_document_bytes ≡ 5
unfolding run step rollback shrink reserve_document with_document release_document
    reserve_document_growth with_growth or_throw safe_nat Text-discrete ℕ_discrete
reloaded_total = refl

run-empty-HasBytes_example : HasBytes tight (run tight empty reloaded)
run-empty-HasBytes_example = run-empty-HasBytes tight reloaded

reserve_connection_iff_example :
    (((h : Registry) × (reserve_connection tight empty (codes "s") ann
          ≡ ok (h, nul_joined (codes "s") (codes "r"))))
      ↔ ((get (nul_joined (codes "s") (codes "r")) empty.reservations ≡ none)
          × HasRoom tight empty ann))
    × ((reserve_connection tight empty (codes "s") ann ≡ err connection_limit)
        ⊎ ((h : Registry) × (reserve_connection tight empty (codes "s") ann
              ≡ ok (h, nul_joined (codes "s") (codes "r")))))
unfolding run
reserve_connection_iff_example =
    reserve_connection_iff tight empty (codes "s") ann (run-empty-HasQuotas tight [])

abbrev reserved : Registry
reserved =
    with_reservation empty (nul_joined (codes "s") (codes "r"))
      (nul_joined (codes "w") (codes "ann")) (codes "r") (codes "w")

release-reserve_example :
    let k = (release_connection reserved (nul_joined (codes "s") (codes "r"))).0 in
    (count k.principal_counts (codes "x") ≡ 0)
    × (count k.room_counts (codes "x") ≡ 0)
    × (count k.workspace_counts (codes "x") ≡ 0)
    × (get (nul_joined (codes "s") (codes "r")) k.reservations ≡ none)
    × (release_connection k (nul_joined (codes "s") (codes "r")) ≡ (k, none))
unfolding reserve_connection run over_quota
release-reserve_example =
    release-reserve tight empty reserved (codes "s") ann (nul_joined (codes "s") (codes "r"))
      (codes "x") (run-empty-HasQuotas tight []) refl

abbrev typing : List (ℕ × Number)
typing = (0, nat 3) ∷ (10, nat 6) ∷ (20, nat 2) ∷ (30, negative) ∷ (40, nat 1) ∷ []

typing_admitted : burst tight empty 7 typing ≡ (2, 5)
unfolding burst consume_update admit_update window_at or_throw safe_nat ℕ_discrete
typing_admitted = refl

burst-le_limits_example :
    ((burst tight empty 7 typing).0 ≤ 2) × ((burst tight empty 7 typing).1 ≤ 8)
burst-le_limits_example = burst-le_limits tight empty 7 0 typing refl (omega arith)

-- A connection has sent one message of 6 bytes in the window that it opened at 40.
abbrev half_full : UpdateWindow
half_full = record { bytes = 6; messages = 1; started_at = 40 }

abbrev busy : Registry
busy = record empty { update_windows = (7, half_full) ∷ [] }

half_full-IsOpen : IsOpen tight 139 (get 7 busy.update_windows) half_full
unfolding IsOpen ℕ_discrete
half_full-IsOpen = inl (omega arith, refl)

consume_update_iff_example :
    ((1 + 1 ≤ 2)
      × (6 + 3 ≤ 8)
      × ((h : Registry) × (consume_update tight 139 busy 7 (nat 3) ≡ ok h)
          × (get 7 h.update_windows
              ≡ ite
                  (ℕ_discrete 7 7)
                  (some (record half_full { messages = 2; bytes = 9 }))
                  (get 7 busy.update_windows))))
    ⊎ (¬ ((1 + 1 ≤ 2) × (6 + 3 ≤ 8)) × (consume_update tight 139 busy 7 (nat 3) ≡ err update_limit))
unfolding safe_nat
consume_update_iff_example =
    consume_update_iff tight 139 busy 7 7 3 (nat 3) half_full refl half_full-IsOpen
