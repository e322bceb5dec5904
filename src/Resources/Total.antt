-- ===== src/Resources/Total.antt =====
-- The running total of resident bytes over whole histories of
-- src/features/collaboration/server/resource-limits.ts.
use coredot_editor.Prelude.{ℕ, ◌≡◌, refl, List, [], ◌∷◌, Text, Number, text_key, arith}
use coredot_editor.Prelude.Result.{after}
use coredot_editor.Resources.{
  Limits, Registry, Event, attach, consume, release, unload, reserve, load, grow, settle, undo,
  attach_connection, consume_update, release_connection, reserve_connection, with_reservation,
  ConnectionIdentity, first_of_pair, step, run, empty,
}
use coredot_editor.Resources.Documents.{HasBytes, unload-HasBytes, load-HasBytes, grow-HasBytes}
use coredot_editor.Resources.Rollback.{rollback-HasBytes, commit-HasBytes}

-- What a call does not touch.
abbrev SameDocuments : Registry → Registry → Type 0
SameDocuments g h =
    (h.loaded_documents ≡ g.loaded_documents)
    × (h.loaded_document_bytes ≡ g.loaded_document_bytes)
    × (h.next_document_incarnation ≡ g.next_document_incarnation)
    × (h.growths ≡ g.growths)

same-HasBytes : (l : Limits) (g h : Registry) → SameDocuments g h → HasBytes l g → HasBytes l h
same-HasBytes l g h (a, b, c, d) v = record {
  rooms = rw a v.rooms;
  total = rw (a, b) v.total;
  bounded = rw b v.bounded;
  few = rw a v.few;
  growths_fresh = rw (c, d) v.growths_fresh;
  documents_fresh = rw (a, c) v.documents_fresh;
  covered = rw (a, d) v.covered;
}

attach-SameDocuments :
    (g : Registry) (key : Text) (connection : ℕ)
    → SameDocuments g (attach_connection g key connection)
unfolding attach_connection
attach-SameDocuments g key connection = ground arith

consume-SameDocuments :
    (l : Limits) (now : ℕ) (g : Registry) (connection : ℕ) (bytes : Number)
    → SameDocuments g (after g (consume_update l now g connection bytes))
unfolding consume_update
consume-SameDocuments l now g connection bytes = ground arith

release-SameDocuments : (g : Registry) (key : Text) → SameDocuments g (release_connection g key).0
unfolding release_connection
release-SameDocuments g key = ground arith

reserve-SameDocuments :
    (l : Limits) (g : Registry) (socket_id : Text) (c : ConnectionIdentity)
    → SameDocuments g (after g (first_of_pair (reserve_connection l g socket_id c)))
unfolding reserve_connection with_reservation
reserve-SameDocuments l g socket_id c = ground arith

step-HasBytes : (l : Limits) (g : Registry) (e : Event) → HasBytes l g → HasBytes l (step l g e)
unfolding step
step-HasBytes l g (attach key connection) v =
    same-HasBytes l g _ (attach-SameDocuments g key connection) v
step-HasBytes l g (consume now connection bytes) v =
    same-HasBytes l g _ (consume-SameDocuments l now g connection bytes) v
step-HasBytes l g (release key) v = same-HasBytes l g _ (release-SameDocuments g key) v
step-HasBytes l g (unload room) v = unload-HasBytes l g room v
step-HasBytes l g (reserve socket_id c) v =
    same-HasBytes l g _ (reserve-SameDocuments l g socket_id c) v
step-HasBytes l g (load room bytes) v = load-HasBytes l g room bytes v
step-HasBytes l g (grow room bytes) v = grow-HasBytes l g room bytes v
step-HasBytes l g (settle handle) v = commit-HasBytes l g handle v
step-HasBytes l g (undo handle) v = rollback-HasBytes l g handle v

run-HasBytes :
    (l : Limits) (g : Registry) (es : List Event) → HasBytes l g → HasBytes l (run l g es)
unfolding run
run-HasBytes l g [] v = v
run-HasBytes l g (e ∷ es) v = run-HasBytes l (step l g e) es (step-HasBytes l g e v)

-- After any sequence of calls from the empty registry, with growths committed or rolled back at any
-- later time and any number of times, no room is resident twice, the running total is the sum of the
-- resident documents' bytes and within its limit, the number of resident documents is within its
-- limit, and each document still holds at least the bytes that its own unsettled growths may take
-- back, so that no subtraction is cut off at 0.
pub run-empty-HasBytes : (l : Limits) (es : List Event) → HasBytes l (run l empty es)
run-empty-HasBytes l es = run-HasBytes l empty es (record {
  rooms = tt;
  total = refl;
  bounded = omega arith;
  few = omega arith;
  growths_fresh = tt;
  documents_fresh = λ k c h. cc;
  covered = λ k c h. cc;
})
