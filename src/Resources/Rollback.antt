-- ===== src/Resources/Rollback.antt =====
-- Growths of resident documents, committed and rolled back, in
-- src/features/collaboration/server/resource-limits.ts.
use coredot_editor.Prelude.{
  ℕ, ◌+◌, ◌-◌, ◌≤◌, ◌≡◌, inl, inr, true, false, some, get, insert, get-insert, insert-IsUnique,
  Option-cases, Bool-cases, text_key, arith, ◌==◌, get_elem?, set,
}
use coredot_editor.Resources.{Limits, Registry, LoadedDocument, Growth, commit, shrink, rollback}
use coredot_editor.Resources.Ledger.{
  pending, length-insert_old, total_bytes-insert_old, pending-set, AllBelow-set, AllBelow-get_elem?,
}
use coredot_editor.Resources.Documents.{HasBytes}

pub settled-HasBytes :
    (l : Limits) (g : Registry) (handle : ℕ) (w : Growth)
    → HasBytes l g
    → get_elem? g.growths handle ≡ some w
    → HasBytes l (record g { growths = set g.growths handle (record w { settled = true }) })
settled-HasBytes l g handle w v e =
    let w' : Growth = record w { settled = true } in
    record {
      rooms = v.rooms;
      total = v.total;
      bounded = v.bounded;
      few = v.few;
      growths_fresh =
          AllBelow-set _ g.growths handle w' v.growths_fresh
            (AllBelow-get_elem? _ g.growths handle w v.growths_fresh e);
      documents_fresh = v.documents_fresh;
      covered = λ k c h.
          omega (arith, v.covered k c h, pending-set k c.incarnation g.growths handle w w' e);
    }

-- Taking an unsettled growth back from the document that it enlarged.
shrink-HasBytes :
    (l : Limits) (g : Registry) (handle : ℕ) (w : Growth) (d : LoadedDocument)
    → HasBytes l g
    → get_elem? g.growths handle ≡ some w
    → w.settled ≡ false
    → get w.room g.loaded_documents ≡ some d
    → d.incarnation ≡ w.incarnation
    → HasBytes l (record g {
      growths = set g.growths handle (record w { settled = true });
      loaded_documents = insert w.room (record d { bytes = d.bytes - w.bytes }) g.loaded_documents;
      loaded_document_bytes = g.loaded_document_bytes - w.bytes;
    })
shrink-HasBytes l g handle w d v e unsettled found same =
    let w' : Growth = record w { settled = true } in
    let d' : LoadedDocument = record d { bytes = d.bytes - w.bytes } in
    let enough : w.bytes + pending w.room d.incarnation (set g.growths handle w') ≤ d.bytes =
      ground (
        arith,
        v.covered w.room d found,
        pending-set w.room d.incarnation g.growths handle w w' e,
      ) in
    record {
      rooms = insert-IsUnique w.room d' g.loaded_documents v.rooms;
      total = omega (arith, total_bytes-insert_old w.room d d' g.loaded_documents found, v.total);
      bounded = omega (arith, v.bounded);
      few = omega (arith, length-insert_old w.room d d' g.loaded_documents found, v.few);
      growths_fresh =
          AllBelow-set _ g.growths handle w' v.growths_fresh
            (AllBelow-get_elem? _ g.growths handle w v.growths_fresh e);
      documents_fresh = λ k c h. ground (
        arith,
        get-insert w.room k d' g.loaded_documents,
        v.documents_fresh k c,
        v.documents_fresh w.room d found,
      );
      covered = λ k c h. ground (
        arith,
        get-insert w.room k d' g.loaded_documents,
        v.covered k c,
        pending-set k c.incarnation g.growths handle w w' e,
      );
    }

pub rollback-HasBytes :
    (l : Limits) (g : Registry) (handle : ℕ) → HasBytes l g → HasBytes l (rollback g handle)
unfolding rollback
rollback-HasBytes l g handle v = elim (Option-cases (get_elem? g.growths handle)) [
  | inl e ↦ rw (e, rollback) v
  | inr (w, e) ↦ elim (Bool-cases w.settled) [
    | inl s ↦ rw (e, rollback, s) v
    | inr s ↦ elim (Option-cases (get w.room g.loaded_documents)) [
      | inl f ↦ rw (e, rollback, s, f, shrink) (settled-HasBytes l g handle w v e)
      | inr (d, f) ↦ elim (Bool-cases (d.incarnation == w.incarnation)) [
        | inl k ↦
            rw (e, rollback, s, f, shrink, k)
              (shrink-HasBytes l g handle w d v e s f (ground arith))
        | inr k ↦ rw (e, rollback, s, f, shrink, k) (settled-HasBytes l g handle w v e)
      ]
    ]
  ]
]

pub commit-HasBytes :
    (l : Limits) (g : Registry) (handle : ℕ) → HasBytes l g → HasBytes l (commit g handle)
unfolding commit
commit-HasBytes l g handle v = elim (Option-cases (get_elem? g.growths handle)) [
  | inl e ↦ rw (e, commit) v
  | inr (w, e) ↦ rw (e, commit) (settled-HasBytes l g handle w v e)
]
