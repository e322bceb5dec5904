-- ===== src/Resources/Documents.antt =====
-- The resident documents of src/features/collaboration/server/resource-limits.ts: the running total
-- against the documents, with growths that are rolled back late, twice, or after a reload.
use coredot_editor.Prelude.{
  ℕ, ◌+◌, ◌≤◌, ◌<◌, ◌≡◌, inl, inr, Bool, false, [], ◌∷◌, none, some, Text, Number, safe_nat, get,
  delete, has, ◌||◌, IsUnique, get-insert, get-delete_ne, get-delete_self, delete-IsUnique,
  insert-IsUnique, Option-cases, Bool-cases, Text-discrete, text_key, arith, leb, ltb, length,
}
use coredot_editor.Prelude.Result.{after}
use coredot_editor.Resources.{
  Limits, Registry, LoadedDocument, Growth, release_document, reserve_document, with_document,
  with_growth, reserve_document_growth, first_of_pair,
}
use coredot_editor.Resources.Ledger.{
  total_bytes, pending, AllBelow, total_bytes-insert_new, length-insert_new, length-insert_old,
  length-delete, total_bytes-insert_old, total_bytes-delete, pending-append, AllBelow-mono,
  AllBelow-append, pending_fresh,
}

pub record HasBytes (l : Limits) (g : Registry) : Type 0 where
  pub rooms : IsUnique g.loaded_documents
  pub total : total_bytes g.loaded_documents ≡ g.loaded_document_bytes
  pub bounded : g.loaded_document_bytes ≤ l.max_loaded_document_bytes
  pub few : length g.loaded_documents ≤ l.max_loaded_documents
  pub growths_fresh : AllBelow g.next_document_incarnation g.growths
  pub documents_fresh :
      (room : Text) (d : LoadedDocument)
      → get room g.loaded_documents ≡ some d
      → d.incarnation < g.next_document_incarnation
  pub covered :
      (room : Text) (d : LoadedDocument)
      → get room g.loaded_documents ≡ some d
      → pending room d.incarnation g.growths ≤ d.bytes

pub unload-HasBytes :
    (l : Limits) (g : Registry) (room : Text) → HasBytes l g → HasBytes l (release_document g room)
unfolding release_document
unload-HasBytes l g room v = elim (Option-cases (get room g.loaded_documents)) [
  | inl e ↦ rw (e, release_document) v
  | inr (d, e) ↦
      rw (e, release_document)
        (record {
          rooms = delete-IsUnique room g.loaded_documents v.rooms;
          total = omega (arith, total_bytes-delete room d g.loaded_documents e, v.total);
          bounded = omega (arith, v.bounded);
          few = omega (arith, v.few, length-delete room g.loaded_documents);
          growths_fresh = v.growths_fresh;
          documents_fresh = λ k c h. v.documents_fresh k c (kept k c h);
          covered = λ k c h. v.covered k c (kept k c h);
        })
]
  where
    kept :
        (k : Text) (c : LoadedDocument)
        → get k (delete room g.loaded_documents) ≡ some c
        → get k g.loaded_documents ≡ some c
    kept k c h = ground (
      arith,
      get-delete_ne room k g.loaded_documents,
      get-delete_self room g.loaded_documents v.rooms,
      Text-discrete room k,
    )

with_document-HasBytes :
    (l : Limits) (g : Registry) (room : Text) (n : ℕ)
    → HasBytes l g
    → get room g.loaded_documents ≡ none
    → length g.loaded_documents < l.max_loaded_documents
    → g.loaded_document_bytes + n ≤ l.max_loaded_document_bytes
    → HasBytes l (with_document g room n)
unfolding with_document
with_document-HasBytes l g room n v fresh p q =
    let d : LoadedDocument = record { bytes = n; incarnation = g.next_document_incarnation } in
    record {
      rooms = insert-IsUnique room d g.loaded_documents v.rooms;
      total = omega (arith, total_bytes-insert_new room d g.loaded_documents fresh, v.total);
      bounded = q;
      few = omega (arith, length-insert_new room d g.loaded_documents fresh);
      growths_fresh = AllBelow-mono _ _ g.growths (omega arith) v.growths_fresh;
      documents_fresh =
          λ k c h. ground (arith, get-insert room k d g.loaded_documents, v.documents_fresh k c);
      covered = λ k c h. ground (
        arith,
        get-insert room k d g.loaded_documents,
        v.covered k c,
        pending_fresh k g.next_document_incarnation g.growths v.growths_fresh,
      );
    }

pub load-HasBytes :
    (l : Limits) (g : Registry) (room : Text) (bytes : Number)
    → HasBytes l g
    → HasBytes l (after g (reserve_document l g room bytes))
unfolding reserve_document
load-HasBytes l g room bytes v = elim (Option-cases (safe_nat bytes)) [
  | inl e ↦ rw e v
  | inr (n, e) ↦ elim (Bool-cases (has room g.loaded_documents)) [
    | inl f ↦ rw (e, f) v
    | inr f ↦
        let full : Bool =
          leb l.max_loaded_documents (length g.loaded_documents)
          || ltb l.max_loaded_document_bytes (g.loaded_document_bytes + n) in
        elim (Bool-cases full) [
          | inl k ↦ rw (e, f, k) v
          | inr k ↦
              rw (e, f, k)
                (with_document-HasBytes l g room n v (ground arith) (ground arith) (ground arith))
        ]
  ]
]

with_growth-HasBytes :
    (l : Limits) (g : Registry) (room : Text) (d : LoadedDocument) (n : ℕ)
    → HasBytes l g
    → get room g.loaded_documents ≡ some d
    → g.loaded_document_bytes + n ≤ l.max_loaded_document_bytes
    → HasBytes l (with_growth g room d n)
unfolding with_growth
with_growth-HasBytes l g room d n v found q =
    let d' : LoadedDocument = record d { bytes = d.bytes + n } in
    let w : Growth = record {
      room = room;
      bytes = n;
      incarnation = d.incarnation;
      settled = false;
    } in
    record {
      rooms = insert-IsUnique room d' g.loaded_documents v.rooms;
      total = omega (arith, total_bytes-insert_old room d d' g.loaded_documents found, v.total);
      bounded = q;
      few = omega (arith, length-insert_old room d d' g.loaded_documents found, v.few);
      growths_fresh =
          AllBelow-append _ g.growths w v.growths_fresh (v.documents_fresh room d found);
      documents_fresh = λ k c h. ground (
        arith,
        get-insert room k d' g.loaded_documents,
        v.documents_fresh k c,
        v.documents_fresh room d found,
      );
      covered = λ k c h. ground (
        arith,
        get-insert room k d' g.loaded_documents,
        v.covered k c,
        v.covered room d found,
        pending-append k c.incarnation g.growths (w ∷ []),
      );
    }

pub grow-HasBytes :
    (l : Limits) (g : Registry) (room : Text) (bytes : Number)
    → HasBytes l g
    → HasBytes l (after g (first_of_pair (reserve_document_growth l g room bytes)))
unfolding reserve_document_growth
grow-HasBytes l g room bytes v = elim (Option-cases (safe_nat bytes)) [
  | inl e ↦ rw e v
  | inr (n, e) ↦ elim (Option-cases (get room g.loaded_documents)) [
    | inl f ↦ rw (e, f) v
    | inr (d, f) ↦
        elim (Bool-cases (ltb l.max_loaded_document_bytes (g.loaded_document_bytes + n))) [
          | inl k ↦ rw (e, f, k) v
          | inr k ↦ rw (e, f, k) (with_growth-HasBytes l g room d n v f (ground arith))
        ]
  ]
]
