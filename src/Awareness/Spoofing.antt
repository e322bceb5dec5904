-- ===== src/Awareness/Spoofing.antt =====
-- What a frame leaves to be published, and what becomes of the owners of client ids, in src/features/collaboration/server/awareness-policy.ts.
use coredot_editor.Prelude.{
  false-true, ℕ, ◌≡◌, ◌≢◌, refl, sym, ap, ◌∙◌, subst, ◌⊎◌, inl, inr, true, false, ◌||◌, List, [],
  ◌∷◌, none, some, Text, Text-discrete, get, insert, delete, text_key, nat_key, ltb, ◌==◌, length,
  list-cases, Bool-cases, Option-cases, get-insert_ne, get-insert-some, get-delete_ne,
  get-insert_self,
}
use coredot_editor.Awareness.Decoding.{Wire, ParsedEntry, contains, parse_awareness_payload}
use coredot_editor.Awareness.State.{
  awareness_total_rate_limit, Owner, PendingAwareness, Owners, Policy, try_consume_rate,
  room_owners, owner_of,
}
use coredot_editor.Awareness.Frames.{
  Frame, goes_on, dropped, check_entries, judge, with_pending, no_entries, awareness_bytes,
  validate_entries, validate_frame,
}
use coredot_editor.Awareness.Ownership.{ids_of, check_entries_foreign, Verdict-cases}
use coredot_editor.Awareness.Sanitizing.{without_owner, with_owner}

pub with_owner-owner_of :
    (owners : Owners) (room r : Text) (k id : ℕ) (x : Owner)
    → (r ≢ room) ⊎ (k ≢ id)
    → owner_of (with_owner owners room k x) r id ≡ owner_of owners r id
unfolding with_owner
with_owner-owner_of owners room r k id x apart =
    let H : List (ℕ × Owner) = insert k x (room_owners owners room) in
    elim (Text-discrete room r) [
      | yes same ↦
          let k_apart : k ≢ id = elim apart [ inl h ↦ absurd (h (sym same)) | inr h ↦ h ] in
          rw (get-insert-some room r H owners same) (
            get-insert_ne k id x (room_owners owners room) k_apart
            ∙ ap (λ t. get id (room_owners owners t)) same)
      | no other ↦ rw (get-insert_ne room r H owners other) refl
    ]

nothing-some : (o : Owner) → none ≢ some o
nothing-some o h = cc

pub without_owner-owner_of :
    (owners : Owners) (room r : Text) (k id : ℕ) (o : Owner)
    → owner_of owners r id ≡ some o
    → (r ≢ room) ⊎ (k ≢ id)
    → owner_of (without_owner owners room k) r id ≡ some o
unfolding without_owner
without_owner-owner_of owners room r k id o owned apart = elim (Option-cases (get room owners)) [
  | inl e ↦ rw (e, without_owner) owned
  | inr (held, e) ↦ elim (Text-discrete room r) [
    | no other ↦ elim (list-cases (delete k held)) [
      | inl d ↦ rw (e, d, without_owner, get-delete_ne room r owners other) owned
      | inr (x, xs, d) ↦ rw (e, d, without_owner, get-insert_ne room r (x ∷ xs) owners other) owned
    ]
    | yes same ↦
        let k_apart : k ≢ id = elim apart [ inl h ↦ absurd (h (sym same)) | inr h ↦ h ] in
        let here : get id held ≡ some o =
          rw e at (subst (λ t. owner_of owners t id ≡ some o) (sym same) owned) in
        let left : get id (delete k held) ≡ some o = get-delete_ne k id held k_apart ∙ here in
        elim (list-cases (delete k held)) [
          | inl d ↦ absurd (nothing-some o (rw d at left))
          | inr (x, xs, d) ↦
              rw (e, d, without_owner, get-insert-some room r (x ∷ xs) owners same) (rw d at left)
        ]
  ]
]

-- What a frame that was let through left for `sanitizeStates`.
abbrev pub Leaves : ℕ → Text → Owners → Policy → Type 0
Leaves connection room owners q =
    (inbound : PendingAwareness) × (get connection q.pending ≡ some inbound)
    × (inbound.room ≡ room)
    × (q.owners ≡ owners)
    × ((id : ℕ) (o : Owner)
        → owner_of owners room id ≡ some o
        → (o.connection == connection) ≡ false
        → contains (ids_of inbound.entries) id ≡ true
        → contains inbound.ignored_client_ids id ≡ true)

pending-Leaves :
    (w : Wire) (p q : Policy) (connection : ℕ) (room : Text) (clock : ℕ → ℕ)
    (entries : List ParsedEntry) (f g : Frame)
    → q.owners ≡ p.owners
    → (check_entries w q connection room clock entries 0 entries f ≡ goes_on g)
      ⊎ (check_entries w q connection room clock entries 0 entries f ≡ dropped g)
    → Leaves connection room p.owners (with_pending q connection room entries g)
pending-Leaves w p q connection room clock entries f g same ends =
    let inbound : PendingAwareness = record {
      entries = entries;
      ignored_client_ids = g.ignored;
      room = room;
    } in
    (
      inbound,
      get-insert_self connection inbound q.pending,
      refl,
      same,
      λ id o owned foreign inside.
          check_entries_foreign w q connection id room clock entries entries 0 f o
            (subst (λ owners. owner_of owners room id ≡ some o) (sym same) owned) foreign inside
            (inr inside) g ends,
    )

judge-Leaves :
    (w : Wire) (p q : Policy) (connection : ℕ) (room : Text) (clock : ℕ → ℕ)
    (entries : List ParsedEntry) (f : Frame)
    → q.owners ≡ p.owners
    → (judge q connection room entries
        (check_entries w q connection room clock entries 0 entries f)).1
      ≡ true
    → Leaves connection room p.owners
        (judge q connection room entries
          (check_entries w q connection room clock entries 0 entries f)).0
judge-Leaves w p q connection room clock entries f same ok =
    elim (Verdict-cases (check_entries w q connection room clock entries 0 entries f)) [
      | inl (g, e) ↦ rw e (pending-Leaves w p q connection room clock entries f g same (inl e))
      | inr (inl (g, e)) ↦
          rw e (pending-Leaves w p q connection room clock entries f g same (inr e))
      | inr (inr (rates, e)) ↦ absurd (false-true (rw e at ok))
    ]

validate_entries-Leaves :
    (w : Wire) (p : Policy) (connection : ℕ) (room : Text) (now : ℕ) (clock : ℕ → ℕ)
    (entries : List ParsedEntry)
    → (validate_entries w p connection room now clock entries).1 ≡ true
    → Leaves connection room p.owners (validate_entries w p connection room now clock entries).0
unfolding validate_entries
validate_entries-Leaves w p connection room now clock entries ok =
    elim (Bool-cases (no_entries entries)) [
      | inl e ↦ absurd (false-true (rw (e, validate_entries) at ok))
      | inr e ↦
          elim (Option-cases
            (try_consume_rate awareness_total_rate_limit p.total_rates connection now)) [
              | inl k ↦ absurd (false-true (rw (e, k, validate_entries) at ok))
              | inr (rates, k) ↦
                  let q : Policy = record p { total_rates = rates } in
                  rw (e, k, validate_entries)
                    (judge-Leaves w p q connection room clock entries
                      (record { rates = q.rates; ignored = []; live_candidate = none }) refl
                      (rw (e, k, validate_entries) at ok))
            ]
    ]

pub validate_frame-Leaves :
    (w : Wire) (p : Policy) (connection : ℕ) (room : Text) (now : ℕ) (clock : ℕ → ℕ)
    (payload : List ℕ)
    → (validate_frame w p connection room now clock payload).1 ≡ true
    → Leaves connection room p.owners (validate_frame w p connection room now clock payload).0
unfolding validate_frame
validate_frame-Leaves w p connection room now clock payload ok =
    elim (Bool-cases (ltb (length payload) 1 || ltb awareness_bytes (length payload))) [
      | inl e ↦ absurd (false-true (rw (e, validate_frame) at ok))
      | inr e ↦ elim (Option-cases (parse_awareness_payload w payload)) [
        | inl k ↦ absurd (false-true (rw (e, k, validate_frame) at ok))
        | inr (entries, k) ↦
            rw (e, k, validate_frame)
              (validate_entries-Leaves w p connection room now clock entries
                (rw (e, k, validate_frame) at ok))
      ]
    ]
