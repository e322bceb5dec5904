-- ===== src/Awareness/Loops.antt =====
-- The loops of `sanitizeStates` in src/features/collaboration/server/awareness-policy.ts.
use coredot_editor.Prelude.{
  ℕ, ◌≡◌, ◌≢◌, refl, sym, ◌∙◌, subst, ◌⊎◌, inl, inr, Bool, true, false, List, [], ◌∷◌, none, some,
  Text, get, text_key, nat_key, if_neg, ℕ_discrete, arith, Bool-cases, Option-cases, IsUnique,
}
use coredot_editor.Awareness.Decoding.{ParsedEntry, contains}
use coredot_editor.Awareness.State.{Owner, Context, Policy, owner_of}
use coredot_editor.Awareness.Ownership.{ids_of}
use coredot_editor.Awareness.Sanitizing.{States, only_inbound, sanitize_entry, sanitize_entries}
use coredot_editor.Awareness.Publishing.{sanitize_entry-owner_of, sanitize_entry-Treats, Shows}

-- The entries still to come take no id of another owner.
unfoldable pub IsSafe : Text → Text → List ℕ → List ParsedEntry → ℕ → Type 0
IsSafe r room ignored entries id =
    (r ≢ room) ⊎ (contains (ids_of entries) id ≡ true → contains ignored id ≡ true)

first_contained :
    (entry : ParsedEntry) (entries : List ParsedEntry) (id : ℕ)
    → entry.client_id ≡ id
    → contains (ids_of (entry ∷ entries)) id ≡ true
first_contained entry entries id same = ground arith

rest_contained :
    (entry : ParsedEntry) (entries : List ParsedEntry) (id : ℕ)
    → contains (ids_of entries) id ≡ true
    → contains (ids_of (entry ∷ entries)) id ≡ true
rest_contained entry entries id h = ground arith

first-IsSafe :
    (r room : Text) (ignored : List ℕ) (entry : ParsedEntry) (entries : List ParsedEntry) (id : ℕ)
    → IsSafe r room ignored (entry ∷ entries) id
    → (r ≢ room) ⊎ ((entry.client_id ≢ id) ⊎ (contains ignored entry.client_id ≡ true))
unfolding IsSafe
first-IsSafe r room ignored entry entries id (inl h) = inl h
first-IsSafe r room ignored entry entries id (inr h) = elim (ℕ_discrete entry.client_id id) [
  | yes same ↦ inr (
      inr (
        subst (λ i. contains ignored i ≡ true) (sym same)
          (h (first_contained entry entries id same))))
  | no apart ↦ inr (inl apart)
]

rest-IsSafe :
    (r room : Text) (ignored : List ℕ) (entry : ParsedEntry) (entries : List ParsedEntry) (id : ℕ)
    → IsSafe r room ignored (entry ∷ entries) id
    → IsSafe r room ignored entries id
unfolding IsSafe
rest-IsSafe r room ignored entry entries id (inl h) = inl h
rest-IsSafe r room ignored entry entries id (inr h) =
    inr (λ k. h (rest_contained entry entries id k))

not_first :
    (entry : ParsedEntry) (entries : List ParsedEntry) (id : ℕ)
    → entry.client_id ≢ id
    → contains (ids_of (entry ∷ entries)) id ≡ true
    → contains (ids_of entries) id ≡ true
not_first entry entries id apart h = ground arith

pub done_inj :
    {p q : Policy} {s t : States}
    → ◌≡◌ {A = (Policy × States) × Bool} ((p, s), true) ((q, t), true)
    → s ≡ t
done_inj e = cc

pub thrown :
    {p q : Policy} {s t : States}
    → ◌≢◌ {A = (Policy × States) × Bool} ((p, s), false) ((q, t), true)
thrown e = cc

pub sanitize_entries-owner_of :
    (p : Policy) (connection : ℕ) (c : Context) (room r : Text) (ignored : List ℕ)
    (entries : List ParsedEntry) (states : States) (id : ℕ) (o : Owner)
    → owner_of p.owners r id ≡ some o
    → IsSafe r room ignored entries id
    → owner_of (sanitize_entries p connection c room ignored entries states).0.0.owners r id
      ≡ some o
unfolding sanitize_entries IsSafe
sanitize_entries-owner_of p connection c room r ignored [] states id o owned safe = owned
sanitize_entries-owner_of p connection c room r ignored (entry ∷ entries) states id o owned safe =
    elim (Option-cases (sanitize_entry p connection c room ignored entry states)) [
      | inl e ↦ rw (e, sanitize_entries) owned
      | inr ((q, next), e) ↦
          rw (e, sanitize_entries)
            (sanitize_entries-owner_of q connection c room r ignored entries next id o
              (sanitize_entry-owner_of p q connection c room r ignored entry states next id o e
                owned (first-IsSafe r room ignored entry entries id safe))
              (rest-IsSafe r room ignored entry entries id safe))
    ]

-- The ids of a frame that are left to be treated.
pub sanitize_entries-Shows :
    (p q : Policy) (connection : ℕ) (c : Context) (room : Text) (ignored : List ℕ)
    (entries : List ParsedEntry) (states next : States) (id : ℕ)
    → sanitize_entries p connection c room ignored entries states ≡ ((q, next), true)
    → IsUnique states
    → Shows c (get id states) ⊎ (contains (ids_of entries) id ≡ true)
    → Shows c (get id next)
unfolding sanitize_entries
sanitize_entries-Shows p q connection c room ignored [] states next id e u (inl h) =
    subst (λ s. Shows c (get id s)) (done_inj e) h
sanitize_entries-Shows p q connection c room ignored [] states next id e u (inr h) = cc
sanitize_entries-Shows p q connection c room ignored (entry ∷ entries) states next id e u placed =
    elim (Option-cases (sanitize_entry p connection c room ignored entry states)) [
      | inl n ↦ absurd (thrown (rw (n, sanitize_entries) at e))
      | inr ((p', states'), n) ↦
          let (u', others, shown, _) =
            sanitize_entry-Treats p p' connection c room ignored entry states states' n u in
          sanitize_entries-Shows p' q connection c room ignored entries states' next id
            (rw (n, sanitize_entries) at e) u'
            (elim (ℕ_discrete entry.client_id id) [
              | yes same ↦ inl (subst (λ k. Shows c (get k states')) same shown)
              | no apart ↦ elim placed [
                | inl h ↦ inl (subst (Shows c) (sym (others id apart)) h)
                | inr h ↦ inr (not_first entry entries id apart h)
              ]
            ])
    ]

pub sanitize_entries-hides :
    (p q : Policy) (connection : ℕ) (c : Context) (room : Text) (ignored : List ℕ)
    (entries : List ParsedEntry) (states next : States) (id : ℕ)
    → sanitize_entries p connection c room ignored entries states ≡ ((q, next), true)
    → IsUnique states
    → (contains (ids_of entries) id ≡ true → contains ignored id ≡ true)
    → (get id states ≡ none) ⊎ (contains (ids_of entries) id ≡ true)
    → get id next ≡ none
unfolding sanitize_entries
sanitize_entries-hides p q connection c room ignored [] states next id e u k (inl h) =
    subst (λ s. get id s ≡ none) (done_inj e) h
sanitize_entries-hides p q connection c room ignored [] states next id e u k (inr h) = cc
sanitize_entries-hides p q connection c room ignored (entry ∷ entries) states next id e u k placed =
    elim (Option-cases (sanitize_entry p connection c room ignored entry states)) [
      | inl n ↦ absurd (thrown (rw (n, sanitize_entries) at e))
      | inr ((p', states'), n) ↦
          let (u', others, _, hidden) =
            sanitize_entry-Treats p p' connection c room ignored entry states states' n u in
          sanitize_entries-hides p' q connection c room ignored entries states' next id
            (rw (n, sanitize_entries) at e) u' (λ x. k (rest_contained entry entries id x))
            (elim (ℕ_discrete entry.client_id id) [
              | yes same ↦ inl (
                  subst (λ i. get i states' ≡ none) same
                    (hidden (
                      subst (λ i. contains ignored i ≡ true) (sym same)
                        (k (first_contained entry entries id same)))))
              | no apart ↦ elim placed [
                | inl h ↦ inl (others id apart ∙ h)
                | inr h ↦ inr (not_first entry entries id apart h)
              ]
            ])
    ]

pub only_inbound-get :
    (ids : List ℕ) (states : States) (id : ℕ)
    → (get id (only_inbound ids states) ≡ none) ⊎ (contains ids id ≡ true)
unfolding only_inbound
only_inbound-get ids [] id = inl refl
only_inbound-get ids ((n, s) ∷ states) id = elim (Bool-cases (contains ids n)) [
  | inr k ↦ rw k (only_inbound-get ids states id)
  | inl k ↦ elim (ℕ_discrete n id) [
    | yes same ↦ inr (subst (λ i. contains ids i ≡ true) same k)
    | no apart ↦ elim (only_inbound-get ids states id) [
      | inl h ↦
          inl (rw (k, if_neg (ℕ_discrete n id) apart (some s) (get id (only_inbound ids states))) h)
      | inr h ↦ inr h
    ]
  ]
]

only_inbound-get-none :
    (ids : List ℕ) (states : States) (id : ℕ)
    → get id states ≡ none
    → get id (only_inbound ids states) ≡ none
unfolding only_inbound
only_inbound-get-none ids [] id h = refl
only_inbound-get-none ids ((n, s) ∷ states) id h =
    ground (arith, only_inbound-get-none ids states id)

pub only_inbound-IsUnique :
    (ids : List ℕ) (states : States) → IsUnique states → IsUnique (only_inbound ids states)
unfolding only_inbound
only_inbound-IsUnique ids [] u = tt
only_inbound-IsUnique ids ((n, s) ∷ states) (fresh, u) = elim (Bool-cases (contains ids n)) [
  | inr k ↦ rw k (only_inbound-IsUnique ids states u)
  | inl k ↦ rw k (only_inbound-get-none ids states n fresh, only_inbound-IsUnique ids states u)
]
