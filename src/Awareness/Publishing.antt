-- ===== src/Awareness/Publishing.antt =====
-- Publishing a frame next to client ids that another connection owns, in
-- src/features/collaboration/server/awareness-policy.ts.
use coredot_editor.Prelude.{
  false-true, ℕ, ◌≡◌, ◌≢◌, refl, sym, ◌∙◌, subst, ◌⊎◌, inl, inr, true, false, List, Option, none,
  some, Text, Text-discrete, codes, get, insert, delete, text_key, nat_key, if◌then◌else◌, ◌==◌,
  ℕ_discrete, arith, Bool-cases, Option-cases, get-insert_ne, get-delete_ne, get-delete_self,
  IsUnique, delete-IsUnique, insert-IsUnique, get-insert_self,
}
use coredot_editor.Awareness.Values.{Fields, property}
use coredot_editor.Awareness.Decoding.{ParsedEntry, contains}
use coredot_editor.Awareness.State.{Owner, Context, Policy, owner_of}
use coredot_editor.Awareness.Sanitizing.{
  States, identity, sanitized, without_owner, publish_entry, sanitize_entry,
}
use coredot_editor.Awareness.Spoofing.{with_owner-owner_of, without_owner-owner_of}

publish_entry-owner_of :
    (p q : Policy) (connection : ℕ) (c : Context) (room r : Text) (entry : ParsedEntry)
    (state : Fields) (states next : States) (id : ℕ)
    → publish_entry p connection c room entry state states ≡ some (q, next)
    → (r ≢ room) ⊎ (entry.client_id ≢ id)
    → owner_of q.owners r id ≡ owner_of p.owners r id
unfolding publish_entry
publish_entry-owner_of p q connection c room r entry state states next id e apart =
    let owner : Owner = record {
      clock = entry.clock;
      connection = connection;
      state = sanitized c state;
    } in
    ground (arith, with_owner-owner_of p.owners room r entry.client_id id owner apart)

first_inj :
    {p q : Policy} {s t : States}
    → ◌≡◌ {A = Option (Policy × States)} (some (p, s)) (some (q, t))
    → p ≡ q
first_inj e = cc

-- An id is safe from an entry of another room, of another id, or that is ignored.
pub sanitize_entry-owner_of :
    (p q : Policy) (connection : ℕ) (c : Context) (room r : Text) (ignored : List ℕ)
    (entry : ParsedEntry) (states next : States) (id : ℕ) (o : Owner)
    → sanitize_entry p connection c room ignored entry states ≡ some (q, next)
    → owner_of p.owners r id ≡ some o
    → (r ≢ room) ⊎ ((entry.client_id ≢ id) ⊎ (contains ignored entry.client_id ≡ true))
    → owner_of q.owners r id ≡ some o
unfolding sanitize_entry
sanitize_entry-owner_of p q connection c room r ignored entry states next id o e owned safe =
    elim (Bool-cases (contains ignored entry.client_id)) [
      | inl k ↦
          let same : p ≡ q = first_inj (rw (k, sanitize_entry) at e) in
          subst (λ z. owner_of z.owners r id ≡ some o) same owned
      | inr k ↦
          let apart : (r ≢ room) ⊎ (entry.client_id ≢ id) = elim safe [
            | inl h ↦ inl h
            | inr (inl h) ↦ inr h
            | inr (inr h) ↦ absurd (false-true (sym k ∙ h))
          ] in
          elim (Option-cases entry.state) [
            | inl n ↦
                let cleared : Policy = record p {
                  owners = without_owner p.owners room entry.client_id;
                  active_client = delete connection p.active_client;
                  active_clock = delete connection p.active_clock;
                } in
                let same : cleared ≡ q = first_inj (rw (k, n, sanitize_entry) at e) in
                subst (λ z. owner_of z.owners r id ≡ some o) same
                  (without_owner-owner_of p.owners room r entry.client_id id o owned apart)
            | inr (state, n) ↦
                publish_entry-owner_of p q connection c room r entry state states next id
                  (rw (k, n, sanitize_entry) at e) apart
                ∙ owned
          ]
    ]

-- What the others may see of an id: nothing, a removal, or a state with the verified user.
abbrev pub Shows : Context → Option (Option Fields) → Type 0
Shows c none = Unit {0}
Shows c (some none) = Unit {0}
Shows c (some (some state)) = property (codes "user") state ≡ some (identity c)

sanitized-user :
    (c : Context) (state : Fields) → property (codes "user") (sanitized c state) ≡ some (identity c)
unfolding sanitized property Text-discrete ℕ_discrete
sanitized-user c state = refl

-- What one entry does to the states.
abbrev pub Treats : Context → List ℕ → ParsedEntry → States → States → Type 0
Treats c ignored entry states next =
    IsUnique next
    × ((id : ℕ) → entry.client_id ≢ id → get id next ≡ get id states)
    × Shows c (get entry.client_id next)
    × (contains ignored entry.client_id ≡ true → get entry.client_id next ≡ none)

insert-Treats :
    (c : Context) (ignored : List ℕ) (entry : ParsedEntry) (states : States) (o : Option Fields)
    → contains ignored entry.client_id ≡ false
    → IsUnique states
    → Shows c (some o)
    → Treats c ignored entry states (insert entry.client_id o states)
insert-Treats c ignored entry states o k u shown = (
  insert-IsUnique entry.client_id o states u,
  λ id apart. get-insert_ne entry.client_id id o states apart,
  subst (Shows c) (sym (get-insert_self entry.client_id o states)) shown,
  λ h. absurd (false-true (sym k ∙ h)),
)

second_inj :
    {p q : Policy} {s t : States}
    → ◌≡◌ {A = Option (Policy × States)} (some (p, s)) (some (q, t))
    → s ≡ t
second_inj e = cc

unwritten :
    (p q : Policy) (clock : ℕ) (states next : States)
    → ◌≡◌ {A = Option (Policy × States)}
        (if clock == 0 then some (p, states) else none)
        (some (q, next))
    → states ≡ next
unwritten p q clock states next e = ground arith

publish_entry-Treats :
    (p q : Policy) (connection : ℕ) (c : Context) (room : Text) (ignored : List ℕ)
    (entry : ParsedEntry) (state : Fields) (states next : States)
    → publish_entry p connection c room entry state states ≡ some (q, next)
    → contains ignored entry.client_id ≡ false
    → IsUnique states
    → Treats c ignored entry states next
unfolding publish_entry
publish_entry-Treats p q connection c room ignored entry state states next e k u =
    let keep : (o : Option (Option Fields))
        → get entry.client_id states ≡ o
        → Shows c o
        → states ≡ next
        → Treats c ignored entry states next =
      (λ o n shown same. subst (Treats c ignored entry states) same (
        u,
        λ id apart. refl,
        subst (Shows c) (sym n) shown,
        λ h. absurd (false-true (sym k ∙ h)),
      )) in
    elim (Option-cases (get entry.client_id states)) [
      | inl n ↦ keep none n tt (unwritten p q entry.clock states next (rw (n, publish_entry) at e))
      | inr (none, n) ↦
          keep (some none) n tt (unwritten p q entry.clock states next (rw (n, publish_entry) at e))
      | inr (some existing, n) ↦
          subst (Treats c ignored entry states) (second_inj (rw (n, publish_entry) at e)) (
            insert-Treats c ignored entry states (some (sanitized c state)) k u
              (sanitized-user c state))
    ]

pub sanitize_entry-Treats :
    (p q : Policy) (connection : ℕ) (c : Context) (room : Text) (ignored : List ℕ)
    (entry : ParsedEntry) (states next : States)
    → sanitize_entry p connection c room ignored entry states ≡ some (q, next)
    → IsUnique states
    → Treats c ignored entry states next
unfolding sanitize_entry
sanitize_entry-Treats p q connection c room ignored entry states next e u =
    elim (Bool-cases (contains ignored entry.client_id)) [
      | inl k ↦
          let gone : get entry.client_id (delete entry.client_id states) ≡ none =
            get-delete_self entry.client_id states u in
          subst (Treats c ignored entry states) (second_inj (rw (k, sanitize_entry) at e)) (
            delete-IsUnique entry.client_id states u,
            λ id apart. get-delete_ne entry.client_id id states apart,
            subst (Shows c) (sym gone) tt,
            λ h. gone,
          )
      | inr k ↦ elim (Option-cases entry.state) [
        | inl n ↦
            subst (Treats c ignored entry states) (second_inj (rw (k, n, sanitize_entry) at e))
              (insert-Treats c ignored entry states none k u tt)
        | inr (state, n) ↦
            publish_entry-Treats p q connection c room ignored entry state states next
              (rw (k, n, sanitize_entry) at e) k u
      ]
    ]
