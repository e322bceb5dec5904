-- ===== src/Awareness/Verified.antt =====
-- Whole frames in src/features/collaboration/server/awareness-policy.ts, from `validateFrame` to
-- `sanitizeStates`.
use coredot_editor.Prelude.{
  text-eq, false-true, ℕ, ◌≡◌, refl, sym, ap, ◌∙◌, subst, inl, inr, Bool, true, false, not, ◌&&◌,
  List, none, some, Text, Text-discrete, get, text_key, nat_key, if◌then◌else◌, ◌==◌, Bool-cases,
  Option-cases, IsUnique,
}
use coredot_editor.Awareness.Decoding.{Wire, ParsedEntry, contains}
use coredot_editor.Awareness.State.{Owner, PendingAwareness, Context, Owners, Policy, owner_of}
use coredot_editor.Awareness.Frames.{validate_frame}
use coredot_editor.Awareness.Ownership.{ids_of}
use coredot_editor.Awareness.Sanitizing.{
  States, only_inbound, sanitize_entries, settled, sanitize_states, same_text, test_room,
}
use coredot_editor.Awareness.Spoofing.{Leaves, validate_frame-Leaves}
use coredot_editor.Awareness.Publishing.{Shows}
use coredot_editor.Awareness.Loops.{
  IsSafe, thrown, sanitize_entries-owner_of, sanitize_entries-Shows, sanitize_entries-hides,
  only_inbound-get, only_inbound-IsUnique,
}

pending_inj : {a b : PendingAwareness} → some a ≡ some b → a ≡ b
pending_inj e = cc

settled_states :
    {p q : Policy} {s t : States}
    → ◌≡◌ {A = (Policy × States) × Bool} ((p, s), true) ((q, t), true)
    → s ≡ t
settled_states e = cc

settled_inv :
    (connection : ℕ) (x : (Policy × States) × Bool) (q : Policy) (next : States)
    → settled connection x ≡ ((q, next), true)
    → (r : Policy) × (x ≡ ((r, next), true))
settled_inv connection ((p, s), true) q next e = (p, ap (λ t. ((p, t), true)) (settled_states e))
settled_inv connection ((p, s), false) q next e = absurd (thrown e)

settled-owners :
    (connection : ℕ) (x : (Policy × States) × Bool)
    → (settled connection x).0.0.owners ≡ x.0.0.owners
settled-owners connection ((p, s), true) = refl
settled-owners connection ((p, s), false) = refl

-- The room of the frame is the one that its states are published in.
chosen_room :
    (room own : Text)
    → (not (same_text room own) && not (same_text room test_room)) ≡ false
    → (if same_text room test_room then room else own) ≡ room
chosen_room room own h = elim (Bool-cases (same_text room test_room)) [
  | inl e ↦ rw e refl
  | inr e ↦ elim (Bool-cases (same_text room own)) [
    | inl k ↦ rw e (sym (text-eq room own k))
    | inr k ↦ absurd (false-true (sym (rw (e, k) at h)))
  ]
]

IsSafe-from :
    (r chosen room : Text) (ignored : List ℕ) (entries : List ParsedEntry) (id : ℕ)
    → chosen ≡ room
    → (r ≡ room → contains (ids_of entries) id ≡ true → contains ignored id ≡ true)
    → IsSafe r chosen ignored entries id
unfolding IsSafe
IsSafe-from r chosen room ignored entries id same guarded = elim (Text-discrete r chosen) [
  | yes e ↦ inr (guarded (e ∙ same))
  | no apart ↦ inl apart
]

sanitize_states-owner_of :
    (q : Policy) (owners : Owners) (connection : ℕ) (room r : Text) (c : Context) (states : States)
    (id : ℕ) (o : Owner)
    → Leaves connection room owners q
    → owner_of owners r id ≡ some o
    → (o.connection == connection) ≡ false
    → owner_of (sanitize_states q connection c states).0.0.owners r id ≡ some o
unfolding sanitize_states
sanitize_states-owner_of q owners connection room r c states id o
      (inbound, here, in_room, same, guarded) owned foreign =
    let kept : owner_of q.owners r id ≡ some o =
      subst (λ x. owner_of x r id ≡ some o) (sym same) owned in
    elim (Bool-cases
      (not (same_text inbound.room c.room) && not (same_text inbound.room test_room))) [
        | inl t ↦ rw (here, t, sanitize_states) kept
        | inr t ↦
            let chosen : Text = if same_text inbound.room test_room then inbound.room else c.room in
            let is_room : chosen ≡ room = chosen_room inbound.room c.room t ∙ in_room in
            let x : (Policy × States) × Bool =
              sanitize_entries q connection c chosen inbound.ignored_client_ids inbound.entries
                (only_inbound (ids_of inbound.entries) states) in
            let safe : IsSafe r chosen inbound.ignored_client_ids inbound.entries id =
              IsSafe-from r chosen room inbound.ignored_client_ids inbound.entries id is_room
                (λ e. guarded id o (subst (λ y. owner_of owners y id ≡ some o) e owned) foreign) in
            rw (here, t, sanitize_states)
              (ap (λ (y : Owners). owner_of y r id) (settled-owners connection x)
                ∙ sanitize_entries-owner_of q connection c chosen r inbound.ignored_client_ids
                    inbound.entries (only_inbound (ids_of inbound.entries) states) id o kept safe)
      ]

-- What a call of `sanitizeStates` that returns has done.
sanitize_states_inv :
    (p q : Policy) (connection : ℕ) (c : Context) (states next : States)
    → sanitize_states p connection c states ≡ ((q, next), true)
    → (inbound : PendingAwareness) × (get connection p.pending ≡ some inbound)
      × (room : Text) × (r : Policy) × (sanitize_entries p connection c room
            inbound.ignored_client_ids inbound.entries
            (only_inbound (ids_of inbound.entries) states)
          ≡ ((r, next), true))
unfolding sanitize_states
sanitize_states_inv p q connection c states next e =
    elim (Option-cases (get connection p.pending)) [
      | inl k ↦ absurd (thrown (rw (k, sanitize_states) at e))
      | inr (inbound, k) ↦
          elim (Bool-cases
            (not (same_text inbound.room c.room) && not (same_text inbound.room test_room))) [
              | inl t ↦ absurd (thrown (rw (k, t, sanitize_states) at e))
              | inr t ↦
                  let room : Text =
                    if same_text inbound.room test_room then inbound.room else c.room in
                  let (r, run) =
                    settled_inv connection
                      (sanitize_entries p connection c room inbound.ignored_client_ids
                        inbound.entries (only_inbound (ids_of inbound.entries) states))
                      q next (rw (k, t, sanitize_states) at e) in
                  (inbound, k, room, r, run)
            ]
    ]

-- Whatever a frame said of its user, what `sanitizeStates` leaves to be shown to the others under any
-- client id is nothing, a removal, or a state whose user is the verified one of the connection's
-- context, and never what the frame claimed.
pub sanitize_states-Shows :
    (p q : Policy) (connection : ℕ) (c : Context) (states next : States) (id : ℕ)
    → IsUnique states
    → sanitize_states p connection c states ≡ ((q, next), true)
    → Shows c (get id next)
sanitize_states-Shows p q connection c states next id u e =
    let (inbound, _, room, r, run) = sanitize_states_inv p q connection c states next e in
    let ids : List ℕ = ids_of inbound.entries in
    sanitize_entries-Shows p r connection c room inbound.ignored_client_ids inbound.entries
      (only_inbound ids states) next id run (only_inbound-IsUnique ids states u)
      (elim (only_inbound-get ids states id) [
        | inl h ↦ inl (subst (Shows c) (sym h) tt)
        | inr h ↦ inr h
      ])

-- A frame that a connection sends cannot take a client id from another connection: where
-- `validateFrame` lets the frame through and `sanitizeStates` follows, whether it returns or throws, an id that another
-- connection owned, in this or any other room, still has the same owner, clock and state.
pub sanitize_states-validate_frame_owner :
    (w : Wire) (p : Policy) (connection : ℕ) (room r : Text) (now : ℕ) (clock : ℕ → ℕ)
    (payload : List ℕ) (c : Context) (states : States) (id : ℕ) (o : Owner)
    → (validate_frame w p connection room now clock payload).1 ≡ true
    → owner_of p.owners r id ≡ some o
    → (o.connection == connection) ≡ false
    → owner_of
        (sanitize_states
          (validate_frame w p connection room now clock payload).0
          connection
          c
          states).0.0.owners
        r
        id
      ≡ some o
sanitize_states-validate_frame_owner w p connection room r now clock payload c states id o ok owned
      foreign =
    sanitize_states-owner_of (validate_frame w p connection room now clock payload).0 p.owners
      connection room r c states id o
      (validate_frame-Leaves w p connection room now clock payload ok) owned foreign

-- Nor can it show anything under such an id: after `sanitizeStates` returns, nothing is left to be
-- published under an id that another connection owned in the room.
pub sanitize_states-validate_frame_hides :
    (w : Wire) (p q : Policy) (connection : ℕ) (room : Text) (now : ℕ) (clock : ℕ → ℕ)
    (payload : List ℕ) (c : Context) (states next : States) (id : ℕ) (o : Owner)
    → (validate_frame w p connection room now clock payload).1 ≡ true
    → owner_of p.owners room id ≡ some o
    → (o.connection == connection) ≡ false
    → IsUnique states
    → sanitize_states (validate_frame w p connection room now clock payload).0 connection c states
      ≡ ((q, next), true)
    → get id next ≡ none
sanitize_states-validate_frame_hides w p q connection room now clock payload c states next id o ok
      owned foreign u e =
    let (inbound, here, _, _, guarded) =
      validate_frame-Leaves w p connection room now clock payload ok in
    let (inbound', here', room', r, run) =
      sanitize_states_inv (validate_frame w p connection room now clock payload).0 q connection c
        states next e in
    let same : inbound ≡ inbound' = pending_inj (sym here ∙ here') in
    let ids : List ℕ = ids_of inbound'.entries in
    sanitize_entries-hides (validate_frame w p connection room now clock payload).0 r connection c
      room' inbound'.ignored_client_ids inbound'.entries (only_inbound ids states) next id run
      (only_inbound-IsUnique ids states u)
      (subst (λ x. contains (ids_of x.entries) id ≡ true → contains x.ignored_client_ids id ≡ true)
        same (guarded id o owned foreign))
      (only_inbound-get ids states id)
