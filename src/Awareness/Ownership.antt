-- ===== src/Awareness/Ownership.antt =====
-- Client ids that another connection owns, in src/features/collaboration/server/awareness-policy.ts.
use coredot_editor.Prelude.{
  ℕ, suc, ◌≡◌, ◌≢◌, refl, subst, ◌⊎◌, inl, inr, Bool, true, false, List, [], ◌∷◌, ◌++◌, Option,
  none, some, Text, get, text_key, nat_key, or_else, ◌==◌, map, arith, Bool-cases, Option-cases,
}
use coredot_editor.Awareness.Decoding.{Wire, ParsedEntry, contains}
use coredot_editor.Awareness.State.{Owner, Rates, Policy, owner_of}
use coredot_editor.Awareness.Frames.{
  Frame, Verdict, goes_on, dropped, rejected, foreign_entry, own_entry, check_entry, check_entries,
  admit_state, with_candidate,
}

abbrev pub ids_of : List ParsedEntry → List ℕ
ids_of entries = map (λ e. e.client_id) entries

contains-append_left :
    (xs ys : List ℕ) (n : ℕ) → contains xs n ≡ true → contains (xs ++ ys) n ≡ true
contains-append_left [] ys n h = cc
contains-append_left (x ∷ xs) ys n h = elim (Bool-cases (x == n)) [
  | inl e ↦ rw e refl
  | inr e ↦ rw e (contains-append_left xs ys n (rw e at h))
]

module _ (connection time id : ℕ) (entries : List ParsedEntry) where
  admit_state_goes_on :
      (f g : Frame) → admit_state connection time entries f ≡ goes_on g → f.ignored ≡ g.ignored
  admit_state_goes_on f g e = ground arith

  admit_state_dropped :
      (f g : Frame)
      → admit_state connection time entries f ≡ dropped g
      → contains (ids_of entries) id ≡ true
      → contains g.ignored id ≡ true
  admit_state_dropped f g e h = ground (arith, contains-append_left (ids_of entries) f.ignored id h)

  with_candidate-ignored :
      (active : Option ℕ) (f : Frame) (n : ℕ) → (with_candidate active f n).ignored ≡ f.ignored
  with_candidate-ignored none f n = refl
  with_candidate-ignored (some a) f n = refl

  own_entry_goes_on :
      (active : Option ℕ) (active_clock : ℕ) (owned : Bool) (f g : Frame) (entry : ParsedEntry)
      → own_entry connection time entries active active_clock owned f entry ≡ goes_on g
      → contains f.ignored id ≡ true
      → contains g.ignored id ≡ true
  unfolding own_entry
  own_entry_goes_on active active_clock owned f g entry e h = ground arith

  own_entry_dropped :
      (active : Option ℕ) (active_clock : ℕ) (owned : Bool) (f g : Frame) (entry : ParsedEntry)
      → own_entry connection time entries active active_clock owned f entry ≡ dropped g
      → contains (ids_of entries) id ≡ true
      → contains g.ignored id ≡ true
  unfolding own_entry
  own_entry_dropped active active_clock owned f g entry e h =
      ground (arith, admit_state_dropped (with_candidate active f entry.client_id) g)

  foreign_entry_goes_on :
      (w : Wire) (f g : Frame) (entry : ParsedEntry) (o : Owner)
      → foreign_entry w connection time f entry o ≡ goes_on g
      → g.ignored ≡ entry.client_id ∷ f.ignored
  unfolding foreign_entry
  foreign_entry_goes_on w f g entry o e = ground arith

  foreign_entry_dropped :
      (w : Wire) (f g : Frame) (entry : ParsedEntry) (o : Owner)
      → foreign_entry w connection time f entry o ≢ dropped g
  unfolding foreign_entry
  foreign_entry_dropped w f g entry o e = ground arith

  module _ (w : Wire) (p : Policy) (room : Text) where
    check_entry_goes_on :
        (f g : Frame) (entry : ParsedEntry)
        → check_entry w p connection room time entries f entry ≡ goes_on g
        → contains f.ignored id ≡ true
        → contains g.ignored id ≡ true
    unfolding check_entry
    check_entry_goes_on f g entry e h =
        elim (Option-cases (owner_of p.owners room entry.client_id)) [
          | inl k ↦
              own_entry_goes_on (get connection p.active_client)
                (or_else (get connection p.active_clock) 0) false f g entry
                (rw (k, check_entry) at e) h
          | inr (o, k) ↦ elim (Bool-cases (o.connection == connection)) [
            | inl own ↦
                own_entry_goes_on (get connection p.active_client)
                  (or_else (get connection p.active_clock) 0) true f g entry
                  (rw (k, own, check_entry) at e) h
            | inr other ↦
                let ignored =
                  foreign_entry_goes_on w f g entry o (rw (k, other, check_entry) at e) in
                rw ignored (ground arith)
          ]
        ]

    check_entry_dropped :
        (f g : Frame) (entry : ParsedEntry)
        → check_entry w p connection room time entries f entry ≡ dropped g
        → contains (ids_of entries) id ≡ true
        → contains g.ignored id ≡ true
    unfolding check_entry
    check_entry_dropped f g entry e h =
        elim (Option-cases (owner_of p.owners room entry.client_id)) [
          | inl k ↦
              own_entry_dropped (get connection p.active_client)
                (or_else (get connection p.active_clock) 0) false f g entry
                (rw (k, check_entry) at e) h
          | inr (o, k) ↦ elim (Bool-cases (o.connection == connection)) [
            | inl own ↦
                own_entry_dropped (get connection p.active_client)
                  (or_else (get connection p.active_clock) 0) true f g entry
                  (rw (k, own, check_entry) at e) h
            | inr other ↦
                absurd (foreign_entry_dropped w f g entry o (rw (k, other, check_entry) at e))
          ]
        ]

    check_entry_foreign :
        (f g : Frame) (entry : ParsedEntry) (o : Owner)
        → owner_of p.owners room entry.client_id ≡ some o
        → (o.connection == connection) ≡ false
        → check_entry w p connection room time entries f entry ≡ goes_on g
        → contains g.ignored entry.client_id ≡ true
    unfolding check_entry
    check_entry_foreign f g entry o owned foreign e =
        let ignored = foreign_entry_goes_on w f g entry o (rw (owned, foreign, check_entry) at e) in
        rw ignored (ground arith)

pub Verdict-cases :
    (v : Verdict)
    → ((g : Frame) × (v ≡ goes_on g))
      ⊎ (((g : Frame) × (v ≡ dropped g)) ⊎ ((rates : Rates) × (v ≡ rejected rates)))
Verdict-cases (goes_on g) = inl (g, refl)
Verdict-cases (dropped g) = inr (inl (g, refl))
Verdict-cases (rejected rates) = inr (inr (rates, refl))

goes_on_inj : {f g : Frame} → goes_on f ≡ goes_on g → f ≡ g
goes_on_inj e = cc

dropped_inj : {f g : Frame} → (dropped f ≡ goes_on g) ⊎ (dropped f ≡ dropped g) → f ≡ g
dropped_inj (inl e) = cc
dropped_inj (inr e) = cc

rejected_inj :
    {rates : Rates} {g : Frame} → (rejected rates ≡ goes_on g) ⊎ (rejected rates ≡ dropped g) → ⊥
rejected_inj (inl e) = cc
rejected_inj (inr e) = cc

-- In a frame that is let through, an id that another connection owns is ignored.
pub check_entries_foreign :
    (w : Wire) (p : Policy) (connection id : ℕ) (room : Text) (clock : ℕ → ℕ)
    (entries remaining : List ParsedEntry) (i : ℕ) (f : Frame) (o : Owner)
    → owner_of p.owners room id ≡ some o
    → (o.connection == connection) ≡ false
    → contains (ids_of entries) id ≡ true
    → (contains f.ignored id ≡ true) ⊎ (contains (ids_of remaining) id ≡ true)
    → (g : Frame)
    → (check_entries w p connection room clock entries i remaining f ≡ goes_on g)
      ⊎ (check_entries w p connection room clock entries i remaining f ≡ dropped g)
    → contains g.ignored id ≡ true
unfolding check_entries
check_entries_foreign w p connection id room clock entries [] i f o owned foreign inside (inl h) g
      (inl e) =
    subst (λ k. contains k.ignored id ≡ true) (goes_on_inj e) h
check_entries_foreign w p connection id room clock entries [] i f o owned foreign inside (inl h) g
      (inr e) =
    cc
check_entries_foreign w p connection id room clock entries [] i f o owned foreign inside (inr h) g
      ends =
    cc
check_entries_foreign w p connection id room clock entries (entry ∷ remaining) i f o owned foreign
      inside placed g ends =
    elim (Verdict-cases (check_entry w p connection room (clock i) entries f entry)) [
      | inl (next, e) ↦
          check_entries_foreign w p connection id room clock entries remaining (suc i) next o owned
            foreign inside
            (elim placed [
              | inl h ↦
                  inl
                    (check_entry_goes_on connection (clock i) id entries w p room f next entry e h)
              | inr h ↦ elim (Bool-cases (entry.client_id == id)) [
                | inl same ↦
                    let eq : entry.client_id ≡ id = ground arith in
                    inl (
                      subst (λ n. contains next.ignored n ≡ true) eq
                        (check_entry_foreign connection (clock i) id entries w p room f next entry o
                          (rw eq owned) foreign e))
                | inr other ↦ inr (rw other at h)
              ]
            ])
            g (rw (e, check_entries) at ends)
      | inr (inl (next, e)) ↦
          let same : next ≡ g = dropped_inj (rw (e, check_entries) at ends) in
          subst (λ k. contains k.ignored id ≡ true) same
            (check_entry_dropped connection (clock i) id entries w p room f next entry e inside)
      | inr (inr (rates, e)) ↦ absurd (rejected_inj (rw (e, check_entries) at ends))
    ]
