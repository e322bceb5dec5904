-- ===== src/Profiles/Progress.antt =====
-- The profiles of src/features/projects/default-project-profiles.ts whose readiness moves one step at a
-- time: how soon a document may be approved, and that it can be.
use coredot_editor.Prelude.{
  text-eq, false-true, ℕ, ◌+◌, ◌≤◌, ◌≡◌, ◌≢◌, refl, sym, ap, ◌∙◌, subst, ◌⊎◌, inl, inr, true, List,
  [], ◌∷◌, Option, none, some, Text, Text-discrete, ℕ_discrete, text_key, holds, if◌then◌else◌,
  Bool-cases, arith,
}
use coredot_editor.Profiles.Data.{Profile, ReadinessState}
use coredot_editor.Profiles.Defining.{member, draft}
use coredot_editor.Profiles.Readiness.{
  find_state, DocumentState, valid, current_readiness, validate_project_document_state,
}
use coredot_editor.Profiles.Transitions.{transition_inv, validate_project_document_state_inv}
use coredot_editor.Profiles.Defaults.{
  needs_review, ready, approved, progressive_transitions, create_readiness,
}
use coredot_editor.Profiles.History.{History, created, updated}

-- The states of a profile are those of `createReadiness` with `progressiveTransitions`.
unfoldable pub IsProgressive : Profile → Type 0
IsProgressive p =
    (a : Text) × (b : Text) × (c : Text) × (d : Text) × (p.readiness
      ≡ create_readiness a b c d (some progressive_transitions))

-- How far a document has come.
unfoldable pub rank : Text → ℕ
rank t =
    if holds (Text-discrete t approved)
    then 3
    else if holds (Text-discrete t ready)
    then 2
    else if holds (Text-discrete t needs_review)
    then 1
    else 0

rank-draft : rank draft ≡ 0
unfolding rank Text-discrete ℕ_discrete
rank-draft = refl

rank-needs_review : rank needs_review ≡ 1
unfolding rank Text-discrete ℕ_discrete
rank-needs_review = refl

rank-ready : rank ready ≡ 2
unfolding rank Text-discrete ℕ_discrete
rank-ready = refl

rank-approved : rank approved ≡ 3
unfolding rank Text-discrete ℕ_discrete
rank-approved = refl

rank_le : (t : Text) → rank t ≤ 3
unfolding rank
rank_le t = ground arith

pub member_cases :
    (x y : Text) (ys : List Text) → member x (y ∷ ys) ≡ true → (x ≡ y) ⊎ (member x ys ≡ true)
member_cases x y ys e = elim (Bool-cases (holds (Text-discrete y x))) [
  | inl h ↦ inl (sym (text-eq y x h))
  | inr h ↦ inr (rw h at e)
]

pub member_one : (x y : Text) → member x (y ∷ []) ≡ true → x ≡ y
member_one x y e = elim (member_cases x y [] e) [ inl h ↦ h | inr h ↦ absurd (false-true h) ]

state-eq : {x y : ReadinessState} → some x ≡ some y → x.transitions ≡ y.transitions
state-eq e = cc

not_found : {x : ReadinessState} → ◌≢◌ {A = Option ReadinessState} none (some x)
not_found e = cc

current-eq : {x y : Text} → some x ≡ some y → x ≡ y
current-eq e = cc

-- The state that a document is in, where little is allowed after it.
found_cases :
    (a b c d current : Text) (state : ReadinessState)
    → find_state current (create_readiness a b c d (some progressive_transitions)) ≡ some state
    → ((current ≡ draft) × (state.transitions ≡ needs_review ∷ []))
      ⊎ (((current ≡ needs_review) × (state.transitions ≡ draft ∷ ready ∷ [])) ⊎ (2 ≤ rank current))
unfolding find_state Text-discrete ℕ_discrete
found_cases a b c d current state e = elim (Bool-cases (holds (Text-discrete draft current))) [
  | inl h ↦ inl (sym (text-eq draft current h), sym (state-eq (rw (h, find_state) at e)))
  | inr h ↦ elim (Bool-cases (holds (Text-discrete needs_review current))) [
    | inl k ↦
        inr
          (inl (sym (text-eq needs_review current k), sym (state-eq (rw (h, k, find_state) at e))))
    | inr k ↦ elim (Bool-cases (holds (Text-discrete ready current))) [
      | inl l ↦ inr (inr (omega (arith, ap rank (text-eq ready current l), rank-ready)))
      | inr l ↦ elim (Bool-cases (holds (Text-discrete approved current))) [
        | inl m ↦ inr (inr (omega (arith, ap rank (text-eq approved current m), rank-approved)))
        | inr m ↦ absurd (not_found (rw (h, k, l, m, find_state) at e))
      ]
    ]
  ]
]

step-rank :
    (a b c d current next : Text) (state : ReadinessState)
    → find_state current (create_readiness a b c d (some progressive_transitions)) ≡ some state
    → member next (current ∷ state.transitions) ≡ true
    → rank next ≤ rank current + 1
step-rank a b c d current next state found chosen =
    elim (member_cases next current state.transitions chosen) [
      | inl same ↦ omega (arith, ap rank same)
      | inr there ↦ elim (found_cases a b c d current state found) [
        | inl (at_draft, only) ↦
            let on : next ≡ needs_review = member_one next needs_review (rw only at there) in
            omega (arith, ap rank on ∙ rank-needs_review)
        | inr (inl (at_review, only)) ↦
            elim (member_cases next draft (ready ∷ []) (rw only at there)) [
              | inl on ↦ omega (arith, ap rank on ∙ rank-draft)
              | inr on ↦ omega (
                arith,
                ap rank (member_one next ready on) ∙ rank-ready,
                ap rank at_review ∙ rank-needs_review,
              )
            ]
        | inr (inr far) ↦ omega (arith, far, rank_le next)
      ]
    ]

next-rank :
    (p : Profile) (input next : DocumentState) (previous : Option DocumentState) (current : Text)
    → IsProgressive p
    → validate_project_document_state p input previous ≡ valid next
    → current_readiness previous p.readiness ≡ some current
    → rank next.readiness ≤ rank current + 1
unfolding IsProgressive
next-rank p input next previous current (a, b, c, d, shape) e at_current =
    let (_, same, here, at_here, allowed) =
      validate_project_document_state_inv p input next previous e in
    let (state, found, chosen, _) = transition_inv p here input.readiness allowed in
    let step : rank input.readiness ≤ rank here + 1 =
      step-rank a b c d here input.readiness state
        (subst (λ r. find_state here r ≡ some state) shape found) chosen in
    omega (arith, step, ap rank same, ap rank (current-eq (sym at_here ∙ at_current)))

-- Where readiness moves one step at a time, a document is approved no sooner than in its third accepted
-- state, ready no sooner than in its second, and in review no sooner than in its first.
pub History-rank :
    (p : Profile) {n : ℕ} {d : DocumentState}
    → IsProgressive p
    → History p n d
    → rank d.readiness ≤ n
unfolding IsProgressive
History-rank p (a, b, c, d, shape) (created input next e) =
    let start : current_readiness none p.readiness ≡ some draft =
      ap (current_readiness none) shape in
    let step : rank next.readiness ≤ rank draft + 1 =
      next-rank p input next none draft (a, b, c, d, shape) e start in
    omega (arith, step, rank-draft)
History-rank p shape (updated {previous = previous} input next h e) =
    let step : rank next.readiness ≤ rank previous.readiness + 1 =
      next-rank p input next (some previous) previous.readiness shape e refl in
    omega (arith, step, History-rank p shape h)
