-- ===== src/Profiles/Approval.antt =====
-- How a document comes to be approved under the profiles of
-- src/features/projects/default-project-profiles.ts.
use coredot_editor.Prelude.{
  ◌≡◌, refl, sym, ◌∙◌, subst, ◌⊎◌, Option, inl, inr, Bool, true, not, List, [], ◌∷◌, none, some,
  Text, Text-discrete, ℕ_discrete, get, text_key, holds,
}
use coredot_editor.Profiles.Data.{Field, Profile, Metadata}
use coredot_editor.Profiles.Defining.{member, draft}
use coredot_editor.Profiles.Metadata.{field_map, missing}
use coredot_editor.Profiles.Readiness.{
  find_state, filter_states, get_project_readiness_options, DocumentState, valid,
  is_project_readiness_transition_allowed, validate_project_document_state,
}
use coredot_editor.Profiles.Transitions.{validate_project_document_state-valid}
use coredot_editor.Profiles.Defaults.{
  needs_review, ready, approved, readiness_order, progressive_transitions, create_readiness,
}
use coredot_editor.Profiles.Accepted.{IsAccepted, validate_project_metadata-IsAccepted}
use coredot_editor.Profiles.Resubmission.{HasNumbers, accepted_again, missing-get}
use coredot_editor.Profiles.Progress.{member_cases, member_one}

-- Metadata that lacks nothing: accepted before, complete, and without NaN.
unfoldable pub IsComplete : List Field → Metadata → Type 0
IsComplete fields m =
    (previous : Metadata) × IsAccepted (field_map fields []) previous m
    × (missing fields m ≡ none)
    × HasNumbers m

-- The values of the second document are those of the first.
unfoldable pub HasValues : DocumentState → DocumentState → Type 0
HasValues d e = (id : Text) → get id e.metadata_json ≡ get id d.metadata_json

HasValues-trans : (d e f : DocumentState) → HasValues d e → HasValues e f → HasValues d f
unfolding HasValues
HasValues-trans d e f h k id = k id ∙ h id

HasValues-refl : (d : DocumentState) → HasValues d d
unfolding HasValues
HasValues-refl d id = refl

-- A document may be taken to the next readiness with the metadata that it has.
advance :
    (p : Profile) (d : DocumentState) (next : Text)
    → IsComplete p.metadata_fields d.metadata_json
    → is_project_readiness_transition_allowed p d.readiness next ≡ true
    → (e : DocumentState) × (validate_project_document_state p
          (record { metadata_json = d.metadata_json; readiness = next })
          (some d)
        ≡ valid e)
      × (e.readiness ≡ next)
      × IsComplete p.metadata_fields e.metadata_json
      × HasValues d e
unfolding IsComplete HasNumbers IsAccepted HasValues
advance p d next (previous, kept, full, real) allowed =
    let enforce : Bool = not (holds (Text-discrete next draft)) in
    let (m, run, same) =
      accepted_again p.metadata_fields previous d.metadata_json enforce kept real (inl full) in
    (
      record { metadata_json = m; readiness = next },
      validate_project_document_state-valid p
          (record { metadata_json = d.metadata_json; readiness = next }) d m run allowed,
      refl,
      (
        d.metadata_json,
        validate_project_metadata-IsAccepted p.metadata_fields d.metadata_json d.metadata_json m
            enforce kept.0 run,
        missing-get p.metadata_fields m d.metadata_json same ∙ full,
        λ id h. real id (sym (same id) ∙ h),
      ),
      same,
    )

-- What a document may become by accepted changes.
pub data Changes (p : Profile) (d : DocumentState) : DocumentState → Type 0 where
  unchanged : Changes p d d
  changed :
      {previous : DocumentState} (input next : DocumentState)
      → Changes p d previous
      → validate_project_document_state p input (some previous) ≡ valid next
      → Changes p d next

-- The states of a profile are those that `createReadiness` gives, with `progressiveTransitions` or
-- with the transitions that it has itself, as in the default profile.
unfoldable pub HasDefaultStates : Profile → Type 0
HasDefaultStates p =
    (a : Text) × (b : Text) × (c : Text) × (d : Text) × (t : Option (List (Text × List Text)))
    × (p.readiness ≡ create_readiness a b c d t)
    × ((t ≡ none) ⊎ (t ≡ some progressive_transitions))

review_allowed :
    (p : Profile)
    → HasDefaultStates p
    → is_project_readiness_transition_allowed p draft needs_review ≡ true
unfolding HasDefaultStates is_project_readiness_transition_allowed get_project_readiness_options
    find_state filter_states Text-discrete ℕ_discrete
review_allowed p (a, b, c, d, t, shape, inl free) =
    rw (shape, free, is_project_readiness_transition_allowed, get_project_readiness_options)
      (rw shape refl)
review_allowed p (a, b, c, d, t, shape, inr stepwise) =
    rw (shape, stepwise, is_project_readiness_transition_allowed, get_project_readiness_options)
      (rw shape refl)

ready_allowed :
    (p : Profile)
    → HasDefaultStates p
    → is_project_readiness_transition_allowed p needs_review ready ≡ true
unfolding HasDefaultStates is_project_readiness_transition_allowed get_project_readiness_options
    find_state filter_states Text-discrete ℕ_discrete
ready_allowed p (a, b, c, d, t, shape, inl free) =
    rw (shape, free, is_project_readiness_transition_allowed, get_project_readiness_options)
      (rw shape refl)
ready_allowed p (a, b, c, d, t, shape, inr stepwise) =
    rw (shape, stepwise, is_project_readiness_transition_allowed, get_project_readiness_options)
      (rw shape refl)

approved_allowed :
    (p : Profile)
    → HasDefaultStates p
    → is_project_readiness_transition_allowed p ready approved ≡ true
unfolding HasDefaultStates is_project_readiness_transition_allowed get_project_readiness_options
    find_state filter_states Text-discrete ℕ_discrete
approved_allowed p (a, b, c, d, t, shape, inl free) =
    rw (shape, free, is_project_readiness_transition_allowed, get_project_readiness_options)
      (rw shape refl)
approved_allowed p (a, b, c, d, t, shape, inr stepwise) =
    rw (shape, stepwise, is_project_readiness_transition_allowed, get_project_readiness_options)
      (rw shape refl)

-- A document that is approved after some changes.
IsApproved : Profile → DocumentState → Type 0
IsApproved p d = (e : DocumentState) × Changes p d e × (e.readiness ≡ approved) × HasValues d e

at_readiness :
    (p : Profile) (t u next : Text)
    → t ≡ u
    → is_project_readiness_transition_allowed p u next ≡ true
    → is_project_readiness_transition_allowed p t next ≡ true
at_readiness p t u next e h =
    subst (λ x. is_project_readiness_transition_allowed p x next ≡ true) (sym e) h

from_ready :
    (p : Profile) (start d : DocumentState)
    → HasDefaultStates p
    → Changes p start d
    → HasValues start d
    → d.readiness ≡ ready
    → IsComplete p.metadata_fields d.metadata_json
    → IsApproved p start
unfolding IsApproved
from_ready p start d shape done kept at_ready full =
    let (e, run, now, _, same) =
      advance p d approved full
        (at_readiness p d.readiness ready approved at_ready (approved_allowed p shape)) in
    (
      e,
      changed (record { metadata_json = d.metadata_json; readiness = approved }) e done run,
      now,
      HasValues-trans start d e kept same,
    )

from_review :
    (p : Profile) (start d : DocumentState)
    → HasDefaultStates p
    → Changes p start d
    → HasValues start d
    → d.readiness ≡ needs_review
    → IsComplete p.metadata_fields d.metadata_json
    → IsApproved p start
from_review p start d shape done kept at_review full =
    let (e, run, now, full', same) =
      advance p d ready full
        (at_readiness p d.readiness needs_review ready at_review (ready_allowed p shape)) in
    from_ready p start e shape
      (changed (record { metadata_json = d.metadata_json; readiness = ready }) e done run)
      (HasValues-trans start d e kept same) now full'

from_draft :
    (p : Profile) (d : DocumentState)
    → HasDefaultStates p
    → d.readiness ≡ draft
    → IsComplete p.metadata_fields d.metadata_json
    → IsApproved p d
from_draft p d shape at_draft full =
    let (e, run, now, full', same) =
      advance p d needs_review full
        (at_readiness p d.readiness draft needs_review at_draft (review_allowed p shape)) in
    from_review p d e shape
      (changed (record { metadata_json = d.metadata_json; readiness = needs_review }) e unchanged
        run)
      same now full'

-- Under a profile whose states are those that `createReadiness` gives, either with
-- `progressiveTransitions` or with no transitions given, a document in one of the four states whose
-- metadata is complete (accepted before, with every required field, and without NaN) can be approved:
-- there are accepted changes after which it is approved, and each name of its metadata has the value
-- that it had.
pub Changes-approved :
    (p : Profile) (d : DocumentState)
    → HasDefaultStates p
    → member d.readiness readiness_order ≡ true
    → IsComplete p.metadata_fields d.metadata_json
    → (e : DocumentState) × Changes p d e × (e.readiness ≡ approved) × HasValues d e
unfolding IsApproved
Changes-approved p d shape known full =
    elim (member_cases d.readiness draft (needs_review ∷ ready ∷ approved ∷ []) known) [
      | inl e ↦ from_draft p d shape e full
      | inr h ↦ elim (member_cases d.readiness needs_review (ready ∷ approved ∷ []) h) [
        | inl e ↦ from_review p d d shape unchanged (HasValues-refl d) e full
        | inr h' ↦ elim (member_cases d.readiness ready (approved ∷ []) h') [
          | inl e ↦ from_ready p d d shape unchanged (HasValues-refl d) e full
          | inr h'' ↦ (d, unchanged, member_one d.readiness approved h'', HasValues-refl d)
        ]
      ]
    ]
