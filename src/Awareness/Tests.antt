-- ===== src/Awareness/Tests.antt =====
-- Runs of the awareness policy, src/features/collaboration/server/awareness-policy.ts, with a decoder
-- that reads one number from each place of a frame.
use coredot_editor.Prelude.{
  ℕ, ◌≡◌, refl, Bool, true, false, List, [], ◌∷◌, Option, none, some, Text, Text-discrete, codes,
  get, text_key, nat_key, if◌then◌else◌, ℕ_discrete, ◌==◌, IsUnique,
}
use coredot_editor.Awareness.Values.{Json, null, obj, str, Fields, end, field, property}
use coredot_editor.Awareness.Shape.{
  is_forbidden, is_user_property, validate_state, validate_untrusted_user,
}
use coredot_editor.Awareness.Decoding.{Wire, parse_awareness_payload, parse_entries}
use coredot_editor.Awareness.State.{
  Owner, Context, Policy, create_policy, owner_of, try_consume_rate,
}
use coredot_editor.Awareness.Frames.{
  validate_frame, validate_entries, check_entries, check_entry, own_entry, foreign_entry,
}
use coredot_editor.Awareness.Sanitizing.{
  States, sanitize_states, sanitize_entries, sanitize_entry, only_inbound, publish_entry,
  with_owner, sanitized,
}
use coredot_editor.Awareness.Publishing.{Shows}
use coredot_editor.Awareness.Verified.{
  sanitize_states-Shows, sanitize_states-validate_frame_owner, sanitize_states-validate_frame_hides,
}

read_one : List ℕ → Option (ℕ × List ℕ)
read_one [] = none
read_one (b ∷ bs) = some (b, bs)

read_text : List ℕ → Option (Text × List ℕ)
read_text [] = none
read_text (b ∷ bs) = some (b ∷ [], bs)

claimed : Fields
claimed = field (codes "user") (obj (field (codes "displayName") (str (codes "Eve")) end)) end

-- 1 is a state that claims a name, all else is null.
parse_text : Text → Option Json
parse_text (c ∷ []) = some (if c == 1 then obj claimed else null)
parse_text _ = none

abbrev wire : Wire
wire = record {
  read_var_uint = read_one;
  read_var_string = read_text;
  parse_json = parse_text;
  deep_strict_equal = λ s t. false;
}

abbrev room : Text
room = codes "r"

abbrev context : Context
context = record {
  color = codes "red";
  display_name = codes "Ann";
  principal_id = codes "p";
  session_id = codes "s";
  room = room;
}

-- Connection 1 publishes client id 7 at clock 3.
abbrev opened : Policy
opened =
    (sanitize_states (validate_frame wire create_policy 1 room 5 (λ i. 5) (1 ∷ 7 ∷ 3 ∷ 1 ∷ [])).0 1
      context ((7, some claimed) ∷ [])).0.0

-- Connection 2 sends a newer state for client id 7, and its own client id 8.
abbrev attack : List ℕ
attack = 2 ∷ 7 ∷ 9 ∷ 1 ∷ 8 ∷ 1 ∷ 1 ∷ []

abbrev scratch : States
scratch = (7, some claimed) ∷ (8, some claimed) ∷ []

-- The first owner of client id 7.
abbrev ann : Owner
ann = record {
  clock = 3;
  connection = 1;
  state =
      field (codes "user")
        (obj (
          field (codes "color") (str (codes "red")) (
            field (codes "displayName") (str (codes "Ann")) (
              field (codes "principalId") (str (codes "p"))
                (field (codes "sessionId") (str (codes "s")) end)))))
        end;
}

abbrev received : Policy
received = (validate_frame wire opened 2 room 6 (λ i. 6) attack).0

abbrev published : (Policy × States) × Bool
published = sanitize_states received 2 context scratch

-- Both frames are let through, the ids being as the scratch holds them.
is_let_through : (validate_frame wire opened 2 room 6 (λ i. 6) attack).1 ≡ true
unfolding read_one read_text parse_text claimed Text-discrete ℕ_discrete parse_awareness_payload
    parse_entries validate_frame validate_entries try_consume_rate check_entries check_entry
    own_entry foreign_entry validate_state property validate_untrusted_user is_user_property
    is_forbidden sanitize_states sanitize_entries sanitize_entry only_inbound publish_entry
    with_owner sanitized
is_let_through = refl

published_eq : published ≡ ((published.0.0, published.0.1), true)
unfolding read_one read_text parse_text claimed Text-discrete ℕ_discrete parse_awareness_payload
    parse_entries validate_frame validate_entries try_consume_rate check_entries check_entry
    own_entry foreign_entry validate_state property validate_untrusted_user is_user_property
    is_forbidden sanitize_states sanitize_entries sanitize_entry only_inbound publish_entry
    with_owner sanitized
published_eq = refl

-- Client id 7 is removed from what the others see, client id 8 has the verified user.
published_states : published.0.1 ≡ ((8, some (sanitized context claimed)) ∷ [])
unfolding read_one read_text parse_text claimed Text-discrete ℕ_discrete parse_awareness_payload
    parse_entries validate_frame validate_entries try_consume_rate check_entries check_entry
    own_entry foreign_entry validate_state property validate_untrusted_user is_user_property
    is_forbidden sanitize_states sanitize_entries sanitize_entry only_inbound publish_entry
    with_owner sanitized
published_states = refl

owned : owner_of opened.owners room 7 ≡ some ann
unfolding read_one read_text parse_text claimed Text-discrete ℕ_discrete parse_awareness_payload
    parse_entries validate_frame validate_entries try_consume_rate check_entries check_entry
    own_entry foreign_entry validate_state property validate_untrusted_user is_user_property
    is_forbidden sanitize_states sanitize_entries sanitize_entry only_inbound publish_entry
    with_owner sanitized
owned = refl

is_unique : IsUnique scratch
unfolding read_one read_text parse_text claimed Text-discrete ℕ_discrete parse_awareness_payload
    parse_entries validate_frame validate_entries try_consume_rate check_entries check_entry
    own_entry foreign_entry validate_state property validate_untrusted_user is_user_property
    is_forbidden sanitize_states sanitize_entries sanitize_entry only_inbound publish_entry
    with_owner sanitized
is_unique = (refl, (refl, tt))

sanitize_states-Shows_example : Shows context (get 8 published.0.1)
sanitize_states-Shows_example =
    sanitize_states-Shows received published.0.0 2 context scratch published.0.1 8 is_unique
      published_eq

sanitize_states-validate_frame_owner_example : owner_of published.0.0.owners room 7 ≡ some ann
sanitize_states-validate_frame_owner_example =
    sanitize_states-validate_frame_owner wire opened 2 room room 6 (λ i. 6) attack context scratch 7
      ann is_let_through owned refl

sanitize_states-validate_frame_hides_example : get 7 published.0.1 ≡ none
sanitize_states-validate_frame_hides_example =
    sanitize_states-validate_frame_hides wire opened published.0.0 2 room 6 (λ i. 6) attack context
      scratch published.0.1 7 ann is_let_through owned refl is_unique published_eq
