-- ===== src/Awareness/Frames.antt =====
-- `validateFrame` of src/features/collaboration/server/awareness-policy.ts. A Boolean says whether the
-- call returns (true) or throws; what it wrote before it threw stays.
use coredot_editor.Prelude.{
  ℕ, suc, Bool, true, false, not, ◌&&◌, ◌||◌, List, [], ◌∷◌, ◌++◌, Option, none, some, Text, get,
  insert, text_key, nat_key, or_else, if◌then◌else◌, ltb, leb, ◌==◌, length, map,
}
use coredot_editor.Awareness.Values.{Fields}
use coredot_editor.Awareness.Shape.{validate_state}
use coredot_editor.Awareness.Decoding.{Wire, ParsedEntry, parse_awareness_payload}
use coredot_editor.Awareness.State.{
  awareness_rate_limit, awareness_total_rate_limit, Owner, Rates, Policy, try_consume_rate,
  owner_of,
}

-- What the loop of `validateFrame` carries.
pub record Frame : Type 0 where
  pub rates : Rates
  pub ignored : List ℕ
  pub live_candidate : Option ℕ

-- How one entry ends: the loop goes on, drops the whole frame, or throws.
pub data Verdict : Type 0 where
  goes_on dropped : Frame → Verdict
  rejected : Rates → Verdict

abbrev pub ignore : Frame → ParsedEntry → Verdict
ignore f entry = goes_on (record f { ignored = entry.client_id ∷ f.ignored })

abbrev pub is_client : Option ℕ → ℕ → Bool
is_client none id = false
is_client (some n) id = n == id

abbrev pub is_nothing : {A : Type 0} → Option A → Bool
is_nothing none = true
is_nothing (some x) = false

-- `entry.state !== null && entry.clock === owner.clock && isDeepStrictEqual(entry.state, owner.state)`
abbrev pub is_echo : Wire → Option Fields → ℕ → Owner → Bool
is_echo w none clock owner = false
is_echo w (some state) clock owner = clock == owner.clock && w.deep_strict_equal state owner.state

-- An entry whose client id another connection owns.
unfoldable pub foreign_entry : Wire → ℕ → ℕ → Frame → ParsedEntry → Owner → Verdict
foreign_entry w connection time f entry owner =
    if ltb entry.clock owner.clock
    then ignore f entry
    else if is_echo w entry.state entry.clock owner
    then ignore f entry
    else elim (try_consume_rate awareness_rate_limit f.rates connection time) [
      | none ↦ rejected f.rates
      | some rates ↦
          if ltb owner.clock entry.clock
          then ignore (record f { rates = rates }) entry
          else rejected rates
    ]

-- Another client id of a frame claims to be live.
abbrev pub second_candidate : Option ℕ → Frame → ℕ → Bool
second_candidate (some active) f client_id = false
second_candidate none f client_id =
    not (is_nothing f.live_candidate) && not (is_client f.live_candidate client_id)

abbrev pub with_candidate : Option ℕ → Frame → ℕ → Frame
with_candidate (some active) f client_id = f
with_candidate none f client_id = record f { live_candidate = some client_id }

-- The last steps for an entry: its state is allowed, and the rate of the connection bears it.
abbrev pub admit_state : ℕ → ℕ → List ParsedEntry → Frame → Verdict
admit_state connection time entries f =
    elim (try_consume_rate awareness_rate_limit f.rates connection time) [
      | none ↦ dropped (record f { ignored = map (λ e. e.client_id) entries ++ f.ignored })
      | some rates ↦ goes_on (record f { rates = rates })
    ]

-- An entry whose client id nobody owns, or the connection itself.
unfoldable pub own_entry :
    ℕ → ℕ → List ParsedEntry → Option ℕ → ℕ → Bool → Frame → ParsedEntry → Verdict
own_entry connection time entries active active_clock owned f entry =
    if not owned && is_nothing entry.state
    then ignore f entry
    else if not owned && not (is_nothing active) && not (is_client active entry.client_id)
    then ignore f entry
    else if not (is_nothing active) && not (is_client active entry.client_id)
    then rejected f.rates
    else if second_candidate active f entry.client_id
    then rejected f.rates
    else let g = with_candidate active f entry.client_id in
      elim entry.state [
        | none ↦
            if leb entry.clock active_clock
            then ignore g entry
            else admit_state connection time entries g
        | some state ↦
            if validate_state state then admit_state connection time entries g else rejected g.rates
      ]

unfoldable pub check_entry :
    Wire → Policy → ℕ → Text → ℕ → List ParsedEntry → Frame → ParsedEntry → Verdict
check_entry w p connection room time entries f entry =
    let active = get connection p.active_client in
    let active_clock = or_else (get connection p.active_clock) 0 in
    elim (owner_of p.owners room entry.client_id) [
      | none ↦ own_entry connection time entries active active_clock false f entry
      | some owner ↦
          if owner.connection == connection
          then own_entry connection time entries active active_clock true f entry
          else foreign_entry w connection time f entry owner
    ]

-- The loop of `validateFrame`. `clock i` is the time that entry i reads.
unfoldable pub check_entries :
    Wire → Policy → ℕ → Text → (ℕ → ℕ) → List ParsedEntry → ℕ → List ParsedEntry → Frame → Verdict
check_entries w p connection room clock entries i [] f = goes_on f
check_entries w p connection room clock entries i (entry ∷ remaining) f =
    elim (check_entry w p connection room (clock i) entries f entry) [
      | rejected rates ↦ rejected rates
      | dropped g ↦ dropped g
      | goes_on g ↦ check_entries w p connection room clock entries (suc i) remaining g
    ]

-- The frame that waits for `sanitizeStates`.
abbrev pub with_pending : Policy → ℕ → Text → List ParsedEntry → Frame → Policy
with_pending p connection room entries f = record p {
  rates = f.rates;
  pending =
      insert connection (record { entries = entries; ignored_client_ids = f.ignored; room = room })
        p.pending;
}

abbrev pub judge : Policy → ℕ → Text → List ParsedEntry → Verdict → Policy × Bool
judge p connection room entries (rejected rates) = (record p { rates = rates }, false)
judge p connection room entries (dropped f) = (with_pending p connection room entries f, true)
judge p connection room entries (goes_on f) = (with_pending p connection room entries f, true)

-- COLLABORATION_LIMITS.awarenessBytes
abbrev pub awareness_bytes : ℕ
awareness_bytes = 4096

abbrev pub no_entries : List ParsedEntry → Bool
no_entries [] = true
no_entries (entry ∷ entries) = false

-- `validateFrame` once the entries are read. `now` is the time that the total rate reads.
unfoldable pub validate_entries :
    Wire → Policy → ℕ → Text → ℕ → (ℕ → ℕ) → List ParsedEntry → Policy × Bool
validate_entries w p connection room now clock entries =
    if no_entries entries
    then (p, false)
    else elim (try_consume_rate awareness_total_rate_limit p.total_rates connection now) [
      | none ↦ (p, false)
      | some total ↦
          let q = record p { total_rates = total } in
          judge q connection room entries (
            check_entries w q connection room clock entries 0 entries
              (record { rates = q.rates; ignored = []; live_candidate = none }))
    ]

-- validateFrame
unfoldable pub validate_frame : Wire → Policy → ℕ → Text → ℕ → (ℕ → ℕ) → List ℕ → Policy × Bool
validate_frame w p connection room now clock payload =
    if ltb (length payload) 1 || ltb awareness_bytes (length payload)
    then (p, false)
    else elim (parse_awareness_payload w payload) [
      | none ↦ (p, false)
      | some entries ↦ validate_entries w p connection room now clock entries
    ]
