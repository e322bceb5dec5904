-- ===== src/Navigation/Tests.antt =====
-- Runs of controllers of src/features/collaboration/client/navigation-controller.ts.
use coredot_editor.Prelude.{
  ℕ, ◌≡◌, ◌≢◌, ◌≤◌, refl, true, false, List, [], ◌∷◌, Option, none, some, Text, Text-discrete,
  ℕ_discrete, codes, any, map, arith,
}
use coredot_editor.Awareness.Values.{null}
use coredot_editor.Session.View.{Snapshot, connecting, has_pending_collaboration_updates}
use coredot_editor.Navigation.State.{
  World, Page, create_controller, prevented, asked, went_forward, pushed_sentinel, replaced_base,
  is_own_base_state, added, before_unload, pop_state,
}
use coredot_editor.Navigation.Handlers.{
  refused, request_transition, handle_before_unload, is_other, leave_entry,
  start_canceled_traversal_restoration, push_sentinel, handle_pop_state, pop_without_transition,
  pop_guarded,
}
use coredot_editor.Navigation.Events.{
  Event, request, installs, pops, requests, handle, handle_all, install, install_navigation,
  install_fallback, time_out,
}
use coredot_editor.Navigation.Staying.{is_departure}
use coredot_editor.Navigation.Refusal.{handle_all-refused}
use coredot_editor.Navigation.Restoration.{
  HasDistinctIds, Lacks, run_system, restoring_count, restoring_count-run_system,
}
use coredot_editor.Navigation.Ending.{time_out-handle_all}

-- One update is pending, the page has no Navigation API, and the user refuses.
abbrev unsaved : Snapshot
unsaved = record {
  has_completed_initial_sync = true;
  pending_durable_acknowledgement_checksums = [];
  pending_local_checksums = [];
  pending_local_update_count = 1;
  permission = none;
  status = connecting;
  transport_synced = true;
  writable = true;
}

abbrev refusing : Page
refusing = record {
  snapshot = unsaved;
  confirms = false;
  at_protected_href = false;
  has_navigation = false;
  restore_throws = false;
}

abbrev first : Text
first = codes "collaboration-navigation-1"

abbrev second : Text
second = codes "collaboration-navigation-2"

-- The user goes back past the document, and asks for a transition.
abbrev events : List (Page × Event)
events = (refusing, installs) ∷ (refusing, pops null) ∷ (refusing, requests) ∷ []

abbrev start : World
start = record { controller = create_controller first; owner = none }

effects_of_events :
    (handle_all events start).1
    ≡ added before_unload
      ∷ replaced_base
      ∷ pushed_sentinel
      ∷ added pop_state
      ∷ asked
      ∷ went_forward
      ∷ asked
      ∷ []
unfolding handle_all handle install install_navigation install_fallback push_sentinel
    handle_pop_state is_other pop_without_transition pop_guarded is_own_base_state leave_entry
    has_pending_collaboration_updates request request_transition
    start_canceled_traversal_restoration Text-discrete ℕ_discrete
effects_of_events = refl

is_refused : refused refusing ≡ true
unfolding has_pending_collaboration_updates
is_refused = refl

handle_all-refused_example :
    (any is_departure (handle_all events start).1 ≡ false)
    × ((handle_all events start).0.controller.permits ≡ [])
    × (handle_before_unload refusing (handle_all events start).0
        ≡ ((handle_all events start).0, prevented ∷ []))
handle_all-refused_example =
    handle_all-refused first none events refusing (is_refused, (is_refused, (is_refused, tt)))
      is_refused

apart : second ≢ first
apart e = ground arith

are_distinct : HasDistinctIds (map create_controller (first ∷ second ∷ []))
unfolding HasDistinctIds Lacks
are_distinct = ((apart, tt), (tt, tt))

-- Both controllers are told of the same traversal.
abbrev both : List (ℕ × Page × Event)
both =
    (0, refusing, installs)
    ∷ (1, refusing, installs)
    ∷ (0, refusing, pops null)
    ∷ (1, refusing, pops null)
    ∷ []

restoring_count-run_system_example :
    restoring_count (run_system both (map create_controller (first ∷ second ∷ []), none)).0 ≤ 1
restoring_count-run_system_example =
    restoring_count-run_system (first ∷ second ∷ []) both are_distinct

no_owner : {id : Text} → ◌≢◌ {A = Option Text} none (some id)
no_owner e = cc

time_out-handle_all_example :
    ((time_out refusing (handle_all events start).0).0.controller.restoring_canceled_traversal
      ≡ false)
    × ((time_out refusing (handle_all events start).0).0.owner ≢ some first)
time_out-handle_all_example = time_out-handle_all first none events refusing no_owner
