-- ===== src/Navigation/Handlers.antt =====
-- The functions inside `createCollaborationNavigationController` of
-- src/features/collaboration/client/navigation-controller.ts.
use coredot_editor.Prelude.{
  ℕ, Bool, true, false, ◌&&◌, ◌||◌, not, List, [], ◌∷◌, ◌++◌, Option, none, some, Text,
  Text-discrete, holds, if◌then◌else◌, is_some,
}
use coredot_editor.Awareness.Values.{Json}
use coredot_editor.Session.View.{has_pending_collaboration_updates}
use coredot_editor.Navigation.State.{
  Transition, of_caller, back, Controller, World, Page, before_unload, pop_state, navigate,
  navigate_error, navigate_success, Effect, asked, prevented, handed_over, handed_over_at,
  went_back, went_forward, pushed_sentinel, replaced_base, restored_route, ran, removed, Outcome,
  and_then, with_controller, is_own_base_state,
}

-- hasPendingCollaborationUpdates(getSnapshot()) && !confirm(getMessage())
abbrev pub refused : Page → Bool
refused page = has_pending_collaboration_updates page.snapshot && not page.confirms

-- The question that this asks.
abbrev pub question : Page → List Effect
question page = if has_pending_collaboration_updates page.snapshot then asked ∷ [] else []

-- `activeFallbackRestorationOwner !== null && activeFallbackRestorationOwner !== fallbackRestorationOwner`
unfoldable pub is_other : Text → Option Text → Bool
is_other id none = false
is_other id (some j) = not (holds (Text-discrete j id))

-- Another controller is restoring its entry.
abbrev pub is_foreign : World → Bool
is_foreign w = is_other w.controller.controller_id w.owner

abbrev pub run_transition : Transition → List Effect
run_transition (of_caller n) = ran n ∷ []
run_transition back = went_back ∷ []

-- What a permit does when it continues for the first time.
unfoldable pub continue_permit : Transition → World → Outcome
continue_permit transition w =
    let c = record w.controller { handed_off = true } in
    if c.installed && c.sentinel_active
    then (
      with_controller w (record c { pending_transition = some transition }),
      handed_over ∷ went_back ∷ [],
    )
    else (with_controller w c, handed_over ∷ run_transition transition)

-- requestTransition: whether it gives a permit, and what it asks.
unfoldable pub request_transition : Page → World → Bool × List Effect
request_transition page w =
    if w.controller.handed_off
    then (false, [])
    else if is_foreign w
    then (false, [])
    else (not (refused page), question page)

-- pushSentinel
unfoldable pub push_sentinel : World → Outcome
push_sentinel w =
    (with_controller w (record w.controller { sentinel_active = true }), pushed_sentinel ∷ [])

-- clearApprovedDocumentNavigation
abbrev pub clear_approved_document_navigation : Controller → Controller
clear_approved_document_navigation c = record c { approved_document_navigation = none }

-- handleBeforeUnload
unfoldable pub handle_before_unload : Page → World → Outcome
handle_before_unload page w =
    if w.controller.handed_off
      || is_some w.controller.approved_document_navigation
      || not (has_pending_collaboration_updates page.snapshot)
    then (w, [])
    else (w, prevented ∷ [])

-- approveForeignTarget
unfoldable pub approve_foreign_target : Json → World → Outcome
approve_foreign_target state w = (
  with_controller w (record w.controller { handed_off = true; sentinel_active = false }),
  handed_over_at state ∷ [],
)

-- A navigate event: whether it can be intercepted, has a destination with an url, is aborted already, and
-- stays in the document, and its signal.
pub record NavigateEvent : Type 0 where
  pub can_intercept : Bool
  pub has_url : Bool
  pub aborted : Bool
  pub same_document : Bool
  pub signal : Option ℕ

-- handleNavigate
unfoldable pub handle_navigate : Page → NavigateEvent → World → Outcome
handle_navigate page event w =
    if w.controller.handed_off
    then (w, [])
    else let c = clear_approved_document_navigation w.controller in
      if not event.can_intercept || not event.has_url || event.aborted
      then (with_controller w c, [])
      else if refused page
      then (with_controller w c, asked ∷ prevented ∷ [])
      else if event.same_document
      then (with_controller w c, question page)
      else (
        with_controller w (record c { approved_document_navigation = some event.signal }),
        question page,
      )

-- handleNavigationSettled
abbrev pub handle_navigation_settled : World → Outcome
handle_navigation_settled w =
    (with_controller w (clear_approved_document_navigation w.controller), [])

abbrev pub when : Bool → List Effect → List Effect
when true effects = effects
when false effects = []

-- removeInstalledListeners
unfoldable pub remove_installed_listeners : Page → World → Outcome
remove_installed_listeners page w =
    let c = w.controller in
    if not c.installed
    then (w, [])
    else let navigates = c.navigate_listener_installed && page.has_navigation in
      (
        with_controller w (record c {
          installed = false;
          uninstall_requested = false;
          before_unload_listener_installed = false;
          navigate_listener_installed = if navigates then false else c.navigate_listener_installed;
          approved_document_navigation = none;
          pop_state_listener_installed = false;
        }),
        when c.before_unload_listener_installed (removed before_unload ∷ [])
            ++ when navigates
                (removed navigate ∷ removed navigate_error ∷ removed navigate_success ∷ [])
            ++ when c.pop_state_listener_installed (removed pop_state ∷ []),
      )

-- The owner once a controller has released the restoration.
unfoldable pub released : Text → Option Text → Option Text
released id none = none
released id (some j) = if holds (Text-discrete j id) then none else some j

-- releaseFallbackRestoration
unfoldable pub release_fallback_restoration : World → World
release_fallback_restoration w = record {
  controller = record w.controller {
    restoration_timeout = false;
    restoring_canceled_traversal = false;
  };
  owner = released w.controller.controller_id w.owner;
}

-- The `finally` of `completeCanceledTraversal`.
unfoldable pub finish_restoration : Page → World → Outcome
finish_restoration page w =
    let v = release_fallback_restoration w in
    if v.controller.uninstall_requested then remove_installed_listeners page v else (v, [])

-- completeCanceledTraversal. Where onRestoreProtectedRoute throws, no sentinel is pushed.
unfoldable pub complete_canceled_traversal : Page → Bool → World → Outcome
complete_canceled_traversal page force w =
    if not w.controller.restoring_canceled_traversal
    then (w, [])
    else and_then
        (and_then (w, when force (replaced_base ∷ []) ++ restored_route ∷ [])
          (λ v. if page.restore_throws then (v, []) else push_sentinel v))
        (finish_restoration page)

-- startCanceledTraversalRestoration
unfoldable pub start_canceled_traversal_restoration : World → World
start_canceled_traversal_restoration w = record {
  controller = record w.controller {
    restoring_canceled_traversal = true;
    restoration_timeout = true;
  };
  owner = some w.controller.controller_id;
}

-- handlePopState outside of its entry
unfoldable pub leave_entry : Page → Json → World → Outcome
leave_entry page state w =
    if refused page
    then (
      start_canceled_traversal_restoration
          (with_controller w (record w.controller { sentinel_active = false })),
      asked ∷ went_forward ∷ [],
    )
    else and_then (w, question page) (approve_foreign_target state)

-- handlePopState at the base entry: the sentinel was left.
unfoldable pub leave_sentinel : Page → World → Outcome
leave_sentinel page w =
    let v = with_controller w (record w.controller { sentinel_active = false }) in
    let (permitted, questions) = request_transition page v in
    if permitted
    then and_then (v, questions) (continue_permit back)
    else and_then (v, questions) push_sentinel

-- handlePopState where nothing was handed off, and the entry that the page is at
unfoldable pub pop_guarded : Page → Json → Bool → World → Outcome
pop_guarded page state is_protected_base w =
    if w.controller.restoring_canceled_traversal
    then (if is_protected_base
        then complete_canceled_traversal page false
            (with_controller w (record w.controller { sentinel_active = false }))
        else (w, went_forward ∷ []))
    else if is_protected_base
    then leave_sentinel page w
    else leave_entry page state w

unfoldable pub pop_without_transition : Page → Json → World → Outcome
pop_without_transition page state w =
    if w.controller.handed_off
    then (w, [])
    else pop_guarded page state
        (is_own_base_state state w.controller.controller_id && page.at_protected_href) w

-- The transition that waits for the way back, or what is done without one.
abbrev pub finish_transition : Option Transition → World → Outcome → Outcome
finish_transition none w without = without
finish_transition (some transition) w without = (
  with_controller w (record w.controller { sentinel_active = false; pending_transition = none }),
  run_transition transition,
)

-- handlePopState
unfoldable pub handle_pop_state : Page → Json → World → Outcome
handle_pop_state page state w =
    if is_foreign w
    then (w, [])
    else finish_transition w.controller.pending_transition w (pop_without_transition page state w)
