-- ===== src/Navigation/Refusal.antt =====
-- A user who refuses to leave while updates are pending, in
-- src/features/collaboration/client/navigation-controller.ts.
use coredot_editor.Prelude.{
  ℕ, ◌≡◌, refl, Bool, true, false, not, List, [], ◌∷◌, Option, Text, if◌then◌else◌, if-elim, any,
  All, arith, set, is_some,
}
use coredot_editor.Navigation.State.{
  Controller, World, Page, before_unload, pop_state, navigate, navigate_error, navigate_success,
  prevented, replaced_base, added, Outcome, and_then, with_controller, create_controller,
}
use coredot_editor.Navigation.Handlers.{
  refused, push_sentinel, handle_before_unload, handle_navigate, handle_navigation_settled,
  remove_installed_listeners, complete_canceled_traversal, handle_pop_state,
}
use coredot_editor.Navigation.Events.{
  is_open, with_uninstall, install_fallback, install_navigation, install, uninstall_at, is_signal,
  abort, time_out, Event, installs, uninstalls, requests, continues, unloads, navigates, settles,
  aborts, pops, times_out, handle, handle_all,
}
use coredot_editor.Navigation.Staying.{
  is_departure, IsHeld, Stays, and_then-Stays, navigate-Stays, complete-Stays,
  handle_pop_state-Stays, quiet-Stays, push_sentinel-Stays, request-Stays, continue_at-Stays,
  remove-Stays, first-Stays,
}

installed-Stays :
    (w : World)
    → IsHeld w.controller
    → Stays (
      with_controller w (record w.controller { pop_state_listener_installed = true }),
      added pop_state ∷ [],
    )
unfolding Stays IsHeld
installed-Stays w h = (h, refl)

replaced-Stays : (w : World) → IsHeld w.controller → Stays (w, replaced_base ∷ [])
unfolding Stays
replaced-Stays w h = (h, refl)

install_fallback-Stays : (w : World) → IsHeld w.controller → Stays (install_fallback w)
unfolding install_fallback
install_fallback-Stays w h =
    let listens : World → Outcome = λ v. (
      with_controller v (record v.controller { pop_state_listener_installed = true }),
      added pop_state ∷ [],
    ) in
    let pushed : Outcome = and_then (w, replaced_base ∷ []) push_sentinel in
    let entered : Outcome = if w.controller.sentinel_active then (w, []) else pushed in
    if-elim Stays (is_some w.owner) (w, []) (and_then entered listens) (λ e. quiet-Stays w h)
      (λ e.
        and_then-Stays entered listens
          (if-elim Stays w.controller.sentinel_active (w, []) pushed (λ k. quiet-Stays w h)
            (λ k.
              and_then-Stays (w, replaced_base ∷ []) push_sentinel (replaced-Stays w h)
                push_sentinel-Stays))
          installed-Stays)

listening-Stays :
    (w : World)
    → IsHeld w.controller
    → Stays (
      with_controller w (record w.controller { navigate_listener_installed = true }),
      added navigate ∷ added navigate_error ∷ added navigate_success ∷ [],
    )
unfolding Stays IsHeld
listening-Stays w h = (h, refl)

install_navigation-Stays :
    (page : Page) (w : World) → IsHeld w.controller → Stays (install_navigation page w)
unfolding install_navigation
install_navigation-Stays page w h =
    if-elim Stays page.has_navigation
      (
        with_controller w (record w.controller { navigate_listener_installed = true }),
        added navigate ∷ added navigate_error ∷ added navigate_success ∷ [],
      )
      (install_fallback w) (λ e. listening-Stays w h) (λ e. install_fallback-Stays w h)

install-Stays : (page : Page) (w : World) → IsHeld w.controller → Stays (install page w)
unfolding install IsHeld
install-Stays page w h =
    let again : World =
      with_uninstall (with_controller w (record w.controller { uninstall_requested = false })) in
    let first : Outcome = (
      with_controller w (record w.controller {
        installed = true;
        uninstall_requested = false;
        before_unload_listener_installed = true;
      }),
      added before_unload ∷ [],
    ) in
    let last : World → Outcome = λ v. (with_uninstall v, []) in
    if-elim Stays w.controller.installed (again, [])
      (and_then (and_then first (install_navigation page)) last) (λ e. quiet-Stays again h)
      (λ e.
        and_then-Stays (and_then first (install_navigation page)) last
          (and_then-Stays first (install_navigation page) (first-Stays first.0 h)
            (install_navigation-Stays page))
          (λ v k. quiet-Stays (with_uninstall v) k))

uninstall_at-Stays :
    (page : Page) (place : ℕ) (w : World) → IsHeld w.controller → Stays (uninstall_at page place w)
unfolding uninstall_at IsHeld
uninstall_at-Stays page place w h =
    let c : Controller = record w.controller {
      uninstalls = set w.controller.uninstalls place true;
    } in
    let later : World = with_controller w (record c { uninstall_requested = true }) in
    let now : Outcome = remove_installed_listeners page (with_controller w c) in
    if-elim Stays (not (is_open w.controller.uninstalls place)) (w, [])
      (if c.restoring_canceled_traversal then (later, []) else now) (λ e. quiet-Stays w h)
      (λ e.
        if-elim Stays c.restoring_canceled_traversal (later, []) now (λ k. quiet-Stays later h)
          (λ k. remove-Stays page (with_controller w c) h))

unload-Stays : (page : Page) (w : World) → IsHeld w.controller → Stays (handle_before_unload page w)
unfolding handle_before_unload Stays IsHeld
unload-Stays page w h = ground arith

settle-Stays : (w : World) → IsHeld w.controller → Stays (handle_navigation_settled w)
unfolding Stays IsHeld
settle-Stays w (h, a, t, p) = ((h, refl, t, p), refl)

abort-Stays : (signal : ℕ) (w : World) → IsHeld w.controller → Stays (abort signal w)
unfolding abort
abort-Stays signal w h =
    if-elim Stays (is_signal w.controller.approved_document_navigation signal)
      (handle_navigation_settled w) (w, []) (λ e. settle-Stays w h) (λ e. quiet-Stays w h)

time_out-Stays : (page : Page) (w : World) → IsHeld w.controller → Stays (time_out page w)
unfolding time_out
time_out-Stays page w h =
    if-elim Stays w.controller.restoration_timeout (complete_canceled_traversal page true w) (w, [])
      (λ e. complete-Stays page true w h) (λ e. quiet-Stays w h)

-- An event that is heard only where the controller listens.
heard-Stays :
    (listens : Bool) (w : World) (o : Outcome)
    → IsHeld w.controller
    → Stays o
    → Stays (if listens then o else (w, []))
heard-Stays listens w o h s = if-elim Stays listens o (w, []) (λ e. s) (λ e. quiet-Stays w h)

handle-Stays :
    (page : Page) (event : Event) (w : World)
    → refused page ≡ true
    → IsHeld w.controller
    → Stays (handle page event w)
unfolding handle
handle-Stays page installs w r h = install-Stays page w h
handle-Stays page (uninstalls place) w r h = uninstall_at-Stays page place w h
handle-Stays page requests w r h = request-Stays page w r h
handle-Stays page (continues place transition) w r h = continue_at-Stays place transition w h
handle-Stays page unloads w r h =
    heard-Stays w.controller.before_unload_listener_installed w (handle_before_unload page w) h
      (unload-Stays page w h)
handle-Stays page (navigates event) w r h =
    heard-Stays w.controller.navigate_listener_installed w (handle_navigate page event w) h
      (navigate-Stays page event w r h)
handle-Stays page settles w r h =
    heard-Stays w.controller.navigate_listener_installed w (handle_navigation_settled w) h
      (settle-Stays w h)
handle-Stays page (aborts signal) w r h = abort-Stays signal w h
handle-Stays page (pops state) w r h =
    heard-Stays w.controller.pop_state_listener_installed w (handle_pop_state page state w) h
      (handle_pop_state-Stays page state w r h)
handle-Stays page times_out w r h = time_out-Stays page w h

handle_all-Stays :
    (events : List (Page × Event)) (w : World)
    → All (λ x. refused x.0 ≡ true) events
    → IsHeld w.controller
    → Stays (handle_all events w)
unfolding handle_all
handle_all-Stays [] w r h = quiet-Stays w h
handle_all-Stays ((page, event) ∷ events) w (r, rs) h =
    and_then-Stays (handle page event w) (handle_all events) (handle-Stays page event w r h)
      (λ v k. handle_all-Stays events v rs k)

start-IsHeld : (id : Text) → IsHeld (create_controller id)
unfolding IsHeld
start-IsHeld id = (refl, refl, refl, refl)

held_prevents :
    (page : Page) (w : World)
    → refused page ≡ true
    → IsHeld w.controller
    → handle_before_unload page w ≡ (w, prevented ∷ [])
unfolding handle_before_unload IsHeld
held_prevents page w r h = ground arith

-- While updates are pending and the user refuses to leave, no sequence of events makes a new controller
-- leave the document: it hands nothing off, does not go back and runs no transition, no permit is
-- given, and its handler of beforeunload then prevents the page from being unloaded.
pub handle_all-refused :
    (id : Text) (owner : Option Text) (events : List (Page × Event)) (page : Page)
    → All (λ x. refused x.0 ≡ true) events
    → refused page ≡ true
    → let start : World = record { controller = create_controller id; owner = owner } in
      (any is_departure (handle_all events start).1 ≡ false)
      × ((handle_all events start).0.controller.permits ≡ [])
      × (handle_before_unload page (handle_all events start).0
          ≡ ((handle_all events start).0, prevented ∷ []))
unfolding Stays IsHeld
handle_all-refused id owner events page rs r =
    let start : World = record { controller = create_controller id; owner = owner } in
    let ((handed, approved, pending, given), quiet) =
      handle_all-Stays events start rs (start-IsHeld id) in
    (
      quiet,
      given,
      held_prevents page (handle_all events start).0 r (handed, approved, pending, given),
    )
