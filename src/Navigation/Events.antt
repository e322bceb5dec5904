-- ===== src/Navigation/Events.antt =====
-- What can happen to a controller of src/features/collaboration/client/navigation-controller.ts, one event
-- after the other.
use coredot_editor.Prelude.{
  ℕ, ◌==◌, Bool, true, false, not, List, [], ◌∷◌, ◌++◌, Option, some, if◌then◌else◌, set, is_some,
  zero, suc,
}
use coredot_editor.Awareness.Values.{Json}
use coredot_editor.Navigation.State.{
  of_caller, World, Page, before_unload, pop_state, navigate, navigate_error, navigate_success,
  replaced_base, added, Outcome, and_then, with_controller,
}
use coredot_editor.Navigation.Handlers.{
  continue_permit, request_transition, push_sentinel, clear_approved_document_navigation,
  handle_before_unload, NavigateEvent, handle_navigate, handle_navigation_settled,
  remove_installed_listeners, complete_canceled_traversal, handle_pop_state,
}

-- A permit that has not continued, or an uninstall function that was not called.
abbrev pub is_open : List Bool → ℕ → Bool
is_open [] n = false
is_open (done ∷ rest) zero = not done
is_open (done ∷ rest) (suc n) = is_open rest n

-- requestTransition of the interface: a permit is a place in the list of permits.
unfoldable pub request : Page → World → Outcome
request page w =
    let (permitted, questions) = request_transition page w in
    if permitted
    then (
      with_controller w (record w.controller { permits = w.controller.permits ++ false ∷ [] }),
      questions,
    )
    else (w, questions)

-- permit.continue(transition)
unfoldable pub continue_at : ℕ → ℕ → World → Outcome
continue_at place transition w =
    if is_open w.controller.permits place
    then continue_permit (of_caller transition)
        (with_controller w (record w.controller { permits = set w.controller.permits place true }))
    else (w, [])

-- createUninstall
abbrev pub with_uninstall : World → World
with_uninstall w =
    with_controller w (record w.controller { uninstalls = w.controller.uninstalls ++ false ∷ [] })

-- The fallback of `install` where the page has no Navigation API.
unfoldable pub install_fallback : World → Outcome
install_fallback w =
    if is_some w.owner
    then (w, [])
    else and_then
        (if w.controller.sentinel_active
          then (w, [])
          else and_then (w, replaced_base ∷ []) push_sentinel)
        (λ v. (
          with_controller v (record v.controller { pop_state_listener_installed = true }),
          added pop_state ∷ [],
        ))

unfoldable pub install_navigation : Page → World → Outcome
install_navigation page w =
    if page.has_navigation
    then (
      with_controller w (record w.controller { navigate_listener_installed = true }),
      added navigate ∷ added navigate_error ∷ added navigate_success ∷ [],
    )
    else install_fallback w

-- install
unfoldable pub install : Page → World → Outcome
install page w =
    if w.controller.installed
    then (
      with_uninstall (with_controller w (record w.controller { uninstall_requested = false })),
      [],
    )
    else and_then
        (and_then
          (
            with_controller w (record w.controller {
              installed = true;
              uninstall_requested = false;
              before_unload_listener_installed = true;
            }),
            added before_unload ∷ [],
          )
          (install_navigation page))
        (λ v. (with_uninstall v, []))

-- A function that `install` gave.
unfoldable pub uninstall_at : Page → ℕ → World → Outcome
uninstall_at page place w =
    let c = record w.controller { uninstalls = set w.controller.uninstalls place true } in
    if not (is_open w.controller.uninstalls place)
    then (w, [])
    else if c.restoring_canceled_traversal
    then (with_controller w (record c { uninstall_requested = true }), [])
    else remove_installed_listeners page (with_controller w c)

-- The signal of a navigation is aborted: only the one that was approved has a listener.
abbrev pub is_signal : Option (Option ℕ) → ℕ → Bool
is_signal (some (some n)) m = n == m
is_signal _ m = false

unfoldable pub abort : ℕ → World → Outcome
abort signal w =
    if is_signal w.controller.approved_document_navigation signal
    then (with_controller w (clear_approved_document_navigation w.controller), [])
    else (w, [])

-- The timer of `startCanceledTraversalRestoration`.
unfoldable pub time_out : Page → World → Outcome
time_out page w =
    if w.controller.restoration_timeout then complete_canceled_traversal page true w else (w, [])

pub data Event : Type 0 where
  installs : Event
  uninstalls : ℕ → Event
  requests : Event
  -- a permit, and a transition of the caller
  continues : ℕ → ℕ → Event
  unloads : Event
  navigates : NavigateEvent → Event
  settles : Event
  aborts : ℕ → Event
  pops : Json → Event
  times_out : Event

-- An event of the page reaches the controller only where it listens.
unfoldable pub handle : Page → Event → World → Outcome
handle page installs w = install page w
handle page (uninstalls place) w = uninstall_at page place w
handle page requests w = request page w
handle page (continues place transition) w = continue_at place transition w
handle page unloads w =
    if w.controller.before_unload_listener_installed then handle_before_unload page w else (w, [])
handle page (navigates event) w =
    if w.controller.navigate_listener_installed then handle_navigate page event w else (w, [])
handle page settles w =
    if w.controller.navigate_listener_installed then handle_navigation_settled w else (w, [])
handle page (aborts signal) w = abort signal w
handle page (pops state) w =
    if w.controller.pop_state_listener_installed then handle_pop_state page state w else (w, [])
handle page times_out w = time_out page w

-- Any events, each with the page as it is then.
unfoldable pub handle_all : List (Page × Event) → World → Outcome
handle_all [] w = (w, [])
handle_all ((page, event) ∷ events) w = and_then (handle page event w) (handle_all events)
