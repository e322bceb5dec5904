-- ===== src/Navigation/Staying.antt =====
-- Handlers that do not leave the document while the user refuses to, in
-- src/features/collaboration/client/navigation-controller.ts.
use coredot_editor.Prelude.{
  ℕ, ◌≡◌, refl, sym, subst, Bool, true, false, not, ◌&&◌, List, [], ◌∷◌, ◌++◌, none, if◌then◌else◌,
  if-elim, any, arith, set,
}
use coredot_editor.Awareness.Values.{Json}
use coredot_editor.Navigation.State.{
  of_caller, Controller, World, Page, before_unload, Effect, handed_over, handed_over_at, went_back,
  went_forward, ran, replaced_base, restored_route, added, Outcome, and_then, with_controller,
  is_own_base_state,
}
use coredot_editor.Navigation.Handlers.{
  refused, question, is_foreign, continue_permit, request_transition, push_sentinel, NavigateEvent,
  handle_navigate, remove_installed_listeners, release_fallback_restoration, finish_restoration,
  complete_canceled_traversal, start_canceled_traversal_restoration, leave_entry, leave_sentinel,
  pop_guarded, pop_without_transition, finish_transition, handle_pop_state, when,
}
use coredot_editor.Navigation.Events.{is_open, request, continue_at}

-- An effect by which the document is left.
abbrev pub is_departure : Effect → Bool
is_departure handed_over = true
is_departure (handed_over_at state) = true
is_departure went_back = true
is_departure (ran n) = true
is_departure _ = false

-- Nothing was given away.
unfoldable pub IsHeld : Controller → Type 0
IsHeld c =
    (c.handed_off ≡ false)
    × (c.approved_document_navigation ≡ none)
    × (c.pending_transition ≡ none)
    × (c.permits ≡ [])

-- After a handler nothing is given away, and it did not leave.
unfoldable pub Stays : Outcome → Type 0
Stays (w, effects) = IsHeld w.controller × (any is_departure effects ≡ false)

any-append :
    (xs ys : List Effect)
    → any is_departure xs ≡ false
    → any is_departure ys ≡ false
    → any is_departure (xs ++ ys) ≡ false
any-append [] ys h k = k
any-append (x ∷ xs) ys h k = ground (arith, any-append xs ys)

pub and_then-Stays :
    (o : Outcome) (next : World → Outcome)
    → Stays o
    → ((w : World) → IsHeld w.controller → Stays (next w))
    → Stays (and_then o next)
unfolding Stays
and_then-Stays (w, done) next (held, quiet) go =
    let (held', quiet') = go w held in (held', any-append done (next w).1 quiet quiet')

pub quiet-Stays : (w : World) → IsHeld w.controller → Stays (w, [])
unfolding Stays
quiet-Stays w h = (h, refl)

pub push_sentinel-Stays : (w : World) → IsHeld w.controller → Stays (push_sentinel w)
unfolding Stays IsHeld push_sentinel
push_sentinel-Stays w h = ground arith

request_transition-refused :
    (page : Page) (w : World) → refused page ≡ true → (request_transition page w).0 ≡ false
unfolding request_transition
request_transition-refused page w r = ground arith

question-quiet : (page : Page) → any is_departure (question page) ≡ false
question-quiet page = ground arith

pub request-Stays :
    (page : Page) (w : World) → refused page ≡ true → IsHeld w.controller → Stays (request page w)
unfolding Stays IsHeld request request_transition
request-Stays page w r h = ground arith

pub continue_at-Stays :
    (place transition : ℕ) (w : World)
    → IsHeld w.controller
    → Stays (continue_at place transition w)
unfolding IsHeld continue_at
continue_at-Stays place transition w (h, a, t, p) =
    subst
      (λ ps. Stays (
        if is_open ps place
        then continue_permit (of_caller transition) (
            with_controller w
              (record w.controller { permits = set w.controller.permits place true }))
        else (w, [])))
      (sym p) (quiet-Stays w (h, a, t, p))

pub remove-Stays :
    (page : Page) (w : World) → IsHeld w.controller → Stays (remove_installed_listeners page w)
unfolding Stays IsHeld remove_installed_listeners
remove-Stays page w h = ground arith

pub navigate-Stays :
    (page : Page) (event : NavigateEvent) (w : World)
    → refused page ≡ true
    → IsHeld w.controller
    → Stays (handle_navigate page event w)
unfolding Stays IsHeld handle_navigate
navigate-Stays page event w r h = ground arith

release-IsHeld :
    (w : World) → IsHeld w.controller → IsHeld (release_fallback_restoration w).controller
unfolding IsHeld release_fallback_restoration
release-IsHeld w h = h

finish_restoration-Stays :
    (page : Page) (w : World) → IsHeld w.controller → Stays (finish_restoration page w)
unfolding finish_restoration
finish_restoration-Stays page w h =
    let v : World = release_fallback_restoration w in
    if-elim Stays v.controller.uninstall_requested (remove_installed_listeners page v) (v, [])
      (λ e. remove-Stays page v (release-IsHeld w h)) (λ e. quiet-Stays v (release-IsHeld w h))

leave_sentinel-Stays :
    (page : Page) (w : World)
    → refused page ≡ true
    → IsHeld w.controller
    → Stays (leave_sentinel page w)
unfolding leave_sentinel request_transition push_sentinel Stays IsHeld
leave_sentinel-Stays page w r h = ground arith

leave_entry-Stays :
    (page : Page) (state : Json) (w : World)
    → refused page ≡ true
    → IsHeld w.controller
    → Stays (leave_entry page state w)
unfolding leave_entry start_canceled_traversal_restoration Stays IsHeld
leave_entry-Stays page state w r h = ground arith

restoring-Stays :
    (force : Bool) (w : World)
    → IsHeld w.controller
    → Stays (w, when force (replaced_base ∷ []) ++ restored_route ∷ [])
unfolding Stays
restoring-Stays true w h = (h, refl)
restoring-Stays false w h = (h, refl)

restored-Stays :
    (page : Page) (w : World)
    → IsHeld w.controller
    → Stays (if page.restore_throws then (w, []) else push_sentinel w)
restored-Stays page w h =
    if-elim Stays page.restore_throws (w, []) (push_sentinel w) (λ e. quiet-Stays w h)
      (λ e. push_sentinel-Stays w h)

forward-Stays : (w : World) → IsHeld w.controller → Stays (w, went_forward ∷ [])
unfolding Stays
forward-Stays w h = (h, refl)

pub first-Stays : (w : World) → IsHeld w.controller → Stays (w, added before_unload ∷ [])
unfolding Stays
first-Stays w h = (h, refl)

pub complete-Stays :
    (page : Page) (force : Bool) (w : World)
    → IsHeld w.controller
    → Stays (complete_canceled_traversal page force w)
unfolding complete_canceled_traversal
complete-Stays page force w h =
    let begun : Outcome = (w, when force (replaced_base ∷ []) ++ restored_route ∷ []) in
    let shown : World → Outcome = λ v. if page.restore_throws then (v, []) else push_sentinel v in
    if-elim Stays (not w.controller.restoring_canceled_traversal) (w, [])
      (and_then (and_then begun shown) (finish_restoration page)) (λ e. quiet-Stays w h)
      (λ e.
        and_then-Stays (and_then begun shown) (finish_restoration page)
          (and_then-Stays begun shown (restoring-Stays force w h) (restored-Stays page))
          (finish_restoration-Stays page))

pop_guarded-Stays :
    (page : Page) (state : Json) (at_base : Bool) (w : World)
    → refused page ≡ true
    → IsHeld w.controller
    → Stays (pop_guarded page state at_base w)
unfolding pop_guarded IsHeld
pop_guarded-Stays page state at_base w r h =
    let left : World = with_controller w (record w.controller { sentinel_active = false }) in
    let restored : Outcome =
      if at_base then complete_canceled_traversal page false left else (w, went_forward ∷ []) in
    let guarded : Outcome = if at_base then leave_sentinel page w else leave_entry page state w in
    if-elim Stays w.controller.restoring_canceled_traversal restored guarded
      (λ e.
        if-elim Stays at_base (complete_canceled_traversal page false left) (w, went_forward ∷ [])
          (λ k. complete-Stays page false left h) (λ k. forward-Stays w h))
      (λ e.
        if-elim Stays at_base (leave_sentinel page w) (leave_entry page state w)
          (λ k. leave_sentinel-Stays page w r h) (λ k. leave_entry-Stays page state w r h))

pop_without_transition-Stays :
    (page : Page) (state : Json) (w : World)
    → refused page ≡ true
    → IsHeld w.controller
    → Stays (pop_without_transition page state w)
unfolding pop_without_transition
pop_without_transition-Stays page state w r h =
    let at_base : Bool =
      is_own_base_state state w.controller.controller_id && page.at_protected_href in
    if-elim Stays w.controller.handed_off (w, []) (pop_guarded page state at_base w)
      (λ e. quiet-Stays w h) (λ e. pop_guarded-Stays page state at_base w r h)

pub handle_pop_state-Stays :
    (page : Page) (state : Json) (w : World)
    → refused page ≡ true
    → IsHeld w.controller
    → Stays (handle_pop_state page state w)
unfolding handle_pop_state IsHeld
handle_pop_state-Stays page state w r (h, a, t, p) =
    let without : Outcome = pop_without_transition page state w in
    if-elim Stays (is_foreign w) (w, [])
      (finish_transition w.controller.pending_transition w without)
      (λ e. quiet-Stays w (h, a, t, p))
      (λ e.
        subst (λ o. Stays (finish_transition o w without)) (sym t)
          (pop_without_transition-Stays page state w r (h, a, t, p)))
