-- ===== src/Navigation/Fairness.antt =====
-- The restoration of a canceled traversal in
-- src/features/collaboration/client/navigation-controller.ts: which controller has it, handler by handler.
use coredot_editor.Prelude.{
  false-true, ℕ, ◌≡◌, ◌≢◌, refl, sym, ◌∙◌, subst, Bool, true, false, not, ◌&&◌, [], ◌∷◌, ◌++◌,
  Option, none, some, Text, if◌then◌else◌, if-elim, arith,
}
use coredot_editor.Awareness.Values.{Json}
use coredot_editor.Navigation.State.{
  Transition, World, Page, asked, went_forward, replaced_base, restored_route, Outcome, and_then,
  with_controller, is_own_base_state,
}
use coredot_editor.Navigation.Handlers.{
  refused, question, is_other, released, is_foreign, continue_permit, request_transition,
  push_sentinel, handle_before_unload, approve_foreign_target, NavigateEvent, handle_navigate,
  remove_installed_listeners, release_fallback_restoration, finish_restoration,
  complete_canceled_traversal, start_canceled_traversal_restoration, leave_entry, leave_sentinel,
  pop_guarded, pop_without_transition, finish_transition, handle_pop_state, when,
}
use coredot_editor.Navigation.Events.{
  request, continue_at, install_fallback, install_navigation, install, uninstall_at, abort,
}

-- A controller has the restoration, which the page has one of, just while it is restoring, and then its
-- timer runs.
unfoldable pub IsFair : World → Type 0
IsFair w =
    (w.controller.restoring_canceled_traversal ≡ true → w.owner ≡ some w.controller.controller_id)
    × (w.controller.restoring_canceled_traversal ≡ false
        → w.owner ≢ some w.controller.controller_id)
    × (w.controller.restoration_timeout ≡ w.controller.restoring_canceled_traversal)

-- Another controller has the restoration afterwards where it had it before.
unfoldable pub Spares : World → World → Type 0
Spares w v =
    (j : Text)
    → j ≢ w.controller.controller_id
    → (w.owner ≡ some j → v.owner ≡ some j) × (v.owner ≡ some j → w.owner ≡ some j)

-- What a handler does to the restoration.
unfoldable pub Fair : World → World → Type 0
Fair w v =
    (v.controller.controller_id ≡ w.controller.controller_id) × (IsFair w → IsFair v) × Spares w v

pub Fair-refl : (w : World) → Fair w w
unfolding Fair Spares
Fair-refl w = (refl, λ f. f, λ j h. (λ e. e, λ e. e))

pub Fair-trans : (u w v : World) → Fair u w → Fair w v → Fair u v
unfolding Fair Spares
Fair-trans u w v (a, f, s) (b, g, t) = (
  b ∙ a,
  λ x. g (f x),
  λ j h.
      let k : j ≢ w.controller.controller_id = subst (λ i. j ≢ i) (sym a) h in
      (λ e. (t j k).0 ((s j h).0 e), λ e. (s j h).1 ((t j k).1 e)),
)

-- A handler that leaves these fields alone.
unfoldable pub Same : World → World → Type 0
Same w v =
    (v.controller.controller_id ≡ w.controller.controller_id)
    × (v.controller.restoring_canceled_traversal ≡ w.controller.restoring_canceled_traversal)
    × (v.controller.restoration_timeout ≡ w.controller.restoration_timeout)
    × (v.owner ≡ w.owner)

pub Same-Fair : (w v : World) → Same w v → Fair w v
unfolding Fair Spares IsFair Same
Same-Fair w v (a, b, c, d) = (a, λ f. ground arith, λ j h. (λ e. d ∙ e, λ e. sym d ∙ e))

and_then-Fair :
    (w : World) (o : Outcome) (next : World → Outcome)
    → Fair w o.0
    → ((v : World) → Fair v (next v).0)
    → Fair w (and_then o next).0
and_then-Fair w (v, done) next f go = Fair-trans w v (next v).0 f (go v)

released-own : (id : Text) (o : Option Text) → released id o ≢ some id
unfolding released
released-own id none e = cc
released-own id (some j) e = ground arith

released-kept : (id j : Text) (o : Option Text) → j ≢ id → o ≡ some j → released id o ≡ some j
unfolding released
released-kept id j none h e = cc
released-kept id j (some k) h e = ground arith

released-before : (id j : Text) (o : Option Text) → released id o ≡ some j → o ≡ some j
unfolding released
released-before id j none e = cc
released-before id j (some k) e = ground arith

is_other-own : (id j : Text) (o : Option Text) → is_other id o ≡ false → o ≡ some j → j ≡ id
unfolding is_other
is_other-own id j none h e = cc
is_other-own id j (some k) h e = ground arith

release-Fair : (w : World) → Fair w (release_fallback_restoration w)
unfolding Fair Spares IsFair release_fallback_restoration
release-Fair w =
    let id : Text = w.controller.controller_id in
    (
      refl,
      λ f. (λ e. absurd (false-true e), λ e. released-own id w.owner, refl),
      λ j h. (released-kept id j w.owner h, released-before id j w.owner),
    )

pub owner-eq : {i j : Text} → some i ≡ some j → i ≡ j
owner-eq e = cc

start-Fair : (w : World) → is_foreign w ≡ false → Fair w (start_canceled_traversal_restoration w)
unfolding Fair Spares IsFair start_canceled_traversal_restoration
start-Fair w f = (
  refl,
  λ g. (λ e. refl, λ e. absurd (false-true (sym e)), refl),
  λ j h. (
    λ e. absurd (h (is_other-own w.controller.controller_id j w.owner f e)),
    λ e. absurd (h (sym (owner-eq e))),
  ),
)

pub if-Fair :
    (w : World) (b : Bool) (x y : Outcome)
    → (b ≡ true → Fair w x.0)
    → (b ≡ false → Fair w y.0)
    → Fair w (if b then x else y).0
if-Fair w b x y h k = if-elim (λ o. Fair w o.0) b x y h k

remove-Same : (page : Page) (w : World) → Same w (remove_installed_listeners page w).0
unfolding remove_installed_listeners Same
remove-Same page w = ground arith

remove-Fair : (page : Page) (w : World) → Fair w (remove_installed_listeners page w).0
remove-Fair page w = Same-Fair w (remove_installed_listeners page w).0 (remove-Same page w)

push_sentinel-Fair : (w : World) → Fair w (push_sentinel w).0
unfolding push_sentinel Same
push_sentinel-Fair w = Same-Fair w (push_sentinel w).0 (refl, refl, refl, refl)

continue_permit-Same : (t : Transition) (w : World) → Same w (continue_permit t w).0
unfolding continue_permit Same
continue_permit-Same t w = ground arith

pub navigate-Same :
    (page : Page) (event : NavigateEvent) (w : World) → Same w (handle_navigate page event w).0
unfolding handle_navigate Same
navigate-Same page event w = ground arith

leave_sentinel-Same : (page : Page) (w : World) → Same w (leave_sentinel page w).0
unfolding leave_sentinel request_transition continue_permit push_sentinel Same
leave_sentinel-Same page w = ground arith

pub request-Same : (page : Page) (w : World) → Same w (request page w).0
unfolding request request_transition Same
request-Same page w = ground arith

pub continue_at-Same :
    (place transition : ℕ) (w : World) → Same w (continue_at place transition w).0
unfolding continue_at continue_permit Same
continue_at-Same place transition w = ground arith

pub uninstall_at-Same : (page : Page) (place : ℕ) (w : World) → Same w (uninstall_at page place w).0
unfolding uninstall_at remove_installed_listeners Same
uninstall_at-Same page place w = ground arith

pub abort-Same : (signal : ℕ) (w : World) → Same w (abort signal w).0
unfolding abort Same
abort-Same signal w = ground arith

pub unload-Same : (page : Page) (w : World) → Same w (handle_before_unload page w).0
unfolding handle_before_unload Same
unload-Same page w = ground arith

install_fallback-Same : (w : World) → Same w (install_fallback w).0
unfolding install_fallback push_sentinel Same
install_fallback-Same w = ground arith

pub install-Same : (page : Page) (w : World) → Same w (install page w).0
unfolding install install_navigation install_fallback push_sentinel Same
install-Same page w = ground arith

leave_entry-Fair :
    (page : Page) (state : Json) (w : World)
    → is_foreign w ≡ false
    → Fair w (leave_entry page state w).0
unfolding leave_entry approve_foreign_target Same
leave_entry-Fair page state w f =
    let left : World = with_controller w (record w.controller { sentinel_active = false }) in
    if-Fair w (refused page) (start_canceled_traversal_restoration left, asked ∷ went_forward ∷ [])
      (and_then (w, question page) (approve_foreign_target state))
      (λ e.
        Fair-trans w left (start_canceled_traversal_restoration left)
          (Same-Fair w left (refl, refl, refl, refl)) (start-Fair left f))
      (λ e. Same-Fair w (approve_foreign_target state w).0 (refl, refl, refl, refl))

finish_restoration-Fair : (page : Page) (w : World) → Fair w (finish_restoration page w).0
unfolding finish_restoration
finish_restoration-Fair page w =
    let v : World = release_fallback_restoration w in
    Fair-trans w v (finish_restoration page w).0 (release-Fair w) (
      if-Fair v v.controller.uninstall_requested (remove_installed_listeners page v) (v, [])
        (λ e. remove-Fair page v) (λ e. Fair-refl v))

pub complete-Fair :
    (page : Page) (force : Bool) (w : World) → Fair w (complete_canceled_traversal page force w).0
unfolding complete_canceled_traversal
complete-Fair page force w =
    let begun : Outcome = (w, when force (replaced_base ∷ []) ++ restored_route ∷ []) in
    let shown : World → Outcome = λ v. if page.restore_throws then (v, []) else push_sentinel v in
    if-Fair w (not w.controller.restoring_canceled_traversal) (w, [])
      (and_then (and_then begun shown) (finish_restoration page)) (λ e. Fair-refl w)
      (λ e.
        and_then-Fair w (and_then begun shown) (finish_restoration page)
          (if-Fair w page.restore_throws (w, []) (push_sentinel w) (λ k. Fair-refl w)
            (λ k. push_sentinel-Fair w))
          (finish_restoration-Fair page))

pop_guarded-Fair :
    (page : Page) (state : Json) (at_base : Bool) (w : World)
    → is_foreign w ≡ false
    → Fair w (pop_guarded page state at_base w).0
unfolding pop_guarded Same
pop_guarded-Fair page state at_base w f =
    let left : World = with_controller w (record w.controller { sentinel_active = false }) in
    let restored : Outcome =
      if at_base then complete_canceled_traversal page false left else (w, went_forward ∷ []) in
    let guarded : Outcome = if at_base then leave_sentinel page w else leave_entry page state w in
    if-Fair w w.controller.restoring_canceled_traversal restored guarded
      (λ e.
        if-Fair w at_base (complete_canceled_traversal page false left) (w, went_forward ∷ [])
          (λ k.
            Fair-trans w left (complete_canceled_traversal page false left).0
              (Same-Fair w left (refl, refl, refl, refl)) (complete-Fair page false left))
          (λ k. Fair-refl w))
      (λ e.
        if-Fair w at_base (leave_sentinel page w) (leave_entry page state w)
          (λ k. Same-Fair w (leave_sentinel page w).0 (leave_sentinel-Same page w))
          (λ k. leave_entry-Fair page state w f))

finish_transition-Fair :
    (o : Option Transition) (w : World) (without : Outcome)
    → Fair w without.0
    → Fair w (finish_transition o w without).0
unfolding Same
finish_transition-Fair none w without h = h
finish_transition-Fair (some t) w without h =
    Same-Fair w (finish_transition (some t) w without).0 (refl, refl, refl, refl)

pub handle_pop_state-Fair :
    (page : Page) (state : Json) (w : World) → Fair w (handle_pop_state page state w).0
unfolding handle_pop_state pop_without_transition
handle_pop_state-Fair page state w =
    let at_base : Bool =
      is_own_base_state state w.controller.controller_id && page.at_protected_href in
    let without : Outcome = pop_without_transition page state w in
    if-Fair w (is_foreign w) (w, []) (finish_transition w.controller.pending_transition w without)
      (λ e. Fair-refl w)
      (λ e. finish_transition-Fair w.controller.pending_transition w without (
        if-Fair w w.controller.handed_off (w, []) (pop_guarded page state at_base w)
          (λ k. Fair-refl w) (λ k. pop_guarded-Fair page state at_base w e)))
