-- ===== src/Navigation/Ending.antt =====
-- How a canceled traversal of src/features/collaboration/client/navigation-controller.ts ends ends.
use coredot_editor.Prelude.{
  false-true, ◌≡◌, ◌≢◌, refl, sym, ◌∙◌, subst, Bool, true, false, not, List, [], ◌∷◌, ◌++◌, Option,
  some, Text, if◌then◌else◌, if-elim, arith,
}
use coredot_editor.Navigation.State.{
  World, Page, replaced_base, restored_route, Outcome, and_then, create_controller,
}
use coredot_editor.Navigation.Handlers.{
  push_sentinel, remove_installed_listeners, release_fallback_restoration, finish_restoration,
  complete_canceled_traversal, when,
}
use coredot_editor.Navigation.Events.{time_out, Event, times_out, handle, handle_all}
use coredot_editor.Navigation.Fairness.{IsFair, Fair, Fair-refl, Fair-trans}
use coredot_editor.Navigation.Restoration.{handle-Fair}

handle_all-Fair : (events : List (Page × Event)) (w : World) → Fair w (handle_all events w).0
unfolding handle_all
handle_all-Fair [] w = Fair-refl w
handle_all-Fair ((page, event) ∷ events) w =
    Fair-trans w (handle page event w).0 (handle_all events (handle page event w).0).0
      (handle-Fair page event w) (handle_all-Fair events (handle page event w).0)

remove-restoring :
    (page : Page) (w : World)
    → (remove_installed_listeners page w).0.controller.restoring_canceled_traversal
      ≡ w.controller.restoring_canceled_traversal
unfolding remove_installed_listeners
remove-restoring page w = ground arith

finish_restoration_ends :
    (page : Page) (w : World)
    → (finish_restoration page w).0.controller.restoring_canceled_traversal ≡ false
unfolding finish_restoration release_fallback_restoration
finish_restoration_ends page w =
    let v : World = release_fallback_restoration w in
    if-elim (λ (o : Outcome). o.0.controller.restoring_canceled_traversal ≡ false)
      v.controller.uninstall_requested (remove_installed_listeners page v) (v, [])
      (λ e. remove-restoring page v) (λ e. refl)

complete_ends :
    (page : Page) (force : Bool) (w : World)
    → (complete_canceled_traversal page force w).0.controller.restoring_canceled_traversal ≡ false
unfolding complete_canceled_traversal
complete_ends page force w =
    let begun : Outcome = (w, when force (replaced_base ∷ []) ++ restored_route ∷ []) in
    let shown : World → Outcome = λ v. if page.restore_throws then (v, []) else push_sentinel v in
    if-elim (λ (o : Outcome). o.0.controller.restoring_canceled_traversal ≡ false)
      (not w.controller.restoring_canceled_traversal) (w, [])
      (and_then (and_then begun shown) (finish_restoration page)) (λ e. ground arith)
      (λ e. finish_restoration_ends page (and_then begun shown).0)

time_out_ends :
    (page : Page) (w : World)
    → IsFair w
    → (time_out page w).0.controller.restoring_canceled_traversal ≡ false
unfolding time_out IsFair
time_out_ends page w (held, free, timed) =
    if-elim (λ (o : Outcome). o.0.controller.restoring_canceled_traversal ≡ false)
      w.controller.restoration_timeout (complete_canceled_traversal page true w) (w, [])
      (λ e. complete_ends page true w) (λ e. sym timed ∙ e)

start-IsFair :
    (id : Text) (owner : Option Text)
    → owner ≢ some id
    → IsFair (record { controller = create_controller id; owner = owner })
unfolding IsFair
start-IsFair id owner h = (λ e. absurd (false-true e), λ e. h, refl)

time_out-Fair : (page : Page) (w : World) → Fair w (time_out page w).0
unfolding handle
time_out-Fair page w = handle-Fair page times_out w

-- No restoration goes on for ever: whatever happened to a new controller, after its timer it is not
-- restoring and does not own the page's restoration, also where restoring the route throws or an
-- uninstall was asked for meanwhile. The controller's id is not the owner's when it is created.
pub time_out-handle_all :
    (id : Text) (owner : Option Text) (events : List (Page × Event)) (page : Page)
    → owner ≢ some id
    → ((time_out page
          (handle_all events (record { controller = create_controller id; owner = owner })).0
            ).0.controller.restoring_canceled_traversal
        ≡ false)
      × ((time_out page
            (handle_all events
              (record { controller = create_controller id; owner = owner })).0).0.owner
          ≢ some id)
unfolding Fair IsFair time_out
time_out-handle_all id owner events page h =
    let start : World = record { controller = create_controller id; owner = owner } in
    let w : World = (handle_all events start).0 in
    let (same, fair, _) = handle_all-Fair events start in
    let (same', fair', _) = time_out-Fair page w in
    let (_, free, _) = fair' (fair (start-IsFair id owner h)) in
    let over : (time_out page w).0.controller.restoring_canceled_traversal ≡ false =
      time_out_ends page w (fair (start-IsFair id owner h)) in
    (over, subst (λ i. (time_out page w).0.owner ≢ some i) (same' ∙ same) (free over))
