-- ===== src/Navigation/Restoration.antt =====
-- Several controllers of src/features/collaboration/client/navigation-controller.ts, which share the one
-- restoration of a page.
use coredot_editor.Prelude.{
  ℕ, zero, suc, ◌≤◌, map, ◌≡◌, ◌≢◌, refl, sym, ◌∙◌, subst, Bool, true, List, [], ◌∷◌, Option, none,
  some, Text, if◌then◌else◌, if-elim, arith,
}
use coredot_editor.Navigation.State.{Controller, World, Page, Outcome, create_controller}
use coredot_editor.Navigation.Handlers.{
  handle_before_unload, handle_navigate, handle_navigation_settled, complete_canceled_traversal,
  handle_pop_state,
}
use coredot_editor.Navigation.Events.{
  request, continue_at, install, uninstall_at, abort, time_out, Event, installs, uninstalls,
  requests, continues, unloads, navigates, settles, aborts, pops, times_out, handle,
}
use coredot_editor.Navigation.Fairness.{
  IsFair, Spares, Fair, Same, Fair-refl, Same-Fair, if-Fair, request-Same, continue_at-Same,
  uninstall_at-Same, abort-Same, unload-Same, install-Same, navigate-Same, complete-Fair,
  handle_pop_state-Fair, owner-eq,
}

settle-Same : (w : World) → Same w (handle_navigation_settled w).0
unfolding Same
settle-Same w = (refl, refl, refl, refl)

heard-Fair :
    (w : World) (listens : Bool) (o : Outcome)
    → Fair w o.0
    → Fair w (if listens then o else (w, [])).0
heard-Fair w listens o f = if-Fair w listens o (w, []) (λ e. f) (λ e. Fair-refl w)

pub handle-Fair : (page : Page) (event : Event) (w : World) → Fair w (handle page event w).0
unfolding handle time_out
handle-Fair page installs w = Same-Fair w (install page w).0 (install-Same page w)
handle-Fair page (uninstalls place) w =
    Same-Fair w (uninstall_at page place w).0 (uninstall_at-Same page place w)
handle-Fair page requests w = Same-Fair w (request page w).0 (request-Same page w)
handle-Fair page (continues place transition) w =
    Same-Fair w (continue_at place transition w).0 (continue_at-Same place transition w)
handle-Fair page unloads w =
    heard-Fair w w.controller.before_unload_listener_installed (handle_before_unload page w)
      (Same-Fair w (handle_before_unload page w).0 (unload-Same page w))
handle-Fair page (navigates event) w =
    heard-Fair w w.controller.navigate_listener_installed (handle_navigate page event w)
      (Same-Fair w (handle_navigate page event w).0 (navigate-Same page event w))
handle-Fair page settles w =
    heard-Fair w w.controller.navigate_listener_installed (handle_navigation_settled w)
      (Same-Fair w (handle_navigation_settled w).0 (settle-Same w))
handle-Fair page (aborts signal) w = Same-Fair w (abort signal w).0 (abort-Same signal w)
handle-Fair page (pops state) w =
    heard-Fair w w.controller.pop_state_listener_installed (handle_pop_state page state w)
      (handle_pop_state-Fair page state w)
handle-Fair page times_out w =
    heard-Fair w w.controller.restoration_timeout (complete_canceled_traversal page true w)
      (complete-Fair page true w)

-- The controllers of a page, and the owner that they share.
abbrev pub System : Type 0
System = List Controller × Option Text

-- An event at one of the controllers.
unfoldable pub handle_at : ℕ → Page → Event → List Controller → Option Text → System
handle_at n page event [] owner = ([], owner)
handle_at zero page event (c ∷ cs) owner =
    let v = (handle page event (record { controller = c; owner = owner })).0 in
    (v.controller ∷ cs, v.owner)
handle_at (suc n) page event (c ∷ cs) owner =
    let (ds, next) = handle_at n page event cs owner in (c ∷ ds, next)

-- No controller has this id.
unfoldable pub Lacks : Text → List Controller → Type 0
Lacks id [] = Unit
Lacks id (c ∷ cs) = (c.controller_id ≢ id) × Lacks id cs

-- The ids are distinct, as `createCollaborationNavigationController` counts them.
unfoldable pub HasDistinctIds : List Controller → Type 0
HasDistinctIds [] = Unit
HasDistinctIds (c ∷ cs) = Lacks c.controller_id cs × HasDistinctIds cs

unfoldable pub AreFair : List Controller → Option Text → Type 0
AreFair [] owner = Unit
AreFair (c ∷ cs) owner = IsFair (record { controller = c; owner = owner }) × AreFair cs owner

handle_id :
    (page : Page) (event : Event) (w : World)
    → ((handle page event w).0.controller.controller_id ≡ w.controller.controller_id)
      × (IsFair w → IsFair (handle page event w).0)
      × Spares w (handle page event w).0
unfolding Fair
handle_id page event w = handle-Fair page event w

handle_at-Lacks :
    (id : Text) (n : ℕ) (page : Page) (event : Event) (cs : List Controller) (owner : Option Text)
    → Lacks id cs
    → Lacks id (handle_at n page event cs owner).0
unfolding handle_at Lacks
handle_at-Lacks id n page event [] owner h = tt
handle_at-Lacks id zero page event (c ∷ cs) owner (h, hs) =
    let (same, _, _) = handle_id page event (record { controller = c; owner = owner }) in
    (λ e. h (sym same ∙ e), hs)
handle_at-Lacks id (suc n) page event (c ∷ cs) owner (h, hs) =
    (h, handle_at-Lacks id n page event cs owner hs)

handle_at-HasDistinctIds :
    (n : ℕ) (page : Page) (event : Event) (cs : List Controller) (owner : Option Text)
    → HasDistinctIds cs
    → HasDistinctIds (handle_at n page event cs owner).0
unfolding handle_at HasDistinctIds
handle_at-HasDistinctIds n page event [] owner h = tt
handle_at-HasDistinctIds zero page event (c ∷ cs) owner (h, hs) =
    let (same, _, _) = handle_id page event (record { controller = c; owner = owner }) in
    (subst (λ i. Lacks i cs) (sym same) h, hs)
handle_at-HasDistinctIds (suc n) page event (c ∷ cs) owner (h, hs) = (
  handle_at-Lacks c.controller_id n page event cs owner h,
  handle_at-HasDistinctIds n page event cs owner hs,
)

-- What an event does to the ownership of an id that is none of the controllers'.
handle_at-owner :
    (j : Text) (n : ℕ) (page : Page) (event : Event) (cs : List Controller) (owner : Option Text)
    → Lacks j cs
    → (owner ≡ some j → (handle_at n page event cs owner).1 ≡ some j)
      × ((handle_at n page event cs owner).1 ≡ some j → owner ≡ some j)
unfolding handle_at Lacks Spares
handle_at-owner j n page event [] owner h = (λ e. e, λ e. e)
handle_at-owner j zero page event (c ∷ cs) owner (h, hs) =
    let (_, _, spares) = handle_id page event (record { controller = c; owner = owner }) in
    spares j (λ e. h (sym e))
handle_at-owner j (suc n) page event (c ∷ cs) owner (h, hs) =
    handle_at-owner j n page event cs owner hs

moved-IsFair :
    (c : Controller) (owner next : Option Text)
    → (owner ≡ some c.controller_id → next ≡ some c.controller_id)
    → (next ≡ some c.controller_id → owner ≡ some c.controller_id)
    → IsFair (record { controller = c; owner = owner })
    → IsFair (record { controller = c; owner = next })
unfolding IsFair
moved-IsFair c owner next there before (held, free, timed) =
    (λ e. there (held e), λ e k. free e (before k), timed)

moved-AreFair :
    (id : Text) (cs : List Controller) (owner next : Option Text)
    → ((j : Text) → j ≢ id → (owner ≡ some j → next ≡ some j) × (next ≡ some j → owner ≡ some j))
    → Lacks id cs
    → AreFair cs owner
    → AreFair cs next
unfolding AreFair Lacks
moved-AreFair id [] owner next spares h f = tt
moved-AreFair id (c ∷ cs) owner next spares (h, hs) (f, fs) =
    let (there, before) = spares c.controller_id h in
    (moved-IsFair c owner next there before f, moved-AreFair id cs owner next spares hs fs)

handle_at-AreFair :
    (n : ℕ) (page : Page) (event : Event) (cs : List Controller) (owner : Option Text)
    → HasDistinctIds cs
    → AreFair cs owner
    → AreFair (handle_at n page event cs owner).0 (handle_at n page event cs owner).1
unfolding handle_at HasDistinctIds AreFair Spares
handle_at-AreFair n page event [] owner h f = tt
handle_at-AreFair zero page event (c ∷ cs) owner (h, hs) (f, fs) =
    let w : World = record { controller = c; owner = owner } in
    let (same, fair, spares) = handle_id page event w in
    (fair f, moved-AreFair c.controller_id cs owner (handle page event w).0.owner spares h fs)
handle_at-AreFair (suc n) page event (c ∷ cs) owner (h, hs) (f, fs) =
    let (there, before) = handle_at-owner c.controller_id n page event cs owner h in
    (
      moved-IsFair c owner (handle_at n page event cs owner).1 there before f,
      handle_at-AreFair n page event cs owner hs fs,
    )

-- Events at the controllers, one after the other.
unfoldable pub run_system : List (ℕ × Page × Event) → System → System
run_system [] system = system
run_system ((n, page, event) ∷ events) (cs, owner) =
    run_system events (handle_at n page event cs owner)

run_system-AreFair :
    (events : List (ℕ × Page × Event)) (cs : List Controller) (owner : Option Text)
    → HasDistinctIds cs
    → AreFair cs owner
    → HasDistinctIds (run_system events (cs, owner)).0
      × AreFair (run_system events (cs, owner)).0 (run_system events (cs, owner)).1
unfolding run_system
run_system-AreFair [] cs owner h f = (h, f)
run_system-AreFair ((n, page, event) ∷ events) cs owner h f =
    run_system-AreFair events (handle_at n page event cs owner).0
      (handle_at n page event cs owner).1 (handle_at-HasDistinctIds n page event cs owner h)
      (handle_at-AreFair n page event cs owner h f)

-- How many controllers are restoring.
unfoldable pub restoring_count : List Controller → ℕ
restoring_count [] = 0
restoring_count (c ∷ cs) =
    let rest = restoring_count cs in if c.restoring_canceled_traversal then suc rest else rest

none_else :
    (id : Text) (cs : List Controller) (owner : Option Text)
    → owner ≡ some id
    → Lacks id cs
    → AreFair cs owner
    → restoring_count cs ≡ 0
unfolding restoring_count AreFair Lacks IsFair
none_else id [] owner e h f = refl
none_else id (c ∷ cs) owner e (h, hs) ((held, _, _), fs) =
    if-elim (λ k. k ≡ 0) c.restoring_canceled_traversal (suc (restoring_count cs))
      (restoring_count cs) (λ k. absurd (h (owner-eq (sym (held k) ∙ e))))
      (λ k. none_else id cs owner e hs fs)

restoring_count-le :
    (cs : List Controller) (owner : Option Text)
    → HasDistinctIds cs
    → AreFair cs owner
    → restoring_count cs ≤ 1
unfolding restoring_count HasDistinctIds AreFair IsFair
restoring_count-le [] owner h f = omega arith
restoring_count-le (c ∷ cs) owner (h, hs) ((held, free, timed), fs) =
    if-elim (λ k. k ≤ 1) c.restoring_canceled_traversal (suc (restoring_count cs))
      (restoring_count cs) (λ k. omega (arith, none_else c.controller_id cs owner (held k) h fs))
      (λ k. restoring_count-le cs owner hs fs)

start-AreFair : (ids : List Text) → AreFair (map create_controller ids) none
unfolding AreFair IsFair
start-AreFair [] = tt
start-AreFair (id ∷ ids) = ((λ e. cc, λ e k. cc, refl), start-AreFair ids)

-- However many controllers share a page, and whatever happens to them in whatever order, at most one of
-- them is restoring a canceled traversal at a time, as long as their ids are distinct.
pub restoring_count-run_system :
    (ids : List Text) (events : List (ℕ × Page × Event))
    → HasDistinctIds (map create_controller ids)
    → restoring_count (run_system events (map create_controller ids, none)).0 ≤ 1
restoring_count-run_system ids events h =
    let (distinct, fair) =
      run_system-AreFair events (map create_controller ids) none h (start-AreFair ids) in
    restoring_count-le (run_system events (map create_controller ids, none)).0
      (run_system events (map create_controller ids, none)).1 distinct fair
