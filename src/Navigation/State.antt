-- ===== src/Navigation/State.antt =====
-- The variables of `createCollaborationNavigationController` in
-- src/features/collaboration/client/navigation-controller.ts, and what it does to the page.
use coredot_editor.Prelude.{
  ℕ, Bool, false, ◌&&◌, List, [], ◌++◌, Option, none, some, Text, Text-discrete, codes, holds,
  if◌then◌else◌,
}
use coredot_editor.Awareness.Values.{Json, str, obj, Fields, end, field, property}
use coredot_editor.Session.View.{Snapshot}

-- A transition of the caller, or the way back that the controller makes up itself.
pub data Transition : Type 0 where
  of_caller : ℕ → Transition
  back : Transition

pub record Controller : Type 0 where
  pub controller_id : Text
  pub handed_off : Bool
  pub installed : Bool
  pub before_unload_listener_installed : Bool
  pub navigate_listener_installed : Bool
  -- the signal of the navigation that was approved, where it has one
  pub approved_document_navigation : Option (Option ℕ)
  pub pop_state_listener_installed : Bool
  pub pending_transition : Option Transition
  pub restoring_canceled_traversal : Bool
  pub restoration_timeout : Bool
  pub sentinel_active : Bool
  pub uninstall_requested : Bool
  -- for each permit given, whether it has continued
  pub permits : List Bool
  -- for each function that `install` gave, whether it was called
  pub uninstalls : List Bool

abbrev pub create_controller : Text → Controller
create_controller id = record {
  controller_id = id;
  handed_off = false;
  installed = false;
  before_unload_listener_installed = false;
  navigate_listener_installed = false;
  approved_document_navigation = none;
  pop_state_listener_installed = false;
  pending_transition = none;
  restoring_canceled_traversal = false;
  restoration_timeout = false;
  sentinel_active = false;
  uninstall_requested = false;
  permits = [];
  uninstalls = [];
}

-- The controller, and activeFallbackRestorationOwner, which all controllers share.
pub record World : Type 0 where
  pub controller : Controller
  pub owner : Option Text

-- What the page answers while an event is handled.
pub record Page : Type 0 where
  pub snapshot : Snapshot
  -- environment.confirm
  pub confirms : Bool
  -- environment.href === protectedHref
  pub at_protected_href : Bool
  -- environment.navigation
  pub has_navigation : Bool
  -- onRestoreProtectedRoute throws
  pub restore_throws : Bool

pub data Listener : Type 0 where
  before_unload pop_state navigate navigate_error navigate_success : Listener

-- What is done to the page.
pub data Effect : Type 0 where
  -- confirm(getMessage())
  asked : Effect
  -- event.preventDefault()
  prevented : Effect
  -- onHandoff: without a target, or with the current href and the state of the entry
  handed_over : Effect
  handed_over_at : Json → Effect
  went_back went_forward : Effect
  -- history.pushState(sentinelState), history.replaceState(baseState)
  pushed_sentinel replaced_base : Effect
  -- onRestoreProtectedRoute(protectedHref)
  restored_route : Effect
  -- a transition of the caller
  ran : ℕ → Effect
  added removed : Listener → Effect

abbrev pub Outcome : Type 0
Outcome = World × List Effect

-- One part of a handler after another.
abbrev pub and_then : Outcome → (World → Outcome) → Outcome
and_then (w, done) next = ((next w).0, done ++ (next w).1)

abbrev pub with_controller : World → Controller → World
with_controller w c = record w { controller = c }

-- NAVIGATION_STATE_KEY
abbrev pub navigation_state_key : Text
navigation_state_key = codes "__coredotCollaborationNavigation"

pub data Kind : Type 0 where
  base sentinel : Kind

abbrev pub kind_name : Kind → Text
kind_name base = codes "base"
kind_name sentinel = codes "sentinel"

-- `{ ...fields, [name]: value }`
unfoldable pub with_property : Text → Json → Fields → Fields
with_property name value end = field name value end
with_property name value (field n v fields) =
    let rest = with_property name value fields in
    if holds (Text-discrete n name) then field n value fields else field n v rest

abbrev pub fields_of : Json → Fields
fields_of (obj fields) = fields
fields_of _ = end

-- withNavigationState
unfoldable pub with_navigation_state : Json → Text → Kind → Json
with_navigation_state current controller_id kind = obj (
    with_property navigation_state_key
      (obj (
        field (codes "controllerId") (str controller_id)
          (field (codes "kind") (str (kind_name kind)) end)))
      (fields_of current))

abbrev pub is_str : Option Json → Text → Bool
is_str (some (str s)) t = holds (Text-discrete s t)
is_str _ t = false

abbrev pub is_base_of : Option Json → Text → Bool
is_base_of (some (obj fields)) controller_id =
    is_str (property (codes "controllerId") fields) controller_id
    && is_str (property (codes "kind") fields) (codes "base")
is_base_of _ controller_id = false

-- isOwnBaseState
unfoldable pub is_own_base_state : Json → Text → Bool
is_own_base_state (obj fields) controller_id =
    is_base_of (property navigation_state_key fields) controller_id
is_own_base_state _ controller_id = false
