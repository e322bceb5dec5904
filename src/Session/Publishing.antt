-- ===== src/Session/Publishing.antt =====
-- When src/features/collaboration/client/session-store.ts publishes, and what it publishes.
use coredot_editor.Prelude.{
  ℕ, suc, ◌+◌, length, Bool, false, ap, subst, ◌≡◌, ◌≢◌, refl, ◌⊎◌, inl, inr, true, List, [], ◌∷◌,
  ◌++◌, Option, none, some, arith, Bool-cases, All,
}
use coredot_editor.Prelude.Result.{Result, ok, err, Result-cases}
use coredot_editor.Session.View.{State, Snapshot, create_snapshot, snapshots_equal}
use coredot_editor.Session.{
  Store, Listener, called, loop_throws, listener_throws, create_store, publish, SessionError, Call,
  effect, call, after_call, calls,
}

snapshots_equal-eq : (a b : Snapshot) → snapshots_equal a b ≡ true → a ≡ b
unfolding snapshots_equal
snapshots_equal-eq a b h = ground arith

snapshots_equal_refl : (a : Snapshot) → snapshots_equal a a ≡ true
unfolding snapshots_equal
snapshots_equal_refl a = ground arith

-- The published snapshot is that of the state.
abbrev pub IsCurrent : Store → Type 0
IsCurrent t = t.snapshot ≡ create_snapshot t.state

publish-IsCurrent : (t : Store) (s : State) → IsCurrent (publish t s)
unfolding publish
publish-IsCurrent t s = elim (Bool-cases (snapshots_equal t.snapshot (create_snapshot s))) [
  | inl e ↦ rw e (snapshots_equal-eq _ _ e)
  | inr e ↦ rw e refl
]

call-IsCurrent : (t : Store) (c : Call) → IsCurrent t → IsCurrent (after_call t (call t c))
unfolding call
call-IsCurrent t c v = elim (Result-cases (effect t.state c)) [
  | inl (x, e) ↦ rw e v
  | inr (none, e) ↦ rw e v
  | inr (some s, e) ↦ rw e (publish-IsCurrent t s)
]

calls-IsCurrent : (t : Store) (cs : List Call) → IsCurrent t → IsCurrent (calls t cs)
unfolding calls
calls-IsCurrent t [] v = v
calls-IsCurrent t (c ∷ cs) v = calls-IsCurrent (after_call t (call t c)) cs (call-IsCurrent t c v)

-- After any sequence of calls the published snapshot is the one that the state determines, though it
-- is only replaced when a field differs.
pub calls_create-IsCurrent : (cs : List Call) → IsCurrent (calls create_store cs)
unfolding create_store
calls_create-IsCurrent cs = calls-IsCurrent create_store cs refl

-- None of the listeners throws, the first of them being the call with a number.
unfoldable pub AreQuiet : ℕ → List Listener → Type 0
AreQuiet n [] = Unit
AreQuiet n (l ∷ ls) = (l.throws n ≡ false) × AreQuiet (suc n) ls

-- The listeners that are called, from a number on, and whether one throws: all of them, of which none
-- throws, or those up to the first that throws.
unfoldable pub AreCalled : ℕ → List Listener → List Listener → Bool → Type 0
AreCalled n listeners those thrown =
    ((those ≡ listeners) × AreQuiet n listeners × (thrown ≡ false))
    ⊎ ((before : List Listener) × (l : Listener) × (after_ : List Listener) × (listeners
          ≡ before ++ l ∷ after_)
        × (those ≡ before ++ l ∷ [])
        × AreQuiet n before
        × (l.throws (length before + n) ≡ true)
        × (thrown ≡ true))

called-AreCalled : (n : ℕ) (ls : List Listener) → AreCalled n ls (called n ls) (loop_throws n ls)
unfolding AreCalled AreQuiet called loop_throws
called-AreCalled n [] = inl (refl, tt, refl)
called-AreCalled n (l ∷ ls) = elim (Bool-cases (l.throws n)) [
  | inl e ↦ inr (
    [],
    l,
    ls,
    refl,
    (rw (e, called) refl),
    tt,
    subst (λ k. l.throws k ≡ true) (omega arith) e,
    (rw (e, loop_throws) refl),
  )
  | inr e ↦ elim (called-AreCalled (suc n) ls) [
    | inl (same, quiet, silent) ↦
        inl (rw (e, called) (ap (◌∷◌ l) same), (e, quiet), rw (e, loop_throws) silent)
    | inr (before, k, after_, whole, those, quiet, loud, thrown) ↦ inr (
      l ∷ before,
      k,
      after_,
      ap (◌∷◌ l) whole,
      (rw (e, called) (ap (◌∷◌ l) those)),
      (e, quiet),
      subst (λ i. k.throws i ≡ true) (omega arith) loud,
      (rw (e, loop_throws) thrown),
    )
  ]
]

-- A call either leaves the snapshot as it was and calls no listener, or it changes the snapshot and
-- calls the listeners once each, in the order of their subscription: all of them, or where one throws
-- those up to it. The call throws the error of a listener exactly in that case. The listeners do not
-- call the store themselves.
pub call_notifies :
    (t : Store) (c : Call)
    → let u = after_call t (call t c) in
      ((u.snapshot ≡ t.snapshot) × (u.deliveries ≡ t.deliveries) × (listener_throws t c ≡ false))
      ⊎ ((u.snapshot ≢ t.snapshot)
          × ((those : List Listener) × (u.deliveries ≡ t.deliveries ++ those)
              × AreCalled (length t.deliveries) t.listeners those (listener_throws t c)))
unfolding call publish listener_throws
call_notifies t c = elim (Result-cases (effect t.state c)) [
  | inl (x, e) ↦ rw (e, listener_throws) (inl (refl, refl, refl))
  | inr (none, e) ↦ rw (e, listener_throws) (inl (refl, refl, refl))
  | inr (some s, e) ↦ elim (Bool-cases (snapshots_equal t.snapshot (create_snapshot s))) [
    | inl k ↦ rw (e, k, listener_throws) (inl (refl, refl, refl))
    | inr k ↦
        rw (e, k, listener_throws)
          (inr (
            λ same. cc (snapshots_equal_refl t.snapshot),
            (
              called (length t.deliveries) t.listeners,
              refl,
              called-AreCalled (length t.deliveries) t.listeners,
            ),
          ))
  ]
]

pub calls-append : (t : Store) (cs ds : List Call) → calls t (cs ++ ds) ≡ calls (calls t cs) ds
unfolding calls
calls-append t [] ds = refl
calls-append t (c ∷ cs) ds = calls-append (after_call t (call t c)) cs ds

-- The state that a call leaves.
abbrev pub state_of : State → Result SessionError (Option State) → State
state_of s (ok (some s')) = s'
state_of s (ok none) = s
state_of s (err e) = s

pub call-state :
    (t : Store) (c : Call) → (after_call t (call t c)).state ≡ state_of t.state (effect t.state c)
unfolding call publish
call-state t c = ground (arith, snapshots_equal t.snapshot)

-- What the writes of some calls keep holds after any sequence of those calls.
module _ (P : State → Type 0) (Q : Call → Type 0)
    (keep : (s s' : State) (c : Call) → Q c → P s → effect s c ≡ ok (some s') → P s') where
  call_keeps : (t : Store) (c : Call) → Q c → P t.state → P (after_call t (call t c)).state
  unfolding call publish
  call_keeps t c q p = elim (Result-cases (effect t.state c)) [
    | inl (x, e) ↦ rw e p
    | inr (none, e) ↦ rw e p
    | inr (some s, e) ↦ elim (Bool-cases (snapshots_equal t.snapshot (create_snapshot s))) [
      | inl f ↦ rw (e, f) (keep t.state s c q p e)
      | inr f ↦ rw (e, f) (keep t.state s c q p e)
    ]
  ]

  pub calls_keep : (t : Store) (cs : List Call) → All Q cs → P t.state → P (calls t cs).state
  unfolding calls
  calls_keep t [] q p = p
  calls_keep t (c ∷ cs) (q, qs) p = calls_keep (after_call t (call t c)) cs qs (call_keeps t c q p)
