-- ===== src/Resources/Updates.antt =====
-- The update windows of src/features/collaboration/server/resource-limits.ts.
use coredot_editor.Prelude.{
  ℕ, ◌+◌, ◌≤◌, ◌<◌, ◌≡◌, refl, sym, ◌⊎◌, inl, inr, ite, Bool, List, [], ◌∷◌, Option, none, some,
  Number, nat, negative, inexact, safe_nat, get, insert, get-insert_self, get-insert, Bool-cases,
  ℕ_discrete, nat_key, arith, ltb, ◌||◌,
}
use coredot_editor.Prelude.Result.{ok, err, Result-cases}
use coredot_editor.Resources.{
  Limits, Registry, UpdateWindow, update_limit, window_at, admit_update, consume_update, or_throw,
}

abbrev pub size_of : Number → ℕ
size_of (nat n) = n
size_of negative = 0
size_of inexact = 0

-- What a call does, in terms of the window that it counts against.
consume_update_ok :
    (l : Limits) (now : ℕ) (g h : Registry) (c : ℕ) (bytes : Number)
    → consume_update l now g c bytes ≡ ok h
    → let w = window_at l now (get c g.update_windows) in
      (w.messages + 1 ≤ l.update_messages_per_window)
      × (w.bytes + size_of bytes ≤ l.update_bytes_per_window)
      × (get c h.update_windows
          ≡ some (record w { messages = w.messages + 1; bytes = w.bytes + size_of bytes }))
unfolding consume_update admit_update safe_nat or_throw
consume_update_ok l now g h c (nat n) e =
    let w : UpdateWindow = window_at l now (get c g.update_windows) in
    ground (
      arith,
      get-insert_self c (record w { messages = w.messages + 1; bytes = w.bytes + n })
          g.update_windows,
    )
consume_update_ok l now g h c negative e = cc
consume_update_ok l now g h c inexact e = cc

-- The messages and the bytes of the updates that are let through, one after another.
unfoldable pub burst : Limits → Registry → ℕ → List (ℕ × Number) → ℕ × ℕ
burst l g c [] = (0, 0)
burst l g c ((now, bytes) ∷ us) = elim (consume_update l now g c bytes) [
  | err _ ↦ burst l g c us
  | ok h ↦ let (messages, sent) = burst l h c us in (messages + 1, sent + size_of bytes)
]

-- Every update comes in the given span of time.
abbrev pub AllWithin : ℕ → ℕ → List (ℕ × Number) → Type 0
AllWithin from until [] = Unit {0}
AllWithin from until ((now, bytes) ∷ us) = (from ≤ now) × (now < until) × AllWithin from until us

-- The connection's window was opened in the span.
abbrev IsRecent : ℕ → Option UpdateWindow → Type 0
IsRecent from none = Unit
IsRecent from (some w) = from ≤ w.started_at

window_at-IsRecent :
    (l : Limits) (from now : ℕ) (o : Option UpdateWindow)
    → IsRecent from o
    → from ≤ now
    → from ≤ (window_at l now o).started_at
unfolding window_at
window_at-IsRecent l from now none r h = h
window_at-IsRecent l from now (some w) r h = ground arith

used : Option UpdateWindow → ℕ × ℕ
used none = (0, 0)
used (some w) = (w.messages, w.bytes)

window_at-used :
    (l : Limits) (from now : ℕ) (o : Option UpdateWindow)
    → IsRecent from o
    → now < from + l.update_window_ms
    → ((window_at l now o).messages ≡ (used o).0) × ((window_at l now o).bytes ≡ (used o).1)
unfolding window_at used
window_at-used l from now none r h = (refl, refl)
window_at-used l from now (some w) r h = ground arith

consume_update-used :
    (l : Limits) (now : ℕ) (g h : Registry) (c from : ℕ) (bytes : Number)
    → IsRecent from (get c g.update_windows)
    → from ≤ now
    → now < from + l.update_window_ms
    → consume_update l now g c bytes ≡ ok h
    → IsRecent from (get c h.update_windows)
      × ((used (get c h.update_windows)).0 ≡ (used (get c g.update_windows)).0 + 1)
      × ((used (get c h.update_windows)).1 ≡ (used (get c g.update_windows)).1 + size_of bytes)
      × ((used (get c h.update_windows)).0 ≤ l.update_messages_per_window)
      × ((used (get c h.update_windows)).1 ≤ l.update_bytes_per_window)
unfolding used
consume_update-used l now g h c from bytes r early late e =
    let (a, b, k) = consume_update_ok l now g h c bytes e in
    let recent = window_at-IsRecent l from now (get c g.update_windows) r early in
    let (m, n) = window_at-used l from now (get c g.update_windows) r late in
    rw k (recent, omega arith, omega arith, a, b)

burst-le :
    (l : Limits) (g : Registry) (c from : ℕ) (us : List (ℕ × Number))
    → IsRecent from (get c g.update_windows)
    → (used (get c g.update_windows)).0 ≤ l.update_messages_per_window
    → (used (get c g.update_windows)).1 ≤ l.update_bytes_per_window
    → AllWithin from (from + l.update_window_ms) us
    → ((burst l g c us).0 + (used (get c g.update_windows)).0 ≤ l.update_messages_per_window)
      × ((burst l g c us).1 + (used (get c g.update_windows)).1 ≤ l.update_bytes_per_window)
unfolding burst
burst-le l g c from [] r p q a = (omega arith, omega arith)
burst-le l g c from ((now, bytes) ∷ us) r p q (early, late, a) =
    elim (Result-cases (consume_update l now g c bytes)) [
      | inl (x, e) ↦ rw (e, burst) (burst-le l g c from us r p q a)
      | inr (h, e) ↦
          let (recent, m, n, p', q') = consume_update-used l now g h c from bytes r early late e in
          let (ih, jh) = burst-le l h c from us recent p' q' a in
          rw (e, burst) (omega arith, omega arith)
    ]

-- A connection with no open window: in any span of one window's length, the updates that are let
-- through, of all that are sent in any number and size, keep within the two limits of a window.
pub burst-le_limits :
    (l : Limits) (g : Registry) (c from : ℕ) (us : List (ℕ × Number))
    → get c g.update_windows ≡ none
    → AllWithin from (from + l.update_window_ms) us
    → ((burst l g c us).0 ≤ l.update_messages_per_window)
      × ((burst l g c us).1 ≤ l.update_bytes_per_window)
unfolding used
burst-le_limits l g c from us e a =
    let (m, n) = burst-le l g c from us (rw e tt) (rw e (omega arith)) (rw e (omega arith)) a in
    (omega arith, omega arith)

-- The window that is open for an update: that of the connection until its time is over, and then, or
-- where the connection has none, a new one in which nothing has been let through.
unfoldable pub IsOpen : Limits → ℕ → Option UpdateWindow → UpdateWindow → Type 0
IsOpen l now none v = v ≡ record { bytes = 0; messages = 0; started_at = now }
IsOpen l now (some w) v =
    ((now < w.started_at + l.update_window_ms) × (v ≡ w))
    ⊎ ((w.started_at + l.update_window_ms ≤ now)
        × (v ≡ record { bytes = 0; messages = 0; started_at = now }))

IsOpen-window_at :
    (l : Limits) (now : ℕ) (o : Option UpdateWindow) (v : UpdateWindow)
    → IsOpen l now o v
    → window_at l now o ≡ v
unfolding IsOpen window_at
IsOpen-window_at l now none v e = sym e
IsOpen-window_at l now (some w) v (inl (early, e)) = ground (arith, early, sym e)
IsOpen-window_at l now (some w) v (inr (late, e)) = ground (arith, late, sym e)

-- An update whose size is a safe natural number is let through exactly when it fits, with what the
-- open window has let through, into both limits. The open window is the connection's own while less
-- time has passed since its start than the length of a window; from then on, and where the connection
-- has none, it is a new one that starts at this update and has let nothing through. Then the
-- connection's window becomes the open one, with one message and that size more, and no other window
-- changes. Otherwise the call throws `update_limit`.
pub consume_update_iff :
    (l : Limits) (now : ℕ) (g : Registry) (c d n : ℕ) (bytes : Number) (v : UpdateWindow)
    → safe_nat bytes ≡ some n
    → IsOpen l now (get c g.update_windows) v
    → ((v.messages + 1 ≤ l.update_messages_per_window)
        × (v.bytes + n ≤ l.update_bytes_per_window)
        × ((h : Registry) × (consume_update l now g c bytes ≡ ok h)
            × (get d h.update_windows
                ≡ ite
                    (ℕ_discrete c d)
                    (some (record v { messages = v.messages + 1; bytes = v.bytes + n }))
                    (get d g.update_windows))))
      ⊎ (¬ (
            (v.messages + 1 ≤ l.update_messages_per_window)
            × (v.bytes + n ≤ l.update_bytes_per_window))
          × (consume_update l now g c bytes ≡ err update_limit))
unfolding consume_update admit_update
consume_update_iff l now g c d n bytes v safe opened =
    let v' : UpdateWindow = record v { messages = v.messages + 1; bytes = v.bytes + n } in
    let over : Bool =
      ltb l.update_messages_per_window (v.messages + 1)
      || ltb l.update_bytes_per_window (v.bytes + n) in
    let at = IsOpen-window_at l now (get c g.update_windows) v opened in
    elim (Bool-cases over) [
      | inl e ↦ rw (safe, at, e) (inr (ground arith, refl))
      | inr e ↦
          rw (safe, at, e)
            (inl (
              ground arith,
              ground arith,
              (
                record g { update_windows = insert c v' g.update_windows },
                refl,
                get-insert c d v' g.update_windows,
              ),
            ))
    ]
