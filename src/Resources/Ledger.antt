-- ===== src/Resources/Ledger.antt =====
-- Sums over the resident documents and over the growths of
-- src/features/collaboration/server/resource-limits.ts.
use coredot_editor.Prelude.{
  ℕ, zero, suc, ◌+◌, ◌≤◌, ◌<◌, ◌≡◌, refl, ite, List, [], ◌∷◌, ◌++◌, none, some, Text, get, insert,
  delete, Text-discrete, text_key, arith, if◌then◌else◌, ◌==◌, length, get_elem?, set,
}
use coredot_editor.Resources.{LoadedDocument, Growth}

abbrev pub total_bytes : List (Text × LoadedDocument) → ℕ
total_bytes [] = 0
total_bytes ((k, d) ∷ ds) = d.bytes + total_bytes ds

pub total_bytes-insert_new :
    (k : Text) (d : LoadedDocument) (ds : List (Text × LoadedDocument))
    → get k ds ≡ none
    → total_bytes (insert k d ds) ≡ total_bytes ds + d.bytes
total_bytes-insert_new k d [] h = omega arith
total_bytes-insert_new k d ((j, c) ∷ ds) h = ground (arith, total_bytes-insert_new k d ds)

pub length-insert_new :
    (k : Text) (d : LoadedDocument) (ds : List (Text × LoadedDocument))
    → get k ds ≡ none
    → length (insert k d ds) ≡ length ds + 1
length-insert_new k d [] h = omega arith
length-insert_new k d ((j, c) ∷ ds) h = ground (arith, length-insert_new k d ds)

pub length-insert_old :
    (k : Text) (c d : LoadedDocument) (ds : List (Text × LoadedDocument))
    → get k ds ≡ some c
    → length (insert k d ds) ≡ length ds
length-insert_old k c d [] h = ground arith
length-insert_old k c d ((j, b) ∷ ds) h = ground (arith, length-insert_old k c d ds)

pub length-delete :
    (k : Text) (ds : List (Text × LoadedDocument)) → length (delete k ds) ≤ length ds
length-delete k [] = omega arith
length-delete k ((j, c) ∷ ds) = ground (arith, length-delete k ds)

pub total_bytes-insert_old :
    (k : Text) (c d : LoadedDocument) (ds : List (Text × LoadedDocument))
    → get k ds ≡ some c
    → total_bytes (insert k d ds) + c.bytes ≡ total_bytes ds + d.bytes
total_bytes-insert_old k c d [] h = ground arith
total_bytes-insert_old k c d ((j, b) ∷ ds) h = ground (arith, total_bytes-insert_old k c d ds)

pub total_bytes-delete :
    (k : Text) (c : LoadedDocument) (ds : List (Text × LoadedDocument))
    → get k ds ≡ some c
    → total_bytes (delete k ds) + c.bytes ≡ total_bytes ds
total_bytes-delete k c [] h = ground arith
total_bytes-delete k c ((j, b) ∷ ds) h = ground (arith, total_bytes-delete k c ds)

-- What a growth may still take back from the document of a room and an incarnation.
abbrev pub share : Text → ℕ → Growth → ℕ
share room n w =
    if w.settled
    then 0
    else ite (Text-discrete w.room room) (if w.incarnation == n then w.bytes else 0) 0

abbrev pub pending : Text → ℕ → List Growth → ℕ
pending room n [] = 0
pending room n (w ∷ ws) = share room n w + pending room n ws

pub pending-append :
    (room : Text) (n : ℕ) (ws vs : List Growth)
    → pending room n (ws ++ vs) ≡ pending room n ws + pending room n vs
pending-append room n [] vs = omega arith
pending-append room n (w ∷ ws) vs = omega (arith, pending-append room n ws vs)

pub pending-set :
    (room : Text) (n : ℕ) (ws : List Growth) (i : ℕ) (w v : Growth)
    → get_elem? ws i ≡ some w
    → pending room n (set ws i v) + share room n w ≡ pending room n ws + share room n v
pending-set room n [] i w v h = ground arith
pending-set room n (u ∷ ws) zero w v h = ground arith
pending-set room n (u ∷ ws) (suc i) w v h = omega (arith, pending-set room n ws i w v h)

-- Every growth is of an incarnation that was handed out.
abbrev pub AllBelow : ℕ → List Growth → Type 0
AllBelow n [] = Unit {0}
AllBelow n (w ∷ ws) = (w.incarnation < n) × AllBelow n ws

pub AllBelow-mono : (m n : ℕ) (ws : List Growth) → m ≤ n → AllBelow m ws → AllBelow n ws
AllBelow-mono m n [] h b = tt
AllBelow-mono m n (w ∷ ws) h b = (omega arith, AllBelow-mono m n ws h b.1)

pub AllBelow-append :
    (n : ℕ) (ws : List Growth) (v : Growth)
    → AllBelow n ws
    → v.incarnation < n
    → AllBelow n (ws ++ v ∷ [])
AllBelow-append n [] v b h = (h, tt)
AllBelow-append n (w ∷ ws) v b h = (b.0, AllBelow-append n ws v b.1 h)

pub AllBelow-set :
    (n : ℕ) (ws : List Growth) (i : ℕ) (v : Growth)
    → AllBelow n ws
    → v.incarnation < n
    → AllBelow n (set ws i v)
AllBelow-set n [] i v b h = tt
AllBelow-set n (w ∷ ws) zero v b h = (h, b.1)
AllBelow-set n (w ∷ ws) (suc i) v b h = (b.0, AllBelow-set n ws i v b.1 h)

pub AllBelow-get_elem? :
    (n : ℕ) (ws : List Growth) (i : ℕ) (w : Growth)
    → AllBelow n ws
    → get_elem? ws i ≡ some w
    → w.incarnation < n
AllBelow-get_elem? n [] i w b h = ground arith
AllBelow-get_elem? n (u ∷ ws) zero w b h = ground arith
AllBelow-get_elem? n (u ∷ ws) (suc i) w b h = AllBelow-get_elem? n ws i w b.1 h

pub pending_fresh : (room : Text) (n : ℕ) (ws : List Growth) → AllBelow n ws → pending room n ws ≡ 0
pending_fresh room n [] b = refl
pending_fresh room n (w ∷ ws) b = ground (arith, pending_fresh room n ws b.1)
