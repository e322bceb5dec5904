-- ===== src/Budget/Pruning.antt =====
-- What pruning in src/features/security/request-budget.ts keeps.
use coredot_editor.Prelude.{
  ℕ, ◌+◌, ◌≤◌, ◌<◌, ◌≡◌, ◌≢◌, refl, sym, ap, ◌∙◌, subst, ◌⊎◌, inl, inr, false, [], ◌∷◌, none, some,
  get, IsUnique, if-elim, leb, leb→le, arith, if_neg, if_pos,
}
use coredot_editor.Budget.Storage.{
  BucketKey, BucketKey-discrete, bucket_key, Bucket, Table, clock_skew_grace_ms, prune_expired,
}

pub get-prune_expired-none :
    (now : ℕ) (table : Table) (key : BucketKey)
    → get key table ≡ none
    → get key (prune_expired now table) ≡ none
unfolding prune_expired
get-prune_expired-none now [] key h = refl
get-prune_expired-none now ((k, b) ∷ table) key h =
    ground (arith, get-prune_expired-none now table key)

pub prune_expired-IsUnique :
    (now : ℕ) (table : Table) → IsUnique table → IsUnique (prune_expired now table)
unfolding prune_expired
prune_expired-IsUnique now [] u = tt
prune_expired-IsUnique now ((k, b) ∷ table) (fresh, u) =
    if-elim IsUnique (leb (b.expires_at + clock_skew_grace_ms) now) (prune_expired now table)
      ((k, b) ∷ prune_expired now table) (λ e. prune_expired-IsUnique now table u)
      (λ e. (get-prune_expired-none now table k fresh, prune_expired-IsUnique now table u))

-- What becomes of a row.
unfoldable pub Settles : ℕ → BucketKey → Bucket → Table → Type 0
Settles now key bucket table =
    ((get key table ≡ some bucket) × (now < bucket.expires_at + clock_skew_grace_ms))
    ⊎ ((get key table ≡ none) × (bucket.expires_at + clock_skew_grace_ms ≤ now))

some-eq : {a b : Bucket} → some a ≡ some b → a ≡ b
some-eq e = cc

not_le : (a b : ℕ) → leb a b ≡ false → b < a
not_le a b h = ground arith

Settles-cons :
    (now : ℕ) (key k : BucketKey) (bucket b : Bucket) (table : Table)
    → k ≢ key
    → Settles now key bucket table
    → Settles now key bucket ((k, b) ∷ table)
unfolding Settles
Settles-cons now key k bucket b table apart h =
    subst
      (λ o.
        ((o ≡ some bucket) × (now < bucket.expires_at + clock_skew_grace_ms))
        ⊎ ((o ≡ none) × (bucket.expires_at + clock_skew_grace_ms ≤ now)))
      (sym (if_neg (BucketKey-discrete k key) apart (some b) (get key table))) h

-- A row stays or goes by its own time.
pub prune_expired-Settles :
    (now : ℕ) (table : Table) (key : BucketKey) (bucket : Bucket)
    → IsUnique table
    → get key table ≡ some bucket
    → Settles now key bucket (prune_expired now table)
unfolding prune_expired Settles
prune_expired-Settles now [] key bucket u e = cc
prune_expired-Settles now ((k, b) ∷ table) key bucket (fresh, u) e =
    elim (BucketKey-discrete k key) [
      | yes same ↦
          let found : b ≡ bucket =
            some-eq (sym (if_pos (BucketKey-discrete k key) same (some b) (get key table)) ∙ e) in
          if-elim (Settles now key bucket) (leb (b.expires_at + clock_skew_grace_ms) now)
            (prune_expired now table) ((k, b) ∷ prune_expired now table)
            (λ h. inr (
              get-prune_expired-none now table key (subst (λ x. get x table ≡ none) same fresh),
              subst (λ (x : Bucket). x.expires_at + clock_skew_grace_ms ≤ now) found
                  (leb→le (b.expires_at + clock_skew_grace_ms) now h),
            ))
            (λ h. inl (
              if_pos (BucketKey-discrete k key) same (some b) (get key (prune_expired now table))
                  ∙ ap some found,
              subst (λ (x : Bucket). now < x.expires_at + clock_skew_grace_ms) found
                  (not_le (b.expires_at + clock_skew_grace_ms) now h),
            ))
      | no apart ↦
          let there : get key table ≡ some bucket =
            sym (if_neg (BucketKey-discrete k key) apart (some b) (get key table)) ∙ e in
          let rest : Settles now key bucket (prune_expired now table) =
            prune_expired-Settles now table key bucket u there in
          if-elim (Settles now key bucket) (leb (b.expires_at + clock_skew_grace_ms) now)
            (prune_expired now table) ((k, b) ∷ prune_expired now table) (λ h. rest)
            (λ h. Settles-cons now key k bucket b (prune_expired now table) apart rest)
    ]
