-- ===== src/Budget/Quota.antt =====
-- How many requests one row of src/features/security/request-budget.ts lets through, over all instances and
-- all of the time.
use coredot_editor.Prelude.{
  ℕ, suc, ◌+◌, ◌≤◌, ◌<◌, ◌≡◌, ◌≢◌, refl, ◌∙◌, ◌⊎◌, inl, inr, none, some, get, insert, text_key,
  nat_key, IsUnique, insert-IsUnique, get-insert-some, get-insert_ne, Bool-cases, Option-cases,
  if-elim, if◌then◌else◌, is_some, ltb, ltb→lt, arith,
}
use coredot_editor.Budget.Storage.{
  BucketKey, bucket_key, Bucket, Table, upsert, clock_skew_grace_ms, prune_expired,
}
use coredot_editor.Budget.Consuming.{Budget, ConsumeInput, run_delete}
use coredot_editor.Budget.Pruning.{
  get-prune_expired-none, prune_expired-IsUnique, Settles, prune_expired-Settles,
}

module _ (key : BucketKey) (limit window : ℕ) where
  -- The row of the bucket has counted all the requests that were let through.
  unfoldable pub HasRow : ℕ → Table → Type 0
  HasRow admitted table =
      (bucket : Bucket) × (get key table ≡ some bucket)
      × (bucket.request_count ≡ admitted)
      × (admitted ≤ limit)
      × (bucket.expires_at ≡ key.window_start + window)

  -- Without a row nothing was let through, or the window is past for every clock.
  unfoldable pub HasNone : ℕ → ℕ → Table → Type 0
  HasNone latest admitted table =
      (get key table ≡ none)
      × ((admitted ≡ 0)
          ⊎ ((admitted ≤ limit) × (key.window_start + window + clock_skew_grace_ms ≤ latest)))

  -- The table and the number of requests let through, `latest` being the latest time seen.
  unfoldable pub Tracks : ℕ → ℕ → Table → Type 0
  Tracks latest admitted table =
      IsUnique table × (HasRow admitted table ⊎ HasNone latest admitted table)

  pub Tracks-le :
      (latest admitted : ℕ) (table : Table) → Tracks latest admitted table → admitted ≤ limit
  unfolding Tracks HasRow HasNone
  Tracks-le latest admitted table (u, inl (bucket, e, c, l, x)) = l
  Tracks-le latest admitted table (u, inr (e, inl z)) = omega (arith, z)
  Tracks-le latest admitted table (u, inr (e, inr (l, past))) = l

  pub Tracks-later :
      (latest later admitted : ℕ) (table : Table)
      → latest ≤ later
      → Tracks latest admitted table
      → Tracks later admitted table
  unfolding Tracks HasNone
  Tracks-later latest later admitted table h (u, inl row) = (u, inl row)
  Tracks-later latest later admitted table h (u, inr (e, inl z)) = (u, inr (e, inl z))
  Tracks-later latest later admitted table h (u, inr (e, inr (l, past))) =
      (u, inr (e, inr (l, omega (arith, past, h))))

  pub prune-Tracks :
      (now latest admitted : ℕ) (table : Table)
      → now ≤ latest
      → Tracks latest admitted table
      → Tracks latest admitted (prune_expired now table)
  unfolding Tracks HasRow HasNone Settles
  prune-Tracks now latest admitted table h (u, inr (e, why)) =
      (prune_expired-IsUnique now table u, inr (get-prune_expired-none now table key e, why))
  prune-Tracks now latest admitted table h (u, inl (bucket, e, c, l, x)) = (
    prune_expired-IsUnique now table u,
    elim (prune_expired-Settles now table key bucket u e) [
      | inl (kept, alive) ↦ inl (bucket, kept, c, l, x)
      | inr (gone, past) ↦ inr (gone, inr (l, omega (arith, past, x, h)))
    ],
  )

  pub upsert-Tracks :
      (latest admitted : ℕ) (table : Table)
      → 0 < limit
      → latest < key.window_start + window + clock_skew_grace_ms
      → Tracks latest admitted table
      → Tracks latest
          (if is_some (upsert key (key.window_start + window) limit table).1
            then suc admitted
            else admitted)
          (upsert key (key.window_start + window) limit table).0
  unfolding Tracks HasRow HasNone upsert
  upsert-Tracks latest admitted table pos fresh (u, inr (e, inr (l, past))) =
      absurd (omega (arith, past, fresh))
  upsert-Tracks latest admitted table pos fresh (u, inr (e, inl z)) =
      let bucket : Bucket = record { request_count = 1; expires_at = key.window_start + window } in
      rw (e, upsert)
        (
          insert-IsUnique key bucket table u,
          inl (
            bucket,
            get-insert-some key key bucket table refl,
            omega (arith, z),
            omega (arith, z, pos),
            refl,
          ),
        )
  upsert-Tracks latest admitted table pos fresh (u, inl (bucket, e, c, l, x)) =
      elim (Bool-cases (ltb bucket.request_count limit)) [
        | inl t ↦
            let next : Bucket = record {
              request_count = bucket.request_count + 1;
              expires_at = key.window_start + window;
            } in
            rw (e, t, upsert)
              (
                insert-IsUnique key next table u,
                inl (
                  next,
                  get-insert-some key key next table refl,
                  omega (arith, c),
                  omega (arith, c, ltb→lt bucket.request_count limit t),
                  refl,
                ),
              )
        | inr t ↦ rw (e, t, upsert) (u, inl (bucket, e, c, l, x))
      ]

  insert_other-Tracks :
      (latest admitted : ℕ) (table : Table) (k : BucketKey) (b : Bucket)
      → k ≢ key
      → Tracks latest admitted table
      → Tracks latest admitted (insert k b table)
  unfolding Tracks HasRow HasNone
  insert_other-Tracks latest admitted table k b apart (u, inl (bucket, e, c, l, x)) =
      (insert-IsUnique k b table u, inl (bucket, get-insert_ne k key b table apart ∙ e, c, l, x))
  insert_other-Tracks latest admitted table k b apart (u, inr (e, why)) =
      (insert-IsUnique k b table u, inr (get-insert_ne k key b table apart ∙ e, why))

  pub upsert_other-Tracks :
      (latest admitted : ℕ) (table : Table) (k : BucketKey) (expires_at other_limit : ℕ)
      → k ≢ key
      → Tracks latest admitted table
      → Tracks latest admitted (upsert k expires_at other_limit table).0
  unfolding upsert
  upsert_other-Tracks latest admitted table k expires_at other_limit apart tracked =
      elim (Option-cases (get k table)) [
        | inl e ↦
            rw (e, upsert)
              (insert_other-Tracks latest admitted table k
                (record { request_count = 1; expires_at = expires_at }) apart tracked)
        | inr (b, e) ↦ elim (Bool-cases (ltb b.request_count other_limit)) [
          | inl t ↦
              rw (e, t, upsert)
                (insert_other-Tracks latest admitted table k
                  (record { request_count = b.request_count + 1; expires_at = expires_at }) apart
                  tracked)
          | inr t ↦ rw (e, t, upsert) tracked
        ]
      ]

  pub run_delete-Tracks :
      (admitted : ℕ) (input : ConsumeInput) (b : Budget) (latest : ℕ)
      → input.now_ms ≤ latest
      → Tracks latest admitted b.table
      → Tracks latest admitted (run_delete input b).table
  unfolding run_delete
  run_delete-Tracks admitted input b latest shown tracked =
      if-elim (Tracks latest admitted) input.prune_fails b.table
        (prune_expired input.now_ms b.table) (λ k. tracked)
        (λ k. prune-Tracks input.now_ms latest admitted b.table shown tracked)
