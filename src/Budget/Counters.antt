-- ===== src/Budget/Counters.antt =====
-- The table of src/features/security/request-budget.ts as one counter for each bucket, forgetting the order
-- of its rows and their times.
use coredot_editor.Prelude.{
  ℕ, suc, ◌+◌, ◌<◌, ◌≡◌, refl, sym, ap, ◌∙◌, subst, inl, inr, Bool, true, false, List, [], ◌∷◌,
  Option, none, some, get, insert, get-insert-some, get-insert_ne, Bool-cases, Option-cases,
  if◌then◌else◌, is_some, holds, ltb, lt→ltb, All, arith,
}
use coredot_editor.Budget.Storage.{BucketKey, BucketKey-discrete, bucket_key, Bucket, Table, upsert}

pub record Ask : Type 0 where
  pub key : BucketKey
  pub expires_at : ℕ
  pub limit : ℕ

-- A counter that is below its limit goes up by one, and the request passes; no other counter changes.
abbrev pub counted : Bool → (BucketKey → ℕ) → BucketKey → BucketKey → ℕ
counted passes counts key k =
    if passes
    then (if holds (BucketKey-discrete key k) then suc (counts k) else counts k)
    else counts k

-- The specification: which requests pass.
unfoldable pub run_counters : List Ask → (BucketKey → ℕ) → List Bool
run_counters [] counts = []
run_counters (ask ∷ asks) counts =
    let passes = ltb (counts ask.key) ask.limit in
    passes ∷ run_counters asks (counted passes counts ask.key)

-- The table: which requests pass.
unfoldable pub run_table : List Ask → Table → List Bool
run_table [] table = []
run_table (ask ∷ asks) table =
    let (next, count) = upsert ask.key ask.expires_at ask.limit table in
    is_some count ∷ run_table asks next

abbrev pub count_in : Option Bucket → ℕ
count_in none = 0
count_in (some bucket) = bucket.request_count

unfoldable pub Agree : Table → (BucketKey → ℕ) → Type 0
Agree table counts = (k : BucketKey) → count_in (get k table) ≡ counts k

insert-Agree :
    (key : BucketKey) (bucket : Bucket) (table : Table) (counts : BucketKey → ℕ)
    → Agree table counts
    → bucket.request_count ≡ suc (counts key)
    → Agree (insert key bucket table) (counted true counts key)
unfolding Agree
insert-Agree key bucket table counts agree up k =
    elim (BucketKey-discrete key k)
      as (λ (d : Dec (key ≡ k)).
        count_in (get k (insert key bucket table))
        ≡ (if holds d then suc (counts k) else counts k)) [
          | yes same ↦
              ap count_in (get-insert-some key k bucket table same)
              ∙ up
              ∙ ap (λ x. suc (counts x)) same
          | no apart ↦ ap count_in (get-insert_ne key k bucket table apart) ∙ agree k
        ]

-- A result of the table is what the counter does.
Matches : BucketKey → (BucketKey → ℕ) → Bool → Table × Option ℕ → Type 0
Matches key counts passes (next, count) =
    (is_some count ≡ passes) × Agree next (counted passes counts key)

-- One UPSERT does what the counter does.
upsert-Matches :
    (ask : Ask) (table : Table) (counts : BucketKey → ℕ)
    → 0 < ask.limit
    → Agree table counts
    → Matches ask.key counts
        (ltb (counts ask.key) ask.limit)
        (upsert ask.key ask.expires_at ask.limit table)
unfolding upsert Agree Matches
upsert-Matches ask table counts pos agree =
    let out : Table × Option ℕ = upsert ask.key ask.expires_at ask.limit table in
    let by : (passes : Bool) (done : Table × Option ℕ)
        → ltb (counts ask.key) ask.limit ≡ passes
        → out ≡ done
        → Matches ask.key counts passes done
        → Matches ask.key counts (ltb (counts ask.key) ask.limit) out =
      λ passes done p e h.
        subst (λ b. Matches ask.key counts b out) (sym p)
          (subst (Matches ask.key counts passes) (sym e) h) in
    elim (Option-cases (get ask.key table)) [
      | inl e ↦
          let none_yet : counts ask.key ≡ 0 = sym (agree ask.key) ∙ ap count_in e in
          let first : Bucket = record { request_count = 1; expires_at = ask.expires_at } in
          by true (insert ask.key first table, some 1)
            (lt→ltb (counts ask.key) ask.limit (omega (arith, none_yet, pos))) (rw (e, upsert) refl)
            (refl, insert-Agree ask.key first table counts agree (omega (arith, none_yet)))
      | inr (bucket, e) ↦
          let same : counts ask.key ≡ bucket.request_count = sym (agree ask.key) ∙ ap count_in e in
          let next : Bucket = record {
            request_count = bucket.request_count + 1;
            expires_at = ask.expires_at;
          } in
          elim (Bool-cases (ltb bucket.request_count ask.limit)) [
            | inl t ↦
                by true (insert ask.key next table, some (bucket.request_count + 1))
                  (ap (λ n. ltb n ask.limit) same ∙ t) (rw (e, t, upsert) refl)
                  (refl, insert-Agree ask.key next table counts agree (omega (arith, same)))
            | inr t ↦
                by false (table, none) (ap (λ n. ltb n ask.limit) same ∙ t) (rw (e, t, upsert) refl)
                  (refl, agree)
          ]
    ]

-- The rows of the table implement one counter for each principal, policy and window: any sequence of
-- UPSERTs lets through just the requests that such counters, which go up while they are below the
-- limit, let through. The limits are positive, and the table agrees with the counters at the start.
pub run_table-run_counters :
    (asks : List Ask) (table : Table) (counts : BucketKey → ℕ)
    → All (λ (ask : Ask). 0 < ask.limit) asks
    → Agree table counts
    → run_table asks table ≡ run_counters asks counts
unfolding run_table run_counters Matches
run_table-run_counters [] table counts pos agree = refl
run_table-run_counters (ask ∷ asks) table counts (p, pos) agree =
    let (passed, next) = upsert-Matches ask table counts p agree in
    let passes : Bool = ltb (counts ask.key) ask.limit in
    ap (λ b. b ∷ run_table asks (upsert ask.key ask.expires_at ask.limit table).0) passed
    ∙ ap (◌∷◌ passes) (
        run_table-run_counters asks (upsert ask.key ask.expires_at ask.limit table).0
          (counted passes counts ask.key) pos next)
