-- ===== src/Canonical/Progress.antt =====
-- dolt_bead_store.go: mutateIssue gets through where one of its attempts commits.
use gas_city.Prelude.{
  if◌then◌else◌, Str, lookup, insert, ℕ, zero, suc, ◌<◌, ◌≡◌, refl, ap, ◌∙◌, Bool, true, false,
  some, arith,
}
use native.Mathlib.Decide.{dec_lt}
use gas_city.Errors.{Error, Result, ok, err, database, context_done}
use gas_city.Canonical.Issue.{Issue}
use gas_city.Canonical.Transaction.{
  committed, rolled_back, Attempt, Table, Change, updates, mutate_issue, mutate_once, retry,
  mutation_attempts, is_serialization,
}

-- An attempt that commits, and one that the database rolls back for a serialization failure.
abbrev pub commits : Attempt
commits = record { begins = ok tt; writes = ok tt; ends = committed }

abbrev pub conflicts : Attempt
conflicts = record { begins = ok tt; writes = ok tt; ends = rolled_back (database true) }

module _ {ℓ} {A : Type ℓ} (key : Str) (body : Issue → Change A) (i j : Issue) (a : A) (t : Table)
    (found : lookup key t ≡ some i) (decides : body i ≡ updates j a) where
  commits_once : (e : Attempt) → e ≡ commits → mutate_once e key body t ≡ (ok a, insert key j t)
  unfolding mutate_once
  commits_once e same = rw (same, found, decides) refl

  conflicts_once :
      (e : Attempt) → e ≡ conflicts → mutate_once e key body t ≡ (err (database true), t)
  unfolding mutate_once
  conflicts_once e same = rw (same, found, decides) refl

  -- A round of the loop.
  abbrev after : ℕ → (ℕ → Attempt) → (ℕ → Bool) → Result A × Table → Result A × Table
  after n env done_at (outcome, t') = elim outcome [
    | ok b ↦ (ok b, t')
    | err e ↦
        let rest = retry n e env done_at key body t' in
        if is_serialization e
        then (if done_at n then (err context_done, t') else rest)
        else (err e, t')
  ]

  again :
      (n : ℕ) (last : Error) (env : ℕ → Attempt) (done_at : ℕ → Bool)
      → env n ≡ conflicts
      → done_at n ≡ false
      → retry (suc n) last env done_at key body t ≡ retry n (database true) env done_at key body t
  unfolding retry
  again n last env done_at bad waits =
      ap (after n env done_at) (conflicts_once (env n) bad)
      ∙ ap
          (λ b. if b then (err context_done, t) else retry n (database true) env done_at key body t)
          waits

  through :
      (n : ℕ) (last : Error) (env : ℕ → Attempt) (done_at : ℕ → Bool)
      → env n ≡ commits
      → retry (suc n) last env done_at key body t ≡ (ok a, insert key j t)
  unfolding retry
  through n last env done_at good = ap (after n env done_at) (commits_once (env n) good)

  retry-commits :
      (n m : ℕ) (last : Error) (env : ℕ → Attempt) (done_at : ℕ → Bool)
      → m < n
      → env m ≡ commits
      → ((k : ℕ) → m < k → k < n → env k ≡ conflicts)
      → ((k : ℕ) → m < k → k < n → done_at k ≡ false)
      → retry n last env done_at key body t ≡ (ok a, insert key j t)
  unfolding retry
  retry-commits zero m last env done_at below good bad waits = absurd (omega arith)
  retry-commits (suc n) m last env done_at below good bad waits = elim (dec_lt m n) [
    | yes more ↦
        again n last env done_at (bad n more (omega arith)) (waits n more (omega arith))
        ∙ retry-commits n m (database true) env done_at more good (λ k h l. bad k h (omega arith))
            (λ k h l. waits k h (omega arith))
    | no last_one ↦
        let here : n ≡ m = omega arith in through n last env done_at (ap env here ∙ good)
  ]

-- Where the row is there and the change decides to write: if some attempt commits, and each of those
-- before it is rolled back for a serialization failure and followed by a wait in which the context
-- does not end, then mutateIssue answers, and the row is the new one. Attempts are counted down from 4.
pub mutate_issue-commits {ℓ} :
    {A : Type ℓ} (key : Str) (body : Issue → Change A) (i j : Issue) (a : A) (t : Table) (m : ℕ)
    (env : ℕ → Attempt) (done_at : ℕ → Bool)
    → lookup key t ≡ some i
    → body i ≡ updates j a
    → m < mutation_attempts
    → env m ≡ commits
    → ((k : ℕ) → m < k → k < mutation_attempts → env k ≡ conflicts)
    → ((k : ℕ) → m < k → k < mutation_attempts → done_at k ≡ false)
    → mutate_issue env done_at key body t ≡ (ok a, insert key j t)
unfolding mutate_issue
mutate_issue-commits key body i j a t m env done_at found decides below good bad waits =
    retry-commits key body i j a t found decides mutation_attempts m context_done env done_at below
      good bad waits
