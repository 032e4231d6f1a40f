-- ===== src/Canonical/Transaction.antt =====
-- dolt_bead_store.go: `mutateIssue` and `mutateIssueOnce`.
use gas_city.Prelude.{
  if◌then◌else◌, Str, Map, lookup, insert, ℕ, zero, suc, Bool, false, Option, none, some,
}
use gas_city.Errors.{
  Check, Error, Result, ok, err, bead_not_found, database, transaction_conflicted, context_done,
}
use gas_city.Canonical.Issue.{Issue}

-- The table `issues`.
abbrev pub Table : Type 0
Table = Map Issue

-- How `tx.Commit` ends; after an error the new row is in place or not.
pub data CommitEnd : Type 0 where
  committed : CommitEnd
  rolled_back applied_with : Error → CommitEnd

-- What the database does in one transaction: whether it begins, whether the statements between the
-- change and the commit go well, and how the commit ends.
pub record Attempt : Type 0 where
  pub begins : Check
  pub writes : Check
  pub ends : CommitEnd

-- What a call's body decides from an issue: an answer, or a new issue and the answer.
pub data Change {ℓ} (A : Type ℓ) : Type ℓ where
  replies : Result A → Change A
  updates : Issue → A → Change A

abbrev pub finish {ℓ} : {A : Type ℓ} → CommitEnd → A → Table → Table → Result A × Table
finish committed a t t' = (ok a, t')
finish (rolled_back e) a t t' = (err e, t)
finish (applied_with e) a t t' = (err e, t')

abbrev pub write {ℓ} : {A : Type ℓ} → Check → CommitEnd → A → Table → Table → Result A × Table
write (err e) ends a t t' = (err e, t)
write (ok _) ends a t t' = finish ends a t t'

abbrev pub apply {ℓ} : {A : Type ℓ} → Attempt → Str → Change A → Table → Result A × Table
apply env id (replies r) t = (r, t)
apply env id (updates i a) t = write env.writes env.ends a t (insert id i t)

abbrev pub on_row {ℓ} :
    {A : Type ℓ} → Attempt → Str → (Issue → Change A) → Option Issue → Table → Result A × Table
on_row env id body none t = (err bead_not_found, t)
on_row env id body (some i) t = apply env id (body i) t

abbrev pub begun {ℓ} :
    {A : Type ℓ} → Check → Attempt → Str → (Issue → Change A) → Table → Result A × Table
begun (err e) env id body t = (err e, t)
begun (ok _) env id body t = on_row env id body (lookup id t) t

-- mutateIssueOnce
unfoldable pub mutate_once {ℓ} :
    {A : Type ℓ} → Attempt → Str → (Issue → Change A) → Table → Result A × Table
mutate_once env id body t = begun env.begins env id body t

-- isSerializationFailure
abbrev pub is_serialization : Error → Bool
is_serialization (database b) = b
is_serialization _ = false

-- doltMutationAttempts
abbrev pub mutation_attempts : ℕ
mutation_attempts = 5

-- The loop of mutateIssue with the attempts that are left. `env` says what the database does in an
-- attempt, `done_at` whether the context ends while the code waits after it.
unfoldable pub retry {ℓ} :
    {A : Type ℓ}
    → ℕ
    → Error
    → (ℕ → Attempt)
    → (ℕ → Bool)
    → Str
    → (Issue → Change A)
    → Table
    → Result A × Table
unfolding mutate_once
retry zero last env done_at id body t = (err (transaction_conflicted last), t)
retry (suc left) last env done_at id body t =
    let (outcome, t') = mutate_once (env left) id body t in
    elim outcome [
      | ok a ↦ (ok a, t')
      | err e ↦
          let rest = retry left e env done_at id body t' in
          if is_serialization e
          then (if done_at left then (err context_done, t') else rest)
          else (err e, t')
    ]

-- mutateIssue
unfoldable pub mutate_issue {ℓ} :
    {A : Type ℓ} → (ℕ → Attempt) → (ℕ → Bool) → Str → (Issue → Change A) → Table → Result A × Table
unfolding retry
mutate_issue env done_at id body t = retry mutation_attempts context_done env done_at id body t
