-- ===== src/Canonical/Answers.antt =====
-- outcome_store.go: what a call that answers has left in the table.
use gas_city.Prelude.{
  if◌then◌else◌, if_cases, Str, lookup, insert, lookup-insert_self, ℕ, zero, suc, ◌≡◌, refl, ap,
  ◌∙◌, Bool, Option, none, some,
}
use gas_city.Canonical.Transaction.{
  committed, on_row, begun, Change, Table, Attempt, mutate_once, retry, mutate_issue, replies,
  apply, is_serialization, mutation_attempts, updates, CommitEnd, finish, rolled_back, applied_with,
  write,
}
use gas_city.Errors.{Check, err_not_ok, ok_eq, Error, Result, ok, err, context_done}
use gas_city.Canonical.Issue.{Issue}

-- A call that answers `a` has found the row, and has answered from it or has replaced it.
pub data Answered {ℓ} {A : Type ℓ} (key : Str) (body : Issue → Change A) (a : A) (t : Table)
    : Type ℓ where
  from_row : (i : Issue) → lookup key t ≡ some i → body i ≡ replies (ok a) → Answered key body a t
  new_row : (i j : Issue) → lookup key t ≡ some j → body i ≡ updates j a → Answered key body a t

module _ {ℓ} {A : Type ℓ} (key : Str) (body : Issue → Change A) (a : A) where
  apply-Answered :
      (env : Attempt) (i : Issue) (c : Change A) (t : Table)
      → lookup key t ≡ some i
      → body i ≡ c
      → (apply env key c t).0 ≡ ok a
      → Answered key body a (apply env key c t).1
  apply-Answered env i (replies r) t found e h = from_row i found (e ∙ ap replies h)
  apply-Answered env i (updates j b) t found e h = writing env.writes env.ends h
    where
      written :
          (x : CommitEnd)
          → (finish x b t (insert key j t)).0 ≡ ok a
          → Answered key body a (finish x b t (insert key j t)).1
      written committed k = new_row i j (lookup-insert_self key j t) (e ∙ ap (updates j) (ok_eq k))
      written (rolled_back x) k = absurd (err_not_ok k)
      written (applied_with x) k = absurd (err_not_ok k)

      writing :
          (c : Check) (x : CommitEnd)
          → (write c x b t (insert key j t)).0 ≡ ok a
          → Answered key body a (write c x b t (insert key j t)).1
      writing (ok _) x k = written x k
      writing (err y) x k = absurd (err_not_ok k)

  mutate_once-Answered :
      (env : Attempt) (t : Table)
      → (mutate_once env key body t).0 ≡ ok a
      → Answered key body a (mutate_once env key body t).1
  unfolding mutate_once
  mutate_once-Answered env t h = start env.begins h
    where
      row :
          (o : Option Issue)
          → lookup key t ≡ o
          → (on_row env key body o t).0 ≡ ok a
          → Answered key body a (on_row env key body o t).1
      row none found k = absurd (err_not_ok k)
      row (some i) found k = apply-Answered env i (body i) t found refl k

      start :
          (c : Check)
          → (begun c env key body t).0 ≡ ok a
          → Answered key body a (begun c env key body t).1
      start (ok _) k = row (lookup key t) refl k
      start (err e) k = absurd (err_not_ok k)

  retry-Answered :
      (n : ℕ) (last : Error) (env : ℕ → Attempt) (done_at : ℕ → Bool) (t : Table)
      → (retry n last env done_at key body t).0 ≡ ok a
      → Answered key body a (retry n last env done_at key body t).1
  unfolding retry
  retry-Answered zero last env done_at t h = absurd (err_not_ok h)
  retry-Answered (suc n) last env done_at t h =
      go (mutate_once (env n) key body t).0 refl h
        (λ e. retry-Answered n e env done_at (mutate_once (env n) key body t).1)
    where
      t' : Table
      t' = (mutate_once (env n) key body t).1

      P : Result A × Table → Type ℓ
      P m = m.0 ≡ ok a → Answered key body a m.1

      go :
          (m : Result A)
          → (mutate_once (env n) key body t).0 ≡ m
          → (elim m as (λ _. Result A × Table) [
            | ok b ↦ (ok b, t')
            | err e ↦
                let rest = retry n e env done_at key body t' in
                if is_serialization e
                then (if done_at n then (err context_done, t') else rest)
                else (err e, t')
          ]).0
            ≡ ok a
          → ((e : Error) → P (retry n e env done_at key body t'))
          → Answered key body a
              (elim m as (λ _. Result A × Table) [
                | ok b ↦ (ok b, t')
                | err e ↦
                    let rest = retry n e env done_at key body t' in
                    if is_serialization e
                    then (if done_at n then (err context_done, t') else rest)
                    else (err e, t')
              ]).1
      go (ok b) e k later = mutate_once-Answered (env n) t (e ∙ k)
      go (err x) e k later =
          if_cases P (is_serialization x) _ _
            (λ _. if_cases P (done_at n) _ _ (λ _ y. absurd (err_not_ok y)) (λ _. later x))
            (λ _ y. absurd (err_not_ok y)) k

  pub mutate_issue-Answered :
      (env : ℕ → Attempt) (done_at : ℕ → Bool) (t : Table)
      → (mutate_issue env done_at key body t).0 ≡ ok a
      → Answered key body a (mutate_issue env done_at key body t).1
  unfolding mutate_issue
  mutate_issue-Answered env done_at t h =
      retry-Answered mutation_attempts context_done env done_at t h
