-- ===== src/Canonical/Respects.antt =====
-- dolt_bead_store.go: what each change of a row respects holds between a row before and after a
-- call, however its transactions end.
use gas_city.Prelude.{
  if◌then◌else◌, Bool-cases, some_eq, if_cases, ◌==◌, nat_eq, Str, text_eq, ==→≡, int_eq, lookup,
  insert, lookup-insert, ℕ, zero, suc, ◌≡◌, refl, sym, ap, subst, ◌∙◌, inl, inr, Bool, Option, none,
  some,
}
use gas_city.Canonical.Transaction.{on_row, begun}
use gas_city.Canonical.Transaction.{committed}
use gas_city.Errors.{Check, Error, Result, ok, err, context_done}
use gas_city.Canonical.Issue.{Issue}
use gas_city.Canonical.Transaction.{
  Change, Table, updates, mutate_once, retry, mutate_issue, Attempt, CommitEnd, is_serialization,
  mutation_attempts, finish, rolled_back, applied_with, write, apply, replies,
}

-- Every row of the first table is in the second, and related.
abbrev pub Rows {ℓ} : (Issue → Issue → Type ℓ) → Table → Table → Type ℓ
Rows R t t' =
    (id : Str) (i : Issue) → lookup id t ≡ some i → (i' : Issue) × (lookup id t' ≡ some i') × R i i'

module _ {ℓ κ} {A : Type κ} (R : Issue → Issue → Type ℓ) (R-refl : (i : Issue) → R i i)
    (R-trans : (i j k : Issue) → R i j → R j k → R i k) (body : Issue → Change A)
    (respects : (i i' : Issue) (a : A) → body i ≡ updates i' a → R i i') where
  Rows-refl : (t : Table) → Rows R t t
  Rows-refl t id i found = (i, found, R-refl i)

  Rows-trans : (t u v : Table) → Rows R t u → Rows R u v → Rows R t v
  Rows-trans t u v first second id i found =
      let (j, there, one) = first id i found in
      let (k, here, two) = second id j there in (k, here, R-trans i j k one two)

  put-Rows :
      (key : Str) (t : Table) (old new : Issue)
      → lookup key t ≡ some old
      → R old new
      → Rows R t (insert key new t)
  put-Rows key t old new there step id i found = elim (Bool-cases (key == id)) [
    | inl same ↦ (
      new,
      rw (lookup-insert, same),
      subst (λ x. R x new) (some_eq (sym there ∙ (ap (λ k. lookup k t) (==→≡ key id same) ∙ found)))
          step,
    )
    | inr apart ↦ (i, rw (lookup-insert, apart) found, R-refl i)
  ]

  mutate_once-Rows :
      (env : Attempt) (key : Str) (t : Table) → Rows R t (mutate_once env key body t).1
  unfolding mutate_once
  mutate_once-Rows env key t = start env.begins
    where
      ending : (e : CommitEnd) (a : A) (t' : Table) → Rows R t t' → Rows R t (finish e a t t').1
      ending committed a t' rows = rows
      ending (rolled_back e) a t' rows = Rows-refl t
      ending (applied_with e) a t' rows = rows

      writing :
          (w : Check) (a : A) (t' : Table) → Rows R t t' → Rows R t (write w env.ends a t t').1
      writing (ok _) a t' rows = ending env.ends a t' rows
      writing (err e) a t' rows = Rows-refl t

      change :
          (i : Issue) (c : Change A)
          → lookup key t ≡ some i
          → body i ≡ c
          → Rows R t (apply env key c t).1
      change i (replies r) found h = Rows-refl t
      change i (updates i' a) found h =
          writing env.writes a _ (put-Rows key t i i' found (respects i i' a h))

      row : (o : Option Issue) → lookup key t ≡ o → Rows R t (on_row env key body o t).1
      row none found = Rows-refl t
      row (some i) found = change i (body i) found refl

      start : (c : Check) → Rows R t (begun c env key body t).1
      start (ok _) = row (lookup key t) refl
      start (err e) = Rows-refl t

  retry-Rows :
      (n : ℕ) (last : Error) (env : ℕ → Attempt) (done_at : ℕ → Bool) (key : Str) (t : Table)
      → Rows R t (retry n last env done_at key body t).1
  unfolding retry
  retry-Rows zero last env done_at key t = Rows-refl t
  retry-Rows (suc n) last env done_at key t =
      go (mutate_once (env n) key body t).0 (mutate_once-Rows (env n) key t)
        (λ e. retry-Rows n e env done_at key (mutate_once (env n) key body t).1)
    where
      t' : Table
      t' = (mutate_once (env n) key body t).1

      P : Result A × Table → Type ℓ
      P m = Rows R t m.1

      go :
          (m : Result A)
          → Rows R t t'
          → ((e : Error) → Rows R t' (retry n e env done_at key body t').1)
          → Rows R t
              (elim m as (λ _. Result A × Table) [
                | ok a ↦ (ok a, t')
                | err e ↦
                    let rest = retry n e env done_at key body t' in
                    if is_serialization e
                    then (if done_at n then (err context_done, t') else rest)
                    else (err e, t')
              ]).1
      go (ok a) rows later = rows
      go (err e) rows later =
          if_cases P (is_serialization e) _ _
            (λ _. if_cases P (done_at n) _ _ (λ _. rows) (λ _. Rows-trans t t' _ rows (later e)))
            (λ _. rows)

  pub mutate_issue-Rows :
      (env : ℕ → Attempt) (done_at : ℕ → Bool) (key : Str) (t : Table)
      → Rows R t (mutate_issue env done_at key body t).1
  unfolding mutate_issue
  mutate_issue-Rows env done_at key t = retry-Rows mutation_attempts context_done env done_at key t
