-- ===== src/Examples/Progress.antt =====
-- Runs of the transaction loop and of the reading of an outcome.
use gas_city.Prelude.{
  if◌then◌else◌, all, ◌==◌, nat_eq, Str-discrete, text_eq, int_eq, text, lookup, insert, ℕ, ◌<◌,
  ◌≡◌, refl, ap, true, false, some, [], ◌∷◌, arith, ℕ_discrete, valid_utf8,
}
use gas_city.Errors.{ok}
use gas_city.Canonical.Issue.{blank, Issue, set_outcome, outcome_record_from}
use gas_city.Canonical.Transaction.{updates, mutate_issue, Attempt, Table}
use gas_city.Canonical.Outbox.{
  emit_body, emit_outcome, inspect_outcome, pending_record, decide_emit,
}
use gas_city.Canonical.Progress.{commits, conflicts, mutate_issue-commits}
use gas_city.Canonical.Inspected.{inspect-emit, texts}
use gas_city.Examples.Outcome.{outcome, outcome_valid, row}

abbrev bare : Issue
bare = record row { outbox = blank }

abbrev filled : Issue
filled = set_outcome (pending_record outcome 7) bare

abbrev table : Table
table = (text "bead", bare) ∷ []

abbrev one_conflict : ℕ → Attempt
one_conflict n = if n == 4 then conflicts else commits

emits : emit_body outcome 7 bare ≡ updates filled (pending_record outcome 7)
unfolding emit_body decide_emit outcome_record_from
emits = refl

row_found : lookup (text "bead") table ≡ some bare
unfolding lookup Str-discrete ℕ_discrete
row_found = refl

only_four : (k : ℕ) → 3 < k → k < 5 → k ≡ 4
only_four k h l = omega arith

gets_through :
    mutate_issue one_conflict (λ _. false) (text "bead") (emit_body outcome 7) table
    ≡ (ok (pending_record outcome 7), insert (text "bead") filled table)
unfolding ℕ_discrete
gets_through =
    mutate_issue-commits (text "bead") (emit_body outcome 7) bare filled (pending_record outcome 7)
      table 3 one_conflict (λ _. false) row_found emits (omega arith) refl
      (λ k h l. ap one_conflict (only_four k h l)) (λ k h l. refl)

mutate_issue-commits_example :
    mutate_issue one_conflict (λ _. false) (text "bead") (emit_body outcome 7) table
    ≡ (ok (pending_record outcome 7), insert (text "bead") filled table)
unfolding ℕ_discrete
mutate_issue-commits_example =
    mutate_issue-commits (text "bead") (emit_body outcome 7) bare filled (pending_record outcome 7)
      table 3 one_conflict (λ _. false) row_found emits (omega arith) refl
      (λ k h l. ap one_conflict (only_four k h l)) (λ k h l. refl)

emitted : (emit_outcome one_conflict (λ _. false) 7 outcome table).0 ≡ ok (pending_record outcome 7)
unfolding emit_outcome
emitted = rw outcome_valid (ap (λ m. m.0) gets_through)

outcome_utf8 : all valid_utf8 (texts outcome) ≡ true
unfolding valid_utf8
outcome_utf8 = refl

inspect-emit_example :
    inspect_outcome (text "bead") (emit_outcome one_conflict (λ _. false) 7 outcome table).1
    ≡ ok (pending_record outcome 7)
unfolding ℕ_discrete
inspect-emit_example =
    inspect-emit one_conflict (λ _. false) 7 outcome (pending_record outcome 7) table outcome_utf8
      refl emitted
