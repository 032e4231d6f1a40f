-- ===== src/Legacy/Grounded.antt =====
-- legacy_outcome_reconciler.go: every envelope that DiscoverLegacyOutcomes answers has its grounds.
use gas_city.Prelude.{
  if◌then◌else◌, all, All, ◌==◌, nat_eq, text_eq, int_eq, text, Map, lookup, ◌≡◌, refl, subst, inl,
  inr, Bool, true, false, ◌||◌, not, Option, none, some, List, [], ◌∷◌, ◌++◌, arith,
}
use gas_city.Errors.{
  wrap, >>-ok, err_not_ok, >>=-ok, wrap-ok, ok_eq, require-ok, Result, ok, err, legacy_store_ref,
  rows_failed, candidate_unreadable,
}
use gas_city.Legacy.Discover.{
  skipped, no_outcome, sift, Sifted, sift_rows, Verdict, judge_all, discover_legacy_outcomes,
  CandidateRow, Found, Discovery, sift_issue, candidate, take_sifted, emits, malformed_candidate,
  judge, verdict_for, take_verdict, is_covered, fails, issue_of, ids_of, row_failure,
  decode_metadata,
}
use gas_city.Legacy.Transition.{Decoding, Rows}
use gas_city.Legacy.Metadata.{
  LegacyIssue, issue_is_synthetic, LegacyFailure, LegacyEvent, is_non_terminal_step, has_outcome,
  Metadata,
}
use gas_city.Outcomes.Envelope.{OutcomeReady, validate_store_ref}
use gas_city.Legacy.Introduced.{
  Introduced, FromRow, AllOf, transition_events-AllOf, read_row-Introduced, Listed,
}
use gas_city.Contracts.Event.{is_zero}
use gas_city.Legacy.Superseding.{IsEnvelopeOf, judge-emits, legacy_envelope-IsEnvelopeOf}
use gas_city.Legacy.Batches.{transition_events}
use gas_city.Outcomes.Records.{OutcomeRecord}
use gas_city.Legacy.Suppression.{record_in}

-- A candidate holds an outcome, and is neither synthetic nor a step that others wait for.
pub record IsCandidate (i : LegacyIssue) : Type 0 where
  pub real : issue_is_synthetic i ≡ false
  pub ends : is_non_terminal_step i ≡ false
  pub holds : has_outcome i.status i.metadata ≡ true

sift_issue-IsCandidate :
    (i j : LegacyIssue) → issue_is_synthetic i ≡ false → sift_issue i ≡ candidate j → IsCandidate j
sift_issue-IsCandidate i j real h =
    go (is_non_terminal_step i) (has_outcome i.status i.metadata) refl refl h
  where
    go :
        (b c : Bool)
        → is_non_terminal_step i ≡ b
        → has_outcome i.status i.metadata ≡ c
        → (if b || not c then skipped else candidate i) ≡ candidate j
        → IsCandidate j
    go false true k l m =
        let same : i ≡ j = ground arith in
        subst IsCandidate same (record { real = real; ends = k; holds = l })
    go true c k l m = absurd (ground arith)
    go false false k l m = absurd (ground arith)

sift-IsCandidate :
    (d : Decoding) (row : CandidateRow) (j : LegacyIssue) → sift d row ≡ candidate j → IsCandidate j
unfolding sift issue_is_synthetic
sift-IsCandidate d row j h = start (decode_metadata d row.metadata) h
  where
    read :
        (m : Metadata) (x : Result (Option OutcomeRecord))
        → issue_is_synthetic (issue_of row m none) ≡ false
        → (elim x as (λ _. Sifted) [
          | err e ↦
              malformed_candidate (row_failure row (candidate_unreadable "existing outcome" e))
          | ok existing ↦ sift_issue (issue_of row m existing)
        ])
          ≡ candidate j
        → IsCandidate j
    read m (ok existing) real k = sift_issue-IsCandidate (issue_of row m existing) j real k
    read m (err e) real k = absurd (ground arith)

    real_one :
        (m : Metadata) (b : Bool)
        → issue_is_synthetic (issue_of row m none) ≡ b
        → (if b then skipped else (elim (record_in d m) as (λ _. Sifted) [
          | err e ↦
              malformed_candidate (row_failure row (candidate_unreadable "existing outcome" e))
          | ok existing ↦ sift_issue (issue_of row m existing)
        ]))
          ≡ candidate j
        → IsCandidate j
    real_one m false real k = read m (record_in d m) real k
    real_one m true real k = absurd (ground arith)

    unreadable :
        (b : Bool) (f : LegacyFailure)
        → ¬ ((if b then malformed_candidate f else skipped) ≡ candidate j)
    unreadable true f k = absurd (ground arith)
    unreadable false f k = absurd (ground arith)

    start :
        (x : Result Metadata)
        → (elim x as (λ _. Sifted) [
          | err e ↦
              if row.status == text "closed"
              then malformed_candidate (row_failure row (candidate_unreadable "metadata" e))
              else skipped
          | ok m ↦
              if issue_is_synthetic (issue_of row m none)
              then skipped
              else elim (record_in d m) as (λ _. Sifted) [
                | err e ↦
                    malformed_candidate
                      (row_failure row (candidate_unreadable "existing outcome" e))
                | ok existing ↦ sift_issue (issue_of row m existing)
              ]
        ])
          ≡ candidate j
        → IsCandidate j
    start (ok m) k = real_one m (issue_is_synthetic (issue_of row m none)) refl k
    start (err e) k = absurd (unreadable (row.status == text "closed") _ k)

All-append {ℓ κ} :
    {A : Type ℓ} (P : A → Type κ) (xs : List A) (x : A) → All P xs → P x → All P (xs ++ (x ∷ []))
All-append P [] x all one = (one, tt)
All-append P (y ∷ ys) x (first, rest) one = (first, All-append P ys x rest one)

-- What holds of each candidate that the rows come to.
module _ {κ} (P : LegacyIssue → Type κ) where
  take_sifted-All :
      (v : Sifted) (s : List LegacyIssue × List LegacyFailure)
      → ((j : LegacyIssue) → v ≡ candidate j → P j)
      → All P s.0
      → All P (take_sifted v s).0
  take_sifted-All (candidate i) s one rest = All-append P s.0 i rest (one i refl)
  take_sifted-All (malformed_candidate f) s one rest = rest
  take_sifted-All skipped s one rest = rest

  sift_rows-All :
      (d : Decoding) (rows : List (Result CandidateRow))
      (s out : List LegacyIssue × List LegacyFailure)
      → ((row : CandidateRow) (j : LegacyIssue) → Listed row rows → sift d row ≡ candidate j → P j)
      → All P s.0
      → sift_rows d rows s ≡ ok out
      → All P out.0
  unfolding sift_rows
  sift_rows-All d [] s out each rest h = subst (λ x. All P x.0) (ok_eq h) rest
  sift_rows-All d (err e ∷ rows) s out each rest h = absurd (err_not_ok h)
  sift_rows-All d (ok row ∷ rows) s out each rest h =
      sift_rows-All d rows (take_sifted (sift d row) s) out (λ r j there. each r j (inr there))
        (take_sifted-All (sift d row) s (λ j. each row j (inl refl)) rest) h

-- The candidate is what a row comes to that the query for candidates answers.
pub record FromCandidate (s : Discovery) (i : LegacyIssue) : Type 0 where
  pub answer : Rows CandidateRow
  pub answered : s.candidates ≡ ok answer
  pub row : CandidateRow
  pub listed : Listed row answer.rows
  pub sifted : sift s.decoding row ≡ candidate i

-- The grounds of an envelope: a candidate from a row of the query for candidates, and an event from a
-- row that the query for events answers for this candidate. The envelope is the one that the two come
-- to; the event brought an outcome about, after the outcome that the candidate may have.
pub record IsGrounded (s : Discovery) (o : OutcomeReady) : Type 0 where
  pub issue : LegacyIssue
  pub event : LegacyEvent
  pub issue_row : FromCandidate s issue
  pub event_row : FromRow s.decoding s.events issue.id event
  pub judged : judge s.decoding s.store_ref issue event ≡ emits o
  pub is_candidate : IsCandidate issue
  pub introduced : Introduced event
  pub is_envelope : IsEnvelopeOf s.store_ref issue event o
  pub uncovered : is_covered issue.existing event ≡ false

judge-IsGrounded :
    (s : Discovery) (i : LegacyIssue) (e : LegacyEvent) (o : OutcomeReady)
    → FromCandidate s i
    → FromRow s.decoding s.events i.id e
    → judge s.decoding s.store_ref i e ≡ emits o
    → IsGrounded s o
judge-IsGrounded s i e o real new h =
    let (uncovered, _, _, made) = judge-emits s.decoding s.store_ref i e o h in
    record {
      issue = i;
      event = e;
      issue_row = real;
      event_row = new;
      judged = h;
      is_candidate = sift-IsCandidate s.decoding real.row i real.sifted;
      introduced = read_row-Introduced s.decoding new.row e new.read;
      is_envelope = legacy_envelope-IsEnvelopeOf s.store_ref i e o made;
      uncovered = uncovered;
    }

verdict_for-IsGrounded :
    (s : Discovery) (events : Map LegacyEvent) (i : LegacyIssue) (o : OutcomeReady)
    → AllOf (FromRow s.decoding s.events) events
    → FromCandidate s i
    → verdict_for s.decoding s.store_ref events i ≡ emits o
    → IsGrounded s o
verdict_for-IsGrounded s events i o rows real h = go (lookup i.id events) refl h
  where
    go :
        (x : Option LegacyEvent)
        → lookup i.id events ≡ x
        → (elim x as (λ _. Verdict) [
          | none ↦ no_outcome
          | some e ↦ judge s.decoding s.store_ref i e
        ])
          ≡ emits o
        → IsGrounded s o
    go (some e) k l = judge-IsGrounded s i e o real (rows i.id e k) l
    go none k l = absurd (ground arith)

take_verdict-IsGrounded :
    (s : Discovery) (v : Verdict) (found : Found)
    → ((o : OutcomeReady) → v ≡ emits o → IsGrounded s o)
    → All (IsGrounded s) found.0
    → All (IsGrounded s) (take_verdict v found).0
take_verdict-IsGrounded s (emits o) found one rest =
    All-append (IsGrounded s) found.0 o rest (one o refl)
take_verdict-IsGrounded s (fails f) found one rest = rest
take_verdict-IsGrounded s no_outcome found one rest = rest

judge_all-IsGrounded :
    (s : Discovery) (events : Map LegacyEvent) (is : List LegacyIssue) (found : Found)
    → AllOf (FromRow s.decoding s.events) events
    → All (FromCandidate s) is
    → All (IsGrounded s) found.0
    → All (IsGrounded s) (judge_all s.decoding s.store_ref events is found).0
unfolding judge_all
judge_all-IsGrounded s events [] found new real rest = rest
judge_all-IsGrounded s events (i ∷ is) found new (one, real) rest =
    judge_all-IsGrounded s events is _ new real (
      take_verdict-IsGrounded s (verdict_for s.decoding s.store_ref events i) found
        (λ o. verdict_for-IsGrounded s events i o new one) rest)

-- Where DiscoverLegacyOutcomes answers, each envelope comes of a row that the query for candidates
-- answers and of a row that the query for events answers for this candidate: it is what the two are
-- judged to, is valid, of this store, of the candidate's work and of the event's time, with the event
-- as its token; the candidate is neither synthetic nor a step that others wait for; before the event
-- the work had no outcome, and after it has one; and no outcome of the candidate covers the event.
pub discover-IsGrounded :
    (s : Discovery) (found : Found)
    → discover_legacy_outcomes s ≡ ok found
    → All (IsGrounded s) found.0
unfolding discover_legacy_outcomes
discover-IsGrounded s found h =
    let (_, h1) = require-ok (not (is_zero s.rollout_epoch)) _ _ h in
    let (_, h2) = >>-ok (wrap legacy_store_ref (validate_store_ref s.store_ref)) _ h1 in
    let (_, h3) = >>-ok s.time_zone_verified _ h2 in
    let (answer, answered, h4) = >>=-ok (wrap (rows_failed "query candidates") s.candidates) _ h3 in
    let (sifted, k1, h5) = >>=-ok (sift_rows s.decoding answer.rows ([], [])) _ h4 in
    let (_, h6) = >>-ok (wrap (rows_failed "iterate candidates") answer.iterated) _ h5 in
    let (_, h7) = >>-ok (wrap (rows_failed "close candidates") answer.closed) _ h6 in
    let (selection, k2, h8) =
      >>=-ok (transition_events s.decoding s.events (ids_of sifted.0)) _ h7 in
    let real =
      sift_rows-All (FromCandidate s) s.decoding answer.rows ([], []) sifted
        (λ row j there here. record {
          answer = answer;
          answered = wrap-ok (rows_failed "query candidates") s.candidates answered;
          row = row;
          listed = there;
          sifted = here;
        })
        tt k1 in
    subst (λ x. All (IsGrounded s) x.0) (ok_eq h8)
      (judge_all-IsGrounded s selection.0 sifted.0 ([], sifted.1 ++ selection.1)
        (transition_events-AllOf s.decoding s.events (ids_of sifted.0) selection k2) real tt)
