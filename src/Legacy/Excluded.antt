-- ===== src/Legacy/Excluded.antt =====
-- legacy_outcome_reconciler.go: a transition is set aside only on exact grounds.
use gas_city.Prelude.{
  ltb, if◌then◌else◌, true_not_false, &&-both, ◌==◌, nat_eq, Str, text_eq, int_eq, text, pos, ◌≡◌,
  refl, sym, ap, ◌∙◌, ◌⊎◌, inl, inr, Bool, true, false, ◌&&◌, not, Option, none, some, [], arith,
}
use gas_city.Errors.{
  ◌>>=◌, ◌>>◌, require, wrap, >>-ok, err_not_ok, >>=-ok, wrap-ok, ok_eq, require-ok, Error, Result,
  ok, err, finalization_refused, finalization_undecoded, finalization_inexact, disposition_refused,
  disposition_undecoded,
}
use gas_city.Legacy.Suppression.{
  both, check_finalization, receipt_in, record_in, non_outcome_key, preserves, one_outbox,
  one_receipt, finalization_key, check_disposition, is_finalization, is_dispositioned,
  has_no_finalization,
}
use gas_city.Legacy.Metadata.{LegacyIssue, LegacyEvent, metadata_string}
use gas_city.Legacy.Transition.{Decoding, Disposition}
use gas_city.Outcomes.Records.{FinalizationReceipt, OutcomeRecord}
use gas_city.Canonical.Finalize.{matches_record}
use gas_city.Canonical.Outbox.{is_acknowledged}
use gas_city.Legacy.Discover.{judge, no_outcome, is_covered, unless_excluded, envelope_verdict}
use gas_city.Contracts.Identifiers.{validate_segment}
use gas_city.Legacy.Text.{trim_space}
use gas_city.Contracts.Event.{is_zero}
use gas_city.Legacy.Envelopes.{legacy_envelope}
use gas_city.Outcomes.Envelope.{OutcomeReady}

-- The transition is the close of an acknowledged generation: the receipts in the event and in the
-- issue are valid and the same, and agree with the record that the work held before the close.
pub record Finalizes (d : Decoding) (i : LegacyIssue) (e : LegacyEvent) : Type 0 where
  pub closes : e.event_type == text "closed" ≡ true
  pub receipt : FinalizationReceipt
  pub outcome : OutcomeRecord
  pub in_event : receipt_in d e.metadata ≡ ok (some receipt)
  pub before : record_in d e.old_metadata ≡ ok (some outcome)
  pub of_work : receipt.work_id == i.id ≡ true
  pub of_outcome : matches_record receipt outcome ≡ true
  pub kept : one_outbox i e ≡ true
  pub same : one_receipt i e ≡ true

-- A valid record that names this issue and this transition, and is not older, sets it aside.
pub record SetAside (d : Decoding) (i : LegacyIssue) (e : LegacyEvent) : Type 0 where
  pub disposition : Disposition
  pub stored : d.disposition (metadata_string i.metadata non_outcome_key) ≡ ok disposition
  pub of_work : disposition.work_id == i.id ≡ true
  pub of_transition : disposition.transition_id == e.id ≡ true
  pub not_before : ltb disposition.recorded_at e.created_at ≡ false

both-ok {ℓ} :
    {A : Type ℓ} (e : Error) (x y : Option A) (p : A × A)
    → both e x y ≡ ok p
    → (x ≡ some p.0) × (y ≡ some p.1)
both-ok e (some a) (some b) p h =
    let same = ok_eq h in (ap (λ q. some q.0) same, ap (λ q. some q.1) same)
both-ok e none y p h = absurd (err_not_ok h)
both-ok e (some a) none p h = absurd (err_not_ok h)

preserved :
    (i : LegacyIssue) (e : LegacyEvent) (f : FinalizationReceipt) (o : Option OutcomeRecord)
    → preserves i e f o ≡ true
    → (r : OutcomeRecord) × (o ≡ some r) × (one_outbox i e ≡ true) × (matches_record f r ≡ true)
preserved i e f (some r) h =
    let (_, rest) = &&-both (is_acknowledged r.state) _ h in
    let (kept, matches) = &&-both (one_outbox i e) (matches_record f r) rest in
    (r, refl, kept, matches)
preserved i e f none h = absurd (ground arith)

pub check_finalization-Finalizes :
    (d : Decoding) (i : LegacyIssue) (e : LegacyEvent)
    → check_finalization d i e ≡ ok tt
    → Finalizes d i e
unfolding check_finalization
check_finalization-Finalizes d i e h =
    let (closed, h1) =
      require-ok
        (e.event_type == text "closed" && (e.status == text "closed" && i.status == text "closed"))
        _ _ h in
    let (_, h2) = require-ok (metadata_string e.old_metadata finalization_key == []) _ _ h1 in
    let (_, h3) =
      require-ok (not (trim_space e.old_status == []) && not (e.old_status == text "closed")) _ _
        h2 in
    let (event_receipt, k1, h4) =
      >>=-ok (wrap (finalization_undecoded "event") (receipt_in d e.metadata)) _ h3 in
    let (current_receipt, _, h5) =
      >>=-ok (wrap (finalization_undecoded "current") (receipt_in d i.metadata)) _ h4 in
    let (receipts, k2, h6) =
      >>=-ok (both (finalization_inexact "receipt is missing") event_receipt current_receipt) _
        h5 in
    let (work, h7) = require-ok (receipts.0.work_id == i.id && receipts.1.work_id == i.id) _ _ h6 in
    let (event_record, _, h8) =
      >>=-ok (wrap (finalization_undecoded "event outbox") (record_in d e.metadata)) _ h7 in
    let (current_record, _, h9) =
      >>=-ok (wrap (finalization_undecoded "current outbox") (record_in d i.metadata)) _ h8 in
    let (records, _, h10) =
      >>=-ok (both (finalization_inexact "outbox is missing") event_record current_record) _ h9 in
    let (old_record, k3, h11) =
      >>=-ok (wrap (finalization_undecoded "pre-close outbox") (record_in d e.old_metadata)) _
        h10 in
    let (keeps, h12) = require-ok (preserves i e receipts.0 old_record) _ _ h11 in
    let (r, old, kept, matches) = preserved i e receipts.0 old_record keeps in
    let same =
      require-true
        (one_receipt i e
          && (matches_record receipts.0 records.0 && matches_record receipts.1 records.1))
        _ h12 in
    record {
      closes = (&&-both (e.event_type == text "closed") _ closed).0;
      receipt = receipts.0;
      outcome = r;
      in_event =
          wrap-ok (finalization_undecoded "event") (receipt_in d e.metadata) k1
          ∙ ap ok (both-ok _ event_receipt current_receipt receipts k2).0;
      before =
          wrap-ok (finalization_undecoded "pre-close outbox") (record_in d e.old_metadata) k3
          ∙ ap ok old;
      of_work = (&&-both (receipts.0.work_id == i.id) _ work).0;
      of_outcome = matches;
      kept = kept;
      same = (&&-both (one_receipt i e) _ same).0;
    }
  where
    require-true : (b : Bool) (x : Error) → require b x ≡ ok tt → b ≡ true
    require-true true x k = refl
    require-true false x k = absurd (err_not_ok k)

check_disposition-SetAside :
    (d : Decoding) (n : Disposition) (i : LegacyIssue) (e : LegacyEvent)
    → d.disposition (metadata_string i.metadata non_outcome_key) ≡ ok n
    → check_disposition n i e ≡ ok tt
    → SetAside d i e
unfolding check_disposition
check_disposition-SetAside d n i e stored h =
    let (_, h1) = require-ok (n.contract_version == pos 1) _ _ h in
    let (_, h2) = require-ok (n.disposition == text "non-outcome") _ _ h1 in
    let (_, h3) = >>-ok (validate_segment "non-outcome work id" n.work_id) _ h2 in
    let (_, h4) = >>-ok (validate_segment "non-outcome transition id" n.transition_id) _ h3 in
    let (_, h5) = >>-ok (validate_segment "non-outcome recorded by" n.recorded_by) _ h4 in
    let (_, h6) = require-ok (not (is_zero n.recorded_at)) _ _ h5 in
    let (work, h7) = require-ok (n.work_id == i.id) _ _ h6 in
    let (transition, h8) = require-ok (n.transition_id == e.id) _ _ h7 in
    record {
      disposition = n;
      stored = stored;
      of_work = work;
      of_transition = transition;
      not_before = ground arith;
    }

finalization-Finalizes :
    (d : Decoding) (i : LegacyIssue) (e : LegacyEvent)
    → is_finalization d i e ≡ ok true
    → Finalizes d i e
unfolding is_finalization
finalization-Finalizes d i e h = go (has_no_finalization i e) h
  where
    go :
        (b : Bool)
        → (if b then ok false else (check_finalization d i e >> ok true)) ≡ ok true
        → Finalizes d i e
    go true k = absurd (true_not_false (sym (ok_eq k)))
    go false k = check_finalization-Finalizes d i e (>>-ok (check_finalization d i e) (ok true) k).0

dispositioned-SetAside :
    (d : Decoding) (i : LegacyIssue) (e : LegacyEvent)
    → is_dispositioned d i e ≡ ok true
    → SetAside d i e
unfolding is_dispositioned
dispositioned-SetAside d i e h = go (metadata_string i.metadata non_outcome_key == []) h
  where
    read : Result Disposition
    read = d.disposition (metadata_string i.metadata non_outcome_key)

    go :
        (b : Bool)
        → (if b
            then ok false
            else (wrap disposition_undecoded read >>= λ n. check_disposition n i e >> ok true))
          ≡ ok true
        → SetAside d i e
    go true k = absurd (true_not_false (sym (ok_eq k)))
    go false k =
        let (n, found, rest) = >>=-ok (wrap disposition_undecoded read) _ k in
        check_disposition-SetAside d n i e (wrap-ok disposition_undecoded read found)
          (>>-ok (check_disposition n i e) (ok true) rest).0

-- A transition that is passed over without a failure is covered by the outcome that exists, or is the
-- close of an acknowledged generation, or is set aside by a record that names it.
pub judge_excludes :
    (d : Decoding) (store_ref : Str) (i : LegacyIssue) (e : LegacyEvent)
    → judge d store_ref i e ≡ no_outcome
    → (is_covered i.existing e ≡ true) ⊎ (Finalizes d i e ⊎ SetAside d i e)
unfolding judge
judge_excludes d store_ref i e h =
    go (is_covered i.existing e) (is_finalization d i e) (is_dispositioned d i e) refl refl refl h
  where
    go :
        (b : Bool) (f n : Result Bool)
        → is_covered i.existing e ≡ b
        → is_finalization d i e ≡ f
        → is_dispositioned d i e ≡ n
        → (if b
            then no_outcome
            else unless_excluded finalization_refused i e f (
                unless_excluded disposition_refused i e n
                  (envelope_verdict i e (legacy_envelope store_ref i e))))
          ≡ no_outcome
        → (is_covered i.existing e ≡ true) ⊎ (Finalizes d i e ⊎ SetAside d i e)
    go true f n c k l h' = inl c
    go false (ok true) n c k l h' = inr (inl (finalization-Finalizes d i e k))
    go false (err x) n c k l h' = absurd (ground arith)
    go false (ok false) (ok true) c k l h' = inr (inr (dispositioned-SetAside d i e l))
    go false (ok false) (err x) c k l h' = absurd (ground arith)
    go false (ok false) (ok false) c k l h' = absurd (envelope (legacy_envelope store_ref i e) h')
      where
        envelope : (m : Result OutcomeReady) → ¬ (envelope_verdict i e m ≡ no_outcome)
        envelope (ok o) h'' = absurd (ground arith)
        envelope (err x) h'' = absurd (ground arith)
