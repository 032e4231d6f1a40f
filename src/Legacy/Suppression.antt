-- ===== src/Legacy/Suppression.antt =====
-- legacy_outcome_reconciler.go: the transitions that are no outcomes, a finalization and a
-- disposition.
use gas_city.Prelude.{
  ltb, if◌then◌else◌, ◌==◌, nat_eq, Str, text_eq, int_eq, text, pos, Bool, true, false, ◌&&◌, not,
  Option, none, some, [],
}
use gas_city.Errors.{
  Check, ◌>>=◌, ◌>>◌, require, wrap, Error, Result, ok, err, finalization_undecoded,
  finalization_inexact, disposition_undecoded, disposition_inexact,
}
use gas_city.Legacy.Transition.{Decoding, Disposition}
use gas_city.Legacy.Metadata.{LegacyIssue, Metadata, LegacyEvent, metadata_string, coded_at}
use gas_city.Outcomes.Records.{FinalizationReceipt, OutcomeRecord}
use gas_city.Contracts.Identifiers.{validate_segment}
use gas_city.Contracts.Event.{is_zero}
use gas_city.Canonical.Issue.{finalization_from, outcome_record_from}
use gas_city.Legacy.Text.{trim_space}
use gas_city.Canonical.Outbox.{is_acknowledged}
use gas_city.Canonical.Finalize.{matches_record}

abbrev pub finalization_key : Str
finalization_key = text "gc.coordinator_outcome.finalization"

abbrev pub outbox_key : Str
outbox_key = text "gc.coordinator_outcome.outbox"

abbrev pub non_outcome_key : Str
non_outcome_key = text "gc.coordinator_outcome.non_outcome"

-- outcomeFinalizationFromMetadata and outcomeRecordFromMetadata, on metadata.
abbrev pub receipt_in : Decoding → Metadata → Result (Option FinalizationReceipt)
receipt_in d m = finalization_from (coded_at d.receipt m finalization_key)

abbrev pub record_in : Decoding → Metadata → Result (Option OutcomeRecord)
record_in d m = outcome_record_from (coded_at d.outbox m outbox_key)

abbrev pub both {ℓ} : {A : Type ℓ} → Error → Option A → Option A → Result (A × A)
both e (some a) (some b) = ok (a, b)
both e _ _ = err e

-- The three texts of the outbox are one, and not empty.
abbrev pub one_outbox : LegacyIssue → LegacyEvent → Bool
one_outbox i e =
    let old = metadata_string e.old_metadata outbox_key in
    not (old == [])
    && (old == metadata_string e.metadata outbox_key
        && old == metadata_string i.metadata outbox_key)

abbrev pub preserves : LegacyIssue → LegacyEvent → FinalizationReceipt → Option OutcomeRecord → Bool
preserves i e f none = false
preserves i e f (some r) = is_acknowledged r.state && (one_outbox i e && matches_record f r)

abbrev pub one_receipt : LegacyIssue → LegacyEvent → Bool
one_receipt i e =
    metadata_string e.metadata finalization_key == metadata_string i.metadata finalization_key

-- The checks of a transition of which some snapshot holds a finalization.
unfoldable pub check_finalization : Decoding → LegacyIssue → LegacyEvent → Check
check_finalization d i e = do
  require
      (e.event_type == text "closed" && (e.status == text "closed" && i.status == text "closed"))
      (finalization_inexact "not a closed transition")
  require (metadata_string e.old_metadata finalization_key == [])
      (finalization_inexact "receipt predates the transition")
  require (not (trim_space e.old_status == []) && not (e.old_status == text "closed"))
      (finalization_inexact "pre-close snapshot is not live work")
  event_receipt ← wrap (finalization_undecoded "event") (receipt_in d e.metadata)
  current_receipt ← wrap (finalization_undecoded "current") (receipt_in d i.metadata)
  receipts ← both (finalization_inexact "receipt is missing") event_receipt current_receipt
  require (receipts.0.work_id == i.id && receipts.1.work_id == i.id)
      (finalization_inexact "work id does not match")
  event_record ← wrap (finalization_undecoded "event outbox") (record_in d e.metadata)
  current_record ← wrap (finalization_undecoded "current outbox") (record_in d i.metadata)
  records ← both (finalization_inexact "outbox is missing") event_record current_record
  old_record ← wrap (finalization_undecoded "pre-close outbox") (record_in d e.old_metadata)
  require (preserves i e receipts.0 old_record)
      (finalization_inexact "does not preserve the pre-close outbox")
  require
      (one_receipt i e
        && (matches_record receipts.0 records.0 && matches_record receipts.1 records.1))
      (finalization_inexact "receipt and outbox conflict")

abbrev pub has_no_finalization : LegacyIssue → LegacyEvent → Bool
has_no_finalization i e =
    metadata_string e.metadata finalization_key == []
    && metadata_string i.metadata finalization_key == []

-- legacyTransitionIsFinalization
unfoldable pub is_finalization : Decoding → LegacyIssue → LegacyEvent → Result Bool
unfolding check_finalization
is_finalization d i e =
    if has_no_finalization i e then ok false else (check_finalization d i e >> ok true)

-- The checks of a disposition.
unfoldable pub check_disposition : Disposition → LegacyIssue → LegacyEvent → Check
check_disposition n i e = do
  require (n.contract_version == pos 1) (disposition_inexact "contract_version is unsupported")
  require (n.disposition == text "non-outcome") (disposition_inexact "disposition is unsupported")
  validate_segment "non-outcome work id" n.work_id
  validate_segment "non-outcome transition id" n.transition_id
  validate_segment "non-outcome recorded by" n.recorded_by
  require (not (is_zero n.recorded_at)) (disposition_inexact "recorded_at is required")
  require (n.work_id == i.id) (disposition_inexact "work_id does not match")
  require (n.transition_id == e.id) (disposition_inexact "transition_id does not match")
  require (not (ltb n.recorded_at e.created_at))
      (disposition_inexact "recorded_at precedes the transition")

-- legacyTransitionIsDispositioned
unfoldable pub is_dispositioned : Decoding → LegacyIssue → LegacyEvent → Result Bool
unfolding check_disposition
is_dispositioned d i e =
    let raw = metadata_string i.metadata non_outcome_key in
    if raw == []
    then ok false
    else (wrap disposition_undecoded (d.disposition raw) >>= λ n.
        check_disposition n i e >> ok true)
