-- ===== src/Legacy/Transition.antt =====
-- legacy_outcome_reconciler.go: the events of the canonical issues that bring an outcome about.
use gas_city.Prelude.{
  if◌then◌else◌, ◌==◌, nat_eq, Str, text_eq, int_eq, ℤ, text, Map, lookup, insert, Bool, false,
  ◌&&◌, ◌||◌, not, Option, none, some, List, [], ◌∷◌, ◌++◌,
}
use gas_city.Errors.{
  Check, ◌>>=◌, Error, Result, ok, err, rows_failed, transition_unreadable, event_value_unsupported,
}
use gas_city.Contracts.Event.{Time}
use gas_city.Legacy.Metadata.{LegacyFailure, LegacyEvent, Metadata, has_outcome}
use gas_city.Legacy.Text.{trim_space}
use gas_city.Outcomes.Records.{OutcomeRecord, FinalizationReceipt}

-- A member of a JSON object that a new value is: a string, an object, or another.
pub data Field : Type 0 where
  string : Str → Field
  object : Metadata → Field
  other : Field

-- The new value of an event: null, a string, an object, or another.
pub data Patch : Type 0 where
  absent unsupported : Patch
  scalar : Str → Patch
  fields : Map Field → Patch

-- legacyNonOutcomeDisposition
pub record Disposition : Type 0 where
  pub contract_version : ℤ
  pub disposition : Str
  pub work_id : Str
  pub transition_id : Str
  pub recorded_by : Str
  pub recorded_at : Time

-- What `json.Unmarshal` and `time.ParseInLocation` make of a text. A map may be nil.
pub record Decoding : Type 0 where
  pub metadata : Str → Result (Option Metadata)
  pub snapshot : Str → Result (Str × Option Metadata)
  pub value : Str → Result Patch
  pub outbox : Str → Result OutcomeRecord
  pub receipt : Str → Result FinalizationReceipt
  pub disposition : Str → Result Disposition
  pub time : Str → Result Time

-- A row of the query for events.
pub record EventRow : Type 0 where
  pub id : Str
  pub issue_id : Str
  pub event_type : Str
  pub actor : Str
  pub old_value : Str
  pub new_value : Str
  pub created_at : Str

-- The answer of a query: its rows, each with the error of its scan, and the error of the iteration.
pub record Rows {ℓ} (A : Type ℓ) : Type ℓ where
  pub rows : List (Result A)
  pub iterated : Check
  pub closed : Check

abbrev pub or_empty : Option Metadata → Metadata
or_empty none = []
or_empty (some m) = m

abbrev pub is_null : Str → Bool
is_null raw = raw == [] || raw == text "null"

-- decodeLegacyOutcomeSnapshot
unfoldable pub decode_snapshot : Decoding → Str → Result (Str × Metadata)
decode_snapshot d raw =
    if is_null raw then ok ([], []) else (d.snapshot raw >>= λ s. ok (s.0, or_empty s.1))

abbrev opens_json : Str → Bool
opens_json [] = false
opens_json (b ∷ s) = b == b'{' || b == b'['

-- A new value that is no JSON: the reason of a close or of a reopening.
abbrev unreadable_value : Str → Str → Error → Result Patch
unreadable_value event_type raw e =
    if (event_type == text "closed" || event_type == text "reopened")
      && not (opens_json (trim_space raw))
    then ok absent
    else err e

abbrev read_value : Decoding → Str → Str → Result Patch
read_value d event_type raw =
    if is_null raw
    then ok absent
    else elim (d.value raw) [ ok p ↦ ok p | err e ↦ unreadable_value event_type raw e ]

abbrev patched_status : Option Field → Str → Str
patched_status (some (string s)) status = s
patched_status _ status = status

abbrev patched_metadata : Option Field → Metadata → Metadata
patched_metadata (some (object m)) metadata = m
patched_metadata _ metadata = metadata

abbrev patched : Str → Str → Metadata → Patch → Result (Str × Metadata)
patched event_type status metadata absent = ok (status, metadata)
patched event_type status metadata unsupported = err event_value_unsupported
patched event_type status metadata (scalar s) =
    ok (if event_type == text "status_changed" then s else status, metadata)
patched event_type status metadata (fields m) = ok (
  patched_status (lookup (text "status") m) status,
  patched_metadata (lookup (text "metadata") m) metadata,
)

abbrev status_after : Str → Str → Str
status_after event_type status =
    if event_type == text "closed"
    then text "closed"
    else if event_type == text "reopened"
    then text "open"
    else status

-- applyLegacyOutcomeEvent
unfoldable pub apply_event : Decoding → Str → Str → Metadata → Str → Result (Str × Metadata)
apply_event d event_type old_status old_metadata raw = do
  patch ← read_value d event_type raw
  after ← patched event_type old_status old_metadata patch
  ok (status_after event_type after.0, after.1)

-- What a row of an event comes to.
pub data Reading : Type 0 where
  unread : LegacyFailure → Reading
  introduces : LegacyEvent → Reading
  passes_by : Reading

abbrev pub failure_of : EventRow → Time → Error → LegacyFailure
failure_of row at e = record {
  work_id = row.issue_id;
  transition_id = row.id;
  transition_at = at;
  error = e;
}

abbrev pub transition_of : EventRow → Time → Str × Metadata → Str × Metadata → LegacyEvent
transition_of row at old new = record {
  id = row.id;
  event_type = row.event_type;
  actor = row.actor;
  new_value = row.new_value;
  created_at = at;
  old_status = old.0;
  old_metadata = old.1;
  status = new.0;
  metadata = new.1;
}

abbrev pub judged : EventRow → Time → Str × Metadata → Str × Metadata → Reading
judged row at old new =
    if not (has_outcome old.0 old.1) && has_outcome new.0 new.1
    then introduces (transition_of row at old new)
    else passes_by

-- The body of the loop over the rows of events.
unfoldable pub read_row : Decoding → EventRow → Reading
unfolding decode_snapshot apply_event
read_row d row = elim (d.time row.created_at) [
  | err e ↦ unread (failure_of row 0 (transition_unreadable "timestamp" e))
  | ok at ↦ elim (decode_snapshot d row.old_value) [
    | err e ↦ unread (failure_of row at (transition_unreadable "old snapshot" e))
    | ok old ↦ elim (apply_event d row.event_type old.0 old.1 row.new_value) [
      | err e ↦ unread (failure_of row at (transition_unreadable "new value" e))
      | ok new ↦ judged row at old new
    ]
  ]
]

-- The events selected so far, by issue, and the failures.
abbrev pub Selection : Type 0
Selection = Map LegacyEvent × List LegacyFailure

abbrev pub take_reading : Str → Reading → Selection → Selection
take_reading id (unread f) (selected, failures) = (selected, failures ++ (f ∷ []))
take_reading id (introduces e) (selected, failures) = (insert id e selected, failures)
take_reading id passes_by s = s

-- The loop over the rows of events.
unfoldable pub select_events : Decoding → List (Result EventRow) → Selection → Result Selection
unfolding read_row
select_events d [] s = ok s
select_events d (err e ∷ rows) s = err (rows_failed "scan transition" e)
select_events d (ok row ∷ rows) s =
    select_events d rows (take_reading row.issue_id (read_row d row) s)
