-- ===== src/Legacy/Introduced.antt =====
-- legacy_outcome_reconciler.go: an event that is selected brings an outcome about.
use gas_city.Prelude.{
  if◌then◌else◌, none_not_some, some_eq, ◌==◌, nat_eq, Str, text_eq, ==→≡, int_eq, Map, lookup,
  insert, merge, lookup-insert, lookup-merge, ◌≡◌, refl, sym, subst, ◌∙◌, ◌⊎◌, inl, inr, Bool, true,
  false, ◌&&◌, not, Option, none, some, List, [], ◌∷◌, ◌++◌, arith,
}
use gas_city.Errors.{
  wrap, >>-ok, err_not_ok, >>=-ok, wrap-ok, ok_eq, Result, ok, err, rows_failed,
  transition_unreadable,
}
use gas_city.Legacy.Transition.{
  introduces, unread, passes_by, EventRow, read_row, Reading, select_events, Decoding, Selection,
  take_reading, judged, failure_of, transition_of, apply_event, decode_snapshot, Rows,
}
use gas_city.Legacy.Batches.{transition_batch, transition_events, collect, EventQuery, batches}
use gas_city.Legacy.Metadata.{LegacyEvent, has_outcome, Metadata}
use gas_city.Contracts.Event.{Time}

-- Before the event the issue had no outcome, and after it has one.
pub record Introduced (e : LegacyEvent) : Type 0 where
  pub before : has_outcome e.old_status e.old_metadata ≡ false
  pub after : has_outcome e.status e.metadata ≡ true

judged-Introduced :
    (row : EventRow) (at : Time) (old new : Str × Metadata) (e : LegacyEvent)
    → judged row at old new ≡ introduces e
    → Introduced e
judged-Introduced row at old new e h =
    go (has_outcome old.0 old.1) (has_outcome new.0 new.1) refl refl h
  where
    go :
        (b c : Bool)
        → has_outcome old.0 old.1 ≡ b
        → has_outcome new.0 new.1 ≡ c
        → (if not b && c then introduces (transition_of row at old new) else passes_by)
          ≡ introduces e
        → Introduced e
    go false true k l m =
        let same : transition_of row at old new ≡ e = ground arith in
        subst Introduced same (record { before = k; after = l })
    go true c k l m = absurd (ground arith)
    go false false k l m = absurd (ground arith)

pub read_row-Introduced :
    (d : Decoding) (row : EventRow) (e : LegacyEvent) → read_row d row ≡ introduces e → Introduced e
unfolding read_row
read_row-Introduced d row e h = time (d.time row.created_at) h
  where
    changed :
        (at : Time) (old : Str × Metadata) (m : Result (Str × Metadata))
        → (elim m as (λ _. Reading) [
          | err x ↦ unread (failure_of row at (transition_unreadable "new value" x))
          | ok new ↦ judged row at old new
        ])
          ≡ introduces e
        → Introduced e
    changed at old (ok new) k = judged-Introduced row at old new e k
    changed at old (err x) k = absurd (ground arith)

    snapshot :
        (at : Time) (m : Result (Str × Metadata))
        → (elim m as (λ _. Reading) [
          | err x ↦ unread (failure_of row at (transition_unreadable "old snapshot" x))
          | ok old ↦ elim (apply_event d row.event_type old.0 old.1 row.new_value) [
            | err x ↦ unread (failure_of row at (transition_unreadable "new value" x))
            | ok new ↦ judged row at old new
          ]
        ])
          ≡ introduces e
        → Introduced e
    snapshot at (ok old) k =
        changed at old (apply_event d row.event_type old.0 old.1 row.new_value) k
    snapshot at (err x) k = absurd (ground arith)

    time :
        (m : Result Time)
        → (elim m as (λ _. Reading) [
          | err x ↦ unread (failure_of row 0 (transition_unreadable "timestamp" x))
          | ok at ↦ elim (decode_snapshot d row.old_value) [
            | err x ↦ unread (failure_of row at (transition_unreadable "old snapshot" x))
            | ok old ↦ elim (apply_event d row.event_type old.0 old.1 row.new_value) [
              | err x ↦ unread (failure_of row at (transition_unreadable "new value" x))
              | ok new ↦ judged row at old new
            ]
          ]
        ])
          ≡ introduces e
        → Introduced e
    time (ok at) k = snapshot at (decode_snapshot d row.old_value) k
    time (err x) k = absurd (ground arith)

-- The row is one of the rows that a query answers.
abbrev pub Listed : {A : Type 0} → A → List (Result A) → Type 0
Listed a [] = ⊥
Listed a (x ∷ xs) = (x ≡ ok a) ⊎ Listed a xs

-- What holds of each issue and its event in a selection.
abbrev pub AllOf {κ} : (Str → LegacyEvent → Type κ) → Map LegacyEvent → Type κ
AllOf P m = (id : Str) (e : LegacyEvent) → lookup id m ≡ some e → P id e

module _ {κ} (P : Str → LegacyEvent → Type κ) where
  none-AllOf : AllOf P []
  unfolding lookup
  none-AllOf id e h = absurd (none_not_some h)

  insert-AllOf :
      (m : Map LegacyEvent) (id : Str) (e : LegacyEvent)
      → AllOf P m
      → P id e
      → AllOf P (insert id e m)
  insert-AllOf m id e all_of one wanted f h =
      go (id == wanted) refl (sym (lookup-insert id wanted e m) ∙ h)
    where
      go :
          (b : Bool)
          → (id == wanted) ≡ b
          → (if b then some e else lookup wanted m) ≡ some f
          → P wanted f
      go true same k = subst (P wanted) (some_eq k) (subst (λ x. P x e) (==→≡ id wanted same) one)
      go false same k = all_of wanted f k

  merge-AllOf : (m n : Map LegacyEvent) → AllOf P m → AllOf P n → AllOf P (merge m n)
  merge-AllOf m n left right wanted e h =
      go (lookup wanted n) refl (sym (lookup-merge wanted m n) ∙ h)
    where
      go :
          (o : Option LegacyEvent)
          → lookup wanted n ≡ o
          → (elim o as (λ _. Option LegacyEvent) [ some v ↦ some v | none ↦ lookup wanted m ])
            ≡ some e
          → P wanted e
      go (some v) k l = right wanted e (k ∙ l)
      go none k l = left wanted e l

  take_reading-AllOf :
      (id : Str) (r : Reading) (s : Selection)
      → ((e : LegacyEvent) → r ≡ introduces e → P id e)
      → AllOf P s.0
      → AllOf P (take_reading id r s).0
  take_reading-AllOf id (unread f) s one all_of = all_of
  take_reading-AllOf id (introduces e) s one all_of = insert-AllOf s.0 id e all_of (one e refl)
  take_reading-AllOf id passes_by s one all_of = all_of

  select_events-AllOf :
      (d : Decoding) (rows : List (Result EventRow)) (s out : Selection)
      → ((row : EventRow) (e : LegacyEvent)
          → Listed row rows
          → read_row d row ≡ introduces e
          → P row.issue_id e)
      → AllOf P s.0
      → select_events d rows s ≡ ok out
      → AllOf P out.0
  unfolding select_events
  select_events-AllOf d [] s out each all_of h = subst (λ x. AllOf P x.0) (ok_eq h) all_of
  select_events-AllOf d (err e ∷ rows) s out each all_of h = absurd (err_not_ok h)
  select_events-AllOf d (ok row ∷ rows) s out each all_of h =
      select_events-AllOf d rows (take_reading row.issue_id (read_row d row) s) out
        (λ r e there. each r e (inr there))
        (take_reading-AllOf row.issue_id (read_row d row) s (λ e. each row e (inl refl)) all_of) h

-- The event of an issue is that of a row which the query for a batch of ids answers for the issue.
pub record FromRow (d : Decoding) (query : EventQuery) (id : Str) (e : LegacyEvent) : Type 0 where
  pub batch : List Str
  pub answer : Rows EventRow
  pub answered : query batch ≡ ok answer
  pub row : EventRow
  pub listed : Listed row answer.rows
  pub of_issue : row.issue_id ≡ id
  pub read : read_row d row ≡ introduces e

transition_batch-AllOf :
    (d : Decoding) (query : EventQuery) (ids : List Str) (out : Selection)
    → transition_batch d query ids ≡ ok out
    → AllOf (FromRow d query) out.0
unfolding transition_batch
transition_batch-AllOf d query [] out h =
    subst (λ x. AllOf (FromRow d query) x.0) (ok_eq h) (none-AllOf (FromRow d query))
transition_batch-AllOf d query (id ∷ ids) out h =
    let (answer, answered, h1) =
      >>=-ok (wrap (rows_failed "query transitions") (query (id ∷ ids))) _ h in
    let (s, selected, h2) = >>=-ok (select_events d answer.rows ([], [])) _ h1 in
    let (_, h3) = >>-ok (wrap (rows_failed "iterate transitions") answer.iterated) (ok s) h2 in
    select_events-AllOf (FromRow d query) d answer.rows ([], []) out
      (λ row e there read. record {
        batch = id ∷ ids;
        answer = answer;
        answered = wrap-ok (rows_failed "query transitions") (query (id ∷ ids)) answered;
        row = row;
        listed = there;
        of_issue = refl;
        read = read;
      })
      (none-AllOf (FromRow d query)) (selected ∙ h3)

collect-AllOf :
    (d : Decoding) (query : EventQuery) (bs : List (List Str)) (s out : Selection)
    → AllOf (FromRow d query) s.0
    → collect d query bs s ≡ ok out
    → AllOf (FromRow d query) out.0
unfolding collect
collect-AllOf d query [] s out all_of h = subst (λ x. AllOf (FromRow d query) x.0) (ok_eq h) all_of
collect-AllOf d query (b ∷ bs) s out all_of h =
    let (found, batch, h1) = >>=-ok (transition_batch d query b) _ h in
    collect-AllOf d query bs (merge s.0 found.0, s.1 ++ found.1) out
      (merge-AllOf (FromRow d query) s.0 found.0 all_of
        (transition_batch-AllOf d query b found batch))
      h1

pub transition_events-AllOf :
    (d : Decoding) (query : EventQuery) (ids : List Str) (out : Selection)
    → transition_events d query ids ≡ ok out
    → AllOf (FromRow d query) out.0
unfolding transition_events
transition_events-AllOf d query ids out h =
    collect-AllOf d query (batches ids) ([], []) out (none-AllOf (FromRow d query)) h
