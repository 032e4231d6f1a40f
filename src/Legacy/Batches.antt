-- ===== src/Legacy/Batches.antt =====
-- legacy_outcome_reconciler.go: the query for the events, batch by batch.
use gas_city.Prelude.{Str, merge, ℕ, zero, suc, ◌-◌, List, [], ◌∷◌, ◌++◌}
use gas_city.Errors.{◌>>=◌, ◌>>◌, wrap, Result, ok, rows_failed}
use gas_city.Legacy.Transition.{select_events, Decoding, Rows, Selection, EventRow}

-- The query for the events of some issues.
abbrev pub EventQuery : Type 0
EventQuery = List Str → Result (Rows EventRow)

-- legacyOutcomeTransitionEventBatch
unfoldable pub transition_batch : Decoding → EventQuery → List Str → Result Selection
unfolding select_events
transition_batch d query [] = ok ([], [])
transition_batch d query (id ∷ ids) = do
  answer ← wrap (rows_failed "query transitions") (query (id ∷ ids))
  out ← select_events d answer.rows ([], [])
  wrap (rows_failed "iterate transitions") answer.iterated
  ok out

-- legacyOutcomeEventBatchSize
abbrev pub batch_size : ℕ
batch_size = 256

-- The loop that cuts the ids: the rest of a batch with so much room, and the batches after it.
unfoldable pub batches_from : ℕ → List Str → List Str × List (List Str)
batches_from room [] = ([], [])
batches_from (suc room) (id ∷ ids) = let (batch, rest) = batches_from room ids in (id ∷ batch, rest)
batches_from zero (id ∷ ids) =
    let (batch, rest) = batches_from (batch_size - 1) ids in ([], (id ∷ batch) ∷ rest)

unfoldable pub batches : List Str → List (List Str)
unfolding batches_from
batches ids = (batches_from 0 ids).1

-- The loop over the batches.
unfoldable pub collect : Decoding → EventQuery → List (List Str) → Selection → Result Selection
unfolding transition_batch
collect d query [] s = ok s
collect d query (batch ∷ rest) (selected, failures) = do
  out ← transition_batch d query batch
  collect d query rest (merge selected out.0, failures ++ out.1)

-- legacyOutcomeTransitionEvents
unfoldable pub transition_events : Decoding → EventQuery → List Str → Result Selection
unfolding batches collect
transition_events d query ids = collect d query (batches ids) ([], [])
