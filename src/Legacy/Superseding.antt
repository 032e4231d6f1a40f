-- ===== src/Legacy/Superseding.antt =====
-- legacy_outcome_reconciler.go and outcome_store.go: an envelope that is found is one to emit.
use native.Mathlib.Decide.{dec_lt}
use gas_city.Prelude.{
  ltb, if◌then◌else◌, true_not_false, ◌==◌, nat_eq, Str, text_eq, ==-refl, leb_ℤ, increment, int_eq,
  ℤ, lookup, insert, pos, negsuc, ℕ, zero, suc, ◌≤◌, ◌<◌, ◌≡◌, refl, sym, ap, subst, ◌∙◌, Bool,
  true, false, ◌&&◌, Option, none, some, arith,
}
use gas_city.Errors.{
  >>-ok, err_not_ok, >>=-ok, ok_eq, Result, ok, err, legacy_generation_exhausted,
  finalization_refused, disposition_refused,
}
use gas_city.Outcomes.Envelope
use gas_city.Outcomes.Envelope.{
  direct_worker, formula_step, project_lead, maintenance_order, temporal, Producer,
  new_outcome_ready, AdapterInput, OutcomeReady, Fence, envelope_of, outcome_ready_id,
}
use gas_city.Legacy.Metadata.{LegacyIssue, LegacyEvent}
use gas_city.Legacy.Envelopes.{
  legacy_envelope, raised_generation, adapt, stable_metadata, classify_producer, legacy_generation,
  input_for, max_int64,
}
use gas_city.Legacy.Discover.{
  judge, emits, is_covered, no_outcome, unless_excluded, envelope_verdict,
}
use gas_city.Legacy.Transition.{Decoding}
use gas_city.Legacy.Suppression.{is_finalization, is_dispositioned}
use gas_city.Outcomes.Records.{OutcomeRecord, outcomes_equal}
use gas_city.Canonical.Outbox.{
  is_acknowledged, decide_emit, validate_supersession, pending_record, emit_body, emit_outcome,
  guarded,
}
use gas_city.Contracts.Event.{Time}
use gas_city.Canonical.Issue.{Issue, set_outcome, outcome_record_from}
use gas_city.Canonical.Transaction.{
  updates, Table, Attempt, mutation_attempts, mutate_issue, Change, replies,
}
use gas_city.Canonical.Progress.{commits, conflicts, mutate_issue-commits}

-- The envelope is valid, and is of this issue and of this event.
pub record IsEnvelopeOf (store_ref : Str) (i : LegacyIssue) (e : LegacyEvent) (o : OutcomeReady)
    : Type 0 where
  pub valid : Envelope.validate o ≡ ok tt
  pub store : o.store_ref ≡ store_ref
  pub work : o.work_id ≡ i.id
  pub token : o.fence.token ≡ e.id
  pub time : o.occurred_at ≡ e.created_at
  pub found : ℤ
  pub generation : raised_generation i.existing found ≡ ok o.fence.generation

adapted :
    (p : Producer) (a : AdapterInput) (o : OutcomeReady)
    → adapt p a ≡ ok o
    → (q : Producer) × (new_outcome_ready q a ≡ ok o)
adapted direct_worker a o h = (direct_worker, h)
adapted formula_step a o h = (formula_step, h)
adapted project_lead a o h = (project_lead, h)
adapted maintenance_order a o h = (maintenance_order, h)
adapted temporal a o h = absurd (err_not_ok h)
adapted (Envelope.other s) a o h = absurd (err_not_ok h)

built :
    (p : Producer) (a : AdapterInput) (o : OutcomeReady)
    → new_outcome_ready p a ≡ ok o
    → (Envelope.validate o ≡ ok tt)
      × ((o.store_ref ≡ a.store_ref) × (o.work_id ≡ a.work_id))
      × (o.fence ≡ a.fence)
      × (o.occurred_at ≡ a.occurred_at)
unfolding new_outcome_ready
built p a o h =
    let base : OutcomeReady = envelope_of p a in
    let made : OutcomeReady = record base { outcome_id = outcome_ready_id base } in
    let (valid, same) = >>-ok (Envelope.validate made) (ok made) h in
    subst
      (λ (x : OutcomeReady).
        (Envelope.validate x ≡ ok tt)
        × ((x.store_ref ≡ a.store_ref) × (x.work_id ≡ a.work_id))
        × (x.fence ≡ a.fence)
        × (x.occurred_at ≡ a.occurred_at))
      (ok_eq same) (valid, (refl, refl), refl, refl)

pub legacy_envelope-IsEnvelopeOf :
    (store_ref : Str) (i : LegacyIssue) (e : LegacyEvent) (o : OutcomeReady)
    → legacy_envelope store_ref i e ≡ ok o
    → IsEnvelopeOf store_ref i e o
unfolding legacy_envelope
legacy_envelope-IsEnvelopeOf store_ref i e o h =
    let m = stable_metadata e.metadata i.metadata in
    let (p, _, h1) = >>=-ok (classify_producer m e.actor) _ h in
    let (found, _, h2) = >>=-ok (legacy_generation m) _ h1 in
    let (generation, raised, h3) = >>=-ok (raised_generation i.existing found) _ h2 in
    let (q, new) = adapted p (input_for store_ref i e m p generation) o h3 in
    let (valid, (store, work), fence, time) =
      built q (input_for store_ref i e m p generation) o new in
    record {
      valid = valid;
      store = store;
      work = work;
      token = ap (λ (x : Fence). x.token) fence;
      time = time;
      found = found;
      generation = raised ∙ ap (λ (x : Fence). ok x.generation) (sym fence);
    }

-- An envelope comes only of an event that is later than the outcome that exists, and is neither a
-- finalization nor set aside.
pub judge-emits :
    (d : Decoding) (store_ref : Str) (i : LegacyIssue) (e : LegacyEvent) (o : OutcomeReady)
    → judge d store_ref i e ≡ emits o
    → (is_covered i.existing e ≡ false)
      × (is_finalization d i e ≡ ok false)
      × (is_dispositioned d i e ≡ ok false)
      × (legacy_envelope store_ref i e ≡ ok o)
unfolding judge
judge-emits d store_ref i e o h =
    go (is_covered i.existing e) (is_finalization d i e) (is_dispositioned d i e)
      (legacy_envelope store_ref i e) h
  where
    go :
        (b : Bool) (f n : Result Bool) (m : Result OutcomeReady)
        → (if b
            then no_outcome
            else unless_excluded finalization_refused i e f
                (unless_excluded disposition_refused i e n (envelope_verdict i e m)))
          ≡ emits o
        → (b ≡ false) × (f ≡ ok false) × (n ≡ ok false) × (m ≡ ok o)
    go false (ok false) (ok false) (ok o') k =
        let same : o' ≡ o = ground arith in (refl, refl, refl, ap ok same)
    go true f n m k = absurd (ground arith)
    go false (ok true) n m k = absurd (ground arith)
    go false (err x) n m k = absurd (ground arith)
    go false (ok false) (ok true) m k = absurd (ground arith)
    go false (ok false) (err x) m k = absurd (ground arith)
    go false (ok false) (ok false) (err x) k = absurd (ground arith)

below_max :
    (k : ℕ)
    → leb_ℤ (pos k) max_int64 ≡ true
    → (pos k == max_int64) ≡ false
    → k < 9223372036854775807
below_max k l e = elim (dec_lt k 9223372036854775807) [
  | yes more ↦ more
  | no full ↦
      let small : k ≤ 9223372036854775807 = ground arith in
      let same : k ≡ 9223372036854775807 = omega arith in
      absurd (
        true_not_false (sym (==-refl max_int64) ∙ subst (λ x. (pos x == max_int64) ≡ false) same e))
]

-- Raised, the generation is greater than that of an acknowledged outcome, which is an int64.
raised_generation-greater :
    (r : OutcomeRecord) (g n : ℤ)
    → is_acknowledged r.state ≡ true
    → leb_ℤ r.envelope.fence.generation max_int64 ≡ true
    → raised_generation (some r) g ≡ ok n
    → leb_ℤ n r.envelope.fence.generation ≡ false
unfolding raised_generation
raised_generation-greater r g n acked small h = go (leb_ℤ g r.envelope.fence.generation) refl (
    subst
      (λ b.
        (if b && leb_ℤ g r.envelope.fence.generation
          then (if r.envelope.fence.generation == max_int64
              then err legacy_generation_exhausted
              else ok (increment r.envelope.fence.generation))
          else ok g)
        ≡ ok n)
      acked h)
  where
    increment-greater :
        (x : ℤ)
        → leb_ℤ x max_int64 ≡ true
        → (x == max_int64) ≡ false
        → leb_ℤ (increment x) x ≡ false
    increment-greater (pos k) l e =
        let more : k < 9223372036854775807 = below_max k l e in ground arith
    increment-greater (negsuc zero) l e = refl
    increment-greater (negsuc (suc k)) l e = ground arith

    raised :
        (b : Bool)
        → (r.envelope.fence.generation == max_int64) ≡ b
        → (if b
            then err legacy_generation_exhausted
            else ok (increment r.envelope.fence.generation))
          ≡ ok n
        → leb_ℤ n r.envelope.fence.generation ≡ false
    raised true e k = absurd (err_not_ok k)
    raised false e k =
        subst (λ x. leb_ℤ x r.envelope.fence.generation ≡ false) (ok_eq k)
          (increment-greater r.envelope.fence.generation small e)

    go :
        (b : Bool)
        → leb_ℤ g r.envelope.fence.generation ≡ b
        → (if b
            then (if r.envelope.fence.generation == max_int64
                then err legacy_generation_exhausted
                else ok (increment r.envelope.fence.generation))
            else ok g)
          ≡ ok n
        → leb_ℤ n r.envelope.fence.generation ≡ false
    go true e k = raised (r.envelope.fence.generation == max_int64) refl k
    go false e k = subst (λ x. leb_ℤ x r.envelope.fence.generation ≡ false) (ok_eq k) e

covered-later :
    (r : OutcomeRecord) (e : LegacyEvent)
    → is_covered (some r) e ≡ false
    → ltb r.envelope.occurred_at e.created_at ≡ true
covered-later r e h = ground arith

equal_at_one_time :
    (a b : OutcomeReady) → ltb a.occurred_at b.occurred_at ≡ true → outcomes_equal a b ≡ false
unfolding outcomes_equal
equal_at_one_time a b h = ground arith

-- What may be superseded: nothing, or an acknowledged outcome whose generation is an int64.
abbrev pub IsOver : Option OutcomeRecord → Type 0
IsOver none = Unit
IsOver (some r) =
    (is_acknowledged r.state ≡ true) × (leb_ℤ r.envelope.fence.generation max_int64 ≡ true)

judged_later :
    (d : Decoding) (store_ref : Str) (i : LegacyIssue) (e : LegacyEvent) (o : OutcomeReady)
    (r : OutcomeRecord)
    → judge d store_ref i e ≡ emits o
    → i.existing ≡ some r
    → ltb r.envelope.occurred_at o.occurred_at ≡ true
judged_later d store_ref i e o r h there =
    let (open_, _, _, made) = judge-emits d store_ref i e o h in
    let of = legacy_envelope-IsEnvelopeOf store_ref i e o made in
    subst (λ t. ltb r.envelope.occurred_at t ≡ true) (sym of.time)
      (covered-later r e (subst (λ x. is_covered x e ≡ false) there open_))

judged_greater :
    (d : Decoding) (store_ref : Str) (i : LegacyIssue) (e : LegacyEvent) (o : OutcomeReady)
    (r : OutcomeRecord)
    → judge d store_ref i e ≡ emits o
    → i.existing ≡ some r
    → IsOver (some r)
    → leb_ℤ o.fence.generation r.envelope.fence.generation ≡ false
judged_greater d store_ref i e o r h there (acked, small) =
    let (_, _, _, made) = judge-emits d store_ref i e o h in
    let of = legacy_envelope-IsEnvelopeOf store_ref i e o made in
    raised_generation-greater r of.found o.fence.generation acked small
      (subst (λ x. raised_generation x of.found ≡ ok o.fence.generation) there of.generation)

-- The change that EmitOutcome decides on, with what the issue had.
decide_emit-writes :
    (d : Decoding) (store_ref : Str) (i : LegacyIssue) (e : LegacyEvent) (o : OutcomeReady)
    (x : Option OutcomeRecord) (now : Time) (row : Issue)
    → judge d store_ref i e ≡ emits o
    → i.existing ≡ x
    → IsOver x
    → decide_emit o now x row
      ≡ updates (set_outcome (pending_record o now) row) (pending_record o now)
unfolding decide_emit validate_supersession
decide_emit-writes d store_ref i e o none now row h there over = refl
decide_emit-writes d store_ref i e o (some r) now row h there (acked, small) =
    let later = judged_later d store_ref i e o r h there in
    let greater = judged_greater d store_ref i e o r h there (acked, small) in
    rw (equal_at_one_time r.envelope o later, acked, greater, later) refl

emit_body-writes :
    (o : OutcomeReady) (x : Option OutcomeRecord) (now : Time) (row : Issue) (j : Issue)
    (r : OutcomeRecord)
    → outcome_record_from row.outbox ≡ ok x
    → decide_emit o now x row ≡ updates j r
    → emit_body o now row ≡ updates j r
unfolding emit_body
emit_body-writes o x now row j r read decides =
    ap
      (λ m. elim m as (λ _. Change OutcomeRecord) [
        | ok existing ↦ decide_emit o now existing row
        | err e ↦ replies (err e)
      ])
      read
    ∙ decides

-- An envelope that is found for an issue, where the row of the issue holds the outcome that the
-- discovery read, or none, and this outcome is acknowledged with an int64 as generation: EmitOutcome
-- of it, where one of its attempts commits and those before it are rolled back for serialization
-- failures, followed by waits in which the context does not end, answers the pending record and puts
-- it into the row of the issue. Attempts are counted down from 4.
pub judge-Emits :
    (d : Decoding) (store_ref : Str) (i : LegacyIssue) (e : LegacyEvent) (o : OutcomeReady)
    (now : Time) (t : Table) (row : Issue) (m : ℕ) (env : ℕ → Attempt) (done_at : ℕ → Bool)
    → judge d store_ref i e ≡ emits o
    → IsOver i.existing
    → lookup i.id t ≡ some row
    → outcome_record_from row.outbox ≡ ok i.existing
    → m < mutation_attempts
    → env m ≡ commits
    → ((k : ℕ) → m < k → k < mutation_attempts → env k ≡ conflicts)
    → ((k : ℕ) → m < k → k < mutation_attempts → done_at k ≡ false)
    → emit_outcome env done_at now o t
      ≡ (ok (pending_record o now), insert i.id (set_outcome (pending_record o now) row) t)
unfolding emit_outcome
judge-Emits d store_ref i e o now t row m env done_at h over found read below good bad waits =
    let (_, _, _, made) = judge-emits d store_ref i e o h in
    let of = legacy_envelope-IsEnvelopeOf store_ref i e o made in
    let decides =
      emit_body-writes o i.existing now row (set_outcome (pending_record o now) row)
        (pending_record o now) read
        (decide_emit-writes d store_ref i e o i.existing now row h refl over) in
    let commits_at =
      mutate_issue-commits i.id (emit_body o now) row (set_outcome (pending_record o now) row)
        (pending_record o now) t m env done_at found decides below good bad waits in
    ap (λ c. guarded c (mutate_issue env done_at o.work_id (emit_body o now) t) t) of.valid
    ∙ ap (λ id. mutate_issue env done_at id (emit_body o now) t) of.work
    ∙ commits_at
