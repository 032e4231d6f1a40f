-- ===== src/Canonical/Lifecycle.antt =====
-- outcome_store.go: what becomes of an outcome over any history of calls.
use gas_city.Prelude.{
  true_not_false, ◌<ℤ◌, ◌<◌, ◌≡◌, refl, sym, subst, ◌∙◌, inl, inr, true, Option, none, some, arith,
}
use gas_city.Canonical.Issue.{malformed, blank, finalization_from}
use gas_city.Errors.{Result, ok, err}
use gas_city.Canonical.Issue.{outcome_record_from, Issue, coded, Coded, blank, set_outcome}
use gas_city.Outcomes.Records.{
  OutcomeRecord, FinalizationReceipt, OutcomeDelivery, OutcomeAcknowledgement, FinalizationRequest,
}
use gas_city.Contracts.Event.{is_zero, Time}
use gas_city.Outcomes.Envelope.{OutcomeReady}
use gas_city.Canonical.Outbox.{
  decide_emit, validate_supersession, pending_record, decide_delivered, decide_acknowledged,
  delivered_record, acknowledged_record, emit_body, delivered_body, acknowledged_body,
}
use gas_city.Canonical.Transaction.{updates, replies, Change}
use gas_city.Canonical.Finalize.{with_record, new_finalize, finalize_body, repeat_finalize}
use gas_city.Canonical.Standing.{Standing, Lasts, Standing-refl}

pub coded_eq {ℓ} : {A : Type ℓ} {a b : A} → coded a ≡ coded b → a ≡ b
coded_eq h = cc

pub coded_not_blank {ℓ} : {A : Type ℓ} {a : A} → ¬ (coded a ≡ blank)
coded_not_blank h = cc

-- A call that reads an outbox and finds a record, or none.
pub read_some :
    (c : Coded OutcomeRecord) (r : OutcomeRecord)
    → outcome_record_from c ≡ ok (some r)
    → c ≡ coded r
unfolding outcome_record_from
read_some blank r h = absurd (ground arith)
read_some malformed r h = absurd (ground arith)
read_some (coded q) r h = ground arith

pub read_none : (c : Coded OutcomeRecord) → outcome_record_from c ≡ ok none → c ≡ blank
unfolding outcome_record_from
read_none blank h = refl
read_none malformed h = absurd (ground arith)
read_none (coded q) h = absurd (ground arith)

-- A row whose outbox is replaced.
put-Lasts :
    (i : Issue) (r q : OutcomeRecord)
    → i.outbox ≡ coded r
    → Standing r q
    → Lasts i (set_outcome q i)
put-Lasts i r q there standing =
    (λ r' h. (q, refl, subst (λ x. Standing x q) (coded_eq (sym there ∙ h)) standing), λ f h. h)

first-Lasts : (i : Issue) (q : OutcomeRecord) → i.outbox ≡ blank → Lasts i (set_outcome q i)
first-Lasts i q empty = (λ r h. absurd (coded_not_blank (sym h ∙ empty)), λ f h. h)

decide_emit-supersedes :
    (o : OutcomeReady) (now : Time) (r : OutcomeRecord) (i j : Issue) (a : OutcomeRecord)
    → decide_emit o now (some r) i ≡ updates j a
    → ((r.envelope.fence.generation <ℤ o.fence.generation)
        × (r.envelope.occurred_at < o.occurred_at))
      × (j ≡ set_outcome (pending_record o now) i)
unfolding decide_emit validate_supersession
decide_emit-supersedes o now r i j a h = ground arith

delivered-keeps :
    (d : OutcomeDelivery) (now : Time) (r : OutcomeRecord) (i j : Issue) (a : OutcomeRecord)
    → decide_delivered d now (some r) i ≡ updates j a
    → (is_zero r.acknowledged_at ≡ true) × (j ≡ set_outcome (delivered_record d now r) i)
unfolding decide_delivered
delivered-keeps d now r i j a h = ground arith

acknowledged-keeps :
    (k : OutcomeAcknowledgement) (now : Time) (r : OutcomeRecord) (i j : Issue) (a : OutcomeRecord)
    → decide_acknowledged k now (some r) i ≡ updates j a
    → (is_zero r.acknowledged_at ≡ true) × (j ≡ set_outcome (acknowledged_record k now r) i)
unfolding decide_acknowledged
acknowledged-keeps k now r i j a h = ground arith

finalize-keeps :
    (q : FinalizationRequest) (now : Time) (r : OutcomeRecord) (i j : Issue)
    (a : FinalizationReceipt)
    → with_record q now (some r) i ≡ updates j a
    → (finalization_from i.finalization ≡ ok none) × (j.outbox ≡ i.outbox)
unfolding with_record new_finalize repeat_finalize
finalize-keeps q now r i j a h = ground arith

replies_not_updates {ℓ} :
    {A : Type ℓ} {m : Result A} {j : Issue} {a : A} → ¬ (replies m ≡ updates j a)
replies_not_updates h = cc

emit_first :
    (o : OutcomeReady) (now : Time) (i j : Issue) (a : OutcomeRecord)
    → decide_emit o now none i ≡ updates j a
    → set_outcome (pending_record o now) i ≡ j
unfolding decide_emit
emit_first o now i j a h = ground arith

nothing_delivered :
    (d : OutcomeDelivery) (now : Time) (i j : Issue) (a : OutcomeRecord)
    → ¬ (decide_delivered d now none i ≡ updates j a)
unfolding decide_delivered
nothing_delivered d now i j a h = cc

nothing_acknowledged :
    (k : OutcomeAcknowledgement) (now : Time) (i j : Issue) (a : OutcomeRecord)
    → ¬ (decide_acknowledged k now none i ≡ updates j a)
unfolding decide_acknowledged
nothing_acknowledged k now i j a h = cc

nothing_finalized :
    (q : FinalizationRequest) (now : Time) (i j : Issue) (a : FinalizationReceipt)
    → ¬ (with_record q now none i ≡ updates j a)
unfolding with_record
nothing_finalized q now i j a h = cc

unfinished : (c : Coded FinalizationReceipt) → finalization_from c ≡ ok none → c ≡ blank
unfolding finalization_from
unfinished blank h = refl
unfinished malformed h = absurd (ground arith)
unfinished (coded f) h = absurd (ground arith)

-- A body that reads the outbox and then decides.
from_outbox {ℓ} :
    {A : Type ℓ} (i j : Issue) (a : A) (decide : Option OutcomeRecord → Issue → Change A)
    → ((r : OutcomeRecord) → decide (some r) i ≡ updates j a → i.outbox ≡ coded r → Lasts i j)
    → (decide none i ≡ updates j a → i.outbox ≡ blank → Lasts i j)
    → (m : Result (Option OutcomeRecord)) → outcome_record_from i.outbox ≡ m
    → (elim m as (λ _. Change A) [ ok existing ↦ decide existing i | err e ↦ replies (err e) ])
      ≡ updates j a
    → Lasts i j
from_outbox i j a decide there empty (ok (some r)) e h = there r h (read_some i.outbox r e)
from_outbox i j a decide there empty (ok none) e h = empty h (read_none i.outbox e)
from_outbox i j a decide there empty (err x) e h = absurd (replies_not_updates h)

pub emit-Lasts :
    (o : OutcomeReady) (now : Time) (i j : Issue) (a : OutcomeRecord)
    → emit_body o now i ≡ updates j a
    → Lasts i j
unfolding emit_body
emit-Lasts o now i j a =
    from_outbox i j a (decide_emit o now)
      (λ r h found.
        let (later, same) = decide_emit-supersedes o now r i j a h in
        subst (Lasts i) (sym same) (put-Lasts i r (pending_record o now) found (inl later)))
      (λ h empty.
        subst (Lasts i) (emit_first o now i j a h) (first-Lasts i (pending_record o now) empty))
      (outcome_record_from i.outbox) refl

pub delivered-Lasts :
    (d : OutcomeDelivery) (now : Time) (i j : Issue) (a : OutcomeRecord)
    → delivered_body d now i ≡ updates j a
    → Lasts i j
unfolding delivered_body
delivered-Lasts d now i j a =
    from_outbox i j a (decide_delivered d now)
      (λ r h found.
        let (waits, same) = delivered-keeps d now r i j a h in
        subst (Lasts i) (sym same) (
          put-Lasts i r (delivered_record d now r) found (
            inr (
              refl,
              refl,
              λ done. rw done refl,
              λ done. absurd (true_not_false (sym waits ∙ done)),
            ))))
      (λ h _. absurd (nothing_delivered d now i j a h)) (outcome_record_from i.outbox) refl

pub acknowledged-Lasts :
    (k : OutcomeAcknowledgement) (now : Time) (i j : Issue) (a : OutcomeRecord)
    → acknowledged_body k now i ≡ updates j a
    → Lasts i j
unfolding acknowledged_body
acknowledged-Lasts k now i j a =
    from_outbox i j a (decide_acknowledged k now)
      (λ r h found.
        let (waits, same) = acknowledged-keeps k now r i j a h in
        subst (Lasts i) (sym same) (
          put-Lasts i r (acknowledged_record k now r) found
            (inr (refl, refl, λ _. refl, λ done. absurd (true_not_false (sym waits ∙ done))))))
      (λ h _. absurd (nothing_acknowledged k now i j a h)) (outcome_record_from i.outbox) refl

pub finalize-Lasts :
    (q : FinalizationRequest) (now : Time) (i j : Issue) (a : FinalizationReceipt)
    → finalize_body q now i ≡ updates j a
    → Lasts i j
unfolding finalize_body
finalize-Lasts q now i j a =
    from_outbox i j a (with_record q now)
      (λ r h found.
        let (open', same) = finalize-keeps q now r i j a h in
        (
          λ r' h'. (r', same ∙ h', Standing-refl r'),
          λ f h'. absurd (coded_not_blank (sym h' ∙ unfinished i.finalization open')),
        ))
      (λ h _. absurd (nothing_finalized q now i j a h)) (outcome_record_from i.outbox) refl
