-- ===== src/FileStore/History.antt =====
-- bead_store.go: what no sequence of calls changes of a bead, whatever the writes do.
use gas_city.Prelude.{
  Bool-cases, ◌==◌, nat_eq, Str, text_eq, ◌<ℤ◌, int_eq, <ℤ_trans, ℤ, lookup-insert, ◌≡◌, refl, sym,
  ap, subst, ◌∙◌, ◌⊎◌, inl, inr, true, none, some, List, arith,
}
use gas_city.Contracts.Formula.{FormulaRef}
use gas_city.Contracts.Event.{ReadyEvent}
use gas_city.Contracts.Payloads.{ClaimRequest, ClaimLease, Completion, AttemptFailure}
use gas_city.FileStore.Records.{BeadStatus, ready, claimed, completed, other, BeadRecord, FileState}
use gas_city.FileStore.Persistence.{Env, mutate}
use gas_city.FileStore.Operations.{
  claimed_by, completed_by, new_bead, find_bead, put_bead, write_ready, transition_ready, claim,
  complete, record_attempt_failure, acknowledge_ready_event, inspect, pending_ready_events,
}
use gas_city.FileStore.Inversion.{
  Claims, claim-mutate, Completes, complete-mutate, Fails, failed_by, record_attempt_failure-mutate,
  transition_ready-mutate, Acknowledges, acknowledge_ready_event-mutate, new_ready_event-ok,
}

-- What stays of a record within its generation.
abbrev pub Kept : BeadStatus → BeadRecord → BeadRecord → Type 0
Kept ready r q = Unit {0}
Kept claimed r q =
    ((q.status ≡ claimed) ⊎ (q.status ≡ completed))
    × (q.workflow_id ≡ r.workflow_id)
    × (q.claim_token ≡ r.claim_token)
Kept completed r q =
    (q.status ≡ completed)
    × (q.workflow_id ≡ r.workflow_id)
    × (q.claim_token ≡ r.claim_token)
    × (q.session_id ≡ r.session_id)
    × (q.outcome ≡ r.outcome)
    × (q.artifact_refs ≡ r.artifact_refs)
Kept (other s) r q =
    (q.status ≡ other s) × (q.workflow_id ≡ r.workflow_id) × (q.claim_token ≡ r.claim_token)

-- A record moves to a later generation, or keeps its formula and what its status fixes.
abbrev pub Advances : BeadRecord → BeadRecord → Type 0
Advances r q =
    (r.generation <ℤ q.generation)
    ⊎ ((q.generation ≡ r.generation) × (q.formula ≡ r.formula) × Kept r.status r q)

Kept-refl : (t : BeadStatus) (r : BeadRecord) → r.status ≡ t → Kept t r r
Kept-refl ready r e = tt
Kept-refl claimed r e = (inl e, refl, refl)
Kept-refl completed r e = (e, refl, refl, refl, refl, refl)
Kept-refl (other s) r e = (e, refl, refl)

pub Advances-refl : (r : BeadRecord) → Advances r r
Advances-refl r = inr (refl, refl, Kept-refl r.status r refl)

Kept-trans : (t : BeadStatus) (p q r : BeadRecord) → Kept t p q → Kept q.status q r → Kept t p r
Kept-trans ready p q r h k = tt
Kept-trans claimed p q r h k = elim h.0 [
  | inl e ↦
      let k' : Kept claimed q r = subst (λ t. Kept t q r) e k in (k'.0, k'.1 ∙ h.1, k'.2 ∙ h.2)
  | inr e ↦
      let k' : Kept completed q r = subst (λ t. Kept t q r) e k in
      (inr k'.0, k'.1 ∙ h.1, k'.2 ∙ h.2)
]
Kept-trans completed p q r h k =
    let k' : Kept completed q r = subst (λ t. Kept t q r) h.0 k in
    (k'.0, k'.1 ∙ h.1, k'.2 ∙ h.2, k'.3 ∙ h.3, k'.4 ∙ h.4, k'.5 ∙ h.5)
Kept-trans (other s) p q r h k =
    let k' : Kept (other s) q r = subst (λ t. Kept t q r) h.0 k in (k'.0, k'.1 ∙ h.1, k'.2 ∙ h.2)

pub Advances-trans : (p q r : BeadRecord) → Advances p q → Advances q r → Advances p r
Advances-trans p q r (inl h) (inl k) = inl (<ℤ_trans p.generation q.generation r.generation h k)
Advances-trans p q r (inl h) (inr k) = inl (subst (λ g. p.generation <ℤ g) (sym k.0) h)
Advances-trans p q r (inr h) (inl k) = inl (subst (λ g. g <ℤ r.generation) h.0 k)
Advances-trans p q r (inr h) (inr k) = inr (k.0 ∙ h.0, k.1 ∙ h.1, Kept-trans p.status p q r h.2 k.2)

-- From one state to the next, a bead stays and advances.
abbrev pub Grows : Str → FileState → FileState → Type 0
Grows b s s' =
    (r : BeadRecord)
    → find_bead b s ≡ some r
    → (q : BeadRecord) × (find_bead b s' ≡ some q) × Advances r q

module _ (b : Str) where
  put_bead-Grows :
      (id : Str) (s : FileState) (old new : BeadRecord)
      → find_bead id s ≡ some old
      → Advances old new
      → Grows b s (put_bead id new s)
  put_bead-Grows id s old new h a r found = elim (Bool-cases (id == b)) [
    | inl same ↦ (new, rw (lookup-insert, same), subst (λ o. Advances o new) (same_record same) a)
    | inr apart ↦ (r, rw (lookup-insert, apart) found, Advances-refl r)
  ]
    where
      same_record : (id == b) ≡ true → old ≡ r
      same_record e = ground (arith, h, found)

  pub claim-Grows :
      (c : ClaimRequest) (s s' : FileState) (l : ClaimLease)
      → claim c s ≡ mutate s' l
      → Grows b s s'
  claim-Grows c s s' l e =
      let step : Claims c s s' l = claim-mutate c s s' l e in
      subst (Grows b s) (sym step.writes) (
        put_bead-Grows c.bead_id s step.old (claimed_by c step.old) step.found (
          inr (
            refl,
            refl,
            subst (λ t. Kept t step.old (claimed_by c step.old)) (sym step.was_ready) tt,
          )))

  pub complete-Grows :
      (c : Completion) (s s' : FileState) → complete c s ≡ mutate s' tt → Grows b s s'
  complete-Grows c s s' e =
      let step : Completes c s s' = complete-mutate c s s' e in
      subst (Grows b s) (sym step.writes) (
        put_bead-Grows c.bead_id s step.old (completed_by c step.old) step.found (
          inr (
            refl,
            refl,
            subst (λ t. Kept t step.old (completed_by c step.old)) (sym step.was_claimed)
                (inr refl, refl, refl),
          )))

  pub failure-Grows :
      (f : AttemptFailure) (s s' : FileState)
      → record_attempt_failure f s ≡ mutate s' tt
      → Grows b s s'
  failure-Grows f s s' e =
      let step : Fails f s s' = record_attempt_failure-mutate f s s' e in
      subst (Grows b s) (sym step.writes) (
        put_bead-Grows f.bead_id s step.old (failed_by f step.old) step.found (
          inr (
            refl,
            refl,
            subst (λ t. Kept t step.old (failed_by f step.old)) (sym step.was_claimed)
                (inl step.was_claimed, refl, refl),
          )))

  new_bead-Grows :
      (env : Env) (event : ReadyEvent) (s : FileState) (r : BeadRecord)
      → find_bead b s ≡ some r
      → (find_bead event.bead_id s ≡ none)
        ⊎ ((old : BeadRecord) × (find_bead event.bead_id s ≡ some old)
            × (old.generation <ℤ event.generation))
      → (q : BeadRecord) × (find_bead b (write_ready env event s) ≡ some q) × Advances r q
  new_bead-Grows env event s r found earlier = elim (Bool-cases (event.bead_id == b)) [
    | inl same ↦ (
      new_bead event.city_id event.run_id event.bead_id event.generation event.formula,
      rw (lookup-insert, same),
      inl (ground arith),
    )
    | inr apart ↦ (r, rw (lookup-insert, apart) found, Advances-refl r)
  ]

  pub ready-Grows :
      (env : Env) (city_id run_id bead_id : Str) (generation : ℤ) (formula : FormulaRef)
      (s s' : FileState) (event : ReadyEvent)
      → transition_ready env city_id run_id bead_id generation formula s ≡ mutate s' event
      → Grows b s s'
  ready-Grows env city_id run_id bead_id generation formula s s' event e r found =
      let step =
        transition_ready-mutate env city_id run_id bead_id generation formula s s' event e in
      let shape =
        (new_ready_event-ok city_id run_id bead_id generation formula env.now event step.0).0 in
      rw step.1.writes (
        new_bead-Grows env event s r found
          (rw (ap (λ (x : ReadyEvent). x.bead_id) shape) step.1.earlier))

  pub acknowledge-Grows :
      (env : Env) (id : Str) (s s' : FileState)
      → acknowledge_ready_event env id s ≡ mutate s' tt
      → Grows b s s'
  acknowledge-Grows env id s s' e =
      let step : Acknowledges env id s s' = acknowledge_ready_event-mutate env id s s' e in
      subst (Grows b s) (sym step.writes) (λ r found. (r, found, Advances-refl r))

  pub inspect-Grows :
      (id : Str) (s s' : FileState) (a : BeadRecord) → inspect id s ≡ mutate s' a → Grows b s s'
  unfolding inspect
  inspect-Grows id s s' a e = absurd (ground arith)

  pub pending-Grows :
      (s s' : FileState) (a : List ReadyEvent) → pending_ready_events s ≡ mutate s' a → Grows b s s'
  unfolding pending_ready_events
  pending-Grows s s' a e = absurd (ground arith)
