-- ===== src/FileStore/Outbox.antt =====
-- bead_store.go: an event that waits in the outbox is of its bead's current generation.
use gas_city.Prelude.{
  if◌then◌else◌, Bool-cases, none_not_some, some_eq, ◌==◌, nat_eq, Str, text_eq, ==-refl, ==→≡,
  ◌<ℤ◌, int_eq, ℤ, lookup-insert, lookup-update_all, ◌≡◌, refl, sym, ap, subst, ◌∙◌, ◌≢◌, ◌⊎◌, inl,
  inr, true, Option, none, some, arith,
}
use mathlib.Core.Option
use gas_city.Contracts.Event.{ReadyEvent, Time}
use gas_city.FileStore.Records.{BeadRecord, OutboxRecord, FileState, is_pending}
use gas_city.FileStore.Persistence.{Env, mutate}
use gas_city.FileStore.Operations.{
  find_bead, find_event, put_bead, superseded, new_bead, write_ready, acknowledge_ready_event,
  transition_ready, complete, claim, put_event, completed_by, claimed_by, record_attempt_failure,
}
use gas_city.Contracts.Payloads.{AttemptFailure, ClaimRequest, Completion, ClaimLease}
use gas_city.Contracts.Formula.{FormulaRef}
use gas_city.FileStore.Inversion.{
  transition_ready-mutate, Completes, new_ready_event-ok, Claims, Acknowledges, complete-mutate,
  acknowledge_ready_event-mutate, claim-mutate, Fails, record_attempt_failure-mutate, failed_by,
}

-- The bead of an event is there, at the event's generation.
abbrev pub HasCurrent : ReadyEvent → FileState → Type 0
HasCurrent e s =
    (bead : BeadRecord) × (find_bead e.bead_id s ≡ some bead) × (bead.generation ≡ e.generation)

abbrev pub IsCurrent : FileState → Type 0
IsCurrent s =
    (id : Str) (r : OutboxRecord)
    → find_event id s ≡ some r
    → is_pending r ≡ true
    → HasCurrent r.event s

-- A bead record that keeps its generation keeps the outbox current.
put_bead-IsCurrent :
    (b : Str) (s : FileState) (old new : BeadRecord)
    → find_bead b s ≡ some old
    → new.generation ≡ old.generation
    → IsCurrent s
    → IsCurrent (put_bead b new s)
put_bead-IsCurrent b s old new found same current id r there waits =
    elim (Bool-cases (b == r.event.bead_id)) [
      | inl e ↦
          let (bead, found', generation) = current id r there waits in
          let one : old ≡ bead = ground (arith, found, found') in
          (
            new,
            rw (lookup-insert, e),
            same ∙ (ap (λ (x : BeadRecord). x.generation) one ∙ generation),
          )
      | inr apart ↦
          let (bead, found', generation) = current id r there waits in
          (bead, rw (lookup-insert, apart) found', generation)
    ]

find_event-write_ready :
    (env : Env) (event : ReadyEvent) (s : FileState) (id : Str)
    → find_event id (write_ready env event s) ≡ (
        if event.event_id == id
        then some (record { event = event; acknowledged_at = 0; superseded_at = 0 })
        else Option.map
            (superseded event.bead_id event.generation env.superseded_now id)
            (find_event id s))
find_event-write_ready env event s id = rw (lookup-insert, lookup-update_all)

find_bead-write_ready :
    (env : Env) (event : ReadyEvent) (s : FileState) (b : Str)
    → find_bead b (write_ready env event s) ≡ (
        if event.bead_id == b
        then some (new_bead event.city_id event.run_id event.bead_id event.generation event.formula)
        else find_bead b s)
find_bead-write_ready env event s b = rw lookup-insert

-- A record that waits after the loop over the outbox is an old one that the loop left alone.
waits-superseded :
    (b : Str) (generation : ℤ) (clock : Str → Time) (id : Str) (old : OutboxRecord)
    → clock id ≢ 0
    → is_pending (superseded b generation clock id old) ≡ true
    → (superseded b generation clock id old ≡ old)
      × (is_pending old ≡ true)
      × (old.event.bead_id ≡ b → old.event.generation <ℤ generation → ⊥)
waits-superseded b generation clock id old ticks waits =
    (ground arith, ground arith, λ same less. ground arith)

map-some {ℓ κ} :
    {A : Type ℓ} {B : Type κ} (f : A → B) (o : Option A) (b : B)
    → Option.map f o ≡ some b
    → (a : A) × (o ≡ some a) × (f a ≡ b)
map-some f none b h = absurd (none_not_some h)
map-some f (some a) b h = (a, refl, cc)

module _ (env : Env) (event : ReadyEvent) (s : FileState) (current : IsCurrent s) where
  -- An old event that still waits is of another bead, which the transition leaves alone.
  kept_event-HasCurrent :
      (old : OutboxRecord) (id : Str)
      → find_event id s ≡ some old
      → is_pending old ≡ true
      → (old.event.bead_id ≡ event.bead_id → old.event.generation <ℤ event.generation → ⊥)
      → (find_bead event.bead_id s ≡ none)
        ⊎ ((b : BeadRecord) × (find_bead event.bead_id s ≡ some b)
            × (b.generation <ℤ event.generation))
      → HasCurrent old.event (write_ready env event s)
  kept_event-HasCurrent old id there waits others earlier =
      let (bead, found, generation) = current id old there waits in
      elim (Bool-cases (event.bead_id == old.event.bead_id)) [
        | inl e ↦ absurd (clash bead found generation earlier (==→≡ _ _ e))
        | inr apart ↦ (bead, rw (find_bead-write_ready env event s, apart) found, generation)
      ]
    where
      clash :
          (bead : BeadRecord)
          → find_bead old.event.bead_id s ≡ some bead
          → bead.generation ≡ old.event.generation
          → (find_bead event.bead_id s ≡ none)
            ⊎ ((b : BeadRecord) × (find_bead event.bead_id s ≡ some b)
                × (b.generation <ℤ event.generation))
          → event.bead_id ≡ old.event.bead_id
          → ⊥
      clash bead found generation (inl none') e =
          none_not_some (sym none' ∙ (ap (λ b. find_bead b s) e ∙ found))
      clash bead found generation (inr (b, found', less)) e =
          let one : b ≡ bead = some_eq (sym found' ∙ (ap (λ x. find_bead x s) e ∙ found)) in
          others (sym e) (
            subst (λ g. g <ℤ event.generation)
              (ap (λ (x : BeadRecord). x.generation) one ∙ generation) less)

  ready-IsCurrent :
      (find_bead event.bead_id s ≡ none)
        ⊎ ((b : BeadRecord) × (find_bead event.bead_id s ≡ some b)
            × (b.generation <ℤ event.generation))
      → ((id : Str) → env.superseded_now id ≢ 0)
      → IsCurrent (write_ready env event s)
  ready-IsCurrent earlier ticks id r there waits = elim (Bool-cases (event.event_id == id)) [
    | inl e ↦
        let one : record { event = event; acknowledged_at = 0; superseded_at = 0 } ≡ r =
          some_eq (rw (find_event-write_ready env event s id, e) at there) in
        subst (λ (x : OutboxRecord). HasCurrent x.event (write_ready env event s)) one
          (
            new_bead event.city_id event.run_id event.bead_id event.generation event.formula,
            rw (find_bead-write_ready env event s, ==-refl),
            refl,
          )
    | inr apart ↦
        let (old, found, made) =
          map-some _ (find_event id s) r
            (rw (find_event-write_ready env event s id, apart) at there) in
        let (same, waited, others) =
          waits-superseded event.bead_id event.generation env.superseded_now id old (ticks id)
            (subst (λ x. is_pending x ≡ true) (sym made) waits) in
        subst (λ (x : OutboxRecord). HasCurrent x.event (write_ready env event s)) (sym same ∙ made)
          (kept_event-HasCurrent old id found waited others earlier)
  ]

-- Every write of an operation keeps the waiting events current.
module _ (s s' : FileState) (current : IsCurrent s) where
  pub claim-IsCurrent : (c : ClaimRequest) (l : ClaimLease) → claim c s ≡ mutate s' l → IsCurrent s'
  claim-IsCurrent c l e =
      let step : Claims c s s' l = claim-mutate c s s' l e in
      subst IsCurrent (sym step.writes)
        (put_bead-IsCurrent c.bead_id s step.old (claimed_by c step.old) step.found refl current)

  pub complete-IsCurrent : (c : Completion) → complete c s ≡ mutate s' tt → IsCurrent s'
  complete-IsCurrent c e =
      let step : Completes c s s' = complete-mutate c s s' e in
      subst IsCurrent (sym step.writes)
        (put_bead-IsCurrent c.bead_id s step.old (completed_by c step.old) step.found refl current)

  pub failure-IsCurrent :
      (f : AttemptFailure) → record_attempt_failure f s ≡ mutate s' tt → IsCurrent s'
  failure-IsCurrent f e =
      let step : Fails f s s' = record_attempt_failure-mutate f s s' e in
      subst IsCurrent (sym step.writes)
        (put_bead-IsCurrent f.bead_id s step.old (failed_by f step.old) step.found refl current)

  pub transition-IsCurrent :
      (env : Env) (city_id run_id bead_id : Str) (generation : ℤ) (formula : FormulaRef)
      (event : ReadyEvent)
      → ((id : Str) → env.superseded_now id ≢ 0)
      → transition_ready env city_id run_id bead_id generation formula s ≡ mutate s' event
      → IsCurrent s'
  transition-IsCurrent env city_id run_id bead_id generation formula event ticks e =
      let step =
        transition_ready-mutate env city_id run_id bead_id generation formula s s' event e in
      let shape =
        (new_ready_event-ok city_id run_id bead_id generation formula env.now event step.0).0 in
      subst IsCurrent (sym step.1.writes) (
        ready-IsCurrent env event s current
          (rw (ap (λ (x : ReadyEvent). x.bead_id) shape) step.1.earlier) ticks)

  pub acknowledge-IsCurrent :
      (env : Env) (id : Str) → acknowledge_ready_event env id s ≡ mutate s' tt → IsCurrent s'
  acknowledge-IsCurrent env id e =
      let step : Acknowledges env id s s' = acknowledge_ready_event-mutate env id s s' e in
      subst IsCurrent (sym step.writes) (acknowledged step.old step.found step.was_open)
    where
      acknowledged :
          (old : OutboxRecord)
          → find_event id s ≡ some old
          → old.acknowledged_at ≡ 0
          → IsCurrent (put_event id (record old { acknowledged_at = env.now }) s)
      acknowledged old found open' j r there waits = elim (Bool-cases (id == j)) [
        | inl e ↦
            let one : record old { acknowledged_at = env.now } ≡ r =
              some_eq (rw (lookup-insert, e) at there) in
            subst (λ (x : OutboxRecord). HasCurrent x.event s) one
              (current id old found
                (still_waits (subst (λ x. is_pending x ≡ true) (sym one) waits)))
        | inr apart ↦ current j r (rw (lookup-insert, apart) at there) waits
      ]
        where
          still_waits :
              is_pending (record old { acknowledged_at = env.now }) ≡ true → is_pending old ≡ true
          still_waits h = ground arith
