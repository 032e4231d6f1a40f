-- ===== src/Canonical/Standing.antt =====
-- outcome_store.go: what stays of an outcome and of a finalization.
use gas_city.Prelude.{◌<ℤ◌, <ℤ_trans, ◌<◌, ◌≡◌, refl, sym, subst, ◌∙◌, ◌⊎◌, inl, inr, false, arith}
use gas_city.Canonical.Issue.{Issue, coded}
use gas_city.Outcomes.Records.{OutcomeRecord, FinalizationReceipt}
use gas_city.Contracts.Event.{is_zero}
use gas_city.Outcomes.Envelope.{OutcomeReady}

-- An outcome that is acknowledged, or delivered, stays so; only a later generation, which happened
-- later, takes its place.
abbrev pub Standing : OutcomeRecord → OutcomeRecord → Type 0
Standing r q =
    ((r.envelope.fence.generation <ℤ q.envelope.fence.generation)
      × (r.envelope.occurred_at < q.envelope.occurred_at))
    ⊎ ((q.envelope ≡ r.envelope)
        × (q.pending_at ≡ r.pending_at)
        × (is_zero r.delivered_at ≡ false → q.delivered_at ≡ r.delivered_at)
        × (is_zero r.acknowledged_at ≡ false → q ≡ r))

abbrev pub Lasts : Issue → Issue → Type 0
Lasts i j =
    ((r : OutcomeRecord)
      → i.outbox ≡ coded r
      → (q : OutcomeRecord) × (j.outbox ≡ coded q) × Standing r q)
    × ((f : FinalizationReceipt) → i.finalization ≡ coded f → j.finalization ≡ coded f)

pub Standing-refl : (r : OutcomeRecord) → Standing r r
Standing-refl r = inr (refl, refl, λ _. refl, λ _. refl)

pub Standing-trans : (r q p : OutcomeRecord) → Standing r q → Standing q p → Standing r p
Standing-trans r q p (inl (g, t)) (inl (g', t')) = inl (
  <ℤ_trans r.envelope.fence.generation q.envelope.fence.generation p.envelope.fence.generation g g',
  omega arith,
)
Standing-trans r q p (inl (g, t)) (inr (same, _, _, _)) = inl (
    subst
      (λ (e : OutcomeReady).
        (r.envelope.fence.generation <ℤ e.fence.generation)
        × (r.envelope.occurred_at < e.occurred_at))
      (sym same) (g, t))
Standing-trans r q p (inr (same, _, _, _)) (inl (g, t)) = inl (
    subst
      (λ (e : OutcomeReady).
        (e.fence.generation <ℤ p.envelope.fence.generation)
        × (e.occurred_at < p.envelope.occurred_at))
      same (g, t))
Standing-trans r q p (inr (same, at, delivered, acked)) (inr (same', at', delivered', acked')) =
    inr (
      same' ∙ same,
      at' ∙ at,
      λ h. delivered' (subst (λ t. is_zero t ≡ false) (sym (delivered h)) h) ∙ delivered h,
      λ h.
          acked'
            (subst (λ (x : OutcomeRecord). is_zero x.acknowledged_at ≡ false) (sym (acked h)) h)
          ∙ acked h,
    )

pub Lasts-refl : (i : Issue) → Lasts i i
Lasts-refl i = (λ r h. (r, h, Standing-refl r), λ f h. h)

pub Lasts-trans : (i j k : Issue) → Lasts i j → Lasts j k → Lasts i k
Lasts-trans i j k (outs, ends) (outs', ends') = (
  λ r h.
      let (q, there, one) = outs r h in
      let (p, here, two) = outs' q there in (p, here, Standing-trans r q p one two),
  λ f h. ends' f (ends f h),
)
