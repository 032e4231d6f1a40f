-- ===== src/Coordinator/Handled.antt =====
-- outcome_reconciler.go: each outcome that a reconciliation meets is brought on, or named by an error.
use gas_city.Prelude.{All, ◌≡◌, refl, ◌⊎◌, inl, inr, Bool, true, false, some, List, [], ◌∷◌, ◌++◌}
use gas_city.Errors.{
  Error, Result, ok, err, pending_unsignalled, legacy_unpersisted, legacy_unsignalled,
}
use gas_city.Outcomes.Envelope.{OutcomeReady}
use gas_city.Coordinator.Gateway.{OutcomeGateway, ensure, deliver_outcome}
use gas_city.Coordinator.Reconcile.{
  OutcomeSource, Tally, take_ensured, take_delivered, produce, ensure_all, produce_all,
  report_error, count_produced,
}
use gas_city.Contracts.Link.{WorkflowReceipt}
use gas_city.Outcomes.Records.{OutcomeRecord}
use gas_city.Coordinator.Ensured.{
  runs, stored, Fact, ensure-runs, ensure-keeps, deliver-keeps, deliver-runs,
}

-- The error is one of the list.
abbrev pub Has : Error → List Error → Type 0
Has e [] = ⊥
Has e (x ∷ xs) = (x ≡ e) ⊎ Has e xs

pub Has-more : (e x : Error) (xs : List Error) → Has e xs → Has e (xs ++ (x ∷ []))
Has-more e x [] h = elim h [ ]
Has-more e x (y ∷ ys) (inl h) = inl h
Has-more e x (y ∷ ys) (inr h) = inr (Has-more e x ys h)

pub Has-last : (e : Error) (xs : List Error) → Has e (xs ++ (e ∷ []))
Has-last e [] = inl refl
Has-last e (y ∷ ys) = inr (Has-last e ys)

-- The two ways in which an item ends with an error that names it.
abbrev pub PendingReported : OutcomeReady → List Error → Type 0
PendingReported o errors = (e : Error) × Has (pending_unsignalled o.work_id o.outcome_id e) errors

abbrev pub LegacyReported : OutcomeReady → List Error → Type 0
LegacyReported o errors =
    (e : Error) × (Has (legacy_unpersisted o.work_id o.outcome_id e) errors
      ⊎ Has (legacy_unsignalled o.work_id o.outcome_id e) errors)

module _ {ℓ} {W : Type ℓ} (g : OutcomeGateway W) (s : OutcomeSource W) (Holds : Fact → W → Type ℓ)
    (signal_keeps : (o : OutcomeReady) (w : W) (f : Fact)
      → Holds f w
      → Holds f (g.signal_with_start_outcome o w).1)
    (query_keeps : (o : OutcomeReady) (w : W) (f : Fact)
      → Holds f w
      → Holds f (g.outcome_workflow_running o w).1)
    (emit_keeps : (o : OutcomeReady) (w : W) (f : Fact)
      → Holds f w
      → Holds f (s.emit_outcome o w).1)
    (discover_keeps : (w : W) (f : Fact) → Holds f w → Holds f (s.discover_legacy_outcomes w).1)
    (signal_runs : (o : OutcomeReady) (w : W) (r : WorkflowReceipt)
      → (g.signal_with_start_outcome o w).0 ≡ ok r
      → Holds (runs o) (g.signal_with_start_outcome o w).1)
    (query_runs : (o : OutcomeReady) (w : W)
      → (g.outcome_workflow_running o w).0 ≡ ok true
      → Holds (runs o) (g.outcome_workflow_running o w).1)
    (emit_stores : (o : OutcomeReady) (w : W) (r : OutcomeRecord)
      → (s.emit_outcome o w).0 ≡ ok r
      → Holds (stored o) (s.emit_outcome o w).1) where
  -- A tally and a world that come after others: what held holds, what was reported is.
  pub record Later (t : Tally) (w : W) (t' : Tally) (w' : W) : Type ℓ where
    pub keeps : (f : Fact) → Holds f w → Holds f w'
    pub reported : (e : Error) → Has e t.1 → Has e t'.1

  pub Later-trans :
      (t t' t'' : Tally) (w w' w'' : W) → Later t w t' w' → Later t' w' t'' w'' → Later t w t'' w''
  Later-trans t t' t'' w w' w'' a b = record {
    keeps = λ f h. b.keeps f (a.keeps f h);
    reported = λ e h. b.reported e (a.reported e h);
  }

  -- A pending outcome is brought on, or reported; and so is a candidate.
  abbrev pub PendingHandled : OutcomeReady → Tally → W → Type ℓ
  PendingHandled o t w = Holds (runs o) w ⊎ PendingReported o t.1

  abbrev pub LegacyHandled : OutcomeReady → Tally → W → Type ℓ
  LegacyHandled o t w = (Holds (stored o) w × Holds (runs o) w) ⊎ LegacyReported o t.1

  pub pending-Later :
      (o : OutcomeReady) (t t' : Tally) (w w' : W)
      → Later t w t' w'
      → PendingHandled o t w
      → PendingHandled o t' w'
  pending-Later o t t' w w' l (inl h) = inl (l.keeps (runs o) h)
  pending-Later o t t' w w' l (inr (e, h)) = inr (e, l.reported _ h)

  legacy-Later :
      (o : OutcomeReady) (t t' : Tally) (w w' : W)
      → Later t w t' w'
      → LegacyHandled o t w
      → LegacyHandled o t' w'
  legacy-Later o t t' w w' l (inl (h, k)) = inl (l.keeps (stored o) h, l.keeps (runs o) k)
  legacy-Later o t t' w w' l (inr (e, inl h)) = inr (e, inl (l.reported _ h))
  legacy-Later o t t' w w' l (inr (e, inr h)) = inr (e, inr (l.reported _ h))

  take_ensured-reported :
      (o : OutcomeReady) (m : Result (WorkflowReceipt × Bool)) (t : Tally) (e : Error)
      → Has e t.1
      → Has e (take_ensured o m t).1
  take_ensured-reported o (err x) t e h = Has-more e _ t.1 h
  take_ensured-reported o (ok (r, true)) t e h = h
  take_ensured-reported o (ok (r, false)) t e h = h

  pending_round :
      (o : OutcomeReady) (t : Tally) (w : W)
      → PendingHandled o (take_ensured o (ensure (some g) o w).0 t) (ensure (some g) o w).1
        × Later t w (take_ensured o (ensure (some g) o w).0 t) (ensure (some g) o w).1
  pending_round o t w = (
    go (ensure (some g) o w).0
        (ensure-runs g Holds signal_keeps query_keeps signal_runs query_runs o w),
    record {
      keeps = ensure-keeps g Holds signal_keeps query_keeps signal_runs query_runs o w;
      reported = take_ensured-reported o (ensure (some g) o w).0 t;
    },
  )
    where
      go :
          (m : Result (WorkflowReceipt × Bool))
          → ((a : WorkflowReceipt × Bool) → m ≡ ok a → Holds (runs o) (ensure (some g) o w).1)
          → PendingHandled o (take_ensured o m t) (ensure (some g) o w).1
      go (err e) there = inr (e, Has-last _ t.1)
      go (ok a) there = inl (there a refl)

  take_delivered-reported :
      (o : OutcomeReady) (m : Result WorkflowReceipt) (t : Tally) (e : Error)
      → Has e t.1
      → Has e (take_delivered o m t).1
  take_delivered-reported o (err x) t e h = Has-more e _ t.1 h
  take_delivered-reported o (ok r) t e h = h

  delivered_round :
      (o : OutcomeReady) (t : Tally) (w : W)
      → Holds (stored o) w
      → LegacyHandled o
          (take_delivered o (deliver_outcome (some g) o w).0 t)
          (deliver_outcome (some g) o w).1
  delivered_round o t w there =
      go (deliver_outcome (some g) o w).0
        (deliver-runs g Holds signal_keeps query_keeps signal_runs query_runs o w)
    where
      v : W
      v = (deliver_outcome (some g) o w).1

      go :
          (m : Result WorkflowReceipt)
          → ((r : WorkflowReceipt) → m ≡ ok r → Holds (runs o) v)
          → LegacyHandled o (take_delivered o m t) v
      go (err e) running = inr (e, inr (Has-last _ t.1))
      go (ok r) running = inl (
        deliver-keeps g Holds signal_keeps query_keeps signal_runs query_runs o w (stored o) there,
        running r refl,
      )

  legacy_round :
      (o : OutcomeReady) (t : Tally) (w : W)
      → LegacyHandled o (produce s (some g) o t w).0 (produce s (some g) o t w).1
        × Later t w (produce s (some g) o t w).0 (produce s (some g) o t w).1
  unfolding produce
  legacy_round o t w = go (s.emit_outcome o w).0 (emit_stores o w)
    where
      v : W
      v = (s.emit_outcome o w).1

      u : W
      u = (deliver_outcome (some g) o v).1

      after : Result OutcomeRecord → Tally × W
      after emitted = elim emitted [
        | err e ↦ (report_error (legacy_unpersisted o.work_id o.outcome_id e) t, v)
        | ok _ ↦ (take_delivered o (deliver_outcome (some g) o v).0 (count_produced t), u)
      ]

      go :
          (m : Result OutcomeRecord)
          → ((r : OutcomeRecord) → m ≡ ok r → Holds (stored o) v)
          → LegacyHandled o (after m).0 (after m).1 × Later t w (after m).0 (after m).1
      go (err e) there = (
        inr (e, inl (Has-last _ t.1)),
        record { keeps = emit_keeps o w; reported = λ x h. Has-more x _ t.1 h },
      )
      go (ok r) there = (
        delivered_round o (count_produced t) v (there r refl),
        record {
          keeps = λ f h.
              deliver-keeps g Holds signal_keeps query_keeps signal_runs query_runs o v f
                (emit_keeps o w f h);
          reported = take_delivered-reported o (deliver_outcome (some g) o v).0 (count_produced t);
        },
      )

  pub ensure_all-handled :
      (rs : List OutcomeRecord) (t : Tally) (w : W)
      → All
          (λ (r : OutcomeRecord).
            PendingHandled r.envelope (ensure_all (some g) rs t w).0 (ensure_all (some g) rs t w).1)
          rs
        × Later t w (ensure_all (some g) rs t w).0 (ensure_all (some g) rs t w).1
  unfolding ensure_all
  ensure_all-handled [] t w = (tt, record { keeps = λ f h. h; reported = λ e h. h })
  ensure_all-handled (r ∷ rs) t w =
      let v = (ensure (some g) r.envelope w).1 in
      let t' = take_ensured r.envelope (ensure (some g) r.envelope w).0 t in
      let (handled, here) = pending_round r.envelope t w in
      let (rest, later) = ensure_all-handled rs t' v in
      let out = ensure_all (some g) rs t' v in
      (
        (pending-Later r.envelope t' out.0 v out.1 later handled, rest),
        Later-trans t t' out.0 w v out.1 here later,
      )

  pub produce_all-handled :
      (os : List OutcomeReady) (t : Tally) (w : W)
      → All
          (λ o. LegacyHandled o (produce_all s (some g) os t w).0 (produce_all s (some g) os t w).1)
          os
        × Later t w (produce_all s (some g) os t w).0 (produce_all s (some g) os t w).1
  unfolding produce_all
  produce_all-handled [] t w = (tt, record { keeps = λ f h. h; reported = λ e h. h })
  produce_all-handled (o ∷ os) t w =
      let (t', v) = produce s (some g) o t w in
      let (handled, here) = legacy_round o t w in
      let (rest, later) = produce_all-handled os t' v in
      let out = produce_all s (some g) os t' v in
      (
        (legacy-Later o t' out.0 v out.1 later handled, rest),
        Later-trans t t' out.0 w v out.1 here later,
      )
