-- ===== src/Worker/Delivered.antt =====
-- activity.go: an activity that answers a result has completed the bead in the store.
use gas_city.Prelude.{
  leb, if_cases, length, length-take-le, ◌==◌, nat_eq, text_eq, int_eq, ℕ, ◌≤◌, ◌≡◌, refl, ap,
  subst, ◌∙◌, Bool, true, false, ◌&&◌, not, List, [], arith,
}
use gas_city.Errors.{
  Check, wrap, check_all, >>-ok, err_not_ok, wrap-ok, ok_eq, require-ok, ok, err, non_retryable,
  completion_failed,
}
use gas_city.Contracts.Payloads
use gas_city.Contracts.Payloads.{
  outcome_eq, ActivityResult, ClaimLease, Completion, Outcome, HeartbeatCheckpoint,
}
use gas_city.Contracts.Artifact
use gas_city.Worker.Interface.{BeadStore, Info}
use gas_city.Worker.Finish.{
  complete_lease, check_complete, check_terminal, store_completion, kept_refs, Terminal, too_many,
  completion_for, result_for, Finished,
}
use gas_city.Contracts.Artifact.{ArtifactRef}
use gas_city.Contracts.Event.{ReadyEvent}
use gas_city.Contracts.Identifiers.{validate_segment, validate_workflow_id}

-- The store has taken, in the world `before`, a completion under the lease that holds just the
-- result; `after` is the world it left.
pub record IsDelivered {ℓ} {W : Type ℓ} (beads : BeadStore W) (event : ReadyEvent)
    (result : ActivityResult) (before after : W) : Type ℓ where
  pub completion : Completion
  pub of_bead : completion.bead_id ≡ event.bead_id
  pub of_generation : completion.generation ≡ event.generation
  pub has_token : not (completion.claim_token == []) ≡ true
  pub same_session : completion.session_id ≡ result.session_id
  pub same_artifacts : completion.artifact_refs ≡ result.artifact_refs
  pub same_outcome : completion.outcome ≡ result.outcome
  pub is_completed : result.outcome ≡ Payloads.completed
  pub of_event : result.event_id ≡ event.event_id
  pub bounded : length result.artifact_refs ≤ 64
  pub valid_artifacts : check_all Artifact.validate result.artifact_refs ≡ ok tt
  pub taken : beads.complete_bead completion before ≡ (ok tt, after)

within : (m n : ℕ) → not (leb m n) ≡ false → m ≤ n
within m n h = ground arith

kept_refs-bounded : (refs : List ArtifactRef) → length (kept_refs refs) ≤ 64
kept_refs-bounded refs =
    if_cases (λ (xs : List ArtifactRef). length xs ≤ 64) (too_many refs) _ _
      (λ _. length-take-le 64 refs) (λ h. within (length refs) 64 h)

done_outcome :
    (o : Outcome) (b : Bool) → (o == Payloads.completed && b) ≡ true → o ≡ Payloads.completed
done_outcome o b h = ground arith

checked :
    (info : Info) (event : ReadyEvent) (lease : ClaimLease) (t : Terminal)
    → check_complete info event lease t ≡ ok tt
    → (t.result.outcome ≡ Payloads.completed)
      × (check_all Artifact.validate (kept_refs t.result.artifact_refs) ≡ ok tt)
unfolding check_complete check_terminal
checked info event lease t h =
    let (terminal, final) = >>-ok (check_terminal info t.result) _ h in
    let (good, rest) =
      require-ok (t.result.outcome == Payloads.completed && not (t.result.session_id == [])) _ _
        terminal in
    let (session, more) =
      >>-ok
        (wrap (λ _. non_retryable "InvalidAgentResult")
          (validate_segment "session id" t.result.session_id))
        _ rest in
    let (source, ids) =
      >>-ok
        (wrap (λ _. non_retryable "InvalidSourceWorkflow")
          (validate_workflow_id "source workflow id" info.workflow_id))
        _ more in
    let (run, refs) =
      >>-ok
        (wrap (λ _. non_retryable "InvalidSourceWorkflow")
          (validate_segment "source workflow run id" info.run_id))
        _ ids in
    (
      done_outcome t.result.outcome (not (t.result.session_id == [])) good,
      wrap-ok (λ _. non_retryable "InvalidArtifactRef")
          (check_all Artifact.validate (kept_refs t.result.artifact_refs)) refs,
    )

module _ {ℓ} {W : Type ℓ} (beads : BeadStore W) (info : Info) (event : ReadyEvent) where
  pub complete-IsDelivered :
      (lease : ClaimLease) (t : Terminal) (result : ActivityResult)
      (sent : List HeartbeatCheckpoint) (w w' : W)
      → not (lease.token == []) ≡ true
      → complete_lease beads info event lease t w ≡ (ok (result, sent), w')
      → IsDelivered beads event result w w'
  unfolding complete_lease
  complete-IsDelivered lease t result sent w w' token h =
      go (check_complete info event lease t) refl h
    where
      c : Completion
      c = completion_for info event lease t.result

      go :
          (m : Check)
          → check_complete info event lease t ≡ m
          → store_completion beads info event lease t m w ≡ (ok (result, sent), w')
          → IsDelivered beads event result w w'
      go (err e) k h' = absurd (err_not_ok (ap (λ p. p.0) h'))
      go (ok _) k h' =
          let (good, refs) = checked info event lease t k in
          let (stored, made) =
            >>-ok (wrap completion_failed (beads.complete_bead c w).0) _ (ap (λ p. p.0) h') in
          let same : result_for event t.result t.truncated ≡ result =
            ap (λ (p : Finished). p.0) (ok_eq made) in
          subst (λ (r : ActivityResult). IsDelivered beads event r w w') same
            (record {
              completion = c;
              of_bead = refl;
              of_generation = refl;
              has_token = token;
              same_session = refl;
              same_artifacts = refl;
              same_outcome = refl;
              is_completed = good;
              of_event = refl;
              bounded = kept_refs-bounded t.result.artifact_refs;
              valid_artifacts = refs;
              taken =
                  ap (λ (m : Check). (m, (beads.complete_bead c w).1))
                    (wrap-ok completion_failed (beads.complete_bead c w).0 stored)
                  ∙ ap (λ v. (ok tt, v)) (ap (λ p. p.1) h');
            })
