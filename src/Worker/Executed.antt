-- ===== src/Worker/Executed.antt =====
-- activity.go: what ExecuteBead has done where it answers a result.
use gas_city.Prelude.{
  if_cases, ◌==◌, nat_eq, Str, text_eq, int_eq, ◌≡◌, refl, ap, subst, true, ◌&&◌, not, Option, none,
  some, List, [], arith,
}
use gas_city.Errors.{
  Check, ◌>>=◌, ◌>>◌, wrap, err_not_ok, ok_eq, require-ok, Result, ok, err, non_retryable,
  claim_failed,
}
use gas_city.Contracts.Event
use gas_city.Worker.Interface.{
  returned, run_canceled, run_failed, BeadStore, AgentExecutor, Info, AgentExecutionRequest, RunEnd,
}
use gas_city.Worker.Execute.{
  claim_lease, run_agent, validate_worker, claim_as, session_for, end_of_run, execute_session,
  request_of, check_lease, cancel_attached, record_attempt, AgentExecution, activity_heartbeat,
}
use gas_city.Worker.Finish.{
  execute_bead, complete_lease, from_heartbeat, with_lease, claimed_and_run, run_and_complete,
  executed_terminal, Finished, resumed_terminal,
}
use gas_city.Worker.Delivered.{IsDelivered, complete-IsDelivered}
use gas_city.Bridge.World.{and_then, and_then-ok}
use gas_city.Contracts.Event.{ReadyEvent}
use gas_city.Contracts.Payloads.{
  ClaimRequest, ClaimLease, ActivityResult, HeartbeatCheckpoint, checkpoint_phase_complete,
}
use gas_city.Contracts.Link.{workflow_id}
use gas_city.Worker.Tracker.{HeartbeatTracker, records, new_tracker}

-- A store and an agent that keep a property of the world, as long as a claim answers.
pub record Keeps {ℓ κ} {W : Type ℓ} (P : W → Type κ) (beads : BeadStore W) (agent : AgentExecutor W)
    : Type (ℓ ⊔ κ) where
  pub claim_keeps :
      (q : ClaimRequest) (l : ClaimLease) (w : W)
      → P w
      → (beads.claim_bead q w).0 ≡ ok l
      → P (beads.claim_bead q w).1
  pub resolve_keeps : (q : AgentExecutionRequest) (w : W) → P w → P (agent.resolve_session q w).1
  pub execute_keeps : (q : AgentExecutionRequest) (w : W) → P w → P (agent.execute_agent q w).1

module _ {ℓ κ} {W : Type ℓ} (P : W → Type κ) (beads : BeadStore W) (agent : AgentExecutor W)
    (keeps : Keeps P beads agent) (info : Info) (event : ReadyEvent) where
  claimed-keeps :
      (l : ClaimLease) (w w' : W)
      → P w
      → claim_lease beads event w ≡ (ok l, w')
      → (not (l.token == []) ≡ true) × P w'
  unfolding claim_lease
  claimed-keeps l w w' p h =
      go
        (wrap (λ _. non_retryable "InvalidWorkflowIdentity")
          (workflow_id event.city_id event.run_id event.bead_id))
        h
    where
      leased :
          (q : ClaimRequest) (m : Result ClaimLease)
          → (beads.claim_bead q w).0 ≡ m
          → (wrap claim_failed m >>= check_lease event) ≡ ok l
          → (not (l.token == []) ≡ true) × P (beads.claim_bead q w).1
      leased q (err e) k h' = absurd (err_not_ok h')
      leased q (ok got) k h' =
          let (fits, same) =
            require-ok
              (got.acquired
                && (got.bead_id == event.bead_id
                    && (got.generation == event.generation && not (got.token == []))))
              _ (ok got) h' in
          (
            subst (λ (x : ClaimLease). not (x.token == []) ≡ true) (ok_eq same) (ground arith),
            keeps.claim_keeps q got w p k,
          )

      go :
          (m : Result Str)
          → claim_as beads event m w ≡ (ok l, w')
          → (not (l.token == []) ≡ true) × P w'
      go (err e) h' = absurd (err_not_ok (ap (λ x. x.0) h'))
      go (ok id) h' =
          let q : ClaimRequest = record {
            bead_id = event.bead_id;
            generation = event.generation;
            workflow_id = id;
          } in
          let (token, kept) = leased q (beads.claim_bead q w).0 refl (ap (λ x. x.0) h') in
          (token, subst P (ap (λ x. x.1) h') kept)

  session-keeps :
      (request : AgentExecutionRequest) (resume : Option HeartbeatCheckpoint) (id : Str) (w w' : W)
      → P w
      → session_for agent request resume w ≡ (ok id, w')
      → P w'
  session-keeps request (some h) id w w' p e = subst P (ap (λ x. x.1) e) p
  session-keeps request none id w w' p e =
      subst P (ap (λ x. x.1) e) (keeps.resolve_keeps request w p)

  canceled_not_ok :
      (lease : ClaimLease) (id : Str) (e : AgentExecution) (w w' : W)
      → ¬ (cancel_attached agent event lease id w ≡ (ok e, w'))
  canceled_not_ok lease id e w w' h = ground arith

  recorded_not_ok :
      (lease : ClaimLease) (e : AgentExecution) (w w' : W)
      → ¬ (record_attempt beads event lease info.attempt w ≡ (ok e, w'))
  recorded_not_ok lease e w w' h = ground arith

  end-keeps :
      (lease : ClaimLease) (id : Str) (t : HeartbeatTracker) (ends : RunEnd) (e : AgentExecution)
      (w w' : W)
      → P w
      → end_of_run beads agent info event lease id t ends w ≡ (ok e, w')
      → P w'
  end-keeps lease id t run_canceled e w w' p h = absurd (canceled_not_ok lease id e w w' h)
  end-keeps lease id t (returned r) e w w' p h =
      if_cases (λ (x : Result AgentExecution × W). x ≡ (ok e, w') → P w') info.is_canceled _ _
        (λ _ k. absurd (canceled_not_ok lease id e w w' k)) (λ _ k. subst P (ap (λ x. x.1) k) p) h
  end-keeps lease id t run_failed e w w' p h =
      if_cases (λ (x : Result AgentExecution × W). x ≡ (ok e, w') → P w') info.is_canceled _ _
        (λ _ k. absurd (canceled_not_ok lease id e w w' k))
        (λ _ k. absurd (recorded_not_ok lease e w w' k)) h

  run-keeps :
      (lease : ClaimLease) (resume : Option HeartbeatCheckpoint) (e : AgentExecution) (w w' : W)
      → P w
      → run_agent beads agent info event lease resume w ≡ (ok e, w')
      → P w'
  unfolding run_agent
  run-keeps lease resume e w w' p h =
      let (id, v, got, rest) =
        and_then-ok (session_for agent (request_of event lease resume) resume w)
          (execute_session beads agent info event lease resume) h in
      let q : AgentExecutionRequest = record (request_of event lease resume) { session_id = id } in
      end-keeps lease id
        (records (agent.execute_agent q v).0.reports (new_tracker event lease resume id))
        (agent.execute_agent q v).0.ends e (agent.execute_agent q v).1 w'
        (keeps.execute_keeps q v
          (session-keeps (request_of event lease resume) resume id w v p got))
        rest

  completed-Delivers :
      (lease : ClaimLease) (resume : Option HeartbeatCheckpoint) (result : ActivityResult)
      (sent : List HeartbeatCheckpoint) (w w' : W)
      → P w
      → not (lease.token == []) ≡ true
      → run_and_complete beads agent info event lease resume w ≡ (ok (result, sent), w')
      → (before : W) × P before × IsDelivered beads event result before w'
  completed-Delivers lease resume result sent w w' p token h =
      let (e, v, ran, rest) =
        and_then-ok (run_agent beads agent info event lease resume w)
          (λ e. complete_lease beads info event lease (executed_terminal e)) h in
      (
        v,
        run-keeps lease resume e w v p ran,
        complete-IsDelivered beads info event lease (executed_terminal e) result sent v w' token
            rest,
      )

  heartbeat-Delivers :
      (lease : ClaimLease) (resume : Option HeartbeatCheckpoint) (result : ActivityResult)
      (sent : List HeartbeatCheckpoint) (w w' : W)
      → P w
      → not (lease.token == []) ≡ true
      → from_heartbeat beads agent info event lease resume w ≡ (ok (result, sent), w')
      → (before : W) × P before × IsDelivered beads event result before w'
  heartbeat-Delivers lease none result sent w w' p token h =
      completed-Delivers lease none result sent w w' p token h
  heartbeat-Delivers lease (some c) result sent w w' p token h =
      if_cases
        (λ (x : Result Finished × W).
          x ≡ (ok (result, sent), w')
          → (before : W) × P before × IsDelivered beads event result before w')
        (c.phase == checkpoint_phase_complete) _ _
        (λ _ k. (
          w,
          p,
          complete-IsDelivered beads info event lease (resumed_terminal c) result sent w w' token k,
        ))
        (λ _ k. completed-Delivers lease (some c) result sent w w' p token k) h

  claimed-Delivers :
      (result : ActivityResult) (sent : List HeartbeatCheckpoint) (w w' : W)
      → P w
      → claimed_and_run info event (beads, agent) w ≡ (ok (result, sent), w')
      → (before : W) × P before × IsDelivered beads event result before w'
  claimed-Delivers result sent w w' p h =
      let (lease, v, claimed, rest) =
        and_then-ok (claim_lease beads event w) (with_lease beads agent info event) h in
      let (token, kept) = claimed-keeps lease w v p claimed in
      let (resume, u, read, last) =
        and_then-ok (activity_heartbeat info.heartbeat_details event lease, v)
          (from_heartbeat beads agent info event lease) rest in
      heartbeat-Delivers lease resume result sent u w' (subst P (ap (λ x. x.1) read) kept) token
        last

-- Where the calls of the store and of the agent keep a property of the world: an activity that
-- answers a result has made the store take, in a world with the property, a completion of the event's
-- bead and generation under a token that is not empty, with the session, the outcome and the artifacts
-- of the result; the result is completed, names the event, and has at most 64 artifacts, all valid.
pub execute_bead-IsDelivered {ℓ κ} :
    {W : Type ℓ} (P : W → Type κ) (beads : BeadStore W) (agent : AgentExecutor W)
    → Keeps P beads agent
    → (info : Info) (event : ReadyEvent) (result : ActivityResult) (sent : List HeartbeatCheckpoint)
      (w w' : W)
    → P w
    → execute_bead (record { beads = some beads; agent = some agent }) info event w
      ≡ (ok (result, sent), w')
    → (before : W) × P before × IsDelivered beads event result before w'
unfolding execute_bead validate_worker
execute_bead-IsDelivered {W = W} P beads agent keeps info event result sent w w' p h =
    go (Event.validate event) h
  where
    go :
        (m : Check)
        → and_then
            (wrap (λ _. non_retryable "InvalidReadyEvent") m >> ok (beads, agent), w)
            (claimed_and_run info event)
          ≡ (ok (result, sent), w')
        → (before : W) × P before × IsDelivered beads event result before w'
    go (ok _) k = claimed-Delivers P beads agent keeps info event result sent w w' p k
    go (err e) k = absurd (err_not_ok (ap (λ x. x.0) k))
