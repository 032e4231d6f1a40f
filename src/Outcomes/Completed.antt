-- ===== src/Outcomes/Completed.antt =====
-- outcome_contracts.go: the outcome of a completion.
use gas_city.Prelude.{Str, text, decimal, hex, sha256, List, [], ◌∷◌, ◌++◌, json_text}
use gas_city.Errors.{Result}
use gas_city.Outcomes.Envelope.{temporal, terminal, new_outcome_ready, AdapterInput, OutcomeReady}
use gas_city.Contracts.Artifact
use gas_city.Contracts.Payloads
use gas_city.Contracts.Payloads.{Outcome, Completion}
use gas_city.FileStore.Records.{BeadRecord}
use gas_city.Contracts.Artifact.{ArtifactRef}
use gas_city.Contracts.Event.{Time}

abbrev outcome_text : Outcome → Str
outcome_text Payloads.no_outcome = []
outcome_text Payloads.completed = text "completed"
outcome_text (Payloads.other s) = s

-- The JSON text that terminalReceiptArtifact hashes.
abbrev receipt_json : BeadRecord → Completion → Str
receipt_json r c =
    text "{\"bead_id\":"
    ++ (json_text r.bead_id
        ++ (text ",\"generation\":"
            ++ (decimal c.generation
                ++ (text ",\"workflow_id\":"
                    ++ (json_text c.source_workflow_id
                        ++ (text ",\"workflow_run_id\":"
                            ++ (json_text c.source_workflow_run_id
                                ++ (text ",\"session_id\":"
                                    ++ (json_text c.session_id
                                        ++ (text ",\"outcome\":"
                                            ++ (json_text (outcome_text c.outcome)
                                                ++ text "}")))))))))))

-- terminalReceiptArtifact
unfoldable pub terminal_receipt_artifact : BeadRecord → Completion → ArtifactRef
terminal_receipt_artifact r c = record {
  kind = Artifact.review_record;
  uri = text "bead:" ++ r.bead_id;
  sha256 = hex (sha256 (receipt_json r c));
}

unfoldable pub evidence_of : BeadRecord → Completion → List ArtifactRef → List ArtifactRef
unfolding terminal_receipt_artifact
evidence_of r c [] = terminal_receipt_artifact r c ∷ []
evidence_of r c (a ∷ as') = a ∷ as'

abbrev pub completion_input : BeadRecord → Completion → Str → Time → AdapterInput
completion_input r c store_ref occurred_at = record {
  store_ref = store_ref;
  work_id = r.bead_id;
  source_root_id = r.formula.root_id;
  workflow_id = c.source_workflow_id;
  workflow_run_id = c.source_workflow_run_id;
  step_key = r.formula.step_key;
  summary =
      text "Temporal completed "
      ++ (r.formula.step_key ++ (text " for " ++ (r.bead_id ++ text ".")));
  impact = text "The verified terminal result is ready for coordinator acknowledgement.";
  state = terminal;
  evidence = evidence_of r c c.artifact_refs;
  fence = record { producer_id = c.session_id; generation = c.generation; token = c.claim_token };
  occurred_at = occurred_at;
}

-- temporalCompletionOutcome
unfoldable pub temporal_completion_outcome :
    BeadRecord → Completion → Str → Time → Result OutcomeReady
unfolding new_outcome_ready
temporal_completion_outcome r c store_ref occurred_at =
    new_outcome_ready temporal (completion_input r c store_ref occurred_at)
