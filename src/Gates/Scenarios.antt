-- ===== src/Gates/Scenarios.antt =====
-- A runner evaluates a local gate of its run, and sends its evidence twice.
use collab.Base.{◌≡◌, refl, true, false, none, some, List, [], ◌∷◌, String, ok}
use collab.Base.Table.{get, set}
use collab.Authority.Sessions.{SessionRow, inspect_only, advisory}
use collab.Runs.Lifecycle.{running}
use collab.Gates.Approvals.{
  ApprovalRow, Approval, is_commit, find, is_gate_fingerprint_approved, approve_gate_fingerprint,
  approve_keeps,
}
use collab.Gates.Records.{
  local_command, passed, GateCommand, LocalEvidence, local, EvaluationRow, GateEvaluation,
  row_to_evaluation, is_row, write,
}
use collab.Gates.Evaluations.{record_local, local_state, is_evidence}
use collab.Gates.Evaluations.Passed.{Grounded}
use collab.Gates.Coordinator.{
  AuthorityTables, EvaluateGate, trusted_base, Sender, sender, is_authenticated, evaluate_kind,
  evaluate,
}
use collab.Gates.Coordinator.Authenticated.{evaluate-Grounded, evaluate_keeps_settled}
use collab.Gates.Coordinator.Live.{IsLive, evaluate-IsLive}
use collab.Base.Patterns.{is_hash}

abbrev commit : String
commit = "0123456789012345678901234567890123456789"

abbrev fingerprint : String
fingerprint = "0123456789abcdef0123456789abcdef0123456789abcdef0123456789abcdef"

abbrev approvals : List ApprovalRow
approvals =
    record {
      project_id = "project";
      base_revision = commit;
      fingerprint = fingerprint;
      approved_by_runner_owner_id = "owner";
      approved_at = 1;
      revoked_at = none;
    }
    ∷ []

abbrev revoked : ApprovalRow
revoked = record {
  project_id = "project";
  base_revision = commit;
  fingerprint = fingerprint;
  approved_by_runner_owner_id = "owner";
  approved_at = 1;
  revoked_at = some 5;
}

abbrev request : Approval
request = record {
  project_id = "project";
  base_revision = commit;
  fingerprint = fingerprint;
  approved_by_runner_owner_id = "owner";
  approved_at = 9;
}

abbrev binding : GateCommand
binding = record {
  id = "gate-1";
  project_id = "project";
  base_revision = commit;
  run_id = "run";
  repository_revision = commit;
  gate_key = "tests";
  manifest_fingerprint = fingerprint;
  kind = local_command;
}

abbrev green : LocalEvidence
green = record {
  exit_code = some 0;
  duration_ms = 10;
  timed_out = false;
  cancelled = false;
  tracked_mutation = false;
  output_digest = fingerprint;
}

abbrev stored : EvaluationRow
stored = record {
  run_id = "run";
  repository_revision = commit;
  gate_key = "tests";
  manifest_fingerprint = fingerprint;
  kind = local_command;
  state = passed;
  evidence = local green;
  created_at = 20;
  completed_at = some 20;
}

abbrev command : EvaluateGate
command = record {
  binding = binding;
  manifest_source = trusted_base;
  runner_actor = some record { runner_id = "runner"; runner_epoch = 2 };
  session_id = some "session";
  session_fence = some 3;
  idempotency_key = some "key";
  check_observation = none;
  required_check = none;
  local_evidence = some green;
}

abbrev tables : AuthorityTables
tables = record {
  sessions =
      record {
        id = "session";
        attempt_id = "attempt";
        runner_id = "runner";
        runner_epoch = 2;
        fence = 3;
        repository_mode = inspect_only;
        repository_assurance = advisory;
        issued_at = 1;
        expires_at = 100;
        is_active = true;
      }
      ∷ [];
  attempts = record { id = "attempt"; run_id = "run"; runner_id = "runner"; state = running } ∷ [];
  runners =
      record { id = "runner"; owner_member_id = "owner"; runner_epoch = 2; is_revoked = false }
      ∷ [];
}

abbrev passed_evaluation : GateEvaluation
passed_evaluation = record {
  id = "gate-1";
  run_id = "run";
  repository_revision = commit;
  gate_key = "tests";
  manifest_fingerprint = fingerprint;
  kind = local_command;
  state = passed;
  created_at = 20;
  completed_at = some 20;
}

evaluated :
    evaluate tables approvals 19 20 command [] ≡ (("gate-1", stored) ∷ [], ok passed_evaluation)
unfolding evaluate evaluate_kind sender is_authenticated record_local is_gate_fingerprint_approved
    find is_evidence is_hash get set write is_row is_commit local_state row_to_evaluation
evaluated = refl

accepted : (evaluate tables approvals 19 20 command []).1 ≡ ok passed_evaluation
accepted = rw evaluated

evaluate-IsLive_example :
    (command.manifest_source ≡ trusted_base)
    × (is_gate_fingerprint_approved "project" commit fingerprint approvals ≡ true)
    × ((w : Sender) × (sender command ≡ some w) × ((s : SessionRow) × IsLive tables 19 "run" w s))
evaluate-IsLive_example =
    evaluate-IsLive tables approvals 19 20 command [] green passed_evaluation refl refl accepted

Grounded-nil : Grounded []
unfolding get
Grounded-nil id r h = cc

evaluate-Grounded_example : Grounded (evaluate tables approvals 19 20 command []).0
evaluate-Grounded_example = evaluate-Grounded tables approvals 19 20 command [] Grounded-nil

stored_found : get "gate-1" (("gate-1", stored) ∷ []) ≡ some stored
unfolding get
stored_found = refl

evaluate_keeps_settled_example :
    get "gate-1" (evaluate tables approvals 29 30 command (("gate-1", stored) ∷ [])).0 ≡ some stored
evaluate_keeps_settled_example =
    evaluate_keeps_settled tables approvals 29 30 command (("gate-1", stored) ∷ []) "gate-1" stored
      stored_found refl

recorded :
    record_local approvals 20 binding green [] ≡ (("gate-1", stored) ∷ [], ok passed_evaluation)
unfolding record_local is_gate_fingerprint_approved find is_evidence is_hash get set write is_row
    is_commit local_state row_to_evaluation
recorded = refl

still_approved : is_gate_fingerprint_approved "project" commit fingerprint approvals ≡ true
unfolding is_gate_fingerprint_approved find
still_approved = refl

revoked_found : find "project" commit fingerprint (revoked ∷ []) ≡ some revoked
unfolding find
revoked_found = refl

approve_keeps_example :
    find "project" commit fingerprint (approve_gate_fingerprint request (revoked ∷ [])).0
    ≡ some revoked
approve_keeps_example =
    approve_keeps request (revoked ∷ []) "project" commit fingerprint revoked revoked_found
