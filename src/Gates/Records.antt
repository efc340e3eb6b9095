-- ===== src/Gates/Records.antt =====
-- server/modules/gates/evaluations.ts: the commands, the evidence and the rows of gate evaluations,
-- with the table gate_evaluations of server/db/migrations/0015_gates_telemetry.sql and
-- `GitHubCheckObservation` of shared/contracts/github.ts.
use Prim.Native.String.{count}
use collab.Base.{
  ℕ, Bool, true, false, not, ◌&&◌, Option, none, some, List, String, same, leb, if◌then◌else◌,
  Result, ok, err, never,
}
use collab.Base.Patterns.{is_hash}
use collab.Base.Table.{Table, set}
use collab.Gates.Approvals.{is_commit}

pub data GateKind : Type 0 where
  local_command github_check : GateKind

pub data GateState : Type 0 where
  pending running passed failed cancelled timed_out stale : GateState

-- `GateEvaluationCommand`
pub record GateCommand : Type 0 where
  pub id : String
  pub project_id : String
  pub base_revision : String
  pub run_id : String
  pub repository_revision : String
  pub gate_key : String
  pub manifest_fingerprint : String
  pub kind : GateKind

pub record LocalEvidence : Type 0 where
  pub exit_code : Option ℕ
  pub duration_ms : ℕ
  pub timed_out : Bool
  pub cancelled : Bool
  pub tracked_mutation : Bool
  pub output_digest : String

pub data CheckStatus : Type 0 where
  queued in_progress completed : CheckStatus

pub data Conclusion : Type 0 where
  success failure neutral cancelled skipped timed_out action_required : Conclusion

-- `GitHubCheckObservation`
pub record Observation : Type 0 where
  pub check_run_id : String
  pub repository_id : String
  pub commit_sha : String
  pub check_name : String
  pub status : CheckStatus
  pub conclusion : Option Conclusion
  pub scope_digest : String
  pub observed_at : ℕ
  pub fresh : Bool

pub data Acceptable : Type 0 where
  success neutral skipped : Acceptable

pub record RequiredCheck : Type 0 where
  pub repository_id : String
  pub scope_digest : String
  pub check_name : String
  pub acceptable_conclusions : List Acceptable

-- The column evidence_json: `{}`, local evidence, or the fields of an observation.
pub record CheckEvidence : Type 0 where
  pub check_run_id : String
  pub repository_id : String
  pub commit_sha : String
  pub check_name : String
  pub status : CheckStatus
  pub conclusion : Option Conclusion
  pub observed_at : ℕ

pub data Evidence : Type 0 where
  empty : Evidence
  local : LocalEvidence → Evidence
  check : CheckEvidence → Evidence

-- A row; its key is the identifier of the evaluation.
pub record EvaluationRow : Type 0 where
  pub run_id : String
  pub repository_revision : String
  pub gate_key : String
  pub manifest_fingerprint : String
  pub kind : GateKind
  pub state : GateState
  pub evidence : Evidence
  pub created_at : ℕ
  pub completed_at : Option ℕ

pub record GateEvaluation : Type 0 where
  pub id : String
  pub run_id : String
  pub repository_revision : String
  pub gate_key : String
  pub manifest_fingerprint : String
  pub kind : GateKind
  pub state : GateState
  pub created_at : ℕ
  pub completed_at : Option ℕ

-- `thrown` is the error of a statement that a constraint of the table refuses.
pub data GateError : Type 0 where
  kind_invalid fingerprint_stale evidence_invalid evaluation_replay : GateError
  revision_stale evaluation_stale thrown : GateError
  runner_evidence_required runner_evidence_stale manifest_untrusted : GateError

abbrev pub Evaluations : Type 0
Evaluations = Table EvaluationRow

abbrev pub Answer : Type 0
Answer = Evaluations × Result GateError GateEvaluation

unfoldable pub row_to_evaluation : String → EvaluationRow → GateEvaluation
row_to_evaluation id r = record {
  id = id;
  run_id = r.run_id;
  repository_revision = r.repository_revision;
  gate_key = r.gate_key;
  manifest_fingerprint = r.manifest_fingerprint;
  kind = r.kind;
  state = r.state;
  created_at = r.created_at;
  completed_at = r.completed_at;
}

abbrev pub is_same_kind : GateKind → GateKind → Bool
is_same_kind local_command local_command = true
is_same_kind github_check github_check = true
is_same_kind _ _ = false

-- PENDING or RUNNING.
abbrev pub is_open : GateState → Bool
is_open pending = true
is_open running = true
is_open _ = false

abbrev pub is_pending : GateState → Bool
is_pending pending = true
is_pending _ = false

-- The test that all of an existing row's inputs are those of the command.
unfoldable pub is_bound_to : GateCommand → EvaluationRow → Bool
is_bound_to c r =
    same r.run_id c.run_id
    && (same r.repository_revision c.repository_revision
        && (same r.gate_key c.gate_key
            && (same r.manifest_fingerprint c.manifest_fingerprint && is_same_kind r.kind c.kind)))

abbrev is_name : String → Bool
is_name s = leb 1 (count s) && leb (count s) 128

abbrev is_completion : GateState → ℕ → Option ℕ → Bool
is_completion state created none = is_open state
is_completion state created (some at) = not (is_open state) && leb created at

-- The constraints of the table.
unfoldable pub is_row : String → EvaluationRow → Bool
is_row id r =
    (is_name id && (is_name r.run_id && is_name r.gate_key))
    && (is_commit r.repository_revision
        && (is_hash r.manifest_fingerprint && is_completion r.state r.created_at r.completed_at))

-- An INSERT of a new row, or an UPDATE of the row of the identifier, and the evaluation returned.
unfoldable pub write : String → EvaluationRow → Evaluations → Answer
write id r rows =
    if is_row id r then (set id r rows, ok (row_to_evaluation id r)) else (rows, err thrown never)

abbrev pub new_row : GateCommand → GateState → Evidence → ℕ → Option ℕ → EvaluationRow
new_row c state evidence created done = record {
  run_id = c.run_id;
  repository_revision = c.repository_revision;
  gate_key = c.gate_key;
  manifest_fingerprint = c.manifest_fingerprint;
  kind = c.kind;
  state = state;
  evidence = evidence;
  created_at = created;
  completed_at = done;
}
