-- ===== src/Gates/Evaluations.antt =====
-- server/modules/gates/evaluations.ts: the store of gate evaluations (createGateEvaluationStore). The
-- clock's reading is an argument. Evidence is compared as the JSON text of its fields, which is equal
-- where they are.
pub mod Passed
pub mod Settled
use collab.Base.{
  ℕ, Bool, true, false, not, ◌&&◌, ◌||◌, Option, none, some, List, [], ◌∷◌, same, leb, ◌==◌,
  if◌then◌else◌, any, ok, err, never, refresh,
}
use collab.Base.Patterns.{is_hash}
use collab.Base.Table.{get}
use collab.Gates.Approvals.{ApprovalRow, is_gate_fingerprint_approved}
use collab.Gates.Records.{
  local_command, GateState, pending, passed, failed, GateCommand, LocalEvidence, CheckStatus,
  completed, Conclusion, Observation, Acceptable, RequiredCheck, Evidence, empty, local, check,
  EvaluationRow, kind_invalid, fingerprint_stale, evidence_invalid, evaluation_replay,
  revision_stale, evaluation_stale, Evaluations, Answer, row_to_evaluation, is_same_kind, is_open,
  is_pending, is_bound_to, write, new_row,
}

start_new : ℕ → GateCommand → Evaluations → Option EvaluationRow → Answer
start_new now c rows none = write c.id (new_row c pending empty now none) rows
start_new now c rows (some r) =
    if is_bound_to c r
    then (rows, ok (row_to_evaluation c.id r))
    else (rows, err evaluation_replay never)

abbrev is_approved : List ApprovalRow → GateCommand → Bool
is_approved approvals c =
    is_gate_fingerprint_approved c.project_id c.base_revision c.manifest_fingerprint approvals

-- startLocal
unfoldable pub start_local : List ApprovalRow → ℕ → GateCommand → Evaluations → Answer
unfolding start_new
start_local approvals now c rows =
    if not (is_same_kind c.kind local_command)
    then (rows, err kind_invalid never)
    else if not (is_approved approvals c)
    then (rows, err fingerprint_stale refresh)
    else start_new now c rows (get c.id rows)

abbrev is_exit_code : Option ℕ → Bool
is_exit_code none = true
is_exit_code (some n) = leb n 255

-- LocalGateEvidenceSchema
unfoldable pub is_evidence : LocalEvidence → Bool
is_evidence e =
    is_exit_code e.exit_code
    && (leb e.duration_ms 3600000 && (is_hash e.output_digest && not (e.timed_out && e.cancelled)))

abbrev is_zero : Option ℕ → Bool
is_zero none = false
is_zero (some n) = n == 0

unfoldable pub local_state : LocalEvidence → GateState
local_state e =
    if e.cancelled
    then GateState.cancelled
    else if e.timed_out
    then GateState.timed_out
    else if is_zero e.exit_code && not e.tracked_mutation
    then passed
    else failed

abbrev same_bool : Bool → Bool → Bool
same_bool true b = b
same_bool false b = not b

abbrev same_exit : Option ℕ → Option ℕ → Bool
same_exit none none = true
same_exit (some m) (some n) = m == n
same_exit _ _ = false

abbrev same_local : LocalEvidence → LocalEvidence → Bool
same_local d e =
    same_exit d.exit_code e.exit_code
    && (d.duration_ms == e.duration_ms
        && (same_bool d.timed_out e.timed_out
            && (same_bool d.cancelled e.cancelled
                && (same_bool d.tracked_mutation e.tracked_mutation
                    && same d.output_digest e.output_digest))))

-- existing.evidence_json === JSON.stringify(evidence.data)
unfoldable pub is_local : Evidence → LocalEvidence → Bool
is_local empty e = false
is_local (local d) e = same_local d e
is_local (check _) e = false

record_row : ℕ → GateCommand → LocalEvidence → Evaluations → Option EvaluationRow → Answer
record_row now c e rows none = write c.id (new_row c (local_state e) (local e) now (some now)) rows
record_row now c e rows (some r) =
    if not (is_bound_to c r)
    then (rows, err evaluation_replay never)
    else if is_open r.state
    then write c.id record r { state = local_state e; evidence = local e; completed_at = some now }
        rows
    else if is_local r.evidence e
    then (rows, ok (row_to_evaluation c.id r))
    else (rows, err evaluation_replay never)

-- recordLocal
unfoldable pub record_local :
    List ApprovalRow → ℕ → GateCommand → LocalEvidence → Evaluations → Answer
unfolding record_row
record_local approvals now c e rows =
    if not (is_same_kind c.kind local_command)
    then (rows, err kind_invalid never)
    else if not (is_approved approvals c)
    then (rows, err fingerprint_stale refresh)
    else if not (is_evidence e)
    then (rows, err evidence_invalid never)
    else record_row now c e rows (get c.id rows)

abbrev pub is_completed : CheckStatus → Bool
is_completed completed = true
is_completed _ = false

abbrev is_conclusion : Conclusion → Acceptable → Bool
is_conclusion Conclusion.success Acceptable.success = true
is_conclusion Conclusion.neutral Acceptable.neutral = true
is_conclusion Conclusion.skipped Acceptable.skipped = true
is_conclusion _ _ = false

-- required.acceptableConclusions.includes(observation.conclusion)
abbrev pub is_acceptable : List Acceptable → Option Conclusion → Bool
is_acceptable accepted none = false
is_acceptable accepted (some c) = any (is_conclusion c) accepted

abbrev failed_state : Option Conclusion → GateState
failed_state none = failed
failed_state (some c) = elim c [
  | Conclusion.cancelled ↦ GateState.cancelled
  | Conclusion.timed_out ↦ GateState.timed_out
  | _ ↦ failed
]

unfoldable pub check_state : Observation → RequiredCheck → GateState
check_state o q =
    if not (is_completed o.status)
    then pending
    else if is_acceptable q.acceptable_conclusions o.conclusion
    then passed
    else failed_state o.conclusion

abbrev pub evidence_of : Observation → Evidence
evidence_of o = check record {
  check_run_id = o.check_run_id;
  repository_id = o.repository_id;
  commit_sha = o.commit_sha;
  check_name = o.check_name;
  status = o.status;
  conclusion = o.conclusion;
  observed_at = o.observed_at;
}

abbrev same_status : CheckStatus → CheckStatus → Bool
same_status CheckStatus.queued CheckStatus.queued = true
same_status CheckStatus.in_progress CheckStatus.in_progress = true
same_status CheckStatus.completed CheckStatus.completed = true
same_status _ _ = false

abbrev conclusion_number : Option Conclusion → ℕ
conclusion_number none = 0
conclusion_number (some c) = elim c [
  | Conclusion.success ↦ 1
  | Conclusion.failure ↦ 2
  | Conclusion.neutral ↦ 3
  | Conclusion.cancelled ↦ 4
  | Conclusion.skipped ↦ 5
  | Conclusion.timed_out ↦ 6
  | Conclusion.action_required ↦ 7
]

-- The comparison of a prior observation's four fields, which other evidence does not have.
unfoldable pub is_same_check : Evidence → Observation → Bool
is_same_check empty o = false
is_same_check (local _) o = false
is_same_check (check p) o =
    same p.check_run_id o.check_run_id
    && (same_status p.status o.status
        && (conclusion_number p.conclusion == conclusion_number o.conclusion
            && p.observed_at == o.observed_at))

-- The revision of the observation, and what else makes it stale.
unfoldable pub is_current : Observation → RequiredCheck → Bool
is_current o q =
    o.fresh
    && (same o.repository_id q.repository_id
        && (same o.scope_digest q.scope_digest && same o.check_name q.check_name))

abbrev completion : GateState → ℕ → Option ℕ
completion state now = if is_pending state then none else some now

unfoldable pub checked_row :
    ℕ → GateCommand → Observation → RequiredCheck → Option EvaluationRow → EvaluationRow
checked_row now c o q none =
    new_row c (check_state o q) (evidence_of o) now (completion (check_state o q) now)
checked_row now c o q (some r) = record r {
  state = check_state o q;
  evidence = evidence_of o;
  completed_at = completion (check_state o q) now;
}

write_check :
    ℕ → GateCommand → Observation → RequiredCheck → Evaluations → Option EvaluationRow → Answer
write_check now c o q rows prior =
    if not (same o.commit_sha c.repository_revision)
    then (rows, err revision_stale refresh)
    else if not (is_current o q)
    then (rows, err evaluation_stale refresh)
    else write c.id (checked_row now c o q prior) rows

check_row :
    ℕ → GateCommand → Observation → RequiredCheck → Evaluations → Option EvaluationRow → Answer
unfolding write_check
check_row now c o q rows none = write_check now c o q rows none
check_row now c o q rows (some r) =
    if not (is_bound_to c r)
    then (rows, err evaluation_replay never)
    else if is_pending r.state
    then write_check now c o q rows (some r)
    else if is_same_check r.evidence o
    then (rows, ok (row_to_evaluation c.id r))
    else (rows, err evaluation_replay never)

-- recordGitHub
unfoldable pub record_git_hub :
    List ApprovalRow → ℕ → GateCommand → Observation → RequiredCheck → Evaluations → Answer
unfolding check_row
record_git_hub approvals now c o q rows =
    if not (is_approved approvals c)
    then (rows, err fingerprint_stale refresh)
    else check_row now c o q rows (get c.id rows)
