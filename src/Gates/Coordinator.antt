-- ===== src/Gates/Coordinator.antt =====
-- server/modules/gates/evaluations.ts: the coordinator of gates (createGateCoordinator), which asks
-- the tables of the execution authority and of the runners before it calls the store. A table of
-- runners that is not there is one without rows.
pub mod Authenticated
pub mod Live
use collab.Base.{
  ℕ, Bool, false, not, ◌&&◌, ◌||◌, Option, none, some, List, String, same, leb, ltb, ◌==◌,
  if◌then◌else◌, any, Result, err, never, refresh,
}
use collab.Authority.Sessions.{SessionRow, AttemptRow}
use collab.Gates.Approvals.{
  ApprovalRow, Approval, ApprovalError, runner_owner_required, approve_gate_fingerprint,
}
use collab.Gates.Records.{
  GateKind, local_command, github_check, GateCommand, LocalEvidence, Observation, RequiredCheck,
  Evaluations, Answer, evidence_invalid, runner_evidence_required, runner_evidence_stale,
  manifest_untrusted,
}
use collab.Gates.Evaluations.{start_local, record_local, record_git_hub}

pub record RunnerRow : Type 0 where
  pub id : String
  pub owner_member_id : String
  pub runner_epoch : ℕ
  pub is_revoked : Bool

-- The tables authority_sessions, execution_attempts and runners, as far as the queries read them.
pub record AuthorityTables : Type 0 where
  pub sessions : List SessionRow
  pub attempts : List AttemptRow
  pub runners : List RunnerRow

pub data ManifestSource : Type 0 where
  trusted_base run_worktree : ManifestSource

pub record RunnerActor : Type 0 where
  pub runner_id : String
  pub runner_epoch : ℕ

-- `EvaluateGate`: the command of the store, with where it comes from and its evidence.
pub record EvaluateGate : Type 0 where
  pub binding : GateCommand
  pub manifest_source : ManifestSource
  pub runner_actor : Option RunnerActor
  pub session_id : Option String
  pub session_fence : Option ℕ
  pub idempotency_key : Option String
  pub check_observation : Option Observation
  pub required_check : Option RequiredCheck
  pub local_evidence : Option LocalEvidence

is_owner : String → String → RunnerRow → Bool
is_owner runner owner r = same r.id runner && (same r.owner_member_id owner && not r.is_revoked)

-- approveFingerprint
unfoldable pub approve_fingerprint :
    List RunnerRow
    → String
    → Approval
    → List ApprovalRow
    → List ApprovalRow × Result ApprovalError Approval
unfolding is_owner
approve_fingerprint runners runner a approvals =
    if any (is_owner runner a.approved_by_runner_owner_id) runners
    then approve_gate_fingerprint a approvals
    else (approvals, err runner_owner_required never)

-- Who sent the evidence: the runner and its session, once all parts are given.
pub record Sender : Type 0 where
  pub actor : RunnerActor
  pub session_id : String
  pub fence : ℕ

abbrev is_given : Option String → Bool
is_given none = false
is_given (some s) = not (same s "")

abbrev sender_with : Bool → Option RunnerActor → Option String → Option ℕ → Option Sender
sender_with keyed (some actor) (some session) (some fence) =
    if keyed && (not (same session "") && leb 1 fence)
    then some record { actor = actor; session_id = session; fence = fence }
    else none
sender_with keyed _ _ _ = none

unfoldable pub sender : EvaluateGate → Option Sender
sender c = sender_with (is_given c.idempotency_key) c.runner_actor c.session_id c.session_fence

abbrev is_live_runner : RunnerActor → SessionRow → RunnerRow → Bool
is_live_runner a s r =
    same r.id s.runner_id && (r.runner_epoch == a.runner_epoch && not r.is_revoked)

abbrev is_live_attempt : String → SessionRow → AttemptRow → Bool
is_live_attempt run s a = same a.id s.attempt_id && same a.run_id run

abbrev pub is_live_session : AuthorityTables → ℕ → String → Sender → SessionRow → Bool
is_live_session t now run w s =
    same s.id w.session_id
    && (same s.runner_id w.actor.runner_id
        && (s.runner_epoch == w.actor.runner_epoch
            && (s.fence == w.fence
                && (s.is_active
                    && (ltb now s.expires_at
                        && (any (is_live_attempt run s) t.attempts
                            && any (is_live_runner w.actor s) t.runners))))))

-- The query that joins the session with its attempt and its runner.
unfoldable pub is_authenticated : AuthorityTables → ℕ → String → Sender → Bool
is_authenticated t now run w = any (is_live_session t now run w) t.sessions

abbrev record_from :
    AuthorityTables
    → List ApprovalRow
    → ℕ
    → ℕ
    → EvaluateGate
    → LocalEvidence
    → Evaluations
    → Option Sender
    → Answer
record_from t approvals now later c e rows none = (rows, err runner_evidence_required never)
record_from t approvals now later c e rows (some w) =
    if is_authenticated t now c.binding.run_id w
    then record_local approvals later c.binding e rows
    else (rows, err runner_evidence_stale refresh)

abbrev evaluate_local :
    AuthorityTables
    → List ApprovalRow
    → ℕ
    → ℕ
    → EvaluateGate
    → Evaluations
    → Option LocalEvidence
    → Answer
evaluate_local t approvals now later c rows none = start_local approvals later c.binding rows
evaluate_local t approvals now later c rows (some e) =
    record_from t approvals now later c e rows (sender c)

abbrev evaluate_check :
    List ApprovalRow
    → ℕ
    → EvaluateGate
    → Evaluations
    → Option Observation
    → Option RequiredCheck
    → Answer
evaluate_check approvals later c rows (some o) (some q) =
    record_git_hub approvals later c.binding o q rows
evaluate_check approvals later c rows _ _ = (rows, err evidence_invalid refresh)

unfoldable pub evaluate_kind :
    AuthorityTables → List ApprovalRow → ℕ → ℕ → EvaluateGate → Evaluations → GateKind → Answer
evaluate_kind t approvals now later c rows local_command =
    evaluate_local t approvals now later c rows c.local_evidence
evaluate_kind t approvals now later c rows github_check =
    evaluate_check approvals later c rows c.check_observation c.required_check

-- evaluate. The clock is read for the session, and once more, `later`, by the store.
unfoldable pub evaluate :
    AuthorityTables → List ApprovalRow → ℕ → ℕ → EvaluateGate → Evaluations → Answer
evaluate t approvals now later c rows = elim c.manifest_source [
  | trusted_base ↦ evaluate_kind t approvals now later c rows c.binding.kind
  | run_worktree ↦ (rows, err manifest_untrusted never)
]
