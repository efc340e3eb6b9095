-- ===== src/Gates/Coordinator/Live.antt =====
-- evaluations.ts: local evidence is only taken from the runner that holds a live session of the run,
-- and only under an approved manifest of the trusted base revision.
use mathlib.Core.List.{Memᴰ}
use collab.Base.{
  ℕ, ◌≡◌, ◌<◌, true, false, inl, inr, some, List, String, arith, ok, any-mem, Bool-cases,
  Option-cases, eq_iff,
}
use collab.Authority.Sessions.{SessionRow, AttemptRow}
use collab.Gates.Approvals.{ApprovalRow, is_gate_fingerprint_approved}
use collab.Gates.Records.{local_command, LocalEvidence, GateEvaluation, Evaluations}
use collab.Gates.Evaluations.{record_local}
use collab.Gates.Coordinator.{
  RunnerRow, AuthorityTables, EvaluateGate, trusted_base, Sender, sender, is_live_session,
  is_live_attempt, is_live_runner, is_authenticated, evaluate_kind, evaluate,
}

-- The session of the sender is active, has not expired, belongs to an attempt of the run, and its
-- runner is not revoked and in the epoch of the sender.
pub record IsLive (t : AuthorityTables) (now : ℕ) (run : String) (w : Sender) (s : SessionRow)
    : Type 0 where
  pub listed : Memᴰ s t.sessions
  pub id : s.id ≡ w.session_id
  pub runner_id : s.runner_id ≡ w.actor.runner_id
  pub runner_epoch : s.runner_epoch ≡ w.actor.runner_epoch
  pub fence : s.fence ≡ w.fence
  pub active : s.is_active ≡ true
  pub unexpired : now < s.expires_at
  pub attempt : (a : AttemptRow) × Memᴰ a t.attempts × (a.id ≡ s.attempt_id) × (a.run_id ≡ run)
  pub runner :
      (r : RunnerRow) × Memᴰ r t.runners
      × (r.id ≡ s.runner_id)
      × (r.runner_epoch ≡ w.actor.runner_epoch)
      × (r.is_revoked ≡ false)

is_authenticated-IsLive :
    (t : AuthorityTables) (now : ℕ) (run : String) (w : Sender)
    → is_authenticated t now run w ≡ true
    → (s : SessionRow) × IsLive t now run w s
unfolding is_authenticated
is_authenticated-IsLive t now run w h =
    let (s, listed, live) = any-mem (is_live_session t now run w) t.sessions h in
    let (a, a_listed, at) = any-mem (is_live_attempt run s) t.attempts (ground arith) in
    let (r, r_listed, rt) = any-mem (is_live_runner w.actor s) t.runners (ground arith) in
    (
      s,
      record {
        listed = listed;
        id = ground (arith, eq_iff s.id w.session_id);
        runner_id = ground (arith, eq_iff s.runner_id w.actor.runner_id);
        runner_epoch = ground arith;
        fence = ground arith;
        active = ground arith;
        unexpired = ground arith;
        attempt = (
          a,
          a_listed,
          ground (arith, eq_iff a.id s.attempt_id),
          ground (arith, eq_iff a.run_id run),
        );
        runner = (r, r_listed, ground (arith, eq_iff r.id s.runner_id), ground arith, ground arith);
      },
    )

record_local-approved :
    (approvals : List ApprovalRow) (later : ℕ) (c : EvaluateGate) (v : LocalEvidence)
    (rows : Evaluations) (e : GateEvaluation)
    → (record_local approvals later c.binding v rows).1 ≡ ok e
    → is_gate_fingerprint_approved c.binding.project_id c.binding.base_revision
        c.binding.manifest_fingerprint approvals
      ≡ true
unfolding record_local
record_local-approved approvals later c v rows e h = ground arith

-- An evaluation of a local command whose evidence is accepted comes from the trusted base revision,
-- under an approved fingerprint that is not revoked, and from a sender with a live session: active,
-- unexpired, with the sender's fence and epoch, of an attempt of the run, and of a runner that is not
-- revoked and is in that epoch.
pub evaluate-IsLive :
    (t : AuthorityTables) (approvals : List ApprovalRow) (now later : ℕ) (c : EvaluateGate)
    (rows : Evaluations) (v : LocalEvidence) (e : GateEvaluation)
    → c.binding.kind ≡ local_command
    → c.local_evidence ≡ some v
    → (evaluate t approvals now later c rows).1 ≡ ok e
    → (c.manifest_source ≡ trusted_base)
      × (is_gate_fingerprint_approved c.binding.project_id c.binding.base_revision
            c.binding.manifest_fingerprint approvals
          ≡ true)
      × ((w : Sender) × (sender c ≡ some w)
          × ((s : SessionRow) × IsLive t now c.binding.run_id w s))
unfolding evaluate evaluate_kind
evaluate-IsLive t approvals now later c rows v e kind given h = elim (Option-cases (sender c)) [
  | inl missing ↦ absurd (ground arith)
  | inr (w, at) ↦ elim (Bool-cases (is_authenticated t now c.binding.run_id w)) [
    | inr dead ↦ absurd (ground arith)
    | inl live ↦
        let trusted : c.manifest_source ≡ trusted_base = ground arith in
        let recorded : (record_local approvals later c.binding v rows).1 ≡ ok e = ground arith in
        (
          trusted,
          record_local-approved approvals later c v rows e recorded,
          (w, at, is_authenticated-IsLive t now c.binding.run_id w live),
        )
  ]
]
