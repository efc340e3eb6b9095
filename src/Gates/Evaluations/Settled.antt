-- ===== src/Gates/Evaluations/Settled.antt =====
-- evaluations.ts: recording the same evidence again answers the same and changes nothing.
use mathlib.Core.Path.{subst}
use collab.Base.{
  ℕ, ◌≡◌, refl, true, false, Option, some, List, String, arith, ok, Bool-cases, Option-cases, inl,
  inr, eq_iff,
}
use collab.Base.Table.{get, get-set}
use collab.Gates.Approvals.{ApprovalRow, is_gate_fingerprint_approved}
use collab.Gates.Records.{
  local_command, GateState, GateCommand, LocalEvidence, Evidence, local, EvaluationRow,
  GateEvaluation, Evaluations, is_same_kind, is_open, is_bound_to, row_to_evaluation, write,
  new_row,
}
use collab.Gates.Evaluations.{record_local, local_state, is_local, is_evidence}

is_local_self : (e : LocalEvidence) → is_local (local e) e ≡ true
unfolding is_local
is_local_self e = ground (arith, eq_iff e.output_digest e.output_digest)

local_state-settled : (e : LocalEvidence) → is_open (local_state e) ≡ false
unfolding local_state
local_state-settled e = ground arith

bound_new :
    (c : GateCommand) (s : GateState) (v : Evidence) (created : ℕ) (finished : Option ℕ)
    → is_bound_to c (new_row c s v created finished) ≡ true
unfolding is_bound_to
bound_new c s v created finished = ground (
  arith,
  eq_iff c.run_id c.run_id,
  eq_iff c.repository_revision c.repository_revision,
  eq_iff c.gate_key c.gate_key,
  eq_iff c.manifest_fingerprint c.manifest_fingerprint,
)

bound_update :
    (c : GateCommand) (r : EvaluationRow) (s : GateState) (v : Evidence) (finished : Option ℕ)
    → is_bound_to c r ≡ true
    → is_bound_to c (record r { state = s; evidence = v; completed_at = finished }) ≡ true
unfolding is_bound_to
bound_update c r s v finished h = h

written :
    (id : String) (r : EvaluationRow) (rows after : Evaluations) (v : GateEvaluation)
    → write id r rows ≡ (after, ok v)
    → (get id after ≡ some r) × (v ≡ row_to_evaluation id r)
unfolding write
written id r rows after v h =
    let known = get-set id id r rows in let self = eq_iff id id in (ground arith, ground arith)

-- A settled row of the command that holds the evidence, and its evaluation.
abbrev Recorded : GateCommand → LocalEvidence → Evaluations → GateEvaluation → Type 0
Recorded c e rows v =
    (r : EvaluationRow) × (get c.id rows ≡ some r)
    × (is_bound_to c r ≡ true)
    × (is_open r.state ≡ false)
    × (is_local r.evidence e ≡ true)
    × (v ≡ row_to_evaluation c.id r)

written-Recorded :
    (c : GateCommand) (e : LocalEvidence) (r : EvaluationRow) (rows after : Evaluations)
    (v : GateEvaluation)
    → is_bound_to c r ≡ true
    → r.state ≡ local_state e
    → r.evidence ≡ local e
    → write c.id r rows ≡ (after, ok v)
    → Recorded c e after v
written-Recorded c e r rows after v bound state_of shown h =
    let (at, value) = written c.id r rows after v h in
    (r, at, bound, rw state_of (local_state-settled e), rw shown (is_local_self e), value)

-- What a successful recording leaves.
record_local-Recorded :
    (approvals : List ApprovalRow) (now : ℕ) (c : GateCommand) (e : LocalEvidence)
    (rows after : Evaluations) (v : GateEvaluation)
    → record_local approvals now c e rows ≡ (after, ok v)
    → (is_same_kind c.kind local_command ≡ true) × (is_evidence e ≡ true) × Recorded c e after v
unfolding record_local
record_local-Recorded approvals now c e rows after v h =
    let kind : is_same_kind c.kind local_command ≡ true = ground arith in
    let valid : is_evidence e ≡ true = ground arith in
    elim (Option-cases (get c.id rows)) [
      | inl new ↦ (
        kind,
        valid,
        written-Recorded c e (new_row c (local_state e) (local e) now (some now)) rows after v
            (bound_new c (local_state e) (local e) now (some now)) refl refl (ground arith),
      )
      | inr (p, known) ↦
          let bound : is_bound_to c p ≡ true = ground arith in
          elim (Bool-cases (is_open p.state)) [
            | inl open_row ↦ (
              kind,
              valid,
              written-Recorded c e
                  (record p { state = local_state e; evidence = local e; completed_at = some now })
                  rows after v (bound_update c p (local_state e) (local e) (some now) bound) refl
                  refl (ground arith),
            )
            | inr settled ↦
                let kept : rows ≡ after = ground arith in
                (
                  kind,
                  valid,
                  (
                    p,
                    subst (λ a. get c.id a ≡ some p) kept known,
                    bound,
                    settled,
                    ground arith,
                    ground arith,
                  ),
                )
          ]
    ]

-- Recording the same evidence for the same command again, at any later time, answers the same
-- evaluation and changes nothing, as long as the fingerprint is still approved.
record_local_again :
    (approvals later : List ApprovalRow) (now again : ℕ) (c : GateCommand) (e : LocalEvidence)
    (rows after : Evaluations) (v : GateEvaluation)
    → record_local approvals now c e rows ≡ (after, ok v)
    → is_gate_fingerprint_approved c.project_id c.base_revision c.manifest_fingerprint later ≡ true
    → record_local later again c e after ≡ (after, ok v)
unfolding record_local
record_local_again approvals later now again c e rows after v h approved =
    let (kind, valid, (r, at, bound, settled, shown, value)) =
      record_local-Recorded approvals now c e rows after v h in
    ground arith
