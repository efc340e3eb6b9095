-- ===== src/Gates/Evaluations/Passed.antt =====
-- evaluations.ts: a stored evaluation says PASSED only on evidence that shows it.
use mathlib.Core.Path.{subst}
use collab.Base.{
  ℕ, ◌≡◌, refl, sym, Bool, true, false, not, ◌&&◌, Option, none, some, List, [], ◌∷◌, String, same,
  arith, ◌==◌, Bool-cases, Option-cases, ◌⊎◌, inl, inr, eq_iff,
}
use collab.Base.Table.{get, get-set}
use collab.Gates.Approvals.{ApprovalRow, is_gate_fingerprint_approved}
use collab.Gates.Records.{
  GateKind, local_command, github_check, pending, passed, GateCommand, LocalEvidence, Conclusion,
  Acceptable, Observation, RequiredCheck, Evidence, empty, local, check, EvaluationRow, Evaluations,
  Answer, is_same_kind, is_open, is_bound_to, is_pending, is_row, write, new_row,
}
use collab.Gates.Evaluations.{
  start_local, is_evidence, local_state, record_local, is_completed, is_acceptable, check_state,
  is_current, evidence_of, checked_row, record_git_hub,
}

abbrev is_zero : Option ℕ → Bool
is_zero none = false
is_zero (some n) = n == 0

abbrev is_favourable : Option Conclusion → Bool
is_favourable none = false
is_favourable (some c) = elim c [
  | Conclusion.success ↦ true
  | Conclusion.neutral ↦ true
  | Conclusion.skipped ↦ true
  | _ ↦ false
]

-- The evidence that a gate passed. For a local command: exit code 0, without cancellation, timeout
-- or a change of tracked files. For a check: completed, with a favourable conclusion, on the revision
-- that is evaluated.
pub shows_pass : GateKind → String → Evidence → Bool
shows_pass kind revision empty = false
shows_pass kind revision (local e) =
    is_same_kind kind local_command
    && (is_zero e.exit_code && (not e.cancelled && (not e.timed_out && not e.tracked_mutation)))
shows_pass kind revision (check p) =
    is_same_kind kind github_check
    && (is_completed p.status && (is_favourable p.conclusion && same p.commit_sha revision))

pub is_grounded : EvaluationRow → Bool
is_grounded r = elim r.state [
  | passed ↦ shows_pass r.kind r.repository_revision r.evidence
  | _ ↦ true
]

-- Every stored evaluation that says PASSED has the evidence.
abbrev pub Grounded : Evaluations → Type 0
Grounded rows = (id : String) (r : EvaluationRow) → get id rows ≡ some r → is_grounded r ≡ true

write-Grounded :
    (id : String) (r : EvaluationRow) (rows : Evaluations)
    → is_grounded r ≡ true
    → Grounded rows
    → Grounded (write id r rows).0
unfolding write
write-Grounded id r rows g h j q e =
    let known = h j q in
    elim (Bool-cases (is_row id r)) [
      | inl fits ↦ elim (Bool-cases (same id j)) [
        | inl at ↦
            let same_row : r ≡ q = ground (arith, get-set id j r rows) in
            subst (λ a. is_grounded a ≡ true) same_row g
        | inr other ↦ known (ground (arith, get-set id j r rows))
      ]
      | inr refused ↦ known (ground arith)
    ]

local-shows_pass :
    (kind : GateKind) (revision : String) (e : LocalEvidence)
    → is_same_kind kind local_command ≡ true
    → local_state e ≡ passed
    → shows_pass kind revision (local e) ≡ true
unfolding local_state shows_pass
local-shows_pass kind revision e k h = ground arith

-- A row is grounded where its state is not PASSED, or its evidence shows it.
grounded_of :
    (r : EvaluationRow)
    → (r.state ≡ passed → shows_pass r.kind r.repository_revision r.evidence ≡ true)
    → is_grounded r ≡ true
unfolding is_grounded
grounded_of r h = ground (arith, h)

acceptable-is_favourable :
    (accepted : List Acceptable) (c : Option Conclusion)
    → is_acceptable accepted c ≡ true
    → is_favourable c ≡ true
acceptable-is_favourable [] none h = cc
acceptable-is_favourable [] (some c) h = cc
acceptable-is_favourable (a ∷ accepted) none h = cc
acceptable-is_favourable (a ∷ accepted) (some c) h =
    ground (arith, acceptable-is_favourable accepted (some c))

check-shows_pass :
    (kind : GateKind) (revision : String) (o : Observation) (q : RequiredCheck)
    → is_same_kind kind github_check ≡ true
    → same o.commit_sha revision ≡ true
    → check_state o q ≡ passed
    → shows_pass kind revision (evidence_of o) ≡ true
unfolding check_state shows_pass
check-shows_pass kind revision o q k at h =
    ground (arith, acceptable-is_favourable q.acceptable_conclusions o.conclusion)

bound_kind :
    (c : GateCommand) (r : EvaluationRow) (k : GateKind)
    → is_bound_to c r ≡ true
    → is_same_kind c.kind k ≡ true
    → is_same_kind r.kind k ≡ true
unfolding is_bound_to
bound_kind c r k b h = ground arith

-- The row of the identifier is there and settled: neither PENDING nor RUNNING.
abbrev pub is_settled : Option EvaluationRow → Bool
is_settled none = false
is_settled (some r) = not (is_open r.state)

-- An answer keeps the rows, or writes a grounded row over none or over an open one.
abbrev pub Writes : GateCommand → Evaluations → Answer → Type 0
Writes c rows a =
    (a.0 ≡ rows)
    ⊎ ((r : EvaluationRow) × (a ≡ write c.id r rows)
        × (is_settled (get c.id rows) ≡ false)
        × (is_grounded r ≡ true))

pub start_local-Writes :
    (approvals : List ApprovalRow) (now : ℕ) (c : GateCommand) (rows : Evaluations)
    → Writes c rows (start_local approvals now c rows)
unfolding start_local is_grounded
start_local-Writes approvals now c rows = elim (Bool-cases (is_same_kind c.kind local_command)) [
  | inr other ↦ inl (ground arith)
  | inl kind ↦
      elim (Bool-cases (
        is_gate_fingerprint_approved c.project_id c.base_revision c.manifest_fingerprint
          approvals)) [
            | inr stale ↦ inl (ground arith)
            | inl approved ↦ elim (Option-cases (get c.id rows)) [
              | inr (r, known) ↦ inl (ground arith)
              | inl new ↦ inr (new_row c pending empty now none, ground arith, ground arith, refl)
            ]
          ]
]

pub record_local-Writes :
    (approvals : List ApprovalRow) (now : ℕ) (c : GateCommand) (e : LocalEvidence)
    (rows : Evaluations)
    → Writes c rows (record_local approvals now c e rows)
unfolding record_local
record_local-Writes approvals now c e rows = elim (Bool-cases (is_same_kind c.kind local_command)) [
  | inr other ↦ inl (ground arith)
  | inl kind ↦
      elim (Bool-cases (
        is_gate_fingerprint_approved c.project_id c.base_revision c.manifest_fingerprint approvals
        && is_evidence e)) [
          | inr stale ↦ inl (ground arith)
          | inl valid ↦ elim (Option-cases (get c.id rows)) [
            | inl new ↦
                let r = new_row c (local_state e) (local e) now (some now) in
                inr (
                  r,
                  ground arith,
                  ground arith,
                  grounded_of r (local-shows_pass c.kind c.repository_revision e kind),
                )
            | inr (p, known) ↦ elim (Bool-cases (is_bound_to c p && is_open p.state)) [
              | inr other ↦ inl (ground arith)
              | inl open_row ↦
                  let r = record p {
                    state = local_state e;
                    evidence = local e;
                    completed_at = some now;
                  } in
                  inr (
                    r,
                    ground arith,
                    ground arith,
                    grounded_of r (
                        local-shows_pass p.kind p.repository_revision e
                          (bound_kind c p local_command (ground arith) kind)),
                  )
            ]
          ]
        ]
]

bound_revision :
    (c : GateCommand) (r : EvaluationRow)
    → is_bound_to c r ≡ true
    → r.repository_revision ≡ c.repository_revision
unfolding is_bound_to
bound_revision c r b = ground (arith, eq_iff r.repository_revision c.repository_revision)

checked-is_grounded :
    (now : ℕ) (c : GateCommand) (o : Observation) (q : RequiredCheck) (p : Option EvaluationRow)
    → is_same_kind c.kind github_check ≡ true
    → same o.commit_sha c.repository_revision ≡ true
    → ((r : EvaluationRow) → p ≡ some r → is_bound_to c r ≡ true)
    → is_grounded (checked_row now c o q p) ≡ true
unfolding checked_row
checked-is_grounded now c o q none kind at bound =
    grounded_of (checked_row now c o q none)
      (check-shows_pass c.kind c.repository_revision o q kind at)
checked-is_grounded now c o q (some r) kind at bound =
    let b = bound r refl in
    grounded_of (checked_row now c o q (some r)) (
      check-shows_pass r.kind r.repository_revision o q (bound_kind c r github_check b kind)
        (rw (bound_revision c r b) at))

pub record_git_hub-Writes :
    (approvals : List ApprovalRow) (now : ℕ) (c : GateCommand) (o : Observation) (q : RequiredCheck)
    (rows : Evaluations)
    → is_same_kind c.kind github_check ≡ true
    → Writes c rows (record_git_hub approvals now c o q rows)
unfolding record_git_hub
record_git_hub-Writes approvals now c o q rows kind =
    elim (Bool-cases (
      is_gate_fingerprint_approved c.project_id c.base_revision c.manifest_fingerprint approvals
      && (same o.commit_sha c.repository_revision && is_current o q))) [
        | inr stale ↦ inl (elim (Option-cases (get c.id rows)) [
          | inl new ↦ ground arith
          | inr (p, known) ↦ ground arith
        ])
        | inl valid ↦ elim (Option-cases (get c.id rows)) [
          | inl new ↦ inr (
            checked_row now c o q none,
            ground arith,
            ground arith,
            checked-is_grounded now c o q none kind (ground arith) (λ r e. cc),
          )
          | inr (p, known) ↦ elim (Bool-cases (is_bound_to c p && is_pending p.state)) [
            | inr other ↦ inl (ground arith)
            | inl open_row ↦ inr (
              checked_row now c o q (some p),
              ground arith,
              ground arith,
              checked-is_grounded now c o q (some p) kind (ground arith) (λ r e.
                  let at : p ≡ r = ground arith in
                  subst (λ a. is_bound_to c a ≡ true) at (ground arith)),
            )
          ]
        ]
      ]

-- What an answer of this form does to the rows.
pub Writes-Grounded :
    (c : GateCommand) (rows : Evaluations) (a : Answer)
    → Writes c rows a
    → Grounded rows
    → Grounded a.0
Writes-Grounded c rows a (inl kept) g = subst Grounded (sym kept) g
Writes-Grounded c rows a (inr (r, wrote, _, shown)) g =
    subst (λ b. Grounded b.0) (sym wrote) (write-Grounded c.id r rows shown g)
