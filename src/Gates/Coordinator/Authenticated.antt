-- ===== src/Gates/Coordinator/Authenticated.antt =====
-- evaluations.ts: what every evaluation of a gate keeps, and what evidence of a runner needs.
use mathlib.Core.Path.{subst}
use collab.Base.{
  ℕ, ◌≡◌, refl, sym, true, false, ◌⊎◌, inl, inr, some, List, String, arith, Bool-cases,
  Option-cases, eq_iff,
}
use collab.Base.Table.{get, get-set}
use collab.Gates.Approvals.{ApprovalRow}
use collab.Gates.Records.{
  GateKind, local_command, github_check, EvaluationRow, is_open, Evaluations, is_same_kind, write,
}
use collab.Gates.Evaluations.{start_local, record_local, record_git_hub}
use collab.Gates.Evaluations.Passed.{
  Grounded, Writes, Writes-Grounded, start_local-Writes, record_local-Writes, record_git_hub-Writes,
  is_settled,
}
use collab.Gates.Coordinator.{
  AuthorityTables, EvaluateGate, trusted_base, run_worktree, ManifestSource, sender,
  is_authenticated, evaluate_kind, evaluate,
}

evaluate_kind-Writes :
    (t : AuthorityTables) (approvals : List ApprovalRow) (now later : ℕ) (c : EvaluateGate)
    (rows : Evaluations) (k : GateKind)
    → c.binding.kind ≡ k
    → Writes c.binding rows (evaluate_kind t approvals now later c rows k)
unfolding evaluate_kind
evaluate_kind-Writes t approvals now later c rows local_command e =
    elim (Option-cases c.local_evidence) [
      | inl without ↦
          let same_answer : evaluate_kind t approvals now later c rows local_command
              ≡ start_local approvals later c.binding rows =
            ground arith in
          subst (Writes c.binding rows) (sym same_answer)
            (start_local-Writes approvals later c.binding rows)
      | inr (v, given) ↦ elim (Option-cases (sender c)) [
        | inl missing ↦ inl (ground arith)
        | inr (w, at) ↦ elim (Bool-cases (is_authenticated t now c.binding.run_id w)) [
          | inl live ↦
              let same_answer : evaluate_kind t approvals now later c rows local_command
                  ≡ record_local approvals later c.binding v rows =
                ground arith in
              subst (Writes c.binding rows) (sym same_answer)
                (record_local-Writes approvals later c.binding v rows)
          | inr dead ↦ inl (ground arith)
        ]
      ]
    ]
evaluate_kind-Writes t approvals now later c rows github_check e =
    let kind : is_same_kind c.binding.kind github_check ≡ true = ground arith in
    elim (Option-cases c.check_observation) [
      | inl without ↦ inl (ground arith)
      | inr (o, given) ↦ elim (Option-cases c.required_check) [
        | inl missing ↦ inl (ground arith)
        | inr (q, at) ↦
            let same_answer : evaluate_kind t approvals now later c rows github_check
                ≡ record_git_hub approvals later c.binding o q rows =
              ground arith in
            subst (Writes c.binding rows) (sym same_answer)
              (record_git_hub-Writes approvals later c.binding o q rows kind)
      ]
    ]

source-cases : (s : ManifestSource) → (s ≡ trusted_base) ⊎ (s ≡ run_worktree)
source-cases trusted_base = inl refl
source-cases run_worktree = inr refl

evaluate-Writes :
    (t : AuthorityTables) (approvals : List ApprovalRow) (now later : ℕ) (c : EvaluateGate)
    (rows : Evaluations)
    → Writes c.binding rows (evaluate t approvals now later c rows)
unfolding evaluate
evaluate-Writes t approvals now later c rows = elim (source-cases c.manifest_source) [
  | inl trusted ↦
      let same_answer : evaluate t approvals now later c rows
          ≡ evaluate_kind t approvals now later c rows c.binding.kind =
        ground arith in
      subst (Writes c.binding rows) (sym same_answer)
        (evaluate_kind-Writes t approvals now later c rows c.binding.kind refl)
  | inr other ↦ inl (ground arith)
]

-- Every evaluation of a gate, whatever it answers, leaves a table in which each evaluation that says
-- PASSED has the evidence for it: of a local command exit code 0 without cancellation, timeout or a
-- change of tracked files, or of a check that completed favourably on the evaluated revision.
pub evaluate-Grounded :
    (t : AuthorityTables) (approvals : List ApprovalRow) (now later : ℕ) (c : EvaluateGate)
    (rows : Evaluations)
    → Grounded rows
    → Grounded (evaluate t approvals now later c rows).0
evaluate-Grounded t approvals now later c rows =
    Writes-Grounded c.binding rows (evaluate t approvals now later c rows)
      (evaluate-Writes t approvals now later c rows)

write_keeps :
    (id j : String) (r q : EvaluationRow) (rows : Evaluations)
    → is_settled (get id rows) ≡ false
    → is_settled (get j rows) ≡ true
    → get j rows ≡ some q
    → get j (write id r rows).0 ≡ some q
unfolding write
write_keeps id j r q rows open_row settled h = ground (arith, eq_iff id j, get-set id j r rows)

-- No evaluation changes a stored one that is settled, which is neither PENDING nor RUNNING.
pub evaluate_keeps_settled :
    (t : AuthorityTables) (approvals : List ApprovalRow) (now later : ℕ) (c : EvaluateGate)
    (rows : Evaluations) (id : String) (r : EvaluationRow)
    → get id rows ≡ some r
    → is_open r.state ≡ false
    → get id (evaluate t approvals now later c rows).0 ≡ some r
evaluate_keeps_settled t approvals now later c rows id r h settled =
    elim (evaluate-Writes t approvals now later c rows) [
      | inl kept ↦ subst (λ a. get id a ≡ some r) (sym kept) h
      | inr (w, wrote, open_row, _) ↦
          subst (λ a. get id a.0 ≡ some r) (sym wrote)
            (write_keeps c.binding.id id w r rows open_row (ground arith) h)
    ]
