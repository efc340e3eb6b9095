-- ===== src/Workflow/Join/Invariant.antt =====
-- joins.ts: what holds of a join's state between two results.
use collab.Base.{
  ◌≡◌, refl, ◌<◌, ◌≤◌, true, false, List, [], ◌∷◌, ◌++◌, none, String, arith, length, includes,
  distinct, Within, length-append, distinct-append, includes-append, Bool-cases, eq_iff, inl, inr,
}
use collab.Workflow.Join.{
  JoinNode, JoinState, WorkflowStepResult, is_committed, with_branch, is_new, is_empty,
  strip_occurrence, unchanged, decide, evaluate_join,
}

pub record Inv (join : JoinNode) (s : JoinState) : Type 0 where
  pub once : distinct s.terminal_branch_keys ≡ true
  pub known : Within s.terminal_branch_keys join.branch_keys
  pub waiting :
      is_committed s.committed_result_key ≡ false
      → length s.terminal_branch_keys < length join.branch_keys

-- The state of a join that no result has reached.
abbrev pub initial : JoinState
initial = record {
  committed_result_key = none;
  terminal_branch_keys = [];
  results_by_branch = none;
}

Within-append :
    (xs ys : List String) (k : String)
    → Within xs ys
    → includes ys k ≡ true
    → Within (xs ++ k ∷ []) ys
Within-append xs ys k w h j e = ground (arith, includes-append xs (k ∷ []) j, eq_iff k j, w j)

-- Result keys are not empty: /^[A-Z][A-Z0-9_]*$/.
abbrev pub IsKey : WorkflowStepResult → Type 0
IsKey r = is_empty r.key ≡ false

-- The invariant after a new branch is added, whichever way the commit tests go.
decide-Inv :
    (join : JoinNode) (s : JoinState) (k : String) (r : WorkflowStepResult)
    → IsKey r
    → Inv join s
    → is_committed s.committed_result_key ≡ false
    → is_new join s k ≡ true
    → Inv join (decide join (with_branch s k r) r.key).state
unfolding decide
decide-Inv join s k r key v c n =
    let known = Within-append s.terminal_branch_keys join.branch_keys k v.known (ground arith) in
    ground (
      arith,
      known,
      distinct-append s.terminal_branch_keys k v.once,
      length-append s.terminal_branch_keys (k ∷ []),
    )

-- Every result, expected or not, keeps the terminal branches distinct and among the join's branches,
-- and an uncommitted join still has a branch to wait for.
pub evaluate_join-Inv :
    (join : JoinNode) (s : JoinState) (r : WorkflowStepResult)
    → IsKey r
    → Inv join s
    → Inv join (evaluate_join join s r).state
unfolding evaluate_join unchanged
evaluate_join-Inv join s r key v = elim (Bool-cases (is_committed s.committed_result_key)) [
  | inl c ↦ rw c v
  | inr c ↦ elim (Bool-cases (is_new join s (strip_occurrence r.step_occurrence_id))) [
    | inl n ↦ rw (c, n) (decide-Inv join s (strip_occurrence r.step_occurrence_id) r key v c n)
    | inr n ↦ rw (c, n) v
  ]
]

pub initial-Inv : (join : JoinNode) → 1 ≤ length join.branch_keys → Inv join initial
initial-Inv join b = record { once = refl; known = λ k h. cc; waiting = λ c. omega arith }
