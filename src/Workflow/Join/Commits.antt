-- ===== src/Workflow/Join/Commits.antt =====
-- joins.ts over the results that a parallel group delivers, in any order and with repeats.
use collab.Base.{
  ℕ, ◌+◌, ◌≤◌, ◌≡◌, Bool, true, false, not, ◌&&◌, ◌||◌, List, [], ◌∷◌, ◌++◌, Option, none, some,
  String, arith, length, includes, distinct, any, All, same, length-le_of_Within, includes-append,
  includes-keep, Bool-cases, eq_iff, inl, inr,
}
use collab.Workflow.Join.{
  JoinNode, JoinPolicy, JoinState, WorkflowStepResult, is_committed, is_new, cancels,
  strip_occurrence, unchanged, decide, evaluate_join,
}
use collab.Workflow.Join.Invariant.{Inv, initial, initial-Inv, IsKey, evaluate_join-Inv}

abbrev pub fired : Option String → ℕ
fired none = 0
fired (some target) = 1

abbrev pub commits : Bool → ℕ
commits false = 0
commits true = 1

-- The state after a list of results, and how many transitions they fired.
unfoldable pub run : JoinNode → JoinState → List WorkflowStepResult → JoinState × ℕ
run join s [] = (s, 0)
run join s (r ∷ rs) =
    let j = evaluate_join join s r in
    let (t, n) = run join j.state rs in (t, fired j.transition + n)

run-Inv :
    (join : JoinNode) (s : JoinState) (rs : List WorkflowStepResult)
    → All IsKey rs
    → Inv join s
    → Inv join (run join s rs).0
unfolding run
run-Inv join s [] k v = v
run-Inv join s (r ∷ rs) k v =
    run-Inv join (evaluate_join join s r).state rs k.1 (evaluate_join-Inv join s r k.0 v)

fired-step :
    (join : JoinNode) (s : JoinState) (r : WorkflowStepResult)
    → IsKey r
    → fired (evaluate_join join s r).transition + commits (is_committed s.committed_result_key)
      ≡ commits (is_committed (evaluate_join join s r).state.committed_result_key)
unfolding evaluate_join unchanged decide
fired-step join s r k = ground arith

fired-run :
    (join : JoinNode) (s : JoinState) (rs : List WorkflowStepResult)
    → All IsKey rs
    → (run join s rs).1 + commits (is_committed s.committed_result_key)
      ≡ commits (is_committed (run join s rs).0.committed_result_key)
unfolding run
fired-run join s [] k = omega arith
fired-run join s (r ∷ rs) k =
    omega (arith, fired-step join s r k.0, fired-run join (evaluate_join join s r).state rs k.1)

-- A join fires exactly one transition if it commits and none if it does not, whatever results come,
-- in whatever order, and however often each is delivered.
pub run-fires_once :
    (join : JoinNode) (rs : List WorkflowStepResult)
    → All IsKey rs
    → (run join initial rs).1 ≡ commits (is_committed (run join initial rs).0.committed_result_key)
run-fires_once join rs k = omega (arith, fired-run join initial rs k)

abbrev pub arrives : List WorkflowStepResult → String → Bool
arrives rs k = any (λ r. same (strip_occurrence r.step_occurrence_id) k) rs

step-terminal :
    (join : JoinNode) (s : JoinState) (r : WorkflowStepResult) (k : String)
    → IsKey r
    → is_committed (evaluate_join join s r).state.committed_result_key ≡ false
    → includes join.branch_keys k ≡ true
    → (includes s.terminal_branch_keys k || same (strip_occurrence r.step_occurrence_id) k) ≡ true
    → includes (evaluate_join join s r).state.terminal_branch_keys k ≡ true
unfolding evaluate_join unchanged decide
step-terminal join s r k key c b h = ground (
  arith,
  includes-append s.terminal_branch_keys (strip_occurrence r.step_occurrence_id ∷ []) k,
  eq_iff (strip_occurrence r.step_occurrence_id) k,
)

uncommitted-before :
    (join : JoinNode) (s : JoinState) (rs : List WorkflowStepResult)
    → All IsKey rs
    → is_committed (run join s rs).0.committed_result_key ≡ false
    → is_committed s.committed_result_key ≡ false
uncommitted-before join s rs k c = ground (arith, fired-run join s rs k)

run-terminal :
    (join : JoinNode) (s : JoinState) (rs : List WorkflowStepResult) (k : String)
    → All IsKey rs
    → is_committed (run join s rs).0.committed_result_key ≡ false
    → includes join.branch_keys k ≡ true
    → (includes s.terminal_branch_keys k || arrives rs k) ≡ true
    → includes (run join s rs).0.terminal_branch_keys k ≡ true
unfolding run
run-terminal join s [] k key c b h = ground arith
run-terminal join s (r ∷ rs) k key c b h =
    let s' = (evaluate_join join s r).state in
    ground (
      arith,
      uncommitted-before join s' rs key.1 c,
      step-terminal join s r k key.0,
      run-terminal join s' rs k key.1,
    )

-- A join commits once every branch has delivered a result, under either policy: no group waits
-- for ever, also where no result of an "ANY" join is accepted.
pub run-commits :
    (join : JoinNode) (rs : List WorkflowStepResult)
    → distinct join.branch_keys ≡ true
    → 1 ≤ length join.branch_keys
    → All IsKey rs
    → ((k : String) → includes join.branch_keys k ≡ true → arrives rs k ≡ true)
    → is_committed (run join initial rs).0.committed_result_key ≡ true
run-commits join rs d b key h =
    elim (Bool-cases (is_committed (run join initial rs).0.committed_result_key)) [
      | inl c ↦ c
      | inr c ↦ absurd (
          omega (
            arith,
            (run-Inv join initial rs key (initial-Inv join b)).waiting c,
            length-le_of_Within join.branch_keys (run join initial rs).0.terminal_branch_keys d
                λ k e. run-terminal join initial rs k key c e (ground (arith, h k e)),
          ))
    ]

abbrev is_any : JoinPolicy → Bool
is_any JoinPolicy.any = true
is_any JoinPolicy.all = false

-- The result commits an "ANY" join that cancels what remains.
abbrev pub cancelling : JoinNode → JoinState → WorkflowStepResult → Bool
cancelling join s r =
    not (is_committed s.committed_result_key)
    && is_new join s (strip_occurrence r.step_occurrence_id)
    && is_any join.policy
    && includes join.accepted_result_keys r.key
    && cancels join.remainder_policy

-- A branch is cancelled exactly if an accepted result of another branch has just committed an "ANY"
-- join with "CANCEL_REMAINDER", and no result of the branch has come.
evaluate_join-cancels :
    (join : JoinNode) (s : JoinState) (r : WorkflowStepResult) (k : String)
    → includes (evaluate_join join s r).cancel_keys k ≡ (
        cancelling join s r
        && includes join.branch_keys k
        && not (includes (evaluate_join join s r).state.terminal_branch_keys k))
unfolding evaluate_join unchanged decide
evaluate_join-cancels join s r k = ground (
  arith,
  includes-keep
      (λ key.
        not (includes (s.terminal_branch_keys ++ strip_occurrence r.step_occurrence_id ∷ []) key))
      join.branch_keys k,
)
