-- ===== src/Workflow/Join/Scenarios.antt =====
-- joins.ts: a group of two reviewers.
use collab.Base.{◌≡◌, refl, true, List, [], ◌∷◌, some, String, includes, arith}
use collab.Workflow.Join.{
  JoinNode, any, cancel_remainder, WorkflowStepResult, is_committed, all_digits, strip_occurrence,
}
use collab.Workflow.Join.Occurrences.{occurrence_id, strip-occurrence_id}
use collab.Workflow.Join.Invariant.{initial}
use collab.Workflow.Join.Commits.{commits, run, run-fires_once, run-commits}

abbrev review : JoinNode
review = record {
  branch_keys = "style" ∷ "logic" ∷ [];
  policy = any;
  accepted_result_keys = "APPROVED" ∷ [];
  fallback_target_key = "human";
  remainder_policy = some cancel_remainder;
}

abbrev result : String → String → WorkflowStepResult
result occurrence key = record { step_occurrence_id = occurrence; run_id = "run"; key = key }

abbrev delivered : List WorkflowStepResult
delivered =
    result "style-1" "CHANGES" ∷ result "style-1" "APPROVED" ∷ result "logic-2" "CHANGES" ∷ []

strip-occurrence_id_example : strip_occurrence (occurrence_id "style-3" "12") ≡ "style-3"
unfolding all_digits
strip-occurrence_id_example = strip-occurrence_id "style-3" "12" refl

run-fires_once_example :
    (run review initial delivered).1
    ≡ commits (is_committed (run review initial delivered).0.committed_result_key)
run-fires_once_example = run-fires_once review delivered (refl, (refl, (refl, tt)))

covered :
    (k : String)
    → includes review.branch_keys k ≡ true
    → (includes ("style" ∷ "style" ∷ "logic" ∷ []) k) ≡ true
covered k h = ground arith

run-commits_example : is_committed (run review initial delivered).0.committed_result_key ≡ true
unfolding strip_occurrence all_digits
run-commits_example =
    run-commits review delivered refl (omega arith) (refl, (refl, (refl, tt))) (λ k h. covered k h)
