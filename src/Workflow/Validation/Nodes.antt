-- ===== src/Workflow/Validation/Nodes.antt =====
-- validation.ts: the loop over the nodes, with a function for each kind of node.
pub mod Runs
use collab.Base.{
  ℕ, Bool, true, false, not, ◌||◌, Option, none, some, List, [], ◌∷◌, ◌++◌, map, String, length,
  ltb, ◌==◌, if◌then◌else◌, any, includes, distinct,
}
use collab.Base.Table.{Table, get}
use collab.Workflow.Join.{JoinNode, all, any as any_policy, RemainderPolicy}
use collab.Workflow.Validation.{
  RepositoryMode, inspect_only, TeamRunTemplateVersion, ResultRouterNode, NodeKind, agent_run,
  WorkflowNode, Transition, Diagnostic, report, gather, gather_entries, count, same_keys,
  outgoing_of, exact_transition, start_transition_required, transition_incompatible,
  run_template_version_stale, result_incompatible, result_transition_required,
  decision_transition_required, result_source_invalid, result_route_required, result_route_missing,
  result_fallback_required, parallel_join_required, parallel_mutation_forbidden,
  join_branches_invalid, join_invalid, join_result_transition_required, join_fallback_required,
  join_all_transition_required,
}
use collab.Workflow.Validation

-- What the checks of a node read: the maps and lists computed before the loop.
pub record Context : Type 0 where
  pub nodes_by_key : Table WorkflowNode
  pub edges : Table (List Transition)
  pub joins : List (String × JoinNode)
  pub splits : List (String × List String)
  pub templates : Table TeamRunTemplateVersion
  pub maximum_parallel_branches : ℕ

-- nodeEdges.some((edge) => !allowed(edge.resultKey))
abbrev pub has_foreign_edge : Context → String → (String → Bool) → Bool
has_foreign_edge c key allowed = any (λ t. not (allowed t.result_key)) (outgoing_of c.edges key)

unfoldable pub check_start : Context → ℕ → String → List Diagnostic
check_start c i key =
    report (not (exact_transition c.edges key "STARTED" none)) (Validation.node i)
      start_transition_required
    ++ report (has_foreign_edge c key (includes ("STARTED" ∷ []))) (Validation.node i)
        transition_incompatible

-- joinsByBranch.has(key)
abbrev pub is_branch : Context → String → Bool
is_branch c key = any (λ j. includes j.1.branch_keys key) c.joins

abbrev pub run_results : List String → List String
run_results keys = keys ++ "RUN_FAILED" ∷ "RUN_CANCELLED" ∷ []

abbrev template_diagnostics : Option TeamRunTemplateVersion → ℕ → List String → List Diagnostic
template_diagnostics none i result_keys =
    report true (Validation.node_field i "runTemplateVersionId") run_template_version_stale
template_diagnostics (some template) i result_keys =
    report (not (same_keys result_keys template.result_keys)) (Validation.node_field i "resultKeys")
      result_incompatible

unfoldable pub check_agent_run : Context → ℕ → String → String → List String → List Diagnostic
check_agent_run c i key template_id result_keys =
    template_diagnostics (get template_id c.templates) i result_keys
    ++ ((if is_branch c key
          then []
          else gather
              (λ k.
                report (not (exact_transition c.edges key k none))
                  (Validation.node_field i "resultKeys") result_transition_required)
              result_keys)
        ++ report (has_foreign_edge c key (includes (run_results result_keys))) (Validation.node i)
            transition_incompatible)

unfoldable pub check_human_decision : Context → ℕ → String → List String → List Diagnostic
check_human_decision c i key choices =
    gather
      (λ choice.
        report (not (exact_transition c.edges key choice none)) (Validation.node_field i "choices")
          decision_transition_required)
      choices
    ++ report (has_foreign_edge c key (includes choices)) (Validation.node i)
        transition_incompatible

-- The result keys of the node if it is an Agent Run.
abbrev pub source_results : Option WorkflowNode → Option (List String)
source_results none = none
source_results (some n) = elim n.kind [ agent_run _ keys ↦ some keys | _ ↦ none ]

abbrev has_route : Table String → String → Bool
has_route routes key = elim (get key routes) [ none ↦ false | some _ ↦ true ]

abbrev pub route_keys : Table String → List String
route_keys routes = map (λ r. r.0) routes

abbrev source_diagnostics : Option (List String) → ℕ → Table String → List Diagnostic
source_diagnostics none i routes =
    report true (Validation.node_field i "sourceStepKey") result_source_invalid
source_diagnostics (some keys) i routes =
    gather
      (λ k.
        report (not (has_route routes k)) (Validation.node_field i "routes") result_route_required)
      keys
    ++ report (any (λ k. not (includes keys k)) (route_keys routes))
        (Validation.node_field i "routes") result_incompatible

unfoldable pub check_result_router : Context → ℕ → String → ResultRouterNode → List Diagnostic
check_result_router c i key n =
    source_diagnostics (source_results (get n.source_step_key c.nodes_by_key)) i n.routes
    ++ (gather
          (λ r.
            report (not (exact_transition c.edges key r.0 (some r.1))) (Validation.node_route i r.0)
              result_route_missing)
          n.routes
        ++ (report (not (exact_transition c.edges key "FALLBACK" (some n.fallback_target_key)))
              (Validation.node_field i "fallbackTargetKey") result_fallback_required
            ++ report (has_foreign_edge c key (includes (route_keys n.routes ++ "FALLBACK" ∷ [])))
                (Validation.node i) transition_incompatible))

abbrev is_inspect_mode : RepositoryMode → Bool
is_inspect_mode m = elim m [ inspect_only ↦ true | _ ↦ false ]

abbrev is_inspect_only : Option TeamRunTemplateVersion → Bool
is_inspect_only none = false
is_inspect_only (some t) = is_inspect_mode t.repository_mode

abbrev template_of_kind : NodeKind → Option String
template_of_kind k = elim k [ agent_run template_id _ ↦ some template_id | _ ↦ none ]

abbrev run_template_of : Option WorkflowNode → Option String
run_template_of none = none
run_template_of (some n) = template_of_kind n.kind

-- The branch is an Agent Run whose template only inspects.
unfoldable pub is_inspecting : Context → String → Bool
is_inspecting c key = elim (run_template_of (get key c.nodes_by_key)) [
  | none ↦ false
  | some template_id ↦ is_inspect_only (get template_id c.templates)
]

unfoldable pub check_parallel_split : Context → ℕ → String → List String → List Diagnostic
check_parallel_split c i key branch_keys =
    report (not (count (λ j. same_keys j.1.branch_keys branch_keys) c.joins == 1))
      (Validation.node_field i "branchKeys") parallel_join_required
    ++ (report
          (not (distinct branch_keys)
            || (ltb c.maximum_parallel_branches (length branch_keys)
                || any (λ k. not (is_inspecting c k)) branch_keys))
          (Validation.node_field i "branchKeys") parallel_mutation_forbidden
        ++ report (ltb 0 (length (outgoing_of c.edges key))) (Validation.node i)
            transition_incompatible)

-- The results that a branch of the join may end with.
unfoldable pub branch_results : Context → List String → List String
branch_results c [] = "RUN_FAILED" ∷ "RUN_CANCELLED" ∷ []
branch_results c (k ∷ ks) =
    let rest = branch_results c ks in
    elim (source_results (get k c.nodes_by_key)) [ none ↦ rest | some keys ↦ keys ++ rest ]

abbrev is_given : Option RemainderPolicy → Bool
is_given none = false
is_given (some _) = true

unfoldable pub check_any_join : Context → ℕ → String → JoinNode → List Diagnostic
check_any_join c i key n =
    report (not (is_given n.remainder_policy)) (Validation.node_field i "remainderPolicy")
      join_invalid
    ++ (gather
          (λ k.
            report (not (exact_transition c.edges key k none))
              (Validation.node_field i "acceptedResultKeys") join_result_transition_required)
          n.accepted_result_keys
        ++ (report (not (exact_transition c.edges key "FALLBACK" (some n.fallback_target_key)))
              (Validation.node_field i "fallbackTargetKey") join_fallback_required
            ++ report
                (has_foreign_edge c key (includes (n.accepted_result_keys ++ "FALLBACK" ∷ [])))
                (Validation.node i) transition_incompatible))

unfoldable pub check_all_join : Context → ℕ → String → JoinNode → List Diagnostic
check_all_join c i key n =
    report (is_given n.remainder_policy) (Validation.node_field i "remainderPolicy") join_invalid
    ++ (report (not (exact_transition c.edges key "ALL" none)) (Validation.node i)
          join_all_transition_required
        ++ report (has_foreign_edge c key (includes ("ALL" ∷ []))) (Validation.node i)
            transition_incompatible)

unfoldable pub check_join : Context → ℕ → String → JoinNode → List Diagnostic
check_join c i key n =
    report (not (count (λ s. same_keys s.1 n.branch_keys) c.splits == 1))
      (Validation.node_field i "branchKeys") join_branches_invalid
    ++ (report
          (not (distinct n.branch_keys)
            || (not (distinct n.accepted_result_keys)
                || any (λ k. not (includes (branch_results c n.branch_keys) k))
                    n.accepted_result_keys))
          (Validation.node i) join_invalid
        ++ elim n.policy [ any_policy ↦ check_any_join c i key n | all ↦ check_all_join c i key n ])

unfoldable pub check_kind : Context → ℕ → String → NodeKind → List Diagnostic
check_kind c i key NodeKind.start = check_start c i key
check_kind c i key (agent_run template_id keys) = check_agent_run c i key template_id keys
check_kind c i key (NodeKind.human_decision choices _) = check_human_decision c i key choices
check_kind c i key (NodeKind.result_router n) = check_result_router c i key n
check_kind c i key (NodeKind.parallel_split branch_keys) = check_parallel_split c i key branch_keys
check_kind c i key (NodeKind.join n) = check_join c i key n
check_kind c i key (NodeKind.terminal _) =
    report (ltb 0 (length (outgoing_of c.edges key))) (Validation.node i) transition_incompatible

unfoldable pub node_diagnostics : Context → List WorkflowNode → List Diagnostic
node_diagnostics c = gather_entries (λ i n. check_kind c i n.key n.kind) 0
