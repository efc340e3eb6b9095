-- ===== src/Workflow/Validation/Scenarios.antt =====
-- validation.ts: a definition with a cycle and a parallel group, and what the theorems say of it.
use mathlib.Core.List.{Memᴰ}
use collab.Base.{
  ◌≡◌, refl, ◌≤◌, Bool, true, false, ◌⊎◌, ◌↔◌, none, some, List, [], ◌∷◌, String, any, All,
  distinct, keep, not, same, length, includes,
}
use collab.Base.Table.{Table, get, set}
use collab.Workflow.Validation.{
  inspect_only, mutating, TeamRunTemplateVersion, completed, NodeKind, agent_run, WorkflowNode,
  Transition, WorkflowDefinition, Diagnostic, count,
}
use collab.Workflow.Validation.{same_keys, by_key, key_diagnostics, outgoing, exact_transition}
use collab.Workflow.Validation.Transitions.{check_transition, transition_diagnostics}
use collab.Workflow.Validation.Nodes.{
  check_start, check_agent_run, check_human_decision, check_result_router, is_inspecting,
  check_parallel_split, branch_results, check_any_join, check_all_join, check_join, check_kind,
  node_diagnostics,
}
use collab.Workflow.Validation.Graph.{
  targets, Walk, here, add_graph_edge, add_transitions, add_branches, add_splits, add_join,
  add_joins, build_graph, reach, reach_fuel, pass, finish,
}
use collab.Workflow.Validation.Cycles.{
  split_arrow, closed_edges, cycle_edges, is_wrong_cycle, bound_diagnostics, declared_edges,
  path_exists, edge_diagnostics, all_edges,
}
use collab.Workflow.Validation.Checks.{
  joins_of, splits_of, context_of, graph_of, shape_diagnostics, unreachable_diagnostics,
  unfinished_diagnostics, gathered, validate_workflow, start_keys, terminal_keys,
}
use collab.Workflow.Validation.Checks.Total.{IsAccepted, validate_total}
use collab.Workflow.Validation.Checks.Accepted.{node_between, cycle_bounded}
use collab.Workflow.Validation.Checks.Routed.{run_routed, split_isolated}
use collab.Workflow.Validation.Nodes.{run_results}
use collab.Workflow.Validation.Nodes.Runs.{by_result, Inspects}
use collab.Workflow.Validation.Graph.Reach.{From}
use collab.Workflow.Validation.Graph.Finish.{To}
use collab.Workflow.Validation.Cycles.{path_back}
use collab.Workflow.Validation.Cycles.Bounded.{bounds_edge}
use collab.Workflow.Validation.Cycles.Paths.{path_back_iff}
use collab.Workflow.Join

abbrev begin : WorkflowNode
begin = record { key = "begin"; kind = NodeKind.start }

abbrev write : WorkflowNode
write = record { key = "write"; kind = agent_run "writer" ("DONE" ∷ "RETRY" ∷ []) }

abbrev split : WorkflowNode
split = record { key = "split"; kind = NodeKind.parallel_split ("left" ∷ "right" ∷ []) }

abbrev left : WorkflowNode
left = record { key = "left"; kind = agent_run "reader" ("SEEN" ∷ []) }

abbrev right : WorkflowNode
right = record { key = "right"; kind = agent_run "reader" ("SEEN" ∷ []) }

abbrev meet : WorkflowNode
meet = record {
  key = "meet";
  kind = NodeKind.join (record {
    branch_keys = "right" ∷ "left" ∷ [];
    policy = Join.all;
    accepted_result_keys = "SEEN" ∷ [];
    fallback_target_key = "end";
    remainder_policy = none;
  });
}

abbrev end : WorkflowNode
end = record { key = "end"; kind = NodeKind.terminal completed }

abbrev edge : String → String → String → Transition
edge from key to = record { from = from; result_key = key; to = to }

abbrev templates : Table TeamRunTemplateVersion
templates =
    ("writer", record { result_keys = "RETRY" ∷ "DONE" ∷ []; repository_mode = mutating })
    ∷ ("reader", record { result_keys = "SEEN" ∷ []; repository_mode = inspect_only })
    ∷ []

abbrev review : WorkflowDefinition
review = record {
  nodes = begin ∷ write ∷ split ∷ left ∷ right ∷ meet ∷ end ∷ [];
  transitions =
      edge "begin" "STARTED" "write"
      ∷ edge "write" "DONE" "split"
      ∷ edge "write" "RETRY" "write"
      ∷ edge "meet" "ALL" "end"
      ∷ [];
  maximum_run_count = 10;
  cycle_bounds = ("write", 3) ∷ [];
  maximum_parallel_branches = 2;
  maximum_concurrency = 2;
  absolute_deadline_ms = 1000;
}

abbrev unbounded_review : WorkflowDefinition
unbounded_review = record review { cycle_bounds = [] }

review-IsAccepted : IsAccepted review templates
unfolding same_keys by_key key_diagnostics outgoing exact_transition check_transition
    transition_diagnostics check_start check_agent_run check_human_decision check_result_router
    is_inspecting check_parallel_split branch_results check_any_join check_all_join check_join
    check_kind node_diagnostics add_graph_edge add_transitions add_branches add_splits add_join
    add_joins build_graph reach reach_fuel pass finish split_arrow closed_edges cycle_edges
    is_wrong_cycle bound_diagnostics declared_edges path_exists edge_diagnostics all_edges joins_of
    splits_of context_of graph_of shape_diagnostics unreachable_diagnostics unfinished_diagnostics
    gathered validate_workflow get set targets
review-IsAccepted = refl

validate_total_example :
    (ds : List Diagnostic) × (validate_workflow unbounded_review templates ≡ some ds)
validate_total_example = validate_total unbounded_review templates

left_listed : Memᴰ left review.nodes
left_listed = Memᴰ.tail (Memᴰ.tail (Memᴰ.tail (Memᴰ.head refl)))

node_between_example :
    From (graph_of review) (start_keys review.nodes) "left"
    × To (graph_of review) (terminal_keys review.nodes) "left"
node_between_example = node_between review templates left review-IsAccepted left_listed

write_again : includes (targets (graph_of review) "write") "write" ≡ true
unfolding graph_of targets build_graph add_joins add_join add_splits add_branches add_transitions
    add_graph_edge get set by_key joins_of splits_of
write_again = refl

cycle_bounded_example : any (bounds_edge ("write", "write")) review.cycle_bounds ≡ true
cycle_bounded_example =
    cycle_bounded review templates "write" "write" review-IsAccepted write_again here

run_routed_example :
    ((t : TeamRunTemplateVersion) × (get "writer" templates ≡ some t)
      × (distinct ("DONE" ∷ "RETRY" ∷ []) ≡ true)
      × (distinct t.result_keys ≡ true)
      × ((k : String) → includes ("DONE" ∷ "RETRY" ∷ []) k ≡ includes t.result_keys k))
    × ((any (λ j. includes j.1.branch_keys "write") (joins_of review.nodes) ≡ true)
        ⊎ All
            (λ k. count (by_result "write" k none) review.transitions ≡ 1)
            ("DONE" ∷ "RETRY" ∷ []))
    × (any
          (λ t. not (includes (run_results ("DONE" ∷ "RETRY" ∷ [])) t.result_key))
          (keep (λ t. same t.from "write") review.transitions)
        ≡ false)
run_routed_example =
    run_routed review templates write "writer" ("DONE" ∷ "RETRY" ∷ []) review-IsAccepted
      (Memᴰ.tail (Memᴰ.head refl)) refl

split_isolated_example :
    (count (λ j. same_keys j.1.branch_keys ("left" ∷ "right" ∷ [])) (joins_of review.nodes) ≡ 1)
    × (distinct ("left" ∷ "right" ∷ []) ≡ true)
    × (length {A = String} ("left" ∷ "right" ∷ []) ≤ 2)
    × All (Inspects (by_key [] review.nodes) templates) ("left" ∷ "right" ∷ [])
    × (length (keep (λ t. same t.from "split") review.transitions) ≡ 0)
split_isolated_example =
    split_isolated review templates split ("left" ∷ "right" ∷ []) review-IsAccepted
      (Memᴰ.tail (Memᴰ.tail (Memᴰ.head refl))) refl

back_found : path_back (("a", "b" ∷ []) ∷ ("b", "a" ∷ []) ∷ []) ("a", "b") ≡ some true
unfolding path_exists targets get reach_fuel
back_found = refl

path_back_iff_example :
    (◌≡◌ {A = Bool} true true) ↔ Walk (("a", "b" ∷ []) ∷ ("b", "a" ∷ []) ∷ []) "b" "a"
path_back_iff_example =
    path_back_iff (("a", "b" ∷ []) ∷ ("b", "a" ∷ []) ∷ []) ("a", "b") true back_found
