-- ===== src/Workflow/Validation/Checks.antt =====
-- validation.ts: `validateWorkflow`, which runs all the checks. `none` means that the fuel of a
-- search ran out, which does not happen.
pub mod Total
pub mod Accepted
pub mod Routed
use collab.Base.{
  ℕ, ◌+◌, not, ◌&&◌, ◌||◌, Option, none, some, List, [], ◌∷◌, ◌++◌, String, length, map, keep, ltb,
  ◌==◌, any, includes,
}
use collab.Base.Table.{Table}
use collab.Workflow.Join.{JoinNode}
use collab.Workflow.Validation.{
  TeamRunTemplateVersion, WorkflowNode, NodeKind, WorkflowDefinition, Diagnostic, report,
  gather_entries, count, is_start, is_terminal, by_key, key_diagnostics, outgoing, start_required,
  terminal_required, bound_invalid, node_unreachable, terminal_path_required,
}
use collab.Workflow.Validation.Transitions.{transition_diagnostics}
use collab.Workflow.Validation.Nodes.{Context, node_diagnostics}
use collab.Workflow.Validation.Graph.{Graph, build_graph, reach, reach_fuel, finish}
use collab.Workflow.Validation.Cycles.{
  bound_diagnostics, declared_edges, edge_diagnostics, all_edges,
}
use collab.Workflow.Validation

-- definition.nodes.filter((node) => node.kind === "JOIN"), each with its key.
unfoldable pub joins_of : List WorkflowNode → List (String × JoinNode)
joins_of [] = []
joins_of (n ∷ ns) =
    let rest = joins_of ns in elim n.kind [ NodeKind.join j ↦ (n.key, j) ∷ rest | _ ↦ rest ]

unfoldable pub splits_of : List WorkflowNode → List (String × List String)
splits_of [] = []
splits_of (n ∷ ns) =
    let rest = splits_of ns in
    elim n.kind [ NodeKind.parallel_split keys ↦ (n.key, keys) ∷ rest | _ ↦ rest ]

abbrev pub start_keys : List WorkflowNode → List String
start_keys ns = map (λ n. n.key) (keep is_start ns)

abbrev pub terminal_keys : List WorkflowNode → List String
terminal_keys ns = map (λ n. n.key) (keep is_terminal ns)

unfoldable pub context_of : WorkflowDefinition → Table TeamRunTemplateVersion → Context
context_of d templates = record {
  nodes_by_key = by_key [] d.nodes;
  edges = outgoing [] d.transitions;
  joins = joins_of d.nodes;
  splits = splits_of d.nodes;
  templates = templates;
  maximum_parallel_branches = d.maximum_parallel_branches;
}

unfoldable pub graph_of : WorkflowDefinition → Graph
graph_of d = build_graph (by_key [] d.nodes) d.transitions (splits_of d.nodes) (joins_of d.nodes)

-- The checks before the graph.
unfoldable pub shape_diagnostics : WorkflowDefinition → List Diagnostic
shape_diagnostics d =
    key_diagnostics [] 0 d.nodes
    ++ (report (not (count is_start d.nodes == 1)) Validation.nodes start_required
        ++ (report (not (any is_terminal d.nodes)) Validation.nodes terminal_required
            ++ (report
                  (ltb d.maximum_run_count 1
                    || (ltb d.maximum_concurrency 1
                        || (ltb d.maximum_parallel_branches 1 || ltb d.absolute_deadline_ms 1)))
                  Validation.bounds bound_invalid
                ++ transition_diagnostics (by_key [] d.nodes) 0 [] [] d.transitions)))

unfoldable pub unreachable_diagnostics : List String → List WorkflowNode → List Diagnostic
unreachable_diagnostics reachable =
    gather_entries
      (λ i n. report (not (includes reachable n.key)) (Validation.node i) node_unreachable) 0

unfoldable pub unfinished_diagnostics :
    List String → List String → List WorkflowNode → List Diagnostic
unfinished_diagnostics reachable finishing =
    gather_entries
      (λ i n.
        report (includes reachable n.key && not (includes finishing n.key)) (Validation.node i)
          terminal_path_required)
      0

-- The diagnostics, once the three searches have ended.
unfoldable pub gathered :
    WorkflowDefinition
    → Table TeamRunTemplateVersion
    → Option (List String)
    → Option (List String)
    → Option (List Diagnostic)
    → Option (List Diagnostic)
gathered d templates (some reachable) (some finishing) (some unbounded) = some (
    shape_diagnostics d
    ++ (node_diagnostics (context_of d templates) d.nodes
        ++ (unreachable_diagnostics reachable d.nodes
            ++ (unfinished_diagnostics reachable finishing d.nodes
                ++ (bound_diagnostics (graph_of d) d.cycle_bounds ++ unbounded)))))
gathered d templates _ _ _ = none

unfoldable pub validate_workflow :
    WorkflowDefinition → Table TeamRunTemplateVersion → Option (List Diagnostic)
validate_workflow d templates =
    gathered d templates
      (reach (reach_fuel (graph_of d) (start_keys d.nodes)) (graph_of d) [] (start_keys d.nodes))
      (finish (length (graph_of d) + 1) (graph_of d) (terminal_keys d.nodes))
      (edge_diagnostics (graph_of d) (declared_edges (graph_of d) d.cycle_bounds)
        (all_edges (graph_of d)))
