-- ===== src/Workflow/Validation/Checks/Accepted.antt =====
-- validation.ts: what holds of a definition that the validation reports nothing for.
use mathlib.Core.List.{Memᴰ}
use collab.Base.{◌≡◌, ◌≤◌, true, List, [], String, arith, any, All-mem, includes, nil_of_append}
use collab.Base.Table.{Table}
use collab.Workflow.Validation.{
  TeamRunTemplateVersion, WorkflowNode, WorkflowDefinition, count, is_start, is_terminal, by_key,
  key_diagnostics,
}
use collab.Workflow.Validation.Transitions.{has_pair, transition_diagnostics, count_pair-le}
use collab.Workflow.Validation.Nodes.Runs.{gather_entries-nil}
use collab.Workflow.Validation.Graph.{targets, Walk}
use collab.Workflow.Validation.Graph.Reach.{From, reach_iff}
use collab.Workflow.Validation.Graph.Finish.{To, finish_iff, Reads}
use collab.Workflow.Validation.Graph.Entries.{build_graph-Reads}
use collab.Workflow.Validation.Cycles.Bounded.{bounds_edge, edge_bounded}
use collab.Workflow.Validation.Checks.{
  start_keys, terminal_keys, graph_of, shape_diagnostics, unreachable_diagnostics,
  unfinished_diagnostics,
}
use collab.Workflow.Validation.Checks.Total.{IsAccepted, IsAccepted-Clean}

graph_of-Reads : (d : WorkflowDefinition) → Reads (graph_of d) (graph_of d)
unfolding graph_of
graph_of-Reads d = build_graph-Reads _ _ _ _

node_included :
    (r : List String) (ns : List WorkflowNode) (n : WorkflowNode)
    → unreachable_diagnostics r ns ≡ []
    → Memᴰ n ns
    → includes r n.key ≡ true
unfolding unreachable_diagnostics
node_included r ns n h m =
    let (i, nothing) = All-mem _ ns n (gather_entries-nil _ 0 ns h) m in ground arith

node_finishing :
    (r f : List String) (ns : List WorkflowNode) (n : WorkflowNode)
    → unfinished_diagnostics r f ns ≡ []
    → includes r n.key ≡ true
    → Memᴰ n ns
    → includes f n.key ≡ true
unfolding unfinished_diagnostics
node_finishing r f ns n h i m =
    let (j, nothing) = All-mem _ ns n (gather_entries-nil _ 0 ns h) m in ground arith

-- In a definition without diagnostics each node lies between a start and a terminal node: a walk in
-- the graph of the definition leads to it from a START node, and a walk from it to a TERMINAL node.
pub node_between :
    (d : WorkflowDefinition) (templates : Table TeamRunTemplateVersion) (n : WorkflowNode)
    → IsAccepted d templates
    → Memᴰ n d.nodes
    → From (graph_of d) (start_keys d.nodes) n.key × To (graph_of d) (terminal_keys d.nodes) n.key
node_between d templates n h m =
    let (r, f, clean) = IsAccepted-Clean d templates h in
    let seen = node_included r d.nodes n clean.reachable m in
    let ends = node_finishing r f d.nodes n clean.finishing seen m in
    (
      (reach_iff _ (graph_of d) (start_keys d.nodes) r n.key clean.reached).0 seen,
      (finish_iff _ (graph_of d) (terminal_keys d.nodes) f n.key (graph_of-Reads d)
            clean.finished).0
          ends,
    )

-- In a definition without diagnostics, an edge of the graph that a walk leads back over lies on a
-- declared cycle, one of whose traversal bounds is positive.
pub cycle_bounded :
    (d : WorkflowDefinition) (templates : Table TeamRunTemplateVersion) (from to : String)
    → IsAccepted d templates
    → includes (targets (graph_of d) from) to ≡ true
    → Walk (graph_of d) to from
    → any (bounds_edge (from, to)) d.cycle_bounds ≡ true
cycle_bounded d templates from to h e w =
    let (r, f, clean) = IsAccepted-Clean d templates h in
    edge_bounded (graph_of d) d.cycle_bounds (from, to) clean.bounded e w

shape_parts :
    (d : WorkflowDefinition)
    → shape_diagnostics d ≡ []
    → (count is_start d.nodes ≡ 1)
      × (any is_terminal d.nodes ≡ true)
      × (1 ≤ d.maximum_run_count)
      × (1 ≤ d.maximum_concurrency)
      × (1 ≤ d.maximum_parallel_branches)
      × (1 ≤ d.absolute_deadline_ms)
      × (transition_diagnostics (by_key [] d.nodes) 0 [] [] d.transitions ≡ [])
unfolding shape_diagnostics
shape_parts d h =
    let (_, after) = nil_of_append (key_diagnostics [] 0 d.nodes) _ h in
    (
      ground arith,
      ground arith,
      ground arith,
      ground arith,
      ground arith,
      ground arith,
      ground arith,
    )

-- In a definition without diagnostics a result of a node selects at most one transition.
transition_unique :
    (d : WorkflowDefinition) (templates : Table TeamRunTemplateVersion) (from key : String)
    → IsAccepted d templates
    → count (has_pair from key) d.transitions ≤ 1
transition_unique d templates from key h =
    let (r, f, clean) = IsAccepted-Clean d templates h in
    let (_, _, _, _, _, _, clear) = shape_parts d clean.shape in
    count_pair-le (by_key [] d.nodes) 0 [] [] from key d.transitions clear
