-- ===== src/Workflow/Validation/Checks/Total.antt =====
-- validation.ts: the validation ends for every definition, and what it leaves no diagnostic for.
use collab.Base.{◌+◌, ◌≡◌, some, List, [], ◌++◌, String, arith, length, nil_of_append}
use collab.Base.Table.{Table}
use collab.Workflow.Validation.{TeamRunTemplateVersion, WorkflowDefinition, Diagnostic}
use collab.Workflow.Validation.Nodes.{node_diagnostics}
use collab.Workflow.Validation.Graph.{reach, reach_fuel, finish}
use collab.Workflow.Validation.Graph.Reach.{reach_total}
use collab.Workflow.Validation.Graph.Finish.{finish_total}
use collab.Workflow.Validation.Cycles.{
  bound_diagnostics, declared_edges, edge_diagnostics, all_edges,
}
use collab.Workflow.Validation.Cycles.Bounded.{edge_diagnostics_total}
use collab.Workflow.Validation.Checks.{
  start_keys, terminal_keys, context_of, graph_of, shape_diagnostics, unreachable_diagnostics,
  unfinished_diagnostics, gathered, validate_workflow,
}

-- The searches of a definition, all ended.
record Searches (d : WorkflowDefinition) (r f : List String) (u : List Diagnostic) : Type 0 where
  reached :
      reach (reach_fuel (graph_of d) (start_keys d.nodes)) (graph_of d) [] (start_keys d.nodes)
      ≡ some r
  finished : finish (length (graph_of d) + 1) (graph_of d) (terminal_keys d.nodes) ≡ some f
  unbounded :
      edge_diagnostics
        (graph_of d)
        (declared_edges (graph_of d) d.cycle_bounds)
        (all_edges (graph_of d))
      ≡ some u

searches :
    (d : WorkflowDefinition)
    → (r : List String) × (f : List String) × (u : List Diagnostic) × Searches d r f u
searches d =
    let (r, er) = reach_total (graph_of d) (start_keys d.nodes) in
    let (f, ef) = finish_total (graph_of d) (terminal_keys d.nodes) in
    let (u, eu) =
      edge_diagnostics_total (graph_of d) (declared_edges (graph_of d) d.cycle_bounds)
        (all_edges (graph_of d)) in
    (r, f, u, record { reached = er; finished = ef; unbounded = eu })

validated :
    (d : WorkflowDefinition) (templates : Table TeamRunTemplateVersion) (r f : List String)
    (u : List Diagnostic)
    → Searches d r f u
    → validate_workflow d templates ≡ gathered d templates (some r) (some f) (some u)
unfolding validate_workflow
validated d templates r f u s = ground arith

-- The validation of any definition, with any templates, ends with a list of diagnostics: the fuel of
-- its three searches, one round for each key and edge or one pass for each entry, is enough.
pub validate_total :
    (d : WorkflowDefinition) (templates : Table TeamRunTemplateVersion)
    → (ds : List Diagnostic) × (validate_workflow d templates ≡ some ds)
unfolding gathered
validate_total d templates = let (r, f, u, s) = searches d in (_, validated d templates r f u s)

-- What holds of a definition without diagnostics: each check has nothing to report.
pub record Clean (d : WorkflowDefinition) (templates : Table TeamRunTemplateVersion)
    (r f : List String) : Type 0 where
  pub reached :
      reach (reach_fuel (graph_of d) (start_keys d.nodes)) (graph_of d) [] (start_keys d.nodes)
      ≡ some r
  pub finished : finish (length (graph_of d) + 1) (graph_of d) (terminal_keys d.nodes) ≡ some f
  pub bounded :
      edge_diagnostics
        (graph_of d)
        (declared_edges (graph_of d) d.cycle_bounds)
        (all_edges (graph_of d))
      ≡ some []
  pub shape : shape_diagnostics d ≡ []
  pub nodes : node_diagnostics (context_of d templates) d.nodes ≡ []
  pub reachable : unreachable_diagnostics r d.nodes ≡ []
  pub finishing : unfinished_diagnostics r f d.nodes ≡ []
  pub declared : bound_diagnostics (graph_of d) d.cycle_bounds ≡ []

abbrev pub IsAccepted : WorkflowDefinition → Table TeamRunTemplateVersion → Type 0
IsAccepted d templates = validate_workflow d templates ≡ some []

pub IsAccepted-Clean :
    (d : WorkflowDefinition) (templates : Table TeamRunTemplateVersion)
    → IsAccepted d templates
    → (r : List String) × (f : List String) × Clean d templates r f
unfolding gathered
IsAccepted-Clean d templates h =
    let (r, f, u, s) = searches d in
    let all : shape_diagnostics d
          ++ (node_diagnostics (context_of d templates) d.nodes
              ++ (unreachable_diagnostics r d.nodes
                  ++ (unfinished_diagnostics r f d.nodes
                      ++ (bound_diagnostics (graph_of d) d.cycle_bounds ++ u))))
        ≡ [] =
      ground (arith, validated d templates r f u s) in
    let (shape, all1) = nil_of_append (shape_diagnostics d) _ all in
    let (nodes, all2) = nil_of_append (node_diagnostics (context_of d templates) d.nodes) _ all1 in
    let (reachable, all3) = nil_of_append (unreachable_diagnostics r d.nodes) _ all2 in
    let (finishing, all4) = nil_of_append (unfinished_diagnostics r f d.nodes) _ all3 in
    let (declared, none_left) =
      nil_of_append (bound_diagnostics (graph_of d) d.cycle_bounds) u all4 in
    (
      r,
      f,
      record {
        reached = s.reached;
        finished = s.finished;
        bounded = rw none_left at (s.unbounded);
        shape = shape;
        nodes = nodes;
        reachable = reachable;
        finishing = finishing;
        declared = declared;
      },
    )
