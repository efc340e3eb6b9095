-- ===== src/Workflow/Validation/Graph.antt =====
-- validation.ts: the graph of a definition, with the edges from a split to its branches and from a
-- branch to its join, and the two searches in it.
pub mod Edges
pub mod Entries
pub mod Reach
pub mod Finish
use collab.Base.{
  ℕ, zero, suc, ◌+◌, ◌≡◌, Bool, true, false, not, ◌&&◌, Option, none, some, List, [], ◌∷◌, ◌++◌,
  String, length, total, if◌then◌else◌, any, includes,
}
use collab.Base.Table.{Table, get, set}
use collab.Workflow.Join.{JoinNode}
use collab.Workflow.Validation.{WorkflowNode, Transition, has_node}

abbrev pub Graph : Type 0
Graph = Table (List String)

-- graph.get(key) ?? []
unfoldable pub targets : Graph → String → List String
targets g key = elim (get key g) [ none ↦ [] | some ts ↦ ts ]

-- new Set([...xs, x])
abbrev pub add_key : List String → String → List String
add_key xs x = if includes xs x then xs else xs ++ x ∷ []

unfoldable pub add_graph_edge : Graph → String → String → Graph
unfolding targets
add_graph_edge g from to = set from (add_key (targets g from) to) g

unfoldable pub add_transitions : Table WorkflowNode → Graph → List Transition → Graph
add_transitions m g [] = g
add_transitions m g (t ∷ ts) =
    add_transitions m
      (if has_node m t.from && has_node m t.to then add_graph_edge g t.from t.to else g) ts

unfoldable pub add_branches : Graph → String → List String → Graph
add_branches g key [] = g
add_branches g key (branch ∷ branches) = add_branches (add_graph_edge g key branch) key branches

unfoldable pub add_splits : Graph → List (String × List String) → Graph
add_splits g [] = g
add_splits g ((key, branches) ∷ splits) = add_splits (add_branches g key branches) splits

unfoldable pub add_join : Graph → String → List String → Graph
add_join g key [] = g
add_join g key (branch ∷ branches) = add_join (add_graph_edge g branch key) key branches

unfoldable pub add_joins : Graph → List (String × JoinNode) → Graph
add_joins g [] = g
add_joins g ((key, n) ∷ joins) = add_joins (add_join g key n.branch_keys) joins

-- `graph`, once all edges are added.
unfoldable pub build_graph :
    Table WorkflowNode
    → List Transition
    → List (String × List String)
    → List (String × JoinNode)
    → Graph
build_graph m ts splits joins = add_joins (add_splits (add_transitions m [] ts) splits) joins

-- The loop that fills `reachable` from the queue; `none` means that the fuel ran out.
unfoldable pub reach : ℕ → Graph → List String → List String → Option (List String)
reach fuel g reachable [] = some reachable
reach zero g reachable (key ∷ queue) = none
reach (suc fuel) g reachable (key ∷ queue) =
    let next = reach fuel g (key ∷ reachable) (queue ++ targets g key) in
    let rest = reach fuel g reachable queue in if includes reachable key then rest else next

-- The rounds that are enough: each one takes a key off the queue, and a key adds its targets once.
unfoldable pub reach_fuel : Graph → List String → ℕ
reach_fuel g starts = length starts + total (λ e. length e.1) g

-- One pass over the entries of the graph, with the flag `changed`.
unfoldable pub pass : Graph → List String → List String × Bool
pass [] finishing = (finishing, false)
pass ((from, ts) ∷ entries) finishing =
    let found = not (includes finishing from) && any (includes finishing) ts in
    let (after, changed) = pass entries (if found then from ∷ finishing else finishing) in
    (after, if found then true else changed)

-- while (changed): `canReachTerminal`.
unfoldable pub finish : ℕ → Graph → List String → Option (List String)
finish zero g finishing = none
finish (suc fuel) g finishing =
    let (after, changed) = pass g finishing in
    let rest = finish fuel g after in if changed then rest else some after

-- The walks in the graph.
pub data Walk (g : Graph) (a : String) : String → Type 0 where
  here : Walk g a a
  step : {b c : String} → Walk g a b → includes (targets g b) c ≡ true → Walk g a c
