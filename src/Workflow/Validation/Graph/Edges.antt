-- ===== src/Workflow/Validation/Graph/Edges.antt =====
-- validation.ts: each edge of the graph comes from a transition, from a split or from a join.
use collab.Base.{
  ◌≡◌, Bool, ◌&&◌, ◌||◌, inl, inr, List, [], ◌∷◌, String, same, arith, includes, any, Bool-cases,
  eq_iff, includes-append,
}
use collab.Base.Table.{get, get-set}
use collab.Workflow.Join.{JoinNode}
use collab.Workflow.Validation.{WorkflowNode, Transition, has_node}
use collab.Base.Table.{Table}
use collab.Workflow.Validation.Graph.{
  Graph, targets, add_key, add_graph_edge, add_transitions, add_branches, add_splits, add_join,
  add_joins, build_graph,
}

-- An edge from c to d: by a transition between nodes, from a split, or to a join.
abbrev pub by_transition : Table WorkflowNode → String → String → Transition → Bool
by_transition m c d t = (has_node m t.from && has_node m t.to) && (same t.from c && same t.to d)

abbrev pub by_split : String → String → String × List String → Bool
by_split c d s = same s.0 c && includes s.1 d

abbrev pub by_join : String → String → String × JoinNode → Bool
by_join c d j = same j.0 d && includes j.1.branch_keys c

-- One more edge.
targets-add_graph_edge :
    (g : Graph) (a b c d : String)
    → includes (targets (add_graph_edge g a b) c) d
      ≡ (includes (targets g c) d || same a c && same b d)
unfolding add_graph_edge targets
targets-add_graph_edge g a b c d = ground (
  arith,
  get-set a c (add_key (targets g a) b) g,
  includes-append (targets g a) (b ∷ []) d,
  eq_iff a c,
  eq_iff b d,
)

targets-add_transitions :
    (m : Table WorkflowNode) (g : Graph) (ts : List Transition) (c d : String)
    → includes (targets (add_transitions m g ts) c) d
      ≡ (includes (targets g c) d || any (by_transition m c d) ts)
unfolding add_transitions
targets-add_transitions m g [] c d = ground arith
targets-add_transitions m g (t ∷ ts) c d =
    elim (Bool-cases (has_node m t.from && has_node m t.to)) [
      | inl ends ↦ rw ends (
          ground (
            arith,
            targets-add_transitions m (add_graph_edge g t.from t.to) ts c d,
            targets-add_graph_edge g t.from t.to c d,
          ))
      | inr other ↦ rw other (ground (arith, targets-add_transitions m g ts c d))
    ]

targets-add_branches :
    (g : Graph) (key : String) (bs : List String) (c d : String)
    → includes (targets (add_branches g key bs) c) d
      ≡ (includes (targets g c) d || same key c && includes bs d)
unfolding add_branches
targets-add_branches g key [] c d = ground arith
targets-add_branches g key (b ∷ bs) c d = ground (
  arith,
  targets-add_branches (add_graph_edge g key b) key bs c d,
  targets-add_graph_edge g key b c d,
)

targets-add_splits :
    (g : Graph) (splits : List (String × List String)) (c d : String)
    → includes (targets (add_splits g splits) c) d
      ≡ (includes (targets g c) d || any (by_split c d) splits)
unfolding add_splits
targets-add_splits g [] c d = ground arith
targets-add_splits g ((key, bs) ∷ splits) c d = ground (
  arith,
  targets-add_splits (add_branches g key bs) splits c d,
  targets-add_branches g key bs c d,
)

targets-add_join :
    (g : Graph) (key : String) (bs : List String) (c d : String)
    → includes (targets (add_join g key bs) c) d
      ≡ (includes (targets g c) d || same key d && includes bs c)
unfolding add_join
targets-add_join g key [] c d = ground arith
targets-add_join g key (b ∷ bs) c d = ground (
  arith,
  targets-add_join (add_graph_edge g b key) key bs c d,
  targets-add_graph_edge g b key c d,
)

targets-add_joins :
    (g : Graph) (joins : List (String × JoinNode)) (c d : String)
    → includes (targets (add_joins g joins) c) d
      ≡ (includes (targets g c) d || any (by_join c d) joins)
unfolding add_joins
targets-add_joins g [] c d = ground arith
targets-add_joins g ((key, n) ∷ joins) c d = ground (
  arith,
  targets-add_joins (add_join g key n.branch_keys) joins c d,
  targets-add_join g key n.branch_keys c d,
)

-- The edges of a definition's graph are those of its transitions between nodes, those from a split
-- to its branches and those from a branch to its join, and no others.
targets-build_graph :
    (m : Table WorkflowNode) (ts : List Transition) (splits : List (String × List String))
    (joins : List (String × JoinNode)) (c d : String)
    → includes (targets (build_graph m ts splits joins) c) d
      ≡ (any (by_transition m c d) ts || (any (by_split c d) splits || any (by_join c d) joins))
unfolding build_graph targets get
targets-build_graph m ts splits joins c d = ground (
  arith,
  targets-add_joins (add_splits (add_transitions m [] ts) splits) joins c d,
  targets-add_splits (add_transitions m [] ts) splits c d,
  targets-add_transitions m [] ts c d,
)
