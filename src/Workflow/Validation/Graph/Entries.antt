-- ===== src/Workflow/Validation/Graph/Entries.antt =====
-- validation.ts: the keys of the graph are distinct, so its entries are what its lookups give.
use collab.Base.{
  ◌≡◌, refl, true, false, ◌&&◌, ◌||◌, inl, inr, List, [], ◌∷◌, map, String, same, arith, includes,
  distinct, Bool-cases, eq_iff,
}
use collab.Base.Table.{get, set}
use collab.Workflow.Join.{JoinNode}
use collab.Workflow.Validation.{WorkflowNode, Transition, has_node}
use collab.Base.Table.{Table}
use collab.Workflow.Validation.Graph.{
  Graph, targets, add_key, add_graph_edge, add_transitions, add_branches, add_splits, add_join,
  add_joins, build_graph,
}
use collab.Workflow.Validation.Graph.Finish.{Reads}

abbrev keys_of : Graph → List String
keys_of g = map (λ e. e.0) g

includes-keys_of-set :
    (k j : String) (ts : List String) (g : Graph)
    → includes (keys_of (set k ts g)) j ≡ (includes (keys_of g) j || same k j)
unfolding set
includes-keys_of-set k j ts [] = ground arith
includes-keys_of-set k j ts ((i, us) ∷ g) =
    ground (arith, eq_iff i k, eq_iff i j, eq_iff k j, includes-keys_of-set k j ts g)

distinct-set :
    (k : String) (ts : List String) (g : Graph)
    → distinct (keys_of g) ≡ true
    → distinct (keys_of (set k ts g)) ≡ true
unfolding set
distinct-set k ts [] h = refl
distinct-set k ts ((i, us) ∷ g) h =
    ground (arith, eq_iff i k, eq_iff k i, includes-keys_of-set k i ts g, distinct-set k ts g)

abbrev IsMap : Graph → Type 0
IsMap g = distinct (keys_of g) ≡ true

add_transitions-IsMap :
    (m : Table WorkflowNode) (g : Graph) (ts : List Transition)
    → IsMap g
    → IsMap (add_transitions m g ts)
unfolding add_transitions add_graph_edge
add_transitions-IsMap m g [] h = h
add_transitions-IsMap m g (t ∷ ts) h = elim (Bool-cases (has_node m t.from && has_node m t.to)) [
  | inl ends ↦ rw ends (
      add_transitions-IsMap m (add_graph_edge g t.from t.to) ts
        (distinct-set t.from (add_key (targets g t.from) t.to) g h))
  | inr other ↦ rw other (add_transitions-IsMap m g ts h)
]

add_branches-IsMap :
    (g : Graph) (key : String) (branches : List String)
    → IsMap g
    → IsMap (add_branches g key branches)
unfolding add_branches add_graph_edge
add_branches-IsMap g key [] h = h
add_branches-IsMap g key (b ∷ bs) h =
    add_branches-IsMap (add_graph_edge g key b) key bs
      (distinct-set key (add_key (targets g key) b) g h)

add_splits-IsMap :
    (g : Graph) (splits : List (String × List String)) → IsMap g → IsMap (add_splits g splits)
unfolding add_splits
add_splits-IsMap g [] h = h
add_splits-IsMap g ((key, bs) ∷ splits) h =
    add_splits-IsMap (add_branches g key bs) splits (add_branches-IsMap g key bs h)

add_join-IsMap :
    (g : Graph) (key : String) (branches : List String) → IsMap g → IsMap (add_join g key branches)
unfolding add_join add_graph_edge
add_join-IsMap g key [] h = h
add_join-IsMap g key (b ∷ bs) h =
    add_join-IsMap (add_graph_edge g b key) key bs (distinct-set b (add_key (targets g b) key) g h)

add_joins-IsMap :
    (g : Graph) (joins : List (String × JoinNode)) → IsMap g → IsMap (add_joins g joins)
unfolding add_joins
add_joins-IsMap g [] h = h
add_joins-IsMap g ((key, n) ∷ joins) h =
    add_joins-IsMap (add_join g key n.branch_keys) joins (add_join-IsMap g key n.branch_keys h)

Reads-tail :
    (j : String) (us : List String) (g entries : Graph)
    → includes (keys_of entries) j ≡ false
    → Reads g entries
    → Reads ((j, us) ∷ g) entries
unfolding targets get
Reads-tail j us g [] n h = tt
Reads-tail j us g ((i, ts) ∷ entries) n h =
    (ground (arith, eq_iff j i, eq_iff i j), Reads-tail j us g entries (ground arith) h.1)

IsMap-Reads : (g : Graph) → IsMap g → Reads g g
unfolding targets get
IsMap-Reads [] h = tt
IsMap-Reads ((j, ts) ∷ g) h =
    (ground (arith, eq_iff j j), Reads-tail j ts g g (ground arith) (IsMap-Reads g (ground arith)))

-- The entries of a definition's graph are those that its lookups give.
pub build_graph-Reads :
    (m : Table WorkflowNode) (ts : List Transition) (splits : List (String × List String))
    (joins : List (String × JoinNode))
    → Reads (build_graph m ts splits joins) (build_graph m ts splits joins)
unfolding build_graph
build_graph-Reads m ts splits joins =
    IsMap-Reads _
      (add_joins-IsMap _ joins (add_splits-IsMap _ splits (add_transitions-IsMap m [] ts refl)))
