-- ===== src/Workflow/Validation/Cycles/Bounded.antt =====
-- validation.ts: without a diagnostic, each edge that a walk leads back over is of a declared cycle.
use mathlib.Core.Path.{subst}
use collab.Base.{
  ℕ, ◌≡◌, refl, sym, Bool, true, ◌&&◌, ◌||◌, inl, inr, some, List, [], ◌∷◌, ◌++◌, map, String, same,
  arith, leb, any, includes, Bool-cases, eq_iff,
}
use collab.Base.Table.{Table, get}
use collab.Workflow.Validation.{Diagnostic}
use collab.Workflow.Validation.Graph.{Graph, targets, Walk}
use collab.Workflow.Validation.Cycles.{
  split_arrow, cycle_edges, same_edge, has_declared, is_wrong_cycle, declared_edges, push_found,
  edge_diagnostics, all_edges,
}
use collab.Workflow.Validation.Cycles.Paths.{path_back_total, path_back_iff}

push_found_total :
    (declared found : Bool) (rest : List Diagnostic)
    → (r : List Diagnostic) × (push_found declared (some found) (some rest) ≡ some r)
push_found_total declared found rest = (_, refl)

pub edge_diagnostics_total :
    (g : Graph) (declared es : List (String × String))
    → (r : List Diagnostic) × (edge_diagnostics g declared es ≡ some r)
unfolding edge_diagnostics
edge_diagnostics_total g declared [] = ([], refl)
edge_diagnostics_total g declared (e ∷ es) =
    let (found, e1) = path_back_total g e in
    let (rest, e2) = edge_diagnostics_total g declared es in
    rw (e1, e2) (push_found_total (has_declared declared e) found rest)

-- An edge of the loop, if a walk leads back over it, is declared.
edge_declared :
    (g : Graph) (declared es : List (String × String)) (e : String × String)
    → edge_diagnostics g declared es ≡ some []
    → any (same_edge e) es ≡ true
    → Walk g e.1 e.0
    → has_declared declared e ≡ true
unfolding edge_diagnostics
edge_declared g declared [] e h i w = cc
edge_declared g declared (f ∷ es) e h i w =
    let (found, e1) = path_back_total g f in
    let (rest, e2) = edge_diagnostics_total g declared es in
    let walks = path_back_iff g f found e1 in
    elim (Bool-cases (same_edge e f)) [
      | inl at ↦
          let p : e ≡ f = ground (arith, eq_iff e.0 f.0, eq_iff e.1 f.1) in
          let back = subst (λ x. Walk g x.1 x.0) p w in
          let hit = walks.1 back in
          subst (λ x. has_declared declared x ≡ true) (sym p) (ground arith)
      | inr other ↦ edge_declared g declared es e (ground arith) (ground arith) w
    ]

any-append :
    (p : String × String → Bool) (xs ys : List (String × String))
    → any p (xs ++ ys) ≡ (any p xs || any p ys)
any-append p [] ys = refl
any-append p (x ∷ xs) ys = ground (arith, any-append p xs ys)

any-same-map :
    (e : String × String) (from : String) (ts : List String)
    → any (same_edge e) (map (λ to. (from, to)) ts) ≡ (same e.0 from && includes ts e.1)
any-same-map e from [] = ground arith
any-same-map e from (t ∷ ts) = ground (arith, eq_iff t e.1, eq_iff e.1 t, any-same-map e from ts)

-- The loop runs over every edge of the graph.
edge-all_edges :
    (g : Graph) (e : String × String)
    → includes (targets g e.0) e.1 ≡ true
    → any (same_edge e) (all_edges g) ≡ true
unfolding all_edges targets get
edge-all_edges [] e h = cc
edge-all_edges ((from, ts) ∷ g) e h = ground (
  arith,
  any-append (same_edge e) (map (λ to. (from, to)) ts) (all_edges g),
  any-same-map e from ts,
  eq_iff from e.0,
  eq_iff e.0 from,
  edge-all_edges g e,
)

-- The edge is one of a declared cycle with a positive bound.
abbrev pub bounds_edge : String × String → String × ℕ → Bool
bounds_edge e b = leb 1 b.1 && has_declared (cycle_edges (split_arrow b.0)) e

declared_bounds :
    (g : Graph) (bounds : Table ℕ) (e : String × String)
    → has_declared (declared_edges g bounds) e ≡ true
    → any (bounds_edge e) bounds ≡ true
unfolding declared_edges is_wrong_cycle
declared_bounds g [] e h = cc
declared_bounds g ((signature, bound) ∷ bounds) e h =
    elim (Bool-cases (is_wrong_cycle g bound (split_arrow signature))) [
      | inl wrong ↦
          let later : has_declared (declared_edges g bounds) e ≡ true = ground arith in
          let known = declared_bounds g bounds e later in ground arith
      | inr right ↦ ground (
        arith,
        any-append (same_edge e) (cycle_edges (split_arrow signature)) (declared_edges g bounds),
        declared_bounds g bounds e,
      )
    ]

-- Where the loops over the edges and over the bounds report nothing, an edge that a walk leads back
-- over is of a declared cycle with a positive bound.
pub edge_bounded :
    (g : Graph) (bounds : Table ℕ) (e : String × String)
    → edge_diagnostics g (declared_edges g bounds) (all_edges g) ≡ some []
    → includes (targets g e.0) e.1 ≡ true
    → Walk g e.1 e.0
    → any (bounds_edge e) bounds ≡ true
edge_bounded g bounds e h i w =
    declared_bounds g bounds e
      (edge_declared g (declared_edges g bounds) (all_edges g) e h (edge-all_edges g e i) w)
