-- ===== src/Workflow/Validation/Cycles.antt =====
-- validation.ts: the declared cycles, with their traversal bounds, and the search for a path back
-- along each edge of the graph.
pub mod Paths
pub mod Bounded
use Prim.Native.Char.{Char, code}
use mathlib.Core.List.{reverse}
use collab.Base.{
  ℕ, zero, suc, ◌+◌, Bool, true, false, not, ◌&&◌, ◌||◌, Option, none, some, List, [], ◌∷◌, ◌++◌,
  map, String, same, ltb, ◌==◌, if◌then◌else◌, any, includes, distinct,
}
use collab.Base.Table.{Table}
use collab.Workflow.Validation.{Diagnostic, report, cycle_bound_invalid, cycle_bound_required}
use collab.Workflow.Validation.Graph.{Graph, targets, reach_fuel}
use collab.Workflow.Validation

abbrev Edge : Type 0
Edge = String × String

-- A character before the first part.
abbrev prepend : Char → List String → List String
prepend c [] = String.◌∷◌ c String.[] ∷ []
prepend c (part ∷ parts) = String.◌∷◌ c part ∷ parts

-- signature.split("->")
unfoldable pub split_arrow : String → List String
split_arrow String.[] = String.[] ∷ []
split_arrow (String.◌∷◌ c String.[]) = String.◌∷◌ c String.[] ∷ []
split_arrow (String.◌∷◌ c (String.◌∷◌ d s)) =
    let after = String.[] ∷ split_arrow s in
    let longer = prepend c (split_arrow (String.◌∷◌ d s)) in
    if code c == b'-' && code d == b'>' then after else longer

-- Each key with the next one, and the last key with the first.
unfoldable pub closed_edges : String → List String → List Edge
closed_edges first [] = []
closed_edges first (x ∷ []) = (x, first) ∷ []
closed_edges first (x ∷ (y ∷ xs)) = (x, y) ∷ closed_edges first (y ∷ xs)

unfoldable pub cycle_edges : List String → List Edge
cycle_edges [] = []
cycle_edges (x ∷ xs) = closed_edges x (x ∷ xs)

abbrev pub same_edge : Edge → Edge → Bool
same_edge e f = same e.0 f.0 && same e.1 f.1

-- declaredCycleEdges.has(edge)
abbrev pub has_declared : List Edge → Edge → Bool
has_declared es e = any (same_edge e) es

-- The test that a declared cycle fails. The bound is an integer by its type.
unfoldable pub is_wrong_cycle : Graph → ℕ → List String → Bool
is_wrong_cycle g bound keys =
    ltb bound 1
    || (not (distinct keys) || any (λ e. not (includes (targets g e.0) e.1)) (cycle_edges keys))

-- The loop over `cycleBounds`: its diagnostics, and the edges that it declares.
unfoldable pub bound_diagnostics : Graph → Table ℕ → List Diagnostic
bound_diagnostics g [] = []
bound_diagnostics g ((signature, bound) ∷ rest) =
    report (is_wrong_cycle g bound (split_arrow signature)) (Validation.cycle_bound signature)
      cycle_bound_invalid
    ++ bound_diagnostics g rest

unfoldable pub declared_edges : Graph → Table ℕ → List Edge
declared_edges g [] = []
declared_edges g ((signature, bound) ∷ rest) =
    (if is_wrong_cycle g bound (split_arrow signature)
      then []
      else cycle_edges (split_arrow signature))
    ++ declared_edges g rest

-- pathExists: `pending` is a stack with its top first; `none` means that the fuel ran out.
unfoldable pub path_exists : ℕ → Graph → String → List String → List String → Option Bool
path_exists fuel g target seen [] = some false
path_exists zero g target seen (key ∷ pending) = none
path_exists (suc fuel) g target seen (key ∷ pending) =
    let rest = path_exists fuel g target seen pending in
    let next = path_exists fuel g target (key ∷ seen) (reverse (targets g key) ++ pending) in
    if same key target then some true else if includes seen key then rest else next

abbrev pub path_back : Graph → Edge → Option Bool
path_back g e = path_exists (reach_fuel g (e.1 ∷ [])) g e.0 [] (e.1 ∷ [])

-- One more round of a loop that may run out of fuel.
abbrev pub push_found : Bool → Option Bool → Option (List Diagnostic) → Option (List Diagnostic)
push_found declared none rest = none
push_found declared (some found) none = none
push_found declared (some found) (some rest) =
    some (report (found && not declared) Validation.cycle_bounds cycle_bound_required ++ rest)

unfoldable pub edge_diagnostics : Graph → List Edge → List Edge → Option (List Diagnostic)
edge_diagnostics g declared [] = some []
edge_diagnostics g declared (e ∷ es) =
    push_found (has_declared declared e) (path_back g e) (edge_diagnostics g declared es)

-- The edges of the graph, entry by entry: for (const [from, targets] of graph) for (const to of …).
unfoldable pub all_edges : Graph → List Edge
all_edges [] = []
all_edges ((from, ts) ∷ entries) = map (λ to. (from, to)) ts ++ all_edges entries
