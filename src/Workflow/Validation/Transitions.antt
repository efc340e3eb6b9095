-- ===== src/Workflow/Validation/Transitions.antt =====
-- validation.ts: the loop over the transitions, with the sets of the edges and of the targets that
-- it has seen, and what it lets through.
use collab.Base.{
  ℕ, suc, ◌≡◌, refl, ◌≤◌, Bool, true, false, not, ◌&&◌, ◌||◌, Option, none, some, List, [], ◌∷◌,
  ◌++◌, String, same, arith, if◌then◌else◌, eq_iff, All,
}
use collab.Base.Table.{Table}
use collab.Workflow.Validation.{
  Transition, WorkflowNode, Diagnostic, report, has_node, count, transition_target_invalid,
  transition_duplicate, transition_ambiguous,
}
use collab.Workflow.Validation

abbrev pub has_pair : String → String → Transition → Bool
has_pair from result_key t = same t.from from && same t.result_key result_key

-- seenEdges.has(edgeKey(from, resultKey, to))
abbrev pub has_edge : String → String → String → List Transition → Bool
has_edge from result_key to [] = false
has_edge from result_key to (t ∷ seen) =
    has_pair from result_key t && same t.to to || has_edge from result_key to seen

-- targetByPair.get(pairKey(from, resultKey)). An entry is only written where it is absent or the
-- same, so the entries are kept as the transitions that wrote them.
abbrev pub target_of : String → String → List Transition → Option String
target_of from result_key [] = none
target_of from result_key (t ∷ ts) =
    if has_pair from result_key t then some t.to else target_of from result_key ts

abbrev pub is_ambiguous : Option String → String → Bool
is_ambiguous none to = false
is_ambiguous (some prior) to = not (same prior to)

unfoldable pub check_transition :
    Table WorkflowNode → ℕ → List Transition → List Transition → Transition → List Diagnostic
check_transition m i seen targets t =
    report (not (has_node m t.from) || not (has_node m t.to)) (Validation.transition i)
      transition_target_invalid
    ++ (report (has_edge t.from t.result_key t.to seen) (Validation.transition i)
          transition_duplicate
        ++ report (is_ambiguous (target_of t.from t.result_key targets) t.to)
            (Validation.transition i) transition_ambiguous)

unfoldable pub transition_diagnostics :
    Table WorkflowNode → ℕ → List Transition → List Transition → List Transition → List Diagnostic
transition_diagnostics m i seen targets [] = []
transition_diagnostics m i seen targets (t ∷ ts) =
    check_transition m i seen targets t
    ++ transition_diagnostics m (suc i)
        (if has_edge t.from t.result_key t.to seen then seen else t ∷ seen)
        (if is_ambiguous (target_of t.from t.result_key targets) t.to then targets else t ∷ targets)
        ts

-- What a transition without diagnostics has not: a missing end, an earlier copy, another target.
check_transition-nil :
    (m : Table WorkflowNode) (i : ℕ) (seen targets : List Transition) (t : Transition)
    (rest : List Diagnostic)
    → check_transition m i seen targets t ++ rest ≡ []
    → (has_node m t.from ≡ true)
      × (has_node m t.to ≡ true)
      × (has_edge t.from t.result_key t.to seen ≡ false)
      × (is_ambiguous (target_of t.from t.result_key targets) t.to ≡ false)
      × (rest ≡ [])
unfolding check_transition
check_transition-nil m i seen targets t rest h = ground arith

-- A pair whose target is known, by an edge that was seen, occurs no more.
seen_again :
    (m : Table WorkflowNode) (i : ℕ) (seen targets : List Transition) (from key to : String)
    (ts : List Transition)
    → has_edge from key to seen ≡ true
    → target_of from key targets ≡ some to
    → transition_diagnostics m i seen targets ts ≡ []
    → count (has_pair from key) ts ≡ 0
unfolding transition_diagnostics
seen_again m i seen targets from key to [] hs hp h = refl
seen_again m i seen targets from key to (t ∷ ts) hs hp h =
    let (_, _, new, clear, later) = check_transition-nil m i seen targets t _ h in
    ground (
      arith,
      eq_iff t.from from,
      eq_iff t.result_key key,
      eq_iff to t.to,
      seen_again m (suc i) (t ∷ seen) (t ∷ targets) from key to ts,
    )

pub count_pair-le :
    (m : Table WorkflowNode) (i : ℕ) (seen targets : List Transition) (from key : String)
    (ts : List Transition)
    → transition_diagnostics m i seen targets ts ≡ []
    → count (has_pair from key) ts ≤ 1
unfolding transition_diagnostics
count_pair-le m i seen targets from key [] h = omega arith
count_pair-le m i seen targets from key (t ∷ ts) h =
    let (_, _, new, clear, later) = check_transition-nil m i seen targets t _ h in
    ground (
      arith,
      eq_iff t.from from,
      eq_iff t.result_key key,
      eq_iff t.to t.to,
      seen_again m (suc i) (t ∷ seen) (t ∷ targets) from key t.to ts,
      count_pair-le m (suc i) (t ∷ seen) (t ∷ targets) from key ts,
    )

-- Both ends of each transition are nodes.
pub ends-has_node :
    (m : Table WorkflowNode) (i : ℕ) (seen targets : List Transition) (ts : List Transition)
    → transition_diagnostics m i seen targets ts ≡ []
    → All (λ t. (has_node m t.from ≡ true) × (has_node m t.to ≡ true)) ts
unfolding transition_diagnostics
ends-has_node m i seen targets [] h = tt
ends-has_node m i seen targets (t ∷ ts) h =
    let (one, other, new, clear, later) = check_transition-nil m i seen targets t _ h in
    ((one, other), ends-has_node m (suc i) _ _ ts later)
