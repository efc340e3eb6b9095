-- ===== src/Workflow/StopPolicy/Scenarios.antt =====
-- stop-policy.ts: instances, on a loop that waits for a green check.
use collab.Base.{◌≡◌, ◌↔◌, refl, inl, inr, none, some, [], ◌∷◌, ◌≤◌, arith}
use collab.Base.Table.{get}
use collab.Workflow.StopPolicy.{
  is_true, unknown, goal_achieved, StopPolicy, all, any, source, agent_outcome, Conditions, nil,
  cons, StopPolicyFacts, source_result, outcome_result, streak, or, evaluate, evaluate_each,
}
use collab.Workflow.StopPolicy.Kleene.{is_plain, kleene, Extends, evaluate-kleene}
use collab.Workflow.StopPolicy.Streaks.{run_length, start, replay, consecutive_reached}

abbrev green : StopPolicy
green = source "ci"

abbrev reported : StopPolicy
reported = agent_outcome goal_achieved

abbrev both : Conditions
both = cons green (cons reported nil)

abbrev observed : StopPolicyFacts
observed = record { sources = ("ci", is_true) ∷ []; outcome = none }

abbrev finished : StopPolicyFacts
finished = record { sources = ("ci", is_true) ∷ []; outcome = some goal_achieved }

evaluate-kleene_example : evaluate (all both) observed start ≡ some (unknown, start)
unfolding kleene is_plain source_result outcome_result get
evaluate-kleene_example = evaluate-kleene (all both) observed start refl

extended : Extends observed finished
unfolding source_result
extended = record { sources = λ key. inr refl; outcomes = inl refl }

any_green : evaluate (any both) observed start ≡ some (is_true, start)
unfolding evaluate evaluate_each or source_result outcome_result get
any_green = refl

consecutive_reached_example :
    (is_true ≡ is_true)
    ↔ ((kleene green observed ≡ is_true) × (2 ≤ run_length green (observed ∷ observed ∷ [])))
unfolding is_plain replay evaluate streak source_result get
consecutive_reached_example =
    consecutive_reached green 2 observed (observed ∷ []) (record { matches = 1 }) is_true
      (record { matches = 2 }) refl (omega arith) refl refl
