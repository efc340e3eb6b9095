-- ===== src/Runs/Lifecycle/Scenarios.antt =====
-- lifecycle.ts: instances.
use collab.Base.{◌≡◌, refl, true, List, [], ◌∷◌, none}
use collab.Runs.Lifecycle.{
  AttemptEvent, acknowledged, process_started, process_exited, was_lost, completed, RunTransition,
  next_attempt, transition_attempt,
}
use collab.Runs.Lifecycle.Traces.{run_attempt, in_order, exited_history}

abbrev events : List AttemptEvent
events = process_started ∷ acknowledged ∷ process_started ∷ process_exited ∷ was_lost ∷ []

exited_history_example :
    in_order (acknowledged ∷ process_started ∷ process_exited ∷ []) events ≡ true
unfolding run_attempt transition_attempt next_attempt
exited_history_example = exited_history events refl

abbrev done : RunTransition
done = record { state = completed; waiting_reason = none }
