-- ===== src/Workflow/ManagedLoop/Records.antt =====
-- managed-loops.ts: the state of a loop, its events, and the rows of the three tables.
use collab.Base.{ℕ, Option, List, String}
use collab.Base.Table.{Table}
use collab.Workflow.StopPolicy.{StopPolicy, ConsecutiveMatchState, PredicateResult}

pub record ManagedLoopState : Type 0 where
  pub attempts_created : ℕ
  pub maximum_attempts : ℕ
  pub absolute_deadline_at : ℕ
  pub consecutive_state : ConsecutiveMatchState

pub data EventKind : Type 0 where
  failed_to_start lost attempt_created request_next : EventKind

pub record ManagedLoopEvent : Type 0 where
  pub kind : EventKind
  pub observed_at : ℕ
  pub event_id : Option String
  pub attempt_id : Option String

pub data LoopError : Type 0 where
  bound_invalid deadline_exceeded budget_exhausted already_exists : LoopError
  event_invalid not_found event_conflict evaluation_conflict : LoopError

-- Rows of managed_loop_state, managed_loop_events and managed_loop_policy_evaluations.
pub record LoopRow : Type 0 where
  pub stop_policy : StopPolicy
  pub state : ManagedLoopState

pub record EventRow : Type 0 where
  pub event_id : String
  pub run_id : String
  pub attempt_id : Option String
  pub kind : EventKind
  pub observed_at : ℕ

pub record EvaluationRow : Type 0 where
  pub evaluation_id : String
  pub run_id : String
  pub facts_digest : String
  pub result : PredicateResult
  pub state : ConsecutiveMatchState
  pub evaluated_at : ℕ

pub record Store : Type 0 where
  pub loops : Table LoopRow
  pub events : List EventRow
  pub evaluations : List EvaluationRow
