-- ===== src/Runs/Lifecycle.antt =====
-- server/modules/runs/lifecycle.ts, with the states of shared/contracts/runs.ts.
pub mod Traces
mod Scenarios
use collab.Base.{
  Bool, true, false, ◌||◌, Option, none, some, Result, ok, err, refresh, if◌then◌else◌,
}

pub data AttemptState : Type 0 where
  pending starting running exited failed_to_start cancelled timed_out lost : AttemptState

-- `AttemptEvent`, of which only the kind is read. The last four are FAILED_TO_START, CANCELLED,
-- TIMED_OUT and LOST, which are also names of states.
pub data AttemptEvent : Type 0 where
  acknowledged process_started process_exited termination_requested : AttemptEvent
  start_failed was_cancelled ran_out was_lost : AttemptEvent

-- QUEUED, RUNNING, WAITING, COMPLETED, FAILED and CANCELLED.
pub data RunState : Type 0 where
  queued active waiting completed failed stopped : RunState

pub data WaitingReason : Type 0 where
  human_input retry blocked : WaitingReason

-- The reasons of "COMPLETE" and "FAIL" are not read.
pub data RunEvent : Type 0 where
  attempt_authorized attempt_started attempt_lost complete fail cancel : RunEvent
  checkpointed : WaitingReason → RunEvent

pub record RunTransition : Type 0 where
  pub state : RunState
  pub waiting_reason : Option WaitingReason

pub data LifecycleError : Type 0 where
  attempt_transition_invalid run_terminal : LifecycleError

abbrev pub is_live : AttemptState → Bool
is_live pending = true
is_live starting = true
is_live running = true
is_live _ = false

abbrev in_live : AttemptState → AttemptState → Option AttemptState
in_live current next = if is_live current then some next else none

unfoldable pub next_attempt : AttemptState → AttemptEvent → Option AttemptState
next_attempt pending acknowledged = some starting
next_attempt starting process_started = some running
next_attempt running process_exited = some exited
next_attempt starting start_failed = some failed_to_start
next_attempt current termination_requested = in_live current current
next_attempt current was_cancelled = in_live current cancelled
next_attempt running ran_out = some timed_out
next_attempt current was_lost = in_live current lost
next_attempt _ _ = none

abbrev or_invalid : Option AttemptState → Result LifecycleError AttemptState
or_invalid (some next) = ok next
or_invalid none = err attempt_transition_invalid refresh

unfoldable pub transition_attempt : AttemptState → AttemptEvent → Result LifecycleError AttemptState
unfolding next_attempt
transition_attempt current event = or_invalid (next_attempt current event)

abbrev pub is_terminal : RunState → Bool
is_terminal completed = true
is_terminal failed = true
is_terminal stopped = true
is_terminal _ = false

abbrev next_run : RunEvent → RunTransition
next_run attempt_authorized = record { state = active; waiting_reason = none }
next_run attempt_started = record { state = active; waiting_reason = none }
next_run attempt_lost = record { state = waiting; waiting_reason = some retry }
next_run (checkpointed reason) = record { state = waiting; waiting_reason = some reason }
next_run complete = record { state = completed; waiting_reason = none }
next_run fail = record { state = failed; waiting_reason = none }
next_run cancel = record { state = stopped; waiting_reason = none }

unfoldable pub transition_run : RunState → RunEvent → Result LifecycleError RunTransition
transition_run current event =
    if is_terminal current then err run_terminal refresh else ok (next_run event)
