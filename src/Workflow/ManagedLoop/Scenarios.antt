-- ===== src/Workflow/ManagedLoop/Scenarios.antt =====
-- managed-loops.ts: a loop of at most three attempts.
use collab.Base.{◌≡◌, refl, none, some, [], ◌∷◌, ok}
use collab.Base.Table.{get, set}
use collab.Workflow.StopPolicy.{StopPolicyFacts, source, is_true}
use collab.Workflow.ManagedLoop.{
  read, is_event_invalid, advance_managed_loop, has_attempt_event, update_loop, select_event,
  record_event,
}
use collab.Workflow.ManagedLoop.Records.{
  ManagedLoopState, ManagedLoopEvent, attempt_created, request_next, LoopRow, Store,
}
use collab.Workflow.ManagedLoop.Budget.{records, run, Follows, run-Kept}
use collab.Workflow.ManagedLoop.Replay.{record_once}

abbrev one : ManagedLoopState
one = record {
  attempts_created = 1;
  maximum_attempts = 3;
  absolute_deadline_at = 100;
  consecutive_state = record { matches = 0 };
}

abbrev loop : LoopRow
loop = record { stop_policy = source "ci"; state = one }

abbrev store : Store
store = record { loops = ("run1", loop) ∷ []; events = []; evaluations = [] }

abbrev started : ManagedLoopEvent
started = record {
  kind = attempt_created;
  observed_at = 10;
  event_id = some "e1";
  attempt_id = some "a2";
}

abbrev asked : ManagedLoopEvent
asked = record { kind = request_next; observed_at = 10; event_id = some "e2"; attempt_id = none }

run-Kept_example :
    (r : LoopRow) × (get "run1" (run store (records "run1" started ∷ [])).loops ≡ some r)
    × Follows loop r
unfolding get
run-Kept_example = run-Kept store (records "run1" started ∷ []) "run1" loop refl

abbrev two : ManagedLoopState
two = record one { attempts_created = 2 }

abbrev after_start : Store
after_start = record {
  loops = ("run1", record { stop_policy = source "ci"; state = two }) ∷ [];
  events =
      record {
        event_id = "e1";
        run_id = "run1";
        attempt_id = some "a2";
        kind = attempt_created;
        observed_at = 10;
      }
      ∷ [];
  evaluations = [];
}

record_once_example :
    (current : ManagedLoopState) × (read (run after_start []) "run1" ≡ some current)
    × (record_event (run after_start []) "run1" started ≡ (run after_start [], some (ok current)))
unfolding record_event read is_event_invalid advance_managed_loop has_attempt_event update_loop
    select_event get set
record_once_example =
    record_once store "run1" started "e1" "a2" {t = after_start} {l = two} [] refl refl refl

abbrev after_ask : Store
after_ask = record store {
  events =
      record {
        event_id = "e2";
        run_id = "run1";
        attempt_id = none;
        kind = request_next;
        observed_at = 10;
      }
      ∷ [];
}

abbrev green : StopPolicyFacts
green = record { sources = ("ci", is_true) ∷ []; outcome = none }

abbrev after_evaluation : Store
after_evaluation = record store {
  evaluations =
      record {
        evaluation_id = "v1";
        run_id = "run1";
        facts_digest = "green";
        result = is_true;
        state = record { matches = 0 };
        evaluated_at = 20;
      }
      ∷ [];
}
