-- ===== src/Workflow/ManagedLoop.antt =====
-- server/modules/workflows/managed-loops.ts: the attempt budget of a loop, its events and the
-- evaluations of its stop policy. A JSON column reads back as the value that was stored. A call that
-- throws, whose transaction is rolled back, answers `none`.
pub mod Budget
pub mod Records
pub mod Once
pub mod Replay
mod Scenarios
use Prim.Native.String.{count}
use collab.Base.{
  ℕ, ◌+◌, Bool, true, false, not, ◌&&◌, ◌||◌, Option, none, some, List, [], ◌∷◌, String, leb, ltb,
  ◌==◌, same, if◌then◌else◌, Result, ok, err, never,
}
use collab.Base.Table.{Table, get, set}
use collab.Workflow.StopPolicy.{
  StopPolicy, StopPolicyFacts, ConsecutiveMatchState, PredicateResult, evaluate,
}
use collab.Workflow.ManagedLoop.Records.{
  ManagedLoopState, EventKind, failed_to_start, lost, attempt_created, request_next,
  ManagedLoopEvent, LoopError, bound_invalid, deadline_exceeded, budget_exhausted, already_exists,
  event_invalid, not_found, event_conflict, evaluation_conflict, LoopRow, EventRow, EvaluationRow,
  Store,
}

abbrev pub is_request : EventKind → Bool
is_request request_next = true
is_request _ = false

unfoldable pub advance_managed_loop :
    ManagedLoopState → ManagedLoopEvent → Result LoopError ManagedLoopState
advance_managed_loop s e =
    if ltb s.maximum_attempts 1 || ltb s.absolute_deadline_at 1
    then err bound_invalid never
    else if leb s.absolute_deadline_at e.observed_at
    then err deadline_exceeded never
    else if is_request e.kind
    then (if leb s.maximum_attempts s.attempts_created then err budget_exhausted never else ok s)
    else if ltb s.maximum_attempts (s.attempts_created + 1)
    then err budget_exhausted never
    else ok record s { attempts_created = s.attempts_created + 1 }

abbrev state_of : Option LoopRow → Option ManagedLoopState
state_of none = none
state_of (some r) = some r.state

unfoldable pub read : Store → String → Option ManagedLoopState
read s run = state_of (get run s.loops)

-- CHECK (length(x) BETWEEN 1 AND 128)
abbrev pub is_key : String → Bool
is_key k = leb 1 (count k) && leb (count k) 128

abbrev pub is_optional_key : Option String → Bool
is_optional_key none = true
is_optional_key (some k) = is_key k

abbrev pub Answer : Type 0
Answer = Store × Option (Result LoopError ManagedLoopState)

-- The CHECKs of managed_loop_state, of which the last is attempts_created <= maximum_attempts.
unfoldable pub is_storable : String → ManagedLoopState → Bool
is_storable run l =
    is_key run
    && leb 1 l.maximum_attempts
    && leb 1 l.absolute_deadline_at
    && leb l.attempts_created l.maximum_attempts

abbrev created : Store → String → StopPolicy → ManagedLoopState → Option ManagedLoopState → Answer
created s run p l (some old) = (s, some (err already_exists never))
created s run p l none =
    if not (is_storable run l)
    then (s, none)
    else (record s { loops = set run (record { stop_policy = p; state = l }) s.loops }, some (ok l))

unfoldable pub create : Store → String → StopPolicy → ManagedLoopState → Answer
create s run p l = created s run p l (read s run)

abbrev pub is_given : Option String → Bool
is_given none = false
is_given (some x) = true

-- if (event.eventId): an empty text counts as none.
abbrev pub key_of : Option String → Option String
key_of none = none
key_of (some k) = if same k "" then none else some k

unfoldable pub is_event_invalid : ManagedLoopEvent → Bool
is_event_invalid e =
    (is_given e.attempt_id && not (is_given e.event_id))
    || (not (is_request e.kind) && is_given e.event_id && not (is_given e.attempt_id))
    || (is_request e.kind && is_given e.attempt_id)

unfoldable pub select_event : String → List EventRow → Option EventRow
select_event id [] = none
select_event id (r ∷ rs) = if same r.event_id id then some r else select_event id rs

abbrev pub same_kind : EventKind → EventKind → Bool
same_kind failed_to_start failed_to_start = true
same_kind lost lost = true
same_kind attempt_created attempt_created = true
same_kind request_next request_next = true
same_kind _ _ = false

-- prior.attempt_id === event.attemptId: a missing identifier is null in the row and undefined in the
-- event, which differ.
abbrev pub same_attempt : Option String → Option String → Bool
same_attempt (some a) (some b) = same a b
same_attempt _ _ = false

unfoldable pub is_replay : EventRow → String → ManagedLoopEvent → Bool
is_replay prior run e =
    same prior.run_id run
    && same_attempt prior.attempt_id e.attempt_id
    && same_kind prior.kind e.kind

-- UNIQUE (run_id, attempt_id, kind), in which a missing attempt is never a duplicate.
unfoldable pub has_attempt_event : String → ManagedLoopEvent → List EventRow → Bool
has_attempt_event run e [] = false
has_attempt_event run e (r ∷ rs) =
    (same r.run_id run && same_attempt r.attempt_id e.attempt_id && same_kind r.kind e.kind)
    || has_attempt_event run e rs

-- The UPDATE of the loop's counters.
abbrev with_state : Store → String → ManagedLoopState → Option LoopRow → Table LoopRow
with_state s run l none = s.loops
with_state s run l (some r) = set run (record r { state = l }) s.loops

unfoldable pub update_loop : Store → String → ManagedLoopState → Store
update_loop s run l = record s { loops = with_state s run l (get run s.loops) }

abbrev row_for : String → String → ManagedLoopEvent → EventRow
row_for k run e = record {
  event_id = k;
  run_id = run;
  attempt_id = e.attempt_id;
  kind = e.kind;
  observed_at = e.observed_at;
}

abbrev stored : Store → String → ManagedLoopEvent → ManagedLoopState → Option String → Answer
stored s run e l none = (update_loop s run l, some (ok l))
stored s run e l (some k) =
    if has_attempt_event run e s.events || not (is_key k) || not (is_optional_key e.attempt_id)
    then (s, none)
    else (record (update_loop s run l) { events = row_for k run e ∷ s.events }, some (ok l))

abbrev advanced : Store → String → ManagedLoopEvent → Result LoopError ManagedLoopState → Answer
advanced s run e (err c r) = (s, some (err c r))
advanced s run e (ok l) = stored s run e l (key_of e.event_id)

abbrev pub prior_of : Store → Option String → Option EventRow
prior_of s none = none
prior_of s (some k) = select_event k s.events

abbrev recorded : Store → String → ManagedLoopEvent → ManagedLoopState → Option EventRow → Answer
recorded s run e current none = advanced s run e (advance_managed_loop current e)
recorded s run e current (some prior) =
    (s, some (if is_replay prior run e then ok current else err event_conflict never))

abbrev found : Store → String → ManagedLoopEvent → Option ManagedLoopState → Answer
found s run e none = (s, some (err not_found never))
found s run e (some current) = recorded s run e current (prior_of s (key_of e.event_id))

unfoldable pub record_event : Store → String → ManagedLoopEvent → Answer
record_event s run e =
    if is_event_invalid e then (s, some (err event_invalid never)) else found s run e (read s run)

-- The evaluation of the stop policy; SHA-256 of the facts' JSON text is an argument.
unfoldable pub select_evaluation : String → List EvaluationRow → Option EvaluationRow
select_evaluation id [] = none
select_evaluation id (r ∷ rs) = if same r.evaluation_id id then some r else select_evaluation id rs

abbrev pub Evaluated : Type 0
Evaluated = PredicateResult × ConsecutiveMatchState

abbrev pub EvaluationAnswer : Type 0
EvaluationAnswer = Store × Option (Result LoopError Evaluated)

abbrev kept : Store → String → String → String → ℕ → LoopRow → Option Evaluated → EvaluationAnswer
kept s run id digest now r none = (s, none)
kept s run id digest now r (some (result, state)) =
    let row : EvaluationRow = record {
      evaluation_id = id;
      run_id = run;
      facts_digest = digest;
      result = result;
      state = state;
      evaluated_at = now;
    } in
    if not (is_key id) then (s, none) else (
      record (update_loop s run (record r.state { consecutive_state = state })) {
        evaluations = row ∷ s.evaluations;
      },
      some (ok (result, state)),
    )

abbrev evaluated :
    Store → String → String → String → StopPolicyFacts → ℕ → Option LoopRow → EvaluationAnswer
evaluated s run id digest facts now none = (s, some (err not_found never))
evaluated s run id digest facts now (some r) =
    kept s run id digest now r (evaluate r.stop_policy facts r.state.consecutive_state)

abbrev decided :
    Store → String → String → String → StopPolicyFacts → ℕ → Option EvaluationRow → EvaluationAnswer
decided s run id digest facts now none = evaluated s run id digest facts now (get run s.loops)
decided s run id digest facts now (some p) = (
  s,
  some (
      if same p.facts_digest digest then ok (p.result, p.state) else err evaluation_conflict never),
)

unfoldable pub evaluate_loop :
    (StopPolicyFacts → String) → Store → String → String → StopPolicyFacts → ℕ → EvaluationAnswer
evaluate_loop digest s run id facts now =
    decided s run id (digest facts) facts now (select_evaluation id s.evaluations)
