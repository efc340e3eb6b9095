-- ===== src/Runs/Acceptance/Scenarios.antt =====
-- event-deduplication.ts: a runner's first event, and its second.
use collab.Base.{ℕ, Bool, true, ◌≡◌, refl, none, some, List, [], ◌∷◌, String, ok}
use collab.Base.Patterns.{is_identifier, is_hash}
use collab.Runs.Acceptance.{
  Store, Fresh, Effect, find, is_valid, is_next, latest, inspect, prepare, is_refused, has,
  has_sequence, insert_rows, commit, accept,
}
use collab.Runs.Acceptance.Records.{Outside, Input, Applied, attempt_event, duplicate, applied}
use collab.Runs.Acceptance.Invariant.{Inv, run, run-Inv, Call}
use collab.Runs.Acceptance.Replay.{accept_once}

-- The rest of the database is a number that an effect increases.
abbrev outside : Outside
outside = record {
  Database = ℕ;
  Code = Bool;
  has_references = λ d i. true;
  digest = λ i a. i.event_id;
}

abbrev hash : String
hash = "0123456789abcdef0123456789abcdef0123456789abcdef0123456789abcdef"

abbrev first : Input
first = record {
  runner_id = "runner-1";
  event_id = "e1";
  run_id = "run-1";
  attempt_id = none;
  event_kind = attempt_event;
  local_sequence = 1;
  predecessor = none;
  input_hash = hash;
}

abbrev second : Input
second = record first { event_id = "e2"; local_sequence = 2; predecessor = some "e1" }

abbrev result : Applied
result = record { result_reference = "result-1"; is_applied = true }

abbrev effect : Effect outside
effect d = some (d, ok result)

abbrev fresh : String → Fresh outside
fresh id = record { now = 5; ack_id = id; audit_id = id }

abbrev empty : Store outside
empty = record { database = 0; events = []; acks = []; audits = [] }

empty-Inv : Inv outside empty
empty-Inv = record { numbered = tt; once = tt; acknowledged = refl; audited = refl; valid = tt }

abbrev calls : List (Call outside)
calls = (first, effect, fresh "k1") ∷ (second, effect, fresh "k2") ∷ []

run-Inv_example : Inv outside (run outside empty calls)
run-Inv_example = run-Inv outside empty calls empty-Inv

abbrev one : Store outside
unfolding insert_rows
one = insert_rows outside empty first result (fresh "k1")

accept_once_example :
    accept outside (run outside one []) first effect (fresh "k3")
    ≡ (run outside one [], ok record { disposition = duplicate; result_reference = "result-1" })
unfolding accept prepare inspect commit insert_rows is_refused has has_sequence find is_next latest
    is_valid is_identifier is_hash
accept_once_example =
    accept_once outside empty first effect (fresh "k1") {t = one}
      {a = record { disposition = applied; result_reference = "result-1" }} [] first effect
      (fresh "k3") refl refl refl refl
