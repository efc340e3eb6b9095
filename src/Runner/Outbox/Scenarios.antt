-- ===== src/Runner/Outbox/Scenarios.antt =====
-- outbox.ts: two messages, in an outbox for two events of which one is reserved.
use collab.Base.{
  ℕ, Bool, true, false, ◌≡◌, refl, Option, none, some, List, [], ◌∷◌, String, same, if◌then◌else◌,
}
use collab.Runner.Outbox.Content.{
  Codec, Kind, attempt_event, process_started, checkpoint, scalar, normal,
}
use collab.Runner.Outbox.{open_outbox, select}
use collab.Runner.Outbox.Records.{Outbox, Limits, Row, pending, acknowledged}
use collab.Runner.Outbox.Invariant.{Inv}
use collab.Runner.Outbox.States.{Call, enqueues, marks, run, run-open-Inv, settled-run}

-- `false` is the message of a started process, `true` a checkpoint.
abbrev kind_of : Bool → Kind
kind_of false = attempt_event process_started
kind_of true = checkpoint

abbrev id_of : Bool → String
id_of false = "e1"
id_of true = "e2"

abbrev json_of : Bool → String
json_of false = "[1]"
json_of true = "[2]"

abbrev read : String → Option Bool
read s = if same s "[1]" then some false else if same s "[2]" then some true else none

read-json_of : (b : Bool) → read (json_of b) ≡ some b
read-json_of false = refl
read-json_of true = refl

abbrev messages : Codec
messages = record {
  Body = Bool;
  kind = kind_of;
  event_id = id_of;
  value = λ b. scalar;
  stringify = json_of;
  parse = read;
  digest = λ s. s;
  parse-stringify = read-json_of;
}

abbrev small : Limits
small = record {
  maximum_items = 2;
  maximum_bytes = 100;
  reserved_critical_items = 1;
  reserved_critical_bytes = 10;
}

abbrev empty : Outbox
empty = record { limits = small; rows = [] }

abbrev calls : List (ℕ × Call messages)
calls = (5, enqueues "e1" (some "run") (some false)) ∷ (6, marks "e1") ∷ []

run-open-Inv_example : Inv messages (run messages empty calls)
unfolding open_outbox
run-open-Inv_example = run-open-Inv messages small {o = empty} calls refl

abbrev stored : Row
stored = record {
  event_id = "e1";
  run_id = some "run";
  kind = attempt_event process_started;
  priority = normal;
  body_digest = "[1]";
  body_json = "[1]";
  byte_count = 3;
  local_sequence = 1;
  predecessor = none;
  state = pending;
  rejection_code = none;
  created_at = 5;
  updated_at = 5;
}

abbrev done : Row
done = record stored { state = acknowledged; updated_at = 7 }

settled-run_example :
    select "e1" (run messages (record { limits = small; rows = done ∷ [] }) calls).rows ≡ some done
unfolding select
settled-run_example =
    settled-run messages (record { limits = small; rows = done ∷ [] }) calls "e1" done refl refl
