-- ===== src/Runner/Outbox.antt =====
-- runner/outbox.ts: the events that a runner owes to the server. The table is a list of rows, the
-- newest first; the clock's reading is an argument of each call. A call that ends in a thrown
-- RUNNER_OUTBOX_CORRUPT is `none`.
pub mod Content
pub mod Records
pub mod Rows
pub mod Invariant
pub mod States
mod Scenarios
use collab.Base.{
  ℕ, ◌+◌, ◌-◌, ◌*◌, ◌/◌, ◌≤◌, Bool, true, false, not, ◌&&◌, ◌||◌, ◌≡◌, Option, none, some, List, [],
  ◌∷◌, String, leb, ltb, ◌==◌, same, length, total, keep, if◌then◌else◌, Result, ok, err, never,
  refresh,
}
use collab.Base.Patterns.{is_identifier}
use collab.Runner.Outbox.Content.{
  Codec, Priority, normal, critical, priority, is_durable, contains_prohibited, is_code,
  byte_length, same_kind,
}
use collab.Runner.Outbox.Records.{
  State, pending, in_flight, acknowledged, permanently_rejected, Limits, defaults, Row, OutboxError,
  event_invalid, event_id_conflict, full, reserved_capacity, state_failed, event_not_found,
  state_conflict, ack_invalid, Outbox,
}

-- The constructor; `none` is a thrown RUNNER_OUTBOX_LIMIT_INVALID. The database may hold rows already.
unfoldable pub open_outbox : Limits → List Row → Option Outbox
open_outbox l rows =
    if ltb l.maximum_items 1
      || ltb l.maximum_bytes 1
      || leb l.maximum_items l.reserved_critical_items
      || leb l.maximum_bytes l.reserved_critical_bytes
      || ltb defaults.maximum_items l.maximum_items
      || ltb defaults.maximum_bytes l.maximum_bytes
    then none
    else some (record { limits = l; rows = rows })

-- SELECT * FROM local_semantic_outbox WHERE event_id = ?
unfoldable pub select : String → List Row → Option Row
select id [] = none
select id (r ∷ rs) = if same r.event_id id then some r else select id rs

-- run_id IS ?
abbrev pub same_run : Option String → Option String → Bool
same_run none none = true
same_run (some a) (some b) = same a b
same_run _ _ = false

abbrev later : Row → Option Row → Row
later r none = r
later r (some q) = if ltb r.local_sequence q.local_sequence then q else r

-- … WHERE run_id IS ? ORDER BY local_sequence DESC LIMIT 1
unfoldable pub latest : Option String → List Row → Option Row
latest run [] = none
latest run (r ∷ rs) =
    let rest = latest run rs in if same_run r.run_id run then some (later r rest) else rest

abbrev pub sequence_of : Option Row → ℕ
sequence_of none = 0
sequence_of (some r) = r.local_sequence

abbrev pub id_of : Option Row → Option String
id_of none = none
id_of (some r) = some r.event_id

abbrev pub is_critical : Priority → Bool
is_critical critical = true
is_critical normal = false

unfoldable pub item_limit : Limits → Priority → ℕ
item_limit l critical = l.maximum_items
item_limit l normal = l.maximum_items - l.reserved_critical_items

unfoldable pub byte_limit : Limits → Priority → ℕ
byte_limit l critical = l.maximum_bytes
byte_limit l normal = l.maximum_bytes - l.reserved_critical_bytes

abbrev pub weight : List Row → ℕ
weight = total (λ r. r.byte_count)

-- The test for a full outbox: it counts every row, acknowledged ones too.
unfoldable pub is_full : Outbox → Priority → ℕ → Bool
is_full o p bytes =
    leb (item_limit o.limits p) (length o.rows)
    || ltb (byte_limit o.limits p) (weight o.rows + bytes)

abbrev full_error : Priority → OutboxError
full_error critical = full
full_error normal = reserved_capacity

abbrev pub is_state : State → State → Bool
is_state pending pending = true
is_state in_flight in_flight = true
is_state acknowledged acknowledged = true
is_state permanently_rejected permanently_rejected = true
is_state _ _ = false

-- UPDATE … SET state = ?, rejection_code = ?, updated_at = ? WHERE event_id = ? AND <test on the state>
unfoldable pub update_row :
    (State → Bool) → State → Option String → ℕ → String → List Row → List Row
update_row may s code now id [] = []
update_row may s code now id (r ∷ rs) =
    let rest = update_row may s code now id rs in
    if same r.event_id id && may r.state
    then record r { state = s; rejection_code = code; updated_at = now } ∷ rest
    else r ∷ rest

-- How many rows such an UPDATE changes.
unfoldable pub changes : (State → Bool) → String → List Row → ℕ
changes may id [] = 0
changes may id (r ∷ rs) =
    let rest = changes may id rs in if same r.event_id id && may r.state then rest + 1 else rest

-- UPDATE … SET state = 'PENDING' WHERE state = 'IN_FLIGHT'
unfoldable pub requeue_rows : ℕ → List Row → List Row × ℕ
requeue_rows now [] = ([], 0)
requeue_rows now (r ∷ rs) =
    let (rest, n) = requeue_rows now rs in
    if is_state r.state in_flight
    then (record r { state = pending; updated_at = now } ∷ rest, n + 1)
    else (r ∷ rest, n)

unfoldable pub requeue_in_flight : Outbox → ℕ → Outbox × ℕ
requeue_in_flight o now = let (rows, n) = requeue_rows now o.rows in (record o { rows = rows }, n)

pub data Disposition : Type 0 where
  applied duplicate rejected : Disposition

abbrev pub target_of : Disposition → State
target_of rejected = permanently_rejected
target_of _ = acknowledged

abbrev pub is_open : State → Bool
is_open pending = true
is_open in_flight = true
is_open _ = false

unfoldable pub code_fits : Disposition → Option String → Bool
code_fits rejected (some code) = is_code code
code_fits rejected none = false
code_fits _ none = true
code_fits _ (some code) = false

abbrev pub run_ok : Option String → Bool
run_ok none = true
run_ok (some run) = is_identifier run

-- Rows by ascending `local_sequence`; equal ones in the order of the table.
place : Row → List Row → List Row
place r [] = r ∷ []
place r (q ∷ qs) =
    let rest = place r qs in if leb r.local_sequence q.local_sequence then r ∷ q ∷ qs else q ∷ rest

unfoldable pub in_sequence : List Row → List Row
unfolding place
in_sequence [] = []
in_sequence (r ∷ rs) = place r (in_sequence rs)

module _ (c : Codec) where
  open c use {Body, kind, event_id, value, stringify, parse, digest}

  -- The candidate has passed the schema: is it an event that may be stored under this identifier?
  unfoldable pub is_storable : String → Option String → Body → Bool
  is_storable id run b =
      is_identifier id
      && run_ok run
      && is_durable (kind b)
      && same (event_id b) id
      && not (contains_prohibited (value b))

  -- What `parseRow` checks of the text that it reads back; `none` is a thrown RUNNER_OUTBOX_CORRUPT.
  unfoldable pub is_intact : Row → Body → Bool
  is_intact r b =
      is_durable (kind b)
      && same (event_id b) r.event_id
      && same_kind (kind b) r.kind
      && same (digest r.body_json) r.body_digest
      && byte_length r.body_json == r.byte_count
      && not (contains_prohibited (value b))

  abbrev checked : Row → Option Body → Option Row
  checked r none = none
  checked r (some b) = if is_intact r b then some r else none

  unfoldable pub parse_row : Row → Option Row
  parse_row r = checked r (parse r.body_json)

  abbrev pub Answer : Type 0
  Answer = Option (Result OutboxError Row)

  abbrev pub accepted : Option Row → Answer
  accepted none = none
  accepted (some r) = some (ok r)

  -- The row that is inserted for a new event.
  unfoldable pub new_row : String → Option String → Body → Option Row → ℕ → Row
  new_row id run b predecessor now = record {
    event_id = id;
    run_id = run;
    kind = kind b;
    priority = priority (kind b);
    body_digest = digest (stringify b);
    body_json = stringify b;
    byte_count = byte_length (stringify b);
    local_sequence = sequence_of predecessor + 1;
    predecessor = id_of predecessor;
    state = pending;
    rejection_code = none;
    created_at = now;
    updated_at = now;
  }

  -- The insertion, which reads the row back inside the `try`.
  abbrev read_back : Option Row → Answer
  read_back none = some (err state_failed never)
  read_back (some r) = some (ok r)

  unfoldable pub insert : Outbox → String → Option String → Body → ℕ → Outbox × Answer
  insert o id run b now =
      let r = new_row id run b (latest run o.rows) now in
      (record o { rows = r ∷ o.rows }, read_back (parse_row r))

  unfoldable pub replay : Row → Body → Answer
  replay prior b =
      if same prior.body_digest (digest (stringify b)) && same prior.body_json (stringify b)
      then accepted (parse_row prior)
      else some (err event_id_conflict never)

  abbrev decide : Outbox → String → Option String → Body → ℕ → Option Row → Outbox × Answer
  decide o id run b now (some prior) = (o, replay prior b)
  decide o id run b now none =
      if is_full o (priority (kind b)) (byte_length (stringify b))
      then (o, some (err (full_error (priority (kind b))) refresh))
      else insert o id run b now

  -- `body` is what RunnerMessageBodySchema.safeParse gives.
  unfoldable pub enqueue : Outbox → String → Option String → Option Body → ℕ → Outbox × Answer
  enqueue o id run none now = (o, some (err event_invalid never))
  enqueue o id run (some b) now =
      if not (is_storable id run b)
      then (o, some (err event_invalid never))
      else if ltb (byte_length (stringify b)) 1 || ltb 65536 (byte_length (stringify b))
      then (o, some (err event_invalid never))
      else decide o id run b now (select id o.rows)

  abbrev found : Option Row → OutboxError → Answer
  found none e = some (err e never)
  found (some r) e = accepted (parse_row r)

  unfoldable pub inspect : Outbox → String → Answer
  inspect o id = found (select id o.rows) event_not_found

  -- The rejection code is left as it is: the CHECK says that a PENDING row has none.
  unfoldable pub mark_in_flight : Outbox → String → ℕ → Outbox × Answer
  mark_in_flight o id now =
      let rows = update_row (is_state pending) in_flight none now id o.rows in
      (
        record o { rows = rows },
        if changes (is_state pending) id o.rows == 1
            then found (select id rows) state_conflict
            else some (err state_conflict never),
      )

  abbrev acknowledged_answer : State → ℕ → Option Row → Answer
  acknowledged_answer target n none = some (err event_not_found never)
  acknowledged_answer target n (some r) =
      if not (n == 1) && not (is_state r.state target)
      then some (err state_conflict never)
      else accepted (parse_row r)

  -- "APPLIED" or "DUPLICATE", or "REJECTED" with its code: other combinations are refused.
  unfoldable pub acknowledge : Outbox → String → Disposition → Option String → ℕ → Outbox × Answer
  acknowledge o id d code now =
      let target = target_of d in
      let rows = update_row is_open target code now id o.rows in
      if not (code_fits d code) then (o, some (err ack_invalid never)) else (
        record o { rows = rows },
        acknowledged_answer target (changes is_open id o.rows) (select id rows),
      )

  abbrev both : Option Row → Option (List Row) → Option (List Row)
  both (some r) (some rs) = some (r ∷ rs)
  both _ _ = none

  unfoldable pub read_all : List Row → Option (List Row)
  read_all [] = some []
  read_all (r ∷ rs) = both (parse_row r) (read_all rs)

  -- SELECT … WHERE state = 'PENDING' ORDER BY local_sequence; one unreadable row stops the call.
  unfoldable pub ready : Outbox → Option (List Row)
  ready o = read_all (in_sequence (keep (λ r. is_state r.state pending) o.rows))
