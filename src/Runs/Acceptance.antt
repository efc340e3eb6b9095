-- ===== src/Runs/Acceptance.antt =====
-- server/modules/runs/event-deduplication.ts: the server's acceptance of the events that runners send.
-- The three tables are lists, the newest row first. The clock's reading and the two new identifiers
-- are arguments of each call; the rest of the database, SHA-256 and the foreign keys are a parameter.
pub mod Numbering
pub mod Records
pub mod Invariant
pub mod Replay
mod Scenarios
use collab.Base.{
  ℕ, ◌+◌, Bool, true, false, not, ◌&&◌, ◌||◌, Option, none, some, List, [], ◌∷◌, String, leb, ltb,
  ◌==◌, same, if◌then◌else◌, Result, ok, err, never, refresh,
}
use collab.Base.Patterns.{is_identifier, is_hash}
use collab.Runs.Acceptance.Records.{
  Input, Disposition, applied, rejected, duplicate, Applied, Acceptance, AcceptError, event_invalid,
  event_id_conflict, out_of_order, storage_failed, of_effect, Row, Ack, Audit, Outside,
}

abbrev pub optional_identifier : Option String → Bool
optional_identifier none = true
optional_identifier (some s) = is_identifier s

unfoldable pub is_valid : Input → Bool
is_valid i =
    is_identifier i.runner_id
    && is_identifier i.event_id
    && is_identifier i.run_id
    && optional_identifier i.attempt_id
    && leb 1 i.local_sequence
    && optional_identifier i.predecessor
    && is_hash i.input_hash

-- … WHERE runner_id = ? AND semantic_event_id = ?
unfoldable pub find : String → String → List Row → Option Row
find runner id [] = none
find runner id (r ∷ rs) =
    if same r.input.runner_id runner && same r.input.event_id id then some r else find runner id rs

unfoldable pub of_run : String → String → Row → Bool
of_run runner run r = same r.input.runner_id runner && same r.input.run_id run

abbrev later : Row → Option Row → Row
later r none = r
later r (some q) = if ltb r.input.local_sequence q.input.local_sequence then q else r

-- … WHERE runner_id = ? AND run_id = ? ORDER BY local_sequence DESC LIMIT 1
unfoldable pub latest : String → String → List Row → Option Row
unfolding of_run
latest runner run [] = none
latest runner run (r ∷ rs) =
    let rest = latest runner run rs in if of_run runner run r then some (later r rest) else rest

abbrev pub same_id : Option String → String → Bool
same_id none id = false
same_id (some a) id = same a id

abbrev pub is_absent : Option String → Bool
is_absent none = true
is_absent (some a) = false

abbrev follows : Input → Option Row → Bool
follows i none = i.local_sequence == 1 && is_absent i.predecessor
follows i (some r) =
    i.local_sequence == r.input.local_sequence + 1 && same_id i.predecessor r.input.event_id

-- `validateOrder`: the input is the next event of its run.
unfoldable pub is_next : List Row → Input → Bool
is_next rows i = follows i (latest i.runner_id i.run_id rows)

abbrev pub disposition_of : Bool → Disposition
disposition_of true = applied
disposition_of false = rejected

-- Some row has the value in the column.
unfoldable pub has {ℓ} : {A : Type ℓ} → (A → String) → String → List A → Bool
has f k [] = false
has f k (x ∷ xs) = same (f x) k || has f k xs

abbrev pub is_found : Option Row → Bool
is_found none = false
is_found (some r) = true

-- UNIQUE (runner_id, run_id, local_sequence)
unfoldable pub has_sequence : Input → List Row → Bool
unfolding of_run
has_sequence i [] = false
has_sequence i (r ∷ rs) =
    (of_run i.runner_id i.run_id r && r.input.local_sequence == i.local_sequence)
    || has_sequence i rs

module _ (w : Outside) where
  open w use {Database, Code, has_references, digest}

  pub record Store : Type 0 where
    pub database : Database
    pub events : List Row
    pub acks : List Ack
    pub audits : List Audit

  -- What a call is given beside the input.
  pub record Fresh : Type 0 where
    pub now : ℕ
    pub ack_id : String
    pub audit_id : String

  abbrev replayed : Input → Option Row → Option (Result (AcceptError Code) Acceptance)
  replayed i none = none
  replayed i (some r) =
      let again : Acceptance = record {
        disposition = duplicate;
        result_reference = r.committed.result_reference;
      } in
      some (if same r.input.input_hash i.input_hash then ok again else err event_id_conflict never)

  unfoldable pub inspect : Store → Input → Option (Result (AcceptError Code) Acceptance)
  inspect s i = replayed i (find i.runner_id i.event_id s.events)

  -- `prepare`: `none` is the state NEW.
  abbrev ordered :
      Bool
      → Option (Result (AcceptError Code) Acceptance)
      → Result (AcceptError Code) (Option Acceptance)
  ordered next none = if next then ok none else err out_of_order refresh
  ordered next (some (ok a)) = ok (some a)
  ordered next (some (err c r)) = err c r

  unfoldable pub prepare : Store → Input → Result (AcceptError Code) (Option Acceptance)
  prepare s i =
      if is_valid i then ordered (is_next s.events i) (inspect s i) else err event_invalid never

  -- Does a primary key, a UNIQUE column or a foreign key refuse one of the three rows?
  unfoldable pub is_refused : Store → Input → Applied → Fresh → Bool
  is_refused s i a f =
      not (has_references s.database i)
      || is_found (find i.runner_id i.event_id s.events)
      || has_sequence i s.events
      || has (λ (k : Ack). k.id) f.ack_id s.acks
      || has (λ (k : Ack). k.semantic_digest) (digest i a) s.acks
      || has (λ (k : Audit). k.id) f.audit_id s.audits

  -- The three INSERTs.
  unfoldable pub insert_rows : Store → Input → Applied → Fresh → Store
  insert_rows s i a f = record s {
    events = record { input = i; committed = a; accepted_at = f.now } ∷ s.events;
    acks =
        record {
          id = f.ack_id;
          runner_id = i.runner_id;
          event_id = i.event_id;
          result_reference = a.result_reference;
          semantic_digest = digest i a;
          created_at = f.now;
        }
        ∷ s.acks;
    audits =
        record {
          id = f.audit_id;
          runner_id = i.runner_id;
          run_id = i.run_id;
          event_kind = i.event_kind;
          local_sequence = i.local_sequence;
          is_applied = a.is_applied;
          created_at = f.now;
        }
        ∷ s.audits;
  }

  -- `none` is a throw, of the two schemas or of the database.
  unfoldable pub commit : Store → Input → Applied → Fresh → Option (Store × Acceptance)
  commit s i a f =
      let answer : Acceptance = record {
        disposition = disposition_of a.is_applied;
        result_reference = a.result_reference;
      } in
      if not (is_valid i) || not (is_identifier a.result_reference) || is_refused s i a f
      then none
      else some (insert_rows s i a f, answer)

  -- An effect changes the rest of the database and gives a result or an error; `none` when it throws.
  abbrev pub Effect : Type 0
  Effect = Database → Option (Database × Result Code Applied)

  abbrev pub Outcome : Type 0
  Outcome = Store × Result (AcceptError Code) Acceptance

  -- A throw rolls the transaction back.
  abbrev committed : Store → Option (Store × Acceptance) → Outcome
  committed s none = (s, err storage_failed refresh)
  committed s (some (t, a)) = (t, ok a)

  -- An error of the effect is returned, which commits what the effect did.
  abbrev affected : Store → Input → Fresh → Option (Database × Result Code Applied) → Outcome
  affected s i f none = (s, err storage_failed refresh)
  affected s i f (some (d, err c r)) = (record s { database = d }, err (of_effect c) r)
  affected s i f (some (d, ok a)) = committed s (commit (record s { database = d }) i a f)

  abbrev decided :
      Store → Input → Effect → Fresh → Result (AcceptError Code) (Option Acceptance) → Outcome
  decided s i e f (err c r) = (s, err c r)
  decided s i e f (ok (some a)) = (s, ok a)
  decided s i e f (ok none) = affected s i f (e s.database)

  unfoldable pub accept : Store → Input → Effect → Fresh → Outcome
  accept s i e f = decided s i e f (prepare s i)
