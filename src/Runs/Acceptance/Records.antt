-- ===== src/Runs/Acceptance/Records.antt =====
-- event-deduplication.ts: the events that are sent, the results, and the rows of the three tables.
use collab.Base.{ℕ, Bool, Option, String}

pub data EventKind : Type 0 where
  attempt_event checkpoint evidence run_result termination_confirmation : EventKind

-- `RunnerEventAcceptanceInput`; its sequence is a whole number.
pub record Input : Type 0 where
  pub runner_id : String
  pub event_id : String
  pub run_id : String
  pub attempt_id : Option String
  pub event_kind : EventKind
  pub local_sequence : ℕ
  pub predecessor : Option String
  pub input_hash : String

pub data Disposition : Type 0 where
  applied rejected duplicate : Disposition

-- `RunnerEventApplied`, of which the disposition is APPLIED (`true`) or REJECTED, and
-- `RunnerEventAcceptance`.
pub record Applied : Type 0 where
  pub result_reference : String
  pub is_applied : Bool

pub record Acceptance : Type 0 where
  pub disposition : Disposition
  pub result_reference : String

pub data AcceptError {ℓ} (C : Type ℓ) : Type ℓ where
  event_invalid event_id_conflict out_of_order storage_failed : AcceptError C
  of_effect : C → AcceptError C

-- Rows of accepted_runner_events, accepted_event_ack_outbox and audit_events.
pub record Row : Type 0 where
  pub input : Input
  pub committed : Applied
  pub accepted_at : ℕ

pub record Ack : Type 0 where
  pub id : String
  pub runner_id : String
  pub event_id : String
  pub result_reference : String
  pub semantic_digest : String
  pub created_at : ℕ

pub record Audit : Type 0 where
  pub id : String
  pub runner_id : String
  pub run_id : String
  pub event_kind : EventKind
  pub local_sequence : ℕ
  pub is_applied : Bool
  pub created_at : ℕ

-- The rest of the database, on which the effects of events work.
pub record Outside : Type 1 where
  pub Database : Type 0
  -- The codes of an effect's errors.
  pub Code : Type 0
  -- Do the rows that the foreign keys of an accepted event name exist?
  pub has_references : Database → Input → Bool
  -- SHA-256 of the JSON text of the event and its result.
  pub digest : Input → Applied → String
