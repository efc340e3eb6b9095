-- ===== src/Runner/Outbox/Records.antt =====
-- outbox.ts: the limits, the rows and the errors.
use collab.Base.{ℕ, ◌*◌, ◌/◌, Option, List, String}
use collab.Runner.Outbox.Content.{Kind, Priority}

pub data State : Type 0 where
  pending in_flight acknowledged permanently_rejected : State

pub record Limits : Type 0 where
  pub maximum_items : ℕ
  pub maximum_bytes : ℕ
  pub reserved_critical_items : ℕ
  pub reserved_critical_bytes : ℕ

abbrev pub defaults : Limits
defaults = record {
  maximum_items = 10000;
  maximum_bytes = 64 * 1024 * 1024;
  reserved_critical_items = 1000;
  reserved_critical_bytes = 64 * 1024 * 1024 / 10;
}

pub record Row : Type 0 where
  pub event_id : String
  pub run_id : Option String
  pub kind : Kind
  pub priority : Priority
  pub body_digest : String
  pub body_json : String
  pub byte_count : ℕ
  pub local_sequence : ℕ
  pub predecessor : Option String
  pub state : State
  pub rejection_code : Option String
  pub created_at : ℕ
  pub updated_at : ℕ

pub data OutboxError : Type 0 where
  event_invalid event_id_conflict full reserved_capacity state_failed : OutboxError
  event_not_found state_conflict ack_invalid : OutboxError

pub record Outbox : Type 0 where
  pub limits : Limits
  pub rows : List Row
