-- ===== src/Wire/Protocol/Frames.antt =====
-- protocol.ts: what a frame holds, and what the channel answers.
use collab.Base.{ℕ, Bool, ◌≡◌, Option, some, List, String}
use collab.Wire.Protocol.Versions.{Range}

pub data Code : Type 0 where
  frame_too_large frame_utf8_invalid frame_json_invalid : Code
  client_hello_required client_hello_invalid client_hello_duplicate : Code
  protocol_version_unsupported runner_rate_limited run_rate_limited : Code
  frame_invalid frame_kind_denied frame_id_conflict : Code
  frame_sequence_regression frame_time_invalid : Code
  client_hello_timeout runner_heartbeat_timeout : Code
  binary_frame_denied compressed_frame_denied : Code

pub record ServerWelcome : Type 0 where
  pub selected_version : String
  pub connection_id : String
  pub fence : ℕ

-- A rejection closes the channel.
pub data ReceiveResult : Type 0 where
  accepted duplicate : ReceiveResult
  welcomed : ServerWelcome → ReceiveResult
  rejected : Code → ReceiveResult

-- The body of an envelope, as far as it is read: the attempt or gate that it belongs to.
pub data Body : Type 0 where
  heartbeat other : Body
  of_attempt of_gate : String → Body

pub record Envelope : Type 0 where
  pub message_id : String
  pub sequence : ℕ
  pub protocol_version : String
  pub issued_at : ℕ
  pub expires_at : ℕ
  pub body : Body

-- A JSON object as the code looks at it before and after the schemas. A sequence that is no whole number
-- is missing here: both ways the schema refuses the frame.
pub record Object : Type 0 where
  pub is_hello : Bool
  -- The ranges, when ClientHelloSchema accepts the object.
  pub hello : Option (List Range)
  pub has_known_kind : Bool
  pub message_id : Option String
  pub sequence : Option ℕ
  -- What RunnerEnvelopeSchema gives.
  pub envelope : Option Envelope

-- What JSON.parse gives: an object, or another value.
pub data Raw : Type 0 where
  object : Object → Raw
  plain : Raw

pub record Decoder : Type 1 where
  pub Bytes : Type 0
  pub byte_length : Bytes → ℕ
  pub Text : Type 0
  pub decode : Bytes → Option Text
  pub encode : Text → Bytes
  pub parse : Text → Option Raw
  pub digest : Bytes → String
  -- A schema keeps the sequence of what it accepts.
  pub sequence-kept :
      (t : Text) (x : Object) (e : Envelope)
      → parse t ≡ some (object x)
      → x.envelope ≡ some e
      → x.sequence ≡ some e.sequence
