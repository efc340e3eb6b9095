-- ===== src/Wire/Protocol/Scenarios.antt =====
-- protocol.ts: a channel that is open, and its first heartbeat.
use collab.Base.{◌≡◌, Bool, true, false, ◌≢◌, refl, none, some, List, [], ◌∷◌, arith}
use collab.Base.Table.{get}
use collab.Wire.TokenBucket.{refill, consume}
use collab.Wire.Protocol.{
  Channel, bucket, limit_run, is_time_invalid, receive_envelope, receive_decoded, receive_bytes,
}
use collab.Wire.Protocol.Frames.{Decoder, object, Object, Envelope, heartbeat, accepted}
use collab.Wire.Protocol.Sequence.{run, accepted_once}
use collab.Wire.Protocol.Versions.{Range, IsSelected, select_version, select_version-IsSelected}

abbrev beat : Envelope
beat = record {
  message_id = "m1";
  sequence = 1;
  protocol_version = "1.0";
  issued_at = 100;
  expires_at = 160;
  body = heartbeat;
}

abbrev beat_object : Object
beat_object = record {
  is_hello = false;
  hello = none;
  has_known_kind = true;
  message_id = some "m1";
  sequence = some 1;
  envelope = some beat;
}

-- There is one text, which is its own bytes; its envelope has the number of its object.
kept :
    (x : Object) (e : Envelope)
    → some (object beat_object) ≡ some (object x)
    → x.envelope ≡ some e
    → x.sequence ≡ some e.sequence
kept x e p q = ground arith

abbrev frames : Decoder
frames = record {
  Bytes = Bool;
  byte_length = λ b. 40;
  Text = Bool;
  decode = λ b. some b;
  encode = λ t. t;
  parse = λ t. some (object beat_object);
  digest = λ b. "d";
  sequence-kept = λ t x e p q. kept x e p q;
}

abbrev opened : Channel
opened = record {
  supported_versions = "1.0" ∷ [];
  fence = 1;
  maximum_replay_entries = 4;
  maximum_run_buckets = 2;
  seen = [];
  runner_bucket = bucket 100 200 100;
  run_buckets = [];
  opened_at = 100;
  is_active = true;
  selected_version = some "1.0";
  last_sequence = 0;
  last_heartbeat_at = 100;
}

accepted_once_example :
    (receive_bytes frames
      (run frames (receive_bytes frames opened 101 "c" true).0 [])
      102
      "c"
      true).1
    ≢ accepted
unfolding receive_bytes receive_decoded receive_envelope limit_run is_time_invalid consume refill
    get
accepted_once_example = accepted_once frames opened 101 "c" true [] 102 "c" refl

abbrev one_range : List Range
one_range = record { major = 1; minimum_minor = 0; maximum_minor = 3 } ∷ []

select_version-IsSelected_example :
    IsSelected ("1.0" ∷ "1.2" ∷ []) one_range (select_version ("1.0" ∷ "1.2" ∷ []) one_range)
select_version-IsSelected_example = select_version-IsSelected ("1.0" ∷ "1.2" ∷ []) one_range
