-- ===== src/Wire/Protocol.antt =====
-- server/adapters/wss/protocol.ts: what a runner's channel accepts. The clock's reading of a call and the
-- new connection's identifier are arguments; a call reads the clock once. Decoding (UTF-8, JSON, the
-- schemas and SHA-256) is a parameter.
pub mod Versions
pub mod Frames
pub mod Windows
pub mod Sequence
mod Scenarios
use Prim.Native.String.{◌++◌}
use collab.Base.{
  ℕ, ◌+◌, ◌-◌, Bool, true, false, not, ◌&&◌, ◌||◌, ◌≡◌, Option, none, some, List, [], ◌∷◌, String,
  leb, ltb, ◌==◌, same, length, if◌then◌else◌,
}
use collab.Base.Table.{Table, get, set, delete}
use collab.Wire.TokenBucket.{TokenBucket, consume}
use collab.Wire.Protocol.Versions.{Range, select_version}
use collab.Wire.Protocol.Frames.{
  Code, frame_too_large, frame_utf8_invalid, frame_json_invalid, client_hello_required,
  client_hello_invalid, client_hello_duplicate, protocol_version_unsupported, runner_rate_limited,
  run_rate_limited, frame_invalid, frame_kind_denied, frame_id_conflict, frame_sequence_regression,
  frame_time_invalid, client_hello_timeout, runner_heartbeat_timeout, ReceiveResult, accepted,
  duplicate, welcomed, rejected, Body, heartbeat, of_attempt, of_gate, Envelope, Object, Raw,
  object, plain, Decoder,
}

pub record Seen : Type 0 where
  pub sequence : ℕ
  pub digest : String

pub record Channel : Type 0 where
  pub supported_versions : List String
  pub fence : ℕ
  pub maximum_replay_entries : ℕ
  pub maximum_run_buckets : ℕ
  pub seen : Table Seen
  pub runner_bucket : TokenBucket
  pub run_buckets : Table TokenBucket
  pub opened_at : ℕ
  pub is_active : Bool
  pub selected_version : Option String
  pub last_sequence : ℕ
  pub last_heartbeat_at : ℕ

abbrev first : List String → Option String
first [] = none
first (v ∷ vs) = some v

abbrev pub bucket : ℕ → ℕ → ℕ → TokenBucket
bucket rate burst now = record {
  rate_per_second = rate;
  burst = burst;
  tokens = burst;
  last_refill = now;
}

-- The constructor; `none` is a thrown RUNNER_PROTOCOL_STATE_LIMIT_INVALID.
unfoldable pub new : Bool → List String → ℕ → ℕ → ℕ → ℕ → Option Channel
new active versions fence replay runs now =
    if ltb replay 1 || ltb 65536 replay || ltb runs 1 || ltb 16384 runs
    then none
    else some record {
      supported_versions = versions;
      fence = fence;
      maximum_replay_entries = replay;
      maximum_run_buckets = runs;
      seen = [];
      runner_bucket = bucket 100 200 now;
      run_buckets = [];
      opened_at = now;
      is_active = active;
      selected_version = if active then first versions else none;
      last_sequence = 0;
      last_heartbeat_at = now;
    }

abbrev pub Answer : Type 0
Answer = Channel × ReceiveResult

abbrev welcome : Channel → ℕ → String → Option String → Answer
welcome c now id none = (c, rejected protocol_version_unsupported)
welcome c now id (some v) = (
  record c { is_active = true; selected_version = some v; last_heartbeat_at = now },
  welcomed record { selected_version = v; connection_id = id; fence = c.fence },
)

abbrev hello_ranges : Channel → ℕ → String → Option (List Range) → Answer
hello_ranges c now id none = (c, rejected client_hello_invalid)
hello_ranges c now id (some ranges) = welcome c now id (select_version c.supported_versions ranges)

unfoldable pub receive_hello : Channel → ℕ → String → Raw → Answer
receive_hello c now id plain = (c, rejected client_hello_required)
receive_hello c now id (object x) =
    if not x.is_hello then (c, rejected client_hello_required) else hello_ranges c now id x.hello

-- `#runScope`, as the key of the bucket.
abbrev pub run_scope : Body → Option String
run_scope (of_attempt id) = some ("ATTEMPT:" ++ id)
run_scope (of_gate id) = some ("GATE:" ++ id)
run_scope _ = none

-- The oldest entry leaves: a Map's first key.
unfoldable pub drop_first {ℓ} : {V : Type ℓ} → Table V → Table V
drop_first [] = []
drop_first ((k, v) ∷ m) = delete k m

-- A bucket that is new to a full map takes the place of the oldest; one that is there moves to the end.
unfoldable pub touch_bucket :
    ℕ → ℕ → String → Table TokenBucket → Option TokenBucket → Table TokenBucket × TokenBucket
touch_bucket maximum now scope m none =
    let b = bucket 50 100 now in
    (set scope b (if leb maximum (length m) then drop_first m else m), b)
touch_bucket maximum now scope m (some b) = (set scope b (delete scope m), b)

-- The bucket is an object of the map: its consumption changes the entry.
abbrev used : Channel → String → Table TokenBucket → TokenBucket × Bool → Channel × Bool
used c scope m (b, granted) = (record c { run_buckets = set scope b m }, granted)

abbrev consumed : Channel → ℕ → String → Table TokenBucket × TokenBucket → Channel × Bool
consumed c now scope (m, b) = used c scope m (consume b 1 now)

unfoldable pub limit_run : Channel → ℕ → Option String → Channel × Bool
limit_run c now none = (c, true)
limit_run c now (some scope) =
    consumed c now scope
      (touch_bucket c.maximum_run_buckets now scope c.run_buckets (get scope c.run_buckets))

unfoldable pub is_time_invalid : Envelope → ℕ → Bool
is_time_invalid e now =
    ltb (now + 30) e.issued_at
    || leb e.expires_at now
    || leb e.expires_at e.issued_at
    || ltb 300 (e.expires_at - e.issued_at)

abbrev is_heartbeat : Body → Bool
is_heartbeat heartbeat = true
is_heartbeat _ = false

unfoldable pub remember : ℕ → String → Seen → Table Seen → Table Seen
remember maximum id s m = let n = set id s m in if ltb maximum (length n) then drop_first n else n

unfoldable pub accept_envelope : Channel → ℕ → String → Envelope → Channel
accept_envelope c now digest e = record c {
  last_sequence = e.sequence;
  seen =
      remember c.maximum_replay_entries e.message_id
        (record { sequence = e.sequence; digest = digest }) c.seen;
  last_heartbeat_at = if is_heartbeat e.body then now else c.last_heartbeat_at;
}

abbrev limited : ℕ → String → Envelope → Channel × Bool → Answer
limited now digest e (c, granted) =
    if not granted
    then (c, rejected run_rate_limited)
    else if is_time_invalid e now
    then (c, rejected frame_time_invalid)
    else (accept_envelope c now digest e, accepted)

abbrev is_version : Option String → String → Bool
is_version none v = false
is_version (some s) v = same s v

abbrev enveloped : Channel → ℕ → String → Option Envelope → Answer
enveloped c now digest none = (c, rejected frame_invalid)
enveloped c now digest (some e) =
    if not (is_version c.selected_version e.protocol_version)
    then (c, rejected frame_invalid)
    else limited now digest e (limit_run c now (run_scope e.body))

abbrev pub prior_of : Channel → Option String → Option Seen
prior_of c none = none
prior_of c (some id) = get id c.seen

abbrev is_number : Option ℕ → ℕ → Bool
is_number none n = false
is_number (some m) n = n == m

abbrev regresses : Option ℕ → ℕ → Bool
regresses none last = false
regresses (some n) last = leb n last

abbrev unseen : Channel → ℕ → String → Object → Option Seen → Answer
unseen c now digest x (some p) =
    if same p.digest digest && is_number x.sequence p.sequence
    then (c, duplicate)
    else (c, rejected frame_id_conflict)
unseen c now digest x none =
    if regresses x.sequence c.last_sequence
    then (c, rejected frame_sequence_regression)
    else enveloped c now digest x.envelope

unfoldable pub receive_envelope : Channel → ℕ → String → Raw → Answer
receive_envelope c now digest plain = (c, rejected frame_invalid)
receive_envelope c now digest (object x) =
    if not x.has_known_kind
    then (c, rejected frame_kind_denied)
    else unseen c now digest x (prior_of c x.message_id)

abbrev pub is_hello_raw : Raw → Bool
is_hello_raw plain = false
is_hello_raw (object x) = x.is_hello

abbrev metered : ℕ → String → Raw → Channel → TokenBucket × Bool → Answer
metered now digest raw c (b, granted) =
    let d = record c { runner_bucket = b } in
    if not granted
    then (d, rejected runner_rate_limited)
    else if is_hello_raw raw
    then (d, rejected client_hello_duplicate)
    else receive_envelope d now digest raw

unfoldable pub check_timeout : Channel → ℕ → Option Code
check_timeout c now =
    if not c.is_active && leb 10 (now - c.opened_at)
    then some client_hello_timeout
    else if c.is_active && leb 30 (now - c.last_heartbeat_at)
    then some runner_heartbeat_timeout
    else none

module _ (d : Decoder) where
  open d use {Bytes, Text, byte_length, decode, encode, parse, digest}

  abbrev parsed : Channel → ℕ → String → Bytes → Option Raw → Answer
  parsed c now id bytes none = (c, rejected frame_json_invalid)
  parsed c now id bytes (some raw) =
      if not c.is_active
      then receive_hello c now id raw
      else metered now (digest bytes) raw c (consume c.runner_bucket 1 now)

  unfoldable pub receive_decoded : Channel → ℕ → String → Text → Bytes → Answer
  receive_decoded c now id text bytes = parsed c now id bytes (parse text)

  abbrev decoded : Channel → ℕ → String → Bytes → Option Text → Answer
  decoded c now id bytes none = (c, rejected frame_utf8_invalid)
  decoded c now id bytes (some text) = receive_decoded c now id text bytes

  unfoldable pub receive_bytes : Channel → ℕ → String → Bytes → Answer
  receive_bytes c now id bytes =
      if ltb 65536 (byte_length bytes)
      then (c, rejected frame_too_large)
      else decoded c now id bytes (decode bytes)

  unfoldable pub receive_text : Channel → ℕ → String → Text → Answer
  receive_text c now id text =
      if ltb 65536 (byte_length (encode text))
      then (c, rejected frame_too_large)
      else receive_decoded c now id text (encode text)
