-- ===== src/Runner/Outbox/Content.antt =====
-- runner/outbox.ts: which events may be stored. JSON values are a data type; the runner's message
-- schema, JSON text and SHA-256 are a parameter.
use Prim.Native.Char.{code}
use Prim.Native.String.{len, count}
use collab.Base.{
  ℕ, ◌+◌, Bool, true, false, ◌&&◌, ◌||◌, ◌≡◌, Option, some, List, [], ◌∷◌, String, leb, ◌==◌,
  if◌then◌else◌,
}
use collab.Base.Patterns.{is_upper, is_lower, is_digit}

mutual
  pub data Value : Type 0 where
    text : String → Value
    array : Items → Value
    object : Fields → Value
    -- A number, a Boolean or null.
    scalar : Value

  pub data Items : Type 0 where
    nil : Items
    cons : Value → Items → Items

  pub data Fields : Type 0 where
    end : Fields
    field : String → Value → Fields → Fields

-- key.replaceAll(/[^A-Za-z]/g, "").toLowerCase(), as the codes of its characters.
unfoldable pub normalize : String → List ℕ
normalize String.[] = []
normalize (String.◌∷◌ c s) =
    let rest = normalize s in
    if is_lower (code c)
    then code c ∷ rest
    else if is_upper (code c)
    then (code c + 32) ∷ rest
    else rest

abbrev equal : List ℕ → List ℕ → Bool
equal [] [] = true
equal (a ∷ xs) (b ∷ ys) = a == b && equal xs ys
equal _ _ = false

abbrev codes : String → List ℕ
codes String.[] = []
codes (String.◌∷◌ c s) = code c ∷ codes s

abbrev pub forbidden_keys : List String
forbidden_keys =
    "absolutepath" ∷ "attachment" ∷ "body" ∷ "content" ∷ "credential" ∷ "diff" ∷ "environment"
    ∷ "env" ∷ "path" ∷ "permit" ∷ "prompt" ∷ "rawoutput" ∷ "sourcebody" ∷ "transcript" ∷ []

abbrev is_in : List String → List ℕ → Bool
is_in [] k = false
is_in (x ∷ xs) k = equal (codes x) k || is_in xs k

unfoldable pub is_forbidden : String → Bool
unfolding normalize
is_forbidden key = is_in forbidden_keys (normalize key)

-- /^[A-Za-z]:[\\/]/
abbrev is_drive_path : String → Bool
is_drive_path (String.◌∷◌ c (String.◌∷◌ d (String.◌∷◌ e s))) =
    (is_upper (code c) || is_lower (code c)) && code d == b':' && (code e == 92 || code e == b'/')
is_drive_path _ = false

abbrev is_rooted : String → Bool
is_rooted (String.◌∷◌ c s) = code c == b'/'
is_rooted String.[] = false

unfoldable pub is_path : String → Bool
is_path s = is_rooted s || is_drive_path s

-- `containsProhibited`; the key of a field is tested before its value.
unfoldable mutual
  pub contains_prohibited : Value → Bool
  contains_prohibited (text s) = is_path s
  contains_prohibited (array xs) = some_prohibited xs
  contains_prohibited (object fs) = some_field_prohibited fs
  contains_prohibited scalar = false

  pub some_prohibited : Items → Bool
  some_prohibited nil = false
  some_prohibited (cons x xs) = contains_prohibited x || some_prohibited xs

  pub some_field_prohibited : Fields → Bool
  some_field_prohibited end = false
  some_field_prohibited (field k v fs) =
      is_forbidden k || contains_prohibited v || some_field_prohibited fs

-- The kinds of message, and for "ATTEMPT_EVENT" the kind of event.
pub data AttemptKind : Type 0 where
  acknowledged process_started process_exited failed_to_start : AttemptKind
  termination_requested cancelled timed_out lost : AttemptKind

pub data Kind : Type 0 where
  heartbeat headless_output_chunk operation_acknowledgement checkpoint evidence : Kind
  run_result gate_event other : Kind
  attempt_event : AttemptKind → Kind

-- The messages have one kind; the kind of an attempt's event is not part of it.
abbrev pub same_kind : Kind → Kind → Bool
same_kind heartbeat heartbeat = true
same_kind headless_output_chunk headless_output_chunk = true
same_kind operation_acknowledgement operation_acknowledgement = true
same_kind checkpoint checkpoint = true
same_kind evidence evidence = true
same_kind run_result run_result = true
same_kind gate_event gate_event = true
same_kind other other = true
same_kind (attempt_event a) (attempt_event b) = true
same_kind _ _ = false

pub data Priority : Type 0 where
  normal critical : Priority

unfoldable pub priority : Kind → Priority
priority checkpoint = critical
priority run_result = critical
priority (attempt_event process_exited) = critical
priority (attempt_event failed_to_start) = critical
priority (attempt_event cancelled) = critical
priority (attempt_event timed_out) = critical
priority (attempt_event lost) = critical
priority _ = normal

-- durableEventKinds.has(kind)
abbrev pub is_durable : Kind → Bool
is_durable heartbeat = false
is_durable headless_output_chunk = false
is_durable other = false
is_durable _ = true

-- Messages that pass RunnerMessageBodySchema, and what the code uses of zod, JSON and SHA-256.
pub record Codec : Type 1 where
  pub Body : Type 0
  pub kind : Body → Kind
  pub event_id : Body → String
  pub value : Body → Value
  pub stringify : Body → String
  pub parse : String → Option Body
  pub digest : String → String
  -- A message that is printed and read again is the same message.
  pub parse-stringify : (b : Body) → parse (stringify b) ≡ some b

-- Buffer.byteLength(text, "utf8")
abbrev pub byte_length : String → ℕ
byte_length = len

all_upper : String → Bool
all_upper String.[] = true
all_upper (String.◌∷◌ c s) =
    (is_upper (code c) || is_digit (code c) || code c == b'_') && all_upper s

-- /^[A-Z][A-Z0-9_]{0,63}$/
unfoldable pub is_code : String → Bool
unfolding all_upper
is_code String.[] = false
is_code (String.◌∷◌ c s) = is_upper (code c) && all_upper s && leb (count s) 63
