-- ===== src/Wire/LiveOutput.antt =====
-- server/adapters/wss/live-output.ts: the output of running processes that the server keeps for a while.
-- SHA-256 of a chunk's JSON text is an argument.
pub mod Redaction
pub mod Eviction
pub mod Account
pub mod Limits
mod Scenarios
use Prim.Native.String.{◌++◌, len}
use collab.Base.{
  ℕ, ◌+◌, ◌-◌, ◌*◌, Bool, true, false, not, ◌&&◌, ◌||◌, Option, none, some, List, [], ◌∷◌,
  ◌++◌ as append, String, leb, ltb, ◌==◌, same, if◌then◌else◌,
}
use collab.Base.Table.{get, set, delete}
use collab.Wire.LiveOutput.Redaction.{redact}
use collab.Wire.LiveOutput.Eviction.{
  Stream, stdout, stderr, Interaction, headless, interactive, StoredChunk, SeenChunk, Target, Hub,
  same_stream, forget, evict,
}

pub data TargetKind : Type 0 where
  attempt gate : TargetKind

-- The constructor; `none` is a thrown OUTPUT_LIMIT_INVALID.
unfoldable pub new : ℕ → ℕ → Option Hub
new process target =
    if ltb process 1 || ltb target 1
    then none
    else some record {
      maximum_process_bytes = process;
      maximum_target_bytes = target;
      targets = [];
      bytes = 0;
      ordinal = 0;
    }

unfoldable pub target_key : TargetKind → String → String
target_key attempt id = "ATTEMPT:" ++ id
target_key gate id = "GATE:" ++ id

unfoldable pub activate : Hub → TargetKind → String → Interaction → Hub
activate h kind id i =
    let empty : Target = record {
      interaction = i;
      chunks = [];
      seen = [];
      last_stdout = none;
      last_stderr = none;
      bytes = 0;
    } in
    record h { targets = set (target_key kind id) empty h.targets }

unfoldable pub seen_digest : Stream → ℕ → List SeenChunk → Option String
seen_digest s n [] = none
seen_digest s n (x ∷ xs) =
    if same_stream x.stream s && x.sequence == n then some x.digest else seen_digest s n xs

abbrev last_of : Stream → Target → Option ℕ
last_of stdout t = t.last_stdout
last_of stderr t = t.last_stderr

abbrev pub with_last : Stream → ℕ → Target → Target
with_last stdout n t = record t { last_stdout = some n }
with_last stderr n t = record t { last_stderr = some n }

pub data Code : Type 0 where
  target_inactive interactive_denied input_invalid : Code
  chunk_too_large sequence_conflict sequence_regression : Code

pub data Accepted : Type 0 where
  -- Whether there is a gap before the chunk, and whether it was truncated.
  taken : Bool → Bool → Accepted
  duplicate : Bool → Accepted
  refused : Code → Accepted

pub record Chunk : Type 0 where
  pub stream : Stream
  pub sequence : ℕ
  pub source_text : String
  pub redaction_version : ℕ
  pub truncated : Bool

-- Number.MAX_SAFE_INTEGER
abbrev maximum_safe : ℕ
maximum_safe = 9007199254740991

unfoldable pub is_input_invalid : Chunk → Bool
is_input_invalid c =
    ltb maximum_safe c.sequence || ltb maximum_safe c.redaction_version || ltb c.redaction_version 1

abbrev regresses : ℕ → Option ℕ → Bool
regresses n none = false
regresses n (some last) = leb n last

abbrev leaves_gap : ℕ → Option ℕ → Bool
leaves_gap n none = false
leaves_gap n (some last) = ltb (last + 1) n

-- The chunk as it is stored, with 160 and 96 bytes for its data.
unfoldable pub stored : (Chunk → String → String) → Chunk → Target → ℕ → StoredChunk
stored digest c t ordinal =
    let text = redact c.source_text in
    record {
      stream = c.stream;
      sequence = c.sequence;
      text = text;
      redaction_version = c.redaction_version;
      truncated = c.truncated;
      gap = leaves_gap c.sequence (last_of c.stream t);
      evicted_before = false;
      bytes = len text;
      retained_bytes = len text + 160 + 96;
      digest = digest c text;
      ordinal = ordinal;
    }

unfoldable pub push : StoredChunk → Target → Target
push s t = with_last s.stream s.sequence record t {
  chunks = append t.chunks (s ∷ []);
  seen =
      record { stream = s.stream; sequence = s.sequence; digest = s.digest }
      ∷ forget s.stream s.sequence t.seen;
  bytes = t.bytes + s.retained_bytes;
}

unfoldable pub add : Hub → String → StoredChunk → Target → Hub
add h key s t = evict record h {
  targets = set key (push s t) h.targets;
  bytes = h.bytes + s.retained_bytes;
  ordinal = h.ordinal + 1;
}

abbrev pub Answer : Type 0
Answer = Hub × Accepted

abbrev fresh : (Chunk → String → String) → Hub → String → Chunk → Target → Option String → Answer
fresh digest h key c t (some prior) =
    if same prior (digest c (redact c.source_text))
    then (h, duplicate c.truncated)
    else (h, refused sequence_conflict)
fresh digest h key c t none =
    if regresses c.sequence (last_of c.stream t) then (h, refused sequence_regression) else (
      add h key (stored digest c t (h.ordinal + 1)) t,
      taken (leaves_gap c.sequence (last_of c.stream t)) c.truncated,
    )

abbrev is_headless : Interaction → Bool
is_headless headless = true
is_headless interactive = false

abbrev targeted : (Chunk → String → String) → Hub → String → Chunk → Option Target → Answer
targeted digest h key c none = (h, refused target_inactive)
targeted digest h key c (some t) =
    if not (is_headless t.interaction)
    then (h, refused interactive_denied)
    else if is_input_invalid c
    then (h, refused input_invalid)
    else if ltb (16 * 1024) (len c.source_text)
    then (h, refused chunk_too_large)
    else fresh digest h key c t (seen_digest c.stream c.sequence t.seen)

unfoldable pub accept : (Chunk → String → String) → Hub → TargetKind → String → Chunk → Answer
accept digest h kind id c =
    targeted digest h (target_key kind id) c (get (target_key kind id) h.targets)

abbrev chunks_of : Option Target → List StoredChunk
chunks_of none = []
chunks_of (some t) = t.chunks

unfoldable pub inspect : Hub → TargetKind → String → List StoredChunk
inspect h kind id = chunks_of (get (target_key kind id) h.targets)

abbrev cleared : Hub → String → Option Target → Hub
cleared h key none = h
cleared h key (some t) = record h { bytes = h.bytes - t.bytes; targets = delete key h.targets }

unfoldable pub clear : Hub → TargetKind → String → Hub
clear h kind id = cleared h (target_key kind id) (get (target_key kind id) h.targets)

unfoldable pub clear_all : Hub → Hub
clear_all h = record h { targets = []; bytes = 0 }
