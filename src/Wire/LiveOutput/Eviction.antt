-- ===== src/Wire/LiveOutput/Eviction.antt =====
-- live-output.ts: what is retained, and which chunks leave when it is too much.
use collab.Base.{
  ℕ, zero, suc, ◌+◌, ◌-◌, Bool, true, false, ◌&&◌, Option, none, some, List, [], ◌∷◌, String, leb,
  ltb, ◌==◌, length, total, if◌then◌else◌,
}
use collab.Base.Table.{Table}

pub data Stream : Type 0 where
  stdout stderr : Stream

pub data Interaction : Type 0 where
  headless interactive : Interaction

-- `LiveOutputChunk` and what is stored with it.
pub record StoredChunk : Type 0 where
  pub stream : Stream
  pub sequence : ℕ
  pub text : String
  pub redaction_version : ℕ
  pub truncated : Bool
  pub gap : Bool
  pub evicted_before : Bool
  pub bytes : ℕ
  pub retained_bytes : ℕ
  pub digest : String
  pub ordinal : ℕ

-- The digest under the key `${stream}:${sequence}`.
pub record SeenChunk : Type 0 where
  pub stream : Stream
  pub sequence : ℕ
  pub digest : String

pub record Target : Type 0 where
  pub interaction : Interaction
  pub chunks : List StoredChunk
  pub seen : List SeenChunk
  pub last_stdout : Option ℕ
  pub last_stderr : Option ℕ
  pub bytes : ℕ

pub record Hub : Type 0 where
  pub maximum_process_bytes : ℕ
  pub maximum_target_bytes : ℕ
  pub targets : Table Target
  pub bytes : ℕ
  pub ordinal : ℕ

abbrev pub same_stream : Stream → Stream → Bool
same_stream stdout stdout = true
same_stream stderr stderr = true
same_stream _ _ = false

unfoldable pub forget : Stream → ℕ → List SeenChunk → List SeenChunk
forget s n [] = []
forget s n (x ∷ xs) =
    let rest = forget s n xs in if same_stream x.stream s && x.sequence == n then rest else x ∷ rest

abbrev pub weight : List StoredChunk → ℕ
weight = total (λ c. c.retained_bytes)

abbrev pub mark_first : List StoredChunk → List StoredChunk
mark_first [] = []
mark_first (c ∷ cs) = record c { evicted_before = true } ∷ cs

-- `#evictChunk(target, 0)`, with the bytes that it takes from the account.
unfoldable pub evict_chunk : Target → Target × ℕ
evict_chunk t = elim t.chunks [
  | [] ↦ (t, 0)
  | c ∷ cs ↦ (
    record t {
      chunks = mark_first cs;
      seen = forget c.stream c.sequence t.seen;
      bytes = t.bytes - c.retained_bytes;
    },
    c.retained_bytes,
  )
]

-- The loop over one target; each round takes a chunk, so as many rounds as chunks are enough.
unfoldable pub evict_target : ℕ → ℕ → Target → Target × ℕ
evict_target zero maximum t = (t, 0)
evict_target (suc rounds) maximum t =
    let (u, taken) = evict_chunk t in
    let (v, more) = evict_target rounds maximum u in
    if ltb maximum t.bytes && leb 1 (length t.chunks) then (v, taken + more) else (t, 0)

unfoldable pub evict_targets : ℕ → Table Target → Table Target × ℕ
evict_targets maximum [] = ([], 0)
evict_targets maximum ((k, t) ∷ ts) =
    let (u, taken) = evict_target (length t.chunks) maximum t in
    let (us, more) = evict_targets maximum ts in ((k, u) ∷ us, taken + more)

-- The target whose first chunk has the lowest ordinal, the first of those that are equal, loses it.
abbrev pub first_ordinal : List StoredChunk → Option ℕ
first_ordinal [] = none
first_ordinal (c ∷ cs) = some c.ordinal

abbrev pub earlier : Option ℕ → Option ℕ → Bool
earlier (some a) (some b) = leb a b
earlier (some a) none = true
earlier none b = false

unfoldable pub oldest_ordinal : Table Target → Option ℕ
oldest_ordinal [] = none
oldest_ordinal ((k, t) ∷ ts) =
    let rest = oldest_ordinal ts in
    if earlier (first_ordinal t.chunks) rest then first_ordinal t.chunks else rest

unfoldable pub evict_oldest : Table Target → Table Target × ℕ
evict_oldest [] = ([], 0)
evict_oldest ((k, t) ∷ ts) =
    let (u, taken) = evict_chunk t in
    let (us, more) = evict_oldest ts in
    if earlier (first_ordinal t.chunks) (oldest_ordinal ts)
    then ((k, u) ∷ ts, taken)
    else ((k, t) ∷ us, more)

abbrev pub is_some : Option ℕ → Bool
is_some none = false
is_some (some n) = true

unfoldable pub evict_process : ℕ → ℕ → Table Target → ℕ → Table Target × ℕ
evict_process zero maximum ts bytes = (ts, bytes)
evict_process (suc rounds) maximum ts bytes =
    let (us, taken) = evict_oldest ts in
    let rest = evict_process rounds maximum us (bytes - taken) in
    if ltb maximum bytes && is_some (oldest_ordinal ts) then rest else (ts, bytes)

abbrev pub count_chunks : Table Target → ℕ
count_chunks = total (λ (e : String × Target). length e.1.chunks)

unfoldable pub evict : Hub → Hub
evict h =
    let (ts, taken) = evict_targets h.maximum_target_bytes h.targets in
    let (us, bytes) =
      evict_process (count_chunks ts) h.maximum_process_bytes ts (h.bytes - taken) in
    record h { targets = us; bytes = bytes }
