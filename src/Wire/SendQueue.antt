-- ===== src/Wire/SendQueue.antt =====
-- server/adapters/wss/rate-limits.ts, `BoundedSendQueue`. Sizes are whole numbers (the code refuses
-- any other); the first entry of the list is the front of the queue.
pub mod Eviction
pub mod Invariant
pub mod Admission
mod Scenarios
use collab.Base.{
  ℕ, suc, zero, ◌+◌, ◌-◌, Bool, true, false, ◌&&◌, ◌||◌, Option, none, some, List, [], ◌∷◌, ◌++◌,
  length, leb, ltb, if◌then◌else◌,
}
use collab.Base.Lists

pub data Priority : Type 0 where
  normal critical : Priority

abbrev pub is_normal : Priority → Bool
is_normal normal = true
is_normal critical = false

module _ {ℓ} (T : Type ℓ) where
  pub record Entry : Type ℓ where
    pub value : T
    pub bytes : ℕ
    pub priority : Priority

module _ {ℓ} (T : Type ℓ) where
  pub record Queue : Type ℓ where
    pub maximum_items : ℕ
    pub maximum_bytes : ℕ
    pub entries : List (Entry T)
    pub bytes : ℕ

module _ {ℓ} {T : Type ℓ} where
  -- The constructor; `none` is a thrown SEND_QUEUE_LIMIT_INVALID.
  unfoldable pub new : ℕ → ℕ → Option (Queue T)
  new maximum_items maximum_bytes =
      if ltb maximum_items 1 || ltb maximum_bytes 1
      then none
      else some (record {
        maximum_items = maximum_items;
        maximum_bytes = maximum_bytes;
        entries = [];
        bytes = 0;
      })

  abbrev pub has_normal : List (Entry T) → Bool
  has_normal = Lists.any (λ e. is_normal e.priority)

  -- The loop's test, without its second half.
  abbrev pub crowded : Queue T → ℕ → Bool
  crowded q bytes = leb q.maximum_items (length q.entries) || ltb q.maximum_bytes (q.bytes + bytes)

  -- The first NORMAL entry, by findIndex and splice: its size, and the entries without it.
  unfoldable pub splice_normal : List (Entry T) → ℕ × List (Entry T)
  splice_normal [] = (0, [])
  splice_normal (e ∷ es) =
      let (size, rest) = splice_normal es in
      if is_normal e.priority then (e.bytes, es) else (size, e ∷ rest)

  unfoldable pub evict_one : Queue T → Queue T
  evict_one q =
      let (size, rest) = splice_normal q.entries in
      record q { entries = rest; bytes = q.bytes - size }

  -- The `while` loop; each round removes an entry, so one round for each entry is enough.
  unfoldable pub evict : ℕ → Queue T → ℕ → Queue T
  evict zero q bytes = q
  evict (suc rounds) q bytes =
      let rest = evict rounds (evict_one q) bytes in
      if crowded q bytes && has_normal q.entries then rest else q

  unfoldable pub place : Queue T → Entry T → Queue T
  place q e = elim e.priority [
    | critical ↦ record q { entries = e ∷ q.entries; bytes = q.bytes + e.bytes }
    | normal ↦ record q { entries = q.entries ++ e ∷ []; bytes = q.bytes + e.bytes }
  ]

  -- The end of `enqueue`: the second test, and the insertion.
  unfoldable pub admit : Queue T → Entry T → Queue T × Bool
  admit q e = if crowded q e.bytes then (q, false) else (place q e, true)

  unfoldable pub make_room : Queue T → Entry T → Queue T
  make_room q e = elim e.priority [ critical ↦ evict (length q.entries) q e.bytes | normal ↦ q ]

  unfoldable pub enqueue : Queue T → Entry T → Queue T × Bool
  enqueue q e = if ltb q.maximum_bytes e.bytes then (q, false) else admit (make_room q e) e

  unfoldable pub dequeue : Queue T → Queue T × Option T
  dequeue q = elim q.entries [
    | [] ↦ (q, none)
    | e ∷ rest ↦ (record q { entries = rest; bytes = q.bytes - e.bytes }, some e.value)
  ]

  unfoldable pub peek : Queue T → Option T
  peek q = elim q.entries [ [] ↦ none | e ∷ rest ↦ some e.value ]

  unfoldable pub clear : Queue T → Queue T
  clear q = record q { entries = []; bytes = 0 }
