-- ===== src/Wire/LiveOutput/Account.antt =====
-- live-output.ts: the account of the retained bytes and its limits.
use collab.Base.{
  ℕ, zero, suc, ◌+◌, ◌-◌, ◌≤◌, true, false, ◌≡◌, refl, Option, List, [], ◌∷◌, String, ltb, length,
  total, All, if◌then◌else◌, arith, Bool-cases, Option-cases, inl, inr,
}
use collab.Base.Table.{Table}
use collab.Wire.LiveOutput.Eviction.{
  Hub, Target, StoredChunk, weight, evict_chunk, evict_target, evict_targets, oldest_ordinal,
  first_ordinal, earlier, evict_oldest, evict_process, count_chunks, evict, is_some,
}

abbrev pub held : Table Target → ℕ
held = total (λ (e : String × Target). e.1.bytes)

-- Each target's bytes are those of its chunks, within a limit.
abbrev pub Sound : ℕ → String × Target → Type 0
Sound maximum (k, t) = (t.bytes ≡ weight t.chunks) × (t.bytes ≤ maximum)

evict_chunk_lem :
    (t : Target)
    → t.bytes ≡ weight t.chunks
    → ((evict_chunk t).0.bytes ≡ weight (evict_chunk t).0.chunks)
      × ((evict_chunk t).0.bytes + (evict_chunk t).1 ≡ t.bytes)
      × (length (evict_chunk t).0.chunks ≡ length t.chunks - 1)
unfolding evict_chunk
evict_chunk_lem t h = go t.chunks refl
  where
    go :
        (cs : List StoredChunk)
        → t.chunks ≡ cs
        → ((evict_chunk t).0.bytes ≡ weight (evict_chunk t).0.chunks)
          × ((evict_chunk t).0.bytes + (evict_chunk t).1 ≡ t.bytes)
          × (length (evict_chunk t).0.chunks ≡ length t.chunks - 1)
    go [] e = (ground arith, ground arith, ground arith)
    go (c ∷ []) e = (ground arith, ground arith, ground arith)
    go (c ∷ d ∷ cs) e = (ground arith, ground arith, ground arith)

no_chunks : (cs : List StoredChunk) → length cs ≡ 0 → weight cs ≡ 0
no_chunks [] h = refl
no_chunks (c ∷ cs) h = omega (arith, h)

evict_target_lem :
    (rounds maximum : ℕ) (t : Target)
    → t.bytes ≡ weight t.chunks
    → length t.chunks ≤ rounds
    → let r = evict_target rounds maximum t in
      (r.0.bytes ≡ weight r.0.chunks) × (r.0.bytes + r.1 ≡ t.bytes) × (r.0.bytes ≤ maximum)
unfolding evict_target
evict_target_lem zero maximum t h n =
    (h, omega arith, omega (arith, h, no_chunks t.chunks (omega (arith, n))))
evict_target_lem (suc rounds) maximum t h n =
    let c = evict_chunk_lem t h in
    let ih = evict_target_lem rounds maximum (evict_chunk t).0 c.0 (omega (arith, c.2, n)) in
    let none_left = no_chunks t.chunks in
    (ground (arith, ih, c), ground (arith, ih, c), ground (arith, ih, c, none_left))

-- Sound without a limit.
abbrev pub Weighed : String × Target → Type 0
Weighed (k, t) = t.bytes ≡ weight t.chunks

evict_targets_lem :
    (maximum : ℕ) (ts : Table Target)
    → All Weighed ts
    → All (Sound maximum) (evict_targets maximum ts).0
      × (held (evict_targets maximum ts).0 + (evict_targets maximum ts).1 ≡ held ts)
unfolding evict_targets
evict_targets_lem maximum [] a = (tt, refl)
evict_targets_lem maximum ((k, t) ∷ ts) (h, a) =
    let one = evict_target_lem (length t.chunks) maximum t h (omega arith) in
    let (rest, sum) = evict_targets_lem maximum ts a in
    (((one.0, one.2), rest), omega (arith, one.1, sum))

evict_chunk-Sound :
    (maximum : ℕ) (k : String) (t : Target)
    → Sound maximum (k, t)
    → Sound maximum (k, (evict_chunk t).0)
evict_chunk-Sound maximum k t (h, m) = let c = evict_chunk_lem t h in (c.0, omega (arith, c.1, m))

earlier_some :
    (cs : List StoredChunk) (o : Option ℕ) → earlier (first_ordinal cs) o ≡ true → 1 ≤ length cs
earlier_some [] o h = cc
earlier_some (c ∷ cs) o h = omega arith

evict_oldest_lem :
    (maximum : ℕ) (ts : Table Target)
    → All (Sound maximum) ts
    → is_some (oldest_ordinal ts) ≡ true
    → All (Sound maximum) (evict_oldest ts).0
      × (held (evict_oldest ts).0 + (evict_oldest ts).1 ≡ held ts)
      × (count_chunks (evict_oldest ts).0 + 1 ≡ count_chunks ts)
unfolding evict_oldest oldest_ordinal
evict_oldest_lem maximum [] a h = cc
evict_oldest_lem maximum ((k, t) ∷ ts) (s, a) h =
    let c = evict_chunk_lem t s.0 in
    elim (Bool-cases (earlier (first_ordinal t.chunks) (oldest_ordinal ts))) [
      | inl e ↦ rw e (
        (evict_chunk-Sound maximum k t s, a),
        omega (arith, c.1),
        omega (arith, c.2, earlier_some t.chunks (oldest_ordinal ts) e),
      )
      | inr e ↦
          let (b, sum, n) = evict_oldest_lem maximum ts a (ground arith) in
          rw e ((s, b), omega (arith, sum), omega (arith, n))
    ]

no_ordinal :
    (maximum : ℕ) (ts : Table Target)
    → All (Sound maximum) ts
    → is_some (oldest_ordinal ts) ≡ false
    → held ts ≡ 0
unfolding oldest_ordinal
no_ordinal maximum [] a h = refl
no_ordinal maximum ((k, t) ∷ ts) (s, a) h =
    let empty : length t.chunks ≡ 0 = go t.chunks (ground arith) in
    let rest = no_ordinal maximum ts a (ground arith) in
    omega (arith, s.0, no_chunks t.chunks empty, rest)
  where
    go :
        (cs : List StoredChunk)
        → is_some (
            if earlier (first_ordinal cs) (oldest_ordinal ts)
            then first_ordinal cs
            else oldest_ordinal ts)
          ≡ false
        → length cs ≡ 0
    go [] e = refl
    go (c ∷ cs) e = elim (Option-cases (oldest_ordinal ts)) [
      | inl n ↦ ground arith
      | inr (o, n) ↦ ground arith
    ]

count_zero :
    (maximum : ℕ) (ts : Table Target) → All (Sound maximum) ts → count_chunks ts ≡ 0 → held ts ≡ 0
count_zero maximum [] a n = refl
count_zero maximum ((k, t) ∷ ts) (s, a) n =
    omega (
      arith,
      s.0,
      no_chunks t.chunks (omega (arith, n)),
      count_zero maximum ts a (omega (arith, n)),
    )

-- The account is that of the targets, and within the limit of the process.
abbrev pub Accounted : ℕ → ℕ → Table Target × ℕ → Type 0
Accounted process maximum (ts, bytes) =
    All (Sound maximum) ts × (bytes ≡ held ts) × (bytes ≤ process)

evict_process_lem :
    (rounds process maximum : ℕ) (ts : Table Target) (bytes : ℕ)
    → All (Sound maximum) ts
    → bytes ≡ held ts
    → count_chunks ts ≤ rounds
    → Accounted process maximum (evict_process rounds process ts bytes)
unfolding evict_process
evict_process_lem zero process maximum ts bytes a e n =
    (a, e, omega (arith, e, count_zero maximum ts a (omega (arith, n))))
evict_process_lem (suc rounds) process maximum ts bytes a e n =
    elim (Bool-cases (is_some (oldest_ordinal ts))) [
      | inr o ↦ elim (Bool-cases (ltb process bytes)) [
        | inr l ↦ rw (o, l) (a, e, ground arith)
        | inl l ↦ rw (o, l) (a, e, omega (arith, e, no_ordinal maximum ts a o))
      ]
      | inl o ↦ elim (Bool-cases (ltb process bytes)) [
        | inr l ↦ rw (o, l) (a, e, ground arith)
        | inl l ↦
            let (b, sum, c) = evict_oldest_lem maximum ts a o in
            rw (o, l)
              (evict_process_lem rounds process maximum (evict_oldest ts).0
                (bytes - (evict_oldest ts).1) b (omega (arith, e, sum)) (omega (arith, c, n)))
      ]
    ]

pub record Inv (h : Hub) : Type 0 where
  pub targets : All (Sound h.maximum_target_bytes) h.targets
  pub account : h.bytes ≡ held h.targets
  pub limit : h.bytes ≤ h.maximum_process_bytes

pub evict-Inv : (h : Hub) → All Weighed h.targets → h.bytes ≡ held h.targets → Inv (evict h)
unfolding evict
evict-Inv h a e =
    let (b, sum) = evict_targets_lem h.maximum_target_bytes h.targets a in
    let ts = (evict_targets h.maximum_target_bytes h.targets).0 in
    let taken = (evict_targets h.maximum_target_bytes h.targets).1 in
    let p =
      evict_process_lem (count_chunks ts) h.maximum_process_bytes h.maximum_target_bytes ts
        (h.bytes - taken) b (omega (arith, e, sum)) (omega arith) in
    record { targets = p.0; account = p.1; limit = p.2 }
