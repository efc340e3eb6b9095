-- ===== src/Wire/SendQueue/Eviction.antt =====
-- rate-limits.ts: the loop that removes NORMAL entries.
use collab.Base.{
  ℕ, suc, zero, ◌+◌, ◌≤◌, ◌≡◌, refl, ◌∙◌, ap, true, false, not, ◌&&◌, List, [], ◌∷◌, length, total,
  keep, arith, Bool-cases, inl, inr,
}
use collab.Wire.SendQueue.{
  Queue, Entry, is_normal, has_normal, crowded, splice_normal, evict_one, evict,
}

module _ {ℓ} {T : Type ℓ} where
  abbrev pub criticals : List (Entry T) → List (Entry T)
  criticals = keep (λ e. not (is_normal e.priority))

  abbrev pub normals : List (Entry T) → List (Entry T)
  normals = keep (λ e. is_normal e.priority)

  abbrev pub weight : List (Entry T) → ℕ
  weight = total (λ e. e.bytes)

  splice_normal_lem :
      (es : List (Entry T))
      → has_normal es ≡ true
      → let (size, rest) = splice_normal es in
        (weight es ≡ size + weight rest)
        × (length es ≡ suc (length rest))
        × (criticals rest ≡ criticals es)
  unfolding splice_normal
  splice_normal_lem [] h = cc
  splice_normal_lem (e ∷ es) h = elim (Bool-cases (is_normal e.priority)) [
    | inl n ↦ ground (arith)
    | inr c ↦ ground (arith, splice_normal_lem es)
  ]

  -- What the loop keeps: the limits, the account of sizes and the CRITICAL entries.
  pub record Evicted (q r : Queue T) : Type ℓ where
    pub items : r.maximum_items ≡ q.maximum_items
    pub limit : r.maximum_bytes ≡ q.maximum_bytes
    pub account : r.bytes ≡ weight r.entries
    pub kept : criticals r.entries ≡ criticals q.entries
    pub shorter : length r.entries ≤ length q.entries
    pub lighter : r.bytes ≤ q.bytes

  evict_one-Evicted :
      (q : Queue T)
      → q.bytes ≡ weight q.entries
      → has_normal q.entries ≡ true
      → Evicted q (evict_one q)
  unfolding evict_one
  evict_one-Evicted q a h =
      let s = splice_normal_lem q.entries h in
      record {
        items = refl;
        limit = refl;
        account = omega (arith, s.0);
        kept = s.2;
        shorter = omega (arith, s.1);
        lighter = omega arith;
      }

  pub Evicted-trans : (p q r : Queue T) → Evicted p q → Evicted q r → Evicted p r
  Evicted-trans p q r a b = record {
    items = b.items ∙ a.items;
    limit = b.limit ∙ a.limit;
    account = b.account;
    kept = b.kept ∙ a.kept;
    shorter = omega (arith, a.shorter, b.shorter);
    lighter = omega (arith, a.lighter, b.lighter);
  }

  pub Evicted-refl : (q : Queue T) → q.bytes ≡ weight q.entries → Evicted q q
  Evicted-refl q a = record {
    items = refl;
    limit = refl;
    account = a;
    kept = refl;
    shorter = omega arith;
    lighter = omega arith;
  }

  pub evict-Evicted :
      (n : ℕ) (q : Queue T) (bytes : ℕ) → q.bytes ≡ weight q.entries → Evicted q (evict n q bytes)
  unfolding evict
  evict-Evicted zero q bytes a = Evicted-refl q a
  evict-Evicted (suc n) q bytes a = elim (Bool-cases (crowded q bytes && has_normal q.entries)) [
    | inl go ↦
        let one = evict_one-Evicted q a (ground arith) in
        rw go
          (Evicted-trans q (evict_one q) _ one (evict-Evicted n (evict_one q) bytes one.account))
    | inr stop ↦ rw stop (Evicted-refl q a)
  ]

  evict_one-length :
      (q : Queue T)
      → has_normal q.entries ≡ true
      → length q.entries ≡ suc (length (evict_one q).entries)
  unfolding evict_one
  evict_one-length q h = (splice_normal_lem q.entries h).1

  -- One round for each entry is enough: the loop ends by its own test.
  pub evict-ends :
      (n : ℕ) (q : Queue T) (bytes : ℕ)
      → length q.entries ≤ n
      → (crowded (evict n q bytes) bytes && has_normal (evict n q bytes).entries) ≡ false
  unfolding evict
  evict-ends zero q bytes h = stopped q.entries refl
    where
      stopped :
          (es : List (Entry T)) → q.entries ≡ es → (crowded q bytes && has_normal q.entries) ≡ false
      stopped [] e = rw e (ground arith)
      stopped (x ∷ xs) e = absurd (omega (arith, ap length e))
  evict-ends (suc n) q bytes h = elim (Bool-cases (crowded q bytes && has_normal q.entries)) [
    | inl go ↦
        rw go (evict-ends n (evict_one q) bytes (omega (arith, evict_one-length q (ground arith))))
    | inr stop ↦ rw stop stop
  ]
