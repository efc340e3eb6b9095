-- ===== src/Wire/SendQueue/Invariant.antt =====
-- rate-limits.ts: what holds of a send queue between two calls.
use collab.Base.{
  ℕ, ◌≤◌, ◌≡◌, [], ◌∷◌, length, length-append, total-append, ltb, arith, Bool-cases, inl, inr, some,
}
use collab.Wire.SendQueue.{
  Queue, Entry, Priority, normal, critical, evict, place, admit, make_room, enqueue, dequeue, clear,
  new,
}
use collab.Wire.SendQueue.Eviction.{weight, Evicted, Evicted-refl, evict-Evicted}

module _ {ℓ} {T : Type ℓ} where
  pub record Inv (q : Queue T) : Type 0 where
    pub account : q.bytes ≡ weight q.entries
    pub items : length q.entries ≤ q.maximum_items
    pub size : q.bytes ≤ q.maximum_bytes

  pub new-Inv : (items bytes : ℕ) {q : Queue T} → new items bytes ≡ some q → Inv q
  unfolding new
  new-Inv items bytes h = ground arith

  pub make_room-Evicted :
      (q : Queue T) (e : Entry T) → q.bytes ≡ weight q.entries → Evicted q (make_room q e)
  unfolding make_room
  make_room-Evicted q e a = by_priority e.priority
    where
      by_priority :
          (p : Priority)
          → Evicted q (elim p [ critical ↦ evict (length q.entries) q e.bytes | normal ↦ q ])
      by_priority critical = evict-Evicted (length q.entries) q e.bytes a
      by_priority normal = Evicted-refl q a

  admit-Inv : (q : Queue T) (e : Entry T) → Inv q → Inv (admit q e).0
  unfolding admit place
  admit-Inv q e v =
      ground
        (arith, length-append q.entries (e ∷ []), total-append (λ x. x.bytes) q.entries (e ∷ []))

  -- Every call to `enqueue` keeps the account of bytes exact and both limits respected, whether it
  -- accepts the entry or not.
  pub enqueue-Inv : (q : Queue T) (e : Entry T) → Inv q → Inv (enqueue q e).0
  unfolding enqueue
  enqueue-Inv q e v = elim (Bool-cases (ltb q.maximum_bytes e.bytes)) [
    | inl big ↦ rw big v
    | inr fits ↦
        let m = make_room-Evicted q e v.account in
        rw fits (
          admit-Inv (make_room q e) e (record {
            account = m.account;
            items = omega (arith, m.shorter, m.items);
            size = omega (arith, m.lighter, m.limit);
          }))
  ]

  pub dequeue-Inv : (q : Queue T) → Inv q → Inv (dequeue q).0
  unfolding dequeue
  dequeue-Inv q v = ground arith

  pub clear-Inv : (q : Queue T) → Inv q → Inv (clear q)
  unfolding clear
  clear-Inv q v = ground arith
