-- ===== src/Wire/SendQueue/Admission.antt =====
-- rate-limits.ts: which entries get in, and what a CRITICAL entry costs the others.
use collab.Base.{
  ◌+◌, ◌≤◌, ◌<◌, ◌≡◌, ◌↔◌, refl, ap, Bool, true, false, not, ◌&&◌, List, [], ◌∷◌, ◌++◌, length, ltb,
  arith, Bool-cases, inl, inr, if◌then◌else◌,
}
use collab.Wire.SendQueue.{
  Queue, Entry, critical, is_normal, has_normal, crowded, place, admit, make_room, enqueue,
}
use collab.Wire.SendQueue.Eviction.{weight, criticals, Evicted, evict-ends}
use collab.Wire.SendQueue.Invariant.{Inv, make_room-Evicted}

module _ {ℓ} {T : Type ℓ} where
  criticals-append :
      (xs : List (Entry T)) (e : Entry T)
      → criticals (xs ++ e ∷ [])
        ≡ (if is_normal e.priority then criticals xs else criticals xs ++ e ∷ [])
  criticals-append [] e = ground arith
  criticals-append (x ∷ xs) e = ground (arith, criticals-append xs e)

  -- An accepted entry's place among the CRITICAL ones.
  abbrev pub with_critical : Entry T → Bool → List (Entry T) → List (Entry T)
  with_critical e accepted es = if accepted && not (is_normal e.priority) then e ∷ es else es

  admit-criticals :
      (q : Queue T) (e : Entry T)
      → criticals (admit q e).0.entries ≡ with_critical e (admit q e).1 (criticals q.entries)
  unfolding admit place
  admit-criticals q e = ground (arith, criticals-append q.entries e)

  -- No call drops, doubles or reorders a CRITICAL entry: afterwards the queue holds the CRITICAL
  -- entries that it held, in their order, behind the new one if that is CRITICAL and accepted.
  enqueue-criticals :
      (q : Queue T) (e : Entry T)
      → Inv q
      → criticals (enqueue q e).0.entries ≡ with_critical e (enqueue q e).1 (criticals q.entries)
  unfolding enqueue
  enqueue-criticals q e v = elim (Bool-cases (ltb q.maximum_bytes e.bytes)) [
    | inl big ↦ rw big refl
    | inr fits ↦
        rw fits (rw (← (make_room-Evicted q e v.account).kept) (admit-criticals (make_room q e) e))
  ]

  criticals-all : (es : List (Entry T)) → has_normal es ≡ false → criticals es ≡ es
  criticals-all [] h = refl
  criticals-all (e ∷ es) h = ground (arith, criticals-all es)

  criticals_le :
      (es : List (Entry T))
      → (length (criticals es) ≤ length es) × (weight (criticals es) ≤ weight es)
  criticals_le [] = (omega arith, omega arith)
  criticals_le (e ∷ es) = ground (arith, criticals_le es)

  -- There is room beside the CRITICAL entries alone.
  pub record HasRoom (q : Queue T) (e : Entry T) : Type 0 where
    pub items : length (criticals q.entries) < q.maximum_items
    pub size : weight (criticals q.entries) + e.bytes ≤ q.maximum_bytes

  room_of_admitted :
      (q m : Queue T) (e : Entry T) → Evicted q m → crowded m e.bytes ≡ false → HasRoom q e
  room_of_admitted q m e v c =
      let le = criticals_le m.entries in
      let few : length m.entries < m.maximum_items = ground arith in
      let light : m.bytes + e.bytes ≤ m.maximum_bytes = ground arith in
      record {
        items = omega (arith, le, few, ap length v.kept, v.items);
        size = omega (arith, le, light, ap weight v.kept, v.limit, v.account);
      }

  not-crowded :
      (q m : Queue T) (e : Entry T)
      → Evicted q m
      → (crowded m e.bytes && has_normal m.entries) ≡ false
      → HasRoom q e
      → crowded m e.bytes ≡ false
  not-crowded q m e v stop room = elim (Bool-cases (has_normal m.entries)) [
    | inl n ↦ ground arith
    | inr n ↦
        let same_entries = criticals-all m.entries n in
        let few : length m.entries < m.maximum_items =
          omega (arith, ap length same_entries, ap length v.kept, v.items, room.items) in
        let light : m.bytes + e.bytes ≤ m.maximum_bytes =
          omega (arith, ap weight same_entries, ap weight v.kept, v.limit, v.account, room.size) in
        ground (arith, few, light)
  ]

  make_room-ends :
      (q : Queue T) (e : Entry T)
      → e.priority ≡ critical
      → (crowded (make_room q e) e.bytes && has_normal (make_room q e).entries) ≡ false
  unfolding make_room
  make_room-ends q e c = rw (c, make_room) (evict-ends (length q.entries) q e.bytes (omega arith))

  -- A CRITICAL entry is accepted exactly if it fits beside the CRITICAL entries in the queue: NORMAL
  -- entries never keep it out.
  pub critical_accepted :
      (q : Queue T) (e : Entry T)
      → Inv q
      → e.priority ≡ critical
      → ((enqueue q e).1 ≡ true) ↔ HasRoom q e
  unfolding enqueue admit
  critical_accepted q e v c =
      let m = make_room q e in
      let kept = make_room-Evicted q e v.account in
      (
        λ h. room_of_admitted q m e kept (ground arith),
        λ room. ground (arith, room.size, not-crowded q m e kept (make_room-ends q e c) room),
      )

  -- A CRITICAL entry that is refused though its size is within the limit has cost the queue all its
  -- NORMAL entries.
  refused_critical_clears :
      (q : Queue T) (e : Entry T)
      → Inv q
      → e.priority ≡ critical
      → e.bytes ≤ q.maximum_bytes
      → (enqueue q e).1 ≡ false
      → (enqueue q e).0.entries ≡ criticals q.entries
  unfolding enqueue admit
  refused_critical_clears q e v c small no_room =
      let m = make_room q e in
      ground (
        arith,
        make_room-ends q e c,
        criticals-all m.entries,
        (make_room-Evicted q e v.account).kept,
      )
