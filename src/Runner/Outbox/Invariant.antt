-- ===== src/Runner/Outbox/Invariant.antt =====
-- runner/outbox.ts: what holds of the outbox between two calls.
use collab.Base.{
  ℕ, ◌+◌, ◌≤◌, Bool, true, false, ◌≡◌, ap, Option, none, some, List, [], ◌∷◌, String, length, arith,
  eq_iff, Bool-cases, Option-cases, inl, inr, All, map, distinct,
}
use collab.Runner.Outbox.Content.{
  Codec, byte_length, same_kind, priority, Priority, normal, critical, Kind,
}
use collab.Runner.Outbox.{
  item_limit, byte_limit, is_full, latest, weight, update_row, select, is_storable, is_intact,
  new_row, insert, enqueue, requeue_in_flight,
}
use collab.Runner.Outbox.Records.{Outbox, Row, State}
use collab.Runner.Outbox.Rows.{
  Numbered, Keeps, latest_lem, map-Numbered, length-map, weight-map, ids-map, update_one,
  update_one-Keeps, update_row-map, requeue_one, requeue_one-Keeps, requeue_rows-map, select-none,
}

room :
    (o : Outbox) (p : Priority) (n : ℕ)
    → is_full o p n ≡ false
    → (length o.rows + 1 ≤ o.limits.maximum_items) × (weight o.rows + n ≤ o.limits.maximum_bytes)
unfolding is_full item_limit byte_limit
room o critical n h = ground arith
room o normal n h = ground arith

module _ (c : Codec) where
  open c use {Body, kind, event_id, value, stringify, parse, digest, parse-stringify}

  -- The row can be read back.
  abbrev pub IsReadable : Row → Type 0
  IsReadable r = (b : Body) × (parse r.body_json ≡ some b) × (is_intact c r b ≡ true)

  pub record Inv (o : Outbox) : Type 0 where
    pub items : length o.rows ≤ o.limits.maximum_items
    pub bytes : weight o.rows ≤ o.limits.maximum_bytes
    pub numbered : Numbered o.rows
    pub once : distinct (map (λ r. r.event_id) o.rows) ≡ true
    pub readable : All IsReadable o.rows

  same_kind_refl : (k : Kind) → same_kind k k ≡ true
  same_kind_refl k = ground arith

  new_row-IsReadable :
      (id : String) (run : Option String) (b : Body) (p : Option Row) (now : ℕ)
      → is_storable c id run b ≡ true
      → IsReadable (new_row c id run b p now)
  unfolding new_row is_intact is_storable
  new_row-IsReadable id run b p now h = (
    b,
    parse-stringify b,
    ground (arith, same_kind_refl (kind b), eq_iff (digest (stringify b)) (digest (stringify b))),
  )

  pub insert-Inv :
      (o : Outbox) (id : String) (run : Option String) (b : Body) (now : ℕ)
      → Inv o
      → is_storable c id run b ≡ true
      → select id o.rows ≡ none
      → is_full o (priority (kind b)) (byte_length (stringify b)) ≡ false
      → Inv (insert c o id run b now).0
  unfolding insert new_row
  insert-Inv o id run b now v s n f =
      let space = room o (priority (kind b)) (byte_length (stringify b)) f in
      let chain = latest_lem run o.rows v.numbered in
      record {
        items = omega (arith, space);
        bytes = omega (arith, space);
        numbered = (ap (λ (t : ℕ). t + 1) chain.0, chain.1, v.numbered);
        once = ground (arith, select-none id o.rows n);
        readable = (new_row-IsReadable id run b (latest run o.rows) now s, v.readable);
      }

  -- A change of the rows that keeps what identifies them, and their text, keeps the invariant.
  map-IsReadable :
      (g : Row → Row) (rs : List Row)
      → ((r : Row) → IsReadable r → IsReadable (g r))
      → All IsReadable rs
      → All IsReadable (map g rs)
  map-IsReadable g [] k a = tt
  map-IsReadable g (r ∷ rs) k a = (k r a.0, map-IsReadable g rs k a.1)

  map-Inv :
      (g : Row → Row) (o : Outbox)
      → Keeps g
      → ((r : Row) → IsReadable r → IsReadable (g r))
      → Inv o
      → Inv (record o { rows = map g o.rows })
  map-Inv g o k i v = record {
    items = rw (length-map g k o.rows) v.items;
    bytes = rw (weight-map g k o.rows) v.bytes;
    numbered = map-Numbered g k o.rows v.numbered;
    once = rw (ids-map g k o.rows) v.once;
    readable = map-IsReadable g o.rows i v.readable;
  }

  pub update-Inv :
      (o : Outbox) (may : State → Bool) (s : State) (code : Option String) (now : ℕ) (id : String)
      → Inv o
      → Inv (record o { rows = update_row may s code now id o.rows })
  unfolding update_one is_intact
  update-Inv o may s code now id v = rw (update_row-map may s code now id o.rows) (
      map-Inv (update_one may s code now id) o (update_one-Keeps may s code now id)
        (λ r i. readable r i) v)
    where
      readable : (r : Row) → IsReadable r → IsReadable (update_one may s code now id r)
      readable r (b, e, i) = (b, ground arith, ground arith)

  pub requeue-Inv : (o : Outbox) (now : ℕ) → Inv o → Inv (requeue_in_flight o now).0
  unfolding requeue_in_flight requeue_one is_intact
  requeue-Inv o now v =
      rw (requeue_rows-map now o.rows)
        (map-Inv (requeue_one now) o (requeue_one-Keeps now) readable v)
    where
      readable : (r : Row) → IsReadable r → IsReadable (requeue_one now r)
      readable r (b, e, i) = (b, ground arith, ground arith)

  pub enqueue-Inv :
      (o : Outbox) (id : String) (run : Option String) (b : Option Body) (now : ℕ)
      → Inv o
      → Inv (enqueue c o id run b now).0
  unfolding enqueue
  enqueue-Inv o id run none now v = v
  enqueue-Inv o id run (some b) now v = elim (Bool-cases (is_storable c id run b)) [
    | inl s ↦ elim (Option-cases (select id o.rows)) [
      | inl n ↦ elim (Bool-cases (is_full o (priority (kind b)) (byte_length (stringify b)))) [
        | inl f ↦ ground arith
        | inr f ↦ ground (arith, insert-Inv o id run b now v s n f)
      ]
      | inr (r, e) ↦ ground arith
    ]
    | inr s ↦ ground arith
  ]
