-- ===== src/Runner/Outbox/States.antt =====
-- runner/outbox.ts over any sequence of calls.
use collab.Base.{
  ℕ, ◌-◌, ◌≤◌, Bool, true, false, ◌≡◌, ◌≢◌, refl, ap, ◌∙◌, Option, none, some, List, [], ◌∷◌,
  String, same, length, arith, eq_iff, Bool-cases, Option-cases, inl, inr, All, ok,
}
use mathlib.Core.Path.{subst}
use collab.Runner.Outbox.Content.{Codec, byte_length, priority, normal}
use collab.Runner.Outbox.{
  latest, Disposition, open_outbox, item_limit, is_full, update_row, requeue_rows, select, is_state,
  is_open, parse_row, new_row, insert, replay, enqueue, inspect, mark_in_flight, acknowledge,
  requeue_in_flight, target_of,
}
use collab.Runner.Outbox.Records.{Outbox, Limits, Row, State, in_flight, pending}
use collab.Runner.Outbox.Rows.{
  update_one, update_row-map, requeue_one, requeue_rows-map, length-map, update_one-Keeps,
  requeue_one-Keeps,
}
use collab.Runner.Outbox.Invariant.{Inv, IsReadable, enqueue-Inv, update-Inv, requeue-Inv}

module _ (c : Codec) where
  open c use {Body, kind, event_id, value, stringify, parse, digest, parse-stringify}

  -- The calls that write.
  pub data Call : Type 0 where
    enqueues : String → Option String → Option Body → Call
    marks : String → Call
    acknowledges : String → Disposition → Option String → Call
    requeues : Call

  unfoldable pub step : Outbox → ℕ × Call → Outbox
  step o (now, enqueues id run b) = (enqueue c o id run b now).0
  step o (now, marks id) = (mark_in_flight c o id now).0
  step o (now, acknowledges id d code) = (acknowledge c o id d code now).0
  step o (now, requeues) = (requeue_in_flight o now).0

  unfoldable pub run : Outbox → List (ℕ × Call) → Outbox
  run o [] = o
  run o (x ∷ xs) = run (step o x) xs

  acknowledges-Inv :
      (o : Outbox) (id : String) (d : Disposition) (code : Option String) (now : ℕ)
      → Inv c o
      → Inv c (acknowledge c o id d code now).0
  unfolding acknowledge
  acknowledges-Inv o id d code now v =
      ground (arith, update-Inv c o is_open (target_of d) code now id v)

  step-Inv : (o : Outbox) (x : ℕ × Call) → Inv c o → Inv c (step o x)
  unfolding step mark_in_flight
  step-Inv o (now, enqueues id r b) v = enqueue-Inv c o id r b now v
  step-Inv o (now, marks id) v = update-Inv c o (is_state pending) in_flight none now id v
  step-Inv o (now, acknowledges id d code) v = acknowledges-Inv o id d code now v
  step-Inv o (now, requeues) v = requeue-Inv c o now v

  pub run-Inv : (o : Outbox) (xs : List (ℕ × Call)) → Inv c o → Inv c (run o xs)
  unfolding run
  run-Inv o [] v = v
  run-Inv o (x ∷ xs) v = run-Inv (step o x) xs (step-Inv o x v)

  opened :
      (l : Limits) (rows : List Row) {o : Outbox}
      → open_outbox l rows ≡ some o
      → record { limits = l; rows = rows } ≡ o
  unfolding open_outbox
  opened l rows h = ground arith

  empty-Inv : (l : Limits) {o : Outbox} → open_outbox l [] ≡ some o → Inv c o
  empty-Inv l h = subst (Inv c) (opened l [] h) (record {
    items = omega arith;
    bytes = omega arith;
    numbered = tt;
    once = refl;
    readable = tt;
  })

  -- From an empty database, and whatever is called: the outbox respects both limits, the events of each
  -- run are numbered 1, 2, 3, … and linked in that order, no identifier occurs twice, and every
  -- row can be read back.
  pub run-open-Inv :
      (l : Limits) {o : Outbox} (xs : List (ℕ × Call))
      → open_outbox l [] ≡ some o
      → Inv c (run o xs)
  run-open-Inv l {o} xs h = run-Inv o xs (empty-Inv l h)

  readable_row : (r : Row) → IsReadable c r → parse_row c r ≡ some r
  unfolding parse_row
  readable_row r (b, e, i) = ground arith

  select-IsReadable :
      (id : String) (rs : List Row) {r : Row}
      → All (IsReadable c) rs
      → select id rs ≡ some r
      → parse_row c r ≡ some r
  unfolding select
  select-IsReadable id [] a h = cc
  select-IsReadable id (q ∷ rs) {r} a h = elim (Bool-cases (same q.event_id id)) [
    | inl hit ↦ subst (λ x. parse_row c x ≡ some x) (ground arith) (readable_row q a.0)
    | inr miss ↦ select-IsReadable id rs a.1 (ground arith)
  ]

  enqueue-answers :
      (o : Outbox) (id : String) (r : Option String) (b : Option Body) (now : ℕ)
      → Inv c o
      → (enqueue c o id r b now).1 ≢ none
  unfolding enqueue replay insert
  enqueue-answers o id r none now v h = cc
  enqueue-answers o id r (some b) now v h = elim (Option-cases (select id o.rows)) [
    | inl e ↦ elim (Option-cases (parse_row c (new_row c id r b (latest r o.rows) now))) [
      | inl p ↦ ground arith
      | inr (q, p) ↦ ground arith
    ]
    | inr (q, e) ↦ ground (arith, select-IsReadable id o.rows {r = q} v.readable e)
  ]

  marks-answers :
      (o : Outbox) (id : String) (now : ℕ) → Inv c o → (mark_in_flight c o id now).1 ≢ none
  unfolding mark_in_flight
  marks-answers o id now v h =
      let rows = update_row (is_state pending) in_flight none now id o.rows in
      let w = update-Inv c o (is_state pending) in_flight none now id v in
      elim (Option-cases (select id rows)) [
        | inl e ↦ ground arith
        | inr (q, e) ↦ ground (arith, select-IsReadable id rows {r = q} w.readable e)
      ]

  acknowledges-answers :
      (o : Outbox) (id : String) (d : Disposition) (code : Option String) (now : ℕ)
      → Inv c o
      → (acknowledge c o id d code now).1 ≢ none
  unfolding acknowledge
  acknowledges-answers o id d code now v h =
      let rows = update_row is_open (target_of d) code now id o.rows in
      let w = update-Inv c o is_open (target_of d) code now id v in
      elim (Option-cases (select id rows)) [
        | inl e ↦ ground arith
        | inr (q, e) ↦ ground (arith, select-IsReadable id rows {r = q} w.readable e)
      ]

  inspect-answers : (o : Outbox) (id : String) → Inv c o → inspect c o id ≢ none
  unfolding inspect
  inspect-answers o id v h = elim (Option-cases (select id o.rows)) [
    | inl e ↦ ground arith
    | inr (q, e) ↦ ground (arith, select-IsReadable id o.rows {r = q} v.readable e)
  ]

  -- While the invariant holds no call throws RUNNER_OUTBOX_CORRUPT: each gives an event or an error.
  never_thrown :
      (o : Outbox)
      → Inv c o
      → ((id : String) (r : Option String) (b : Option Body) (now : ℕ)
          → (enqueue c o id r b now).1 ≢ none)
        × ((id : String) (now : ℕ) → (mark_in_flight c o id now).1 ≢ none)
        × ((id : String) (d : Disposition) (code : Option String) (now : ℕ)
            → (acknowledge c o id d code now).1 ≢ none)
        × ((id : String) → inspect c o id ≢ none)
  never_thrown o v = (
    λ id r b now. enqueue-answers o id r b now v,
    λ id now. marks-answers o id now v,
    λ id d code now. acknowledges-answers o id d code now v,
    λ id. inspect-answers o id v,
  )

  -- A row that is acknowledged or rejected for good is not changed by any call.
  settled-update :
      (may : State → Bool) (s : State) (code : Option String) (now : ℕ) (id j : String)
      (rs : List Row) (r : Row)
      → select j rs ≡ some r
      → may r.state ≡ false
      → select j (update_row may s code now id rs) ≡ some r
  unfolding select update_row
  settled-update may s code now id j [] r h m = cc
  settled-update may s code now id j (q ∷ rs) r h m =
      ground (arith, settled-update may s code now id j rs r)

  settled-requeue :
      (now : ℕ) (j : String) (rs : List Row) (r : Row)
      → select j rs ≡ some r
      → is_open r.state ≡ false
      → select j (requeue_rows now rs).0 ≡ some r
  unfolding select requeue_rows
  settled-requeue now j [] r h m = cc
  settled-requeue now j (q ∷ rs) r h m = ground (arith, settled-requeue now j rs r)

  settled-enqueue :
      (o : Outbox) (id j : String) (u : Option String) (b : Option Body) (now : ℕ) (r : Row)
      → select j o.rows ≡ some r
      → select j (enqueue c o id u b now).0.rows ≡ some r
  unfolding enqueue insert new_row select
  settled-enqueue o id j u none now r h = h
  settled-enqueue o id j u (some b) now r h = elim (Option-cases (select id o.rows)) [
    | inl e ↦ ground (arith, eq_iff id j)
    | inr (q, e) ↦ ground arith
  ]

  settled-step :
      (o : Outbox) (x : ℕ × Call) (j : String) (r : Row)
      → select j o.rows ≡ some r
      → is_open r.state ≡ false
      → select j (step o x).rows ≡ some r
  unfolding step mark_in_flight acknowledge requeue_in_flight
  settled-step o (now, enqueues id u b) j r h m = settled-enqueue o id j u b now r h
  settled-step o (now, marks id) j r h m =
      settled-update (is_state pending) in_flight none now id j o.rows r h (ground arith)
  settled-step o (now, acknowledges id d code) j r h m =
      ground (arith, settled-update is_open (target_of d) code now id j o.rows r h m)
  settled-step o (now, requeues) j r h m = settled-requeue now j o.rows r h m

  -- An event that the server has acknowledged or rejected stays as it is, whatever is called later: it
  -- is never sent again and its identifier is never given to another event.
  pub settled-run :
      (o : Outbox) (xs : List (ℕ × Call)) (j : String) (r : Row)
      → select j o.rows ≡ some r
      → is_open r.state ≡ false
      → select j (run o xs).rows ≡ some r
  unfolding run
  settled-run o [] j r h m = h
  settled-run o (x ∷ xs) j r h m = settled-run (step o x) xs j r (settled-step o x j r h m) m

  -- To store the same event once more, at any later time, changes nothing and gives the same answer.
  enqueue_twice :
      (o : Outbox) (id : String) (u : Option String) (b : Body) (now later : ℕ) (r : Row)
      → (enqueue c o id u (some b) now).1 ≡ some (ok r)
      → let o' = (enqueue c o id u (some b) now).0 in
        enqueue c o' id u (some b) later ≡ (o', some (ok r))
  unfolding enqueue insert replay select new_row
  enqueue_twice o id u b now later r h = elim (Option-cases (select id o.rows)) [
    | inl e ↦ ground (
      arith,
      eq_iff id id,
      eq_iff (digest (stringify b)) (digest (stringify b)),
      eq_iff (stringify b) (stringify b),
    )
    | inr (q, e) ↦ ground arith
  ]

  abbrev Grows : Outbox → Outbox → Type 0
  Grows o p = (p.limits ≡ o.limits) × (length o.rows ≤ length p.rows)

  update-length :
      (may : State → Bool) (s : State) (code : Option String) (now : ℕ) (id : String)
      (rs : List Row)
      → length (update_row may s code now id rs) ≡ length rs
  update-length may s code now id rs =
      ap length (update_row-map may s code now id rs)
      ∙ length-map (update_one may s code now id) (update_one-Keeps may s code now id) rs

  requeue-length : (now : ℕ) (rs : List Row) → length (requeue_rows now rs).0 ≡ length rs
  requeue-length now rs =
      ap length (requeue_rows-map now rs) ∙ length-map (requeue_one now) (requeue_one-Keeps now) rs

  enqueue-Grows :
      (o : Outbox) (id : String) (u : Option String) (b : Option Body) (now : ℕ)
      → Grows o (enqueue c o id u b now).0
  unfolding enqueue insert
  enqueue-Grows o id u none now = (refl, omega arith)
  enqueue-Grows o id u (some b) now = elim (Option-cases (select id o.rows)) [
    | inl e ↦ ground arith
    | inr (q, e) ↦ ground arith
  ]

  Grows-step : (o : Outbox) (x : ℕ × Call) → Grows o (step o x)
  unfolding step mark_in_flight acknowledge requeue_in_flight
  Grows-step o (now, enqueues id u b) = enqueue-Grows o id u b now
  Grows-step o (now, marks id) =
      (refl, omega (arith, update-length (is_state pending) in_flight none now id o.rows))
  Grows-step o (now, acknowledges id d code) =
      ground (arith, update-length is_open (target_of d) code now id o.rows)
  Grows-step o (now, requeues) = (refl, omega (arith, requeue-length now o.rows))

  Grows-run : (o : Outbox) (xs : List (ℕ × Call)) → Grows o (run o xs)
  unfolding run
  Grows-run o [] = (refl, omega arith)
  Grows-run o (x ∷ xs) =
      let one = Grows-step o x in
      let rest = Grows-run (step o x) xs in (rest.0 ∙ one.0, omega (arith, one.1, rest.1))

  full_stays :
      (o p : Outbox) (n : ℕ)
      → Grows o p
      → o.limits.maximum_items - o.limits.reserved_critical_items ≤ length o.rows
      → is_full p normal n ≡ true
  unfolding is_full item_limit
  full_stays o p n g h = rw g.0 (ground (arith, g.1))

  -- Rows are never deleted: once as many events have been stored as NORMAL ones may be, new NORMAL events
  -- are refused for ever, also when every event has been acknowledged.
  reserved_for_ever :
      (o : Outbox) (xs : List (ℕ × Call)) (id : String) (u : Option String) (b : Body) (now : ℕ)
      → o.limits.maximum_items - o.limits.reserved_critical_items ≤ length o.rows
      → priority (kind b) ≡ normal
      → select id (run o xs).rows ≡ none
      → (enqueue c (run o xs) id u (some b) now).0 ≡ run o xs
  unfolding enqueue
  reserved_for_ever o xs id u b now h p n =
      ground (arith, full_stays o (run o xs) (byte_length (stringify b)) (Grows-run o xs) h)
