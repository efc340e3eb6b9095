-- ===== src/Runs/Acceptance/Invariant.antt =====
-- event-deduplication.ts: what holds of the accepted events between two calls.
use collab.Base.{
  ℕ, Bool, true, not, ◌||◌, ◌≡◌, refl, ap, none, some, List, [], ◌∷◌, String, ok, err, Result-cases,
  arith, Bool-cases, Option-cases, inl, inr, map, All,
}
use collab.Base.Patterns.{is_identifier}
use collab.Runs.Acceptance.{
  Store, Fresh, Effect, find, is_valid, is_next, inspect, prepare, is_refused, insert_rows, commit,
  accept,
}
use collab.Runs.Acceptance.Records.{Outside, Input, Applied, Row, Ack, Audit}
use collab.Runs.Acceptance.Numbering.{Numbered, is_next_lem}

-- No two rows have the same runner and event.
abbrev pub Once : List Row → Type 0
Once [] = Unit {0}
Once (r ∷ rs) = (find r.input.runner_id r.input.event_id rs ≡ none) × Once rs

module _ (w : Outside) where
  open w use {Database, Code, digest}

  -- Each accepted event has its one acknowledgement and its one audit record, in the same order.
  abbrev pub ack_of : Ack → String × String × String × String
  ack_of k = (k.runner_id, k.event_id, k.result_reference, k.semantic_digest)

  abbrev pub ack_for : Row → String × String × String × String
  ack_for r = (
    r.input.runner_id,
    r.input.event_id,
    r.committed.result_reference,
    digest r.input r.committed,
  )

  abbrev pub audit_of : Audit → String × String × ℕ × Bool
  audit_of a = (a.runner_id, a.run_id, a.local_sequence, a.is_applied)

  abbrev pub audit_for : Row → String × String × ℕ × Bool
  audit_for r = (r.input.runner_id, r.input.run_id, r.input.local_sequence, r.committed.is_applied)

  pub record Inv (s : Store w) : Type 0 where
    pub numbered : Numbered s.events
    pub once : Once s.events
    pub acknowledged : map ack_of s.acks ≡ map ack_for s.events
    pub audited : map audit_of s.audits ≡ map audit_for s.events
    pub valid : All (λ r. is_valid r.input ≡ true) s.events

  pub prepare_new :
      (s : Store w) (i : Input)
      → prepare w s i ≡ ok none
      → (is_valid i ≡ true)
        × (is_next s.events i ≡ true)
        × (find i.runner_id i.event_id s.events ≡ none)
  unfolding prepare inspect
  prepare_new s i h = elim (Option-cases (find i.runner_id i.event_id s.events)) [
    | inl e ↦ ground arith
    | inr (r, e) ↦ ground arith
  ]

  inserted-Inv :
      (s : Store w) (i : Input) (a : Applied) (f : Fresh w)
      → Inv s
      → prepare w s i ≡ ok none
      → Inv (insert_rows w s i a f)
  unfolding insert_rows
  inserted-Inv s i a f v p =
      let (valid, next, fresh) = prepare_new s i p in
      let number = is_next_lem s.events i v.numbered next in
      record {
        numbered = (number.0, number.1, v.numbered);
        once = (fresh, v.once);
        acknowledged =
            ap (λ ks. ack_for (record { input = i; committed = a; accepted_at = 0 }) ∷ ks)
              v.acknowledged;
        audited =
            ap (λ ks. audit_for (record { input = i; committed = a; accepted_at = 0 }) ∷ ks)
              v.audited;
        valid = (valid, v.valid);
      }

  -- The rest of the database is not read by the invariant, nor by `prepare`.
  database-Inv : (s : Store w) (d : Database) → Inv s → Inv (record s { database = d })
  database-Inv s d v = record {
    numbered = v.numbered;
    once = v.once;
    acknowledged = v.acknowledged;
    audited = v.audited;
    valid = v.valid;
  }

  prepare_database :
      (s : Store w) (d : Database) (i : Input)
      → prepare w (record s { database = d }) i ≡ prepare w s i
  unfolding prepare inspect
  prepare_database s d i = refl

  -- After a successful preparation the call is an error that leaves the three tables alone, or the
  -- insertion of the event with the result that its effect gave.
  pub data Accepted (s : Store w) (i : Input) (f : Fresh w) (t : Store w) : Type 0 where
    inserts :
        (d : Database) (a : Applied)
        → prepare w s i ≡ ok none
        → t ≡ insert_rows w (record s { database = d }) i a f
        → Accepted s i f t
    leaves : (d : Database) → t ≡ record s { database = d } → Accepted s i f t

  pub accept-cases :
      (s : Store w) (i : Input) (e : Effect w) (f : Fresh w) → Accepted s i f (accept w s i e f).0
  unfolding accept commit
  accept-cases s i e f = elim (Result-cases (prepare w s i)) [
    | inr (c, r, p) ↦ leaves s.database (rw p refl)
    | inl (some a, p) ↦ leaves s.database (rw p refl)
    | inl (none, p) ↦ elim (Option-cases (e s.database)) [
      | inl q ↦ leaves s.database (rw (p, q) refl)
      | inr ((d, err c r), q) ↦ leaves d (rw (p, q) refl)
      | inr ((d, ok a), q) ↦
          let bad =
            not (is_valid i)
            || not (is_identifier a.result_reference)
            || is_refused w (record s { database = d }) i a f in
          elim (Bool-cases bad) [
            | inl b ↦ leaves s.database (rw (p, q, b) refl)
            | inr b ↦ inserts d a p (rw (p, q, b) refl)
          ]
    ]
  ]

  pub accept-Inv :
      (s : Store w) (i : Input) (e : Effect w) (f : Fresh w) → Inv s → Inv (accept w s i e f).0
  unfolding prepare inspect
  accept-Inv s i e f v = elim (accept-cases s i e f) [
    | inserts d a p t ↦ rw t (inserted-Inv (record s { database = d }) i a f (database-Inv s d v) p)
    | leaves d t ↦ rw t (database-Inv s d v)
  ]

  abbrev pub Call : Type 0
  Call = Input × Effect w × Fresh w

  unfoldable pub run : Store w → List Call → Store w
  run s [] = s
  run s ((i, e, f) ∷ cs) = run (accept w s i e f).0 cs

  -- Whatever runners send, the invariant is kept: the events of each run of each runner are numbered
  -- 1, 2, 3, … in the order of acceptance and each names the one before it, no event is accepted twice,
  -- and each accepted event has exactly one acknowledgement and one audit record, with its result.
  pub run-Inv : (s : Store w) (cs : List Call) → Inv s → Inv (run s cs)
  unfolding run
  run-Inv s [] v = v
  run-Inv s ((i, e, f) ∷ cs) v = run-Inv (accept w s i e f).0 cs (accept-Inv s i e f v)
