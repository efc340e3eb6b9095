-- ===== src/Runs/Acceptance/Replay.antt =====
-- event-deduplication.ts: events that are sent again, and events out of order.
use collab.Base.{
  ◌+◌, true, false, not, ◌&&◌, ◌≡◌, refl, ap, sym, ◌∙◌, none, some, List, [], ◌∷◌, String, same,
  if◌then◌else◌, ok, err, never, arith, eq_iff, Bool-cases, Option-cases, inl, inr,
}
use collab.Base.Patterns.{is_identifier}
use collab.Runs.Acceptance.{
  Store, Fresh, Effect, disposition_of, find, is_found, is_valid, is_next, inspect, prepare,
  is_refused, insert_rows, commit, accept,
}
use collab.Runs.Acceptance.Records.{
  Outside, Input, Applied, Acceptance, Row, event_id_conflict, duplicate,
}
use collab.Runs.Acceptance.Numbering.{count_run, newest, next-is_next}
use collab.Runs.Acceptance.Invariant.{Inv, inserts, leaves, accept-cases, prepare_new, Call, run}

module _ (w : Outside) where
  open w use {Database, Code}

  find_kept :
      (q r : Row) (runner id : String) (rs : List Row)
      → find q.input.runner_id q.input.event_id rs ≡ none
      → find runner id rs ≡ some r
      → find runner id (q ∷ rs) ≡ some r
  unfolding find
  find_kept q r runner id rs n h =
      elim (Bool-cases (same q.input.runner_id runner && same q.input.event_id id)) [
        | inl hit ↦
            let a : q.input.runner_id ≡ runner =
              (eq_iff q.input.runner_id runner).0 (ground arith) in
            let b : q.input.event_id ≡ id = (eq_iff q.input.event_id id).0 (ground arith) in
            let none_here : find runner id rs ≡ none =
              ap (λ x. find x id rs) (sym a) ∙ ap (λ x. find q.input.runner_id x rs) (sym b) ∙ n in
            ground arith
        | inr miss ↦ ground arith
      ]

  find-accept :
      (s : Store w) (i : Input) (e : Effect w) (f : Fresh w) (runner id : String) (r : Row)
      → find runner id s.events ≡ some r
      → find runner id (accept w s i e f).0.events ≡ some r
  unfolding insert_rows prepare inspect
  find-accept s i e f runner id r h = elim (accept-cases w s i e f) [
    | inserts d a p t ↦ rw t (
        find_kept (record { input = i; committed = a; accepted_at = f.now }) r runner id s.events
          (prepare_new w s i p).2 h)
    | leaves d t ↦ rw t h
  ]

  find_run :
      (s : Store w) (cs : List (Call w)) (runner id : String) (r : Row)
      → find runner id s.events ≡ some r
      → find runner id (run w s cs).events ≡ some r
  unfolding run
  find_run s [] runner id r h = h
  find_run s ((i, e, f) ∷ cs) runner id r h =
      find_run (accept w s i e f).0 cs runner id r (find-accept s i e f runner id r h)

  -- The row of an event that was answered with a result, newly or again.
  abbrev Stored : Store w → Input → Acceptance → Type 0
  Stored t i a =
      (r : Row) × (find i.runner_id i.event_id t.events ≡ some r)
      × (r.input.input_hash ≡ i.input_hash)
      × (r.committed.result_reference ≡ a.result_reference)

  answered :
      (s : Store w) (i : Input) (e : Effect w) (f : Fresh w) {t : Store w} {a : Acceptance}
      → accept w s i e f ≡ (t, ok a)
      → Stored t i a
  unfolding accept prepare inspect commit insert_rows find
  answered s i e f {t} {a} h = elim (Option-cases (find i.runner_id i.event_id s.events)) [
    | inr (r, q) ↦
        (r, ground arith, ground (arith, eq_iff r.input.input_hash i.input_hash), ground arith)
    | inl q ↦ elim (Option-cases (e s.database)) [
      | inl x ↦ ground arith
      | inr ((d, err c r), x) ↦ ground arith
      | inr ((d, ok b), x) ↦ (
        record { input = i; committed = b; accepted_at = f.now },
        ground (arith, eq_iff i.runner_id i.runner_id, eq_iff i.event_id i.event_id),
        refl,
        ground arith,
      )
    ]
  ]

  again :
      (s : Store w) (j : Input) (e : Effect w) (f : Fresh w) (r : Row)
      → is_valid j ≡ true
      → find j.runner_id j.event_id s.events ≡ some r
      → accept w s j e f ≡ (
        s,
        if same r.input.input_hash j.input_hash
            then ok (record {
              disposition = duplicate;
              result_reference = r.committed.result_reference;
            })
            else err event_id_conflict never,
      )
  unfolding accept prepare inspect
  again s j e f r v h = ground arith

  -- An event that was answered with a result is never applied again: sent at any later time, after any
  -- other calls, it changes nothing and its effect does not run. With the same content the answer is
  -- DUPLICATE with the result of the first time, with other content a conflict.
  pub accept_once :
      (s : Store w) (i : Input) (e : Effect w) (f : Fresh w) {t : Store w} {a : Acceptance}
      (cs : List (Call w)) (j : Input) (e' : Effect w) (f' : Fresh w)
      → accept w s i e f ≡ (t, ok a)
      → is_valid j ≡ true
      → j.runner_id ≡ i.runner_id
      → j.event_id ≡ i.event_id
      → accept w (run w t cs) j e' f' ≡ (
        run w t cs,
        if same i.input_hash j.input_hash
            then ok (record { disposition = duplicate; result_reference = a.result_reference })
            else err event_id_conflict never,
      )
  accept_once s i e f {t} {a} cs j e' f' h v sr se =
      let (r, here, hash, ref) = answered s i e f {t = t} {a = a} h in
      let there = find_run t cs i.runner_id i.event_id r here in
      let found : find j.runner_id j.event_id (run w t cs).events ≡ some r = rw (sr, se) there in
      again (run w t cs) j e' f' r v found ∙ rw (hash, ref) refl

  -- An event that is not valid, not the next one of its run or not new leaves the whole database as it
  -- was, whatever its effect would do.
  accept_unless_next :
      (s : Store w) (i : Input) (e : Effect w) (f : Fresh w)
      → (is_valid i && is_next s.events i && not (is_found (find i.runner_id i.event_id s.events)))
        ≡ false
      → (accept w s i e f).0 ≡ s
  unfolding accept prepare inspect
  accept_unless_next s i e f h = elim (Option-cases (find i.runner_id i.event_id s.events)) [
    | inl q ↦ ground arith
    | inr (r, q) ↦ ground arith
  ]

  -- The next event of its run is accepted: new, valid, numbered one after the accepted ones of its run and
  -- naming the last of them, with an effect that succeeds and no key that is taken.
  accept_next :
      (s : Store w) (i : Input) (e : Effect w) (f : Fresh w) (d : Database) (a : Applied)
      → Inv w s
      → is_valid i ≡ true
      → find i.runner_id i.event_id s.events ≡ none
      → i.local_sequence ≡ count_run i.runner_id i.run_id s.events + 1
      → i.predecessor ≡ newest i.runner_id i.run_id s.events
      → e s.database ≡ some (d, ok a)
      → is_identifier a.result_reference ≡ true
      → is_refused w (record s { database = d }) i a f ≡ false
      → accept w s i e f ≡ (
        insert_rows w (record s { database = d }) i a f,
        ok record {
          disposition = disposition_of a.is_applied;
          result_reference = a.result_reference;
        },
      )
  unfolding accept prepare inspect commit
  accept_next s i e f d a v valid new number link effect ref free =
      rw (valid, new, next-is_next s.events i v.numbered number link, effect, valid, ref, free) refl
