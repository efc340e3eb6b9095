-- ===== src/Workflow/ManagedLoop/Replay.antt =====
-- managed-loops.ts: what a call answers when an event or an evaluation is delivered again.
use collab.Base.{
  ℕ, Bool, true, false, ◌≡◌, refl, ap, sym, ◌∙◌, Option, none, some, List, String, if◌then◌else◌,
  ok, err, never, Result-cases, Option-cases, inl, inr, arith, eq_iff,
}
use collab.Base.Table.{get, get-set}
use collab.Workflow.StopPolicy.{StopPolicyFacts, evaluate}
use collab.Workflow.ManagedLoop.{
  Evaluated, read, is_event_invalid, key_of, prior_of, is_replay, same_attempt, same_kind,
  advance_managed_loop, update_loop, select_event, record_event, select_evaluation, evaluate_loop,
}
use collab.Workflow.ManagedLoop.Records.{
  ManagedLoopState, ManagedLoopEvent, EventKind, request_next, LoopRow, EventRow, EvaluationRow,
  Store, event_conflict,
}
use collab.Workflow.ManagedLoop.Budget.{Call, run, run-Kept}
use collab.Workflow.ManagedLoop.Once.{run-Adds}

-- The row that an event with an identifier has after it was recorded, and the loop.
abbrev Recorded : Store → String → ManagedLoopEvent → String → Type 0
Recorded t j e k =
    (is_event_invalid e ≡ false)
    × (p : EventRow) × (select_event k t.events ≡ some p)
    × (p.run_id ≡ j)
    × (p.kind ≡ e.kind)
    × (p.attempt_id ≡ e.attempt_id)
    × (r : LoopRow) × (get j t.loops ≡ some r)

same_attempt-eq : (a b : Option String) → same_attempt a b ≡ true → a ≡ b
same_attempt-eq (some a) (some b) h = ap some ((eq_iff a b).0 h)
same_attempt-eq none b h = cc
same_attempt-eq (some a) none h = cc

same_kind-eq : (a b : EventKind) → same_kind a b ≡ true → a ≡ b
same_kind-eq a b h = ground arith

recorded :
    (s : Store) (j : String) (e : ManagedLoopEvent) (k : String) {t : Store} {l : ManagedLoopState}
    → record_event s j e ≡ (t, some (ok l))
    → key_of e.event_id ≡ some k
    → Recorded t j e k
unfolding record_event read update_loop is_replay select_event
recorded s j e k {t} {l} h n = elim (Option-cases (get j s.loops)) [
  | inl g ↦ ground arith
  | inr (r, g) ↦ elim (Option-cases (prior_of s (key_of e.event_id))) [
    | inr (p, q) ↦
        let here : select_event k s.events ≡ some p = sym (ap (prior_of s) n) ∙ q in
        (
          ground arith,
          p,
          ground arith,
          ground (arith, eq_iff p.run_id j),
          ground (arith, same_kind-eq p.kind e.kind),
          ground (arith, same_attempt-eq p.attempt_id e.attempt_id),
          r,
          ground arith,
        )
    | inl q ↦ elim (Result-cases (advance_managed_loop r.state e)) [
      | inr (x, y, a) ↦ ground arith
      | inl (m, a) ↦
          let p : EventRow = record {
            event_id = k;
            run_id = j;
            attempt_id = e.attempt_id;
            kind = e.kind;
            observed_at = e.observed_at;
          } in
          (
            ground arith,
            p,
            ground (arith, eq_iff k k),
            refl,
            refl,
            refl,
            record r { state = m },
            ground (arith, get-set j j (record r { state = m }) s.loops, eq_iff j j),
          )
    ]
  ]
]

answer_again :
    (s : Store) (j : String) (e : ManagedLoopEvent) (p : EventRow) (r : LoopRow)
    → is_event_invalid e ≡ false
    → get j s.loops ≡ some r
    → prior_of s (key_of e.event_id) ≡ some p
    → record_event s j e
      ≡ (s, some (if is_replay p j e then ok r.state else err event_conflict never))
unfolding record_event read
answer_again s j e p r v g q = rw (v, g, q) refl

same_kind_refl : (k : EventKind) → same_kind k k ≡ true
same_kind_refl k = ground arith

is_replay-true :
    (p : EventRow) (j : String) (e : ManagedLoopEvent) (a : String)
    → p.run_id ≡ j
    → p.kind ≡ e.kind
    → p.attempt_id ≡ e.attempt_id
    → e.attempt_id ≡ some a
    → is_replay p j e ≡ true
unfolding is_replay
is_replay-true p j e a r k b i =
    rw (r, k, b, i) (ground (arith, eq_iff j j, eq_iff a a, same_kind_refl e.kind))

-- An event of an attempt that was recorded under an identifier counts once: delivered again at any later
-- time, after any other calls, it changes nothing and answers with the loop's state.
pub record_once :
    (s : Store) (j : String) (e : ManagedLoopEvent) (k a : String) {t : Store}
    {l : ManagedLoopState} (xs : List Call)
    → record_event s j e ≡ (t, some (ok l))
    → key_of e.event_id ≡ some k
    → e.attempt_id ≡ some a
    → (current : ManagedLoopState) × (read (run t xs) j ≡ some current)
      × (record_event (run t xs) j e ≡ (run t xs, some (ok current)))
unfolding record_event read is_replay
record_once s j e k a {t} {l} xs h n i =
    let (valid, p, here, run_id, kind, attempt, r, loop) = recorded s j e k {t = t} {l = l} h n in
    let (q, there, f) = run-Kept t xs j r loop in
    let later = (run-Adds t xs).events k p here in
    let prior : prior_of (run t xs) (key_of e.event_id) ≡ some p =
      ap (prior_of (run t xs)) n ∙ later in
    let again = answer_again (run t xs) j e p q valid there prior in
    let yes = is_replay-true p j e a run_id kind attempt i in
    (
      q.state,
      rw there refl,
      again
          ∙ ap (λ (b : Bool). (run t xs, some (if b then ok q.state else err event_conflict never)))
              yes,
    )

no_attempt :
    (p : EventRow) (j : String) (e : ManagedLoopEvent)
    → is_event_invalid e ≡ false
    → e.kind ≡ request_next
    → p.attempt_id ≡ e.attempt_id
    → is_replay p j e ≡ false
unfolding is_event_invalid is_replay
no_attempt p j e v c a = ground arith

-- A REQUEST_NEXT that was recorded under an identifier is a conflict when it is delivered again.
request_next_conflicts :
    (s : Store) (j : String) (e : ManagedLoopEvent) (k : String) {t : Store} {l : ManagedLoopState}
    (xs : List Call)
    → record_event s j e ≡ (t, some (ok l))
    → key_of e.event_id ≡ some k
    → e.kind ≡ request_next
    → record_event (run t xs) j e ≡ (run t xs, some (err event_conflict never))
unfolding record_event read is_replay is_event_invalid
request_next_conflicts s j e k {t} {l} xs h n c =
    let (valid, p, here, run_id, kind, attempt, r, loop) = recorded s j e k {t = t} {l = l} h n in
    let (q, there, f) = run-Kept t xs j r loop in
    let later = (run-Adds t xs).events k p here in
    let prior : prior_of (run t xs) (key_of e.event_id) ≡ some p =
      ap (prior_of (run t xs)) n ∙ later in
    let again = answer_again (run t xs) j e p q valid there prior in
    let no : is_replay p j e ≡ false = no_attempt p j e valid c attempt in
    again
    ∙ ap (λ (b : Bool). (run t xs, some (if b then ok q.state else err event_conflict never))) no

evaluated :
    (digest : StopPolicyFacts → String) (s : Store) (j id : String) (facts : StopPolicyFacts)
    (now : ℕ) {t : Store} {v : Evaluated}
    → evaluate_loop digest s j id facts now ≡ (t, some (ok v))
    → (p : EvaluationRow) × (select_evaluation id t.evaluations ≡ some p)
      × (p.facts_digest ≡ digest facts)
      × ((p.result, p.state) ≡ v)
unfolding evaluate_loop update_loop select_evaluation
evaluated digest s j id facts now {t} {v} h =
    elim (Option-cases (select_evaluation id s.evaluations)) [
      | inr (p, q) ↦ (
        p,
        ground arith,
        ground (arith, eq_iff p.facts_digest (digest facts)),
        ground (arith, eq_iff p.facts_digest (digest facts)),
      )
      | inl q ↦ elim (Option-cases (get j s.loops)) [
        | inl g ↦ ground arith
        | inr (r, g) ↦
            elim (Option-cases (evaluate r.stop_policy facts r.state.consecutive_state)) [
              | inl w ↦ ground arith
              | inr ((result, state), w) ↦
                  let p : EvaluationRow = record {
                    evaluation_id = id;
                    run_id = j;
                    facts_digest = digest facts;
                    result = result;
                    state = state;
                    evaluated_at = now;
                  } in
                  (p, ground (arith, eq_iff id id), refl, ground arith)
            ]
      ]
    ]

-- A stop policy is evaluated once under an identifier: asked again at any later time, after any other
-- calls, with the same facts, the answer is the first one and the streaks do not move.
evaluate_once :
    (digest : StopPolicyFacts → String) (s : Store) (j i id : String) (facts : StopPolicyFacts)
    (now later : ℕ) {t : Store} {v : Evaluated} (xs : List Call)
    → evaluate_loop digest s j id facts now ≡ (t, some (ok v))
    → evaluate_loop digest (run t xs) i id facts later ≡ (run t xs, some (ok v))
unfolding evaluate_loop
evaluate_once digest s j i id facts now later {t} {v} xs h =
    let (p, here, digests, value) = evaluated digest s j id facts now {t = t} {v = v} h in
    let there = (run-Adds t xs).evaluations id p here in
    rw (there, digests) (ground (arith, value, eq_iff (digest facts) (digest facts)))
