-- ===== src/Workflow/ManagedLoop/Once.antt =====
-- managed-loops.ts: events and evaluations that are delivered again.
use collab.Base.{
  ℕ, not, ◌||◌, ◌≡◌, ap, sym, ◌∙◌, none, some, List, [], ◌∷◌, String, same, Result-cases,
  Bool-cases, Option-cases, inl, inr, arith, eq_iff,
}
use collab.Base.Table.{get}
use collab.Workflow.StopPolicy.{StopPolicy, StopPolicyFacts, evaluate}
use collab.Workflow.ManagedLoop.{
  read, create, is_storable, is_event_invalid, key_of, prior_of, has_attempt_event, is_key,
  is_optional_key, advance_managed_loop, update_loop, select_event, record_event, select_evaluation,
  evaluate_loop,
}
use collab.Workflow.ManagedLoop.Records.{
  ManagedLoopState, ManagedLoopEvent, EventRow, EvaluationRow, Store,
}
use collab.Workflow.ManagedLoop.Budget.{Call, creates, records, evaluates, step, run}

-- Events and evaluations are only added, under new identifiers.
pub record Adds (s t : Store) : Type 0 where
  pub events :
      (k : String) (r : EventRow)
      → select_event k s.events ≡ some r
      → select_event k t.events ≡ some r
  pub evaluations :
      (k : String) (r : EvaluationRow)
      → select_evaluation k s.evaluations ≡ some r
      → select_evaluation k t.evaluations ≡ some r

Adds-refl : (s : Store) → Adds s s
Adds-refl s = record { events = λ k r h. h; evaluations = λ k r h. h }

Adds-trans : {a b c : Store} → Adds a b → Adds b c → Adds a c
Adds-trans {a} {b} {c} x y = record {
  events = λ k r h. y.events k r (x.events k r h);
  evaluations = λ k r h. y.evaluations k r (x.evaluations k r h);
}

event_new :
    (q : EventRow) (rs : List EventRow) (k : String) (r : EventRow)
    → select_event q.event_id rs ≡ none
    → select_event k rs ≡ some r
    → select_event k (q ∷ rs) ≡ some r
unfolding select_event
event_new q rs k r n h = elim (Bool-cases (same q.event_id k)) [
  | inr e ↦ ground arith
  | inl e ↦
      let gone : select_event k rs ≡ none =
        ap (λ x. select_event x rs) (sym ((eq_iff q.event_id k).0 e)) ∙ n in
      ground arith
]

evaluation_new :
    (q : EvaluationRow) (rs : List EvaluationRow) (k : String) (r : EvaluationRow)
    → select_evaluation q.evaluation_id rs ≡ none
    → select_evaluation k rs ≡ some r
    → select_evaluation k (q ∷ rs) ≡ some r
unfolding select_evaluation
evaluation_new q rs k r n h = elim (Bool-cases (same q.evaluation_id k)) [
  | inr e ↦ ground arith
  | inl e ↦
      let gone : select_evaluation k rs ≡ none =
        ap (λ x. select_evaluation x rs) (sym ((eq_iff q.evaluation_id k).0 e)) ∙ n in
      ground arith
]

create-Adds :
    (s : Store) (j : String) (p : StopPolicy) (l : ManagedLoopState) → Adds s (create s j p l).0
unfolding create
create-Adds s j p l = elim (Option-cases (read s j)) [
  | inr (r, e) ↦ rw e (Adds-refl s)
  | inl e ↦ elim (Bool-cases (is_storable j l)) [
    | inl b ↦ rw (e, b) record { events = λ k r h. h; evaluations = λ k r h. h }
    | inr b ↦ rw (e, b) (Adds-refl s)
  ]
]

record_event-Adds : (s : Store) (j : String) (e : ManagedLoopEvent) → Adds s (record_event s j e).0
unfolding record_event update_loop
record_event-Adds s j e = elim (Bool-cases (is_event_invalid e)) [
  | inl i ↦ rw i (Adds-refl s)
  | inr i ↦ elim (Option-cases (read s j)) [
    | inl g ↦ rw (i, g) (Adds-refl s)
    | inr (c, g) ↦ elim (Option-cases (prior_of s (key_of e.event_id))) [
      | inr (p, q) ↦ rw (i, g, q) (Adds-refl s)
      | inl q ↦ elim (Result-cases (advance_managed_loop c e)) [
        | inr (x, t, a) ↦ rw (i, g, q, a) (Adds-refl s)
        | inl (l, a) ↦ elim (Option-cases (key_of e.event_id)) [
          | inl k ↦ rw (i, g, q, a, k) record { events = λ k r h. h; evaluations = λ k r h. h }
          | inr (k, n) ↦
              let bad =
                has_attempt_event j e s.events
                || not (is_key k)
                || not (is_optional_key e.attempt_id) in
              let fresh : select_event k s.events ≡ none = sym (ap (prior_of s) n) ∙ q in
              elim (Bool-cases bad) [
                | inl w ↦ rw (i, g, q, a, n, w) (Adds-refl s)
                | inr w ↦
                    rw (i, g, q, a, n, w)
                      record {
                        events = λ k' r h.
                            event_new
                              (record {
                                event_id = k;
                                run_id = j;
                                attempt_id = e.attempt_id;
                                kind = e.kind;
                                observed_at = e.observed_at;
                              })
                              s.events k' r fresh h;
                        evaluations = λ k r h. h;
                      }
              ]
        ]
      ]
    ]
  ]
]

evaluate_loop-Adds :
    (digest : StopPolicyFacts → String) (s : Store) (j id : String) (facts : StopPolicyFacts)
    (now : ℕ)
    → Adds s (evaluate_loop digest s j id facts now).0
unfolding evaluate_loop update_loop
evaluate_loop-Adds digest s j id facts now =
    elim (Option-cases (select_evaluation id s.evaluations)) [
      | inr (p, q) ↦ rw q (Adds-refl s)
      | inl q ↦ elim (Option-cases (get j s.loops)) [
        | inl g ↦ rw (q, g) (Adds-refl s)
        | inr (r, g) ↦
            elim (Option-cases (evaluate r.stop_policy facts r.state.consecutive_state)) [
              | inl v ↦ rw (q, g, v) (Adds-refl s)
              | inr ((result, state), v) ↦ elim (Bool-cases (is_key id)) [
                | inr b ↦ rw (q, g, v, b) (Adds-refl s)
                | inl b ↦
                    rw (q, g, v, b)
                      record {
                        events = λ k r h. h;
                        evaluations = λ k r h.
                            evaluation_new
                              (record {
                                evaluation_id = id;
                                run_id = j;
                                facts_digest = digest facts;
                                result = result;
                                state = state;
                                evaluated_at = now;
                              })
                              s.evaluations k r q h;
                      }
              ]
            ]
      ]
    ]

step-Adds : (s : Store) (x : Call) → Adds s (step s x)
unfolding step
step-Adds s (creates j p l) = create-Adds s j p l
step-Adds s (records j e) = record_event-Adds s j e
step-Adds s (evaluates j id facts digest now) = evaluate_loop-Adds (λ f. digest) s j id facts now

pub run-Adds : (s : Store) (xs : List Call) → Adds s (run s xs)
unfolding run
run-Adds s [] = Adds-refl s
run-Adds s (x ∷ xs) = Adds-trans (step-Adds s x) (run-Adds (step s x) xs)
