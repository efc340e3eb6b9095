-- ===== src/Workflow/ManagedLoop/Budget.antt =====
-- managed-loops.ts: the bounds of a loop.
use mathlib.Core.Path.{subst}
use collab.Base.{
  ℕ, ◌≤◌, false, not, ◌||◌, ◌≡◌, refl, ◌∙◌, none, some, List, [], ◌∷◌, String, same, ok,
  Result-cases, Bool-cases, Option-cases, inl, inr, arith, eq_iff,
}
use collab.Base.Table.{Table, get, set, get-set}
use collab.Workflow.StopPolicy.{StopPolicy, StopPolicyFacts, evaluate}
use collab.Workflow.ManagedLoop.{
  read, is_storable, create, is_event_invalid, key_of, prior_of, has_attempt_event, is_key,
  is_optional_key, advance_managed_loop, update_loop, record_event, select_evaluation,
  evaluate_loop,
}
use collab.Workflow.ManagedLoop.Records.{ManagedLoopState, ManagedLoopEvent, LoopRow, Store}

pub data Call : Type 0 where
  creates : String → StopPolicy → ManagedLoopState → Call
  records : String → ManagedLoopEvent → Call
  -- With the digest of the facts.
  evaluates : String → String → StopPolicyFacts → String → ℕ → Call

unfoldable pub step : Store → Call → Store
step s (creates run p l) = (create s run p l).0
step s (records run e) = (record_event s run e).0
step s (evaluates run id facts digest now) = (evaluate_loop (λ f. digest) s run id facts now).0

unfoldable pub run : Store → List Call → Store
run s [] = s
run s (x ∷ xs) = run (step s x) xs

-- The policy and the bounds of a loop are those of its creation, and attempts are only added, within
-- the budget.
pub record Follows (r r' : LoopRow) : Type 0 where
  pub policy : r'.stop_policy ≡ r.stop_policy
  pub maximum : r'.state.maximum_attempts ≡ r.state.maximum_attempts
  pub deadline : r'.state.absolute_deadline_at ≡ r.state.absolute_deadline_at
  pub adds : r.state.attempts_created ≤ r'.state.attempts_created
  pub within :
      r.state.attempts_created ≤ r.state.maximum_attempts
      → r'.state.attempts_created ≤ r'.state.maximum_attempts

Follows-refl : (r : LoopRow) → Follows r r
Follows-refl r = record {
  policy = refl;
  maximum = refl;
  deadline = refl;
  adds = omega arith;
  within = λ h. h;
}

Follows-trans : {a b c : LoopRow} → Follows a b → Follows b c → Follows a c
Follows-trans {a} {b} {c} x y = record {
  policy = y.policy ∙ x.policy;
  maximum = y.maximum ∙ x.maximum;
  deadline = y.deadline ∙ x.deadline;
  adds = omega (arith, x.adds, y.adds);
  within = λ h. y.within (x.within h);
}

advance_lem :
    (c : ManagedLoopState) (e : ManagedLoopEvent) {l : ManagedLoopState}
    → advance_managed_loop c e ≡ ok l
    → (l.maximum_attempts ≡ c.maximum_attempts)
      × (l.absolute_deadline_at ≡ c.absolute_deadline_at)
      × (c.attempts_created ≤ l.attempts_created)
      × (l.attempts_created ≤ c.maximum_attempts)
unfolding advance_managed_loop
advance_lem c e h = (ground arith, ground arith, ground arith, ground arith)

-- The loop under a key goes on as a follower of itself.
abbrev pub Kept : Table LoopRow → Table LoopRow → Type 0
Kept m n =
    (k : String) (r : LoopRow)
    → get k m ≡ some r
    → (r' : LoopRow) × (get k n ≡ some r') × Follows r r'

Kept-refl : (m : Table LoopRow) → Kept m m
Kept-refl m k r h = (r, h, Follows-refl r)

updated-Kept :
    (m : Table LoopRow) (j : String) (r q : LoopRow)
    → get j m ≡ some r
    → Follows r q
    → Kept m (set j q m)
updated-Kept m j r q h f k x g = elim (Bool-cases (same j k)) [
  | inl e ↦
      let one : r ≡ x = ground (arith, eq_iff j k) in
      (q, ground (arith, get-set j k q m), subst (λ z. Follows z q) one f)
  | inr e ↦ (x, ground (arith, get-set j k q m), Follows-refl x)
]

new-Kept : (m : Table LoopRow) (j : String) (q : LoopRow) → get j m ≡ none → Kept m (set j q m)
new-Kept m j q h k x g =
    (x, ground (arith, get-set j k q m, eq_iff j k, absent k x g), Follows-refl x)
  where
    absent : (i : String) (y : LoopRow) → get i m ≡ some y → same j i ≡ false
    absent i y p = elim (Bool-cases (same j i)) [
      | inr e ↦ e
      | inl e ↦
          let gone : get i m ≡ none = subst (λ z. get z m ≡ none) ((eq_iff j i).0 e) h in
          ground arith
    ]

create-Kept :
    (s : Store) (j : String) (p : StopPolicy) (l : ManagedLoopState)
    → Kept s.loops (create s j p l).0.loops
unfolding create read
create-Kept s j p l = elim (Option-cases (get j s.loops)) [
  | inr (r, e) ↦ rw e (Kept-refl s.loops)
  | inl e ↦ elim (Bool-cases (is_storable j l)) [
    | inl b ↦ rw (e, b) (new-Kept s.loops j (record { stop_policy = p; state = l }) e)
    | inr b ↦ rw (e, b) (Kept-refl s.loops)
  ]
]

updates-Kept :
    (s : Store) (j : String) (r : LoopRow) (l : ManagedLoopState)
    → get j s.loops ≡ some r
    → Follows r (record r { state = l })
    → Kept s.loops (update_loop s j l).loops
unfolding update_loop
updates-Kept s j r l h f = rw h (updated-Kept s.loops j r (record r { state = l }) h f)

record_event-Kept :
    (s : Store) (j : String) (e : ManagedLoopEvent) → Kept s.loops (record_event s j e).0.loops
unfolding record_event read
record_event-Kept s j e = elim (Bool-cases (is_event_invalid e)) [
  | inl i ↦ rw i (Kept-refl s.loops)
  | inr i ↦ elim (Option-cases (get j s.loops)) [
    | inl g ↦ rw (i, g) (Kept-refl s.loops)
    | inr (r, g) ↦ elim (Option-cases (prior_of s (key_of e.event_id))) [
      | inr (p, q) ↦ rw (i, g, q) (Kept-refl s.loops)
      | inl q ↦ elim (Result-cases (advance_managed_loop r.state e)) [
        | inr (c, t, a) ↦ rw (i, g, q, a) (Kept-refl s.loops)
        | inl (l, a) ↦
            let b = advance_lem r.state e a in
            let kept = updates-Kept s j r l g record {
              policy = refl;
              maximum = b.0;
              deadline = b.1;
              adds = b.2;
              within = λ h. omega (arith, b);
            } in
            elim (Option-cases (key_of e.event_id)) [
              | inl k ↦ rw (i, g, q, a, k) kept
              | inr (k, n) ↦
                  let bad =
                    has_attempt_event j e s.events
                    || not (is_key k)
                    || not (is_optional_key e.attempt_id) in
                  elim (Bool-cases bad) [
                    | inl w ↦ rw (i, g, q, a, n, w) (Kept-refl s.loops)
                    | inr w ↦ rw (i, g, q, a, n, w) kept
                  ]
            ]
      ]
    ]
  ]
]

evaluate_loop-Kept :
    (s : Store) (j id : String) (facts : StopPolicyFacts) (digest : String) (now : ℕ)
    → Kept s.loops (evaluate_loop (λ f. digest) s j id facts now).0.loops
unfolding evaluate_loop
evaluate_loop-Kept s j id facts digest now =
    elim (Option-cases (select_evaluation id s.evaluations)) [
      | inr (p, q) ↦ rw q (Kept-refl s.loops)
      | inl q ↦ elim (Option-cases (get j s.loops)) [
        | inl g ↦ rw (q, g) (Kept-refl s.loops)
        | inr (r, g) ↦
            elim (Option-cases (evaluate r.stop_policy facts r.state.consecutive_state)) [
              | inl v ↦ rw (q, g, v) (Kept-refl s.loops)
              | inr ((result, state), v) ↦ elim (Bool-cases (is_key id)) [
                | inr b ↦ rw (q, g, v, b) (Kept-refl s.loops)
                | inl b ↦
                    rw (q, g, v, b)
                      (updates-Kept s j r (record r.state { consecutive_state = state }) g
                        record {
                          policy = refl;
                          maximum = refl;
                          deadline = refl;
                          adds = omega arith;
                          within = λ h. h;
                        })
              ]
            ]
      ]
    ]

step-Kept : (s : Store) (x : Call) → Kept s.loops (step s x).loops
unfolding step
step-Kept s (creates j p l) = create-Kept s j p l
step-Kept s (records j e) = record_event-Kept s j e
step-Kept s (evaluates j id facts digest now) = evaluate_loop-Kept s j id facts digest now

-- Whatever is called, a loop keeps the stop policy, the attempt budget and the deadline of its creation;
-- attempts are never taken back, and a loop within its budget stays within it.
pub run-Kept : (s : Store) (xs : List Call) → Kept s.loops (run s xs).loops
unfolding run
run-Kept s [] k r h = Kept-refl s.loops k r h
run-Kept s (x ∷ xs) k r h =
    let (q, g, f) = step-Kept s x k r h in
    let (p, i, e) = run-Kept (step s x) xs k q g in (p, i, Follows-trans f e)
