-- ===== src/Workflow/StopPolicy/Streaks.antt =====
-- stop-policy.ts: a single "CONSECUTIVE_MATCHES" over the evaluations of a managed loop, and one inside
-- another.
use collab.Base.{
  ℕ, suc, ◌≤◌, true, ◌≡◌, ◌≢◌, ◌↔◌, refl, Option, some, List, [], ◌∷◌, arith, leb, if◌then◌else◌,
}
use collab.Workflow.StopPolicy.{
  PredicateResult, is_true, is_false, unknown, StopPolicy, Count, whole, consecutive_matches,
  StopPolicyFacts, ConsecutiveMatchState, streak, evaluate, on_result, and_then,
}
use collab.Workflow.StopPolicy.Kleene.{is_plain, kleene, evaluate-kleene}

-- The loop evaluates its policy once for each observation, the newest first here, and stores the
-- counter in between.
unfoldable pub replay :
    StopPolicy → List StopPolicyFacts → ConsecutiveMatchState → Option ConsecutiveMatchState
replay p [] s = some s
replay p (f ∷ older) s = and_then (replay p older s) λ t. on_result (evaluate p f t) λ e. e.1

abbrev lengthen : PredicateResult → ℕ → ℕ
lengthen is_true n = suc n
lengthen is_false n = 0
lengthen unknown n = n

-- How many times in a row the condition held of late; unknown results do not count either way.
unfoldable pub run_length : StopPolicy → List StopPolicyFacts → ℕ
run_length c [] = 0
run_length c (f ∷ older) = lengthen (kleene c f) (run_length c older)

abbrev pub start : ConsecutiveMatchState
start = record { matches = 0 }

abbrev reached : PredicateResult → ℕ → ℕ → PredicateResult
reached is_true n k = if leb n k then is_true else is_false
reached is_false n k = is_false
reached unknown n k = unknown

step_streak :
    (c : StopPolicy) (n k : ℕ) (f : StopPolicyFacts)
    → is_plain c ≡ true
    → 1 ≤ n
    → evaluate (consecutive_matches c (whole n)) f (record { matches = k })
      ≡ some (reached (kleene c f) n (suc k), record { matches = lengthen (kleene c f) k })
unfolding evaluate streak
step_streak c n k f h b = ground (arith, evaluate-kleene c f start h)

replay-run_length :
    (c : StopPolicy) (n : ℕ) (older : List StopPolicyFacts)
    → is_plain c ≡ true
    → 1 ≤ n
    → replay (consecutive_matches c (whole n)) older start
      ≡ some (record { matches = run_length c older })
unfolding replay run_length
replay-run_length c n [] h b = refl
replay-run_length c n (f ∷ older) h b =
    rw (replay-run_length c n older h b) (rw (step_streak c n (run_length c older) f h b))

-- For a policy that is one "CONSECUTIVE_MATCHES", whose count is at least 1 and which has no other
-- below its condition, and a counter that starts at 0: after any observations the policy is TRUE exactly
-- if its condition holds now and has held in at least `count` of the latest observations with no FALSE
-- between them. Policies with two "CONSECUTIVE_MATCHES" are not covered.
pub consecutive_reached :
    (c : StopPolicy) (n : ℕ) (f : StopPolicyFacts) (older : List StopPolicyFacts)
    (s : ConsecutiveMatchState) (r : PredicateResult) (t : ConsecutiveMatchState)
    → is_plain c ≡ true
    → 1 ≤ n
    → replay (consecutive_matches c (whole n)) older start ≡ some s
    → evaluate (consecutive_matches c (whole n)) f s ≡ some (r, t)
    → (r ≡ is_true) ↔ ((kleene c f ≡ is_true) × (n ≤ run_length c (f ∷ older)))
unfolding run_length
consecutive_reached c n f older s r t h b past now =
    ground (arith, replay-run_length c n older h b, step_streak c n (run_length c older) f h b)

-- A "CONSECUTIVE_MATCHES" of two or more, inside another one, starts from 0 in each evaluation: the
-- outer one is never TRUE, whatever is observed.
nested-never_true :
    (c : StopPolicy) (n : ℕ) (outer : Count) (f : StopPolicyFacts) (s : ConsecutiveMatchState)
    → 2 ≤ n
    → (r : PredicateResult) (t : ConsecutiveMatchState)
    → evaluate (consecutive_matches (consecutive_matches c (whole n)) outer) f s ≡ some (r, t)
    → r ≢ is_true
unfolding evaluate streak
nested-never_true c n outer f s b r t e = ground arith
