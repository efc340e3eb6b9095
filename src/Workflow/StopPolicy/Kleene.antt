-- ===== src/Workflow/StopPolicy/Kleene.antt =====
-- stop-policy.ts against strong three-valued logic: duality, and what more facts can change.
use collab.Base.{
  Bool, true, false, ◌&&◌, ◌≡◌, refl, ap, ◌∙◌, ◌≢◌, ◌⊎◌, inl, inr, Option, none, some, List, [],
  ◌∷◌, String, arith, Option-cases,
}
use collab.Workflow.StopPolicy.{
  PredicateResult, is_true, is_false, unknown, AgentOutcome, StopPolicy, all, any, not, source,
  agent_outcome, consecutive_matches, Conditions, nil, cons, StopPolicyFacts, ConsecutiveMatchState,
  and, or, negate, source_result, outcome_result, evaluate, evaluate_each,
}

mutual
  pub negated : Conditions → Conditions
  negated nil = nil
  negated (cons c cs) = cons (not c) (negated cs)

abbrev pub flip : List PredicateResult → List PredicateResult
flip [] = []
flip (r ∷ rs) = negate r ∷ flip rs

and-flip : (rs : List PredicateResult) → or (flip rs) ≡ negate (and rs)
unfolding and or
and-flip [] = refl
and-flip (is_true ∷ rs) = ground (arith, and-flip rs)
and-flip (is_false ∷ rs) = ground (arith, and-flip rs)
and-flip (unknown ∷ rs) = ground (arith, and-flip rs)

-- What `evaluate_each` gives on negated conditions.
flipped :
    Option (List PredicateResult × ConsecutiveMatchState)
    → Option (List PredicateResult × ConsecutiveMatchState)
flipped none = none
flipped (some (rs, s)) = some (flip rs, s)

evaluate_each-negated :
    (cs : Conditions) (f : StopPolicyFacts) (s : ConsecutiveMatchState)
    → evaluate_each (negated cs) f s ≡ flipped (evaluate_each cs f s)
unfolding evaluate evaluate_each flipped negated
evaluate_each-negated nil f s = refl
evaluate_each-negated (cons c cs) f s = elim (Option-cases (evaluate c f s)) [
  | inl e ↦ ground arith
  | inr (a, e) ↦ ground (arith, evaluate_each-negated cs f a.1)
]

-- De Morgan: a negated "ALL" is the "ANY" of the negated conditions, in the result, in the counter
-- that is left, and in when an exception is thrown.
not-all :
    (cs : Conditions) (f : StopPolicyFacts) (s : ConsecutiveMatchState)
    → evaluate (not (all cs)) f s ≡ evaluate (any (negated cs)) f s
unfolding evaluate flipped
not-all cs f s = rw (evaluate_each-negated cs f s) (elim (Option-cases (evaluate_each cs f s)) [
  | inl e ↦ rw (e, flipped)
  | inr (a, e) ↦ ground (arith, and-flip a.0)
])

-- Strong three-valued logic: the lesser and the greater under is_false < unknown < is_true.
abbrev pub meet : PredicateResult → PredicateResult → PredicateResult
meet is_true r = r
meet is_false r = is_false
meet unknown is_false = is_false
meet unknown r = unknown

abbrev pub join : PredicateResult → PredicateResult → PredicateResult
join is_false r = r
join is_true r = is_true
join unknown is_true = is_true
join unknown r = unknown

unfoldable mutual
  pub kleene : StopPolicy → StopPolicyFacts → PredicateResult
  kleene (all cs) f = kleene_all cs f
  kleene (any cs) f = kleene_any cs f
  kleene (not c) f = negate (kleene c f)
  kleene (source key) f = source_result f key
  kleene (agent_outcome value) f = outcome_result f.outcome value
  kleene (consecutive_matches c count) f = unknown

  pub kleene_all : Conditions → StopPolicyFacts → PredicateResult
  kleene_all nil f = is_true
  kleene_all (cons c cs) f = meet (kleene c f) (kleene_all cs f)

  pub kleene_any : Conditions → StopPolicyFacts → PredicateResult
  kleene_any nil f = is_false
  kleene_any (cons c cs) f = join (kleene c f) (kleene_any cs f)

-- No "CONSECUTIVE_MATCHES" occurs.
unfoldable mutual
  pub is_plain : StopPolicy → Bool
  is_plain (all cs) = are_plain cs
  is_plain (any cs) = are_plain cs
  is_plain (not c) = is_plain c
  is_plain (source key) = true
  is_plain (agent_outcome value) = true
  is_plain (consecutive_matches c count) = false

  pub are_plain : Conditions → Bool
  are_plain nil = true
  are_plain (cons c cs) = is_plain c && are_plain cs

and-nil : and [] ≡ is_true
unfolding and
and-nil = refl

or-nil : or [] ≡ is_false
unfolding or
or-nil = refl

and-cons : (r : PredicateResult) (rs : List PredicateResult) → and (r ∷ rs) ≡ meet r (and rs)
unfolding and
and-cons r rs = ground arith

or-cons : (r : PredicateResult) (rs : List PredicateResult) → or (r ∷ rs) ≡ join r (or rs)
unfolding or
or-cons r rs = ground arith

abbrev Each : Conditions → StopPolicyFacts → ConsecutiveMatchState → Type 0
Each cs f s =
    (rs : List PredicateResult) × (evaluate_each cs f s ≡ some (rs, s))
    × (and rs ≡ kleene_all cs f)
    × (or rs ≡ kleene_any cs f)

mutual
  unfolding evaluate kleene is_plain

  plain_one :
      (p : StopPolicy) (f : StopPolicyFacts) (s : ConsecutiveMatchState)
      → is_plain p ≡ true
      → evaluate p f s ≡ some (kleene p f, s)
  plain_one (all cs) f s h = ground (arith, plain-Each cs f s h)
  plain_one (any cs) f s h = ground (arith, plain-Each cs f s h)
  plain_one (not c) f s h = ground (arith, plain_one c f s h)
  plain_one (source key) f s h = refl
  plain_one (agent_outcome value) f s h = refl
  plain_one (consecutive_matches c count) f s h = cc

  plain-Each :
      (cs : Conditions) (f : StopPolicyFacts) (s : ConsecutiveMatchState)
      → are_plain cs ≡ true
      → Each cs f s
  plain-Each nil f s h = ([], refl, and-nil, or-nil)
  plain-Each (cons c cs) f s h =
      let one = plain_one c f s (ground arith) in
      let (rs, e, p, q) = plain-Each cs f s (ground arith) in
      (
        kleene c f ∷ rs,
        ground arith,
        and-cons (kleene c f) rs ∙ ap (meet (kleene c f)) p,
        or-cons (kleene c f) rs ∙ ap (join (kleene c f)) q,
      )

-- Evaluation refines three-valued logic: a policy with no "CONSECUTIVE_MATCHES" has the value that
-- minimum, maximum and negation give it, and leaves the counter alone.
pub evaluate-kleene :
    (p : StopPolicy) (f : StopPolicyFacts) (s : ConsecutiveMatchState)
    → is_plain p ≡ true
    → evaluate p f s ≡ some (kleene p f, s)
evaluate-kleene p f s h = plain_one p f s h

-- The second result is the first, or the first was not known.
abbrev pub Refines : PredicateResult → PredicateResult → Type 0
Refines r r' = (r ≡ unknown) ⊎ (r ≡ r')

-- `g` has all the facts of `f`, and maybe more.
pub record Extends (f g : StopPolicyFacts) : Type 0 where
  pub sources : (key : String) → Refines (source_result f key) (source_result g key)
  pub outcomes : (f.outcome ≡ none) ⊎ (f.outcome ≡ g.outcome)

meet-Refines :
    (a b a' b' : PredicateResult) → Refines a a' → Refines b b' → Refines (meet a b) (meet a' b')
meet-Refines a b a' b' h k = ground arith

join-Refines :
    (a b a' b' : PredicateResult) → Refines a a' → Refines b b' → Refines (join a b) (join a' b')
join-Refines a b a' b' h k = ground arith

negate-Refines : (a a' : PredicateResult) → Refines a a' → Refines (negate a) (negate a')
negate-Refines a a' h = ground arith

outcome-Refines :
    (o o' : Option AgentOutcome) (v : AgentOutcome)
    → (o ≡ none) ⊎ (o ≡ o')
    → Refines (outcome_result o v) (outcome_result o' v)
unfolding outcome_result
outcome-Refines o o' v (inl e) = inl (rw e)
outcome-Refines o o' v (inr e) = inr (rw e)

mutual
  unfolding kleene

  mono_one :
      (p : StopPolicy) (f g : StopPolicyFacts) → Extends f g → Refines (kleene p f) (kleene p g)
  mono_one (all cs) f g x = mono_all cs f g x
  mono_one (any cs) f g x = mono_any cs f g x
  mono_one (not c) f g x = negate-Refines _ _ (mono_one c f g x)
  mono_one (source key) f g x = x.sources key
  mono_one (agent_outcome value) f g x = outcome-Refines _ _ value x.outcomes
  mono_one (consecutive_matches c count) f g x = inl refl

  mono_all :
      (cs : Conditions) (f g : StopPolicyFacts)
      → Extends f g
      → Refines (kleene_all cs f) (kleene_all cs g)
  mono_all nil f g x = inr refl
  mono_all (cons c cs) f g x = meet-Refines _ _ _ _ (mono_one c f g x) (mono_all cs f g x)

  mono_any :
      (cs : Conditions) (f g : StopPolicyFacts)
      → Extends f g
      → Refines (kleene_any cs f) (kleene_any cs g)
  mono_any nil f g x = inr refl
  mono_any (cons c cs) f g x = join-Refines _ _ _ _ (mono_one c f g x) (mono_any cs f g x)

-- More facts never change a decision: a policy with no "CONSECUTIVE_MATCHES" that is TRUE or FALSE on
-- some facts is so on any facts that extend them, at any counter.
evaluate_mono :
    (p : StopPolicy) (f g : StopPolicyFacts) (s : ConsecutiveMatchState) (r : PredicateResult)
    → is_plain p ≡ true
    → Extends f g
    → evaluate p f s ≡ some (r, s)
    → r ≢ unknown
    → evaluate p g s ≡ some (r, s)
evaluate_mono p f g s r h x e n =
    ground (arith, evaluate-kleene p f s h, evaluate-kleene p g s h, mono_one p f g x)
