-- ===== src/Workflow/StopPolicy.antt =====
-- server/modules/workflows/stop-policy.ts and shared/contracts/stop-policies.ts: when a managed loop
-- stops. A thrown `STOP_POLICY_BOUND_INVALID` is `none`.
pub mod Kleene
pub mod Streaks
mod Scenarios
use collab.Base.{
  ℕ, ◌+◌, Bool, true, false, Option, none, some, List, [], ◌∷◌, String, leb, if◌then◌else◌,
}
use collab.Base.Lists
use collab.Base.Table.{Table, get}

-- "TRUE", "FALSE" and "UNKNOWN".
pub data PredicateResult : Type 0 where
  is_true is_false unknown : PredicateResult

pub data AgentOutcome : Type 0 where
  continue goal_achieved escalate : AgentOutcome

-- A number as JavaScript has it, of which only natural numbers are told apart: `other` is a negative
-- number, a fraction, NaN or an infinity below the bound.
pub data Count : Type 0 where
  whole : ℕ → Count
  other : Count

mutual
  pub data StopPolicy : Type 0 where
    all : Conditions → StopPolicy
    any : Conditions → StopPolicy
    not : StopPolicy → StopPolicy
    source : String → StopPolicy
    agent_outcome : AgentOutcome → StopPolicy
    consecutive_matches : StopPolicy → Count → StopPolicy

  pub data Conditions : Type 0 where
    nil : Conditions
    cons : StopPolicy → Conditions → Conditions

pub record StopPolicyFacts : Type 0 where
  pub sources : Table PredicateResult
  pub outcome : Option AgentOutcome

pub record ConsecutiveMatchState : Type 0 where
  pub matches : ℕ

abbrev pub is : PredicateResult → PredicateResult → Bool
is is_true is_true = true
is is_false is_false = true
is unknown unknown = true
is _ _ = false

abbrev pub same_outcome : AgentOutcome → AgentOutcome → Bool
same_outcome continue continue = true
same_outcome goal_achieved goal_achieved = true
same_outcome escalate escalate = true
same_outcome _ _ = false

unfoldable pub and : List PredicateResult → PredicateResult
and results =
    if Lists.any (is is_false) results
    then is_false
    else if Lists.any (is unknown) results
    then unknown
    else is_true

unfoldable pub or : List PredicateResult → PredicateResult
or results =
    if Lists.any (is is_true) results
    then is_true
    else if Lists.any (is unknown) results
    then unknown
    else is_false

abbrev pub negate : PredicateResult → PredicateResult
negate unknown = unknown
negate is_true = is_false
negate is_false = is_true

-- Number.isInteger(count) && count >= 1
abbrev pub is_bound : Count → Bool
is_bound (whole n) = leb 1 n
is_bound other = false

abbrev pub or_unknown : Option PredicateResult → PredicateResult
or_unknown none = unknown
or_unknown (some r) = r

unfoldable pub source_result : StopPolicyFacts → String → PredicateResult
source_result facts key = or_unknown (get key facts.sources)

unfoldable pub outcome_result : Option AgentOutcome → AgentOutcome → PredicateResult
outcome_result none value = unknown
outcome_result (some o) value = if same_outcome o value then is_true else is_false

abbrev pub Evaluated : Type 0
Evaluated = PredicateResult × ConsecutiveMatchState

abbrev count_reached : Count → ℕ → Bool
count_reached (whole n) matches = leb n matches
count_reached other matches = false

-- The end of the "CONSECUTIVE_MATCHES" case, from the result of its condition.
unfoldable pub streak : Count → ConsecutiveMatchState → PredicateResult → Evaluated
streak count state unknown = (unknown, state)
streak count state is_true = (
  if count_reached count (state.matches + 1) then is_true else is_false,
  record { matches = state.matches + 1 },
)
streak count state is_false =
    (if count_reached count 0 then is_true else is_false, record { matches = 0 })

abbrev pub on_result {ℓ κ} : {A : Type ℓ} {B : Type κ} → Option A → (A → B) → Option B
on_result none f = none
on_result (some a) f = some (f a)

abbrev pub and_then {ℓ κ} : {A : Type ℓ} {B : Type κ} → Option A → (A → Option B) → Option B
and_then none f = none
and_then (some a) f = f a

unfoldable mutual
  pub evaluate : StopPolicy → StopPolicyFacts → ConsecutiveMatchState → Option Evaluated
  evaluate (source key) facts state = some (source_result facts key, state)
  evaluate (agent_outcome value) facts state = some (outcome_result facts.outcome value, state)
  evaluate (not condition) facts state =
      on_result (evaluate condition facts state) λ e. (negate e.0, e.1)
  evaluate (all conditions) facts state =
      on_result (evaluate_each conditions facts state) λ e. (and e.0, e.1)
  evaluate (any conditions) facts state =
      on_result (evaluate_each conditions facts state) λ e. (or e.0, e.1)
  evaluate (consecutive_matches condition count) facts state =
      let inner = evaluate condition facts (record { matches = 0 }) in
      if is_bound count then on_result inner (λ e. streak count state e.0) else none

  -- The loop over `policy.conditions`: every condition is evaluated, each in the state that the one
  -- before it left.
  pub evaluate_each :
      Conditions
      → StopPolicyFacts
      → ConsecutiveMatchState
      → Option (List PredicateResult × ConsecutiveMatchState)
  evaluate_each nil facts state = some ([], state)
  evaluate_each (cons c cs) facts state =
      and_then (evaluate c facts state)
        λ e. on_result (evaluate_each cs facts e.1) λ rest. (e.0 ∷ rest.0, rest.1)
