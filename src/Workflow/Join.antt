-- ===== src/Workflow/Join.antt =====
-- server/modules/workflows/joins.ts: the join of a parallel group, with `JoinNode` of
-- shared/contracts/workflow.ts and `JoinState` of shared/contracts/workflow-results.ts.
pub mod Occurrences
pub mod Invariant
pub mod Commits
mod Scenarios
use Prim.Native.Char.{code}
use collab.Base.{
  ℕ, ◌-◌, Bool, true, false, not, ◌&&◌, ◌||◌, Option, none, some, List, [], ◌∷◌, ◌++◌, String, leb,
  ◌==◌, if◌then◌else◌, length, includes, keep,
}
use collab.Base.Table.{Table, set}

pub data JoinPolicy : Type 0 where
  all any : JoinPolicy

pub data RemainderPolicy : Type 0 where
  cancel_remainder let_finish : RemainderPolicy

pub record JoinNode : Type 0 where
  pub branch_keys : List String
  pub policy : JoinPolicy
  pub accepted_result_keys : List String
  pub fallback_target_key : String
  pub remainder_policy : Option RemainderPolicy

-- The artifacts of a result are only passed along, and are left out.
pub record WorkflowStepResult : Type 0 where
  pub step_occurrence_id : String
  pub run_id : String
  pub key : String

pub record JoinState : Type 0 where
  pub committed_result_key : Option String
  pub terminal_branch_keys : List String
  pub results_by_branch : Option (Table WorkflowStepResult)

-- What `evaluateJoin` returns; its fourth field repeats `state.resultsByBranch`.
pub record Joined : Type 0 where
  pub state : JoinState
  pub transition : Option String
  pub cancel_keys : List String

is_digit : ℕ → Bool
is_digit c = leb b'0' c && leb c b'9'

-- /^\d*$/
unfoldable pub all_digits : String → Bool
unfolding is_digit
all_digits String.[] = true
all_digits (String.◌∷◌ c s) = is_digit (code c) && all_digits s

abbrev pub is_empty : String → Bool
is_empty String.[] = true
is_empty (String.◌∷◌ c s) = false

-- /^\d+$/
abbrev pub is_number : String → Bool
is_number s = not (is_empty s) && all_digits s

-- stepOccurrenceId.replace(/-\d+$/, ""): the leftmost match is the only one, since it ends the text.
unfoldable pub strip_occurrence : String → String
strip_occurrence String.[] = String.[]
strip_occurrence (String.◌∷◌ c s) =
    if code c == b'-' && is_number s then String.[] else String.◌∷◌ c (strip_occurrence s)

-- JavaScript takes the empty text for false.
abbrev pub is_committed : Option String → Bool
is_committed none = false
is_committed (some key) = not (is_empty key)

abbrev or_empty : Option (Table WorkflowStepResult) → Table WorkflowStepResult
or_empty none = []
or_empty (some t) = t

abbrev cancels : Option RemainderPolicy → Bool
cancels (some cancel_remainder) = true
cancels _ = false

pub unchanged : JoinState → Joined
unchanged s = record { state = s; transition = none; cancel_keys = [] }

-- The commit tests, after the branch is added to the state.
unfoldable pub decide : JoinNode → JoinState → String → Joined
decide join s result_key = elim join.policy [
  | any ↦
      if includes join.accepted_result_keys result_key
      then record {
        state = record s { committed_result_key = some result_key };
        transition = some result_key;
        cancel_keys =
            if cancels join.remainder_policy
            then keep (λ key. not (includes s.terminal_branch_keys key)) join.branch_keys
            else [];
      }
      else if length s.terminal_branch_keys == length join.branch_keys
      then record {
        state = record s { committed_result_key = some "FALLBACK" };
        transition = some join.fallback_target_key;
        cancel_keys = [];
      }
      else record { state = s; transition = none; cancel_keys = [] }
  | all ↦
      if length s.terminal_branch_keys == length join.branch_keys
      then record {
        state = record s { committed_result_key = some "ALL" };
        transition = some "ALL";
        cancel_keys = [];
      }
      else record { state = s; transition = none; cancel_keys = [] }
]

-- The state with one more terminal branch, and no commit.
abbrev pub with_branch : JoinState → String → WorkflowStepResult → JoinState
with_branch s branch_key branch = record {
  committed_result_key = none;
  terminal_branch_keys = s.terminal_branch_keys ++ branch_key ∷ [];
  results_by_branch = some (set branch_key branch (or_empty s.results_by_branch));
}

-- Whether the result is of a branch of this join that is not terminal yet.
abbrev pub is_new : JoinNode → JoinState → String → Bool
is_new join s branch_key =
    includes join.branch_keys branch_key && not (includes s.terminal_branch_keys branch_key)

unfoldable pub evaluate_join : JoinNode → JoinState → WorkflowStepResult → Joined
unfolding unchanged
evaluate_join join s branch =
    let branch_key = strip_occurrence branch.step_occurrence_id in
    if is_committed s.committed_result_key
    then unchanged s
    else if is_new join s branch_key
    then decide join (with_branch s branch_key branch) branch.key
    else unchanged s
