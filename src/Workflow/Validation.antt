-- ===== src/Workflow/Validation.antt =====
-- server/modules/workflows/validation.ts: what a workflow definition is checked for, with the nodes
-- and the definition of shared/contracts/workflow.ts. Numbers are those of the schema, which lets
-- only integers through. The message of a diagnostic is a fixed text and is left out.
pub mod Transitions
pub mod Nodes
pub mod Graph
pub mod Cycles
pub mod Checks
mod Scenarios
use collab.Base.{
  ℕ, suc, Bool, true, false, ◌&&◌, Option, none, some, List, [], ◌∷◌, ◌++◌, String, same, length,
  ◌==◌, if◌then◌else◌, all, includes, distinct,
}
use collab.Base.Table.{Table, get, set}
use collab.Workflow.Join.{JoinNode}

pub data RequiredRole : Type 0 where
  owner member : RequiredRole

pub data RepositoryMode : Type 0 where
  mutating inspect_only : RepositoryMode

-- The parts of a Run Template version that are read here.
pub record TeamRunTemplateVersion : Type 0 where
  pub result_keys : List String
  pub repository_mode : RepositoryMode

pub data TerminalOutcome : Type 0 where
  completed failed cancelled : TerminalOutcome

pub record ResultRouterNode : Type 0 where
  pub source_step_key : String
  pub routes : Table String
  pub fallback_target_key : String

pub data NodeKind : Type 0 where
  start : NodeKind
  agent_run : String → List String → NodeKind
  human_decision : List String → Option RequiredRole → NodeKind
  result_router : ResultRouterNode → NodeKind
  parallel_split : List String → NodeKind
  join : JoinNode → NodeKind
  terminal : TerminalOutcome → NodeKind

pub record WorkflowNode : Type 0 where
  pub key : String
  pub kind : NodeKind

pub record Transition : Type 0 where
  pub from : String
  pub result_key : String
  pub to : String

-- The inputs are not read by the validation.
pub record WorkflowDefinition : Type 0 where
  pub nodes : List WorkflowNode
  pub transitions : List Transition
  pub maximum_run_count : ℕ
  pub cycle_bounds : Table ℕ
  pub maximum_parallel_branches : ℕ
  pub maximum_concurrency : ℕ
  pub absolute_deadline_ms : ℕ

pub data Code : Type 0 where
  node_key_duplicate start_required terminal_required bound_invalid : Code
  transition_target_invalid transition_duplicate transition_ambiguous : Code
  start_transition_required transition_incompatible run_template_version_stale : Code
  result_incompatible result_transition_required decision_transition_required : Code
  result_source_invalid result_route_required result_route_missing : Code
  result_fallback_required parallel_join_required parallel_mutation_forbidden : Code
  join_branches_invalid join_invalid join_result_transition_required : Code
  join_fallback_required join_all_transition_required : Code
  node_unreachable terminal_path_required cycle_bound_invalid cycle_bound_required : Code

-- The paths: `nodes`, `bounds`, `nodes[i]` with a field, `transitions[i]` and those of the cycles.
pub data DiagnosticPath : Type 0 where
  nodes bounds cycle_bounds : DiagnosticPath
  node : ℕ → DiagnosticPath
  node_field : ℕ → String → DiagnosticPath
  node_route : ℕ → String → DiagnosticPath
  transition : ℕ → DiagnosticPath
  cycle_bound : String → DiagnosticPath

pub record Diagnostic : Type 0 where
  pub path : DiagnosticPath
  pub code : Code

-- if (wrong) diagnostics.push(diagnostic(path, code, …))
abbrev pub report : Bool → DiagnosticPath → Code → List Diagnostic
report wrong path code = if wrong then record { path = path; code = code } ∷ [] else []

-- A loop over a collection that pushes diagnostics.
abbrev pub gather {ℓ} : {A : Type ℓ} → (A → List Diagnostic) → List A → List Diagnostic
gather f [] = []
gather f (x ∷ xs) = f x ++ gather f xs

-- The same with the index of the element: `for (const [index, x] of xs.entries())`.
abbrev pub gather_entries {ℓ} :
    {A : Type ℓ} → (ℕ → A → List Diagnostic) → ℕ → List A → List Diagnostic
gather_entries f i [] = []
gather_entries f i (x ∷ xs) = f i x ++ gather_entries f (suc i) xs

-- The number of elements that meet a test.
abbrev pub count {ℓ} : {A : Type ℓ} → (A → Bool) → List A → ℕ
count p [] = 0
count p (x ∷ xs) = if p x then suc (count p xs) else count p xs

unfoldable pub same_keys : List String → List String → Bool
same_keys left right =
    distinct left && distinct right && (length left == length right) && all (includes right) left

abbrev pub is_start : WorkflowNode → Bool
is_start n = elim n.kind [ start ↦ true | _ ↦ false ]

abbrev pub is_terminal : WorkflowNode → Bool
is_terminal n = elim n.kind [ terminal _ ↦ true | _ ↦ false ]

abbrev pub has_node : Table WorkflowNode → String → Bool
has_node m k = elim (get k m) [ none ↦ false | some _ ↦ true ]

-- byKey: the first node of a key is kept.
abbrev pub add_node : Table WorkflowNode → WorkflowNode → Table WorkflowNode
add_node m n = if has_node m n.key then m else set n.key n m

unfoldable pub by_key : Table WorkflowNode → List WorkflowNode → Table WorkflowNode
by_key m [] = m
by_key m (n ∷ ns) = by_key (add_node m n) ns

-- The loop that fills `byKey` and reports a key that it has.
unfoldable pub key_diagnostics : Table WorkflowNode → ℕ → List WorkflowNode → List Diagnostic
key_diagnostics m i [] = []
key_diagnostics m i (n ∷ ns) =
    report (has_node m n.key) (node_field i "key") node_key_duplicate
    ++ key_diagnostics (add_node m n) (suc i) ns

-- outgoing.get(from) ?? []
abbrev pub outgoing_of : Table (List Transition) → String → List Transition
outgoing_of m k = elim (get k m) [ none ↦ [] | some ts ↦ ts ]

-- outgoing.set(from, [...(outgoing.get(from) ?? []), transition]), for each transition.
unfoldable pub outgoing : Table (List Transition) → List Transition → Table (List Transition)
outgoing m [] = m
outgoing m (t ∷ ts) = outgoing (set t.from (outgoing_of m t.from ++ t ∷ []) m) ts

-- to === undefined || edge.to === to
abbrev pub has_target : Option String → Transition → Bool
has_target none e = true
has_target (some to) e = same e.to to

unfoldable pub exact_transition : Table (List Transition) → String → String → Option String → Bool
exact_transition m from result_key to =
    count (λ e. same e.result_key result_key && has_target to e) (outgoing_of m from) == 1
