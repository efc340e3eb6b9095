-- ===== src/Workflow/Validation/Checks/Routed.antt =====
-- validation.ts: the steps of a definition that the validation reports nothing for.
use mathlib.Core.List.{Memᴰ}
use collab.Base.{
  ◌≡◌, ◌≤◌, ◌∷◌, ◌∙◌, sym, all, eq_iff, Bool-cases, length-le_of_Within, true, false, not, ◌⊎◌, inl,
  inr, none, some, List, [], String, same, arith, length, any, All, All-map, includes, distinct,
  keep,
}
use collab.Base.Table.{Table, get}
use collab.Workflow.Validation.{
  TeamRunTemplateVersion, NodeKind, agent_run, WorkflowNode, WorkflowDefinition, Transition, count,
  same_keys, by_key, outgoing, exact_transition,
}
use collab.Workflow.Validation.Nodes.{run_results, is_inspecting}
use collab.Workflow.Validation.Nodes.Runs.{
  by_result, exact_transition_lem, check_agent_run-nil, check_parallel_split-nil, run_checked,
  split_checked, Inspects, is_inspecting-Inspects, any_not-false, outgoing_of-outgoing,
}
use collab.Workflow.Validation.Checks.{joins_of, context_of}
use collab.Workflow.Validation.Checks.Total.{IsAccepted, IsAccepted-Clean}

exact_count :
    (ts : List Transition) (from key : String)
    → exact_transition (outgoing [] ts) from key none ≡ true
    → count (by_result from key none) ts ≡ 1
exact_count ts from key h = ground (arith, exact_transition_lem ts from key none)

all-includes :
    (right left : List String) (k : String)
    → all (includes right) left ≡ true
    → includes left k ≡ true
    → includes right k ≡ true
all-includes right [] k h m = cc
all-includes right (x ∷ left) k h m = ground (arith, eq_iff x k, all-includes right left k)

-- Lists that have the same keys: neither has a key twice, and each key is in both or in neither.
same_keys-includes :
    (left right : List String)
    → same_keys left right ≡ true
    → (distinct left ≡ true)
      × (distinct right ≡ true)
      × ((k : String) → includes left k ≡ includes right k)
unfolding same_keys
same_keys-includes left right h = (
  ground arith,
  ground arith,
  λ k. elim (Bool-cases (includes left k)) [
    | inl m ↦ m ∙ sym (all-includes right left k (ground arith) m)
    | inr n ↦ elim (Bool-cases (includes right k)) [
      | inr o ↦ n ∙ sym o
      | inl m ↦
          let fits = length-le_of_Within (k ∷ left) right (ground arith) λ j i.
            elim (Bool-cases (same k j)) [
              | inl e ↦ rw (sym ((eq_iff k j).0 e)) m
              | inr e ↦ all-includes right left j (ground arith) (ground arith)
            ] in
          absurd (ground arith)
    ]
  ],
)

-- In a definition without diagnostics, an Agent Run step has a template with exactly its own result
-- keys, none of them twice. Unless the step is a branch of a join, each of its results selects exactly
-- one transition. Every transition that leaves it is by one of its results or by RUN_FAILED or
-- RUN_CANCELLED.
pub run_routed :
    (d : WorkflowDefinition) (templates : Table TeamRunTemplateVersion) (n : WorkflowNode)
    (template_id : String) (keys : List String)
    → IsAccepted d templates
    → Memᴰ n d.nodes
    → n.kind ≡ agent_run template_id keys
    → ((t : TeamRunTemplateVersion) × (get template_id templates ≡ some t)
        × (distinct keys ≡ true)
        × (distinct t.result_keys ≡ true)
        × ((k : String) → includes keys k ≡ includes t.result_keys k))
      × ((any (λ j. includes j.1.branch_keys n.key) (joins_of d.nodes) ≡ true)
          ⊎ All (λ k. count (by_result n.key k none) d.transitions ≡ 1) keys)
      × (any
            (λ t. not (includes (run_results keys) t.result_key))
            (keep (λ t. same t.from n.key) d.transitions)
          ≡ false)
unfolding context_of
run_routed d templates n template_id keys h m kind =
    let (r, f, clean) = IsAccepted-Clean d templates h in
    let c = context_of d templates in
    let (i, nothing) = run_checked c d.nodes n template_id keys clean.nodes m kind in
    let (t, found, same_results, routes, foreign) =
      check_agent_run-nil c i n.key template_id keys nothing in
    let (once, once', same_set) = same_keys-includes keys t.result_keys same_results in
    (
      (t, found, once, once', same_set),
      elim routes [
        | inl branch ↦ inl branch
        | inr each ↦ inr (All-map _ _ keys (λ k e. exact_count d.transitions n.key k e) each)
      ],
      rw (outgoing_of-outgoing d.transitions n.key) at foreign,
    )

-- In a definition without diagnostics, the branches of a parallel group are distinct, are no more
-- than the definition's bound, and are Agent Runs whose templates only inspect the repository;
-- exactly one join has the same branches; and no transition leaves the group.
pub split_isolated :
    (d : WorkflowDefinition) (templates : Table TeamRunTemplateVersion) (n : WorkflowNode)
    (keys : List String)
    → IsAccepted d templates
    → Memᴰ n d.nodes
    → n.kind ≡ NodeKind.parallel_split keys
    → (count (λ j. same_keys j.1.branch_keys keys) (joins_of d.nodes) ≡ 1)
      × (distinct keys ≡ true)
      × (length keys ≤ d.maximum_parallel_branches)
      × All (Inspects (by_key [] d.nodes) templates) keys
      × (length (keep (λ t. same t.from n.key) d.transitions) ≡ 0)
unfolding context_of
split_isolated d templates n keys h m kind =
    let (r, f, clean) = IsAccepted-Clean d templates h in
    let c = context_of d templates in
    let (i, nothing) = split_checked c d.nodes n keys clean.nodes m kind in
    let (joined, once, few, quiet, out) = check_parallel_split-nil c i n.key keys nothing in
    (
      joined,
      once,
      few,
      All-map _ _ keys (λ k e. is_inspecting-Inspects c k e)
          (any_not-false (is_inspecting c) keys quiet),
      rw (outgoing_of-outgoing d.transitions n.key) at out,
    )
