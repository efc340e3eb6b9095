-- ===== src/Workflow/Validation/Nodes/Runs.antt =====
-- validation.ts: what the checks of Agent Runs, Result Routers and parallel groups let through, in
-- terms of the transitions of the definition.
use mathlib.Core.List.{append-nil, append_assoc, Memᴰ}
use mathlib.Core.Path.{subst}
use collab.Base.{
  ℕ, suc, ◌≡◌, refl, sym, ◌∙◌, ap, ◌≤◌, Bool, true, false, not, ◌&&◌, ◌⊎◌, inl, inr, Option, none,
  some, List, [], ◌∷◌, ◌++◌, String, same, arith, length, ◌==◌, any, All, All-mem, All-map,
  nil_of_append, includes, distinct, keep, Bool-cases, Option-cases, eq_iff,
}
use collab.Base.Table.{Table, get, set, get-set}
use collab.Workflow.Validation.{
  RepositoryMode, mutating, inspect_only, TeamRunTemplateVersion, NodeKind, agent_run, WorkflowNode,
  Transition, Diagnostic, report, gather, gather_entries, count, same_keys, outgoing, outgoing_of,
  has_target, exact_transition, result_transition_required,
}
use collab.Workflow.Validation
use collab.Workflow.Validation.Transitions.{has_pair}
use collab.Workflow.Validation.Nodes.{
  Context, has_foreign_edge, is_branch, run_results, check_agent_run, is_inspecting,
  check_parallel_split, check_kind, node_diagnostics, template_of_kind, is_inspect_mode,
}

abbrev leaves : String → Transition → Bool
leaves k t = same t.from k

-- What `outgoing` gives for a key: the transitions that leave it, in their order.
outgoing_lem :
    (m : Table (List Transition)) (ts : List Transition) (k : String)
    → outgoing_of (outgoing m ts) k ≡ outgoing_of m k ++ keep (leaves k) ts
unfolding outgoing
outgoing_lem m [] k = sym (append-nil (outgoing_of m k))
outgoing_lem m (t ∷ ts) k = ground (
  arith,
  outgoing_lem (set t.from (outgoing_of m t.from ++ t ∷ []) m) ts k,
  get-set t.from k (outgoing_of m t.from ++ t ∷ []) m,
  eq_iff t.from k,
  append_assoc (outgoing_of m k) (t ∷ []) (keep (leaves k) ts),
)

pub outgoing_of-outgoing :
    (ts : List Transition) (k : String)
    → outgoing_of (outgoing [] ts) k ≡ keep (λ t. same t.from k) ts
unfolding get
outgoing_of-outgoing ts k = outgoing_lem [] ts k

count-keep :
    (p q : Transition → Bool) (ts : List Transition)
    → count p (keep q ts) ≡ count (λ t. q t && p t) ts
count-keep p q [] = refl
count-keep p q (t ∷ ts) = ground (arith, count-keep p q ts)

count-congr :
    (p q : Transition → Bool) (ts : List Transition)
    → ((t : Transition) → p t ≡ q t)
    → count p ts ≡ count q ts
count-congr p q [] h = refl
count-congr p q (t ∷ ts) h = ground (arith, h t, count-congr p q ts h)

-- The transitions by a result, and to a target if one is given.
abbrev pub by_result : String → String → Option String → Transition → Bool
by_result from key to t = has_pair from key t && has_target to t

-- The test of `exactTransition` counts the transitions of the definition.
pub exact_transition_lem :
    (ts : List Transition) (from key : String) (to : Option String)
    → exact_transition (outgoing [] ts) from key to ≡ (count (by_result from key to) ts == 1)
unfolding exact_transition
exact_transition_lem ts from key to =
    let p = λ (t : Transition). same t.result_key key && has_target to t in
    rw (outgoing_of-outgoing ts from) (
      ap (λ n. n == 1)
        (count-keep p (leaves from) ts
          ∙ count-congr _ (by_result from key to) ts (λ t. ground arith)))

pub gather-nil {ℓ} :
    {A : Type ℓ} (f : A → List Diagnostic) (xs : List A) → gather f xs ≡ [] → All (λ x. f x ≡ []) xs
gather-nil f [] h = tt
gather-nil f (x ∷ xs) h = let (one, rest) = nil_of_append (f x) _ h in (one, gather-nil f xs rest)

-- A loop that reports nothing reports nothing of any element.
pub gather_entries-nil {ℓ} :
    {A : Type ℓ} (f : ℕ → A → List Diagnostic) (i : ℕ) (xs : List A)
    → gather_entries f i xs ≡ []
    → All (λ x. (j : ℕ) × (f j x ≡ [])) xs
gather_entries-nil f i [] h = tt
gather_entries-nil f i (x ∷ xs) h =
    let (one, rest) = nil_of_append (f i x) _ h in ((i, one), gather_entries-nil f (suc i) xs rest)

-- What an Agent Run without diagnostics has.
pub check_agent_run-nil :
    (c : Context) (i : ℕ) (key template_id : String) (keys : List String)
    → check_agent_run c i key template_id keys ≡ []
    → (t : TeamRunTemplateVersion) × (get template_id c.templates ≡ some t)
      × (same_keys keys t.result_keys ≡ true)
      × ((is_branch c key ≡ true) ⊎ All (λ k. exact_transition c.edges key k none ≡ true) keys)
      × (has_foreign_edge c key (includes (run_results keys)) ≡ false)
unfolding check_agent_run
check_agent_run-nil c i key template_id keys h = elim (Option-cases (get template_id c.templates)) [
  | inl missing ↦ absurd (ground arith)
  | inr (t, found) ↦ elim (Bool-cases (is_branch c key)) [
    | inl branch ↦ (t, found, ground arith, inl branch, ground arith)
    | inr free ↦
        let each : gather
              (λ k.
                report (not (exact_transition c.edges key k none))
                  (Validation.node_field i "resultKeys") result_transition_required)
              keys
            ≡ [] =
          ground arith in
        (
          t,
          found,
          ground arith,
          inr (All-map _ _ keys (λ k e. ground arith) (gather-nil _ keys each)),
          ground arith,
        )
  ]
]

-- What a parallel group without diagnostics has.
pub check_parallel_split-nil :
    (c : Context) (i : ℕ) (key : String) (branch_keys : List String)
    → check_parallel_split c i key branch_keys ≡ []
    → (count (λ j. same_keys j.1.branch_keys branch_keys) c.joins ≡ 1)
      × (distinct branch_keys ≡ true)
      × (length branch_keys ≤ c.maximum_parallel_branches)
      × (any (λ k. not (is_inspecting c k)) branch_keys ≡ false)
      × (length (outgoing_of c.edges key) ≡ 0)
unfolding check_parallel_split
check_parallel_split-nil c i key branch_keys h =
    (ground arith, ground arith, ground arith, ground arith, ground arith)

node_checked :
    (c : Context) (ns : List WorkflowNode) (n : WorkflowNode) (kind : NodeKind)
    → node_diagnostics c ns ≡ []
    → Memᴰ n ns
    → n.kind ≡ kind
    → (i : ℕ) × (check_kind c i n.key kind ≡ [])
unfolding node_diagnostics
node_checked c ns n kind h m e =
    let (i, nothing) = All-mem _ ns n (gather_entries-nil _ 0 ns h) m in
    (i, subst (λ k. check_kind c i n.key k ≡ []) e nothing)

-- Each Agent Run of a definition whose nodes are reported for nothing passed its check.
pub run_checked :
    (c : Context) (ns : List WorkflowNode) (n : WorkflowNode) (template_id : String)
    (keys : List String)
    → node_diagnostics c ns ≡ []
    → Memᴰ n ns
    → n.kind ≡ agent_run template_id keys
    → (i : ℕ) × (check_agent_run c i n.key template_id keys ≡ [])
unfolding check_kind
run_checked c ns n template_id keys = node_checked c ns n (agent_run template_id keys)

pub split_checked :
    (c : Context) (ns : List WorkflowNode) (n : WorkflowNode) (keys : List String)
    → node_diagnostics c ns ≡ []
    → Memᴰ n ns
    → n.kind ≡ NodeKind.parallel_split keys
    → (i : ℕ) × (check_parallel_split c i n.key keys ≡ [])
unfolding check_kind
split_checked c ns n keys = node_checked c ns n (NodeKind.parallel_split keys)

-- The node of a key is an Agent Run whose template is there and only inspects.
abbrev pub Inspects : Table WorkflowNode → Table TeamRunTemplateVersion → String → Type 0
Inspects nodes_by_key templates key =
    (n : WorkflowNode) × (template_id : String) × (results : List String)
    × (t : TeamRunTemplateVersion) × (get key nodes_by_key ≡ some n)
    × (n.kind ≡ agent_run template_id results)
    × (get template_id templates ≡ some t)
    × (t.repository_mode ≡ inspect_only)

RunOf-cases :
    (k : NodeKind)
    → ((template_id : String) × (results : List String) × (k ≡ agent_run template_id results))
      ⊎ (template_of_kind k ≡ none)
RunOf-cases (agent_run t ks) = inl (t, ks, refl)
RunOf-cases NodeKind.start = inr refl
RunOf-cases (NodeKind.human_decision _ _) = inr refl
RunOf-cases (NodeKind.result_router _) = inr refl
RunOf-cases (NodeKind.parallel_split _) = inr refl
RunOf-cases (NodeKind.join _) = inr refl
RunOf-cases (NodeKind.terminal _) = inr refl

mode_of : (m : RepositoryMode) → is_inspect_mode m ≡ true → m ≡ inspect_only
mode_of inspect_only h = refl
mode_of mutating h = cc

pub is_inspecting-Inspects :
    (c : Context) (key : String)
    → is_inspecting c key ≡ true
    → Inspects c.nodes_by_key c.templates key
unfolding is_inspecting
is_inspecting-Inspects c key h = elim (Option-cases (get key c.nodes_by_key)) [
  | inl missing ↦ absurd (ground arith)
  | inr (n, found) ↦ elim (RunOf-cases n.kind) [
    | inr other ↦ absurd (ground arith)
    | inl (template_id, results, kind) ↦ elim (Option-cases (get template_id c.templates)) [
      | inl stale ↦ absurd (ground arith)
      | inr (t, at) ↦
          (n, template_id, results, t, found, kind, at, mode_of t.repository_mode (ground arith))
    ]
  ]
]

pub any_not-false :
    (p : String → Bool) (xs : List String)
    → any (λ k. not (p k)) xs ≡ false
    → All (λ k. p k ≡ true) xs
any_not-false p [] h = tt
any_not-false p (x ∷ xs) h = (ground arith, any_not-false p xs (ground arith))
