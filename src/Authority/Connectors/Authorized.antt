-- ===== src/Authority/Connectors/Authorized.antt =====
-- fencing.ts: what has been authorized when a connector calls its provider.
use collab.Base.{
  ℕ, ◌<◌, true, ◌≡◌, Option, none, some, List, String, same, ok, refl, Option-cases, arith, inl,
  inr,
}
use mathlib.Core.Path.{subst}
use collab.Authority.Sessions.{SessionContext, first, read_session, require_session_fence}
use collab.Authority.Authorizations.{
  Authorization, OperationKind, mutate_github, mutate_outline, Database, Request, ScopeRow, select,
  agree,
}
use collab.Authority.Authorizations.Consumption.{Stands, consumed-Stands}
use collab.Base.{ap, eq_iff, ◌⊎◌}
use collab.Authority.Connectors.{
  Provider, github, outline, BindingRow, Action, project_of, provider_of, scope_for, binding_for,
  load, is_text, is_bound_kind, matches, verify, consume_action,
}

-- The authorization of the action, in the terms of the tables: the scope's row names the project, and
-- the binding's row the provider.
pub record Names (db : Database) (bs : List BindingRow) (now : ℕ) (x : Action) (a : Authorization)
    : Type 0 where
  pub row : select x.authorization_id db.authorizations ≡ some a
  pub end : now < a.expires_at
  pub proof : a.operation_digest ≡ x.authorization_proof
  pub connector_id : a.connector_id ≡ some x.connector_id
  pub connector_epoch : a.connector_epoch ≡ some x.connector_epoch
  pub resource_id : a.resource_id ≡ some x.reference
  pub operation : a.connector_operation ≡ some x.operation
  pub action_digest : a.action_digest ≡ some x.action_digest
  pub project :
      (s : ScopeRow) × (scope_for a.connector_scope_id db.scopes ≡ some s)
      × (s.project_id ≡ x.project_id)
  pub provider :
      (b : BindingRow) × (first (λ (r : BindingRow). same r.connector_id x.connector_id) bs
        ≡ some b)
      × (((b.provider ≡ github) × (a.operation_kind ≡ mutate_github))
          ⊎ ((b.provider ≡ outline) × (a.operation_kind ≡ mutate_outline)))

is_text-some : (o : Option String) (t : String) → is_text o t ≡ true → o ≡ some t
is_text-some none t h = absurd (ground arith)
is_text-some (some s) t h = ap some ((eq_iff s t).0 h)

agree-some : (o : Option ℕ) (n : ℕ) → agree o (some n) ≡ true → o ≡ some n
agree-some none n h = absurd (ground arith)
agree-some (some m) n h = ap some (ground arith)

project_named :
    (o : Option ScopeRow) (t : String)
    → is_text (project_of o) t ≡ true
    → (s : ScopeRow) × (o ≡ some s) × (s.project_id ≡ t)
project_named none t h = absurd (ground arith)
project_named (some s) t h = (s, refl, (eq_iff s.project_id t).0 h)

bound_of :
    (k : OperationKind) (p : Provider)
    → is_bound_kind k (some p) ≡ true
    → ((p ≡ github) × (k ≡ mutate_github)) ⊎ ((p ≡ outline) × (k ≡ mutate_outline))
unfolding is_bound_kind
bound_of mutate_github github h = inl (refl, refl)
bound_of mutate_outline outline h = inr (refl, refl)
bound_of _ _ h = absurd (ground arith)

bound_kind :
    (k : OperationKind) (o : Option BindingRow)
    → is_bound_kind k (provider_of o) ≡ true
    → (b : BindingRow) × (o ≡ some b)
      × (((b.provider ≡ github) × (k ≡ mutate_github))
          ⊎ ((b.provider ≡ outline) × (k ≡ mutate_outline)))
unfolding is_bound_kind
bound_kind k none h = absurd (ground arith)
bound_kind k (some b) h = (b, refl, bound_of k b.provider h)

matches-Names :
    (db : Database) (bs : List BindingRow) (now : ℕ) (x : Action) (a : Authorization)
    → select x.authorization_id db.authorizations ≡ some a
    → matches
        record {
          authorization = a;
          project_id = project_of (scope_for a.connector_scope_id db.scopes);
          provider = provider_of (binding_for a.connector_id bs);
        }
        now
        x
      ≡ true
    → Names db bs now x a
unfolding matches
matches-Names db bs now x a e h =
    let named = is_text-some a.connector_id x.connector_id (ground arith) in
    record {
      row = e;
      end = ground arith;
      proof = (eq_iff a.operation_digest x.authorization_proof).0 (ground arith);
      connector_id = named;
      connector_epoch = agree-some a.connector_epoch x.connector_epoch (ground arith);
      resource_id = is_text-some a.resource_id x.reference (ground arith);
      operation = is_text-some a.connector_operation x.operation (ground arith);
      action_digest = is_text-some a.action_digest x.action_digest (ground arith);
      project =
          project_named (scope_for a.connector_scope_id db.scopes) x.project_id (ground arith);
      provider =
          bound_kind a.operation_kind
            (first (λ (r : BindingRow). same r.connector_id x.connector_id) bs)
            (subst (λ c. is_bound_kind a.operation_kind (provider_of (binding_for c bs)) ≡ true)
              named (ground arith));
    }

some_eq {ℓ} : {A : Type ℓ} {o : Option A} {a b : A} → o ≡ some a → o ≡ some b → a ≡ b
some_eq p q = ground arith

-- A connector's provider is called only for an action that was authorized as it is: the authorization
-- of that identifier, unexpired when it was read, carries the action's proof and names its connector,
-- epoch, resource, operation and action digest; its scope is of the action's project; and its kind is
-- the one of the provider that the connector is bound to. The authorization's session had ended neither
-- by itself nor by its deadline, and everything that the consumption depends on stands.
pub consume_action-Stands :
    (db : Database) (bs : List BindingRow) (now after later : ℕ) (x : Action) (t : ℕ)
    → (consume_action db bs now after later x).1 ≡ ok t
    → (a : Authorization) × (s : SessionContext) × Names db bs now x a
      × (after < s.expires_at)
      × (after < s.deadline_at)
      × Stands db later
          (record {
            authorization_id = x.authorization_id;
            operation_digest = x.authorization_proof;
            session_id = a.session_id;
            session_fence = a.session_fence;
          })
          a
          s
unfolding consume_action verify load require_session_fence
consume_action-Stands db bs now after later x t h =
    elim (Option-cases (select x.authorization_id db.authorizations)) [
      | inl e ↦ ground arith
      | inr (a, e) ↦ elim (Option-cases (read_session db.tables a.session_id)) [
        | inl f ↦ ground arith
        | inr (s, f) ↦
            let q : Request = record {
              authorization_id = x.authorization_id;
              operation_digest = x.authorization_proof;
              session_id = a.session_id;
              session_fence = a.session_fence;
            } in
            let (b, s', st, w) = consumed-Stands db later q t (ground arith) in
            let one_row : b ≡ a = some_eq st.row e in
            let one_session : s' ≡ s = some_eq st.session f in
            let stands : Stands db later q a s =
              subst (λ z. Stands db later q z s) one_row
                (subst (λ z. Stands db later q b z) one_session st) in
            (a, s, matches-Names db bs now x a e (ground arith), ground arith, ground arith, stands)
      ]
    ]
