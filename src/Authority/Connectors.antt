-- ===== src/Authority/Connectors.antt =====
-- server/modules/execution-authority/fencing.ts: the connector's check before it calls its provider.
pub mod Authorized
mod Scenarios
use collab.Base.{
  ℕ, ◌+◌, ◌≤◌, ◌<◌, Bool, true, false, not, ◌&&◌, ◌||◌, ◌≡◌, Option, none, some, List, [], ◌∷◌,
  String, leb, ◌==◌, same, if◌then◌else◌, Result, ok, err, never, refl, ◌∙◌, Option-cases, arith,
  inl, inr,
}
use mathlib.Core.Path.{subst}
use collab.Authority.Sessions.{
  SessionContext, first, read_session, require_session_fence, AuthorityError, authorization_invalid,
}
use collab.Authority.Authorizations.{
  Authorization, OperationKind, mutate_github, mutate_outline, Database, Request, ScopeRow, select,
  is_issued, agree, consume,
}
use collab.Authority.Authorizations.Consumption.{Stands, consumed-Stands}

pub data Provider : Type 0 where
  github outline : Provider

-- A row of connector_provider_bindings.
pub record BindingRow : Type 0 where
  pub connector_id : String
  pub provider : Provider

-- What the connector is about to do.
pub record Action : Type 0 where
  pub authorization_id : String
  pub authorization_proof : String
  pub project_id : String
  pub connector_id : String
  pub connector_epoch : ℕ
  pub reference : String
  pub operation : String
  pub action_digest : String

-- `ConnectorOperationRow`: the LEFT JOINs give a missing project or provider.
pub record OperationRow : Type 0 where
  pub authorization : Authorization
  pub project_id : Option String
  pub provider : Option Provider

abbrev pub project_of : Option ScopeRow → Option String
project_of none = none
project_of (some s) = some s.project_id

abbrev pub provider_of : Option BindingRow → Option Provider
provider_of none = none
provider_of (some b) = some b.provider

abbrev pub scope_for : Option String → List ScopeRow → Option ScopeRow
scope_for none ss = none
scope_for (some id) ss = first (λ (s : ScopeRow). same s.id id) ss

abbrev pub binding_for : Option String → List BindingRow → Option BindingRow
binding_for none bs = none
binding_for (some id) bs = first (λ (b : BindingRow). same b.connector_id id) bs

abbrev joined : Database → List BindingRow → Option Authorization → Option OperationRow
joined db bs none = none
joined db bs (some a) = some record {
  authorization = a;
  project_id = project_of (scope_for a.connector_scope_id db.scopes);
  provider = provider_of (binding_for a.connector_id bs);
}

unfoldable pub load : Database → List BindingRow → String → Option OperationRow
load db bs id = joined db bs (select id db.authorizations)

-- `a === b` where a missing value differs from every text.
abbrev pub is_text : Option String → String → Bool
is_text none t = false
is_text (some s) t = same s t

-- row.operation_kind === `MUTATE_${row.provider ?? "UNBOUND"}`
unfoldable pub is_bound_kind : OperationKind → Option Provider → Bool
is_bound_kind mutate_github (some github) = true
is_bound_kind mutate_outline (some outline) = true
is_bound_kind _ _ = false

unfoldable pub matches : OperationRow → ℕ → Action → Bool
matches r now x =
    is_issued r.authorization.state
    && not (leb r.authorization.expires_at now)
    && same r.authorization.operation_digest x.authorization_proof
    && is_text r.project_id x.project_id
    && is_text r.authorization.connector_id x.connector_id
    && agree r.authorization.connector_epoch (some x.connector_epoch)
    && is_text r.authorization.resource_id x.reference
    && is_text r.authorization.connector_operation x.operation
    && is_text r.authorization.action_digest x.action_digest
    && is_bound_kind r.authorization.operation_kind r.provider

pub record Verified : Type 0 where
  pub actor_id : String
  pub row : OperationRow

abbrev in_session :
    OperationRow → Result AuthorityError SessionContext → Result AuthorityError Verified
in_session r (err c e) = err c e
in_session r (ok s) = ok record { actor_id = s.attempt_id; row = r }

abbrev checked : Database → ℕ → ℕ → Action → Option OperationRow → Result AuthorityError Verified
checked db now after x none = err authorization_invalid never
checked db now after x (some r) =
    if matches r now x
    then in_session r (
        require_session_fence db.tables r.authorization.session_id r.authorization.session_fence
          after)
    else err authorization_invalid never

-- The clock is read twice: `now` for the authorization, then `after` for the session.
unfoldable pub verify : Database → List BindingRow → ℕ → ℕ → Action → Result AuthorityError Verified
verify db bs now after x = checked db now after x (load db bs x.authorization_id)

abbrev pub request_for : Action → Verified → Request
request_for x v = record {
  authorization_id = x.authorization_id;
  operation_digest = x.authorization_proof;
  session_id = v.row.authorization.session_id;
  session_fence = v.row.authorization.session_fence;
}

abbrev consuming :
    Database → ℕ → Action → Result AuthorityError Verified → Database × Result AuthorityError ℕ
consuming db later x (err c e) = (db, err c e)
consuming db later x (ok v) = consume db later (request_for x v)

-- The consumption reads the clock once more, `later`. Its result is only that it succeeded.
unfoldable pub consume_action :
    Database → List BindingRow → ℕ → ℕ → ℕ → Action → Database × Result AuthorityError ℕ
consume_action db bs now after later x = consuming db later x (verify db bs now after x)
