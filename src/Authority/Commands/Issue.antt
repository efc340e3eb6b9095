-- ===== src/Authority/Commands/Issue.antt =====
-- execution-authority.ts: the authorization of an operation (executeAuthorizeOperation). The new
-- identifier and the digest of the operation under its session are arguments; identifiers, digests
-- and names keep the lengths of the columns.
pub mod Checks
use collab.Base.{
  ℕ, ◌+◌, Bool, true, false, not, ◌&&◌, ◌||◌, Option, none, some, List, [], ◌∷◌, String, leb, ltb,
  ◌==◌, same, if◌then◌else◌, any, includes, min, Result, ok, err, never, refresh, explicit_resume,
  same_input,
}
use collab.Base.Table.{Table, get}
use collab.Authority.Sessions.{
  RepositoryMode, mutating, inspect_only, Lease, SessionContext, first, epoch_of,
  require_session_fence, AuthorityError, runner_epoch_changed, connector_revoked,
  mutation_lease_lost,
}
use collab.Authority.Authorizations.{
  AuthorizationState, OperationKind, Authorization, ConnectorRow, ScopeRow, ScopeOperationRow,
  Database, select, agree, ready_at,
}
use collab.Authority.Policy.{
  ConnectorAction, SensitiveOperation, mutate_repository, publish_git_reference, mutate_github,
  mutate_outline, apply_approval_transition, execute_local_gate, operation_needs_mutation_lease,
  inspect_only_may_authorize, operation_connector,
}
use collab.Authority.Commands.{
  CommandError, authority, storage_failed, repository_mode_denied, repository_revision_stale,
  mutation_guard_lost, connector_scope_denied, connector_scope_stale, approval_stale,
  operation_already_authorized, authorize_operation, authorized, GuardRow, OverrideRow, Store,
  SessionCommand, Answer, refuse, stored_result, replayed_or, persist, is_session_runner,
}
use collab.Authority.Commands.Issue.Checks.{
  Facts, is_text, head_ok, approval_ok, holds, may_operate, is_inspecting, mode_ok, count_guards,
  epoch_in, epoch_ok, grants, scope_of, allowed_by, ConnectorColumns, granted, check_action,
  check_connector,
}

-- operationColumns: the resource and the digest of the action; the expected revision is not read again.
abbrev pub resource_of : SensitiveOperation → String
resource_of (mutate_repository _) = "REPOSITORY"
resource_of (publish_git_reference _ ref) = ref
resource_of (mutate_github a) = a.resource_id
resource_of (mutate_outline a) = a.resource_id
resource_of (apply_approval_transition subject _) = subject
resource_of (execute_local_gate evaluation _ _) = evaluation

abbrev pub action_digest_of : SensitiveOperation → Option String
action_digest_of (mutate_github a) = some a.action_digest
action_digest_of (mutate_outline a) = some a.action_digest
action_digest_of (execute_local_gate _ _ fingerprint) = some fingerprint
action_digest_of _ = none

abbrev pub kind_of : SensitiveOperation → OperationKind
kind_of (mutate_repository _) = OperationKind.mutate_repository
kind_of (publish_git_reference _ _) = OperationKind.publish_git_reference
kind_of (mutate_github _) = OperationKind.mutate_github
kind_of (mutate_outline _) = OperationKind.mutate_outline
kind_of (apply_approval_transition _ _) = OperationKind.apply_approval_transition
kind_of (execute_local_gate _ _ _) = OperationKind.execute_local_gate

abbrev pub map_columns {ℓ} :
    {A : Type ℓ} → (ConnectorColumns → A) → Option ConnectorColumns → Option A
map_columns f none = none
map_columns f (some c) = some (f c)

abbrev lease_end : Option Lease → ℕ → ℕ
lease_end none end = end
lease_end (some l) end = l.expires_at

-- Ten seconds, and no longer than the session or its lease.
unfoldable pub expiry : SessionContext → ℕ → ℕ
expiry x now = min (now + 10) (min x.expires_at (lease_end x.lease x.expires_at))

abbrev lease_fence : Option Lease → Option ℕ
lease_fence none = none
lease_fence (some l) = some l.fence

-- The new row of operation_authorizations.
unfoldable pub new_authorization :
    SessionContext
    → ℕ
    → String
    → String
    → SensitiveOperation
    → Option ConnectorColumns
    → Authorization
new_authorization x now id digest op columns = record {
  id = id;
  session_id = x.id;
  session_fence = x.fence;
  mutation_lease_fence = lease_fence x.lease;
  operation_kind = kind_of op;
  operation_digest = digest;
  resource_id = some (resource_of op);
  connector_id = map_columns (λ c. c.id) columns;
  connector_epoch = map_columns (λ c. c.epoch) columns;
  connector_scope_id = map_columns (λ c. c.scope_id) columns;
  connector_scope_revision = map_columns (λ c. c.scope_revision) columns;
  connector_operation = map_columns (λ c. c.operation) columns;
  action_digest = action_digest_of op;
  state = AuthorizationState.issued;
  revision = 1;
  issued_at = now;
  expires_at = expiry x now;
  consumed_at = none;
}

unfoldable pub is_authorized : String → List Authorization → Bool
is_authorized digest rows = any (λ (a : Authorization). same a.operation_digest digest) rows

abbrev is_taken : Option Authorization → Bool
is_taken none = false
is_taken (some _) = true

-- The INSERT, whose constraints are that the identifier is new and that the authorization expires
-- after it was issued.
unfoldable pub insert_authorization : Store → SessionCommand → Authorization → Answer
insert_authorization s c a =
    if is_taken (select a.id s.database.authorizations) || leb a.expires_at a.issued_at
    then refuse s storage_failed same_input
    else persist authorize_operation c.base (authorized a.id a.operation_digest a.expires_at)
        (record s {
          database = record s.database { authorizations = a ∷ s.database.authorizations };
        })

abbrev issue :
    Store
    → ℕ
    → SessionCommand
    → SensitiveOperation
    → Facts
    → String
    → String
    → SessionContext
    → Result CommandError (Option ConnectorColumns)
    → Answer
issue s now c op f id digest x (err e r) = refuse s e r
issue s now c op f id digest x (ok columns) =
    if not (approval_ok f op)
    then refuse s approval_stale refresh
    else if is_authorized digest s.database.authorizations
    then refuse s operation_already_authorized never
    else insert_authorization s c (new_authorization x now id digest op columns)

abbrev authorize_in :
    Store
    → ℕ
    → SessionCommand
    → SensitiveOperation
    → Facts
    → String
    → String
    → Result AuthorityError SessionContext
    → Answer
authorize_in s now c op f id digest (err e r) = refuse s (authority e) r
authorize_in s now c op f id digest (ok x) =
    if not (is_session_runner c.base.actor x)
    then refuse s (authority runner_epoch_changed) refresh
    else if not (mode_ok x op)
    then refuse s repository_mode_denied never
    else if not (may_operate x now op)
    then refuse s (authority mutation_lease_lost) explicit_resume
    else if not (head_ok f op)
    then refuse s repository_revision_stale refresh
    else issue s now c op f id digest x (check_connector s x f op)

-- executeAuthorizeOperation
unfoldable pub execute_authorize_operation :
    Store → ℕ → SessionCommand → SensitiveOperation → Facts → String → String → Answer
execute_authorize_operation s now c op f id digest =
    replayed_or s (stored_result s.results authorize_operation c.base) (
      authorize_in s now c op f id digest
        (require_session_fence s.database.tables c.session_id c.session_fence now))
