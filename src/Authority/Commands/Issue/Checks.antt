-- ===== src/Authority/Commands/Issue/Checks.antt =====
-- execution-authority.ts: what executeAuthorizeOperation checks before it writes an authorization.
use collab.Base.{
  ℕ, ◌+◌, Bool, true, false, not, ◌&&◌, ◌||◌, Option, none, some, List, [], ◌∷◌, String, ltb, ◌==◌,
  same, if◌then◌else◌, any, includes, Result, ok, err, never, refresh,
}
use collab.Base.Table.{Table, get}
use collab.Authority.Sessions.{
  RepositoryMode, mutating, inspect_only, Lease, SessionContext, first, epoch_of, connector_revoked,
}
use collab.Authority.Authorizations.{
  ConnectorRow, ScopeRow, ScopeOperationRow, Database, agree, ready_at,
}
use collab.Authority.Policy.{
  ConnectorAction, SensitiveOperation, mutate_repository, publish_git_reference,
  apply_approval_transition, operation_needs_mutation_lease, inspect_only_may_authorize,
  operation_connector,
}
use collab.Authority.Commands.{
  CommandError, authority, mutation_guard_lost, connector_scope_denied, connector_scope_stale,
  GuardRow, OverrideRow, Store,
}

-- The facts that were refreshed for the command, as far as they are read.
pub record Facts : Type 0 where
  pub current_head : Option String
  pub connector_epochs : Table ℕ
  pub connector_scopes : Table (List String)
  pub approval_subjects : Table String

abbrev pub is_text : Option String → String → Bool
is_text none t = false
is_text (some s) t = same s t

-- The head of the repository is the one that the operation expects, if it expects one.
unfoldable pub head_ok : Facts → SensitiveOperation → Bool
head_ok f (mutate_repository head) = is_text f.current_head head
head_ok f (publish_git_reference head _) = is_text f.current_head head
head_ok f _ = true

unfoldable pub approval_ok : Facts → SensitiveOperation → Bool
approval_ok f (apply_approval_transition subject digest) =
    is_text (get subject f.approval_subjects) digest
approval_ok f _ = true

abbrev pub holds : Option Lease → ℕ → Bool
holds none now = false
holds (some l) now = ltb now l.expires_at

unfoldable pub may_operate : SessionContext → ℕ → SensitiveOperation → Bool
may_operate s now op = if operation_needs_mutation_lease op then holds s.lease now else true

abbrev pub is_inspecting : RepositoryMode → Bool
is_inspecting inspect_only = true
is_inspecting mutating = false

unfoldable pub mode_ok : SessionContext → SensitiveOperation → Bool
mode_ok s op = not (is_inspecting s.repository_mode) || inspect_only_may_authorize op

-- SELECT count(DISTINCT g.id) … WHERE g.state = 'HELD' AND (g.run_id = ? OR o.colliding_run_id = ?)
unfoldable pub count_guards : String → List OverrideRow → List GuardRow → ℕ
count_guards run os [] = 0
count_guards run os (g ∷ gs) =
    let n = count_guards run os gs in
    if g.is_held
      && (same g.run_id run
          || any (λ (o : OverrideRow). same o.mutation_guard_id g.id && same o.colliding_run_id run)
              os)
    then n + 1
    else n

abbrev pub epoch_in : Table ℕ → String → Option ℕ
epoch_in t k = get k t

-- The connector is ready at the action's epoch, which the session and the facts hold as well.
unfoldable pub epoch_ok : Database → SessionContext → Facts → ConnectorAction → Bool
epoch_ok db s f a =
    ready_at (first (λ (c : ConnectorRow). same c.connector_id a.connector_id) db.connectors)
      (some a.connector_epoch)
    && (agree (epoch_of a.connector_id s.connector_epochs) (some a.connector_epoch)
        && agree (epoch_in f.connector_epochs a.connector_id) (some a.connector_epoch))

abbrev pub grants : List ScopeOperationRow → ConnectorAction → ScopeRow → Bool
grants os a s =
    same s.project_id a.project_id
    && (same s.connector_id a.connector_id
        && (s.connector_epoch == a.connector_epoch
            && (not s.is_revoked
                && any
                    (λ (o : ScopeOperationRow). same o.scope_id s.id && same o.operation a.mutation)
                    os)))

unfoldable pub scope_of : Database → ConnectorAction → Option ScopeRow
scope_of db a = first (grants db.scope_operations a) db.scopes

abbrev pub allowed_by : Option (List String) → String → Bool
allowed_by none op = false
allowed_by (some ops) op = includes ops op

-- The columns that a connector's operation fills.
pub record ConnectorColumns : Type 0 where
  pub id : String
  pub epoch : ℕ
  pub scope_id : String
  pub scope_revision : ℕ
  pub operation : String

abbrev pub granted :
    Facts → ConnectorAction → Option ScopeRow → Result CommandError (Option ConnectorColumns)
granted f a none = err connector_scope_denied never
granted f a (some s) =
    if allowed_by (get a.connector_id f.connector_scopes) a.mutation
    then ok (
        some record {
          id = a.connector_id;
          epoch = a.connector_epoch;
          scope_id = s.id;
          scope_revision = s.revision;
          operation = a.mutation;
        })
    else err connector_scope_stale refresh

abbrev pub check_action :
    Store
    → SessionContext
    → Facts
    → Option ConnectorAction
    → Result CommandError (Option ConnectorColumns)
check_action s x f none = ok none
check_action s x f (some a) =
    if not (count_guards x.run_id s.overrides s.guards == 1)
    then err mutation_guard_lost never
    else if not (epoch_ok s.database x f a)
    then err (authority connector_revoked) refresh
    else granted f a (scope_of s.database a)

-- The checks of the operation's connector, if it has one.
unfoldable pub check_connector :
    Store
    → SessionContext
    → Facts
    → SensitiveOperation
    → Result CommandError (Option ConnectorColumns)
check_connector s x f op = check_action s x f (operation_connector op)
