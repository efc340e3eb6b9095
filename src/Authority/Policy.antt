-- ===== src/Authority/Policy.antt =====
-- server/modules/execution-authority/policy.ts: which principals are active, which commands an actor may
-- execute, and what an operation needs. A revoked runner and an inactive member are found in the tables.
use collab.Base.{
  ℕ, Bool, true, false, ◌||◌, Option, none, some, List, String, ◌==◌, same, if◌then◌else◌, Result,
  ok, err, refresh,
}
use collab.Authority.Sessions.{first, AuthorityError, runner_epoch_changed, member_revoked}
use collab.Authority.Authorizations.{RunnerRow}

-- `AuthenticatedActor`, without the proof of a member's session.
pub data Actor : Type 0 where
  member : String → String → Actor
  scheduler : String → Option String → Actor
  runner : String → ℕ → Actor

pub data ActorKind : Type 0 where
  member_kind scheduler_kind runner_kind : ActorKind

-- The context of a runner is its epoch, which the code prints.
pub data ContextId : Type 0 where
  named : String → ContextId
  epoch : ℕ → ContextId

pub record SafeActor : Type 0 where
  pub kind : ActorKind
  pub id : String
  pub context_id : Option ContextId

abbrev execution_context : Option String → Option ContextId
execution_context none = none
execution_context (some w) = if same w "" then none else some (named w)

unfoldable pub safe_actor : Actor → SafeActor
safe_actor (member id session) = record {
  kind = member_kind;
  id = id;
  context_id = some (named session);
}
safe_actor (scheduler id execution) = record {
  kind = scheduler_kind;
  id = id;
  context_id = execution_context execution;
}
safe_actor (runner id e) = record { kind = runner_kind; id = id; context_id = some (epoch e) }

-- A row of members, of which the status is only compared with ACTIVE and the role with OWNER.
pub record MemberRow : Type 0 where
  pub id : String
  pub is_active : Bool
  pub is_owner : Bool
  pub authority_epoch : ℕ

abbrev has_epoch : ℕ → Option RunnerRow → Bool
has_epoch e none = false
has_epoch e (some r) = elim r.revoked_at [ none ↦ r.runner_epoch == e | some t ↦ false ]

abbrev is_member : Option MemberRow → Bool
is_member none = false
is_member (some m) = m.is_active

abbrev active_member : List MemberRow → Actor → Result AuthorityError SafeActor
active_member ms a =
    if is_member (first (λ (m : MemberRow). same m.id (safe_actor a).id) ms)
    then ok (safe_actor a)
    else err member_revoked refresh

unfoldable pub require_active_principal :
    List RunnerRow → List MemberRow → Actor → Result AuthorityError SafeActor
require_active_principal rs ms (runner id e) =
    if has_epoch e (first (λ (r : RunnerRow). same r.id id) rs)
    then ok (safe_actor (runner id e))
    else err runner_epoch_changed refresh
require_active_principal rs ms (member id session) = active_member ms (member id session)
require_active_principal rs ms (scheduler id execution) = active_member ms (scheduler id execution)

pub data RevocationSource : Type 0 where
  of_runner : String → RevocationSource
  of_member of_connector of_exposure of_repository of_run : RevocationSource

-- The kinds of command, and of a revocation its source.
pub data Command : Type 0 where
  launch_run authorize_attempt cancel_run : Command
  link_source_reference acknowledge_collision replace_runner_policy : Command
  consume_permit renew_authority_session authorize_operation : Command
  release_authority_session accept_attempt_event record_checkpoint : Command
  record_evidence record_run_result reconcile_observation : Command
  apply_revocation : RevocationSource → Command

abbrev by_member : Actor → Bool
by_member (member id session) = true
by_member _ = false

abbrev by_scheduler : Actor → Bool
by_scheduler (scheduler id execution) = true
by_scheduler _ = false

abbrev by_runner : Actor → Bool
by_runner (runner id e) = true
by_runner _ = false

abbrev is_runner : String → Actor → Bool
is_runner id (runner other e) = same other id
is_runner id _ = false

abbrev may_revoke : RevocationSource → Actor → Bool
may_revoke (of_runner id) a = is_runner id a || by_member a
may_revoke _ a = by_member a || by_scheduler a

unfoldable pub actor_may_execute : Command → Actor → Bool
actor_may_execute launch_run a = by_member a || by_scheduler a
actor_may_execute authorize_attempt a = by_member a || by_scheduler a
actor_may_execute cancel_run a = by_member a || by_scheduler a
actor_may_execute link_source_reference a = by_member a
actor_may_execute acknowledge_collision a = by_member a
actor_may_execute replace_runner_policy a = by_member a
actor_may_execute consume_permit a = by_runner a
actor_may_execute renew_authority_session a = by_runner a
actor_may_execute authorize_operation a = by_runner a
actor_may_execute release_authority_session a = by_runner a
actor_may_execute accept_attempt_event a = by_runner a
actor_may_execute record_checkpoint a = by_runner a
actor_may_execute record_evidence a = by_runner a
actor_may_execute record_run_result a = by_runner a
actor_may_execute reconcile_observation a = by_runner a || by_scheduler a
actor_may_execute (apply_revocation source) a = may_revoke source a

-- What an operation on a connector says; a source revision is that of its precondition, and none is
-- the precondition that the resource is absent.
pub record ConnectorAction : Type 0 where
  pub project_id : String
  pub connector_id : String
  pub connector_epoch : ℕ
  pub resource_id : String
  pub source_revision : Option String
  pub action_digest : String
  pub mutation : String

pub data SensitiveOperation : Type 0 where
  mutate_repository : String → SensitiveOperation
  publish_git_reference : String → String → SensitiveOperation
  mutate_github mutate_outline : ConnectorAction → SensitiveOperation
  apply_approval_transition : String → String → SensitiveOperation
  execute_local_gate : String → String → String → SensitiveOperation

unfoldable pub operation_needs_mutation_lease : SensitiveOperation → Bool
operation_needs_mutation_lease (execute_local_gate _ _ _) = false
operation_needs_mutation_lease _ = true

unfoldable pub inspect_only_may_authorize : SensitiveOperation → Bool
inspect_only_may_authorize (execute_local_gate _ _ _) = true
inspect_only_may_authorize _ = false

-- The action on a connector, of which the code reads the connector, its epoch, the project and, as
-- the operation's own field, the mutation.
unfoldable pub operation_connector : SensitiveOperation → Option ConnectorAction
operation_connector (mutate_github a) = some a
operation_connector (mutate_outline a) = some a
operation_connector _ = none
