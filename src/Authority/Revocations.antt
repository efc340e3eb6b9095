-- ===== src/Authority/Revocations.antt =====
-- server/modules/execution-authority: the revocation of the authority of a member, a connector, a
-- runner, an exposure, a repository or a run (executeRevocation of execution-authority.ts, and
-- revocation.ts). The digest of a termination intent is a function that is given. Audit events and the
-- identifiers of revocations and intents, which are not read, are left out; a lease is issued with its
-- session, and its times are checked with those of the session.
pub mod Apply
pub mod Closed
pub mod Ended
pub mod Once
mod Scenarios
use collab.Base.{
  ℕ, ◌+◌, Bool, true, false, not, ◌&&◌, ◌||◌, Option, none, some, List, [], ◌∷◌, String, ◌==◌, same,
  if◌then◌else◌, any, max, Result,
}
use collab.Runs.Lifecycle.{RunState}
use collab.Authority.Sessions.{first}
use collab.Authority.Authorizations.{RunnerRow, ConnectorRow}
use collab.Authority.Policy.{
  Actor, member, scheduler, runner, ActorKind, scheduler_kind, SafeActor, MemberRow,
}
use collab.Authority.Commands.{Store, CommandBase, CommandError, CommandResult}

-- `RevocationSource`: what is revoked, with its epoch or revision.
pub data Source : Type 0 where
  of_member of_connector of_runner of_exposure of_repository of_run : String → ℕ → Source

pub data SourceKind : Type 0 where
  member_source connector_source runner_source : SourceKind
  exposure_source repository_source run_source : SourceKind

pub data Disposition : Type 0 where
  deny_future request_termination reduce_authority : Disposition

-- Rows of authority_revocations, authority_snapshots, runner_exposures, dispatch_permits, agent_runs and
-- authority_termination_intents.
pub record RevocationRow : Type 0 where
  pub source_kind : SourceKind
  pub source_id : String
  pub source_epoch : ℕ
  pub actor : SafeActor
  pub disposition : Disposition
  pub created_at : ℕ

pub record SnapshotRow : Type 0 where
  pub attempt_id : String
  pub run_id : String
  pub actor_kind : ActorKind
  pub actor_id : String
  pub actor_context_id : Option String
  pub runner_owner_member_id : String
  pub exposure_revision : Option ℕ
  pub repository_id : String

pub record ExposureRow : Type 0 where
  pub id : String
  pub owner_member_id : String
  pub revision : ℕ

pub data PermitState : Type 0 where
  issued consumed revoked expired : PermitState

pub record PermitRow : Type 0 where
  pub attempt_id : String
  pub state : PermitState
  pub revision : ℕ
  pub issued_at : ℕ
  pub revoked_at : Option ℕ

pub record RunRow : Type 0 where
  pub id : String
  pub state : RunState
  pub waiting_reason : Option String
  pub created_at : ℕ
  pub started_at : Option ℕ
  pub revision : ℕ

-- An intent to checkpoint and terminate, of which the digest is unique.
pub record IntentRow : Type 0 where
  pub run_id : String
  pub attempt_id : String
  pub semantic_digest : String
  pub created_at : ℕ

pub record Ledger : Type 0 where
  pub store : Store
  pub members : List MemberRow
  pub exposures : List ExposureRow
  pub snapshots : List SnapshotRow
  pub permits : List PermitRow
  pub runs : List RunRow
  pub intents : List IntentRow
  pub revocations : List RevocationRow

pub record ApplyRevocation : Type 0 where
  pub base : CommandBase
  pub source : Source

abbrev pub Answer : Type 0
Answer = Ledger × Result CommandError CommandResult

-- The parts of revocationSource.
abbrev pub kind_of : Source → SourceKind
kind_of (of_member _ _) = member_source
kind_of (of_connector _ _) = connector_source
kind_of (of_runner _ _) = runner_source
kind_of (of_exposure _ _) = exposure_source
kind_of (of_repository _ _) = repository_source
kind_of (of_run _ _) = run_source

abbrev pub id_of : Source → String
id_of (of_member id _) = id
id_of (of_connector id _) = id
id_of (of_runner id _) = id
id_of (of_exposure id _) = id
id_of (of_repository id _) = id
id_of (of_run id _) = id

abbrev pub epoch_of : Source → ℕ
epoch_of (of_member _ e) = e
epoch_of (of_connector _ e) = e
epoch_of (of_runner _ e) = e
epoch_of (of_exposure _ e) = e
epoch_of (of_repository _ e) = e
epoch_of (of_run _ e) = e

abbrev pub same_source_kind : SourceKind → SourceKind → Bool
same_source_kind member_source member_source = true
same_source_kind connector_source connector_source = true
same_source_kind runner_source runner_source = true
same_source_kind exposure_source exposure_source = true
same_source_kind repository_source repository_source = true
same_source_kind run_source run_source = true
same_source_kind _ _ = false

-- latestRevocationEpoch
unfoldable pub latest_revocation_epoch : SourceKind → String → List RevocationRow → ℕ
latest_revocation_epoch kind id [] = 0
latest_revocation_epoch kind id (r ∷ rows) =
    let rest = latest_revocation_epoch kind id rows in
    if same_source_kind r.source_kind kind && same r.source_id id
    then max r.source_epoch rest
    else rest

abbrev pub option_map {ℓ κ} : {A : Type ℓ} {B : Type κ} → (A → B) → Option A → Option B
option_map f none = none
option_map f (some x) = some (f x)

unfoldable pub current_revocation_epoch : Ledger → Source → Option ℕ
current_revocation_epoch l (of_member id _) =
    option_map (λ (m : MemberRow). m.authority_epoch)
      (first (λ (m : MemberRow). same m.id id) l.members)
current_revocation_epoch l (of_connector id _) =
    option_map (λ (c : ConnectorRow). c.epoch)
      (first (λ (c : ConnectorRow). same c.connector_id id) l.store.database.connectors)
current_revocation_epoch l (of_runner id _) =
    option_map (λ (r : RunnerRow). r.runner_epoch)
      (first (λ (r : RunnerRow). same r.id id) l.store.database.runners)
current_revocation_epoch l (of_exposure id _) =
    option_map (λ (e : ExposureRow). e.revision)
      (first (λ (e : ExposureRow). same e.id id) l.exposures)
current_revocation_epoch l (of_run id _) =
    option_map (λ (r : RunRow). r.revision) (first (λ (r : RunRow). same r.id id) l.runs)
current_revocation_epoch l (of_repository _ revision) = some revision

abbrev owner_role : Option MemberRow → Bool
owner_role none = false
owner_role (some m) = m.is_owner

abbrev is_owner : Ledger → String → Bool
is_owner l id = owner_role (first (λ (m : MemberRow). same m.id id && m.is_active) l.members)

abbrev is_scheduler_kind : ActorKind → Bool
is_scheduler_kind scheduler_kind = true
is_scheduler_kind _ = false

abbrev in_context : Option String → Option String → Bool
in_context none context = true
in_context (some w) none = same w ""
in_context (some w) (some context) = same w "" || same context w

abbrev owns_runner : Ledger → String → String → Bool
owns_runner l id owner =
    any (λ (r : RunnerRow). same r.id id && same r.owner_member_id owner) l.store.database.runners

abbrev owns_exposure : Ledger → String → String → Bool
owns_exposure l id owner =
    any (λ (e : ExposureRow). same e.id id && same e.owner_member_id owner) l.exposures

abbrev dispatched : Ledger → String → String → Option String → Bool
dispatched l run dispatcher execution =
    any
      (λ (s : SnapshotRow).
        same s.run_id run
        && (is_scheduler_kind s.actor_kind
            && (same s.actor_id dispatcher && in_context execution s.actor_context_id)))
      l.snapshots

-- revocationActorAuthorized
unfoldable pub revocation_actor_authorized : Ledger → Source → Actor → Bool
revocation_actor_authorized l (of_runner id _) (runner other _) = same other id
revocation_actor_authorized l (of_runner id _) (member m _) = owns_runner l id m
revocation_actor_authorized l (of_exposure id _) (member m _) = owns_exposure l id m
revocation_actor_authorized l (of_run id _) (scheduler d execution) = dispatched l id d execution
revocation_actor_authorized l (of_member id _) (member m _) = is_owner l m && not (same id m)
revocation_actor_authorized l (of_connector _ _) (member m _) = is_owner l m
revocation_actor_authorized l (of_repository _ _) (member m _) = is_owner l m
revocation_actor_authorized l (of_run _ _) (member m _) = is_owner l m
revocation_actor_authorized l _ _ = false
