-- ===== src/Authority/Authorizations.antt =====
-- server/modules/execution-authority/fencing.ts: the consumption of an operation's authorization. The
-- catch of a database that fails is modelled where the code can cause it, by the CHECK on consumed_at.
pub mod Consumption
pub mod SingleUse
mod Scenarios
use collab.Base.{
  ℕ, ◌+◌, Bool, true, false, not, ◌&&◌, ◌||◌, Option, none, some, List, [], ◌∷◌, String, leb, ltb,
  ◌==◌, same, if◌then◌else◌, Result, ok, err, never, refresh, explicit_resume, same_input, Retry,
}
use collab.Authority.Sessions.{
  Tables, SessionContext, Lease, first, epoch_of, read_session, AuthorityError, session_fence_stale,
  authorization_invalid, authorization_replayed, authorization_revoked, authorization_expired,
  authorization_storage_failed, runner_epoch_changed, connector_revoked, mutation_lease_lost,
}

pub data AuthorizationState : Type 0 where
  issued consumed revoked expired : AuthorizationState

pub data OperationKind : Type 0 where
  mutate_repository publish_git_reference mutate_github mutate_outline : OperationKind
  apply_approval_transition execute_local_gate discard_retained_work : OperationKind

pub record Authorization : Type 0 where
  pub id : String
  pub session_id : String
  pub session_fence : ℕ
  pub mutation_lease_fence : Option ℕ
  pub operation_kind : OperationKind
  pub operation_digest : String
  pub resource_id : Option String
  pub connector_id : Option String
  pub connector_epoch : Option ℕ
  pub connector_scope_id : Option String
  pub connector_scope_revision : Option ℕ
  pub connector_operation : Option String
  pub action_digest : Option String
  pub state : AuthorizationState
  pub revision : ℕ
  pub issued_at : ℕ
  pub expires_at : ℕ
  pub consumed_at : Option ℕ

-- Rows of runners, connector_epochs, connector_scopes and connector_scope_operations.
pub record RunnerRow : Type 0 where
  pub id : String
  pub owner_member_id : String
  pub runner_epoch : ℕ
  pub revoked_at : Option ℕ

pub record ConnectorRow : Type 0 where
  pub connector_id : String
  pub epoch : ℕ
  pub is_ready : Bool

pub record ScopeRow : Type 0 where
  pub id : String
  pub connector_id : String
  pub revision : ℕ
  pub is_revoked : Bool
  pub project_id : String
  pub connector_epoch : ℕ

pub record ScopeOperationRow : Type 0 where
  pub scope_id : String
  pub operation : String

pub record Database : Type 0 where
  pub tables : Tables
  pub runners : List RunnerRow
  pub connectors : List ConnectorRow
  pub scopes : List ScopeRow
  pub scope_operations : List ScopeOperationRow
  pub authorizations : List Authorization

pub record Request : Type 0 where
  pub authorization_id : String
  pub operation_digest : String
  pub session_id : String
  pub session_fence : ℕ

abbrev pub is_issued : AuthorizationState → Bool
is_issued issued = true
is_issued _ = false

unfoldable pub select : String → List Authorization → Option Authorization
select id [] = none
select id (a ∷ rows) = if same a.id id then some a else select id rows

-- UPDATE … SET state = 'EXPIRED', revision = revision + 1 WHERE id = ? AND state = 'ISSUED'
unfoldable pub expire : String → List Authorization → List Authorization
expire id [] = []
expire id (a ∷ rows) =
    let rest = expire id rows in
    if same a.id id && is_issued a.state
    then record a { state = expired; revision = a.revision + 1 } ∷ rest
    else a ∷ rest

-- UPDATE … SET state = 'CONSUMED' … WHERE id = ? AND state = 'ISSUED' AND operation_digest = ?, with the
-- number of rows that it changes.
unfoldable pub mark_consumed : ℕ → String → String → List Authorization → List Authorization × ℕ
mark_consumed now id digest [] = ([], 0)
mark_consumed now id digest (a ∷ rows) =
    let (rest, n) = mark_consumed now id digest rows in
    if same a.id id && is_issued a.state && same a.operation_digest digest
    then (
      record a { state = consumed; consumed_at = some now; revision = a.revision + 1 } ∷ rest,
      n + 1,
    )
    else (a ∷ rest, n)

abbrev pub live_runner : Option RunnerRow → ℕ → Bool
live_runner none epoch = false
live_runner (some r) epoch = elim r.revoked_at [ none ↦ r.runner_epoch == epoch | some t ↦ false ]

unfoldable pub runner_ok : Database → SessionContext → Bool
runner_ok db s =
    live_runner (first (λ (r : RunnerRow). same r.id s.runner_id) db.runners) s.runner_epoch

-- How many rows the join of connector_scopes and connector_scope_operations has.
unfoldable pub count_operations : String → String → List ScopeOperationRow → ℕ
count_operations scope operation [] = 0
count_operations scope operation (o ∷ os) =
    let n = count_operations scope operation os in
    if same o.scope_id scope && same o.operation operation then n + 1 else n

unfoldable pub count_scopes :
    String → ℕ → String → String → List ScopeOperationRow → List ScopeRow → ℕ
count_scopes id revision operation connector os [] = 0
count_scopes id revision operation connector os (s ∷ ss) =
    let n = count_scopes id revision operation connector os ss in
    if same s.id id && s.revision == revision && not s.is_revoked && same s.connector_id connector
    then count_operations s.id operation os + n
    else n

-- `value ?? fallback`
abbrev pub or_else {ℓ} : {A : Type ℓ} → A → Option A → A
or_else a none = a
or_else a (some b) = b

-- `a === b` of two values of which either may be missing, where a missing one is never equal.
abbrev pub agree : Option ℕ → Option ℕ → Bool
agree (some a) (some b) = a == b
agree _ _ = false

abbrev pub ready_at : Option ConnectorRow → Option ℕ → Bool
ready_at none epoch = false
ready_at (some c) epoch = c.is_ready && agree (some c.epoch) epoch

abbrev connector_allows : Database → SessionContext → Authorization → Option String → Bool
connector_allows db s a none = true
connector_allows db s a (some connector) =
    ready_at (first (λ (c : ConnectorRow). same c.connector_id connector) db.connectors)
      a.connector_epoch
    && agree (epoch_of connector s.connector_epochs) a.connector_epoch
    && count_scopes (or_else "" a.connector_scope_id) (or_else 0 a.connector_scope_revision)
        (or_else "" a.connector_operation) connector db.scope_operations db.scopes
      == 1

unfoldable pub connector_ok : Database → SessionContext → Authorization → Bool
connector_ok db s a = connector_allows db s a a.connector_id

abbrev lease_allows : ℕ → Option ℕ → Option Lease → Bool
lease_allows now none l = true
lease_allows now (some fence) none = false
lease_allows now (some fence) (some l) = fence == l.fence && not (leb l.expires_at now)

unfoldable pub lease_ok : ℕ → SessionContext → Authorization → Bool
lease_ok now s a = lease_allows now a.mutation_lease_fence s.lease

abbrev pub Answer : Type 0
Answer = Database × Result AuthorityError ℕ

abbrev refuse : Database → AuthorityError → Retry → Answer
refuse db e r = (db, err e r)

-- The UPDATE fails, and is rolled back, when it breaks CHECK (consumed_at BETWEEN issued_at AND
-- expires_at); the code has tested the upper bound.
unfoldable pub finish : Database → ℕ → Request → Authorization → Answer
finish db now q a =
    if ltb now a.issued_at
    then refuse db authorization_storage_failed same_input
    else (let (rows, n) =
          mark_consumed now q.authorization_id q.operation_digest db.authorizations in
        (
          record db { authorizations = rows },
          if n == 1 then ok now else err authorization_replayed never,
        ))

abbrev in_session : Database → ℕ → Request → Authorization → Option SessionContext → Answer
in_session db now q a none = refuse db session_fence_stale refresh
in_session db now q a (some s) =
    if not (s.fence == q.session_fence) || not (a.session_fence == s.fence)
    then refuse db session_fence_stale refresh
    else if not (runner_ok db s)
    then refuse db runner_epoch_changed refresh
    else if not (connector_ok db s a)
    then refuse db connector_revoked refresh
    else if not (lease_ok now s a)
    then refuse db mutation_lease_lost explicit_resume
    else finish db now q a

abbrev pub is_state : AuthorizationState → AuthorizationState → Bool
is_state issued issued = true
is_state consumed consumed = true
is_state revoked revoked = true
is_state expired expired = true
is_state _ _ = false

abbrev found : Database → ℕ → Request → Option Authorization → Answer
found db now q none = refuse db authorization_invalid never
found db now q (some a) =
    if not (same a.operation_digest q.operation_digest) || not (same a.session_id q.session_id)
    then refuse db authorization_invalid never
    else if is_state a.state consumed
    then refuse db authorization_replayed never
    else if is_state a.state revoked
    then refuse db authorization_revoked never
    else if is_state a.state expired || leb a.expires_at now
    then refuse (record db { authorizations = expire q.authorization_id db.authorizations })
        authorization_expired never
    else in_session db now q a (read_session db.tables q.session_id)

unfoldable pub consume : Database → ℕ → Request → Answer
consume db now q = found db now q (select q.authorization_id db.authorizations)
