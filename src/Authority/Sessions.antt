-- ===== src/Authority/Sessions.antt =====
-- server/modules/execution-authority/fencing.ts: sessions and their fences. A table is the list of its
-- rows, and a query that takes one row takes the first.
use collab.Base.{
  ℕ, Bool, not, ◌&&◌, ◌||◌, Option, none, some, List, [], ◌∷◌, String, leb, ◌==◌, same,
  if◌then◌else◌, Result, ok, err, never, refresh, explicit_resume,
}
use collab.Runs.Lifecycle.{AttemptState}

pub data RepositoryMode : Type 0 where
  mutating inspect_only : RepositoryMode

pub data Assurance : Type 0 where
  advisory enforced : Assurance

-- Rows of authority_sessions, execution_attempts, run_execution_policies,
-- authority_session_connector_epochs and mutation_leases, as far as the queries read them.
pub record SessionRow : Type 0 where
  pub id : String
  pub attempt_id : String
  pub runner_id : String
  pub runner_epoch : ℕ
  pub fence : ℕ
  pub repository_mode : RepositoryMode
  pub repository_assurance : Assurance
  pub issued_at : ℕ
  pub expires_at : ℕ
  pub is_active : Bool

pub record AttemptRow : Type 0 where
  pub id : String
  pub run_id : String
  pub runner_id : String
  pub state : AttemptState

pub record PolicyRow : Type 0 where
  pub run_id : String
  pub session_seconds : ℕ
  pub renewal_seconds : ℕ
  pub disconnect_grace_seconds : ℕ
  pub deadline_at : ℕ

pub record SessionEpochRow : Type 0 where
  pub session_id : String
  pub connector_id : String
  pub connector_epoch : ℕ

pub record LeaseRow : Type 0 where
  pub id : String
  pub session_id : String
  pub attempt_id : String
  pub fence : ℕ
  pub expires_at : ℕ
  pub disconnect_grace_expires_at : ℕ
  pub is_active : Bool

pub record Tables : Type 0 where
  pub sessions : List SessionRow
  pub attempts : List AttemptRow
  pub policies : List PolicyRow
  pub session_epochs : List SessionEpochRow
  pub leases : List LeaseRow

pub record Lease : Type 0 where
  pub id : String
  pub fence : ℕ
  pub expires_at : ℕ
  pub disconnect_grace_expires_at : ℕ

-- `SessionContext`; the epochs are the pairs of the query.
pub record SessionContext : Type 0 where
  pub id : String
  pub attempt_id : String
  pub run_id : String
  pub runner_id : String
  pub runner_epoch : ℕ
  pub fence : ℕ
  pub repository_mode : RepositoryMode
  pub repository_assurance : Assurance
  pub issued_at : ℕ
  pub expires_at : ℕ
  pub session_seconds : ℕ
  pub renewal_seconds : ℕ
  pub disconnect_grace_seconds : ℕ
  pub deadline_at : ℕ
  pub connector_epochs : List (String × ℕ)
  pub lease : Option Lease

-- The first row that passes a test.
unfoldable pub first {ℓ} : {A : Type ℓ} → (A → Bool) → List A → Option A
first p [] = none
first p (x ∷ xs) = if p x then some x else first p xs

-- The connector epochs of a session. `Object.fromEntries` keeps the last of two values for a key.
unfoldable pub epochs_of : String → List SessionEpochRow → List (String × ℕ)
epochs_of id [] = []
epochs_of id (r ∷ rs) =
    let rest = epochs_of id rs in
    if same r.session_id id then (r.connector_id, r.connector_epoch) ∷ rest else rest

unfoldable pub epoch_of : String → List (String × ℕ) → Option ℕ
epoch_of k [] = none
epoch_of k ((j, e) ∷ es) = elim (epoch_of k es) [
  | some x ↦ some x
  | none ↦ if same j k then some e else none
]

abbrev lease_of : Option LeaseRow → Option Lease
lease_of none = none
lease_of (some r) = some record {
  id = r.id;
  fence = r.fence;
  expires_at = r.expires_at;
  disconnect_grace_expires_at = r.disconnect_grace_expires_at;
}

unfoldable pub context : Tables → SessionRow → AttemptRow → PolicyRow → SessionContext
context t s a p = record {
  id = s.id;
  attempt_id = s.attempt_id;
  run_id = a.run_id;
  runner_id = s.runner_id;
  runner_epoch = s.runner_epoch;
  fence = s.fence;
  repository_mode = s.repository_mode;
  repository_assurance = s.repository_assurance;
  issued_at = s.issued_at;
  expires_at = s.expires_at;
  session_seconds = p.session_seconds;
  renewal_seconds = p.renewal_seconds;
  disconnect_grace_seconds = p.disconnect_grace_seconds;
  deadline_at = p.deadline_at;
  connector_epochs = epochs_of s.id t.session_epochs;
  lease = lease_of (first (λ (l : LeaseRow). same l.session_id s.id && l.is_active) t.leases);
}

abbrev with_policy : Tables → SessionRow → AttemptRow → Option PolicyRow → Option SessionContext
with_policy t s a none = none
with_policy t s a (some p) = if s.is_active then some (context t s a p) else none

abbrev with_attempt : Tables → SessionRow → Option AttemptRow → Option SessionContext
with_attempt t s none = none
with_attempt t s (some a) =
    with_policy t s a (first (λ (p : PolicyRow). same p.run_id a.run_id) t.policies)

abbrev with_session : Tables → Option SessionRow → Option SessionContext
with_session t none = none
with_session t (some s) =
    with_attempt t s (first (λ (a : AttemptRow). same a.id s.attempt_id) t.attempts)

-- The joins of the query are by the primary keys of the three tables.
unfoldable pub read_session : Tables → String → Option SessionContext
read_session t id = with_session t (first (λ (s : SessionRow). same s.id id) t.sessions)

pub data AuthorityError : Type 0 where
  session_inactive session_fence_stale session_expired : AuthorityError
  authorization_invalid authorization_replayed authorization_revoked : AuthorityError
  authorization_expired authorization_storage_failed : AuthorityError
  runner_epoch_changed connector_revoked mutation_lease_lost member_revoked : AuthorityError

abbrev fenced : Option SessionContext → ℕ → ℕ → Result AuthorityError SessionContext
fenced none fence now = err session_inactive never
fenced (some s) fence now =
    if not (s.fence == fence)
    then err session_fence_stale refresh
    else if leb s.expires_at now || leb s.deadline_at now
    then err session_expired explicit_resume
    else ok s

unfoldable pub require_session_fence :
    Tables → String → ℕ → ℕ → Result AuthorityError SessionContext
require_session_fence t id fence now = fenced (read_session t id) fence now

-- `AuthoritySessionView`, of which the mutation lease is the part that is decided.
pub record SessionView : Type 0 where
  pub id : String
  pub attempt_id : String
  pub fence : ℕ
  pub issued_at : ℕ
  pub expires_at : ℕ
  pub repository_mode : RepositoryMode
  pub repository_assurance : Assurance
  pub connector_epochs : List (String × ℕ)
  pub mutation_lease : Option (String × ℕ × ℕ)

abbrev shown_lease : RepositoryMode → Option Lease → Option (String × ℕ × ℕ)
shown_lease mutating (some l) = some (l.id, l.fence, l.expires_at)
shown_lease _ _ = none

unfoldable pub session_view : SessionContext → SessionView
session_view s = record {
  id = s.id;
  attempt_id = s.attempt_id;
  fence = s.fence;
  issued_at = s.issued_at;
  expires_at = s.expires_at;
  repository_mode = s.repository_mode;
  repository_assurance = s.repository_assurance;
  connector_epochs = s.connector_epochs;
  mutation_lease = shown_lease s.repository_mode s.lease;
}
