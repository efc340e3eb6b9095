-- ===== src/Authority/Commands.antt =====
-- server/modules/execution-authority/execution-authority.ts: the renewal and the release of a session
-- (executeRenewSession, executeReleaseSession), with the stored results that answer a command that is
-- sent again. The input hash of a command is an argument. A lease is issued with its session, so the
-- constraints of its times are those of the session; audit events are left out.
pub mod Issue
pub mod Fenced
pub mod Released
pub mod Scopes
pub mod Consumable
pub mod Replay
mod Scenarios
use collab.Base.{
  ℕ, ◌+◌, Bool, true, false, not, ◌&&◌, ◌||◌, Option, none, some, List, [], ◌∷◌, map, String, leb,
  ltb, ◌==◌, same, if◌then◌else◌, all, min, Result, ok, err, never, refresh, explicit_resume,
  same_input, Retry,
}
use collab.Authority.Sessions.{
  Tables, mutating, inspect_only, SessionRow, LeaseRow, Lease, SessionContext, SessionView, first,
  epoch_of, read_session, session_view, require_session_fence, AuthorityError, runner_epoch_changed,
  connector_revoked, mutation_lease_lost,
}
use collab.Authority.Authorizations.{ConnectorRow, Database, ready_at, runner_ok}
use collab.Authority.Policy.{Actor, runner, safe_actor}

pub data CommandError : Type 0 where
  authority : AuthorityError → CommandError
  idempotency_conflict storage_failed repository_mode_denied repository_revision_stale :
      CommandError
  mutation_guard_lost connector_scope_denied connector_scope_stale approval_stale : CommandError
  operation_already_authorized revocation_actor_denied revocation_epoch_stale : CommandError
  actor_not_authorized authority_fact_unavailable : CommandError

pub data CommandKind : Type 0 where
  renew_session release_session authorize_operation apply_revocation : CommandKind

pub data CommandResult : Type 0 where
  renewed : SessionView → CommandResult
  released applied : CommandResult
  authorized : String → String → ℕ → CommandResult

-- A row of idempotency_results; its key is the kind and the key of the command.
pub record StoredResult : Type 0 where
  pub actor_id : String
  pub kind : CommandKind
  pub idempotency_key : String
  pub input_hash : String
  pub result : CommandResult

-- Rows of work_item_mutation_guards and mutation_guard_overrides.
pub record GuardRow : Type 0 where
  pub id : String
  pub run_id : String
  pub is_held : Bool

pub record OverrideRow : Type 0 where
  pub mutation_guard_id : String
  pub colliding_run_id : String

pub record Store : Type 0 where
  pub database : Database
  pub guards : List GuardRow
  pub overrides : List OverrideRow
  pub results : List StoredResult

-- The part that all commands share: the actor, the idempotency key and the hash of the input.
pub record CommandBase : Type 0 where
  pub actor : Actor
  pub idempotency_key : String
  pub input_hash : String

pub record SessionCommand : Type 0 where
  pub base : CommandBase
  pub session_id : String
  pub session_fence : ℕ

abbrev pub Answer : Type 0
Answer = Store × Result CommandError CommandResult

abbrev pub refuse : Store → CommandError → Retry → Answer
refuse s e r = (s, err e r)

abbrev pub same_kind : CommandKind → CommandKind → Bool
same_kind renew_session renew_session = true
same_kind release_session release_session = true
same_kind authorize_operation authorize_operation = true
same_kind apply_revocation apply_revocation = true
same_kind _ _ = false

abbrev pub is_stored : CommandKind → CommandBase → StoredResult → Bool
is_stored kind c r =
    same r.actor_id (safe_actor c.actor).id
    && (same_kind r.kind kind && same r.idempotency_key c.idempotency_key)

-- storedResult; a stored result parses, since `persistIdempotency` wrote it.
abbrev pub answered : CommandBase → Option StoredResult → Option (Result CommandError CommandResult)
answered c none = none
answered c (some r) =
    if same r.input_hash c.input_hash
    then some (ok r.result)
    else some (err idempotency_conflict never)

unfoldable pub stored_result :
    List StoredResult → CommandKind → CommandBase → Option (Result CommandError CommandResult)
stored_result rows kind c = answered c (first (is_stored kind c) rows)

-- A replayed answer, or the rest of the transaction.
abbrev pub replayed_or : Store → Option (Result CommandError CommandResult) → Answer → Answer
replayed_or s none rest = rest
replayed_or s (some answer) rest = (s, answer)

-- persistIdempotency, and the answer.
unfoldable pub persist : CommandKind → CommandBase → CommandResult → Store → Answer
persist kind c result s = (
  record s {
    results =
        record {
          actor_id = (safe_actor c.actor).id;
          kind = kind;
          idempotency_key = c.idempotency_key;
          input_hash = c.input_hash;
          result = result;
        }
        ∷ s.results;
  },
  ok result,
)

-- The actor is the runner of the session, in the epoch of the session.
abbrev is_runner_of : Actor → SessionContext → Bool
is_runner_of (runner id epoch) s = same id s.runner_id && epoch == s.runner_epoch
is_runner_of _ s = false

unfoldable pub is_session_runner : Actor → SessionContext → Bool
is_session_runner a s = is_runner_of a s

-- Every connector of the session is ready, at the epoch that the session holds.
unfoldable pub connectors_ok : Database → SessionContext → Bool
connectors_ok db s =
    all
      (λ (e : String × ℕ).
        ready_at (first (λ (c : ConnectorRow). same c.connector_id e.0) db.connectors)
          (epoch_of e.0 s.connector_epochs))
      s.connector_epochs

abbrev in_grace : Option Lease → ℕ → Bool
in_grace none now = false
in_grace (some l) now = ltb now l.disconnect_grace_expires_at

unfoldable pub may_keep_lease : SessionContext → ℕ → Bool
may_keep_lease s now = elim s.repository_mode [
  | mutating ↦ in_grace s.lease now
  | inspect_only ↦ true
]

-- UPDATE authority_sessions SET fence = fence + 1 … WHERE id = ? AND state = 'ACTIVE' AND fence = ?
unfoldable pub renew_row : String → ℕ → ℕ → SessionRow → SessionRow
renew_row id fence expires r =
    if same r.id id && (r.is_active && r.fence == fence)
    then record r { fence = r.fence + 1; expires_at = expires }
    else r

-- UPDATE mutation_leases … WHERE id = ? AND state = 'ACTIVE' AND fence = ?
unfoldable pub renew_lease : Lease → ℕ → ℕ → LeaseRow → LeaseRow
renew_lease l expires grace r =
    if same r.id l.id && (r.is_active && r.fence == l.fence)
    then record r { fence = r.fence + 1; expires_at = expires; disconnect_grace_expires_at = grace }
    else r

abbrev renewed_leases : SessionContext → ℕ → List LeaseRow → List LeaseRow
renewed_leases s expires rows = elim s.repository_mode [
  | inspect_only ↦ rows
  | mutating ↦ elim s.lease [
    | none ↦ rows
    | some l ↦
        map (renew_lease l expires (min (expires + s.disconnect_grace_seconds) s.deadline_at)) rows
  ]
]

abbrev pub renewed_until : SessionContext → ℕ → ℕ
renewed_until s now = min (now + s.session_seconds) s.deadline_at

unfoldable pub renew_tables : SessionContext → ℕ → Tables → Tables
renew_tables s now t = record t {
  sessions = map (renew_row s.id s.fence (renewed_until s now)) t.sessions;
  leases = renewed_leases s (renewed_until s now) t.leases;
}

abbrev with_tables : Store → Tables → Store
with_tables s t = record s { database = record s.database { tables = t } }

abbrev show_renewed : SessionCommand → Store → Option SessionContext → Answer
show_renewed c s none = refuse s storage_failed never
show_renewed c s (some x) = persist renew_session c.base (renewed (session_view x)) s

-- The writes of a renewal. The constraints that it can break are that the session ends after it was
-- issued and is renewed no earlier, which a clock that runs backwards does; they roll it back.
unfoldable pub write_renewal : Store → ℕ → SessionCommand → SessionContext → Answer
write_renewal s now c x =
    if ltb now x.issued_at || leb (renewed_until x now) x.issued_at
    then refuse s storage_failed same_input
    else (let t = renew_tables x now s.database.tables in
        show_renewed c (with_tables s t) (read_session t x.id))

abbrev renew_in : Store → ℕ → SessionCommand → ℕ → Result AuthorityError SessionContext → Answer
renew_in s now c epoch (err e r) = refuse s (authority e) r
renew_in s now c epoch (ok x) =
    if not (is_session_runner c.base.actor x) || not (epoch == x.runner_epoch)
    then refuse s (authority runner_epoch_changed) refresh
    else if not (runner_ok s.database x)
    then refuse s (authority runner_epoch_changed) refresh
    else if not (connectors_ok s.database x)
    then refuse s (authority connector_revoked) refresh
    else if not (may_keep_lease x now)
    then refuse s (authority mutation_lease_lost) explicit_resume
    else write_renewal s now c x

-- executeRenewSession; the number is the runner's epoch in the command.
unfoldable pub execute_renew_session : Store → ℕ → SessionCommand → ℕ → Answer
execute_renew_session s now c epoch = replayed_or s (stored_result s.results renew_session c.base) (
    renew_in s now c epoch
      (require_session_fence s.database.tables c.session_id c.session_fence now))

unfoldable pub release_row : String → ℕ → SessionRow → SessionRow
release_row id fence r =
    if same r.id id && (r.is_active && r.fence == fence) then record r { is_active = false } else r

unfoldable pub release_lease : String → LeaseRow → LeaseRow
release_lease session r =
    if same r.session_id session && r.is_active then record r { is_active = false } else r

unfoldable pub release_tables : String → ℕ → Tables → Tables
release_tables id fence t = record t {
  sessions = map (release_row id fence) t.sessions;
  leases = map (release_lease id) t.leases;
}

-- The writes of a release, whose constraint is that it is no earlier than the issue.
unfoldable pub write_release : Store → ℕ → SessionCommand → SessionContext → Answer
write_release s now c x =
    if ltb now x.issued_at
    then refuse s storage_failed same_input
    else persist release_session c.base released
        (with_tables s (release_tables c.session_id c.session_fence s.database.tables))

abbrev release_in : Store → ℕ → SessionCommand → Result AuthorityError SessionContext → Answer
release_in s now c (err e r) = refuse s (authority e) r
release_in s now c (ok x) =
    if not (is_session_runner c.base.actor x)
    then refuse s (authority runner_epoch_changed) refresh
    else write_release s now c x

-- executeReleaseSession
unfoldable pub execute_release_session : Store → ℕ → SessionCommand → Answer
execute_release_session s now c =
    replayed_or s (stored_result s.results release_session c.base) (
      release_in s now c (require_session_fence s.database.tables c.session_id c.session_fence now))
