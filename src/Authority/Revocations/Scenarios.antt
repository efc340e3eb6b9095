-- ===== src/Authority/Revocations/Scenarios.antt =====
-- execution-authority.ts: two sessions of two runners, of which the owner of the one revokes it.
use mathlib.Core.List.{Memᴰ}
use collab.Base.{◌≡◌, refl, true, false, none, some, [], ◌∷◌, String, arith, ok, includes}
use collab.Runs.Lifecycle.{running, active}
use collab.Authority.Sessions.{
  Tables, SessionRow, AttemptRow, SessionContext, inspect_only, enforced, first, epochs_of, context,
  read_session,
}
use collab.Authority.Authorizations.{
  Authorization, AuthorizationState, execute_local_gate, Database, Request, select, mark_consumed,
  runner_ok, connector_ok, lease_ok, finish, consume,
}
use collab.Authority.Policy.{member, safe_actor, require_active_principal}
use collab.Authority.Commands.{applied, stored_result, persist}
use collab.Authority.Revocations.{
  Source, of_runner, issued, revoked, PermitRow, Ledger, ApplyRevocation, latest_revocation_epoch,
  current_revocation_epoch, revocation_actor_authorized,
}
use collab.Authority.Revocations.Apply.{
  live_attempts, affected_attempts, is_issued, revoke_permit, revoke_session, end_sessions,
  terminate, revoke_attempt, revoke_attempts, revokes_early, add_revocation, write_revocation,
  execute_revocation,
}
use collab.Authority.Revocations.Ended.{revoke_permits, revoke_ends}
use collab.Authority.Revocations.Once.{run_revocations, revoke_once}

abbrev session : String → String → String → SessionRow
session id attempt runner_id = record {
  id = id;
  attempt_id = attempt;
  runner_id = runner_id;
  runner_epoch = 2;
  fence = 1;
  repository_mode = inspect_only;
  repository_assurance = enforced;
  issued_at = 10;
  expires_at = 100;
  is_active = true;
}

abbrev first_attempt : AttemptRow
first_attempt = record { id = "a1"; run_id = "run1"; runner_id = "r1"; state = running }

abbrev authorization : Authorization
authorization = record {
  id = "o2";
  session_id = "s2";
  session_fence = 1;
  mutation_lease_fence = none;
  operation_kind = execute_local_gate;
  operation_digest = "d2";
  resource_id = none;
  connector_id = none;
  connector_epoch = none;
  connector_scope_id = none;
  connector_scope_revision = none;
  connector_operation = none;
  action_digest = none;
  state = AuthorizationState.issued;
  revision = 1;
  issued_at = 20;
  expires_at = 80;
  consumed_at = none;
}

abbrev tables : Tables
tables = record {
  sessions = session "s1" "a1" "r1" ∷ session "s2" "a2" "r2" ∷ [];
  attempts =
      first_attempt ∷ record { id = "a2"; run_id = "run1"; runner_id = "r2"; state = running } ∷ [];
  policies =
      record {
        run_id = "run1";
        session_seconds = 90;
        renewal_seconds = 30;
        disconnect_grace_seconds = 20;
        deadline_at = 1000;
      }
      ∷ [];
  session_epochs = [];
  leases = [];
}

abbrev database : Database
database = record {
  tables = tables;
  runners =
      record { id = "r1"; owner_member_id = "m1"; runner_epoch = 2; revoked_at = none }
      ∷ record { id = "r2"; owner_member_id = "m1"; runner_epoch = 2; revoked_at = none }
      ∷ [];
  connectors = [];
  scopes = [];
  scope_operations = [];
  authorizations = authorization ∷ [];
}

abbrev permit : PermitRow
permit = record {
  attempt_id = "a1";
  state = issued;
  revision = 1;
  issued_at = 5;
  revoked_at = none;
}

abbrev ledger : Ledger
ledger = record {
  store = record { database = database; guards = []; overrides = []; results = [] };
  members = record { id = "m1"; is_active = true; is_owner = false; authority_epoch = 1 } ∷ [];
  exposures = [];
  snapshots = [];
  permits = permit ∷ [];
  runs =
      record {
        id = "run1";
        state = active;
        waiting_reason = none;
        created_at = 1;
        started_at = some 8;
        revision = 3;
      }
      ∷ [];
  intents = [];
  revocations = [];
}

abbrev command : ApplyRevocation
command = record {
  base = record { actor = member "m1" "device"; idempotency_key = "k1"; input_hash = "h1" };
  source = of_runner "r1" 2;
}

abbrev digest : String → Source → String
digest attempt source = attempt

abbrev after : Ledger
after = (execute_revocation digest ledger 30 command).0

abbrev request : Request
request = record {
  authorization_id = "o2";
  operation_digest = "d2";
  session_id = "s2";
  session_fence = 1;
}

abbrev revoked_permit : PermitRow
revoked_permit = record permit { state = revoked; revision = 2; revoked_at = some 30 }

applies : execute_revocation digest ledger 30 command ≡ (after, ok applied)
unfolding execute_revocation stored_result first require_active_principal safe_actor
    revocation_actor_authorized current_revocation_epoch latest_revocation_epoch write_revocation
    affected_attempts live_attempts revokes_early persist
applies = refl

revoke_permits_example : is_issued revoked_permit.state ≡ false
unfolding execute_revocation stored_result first require_active_principal safe_actor
    revocation_actor_authorized current_revocation_epoch latest_revocation_epoch write_revocation
    affected_attempts live_attempts revokes_early persist revoke_attempts revoke_attempt
    add_revocation terminate revoke_permit
revoke_permits_example =
    revoke_permits digest ledger after 30 command applied first_attempt revoked_permit refl applies
      refl refl (Memᴰ.head refl)

revoke_ends_example :
    (x : SessionContext) × (read_session after.store.database.tables "s2" ≡ some x)
    × (includes (affected_attempts ledger (of_runner "r1" 2)) x.attempt_id ≡ false)
unfolding execute_revocation stored_result first require_active_principal safe_actor
    revocation_actor_authorized current_revocation_epoch latest_revocation_epoch write_revocation
    affected_attempts live_attempts revokes_early persist revoke_attempts revoke_attempt
    add_revocation terminate end_sessions revoke_session consume finish select mark_consumed
    read_session context epochs_of runner_ok connector_ok lease_ok
revoke_ends_example =
    revoke_ends digest ledger after 30 50 command applied request refl applies refl refl

-- The same revocation under another key.
abbrev again : ApplyRevocation
again = record command { base = record command.base { idempotency_key = "k2" } }

revoke_once_example :
    (execute_revocation digest (run_revocations digest after []) 60 again).0
    ≡ run_revocations digest after []
unfolding stored_result first
revoke_once_example =
    revoke_once digest ledger after 30 60 command again applied [] refl applies refl refl
      (omega arith)
