-- ===== src/Authority/Commands/Scenarios.antt =====
-- execution-authority.ts: a session that is given an authorization to comment on GitHub, is renewed and
-- is released.
use collab.Base.{
  ℕ, ◌≡◌, ◌≢◌, refl, ◌≤◌, ◌<◌, ◌+◌, true, false, none, some, [], ◌∷◌, String, arith, ok, err, never,
  refresh, List,
}
use collab.Base.Table.{get}
use collab.Runs.Lifecycle.{running}
use collab.Authority.Sessions.{
  Tables, SessionContext, Lease, mutating, inspect_only, enforced, first, epochs_of, epoch_of,
  context, read_session, session_view, require_session_fence, session_inactive, session_fence_stale,
}
use collab.Authority.Authorizations.{
  Database, Request, select, runner_ok, count_operations, consume,
}
use collab.Authority.Authorizations.Consumption.{RunnerStands}
use collab.Authority.Policy.{
  runner, safe_actor, SensitiveOperation, mutate_github, actor_may_execute,
  operation_needs_mutation_lease, inspect_only_may_authorize, operation_connector,
}
use collab.Authority.Commands.{
  renewed, released, authorized, idempotency_conflict, Store, CommandBase, SessionCommand,
  renew_session, release_session, authorize_operation, stored_result, persist, is_session_runner,
  connectors_ok, may_keep_lease, renew_row, renew_lease, renew_tables, write_renewal,
  execute_renew_session, release_row, release_lease, release_tables, write_release,
  execute_release_session,
}
use collab.Authority.Commands.Issue.{
  expiry, new_authorization, is_authorized, insert_authorization, execute_authorize_operation,
}
use collab.Authority.Commands.Issue.Checks.{
  Facts, head_ok, approval_ok, may_operate, mode_ok, count_guards, epoch_ok, scope_of,
  check_connector,
}
use collab.Authority.Commands.Fenced.{renew_fences, renew_cuts_off}
use collab.Authority.Commands.Released.{release_ends}
use collab.Authority.Commands.Scopes.{HasKeys}
use collab.Authority.Commands.Consumable.{authorize_bounds, authorize_consumed}
use collab.Authority.Commands.Replay.{refreshed, Action, renew, authorize, execute, run}
use collab.Authority.Commands.Replay.Once.{execute_once}

abbrev tables : Tables
tables = record {
  sessions =
      record {
        id = "s1";
        attempt_id = "a1";
        runner_id = "r1";
        runner_epoch = 1;
        fence = 4;
        repository_mode = mutating;
        repository_assurance = enforced;
        issued_at = 10;
        expires_at = 100;
        is_active = true;
      }
      ∷ [];
  attempts = record { id = "a1"; run_id = "run1"; runner_id = "r1"; state = running } ∷ [];
  policies =
      record {
        run_id = "run1";
        session_seconds = 90;
        renewal_seconds = 30;
        disconnect_grace_seconds = 20;
        deadline_at = 1000;
      }
      ∷ [];
  session_epochs = record { session_id = "s1"; connector_id = "c1"; connector_epoch = 2 } ∷ [];
  leases =
      record {
        id = "l1";
        session_id = "s1";
        attempt_id = "a1";
        fence = 7;
        expires_at = 100;
        disconnect_grace_expires_at = 120;
        is_active = true;
      }
      ∷ [];
}

abbrev database : Database
database = record {
  tables = tables;
  runners = record { id = "r1"; owner_member_id = "m1"; runner_epoch = 1; revoked_at = none } ∷ [];
  connectors = record { connector_id = "c1"; epoch = 2; is_ready = true } ∷ [];
  scopes =
      record {
        id = "scope-1";
        connector_id = "c1";
        revision = 3;
        is_revoked = false;
        project_id = "p1";
        connector_epoch = 2;
      }
      ∷ [];
  scope_operations = record { scope_id = "scope-1"; operation = "ADD_COMMENT" } ∷ [];
  authorizations = [];
}

abbrev store : Store
store = record {
  database = database;
  guards = record { id = "g1"; run_id = "run1"; is_held = true } ∷ [];
  overrides = [];
  results = [];
}

abbrev base : CommandBase
base = record { actor = runner "r1" 1; idempotency_key = "k1"; input_hash = "h1" }

abbrev command : SessionCommand
command = record { base = base; session_id = "s1"; session_fence = 4 }

abbrev comment : SensitiveOperation
comment = mutate_github record {
  project_id = "p1";
  connector_id = "c1";
  connector_epoch = 2;
  resource_id = "issue-5";
  source_revision = some "rev-1";
  action_digest = "x1";
  mutation = "ADD_COMMENT";
}

abbrev facts : Facts
facts = record {
  current_head = none;
  connector_epochs = ("c1", 2) ∷ [];
  connector_scopes = ("c1", "ADD_COMMENT" ∷ []) ∷ [];
  approval_subjects = [];
}

abbrev issued_store : Store
issued_store = (execute_authorize_operation store 50 command comment facts "o1" "d1").0

new_command : stored_result store.results authorize_operation base ≡ none
unfolding stored_result first
new_command = refl

authorized_comment :
    execute_authorize_operation store 50 command comment facts "o1" "d1"
    ≡ (issued_store, ok (authorized "o1" "d1" 60))
unfolding execute_authorize_operation stored_result require_session_fence read_session first context
    epochs_of epoch_of is_session_runner mode_ok may_operate operation_needs_mutation_lease head_ok
    check_connector operation_connector count_guards epoch_ok scope_of get approval_ok is_authorized
    insert_authorization new_authorization expiry select persist safe_actor
authorized_comment = refl

authorize_bounds_example :
    (x : SessionContext) × (end : ℕ) × (require_session_fence tables "s1" 4 50 ≡ ok x)
    × (authorized "o1" "d1" 60 ≡ authorized "o1" "d1" end)
    × (50 < end)
    × (end ≤ 60)
    × (end ≤ x.expires_at)
    × ((l : Lease) → x.lease ≡ some l → end ≤ l.expires_at)
    × (x.repository_mode ≡ inspect_only → inspect_only_may_authorize comment ≡ true)
    × (operation_needs_mutation_lease comment ≡ true
        → (l : Lease) × (x.lease ≡ some l) × (50 < l.expires_at))
authorize_bounds_example =
    authorize_bounds store issued_store 50 command comment facts "o1" "d1" (authorized "o1" "d1" 60)
      new_command authorized_comment

abbrev session : SessionContext
session = record {
  id = "s1";
  attempt_id = "a1";
  run_id = "run1";
  runner_id = "r1";
  runner_epoch = 1;
  fence = 4;
  repository_mode = mutating;
  repository_assurance = enforced;
  issued_at = 10;
  expires_at = 100;
  session_seconds = 90;
  renewal_seconds = 30;
  disconnect_grace_seconds = 20;
  deadline_at = 1000;
  connector_epochs = ("c1", 2) ∷ [];
  lease = some record { id = "l1"; fence = 7; expires_at = 100; disconnect_grace_expires_at = 120 };
}

session_read : read_session tables "s1" ≡ some session
unfolding read_session first context epochs_of
session_read = refl

runner_stands : RunnerStands database session
unfolding first
runner_stands = (
  record { id = "r1"; owner_member_id = "m1"; runner_epoch = 1; revoked_at = none },
  refl,
  refl,
  refl,
)

one_operation : (scope op : String) → count_operations scope op database.scope_operations ≤ 1
unfolding count_operations
one_operation scope op = ground arith

keys : HasKeys database
keys = record { scopes = refl; operations = one_operation }

authorize_consumed_example :
    (consume issued_store.database 55 (record {
      authorization_id = "o1";
      operation_digest = "d1";
      session_id = "s1";
      session_fence = 4;
    })).1
    ≡ ok 55
authorize_consumed_example =
    authorize_consumed store issued_store 50 55 command comment facts "o1" "d1" 60 session
      new_command authorized_comment session_read runner_stands keys tt (omega arith) (omega arith)

authorized_again :
    execute store 50 command (authorize comment (refreshed facts) "o1" "d1")
    ≡ (issued_store, ok (authorized "o1" "d1" 60))
unfolding execute actor_may_execute
authorized_again = authorized_comment

abbrev renewal : SessionCommand
renewal = record {
  base = record base { idempotency_key = "k2" };
  session_id = "s1";
  session_fence = 4;
}

-- A renewal in between.
abbrev calls : List (ℕ × SessionCommand × Action)
calls = (60, renewal, renew 1) ∷ []

execute_once_example :
    (execute (run issued_store calls) 70 command (authorize comment (refreshed facts) "o2" "d2")
      ≡ (run issued_store calls, ok (authorized "o1" "d1" 60)))
    × (execute
          (run issued_store calls)
          70
          (record command { base = record base { input_hash = "h2" } })
          (authorize comment (refreshed facts) "o2" "d2")
        ≡ (run issued_store calls, err idempotency_conflict never))
execute_once_example =
    execute_once store issued_store 50 70 command (authorize comment (refreshed facts) "o1" "d1")
      (authorize comment (refreshed facts) "o2" "d2") "h2" (authorized "o1" "d1" 60) calls
      authorized_again refl refl

abbrev renewed_store : Store
renewed_store = (execute_renew_session store 50 renewal 1).0

abbrev renewed_session : SessionContext
renewed_session = record session {
  fence = 5;
  expires_at = 140;
  lease = some record { id = "l1"; fence = 8; expires_at = 140; disconnect_grace_expires_at = 160 };
}

first_renewal : stored_result store.results renew_session renewal.base ≡ none
unfolding stored_result first
first_renewal = refl

renewed_once :
    execute_renew_session store 50 renewal 1
    ≡ (renewed_store, ok (renewed (session_view renewed_session)))
unfolding execute_renew_session stored_result require_session_fence read_session first context
    epochs_of epoch_of is_session_runner runner_ok connectors_ok may_keep_lease write_renewal
    renew_tables renew_row renew_lease session_view persist safe_actor
renewed_once = refl

renew_fences_example :
    ((y : SessionContext) × (read_session renewed_store.database.tables "s1" ≡ some y)
      × (renewed (session_view renewed_session) ≡ renewed (session_view y))
      × (y.fence ≡ 4 + 1)
      × (y.expires_at ≤ y.deadline_at)
      × (y.expires_at ≤ 50 + y.session_seconds))
    × (require_session_fence renewed_store.database.tables "s1" 4 60
        ≡ err session_fence_stale refresh)
renew_fences_example =
    renew_fences store renewed_store 50 60 renewal 1 (renewed (session_view renewed_session))
      first_renewal renewed_once

-- The renewal once the comment is authorized.
abbrev later_store : Store
later_store = (execute_renew_session issued_store 55 renewal 1).0

abbrev later_session : SessionContext
later_session = record session {
  fence = 5;
  expires_at = 145;
  lease = some record { id = "l1"; fence = 8; expires_at = 145; disconnect_grace_expires_at = 165 };
}

later_renewal : stored_result issued_store.results renew_session renewal.base ≡ none
unfolding stored_result first execute_authorize_operation require_session_fence read_session context
    epochs_of epoch_of is_session_runner mode_ok may_operate operation_needs_mutation_lease head_ok
    check_connector operation_connector count_guards epoch_ok scope_of get approval_ok is_authorized
    insert_authorization new_authorization expiry select persist safe_actor
later_renewal = refl

renewed_later :
    execute_renew_session issued_store 55 renewal 1
    ≡ (later_store, ok (renewed (session_view later_session)))
unfolding execute_renew_session stored_result require_session_fence read_session first context
    epochs_of epoch_of is_session_runner runner_ok connectors_ok may_keep_lease write_renewal
    renew_tables renew_row renew_lease session_view persist safe_actor select
    execute_authorize_operation mode_ok may_operate operation_needs_mutation_lease head_ok
    check_connector operation_connector count_guards epoch_ok get scope_of approval_ok is_authorized
    insert_authorization new_authorization expiry
renewed_later = refl

abbrev old_request : Request
old_request = record {
  authorization_id = "o1";
  operation_digest = "d1";
  session_id = "s1";
  session_fence = 4;
}

renew_cuts_off_example : (consume later_store.database 58 old_request).1 ≢ ok 58
unfolding execute_renew_session stored_result require_session_fence read_session first context
    epochs_of epoch_of is_session_runner runner_ok connectors_ok may_keep_lease write_renewal
    renew_tables renew_row renew_lease session_view persist safe_actor select
    execute_authorize_operation mode_ok may_operate operation_needs_mutation_lease head_ok
    check_connector operation_connector count_guards epoch_ok get scope_of approval_ok is_authorized
    insert_authorization new_authorization expiry
renew_cuts_off_example =
    renew_cuts_off issued_store later_store 55 58 renewal 1 (renewed (session_view later_session))
      old_request
      (new_authorization session 50 "o1" "d1" comment (
        some record {
          id = "c1";
          epoch = 2;
          scope_id = "scope-1";
          scope_revision = 3;
          operation = "ADD_COMMENT";
        }))
      later_renewal renewed_later refl refl refl

abbrev released_store : Store
released_store = (execute_release_session store 50 renewal).0

first_release : stored_result store.results release_session renewal.base ≡ none
unfolding stored_result first
first_release = refl

released_once : execute_release_session store 50 renewal ≡ (released_store, ok released)
unfolding execute_release_session stored_result require_session_fence read_session first context
    epochs_of is_session_runner write_release release_tables release_row release_lease persist
    safe_actor
released_once = refl

release_ends_example :
    (require_session_fence released_store.database.tables "s1" 4 60 ≡ err session_inactive never)
    × ((consume released_store.database 60 record {
      authorization_id = "o1";
      operation_digest = "d1";
      session_id = "s1";
      session_fence = 4;
    }).1
        ≢ ok 60)
release_ends_example =
    release_ends store released_store 50 60 4 renewal released "o1" "d1" first_release released_once
