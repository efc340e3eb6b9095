-- ===== src/Authority/Authorizations/Scenarios.antt =====
-- fencing.ts: one session with a lease and one authorization to change the repository.
use collab.Base.{true, ◌≡◌, ◌≢◌, ◌↔◌, refl, none, some, [], ◌∷◌, ok}
use collab.Runs.Lifecycle.{running}
use collab.Authority.Sessions.{
  Tables, SessionContext, mutating, enforced, first, epochs_of, context, read_session,
}
use collab.Authority.Authorizations.{
  Authorization, issued, mutate_repository, Database, Request, select, mark_consumed, runner_ok,
  connector_ok, lease_ok, finish, consume,
}
use collab.Authority.Authorizations.Consumption.{Stands, consume_iff}
use collab.Authority.Authorizations.SingleUse.{run, single_use}

abbrev tables : Tables
tables = record {
  sessions =
      record {
        id = "s1";
        attempt_id = "a1";
        runner_id = "r1";
        runner_epoch = 1;
        fence = 4;
        repository_mode = mutating;
        repository_assurance = enforced;
        issued_at = 10;
        expires_at = 100;
        is_active = true;
      }
      ∷ [];
  attempts = record { id = "a1"; run_id = "run1"; runner_id = "r1"; state = running } ∷ [];
  policies =
      record {
        run_id = "run1";
        session_seconds = 90;
        renewal_seconds = 30;
        disconnect_grace_seconds = 20;
        deadline_at = 1000;
      }
      ∷ [];
  session_epochs = [];
  leases =
      record {
        id = "l1";
        session_id = "s1";
        attempt_id = "a1";
        fence = 7;
        expires_at = 90;
        disconnect_grace_expires_at = 110;
        is_active = true;
      }
      ∷ [];
}

abbrev authorization : Authorization
authorization = record {
  id = "o1";
  session_id = "s1";
  session_fence = 4;
  mutation_lease_fence = some 7;
  operation_kind = mutate_repository;
  operation_digest = "d1";
  resource_id = none;
  connector_id = none;
  connector_epoch = none;
  connector_scope_id = none;
  connector_scope_revision = none;
  connector_operation = none;
  action_digest = none;
  state = issued;
  revision = 1;
  issued_at = 20;
  expires_at = 80;
  consumed_at = none;
}

abbrev database : Database
database = record {
  tables = tables;
  runners = record { id = "r1"; owner_member_id = "m1"; runner_epoch = 1; revoked_at = none } ∷ [];
  connectors = [];
  scopes = [];
  scope_operations = [];
  authorizations = authorization ∷ [];
}

abbrev request : Request
request = record {
  authorization_id = "o1";
  operation_digest = "d1";
  session_id = "s1";
  session_fence = 4;
}

consume_iff_example :
    ((consume database 50 request).1 ≡ ok 50)
    ↔ ((a : Authorization) × (s : SessionContext) × Stands database 50 request a s)
unfolding select
consume_iff_example = consume_iff database 50 request (refl, tt)

single_use_example : (consume (run (consume database 50 request).0 []) 60 request).1 ≢ ok 60
unfolding consume finish select mark_consumed read_session first context epochs_of runner_ok
    connector_ok lease_ok
single_use_example = single_use database 50 request 50 [] 60 request refl refl 60
