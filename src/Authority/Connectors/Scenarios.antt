-- ===== src/Authority/Connectors/Scenarios.antt =====
-- fencing.ts: a comment on an issue that a session's connector may write.
use collab.Base.{◌<◌, refl, true, false, none, some, List, [], ◌∷◌}
use collab.Runs.Lifecycle.{running}
use collab.Authority.Sessions.{
  Tables, SessionContext, mutating, enforced, first, epochs_of, epoch_of, context, read_session,
  require_session_fence,
}
use collab.Authority.Authorizations.{
  Authorization, issued, mutate_github, Database, select, mark_consumed, runner_ok, connector_ok,
  count_scopes, count_operations, lease_ok, finish, consume,
}
use collab.Authority.Authorizations.Consumption.{Stands}
use collab.Authority.Connectors.Authorized.{Names, consume_action-Stands}
use collab.Authority.Connectors.{
  Action, BindingRow, github, load, matches, is_bound_kind, verify, consume_action,
}

abbrev tables : Tables
tables = record {
  sessions =
      record {
        id = "s1";
        attempt_id = "a1";
        runner_id = "r1";
        runner_epoch = 1;
        fence = 4;
        repository_mode = mutating;
        repository_assurance = enforced;
        issued_at = 10;
        expires_at = 100;
        is_active = true;
      }
      ∷ [];
  attempts = record { id = "a1"; run_id = "run1"; runner_id = "r1"; state = running } ∷ [];
  policies =
      record {
        run_id = "run1";
        session_seconds = 90;
        renewal_seconds = 30;
        disconnect_grace_seconds = 20;
        deadline_at = 1000;
      }
      ∷ [];
  session_epochs = record { session_id = "s1"; connector_id = "c1"; connector_epoch = 2 } ∷ [];
  leases = [];
}

abbrev authorization : Authorization
authorization = record {
  id = "o1";
  session_id = "s1";
  session_fence = 4;
  mutation_lease_fence = none;
  operation_kind = mutate_github;
  operation_digest = "d1";
  resource_id = some "issue-5";
  connector_id = some "c1";
  connector_epoch = some 2;
  connector_scope_id = some "scope-1";
  connector_scope_revision = some 3;
  connector_operation = some "COMMENT";
  action_digest = some "x1";
  state = issued;
  revision = 1;
  issued_at = 20;
  expires_at = 80;
  consumed_at = none;
}

abbrev database : Database
database = record {
  tables = tables;
  runners = record { id = "r1"; owner_member_id = "m1"; runner_epoch = 1; revoked_at = none } ∷ [];
  connectors = record { connector_id = "c1"; epoch = 2; is_ready = true } ∷ [];
  scopes =
      record {
        id = "scope-1";
        connector_id = "c1";
        revision = 3;
        is_revoked = false;
        project_id = "p1";
        connector_epoch = 2;
      }
      ∷ [];
  scope_operations = record { scope_id = "scope-1"; operation = "COMMENT" } ∷ [];
  authorizations = authorization ∷ [];
}

abbrev bindings : List BindingRow
bindings = record { connector_id = "c1"; provider = github } ∷ []

abbrev action : Action
action = record {
  authorization_id = "o1";
  authorization_proof = "d1";
  project_id = "p1";
  connector_id = "c1";
  connector_epoch = 2;
  reference = "issue-5";
  operation = "COMMENT";
  action_digest = "x1";
}

consume_action-Stands_example :
    (a : Authorization) × (s : SessionContext) × Names database bindings 50 action a
    × (51 < s.expires_at)
    × (51 < s.deadline_at)
    × Stands database 52
        (record {
          authorization_id = "o1";
          operation_digest = "d1";
          session_id = a.session_id;
          session_fence = a.session_fence;
        })
        a
        s
unfolding consume_action verify load matches is_bound_kind require_session_fence consume finish
    select mark_consumed read_session first context epochs_of epoch_of runner_ok connector_ok
    count_scopes count_operations lease_ok
consume_action-Stands_example = consume_action-Stands database bindings 50 51 52 action 52 refl
