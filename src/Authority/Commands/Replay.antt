-- ===== src/Authority/Commands/Replay.antt =====
-- execution-authority.ts: a command that is sent again is answered with its stored result, and one
-- that reuses its key for another input is refused.
pub mod Once
use collab.Base.{
  ℕ, ◌≡◌, refl, true, false, inl, inr, some, List, ◌∷◌, String, same, arith, Result, ok, err, never,
  refresh, same_input, if◌then◌else◌, [], none, Bool, ◌&&◌, ap, ◌∙◌, ◌⊎◌, Bool-cases, sym,
  Option-cases, Result-cases, eq_iff,
}
use collab.Authority.Sessions.{read_session, first, require_session_fence, session_view}
use collab.Authority.Policy.{
  SensitiveOperation, safe_actor, Command, renew_authority_session, release_authority_session,
  actor_may_execute,
}
use collab.Authority.Commands.{
  CommandError, idempotency_conflict, storage_failed, actor_not_authorized,
  authority_fact_unavailable, refuse, CommandKind, renew_session, release_session,
  authorize_operation, apply_revocation, CommandResult, renewed, released, authorized, StoredResult,
  Store, CommandBase, SessionCommand, Answer, same_kind, is_stored, stored_result, persist,
  renew_tables, write_renewal, execute_renew_session, release_tables, write_release,
  execute_release_session,
}
use collab.Authority.Authorizations.{Authorization}
use collab.Authority.Commands.Consumable.{Issued-of}
use collab.Authority.Commands.Issue.{
  new_authorization, insert_authorization, execute_authorize_operation,
}
use collab.Authority.Commands.Issue.Checks.{Facts}

-- What `authorityFacts.refresh` gives: facts, no facts, or a throw.
pub data Refreshed : Type 0 where
  refreshed : Facts → Refreshed
  unavailable failed : Refreshed

-- The commands of a runner's session, with what the server adds: the facts that it refreshes, the new
-- identifier and the digest.
pub data Action : Type 0 where
  renew : ℕ → Action
  release : Action
  authorize : SensitiveOperation → Refreshed → String → String → Action

abbrev pub command_of : Action → Command
command_of (renew _) = renew_authority_session
command_of release = release_authority_session
command_of (authorize _ _ _ _) = Command.authorize_operation

abbrev authorize_with :
    Store → ℕ → SessionCommand → SensitiveOperation → String → String → Refreshed → Answer
authorize_with s now c op id digest (refreshed f) =
    execute_authorize_operation s now c op f id digest
authorize_with s now c op id digest unavailable = refuse s authority_fact_unavailable refresh
authorize_with s now c op id digest failed = refuse s storage_failed same_input

abbrev pub dispatch : Store → ℕ → SessionCommand → Action → Answer
dispatch s now c (renew epoch) = execute_renew_session s now c epoch
dispatch s now c release = execute_release_session s now c
dispatch s now c (authorize op f id digest) = authorize_with s now c op id digest f

-- `execute` for these commands, once the schema has accepted them. The facts of an authorization are
-- refreshed before anything is looked up, and without them the command is refused.
unfoldable pub execute : Store → ℕ → SessionCommand → Action → Answer
execute s now c a =
    if actor_may_execute (command_of a) c.base.actor
    then dispatch s now c a
    else refuse s actor_not_authorized never

-- Commands one after the other, each at its time.
unfoldable pub run : Store → List (ℕ × SessionCommand × Action) → Store
run s [] = s
run s ((now, c, a) ∷ calls) = run (execute s now c a).0 calls

abbrev pub kind_of : Action → CommandKind
kind_of (renew _) = renew_session
kind_of release = release_session
kind_of (authorize _ _ _ _) = authorize_operation

same_kind_self : (k : CommandKind) → same_kind k k ≡ true
same_kind_self renew_session = refl
same_kind_self release_session = refl
same_kind_self authorize_operation = refl
same_kind_self apply_revocation = refl

persist-stored :
    (kind : CommandKind) (c : CommandBase) (result r : CommandResult) (s s' : Store)
    → persist kind c result s ≡ (s', ok r)
    → stored_result s'.results kind c ≡ some (ok r)
unfolding persist stored_result first
persist-stored kind c result r s s' h = ground (
  arith,
  same_kind_self kind,
  eq_iff (safe_actor c.actor).id (safe_actor c.actor).id,
  eq_iff c.idempotency_key c.idempotency_key,
  eq_iff c.input_hash c.input_hash,
)

renew-stored :
    (s s' : Store) (now : ℕ) (c : SessionCommand) (epoch : ℕ) (r : CommandResult)
    → execute_renew_session s now c epoch ≡ (s', ok r)
    → stored_result s'.results renew_session c.base ≡ some (ok r)
unfolding execute_renew_session write_renewal
renew-stored s s' now c epoch r h =
    elim (Option-cases (stored_result s.results renew_session c.base)) [
      | inr (answer, known) ↦ ground arith
      | inl new ↦
          elim (Result-cases
            (require_session_fence s.database.tables c.session_id c.session_fence now)) [
              | inr (e, y, refused) ↦ absurd (ground arith)
              | inl (x, at) ↦
                  elim (Option-cases (read_session (renew_tables x now s.database.tables) x.id)) [
                    | inl lost ↦ absurd (ground arith)
                    | inr (y, read) ↦
                        persist-stored renew_session c.base (renewed (session_view y)) r
                          (record s {
                            database = record s.database {
                              tables = renew_tables x now s.database.tables;
                            };
                          })
                          s' (ground arith)
                  ]
            ]
    ]

release-stored :
    (s s' : Store) (now : ℕ) (c : SessionCommand) (r : CommandResult)
    → execute_release_session s now c ≡ (s', ok r)
    → stored_result s'.results release_session c.base ≡ some (ok r)
unfolding execute_release_session write_release
release-stored s s' now c r h =
    elim (Option-cases (stored_result s.results release_session c.base)) [
      | inr (answer, known) ↦ ground arith
      | inl new ↦
          elim (Result-cases
            (require_session_fence s.database.tables c.session_id c.session_fence now)) [
              | inr (e, y, refused) ↦ absurd (ground arith)
              | inl (x, at) ↦
                  persist-stored release_session c.base released r
                    (record s {
                      database = record s.database {
                        tables = release_tables c.session_id c.session_fence s.database.tables;
                      };
                    })
                    s' (ground arith)
            ]
    ]

insert-stored :
    (s s' : Store) (c : SessionCommand) (a : Authorization) (r : CommandResult)
    → insert_authorization s c a ≡ (s', ok r)
    → stored_result s'.results authorize_operation c.base ≡ some (ok r)
unfolding insert_authorization
insert-stored s s' c a r h =
    persist-stored authorize_operation c.base (authorized a.id a.operation_digest a.expires_at) r
      (record s { database = record s.database { authorizations = a ∷ s.database.authorizations } })
      s' (ground arith)

authorize-stored :
    (s s' : Store) (now : ℕ) (c : SessionCommand) (op : SensitiveOperation) (f : Facts)
    (id digest : String) (r : CommandResult)
    → execute_authorize_operation s now c op f id digest ≡ (s', ok r)
    → stored_result s'.results authorize_operation c.base ≡ some (ok r)
unfolding execute_authorize_operation
authorize-stored s s' now c op f id digest r h =
    elim (Option-cases (stored_result s.results authorize_operation c.base)) [
      | inr (answer, known) ↦ ground arith
      | inl new ↦
          let (x, columns, issued) = Issued-of s s' now c op f id digest r new h in
          insert-stored s s' c (new_authorization x now id digest op columns) r issued.inserted
    ]

pub action-stored :
    (s s' : Store) (now : ℕ) (c : SessionCommand) (a : Action) (r : CommandResult)
    → execute s now c a ≡ (s', ok r)
    → (stored_result s'.results (kind_of a) c.base ≡ some (ok r))
      × (actor_may_execute (command_of a) c.base.actor ≡ true)
unfolding execute
action-stored s s' now c (renew epoch) r h =
    (renew-stored s s' now c epoch r (ground arith), ground arith)
action-stored s s' now c release r h = (release-stored s s' now c r (ground arith), ground arith)
action-stored s s' now c (authorize op (refreshed f) id digest) r h =
    (authorize-stored s s' now c op f id digest r (ground arith), ground arith)
action-stored s s' now c (authorize op unavailable id digest) r h = absurd (ground arith)
action-stored s s' now c (authorize op failed id digest) r h = absurd (ground arith)

-- What a stored answer becomes: without refreshed facts there is none.
abbrev pub served : Action → Result CommandError CommandResult → Result CommandError CommandResult
served (authorize _ unavailable _ _) answer = err authority_fact_unavailable refresh
served (authorize _ failed _ _) answer = err storage_failed same_input
served _ answer = answer

pub stored-execute :
    (s : Store) (now : ℕ) (c : SessionCommand) (a : Action)
    (answer : Result CommandError CommandResult)
    → actor_may_execute (command_of a) c.base.actor ≡ true
    → stored_result s.results (kind_of a) c.base ≡ some answer
    → execute s now c a ≡ (s, served a answer)
unfolding execute execute_renew_session execute_release_session execute_authorize_operation
stored-execute s now c (renew epoch) answer may h = ground arith
stored-execute s now c release answer may h = ground arith
stored-execute s now c (authorize op (refreshed f) id digest) answer may h = ground arith
stored-execute s now c (authorize op unavailable id digest) answer may h = ground arith
stored-execute s now c (authorize op failed id digest) answer may h = ground arith

pub rehashed :
    (rows : List StoredResult) (k : CommandKind) (c : CommandBase) (hash : String)
    (answer : Result CommandError CommandResult) (r : CommandResult)
    → stored_result rows k c ≡ some (ok r)
    → same c.input_hash hash ≡ false
    → stored_result rows k (record c { input_hash = hash }) ≡ some (err idempotency_conflict never)
unfolding stored_result
rehashed rows k c hash answer r h n = elim (Option-cases (first (is_stored k c) rows)) [
  | inl e ↦ absurd (ground arith)
  | inr (row, e) ↦ ground (arith, eq_iff row.input_hash c.input_hash)
]
