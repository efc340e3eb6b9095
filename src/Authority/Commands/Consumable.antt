-- ===== src/Authority/Commands/Consumable.antt =====
-- execution-authority.ts with fencing.ts: what an authorization is issued for, how long it lasts, and
-- that it is consumed while it does.
use mathlib.Core.Path.{subst}
use collab.Base.{
  ℕ, ◌+◌, ◌≡◌, refl, sym, ◌≤◌, ◌<◌, true, inl, inr, Option, none, some, ◌∷◌, String, arith, ok,
  Option-cases, Result-cases, eq_iff,
}
use collab.Authority.Sessions.{
  inspect_only, Lease, SessionContext, read_session, require_session_fence,
}
use collab.Authority.Authorizations.{Authorization, select, consume}
use collab.Authority.Policy.{
  SensitiveOperation, operation_needs_mutation_lease, inspect_only_may_authorize,
}
use collab.Authority.Commands.{
  authorize_operation, CommandResult, authorized, Store, SessionCommand, stored_result, persist,
  is_session_runner,
}
use collab.Authority.Commands.Issue.{
  expiry, new_authorization, insert_authorization, execute_authorize_operation,
}
use collab.Authority.Commands.Issue.Checks.{
  Facts, head_ok, approval_ok, may_operate, mode_ok, check_connector, ConnectorColumns,
}
use collab.Authority.Commands.Fenced.{fence_passed, read_session-id}
use collab.Authority.Commands.Scopes.{HasKeys, columns-ConnectorStands}
use collab.Authority.Authorizations.Consumption.{Unique, RunnerStands, LeaseStands, Stands-consumed}

-- What an authorization was issued on: the session of the command and the checks that it passed.
pub record Issued (s s' : Store) (now : ℕ) (c : SessionCommand) (op : SensitiveOperation)
    (f : Facts) (id digest : String) (r : CommandResult) (x : SessionContext)
    (columns : Option ConnectorColumns) : Type 0 where
  pub fenced : require_session_fence s.database.tables c.session_id c.session_fence now ≡ ok x
  pub runner : is_session_runner c.base.actor x ≡ true
  pub mode : mode_ok x op ≡ true
  pub lease : may_operate x now op ≡ true
  pub head : head_ok f op ≡ true
  pub approval : approval_ok f op ≡ true
  pub connector : check_connector s x f op ≡ ok columns
  pub inserted :
      insert_authorization s c (new_authorization x now id digest op columns) ≡ (s', ok r)

pub Issued-of :
    (s s' : Store) (now : ℕ) (c : SessionCommand) (op : SensitiveOperation) (f : Facts)
    (id digest : String) (r : CommandResult)
    → stored_result s.results authorize_operation c.base ≡ none
    → execute_authorize_operation s now c op f id digest ≡ (s', ok r)
    → (x : SessionContext) × (columns : Option ConnectorColumns) × Issued s s' now c op f id digest
        r x columns
unfolding execute_authorize_operation
Issued-of s s' now c op f id digest r new h =
    elim (Result-cases (require_session_fence s.database.tables c.session_id c.session_fence now)) [
      | inr (e, y, refused) ↦ absurd (ground arith)
      | inl (x, at) ↦ elim (Result-cases (check_connector s x f op)) [
        | inr (e, y, refused) ↦ absurd (ground arith)
        | inl (columns, granted) ↦ (
          x,
          columns,
          record {
            fenced = at;
            runner = ground arith;
            mode = ground arith;
            lease = ground arith;
            head = ground arith;
            approval = ground arith;
            connector = granted;
            inserted = ground arith;
          },
        )
      ]
    ]

-- What the INSERT leaves and answers.
inserted_row :
    (s s' : Store) (c : SessionCommand) (a : Authorization) (r : CommandResult)
    → insert_authorization s c a ≡ (s', ok r)
    → (s'.database ≡ record s.database { authorizations = a ∷ s.database.authorizations })
      × (r ≡ authorized a.id a.operation_digest a.expires_at)
      × (select a.id s.database.authorizations ≡ none)
      × (a.issued_at < a.expires_at)
unfolding insert_authorization persist
inserted_row s s' c a r h = elim (Option-cases (select a.id s.database.authorizations)) [
  | inr (b, taken) ↦ absurd (ground arith)
  | inl new ↦ (ground arith, ground arith, new, ground arith)
]

-- An authorization that is issued, and not answered from a stored result, lasts some time, at most ten
-- seconds, and no longer than its session, whose fence is the command's, and than the session's lease.
-- A session that only inspects is given one for local gates only. For any other operation the session
-- holds a lease that has not expired.
pub authorize_bounds :
    (s s' : Store) (now : ℕ) (c : SessionCommand) (op : SensitiveOperation) (f : Facts)
    (id digest : String) (r : CommandResult)
    → stored_result s.results authorize_operation c.base ≡ none
    → execute_authorize_operation s now c op f id digest ≡ (s', ok r)
    → (x : SessionContext) × (end : ℕ) × (require_session_fence s.database.tables c.session_id
          c.session_fence now
        ≡ ok x)
      × (r ≡ authorized id digest end)
      × (now < end)
      × (end ≤ now + 10)
      × (end ≤ x.expires_at)
      × ((l : Lease) → x.lease ≡ some l → end ≤ l.expires_at)
      × (x.repository_mode ≡ inspect_only → inspect_only_may_authorize op ≡ true)
      × (operation_needs_mutation_lease op ≡ true
          → (l : Lease) × (x.lease ≡ some l) × (now < l.expires_at))
unfolding new_authorization expiry may_operate mode_ok
authorize_bounds s s' now c op f id digest r new h =
    let (x, columns, given) = Issued-of s s' now c op f id digest r new h in
    let a = new_authorization x now id digest op columns in
    let (_, answer, _, lasts) = inserted_row s s' c a r given.inserted in
    (
      x,
      expiry x now,
      given.fenced,
      answer,
      lasts,
      ground arith,
      ground arith,
      (λ l e. ground arith),
      (λ e. ground (arith, given.mode)),
      λ needs. elim (Option-cases x.lease) [
        | inl without ↦ absurd (ground (arith, given.lease))
        | inr (l, e) ↦ (l, e, ground (arith, given.lease))
      ],
    )

lease_stands :
    (x : SessionContext) (now t : ℕ) (id digest : String) (op : SensitiveOperation)
    (columns : Option ConnectorColumns)
    → t < expiry x now
    → LeaseStands t x (new_authorization x now id digest op columns)
unfolding new_authorization expiry
lease_stands x now t id digest op columns h = elim (Option-cases x.lease) [
  | inl without ↦ inl (ground arith)
  | inr (l, e) ↦ inr (l, e, ground arith, ground arith)
]

-- An authorization that is issued is consumed by its session at any time before it ends, as long as
-- nothing is changed in between: the runner stands as it did, and the keys of the tables are unique.
pub authorize_consumed :
    (s s' : Store) (now t : ℕ) (c : SessionCommand) (op : SensitiveOperation) (f : Facts)
    (id digest : String) (end : ℕ) (x : SessionContext)
    → stored_result s.results authorize_operation c.base ≡ none
    → execute_authorize_operation s now c op f id digest ≡ (s', ok (authorized id digest end))
    → read_session s.database.tables c.session_id ≡ some x
    → RunnerStands s.database x
    → HasKeys s.database
    → Unique s.database.authorizations
    → now ≤ t
    → t < end
    → (consume s'.database t (record {
      authorization_id = id;
      operation_digest = digest;
      session_id = c.session_id;
      session_fence = c.session_fence;
    })).1
      ≡ ok t
unfolding new_authorization select
authorize_consumed s s' now t c op f id digest end x new h read runner keys unique after before =
    let (y, columns, given) =
      Issued-of s s' now c op f id digest (authorized id digest end) new h in
    let (seen, fence, _, _) =
      fence_passed s.database.tables c.session_id c.session_fence now y given.fenced in
    let at : y ≡ x = ground arith in
    let given' =
      subst (λ z. Issued s s' now c op f id digest (authorized id digest end) z columns) at given in
    let fence' : x.fence ≡ c.session_fence =
      subst (λ (z : SessionContext). z.fence ≡ c.session_fence) at fence in
    let a = new_authorization x now id digest op columns in
    let (db, answer, free, lasts) =
      inserted_row s s' c a (authorized id digest end) given'.inserted in
    let ends : end ≡ expiry x now = ground arith in
    subst
      (λ d.
        (consume d t (record {
          authorization_id = id;
          operation_digest = digest;
          session_id = c.session_id;
          session_fence = c.session_fence;
        })).1
        ≡ ok t)
      (sym db)
      (Stands-consumed (record s.database { authorizations = a ∷ s.database.authorizations }) t _ a
        x (free, unique)
        (record {
          row = ground (arith, eq_iff id id);
          state = refl;
          digest = refl;
          session_id = read_session-id s.database.tables c.session_id x read;
          after = after;
          before = ground arith;
          session = read;
          presented = sym fence';
          granted = refl;
          runner = runner;
          connector = columns-ConnectorStands s x f op columns now id digest keys given'.connector;
          lease = lease_stands x now t id digest op columns (ground arith);
        }))
