-- ===== src/Authority/Commands/Scopes.antt =====
-- The scope that execution-authority.ts finds for an operation is the one that fencing.ts counts.
use mathlib.Core.Path.{subst}
use collab.Base.{
  ℕ, ◌≡◌, refl, sym, ◌≤◌, Bool, true, false, ◌&&◌, ◌⊎◌, inl, inr, Option, none, some, List, [], ◌∷◌,
  map, String, same, arith, any, includes, distinct, Bool-cases, Option-cases, eq_iff, ok,
}
use collab.Authority.Sessions.{first, epoch_of, SessionContext}
use collab.Authority.Authorizations.{
  ConnectorRow, ScopeRow, ScopeOperationRow, Database, count_operations, count_scopes,
}
use collab.Authority.Authorizations.Consumption.{ScopeStands, counted-ScopeStands, ConnectorStands}
use collab.Authority.Policy.{ConnectorAction, SensitiveOperation, operation_connector}
use collab.Authority.Commands.{Store}
use collab.Authority.Commands.Issue.{new_authorization}
use collab.Authority.Commands.Issue.Checks.{
  Facts, grants, scope_of, epoch_ok, ConnectorColumns, check_connector,
}

-- The primary keys of connector_scopes and connector_scope_operations.
pub record HasKeys (db : Database) : Type 0 where
  pub scopes : distinct (map (λ (s : ScopeRow). s.id) db.scopes) ≡ true
  pub operations : (scope op : String) → count_operations scope op db.scope_operations ≤ 1

abbrev ids : List ScopeRow → List String
ids ss = map (λ (s : ScopeRow). s.id) ss

counted :
    (os : List ScopeOperationRow) (scope op : String)
    → any (λ (o : ScopeOperationRow). same o.scope_id scope && same o.operation op) os ≡ true
    → 1 ≤ count_operations scope op os
unfolding count_operations
counted [] scope op h = cc
counted (o ∷ os) scope op h = ground (arith, counted os scope op)

none_counted :
    (ss : List ScopeRow) (os : List ScopeOperationRow) (id op connector : String) (revision : ℕ)
    → includes (ids ss) id ≡ false
    → count_scopes id revision op connector os ss ≡ 0
unfolding count_scopes
none_counted [] os id op connector revision h = refl
none_counted (s ∷ ss) os id op connector revision h =
    ground (arith, none_counted ss os id op connector revision)

first-listed :
    (p : ScopeRow → Bool) (ss : List ScopeRow) (s : ScopeRow)
    → first p ss ≡ some s
    → includes (ids ss) s.id ≡ true
unfolding first
first-listed p [] s h = cc
first-listed p (x ∷ ss) s h = elim (Bool-cases (p x)) [
  | inl at ↦
      let same_row : x ≡ s = ground arith in
      subst (λ y. includes (ids (x ∷ ss)) y.id ≡ true) same_row (ground (arith, eq_iff x.id x.id))
  | inr other ↦ ground (arith, first-listed p ss s)
]

one_counted :
    (ss : List ScopeRow) (os : List ScopeOperationRow) (a : ConnectorAction) (s : ScopeRow)
    → distinct (ids ss) ≡ true
    → count_operations s.id a.mutation os ≤ 1
    → first (grants os a) ss ≡ some s
    → count_scopes s.id s.revision a.mutation a.connector_id os ss ≡ 1
unfolding count_scopes first
one_counted [] os a s d u h = cc
one_counted (x ∷ ss) os a s d u h = elim (Bool-cases (grants os a x)) [
  | inl at ↦
      let same_row : x ≡ s = ground arith in
      let once : count_operations x.id a.mutation os ≤ 1 =
        subst (λ (y : ScopeRow). count_operations y.id a.mutation os ≤ 1) (sym same_row) u in
      let some_op = counted os x.id a.mutation (ground arith) in
      let others = none_counted ss os x.id a.mutation a.connector_id x.revision (ground arith) in
      subst
        (λ (y : ScopeRow). count_scopes y.id y.revision a.mutation a.connector_id os (x ∷ ss) ≡ 1)
        same_row (ground (arith, eq_iff x.id x.id))
  | inr other ↦
      let listed = first-listed (grants os a) ss s (ground arith) in
      let rest = one_counted ss os a s (ground arith) u (ground arith) in
      ground (arith, eq_iff x.id s.id)
]

-- What the checks of an operation found.
checked :
    (s : Store) (x : SessionContext) (f : Facts) (op : SensitiveOperation)
    (columns : Option ConnectorColumns)
    → check_connector s x f op ≡ ok columns
    → (columns ≡ none)
      ⊎ ((a : ConnectorAction) × (r : ScopeRow) × (epoch_ok s.database x f a ≡ true)
          × (scope_of s.database a ≡ some r)
          × (columns
              ≡ some record {
                id = a.connector_id;
                epoch = a.connector_epoch;
                scope_id = r.id;
                scope_revision = r.revision;
                operation = a.mutation;
              }))
unfolding check_connector
checked s x f op columns h = elim (Option-cases (operation_connector op)) [
  | inl without ↦ inl (ground arith)
  | inr (a, at) ↦ elim (Option-cases (scope_of s.database a)) [
    | inl missing ↦ absurd (ground arith)
    | inr (r, found) ↦ inr (a, r, ground arith, found, ground arith)
  ]
]

pub columns-ConnectorStands :
    (s : Store) (x : SessionContext) (f : Facts) (op : SensitiveOperation)
    (columns : Option ConnectorColumns) (now : ℕ) (id digest : String)
    → HasKeys s.database
    → check_connector s x f op ≡ ok columns
    → ConnectorStands s.database x (new_authorization x now id digest op columns)
unfolding new_authorization epoch_ok scope_of
columns-ConnectorStands s x f op columns now id digest keys h = elim (checked s x f op columns h) [
  | inl without ↦ inl (ground arith)
  | inr (a, r, epoch, found, at) ↦
      elim (Option-cases
        (first (λ (c : ConnectorRow). same c.connector_id a.connector_id) s.database.connectors)) [
          | inl missing ↦ absurd (ground arith)
          | inr (c, row) ↦
              let one =
                one_counted s.database.scopes s.database.scope_operations a r keys.scopes
                  (keys.operations r.id a.mutation) found in
              elim (Option-cases (epoch_of a.connector_id x.connector_epochs)) [
                | inl unknown ↦ absurd (ground arith)
                | inr (e, held) ↦ inr (
                  a.connector_id,
                  c,
                  ground arith,
                  row,
                  ground arith,
                  ground arith,
                  ground arith,
                  ground arith,
                  subst
                      (λ cs.
                        ScopeStands s.database (new_authorization x now id digest op cs)
                          a.connector_id)
                      (sym at)
                      (counted-ScopeStands r.id r.revision a.mutation a.connector_id
                        s.database.scope_operations s.database.scopes (omega (arith, one))),
                )
              ]
        ]
]
