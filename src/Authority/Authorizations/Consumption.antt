-- ===== src/Authority/Authorizations/Consumption.antt =====
-- fencing.ts: an authorization is consumed exactly when everything that it depends on still stands.
use collab.Base.{
  ℕ, ◌≤◌, false, not, ◌&&◌, ◌==◌, ◌<◌, true, ◌≡◌, ◌↔◌, refl, ap, ◌∙◌, none, some, List, [], ◌∷◌,
  String, same, ok, arith, eq_iff, Bool-cases, Option-cases, inl, inr, ◌⊎◌,
}
use mathlib.Core.List.{Memᴰ}
use mathlib.Core.Path.{subst}
use collab.Authority.Sessions.{Lease, first, epoch_of, SessionContext, read_session}
use collab.Authority.Authorizations.{
  RunnerRow, ConnectorRow, ScopeRow, ScopeOperationRow, count_scopes, or_else, Authorization,
  issued, Database, Request, select, mark_consumed, runner_ok, connector_ok, lease_ok, finish,
  consume,
}

-- Identifiers are a primary key.
abbrev pub Unique : List Authorization → Type 0
Unique [] = Unit {0}
Unique (a ∷ rows) = (select a.id rows ≡ none) × Unique rows

-- The session's runner is registered, not revoked, and has the epoch of the session.
abbrev pub RunnerStands : Database → SessionContext → Type 0
RunnerStands db s =
    (r : RunnerRow) × (first (λ (x : RunnerRow). same x.id s.runner_id) db.runners ≡ some r)
    × (r.revoked_at ≡ none)
    × (r.runner_epoch ≡ s.runner_epoch)

-- A scope of the authorization that is not revoked and belongs to the connector.
abbrev pub ScopeStands : Database → Authorization → String → Type 0
ScopeStands db a k =
    (r : ScopeRow) × Memᴰ r db.scopes
    × (r.id ≡ or_else "" a.connector_scope_id)
    × (r.revision ≡ or_else 0 a.connector_scope_revision)
    × (r.is_revoked ≡ false)
    × (r.connector_id ≡ k)

pub counted-ScopeStands :
    (id : String) (revision : ℕ) (operation k : String) (os : List ScopeOperationRow)
    (ss : List ScopeRow)
    → 1 ≤ count_scopes id revision operation k os ss
    → (r : ScopeRow) × Memᴰ r ss
      × (r.id ≡ id)
      × (r.revision ≡ revision)
      × (r.is_revoked ≡ false)
      × (r.connector_id ≡ k)
unfolding count_scopes
counted-ScopeStands id revision operation k os [] h = absurd (ground arith)
counted-ScopeStands id revision operation k os (r ∷ ss) h =
    elim (Bool-cases
      (same r.id id && r.revision == revision && not r.is_revoked && same r.connector_id k)) [
        | inl at ↦ (
          r,
          Memᴰ.head refl,
          (eq_iff r.id id).0 (ground arith),
          ground arith,
          ground arith,
          (eq_iff r.connector_id k).0 (ground arith),
        )
        | inr other ↦
            let (x, m, named, revised, stands, owned) =
              counted-ScopeStands id revision operation k os ss (ground arith) in
            (x, Memᴰ.tail m, named, revised, stands, owned)
      ]

-- No connector is used, or it is ready, its epoch is that of the authorization and of the session, and
-- exactly one scope allows the operation, which is not revoked and belongs to the connector.
abbrev pub ConnectorStands : Database → SessionContext → Authorization → Type 0
ConnectorStands db s a =
    (a.connector_id ≡ none)
    ⊎ ((k : String) × (c : ConnectorRow) × (a.connector_id ≡ some k)
        × (first (λ (x : ConnectorRow). same x.connector_id k) db.connectors ≡ some c)
        × (c.is_ready ≡ true)
        × (a.connector_epoch ≡ some c.epoch)
        × (epoch_of k s.connector_epochs ≡ some c.epoch)
        × (count_scopes (or_else "" a.connector_scope_id) (or_else 0 a.connector_scope_revision)
              (or_else "" a.connector_operation) k db.scope_operations db.scopes
            ≡ 1)
        × ScopeStands db a k)

-- No mutation lease is needed, or the session has one with this fence that has not expired.
abbrev pub LeaseStands : ℕ → SessionContext → Authorization → Type 0
LeaseStands now s a =
    (a.mutation_lease_fence ≡ none)
    ⊎ ((l : Lease) × (s.lease ≡ some l)
        × (a.mutation_lease_fence ≡ some l.fence)
        × (now < l.expires_at))

runner_ok_iff : (db : Database) (s : SessionContext) → (runner_ok db s ≡ true) ↔ RunnerStands db s
unfolding runner_ok
runner_ok_iff db s = (forth, λ (r, e, v, n). ground arith)
  where
    forth : runner_ok db s ≡ true → RunnerStands db s
    forth h = elim (Option-cases (first (λ (x : RunnerRow). same x.id s.runner_id) db.runners)) [
      | inl e ↦ ground arith
      | inr (r, e) ↦ (r, e, ground arith, ground arith)
    ]

lease_ok_iff :
    (now : ℕ) (s : SessionContext) (a : Authorization)
    → (lease_ok now s a ≡ true) ↔ LeaseStands now s a
unfolding lease_ok
lease_ok_iff now s a = (forth, back)
  where
    forth : lease_ok now s a ≡ true → LeaseStands now s a
    forth h = elim (Option-cases a.mutation_lease_fence) [
      | inl e ↦ inl e
      | inr (f, e) ↦ elim (Option-cases s.lease) [
        | inl n ↦ ground arith
        | inr (l, n) ↦ inr (l, n, ground arith, ground arith)
      ]
    ]

    back : LeaseStands now s a → lease_ok now s a ≡ true
    back (inl e) = ground arith
    back (inr (l, n, f, t)) = ground arith

connector_ok_iff :
    (db : Database) (s : SessionContext) (a : Authorization)
    → (connector_ok db s a ≡ true) ↔ ConnectorStands db s a
unfolding connector_ok
connector_ok_iff db s a = (forth, back)
  where
    forth : connector_ok db s a ≡ true → ConnectorStands db s a
    forth h = elim (Option-cases a.connector_id) [
      | inl e ↦ inl e
      | inr (k, e) ↦
          elim (Option-cases (first (λ (x : ConnectorRow). same x.connector_id k) db.connectors)) [
            | inl n ↦ ground arith
            | inr (c, n) ↦ elim (Option-cases (epoch_of k s.connector_epochs)) [
              | inl m ↦ ground arith
              | inr (f, m) ↦
                  let scopes =
                    count_scopes (or_else "" a.connector_scope_id)
                      (or_else 0 a.connector_scope_revision) (or_else "" a.connector_operation) k
                      db.scope_operations db.scopes in
                  let one : scopes ≡ 1 = ground arith in
                  inr (
                    k,
                    c,
                    e,
                    n,
                    ground arith,
                    ground arith,
                    ground arith,
                    one,
                    counted-ScopeStands (or_else "" a.connector_scope_id)
                        (or_else 0 a.connector_scope_revision) (or_else "" a.connector_operation) k
                        db.scope_operations db.scopes (omega (arith, one)),
                  )
            ]
          ]
    ]

    back : ConnectorStands db s a → connector_ok db s a ≡ true
    back (inl e) = ground arith
    back (inr (k, c, e, n, r, x, y, z, _)) = ground arith

-- What must stand at the moment of the consumption: the authorization was issued for this operation and
-- session and has not expired; the session is active and all three fences agree; the runner is not
-- revoked and has the epoch of the session; the connector's scope, if one is used, and the mutation
-- lease, if one is needed, are in force.
pub record Stands (db : Database) (now : ℕ) (q : Request) (a : Authorization) (s : SessionContext)
    : Type 0 where
  pub row : select q.authorization_id db.authorizations ≡ some a
  pub state : a.state ≡ issued
  pub digest : a.operation_digest ≡ q.operation_digest
  pub session_id : a.session_id ≡ q.session_id
  pub after : a.issued_at ≤ now
  pub before : now < a.expires_at
  pub session : read_session db.tables q.session_id ≡ some s
  pub presented : q.session_fence ≡ s.fence
  pub granted : a.session_fence ≡ s.fence
  pub runner : RunnerStands db s
  pub connector : ConnectorStands db s a
  pub lease : LeaseStands now s a

none_marked :
    (now : ℕ) (id digest : String) (rows : List Authorization)
    → select id rows ≡ none
    → (mark_consumed now id digest rows).1 ≡ 0
unfolding select mark_consumed
none_marked now id digest [] n = refl
none_marked now id digest (a ∷ rows) n = ground (arith, none_marked now id digest rows)

pub one_marked :
    (now : ℕ) (id digest : String) (rows : List Authorization) (a : Authorization)
    → Unique rows
    → select id rows ≡ some a
    → a.state ≡ issued
    → a.operation_digest ≡ digest
    → (mark_consumed now id digest rows).1 ≡ 1
unfolding select mark_consumed
one_marked now id digest [] a u h i d = cc
one_marked now id digest (b ∷ rows) a u h i d = elim (Bool-cases (same b.id id)) [
  | inl e ↦
      let gone : select id rows ≡ none =
        subst (λ x. select x rows ≡ none) ((eq_iff b.id id).0 e) u.0 in
      let same_row : b ≡ a = ground arith in
      let state : b.state ≡ issued = ap (λ (x : Authorization). x.state) same_row ∙ i in
      let text : b.operation_digest ≡ digest =
        ap (λ (x : Authorization). x.operation_digest) same_row ∙ d in
      ground
        (arith, none_marked now id digest rows gone, state, eq_iff b.operation_digest digest, text)
  | inr n ↦ ground (arith, one_marked now id digest rows a u.1)
]

-- While the identifiers are unique, an authorization whose conditions stand is consumed.
pub Stands-consumed :
    (db : Database) (now : ℕ) (q : Request) (a : Authorization) (s : SessionContext)
    → Unique db.authorizations
    → Stands db now q a s
    → (consume db now q).1 ≡ ok now
unfolding consume finish
Stands-consumed db now q a s u h =
    let one =
      one_marked now q.authorization_id q.operation_digest db.authorizations a u h.row h.state
        h.digest in
    let runner = (runner_ok_iff db s).1 h.runner in
    let connector = (connector_ok_iff db s a).1 h.connector in
    let lease = (lease_ok_iff now s a).1 h.lease in
    rw (h.row, h.session, runner, connector, lease)
      (ground (
        arith,
        one,
        h,
        eq_iff a.operation_digest q.operation_digest,
        eq_iff a.session_id q.session_id,
      ))

pub consumed-Stands :
    (db : Database) (now : ℕ) (q : Request) (t : ℕ)
    → (consume db now q).1 ≡ ok t
    → (a : Authorization) × (s : SessionContext) × Stands db now q a s × (t ≡ now)
unfolding consume finish
consumed-Stands db now q t h = elim (Option-cases (select q.authorization_id db.authorizations)) [
  | inl e ↦ ground arith
  | inr (a, e) ↦ elim (Option-cases (read_session db.tables q.session_id)) [
    | inl f ↦ ground arith
    | inr (s, f) ↦ (
      a,
      s,
      record {
        row = e;
        state = ground arith;
        digest = ground (arith, eq_iff a.operation_digest q.operation_digest);
        session_id = ground (arith, eq_iff a.session_id q.session_id);
        after = ground arith;
        before = ground arith;
        session = f;
        presented = ground arith;
        granted = ground arith;
        runner = (runner_ok_iff db s).0 (ground arith);
        connector = (connector_ok_iff db s a).0 (ground arith);
        lease = (lease_ok_iff now s a).0 (ground arith);
      },
      ground arith,
    )
  ]
]

-- An authorization is consumed exactly when everything that it depends on stands at that moment; the time
-- that is answered is the clock's. Identifiers are unique.
pub consume_iff :
    (db : Database) (now : ℕ) (q : Request)
    → Unique db.authorizations
    → ((consume db now q).1 ≡ ok now)
      ↔ ((a : Authorization) × (s : SessionContext) × Stands db now q a s)
consume_iff db now q u = (
  λ h. let (a, s, st, e) = consumed-Stands db now q now h in (a, s, st),
  λ (a, s, st). Stands-consumed db now q a s u st,
)
