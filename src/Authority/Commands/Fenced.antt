-- ===== src/Authority/Commands/Fenced.antt =====
-- execution-authority.ts: a renewal and a release cut off what was granted under the old fence.
use mathlib.Core.Path.{subst}
use collab.Base.{
  ℕ, ◌+◌, ◌≡◌, refl, sym, ap, ◌∙◌, ◌≤◌, ◌<◌, ◌≢◌, Bool, true, inl, inr, none, some, List, [], ◌∷◌,
  map, String, same, arith, if◌then◌else◌, ok, err, refresh, Bool-cases, Option-cases, Result-cases,
  eq_iff,
}
use collab.Authority.Sessions.{
  Tables, SessionRow, AttemptRow, PolicyRow, SessionContext, first, read_session, context,
  session_view, require_session_fence, session_fence_stale,
}
use collab.Authority.Authorizations.{Authorization, Database, Request, select, consume}
use collab.Authority.Commands.{
  CommandResult, renewed, renew_session, Store, SessionCommand, stored_result, renewed_until,
  renew_row, renew_tables, write_renewal, execute_renew_session, persist,
}

-- The first row of an identifier, after each row was changed and kept its identifier.
pub first-map :
    (p : SessionRow → Bool) (f : SessionRow → SessionRow) (rows : List SessionRow)
    → ((r : SessionRow) → p (f r) ≡ p r)
    → (r : SessionRow) → first p rows ≡ some r
    → first p (map f rows) ≡ some (f r)
unfolding first
first-map p f [] k r h = cc
first-map p f (x ∷ rows) k r h = ground (arith, k x, first-map p f rows k r)

-- What a session that is read stands on: its row, its attempt and its policy.
pub read_session-rows :
    (t : Tables) (id : String) (x : SessionContext)
    → read_session t id ≡ some x
    → (s : SessionRow) × (a : AttemptRow) × (p : PolicyRow) × (first
          (λ (r : SessionRow). same r.id id)
          t.sessions
        ≡ some s)
      × (first (λ (r : AttemptRow). same r.id s.attempt_id) t.attempts ≡ some a)
      × (first (λ (r : PolicyRow). same r.run_id a.run_id) t.policies ≡ some p)
      × (s.is_active ≡ true)
      × (x ≡ context t s a p)
unfolding read_session
read_session-rows t id x h =
    elim (Option-cases (first (λ (r : SessionRow). same r.id id) t.sessions)) [
      | inl e ↦ absurd (ground arith)
      | inr (s, e1) ↦
          elim (Option-cases (first (λ (r : AttemptRow). same r.id s.attempt_id) t.attempts)) [
            | inl e ↦ absurd (ground arith)
            | inr (a, e2) ↦
                elim (Option-cases (first (λ (r : PolicyRow). same r.run_id a.run_id) t.policies)) [
                  | inl e ↦ absurd (ground arith)
                  | inr (p, e3) ↦ elim (Bool-cases s.is_active) [
                    | inl active ↦ (s, a, p, e1, e2, e3, active, ground arith)
                    | inr gone ↦ absurd (ground arith)
                  ]
                ]
          ]
    ]

-- Reading a session from its rows.
pub read_session_of :
    (t : Tables) (id : String) (s : SessionRow) (a : AttemptRow) (p : PolicyRow)
    → first (λ (r : SessionRow). same r.id id) t.sessions ≡ some s
    → first (λ (r : AttemptRow). same r.id s.attempt_id) t.attempts ≡ some a
    → first (λ (r : PolicyRow). same r.run_id a.run_id) t.policies ≡ some p
    → read_session t id ≡ (if s.is_active then some (context t s a p) else none)
unfolding read_session
read_session_of t id s a p e1 e2 e3 = ground arith

pub first-passes {ℓ} :
    {A : Type ℓ} (p : A → Bool) (rows : List A) (r : A) → first p rows ≡ some r → p r ≡ true
unfolding first
first-passes p [] r h = cc
first-passes p (x ∷ rows) r h = elim (Bool-cases (p x)) [
  | inl at ↦ let same_row : x ≡ r = ground arith in subst (λ y. p y ≡ true) same_row at
  | inr other ↦ first-passes p rows r (ground arith)
]

-- The session after a renewal: the next fence, and the new end.
renewed-read :
    (t : Tables) (id : String) (x : SessionContext) (now : ℕ)
    → read_session t id ≡ some x
    → (y : SessionContext) × (read_session (renew_tables x now t) id ≡ some y)
      × (y.fence ≡ x.fence + 1)
      × (y.expires_at ≡ renewed_until x now)
      × (y.deadline_at ≡ x.deadline_at)
      × (y.session_seconds ≡ x.session_seconds)
unfolding renew_tables renew_row context
renewed-read t id x now h =
    let (s, a, p, e1, e2, e3, active, at) = read_session-rows t id x h in
    let f = renew_row x.id x.fence (renewed_until x now) in
    let moved =
      first-map (λ (r : SessionRow). same r.id id) f t.sessions (λ r. ground arith) s e1 in
    let s' = record s { fence = s.fence + 1; expires_at = renewed_until x now } in
    let row : f s ≡ s' = ground (arith, eq_iff s.id s.id) in
    let read = read_session_of (renew_tables x now t) id s' a p (moved ∙ ap some row) e2 e3 in
    (
      context (renew_tables x now t) s' a p,
      ground arith,
      ground arith,
      refl,
      ground arith,
      ground arith,
    )

pub fence_passed :
    (t : Tables) (id : String) (fence now : ℕ) (x : SessionContext)
    → require_session_fence t id fence now ≡ ok x
    → (read_session t id ≡ some x)
      × (x.fence ≡ fence)
      × (now < x.expires_at)
      × (now < x.deadline_at)
unfolding require_session_fence
fence_passed t id fence now x h = elim (Option-cases (read_session t id)) [
  | inl e ↦ absurd (ground arith)
  | inr (y, e) ↦ (ground arith, ground arith, ground arith, ground arith)
]

-- An authorization is not consumed where its session's fence has moved on.
stale-consume :
    (db : Database) (now t : ℕ) (q : Request) (a : Authorization) (y : SessionContext)
    → select q.authorization_id db.authorizations ≡ some a
    → read_session db.tables q.session_id ≡ some y
    → a.session_fence ≢ y.fence
    → (consume db now q).1 ≢ ok t
unfolding consume
stale-consume db now t q a y h r n e = ground (arith, n)

pub inactive-consume :
    (db : Database) (now t : ℕ) (q : Request)
    → read_session db.tables q.session_id ≡ none
    → (consume db now q).1 ≢ ok t
unfolding consume
inactive-consume db now t q h e =
    elim (Option-cases (select q.authorization_id db.authorizations)) [
      | inl missing ↦ ground arith
      | inr (a, found) ↦ ground arith
    ]

pub read_session-id :
    (t : Tables) (id : String) (x : SessionContext) → read_session t id ≡ some x → x.id ≡ id
unfolding context
read_session-id t id x h =
    let (s, a, p, e1, e2, e3, active, at) = read_session-rows t id x h in
    let known = first-passes (λ (r : SessionRow). same r.id id) t.sessions s e1 in
    ground (arith, eq_iff s.id id)

-- What a renewal that is not a replay writes and answers.
renewal_of :
    (s s' : Store) (now : ℕ) (c : SessionCommand) (epoch : ℕ) (r : CommandResult)
    → stored_result s.results renew_session c.base ≡ none
    → execute_renew_session s now c epoch ≡ (s', ok r)
    → (x : SessionContext) × (require_session_fence s.database.tables c.session_id c.session_fence
          now
        ≡ ok x)
      × (write_renewal s now c x ≡ (s', ok r))
unfolding execute_renew_session
renewal_of s s' now c epoch r new h =
    elim (Result-cases (require_session_fence s.database.tables c.session_id c.session_fence now)) [
      | inr (e, y, refused) ↦ absurd (ground arith)
      | inl (x, at) ↦ (x, at, ground arith)
    ]

renewal_writes :
    (s s' : Store) (now : ℕ) (c : SessionCommand) (x y : SessionContext) (r : CommandResult)
    → read_session (renew_tables x now s.database.tables) x.id ≡ some y
    → write_renewal s now c x ≡ (s', ok r)
    → (s'.database ≡ record s.database { tables = renew_tables x now s.database.tables })
      × (r ≡ renewed (session_view y))
unfolding write_renewal persist
renewal_writes s s' now c x y r e h = (ground arith, ground arith)

-- What a renewal that is not a replay leaves: the session with the next fence.
renewed_session :
    (s s' : Store) (now : ℕ) (c : SessionCommand) (epoch : ℕ) (r : CommandResult)
    → stored_result s.results renew_session c.base ≡ none
    → execute_renew_session s now c epoch ≡ (s', ok r)
    → (y : SessionContext) × (read_session s'.database.tables c.session_id ≡ some y)
      × (r ≡ renewed (session_view y))
      × (y.fence ≡ c.session_fence + 1)
      × (y.expires_at ≤ y.deadline_at)
      × (y.expires_at ≤ now + y.session_seconds)
renewed_session s s' now c epoch r new h =
    let (x, at, wrote) = renewal_of s s' now c epoch r new h in
    let (seen, fence, _, _) =
      fence_passed s.database.tables c.session_id c.session_fence now x at in
    let id = read_session-id s.database.tables c.session_id x seen in
    let (y, read, raised, end, deadline, seconds) =
      renewed-read s.database.tables c.session_id x now seen in
    let (db, answer) = renewal_writes s s' now c x y r (rw id read) wrote in
    (
      y,
      subst (λ d. read_session d.tables c.session_id ≡ some y) (sym db) read,
      answer,
      ground arith,
      ground arith,
      ground arith,
    )

-- A renewal, unless it is the answer to a command sent again, raises the fence by one and ends the
-- session no later than its deadline and the seconds that its policy grants from now. From then on the
-- old fence is refused as stale at any time.
pub renew_fences :
    (s s' : Store) (now t : ℕ) (c : SessionCommand) (epoch : ℕ) (r : CommandResult)
    → stored_result s.results renew_session c.base ≡ none
    → execute_renew_session s now c epoch ≡ (s', ok r)
    → ((y : SessionContext) × (read_session s'.database.tables c.session_id ≡ some y)
        × (r ≡ renewed (session_view y))
        × (y.fence ≡ c.session_fence + 1)
        × (y.expires_at ≤ y.deadline_at)
        × (y.expires_at ≤ now + y.session_seconds))
      × (require_session_fence s'.database.tables c.session_id c.session_fence t
          ≡ err session_fence_stale refresh)
unfolding require_session_fence
renew_fences s s' now t c epoch r new h =
    let at = renewed_session s s' now c epoch r new h in
    let (y, read, _, raised, _, _) = at in (at, ground arith)

-- After a renewal, unless it is the answer to a command sent again, no authorization that was issued
-- under the old fence of the session is consumed, at any time.
pub renew_cuts_off :
    (s s' : Store) (now t : ℕ) (c : SessionCommand) (epoch : ℕ) (r : CommandResult) (q : Request)
    (a : Authorization)
    → stored_result s.results renew_session c.base ≡ none
    → execute_renew_session s now c epoch ≡ (s', ok r)
    → select q.authorization_id s'.database.authorizations ≡ some a
    → a.session_fence ≡ c.session_fence
    → q.session_id ≡ c.session_id
    → (consume s'.database t q).1 ≢ ok t
renew_cuts_off s s' now t c epoch r q a new h found old session =
    let (y, read, _, raised, _, _) = renewed_session s s' now c epoch r new h in
    stale-consume s'.database t t q a y found
      (subst (λ k. read_session s'.database.tables k ≡ some y) (sym session) read) (ground arith)
