-- ===== src/Authority/Commands/Released.antt =====
-- execution-authority.ts: a release ends the session.
use mathlib.Core.Path.{subst}
use collab.Base.{
  ℕ, ◌≡◌, sym, ap, ◌∙◌, ◌≢◌, false, inl, inr, none, some, String, same, arith, ok, err, never,
  Result-cases,
}
use collab.Authority.Sessions.{
  Tables, SessionRow, SessionContext, read_session, context, require_session_fence,
  session_inactive,
}
use collab.Authority.Authorizations.{consume}
use collab.Authority.Commands.{
  CommandResult, release_session, Store, SessionCommand, stored_result, release_row, release_tables,
  write_release, execute_release_session, persist,
}
use collab.Authority.Commands.Fenced.{
  first-map, read_session-rows, read_session_of, first-passes, fence_passed, inactive-consume,
}

-- The session after a release: there is none.
released-read :
    (t : Tables) (id : String) (x : SessionContext)
    → read_session t id ≡ some x
    → read_session (release_tables id x.fence t) id ≡ none
unfolding release_tables release_row context
released-read t id x h =
    let (s, a, p, e1, e2, e3, active, at) = read_session-rows t id x h in
    let f = release_row id x.fence in
    let moved =
      first-map (λ (r : SessionRow). same r.id id) f t.sessions (λ r. ground arith) s e1 in
    let known = first-passes (λ (r : SessionRow). same r.id id) t.sessions s e1 in
    let s' = record s { is_active = false } in
    let row : f s ≡ s' = ground arith in
    read_session_of (release_tables id x.fence t) id s' a p (moved ∙ ap some row) e2 e3

release_of :
    (s s' : Store) (now : ℕ) (c : SessionCommand) (r : CommandResult)
    → stored_result s.results release_session c.base ≡ none
    → execute_release_session s now c ≡ (s', ok r)
    → (x : SessionContext) × (require_session_fence s.database.tables c.session_id c.session_fence
          now
        ≡ ok x)
      × (s'.database ≡ record s.database {
        tables = release_tables c.session_id c.session_fence s.database.tables;
      })
unfolding execute_release_session write_release persist
release_of s s' now c r new h =
    elim (Result-cases (require_session_fence s.database.tables c.session_id c.session_fence now)) [
      | inr (e, y, refused) ↦ absurd (ground arith)
      | inl (x, at) ↦ (x, at, ground arith)
    ]

-- After a release, unless it is the answer to a command sent again, the session is inactive under every
-- fence and at any time, and no authorization is consumed for it.
pub release_ends :
    (s s' : Store) (now t fence : ℕ) (c : SessionCommand) (r : CommandResult) (id digest : String)
    → stored_result s.results release_session c.base ≡ none
    → execute_release_session s now c ≡ (s', ok r)
    → (require_session_fence s'.database.tables c.session_id fence t ≡ err session_inactive never)
      × ((consume s'.database t record {
        authorization_id = id;
        operation_digest = digest;
        session_id = c.session_id;
        session_fence = fence;
      }).1
          ≢ ok t)
unfolding require_session_fence
release_ends s s' now t fence c r id digest new h =
    let (x, at, db) = release_of s s' now c r new h in
    let (seen, known, _, _) =
      fence_passed s.database.tables c.session_id c.session_fence now x at in
    let gone : read_session (release_tables c.session_id c.session_fence s.database.tables)
          c.session_id
        ≡ none =
      subst
        (λ f. read_session (release_tables c.session_id f s.database.tables) c.session_id ≡ none)
        known (released-read s.database.tables c.session_id x seen) in
    let gone' : read_session s'.database.tables c.session_id ≡ none =
      subst (λ d. read_session d.tables c.session_id ≡ none) (sym db) gone in
    (
      ground arith,
      inactive-consume s'.database t t
          record {
            authorization_id = id;
            operation_digest = digest;
            session_id = c.session_id;
            session_fence = fence;
          }
          gone',
    )
