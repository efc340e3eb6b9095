-- ===== src/Authority/Revocations/Ended.antt =====
-- execution-authority.ts: what a revocation ends.
use mathlib.Core.List.{Memᴰ}
use mathlib.Core.Path.{subst}
use collab.Base.{
  ℕ, ◌≡◌, sym, true, false, inl, inr, none, some, String, same, arith, includes, ok, Bool-cases,
  Option-cases, Result-cases, eq_iff,
}
use collab.Authority.Sessions.{SessionRow, AttemptRow, SessionContext, read_session, context}
use collab.Authority.Authorizations.{Request, consume}
use collab.Authority.Policy.{require_active_principal}
use collab.Authority.Commands.{CommandResult, apply_revocation, stored_result, persist}
use collab.Authority.Commands.Fenced.{read_session-rows, inactive-consume}
use collab.Authority.Revocations.{Source, PermitRow, Ledger, ApplyRevocation}
use collab.Authority.Revocations.Apply.{
  affected_attempts, is_issued, is_exposure, revoke_attempts, add_revocation, write_revocation,
  execute_revocation,
}
use collab.Authority.Revocations.Closed.{
  first-any, any-mem-false, is_open, is_usable, opened, find_attempt, revoke_attempts-attempts,
  all_opened_ended, all_usable_ended,
}

-- What a revocation that is not a replay writes.
pub revocation_of :
    (digest : String → Source → String) (l l' : Ledger) (now : ℕ) (c : ApplyRevocation)
    (r : CommandResult)
    → stored_result l.store.results apply_revocation c.base ≡ none
    → execute_revocation digest l now c ≡ (l', ok r)
    → write_revocation digest l now c ≡ (l', ok r)
unfolding execute_revocation
revocation_of digest l l' now c r new h =
    ground (
      arith,
      Result-cases (require_active_principal l.store.database.runners l.members c.base.actor),
    )

pub revocation_writes :
    (digest : String → Source → String) (l l' : Ledger) (now : ℕ) (c : ApplyRevocation)
    (r : CommandResult)
    → write_revocation digest l now c ≡ (l', ok r)
    → (l'.store.database
        ≡ (revoke_attempts digest now c.source
            (affected_attempts l c.source)
            (add_revocation now c l)).store.database)
      × (l'.permits
          ≡ (revoke_attempts digest now c.source
              (affected_attempts l c.source)
              (add_revocation now c l)).permits)
      × (l'.revocations
          ≡ (revoke_attempts digest now c.source
              (affected_attempts l c.source)
              (add_revocation now c l)).revocations)
unfolding write_revocation persist
revocation_writes digest l l' now c r h = (ground arith, ground arith, ground arith)

session_closed :
    (l l' : Ledger) (id : String) (x : SessionContext)
    → l'.store.database.tables.attempts ≡ l.store.database.tables.attempts
    → read_session l'.store.database.tables id ≡ some x
    → (a : AttemptRow) × (find_attempt x.attempt_id l ≡ some a) × (opened x.attempt_id l' ≡ true)
unfolding context
session_closed l l' id x same_rows h =
    let (s, a, p, e1, e2, e3, active, at) = read_session-rows l'.store.database.tables id x h in
    let named : x.attempt_id ≡ s.attempt_id = ground arith in
    (
      a,
      rw (named, sym same_rows) e2,
      first-any (λ (r : SessionRow). same r.id id) (is_open x.attempt_id)
          l'.store.database.tables.sessions s e1 (ground (arith, eq_iff s.attempt_id x.attempt_id)),
    )

-- After a revocation that is applied, and is not the answer to a command sent again, no permit of an
-- attempt that it affects can be consumed: none is ISSUED.
pub revoke_permits :
    (digest : String → Source → String) (l l' : Ledger) (now : ℕ) (c : ApplyRevocation)
    (r : CommandResult) (a : AttemptRow) (p : PermitRow)
    → stored_result l.store.results apply_revocation c.base ≡ none
    → execute_revocation digest l now c ≡ (l', ok r)
    → find_attempt p.attempt_id l ≡ some a
    → includes (affected_attempts l c.source) p.attempt_id ≡ true
    → Memᴰ p l'.permits
    → is_issued p.state ≡ false
unfolding add_revocation
revoke_permits digest l l' now c r a p new h e i m =
    let (db, permits, _) =
      revocation_writes digest l l' now c r (revocation_of digest l l' now c r new h) in
    let none_left =
      any-mem-false (is_usable p.attempt_id) _ p
        (all_usable_ended digest now c.source (affected_attempts l c.source) p.attempt_id
          (add_revocation now c l) a i e)
        (subst (λ rows. Memᴰ p rows) permits m) in
    ground (arith, eq_iff p.attempt_id p.attempt_id)

-- After a revocation that is applied, and is not the answer to a command sent again, an authorization
-- is consumed only by a session of an attempt that the revocation does not affect, at any time. This is
-- so for every source but an exposure.
pub revoke_ends :
    (digest : String → Source → String) (l l' : Ledger) (now t : ℕ) (c : ApplyRevocation)
    (r : CommandResult) (q : Request)
    → stored_result l.store.results apply_revocation c.base ≡ none
    → execute_revocation digest l now c ≡ (l', ok r)
    → is_exposure c.source ≡ false
    → (consume l'.store.database t q).1 ≡ ok t
    → (x : SessionContext) × (read_session l'.store.database.tables q.session_id ≡ some x)
      × (includes (affected_attempts l c.source) x.attempt_id ≡ false)
unfolding add_revocation
revoke_ends digest l l' now t c r q new h n done =
    let (db, _, _) =
      revocation_writes digest l l' now c r (revocation_of digest l l' now c r new h) in
    let ids = affected_attempts l c.source in
    let l1 = add_revocation now c l in
    let same_rows = revoke_attempts-attempts digest now c.source ids l1 in
    elim (Option-cases (read_session l'.store.database.tables q.session_id)) [
      | inl gone ↦ absurd (inactive-consume l'.store.database t t q gone done)
      | inr (x, seen) ↦
          let (a, e, active) = session_closed l l' q.session_id x (rw db same_rows) seen in
          elim (Bool-cases (includes ids x.attempt_id)) [
            | inr other ↦ (x, seen, other)
            | inl i ↦
                let closed = all_opened_ended digest now c.source ids x.attempt_id l1 a i e n in
                absurd (ground arith)
          ]
    ]
