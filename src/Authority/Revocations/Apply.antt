-- ===== src/Authority/Revocations/Apply.antt =====
-- execution-authority.ts: which attempts a revocation affects (affectedAttempts), and executeRevocation,
-- which ends their permits, sessions and leases. The order of the attempts is that of their rows.
use collab.Base.{
  ℕ, ◌+◌, Bool, true, false, not, ◌&&◌, ◌||◌, Option, none, some, List, [], ◌∷◌, String, map, leb,
  ltb, ◌==◌, same, if◌then◌else◌, any, includes, keep, Result, ok, err, never, refresh, same_input,
}
use collab.Runs.Lifecycle.{RunState, completed, failed, stopped, waiting, is_live}
use collab.Authority.Sessions.{
  Tables, SessionRow, LeaseRow, AttemptRow, SessionEpochRow, AuthorityError, first,
}
use collab.Authority.Policy.{SafeActor, safe_actor, require_active_principal}
use collab.Authority.Commands.{
  Store, CommandError, authority, CommandResult, applied, storage_failed, revocation_actor_denied,
  revocation_epoch_stale, apply_revocation, stored_result, persist,
}
use collab.Authority.Revocations.{
  Source, of_member, of_connector, of_runner, of_exposure, of_repository, of_run, Disposition,
  deny_future, request_termination, reduce_authority, SnapshotRow, ExposureRow, PermitState, issued,
  revoked, PermitRow, RunRow, IntentRow, Ledger, ApplyRevocation, Answer, kind_of, id_of, epoch_of,
  latest_revocation_epoch, current_revocation_epoch, revocation_actor_authorized,
}

-- SELECT DISTINCT
unfoldable pub distinct_ids : List String → List String
distinct_ids [] = []
distinct_ids (id ∷ ids) =
    let rest = distinct_ids ids in if includes rest id then rest else id ∷ rest

-- The live attempts that pass a test, with the snapshots that join them; each attempt has at most one.
unfoldable pub live_attempts : (AttemptRow → Bool) → List AttemptRow → List String
live_attempts p rows = map (λ a. a.id) (keep (λ (a : AttemptRow). is_live a.state && p a) rows)

abbrev pub has_snapshot : Ledger → (SnapshotRow → Bool) → AttemptRow → Bool
has_snapshot l p a = any (λ (s : SnapshotRow). same s.attempt_id a.id && p s) l.snapshots

abbrev of_owner : String → SnapshotRow → Bool
of_owner id s = same s.actor_id id || same s.runner_owner_member_id id

abbrev of_revision : List ExposureRow → String → Option ℕ → Bool
of_revision rows id none = false
of_revision rows id (some n) = any (λ (e : ExposureRow). same e.id id && e.revision == n) rows

-- The sessions that are active and hold an epoch of the connector.
unfoldable pub connected_attempts : String → List SessionEpochRow → List SessionRow → List String
connected_attempts id epochs rows =
    map (λ s. s.attempt_id)
      (keep
        (λ (s : SessionRow).
          s.is_active
          && any (λ (e : SessionEpochRow). same e.session_id s.id && same e.connector_id id) epochs)
        rows)

-- affectedAttempts
unfoldable pub affected_attempts : Ledger → Source → List String
affected_attempts l (of_member id _) =
    live_attempts (has_snapshot l (of_owner id)) l.store.database.tables.attempts
affected_attempts l (of_connector id _) =
    distinct_ids (
      connected_attempts id l.store.database.tables.session_epochs l.store.database.tables.sessions)
affected_attempts l (of_runner id _) =
    live_attempts (λ a. same a.runner_id id) l.store.database.tables.attempts
affected_attempts l (of_exposure id _) =
    live_attempts (has_snapshot l (λ s. of_revision l.exposures id s.exposure_revision))
      l.store.database.tables.attempts
affected_attempts l (of_repository id _) =
    live_attempts (has_snapshot l (λ s. same s.repository_id id)) l.store.database.tables.attempts
affected_attempts l (of_run id _) =
    live_attempts (λ a. same a.run_id id) l.store.database.tables.attempts

unfoldable pub disposition_of : Source → Disposition
disposition_of (of_connector _ _) = reduce_authority
disposition_of (of_exposure _ _) = deny_future
disposition_of _ = request_termination

abbrev pub is_issued : PermitState → Bool
is_issued issued = true
is_issued _ = false

-- The three updates of an attempt's permit, sessions and leases.
unfoldable pub revoke_permit : ℕ → String → PermitRow → PermitRow
revoke_permit now attempt r =
    if same r.attempt_id attempt && is_issued r.state
    then record r { state = revoked; revoked_at = some now; revision = r.revision + 1 }
    else r

unfoldable pub revoke_session : String → SessionRow → SessionRow
revoke_session attempt r =
    if same r.attempt_id attempt && r.is_active then record r { is_active = false } else r

unfoldable pub revoke_lease : String → LeaseRow → LeaseRow
revoke_lease attempt r =
    if same r.attempt_id attempt && r.is_active then record r { is_active = false } else r

abbrev is_over : RunState → Bool
is_over completed = true
is_over failed = true
is_over stopped = true
is_over _ = false

abbrev coalesce : Option ℕ → ℕ → Option ℕ
coalesce none t = some t
coalesce (some s) t = some s

unfoldable pub suspend_run : String → RunRow → RunRow
suspend_run run r =
    if same r.id run && not (is_over r.state)
    then record r {
      state = waiting;
      waiting_reason = some "DEPENDENCY";
      started_at = coalesce r.started_at r.created_at;
      revision = r.revision + 1;
    }
    else r

-- INSERT OR IGNORE
unfoldable pub add_intent : IntentRow → List IntentRow → List IntentRow
add_intent i rows =
    if any (λ (r : IntentRow). same r.semantic_digest i.semantic_digest) rows
    then rows
    else i ∷ rows

unfoldable pub end_sessions : String → Tables → Tables
end_sessions attempt t = record t {
  sessions = map (revoke_session attempt) t.sessions;
  leases = map (revoke_lease attempt) t.leases;
}

-- What is done to an attempt of a run unless the source is an exposure; the digest is that of its intent.
unfoldable pub terminate : String → ℕ → String → String → Ledger → Ledger
terminate digest now attempt run l = record l {
  store = record l.store {
    database = record l.store.database { tables = end_sessions attempt l.store.database.tables };
  };
  intents =
      add_intent
        record { run_id = run; attempt_id = attempt; semantic_digest = digest; created_at = now }
        l.intents;
  runs = map (suspend_run run) l.runs;
}

abbrev pub is_exposure : Source → Bool
is_exposure (of_exposure _ _) = true
is_exposure _ = false

abbrev revoke_found :
    (String → Source → String) → ℕ → Source → String → Option AttemptRow → Ledger → Ledger
revoke_found digest now source attempt none l = l
revoke_found digest now source attempt (some a) l =
    let l' = record l { permits = map (revoke_permit now attempt) l.permits } in
    if is_exposure source then l' else terminate (digest attempt source) now attempt a.run_id l'

-- One round of the loop.
unfoldable pub revoke_attempt : (String → Source → String) → ℕ → Source → String → Ledger → Ledger
revoke_attempt digest now source attempt l =
    revoke_found digest now source attempt
      (first (λ (a : AttemptRow). same a.id attempt) l.store.database.tables.attempts) l

unfoldable pub revoke_attempts :
    (String → Source → String) → ℕ → Source → List String → Ledger → Ledger
revoke_attempts digest now source [] l = l
revoke_attempts digest now source (attempt ∷ attempts) l =
    revoke_attempts digest now source attempts (revoke_attempt digest now source attempt l)

-- The constraints that a clock that runs backwards breaks: nothing is revoked before it was issued.
unfoldable pub revokes_early : ℕ → Source → List String → Ledger → Bool
revokes_early now source attempts l =
    any
      (λ (p : PermitRow).
        includes attempts p.attempt_id && (is_issued p.state && ltb now p.issued_at))
      l.permits
    || (not (is_exposure source)
        && any
            (λ (s : SessionRow).
              includes attempts s.attempt_id && (s.is_active && ltb now s.issued_at))
            l.store.database.tables.sessions)

unfoldable pub add_revocation : ℕ → ApplyRevocation → Ledger → Ledger
add_revocation now c l = record l {
  revocations =
      record {
        source_kind = kind_of c.source;
        source_id = id_of c.source;
        source_epoch = epoch_of c.source;
        actor = safe_actor c.base.actor;
        disposition = disposition_of c.source;
        created_at = now;
      }
      ∷ l.revocations;
}

abbrev with_answer : Ledger → Store × Result CommandError CommandResult → Answer
with_answer l (s, r) = (record l { store = s }, r)

unfoldable pub write_revocation : (String → Source → String) → Ledger → ℕ → ApplyRevocation → Answer
write_revocation digest l now c =
    let attempts = affected_attempts l c.source in
    if revokes_early now c.source attempts l
    then (l, err storage_failed same_input)
    else (let l' = revoke_attempts digest now c.source attempts (add_revocation now c l) in
        with_answer l' (persist apply_revocation c.base applied l'.store))

abbrev is_current : Option ℕ → ℕ → Bool
is_current none e = false
is_current (some n) e = n == e

abbrev revoke_as :
    (String → Source → String)
    → Ledger
    → ℕ
    → ApplyRevocation
    → Result AuthorityError SafeActor
    → Answer
revoke_as digest l now c (err e r) = (l, err (authority e) r)
revoke_as digest l now c (ok principal) =
    if not (revocation_actor_authorized l c.source c.base.actor)
    then (l, err revocation_actor_denied never)
    else if not (is_current (current_revocation_epoch l c.source) (epoch_of c.source))
    then (l, err revocation_epoch_stale refresh)
    else if leb (epoch_of c.source)
        (latest_revocation_epoch (kind_of c.source) (id_of c.source) l.revocations)
    then (l, err revocation_epoch_stale refresh)
    else write_revocation digest l now c

abbrev answered_or : Ledger → Option (Result CommandError CommandResult) → Answer → Answer
answered_or l none rest = rest
answered_or l (some answer) rest = (l, answer)

-- executeRevocation
unfoldable pub execute_revocation :
    (String → Source → String) → Ledger → ℕ → ApplyRevocation → Answer
execute_revocation digest l now c =
    answered_or l (stored_result l.store.results apply_revocation c.base) (
      revoke_as digest l now c
        (require_active_principal l.store.database.runners l.members c.base.actor))
