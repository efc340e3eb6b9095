-- ===== src/Authority/Commands/Replay/Once.antt =====
-- execution-authority.ts: a stored result is kept by all later commands, so a command is carried out
-- once.
use collab.Base.{
  ℕ, ◌≡◌, ◌⊎◌, refl, ap, ◌∙◌, ◌&&◌, Bool, true, false, inl, inr, none, some, List, [], ◌∷◌, String,
  same, arith, ok, err, never, Option-cases, Result-cases, Bool-cases, eq_iff,
}
use collab.Authority.Sessions.{read_session, first, require_session_fence, session_view}
use collab.Authority.Policy.{Actor, SensitiveOperation, safe_actor, actor_may_execute}
use collab.Authority.Commands.{
  idempotency_conflict, CommandKind, renew_session, release_session, authorize_operation,
  apply_revocation, CommandResult, renewed, released, authorized, StoredResult, Store, CommandBase,
  SessionCommand, same_kind, is_stored, stored_result, persist, renew_tables, write_renewal,
  execute_renew_session, write_release, execute_release_session,
}
use collab.Authority.Commands.Issue.{
  new_authorization, insert_authorization, execute_authorize_operation,
}
use collab.Authority.Commands.Issue.Checks.{Facts, check_connector}
use collab.Authority.Commands.Replay.{
  refreshed, unavailable, failed, Action, renew, release, authorize, execute, run, kind_of, served,
  dispatch, command_of, action-stored, stored-execute, rehashed,
}

abbrev row_of : CommandKind → CommandBase → CommandResult → StoredResult
row_of kind c result = record {
  actor_id = (safe_actor c.actor).id;
  kind = kind;
  idempotency_key = c.idempotency_key;
  input_hash = c.input_hash;
  result = result;
}

-- A command leaves the stored results alone, or it had none and adds its own.
abbrev Stores : Store → CommandKind → CommandBase → Store → Type 0
Stores s kind c s' =
    (s'.results ≡ s.results)
    ⊎ ((r : CommandResult) × (stored_result s.results kind c ≡ none)
        × (s'.results ≡ row_of kind c r ∷ s.results))

one_of :
    (s s' : Store) (kind : CommandKind) (c : CommandBase) (r : CommandResult)
    → stored_result s.results kind c ≡ none
    → (s'.results ≡ s.results) ⊎ (s'.results ≡ row_of kind c r ∷ s.results)
    → Stores s kind c s'
one_of s s' kind c r new (inl e) = inl e
one_of s s' kind c r new (inr e) = inr (r, new, e)

renew-Stores :
    (s : Store) (now : ℕ) (c : SessionCommand) (epoch : ℕ)
    → Stores s renew_session c.base (execute_renew_session s now c epoch).0
unfolding execute_renew_session write_renewal persist
renew-Stores s now c epoch = elim (Option-cases (stored_result s.results renew_session c.base)) [
  | inr (answer, known) ↦ inl (ground arith)
  | inl new ↦
      elim (Result-cases
        (require_session_fence s.database.tables c.session_id c.session_fence now)) [
          | inr (e, y, refused) ↦ inl (ground arith)
          | inl (x, at) ↦
              elim (Option-cases (read_session (renew_tables x now s.database.tables) x.id)) [
                | inl lost ↦ inl (ground arith)
                | inr (y, read) ↦
                    one_of s (execute_renew_session s now c epoch).0 renew_session c.base
                      (renewed (session_view y)) new (ground arith)
              ]
        ]
]

release-Stores :
    (s : Store) (now : ℕ) (c : SessionCommand)
    → Stores s release_session c.base (execute_release_session s now c).0
unfolding execute_release_session write_release persist
release-Stores s now c = elim (Option-cases (stored_result s.results release_session c.base)) [
  | inr (answer, known) ↦ inl (ground arith)
  | inl new ↦ one_of s (execute_release_session s now c).0 release_session c.base released new (
      ground (
        arith,
        Result-cases (require_session_fence s.database.tables c.session_id c.session_fence now),
      ))
]

authorize-Stores :
    (s : Store) (now : ℕ) (c : SessionCommand) (op : SensitiveOperation) (f : Facts)
    (id digest : String)
    → Stores s authorize_operation c.base (execute_authorize_operation s now c op f id digest).0
unfolding execute_authorize_operation insert_authorization persist
authorize-Stores s now c op f id digest =
    elim (Option-cases (stored_result s.results authorize_operation c.base)) [
      | inr (answer, known) ↦ inl (ground arith)
      | inl new ↦
          elim (Result-cases
            (require_session_fence s.database.tables c.session_id c.session_fence now)) [
              | inr (e, y, refused) ↦ inl (ground arith)
              | inl (x, at) ↦ elim (Result-cases (check_connector s x f op)) [
                | inr (e, y, refused) ↦ inl (ground arith)
                | inl (columns, granted) ↦
                    let a = new_authorization x now id digest op columns in
                    one_of s (execute_authorize_operation s now c op f id digest).0
                      authorize_operation c.base (authorized a.id a.operation_digest a.expires_at)
                      new (ground arith)
              ]
            ]
    ]

dispatch-Stores :
    (s : Store) (now : ℕ) (c : SessionCommand) (a : Action)
    → Stores s (kind_of a) c.base (dispatch s now c a).0
dispatch-Stores s now c (renew epoch) = renew-Stores s now c epoch
dispatch-Stores s now c release = release-Stores s now c
dispatch-Stores s now c (authorize op (refreshed f) id digest) =
    authorize-Stores s now c op f id digest
dispatch-Stores s now c (authorize op unavailable id digest) = inl refl
dispatch-Stores s now c (authorize op failed id digest) = inl refl

execute-Stores :
    (s : Store) (now : ℕ) (c : SessionCommand) (a : Action)
    → Stores s (kind_of a) c.base (execute s now c a).0
unfolding execute
execute-Stores s now c a = elim (Bool-cases (actor_may_execute (command_of a) c.base.actor)) [
  | inl may ↦ rw may (dispatch-Stores s now c a)
  | inr denied ↦ inl (ground arith)
]

same_kind-eq : (k j : CommandKind) → same_kind k j ≡ true → k ≡ j
same_kind-eq renew_session renew_session h = refl
same_kind-eq release_session release_session h = refl
same_kind-eq authorize_operation authorize_operation h = refl
same_kind-eq apply_revocation apply_revocation h = refl
same_kind-eq _ _ h = absurd (ground arith)

abbrev keyed : String → CommandKind → String → StoredResult → Bool
keyed actor kind key r =
    same r.actor_id actor && (same_kind r.kind kind && same r.idempotency_key key)

-- A row that answers two commands: they have the same key.
same_key :
    (kind k : CommandKind) (d c : CommandBase) (r : CommandResult) (rows : List StoredResult)
    → is_stored k c (row_of kind d r) ≡ true
    → first (is_stored kind d) rows ≡ first (is_stored k c) rows
same_key kind k d c r rows h =
    let actor : (safe_actor d.actor).id ≡ (safe_actor c.actor).id =
      (eq_iff (safe_actor d.actor).id (safe_actor c.actor).id).0 (ground arith) in
    let key : d.idempotency_key ≡ c.idempotency_key =
      (eq_iff d.idempotency_key c.idempotency_key).0 (ground arith) in
    let one_kind = same_kind-eq kind k (ground arith) in
    ap (λ a. first (keyed a kind d.idempotency_key) rows) actor
    ∙ (ap (λ k. first (keyed (safe_actor c.actor).id kind k) rows) key
        ∙ ap (λ j. first (keyed (safe_actor c.actor).id j c.idempotency_key) rows) one_kind)

stored_kept :
    (s s' : Store) (k kind : CommandKind) (c d : CommandBase) (row : StoredResult)
    → first (is_stored k c) s.results ≡ some row
    → Stores s kind d s'
    → first (is_stored k c) s'.results ≡ some row
unfolding stored_result first
stored_kept s s' k kind c d row h (inl e) = rw e h
stored_kept s s' k kind c d row h (inr (r, new, e)) =
    elim (Bool-cases (is_stored k c (row_of kind d r))) [
      | inl at ↦ let same_row = same_key kind k d c r s.results at in absurd (ground arith)
      | inr other ↦ ground arith
    ]

run-stored :
    (calls : List (ℕ × SessionCommand × Action)) (s : Store) (k : CommandKind) (c : CommandBase)
    (row : StoredResult)
    → first (is_stored k c) s.results ≡ some row
    → first (is_stored k c) (run s calls).results ≡ some row
unfolding run
run-stored [] s k c row h = h
run-stored ((now, d, a) ∷ calls) s k c row h =
    run-stored calls (execute s now d a).0 k c row
      (stored_kept s (execute s now d a).0 k (kind_of a) c d.base row h (execute-Stores s now d a))

may_again :
    (actor : Actor) (a b : Action)
    → kind_of b ≡ kind_of a
    → actor_may_execute (command_of a) actor ≡ true
    → actor_may_execute (command_of b) actor ≡ true
unfolding actor_may_execute
may_again actor (renew _) (renew _) k h = h
may_again actor (renew _) release k h = absurd (ground arith)
may_again actor (renew _) (authorize _ _ _ _) k h = absurd (ground arith)
may_again actor release (renew _) k h = absurd (ground arith)
may_again actor release release k h = h
may_again actor release (authorize _ _ _ _) k h = absurd (ground arith)
may_again actor (authorize _ _ _ _) (renew _) k h = absurd (ground arith)
may_again actor (authorize _ _ _ _) release k h = absurd (ground arith)
may_again actor (authorize _ _ _ _) (authorize _ _ _ _) k h = h

known_later :
    (calls : List (ℕ × SessionCommand × Action)) (s : Store) (k : CommandKind) (c : CommandBase)
    (r : CommandResult)
    → stored_result s.results k c ≡ some (ok r)
    → stored_result (run s calls).results k c ≡ some (ok r)
unfolding stored_result
known_later calls s k c r h = elim (Option-cases (first (is_stored k c) s.results)) [
  | inl e ↦ absurd (ground arith)
  | inr (row, e) ↦ let later = run-stored calls s k c row e in ground arith
]

-- A renewal, a release or an authorization of an operation that succeeded is carried out once. Sent
-- again by the same actor, at any time, after any other commands of these kinds, and whatever facts,
-- identifier and digest the server then adds, it changes nothing and is answered with the first result;
-- with another hash of its input it changes nothing and is refused with IDEMPOTENCY_CONFLICT. The
-- exception is an authorization whose facts cannot be refreshed at that time: it changes nothing
-- either, and gets the error of the refresh in place of both answers.
pub execute_once :
    (s s' : Store) (now later : ℕ) (c : SessionCommand) (a b : Action) (hash : String)
    (r : CommandResult) (calls : List (ℕ × SessionCommand × Action))
    → execute s now c a ≡ (s', ok r)
    → kind_of b ≡ kind_of a
    → same c.base.input_hash hash ≡ false
    → (execute (run s' calls) later c b ≡ (run s' calls, served b (ok r)))
      × (execute (run s' calls) later (record c { base = record c.base { input_hash = hash } }) b
          ≡ (run s' calls, served b (err idempotency_conflict never)))
execute_once s s' now later c a b hash r calls h k n =
    let (stored, may) = action-stored s s' now c a r h in
    let known : stored_result (run s' calls).results (kind_of b) c.base ≡ some (ok r) =
      rw k (known_later calls s' (kind_of a) c.base r stored) in
    let may' = may_again c.base.actor a b k may in
    (
      stored-execute (run s' calls) later c b (ok r) may' known,
      stored-execute (run s' calls) later (record c { base = record c.base { input_hash = hash } })
          b (err idempotency_conflict never) may'
          (rehashed (run s' calls).results (kind_of b) c.base hash (ok r) r known n),
    )
