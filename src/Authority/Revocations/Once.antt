-- ===== src/Authority/Revocations/Once.antt =====
-- execution-authority.ts: the epochs of revocations only rise.
use collab.Base.{
  ℕ, ◌≡◌, refl, ◌∙◌, ◌≤◌, ◌⊎◌, inl, inr, true, none, List, [], ◌∷◌, String, arith, ok, Bool-cases,
  Option-cases, Result-cases, eq_iff,
}
use collab.Authority.Policy.{safe_actor, require_active_principal}
use collab.Authority.Commands.{CommandResult, apply_revocation, stored_result, persist}
use collab.Authority.Revocations.{
  Source, SourceKind, member_source, connector_source, runner_source, exposure_source,
  repository_source, run_source, RevocationRow, Ledger, ApplyRevocation, kind_of, id_of, epoch_of,
  same_source_kind, latest_revocation_epoch,
}
use collab.Authority.Revocations.Apply.{
  affected_attempts, disposition_of, revoke_attempt, revoke_attempts, revokes_early, terminate,
  add_revocation, write_revocation, execute_revocation,
}
use collab.Authority.Revocations.Closed.{find_attempt}
use collab.Authority.Revocations.Ended.{revocation_of, revocation_writes}

-- Revocations one after the other, each at its time.
unfoldable pub run_revocations :
    (String → Source → String) → Ledger → List (ℕ × ApplyRevocation) → Ledger
run_revocations digest l [] = l
run_revocations digest l ((now, c) ∷ calls) =
    run_revocations digest (execute_revocation digest l now c).0 calls

module _ (digest : String → Source → String) (now : ℕ) (source : Source) where
  revoke_attempts-revocations :
      (ids : List String) (l : Ledger)
      → (revoke_attempts digest now source ids l).revocations ≡ l.revocations
  unfolding revoke_attempts revoke_attempt terminate
  revoke_attempts-revocations [] l = refl
  revoke_attempts-revocations (id ∷ ids) l =
      revoke_attempts-revocations ids (revoke_attempt digest now source id l)
      ∙ ground (arith, Option-cases (find_attempt id l))

abbrev entry : ℕ → ApplyRevocation → RevocationRow
entry now c = record {
  source_kind = kind_of c.source;
  source_id = id_of c.source;
  source_epoch = epoch_of c.source;
  actor = safe_actor c.base.actor;
  disposition = disposition_of c.source;
  created_at = now;
}

-- A command writes one row or none.
written :
    (digest : String → Source → String) (l : Ledger) (now : ℕ) (c : ApplyRevocation)
    → ((execute_revocation digest l now c).0.revocations ≡ l.revocations)
      ⊎ ((execute_revocation digest l now c).0.revocations ≡ entry now c ∷ l.revocations)
unfolding execute_revocation write_revocation persist add_revocation
written digest l now c =
    let same_rows =
      revoke_attempts-revocations digest now c.source (affected_attempts l c.source)
        (add_revocation now c l) in
    ground (
      arith,
      Option-cases (stored_result l.store.results apply_revocation c.base),
      Result-cases (require_active_principal l.store.database.runners l.members c.base.actor),
      Bool-cases (revokes_early now c.source (affected_attempts l c.source) l),
    )

latest_mono :
    (digest : String → Source → String) (l : Ledger) (now : ℕ) (c : ApplyRevocation)
    (kind : SourceKind) (id : String)
    → latest_revocation_epoch kind id l.revocations
      ≤ latest_revocation_epoch kind id (execute_revocation digest l now c).0.revocations
unfolding latest_revocation_epoch
latest_mono digest l now c kind id = elim (written digest l now c) [
  | inl e ↦ ground arith
  | inr e ↦ ground arith
]

run-latest :
    (digest : String → Source → String) (calls : List (ℕ × ApplyRevocation)) (l : Ledger)
    (kind : SourceKind) (id : String)
    → latest_revocation_epoch kind id l.revocations
      ≤ latest_revocation_epoch kind id (run_revocations digest l calls).revocations
unfolding run_revocations
run-latest digest [] l kind id = omega arith
run-latest digest ((now, c) ∷ calls) l kind id = omega (
  arith,
  latest_mono digest l now c kind id,
  run-latest digest calls (execute_revocation digest l now c).0 kind id,
)

same_source_kind_self : (k : SourceKind) → same_source_kind k k ≡ true
same_source_kind_self member_source = refl
same_source_kind_self connector_source = refl
same_source_kind_self runner_source = refl
same_source_kind_self exposure_source = refl
same_source_kind_self repository_source = refl
same_source_kind_self run_source = refl

applied-latest :
    (digest : String → Source → String) (l l' : Ledger) (now : ℕ) (c : ApplyRevocation)
    (r : CommandResult)
    → stored_result l.store.results apply_revocation c.base ≡ none
    → execute_revocation digest l now c ≡ (l', ok r)
    → epoch_of c.source ≤ latest_revocation_epoch (kind_of c.source) (id_of c.source) l'.revocations
unfolding latest_revocation_epoch add_revocation
applied-latest digest l l' now c r new h =
    let (_, _, rows) =
      revocation_writes digest l l' now c r (revocation_of digest l l' now c r new h) in
    let same_rows =
      revoke_attempts-revocations digest now c.source (affected_attempts l c.source)
        (add_revocation now c l) in
    let all_rows : l'.revocations ≡ entry now c ∷ l.revocations = rows ∙ same_rows in
    ground
      (arith, same_source_kind_self (kind_of c.source), eq_iff (id_of c.source) (id_of c.source))

-- A command whose epoch is not above the latest changes nothing.
stale_keeps :
    (digest : String → Source → String) (l : Ledger) (now : ℕ) (c : ApplyRevocation)
    → epoch_of c.source ≤ latest_revocation_epoch (kind_of c.source) (id_of c.source) l.revocations
    → (execute_revocation digest l now c).0 ≡ l
unfolding execute_revocation
stale_keeps digest l now c h = ground (
  arith,
  Option-cases (stored_result l.store.results apply_revocation c.base),
  Result-cases (require_active_principal l.store.database.runners l.members c.base.actor),
)

-- After a revocation that is applied, and is not the answer to a command sent again, a revocation of
-- the same source with no higher epoch changes nothing, whoever asks for it, at any time and after any
-- other revocations.
pub revoke_once :
    (digest : String → Source → String) (l l' : Ledger) (now t : ℕ) (c again : ApplyRevocation)
    (r : CommandResult) (calls : List (ℕ × ApplyRevocation))
    → stored_result l.store.results apply_revocation c.base ≡ none
    → execute_revocation digest l now c ≡ (l', ok r)
    → kind_of again.source ≡ kind_of c.source
    → id_of again.source ≡ id_of c.source
    → epoch_of again.source ≤ epoch_of c.source
    → (execute_revocation digest (run_revocations digest l' calls) t again).0
      ≡ run_revocations digest l' calls
revoke_once digest l l' now t c again r calls new h k i e =
    let first_latest = applied-latest digest l l' now c r new h in
    let later = run-latest digest calls l' (kind_of c.source) (id_of c.source) in
    stale_keeps digest (run_revocations digest l' calls) t again (rw (k, i) (omega arith))
