-- ===== src/Runner/Offline.antt =====
-- runner/offline-policy.ts. The schema makes every field a whole number, which is the input's type.
mod Scenarios
use collab.Base.{
  ℕ, ◌+◌, ◌≤◌, ◌<◌, ◌≡◌, ◌≢◌, ◌↔◌, ◌⊎◌, Bool, true, false, Option, none, some, min, arith, leb,
  Option-cases, inl, inr, if◌then◌else◌, ◌&&◌,
}

pub data Mode : Type 0 where
  inspect_only mutating : Mode

pub data StopCode : Type 0 where
  attempt_deadline_expired authority_session_expired : StopCode
  mutation_lease_missing mutation_lease_expired : StopCode

pub record OfflineDecisionInput : Type 0 where
  pub connected_and_renewed : Bool
  pub mode : Mode
  pub now : ℕ
  pub attempt_deadline : ℕ
  pub authority_session_expires_at : ℕ
  pub mutation_lease_expires_at : Option ℕ
  pub disconnected_at : ℕ
  pub disconnect_grace_seconds : ℕ

pub data OfflineDecision : Type 0 where
  continue continue_inspection continue_mutation_with_existing_lease : OfflineDecision
  checkpoint_and_stop : StopCode → OfflineDecision

decide_lease : OfflineDecisionInput → Option ℕ → OfflineDecision
decide_lease i none = checkpoint_and_stop mutation_lease_missing
decide_lease i (some expires_at) =
    if leb (min expires_at (i.disconnected_at + i.disconnect_grace_seconds)) i.now
    then checkpoint_and_stop mutation_lease_expired
    else continue_mutation_with_existing_lease

abbrev is_inspect : Mode → Bool
is_inspect inspect_only = true
is_inspect mutating = false

unfoldable pub decide_offline : OfflineDecisionInput → OfflineDecision
unfolding decide_lease
decide_offline i =
    if leb i.attempt_deadline i.now
    then checkpoint_and_stop attempt_deadline_expired
    else if i.connected_and_renewed
    then continue
    else if is_inspect i.mode
    then continue_inspection
    else if leb i.authority_session_expires_at i.now
    then checkpoint_and_stop authority_session_expired
    else decide_lease i i.mutation_lease_expires_at

-- A runner that may go on mutating while it is cut off: in all four limits, with a lease.
pub record MayMutate (i : OfflineDecisionInput) : Type 0 where
  pub mode : i.mode ≡ mutating
  pub deadline : i.now < i.attempt_deadline
  pub session : i.now < i.authority_session_expires_at
  pub lease : (t : ℕ) × (i.mutation_lease_expires_at ≡ some t) × (i.now < t)
  pub grace : i.now < i.disconnected_at + i.disconnect_grace_seconds

-- A runner that is not connected goes on mutating exactly if it holds a lease and none of the
-- attempt's deadline, the session, the lease and the disconnect grace has run out.
pub decide_offline-mutates :
    (i : OfflineDecisionInput)
    → i.connected_and_renewed ≡ false
    → (decide_offline i ≡ continue_mutation_with_existing_lease) ↔ MayMutate i
unfolding decide_offline
decide_offline-mutates i off = (mutates, λ m. ground arith)
  where
    mutates : decide_offline i ≡ continue_mutation_with_existing_lease → MayMutate i
    mutates h = elim (Option-cases i.mutation_lease_expires_at) [
      | inl e ↦ absurd (ground arith)
      | inr (t, e) ↦ record {
        mode = ground arith;
        deadline = ground arith;
        session = ground arith;
        lease = (t, e, ground arith);
        grace = ground arith;
      }
    ]
