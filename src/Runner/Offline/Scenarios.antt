-- ===== src/Runner/Offline/Scenarios.antt =====
-- offline-policy.ts: a runner ten seconds after its connection broke.
use collab.Base.{◌≡◌, ◌↔◌, refl, false, some}
use collab.Runner.Offline.{
  OfflineDecisionInput, mutating, decide_offline, continue_mutation_with_existing_lease, MayMutate,
  decide_offline-mutates,
}

abbrev cut_off : OfflineDecisionInput
cut_off = record {
  connected_and_renewed = false;
  mode = mutating;
  now = 110;
  attempt_deadline = 900;
  authority_session_expires_at = 300;
  mutation_lease_expires_at = some 200;
  disconnected_at = 100;
  disconnect_grace_seconds = 30;
}

decide_offline-mutates_example :
    (decide_offline cut_off ≡ continue_mutation_with_existing_lease) ↔ MayMutate cut_off
decide_offline-mutates_example = decide_offline-mutates cut_off refl
