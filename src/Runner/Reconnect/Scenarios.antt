-- ===== src/Runner/Reconnect/Scenarios.antt =====
-- reconnect.ts: a runner that is cut off twice.
use collab.Base.{List, [], ◌∷◌}
use collab.Runner.Reconnect.{Reconnect, backing_off, network, initial}
use collab.Runner.Reconnect.Backoff.{
  Call, authenticates, activates, retries, disconnects, run, Inv, run-initial-Inv,
}

abbrev calls : List Call
calls = authenticates ∷ activates 10 ∷ disconnects network ∷ retries ∷ disconnects network ∷ []

run-initial-Inv_example : Inv (run initial calls)
run-initial-Inv_example = run-initial-Inv calls

abbrev twice_cut : Reconnect
twice_cut = record initial { state = backing_off; attempt = 2 }
