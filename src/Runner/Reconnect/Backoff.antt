-- ===== src/Runner/Reconnect/Backoff.antt =====
-- reconnect.ts: what the runner does between connections.
use collab.Base.{ℕ, ◌<◌, ◌≡◌, ◌≢◌, ◌⊎◌, true, List, [], ◌∷◌, Option, none, some, arith}
use collab.Runner.Reconnect.{
  Reconnect, active, backing_off, stopped, DisconnectReason, initial, is_fatal, authenticate,
  negotiate, activate, mark_stable, disconnect, retry, stop, next_delay,
}

-- The calls of the class; a call that throws leaves the object as it was.
pub data Call : Type 0 where
  authenticates negotiates retries stops : Call
  activates marks_stable : ℕ → Call
  disconnects : DisconnectReason → Call

abbrev or_same : Reconnect → Option Reconnect → Reconnect
or_same r none = r
or_same r (some q) = q

unfoldable pub step : Reconnect → Call → Reconnect
unfolding authenticate negotiate activate mark_stable disconnect retry stop
step r authenticates = or_same r (authenticate r)
step r negotiates = or_same r (negotiate r)
step r retries = or_same r (retry r)
step r stops = stop r
step r (activates now) = or_same r (activate r now)
step r (marks_stable now) = or_same r (mark_stable r now)
step r (disconnects reason) = disconnect r reason

unfoldable pub run : Reconnect → List Call → Reconnect
run r [] = r
run r (c ∷ cs) = run (step r c) cs

pub record Inv (r : Reconnect) : Type 0 where
  pub counted : r.state ≡ backing_off → 0 < r.attempt
  pub stable_active : r.stable ≡ true → ((r.state ≡ active) ⊎ (r.state ≡ stopped)) × (r.attempt ≡ 0)
  pub since : r.state ≡ active → r.active_since ≢ none

step-Inv : (r : Reconnect) (c : Call) → Inv r → Inv (step r c)
unfolding step
step-Inv r c v = ground arith

run-Inv : (r : Reconnect) (cs : List Call) → Inv r → Inv (run r cs)
unfolding run
run-Inv r [] v = v
run-Inv r (c ∷ cs) v = run-Inv (step r c) cs (step-Inv r c v)

initial-Inv : Inv initial
initial-Inv = ground arith

-- After any calls: a runner that backs off has counted at least one attempt, so the exponent of the
-- delay is right; a connection marked as stable is active or stopped with its count at 0; and an
-- active connection knows since when.
pub run-initial-Inv : (cs : List Call) → Inv (run initial cs)
run-initial-Inv cs = run-Inv initial cs initial-Inv

stopped-step : (r : Reconnect) (c : Call) → r.state ≡ stopped → (step r c).state ≡ stopped
unfolding step
stopped-step r c h = ground arith

stopped-run : (r : Reconnect) (cs : List Call) → r.state ≡ stopped → (run r cs).state ≡ stopped
unfolding run
stopped-run r [] h = h
stopped-run r (c ∷ cs) h = stopped-run (step r c) cs (stopped-step r c h)

-- A refusal for authentication, protocol or policy is final: whatever is called afterwards, the
-- runner stays stopped and has no next delay.
fatal_stops :
    (r : Reconnect) (reason : DisconnectReason) (cs : List Call) (jitter : ℕ)
    → is_fatal reason ≡ true
    → let q = run (disconnect r reason) cs in
      (q.state ≡ stopped) × (next_delay q jitter ≡ some none)
unfolding disconnect next_delay
fatal_stops r reason cs jitter h =
    ground (arith, stopped-run (disconnect r reason) cs (ground arith))
