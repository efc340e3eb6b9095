-- ===== src/Runner/Reconnect.antt =====
-- runner/transport/reconnect.ts. The jitter is given in thousandths and the delay in milliseconds;
-- a thrown error is `none`.
pub mod Backoff
mod Scenarios
use collab.Base.{
  ℕ, ◌+◌, ◌-◌, ◌*◌, ◌^◌, Bool, true, false, not, ◌&&◌, ◌||◌, Option, none, some, min, max, ltb,
  if◌then◌else◌,
}

pub data ConnectionState : Type 0 where
  disconnected authenticating negotiating active backing_off stopped : ConnectionState

pub data DisconnectReason : Type 0 where
  network restart unavailable authentication protocol policy : DisconnectReason

pub record Reconnect : Type 0 where
  pub state : ConnectionState
  pub attempt : ℕ
  pub active_since : Option ℕ
  pub stable : Bool

abbrev pub initial : Reconnect
initial = record { state = disconnected; attempt = 0; active_since = none; stable = false }

abbrev pub is : ConnectionState → ConnectionState → Bool
is disconnected disconnected = true
is authenticating authenticating = true
is negotiating negotiating = true
is active active = true
is backing_off backing_off = true
is stopped stopped = true
is _ _ = false

unfoldable pub authenticate : Reconnect → Option Reconnect
authenticate r =
    if not (is r.state disconnected) && not (is r.state backing_off)
    then none
    else some (record r { state = authenticating })

unfoldable pub negotiate : Reconnect → Option Reconnect
negotiate r =
    if not (is r.state authenticating) then none else some (record r { state = negotiating })

unfoldable pub activate : Reconnect → ℕ → Option Reconnect
activate r now =
    if not (is r.state negotiating) && not (is r.state authenticating)
    then none
    else some (record r { state = active; active_since = some now; stable = false })

-- `now - activeSince < 30`; a clock that ran back gives a negative span, which is also below 30.
abbrev too_young : Option ℕ → ℕ → Bool
too_young none now = true
too_young (some since) now = ltb (now - since) 30

unfoldable pub mark_stable : Reconnect → ℕ → Option Reconnect
mark_stable r now =
    if not (is r.state active) || too_young r.active_since now
    then none
    else some (record r { attempt = 0; stable = true })

abbrev pub is_fatal : DisconnectReason → Bool
is_fatal authentication = true
is_fatal protocol = true
is_fatal policy = true
is_fatal _ = false

unfoldable pub disconnect : Reconnect → DisconnectReason → Reconnect
disconnect r reason =
    if is r.state stopped
    then r
    else if is_fatal reason
    then record r { state = stopped }
    else record {
      state = backing_off;
      attempt = (if r.stable then 0 else r.attempt) + 1;
      active_since = none;
      stable = false;
    }

unfoldable pub retry : Reconnect → Option Reconnect
retry r = if not (is r.state backing_off) then none else some (record r { state = authenticating })

unfoldable pub stop : Reconnect → Reconnect
stop r = record r { active_since = none; stable = false; state = stopped }

-- `none` is a thrown RUNNER_BACKOFF_NOT_ACTIVE, `some none` the result null.
unfoldable pub next_delay : Reconnect → ℕ → Option (Option ℕ)
next_delay r jitter =
    if is r.state stopped
    then some none
    else if not (is r.state backing_off)
    then none
    else some (some (min 30000 (max 100 (min 30 (2 ^ (r.attempt - 1)) * min 1000 jitter))))
