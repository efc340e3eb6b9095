-- ===== src/Wire/TokenBucket.antt =====
-- server/adapters/wss/rate-limits.ts, `TokenBucket`. Times, rates and amounts are whole numbers, as
-- the callers' clock in seconds and their limits are; the clock is an argument of each call.
pub mod Rate
mod Scenarios
use collab.Base.{
  ℕ, ◌+◌, ◌-◌, ◌*◌, Bool, true, false, Option, none, some, min, max, leb, ltb, if◌then◌else◌, ◌||◌,
  ◌==◌,
}

pub record TokenBucket : Type 0 where
  pub rate_per_second : ℕ
  pub burst : ℕ
  pub tokens : ℕ
  pub last_refill : ℕ

-- The constructor; `none` is a thrown TOKEN_BUCKET_INVALID.
unfoldable pub new : ℕ → ℕ → ℕ → Option TokenBucket
new rate burst now =
    if leb rate 0 || leb burst 0
    then none
    else some (record { rate_per_second = rate; burst = burst; tokens = burst; last_refill = now })

-- Math.max(0, now - lastRefill) is the subtraction that stops at 0.
unfoldable pub refill : TokenBucket → ℕ → TokenBucket
refill b now = record b {
  tokens = min b.burst (b.tokens + (now - b.last_refill) * b.rate_per_second);
  last_refill = max b.last_refill now;
}

unfoldable pub consume : TokenBucket → ℕ → ℕ → TokenBucket × Bool
consume b amount now =
    let full = refill b now in
    if leb amount 0
    then (b, false)
    else if ltb full.tokens amount
    then (full, false)
    else (record full { tokens = full.tokens - amount }, true)
