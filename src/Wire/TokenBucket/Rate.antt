-- ===== src/Wire/TokenBucket/Rate.antt =====
-- rate-limits.ts: how much a token bucket lets through.
use collab.Base.{
  ℕ, ◌+◌, ◌-◌, ◌*◌, ◌≤◌, ◌≡◌, sym, ap, ◌∙◌, Bool, true, false, some, List, [], ◌∷◌, arith, max,
}
use native.Mathlib.Nat.{add-mul}
use collab.Wire.TokenBucket.{TokenBucket, new, refill, consume}

pub record Inv (b : TokenBucket) : Type 0 where
  pub within : b.tokens ≤ b.burst

pub new-Inv : (rate burst now : ℕ) {b : TokenBucket} → new rate burst now ≡ some b → Inv b
unfolding new
new-Inv rate burst now h = ground arith

-- A call: the amount asked for, and the time.
abbrev pub Call : Type 0
Call = ℕ × ℕ

abbrev pub granted : Bool → ℕ → ℕ
granted true amount = amount
granted false amount = 0

-- The bucket after the calls, and the sum of the amounts that were granted.
unfoldable pub run : TokenBucket → List Call → TokenBucket × ℕ
run b [] = (b, 0)
run b ((amount, now) ∷ calls) =
    let (b', done) = consume b amount now in
    let (c, sum) = run b' calls in (c, granted done amount + sum)

elapsed-mul : (last now rate : ℕ) → (now - last) * rate + last * rate ≡ max last now * rate
elapsed-mul last now rate =
    sym (add-mul (now - last) last rate) ∙ ap (λ (t : ℕ). t * rate) (omega arith)

abbrev Refilled : TokenBucket → TokenBucket → Type 0
Refilled b r =
    (r.rate_per_second ≡ b.rate_per_second)
    × (r.burst ≡ b.burst)
    × (r.tokens ≤ b.burst)
    × (b.last_refill ≤ r.last_refill)
    × (r.tokens + b.last_refill * b.rate_per_second ≤ b.tokens + r.last_refill * b.rate_per_second)

refill-Refilled : (b : TokenBucket) (now : ℕ) → Refilled b (refill b now)
unfolding refill
refill-Refilled b now = omega (arith, elapsed-mul b.last_refill now b.rate_per_second)

-- One call keeps the limits, never turns the clock back, and hands out no more than what was there
-- and what the time that has passed brings.
consume_bounds :
    (b : TokenBucket) (amount now : ℕ)
    → Inv b
    → let (b', done) = consume b amount now in
      (b'.rate_per_second ≡ b.rate_per_second)
      × (b'.burst ≡ b.burst)
      × Inv b'
      × (b.last_refill ≤ b'.last_refill)
      × (granted done amount + b'.tokens + b.last_refill * b.rate_per_second
          ≤ b.tokens + b'.last_refill * b.rate_per_second)
unfolding consume
consume_bounds b amount now v = ground (arith, refill-Refilled b now)

run_bounds :
    (b : TokenBucket) (calls : List Call)
    → Inv b
    → ((run b calls).1 + b.last_refill * b.rate_per_second
        ≤ b.tokens + (run b calls).0.last_refill * b.rate_per_second)
      × (b.last_refill ≤ (run b calls).0.last_refill)
unfolding run
run_bounds b [] v = (omega arith, omega arith)
run_bounds b ((amount, now) ∷ calls) v =
    let b' = (consume b amount now).0 in
    let one = consume_bounds b amount now v in
    let rest = rw one.0 at (run_bounds b' calls one.2) in
    (omega (arith, one, rest), omega (arith, one, rest))

new_fields :
    (rate burst now : ℕ) {b : TokenBucket}
    → new rate burst now ≡ some b
    → (rate ≡ b.rate_per_second) × (burst ≡ b.tokens) × (now ≡ b.last_refill)
unfolding new
new_fields rate burst now h = ground arith

span-mul : (t s rate : ℕ) → t ≤ s → (s - t) * rate + t * rate ≡ s * rate
span-mul t s rate h = sym (add-mul (s - t) t rate) ∙ ap (λ (u : ℕ). u * rate) (omega arith)

-- The limit: over any calls, the amounts granted add up to no more than the burst and the rate
-- times the time between the bucket's first and last moments. Calls with a clock that runs back, and
-- refused calls, gain nothing.
pub run-granted_le :
    (rate burst now : ℕ) (calls : List Call) {b : TokenBucket}
    → new rate burst now ≡ some b
    → (run b calls).1 ≤ burst + ((run b calls).0.last_refill - now) * rate
run-granted_le rate burst now calls {b} h =
    let (er, et, en) = new_fields rate burst now h in
    let (sum, later) = run_bounds b calls (new-Inv rate burst now h) in
    rw (er, et, en)
      (omega
        (arith, sum, span-mul b.last_refill (run b calls).0.last_refill b.rate_per_second later))
