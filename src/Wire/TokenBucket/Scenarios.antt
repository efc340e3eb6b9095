-- ===== src/Wire/TokenBucket/Scenarios.antt =====
-- rate-limits.ts: a bucket of five tokens, two a second.
use collab.Base.{◌+◌, ◌-◌, ◌*◌, ◌≤◌, refl, List, [], ◌∷◌}
use collab.Wire.TokenBucket.{TokenBucket, new}
use collab.Wire.TokenBucket.Rate.{Call, run, run-granted_le}

abbrev small : TokenBucket
small = record { rate_per_second = 2; burst = 5; tokens = 5; last_refill = 10 }

abbrev calls : List Call
calls = (4, 10) ∷ (4, 11) ∷ (3, 9) ∷ (3, 13) ∷ []

run-granted_le_example : (run small calls).1 ≤ 5 + ((run small calls).0.last_refill - 10) * 2
unfolding new
run-granted_le_example = run-granted_le 2 5 10 calls {b = small} refl
