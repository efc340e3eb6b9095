-- ===== src/Wire/SendQueue/Scenarios.antt =====
-- rate-limits.ts: a queue of two entries and ten bytes.
use collab.Base.{ℕ, ◌≡◌, ◌↔◌, refl, true, [], ◌∷◌, arith}
use collab.Wire.SendQueue.{Queue, Entry, normal, critical, enqueue}
use collab.Wire.SendQueue.Invariant.{Inv}
use collab.Wire.SendQueue.Admission.{HasRoom, critical_accepted}

abbrev chat : Entry ℕ
chat = record { value = 1; bytes = 4; priority = normal }

abbrev stop : Entry ℕ
stop = record { value = 2; bytes = 6; priority = critical }

abbrev kill : Entry ℕ
kill = record { value = 3; bytes = 9; priority = critical }

abbrev busy : Queue ℕ
busy = record { maximum_items = 2; maximum_bytes = 10; entries = stop ∷ chat ∷ []; bytes = 10 }

busy-Inv : Inv busy
busy-Inv = record { account = refl; items = omega arith; size = omega arith }

critical_accepted_example : ((enqueue busy kill).1 ≡ true) ↔ HasRoom busy kill
critical_accepted_example = critical_accepted busy kill busy-Inv refl
