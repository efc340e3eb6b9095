-- ===== src/Runs/Acceptance/Numbering.antt =====
-- event-deduplication.ts: the numbering of a run's accepted events.
use collab.Base.{
  ℕ, ◌+◌, true, ◌&&◌, ◌≡◌, refl, ap, ◌∙◌, Option, none, some, List, [], ◌∷◌, String, same,
  if◌then◌else◌, arith, eq_iff, Bool-cases, Option-cases, inl, inr,
}
use collab.Runs.Acceptance.{of_run, latest, is_next, same_id, is_absent}
use collab.Runs.Acceptance.Records.{Row, Input}

-- How many events of the run are accepted, and the one that came last.
abbrev pub count_run : String → String → List Row → ℕ
count_run runner run [] = 0
count_run runner run (r ∷ rs) =
    let n = count_run runner run rs in
    if same r.input.runner_id runner && same r.input.run_id run then n + 1 else n

abbrev pub newest : String → String → List Row → Option String
newest runner run [] = none
newest runner run (r ∷ rs) =
    let id = newest runner run rs in
    if same r.input.runner_id runner && same r.input.run_id run then some r.input.event_id else id

-- The events of each run of each runner are numbered 1, 2, 3, … as they were accepted, and each
-- names the one before it.
abbrev pub Numbered : List Row → Type 0
Numbered [] = Unit {0}
Numbered (r ∷ rs) =
    (r.input.local_sequence ≡ count_run r.input.runner_id r.input.run_id rs + 1)
    × (r.input.predecessor ≡ newest r.input.runner_id r.input.run_id rs)
    × Numbered rs

abbrev sequence_of : Option Row → ℕ
sequence_of none = 0
sequence_of (some r) = r.input.local_sequence

abbrev id_of : Option Row → Option String
id_of none = none
id_of (some r) = some r.input.event_id

latest_lem :
    (runner run : String) (rs : List Row)
    → Numbered rs
    → (sequence_of (latest runner run rs) ≡ count_run runner run rs)
      × (id_of (latest runner run rs) ≡ newest runner run rs)
unfolding latest of_run
latest_lem runner run [] n = (refl, refl)
latest_lem runner run (r ∷ rs) n =
    elim (Bool-cases (same r.input.runner_id runner && same r.input.run_id run)) [
      | inl s ↦
          let a : r.input.runner_id ≡ runner = (eq_iff r.input.runner_id runner).0 (ground arith) in
          let b : r.input.run_id ≡ run = (eq_iff r.input.run_id run).0 (ground arith) in
          let count : r.input.local_sequence ≡ count_run runner run rs + 1 =
            n.0
            ∙ ap (λ (x : String). count_run x r.input.run_id rs + 1) a
            ∙ ap (λ (x : String). count_run runner x rs + 1) b in
          ground (arith, count, latest_lem runner run rs n.2)
      | inr d ↦ ground (arith, latest_lem runner run rs n.2)
    ]

some_id : (p : Option String) (id : String) → same_id p id ≡ true → p ≡ some id
some_id none id h = cc
some_id (some a) id h = ap some ((eq_iff a id).0 h)

no_id : (p : Option String) → is_absent p ≡ true → p ≡ none
no_id none h = refl
no_id (some a) h = cc

-- While the events are numbered, the code takes exactly the next number with the right predecessor.
pub is_next_lem :
    (rs : List Row) (i : Input)
    → Numbered rs
    → is_next rs i ≡ true
    → (i.local_sequence ≡ count_run i.runner_id i.run_id rs + 1)
      × (i.predecessor ≡ newest i.runner_id i.run_id rs)
unfolding is_next
is_next_lem rs i n h =
    let l = latest_lem i.runner_id i.run_id rs n in
    elim (Option-cases (latest i.runner_id i.run_id rs)) [
      | inl e ↦ ground (arith, l, no_id i.predecessor)
      | inr (r, e) ↦ ground (arith, l, some_id i.predecessor r.input.event_id)
    ]

same_id_refl : (a : String) → same_id (some a) a ≡ true
same_id_refl a = (eq_iff a a).1 refl

-- Conversely the event that has the next number and names the last one is next.
pub next-is_next :
    (rs : List Row) (i : Input)
    → Numbered rs
    → i.local_sequence ≡ count_run i.runner_id i.run_id rs + 1
    → i.predecessor ≡ newest i.runner_id i.run_id rs
    → is_next rs i ≡ true
unfolding is_next
next-is_next rs i n c p =
    let l = latest_lem i.runner_id i.run_id rs n in
    elim (Option-cases (latest i.runner_id i.run_id rs)) [
      | inl e ↦ ground (arith, l)
      | inr (r, e) ↦
          let q : i.predecessor ≡ some r.input.event_id = ground (arith, l) in
          rw (e, q) (ground (arith, l, e, eq_iff r.input.event_id r.input.event_id))
    ]
