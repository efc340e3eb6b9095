-- ===== src/Runner/Outbox/Rows.antt =====
-- runner/outbox.ts: the numbering of a run's events, and what an UPDATE leaves alone.
use collab.Base.{
  ℕ, suc, ◌+◌, Bool, true, false, ◌&&◌, ◌≡◌, refl, ap, ◌∙◌, Option, none, some, List, [], ◌∷◌,
  String, same, length, if◌then◌else◌, arith, eq_iff, Bool-cases, inl, inr, map, includes,
}
use collab.Runner.Outbox.{
  same_run, latest, sequence_of, id_of, weight, update_row, requeue_rows, select, is_state,
}
use collab.Runner.Outbox.Records.{Row, State, in_flight, pending}

-- How many rows the run has, and the event that it stored last.
abbrev pub count_run : Option String → List Row → ℕ
count_run run [] = 0
count_run run (r ∷ rs) = let n = count_run run rs in if same_run r.run_id run then n + 1 else n

abbrev pub newest : Option String → List Row → Option String
newest run [] = none
newest run (r ∷ rs) =
    let id = newest run rs in if same_run r.run_id run then some r.event_id else id

-- The events of each run are numbered 1, 2, 3, … in the order in which they were stored, and each
-- names the one before it.
abbrev pub Numbered : List Row → Type 0
Numbered [] = Unit {0}
Numbered (r ∷ rs) =
    (r.local_sequence ≡ count_run r.run_id rs + 1)
    × (r.predecessor ≡ newest r.run_id rs)
    × Numbered rs

pub same_run-eq : (a b : Option String) → same_run a b ≡ true → a ≡ b
same_run-eq none none h = refl
same_run-eq (some a) (some b) h = ap some ((eq_iff a b).0 h)
same_run-eq none (some b) h = cc
same_run-eq (some a) none h = cc

pub latest_lem :
    (run : Option String) (rs : List Row)
    → Numbered rs
    → (sequence_of (latest run rs) ≡ count_run run rs) × (id_of (latest run rs) ≡ newest run rs)
unfolding latest
latest_lem run [] n = (refl, refl)
latest_lem run (r ∷ rs) n = elim (Bool-cases (same_run r.run_id run)) [
  | inl s ↦
      let count : r.local_sequence ≡ count_run run rs + 1 =
        n.0 ∙ ap (λ (x : Option String). count_run x rs + 1) (same_run-eq r.run_id run s) in
      ground (arith, count, latest_lem run rs n.2)
  | inr d ↦ ground (arith, latest_lem run rs n.2)
]

-- A change of rows that leaves alone what identifies them.
pub record Keeps (g : Row → Row) : Type 0 where
  pub event : (r : Row) → (g r).event_id ≡ r.event_id
  pub run : (r : Row) → (g r).run_id ≡ r.run_id
  pub bytes : (r : Row) → (g r).byte_count ≡ r.byte_count
  pub number : (r : Row) → (g r).local_sequence ≡ r.local_sequence
  pub before : (r : Row) → (g r).predecessor ≡ r.predecessor

module _ (g : Row → Row) (k : Keeps g) where
  count_run-map :
      (run : Option String) (rs : List Row) → count_run run (map g rs) ≡ count_run run rs
  count_run-map run [] = refl
  count_run-map run (r ∷ rs) = rw (k.run r, count_run-map run rs)

  newest-map : (run : Option String) (rs : List Row) → newest run (map g rs) ≡ newest run rs
  newest-map run [] = refl
  newest-map run (r ∷ rs) = rw (k.run r, k.event r, newest-map run rs)

  pub map-Numbered : (rs : List Row) → Numbered rs → Numbered (map g rs)
  map-Numbered [] n = tt
  map-Numbered (r ∷ rs) n = (
    rw (k.number r, k.run r, count_run-map r.run_id rs) n.0,
    rw (k.before r, k.run r, newest-map r.run_id rs) n.1,
    map-Numbered rs n.2,
  )

  pub length-map : (rs : List Row) → length (map g rs) ≡ length rs
  length-map [] = refl
  length-map (r ∷ rs) = ap suc (length-map rs)

  pub weight-map : (rs : List Row) → weight (map g rs) ≡ weight rs
  weight-map [] = refl
  weight-map (r ∷ rs) = rw (k.bytes r, weight-map rs)

  pub ids-map : (rs : List Row) → map (λ r. r.event_id) (map g rs) ≡ map (λ r. r.event_id) rs
  ids-map [] = refl
  ids-map (r ∷ rs) = rw (k.event r, ids-map rs)

-- The UPDATE statements are such changes.
unfoldable pub update_one : (State → Bool) → State → Option String → ℕ → String → Row → Row
update_one may s code now id r =
    if same r.event_id id && may r.state
    then record r { state = s; rejection_code = code; updated_at = now }
    else r

pub update_one-Keeps :
    (may : State → Bool) (s : State) (code : Option String) (now : ℕ) (id : String)
    → Keeps (update_one may s code now id)
unfolding update_one
update_one-Keeps may s code now id = record {
  event = λ r. ground arith;
  run = λ r. ground arith;
  bytes = λ r. ground arith;
  number = λ r. ground arith;
  before = λ r. ground arith;
}

pub update_row-map :
    (may : State → Bool) (s : State) (code : Option String) (now : ℕ) (id : String) (rs : List Row)
    → update_row may s code now id rs ≡ map (update_one may s code now id) rs
unfolding update_row update_one
update_row-map may s code now id [] = refl
update_row-map may s code now id (r ∷ rs) = ground (arith, update_row-map may s code now id rs)

unfoldable pub requeue_one : ℕ → Row → Row
requeue_one now r =
    if is_state r.state in_flight then record r { state = pending; updated_at = now } else r

pub requeue_one-Keeps : (now : ℕ) → Keeps (requeue_one now)
unfolding requeue_one
requeue_one-Keeps now = record {
  event = λ r. ground arith;
  run = λ r. ground arith;
  bytes = λ r. ground arith;
  number = λ r. ground arith;
  before = λ r. ground arith;
}

pub requeue_rows-map :
    (now : ℕ) (rs : List Row) → (requeue_rows now rs).0 ≡ map (requeue_one now) rs
unfolding requeue_rows requeue_one
requeue_rows-map now [] = refl
requeue_rows-map now (r ∷ rs) = ground (arith, requeue_rows-map now rs)

pub select-none :
    (id : String) (rs : List Row)
    → select id rs ≡ none
    → includes (map (λ r. r.event_id) rs) id ≡ false
unfolding select
select-none id [] h = refl
select-none id (r ∷ rs) h = ground (arith, select-none id rs)
