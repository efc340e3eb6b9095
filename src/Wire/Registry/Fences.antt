-- ===== src/Wire/Registry/Fences.antt =====
-- connection-registry.ts: a connection that was replaced, removed or closed never becomes current again.
use collab.Base.{
  ℕ, ◌+◌, ◌≤◌, true, false, ◌≡◌, refl, ap, ◌∙◌, Option, none, some, List, [], ◌∷◌, String, arith,
  eq_iff, Bool-cases, Option-cases, inl, inr,
}
use collab.Base.Table.{get, delete, get-set, get-delete}
use collab.Wire.Registry.{
  Registry, Connection, Disposition, new, keep_connection, request_termination,
  close_runner_identity, fenced, Closed, closing, is_same, fence_of, register, is_current,
  unregister, apply_disposition, quiesce,
}

pub data Call : Type 0 where
  registers : String → String → Call
  unregisters : String → String → ℕ → Call
  disposes : String → Disposition → Call
  quiesces : Call

abbrev after : Registry → Option (Registry × Connection × Closed) → Registry
after r none = r
after r (some (s, c, closed)) = s

unfoldable pub step : Registry → Call → Registry
step r (registers runner id) = after r (register r runner id)
step r (unregisters runner id fence) = (unregister r runner id fence).0
step r (disposes runner d) = (apply_disposition r runner d).0
step r quiesces = (quiesce r).0

unfoldable pub run : Registry → List Call → Registry
run r [] = r
run r (x ∷ xs) = run (step r x) xs

-- The connection is not the current one, and its fence was given out.
pub record IsStale (r : Registry) (runner id : String) (fence : ℕ) : Type 0 where
  pub other : is_current r runner id fence ≡ false
  pub given : fence ≤ fence_of runner r

register-IsStale :
    (r : Registry) (k n : String) (runner id : String) (fence : ℕ)
    → IsStale r runner id fence
    → IsStale (after r (register r k n)) runner id fence
unfolding register is_current fence_of
register-IsStale r k n runner id fence s =
    let f = fence_of k r + 1 in
    let conn : Connection = record { connection_id = n; fence = f } in
    record {
      other =
          ground (arith, s.other, s.given, get-set k runner conn r.connections, eq_iff k runner);
      given = ground (arith, s.given, get-set k runner f r.fences, eq_iff k runner);
    }

removed-IsStale :
    (r : Registry) (k runner id : String) (fence : ℕ)
    → IsStale r runner id fence
    → IsStale (record r { connections = delete k r.connections }) runner id fence
unfolding is_current fence_of
removed-IsStale r k runner id fence s = record {
  other = ground (arith, s.other, get-delete k runner r.connections);
  given = s.given;
}

unregistered-IsStale :
    (r : Registry) (k n : String) (f : ℕ) (runner id : String) (fence : ℕ)
    → IsStale r runner id fence
    → IsStale (unregister r k n f).0 runner id fence
unfolding unregister
unregistered-IsStale r k n f runner id fence s = elim (Bool-cases (is_current r k n f)) [
  | inl e ↦ rw e (removed-IsStale r k runner id fence s)
  | inr e ↦ rw e s
]

disposed-IsStale :
    (r : Registry) (k : String) (d : Disposition) (runner id : String) (fence : ℕ)
    → IsStale r runner id fence
    → IsStale (apply_disposition r k d).0 runner id fence
unfolding apply_disposition
disposed-IsStale r k keep_connection runner id fence s = elim (Option-cases (get k r.connections)) [
  | inl e ↦ rw e s
  | inr (c, e) ↦ rw e s
]
disposed-IsStale r k (request_termination ids) runner id fence s =
    elim (Option-cases (get k r.connections)) [ inl e ↦ rw e s | inr (c, e) ↦ rw e s ]
disposed-IsStale r k close_runner_identity runner id fence s =
    elim (Option-cases (get k r.connections)) [
      | inl e ↦ rw e s
      | inr (c, e) ↦ rw e (removed-IsStale r k runner id fence s)
    ]

step-IsStale :
    (r : Registry) (x : Call) (runner id : String) (fence : ℕ)
    → IsStale r runner id fence
    → IsStale (step r x) runner id fence
unfolding step unregister quiesce is_current fence_of get
step-IsStale r (registers k n) runner id fence s = register-IsStale r k n runner id fence s
step-IsStale r (disposes k d) runner id fence s = disposed-IsStale r k d runner id fence s
step-IsStale r quiesces runner id fence s = record { other = refl; given = s.given }
step-IsStale r (unregisters k n f) runner id fence s =
    unregistered-IsStale r k n f runner id fence s

run-IsStale :
    (r : Registry) (xs : List Call) (runner id : String) (fence : ℕ)
    → IsStale r runner id fence
    → IsStale (run r xs) runner id fence
unfolding run
run-IsStale r [] runner id fence s = s
run-IsStale r (x ∷ xs) runner id fence s =
    run-IsStale (step r x) xs runner id fence (step-IsStale r x runner id fence s)

-- No connection has a fence that was not given out.
abbrev fence_in : Option Connection → ℕ
fence_in none = 0
fence_in (some c) = c.fence

abbrev Inv : Registry → Type 0
Inv r = (runner : String) → fence_in (get runner r.connections) ≤ fence_of runner r

register-Inv : (r : Registry) (k n : String) → Inv r → Inv (after r (register r k n))
unfolding register fence_of
register-Inv r k n v runner =
    let f = fence_of k r + 1 in
    let conn : Connection = record { connection_id = n; fence = f } in
    ground (arith, v runner, get-set k runner conn r.connections, get-set k runner f r.fences)

removed-Inv :
    (r : Registry) (k : String) → Inv r → Inv (record r { connections = delete k r.connections })
unfolding fence_of
removed-Inv r k v runner = ground (arith, v runner, get-delete k runner r.connections)

unregistered-Inv : (r : Registry) (k n : String) (f : ℕ) → Inv r → Inv (unregister r k n f).0
unfolding unregister
unregistered-Inv r k n f v = elim (Bool-cases (is_current r k n f)) [
  | inl e ↦ rw e (removed-Inv r k v)
  | inr e ↦ rw e v
]

disposed-Inv :
    (r : Registry) (k : String) (d : Disposition) → Inv r → Inv (apply_disposition r k d).0
unfolding apply_disposition
disposed-Inv r k keep_connection v = elim (Option-cases (get k r.connections)) [
  | inl e ↦ rw e v
  | inr (c, e) ↦ rw e v
]
disposed-Inv r k (request_termination ids) v = elim (Option-cases (get k r.connections)) [
  | inl e ↦ rw e v
  | inr (c, e) ↦ rw e v
]
disposed-Inv r k close_runner_identity v = elim (Option-cases (get k r.connections)) [
  | inl e ↦ rw e v
  | inr (c, e) ↦ rw e (removed-Inv r k v)
]

step-Inv : (r : Registry) (x : Call) → Inv r → Inv (step r x)
unfolding step unregister quiesce fence_of get
step-Inv r (registers k n) v = register-Inv r k n v
step-Inv r (disposes k d) v = disposed-Inv r k d v
step-Inv r quiesces v = λ runner. omega arith
step-Inv r (unregisters k n f) v = unregistered-Inv r k n f v

run-Inv : (r : Registry) (xs : List Call) → Inv r → Inv (run r xs)
unfolding run
run-Inv r [] v = v
run-Inv r (x ∷ xs) v = run-Inv (step r x) xs (step-Inv r x v)

new-Inv : Inv new
unfolding new get fence_of
new-Inv runner = omega arith

fenced_one :
    (o : Option Connection) (closed : Closed) (id : String) (fence : ℕ)
    → closed ≡ closing fenced o
    → is_same id fence o ≡ true
    → closed ≡ (id, fenced) ∷ []
fenced_one none closed id fence e i = cc
fenced_one (some k) closed id fence e i =
    let one : k.connection_id ≡ id = (eq_iff k.connection_id id).0 (ground arith) in
    e ∙ ap (λ (x : String). (x, fenced) ∷ []) one

-- Whatever happened before, the connection that a runner registers is its current one, and the
-- connection that was current is closed as FENCED and is never current again, whatever happens later.
pub register_replaces :
    (xs ys : List Call) (runner n : String) {s : Registry} {c : Connection} {closed : Closed}
    (id : String) (fence : ℕ)
    → register (run new xs) runner n ≡ some (s, c, closed)
    → is_current (run new xs) runner id fence ≡ true
    → (is_current s runner c.connection_id c.fence ≡ true)
      × (closed ≡ (id, fenced) ∷ [])
      × (is_current (run s ys) runner id fence ≡ false)
unfolding register is_current fence_of
register_replaces xs ys runner n {s} {c} {closed} id fence h i =
    let r = run new xs in
    let v = run-Inv new xs new-Inv runner in
    let f = fence_of runner r + 1 in
    let conn : Connection = record { connection_id = n; fence = f } in
    let there = get-set runner runner conn r.connections in
    let counted = get-set runner runner f r.fences in
    let old : fence ≤ fence_in (get runner r.connections) = ground arith in
    let stale : IsStale s runner id fence = record {
      other = ground (arith, v, h, old, there, eq_iff runner runner);
      given = ground (arith, v, h, old, counted, eq_iff runner runner);
    } in
    (
      ground (arith, h, there, eq_iff runner runner, eq_iff n n),
      fenced_one (get runner r.connections) closed id fence (ground arith) i,
      (run-IsStale s ys runner id fence stale).other,
    )
