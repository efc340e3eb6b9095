-- ===== src/Wire/Protocol/Windows.antt =====
-- protocol.ts: the state that a channel retains is bounded.
use mathlib.Core.Path.{subst}
use collab.Base.{
  ℕ, ◌+◌, ◌-◌, ◌≤◌, Bool, true, ◌≡◌, sym, Option, none, some, List, [], ◌∷◌, String, leb, length,
  arith, eq_iff, Bool-cases, Option-cases, inl, inr, ◌⊎◌,
}
use collab.Base.Table.{Table, get, set, delete, get-set, length-set-le, length-delete-le}
use collab.Wire.TokenBucket.{TokenBucket, consume}
use collab.Wire.Protocol.{
  Channel, Seen, run_scope, prior_of, limit_run, touch_bucket, drop_first, remember,
  accept_envelope, receive_envelope, receive_hello, receive_decoded, receive_bytes, receive_text,
  new, bucket,
}
use collab.Wire.Protocol.Frames.{Decoder, Raw, object, plain, Envelope}
use collab.Wire.Protocol.Versions.{select_version}
use collab.Wire.Protocol.Sequence.{Call, bytes, text, step, run}

module _ {ℓ} {V : Type ℓ} where
  length-set_present :
      (k : String) (v w : V) (m : Table V) → get k m ≡ some v → length (set k w m) ≤ length m
  unfolding get set
  length-set_present k v w [] h = cc
  length-set_present k v w ((j, u) ∷ m) h = ground (arith, length-set_present k v w m)

  length-delete_present :
      (k : String) (v : V) (m : Table V) → get k m ≡ some v → length (delete k m) + 1 ≤ length m
  unfolding get delete
  length-delete_present k v [] h = cc
  length-delete_present k v ((j, u) ∷ m) h =
      ground (arith, length-delete_present k v m, length-delete-le k m)

  length-drop_first : (n : ℕ) (m : Table V) → length m ≤ n + 1 → length (drop_first m) ≤ n
  unfolding drop_first delete
  length-drop_first n [] h = omega arith
  length-drop_first n ((k, v) ∷ m) h = ground (arith, eq_iff k k, length-delete-le k m)

set_twice {ℓ} :
    {V : Type ℓ} (k : String) (a b : V) (m : Table V) (n : ℕ)
    → length m + 1 ≤ n
    → length (set k b (set k a m)) ≤ n
set_twice k a b m n h =
    let here : get k (set k a m) ≡ some a = ground (arith, get-set k k a m, eq_iff k k) in
    omega (arith, length-set-le k a m, length-set_present k a b (set k a m) here)

-- Of the channel: the remembered frames and the buckets stay within their limits, which are not zero.
pub record Inv (c : Channel) : Type 0 where
  pub some_replay : 1 ≤ c.maximum_replay_entries
  pub some_runs : 1 ≤ c.maximum_run_buckets
  pub few_replay : c.maximum_replay_entries ≤ 65536
  pub few_runs : c.maximum_run_buckets ≤ 16384
  pub replay : length c.seen ≤ c.maximum_replay_entries
  pub runs : length c.run_buckets ≤ c.maximum_run_buckets

remember-le :
    (maximum : ℕ) (id : String) (s : Seen) (m : Table Seen)
    → length m ≤ maximum
    → length (remember maximum id s m) ≤ maximum
unfolding remember
remember-le maximum id s m h =
    ground (arith, length-set-le id s m, length-drop_first maximum (set id s m))

touched :
    (maximum now : ℕ) (scope : String) (m : Table TokenBucket) (b : TokenBucket)
    → 1 ≤ maximum
    → length m ≤ maximum
    → length (set scope b (touch_bucket maximum now scope m (get scope m)).0) ≤ maximum
unfolding touch_bucket
touched maximum now scope m b one h = elim (Option-cases (get scope m)) [
  | inr (a, e) ↦ rw e (
      set_twice scope a b (delete scope m) maximum
        (omega (arith, length-delete_present scope a m e)))
  | inl e ↦ elim (Bool-cases (leb maximum (length m))) [
    | inl f ↦
        rw (e, f)
          (set_twice scope (bucket 50 100 now) b (drop_first m) maximum
            (omega (arith, one, length-drop_first (maximum - 1) m (omega (arith, one, h)))))
    | inr f ↦ rw (e, f) (set_twice scope (bucket 50 100 now) b m maximum (ground arith))
  ]
]

limit_run-Inv : (c : Channel) (now : ℕ) (s : Option String) → Inv c → Inv (limit_run c now s).0
unfolding limit_run
limit_run-Inv c now none v = v
limit_run-Inv c now (some s) v =
    let touch = touch_bucket c.maximum_run_buckets now s c.run_buckets (get s c.run_buckets) in
    record {
      some_replay = v.some_replay;
      some_runs = v.some_runs;
      few_replay = v.few_replay;
      few_runs = v.few_runs;
      replay = v.replay;
      runs =
          touched c.maximum_run_buckets now s c.run_buckets (consume touch.1 1 now).0 v.some_runs
            v.runs;
    }

accept-Inv :
    (c : Channel) (now : ℕ) (digest : String) (e : Envelope)
    → Inv c
    → Inv (accept_envelope c now digest e)
unfolding accept_envelope
accept-Inv c now digest e v = record {
  some_replay = v.some_replay;
  some_runs = v.some_runs;
  few_replay = v.few_replay;
  few_runs = v.few_runs;
  replay =
      remember-le c.maximum_replay_entries e.message_id
        (record { sequence = e.sequence; digest = digest }) c.seen v.replay;
  runs = v.runs;
}

same-Inv : {a b : Channel} → a ≡ b → Inv b → Inv a
same-Inv s v = subst Inv (sym s) v

envelope-Inv :
    (c : Channel) (now : ℕ) (digest : String) (r : Raw)
    → Inv c
    → Inv (receive_envelope c now digest r).0
unfolding receive_envelope
envelope-Inv c now digest plain v = v
envelope-Inv c now digest (object x) v = elim (Option-cases (prior_of c x.message_id)) [
  | inr (p, q) ↦ same-Inv (ground arith) v
  | inl q ↦ elim (Option-cases x.envelope) [
    | inl n ↦ same-Inv (ground arith) v
    | inr (e, n) ↦
        let l = limit_run c now (run_scope e.body) in
        let w = limit_run-Inv c now (run_scope e.body) v in
        let r = (receive_envelope c now digest (object x)).0 in
        let which : (r ≡ c) ⊎ ((r ≡ l.0) ⊎ (r ≡ accept_envelope l.0 now digest e)) = ground arith in
        elim which [
          | inl s ↦ same-Inv s v
          | inr (inl s) ↦ same-Inv s w
          | inr (inr s) ↦ same-Inv s (accept-Inv l.0 now digest e w)
        ]
  ]
]

hello-Inv :
    (c : Channel) (now : ℕ) (id : String) (r : Raw) → Inv c → Inv (receive_hello c now id r).0
unfolding receive_hello
hello-Inv c now id plain v = v
hello-Inv c now id (object x) v = elim (Option-cases x.hello) [
  | inl e ↦ same-Inv (ground arith) v
  | inr (ranges, e) ↦ elim (Option-cases (select_version c.supported_versions ranges)) [
    | inl q ↦ same-Inv (ground arith) v
    | inr (w, q) ↦
        let r = (receive_hello c now id (object x)).0 in
        let on : Channel = record c {
          is_active = true;
          selected_version = some w;
          last_heartbeat_at = now;
        } in
        let which : (r ≡ c) ⊎ (r ≡ on) = ground arith in
        elim which [
          | inl s ↦ same-Inv s v
          | inr s ↦ same-Inv s record {
            some_replay = v.some_replay;
            some_runs = v.some_runs;
            few_replay = v.few_replay;
            few_runs = v.few_runs;
            replay = v.replay;
            runs = v.runs;
          }
        ]
  ]
]

module _ (d : Decoder) where
  open d use {Bytes, Text, decode, encode, parse, digest}

  decoded-Inv :
      (c : Channel) (now : ℕ) (id : String) (t : Text) (b : Bytes)
      → Inv c
      → Inv (receive_decoded d c now id t b).0
  unfolding receive_decoded
  decoded-Inv c now id t b v = elim (Option-cases (parse t)) [
    | inl p ↦ same-Inv (ground arith) v
    | inr (raw, p) ↦
        let r = (receive_decoded d c now id t b).0 in
        let m : Channel = record c { runner_bucket = (consume c.runner_bucket 1 now).0 } in
        let w : Inv m = record {
          some_replay = v.some_replay;
          some_runs = v.some_runs;
          few_replay = v.few_replay;
          few_runs = v.few_runs;
          replay = v.replay;
          runs = v.runs;
        } in
        let which : (r ≡ (receive_hello c now id raw).0)
            ⊎ ((r ≡ m) ⊎ (r ≡ (receive_envelope m now (digest b) raw).0)) =
          ground arith in
        elim which [
          | inl s ↦ same-Inv s (hello-Inv c now id raw v)
          | inr (inl s) ↦ same-Inv s w
          | inr (inr s) ↦ same-Inv s (envelope-Inv m now (digest b) raw w)
        ]
  ]

  step-Inv : (c : Channel) (x : Call d) → Inv c → Inv (step d c x).0
  unfolding step receive_bytes receive_text
  step-Inv c (bytes now id b) v = elim (Option-cases (decode b)) [
    | inl e ↦ same-Inv (ground arith) v
    | inr (t, e) ↦
        let r = (step d c (bytes now id b)).0 in
        let which : (r ≡ c) ⊎ (r ≡ (receive_decoded d c now id t b).0) = ground arith in
        elim which [ inl s ↦ same-Inv s v | inr s ↦ same-Inv s (decoded-Inv c now id t b v) ]
  ]
  step-Inv c (text now id t) v =
      let r = (step d c (text now id t)).0 in
      let which : (r ≡ c) ⊎ (r ≡ (receive_decoded d c now id t (encode t)).0) = ground arith in
      elim which [ inl s ↦ same-Inv s v | inr s ↦ same-Inv s (decoded-Inv c now id t (encode t) v) ]

  run-Inv : (c : Channel) (xs : List (Call d)) → Inv c → Inv (run d c xs)
  unfolding run
  run-Inv c [] v = v
  run-Inv c (x ∷ xs) v = run-Inv (step d c x).0 xs (step-Inv c x v)

  new-Inv :
      (active : Bool) (versions : List String) (fence replay runs now : ℕ) {c : Channel}
      → new active versions fence replay runs now ≡ some c
      → Inv c
  unfolding new
  new-Inv active versions fence replay runs now {c} h = record {
    some_replay = ground arith;
    some_runs = ground arith;
    few_replay = ground arith;
    few_runs = ground arith;
    replay = ground arith;
    runs = ground arith;
  }

  -- Whatever frames come, a channel remembers at most 65,536 of them, and its configured number, and holds
  -- at most 16,384 run buckets, and their configured number.
  run-new-bounded :
      (active : Bool) (versions : List String) (fence replay runs now : ℕ) {c : Channel}
      (xs : List (Call d))
      → new active versions fence replay runs now ≡ some c
      → (length (run d c xs).seen ≤ (run d c xs).maximum_replay_entries)
        × (length (run d c xs).run_buckets ≤ (run d c xs).maximum_run_buckets)
        × (length (run d c xs).seen ≤ 65536)
        × (length (run d c xs).run_buckets ≤ 16384)
  run-new-bounded active versions fence replay runs now {c} xs h =
      let v = run-Inv c xs (new-Inv active versions fence replay runs now {c = c} h) in
      (v.replay, v.runs, omega (arith, v.replay, v.few_replay), omega (arith, v.runs, v.few_runs))
