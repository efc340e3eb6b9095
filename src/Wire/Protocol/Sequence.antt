-- ===== src/Wire/Protocol/Sequence.antt =====
-- protocol.ts: sequence numbers only grow, and a frame is accepted once.
use collab.Base.{
  ℕ, ◌≤◌, ◌<◌, ◌≡◌, ◌≢◌, refl, sym, ap, Option, none, some, List, [], ◌∷◌, String, arith,
  Bool-cases, Option-cases, inl, inr, ◌⊎◌, ◌∙◌,
}
use mathlib.Core.Path.{subst}
use collab.Wire.TokenBucket.{consume}
use collab.Wire.Protocol.{
  Channel, is_hello_raw, run_scope, prior_of, limit_run, accept_envelope, receive_envelope,
  receive_hello, receive_decoded, receive_bytes, receive_text,
}
use collab.Wire.Protocol.Frames.{
  Decoder, Raw, object, plain, Object, Envelope, ReceiveResult, accepted, duplicate, welcomed,
  rejected,
}
use collab.Wire.Protocol.Versions.{select_version}

limit_run-last :
    (c : Channel) (now : ℕ) (s : Option String)
    → (limit_run c now s).0.last_sequence ≡ c.last_sequence
unfolding limit_run
limit_run-last c now none = refl
limit_run-last c now (some s) = refl

limit_run-version :
    (c : Channel) (now : ℕ) (s : Option String)
    → (limit_run c now s).0.selected_version ≡ c.selected_version
unfolding limit_run
limit_run-version c now none = refl
limit_run-version c now (some s) = refl

-- What an envelope that is accepted as new is like.
accepted_envelope :
    (c : Channel) (now : ℕ) (digest : String) (x : Object)
    → (receive_envelope c now digest (object x)).1 ≡ accepted
    → (e : Envelope) × (x.envelope ≡ some e)
      × ((n : ℕ) → x.sequence ≡ some n → c.last_sequence < n)
      × ((receive_envelope c now digest (object x)).0.last_sequence ≡ e.sequence)
unfolding receive_envelope accept_envelope
accepted_envelope c now digest x h = elim (Option-cases (prior_of c x.message_id)) [
  | inr (p, q) ↦ ground arith
  | inl q ↦ elim (Option-cases x.envelope) [
    | inl n ↦ ground arith
    | inr (e, n) ↦ (e, n, λ m s. ground arith, ground arith)
  ]
]

-- Any other answer leaves the last sequence as it was.
other_envelope :
    (c : Channel) (now : ℕ) (digest : String) (r : Raw)
    → (receive_envelope c now digest r).1 ≢ accepted
    → (receive_envelope c now digest r).0.last_sequence ≡ c.last_sequence
unfolding receive_envelope
other_envelope c now digest plain h = refl
other_envelope c now digest (object x) h = elim (Option-cases (prior_of c x.message_id)) [
  | inr (p, q) ↦ ground arith
  | inl q ↦ elim (Option-cases x.envelope) [
    | inl n ↦ ground arith
    | inr (e, n) ↦ ground (arith, limit_run-last c now (run_scope e.body))
  ]
]

hello-last :
    (c : Channel) (now : ℕ) (id : String) (r : Raw)
    → ((receive_hello c now id r).0.last_sequence ≡ c.last_sequence)
      × ((receive_hello c now id r).1 ≢ accepted)
unfolding receive_hello
hello-last c now id plain = (refl, λ h. cc)
hello-last c now id (object x) = elim (Option-cases x.hello) [
  | inl e ↦ (ground arith, λ h. ground arith)
  | inr (ranges, e) ↦ elim (Option-cases (select_version c.supported_versions ranges)) [
    | inl v ↦ (ground arith, λ h. ground arith)
    | inr (v, p) ↦ (ground arith, λ h. ground arith)
  ]
]

plain_refused : (c : Channel) (now : ℕ) (k : String) → (receive_envelope c now k plain).1 ≢ accepted
unfolding receive_envelope
plain_refused c now k h = cc

is_accepted : (r : ReceiveResult) → (r ≡ accepted) ⊎ (r ≢ accepted)
is_accepted accepted = inl refl
is_accepted duplicate = inr λ h. cc
is_accepted (welcomed w) = inr λ h. cc
is_accepted (rejected code) = inr λ h. cc

module _ (d : Decoder) where
  open d use {Bytes, Text, decode, encode, parse, digest, sequence-kept}

  -- A frame that is accepted as new has an envelope whose number is above all before it.
  record Takes (c : Channel) (t : Text) (a : Channel × ReceiveResult) : Type 0 where
    x : Object
    e : Envelope
    parsed : parse t ≡ some (object x)
    envelope : x.envelope ≡ some e
    above : c.last_sequence < e.sequence
    last : a.0.last_sequence ≡ e.sequence

  abbrev Stays : Channel → Channel × ReceiveResult → Type 0
  Stays c a = (a.0.last_sequence ≡ c.last_sequence) × (a.1 ≢ accepted)

  enveloped :
      (c b : Channel) (now : ℕ) (k : String) (t : Text) (x : Object)
      → b.last_sequence ≡ c.last_sequence
      → parse t ≡ some (object x)
      → Stays c (receive_envelope b now k (object x))
        ⊎ Takes c t (receive_envelope b now k (object x))
  enveloped c b now k t x s p = elim (is_accepted (receive_envelope b now k (object x)).1) [
    | inr n ↦ inl (other_envelope b now k (object x) n ∙ s, n)
    | inl h ↦
        let (e, v, above, last) = accepted_envelope b now k x h in
        inr record {
          x = x;
          e = e;
          parsed = p;
          envelope = v;
          above = subst (λ z. z < e.sequence) s (above e.sequence (sequence-kept t x e p v));
          last = last;
        }
  ]

  received :
      (c : Channel) (now : ℕ) (id : String) (t : Text) (b : Bytes)
      → Stays c (receive_decoded d c now id t b) ⊎ Takes c t (receive_decoded d c now id t b)
  unfolding receive_decoded
  received c now id t b = elim (Option-cases (parse t)) [
    | inl p ↦ rw p (inl (refl, λ h. cc))
    | inr (raw, p) ↦ elim (Bool-cases c.is_active) [
      | inr i ↦
          let same_answer : receive_decoded d c now id t b ≡ receive_hello c now id raw =
            ground arith in
          subst (λ a. Stays c a ⊎ Takes c t a) (sym same_answer) (inl (hello-last c now id raw))
      | inl i ↦ elim (Bool-cases (consume c.runner_bucket 1 now).1) [
        | inr g ↦ inl (ground arith, λ h. ground arith)
        | inl g ↦ elim (Bool-cases (is_hello_raw raw)) [
          | inl k ↦ inl (ground arith, λ h. ground arith)
          | inr k ↦
              let same_answer : receive_decoded d c now id t b
                  ≡ receive_envelope limited now (digest b) raw =
                ground arith in
              subst (λ a. Stays c a ⊎ Takes c t a) (sym same_answer) (go raw p)
        ]
      ]
    ]
  ]
    where
      limited : Channel
      limited = record c { runner_bucket = (consume c.runner_bucket 1 now).0 }

      go :
          (raw : Raw)
          → parse t ≡ some raw
          → Stays c (receive_envelope limited now (digest b) raw)
            ⊎ Takes c t (receive_envelope limited now (digest b) raw)
      go plain p = inl (
        other_envelope limited now (digest b) plain (plain_refused limited now (digest b)),
        plain_refused limited now (digest b),
      )
      go (object x) p = enveloped c limited now (digest b) t x refl p

  pub data Call : Type 0 where
    bytes : ℕ → String → Bytes → Call
    text : ℕ → String → Text → Call

  unfoldable pub step : Channel → Call → Channel × ReceiveResult
  step c (bytes now id b) = receive_bytes d c now id b
  step c (text now id t) = receive_text d c now id t

  unfoldable pub run : Channel → List Call → Channel
  run c [] = c
  run c (x ∷ xs) = run (step c x).0 xs

  received-last :
      (c : Channel) (now : ℕ) (id : String) (t : Text) (b : Bytes)
      → c.last_sequence ≤ (receive_decoded d c now id t b).0.last_sequence
  received-last c now id t b = elim (received c now id t b) [
    | inl s ↦ omega (arith, s.0)
    | inr k ↦ omega (arith, k.above, k.last)
  ]

  step-last : (c : Channel) (x : Call) → c.last_sequence ≤ (step c x).0.last_sequence
  unfolding step receive_bytes receive_text
  step-last c (bytes now id b) = elim (Option-cases (decode b)) [
    | inl e ↦ ground arith
    | inr (t, e) ↦ ground (arith, received-last c now id t b)
  ]
  step-last c (text now id t) = ground (arith, received-last c now id t (encode t))

  run-last : (c : Channel) (xs : List Call) → c.last_sequence ≤ (run c xs).last_sequence
  unfolding run
  run-last c [] = omega arith
  run-last c (x ∷ xs) = omega (arith, step-last c x, run-last (step c x).0 xs)

  taken :
      (c : Channel) (now : ℕ) (id : String) (b : Bytes)
      → (receive_bytes d c now id b).1 ≡ accepted
      → (t : Text) × (decode b ≡ some t) × Takes c t (receive_bytes d c now id b)
  unfolding receive_bytes
  taken c now id b h = elim (Option-cases (decode b)) [
    | inl p ↦ ground arith
    | inr (t, p) ↦
        let same_answer : receive_bytes d c now id b ≡ receive_decoded d c now id t b =
          ground arith in
        elim (received c now id t b) [
          | inl s ↦ ground (arith, s, same_answer)
          | inr k ↦ (t, p, subst (Takes c t) (sym same_answer) k)
        ]
  ]

  one_envelope :
      (t u : Text) (x y : Object) (e f : Envelope)
      → t ≡ u
      → parse t ≡ some (object x)
      → parse u ≡ some (object y)
      → x.envelope ≡ some e
      → y.envelope ≡ some f
      → e ≡ f
  one_envelope t u x y e f s p q v w =
      let one : some (object x) ≡ some (object y) = sym p ∙ ap parse s ∙ q in ground arith

  -- A frame is accepted as new once: after any other frames, however many, the same bytes are a duplicate
  -- or are rejected. This also holds when the frame has left the window of remembered identifiers.
  pub accepted_once :
      (c : Channel) (now : ℕ) (id : String) (b : Bytes) (xs : List Call) (later : ℕ) (id' : String)
      → (receive_bytes d c now id b).1 ≡ accepted
      → (receive_bytes d (run (receive_bytes d c now id b).0 xs) later id' b).1 ≢ accepted
  accepted_once c now id b xs later id' h g =
      let (t, p, k) = taken c now id b h in
      let (u, q, l) = taken (run (receive_bytes d c now id b).0 xs) later id' b g in
      let one =
        one_envelope t u k.x l.x k.e l.e (ground arith) k.parsed l.parsed k.envelope l.envelope in
      let number : k.e.sequence ≡ l.e.sequence = ap (λ (e : Envelope). e.sequence) one in
      omega (arith, k.last, l.above, number, run-last (receive_bytes d c now id b).0 xs)
