-- ===== src/Workflow/Validation/Graph/Finish.antt =====
-- validation.ts: the passes over the graph end, and find the keys that a walk leads from to a
-- terminal node.
use mathlib.Core.Path.{subst}
use collab.Base.{
  ℕ, zero, suc, ◌+◌, ◌≡◌, refl, ◌≤◌, ◌<◌, true, false, not, ◌&&◌, ◌↔◌, inl, inr, some, List, [],
  ◌∷◌, String, same, arith, length, if◌then◌else◌, any, includes, Bool-cases, All, eq_iff,
}
use collab.Base.Table.{get}
use collab.Workflow.Validation.Graph.{Graph, targets, pass, finish, Walk, here, step}

-- A key from which some walk leads to one of the ends.
abbrev pub To : Graph → List String → String → Type 0
To g ends k = (b : String) × (includes ends b ≡ true) × Walk g k b

Walk-before :
    (g : Graph) (a b c : String) → includes (targets g a) b ≡ true → Walk g b c → Walk g a c
Walk-before g a b c e here = step here e
Walk-before g a b c e (step w f) = step (Walk-before g a b _ e w) f

abbrev Sound : Graph → List String → List String → Type 0
Sound g ends keys = (k : String) → includes keys k ≡ true → To g ends k

-- The entries of a map are what it gives for their keys.
abbrev pub Reads : Graph → Graph → Type 0
Reads g entries = All (λ e. targets g e.0 ≡ e.1) entries

-- A test that meets an element of a list gives the element.
pub any_witness :
    (xs ys : List String)
    → any (includes xs) ys ≡ true
    → (k : String) × (includes xs k ≡ true) × (includes ys k ≡ true)
any_witness xs [] h = cc
any_witness xs (y ∷ ys) h = elim (Bool-cases (includes xs y)) [
  | inl at ↦ (y, at, ground (arith, eq_iff y y))
  | inr other ↦ let (k, hx, hy) = any_witness xs ys (ground arith) in (k, hx, ground arith)
]

-- An entry that a pass adds leads on to a key that it has.
found-Sound :
    (g : Graph) (ends keys ts : List String) (from : String)
    → Sound g ends keys
    → targets g from ≡ ts
    → any (includes keys) ts ≡ true
    → Sound g ends (from ∷ keys)
found-Sound g ends keys ts from h e found k i = elim (Bool-cases (same from k)) [
  | inl at ↦
      let (j, hk, hj) = any_witness keys ts found in
      let (b, hb, w) = h j hk in
      subst (To g ends) ((eq_iff from k).0 at) (b, hb, Walk-before g from j b (rw e hj) w)
  | inr other ↦ h k (ground arith)
]

pass-Sound :
    (g : Graph) (ends : List String) (entries : Graph) (keys : List String)
    → Reads g entries
    → Sound g ends keys
    → Sound g ends (pass entries keys).0
unfolding pass
pass-Sound g ends [] keys r h = h
pass-Sound g ends ((from, ts) ∷ entries) keys r h =
    elim (Bool-cases (not (includes keys from) && any (includes keys) ts)) [
      | inl found ↦ rw found (
          pass-Sound g ends entries (from ∷ keys) r.1
            (found-Sound g ends keys ts from h r.0 (ground arith)))
      | inr other ↦ rw other (pass-Sound g ends entries keys r.1 h)
    ]

pass_keeps :
    (entries : Graph) (keys : List String) (k : String)
    → includes keys k ≡ true
    → includes (pass entries keys).0 k ≡ true
unfolding pass
pass_keeps [] keys k h = h
pass_keeps ((from, ts) ∷ entries) keys k h =
    elim (Bool-cases (not (includes keys from) && any (includes keys) ts)) [
      | inl found ↦ rw found (pass_keeps entries (from ∷ keys) k (ground arith))
      | inr other ↦ rw other (pass_keeps entries keys k h)
    ]

-- The entries whose key is not found so far.
abbrev left : Graph → List String → ℕ
left [] keys = 0
left ((from, ts) ∷ entries) keys = (if includes keys from then 0 else 1) + left entries keys

left_mono :
    (entries : Graph) (keys more : List String)
    → ((k : String) → includes keys k ≡ true → includes more k ≡ true)
    → left entries more ≤ left entries keys
left_mono [] keys more h = omega arith
left_mono ((from, ts) ∷ entries) keys more h = ground (arith, h from, left_mono entries keys more h)

left-le : (entries : Graph) (keys : List String) → left entries keys ≤ length entries
left-le [] keys = omega arith
left-le ((from, ts) ∷ entries) keys = ground (arith, left-le entries keys)

-- A pass that reports a change has found the key of an entry.
pass_falls :
    (entries : Graph) (keys : List String)
    → (pass entries keys).1 ≡ true
    → left entries (pass entries keys).0 < left entries keys
unfolding pass
pass_falls [] keys h = cc
pass_falls ((from, ts) ∷ entries) keys h =
    elim (Bool-cases (not (includes keys from) && any (includes keys) ts)) [
      | inl found ↦
          let kept = pass_keeps entries (from ∷ keys) from (ground (arith, eq_iff from from)) in
          let mono =
            left_mono entries (from ∷ keys) (pass entries (from ∷ keys)).0
              (pass_keeps entries (from ∷ keys)) in
          let less = left_mono entries keys (from ∷ keys) (λ k i. ground arith) in ground arith
      | inr other ↦
          let below = pass_falls entries keys in
          let kept = pass_keeps entries keys from in ground arith
    ]

-- A pass without a change adds nothing, and leaves no entry that leads on to a found key.
pass_stops :
    (entries : Graph) (keys : List String)
    → (pass entries keys).1 ≡ false
    → ((pass entries keys).0 ≡ keys)
      × All (λ e. any (includes keys) e.1 ≡ true → includes keys e.0 ≡ true) entries
unfolding pass
pass_stops [] keys h = (refl, tt)
pass_stops ((from, ts) ∷ entries) keys h =
    elim (Bool-cases (not (includes keys from) && any (includes keys) ts)) [
      | inl found ↦ absurd (ground arith)
      | inr other ↦
          let (same_keys, closed) = pass_stops entries keys (ground arith) in
          (ground arith, ((λ i. ground arith), closed))
    ]

finish_ends :
    (fuel : ℕ) (g : Graph) (keys : List String)
    → left g keys < fuel
    → (r : List String) × (finish fuel g keys ≡ some r)
unfolding finish
finish_ends zero g keys h = absurd (omega arith)
finish_ends (suc fuel) g keys h = elim (Bool-cases (pass g keys).1) [
  | inl changed ↦
      rw changed (finish_ends fuel g (pass g keys).0 (omega (arith, pass_falls g keys changed)))
  | inr still ↦ ((pass g keys).0, rw still)
]

-- One pass for each entry of the graph, and a last one that changes nothing, are enough.
pub finish_total :
    (g : Graph) (keys : List String) → (r : List String) × (finish (length g + 1) g keys ≡ some r)
finish_total g keys = finish_ends (length g + 1) g keys (omega (arith, left-le g keys))

finish-Sound :
    (fuel : ℕ) (g : Graph) (ends keys r : List String)
    → Reads g g
    → Sound g ends keys
    → finish fuel g keys ≡ some r
    → Sound g ends r
unfolding finish
finish-Sound zero g ends keys r reads h e = cc
finish-Sound (suc fuel) g ends keys r reads h e = elim (Bool-cases (pass g keys).1) [
  | inl changed ↦
      finish-Sound fuel g ends (pass g keys).0 r reads (pass-Sound g ends g keys reads h)
        (ground arith)
  | inr still ↦
      let at : (pass g keys).0 ≡ r = ground arith in
      subst (Sound g ends) at (pass-Sound g ends g keys reads h)
]

-- A key with a target among the keys is one of them.
abbrev Closed : Graph → List String → Type 0
Closed g keys =
    (k j : String)
    → includes (targets g k) j ≡ true
    → includes keys j ≡ true
    → includes keys k ≡ true

any_of :
    (xs ys : List String) (j : String)
    → includes ys j ≡ true
    → includes xs j ≡ true
    → any (includes xs) ys ≡ true
any_of xs [] j hy hx = cc
any_of xs (y ∷ ys) j hy hx = ground (arith, eq_iff y j, any_of xs ys j)

entries-Closed :
    (g : Graph) (keys : List String)
    → All (λ e. any (includes keys) e.1 ≡ true → includes keys e.0 ≡ true) g
    → Closed g keys
unfolding targets get
entries-Closed [] keys h k j e i = cc
entries-Closed ((from, ts) ∷ g) keys h k j e i = elim (Bool-cases (same from k)) [
  | inl at ↦
      subst (λ a. includes keys a ≡ true) ((eq_iff from k).0 at)
        (h.0 (any_of keys ts j (ground arith) i))
  | inr other ↦ entries-Closed g keys h.1 k j (ground arith) i
]

finish-Closed :
    (fuel : ℕ) (g : Graph) (keys r : List String)
    → finish fuel g keys ≡ some r
    → ((k : String) → includes keys k ≡ true → includes r k ≡ true) × Closed g r
unfolding finish
finish-Closed zero g keys r e = cc
finish-Closed (suc fuel) g keys r e = elim (Bool-cases (pass g keys).1) [
  | inl changed ↦
      let (more, closed) = finish-Closed fuel g (pass g keys).0 r (ground arith) in
      ((λ k h. more k (pass_keeps g keys k h)), closed)
  | inr still ↦
      let (unchanged, closed) = pass_stops g keys still in
      let at : keys ≡ r = ground arith in
      subst (λ t. ((k : String) → includes keys k ≡ true → includes t k ≡ true) × Closed g t) at
        ((λ k h. h), entries-Closed g keys closed)
]

Walk-leads :
    (g : Graph) (r : List String) (a b : String)
    → Closed g r
    → Walk g a b
    → includes r b ≡ true
    → includes r a ≡ true
Walk-leads g r a b closed here h = h
Walk-leads g r a b closed (step {b = c} w e) h = Walk-leads g r a c closed w (closed c b e h)

-- The passes find exactly the keys from which a walk leads to one of the ends.
pub finish_iff :
    (fuel : ℕ) (g : Graph) (ends r : List String) (k : String)
    → Reads g g
    → finish fuel g ends ≡ some r
    → (includes r k ≡ true) ↔ To g ends k
finish_iff fuel g ends r k reads e = (
  finish-Sound fuel g ends ends r reads (λ j h. (j, h, here)) e k,
  λ t.
      let (more, closed) = finish-Closed fuel g ends r e in
      Walk-leads g r k t.0 closed t.2 (more t.0 t.1),
)
