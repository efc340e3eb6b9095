-- ===== src/Workflow/Validation/Graph/Reach.antt =====
-- validation.ts: the search from the start nodes ends, and finds the keys that walks lead to.
use mathlib.Core.Path.{subst}
use collab.Base.{
  ℕ, zero, suc, ◌+◌, ◌≡◌, refl, ◌≤◌, true, false, ◌||◌, ◌⊎◌, ◌↔◌, inl, inr, some, List, [], ◌∷◌,
  ◌++◌, String, same, arith, length, total, if◌then◌else◌, includes, Bool-cases, length-append,
  includes-append, eq_iff,
}
use collab.Base.Table.{get}
use collab.Workflow.Validation.Graph.{Graph, targets, reach, reach_fuel, Walk, here, step}

-- The targets that a search has still to add: those of the keys that it has not seen.
pub weight : Graph → List String → ℕ
weight [] seen = 0
weight ((j, ts) ∷ g) seen = (if includes seen j then 0 else length ts) + weight g seen

weight_mono : (g : Graph) (seen : List String) (k : String) → weight g (k ∷ seen) ≤ weight g seen
unfolding weight
weight_mono [] seen k = omega arith
weight_mono ((j, ts) ∷ g) seen k = ground (arith, weight_mono g seen k)

-- A key that is seen for the first time pays for its targets.
pub weight_falls :
    (g : Graph) (seen : List String) (k : String)
    → includes seen k ≡ false
    → weight g (k ∷ seen) + length (targets g k) ≤ weight g seen
unfolding weight targets get
weight_falls [] seen k h = omega arith
weight_falls ((j, ts) ∷ g) seen k h =
    ground (arith, eq_iff j k, eq_iff k j, weight_mono g seen k, weight_falls g seen k h)

pub weight_nil : (g : Graph) → weight g [] ≡ total (λ e. length e.1) g
unfolding weight
weight_nil [] = refl
weight_nil ((j, ts) ∷ g) = omega (arith, weight_nil g)

reach_ends :
    (fuel : ℕ) (g : Graph) (seen queue : List String)
    → length queue + weight g seen ≤ fuel
    → (r : List String) × (reach fuel g seen queue ≡ some r)
unfolding reach
reach_ends fuel g seen [] h = (seen, refl)
reach_ends zero g seen (k ∷ queue) h = absurd (omega arith)
reach_ends (suc fuel) g seen (k ∷ queue) h = elim (Bool-cases (includes seen k)) [
  | inl old ↦ rw old (reach_ends fuel g seen queue (omega arith))
  | inr new ↦ rw new (
      reach_ends fuel g (k ∷ seen) (queue ++ targets g k)
        (omega (arith, weight_falls g seen k new, length-append queue (targets g k))))
]

-- The search from any start keys ends within its fuel.
pub reach_total :
    (g : Graph) (starts : List String)
    → (r : List String) × (reach (reach_fuel g starts) g [] starts ≡ some r)
unfolding reach_fuel
reach_total g starts = reach_ends (reach_fuel g starts) g [] starts (omega (arith, weight_nil g))

-- A key that some walk from one of the start keys leads to.
abbrev pub From : Graph → List String → String → Type 0
From g starts k = (a : String) × (includes starts a ≡ true) × Walk g a k

abbrev Sound : Graph → List String → List String → Type 0
Sound g starts keys = (k : String) → includes keys k ≡ true → From g starts k

next-Sound :
    (g : Graph) (starts queue : List String) (k : String)
    → Sound g starts (k ∷ queue)
    → Sound g starts (queue ++ targets g k)
next-Sound g starts queue k h j e =
    let found : (includes queue j ≡ true) ⊎ (includes (targets g k) j ≡ true) =
      ground (arith, includes-append queue (targets g k) j) in
    elim found [
      | inl waits ↦ h j (ground arith)
      | inr new ↦ let (a, s, w) = h k (ground (arith, eq_iff k k)) in (a, s, step w new)
    ]

cons-Sound :
    (g : Graph) (starts seen : List String) (k : String)
    → Sound g starts seen
    → From g starts k
    → Sound g starts (k ∷ seen)
cons-Sound g starts seen k h f j e = elim (Bool-cases (same k j)) [
  | inl at ↦ subst (From g starts) ((eq_iff k j).0 at) f
  | inr other ↦ h j (ground arith)
]

reach-Sound :
    (fuel : ℕ) (g : Graph) (starts seen queue r : List String)
    → Sound g starts seen
    → Sound g starts queue
    → reach fuel g seen queue ≡ some r
    → Sound g starts r
unfolding reach
reach-Sound fuel g starts seen [] r hs hq e =
    let same_keys : seen ≡ r = ground arith in subst (Sound g starts) same_keys hs
reach-Sound zero g starts seen (k ∷ queue) r hs hq e = cc
reach-Sound (suc fuel) g starts seen (k ∷ queue) r hs hq e = elim (Bool-cases (includes seen k)) [
  | inl old ↦ reach-Sound fuel g starts seen queue r hs (λ j h. hq j (ground arith)) (ground arith)
  | inr new ↦
      reach-Sound fuel g starts (k ∷ seen) (queue ++ targets g k) r
        (cons-Sound g starts seen k hs (hq k (ground (arith, eq_iff k k))))
        (next-Sound g starts queue k hq) (ground arith)
]

-- Every target of a seen key is seen or waits.
abbrev pub Closed : Graph → List String → List String → Type 0
Closed g seen queue =
    (k j : String)
    → includes seen k ≡ true
    → includes (targets g k) j ≡ true
    → (includes seen j || includes queue j) ≡ true

-- The search keeps all that it has seen or has waiting, and ends closed.
reach-Closed :
    (fuel : ℕ) (g : Graph) (seen queue r : List String)
    → Closed g seen queue
    → reach fuel g seen queue ≡ some r
    → ((k : String) → (includes seen k || includes queue k) ≡ true → includes r k ≡ true)
      × Closed g r []
unfolding reach
reach-Closed fuel g seen [] r c e =
    let same_keys : seen ≡ r = ground arith in
    subst
      (λ t.
        ((k : String) → (includes seen k || false) ≡ true → includes t k ≡ true) × Closed g t [])
      same_keys ((λ k h. ground arith), c)
reach-Closed zero g seen (k ∷ queue) r c e = cc
reach-Closed (suc fuel) g seen (k ∷ queue) r c e = elim (Bool-cases (includes seen k)) [
  | inl old ↦
      let (more, closed) =
        reach-Closed fuel g seen queue r (λ i j hi hj. ground (arith, c i j hi hj, eq_iff k j))
          (ground arith) in
      ((λ j h. more j (ground (arith, eq_iff k j))), closed)
  | inr new ↦
      let (more, closed) =
        reach-Closed fuel g (k ∷ seen) (queue ++ targets g k) r
          (λ i j hi hj. ground (arith, c i j, eq_iff k i, includes-append queue (targets g k) j))
          (ground arith) in
      ((λ j h. more j (ground (arith, includes-append queue (targets g k) j))), closed)
]

pub Walk-stays :
    (g : Graph) (r : List String) (a k : String)
    → Closed g r []
    → includes r a ≡ true
    → Walk g a k
    → includes r k ≡ true
Walk-stays g r a k closed h here = h
Walk-stays g r a k closed h (step {b} w e) =
    ground (arith, closed b k (Walk-stays g r a b closed h w) e)

-- The search finds exactly the keys that a walk from a start key leads to.
pub reach_iff :
    (fuel : ℕ) (g : Graph) (starts r : List String) (k : String)
    → reach fuel g [] starts ≡ some r
    → (includes r k ≡ true) ↔ From g starts k
reach_iff fuel g starts r k e = (
  reach-Sound fuel g starts [] starts r (λ j h. cc) (λ j h. (j, h, here)) e k,
  λ f.
      let (more, closed) = reach-Closed fuel g [] starts r (λ i j h _. cc) e in
      Walk-stays g r f.0 k closed (more f.0 f.1) f.2,
)
