-- ===== src/Workflow/Validation/Cycles/Paths.antt =====
-- validation.ts: `pathExists` ends, and decides whether a walk leads from one key to another.
use mathlib.Core.List.{reverse, reverse-append}
use mathlib.Core.Path.{subst}
use collab.Base.{
  ℕ, zero, suc, ◌+◌, ◌≡◌, refl, ◌≤◌, Bool, true, false, ◌||◌, ◌↔◌, inl, inr, some, List, [], ◌∷◌,
  ◌++◌, String, same, arith, length, includes, Bool-cases, length-append, includes-append, eq_iff,
}
use collab.Workflow.Validation.Graph.{Graph, targets, reach_fuel, Walk, here, step}
use collab.Workflow.Validation.Graph.Reach.{weight, weight_falls, weight_nil, Closed, Walk-stays}
use collab.Workflow.Validation.Cycles.{path_exists, path_back}

length-reverse : (xs : List String) → length (reverse xs) ≡ length xs
length-reverse [] = refl
length-reverse (x ∷ xs) =
    rw (reverse-append (x ∷ []) xs)
      (omega (arith, length-append (reverse xs) (x ∷ []), length-reverse xs))

includes-reverse : (xs : List String) (k : String) → includes (reverse xs) k ≡ includes xs k
includes-reverse [] k = refl
includes-reverse (x ∷ xs) k =
    rw (reverse-append (x ∷ []) xs)
      (ground (arith, includes-append (reverse xs) (x ∷ []) k, includes-reverse xs k))

path_exists_ends :
    (fuel : ℕ) (g : Graph) (target : String) (seen pending : List String)
    → length pending + weight g seen ≤ fuel
    → (b : Bool) × (path_exists fuel g target seen pending ≡ some b)
unfolding path_exists
path_exists_ends fuel g target seen [] h = (false, refl)
path_exists_ends zero g target seen (k ∷ pending) h = absurd (omega arith)
path_exists_ends (suc fuel) g target seen (k ∷ pending) h = elim (Bool-cases (same k target)) [
  | inl found ↦ (true, rw found)
  | inr other ↦ elim (Bool-cases (includes seen k)) [
    | inl old ↦ rw (other, old) (path_exists_ends fuel g target seen pending (omega arith))
    | inr new ↦
        rw (other, new)
          (path_exists_ends fuel g target (k ∷ seen) (reverse (targets g k) ++ pending) (
            omega (
              arith,
              weight_falls g seen k new,
              length-append (reverse (targets g k)) pending,
              length-reverse (targets g k),
            )))
  ]
]

pub path_back_total : (g : Graph) (e : String × String) → (b : Bool) × (path_back g e ≡ some b)
unfolding reach_fuel
path_back_total g e =
    path_exists_ends (reach_fuel g (e.1 ∷ [])) g e.0 [] (e.1 ∷ []) (omega (arith, weight_nil g))

module _ (g : Graph) (start target : String) where
  -- A walk leads from the start to each key that waits.
  abbrev Led : List String → Type 0
  Led keys = (k : String) → includes keys k ≡ true → Walk g start k

  Led-next :
      (k : String) (pending : List String)
      → Led (k ∷ pending)
      → Led (reverse (targets g k) ++ pending)
  Led-next k pending h j i = elim (Bool-cases (includes (targets g k) j)) [
    | inl new ↦ step (h k (ground (arith, eq_iff k k))) new
    | inr old ↦ h j (
        ground (
          arith,
          includes-append (reverse (targets g k)) pending j,
          includes-reverse (targets g k) j,
        ))
  ]

  path_exists_sound :
      (fuel : ℕ) (seen pending : List String)
      → Led pending
      → path_exists fuel g target seen pending ≡ some true
      → Walk g start target
  unfolding path_exists
  path_exists_sound fuel seen [] h e = absurd (ground arith)
  path_exists_sound zero seen (k ∷ pending) h e = cc
  path_exists_sound (suc fuel) seen (k ∷ pending) h e = elim (Bool-cases (same k target)) [
    | inl found ↦
        subst (Walk g start) ((eq_iff k target).0 found) (h k (ground (arith, eq_iff k k)))
    | inr other ↦ elim (Bool-cases (includes seen k)) [
      | inl old ↦ path_exists_sound fuel seen pending (λ j i. h j (ground arith)) (ground arith)
      | inr new ↦
          path_exists_sound fuel (k ∷ seen) (reverse (targets g k) ++ pending)
            (Led-next k pending h) (ground arith)
    ]
  ]

  -- What a search without success leaves: a closed set without the target.
  path_exists_closed :
      (fuel : ℕ) (seen pending : List String)
      → Closed g seen pending
      → includes seen target ≡ false
      → path_exists fuel g target seen pending ≡ some false
      → (r : List String) × (Closed g r [])
        × (includes r target ≡ false)
        × ((k : String) → (includes seen k || includes pending k) ≡ true → includes r k ≡ true)
  unfolding path_exists
  path_exists_closed fuel seen [] c n e = (seen, c, n, λ k h. ground arith)
  path_exists_closed zero seen (k ∷ pending) c n e = cc
  path_exists_closed (suc fuel) seen (k ∷ pending) c n e = elim (Bool-cases (same k target)) [
    | inl found ↦ absurd (ground arith)
    | inr other ↦ elim (Bool-cases (includes seen k)) [
      | inl old ↦
          let (r, closed, free, more) =
            path_exists_closed fuel seen pending
              (λ i j hi hj. ground (arith, c i j hi hj, eq_iff k j)) n (ground arith) in
          (r, closed, free, λ j h. more j (ground (arith, eq_iff k j)))
      | inr new ↦
          let next = reverse (targets g k) ++ pending in
          let (r, closed, free, more) =
            path_exists_closed fuel (k ∷ seen) next
              (λ i j hi hj. ground (
                arith,
                c i j,
                eq_iff k i,
                includes-append (reverse (targets g k)) pending j,
                includes-reverse (targets g k) j,
              ))
              (ground arith) (ground arith) in
          (
            r,
            closed,
            free,
            λ j h. more j (ground (arith, includes-append (reverse (targets g k)) pending j)),
          )
    ]
  ]

-- `pathExists(to, from)` says whether a walk leads from `to` back to `from`.
pub path_back_iff :
    (g : Graph) (e : String × String) (b : Bool)
    → path_back g e ≡ some b
    → (b ≡ true) ↔ Walk g e.1 e.0
path_back_iff g e true h = (
  λ _.
      path_exists_sound g e.1 e.0 (reach_fuel g (e.1 ∷ [])) [] (e.1 ∷ [])
        (λ k i. subst (Walk g e.1) ((eq_iff e.1 k).0 (ground arith)) here) h,
  λ w. refl,
)
path_back_iff g e false h = (
  λ i. cc,
  λ w.
      let (r, closed, free, more) =
        path_exists_closed g e.1 e.0 (reach_fuel g (e.1 ∷ [])) [] (e.1 ∷ []) (λ i j hi hj. cc) refl
          h in
      let back = Walk-stays g r e.1 e.0 closed (more e.1 (ground (arith, eq_iff e.1 e.1))) w in cc,
)
