-- ===== src/Base/Keys.antt =====
-- Lists of text keys as sets: distinct keys, inclusion, and counting by inclusion.
use Prim.Native.Nat.{suc, ◌≤◌}
use Prim.Native.String.{String}
use mathlib.Core.Path.{◌≡◌, refl}
use mathlib.Core.Logic.{inl, inr}
use mathlib.Core.Bool.{Bool, true, false, not, ◌&&◌, ◌||◌}
use mathlib.Core.List.{List, [], ◌∷◌, ◌++◌}
use native.Mathlib.Omega.{arith}
use text.Mathlib.TextEquality.{eq_iff}
use collab.Base.Tests.{same, if◌then◌else◌, Bool-cases}
use collab.Base.Lists.{length, includes, keep}

abbrev pub distinct : List String → Bool
distinct [] = true
distinct (x ∷ xs) = not (includes xs x) && distinct xs

-- Every key of the first list is in the second.
abbrev pub Within : List String → List String → Type 0
Within xs ys = (k : String) → includes xs k ≡ true → includes ys k ≡ true

drop_key : String → List String → List String
drop_key k [] = []
drop_key k (x ∷ xs) = if same x k then xs else x ∷ drop_key k xs

includes-drop_key :
    (j k : String) (xs : List String)
    → same j k ≡ false
    → includes xs k ≡ true
    → includes (drop_key j xs) k ≡ true
unfolding drop_key
includes-drop_key j k [] n h = h
includes-drop_key j k (x ∷ xs) n h =
    ground (arith, eq_iff x j, eq_iff x k, eq_iff j k, includes-drop_key j k xs n)

length-drop_key :
    (k : String) (xs : List String)
    → includes xs k ≡ true
    → suc (length (drop_key k xs)) ≤ length xs
unfolding drop_key
length-drop_key k [] h = cc
length-drop_key k (x ∷ xs) h = ground (arith, length-drop_key k xs)

pub includes_ne :
    (x k : String) (xs : List String)
    → includes xs x ≡ false
    → includes xs k ≡ true
    → same x k ≡ false
includes_ne x k [] h g = cc
includes_ne x k (y ∷ ys) h g =
    ground (arith, eq_iff x k, eq_iff y x, eq_iff y k, includes_ne x k ys)

pub length-le_of_Within :
    (xs ys : List String) → distinct xs ≡ true → Within xs ys → length xs ≤ length ys
length-le_of_Within [] ys d w = omega arith
length-le_of_Within (x ∷ xs) ys d w = omega (
  arith,
  length-drop_key x ys (w x (ground (arith, eq_iff x x))),
  length-le_of_Within xs (drop_key x ys) (ground arith)
      λ k h. includes-drop_key x k ys (includes_ne x k xs (ground arith) h) (w k (ground arith)),
)

pub includes-append :
    (xs ys : List String) (k : String) → includes (xs ++ ys) k ≡ (includes xs k || includes ys k)
includes-append [] ys k = refl
includes-append (x ∷ xs) ys k = ground (arith, includes-append xs ys k)

pub distinct-append :
    (xs : List String) (k : String)
    → distinct xs ≡ true
    → includes xs k ≡ false
    → distinct (xs ++ k ∷ []) ≡ true
distinct-append [] k d n = refl
distinct-append (x ∷ xs) k d n =
    ground (arith, includes-append xs (k ∷ []) x, eq_iff x k, eq_iff k x, distinct-append xs k)

pub includes-keep :
    (p : String → Bool) (xs : List String) (k : String)
    → includes (keep p xs) k ≡ (includes xs k && p k)
includes-keep p [] k = refl
includes-keep p (x ∷ xs) k = elim (Bool-cases (same x k)) [
  | inl e ↦ rw ((eq_iff x k).0 e) (ground (arith, eq_iff k k, includes-keep p xs k))
  | inr n ↦ ground (arith, includes-keep p xs k)
]
