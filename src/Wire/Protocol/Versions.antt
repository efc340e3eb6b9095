-- ===== src/Wire/Protocol/Versions.antt =====
-- server/adapters/wss/protocol.ts: the choice of a protocol version.
use Prim.Native.Char.{code}
use collab.Base.{
  ℕ, ◌+◌, ◌*◌, ◌-◌, Bool, true, false, ◌&&◌, ◌||◌, ◌≡◌, Option, none, some, List, [], ◌∷◌, String,
  leb, ltb, ◌==◌, same, if◌then◌else◌, includes, arith, eq_iff, ap, sym, ◌∙◌, Bool-cases,
  Option-cases, inl, inr,
}
use mathlib.Core.Path.{subst}
use collab.Base.Patterns.{is_digit}

pub record Range : Type 0 where
  pub major : ℕ
  pub minimum_minor : ℕ
  pub maximum_minor : ℕ

abbrev pub Version : Type 0
Version = ℕ × ℕ

abbrev digit : ℕ → ℕ
digit c = c - b'0'

-- (0|[1-9][0-9]{0,2})$
unfoldable pub parse_minor : String → Option ℕ
parse_minor (String.◌∷◌ a String.[]) = if is_digit (code a) then some (digit (code a)) else none
parse_minor (String.◌∷◌ a (String.◌∷◌ b String.[])) =
    if leb b'1' (code a) && is_digit (code a) && is_digit (code b)
    then some (digit (code a) * 10 + digit (code b))
    else none
parse_minor (String.◌∷◌ a (String.◌∷◌ b (String.◌∷◌ c String.[]))) =
    if leb b'1' (code a) && is_digit (code a) && is_digit (code b) && is_digit (code c)
    then some (digit (code a) * 100 + digit (code b) * 10 + digit (code c))
    else none
parse_minor _ = none

abbrev with_minor : ℕ → Option ℕ → Option Version
with_minor major none = none
with_minor major (some minor) = some (major, minor)

-- [0-9]{0,2}\. and the rest, after the first digits; the last argument is how many more may come.
unfoldable pub parse_rest : ℕ → ℕ → String → Option Version
unfolding parse_minor
parse_rest more major String.[] = none
parse_rest more major (String.◌∷◌ c s) =
    let next = parse_rest (more - 1) (major * 10 + digit (code c)) s in
    if code c == b'.'
    then with_minor major (parse_minor s)
    else if is_digit (code c) && leb 1 more
    then next
    else none

unfoldable pub parse_version : String → Option Version
unfolding parse_rest
parse_version String.[] = none
parse_version (String.◌∷◌ c s) =
    if leb b'1' (code c) && is_digit (code c) then parse_rest 2 (digit (code c)) s else none

unfoldable pub is_in_ranges : Version → List Range → Bool
is_in_ranges v [] = false
is_in_ranges v (r ∷ rs) =
    (r.major == v.0 && leb r.minimum_minor v.1 && leb v.1 r.maximum_minor) || is_in_ranges v rs

-- compareVersion(left, right) < 0
abbrev pub is_below : Version → Version → Bool
is_below a b = ltb a.0 b.0 || (a.0 == b.0 && ltb a.1 b.1)

abbrev pub Candidate : Type 0
Candidate = String × Version

-- The first candidate after the descending sort, which keeps the order of equal versions.
abbrev better : Candidate → Option Candidate → Candidate
better c none = c
better c (some d) = if is_below c.1 d.1 then d else c

abbrev considered : String → Option Version → List Range → Option Candidate → Option Candidate
considered s none ranges best = best
considered s (some v) ranges best =
    if is_in_ranges v ranges then some (better (s, v) best) else best

unfoldable pub best_candidate : List String → List Range → Option Candidate
best_candidate [] ranges = none
best_candidate (s ∷ ss) ranges = considered s (parse_version s) ranges (best_candidate ss ranges)

abbrev text_of : Option Candidate → Option String
text_of none = none
text_of (some c) = some c.0

unfoldable pub select_version : List String → List Range → Option String
select_version supported ranges = text_of (best_candidate supported ranges)

-- The candidate is supported, in range, and none that is supported and in range is above it.
abbrev pub IsBest : List String → List Range → Option Candidate → Type 0
IsBest ss ranges none =
    (t : String) (v : Version)
    → includes ss t ≡ true
    → parse_version t ≡ some v
    → is_in_ranges v ranges ≡ false
IsBest ss ranges (some (s, v)) =
    (includes ss s ≡ true)
    × (parse_version s ≡ some v)
    × (is_in_ranges v ranges ≡ true)
    × ((t : String) (w : Version)
        → includes ss t ≡ true
        → parse_version t ≡ some w
        → is_in_ranges w ranges ≡ true
        → is_below v w ≡ false)

-- A version that is no candidate changes nothing.
skipped :
    (s : String) (ss : List String) (ranges : List Range) (o : Option Candidate)
    → ((v : Version) → parse_version s ≡ some v → is_in_ranges v ranges ≡ false)
    → IsBest ss ranges o
    → IsBest (s ∷ ss) ranges o
skipped s ss ranges none n b = λ t v h p. elim (Bool-cases (same s t)) [
  | inl e ↦ n v (ap parse_version ((eq_iff s t).0 e) ∙ p)
  | inr e ↦ b t v (ground arith) p
]
skipped s ss ranges (some (u, w)) n b = (
  ground (arith, b.0),
  b.1,
  b.2,
  λ t v h p r. elim (Bool-cases (same s t)) [
    | inl e ↦ ground (arith, n v (ap parse_version ((eq_iff s t).0 e) ∙ p))
    | inr e ↦ b.3 t v (ground arith) p r
  ],
)

some_version : {o : Option Version} {v w : Version} → o ≡ some v → o ≡ some w → v ≡ w
some_version p q = ground arith

not_below_self : (v : Version) → is_below v v ≡ false
not_below_self v = ground arith

abbrev Chosen : String → Version → List String → List Range → String → Version → Bool → Type 0
Chosen s v ss ranges u x below = IsBest (s ∷ ss) ranges (some (if below then (u, x) else (s, v)))

-- A version that is a candidate is the best one, or is below the best of the others.
considered-IsBest :
    (s : String) (v : Version) (ss : List String) (ranges : List Range) (o : Option Candidate)
    → parse_version s ≡ some v
    → is_in_ranges v ranges ≡ true
    → IsBest ss ranges o
    → IsBest (s ∷ ss) ranges (some (better (s, v) o))
considered-IsBest s v ss ranges none p r b = (
  ground (arith, eq_iff s s),
  p,
  r,
  λ t w h q i. elim (Bool-cases (same s t)) [
    | inl e ↦
        let one : v ≡ w = some_version (ap parse_version (sym ((eq_iff s t).0 e)) ∙ p) q in
        subst (λ z. is_below v z ≡ false) one (not_below_self v)
    | inr e ↦ ground (arith, b t w (ground arith) q, i)
  ],
)
considered-IsBest s v ss ranges (some (u, x)) p r b = elim (Bool-cases (is_below v x)) [
  | inl below ↦ subst (Chosen s v ss ranges u x) (sym below) (
    ground (arith, b.0),
    b.1,
    b.2,
    λ t w h q i. elim (Bool-cases (same s t)) [
      | inl e ↦
          ground (arith, below, some_version (ap parse_version (sym ((eq_iff s t).0 e)) ∙ p) q)
      | inr e ↦ b.3 t w (ground arith) q i
    ],
  )
  | inr above ↦ subst (Chosen s v ss ranges u x) (sym above) (
    ground (arith, eq_iff s s),
    p,
    r,
    λ t w h q i. elim (Bool-cases (same s t)) [
      | inl e ↦
          let one : v ≡ w = some_version (ap parse_version (sym ((eq_iff s t).0 e)) ∙ p) q in
          subst (λ z. is_below v z ≡ false) one (not_below_self v)
      | inr e ↦ ground (arith, above, b.3 t w (ground arith) q i)
    ],
  )
]

best_candidate-IsBest :
    (ss : List String) (ranges : List Range) → IsBest ss ranges (best_candidate ss ranges)
unfolding best_candidate
best_candidate-IsBest [] ranges = λ t v h. cc
best_candidate-IsBest (s ∷ ss) ranges = elim (Option-cases (parse_version s)) [
  | inl p ↦ rw p (
      skipped s ss ranges (best_candidate ss ranges) (λ v q. ground arith)
        (best_candidate-IsBest ss ranges))
  | inr (v, p) ↦ elim (Bool-cases (is_in_ranges v ranges)) [
    | inl r ↦
        rw (p, r)
          (considered-IsBest s v ss ranges (best_candidate ss ranges) p r
            (best_candidate-IsBest ss ranges))
    | inr r ↦
        rw (p, r)
          (skipped s ss ranges (best_candidate ss ranges)
            (λ w q. subst (λ z. is_in_ranges z ranges ≡ false) (some_version p q) r)
            (best_candidate-IsBest ss ranges))
  ]
]

-- The text is of a supported version in a range of the client, and no supported version in a range is
-- above it; without a text, no supported version is in a range.
abbrev pub IsSelected : List String → List Range → Option String → Type 0
IsSelected ss ranges none =
    (t : String) (v : Version)
    → includes ss t ≡ true
    → parse_version t ≡ some v
    → is_in_ranges v ranges ≡ false
IsSelected ss ranges (some s) = (v : Version) × IsBest ss ranges (some (s, v))

best-IsSelected :
    (ss : List String) (ranges : List Range) (o : Option Candidate)
    → IsBest ss ranges o
    → IsSelected ss ranges (text_of o)
best-IsSelected ss ranges none b = b
best-IsSelected ss ranges (some (s, v)) b = (v, b)

-- The version that a client's hello selects is the highest supported one in the client's ranges: it is
-- supported and in a range, and no supported version in a range is above it; none is selected only when no
-- supported version is in a range.
pub select_version-IsSelected :
    (ss : List String) (ranges : List Range) → IsSelected ss ranges (select_version ss ranges)
unfolding select_version
select_version-IsSelected ss ranges =
    best-IsSelected ss ranges (best_candidate ss ranges) (best_candidate-IsBest ss ranges)
