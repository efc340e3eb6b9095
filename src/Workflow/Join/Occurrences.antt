-- ===== src/Workflow/Join/Occurrences.antt =====
-- joins.ts and workflow-engine.ts: how a branch is found again from the identifier of its occurrence.
use Prim.Native.Char.{Char}
use Prim.Native.String.{◌++◌}
use text.Mathlib.TextLemmas.{nil-append, cons-append}
use collab.Base.{true, false, ◌≡◌, refl, ap, ◌∙◌, String, arith}
use collab.Workflow.Join.{all_digits, is_number, is_digit, strip_occurrence}

-- `${nodeKey}-${occurrence}`
unfoldable pub occurrence_id : String → String → String
occurrence_id node_key occurrence = node_key ++ ("-" ++ occurrence)

dash_first : (n : String) → "-" ++ n ≡ String.◌∷◌ "-" n
dash_first n = cons-append "-" String.[] n ∙ ap (String.◌∷◌ "-") (nil-append n)

-- A text with a dash in it is no number.
dash-not_digits : (key n : String) → all_digits (occurrence_id key n) ≡ false
unfolding all_digits occurrence_id is_digit
dash-not_digits String.[] n = rw (nil-append ("-" ++ n), dash_first n) refl
dash-not_digits (String.◌∷◌ c s) n =
    rw (cons-append c s ("-" ++ n)) (ground (arith, dash-not_digits s n))

not_number : (key n : String) → is_number (occurrence_id key n) ≡ false
not_number key n = ground (arith, dash-not_digits key n)

strip-cons :
    (c : Char) (t key : String)
    → is_number t ≡ false
    → strip_occurrence t ≡ key
    → strip_occurrence (String.◌∷◌ c t) ≡ String.◌∷◌ c key
unfolding strip_occurrence
strip-cons c t key h e = ground arith

-- Stripping finds the node's key again from the identifier that the engine made of it, whatever the
-- key, also one that itself ends in a dash and digits.
pub strip-occurrence_id :
    (key n : String) → is_number n ≡ true → strip_occurrence (occurrence_id key n) ≡ key
unfolding occurrence_id strip_occurrence
strip-occurrence_id String.[] n h = rw (nil-append ("-" ++ n), dash_first n) (rw h)
strip-occurrence_id (String.◌∷◌ c s) n h =
    rw (cons-append c s ("-" ++ n))
      (strip-cons c (occurrence_id s n) s (not_number s n) (strip-occurrence_id s n h))
