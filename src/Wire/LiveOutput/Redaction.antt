-- ===== src/Wire/LiveOutput/Redaction.antt =====
-- live-output.ts: the patterns of secrets that are replaced in a chunk's text.
use Prim.Native.Char.{code}
use Prim.Native.String.{◌++◌}
use collab.Base.{ℕ, ◌+◌, ◌-◌, Bool, ◌&&◌, ◌||◌, String, leb, ◌==◌, if◌then◌else◌}
use collab.Base.Patterns.{is_upper, is_lower, is_digit}

-- How many characters at the start pass the test.
unfoldable pub prefix_length : (ℕ → Bool) → String → ℕ
prefix_length p String.[] = 0
prefix_length p (String.◌∷◌ c s) = let n = prefix_length p s in if p (code c) then n + 1 else 0

abbrev is_alphanumeric : ℕ → Bool
is_alphanumeric c = is_upper c || is_lower c || is_digit c

abbrev is_slack : ℕ → Bool
is_slack c = is_alphanumeric c || c == b'-'

abbrev is_upper_or_digit : ℕ → Bool
is_upper_or_digit c = is_upper c || is_digit c

-- The length of the match at the start of a text, or 0.
-- /gh[opurs]_[A-Za-z0-9]{20,}/
unfoldable pub github_token : String → ℕ
unfolding prefix_length
github_token (String.◌∷◌ a (String.◌∷◌ b (String.◌∷◌ c (String.◌∷◌ d s)))) =
    let n = prefix_length is_alphanumeric s in
    let kind =
      code c == b'o' || code c == b'p' || code c == b'u' || code c == b'r' || code c == b's' in
    if code a == b'g' && code b == b'h' && kind && code d == b'_' && leb 20 n then n + 4 else 0
github_token _ = 0

-- /xox[baprs]-[A-Za-z0-9-]{20,}/
unfoldable pub slack_token : String → ℕ
unfolding prefix_length
slack_token (String.◌∷◌ a (String.◌∷◌ b (String.◌∷◌ x (String.◌∷◌ c (String.◌∷◌ d s))))) =
    let n = prefix_length is_slack s in
    let kind =
      code c == b'b' || code c == b'a' || code c == b'p' || code c == b'r' || code c == b's' in
    if code a == b'x' && code b == b'o' && code x == b'x' && kind && code d == b'-' && leb 20 n
    then n + 5
    else 0
slack_token _ = 0

-- /AKIA[0-9A-Z]{16}/
unfoldable pub aws_key : String → ℕ
unfolding prefix_length
aws_key (String.◌∷◌ a (String.◌∷◌ b (String.◌∷◌ c (String.◌∷◌ d s)))) =
    if code a == b'A'
      && code b == b'K'
      && code c == b'I'
      && code d == b'A'
      && leb 16 (prefix_length is_upper_or_digit s)
    then 20
    else 0
aws_key _ = 0

-- text.replace(/…/g, replacement): the number says how many characters of a match are still to be skipped.
unfoldable pub replace_from : (String → ℕ) → String → ℕ → String → String
replace_from match_length by skip String.[] = String.[]
replace_from match_length by skip (String.◌∷◌ c s) =
    let n = match_length (String.◌∷◌ c s) in
    let hit = leb skip 0 && leb 1 n in
    let rest = replace_from match_length by (if hit then n - 1 else skip - 1) s in
    if hit then by ++ rest else if leb 1 skip then rest else String.◌∷◌ c rest

unfoldable pub redact : String → String
unfolding replace_from github_token slack_token aws_key
redact text = replace_from aws_key "[REDACTED_AWS_KEY]" 0 (
    replace_from slack_token "[REDACTED_SLACK_TOKEN]" 0
      (replace_from github_token "[REDACTED_GITHUB_TOKEN]" 0 text))
