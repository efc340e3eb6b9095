-- ===== src/Base/Patterns.antt =====
-- The patterns of identifiers and hashes that the program's schemas share.
use Prim.Native.Nat.{ℕ}
use Prim.Native.Char.{code}
use Prim.Native.String.{String, count}
use mathlib.Core.Bool.{Bool, true, false, ◌&&◌, ◌||◌}
use collab.Base.Tests.{leb, ◌==◌}

abbrev pub is_upper : ℕ → Bool
is_upper c = leb b'A' c && leb c b'Z'

abbrev pub is_lower : ℕ → Bool
is_lower c = leb b'a' c && leb c b'z'

abbrev pub is_digit : ℕ → Bool
is_digit c = leb b'0' c && leb c b'9'

is_word : ℕ → Bool
is_word c = is_upper c || is_lower c || is_digit c || c == b'_' || c == b'-'

all_words : String → Bool
unfolding is_word
all_words String.[] = true
all_words (String.◌∷◌ c s) = is_word (code c) && all_words s

-- /^[A-Za-z0-9][A-Za-z0-9_-]{0,127}$/
unfoldable pub is_identifier : String → Bool
unfolding all_words
is_identifier String.[] = false
is_identifier (String.◌∷◌ c s) =
    (is_upper (code c) || is_lower (code c) || is_digit (code c))
    && all_words s
    && leb (count s) 127

abbrev all_hex : String → Bool
all_hex String.[] = true
all_hex (String.◌∷◌ c s) =
    (is_digit (code c) || (leb b'a' (code c) && leb (code c) b'f')) && all_hex s

-- /^[0-9a-f]{64}$/
unfoldable pub is_hash : String → Bool
is_hash s = all_hex s && count s == 64
