-- ===== src/Prelude/Regex.antt =====
-- Regular expressions as Python's `re` matches them against a whole text.
use Prim.Native.Nat.{ℕ, zero, suc}
use mathlib.Core.Bool.{Bool, true, false, ◌&&◌, ◌||◌}
use mathlib.Core.List.{List, [], ◌∷◌}
use gopher_metal.Prelude.Tests.{◌==◌, if◌then◌else◌}
use gopher_metal.Prelude.Text.{Text}

-- `one` is a set of characters.
pub data Regex : Type 0 where
  fails empty : Regex
  one : (ℕ → Bool) → Regex
  seq alt : Regex → Regex → Regex
  star : Regex → Regex

-- a text of the expression may be empty
pub nullable : Regex → Bool
nullable fails = false
nullable empty = true
nullable (one p) = false
nullable (seq r s) = nullable r && nullable s
nullable (alt r s) = nullable r || nullable s
nullable (star r) = true

seq_of : Regex → Regex → Regex
seq_of fails s = fails
seq_of empty s = s
seq_of r s = seq r s

alt_of : Regex → Regex → Regex
alt_of fails s = s
alt_of r fails = r
alt_of r s = alt r s

-- what is left to match behind the character
pub rest_of : ℕ → Regex → Regex
unfolding nullable seq_of alt_of
rest_of c fails = fails
rest_of c empty = fails
rest_of c (one p) = if p c then empty else fails
rest_of c (seq r s) =
    let head = seq_of (rest_of c r) s in
    let tail = rest_of c s in if nullable r then alt_of head tail else head
rest_of c (alt r s) = alt_of (rest_of c r) (rest_of c s)
rest_of c (star r) = seq_of (rest_of c r) (star r)

-- re.fullmatch(r, text) is not None
unfoldable pub fullmatch : Regex → Text → Bool
unfolding rest_of
fullmatch r [] = nullable r
fullmatch r (c ∷ cs) = fullmatch (rest_of c r) cs

unfoldable pub literal : Text → Regex
literal [] = empty
literal (c ∷ []) = one (λ d. d == c)
literal (c ∷ cs) = seq (one (λ d. d == c)) (literal cs)

-- r? and r+
unfoldable pub maybe : Regex → Regex
maybe r = alt r empty

unfoldable pub plus : Regex → Regex
plus r = seq r (star r)

-- r{n} and r{0,n}
unfoldable pub times : ℕ → Regex → Regex
times zero r = empty
times (suc n) r = seq r (times n r)

unfoldable pub up_to : ℕ → Regex → Regex
up_to zero r = empty
up_to (suc n) r = alt (seq r (up_to n r)) empty

-- (?:a|b|...)
unfoldable pub any_of : List Regex → Regex
any_of [] = fails
any_of (r ∷ []) = r
any_of (r ∷ rs) = alt r (any_of rs)

-- one expression behind another
unfoldable pub all_of : List Regex → Regex
all_of [] = empty
all_of (r ∷ []) = r
all_of (r ∷ rs) = seq r (all_of rs)

-- r.match(text) is not None
unfoldable pub match_start : Regex → Text → Bool
unfolding rest_of
match_start r [] = nullable r
match_start r (c ∷ cs) = nullable r || match_start (rest_of c r) cs

-- r.search(text) is not None
unfoldable pub search_text : Regex → Text → Bool
unfolding match_start
search_text r [] = nullable r
search_text r (c ∷ cs) = match_start r (c ∷ cs) || search_text r cs
