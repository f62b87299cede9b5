-- ===== src/Tree/Names.antt =====
-- The names of droplet/check_volume_tree.py: what VFAT makes of one, and its lengths.
use gopher_metal.Prelude.{
  ℕ, ◌+◌, ◌/◌, Bool, false, not, ◌&&◌, ◌||◌, List, [], ◌∷◌, ltb, leb, ◌==◌, if◌then◌else◌, contains,
}
use gopher_metal.Prelude.Text.{Text, codes}
use gopher_metal.Prelude.Regex.{Regex, one, all_of, maybe, up_to, literal, seq, fullmatch}

-- name.rstrip(drop), for a set of characters
pub rstrip_set : List ℕ → Text → Text
rstrip_set drop [] = []
rstrip_set drop (c ∷ cs) = elim (rstrip_set drop cs) [
  | [] ↦ if contains drop c then [] else c ∷ []
  | d ∷ ds ↦ c ∷ d ∷ ds
]

-- `vfat_name`
unfoldable pub vfat_name : Text → Text
unfolding rstrip_set
vfat_name name = rstrip_set (b'.' ∷ b' ' ∷ []) name

abbrev pub is_upper : ℕ → Bool
is_upper c = leb b'A' c && leb c b'Z'

abbrev pub is_digit : ℕ → Bool
is_digit c = leb b'0' c && leb c b'9'

-- [A-Z0-9$%'\-_@~`!(){}^#&]
abbrev short_char : ℕ → Bool
short_char c = is_upper c || is_digit c || contains (codes "$%'-_@~`!(){}^#&") c

short_part : ℕ → Regex
short_part n = seq (one short_char) (up_to n (one short_char))

short_form : Regex
unfolding short_part
short_form = all_of (short_part 7 ∷ maybe (seq (literal (codes ".")) (short_part 2)) ∷ [])

-- `needs_long`
unfoldable pub needs_long : Text → Bool
unfolding short_form
needs_long name = not (fullmatch short_form name)

-- len(name.encode("utf-16-le", "surrogatepass")) // 2
unfoldable pub utf16_units : Text → ℕ
utf16_units [] = 0
utf16_units (c ∷ cs) = (if ltb 0xFFFF c then 2 else 1) + utf16_units cs

-- how many bytes `os.fsencode` makes of a character; a byte that is no UTF-8 is read as 0xDC00 more
pub char_bytes : ℕ → ℕ
char_bytes c =
    if ltb c 0x80
    then 1
    else if ltb c 0x800
    then 2
    else if leb 0xDC80 c && leb c 0xDCFF
    then 1
    else if ltb c 0x10000
    then 3
    else 4

-- len(os.fsencode(name))
unfoldable pub fs_length : Text → ℕ
unfolding char_bytes
fs_length [] = 0
fs_length (c ∷ cs) = char_bytes c + fs_length cs

-- `slots`
unfoldable pub slots : Text → ℕ
unfolding needs_long utf16_units
slots name = 1 + (if needs_long name then (utf16_units name + 12) / 13 else 0)

-- c in VFAT_FORBIDDEN or ord(c) < 0x20
abbrev pub is_forbidden : ℕ → Bool
is_forbidden c = contains (codes "\"*/:<>?\\|") c || ltb c 0x20

unfoldable pub has_forbidden : Text → Bool
has_forbidden [] = false
has_forbidden (c ∷ cs) = is_forbidden c || has_forbidden cs

-- any(ord(c) > 0x7F for c in name)
unfoldable pub has_non_ascii : Text → Bool
has_non_ascii [] = false
has_non_ascii (c ∷ cs) = ltb 0x7F c || has_non_ascii cs

-- name.count(mark)
unfoldable pub count : ℕ → Text → ℕ
count mark [] = 0
count mark (c ∷ cs) = (if c == mark then 1 else 0) + count mark cs
