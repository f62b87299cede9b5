-- ===== src/Mutate/Apply.antt =====
-- A text in a source replaced: `str.count` and `str.replace`, and `apply` and `where` of
-- tools/mutate_tcp.py.
pub mod Once
pub mod Found
use gopher_metal.Prelude.{
  ℕ, zero, suc, ◌+◌, ◌-◌, Bool, true, false, not, ◌&&◌, ◌||◌, List, [], ◌∷◌, ◌++◌, Option, none,
  some, ltb, leb, ◌==◌, if◌then◌else◌, length,
}
use gopher_metal.Prelude.Text.{Text, starts_with}

-- source.count(old), for a text that is not empty; `skip` characters are of the last one found
pub count_from : Text → ℕ → Text → ℕ
count_from old skip [] = 0
count_from old (suc skip) (c ∷ cs) = count_from old skip cs
count_from old zero (c ∷ cs) =
    let found = 1 + count_from old (length old - 1) cs in
    let other = count_from old zero cs in if starts_with old (c ∷ cs) then found else other

unfoldable pub count_text : Text → Text → ℕ
unfolding count_from
count_text old source = count_from old 0 source

pub drop_text : ℕ → Text → Text
drop_text zero t = t
drop_text (suc n) [] = []
drop_text (suc n) (c ∷ cs) = drop_text n cs

unfoldable pub behind : ℕ → Option (Text × Text) → Option (Text × Text)
behind c none = none
behind c (some (front, back)) = some (c ∷ front, back)

-- source.index(old, ...) `nth` times behind the first: what stands before and behind that occurrence
unfoldable pub split_at : Text → ℕ → Text → Option (Text × Text)
unfolding drop_text behind
split_at old nth [] = none
split_at old zero (c ∷ cs) =
    let later = behind c (split_at old zero cs) in
    if starts_with old (c ∷ cs) then some ([], drop_text (length old) (c ∷ cs)) else later
split_at old (suc nth) (c ∷ cs) =
    behind c (split_at old (if starts_with old (c ∷ cs) then nth else suc nth) cs)

put_between : Text → Option (Text × Text) → Option Text
put_between new none = none
put_between new (some (front, back)) = some (front ++ (new ++ back))

-- source[:at] + new + source[at + len(old):]
unfoldable pub replace_at : Text → Text → ℕ → Text → Option Text
unfolding split_at put_between
replace_at old new nth source = put_between new (split_at old nth source)

-- `apply`; `replace(old, new, 1)` is at the first occurrence
unfoldable pub apply : Text → Text → Text → Option ℕ → Option Text
unfolding replace_at count_text
apply source old new none = if count_text old source == 1 then replace_at old new 0 source else none
apply source old new (some nth) =
    if count_text old source == 0 || leb (count_text old source) nth
    then none
    else replace_at old new nth source
