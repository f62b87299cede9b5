-- ===== src/Stories.antt =====
-- probe/judge_gopher.py: the cookies that a story sets, and the marks that its read-backs look for.
pub mod Response
pub mod Kept
pub mod Marks
pub mod Tests
use gopher_metal.Prelude.{
  ℕ, zero, suc, ◌+◌, ◌≡◌, Bool, true, false, not, ◌&&◌, ◌||◌, List, [], ◌∷◌, ◌++◌, Option, none,
  some, contains, leb, ◌==◌, if◌then◌else◌,
}
use gopher_metal.Prelude.Text.{Text, codes, text_eq, contains_text, before}
use gopher_metal.Prelude.Regex.{Regex, one, seq, all_of, search_text}

-- a cookie jar: names with their values
abbrev pub Jar : Type 0
Jar = List (Text × Text)

-- jar.pop(name, None)
unfoldable pub pop : Text → Jar → Jar
unfolding text_eq
pop name [] = []
pop name ((n, v) ∷ jar) = let rest = pop name jar in if text_eq name n then rest else (n, v) ∷ rest

-- jar[name] = value
unfoldable pub set : Text → Text → Jar → Jar
unfolding text_eq
set name value [] = (name, value) ∷ []
set name value ((n, v) ∷ jar) =
    let rest = set name value jar in if text_eq name n then (n, value) ∷ jar else (n, v) ∷ rest

-- what stands behind the first mark
unfoldable pub behind : ℕ → Text → Text
behind mark [] = []
behind mark (c ∷ cs) = let rest = behind mark cs in if c == mark then cs else rest

-- c.isspace(), of the first 256 characters
is_space : ℕ → Bool
is_space c = (leb 9 c && leb c 13) || (leb 28 c && leb c 32) || c == 133 || c == 160

strip_left : Text → Text
unfolding is_space
strip_left [] = []
strip_left (c ∷ cs) = if is_space c then strip_left cs else c ∷ cs

all_space : Text → Bool
unfolding is_space
all_space [] = true
all_space (c ∷ cs) = is_space c && all_space cs

strip_right : Text → Text
unfolding all_space
strip_right [] = []
strip_right (c ∷ cs) = let rest = strip_right cs in if all_space (c ∷ cs) then [] else c ∷ rest

-- text.strip()
unfoldable pub strip : Text → Text
unfolding strip_left strip_right
strip t = strip_right (strip_left t)

-- a letter, small or not
either_case : ℕ → ℕ → Regex
either_case small large = one (λ c. c == small || c == large)

-- \w, in ASCII
is_word : ℕ → Bool
is_word c =
    (leb b'0' c && leb c b'9')
    || (leb b'A' c && leb c b'Z')
    || (leb b'a' c && leb c b'z')
    || c == b'_'

-- (?i)max-age=0\b: the boundary is a character that is none of a word, or the end, where a space is put
unfoldable pub expires : Text → Bool
unfolding either_case is_word
expires attrs =
    search_text
      (all_of (
        either_case b'm' b'M'
        ∷ either_case b'a' b'A'
        ∷ either_case b'x' b'X'
        ∷ one (λ c. c == b'-')
        ∷ either_case b'a' b'A'
        ∷ either_case b'g' b'G'
        ∷ either_case b'e' b'E'
        ∷ one (λ c. c == b'=')
        ∷ one (λ c. c == b'0')
        ∷ one (λ c. not (is_word c))
        ∷ []))
      (attrs ++ (b' ' ∷ []))

-- one line of the header
unfoldable pub take_cookie : Text → Jar → Jar
unfolding behind strip expires before pop set
take_cookie line jar =
    let pair = strip (before b';' line) in
    let name = before b'=' pair in
    let value = behind b'=' pair in
    if not (contains line b'=')
    then jar
    else if expires (behind b';' line) || text_eq value []
    then pop name jar
    else set name value jar

begin_line : ℕ → List Text → List Text
begin_line c [] = (c ∷ []) ∷ []
begin_line c (line ∷ rest) = (c ∷ line) ∷ rest

-- text.split("\n")
unfoldable pub header_lines : Text → List Text
unfolding begin_line
header_lines [] = [] ∷ []
header_lines (c ∷ cs) =
    let rest = header_lines cs in if c == 10 then [] ∷ rest else begin_line c rest

take_cookies : List Text → Jar → Jar
unfolding take_cookie
take_cookies [] jar = jar
take_cookies (line ∷ rest) jar = take_cookies rest (take_cookie line jar)

-- `update_jar`, of the answer's set-cookie header, empty where it has none
unfoldable pub update_jar : Text → Jar → Jar
unfolding take_cookies header_lines
update_jar cookies jar = take_cookies (header_lines cookies) jar

-- [m for m in expect if m not in body]
unfoldable pub gone : List Text → Text → List Text
gone [] body = []
gone (m ∷ marks) body =
    let rest = gone marks body in if contains_text m body then rest else m ∷ rest

no_marks : List Text → Bool
no_marks [] = true
no_marks (m ∷ marks) = false

-- one round of the loop, of the step's marks and the answer's body, where it has one: 1 for a failure
unfoldable pub judge_marks : List Text → Option Text → ℕ
unfolding no_marks gone
judge_marks [] body = 0
judge_marks (m ∷ marks) none = 1
judge_marks (m ∷ marks) (some body) = if no_marks (gone (m ∷ marks) body) then 0 else 1

-- `missing_marks`, of the steps' marks and the answers' bodies. The loop is over `zip(steps, answers)`,
-- which ends with the shorter of the two.
unfoldable pub missing_marks : List (List Text) → List (Option Text) → ℕ
unfolding judge_marks
missing_marks [] bodies = 0
missing_marks (marks ∷ steps) [] = 0
missing_marks (marks ∷ steps) (body ∷ bodies) = judge_marks marks body + missing_marks steps bodies
