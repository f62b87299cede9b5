-- ===== src/Stories/Response.antt =====
-- `parse_raw_response`: an HTTP response as it is read off a socket, in Latin-1.
use gopher_metal.Prelude.{
  ℕ, ◌+◌, ◌-◌, ◌*◌, ◌≡◌, refl, sym, ap, subst, append_assoc, ◌∙◌, Bool, true, false, not, ◌&&◌,
  ◌||◌, List, [], ◌∷◌, ◌++◌, Option, none, some, Option-cases, Bool-cases, inl, inr, arith,
  contains, leb, ◌==◌, if◌then◌else◌,
}
use gopher_metal.Prelude.Text.{Text, codes, text_eq, before, starts_with, contains_text}
use gopher_metal.Mutate.Apply.{split_at}
use gopher_metal.Mutate.Apply.Once.{split_at-append, behind-some}
use gopher_metal.Stories.{set, behind, strip}

-- the headers, each name once
abbrev pub Headers : Type 0
Headers = List (Text × Text)

-- What is answered: an error, by what it says, a number that `int` does not read, which raises, or the
-- status with the headers and the body.
pub data Parsed : Type 0 where
  no_head no_status value_error : Parsed
  answered : ℕ → Headers → Text → Parsed

abbrev pub blank_line : Text
blank_line = codes "\r\n\r\n"

begin : ℕ → List Text → List Text
begin c [] = (c ∷ []) ∷ []
begin c (line ∷ rest) = (c ∷ line) ∷ rest

-- head.split("\r\n")
unfoldable pub crlf_lines : Text → List Text
unfolding begin
crlf_lines [] = [] ∷ []
crlf_lines (c ∷ []) = (c ∷ []) ∷ []
crlf_lines (c ∷ d ∷ cs) =
    let here = crlf_lines cs in
    let other = begin c (crlf_lines (d ∷ cs)) in if c == 13 && d == 10 then [] ∷ here else other

-- c.isdigit() of the first 256 characters, the raised two, three and one among them
is_digit : ℕ → Bool
is_digit c = (leb b'0' c && leb c b'9') || c == 178 || c == 179 || c == 185

all_digits : Text → Bool
unfolding is_digit
all_digits [] = true
all_digits (c ∷ cs) = is_digit c && all_digits cs

-- parts[1].isdigit()
is_number : Text → Bool
unfolding all_digits
is_number [] = false
is_number (c ∷ cs) = all_digits (c ∷ cs)

-- int(parts[1]), which raises at a raised digit
to_int : ℕ → Text → Option ℕ
to_int acc [] = some acc
to_int acc (c ∷ cs) =
    let rest = to_int (acc * 10 + (c - b'0')) cs in if leb c b'9' then rest else none

find : Text → Headers → Option Text
unfolding text_eq
find k [] = none
find k ((n, v) ∷ headers) = let rest = find k headers in if text_eq k n then some v else rest

-- a second line of a set-cookie header is joined to the first
joined_value : Text → Text → Option Text → Text
unfolding text_eq
joined_value k v none = v
joined_value k v (some old) = if text_eq k (codes "set-cookie") then old ++ (10 ∷ v) else v

-- `lower` is str.lower
add_header : (Text → Text) → Text → Headers → Headers
unfolding find joined_value set behind strip before
add_header lower line headers =
    let k = lower (strip (before b':' line)) in
    let v = strip (behind b':' line) in
    if contains line b':' then set k (joined_value k v (find k headers)) headers else headers

add_headers : (Text → Text) → List Text → Headers → Headers
unfolding add_header
add_headers lower [] headers = headers
add_headers lower (line ∷ lines) headers = add_headers lower lines (add_header lower line headers)

with_status : Option ℕ → Headers → Text → Parsed
with_status none headers body = value_error
with_status (some status) headers body = answered status headers body

-- the lines of the head; a status line has a second part where it has a space
parse_lines : (Text → Text) → List Text → Text → Parsed
unfolding is_number to_int with_status add_headers before behind
parse_lines lower [] body = no_status
parse_lines lower (first ∷ lines) body =
    let number = before b' ' (behind b' ' first) in
    if not (contains first b' ' && is_number number)
    then no_status
    else with_status (to_int 0 number) (add_headers lower lines []) body

parse_split : (Text → Text) → Option (Text × Text) → Parsed
unfolding parse_lines crlf_lines
parse_split lower none = no_head
parse_split lower (some (head, body)) = parse_lines lower (crlf_lines head) body

-- `parse_raw_response`; `partition` is at the first blank line
unfoldable pub parse_raw_response : (Text → Text) → Text → Parsed
unfolding parse_split split_at
parse_raw_response lower raw = parse_split lower (split_at blank_line 0 raw)

with_status-body :
    (o : Option ℕ) (headers h : Headers) (body b : Text) (n : ℕ)
    → with_status o headers body ≡ answered n h b
    → body ≡ b
unfolding with_status
with_status-body none headers h body b n e = absurd (ground arith)
with_status-body (some status) headers h body b n e = ground arith

parse_lines-body :
    (lower : Text → Text) (lines : List Text) (body b : Text) (n : ℕ) (h : Headers)
    → parse_lines lower lines body ≡ answered n h b
    → body ≡ b
unfolding parse_lines
parse_lines-body lower [] body b n h e = absurd (ground arith)
parse_lines-body lower (first ∷ lines) body b n h e =
    let number = before b' ' (behind b' ' first) in
    with_status-body (to_int 0 number) (add_headers lower lines []) h body b n (ground arith)

nil_starts : (t : Text) → starts_with [] t ≡ true
unfolding starts_with
nil_starts [] = refl
nil_starts (c ∷ cs) = refl

starts_with-extend : (p s t : Text) → starts_with p s ≡ true → starts_with p (s ++ t) ≡ true
unfolding starts_with
starts_with-extend [] [] t h = nil_starts t
starts_with-extend [] (c ∷ cs) t h = refl
starts_with-extend (x ∷ p) [] t h = absurd (ground arith)
starts_with-extend (x ∷ p) (c ∷ cs) t h =
    let rest = starts_with-extend p cs t (ground arith) in ground (arith, h, rest)

not_longer : (p s t : Text) → starts_with p (s ++ t) ≡ false → starts_with p s ≡ false
not_longer p s t h = elim (Bool-cases (starts_with p s)) [
  | inl e ↦ let more = starts_with-extend p s t e in absurd (ground (arith, h, more))
  | inr e ↦ e
]

-- three characters of a blank line, of which the fourth makes it one
abbrev pub cut_line : Text
cut_line = 13 ∷ 10 ∷ 13 ∷ []

-- No blank line begins before the one that the response is split at.
split_at-first :
    (s front back : Text)
    → split_at blank_line 0 s ≡ some (front, back)
    → contains_text blank_line (front ++ cut_line) ≡ false
unfolding split_at contains_text
split_at-first [] front back h = absurd (ground arith)
split_at-first (c ∷ cs) front back h = elim (Bool-cases (starts_with blank_line (c ∷ cs))) [
  | inl here ↦
      let e : [] ≡ front = ground arith in
      subst (λ (f : Text). contains_text blank_line (f ++ cut_line) ≡ false) e refl
  | inr later ↦
      let (f, e, k) =
        behind-some c (split_at blank_line 0 cs) front back (ground (arith, later, h)) in
      let rest = split_at-first cs f back k in
      let whole = split_at-append blank_line 0 cs f back k in
      let parts = whole ∙ sym (append_assoc f cut_line (10 ∷ back)) in
      let whole_line = ap (λ (t : Text). starts_with blank_line (c ∷ t)) (sym parts) ∙ later in
      let start = not_longer blank_line (c ∷ (f ++ cut_line)) (10 ∷ back) whole_line in
      subst (λ (x : Text). contains_text blank_line (x ++ cut_line) ≡ false) (sym e)
        (ground (arith, start, rest))
]

-- Where a response is read, its body is all that stands behind its first blank line.
pub parse_raw_response-body :
    (lower : Text → Text) (raw body : Text) (status : ℕ) (headers : Headers)
    → parse_raw_response lower raw ≡ answered status headers body
    → (head : Text) × (raw ≡ head ++ (blank_line ++ body))
      × (contains_text blank_line (head ++ cut_line) ≡ false)
unfolding parse_raw_response
parse_raw_response-body lower raw body status headers h =
    elim (Option-cases (split_at blank_line 0 raw)) [
      | inl e ↦ absurd (ground (arith, ap (parse_split lower) (sym e) ∙ h))
      | inr ((front, back), e) ↦
          let b =
            parse_lines-body lower (crlf_lines front) back body status headers
              (ap (parse_split lower) (sym e) ∙ h) in
          (
            front,
            split_at-append blank_line 0 raw front back e ∙ ap (λ t. front ++ (blank_line ++ t)) b,
            split_at-first raw front back e,
          )
    ]
