-- ===== src/Stories/Tests.antt =====
-- Some answers, and the theorems at them.
use gopher_metal.Prelude.{◌≡◌, ◌↔◌, refl, false, ◌++◌, List, [], ◌∷◌, Option, none, some}
use gopher_metal.Prelude.Regex.{search_text, match_start, all_of}
use gopher_metal.Prelude.Text.{Text, codes, text_eq, text_in, before, starts_with, contains_text}
use gopher_metal.Stories.{
  behind, set, Jar, update_jar, missing_marks, strip, expires, take_cookie, header_lines,
}
use gopher_metal.Stories.Response.{
  Headers, answered, parse_raw_response, crlf_lines, blank_line, cut_line, parse_raw_response-body,
}
use gopher_metal.Stories.Kept.{IsJar, update_jar-IsJar}
use gopher_metal.Stories.Marks.{AreReadBack, missing_marks_iff}

abbrev jar : Jar
jar = (codes "uid", codes "1") ∷ (codes "old", codes "x") ∷ []

-- One cookie is replaced, and one is cleared.
abbrev cookies : Text
cookies = codes "uid=2; Path=/\nold=; Max-Age=0"

one_left : update_jar cookies jar ≡ (codes "uid", codes "2") ∷ []
unfolding update_jar take_cookie header_lines expires search_text match_start all_of before text_eq
    strip
one_left = refl

jar-IsJar : IsJar jar
unfolding text_eq text_in
jar-IsJar = ((refl, (refl, tt)), (refl, (refl, tt)))

update_jar-IsJar_example : IsJar (update_jar cookies jar)
update_jar-IsJar_example = update_jar-IsJar cookies jar jar-IsJar

-- Of three steps the second has an answer with its marks, and the third has no answer.
abbrev steps : List (List Text)
steps = [] ∷ (codes "mark 1" ∷ codes "mark 2" ∷ []) ∷ (codes "mark 3" ∷ []) ∷ []

abbrev bodies : List (Option Text)
bodies = none ∷ some (codes "mark 1, mark 2") ∷ []

not_answered : missing_marks ((codes "mark 3" ∷ []) ∷ []) [] ≡ 0
unfolding missing_marks
not_answered = refl

missing_marks_iff_example : (missing_marks steps bodies ≡ 0) ↔ AreReadBack steps bodies
missing_marks_iff_example = missing_marks_iff steps bodies

-- A response with two lines of one header.
abbrev raw : Text
raw = codes "HTTP/1.1 200 OK\r\nset-cookie: a=1\r\nset-cookie: b=2\r\n\r\nhello"

abbrev headers : Headers
headers = (codes "set-cookie", codes "a=1\nb=2") ∷ []

read_whole : parse_raw_response (λ t. t) raw ≡ answered 200 headers (codes "hello")
unfolding parse_raw_response crlf_lines text_eq starts_with before behind set strip
read_whole = refl

parse_raw_response-body_example :
    (head : Text) × (raw ≡ head ++ (blank_line ++ codes "hello"))
    × (contains_text blank_line (head ++ cut_line) ≡ false)
parse_raw_response-body_example =
    parse_raw_response-body (λ t. t) raw (codes "hello") 200 headers read_whole
