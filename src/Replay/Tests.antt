-- ===== src/Replay/Tests.antt =====
-- A log of three lines, two hosts, and the theorems at them.
use gopher_metal.Prelude.Text.{
  IsUnique, Text, text_in, starts_with, contains_text, ends_with, before,
}
use gopher_metal.Prelude.{
  ℕ, ◌+◌, ◌≡◌, ◌↔◌, refl, true, false, List, [], ◌∷◌, Option, none, some, All, length, ◌==◌,
  if◌then◌else◌,
}
use gopher_metal.Replay.Json.{
  Json, null, string, array, object, nil, cons, end, field, value, raised, Call, attribute_error,
  value_error, unicode_encode_error, get, is_text, any_text,
}
use gopher_metal.Replay.Keep.{
  other_host, target, not_caddy, asked_already, request_name, uri_name, method_name, headers_name,
  accept, get_word, keep,
}
use gopher_metal.Replay.Keep.Exact.{IsReplayable, keep_iff}
use gopher_metal.Replay.Requests.{Requests, requests}
use gopher_metal.Replay.Requests.Log.{
  IsFrom, targets, requests_counted, requests-IsFrom, requests-IsUnique,
}
use gopher_metal.Replay.Requests.Uncaught.{requests-raised}
use gopher_metal.Fat.Dirent.{rstrip}
use gopher_metal.Replay.Answers.{any_of, after, Ran, Difference, label, ask, exit_status, replay}
use gopher_metal.Replay.Answers.Alike.{replay_alike}
use gopher_metal.Replay.Answers.Returns.{replay-value}

abbrev same : Text → Text
same t = t

-- /chat/x?y
abbrev uri : Text
uri = b'/' ∷ b'c' ∷ b'h' ∷ b'a' ∷ b't' ∷ b'/' ∷ b'x' ∷ b'?' ∷ b'y' ∷ []

abbrev entry_with : Json → Json
entry_with headers = object (
    field request_name
      (object (
        field uri_name (string uri)
          (field method_name (string get_word) (field headers_name headers end))))
      end)

abbrev entry : Json
entry = entry_with (object (field accept (array (cons (string (b'*' ∷ [])) nil)) end))

-- the first character of a line says what it holds
abbrev loads : Text → Option Json
loads [] = none
loads (c ∷ cs) =
    if c == 1
    then some entry
    else if c == 2
    then some (entry_with (array (cons null nil)))
    else none

abbrev log : List Text
log = (1 ∷ []) ∷ (3 ∷ []) ∷ (1 ∷ []) ∷ []

abbrev asked : Requests
asked = record { out = (1, uri) ∷ []; dropped = not_caddy ∷ asked_already ∷ []; seen = uri ∷ [] }

three_lines : requests same loads log none true ≡ value asked
unfolding requests keep get any_text is_text starts_with contains_text ends_with before text_in
three_lines = refl

keep_iff_example : (keep same none entry ≡ value (target uri)) ↔ IsReplayable same none entry uri
keep_iff_example = keep_iff same none entry uri

requests_counted_example : length asked.out + length asked.dropped ≡ length log
requests_counted_example = requests_counted same loads log none true asked three_lines

requests-IsFrom_example : All (IsFrom same loads none log) asked.out
requests-IsFrom_example = requests-IsFrom same loads log none true asked three_lines

requests-IsUnique_example : IsUnique (targets asked.out)
requests-IsUnique_example = requests-IsUnique same loads log none asked three_lines

requests-raised_example : requests same loads ((2 ∷ []) ∷ []) none false ≡ raised attribute_error
unfolding get other_host
requests-raised_example =
    requests-raised same loads (2 ∷ []) [] none false
      (field request_name
        (object (
          field uri_name (string uri)
            (field method_name (string get_word) (field headers_name (array (cons null nil)) end))))
        end)
      (field uri_name (string uri)
        (field method_name (string get_word) (field headers_name (array (cons null nil)) end)))
      uri null nil refl refl refl refl refl refl

-- every host answers "x" with 200
abbrev run : Text → Option Text → Call Ran
run url netns = value (record { code = 0; stdout = b'x' ∷ 10 ∷ b'2' ∷ b'0' ∷ b'0' ∷ [] })

abbrev routes : List Text
routes = (b'c' ∷ b'h' ∷ b'a' ∷ b't' ∷ []) ∷ []

abbrev host_a : Text
host_a = b'a' ∷ []

abbrev host_b : Text
host_b = b'b' ∷ []

no_difference :
    replay same routes same loads run same log host_a host_b none none true ≡ value (asked, [])
unfolding replay ask any_of requests keep get any_text is_text starts_with contains_text ends_with
    before text_in rstrip
no_difference = refl

replay_alike_example :
    (exit_status [] ≡ 0)
    ↔ All
        (λ (kept : ℕ × Text).
          ask same routes run same host_a kept.1 none ≡ ask same routes run same host_b kept.1 none)
        asked.out
replay_alike_example =
    replay_alike same routes same loads run same log host_a host_b none none true asked []
      no_difference

replay-value_example :
    (differ : List Difference) × (replay same routes same loads run same log host_a host_b none none
        true
      ≡ value (asked, differ))
unfolding any_of rstrip
replay-value_example =
    replay-value same routes same loads run same log host_a host_b none none true asked three_lines
      (refl, refl) (refl, refl) tt (((refl, refl), (_, refl), (_, refl)), tt)

-- A target with a surrogate has no label, and one with a NUL is not asked.
no_label : label same routes 1 (b'/' ∷ 0xD800 ∷ []) ≡ raised unicode_encode_error
unfolding label any_of after before
no_label = refl

not_asked : ask same routes run same host_a (b'/' ∷ 0 ∷ []) none ≡ raised value_error
unfolding ask any_of rstrip
not_asked = refl
