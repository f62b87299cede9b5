-- ===== src/Replay/Keep.antt =====
-- `header`, `keep` and `requests` of droplet/replay.py: which lines of an access log are replayed.
pub mod Exact
pub mod Uncaught
use gopher_metal.Prelude.Text.{Text, text_eq, text_in, starts_with, ends_with, before}
use gopher_metal.Prelude.{
  ℕ, zero, suc, ◌+◌, Bool, true, false, not, ◌&&◌, ◌||◌, List, [], ◌∷◌, ◌++◌, Option, none, some,
  if◌then◌else◌,
}
use gopher_metal.Replay.Json.{
  Json, null, boolean, number, string, array, object, Items, nil, cons, Fields, end, field, Call,
  value, raised, attribute_error, ◌>>=◌, get, truthy, is_text, any_text,
}

-- why a line is left out
pub data Reason : Type 0 where
  not_caddy another_host not_get credential stream describes_host asked_already : Reason

pub data Kept : Type 0 where
  target : Text → Kept
  left_out : Reason → Kept

abbrev pub request_name : Text
request_name = b'r' ∷ b'e' ∷ b'q' ∷ b'u' ∷ b'e' ∷ b's' ∷ b't' ∷ []

abbrev pub uri_name : Text
uri_name = b'u' ∷ b'r' ∷ b'i' ∷ []

abbrev pub host_name : Text
host_name = b'h' ∷ b'o' ∷ b's' ∷ b't' ∷ []

abbrev pub method_name : Text
method_name = b'm' ∷ b'e' ∷ b't' ∷ b'h' ∷ b'o' ∷ b'd' ∷ []

abbrev pub headers_name : Text
headers_name = b'h' ∷ b'e' ∷ b'a' ∷ b'd' ∷ b'e' ∷ b'r' ∷ b's' ∷ []

abbrev pub get_word : Text
get_word = b'G' ∷ b'E' ∷ b'T' ∷ []

abbrev pub cookie : Text
cookie = b'C' ∷ b'o' ∷ b'o' ∷ b'k' ∷ b'i' ∷ b'e' ∷ []

abbrev pub authorization : Text
authorization =
    b'A' ∷ b'u' ∷ b't' ∷ b'h' ∷ b'o' ∷ b'r' ∷ b'i' ∷ b'z' ∷ b'a' ∷ b't' ∷ b'i' ∷ b'o' ∷ b'n' ∷ []

abbrev pub accept : Text
accept = b'A' ∷ b'c' ∷ b'c' ∷ b'e' ∷ b'p' ∷ b't' ∷ []

abbrev pub event_stream : Text
event_stream =
    b't' ∷ b'e' ∷ b'x' ∷ b't' ∷ b'/' ∷ b'e' ∷ b'v' ∷ b'e' ∷ b'n' ∷ b't' ∷ b'-' ∷ b's' ∷ b't' ∷ b'r'
    ∷ b'e' ∷ b'a' ∷ b'm' ∷ []

abbrev pub stream_end : Text
stream_end = b'/' ∷ b's' ∷ b't' ∷ b'r' ∷ b'e' ∷ b'a' ∷ b'm' ∷ []

-- DESCRIBES_ITSELF
abbrev pub describes_itself : List Text
describes_itself =
    (b'/' ∷ b'v' ∷ b'e' ∷ b'r' ∷ b's' ∷ b'i' ∷ b'o' ∷ b'n' ∷ [])
    ∷ (b'/' ∷ b'a' ∷ b'd' ∷ b'm' ∷ b'i' ∷ b'n' ∷ b'/' ∷ b'h' ∷ b'o' ∷ b's' ∷ b't' ∷ [])
    ∷ []

-- v if isinstance(v, list) else [v]
pub as_items : Json → Items
as_items (array js) = js
as_items j = cons j nil

-- entry.get("request") if isinstance(entry, dict) else None
pub request_of : Json → Json
request_of (object fs) = get request_name fs
request_of _ = null

pub is_nil : Items → Bool
is_nil nil = true
is_nil (cons j js) = false

-- host and req.get("host") != host
unfoldable pub other_host : Option Text → Fields → Bool
other_host none req = false
other_host (some []) req = false
other_host (some (c ∷ cs)) req = not (is_text (c ∷ cs) (get host_name req))

module _ (lower : Text → Text) where
  pub find_header : Fields → Text → Items
  unfolding as_items
  find_header end name = nil
  find_header (field k v rest) name =
      if text_eq (lower k) (lower name) then as_items v else find_header rest name

  -- `header`; the dictionary's method is asked of whatever the log has there
  pub header : Json → Text → Call Items
  unfolding find_header
  header (object fs) name = value (find_header fs name)
  header j name = if truthy j then raised attribute_error else value nil

  -- path.endswith("/stream") or any("text/event-stream" in a for a in header(headers, "Accept"))
  pub is_stream : Text → Json → Call Bool
  unfolding header
  is_stream path headers =
      let asked = header headers accept >>= any_text event_stream in
      if ends_with stream_end path then value true else asked

  -- from `path = uri.split(...)` on
  pub keep_path : Text → Json → Call Kept
  unfolding is_stream
  keep_path uri headers = do
    streams ← is_stream (before b'?' uri) headers
    value (
        if streams
        then left_out stream
        else if text_in (before b'?' uri) describes_itself
        then left_out describes_host
        else if not (starts_with (b'/' ∷ []) uri)
        then left_out not_caddy
        else target uri)

  -- header(headers, "Cookie") or header(headers, "Authorization")
  pub has_credential : Json → Call Bool
  unfolding header is_nil
  has_credential headers = do
    cookies ← header headers cookie
    let authorizations = (do js ← header headers authorization; value (not (is_nil js)))
    if not (is_nil cookies) then value true else authorizations

  -- from the test of the host on
  pub keep_request : Option Text → Fields → Text → Call Kept
  unfolding other_host keep_path has_credential
  keep_request host req uri =
      let headers = get headers_name req in
      let rest = (do
        secret ← has_credential headers
        let more = keep_path uri headers
        if secret then value (left_out credential) else more) in
      if other_host host req
      then value (left_out another_host)
      else if not (is_text get_word (get method_name req))
      then value (left_out not_get)
      else rest

  keep_uri : Option Text → Fields → Json → Call Kept
  unfolding keep_request
  keep_uri host req (string uri) = keep_request host req uri
  keep_uri host req _ = value (left_out not_caddy)

  keep_object : Option Text → Json → Call Kept
  unfolding keep_uri
  keep_object host (object req) = keep_uri host req (get uri_name req)
  keep_object host _ = value (left_out not_caddy)

  -- `keep`
  unfoldable pub keep : Option Text → Json → Call Kept
  unfolding keep_object request_of
  keep host entry = keep_object host (request_of entry)
