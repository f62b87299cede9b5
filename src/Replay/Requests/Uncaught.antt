-- ===== src/Replay/Requests/Uncaught.antt =====
-- A log entry at which `requests` ends in an AttributeError.
use gopher_metal.Prelude.Text.{Text}
use gopher_metal.Prelude.{◌≡◌, Bool, false, List, ◌∷◌, Option, some, arith}
use gopher_metal.Replay.Json.{
  Json, string, array, object, Items, cons, Fields, raised, attribute_error, get,
}
use gopher_metal.Replay.Keep.{
  request_name, uri_name, method_name, headers_name, get_word, other_host,
}
use gopher_metal.Replay.Keep.Uncaught.{keep-raised}
use gopher_metal.Replay.Requests.{kept_of, requests_from, requests}

module _ (lower : Text → Text) (loads : Text → Option Json) where
  -- A log whose first line is a GET of the host, with a non-empty list for its headers, ends in an
  -- AttributeError.
  pub requests-raised :
      (line : Text) (lines : List Text) (host : Option Text) (unique : Bool) (fields req : Fields)
      (uri : Text) (j : Json) (js : Items)
      → loads line ≡ some (object fields)
      → get request_name fields ≡ object req
      → get uri_name req ≡ string uri
      → other_host host req ≡ false
      → get method_name req ≡ string get_word
      → get headers_name req ≡ array (cons j js)
      → requests lower loads (line ∷ lines) host unique ≡ raised attribute_error
  unfolding requests requests_from kept_of
  requests-raised line lines host unique fields req uri j js l r u o m h =
      let e = keep-raised lower host fields req uri j js r u o m h in ground (arith, l, e)
