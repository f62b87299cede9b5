-- ===== src/Replay/Keep/Uncaught.antt =====
-- A log entry at which `keep` ends in an AttributeError.
use gopher_metal.Prelude.Text.{Text, text_eq_refl}
use gopher_metal.Prelude.{◌≡◌, false, Option}
use gopher_metal.Replay.Json.{
  Json, string, array, object, Items, cons, Fields, raised, attribute_error, get, truthy, is_text,
}
use gopher_metal.Replay.Keep.{
  request_name, uri_name, method_name, headers_name, get_word, other_host, request_of, header,
  has_credential, keep_request, keep_uri, keep_object, keep,
}

module _ (lower : Text → Text) where
  -- With a list for its headers an entry ends `keep`.
  pub keep-raised :
      (host : Option Text) (fields req : Fields) (uri : Text) (j : Json) (js : Items)
      → get request_name fields ≡ object req
      → get uri_name req ≡ string uri
      → other_host host req ≡ false
      → get method_name req ≡ string get_word
      → get headers_name req ≡ array (cons j js)
      → keep lower host (object fields) ≡ raised attribute_error
  unfolding keep keep_object request_of keep_uri keep_request has_credential header is_text truthy
  keep-raised host fields req uri j js r u o m h = simp (r, u, o, m, h, text_eq_refl get_word)
