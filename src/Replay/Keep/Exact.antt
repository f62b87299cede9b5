-- ===== src/Replay/Keep/Exact.antt =====
-- Exactly which log entries are replayed.
use gopher_metal.Prelude.Text.{Text, text_eq, text_in, starts_with, ends_with, before, text_eq_refl}
use gopher_metal.Prelude.{
  ◌≡◌, ◌↔◌, ◌⊎◌, inl, inr, refl, ap, ◌∙◌, subst, true, false, [], ◌∷◌, Option, Bool-cases, arith,
  not, if◌then◌else◌,
}
use gopher_metal.Replay.Json.{
  Json, null, boolean, number, string, array, object, Items, nil, cons, Fields, end, field, value,
  ◌>>=◌, >>=-eq-value, get, truthy, is_text, is_text_sound, any_text,
}
use gopher_metal.Replay.Keep.{
  credential, target, left_out, request_name, uri_name, method_name, headers_name, get_word, cookie,
  authorization, accept, event_stream, stream_end, describes_itself, as_items, is_nil, request_of,
  other_host, find_header, header, is_stream, keep_path, has_credential, keep_request, keep_uri,
  keep_object, keep,
}

module _ (lower : Text → Text) where
  -- There is no header of the name, in any case, or the first of them is an empty list; the later ones may
  -- hold anything.
  abbrev pub NoHeader : Text → Fields → Type 0
  NoHeader name end = Unit
  NoHeader name (field k v rest) =
      ((text_eq (lower k) (lower name) ≡ true) × (as_items v ≡ nil))
      ⊎ ((text_eq (lower k) (lower name) ≡ false) × NoHeader name rest)

  -- The headers are a dictionary without the name, or a false value that is none.
  abbrev pub Without : Text → Json → Type 0
  Without name (object fs) = NoHeader name fs
  Without name j = truthy j ≡ false

  find_header-NoHeader :
      (fs : Fields) (name : Text) → find_header lower fs name ≡ nil → NoHeader name fs
  unfolding find_header
  find_header-NoHeader end name h = tt
  find_header-NoHeader (field k v rest) name h =
      elim (Bool-cases (text_eq (lower k) (lower name))) [
        | inl same ↦ inl (same, ground arith)
        | inr other ↦ inr (other, find_header-NoHeader rest name (ground arith))
      ]

  NoHeader-find_header :
      (fs : Fields) (name : Text) → NoHeader name fs → find_header lower fs name ≡ nil
  unfolding find_header
  NoHeader-find_header end name h = refl
  NoHeader-find_header (field k v rest) name (inl (same, empty)) = ground arith
  NoHeader-find_header (field k v rest) name (inr (other, more)) =
      let e = NoHeader-find_header rest name more in ground arith

  header-Without : (j : Json) (name : Text) → header lower j name ≡ value nil → Without name j
  unfolding header truthy
  header-Without null name h = refl
  header-Without (boolean b) name h = ground arith
  header-Without (number b) name h = ground arith
  header-Without (string t) name h = ground arith
  header-Without (array js) name h = ground arith
  header-Without (object fs) name h = find_header-NoHeader fs name (ground arith)

  Without-header : (j : Json) (name : Text) → Without name j → header lower j name ≡ value nil
  unfolding header truthy
  Without-header null name h = refl
  Without-header (boolean b) name h = ground arith
  Without-header (number b) name h = ground arith
  Without-header (string t) name h = ground arith
  Without-header (array js) name h = ground arith
  Without-header (object fs) name h = ap value (NoHeader-find_header fs name h)

  -- A log entry that is asked again: of the host, a GET, of a path on the host that ends and that does
  -- not describe the host. Of `Cookie` as of `Authorization`, in any case, the first header is missing
  -- or an empty list, or the headers are a false value.
  pub record IsReplayable (host : Option Text) (entry : Json) (uri : Text) : Type 0 where
    pub fields : Fields
    pub req : Fields
    pub entry_is : entry ≡ object fields
    pub request_is : get request_name fields ≡ object req
    pub uri_is : get uri_name req ≡ string uri
    pub host_is : other_host host req ≡ false
    pub method_is : get method_name req ≡ string get_word
    pub no_cookie : Without cookie (get headers_name req)
    pub no_authorization : Without authorization (get headers_name req)
    pub ends : ends_with stream_end (before b'?' uri) ≡ false
    pub accepts :
        (header lower (get headers_name req) accept >>= any_text event_stream) ≡ value false
    pub own : text_in (before b'?' uri) describes_itself ≡ false
    pub rooted : starts_with (b'/' ∷ []) uri ≡ true

  is_nil_sound : (js : Items) → is_nil js ≡ true → js ≡ nil
  unfolding is_nil
  is_nil_sound nil h = refl
  is_nil_sound (cons j js) h = absurd (ground arith)

  has_credential-Without :
      (j : Json) → has_credential lower j ≡ value false → Without cookie j × Without authorization j
  unfolding has_credential
  has_credential-Without j h =
      let (cookies, c, k) = >>=-eq-value (header lower j cookie) _ {b = false} h in
      let none_there : is_nil cookies ≡ true = ground arith in
      let rest : (header lower j authorization >>= λ js. value (not (is_nil js))) ≡ value false =
        ground arith in
      let (js, a, e) = >>=-eq-value (header lower j authorization) _ {b = false} rest in
      let none_else : is_nil js ≡ true = ground arith in
      (
        header-Without j cookie (c ∙ ap value (is_nil_sound cookies none_there)),
        header-Without j authorization (a ∙ ap value (is_nil_sound js none_else)),
      )

  is_stream-false :
      (path : Text) (headers : Json)
      → is_stream lower path headers ≡ value false
      → (ends_with stream_end path ≡ false)
        × ((header lower headers accept >>= any_text event_stream) ≡ value false)
  unfolding is_stream
  is_stream-false path headers h =
      let e : ends_with stream_end path ≡ false = ground arith in (e, ground arith)

  keep_path-target :
      (uri u : Text) (headers : Json)
      → keep_path lower uri headers ≡ value (target u)
      → (uri ≡ u)
        × (ends_with stream_end (before b'?' uri) ≡ false)
        × ((header lower headers accept >>= any_text event_stream) ≡ value false)
        × (text_in (before b'?' uri) describes_itself ≡ false)
        × (starts_with (b'/' ∷ []) uri ≡ true)
  unfolding keep_path is_stream
  keep_path-target uri u headers h =
      let (streams, s, k) =
        >>=-eq-value (is_stream lower (before b'?' uri) headers) _ {b = target u} h in
      let quiet : streams ≡ false = ground arith in
      let s' : is_stream lower (before b'?' uri) headers ≡ value false = s ∙ ap value quiet in
      let (a, b) = is_stream-false (before b'?' uri) headers s' in
      (ground arith, a, b, ground arith, ground arith)

  keep_request-Replayable :
      (host : Option Text) (fields req : Fields) (uri u : Text)
      → get request_name fields ≡ object req
      → get uri_name req ≡ string uri
      → keep_request lower host req uri ≡ value (target u)
      → IsReplayable host (object fields) u
  unfolding keep_request
  keep_request-Replayable host fields req uri u r i h =
      let headers = get headers_name req in
      let rest : (has_credential lower headers >>= λ secret.
      if secret then value (left_out credential) else keep_path lower uri headers)
          ≡ value (target u) =
        ground arith in
      let (secret, c, k) = >>=-eq-value (has_credential lower headers) _ {b = target u} rest in
      let open_one : secret ≡ false = ground arith in
      let (same, a, b, d, e) = keep_path-target uri u headers (ground arith) in
      let (no_c, no_a) = has_credential-Without headers (c ∙ ap value open_one) in
      subst (IsReplayable host (object fields)) same (record {
        fields = fields;
        req = req;
        entry_is = refl;
        request_is = r;
        uri_is = i;
        host_is = ground arith;
        method_is = is_text_sound get_word (get method_name req) (ground arith);
        no_cookie = no_c;
        no_authorization = no_a;
        ends = a;
        accepts = b;
        own = d;
        rooted = e;
      })

  keep_uri-Replayable :
      (host : Option Text) (fields req : Fields) (j : Json) (u : Text)
      → get request_name fields ≡ object req
      → get uri_name req ≡ j
      → keep_uri lower host req j ≡ value (target u)
      → IsReplayable host (object fields) u
  unfolding keep_uri
  keep_uri-Replayable host fields req null u r i h = absurd (ground arith)
  keep_uri-Replayable host fields req (boolean b) u r i h = absurd (ground arith)
  keep_uri-Replayable host fields req (number b) u r i h = absurd (ground arith)
  keep_uri-Replayable host fields req (string t) u r i h =
      keep_request-Replayable host fields req t u r i h
  keep_uri-Replayable host fields req (array js) u r i h = absurd (ground arith)
  keep_uri-Replayable host fields req (object fs) u r i h = absurd (ground arith)

  keep_object-Replayable :
      (host : Option Text) (fields : Fields) (j : Json) (u : Text)
      → get request_name fields ≡ j
      → keep_object lower host j ≡ value (target u)
      → IsReplayable host (object fields) u
  unfolding keep_object
  keep_object-Replayable host fields null u r h = absurd (ground arith)
  keep_object-Replayable host fields (boolean b) u r h = absurd (ground arith)
  keep_object-Replayable host fields (number b) u r h = absurd (ground arith)
  keep_object-Replayable host fields (string t) u r h = absurd (ground arith)
  keep_object-Replayable host fields (array js) u r h = absurd (ground arith)
  keep_object-Replayable host fields (object req) u r h =
      keep_uri-Replayable host fields req (get uri_name req) u r refl h

  keep-Replayable :
      (host : Option Text) (entry : Json) (u : Text)
      → keep lower host entry ≡ value (target u)
      → IsReplayable host entry u
  unfolding keep keep_object request_of
  keep-Replayable host null u h = absurd (ground arith)
  keep-Replayable host (boolean b) u h = absurd (ground arith)
  keep-Replayable host (number b) u h = absurd (ground arith)
  keep-Replayable host (string t) u h = absurd (ground arith)
  keep-Replayable host (array js) u h = absurd (ground arith)
  keep-Replayable host (object fs) u h =
      keep_object-Replayable host fs (get request_name fs) u refl h

  Replayable-keep :
      (host : Option Text) (entry : Json) (u : Text)
      → IsReplayable host entry u
      → keep lower host entry ≡ value (target u)
  unfolding keep keep_object request_of keep_uri keep_request has_credential keep_path is_stream
      is_nil is_text
  Replayable-keep host entry u r =
      let c = Without-header (get headers_name r.req) cookie r.no_cookie in
      let a = Without-header (get headers_name r.req) authorization r.no_authorization in
      let t = text_eq_refl get_word in
      simp (
        r.entry_is, r.request_is, r.uri_is, r.host_is, r.method_is, c, a, t, r.ends, r.accepts,
        r.own, r.rooted,
      )

  -- `keep` gives a target exactly for an entry that is a GET of the asked host, with headers that are a false
  -- value or an object where the first header of `Cookie`, and that of `Authorization`, in any case, is
  -- missing or an empty list, of a rooted path that is no stream and does not describe the host, and then
  -- the target is its URI.
  pub keep_iff :
      (host : Option Text) (entry : Json) (uri : Text)
      → (keep lower host entry ≡ value (target uri)) ↔ IsReplayable host entry uri
  keep_iff host entry uri = (keep-Replayable host entry uri, Replayable-keep host entry uri)
