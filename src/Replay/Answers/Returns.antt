-- ===== src/Replay/Answers/Returns.antt =====
-- When a replay ends: each kept target that can be encoded is asked of both hosts, and has a label.
use gopher_metal.Prelude.Text.{Text, text_eq, starts_with}
use gopher_metal.Prelude.{
  ℕ, ◌≡◌, refl, Bool, true, false, List, [], ◌∷◌, ◌++◌, Option, none, some, Option-cases,
  Bool-cases, inl, inr, All, arith, ◌==◌,
}
use gopher_metal.Replay.Json.{Json, Call, value}
use gopher_metal.Replay.Keep.{target}
use gopher_metal.Replay.Keep.Exact.{keep_iff}
use gopher_metal.Replay.Requests.{Requests, kept_of, requests}
use gopher_metal.Replay.Requests.Log.{IsFrom, requests-IsFrom}
use gopher_metal.Fat.Dirent.{rstrip, keep_char}
use gopher_metal.Replay.Answers.{
  any_of, is_surrogate, is_unescaped, check_argument, check_name, answer_of, Ran, Answer,
  Difference, status, bodies, ask, compare_answers, replay_kept, replay,
}
use gopher_metal.Replay.Answers.Anonymous.{label-IsAnonymous}

kept_of-rooted :
    (lower : Text → Text) (loads : Text → Option Json) (host : Option Text) (line uri : Text)
    → kept_of lower loads host line ≡ value (target uri)
    → starts_with (b'/' ∷ []) uri ≡ true
unfolding kept_of
kept_of-rooted lower loads host line uri h = elim (Option-cases (loads line)) [
  | inl absent ↦ absurd (ground arith)
  | inr (entry, there) ↦ ((keep_iff lower host entry uri).0 (ground arith)).rooted
]

-- No surrogate, and no NUL.
abbrev pub IsPlain : Text → Type 0
IsPlain t = (any_of is_surrogate t ≡ false) × (any_of (λ c. c == 0) t ≡ false)

abbrev pub IsPlainName : Option Text → Type 0
IsPlainName none = Unit
IsPlainName (some name) = IsPlain name

-- curl starts on the URL of the target.
abbrev pub Starts : (Text → Option Text → Call Ran) → Text → Option Text → Text → Type 0
Starts run base netns t = (ran : Ran) × (run (rstrip b'/' base ++ t) netns ≡ value ran)

any_of-append :
    (test : ℕ → Bool) (s t : Text)
    → any_of test s ≡ false
    → any_of test t ≡ false
    → any_of test (s ++ t) ≡ false
unfolding any_of
any_of-append test [] t h k = k
any_of-append test (c ∷ cs) t h k =
    let rest = any_of-append test cs t (ground arith) k in ground arith

any_of-keep_char :
    (test : ℕ → Bool) (drop c : ℕ) (t : Text)
    → test c ≡ false
    → any_of test t ≡ false
    → any_of test (keep_char drop c t) ≡ false
unfolding any_of keep_char
any_of-keep_char test drop c [] h k = elim (Bool-cases (c == drop)) [
  | inl same ↦ simp same
  | inr other ↦ simp (other, h)
]
any_of-keep_char test drop c (d ∷ ds) h k = ground arith

any_of-rstrip :
    (test : ℕ → Bool) (drop : ℕ) (t : Text)
    → any_of test t ≡ false
    → any_of test (rstrip drop t) ≡ false
unfolding any_of rstrip
any_of-rstrip test drop [] h = refl
any_of-rstrip test drop (c ∷ cs) h =
    any_of-keep_char test drop c (rstrip drop cs) (ground arith)
      (any_of-rstrip test drop cs (ground arith))

any_of-unescaped : (t : Text) → any_of is_surrogate t ≡ false → any_of is_unescaped t ≡ false
unfolding any_of
any_of-unescaped [] h = refl
any_of-unescaped (c ∷ cs) h = let rest = any_of-unescaped cs (ground arith) in ground arith

check_plain : (t : Text) → IsPlain t → check_argument t ≡ value tt
unfolding check_argument
check_plain t (encodes, ends) = simp (any_of-unescaped t encodes, ends)

check_argument-plain :
    (base t : Text) → IsPlain base → IsPlain t → check_argument (rstrip b'/' base ++ t) ≡ value tt
check_argument-plain base t pb pt = check_plain (rstrip b'/' base ++ t) (
  any_of-append is_surrogate (rstrip b'/' base) t (any_of-rstrip is_surrogate b'/' base pb.0) pt.0,
  any_of-append (λ c. c == 0) (rstrip b'/' base) t (any_of-rstrip (λ c. c == 0) b'/' base pb.1)
      pt.1,
)

check_name-plain : (name : Option Text) → IsPlainName name → check_name name ≡ value tt
unfolding check_name
check_name-plain none h = refl
check_name-plain (some name) h = check_plain name h

module _ (sha : Text → Text) (routes : List Text) where
  compare_answers-value :
      (n : ℕ) (uri : Text) (a b : Answer)
      → starts_with (b'/' ∷ []) uri ≡ true
      → any_of is_surrogate uri ≡ false
      → (ds : List Difference) × (compare_answers sha routes n uri a b ≡ value ds)
  unfolding compare_answers
  compare_answers-value n uri a b rooted encodes =
      let (l, e, _, _, _) = label-IsAnonymous sha routes n uri rooted encodes in
      elim (Bool-cases (text_eq a.status b.status)) [
        | inr other ↦ (status l ∷ [], simp (other, e))
        | inl same ↦ elim (Bool-cases (text_eq a.digest b.digest)) [
          | inr other ↦ (bodies l ∷ [], simp (same, other, e))
          | inl equal ↦ ([], simp (same, equal))
        ]
      ]

  module _ (run : Text → Option Text → Call Ran) (decode : Text → Text) where
    ask-value :
        (base t : Text) (netns : Option Text)
        → IsPlain base
        → IsPlainName netns
        → IsPlain t
        → Starts run base netns t
        → (x : Answer) × (ask sha routes run decode base t netns ≡ value x)
    unfolding ask
    ask-value base t netns plain name target_plain (ran, started) =
        let url = check_argument-plain base t plain target_plain in
        (answer_of sha routes decode ran, simp (check_name-plain netns name, url, started))

    module _ (a b : Text) (netns : Option Text) where
      replay_kept-value :
          (lower : Text → Text) (loads : Text → Option Json) (host : Option Text) (log : List Text)
          (kept : List (ℕ × Text))
          → IsPlain a
          → IsPlain b
          → IsPlainName netns
          → All (IsFrom lower loads host log) kept
          → All (λ k. IsPlain k.1 × Starts run a none k.1 × Starts run b netns k.1) kept
          → (ds : List Difference) × (replay_kept sha routes
                (λ t. ask sha routes run decode a t none)
                (λ t. ask sha routes run decode b t netns)
                kept
              ≡ value ds)
      unfolding replay_kept
      replay_kept-value lower loads host log [] pa pb pn h k = ([], refl)
      replay_kept-value lower loads host log ((n, uri) ∷ kept) pa pb pn h k =
          let (line, _, _, _, from) = h.0 in
          let (plain, at_a, at_b) = k.0 in
          let (x, ex) = ask-value a uri none pa tt plain at_a in
          let (y, ey) = ask-value b uri netns pb pn plain at_b in
          let (here, c) =
            compare_answers-value n uri x y (kept_of-rooted lower loads host line uri from)
              plain.0 in
          let (more, r) = replay_kept-value lower loads host log kept pa pb pn h.1 k.1 in
          (here ++ more, simp (ex, ey, c, r))

  -- Where the requests of a log can be read, the two bases, the network namespace and every kept target have
  -- no surrogate and no NUL, and curl starts for each kept target on both hosts, the replay ends with a list
  -- of differences.
  pub replay-value :
      (lower : Text → Text) (loads : Text → Option Json) (run : Text → Option Text → Call Ran)
      (decode : Text → Text) (log : List Text) (a b : Text) (host netns : Option Text)
      (unique : Bool) (r : Requests)
      → requests lower loads log host unique ≡ value r
      → IsPlain a
      → IsPlain b
      → IsPlainName netns
      → All (λ k. IsPlain k.1 × Starts run a none k.1 × Starts run b netns k.1) r.out
      → (differ : List Difference) × (replay sha routes lower loads run decode log a b host netns
            unique
          ≡ value (r, differ))
  unfolding replay
  replay-value lower loads run decode log a b host netns unique r h pa pb pn starts =
      let (differ, e) =
        replay_kept-value run decode a b netns lower loads host log r.out pa pb pn
          (requests-IsFrom lower loads log host unique r h) starts in
      (differ, simp (h, e))
