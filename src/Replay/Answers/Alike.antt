-- ===== src/Replay/Answers/Alike.antt =====
-- When a replay finds no difference.
use gopher_metal.Prelude.Text.{Text, text_eq, text_eq_sound, text_eq_refl}
use gopher_metal.Prelude.{
  append_eq_nil, ℕ, ◌≡◌, ◌↔◌, refl, sym, ap, ◌∙◌, subst, Bool, true, List, [], ◌∷◌, ◌++◌, Option,
  none, Bool-cases, inl, inr, All, arith,
}
use gopher_metal.Replay.Json.{Json, Call, value, ◌>>=◌, >>=-eq-value}
use gopher_metal.Replay.Requests.{Requests, requests}
use gopher_metal.Replay.Answers.{
  Ran, Answer, Label, Difference, status, bodies, ask, label, compare_answers, replay_kept, replay,
  exit_status,
}

answer_eq : (a b : Answer) → a.status ≡ b.status → a.digest ≡ b.digest → a ≡ b
answer_eq a b s d = ground arith

value-eq : (x y : Answer) → ◌≡◌ {A = Call Answer} (value x) (value y) → x ≡ y
value-eq x y h = cc

differences-eq :
    (xs ys : List Difference) → ◌≡◌ {A = Call (List Difference)} (value xs) (value ys) → xs ≡ ys
differences-eq xs ys h = cc

module _ (sha : Text → Text) (routes : List Text) where
  label_differs :
      (n : ℕ) (t : Text) (d : Label → Difference)
      → (label sha routes n t >>= λ l. value (d l ∷ [])) ≡ value []
      → ⊥
  label_differs n t d h =
      let (l, _, e) = >>=-eq-value (label sha routes n t) _ {b = []} h in ground arith

  compare_answers-same :
      (n : ℕ) (t : Text) (a b : Answer) → compare_answers sha routes n t a b ≡ value [] → a ≡ b
  unfolding compare_answers
  compare_answers-same n t a b h =
      let statuses : text_eq a.status b.status ≡ true =
        elim (Bool-cases (text_eq a.status b.status)) [
          | inl equal ↦ equal
          | inr other ↦ absurd (label_differs n t status (ground arith))
        ] in
      let digests : text_eq a.digest b.digest ≡ true =
        elim (Bool-cases (text_eq a.digest b.digest)) [
          | inl equal ↦ equal
          | inr other ↦ absurd (label_differs n t bodies (ground arith))
        ] in
      answer_eq a b (text_eq_sound a.status b.status statuses)
        (text_eq_sound a.digest b.digest digests)

  same-compare_answers :
      (n : ℕ) (t : Text) (a : Answer) → compare_answers sha routes n t a a ≡ value []
  unfolding compare_answers
  same-compare_answers n t a = simp (text_eq_refl a.status, text_eq_refl a.digest)

  module _ (of_a of_b : Text → Call Answer) where
    abbrev Alike : ℕ × Text → Type 0
    Alike (n, t) = of_a t ≡ of_b t

    -- A round that ends has had both answers.
    round :
        (n : ℕ) (t : Text) (kept : List (ℕ × Text)) (ds : List Difference)
        → replay_kept sha routes of_a of_b ((n, t) ∷ kept) ≡ value ds
        → (x : Answer) × (y : Answer) × (here : List Difference) × (more : List Difference) × (of_a
              t
            ≡ value x)
          × (of_b t ≡ value y)
          × (compare_answers sha routes n t x y ≡ value here)
          × (replay_kept sha routes of_a of_b kept ≡ value more)
          × (ds ≡ here ++ more)
    unfolding replay_kept
    round n t kept ds h =
        let (x, a, k1) = >>=-eq-value (of_a t) _ {b = ds} h in
        let (y, b, k2) = >>=-eq-value (of_b t) _ {b = ds} k1 in
        let (here, c, k3) = >>=-eq-value (compare_answers sha routes n t x y) _ {b = ds} k2 in
        let (more, r, e) = >>=-eq-value (replay_kept sha routes of_a of_b kept) _ {b = ds} k3 in
        (x, y, here, more, a, b, c, r, ground arith)

    replay_kept-Alike :
        (kept : List (ℕ × Text)) → replay_kept sha routes of_a of_b kept ≡ value [] → All Alike kept
    replay_kept-Alike [] h = tt
    replay_kept-Alike ((n, t) ∷ kept) h =
        let (x, y, here, more, a, b, c, r, e) = round n t kept [] h in
        let (z1, z2) = append_eq_nil here more (sym e) in
        (
          a ∙ ap value (compare_answers-same n t x y (c ∙ ap value z1)) ∙ sym b,
          replay_kept-Alike kept (r ∙ ap value z2),
        )

    Alike-replay_kept :
        (kept : List (ℕ × Text)) (ds : List Difference)
        → replay_kept sha routes of_a of_b kept ≡ value ds
        → All Alike kept
        → ds ≡ []
    unfolding replay_kept
    Alike-replay_kept [] ds h k = ground arith
    Alike-replay_kept ((n, t) ∷ kept) ds h k =
        let (x, y, here, more, a, b, c, r, e) = round n t kept ds h in
        let same : x ≡ y = value-eq x y (sym a ∙ k.0 ∙ b) in
        let self = same-compare_answers n t x in
        let still =
          subst (λ (z : Answer). compare_answers sha routes n t x z ≡ value []) same self in
        let none_here : here ≡ [] = differences-eq here [] (sym c ∙ still) in
        let none_more = Alike-replay_kept kept more r k.1 in
        e ∙ ap (λ (l : List Difference). l ++ more) none_here ∙ none_more

  exit_status-zero : (differ : List Difference) → exit_status differ ≡ 0 → differ ≡ []
  unfolding exit_status
  exit_status-zero [] h = refl
  exit_status-zero (d ∷ ds) h = absurd (omega arith)

  -- Where a replay ends, its exit status is 0 exactly when the two hosts gave the same answer to every
  -- request that was kept.
  pub replay_alike :
      (lower : Text → Text) (loads : Text → Option Json) (run : Text → Option Text → Call Ran)
      (decode : Text → Text) (log : List Text) (a b : Text) (host netns : Option Text)
      (unique : Bool) (r : Requests) (differ : List Difference)
      → replay sha routes lower loads run decode log a b host netns unique ≡ value (r, differ)
      → (exit_status differ ≡ 0)
        ↔ All
            (λ (kept : ℕ × Text).
              ask sha routes run decode a kept.1 none ≡ ask sha routes run decode b kept.1 netns)
            r.out
  unfolding replay exit_status
  replay_alike lower loads run decode log a b host netns unique r differ h =
      let of_a : Text → Call Answer = λ t. ask sha routes run decode a t none in
      let of_b : Text → Call Answer = λ t. ask sha routes run decode b t netns in
      let (q, _, k) = >>=-eq-value (requests lower loads log host unique) _ {b = (r, differ)} h in
      let (d, m, e) = >>=-eq-value (replay_kept sha routes of_a of_b q.out) _ {b = (r, differ)} k in
      let same : q ≡ r = ground arith in
      let found : d ≡ differ = ground arith in
      let kept : replay_kept sha routes of_a of_b r.out ≡ value differ =
        ap (λ (x : Requests). replay_kept sha routes of_a of_b x.out) (sym same)
        ∙ m
        ∙ ap value found in
      (
        λ zero_status.
            replay_kept-Alike of_a of_b r.out
              (kept ∙ ap value (exit_status-zero differ zero_status)),
        λ alike.
            let none_found = Alike-replay_kept of_a of_b r.out differ kept alike in
            subst (λ (x : List Difference). exit_status x ≡ 0) (sym none_found) refl,
      )
