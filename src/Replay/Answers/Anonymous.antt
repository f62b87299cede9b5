-- ===== src/Replay/Answers/Anonymous.antt =====
-- A difference is named without its target.
use gopher_metal.Prelude.Text.{Text, text_eq, text_in, starts_with, before}
use gopher_metal.Prelude.{
  ℕ, zero, suc, ◌≡◌, ◌⊎◌, inl, inr, refl, Bool, true, false, List, [], ◌∷◌, Bool-cases, arith, not,
  ◌==◌, length, ◌≤◌,
}
use gopher_metal.Fat.Dirent.{rstrip}
use gopher_metal.Replay.Json.{value}
use gopher_metal.Replay.Answers.{
  after, take, first_segment, second_part, is_some, shape_of, route_shape, not_a_route, Label,
  label, any_of, is_surrogate, hash_text,
}

-- The shape is the one of no route, or made of a route of the list and of whether more follows it.
abbrev pub IsAnonymous : List Text → Text → Type 0
IsAnonymous routes shape =
    (shape ≡ not_a_route)
    ⊎ ((route : Text) × (more : Bool) × (query : Bool) × (text_in route routes ≡ true)
        × (shape ≡ route_shape route more query))

first_segment-rooted :
    (uri : Text)
    → starts_with (b'/' ∷ []) uri ≡ true
    → (first : Text) × (first_segment uri ≡ value first)
unfolding starts_with first_segment before after second_part is_some
first_segment-rooted [] h = absurd (ground arith)
first_segment-rooted (c ∷ cs) h =
    let slash : (c == b'/') ≡ true = ground arith in
    let other : (c == b'?') ≡ false = ground arith in
    (before b'/' (before b'?' cs), simp (slash, other))

take_le : (n : ℕ) (t : Text) → length (take n t) ≤ n
unfolding take
take_le zero t = omega arith
take_le (suc n) [] = omega arith
take_le (suc n) (c ∷ cs) = omega (arith, take_le n cs)

module _ (sha : Text → Text) (routes : List Text) where
  shape_of-IsAnonymous : (t first : Text) → IsAnonymous routes (shape_of sha routes t first)
  unfolding shape_of
  shape_of-IsAnonymous t first = elim (Bool-cases (text_in first routes)) [
    | inl listed ↦
        let more = not (text_eq (rstrip b'/' (before b'?' t)) (b'/' ∷ first)) in
        let query = is_some (after b'?' t) in inr (first, more, query, listed, simp listed)
    | inr other ↦ inl (simp other)
  ]

  pub label-IsAnonymous :
      (n : ℕ) (uri : Text)
      → starts_with (b'/' ∷ []) uri ≡ true
      → any_of is_surrogate uri ≡ false
      → (l : Label) × (label sha routes n uri ≡ value l)
        × (l.line ≡ n)
        × (length l.digest ≤ 8)
        × IsAnonymous routes l.shape
  unfolding label hash_text
  label-IsAnonymous n uri rooted encodes =
      let (first, f) = first_segment-rooted uri rooted in
      (
        record { line = n; shape = shape_of sha routes uri first; digest = take 8 (sha uri) },
        simp (f, encodes),
        refl,
        take_le 8 (sha uri),
        shape_of-IsAnonymous uri first,
      )
