-- ===== src/Stories/Marks.antt =====
-- No step fails exactly where every mark is in the body that its step read, for the steps that have an
-- answer.
use gopher_metal.Prelude.{◌≡◌, ◌↔◌, refl, true, List, [], ◌∷◌, Option, none, some, All, arith}
use gopher_metal.Prelude.Text.{Text, contains_text}
use gopher_metal.Stories.{gone, no_marks, judge_marks, missing_marks}

-- Every mark is in the body.
abbrev pub AreIn : List Text → Text → Type 0
AreIn marks body = All (λ m. contains_text m body ≡ true) marks

-- The step has no marks, or a body with all of them.
abbrev pub IsReadBack : List Text → Option Text → Type 0
IsReadBack [] body = Unit
IsReadBack (m ∷ marks) none = ⊥
IsReadBack (m ∷ marks) (some body) = AreIn (m ∷ marks) body

-- The steps that have an answer, in the order of both lists, are read back. Of a step beyond the last
-- answer nothing is said.
abbrev pub AreReadBack : List (List Text) → List (Option Text) → Type 0
AreReadBack [] bodies = Unit
AreReadBack (marks ∷ steps) [] = Unit
AreReadBack (marks ∷ steps) (body ∷ bodies) = IsReadBack marks body × AreReadBack steps bodies

gone-AreIn :
    (marks : List Text) (body : Text) → no_marks (gone marks body) ≡ true → AreIn marks body
unfolding gone no_marks
gone-AreIn [] body h = tt
gone-AreIn (m ∷ marks) body h = (ground arith, gone-AreIn marks body (ground arith))

AreIn-gone :
    (marks : List Text) (body : Text) → AreIn marks body → no_marks (gone marks body) ≡ true
unfolding gone no_marks
AreIn-gone [] body h = refl
AreIn-gone (m ∷ marks) body h = let rest = AreIn-gone marks body h.1 in ground (arith, h.0, rest)

judge_marks_iff :
    (marks : List Text) (body : Option Text) → (judge_marks marks body ≡ 0) ↔ IsReadBack marks body
unfolding judge_marks
judge_marks_iff [] body = (λ h. tt, λ h. refl)
judge_marks_iff (m ∷ marks) none = (λ h. absurd (ground arith), λ h. absurd h)
judge_marks_iff (m ∷ marks) (some body) = (
  λ h. gone-AreIn (m ∷ marks) body (ground arith),
  λ h. (let r = AreIn-gone (m ∷ marks) body h in simp r),
)

-- Nothing is reported missing exactly where each step that has an answer and expects marks has a body
-- in that answer, with every mark in it. A step beyond the last answer is not a failure.
pub missing_marks_iff :
    (steps : List (List Text)) (bodies : List (Option Text))
    → (missing_marks steps bodies ≡ 0) ↔ AreReadBack steps bodies
unfolding missing_marks
missing_marks_iff [] bodies = (λ h. tt, λ h. refl)
missing_marks_iff (marks ∷ steps) [] = (λ h. tt, λ h. refl)
missing_marks_iff (marks ∷ steps) (body ∷ bodies) =
    let one = judge_marks_iff marks body in
    let rest = missing_marks_iff steps bodies in
    (
      λ h. (one.0 (omega (arith, h)), rest.0 (omega (arith, h))),
      λ h. omega (arith, one.1 h.0, rest.1 h.1),
    )
