-- ===== src/Backup/Lines.antt =====
-- The lines of a manifest, and the three parts of a line.
use gopher_metal.Prelude.{
  ℕ, ◌≡◌, false, List, [], ◌∷◌, ◌++◌, Option, none, some, All, refl, ap, subst, ◌∙◌, Bool-cases,
  inl, inr, arith, ◌==◌, if◌then◌else◌,
}
use gopher_metal.Prelude.Text.{Text}

onto : ℕ → List Text → List Text
onto c [] = (c ∷ []) ∷ []
onto c (line ∷ rest) = (c ∷ line) ∷ rest

-- text.split("\n")
unfoldable pub split_lines : Text → List Text
unfolding onto
split_lines [] = [] ∷ []
split_lines (c ∷ cs) = let rest = split_lines cs in if c == 10 then [] ∷ rest else onto c rest

-- if lines and lines[-1] == "": lines.pop()
unfoldable pub pop_empty : List Text → List Text
pop_empty [] = []
pop_empty ([] ∷ []) = []
pop_empty (line ∷ rest) = line ∷ pop_empty rest

unfoldable pub lines_of : Text → List Text
unfolding split_lines pop_empty
lines_of text = pop_empty (split_lines text)

put_front : ℕ → Option (Text × Text) → Option (Text × Text)
put_front c none = none
put_front c (some (front, back)) = some (c ∷ front, back)

-- what stands before the first space, and behind it
unfoldable pub split_space : Text → Option (Text × Text)
unfolding put_front
split_space [] = none
split_space (c ∷ cs) =
    let rest = put_front c (split_space cs) in if c == b' ' then some ([], cs) else rest

third : Text → Option (Text × Text) → Option (Text × Text × Text)
third a none = none
third a (some (b, c)) = some (a, b, c)

three : Option (Text × Text) → Option (Text × Text × Text)
unfolding third
three none = none
three (some (a, rest)) = third a (split_space rest)

-- line.split(" ", 2), where it has three parts
unfoldable pub split_three : Text → Option (Text × Text × Text)
unfolding split_space three
split_three line = three (split_space line)

put_front-some :
    (c : ℕ) (o : Option (Text × Text)) (front back : Text)
    → put_front c o ≡ some (front, back)
    → (f : Text) × (front ≡ c ∷ f) × (o ≡ some (f, back))
unfolding put_front
put_front-some c none front back h = absurd (ground arith)
put_front-some c (some (f, b)) front back h = (f, ground arith, ground arith)

split_space-append :
    (s front back : Text) → split_space s ≡ some (front, back) → s ≡ front ++ (b' ' ∷ back)
unfolding split_space
split_space-append [] front back h = absurd (ground arith)
split_space-append (c ∷ cs) front back h = elim (Bool-cases (c == b' ')) [
  | inl e ↦
      let space : c ≡ b' ' = ground arith in
      let f : [] ≡ front = ground arith in
      let b : cs ≡ back = ground arith in
      let met : (c ∷ cs) ≡ b' ' ∷ back = ground arith in
      subst (λ (x : Text). (c ∷ cs) ≡ x ++ (b' ' ∷ back)) f met
  | inr e ↦
      let (f, k, o) = put_front-some c (split_space cs) front back (ground (arith, e, h)) in
      let r = split_space-append cs f back o in ground arith
]

-- The text has no space.
abbrev pub NoSpace : Text → Type 0
NoSpace t = All (λ c. (c == b' ') ≡ false) t

split_space-NoSpace :
    (front back : Text) → NoSpace front → split_space (front ++ (b' ' ∷ back)) ≡ some (front, back)
unfolding split_space put_front
split_space-NoSpace [] back h = refl
split_space-NoSpace (c ∷ cs) back h =
    let rest = split_space-NoSpace cs back h.1 in let other = h.0 in simp (other, rest)

abbrev pub joined : Text → Text → Text → Text
joined a b c = a ++ (b' ' ∷ (b ++ (b' ' ∷ c)))

third-some :
    (x : Text) (o : Option (Text × Text)) (a b c : Text)
    → third x o ≡ some (a, b, c)
    → (x ≡ a) × (o ≡ some (b, c))
unfolding third
third-some x none a b c h = absurd (ground arith)
third-some x (some (y, z)) a b c h = (ground arith, ground arith)

three-some :
    (o : Option (Text × Text)) (a b c : Text)
    → three o ≡ some (a, b, c)
    → (rest : Text) × (o ≡ some (a, rest)) × (split_space rest ≡ some (b, c))
unfolding three
three-some none a b c h = absurd (ground arith)
three-some (some (x, rest)) a b c h =
    let (e, k) = third-some x (split_space rest) a b c h in (rest, ap (λ y. some (y, rest)) e, k)

-- Three parts with spaces between them are the line.
pub split_three-append :
    (line a b c : Text) → split_three line ≡ some (a, b, c) → line ≡ joined a b c
unfolding split_three
split_three-append line a b c h =
    let (rest, first, second) = three-some (split_space line) a b c h in
    split_space-append line a rest first
    ∙ ap (λ r. a ++ (b' ' ∷ r)) (split_space-append rest b c second)

-- The parts are found again, where the first two have no space.
pub split_three-NoSpace :
    (a b c : Text) → NoSpace a → NoSpace b → split_three (joined a b c) ≡ some (a, b, c)
unfolding split_three three third
split_three-NoSpace a b c h k =
    let first = split_space-NoSpace a (b ++ (b' ' ∷ c)) h in
    let second = split_space-NoSpace b c k in simp (first, second)
