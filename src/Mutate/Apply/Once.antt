-- ===== src/Mutate/Apply/Once.antt =====
-- `apply` changes one occurrence of the text, and changes one wherever there is one.
use gopher_metal.Prelude.{
  ℕ, zero, suc, ◌≡◌, refl, sym, ap, ◌∙◌, subst, true, [], ◌∷◌, ◌++◌, Option, none, some,
  Option-cases, Bool-cases, inl, inr, arith, length, if◌then◌else◌,
}
use gopher_metal.Prelude.Text.{Text, starts_with}
use gopher_metal.Mutate.Apply.{drop_text, behind, split_at, put_between, replace_at, apply}

starts_with-append : (old t : Text) → starts_with old t ≡ true → t ≡ old ++ drop_text (length old) t
unfolding starts_with drop_text
starts_with-append [] t h = refl
starts_with-append (p ∷ ps) [] h = absurd (ground arith)
starts_with-append (p ∷ ps) (c ∷ cs) h =
    let rest = starts_with-append ps cs (ground arith) in
    let same : p ≡ c = ground arith in ground arith

pub behind-some :
    (c : ℕ) (o : Option (Text × Text)) (front back : Text)
    → behind c o ≡ some (front, back)
    → (f : Text) × (front ≡ c ∷ f) × (o ≡ some (f, back))
unfolding behind
behind-some c none front back h = absurd (ground arith)
behind-some c (some (f, b)) front back h = (f, ground arith, ground arith)

pub split_at-append :
    (old : Text) (nth : ℕ) (s front back : Text)
    → split_at old nth s ≡ some (front, back)
    → s ≡ front ++ (old ++ back)
unfolding split_at
split_at-append old nth [] front back h = absurd (ground arith)
split_at-append old zero (c ∷ cs) front back h = elim (Bool-cases (starts_with old (c ∷ cs))) [
  | inl here ↦
      let e : front ≡ [] = ground arith in
      let b : drop_text (length old) (c ∷ cs) ≡ back = ground arith in
      let whole = starts_with-append old (c ∷ cs) here in
      let met : (c ∷ cs) ≡ old ++ back = whole ∙ ap (λ t. old ++ t) b in
      subst (λ (f : Text). (c ∷ cs) ≡ f ++ (old ++ back)) (sym e) met
  | inr later ↦
      let (f, e, k) = behind-some c (split_at old zero cs) front back (ground arith) in
      let r = split_at-append old zero cs f back k in ground arith
]
split_at-append old (suc nth) (c ∷ cs) front back h =
    let (f, e, k) =
      behind-some c (split_at old (if starts_with old (c ∷ cs) then nth else suc nth) cs) front back
        h in
    elim (Bool-cases (starts_with old (c ∷ cs))) [
      | inl here ↦ let r = split_at-append old nth cs f back (ground arith) in ground arith
      | inr later ↦ let r = split_at-append old (suc nth) cs f back (ground arith) in ground arith
    ]

-- What `apply` gives is the source with one occurrence of the text replaced.
pub apply-append :
    (source old new : Text) (nth : Option ℕ) (mutated : Text)
    → apply source old new nth ≡ some mutated
    → (front : Text) × (back : Text) × (source ≡ front ++ (old ++ back))
      × (mutated ≡ front ++ (new ++ back))
unfolding apply replace_at put_between
apply-append source old new none mutated h = elim (Option-cases (split_at old 0 source)) [
  | inl e ↦ absurd (ground arith)
  | inr ((front, back), e) ↦ (front, back, split_at-append old 0 source front back e, ground arith)
]
apply-append source old new (some nth) mutated h = elim (Option-cases (split_at old nth source)) [
  | inl e ↦ absurd (ground arith)
  | inr ((front, back), e) ↦
      (front, back, split_at-append old nth source front back e, ground arith)
]
