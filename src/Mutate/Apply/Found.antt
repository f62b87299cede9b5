-- ===== src/Mutate/Apply/Found.antt =====
-- Where `apply` has a text to replace: it applies exactly where the count of the text allows it.
use gopher_metal.Prelude.{
  ℕ, zero, suc, ◌-◌, ◌≡◌, ◌<◌, refl, Bool, true, false, [], ◌∷◌, Option, none, some, Bool-cases,
  inl, inr, arith, ltb, ◌==◌, length,
}
use gopher_metal.Prelude.Text.{Text, starts_with}
use gopher_metal.Mutate.Apply.{
  count_from, count_text, behind, split_at, put_between, replace_at, apply,
}

abbrev pub is_some {ℓ} : {A : Type ℓ} → Option A → Bool
is_some none = false
is_some (some a) = true

is_some-behind : (c : ℕ) (o : Option (Text × Text)) → is_some (behind c o) ≡ is_some o
unfolding behind
is_some-behind c none = refl
is_some-behind c (some (front, back)) = refl

is_some-put_between :
    (new : Text) (o : Option (Text × Text)) → is_some (put_between new o) ≡ is_some o
unfolding put_between
is_some-put_between new none = refl
is_some-put_between new (some (front, back)) = refl

-- `index` finds as many occurrences as `count` counts, since it also finds the ones that overlap.
is_some-split_at :
    (old : Text) (skip nth : ℕ) (s : Text)
    → nth < count_from old skip s
    → is_some (split_at old nth s) ≡ true
unfolding split_at count_from
is_some-split_at old skip nth [] h = elim h [ ]
is_some-split_at old (suc skip) zero (c ∷ cs) h =
    ground (arith, is_some-split_at old skip 0 cs h, is_some-behind c (split_at old 0 cs))
is_some-split_at old (suc skip) (suc nth) (c ∷ cs) h =
    elim (Bool-cases (starts_with old (c ∷ cs))) [
      | inl e ↦ ground (
        arith,
        e,
        is_some-split_at old skip nth cs (omega (arith, h)),
        is_some-behind c (split_at old nth cs),
      )
      | inr e ↦ ground (
        arith,
        e,
        is_some-split_at old skip (suc nth) cs h,
        is_some-behind c (split_at old (suc nth) cs),
      )
    ]
is_some-split_at old zero zero (c ∷ cs) h = elim (Bool-cases (starts_with old (c ∷ cs))) [
  | inl e ↦ ground (arith, e)
  | inr e ↦
      let k : 0 < count_from old 0 cs = ground arith in
      ground (arith, e, is_some-split_at old 0 0 cs k, is_some-behind c (split_at old 0 cs))
]
is_some-split_at old zero (suc nth) (c ∷ cs) h = elim (Bool-cases (starts_with old (c ∷ cs))) [
  | inl e ↦
      let k : nth < count_from old (length old - 1) cs = ground arith in
      ground (
        arith,
        e,
        is_some-split_at old (length old - 1) nth cs k,
        is_some-behind c (split_at old nth cs),
      )
  | inr e ↦
      let k : suc nth < count_from old 0 cs = ground arith in
      ground (
        arith,
        e,
        is_some-split_at old 0 (suc nth) cs k,
        is_some-behind c (split_at old (suc nth) cs),
      )
]

-- The number of occurrences that lets a row apply: one, or more than those to skip.
abbrev pub suits : Option ℕ → ℕ → Bool
suits none count = count == 1
suits (some nth) count = ltb nth count

-- `apply` gives a text exactly where the text to replace stands once, or, where the row has the number
-- of an occurrence, more often than that.
pub apply-suits :
    (source old new : Text) (nth : Option ℕ)
    → is_some (apply source old new nth) ≡ suits nth (count_text old source)
unfolding apply replace_at count_text
apply-suits source old new none = elim (Bool-cases (count_from old 0 source == 1)) [
  | inl e ↦
      let k : 0 < count_from old 0 source = ground arith in
      ground
        (arith, is_some-split_at old 0 0 source k, is_some-put_between new (split_at old 0 source))
  | inr e ↦ ground (arith, e)
]
apply-suits source old new (some nth) = elim (Bool-cases (ltb nth (count_from old 0 source))) [
  | inl e ↦
      let k : nth < count_from old 0 source = ground arith in
      ground (
        arith,
        is_some-split_at old 0 nth source k,
        is_some-put_between new (split_at old nth source),
      )
  | inr e ↦ ground (arith, e)
]
