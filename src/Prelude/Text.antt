-- ===== src/Prelude/Text.antt =====
-- Text as code points, and Python's string methods.
use Prim.Native.Nat.{ℕ}
use Prim.Native.Char.{code}
use Prim.Native.String.{String}
use mathlib.Core.Path.{◌≡◌, refl}
use mathlib.Core.Bool.{Bool, true, false, ◌&&◌, ◌||◌}
use mathlib.Core.List.{List, [], ◌∷◌}
use native.Mathlib.Omega.{arith}
use gopher_metal.Prelude.Tests.{◌==◌, if◌then◌else◌}

-- Text, as the list of its code points; bytes that are handled one by one, as a list too.
abbrev pub Text : Type 0
Text = List ℕ

-- the code points of a literal
abbrev pub codes : String → Text
codes String.[] = []
codes (String.◌∷◌ c s) = code c ∷ codes s

-- a == b
unfoldable pub text_eq : Text → Text → Bool
text_eq [] [] = true
text_eq (x ∷ xs) (y ∷ ys) = x == y && text_eq xs ys
text_eq _ _ = false

-- t in texts
unfoldable pub text_in : Text → List Text → Bool
unfolding text_eq
text_in t [] = false
text_in t (u ∷ us) = text_eq t u || text_in t us

-- text.startswith(prefix)
unfoldable pub starts_with : Text → Text → Bool
starts_with [] t = true
starts_with (p ∷ ps) [] = false
starts_with (p ∷ ps) (c ∷ cs) = p == c && starts_with ps cs

-- needle in text
unfoldable pub contains_text : Text → Text → Bool
unfolding starts_with
contains_text needle [] = starts_with needle []
contains_text needle (c ∷ cs) = starts_with needle (c ∷ cs) || contains_text needle cs

-- text.endswith(suffix)
unfoldable pub ends_with : Text → Text → Bool
unfolding text_eq
ends_with suffix [] = text_eq suffix []
ends_with suffix (c ∷ cs) = text_eq suffix (c ∷ cs) || ends_with suffix cs

-- text.split(mark, 1)[0]
unfoldable pub before : ℕ → Text → Text
before mark [] = []
before mark (c ∷ cs) = let rest = before mark cs in if c == mark then [] else c ∷ rest

pub text_eq_sound : (a b : Text) → text_eq a b ≡ true → a ≡ b
unfolding text_eq
text_eq_sound [] [] h = refl
text_eq_sound [] (y ∷ ys) h = absurd (ground arith)
text_eq_sound (x ∷ xs) [] h = absurd (ground arith)
text_eq_sound (x ∷ xs) (y ∷ ys) h = let same = text_eq_sound xs ys (ground arith) in ground arith

pub text_eq_refl : (a : Text) → text_eq a a ≡ true
unfolding text_eq
text_eq_refl [] = refl
text_eq_refl (x ∷ xs) = ground (arith, text_eq_refl xs)

pub text_eq_comm : (a b : Text) → text_eq a b ≡ text_eq b a
unfolding text_eq
text_eq_comm [] [] = refl
text_eq_comm [] (y ∷ ys) = refl
text_eq_comm (x ∷ xs) [] = refl
text_eq_comm (x ∷ xs) (y ∷ ys) = ground (arith, text_eq_comm xs ys)

-- No text stands twice.
abbrev pub IsUnique : List Text → Type 0
IsUnique [] = Unit
IsUnique (t ∷ ts) = (text_in t ts ≡ false) × IsUnique ts
