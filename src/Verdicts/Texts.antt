-- ===== src/Verdicts/Texts.antt =====
-- What tools/verdicts.py does with text: `split` at a mark and at white space, and the marks.
use gopher_metal.Prelude.Text.{Text, text_eq, starts_with, ends_with}
use gopher_metal.Prelude.{
  ℕ, ◌≡◌, refl, Bool, true, false, ◌&&◌, ◌||◌, [], ◌∷◌, ◌++◌, Option, none, some, ◌==◌, leb,
  if◌then◌else◌, arith,
}

abbrev pub dirty : Text
dirty = b'-' ∷ b'd' ∷ b'i' ∷ b'r' ∷ b't' ∷ b'y' ∷ []

abbrev pub sdk_mark : Text
sdk_mark = b'.' ∷ b's' ∷ b'd' ∷ b'k' ∷ b'-' ∷ []

pub drop_front : Text → Text → Text
drop_front [] t = t
drop_front (m ∷ ms) [] = []
drop_front (m ∷ ms) (c ∷ cs) = drop_front ms cs

-- text.split(mark, 1), of which a text without the mark gives one part
unfoldable pub split_mark : Text → Text → Text × Text
unfolding drop_front
split_mark mark [] = ([], [])
split_mark mark (c ∷ cs) =
    let (front, back) = split_mark mark cs in
    if starts_with mark (c ∷ cs) then ([], drop_front mark (c ∷ cs)) else (c ∷ front, back)

-- c.isspace(), in ASCII
unfoldable pub is_space : ℕ → Bool
is_space c = (leb 9 c && leb c 13) || (leb 28 c && leb c 32)

-- bool(text.strip())
unfoldable pub has_word : Text → Bool
unfolding is_space
has_word [] = false
has_word (c ∷ cs) = if is_space c then has_word cs else true

-- the characters up to white space
word_of : Text → Text
unfolding is_space
word_of [] = []
word_of (c ∷ cs) = let rest = word_of cs in if is_space c then [] else c ∷ rest

-- text.split()[0], where there is one
unfoldable pub first_word : Text → Option Text
unfolding word_of
first_word [] = none
first_word (c ∷ cs) = if is_space c then first_word cs else some (word_of (c ∷ cs))

-- The character is not in the text.
abbrev pub Lacks : ℕ → Text → Type 0
Lacks m [] = Unit
Lacks m (c ∷ cs) = ((c == m) ≡ false) × Lacks m cs

pub Lacks-append : (m : ℕ) (a b : Text) → Lacks m a → Lacks m b → Lacks m (a ++ b)
Lacks-append m [] b h k = k
Lacks-append m (c ∷ cs) b h k = (h.0, Lacks-append m cs b h.1 k)

pub ends_with-Lacks : (t : Text) → Lacks b'-' t → ends_with dirty t ≡ false
unfolding ends_with text_eq
ends_with-Lacks [] h = refl
ends_with-Lacks (c ∷ cs) h = ground (arith, ends_with-Lacks cs h.1)

pub ends_with-dirty : (t : Text) → ends_with dirty (t ++ dirty) ≡ true
unfolding ends_with text_eq
ends_with-dirty [] = refl
ends_with-dirty (c ∷ cs) = ground (arith, ends_with-dirty cs)

-- The mark's point is the first of the text.
pub split_mark-append :
    (t b : Text) → Lacks b'.' t → split_mark sdk_mark (t ++ (sdk_mark ++ b)) ≡ (t, b)
unfolding split_mark starts_with drop_front
split_mark-append [] b h = refl
split_mark-append (c ∷ cs) b h =
    let rest = split_mark-append cs b h.1 in
    let other : (b'.' == c) ≡ false = ground (arith, h.0) in simp (other, rest)
