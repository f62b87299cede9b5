-- ===== src/Verdicts/Tests.antt =====
-- Clean trees, a verdict that is kept for them, and the theorems at them.
use gopher_metal.Prelude.Text.{Text, text_eq, codes}
use gopher_metal.Prelude.{
  ◌≡◌, ◌↔◌, refl, length, All, none, if◌then◌else◌, true, List, [], ◌∷◌, some,
}
use gopher_metal.Verdicts.Texts.{has_word}
use gopher_metal.Verdicts.{World, gates, pass, record_verdict, require}
use gopher_metal.Verdicts.Allowed.{IsAllowed, require_iff}
use gopher_metal.Verdicts.Content.{
  Checkout, walk, hashed, content_bytes, BothHave, SameDigest, content_bytes-SameDigest,
}
use gopher_metal.Verdicts.Records.{IsKept, record_verdict-IsKept}

abbrev world : World
world = record {
  head = λ r. b'a' ∷ b'1' ∷ [];
  status = λ r paths. [];
  has_src = true;
  has_webbox = true;
  src_files = [];
  webbox_files = [];
  served = some [];
  content = b'c' ∷ [];
}

abbrev started : Text
started = b'a' ∷ b'1' ∷ b'.' ∷ b's' ∷ b'd' ∷ b'k' ∷ b'-' ∷ b'a' ∷ b'1' ∷ b' ' ∷ b'c' ∷ []

abbrev kept_name : Text
kept_name =
    b'g' ∷ b'a' ∷ b't' ∷ b'e' ∷ b's' ∷ b'-' ∷ b'a' ∷ b'1' ∷ b'.' ∷ b's' ∷ b'd' ∷ b'k' ∷ b'-' ∷ b'a'
    ∷ b'1' ∷ b'-' ∷ b'c' ∷ []

abbrev kept : List (Text × Text)
kept = (kept_name, b'P' ∷ b'A' ∷ b'S' ∷ b'S' ∷ b' ' ∷ b'n' ∷ 10 ∷ []) ∷ []

first_verdict : record_verdict world [] started (b'n' ∷ []) gates pass [] ≡ (0, kept)
unfolding record_verdict has_word text_eq
first_verdict = refl

record_verdict-IsKept_example : IsKept world [] started (b'n' ∷ []) gates pass [] kept
record_verdict-IsKept_example =
    record_verdict-IsKept world [] started (b'n' ∷ []) gates pass [] kept first_verdict

require_iff_example : (require (b'z' ∷ []) [] world kept ≡ []) ↔ IsAllowed (b'z' ∷ []) [] world kept
require_iff_example =
    require_iff (b'z' ∷ []) [] world kept (refl, (refl, tt)) (refl, (refl, tt)) (refl, (refl, tt))

-- A checkout of one file, served and built.
abbrev checkout : Text → Checkout
checkout bytes = record {
  isfile = λ p. text_eq p (codes "a");
  walked = λ p. [];
  bytes_of = λ p. if text_eq p (codes "a") then some bytes else none;
}

abbrev served : List Text
served = codes "a" ∷ []

one_file : walk (checkout []) served ≡ served
unfolding walk text_eq
one_file = refl

-- Stands for the digest: one character.
abbrev digest : Text → Text
digest [] = codes "0"
digest (c ∷ cs) = c ∷ []

one_long : (t u : Text) → length (digest t) ≡ length (digest u)
one_long [] [] = refl
one_long [] (d ∷ u) = refl
one_long (c ∷ t) [] = refl
one_long (c ∷ t) (d ∷ u) = refl

abbrev earlier : Checkout
earlier = checkout (codes "xy")

abbrev later : Checkout
later = checkout (codes "xz")

have : All (BothHave (λ t. t) digest one_long earlier later) served
unfolding text_eq
have = ((codes "xy", codes "xz", refl, refl), tt)

same_bytes :
    content_bytes (λ t. t) digest earlier served earlier served
    ≡ content_bytes (λ t. t) digest later served later served
unfolding content_bytes text_eq hashed
same_bytes = refl

content_bytes-SameDigest_example :
    All (SameDigest (λ t. t) digest one_long earlier later) served
    × All (SameDigest (λ t. t) digest one_long earlier later) served
content_bytes-SameDigest_example =
    content_bytes-SameDigest (λ t. t) digest one_long earlier earlier later later served served have
      have same_bytes
