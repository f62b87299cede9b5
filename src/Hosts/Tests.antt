-- ===== src/Hosts/Tests.antt =====
-- A copy with one channel, two hosts, and the theorems at them.
use gopher_metal.Prelude.{
  ◌≡◌, ◌≢◌, ◌≤◌, ◌↔◌, refl, true, List, [], ◌∷◌, length, if◌then◌else◌, arith,
}
use gopher_metal.Prelude.Text.{Text, codes, text_eq, text_in}
use gopher_metal.Hosts.Pages.{Page, Copied, pages, ◌/+◌}
use gopher_metal.Hosts.{Host, compare, no_writes, written, write_refused, After}
use gopher_metal.Hosts.Alike.{AreAlike, WritesAlike, compare_iff, compare-le}
use gopher_metal.Hosts.Covers.{asked, channels_of, pages-asked}

abbrev same : Text → Text
same t = t

abbrev sessions : Text
sessions = (channels_of (codes "copy") /+ codes "general") /+ codes "sessions"

-- The folders of the copy that are listed. Every path is a folder.
abbrev copied : Copied
copied = record {
  isdir = λ p. true;
  listdir = λ p.
      if text_eq p (channels_of (codes "copy"))
      then codes "general" ∷ []
      else if text_eq p sessions
      then codes "plans.md" ∷ codes "plans.log" ∷ []
      else [];
  sorted = λ xs. xs;
  quote = same;
}

listed : text_in (codes "general") (copied.listdir (channels_of (codes "copy"))) ≡ true
unfolding text_in text_eq
listed = refl

stored : text_in (codes "plans.md") (copied.listdir sessions) ≡ true
unfolding text_in text_eq
stored = refl

pages-asked_example :
    asked (codes "/channel/general/plans/raw") (pages copied (codes "copy") (codes "1")) ≡ true
pages-asked_example =
    pages-asked copied (λ xs x h. h) (codes "copy") (codes "1") (codes "general") (codes "plans")
      refl refl listed refl refl stored

-- A host that answers every path with the path itself.
abbrev echo : Host
echo path = (codes "200", path)

abbrev after : After
after = record {
  a = echo;
  b = echo;
  normalize_a = same;
  normalize_b = same;
  picture_a = (codes "200", []);
  picture_b = (codes "200", []);
}

abbrev walked : List Page
walked = (codes "recent", codes "/chat/recent") ∷ []

compare_iff_example :
    ((compare same walked echo echo (written (codes "/chat/c/1_1/t") after)).1 ≡ []) ↔ (
      AreAlike same echo echo same same walked
      × WritesAlike same walked (written (codes "/chat/c/1_1/t") after))
compare_iff_example = compare_iff same walked echo echo (written (codes "/chat/c/1_1/t") after)

made : (what : Text) → no_writes ≢ write_refused what
made what h = absurd (ground (arith, h))

compare-le_example :
    length (compare same walked echo echo no_writes).1 ≤ (compare same walked echo echo no_writes).0
compare-le_example = compare-le same walked echo echo no_writes made
