-- ===== src/Stories/Kept.antt =====
-- A jar has each name once, and no empty value, after any answer.
use gopher_metal.Prelude.{
  ◌≡◌, refl, ◌∙◌, false, not, ◌||◌, List, [], ◌∷◌, map, All, if_elim, arith, contains,
  if◌then◌else◌,
}
use gopher_metal.Prelude.Text.{Text, text_eq, text_in, before, IsUnique, text_eq_comm}
use gopher_metal.Stories.{
  Jar, pop, set, behind, strip, expires, take_cookie, header_lines, take_cookies, update_jar,
}

-- Each name stands once, and no value is empty.
abbrev pub IsJar : Jar → Type 0
IsJar jar = IsUnique (map (λ c. c.0) jar) × All (λ c. text_eq c.1 [] ≡ false) jar

pop-in :
    (name n : Text) (jar : Jar)
    → text_in n (map (λ c. c.0) jar) ≡ false
    → text_in n (map (λ c. c.0) (pop name jar)) ≡ false
unfolding pop text_in
pop-in name n [] h = refl
pop-in name n ((m, v) ∷ jar) h = let rest = pop-in name n jar (ground arith) in ground (arith, rest)

pop-IsJar : (name : Text) (jar : Jar) → IsJar jar → IsJar (pop name jar)
unfolding pop
pop-IsJar name [] h = h
pop-IsJar name ((n, v) ∷ jar) h =
    let rest = pop-IsJar name jar (h.0.1, h.1.1) in
    if_elim IsJar (text_eq name n) (pop name jar) ((n, v) ∷ pop name jar) (λ e. rest)
      (λ e. ((pop-in name n jar h.0.0, rest.0), (h.1.0, rest.1)))

set-in :
    (name value n : Text) (jar : Jar)
    → text_eq n name ≡ false
    → text_in n (map (λ c. c.0) jar) ≡ false
    → text_in n (map (λ c. c.0) (set name value jar)) ≡ false
unfolding set text_in
set-in name value n [] away h = ground (arith, away)
set-in name value n ((m, v) ∷ jar) away h =
    let rest = set-in name value n jar away (ground arith) in ground (arith, rest)

set-IsJar :
    (name value : Text) (jar : Jar)
    → text_eq value [] ≡ false
    → IsJar jar
    → IsJar (set name value jar)
unfolding set text_in
set-IsJar name value [] full h = ((refl, tt), (full, tt))
set-IsJar name value ((n, v) ∷ jar) full h =
    let rest = set-IsJar name value jar full (h.0.1, h.1.1) in
    if_elim IsJar (text_eq name n) ((n, value) ∷ jar) ((n, v) ∷ set name value jar)
      (λ e. (h.0, (full, h.1.1)))
      (λ e. ((set-in name value n jar (text_eq_comm n name ∙ e) h.0.0, rest.0), (h.1.0, rest.1)))

take_cookie-IsJar : (line : Text) (jar : Jar) → IsJar jar → IsJar (take_cookie line jar)
unfolding take_cookie
take_cookie-IsJar line jar h =
    let pair = strip (before b';' line) in
    let name = before b'=' pair in
    let value = behind b'=' pair in
    let gone = expires (behind b';' line) || text_eq value [] in
    if_elim IsJar (not (contains line b'=')) jar (if gone then pop name jar else set name value jar)
      (λ e. h)
      (λ e.
        if_elim IsJar gone (pop name jar) (set name value jar) (λ k. pop-IsJar name jar h)
          (λ k. set-IsJar name value jar (ground (arith, k)) h))

take_cookies-IsJar : (lines : List Text) (jar : Jar) → IsJar jar → IsJar (take_cookies lines jar)
unfolding take_cookies
take_cookies-IsJar [] jar h = h
take_cookies-IsJar (line ∷ rest) jar h =
    take_cookies-IsJar rest (take_cookie line jar) (take_cookie-IsJar line jar h)

-- Where a jar has each name once and no empty value, so has the jar after any answer.
pub update_jar-IsJar : (cookies : Text) (jar : Jar) → IsJar jar → IsJar (update_jar cookies jar)
unfolding update_jar
update_jar-IsJar cookies jar h = take_cookies-IsJar (header_lines cookies) jar h
