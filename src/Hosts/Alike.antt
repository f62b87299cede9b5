-- ===== src/Hosts/Alike.antt =====
-- Two hosts without a difference answer every page alike, and there are not more differences than pages.
use gopher_metal.Prelude.{
  ◌≡◌, ◌≢◌, ◌≤◌, ◌↔◌, refl, sym, ap, ◌∙◌, true, List, [], ◌∷◌, ◌++◌, length, length-append, All,
  append_eq_nil, append_of_nil, arith,
}
use gopher_metal.Prelude.Text.{Text, codes, text_eq, text_eq_sound, text_eq_refl}
use gopher_metal.Hosts.Pages.{Page}
use gopher_metal.Hosts.{
  Host, refused, judge_page, normal, walk, Writes, no_writes, write_refused, written, again,
  judge_picture, unchanged, compare,
}

-- The same status, and bodies with the same digest.
abbrev pub IsAlike : (Text → Text) → Text × Text → Text × Text → Type 0
IsAlike sha256 x y = (x.0 ≡ y.0) × (sha256 x.1 ≡ sha256 y.1)

judge_page-IsAlike :
    (sha256 : Text → Text) (page : Page) (x y : Text × Text)
    → judge_page sha256 page x y ≡ []
    → IsAlike sha256 x y
unfolding judge_page
judge_page-IsAlike sha256 (label, path) (sa, ba) (sb, bb) h =
    (text_eq_sound sa sb (ground arith), text_eq_sound (sha256 ba) (sha256 bb) (ground arith))

IsAlike-judge_page :
    (sha256 : Text → Text) (page : Page) (x y : Text × Text)
    → IsAlike sha256 x y
    → judge_page sha256 page x y ≡ []
unfolding judge_page
IsAlike-judge_page sha256 (label, path) (sa, ba) (sb, bb) h =
    let s : text_eq sa sb ≡ true = ap (text_eq sa) (sym h.0) ∙ text_eq_refl sa in
    let b : text_eq (sha256 ba) (sha256 bb) ≡ true =
      ap (text_eq (sha256 ba)) (sym h.1) ∙ text_eq_refl (sha256 ba) in
    simp (s, b)

length-judge_page :
    (sha256 : Text → Text) (page : Page) (x y : Text × Text)
    → length (judge_page sha256 page x y) ≤ 1
unfolding judge_page
length-judge_page sha256 (label, path) (sa, ba) (sb, bb) = ground arith

module _ (sha256 : Text → Text) (a b : Host) (na nb : Text → Text) where
  -- Both hosts answer every page alike, behind the normalizing.
  abbrev pub AreAlike : List Page → Type 0
  AreAlike walked =
      All (λ page. IsAlike sha256 ((a page.1).0, na (a page.1).1) ((b page.1).0, nb (b page.1).1))
        walked

  pub walk-AreAlike : (walked : List Page) → walk sha256 walked a b na nb ≡ [] → AreAlike walked
  unfolding walk normal
  walk-AreAlike [] h = tt
  walk-AreAlike ((label, path) ∷ walked) h =
      let (first, rest) =
        append_eq_nil (judge_page sha256 (label, path) (normal na (a path)) (normal nb (b path)))
          (walk sha256 walked a b na nb) h in
      (
        judge_page-IsAlike sha256 (label, path) (normal na (a path)) (normal nb (b path)) first,
        walk-AreAlike walked rest,
      )

  pub AreAlike-walk : (walked : List Page) → AreAlike walked → walk sha256 walked a b na nb ≡ []
  unfolding walk normal
  AreAlike-walk [] h = refl
  AreAlike-walk ((label, path) ∷ walked) h =
      append_of_nil (judge_page sha256 (label, path) (normal na (a path)) (normal nb (b path)))
        (walk sha256 walked a b na nb)
        (IsAlike-judge_page sha256 (label, path) (normal na (a path)) (normal nb (b path)) h.0)
        (AreAlike-walk walked h.1)

  length-walk : (walked : List Page) → length (walk sha256 walked a b na nb) ≤ length walked
  unfolding walk normal
  length-walk [] = omega arith
  length-walk ((label, path) ∷ walked) =
      let x = normal na (a path) in
      let y = normal nb (b path) in
      let one = length-judge_page sha256 (label, path) x y in
      omega (
        arith,
        one,
        length-walk walked,
        length-append (judge_page sha256 (label, path) x y) (walk sha256 walked a b na nb),
      )

-- What the writes have to leave for `compare` to report nothing: they were not refused, the pages and the
-- written topic are alike behind them, and the picture comes back, the same, from both.
pub WritesAlike : (Text → Text) → List Page → Writes → Type 0
WritesAlike sha256 walked no_writes = Unit
WritesAlike sha256 walked (write_refused what) = ⊥
WritesAlike sha256 walked (written base after) =
    AreAlike sha256 after.a after.b after.normalize_a after.normalize_b (again walked base)
    × (after.picture_a ≡ after.picture_b)
    × (after.picture_a.0 ≡ codes "200")

picture_iff : (x y : Text × Text) → (judge_picture x y ≡ []) ↔ ((x ≡ y) × (x.0 ≡ codes "200"))
unfolding judge_picture
picture_iff (sa, ba) (sb, bb) = (
  λ h.
      (let s = text_eq_sound sa sb (ground arith) in
        let b = text_eq_sound ba bb (ground arith) in
        let ok = text_eq_sound sa (codes "200") (ground arith) in (cc (s, b), ok)),
  λ h.
      (let s : text_eq sa sb ≡ true = ap (text_eq sa) (sym (ap (λ x. x.0) h.0)) ∙ text_eq_refl sa in
        let b : text_eq ba bb ≡ true =
          ap (text_eq ba) (sym (ap (λ x. x.1) h.0)) ∙ text_eq_refl ba in
        let ok : text_eq sa (codes "200") ≡ true = ap (text_eq sa) (sym h.1) ∙ text_eq_refl sa in
        simp (s, b, ok)),
)

some_left : {A : Type 0} {x : A} {xs : List A} → x ∷ xs ≡ [] → ⊥
some_left h = absurd (ground (arith, h))

length-picture : (x y : Text × Text) → length (judge_picture x y) ≤ 1
unfolding judge_picture
length-picture (sa, ba) (sb, bb) = ground arith

-- No difference is reported exactly where both hosts answer every page alike and the writes, where they
-- are asked for, are made and leave the hosts alike.
pub compare_iff :
    (sha256 : Text → Text) (walked : List Page) (a b : Host) (writes : Writes)
    → ((compare sha256 walked a b writes).1 ≡ []) ↔ (
        AreAlike sha256 a b (λ body. body) (λ body. body) walked × WritesAlike sha256 walked writes)
unfolding compare unchanged WritesAlike
compare_iff sha256 walked a b no_writes = (
  λ h. (walk-AreAlike sha256 a b (λ body. body) (λ body. body) walked h, tt),
  λ h. AreAlike-walk sha256 a b (λ body. body) (λ body. body) walked h.0,
)
compare_iff sha256 walked a b (write_refused what) = (
  λ h.
      (let (w, one) =
          append_eq_nil (walk sha256 walked a b unchanged unchanged)
            ((codes "writes", refused what) ∷ []) h in
        absurd (some_left one)),
  λ h. absurd h.1,
)
compare_iff sha256 walked a b (written base after) =
    let first = walk sha256 walked a b unchanged unchanged in
    let second =
      walk sha256 (again walked base) after.a after.b after.normalize_a after.normalize_b in
    let picture = judge_picture after.picture_a after.picture_b in
    (
      λ h.
          (let (x, p) = append_eq_nil (first ++ second) picture h in
            let (f, g) = append_eq_nil first second x in
            let (same, ok) = (picture_iff after.picture_a after.picture_b).0 p in
            (
              walk-AreAlike sha256 a b (λ body. body) (λ body. body) walked f,
              (
                walk-AreAlike sha256 after.a after.b after.normalize_a after.normalize_b
                    (again walked base) g,
                same,
                ok,
              ),
            )),
      λ h.
          (let (f, (g, same, ok)) = h in
            append_of_nil (first ++ second) picture
              (append_of_nil first second
                (AreAlike-walk sha256 a b (λ body. body) (λ body. body) walked f)
                (AreAlike-walk sha256 after.a after.b after.normalize_a after.normalize_b
                  (again walked base) g))
              ((picture_iff after.picture_a after.picture_b).1 (same, ok))),
    )

-- Where no write is refused, the differences are no more than what was compared.
pub compare-le :
    (sha256 : Text → Text) (walked : List Page) (a b : Host) (writes : Writes)
    → ((what : Text) → writes ≢ write_refused what)
    → length (compare sha256 walked a b writes).1 ≤ (compare sha256 walked a b writes).0
unfolding compare unchanged
compare-le sha256 walked a b no_writes h =
    length-walk sha256 a b (λ body. body) (λ body. body) walked
compare-le sha256 walked a b (write_refused what) h = absurd (h what refl)
compare-le sha256 walked a b (written base after) h =
    let first = walk sha256 walked a b unchanged unchanged in
    let second =
      walk sha256 (again walked base) after.a after.b after.normalize_a after.normalize_b in
    let picture = judge_picture after.picture_a after.picture_b in
    omega (
      arith,
      length-append (first ++ second) picture,
      length-append first second,
      length-walk sha256 a b unchanged unchanged walked,
      length-walk sha256 after.a after.b after.normalize_a after.normalize_b (again walked base),
      length-picture after.picture_a after.picture_b,
    )
