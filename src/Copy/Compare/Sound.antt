-- ===== src/Copy/Compare/Sound.antt =====
-- What a comparison without findings says of the copy and of the volume.
use gopher_metal.Prelude.Text.{Text, text_in}
use gopher_metal.Prelude.{
  append_eq_nil, ℕ, ◌+◌, ◌*◌, ◌^◌, ◌≤◌, ◌≡◌, ◌≢◌, refl, sym, ap, ◌∙◌, subst, true, false, List, [],
  ◌∷◌, ◌++◌, map, Option, none, some, Option-cases, Bool-cases, inl, inr, arith, All,
}
use gopher_metal.Fat.Bytes.{
  Bytes, problem, struct_error, overflow_error, index_error, no_fuel, Result, ok, err, ◌>>=◌,
  >>=-eq-ok,
}
use gopher_metal.Fat.Volume.{Volume, volume}
use gopher_metal.Fat.Dirent.{Complaint}
use gopher_metal.Fat.Walk.{Found, Walk, walk}
use gopher_metal.Fat.Check.{check}
use gopher_metal.Fat.Check.Sound.{IsConsistent, check-IsConsistent}
use gopher_metal.Copy.Compare.{
  Source, Finding, of_check, on_volume, find_item, mtime_of, file_content, too_far, check_time,
  check_content, compare_found, near, near_finding, compare_item, compare_items, extras,
  insert_item, sort_items, text_le, compare,
}

map_nil : (ps : List Complaint) → map of_check ps ≡ [] → ps ≡ []
map_nil [] h = refl
map_nil (p ∷ ps) h = absurd (ground arith)

-- The time of an entry, and a time in nanoseconds at most two seconds from it.
pub record IsNear (vt mtime : ℕ) : Type 0 where
  pub not_after : vt * 10 ^ 9 ≤ mtime + 2 * 10 ^ 9
  pub not_before : mtime ≤ vt * 10 ^ 9 + 2 * 10 ^ 9

check_time-IsNear :
    (rel : Text) (m : Option ℕ) (t : ℕ)
    → check_time rel m t ≡ []
    → (vt : ℕ) × (m ≡ some vt) × IsNear vt t
unfolding check_time too_far
check_time-IsNear rel none t h = absurd (ground arith)
check_time-IsNear rel (some vt) t h =
    (vt, refl, record { not_after = ground arith; not_before = ground arith })

-- A file of the copy and the item of its name on a volume: the same size, a content of the same
-- digest, and a time at most two seconds off.
pub record SameFile (sha256 : Bytes → ℕ) (v : Volume) (m : Option ℕ) (s : Source) (f : Found)
    : Type 0 where
  pub size_is : f.bytes ≡ s.size
  pub content_is : (b : Bytes) × (file_content v f ≡ ok b) × (sha256 b ≡ s.digest)
  pub time_is : (vt : ℕ) × (m ≡ some vt) × IsNear vt s.mtime

-- The volume has the source under its name, as what it is.
pub record Agrees (sha256 : Bytes → ℕ) (v : Volume) (w : Walk) (there : List Found) (s : Source)
    : Type 0 where
  pub item : Found
  pub listed : find_item s.rel there ≡ some item
  pub kind_is : item.is_dir ≡ s.is_dir
  pub file_is : s.is_dir ≡ false → SameFile sha256 v (mtime_of s.rel w.mtime) s item

module _ (casefold : Text → Text) (sha256 : Bytes → ℕ) where
  check_content-nil :
      (rel : Text) (m : Option ℕ) (s : Source) (r : Result Bytes)
      → check_content casefold sha256 rel m s r ≡ ok []
      → (b : Bytes) × (r ≡ ok b) × (sha256 b ≡ s.digest) × (check_time rel m s.mtime ≡ [])
  unfolding check_content
  check_content-nil rel m s (ok b) h = (b, refl, ground arith, ground arith)
  check_content-nil rel m s (err (problem p)) h = absurd (ground arith)
  check_content-nil rel m s (err struct_error) h = absurd (ground arith)
  check_content-nil rel m s (err overflow_error) h = absurd (ground arith)
  check_content-nil rel m s (err index_error) h = absurd (ground arith)
  check_content-nil rel m s (err no_fuel) h = absurd (ground arith)

  compare_found-dir :
      (v : Volume) (m : Option ℕ) (s : Source) (f : Found)
      → compare_found casefold sha256 v m s f ≡ ok []
      → f.is_dir ≡ s.is_dir
  unfolding compare_found
  compare_found-dir v m s f h = ground arith

  compare_found-file :
      (v : Volume) (m : Option ℕ) (s : Source) (f : Found)
      → compare_found casefold sha256 v m s f ≡ ok []
      → s.is_dir ≡ false
      → SameFile sha256 v m s f
  unfolding compare_found
  compare_found-file v m s f h d =
      let same = compare_found-dir v m s f h in
      let size : f.bytes ≡ s.size = ground arith in
      let checked : check_content casefold sha256 s.rel m s (file_content v f) ≡ ok [] =
        ground arith in
      let (b, r, digest, t) = check_content-nil s.rel m s (file_content v f) checked in
      record {
        size_is = size;
        content_is = (b, r, digest);
        time_is = check_time-IsNear s.rel m s.mtime t;
      }

  pair_fst :
      {a b : List Finding} {c d : List Text}
      → ◌≡◌ {A = Result (List Finding × List Text)} (ok (a, c)) (ok (b, d))
      → a ≡ b
  pair_fst h = ground arith

  pair_snd :
      {a b : List Finding} {c d : List Text}
      → ◌≡◌ {A = Result (List Finding × List Text)} (ok (a, c)) (ok (b, d))
      → c ≡ d
  pair_snd h = ground arith

  near_finding-some : (rel : Text) (ns : List Text) → near_finding casefold sha256 rel ns ≢ []
  unfolding near_finding
  near_finding-some rel [] h = ground arith
  near_finding-some rel (n ∷ ns) h = ground arith

  compare_item-Agrees :
      (v : Volume) (w : Walk) (there : List Found) (s : Source) (seen : List Text)
      → compare_item casefold sha256 v w there s ≡ ok ([], seen)
      → Agrees sha256 v w there s × (seen ≡ s.rel ∷ [])
  unfolding compare_item
  compare_item-Agrees v w there s seen h = elim (Option-cases (find_item s.rel there)) [
    | inl absent ↦
        let e : near_finding casefold sha256 s.rel (near casefold sha256 (casefold s.rel) there)
            ≡ [] =
          ground arith in
        absurd (near_finding-some s.rel _ e)
    | inr (f, there_is) ↦
        let m = mtime_of s.rel w.mtime in
        let k : (do found ← compare_found casefold sha256 v m s f; ok (found, s.rel ∷ []))
            ≡ ok ([], seen) =
          ground arith in
        let (found, c, e) =
          >>=-eq-ok (compare_found casefold sha256 v m s f) _ {b = ([], seen)} k in
        let clean = c ∙ ap ok (pair_fst e) in
        (
          record {
            item = f;
            listed = there_is;
            kind_is = compare_found-dir v m s f clean;
            file_is = compare_found-file v m s f clean;
          },
          sym (pair_snd e),
        )
  ]

  compare_items-Agrees :
      (v : Volume) (w : Walk) (there : List Found) (ss : List Source) (seen : List Text)
      → compare_items casefold sha256 v w there ss ≡ ok ([], seen)
      → All (Agrees sha256 v w there) ss × (seen ≡ map (λ (s : Source). s.rel) ss)
  unfolding compare_items
  compare_items-Agrees v w there [] seen h = (tt, ground arith)
  compare_items-Agrees v w there (s ∷ ss) seen h =
      let ((f1, n1), c1, k) =
        >>=-eq-ok (compare_item casefold sha256 v w there s) _ {b = ([], seen)} h in
      let ((f2, n2), c2, e) =
        >>=-eq-ok (compare_items casefold sha256 v w there ss) _ {b = ([], seen)} k in
      let (z1, z2) = append_eq_nil f1 f2 (pair_fst e) in
      let (a, one) = compare_item-Agrees v w there s n1 (c1 ∙ ap (λ x. ok (x, n1)) z1) in
      let (all, more) = compare_items-Agrees v w there ss n2 (c2 ∙ ap (λ x. ok (x, n2)) z2) in
      ((a, all), sym (pair_snd e) ∙ ap (λ x. x ++ n2) one ∙ ap (λ x. s.rel ∷ x) more)

  extras-cons :
      (seen : List Text) (f : Found) (fs : List Found)
      → extras casefold sha256 seen (f ∷ fs) ≡ []
      → (text_in f.path seen ≡ true) × (extras casefold sha256 seen fs ≡ [])
  unfolding extras
  extras-cons seen f fs h = (ground arith, ground arith)

  extras-insert :
      (seen : List Text) (f : Found) (fs : List Found)
      → extras casefold sha256 seen (insert_item f fs) ≡ []
      → (text_in f.path seen ≡ true) × (extras casefold sha256 seen fs ≡ [])
  unfolding extras insert_item
  extras-insert seen f [] h = (ground arith, refl)
  extras-insert seen f (g ∷ gs) h = elim (Bool-cases (text_le f.path g.path)) [
    | inl first ↦ extras-cons seen f (g ∷ gs) (ground arith)
    | inr later ↦
        let (shown, rest) = extras-cons seen g (insert_item f gs) (unfold extras in ground arith) in
        let (here, more) = extras-insert seen f gs rest in (here, ground arith)
  ]

  extras-sort :
      (seen : List Text) (fs : List Found)
      → extras casefold sha256 seen (sort_items fs) ≡ []
      → All (λ f. text_in f.path seen ≡ true) fs
  unfolding sort_items
  extras-sort seen [] h = tt
  extras-sort seen (f ∷ fs) h =
      let (here, rest) = extras-insert seen f (sort_items fs) h in (here, extras-sort seen fs rest)

  -- Where a comparison has no finding, the image holds a consistent volume; each item of the copy is
  -- on it under its name, as the kind it is, a file with its size, a content of its digest and a time
  -- at most two seconds off; and each item that the volume lists has the name of one of the copy.
  pub compare-Agrees :
      (copy : List Source) (image : Bytes)
      → compare casefold sha256 copy image ≡ ok []
      → (v : Volume) × (w : Walk) × (volume image ≡ ok v)
        × IsConsistent casefold v w
        × (u : Walk) × (walk casefold v [] ≡ ok u)
        × All (Agrees sha256 v u (on_volume [] u.found)) copy
        × All (λ f. text_in f.path (map (λ (s : Source). s.rel) copy) ≡ true) (on_volume [] u.found)
  unfolding compare
  compare-Agrees copy image h =
      let (v, mounted, k) = >>=-eq-ok (volume image) _ {b = []} h in
      let ((problems, w), checked, k2) = >>=-eq-ok (check casefold v) _ {b = []} k in
      let (u, walked, k3) = >>=-eq-ok (walk casefold v []) _ {b = []} k2 in
      let there = on_volume [] u.found in
      let ((found, seen), items, e) =
        >>=-eq-ok (compare_items casefold sha256 v u there copy) _ {b = []} k3 in
      let (no_problem, rest) = append_eq_nil (map of_check problems) _ (ground arith) in
      let (none_found, none_extra) = append_eq_nil found _ rest in
      let (agree, names) =
        compare_items-Agrees v u there copy seen (items ∙ ap (λ x. ok (x, seen)) none_found) in
      (
        v,
        w,
        mounted,
        check-IsConsistent casefold v w
            (checked ∙ ap (λ x. ok (x, w)) (map_nil problems no_problem)),
        u,
        walked,
        agree,
        subst (λ (n : List Text). All (λ f. text_in f.path n ≡ true) there) names
            (extras-sort seen there none_extra),
      )
