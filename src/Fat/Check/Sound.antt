-- ===== src/Fat/Check/Sound.antt =====
-- A volume that `check` finds nothing in is consistent.
use gopher_metal.Prelude.Text.{Text}
use gopher_metal.Prelude.{
  append_eq_nil, ℕ, zero, suc, ◌+◌, ◌%◌, ◌≤◌, ◌<◌, ◌≡◌, ◌≢◌, refl, sym, ap, subst, ◌∙◌, true, not,
  ◌&&◌, ◌||◌, List, [], ◌∷◌, Option-cases, Bool-cases, inl, inr, arith, ==_iff, ◌==◌, if◌then◌else◌,
  contains, All,
}
use gopher_metal.Fat.Bytes.{
  Bytes, bytes_eq, same_below_at, Result, ok, err, problem, struct_error, overflow_error,
  index_error, no_fuel, ◌>>=◌, >>=-eq-ok,
}
use gopher_metal.Fat.Volume.{fat32, Volume, volume, bad, max_cluster, fat}
use gopher_metal.Fat.Dirent.{Complaint, media_byte}
use gopher_metal.Fat.Walk.Clean.{IsClean, walk-IsClean}
use gopher_metal.Fat.Check.Fields.{Fat32Fields, kind_problems-nil}
use gopher_metal.Fat.Walk.Lists.{Tree}
use gopher_metal.Fat.Walk.Whole.{walk-Tree}
use gopher_metal.Fat.Walk.Owners.{keys, owner_of-some}
use gopher_metal.Fat.Walk.{Walk, owner_of, walk}
use gopher_metal.Fat.Check.{
  differing, fat_copies, kind_problems, leaks_from, note_leaks, check, judge, verdict, is_empty,
  is_owned, note_if,
}

-- Two byte strings of the same bytes.
pub record SameBytes (a b : Bytes) : Type 0 where
  pub size_is : a.size ≡ b.size
  pub bytes_are : (i : ℕ) → i < a.size → a.at i ≡ b.at i

SameBytes-bytes_eq : (a b : Bytes) → bytes_eq a b ≡ true → SameBytes a b
SameBytes-bytes_eq a b h = record {
  size_is = ground arith;
  bytes_are = same_below_at a.size a b (ground arith);
}

-- Every copy of the FAT is the first.
abbrev pub AllSame : List Bytes → Type 0
AllSame [] = Unit
AllSame (f ∷ fs) = All (λ g. SameBytes g f) fs

abbrev Checked : Type 0
Checked = Result (List Complaint × Walk)

checked_fst :
    {xs ys : List Complaint} {w u : Walk} → ◌≡◌ {A = Checked} (ok (xs, w)) (ok (ys, u)) → xs ≡ ys
checked_fst h = ground arith

checked_snd :
    {xs ys : List Complaint} {w u : Walk} → ◌≡◌ {A = Checked} (ok (xs, w)) (ok (ys, u)) → w ≡ u
checked_snd h = ground arith

differing-same :
    (f : Bytes) (k : ℕ) (gs : List Bytes) → differing f k gs ≡ [] → All (λ g. SameBytes g f) gs
unfolding differing
differing-same f k [] h = tt
differing-same f k (g ∷ gs) h =
    let (one, more) = append_eq_nil _ (differing f (k + 1) gs) h in
    (SameBytes-bytes_eq g f (ground arith), differing-same f (k + 1) gs more)

fat_copies-same : (fs : List Bytes) → fat_copies fs ≡ [] → AllSame fs
unfolding fat_copies
fat_copies-same [] h = tt
fat_copies-same (f ∷ fs) h = differing-same f 2 fs h

-- Cluster `c` is free, bad or owned.
abbrev pub Accounted : Volume → List (ℕ × Text) → ℕ → Type 0
Accounted v owner c = (n : ℕ) → fat v c ≡ ok n → n ≢ 0 → n ≢ bad v → contains (keys owner) c ≡ true

leaks_from-here :
    (v : Volume) (owner : List (ℕ × Text)) (c n0 : ℕ) (more : List ℕ)
    → fat v c ≡ ok n0
    → (if not (n0 == 0 || n0 == bad v) && not (is_owned (owner_of owner c)) then c ∷ more else more)
      ≡ []
    → (more ≡ []) × Accounted v owner c
leaks_from-here v owner c n0 more f e = elim (Option-cases (owner_of owner c)) [
  | inl o ↦ (ground arith, λ n g z b. absurd (unfold is_owned in ground arith))
  | inr (path, o) ↦ (ground arith, λ n g z b. owner_of-some owner c path o)
]

leaks_from-Accounted :
    (v : Volume) (owner : List (ℕ × Text)) (c left : ℕ)
    → leaks_from v owner c left ≡ ok []
    → (d : ℕ) → c ≤ d
    → d < c + left
    → Accounted v owner d
unfolding leaks_from
leaks_from-Accounted v owner c zero h d lo hi = absurd (omega arith)
leaks_from-Accounted v owner c (suc left) h d lo hi =
    let (n0, f, k) = >>=-eq-ok (fat v c) _ {b = []} h in
    let (more, r, e) = >>=-eq-ok (leaks_from v owner (c + 1) left) _ {b = []} k in
    let (nil, here) = leaks_from-here v owner c n0 more f (ground arith) in
    elim (Bool-cases (d == c)) [
      | inl same ↦ subst (Accounted v owner) (sym ((==_iff d c).0 same)) here
      | inr other ↦
          leaks_from-Accounted v owner (c + 1) left (r ∙ ap ok nil) d (ground arith) (omega arith)
    ]

-- A consistent volume, with the walk of it: the copies of the FAT are the same, the first entry
-- carries the media byte, FAT32's fields and FSInfo are right, the walk has found exactly the tree of the
-- root directory, each item has its own clusters, and no cluster is used without an owner.
pub record IsConsistent (casefold : Text → Text) (v : Volume) (w : Walk) : Type 0 where
  pub copies : AllSame v.fats
  pub media : (n : ℕ) → fat v 0 ≡ ok n → n % 256 ≡ v.img.at (v.base + 21)
  pub fields : v.kind ≡ fat32 → Fat32Fields v
  pub tree : Tree casefold v [] 0 0 w.found
  pub walk_clean : IsClean v w
  pub accounted : (c : ℕ) → 2 ≤ c → c ≤ max_cluster v → Accounted v w.owner c

note_leaks-nil : (cs : List ℕ) → note_leaks cs ≡ [] → cs ≡ []
unfolding note_leaks
note_leaks-nil [] h = refl
note_leaks-nil (c ∷ cs) h = absurd (ground arith)

media_test :
    (v : Volume) (m : ℕ)
    → fat v 0 ≡ ok m
    → note_if (not (m % 256 == v.img.at (v.base + 21))) media_byte ≡ []
    → (n : ℕ) → fat v 0 ≡ ok n
    → n % 256 ≡ v.img.at (v.base + 21)
media_test v m f h n g = let same : m ≡ n = ground arith in rw (← same) (ground arith)

is_empty-nil : (ps : List Complaint) → is_empty ps ≡ true → ps ≡ []
unfolding is_empty
is_empty-nil [] h = refl
is_empty-nil (p ∷ ps) h = absurd (ground arith)

verdict-true :
    (r : Result (List Complaint × Walk)) → verdict r ≡ ok true → (w : Walk) × (r ≡ ok ([], w))
unfolding verdict
verdict-true (ok (ps, w)) h =
    (w, ap (λ (l : List Complaint). ok (l, w)) (is_empty-nil ps (ground arith)))
verdict-true (err (problem p)) h = absurd (ground arith)
verdict-true (err struct_error) h = absurd (ground arith)
verdict-true (err overflow_error) h = absurd (ground arith)
verdict-true (err index_error) h = absurd (ground arith)
verdict-true (err no_fuel) h = absurd (ground arith)

module _ (casefold : Text → Text) where
  -- A volume in which `check` finds nothing is consistent, with the walk that `check` made.
  pub check-IsConsistent :
      (v : Volume) (w : Walk) → check casefold v ≡ ok ([], w) → IsConsistent casefold v w
  unfolding check
  check-IsConsistent v w h =
      let (m, f, k) = >>=-eq-ok (fat v 0) _ {b = ([], w)} h in
      let (more, kp, k2) = >>=-eq-ok (kind_problems v.kind v) _ {b = ([], w)} k in
      let (w1, wk, k3) = >>=-eq-ok (walk casefold v _) _ {b = ([], w)} k2 in
      let (leaks, lk, e) = >>=-eq-ok (leaks_from v w1.owner 2 v.clusters) _ {b = ([], w)} k3 in
      let (clean, no_leaks) = append_eq_nil w1.problems (note_leaks leaks) (checked_fst e) in
      let (before, tidy) = walk-IsClean casefold v _ w1 wk clean in
      let (copies, rest) = append_eq_nil (fat_copies v.fats) _ before in
      let (med, none_more) = append_eq_nil _ more rest in
      let same : w1 ≡ w = checked_snd e in
      subst (IsConsistent casefold v) same (record {
        copies = fat_copies-same v.fats copies;
        media = media_test v m f med;
        fields = kind_problems-nil v.kind v (kp ∙ ap ok none_more);
        tree = walk-Tree casefold v _ w1 wk clean;
        walk_clean = tidy;
        accounted = λ c lo hi.
            leaks_from-Accounted v w1.owner 2 v.clusters
              (lk ∙ ap ok (note_leaks-nil leaks no_leaks)) c lo (omega arith);
      })

  -- Where the command line says "ok" of an image, the image holds a volume, the check of it finds
  -- nothing and leaves a walk, and with that walk the volume is consistent: the copies of the FAT
  -- are the same, its first entry carries the media byte, FAT32's fields and FSInfo are right, the
  -- items that the walk found are exactly the tree that the root directory's clusters spell, in
  -- which no two names of a directory are one whatever their case, every directory but the root has
  -- a `.` and a `..`, each such entry stands for the cluster that it names, directories have size 0
  -- and no entry gives a complaint, each directory and each file that is not empty has the chain
  -- from its first cluster and a file as many clusters as its size asks for, no cluster is owned
  -- twice, and every cluster is free, bad or owned.
  pub judge-IsConsistent :
      (img : Bytes)
      → judge casefold img ≡ ok true
      → (v : Volume) × (w : Walk) × (volume img ≡ ok v)
        × (check casefold v ≡ ok ([], w))
        × IsConsistent casefold v w
  judge-IsConsistent img h =
      let (w, e) = verdict-true (volume img >>= check casefold) (unfold judge in h) in
      let (v, m, c) = >>=-eq-ok (volume img) (check casefold) {b = ([], w)} e in
      (v, w, m, c, check-IsConsistent v w c)
