-- ===== src/Backup/Whole.antt =====
-- An archive without a problem is one whose manifest has the lines that its files ask for.
use gopher_metal.Prelude.{
  ℕ, suc, ◌≡◌, ◌↔◌, ◌⊎◌, inl, inr, refl, sym, ap, ◌∙◌, Bool, true, false, not, List, [], ◌∷◌, ◌++◌,
  map, Option, none, some, length, All, Bool-cases, Option-cases, append_eq_nil, arith, ◌==◌,
  if◌then◌else◌,
}
use gopher_metal.Prelude.Text.{Text, codes, text_eq, text_eq_sound, text_eq_refl}
use gopher_metal.Prelude.Decimal.{decimal, decimal-IsDigit, IsDigit}
use gopher_metal.Backup.Lines.{
  lines_of, split_three, NoSpace, joined, split_three-append, split_three-NoSpace,
}
use gopher_metal.Backup.{
  Member, manifest, head, bad_end, bad_count, end_line, split_last, judge_parts, judge_lines,
  judge_listed, listed_end, judge_manifest, holds_nothing, judge_members, check,
}

-- <sha256> <size> <path>
abbrev pub line_of : (Text → Text) → Member → Text
line_of sha256 (name, bytes) = joined (sha256 bytes) (decimal (length bytes)) name

-- the lines that the manifest of the files has
abbrev pub manifest_lines : (Text → Text) → List Member → List Text
manifest_lines sha256 files = head ∷ (map (line_of sha256) files ++ (end_line files ∷ []))

-- The file members end with the manifest, whose lines are those of the files before it; of no file at all
-- the end line alone will do.
abbrev pub IsWhole : (Text → Text) → (Text → Text) → List Member → Type 0
IsWhole decode sha256 members =
    (files : List Member) × (bytes : Text) × (members ≡ files ++ ((manifest, bytes) ∷ []))
    × ((lines_of (decode bytes) ≡ manifest_lines sha256 files)
        ⊎ ((files ≡ []) × (lines_of (decode bytes) ≡ codes "end: 0 files, 0 bytes" ∷ [])))

split_last-append :
    {A : Type 0} (xs : List A) (front : List A) (last : A)
    → split_last xs ≡ some (front, last)
    → xs ≡ front ++ (last ∷ [])
unfolding split_last
split_last-append [] front last h = absurd (ground arith)
split_last-append (x ∷ []) front last h =
    let f : [] ≡ front = ground arith in
    let l : x ≡ last = ground arith in ap (λ y. y ∷ []) l ∙ ap (λ g. g ++ (last ∷ [])) f
split_last-append (x ∷ y ∷ rest) front last h = elim (Option-cases (split_last (y ∷ rest))) [
  | inl e ↦ absurd (ground (arith, e, h))
  | inr ((f, l), e) ↦
      let r = split_last-append (y ∷ rest) f l e in
      let g : x ∷ f ≡ front = ground (arith, e, h) in
      let k : l ≡ last = ground (arith, e, h) in
      ap (λ t. x ∷ t) r ∙ ap (λ z. (x ∷ f) ++ (z ∷ [])) k ∙ ap (λ t. t ++ (last ∷ [])) g
]

append-split_last :
    {A : Type 0} (front : List A) (last : A)
    → split_last (front ++ (last ∷ [])) ≡ some (front, last)
unfolding split_last
append-split_last [] last = refl
append-split_last (x ∷ []) last = refl
append-split_last (x ∷ y ∷ rest) last = let r = append-split_last (y ∷ rest) last in simp r

digits-NoSpace : (t : Text) → All IsDigit t → NoSpace t
digits-NoSpace [] h = tt
digits-NoSpace (c ∷ cs) h = (ground (arith, h.0), digits-NoSpace cs h.1)

judge_parts-some :
    (sha256 : Text → Text) (n : ℕ) (name bytes : Text) (parts : Option (Text × Text × Text))
    → judge_parts sha256 n (name, bytes) parts ≡ []
    → parts ≡ some (sha256 bytes, decimal (length bytes), name)
unfolding judge_parts
judge_parts-some sha256 n name bytes none h = absurd (ground arith)
judge_parts-some sha256 n name bytes (some (sha, size, path)) h =
    let p = text_eq_sound path name (ground arith) in
    let s = text_eq_sound size (decimal (length bytes)) (ground arith) in
    let d = text_eq_sound sha (sha256 bytes) (ground arith) in cc (p, s, d)

holds_nothing_sound :
    (files : List Member) (lines : List Text)
    → holds_nothing files lines ≡ true
    → (files ≡ []) × (lines ≡ codes "end: 0 files, 0 bytes" ∷ [])
unfolding holds_nothing
holds_nothing_sound [] [] h = absurd (ground arith)
holds_nothing_sound [] (line ∷ []) h =
    (refl, ap (λ l. l ∷ []) (text_eq_sound line (codes "end: 0 files, 0 bytes") h))
holds_nothing_sound [] (line ∷ other ∷ lines) h = absurd (ground arith)
holds_nothing_sound (file ∷ files) lines h = absurd (ground arith)

if-nil : {A : Type 0} (b : Bool) (xs : List A) → xs ≡ [] → (if b then [] else xs) ≡ []
if-nil true xs h = refl
if-nil false xs h = h

length-map : {A B : Type 0} (f : A → B) (xs : List A) → length (map f xs) ≡ length xs
length-map f [] = refl
length-map f (x ∷ xs) = ap suc (length-map f xs)

module _ (sha256 : Text → Text) (hex : (t : Text) → NoSpace (sha256 t)) where
  judge_lines-map :
      (n : ℕ) (files : List Member) (listed : List Text)
      → length listed ≡ length files
      → judge_lines sha256 n files listed ≡ []
      → listed ≡ map (line_of sha256) files
  unfolding judge_lines
  judge_lines-map n [] [] k h = refl
  judge_lines-map n [] (line ∷ listed) k h = absurd (omega (arith, k))
  judge_lines-map n (member ∷ files) [] k h = absurd (omega (arith, k))
  judge_lines-map n ((name, bytes) ∷ files) (line ∷ listed) k h =
      let (first, rest) =
        append_eq_nil (judge_parts sha256 n (name, bytes) (split_three line))
          (judge_lines sha256 (suc n) files listed) h in
      let parts = judge_parts-some sha256 n name bytes (split_three line) first in
      let e = split_three-append line (sha256 bytes) (decimal (length bytes)) name parts in
      let r = judge_lines-map (suc n) files listed (omega (arith, k)) rest in
      ap (λ l. l ∷ listed) e ∙ ap (λ ls. line_of sha256 (name, bytes) ∷ ls) r

  map-judge_lines :
      (n : ℕ) (files : List Member) → judge_lines sha256 n files (map (line_of sha256) files) ≡ []
  unfolding judge_lines judge_parts
  map-judge_lines n [] = refl
  map-judge_lines n ((name, bytes) ∷ files) =
      let parts =
        split_three-NoSpace (sha256 bytes) (decimal (length bytes)) name (hex bytes)
          (digits-NoSpace (decimal (length bytes)) (decimal-IsDigit (length bytes))) in
      let rest = map-judge_lines (suc n) files in
      simp (
        parts,
        text_eq_refl name,
        text_eq_refl (decimal (length bytes)),
        text_eq_refl (sha256 bytes),
        rest,
      )

  judge_listed-map :
      (files : List Member) (listed : List Text) (end : Text)
      → judge_listed sha256 files listed end ≡ []
      → (listed ≡ map (line_of sha256) files) × (end ≡ end_line files)
  unfolding judge_listed
  judge_listed-map files listed end h =
      let bad_ends = if not (text_eq end (end_line files)) then bad_end ∷ [] else [] in
      let bad_counts = if not (length listed == length files) then bad_count ∷ [] else [] in
      let (e, rest) = append_eq_nil bad_ends (bad_counts ++ judge_lines sha256 1 files listed) h in
      let (c, l) = append_eq_nil bad_counts (judge_lines sha256 1 files listed) rest in
      let many : length listed ≡ length files = ground arith in
      let last : text_eq end (end_line files) ≡ true = ground arith in
      (judge_lines-map 1 files listed many l, text_eq_sound end (end_line files) last)

  map-judge_listed :
      (files : List Member)
      → judge_listed sha256 files (map (line_of sha256) files) (end_line files) ≡ []
  unfolding judge_listed
  map-judge_listed files =
      let l = map-judge_lines 1 files in
      let many : length (map (line_of sha256) files) ≡ length files =
        length-map (line_of sha256) files in
      let e = text_eq_refl (end_line files) in ground (arith, l, many, e)

  not_empty : (files : List Member) → [] ≡ end_line files → ⊥
  unfolding end_line
  not_empty files h = ground arith

  manifest_of :
      (files : List Member) (lines : List Text)
      → judge_manifest sha256 files lines ≡ []
      → lines ≡ manifest_lines sha256 files
  unfolding judge_manifest listed_end
  manifest_of files [] h = absurd (ground arith)
  manifest_of files (first ∷ rest) h = elim (Option-cases (split_last rest)) [
    | inl e ↦
        let (l, k) = judge_listed-map files [] [] (ground (arith, e, h)) in
        absurd (not_empty files k)
    | inr ((listed, end), e) ↦
        let (l, k) = judge_listed-map files listed end (ground (arith, e, h)) in
        let f = text_eq_sound first head (ground (arith, e, h)) in
        let r = split_last-append rest listed end e in
        ap (λ x. x ∷ rest) f
        ∙ ap (λ x. head ∷ x)
            (r ∙ ap (λ x. x ++ (end ∷ [])) l ∙ ap (λ x. map (line_of sha256) files ++ (x ∷ [])) k)
  ]

  of_manifest :
      (files : List Member) → judge_manifest sha256 files (manifest_lines sha256 files) ≡ []
  unfolding judge_manifest listed_end
  of_manifest files =
      let s = append-split_last (map (line_of sha256) files) (end_line files) in
      let l = map-judge_listed files in let f = text_eq_refl head in simp (s, f, l)

  module _ (decode : Text → Text) where
    judge_members-IsWhole :
        (members files : List Member) (name bytes : Text)
        → split_last members ≡ some (files, (name, bytes))
        → judge_members decode sha256 (some (files, (name, bytes))) ≡ []
        → IsWhole decode sha256 members
    unfolding judge_members
    judge_members-IsWhole members files name bytes e h =
        let n : name ≡ manifest = text_eq_sound name manifest (ground arith) in
        let m =
          split_last-append members files (name, bytes) e
          ∙ ap (λ x. files ++ ((x, bytes) ∷ [])) n in
        elim (Bool-cases (holds_nothing files (lines_of (decode bytes)))) [
          | inl k ↦ (files, bytes, m, inr (holds_nothing_sound files (lines_of (decode bytes)) k))
          | inr k ↦ (
            files,
            bytes,
            m,
            inl (manifest_of files (lines_of (decode bytes)) (ground (arith, k, h))),
          )
        ]

    IsWhole-judge_members :
        (files : List Member) (bytes : Text)
        → (lines_of (decode bytes) ≡ manifest_lines sha256 files)
          ⊎ ((files ≡ []) × (lines_of (decode bytes) ≡ codes "end: 0 files, 0 bytes" ∷ []))
        → judge_members decode sha256 (some (files, (manifest, bytes))) ≡ []
    unfolding judge_members
    IsWhole-judge_members files bytes (inl e) =
        let body =
          if-nil (holds_nothing files (lines_of (decode bytes)))
            (judge_manifest sha256 files (lines_of (decode bytes)))
            (ap (judge_manifest sha256 files) e ∙ of_manifest files) in
        let same = text_eq_refl manifest in simp (same, body)
    IsWhole-judge_members files bytes (inr (f, e)) =
        let same = text_eq_refl manifest in
        let nothing : holds_nothing files (lines_of (decode bytes)) ≡ true =
          ap (λ x. holds_nothing x (lines_of (decode bytes))) f
          ∙ ap (holds_nothing []) e
          ∙ (unfold holds_nothing in text_eq_refl (codes "end: 0 files, 0 bytes")) in
        simp (same, nothing)

    forth :
        (members : List Member)
        → check decode sha256 (some members) ≡ []
        → IsWhole decode sha256 members
    unfolding check judge_members
    forth members h = elim (Option-cases (split_last members)) [
      | inl e ↦ absurd (ground (arith, e, h))
      | inr ((files, (name, bytes)), e) ↦
          judge_members-IsWhole members files name bytes e
            (ap (judge_members decode sha256) (sym e) ∙ h)
    ]

    -- An archive has no problem exactly where it is a tar that is whole.
    pub backup_iff :
        (archive : Option (List Member))
        → (check decode sha256 archive ≡ [])
          ↔ ((members : List Member) × (archive ≡ some members) × IsWhole decode sha256 members)
    unfolding check
    backup_iff none = (λ h. absurd (ground arith), λ h. absurd (ground (arith, h.1)))
    backup_iff (some members) = (
      λ h. (members, refl, forth members h),
      λ h.
          (let (m, e, (files, bytes, k, lines)) = h in
            let same : members ≡ m = ground arith in
            ap (λ x. judge_members decode sha256 (split_last x)) (same ∙ k)
            ∙ ap (judge_members decode sha256) (append-split_last files (manifest, bytes))
            ∙ IsWhole-judge_members files bytes lines),
    )
