-- ===== src/Tree/Check/Entries.antt =====
-- An entry has no finding exactly when it fits.
use gopher_metal.Prelude.{
  ◌+◌, ◌≡◌, refl, ◌⊎◌, ◌↔◌, inl, inr, Bool, true, false, not, ◌||◌, List, [], ◌∷◌, arith, ltb,
  append_eq_nil, append_of_nil, All,
}
use gopher_metal.Prelude.Text.{Text, text_eq, text_eq_sound, text_eq_refl}
use gopher_metal.Tree.Names.{vfat_name, utf16_units, fs_length, has_forbidden, has_non_ascii, count}
use gopher_metal.Tree.Paths.{
  Rule, forbidden_character, trailing_dot_or_space, non_ascii, long_name, long_path, deep, date,
  too_big, hard_link, not_the_apps, max_name,
}
use gopher_metal.Tree.Check.{
  Kind, regular, directory, link, special, Seconds, since, before_1970, Entry, note_if, join,
  is_foreign, vfat_max_name, max_path, max_tree_depth, max_file, is_undated, name_findings,
  file_findings, kind_findings, entry_findings, entries_findings,
}
use gopher_metal.Tree.Check.Fits.{NameFits, PathFits, TimeFits, FileFits, EntryFits}

note_if-nil : (b : Bool) (rel : Text) (r : Rule) → note_if b rel r ≡ [] → b ≡ false
note_if-nil b rel r h = ground arith

nil-note_if : (b : Bool) (rel : Text) (r : Rule) → b ≡ false → note_if b rel r ≡ []
nil-note_if b rel r h = simp h

is_undated-TimeFits : (t : Seconds) → is_undated t ≡ false → TimeFits t
unfolding is_undated
is_undated-TimeFits (since s) h = record {
  seconds = s;
  time_is = refl;
  from = ground arith;
  until = ground arith;
}
is_undated-TimeFits (before_1970 s) h = absurd (ground arith)

TimeFits-is_undated : (t : Seconds) → TimeFits t → is_undated t ≡ false
unfolding is_undated
TimeFits-is_undated (since s) h = ground arith
TimeFits-is_undated (before_1970 s) h = absurd (ground (arith, h.time_is))

-- What the tests of a name, its path and its time find nothing of.
abbrev Fits : Text → Entry → Type 0
Fits rel e = NameFits e.name × PathFits rel × TimeFits e.mtime

name_findings-Fits : (rel : Text) (e : Entry) → name_findings rel e ≡ [] → Fits rel e
unfolding name_findings
name_findings-Fits rel e h =
    let (a, k1) = append_eq_nil (note_if (has_forbidden e.name) rel forbidden_character) _ h in
    let (b, k2) =
      append_eq_nil (note_if (not (text_eq (vfat_name e.name) e.name)) rel trailing_dot_or_space) _
        k1 in
    let (c, k3) = append_eq_nil (note_if (has_non_ascii e.name) rel non_ascii) _ k2 in
    let (d, k4) =
      append_eq_nil
        (note_if (ltb vfat_max_name (utf16_units e.name) || ltb max_name (fs_length e.name)) rel
          long_name)
        _ k3 in
    let (p, k5) = append_eq_nil (note_if (ltb max_path (fs_length rel)) rel long_path) _ k4 in
    let (q, t) = append_eq_nil (note_if (ltb max_tree_depth (count b'/' rel + 1)) rel deep) _ k5 in
    let short = note_if-nil _ rel long_name d in
    let same : text_eq (vfat_name e.name) e.name ≡ true =
      let x = note_if-nil _ rel trailing_dot_or_space b in ground arith in
    let p' = note_if-nil _ rel long_path p in
    let q' = note_if-nil _ rel deep q in
    (
      record {
        allowed = note_if-nil _ rel forbidden_character a;
        kept = text_eq_sound (vfat_name e.name) e.name same;
        ascii = note_if-nil _ rel non_ascii c;
        units = ground arith;
        bytes = ground arith;
      },
      record { bytes = ground arith; depth = ground arith },
      is_undated-TimeFits e.mtime (note_if-nil _ rel date t),
    )

Fits-name_findings : (rel : Text) (e : Entry) → Fits rel e → name_findings rel e ≡ []
unfolding name_findings
Fits-name_findings rel e (n, p, t) =
    let same : text_eq (vfat_name e.name) e.name ≡ true = rw n.kept (text_eq_refl e.name) in
    let short : (ltb vfat_max_name (utf16_units e.name) || ltb max_name (fs_length e.name))
        ≡ false =
      let u = n.units in let b = n.bytes in ground arith in
    let a : ltb max_path (fs_length rel) ≡ false = let b = p.bytes in ground arith in
    let d : ltb max_tree_depth (count b'/' rel + 1) ≡ false = let b = p.depth in ground arith in
    let u = TimeFits-is_undated e.mtime t in simp (n.allowed, same, n.ascii, short, a, d, u)

file_findings-FileFits : (rel : Text) (e : Entry) → file_findings rel e ≡ [] → FileFits e
unfolding file_findings
file_findings-FileFits rel e h =
    let (a, b) = append_eq_nil (note_if (ltb max_file e.size) rel too_big) _ h in
    let a' = note_if-nil _ rel too_big a in
    let b' = note_if-nil _ rel hard_link b in
    record { size_fits = ground arith; one_name = ground arith }

FileFits-file_findings : (rel : Text) (e : Entry) → FileFits e → file_findings rel e ≡ []
unfolding file_findings
FileFits-file_findings rel e f =
    let a : ltb max_file e.size ≡ false = let s = f.size_fits in ground arith in
    let b : ltb 1 e.links ≡ false = let s = f.one_name in ground arith in simp (a, b)

abbrev KindFits : Kind → Text → Entry → Type 0
KindFits k rel e = Fits rel e × ((k ≡ directory) ⊎ ((k ≡ regular) × FileFits e))

kind_findings-KindFits :
    (k : Kind) (rel : Text) (e : Entry) → kind_findings k rel e ≡ [] → KindFits k rel e
unfolding kind_findings
kind_findings-KindFits link rel e h = absurd (ground arith)
kind_findings-KindFits special rel e h = absurd (ground arith)
kind_findings-KindFits directory rel e h = (name_findings-Fits rel e h, inl refl)
kind_findings-KindFits regular rel e h =
    let (a, b) = append_eq_nil (name_findings rel e) _ h in
    (name_findings-Fits rel e a, inr (refl, file_findings-FileFits rel e b))

KindFits-kind_findings :
    (k : Kind) (rel : Text) (e : Entry) → KindFits k rel e → kind_findings k rel e ≡ []
unfolding kind_findings
KindFits-kind_findings link rel e (f, inl d) = absurd (ground arith)
KindFits-kind_findings link rel e (f, inr (r, _)) = absurd (ground arith)
KindFits-kind_findings special rel e (f, inl d) = absurd (ground arith)
KindFits-kind_findings special rel e (f, inr (r, _)) = absurd (ground arith)
KindFits-kind_findings directory rel e (f, _) = Fits-name_findings rel e f
KindFits-kind_findings regular rel e (f, inl d) = absurd (ground arith)
KindFits-kind_findings regular rel e (f, inr (r, x)) =
    append_of_nil (name_findings rel e) _ (Fits-name_findings rel e f)
      (FileFits-file_findings rel e x)

pub entry_findings-EntryFits :
    (rel_top : Text) (e : Entry) → entry_findings rel_top e ≡ [] → EntryFits rel_top e
unfolding entry_findings
entry_findings-EntryFits rel_top e h =
    let rel = join rel_top e.name in
    let (a, b) = append_eq_nil (note_if (is_foreign rel_top rel) rel not_the_apps) _ h in
    let ((n, p, t), k) = kind_findings-KindFits e.kind rel e b in
    record {
      known = note_if-nil _ rel not_the_apps a;
      kind_fits = k;
      name_fits = n;
      path_fits = p;
      time_fits = t;
    }

pub EntryFits-entry_findings :
    (rel_top : Text) (e : Entry) → EntryFits rel_top e → entry_findings rel_top e ≡ []
unfolding entry_findings
EntryFits-entry_findings rel_top e f =
    let rel = join rel_top e.name in
    append_of_nil (note_if (is_foreign rel_top rel) rel not_the_apps) _
      (nil-note_if _ rel not_the_apps f.known)
      (KindFits-kind_findings e.kind rel e ((f.name_fits, f.path_fits, f.time_fits), f.kind_fits))

pub entries_findings_iff :
    (rel_top : Text) (es : List Entry)
    → (entries_findings rel_top es ≡ []) ↔ All (EntryFits rel_top) es
unfolding entries_findings
entries_findings_iff rel_top [] = (λ h. tt, λ h. refl)
entries_findings_iff rel_top (e ∷ es) = (
  λ h.
      let (a, b) = append_eq_nil (entry_findings rel_top e) _ h in
      (entry_findings-EntryFits rel_top e a, (entries_findings_iff rel_top es).0 b),
  λ h.
      append_of_nil (entry_findings rel_top e) _ (EntryFits-entry_findings rel_top e h.0)
        ((entries_findings_iff rel_top es).1 h.1),
)
