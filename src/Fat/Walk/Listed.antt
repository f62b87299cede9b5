-- ===== src/Fat/Walk/Listed.antt =====
-- What each step of a walk with no complaint adds to the list.
use Prim.Native.Nat.{bit_and}
use gopher_metal.Prelude.Text.{Text, text_eq, text_in}
use gopher_metal.Prelude.{
  ℕ, ◌≡◌, refl, sym, ap, subst, ◌∙◌, Bool, true, false, List, [], ◌∷◌, ◌++◌, append-nil,
  append_assoc, Option, none, some, Bool-cases, inl, inr, arith, ◌==◌, if◌then◌else◌, not,
}
use gopher_metal.Fat.Bytes.{Bytes, Result, ok, ◌>>=◌, >>=-eq-ok}
use gopher_metal.Fat.Volume.{Volume}
use gopher_metal.Fat.Dirent.{
  Complaint, sized_directory, no_directory_cluster, duplicate, dot_target, dotdot_target,
}
use gopher_metal.Fat.Entries.{Entry, Parts, entry_step, under}
use gopher_metal.Fat.Walk.Owners.{own-Owned, complain-problems}
use gopher_metal.Fat.Walk.Items.{DownClean, enter-Clean}
use gopher_metal.Fat.Walk.Clean.{ok_pair, pair_with, visit_entries-Clean}
use gopher_metal.Fat.Walk.Lists.{
  is_dots, is_folder, and_then, spelled, file_item, folder_item, Tree, Branches, no_more, next,
  Branch, this_one, above, leaf, folder, own_found, visit_file_found,
}
use gopher_metal.Fat.Walk.{
  Found, Walk, Seen, complain, list, own, visit_file, enter, visit_dir, visit_entry, visit_yielded,
  visit_entries, set_mtime, or_slash,
}

-- From `w` to `w'` the items of the list are added.
abbrev pub Adds : (List Found → Type 0) → Walk → Walk → Type 0
Adds P w w' = (fs : List Found) × (w'.found ≡ w.found ++ fs) × P fs

-- What is visited below lists its tree, where it ends with no complaint.
abbrev pub DownLists : (Text → Text) → Volume → (ℕ → Text → Walk → Result Walk) → ℕ → Type 0
DownLists casefold v down first =
    (fc : ℕ) (full : Text) (w w' : Walk)
    → down fc full w ≡ ok w'
    → w'.problems ≡ []
    → Adds (Tree casefold v full fc first) w w'

pub if_found :
    (b : Bool) (w : Walk) (p : Complaint) → (if b then complain w p else w).found ≡ w.found
if_found true w p = refl
if_found false w p = refl

same_number : (a b : ℕ) → not (a == b) ≡ false → a ≡ b
same_number a b h = ground arith

pub if_silent :
    (b : Bool) (w : Walk) (p : Complaint)
    → (if b then complain w p else w).problems ≡ []
    → b ≡ false
if_silent true w p h = absurd (complain-problems w p h)
if_silent false w p h = refl

module _ (casefold : Text → Text) (v : Volume) (down : ℕ → Text → Walk → Result Walk) where
  enter-lists :
      (path : Text) (first parent : ℕ) (e : Entry) (w : Walk) (got : Option (List ℕ)) (w1 w' : Walk)
      → DownLists casefold v down first
      → is_dots e.name ≡ false
      → is_folder e ≡ true
      → e.size ≡ 0
      → own v (under path e.name) e.first w ≡ ok (got, w1)
      → enter (down e.first) (under path e.name) e.first (got, w1) ≡ ok w'
      → w'.problems ≡ []
      → Adds (Branch casefold v path first parent e) w w'
  unfolding enter
  enter-lists path first parent e w none w1 w' below d f z o h clean =
      let same : w1 ≡ w' = ground arith in
      let (cs, bad, x) =
        own-Owned v (under path e.name) e.first w none w1 o
          (subst (λ (u : Walk). u.problems ≡ []) (sym same) clean) in
      absurd (ground arith)
  enter-lists path first parent e w (some cs) w1 w' below d f z o h clean =
      let item = folder_item path e in
      let (fs, added, tree) = below e.first (under path e.name) (list w1 item) w' h clean in
      (
        item ∷ fs,
        added
            ∙ append_assoc w1.found (item ∷ []) fs
            ∙ ap (λ l. l ++ (item ∷ fs)) (own_found v (under path e.name) e.first w w1 (some cs) o),
        folder d f z tree,
      )

  visit_dir-lists :
      (path : Text) (first parent : ℕ) (e : Entry) (w w' : Walk)
      → DownLists casefold v down first
      → is_dots e.name ≡ false
      → is_folder e ≡ true
      → DownClean v down
      → visit_dir down v (under path e.name) e w ≡ ok w'
      → w'.problems ≡ []
      → Adds (Branch casefold v path first parent e) w w'
  unfolding visit_dir
  visit_dir-lists path first parent e w w' below d f keeps h clean =
      let full = under path e.name in
      let w1 : Walk = if not (e.size == 0) then complain w (sized_directory full) else w in
      elim (Bool-cases (e.first == 0)) [
        | inl q ↦
            let same : complain w1 (no_directory_cluster full) ≡ w' = ground arith in
            absurd (
              complain-problems w1 (no_directory_cluster full)
                (subst (λ (u : Walk). u.problems ≡ []) (sym same) clean))
        | inr q ↦
            let ((got, w2), o, k) =
              >>=-eq-ok (own v full e.first w1) (enter (down e.first) full e.first) {b = w'}
                (ground arith) in
            let before = (enter-Clean v down full e.first w1 got w2 w' keeps o k clean).was in
            let sized = if_silent (not (e.size == 0)) w (sized_directory full) before in
            let (fs, added, branch) =
              enter-lists path first parent e w1 got w2 w' below d f (ground arith) o k clean in
            (
              fs,
              added ∙ ap (λ l. l ++ fs) (if_found (not (e.size == 0)) w (sized_directory full)),
              branch,
            )
      ]

  visit_entry-lists :
      (first : ℕ) (path : Text) (parent : ℕ) (e : Entry) (s s' : Seen) (w w' : Walk)
      → DownLists casefold v down first
      → DownClean v down
      → visit_entry casefold down v first path parent e s w ≡ ok (s', w')
      → w'.problems ≡ []
      → Adds (Branch casefold v path first parent e) w w'
  visit_entry-lists first path parent e s s' w w' below keeps h clean =
      let full = under path e.name in
      let m = set_mtime full e.mtime w.mtime in
      let dup = text_in (casefold e.name) s.names in
      let w1 : Walk = record w { mtime = m } in
      let w2 : Walk = if dup then complain w1 (duplicate full) else w1 in
      let s2 : Seen = record s { names = casefold e.name ∷ s.names } in
      let named : w2.found ≡ w.found = if_found dup w1 (duplicate full) in
      elim (Bool-cases (text_eq e.name (b'.' ∷ []))) [
        | inl p ↦
            let same : (if not (e.first == first) then complain w (dot_target path) else w) ≡ w' =
              unfold visit_entry in ground arith in
            (
              [],
              ap (λ (u : Walk). u.found) (sym same)
                  ∙ if_found (not (e.first == first)) w (dot_target path)
                  ∙ sym (append-nil w.found),
              this_one p (
                  same_number e.first first (
                    if_silent (not (e.first == first)) w (dot_target path)
                      (ap (λ (u : Walk). u.problems) same ∙ clean))),
            )
        | inr p ↦ elim (Bool-cases (text_eq e.name (b'.' ∷ b'.' ∷ []))) [
          | inl q ↦
              let same : (if not (e.first == parent) then complain w (dotdot_target path) else w)
                  ≡ w' =
                unfold visit_entry in ground arith in
              (
                [],
                ap (λ (u : Walk). u.found) (sym same)
                    ∙ if_found (not (e.first == parent)) w (dotdot_target path)
                    ∙ sym (append-nil w.found),
                above q (
                    same_number e.first parent (
                      if_silent (not (e.first == parent)) w (dotdot_target path)
                        (ap (λ (u : Walk). u.problems) same ∙ clean))),
              )
          | inr q ↦ elim (Bool-cases (bit_and e.attr 0x10 == 0)) [
            | inl r ↦
                let did : (visit_file v full e w2 >>= pair_with s2) ≡ pair_with s' w' =
                  unfold visit_entry in ground arith in
                let (u, k, same) = >>=-eq-ok (visit_file v full e w2) (pair_with s2) did in
                (
                  file_item path e ∷ [],
                  ap (λ (x : Walk). x.found) (sym (ok_pair same))
                      ∙ visit_file_found v path e w2 u k
                      ∙ ap (λ l. l ++ (file_item path e ∷ [])) named,
                  leaf (ground arith) (ground arith),
                )
            | inr r ↦
                let did : (visit_dir down v full e w2 >>= pair_with s2) ≡ pair_with s' w' =
                  unfold visit_entry in ground arith in
                let (u, k, same) = >>=-eq-ok (visit_dir down v full e w2) (pair_with s2) did in
                let (fs, added, branch) =
                  visit_dir-lists path first parent e w2 w' below (ground arith) (ground arith)
                    keeps (k ∙ ap ok (ok_pair same)) clean in
                (fs, added ∙ ap (λ l. l ++ fs) named, branch)
          ]
        ]
      ]

  visit_yielded-lists :
      (first : ℕ) (path : Text) (parent : ℕ) (o : Option Entry) (es : List Entry) (s s' : Seen)
      (w w' w'' : Walk)
      → DownLists casefold v down first
      → DownClean v down
      → visit_yielded casefold down v first path parent o s w ≡ ok (s', w')
      → w'.problems ≡ []
      → Adds (Branches casefold v path first parent es) w' w''
      → Adds (Branches casefold v path first parent (and_then o es)) w w''
  unfolding visit_yielded
  visit_yielded-lists first path parent none es s s' w w' w'' below keeps h clean
        (gs, added, rest) =
      (gs, added ∙ ap (λ (u : Walk). u.found ++ gs) (sym (ok_pair h)), rest)
  visit_yielded-lists first path parent (some e) es s s' w w' w'' below keeps h clean
        (gs, added, rest) =
      let (fs, here, branch) =
        visit_entry-lists first path parent e s s' w w' below keeps h clean in
      (
        fs ++ gs,
        added ∙ ap (λ l. l ++ gs) here ∙ append_assoc w.found fs gs,
        next fs gs branch rest refl,
      )

  pub visit_entries-lists :
      (first : ℕ) (path : Text) (parent : ℕ) (bs : List Bytes) (p : Parts) (s s' : Seen)
      (w w' : Walk)
      → DownLists casefold v down first
      → DownClean v down
      → visit_entries casefold down v first path parent bs p s w ≡ ok (s', w')
      → w'.problems ≡ []
      → Adds (Branches casefold v path first parent (spelled v.kind (or_slash path) p bs)) w w'
  unfolding visit_entries
  visit_entries-lists first path parent [] p s s' w w' below keeps h clean =
      ([], ap (λ (u : Walk). u.found) (sym (ok_pair h)) ∙ sym (append-nil w.found), no_more)
  visit_entries-lists first path parent (b ∷ bs) p s s' w w' below keeps h clean =
      let (p', notes, yielded) = entry_step v.kind (or_slash path) p b in
      let w1 : Walk = record w { problems = w.problems ++ notes } in
      let ((s2, w2), k, more) =
        >>=-eq-ok (visit_yielded casefold down v first path parent yielded s w1) _ {b = (s', w')}
          h in
      let still =
        (visit_entries-Clean casefold down v first path parent bs p' s2 s' w2 w' keeps more
          clean).was in
      visit_yielded-lists first path parent yielded (spelled v.kind (or_slash path) p' bs) s s2 w1
        w2 w' below keeps k still
        (visit_entries-lists first path parent bs p' s2 s' w2 w' below keeps more clean)
