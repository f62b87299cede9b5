-- ===== src/Fat/Walk/Whole.antt =====
-- A walk that ends with no complaint has listed the tree of the volume.
use gopher_metal.Prelude.Text.{Text}
use gopher_metal.Prelude.{
  ℕ, zero, suc, ◌≡◌, refl, sym, ap, subst, ◌∙◌, false, List, [], ◌∷◌, ◌++◌, Option, none, some,
  Bool-cases, inl, inr, arith, ◌==◌, if◌then◌else◌, not, ◌&&◌,
}
use gopher_metal.Fat.Bytes.{ok, >>=-eq-ok}
use gopher_metal.Fat.Volume.{Volume, is_fat32}
use gopher_metal.Fat.Dirent.{Complaint, no_dots, too_deep}
use gopher_metal.Fat.Entries.{Entry, no_parts}
use gopher_metal.Fat.Walk.Owners.{own-Owned, complain-problems}
use gopher_metal.Fat.Walk.Grows.{Clean-if_eq}
use gopher_metal.Fat.Walk.Clean.{visit-Clean}
use gopher_metal.Fat.Walk.Names.{NamedFrom, visit_entries-NamedFrom, visit_entries-noted}
use gopher_metal.Fat.Walk.Lists.{IsNamed, Tree, directory, own_found}
use gopher_metal.Fat.Walk.{no_walk, Walk, Seen, complain, own, visit, walk_root, walk, raw_entries}
use gopher_metal.Fat.Walk.Listed.{Adds, if_found, if_silent, visit_entries-lists}

abbrev no_seen : Seen
no_seen = record { names = []; dot = false; dotdot = false }

IsNamed-lacks :
    (casefold : Text → Text) (first : ℕ) (es : List Entry) (s : Seen)
    → NamedFrom casefold es no_seen s
    → (not (first == 0) && not (s.dot && s.dotdot)) ≡ false
    → IsNamed casefold first es
IsNamed-lacks casefold first es s names h = record {
  unique = names.unique;
  links = elim (Bool-cases (first == 0)) [
    | inl root ↦ inl (ground arith)
    | inr below ↦ inr (names.dot (ground arith), names.dotdot (ground arith))
  ];
}

module _ (casefold : Text → Text) where
  visit-lists :
      (depth : ℕ) (v : Volume) (first : ℕ) (path : Text) (parent : ℕ) (w w' : Walk)
      → visit casefold depth v first path parent w ≡ ok w'
      → w'.problems ≡ []
      → Adds (Tree casefold v path first parent) w w'
  unfolding visit
  visit-lists zero v first path parent w w' h clean =
      let same : complain w (too_deep path) ≡ w' = ground arith in
      absurd (
        complain-problems w (too_deep path)
          (subst (λ (u : Walk). u.problems ≡ []) (sym same) clean))
  visit-lists (suc depth) v first path parent w w' h clean =
      let (bs, r, k) = >>=-eq-ok (raw_entries v first) _ {b = w'} h in
      let ((s, w1), l, e) = >>=-eq-ok _ _ {b = w'} k in
      let lacks = not (first == 0) && not (s.dot && s.dotdot) in
      let same : (if lacks then complain w1 (no_dots path) else w1) ≡ w' = ground arith in
      let still = (Clean-if_eq {v = v} w1 lacks (no_dots path) same clean).was in
      let names =
        visit_entries-NamedFrom casefold v (λ fc full. visit casefold depth v fc full first) first
          path parent bs no_parts no_seen s w w1
          (λ fc full u u' z. visit-Clean casefold depth v fc full first u u' z) l still in
      let quiet =
        visit_entries-noted casefold v (λ fc full. visit casefold depth v fc full first) first path
          parent bs no_parts no_seen s w w1
          (λ fc full u u' z. visit-Clean casefold depth v fc full first u u' z) l still in
      let (fs, added, branches) =
        visit_entries-lists casefold v (λ fc full. visit casefold depth v fc full first) first path
          parent bs no_parts _ s w w1
          (λ fc full u u' z c. visit-lists depth v fc full first u u' z c)
          (λ fc full u u' z. visit-Clean casefold depth v fc full first u u' z) l still in
      (
        fs,
        ap (λ (u : Walk). u.found) (sym same) ∙ if_found lacks w1 (no_dots path) ∙ added,
        directory bs r quiet
            (IsNamed-lacks casefold first _ s names
              (if_silent lacks w1 (no_dots path) (ap (λ (u : Walk). u.problems) same ∙ clean)))
            branches,
      )

  walk_root-lists :
      (v : Volume) (got : Option (List ℕ)) (w0 w : Walk)
      → w0.found ≡ []
      → (got ≡ none → w0.problems ≡ [] → ⊥)
      → walk_root casefold v (got, w0) ≡ ok w
      → w.problems ≡ []
      → Tree casefold v [] 0 0 w.found
  unfolding walk_root
  walk_root-lists v none w0 w f broken h clean =
      let same : w0 ≡ w = ground arith in
      absurd (broken refl (subst (λ (u : Walk). u.problems ≡ []) (sym same) clean))
  walk_root-lists v (some cs) w0 w f broken h clean =
      let (fs, added, tree) = visit-lists 65 v 0 [] 0 w0 w h clean in
      subst (Tree casefold v [] 0 0) (sym (added ∙ ap (λ l. l ++ fs) f)) tree

  -- A walk that ends with no complaint has found the tree of the root directory.
  pub walk-Tree :
      (v : Volume) (problems : List Complaint) (w : Walk)
      → walk casefold v problems ≡ ok w
      → w.problems ≡ []
      → Tree casefold v [] 0 0 w.found
  unfolding walk
  walk-Tree v problems w h clean =
      let w0 : Walk = record no_walk { problems = problems } in
      elim (Bool-cases (is_fat32 v.kind)) [
        | inl k ↦
            let ((got, w1), o, r) =
              >>=-eq-ok (own v (b'/' ∷ []) v.root_cluster w0) (walk_root casefold v) {b = w}
                (ground arith) in
            walk_root-lists v got w1 w (own_found v (b'/' ∷ []) v.root_cluster w0 w1 got o)
              (λ z c.
                let (cs, e, x) = own-Owned v (b'/' ∷ []) v.root_cluster w0 got w1 o c in
                absurd (ground arith))
              r clean
        | inr k ↦
            walk_root-lists v (some []) w0 w refl (λ z c. absurd (ground arith)) (ground arith)
              clean
      ]
