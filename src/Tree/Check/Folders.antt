-- ===== src/Tree/Check/Folders.antt =====
-- `check` finds nothing exactly in the trees that fit the volume.
use gopher_metal.Prelude.{
  ℕ, ◌+◌, ◌≡◌, refl, subst, ◌↔◌, true, false, List, [], ◌∷◌, inl, inr, Bool-cases, arith, ltb,
  append_eq_nil, append_of_nil, All,
}
use gopher_metal.Prelude.Text.{
  Text, text_eq, text_in, text_eq_sound, text_eq_refl, text_eq_comm, IsUnique,
}
use gopher_metal.Tree.Names.{vfat_name}
use gopher_metal.Tree.Paths.{directory_full}
use gopher_metal.Tree.Check.{
  Entry, Folder, note_if, Tally, tally_entries, folder_used, taken, limit, collisions,
  folder_findings, check_folders,
}
use gopher_metal.Tree.Check.Fits.{keys, FolderFits}
use gopher_metal.Tree.Check.Entries.{entries_findings_iff}

module _ (casefold : Text → Text) where
  -- Each key is new to the ones that were seen before it.
  abbrev AreNew : List Text → List Text → Type 0
  AreNew seen [] = Unit
  AreNew seen (k ∷ ks) = (text_in k seen ≡ false) × AreNew (k ∷ seen) ks

  collisions_iff :
      (rel_top : Text) (seen : List Text) (es : List Entry)
      → (collisions casefold rel_top seen es ≡ []) ↔ AreNew seen (keys casefold es)
  unfolding collisions
  collisions_iff rel_top seen [] = (λ h. tt, λ h. refl)
  collisions_iff rel_top seen (e ∷ es) =
      let k = casefold (vfat_name e.name) in
      let later = collisions_iff rel_top (k ∷ seen) es in
      (
        λ h. elim (Bool-cases (text_in k seen)) [
          | inl again ↦ absurd (ground arith)
          | inr first ↦ (first, later.0 (ground arith))
        ],
        λ h. let rest = later.1 h.1 in simp (h.0, rest),
      )

  -- A key that was seen stands behind none of the new ones.
  AreNew-text_in :
      (seen ks : List Text) (k : Text)
      → AreNew seen ks
      → text_in k seen ≡ true
      → text_in k ks ≡ false
  unfolding text_in
  AreNew-text_in seen [] k h old = refl
  AreNew-text_in seen (j ∷ ks) k h old = elim (Bool-cases (text_eq k j)) [
    | inl same ↦
        let here = subst (λ (t : Text). text_in t seen ≡ true) (text_eq_sound k j same) old in
        absurd (ground (arith, h.0))
    | inr other ↦ let rest = AreNew-text_in (j ∷ seen) ks k h.1 (ground arith) in ground arith
  ]

  AreNew-IsUnique : (seen ks : List Text) → AreNew seen ks → IsUnique ks
  unfolding text_in
  AreNew-IsUnique seen [] h = tt
  AreNew-IsUnique seen (k ∷ ks) h = (
    AreNew-text_in (k ∷ seen) ks k h.1 (ground (arith, text_eq_refl k)),
    AreNew-IsUnique (k ∷ seen) ks h.1,
  )

  -- the texts of the one list stand in the other list nowhere
  abbrev AllNew : List Text → List Text → Type 0
  AllNew seen [] = Unit
  AllNew seen (k ∷ ks) = (text_in k seen ≡ false) × AllNew seen ks

  AllNew-cons :
      (seen ks : List Text) (k : Text)
      → AllNew seen ks
      → text_in k ks ≡ false
      → AllNew (k ∷ seen) ks
  unfolding text_in
  AllNew-cons seen [] k n h = tt
  AllNew-cons seen (j ∷ ks) k n h =
      (ground (arith, n.0, text_eq_comm k j), AllNew-cons seen ks k n.1 (ground arith))

  IsUnique-AreNew : (seen ks : List Text) → IsUnique ks → AllNew seen ks → AreNew seen ks
  unfolding text_in
  IsUnique-AreNew seen [] u n = tt
  IsUnique-AreNew seen (k ∷ ks) u n =
      (n.0, IsUnique-AreNew (k ∷ seen) ks u.1 (AllNew-cons seen ks k n.1 u.0))

  AllNew-nil : (ks : List Text) → AllNew [] ks
  unfolding text_in
  AllNew-nil [] = tt
  AllNew-nil (k ∷ ks) = (refl, AllNew-nil ks)

  folder_findings_iff :
      (fat : ℕ) (f : Folder) → (folder_findings casefold fat f ≡ []) ↔ FolderFits casefold fat f
  unfolding folder_findings
  folder_findings_iff fat f =
      let distinct = collisions_iff f.rel_top [] f.entries in
      let each = entries_findings_iff f.rel_top f.entries in
      (
        λ h.
            let (a, k) =
              append_eq_nil (note_if (ltb (limit fat f) (taken f)) f.rel_top directory_full) _ h in
            let (b, c) = append_eq_nil (collisions casefold f.rel_top [] f.entries) _ k in
            record {
              room = ground arith;
              unique = AreNew-IsUnique [] (keys casefold f.entries) (distinct.0 b);
              entries_fit = each.0 c;
            },
        λ h.
            let roomy : ltb (limit fat f) (taken f) ≡ false = let r = h.room in ground arith in
            let new =
              IsUnique-AreNew [] (keys casefold f.entries) h.unique
                (AllNew-nil (keys casefold f.entries)) in
            let b = distinct.1 new in let c = each.1 h.entries_fit in simp (roomy, b, c),
      )

  pub check_folders_iff :
      (cluster fat : ℕ) (walk : List Folder) (t : Tally)
      → ((check_folders casefold cluster fat walk t).0 ≡ []) ↔ All (FolderFits casefold fat) walk
  unfolding check_folders
  check_folders_iff cluster fat [] t = (λ h. tt, λ h. refl)
  check_folders_iff cluster fat (f ∷ fs) t =
      let t' =
        tally_entries cluster f.entries (record t { used = t.used + folder_used cluster f }) in
      let here = folder_findings_iff fat f in
      let more = check_folders_iff cluster fat fs t' in
      (
        λ h.
            let (a, b) = append_eq_nil (folder_findings casefold fat f) _ h in (here.0 a, more.0 b),
        λ h. append_of_nil (folder_findings casefold fat f) _ (here.1 h.0) (more.1 h.1),
      )
