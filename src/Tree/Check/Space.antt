-- ===== src/Tree/Check/Space.antt =====
-- What a tree takes of a volume, and the trees in which `check` finds nothing.
use gopher_metal.Prelude.{
  ℕ, ◌+◌, ◌≡◌, refl, ◌≤◌, ◌↔◌, false, List, [], ◌∷◌, arith, ltb, append_eq_nil, append_of_nil, All,
}
use gopher_metal.Prelude.Text.{Text}
use gopher_metal.Tree.Check.{
  Kind, regular, directory, link, special, Entry, Folder, Tally, no_tally, in_clusters, tally_entry,
  tally_entries, folder_used, check_folders, overhead, check,
}
use gopher_metal.Tree.Check.Fits.{FolderFits}
use gopher_metal.Tree.Check.Folders.{check_folders_iff}

-- the bytes of whole clusters that an entry of a kind and a size takes
abbrev pub entry_space : ℕ → Kind → ℕ → ℕ
entry_space cluster regular size = in_clusters size cluster
entry_space cluster _ size = 0

abbrev pub entries_space : ℕ → List Entry → ℕ
entries_space cluster [] = 0
entries_space cluster (e ∷ es) = entry_space cluster e.kind e.size + entries_space cluster es

-- The bytes of whole clusters that a tree's files and directories take.
abbrev pub tree_space : ℕ → List Folder → ℕ
tree_space cluster [] = 0
tree_space cluster (f ∷ fs) =
    folder_used cluster f + (entries_space cluster f.entries + tree_space cluster fs)

tally_entry-used :
    (cluster : ℕ) (k : Kind) (size : ℕ) (t : Tally)
    → (tally_entry cluster k size t).used ≡ t.used + entry_space cluster k size
unfolding tally_entry
tally_entry-used cluster regular size t = refl
tally_entry-used cluster directory size t = omega arith
tally_entry-used cluster link size t = omega arith
tally_entry-used cluster special size t = omega arith

tally_entries-used :
    (cluster : ℕ) (es : List Entry) (t : Tally)
    → (tally_entries cluster es t).used ≡ t.used + entries_space cluster es
unfolding tally_entries
tally_entries-used cluster [] t = omega arith
tally_entries-used cluster (e ∷ es) t = omega (
  arith,
  tally_entries-used cluster es (tally_entry cluster e.kind e.size t),
  tally_entry-used cluster e.kind e.size t,
)

module _ (casefold : Text → Text) where
  check_folders-used :
      (cluster fat : ℕ) (walk : List Folder) (t : Tally)
      → (check_folders casefold cluster fat walk t).1.used ≡ t.used + tree_space cluster walk
  unfolding check_folders
  check_folders-used cluster fat [] t = omega arith
  check_folders-used cluster fat (f ∷ fs) t =
      let t0 : Tally = record t { used = t.used + folder_used cluster f } in
      omega (
        arith,
        check_folders-used cluster fat fs (tally_entries cluster f.entries t0),
        tally_entries-used cluster f.entries t0,
      )

  -- Every folder fits, and the tree's whole clusters, with the FATs and FAT16's root, are at most the
  -- volume.
  pub record TreeFits (walk : List Folder) (volume cluster fat : ℕ) : Type 0 where
    pub folders : All (FolderFits casefold fat) walk
    pub space : tree_space cluster walk + overhead volume cluster fat ≤ volume

  -- `check` finds nothing exactly in the trees that fit the volume: every folder has room for its entries, no
  -- two names of a folder are one name on FAT, every entry is a directory or a file that FAT holds, under a
  -- name, a path and a time that it keeps and at a path that the application builds or that lies below a
  -- folder that it does not build, and the whole clusters with the FATs and the root fit the volume.
  pub check_iff :
      (walk : List Folder) (volume cluster fat : ℕ)
      → ((check casefold walk volume cluster fat).0 ≡ []) ↔ TreeFits walk volume cluster fat
  unfolding check
  check_iff walk volume cluster fat =
      let each = check_folders_iff casefold cluster fat walk no_tally in
      let used = check_folders-used cluster fat walk no_tally in
      (
        λ h.
            let (a, b) = append_eq_nil (check_folders casefold cluster fat walk no_tally).0 _ h in
            record { folders = each.0 a; space = ground arith },
        λ h.
            let roomy : ltb volume (
                  (check_folders casefold cluster fat walk no_tally).1.used
                  + overhead volume cluster fat)
                ≡ false =
              let s = h.space in ground arith in
            append_of_nil _ _ (each.1 h.folders) (simp roomy),
      )
