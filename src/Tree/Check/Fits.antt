-- ===== src/Tree/Check/Fits.antt =====
-- The trees in which `check` finds nothing: what it means that an entry survives the copy.
use gopher_metal.Prelude.{ℕ, ◌+◌, ◌≡◌, ◌⊎◌, ◌≤◌, false, List, [], ◌∷◌, All}
use gopher_metal.Prelude.Text.{Text, IsUnique}
use gopher_metal.Tree.Names.{vfat_name, utf16_units, fs_length, has_forbidden, has_non_ascii, count}
use gopher_metal.Tree.Paths.{max_name}
use gopher_metal.Tree.Check.{
  regular, directory, Seconds, since, Entry, Folder, join, is_foreign, vfat_max_name, max_path,
  max_tree_depth, max_file, first_date, last_date, taken, limit,
}

-- A name that FAT keeps as it is, and that the machine reads back.
pub record NameFits (name : Text) : Type 0 where
  pub allowed : has_forbidden name ≡ false
  pub kept : vfat_name name ≡ name
  pub ascii : has_non_ascii name ≡ false
  pub units : utf16_units name ≤ vfat_max_name
  pub bytes : fs_length name ≤ max_name

-- A path that the machine opens and removes.
pub record PathFits (rel : Text) : Type 0 where
  pub bytes : fs_length rel ≤ max_path
  pub depth : count b'/' rel + 1 ≤ max_tree_depth

-- A time that FAT holds.
pub record TimeFits (t : Seconds) : Type 0 where
  pub seconds : ℕ
  pub time_is : t ≡ since seconds
  pub from : first_date ≤ seconds
  pub until : seconds ≤ last_date

pub record FileFits (e : Entry) : Type 0 where
  pub size_fits : e.size ≤ max_file
  pub one_name : e.links ≤ 1

-- An entry of the folder is a directory, or a file that FAT holds, under a name, a path and a time that
-- it keeps, and its path is one that the application builds or lies below one that it does not.
pub record EntryFits (rel_top : Text) (e : Entry) : Type 0 where
  pub known : is_foreign rel_top (join rel_top e.name) ≡ false
  pub kind_fits : (e.kind ≡ directory) ⊎ ((e.kind ≡ regular) × FileFits e)
  pub name_fits : NameFits e.name
  pub path_fits : PathFits (join rel_top e.name)
  pub time_fits : TimeFits e.mtime

-- the keys of a folder's names: folded, without what VFAT drops at the end
abbrev pub keys : (Text → Text) → List Entry → List Text
keys casefold [] = []
keys casefold (e ∷ es) = casefold (vfat_name e.name) ∷ keys casefold es

-- A folder has room for its entries, no two of them have one name on FAT, and each of them fits.
pub record FolderFits (casefold : Text → Text) (fat : ℕ) (f : Folder) : Type 0 where
  pub room : taken f ≤ limit fat f
  pub unique : IsUnique (keys casefold f.entries)
  pub entries_fit : All (EntryFits f.rel_top) f.entries
