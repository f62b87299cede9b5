-- ===== src/Tree/Check.antt =====
-- `check` of droplet/check_volume_tree.py. The walk is the list of what `os.walk` hands out, each folder
-- with its entries sorted; a finding is its path, its rule and what `app_says` says, without the reason
-- in words.
pub mod Fits
pub mod Entries
pub mod Folders
pub mod Space
use gopher_metal.Prelude.{
  ℕ, zero, suc, ◌+◌, ◌-◌, ◌*◌, ◌/◌, ◌^◌, Bool, true, false, not, ◌&&◌, ◌||◌, List, [], ◌∷◌, ◌++◌,
  Option, none, some, ltb, leb, ◌==◌, if◌then◌else◌,
}
use gopher_metal.Prelude.Text.{Text, codes, text_eq, text_in}
use gopher_metal.Tree.Names.{
  vfat_name, utf16_units, fs_length, slots, has_forbidden, has_non_ascii, count,
}
use gopher_metal.Tree.Paths.{
  Rule, directory_full, case_collision, not_the_apps, symlink, special_file, forbidden_character,
  trailing_dot_or_space, non_ascii, long_name, long_path, deep, date, too_big, hard_link,
  volume_full, Says, app_says, AppPath, app_kind, max_name,
}

pub data Kind : Type 0 where
  regular directory link special : Kind

-- int(st.st_mtime)
pub data Seconds : Type 0 where
  since before_1970 : ℕ → Seconds

pub record Entry : Type 0 where
  pub name : Text
  pub kind : Kind
  pub mtime : Seconds
  pub size : ℕ
  pub links : ℕ

-- `rel_top` of a folder, empty for the root, and its entries
pub record Folder : Type 0 where
  pub rel_top : Text
  pub entries : List Entry

pub record Finding : Type 0 where
  pub path : Text
  pub rule : Rule
  pub app : Option Says

-- `add`
pub finding : Text → Rule → Finding
finding rel rule = record {
  path = if text_eq rel [] then codes "." else rel;
  rule = rule;
  app = some (app_says rel rule);
}

abbrev pub note_if : Bool → Text → Rule → List Finding
note_if test rel rule = if test then finding rel rule ∷ [] else []

-- os.path.join(rel_top, name)
unfoldable pub join : Text → Text → Text
join rel_top name = if text_eq rel_top [] then name else rel_top ++ (b'/' ∷ name)

abbrev pub max_path : ℕ
max_path = 256

abbrev pub max_tree_depth : ℕ
max_tree_depth = 16

abbrev pub vfat_max_name : ℕ
vfat_max_name = 255

abbrev pub max_file : ℕ
max_file = 2 ^ 32 - 1

abbrev pub first_date : ℕ
first_date = 315532800

abbrev pub last_date : ℕ
last_date = 4354819199

abbrev pub root_slots : ℕ
root_slots = 512

abbrev pub dir_slots : ℕ
dir_slots = 65536

-- -(-n // cluster) * cluster
abbrev pub in_clusters : ℕ → ℕ → ℕ
in_clusters n cluster = (n + cluster - 1) / cluster * cluster

pub is_undated : Seconds → Bool
is_undated (before_1970 s) = true
is_undated (since s) = ltb s first_date || ltb last_date s

-- the tests of an entry that is a file or a directory, and of its path
pub name_findings : Text → Entry → List Finding
unfolding is_undated
name_findings rel e =
    note_if (has_forbidden e.name) rel forbidden_character
    ++ (note_if (not (text_eq (vfat_name e.name) e.name)) rel trailing_dot_or_space
        ++ (note_if (has_non_ascii e.name) rel non_ascii
            ++ (note_if (ltb vfat_max_name (utf16_units e.name) || ltb max_name (fs_length e.name))
                  rel long_name
                ++ (note_if (ltb max_path (fs_length rel)) rel long_path
                    ++ (note_if (ltb max_tree_depth (count b'/' rel + 1)) rel deep
                        ++ note_if (is_undated e.mtime) rel date)))))

pub file_findings : Text → Entry → List Finding
file_findings rel e =
    note_if (ltb max_file e.size) rel too_big ++ note_if (ltb 1 e.links) rel hard_link

pub kind_findings : Kind → Text → Entry → List Finding
unfolding name_findings file_findings
kind_findings link rel e = finding rel symlink ∷ []
kind_findings special rel e = finding rel special_file ∷ []
kind_findings directory rel e = name_findings rel e
kind_findings regular rel e = name_findings rel e ++ file_findings rel e

is_known : Option AppPath → Bool
is_known none = false
is_known (some p) = true

-- a path at the top of a tree that the application does not know
pub is_foreign : Text → Text → Bool
unfolding is_known
is_foreign rel_top rel =
    not (is_known (app_kind rel)) && (text_eq rel_top [] || is_known (app_kind rel_top))

pub entry_findings : Text → Entry → List Finding
unfolding is_foreign kind_findings
entry_findings rel_top e =
    note_if (is_foreign rel_top (join rel_top e.name)) (join rel_top e.name) not_the_apps
    ++ kind_findings e.kind (join rel_top e.name) e

-- the second loop over a folder's entries
pub entries_findings : Text → List Entry → List Finding
unfolding entry_findings
entries_findings rel_top [] = []
entries_findings rel_top (e ∷ es) = entry_findings rel_top e ++ entries_findings rel_top es

-- What the entries of a folder add to `used`, `files` and `dirs`.
pub record Tally : Type 0 where
  pub used : ℕ
  pub files : ℕ
  pub dirs : ℕ

abbrev pub no_tally : Tally
no_tally = record { used = 0; files = 0; dirs = 0 }

pub tally_entry : ℕ → Kind → ℕ → Tally → Tally
tally_entry cluster regular size t = record t {
  used = t.used + in_clusters size cluster;
  files = t.files + 1;
}
tally_entry cluster directory size t = record t { dirs = t.dirs + 1 }
tally_entry cluster _ size t = t

pub tally_entries : ℕ → List Entry → Tally → Tally
unfolding tally_entry
tally_entries cluster [] t = t
tally_entries cluster (e ∷ es) t = tally_entries cluster es (tally_entry cluster e.kind e.size t)

-- sum(slots(n) for n in entries)
pub slots_sum : List Entry → ℕ
slots_sum [] = 0
slots_sum (e ∷ es) = slots e.name + slots_sum es

abbrev is_root : Folder → Bool
is_root f = text_eq f.rel_top []

-- `taken` and `limit`
pub taken : Folder → ℕ
unfolding slots_sum
taken f = slots_sum f.entries + (if is_root f then 0 else 2)

pub limit : ℕ → Folder → ℕ
limit fat f = if is_root f && fat == 16 then root_slots else dir_slots

pub folder_used : ℕ → Folder → ℕ
folder_used cluster f =
    let n = (taken f * 32 + cluster - 1) / cluster in
    if is_root f then 0 else (if ltb n 1 then 1 else n) * cluster

-- what the two FATs and FAT16's root take of a volume
pub overhead : ℕ → ℕ → ℕ → ℕ
overhead volume cluster fat =
    2 * (volume / cluster) * (if fat == 32 then 4 else 2)
    + (if fat == 16 then root_slots * 32 else 0)

-- (gib << 30) if gib else DEFAULT_VOLUME
volume_of : Option ℕ → ℕ
volume_of none = 2 * 2 ^ 30
volume_of (some zero) = 2 * 2 ^ 30
volume_of (some (suc n)) = suc n * 2 ^ 30

abbrev default_cluster : ℕ
default_cluster = 32 * 2 ^ 10

is_allowed : ℕ → Option ℕ → Bool
is_allowed fat none = fat == 16 || fat == 32
is_allowed fat (some gib) = (fat == 16 && leb gib 2) || fat == 32

-- `str.casefold` is the standard library's.
module _ (casefold : Text → Text) where
  -- the first loop over a folder's entries; `seen` holds the keys of the dictionary
  pub collisions : Text → List Text → List Entry → List Finding
  collisions rel_top seen [] = []
  collisions rel_top seen (e ∷ es) =
      let again = finding (join rel_top e.name) case_collision ∷ collisions rel_top seen es in
      let first = collisions rel_top (casefold (vfat_name e.name) ∷ seen) es in
      if text_in (casefold (vfat_name e.name)) seen then again else first

  pub folder_findings : ℕ → Folder → List Finding
  unfolding collisions entries_findings
  folder_findings fat f =
      note_if (ltb (limit fat f) (taken f)) f.rel_top directory_full
      ++ (collisions f.rel_top [] f.entries ++ entries_findings f.rel_top f.entries)

  -- the loop over the walk
  pub check_folders : ℕ → ℕ → List Folder → Tally → List Finding × Tally
  unfolding folder_findings tally_entries folder_used taken limit
  check_folders cluster fat [] t = ([], t)
  check_folders cluster fat (f ∷ fs) t =
      let t' =
        tally_entries cluster f.entries (record t { used = t.used + folder_used cluster f }) in
      let (findings, total) = check_folders cluster fat fs t' in
      (folder_findings fat f ++ findings, total)

  -- `check`: the findings and the tally; `used > usable` with nothing below zero
  unfoldable pub check : List Folder → ℕ → ℕ → ℕ → List Finding × Tally
  unfolding check_folders overhead
  check walk volume cluster fat =
      let (findings, t) = check_folders cluster fat walk no_tally in
      let full : Finding = record { path = codes "."; rule = volume_full; app = none } in
      (findings ++ (if ltb volume (t.used + overhead volume cluster fat) then full ∷ [] else []), t)

  found_status : List Finding → ℕ
  found_status [] = 0
  found_status (f ∷ fs) = 1

  run_walk : List Folder → ℕ → Option ℕ → ℕ
  unfolding found_status check volume_of is_allowed
  run_walk walk fat gib =
      if is_allowed fat gib
      then found_status (check walk (volume_of gib) default_cluster fat).0
      else 2

  -- `main` behind the arguments: 2 where they are refused, 1 where there are findings. `walk` is nothing
  -- where the argument is no folder; `gib` is `--gib`.
  unfoldable pub run_check : Option (List Folder) → ℕ → Option ℕ → ℕ
  unfolding run_walk
  run_check none fat gib = 2
  run_check (some walk) fat gib = run_walk walk fat gib
