-- ===== src/Backup.antt =====
-- droplet/check_backup.py: an archive of a site against the manifest that it ends with.
pub mod Lines
pub mod Whole
pub mod Tests
use gopher_metal.Prelude.{
  ℕ, zero, suc, ◌+◌, ◌≡◌, Bool, true, false, not, ◌&&◌, ◌||◌, List, [], ◌∷◌, ◌++◌, map, Option,
  none, some, length, ◌==◌, if◌then◌else◌,
}
use gopher_metal.Prelude.Text.{Text, codes, text_eq}
use gopher_metal.Prelude.Decimal.{decimal}
use gopher_metal.Backup.Lines.{lines_of, split_three}

-- a file member of the archive: its name and its bytes
abbrev pub Member : Type 0
Member = Text × Text

abbrev pub manifest : Text
manifest = codes "backup-manifest.txt"

abbrev pub head : Text
head = codes "gopher-backup manifest 1"

-- What is reported, a file with its number from 1.
pub data Problem : Type 0 where
  not_a_tar no_manifest bad_head bad_end bad_count : Problem
  bad_line other_file other_size other_sha : ℕ → Problem

-- sum(len(d) for _, d in files)
unfoldable pub total : List Member → ℕ
total [] = 0
total ((name, bytes) ∷ rest) = length bytes + total rest

unfoldable pub end_line : List Member → Text
unfolding total
end_line files =
    codes "end: "
    ++ (decimal (length files) ++ (codes " files, " ++ (decimal (total files) ++ codes " bytes")))

-- members[-1] and members[:-1]
unfoldable pub split_last {ℓ} : {A : Type ℓ} → List A → Option (List A × A)
split_last [] = none
split_last (x ∷ []) = some ([], x)
split_last (x ∷ y ∷ rest) = elim (split_last (y ∷ rest)) [
  | none ↦ none
  | some (front, last) ↦ some (x ∷ front, last)
]

-- sha, size, path = parts
unfoldable pub judge_parts : (Text → Text) → ℕ → Member → Option (Text × Text × Text) → List Problem
judge_parts sha256 n member none = bad_line n ∷ []
judge_parts sha256 n (name, bytes) (some (sha, size, path)) =
    if not (text_eq path name)
    then other_file n ∷ []
    else if not (text_eq size (decimal (length bytes)))
    then other_size n ∷ []
    else if not (text_eq sha (sha256 bytes))
    then other_sha n ∷ []
    else []

-- for n, ((name, bytes), line) in enumerate(zip(files, listed), 1): ...
unfoldable pub judge_lines : (Text → Text) → ℕ → List Member → List Text → List Problem
unfolding judge_parts
judge_lines sha256 n (member ∷ files) (line ∷ listed) =
    judge_parts sha256 n member (split_three line) ++ judge_lines sha256 (suc n) files listed
judge_lines sha256 n files listed = []

-- behind the first line
unfoldable pub judge_listed : (Text → Text) → List Member → List Text → Text → List Problem
unfolding judge_lines end_line
judge_listed sha256 files listed end =
    (if not (text_eq end (end_line files)) then bad_end ∷ [] else [])
    ++ ((if not (length listed == length files) then bad_count ∷ [] else [])
        ++ judge_lines sha256 1 files listed)

listed_end : Option (List Text × Text) → List Text × Text
listed_end none = ([], [])
listed_end (some (listed, end)) = (listed, end)

unfoldable pub judge_manifest : (Text → Text) → List Member → List Text → List Problem
unfolding judge_listed split_last listed_end
judge_manifest sha256 files [] = bad_head ∷ []
judge_manifest sha256 files (first ∷ rest) =
    let (listed, end) = listed_end (split_last rest) in
    if not (text_eq first head) then bad_head ∷ [] else judge_listed sha256 files listed end

-- not files and lines == [f"end: 0 files, 0 bytes"]
unfoldable pub holds_nothing : List Member → List Text → Bool
holds_nothing [] (line ∷ []) = text_eq line (codes "end: 0 files, 0 bytes")
holds_nothing files lines = false

-- `decode("utf-8", "replace")` and `hashlib.sha256` are parameters.
unfoldable pub judge_members :
    (Text → Text) → (Text → Text) → Option (List Member × Member) → List Problem
unfolding judge_manifest holds_nothing lines_of
judge_members decode sha256 none = no_manifest ∷ []
judge_members decode sha256 (some (files, (name, bytes))) =
    let lines = lines_of (decode bytes) in
    if not (text_eq name manifest)
    then no_manifest ∷ []
    else if holds_nothing files lines
    then []
    else judge_manifest sha256 files lines

-- `check`, of what `tarfile` gives of the archive: the file members with what they hold, or nothing
-- where it raises
unfoldable pub check : (Text → Text) → (Text → Text) → Option (List Member) → List Problem
unfolding judge_members split_last
check decode sha256 none = not_a_tar ∷ []
check decode sha256 (some members) = judge_members decode sha256 (split_last members)

-- the status that `main` ends with
unfoldable pub exit_status : List Problem → ℕ
exit_status [] = 0
exit_status (p ∷ ps) = 1
