-- ===== src/Backup/Tests.antt =====
-- An archive of two files, and the theorem at it.
use gopher_metal.Prelude.{◌≡◌, ◌↔◌, refl, List, [], ◌∷◌, ◌++◌, some}
use gopher_metal.Prelude.Text.{Text, codes, text_eq}
use gopher_metal.Prelude.Decimal.{decimal}
use gopher_metal.Backup.Lines.{NoSpace, split_three}
use gopher_metal.Backup.{Member, manifest, check, exit_status}
use gopher_metal.Backup.Whole.{IsWhole, backup_iff}

-- UTF-8 of ASCII
abbrev same : Text → Text
same t = t

-- Stands for the digest: one digit that tells the two files apart.
abbrev digest : Text → Text
digest [] = codes "0f"
digest (c ∷ cs) = codes "a1"

digest-NoSpace : (t : Text) → NoSpace (digest t)
digest-NoSpace [] = (refl, (refl, tt))
digest-NoSpace (c ∷ cs) = (refl, (refl, tt))

abbrev files : List Member
files = (codes "data/a b", codes "four") ∷ (codes "data/c", []) ∷ []

abbrev written : Text
written = codes "gopher-backup manifest 1\na1 4 data/a b\n0f 0 data/c\nend: 2 files, 4 bytes\n"

whole : check same digest (some (files ++ ((manifest, written) ∷ []))) ≡ []
unfolding check decimal text_eq split_three
whole = refl

-- A member that is dropped is seen.
dropped :
    exit_status (check same digest (some ((codes "data/c", []) ∷ (manifest, written) ∷ []))) ≡ 1
unfolding check decimal exit_status text_eq
dropped = refl

backup_iff_example : (check same digest (some (files ++ ((manifest, written) ∷ []))) ≡ []) ↔ (
    (members : List Member) × (some (files ++ ((manifest, written) ∷ [])) ≡ some members)
    × IsWhole same digest members)
backup_iff_example =
    backup_iff digest digest-NoSpace same (some (files ++ ((manifest, written) ∷ [])))
