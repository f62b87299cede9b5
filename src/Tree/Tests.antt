-- ===== src/Tree/Tests.antt =====
-- A small tree, some paths, and the theorems at them.
use gopher_metal.Prelude.{
  ◌*◌, ◌^◌, ◌≡◌, ◌↔◌, refl, true, false, List, [], ◌∷◌, Option, none, some, Bool,
}
use gopher_metal.Prelude.Text.{Text, codes, text_eq, text_in}
use gopher_metal.Prelude.Regex.{fullmatch, literal, maybe, plus, times, up_to, any_of, all_of}
use gopher_metal.Tree.Names.{
  vfat_name, slots, needs_long, fs_length, has_forbidden, has_non_ascii, count,
}
use gopher_metal.Tree.Paths.{AppPath, app_kind, app_paths}
use gopher_metal.Tree.Check.{Folder, regular, directory, since, check, run_check, join}
use gopher_metal.Tree.Check.Space.{TreeFits, check_iff}

is_some : Option AppPath → Bool
is_some none = false
is_some (some p) = true

session_kept : is_some (app_kind (codes "data/chat/1_2/sessions/topic.md")) ≡ true
unfolding is_some app_kind app_paths fullmatch literal maybe plus times up_to any_of all_of
session_kept = refl

other_name : is_some (app_kind (codes "data/chat/users/1/links.mdx")) ≡ false
unfolding is_some app_kind app_paths fullmatch literal maybe plus times up_to any_of all_of
other_name = refl

abbrev same : Text → Text
same t = t

abbrev walk : List Folder
walk =
    record {
      rel_top = [];
      entries =
          record {
            name = codes "auth";
            kind = directory;
            mtime = since 1790000000;
            size = 0;
            links = 2;
          }
          ∷ [];
    }
    ∷ record {
      rel_top = codes "auth";
      entries =
          record {
            name = codes "next-id.txt";
            kind = regular;
            mtime = since 1790000000;
            size = 2;
            links = 1;
          }
          ∷ [];
    }
    ∷ []

walk_status : run_check same (some walk) 16 none ≡ 0
unfolding run_check check join slots needs_long vfat_name text_eq text_in fs_length has_forbidden
    has_non_ascii count app_kind app_paths fullmatch literal maybe plus times up_to any_of all_of
walk_status = refl

check_iff_example :
    ((check same walk (2 * 2 ^ 30) 32768 16).0 ≡ []) ↔ TreeFits same walk (2 * 2 ^ 30) 32768 16
check_iff_example = check_iff same walk (2 * 2 ^ 30) 32768 16
