-- ===== src/Fat/Walk/Lists.antt =====
-- The tree of a volume as its directories hold it, and a walk with no complaint lists exactly it.
use Prim.Native.Nat.{bit_and}
use gopher_metal.Prelude.Text.{Text, text_eq, IsUnique}
use gopher_metal.Prelude.{
  ℕ, ◌≡◌, ◌⊎◌, refl, sym, ap, ◌∙◌, Bool, true, false, List, [], ◌∷◌, ◌++◌, Option, none, some,
  Option-cases, Bool-cases, inl, inr, arith, ◌==◌, if◌then◌else◌, not, ◌||◌,
}
use gopher_metal.Fat.Bytes.{Bytes, problem, Result, ok, err, >>=-eq-ok}
use gopher_metal.Fat.Volume.{Volume, Kind}
use gopher_metal.Fat.Chain.{chain}
use gopher_metal.Fat.Dirent.{Complaint, broken_chain}
use gopher_metal.Fat.Entries.{Entry, Parts, no_parts, entry_step, under}
use gopher_metal.Fat.Walk.{
  Found, Walk, complain, list, owner_of, claim, claim_all, own_result, own, check_length,
  visit_file, or_slash, raw_entries,
}

-- The name is that of the entry of the directory itself, or of the one above it.
abbrev pub is_dots : Text → Bool
is_dots name = text_eq name (b'.' ∷ []) || text_eq name (b'.' ∷ b'.' ∷ [])

-- The entry is a directory.
abbrev pub is_folder : Entry → Bool
is_folder e = not (bit_and e.attr 0x10 == 0)

abbrev pub and_then : Option Entry → List Entry → List Entry
and_then none es = es
and_then (some e) es = e ∷ es

-- The entries that the raw entries `bs` of the directory `where` spell, each with its long name.
abbrev pub spelled : Kind → Text → Parts → List Bytes → List Entry
spelled kind path p [] = []
spelled kind path p (b ∷ bs) =
    let (p', notes, o) = entry_step kind path p b in and_then o (spelled kind path p' bs)

-- The complaints about them: parts of long names out of order, missing, or of another entry, and first
-- clusters that FAT16 has no room for.
abbrev pub noted : Kind → Text → Parts → List Bytes → List Complaint
noted kind path p [] = []
noted kind path p (b ∷ bs) =
    let (p', notes, o) = entry_step kind path p b in notes ++ noted kind path p' bs

abbrev pub file_item : Text → Entry → Found
file_item path e = record {
  path = under path e.name;
  is_dir = false;
  start = e.first;
  bytes = e.size;
}

abbrev pub folder_item : Text → Entry → Found
folder_item path e = record { path = under path e.name; is_dir = true; start = e.first; bytes = 0 }

-- The names of the entries that are no `.` or `..`, as FAT compares them.
abbrev pub named : (Text → Text) → List Entry → List Text
named casefold [] = []
named casefold (e ∷ es) =
    let rest = named casefold es in if is_dots e.name then rest else casefold e.name ∷ rest

-- One of the entries has the name.
abbrev pub has_name : Text → List Entry → Bool
has_name name [] = false
has_name name (e ∷ es) = text_eq e.name name || has_name name es

-- No name of the directory is there twice, whatever its case, and but for the root's, at 0, it has a `.` and a
-- `..`.
pub record IsNamed (casefold : Text → Text) (first : ℕ) (es : List Entry) : Type 0 where
  pub unique : IsUnique (named casefold es)
  pub links :
      (first ≡ 0) ⊎ ((has_name (b'.' ∷ []) es ≡ true) × (has_name (b'.' ∷ b'.' ∷ []) es ≡ true))

-- `Tree casefold v path first parent fs`: below the directory `path`, whose first cluster is `first` and that of the
-- one above `parent`, are the items `fs`: of each entry that its clusters spell, in their order, a file, or a
-- directory of size 0 with what is below it. `.` and `..` are no items, and stand for these two clusters. The
-- names of each directory keep to `IsNamed`, and its entries give no complaint.
mutual
  pub data Tree (casefold : Text → Text) (v : Volume) : Text → ℕ → ℕ → List Found → Type 0 where
    directory :
        {path : Text} {first parent : ℕ} {fs : List Found} (bs : List Bytes)
        → raw_entries v first ≡ ok bs
        → noted v.kind (or_slash path) no_parts bs ≡ []
        → IsNamed casefold first (spelled v.kind (or_slash path) no_parts bs)
        → Branches casefold v path first parent (spelled v.kind (or_slash path) no_parts bs) fs
        → Tree casefold v path first parent fs

  pub data Branches (casefold : Text → Text) (v : Volume)
      : Text → ℕ → ℕ → List Entry → List Found → Type 0 where
    no_more : {path : Text} {first parent : ℕ} → Branches casefold v path first parent [] []
    next :
        {path : Text} {first parent : ℕ} {e : Entry} {es : List Entry} {all : List Found}
        (fs gs : List Found)
        → Branch casefold v path first parent e fs
        → Branches casefold v path first parent es gs
        → all ≡ fs ++ gs
        → Branches casefold v path first parent (e ∷ es) all

  pub data Branch (casefold : Text → Text) (v : Volume)
      : Text → ℕ → ℕ → Entry → List Found → Type 0 where
    this_one :
        {path : Text} {first parent : ℕ} {e : Entry}
        → text_eq e.name (b'.' ∷ []) ≡ true
        → e.first ≡ first
        → Branch casefold v path first parent e []
    above :
        {path : Text} {first parent : ℕ} {e : Entry}
        → text_eq e.name (b'.' ∷ b'.' ∷ []) ≡ true
        → e.first ≡ parent
        → Branch casefold v path first parent e []
    leaf :
        {path : Text} {first parent : ℕ} {e : Entry}
        → is_dots e.name ≡ false
        → is_folder e ≡ false
        → Branch casefold v path first parent e (file_item path e ∷ [])
    folder :
        {path : Text} {first parent : ℕ} {e : Entry} {below : List Found}
        → is_dots e.name ≡ false
        → is_folder e ≡ true
        → e.size ≡ 0
        → Tree casefold v (under path e.name) e.first first below
        → Branch casefold v path first parent e (folder_item path e ∷ below)

claim_found : (path : Text) (w : Walk) (c : ℕ) → (claim path w c).found ≡ w.found
unfolding claim
claim_found path w c = elim (Option-cases (owner_of w.owner c)) [
  | inl new ↦ ground arith
  | inr (other, taken) ↦ ground arith
]

claim_all_found : (path : Text) (w : Walk) (cs : List ℕ) → (claim_all path w cs).found ≡ w.found
unfolding claim_all
claim_all_found path w [] = refl
claim_all_found path w (c ∷ cs) = claim_all_found path (claim path w c) cs ∙ claim_found path w c

own_result_found :
    (path : Text) (w w' : Walk) (r : Result (List ℕ)) (got : Option (List ℕ))
    → own_result path w r ≡ ok (got, w')
    → w'.found ≡ w.found
unfolding own_result
own_result_found path w w' (ok cs) got h =
    let same : claim_all path w cs ≡ w' = ground arith in
    ap (λ (u : Walk). u.found) (sym same) ∙ claim_all_found path w cs
own_result_found path w w' (err (problem p)) got h =
    let same : complain w (broken_chain path p) ≡ w' = ground arith in
    ap (λ (u : Walk). u.found) (sym same)
own_result_found path w w' (err _) got h = absurd (ground arith)

pub own_found :
    (v : Volume) (path : Text) (first : ℕ) (w w' : Walk) (got : Option (List ℕ))
    → own v path first w ≡ ok (got, w')
    → w'.found ≡ w.found
unfolding own
own_found v path first w w' got h = own_result_found path w w' (chain v first) got h

check_length_found :
    (v : Volume) (full : Text) (size : ℕ) (got : Option (List ℕ)) (w w' : Walk)
    → check_length v full size (got, w) ≡ ok w'
    → w'.found ≡ w.found
unfolding check_length
check_length_found v full size none w w' h = ground arith
check_length_found v full size (some cs) w w' h = ground arith

-- What the branch for a file adds.
pub visit_file_found :
    (v : Volume) (path : Text) (e : Entry) (w w' : Walk)
    → visit_file v (under path e.name) e w ≡ ok w'
    → w'.found ≡ w.found ++ (file_item path e ∷ [])
unfolding visit_file
visit_file_found v path e w w' h =
    let full = under path e.name in
    let w1 = list w (file_item path e) in
    elim (Bool-cases (e.size == 0)) [
      | inl p ↦ ground arith
      | inr p ↦ elim (Bool-cases (e.first == 0)) [
        | inl q ↦ ground arith
        | inr q ↦
            let ((got, w2), o, k) =
              >>=-eq-ok (own v full e.first w1) (check_length v full e.size) {b = w'}
                (ground arith) in
            check_length_found v full e.size got w2 w' k ∙ own_found v full e.first w1 w2 got o
      ]
    ]
