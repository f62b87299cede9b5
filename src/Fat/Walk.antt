-- ===== src/Fat/Walk.antt =====
-- `raw_entries` and `walk` of tools/fat16_read.py: every file and directory of a volume, each chain
-- recorded with its owner.
pub mod Owners
pub mod Grows
pub mod Items
pub mod Clean
pub mod Lists
pub mod Names
pub mod Listed
pub mod Whole
use gopher_metal.Prelude.Text.{Text, text_eq, text_in}
use gopher_metal.Prelude.{
  ℕ, zero, suc, ◌+◌, ◌-◌, ◌/◌, Bool, true, false, not, ◌&&◌, ◌||◌, List, [], ◌∷◌, ◌++◌, Option,
  none, some, ltb, ◌==◌, if◌then◌else◌, length,
}
use Prim.Native.Nat.{bit_and}
use gopher_metal.Fat.Bytes.{Bytes, slice, problem, Result, ok, err, ◌>>=◌}
use gopher_metal.Fat.Volume.{Volume, is_fat32, sectors, cluster, cluster_bytes}
use gopher_metal.Fat.Chain.{chain}
use gopher_metal.Fat.Dirent.{
  Complaint, broken_chain, crossed, too_deep, dot_target, dotdot_target, duplicate, sized_directory,
  no_directory_cluster, empty_with_cluster, no_file_cluster, no_dots, wrong_length,
}
use gopher_metal.Fat.Entries.{Entry, Parts, no_parts, under, entry_step}

-- b"".join([a, b])
unfoldable pub append_bytes : Bytes → Bytes → Bytes
append_bytes a b = record {
  size = a.size + b.size;
  at = λ i. if ltb i a.size then a.at i else b.at (i - a.size);
}

-- b"".join(self.cluster(c) for c in cs)
unfoldable pub join_clusters : Volume → List ℕ → Result Bytes
unfolding append_bytes
join_clusters v [] = ok (record { size = 0; at = λ _. 0 })
join_clusters v (c ∷ cs) = do b ← cluster v c; rest ← join_clusters v cs; ok (append_bytes b rest)

-- the entries of `left` times 32 bytes from `o` on, up to one that starts with 0
pub split_entries : Bytes → ℕ → ℕ → List Bytes
split_entries b o zero = []
split_entries b o (suc left) =
    let e = slice b o (o + 32) in
    let rest = split_entries b (o + 32) left in if e.at 0 == 0 then [] else e ∷ rest

-- `raw_entries`. Its data is read when the first entry is asked for, and is a number of whole
-- sectors, so that each entry has 32 bytes.
pub raw_entries : Volume → ℕ → Result (List Bytes)
unfolding join_clusters split_entries
raw_entries v first = do
  let start = if first == 0 && is_fat32 v.kind then v.root_cluster else first
  let root = sectors v v.root_start v.root_sectors
  let chained = (do cs ← chain v start; join_clusters v cs)
  b ← (if start == 0 then root else chained)
  ok (split_entries b 0 (b.size / 32))

-- An item of the walk's list.
pub record Found : Type 0 where
  pub path : Text
  pub is_dir : Bool
  pub start : ℕ
  pub bytes : ℕ

-- What the walk keeps: `problems`, `self.owner` and `self.mtime` in the order of their first
-- assignments, and `out`.
pub record Walk : Type 0 where
  pub problems : List Complaint
  pub owner : List (ℕ × Text)
  pub mtime : List (Text × Option ℕ)
  pub found : List Found

abbrev pub complain : Walk → Complaint → Walk
complain w p = record w { problems = w.problems ++ p ∷ [] }

abbrev pub list : Walk → Found → Walk
list w f = record w { found = w.found ++ f ∷ [] }

-- self.owner.get(c)
unfoldable pub owner_of : List (ℕ × Text) → ℕ → Option Text
owner_of [] c = none
owner_of ((d, path) ∷ os) c = if d == c then some path else owner_of os c

-- one round of the loop of `own`
pub claim : Text → Walk → ℕ → Walk
claim path w c = elim (owner_of w.owner c) [
  | some other ↦ complain w (crossed path c other)
  | none ↦ record w { owner = w.owner ++ (c, path) ∷ [] }
]

pub claim_all : Text → Walk → List ℕ → Walk
unfolding claim owner_of
claim_all path w [] = w
claim_all path w (c ∷ cs) = claim_all path (claim path w c) cs

-- `except Problem`: other exceptions pass
own_result : Text → Walk → Result (List ℕ) → Result (Option (List ℕ) × Walk)
own_result path w (ok cs) = ok (some cs, claim_all path w cs)
own_result path w (err (problem p)) = ok (none, complain w (broken_chain path p))
own_result path w (err e) = err e

-- `own`: the chain, or nothing where it is broken
pub own : Volume → Text → ℕ → Walk → Result (Option (List ℕ) × Walk)
unfolding own_result claim_all
own v path first w = own_result path w (chain v first)

-- What `visit` keeps of a directory: `names`, `dot` and `dotdot`.
pub record Seen : Type 0 where
  pub names : List Text
  pub dot : Bool
  pub dotdot : Bool

-- self.mtime[full] = mtime
pub set_mtime : Text → Option ℕ → List (Text × Option ℕ) → List (Text × Option ℕ)
unfolding text_eq
set_mtime t m [] = (t, m) ∷ []
set_mtime t m ((u, old) ∷ us) = if text_eq u t then (u, m) ∷ us else (u, old) ∷ set_mtime t m us

-- How many clusters a file of `size` bytes takes.
abbrev pub clusters_for : Volume → ℕ → ℕ
clusters_for v size = (size + cluster_bytes v - 1) / cluster_bytes v

-- a file's chain against its size
pub check_length : Volume → Text → ℕ → Option (List ℕ) × Walk → Result Walk
check_length v full size (none, w) = ok w
check_length v full size (some cs, w) =
    if not (length cs == clusters_for v size)
    then ok (complain w (wrong_length full (clusters_for v size) (length cs)))
    else ok w

-- the branch of `visit` for a file
pub visit_file : Volume → Text → Entry → Walk → Result Walk
unfolding own check_length
visit_file v full e w0 =
    let w = list w0 (record { path = full; is_dir = false; start = e.first; bytes = e.size }) in
    let owned = own v full e.first w in
    let checked = owned >>= check_length v full e.size in
    if e.size == 0
    then ok (if not (e.first == 0) then complain w (empty_with_cluster full) else w)
    else if e.first == 0
    then ok (complain w (no_file_cluster full))
    else checked

-- the branch of `visit` for a directory whose chain is `owned`; `down` visits it
pub enter : (Text → Walk → Result Walk) → Text → ℕ → Option (List ℕ) × Walk → Result Walk
enter down full first (none, w) = ok w
enter down full first (some cs, w) =
    down full (list w (record { path = full; is_dir = true; start = first; bytes = 0 }))

pub visit_dir : (ℕ → Text → Walk → Result Walk) → Volume → Text → Entry → Walk → Result Walk
unfolding own enter
visit_dir down v full e w0 =
    let w = if not (e.size == 0) then complain w0 (sized_directory full) else w0 in
    let entered = own v full e.first w >>= enter (down e.first) full e.first in
    if e.first == 0 then ok (complain w (no_directory_cluster full)) else entered

abbrev pub no_walk : Walk
no_walk = record { problems = []; owner = []; mtime = []; found = [] }

-- path or "/"
pub or_slash : Text → Text
or_slash [] = b'/' ∷ []
or_slash (c ∷ cs) = c ∷ cs

-- What the standard library gives: `str.casefold`.
module _ (casefold : Text → Text) where
  -- the body of the loop of `visit`, on an entry that is yielded; `down` visits a directory below
  pub visit_entry :
      (ℕ → Text → Walk → Result Walk)
      → Volume
      → ℕ
      → Text
      → ℕ
      → Entry
      → Seen
      → Walk
      → Result (Seen × Walk)
  unfolding visit_file visit_dir text_in set_mtime
  visit_entry down v first path parent e s w0 =
      let full = under path e.name in
      let folded = casefold e.name in
      let w1 = record w0 { mtime = set_mtime full e.mtime w0.mtime } in
      let w = if text_in folded s.names then complain w1 (duplicate full) else w1 in
      let s' = record s { names = folded ∷ s.names } in
      let in_dir = (do w' ← visit_dir down v full e w; ok (s', w')) in
      let in_file = (do w' ← visit_file v full e w; ok (s', w')) in
      if text_eq e.name (b'.' ∷ [])
      then ok (
        record s { dot = true },
        (if not (e.first == first) then complain w0 (dot_target path) else w0),
      )
      else if text_eq e.name (b'.' ∷ b'.' ∷ [])
      then ok (
        record s { dotdot = true },
        (if not (e.first == parent) then complain w0 (dotdot_target path) else w0),
      )
      else if not (bit_and e.attr 0x10 == 0)
      then in_dir
      else in_file

  pub visit_yielded :
      (ℕ → Text → Walk → Result Walk)
      → Volume
      → ℕ
      → Text
      → ℕ
      → Option Entry
      → Seen
      → Walk
      → Result (Seen × Walk)
  unfolding visit_entry
  visit_yielded down v first path parent none s w = ok (s, w)
  visit_yielded down v first path parent (some e) s w = visit_entry down v first path parent e s w

  -- the loop of `visit`, with the rounds of `entries` between its own
  pub visit_entries :
      (ℕ → Text → Walk → Result Walk)
      → Volume
      → ℕ
      → Text
      → ℕ
      → List Bytes
      → Parts
      → Seen
      → Walk
      → Result (Seen × Walk)
  unfolding visit_yielded or_slash
  visit_entries down v first path parent [] p s w = ok (s, w)
  visit_entries down v first path parent (b ∷ bs) p s w0 =
      let (p', notes, yielded) = entry_step v.kind (or_slash path) p b in
      let w = record w0 { problems = w0.problems ++ notes } in
      do
        (s', w') ← visit_yielded down v first path parent yielded s w
        visit_entries down v first path parent bs p' s' w'

  -- `visit`; `depth` counts down from 65, one below the last depth that is entered
  pub visit : ℕ → Volume → ℕ → Text → ℕ → Walk → Result Walk
  unfolding visit_entries raw_entries
  visit zero v first path parent w = ok (complain w (too_deep path))
  visit (suc depth) v first path parent w = do
    bs ← raw_entries v first
    (s, w') ←
        visit_entries (λ fc full. visit depth v fc full first) v first path parent bs no_parts
          (record { names = []; dot = false; dotdot = false }) w
    ok (if not (first == 0) && not (s.dot && s.dotdot) then complain w' (no_dots path) else w')

  pub walk_root : Volume → Option (List ℕ) × Walk → Result Walk
  unfolding visit
  walk_root v (none, w) = ok w
  walk_root v (some cs, w) = visit 65 v 0 [] 0 w

  -- `walk`, onto the list of problems that its caller hands it
  unfoldable pub walk : Volume → List Complaint → Result Walk
  unfolding walk_root own
  walk v problems =
      let w = record no_walk { problems = problems } in
      let flat = walk_root v (some [], w) in
      let rooted = own v (b'/' ∷ []) v.root_cluster w >>= walk_root v in
      if is_fat32 v.kind then rooted else flat
