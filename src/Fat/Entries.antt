-- ===== src/Fat/Entries.antt =====
-- The generator `Volume.entries` of tools/fat16_read.py: what it keeps of the parts of a long name,
-- and what it does with one 32-byte entry.
use Prim.Native.Nat.{bit_and}
use gopher_metal.Prelude.Text.{Text}
use gopher_metal.Prelude.{
  ℕ, zero, suc, ◌+◌, ◌-◌, ◌*◌, ◌^◌, Bool, true, false, not, ◌&&◌, ◌||◌, List, [], ◌∷◌, ◌++◌, Option,
  none, some, map, leb, ◌==◌, if◌then◌else◌, length, contains,
}
use gopher_metal.Fat.Bytes.{Bytes, le_value}
use gopher_metal.Fat.Volume.{Kind, fat16, fat32}
use gopher_metal.Fat.DosTime.{dos_time}
use gopher_metal.Fat.Dirent.{
  bytes_from, Complaint, part_order, missing_parts, wrong_checksum, high_half, short_name,
  lfn_checksum,
}

-- What the generator yields for an entry.
pub record Entry : Type 0 where
  pub name : Text
  pub attr : ℕ
  pub first : ℕ
  pub size : ℕ
  pub mtime : Option ℕ

-- `parts`, a dict in its order, `expect` and `checksum`
pub record Parts : Type 0 where
  pub parts : List (ℕ × List ℕ)
  pub expect : Option ℕ
  pub checksum : Option ℕ

abbrev pub no_parts : Parts
no_parts = record { parts = []; expect = none; checksum = none }

-- parts[seq] = chars
pub put_part : ℕ → List ℕ → List (ℕ × List ℕ) → List (ℕ × List ℕ)
put_part seq chars [] = (seq, chars) ∷ []
put_part seq chars ((k, old) ∷ ps) =
    if k == seq then (k, chars) ∷ ps else (k, old) ∷ put_part seq chars ps

-- parts[k], which is there when it is read
pub part_at : ℕ → List (ℕ × List ℕ) → List ℕ
part_at k [] = []
part_at k ((j, chars) ∷ ps) = if j == k then chars else part_at k ps

-- range(c, c + n)
pub range_from : ℕ → ℕ → List ℕ
range_from c zero = []
range_from c (suc n) = c ∷ range_from (c + 1) n

all_in : List ℕ → List ℕ → Bool
all_in [] ys = true
all_in (x ∷ xs) ys = contains ys x && all_in xs ys

-- set(parts) == set(range(1, expect + 1))
abbrev same_set : List ℕ → List ℕ → Bool
same_set xs ys = all_in xs ys && all_in ys xs

-- the halves of a surrogate pair
is_high : ℕ → Bool
is_high u = leb 0xD800 u && leb u 0xDBFF

is_low : ℕ → Bool
is_low u = leb 0xDC00 u && leb u 0xDFFF

-- one unit without the other half of its pair
alone : ℕ → ℕ
unfolding is_high is_low
alone u = if is_high u || is_low u then 0xFFFD else u

-- bytes.decode("utf-16-le", "replace"), with the unit that waits for the other half of a pair
pub decode_units : Option ℕ → List ℕ → Text
unfolding alone
decode_units none [] = []
decode_units (some high) [] = 0xFFFD ∷ []
decode_units pending (b ∷ []) = 0xFFFD ∷ []
decode_units none (b ∷ c ∷ rest) =
    let u = b + 256 * c in
    let plain = alone u ∷ decode_units none rest in
    let pair = decode_units (some u) rest in if is_high u then pair else plain
decode_units (some high) (b ∷ c ∷ rest) =
    let u = b + 256 * c in
    let joined = (0x10000 + (high - 0xD800) * 0x400 + (u - 0xDC00)) ∷ decode_units none rest in
    let again = 0xFFFD ∷ decode_units (some u) rest in
    let plain = 0xFFFD ∷ (alone u ∷ decode_units none rest) in
    if is_low u then joined else if is_high u then again else plain

-- text.split("\x00")[0]
pub before_nul : Text → Text
before_nul [] = []
before_nul (c ∷ cs) = if c == 0 then [] else c ∷ before_nul cs

join_parts : List ℕ → List (ℕ × List ℕ) → List ℕ
unfolding part_at
join_parts [] ps = []
join_parts (k ∷ ks) ps = part_at k ps ++ join_parts ks ps

abbrev keys : List (ℕ × List ℕ) → List ℕ
keys = map (λ (p : ℕ × List ℕ). p.0)

is_option : Option ℕ → ℕ → Bool
is_option none n = false
is_option (some m) n = m == n

-- where + "/" + name
abbrev pub under : Text → Text → Text
under path name = path ++ (b'/' ∷ name)

-- The name of a short entry behind the parts: the complaints and the name.
pub long_name : Text → Parts → List ℕ → Text → List Complaint × Text
unfolding range_from all_in decode_units before_nul join_parts is_option
long_name path p short name = elim p.parts [
  | [] ↦ ([], name)
  | q ∷ qs ↦ elim p.expect [
    | none ↦ (missing_parts (under path name) ∷ [], name)
    | some n ↦
        if not (length p.parts == n) || not (same_set (keys p.parts) (range_from 1 n))
        then (missing_parts (under path name) ∷ [], name)
        else if not (is_option p.checksum (lfn_checksum short))
        then (wrong_checksum (under path name) ∷ [], name)
        else ([], before_nul (decode_units none (join_parts (range_from 1 n) p.parts)))
  ]
]

-- e[1:11] + e[14:26] + e[28:32]
pub part_chars : Bytes → List ℕ
unfolding bytes_from
part_chars e = bytes_from 10 e 1 ++ (bytes_from 12 e 14 ++ bytes_from 4 e 28)

-- `expect is None or seq != expect - len(parts)`, where the difference may be negative
out_of_order : Parts → ℕ → Bool
out_of_order p seq = elim p.expect [ none ↦ true | some n ↦ not (seq + length p.parts == n) ]

-- an entry with the attribute ATTR_LONG
pub long_entry : Text → Parts → Bytes → Parts × List Complaint
unfolding put_part part_chars out_of_order is_option
long_entry path p e =
    let seq = bit_and (e.at 0) 0x1F in
    if not (bit_and (e.at 0) 0x40 == 0)
    then (
      record {
        parts = put_part seq (part_chars e) [];
        expect = some seq;
        checksum = some (e.at 13);
      },
      [],
    )
    else if out_of_order p seq || not (is_option p.checksum (e.at 13))
    then (record p { parts = []; expect = none }, part_order path ∷ [])
    else (record p { parts = put_part seq (part_chars e) p.parts }, [])

-- the first cluster, and the complaint about FAT16's high half
first_cluster : Kind → Text → Bytes → List Complaint × ℕ
first_cluster fat32 full e = ([], le_value 2 e 20 * 2 ^ 16 + le_value 2 e 26)
first_cluster fat16 full e =
    (if le_value 2 e 20 == 0 then [] else high_half full ∷ [], le_value 2 e 26)

-- an entry that the generator yields
pub short_entry : Kind → Text → Parts → Bytes → List Complaint × Entry
unfolding first_cluster long_name
short_entry kind path p e =
    let (notes, name) = long_name path p (bytes_from 11 e 0) (short_name e (e.at 12)) in
    let (more, first) = first_cluster kind (under path name) e in
    (
      notes ++ more,
      record {
        name = name;
        attr = e.at 11;
        first = first;
        size = le_value 4 e 28;
        mtime = dos_time (le_value 2 e 22) (le_value 2 e 24);
      },
    )

-- One round of the loop: the parts kept, the complaints, and what is yielded, if anything.
unfoldable pub entry_step : Kind → Text → Parts → Bytes → Parts × List Complaint × Option Entry
unfolding long_entry short_entry
entry_step kind path p e =
    let forget = record p { parts = []; expect = none } in
    if e.at 0 == 0xE5
    then (forget, [], none)
    else if e.at 11 == 0x0F
    then (let (q, notes) = long_entry path p e in (q, notes, none))
    else if not (bit_and (e.at 11) 8 == 0)
    then (forget, [], none)
    else (let (notes, found) = short_entry kind path p e in (forget, notes, some found))
