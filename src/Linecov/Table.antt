-- ===== src/Linecov/Table.antt =====
-- `line_table`: the addresses of a source's lines, from the rows that readelf prints.
use gopher_metal.Prelude.{
  ℕ, ◌+◌, ◌-◌, ◌*◌, ◌≡◌, refl, Bool, true, false, not, ◌&&◌, ◌||◌, List, [], ◌∷◌, ◌++◌, map, Option,
  none, some, contains, IsDistinct, if_elim, arith, leb, ◌==◌, if◌then◌else◌,
}
use gopher_metal.Prelude.Text.{Text, codes, text_in, ends_with}
use gopher_metal.Verdicts.Texts.{is_space}
use gopher_metal.Linecov.{Table}

-- the longest front whose characters all pass, and what stands behind it
unfoldable pub span : (ℕ → Bool) → Text → Text × Text
span test [] = ([], [])
span test (c ∷ cs) =
    let (front, back) = span test cs in if test c then (c ∷ front, back) else ([], c ∷ cs)

is_decimal : ℕ → Bool
is_decimal c = leb b'0' c && leb c b'9'

-- [0-9a-f]
is_hex : ℕ → Bool
unfolding is_decimal
is_hex c = is_decimal c || (leb b'a' c && leb c b'f')

hex_value : ℕ → ℕ
hex_value c = if leb c b'9' then c - b'0' else c - 87

-- int(digits, 10) and int(digits, 16)
number : ℕ → ℕ → Text → ℕ
unfolding hex_value
number base acc [] = acc
number base acc (c ∷ cs) = number base (acc * base + hex_value c) cs

is_empty : Text → Bool
is_empty [] = true
is_empty (c ∷ cs) = false

-- 0x[0-9a-f]+
address : ℕ → Text → Option (ℕ × ℕ)
unfolding span is_hex number is_empty
address line (z ∷ x ∷ rest) =
    let (hex, behind) = span is_hex rest in
    if z == b'0' && x == b'x' && not (is_empty hex) then some (number 16 0 hex, line) else none
address line _ = none

-- (\S+)\s+(\d+)\s+(0x[0-9a-f]+) at the start of a row: the address and the line. What the first and the
-- second take ends at white space, so it is as long as it can be.
unfoldable pub row_of : Text → Option (ℕ × ℕ)
unfolding span address is_decimal is_empty number
row_of row =
    let (name, rest) = span (λ c. not (is_space c)) row in
    let (gap, rest_2) = span is_space rest in
    let (digits, rest_3) = span is_decimal rest_2 in
    let (gap_2, rest_4) = span is_space rest_3 in
    if is_empty name || is_empty gap || is_empty digits || is_empty gap_2
    then none
    else address (number 10 0 digits) rest_4

-- a set with one more line
set_add : ℕ → List ℕ → List ℕ
set_add line lines = if contains lines line then lines else lines ++ (line ∷ [])

-- lines.setdefault(addr, set()).add(line)
unfoldable pub add_line : ℕ → ℕ → Table → Table
unfolding set_add
add_line addr line [] = (addr, line ∷ []) ∷ []
add_line addr line ((a, lines) ∷ table) =
    let rest = add_line addr line table in
    if addr == a then (a, set_add line lines) ∷ table else (a, lines) ∷ rest

-- row.endswith(":") and " " not in row
is_file : Text → Bool
is_file row = ends_with (codes ":") row && not (contains row b' ')

-- row[:-1]
but_last : Text → Text
but_last [] = []
but_last (c ∷ []) = []
but_last (c ∷ d ∷ cs) = c ∷ but_last (d ∷ cs)

add_row : Bool → Option (ℕ × ℕ) → Table → Table
unfolding add_line
add_row true (some (addr, line)) table = add_line addr line table
add_row _ _ table = table

-- the rows in their order; `wanted` says whether the file of the last row that names one is the source
unfoldable pub table_from : List Text → Bool → List Text → Table → Table
unfolding is_file but_last row_of add_row
table_from want wanted [] table = table
table_from want wanted (row ∷ rows) table =
    if is_file row
    then table_from want (text_in (but_last row) want) rows table
    else table_from want wanted rows (add_row wanted (row_of row) table)

-- `line_table`: `want` is the source's whole path and its bare name
unfoldable pub line_table : List Text → List Text → Table
unfolding table_from
line_table want rows = table_from want false rows []

abbrev addresses : Table → List ℕ
addresses table = map (λ row. row.0) table

add_line-addresses :
    (addr line a : ℕ) (table : Table)
    → contains (addresses (add_line addr line table)) a
      ≡ (a == addr || contains (addresses table) a)
unfolding add_line
add_line-addresses addr line a [] = ground arith
add_line-addresses addr line a ((b, lines) ∷ table) =
    let rest = add_line-addresses addr line a table in ground arith

add_line-IsDistinct :
    (addr line : ℕ) (table : Table)
    → IsDistinct (addresses table)
    → IsDistinct (addresses (add_line addr line table))
unfolding add_line
add_line-IsDistinct addr line [] h = (refl, tt)
add_line-IsDistinct addr line ((a, lines) ∷ table) h =
    if_elim (λ (t : Table). IsDistinct (addresses t)) (addr == a) ((a, set_add line lines) ∷ table)
      ((a, lines) ∷ add_line addr line table) (λ e. h)
      (λ e. (
        ground (arith, e, h.0, add_line-addresses addr line a table),
        add_line-IsDistinct addr line table h.1,
      ))

add_row-IsDistinct :
    (wanted : Bool) (row : Option (ℕ × ℕ)) (table : Table)
    → IsDistinct (addresses table)
    → IsDistinct (addresses (add_row wanted row table))
unfolding add_row
add_row-IsDistinct true (some (addr, line)) table h = add_line-IsDistinct addr line table h
add_row-IsDistinct true none table h = h
add_row-IsDistinct false row table h = h

table_from-IsDistinct :
    (want : List Text) (wanted : Bool) (rows : List Text) (table : Table)
    → IsDistinct (addresses table)
    → IsDistinct (addresses (table_from want wanted rows table))
unfolding table_from
table_from-IsDistinct want wanted [] table h = h
table_from-IsDistinct want wanted (row ∷ rows) table h =
    if_elim (λ (t : Table). IsDistinct (addresses t)) (is_file row)
      (table_from want (text_in (but_last row) want) rows table)
      (table_from want wanted rows (add_row wanted (row_of row) table))
      (λ e. table_from-IsDistinct want (text_in (but_last row) want) rows table h)
      (λ e.
        table_from-IsDistinct want wanted rows (add_row wanted (row_of row) table)
          (add_row-IsDistinct wanted (row_of row) table h))

-- An address stands once in the table, as a run asks for.
pub line_table-IsDistinct :
    (want rows : List Text) → IsDistinct (map (λ row. row.0) (line_table want rows))
unfolding line_table
line_table-IsDistinct want rows = table_from-IsDistinct want false rows [] tt
