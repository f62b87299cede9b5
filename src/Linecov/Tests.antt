-- ===== src/Linecov/Tests.antt =====
-- A program of one word with two breakpoints, and the theorem at it.
use gopher_metal.Prelude.{
  ℕ, ◌+◌, ◌*◌, ◌≡◌, ◌↔◌, contains, true, false, refl, List, [], ◌∷◌, none, some, All, ◌==◌,
  if◌then◌else◌,
}
use gopher_metal.Prelude.Text.{Text, codes, text_eq, text_in, ends_with}
use gopher_metal.Linecov.Table.{line_table, row_of, span, add_line}
use gopher_metal.Linecov.Measure.{Binary, missed, is_in, is_hit, missed_iff}
use gopher_metal.Verdicts.Texts.{is_space}
use gopher_metal.Linecov.Words.{byte_of, put_byte}
use gopher_metal.Linecov.Bytes.{byte_at}
use gopher_metal.Linecov.Runs.{IsTraced, run-IsTraced, tracer_of}
use gopher_metal.Linecov.{
  poke_byte, Memory, Table, Tracer, Stop, exited, stopped, Ran, finished, running, os_error, run,
  lookup, without,
}

-- the word at 16: the bytes 1, 2, 3 and 4 from its low end
abbrev text : Memory
text p = if p == 16 then some (1 + 256 * (2 + 256 * (3 + 256 * 4))) else none

abbrev table : Table
table = (17, 30 ∷ []) ∷ (19, 31 ∷ 32 ∷ []) ∷ []

-- The breakpoint at 19 is hit, and the program exits with 0.
abbrev stops : List Stop
stops = stopped 5 20 ∷ exited 0 ∷ []

hit_lines : Ran → List ℕ
hit_lines (finished t stop) = t.hit
hit_lines (running t) = t.hit
hit_lines os_error = []

two_lines : hit_lines (run table text stops) ≡ 31 ∷ 32 ∷ []
unfolding hit_lines run lookup without byte_of put_byte poke_byte
two_lines = refl

-- Two rows of readelf's output behind the name of the file, and one of another file.
abbrev rows : List Text
rows =
    codes "a.zig:"
    ∷ codes "a.zig    30    0x11    x"
    ∷ codes "a.zig    31    0x13"
    ∷ codes "b.zig:"
    ∷ codes "b.zig    7    0x20"
    ∷ []

read_rows : line_table (codes "a.zig" ∷ []) rows ≡ (17, 30 ∷ []) ∷ (19, 31 ∷ []) ∷ []
unfolding line_table row_of span add_line ends_with text_eq text_in is_space
read_rows = refl

mapped :
    All
      (λ row. (byte : ℕ) × (byte_at text row.0 ≡ some byte))
      (line_table (codes "a.zig" ∷ []) rows)
unfolding byte_at byte_of line_table row_of span add_line ends_with text_eq text_in is_space
mapped = ((2, refl), ((4, refl), tt))

run-IsTraced_example :
    (t : Tracer) × (tracer_of (run (line_table (codes "a.zig" ∷ []) rows) text stops) ≡ some t)
    × IsTraced (line_table (codes "a.zig" ∷ []) rows) text stops t
run-IsTraced_example = run-IsTraced (codes "a.zig" ∷ []) rows text stops mapped

abbrev binary : Binary
binary = record { table = table; hit = 31 ∷ 32 ∷ []; is_zero = true }

missed_iff_example :
    (contains (missed (λ n. n == 99) (binary ∷ [])) 30 ≡ true)
    ↔ ((is_in (binary ∷ []) 30 ≡ true) × ((30 == 99) ≡ false) × (is_hit (binary ∷ []) 30 ≡ false))
missed_iff_example = missed_iff (λ n. n == 99) (binary ∷ []) 30
