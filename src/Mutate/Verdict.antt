-- ===== src/Mutate/Verdict.antt =====
-- `verdict` of tools/mutate_run.py, with the regular expressions that it looks for in the output of
-- `zig build test`. The classes \d, \w and \S are those of ASCII.
use gopher_metal.Prelude.{ℕ, zero, suc, Bool, not, ◌&&◌, ◌||◌, [], ◌∷◌, leb, ◌==◌, if◌then◌else◌}
use Prim.Native.String.{String}
use gopher_metal.Prelude.Text.{Text, codes}
use gopher_metal.Prelude.Regex.{
  Regex, empty, one, seq, alt, star, literal, plus, any_of, all_of, search_text,
}

-- `p.returncode`, and nothing where the run outlived its time; a signal's code is negative
pub data Exit : Type 0 where
  out_of_time : Exit
  exited signalled : ℕ → Exit

-- `stale` and the others are the words of the tools.
pub data Outcome : Type 0 where
  killed survived not_compiled timed_out unclassified stale : Outcome

abbrev lit : String → Regex
lit s = literal (codes s)

abbrev is_digit : ℕ → Bool
is_digit c = leb b'0' c && leb c b'9'

abbrev is_word : ℕ → Bool
is_word c = is_digit c || (leb b'A' c && leb c b'Z') || (leb b'a' c && leb c b'z') || c == b'_'

abbrev is_space : ℕ → Bool
is_space c = c == b' ' || (leb 9 c && leb c 13) || (leb 28 c && leb c 31)

-- what a dot matches, and [^'\n]
abbrev not_newline : ℕ → Bool
not_newline c = not (c == 10)

abbrev not_quote : ℕ → Bool
not_quote c = not (c == 10 || c == 39)

-- TEST_FAILED
unfoldable pub test_failed : Regex
test_failed = all_of (
    lit "error: '"
    ∷ star (one not_quote)
    ∷ lit "."
    ∷ alt (lit "test") (lit "decltest")
    ∷ one (λ c. c == b'.' || c == b'_')
    ∷ star (one not_newline)
    ∷ lit "' "
    ∷ any_of (
        lit "failed"
        ∷ all_of (lit "logged " ∷ plus (one is_digit) ∷ lit " errors" ∷ [])
        ∷ seq (lit "terminated with signal ")
            (any_of (lit "ABRT" ∷ lit "SEGV" ∷ lit "TRAP" ∷ lit "BUS" ∷ lit "ILL" ∷ lit "FPE" ∷ []))
        ∷ [])
    ∷ [])

-- TEST_COUNTED; the word boundary is the start, behind a space, or a character that is none of a word
unfoldable pub test_counted : Regex
test_counted = all_of (
    lit "run test "
    ∷ plus (one (λ c. not (is_space c)))
    ∷ lit " "
    ∷ alt empty (seq (star (one not_newline)) (one (λ c. not_newline c && not (is_word c))))
    ∷ one (λ c. leb b'1' c && leb c b'9')
    ∷ star (one is_digit)
    ∷ lit " "
    ∷ any_of (lit "fail" ∷ lit "crash" ∷ lit "leak" ∷ lit "error log" ∷ [])
    ∷ [])

-- KILLED_FROM_OUTSIDE
unfoldable pub killed_from_outside : Regex
killed_from_outside = lit "terminated with signal KILL"

-- COMPILE_ERROR
unfoldable pub compile_error : Regex
compile_error =
    all_of (lit ".zig:" ∷ plus (one is_digit) ∷ lit ":" ∷ plus (one is_digit) ∷ lit ": error:" ∷ [])

-- the verdict on the output of a run that ended with another code than 0
unfoldable pub verdict_of : Text → Outcome
unfolding test_failed test_counted killed_from_outside compile_error
verdict_of out =
    if search_text compile_error out
    then not_compiled
    else if search_text killed_from_outside out
    then unclassified
    else if search_text test_failed out || search_text test_counted out
    then killed
    else unclassified

-- `verdict`
unfoldable pub verdict : Exit → Text → Outcome
unfolding verdict_of
verdict out_of_time out = timed_out
verdict (exited zero) out = survived
verdict (exited (suc n)) out = verdict_of out
verdict (signalled n) out = verdict_of out
