-- ===== src/Linecov.antt =====
-- tools/linecov.py: the lines of a source that a test binary ran, by breakpoints that are put back when they
-- are hit.
pub mod Words
pub mod Table
pub mod Measure
pub mod Bytes
pub mod Armed
pub mod Follows
pub mod Runs
pub mod Tests
use gopher_metal.Prelude.{
  ℕ, zero, suc, ◌+◌, ◌-◌, ◌*◌, ◌/◌, ◌%◌, ◌≡◌, Bool, true, false, List, [], ◌∷◌, ◌++◌, Option, none,
  some, contains, ◌==◌, if◌then◌else◌,
}
use gopher_metal.Linecov.Words.{byte_of, put_byte}

-- the words of the program's memory, by the address of their first byte; nothing where it is not mapped
abbrev pub Memory : Type 0
Memory = ℕ → Option ℕ

-- addr & ~7
abbrev pub base_of : ℕ → ℕ
base_of addr = addr / 8 * 8

-- `peek`; nothing where it raises OSError
unfoldable pub peek : Memory → ℕ → Option ℕ
peek memory base = memory base

unfoldable pub poke : Memory → ℕ → ℕ → Memory
poke memory base word p = if p == base then some word else memory p

put_back : Memory → ℕ → ℕ → Option ℕ → Option (ℕ × Memory)
unfolding poke
put_back memory addr byte none = none
put_back memory addr byte (some word) =
    some (byte_of (addr % 8) word, poke memory (base_of addr) (put_byte (addr % 8) byte word))

-- `poke_byte`: the byte that was there, and the memory behind the write
unfoldable pub poke_byte : Memory → ℕ → ℕ → Option (ℕ × Memory)
unfolding put_back peek
poke_byte memory addr byte = put_back memory addr byte (peek memory (base_of addr))

-- the line table: each address with its lines
abbrev pub Table : Type 0
Table = List (ℕ × List ℕ)

-- the breakpoints that are set, each with the byte that it stands for
abbrev pub Saved : Type 0
Saved = List (ℕ × ℕ)

-- {addr: poke_byte(pid, addr, 0xCC) for addr in table}; nothing where a poke raises
unfoldable pub set_all : Table → Memory → Saved → Option (Saved × Memory)
set_all [] memory saved = some (saved, memory)
set_all ((addr, lines) ∷ table) memory saved = elim (poke_byte memory addr 204) [
  | none ↦ none
  | some (byte, after) ↦ set_all table after ((addr, byte) ∷ saved)
]

-- saved[at]
unfoldable pub lookup {ℓ} : {V : Type ℓ} → ℕ → List (ℕ × V) → Option V
lookup at [] = none
lookup at ((addr, byte) ∷ rest) = if at == addr then some byte else lookup at rest

-- what saved.pop(at) leaves
unfoldable pub without : ℕ → Saved → Saved
without at [] = []
without at ((addr, byte) ∷ rest) =
    let other = without at rest in if at == addr then other else (addr, byte) ∷ other

-- What os.waitpid gives: an exit, a signal that ended the program, or a stop by a signal with the address
-- that comes next.
pub data Stop : Type 0 where
  exited signaled : ℕ → Stop
  stopped : ℕ → ℕ → Stop

-- The tracer between two stops; `sig` is passed on at the next continue, and `resume` is where the
-- program was set to go on.
pub record Tracer : Type 0 where
  pub memory : Memory
  pub saved : Saved
  pub hit : List ℕ
  pub sig : ℕ
  pub resume : Option ℕ

lines_at : ℕ → Table → List ℕ
lines_at at [] = []
lines_at at ((addr, lines) ∷ rest) = if at == addr then lines else lines_at at rest

-- a breakpoint that was hit
at_breakpoint : Table → ℕ → Tracer → Option (ℕ × Memory) → Option Tracer
unfolding lines_at
at_breakpoint table at t none = none
at_breakpoint table at t (some (old, memory)) = some record {
  memory = memory;
  saved = without at t.saved;
  hit = t.hit ++ lines_at at table;
  sig = 0;
  resume = some at;
}

at_trap : Table → ℕ → Tracer → Option ℕ → Option Tracer
unfolding at_breakpoint
at_trap table at t none =
    some record { memory = t.memory; saved = t.saved; hit = t.hit; sig = 5; resume = none }
at_trap table at t (some byte) = at_breakpoint table at t (poke_byte t.memory at byte)

-- a stop by SIGTRAP: `at` is one less than the address that comes next, and no breakpoint where that is
-- below 0
at_next : Table → Tracer → ℕ → Option Tracer
unfolding at_trap lookup
at_next table t zero = at_trap table zero t none
at_next table t (suc at) = at_trap table at t (lookup at t.saved)

-- a stop by a signal; SIGTRAP is 5
unfoldable pub on_stop : Table → Tracer → ℕ → ℕ → Option Tracer
unfolding at_next
on_stop table t sig rip =
    if sig == 5
    then at_next table t rip
    else some record { memory = t.memory; saved = t.saved; hit = t.hit; sig = sig; resume = none }

-- How a run goes: to its end, with the tracer that was left and the stop that ended it, on beyond the stops
-- that are given, or into an OSError.
pub data Ran : Type 0 where
  finished : Tracer → Stop → Ran
  running : Tracer → Ran
  os_error : Ran

-- the loop of `run`, over the stops in their order
unfoldable pub run_from : Table → Tracer → List Stop → Ran
unfolding on_stop
run_from table t [] = running t
run_from table t (exited code ∷ stops) = finished t (exited code)
run_from table t (signaled sig ∷ stops) = finished t (signaled sig)
run_from table t (stopped sig rip ∷ stops) = elim (on_stop table t sig rip) [
  | none ↦ os_error
  | some after ↦ run_from table after stops
]

-- `run`, of the memory that the exec left
unfoldable pub run : Table → Memory → List Stop → Ran
unfolding run_from set_all
run table memory stops = elim (set_all table memory []) [
  | none ↦ os_error
  | some (saved, after) ↦
      run_from table record { memory = after; saved = saved; hit = []; sig = 0; resume = none }
        stops
]
