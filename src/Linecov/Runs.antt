-- ===== src/Linecov/Runs.antt =====
-- A run, from the exec on: the breakpoints are set, and each is taken away where it is hit.
use gopher_metal.Prelude.{
  ℕ, zero, suc, ◌≡◌, refl, sym, ap, subst, not, ◌&&◌, ◌||◌, Option-cases, inl, inr, ◌∙◌, Bool, true,
  false, List, [], ◌∷◌, map, Option, none, some, All, IsDistinct, contains, arith, ◌==◌,
  if◌then◌else◌,
}
use gopher_metal.Linecov.{
  Memory, Table, Saved, set_all, lookup, Stop, exited, signaled, stopped, Tracer, at_breakpoint,
  at_trap, at_next, on_stop, Ran, finished, running, os_error, run_from, run,
}
use gopher_metal.Prelude.Text.{Text}
use gopher_metal.Linecov.Table.{line_table, line_table-IsDistinct}
use gopher_metal.Linecov.Bytes.{byte_at, poke_byte-mapped}
use gopher_metal.Linecov.Armed.{IsArmed, arm, disarm}
use gopher_metal.Linecov.Follows.{
  addresses, is_some, is_trap, trapped, is_line, Follows, Follows-eq, on_stop-Follows,
  set_all-standing,
}

set_next : Table → ℕ → Saved → Option (ℕ × Memory) → Option (Saved × Memory)
set_next table addr saved o = elim o [
  | none ↦ none
  | some (byte, after) ↦ set_all table after ((addr, byte) ∷ saved)
]

fresh_rows :
    (addr byte : ℕ) (table : Table) (saved : Saved)
    → contains (map (λ row. row.0) table) addr ≡ false
    → All (λ row. lookup row.0 saved ≡ none) table
    → All (λ row. lookup row.0 ((addr, byte) ∷ saved) ≡ none) table
unfolding lookup
fresh_rows addr byte [] saved h k = tt
fresh_rows addr byte ((x, lines) ∷ table) saved h k =
    let now = k.0 in (ground arith, fresh_rows addr byte table saved (ground arith) k.1)

set_all-arms :
    (origin memory : Memory) (table : Table) (saved : Saved)
    → IsArmed origin memory saved
    → IsDistinct (map (λ row. row.0) table)
    → All (λ row. (byte : ℕ) × (byte_at origin row.0 ≡ some byte)) table
    → All (λ row. lookup row.0 saved ≡ none) table
    → (set : Saved) × (after : Memory) × (set_all table memory saved ≡ some (set, after))
      × IsArmed origin after set
unfolding set_all set_next
set_all-arms origin memory [] saved armed keys mapped new = (saved, memory, refl, armed)
set_all-arms origin memory ((addr, lines) ∷ table) saved armed keys mapped new =
    let (byte, there) = mapped.0 in
    let (next, e) = poke_byte-mapped memory addr 204 byte (armed.kept addr new.0 ∙ there) in
    let (set, after, k, a) =
      set_all-arms origin next table ((addr, byte) ∷ saved)
        (arm origin memory next saved addr byte armed new.0 e) keys.1 mapped.1
        (fresh_rows addr byte table saved keys.0 new.1) in
    (set, after, ap (set_next table addr saved) e ∙ k, a)

at_trap-arms :
    (origin : Memory) (table : Table) (at : ℕ) (t : Tracer) (o : Option ℕ)
    → IsArmed origin t.memory t.saved
    → lookup at t.saved ≡ o
    → (after : Tracer) × (at_trap table at t o ≡ some after)
      × IsArmed origin after.memory after.saved
unfolding at_trap at_breakpoint
at_trap-arms origin table at t none armed set = (_, refl, armed)
at_trap-arms origin table at t (some byte) armed set =
    let (memory, e) = poke_byte-mapped t.memory at byte 204 ((armed.seen at byte set).0) in
    (
      _,
      ap (at_breakpoint table at t) e,
      disarm origin t.memory memory t.saved at byte 204 armed set e,
    )

at_next-arms :
    (origin : Memory) (table : Table) (t : Tracer) (rip : ℕ)
    → IsArmed origin t.memory t.saved
    → (after : Tracer) × (at_next table t rip ≡ some after)
      × IsArmed origin after.memory after.saved
unfolding at_next at_trap
at_next-arms origin table t zero armed = (_, refl, armed)
at_next-arms origin table t (suc at) armed =
    at_trap-arms origin table at t (lookup at t.saved) armed refl

stop_at : Table → Tracer → ℕ → ℕ → Bool → Option Tracer
stop_at table t sig rip trap =
    if trap
    then at_next table t rip
    else some record { memory = t.memory; saved = t.saved; hit = t.hit; sig = sig; resume = none }

stop_at-arms :
    (origin : Memory) (table : Table) (t : Tracer) (sig rip : ℕ) (trap : Bool)
    → IsArmed origin t.memory t.saved
    → (after : Tracer) × (stop_at table t sig rip trap ≡ some after)
      × IsArmed origin after.memory after.saved
unfolding stop_at
stop_at-arms origin table t sig rip true armed = at_next-arms origin table t rip armed
stop_at-arms origin table t sig rip false armed = (_, refl, armed)

-- the tracer of a run, where it has one
abbrev pub tracer_of : Ran → Option Tracer
tracer_of (finished t stop) = some t
tracer_of (running t) = some t
tracer_of os_error = none

run_next : Table → List Stop → Option Tracer → Ran
run_next table stops o = elim o [ none ↦ os_error | some after ↦ run_from table after stops ]

run_from-arms :
    (origin : Memory) (table : Table) (t : Tracer) (stops : List Stop)
    → IsArmed origin t.memory t.saved
    → (after : Tracer) × (tracer_of (run_from table t stops) ≡ some after)
      × IsArmed origin after.memory after.saved
unfolding run_from on_stop stop_at run_next
run_from-arms origin table t [] armed = (t, refl, armed)
run_from-arms origin table t (exited code ∷ stops) armed = (t, refl, armed)
run_from-arms origin table t (signaled sig ∷ stops) armed = (t, refl, armed)
run_from-arms origin table t (stopped sig rip ∷ stops) armed =
    let (next, e, armed_next) = stop_at-arms origin table t sig rip (sig == 5) armed in
    let (after, k, a) = run_from-arms origin table next stops armed_next in
    (after, ap (λ o. tracer_of (run_next table stops o)) e ∙ k, a)

unset-IsArmed : (memory : Memory) → IsArmed memory memory []
unfolding lookup
unset-IsArmed memory = record { seen = λ addr byte h. absurd (ground arith); kept = λ addr h. refl }

run_set : Table → List Stop → Option (Saved × Memory) → Ran
run_set table stops o = elim o [
  | none ↦ os_error
  | some (saved, after) ↦
      run_from table record { memory = after; saved = saved; hit = []; sig = 0; resume = none }
        stops
]

abbrev nothing : Saved
nothing = []

All-lookup : (table : Table) → All (λ row. lookup row.0 nothing ≡ none) table
unfolding lookup
All-lookup [] = tt
All-lookup (row ∷ table) = (refl, All-lookup table)

-- The tracer follows the stops from where it stands.
run_from-Follows :
    (table : Table) (gone : ℕ → Bool) (t after : Tracer) (stops : List Stop)
    → IsDistinct (addresses table)
    → Follows table gone t
    → tracer_of (run_from table t stops) ≡ some after
    → Follows table (λ a. gone a || trapped stops a) after
unfolding run_from
run_from-Follows table gone t after [] keys was h =
    Follows-eq table gone _ after (λ a there. ground arith)
      (subst (Follows table gone) (ground arith) was)
run_from-Follows table gone t after (exited code ∷ stops) keys was h =
    Follows-eq table gone _ after (λ a there. ground arith)
      (subst (Follows table gone) (ground arith) was)
run_from-Follows table gone t after (signaled sig ∷ stops) keys was h =
    Follows-eq table gone _ after (λ a there. ground arith)
      (subst (Follows table gone) (ground arith) was)
run_from-Follows table gone t after (stopped sig rip ∷ stops) keys was h =
    elim (Option-cases (on_stop table t sig rip)) [
      | inl raised ↦ absurd (ground arith)
      | inr (next, there) ↦
          let now = on_stop-Follows table gone t next sig rip keys was there in
          let rest =
            run_from-Follows table (λ a. gone a || is_trap sig rip a) next after stops keys now
              (ground arith) in
          Follows-eq table _ (λ a. gone a || trapped (stopped sig rip ∷ stops) a) after
            (λ a there. ground arith) rest
    ]

-- What a run leaves of a table: a breakpoint at its addresses where the program was not stopped, the byte
-- that was there everywhere else, and the lines of the addresses where it was stopped.
pub record IsTraced (table : Table) (origin : Memory) (stops : List Stop) (t : Tracer)
    : Type 0 where
  pub bytes :
      (a : ℕ)
      → byte_at t.memory a ≡ (
          if contains (addresses table) a && not (trapped stops a)
          then some 204
          else byte_at origin a)
  pub saves :
      (a : ℕ)
      → lookup a t.saved
        ≡ (if contains (addresses table) a && not (trapped stops a) then byte_at origin a else none)
  pub lines : (n : ℕ) → contains t.hit n ≡ is_line (trapped stops) table n

Follows-IsTraced :
    (table : Table) (origin : Memory) (stops : List Stop) (t : Tracer)
    → IsArmed origin t.memory t.saved
    → Follows table (trapped stops) t
    → IsTraced table origin stops t
Follows-IsTraced table origin stops t armed was = record {
  bytes = λ a.
      (let s = was.standing a in
        elim (Option-cases (lookup a t.saved)) [
          | inl absent ↦ let k = armed.kept a absent in ground arith
          | inr (byte, there) ↦ let k = (armed.seen a byte there).0 in ground arith
        ]);
  saves = λ a.
      (let s = was.standing a in
        elim (Option-cases (lookup a t.saved)) [
          | inl absent ↦ ground arith
          | inr (byte, there) ↦ let k = (armed.seen a byte there).1 in ground arith
        ]);
  lines = was.measured;
}

no_line : (table : Table) (n : ℕ) → is_line (λ a. false) table n ≡ false
no_line [] n = refl
no_line ((x, lines) ∷ table) n = no_line table n

nothing_saved :
    (there : Bool) (a : ℕ) → (there || is_some (lookup a nothing)) ≡ (there && not false)
unfolding lookup
nothing_saved true a = refl
nothing_saved false a = refl

run-traces :
    (table : Table) (memory : Memory) (stops : List Stop)
    → IsDistinct (addresses table)
    → All (λ row. (byte : ℕ) × (byte_at memory row.0 ≡ some byte)) table
    → (t : Tracer) × (tracer_of (run table memory stops) ≡ some t) × IsTraced table memory stops t
unfolding run run_set
run-traces table memory stops keys mapped =
    let (saved, after, e, armed) =
      set_all-arms memory memory table [] (unset-IsArmed memory) keys mapped (All-lookup table) in
    let start : Tracer = record {
      memory = after;
      saved = saved;
      hit = [];
      sig = 0;
      resume = none;
    } in
    let (t, k, a) = run_from-arms memory table start stops armed in
    let standing = set_all-standing table memory after [] saved e in
    let was : Follows table (λ a. false) start = record {
      standing = λ a. standing a ∙ nothing_saved (contains (addresses table) a) a;
      measured = λ n. sym (no_line table n);
    } in
    (
      t,
      ap (λ o. tracer_of (run_set table stops o)) e ∙ k,
      Follows-IsTraced table memory stops t a
          (run_from-Follows table (λ a. false) start t stops keys was k),
    )

-- Of the table that is read from readelf's rows, with addresses that are mapped, a run raises no OSError,
-- whatever the stops. Where it stands, 0xCC is at the addresses of the table behind which no SIGTRAP stopped
-- the program before its end, and every other byte is as the exec left it; what is saved is the byte that
-- the exec left at those addresses; and the lines that were hit are those of the other addresses of the
-- table.
pub run-IsTraced :
    (want rows : List Text) (memory : Memory) (stops : List Stop)
    → All (λ row. (byte : ℕ) × (byte_at memory row.0 ≡ some byte)) (line_table want rows)
    → (t : Tracer) × (tracer_of (run (line_table want rows) memory stops) ≡ some t)
      × IsTraced (line_table want rows) memory stops t
run-IsTraced want rows memory stops mapped =
    run-traces (line_table want rows) memory stops (line_table-IsDistinct want rows) mapped
