-- ===== src/Linecov/Follows.antt =====
-- What the tracer has at a stop: the breakpoints that were not hit, and the lines of those that were.
use gopher_metal.Prelude.{
  ℕ, zero, suc, ◌+◌, ◌≡◌, refl, sym, ap, ◌∙◌, Bool, true, false, not, ◌&&◌, ◌||◌, List, [], ◌∷◌,
  ◌++◌, map, Option, none, some, Option-cases, Bool-cases, inl, inr, IsDistinct, contains,
  contains-append, arith, ◌==◌,
}
use gopher_metal.Linecov.{
  Memory, Table, Saved, poke_byte, set_all, lookup, without, Stop, exited, signaled, stopped,
  Tracer, lines_at, at_breakpoint, at_trap, at_next, on_stop,
}
use gopher_metal.Linecov.Armed.{lookup-without}

abbrev pub addresses : Table → List ℕ
addresses table = map (λ row. row.0) table

abbrev pub is_some : Option ℕ → Bool
is_some none = false
is_some (some x) = true

-- A stop by SIGTRAP behind the byte at `addr`.
abbrev pub is_trap : ℕ → ℕ → ℕ → Bool
is_trap sig rip addr = sig == 5 && rip == addr + 1

-- Before the program ended, it was stopped by SIGTRAP behind the byte at `addr`.
abbrev pub trapped : List Stop → ℕ → Bool
trapped [] addr = false
trapped (exited code ∷ stops) addr = false
trapped (signaled sig ∷ stops) addr = false
trapped (stopped sig rip ∷ stops) addr = is_trap sig rip addr || trapped stops addr

-- The line is one of an address of the table that the test holds of.
abbrev pub is_line : (ℕ → Bool) → Table → ℕ → Bool
is_line test [] n = false
is_line test ((addr, lines) ∷ table) n = (test addr && contains lines n) || is_line test table n

-- Breakpoints are at the addresses of the table that are not gone, and the lines of those that are gone
-- are hit.
pub record Follows (table : Table) (gone : ℕ → Bool) (t : Tracer) : Type 0 where
  pub standing :
      (a : ℕ) → is_some (lookup a t.saved) ≡ (contains (addresses table) a && not (gone a))
  pub measured : (n : ℕ) → contains t.hit n ≡ is_line gone table n

pub is_line-eq :
    (f g : ℕ → Bool) (table : Table)
    → ((a : ℕ) → contains (addresses table) a ≡ true → f a ≡ g a)
    → (n : ℕ) → is_line f table n ≡ is_line g table n
is_line-eq f g [] same n = refl
is_line-eq f g ((x, lines) ∷ table) same n =
    let here = same x (ground arith) in
    let rest = is_line-eq f g table (λ a there. same a (ground arith)) n in ground arith

-- The lines of one more address.
is_line-more :
    (f : ℕ → Bool) (table : Table) (at n : ℕ)
    → IsDistinct (addresses table)
    → is_line (λ a. f a || at == a) table n ≡ (is_line f table n || contains (lines_at at table) n)
unfolding lines_at
is_line-more f [] at n keys = refl
is_line-more f ((x, lines) ∷ table) at n keys = elim (Bool-cases (at == x)) [
  | inr other ↦ let rest = is_line-more f table at n keys.1 in ground arith
  | inl same ↦
      let rest =
        is_line-eq (λ a. f a || at == a) f table
          (λ a there. elim (Bool-cases (at == a)) [
            | inl e ↦ absurd (ground (arith, keys.0))
            | inr e ↦ ground arith
          ])
          n in
      ground arith
]

pub Follows-eq :
    (table : Table) (f g : ℕ → Bool) (t : Tracer)
    → ((a : ℕ) → contains (addresses table) a ≡ true → f a ≡ g a)
    → Follows table f t
    → Follows table g t
Follows-eq table f g t same was = record {
  standing = λ a. elim (Bool-cases (contains (addresses table) a)) [
    | inl there ↦ let e = same a there in let w = was.standing a in ground arith
    | inr away ↦ let w = was.standing a in ground arith
  ];
  measured = λ n. was.measured n ∙ is_line-eq f g table same n;
}

-- A breakpoint that is hit is gone, with its lines.
at_breakpoint-Follows :
    (table : Table) (gone : ℕ → Bool) (at : ℕ) (t next : Tracer) (o : Option (ℕ × Memory))
    → IsDistinct (addresses table)
    → Follows table gone t
    → at_breakpoint table at t o ≡ some next
    → Follows table (λ a. gone a || at == a) next
unfolding at_breakpoint
at_breakpoint-Follows table gone at t next none keys was h = absurd (ground arith)
at_breakpoint-Follows table gone at t next (some (old, memory)) keys was h =
    let saved_is : next.saved ≡ without at t.saved = ground arith in
    let hit_is : next.hit ≡ t.hit ++ lines_at at table = ground arith in
    record {
      standing = λ a.
          (let w = lookup-without at a t.saved in
            let s = was.standing a in
            ap (λ (x : Saved). is_some (lookup a x)) saved_is
            ∙ (elim (Bool-cases (a == at)) [ inl same ↦ ground arith | inr other ↦ ground arith ]));
      measured = λ n.
          ap (λ (x : List ℕ). contains x n) hit_is
          ∙ contains-append t.hit (lines_at at table) n
          ∙ ap (λ b. b || contains (lines_at at table) n) (was.measured n)
          ∙ sym (is_line-more gone table at n keys);
    }

at_trap-Follows :
    (table : Table) (gone : ℕ → Bool) (at : ℕ) (t next : Tracer) (o : Option ℕ)
    → IsDistinct (addresses table)
    → Follows table gone t
    → lookup at t.saved ≡ o
    → at_trap table at t o ≡ some next
    → Follows table (λ a. gone a || at == a) next
unfolding at_trap
at_trap-Follows table gone at t next none keys was absent h =
    let s = was.standing at in
    let now : Follows table gone next = record {
      standing = λ a.
          (let e : next.saved ≡ t.saved = ground arith in
            ap (λ (x : Saved). is_some (lookup a x)) e ∙ was.standing a);
      measured = λ n.
          (let e : next.hit ≡ t.hit = ground arith in
            ap (λ (x : List ℕ). contains x n) e ∙ was.measured n);
    } in
    Follows-eq table gone (λ a. gone a || at == a) next
      (λ a there. elim (Bool-cases (at == a)) [
        | inl same ↦ ground arith
        | inr other ↦ ground arith
      ])
      now
at_trap-Follows table gone at t next (some byte) keys was there h =
    at_breakpoint-Follows table gone at t next (poke_byte t.memory at byte) keys was h

at_next-Follows :
    (table : Table) (gone : ℕ → Bool) (t next : Tracer) (rip : ℕ)
    → IsDistinct (addresses table)
    → Follows table gone t
    → at_next table t rip ≡ some next
    → Follows table (λ a. gone a || rip == a + 1) next
unfolding at_next at_trap
at_next-Follows table gone t next zero keys was h =
    Follows-eq table gone (λ a. gone a || 0 == a + 1) next (λ a there. ground arith)
      (record {
        standing = λ a.
            (let e : next.saved ≡ t.saved = ground arith in
              ap (λ (x : Saved). is_some (lookup a x)) e ∙ was.standing a);
        measured = λ n.
            (let e : next.hit ≡ t.hit = ground arith in
              ap (λ (x : List ℕ). contains x n) e ∙ was.measured n);
      })
at_next-Follows table gone t next (suc at) keys was h =
    Follows-eq table (λ a. gone a || at == a) (λ a. gone a || suc at == a + 1) next
      (λ a there. ground arith)
      (at_trap-Follows table gone at t next (lookup at t.saved) keys was refl h)

-- Behind a stop, the byte that it may have been at is gone too.
pub on_stop-Follows :
    (table : Table) (gone : ℕ → Bool) (t next : Tracer) (sig rip : ℕ)
    → IsDistinct (addresses table)
    → Follows table gone t
    → on_stop table t sig rip ≡ some next
    → Follows table (λ a. gone a || is_trap sig rip a) next
unfolding on_stop
on_stop-Follows table gone t next sig rip keys was h = elim (Bool-cases (sig == 5)) [
  | inl trap ↦
      Follows-eq table (λ a. gone a || rip == a + 1) (λ a. gone a || is_trap sig rip a) next
        (λ a there. ground arith) (at_next-Follows table gone t next rip keys was (ground arith))
  | inr other ↦
      Follows-eq table gone (λ a. gone a || is_trap sig rip a) next (λ a there. ground arith)
        (record {
          standing = λ a.
              (let e : next.saved ≡ t.saved = ground arith in
                ap (λ (x : Saved). is_some (lookup a x)) e ∙ was.standing a);
          measured = λ n.
              (let e : next.hit ≡ t.hit = ground arith in
                ap (λ (x : List ℕ). contains x n) e ∙ was.measured n);
        })
]

-- Setting the breakpoints adds the table's addresses.
pub set_all-standing :
    (table : Table) (memory after : Memory) (saved set : Saved)
    → set_all table memory saved ≡ some (set, after)
    → (a : ℕ) → is_some (lookup a set) ≡ (contains (addresses table) a || is_some (lookup a saved))
unfolding set_all lookup
set_all-standing [] memory after saved set h a =
    let e : saved ≡ set = ground arith in ap (λ (x : Saved). is_some (lookup a x)) (sym e)
set_all-standing ((addr, lines) ∷ table) memory after saved set h a =
    elim (Option-cases (poke_byte memory addr 204)) [
      | inl absent ↦ absurd (ground arith)
      | inr ((byte, next), there) ↦
          let rest =
            set_all-standing table next after ((addr, byte) ∷ saved) set (ground arith) a in
          ground arith
    ]
