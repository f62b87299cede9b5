-- ===== src/Linecov/Armed.antt =====
-- The memory of the program: a breakpoint where one is set, and the byte that was there everywhere else.
use gopher_metal.Prelude.{
  ℕ, ◌≡◌, sym, ap, ◌∙◌, [], ◌∷◌, none, some, Bool-cases, inl, inr, arith, ◌==◌, if◌then◌else◌,
}
use gopher_metal.Linecov.{Memory, poke_byte, Saved, lookup, without}
use gopher_metal.Linecov.Bytes.{
  byte_at, byte_at_range, poke_byte-old, poke_byte-here, poke_byte-there,
}

-- A breakpoint stands where one is set, for the byte that was there, and every other byte is as it was.
pub record IsArmed (origin memory : Memory) (saved : Saved) : Type 0 where
  pub seen :
      (addr byte : ℕ)
      → lookup addr saved ≡ some byte
      → (byte_at memory addr ≡ some 204) × (byte_at origin addr ≡ some byte)
  pub kept : (addr : ℕ) → lookup addr saved ≡ none → byte_at memory addr ≡ byte_at origin addr

-- What is saved once an address is taken away.
pub lookup-without :
    (at addr : ℕ) (saved : Saved)
    → lookup addr (without at saved) ≡ (if addr == at then none else lookup addr saved)
unfolding lookup without
lookup-without at addr [] = ground arith
lookup-without at addr ((x, byte) ∷ rest) = let r = lookup-without at addr rest in ground arith

-- A breakpoint more, at an address that has none.
pub arm :
    (origin memory after : Memory) (saved : Saved) (addr byte : ℕ)
    → IsArmed origin memory saved
    → lookup addr saved ≡ none
    → poke_byte memory addr 204 ≡ some (byte, after)
    → IsArmed origin after ((addr, byte) ∷ saved)
unfolding lookup
arm origin memory after saved addr byte armed new h =
    let old = poke_byte-old memory after addr 204 byte h in
    let here = poke_byte-here memory after addr 204 byte (omega arith) h in
    let was = armed.kept addr new in
    record {
      seen = λ a b k. elim (Bool-cases (a == addr)) [
        | inl same ↦
            let e : a ≡ addr = ground arith in
            let n : byte ≡ b = ground arith in
            (ap (byte_at after) e ∙ here, ap (byte_at origin) e ∙ sym was ∙ old ∙ ap some n)
        | inr away ↦
            let (s, o) = armed.seen a b (ground arith) in
            (poke_byte-there memory after addr 204 byte a (omega arith) away h ∙ s, o)
      ];
      kept = λ a k. elim (Bool-cases (a == addr)) [
        | inl same ↦ absurd (ground arith)
        | inr away ↦
            poke_byte-there memory after addr 204 byte a (omega arith) away h
            ∙ armed.kept a (ground arith)
      ];
    }

-- A breakpoint less: its byte is put back.
pub disarm :
    (origin memory after : Memory) (saved : Saved) (addr byte old : ℕ)
    → IsArmed origin memory saved
    → lookup addr saved ≡ some byte
    → poke_byte memory addr byte ≡ some (old, after)
    → IsArmed origin after (without addr saved)
disarm origin memory after saved addr byte old armed set h =
    let (now, o) = armed.seen addr byte set in
    let small = byte_at_range origin addr byte o in
    let here = poke_byte-here memory after addr byte old small h in
    record {
      seen = λ a b k.
          (let w = lookup-without addr a saved in
            elim (Bool-cases (a == addr)) [
              | inl same ↦ absurd (ground arith)
              | inr away ↦
                  let (s, q) = armed.seen a b (ground arith) in
                  (poke_byte-there memory after addr byte old a small away h ∙ s, q)
            ]);
      kept = λ a k.
          (let w = lookup-without addr a saved in
            elim (Bool-cases (a == addr)) [
              | inl same ↦
                  let e : a ≡ addr = ground arith in
                  ap (byte_at after) e ∙ here ∙ sym o ∙ ap (byte_at origin) (sym e)
              | inr away ↦
                  poke_byte-there memory after addr byte old a small away h
                  ∙ armed.kept a (ground arith)
            ]);
    }
