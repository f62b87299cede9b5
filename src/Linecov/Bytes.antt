-- ===== src/Linecov/Bytes.antt =====
-- The bytes of the memory, and what `poke_byte` does to them.
use gopher_metal.Prelude.{
  ℕ, ◌%◌, ◌<◌, ◌≡◌, ◌≢◌, refl, sym, ap, ◌∙◌, true, false, Option, none, some, Option-cases,
  Bool-cases, inl, inr, arith, ◌==◌,
}
use gopher_metal.Linecov.Words.{byte_of, put_byte, byte_of-put_byte, byte_of-other, byte_of_range}
use gopher_metal.Linecov.{Memory, base_of, peek, poke, put_back, poke_byte}

byte_in : ℕ → Option ℕ → Option ℕ
byte_in k none = none
byte_in k (some word) = some (byte_of k word)

-- the byte at an address, where it is mapped
unfoldable pub byte_at : Memory → ℕ → Option ℕ
unfolding byte_in
byte_at memory addr = byte_in (addr % 8) (memory (base_of addr))

byte_in_range : (k byte : ℕ) (o : Option ℕ) → byte_in k o ≡ some byte → byte < 256
unfolding byte_in
byte_in_range k byte none h = absurd (ground arith)
byte_in_range k byte (some word) h = let r = byte_of_range k word in ground arith

pub byte_at_range : (memory : Memory) (addr byte : ℕ) → byte_at memory addr ≡ some byte → byte < 256
unfolding byte_at
byte_at_range memory addr byte h = byte_in_range (addr % 8) byte (memory (base_of addr)) h

pub poke_byte-old :
    (memory after : Memory) (addr byte old : ℕ)
    → poke_byte memory addr byte ≡ some (old, after)
    → byte_at memory addr ≡ some old
unfolding poke_byte put_back peek byte_at byte_in
poke_byte-old memory after addr byte old h = elim (Option-cases (memory (base_of addr))) [
  | inl e ↦ absurd (ground (arith, e, h))
  | inr (word, e) ↦ ground (arith, e, h)
]

after_of : Memory → Option (ℕ × Memory) → Memory
after_of memory none = memory
after_of memory (some (old, after)) = after

put_back-poke :
    (memory after : Memory) (addr byte old : ℕ) (o : Option ℕ)
    → put_back memory addr byte o ≡ some (old, after)
    → (word : ℕ) × (o ≡ some word)
      × (after ≡ poke memory (base_of addr) (put_byte (addr % 8) byte word))
unfolding put_back after_of
put_back-poke memory after addr byte old none h = absurd (ground arith)
put_back-poke memory after addr byte old (some word) h = (word, refl, sym (ap (after_of memory) h))

poke_byte-poke :
    (memory after : Memory) (addr byte old : ℕ)
    → poke_byte memory addr byte ≡ some (old, after)
    → (word : ℕ) × (memory (base_of addr) ≡ some word)
      × (after ≡ poke memory (base_of addr) (put_byte (addr % 8) byte word))
unfolding poke_byte peek
poke_byte-poke memory after addr byte old h =
    put_back-poke memory after addr byte old (memory (base_of addr)) h

-- The byte at the address is the one written.
pub poke_byte-here :
    (memory after : Memory) (addr byte old : ℕ)
    → byte < 256
    → poke_byte memory addr byte ≡ some (old, after)
    → byte_at after addr ≡ some byte
unfolding byte_at byte_in
poke_byte-here memory after addr byte old small h =
    let (word, e, k) = poke_byte-poke memory after addr byte old h in
    let b = byte_of-put_byte (addr % 8) byte word small in
    let same : (base_of addr == base_of addr) ≡ true = ground arith in
    ap (λ m. byte_at m addr) k ∙ (unfold poke in simp (same, b))

-- Every other byte stays.
pub poke_byte-there :
    (memory after : Memory) (addr byte old other : ℕ)
    → byte < 256
    → (other == addr) ≡ false
    → poke_byte memory addr byte ≡ some (old, after)
    → byte_at after other ≡ byte_at memory other
unfolding byte_at byte_in
poke_byte-there memory after addr byte old other small away h =
    let (word, e, k) = poke_byte-poke memory after addr byte old h in
    ap (λ m. byte_at m other) k ∙ elim (Bool-cases (base_of other == base_of addr)) [
      | inl same ↦
          let base : base_of other ≡ base_of addr = ground arith in
          let at : memory (base_of other) ≡ some word = ap memory base ∙ e in
          let differ : addr % 8 ≢ other % 8 = λ x. absurd (ground (arith, away, base, x)) in
          let b = byte_of-other (addr % 8) (other % 8) byte word small differ in
          unfold poke in simp (same, at, b)
      | inr away ↦ unfold poke in simp away
    ]

put_back-mapped :
    (memory : Memory) (addr byte old : ℕ) (o : Option ℕ)
    → byte_in (addr % 8) o ≡ some old
    → (after : Memory) × (put_back memory addr byte o ≡ some (old, after))
unfolding put_back byte_in
put_back-mapped memory addr byte old none h = absurd (ground arith)
put_back-mapped memory addr byte old (some word) h =
    let w : byte_of (addr % 8) word ≡ old = ground arith in
    (_, ap (λ x. some (x, poke memory (base_of addr) (put_byte (addr % 8) byte word))) w)

-- A byte that is mapped can be written.
pub poke_byte-mapped :
    (memory : Memory) (addr byte old : ℕ)
    → byte_at memory addr ≡ some old
    → (after : Memory) × (poke_byte memory addr byte ≡ some (old, after))
unfolding byte_at poke_byte peek
poke_byte-mapped memory addr byte old h =
    put_back-mapped memory addr byte old (memory (base_of addr)) h
