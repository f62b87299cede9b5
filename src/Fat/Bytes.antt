-- ===== src/Fat/Bytes.antt =====
-- Byte strings and images as tools/fat16_read.py reads them (`bytes`, `mmap`), Python's slices,
-- `struct.unpack_from` on little-endian integers, and the exceptions that the reader raises.
use gopher_metal.Prelude.{
  Bool-cases, inl, inr, ℕ, zero, suc, ◌+◌, ◌-◌, ◌*◌, ◌^◌, ◌<◌, min, ◌≡◌, refl, Bool, true, ◌&&◌,
  arith, ltb, leb, ◌==◌, ==_iff, if◌then◌else◌,
}

-- `size` bytes, of which `at i` is the one at index `i < size`.
pub record Bytes : Type 0 where
  pub size : ℕ
  pub at : ℕ → ℕ

-- img[lo:hi], which Python clips to the size
abbrev pub slice : Bytes → ℕ → ℕ → Bytes
slice b lo hi = record { size = min hi b.size - min lo b.size; at = λ i. b.at (lo + i) }

-- The message of a `Problem`, by the place that raises it; of its numbers those that the theorems
-- speak of. Text in messages is not modelled.
pub data Problem : Type 0 where
  no_partition no_signature sector_size not_power_of_two no_fat_size few_clusters : Problem
  fat16_fields small_fat past_end : Problem
  outside loops : ℕ → Problem
  runs_free runs_bad : ℕ → Problem
  is_directory not_found : Problem

-- What an exception is: the reader's own `Problem`, or one of Python's that the reader does not
-- catch. `no_fuel` is the model's: a loop with too little fuel.
pub data Error : Type 0 where
  problem : Problem → Error
  struct_error overflow_error index_error no_fuel : Error

-- What a call gives back, or the exception that it raises.
pub data Result {ℓ} (A : Type ℓ) : Type ℓ where
  ok : A → Result A
  err : Error → Result A

-- The next statement runs on the value, and an exception passes it by.
infixl 10 ◌>>=◌
abbrev pub ◌>>=◌ {ℓ κ} : {A : Type ℓ} {B : Type κ} → Result A → (A → Result B) → Result B
err raised >>= next = err raised
ok value >>= next = next value

-- `if test: raise Problem(why)`
abbrev pub refuse_if : Bool → Problem → Result (Unit {0})
refuse_if test why = if test then err (problem why) else ok tt

infixl 10 ◌>>◌
abbrev pub ◌>>◌ {ℓ} : {B : Type ℓ} → Result (Unit {0}) → Result B → Result B
tested >> rest = tested >>= λ _. rest

-- A sequence that returns has had a value in between.
pub >>=-eq-ok {ℓ κ} :
    {A : Type ℓ} {B : Type κ} (call : Result A) (next : A → Result B) {b : B}
    → (call >>= next) ≡ ok b
    → (value : A) × (call ≡ ok value) × (next value ≡ ok b)
>>=-eq-ok (err raised) next h = absurd (ground arith)
>>=-eq-ok (ok value) next h = (value, refl, h)

-- The little-endian number in the `n` bytes at `o`.
unfoldable pub le_value : ℕ → Bytes → ℕ → ℕ
le_value zero b o = 0
le_value (suc n) b o = b.at o + 256 * le_value n b (o + 1)

-- struct.unpack_from("<B", b, o), "<H" at 2, "<I" at 4 and "<Q" at 8 bytes, of an offset below 2^63: those
-- of the boot sector are fixed, and those of a FAT come from numbers of 32 bits
abbrev pub unpack : ℕ → Bytes → ℕ → Result ℕ
unpack n b o = if leb (o + n) b.size then ok (le_value n b o) else err struct_error

-- struct.unpack_from at any offset, which Python takes as a Py_ssize_t
abbrev pub unpack_far : ℕ → Bytes → ℕ → Result ℕ
unpack_far n b o = if ltb o (2 ^ 63) then unpack n b o else err overflow_error

-- The first `n` bytes are the same.
unfoldable pub same_below : ℕ → Bytes → Bytes → Bool
same_below zero a b = true
same_below (suc n) a b = a.at n == b.at n && same_below n a b

-- a == b
abbrev pub bytes_eq : Bytes → Bytes → Bool
bytes_eq a b = a.size == b.size && same_below a.size a b

same_below-split :
    (n : ℕ) (a b : Bytes)
    → same_below (suc n) a b ≡ true
    → (a.at n ≡ b.at n) × (same_below n a b ≡ true)
unfolding same_below
same_below-split n a b h = (ground arith, ground arith)

pub same_below_at :
    (n : ℕ) (a b : Bytes) → same_below n a b ≡ true → (i : ℕ) → i < n → a.at i ≡ b.at i
same_below_at zero a b h i lt = elim lt [ ]
same_below_at (suc n) a b h i lt = elim (Bool-cases (i == n)) [
  | inl e ↦ rw ((==_iff i n).0 e) (same_below-split n a b h).0
  | inr e ↦ same_below_at n a b (same_below-split n a b h).1 i (ground arith)
]
