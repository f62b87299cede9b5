-- ===== src/Linecov/Words.antt =====
-- The bytes of a word, from its low end.
use gopher_metal.Prelude.{ℕ, zero, suc, ◌+◌, ◌*◌, ◌/◌, ◌%◌, ◌<◌, ◌≡◌, ◌≢◌, refl, ap, ◌∙◌, arith}

-- (word >> 8 * k) & 0xFF
unfoldable pub byte_of : ℕ → ℕ → ℕ
byte_of zero word = word % 256
byte_of (suc k) word = byte_of k (word / 256)

-- (word & ~(0xFF << 8 * k)) | (byte << 8 * k), for a byte below 256
unfoldable pub put_byte : ℕ → ℕ → ℕ → ℕ
put_byte zero byte word = word / 256 * 256 + byte
put_byte (suc k) byte word = word % 256 + 256 * put_byte k byte (word / 256)

pub byte_of-put_byte : (k byte word : ℕ) → byte < 256 → byte_of k (put_byte k byte word) ≡ byte
unfolding byte_of put_byte
byte_of-put_byte zero byte word h = omega (arith, h)
byte_of-put_byte (suc k) byte word h =
    let rest = byte_of-put_byte k byte (word / 256) h in
    let e : (word % 256 + 256 * put_byte k byte (word / 256)) / 256 ≡ put_byte k byte (word / 256) =
      omega arith in
    ap (byte_of k) e ∙ rest

pub byte_of-other :
    (k j byte word : ℕ) → byte < 256 → k ≢ j → byte_of j (put_byte k byte word) ≡ byte_of j word
unfolding byte_of put_byte
byte_of-other zero zero byte word h other = absurd (other refl)
byte_of-other zero (suc j) byte word h other =
    let e : (word / 256 * 256 + byte) / 256 ≡ word / 256 = omega (arith, h) in ap (byte_of j) e
byte_of-other (suc k) zero byte word h other = omega (arith, h)
byte_of-other (suc k) (suc j) byte word h other =
    let e : (word % 256 + 256 * put_byte k byte (word / 256)) / 256 ≡ put_byte k byte (word / 256) =
      omega arith in
    ap (byte_of j) e ∙ byte_of-other k j byte (word / 256) h (λ same. other (ap suc same))

pub byte_of_range : (k word : ℕ) → byte_of k word < 256
unfolding byte_of
byte_of_range zero word = omega arith
byte_of_range (suc k) word = byte_of_range k (word / 256)
