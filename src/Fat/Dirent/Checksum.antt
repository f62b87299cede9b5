-- ===== src/Fat/Dirent/Checksum.antt =====
-- The checksum of a short name is a byte, and it tells apart two names that differ in one byte.
use Prim.Native.Nat.{bit_and, bit_or}
use gopher_metal.Prelude.{
  ℕ, zero, suc, ◌+◌, ◌*◌, ◌/◌, ◌%◌, ◌^◌, ◌<◌, ◌≡◌, ◌≢◌, refl, Bool, true, false, Bool-cases, inl,
  inr, if◌then◌else◌, List, [], ◌∷◌, ◌++◌, arith, ◌==◌, ==_iff,
}
use gopher_metal.Fat.Dirent.{checksum_step, checksum_from, lfn_checksum}

-- The test holds of each of the first `k` numbers.
each : (ℕ → Bool) → ℕ → Bool
each test zero = true
each test (suc k) = if test k then each test k else false

each-true : (test : ℕ → Bool) (k : ℕ) → each test k ≡ true → (c : ℕ) → c < k → test c ≡ true
each-true test zero h c lt = elim lt [ ]
each-true test (suc k) h c lt = elim (Bool-cases (c == k)) [
  | inl e ↦ rw ((==_iff c k).0 e) (unfold each in ground arith)
  | inr e ↦ each-true test k (unfold each in ground arith) c (ground arith)
]

rotated : ℕ → ℕ
rotated s = bit_or (bit_and s 1 * 2 ^ 7) (s / 2)

rotated_table : each (λ s. rotated s == s % 2 * 128 + s / 2) 256 ≡ true
unfolding each rotated
rotated_table = refl

-- The low bit moves to the top.
rotated_lem : (s : ℕ) → s < 256 → rotated s ≡ s % 2 * 128 + s / 2
rotated_lem s h = (==_iff _ _).0 (each-true _ 256 rotated_table s h)

checksum_step-rotated : (s c : ℕ) → checksum_step s c ≡ (rotated s + c) % 256
unfolding checksum_step rotated
checksum_step-rotated s c = refl

checksum_step-injective_left :
    (s t c : ℕ) → s < 256 → t < 256 → checksum_step s c ≡ checksum_step t c → s ≡ t
checksum_step-injective_left s t c hs ht e = omega (
  arith,
  rotated_lem s hs,
  rotated_lem t ht,
  checksum_step-rotated s c,
  checksum_step-rotated t c,
)

checksum_step-injective_right :
    (s c d : ℕ) → c < 256 → d < 256 → checksum_step s c ≡ checksum_step s d → c ≡ d
checksum_step-injective_right s c d hc hd e =
    omega (arith, checksum_step-rotated s c, checksum_step-rotated s d)

checksum_step-lt : (s c : ℕ) → checksum_step s c < 256
checksum_step-lt s c = omega (arith, checksum_step-rotated s c)

checksum_from-injective :
    (s t : ℕ) (cs : List ℕ) → s < 256 → t < 256 → checksum_from s cs ≡ checksum_from t cs → s ≡ t
unfolding checksum_from
checksum_from-injective s t [] hs ht e = e
checksum_from-injective s t (c ∷ cs) hs ht e = checksum_step-injective_left s t c hs ht (
    checksum_from-injective (checksum_step s c) (checksum_step t c) cs (checksum_step-lt s c)
      (checksum_step-lt t c) e)

checksum_from_differs :
    (s : ℕ) (front : List ℕ) (c d : ℕ) (back : List ℕ)
    → c < 256
    → d < 256
    → c ≢ d
    → checksum_from s (front ++ c ∷ back) ≢ checksum_from s (front ++ d ∷ back)
unfolding checksum_from
checksum_from_differs s [] c d back hc hd ne e = ne (
    checksum_step-injective_right s c d hc hd (
      checksum_from-injective (checksum_step s c) (checksum_step s d) back (checksum_step-lt s c)
        (checksum_step-lt s d) e))
checksum_from_differs s (x ∷ front) c d back hc hd ne e =
    checksum_from_differs (checksum_step s x) front c d back hc hd ne e

-- Two short names that differ in exactly one byte have different checksums.
pub lfn_checksum_differs :
    (front : List ℕ) (c d : ℕ) (back : List ℕ)
    → c < 256
    → d < 256
    → c ≢ d
    → lfn_checksum (front ++ c ∷ back) ≢ lfn_checksum (front ++ d ∷ back)
unfolding lfn_checksum
lfn_checksum_differs = checksum_from_differs 0

checksum_from-lt : (s : ℕ) (cs : List ℕ) → s < 256 → checksum_from s cs < 256
unfolding checksum_from
checksum_from-lt s [] h = h
checksum_from-lt s (c ∷ cs) h = checksum_from-lt (checksum_step s c) cs (checksum_step-lt s c)

-- A checksum is a byte, whatever the name.
pub lfn_checksum-lt : (name : List ℕ) → lfn_checksum name < 256
unfolding lfn_checksum
lfn_checksum-lt name = checksum_from-lt 0 name (omega arith)
