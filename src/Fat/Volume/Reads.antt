-- ===== src/Fat/Volume/Reads.antt =====
-- What `fat` and `free_clusters` return and raise.
use gopher_metal.Prelude.{ℕ, zero, suc, ◌*◌, ◌≡◌, ◌⊎◌, inl, inr, refl, List, [], ◌∷◌, arith}
use gopher_metal.Fat.Bytes.{Bytes, unpack, Error, struct_error, index_error, Result, ok, err, ◌>>=◌}
use gopher_metal.Fat.Volume.{Volume, fat, fat_copy, entry_bytes}

unpack_errors : (n : ℕ) (b : Bytes) (o : ℕ) {e : Error} → unpack n b o ≡ err e → e ≡ struct_error
unpack_errors n b o h = ground arith

fat_copy_errors : (fs : List Bytes) (k : ℕ) {e : Error} → fat_copy fs k ≡ err e → e ≡ index_error
unfolding fat_copy
fat_copy_errors [] k h = ground arith
fat_copy_errors (f ∷ fs) zero h = absurd (ground arith)
fat_copy_errors (f ∷ fs) (suc k) h = fat_copy_errors fs k h

bind_errors {ℓ κ} :
    {A : Type ℓ} {B : Type κ} (m : Result A) (f : A → Result B) {e : Error}
    → (m >>= f) ≡ err e
    → (m ≡ err e) ⊎ ((a : A) × (m ≡ ok a) × (f a ≡ err e))
bind_errors (ok a) f h = inr (a, refl, h)
bind_errors (err x) f h = inl (ground arith)

-- An entry that cannot be read is one beyond the FAT, or a volume without a FAT.
pub fat_errors :
    (v : Volume) (c : ℕ) {e : Error} → fat v c ≡ err e → (e ≡ index_error) ⊎ (e ≡ struct_error)
unfolding fat
fat_errors v c {e} h = elim (bind_errors (fat_copy v.fats 0) _ h) [
  | inl p ↦ inl (fat_copy_errors v.fats 0 p)
  | inr (t, _, q) ↦ elim (bind_errors (unpack (entry_bytes v) t (c * entry_bytes v)) _ q) [
    | inl p ↦ inr (unpack_errors (entry_bytes v) t (c * entry_bytes v) p)
    | inr (raw, _, z) ↦ absurd (ground arith)
  ]
]
