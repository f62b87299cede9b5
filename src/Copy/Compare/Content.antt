-- ===== src/Copy/Compare/Content.antt =====
-- The bytes that are hashed block by block are the file's bytes.
use gopher_metal.Prelude.{
  ℕ, ◌-◌, ◌<◌, ◌≡◌, refl, sym, subst, min, false, List, [], ◌∷◌, arith, ltb, ◌==◌, ==_iff,
  Bool-cases, inl, inr,
}
use gopher_metal.Fat.Bytes.{Bytes, slice, ok, >>=-eq-ok}
use gopher_metal.Fat.Volume.{Volume, cluster}
use gopher_metal.Fat.Walk.{append_bytes, join_clusters}
use gopher_metal.Copy.Compare.{content}

-- `b` is the first `left` bytes of `j`, or all of them where there are fewer.
pub record IsFront (left : ℕ) (j b : Bytes) : Type 0 where
  pub size_is : b.size ≡ min left j.size
  pub at_is : (i : ℕ) → i < b.size → b.at i ≡ j.at i

IsFront-append :
    (left : ℕ) (block r rest : Bytes)
    → IsFront (left - (slice block 0 left).size) r rest
    → IsFront left (append_bytes block r) (append_bytes (slice block 0 left) rest)
unfolding append_bytes
IsFront-append left block r rest h = record {
  size_is = omega (arith, h.size_is);
  at_is = λ i lt.
      let s : rest.size ≡ min (left - (slice block 0 left).size) r.size = h.size_is in
      let at = h.at_is (i - (slice block 0 left).size) in
      elim (Bool-cases (ltb left block.size)) [
        | inl short ↦ ground arith
        | inr long ↦ let cut : (slice block 0 left).size ≡ block.size = ground arith in ground arith
      ];
}

IsFront-empty : (j : Bytes) → IsFront 0 j (record { size = 0; at = λ _. 0 })
IsFront-empty j = record { size_is = omega arith; at_is = λ i lt. absurd (omega arith) }

content_next :
    (v : Volume) (left c : ℕ) (cs : List ℕ) (block rest : Bytes)
    → (left == 0) ≡ false
    → cluster v c ≡ ok block
    → content v (left - (slice block 0 left).size) cs ≡ ok rest
    → content v left (c ∷ cs) ≡ ok (append_bytes (slice block 0 left) rest)
unfolding content
content_next v left c cs block rest more cl cr = simp (more, cl, cr)

-- Where the clusters of a chain can be read, so can the first `left` bytes of them, and these are
-- what the loop over the chain gives.
pub content-IsFront :
    (v : Volume) (left : ℕ) (cs : List ℕ) (j : Bytes)
    → join_clusters v cs ≡ ok j
    → (b : Bytes) × (content v left cs ≡ ok b) × IsFront left j b
unfolding content join_clusters
content-IsFront v left [] j h = (
  record { size = 0; at = λ _. 0 },
  refl,
  record {
    size_is = let e : j.size ≡ 0 = ground arith in omega arith;
    at_is = λ i lt. absurd (omega arith);
  },
)
content-IsFront v left (c ∷ cs) j h =
    let (block, cl, k) = >>=-eq-ok (cluster v c) _ {b = j} h in
    let (r, jr, e) = >>=-eq-ok (join_clusters v cs) _ {b = j} k in
    let same : append_bytes block r ≡ j = ground arith in
    let (rest, cr, front) = content-IsFront v (left - (slice block 0 left).size) cs r jr in
    elim (Bool-cases (left == 0)) [
      | inl none_left ↦
          let z = (==_iff left 0).0 none_left in
          (
            record { size = 0; at = λ _. 0 },
            simp none_left,
            subst (λ (n : ℕ). IsFront n j (record { size = 0; at = λ _. 0 })) (sym z)
                (IsFront-empty j),
          )
      | inr some_left ↦ (
        append_bytes (slice block 0 left) rest,
        content_next v left c cs block rest some_left cl cr,
        subst (λ (x : Bytes). IsFront left x (append_bytes (slice block 0 left) rest)) same
            (IsFront-append left block r rest front),
      )
    ]
