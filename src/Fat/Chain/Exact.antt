-- ===== src/Fat/Chain/Exact.antt =====
-- The walk returns a chain exactly when the FAT holds one with no repetition, and it always ends.
use gopher_metal.Prelude.{
  ℕ, zero, suc, ◌+◌, ◌≤◌, ◌<◌, ◌≡◌, ◌≢◌, refl, sym, ap, subst, ◌∙◌, ◌↔◌, ◌⊎◌, inl, inr, false, List,
  [], ◌∷◌, ◌++◌, append_assoc, arith, leb, Bool-cases, contains, contains-append, IsDistinct,
  IsDisjoint, missing, missing-le, missing_new,
}
use gopher_metal.Fat.Bytes.{Result, ok, err}
use gopher_metal.Fat.Volume.{Volume, fat, eoc, bad, max_cluster}
use gopher_metal.Fat.Chain.Links.{Links, last, link}
use gopher_metal.Fat.Chain.{chain_from, chain}

-- What a round that succeeds has tested.
record Round (fuel : ℕ) (v : Volume) (out : List ℕ) (c : ℕ) (all : List ℕ) (n : ℕ) : Type 0 where
  low : 2 ≤ c
  high : c ≤ max_cluster v
  new : contains out c ≡ false
  entry : fat v c ≡ ok n
  next :
      ((eoc v ≤ n) × (all ≡ out ++ c ∷ []))
      ⊎ ((n < eoc v) × (n ≢ 0) × (n ≢ bad v) × (chain_from fuel v (out ++ c ∷ []) n ≡ ok all))

Round-chain_from :
    (fuel : ℕ) (v : Volume) (out : List ℕ) (c : ℕ) (r : Result ℕ) {all : List ℕ}
    → fat v c ≡ r
    → chain_from (suc fuel) v out c ≡ ok all
    → (n : ℕ) × Round fuel v out c all n
unfolding chain_from
Round-chain_from fuel v out c (ok n) e h = (
  n,
  record {
    low = ground arith;
    high = ground arith;
    new = ground arith;
    entry = e;
    next = elim (Bool-cases (leb (eoc v) n)) [
      | inl at_end ↦ inl (ground arith, ground arith)
      | inr more ↦ inr (ground arith, ground arith, ground arith, ground arith)
    ];
  },
)
Round-chain_from fuel v out c (err _) e h = absurd (ground arith)

-- The clusters that a walk adds to those in `out`.
record Extends (v : Volume) (c : ℕ) (out all : List ℕ) : Type 0 where
  added : List ℕ
  all_is : all ≡ out ++ added
  linked : Links v c added
  fresh : IsDisjoint added out
  distinct : IsDistinct added

IsDisjoint-split :
    (xs ys : List ℕ) (c : ℕ)
    → IsDisjoint xs (ys ++ c ∷ [])
    → IsDisjoint xs ys × (contains xs c ≡ false)
IsDisjoint-split [] ys c h = (tt, refl)
IsDisjoint-split (x ∷ xs) ys c h =
    let (d, e) = IsDisjoint-split xs ys c h.1 in
    (
      (ground (arith, contains-append ys (c ∷ []) x), d),
      ground (arith, contains-append ys (c ∷ []) x),
    )

Extends-Round :
    (fuel : ℕ) (v : Volume) (out : List ℕ) (c n : ℕ) {all : List ℕ}
    → Round fuel v out c all n
    → (chain_from fuel v (out ++ c ∷ []) n ≡ ok all → Extends v n (out ++ c ∷ []) all)
    → Extends v c out all
Extends-Round fuel v out c n {all} r rec = elim r.next [
  | inl (at_end, e) ↦ record {
    added = c ∷ [];
    all_is = e;
    linked = last r.low r.high r.entry at_end;
    fresh = (r.new, tt);
    distinct = (refl, tt);
  }
  | inr (below, nonzero, good, e) ↦
      let x = rec e in
      let d = IsDisjoint-split x.added out c x.fresh in
      record {
        added = c ∷ x.added;
        all_is = x.all_is ∙ append_assoc out (c ∷ []) x.added;
        linked = link r.low r.high r.entry below nonzero good x.linked;
        fresh = (r.new, d.0);
        distinct = (d.1, x.distinct);
      }
]

chain_from-Extends :
    (fuel : ℕ) (v : Volume) (out : List ℕ) (c : ℕ) {all : List ℕ}
    → chain_from fuel v out c ≡ ok all
    → Extends v c out all
chain_from-Extends zero v out c h = absurd (unfold chain_from in ground arith)
chain_from-Extends (suc fuel) v out c h =
    let (n, r) = Round-chain_from fuel v out c (fat v c) refl h in
    Extends-Round fuel v out c n r (chain_from-Extends fuel v (out ++ c ∷ []) n)

-- A walk returns only chains: the clusters that it returns are those that the FAT links from `first`,
-- each in the data region, the last one with an end mark, and no cluster twice.
pub chain-Links :
    (v : Volume) (first : ℕ) {cs : List ℕ}
    → chain v first ≡ ok cs
    → Links v first cs × IsDistinct cs
unfolding chain
chain-Links v first {cs} h =
    let x = chain_from-Extends (max_cluster v + 2) v [] first h in
    (subst (Links v first) (sym x.all_is) x.linked, subst IsDistinct (sym x.all_is) x.distinct)

-- The relation determines the chain.
IsDisjoint-join :
    (xs ys : List ℕ) (c : ℕ)
    → IsDisjoint xs ys
    → contains xs c ≡ false
    → IsDisjoint xs (ys ++ c ∷ [])
IsDisjoint-join [] ys c h k = tt
IsDisjoint-join (x ∷ xs) ys c h k =
    (ground (arith, contains-append ys (c ∷ []) x), IsDisjoint-join xs ys c h.1 (ground arith))

chain_from_last :
    (fuel : ℕ) (v : Volume) (out : List ℕ) (c n : ℕ)
    → 2 ≤ c
    → c ≤ max_cluster v
    → fat v c ≡ ok n
    → eoc v ≤ n
    → contains out c ≡ false
    → chain_from (suc fuel) v out c ≡ ok (out ++ c ∷ [])
unfolding chain_from
chain_from_last fuel v out c n lo hi e h new = ground arith

chain_from_link :
    (fuel : ℕ) (v : Volume) (out : List ℕ) (c n : ℕ)
    → 2 ≤ c
    → c ≤ max_cluster v
    → fat v c ≡ ok n
    → n < eoc v
    → n ≢ 0
    → n ≢ bad v
    → contains out c ≡ false
    → chain_from (suc fuel) v out c ≡ chain_from fuel v (out ++ c ∷ []) n
unfolding chain_from
chain_from_link fuel v out c n lo hi e h z b new = ground arith

Links-chain_from :
    (fuel : ℕ) (v : Volume) (out : List ℕ) {c : ℕ} {cs : List ℕ}
    → missing (max_cluster v + 1) out < fuel
    → IsDisjoint cs out
    → IsDistinct cs
    → Links v c cs
    → chain_from fuel v out c ≡ ok (out ++ cs)
Links-chain_from zero v out m f d l = elim m [ ]
Links-chain_from (suc fuel) v out m f d (last {c} {n} lo hi e h) =
    chain_from_last fuel v out c n lo hi e h f.0
Links-chain_from (suc fuel) v out m f d (link {c} {n} {cs} lo hi e h z b l) =
    chain_from_link fuel v out c n lo hi e h z b f.0
    ∙ Links-chain_from fuel v (out ++ c ∷ [])
        (omega (arith, missing_new (max_cluster v + 1) out c (omega arith) f.0))
        (IsDisjoint-join cs out c f.1 d.0) d.1 l
    ∙ ap ok (append_assoc out (c ∷ []) cs)

IsDisjoint-nil : (xs : List ℕ) → IsDisjoint xs []
IsDisjoint-nil [] = tt
IsDisjoint-nil (x ∷ xs) = (refl, IsDisjoint-nil xs)

-- `chain` returns `cs` exactly when the FAT links `cs` from `first` with no cluster twice.
pub chain_iff :
    (v : Volume) (first : ℕ) (cs : List ℕ)
    → (chain v first ≡ ok cs) ↔ (Links v first cs × IsDistinct cs)
chain_iff v first cs = (
  chain-Links v first,
  λ h.
      unfold chain in
      Links-chain_from (max_cluster v + 2) v [] (omega (arith, missing-le (max_cluster v + 1) []))
        (IsDisjoint-nil cs) h.1 h.0,
)
