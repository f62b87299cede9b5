-- ===== src/Fat/Walk/Owners.antt =====
-- What `own` does to the owners: the clusters of the chain are added, each of them new, where it
-- adds no complaint.
use mathlib.Core.List.{map-append, concat-ne-nil}
use gopher_metal.Prelude.Text.{Text}
use gopher_metal.Prelude.{
  ℕ, ◌≡◌, ◌≢◌, refl, sym, ap, subst, ◌∙◌, true, false, List, [], ◌∷◌, ◌++◌, map, append-nil,
  append_assoc, Option, none, some, Option-cases, inl, inr, arith, contains, contains-append,
  IsDistinct,
}
use gopher_metal.Fat.Bytes.{problem, Result, ok, err}
use gopher_metal.Fat.Volume.{Volume}
use gopher_metal.Fat.Chain.{chain}
use gopher_metal.Fat.Dirent.{Complaint, broken_chain}
use gopher_metal.Fat.Walk.{Walk, complain, owner_of, claim, claim_all, own_result, own}

-- The clusters that have an owner.
abbrev pub keys : List (ℕ × Text) → List ℕ
keys = map (λ (o : ℕ × Text). o.0)

pub complain-problems : (w : Walk) (p : Complaint) → (complain w p).problems ≢ []
complain-problems w p h = concat-ne-nil p w.problems h

-- `w'` is `w` with the clusters `cs` owned, and with no complaint.
pub record Claimed (w w' : Walk) (cs : List ℕ) : Type 0 where
  pub was : w.problems ≡ []
  pub found_is : w'.found ≡ w.found
  pub owner_is : keys w'.owner ≡ keys w.owner ++ cs
  pub distinct : IsDistinct (keys w.owner) → IsDistinct (keys w'.owner)

owner_of-none : (os : List (ℕ × Text)) (c : ℕ) → owner_of os c ≡ none → contains (keys os) c ≡ false
unfolding owner_of
owner_of-none [] c h = refl
owner_of-none ((d, path) ∷ os) c h = ground (arith, owner_of-none os c)

pub owner_of-some :
    (os : List (ℕ × Text)) (c : ℕ) (path : Text)
    → owner_of os c ≡ some path
    → contains (keys os) c ≡ true
unfolding owner_of
owner_of-some [] c p h = absurd (ground arith)
owner_of-some ((d, path) ∷ os) c p h = ground (arith, owner_of-some os c p)

IsDistinct-concat :
    (xs : List ℕ) (c : ℕ) → IsDistinct xs → contains xs c ≡ false → IsDistinct (xs ++ c ∷ [])
IsDistinct-concat [] c d h = (refl, tt)
IsDistinct-concat (x ∷ xs) c d h =
    (ground (arith, contains-append xs (c ∷ []) x), IsDistinct-concat xs c d.1 (ground arith))

claim_new :
    (path : Text) (w : Walk) (c : ℕ)
    → owner_of w.owner c ≡ none
    → claim path w c ≡ record w { owner = w.owner ++ (c, path) ∷ [] }
unfolding claim
claim_new path w c h = rw (h, claim)

claim_crossed :
    (path : Text) (w : Walk) (c : ℕ) (other : Text)
    → owner_of w.owner c ≡ some other
    → (claim path w c).problems ≢ []
unfolding claim
claim_crossed path w c other h = rw (h, claim) (complain-problems w _)

claim-Claimed :
    (path : Text) (w : Walk) (c : ℕ)
    → (claim path w c).problems ≡ []
    → Claimed w (claim path w c) (c ∷ [])
claim-Claimed path w c h = elim (Option-cases (owner_of w.owner c)) [
  | inl new ↦ rw (claim_new path w c new) (record {
    was = rw (claim_new path w c new) at h;
    found_is = refl;
    owner_is = map-append _ w.owner ((c, path) ∷ []);
    distinct = λ d.
        rw (map-append _ w.owner ((c, path) ∷ []))
          (IsDistinct-concat (keys w.owner) c d (owner_of-none w.owner c new));
  })
  | inr (other, taken) ↦ absurd (claim_crossed path w c other taken h)
]

pub Claimed-nil : (w : Walk) → w.problems ≡ [] → Claimed w w []
Claimed-nil w h = record {
  was = h;
  found_is = refl;
  owner_is = sym (append-nil (keys w.owner));
  distinct = λ d. d;
}

Claimed-append :
    {w w' w'' : Walk} {cs ds : List ℕ}
    → Claimed w w' cs
    → Claimed w' w'' ds
    → Claimed w w'' (cs ++ ds)
Claimed-append {w} {w'} {w''} {cs} {ds} a b = record {
  was = a.was;
  found_is = b.found_is ∙ a.found_is;
  owner_is = b.owner_is ∙ ap (λ l. l ++ ds) a.owner_is ∙ append_assoc (keys w.owner) cs ds;
  distinct = λ d. b.distinct (a.distinct d);
}

claim_all-Claimed :
    (path : Text) (w : Walk) (cs : List ℕ)
    → (claim_all path w cs).problems ≡ []
    → Claimed w (claim_all path w cs) cs
unfolding claim_all
claim_all-Claimed path w [] h = Claimed-nil w h
claim_all-Claimed path w (c ∷ cs) h =
    let later = claim_all-Claimed path (claim path w c) cs h in
    Claimed-append (claim-Claimed path w c later.was) later

-- Where `own` returns and there is no complaint in the end, it has found the chain, and its
-- clusters are added to the owners, each of them new.
pub record Owned (v : Volume) (first : ℕ) (w w' : Walk) (cs : List ℕ) : Type 0 where
  pub chain_is : chain v first ≡ ok cs
  pub claimed : Claimed w w' cs

own_result-Owned :
    (v : Volume) (path : Text) (first : ℕ) (w : Walk) (r : Result (List ℕ)) (got : Option (List ℕ))
    (w' : Walk)
    → chain v first ≡ r
    → own_result path w r ≡ ok (got, w')
    → w'.problems ≡ []
    → (cs : List ℕ) × (got ≡ some cs) × Owned v first w w' cs
unfolding own_result
own_result-Owned v path first w (ok cs) got w' e h clean =
    let same : claim_all path w cs ≡ w' = ground arith in
    (
      cs,
      ground arith,
      record {
        chain_is = e;
        claimed = subst (λ u. Claimed w u cs) same (claim_all-Claimed path w cs (rw same clean));
      },
    )
own_result-Owned v path first w (err (problem p)) got w' e h clean =
    let same : complain w (broken_chain path p) ≡ w' = ground arith in
    absurd (
      complain-problems w (broken_chain path p)
        (subst (λ (u : Walk). u.problems ≡ []) (sym same) clean))
own_result-Owned v path first w (err _) got w' e h clean = absurd (ground arith)

pub own-Owned :
    (v : Volume) (path : Text) (first : ℕ) (w : Walk) (got : Option (List ℕ)) (w' : Walk)
    → own v path first w ≡ ok (got, w')
    → w'.problems ≡ []
    → (cs : List ℕ) × (got ≡ some cs) × Owned v first w w' cs
unfolding own
own-Owned v path first w got w' h clean =
    own_result-Owned v path first w (chain v first) got w' refl h clean
