-- ===== src/Fat/Walk/Grows.antt =====
-- What a part of the walk with no complaint adds: items, and for owners exactly their clusters.
use gopher_metal.Prelude.{
  ℕ, ◌≡◌, ◌≢◌, refl, sym, ap, subst, ◌∙◌, Bool, true, false, List, [], ◌∷◌, ◌++◌, append-nil,
  append_assoc, length, IsDistinct, if◌then◌else◌,
}
use gopher_metal.Fat.Bytes.{ok}
use gopher_metal.Fat.Volume.{Volume}
use gopher_metal.Fat.Chain.{chain}
use gopher_metal.Fat.Dirent.{Complaint}
use gopher_metal.Fat.Walk.Owners.{keys, complain-problems, Claimed}
use gopher_metal.Fat.Walk.{Found, Walk, complain, list, clusters_for}

-- `Holds v f cs`: the item `f` has exactly the clusters `cs`. A directory and a file that is not empty
-- have those of the chain from their first cluster, a file as many as its size asks for.
pub data Holds (v : Volume) (f : Found) (cs : List ℕ) : Type 0 where
  of_dir : f.is_dir ≡ true → chain v f.start ≡ ok cs → Holds v f cs
  of_file :
      f.is_dir ≡ false
      → f.bytes ≢ 0
      → chain v f.start ≡ ok cs
      → length cs ≡ clusters_for v f.bytes
      → Holds v f cs
  of_empty : f.is_dir ≡ false → f.bytes ≡ 0 → f.start ≡ 0 → cs ≡ [] → Holds v f cs

-- The items of the list, one after the other, have the clusters `cs`.
pub data AllHold (v : Volume) : List Found → List ℕ → Type 0 where
  nil : AllHold v [] []
  cons :
      {f : Found} {fs : List Found} {all : List ℕ} (cs ds : List ℕ)
      → Holds v f cs
      → AllHold v fs ds
      → all ≡ cs ++ ds
      → AllHold v (f ∷ fs) all

pub AllHold-append :
    {v : Volume} {fs gs : List Found} {cs ds : List ℕ}
    → AllHold v fs cs
    → AllHold v gs ds
    → AllHold v (fs ++ gs) (cs ++ ds)
AllHold-append nil k = k
AllHold-append {ds = ds} (cons front rest h t e) k =
    cons front (rest ++ ds) h (AllHold-append t k)
      (ap (λ l. l ++ ds) e ∙ append_assoc front rest ds)

-- From `w` to `w'` with no complaint: `w'` has the items and owners of `w`, more items, and for
-- owners exactly their clusters.
pub record Grows (v : Volume) (w w' : Walk) : Type 0 where
  pub was : w.problems ≡ []
  pub new : List Found
  pub clusters : List ℕ
  pub found_is : w'.found ≡ w.found ++ new
  pub owner_is : keys w'.owner ≡ keys w.owner ++ clusters
  pub holds : AllHold v new clusters
  pub distinct : IsDistinct (keys w.owner) → IsDistinct (keys w'.owner)

abbrev pub Clean : Volume → Walk → Walk → Type 0
Clean v w w' = w'.problems ≡ [] → Grows v w w'

-- A step that changes no item and no owner.
pub Grows-same :
    {v : Volume} {w w' : Walk}
    → w.problems ≡ []
    → w'.found ≡ w.found
    → w'.owner ≡ w.owner
    → Grows v w w'
Grows-same {v} {w} {w'} h f o = record {
  was = h;
  new = [];
  clusters = [];
  found_is = f ∙ sym (append-nil w.found);
  owner_is = ap keys o ∙ sym (append-nil (keys w.owner));
  holds = nil;
  distinct = λ d. subst (λ l. IsDistinct (keys l)) (sym o) d;
}

pub Clean-refl : {v : Volume} {w : Walk} → Clean v w w
Clean-refl h = Grows-same h refl refl

pub Clean-complain : {v : Volume} {w : Walk} (p : Complaint) → Clean v w (complain w p)
Clean-complain {w = w} p h = absurd (complain-problems w p h)

pub Clean-trans : {v : Volume} {a b c : Walk} → Clean v a b → Clean v b c → Clean v a c
Clean-trans {v} {a} {b} {c} ab bc h =
    let y = bc h in
    let x = ab y.was in
    record {
      was = x.was;
      new = x.new ++ y.new;
      clusters = x.clusters ++ y.clusters;
      found_is = y.found_is ∙ ap (λ l. l ++ y.new) x.found_is ∙ append_assoc a.found x.new y.new;
      owner_is =
          y.owner_is
          ∙ ap (λ l. l ++ y.clusters) x.owner_is
          ∙ append_assoc (keys a.owner) x.clusters y.clusters;
      holds = AllHold-append x.holds y.holds;
      distinct = λ d. y.distinct (x.distinct d);
    }

pub Clean-if :
    {v : Volume} {w : Walk} (b : Bool) (p : Complaint) → Clean v w (if b then complain w p else w)
Clean-if true p = Clean-complain p
Clean-if false p = Clean-refl

-- One more item, and the clusters that are claimed for it: a file is listed first, a directory last.
pub Grows-list_claim :
    {v : Volume} {w w' : Walk} (f : Found) (cs : List ℕ)
    → Holds v f cs
    → Claimed (list w f) w' cs
    → Grows v w w'
Grows-list_claim f cs h c = record {
  was = c.was;
  new = f ∷ [];
  clusters = cs;
  found_is = c.found_is;
  owner_is = c.owner_is;
  holds = cons cs [] h nil (sym (append-nil cs));
  distinct = c.distinct;
}

pub Grows-claim_list :
    {v : Volume} {w w' : Walk} (f : Found) (cs : List ℕ)
    → Holds v f cs
    → Claimed w w' cs
    → Grows v w (list w' f)
Grows-claim_list f cs h c = record {
  was = c.was;
  new = f ∷ [];
  clusters = cs;
  found_is = ap (λ l. l ++ f ∷ []) c.found_is;
  owner_is = c.owner_is;
  holds = cons cs [] h nil (sym (append-nil cs));
  distinct = c.distinct;
}

pub Clean-complained :
    {v : Volume} {w' : Walk} (w u : Walk) (p : Complaint) → complain u p ≡ w' → Clean v w w'
Clean-complained w u p e clean =
    absurd (complain-problems u p (subst (λ (x : Walk). x.problems ≡ []) (sym e) clean))

pub Clean-if_eq :
    {v : Volume} {w' : Walk} (w : Walk) (b : Bool) (p : Complaint)
    → (if b then complain w p else w) ≡ w'
    → Clean v w w'
Clean-if_eq {v} w b p e = subst (Clean v w) e (Clean-if b p)
