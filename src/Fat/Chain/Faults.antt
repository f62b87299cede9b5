-- ===== src/Fat/Chain/Faults.antt =====
-- What a refused walk says is true of the FAT.
use gopher_metal.Prelude.{
  ℕ, zero, suc, ◌+◌, ◌<◌, ◌≡◌, refl, sym, subst, ◌∙◌, ◌⊎◌, inl, inr, true, false, List, [], ◌∷◌,
  ◌++◌, append-nil, append_assoc, ap, arith, leb, ◌==◌, ==_iff, Bool-cases, contains, missing,
  missing-le, missing_new,
}
use gopher_metal.Fat.Bytes.{
  outside, loops, runs_free, runs_bad, Error, problem, struct_error, index_error, Result, ok, err,
}
use gopher_metal.Fat.Volume.{Volume, fat, eoc, bad, max_cluster}
use gopher_metal.Fat.Volume.Reads.{fat_errors}
use gopher_metal.Fat.Chain.{is_outside, chain_from, chain}

-- `Steps v c cs d`: following the FAT from cluster `c` through the clusters `cs`, all of them in the
-- data region, leads to `d`.
pub data Steps (v : Volume) : ℕ → List ℕ → ℕ → Type 0 where
  here : {c : ℕ} → Steps v c [] c
  step :
      {c n d : ℕ} {cs : List ℕ}
      → is_outside v c ≡ false
      → fat v c ≡ ok n
      → Steps v n cs d
      → Steps v c (c ∷ cs) d

-- What is wrong at cluster `d`, reached through the clusters `cs`, where the walk raises an error.
pub data Fault (v : Volume) (cs : List ℕ) (d : ℕ) : Error → Type 0 where
  leaves : is_outside v d ≡ true → Fault v cs d (problem (outside d))
  repeats : contains cs d ≡ true → Fault v cs d (problem (loops d))
  frees : fat v d ≡ ok 0 → Fault v cs d (problem (runs_free d))
  marked : fat v d ≡ ok (bad v) → Fault v cs d (problem (runs_bad d))
  unread : {e : Error} → fat v d ≡ err e → (e ≡ index_error) ⊎ (e ≡ struct_error) → Fault v cs d e

pub record FailsAt (v : Volume) (out : List ℕ) (c : ℕ) (e : Error) : Type 0 where
  pub through : List ℕ
  pub place : ℕ
  pub steps : Steps v c through place
  pub fault : Fault v (out ++ through) place e

FailsAt-here : {v : Volume} {out : List ℕ} {c : ℕ} {e : Error} → Fault v out c e → FailsAt v out c e
FailsAt-here {v} {out} {c} {e} f = record {
  through = [];
  place = c;
  steps = here;
  fault = subst (λ l. Fault v l c e) (sym (append-nil out)) f;
}

FailsAt-step :
    (v : Volume) (out : List ℕ) (c n : ℕ) {e : Error}
    → is_outside v c ≡ false
    → fat v c ≡ ok n
    → FailsAt v (out ++ c ∷ []) n e
    → FailsAt v out c e
FailsAt-step v out c n {e} inside f x = record {
  through = c ∷ x.through;
  place = x.place;
  steps = step inside f x.steps;
  fault = subst (λ l. Fault v l x.place e) (append_assoc out (c ∷ []) x.through) x.fault;
}

FailsAt-entry :
    (fuel : ℕ) (v : Volume) (out : List ℕ) (c : ℕ) {e : Error} (r : Result ℕ)
    → fat v c ≡ r
    → is_outside v c ≡ false
    → contains out c ≡ false
    → ((n : ℕ) → chain_from fuel v (out ++ c ∷ []) n ≡ err e → FailsAt v (out ++ c ∷ []) n e)
    → chain_from (suc fuel) v out c ≡ err e
    → FailsAt v out c e
FailsAt-entry fuel v out c {e} (err x) f o k rec h =
    let same : x ≡ e = unfold chain_from in ground arith in
    FailsAt-here (unread (f ∙ ap err same) (fat_errors v c (f ∙ ap err same)))
FailsAt-entry fuel v out c {e} (ok n) f o k rec h = elim (Bool-cases (leb (eoc v) n)) [
  | inl p ↦ absurd (unfold chain_from in ground arith)
  | inr p ↦ elim (Bool-cases (n == 0)) [
    | inl q ↦
        let same : problem (runs_free c) ≡ e = unfold chain_from in ground arith in
        subst (FailsAt v out c) same (FailsAt-here (frees (f ∙ ap ok ((==_iff n 0).0 q))))
    | inr q ↦ elim (Bool-cases (n == bad v)) [
      | inl r ↦
          let same : problem (runs_bad c) ≡ e = unfold chain_from in ground arith in
          subst (FailsAt v out c) same (FailsAt-here (marked (f ∙ ap ok ((==_iff n (bad v)).0 r))))
      | inr r ↦ FailsAt-step v out c n o f (rec n (unfold chain_from in ground arith))
    ]
  ]
]

chain_from-FailsAt :
    (fuel : ℕ) (v : Volume) (out : List ℕ) (c : ℕ) {e : Error}
    → missing (max_cluster v + 1) out < fuel
    → chain_from fuel v out c ≡ err e
    → FailsAt v out c e
chain_from-FailsAt zero v out c m h = elim m [ ]
chain_from-FailsAt (suc fuel) v out c {e} m h = elim (Bool-cases (is_outside v c)) [
  | inl p ↦
      let same : problem (outside c) ≡ e = unfold chain_from in ground arith in
      subst (FailsAt v out c) same (FailsAt-here (leaves p))
  | inr p ↦ elim (Bool-cases (contains out c)) [
    | inl q ↦
        let same : problem (loops c) ≡ e = unfold chain_from in ground arith in
        subst (FailsAt v out c) same (FailsAt-here (repeats q))
    | inr q ↦
        let inside : c < max_cluster v + 1 = ground arith in
        FailsAt-entry fuel v out c (fat v c) refl p q
          (λ n.
            chain_from-FailsAt fuel v (out ++ c ∷ []) n
              (omega (arith, missing_new (max_cluster v + 1) out c inside q)))
          h
  ]
]

-- Where `chain` raises an error, following the FAT from `first` leads to a cluster at which the error
-- holds: it lies outside the data region, repeats an earlier one, has the entry of a free or of a bad
-- cluster, or has an entry that cannot be read. In particular the walk always ends.
pub chain-FailsAt :
    (v : Volume) (first : ℕ) {e : Error} → chain v first ≡ err e → FailsAt v [] first e
unfolding chain
chain-FailsAt v first h =
    chain_from-FailsAt (max_cluster v + 2) v [] first
      (omega (arith, missing-le (max_cluster v + 1) [])) h
