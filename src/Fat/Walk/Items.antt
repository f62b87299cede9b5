-- ===== src/Fat/Walk/Items.antt =====
-- The two branches of `visit`, for a file and for a directory, keep what `Grows` states.
use gopher_metal.Prelude.Text.{Text}
use gopher_metal.Prelude.{
  ℕ, ◌≡◌, ◌≢◌, refl, sym, subst, true, false, List, [], Option, none, some, Bool-cases, inl, inr,
  arith, ◌==◌, length, if◌then◌else◌, not,
}
use gopher_metal.Fat.Bytes.{Result, ok, >>=-eq-ok}
use gopher_metal.Fat.Volume.{Volume}
use gopher_metal.Fat.Dirent.{
  wrong_length, empty_with_cluster, no_file_cluster, no_directory_cluster, sized_directory,
}
use gopher_metal.Fat.Entries.{Entry}
use gopher_metal.Fat.Walk.Owners.{complain-problems, Claimed-nil, own-Owned}
use gopher_metal.Fat.Walk.Grows.{
  of_dir, of_file, of_empty, Grows, Clean, Clean-trans, Clean-if, Grows-list_claim,
  Grows-claim_list, Clean-complained,
}
use gopher_metal.Fat.Walk.{
  Found, Walk, complain, list, own, clusters_for, check_length, visit_file, enter, visit_dir,
}

check_length-ok :
    (v : Volume) (full : Text) (size : ℕ) (cs : List ℕ) (w w' : Walk)
    → check_length v full size (some cs, w) ≡ ok w'
    → w'.problems ≡ []
    → (w ≡ w') × (length cs ≡ clusters_for v size)
check_length-ok v full size cs w w' h clean = elim (Bool-cases (length cs == clusters_for v size)) [
  | inl e ↦ (unfold check_length in ground arith, ground arith)
  | inr e ↦
      let same : complain w (wrong_length full (clusters_for v size) (length cs)) ≡ w' =
        unfold check_length in ground arith in
      absurd (complain-problems w _ (subst (λ (x : Walk). x.problems ≡ []) (sym same) clean))
]

visit_file_chain :
    (v : Volume) (f : Found) (w w' : Walk) (got : Option (List ℕ)) (w1 : Walk)
    → f.is_dir ≡ false
    → f.bytes ≢ 0
    → own v f.path f.start (list w f) ≡ ok (got, w1)
    → check_length v f.path f.bytes (got, w1) ≡ ok w'
    → Clean v w w'
visit_file_chain v f w w' none w1 d b o k clean =
    let same : w1 ≡ w' = unfold check_length in ground arith in
    let (cs, e, x) =
      own-Owned v f.path f.start (list w f) none w1 o
        (subst (λ (x : Walk). x.problems ≡ []) (sym same) clean) in
    absurd (ground arith)
visit_file_chain v f w w' (some got) w1 d b o k clean =
    let (same, len) = check_length-ok v f.path f.bytes got w1 w' k clean in
    let (cs, e, x) =
      own-Owned v f.path f.start (list w f) (some got) w1 o
        (subst (λ (x : Walk). x.problems ≡ []) (sym same) clean) in
    let eq : got ≡ cs = ground arith in
    subst (Grows v w) same
      (Grows-list_claim f cs (of_file d b x.chain_is (rw (← eq) len)) x.claimed)

file_found : Text → Entry → Found
file_found full e = record { path = full; is_dir = false; start = e.first; bytes = e.size }

pub visit_file-Clean :
    (v : Volume) (full : Text) (e : Entry) (w w' : Walk)
    → visit_file v full e w ≡ ok w'
    → Clean v w w'
unfolding file_found
visit_file-Clean v full e w w' h = elim (Bool-cases (e.size == 0)) [
  | inl p ↦ elim (Bool-cases (e.first == 0)) [
    | inl q ↦
        let same : list w (file_found full e) ≡ w' = unfold visit_file in ground arith in
        λ clean. subst (Grows v w) same (
          Grows-list_claim (file_found full e) [] (of_empty refl (ground arith) (ground arith) refl)
            (Claimed-nil (list w (file_found full e))
              (subst (λ (x : Walk). x.problems ≡ []) (sym same) clean)))
    | inr q ↦
        Clean-complained w (list w (file_found full e)) (empty_with_cluster full)
          (unfold visit_file in ground arith)
  ]
  | inr p ↦ elim (Bool-cases (e.first == 0)) [
    | inl q ↦
        Clean-complained w (list w (file_found full e)) (no_file_cluster full)
          (unfold visit_file in ground arith)
    | inr q ↦
        let ((got, w1), o, k) =
          >>=-eq-ok (own v full e.first (list w (file_found full e))) (check_length v full e.size)
            {b = w'} (unfold visit_file in ground arith) in
        visit_file_chain v (file_found full e) w w' got w1 refl (λ z. ground arith) o k
  ]
]

-- What is visited below keeps the property.
abbrev pub DownClean : Volume → (ℕ → Text → Walk → Result Walk) → Type 0
DownClean v down = (fc : ℕ) (full : Text) (w w' : Walk) → down fc full w ≡ ok w' → Clean v w w'

pub enter-Clean :
    (v : Volume) (down : ℕ → Text → Walk → Result Walk) (full : Text) (first : ℕ) (w : Walk)
    (got : Option (List ℕ)) (w1 w' : Walk)
    → DownClean v down
    → own v full first w ≡ ok (got, w1)
    → enter (down first) full first (got, w1) ≡ ok w'
    → Clean v w w'
enter-Clean v down full first w none w1 w' below o h clean =
    let same : w1 ≡ w' = unfold enter in ground arith in
    let (cs, e, x) =
      own-Owned v full first w none w1 o (subst (λ (x : Walk). x.problems ≡ []) (sym same) clean) in
    absurd (ground arith)
enter-Clean v down full first w (some got) w1 w' below o h clean =
    let f : Found = record { path = full; is_dir = true; start = first; bytes = 0 } in
    Clean-trans
      (λ ok1.
        let (cs, e, x) = own-Owned v full first w (some got) w1 o ok1 in
        Grows-claim_list f cs (of_dir refl x.chain_is) x.claimed)
      (below first full (list w1 f) w' (unfold enter in h)) clean

pub visit_dir-Clean :
    (v : Volume) (down : ℕ → Text → Walk → Result Walk) (full : Text) (e : Entry) (w w' : Walk)
    → DownClean v down
    → visit_dir down v full e w ≡ ok w'
    → Clean v w w'
visit_dir-Clean v down full e w w' below h =
    let w1 : Walk = if not (e.size == 0) then complain w (sized_directory full) else w in
    let noted : Clean v w w1 = Clean-if (not (e.size == 0)) (sized_directory full) in
    elim (Bool-cases (e.first == 0)) [
      | inl q ↦
          Clean-trans noted
            (Clean-complained w1 w1 (no_directory_cluster full) (unfold visit_dir in ground arith))
      | inr q ↦
          let ((got, w2), o, k) =
            >>=-eq-ok (own v full e.first w1) (enter (down e.first) full e.first) {b = w'}
              (unfold visit_dir in ground arith) in
          Clean-trans noted (enter-Clean v down full e.first w1 got w2 w' below o k)
    ]
