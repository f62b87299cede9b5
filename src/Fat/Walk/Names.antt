-- ===== src/Fat/Walk/Names.antt =====
-- The names of a directory in a walk with no complaint: none twice, and `.` and `..` where they are due.
use Prim.Native.Nat.{bit_and}
use gopher_metal.Prelude.Text.{Text, text_eq, text_in, IsUnique, text_eq_comm}
use gopher_metal.Prelude.{
  append_eq_nil, ℕ, ◌≡◌, refl, sym, ap, subst, ◌∙◌, Bool, true, false, List, [], ◌∷◌, ◌++◌, Option,
  none, some, Bool-cases, inl, inr, arith, ◌==◌, if◌then◌else◌, ◌||◌, All,
}
use gopher_metal.Fat.Bytes.{Bytes, Result, ok, ◌>>=◌, >>=-eq-ok}
use gopher_metal.Fat.Volume.{Volume}
use gopher_metal.Fat.Dirent.{Complaint, duplicate}
use gopher_metal.Fat.Entries.{Entry, Parts, entry_step, under}
use gopher_metal.Fat.Walk.Owners.{complain-problems}
use gopher_metal.Fat.Walk.Items.{DownClean, visit_file-Clean, visit_dir-Clean}
use gopher_metal.Fat.Walk.Clean.{pair_with, ok_pair, visit_yielded-Clean, visit_entries-Clean}
use gopher_metal.Fat.Walk.Lists.{is_dots, and_then, spelled, noted, named, has_name}
use gopher_metal.Fat.Walk.{
  Walk, Seen, complain, visit_file, visit_dir, visit_entry, visit_yielded, visit_entries, set_mtime,
  or_slash,
}

-- From `s` to `s'` the entries are seen: their names are new and differ, and `.` and `..` are noted where
-- they are there.
pub record NamedFrom (casefold : Text → Text) (es : List Entry) (s s' : Seen) : Type 0 where
  pub fresh : All (λ t. text_in t s.names ≡ false) (named casefold es)
  pub unique : IsUnique (named casefold es)
  pub dot : s'.dot ≡ true → (s.dot || has_name (b'.' ∷ []) es) ≡ true
  pub dotdot : s'.dotdot ≡ true → (s.dotdot || has_name (b'.' ∷ b'.' ∷ []) es) ≡ true

apart :
    (t : Text) (names ts : List Text)
    → All (λ u. text_in u (t ∷ names) ≡ false) ts
    → (text_in t ts ≡ false) × All (λ u. text_in u names ≡ false) ts
unfolding text_in
apart t names [] h = (refl, tt)
apart t names (u ∷ us) h =
    let (a, b) = apart t names us h.1 in
    let now = h.0 in let turned = text_eq_comm t u in (ground arith, (ground arith, b))

seen_eq :
    {s s' : Seen} {w w' : Walk} → ◌≡◌ {A = Result (Seen × Walk)} (ok (s, w)) (ok (s', w')) → s ≡ s'
seen_eq h = ground arith

-- An entry that is `.` or `..`.
dots-NamedFrom :
    (casefold : Text → Text) (e : Entry) (es : List Entry) (s s1 s' : Seen)
    → is_dots e.name ≡ true
    → s1.names ≡ s.names
    → (s1.dot ≡ true → (s.dot || text_eq e.name (b'.' ∷ [])) ≡ true)
    → (s1.dotdot ≡ true → (s.dotdot || text_eq e.name (b'.' ∷ b'.' ∷ [])) ≡ true)
    → NamedFrom casefold es s1 s'
    → NamedFrom casefold (e ∷ es) s s'
dots-NamedFrom casefold e es s s1 s' d n one two rest =
    let same : named casefold (e ∷ es) ≡ named casefold es = ground arith in
    record {
      fresh =
          subst (λ l. All (λ t. text_in t s.names ≡ false) l) (sym same)
            (subst (λ (l : List Text). All (λ t. text_in t l ≡ false) (named casefold es)) n
              rest.fresh);
      unique = subst IsUnique (sym same) rest.unique;
      dot = λ h.
          (let r = rest.dot h in
            elim (Bool-cases s1.dot) [
              | inl was ↦ let o = one was in ground arith
              | inr not_yet ↦ ground arith
            ]);
      dotdot = λ h.
          (let r = rest.dotdot h in
            elim (Bool-cases s1.dotdot) [
              | inl was ↦ let o = two was in ground arith
              | inr not_yet ↦ ground arith
            ]);
    }

-- An entry with a name that is new.
name-NamedFrom :
    (casefold : Text → Text) (e : Entry) (es : List Entry) (s s1 s' : Seen)
    → is_dots e.name ≡ false
    → s1 ≡ record s { names = casefold e.name ∷ s.names }
    → text_in (casefold e.name) s.names ≡ false
    → NamedFrom casefold es s1 s'
    → NamedFrom casefold (e ∷ es) s s'
name-NamedFrom casefold e es s s1 s' d n new rest =
    let same : named casefold (e ∷ es) ≡ casefold e.name ∷ named casefold es = ground arith in
    let names : s1.names ≡ casefold e.name ∷ s.names = ap (λ (x : Seen). x.names) n in
    let dot_is : s1.dot ≡ s.dot = ap (λ (x : Seen). x.dot) n in
    let dotdot_is : s1.dotdot ≡ s.dotdot = ap (λ (x : Seen). x.dotdot) n in
    let (alone, fresh) = apart (casefold e.name) s.names (named casefold es) (
      subst (λ (l : List Text). All (λ t. text_in t l ≡ false) (named casefold es)) names
        rest.fresh) in
    record {
      fresh = subst (λ l. All (λ t. text_in t s.names ≡ false) l) (sym same) (new, fresh);
      unique = subst IsUnique (sym same) (alone, rest.unique);
      dot = λ h. (let r = rest.dot h in ground arith);
      dotdot = λ h. (let r = rest.dotdot h in ground arith);
    }

if_clean :
    (b : Bool) (w : Walk) (p : Complaint)
    → (if b then complain w p else w).problems ≡ []
    → b ≡ false
if_clean true w p h = absurd (complain-problems w p h)
if_clean false w p h = refl

module _ (casefold : Text → Text) (v : Volume) (down : ℕ → Text → Walk → Result Walk) where
  visit_entry-NamedFrom :
      (first : ℕ) (path : Text) (parent : ℕ) (e : Entry) (es : List Entry) (s s1 s' : Seen)
      (w w' : Walk)
      → DownClean v down
      → visit_entry casefold down v first path parent e s w ≡ ok (s1, w')
      → w'.problems ≡ []
      → NamedFrom casefold es s1 s'
      → NamedFrom casefold (e ∷ es) s s'
  visit_entry-NamedFrom first path parent e es s s1 s' w w' keeps h clean rest =
      let full = under path e.name in
      let dup = text_in (casefold e.name) s.names in
      let w1 : Walk = record w { mtime = set_mtime full e.mtime w.mtime } in
      let w2 : Walk = if dup then complain w1 (duplicate full) else w1 in
      let s2 : Seen = record s { names = casefold e.name ∷ s.names } in
      elim (Bool-cases (text_eq e.name (b'.' ∷ []))) [
        | inl p ↦
            let now : record s { dot = true } ≡ s1 = unfold visit_entry in ground arith in
            dots-NamedFrom casefold e es s s1 s' (ground arith)
              (ap (λ (x : Seen). x.names) (sym now)) (λ z. ground arith)
              (λ z.
                (let y : s1.dotdot ≡ s.dotdot = ap (λ (x : Seen). x.dotdot) (sym now) in
                  ground arith))
              rest
        | inr p ↦ elim (Bool-cases (text_eq e.name (b'.' ∷ b'.' ∷ []))) [
          | inl q ↦
              let now : record s { dotdot = true } ≡ s1 = unfold visit_entry in ground arith in
              dots-NamedFrom casefold e es s s1 s' (ground arith)
                (ap (λ (x : Seen). x.names) (sym now))
                (λ z. (let y : s1.dot ≡ s.dot = ap (λ (x : Seen). x.dot) (sym now) in ground arith))
                (λ z. ground arith) rest
          | inr q ↦ elim (Bool-cases (bit_and e.attr 0x10 == 0)) [
            | inl r ↦
                let did : (visit_file v full e w2 >>= pair_with s2) ≡ pair_with s1 w' =
                  unfold visit_entry in ground arith in
                let (u, k, same) = >>=-eq-ok (visit_file v full e w2) (pair_with s2) did in
                let before =
                  (visit_file-Clean v full e w2 w' (k ∙ ap ok (ok_pair same)) clean).was in
                name-NamedFrom casefold e es s s1 s' (ground arith) (sym (seen_eq same))
                  (if_clean dup w1 (duplicate full) before) rest
            | inr r ↦
                let did : (visit_dir down v full e w2 >>= pair_with s2) ≡ pair_with s1 w' =
                  unfold visit_entry in ground arith in
                let (u, k, same) = >>=-eq-ok (visit_dir down v full e w2) (pair_with s2) did in
                let before =
                  (visit_dir-Clean v down full e w2 w' keeps (k ∙ ap ok (ok_pair same))
                    clean).was in
                name-NamedFrom casefold e es s s1 s' (ground arith) (sym (seen_eq same))
                  (if_clean dup w1 (duplicate full) before) rest
          ]
        ]
      ]

  visit_yielded-NamedFrom :
      (first : ℕ) (path : Text) (parent : ℕ) (o : Option Entry) (es : List Entry) (s s1 s' : Seen)
      (w w' : Walk)
      → DownClean v down
      → visit_yielded casefold down v first path parent o s w ≡ ok (s1, w')
      → w'.problems ≡ []
      → NamedFrom casefold es s1 s'
      → NamedFrom casefold (and_then o es) s s'
  unfolding visit_yielded
  visit_yielded-NamedFrom first path parent none es s s1 s' w w' keeps h clean rest =
      subst (λ (x : Seen). NamedFrom casefold es x s') (sym (seen_eq h)) rest
  visit_yielded-NamedFrom first path parent (some e) es s s1 s' w w' keeps h clean rest =
      visit_entry-NamedFrom first path parent e es s s1 s' w w' keeps h clean rest

  -- The names of a directory.
  pub visit_entries-NamedFrom :
      (first : ℕ) (path : Text) (parent : ℕ) (bs : List Bytes) (p : Parts) (s s' : Seen)
      (w w' : Walk)
      → DownClean v down
      → visit_entries casefold down v first path parent bs p s w ≡ ok (s', w')
      → w'.problems ≡ []
      → NamedFrom casefold (spelled v.kind (or_slash path) p bs) s s'
  unfolding visit_entries
  visit_entries-NamedFrom first path parent [] p s s' w w' keeps h clean =
      let same : s ≡ s' = seen_eq h in
      record { fresh = tt; unique = tt; dot = λ z. ground arith; dotdot = λ z. ground arith }
  visit_entries-NamedFrom first path parent (b ∷ bs) p s s' w w' keeps h clean =
      let (p', notes, yielded) = entry_step v.kind (or_slash path) p b in
      let w1 : Walk = record w { problems = w.problems ++ notes } in
      let ((s2, w2), k, more) =
        >>=-eq-ok (visit_yielded casefold down v first path parent yielded s w1) _ {b = (s', w')}
          h in
      let still =
        (visit_entries-Clean casefold down v first path parent bs p' s2 s' w2 w' keeps more
          clean).was in
      visit_yielded-NamedFrom first path parent yielded (spelled v.kind (or_slash path) p' bs) s s2
        s' w1 w2 keeps k still
        (visit_entries-NamedFrom first path parent bs p' s2 s' w2 w' keeps more clean)

  -- The entries of a directory give no complaint.
  pub visit_entries-noted :
      (first : ℕ) (path : Text) (parent : ℕ) (bs : List Bytes) (p : Parts) (s s' : Seen)
      (w w' : Walk)
      → DownClean v down
      → visit_entries casefold down v first path parent bs p s w ≡ ok (s', w')
      → w'.problems ≡ []
      → noted v.kind (or_slash path) p bs ≡ []
  unfolding visit_entries
  visit_entries-noted first path parent [] p s s' w w' keeps h clean = refl
  visit_entries-noted first path parent (b ∷ bs) p s s' w w' keeps h clean =
      let (p', notes, yielded) = entry_step v.kind (or_slash path) p b in
      let w1 : Walk = record w { problems = w.problems ++ notes } in
      let ((s2, w2), k, more) =
        >>=-eq-ok (visit_yielded casefold down v first path parent yielded s w1) _ {b = (s', w')}
          h in
      let still =
        (visit_entries-Clean casefold down v first path parent bs p' s2 s' w2 w' keeps more
          clean).was in
      let before =
        (visit_yielded-Clean casefold down v first path parent yielded s s2 w1 w2 keeps k
          still).was in
      let rest = visit_entries-noted first path parent bs p' s2 s' w2 w' keeps more clean in
      ap (λ l. l ++ noted v.kind (or_slash path) p' bs) (append_eq_nil w.problems notes before).1
      ∙ rest
