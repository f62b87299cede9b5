-- ===== src/Fat/Walk/Clean.antt =====
-- A walk that ends with no complaint: what it found holds exactly the clusters that it recorded.
use Prim.Native.Nat.{bit_and}
use gopher_metal.Prelude.Text.{Text, text_eq, text_in}
use gopher_metal.Prelude.{
  append_eq_nil, ℕ, zero, suc, ◌≡◌, refl, sym, ap, subst, ◌∙◌, Bool, true, false, List, [], ◌∷◌,
  ◌++◌, Option, none, some, Bool-cases, inl, inr, arith, ◌==◌, IsDistinct, if◌then◌else◌, not, ◌&&◌,
}
use gopher_metal.Fat.Bytes.{Bytes, Result, ok, ◌>>=◌, >>=-eq-ok}
use gopher_metal.Fat.Volume.{Volume, is_fat32}
use gopher_metal.Fat.Chain.{chain}
use gopher_metal.Fat.Dirent.{Complaint, duplicate, no_dots, dot_target, dotdot_target, too_deep}
use gopher_metal.Fat.Entries.{Entry, Parts, no_parts, entry_step, under}
use gopher_metal.Fat.Walk.Owners.{keys, own-Owned}
use gopher_metal.Fat.Walk.Grows.{
  AllHold, Clean, Grows-same, Clean-refl, Clean-trans, Clean-if, Clean-if_eq, Clean-complained,
}
use gopher_metal.Fat.Walk.Items.{DownClean, visit_file-Clean, visit_dir-Clean}
use gopher_metal.Fat.Walk.{
  no_walk, Walk, Seen, complain, own, visit_file, visit_dir, visit_entry, visit_yielded,
  visit_entries, visit, walk_root, walk, set_mtime, or_slash, raw_entries,
}

Clean-notes :
    {v : Volume} (w : Walk) (notes : List Complaint)
    → Clean v w (record w { problems = w.problems ++ notes })
Clean-notes w notes h = Grows-same (append_eq_nil w.problems notes h).0 refl refl

-- The state in which the branch for a directory or a file starts.
Clean-named :
    {v : Volume} (w : Walk) (m : List (Text × Option ℕ)) (b : Bool) (p : Complaint)
    → Clean v w (if b then complain (record w { mtime = m }) p else record w { mtime = m })
Clean-named {v} w m b p =
    Clean-trans {v = v} {a = w} {b = record w { mtime = m }} (λ h. Grows-same h refl refl)
      (Clean-if b p)

pub ok_pair :
    {s s' : Seen} {w w' : Walk} → ◌≡◌ {A = Result (Seen × Walk)} (ok (s, w)) (ok (s', w')) → w ≡ w'
ok_pair h = ground arith

-- The end of the two branches.
abbrev pub pair_with : Seen → Walk → Result (Seen × Walk)
pair_with s w = ok (s, w)

module _ (casefold : Text → Text) where
  visit_entry-Clean :
      (down : ℕ → Text → Walk → Result Walk) (v : Volume) (first : ℕ) (path : Text) (parent : ℕ)
      (e : Entry) (s s' : Seen) (w w' : Walk)
      → DownClean v down
      → visit_entry casefold down v first path parent e s w ≡ ok (s', w')
      → Clean v w w'
  visit_entry-Clean down v first path parent e s s' w w' below h =
      let full = under path e.name in
      let m = set_mtime full e.mtime w.mtime in
      let dup = text_in (casefold e.name) s.names in
      let w2 : Walk =
        if dup
        then complain (record w { mtime = m }) (duplicate full)
        else record w { mtime = m } in
      let s2 : Seen = record s { names = casefold e.name ∷ s.names } in
      let named : Clean v w w2 = Clean-named w m dup (duplicate full) in
      elim (Bool-cases (text_eq e.name (b'.' ∷ []))) [
        | inl p ↦
            Clean-if_eq w (not (e.first == first)) (dot_target path)
              (unfold visit_entry in ground arith)
        | inr p ↦ elim (Bool-cases (text_eq e.name (b'.' ∷ b'.' ∷ []))) [
          | inl q ↦
              Clean-if_eq w (not (e.first == parent)) (dotdot_target path)
                (unfold visit_entry in ground arith)
          | inr q ↦ elim (Bool-cases (bit_and e.attr 0x10 == 0)) [
            | inl r ↦
                let did : (visit_file v full e w2 >>= pair_with s2) ≡ pair_with s' w' =
                  unfold visit_entry in ground arith in
                let (u, k, same) = >>=-eq-ok (visit_file v full e w2) (pair_with s2) did in
                Clean-trans named
                  (subst (Clean v w2) (ok_pair same) (visit_file-Clean v full e w2 u k))
            | inr r ↦
                let did : (visit_dir down v full e w2 >>= pair_with s2) ≡ pair_with s' w' =
                  unfold visit_entry in ground arith in
                let (u, k, same) = >>=-eq-ok (visit_dir down v full e w2) (pair_with s2) did in
                Clean-trans named
                  (subst (Clean v w2) (ok_pair same) (visit_dir-Clean v down full e w2 u below k))
          ]
        ]
      ]

  pub visit_yielded-Clean :
      (down : ℕ → Text → Walk → Result Walk) (v : Volume) (first : ℕ) (path : Text) (parent : ℕ)
      (o : Option Entry) (s s' : Seen) (w w' : Walk)
      → DownClean v down
      → visit_yielded casefold down v first path parent o s w ≡ ok (s', w')
      → Clean v w w'
  unfolding visit_yielded
  visit_yielded-Clean down v first path parent none s s' w w' below h =
      subst (Clean v w) (ok_pair h) Clean-refl
  visit_yielded-Clean down v first path parent (some e) s s' w w' below h =
      visit_entry-Clean down v first path parent e s s' w w' below h

  pub visit_entries-Clean :
      (down : ℕ → Text → Walk → Result Walk) (v : Volume) (first : ℕ) (path : Text) (parent : ℕ)
      (bs : List Bytes) (p : Parts) (s s' : Seen) (w w' : Walk)
      → DownClean v down
      → visit_entries casefold down v first path parent bs p s w ≡ ok (s', w')
      → Clean v w w'
  unfolding visit_entries
  visit_entries-Clean down v first path parent [] p s s' w w' below h =
      subst (Clean v w) (ok_pair h) Clean-refl
  visit_entries-Clean down v first path parent (b ∷ bs) p s s' w w' below h =
      let (p', notes, yielded) = entry_step v.kind (or_slash path) p b in
      let w1 : Walk = record w { problems = w.problems ++ notes } in
      let ((s2, w2), k, more) =
        >>=-eq-ok (visit_yielded casefold down v first path parent yielded s w1) _ {b = (s', w')}
          h in
      Clean-trans (Clean-notes w notes) (
        Clean-trans (visit_yielded-Clean down v first path parent yielded s s2 w1 w2 below k)
          (visit_entries-Clean down v first path parent bs p' s2 s' w2 w' below more))

  pub visit-Clean :
      (depth : ℕ) (v : Volume) (first : ℕ) (path : Text) (parent : ℕ) (w w' : Walk)
      → visit casefold depth v first path parent w ≡ ok w'
      → Clean v w w'
  unfolding visit
  visit-Clean zero v first path parent w w' h = Clean-complained w w (too_deep path) (ground arith)
  visit-Clean (suc depth) v first path parent w w' h =
      let (bs, _, k) = >>=-eq-ok (raw_entries v first) _ {b = w'} h in
      let ((s, w1), l, e) = >>=-eq-ok _ _ {b = w'} k in
      Clean-trans
        (visit_entries-Clean (λ fc full. visit casefold depth v fc full first) v first path parent
          bs no_parts _ s w w1 (λ fc full u u' z. visit-Clean depth v fc full first u u' z) l)
        (Clean-if_eq w1 (not (first == 0) && not (s.dot && s.dotdot)) (no_dots path) (ground arith))

-- The clusters of the root directory, which FAT32 keeps in a chain, and FAT16 elsewhere.
pub data RootHolds (v : Volume) (cs : List ℕ) : Type 0 where
  fixed : is_fat32 v.kind ≡ false → cs ≡ [] → RootHolds v cs
  chained : is_fat32 v.kind ≡ true → chain v v.root_cluster ≡ ok cs → RootHolds v cs

-- What a walk has found, where it ends with no complaint: the owned clusters are those of the root
-- and, in the order of the items, those of each item, and no cluster is there twice.
pub record IsClean (v : Volume) (w : Walk) : Type 0 where
  pub root : List ℕ
  pub clusters : List ℕ
  pub root_holds : RootHolds v root
  pub holds : AllHold v w.found clusters
  pub owner_is : keys w.owner ≡ root ++ clusters
  pub distinct : IsDistinct (keys w.owner)

module _ (casefold : Text → Text) where
  walk_root-IsClean :
      (v : Volume) (root : List ℕ) (w0 w : Walk)
      → RootHolds v root
      → w0.found ≡ []
      → keys w0.owner ≡ root
      → IsDistinct root
      → walk_root casefold v (some root, w0) ≡ ok w
      → w.problems ≡ []
      → (w0.problems ≡ []) × IsClean v w
  walk_root-IsClean v root w0 w r f o d h clean =
      let g = visit-Clean casefold 65 v 0 [] 0 w0 w (unfold walk_root in h) clean in
      (
        g.was,
        record {
          root = root;
          clusters = g.clusters;
          root_holds = r;
          holds =
              subst (λ l. AllHold v l g.clusters) (sym (g.found_is ∙ ap (λ l. l ++ g.new) f))
                g.holds;
          owner_is = g.owner_is ∙ ap (λ l. l ++ g.clusters) o;
          distinct = g.distinct (subst IsDistinct (sym o) d);
        },
      )

  walk_flat :
      (v : Volume) (problems : List Complaint) (w : Walk)
      → is_fat32 v.kind ≡ false
      → walk casefold v problems ≡ ok w
      → w.problems ≡ []
      → (problems ≡ []) × IsClean v w
  walk_flat v problems w k h clean =
      walk_root-IsClean v [] (record no_walk { problems = problems }) w (fixed k refl) refl refl tt
        (unfold walk in ground arith) clean

  walk_chained :
      (v : Volume) (w0 w1 w : Walk) (got : Option (List ℕ))
      → is_fat32 v.kind ≡ true
      → w0.found ≡ []
      → w0.owner ≡ []
      → own v (b'/' ∷ []) v.root_cluster w0 ≡ ok (got, w1)
      → walk_root casefold v (got, w1) ≡ ok w
      → w.problems ≡ []
      → (w0.problems ≡ []) × IsClean v w
  walk_chained v w0 w1 w none k f e o h clean =
      let same : w1 ≡ w = unfold walk_root in ground arith in
      let (cs, bad, x) =
        own-Owned v _ v.root_cluster w0 none w1 o
          (subst (λ (u : Walk). u.problems ≡ []) (sym same) clean) in
      absurd (ground arith)
  walk_chained v w0 w1 w (some got) k f e o h clean =
      let g = visit-Clean casefold 65 v 0 [] 0 w1 w (unfold walk_root in h) clean in
      let (cs, e1, x) = own-Owned v _ v.root_cluster w0 (some got) w1 o g.was in
      let eq : cs ≡ got = ground arith in
      let c = x.claimed in
      let owners : keys w1.owner ≡ got = c.owner_is ∙ ap (λ l. keys l ++ cs) e ∙ eq in
      let all =
        walk_root-IsClean v got w1 w (chained k (x.chain_is ∙ ap ok eq)) (c.found_is ∙ f) owners
          (subst IsDistinct owners (c.distinct (subst (λ l. IsDistinct (keys l)) (sym e) tt))) h
          clean in
      (c.was, all.1)

  -- A walk that ends with no complaint started with none, and has found what `IsClean` states.
  pub walk-IsClean :
      (v : Volume) (problems : List Complaint) (w : Walk)
      → walk casefold v problems ≡ ok w
      → w.problems ≡ []
      → (problems ≡ []) × IsClean v w
  walk-IsClean v problems w h clean = elim (Bool-cases (is_fat32 v.kind)) [
    | inl k ↦
        let w0 : Walk = record no_walk { problems = problems } in
        let ((got, w1), o, r) =
          >>=-eq-ok (own v (b'/' ∷ []) v.root_cluster w0) (walk_root casefold v) {b = w}
            (unfold walk in ground arith) in
        walk_chained v w0 w1 w got k refl refl o r clean
    | inr k ↦ walk_flat v problems w k h clean
  ]
