-- ===== src/Verdicts/Allowed.antt =====
-- When `require` has nothing against an image.
use gopher_metal.Prelude.Text.{Text, text_eq, ends_with, text_eq_sound, text_eq_refl}
use gopher_metal.Prelude.{
  append_eq_nil, ◌≡◌, ◌↔◌, refl, sym, ap, ◌∙◌, subst, Bool, true, false, not, List, [], ◌∷◌, ◌++◌,
  Option, none, some, Bool-cases, inl, inr, arith,
}
use gopher_metal.Verdicts.Texts.{
  dirty, sdk_mark, split_mark, first_word, Lacks, Lacks-append, ends_with-Lacks, ends_with-dirty,
  split_mark-append,
}
use gopher_metal.Verdicts.{
  Repo, root, sdk, gopher, webbox, World, is_empty, commit_of, ours_id, Freshness, fresh,
  no_sources, no_webbox_sources, assets_unread, aliases, freshness, theirs_of, current_pair, gates,
  long, pass, verdict_name, read_file, Why, why_if, tier_said, tier_file, served_paths,
  require_pair, require,
}

-- The verdict that is kept of the tier for the pair is PASS.
abbrev pub Passed : List (Text × Text) → Text → Text → Text → Type 0
Passed files tier ours id =
    (text : Text) × (read_file (verdict_name tier ours id) files ≡ some text)
    × (first_word text ≡ some pass)

tier_said-nil : (tier : Text) (o : Option Text) → tier_said tier o ≡ [] → o ≡ some pass
unfolding tier_said
tier_said-nil tier none h = absurd (ground arith)
tier_said-nil tier (some said) h =
    let e : text_eq said pass ≡ true = ground arith in ap some (text_eq_sound said pass e)

tier_file-nil :
    (tier : Text) (o : Option Text)
    → tier_file tier o ≡ []
    → (text : Text) × (o ≡ some text) × (first_word text ≡ some pass)
unfolding tier_file
tier_file-nil tier none h = absurd (ground arith)
tier_file-nil tier (some text) h = (text, refl, tier_said-nil tier (first_word text) h)

Passed-tier_file :
    (files : List (Text × Text)) (tier ours id : Text)
    → Passed files tier ours id
    → tier_file tier (read_file (verdict_name tier ours id) files) ≡ []
unfolding tier_file tier_said
Passed-tier_file files tier ours id (text, r, f) = simp (r, f, text_eq_refl pass)

why_if-nil : (b : Bool) (y : Why) → why_if b y ≡ [] → b ≡ false
why_if-nil b y h = ground arith

-- A commit's name, with the mark of a tree that differs from it.
ends_with-commit_of :
    (w : World) (r : Repo) (paths : List Text)
    → Lacks b'-' (w.head r)
    → ends_with dirty (commit_of w r paths) ≡ not (is_empty (w.status r paths))
unfolding commit_of
ends_with-commit_of w r paths plain = elim (Bool-cases (is_empty (w.status r paths))) [
  | inl clean ↦
      let lacks = Lacks-append b'-' (w.head r) [] plain tt in
      rw clean (ends_with-Lacks (w.head r ++ []) lacks)
  | inr changed ↦ rw changed (ends_with-dirty (w.head r))
]

split-ours_id :
    (w : World)
    → Lacks b'.' (w.head root)
    → split_mark sdk_mark (ours_id w) ≡ (commit_of w root [], commit_of w sdk [])
unfolding ours_id commit_of
split-ours_id w plain =
    split_mark-append (commit_of w root []) (commit_of w sdk [])
      (elim (Bool-cases (is_empty (w.status root []))) [
        | inl clean ↦ rw clean (Lacks-append b'.' (w.head root) [] plain tt)
        | inr changed ↦ rw changed (
            Lacks-append b'.' (w.head root) dirty plain
              (refl, (refl, (refl, (refl, (refl, (refl, tt)))))))
      ])

module _ (assets : Text) (webbox_built : List Text) where
  -- Every tree is clean, the checkouts can be built, and both verdicts for the pair are PASS.
  pub record IsAllowed (w : World) (files : List (Text × Text)) : Type 0 where
    pub is_fresh : freshness w ≡ fresh
    pub root_clean : w.status root [] ≡ []
    pub sdk_clean : w.status sdk [] ≡ []
    pub gopher_clean : w.status gopher (served_paths assets w) ≡ []
    pub webbox_clean : w.status webbox webbox_built ≡ []
    pub gates_passed : Passed files gates (ours_id w) w.content
    pub long_passed : Passed files long (ours_id w) w.content

  -- What `require` has of a pair, with the paths of the two applications.
  theirs_of-problem :
      (w : World) (files : List (Text × Text)) (ours content : Text) (f : Freshness)
      → require_pair assets webbox_built w files (ours, theirs_of content f) ≡ []
      → f ≡ fresh
  unfolding require_pair theirs_of
  theirs_of-problem w files ours content fresh h = refl
  theirs_of-problem w files ours content no_sources h = absurd (ground arith)
  theirs_of-problem w files ours content no_webbox_sources h = absurd (ground arith)
  theirs_of-problem w files ours content assets_unread h = absurd (ground arith)
  theirs_of-problem w files ours content (aliases names) h = absurd (ground arith)

  is_empty-nil : (t : Text) → is_empty t ≡ true → t ≡ []
  is_empty-nil [] h = refl
  is_empty-nil (c ∷ cs) h = absurd (ground arith)

  commit_of-clean :
      (w : World) (r : Repo) (paths : List Text)
      → Lacks b'-' (w.head r)
      → ends_with dirty (commit_of w r paths) ≡ false
      → w.status r paths ≡ []
  commit_of-clean w r paths plain h =
      let e = ends_with-commit_of w r paths plain in
      is_empty-nil (w.status r paths) (ground (arith, e))

  require-IsAllowed :
      (w : World) (files : List (Text × Text))
      → Lacks b'.' (w.head root)
      → Lacks b'-' (w.head root)
      → Lacks b'-' (w.head sdk)
      → require assets webbox_built w files ≡ []
      → IsAllowed w files
  unfolding require current_pair require_pair theirs_of
  require-IsAllowed w files point dash sdk_dash h =
      let f = theirs_of-problem w files (ours_id w) w.content (freshness w) h in
      let k =
        subst
          (λ (x : Freshness).
            require_pair assets webbox_built w files (ours_id w, theirs_of w.content x) ≡ [])
          f h in
      let s = split-ours_id w point in
      let (a, k1) =
        append_eq_nil (why_if (ends_with dirty (split_mark sdk_mark (ours_id w)).0) _) _ k in
      let (b, k2) =
        append_eq_nil (why_if (ends_with dirty (split_mark sdk_mark (ours_id w)).1) _) _ k1 in
      let (c, k3) =
        append_eq_nil (why_if (not (is_empty (w.status gopher (served_paths assets w)))) _) _ k2 in
      let (d, k4) = append_eq_nil (why_if (not (is_empty (w.status webbox webbox_built))) _) _ k3 in
      let (g, l) = append_eq_nil (tier_file gates _) _ k4 in
      record {
        is_fresh = f;
        root_clean =
            commit_of-clean w root [] dash
              (ap (λ (p : Text × Text). ends_with dirty p.0) (sym s) ∙ why_if-nil _ _ a);
        sdk_clean =
            commit_of-clean w sdk [] sdk_dash
              (ap (λ (p : Text × Text). ends_with dirty p.1) (sym s) ∙ why_if-nil _ _ b);
        gopher_clean = is_empty-nil _ (let e = why_if-nil _ _ c in ground arith);
        webbox_clean = is_empty-nil _ (let e = why_if-nil _ _ d in ground arith);
        gates_passed = tier_file-nil gates _ g;
        long_passed = tier_file-nil long _ l;
      }

  IsAllowed-require :
      (w : World) (files : List (Text × Text))
      → Lacks b'.' (w.head root)
      → Lacks b'-' (w.head root)
      → Lacks b'-' (w.head sdk)
      → IsAllowed w files
      → require assets webbox_built w files ≡ []
  unfolding require current_pair require_pair theirs_of
  IsAllowed-require w files point dash sdk_dash h =
      let s = split-ours_id w point in
      let a : ends_with dirty (commit_of w root []) ≡ false =
        ends_with-commit_of w root [] dash ∙ ap (λ (t : Text). not (is_empty t)) h.root_clean in
      let b : ends_with dirty (commit_of w sdk []) ≡ false =
        ends_with-commit_of w sdk [] sdk_dash ∙ ap (λ (t : Text). not (is_empty t)) h.sdk_clean in
      let g = Passed-tier_file files gates (ours_id w) w.content h.gates_passed in
      let l = Passed-tier_file files long (ours_id w) w.content h.long_passed in
      simp (h.is_fresh, s, a, b, h.gopher_clean, h.webbox_clean, g, l)

  -- Where the commits' names have no dash, and this repository's no point, `require` has nothing against
  -- an image exactly when every tree is clean, the checkouts can be built and both verdicts for the
  -- pair are PASS.
  pub require_iff :
      (w : World) (files : List (Text × Text))
      → Lacks b'.' (w.head root)
      → Lacks b'-' (w.head root)
      → Lacks b'-' (w.head sdk)
      → (require assets webbox_built w files ≡ []) ↔ IsAllowed w files
  require_iff w files point dash sdk_dash =
      (require-IsAllowed w files point dash sdk_dash, IsAllowed-require w files point dash sdk_dash)
