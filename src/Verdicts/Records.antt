-- ===== src/Verdicts/Records.antt =====
-- What `record` keeps, and that it is what `require` reads.
use gopher_metal.Prelude.Text.{Text, text_eq, text_eq_sound, text_eq_refl}
use gopher_metal.Prelude.{◌≡◌, refl, sym, subst, true, false, List, [], ◌∷◌, ◌++◌, some, arith}
use gopher_metal.Verdicts.Texts.{has_word}
use gopher_metal.Verdicts.{
  World, Freshness, fresh, freshness, no_sources, no_webbox_sources, assets_unread, aliases,
  ours_id, theirs_of, current_pair, verdict_name, pair_text, read_file, write_file, record_pair,
  record_verdict,
}

-- What has to hold for a verdict to be kept: it is for the code that the run started on, no step was
-- skipped, the checkouts can be built, and the file for the tier and the pair holds the outcome.
pub record IsKept (w : World) (skip started now tier outcome : Text)
    (files after : List (Text × Text)) : Type 0 where
  pub not_skipped : has_word skip ≡ false
  pub is_fresh : freshness w ≡ fresh
  pub same_code : started ≡ pair_text (ours_id w) w.content
  pub written :
      read_file (verdict_name tier (ours_id w) w.content) after
      ≡ some (outcome ++ (b' ' ∷ (now ++ (10 ∷ []))))
  pub no_other :
      after
      ≡ write_file
          (verdict_name tier (ours_id w) w.content)
          (outcome ++ (b' ' ∷ (now ++ (10 ∷ []))))
          files

theirs_of-fresh :
    (started now tier outcome ours content : Text) (f : Freshness)
    (files after : List (Text × Text))
    → record_pair started now tier outcome (ours, theirs_of content f) files ≡ (0, after)
    → f ≡ fresh
unfolding record_pair theirs_of
theirs_of-fresh started now tier outcome ours content fresh files after h = refl
theirs_of-fresh started now tier outcome ours content no_sources files after h =
    absurd (ground arith)
theirs_of-fresh started now tier outcome ours content no_webbox_sources files after h =
    absurd (ground arith)
theirs_of-fresh started now tier outcome ours content assets_unread files after h =
    absurd (ground arith)
theirs_of-fresh started now tier outcome ours content (aliases names) files after h =
    absurd (ground arith)

-- Where `record` ends with status 0, the verdict is kept, for the code that the run started on, and no
-- other file changes.
pub record_verdict-IsKept :
    (w : World) (skip started now tier outcome : Text) (files after : List (Text × Text))
    → record_verdict w skip started now tier outcome files ≡ (0, after)
    → IsKept w skip started now tier outcome files after
unfolding record_verdict current_pair
record_verdict-IsKept w skip started now tier outcome files after h =
    let unskipped : has_word skip ≡ false = ground arith in
    let kept : record_pair started now tier outcome (ours_id w, theirs_of w.content (freshness w))
          files
        ≡ (0, after) =
      ground arith in
    let f =
      theirs_of-fresh started now tier outcome (ours_id w) w.content (freshness w) files after
        kept in
    let k =
      subst
        (λ (x : Freshness).
          record_pair started now tier outcome (ours_id w, theirs_of w.content x) files
          ≡ (0, after))
        f kept in
    let same : text_eq started (pair_text (ours_id w) w.content) ≡ true =
      unfold record_pair theirs_of in ground arith in
    let e : (verdict_name tier (ours_id w) w.content, outcome ++ (b' ' ∷ (now ++ (10 ∷ []))))
          ∷ files
        ≡ after =
      unfold record_pair theirs_of write_file in ground arith in
    record {
      not_skipped = unskipped;
      is_fresh = f;
      same_code = text_eq_sound started _ same;
      written =
          subst
            (λ (x : List (Text × Text)).
              read_file (verdict_name tier (ours_id w) w.content) x
              ≡ some (outcome ++ (b' ' ∷ (now ++ (10 ∷ [])))))
            e (unfold read_file in simp (text_eq_refl (verdict_name tier (ours_id w) w.content)));
      no_other = unfold write_file in sym e;
    }
