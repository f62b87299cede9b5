-- ===== src/Hosts/Covers.antt =====
-- Every topic of a channel is among the pages.
use gopher_metal.Prelude.{
  ℕ, suc, ◌-◌, ◌≡◌, refl, sym, ap, subst, ◌∙◌, Bool, true, false, ◌||◌, List, [], ◌∷◌, ◌++◌, length,
  length-append, Bool-cases, inl, inr, arith,
}
use gopher_metal.Prelude.Text.{
  Text, codes, text_eq, text_in, text_eq_sound, text_eq_refl, ends_with,
}
use gopher_metal.Prelude.Decimal.{decimal}
use gopher_metal.Hosts.Pages.{
  Page, Copied, ◌/+◌, take, stems, topic, each_topic, topics, keep, each_folder, fixed, dm_pages,
  channel_pages, user_docs, pages,
}

-- the path is asked of the hosts
unfoldable pub asked : Text → List Page → Bool
unfolding text_eq
asked path [] = false
asked path ((label, p) ∷ rest) = text_eq path p || asked path rest

asked-append :
    (path : Text) (xs ys : List Page) → asked path (xs ++ ys) ≡ (asked path xs || asked path ys)
unfolding asked
asked-append path [] ys = refl
asked-append path ((label, p) ∷ xs) ys = ground (arith, asked-append path xs ys)

asked_left : (path : Text) (xs ys : List Page) → asked path xs ≡ true → asked path (xs ++ ys) ≡ true
asked_left path xs ys h = ground (arith, asked-append path xs ys, h)

asked_right :
    (path : Text) (xs ys : List Page) → asked path ys ≡ true → asked path (xs ++ ys) ≡ true
asked_right path xs ys h = ground (arith, asked-append path xs ys, h)

-- the path of a topic, raw
abbrev pub raw_of : Copied → Text → Text → Text
raw_of copied base sid = (base ++ (codes "/" ++ copied.quote sid)) ++ codes "/raw"

topic-asked :
    (copied : Copied) (sessions base label sid : Text)
    → asked (raw_of copied base sid) (topic copied sessions base label sid) ≡ true
unfolding topic asked
topic-asked copied sessions base label sid =
    let e = text_eq_refl (raw_of copied base sid) in ground (arith, e)

each_topic-asked :
    (copied : Copied) (kind : Text) (n : ℕ) (sessions base : Text) (t : ℕ) (sids : List Text)
    (sid : Text)
    → text_in sid sids ≡ true
    → asked (raw_of copied base sid) (each_topic copied kind n sessions base t sids) ≡ true
unfolding each_topic text_in
each_topic-asked copied kind n sessions base t [] sid h = absurd (ground arith)
each_topic-asked copied kind n sessions base t (x ∷ sids) sid h =
    let label = kind ++ (codes " " ++ (decimal n ++ (codes ", topic " ++ decimal t))) in
    let first = topic copied sessions base label x in
    let rest = each_topic copied kind n sessions base (suc t) sids in
    elim (Bool-cases (text_eq sid x)) [
      | inl e ↦
          let same : x ≡ sid = sym (text_eq_sound sid x e) in
          let f =
            subst (λ y. asked (raw_of copied base y) first ≡ true) same
              (topic-asked copied sessions base label x) in
          asked_left (raw_of copied base sid) first rest f
      | inr e ↦
          asked_right (raw_of copied base sid) first rest
            (each_topic-asked copied kind n sessions base (suc t) sids sid (ground arith))
    ]

-- What stands before .md in a name is one of the stems.
take-append : (xs ys : Text) → take (length xs) (xs ++ ys) ≡ xs
unfolding take
take-append [] [] = refl
take-append [] (y ∷ ys) = refl
take-append (x ∷ xs) ys = ap (λ t. x ∷ t) (take-append xs ys)

ends_with-append :
    (xs suffix : Text) → ends_with suffix suffix ≡ true → ends_with suffix (xs ++ suffix) ≡ true
unfolding ends_with
ends_with-append [] suffix h = h
ends_with-append (x ∷ xs) suffix h = ground (arith, ends_with-append xs suffix h)

stem_here : (fs : List Text) (sid : Text) → text_in sid (stems ((sid ++ codes ".md") ∷ fs)) ≡ true
unfolding stems text_in
stem_here fs sid =
    let md = ends_with-append sid (codes ".md") (unfold ends_with text_eq in refl) in
    let n : length (sid ++ codes ".md") - 3 ≡ length sid =
      omega (arith, length-append sid (codes ".md")) in
    let t = ap (λ k. take k (sid ++ codes ".md")) n ∙ take-append sid (codes ".md") in
    let same = text_eq_refl sid in simp (md, t, same)

stems-md :
    (fs : List Text) (sid : Text)
    → text_in (sid ++ codes ".md") fs ≡ true
    → text_in sid (stems fs) ≡ true
unfolding stems text_in
stems-md [] sid h = absurd (ground arith)
stems-md (f ∷ fs) sid h = elim (Bool-cases (text_eq (sid ++ codes ".md") f)) [
  | inl e ↦
      let same = text_eq_sound (sid ++ codes ".md") f e in
      subst (λ g. text_in sid (stems (g ∷ fs)) ≡ true) same (stem_here fs sid)
  | inr e ↦ let rest = stems-md fs sid (ground arith) in ground arith
]

abbrev pub chat_of : Text → Text
chat_of copy = copy /+ codes "data" /+ codes "chat"

abbrev pub channels_of : Text → Text
channels_of copy = chat_of copy /+ codes "channels"

module _ (copied : Copied)
    (sorts : (xs : List Text) (x : Text)
      → text_in x xs ≡ true
      → text_in x (copied.sorted xs) ≡ true) where
  topics-asked :
      (kind : Text) (n : ℕ) (dir base sid : Text)
      → copied.isdir (dir /+ codes "sessions") ≡ true
      → text_in (sid ++ codes ".md") (copied.listdir (dir /+ codes "sessions")) ≡ true
      → asked (raw_of copied base sid) (topics copied kind n dir base) ≡ true
  unfolding topics
  topics-asked kind n dir base sid d h =
      let names = copied.listdir (dir /+ codes "sessions") in
      let r =
        each_topic-asked copied kind n (dir /+ codes "sessions") base 1
          (copied.sorted (stems names)) sid (sorts (stems names) sid (stems-md names sid h)) in
      simp (d, r)

  each_folder-asked :
      (kind : Text) (n : ℕ) (dir base : Text) (names : List Text) (name sid : Text)
      → text_in name names ≡ true
      → copied.isdir ((dir /+ name) /+ codes "sessions") ≡ true
      → text_in (sid ++ codes ".md") (copied.listdir ((dir /+ name) /+ codes "sessions")) ≡ true
      → asked
          (raw_of copied (base ++ copied.quote name) sid)
          (each_folder copied kind n dir base names)
        ≡ true
  unfolding each_folder text_in
  each_folder-asked kind n dir base [] name sid m d h = absurd (ground arith)
  each_folder-asked kind n dir base (x ∷ names) name sid m d h =
      let path = raw_of copied (base ++ copied.quote name) sid in
      let first = topics copied kind n (dir /+ x) (base ++ copied.quote x) in
      let rest = each_folder copied kind (suc n) dir base names in
      elim (Bool-cases (text_eq name x)) [
        | inl e ↦
            let f =
              subst
                (λ y. asked path (topics copied kind n (dir /+ y) (base ++ copied.quote y)) ≡ true)
                (text_eq_sound name x e)
                (topics-asked kind n (dir /+ name) (base ++ copied.quote name) sid d h) in
            asked_left path first rest f
        | inr e ↦
            asked_right path first rest
              (each_folder-asked kind (suc n) dir base names name sid (ground arith) d h)
      ]

  keep-in :
      (test : Text → Bool) (ds : List Text) (d : Text)
      → test d ≡ true
      → text_in d ds ≡ true
      → text_in d (keep test ds) ≡ true
  unfolding keep text_in
  keep-in test [] d h k = absurd (ground arith)
  keep-in test (x ∷ ds) d h k = elim (Bool-cases (text_eq d x)) [
    | inl e ↦ let t : test x ≡ true = ap test (sym (text_eq_sound d x e)) ∙ h in simp (t, e)
    | inr e ↦
        let r = keep-in test ds d h (ground arith) in
        elim (Bool-cases (test x)) [ inl t ↦ simp (t, e, r) | inr t ↦ simp (t, r) ]
  ]

  channel_pages-asked :
      (channels name sid : Text)
      → copied.isdir channels ≡ true
      → text_in name (copied.listdir channels) ≡ true
      → copied.isdir (channels /+ name) ≡ true
      → copied.isdir ((channels /+ name) /+ codes "sessions") ≡ true
      → text_in (sid ++ codes ".md") (copied.listdir ((channels /+ name) /+ codes "sessions"))
        ≡ true
      → asked
          (raw_of copied (codes "/channel/" ++ copied.quote name) sid)
          (channel_pages copied channels)
        ≡ true
  unfolding channel_pages
  channel_pages-asked channels name sid d m e f h =
      let test = λ (x : Text). copied.isdir (channels /+ x) in
      let kept = keep test (copied.listdir channels) in
      let found =
        each_folder-asked (codes "channel") 1 channels (codes "/channel/") (copied.sorted kept) name
          sid (sorts kept name (keep-in test (copied.listdir channels) name e m)) f h in
      simp (d, found)

  -- With a sort that keeps what it sorts, a topic of a channel is asked for, raw, under the quoted names of
  -- the channel and the topic.
  pub pages-asked :
      (copy uid name sid : Text)
      → copied.isdir (chat_of copy) ≡ true
      → copied.isdir (channels_of copy) ≡ true
      → text_in name (copied.listdir (channels_of copy)) ≡ true
      → copied.isdir (channels_of copy /+ name) ≡ true
      → copied.isdir ((channels_of copy /+ name) /+ codes "sessions") ≡ true
      → text_in
          (sid ++ codes ".md")
          (copied.listdir ((channels_of copy /+ name) /+ codes "sessions"))
        ≡ true
      → asked (raw_of copied (codes "/channel/" ++ copied.quote name) sid) (pages copied copy uid)
        ≡ true
  unfolding pages
  pages-asked copy uid name sid c d m e f h =
      let path = raw_of copied (codes "/channel/" ++ copied.quote name) sid in
      let dms = dm_pages copied (chat_of copy) uid in
      let docs = user_docs copied (chat_of copy /+ codes "users" /+ uid /+ codes "docs") in
      let found : asked path (channel_pages copied (channels_of copy)) ≡ true =
        channel_pages-asked (channels_of copy) name sid d m e f h in
      let inner =
        asked_right path dms (channel_pages copied (channels_of copy) ++ docs)
          (asked_left path (channel_pages copied (channels_of copy)) docs found) in
      let all =
        asked_right path fixed (dms ++ (channel_pages copied (channels_of copy) ++ docs)) inner in
      simp (c, all)
