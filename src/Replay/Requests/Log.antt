-- ===== src/Replay/Requests/Log.antt =====
-- What the requests of a log are: each from its line, each line counted once, and with `--unique` no
-- target twice.
use gopher_metal.Prelude.Text.{IsUnique, text_eq_comm, Text, text_in}
use gopher_metal.Prelude.{
  ℕ, zero, suc, ◌+◌, ◌≡◌, refl, sym, ap, ◌∙◌, subst, Bool, true, false, ◌||◌, ◌&&◌, List, [], ◌∷◌,
  ◌++◌, Option, none, some, Bool-cases, inl, inr, length, length-append, All, All-append, arith,
}
use gopher_metal.Replay.Json.{Json, value, >>=-eq-value}
use gopher_metal.Replay.Keep.{Reason, asked_already, Kept, target, left_out}
use gopher_metal.Replay.Requests.{
  Requests, drop, no_requests, take_line, kept_of, requests_from, requests,
}

-- The line that stands behind `n` others.
abbrev pub get_elem? : List Text → ℕ → Option Text
get_elem? [] n = none
get_elem? (line ∷ lines) zero = some line
get_elem? (line ∷ lines) (suc n) = get_elem? lines n

-- The targets, without their line numbers.
abbrev pub targets : List (ℕ × Text) → List Text
targets [] = []
targets ((n, t) ∷ out) = t ∷ targets out

targets-append : (a b : List (ℕ × Text)) → targets (a ++ b) ≡ targets a ++ targets b
targets-append [] b = refl
targets-append ((n, t) ∷ a) b = ap (λ ts. t ∷ ts) (targets-append a b)

text_in-append : (t : Text) (a b : List Text) → text_in t (a ++ b) ≡ (text_in t a || text_in t b)
unfolding text_in
text_in-append t [] b = refl
text_in-append t (u ∷ us) b = ground (arith, text_in-append t us b)

IsUnique-append :
    (ts : List Text) (t : Text) → IsUnique ts → text_in t ts ≡ false → IsUnique (ts ++ t ∷ [])
unfolding text_in
IsUnique-append [] t h new = (refl, tt)
IsUnique-append (u ∷ us) t h new = (
  ground (arith, text_in-append u us (t ∷ []), text_eq_comm u t),
  IsUnique-append us t h.1 (ground arith),
)

module _ (lower : Text → Text) (loads : Text → Option Json) where
  -- The item's number is its line's, counted from 1, and the line is kept with its target.
  abbrev pub IsFrom : Option Text → List Text → ℕ × Text → Type 0
  IsFrom host log (n, uri) =
      (line : Text) × (k : ℕ) × (n ≡ k + 1)
      × (get_elem? log k ≡ some line)
      × (kept_of lower loads host line ≡ value (target uri))

  -- What holds after `done` lines of `log`.
  record Counted (host : Option Text) (unique : Bool) (log : List Text) (done : ℕ) (r : Requests)
      : Type 0 where
    counted : length r.out + length r.dropped ≡ done
    from : All (IsFrom host log) r.out
    mirror : (t : Text) → text_in t r.seen ≡ text_in t (targets r.out)
    distinct : unique ≡ true → IsUnique (targets r.out)

  Counted-drop :
      (host : Option Text) (unique : Bool) (log : List Text) (done : ℕ) (why : Reason)
      (r : Requests)
      → Counted host unique log done r
      → Counted host unique log (done + 1) (drop why r)
  Counted-drop host unique log done why r h = record {
    counted = omega (arith, h.counted, length-append r.dropped (why ∷ []));
    from = h.from;
    mirror = h.mirror;
    distinct = h.distinct;
  }

  abbrev add : ℕ → Text → Requests → Requests
  add n uri r = record r { out = r.out ++ (n, uri) ∷ []; seen = uri ∷ r.seen }

  Counted-add :
      (host : Option Text) (unique : Bool) (log : List Text) (done : ℕ) (uri : Text) (r : Requests)
      → Counted host unique log done r
      → IsFrom host log (done + 1, uri)
      → (unique && text_in uri r.seen) ≡ false
      → Counted host unique log (done + 1) (add (done + 1) uri r)
  unfolding text_in
  Counted-add host unique log done uri r h item new =
      let ts = targets-append r.out ((done + 1, uri) ∷ []) in
      record {
        counted = omega (arith, h.counted, length-append r.out ((done + 1, uri) ∷ []));
        from = All-append (IsFrom host log) r.out ((done + 1, uri) ∷ []) h.from (item, tt);
        mirror = λ t. ground (arith, h.mirror t, ts, text_in-append t (targets r.out) (uri ∷ []));
        distinct = λ u.
            let unseen : text_in uri (targets r.out) ≡ false = ground (arith, h.mirror uri) in
            subst IsUnique (sym ts) (IsUnique-append (targets r.out) uri (h.distinct u) unseen);
      }

  take_line-target :
      (unique : Bool) (n : ℕ) (uri : Text) (r : Requests)
      → (unique && text_in uri r.seen) ≡ false
      → take_line unique n (target uri) r ≡ add n uri r
  unfolding take_line
  take_line-target unique n uri r new = simp new

  take_line-again :
      (unique : Bool) (n : ℕ) (uri : Text) (r : Requests)
      → (unique && text_in uri r.seen) ≡ true
      → take_line unique n (target uri) r ≡ drop asked_already r
  unfolding take_line
  take_line-again unique n uri r again = simp again

  Counted-take_line :
      (host : Option Text) (unique : Bool) (log : List Text) (done : ℕ) (line : Text) (kept : Kept)
      (r : Requests)
      → get_elem? log done ≡ some line
      → kept_of lower loads host line ≡ value kept
      → Counted host unique log done r
      → Counted host unique log (done + 1) (take_line unique (done + 1) kept r)
  unfolding take_line
  Counted-take_line host unique log done line (left_out why) r at k h =
      Counted-drop host unique log done why r h
  Counted-take_line host unique log done line (target uri) r at k h =
      elim (Bool-cases (unique && text_in uri r.seen)) [
        | inl again ↦
            subst (Counted host unique log (done + 1))
              (sym (take_line-again unique (done + 1) uri r again))
              (Counted-drop host unique log done asked_already r h)
        | inr new ↦
            subst (Counted host unique log (done + 1))
              (sym (take_line-target unique (done + 1) uri r new))
              (Counted-add host unique log done uri r h (line, done, refl, at, k) new)
      ]

  -- `lines` is what is left of `log` behind `done` lines.
  abbrev IsRest : List Text → ℕ → List Text → Type 0
  IsRest log done lines = (j : ℕ) → get_elem? log (done + j) ≡ get_elem? lines j

  requests_from-Counted :
      (host : Option Text) (unique : Bool) (log lines : List Text) (done : ℕ) (r r' : Requests)
      → IsRest log done lines
      → Counted host unique log done r
      → requests_from lower loads host unique (done + 1) lines r ≡ value r'
      → Counted host unique log (done + length lines) r'
  unfolding requests_from
  requests_from-Counted host unique log [] done r r' left h e =
      let same : r ≡ r' = ground arith in
      subst (λ (n : ℕ). Counted host unique log n r') (omega arith)
        (subst (Counted host unique log done) same h)
  requests_from-Counted host unique log (line ∷ lines) done r r' left h e =
      let (kept, k, rest) = >>=-eq-value (kept_of lower loads host line) _ {b = r'} e in
      let one =
        Counted-take_line host unique log done line kept r
          (ap (get_elem? log) (omega arith) ∙ left 0) k h in
      let more =
        requests_from-Counted host unique log lines (done + 1) (take_line unique (done + 1) kept r)
          r' (λ j. ap (get_elem? log) (omega arith) ∙ left (suc j)) one rest in
      subst (λ (n : ℕ). Counted host unique log n r') (omega arith) more

  requests-Counted :
      (log : List Text) (host : Option Text) (unique : Bool) (r : Requests)
      → requests lower loads log host unique ≡ value r
      → Counted host unique log (length log) r
  unfolding requests text_in
  requests-Counted log host unique r e =
      subst (λ (n : ℕ). Counted host unique log n r) (omega arith)
        (requests_from-Counted host unique log log 0 no_requests r
          (λ j. ap (get_elem? log) (omega arith))
          (record { counted = refl; from = tt; mirror = λ t. refl; distinct = λ u. tt })
          (subst (λ (n : ℕ). requests_from lower loads host unique n log no_requests ≡ value r)
            (omega arith) e))

  -- Each line of the log is one request to ask again, or is left out with one reason.
  pub requests_counted :
      (log : List Text) (host : Option Text) (unique : Bool) (r : Requests)
      → requests lower loads log host unique ≡ value r
      → length r.out + length r.dropped ≡ length log
  requests_counted log host unique r e = (requests-Counted log host unique r e).counted

  -- Each request to ask again has the number of a line of the log, counted from 1, that `keep` gives
  -- its target for.
  pub requests-IsFrom :
      (log : List Text) (host : Option Text) (unique : Bool) (r : Requests)
      → requests lower loads log host unique ≡ value r
      → All (IsFrom host log) r.out
  requests-IsFrom log host unique r e = (requests-Counted log host unique r e).from

  -- With `--unique` no target is asked twice.
  pub requests-IsUnique :
      (log : List Text) (host : Option Text) (r : Requests)
      → requests lower loads log host true ≡ value r
      → IsUnique (targets r.out)
  requests-IsUnique log host r e = (requests-Counted log host true r e).distinct refl
