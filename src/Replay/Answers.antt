-- ===== src/Replay/Answers.antt =====
-- `ask`, `label` and `replay` of droplet/replay.py, and the exit status of `main`: two hosts' answers
-- compared, and a difference named without its target.
pub mod Alike
pub mod Anonymous
pub mod Returns
use gopher_metal.Prelude.Text.{Text, text_eq, text_in, before}
use gopher_metal.Prelude.{
  ℕ, zero, suc, ◌+◌, Bool, true, false, not, ◌&&◌, ◌||◌, leb, List, [], ◌∷◌, ◌++◌, Option, none,
  some, ◌==◌, if◌then◌else◌,
}
use gopher_metal.Fat.Dirent.{rstrip}
use gopher_metal.Replay.Json.{
  Json, Call, value, raised, index_error, value_error, unicode_encode_error, ◌>>=◌,
}
use gopher_metal.Replay.Keep.{Reason}
use gopher_metal.Replay.Requests.{Requests, requests}

-- what `subprocess.run` gives of a command: its return code and its output
pub record Ran : Type 0 where
  pub code : ℕ
  pub stdout : Text

-- (status, sha256 of the body)
pub record Answer : Type 0 where
  pub status : Text
  pub digest : Text

-- one of the characters passes
unfoldable pub any_of : (ℕ → Bool) → Text → Bool
any_of test [] = false
any_of test (c ∷ cs) = test c || any_of test cs

-- a surrogate, which stands alone in a text: UTF-8 has no bytes for it
abbrev pub is_surrogate : ℕ → Bool
is_surrogate c = leb 0xD800 c && leb c 0xDFFF

-- a surrogate for which `surrogateescape` has no byte
abbrev pub is_unescaped : ℕ → Bool
is_unescaped c = is_surrogate c && not (leb 0xDC80 c && leb c 0xDCFF)

-- what `subprocess.run` does with an argument: it is encoded with `surrogateescape`, and has no NUL
pub check_argument : Text → Call (Unit {0})
unfolding any_of
check_argument t =
    if any_of is_unescaped t
    then raised unicode_encode_error
    else if any_of (λ c. c == 0) t
    then raised value_error
    else value tt

check_name : Option Text → Call (Unit {0})
unfolding check_argument
check_name none = value tt
check_name (some name) = check_argument name

-- text.rpartition(mark)[0] and [2]
rpartition : ℕ → Text → Option (Text × Text)
rpartition mark [] = none
rpartition mark (c ∷ cs) = elim (rpartition mark cs) [
  | some (body, last) ↦ some (c ∷ body, last)
  | none ↦ if c == mark then some ([], cs) else none
]

or_whole : Text → Option (Text × Text) → Text × Text
or_whole text none = ([], text)
or_whole text (some parts) = parts

-- the text after the first `mark`
unfoldable pub after : ℕ → Text → Option Text
after mark [] = none
after mark (c ∷ cs) = let rest = after mark cs in if c == mark then some cs else rest

-- text[:n]
take : ℕ → Text → Text
take zero t = []
take (suc n) [] = []
take (suc n) (c ∷ cs) = c ∷ take n cs

is_some : Option Text → Bool
is_some none = false
is_some (some t) = true

-- path.split("/")[1]
second_part : Option Text → Call Text
second_part none = raised index_error
second_part (some rest) = value (before b'/' rest)

-- `first` of `label`
pub first_segment : Text → Call Text
unfolding second_part is_some
first_segment t =
    let split = second_part (after b'/' (before b'?' t)) in
    if is_some (after b'/' t) then split else value []

abbrev dots : Text
dots = b'.' ∷ b'.' ∷ b'.' ∷ []

abbrev pub not_a_route : Text
not_a_route =
    b'/' ∷ b'(' ∷ b'n' ∷ b'o' ∷ b't' ∷ b' ' ∷ b'a' ∷ b' ' ∷ b'r' ∷ b'o' ∷ b'u' ∷ b't' ∷ b'e' ∷ b')'
    ∷ []

-- a route's shape: whether more follows it in the path, and whether a query does
pub route_shape : Text → Bool → Bool → Text
route_shape first more query =
    (b'/' ∷ first) ++ ((if more then b'/' ∷ dots else []) ++ (if query then b'?' ∷ dots else []))

-- What a difference is named by: `line {line}, {shape} (#{digest})`.
pub record Label : Type 0 where
  pub line : ℕ
  pub shape : Text
  pub digest : Text

-- A difference: its label, and whether the statuses differ or the bodies.
pub data Difference : Type 0 where
  status bodies : Label → Difference

-- the exit status of `main` after `replay`
unfoldable pub exit_status : List Difference → ℕ
exit_status [] = 0
exit_status (d ∷ ds) = 1

-- `sha` gives the hexadecimal SHA-256, and `routes` is ROUTES.
module _ (sha : Text → Text) (routes : List Text) where
  pub shape_of : Text → Text → Text
  unfolding route_shape
  shape_of t first =
      let path = before b'?' t in
      if text_in first routes
      then route_shape first (not (text_eq (rstrip b'/' path) (b'/' ∷ first)))
          (is_some (after b'?' t))
      else not_a_route

  -- hashlib.sha256(t.encode()).hexdigest()
  pub hash_text : Text → Call Text
  unfolding any_of
  hash_text t = if any_of is_surrogate t then raised unicode_encode_error else value (sha t)

  -- `label`
  unfoldable pub label : ℕ → Text → Call Label
  unfolding first_segment shape_of take hash_text
  label n t = do
    first ← first_segment t
    digest ← hash_text t
    value (record { line = n; shape = shape_of t first; digest = take 8 digest })

  -- what `ask` makes of curl's output
  pub answer_of : (Text → Text) → Ran → Answer
  unfolding rpartition or_whole
  answer_of decode r =
      let parts = or_whole r.stdout (rpartition 10 r.stdout) in
      if not (r.code == 0)
      then record {
        status = b'n' ∷ b'o' ∷ b' ' ∷ b'a' ∷ b'n' ∷ b's' ∷ b'w' ∷ b'e' ∷ b'r' ∷ [];
        digest = [];
      }
      else record { status = decode parts.1; digest = sha parts.0 }

  -- `ask`; `run` runs curl on a URL, in a network namespace or not, and `decode` reads its status line
  unfoldable pub ask :
      (Text → Option Text → Call Ran) → (Text → Text) → Text → Text → Option Text → Call Answer
  unfolding check_argument check_name answer_of
  ask run decode base t netns =
      let url = rstrip b'/' base ++ t in
      do _ ← check_name netns; _ ← check_argument url; r ← run url netns; value (answer_of decode r)

  pub compare_answers : ℕ → Text → Answer → Answer → Call (List Difference)
  unfolding label
  compare_answers n t a b =
      let named = label n t in
      if not (text_eq a.status b.status)
      then (do l ← named; value (status l ∷ []))
      else if not (text_eq a.digest b.digest)
      then (do l ← named; value (bodies l ∷ []))
      else value []

  -- the loop of `replay`; `of_a` and `of_b` ask the two hosts
  pub replay_kept :
      (Text → Call Answer) → (Text → Call Answer) → List (ℕ × Text) → Call (List Difference)
  unfolding compare_answers
  replay_kept of_a of_b [] = value []
  replay_kept of_a of_b ((n, t) ∷ kept) = do
    x ← of_a t
    y ← of_b t
    here ← compare_answers n t x y
    more ← replay_kept of_a of_b kept
    value (here ++ more)

  -- `replay`: A is asked here, and B in the network namespace, where one is named
  unfoldable pub replay :
      (Text → Text)
      → (Text → Option Json)
      → (Text → Option Text → Call Ran)
      → (Text → Text)
      → List Text
      → Text
      → Text
      → Option Text
      → Option Text
      → Bool
      → Call (Requests × List Difference)
  unfolding replay_kept
  replay lower loads run decode lines a b host netns unique = do
    r ← requests lower loads lines host unique
    differ ← replay_kept (λ t. ask run decode a t none) (λ t. ask run decode b t netns) r.out
    value (r, differ)
