-- ===== src/Replay/Requests.antt =====
-- `requests` of droplet/replay.py: the loop over the log's lines.
pub mod Log
pub mod Uncaught
use gopher_metal.Prelude.Text.{Text, text_in}
use gopher_metal.Prelude.{
  ℕ, zero, suc, ◌+◌, Bool, true, false, ◌&&◌, List, [], ◌∷◌, ◌++◌, Option, none, some,
  if◌then◌else◌,
}
use gopher_metal.Replay.Json.{Json, Call, value, raised, ◌>>=◌}
use gopher_metal.Replay.Keep.{Reason, not_caddy, asked_already, Kept, target, left_out, keep}

-- `out` and `dropped`, a reason for each line left out; `seen` holds the targets of `out`.
pub record Requests : Type 0 where
  pub out : List (ℕ × Text)
  pub dropped : List Reason
  pub seen : List Text

abbrev pub no_requests : Requests
no_requests = record { out = []; dropped = []; seen = [] }

abbrev pub drop : Reason → Requests → Requests
drop why r = record r { dropped = r.dropped ++ why ∷ [] }

-- the end of a round, from what `keep` said
pub take_line : Bool → ℕ → Kept → Requests → Requests
take_line unique n (left_out why) r = drop why r
take_line unique n (target uri) r =
    if unique && text_in uri r.seen
    then drop asked_already r
    else record r { out = r.out ++ (n, uri) ∷ []; seen = uri ∷ r.seen }

-- `str.lower` and `json.loads` are the standard library's; the latter gives nothing where it raises
-- ValueError.
module _ (lower : Text → Text) (loads : Text → Option Json) where
  unfoldable pub kept_of : Option Text → Text → Call Kept
  kept_of host line = elim (loads line) [
    | none ↦ value (left_out not_caddy)
    | some entry ↦ keep lower host entry
  ]

  pub requests_from : Option Text → Bool → ℕ → List Text → Requests → Call Requests
  unfolding kept_of take_line
  requests_from host unique n [] r = value r
  requests_from host unique n (line ∷ lines) r = do
    kept ← kept_of host line
    requests_from host unique (n + 1) lines (take_line unique n kept r)

  -- `requests`
  unfoldable pub requests : List Text → Option Text → Bool → Call Requests
  unfolding requests_from
  requests lines host unique = requests_from host unique 1 lines no_requests
