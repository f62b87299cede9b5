-- ===== src/Replay/Json.antt =====
-- What `json.loads` gives, as droplet/replay.py looks at it, and what a call of it gives or raises.
use gopher_metal.Prelude.Text.{Text, text_eq, contains_text, text_eq_sound}
use gopher_metal.Prelude.{◌≡◌, refl, ap, Bool, true, false, ◌||◌, [], ◌∷◌, arith, if◌then◌else◌}

-- A JSON value; of a number whether it is 0. A dictionary is the list of its items.
mutual
  pub data Json : Type 0 where
    null : Json
    boolean : Bool → Json
    number : Bool → Json
    string : Text → Json
    array : Items → Json
    object : Fields → Json

  pub data Items : Type 0 where
    nil : Items
    cons : Json → Items → Items

  pub data Fields : Type 0 where
    end : Fields
    field : Text → Json → Fields → Fields

-- The exceptions that the code does not catch; `os_error` is of a command that does not start.
pub data Exception : Type 0 where
  attribute_error type_error index_error value_error unicode_encode_error os_error : Exception

-- A call's value, or what it raises.
pub data Call {ℓ} (A : Type ℓ) : Type ℓ where
  value : A → Call A
  raised : Exception → Call A

infixl 10 ◌>>=◌
abbrev pub ◌>>=◌ {ℓ κ} : {A : Type ℓ} {B : Type κ} → Call A → (A → Call B) → Call B
raised e >>= f = raised e
value a >>= f = f a

-- d.get(name), which is None for a missing name as for a null
unfoldable pub get : Text → Fields → Json
unfolding text_eq
get name end = null
get name (field k v rest) = if text_eq k name then v else get name rest

-- bool(j)
unfoldable pub truthy : Json → Bool
truthy null = false
truthy (boolean b) = b
truthy (number is_zero) = if is_zero then false else true
truthy (string []) = false
truthy (string (c ∷ cs)) = true
truthy (array nil) = false
truthy (array (cons j js)) = true
truthy (object end) = false
truthy (object (field k v rest)) = true

-- j == text
unfoldable pub is_text : Text → Json → Bool
is_text t (string u) = text_eq u t
is_text t _ = false

has_item : Text → Items → Bool
unfolding is_text
has_item t nil = false
has_item t (cons j js) = is_text t j || has_item t js

has_key : Text → Fields → Bool
unfolding text_eq
has_key t end = false
has_key t (field k v rest) = text_eq k t || has_key t rest

-- needle in j
pub has_text : Text → Json → Call Bool
unfolding has_item has_key contains_text
has_text needle (string t) = value (contains_text needle t)
has_text needle (array js) = value (has_item needle js)
has_text needle (object fs) = value (has_key needle fs)
has_text needle _ = raised type_error

-- any(needle in j for j in js)
unfoldable pub any_text : Text → Items → Call Bool
unfolding has_text
any_text needle nil = value false
any_text needle (cons j js) = do
  here ← has_text needle j
  let rest = any_text needle js
  if here then value true else rest

-- A sequence that has a value has had one in between.
pub >>=-eq-value {ℓ κ} :
    {A : Type ℓ} {B : Type κ} (m : Call A) (f : A → Call B) {b : B}
    → (m >>= f) ≡ value b
    → (a : A) × (m ≡ value a) × (f a ≡ value b)
>>=-eq-value (raised e) f h = absurd (ground arith)
>>=-eq-value (value a) f h = (a, refl, h)

pub is_text_sound : (t : Text) (j : Json) → is_text t j ≡ true → j ≡ string t
unfolding is_text
is_text_sound t null h = absurd (ground arith)
is_text_sound t (boolean b) h = absurd (ground arith)
is_text_sound t (number b) h = absurd (ground arith)
is_text_sound t (string u) h = ap string (text_eq_sound u t h)
is_text_sound t (array js) h = absurd (ground arith)
is_text_sound t (object fs) h = absurd (ground arith)
