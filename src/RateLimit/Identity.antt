-- ===== src/RateLimit/Identity.antt =====
-- `_resolve_client_identifier` (ppbase/middleware/rate_limit.py)
use ppbase.Prelude.{
  Str, Unicode, codes, ℕ, List, [], ◌∷◌, Bool, false, Option, none, some, is_empty, strip, split_on,
  if◌then◌else◌,
}
use ppbase.Value.{
  Value, Items, Fields, bool, list, dict, nil, cons, Builtins, get_default, get_null, truthy, str,
}

-- What the function reads of a request: `request.headers.get` and `request.client.host`.
pub record Request : Type 0 where
  pub header : Str → Option Str
  pub client_host : Option Str

-- `[part.strip() for part in parts if part.strip()]`
unfoldable pub stripped : (ℕ → Bool) → List Str → List Str
stripped space [] = []
stripped space (part ∷ parts) =
    let rest = stripped space parts in
    let trimmed = strip space part in if is_empty trimmed then rest else trimmed ∷ rest

abbrev last_of : Str → List Str → Str
last_of x [] = x
last_of x (y ∷ ys) = last_of y ys

abbrev first_or_last : Bool → List Str → Option Str
first_or_last leftmost [] = none
first_or_last leftmost (x ∷ xs) = some (if leftmost then x else last_of x xs)

module _ {F : Type 0} (U : Unicode) (B : Builtins F) (request : Request) where
  -- `str(header_name or "").strip().lower()`
  abbrev header_name : Value F → Str
  header_name value = B.lower (strip U.is_space (if truthy B value then str B value else []))

  -- One header of the loop; `none` is `continue`.
  unfoldable pub from_header : Bool → Str → Option Str
  from_header leftmost header = if is_empty header then none else elim (request.header header) [
    | none ↦ none
    | some value ↦ first_or_last leftmost (stripped U.is_space (split_on b',' value))
  ]

  unfoldable pub from_headers : Bool → Items F → Option Str
  from_headers leftmost nil = none
  from_headers leftmost (cons value values) =
      let later = from_headers leftmost values in
      elim (from_header leftmost (header_name value)) [ some ip ↦ some ip | none ↦ later ]

  abbrev listed : Bool → Value F → Option Str
  listed leftmost (list names) = from_headers leftmost names
  listed leftmost _ = none

  abbrev proxied : Value F → Option Str
  proxied (dict proxy) =
      listed (truthy B (get_default (codes "useLeftmostIP") (bool false) proxy))
        (get_null (codes "headers") proxy)
  proxied _ = none

  abbrev host : Option Str → Str
  host none = codes "unknown"
  host (some h) = if is_empty h then codes "unknown" else h

  unfoldable pub resolve_client_identifier : Fields F → Str
  resolve_client_identifier settings = elim (proxied (get_null (codes "trustedProxy") settings)) [
    | some ip ↦ ip
    | none ↦ host request.client_host
  ]
