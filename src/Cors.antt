-- ===== src/Cors.antt =====
-- cors/cors.go: the rules of a bucket, preflight requests, and the headers of actual responses.
pub mod Rules
pub mod Headers
use Prim.Native.String.{String}
use text.Mathlib.Text.{◌==◌ as name_eq}
use s3rp.Common.{
  ℕ, ◌<◌, Bool, true, false, not, ◌&&◌, ◌||◌, Option, none, some, List, [], ◌∷◌, ltb, if◌then◌else◌,
  is_empty, any, Text, codes, text_eq, trim_space, split, join, itoa, ℤ, pos, negsuc, map, Runes,
  runes,
}
use s3rp.Policy.Glob
use s3rp.Policy.Glob.{match_runes}
use s3rp.Policy.Document.{Platform}
use s3rp.Policy.Statement.{lower_runes}

pub record Rule : Type 0 where
  pub allowed_origins : List Text
  pub allowed_methods : List Text
  pub allowed_headers : List Text
  pub expose_headers : List Text
  pub max_age_seconds : ℤ

-- The errors of `Rule.Validate`.
pub data RuleError : Type 0 where
  no_origin no_method : RuleError
  unsupported_method : Text → RuleError
  negative_max_age : RuleError

abbrev pub contains : List Text → Text → Bool
contains ts t = any (λ u. text_eq u t) ts

abbrev pub served_methods : List Text
served_methods = codes "GET" ∷ codes "PUT" ∷ codes "POST" ∷ codes "DELETE" ∷ codes "HEAD" ∷ []

validate_methods : List Text → Option RuleError
validate_methods [] = none
validate_methods (m ∷ ms) =
    if contains served_methods m then validate_methods ms else some (unsupported_method m)

abbrev pub is_negative : ℤ → Bool
is_negative (pos n) = false
is_negative (negsuc n) = true

-- `Rule.Validate`; `none` is the nil error.
unfoldable pub validate : Rule → Option RuleError
unfolding validate_methods
validate r =
    if is_empty r.allowed_origins
    then some no_origin
    else if is_empty r.allowed_methods
    then some no_method
    else elim (validate_methods r.allowed_methods) [
      | some e ↦ some e
      | none ↦ if is_negative r.max_age_seconds then some negative_max_age else none
    ]

-- The inner loop of `Match`, over the origins of one rule.
match_origins : Rule → Text → Text → List Text → Option Rule
match_origins rule origin method [] = none
match_origins rule origin method (o ∷ origins) =
    if Glob.match o origin
    then (if contains rule.allowed_methods method
        then some rule
        else match_origins rule origin method origins)
    else match_origins rule origin method origins

-- `Match`.
unfoldable pub match : List Rule → Text → Text → Option Rule
unfolding match_origins
match [] origin method = none
match (rule ∷ rules) origin method = elim (match_origins rule origin method rule.allowed_origins) [
  | some r ↦ some r
  | none ↦ match rules origin method
]

-- `http.Header` of the response: a name and its value. `set` is `Header.Set`.
abbrev pub Header : Type 0
Header = List (String × Text)

unfoldable pub set : String → Text → Header → Header
set k v [] = (k, v) ∷ []
set k v ((j, w) ∷ h) = if name_eq j k then (k, v) ∷ h else (j, w) ∷ set k v h

unfoldable pub get : String → Header → Option Text
get k [] = none
get k ((j, w) ∷ h) = if name_eq j k then some w else get k h

-- The headers of the request that the package reads.
pub record Request : Type 0 where
  pub method : Text
  pub origin : Text
  pub request_method : Text
  pub request_headers : Text

-- `setAllowOrigin`.
unfoldable pub set_allow_origin : Header → Rule → Text → Header
set_allow_origin h rule origin =
    if contains rule.allowed_origins (codes "*")
    then set "Access-Control-Allow-Origin" (codes "*") h
    else set "Access-Control-Allow-Credentials" (codes "true")
        (set "Access-Control-Allow-Origin" origin h)

abbrev set_max_age : ℤ → Header → Header
set_max_age (pos n) h = if ltb 0 n then set "Access-Control-Max-Age" (itoa n) h else h
set_max_age (negsuc n) h = h

module _ (std : Platform) where
  -- `headerAllowed`.
  unfoldable pub header_allowed : List Text → Text → Bool
  header_allowed allowed header =
      any (λ a. match_runes (lower_runes std a) (lower_runes std header)) allowed

  -- The loop over the requested headers: true if none of them is refused.
  headers_allowed : Rule → List Text → Bool
  unfolding header_allowed
  headers_allowed rule [] = true
  headers_allowed rule (part ∷ parts) =
      if is_empty (trim_space part) || header_allowed rule.allowed_headers (trim_space part)
      then headers_allowed rule parts
      else false

  -- What `AllowPreflight` writes once the request is allowed.
  preflight_headers : Rule → Request → Header → Header
  unfolding set_allow_origin
  preflight_headers rule r h =
      let h₁ =
        if is_empty r.request_headers
        then h
        else set "Access-Control-Allow-Headers" r.request_headers h in
      let h₂ =
        set "Access-Control-Allow-Methods" (join (codes ", ") rule.allowed_methods)
          (set_allow_origin h₁ rule r.origin) in
      set "Vary" (codes "Origin, Access-Control-Request-Method, Access-Control-Request-Headers")
        (set_max_age rule.max_age_seconds h₂)

  -- `AllowPreflight`: the answer, the response's headers, and the status if one was written.
  unfoldable pub allow_preflight : List Rule → Request → Header → Bool × Header × Option ℕ
  unfolding match headers_allowed preflight_headers
  allow_preflight rules r h = elim (match rules r.origin r.request_method) [
    | none ↦ (false, h, none)
    | some rule ↦
        if headers_allowed rule (split b',' r.request_headers)
        then (true, preflight_headers rule r h, some 200)
        else (false, h, none)
  ]

expose : Rule → Header → Header
expose rule h =
    if is_empty rule.expose_headers
    then h
    else set "Access-Control-Expose-Headers" (join (codes ", ") rule.expose_headers) h

-- `SetHeaders`.
unfoldable pub set_headers : List Rule → Request → Header → Header
unfolding match set_allow_origin expose
set_headers rules r h =
    if is_empty r.origin || is_empty rules then h else elim (match rules r.origin r.method) [
      | none ↦ h
      | some rule ↦ set "Vary" (codes "Origin") (expose rule (set_allow_origin h rule r.origin))
    ]
