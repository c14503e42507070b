-- ===== src/Cors/Rules.antt =====
-- The choice of a rule, and the decision on a preflight request.
use s3rp.Common.{
  ◌≡◌, ◌↔◌, ◌⊎◌, inl, inr, refl, Bool, true, false, ◌&&◌, Option, none, some, List, [], ◌∷◌,
  if◌then◌else◌, is_empty, any, All, Option-cases, arith, Text, trim_space, split,
}
use s3rp.Policy.Glob
use s3rp.Policy.Document.{Platform}
use s3rp.Cors.{
  Rule, Header, Request, contains, match_origins, match, header_allowed, headers_allowed,
  allow_preflight,
}

-- The rule lists the method, and one of its origin patterns matches the origin.
abbrev pub allows : Text → Text → Rule → Bool
allows origin method rule =
    any (λ o. Glob.match o origin) rule.allowed_origins && contains rule.allowed_methods method

abbrev pub find {ℓ} : {A : Type ℓ} → (A → Bool) → List A → Option A
find test [] = none
find test (x ∷ xs) = if test x then some x else find test xs

match_origins-any :
    (rule : Rule) (origin method : Text) (os : List Text)
    → match_origins rule origin method os ≡ (
        if any (λ o. Glob.match o origin) os && contains rule.allowed_methods method
        then some rule
        else none)
unfolding match_origins
match_origins-any rule origin method [] = refl
match_origins-any rule origin method (o ∷ os) =
    ground (arith, match_origins-any rule origin method os)

-- `Match` returns the first rule that lists the method and has an origin pattern matching the
-- origin, and nothing if no rule does.
pub cors-match-find :
    (rules : List Rule) (origin method : Text)
    → match rules origin method ≡ find (allows origin method) rules
unfolding match
cors-match-find [] origin method = refl
cors-match-find (rule ∷ rules) origin method = ground (
  arith,
  match_origins-any rule origin method rule.allowed_origins,
  cors-match-find rules origin method,
)

-- A requested header that the rule does not refuse: an empty one, or one that an entry matches.
abbrev pub IsPassed : Platform → Rule → Text → Type 0
IsPassed std rule part =
    (is_empty (trim_space part) ≡ true)
    ⊎ (header_allowed std rule.allowed_headers (trim_space part) ≡ true)

headers_allowed_iff :
    (std : Platform) (rule : Rule) (parts : List Text)
    → (headers_allowed std rule parts ≡ true) ↔ All (IsPassed std rule) parts
unfolding headers_allowed
headers_allowed_iff std rule [] = ground arith
headers_allowed_iff std rule (part ∷ parts) = ground (arith, headers_allowed_iff std rule parts)

-- `AllowPreflight` allows a request exactly if some rule is found for its origin and requested
-- method and that rule passes every requested header.
pub preflight_iff :
    (std : Platform) (rules : List Rule) (r : Request) (h : Header)
    → ((allow_preflight std rules r h).0 ≡ true) ↔ (
        (rule : Rule) × (match rules r.origin r.request_method ≡ some rule)
        × All (IsPassed std rule) (split b',' r.request_headers))
unfolding allow_preflight
preflight_iff std rules r h = elim (Option-cases (match rules r.origin r.request_method)) [
  | inl missed ↦ (ground arith, λ (rule, found, _). cc)
  | inr (rule, found) ↦
      let passed = headers_allowed_iff std rule (split b',' r.request_headers) in
      (
        λ e. (rule, found, passed.0 (ground arith)),
        λ (rule', found', p).
            let same : rule ≡ rule' = ground arith in
            let q = rw (← same) at p in ground (arith, passed.1 q),
      )
]

-- A preflight request that `AllowPreflight` refuses leaves the headers as they were and no status.
pub preflight-refused :
    (std : Platform) (rules : List Rule) (r : Request) (h : Header)
    → (allow_preflight std rules r h).0 ≡ false
    → ((allow_preflight std rules r h).1 ≡ h) × ((allow_preflight std rules r h).2 ≡ none)
unfolding allow_preflight
preflight-refused std rules r h e = (ground arith, ground arith)
