-- ===== src/Cors/Headers.antt =====
-- The headers that a response carries afterwards.
use Prim.Native.String.{String}
use text.Mathlib.Text.{◌==◌ as name_eq}
use text.Mathlib.TextEquality.{eq_iff}
use s3rp.Common.{
  ◌≡◌, refl, Bool, false, some, List, [], ◌∷◌, if◌then◌else◌, is_empty, arith, Text, codes,
  Bool-cases, inl, inr,
}
use s3rp.Cors.{
  Rule, Header, Request, contains, match, set, get, set_allow_origin, expose, set_headers,
}

pub get-set :
    (k j : String) (v : Text) (h : Header)
    → get j (set k v h) ≡ (if name_eq k j then some v else get j h)
unfolding get set
get-set k j v [] = refl
get-set k j v ((i, w) ∷ h) = ground (arith, eq_iff k j, eq_iff i k, eq_iff i j, get-set k j v h)

abbrev pub every_origin : Rule → Bool
every_origin rule = contains rule.allowed_origins (codes "*")

-- The decision of a rule about one origin, as headers: "*" without credentials where the rule lists
-- "*", else the origin with credentials.
pub record Shares (rule : Rule) (origin : Text) (before after : Header) : Type 0 where
  pub allow_origin :
      get "Access-Control-Allow-Origin" after
      ≡ some (if every_origin rule then codes "*" else origin)
  pub credentials : get "Access-Control-Allow-Credentials" after ≡ (
      if every_origin rule
      then get "Access-Control-Allow-Credentials" before
      else some (codes "true"))

set_allow_origin-Shares :
    (h : Header) (rule : Rule) (origin : Text)
    → Shares rule origin h (set_allow_origin h rule origin)
unfolding set_allow_origin
set_allow_origin-Shares h rule origin = elim (Bool-cases (every_origin rule)) [
  | inl e ↦ record {
    allow_origin = rw e (simp get-set refl);
    credentials = rw e (simp get-set refl);
  }
  | inr e ↦ record {
    allow_origin = rw e (simp get-set refl);
    credentials = rw e (simp get-set refl);
  }
]

-- Setting another header keeps the decision.
Shares-set :
    (k : String) (v : Text) (rule : Rule) (origin : Text) (before after : Header)
    → name_eq k "Access-Control-Allow-Origin" ≡ false
    → name_eq k "Access-Control-Allow-Credentials" ≡ false
    → Shares rule origin before after
    → Shares rule origin before (set k v after)
Shares-set k v rule origin before after p q s = record {
  allow_origin = ground (arith, get-set k "Access-Control-Allow-Origin" v after, s.allow_origin);
  credentials = ground (arith, get-set k "Access-Control-Allow-Credentials" v after, s.credentials);
}

expose-Shares :
    (rule : Rule) (origin : Text) (before after : Header)
    → Shares rule origin before after
    → Shares rule origin before (expose rule after)
unfolding expose
expose-Shares rule origin before after s = elim (Bool-cases (is_empty rule.expose_headers)) [
  | inl e ↦ rw e s
  | inr e ↦ rw e (Shares-set _ _ rule origin before after refl refl s)
]

-- A response to a request with an origin, for which a rule is found: the allowed origin is "*"
-- if the rule lists "*", and then no credentials are allowed that were not before;
-- otherwise it is the request's origin, with credentials. `Vary` is "Origin".
pub set_headers-Shares :
    (rules : List Rule) (r : Request) (h : Header) (rule : Rule)
    → is_empty r.origin ≡ false
    → match rules r.origin r.method ≡ some rule
    → Shares rule r.origin h (set_headers rules r h)
      × (get "Vary" (set_headers rules r h) ≡ some (codes "Origin"))
unfolding set_headers
set_headers-Shares [] r h rule o found = absurd (unfold match in ground arith)
set_headers-Shares (first ∷ rules) r h rule o found =
    let same = set_allow_origin-Shares h rule r.origin in
    rw o (
      rw (found, set_headers)
        (
          Shares-set _ _ rule r.origin h _ refl refl (expose-Shares rule r.origin h _ same),
          simp get-set refl,
        ))
