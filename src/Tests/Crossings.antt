-- ===== src/Tests/Crossings.antt =====
-- CORS rules, and the names of principals.
use s3rp.Common.{◌≡◌, ◌↔◌, refl, true, none, some, [], ◌∷◌, All, split, pos, text_eq, codes, runes}
use s3rp.Cors.{Rule, Request, get, match, allow_preflight, set_headers}
use s3rp.Cors.Rules.{find, allows, IsPassed, cors-match-find, preflight_iff, preflight-refused}
use s3rp.Cors.Headers.{Shares, set_headers-Shares}
use s3rp.Policy.Glob
use s3rp.Policy.Glob.{match_runes}
use s3rp.Policy.Statement.{names}
use s3rp.Policy.Validate.{is_principal_part}
use s3rp.Store.{qualified, validate_tenant_name, validate_user_name}
use s3rp.Store.Principals.{qualified-injective, names_iff}
use s3rp.Tests.Data.{std}

abbrev rule : Rule
rule = record {
  allowed_origins = codes "https://*.example" ∷ [];
  allowed_methods = codes "GET" ∷ [];
  allowed_headers = [];
  expose_headers = [];
  max_age_seconds = pos 0;
}

abbrev request : Request
request = record {
  method = codes "GET";
  origin = codes "https://a.example";
  request_method = codes "GET";
  request_headers = [];
}

abbrev upload : Request
upload = record request { request_method = codes "PUT" }

cors-match-find_example :
    match (rule ∷ []) (codes "https://a.example") (codes "GET")
    ≡ find (allows (codes "https://a.example") (codes "GET")) (rule ∷ [])
cors-match-find_example = cors-match-find (rule ∷ []) (codes "https://a.example") (codes "GET")

preflight_iff_example : ((allow_preflight std (rule ∷ []) request []).0 ≡ true) ↔ (
    (r : Rule) × (match (rule ∷ []) request.origin request.request_method ≡ some r)
    × All (IsPassed std r) (split b',' request.request_headers))
preflight_iff_example = preflight_iff std (rule ∷ []) request []

preflight-refused_example :
    ((allow_preflight std (rule ∷ []) upload []).1 ≡ [])
    × ((allow_preflight std (rule ∷ []) upload []).2 ≡ none)
unfolding allow_preflight Glob.match match_runes runes text_eq
preflight-refused_example = preflight-refused std (rule ∷ []) upload [] refl

set_headers-Shares_example :
    Shares rule request.origin [] (set_headers (rule ∷ []) request [])
    × (get "Vary" (set_headers (rule ∷ []) request []) ≡ some (codes "Origin"))
unfolding match Glob.match match_runes runes text_eq
set_headers-Shares_example = set_headers-Shares (rule ∷ []) request [] rule refl refl

acme-valid : validate_tenant_name (codes "acme") ≡ true
unfolding validate_tenant_name is_principal_part
acme-valid = refl

alice-valid : validate_user_name (codes "alice") ≡ true
unfolding validate_user_name is_principal_part
alice-valid = refl

qualified-injective_example : (codes "acme" ≡ codes "acme") × (codes "alice" ≡ codes "alice")
qualified-injective_example =
    qualified-injective (codes "acme") (codes "acme") (codes "alice") (codes "alice") acme-valid
      acme-valid refl

names_iff_example :
    ((names (qualified (codes "acme") (codes "alice")) (qualified (codes "acme") (codes "alice"))
        ≡ true)
      ↔ ((codes "acme" ≡ codes "acme") × (codes "alice" ≡ codes "alice")))
    × ((names (qualified (codes "acme") (codes "*")) (qualified (codes "acme") (codes "alice"))
          ≡ true)
        ↔ (codes "acme" ≡ codes "acme"))
names_iff_example =
    names_iff (codes "acme") (codes "acme") (codes "alice") (codes "alice") acme-valid acme-valid
      alice-valid
