-- ===== src/Gateway/Delete.antt =====
-- s3gw/proxy.go: which keys of a DeleteObjects request reach the backend, and s3gw/denyreason.go:
-- the summary of the refusals.
pub mod Sorting
pub mod Permitted
use s3rp.Common.{
  ℕ, suc, Bool, true, false, not, ◌&&◌, ◌||◌, Option, none, some, List, [], ◌∷◌, ◌++◌,
  if◌then◌else◌, is_empty, any, ◌==◌, Text, codes,
}
use s3rp.Policy.Document.{Platform, none_effect, Decision}
use s3rp.Store.{Bucket}
use s3rp.Gateway.Access.{
  VerifiedRequest, Layer, user_policy, bucket_policy, cross_tenant, visibility, copy_source,
  DenyReason, parse_error, S3Error, PerObjectAuthorizer, no_denials, no_grants,
  per_object_authorizer, denies, deny_reason, allows_everything,
}
use s3rp.Gateway.Outcome.{Outcome, returns, fails, panics, ◌>>=◌, new_error}

pub record Denial : Type 0 where
  pub reason : DenyReason
  pub keys : ℕ

abbrev pub layer_eq : Layer → Layer → Bool
layer_eq user_policy user_policy = true
layer_eq bucket_policy bucket_policy = true
layer_eq cross_tenant cross_tenant = true
layer_eq visibility visibility = true
layer_eq copy_source copy_source = true
layer_eq _ _ = false

abbrev pub statement_eq : Option ℕ → Option ℕ → Bool
statement_eq none none = true
statement_eq (some i) (some j) = i == j
statement_eq _ _ = false

-- Whether two reasons share an entry of the summary.
abbrev pub same_entry : DenyReason → DenyReason → Bool
same_entry a b = layer_eq a.layer b.layer && statement_eq a.statement b.statement

-- `Op.addDenial`, on the slice `Denials`.
unfoldable pub add_denial : DenyReason → List Denial → List Denial
add_denial r [] = record { reason = r; keys = 1 } ∷ []
add_denial r (d ∷ ds) =
    let rest = add_denial r ds in
    if same_entry d.reason r then record d { keys = suc d.keys } ∷ ds else d ∷ rest

-- An object of the request, as decoded.
pub record DeleteEntry : Type 0 where
  pub key : Text
  pub version_id : Text
  pub etag : Text
  pub last_modified_time : Text
  pub size : Option ℕ

-- What the backend is asked to delete: `types.ObjectIdentifier`.
pub record ObjectIdentifier : Type 0 where
  pub key : Text
  pub version_id : Text
  pub etag : Text
  pub last_modified_time : Option ℕ
  pub size : Option ℕ

-- The three authorizers of `deleteObjects`, and its two flags.
pub record Authorizers : Type 0 where
  pub del : PerObjectAuthorizer
  pub ver : PerObjectAuthorizer
  pub bypass_auth : PerObjectAuthorizer
  pub bypass : Bool
  pub check_per_object : Bool

-- What the loop collects.
pub record Sorted : Type 0 where
  pub objects : List ObjectIdentifier
  pub errors : List DeleteEntry

abbrev pub names_version : DeleteEntry → Bool
names_version o = not (is_empty o.version_id)

abbrev pub delete_object : Text
delete_object = codes "s3:DeleteObject"

abbrev pub delete_object_version : Text
delete_object_version = codes "s3:DeleteObjectVersion"

abbrev pub bypass_governance : Text
bypass_governance = codes "s3:BypassGovernanceRetention"

-- The zero value, of an authorizer that is not built.
abbrev pub zero_authorizer : PerObjectAuthorizer
zero_authorizer = record {
  deny_all = false;
  eval = no_denials;
  require_allow = false;
  allow = no_grants;
  principal = [];
  action = [];
  policy = none;
  user_decision = record { effect = none_effect; statement = some 0 };
}

abbrev pub object_resource : Bucket → DeleteEntry → Text
object_resource b o = b.name ++ (b'/' ∷ o.key)

-- The authorizer that refuses an entry, if one does.
unfoldable pub refusal : Bucket → Authorizers → DeleteEntry → Option PerObjectAuthorizer
refusal b a o =
    let auth = if names_version o then a.ver else a.del in
    if not a.check_per_object
    then none
    else if denies auth (object_resource b o)
    then some auth
    else if a.bypass && denies a.bypass_auth (object_resource b o)
    then some a.bypass_auth
    else none

-- The end of the loop's body; `parse_time` is `http.ParseTime`, and `none` its error.
unfoldable pub object_of : (Text → Option ℕ) → DeleteEntry → Option ObjectIdentifier
object_of parse_time o =
    let made : Option ℕ → ObjectIdentifier = λ t. record {
      key = o.key;
      version_id = o.version_id;
      etag = o.etag;
      last_modified_time = t;
      size = o.size;
    } in
    if is_empty o.last_modified_time
    then some (made none)
    else elim (parse_time o.last_modified_time) [ none ↦ none | some t ↦ some (made (some t)) ]

abbrev pub malformed_xml : S3Error
malformed_xml = new_error 400 "MalformedXML" parse_error

abbrev pub with_error : DeleteEntry → Outcome Sorted → Outcome Sorted
with_error o rest = rest >>= λ s. returns (record s { errors = o ∷ s.errors })

abbrev pub with_object : ObjectIdentifier → Outcome Sorted → Outcome Sorted
with_object i rest = rest >>= λ s. returns (record s { objects = i ∷ s.objects })

-- The loop of `deleteObjects`, on the denials of the operation so far.
unfoldable pub sort_entries :
    (Text → Option ℕ)
    → Bucket
    → Authorizers
    → List Denial
    → List DeleteEntry
    → List Denial × Outcome Sorted
unfolding refusal object_of
sort_entries parse_time b a ds [] = (ds, returns (record { objects = []; errors = [] }))
sort_entries parse_time b a ds (o ∷ os) = elim (refusal b a o) [
  | some auth ↦
      let (ds', rest) =
        sort_entries parse_time b a (add_denial (deny_reason auth (object_resource b o)) ds) os in
      (ds', with_error o rest)
  | none ↦ elim (object_of parse_time o) [
    | none ↦ (ds, fails malformed_xml)
    | some i ↦ let (ds', rest) = sort_entries parse_time b a ds os in (ds', with_object i rest)
  ]
]

module _ (std : Platform) (vr : VerifiedRequest) (b : Bucket) where
  -- An authorizer is built only if it is needed.
  unfoldable pub authorizer_if : Bool → Text → Option PerObjectAuthorizer
  authorizer_if needed action =
      if needed then per_object_authorizer std vr b action else some zero_authorizer

  -- What `deleteObjects` prepares; `none` is the panic of `matchPrincipal`.
  unfoldable pub prepare : Bool → List DeleteEntry → Option Authorizers
  unfolding authorizer_if
  prepare bypass os =
      let has_plain = any (λ o. not (names_version o)) os in
      let has_version = any names_version os in
      elim (authorizer_if has_plain delete_object) [
        | none ↦ none
        | some d ↦ elim (authorizer_if has_version delete_object_version) [
          | none ↦ none
          | some v ↦ elim (authorizer_if bypass bypass_governance) [
            | none ↦ none
            | some y ↦ some (record {
              del = d;
              ver = v;
              bypass_auth = y;
              bypass = bypass;
              check_per_object =
                  (has_plain && not (allows_everything d))
                  || (has_version && not (allows_everything v))
                  || (bypass && not (allows_everything y));
            })
          ]
        ]
      ]
