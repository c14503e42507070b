-- ===== src/Tests/Authorizations.antt =====
-- Authorization and the lookup of buckets, for a requester of another tenant.
use s3rp.Common.{◌≡◌, ◌↔◌, refl, false, ◌&&◌, none, some, Text, text_eq, codes, if◌then◌else◌}
use s3rp.Policy.Evaluators.{always_allows}
use s3rp.Policy.User
use s3rp.Gateway.Access.{
  not_found, found, failed, Buckets, Answer, authorize, PerObjectAuthorizer, per_object_authorizer,
  no_denials, no_grants, denies, allows_everything, bucket, resolve_bucket,
}
use s3rp.Gateway.Access.Baseline.{
  is_permitted, user_allows, baseline, authorize-baseline, Reachable, nowhere, told,
  resolve_bucket_iff, resolve_bucket-Hidden,
}
use s3rp.Gateway.Access.Keys.{Agrees, per_object_authorizer-authorize, allows_everything-denies}
use s3rp.Tests.Data.{sound, logs-HasValidPolicy, std, get_object, key, logs, alice}

authorize-baseline_example :
    (ans : Answer) × (authorize std alice logs get_object key ≡ some ans)
    × (is_permitted ans ≡ (
        user_allows std alice logs get_object key
        && baseline std alice logs get_object key (text_eq logs.tenant alice.tenant) logs.policy))
authorize-baseline_example = authorize-baseline std alice logs get_object key sound

per_object_authorizer-authorize_example :
    (a : PerObjectAuthorizer) × (per_object_authorizer std alice logs get_object ≡ some a)
    × ((resource : Text) → Agrees std alice logs get_object a resource)
per_object_authorizer-authorize_example =
    per_object_authorizer-authorize std alice logs get_object logs-HasValidPolicy

abbrev open_to_all : PerObjectAuthorizer
open_to_all = record {
  deny_all = false;
  eval = no_denials;
  require_allow = false;
  allow = no_grants;
  principal = codes "umbrella/bob";
  action = get_object;
  policy = none;
  user_decision = User.everything_allowed;
}

allows_everything-denies_example : denies open_to_all key ≡ false
unfolding allows_everything always_allows
allows_everything-denies_example = allows_everything-denies open_to_all key refl

-- A store with the one bucket, of another tenant.
abbrev one_bucket : Buckets
one_bucket = record {
  get_bucket = λ tenant name. failed not_found;
  get_bucket_by_name = λ name. if text_eq name (codes "logs") then found logs else failed not_found;
}

resolve_bucket_iff_example :
    (resolve_bucket one_bucket alice (codes "logs") ≡ bucket logs)
    ↔ Reachable one_bucket alice (codes "logs") logs
resolve_bucket_iff_example = resolve_bucket_iff one_bucket alice (codes "logs") logs

resolve_bucket-Hidden_example :
    told (resolve_bucket one_bucket alice (codes "none")) ≡ some (403, "AccessDenied")
unfolding text_eq
resolve_bucket-Hidden_example =
    resolve_bucket-Hidden one_bucket alice (codes "none") refl (nowhere refl)
