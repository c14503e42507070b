-- ===== src/Tests/Requests.antt =====
-- A signed request from its headers to the hooks.
use s3rp.Common.{◌≡◌, refl, none, [], text_eq, split, trim_space, has_prefix, join}
use s3rp.Policy.User
use s3rp.Policy.Document.{zero_addr}
use s3rp.Sigv4.Requests.{
  lookup_secret, bad_session_token, parse_authorization_header, has_unsigned_amz,
}
use s3rp.Sigv4.Canonical.{check_signed_header_list}
use s3rp.Gateway.Access.{authorize, resolve_bucket}
use s3rp.Gateway.Headers.{new_signed_header, check_ssec, check_sse}
use s3rp.Gateway.Outcome.{Outcome, panics, fails, returns}
use s3rp.Gateway.Identity.{secret_lookup}
use s3rp.Gateway.Routes.{check, query_get, bind_routes}
use s3rp.Gateway.Routes.Tables.{get_object_routes}
use s3rp.Gateway.Requests.{Addressing, Handled, list_buckets, handle_verified}
use s3rp.Gateway.Requests.Behind.{RequestPermitted, handle_verified-RequestPermitted}
use s3rp.Tests.Data.{alice}
use s3rp.Tests.Chunks.{crypto}
use s3rp.Tests.Signatures.{cache, kms_secrets, cache-Sound, lib-LowersCase, request, ascii_lower}
use s3rp.Tests.Uploads.{surroundings, keys_are-Faithful}

abbrev addressing : Addressing
addressing = record { vhost_suffix = []; split_host = λ t. none }

abbrev handled_or : Handled → Outcome Handled → Handled
handled_or h panics = h
handled_or h (fails e) = h
handled_or h (returns x) = x

handled : Handled
unfolding handle_verified cache request
handled =
    handled_or (list_buckets alice)
      (handle_verified surroundings addressing zero_addr cache request).0

-- The request, for an object, reaches the hooks.
request_is_handled :
    (handle_verified surroundings addressing zero_addr cache request).0 ≡ returns handled
unfolding handled handle_verified cache request parse_authorization_header split trim_space crypto
    join has_unsigned_amz has_prefix ascii_lower lookup_secret secret_lookup bad_session_token
    check_signed_header_list bind_routes get_object_routes check_ssec new_signed_header check_sse
    text_eq resolve_bucket authorize User.decide check query_get
request_is_handled = refl

handle_verified-RequestPermitted_example :
    RequestPermitted surroundings addressing zero_addr kms_secrets cache request handled
handle_verified-RequestPermitted_example =
    handle_verified-RequestPermitted surroundings addressing zero_addr kms_secrets cache request
      handled keys_are-Faithful lib-LowersCase cache-Sound request_is_handled
