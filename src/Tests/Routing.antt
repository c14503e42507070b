-- ===== src/Tests/Routing.antt =====
-- The dispatch of a request for an object, and of the copy of one.
use s3rp.Common.{
  ◌≡◌, inr, refl, true, if◌then◌else◌, none, some, [], ◌∷◌, text_eq, codes, cut, trim_prefix, split,
  join, runes,
}
use s3rp.Policy.User
use s3rp.Policy.Decide
use s3rp.Policy.Statement
use s3rp.Policy.Statement.{
  match_principal, match_any_principal, match_condition, match_any_runes, lower_pattern_runes,
  lower_runes, names,
}
use s3rp.Policy.Glob
use s3rp.Store.{Bucket, qualified}
use s3rp.Gateway.Access.{Buckets, found, failed, not_found, authorize, principal}
use s3rp.Gateway.Outcome.{returns}
use s3rp.Gateway.Headers.{SignedHeader, check_ssec, check_sse, check_acl_header, signed}
use s3rp.Gateway.Routes.{Route, method, check, query_get}
use s3rp.Gateway.Routes.Tables.{head_object_routes}
use s3rp.Gateway.Routes.Guarded.{is_sound, routes_of-is_sound}
use s3rp.Gateway.Copy.{Url, OpCtx, CopySource, resolve_copy_source, versioned}
use s3rp.Gateway.Copy.Own.{IsReadable, resolve_copy_source-IsReadable}
use s3rp.Gateway.Dispatch.{Dispatched, dispatch}
use s3rp.Gateway.Dispatch.Authorized.{selected, RouteChecked, dispatch-permitted}
use s3rp.Tests.Data.{std, logs, alice, get_object}

-- A library that finds nothing to unescape, and a query that is always empty.
abbrev pub url : Url
url = record { path_unescape = λ t. some t; parse_query = λ t. some []; escaped_path = λ t. t }

abbrev headers : SignedHeader
headers = record {
  values = λ name. if text_eq name (codes "x-amz-copy-source") then codes "logs/2" ∷ [] else [];
  is_signed = λ name. true;
}

-- A store in which every tenant has the one bucket.
abbrev store : Buckets
store = record {
  get_bucket = λ tenant name. found own_logs;
  get_bucket_by_name = λ name. failed not_found;
}
  where
    own_logs : Bucket
    own_logs = record logs { tenant = codes "acme" }

abbrev request : OpCtx
request = record {
  verb = codes "PUT";
  cfg = logs;
  vr = alice;
  hdr = headers;
  query = [];
  key = codes "1";
}

abbrev copies : Route
copies = record {
  selects = none;
  params = some [];
  acl_hdr = true;
  attrs = true;
  name = codes "PutObject";
  copy = codes "CopyObject";
  handle = method (codes "putObjectOrCopy");
  action = codes "s3:PutObject";
  version_action = [];
  hdr_actions = [];
  copy_action = get_object;
  copy_version_action = codes "s3:GetObjectVersion";
}

routes_of-is_sound_example : is_sound head_object_routes ≡ true
unfolding text_eq
routes_of-is_sound_example = routes_of-is_sound (codes "HEAD") head_object_routes (inr refl)

abbrev source : CopySource
source = record { source = codes "b/2"; action = get_object }

resolved : resolve_copy_source std url store request copies ≡ returns source
unfolding resolve_copy_source cut trim_prefix signed text_eq split join authorize User.decide
    Decide.decide Statement.compile match_principal match_any_principal principal qualified
    match_condition match_any_runes lower_pattern_runes Glob.match_runes runes lower_runes names
    versioned query_get Statement.pattern_runes
resolved = refl

resolve_copy_source-IsReadable_example : IsReadable std url store request copies source
resolve_copy_source-IsReadable_example =
    resolve_copy_source-IsReadable std url store request copies source resolved

abbrev dispatched : Dispatched
dispatched = record {
  op = record {
    verb = codes "PUT";
    operation = codes "CopyObject";
    actions = codes "s3:PutObject" ∷ get_object ∷ [];
    tenant = codes "acme";
    user = codes "alice";
    bucket = codes "logs";
    bucket_owner = codes "umbrella";
    key = codes "1";
  };
  copied = some source;
  handle = method (codes "putObjectOrCopy");
}

ran : dispatch std url store request (copies ∷ []) ≡ returns dispatched
unfolding dispatch check_ssec check_sse check check_acl_header resolve_copy_source cut trim_prefix
    signed text_eq split join authorize User.decide Decide.decide Statement.compile match_principal
    match_any_principal principal qualified match_condition match_any_runes lower_pattern_runes
    Glob.match_runes runes lower_runes names versioned query_get Statement.pattern_runes
ran = refl

dispatch-permitted_example :
    (check_ssec headers ≡ returns tt)
    × (check_sse headers ≡ returns tt)
    × ((rt : Route) × (selected (copies ∷ []) [] ≡ some rt)
        × RouteChecked std url store request rt dispatched)
dispatch-permitted_example = dispatch-permitted std url store request (copies ∷ []) dispatched ran
