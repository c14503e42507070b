-- ===== src/Gateway/Access/Reasons.antt =====
-- s3gw/denyreason.go and s3err/error.go: requesters, the errors of authorization and their reasons.
use Prim.Native.String.{String}
use s3rp.Common.{ℕ, not, Option, none, some, [], if◌then◌else◌, get_elem?, Text}
use s3rp.Policy.Document.{Addr, RequestContext, Statement, Policy, Decision}
use s3rp.Policy.Evaluators.Refine.{is_deny_effect}
use s3rp.Policy.User.{UserPolicy}
use s3rp.Store.{qualified}

-- The identity part of `verifiedRequest`.
pub record VerifiedRequest : Type 0 where
  pub tenant : Text
  pub user : Text
  pub user_policy : Option UserPolicy
  pub source_ip : Addr

-- `verifiedRequest.principal` and `requestContext`.
unfoldable pub principal : VerifiedRequest → Text
principal vr = qualified vr.tenant vr.user

abbrev pub request_context : VerifiedRequest → RequestContext
request_context vr = record { source_ip = vr.source_ip }

-- The `Layer*` constants.
pub data Layer : Type 0 where
  user_policy bucket_policy cross_tenant visibility copy_source : Layer

-- `DenyReason`; `none` as the statement is -1.
pub record DenyReason : Type 0 where
  pub layer : Layer
  pub statement : Option ℕ
  pub sid : Text
  pub principal : Text
  pub action : Text
  pub resource : Text

-- The errors of a store: `store.ErrNotFound`, and any other.
pub data StoreError : Type 0 where
  not_found unavailable : StoreError

-- The causes behind the errors: none, a denial, a denial that holds a store's error
-- (`copySourceReason`), a store's error, and the error of a parser of the Go library.
pub data Cause : Type 0 where
  no_cause : Cause
  denied : DenyReason → Cause
  denied_for : DenyReason → StoreError → Cause
  store_error : StoreError → Cause
  parse_error : Cause

-- `s3err.Error`: the status, the code, and the cause that the client never sees.
pub record S3Error : Type 0 where
  pub status : ℕ
  pub code : String
  pub cause : Cause

-- `s3err.AccessDenied().WithCause(…)` and `s3err.Internal`.
abbrev pub access_denied : Cause → S3Error
access_denied c = record { status = 403; code = "AccessDenied"; cause = c }

abbrev pub internal_error : Cause → S3Error
internal_error c = record { status = 500; code = "InternalError"; cause = c }

-- `userPolicyReason`.
abbrev pub user_policy_reason : Text → Text → Decision → DenyReason
user_policy_reason principal action d = record {
  layer = user_policy;
  statement = d.statement;
  sid = [];
  principal = principal;
  action = action;
  resource = [];
}

abbrev sid_of : Option Statement → Text
sid_of none = []
sid_of (some st) = st.sid

-- The Sid of the statement at an index that may be out of range.
abbrev pub sid_at : Option Policy → Option ℕ → Text
sid_at none i = []
sid_at (some p) none = []
sid_at (some p) (some i) = sid_of (get_elem? p.statement i)

-- `denyStatementReason`.
abbrev pub deny_statement_reason : Option Policy → Text → Text → Text → Option ℕ → DenyReason
deny_statement_reason p principal action resource i = record {
  layer = bucket_policy;
  statement = i;
  sid = sid_at p i;
  principal = principal;
  action = action;
  resource = resource;
}

abbrev pub cross_tenant_reason : Text → Text → Text → DenyReason
cross_tenant_reason principal action resource = record {
  layer = cross_tenant;
  statement = none;
  sid = [];
  principal = principal;
  action = action;
  resource = resource;
}

-- `bucketPolicyReason`.
abbrev pub bucket_policy_reason : Option Policy → Text → Text → Text → Decision → DenyReason
bucket_policy_reason p principal action resource d =
    if not (is_deny_effect d.effect)
    then cross_tenant_reason principal action resource
    else deny_statement_reason p principal action resource d.statement

-- `visibilityReason`.
abbrev pub visibility_reason : Text → Text → DenyReason
visibility_reason principal bucket = record {
  layer = visibility;
  statement = none;
  sid = [];
  principal = principal;
  action = [];
  resource = bucket;
}

-- A nil `*s3err.Error`, or one.
pub data Answer : Type 0 where
  permitted : Answer
  refused : S3Error → Answer

abbrev pub refused_for : DenyReason → Answer
refused_for r = refused (access_denied (denied r))
