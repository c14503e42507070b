-- ===== src/Gateway/Copy.antt =====
-- s3gw/copy.go: `resolveCopySource`, and the parts of s3gw/handler.go that it calls.
pub mod Own
use s3rp.Common.{
  Bool, true, false, not, ◌&&◌, ◌||◌, Option, none, some, List, [], ◌∷◌, ◌++◌, if◌then◌else◌,
  is_empty, any, Text, codes, text_eq, cut, trim_prefix, split, join,
}
use s3rp.Policy.Document.{Platform}
use s3rp.Store.{Backend, Bucket}
use s3rp.Gateway.Access.{
  VerifiedRequest, principal, DenyReason, copy_source, StoreError, not_found, unavailable, Cause,
  no_cause, denied_for, store_error, parse_error, S3Error, access_denied, internal_error, Answer,
  authorize, Found, found, failed, Buckets,
}
use s3rp.Gateway.Outcome.{
  Outcome, returns, fails, panics, ◌>>=◌, ◌>>◌, new_error, not_implemented, fail_if, checked,
}
use s3rp.Gateway.Headers.{SignedHeader, signed, hdr_copy_source}
use s3rp.Gateway.Routes.{Query, query_get, Route}

-- What the gateway takes from the package `net/url`: `PathUnescape`, `ParseQuery`, and
-- `EscapedPath` of a URL with only a path.
pub record Url : Type 0 where
  pub path_unescape : Text → Option Text
  pub parse_query : Text → Option Query
  pub escaped_path : Text → Text

-- The fields of `opCtx` that are set when `dispatch` begins.
pub record OpCtx : Type 0 where
  pub verb : Text
  pub cfg : Bucket
  pub vr : VerifiedRequest
  pub hdr : SignedHeader
  pub query : Query
  pub key : Text

-- The loop of `unescapeKey`.
unescape_segments : Url → List Text → Option (List Text)
unescape_segments url [] = some []
unescape_segments url (s ∷ ss) = elim (url.path_unescape s) [
  | none ↦ none
  | some u ↦ elim (unescape_segments url ss) [ none ↦ none | some us ↦ some (u ∷ us) ]
]

-- `unescapeKey`.
unfoldable pub unescape_key : Url → Text → Option Text
unfolding unescape_segments
unescape_key url raw = elim (unescape_segments url (split b'/' raw)) [
  | none ↦ none
  | some segments ↦ some (join (codes "/") segments)
]

-- `splitPath`: the bucket and the key of a path; `none` is the error.
unfoldable pub split_path : Url → Text → Option (Text × Text)
split_path url escaped =
    let (raw_bucket, raw_key, sliced) = cut b'/' (trim_prefix (codes "/") escaped) in
    elim (url.path_unescape raw_bucket) [
      | none ↦ none
      | some bucket ↦ elim (unescape_key url raw_key) [
        | none ↦ none
        | some key ↦ some (bucket, key)
      ]
    ]

-- `versioned`.
unfoldable pub versioned : Text → Text → Bool → Text
versioned action version_action version =
    if version && not (is_empty version_action) then version_action else action

-- A parse that may fail, with the error that the source gives it.
abbrev pub parsed {ℓ} : {A : Type ℓ} → Option A → S3Error → Outcome A
parsed none e = fails e
parsed (some a) e = returns a

abbrev pub invalid_copy_source : Cause → S3Error
invalid_copy_source = new_error 400 "InvalidArgument"

-- `copySourceReason`.
abbrev pub copy_source_reason : Text → Text → Text → DenyReason
copy_source_reason principal action resource = record {
  layer = copy_source;
  statement = none;
  sid = [];
  principal = principal;
  action = action;
  resource = resource;
}

-- The source's bucket, looked up in the requester's own tenant.
unfoldable pub source_bucket : Buckets → VerifiedRequest → Text → Text → Text → Outcome Bucket
source_bucket s vr action name key = elim (s.get_bucket vr.tenant name) [
  | found b ↦ returns b
  | failed not_found ↦ fails (
      access_denied
        (denied_for (copy_source_reason (principal vr) action (name ++ (b'/' ∷ key))) not_found))
  | failed unavailable ↦ fails (internal_error (store_error unavailable))
]

abbrev pub same_backend : Backend → Backend → Bool
same_backend a b =
    text_eq a.endpoint b.endpoint
    && text_eq a.region b.region
    && text_eq a.access_key_id b.access_key_id

abbrev pub drop_first : Text → Text
drop_first [] = []
drop_first (_ ∷ s) = s

-- The copy source of the backend.
unfoldable pub backend_source : Url → Bucket → Text → Text → Text
backend_source url src key version_id =
    drop_first (url.escaped_path (b'/' ∷ (src.backend.bucket ++ (b'/' ∷ key))))
    ++ (if is_empty version_id then [] else b'?' ∷ version_id)

-- What `resolveCopySource` returns: the name of the source at the backend, and the action that its
-- read was authorized for.
pub record CopySource : Type 0 where
  pub source : Text
  pub action : Text

-- What `resolveCopySource` reads out of the header: the names, and whether they name a version.
pub record Located : Type 0 where
  pub bucket : Text
  pub key : Text
  pub version_id : Text
  pub version : Bool

-- `resolveCopySource` up to the choice of the action.
unfoldable pub locate : Url → OpCtx → Outcome Located
unfolding unescape_key
locate url c = do
  let (raw_path, version_id, asked) =
      cut b'?' (trim_prefix (codes "/") (signed c.hdr hdr_copy_source))
  let (raw_bucket, raw_key, ok) = cut b'/' raw_path
  fail_if (not ok || is_empty raw_key) (invalid_copy_source no_cause)
  bucket ← parsed (url.path_unescape raw_bucket) (invalid_copy_source parse_error)
  key ← parsed (unescape_key url raw_key) (invalid_copy_source parse_error)
  query ← parsed (url.parse_query version_id) (invalid_copy_source parse_error)
  returns (record {
    bucket = bucket;
    key = key;
    version_id = version_id;
    version = not (is_empty (query_get (codes "versionId") query));
  })

-- The end of `resolveCopySource`, for a bucket that the store holds.
unfoldable pub read_source : Platform → Url → OpCtx → Text → Located → Bucket → Outcome CopySource
unfolding backend_source
read_source std url c action at src = do
  checked (authorize std c.vr src action (src.name ++ (b'/' ∷ at.key)))
  fail_if (not (same_backend src.backend c.cfg.backend)) not_implemented
  returns (record { source = backend_source url src at.key at.version_id; action = action })

-- `resolveCopySource` behind the choice of the action.
unfoldable pub find_source : Platform → Url → Buckets → OpCtx → Text → Located → Outcome CopySource
unfolding source_bucket read_source
find_source std url s c action at =
    source_bucket s c.vr action at.bucket at.key >>= read_source std url c action at

-- `Gateway.resolveCopySource`.
unfoldable pub resolve_copy_source : Platform → Url → Buckets → OpCtx → Route → Outcome CopySource
unfolding locate find_source
resolve_copy_source std url s c rt = locate url c >>= λ at.
    find_source std url s c (versioned rt.copy_action rt.copy_version_action at.version) at
