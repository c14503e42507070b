-- ===== src/Gateway/Copy/Own.antt =====
-- s3gw/copy.go: a copy reads only from the requester's own tenant, as far as the policies permit.
use s3rp.Common.{
  ◌≡◌, subst, refl, ap, Bool, true, false, not, ◌||◌, Option, none, some, [], ◌∷◌, ◌++◌,
  if◌then◌else◌, is_empty, Text, codes, cut, trim_prefix, arith,
}
use s3rp.Policy.Document.{Platform}
use s3rp.Store.{Bucket}
use s3rp.Gateway.Access.{
  VerifiedRequest, not_found, unavailable, no_cause, parse_error, permitted, authorize, S3Error,
  Found, found, failed, Buckets,
}
use s3rp.Gateway.Outcome.{
  returns, ◌>>◌, checked, fail_if, not_implemented, checked-permitted, then-returns, bind-returns,
}
use s3rp.Gateway.Headers.{signed, hdr_copy_source}
use s3rp.Gateway.Routes.{Query, query_get, Route}
use s3rp.Gateway.Copy.{
  Url, OpCtx, unescape_key, versioned, parsed, invalid_copy_source, source_bucket, same_backend,
  drop_first, CopySource, resolve_copy_source, backend_source, Located, locate, read_source,
  find_source,
}

-- A resolved source: the header names, behind its leading slash, an escaped bucket and key and, behind
-- a question mark, a version; the bucket is one of the requester's tenant, on the backend of the
-- target; the policies let the requester read just the key that is sent to the backend.
pub record IsReadable (std : Platform) (url : Url) (s : Buckets) (c : OpCtx) (rt : Route)
    (src : CopySource) : Type 0 where
  pub path : Text
  pub version_id : Text
  pub asked : Bool
  pub halves :
      cut b'?' (trim_prefix (codes "/") (signed c.hdr hdr_copy_source)) ≡ (path, version_id, asked)
  pub raw_bucket : Text
  pub raw_key : Text
  pub parts : cut b'/' path ≡ (raw_bucket, raw_key, true)
  pub name : Text
  pub name_is : url.path_unescape raw_bucket ≡ some name
  pub key : Text
  pub key_is : unescape_key url raw_key ≡ some key
  pub query : Query
  pub query_is : url.parse_query version_id ≡ some query
  pub action_is :
      src.action
      ≡ versioned rt.copy_action rt.copy_version_action
          (not (is_empty (query_get (codes "versionId") query)))
  pub from : Bucket
  pub own : s.get_bucket c.vr.tenant name ≡ found from
  pub readable : authorize std c.vr from src.action (from.name ++ (b'/' ∷ key)) ≡ some permitted
  pub same : same_backend from.backend c.cfg.backend ≡ true
  pub source_is :
      src.source
      ≡ drop_first (url.escaped_path (b'/' ∷ (from.backend.bucket ++ (b'/' ∷ key))))
        ++ (if is_empty version_id then [] else b'?' ∷ version_id)

fail_if-false : (bad : Bool) (e : S3Error) → fail_if bad e ≡ returns tt → bad ≡ false
fail_if-false bad e h = ground arith

source_bucket-found :
    (s : Buckets) (vr : VerifiedRequest) (action name key : Text) (b : Bucket)
    → source_bucket s vr action name key ≡ returns b
    → s.get_bucket vr.tenant name ≡ found b
unfolding source_bucket
source_bucket-found s vr action name key b e = go (s.get_bucket vr.tenant name) refl
  where
    go :
        (f : Found Bucket) → s.get_bucket vr.tenant name ≡ f → s.get_bucket vr.tenant name ≡ found b
    go (found c) l = ground arith
    go (failed not_found) l = absurd (ground arith)
    go (failed unavailable) l = absurd (ground arith)

parsed-returns {ℓ} :
    {A : Type ℓ} (o : Option A) (e : S3Error) (a : A) → parsed o e ≡ returns a → o ≡ some a
parsed-returns none e a h = absurd (ground arith)
parsed-returns (some b) e a h = ground arith

-- What `locate` has read out of the header.
record Named (url : Url) (c : OpCtx) (at : Located) : Type 0 where
  path : Text
  asked : Bool
  halves :
      cut b'?' (trim_prefix (codes "/") (signed c.hdr hdr_copy_source))
      ≡ (path, at.version_id, asked)
  raw_bucket : Text
  raw_key : Text
  parts : cut b'/' path ≡ (raw_bucket, raw_key, true)
  name_is : url.path_unescape raw_bucket ≡ some at.bucket
  key_is : unescape_key url raw_key ≡ some at.key
  query : Query
  query_is : url.parse_query at.version_id ≡ some query
  version_is : at.version ≡ not (is_empty (query_get (codes "versionId") query))

locate-Named : (url : Url) (c : OpCtx) (at : Located) → locate url c ≡ returns at → Named url c at
unfolding locate
locate-Named url c at e =
    let halves = cut b'?' (trim_prefix (codes "/") (signed c.hdr hdr_copy_source)) in
    let parts = cut b'/' halves.0 in
    let (split_it, e1) =
      then-returns (fail_if (not parts.2 || is_empty parts.1) (invalid_copy_source no_cause)) _ at
        e in
    let (name, unescaped, e2) =
      bind-returns (parsed (url.path_unescape parts.0) (invalid_copy_source parse_error)) _ at e1 in
    let (key, unescaped_key, e3) =
      bind-returns (parsed (unescape_key url parts.1) (invalid_copy_source parse_error)) _ at e2 in
    let (query, asks, made) =
      bind-returns (parsed (url.parse_query halves.1) (invalid_copy_source parse_error)) _ at e3 in
    let here : record {
      bucket = name;
      key = key;
      version_id = halves.1;
      version = not (is_empty (query_get (codes "versionId") query));
    }
        ≡ at =
      ground arith in
    let both : parts.2 ≡ true = ground (arith, fail_if-false _ _ split_it) in
    subst (Named url c) here (record {
      path = halves.0;
      asked = halves.2;
      halves = refl;
      raw_bucket = parts.0;
      raw_key = parts.1;
      parts = ap (λ b. (parts.0, parts.1, b)) both;
      name_is = parsed-returns (url.path_unescape parts.0) _ name unescaped;
      key_is = parsed-returns (unescape_key url parts.1) _ key unescaped_key;
      query = query;
      query_is = parsed-returns (url.parse_query halves.1) _ query asks;
      version_is = refl;
    })

module _ (std : Platform) (url : Url) (s : Buckets) (c : OpCtx) (rt : Route)
    (src : CopySource) where
  read_source-IsReadable :
      (at : Located) (b : Bucket)
      → Named url c at
      → s.get_bucket c.vr.tenant at.bucket ≡ found b
      → read_source std url c (versioned rt.copy_action rt.copy_version_action at.version) at b
        ≡ returns src
      → IsReadable std url s c rt src
  unfolding read_source backend_source
  read_source-IsReadable at b n own e =
      let action = versioned rt.copy_action rt.copy_version_action at.version in
      let other = not (same_backend b.backend c.cfg.backend) in
      let made : CopySource = record {
        source = backend_source url b at.key at.version_id;
        action = action;
      } in
      let (ok, more) =
        then-returns (checked (authorize std c.vr b action (b.name ++ (b'/' ∷ at.key))))
          (fail_if other not_implemented >> returns made) src e in
      let (near, last) = then-returns (fail_if other not_implemented) (returns made) src more in
      let r : IsReadable std url s c rt made = record {
        path = n.path;
        version_id = at.version_id;
        asked = n.asked;
        halves = n.halves;
        raw_bucket = n.raw_bucket;
        raw_key = n.raw_key;
        parts = n.parts;
        name = at.bucket;
        name_is = n.name_is;
        key = at.key;
        key_is = n.key_is;
        query = n.query;
        query_is = n.query_is;
        action_is = ap (versioned rt.copy_action rt.copy_version_action) n.version_is;
        from = b;
        own = own;
        readable = checked-permitted _ ok;
        same = ground (arith, fail_if-false other not_implemented near);
        source_is = refl;
      } in
      subst (IsReadable std url s c rt) (ground arith) r

  -- If `resolveCopySource` resolves the copy source of a request, the signed header names its bucket,
  -- key and version; the bucket is one that the store holds for the requester's own tenant and lies
  -- on the backend of the target; the policies permit the requester the copy action of the route, in
  -- its version form if a version is named, on that key; and what is sent to the backend names the
  -- backend's bucket, that same key and that version.
  pub resolve_copy_source-IsReadable :
      resolve_copy_source std url s c rt ≡ returns src → IsReadable std url s c rt src
  unfolding resolve_copy_source find_source
  resolve_copy_source-IsReadable e =
      let action : Located → Text =
        λ at. versioned rt.copy_action rt.copy_version_action at.version in
      let (at, located, more) =
        bind-returns (locate url c) (λ at. find_source std url s c (action at) at) src e in
      let (b, looked_up, last) =
        bind-returns (source_bucket s c.vr (action at) at.bucket at.key)
          (read_source std url c (action at) at) src more in
      read_source-IsReadable at b (locate-Named url c at located)
        (source_bucket-found s c.vr (action at) at.bucket at.key b looked_up) last
