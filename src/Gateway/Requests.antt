-- ===== src/Gateway/Requests.antt =====
-- s3gw/handler.go and s3gw/addressing.go: `handleRequest` behind the branches for preflights and
-- forms.
pub mod Behind
use s3rp.Common.{
  ℕ, Bool, true, false, not, ◌&&◌, ◌||◌, Option, none, some, List, [], ◌∷◌, if◌then◌else◌, is_empty,
  Text, codes, text_eq, trim_prefix, cut_suffix, contains_byte,
}
use s3rp.Policy.Document.{Addr, Platform}
use s3rp.Store.{Bucket}
use s3rp.Sigv4.Http.{Library, HttpRequest, header_get}
use s3rp.Sigv4.Signer.{SignerCache}
use s3rp.Sigv4.Requests.{Checked}
use s3rp.Sigv4.Verify.{Verifier, Verified}
use s3rp.Sigv4.Presigned.{verify, query_get}
use s3rp.Policy.User
use s3rp.Gateway.Routes.{check}
use s3rp.Gateway.Access.{
  user_policy_reason, denied, access_denied, principal, no_cause, parse_error, VerifiedRequest,
  Buckets, resolve_bucket,
}
use s3rp.Gateway.Outcome.{
  Outcome, panics, fails, returns, ◌>>=◌, ◌>>◌, new_error, not_implemented, fail_if,
}
use s3rp.Gateway.Headers.{new_signed_header}
use s3rp.Gateway.KnownHeaders.{all_known_headers}
use s3rp.Gateway.Copy.{Url, OpCtx, split_path, unescape_key}
use s3rp.Gateway.Dispatch.{Dispatched, handle_request}
use s3rp.Gateway.Identity.{KeyStore, secret_lookup, captured, identify, as_outcome}
use s3rp.Gateway.PostObject.{Surroundings, as_resolved, or_panic}

-- The suffix of `SetVirtualHostSuffix`, empty if it is unset, and `net.SplitHostPort`.
pub record Addressing : Type 0 where
  pub vhost_suffix : Text
  pub split_host : Text → Option Text

-- `virtualHostBucket`; `none` is a request in path style.
unfoldable pub virtual_host_bucket : Library → Addressing → Text → Option Text
unfolding cut_suffix contains_byte
virtual_host_bucket lib adr hostport =
    if is_empty adr.vhost_suffix
    then none
    else elim (cut_suffix adr.vhost_suffix (
        lib.to_lower
          (elim (adr.split_host hostport) as (λ _. Text) [ none ↦ hostport | some h ↦ h ]))) [
            | none ↦ none
            | some label ↦ if is_empty label || contains_byte b'.' label then none else some label
          ]

-- `requestTarget`, the bucket and the key; `none` is the error.
unfoldable pub request_target : Library → Url → Addressing → HttpRequest → Option (Text × Text)
unfolding virtual_host_bucket split_path unescape_key trim_prefix
request_target lib url adr r = elim (virtual_host_bucket lib adr r.host) [
  | none ↦ split_path url r.url.escaped_path
  | some name ↦ elim (unescape_key url (trim_prefix (codes "/") r.url.escaped_path)) [
    | none ↦ none
    | some key ↦ some (name, key)
  ]
]

-- The session token that `Verify` presents to the lookup.
unfoldable pub presented_token : HttpRequest → Text
unfolding header_get
presented_token r =
    if not (is_empty (query_get r (codes "X-Amz-Signature")))
    then query_get r (codes "X-Amz-Security-Token")
    else header_get r (codes "X-Amz-Security-Token")

-- What `handleRequest` hands to `runOp`: an operation on a bucket, its context and what `dispatch` made
-- of it; or ListBuckets, for the requester.
pub data Handled : Type 0 where
  on_bucket : OpCtx → Dispatched → Handled
  list_buckets : VerifiedRequest → Handled

abbrev pub list_all_my_buckets : Text
list_all_my_buckets = codes "s3:ListAllMyBuckets"

module _ (g : Surroundings) (adr : Addressing) (source_ip : Addr) where
  -- `verifyRequest`, on the result of `Verify`.
  unfoldable pub identified_request :
      HttpRequest → Checked Verified → Outcome (VerifiedRequest × Verified)
  unfolding captured identify presented_token
  identified_request r checked = as_outcome checked >>= λ w.
      or_panic (captured g.get_key w.access_key_id (presented_token r)) >>= λ k.
      returns (identify k source_ip, w)

  -- The context of the operations on a bucket.
  abbrev pub bucket_ctx : HttpRequest → VerifiedRequest → Verified → Bucket → Text → OpCtx
  bucket_ctx sent vr w b key = record {
    verb = sent.method;
    cfg = b;
    vr = vr;
    hdr = new_signed_header g.verifier.lib sent.header w.signed_headers;
    query = sent.url.query;
    key = key;
  }

  -- Behind the target: the bucket and its operation.
  unfoldable pub serve_bucket :
      HttpRequest → VerifiedRequest → Verified → Text × Text → Outcome Handled
  unfolding handle_request resolve_bucket
  serve_bucket sent vr w target = as_resolved (resolve_bucket g.buckets vr target.0) >>= λ b.
      fail_if (not (g.has_client b)) (new_error 500 "InternalError" no_cause)
      >> (handle_request g.std g.url g.buckets (bucket_ctx sent vr w b target.1) >>= λ d.
          returns (on_bucket (bucket_ctx sent vr w b target.1) d))

  -- The branch without a bucket.
  unfoldable pub serve_account : HttpRequest → VerifiedRequest → Outcome Handled
  unfolding check User.allows User.decide
  serve_account sent vr =
      fail_if (not (text_eq sent.method (codes "GET"))) (new_error 405 "MethodNotAllowed" no_cause)
      >> (check g.std (codes "max-buckets" ∷ codes "continuation-token" ∷ []) sent.url.query
          >> (fail_if (not (User.allows g.std vr.user_policy list_all_my_buckets)) (
                access_denied (
                  denied (
                    user_policy_reason (principal vr) list_all_my_buckets
                      (User.decide g.std vr.user_policy list_all_my_buckets))))
              >> returns (list_buckets vr)))

  -- Behind the signature.
  unfoldable pub serve_verified : HttpRequest → VerifiedRequest → Verified → Outcome Handled
  unfolding serve_bucket serve_account request_target all_known_headers
  serve_verified sent vr w =
      fail_if (not (all_known_headers g.verifier.lib g.offered sent.header)) not_implemented
      >> (elim (request_target g.verifier.lib g.url adr sent) [
        | none ↦ fails (new_error 400 "InvalidURI" parse_error)
        | some target ↦
            if is_empty target.0 then serve_account sent vr else serve_bucket sent vr w target
      ])

  -- `handleRequest` behind its first branches, with the verifier's cache behind it.
  unfoldable pub handle_verified : SignerCache → HttpRequest → Outcome Handled × SignerCache
  unfolding verify identified_request serve_verified
  handle_verified cache r =
      let (checked, cache', sent) = verify g.verifier cache r (secret_lookup g.get_key) in
      (identified_request r checked >>= λ who. serve_verified sent who.0 who.1, cache')
