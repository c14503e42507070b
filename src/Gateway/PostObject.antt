-- ===== src/Gateway/PostObject.antt =====
-- s3gw/postobject.go: `handlePostObject` up to `runOp`. Form reads and checks the form.
mod Form
unfoldable pub use Form.{
  without_field, set_field, read_post_form, without_ignored, replace_from, key_of, effective_fields,
  check_post_fields, post_field_header,
}
pub use Form.*
pub mod Evaluated
pub mod Permitted
use s3rp.Common.{
  ℕ, zero, suc, ◌+◌, ◌-◌, Bool, true, false, not, ◌&&◌, ◌||◌, Option, none, some, List, [], ◌∷◌,
  ◌++◌, map, if◌then◌else◌, is_empty, any, length, ltb, leb, Text, codes, text_eq, has_prefix,
  cut_prefix,
}
use s3rp.Policy.Document.{Addr, Platform}
use s3rp.Store.{Bucket}
use s3rp.Sigv4.Http.{Library, Values}
use s3rp.Sigv4.Signer.{SignerCache}
use s3rp.Sigv4.Requests.{Checked, denied, accepted}
use s3rp.Sigv4.Verify.{Verifier, Verified}
use s3rp.Sigv4.PostPolicy.{Decoders, PostPolicy, Fields, find_field, field_of, verify_post}
use s3rp.Gateway.Access.{
  no_cause, VerifiedRequest, S3Error, Resolved, bucket, unresolved, Buckets, resolve_bucket,
}
use s3rp.Gateway.Outcome.{
  Outcome, panics, fails, returns, ◌>>=◌, ◌>>◌, new_error, not_implemented, fail_if,
}
use s3rp.Gateway.Headers.{
  SignedHeader, new_signed_header, check_ssec, check_sse, acl_not_supported, invalid_argument,
}
use s3rp.Gateway.Routes.{Query, check, Handler, method, Route, bind}
use s3rp.Gateway.Copy.{Url, OpCtx}
use s3rp.Gateway.Dispatch.{authorize_route}
use s3rp.Gateway.KnownHeaders.{all_known_headers}
use s3rp.Gateway.Identity.{KeyStore, secret_lookup, captured, identify, as_outcome}

-- `postObjectRoute`, from the catalog; `none` is the panic of the package's start.
unfoldable pub post_object_route : Option Route
unfolding bind
post_object_route = bind (record {
  selects = none;
  params = none;
  acl_hdr = false;
  attrs = false;
  name = codes "PostObject";
  copy = [];
  handle = method [];
  action = [];
  version_action = [];
  hdr_actions = [];
  copy_action = [];
  copy_version_action = [];
})

-- `acl`, as `handlePostObject` reads it.
unfoldable pub check_acl_field : Fields → Outcome (Unit {0})
unfolding field_of
check_acl_field fields =
    fail_if
      (not (
        is_empty (field_of fields (codes "acl"))
        || text_eq (field_of fields (codes "acl")) (codes "private")
        || text_eq (field_of fields (codes "acl")) (codes "bucket-owner-full-control")))
      acl_not_supported

-- What a POST upload brings besides its form: the target's bucket, the method, the query, the headers
-- and the client's address.
pub record UploadRequest : Type 0 where
  pub bucket_name : Text
  pub verb : Text
  pub query : Query
  pub header : Values
  pub source_ip : Addr

-- What `handlePostObject` hands to `runOp`.
pub record Posted : Type 0 where
  pub vr : VerifiedRequest
  pub cfg : Bucket
  pub key : Text
  pub fields : Fields
  pub policy : PostPolicy
  pub actions : List Text

-- The gateway's surroundings: the address library, the URL functions, the store's buckets and keys, the
-- verifier with its decoders, the checksum headers that are offered, and which buckets have a client.
pub record Surroundings : Type 0 where
  pub std : Platform
  pub url : Url
  pub buckets : Buckets
  pub get_key : KeyStore
  pub verifier : Verifier
  pub dec : Decoders
  pub offered : List Text
  pub has_client : Bucket → Bool

abbrev pub as_resolved : Resolved → Outcome Bucket
as_resolved (bucket b) = returns b
as_resolved (unresolved e) = fails e

abbrev pub or_panic {ℓ} : {X : Type ℓ} → Option X → Outcome X
or_panic none = panics
or_panic (some x) = returns x

module _ (g : Surroundings) (r : UploadRequest) where
  -- Until the signature: the key and the fields that the policy is evaluated against.
  unfoldable pub posted_fields : List FormPart → Outcome (Text × Fields)
  unfolding read_post_form effective_fields check_ssec
  posted_fields parts =
      check g.std [] r.query
      >> (check_ssec (new_signed_header g.verifier.lib r.header [])
          >> (read_post_form g.verifier.lib [] parts >>= effective_fields r.bucket_name))

  -- The context of the authorization.
  abbrev pub upload_ctx : VerifiedRequest → Bucket → Text → Fields → OpCtx
  upload_ctx vr b key fields = record {
    verb = r.verb;
    cfg = b;
    vr = vr;
    hdr = post_field_header fields;
    query = r.query;
    key = key;
  }

  -- Behind the signature: the bucket, the checks of the fields and the authorization.
  unfoldable pub authorize_upload : Text → Fields → PostPolicy → VerifiedRequest → Outcome Posted
  unfolding check_acl_field check_post_fields post_object_route authorize_route all_known_headers
  authorize_upload key fields pp vr =
      fail_if (not (all_known_headers g.verifier.lib g.offered r.header)) not_implemented
      >> (as_resolved (resolve_bucket g.buckets vr r.bucket_name) >>= λ b.
          fail_if (not (g.has_client b)) (new_error 500 "InternalError" no_cause)
          >> (check_acl_field fields
              >> (check_post_fields fields
                  >> (check_sse (post_field_header fields)
                      >> (or_panic post_object_route >>= λ rt.
                          authorize_route g.std g.url g.buckets (upload_ctx vr b key fields) rt
                            false
                          >>= λ actions. returns (record {
                            vr = vr;
                            cfg = b;
                            key = key;
                            fields = fields;
                            policy = pp;
                            actions = actions;
                          }))))))

  -- `verifyPostRequest`, on the result of `VerifyPost`.
  unfoldable pub identified :
      Fields → Checked (Verified × PostPolicy) → Outcome (VerifiedRequest × PostPolicy)
  unfolding captured identify field_of
  identified fields checked = as_outcome checked >>= λ result.
      or_panic
        (captured g.get_key result.0.access_key_id (field_of fields (codes "x-amz-security-token")))
      >>= λ k. returns (identify k r.source_ip, result.1)

  -- `handlePostObject` up to `runOp`, with the verifier's cache behind it.
  unfoldable pub handle_post_object : SignerCache → List FormPart → Outcome Posted × SignerCache
  unfolding posted_fields identified authorize_upload verify_post
  handle_post_object cache parts = elim (posted_fields parts) [
    | panics ↦ (panics, cache)
    | fails e ↦ (fails e, cache)
    | returns target ↦
        let (checked, cache') =
          verify_post g.verifier g.dec cache target.1 (secret_lookup g.get_key) in
        (
          identified target.1 checked >>= λ who. authorize_upload target.0 target.1 who.1 who.0,
          cache',
        )
  ]
