-- ===== src/Gateway/PostObject/Permitted.antt =====
-- s3gw/postobject.go: what stands behind a POST upload that reaches the hooks.
use s3rp.Common.{
  ◌≡◌, ◌⊎◌, inl, inr, refl, sym, ◌∙◌, ap, subst, true, false, not, Option, none, some, List, [],
  ◌∷◌, ◌++◌, is_empty, false, Text, codes, text_eq, arith,
}
use s3rp.Store.{Bucket}
use s3rp.Sigv4.Signer.{SigningKeyId, SignerCache}
use s3rp.Sigv4.Signer.Sound.{Sound}
use s3rp.Sigv4.Requests.{Checked, accepted}
use s3rp.Sigv4.Verify.{Verified}
use s3rp.Sigv4.Verify.Signed.{Faithful}
use s3rp.Sigv4.PostPolicy.{PostPolicy, Fields, field_of, verify_post}
use s3rp.Sigv4.PostPolicy.Uploads.{Upload, verify_post-Upload}
use s3rp.Gateway.Access.{
  S3Error, VerifiedRequest, permitted, authorize, Resolved, bucket, unresolved, resolve_bucket,
  no_cause,
}
use s3rp.Gateway.Outcome.{
  Outcome, panics, fails, returns, ◌>>=◌, fail_if, not_implemented, new_error, then-returns,
  bind-returns,
}
use s3rp.Gateway.Headers.{check_sse}
use s3rp.Gateway.Routes.{Route}
use s3rp.Gateway.Copy.{versioned}
use s3rp.Gateway.Dispatch.{authorize_route}
use s3rp.Gateway.Dispatch.Authorized.{IsPermitted, RoutePermitted, authorize_route-RoutePermitted}
use s3rp.Gateway.KnownHeaders.{all_known_headers}
use s3rp.Gateway.Identity.{
  StoreKey, secret_lookup, captured, identify, as_outcome, as_outcome-accepted,
}
use s3rp.Gateway.PostObject.Evaluated.{FormRead, posted_fields-FormRead}
use s3rp.Gateway.PostObject.{
  FormPart, Posted, UploadRequest, Surroundings, as_resolved, or_panic, post_object_route,
  check_acl_field, check_post_fields, post_field_header, posted_fields, upload_ctx,
  authorize_upload, identified, handle_post_object,
}

pub Outcome-cases {ℓ} :
    {X : Type ℓ} (m : Outcome X)
    → (m ≡ panics) ⊎ ((e : S3Error) × (m ≡ fails e)) ⊎ ((x : X) × (m ≡ returns x))
Outcome-cases panics = inl refl
Outcome-cases (fails e) = inr (inl (e, refl))
Outcome-cases (returns x) = inr (inr (x, refl))

pub or_panic-returns {ℓ} : {X : Type ℓ} (o : Option X) (x : X) → or_panic o ≡ returns x → o ≡ some x
or_panic-returns none x h = absurd (ground arith)
or_panic-returns (some y) x h = ground arith

pub as_resolved-returns : (s : Resolved) (b : Bucket) → as_resolved s ≡ returns b → s ≡ bucket b
as_resolved-returns (bucket c) b h = ground arith
as_resolved-returns (unresolved e) b h = absurd (ground arith)

route_action : Option Route → Text
route_action none = []
route_action (some rt) = rt.action

bound_action : route_action post_object_route ≡ codes "s3:PutObject"
unfolding route_action post_object_route text_eq
bound_action = refl

-- `postObjectRoute` authorizes s3:PutObject, whatever the headers add.
post_object_route-action :
    (rt : Route) → post_object_route ≡ some rt → rt.action ≡ codes "s3:PutObject"
unfolding route_action
post_object_route-action rt h = sym (ap route_action h) ∙ bound_action

module _ (g : Surroundings) (r : UploadRequest) where
  -- The bucket that the requester reaches, the checks of the fields, and what the policies permit.
  pub record Authorized (p : Posted) : Type 0 where
    pub known : all_known_headers g.verifier.lib g.offered r.header ≡ true
    pub resolved : resolve_bucket g.buckets p.vr r.bucket_name ≡ bucket p.cfg
    pub acl : check_acl_field p.fields ≡ returns tt
    pub mapped : check_post_fields p.fields ≡ returns tt
    pub sse : check_sse (post_field_header p.fields) ≡ returns tt
    pub route : Route
    pub route_is : post_object_route ≡ some route
    pub permits :
        RoutePermitted g.std g.url g.buckets
          (upload_ctx g r p.vr p.cfg p.key p.fields)
          route
          false
          p.actions

  authorize_upload-Authorized :
      (key : Text) (fields : Fields) (pp : PostPolicy) (vr : VerifiedRequest) (p : Posted)
      → authorize_upload g r key fields pp vr ≡ returns p
      → Authorized p × (p.vr ≡ vr) × (p.key ≡ key) × (p.fields ≡ fields) × (p.policy ≡ pp)
  unfolding authorize_upload
  authorize_upload-Authorized key fields pp vr p e =
      let (known, e1) =
        then-returns
          (fail_if (not (all_known_headers g.verifier.lib g.offered r.header)) not_implemented) _ p
          e in
      let (b, found_it, e2) =
        bind-returns (as_resolved (resolve_bucket g.buckets vr r.bucket_name)) _ p e1 in
      let (client, e3) =
        then-returns (fail_if (not (g.has_client b)) (new_error 500 "InternalError" no_cause)) _ p
          e2 in
      let (acl, e4) = then-returns (check_acl_field fields) _ p e3 in
      let (mapped, e5) = then-returns (check_post_fields fields) _ p e4 in
      let (sse, e6) = then-returns (check_sse (post_field_header fields)) _ p e5 in
      let (rt, route, e7) = bind-returns (or_panic post_object_route) _ p e6 in
      let (actions, permits, made) =
        bind-returns
          (authorize_route g.std g.url g.buckets (upload_ctx g r vr b key fields) rt false) _ p
          e7 in
      let here : p ≡ record {
        vr = vr;
        cfg = b;
        key = key;
        fields = fields;
        policy = pp;
        actions = actions;
      } =
        ground arith in
      subst
        (λ x. Authorized x × (x.vr ≡ vr) × (x.key ≡ key) × (x.fields ≡ fields) × (x.policy ≡ pp))
        (sym here)
        (
          record {
            known = ground arith;
            resolved = as_resolved-returns (resolve_bucket g.buckets vr r.bucket_name) b found_it;
            acl = acl;
            mapped = mapped;
            sse = sse;
            route = rt;
            route_is = or_panic-returns post_object_route rt route;
            permits =
                authorize_route-RoutePermitted g.std g.url g.buckets
                  (upload_ctx g r vr b key fields) rt false actions permits;
          },
          refl,
          refl,
          refl,
          refl,
        )

  -- The identity of an upload: the key of the store for the id and the token of the form.
  pub record Identified (fields : Fields) (result : Verified × PostPolicy) (vr : VerifiedRequest)
      : Type 0 where
    pub owner : StoreKey
    pub owner_is :
        captured g.get_key result.0.access_key_id (field_of fields (codes "x-amz-security-token"))
        ≡ some owner
    pub vr_is : vr ≡ record {
      tenant = owner.tenant;
      user = owner.user;
      user_policy = owner.user_policy;
      source_ip = r.source_ip;
    }

  identified-Identified :
      (fields : Fields) (checked : Checked (Verified × PostPolicy))
      (who : VerifiedRequest × PostPolicy)
      → identified g r fields checked ≡ returns who
      → (result : Verified × PostPolicy) × (checked ≡ accepted result)
        × Identified fields result who.0
        × (who.1 ≡ result.1)
  unfolding identified identify
  identified-Identified fields checked who e =
      let (result, passed, e1) = bind-returns (as_outcome checked) _ who e in
      let (k, taken, e2) =
        bind-returns
          (or_panic (
            captured g.get_key result.0.access_key_id
              (field_of fields (codes "x-amz-security-token"))))
          _ who e1 in
      let vr_of : who.0 ≡ identify k r.source_ip = ground arith in
      let policy_of : who.1 ≡ result.1 = ground arith in
      (
        result,
        as_outcome-accepted checked result passed,
        record { owner = k; owner_is = or_panic-returns _ k taken; vr_is = vr_of },
        policy_of,
      )

  -- What stands behind an upload that reaches the hooks.
  pub record UploadPermitted (secrets : SigningKeyId → Text) (parts : List FormPart) (p : Posted)
      : Type 0 where
    pub read_form : FormRead g r parts p.key p.fields
    pub result : Verified × PostPolicy
    pub policy_is : p.policy ≡ result.1
    pub upload : Upload g.verifier secrets (secret_lookup g.get_key) g.dec p.fields result
    pub identity : Identified p.fields result p.vr
    pub authorized : Authorized p
    pub put_permitted :
        authorize g.std p.vr p.cfg (codes "s3:PutObject") (p.cfg.name ++ (b'/' ∷ p.key))
        ≡ some permitted

  put_lem :
      (p : Posted)
      → Authorized p
      → is_empty p.key ≡ false
      → authorize g.std p.vr p.cfg (codes "s3:PutObject") (p.cfg.name ++ (b'/' ∷ p.key))
        ≡ some permitted
  unfolding versioned
  put_lem p a of_key = elim a.permits.unconditional [
    | inl without ↦ absurd (ground (arith, without, post_object_route-action a.route a.route_is))
    | inr permitted_it ↦
        let put =
          subst
            (λ x. IsPermitted g.std g.url g.buckets (upload_ctx g r p.vr p.cfg p.key p.fields) x)
            (post_object_route-action a.route a.route_is) permitted_it in
        rw of_key at put
  ]

  -- A POST upload that reaches the hooks was signed for by the requester as whom it runs: `VerifyPost`
  -- accepted the fields of the form, the ignored ones left out and the bucket and the key being those
  -- that the upload is of, whatever bucket the form gives and with the file's name in the key, so the
  -- conditions of a policy under the requester's key hold of all of them; the requester is the one
  -- of the store's key for that id and token; it reaches the bucket, and the policies permit it
  -- s3:PutObject on the key, and the actions that the fields add; every field is one that is
  -- honoured, and every "x-amz-" header is known.
  pub handle_post_object-UploadPermitted :
      (secrets : SigningKeyId → Text) (cache : SignerCache) (parts : List FormPart) (p : Posted)
      → Faithful (secret_lookup g.get_key) secrets
      → Sound g.verifier.crypto secrets cache
      → (handle_post_object g r cache parts).0 ≡ returns p
      → UploadPermitted secrets parts p
  unfolding handle_post_object
  handle_post_object-UploadPermitted secrets cache parts p faithful sound e =
      elim (Outcome-cases (posted_fields g r parts)) [
        | inl crash ↦ absurd (ground (arith, e, crash))
        | inr (inl (x, bad)) ↦ absurd (ground (arith, e, bad))
        | inr (inr ((key, fields), target)) ↦
            let checked = (verify_post g.verifier g.dec cache fields (secret_lookup g.get_key)).0 in
            let e1 : (identified g r fields checked >>= λ who.
            authorize_upload g r key fields who.1 who.0)
                ≡ returns p =
              ground (arith, e, target) in
            let (who, known, e2) = bind-returns (identified g r fields checked) _ p e1 in
            let (result, passed, identity, policy) =
              identified-Identified fields checked who known in
            let (a, vr_of, key_of, fields_of, policy_of) =
              authorize_upload-Authorized key fields who.1 who.0 p e2 in
            elim ((verify_post-Upload g.verifier secrets (secret_lookup g.get_key) g.dec cache
              fields faithful sound).1) [
                | inr (x, refused) ↦ absurd (ground (arith, passed, refused))
                | inl (result', passed', upload) ↦
                    let one : result' ≡ result = ground (arith, passed, passed') in
                    let upload' =
                      subst
                        (λ x. Upload g.verifier secrets (secret_lookup g.get_key) g.dec fields x)
                        one upload in
                    let read_form =
                      posted_fields-FormRead g r parts p.key p.fields
                        (ground (arith, target, key_of, fields_of)) in
                    record {
                      read_form = read_form;
                      result = result;
                      policy_is = ground (arith, policy, policy_of);
                      upload =
                          subst
                            (λ x.
                              Upload g.verifier secrets (secret_lookup g.get_key) g.dec x result)
                            (sym fields_of) upload';
                      identity =
                          subst (λ x. Identified x result p.vr) (sym fields_of)
                            (subst (λ x. Identified fields result x) (sym vr_of) identity);
                      authorized = a;
                      put_permitted = put_lem p a read_form.not_empty;
                    }
              ]
      ]
