-- ===== src/Sigv4/PostPolicy/Uploads.antt =====
-- sigv4/postpolicy.go: what `VerifyPost` guarantees of a form that it does not refuse.
use s3rp.Common.{
  ◌≤◌, ◌≡◌, ◌⊎◌, inl, inr, refl, sym, ◌∙◌, ap, subst, not, some, List, length, ltb, All, Text,
  codes, text_eq, text_eq_sound, arith,
}
use s3rp.Sigv4.Signer.{SigningKeyId, SignerCache}
use s3rp.Sigv4.Signer.Sound.{key_for, Sound}
use s3rp.Sigv4.Requests.{
  AuthError, auth_failure, expired, post_policy, mismatch_error, denied, accepted, or_refuse,
  refuse_if-accepted, proceed-accepted, or_refuse-accepted, Checked-cases, SecretLookup,
}
use s3rp.Sigv4.Verify.{Verifier, Claim, Verified, signing_key_id}
use s3rp.Sigv4.Verify.Signed.{Faithful, signing_key-Sound}
use s3rp.Sigv4.PostPolicy.{
  Decoders, PostPolicy, PostCondition, Fields, field_of, parse_post_policy, evaluate_post_policy,
  invalid_argument, invalid_policy_document, max_post_policy_bytes, upload_claimed,
  policy_signature, check_document, check_upload, verify_post,
}
use s3rp.Sigv4.PostPolicy.Evaluated.{Holds, IsBound, evaluate_post_policy_iff}
use s3rp.Sigv4.PostPolicy.Claims.{Claimed, upload_claimed-Claimed}

-- The document of a form: the policy that was parsed, with conditions that hold and bind the form.
pub record Documented (v : Verifier) (dec : Decoders) (fields : Fields) (pp : PostPolicy)
    : Type 0 where
  pub raw : Text
  pub raw_is : dec.base64 (field_of fields (codes "policy")) ≡ some raw
  pub conditions : List PostCondition
  pub parsed : parse_post_policy v.lib dec raw ≡ some (pp, conditions)
  pub live : v.now ≤ pp.expiration
  pub hold : All (Holds fields) conditions
  pub bound : All (IsBound conditions) fields

check_document-Documented :
    (v : Verifier) (dec : Decoders) (fields : Fields) (pp : PostPolicy)
    → check_document v dec fields ≡ accepted pp
    → Documented v dec fields pp
unfolding check_document
check_document-Documented v dec fields pp h =
    let (raw, decoded, h1) =
      proceed-accepted (or_refuse (dec.base64 (field_of fields (codes "policy"))) invalid_argument)
        _ pp h in
    let (small, h2) =
      refuse_if-accepted (ltb max_post_policy_bytes (length raw)) invalid_argument _ pp h1 in
    let (read, parsed, h3) =
      proceed-accepted (or_refuse (parse_post_policy v.lib dec raw) invalid_policy_document) _ pp
        h2 in
    let (live, h4) =
      refuse_if-accepted (ltb read.0.expiration v.now) (auth_failure 403 "AccessDenied" expired) _
        pp h3 in
    let (evaluated, h5) =
      refuse_if-accepted (not (evaluate_post_policy read.1 fields))
        (auth_failure 403 "AccessDenied" post_policy) _ pp h4 in
    let same : read.0 ≡ pp = ground arith in
    let (hold, bound) = (evaluate_post_policy_iff read.1 fields).0 (ground arith) in
    subst (Documented v dec fields) same (record {
      raw = raw;
      raw_is =
          or_refuse-accepted (dec.base64 (field_of fields (codes "policy"))) invalid_argument raw
            decoded;
      conditions = read.1;
      parsed =
          or_refuse-accepted (parse_post_policy v.lib dec raw) invalid_policy_document read parsed;
      live = ground arith;
      hold = hold;
      bound = bound;
    })

-- What is behind an accepted form: its claim is admitted, the signature is that of the policy under
-- the key of the claim's credential, the document holds of the form, and the result names the claim.
pub record Upload (v : Verifier) (secrets : SigningKeyId → Text) (lookup : SecretLookup)
    (dec : Decoders) (fields : Fields) (result : Verified × PostPolicy) : Type 0 where
  pub claim : Claim
  pub claimed : Claimed v lookup fields claim
  pub key_is : result.0.signing_key ≡ key_for v.crypto secrets (signing_key_id claim)
  pub matches :
      field_of fields (codes "x-amz-signature")
      ≡ policy_signature v.crypto result.0.signing_key (field_of fields (codes "policy"))
  pub documented : Documented v dec fields result.1
  pub names : (result.0.access_key_id ≡ claim.access_key_id) × (result.0.region ≡ claim.region)

check_upload-Upload :
    (v : Verifier) (secrets : SigningKeyId → Text) (lookup : SecretLookup) (dec : Decoders)
    (fields : Fields) (claim : Claim) (result : Verified × PostPolicy)
    → Claimed v lookup fields claim
    → check_upload v dec fields claim (key_for v.crypto secrets (signing_key_id claim))
      ≡ accepted result
    → Upload v secrets lookup dec fields result
unfolding check_upload
check_upload-Upload v secrets lookup dec fields claim result c h =
    let key = key_for v.crypto secrets (signing_key_id claim) in
    let expected = policy_signature v.crypto key (field_of fields (codes "policy")) in
    let (equal, h1) =
      refuse_if-accepted (not (text_eq expected claim.presented)) mismatch_error _ result h in
    let (pp, checked, h2) = proceed-accepted (check_document v dec fields) _ result h1 in
    let same : expected ≡ claim.presented = text_eq_sound expected claim.presented (ground arith) in
    let key_of : result.0.signing_key ≡ key = ground arith in
    let policy_of : pp ≡ result.1 = ground arith in
    record {
      claim = claim;
      claimed = c;
      key_is = key_of;
      matches =
          sym c.presented
          ∙ (sym same
              ∙ ap (λ k. policy_signature v.crypto k (field_of fields (codes "policy")))
                  (sym key_of));
      documented =
          subst (Documented v dec fields) policy_of
            (check_document-Documented v dec fields pp checked);
      names = (ground arith, ground arith);
    }

-- A form that `VerifyPost` accepts was signed by the holder of the access key: its signature is the one
-- over the policy with the key of the credential that the lookup returned for the id that its
-- credential field names and the token presented; the token, the region, the day and the time of the scope fit; the policy has not
-- expired, every condition of it holds of the form, and every field of the form is bound by one.
-- The cache of signing keys stays sound whatever `VerifyPost` returns.
pub verify_post-Upload :
    (v : Verifier) (secrets : SigningKeyId → Text) (lookup : SecretLookup) (dec : Decoders)
    (cache : SignerCache) (fields : Fields)
    → Faithful lookup secrets
    → Sound v.crypto secrets cache
    → Sound v.crypto secrets (verify_post v dec cache fields lookup).1
      × (((result : Verified × PostPolicy) × ((verify_post v dec cache fields lookup).0
              ≡ accepted result)
            × Upload v secrets lookup dec fields result)
          ⊎ ((e : AuthError) × ((verify_post v dec cache fields lookup).0 ≡ denied e)))
unfolding verify_post
verify_post-Upload v secrets lookup dec cache fields faithful sound =
    elim (Checked-cases (upload_claimed v lookup fields)) [
      | inl (e, bad) ↦ rw (verify_post, bad) (sound, inr (e, refl))
      | inr (claim, made) ↦
          let c = upload_claimed-Claimed v lookup fields claim made in
          let key = key_for v.crypto secrets (signing_key_id claim) in
          let (behind, result) =
            signing_key-Sound v secrets lookup faithful cache claim
              (field_of fields (codes "x-amz-security-token")) c.credential c.versioned sound in
          elim result [
            | inr (e, bad) ↦ rw (verify_post, made, bad) (behind, inr (e, refl))
            | inl right ↦ elim (Checked-cases (check_upload v dec fields claim key)) [
              | inl (e, bad) ↦ rw (verify_post, made, right, bad) (behind, inr (e, refl))
              | inr (found_it, checked) ↦
                  rw (verify_post, made, right, checked)
                    (
                      behind,
                      inl (
                        found_it,
                        refl,
                        check_upload-Upload v secrets lookup dec fields claim found_it c checked,
                      ),
                    )
            ]
          ]
    ]
