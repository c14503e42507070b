-- ===== src/Sigv4/PostPolicy.antt =====
-- sigv4/postpolicy.go: `VerifyPost`. Document is the policy that a form carries.

mod Document
unfoldable pub use Document.{
  find_field, field_of, parse_elements, parse_array_condition, equalities, add_condition,
  add_conditions, parse_post_policy, condition_holds, all_hold, all_covered, evaluate_post_policy,
}
pub use Document.*
pub mod Claims
pub mod Evaluated
pub mod Uploads
use s3rp.Common.{
  ℕ, zero, suc, ◌+◌, ◌-◌, ◌^◌, Bool, true, false, not, ◌&&◌, ◌||◌, Option, none, some, List, [],
  ◌∷◌, ◌++◌, if◌then◌else◌, is_empty, any, length, ltb, leb, ◌==◌, min, Text, codes, text_eq, split,
  trim_space, has_prefix, ℤ, pos, negsuc,
}
use s3rp.Sigv4.Crypto.{Crypto, to_hex}
use s3rp.Sigv4.Http.{Library}
use s3rp.Sigv4.Signer.{SignerCache}
use s3rp.Sigv4.Requests.{
  AuthError, auth_error, auth_failure, expired, not_yet_valid, post_policy, mismatch_error, Checked,
  denied, accepted, refuse_if, proceed, or_refuse, Credential, SecretLookup, scope_of,
}
use s3rp.Sigv4.Verify.{
  Verifier, Claim, Verified, max_clock_skew, max_presign_expires, wrong_region, credential_for,
  signing_key,
}

abbrev pub invalid_argument : AuthError
invalid_argument = auth_error 400 "InvalidArgument"

abbrev pub invalid_policy_document : AuthError
invalid_policy_document = auth_error 400 "InvalidPolicyDocument"

-- What `VerifyPost` asks the signing key for: a claim without headers.
abbrev pub upload_claim : Text → Credential → (date region : Text) → ℕ → Text → Claim
upload_claim access_key_id cred date region time presented = record {
  access_key_id = access_key_id;
  credential = cred;
  date = date;
  region = region;
  time = time;
  signed_headers = [];
  drop_query = [];
  payload_hash = codes "UNSIGNED-PAYLOAD";
  presented = presented;
}

-- The checks of `VerifyPost` behind the credential field, until the signing key.
unfoldable pub upload_dated :
    Verifier → SecretLookup → Fields → (access_key_id date region : Text) → Checked Claim
unfolding field_of credential_for
upload_dated v lookup fields access_key_id date region =
    proceed (or_refuse (v.lib.parse_time (field_of fields (codes "x-amz-date"))) invalid_argument)
      (λ time. refuse_if (not (text_eq (v.lib.format_day time) date)) invalid_argument (
        refuse_if (ltb (v.now + max_clock_skew) time)
          (auth_failure 403 "AccessDenied" not_yet_valid)
          (refuse_if (ltb (time + max_presign_expires) v.now)
            (auth_failure 403 "AccessDenied" expired)
            (refuse_if (is_empty (field_of fields (codes "policy"))) invalid_argument (
              refuse_if (ltb 27310 (length (field_of fields (codes "policy")))) invalid_argument (
                refuse_if (is_empty (field_of fields (codes "x-amz-signature"))) invalid_argument (
                  proceed
                    (credential_for v lookup access_key_id
                      (field_of fields (codes "x-amz-security-token")))
                    (λ cred. accepted (
                      upload_claim access_key_id cred date region time
                        (field_of fields (codes "x-amz-signature")))))))))))

unfoldable pub upload_scope : Verifier → SecretLookup → Fields → List Text → Checked Claim
unfolding upload_dated
upload_scope v lookup fields (access_key_id ∷ date ∷ region ∷ service ∷ last ∷ []) =
    refuse_if (not (text_eq last (codes "aws4_request"))) invalid_argument (
      refuse_if (not (text_eq service (codes "s3"))) invalid_argument (
        refuse_if (wrong_region v region) invalid_argument
          (upload_dated v lookup fields access_key_id date region)))
upload_scope v lookup fields _ = denied invalid_argument

-- `VerifyPost` until the signing key.
unfoldable pub upload_claimed : Verifier → SecretLookup → Fields → Checked Claim
unfolding upload_scope field_of
upload_claimed v lookup fields =
    refuse_if (not (text_eq (field_of fields (codes "x-amz-algorithm")) (codes "AWS4-HMAC-SHA256")))
      invalid_argument
      (upload_scope v lookup fields (split b'/' (field_of fields (codes "x-amz-credential"))))

-- The signature of a policy in its base64 form.
unfoldable pub policy_signature : Crypto → Text → Text → Text
unfolding to_hex
policy_signature cr key policy = to_hex (cr.hmac key policy)

-- `VerifyPost` behind the signature: the document and its conditions.
unfoldable pub check_document : Verifier → Decoders → Fields → Checked PostPolicy
unfolding parse_post_policy evaluate_post_policy field_of
check_document v dec fields =
    proceed (or_refuse (dec.base64 (field_of fields (codes "policy"))) invalid_argument) (λ raw.
      refuse_if (ltb max_post_policy_bytes (length raw)) invalid_argument (
        proceed (or_refuse (parse_post_policy v.lib dec raw) invalid_policy_document) (λ read.
          refuse_if (ltb read.0.expiration v.now) (auth_failure 403 "AccessDenied" expired) (
            refuse_if (not (evaluate_post_policy read.1 fields))
              (auth_failure 403 "AccessDenied" post_policy) (accepted read.0)))))

-- `VerifyPost` behind the signing key.
unfoldable pub check_upload :
    Verifier → Decoders → Fields → Claim → Text → Checked (Verified × PostPolicy)
unfolding policy_signature check_document field_of
check_upload v dec fields claim key =
    refuse_if
      (not (
        text_eq (policy_signature v.crypto key (field_of fields (codes "policy"))) claim.presented))
      mismatch_error
      (proceed (check_document v dec fields) (λ pp. accepted (
        record {
          access_key_id = claim.access_key_id;
          signing_key = key;
          signature = claim.presented;
          signing_time = claim.time;
          scope = scope_of claim.date claim.region (codes "s3");
          region = claim.region;
          payload_hash = claim.payload_hash;
          signed_headers = [];
        },
        pp,
      )))

-- `VerifyPost`, with the cache behind it.
unfoldable pub verify_post :
    Verifier
    → Decoders
    → SignerCache
    → Fields
    → SecretLookup
    → Checked (Verified × PostPolicy) × SignerCache
unfolding upload_claimed signing_key check_upload
verify_post v dec cache fields lookup = elim (upload_claimed v lookup fields) [
  | denied e ↦ (denied e, cache)
  | accepted claim ↦
      let (key, cache') = signing_key v cache claim in
      (proceed key (check_upload v dec fields claim), cache')
]
