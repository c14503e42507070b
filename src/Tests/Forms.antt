-- ===== src/Tests/Forms.antt =====
-- POST uploads.
use s3rp.Common.{
  Text, ◌≡◌, ◌↔◌, ◌⊎◌, refl, Bool, true, false, some, none, List, [], ◌∷◌, All, codes, text_eq,
  split, trim_space, has_prefix,
}
use s3rp.Sigv4.Crypto.{derive_signing_key}
use s3rp.Sigv4.Signer.Sound.{Sound}
use s3rp.Sigv4.Requests.{AuthError, Checked, denied, accepted, lookup_secret, bad_session_token}
use s3rp.Sigv4.Verify.{Verified}
use s3rp.Sigv4.PostPolicy.{
  Decoders, PostPolicy, PostCondition, Fields, evaluate_post_policy, policy_signature, verify_post,
}
use s3rp.Sigv4.PostPolicy.Evaluated.{Holds, IsBound, evaluate_post_policy_iff}
use s3rp.Sigv4.PostPolicy.Uploads.{Upload, verify_post-Upload}
use s3rp.Tests.Chunks.{crypto}
use s3rp.Tests.Signatures.{
  verifier, lookup, cache, kms_secrets, lookup-Faithful, cache-Sound, ascii_lower,
}

abbrev pub signed_fields : Fields
signed_fields =
    (codes "key", codes "k")
    ∷ (codes "x-amz-algorithm", codes "AWS4-HMAC-SHA256")
    ∷ (codes "x-amz-credential", codes "K/20240101/r/s3/aws4_request")
    ∷ (codes "x-amz-date", codes "20240101T000000Z")
    ∷ []

-- A policy whose one condition is the object of those fields.
abbrev pub decoders : Decoders
decoders = record {
  document = λ t. some (record { expiration = codes "2024"; conditions = codes "{}" ∷ [] });
  object = λ t. some signed_fields;
  array = λ t. none;
  string = λ t. none;
  integer = λ t. none;
  base64 = λ t. some t;
  rfc3339 = λ t. some 63871632001000000000;
}

unfoldable pub form_signature : Text
unfolding policy_signature derive_signing_key
form_signature =
    policy_signature crypto (derive_signing_key crypto (codes "s") (codes "20240101") (codes "r"))
      (codes "p")

form : Fields
unfolding form_signature
form =
    (codes "policy", codes "p")
    ∷ (
      codes "x-amz-signature",
      policy_signature crypto (derive_signing_key crypto (codes "s") (codes "20240101") (codes "r"))
          (codes "p"),
    )
    ∷ signed_fields

abbrev is_ok : Checked (Verified × PostPolicy) → Bool
is_ok (denied e) = false
is_ok (accepted result) = true

-- `VerifyPost` accepts the form.
form_is_accepted : is_ok (verify_post verifier decoders cache form lookup).0 ≡ true
unfolding verify_post form cache text_eq crypto split lookup_secret bad_session_token has_prefix
    trim_space ascii_lower
form_is_accepted = refl

verify_post-Upload_example :
    Sound crypto kms_secrets (verify_post verifier decoders cache form lookup).1
    × (((result : Verified × PostPolicy) × ((verify_post verifier decoders cache form lookup).0
            ≡ accepted result)
          × Upload verifier kms_secrets lookup decoders form result)
        ⊎ ((e : AuthError) × ((verify_post verifier decoders cache form lookup).0 ≡ denied e)))
verify_post-Upload_example =
    verify_post-Upload verifier kms_secrets lookup decoders cache form lookup-Faithful cache-Sound

abbrev conditions : List PostCondition
conditions = record { op = codes "starts-with"; field = codes "key"; value = codes "user/" } ∷ []

abbrev upload_fields : Fields
upload_fields = (codes "key", codes "user/a") ∷ (codes "policy", codes "p") ∷ []

evaluate_post_policy_iff_example :
    (evaluate_post_policy conditions upload_fields ≡ true)
    ↔ (All (Holds upload_fields) conditions × All (IsBound conditions) upload_fields)
evaluate_post_policy_iff_example = evaluate_post_policy_iff conditions upload_fields
