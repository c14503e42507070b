-- ===== src/Sigv4/PostPolicy/Claims.antt =====
-- sigv4/postpolicy.go: what holds of a form whose signing key is asked for.
use s3rp.Common.{
  ◌+◌, ◌≤◌, ◌≡◌, ◌⊎◌, refl, sym, subst, ◌∙◌, false, not, some, List, [], ◌∷◌, is_empty, length, ltb,
  Text, codes, text_eq, text_eq_sound, split, arith,
}
use s3rp.Sigv4.Requests.{
  auth_failure, expired, not_yet_valid, accepted, or_refuse, or_refuse-accepted, refuse_if-accepted,
  proceed-accepted, SecretLookup, found, bad_session_token,
}
use s3rp.Sigv4.Verify.{
  Verifier, Claim, max_clock_skew, max_presign_expires, signing_key_id, wrong_region,
  credential_for,
}
use s3rp.Sigv4.Verify.Admitted.{credential_for-accepted, region_lem, versioned_lem}
use s3rp.Sigv4.PostPolicy.{
  Fields, field_of, invalid_argument, upload_claim, upload_dated, upload_scope, upload_claimed,
}

-- The conditions on the claim of a form, besides its signature.
pub record Claimed (v : Verifier) (lookup : SecretLookup) (fields : Fields) (claim : Claim)
    : Type 0 where
  pub scope_is :
      split b'/' (field_of fields (codes "x-amz-credential"))
      ≡ claim.access_key_id ∷ claim.date ∷ claim.region ∷ codes "s3" ∷ codes "aws4_request" ∷ []
  pub time_is : v.lib.parse_time (field_of fields (codes "x-amz-date")) ≡ some claim.time
  pub credential :
      lookup claim.access_key_id (field_of fields (codes "x-amz-security-token"))
      ≡ found claim.credential
  pub versioned : is_empty (signing_key_id claim).version ≡ false
  pub token_ok :
      bad_session_token v.crypto claim.credential.session_token
        (field_of fields (codes "x-amz-security-token"))
      ≡ false
  pub region_ok : (v.region ≡ []) ⊎ (claim.region ≡ v.region)
  pub day : v.lib.format_day claim.time ≡ claim.date
  pub not_before : claim.time ≤ v.now + max_clock_skew
  pub not_after : v.now ≤ claim.time + max_presign_expires
  pub presented : claim.presented ≡ field_of fields (codes "x-amz-signature")

upload_dated-Claimed :
    (v : Verifier) (lookup : SecretLookup) (fields : Fields) (akid date region : Text)
    (claim : Claim)
    → wrong_region v region ≡ false
    → split b'/' (field_of fields (codes "x-amz-credential"))
      ≡ akid ∷ date ∷ region ∷ codes "s3" ∷ codes "aws4_request" ∷ []
    → upload_dated v lookup fields akid date region ≡ accepted claim
    → Claimed v lookup fields claim
unfolding upload_dated
upload_dated-Claimed v lookup fields akid date region claim right scope h =
    let (time, parsed, h1) =
      proceed-accepted
        (or_refuse (v.lib.parse_time (field_of fields (codes "x-amz-date"))) invalid_argument) _
        claim h in
    let (day, h2) =
      refuse_if-accepted (not (text_eq (v.lib.format_day time) date)) invalid_argument _ claim h1 in
    let (begun, h3) =
      refuse_if-accepted (ltb (v.now + max_clock_skew) time)
        (auth_failure 403 "AccessDenied" not_yet_valid) _ claim h2 in
    let (live, h4) =
      refuse_if-accepted (ltb (time + max_presign_expires) v.now)
        (auth_failure 403 "AccessDenied" expired) _ claim h3 in
    let (policy, h5) =
      refuse_if-accepted (is_empty (field_of fields (codes "policy"))) invalid_argument _ claim
        h4 in
    let (small, h6) =
      refuse_if-accepted (ltb 27310 (length (field_of fields (codes "policy")))) invalid_argument _
        claim h5 in
    let (sig, h7) =
      refuse_if-accepted (is_empty (field_of fields (codes "x-amz-signature"))) invalid_argument _
        claim h6 in
    let token = field_of fields (codes "x-amz-security-token") in
    let (cred, looked, made) = proceed-accepted (credential_for v lookup akid token) _ claim h7 in
    let (is_found, versioned, token_ok) = credential_for-accepted v lookup akid token cred looked in
    let here : claim
        ≡ upload_claim akid cred date region time (field_of fields (codes "x-amz-signature")) =
      ground arith in
    subst (Claimed v lookup fields) (sym here) (record {
      scope_is = scope;
      time_is = or_refuse-accepted _ invalid_argument time parsed;
      credential = is_found;
      versioned = versioned_lem _ versioned;
      token_ok = token_ok;
      region_ok = region_lem v region right;
      day = text_eq_sound (v.lib.format_day time) date (ground arith);
      not_before = ground arith;
      not_after = ground arith;
      presented = refl;
    })

upload_scope-Claimed :
    (v : Verifier) (lookup : SecretLookup) (fields : Fields) (elems : List Text) (claim : Claim)
    → split b'/' (field_of fields (codes "x-amz-credential")) ≡ elems
    → upload_scope v lookup fields elems ≡ accepted claim
    → Claimed v lookup fields claim
unfolding upload_scope
upload_scope-Claimed v lookup fields (akid ∷ date ∷ region ∷ service ∷ last ∷ []) claim scope h =
    let (ending, h1) =
      refuse_if-accepted (not (text_eq last (codes "aws4_request"))) invalid_argument _ claim h in
    let (s3, h2) =
      refuse_if-accepted (not (text_eq service (codes "s3"))) invalid_argument _ claim h1 in
    let (right, h3) = refuse_if-accepted (wrong_region v region) invalid_argument _ claim h2 in
    let named : akid ∷ date ∷ region ∷ service ∷ last ∷ []
        ≡ akid ∷ date ∷ region ∷ codes "s3" ∷ codes "aws4_request" ∷ [] =
      cc (
        text_eq_sound service (codes "s3") (ground (arith, s3)),
        text_eq_sound last (codes "aws4_request") (ground (arith, ending)),
      ) in
    upload_dated-Claimed v lookup fields akid date region claim right (scope ∙ named) h3
upload_scope-Claimed v lookup fields [] claim scope h = absurd (ground arith)
upload_scope-Claimed v lookup fields (a ∷ []) claim scope h = absurd (ground arith)
upload_scope-Claimed v lookup fields (a ∷ b ∷ []) claim scope h = absurd (ground arith)
upload_scope-Claimed v lookup fields (a ∷ b ∷ c ∷ []) claim scope h = absurd (ground arith)
upload_scope-Claimed v lookup fields (a ∷ b ∷ c ∷ d ∷ []) claim scope h = absurd (ground arith)
upload_scope-Claimed v lookup fields (a ∷ b ∷ c ∷ d ∷ e ∷ f ∷ more) claim scope h =
    absurd (ground arith)

pub upload_claimed-Claimed :
    (v : Verifier) (lookup : SecretLookup) (fields : Fields) (claim : Claim)
    → upload_claimed v lookup fields ≡ accepted claim
    → Claimed v lookup fields claim
unfolding upload_claimed
upload_claimed-Claimed v lookup fields claim h =
    let (algo, h1) =
      refuse_if-accepted
        (not (text_eq (field_of fields (codes "x-amz-algorithm")) (codes "AWS4-HMAC-SHA256")))
        invalid_argument _ claim h in
    upload_scope-Claimed v lookup fields (split b'/' (field_of fields (codes "x-amz-credential")))
      claim refl h1
