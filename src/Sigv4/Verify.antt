-- ===== src/Sigv4/Verify.antt =====
-- sigv4/sigv4.go: the verification of a request, by its Authorization header or as a presigned URL.
-- Child modules prove what a verified request satisfies.
pub mod Admitted
pub mod Signed
use s3rp.Common.{
  ℕ, suc, ◌+◌, ◌-◌, ◌*◌, ◌%◌, ◌^◌, Bool, true, false, not, ◌&&◌, ◌||◌, Option, none, some, List, [],
  ◌∷◌, ◌++◌, map, if◌then◌else◌, is_empty, any, length, ltb, leb, ◌==◌, Text, codes, text_eq, split,
  has_prefix, ℤ, pos, negsuc,
}
use s3rp.Sigv4.Crypto.{Crypto}
use s3rp.Sigv4.Http.{
  Library, Values, values_of, first_of, put_values, sort_strings, canonical_header_key, HttpRequest,
  header_get,
}
use s3rp.Sigv4.Canonical.{check_signed_header_list, canonical_request, signature}
use s3rp.Sigv4.Signer.{
  Derived, derived_key, key_gone, derive_failed, SigningKeyFunc, SigningKeyId, SignerCache, get,
}
use s3rp.Sigv4.Requests.{
  no_auth, expired, not_yet_valid, time_skewed, unsigned_headers, AuthError, auth_error,
  auth_failure, internal_error, header_malformed, query_params_error, invalid_request,
  unknown_key_error, invalid_token_error, mismatch_error, Checked, denied, accepted, refuse_if,
  proceed, or_refuse, AuthHeader, scope_of, parse_authorization_header, Credential, SecretLookup,
  lookup_secret, bad_session_token, has_unsigned_amz,
}

-- What a `Verifier` works with: the functions of the libraries, the seeded hash, `SetRegion`'s region
-- and the time that `Now` returns.
pub record Verifier : Type 0 where
  pub crypto : Crypto
  pub lib : Library
  pub hash : Text → ℕ
  pub region : Text
  pub now : ℕ

-- The arguments of `checkSignature`.
pub record Claim : Type 0 where
  pub access_key_id : Text
  pub credential : Credential
  pub date : Text
  pub region : Text
  pub time : ℕ
  pub signed_headers : List Text
  pub drop_query : Text
  pub payload_hash : Text
  pub presented : Text

-- `Verified`. The keys of the map `SignedHeaders` are a list.
pub record Verified : Type 0 where
  pub access_key_id : Text
  pub signing_key : Text
  pub signature : Text
  pub signing_time : ℕ
  pub scope : Text
  pub region : Text
  pub payload_hash : Text
  pub signed_headers : List Text

abbrev nanoseconds : ℕ → ℕ
nanoseconds seconds = seconds * 1000000000

abbrev pub max_clock_skew : ℕ
max_clock_skew = 900000000000

abbrev pub max_presign_expires : ℕ
max_presign_expires = 604800000000000

-- The id that `signingKey` looks up.
unfoldable pub signing_key_id : Claim → SigningKeyId
signing_key_id claim = elim claim.credential.signing_key [
  | none ↦ record {
    access_key_id = claim.access_key_id;
    version = claim.credential.secret_access_key;
    date = claim.date;
    region = claim.region;
    derived = false;
  }
  | some _ ↦ record {
    access_key_id = claim.access_key_id;
    version = claim.credential.secret_version;
    date = claim.date;
    region = claim.region;
    derived = true;
  }
]

-- The function that is called for the id; the nil function is not called.
abbrev pub derive_of : Option SigningKeyFunc → SigningKeyFunc
derive_of none = λ date region. derive_failed
derive_of (some derive) = derive

-- `signingKey`.
unfoldable pub signing_key : Verifier → SignerCache → Claim → Checked Text × SignerCache
unfolding get signing_key_id
signing_key v cache claim =
    let (result, cache') =
      get v.crypto v.hash cache (signing_key_id claim) (derive_of claim.credential.signing_key) in
    (
      elim result [
        | derived_key k ↦ accepted k
        | key_gone ↦ denied unknown_key_error
        | derive_failed ↦ denied internal_error
      ],
      cache',
    )

-- The signature that is expected of a request, with a signing key.
unfoldable pub expected_signature : Verifier → Claim → Text → Text → Text
unfolding signature
expected_signature v claim key canonical =
    signature v.crypto key (v.lib.format_time claim.time)
      (scope_of claim.date claim.region (codes "s3")) canonical

-- `checkSignature`.
unfoldable pub check_signature :
    Verifier → SignerCache → HttpRequest → Claim → Checked Text × SignerCache
unfolding signing_key expected_signature
check_signature v cache r claim =
    if not (check_signed_header_list v.lib claim.signed_headers)
    then (denied mismatch_error, cache)
    else elim (canonical_request r claim.signed_headers claim.drop_query claim.payload_hash) [
      | none ↦ (denied invalid_request, cache)
      | some canonical ↦
          let (key, cache') = signing_key v cache claim in
          (
            proceed key (λ k.
                refuse_if (not (text_eq (expected_signature v claim k canonical) claim.presented))
                  mismatch_error (accepted k)),
            cache',
          )
    ]

-- The result behind `checkSignature`: `signedHeaderSet` of the signed names, and further ones.
unfoldable pub verified_of : Verifier → Claim → List Text → Text → Verified
verified_of v claim promoted key = record {
  access_key_id = claim.access_key_id;
  signing_key = key;
  signature = claim.presented;
  signing_time = claim.time;
  scope = scope_of claim.date claim.region (codes "s3");
  region = claim.region;
  payload_hash = claim.payload_hash;
  signed_headers = map v.lib.to_lower (claim.signed_headers ++ promoted);
}

-- The credential of an access key id whose token is the one that was presented.
unfoldable pub credential_for : Verifier → SecretLookup → Text → Text → Checked Credential
credential_for v lookup access_key_id presented_token =
    proceed (lookup_secret lookup access_key_id presented_token) (λ cred.
      refuse_if (bad_session_token v.crypto cred.session_token presented_token) invalid_token_error
        (accepted cred))

abbrev pub wrong_region : Verifier → Text → Bool
wrong_region v region = not (is_empty v.region) && not (text_eq region v.region)

-- `d > maxClockSkew || d < -maxClockSkew` for the difference of two times.
abbrev pub too_skewed : ℕ → ℕ → Bool
too_skewed now time = ltb (time + max_clock_skew) now || ltb (now + max_clock_skew) time

-- `verifyHeaderRequest` behind the credential, until `checkSignature`.
unfoldable pub dated_claim : Verifier → HttpRequest → AuthHeader → Credential → Checked Claim
dated_claim v r auth cred =
    let amz_date = header_get r (codes "X-Amz-Date") in
    let payload_hash = header_get r (codes "X-Amz-Content-Sha256") in
    refuse_if (is_empty amz_date) invalid_request (
      proceed (or_refuse (v.lib.parse_time amz_date) invalid_request) (λ time.
        refuse_if (not (text_eq (v.lib.format_day time) auth.date)) header_malformed (
          refuse_if (too_skewed v.now time) (auth_failure 403 "RequestTimeTooSkewed" time_skewed) (
            refuse_if (is_empty payload_hash) invalid_request (
              accepted (record {
                access_key_id = auth.access_key_id;
                credential = cred;
                date = auth.date;
                region = auth.region;
                time = time;
                signed_headers = auth.signed_headers;
                drop_query = [];
                payload_hash = payload_hash;
                presented = auth.signature;
              }))))))

abbrev pub unsigned_error : AuthError
unsigned_error = auth_failure 403 "AccessDenied" unsigned_headers

-- `verifyHeaderRequest` until `checkSignature`.
unfoldable pub header_claim : Verifier → HttpRequest → SecretLookup → Checked Claim
unfolding dated_claim credential_for
header_claim v r lookup =
    proceed
      (or_refuse (parse_authorization_header (header_get r (codes "Authorization")))
        header_malformed)
      (λ auth. refuse_if (not (text_eq auth.service (codes "s3"))) header_malformed (
        refuse_if (wrong_region v auth.region) header_malformed (
          refuse_if (has_unsigned_amz v.lib r.header auth.signed_headers) unsigned_error (
            proceed
              (credential_for v lookup auth.access_key_id
                (header_get r (codes "X-Amz-Security-Token")))
              (dated_claim v r auth)))))

-- `verifyHeaderRequest`.
unfoldable pub verify_header_request :
    Verifier → SignerCache → HttpRequest → SecretLookup → Checked Verified × SignerCache
unfolding header_claim check_signature verified_of
verify_header_request v cache r lookup = elim (header_claim v r lookup) [
  | denied e ↦ (denied e, cache)
  | accepted claim ↦
      let (key, cache') = check_signature v cache r claim in
      (proceed key (λ k. accepted (verified_of v claim [] k)), cache')
]
