-- ===== src/Sigv4/Verify/Admitted.antt =====
-- sigv4/sigv4.go: what holds of a request whose signature `checkSignature` is asked for.
use s3rp.Common.{
  ◌+◌, ◌≤◌, ◌≡◌, ◌⊎◌, inl, inr, refl, sym, subst, false, not, none, [], some, is_empty, Text, codes,
  text_eq, text_eq_sound, Bool-cases, Option-cases, arith,
}
use s3rp.Sigv4.Http.{HttpRequest, header_get}
use s3rp.Sigv4.Requests.{
  is_missing, auth_failure, time_skewed, header_malformed, invalid_request,
  parse_authorization_header, accepted, or_refuse, refuse_if-accepted, proceed-accepted,
  or_refuse-accepted, AuthHeader, Credential, Lookup, found, key_unknown, token_invalid,
  lookup_failed, SecretLookup, lookup_secret, bad_session_token, has_unsigned_amz,
}
use s3rp.Sigv4.Verify.{
  unsigned_error, Verifier, Claim, max_clock_skew, max_presign_expires, signing_key_id,
  credential_for, wrong_region, too_skewed, dated_claim, header_claim,
}

-- The conditions on a claim, besides its signature.
pub record Admitted (v : Verifier) (r : HttpRequest) (lookup : SecretLookup) (claim : Claim)
    : Type 0 where
  pub token : Text
  pub credential : lookup claim.access_key_id token ≡ found claim.credential
  pub versioned : is_empty (signing_key_id claim).version ≡ false
  pub token_ok : bad_session_token v.crypto claim.credential.session_token token ≡ false
  pub region_ok : (v.region ≡ []) ⊎ (claim.region ≡ v.region)
  pub all_signed : has_unsigned_amz v.lib r.header claim.signed_headers ≡ false
  pub day : v.lib.format_day claim.time ≡ claim.date
  pub not_before : claim.time ≤ v.now + max_clock_skew
  pub not_after : v.now ≤ claim.time + max_presign_expires
  pub skew : (v.now ≤ claim.time + max_clock_skew) ⊎ (claim.drop_query ≡ codes "X-Amz-Signature")

-- A claim that the headers of a request make: the Authorization header names the access key id, the
-- scope, the signed headers and the signature; other headers the token, the time and the payload's
-- hash.
pub record ByHeader (v : Verifier) (r : HttpRequest) (claim : Claim) (token : Text) : Type 0 where
  pub auth : AuthHeader
  pub parsed : parse_authorization_header (header_get r (codes "Authorization")) ≡ some auth
  pub service_is : auth.service ≡ codes "s3"
  pub id_is : claim.access_key_id ≡ auth.access_key_id
  pub date_is : claim.date ≡ auth.date
  pub region_is : claim.region ≡ auth.region
  pub names_are : claim.signed_headers ≡ auth.signed_headers
  pub presented_is : claim.presented ≡ auth.signature
  pub token_is : token ≡ header_get r (codes "X-Amz-Security-Token")
  pub time_is : v.lib.parse_time (header_get r (codes "X-Amz-Date")) ≡ some claim.time
  pub payload_is : claim.payload_hash ≡ header_get r (codes "X-Amz-Content-Sha256")
  pub whole_query : claim.drop_query ≡ []

-- What is known of a claim of a request's headers.
abbrev AdmittedByHeader : Verifier → HttpRequest → SecretLookup → Claim → Type 0
AdmittedByHeader v r lookup claim = (a : Admitted v r lookup claim) × ByHeader v r claim a.token

Lookup-cases :
    (l : Lookup)
    → ((c : Credential) × (l ≡ found c))
      ⊎ (l ≡ key_unknown)
      ⊎ (l ≡ token_invalid)
      ⊎ (l ≡ lookup_failed)
Lookup-cases (found c) = inl (c, refl)
Lookup-cases key_unknown = inr (inl refl)
Lookup-cases token_invalid = inr (inr (inl refl))
Lookup-cases lookup_failed = inr (inr (inr refl))

-- A credential that `lookupSecret` returns has a version: its secret, or the version of it.
abbrev pub IsVersioned : Credential → Type 0
IsVersioned cred =
    ((cred.signing_key ≡ none) × (is_empty cred.secret_access_key ≡ false))
    ⊎ ((is_missing cred.signing_key ≡ false) × (is_empty cred.secret_version ≡ false))

pub credential_for-accepted :
    (v : Verifier) (lookup : SecretLookup) (akid token : Text) (cred : Credential)
    → credential_for v lookup akid token ≡ accepted cred
    → (lookup akid token ≡ found cred)
      × IsVersioned cred
      × (bad_session_token v.crypto cred.session_token token ≡ false)
unfolding credential_for lookup_secret
credential_for-accepted v lookup akid token cred h =
    let (c, looked, h1) = proceed-accepted (lookup_secret lookup akid token) _ cred h in
    let (token_ok, h2) = refuse_if-accepted _ _ (accepted c) cred h1 in
    elim (Lookup-cases (lookup akid token)) [
      | inr (inl unknown) ↦ absurd (ground arith)
      | inr (inr (inl invalid)) ↦ absurd (ground arith)
      | inr (inr (inr bad)) ↦ absurd (ground arith)
      | inl (d, is_found) ↦ elim (Option-cases d.signing_key) [
        | inl held ↦ ground arith
        | inr (f, delegated) ↦ ground arith
      ]
    ]

pub region_lem :
    (v : Verifier) (region : Text)
    → wrong_region v region ≡ false
    → (v.region ≡ []) ⊎ (region ≡ v.region)
region_lem v region h = elim (Bool-cases (text_eq region v.region)) [
  | inl same ↦ inr (text_eq_sound region v.region same)
  | inr other ↦ ground arith
]

pub versioned_lem :
    (claim : Claim) → IsVersioned claim.credential → is_empty (signing_key_id claim).version ≡ false
unfolding signing_key_id
versioned_lem claim versioned = elim (Option-cases claim.credential.signing_key) [
  | inl held ↦ ground arith
  | inr (f, delegated) ↦ ground arith
]

dated_claim-Admitted :
    (v : Verifier) (r : HttpRequest) (lookup : SecretLookup) (auth : AuthHeader) (cred : Credential)
    (token : Text) (claim : Claim)
    → lookup auth.access_key_id token ≡ found cred
    → IsVersioned cred
    → bad_session_token v.crypto cred.session_token token ≡ false
    → wrong_region v auth.region ≡ false
    → has_unsigned_amz v.lib r.header auth.signed_headers ≡ false
    → parse_authorization_header (header_get r (codes "Authorization")) ≡ some auth
    → auth.service ≡ codes "s3"
    → token ≡ header_get r (codes "X-Amz-Security-Token")
    → dated_claim v r auth cred ≡ accepted claim
    → AdmittedByHeader v r lookup claim
unfolding dated_claim
dated_claim-Admitted v r lookup auth cred token claim looked versioned token_ok region all_signed
      from s3 named h =
    let (dated, h1) =
      refuse_if-accepted (is_empty (header_get r (codes "X-Amz-Date"))) invalid_request _ claim h in
    let (time, parsed, h2) =
      proceed-accepted
        (or_refuse (v.lib.parse_time (header_get r (codes "X-Amz-Date"))) invalid_request) _ claim
        h1 in
    let (day, h3) =
      refuse_if-accepted (not (text_eq (v.lib.format_day time) auth.date)) header_malformed _ claim
        h2 in
    let (skewed, h4) =
      refuse_if-accepted (too_skewed v.now time)
        (auth_failure 403 "RequestTimeTooSkewed" time_skewed) _ claim h3 in
    let (hashed, made) =
      refuse_if-accepted (is_empty (header_get r (codes "X-Amz-Content-Sha256"))) invalid_request _
        claim h4 in
    let here : claim ≡ record {
      access_key_id = auth.access_key_id;
      credential = cred;
      date = auth.date;
      region = auth.region;
      time = time;
      signed_headers = auth.signed_headers;
      drop_query = [];
      payload_hash = header_get r (codes "X-Amz-Content-Sha256");
      presented = auth.signature;
    } =
      ground arith in
    subst (AdmittedByHeader v r lookup) (sym here) (
      record {
        token = token;
        credential = looked;
        versioned = versioned_lem _ versioned;
        token_ok = token_ok;
        region_ok = region_lem v auth.region region;
        all_signed = all_signed;
        day = text_eq_sound (v.lib.format_day time) auth.date (ground arith);
        not_before = ground arith;
        not_after = ground arith;
        skew = inl (ground arith);
      },
      record {
        auth = auth;
        parsed = from;
        service_is = s3;
        id_is = refl;
        date_is = refl;
        region_is = refl;
        names_are = refl;
        presented_is = refl;
        token_is = named;
        time_is = or_refuse-accepted _ invalid_request time parsed;
        payload_is = refl;
        whole_query = refl;
      },
    )

pub header_claim-Admitted :
    (v : Verifier) (r : HttpRequest) (lookup : SecretLookup) (claim : Claim)
    → header_claim v r lookup ≡ accepted claim
    → (a : Admitted v r lookup claim) × ByHeader v r claim a.token
unfolding header_claim dated_claim
header_claim-Admitted v r lookup claim h =
    let (auth, parsed, h1) =
      proceed-accepted
        (or_refuse (parse_authorization_header (header_get r (codes "Authorization")))
          header_malformed)
        _ claim h in
    let (s3, h2) =
      refuse_if-accepted (not (text_eq auth.service (codes "s3"))) header_malformed _ claim h1 in
    let (region, h3) =
      refuse_if-accepted (wrong_region v auth.region) header_malformed _ claim h2 in
    let (all_signed, h4) =
      refuse_if-accepted (has_unsigned_amz v.lib r.header auth.signed_headers) unsigned_error _
        claim h3 in
    let (cred, looked, h5) =
      proceed-accepted
        (credential_for v lookup auth.access_key_id (header_get r (codes "X-Amz-Security-Token"))) _
        claim h4 in
    let token = header_get r (codes "X-Amz-Security-Token") in
    let (is_found, versioned, token_ok) =
      credential_for-accepted v lookup auth.access_key_id token cred looked in
    dated_claim-Admitted v r lookup auth cred token claim is_found versioned token_ok region
      all_signed (or_refuse-accepted _ header_malformed auth parsed)
      (text_eq_sound auth.service (codes "s3") (ground arith)) refl h5
