-- ===== src/Sigv4/Presigned/Timed.antt =====
-- sigv4/sigv4.go: what holds of a presigned request whose signature `checkSignature` is asked for.
use s3rp.Common.{
  ℕ, ◌+◌, ◌≤◌, ◌≡◌, inr, refl, sym, subst, ◌∙◌, false, not, some, List, [], ◌∷◌, ◌++◌, is_empty,
  ltb, Text, codes, text_eq, text_eq_sound, arith, ℤ, pos, negsuc, split,
}
use s3rp.Sigv4.Http.{HttpRequest, first_of}
use s3rp.Sigv4.Requests.{
  auth_failure, query_params_error, expired, not_yet_valid, accepted, or_refuse, or_refuse-accepted,
  refuse_if-accepted, proceed-accepted, SecretLookup, has_unsigned_amz,
}
use s3rp.Sigv4.Verify.{
  Verifier, Claim, max_clock_skew, max_presign_expires, unsigned_error, credential_for,
  wrong_region,
}
use s3rp.Sigv4.Verify.Admitted.{Admitted, credential_for-accepted, region_lem, versioned_lem}
use s3rp.Sigv4.Presigned.{
  query_get, presign_auth_params, is_repeated, parse_expires, as_duration, is_too_long, is_over,
  payload_hash_of, timed_claim, presigned_scope, presigned_claim,
}

-- A claim that the query of a presigned request makes: its parameters are not repeated, they name the
-- access key id and the scope, the signed headers, the signature, the token, the time and how long it
-- is valid, which is not over. Its signature is over the query without the signature itself.
pub record ByQuery (v : Verifier) (r : HttpRequest) (claim : Claim) (token : Text) : Type 0 where
  pub once : is_repeated r.url.query (presign_auth_params ++ (codes "X-Amz-Expires" ∷ [])) ≡ false
  pub scope_is :
      split b'/' (query_get r (codes "X-Amz-Credential"))
      ≡ claim.access_key_id ∷ claim.date ∷ claim.region ∷ codes "s3" ∷ codes "aws4_request" ∷ []
  pub names_are : claim.signed_headers ≡ split b';' (query_get r (codes "X-Amz-SignedHeaders"))
  pub presented_is : claim.presented ≡ query_get r (codes "X-Amz-Signature")
  pub token_is : token ≡ query_get r (codes "X-Amz-Security-Token")
  pub time_is : v.lib.parse_time (query_get r (codes "X-Amz-Date")) ≡ some claim.time
  pub expires : ℕ
  pub expires_is : parse_expires (query_get r (codes "X-Amz-Expires")) ≡ some expires
  pub live : is_over v.now claim.time (as_duration expires) ≡ false
  pub payload_is : claim.payload_hash ≡ payload_hash_of r
  pub unsigned_part : claim.drop_query ≡ codes "X-Amz-Signature"

-- What is known of a claim of a request's query.
abbrev AdmittedByQuery : Verifier → HttpRequest → SecretLookup → Claim → Type 0
AdmittedByQuery v r lookup claim = (a : Admitted v r lookup claim) × ByQuery v r claim a.token

-- A duration that is not too long, whatever its sign, ends in the time that a presigned request has.
duration_lem :
    (now time : ℕ) (d : ℤ)
    → is_too_long d ≡ false
    → is_over now time d ≡ false
    → now ≤ time + max_presign_expires
duration_lem now time (pos d) short live = ground arith
duration_lem now time (negsuc n) short live = ground arith

timed_claim-Admitted :
    (v : Verifier) (r : HttpRequest) (lookup : SecretLookup) (akid date region : Text)
    (names : List Text) (claim : Claim)
    → wrong_region v region ≡ false
    → has_unsigned_amz v.lib r.header names ≡ false
    → is_repeated r.url.query (presign_auth_params ++ (codes "X-Amz-Expires" ∷ [])) ≡ false
    → split b'/' (query_get r (codes "X-Amz-Credential"))
      ≡ akid ∷ date ∷ region ∷ codes "s3" ∷ codes "aws4_request" ∷ []
    → names ≡ split b';' (query_get r (codes "X-Amz-SignedHeaders"))
    → timed_claim v r lookup akid date region names ≡ accepted claim
    → AdmittedByQuery v r lookup claim
unfolding timed_claim
timed_claim-Admitted v r lookup akid date region names claim right all_signed once scope listed h =
    let (time, parsed, h1) =
      proceed-accepted
        (or_refuse (v.lib.parse_time (query_get r (codes "X-Amz-Date"))) query_params_error) _ claim
        h in
    let (day, h2) =
      refuse_if-accepted (not (text_eq (v.lib.format_day time) date)) query_params_error _ claim
        h1 in
    let (expires, given, h3) =
      proceed-accepted
        (or_refuse (parse_expires (query_get r (codes "X-Amz-Expires"))) query_params_error) _ claim
        h2 in
    let (short, h4) =
      refuse_if-accepted (is_too_long (as_duration expires)) query_params_error _ claim h3 in
    let (live, h5) =
      refuse_if-accepted (is_over v.now time (as_duration expires))
        (auth_failure 403 "AccessDenied" expired) _ claim h4 in
    let (begun, h6) =
      refuse_if-accepted (ltb (v.now + max_clock_skew) time)
        (auth_failure 403 "AccessDenied" not_yet_valid) _ claim h5 in
    let token = query_get r (codes "X-Amz-Security-Token") in
    let (cred, looked, made) = proceed-accepted (credential_for v lookup akid token) _ claim h6 in
    let (is_found, versioned, token_ok) = credential_for-accepted v lookup akid token cred looked in
    let here : claim ≡ record {
      access_key_id = akid;
      credential = cred;
      date = date;
      region = region;
      time = time;
      signed_headers = names;
      drop_query = codes "X-Amz-Signature";
      payload_hash = payload_hash_of r;
      presented = query_get r (codes "X-Amz-Signature");
    } =
      ground arith in
    subst (AdmittedByQuery v r lookup) (sym here) (
      record {
        token = token;
        credential = is_found;
        versioned = versioned_lem _ versioned;
        token_ok = token_ok;
        region_ok = region_lem v region right;
        all_signed = all_signed;
        day = text_eq_sound (v.lib.format_day time) date (ground arith);
        not_before = ground arith;
        not_after = duration_lem v.now time (as_duration expires) short live;
        skew = inr refl;
      },
      record {
        once = once;
        scope_is = scope;
        names_are = listed;
        presented_is = refl;
        token_is = refl;
        time_is = or_refuse-accepted _ query_params_error time parsed;
        expires = expires;
        expires_is = or_refuse-accepted _ query_params_error expires given;
        live = live;
        payload_is = refl;
        unsigned_part = refl;
      },
    )

presigned_scope-Admitted :
    (v : Verifier) (r : HttpRequest) (lookup : SecretLookup) (names elems : List Text)
    (claim : Claim)
    → is_repeated r.url.query (presign_auth_params ++ (codes "X-Amz-Expires" ∷ [])) ≡ false
    → split b'/' (query_get r (codes "X-Amz-Credential")) ≡ elems
    → names ≡ split b';' (query_get r (codes "X-Amz-SignedHeaders"))
    → presigned_scope v r lookup names elems ≡ accepted claim
    → AdmittedByQuery v r lookup claim
unfolding presigned_scope
presigned_scope-Admitted v r lookup names (akid ∷ date ∷ region ∷ service ∷ last ∷ []) claim once
      scope listed h =
    let (ending, h1) =
      refuse_if-accepted (not (text_eq last (codes "aws4_request"))) query_params_error _ claim h in
    let (s3, h2) =
      refuse_if-accepted (not (text_eq service (codes "s3"))) query_params_error _ claim h1 in
    let (right, h3) = refuse_if-accepted (wrong_region v region) query_params_error _ claim h2 in
    let (named, h4) =
      refuse_if-accepted (is_empty (first_of names)) query_params_error _ claim h3 in
    let (all_signed, h5) =
      refuse_if-accepted (has_unsigned_amz v.lib r.header names) unsigned_error _ claim h4 in
    let named : akid ∷ date ∷ region ∷ service ∷ last ∷ []
        ≡ akid ∷ date ∷ region ∷ codes "s3" ∷ codes "aws4_request" ∷ [] =
      cc (
        text_eq_sound service (codes "s3") (ground (arith, s3)),
        text_eq_sound last (codes "aws4_request") (ground (arith, ending)),
      ) in
    timed_claim-Admitted v r lookup akid date region names claim right all_signed once
      (scope ∙ named) listed h5
presigned_scope-Admitted v r lookup names [] claim once scope listed h = absurd (ground arith)
presigned_scope-Admitted v r lookup names (a ∷ []) claim once scope listed h = absurd (ground arith)
presigned_scope-Admitted v r lookup names (a ∷ b ∷ []) claim once scope listed h =
    absurd (ground arith)
presigned_scope-Admitted v r lookup names (a ∷ b ∷ c ∷ []) claim once scope listed h =
    absurd (ground arith)
presigned_scope-Admitted v r lookup names (a ∷ b ∷ c ∷ d ∷ []) claim once scope listed h =
    absurd (ground arith)
presigned_scope-Admitted v r lookup names (a ∷ b ∷ c ∷ d ∷ e ∷ f ∷ more) claim once scope listed h =
    absurd (ground arith)

pub presigned_claim-Admitted :
    (v : Verifier) (r : HttpRequest) (lookup : SecretLookup) (claim : Claim)
    → presigned_claim v r lookup ≡ accepted claim
    → (a : Admitted v r lookup claim) × ByQuery v r claim a.token
unfolding presigned_claim
presigned_claim-Admitted v r lookup claim h =
    let (once, h1) =
      refuse_if-accepted
        (is_repeated r.url.query (presign_auth_params ++ (codes "X-Amz-Expires" ∷ [])))
        query_params_error _ claim h in
    let (algo, h2) =
      refuse_if-accepted
        (not (text_eq (query_get r (codes "X-Amz-Algorithm")) (codes "AWS4-HMAC-SHA256")))
        query_params_error _ claim h1 in
    presigned_scope-Admitted v r lookup (split b';' (query_get r (codes "X-Amz-SignedHeaders")))
      (split b'/' (query_get r (codes "X-Amz-Credential"))) claim once refl refl h2
