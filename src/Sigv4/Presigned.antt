-- ===== src/Sigv4/Presigned.antt =====
-- sigv4/sigv4.go: presigned URLs, and `Verify`.
pub mod Timed
pub mod Promoted
pub mod Readable
pub mod Hoisted
pub mod Authentic
use s3rp.Common.{
  ℕ, suc, ◌+◌, ◌-◌, ◌*◌, ◌%◌, ◌^◌, Bool, true, false, not, ◌&&◌, ◌||◌, Option, none, some, List, [],
  ◌∷◌, ◌++◌, map, if◌then◌else◌, is_empty, any, length, ltb, leb, ◌==◌, Text, codes, text_eq, split,
  has_prefix, ℤ, pos, negsuc,
}
use s3rp.Sigv4.Http.{
  Library, Values, values_of, first_of, put_values, sort_strings, canonical_header_key, HttpRequest,
  header_get,
}
use s3rp.Sigv4.Signer.{SignerCache}
use s3rp.Sigv4.Requests.{
  no_auth, expired, not_yet_valid, AuthError, auth_error, auth_failure, query_params_error, Checked,
  denied, accepted, refuse_if, proceed, or_refuse, Credential, SecretLookup, has_unsigned_amz,
}
use s3rp.Sigv4.Verify.{
  Verifier, Claim, Verified, max_clock_skew, max_presign_expires, unsigned_error, check_signature,
  verified_of, credential_for, wrong_region, verify_header_request,
}

abbrev pub presign_auth_params : List Text
presign_auth_params =
    codes "X-Amz-Algorithm"
    ∷ codes "X-Amz-Credential"
    ∷ codes "X-Amz-Date"
    ∷ codes "X-Amz-SignedHeaders"
    ∷ codes "X-Amz-Signature"
    ∷ codes "X-Amz-Security-Token"
    ∷ []

-- A parameter that is there more than once.
unfoldable pub is_repeated : Values → List Text → Bool
unfolding values_of
is_repeated query [] = false
is_repeated query (p ∷ params) = ltb 1 (length (values_of query p)) || is_repeated query params

abbrev pub query_get : HttpRequest → Text → Text
unfolding values_of
query_get r k = first_of (values_of r.url.query k)

-- The digits of `strconv.ParseInt` in base 10, onto what is read.
unfoldable pub decimal_number : ℕ → Text → Option ℕ
decimal_number n [] = some n
decimal_number n (c ∷ s) =
    if leb b'0' c && leb c b'9' then decimal_number (n * 10 + (c - b'0')) s else none

abbrev positive : Option ℕ → Option ℕ
positive none = none
positive (some n) = if ltb 0 n && ltb n (2 ^ 63) then some n else none

-- `strconv.ParseInt(s, 10, 64)` where the result is at least 1; `none` is an error or a lower number.
unfoldable pub parse_expires : Text → Option ℕ
unfolding decimal_number
parse_expires [] = none
parse_expires (c ∷ []) = positive (decimal_number 0 (c ∷ []))
parse_expires (c ∷ d ∷ s) =
    if c == b'+'
    then positive (decimal_number 0 (d ∷ s))
    else positive (decimal_number 0 (c ∷ d ∷ s))

-- `time.Duration(expires) * time.Second`: 64 bits, with a sign.
unfoldable pub as_duration : ℕ → ℤ
as_duration expires =
    let bits = (expires * 1000000000) % 2 ^ 64 in
    if ltb bits (2 ^ 63) then pos bits else negsuc (2 ^ 64 - bits - 1)

abbrev pub is_too_long : ℤ → Bool
is_too_long (pos d) = ltb max_presign_expires d
is_too_long (negsuc n) = false

-- `now.After(t.Add(d))`.
abbrev pub is_over : ℕ → ℕ → ℤ → Bool
is_over now time (pos d) = ltb (time + d) now
is_over now time (negsuc n) = ltb time (now + suc n)

-- The payload hash of a presigned request.
unfoldable pub payload_hash_of : HttpRequest → Text
unfolding header_get
payload_hash_of r =
    let h = header_get r (codes "X-Amz-Content-Sha256") in
    if is_empty h then codes "UNSIGNED-PAYLOAD" else h

-- `verifyPresignedRequest` behind the checks of its parameters, until `checkSignature`.
unfoldable pub timed_claim :
    Verifier
    → HttpRequest
    → SecretLookup
    → (access_key_id date region : Text) → List Text
    → Checked Claim
unfolding parse_expires as_duration credential_for payload_hash_of
timed_claim v r lookup access_key_id date region signed_headers =
    proceed (or_refuse (v.lib.parse_time (query_get r (codes "X-Amz-Date"))) query_params_error)
      (λ time. refuse_if (not (text_eq (v.lib.format_day time) date)) query_params_error (
        proceed (or_refuse (parse_expires (query_get r (codes "X-Amz-Expires"))) query_params_error)
          (λ expires. refuse_if (is_too_long (as_duration expires)) query_params_error (
            refuse_if (is_over v.now time (as_duration expires))
              (auth_failure 403 "AccessDenied" expired)
              (refuse_if (ltb (v.now + max_clock_skew) time)
                (auth_failure 403 "AccessDenied" not_yet_valid)
                (proceed
                  (credential_for v lookup access_key_id
                    (query_get r (codes "X-Amz-Security-Token")))
                  (λ cred. accepted (record {
                    access_key_id = access_key_id;
                    credential = cred;
                    date = date;
                    region = region;
                    time = time;
                    signed_headers = signed_headers;
                    drop_query = codes "X-Amz-Signature";
                    payload_hash = payload_hash_of r;
                    presented = query_get r (codes "X-Amz-Signature");
                  }))))))))

-- The elements of the X-Amz-Credential parameter.
unfoldable pub presigned_scope :
    Verifier → HttpRequest → SecretLookup → List Text → List Text → Checked Claim
unfolding timed_claim
presigned_scope v r lookup signed_headers (access_key_id ∷ date ∷ region ∷ service ∷ last ∷ []) =
    refuse_if (not (text_eq last (codes "aws4_request"))) query_params_error (
      refuse_if (not (text_eq service (codes "s3"))) query_params_error (
        refuse_if (wrong_region v region) query_params_error (
          refuse_if (is_empty (first_of signed_headers)) query_params_error (
            refuse_if (has_unsigned_amz v.lib r.header signed_headers) unsigned_error
              (timed_claim v r lookup access_key_id date region signed_headers)))))
presigned_scope v r lookup signed_headers _ = denied query_params_error

-- `verifyPresignedRequest` until `checkSignature`.
unfoldable pub presigned_claim : Verifier → HttpRequest → SecretLookup → Checked Claim
unfolding presigned_scope is_repeated
presigned_claim v r lookup =
    refuse_if (is_repeated r.url.query (presign_auth_params ++ (codes "X-Amz-Expires" ∷ [])))
      query_params_error
      (refuse_if (not (text_eq (query_get r (codes "X-Amz-Algorithm")) (codes "AWS4-HMAC-SHA256")))
        query_params_error
        (presigned_scope v r lookup (split b';' (query_get r (codes "X-Amz-SignedHeaders")))
          (split b'/' (query_get r (codes "X-Amz-Credential")))))

-- Whether `promoteHoistedQueryParams` leaves a parameter where it is.
unfoldable pub is_kept_back : Library → Text → List Text → Bool
is_kept_back lib k vs =
    not (has_prefix (codes "x-amz-") (lib.to_lower k))
    || any (λ p. text_eq p (lib.to_lower k))
        (map lib.to_lower presign_auth_params ++ (codes "x-amz-expires" ∷ []))
    || is_empty vs

-- The headers behind a parameter that is promoted.
abbrev pub promote : Text → List Text → Values → Values
unfolding put_values values_of sort_strings canonical_header_key
promote k vs header =
    if is_empty (first_of (values_of header (canonical_header_key k)))
    then put_values (canonical_header_key k) (sort_strings vs) header
    else header

-- `promoteHoistedQueryParams` over the query, in the order in which the map is ranged over: the
-- promoted names and the headers.
unfoldable pub promote_hoisted : Library → Values → Values → List Text × Values
unfolding is_kept_back promote
promote_hoisted lib [] header = ([], header)
promote_hoisted lib ((k, vs) ∷ query) header =
    if is_kept_back lib k vs
    then promote_hoisted lib query header
    else (let (names, behind) = promote_hoisted lib query (promote k vs header) in
        (lib.to_lower k ∷ names, behind))

-- `verifyPresignedRequest`, with the request behind it.
unfoldable pub verify_presigned_request :
    Verifier
    → SignerCache
    → HttpRequest
    → SecretLookup
    → Checked Verified × SignerCache × HttpRequest
unfolding presigned_claim check_signature promote_hoisted verified_of
verify_presigned_request v cache r lookup = elim (presigned_claim v r lookup) [
  | denied e ↦ (denied e, cache, r)
  | accepted claim ↦
      let (key, cache') = check_signature v cache r claim in
      let (promoted, header) = promote_hoisted v.lib r.url.query r.header in
      elim key [
        | denied e ↦ (denied e, cache', r)
        | accepted k ↦
            (accepted (verified_of v claim promoted k), cache', record r { header = header })
      ]
]

-- `Verify`, with the cache and the request behind it.
unfoldable pub verify :
    Verifier
    → SignerCache
    → HttpRequest
    → SecretLookup
    → Checked Verified × SignerCache × HttpRequest
unfolding verify_presigned_request verify_header_request header_get
verify v cache r lookup =
    let by_query = not (is_empty (query_get r (codes "X-Amz-Signature"))) in
    let by_header = not (is_empty (header_get r (codes "Authorization"))) in
    if by_query && by_header
    then (denied (auth_error 400 "InvalidArgument"), cache, r)
    else if by_query
    then verify_presigned_request v cache r lookup
    else if by_header
    then (let (result, cache') = verify_header_request v cache r lookup in (result, cache', r))
    else (denied (auth_failure 403 "AccessDenied" no_auth), cache, r)
