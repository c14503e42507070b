-- ===== src/Sigv4/Presigned/Authentic.antt =====
-- sigv4/sigv4.go: what `Verify` guarantees of a request that it does not refuse.
use mathlib.Core.List.{append-nil}
use s3rp.Common.{
  ◌≡◌, ◌⊎◌, inl, inr, refl, subst, true, false, not, List, [], ◌++◌, map, is_empty, All, Text,
  codes, Bool-cases, arith,
}
use s3rp.Sigv4.Http.{HttpRequest, header_get}
use s3rp.Sigv4.Signer.{SigningKeyId, SignerCache}
use s3rp.Sigv4.Signer.Sound.{Sound}
use s3rp.Sigv4.Requests.{
  no_auth, AuthError, auth_error, auth_failure, Checked, Checked-cases, denied, accepted,
  SecretLookup,
}
use s3rp.Sigv4.Verify.{Verifier, Claim, Verified, header_claim, verified_of, verify_header_request}
use s3rp.Sigv4.Verify.Admitted.{Admitted, ByHeader, header_claim-Admitted}
use s3rp.Sigv4.Verify.Signed.{Faithful, Signed, check_signature-Signed}
use s3rp.Sigv4.Presigned.{
  query_get, presigned_claim, promote_hoisted, verify_presigned_request, verify,
}
use s3rp.Sigv4.Presigned.Timed.{ByQuery, presigned_claim-Admitted}
use s3rp.Sigv4.Presigned.Hoisted.{Hoists, promote_hoisted-Hoists}
use s3rp.Sigv4.Presigned.Promoted.{LowersCase, promote_hoisted-signed}
use s3rp.Sigv4.Presigned.Readable.{IsCovered, has_unsigned_amz-All, IsReadable, All-IsReadable}

-- What is behind the verified request `w`, where the handlers get the request `sent`: a claim that the
-- Authorization header or the query of the request makes, and whose credential, token, region, day
-- and time are admitted; a signature under the key of that credential; the result names that claim;
-- the request is sent on as it is, or with parameters of its query among its headers; and every
-- "x-amz-" header is covered.
pub record Authentic (v : Verifier) (secrets : SigningKeyId → Text) (lookup : SecretLookup)
    (r : HttpRequest) (w : Verified) (sent : HttpRequest) : Type 0 where
  pub claim : Claim
  pub admitted : Admitted v r lookup claim
  pub signed : Signed v secrets r claim w.signing_key
  pub promoted : List Text
  pub origin :
      ((is_empty (query_get r (codes "X-Amz-Signature")) ≡ true)
        × ByHeader v r claim admitted.token
        × (sent ≡ r)
        × (promoted ≡ []))
      ⊎ ((is_empty (query_get r (codes "X-Amz-Signature")) ≡ false)
          × ByQuery v r claim admitted.token
          × Hoists v.lib r sent promoted)
  pub result : w ≡ verified_of v claim promoted w.signing_key
  pub covered : All (IsCovered v.lib w.signed_headers) sent.header
  pub readable : (name : Text) → IsReadable v.lib w.signed_headers sent.header name

module _ (v : Verifier) (secrets : SigningKeyId → Text) (lookup : SecretLookup) where
  -- An outcome of a verification: the cache is sound, and what is accepted is authentic.
  abbrev pub IsRight : HttpRequest → Checked Verified × SignerCache × HttpRequest → Type 0
  IsRight r outcome =
      Sound v.crypto secrets outcome.1
      × (((w : Verified) × (outcome.0 ≡ accepted w) × Authentic v secrets lookup r w outcome.2)
          ⊎ ((e : AuthError) × (outcome.0 ≡ denied e)))

  module _ (faithful : Faithful lookup secrets) where
    header_request-IsRight :
        (lowers : LowersCase v.lib) (cache : SignerCache) (r : HttpRequest)
        → is_empty (query_get r (codes "X-Amz-Signature")) ≡ true
        → Sound v.crypto secrets cache
        → IsRight r (
          (verify_header_request v cache r lookup).0,
          (verify_header_request v cache r lookup).1,
          r,
        )
    unfolding verify_header_request verified_of
    header_request-IsRight lowers cache r plain sound =
        elim (Checked-cases (header_claim v r lookup)) [
          | inl (e, bad) ↦ rw (verify_header_request, bad) (sound, inr (e, refl))
          | inr (claim, made) ↦
              let (a, by_header) = header_claim-Admitted v r lookup claim made in
              let covered =
                has_unsigned_amz-All v.lib r.header (claim.signed_headers ++ [])
                  (rw (append-nil claim.signed_headers) a.all_signed) in
              let (behind, result) =
                check_signature-Signed v secrets lookup faithful r cache claim a sound in
              elim result [
                | inr (e, bad) ↦ rw (verify_header_request, made, bad) (behind, inr (e, refl))
                | inl (k, right, s) ↦
                    rw (verify_header_request, made, right)
                      (
                        behind,
                        inl (
                          verified_of v claim [] k,
                          refl,
                          record {
                            claim = claim;
                            admitted = a;
                            signed = s;
                            promoted = [];
                            origin = inl (plain, by_header, refl, refl);
                            result = refl;
                            covered = covered;
                            readable =
                                All-IsReadable v.lib
                                  (map v.lib.to_lower (claim.signed_headers ++ [])) r.header lowers
                                  covered;
                          },
                        ),
                      )
              ]
        ]

    presigned_request-IsRight :
        (lowers : LowersCase v.lib) (cache : SignerCache) (r : HttpRequest)
        → is_empty (query_get r (codes "X-Amz-Signature")) ≡ false
        → Sound v.crypto secrets cache
        → IsRight r (verify_presigned_request v cache r lookup)
    unfolding verify_presigned_request verified_of
    presigned_request-IsRight lowers cache r asked sound =
        elim (Checked-cases (presigned_claim v r lookup)) [
          | inl (e, bad) ↦ rw (verify_presigned_request, bad) (sound, inr (e, refl))
          | inr (claim, made) ↦
              let (a, by_query) = presigned_claim-Admitted v r lookup claim made in
              let (behind, result) =
                check_signature-Signed v secrets lookup faithful r cache claim a sound in
              let promoted = (promote_hoisted v.lib r.url.query r.header).0 in
              let covered =
                has_unsigned_amz-All v.lib (promote_hoisted v.lib r.url.query r.header).1
                  (claim.signed_headers ++ promoted)
                  (promote_hoisted-signed v.lib lowers r.url.query r.header claim.signed_headers
                    a.all_signed) in
              elim result [
                | inr (e, bad) ↦ rw (verify_presigned_request, made, bad) (behind, inr (e, refl))
                | inl (k, right, s) ↦
                    rw (verify_presigned_request, made, right)
                      (
                        behind,
                        inl (
                          verified_of v claim promoted k,
                          refl,
                          record {
                            claim = claim;
                            admitted = a;
                            signed = s;
                            promoted = promoted;
                            origin = inr (asked, by_query, promote_hoisted-Hoists v.lib r);
                            result = refl;
                            covered = covered;
                            readable =
                                All-IsReadable v.lib
                                  (map v.lib.to_lower (claim.signed_headers ++ promoted))
                                  (promote_hoisted v.lib r.url.query r.header).1 lowers covered;
                          },
                        ),
                      )
              ]
        ]

-- A request that `Verify` accepts is authentic: its Authorization header, or its query, names the access
-- key id, the scope, the signed headers and the signature; its credential is the one that the lookup
-- returned for that id and the token that the request presents; the token, the region, the day of
-- the scope and the time fit; the signed headers are listed in the form required; the signature is
-- the one over its canonical request with the key of that credential, also if the key came out of the
-- cache; a presigned request is sent on with the headers that it has a value for as they are, and
-- with no others but its own and parameters of its query; and no "x-amz-" header that the handlers see, promoted ones included, is outside the signature, so
-- that `Signed` and `Attribute` read it alike. The cache stays sound whatever `Verify` returns.
pub verify-Authentic :
    (v : Verifier) (secrets : SigningKeyId → Text) (lookup : SecretLookup) (cache : SignerCache)
    (r : HttpRequest)
    → Faithful lookup secrets
    → LowersCase v.lib
    → Sound v.crypto secrets cache
    → IsRight v secrets lookup r (verify v cache r lookup)
unfolding verify
verify-Authentic v secrets lookup cache r faithful lowers sound =
    elim (Bool-cases (not (is_empty (query_get r (codes "X-Amz-Signature"))))) [
      | inl by_query ↦ elim (Bool-cases (not (is_empty (header_get r (codes "Authorization"))))) [
        | inl by_header ↦
            let is : (denied (auth_error 400 "InvalidArgument"), cache, r)
                ≡ verify v cache r lookup =
              rw (verify, by_query, by_header) refl in
            subst (IsRight v secrets lookup r) is
              (sound, inr (auth_error 400 "InvalidArgument", refl))
        | inr unsigned ↦
            let is : verify_presigned_request v cache r lookup ≡ verify v cache r lookup =
              rw (verify, by_query, unsigned) refl in
            subst (IsRight v secrets lookup r) is (
              presigned_request-IsRight v secrets lookup faithful lowers cache r
                (ground (arith, by_query)) sound)
      ]
      | inr plain ↦ elim (Bool-cases (not (is_empty (header_get r (codes "Authorization"))))) [
        | inl by_header ↦
            let is : (
              (verify_header_request v cache r lookup).0,
              (verify_header_request v cache r lookup).1,
              r,
            )
                ≡ verify v cache r lookup =
              rw (verify, plain, by_header) refl in
            subst (IsRight v secrets lookup r) is (
              header_request-IsRight v secrets lookup faithful lowers cache r
                (ground (arith, plain)) sound)
        | inr unsigned ↦
            let is : (denied (auth_failure 403 "AccessDenied" no_auth), cache, r)
                ≡ verify v cache r lookup =
              rw (verify, plain, unsigned) refl in
            subst (IsRight v secrets lookup r) is
              (sound, inr (auth_failure 403 "AccessDenied" no_auth, refl))
      ]
    ]
