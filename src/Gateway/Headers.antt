-- ===== src/Gateway/Headers.antt =====
-- s3gw/headers.go, s3gw/sse.go and s3gw/acl.go: the headers of a request in view of its signature,
-- and the checks that `dispatch` makes of them first.
use s3rp.Common.{
  Bool, not, ◌&&◌, ◌||◌, List, [], ◌∷◌, if◌then◌else◌, any, is_empty, Text, codes, text_eq,
}
use s3rp.Sigv4.Http.{Library, Values, values_of, canonical_header_key}
use s3rp.Gateway.Access.{no_cause, S3Error}
use s3rp.Gateway.Outcome.{Outcome, ◌>>◌, new_error, not_implemented, fail_if}

-- `http.Header.Values` and the signature's coverage set, by lower-case names.
pub record SignedHeader : Type 0 where
  pub values : Text → List Text
  pub is_signed : Text → Bool

-- `newSignedHeader`, of the headers of a request and the names that the signature covers.
unfoldable pub new_signed_header : Library → Values → List Text → SignedHeader
unfolding values_of canonical_header_key
new_signed_header lib header covered = record {
  values = λ name. values_of header (canonical_header_key name);
  is_signed = λ name. any (λ n. text_eq n (lib.to_lower name)) covered;
}

-- `http.Header.Get` and `url.Values.Get` on what they find.
abbrev pub first_value : List Text → Text
first_value [] = []
first_value (v ∷ _) = v

-- `Signed`, `Attribute` and `AttributeValues`, for names in lower case.
unfoldable pub signed : SignedHeader → Text → Text
signed h name = if not (h.is_signed name) then [] else first_value (h.values name)

unfoldable pub attribute : SignedHeader → Text → Text
attribute h name = first_value (h.values name)

unfoldable pub attribute_values : SignedHeader → Text → List Text
attribute_values h name = h.values name

abbrev pub hdr_sse : Text
hdr_sse = codes "x-amz-server-side-encryption"

abbrev pub hdr_sse_kms_key_id : Text
hdr_sse_kms_key_id = codes "x-amz-server-side-encryption-aws-kms-key-id"

abbrev pub hdr_ssec_algo : Text
hdr_ssec_algo = codes "x-amz-server-side-encryption-customer-algorithm"

abbrev pub hdr_copy_ssec_algo : Text
hdr_copy_ssec_algo = codes "x-amz-copy-source-server-side-encryption-customer-algorithm"

abbrev pub hdr_copy_source : Text
hdr_copy_source = codes "x-amz-copy-source"

abbrev pub hdr_bypass_governance_retention : Text
hdr_bypass_governance_retention = codes "x-amz-bypass-governance-retention"

-- `checkSSEC`.
unfoldable pub check_ssec : SignedHeader → Outcome (Unit {0})
unfolding attribute
check_ssec h =
    fail_if
      (not (is_empty (attribute h hdr_ssec_algo))
        || not (is_empty (attribute h hdr_copy_ssec_algo)))
      not_implemented

abbrev pub invalid_argument : S3Error
invalid_argument = new_error 400 "InvalidArgument" no_cause

-- `checkSSE`.
unfoldable pub check_sse : SignedHeader → Outcome (Unit {0})
unfolding signed
check_sse h = do
  let v = signed h hdr_sse
  fail_if (not (is_empty v || text_eq v (codes "AES256") || text_eq v (codes "aws:kms")))
      invalid_argument
  fail_if (not (is_empty (signed h hdr_sse_kms_key_id)) && not (text_eq v (codes "aws:kms")))
      invalid_argument

abbrev pub acl_not_supported : S3Error
acl_not_supported = new_error 400 "AccessControlListNotSupported" no_cause

abbrev acl_grant_headers : List Text
acl_grant_headers =
    codes "x-amz-grant-read"
    ∷ codes "x-amz-grant-write"
    ∷ codes "x-amz-grant-read-acp"
    ∷ codes "x-amz-grant-write-acp"
    ∷ codes "x-amz-grant-full-control"
    ∷ []

-- `checkACLHeader`.
unfoldable pub check_acl_header : SignedHeader → Outcome (Unit {0})
unfolding attribute attribute_values
check_acl_header h = do
  let acl = attribute h (codes "x-amz-acl")
  fail_if (any (λ name. not (is_empty (attribute_values h name))) acl_grant_headers)
      acl_not_supported
  fail_if
      (not (
        is_empty acl
        || text_eq acl (codes "private")
        || text_eq acl (codes "bucket-owner-full-control")))
      acl_not_supported

-- `bypassGovernanceRetention` of s3gw/objectlock.go.
unfoldable pub bypass_governance_retention : SignedHeader → Bool
unfolding signed
bypass_governance_retention h = text_eq (signed h hdr_bypass_governance_retention) (codes "true")
