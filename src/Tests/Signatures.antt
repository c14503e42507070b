-- ===== src/Tests/Signatures.antt =====
-- Signatures of requests.
use s3rp.Common.{
  ℕ, ◌+◌, ◌≡◌, ◌↔◌, inl, inr, refl, Bool, true, false, ◌&&◌, some, none, List, [], ◌∷◌, ◌++◌,
  if◌then◌else◌, leb, ◌==◌, All, Text, codes, Bool-cases, arith, join, split, text_eq, trim_space,
  has_prefix,
}
use s3rp.Sigv4.Crypto.{derive_signing_key}
use s3rp.Sigv4.Http.{Library, Values, HttpRequest, canonical_header_key, all_token, canonical_bytes}
use s3rp.Sigv4.Canonical.{
  collapse_whitespace, collapse_runs, canonical_request, signature, check_signed_header_list,
}
use s3rp.Sigv4.Canonical.SignedList.{MaySign, Ordered, has_host, check_signed_header_list_iff}
use s3rp.Sigv4.Canonical.Whitespace.{IsCollapsed, collapse_whitespace_lem}
use s3rp.Sigv4.Signer.{SigningKeyId, SignerCache, Derived, derived_key, new_signer_cache, get}
use s3rp.Sigv4.Signer.Sound.{Sound, key_for, Gives, get-Sound}
use s3rp.Sigv4.Requests.{
  parse_authorization_header, has_unsigned_amz, lookup_secret, bad_session_token, Credential,
  SecretLookup, found, Checked, denied, accepted,
}
use s3rp.Sigv4.Verify.{Verifier, Verified}
use s3rp.Sigv4.Verify.Signed.{Faithful}
use s3rp.Sigv4.Presigned.{verify, as_duration, is_too_long, parse_expires}
use s3rp.Sigv4.Presigned.Promoted.{LowersCase}
use s3rp.Sigv4.Presigned.Authentic.{IsRight, verify-Authentic}
use s3rp.Tests.Chunks.{crypto}

lower_byte : ℕ → ℕ
lower_byte c = if leb b'A' c && leb c b'Z' then c + 32 else c

unfoldable pub ascii_lower : Text → Text
unfolding lower_byte
ascii_lower [] = []
ascii_lower (c ∷ s) = lower_byte c ∷ ascii_lower s

-- The one time of the tests is the year 2024, and now is a second later.
abbrev pub lib : Library
lib = record {
  to_lower = ascii_lower;
  parse_time = λ t. some 63871632000000000000;
  format_time = λ t. codes "20240101T000000Z";
  format_day = λ t. codes "20240101";
}

ascii_lower_idem : (t : Text) → ascii_lower (ascii_lower t) ≡ ascii_lower t
unfolding ascii_lower
ascii_lower_idem [] = refl
ascii_lower_idem (c ∷ s) = ground (arith, ascii_lower_idem s)

ascii_lower-canonical_bytes :
    (up : Bool) (t : Text) → ascii_lower (canonical_bytes up t) ≡ ascii_lower t
unfolding ascii_lower canonical_bytes
ascii_lower-canonical_bytes up [] = refl
ascii_lower-canonical_bytes up (c ∷ s) = ground (arith, ascii_lower-canonical_bytes (c == b'-') s)

ascii_lower-canonical : (t : Text) → ascii_lower (canonical_header_key t) ≡ ascii_lower t
unfolding canonical_header_key
ascii_lower-canonical t = elim (Bool-cases (all_token t)) [
  | inl token ↦ rw token (ascii_lower-canonical_bytes true t)
  | inr other ↦ rw other refl
]

pub lib-LowersCase : LowersCase lib
lib-LowersCase = record { idempotent = ascii_lower_idem; canonical = ascii_lower-canonical }

abbrev pub verifier : Verifier
verifier = record {
  crypto = crypto;
  lib = lib;
  hash = λ t. 0;
  region = codes "r";
  now = 63871632001000000000;
}

abbrev credential : Credential
credential = record {
  secret_access_key = codes "s";
  signing_key = none;
  secret_version = [];
  session_token = [];
}

abbrev pub lookup : SecretLookup
lookup akid token = found credential

abbrev headers : Values
headers =
    (codes "X-Amz-Date", codes "20240101T000000Z" ∷ [])
    ∷ (codes "X-Amz-Content-Sha256", codes "UNSIGNED-PAYLOAD" ∷ [])
    ∷ []

abbrev unsigned : HttpRequest
unsigned = record {
  method = codes "GET";
  request_uri = none;
  url = record { opaque_part = []; escaped_path = codes "/b/k"; query = []; url_host = [] };
  host = codes "h";
  header = headers;
  content_length = 0;
}

abbrev names : List Text
names = codes "host" ∷ codes "x-amz-content-sha256" ∷ codes "x-amz-date" ∷ []

-- The signature of the request.
unfoldable pub sign : Text
unfolding canonical_request derive_signing_key signature
sign = elim (canonical_request unsigned names [] (codes "UNSIGNED-PAYLOAD")) [
  | none ↦ []
  | some canonical ↦
      signature crypto (derive_signing_key crypto (codes "s") (codes "20240101") (codes "r"))
        (codes "20240101T000000Z") (codes "20240101/r/s3/aws4_request") canonical
]

unfoldable pub request : HttpRequest
unfolding sign
request = record unsigned {
  header =
      (
        codes "Authorization",
        (codes
                "AWS4-HMAC-SHA256 Credential=K/20240101/r/s3/aws4_request,SignedHeaders=host;x-amz-content-sha256;x-amz-date,Signature="
              ++ sign)
            ∷ [],
      )
      ∷ headers;
}

abbrev kms_key : Text
kms_key = codes "0123456789abcdef0123456789abcdef"

unfoldable pub kms_secrets : SigningKeyId → Text
kms_secrets id = kms_key

unfoldable pub cache : SignerCache
unfolding new_signer_cache
cache = new_signer_cache 1

pub cache-Sound : Sound crypto kms_secrets cache
unfolding cache new_signer_cache
cache-Sound i = inl refl

pub lookup-Faithful : Faithful lookup kms_secrets
lookup-Faithful akid token = tt

abbrev is_ok : Checked Verified → Bool
is_ok (denied e) = false
is_ok (accepted w) = true

-- `Verify` accepts it.
is_accepted : is_ok (verify verifier cache request lookup).0 ≡ true
unfolding verify request cache text_eq parse_authorization_header split trim_space crypto join
    has_unsigned_amz has_prefix ascii_lower lookup_secret bad_session_token check_signed_header_list
is_accepted = refl

verify-Authentic_example :
    IsRight verifier kms_secrets lookup request (verify verifier cache request lookup)
verify-Authentic_example =
    verify-Authentic verifier kms_secrets lookup cache request lookup-Faithful lib-LowersCase
      cache-Sound

-- More seconds than there are in a week, of which the multiplication in 64 bits makes a day.
wraps_around :
    (parse_expires (codes "18446830474") ≡ some 18446830474)
    × (is_too_long (as_duration 18446830474) ≡ false)
unfolding parse_expires as_duration
wraps_around = (refl, refl)

check_signed_header_list_iff_example :
    (check_signed_header_list lib names ≡ true)
    ↔ (All (MaySign lib) names × Ordered names × (has_host names ≡ true))
check_signed_header_list_iff_example = check_signed_header_list_iff lib names

abbrev spaced : Text
spaced = codes " a  b " ++ (9 ∷ codes "c")

collapses_spaces :
    (collapse_whitespace spaced ≡ collapse_runs false (trim_space spaced))
    × IsCollapsed (collapse_whitespace spaced)
collapses_spaces = collapse_whitespace_lem spaced

abbrev key_id : SigningKeyId
key_id = record {
  access_key_id = codes "K";
  version = codes "1";
  date = codes "20240101";
  region = codes "r";
  derived = true;
}

-- A function that gives the key of the secret whose version is 1.
abbrev from_kms : Text → Text → Derived
from_kms date region = derived_key kms_key

gets_the_key :
    Sound crypto kms_secrets (get crypto (λ t. 7) cache key_id from_kms).1
    × Gives (get crypto (λ t. 7) cache key_id from_kms).0 (key_for crypto kms_secrets key_id)
unfolding kms_secrets
gets_the_key =
    get-Sound crypto kms_secrets (λ t. 7) cache key_id from_kms refl (inl refl) cache-Sound
