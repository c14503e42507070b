-- ===== src/Sigv4/Crypto.antt =====
-- What the package sigv4 takes from the cryptography and the text functions of the Go library, and
-- the derivation of a signing key.
use s3rp.Common.{ℕ, ◌+◌, ◌/◌, ◌%◌, [], ◌∷◌, ◌++◌, Bool, if◌then◌else◌, ltb, Text, codes}

-- HMAC-SHA256 of a key and a message, SHA-256, `strings.EqualFold`, and the base64 of the checksum
-- that an algorithm computes.
pub record Crypto : Type 0 where
  pub hmac : Text → Text → Text
  pub sha256 : Text → Text
  pub equal_fold : Text → Text → Bool
  pub checksum : Text → Text → Text

abbrev hex_digit : ℕ → ℕ
hex_digit n = if ltb n 10 then n + b'0' else n + 87

-- `hex.EncodeToString`.
unfoldable pub to_hex : Text → Text
to_hex [] = []
to_hex (b ∷ s) = hex_digit (b / 16) ∷ hex_digit (b % 16) ∷ to_hex s

-- `SigningKeyFromDateKey`, and `deriveSigningKey`.
unfoldable pub signing_key_from_date_key : Crypto → Text → Text → Text
signing_key_from_date_key cr date_key region =
    cr.hmac (cr.hmac (cr.hmac date_key region) (codes "s3")) (codes "aws4_request")

unfoldable pub derive_signing_key : Crypto → Text → Text → Text → Text
unfolding signing_key_from_date_key
derive_signing_key cr secret date region =
    signing_key_from_date_key cr (cr.hmac (codes "AWS4" ++ secret) date) region
