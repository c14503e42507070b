-- ===== src/Gateway/Identity.antt =====
-- s3gw/auth.go: the identity behind a verified signature.
use s3rp.Common.{◌≡◌, Option, none, some, Text, arith}
use s3rp.Policy.Document.{Addr}
use s3rp.Policy.User.{UserPolicy}
use s3rp.Sigv4.Signer.{SigningKeyFunc}
use s3rp.Sigv4.Requests.{
  AuthError, Checked, denied, accepted, found, key_unknown, token_invalid, lookup_failed,
  SecretLookup,
}
use s3rp.Gateway.Access.{no_cause, VerifiedRequest, S3Error}
use s3rp.Gateway.Outcome.{Outcome, returns, fails, new_error}

-- `store.Key`; its key function is the verifier's, with `ErrNotFound` as an unknown key.
pub record StoreKey : Type 0 where
  pub tenant : Text
  pub user : Text
  pub user_policy : Option UserPolicy
  pub secret_access_key : Text
  pub signing_key : Option SigningKeyFunc
  pub secret_version : Text
  pub session_token : Text

-- What `store.Store.GetKey` returns: a key, `ErrNotFound`, `ErrInvalidToken`, another error.
pub data StoredKey : Type 0 where
  stored : StoreKey → StoredKey
  not_stored token_refused store_failed : StoredKey

abbrev pub KeyStore : Type 0
KeyStore = Text → Text → StoredKey

-- `secretLookup`, the credential that it returns.
unfoldable pub secret_lookup : KeyStore → SecretLookup
secret_lookup get_key access_key_id session_token = elim (get_key access_key_id session_token) [
  | not_stored ↦ key_unknown
  | token_refused ↦ token_invalid
  | store_failed ↦ lookup_failed
  | stored k ↦ found (record {
    secret_access_key = k.secret_access_key;
    signing_key = k.signing_key;
    secret_version = k.secret_version;
    session_token = k.session_token;
  })
]

-- The key that `secretLookup` captures in its one call, of the id and the token presented. The
-- pointer is nil without a key, and its use panics.
unfoldable pub captured : KeyStore → Text → Text → Option StoreKey
captured get_key access_key_id session_token = elim (get_key access_key_id session_token) [
  | stored k ↦ some k
  | not_stored ↦ none
  | token_refused ↦ none
  | store_failed ↦ none
]

-- The `verifiedRequest` of a key and the client's address.
unfoldable pub identify : StoreKey → Addr → VerifiedRequest
identify k source_ip = record {
  tenant = k.tenant;
  user = k.user;
  user_policy = k.user_policy;
  source_ip = source_ip;
}

-- An error of the verifier as the gateway's, without its cause.
abbrev pub s3_error : AuthError → S3Error
s3_error e = new_error e.status e.code no_cause

abbrev pub as_outcome {ℓ} : {X : Type ℓ} → Checked X → Outcome X
as_outcome (denied e) = fails (s3_error e)
as_outcome (accepted x) = returns x

pub as_outcome-accepted {ℓ} :
    {X : Type ℓ} (c : Checked X) (x : X) → as_outcome c ≡ returns x → c ≡ accepted x
as_outcome-accepted (denied e) x h = absurd (ground arith)
as_outcome-accepted (accepted y) x h = ground arith
