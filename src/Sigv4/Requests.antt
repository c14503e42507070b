-- ===== src/Sigv4/Requests.antt =====
-- sigv4/sigv4.go and sigv4/authfailure.go: the errors of a verification, credentials and how they
-- are looked up, and the Authorization header. Messages are not modelled.
use Prim.Native.String.{String}
use s3rp.Common.{
  ◌⊎◌, inl, inr, ℕ, ◌≡◌, refl, Bool, true, false, not, ◌&&◌, ◌||◌, Option, none, some, List, [],
  ◌∷◌, map, if◌then◌else◌, is_empty, any, Text, codes, text_eq, cut, split, join, trim_space,
  has_prefix, arith,
}
use s3rp.Sigv4.Crypto.{Crypto}
use s3rp.Sigv4.Http.{Library, Values}
use s3rp.Sigv4.Signer.{SigningKeyFunc}

-- `AuthFailure.Reason`.
pub data Reason : Type 0 where
  no_auth unknown_key invalid_token signature_mismatch unsigned_headers : Reason
  expired not_yet_valid time_skewed post_policy : Reason

pub record AuthError : Type 0 where
  pub status : ℕ
  pub code : String
  pub reason : Option Reason

abbrev pub auth_error : ℕ → String → AuthError
auth_error status code = record { status = status; code = code; reason = none }

abbrev pub auth_failure : ℕ → String → Reason → AuthError
auth_failure status code reason = record { status = status; code = code; reason = some reason }

abbrev pub internal_error : AuthError
internal_error = auth_error 500 "InternalError"

abbrev pub header_malformed : AuthError
header_malformed = auth_error 400 "AuthorizationHeaderMalformed"

abbrev pub query_params_error : AuthError
query_params_error = auth_error 400 "AuthorizationQueryParametersError"

abbrev pub invalid_request : AuthError
invalid_request = auth_error 400 "InvalidRequest"

-- `InvalidAccessKeyID`, `invalidTokenError` and `SignatureDoesNotMatch`, with their causes.
abbrev pub unknown_key_error : AuthError
unknown_key_error = auth_failure 403 "InvalidAccessKeyId" unknown_key

abbrev pub invalid_token_error : AuthError
invalid_token_error = auth_failure 400 "InvalidToken" invalid_token

abbrev pub mismatch_error : AuthError
mismatch_error = auth_failure 403 "SignatureDoesNotMatch" signature_mismatch

pub data Checked {ℓ} (X : Type ℓ) : Type ℓ where
  denied : AuthError → Checked X
  accepted : X → Checked X

-- `if bad { return err }`, a value or an error, and what follows either.
abbrev pub refuse_if {ℓ} : {X : Type ℓ} → Bool → AuthError → Checked X → Checked X
refuse_if true e later = denied e
refuse_if false e later = later

abbrev pub proceed {ℓ κ} : {X : Type ℓ} {Y : Type κ} → Checked X → (X → Checked Y) → Checked Y
proceed (denied e) later = denied e
proceed (accepted x) later = later x

abbrev pub or_refuse {ℓ} : {X : Type ℓ} → Option X → AuthError → Checked X
or_refuse none e = denied e
or_refuse (some x) e = accepted x

pub Checked-cases {ℓ} :
    {X : Type ℓ} (c : Checked X) → ((e : AuthError) × (c ≡ denied e)) ⊎ ((x : X) × (c ≡ accepted x))
Checked-cases (denied e) = inl (e, refl)
Checked-cases (accepted x) = inr (x, refl)

pub refuse_if-accepted {ℓ} :
    {X : Type ℓ} (bad : Bool) (e : AuthError) (later : Checked X) (x : X)
    → refuse_if bad e later ≡ accepted x
    → (bad ≡ false) × (later ≡ accepted x)
refuse_if-accepted true e later x h = absurd (ground arith)
refuse_if-accepted false e later x h = (refl, h)

pub proceed-accepted {ℓ κ} :
    {X : Type ℓ} {Y : Type κ} (c : Checked X) (later : X → Checked Y) (y : Y)
    → proceed c later ≡ accepted y
    → (x : X) × (c ≡ accepted x) × (later x ≡ accepted y)
proceed-accepted (denied e) later y h = absurd (ground arith)
proceed-accepted (accepted x) later y h = (x, refl, h)

pub or_refuse-accepted {ℓ} :
    {X : Type ℓ} (o : Option X) (e : AuthError) (x : X) → or_refuse o e ≡ accepted x → o ≡ some x
or_refuse-accepted none e x h = absurd (ground arith)
or_refuse-accepted (some y) e x h = ground arith

-- `authHeader`; its list is empty until SignedHeaders is read.
pub record AuthHeader : Type 0 where
  pub access_key_id : Text
  pub date : Text
  pub region : Text
  pub service : Text
  pub signed_headers : List Text
  pub signature : Text

abbrev pub scope_of : Text → Text → Text → Text
unfolding join
scope_of date region service =
    join (codes "/") (date ∷ region ∷ service ∷ codes "aws4_request" ∷ [])

-- `Credential` in the header, onto what is read; `none` is the error.
unfoldable pub with_credential : List Text → AuthHeader → Option AuthHeader
with_credential (akid ∷ date ∷ region ∷ service ∷ last ∷ []) a =
    if not (text_eq last (codes "aws4_request"))
    then none
    else some (record a { access_key_id = akid; date = date; region = region; service = service })
with_credential _ a = none

-- One component of the header.
unfoldable pub add_component : Text → AuthHeader → Option AuthHeader
unfolding with_credential
add_component part a =
    let (key, value, ok) = cut b'=' (trim_space part) in
    if not ok
    then none
    else if text_eq key (codes "Credential")
    then with_credential (split b'/' value) a
    else if text_eq key (codes "SignedHeaders")
    then some (record a { signed_headers = split b';' value })
    else if text_eq key (codes "Signature")
    then some (record a { signature = value })
    else none

add_components : List Text → AuthHeader → Option AuthHeader
unfolding add_component
add_components [] a = some a
add_components (part ∷ parts) a = elim (add_component part a) [
  | none ↦ none
  | some b ↦ add_components parts b
]

-- `parseAuthorizationHeader`.
unfoldable pub parse_authorization_header : Text → Option AuthHeader
unfolding add_components
parse_authorization_header v =
    let (algo, rest, ok) = cut 32 v in
    if not ok || not (text_eq algo (codes "AWS4-HMAC-SHA256"))
    then none
    else elim (add_components (split b',' rest) (record {
      access_key_id = [];
      date = [];
      region = [];
      service = [];
      signed_headers = [];
      signature = [];
    })) [
      | none ↦ none
      | some a ↦
          if is_empty a.access_key_id || is_empty a.signed_headers || is_empty a.signature
          then none
          else some a
    ]

-- `Credential`; no `SigningKey` is nil.
pub record Credential : Type 0 where
  pub secret_access_key : Text
  pub signing_key : Option SigningKeyFunc
  pub secret_version : Text
  pub session_token : Text

-- What a `SecretLookup` returns: a credential, `ErrUnknownKey`, `ErrInvalidToken`, another error.
pub data Lookup : Type 0 where
  found : Credential → Lookup
  key_unknown token_invalid lookup_failed : Lookup

abbrev pub SecretLookup : Type 0
SecretLookup = Text → Text → Lookup

abbrev pub is_missing {ℓ} : {X : Type ℓ} → Option X → Bool
is_missing none = true
is_missing (some _) = false

abbrev same : Bool → Bool → Bool
same true b = b
same false b = not b

-- `lookupSecret`.
unfoldable pub lookup_secret : SecretLookup → Text → Text → Checked Credential
lookup_secret lookup access_key_id session_token = elim (lookup access_key_id session_token) [
  | key_unknown ↦ denied unknown_key_error
  | token_invalid ↦ denied invalid_token_error
  | lookup_failed ↦ denied internal_error
  | found cred ↦
      refuse_if
        (same (is_missing cred.signing_key) (is_empty cred.secret_access_key)
          || (not (is_missing cred.signing_key) && is_empty cred.secret_version))
        internal_error (accepted cred)
]

-- `validateSessionToken`, whose nil is false.
unfoldable pub bad_session_token : Crypto → Text → Text → Bool
bad_session_token cr expected presented =
    not (is_empty expected && is_empty presented)
    && not (text_eq (cr.sha256 expected) (cr.sha256 presented))

-- `requireSignedAmzHeaders`, whose nil is false: whether the headers have one that starts with
-- "x-amz-" and is not signed.
unfoldable pub has_unsigned_amz : Library → Values → List Text → Bool
has_unsigned_amz lib [] signed_headers = false
has_unsigned_amz lib ((name, _) ∷ header) signed_headers =
    (has_prefix (codes "x-amz-") (lib.to_lower name)
      && not (any (λ n. text_eq n (lib.to_lower name)) (map lib.to_lower signed_headers)))
    || has_unsigned_amz lib header signed_headers
