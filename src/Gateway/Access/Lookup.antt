-- ===== src/Gateway/Access/Lookup.antt =====
-- s3gw/handler.go: `resolveBucket`.
use s3rp.Common.{none, some, if◌then◌else◌, Text}
use s3rp.Policy.Decide.{mentions_principal}
use s3rp.Store.{Bucket}
use s3rp.Gateway.Access.Reasons.{
  VerifiedRequest, principal, StoreError, not_found, unavailable, denied, store_error, S3Error,
  access_denied, internal_error, visibility_reason,
}

-- A lookup of the store: an entry, or its error.
pub data Found {ℓ} (A : Type ℓ) : Type ℓ where
  found : A → Found A
  failed : StoreError → Found A

-- What the gateway asks of `store.Store` about buckets.
pub record Buckets : Type 0 where
  pub get_bucket : Text → Text → Found Bucket
  pub get_bucket_by_name : Text → Found Bucket

-- What `resolveBucket` returns.
pub data Resolved : Type 0 where
  bucket : Bucket → Resolved
  unresolved : S3Error → Resolved

-- Another tenant's bucket, as far as its policy mentions the principal.
unfoldable pub visible : VerifiedRequest → Text → Bucket → Resolved
visible vr name b = elim b.policy [
  | none ↦ unresolved (access_denied (denied (visibility_reason (principal vr) name)))
  | some p ↦
      if mentions_principal p (principal vr)
      then bucket b
      else unresolved (access_denied (denied (visibility_reason (principal vr) name)))
]

unfoldable pub resolve_foreign : Buckets → VerifiedRequest → Text → Resolved
unfolding visible
resolve_foreign s vr name = elim (s.get_bucket_by_name name) [
  | found b ↦ visible vr name b
  | failed not_found ↦ unresolved (access_denied (store_error not_found))
  | failed unavailable ↦ unresolved (internal_error (store_error unavailable))
]

-- `Gateway.resolveBucket`.
unfoldable pub resolve_bucket : Buckets → VerifiedRequest → Text → Resolved
unfolding resolve_foreign
resolve_bucket s vr name = elim (s.get_bucket vr.tenant name) [
  | found b ↦ bucket b
  | failed not_found ↦ resolve_foreign s vr name
  | failed unavailable ↦ unresolved (internal_error (store_error unavailable))
]
