-- ===== src/Store.antt =====
-- store/store.go and store/validate.go: buckets, backends, and the names that a store may hold.
pub mod Principals
use s3rp.Common.{
  ℕ, Bool, true, false, not, ◌&&◌, ◌||◌, Option, none, some, List, [], ◌∷◌, ◌++◌, leb, ltb, ◌==◌,
  if◌then◌else◌, is_empty, length, Text, codes, text_eq, has_prefix,
}
use s3rp.Policy.Document.{Platform, Policy}
use s3rp.Policy.Statement.{lower_runes}
use s3rp.Policy.Validate.{is_principal_part, is_name_start, is_name_byte}
use s3rp.Cors.{Rule}

pub record Backend : Type 0 where
  pub endpoint : Text
  pub region : Text
  pub bucket : Text
  pub access_key_id : Text
  pub secret_access_key : Text
  pub use_path_style : Option Bool

pub record Bucket : Type 0 where
  pub tenant : Text
  pub name : Text
  pub backend : Backend
  pub policy_text : Text
  pub policy : Option Policy
  pub cors : List Rule

abbrev or_default : Text → Text → Text
or_default t d = if is_empty t then d else t

abbrev or_path_style : Option Bool → Bool → Option Bool
or_path_style none b = some b
or_path_style (some b) _ = some b

-- `Backend.SetDefaults`.
unfoldable pub set_defaults : Text → Backend → Backend
set_defaults bucket_name b = record b {
  region = or_default b.region (codes "us-east-1");
  bucket = or_default b.bucket bucket_name;
  use_path_style = or_path_style b.use_path_style (not (is_empty b.endpoint));
}

-- `Backend.IsHTTPS`. The prefix is ASCII, so it is one of the bytes exactly if of the runes.
unfoldable pub is_https : Platform → Backend → Bool
is_https std b =
    if is_empty b.endpoint then true else has_prefix (codes "https://") (lower_runes std b.endpoint)

is_bucket_byte : ℕ → Bool
unfolding is_name_start
is_bucket_byte c = is_name_start c || c == b'-'

-- The rest of a bucket name behind its first byte, which ends in a letter or a digit.
bucket_rest : Text → Bool
unfolding is_bucket_byte is_name_start
bucket_rest [] = false
bucket_rest (c ∷ []) = is_name_start c
bucket_rest (c ∷ d ∷ s) = is_bucket_byte c && bucket_rest (d ∷ s)

starts_name : Text → Bool
unfolding is_name_start
starts_name [] = false
starts_name (c ∷ s) = is_name_start c

abbrev tail_of : Text → Text
tail_of [] = []
tail_of (_ ∷ s) = s

-- `ValidateBucketName`: whether the name matches `bucketNameRegexp`, of 3 to 63 bytes.
unfoldable pub validate_bucket_name : Text → Bool
unfolding bucket_rest starts_name
validate_bucket_name name =
    leb 3 (length name) && leb (length name) 63 && starts_name name && bucket_rest (tail_of name)

-- `ValidateTenantName` and `ValidateUserName`.
unfoldable pub validate_tenant_name : Text → Bool
validate_tenant_name name = is_principal_part name

unfoldable pub validate_user_name : Text → Bool
validate_user_name name = is_principal_part name

-- `verifiedRequest.principal` of s3gw/auth.go: "tenant/user".
unfoldable pub qualified : Text → Text → Text
qualified tenant user = tenant ++ (b'/' ∷ user)
