-- ===== src/Catalog/Operations.antt =====
-- s3op/s3op_gen.go: the catalog itself.
use Prim.Native.String.{String}
use s3rp.Common.{Option, List, [], ◌∷◌, ◌++◌, Text, codes}
use s3rp.Catalog.{
  Scope, scope_service, scope_bucket, scope_object, Support, supported, refused_operation, Resource,
  on_target, on_copy_source, on_each_key, Authorization, Operation, find_operation,
}

abbrev row : String → Resource → String → String → Authorization
row action on version_action header = record {
  action = codes action;
  on = on;
  version_action = codes version_action;
  header = codes header;
}

abbrev plain : String → Authorization
plain action = row action on_target "" ""

abbrev versioned_by : String → String → Authorization
versioned_by action version_action = row action on_target version_action ""

abbrev with_header : String → String → Authorization
with_header action header = row action on_target "" header

abbrev operation : String → Scope → Support → List Authorization → Operation
operation name scope support authorizations = record {
  name = codes name;
  scope = scope;
  support = support;
  authorizations = authorizations;
}

-- The operations on the service and on a bucket.
abbrev service_and_bucket_operations : List Operation
service_and_bucket_operations =
    operation "ListBuckets" scope_service supported (plain "s3:ListAllMyBuckets" ∷ [])
    ∷ operation "HeadBucket" scope_bucket supported (plain "s3:ListBucket" ∷ [])
    ∷ operation "ListObjects" scope_bucket supported (plain "s3:ListBucket" ∷ [])
    ∷ operation "ListObjectsV2" scope_bucket supported (plain "s3:ListBucket" ∷ [])
    ∷ operation "ListObjectVersions" scope_bucket supported (plain "s3:ListBucketVersions" ∷ [])
    ∷ operation "ListMultipartUploads" scope_bucket supported
        (plain "s3:ListBucketMultipartUploads" ∷ [])
    ∷ operation "GetBucketLocation" scope_bucket supported (plain "s3:GetBucketLocation" ∷ [])
    ∷ operation "GetBucketAcl" scope_bucket supported (plain "s3:GetBucketAcl" ∷ [])
    ∷ operation "GetBucketPolicy" scope_bucket supported (plain "s3:GetBucketPolicy" ∷ [])
    ∷ operation "GetBucketPolicyStatus" scope_bucket supported
        (plain "s3:GetBucketPolicyStatus" ∷ [])
    ∷ operation "GetBucketCors" scope_bucket supported (plain "s3:GetBucketCORS" ∷ [])
    ∷ operation "GetBucketVersioning" scope_bucket supported (plain "s3:GetBucketVersioning" ∷ [])
    ∷ operation "GetBucketEncryption" scope_bucket supported
        (plain "s3:GetEncryptionConfiguration" ∷ [])
    ∷ operation "GetBucketOwnershipControls" scope_bucket supported
        (plain "s3:GetBucketOwnershipControls" ∷ [])
    ∷ operation "GetPublicAccessBlock" scope_bucket supported
        (plain "s3:GetBucketPublicAccessBlock" ∷ [])
    ∷ operation "GetObjectLockConfiguration" scope_bucket supported
        (plain "s3:GetBucketObjectLockConfiguration" ∷ [])
    ∷ operation "DeleteObjects" scope_bucket supported (
        row "s3:DeleteObject" on_each_key "s3:DeleteObjectVersion" ""
        ∷ row "s3:BypassGovernanceRetention" on_each_key "" "x-amz-bypass-governance-retention"
        ∷ [])
    ∷ operation "PostObject" scope_bucket supported
        (plain "s3:PutObject" ∷ with_header "s3:PutObjectTagging" "x-amz-tagging" ∷ [])
    ∷ []

-- The operations on a bucket that the gateway refuses.
abbrev refused_bucket_operations : List Operation
refused_bucket_operations =
    operation "CreateBucket" scope_bucket refused_operation []
    ∷ operation "DeleteBucket" scope_bucket refused_operation []
    ∷ operation "PutBucketAcl" scope_bucket refused_operation []
    ∷ operation "PutBucketPolicy" scope_bucket refused_operation []
    ∷ operation "DeleteBucketPolicy" scope_bucket refused_operation []
    ∷ operation "PutBucketCors" scope_bucket refused_operation []
    ∷ operation "DeleteBucketCors" scope_bucket refused_operation []
    ∷ operation "PutBucketVersioning" scope_bucket refused_operation []
    ∷ operation "PutObjectLockConfiguration" scope_bucket refused_operation []
    ∷ operation "PutBucketEncryption" scope_bucket refused_operation []
    ∷ operation "DeleteBucketEncryption" scope_bucket refused_operation []
    ∷ operation "PutBucketOwnershipControls" scope_bucket refused_operation []
    ∷ operation "DeleteBucketOwnershipControls" scope_bucket refused_operation []
    ∷ operation "PutPublicAccessBlock" scope_bucket refused_operation []
    ∷ operation "DeletePublicAccessBlock" scope_bucket refused_operation []
    ∷ []

-- The operations on an object.
abbrev object_operations : List Operation
object_operations =
    operation "GetObject" scope_object supported
      (versioned_by "s3:GetObject" "s3:GetObjectVersion" ∷ [])
    ∷ operation "HeadObject" scope_object supported
        (versioned_by "s3:GetObject" "s3:GetObjectVersion" ∷ [])
    ∷ operation "GetObjectAttributes" scope_object supported
        (versioned_by "s3:GetObject" "s3:GetObjectVersion" ∷ [])
    ∷ operation "PutObject" scope_object supported (
        plain "s3:PutObject"
        ∷ with_header "s3:PutObjectTagging" "x-amz-tagging"
        ∷ with_header "s3:PutObjectRetention" "x-amz-object-lock-mode"
        ∷ with_header "s3:PutObjectRetention" "x-amz-object-lock-retain-until-date"
        ∷ with_header "s3:PutObjectLegalHold" "x-amz-object-lock-legal-hold"
        ∷ [])
    ∷ operation "CopyObject" scope_object supported (
        plain "s3:PutObject"
        ∷ with_header "s3:PutObjectTagging" "x-amz-tagging"
        ∷ with_header "s3:PutObjectRetention" "x-amz-object-lock-mode"
        ∷ with_header "s3:PutObjectRetention" "x-amz-object-lock-retain-until-date"
        ∷ with_header "s3:PutObjectLegalHold" "x-amz-object-lock-legal-hold"
        ∷ row "s3:GetObject" on_copy_source "s3:GetObjectVersion" ""
        ∷ [])
    ∷ operation "DeleteObject" scope_object supported (
        versioned_by "s3:DeleteObject" "s3:DeleteObjectVersion"
        ∷ with_header "s3:BypassGovernanceRetention" "x-amz-bypass-governance-retention"
        ∷ [])
    ∷ operation "GetObjectTagging" scope_object supported
        (versioned_by "s3:GetObjectTagging" "s3:GetObjectVersionTagging" ∷ [])
    ∷ operation "PutObjectTagging" scope_object supported
        (versioned_by "s3:PutObjectTagging" "s3:PutObjectVersionTagging" ∷ [])
    ∷ operation "DeleteObjectTagging" scope_object supported
        (versioned_by "s3:DeleteObjectTagging" "s3:DeleteObjectVersionTagging" ∷ [])
    ∷ operation "GetObjectAcl" scope_object supported
        (versioned_by "s3:GetObjectAcl" "s3:GetObjectVersionAcl" ∷ [])
    ∷ operation "GetObjectRetention" scope_object supported (plain "s3:GetObjectRetention" ∷ [])
    ∷ operation "PutObjectRetention" scope_object supported (
        plain "s3:PutObjectRetention"
        ∷ with_header "s3:BypassGovernanceRetention" "x-amz-bypass-governance-retention"
        ∷ [])
    ∷ operation "GetObjectLegalHold" scope_object supported (plain "s3:GetObjectLegalHold" ∷ [])
    ∷ operation "PutObjectLegalHold" scope_object supported (plain "s3:PutObjectLegalHold" ∷ [])
    ∷ operation "PutObjectAcl" scope_object refused_operation []
    ∷ operation "CreateMultipartUpload" scope_object supported (
        plain "s3:PutObject"
        ∷ with_header "s3:PutObjectTagging" "x-amz-tagging"
        ∷ with_header "s3:PutObjectRetention" "x-amz-object-lock-mode"
        ∷ with_header "s3:PutObjectRetention" "x-amz-object-lock-retain-until-date"
        ∷ with_header "s3:PutObjectLegalHold" "x-amz-object-lock-legal-hold"
        ∷ [])
    ∷ operation "UploadPart" scope_object supported (plain "s3:PutObject" ∷ [])
    ∷ operation "UploadPartCopy" scope_object supported
        (plain "s3:PutObject" ∷ row "s3:GetObject" on_copy_source "s3:GetObjectVersion" "" ∷ [])
    ∷ operation "CompleteMultipartUpload" scope_object supported (plain "s3:PutObject" ∷ [])
    ∷ operation "AbortMultipartUpload" scope_object supported (plain "s3:AbortMultipartUpload" ∷ [])
    ∷ operation "ListParts" scope_object supported (plain "s3:ListMultipartUploadParts" ∷ [])
    ∷ []

abbrev pub operations : List Operation
operations = service_and_bucket_operations ++ (refused_bucket_operations ++ object_operations)

-- `Lookup`.
unfoldable pub lookup : Text → Option Operation
unfolding find_operation
lookup name = find_operation operations name
