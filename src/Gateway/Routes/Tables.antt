-- ===== src/Gateway/Routes/Tables.antt =====
-- s3gw/handler.go: `bucketRoutes` and `objectRoutes`, before `bindRoutes`.
use Prim.Native.String.{String}
use s3rp.Common.{
  Bool, true, false, ◌||◌, Option, none, some, List, [], ◌∷◌, if◌then◌else◌, is_empty, Text, codes,
  text_eq,
}
use s3rp.Gateway.Routes.{
  Query, has, query_get, Handler, method, reject_acl, refuses, Route, op_unknown,
}

unfoldable has_list_type_v2 : Query → Bool
unfolding query_get
has_list_type_v2 q = text_eq (query_get (codes "list-type") q) (codes "2")

unfoldable has_upload_part : Query → Bool
unfolding has
has_upload_part q = has (codes "uploadId") q || has (codes "partNumber") q

unfoldable no_query : Query → Bool
no_query q = is_empty q

abbrev plain_route : Option (Query → Bool) → Option (List Text) → String → Handler → Route
plain_route selects params name handle = record {
  selects = selects;
  params = params;
  acl_hdr = false;
  attrs = false;
  name = codes name;
  copy = [];
  handle = handle;
  action = [];
  version_action = [];
  hdr_actions = [];
  copy_action = [];
  copy_version_action = [];
}

-- `notImplemented` and `unknownOperation`.
abbrev not_implemented_route : (Query → Bool) → String → Route
not_implemented_route selects name = plain_route (some selects) none name refuses

abbrev unknown_operation : Route
unknown_operation = record (plain_route none none "" refuses) { name = op_unknown }

-- `bucketRoutes` at `http.MethodGet`.
unfoldable pub get_bucket_routes : List Route
unfolding has has_list_type_v2 has_upload_part no_query
get_bucket_routes =
    plain_route (some (has (codes "uploads")))
      (some (
        codes "uploads"
        ∷ codes "prefix"
        ∷ codes "delimiter"
        ∷ codes "key-marker"
        ∷ codes "upload-id-marker"
        ∷ codes "max-uploads"
        ∷ codes "encoding-type"
        ∷ []))
      "ListMultipartUploads" (method (codes "listMultipartUploads"))
    ∷ plain_route (some (has (codes "location"))) (some (codes "location" ∷ [])) "GetBucketLocation"
        (method (codes "getBucketLocation"))
    ∷ plain_route (some (has (codes "acl"))) (some (codes "acl" ∷ [])) "GetBucketAcl"
        (method (codes "getBucketACL"))
    ∷ plain_route (some (has (codes "policy"))) (some (codes "policy" ∷ [])) "GetBucketPolicy"
        (method (codes "getBucketPolicy"))
    ∷ plain_route (some (has (codes "cors"))) (some (codes "cors" ∷ [])) "GetBucketCors"
        (method (codes "getBucketCors"))
    ∷ plain_route (some (has (codes "object-lock"))) (some (codes "object-lock" ∷ []))
        "GetObjectLockConfiguration" (method (codes "getObjectLockConfiguration"))
    ∷ plain_route (some (has (codes "versioning"))) (some (codes "versioning" ∷ []))
        "GetBucketVersioning" (method (codes "getBucketVersioning"))
    ∷ plain_route (some (has (codes "encryption"))) (some (codes "encryption" ∷ []))
        "GetBucketEncryption" (method (codes "getBucketEncryption"))
    ∷ plain_route (some (has (codes "policyStatus"))) (some (codes "policyStatus" ∷ []))
        "GetBucketPolicyStatus" (method (codes "getBucketPolicyStatus"))
    ∷ plain_route (some (has (codes "ownershipControls"))) (some (codes "ownershipControls" ∷ []))
        "GetBucketOwnershipControls" (method (codes "getBucketOwnershipControls"))
    ∷ plain_route (some (has (codes "publicAccessBlock"))) (some (codes "publicAccessBlock" ∷ []))
        "GetPublicAccessBlock" (method (codes "getPublicAccessBlock"))
    ∷ plain_route (some (has (codes "versions")))
        (some (
          codes "versions"
          ∷ codes "prefix"
          ∷ codes "delimiter"
          ∷ codes "key-marker"
          ∷ codes "version-id-marker"
          ∷ codes "max-keys"
          ∷ codes "encoding-type"
          ∷ []))
        "ListObjectVersions" (method (codes "listObjectVersions"))
    ∷ plain_route (some has_list_type_v2)
        (some (
          codes "list-type"
          ∷ codes "prefix"
          ∷ codes "delimiter"
          ∷ codes "max-keys"
          ∷ codes "continuation-token"
          ∷ codes "start-after"
          ∷ codes "fetch-owner"
          ∷ codes "encoding-type"
          ∷ []))
        "ListObjectsV2" (method (codes "listObjectsV2"))
    ∷ plain_route none
        (some (
          codes "prefix"
          ∷ codes "delimiter"
          ∷ codes "marker"
          ∷ codes "max-keys"
          ∷ codes "encoding-type"
          ∷ []))
        "ListObjects" (method (codes "listObjectsV1"))
    ∷ []

-- `bucketRoutes` at `http.MethodHead`.
unfoldable pub head_bucket_routes : List Route
unfolding has has_list_type_v2 has_upload_part no_query
head_bucket_routes = plain_route none none "HeadBucket" (method (codes "headBucket")) ∷ []

-- `bucketRoutes` at `http.MethodPut`.
unfoldable pub put_bucket_routes : List Route
unfolding has has_list_type_v2 has_upload_part no_query
put_bucket_routes =
    plain_route (some (has (codes "acl"))) none "PutBucketAcl" reject_acl
    ∷ not_implemented_route ((has (codes "versioning"))) "PutBucketVersioning"
    ∷ not_implemented_route ((has (codes "object-lock"))) "PutObjectLockConfiguration"
    ∷ not_implemented_route ((has (codes "policy"))) "PutBucketPolicy"
    ∷ not_implemented_route ((has (codes "cors"))) "PutBucketCors"
    ∷ not_implemented_route ((has (codes "encryption"))) "PutBucketEncryption"
    ∷ not_implemented_route ((has (codes "ownershipControls"))) "PutBucketOwnershipControls"
    ∷ not_implemented_route ((has (codes "publicAccessBlock"))) "PutPublicAccessBlock"
    ∷ not_implemented_route (no_query) "CreateBucket"
    ∷ unknown_operation
    ∷ []

-- `bucketRoutes` at `http.MethodDelete`.
unfoldable pub delete_bucket_routes : List Route
unfolding has has_list_type_v2 has_upload_part no_query
delete_bucket_routes =
    not_implemented_route ((has (codes "policy"))) "DeleteBucketPolicy"
    ∷ not_implemented_route ((has (codes "cors"))) "DeleteBucketCors"
    ∷ not_implemented_route ((has (codes "encryption"))) "DeleteBucketEncryption"
    ∷ not_implemented_route ((has (codes "ownershipControls"))) "DeleteBucketOwnershipControls"
    ∷ not_implemented_route ((has (codes "publicAccessBlock"))) "DeletePublicAccessBlock"
    ∷ not_implemented_route (no_query) "DeleteBucket"
    ∷ unknown_operation
    ∷ []

-- `bucketRoutes` at `http.MethodPost`.
unfoldable pub post_bucket_routes : List Route
unfolding has has_list_type_v2 has_upload_part no_query
post_bucket_routes =
    plain_route (some (has (codes "delete"))) (some (codes "delete" ∷ [])) "DeleteObjects"
      (method (codes "deleteObjects"))
    ∷ unknown_operation
    ∷ []

abbrev pub bucket_routes_of : Text → Option (List Route)
bucket_routes_of verb =
    if text_eq verb (codes "GET")
    then some get_bucket_routes
    else if text_eq verb (codes "HEAD")
    then some head_bucket_routes
    else if text_eq verb (codes "PUT")
    then some put_bucket_routes
    else if text_eq verb (codes "DELETE")
    then some delete_bucket_routes
    else if text_eq verb (codes "POST")
    then some post_bucket_routes
    else none

-- `objectRoutes` at `http.MethodGet`.
unfoldable pub get_object_routes : List Route
unfolding has has_list_type_v2 has_upload_part no_query
get_object_routes =
    plain_route (some (has (codes "uploadId")))
      (some (codes "uploadId" ∷ codes "max-parts" ∷ codes "part-number-marker" ∷ [])) "ListParts"
      (method (codes "listParts"))
    ∷ plain_route (some (has (codes "tagging"))) (some (codes "tagging" ∷ codes "versionId" ∷ []))
        "GetObjectTagging" (method (codes "getObjectTagging"))
    ∷ plain_route (some (has (codes "acl"))) (some (codes "acl" ∷ codes "versionId" ∷ []))
        "GetObjectAcl" (method (codes "getObjectACL"))
    ∷ plain_route (some (has (codes "retention")))
        (some (codes "retention" ∷ codes "versionId" ∷ [])) "GetObjectRetention"
        (method (codes "getObjectRetention"))
    ∷ plain_route (some (has (codes "legal-hold")))
        (some (codes "legal-hold" ∷ codes "versionId" ∷ [])) "GetObjectLegalHold"
        (method (codes "getObjectLegalHold"))
    ∷ plain_route (some (has (codes "attributes")))
        (some (codes "attributes" ∷ codes "versionId" ∷ [])) "GetObjectAttributes"
        (method (codes "getObjectAttributes"))
    ∷ plain_route none
        (some (
          codes "versionId"
          ∷ codes "partNumber"
          ∷ codes "response-content-type"
          ∷ codes "response-content-disposition"
          ∷ codes "response-cache-control"
          ∷ codes "response-content-encoding"
          ∷ codes "response-content-language"
          ∷ codes "response-expires"
          ∷ []))
        "GetObject" (method (codes "getObject"))
    ∷ []

-- `objectRoutes` at `http.MethodHead`.
unfoldable pub head_object_routes : List Route
unfolding has has_list_type_v2 has_upload_part no_query
head_object_routes =
    plain_route none (some (codes "versionId" ∷ codes "partNumber" ∷ [])) "HeadObject"
      (method (codes "headObject"))
    ∷ []

-- `objectRoutes` at `http.MethodPut`.
unfoldable pub put_object_routes : List Route
unfolding has has_list_type_v2 has_upload_part no_query
put_object_routes =
    plain_route (some (has (codes "tagging"))) (some (codes "tagging" ∷ codes "versionId" ∷ []))
      "PutObjectTagging" (method (codes "putObjectTagging"))
    ∷ plain_route (some (has (codes "acl"))) none "PutObjectAcl" reject_acl
    ∷ plain_route (some (has (codes "retention")))
        (some (codes "retention" ∷ codes "versionId" ∷ [])) "PutObjectRetention"
        (method (codes "putObjectRetention"))
    ∷ plain_route (some (has (codes "legal-hold")))
        (some (codes "legal-hold" ∷ codes "versionId" ∷ [])) "PutObjectLegalHold"
        (method (codes "putObjectLegalHold"))
    ∷ (record (plain_route (some has_upload_part)
        (some (codes "uploadId" ∷ codes "partNumber" ∷ [])) "UploadPart"
        (method (codes "uploadPartOrCopy"))) { copy = codes "UploadPartCopy" })
    ∷ (record (plain_route none (some []) "PutObject" (method (codes "putObjectOrCopy"))) {
      acl_hdr = true;
      attrs = true;
      copy = codes "CopyObject";
    })
    ∷ []

-- `objectRoutes` at `http.MethodDelete`.
unfoldable pub delete_object_routes : List Route
unfolding has has_list_type_v2 has_upload_part no_query
delete_object_routes =
    plain_route (some (has (codes "uploadId"))) (some (codes "uploadId" ∷ []))
      "AbortMultipartUpload" (method (codes "abortMultipartUpload"))
    ∷ plain_route (some (has (codes "tagging"))) (some (codes "tagging" ∷ codes "versionId" ∷ []))
        "DeleteObjectTagging" (method (codes "deleteObjectTagging"))
    ∷ plain_route none (some (codes "versionId" ∷ [])) "DeleteObject"
        (method (codes "deleteObject"))
    ∷ []

-- `objectRoutes` at `http.MethodPost`.
unfoldable pub post_object_routes : List Route
unfolding has has_list_type_v2 has_upload_part no_query
post_object_routes =
    (record (plain_route (some (has (codes "uploads"))) (some (codes "uploads" ∷ []))
      "CreateMultipartUpload" (method (codes "createMultipartUpload"))) {
        acl_hdr = true;
        attrs = true;
      })
    ∷ plain_route (some (has (codes "uploadId"))) (some (codes "uploadId" ∷ []))
        "CompleteMultipartUpload" (method (codes "completeMultipartUpload"))
    ∷ unknown_operation
    ∷ []

abbrev pub object_routes_of : Text → Option (List Route)
object_routes_of verb =
    if text_eq verb (codes "GET")
    then some get_object_routes
    else if text_eq verb (codes "HEAD")
    then some head_object_routes
    else if text_eq verb (codes "PUT")
    then some put_object_routes
    else if text_eq verb (codes "DELETE")
    then some delete_object_routes
    else if text_eq verb (codes "POST")
    then some post_object_routes
    else none
