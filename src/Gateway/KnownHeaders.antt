-- ===== src/Gateway/KnownHeaders.antt =====
-- s3gw/headers.go: the headers that some operation honours.
use s3rp.Common.{Bool, true, not, ◌&&◌, ◌||◌, List, [], ◌∷◌, any, Text, codes, text_eq, has_prefix}
use s3rp.Sigv4.Http.{Library, Values}

abbrev pub known_amz_headers : List Text
known_amz_headers =
    codes "x-amz-date"
    ∷ codes "x-amz-content-sha256"
    ∷ codes "x-amz-security-token"
    ∷ codes "x-amz-decoded-content-length"
    ∷ codes "x-amz-trailer"
    ∷ codes "x-amz-user-agent"
    ∷ codes "x-amz-checksum-algorithm"
    ∷ codes "x-amz-checksum-type"
    ∷ codes "x-amz-checksum-mode"
    ∷ codes "x-amz-sdk-checksum-algorithm"
    ∷ codes "x-amz-storage-class"
    ∷ codes "x-amz-tagging"
    ∷ codes "x-amz-tagging-directive"
    ∷ codes "x-amz-metadata-directive"
    ∷ codes "x-amz-copy-source"
    ∷ codes "x-amz-copy-source-if-match"
    ∷ codes "x-amz-copy-source-if-none-match"
    ∷ codes "x-amz-copy-source-if-modified-since"
    ∷ codes "x-amz-copy-source-if-unmodified-since"
    ∷ codes "x-amz-copy-source-range"
    ∷ codes "x-amz-mp-object-size"
    ∷ codes "x-amz-server-side-encryption"
    ∷ codes "x-amz-server-side-encryption-aws-kms-key-id"
    ∷ codes "x-amz-acl"
    ∷ codes "x-amz-grant-read"
    ∷ codes "x-amz-grant-write"
    ∷ codes "x-amz-grant-read-acp"
    ∷ codes "x-amz-grant-write-acp"
    ∷ codes "x-amz-grant-full-control"
    ∷ codes "x-amz-object-lock-mode"
    ∷ codes "x-amz-object-lock-retain-until-date"
    ∷ codes "x-amz-object-lock-legal-hold"
    ∷ codes "x-amz-bypass-governance-retention"
    ∷ codes "x-amz-object-attributes"
    ∷ codes "x-amz-max-parts"
    ∷ codes "x-amz-part-number-marker"
    ∷ codes "x-amz-if-match-size"
    ∷ codes "x-amz-if-match-last-modified-time"
    ∷ []

-- A name in lower case that `checkKnownAmzHeaders` passes over, where `offered` is the value headers
-- of the checksums that are not refused: `knownHeader`.
unfoldable pub is_known_header : List Text → Text → Bool
is_known_header offered name =
    not (has_prefix (codes "x-amz-") name)
    || any (text_eq name) known_amz_headers
    || any (text_eq name) offered
    || has_prefix (codes "x-amz-meta-") name

-- `checkKnownAmzHeaders`, where `true` is nil.
unfoldable pub all_known_headers : Library → List Text → Values → Bool
unfolding is_known_header
all_known_headers lib offered [] = true
all_known_headers lib offered ((name, _) ∷ header) =
    is_known_header offered (lib.to_lower name) && all_known_headers lib offered header
