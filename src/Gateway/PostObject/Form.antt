-- ===== src/Gateway/PostObject/Form.antt =====
-- s3gw/postobject.go: the form of a POST upload.
use s3rp.Common.{
  ℕ, zero, suc, ◌-◌, Bool, true, false, not, ◌&&◌, ◌||◌, none, some, List, [], ◌∷◌, ◌++◌,
  if◌then◌else◌, is_empty, any, length, ltb, leb, Text, codes, text_eq, has_prefix,
}
use s3rp.Sigv4.Http.{Library}
use s3rp.Sigv4.PostPolicy.{Fields, find_field, field_of}
use s3rp.Gateway.Outcome.{Outcome, fails, returns, ◌>>◌, not_implemented, fail_if}
use s3rp.Gateway.Headers.{SignedHeader, invalid_argument}

-- A part of the multipart form: `FormName`, `FileName`, its bytes, and whether reading it fails.
pub record FormPart : Type 0 where
  pub form_name : Text
  pub file_name : Text
  pub content : Text
  pub is_broken : Bool

-- The fields and the file part.
pub record PostForm : Type 0 where
  pub fields : Fields
  pub file : FormPart

abbrev pub max_post_field_bytes : ℕ
max_post_field_bytes = 32768

abbrev pub max_post_fields : ℕ
max_post_fields = 64

-- `delete(fields, k)`, and `fields[k] = v`.
unfoldable pub without_field : Text → Fields → Fields
without_field k [] = []
without_field k ((l, v) ∷ fields) =
    if text_eq l k then without_field k fields else (l, v) ∷ without_field k fields

unfoldable pub set_field : Text → Text → Fields → Fields
unfolding without_field
set_field k v fields = (k, v) ∷ without_field k fields

-- The loop of `readPostForm`, over the parts that `NextPart` gives; the end of the form and a malformed
-- one are the same error here.
unfoldable pub read_post_form : Library → Fields → List FormPart → Outcome PostForm
unfolding set_field
read_post_form lib fields [] = fails invalid_argument
read_post_form lib fields (part ∷ parts) =
    let name = lib.to_lower part.form_name in
    let skipped = read_post_form lib fields parts in
    let added = read_post_form lib (set_field name part.content fields) parts in
    if is_empty name
    then skipped
    else if text_eq name (codes "file")
    then returns (record { fields = fields; file = part })
    else if leb max_post_fields (length fields)
    then fails invalid_argument
    else if part.is_broken
    then fails invalid_argument
    else if ltb max_post_field_bytes (length part.content)
    then fails invalid_argument
    else added

-- The fields that are not "x-ignore-" fields.
unfoldable pub without_ignored : Fields → Fields
without_ignored [] = []
without_ignored ((k, v) ∷ fields) =
    if has_prefix (codes "x-ignore-") k
    then without_ignored fields
    else (k, v) ∷ without_ignored fields

-- `strings.ReplaceAll(s, old, new)`, where the first argument counts the bytes that are still to be
-- passed over; `old` is not empty.
unfoldable pub replace_from : ℕ → (old new s : Text) → Text
unfolding has_prefix
replace_from k old new [] = []
replace_from (suc k) old new (_ ∷ s) = replace_from k old new s
replace_from zero old new (c ∷ s) =
    let inside = replace_from (length old - 1) old new s in
    let outside = replace_from zero old new s in
    if has_prefix old (c ∷ s) then new ++ inside else c ∷ outside

-- The key of the form, with the name of the file.
unfoldable pub key_of : PostForm → Text
unfolding replace_from field_of
key_of form =
    replace_from zero (codes "${filename}") form.file.file_name (field_of form.fields (codes "key"))

-- What the conditions of the policy are evaluated against: the fields that are left, with the key
-- and the bucket that the upload is of.
unfoldable pub effective_fields : Text → PostForm → Outcome (Text × Fields)
unfolding without_ignored set_field key_of field_of
effective_fields bucket_name form =
    let kept : PostForm = record form { fields = without_ignored form.fields } in
    fail_if (is_empty (field_of kept.fields (codes "key"))) invalid_argument
    >> (fail_if (is_empty (key_of kept)) invalid_argument
        >> returns (
          key_of kept,
          set_field (codes "bucket") bucket_name
              (set_field (codes "key") (key_of kept) kept.fields),
        ))

abbrev post_field_mapped : List Text
post_field_mapped =
    codes "key"
    ∷ codes "bucket"
    ∷ codes "acl"
    ∷ codes "success_action_redirect"
    ∷ codes "success_action_status"
    ∷ codes "content-type"
    ∷ codes "content-md5"
    ∷ codes "cache-control"
    ∷ codes "content-disposition"
    ∷ codes "content-encoding"
    ∷ codes "content-language"
    ∷ codes "expires"
    ∷ codes "x-amz-storage-class"
    ∷ codes "x-amz-tagging"
    ∷ codes "x-amz-server-side-encryption"
    ∷ codes "x-amz-server-side-encryption-aws-kms-key-id"
    ∷ codes "x-amz-algorithm"
    ∷ codes "x-amz-credential"
    ∷ codes "x-amz-date"
    ∷ codes "x-amz-signature"
    ∷ codes "policy"
    ∷ codes "x-amz-security-token"
    ∷ []

-- A field that `checkPostFields` lets through.
abbrev pub is_mapped : Text → Bool
unfolding has_prefix
is_mapped name = any (text_eq name) post_field_mapped || has_prefix (codes "x-amz-meta-") name

all_mapped : Fields → Bool
all_mapped [] = true
all_mapped ((name, _) ∷ fields) = is_mapped name && all_mapped fields

-- `checkPostFields`.
unfoldable pub check_post_fields : Fields → Outcome (Unit {0})
unfolding all_mapped
check_post_fields fields = fail_if (not (all_mapped fields)) not_implemented

-- `postFieldHeader`, for names in lower case: every field is covered.
unfoldable pub post_field_header : Fields → SignedHeader
unfolding find_field
post_field_header fields = record {
  values = λ name. elim (find_field fields name) [ none ↦ [] | some v ↦ v ∷ [] ];
  is_signed = λ name. elim (find_field fields name) [ none ↦ false | some _ ↦ true ];
}
