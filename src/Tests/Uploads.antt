-- ===== src/Tests/Uploads.antt =====
-- A POST upload from its form to the hooks.
use s3rp.Common.{
  true, ◌≡◌, refl, none, some, List, [], ◌∷◌, false, Text, codes, text_eq, split, trim_space,
}
use s3rp.Policy.Document.{zero_addr}
use s3rp.Store.{Bucket}
use s3rp.Sigv4.Requests.{lookup_secret, bad_session_token}
use s3rp.Sigv4.Verify.Signed.{Faithful}
use s3rp.Policy.User
use s3rp.Gateway.Access.{found, authorize, resolve_bucket}
use s3rp.Gateway.Headers.{new_signed_header, check_sse}
use s3rp.Gateway.Routes.{check}
use s3rp.Gateway.Outcome.{Outcome, panics, fails, returns}
use s3rp.Gateway.Identity.{StoreKey, KeyStore, stored, secret_lookup}
use s3rp.Gateway.PostObject.{
  post_field_header, FormPart, Posted, UploadRequest, Surroundings, handle_post_object,
}
use s3rp.Gateway.PostObject.Permitted.{UploadPermitted, handle_post_object-UploadPermitted}
use s3rp.Tests.Data.{std, logs, alice}
use s3rp.Tests.Routing.{url}
use s3rp.Tests.Chunks.{crypto}
use s3rp.Tests.Signatures.{verifier, cache, kms_secrets, cache-Sound, ascii_lower}
use s3rp.Tests.Forms.{signed_fields, decoders, form_signature}

abbrev own_logs : Bucket
own_logs = record logs { tenant = codes "acme"; policy = none }

abbrev alice_key : StoreKey
alice_key = record {
  tenant = codes "acme";
  user = codes "alice";
  user_policy = none;
  secret_access_key = codes "s";
  signing_key = none;
  secret_version = [];
  session_token = [];
}

abbrev pub get_key : KeyStore
get_key akid token = stored alice_key

-- The policy of the form binds the bucket as well.
abbrev pub surroundings : Surroundings
surroundings = record {
  std = std;
  url = url;
  buckets = record {
    get_bucket = λ tenant name. found own_logs;
    get_bucket_by_name = λ name. found own_logs;
  };
  get_key = get_key;
  verifier = verifier;
  dec = record decoders { object = λ t. some ((codes "bucket", codes "logs") ∷ signed_fields) };
  offered = [];
  has_client = λ b. true;
}

abbrev upload : UploadRequest
upload = record {
  bucket_name = codes "logs";
  verb = codes "POST";
  query = [];
  header = [];
  source_ip = zero_addr;
}

abbrev field : Text × Text → FormPart
field f = record { form_name = f.0; file_name = []; content = f.1; is_broken = false }

parts : List FormPart
unfolding form_signature
parts =
    field (codes "policy", codes "p")
    ∷ field (codes "X-Amz-Signature", form_signature)
    ∷ field (codes "x-amz-algorithm", codes "AWS4-HMAC-SHA256")
    ∷ field (codes "x-amz-credential", codes "K/20240101/r/s3/aws4_request")
    ∷ field (codes "x-amz-date", codes "20240101T000000Z")
    ∷ field (codes "key", codes "k")
    ∷ record {
      form_name = codes "file";
      file_name = codes "f";
      content = codes "data";
      is_broken = false;
    }
    ∷ []

abbrev nothing : Posted
nothing = record {
  vr = alice;
  cfg = logs;
  key = [];
  fields = [];
  policy = record { expiration = 0; min_length = 0; max_length = 0 };
  actions = [];
}

abbrev posted_or : Posted → Outcome Posted → Posted
posted_or p panics = p
posted_or p (fails e) = p
posted_or p (returns q) = q

posted : Posted
unfolding handle_post_object cache parts
posted = posted_or nothing (handle_post_object surroundings upload cache parts).0

-- The upload reaches the hooks.
upload_is_posted : (handle_post_object surroundings upload cache parts).0 ≡ returns posted
unfolding posted handle_post_object cache parts check new_signed_header ascii_lower text_eq crypto
    split lookup_secret secret_lookup bad_session_token trim_space resolve_bucket check_sse
    post_field_header authorize User.decide
upload_is_posted = refl

pub keys_are-Faithful : Faithful (secret_lookup get_key) kms_secrets
unfolding secret_lookup
keys_are-Faithful akid token = tt

handle_post_object-UploadPermitted_example :
    UploadPermitted surroundings upload kms_secrets parts posted
handle_post_object-UploadPermitted_example =
    handle_post_object-UploadPermitted surroundings upload kms_secrets cache parts posted
      keys_are-Faithful cache-Sound upload_is_posted
