-- ===== src/Tests/Data.antt =====
-- The documents and requests of the tests.
use Prim.Native.String.{String}
use s3rp.Common.{◌≡◌, All, arith, subst, refl, text_eq, false, none, some, [], ◌∷◌, Text, codes}
use s3rp.Policy.Document.{zero_addr, Platform, RequestContext, Statement, Policy}
use s3rp.Policy.Decide.Verdict.{NamesSomebody}
use s3rp.Policy.Evaluators.Refine.{HasEffect}
use s3rp.Gateway.Access.Baseline.{HasSoundPolicy}
use s3rp.Gateway.Access.Keys.{HasValidPolicy}
use s3rp.Store.{Bucket}
use s3rp.Gateway.Access.{VerifiedRequest}

abbrev pub std : Platform
std = record { to_lower = λ c. c; parse_addr = λ t. none; parse_prefix = λ t. none }

abbrev pub anywhere : RequestContext
anywhere = record { source_ip = zero_addr }

abbrev pub acme_alice : Text
acme_alice = codes "acme/alice"

abbrev pub get_object : Text
get_object = codes "s3:GetObject"

abbrev pub key : Text
key = codes "logs/1"

abbrev statement : String → String → String → Statement
statement effect user resource = record {
  sid = [];
  effect = codes effect;
  principal = some (record { all = false; users = codes user ∷ [] });
  not_principal = none;
  action = codes "s3:*" ∷ [];
  resource = codes resource ∷ [];
  condition = none;
  action_runes = [];
  resource_runes = [];
}

-- Alice may use the objects of the bucket, but not the secret ones.
abbrev pub logs_policy : Policy
logs_policy = record {
  version = codes "2012-10-17";
  statement =
      statement "Allow" "acme/alice" "logs/*" ∷ statement "Deny" "acme/alice" "logs/secret*" ∷ [];
  compile_once = false;
}

abbrev pub logs : Bucket
logs = record {
  tenant = codes "umbrella";
  name = codes "logs";
  backend = record {
    endpoint = [];
    region = codes "us-east-1";
    bucket = codes "b";
    access_key_id = [];
    secret_access_key = [];
    use_path_style = none;
  };
  policy_text = [];
  policy = some logs_policy;
  cors = [];
}

abbrev pub alice : VerifiedRequest
alice = record {
  tenant = codes "acme";
  user = codes "alice";
  user_policy = none;
  source_ip = zero_addr;
}

somebody : All NamesSomebody logs_policy.statement
somebody = ((λ e _. absurd (ground arith)), ((λ e _. absurd (ground arith)), tt))

effects : All HasEffect logs_policy.statement
unfolding text_eq
effects = (refl, (refl, tt))

pub sound : HasSoundPolicy logs
sound p e =
    let same : logs_policy ≡ p = ground arith in
    subst (λ (q : Policy). All NamesSomebody q.statement) same somebody

pub logs-HasValidPolicy : HasValidPolicy logs
logs-HasValidPolicy = record {
  somebody = sound;
  effect = λ p e.
      let same : logs_policy ≡ p = ground arith in
      subst (λ (q : Policy). All HasEffect q.statement) same effects;
}
