-- ===== src/Policy/Validate.antt =====
-- policy/policy.go: `Policy.validate`, `Statement.validate` and the checks that they call, and
-- `ValidateResourcesFor`.
pub mod Accepted
use s3rp.Common.{
  ℕ, suc, ◌+◌, ◌*◌, Bool, true, false, not, ◌&&◌, ◌||◌, Option, none, some, List, [], ◌∷◌, ◌++◌,
  map, ◌==◌, ltb, leb, if◌then◌else◌, is_empty, length, any, Text, codes, text_eq, has_prefix, cut,
}
use s3rp.Policy.Document.{Platform, Condition, Principal, Statement, Policy}
use s3rp.Policy.Condition
use s3rp.Policy.Statement.{is_deny, is_allow, lower_runes}

abbrev pub max_principal_users : ℕ
max_principal_users = 100

abbrev pub max_statements : ℕ
max_statements = 20

abbrev pub max_actions_per_statement : ℕ
max_actions_per_statement = 30

abbrev pub max_resources_per_statement : ℕ
max_resources_per_statement = 10

abbrev pub max_pattern_len : ℕ
max_pattern_len = 128

abbrev pub max_condition_values : ℕ
max_condition_values = 50

-- The errors, one for each message, with what the message quotes beside the statement's name.
pub data PolicyError : Type 0 where
  unsupported_version : Text → PolicyError
  no_statement : PolicyError
  too_many_statements : ℕ → PolicyError
  duplicate_sid : Text → PolicyError
  bad_effect : PolicyError
  one_principal_required : PolicyError
  not_principal_matches_nobody : PolicyError
  not_principal_with_allow : PolicyError
  too_many_users : ℕ → PolicyError
  invalid_principal : Text → PolicyError
  no_action : PolicyError
  too_many_actions : ℕ → PolicyError
  action_prefix : Text → PolicyError
  action_too_long : ℕ → PolicyError
  no_resource : PolicyError
  too_many_resources : ℕ → PolicyError
  resource_too_long : ℕ → PolicyError
  empty_condition : PolicyError
  too_many_values : ℕ → PolicyError
  invalid_source_ip : PolicyError
  foreign_resource : Text → PolicyError

-- What a check ends in: the checked value, or the first error.
pub data Checked {ℓ} (X : Type ℓ) : Type ℓ where
  rejects : PolicyError → Checked X
  passes : X → Checked X

infixl 5 ◌>>=◌ ◌>>◌
abbrev pub ◌>>=◌ {ℓ κ} : {X : Type ℓ} {Y : Type κ} → Checked X → (X → Checked Y) → Checked Y
rejects reason >>= next = rejects reason
passes x >>= next = next x

-- A check without a value, and what runs if it passes.
abbrev pub ◌>>◌ {ℓ} : {Y : Type ℓ} → Checked (Unit {0}) → Checked Y → Checked Y
first >> second = first >>= λ done. second

-- `if bad { return rejects }`.
abbrev pub refuse : Bool → PolicyError → Checked (Unit {0})
refuse true e = rejects e
refuse false e = passes tt

abbrev pub check_all : (Text → Checked (Unit {0})) → List Text → Checked (Unit {0})
check_all check [] = passes tt
check_all check (t ∷ ts) = do check t; check_all check ts

-- `[a-z0-9]`, and the class with '_' and '-' added.
unfoldable pub is_name_start : ℕ → Bool
is_name_start c = (leb b'a' c && leb c b'z') || (leb b'0' c && leb c b'9')

unfoldable pub is_name_byte : ℕ → Bool
unfolding is_name_start
is_name_byte c = is_name_start c || c == b'_' || c == b'-'

unfoldable pub all_name_bytes : Text → Bool
unfolding is_name_byte
all_name_bytes [] = true
all_name_bytes (c ∷ s) = is_name_byte c && all_name_bytes s

-- `[a-z0-9][a-z0-9_-]+`, the whole text.
unfoldable pub is_principal_part : Text → Bool
unfolding all_name_bytes is_name_start
is_principal_part [] = false
is_principal_part (c ∷ []) = false
is_principal_part (c ∷ d ∷ s) = is_name_start c && all_name_bytes (d ∷ s)

-- `principalRegexp`. No name byte is a '/', so the first '/' is the one in the middle.
unfoldable pub is_principal : Text → Bool
unfolding is_principal_part
is_principal u =
    let (tenant, user, found) = cut b'/' u in
    found && is_principal_part tenant && (is_principal_part user || text_eq user (codes "*"))

-- `validatePrincipal`.
unfoldable pub validate_principal : Option Principal → Checked (Unit {0})
validate_principal none = passes tt
validate_principal (some pr) = do
  refuse (ltb max_principal_users (length pr.users)) (too_many_users (length pr.users))
  check_all (λ u. refuse (not (is_principal u)) (invalid_principal u)) pr.users

abbrev pub has_principal : Option Principal → Bool
has_principal none = false
has_principal (some _) = true

abbrev pub is_everybody : Option Principal → Bool
is_everybody none = false
is_everybody (some p) = p.all

module _ (std : Platform) where
  -- `validateAction`. The prefix is ASCII, so it is one of the bytes exactly if of the runes.
  unfoldable pub validate_action : Text → Checked (Unit {0})
  validate_action a = do
    refuse (not (has_prefix (codes "s3:") (lower_runes std a))) (action_prefix a)
    refuse (ltb max_pattern_len (length a)) (action_too_long (length a))

  -- `validateCondition`: the condition as `compile` leaves it.
  unfoldable pub validate_condition : Condition → Checked Condition
  validate_condition c = do
    refuse (is_empty c.ip_address && is_empty c.not_ip_address) empty_condition
    refuse (ltb max_condition_values (length c.ip_address)) (too_many_values (length c.ip_address))
    refuse (ltb max_condition_values (length c.not_ip_address))
        (too_many_values (length c.not_ip_address))
    let (c', fine) = Condition.compile std c
    refuse (not fine) invalid_source_ip
    passes c'

  unfoldable pub validate_optional : Option Condition → Checked (Option Condition)
  unfolding validate_condition
  validate_optional none = passes none
  validate_optional (some c) = do c' ← validate_condition c; passes (some c')

  -- `Statement.validate`.
  unfoldable pub validate_statement : Statement → Checked Statement
  validate_statement st = do
    refuse (not (is_allow st) && not (is_deny st)) bad_effect
    refuse
        ((not (has_principal st.principal) && not (has_principal st.not_principal))
          || (has_principal st.principal && has_principal st.not_principal))
        one_principal_required
    refuse (is_everybody st.not_principal) not_principal_matches_nobody
    refuse (has_principal st.not_principal && not (is_deny st)) not_principal_with_allow
    validate_principal st.principal
    validate_principal st.not_principal
    refuse (is_empty st.action) no_action
    refuse (ltb max_actions_per_statement (length st.action)) (too_many_actions (length st.action))
    check_all validate_action st.action
    refuse (is_empty st.resource) no_resource
    refuse (ltb max_resources_per_statement (length st.resource))
        (too_many_resources (length st.resource))
    check_all (λ r. refuse (ltb max_pattern_len (length r)) (resource_too_long (length r)))
        st.resource
    c ← validate_optional st.condition
    passes (record st { condition = c })

  -- The loop of `Policy.validate`; `sids` are the names seen.
  unfoldable pub validate_from : List Text → List Statement → Checked (List Statement)
  validate_from sids [] = passes []
  validate_from sids (st ∷ sts) = do
    refuse (not (is_empty st.sid) && any (text_eq st.sid) sids) (duplicate_sid st.sid)
    st' ← validate_statement st
    rest ← validate_from (if is_empty st.sid then sids else st.sid ∷ sids) sts
    passes (st' ∷ rest)

  -- `Policy.validate`: the policy with its conditions compiled.
  unfoldable pub validate : Policy → Checked Policy
  validate p = do
    refuse
        (not (is_empty p.version)
          && not (text_eq p.version (codes "2012-10-17"))
          && not (text_eq p.version (codes "2008-10-17")))
        (unsupported_version p.version)
    refuse (is_empty p.statement) no_statement
    refuse (ltb max_statements (length p.statement)) (too_many_statements (length p.statement))
    sts ← validate_from [] p.statement
    passes (record p { statement = sts })

-- The inner loop of `ValidateResourcesFor`.
resource_of : Text → Text → Checked (Unit {0})
resource_of bucket res =
    refuse (not (text_eq res bucket) && not (has_prefix (bucket ++ b'/' ∷ []) res))
      (foreign_resource res)

resources_from : Text → List Statement → Checked (Unit {0})
unfolding resource_of
resources_from bucket [] = passes tt
resources_from bucket (st ∷ sts) = do
  check_all (resource_of bucket) st.resource
  resources_from bucket sts

-- `Policy.ValidateResourcesFor`.
unfoldable pub validate_resources_for : Policy → Text → Checked (Unit {0})
unfolding resources_from
validate_resources_for p bucket = resources_from bucket p.statement
