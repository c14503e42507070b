-- ===== src/Sigv4/PostPolicy/Document.antt =====
-- sigv4/postpolicy.go: the policy document of a POST upload, its parse and its evaluation.
use s3rp.Common.{
  ℕ, Bool, true, false, ◌&&◌, ◌||◌, Option, none, some, List, [], ◌∷◌, ◌++◌, if◌then◌else◌,
  is_empty, any, length, ltb, ◌==◌, min, Text, codes, text_eq, trim_space, has_prefix, ℤ, pos,
}
use s3rp.Sigv4.Http.{Library}

-- What `json.Unmarshal` makes of a policy, whose conditions stay as they are.
pub record PolicyDocument : Type 0 where
  pub expiration : Text
  pub conditions : List Text

-- encoding/json into a document, a map of strings, a list of raw messages, a string and an `int64`;
-- base64; and `time.Parse` with RFC 3339.
pub record Decoders : Type 0 where
  pub document : Text → Option PolicyDocument
  pub object : Text → Option (List (Text × Text))
  pub array : Text → Option (List Text)
  pub string : Text → Option Text
  pub integer : Text → Option ℤ
  pub base64 : Text → Option Text
  pub rfc3339 : Text → Option ℕ

abbrev pub max_post_policy_bytes : ℕ
max_post_policy_bytes = 20480

abbrev pub max_post_policy_conditions : ℕ
max_post_policy_conditions = 100

-- `math.MaxInt64`.
abbrev pub max_int64 : ℕ
max_int64 = 9223372036854775807

pub record PostPolicy : Type 0 where
  pub expiration : ℕ
  pub min_length : ℕ
  pub max_length : ℕ

pub record PostCondition : Type 0 where
  pub op : Text
  pub field : Text
  pub value : Text

-- The fields of the form, a name once.
abbrev pub Fields : Type 0
Fields = List (Text × Text)

unfoldable pub find_field : Fields → Text → Option Text
find_field [] k = none
find_field ((l, v) ∷ fields) k = if text_eq l k then some v else find_field fields k

-- `fields[k]`, empty if it is missing.
unfoldable pub field_of : Fields → Text → Text
unfolding find_field
field_of fields k = elim (find_field fields k) [ none ↦ [] | some v ↦ v ]

-- What `parseArrayCondition` returns: a condition, or a range.
pub data ArrayCondition : Type 0 where
  condition : PostCondition → ArrayCondition
  range : ℕ → ℕ → ArrayCondition

abbrev as_condition : Library → Text → Option Text → Option Text → Option ArrayCondition
as_condition lib op (some (c ∷ field)) (some value) =
    if c == b'$'
    then some
        (condition (record { op = lib.to_lower op; field = lib.to_lower field; value = value }))
    else none
as_condition lib op _ _ = none

abbrev as_range : Option ℤ → Option ℤ → Option ArrayCondition
as_range (some (pos low)) (some (pos high)) = if ltb high low then none else some (range low high)
as_range _ _ = none

-- The elements of an array condition.
unfoldable pub parse_elements : Library → Decoders → List Text → Option ArrayCondition
parse_elements lib dec (first ∷ second ∷ third ∷ []) = elim (dec.string first) [
  | none ↦ none
  | some op ↦
      if text_eq (lib.to_lower op) (codes "eq") || text_eq (lib.to_lower op) (codes "starts-with")
      then as_condition lib op (dec.string second) (dec.string third)
      else if text_eq (lib.to_lower op) (codes "content-length-range")
      then as_range (dec.integer second) (dec.integer third)
      else none
]
parse_elements lib dec _ = none

-- `parseArrayCondition`.
unfoldable pub parse_array_condition : Library → Decoders → Text → Option ArrayCondition
unfolding parse_elements
parse_array_condition lib dec raw = elim (dec.array raw) [
  | none ↦ none
  | some elems ↦ parse_elements lib dec elems
]

abbrev pub max : ℕ → ℕ → ℕ
max a b = if ltb a b then b else a

-- The conditions of an object, in the order in which its map is ranged over.
unfoldable pub equalities : Library → List (Text × Text) → List PostCondition
equalities lib [] = []
equalities lib ((k, v) ∷ obj) =
    record { op = codes "eq"; field = lib.to_lower k; value = v } ∷ equalities lib obj

abbrev narrowed : PostPolicy → ℕ → ℕ → PostPolicy
narrowed pp low high = record pp {
  min_length = max pp.min_length low;
  max_length = min pp.max_length high;
}

-- One condition of the document, onto the policy and the conditions so far.
unfoldable pub add_condition :
    Library
    → Decoders
    → Text
    → PostPolicy
    → List PostCondition
    → Option (PostPolicy × List PostCondition)
unfolding equalities parse_array_condition
add_condition lib dec raw pp conds =
    let trimmed = trim_space raw in
    if has_prefix (codes "{") trimmed
    then elim (dec.object raw) [ none ↦ none | some obj ↦ some (pp, conds ++ equalities lib obj) ]
    else if has_prefix (codes "[") trimmed
    then elim (parse_array_condition lib dec raw) [
      | none ↦ none
      | some (condition c) ↦ some (pp, conds ++ (c ∷ []))
      | some (range low high) ↦ some (narrowed pp low high, conds)
    ]
    else none

unfoldable pub add_conditions :
    Library
    → Decoders
    → List Text
    → PostPolicy
    → List PostCondition
    → Option (PostPolicy × List PostCondition)
unfolding add_condition
add_conditions lib dec [] pp conds = some (pp, conds)
add_conditions lib dec (raw ∷ raws) pp conds = elim (add_condition lib dec raw pp conds) [
  | none ↦ none
  | some read ↦ add_conditions lib dec raws read.0 read.1
]

abbrev is_empty_range :
    Option (PostPolicy × List PostCondition) → Option (PostPolicy × List PostCondition)
is_empty_range none = none
is_empty_range (some (pp, conds)) =
    if ltb pp.max_length pp.min_length then none else some (pp, conds)

-- `parsePostPolicy`; every error is an InvalidPolicyDocument.
unfoldable pub parse_post_policy :
    Library → Decoders → Text → Option (PostPolicy × List PostCondition)
unfolding add_conditions
parse_post_policy lib dec raw = elim (dec.document raw) [
  | none ↦ none
  | some doc ↦ if is_empty doc.expiration then none else elim (dec.rfc3339 doc.expiration) [
    | none ↦ none
    | some exp ↦
        if ltb max_post_policy_conditions (length doc.conditions)
        then none
        else is_empty_range (
            add_conditions lib dec doc.conditions
              (record { expiration = exp; min_length = 0; max_length = max_int64 }) [])
  ]
]

-- Whether a condition holds of the value that a field has.
unfoldable pub condition_holds : PostCondition → Option Text → Bool
condition_holds c none = false
condition_holds c (some v) =
    if text_eq c.op (codes "eq")
    then text_eq v c.value
    else if text_eq c.op (codes "starts-with")
    then has_prefix c.value v
    else true

-- The first loop of `evaluatePostPolicy`; `false` is the error.
unfoldable pub all_hold : List PostCondition → Fields → Bool
unfolding condition_holds find_field
all_hold [] fields = true
all_hold (c ∷ conds) fields = condition_holds c (find_field fields c.field) && all_hold conds fields

-- The second loop, over the fields in the order in which the map is ranged over.
unfoldable pub all_covered : List PostCondition → Fields → Bool
all_covered conds [] = true
all_covered conds ((name, _) ∷ fields) =
    (text_eq name (codes "policy")
      || text_eq name (codes "x-amz-signature")
      || any (λ c. text_eq c.field name) conds)
    && all_covered conds fields

-- `evaluatePostPolicy`, where `true` is nil; every error is an AccessDenied.
unfoldable pub evaluate_post_policy : List PostCondition → Fields → Bool
unfolding all_hold all_covered
evaluate_post_policy conds fields = all_hold conds fields && all_covered conds fields
