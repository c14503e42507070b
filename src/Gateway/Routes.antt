-- ===== src/Gateway/Routes.antt =====
-- s3gw/handler.go: routes, what binds them to the catalog, and the check of query parameters.
pub mod Tables
pub mod Guarded
use Prim.Native.String.{String}
use s3rp.Common.{
  ℕ, suc, ◌+◌, Bool, true, false, not, ◌&&◌, ◌||◌, Option, none, some, List, [], ◌∷◌, ◌++◌,
  if◌then◌else◌, any, is_empty, length, ◌==◌, Text, codes, text_eq, has_prefix,
}
use s3rp.Policy.Document.{Platform}
use s3rp.Policy.Statement.{lower_runes}
use s3rp.Catalog.{
  Resource, on_target, on_copy_source, Authorization, Operation, resource_eq, authorization_eq,
}
use s3rp.Catalog.Operations.{lookup}
use s3rp.Gateway.Outcome.{Outcome, fail_if, not_implemented}
use s3rp.Gateway.Headers.{SignedHeader, signed, first_value, bypass_governance_retention}

-- `url.Values`: the parameters with their values; `Has` and `Get`.
abbrev pub Query : Type 0
Query = List (Text × List Text)

unfoldable pub has : Text → Query → Bool
has k [] = false
has k ((name, vs) ∷ q) = text_eq name k || has k q

unfoldable pub query_get : Text → Query → Text
query_get k [] = []
query_get k ((name, vs) ∷ q) =
    let rest = query_get k q in if text_eq name k then first_value vs else rest

-- `paramSet.check`: whether every parameter is ignored or in the set. The error names one that is not.
unfoldable pub accepts : Platform → List Text → Query → Bool
accepts std params [] = true
accepts std params ((name, vs) ∷ q) =
    (text_eq name (codes "x-id")
      || has_prefix (codes "x-amz-") (lower_runes std name)
      || any (text_eq name) params)
    && accepts std params q

unfoldable pub check : Platform → List Text → Query → Outcome (Unit {0})
unfolding accepts
check std params q = fail_if (not (accepts std params q)) not_implemented

pub record HeaderAction : Type 0 where
  pub present : SignedHeader → Bool
  pub action : Text

-- What a route's `handle` is: a method of the gateway, by its name; `rejectACL`; or the function of
-- `notImplemented` and `unknownOperation`.
pub data Handler : Type 0 where
  method : Text → Handler
  reject_acl : Handler
  refuses : Handler

-- `route`. As the match, `none` is nil, and as the parameter set.
pub record Route : Type 0 where
  pub selects : Option (Query → Bool)
  pub params : Option (List Text)
  pub acl_hdr : Bool
  pub attrs : Bool
  pub name : Text
  pub copy : Text
  pub handle : Handler
  pub action : Text
  pub version_action : Text
  pub hdr_actions : List HeaderAction
  pub copy_action : Text
  pub copy_version_action : Text

abbrev pub op_unknown : Text
op_unknown = codes "Unknown"

unfoldable signed_present : Text → SignedHeader → Bool
unfolding signed
signed_present name h = not (is_empty (signed h name))

-- The map `headerPresence`.
unfoldable header_presence : Text → Option (SignedHeader → Bool)
unfolding signed_present bypass_governance_retention
header_presence name =
    if any (text_eq name) (
      codes "x-amz-tagging"
      ∷ codes "x-amz-object-lock-mode"
      ∷ codes "x-amz-object-lock-retain-until-date"
      ∷ codes "x-amz-object-lock-legal-hold"
      ∷ [])
    then some (signed_present name)
    else if text_eq name (codes "x-amz-bypass-governance-retention")
    then some bypass_governance_retention
    else none

-- `onTarget`, and the selection of the copy sources in `bind`.
unfoldable pub on : Resource → List Authorization → List Authorization
on r [] = []
on r (a ∷ auths) = let rest = on r auths in if resource_eq a.on r then a ∷ rest else rest

-- The result of `targetAuthorizations`.
pub record Authorizations : Type 0 where
  pub action : Text
  pub version_action : Text
  pub hdr_actions : List HeaderAction

-- The loop of `targetAuthorizations`, with what it has collected; `none` is a panic.
unfoldable collect : Authorizations → List Authorization → Option Authorizations
unfolding header_presence
collect acc [] = some acc
collect acc (a ∷ auths) =
    if is_empty a.header
    then if not (is_empty acc.action)
      then none
      else collect (record acc { action = a.action; version_action = a.version_action }) auths
    else elim (header_presence a.header) [
      | none ↦ none
      | some present ↦
          collect
            (record acc {
              hdr_actions =
                  acc.hdr_actions ++ (record { present = present; action = a.action } ∷ []);
            })
            auths
    ]

unfoldable pub target_authorizations : Operation → Option Authorizations
unfolding collect on
target_authorizations op =
    collect (record { action = []; version_action = []; hdr_actions = [] })
      (on on_target op.authorizations)

-- `slices.Equal` on authorizations.
unfoldable same : List Authorization → List Authorization → Bool
same [] [] = true
same [] (_ ∷ _) = false
same (_ ∷ _) [] = false
same (a ∷ auths) (b ∷ bs) = authorization_eq a b && same auths bs

-- The read of its source that a copy variant adds; `none` is the panic.
unfoldable copy_read : Operation → Operation → Option Authorization
unfolding on same
copy_read op cp = elim (on on_copy_source cp.authorizations) [
  | [] ↦ none
  | a ∷ [] ↦
      if same (on on_target cp.authorizations) (on on_target op.authorizations)
        && is_empty a.header
        && length (on on_target cp.authorizations) + 1 == length cp.authorizations
      then some a
      else none
  | a ∷ _ ∷ _ ↦ none
]

-- What `bind` sets for the copy variant.
unfoldable bind_copy : Operation → Route → Option Route
unfolding copy_read lookup
bind_copy op rt = if is_empty rt.copy then some rt else elim (lookup rt.copy) [
  | none ↦ none
  | some cp ↦ elim (copy_read op cp) [
    | none ↦ none
    | some a ↦ some (record rt { copy_action = a.action; copy_version_action = a.version_action })
  ]
]

-- `route.bind`; `none` is a panic.
unfoldable pub bind : Route → Option Route
unfolding lookup target_authorizations bind_copy
bind rt = if text_eq rt.name op_unknown then some rt else elim (lookup rt.name) [
  | none ↦ none
  | some op ↦ elim (target_authorizations op) [
    | none ↦ none
    | some t ↦ bind_copy op (record rt {
      action = t.action;
      version_action = t.version_action;
      hdr_actions = t.hdr_actions;
    })
  ]
]

-- `bindRoutes`, for the routes of one method.
unfoldable pub bind_routes : List Route → Option (List Route)
unfolding bind
bind_routes [] = some []
bind_routes (rt ∷ rts) = elim (bind rt) [
  | none ↦ none
  | some r ↦ elim (bind_routes rts) [ none ↦ none | some rs ↦ some (r ∷ rs) ]
]
