-- ===== src/Catalog.antt =====
-- s3op/s3op.go: the catalog of the operations and of the actions that they authorize.
pub mod Operations
use s3rp.Common.{
  Bool, true, false, ◌&&◌, Option, none, some, List, [], ◌∷◌, if◌then◌else◌, Text, text_eq,
}

-- `Scope`, `Support` and `Resource`, enumerations of strings in the source.
pub data Scope : Type 0 where
  scope_service scope_bucket scope_object : Scope

pub data Support : Type 0 where
  supported refused_operation : Support

pub data Resource : Type 0 where
  on_target on_copy_source on_each_key : Resource

pub record Authorization : Type 0 where
  pub action : Text
  pub on : Resource
  pub version_action : Text
  pub header : Text

-- `Operation`, without its note.
pub record Operation : Type 0 where
  pub name : Text
  pub scope : Scope
  pub support : Support
  pub authorizations : List Authorization

-- The loop of `Lookup`.
unfoldable pub find_operation : List Operation → Text → Option Operation
find_operation [] name = none
find_operation (op ∷ ops) name =
    let rest = find_operation ops name in if text_eq op.name name then some op else rest

-- Equality of two resources, and of two authorizations as `slices.Equal` compares them.
abbrev pub resource_eq : Resource → Resource → Bool
resource_eq on_target on_target = true
resource_eq on_copy_source on_copy_source = true
resource_eq on_each_key on_each_key = true
resource_eq _ _ = false

abbrev pub authorization_eq : Authorization → Authorization → Bool
authorization_eq a b =
    text_eq a.action b.action
    && resource_eq a.on b.on
    && text_eq a.version_action b.version_action
    && text_eq a.header b.header
