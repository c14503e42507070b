-- ===== src/Gateway/Access.antt =====
-- s3gw/bucketpolicy.go: the authorization of one request, and of the keys of a DeleteObjects
-- request. Reasons holds the errors and their reasons, Lookup the resolution of a bucket.
mod Reasons
mod Lookup
pub mod Baseline
pub mod Keys
unfoldable pub use Reasons.{principal}
pub use Reasons.*
unfoldable pub use Lookup.{resolve_bucket, resolve_foreign, visible}
pub use Lookup.*
use Prim.Native.String.{String}
use s3rp.Common.{
  ℕ, Bool, true, false, not, ◌&&◌, ◌||◌, Option, none, some, List, [], ◌∷◌, ◌++◌, if◌then◌else◌,
  get_elem?, Text, Runes, runes, text_eq,
}
use s3rp.Policy.Document.{
  Addr, Platform, RequestContext, Statement, Policy, Effect, none_effect, allow, deny, Decision,
}
use s3rp.Policy.Decide.{decide, mentions_principal, undecided}
use s3rp.Policy.Evaluators.{
  DenyEvaluator, AllowEvaluator, deny_evaluator_for, allow_evaluator_for, always_denies,
  always_allows, allows_runes, denies_runes, denies as eval_denies, denying_statement,
}
use s3rp.Policy.Evaluators.Refine.{is_allow_effect, is_deny_effect}
use s3rp.Policy.User
use s3rp.Policy.User.{UserPolicy}
use s3rp.Store.{Bucket, qualified}

-- The two ways in which `authorize` reads a decision of the bucket policy.
answer_unless_denied : Option Policy → Text → Text → Text → Decision → Answer
answer_unless_denied p who action resource d =
    if is_deny_effect d.effect
    then refused_for (bucket_policy_reason p who action resource d)
    else permitted

answer_if_allowed : Option Policy → Text → Text → Text → Decision → Answer
answer_if_allowed p who action resource d =
    if is_allow_effect d.effect
    then permitted
    else refused_for (bucket_policy_reason p who action resource d)

-- A perObjectAuthorizer.
pub record PerObjectAuthorizer : Type 0 where
  pub deny_all : Bool
  pub eval : DenyEvaluator
  pub require_allow : Bool
  pub allow : AllowEvaluator
  pub principal : Text
  pub action : Text
  pub policy : Option Policy
  pub user_decision : Decision

abbrev pub no_denials : DenyEvaluator
no_denials = record { deny_resources = []; deny_statements = [] }

abbrev pub no_grants : AllowEvaluator
no_grants = record { allow_resources = [] }

module _ (std : Platform) where
  -- The part of `authorize` behind the user policy; `none` is the panic of `matchPrincipal`.
  authorize_bucket : VerifiedRequest → Bucket → Text → Text → Option Answer
  unfolding answer_unless_denied answer_if_allowed
  authorize_bucket vr b action resource =
      if not (text_eq b.tenant vr.tenant)
      then elim b.policy [
        | none ↦
            some (refused_for (bucket_policy_reason none (principal vr) action resource undecided))
        | some p ↦ elim (decide std p (principal vr) action resource (request_context vr)) [
          | none ↦ none
          | some d ↦ some (answer_if_allowed (some p) (principal vr) action resource d)
        ]
      ]
      else elim b.policy [
        | none ↦ some permitted
        | some p ↦ elim (decide std p (principal vr) action resource (request_context vr)) [
          | none ↦ none
          | some d ↦ some (answer_unless_denied (some p) (principal vr) action resource d)
        ]
      ]

  -- `Gateway.authorize`.
  unfoldable pub authorize : VerifiedRequest → Bucket → Text → Text → Option Answer
  unfolding authorize_bucket
  authorize vr b action resource =
      let d = User.decide std vr.user_policy action in
      if not (is_allow_effect d.effect)
      then some (refused_for (user_policy_reason (principal vr) action d))
      else authorize_bucket vr b action resource

  -- The authorizer before any check has run.
  fresh_authorizer : VerifiedRequest → Bucket → Text → PerObjectAuthorizer
  fresh_authorizer vr b action = record {
    deny_all = false;
    eval = no_denials;
    require_allow = false;
    allow = no_grants;
    principal = principal vr;
    action = action;
    policy = b.policy;
    user_decision = User.decide std vr.user_policy action;
  }

  cross_authorizer :
      VerifiedRequest → Policy → Text → PerObjectAuthorizer → Option PerObjectAuthorizer
  cross_authorizer vr p action a =
      elim (allow_evaluator_for std p (principal vr) action (request_context vr)) [
        | none ↦ none
        | some g ↦
            let built : Option PerObjectAuthorizer =
              elim (deny_evaluator_for std p (principal vr) action (request_context vr)) [
                | none ↦ none
                | some e ↦ some (record a { require_allow = true; allow = g; eval = e })
              ] in
            if always_denies g
            then some (record a { require_allow = true; allow = g; deny_all = true })
            else built
      ]

  -- `Gateway.perObjectAuthorizer`.
  unfoldable pub per_object_authorizer :
      VerifiedRequest → Bucket → Text → Option PerObjectAuthorizer
  unfolding fresh_authorizer cross_authorizer
  per_object_authorizer vr b action =
      let a = fresh_authorizer vr b action in
      if not (is_allow_effect a.user_decision.effect)
      then some (record a { deny_all = true })
      else if not (text_eq b.tenant vr.tenant)
      then elim b.policy [
        | none ↦ some (record a { require_allow = true; deny_all = true })
        | some p ↦ cross_authorizer vr p action a
      ]
      else elim b.policy [
        | none ↦ some a
        | some p ↦ elim (deny_evaluator_for std p (principal vr) action (request_context vr)) [
          | none ↦ none
          | some e ↦ some (record a { eval = e })
        ]
      ]

-- `perObjectAuthorizer.denies`.
unfoldable pub denies : PerObjectAuthorizer → Text → Bool
denies a resource =
    if a.deny_all
    then true
    else if not a.require_allow
    then eval_denies a.eval resource
    else not (allows_runes a.allow (runes resource)) || denies_runes a.eval (runes resource)

-- `perObjectAuthorizer.denyReason`.
unfoldable pub deny_reason : PerObjectAuthorizer → Text → DenyReason
deny_reason a resource =
    if not (is_allow_effect a.user_decision.effect)
    then user_policy_reason a.principal a.action a.user_decision
    else elim (denying_statement a.eval (runes resource)) [
      | some i ↦ deny_statement_reason a.policy a.principal a.action resource (some i)
      | none ↦ cross_tenant_reason a.principal a.action resource
    ]

-- `perObjectAuthorizer.allowsEverything`.
unfoldable pub allows_everything : PerObjectAuthorizer → Bool
allows_everything a = not a.deny_all && not a.require_allow && always_allows a.eval
