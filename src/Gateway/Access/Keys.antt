-- ===== src/Gateway/Access/Keys.antt =====
-- The authorizer of a DeleteObjects request against `authorize`, key by key.
use s3rp.Common.{
  ◌≡◌, ◌⊎◌, inl, inr, refl, Bool, true, false, not, ◌&&◌, Option, none, some, All, arith, Text,
  Runes, runes, text_eq, Bool-cases, Option-cases,
}
use s3rp.Policy.Document.{Platform, Policy}
use s3rp.Policy.Decide.{undecided}
use s3rp.Policy.Decide.Verdict.{NamesSomebody}
use s3rp.Policy.Evaluators.{
  always_denies, always_allows, allows, denies_runes, denies as eval_denies, denying_statement,
}
use s3rp.Policy.Evaluators.Refine.{
  is_allow_effect, HasEffect, deny_evaluator_for-decide, allow_evaluator_for-decide,
}
use s3rp.Policy.Statement.{match_index_runes}
use s3rp.Policy.User
use s3rp.Store.{Bucket}
use s3rp.Gateway.Access.{
  VerifiedRequest, principal, request_context, Answer, permitted, refused_for, authorize,
  authorize_bucket, answer_if_allowed, answer_unless_denied, PerObjectAuthorizer,
  per_object_authorizer, fresh_authorizer, cross_authorizer, denies, deny_reason, allows_everything,
  user_policy_reason, bucket_policy_reason, no_denials,
}
use s3rp.Gateway.Access.Baseline.{is_permitted}

abbrev pub has_policy : Option Policy → Bool
has_policy none = false
has_policy (some _) = true

-- The bucket's policy, if it has one, is a validated one as far as evaluation needs it.
pub record HasValidPolicy (b : Bucket) : Type 0 where
  pub somebody : (p : Policy) → b.policy ≡ some p → All NamesSomebody p.statement
  pub effect : (p : Policy) → b.policy ≡ some p → All HasEffect p.statement

-- Whether the authorizer was built without the shortcut for a foreign policy that grants nothing.
abbrev pub is_explained : Bucket → PerObjectAuthorizer → Bool
is_explained b a = not (a.require_allow && a.deny_all && has_policy b.policy)

-- An authorizer answers for a key as `authorize` does on the key's resource, with the same reason.
pub record Agrees (std : Platform) (vr : VerifiedRequest) (b : Bucket) (action : Text)
    (a : PerObjectAuthorizer) (resource : Text) : Type 0 where
  pub ans : Answer
  pub authorized : authorize std vr b action resource ≡ some ans
  pub same_answer : denies a resource ≡ not (is_permitted ans)
  pub same_reason :
      (is_explained b a ≡ false)
      ⊎ (is_permitted ans ≡ true)
      ⊎ (ans ≡ refused_for (deny_reason a resource))

no_denials-denying_statement : (resource : Runes) → denying_statement no_denials resource ≡ none
unfolding denying_statement match_index_runes
no_denials-denying_statement resource = refl

module _ (std : Platform) (vr : VerifiedRequest) (b : Bucket) (action : Text) where
  abbrev user_allows : Bool
  user_allows = is_allow_effect (User.decide std vr.user_policy action).effect

  abbrev Built : Type 0
  Built =
      (a : PerObjectAuthorizer) × (per_object_authorizer std vr b action ≡ some a)
      × ((resource : Text) → Agrees std vr b action a resource)

  -- The requester's own policy does not allow the action.
  user-Agrees : user_allows ≡ false → Built
  unfolding per_object_authorizer authorize denies deny_reason
  user-Agrees u =
      let a = fresh_authorizer std vr b action in
      (
        record a { deny_all = true },
        ground arith,
        λ r. record {
          ans =
              refused_for
                (user_policy_reason (principal vr) action (User.decide std vr.user_policy action));
          authorized = ground arith;
          same_answer = refl;
          same_reason = ground arith;
        },
      )

  -- The requester's own tenant.
  own-Agrees : HasValidPolicy b → user_allows ≡ true → text_eq b.tenant vr.tenant ≡ true → Built
  unfolding per_object_authorizer authorize authorize_bucket answer_unless_denied denies eval_denies
      deny_reason
  own-Agrees v u t = elim (Option-cases b.policy) [
    | inl missing ↦ (
      fresh_authorizer std vr b action,
      ground arith,
      λ r. record {
        ans = permitted;
        authorized = ground arith;
        same_answer = refl;
        same_reason = inr (inl refl);
      },
    )
    | inr (p, has) ↦
        let (e, built, same) =
          deny_evaluator_for-decide std p (principal vr) action (request_context vr)
            (v.somebody p has) in
        let a = fresh_authorizer std vr b action in
        (
          record a { eval = e },
          ground arith,
          λ r.
              let (d, decided, denied, by, named) = same r in
              record {
                ans = answer_unless_denied (some p) (principal vr) action r d;
                authorized = ground arith;
                same_answer = ground arith;
                same_reason = ground arith;
              },
        )
  ]

  -- Another tenant's bucket.
  foreign-Agrees :
      HasValidPolicy b → user_allows ≡ true → text_eq b.tenant vr.tenant ≡ false → Built
  unfolding per_object_authorizer authorize authorize_bucket answer_if_allowed denies eval_denies
      deny_reason cross_authorizer allows always_denies
  foreign-Agrees v u t = elim (Option-cases b.policy) [
    | inl missing ↦
        let a = fresh_authorizer std vr b action in
        (
          record a { require_allow = true; deny_all = true },
          ground arith,
          λ r. record {
            ans = refused_for (bucket_policy_reason none (principal vr) action r undecided);
            authorized = ground arith;
            same_answer = refl;
            same_reason = ground (arith, no_denials-denying_statement (runes r));
          },
        )
    | inr (p, has) ↦
        let (e, built, same) =
          deny_evaluator_for-decide std p (principal vr) action (request_context vr)
            (v.somebody p has) in
        let (e', g, built', granted, both) =
          allow_evaluator_for-decide std p (principal vr) action (request_context vr)
            (v.somebody p has) (v.effect p has) in
        let a = fresh_authorizer std vr b action in
        elim (Bool-cases (always_denies g)) [
          | inl hopeless ↦ (
            record a { require_allow = true; allow = g; deny_all = true },
            ground arith,
            λ r.
                let (d, decided, allowed) = both r in
                record {
                  ans = answer_if_allowed (some p) (principal vr) action r d;
                  authorized = ground arith;
                  same_answer = ground arith;
                  same_reason = ground arith;
                },
          )
          | inr grants ↦ (
            record a { require_allow = true; allow = g; eval = e },
            ground arith,
            λ r.
                let (d, decided, allowed) = both r in
                let (d', decided', denied, by, named) = same r in
                record {
                  ans = answer_if_allowed (some p) (principal vr) action r d;
                  authorized = ground arith;
                  same_answer = ground arith;
                  same_reason = ground arith;
                },
          )
        ]
  ]

  -- If the statements of the bucket's policy have a principal element and one of the two effects,
  -- `perObjectAuthorizer` does not panic, and the authorizer that it builds answers for every
  -- resource as `authorize` does on that resource: it denies exactly what `authorize` refuses. The
  -- reason that it gives for a refusal is the one that `authorize` gives, unless the bucket is
  -- another tenant's whose policy allows the principal no key at all.
  pub per_object_authorizer-authorize : HasValidPolicy b → Built
  per_object_authorizer-authorize v = elim (Bool-cases user_allows) [
    | inl u ↦ elim (Bool-cases (text_eq b.tenant vr.tenant)) [
      | inl t ↦ own-Agrees v u t
      | inr t ↦ foreign-Agrees v u t
    ]
    | inr u ↦ user-Agrees u
  ]

-- An authorizer for which `allowsEverything` holds denies no resource.
pub allows_everything-denies :
    (a : PerObjectAuthorizer) (resource : Text)
    → allows_everything a ≡ true
    → denies a resource ≡ false
unfolding allows_everything denies always_allows eval_denies denies_runes
allows_everything-denies a resource h = ground arith
