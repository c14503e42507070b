-- ===== src/Gateway/Access/Baseline.antt =====
-- Who is let through: the own tenant unless denied, another tenant only if allowed.
use Prim.Native.String.{String}
use s3rp.Common.{
  ℕ, ◌≡◌, ◌↔◌, inl, inr, refl, Bool, true, false, not, ◌&&◌, Option, none, some, any, All, arith,
  Text, text_eq, Bool-cases, Option-cases,
}
use s3rp.Policy.Document.{Platform, Policy}
use s3rp.Policy.Decide.{ask, Asked, mentions_principal, undecided}
use s3rp.Policy.Decide.Verdict.{NamesSomebody, covers, denies as denies_statement}
use s3rp.Policy.Evaluators.Refine.{is_allow_effect, decide-any}
use s3rp.Policy.Statement.{compile}
use s3rp.Policy.User
use s3rp.Store.{Bucket}
use s3rp.Gateway.Access.{
  VerifiedRequest, principal, request_context, Answer, refused_for, bucket_policy_reason,
  user_policy_reason, permitted, refused, authorize, authorize_bucket, answer_if_allowed,
  answer_unless_denied, Buckets, Found, found, failed, not_found, unavailable, Resolved, bucket,
  unresolved, resolve_bucket, resolve_foreign, visible,
}

-- The bucket's policy, if it has one, is one that never panics.
abbrev pub HasSoundPolicy : Bucket → Type 0
HasSoundPolicy b = (p : Policy) → b.policy ≡ some p → All NamesSomebody p.statement

abbrev pub is_permitted : Answer → Bool
is_permitted permitted = true
is_permitted (refused _) = false

module _ (std : Platform) (vr : VerifiedRequest) (b : Bucket) (action resource : Text) where
  -- The request as the policy sees it.
  abbrev pub question : Asked
  question = ask std (principal vr) action resource (request_context vr)

  -- Some statement of the policy applies, and some Deny statement does.
  abbrev pub is_covered : Policy → Bool
  is_covered p = any (covers question) (compile std p).statement

  abbrev pub is_denied : Policy → Bool
  is_denied p = any (denies_statement question) (compile std p).statement

  abbrev pub user_allows : Bool
  user_allows = is_allow_effect (User.decide std vr.user_policy action).effect

  -- Whether the bucket's policy lets the request through, by the tenant that asks.
  abbrev pub baseline : Bool → Option Policy → Bool
  baseline true none = true
  baseline true (some p) = not (is_denied p)
  baseline false none = false
  baseline false (some p) = is_covered p && not (is_denied p)

  authorize_bucket-baseline :
      HasSoundPolicy b
      → (ans : Answer) × (authorize_bucket std vr b action resource ≡ some ans)
        × (is_permitted ans ≡ baseline (text_eq b.tenant vr.tenant) b.policy)
  unfolding authorize_bucket answer_if_allowed answer_unless_denied
  authorize_bucket-baseline sound = elim (Bool-cases (text_eq b.tenant vr.tenant)) [
    | inl own ↦ elim (Option-cases b.policy) [
      | inl missing ↦ (permitted, ground arith, ground arith)
      | inr (p, has) ↦
          let (d, decided, isd, isa) =
            decide-any std p (principal vr) action (request_context vr) (sound p has) resource in
          (
            answer_unless_denied (some p) (principal vr) action resource d,
            ground arith,
            ground arith,
          )
    ]
    | inr foreign ↦ elim (Option-cases b.policy) [
      | inl missing ↦ (
        refused_for (bucket_policy_reason none (principal vr) action resource undecided),
        ground arith,
        ground arith,
      )
      | inr (p, has) ↦
          let (d, decided, isd, isa) =
            decide-any std p (principal vr) action (request_context vr) (sound p has) resource in
          (answer_if_allowed (some p) (principal vr) action resource d, ground arith, ground arith)
    ]
  ]

  -- If every statement of the bucket's policy has a Principal or a NotPrincipal element, `authorize`
  -- does not panic, and it permits the request exactly if the user's own policy allows the action and
  -- the bucket's side does: for a bucket of the requester's tenant, no Deny statement applies; for
  -- another tenant's, there is a policy, some statement of it applies and no Deny statement does.
  pub authorize-baseline :
      HasSoundPolicy b
      → (ans : Answer) × (authorize std vr b action resource ≡ some ans)
        × (is_permitted ans ≡ (user_allows && baseline (text_eq b.tenant vr.tenant) b.policy))
  unfolding authorize
  authorize-baseline sound = elim (Bool-cases user_allows) [
    | inl yes_user ↦
        let (ans, run, p) = authorize_bucket-baseline sound in (ans, ground arith, ground arith)
    | inr no_user ↦ (
      refused_for
          (user_policy_reason (principal vr) action (User.decide std vr.user_policy action)),
      ground arith,
      ground arith,
    )
  ]

-- What a resolved bucket is: the requester's own of that name, or another tenant's that the store
-- has under that name and whose policy mentions the requester.
pub data Reachable (s : Buckets) (vr : VerifiedRequest) (name : Text) (b : Bucket) : Type 0 where
  own : s.get_bucket vr.tenant name ≡ found b → Reachable s vr name b
  mentioned :
      (p : Policy)
      → s.get_bucket vr.tenant name ≡ failed not_found
      → s.get_bucket_by_name name ≡ found b
      → b.policy ≡ some p
      → mentions_principal p (principal vr) ≡ true
      → Reachable s vr name b

visible-bucket :
    (vr : VerifiedRequest) (name : Text) (b c : Bucket)
    → visible vr name b ≡ bucket c
    → (b ≡ c) × ((p : Policy) × (b.policy ≡ some p) × (mentions_principal p (principal vr) ≡ true))
unfolding visible
visible-bucket vr name b c h = elim (Option-cases b.policy) [
  | inl missing ↦ absurd (ground arith)
  | inr (p, has) ↦ (ground arith, (p, has, ground arith))
]

-- `resolveBucket` gives a bucket only if it is the requester's own, or the requester owns none of that
-- name and the bucket's policy mentions the requester; and it gives each of these.
pub resolve_bucket_iff :
    (s : Buckets) (vr : VerifiedRequest) (name : Text) (b : Bucket)
    → (resolve_bucket s vr name ≡ bucket b) ↔ Reachable s vr name b
unfolding resolve_bucket resolve_foreign
resolve_bucket_iff s vr name b = (to, from)
  where
    foreign :
        (f : Found Bucket)
        → s.get_bucket vr.tenant name ≡ failed not_found
        → s.get_bucket_by_name name ≡ f
        → resolve_foreign s vr name ≡ bucket b
        → Reachable s vr name b
    foreign (found c) own_missing e h =
        let (same, (p, has, named)) = visible-bucket vr name c b (rw (e, resolve_foreign) at h) in
        mentioned p own_missing (rw (← same) e) (rw (← same) has) named
    foreign (failed not_found) own_missing e h = absurd (ground arith)
    foreign (failed unavailable) own_missing e h = absurd (ground arith)

    first :
        (f : Found Bucket)
        → s.get_bucket vr.tenant name ≡ f
        → resolve_bucket s vr name ≡ bucket b
        → Reachable s vr name b
    first (found c) e h = own (ground arith)
    first (failed not_found) e h = foreign (s.get_bucket_by_name name) e refl (ground arith)
    first (failed unavailable) e h = absurd (ground arith)

    to : resolve_bucket s vr name ≡ bucket b → Reachable s vr name b
    to h = first (s.get_bucket vr.tenant name) refl h

    from : Reachable s vr name b → resolve_bucket s vr name ≡ bucket b
    from (own e) = ground arith
    from (mentioned p e f has named) = unfold visible in ground arith

-- The bucket is hidden from the requester: nobody has one of that name, or its owner's policy does
-- not mention the requester.
pub data Hidden (s : Buckets) (vr : VerifiedRequest) (name : Text) : Type 0 where
  nowhere : s.get_bucket_by_name name ≡ failed not_found → Hidden s vr name
  no_policy :
      (b : Bucket) → s.get_bucket_by_name name ≡ found b → b.policy ≡ none → Hidden s vr name
  unmentioned :
      (b : Bucket) (p : Policy)
      → s.get_bucket_by_name name ≡ found b
      → b.policy ≡ some p
      → mentions_principal p (principal vr) ≡ false
      → Hidden s vr name

-- What the client is told of a resolution: no more than the status and the code.
abbrev pub told : Resolved → Option (ℕ × String)
told (bucket b) = none
told (unresolved e) = some (e.status, e.code)

-- A requester that owns no bucket of the name is told the same of every hidden bucket, whether it
-- exists or not: 403 AccessDenied.
pub resolve_bucket-Hidden :
    (s : Buckets) (vr : VerifiedRequest) (name : Text)
    → s.get_bucket vr.tenant name ≡ failed not_found
    → Hidden s vr name
    → told (resolve_bucket s vr name) ≡ some (403, "AccessDenied")
unfolding resolve_bucket resolve_foreign visible
resolve_bucket-Hidden s vr name e (nowhere f) = ground arith
resolve_bucket-Hidden s vr name e (no_policy b f n) = ground arith
resolve_bucket-Hidden s vr name e (unmentioned b p f has n) = ground arith
