-- ===== src/Gateway/Delete/Permitted.antt =====
-- s3gw/proxy.go: `deleteObjects` sends to the backend exactly the keys that the policies permit.
use s3rp.Common.{
  ℕ, ◌≡◌, ◌⊎◌, inl, inr, refl, Bool, true, false, not, ◌&&◌, ◌||◌, Option, none, some, List, [],
  ◌∷◌, map, if◌then◌else◌, any, All, Text, Bool-cases, arith,
}
use s3rp.Policy.Document.{Platform}
use s3rp.Policy.Evaluators.Agree.{is_some}
use s3rp.Store.{Bucket}
use s3rp.Gateway.Access.{VerifiedRequest, authorize, PerObjectAuthorizer, denies, allows_everything}
use s3rp.Gateway.Access.Baseline.{is_permitted}
use s3rp.Gateway.Access.Keys.{
  HasValidPolicy, per_object_authorizer-authorize, allows_everything-denies,
}
use s3rp.Gateway.Outcome.{returns}
use s3rp.Gateway.Delete.{
  Denial, DeleteEntry, Authorizers, Sorted, names_version, delete_object, delete_object_version,
  bypass_governance, object_resource, refusal, sort_entries, authorizer_if, prepare,
}
use s3rp.Gateway.Delete.Sorting.{filter, named, sent, refusal-is_some, sort_entries-filter}

module _ (std : Platform) (vr : VerifiedRequest) (b : Bucket) where
  -- `authorize` permits an action on a resource.
  abbrev pub permits : Text → Text → Bool
  permits action resource = elim (authorize std vr b action resource) [
    | none ↦ false
    | some ans ↦ is_permitted ans
  ]

  -- The policies permit the deletion of an entry: of the version if it names one, and with the bypass
  -- of the governance mode if the request asks for that.
  abbrev pub may_delete : Bool → DeleteEntry → Bool
  may_delete bypass o =
      permits (if names_version o then delete_object_version else delete_object)
        (object_resource b o)
      && (not bypass || permits bypass_governance (object_resource b o))

  authorizer-denies :
      (action : Text) (a : PerObjectAuthorizer)
      → HasValidPolicy b
      → authorizer_if std vr b true action ≡ some a
      → (resource : Text) → denies a resource ≡ not (permits action resource)
  unfolding authorizer_if
  authorizer-denies action a v e resource =
      let (a', built, agrees) = per_object_authorizer-authorize std vr b action v in
      let same : a' ≡ a = ground arith in
      let r = agrees resource in
      let authorized = r.authorized in let answer = r.same_answer in ground arith

  -- An authorizer that is needed denies what is not permitted, and if it allows everything, the
  -- resource is permitted.
  authorizer-permits :
      (needed : Bool) (action resource : Text) (a : PerObjectAuthorizer)
      → HasValidPolicy b
      → authorizer_if std vr b needed action ≡ some a
      → (needed ≡ false)
        ⊎ ((denies a resource ≡ not (permits action resource))
            × ((allows_everything a ≡ false) ⊎ (permits action resource ≡ true)))
  authorizer-permits false action resource a v e = inl refl
  authorizer-permits true action resource a v e =
      let d = authorizer-denies action a v e resource in
      inr (
        d,
        elim (Bool-cases (allows_everything a)) [
          | inl every ↦
              let none_denied = allows_everything-denies a resource every in inr (ground arith)
          | inr some_denied ↦ inl some_denied
        ],
      )

  -- What `prepare` leaves for one entry, once the flags that it needs are set.
  prepared-refusal :
      (bypass plain version : Bool) (d v y : PerObjectAuthorizer) (a : Authorizers)
      (o : DeleteEntry)
      → HasValidPolicy b
      → authorizer_if std vr b plain delete_object ≡ some d
      → authorizer_if std vr b version delete_object_version ≡ some v
      → authorizer_if std vr b bypass bypass_governance ≡ some y
      → a ≡ record {
        del = d;
        ver = v;
        bypass_auth = y;
        bypass = bypass;
        check_per_object =
            (plain && not (allows_everything d))
            || (version && not (allows_everything v))
            || (bypass && not (allows_everything y));
      }
      → (names_version o ≡ true) ⊎ (plain ≡ true)
      → (names_version o ≡ false) ⊎ (version ≡ true)
      → is_some (refusal b a o) ≡ not (may_delete bypass o)
  prepared-refusal bypass plain version d v y a o valid ed ev ey ea np nv =
      let r = object_resource b o in
      let fd = authorizer-permits plain delete_object r d valid ed in
      let fv = authorizer-permits version delete_object_version r v valid ev in
      let fy = authorizer-permits bypass bypass_governance r y valid ey in
      let p = permits (if names_version o then delete_object_version else delete_object) r in
      let q = permits bypass_governance r in
      let main : denies (if names_version o then a.ver else a.del) r ≡ not p =
        elim (Bool-cases (names_version o)) [ inl e ↦ ground arith | inr e ↦ ground arith ] in
      let by : (a.bypass ≡ false) ⊎ (denies a.bypass_auth r ≡ not q) = ground arith in
      let checks : (a.check_per_object ≡ true) ⊎ ((p && (not a.bypass || q)) ≡ true) =
        elim (Bool-cases (names_version o)) [ inl e ↦ ground arith | inr e ↦ ground arith ] in
      let result = refusal-is_some b a o p q main by checks in
      let flag : a.bypass ≡ bypass = ground arith in cc (result, flag)

  prepared-refusals :
      (bypass plain version : Bool) (d v y : PerObjectAuthorizer) (a : Authorizers)
      → HasValidPolicy b
      → authorizer_if std vr b plain delete_object ≡ some d
      → authorizer_if std vr b version delete_object_version ≡ some v
      → authorizer_if std vr b bypass bypass_governance ≡ some y
      → a ≡ record {
        del = d;
        ver = v;
        bypass_auth = y;
        bypass = bypass;
        check_per_object =
            (plain && not (allows_everything d))
            || (version && not (allows_everything v))
            || (bypass && not (allows_everything y));
      }
      → (os : List DeleteEntry) → (any (λ o. not (names_version o)) os ≡ false) ⊎ (plain ≡ true)
      → (any names_version os ≡ false) ⊎ (version ≡ true)
      → All (λ o. is_some (refusal b a o) ≡ not (may_delete bypass o)) os
  prepared-refusals bypass plain version d v y a valid ed ev ey ea [] np nv = tt
  prepared-refusals bypass plain version d v y a valid ed ev ey ea (o ∷ os) np nv =
      let here =
        prepared-refusal bypass plain version d v y a o valid ed ev ey ea (ground arith)
          (ground arith) in
      (
        here,
        prepared-refusals bypass plain version d v y a valid ed ev ey ea os (ground arith)
            (ground arith),
      )

  -- A needed authorizer is always built.
  authorizer_if-some :
      (needed : Bool) (action : Text)
      → HasValidPolicy b
      → (a : PerObjectAuthorizer) × (authorizer_if std vr b needed action ≡ some a)
  unfolding authorizer_if
  authorizer_if-some true action v =
      let (a, built, agrees) = per_object_authorizer-authorize std vr b action v in (a, built)
  authorizer_if-some false action v = (_, refl)

  -- For a bucket with a valid policy, `deleteObjects` prepares its authorizers without a panic, and
  -- whatever it has prepared refuses exactly the entries that `authorize` does not permit.
  pub prepare-may_delete :
      (bypass : Bool) (os : List DeleteEntry)
      → HasValidPolicy b
      → (a : Authorizers) × (prepare std vr b bypass os ≡ some a)
        × All (λ o. is_some (refusal b a o) ≡ not (may_delete bypass o)) os
  unfolding prepare
  prepare-may_delete bypass os valid =
      let plain = any (λ o. not (names_version o)) os in
      let version = any names_version os in
      let (d, ed) = authorizer_if-some plain delete_object valid in
      let (v, ev) = authorizer_if-some version delete_object_version valid in
      let (y, ey) = authorizer_if-some bypass bypass_governance valid in
      let a : Authorizers = record {
        del = d;
        ver = v;
        bypass_auth = y;
        bypass = bypass;
        check_per_object =
            (plain && not (allows_everything d))
            || (version && not (allows_everything v))
            || (bypass && not (allows_everything y));
      } in
      (
        a,
        ground arith,
        prepared-refusals bypass plain version d v y a valid ed ev ey refl os (ground arith)
            (ground arith),
      )

  -- If the bucket's policy is valid and `deleteObjects` sorts the entries of a request without an
  -- error, the objects that it sends to the backend are those that the policies permit the
  -- requester to delete, in their order, by `authorize` on each key with the action of the entry,
  -- and with the bypass action if the request asks for the bypass; and the entries that it reports
  -- as errors are the others.
  pub sort_entries-may_delete :
      (parse_time : Text → Option ℕ) (bypass : Bool) (ds : List Denial) (os : List DeleteEntry)
      (a : Authorizers) (s : Sorted)
      → HasValidPolicy b
      → prepare std vr b bypass os ≡ some a
      → (sort_entries parse_time b a ds os).1 ≡ returns s
      → (map sent s.objects ≡ map named (filter (may_delete bypass) os))
        × (s.errors ≡ filter (λ o. not (may_delete bypass o)) os)
  sort_entries-may_delete parse_time bypass ds os a s valid e r =
      let (a', e', all) = prepare-may_delete bypass os valid in
      let same : a' ≡ a = ground arith in
      sort_entries-filter parse_time b a (may_delete bypass) ds os s (rw same at all) r
