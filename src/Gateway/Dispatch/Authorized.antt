-- ===== src/Gateway/Dispatch/Authorized.antt =====
-- s3gw/handler.go: a handler runs only behind the checks of its route.
use s3rp.Common.{
  ◌≡◌, ◌⊎◌, sym, subst, refl, inl, inr, Bool, true, false, not, ◌&&◌, Option, none, some, List, [],
  ◌∷◌, ◌++◌, if◌then◌else◌, is_empty, any, All, Text, codes, text_eq, text_eq_sound, Bool-cases,
  Option-cases, arith,
}
use s3rp.Policy.Document.{Platform}
use s3rp.Gateway.Access.{no_cause, permitted, authorize, S3Error, Buckets}
use s3rp.Gateway.Outcome.{
  Outcome, returns, ◌>>=◌, ◌>>◌, new_error, not_implemented, checked-permitted, then-returns,
  bind-returns,
}
use s3rp.Gateway.Headers.{signed, hdr_copy_source, check_ssec, check_sse}
use s3rp.Gateway.Routes.{Query, query_get, HeaderAction, Route, bind_routes}
use s3rp.Gateway.Routes.Tables.{bucket_routes_of, object_routes_of}
use s3rp.Gateway.Routes.Guarded.{is_guarded, all_guarded, is_sound, routes_of-is_sound}
use s3rp.Gateway.Copy.{Url, OpCtx, versioned, CopySource, resolve_copy_source}
use s3rp.Gateway.Copy.Own.{IsReadable, resolve_copy_source-IsReadable}
use s3rp.Gateway.Dispatch.{
  Dispatched, resource_of, is_selected, authorize_action, authorize_headers, authorize_route,
  check_params, check_acl, run_route, operation_of, dispatch_route, dispatch_first, dispatch, bound,
  handle_request,
}

-- The first route that matches.
abbrev pub selected : List Route → Query → Option Route
selected [] q = none
selected (rt ∷ rts) q = if is_selected rt q then some rt else selected rts q

All-any {ℓ} :
    (P : Text → Type ℓ) (a : Text) (xs : List Text) → any (text_eq a) xs ≡ true → All P xs → P a
All-any P a (x ∷ xs) e h = elim (Bool-cases (text_eq a x)) [
  | inl same ↦ subst P (sym (text_eq_sound a x same)) h.0
  | inr other ↦ All-any P a xs (ground arith) h.1
]
All-any P a [] e h = ground arith

All-snoc {ℓ} :
    (P : Text → Type ℓ) (xs : List Text) (a : Text) → All P xs → P a → All P (xs ++ (a ∷ []))
All-snoc P [] a h p = (p, tt)
All-snoc P (x ∷ xs) a h p = (h.0, All-snoc P xs a h.1 p)

-- The actions of an operation: the route's, and the one of the read of a copy source.
abbrev pub with_copied : List Text → Option CopySource → List Text
with_copied actions none = actions
with_copied actions (some src) = actions ++ (src.action ∷ [])

module _ (std : Platform) (url : Url) (s : Buckets) (c : OpCtx) where
  -- The policies permit the requester an action on the request's bucket, or on its object if the
  -- request has a key.
  abbrev pub IsPermitted : Text → Type 0
  IsPermitted action =
      authorize std c.vr c.cfg action
        (if not (is_empty c.key) then c.cfg.name ++ (b'/' ∷ c.key) else c.cfg.name)
      ≡ some permitted

  -- The actions of the headers that the request carries are permitted.
  abbrev pub HeadersPermitted : List HeaderAction → Type 0
  HeadersPermitted has = All (λ ha. (ha.present c.hdr ≡ false) ⊎ IsPermitted ha.action) has

  authorize_action-IsPermitted :
      (action : Text) → authorize_action std url s c action ≡ returns tt → IsPermitted action
  unfolding authorize_action resource_of
  authorize_action-IsPermitted action e = checked-permitted _ e

  authorize_headers-IsPermitted :
      (actions out : List Text) (has : List HeaderAction)
      → authorize_headers std url s c actions has ≡ returns out
      → All IsPermitted actions
      → All IsPermitted out × HeadersPermitted has
  unfolding authorize_headers
  authorize_headers-IsPermitted actions out [] e h = (subst (All IsPermitted) (ground arith) h, tt)
  authorize_headers-IsPermitted actions out (ha ∷ has) e h =
      elim (Bool-cases (not (ha.present c.hdr))) [
        | inl absent ↦
            let rest = authorize_headers-IsPermitted actions out has (ground arith) h in
            (rest.0, (inl (ground arith), rest.1))
        | inr present ↦ elim (Bool-cases (any (text_eq ha.action) actions)) [
          | inl known ↦
              let rest = authorize_headers-IsPermitted actions out has (ground arith) h in
              (rest.0, (inr (All-any IsPermitted ha.action actions known h), rest.1))
          | inr new ↦
              let (ok, more) =
                then-returns (authorize_action std url s c ha.action)
                  (authorize_headers std url s c (actions ++ (ha.action ∷ [])) has) out
                  (ground arith) in
              let p = authorize_action-IsPermitted ha.action ok in
              let rest =
                authorize_headers-IsPermitted (actions ++ (ha.action ∷ [])) out has more
                  (All-snoc IsPermitted actions ha.action h p) in
              (rest.0, (inr p, rest.1))
        ]
      ]

  -- What the policies must permit for a route.
  pub record RoutePermitted (rt : Route) (version : Bool) (actions : List Text) : Type 0 where
    pub listed : All IsPermitted actions
    pub unconditional :
        (is_empty rt.action ≡ true) ⊎ IsPermitted (versioned rt.action rt.version_action version)
    pub conditional : HeadersPermitted rt.hdr_actions

  pub authorize_route-RoutePermitted :
      (rt : Route) (version : Bool) (actions : List Text)
      → authorize_route std url s c rt version ≡ returns actions
      → RoutePermitted rt version actions
  unfolding authorize_route
  authorize_route-RoutePermitted rt version actions e = elim (Bool-cases (is_empty rt.action)) [
    | inl without ↦
        let (listed, headers) =
          authorize_headers-IsPermitted [] actions rt.hdr_actions (ground arith) tt in
        record { listed = listed; unconditional = inl without; conditional = headers }
    | inr has_action ↦
        let action = versioned rt.action rt.version_action version in
        let (ok, more) =
          then-returns (authorize_action std url s c action)
            (authorize_headers std url s c (action ∷ []) rt.hdr_actions) actions (ground arith) in
        let p = authorize_action-IsPermitted action ok in
        let (listed, headers) =
          authorize_headers-IsPermitted (action ∷ []) actions rt.hdr_actions more (p, tt) in
        record { listed = listed; unconditional = inr p; conditional = headers }
  ]

  -- A copy source, if there is one, is readable.
  abbrev pub IsReadableIfAny : Route → Option CopySource → Type 0
  IsReadableIfAny rt none = Unit
  IsReadableIfAny rt (some src) = IsReadable std url s c rt src

  -- What stands behind a handler that runs for a route.
  pub record RouteChecked (rt : Route) (d : Dispatched) : Type 0 where
    pub handled : d.handle ≡ rt.handle
    pub parameters : check_params std url s c rt ≡ returns tt
    pub acl : check_acl std url s c rt ≡ returns tt
    pub actions : List Text
    pub recorded : d.op.actions ≡ with_copied actions d.copied
    pub permitted_actions :
        RoutePermitted rt (not (is_empty (query_get (codes "versionId") c.query))) actions
    pub readable : IsReadableIfAny rt d.copied

  run_route-readable :
      (rt : Route) (actions : List Text) (d : Dispatched)
      → run_route std url s c rt actions ≡ returns d
      → (d.handle ≡ rt.handle)
        × (d.op.actions ≡ with_copied actions d.copied)
        × IsReadableIfAny rt d.copied
  unfolding run_route
  run_route-readable rt actions d e =
      elim (Bool-cases (not (is_empty rt.copy) && not (is_empty (signed c.hdr hdr_copy_source)))) [
        | inl copies ↦
            let (src, found_source, same) =
              bind-returns (resolve_copy_source std url s c rt)
                (λ src. returns (record {
                  op = operation_of std url s c rt rt.copy (actions ++ (src.action ∷ []));
                  copied = some src;
                  handle = rt.handle;
                }))
                d (ground arith) in
            (
              ground arith,
              ground arith,
              let made : some src ≡ d.copied = ground arith in
                  subst (IsReadableIfAny rt) made
                    (resolve_copy_source-IsReadable std url s c rt src found_source),
            )
        | inr plain ↦
            let none_made : none ≡ d.copied = ground arith in
            (ground arith, ground arith, subst (IsReadableIfAny rt) none_made tt)
      ]

  dispatch_route-checked :
      (rt : Route) (d : Dispatched) → dispatch_route std url s c rt ≡ returns d → RouteChecked rt d
  unfolding dispatch_route
  dispatch_route-checked rt d e =
      let version = not (is_empty (query_get (codes "versionId") c.query)) in
      let run : List Text → Outcome Dispatched = λ actions. run_route std url s c rt actions in
      let authorized = authorize_route std url s c rt version in
      let (params, e1) =
        then-returns (check_params std url s c rt)
          (check_acl std url s c rt >> (authorized >>= run)) d e in
      let (acl, e2) = then-returns (check_acl std url s c rt) (authorized >>= run) d e1 in
      let (actions, permits, e3) = bind-returns authorized run d e2 in
      let (handled, recorded, readable) = run_route-readable rt actions d e3 in
      record {
        handled = handled;
        parameters = params;
        acl = acl;
        actions = actions;
        recorded = recorded;
        permitted_actions = authorize_route-RoutePermitted rt version actions permits;
        readable = readable;
      }

  dispatch_first-checked :
      (rts : List Route) (d : Dispatched)
      → dispatch_first std url s c rts ≡ returns d
      → (rt : Route) × (selected rts c.query ≡ some rt) × RouteChecked rt d
  unfolding dispatch_first
  dispatch_first-checked [] d e = absurd (ground arith)
  dispatch_first-checked (rt ∷ rts) d e = elim (Bool-cases (is_selected rt c.query)) [
    | inl here ↦ (rt, ground arith, dispatch_route-checked rt d (ground arith))
    | inr there ↦
        let (r, first, behind) = dispatch_first-checked rts d (ground arith) in
        (r, ground arith, behind)
  ]

  -- If `dispatch` runs a handler, it is the one of the first route that matches the query. The
  -- request has passed the checks of the encryption headers, and the route's checks of the query
  -- parameters and of the ACL headers. The policies permit the requester the route's action, in its
  -- version form if the request names a version, each action that a header of the request adds,
  -- and every action that the operation lists but the one of the copy source; and if there is a
  -- copy source, it is one that the requester may read.
  pub dispatch-permitted :
      (rts : List Route) (d : Dispatched)
      → dispatch std url s c rts ≡ returns d
      → (check_ssec c.hdr ≡ returns tt)
        × (check_sse c.hdr ≡ returns tt)
        × ((rt : Route) × (selected rts c.query ≡ some rt) × RouteChecked rt d)
  unfolding dispatch
  dispatch-permitted rts d e =
      let first = dispatch_first std url s c rts in
      let (ssec, e1) = then-returns (check_ssec c.hdr) (check_sse c.hdr >> first) d e in
      let (sse, e2) = then-returns (check_sse c.hdr) first d e1 in
      (ssec, sse, dispatch_first-checked rts d e2)

  bound-returns :
      (raw : Option (List Route)) (e : S3Error) (rts : List Route)
      → bound std url s c raw e ≡ returns rts
      → (table : List Route) × (raw ≡ some table) × (bind_routes table ≡ some rts)
  unfolding bound
  bound-returns none e rts h = absurd (ground arith)
  bound-returns (some table) e rts h = elim (Option-cases (bind_routes table)) [
    | inl crash ↦ absurd (ground (arith, crash))
    | inr (routes, ok) ↦ (table, refl, ground (arith, ok))
  ]

  -- The table of a request's method, for its bucket without a key and for an object with one.
  abbrev pub table_of : Option (List Route)
  table_of = if is_empty c.key then bucket_routes_of c.verb else object_routes_of c.verb

  pub handle_request-bound :
      (d : Dispatched)
      → handle_request std url s c ≡ returns d
      → (table : List Route) × (rts : List Route) × (table_of ≡ some table)
        × (bind_routes table ≡ some rts)
        × (dispatch std url s c rts ≡ returns d)
  unfolding handle_request
  handle_request-bound d e =
      let (rts, from, e1) = bind-returns _ (dispatch std url s c) d e in
      elim (Bool-cases (is_empty c.key)) [
        | inl of_bucket ↦
            let (table, there, ok) =
              bound-returns (bucket_routes_of c.verb) not_implemented rts
                (ground (arith, from, of_bucket)) in
            (table, rts, ground arith, ok, e1)
        | inr of_object ↦
            let (table, there, ok) =
              bound-returns (object_routes_of c.verb) (new_error 405 "MethodNotAllowed" no_cause)
                rts (ground (arith, from, of_object)) in
            (table, rts, ground arith, ok, e1)
      ]

  -- The table of a request is guarded once it is bound.
  pub table_of-all_guarded :
      (table rts : List Route)
      → table_of ≡ some table
      → bind_routes table ≡ some rts
      → all_guarded rts ≡ true
  table_of-all_guarded table rts from ok =
      let sound : is_sound table ≡ true = elim (Bool-cases (is_empty c.key)) [
        | inl of_bucket ↦ routes_of-is_sound c.verb table (inl (ground arith))
        | inr of_object ↦ routes_of-is_sound c.verb table (inr (ground arith))
      ] in
      ground (arith, sound, ok)

-- A route that is selected from guarded ones is guarded.
pub selected-is_guarded :
    (rts : List Route) (q : Query) (rt : Route)
    → selected rts q ≡ some rt
    → all_guarded rts ≡ true
    → is_guarded rt ≡ true
selected-is_guarded [] q rt h g = absurd (ground arith)
selected-is_guarded (r ∷ rts) q rt h g = elim (Bool-cases (is_selected r q)) [
  | inl here ↦
      let same : r ≡ rt = ground arith in subst (λ x. is_guarded x ≡ true) same (ground arith)
  | inr there ↦ selected-is_guarded rts q rt (ground arith) (ground arith)
]
