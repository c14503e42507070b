-- ===== src/Gateway/Dispatch.antt =====
-- s3gw/handler.go: `dispatch` and the operations of `opCtx` that it calls.
pub mod Authorized
use s3rp.Common.{
  Bool, true, false, not, ◌&&◌, ◌||◌, Option, none, some, List, [], ◌∷◌, ◌++◌, if◌then◌else◌,
  is_empty, any, Text, codes, text_eq,
}
use s3rp.Policy.Document.{Platform}
use s3rp.Store.{Bucket}
use s3rp.Gateway.Access.{VerifiedRequest, no_cause, S3Error, Answer, authorize, Buckets}
use s3rp.Gateway.Outcome.{
  Outcome, returns, fails, panics, ◌>>=◌, ◌>>◌, new_error, not_implemented, fail_if, checked,
}
use s3rp.Gateway.Headers.{
  SignedHeader, signed, hdr_copy_source, check_ssec, check_sse, check_acl_header,
}
use s3rp.Gateway.Routes.{Query, query_get, check, HeaderAction, Handler, Route, bind_routes}
use s3rp.Gateway.Routes.Tables.{bucket_routes_of, object_routes_of}
use s3rp.Gateway.Copy.{Url, OpCtx, versioned, CopySource, resolve_copy_source}

-- The part of `Op` that is set from the route and the request's target.
pub record Op : Type 0 where
  pub verb : Text
  pub operation : Text
  pub actions : List Text
  pub tenant : Text
  pub user : Text
  pub bucket : Text
  pub bucket_owner : Text
  pub key : Text

-- What `dispatch` hands to `runOp`: the operation, the resolved copy source, and the handler.
pub record Dispatched : Type 0 where
  pub op : Op
  pub copied : Option CopySource
  pub handle : Handler

-- The resource of `opCtx.authorize`: the bucket, or bucket/key.
unfoldable pub resource_of : OpCtx → Text
resource_of c = if not (is_empty c.key) then c.cfg.name ++ (b'/' ∷ c.key) else c.cfg.name

-- `route.match`, where nil always matches.
unfoldable pub is_selected : Route → Query → Bool
is_selected rt q = elim rt.selects [ none ↦ true | some test ↦ test q ]

module _ (std : Platform) (url : Url) (s : Buckets) (c : OpCtx) where
  -- `opCtx.authorize`.
  unfoldable pub authorize_action : Text → Outcome (Unit {0})
  unfolding resource_of
  authorize_action action = checked (authorize std c.vr c.cfg action (resource_of c))

  -- The second loop of `authorizeRoute`, with the actions so far.
  unfoldable pub authorize_headers : List Text → List HeaderAction → Outcome (List Text)
  unfolding authorize_action
  authorize_headers actions [] = returns actions
  authorize_headers actions (ha ∷ has) =
      let skipped = authorize_headers actions has in
      let added = authorize_headers (actions ++ (ha.action ∷ [])) has in
      if not (ha.present c.hdr) || any (text_eq ha.action) actions
      then skipped
      else (authorize_action ha.action >> added)

  -- `opCtx.authorizeRoute`, on the header of the request.
  unfoldable pub authorize_route : Route → Bool → Outcome (List Text)
  unfolding authorize_headers authorize_action
  authorize_route rt version =
      let action = versioned rt.action rt.version_action version in
      let headers = authorize_headers [] rt.hdr_actions in
      let further = authorize_headers (action ∷ []) rt.hdr_actions in
      if is_empty rt.action then headers else (authorize_action action >> further)

  -- `rt.params.check`, unless there is none.
  unfoldable pub check_params : Route → Outcome (Unit {0})
  check_params rt = elim rt.params [ none ↦ returns tt | some params ↦ check std params c.query ]

  unfoldable pub check_acl : Route → Outcome (Unit {0})
  check_acl rt = if rt.acl_hdr then check_acl_header c.hdr else returns tt

  abbrev pub operation_of : Route → Text → List Text → Op
  operation_of rt name actions = record {
    verb = c.verb;
    operation = name;
    actions = actions;
    tenant = c.vr.tenant;
    user = c.vr.user;
    bucket = c.cfg.name;
    bucket_owner = c.cfg.tenant;
    key = c.key;
  }

  -- The copy variant of a route: its name, its resolved source, and the action of its read.
  unfoldable pub run_route : Route → List Text → Outcome Dispatched
  run_route rt actions =
      if not (is_empty rt.copy) && not (is_empty (signed c.hdr hdr_copy_source))
      then (resolve_copy_source std url s c rt >>= λ src. returns (record {
        op = operation_of rt rt.copy (actions ++ (src.action ∷ []));
        copied = some src;
        handle = rt.handle;
      }))
      else returns
          (record { op = operation_of rt rt.name actions; copied = none; handle = rt.handle })

  -- The body of the loop, for the route that matches.
  unfoldable pub dispatch_route : Route → Outcome Dispatched
  unfolding check_params check_acl authorize_route run_route
  dispatch_route rt = do
    check_params rt
    check_acl rt
    actions ← authorize_route rt (not (is_empty (query_get (codes "versionId") c.query)))
    run_route rt actions

  -- The loop of `dispatch`.
  unfoldable pub dispatch_first : List Route → Outcome Dispatched
  unfolding dispatch_route is_selected
  dispatch_first [] = fails not_implemented
  dispatch_first (rt ∷ rts) =
      let rest = dispatch_first rts in if is_selected rt c.query then dispatch_route rt else rest

  -- `opCtx.dispatch`, up to `runOp`.
  unfoldable pub dispatch : List Route → Outcome Dispatched
  unfolding dispatch_first
  dispatch routes = do check_ssec c.hdr; check_sse c.hdr; dispatch_first routes

  -- The routes of a method as `bindRoutes` leaves them; its panic is the one of the package's start.
  bound : Option (List Route) → S3Error → Outcome (List Route)
  bound none e = fails e
  bound (some rts) e = elim (bind_routes rts) [ none ↦ panics | some routes ↦ returns routes ]

  -- `handleBucketRequest` and `handleObjectRequest`, by the key, as `handleRequest` calls them.
  unfoldable pub handle_request : Outcome Dispatched
  unfolding bound dispatch
  handle_request = do
    routes ←
        if is_empty c.key
        then bound (bucket_routes_of c.verb) not_implemented
        else bound (object_routes_of c.verb) (new_error 405 "MethodNotAllowed" no_cause)
    dispatch routes
