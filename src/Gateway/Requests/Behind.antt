-- ===== src/Gateway/Requests/Behind.antt =====
-- s3gw/handler.go: what stands behind a request that reaches the hooks.
use s3rp.Common.{
  ◌≡◌, inl, inr, refl, ap, subst, true, not, some, List, [], ◌∷◌, is_empty, Text, codes, text_eq,
  text_eq_sound, Bool-cases, Option-cases, arith,
}
use s3rp.Policy.User
use s3rp.Policy.Document.{Addr}
use s3rp.Store.{Bucket}
use s3rp.Sigv4.Http.{HttpRequest}
use s3rp.Sigv4.Signer.{SigningKeyId, SignerCache}
use s3rp.Sigv4.Signer.Sound.{Sound}
use s3rp.Sigv4.Verify.{Verified, verified_of}
use s3rp.Sigv4.Verify.Signed.{Faithful}
use s3rp.Sigv4.Presigned.{verify}
use s3rp.Sigv4.Presigned.Promoted.{LowersCase}
use s3rp.Sigv4.Presigned.Authentic.{Authentic, verify-Authentic}
use s3rp.Gateway.Access.{VerifiedRequest, bucket, resolve_bucket, no_cause}
use s3rp.Gateway.Outcome.{returns, fail_if, not_implemented, new_error, then-returns, bind-returns}
use s3rp.Gateway.Headers.{new_signed_header}
use s3rp.Gateway.Copy.{OpCtx}
use s3rp.Gateway.KnownHeaders.{all_known_headers}
use s3rp.Gateway.Routes.{check, Route, bind_routes}
use s3rp.Gateway.Routes.Guarded.{is_guarded}
use s3rp.Gateway.Dispatch.{Dispatched, handle_request}
use s3rp.Gateway.Dispatch.Authorized.{
  selected, RouteChecked, dispatch-permitted, table_of, handle_request-bound, table_of-all_guarded,
  selected-is_guarded,
}
use s3rp.Gateway.Identity.{
  StoreKey, secret_lookup, captured, identify, as_outcome, as_outcome-accepted,
}
use s3rp.Gateway.PostObject.{Surroundings, as_resolved, or_panic}
use s3rp.Gateway.PostObject.Permitted.{or_panic-returns, as_resolved-returns}
use s3rp.Gateway.Requests.{
  Addressing, request_target, presented_token, Handled, on_bucket, list_buckets,
  list_all_my_buckets, identified_request, bucket_ctx, serve_account, serve_bucket, serve_verified,
  handle_verified,
}

module _ (g : Surroundings) (adr : Addressing) (source_ip : Addr) where
  -- The route that was taken: the first that matches of the program's table for the method and the
  -- kind of target, as `bindRoutes` leaves it from the catalog, which is guarded.
  abbrev pub IsRouted : OpCtx → Dispatched → Type 0
  IsRouted c d =
      (table : List Route) × (routes : List Route) × (rt : Route) × (table_of g.std g.url g.buckets
          c
        ≡ some table)
      × (bind_routes table ≡ some routes)
      × (selected routes c.query ≡ some rt)
      × (is_guarded rt ≡ true)
      × RouteChecked g.std g.url g.buckets c rt d

  -- What stands behind each kind of operation.
  abbrev pub IsServed : HttpRequest → VerifiedRequest → Verified → Handled → Type 0
  IsServed sent vr w (list_buckets who) =
      (who ≡ vr)
      × (sent.method ≡ codes "GET")
      × (User.allows g.std vr.user_policy list_all_my_buckets ≡ true)
  IsServed sent vr w (on_bucket c d) =
      (b : Bucket) × (name : Text) × (key : Text) × (request_target g.verifier.lib g.url adr sent
        ≡ some (name, key))
      × (resolve_bucket g.buckets vr name ≡ bucket b)
      × (c ≡ record {
        verb = sent.method;
        cfg = b;
        vr = vr;
        hdr = new_signed_header g.verifier.lib sent.header w.signed_headers;
        query = sent.url.query;
        key = key;
      })
      × IsRouted c d

  handle_request-IsRouted :
      (c : OpCtx) (d : Dispatched)
      → handle_request g.std g.url g.buckets c ≡ returns d
      → IsRouted c d
  handle_request-IsRouted c d e =
      let (table, routes, from, ok, e1) = handle_request-bound g.std g.url g.buckets c d e in
      let (ssec, sse, (rt, first, behind)) =
        dispatch-permitted g.std g.url g.buckets c routes d e1 in
      let guarded = table_of-all_guarded g.std g.url g.buckets c table routes from ok in
      (
        table,
        routes,
        rt,
        from,
        ok,
        first,
        selected-is_guarded routes c.query rt first guarded,
        behind,
      )

  serve_bucket-IsServed :
      (sent : HttpRequest) (vr : VerifiedRequest) (w : Verified) (name key : Text) (h : Handled)
      → request_target g.verifier.lib g.url adr sent ≡ some (name, key)
      → serve_bucket g adr source_ip sent vr w (name, key) ≡ returns h
      → IsServed sent vr w h
  unfolding serve_bucket
  serve_bucket-IsServed sent vr w name key h target e =
      let (b, found_it, e1) = bind-returns (as_resolved (resolve_bucket g.buckets vr name)) _ h e in
      let (client, e2) =
        then-returns (fail_if (not (g.has_client b)) (new_error 500 "InternalError" no_cause)) _ h
          e1 in
      let (d, dispatched, made) =
        bind-returns
          (handle_request g.std g.url g.buckets (bucket_ctx g adr source_ip sent vr w b key)) _ h
          e2 in
      let here : on_bucket (bucket_ctx g adr source_ip sent vr w b key) d ≡ h = ground arith in
      subst (IsServed sent vr w) here (
        b,
        name,
        key,
        target,
        as_resolved-returns (resolve_bucket g.buckets vr name) b found_it,
        refl,
        handle_request-IsRouted (bucket_ctx g adr source_ip sent vr w b key) d dispatched,
      )

  serve_account-IsServed :
      (sent : HttpRequest) (vr : VerifiedRequest) (w : Verified) (h : Handled)
      → serve_account g adr source_ip sent vr ≡ returns h
      → IsServed sent vr w h
  unfolding serve_account
  serve_account-IsServed sent vr w h e =
      let (gets, e1) =
        then-returns
          (fail_if (not (text_eq sent.method (codes "GET")))
            (new_error 405 "MethodNotAllowed" no_cause))
          _ h e in
      let (params, e2) =
        then-returns
          (check g.std (codes "max-buckets" ∷ codes "continuation-token" ∷ []) sent.url.query) _ h
          e1 in
      let (allowed, made) =
        then-returns (fail_if (not (User.allows g.std vr.user_policy list_all_my_buckets)) _) _ h
          e2 in
      let here : list_buckets vr ≡ h = ground arith in
      subst (IsServed sent vr w) here
        (refl, text_eq_sound sent.method (codes "GET") (ground arith), ground arith)

  serve_verified-IsServed :
      (sent : HttpRequest) (vr : VerifiedRequest) (w : Verified) (h : Handled)
      → serve_verified g adr source_ip sent vr w ≡ returns h
      → (all_known_headers g.verifier.lib g.offered sent.header ≡ true) × IsServed sent vr w h
  unfolding serve_verified
  serve_verified-IsServed sent vr w h e =
      let (known, e1) =
        then-returns
          (fail_if (not (all_known_headers g.verifier.lib g.offered sent.header)) not_implemented) _
          h e in
      elim (Option-cases (request_target g.verifier.lib g.url adr sent)) [
        | inl bad ↦ absurd (ground (arith, e1, bad))
        | inr ((name, key), target) ↦ elim (Bool-cases (is_empty name)) [
          | inl without ↦ (
            ground arith,
            serve_account-IsServed sent vr w h (ground (arith, e1, target, without)),
          )
          | inr named ↦ (
            ground arith,
            serve_bucket-IsServed sent vr w name key h target (ground (arith, e1, target, named)),
          )
        ]
      ]

  -- The token that the key is looked up with is the one that `Verify` has checked.
  presented_token-admitted :
      (secrets : SigningKeyId → Text) (r sent : HttpRequest) (w : Verified)
      → (a : Authentic g.verifier secrets (secret_lookup g.get_key) r w sent)
      → presented_token r ≡ a.admitted.token
  unfolding presented_token
  presented_token-admitted secrets r sent w a = elim a.origin [
    | inl (plain, by_header, kept, alone) ↦ ground (arith, plain, by_header.token_is)
    | inr (asked, by_query, hoists) ↦ ground (arith, asked, by_query.token_is)
  ]

  -- What stands behind a request that reaches the hooks: the verified signature, of the request as the
  -- handlers get it; the store's key that it was made with; and what was checked of the operation.
  pub record RequestPermitted (secrets : SigningKeyId → Text) (cache : SignerCache)
      (r : HttpRequest) (h : Handled) : Type 0 where
    pub verified : Verified
    pub authentic :
        Authentic g.verifier secrets
          (secret_lookup g.get_key)
          r
          verified
          (verify g.verifier cache r (secret_lookup g.get_key)).2
    pub owner : StoreKey
    pub owner_is :
        captured g.get_key authentic.claim.access_key_id authentic.admitted.token ≡ some owner
    pub requester : VerifiedRequest
    pub requester_is : requester ≡ record {
      tenant = owner.tenant;
      user = owner.user;
      user_policy = owner.user_policy;
      source_ip = source_ip;
    }
    pub known :
        all_known_headers g.verifier.lib g.offered
          (verify g.verifier cache r (secret_lookup g.get_key)).2.header
        ≡ true
    pub served :
        IsServed (verify g.verifier cache r (secret_lookup g.get_key)).2 requester verified h

  -- A request that reaches the hooks was authenticated by `Verify`; the requester is the one of the
  -- store's key for the access key id and the token that were verified; every "x-amz-" header is known; and the
  -- operation is ListBuckets by GET, which the user policy allows, or an operation on the bucket that
  -- the path or the host names and the requester reaches, on which `dispatch` took the first route
  -- that matches, of the program's table for the method as the catalog binds it, behind its checks and
  -- authorizations, with the headers as the signature covers them; a route to a method of the gateway
  -- authorizes an action, but for DeleteObjects.
  pub handle_verified-RequestPermitted :
      (secrets : SigningKeyId → Text) (cache : SignerCache) (r : HttpRequest) (h : Handled)
      → Faithful (secret_lookup g.get_key) secrets
      → LowersCase g.verifier.lib
      → Sound g.verifier.crypto secrets cache
      → (handle_verified g adr source_ip cache r).0 ≡ returns h
      → RequestPermitted secrets cache r h
  unfolding handle_verified identified_request verified_of identify
  handle_verified-RequestPermitted secrets cache r h faithful lowers sound e =
      let lookup = secret_lookup g.get_key in
      let checked = (verify g.verifier cache r lookup).0 in
      let sent = (verify g.verifier cache r lookup).2 in
      let (who, known_as, e1) = bind-returns (identified_request g adr source_ip r checked) _ h e in
      let (w, passed, e2) = bind-returns (as_outcome checked) _ who known_as in
      let (k, taken, e3) =
        bind-returns (or_panic (captured g.get_key w.access_key_id (presented_token r))) _ who e2 in
      let is_who : who ≡ (identify k source_ip, w) = ground arith in
      let e4 : serve_verified g adr source_ip sent (identify k source_ip) w ≡ returns h =
        subst (λ x. serve_verified g adr source_ip sent x.0 x.1 ≡ returns h) is_who e1 in
      let (known, served) = serve_verified-IsServed sent (identify k source_ip) w h e4 in
      let accepted_it = as_outcome-accepted checked w passed in
      elim ((verify-Authentic g.verifier secrets lookup cache r faithful lowers sound).1) [
        | inr (x, refused) ↦ absurd (ground (arith, accepted_it, refused))
        | inl (w', passed', a) ↦
            let one : w' ≡ w = ground (arith, accepted_it, passed') in
            let a' = subst (λ x. Authentic g.verifier secrets lookup r x sent) one a in
            let id_is : w.access_key_id ≡ a'.claim.access_key_id =
              ap (λ x. x.access_key_id) a'.result in
            record {
              verified = w;
              authentic = a';
              owner = k;
              owner_is =
                  subst (λ x. captured g.get_key x a'.admitted.token ≡ some k) id_is
                    (subst (λ x. captured g.get_key w.access_key_id x ≡ some k)
                      (presented_token-admitted secrets r sent w a') (or_panic-returns _ k taken));
              requester = identify k source_ip;
              requester_is = refl;
              known = known;
              served = served;
            }
      ]
