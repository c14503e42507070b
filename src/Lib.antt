-- ===== src/Lib.antt =====
-- s3rp, a proxy that speaks the S3 API in front of S3 backends: the decisions that it makes about a
-- request before a backend sees it.
--
-- `Verify` authenticates a request by its Authorization header or as a presigned URL: it looks the
-- credential up, takes the signing key from a cache, and compares the signature of the canonical
-- request; `VerifyPost` does so for a form, whose policy the signature is over. The chunks of a
-- streamed body are signed in a chain from there, which the chunked reader follows. A request with a
-- verified signature has a requester, a tenant and a user with an optional policy. `resolveBucket`
-- finds the bucket that it names, which may be another tenant's. `dispatch` picks the route of the
-- operation from the method and the query, checks parameters and headers, and asks `authorize` for
-- each action that the route, and the headers of the request, need. `authorize` evaluates the user's
-- policy and then the bucket's. A copy resolves and authorizes its source as well. A DeleteObjects
-- request authorizes each key through evaluators that are prepared once. An attempt at a backend
-- passes the circuit breaker of that backend.
--
-- The files, and the code that they model:
--   Common             lists, texts as lists of bytes, UTF-8, and what the code uses of `strings`
--   Policy.Document    policy/policy.go, policy/condition.go: the documents
--   Policy.Glob        policy/policy.go: `Match`, `matchRunes`
--   Policy.Condition   policy/condition.go: addresses and prefixes, `parseIPValue`, `compile`, `match`
--   Policy.Statement   policy/policy.go: the tests of one statement, and `compile`
--   Policy.Decide      policy/policy.go: `Policy.Decide`, `Evaluate`, `MentionsPrincipal`
--   Policy.Evaluators  policy/policy.go: `DenyEvaluator`, `AllowEvaluator`
--   Policy.Validate    policy/policy.go: `validate` and its checks, `ValidateResourcesFor`
--   Policy.User        policy/policy.go: `UserPolicy`
--   Cors               cors/cors.go
--   Store              store/store.go, store/validate.go
--   Catalog            s3op/s3op.go, and the data of s3op/s3op_gen.go
--   Checksum           checksum/checksum.go: the algorithms, and which have a hash
--   Sigv4.Chunked      sigv4/chunked.go: Framing its lines, State its state; Frames the chunks as they
--                      stand in a body; Covered, Delivered, Reads and Complete the chain of their
--                      signatures, Trailers and Failures the rest
--   Sigv4.Canonical    sigv4/canonical.go
--   Sigv4.Signer       sigv4/signer.go
--   Sigv4.Requests     sigv4/sigv4.go, sigv4/authfailure.go: errors, credentials, the header's parse
--   Sigv4.Verify       sigv4/sigv4.go: `verifyHeaderRequest`, `checkSignature`
--   Sigv4.Presigned    sigv4/sigv4.go: `verifyPresignedRequest`, `Verify`; Hoisted and Promoted the
--                      headers behind `promoteHoistedQueryParams`
--   Sigv4.PostPolicy   sigv4/postpolicy.go: `VerifyPost`, `evaluatePostPolicy`
--   Sigv4.Crypto, Sigv4.Http  what sigv4/ takes from the Go library, and signing keys
--   Gateway.Access     s3gw/bucketpolicy.go; Reasons s3gw/denyreason.go; Lookup `resolveBucket` of
--                      s3gw/handler.go
--   Gateway.Breaker    s3gw/breaker.go
--   Gateway.Headers    s3gw/headers.go, s3gw/sse.go, s3gw/acl.go: reads and checks of headers
--   Gateway.Routes     s3gw/handler.go: routes, `bindRoutes`, `paramSet.check`; Tables the two tables
--   Gateway.Copy       s3gw/copy.go: `resolveCopySource`
--   Gateway.Dispatch   s3gw/handler.go: `authorizeRoute`, `dispatch` up to `runOp`
--   Gateway.Delete     the authorizers and the loop of `deleteObjects` of s3gw/proxy.go; `addDenial`
--   Gateway.KnownHeaders  s3gw/headers.go: `checkKnownAmzHeaders`
--   Gateway.Identity   s3gw/auth.go: the store's keys as credentials and requesters
--   Gateway.PostObject s3gw/postobject.go: `handlePostObject` up to `runOp`; Form the form and its fields,
--                      Evaluated what its policy is evaluated against
--   Gateway.Requests   s3gw/handler.go, s3gw/addressing.go: `handleRequest` for what is signed,
--                      `requestTarget`; Behind what it checked
--   Tests              the theorems at concrete inputs
-- A Go function has its name in the other spelling (`matchRunes` is `match_runes`), and a loop is a
-- function of its own, with the loop's state as arguments.
--
-- A string is the list of its bytes, and `[]rune(s)` decodes it. A nil pointer is `none`; an index
-- of -1 is `none`; a panic is `none`, or `panics`, and never a value. An error keeps its status, its
-- code and its cause, and loses its message.
-- The loop of `matchRunes` runs on fuel: `enough` bounds it by the lengths of the pattern and of the
-- value, one walk over the value for each place that the last '*' may have been given. Each step
-- goes forward in the value or the pattern, or moves that place on.
-- The loop over the trailers runs on fuel too, more than there are bytes, of which a line takes one.
-- Every other loop is structural.
-- A chunked reader's source is the bytes that are left and what ends them, and a read is told how
-- many it gives, and whether the end or the error comes with the last of them. A hash that is
-- written to is the bytes written. The cache of signing keys maps each index to its slot; a `get` is
-- one step, without its locks. Maps of headers and parameters are lists of keys and values, in the
-- order in which the code ranges over them. The clock of the breaker is a number that each call
-- reads, and `t.Sub(u) < d` is written `t < u + d`. `compileOnce` is a flag of the policy, and what
-- it computes is returned.
--
-- Not code of the repository, and so arguments: `unicode.ToLower`, `netip.ParseAddr` and
-- `netip.ParsePrefix` (Policy.Document.Platform), `url.PathUnescape`, `url.ParseQuery` and
-- `EscapedPath` (Gateway.Copy.Url), HMAC, SHA-256 and the values of checksums (Sigv4.Crypto.Crypto),
-- `strings.ToLower` and times (Sigv4.Http.Library), JSON and base64 (Sigv4.PostPolicy.Decoders), a
-- URL's parts (Sigv4.Http.Url), `SecretLookup`, `http.ParseTime` (Gateway.Delete), a store's lookups
-- (Gateway.Access.Buckets), and the headers of a request by their names
-- (Gateway.Headers.SignedHeader).
--
-- Not modelled: the decoding of JSON and YAML, the file of a POST upload, the handlers that translate
-- an operation into calls of the AWS SDK, hooks, observers and metrics, the rendering of XML, and
-- the commands. Of `Op`, the attributes of the object and the metadata for hooks are left out.
pub mod Common
pub mod Checksum
pub mod Policy
pub mod Cors
pub mod Store
pub mod Catalog
pub mod Sigv4
pub mod Gateway
pub mod Tests
