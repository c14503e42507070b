-- ===== src/Sigv4/Canonical.antt =====
-- sigv4/canonical.go: the canonical form of a request, which its signature is over.
pub mod Whitespace
pub mod SignedList
use s3rp.Common.{
  ℕ, Bool, true, false, not, ◌&&◌, ◌||◌, Option, none, some, List, [], ◌∷◌, ◌++◌, if◌then◌else◌,
  is_empty, any, ltb, ◌==◌, Text, codes, text_eq, cut, trim_prefix, trim_space, join, itoa,
  contains_byte,
}
use s3rp.Sigv4.Crypto.{Crypto, to_hex}
use s3rp.Sigv4.Http.{
  Library, Values, values_of, delete_key, sort_strings, encode, canonical_header_key, text_less,
  Url, HttpRequest,
}

-- The loop of `checkSignedHeaderList`, with the name before and whether host was seen; `false` is
-- an error.
unfoldable pub check_names : Library → Option Text → Bool → List Text → Bool
unfolding text_less
check_names lib before has_host [] = has_host
check_names lib before has_host (n ∷ names) =
    let rest = check_names lib (some n) (has_host || text_eq n (codes "host")) names in
    if is_empty n || not (text_eq n (lib.to_lower n))
    then false
    else if (elim before [ none ↦ false | some b ↦ not (text_less b n) ])
    then false
    else if text_eq n (codes "authorization")
    then false
    else rest

-- `checkSignedHeaderList`.
unfoldable pub check_signed_header_list : Library → List Text → Bool
unfolding check_names
check_signed_header_list lib names = check_names lib none false names

-- From the first slash on; empty without one.
unfoldable pub from_slash : Text → Text
from_slash [] = []
from_slash (c ∷ s) = if c == b'/' then c ∷ s else from_slash s

-- `canonicalURI`.
unfoldable pub canonical_uri : Url → Text
unfolding from_slash cut trim_prefix
canonical_uri u =
    let p =
      if not (is_empty u.opaque_part)
      then from_slash (trim_prefix (codes "//") (cut b'?' u.opaque_part).0)
      else u.escaped_path in
    if is_empty p then codes "/" else p

unfoldable pub sorted_values : Values → Values
unfolding sort_strings
sorted_values [] = []
sorted_values ((k, vs) ∷ m) = (k, sort_strings vs) ∷ sorted_values m

-- `strings.ReplaceAll(s, "+", "%20")`.
unfoldable pub plus_escaped : Text → Text
plus_escaped [] = []
plus_escaped (c ∷ s) = if c == b'+' then b'%' ∷ b'2' ∷ b'0' ∷ plus_escaped s else c ∷ plus_escaped s

-- `canonicalQuery`.
unfoldable pub canonical_query : Url → Text → Text
unfolding encode delete_key plus_escaped sorted_values
canonical_query u drop =
    plus_escaped
      (encode (sorted_values (if is_empty drop then u.query else delete_key drop u.query)))

abbrev pub is_blank : ℕ → Bool
is_blank c = c == 32 || c == 9

-- The loop of `collapseWhitespace`, in a run of white space or not.
unfoldable pub collapse_runs : Bool → Text → Text
collapse_runs in_run [] = []
collapse_runs in_run (c ∷ s) =
    if is_blank c
    then (if in_run then collapse_runs true s else 32 ∷ collapse_runs true s)
    else c ∷ collapse_runs false s

-- `strings.Contains(v, "  ")`.
unfoldable pub has_double_space : Text → Bool
has_double_space [] = false
has_double_space (_ ∷ []) = false
has_double_space (a ∷ b ∷ s) = (a == 32 && b == 32) || has_double_space (b ∷ s)

-- `collapseWhitespace`.
unfoldable pub collapse_whitespace : Text → Text
unfolding collapse_runs has_double_space contains_byte
collapse_whitespace text =
    let v = trim_space text in
    if not (has_double_space v) && not (contains_byte 9 v) then v else collapse_runs false v

-- The values that `canonicalHeaderValue` finds for a name.
unfoldable pub header_values : HttpRequest → Text → List Text
unfolding values_of canonical_header_key
header_values r name =
    if text_eq name (codes "host")
    then (if is_empty r.host then r.url.url_host else r.host) ∷ []
    else if text_eq name (codes "content-length")
    then (let values = values_of r.header (codes "Content-Length") in
        if is_empty values && ltb 0 r.content_length then itoa r.content_length ∷ [] else values)
    else values_of r.header (canonical_header_key name)

unfoldable pub collapsed : List Text → List Text
unfolding collapse_whitespace
collapsed [] = []
collapsed (v ∷ vs) = collapse_whitespace v ∷ collapsed vs

-- `canonicalHeaderValue`; `none` is a header that the request does not have.
unfoldable pub canonical_header_value : HttpRequest → Text → Option Text
unfolding header_values collapsed
canonical_header_value r name =
    let values = header_values r name in
    if is_empty values then none else some (join (codes ",") (collapsed values))

-- The lines of the signed headers.
unfoldable pub header_lines : HttpRequest → List Text → Option Text
unfolding canonical_header_value
header_lines r [] = some []
header_lines r (name ∷ names) = elim (canonical_header_value r name) [
  | none ↦ none
  | some v ↦ elim (header_lines r names) [
    | none ↦ none
    | some rest ↦ some (name ++ (codes ":" ++ (v ++ (10 ∷ rest))))
  ]
]

-- `canonicalRequest`; `none` is the error of a missing header.
unfoldable pub canonical_request : HttpRequest → List Text → Text → Text → Option Text
unfolding header_lines canonical_uri canonical_query
canonical_request r signed_headers drop_query payload_hash =
    let u : Url = elim r.request_uri [ none ↦ r.url | some u ↦ u ] in
    elim (header_lines r signed_headers) [
      | none ↦ none
      | some lines ↦ some (
          r.method
          ++ (10
              ∷ (canonical_uri u
                  ++ (10
                      ∷ (canonical_query u drop_query
                          ++ (10
                              ∷ (lines
                                  ++ (10
                                      ∷ (join (codes ";") signed_headers
                                          ++ (10 ∷ payload_hash))))))))))
    ]

-- `signature`, from a time in its format.
unfoldable pub signature : Crypto → Text → Text → Text → Text → Text
unfolding to_hex
signature cr signing_key time scope canonical = to_hex (
    cr.hmac signing_key (
      codes "AWS4-HMAC-SHA256"
      ++ (10 ∷ (time ++ (10 ∷ (scope ++ (10 ∷ to_hex (cr.sha256 canonical))))))))
