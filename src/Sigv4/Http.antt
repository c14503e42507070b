-- ===== src/Sigv4/Http.antt =====
-- What the package sigv4 takes from net/http, net/url, sort and time: requests, their headers and
-- queries, `url.Values.Encode`, `http.CanonicalHeaderKey`, `sort.Strings`.
use s3rp.Common.{
  ℕ, ◌+◌, ◌-◌, ◌/◌, ◌%◌, Bool, true, false, not, ◌&&◌, ◌||◌, Option, List, [], ◌∷◌, ◌++◌,
  if◌then◌else◌, ltb, leb, ◌==◌, Text, codes, text_eq, join, contains_byte,
}

-- `strings.ToLower` (Unicode's tables), and times: nanoseconds since the year 0, `time.Parse` and
-- `Time.Format` with "20060102T150405Z", and `Time.Format` with "20060102".
pub record Library : Type 0 where
  pub to_lower : Text → Text
  pub parse_time : Text → Option ℕ
  pub format_time : ℕ → Text
  pub format_day : ℕ → Text

-- `a < b` on strings.
unfoldable pub text_less : Text → Text → Bool
text_less [] [] = false
text_less [] (_ ∷ _) = true
text_less (_ ∷ _) [] = false
text_less (a ∷ s) (b ∷ t) = ltb a b || (a == b && text_less s t)

insert_text : Text → List Text → List Text
unfolding text_less
insert_text t [] = t ∷ []
insert_text t (u ∷ us) = if text_less u t then u ∷ insert_text t us else t ∷ u ∷ us

-- `sort.Strings`.
unfoldable pub sort_strings : List Text → List Text
unfolding insert_text
sort_strings [] = []
sort_strings (t ∷ ts) = insert_text t (sort_strings ts)

-- `url.Values` and `http.Header`: maps from a key to its values, a key once.
abbrev pub Values : Type 0
Values = List (Text × List Text)

-- The values of a key, none if it is missing.
unfoldable pub values_of : Values → Text → List Text
values_of [] k = []
values_of ((l, vs) ∷ m) k = if text_eq l k then vs else values_of m k

abbrev pub first_of : List Text → Text
first_of [] = []
first_of (v ∷ _) = v

-- `m.Del(k)`, on the key as it is, and the map with other values for a key.
unfoldable pub delete_key : Text → Values → Values
delete_key k [] = []
delete_key k ((l, vs) ∷ m) = if text_eq l k then delete_key k m else (l, vs) ∷ delete_key k m

unfoldable pub put_values : Text → List Text → Values → Values
unfolding delete_key
put_values k vs m = (k, vs) ∷ delete_key k m

abbrev is_unreserved : ℕ → Bool
is_unreserved c =
    (leb b'a' c && leb c b'z')
    || (leb b'A' c && leb c b'Z')
    || (leb b'0' c && leb c b'9')
    || c == b'-'
    || c == b'_'
    || c == b'.'
    || c == b'~'

abbrev upper_hex : ℕ → ℕ
upper_hex n = if ltb n 10 then n + b'0' else n + 55

-- `url.QueryEscape`.
unfoldable pub query_escape : Text → Text
query_escape [] = []
query_escape (c ∷ s) =
    if is_unreserved c
    then c ∷ query_escape s
    else if c == 32
    then b'+' ∷ query_escape s
    else b'%' ∷ upper_hex (c / 16) ∷ upper_hex (c % 16) ∷ query_escape s

unfoldable pub pairs_of : Text → List Text → List Text
unfolding query_escape
pairs_of k [] = []
pairs_of k (v ∷ vs) = (query_escape k ++ (codes "=" ++ query_escape v)) ∷ pairs_of k vs

abbrev pub keys_of : Values → List Text
keys_of [] = []
keys_of ((k, _) ∷ m) = k ∷ keys_of m

unfoldable pub pairs_in : List Text → Values → List Text
unfolding values_of pairs_of
pairs_in [] m = []
pairs_in (k ∷ ks) m = pairs_of k (values_of m k) ++ pairs_in ks m

-- `Values.Encode`: sorted by key.
unfoldable pub encode : Values → Text
unfolding sort_strings pairs_in
encode m = join (codes "&") (pairs_in (sort_strings (keys_of m)) m)

-- A byte that a header name may have: the token of RFC 7230.
abbrev is_token_byte : ℕ → Bool
is_token_byte c =
    (leb b'a' c && leb c b'z')
    || (leb b'A' c && leb c b'Z')
    || (leb b'0' c && leb c b'9')
    || contains_byte c (codes "!#$%&'*+-.^_`|~")

unfoldable pub all_token : Text → Bool
all_token [] = true
all_token (c ∷ s) = is_token_byte c && all_token s

unfoldable pub canonical_bytes : Bool → Text → Text
canonical_bytes up [] = []
canonical_bytes up (c ∷ s) =
    (if up && (leb b'a' c && leb c b'z')
      then c - 32
      else if not up && (leb b'A' c && leb c b'Z')
      then c + 32
      else c)
    ∷ canonical_bytes (c == b'-') s

-- `http.CanonicalHeaderKey`.
unfoldable pub canonical_header_key : Text → Text
unfolding all_token canonical_bytes
canonical_header_key name = if all_token name then canonical_bytes true name else name

-- `url.URL`: `Opaque`, `EscapedPath()`, `Query()` and `Host`.
pub record Url : Type 0 where
  pub opaque_part : Text
  pub escaped_path : Text
  pub query : Values
  pub url_host : Text

-- `http.Request`: `Method`, what `url.ParseRequestURI` makes of `RequestURI`, `URL`, `Host`,
-- `Header` and `ContentLength`, which is 0 here if it is negative.
pub record HttpRequest : Type 0 where
  pub method : Text
  pub request_uri : Option Url
  pub url : Url
  pub host : Text
  pub header : Values
  pub content_length : ℕ

-- `Header.Get`.
unfoldable pub header_get : HttpRequest → Text → Text
unfolding values_of canonical_header_key
header_get r name = first_of (values_of r.header (canonical_header_key name))
