-- ===== src/Sigv4/Chunked/Framing.antt =====
-- sigv4/chunked.go: the lines of an aws-chunked body. The body is the list of the bytes that are
-- left, and what comes behind them: the end, or an error of the source.
use s3rp.Common.{
  ℕ, suc, ◌+◌, ◌*◌, ◌-◌, ◌^◌, Bool, true, false, not, ◌&&◌, ◌||◌, Option, none, some, [], ◌∷◌, ◌++◌,
  if◌then◌else◌, is_empty, ltb, leb, ◌==◌, Text, codes, text_eq, cut,
}

pub data SourceEnd : Type 0 where
  at_eof broken : SourceEnd

-- The errors of the reader, one for each that the code makes.
pub data ReadError : Type 0 where
  source_error : ReadError
  incomplete_body : ReadError
  chunk_too_large : ReadError
  malformed_chunk_size : ReadError
  unknown_extension : ReadError
  missing_chunk_signature : ReadError
  signature_does_not_match : ReadError
  missing_crlf : ReadError
  line_too_long : ReadError
  trailer_missing : ReadError
  trailer_mismatch : ReadError

-- What a step reads, with the bytes behind it; or its error, where `ended` is `io.EOF`.
pub data Got {ℓ} (X : Type ℓ) : Type ℓ where
  ended : Got X
  failed : ReadError → Got X
  got : X → Text → Got X

abbrev pub max_chunk_line_len : ℕ
max_chunk_line_len = 8192

is_line_end : ℕ → Bool
is_line_end c = c == 13 || c == 10

-- `strings.TrimRight(s, "\r\n")`.
unfoldable pub trim_line_end : Text → Text
unfolding is_line_end
trim_line_end [] = []
trim_line_end (c ∷ s) =
    let rest = trim_line_end s in if is_empty rest && is_line_end c then [] else c ∷ rest

-- The loop of `readLine`, with the bytes of the line so far and their number.
unfoldable pub read_line_from : SourceEnd → Text → ℕ → Text → Got Text
read_line_from at_eof line n [] = if ltb 0 n then got (trim_line_end line) [] else ended
read_line_from broken line n [] = failed source_error
read_line_from ends line n (b ∷ input) =
    let rest = read_line_from ends (line ++ (b ∷ [])) (suc n) input in
    if b == 10
    then got (trim_line_end line) input
    else if leb max_chunk_line_len n
    then failed line_too_long
    else rest

-- `readLine`.
unfoldable pub read_line : SourceEnd → Text → Got Text
unfolding read_line_from
read_line ends input = read_line_from ends [] 0 input

-- `readCRLF`: the bytes behind the two, or an error.
unfoldable pub read_crlf : SourceEnd → Text → Got (Unit {0})
read_crlf ends [] = failed incomplete_body
read_crlf ends (a ∷ []) = failed incomplete_body
read_crlf ends (a ∷ b ∷ input) = if a == 13 && b == 10 then got tt input else failed missing_crlf

abbrev hex_value : ℕ → Option ℕ
hex_value c =
    if leb b'0' c && leb c b'9'
    then some (c - b'0')
    else if leb b'a' c && leb c b'f'
    then some (c - 87)
    else if leb b'A' c && leb c b'F'
    then some (c - 55)
    else none

-- The digits of `strconv.ParseUint` in base 16, onto what is read.
unfoldable pub hex_number : ℕ → Text → Option ℕ
hex_number n [] = some n
hex_number n (c ∷ s) = elim (hex_value c) [ none ↦ none | some d ↦ hex_number (n * 16 + d) s ]

abbrev is_some_number : Option ℕ → Bool → Option ℕ
is_some_number none negative = none
is_some_number (some n) negative =
    if (if negative then n == 0 else ltb n (2 ^ 63)) then some n else none

-- `strconv.ParseInt(s, 16, 64)` where the result is not negative; `none` is an error, or a negative
-- number.
unfoldable pub parse_size : Text → Option ℕ
unfolding hex_number
parse_size [] = none
parse_size (c ∷ []) = is_some_number (hex_number 0 (c ∷ [])) false
parse_size (c ∷ d ∷ s) =
    if c == b'+'
    then is_some_number (hex_number 0 (d ∷ s)) false
    else if c == b'-'
    then is_some_number (hex_number 0 (d ∷ s)) true
    else is_some_number (hex_number 0 (c ∷ d ∷ s)) false

-- A chunk header: the size, and the signature, empty if there is none.
pub record ChunkHeader : Type 0 where
  pub size : ℕ
  pub chunk_sig : Text

-- The extension of a chunk header, in a signed stream or not.
unfoldable pub read_extension : Bool → ℕ → Text → Bool → Text → Got ChunkHeader
read_extension signed size ext has_ext input =
    let (name, value, assigned) = cut b'=' ext in
    if has_ext && not (text_eq name (codes "chunk-signature"))
    then failed unknown_extension
    else if signed && (not has_ext || is_empty value)
    then failed missing_chunk_signature
    else got (record { size = size; chunk_sig = if has_ext then value else [] }) input

-- The parse of a chunk header's line.
unfoldable pub parse_header : Bool → Text → Text → Got ChunkHeader
unfolding read_extension parse_size
parse_header signed line input =
    let (size_str, ext, has_ext) = cut b';' line in
    elim (parse_size size_str) [
      | none ↦ failed malformed_chunk_size
      | some size ↦ read_extension signed size ext has_ext input
    ]

-- `readChunkHeader`.
unfoldable pub read_chunk_header : SourceEnd → Bool → Text → Got ChunkHeader
unfolding read_line parse_header
read_chunk_header ends signed input = elim (read_line ends input) [
  | ended ↦ failed incomplete_body
  | failed e ↦ failed e
  | got line rest ↦ parse_header signed line rest
]
