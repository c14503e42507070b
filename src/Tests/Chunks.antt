-- ===== src/Tests/Chunks.antt =====
-- Chunked bodies.
use s3rp.Common.{
  ℕ, ◌+◌, ◌%◌, ◌≡◌, ◌⊎◌, inl, refl, ◌≤◌, true, false, some, List, [], ◌∷◌, ◌++◌, length, text_eq,
  Text, codes, arith, join, cut,
}
use s3rp.Sigv4.Crypto.{Crypto, to_hex}
use s3rp.Sigv4.Chunked.{
  at_eof, Demand, read_chunk_header, trim_line_end, read_crlf, ChunkedReader, VerifiedBody,
  new_chunked_reader, is_signed_stream, chunk_signature, Step, trailer_lines, ReadError,
  eof_reached, fails, read, chunk_too_large,
}
use s3rp.Sigv4.Chunked.Complete.{drain, with_error, CompleteBody, drain-CompleteBody, drain-IsEnded}
use s3rp.Sigv4.Chunked.Failures.{read-sticky, trailer_lines-enough}

unfoldable pub total_of : Text → ℕ
total_of [] = 0
total_of (b ∷ s) = b + total_of s

-- Functions that stand for the cryptography.
unfoldable pub crypto : Crypto
unfolding total_of
crypto = record {
  hmac = λ k m. (total_of k + total_of m) % 256 ∷ [];
  sha256 = λ m. total_of m % 256 ∷ [];
  equal_fold = text_eq;
  checksum = λ alg m. total_of m % 256 ∷ [];
}

abbrev verified_body : VerifiedBody
verified_body = record {
  payload_hash = codes "STREAMING-AWS4-HMAC-SHA256-PAYLOAD";
  signing_key = codes "k";
  timestamp = codes "t";
  scope = codes "s";
  signature = codes "00";
}

abbrev crlf : Text
crlf = 13 ∷ 10 ∷ []

abbrev chunk_of : Text → Text → Text → Text
unfolding chunk_signature to_hex total_of
chunk_of size prev content =
    let sig = chunk_signature crypto (codes "k") (codes "t") (codes "s") prev content in
    size ++ (codes ";chunk-signature=" ++ (sig ++ (crlf ++ (content ++ crlf))))

abbrev signed_body : Text
unfolding chunk_signature to_hex total_of
signed_body =
    let sig =
      chunk_signature crypto (codes "k") (codes "t") (codes "s") (codes "00") (codes "ab") in
    chunk_of (codes "2") (codes "00") (codes "ab") ++ chunk_of (codes "0") sig []

abbrev reader : ChunkedReader
reader = new_chunked_reader crypto signed_body at_eof verified_body [] 2

abbrev one_byte : Demand
one_byte = record { room = 0; more = 0; joint = false }

abbrev ten_bytes : Demand
ten_bytes = record { room = 9; more = 9; joint = false }

abbrev sizes : List Demand
sizes = one_byte ∷ ten_bytes ∷ ten_bytes ∷ []

read_to_end : (drain crypto sizes [] reader).1 ≡ eof_reached
unfolding drain new_chunked_reader read_chunk_header signed_body join cut trim_line_end read_crlf
    crypto
read_to_end = refl

is_signed : is_signed_stream verified_body.payload_hash ≡ true
unfolding text_eq
is_signed = refl

drain-CompleteBody_example :
    CompleteBody crypto signed_body at_eof verified_body 2 (drain crypto sizes [] reader).0
drain-CompleteBody_example =
    drain-CompleteBody crypto signed_body at_eof verified_body [] 2 sizes is_signed
      (inl read_to_end)

drain-IsEnded_example :
    (length (drain crypto sizes [] reader).0 + length (with_error (drain crypto sizes [] reader).1)
      ≤ 2)
    × ((length sizes ≤ 2)
        ⊎ ((drain crypto sizes [] reader).1 ≡ eof_reached)
        ⊎ ((p : Text) × (e : ReadError) × ((drain crypto sizes [] reader).1 ≡ fails p e)))
drain-IsEnded_example = drain-IsEnded crypto signed_body at_eof verified_body [] 2 sizes is_signed

-- A chunk of three bytes where two are declared.
abbrev large_body : ChunkedReader
large_body =
    new_chunked_reader crypto (chunk_of (codes "3") (codes "00") (codes "abc")) at_eof verified_body
      [] 2

abbrev behind_error : ChunkedReader
behind_error = (read crypto ten_bytes large_body).1

is_refused : read crypto ten_bytes large_body ≡ (fails [] chunk_too_large, behind_error)
unfolding drain read new_chunked_reader read_chunk_header chunk_of join cut trim_line_end read_crlf
    crypto
is_refused = refl

stays_refused : read crypto one_byte behind_error ≡ (fails [] chunk_too_large, behind_error)
stays_refused =
    read-sticky crypto ten_bytes one_byte large_body behind_error [] chunk_too_large is_refused

-- Two trailers, and no blank line behind them.
abbrev trailers : ChunkedReader
trailers = record reader { input = codes "a:b" ++ (crlf ++ codes "c:d"); trailer = true }

trailer_lines-enough_example : (s : Step) × (trailer_lines crypto 9 trailers ≡ some s)
unfolding new_chunked_reader
trailer_lines-enough_example = trailer_lines-enough crypto 9 trailers (ground arith)
