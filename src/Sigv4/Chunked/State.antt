-- ===== src/Sigv4/Chunked/State.antt =====
-- sigv4/chunked.go: the state of the reader, a new reader, and how steps of it follow one another.
use s3rp.Common.{
  ℕ, Bool, false, not, ◌&&◌, ◌||◌, Option, none, some, [], if◌then◌else◌, is_empty, Text, codes,
  text_eq, has_suffix,
}
use s3rp.Checksum.{has_hash}
use s3rp.Sigv4.Crypto.{Crypto}
use s3rp.Sigv4.Chunked.Framing.{SourceEnd, ReadError, incomplete_body, Got, ended, failed, got}

-- The checksum that a trailer declares: its algorithm, the bytes that it is of, and whether the
-- trailer was seen.
pub record TrailerHash : Type 0 where
  pub ck_alg : Text
  pub ck_hash : Text
  pub ck_seen : Bool

-- `chunkedReader`. A hash is the bytes that were written to it; `ck` is none without `ckHash`.
pub record ChunkedReader : Type 0 where
  pub input : Text
  pub ends : SourceEnd
  pub signed : Bool
  pub trailer : Bool
  pub signing_key : Text
  pub timestamp : Text
  pub scope : Text
  pub prev_sig : Text
  pub chunk_sig : Text
  pub chunk_hash : Text
  pub ck : Option TrailerHash
  pub remaining : ℕ
  pub undecoded : ℕ
  pub started : Bool
  pub eof : Bool
  pub err : Option ReadError

-- The fields of `Verified` that the reader takes, with the time in its format.
pub record VerifiedBody : Type 0 where
  pub payload_hash : Text
  pub signing_key : Text
  pub timestamp : Text
  pub scope : Text
  pub signature : Text

abbrev streaming_sha256 : Text
streaming_sha256 = codes "STREAMING-AWS4-HMAC-SHA256-PAYLOAD"

abbrev streaming_sha256_t : Text
streaming_sha256_t = codes "STREAMING-AWS4-HMAC-SHA256-PAYLOAD-TRAILER"

abbrev pub is_signed_stream : Text → Bool
is_signed_stream h = text_eq h streaming_sha256 || text_eq h streaming_sha256_t

abbrev when_signed : Bool → Text → Text
when_signed signed t = if signed then t else []

-- The checksum of a trailer, if its algorithm has a hash.
abbrev declared : Crypto → Bool → Text → Option TrailerHash
declared cr trailer alg =
    if trailer && (not (is_empty alg) && has_hash cr.equal_fold alg)
    then some (record { ck_alg = alg; ck_hash = []; ck_seen = false })
    else none

-- `NewChunkedReader`, on a body and a decoded length that is not negative.
unfoldable pub new_chunked_reader :
    Crypto → Text → SourceEnd → VerifiedBody → Text → ℕ → ChunkedReader
unfolding has_suffix has_hash
new_chunked_reader cr body ends vr trailer_alg decoded_length =
    let signed = is_signed_stream vr.payload_hash in
    let trailer = has_suffix (codes "-TRAILER") vr.payload_hash in
    record {
      input = body;
      ends = ends;
      signed = signed;
      trailer = trailer;
      signing_key = when_signed signed vr.signing_key;
      timestamp = when_signed signed vr.timestamp;
      scope = when_signed signed vr.scope;
      prev_sig = when_signed signed vr.signature;
      chunk_sig = [];
      chunk_hash = [];
      ck = declared cr trailer trailer_alg;
      remaining = 0;
      undecoded = decoded_length;
      started = false;
      eof = false;
      err = none;
    }

-- A step of the reader: the reader behind it, or the error with which `fail` stops it.
pub data Step : Type 0 where
  stops : ReadError → Step
  goes : ChunkedReader → Step

infixr 5 ◌then_step◌
abbrev pub ◌then_step◌ : Step → (ChunkedReader → Step) → Step
stops e then_step k = stops e
goes r then_step k = k r

-- The step behind something that was read; an end is an error here.
abbrev pub onto {ℓ} : {X : Type ℓ} → Got X → (X → Text → Step) → Step
onto ended k = stops incomplete_body
onto (failed e) k = stops e
onto (got x rest) k = k x rest

-- What a `Read` is asked for, and what the source gives it: a buffer of `suc room` bytes; at most
-- `suc more` bytes at once; and whether the end of the source comes with its last bytes.
pub record Demand : Type 0 where
  pub room : ℕ
  pub more : ℕ
  pub joint : Bool

-- What a `Read` returns: the bytes, `io.EOF`, or an error with the bytes in front of it.
pub data ReadResult : Type 0 where
  bytes : Text → ReadResult
  eof_reached : ReadResult
  fails : Text → ReadError → ReadResult
