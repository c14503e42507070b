-- ===== src/Sigv4/Chunked.antt =====
-- sigv4/chunked.go: the reader of an aws-chunked body. Framing reads its lines, State is its state.
mod Framing
unfoldable pub use Framing.{
  trim_line_end, read_line_from, read_line, read_crlf, hex_number, parse_size, read_extension,
  parse_header, read_chunk_header,
}
pub use Framing.*
mod State
unfoldable pub use State.{new_chunked_reader}
pub use State.*
pub mod Trailers
pub mod Frames
pub mod Covered
pub mod Delivered
pub mod Reads
pub mod Complete
pub mod Failures
use s3rp.Common.{
  ℕ, zero, suc, ◌+◌, ◌-◌, Bool, true, false, not, ◌&&◌, ◌||◌, Option, none, some, List, [], ◌∷◌,
  ◌++◌, if◌then◌else◌, is_empty, length, take, drop, min, ltb, leb, ◌==◌, Text, codes, text_eq, cut,
  trim_space, join, has_suffix,
}
use s3rp.Sigv4.Crypto.{Crypto, to_hex}

module _ (cr : Crypto) where
  -- The signature of a chunk's data, behind the signature of the chunk before it.
  unfoldable pub chunk_signature : (key timestamp scope prev data_bytes : Text) → Text
  unfolding to_hex
  chunk_signature key timestamp scope prev data_bytes = to_hex (
      cr.hmac key (
        join (10 ∷ []) (
          codes "AWS4-HMAC-SHA256-PAYLOAD"
          ∷ timestamp
          ∷ scope
          ∷ prev
          ∷ to_hex (cr.sha256 [])
          ∷ to_hex (cr.sha256 data_bytes)
          ∷ [])))

  -- `verifyChunk`.
  unfoldable pub verify_chunk : ChunkedReader → Step
  verify_chunk r =
      if not r.signed
      then goes r
      else if not (
          text_eq (chunk_signature r.signing_key r.timestamp r.scope r.prev_sig r.chunk_hash)
            r.chunk_sig)
      then stops signature_does_not_match
      else goes (record r { prev_sig = r.chunk_sig; chunk_hash = [] })

  -- One line of the trailers, for a declared checksum: the mark that it was seen, or the mismatch.
  unfoldable pub check_trailer : TrailerHash → Text → Option TrailerHash
  check_trailer t line =
      let (name, value, ok) = cut b':' line in
      if not (ok && cr.equal_fold (trim_space name) (codes "x-amz-checksum-" ++ t.ck_alg))
      then some t
      else if text_eq (trim_space value) (cr.checksum t.ck_alg t.ck_hash)
      then some (record t { ck_seen = true })
      else none

  -- The end of the trailers.
  abbrev pub trailers_done : ChunkedReader → Text → Step
  trailers_done r rest = elim r.ck [
    | none ↦ goes (record r { input = rest })
    | some t ↦ if t.ck_seen then goes (record r { input = rest }) else stops trailer_missing
  ]

  -- The reader behind a line of the trailers.
  abbrev pub behind_trailer : ChunkedReader → Text → Text → Step
  behind_trailer r line rest = elim r.ck [
    | none ↦ goes (record r { input = rest })
    | some t ↦ elim (check_trailer t line) [
      | none ↦ stops trailer_mismatch
      | some t' ↦ goes (record r { input = rest; ck = some t' })
    ]
  ]

  -- The loop of `discardTrailers`; `none` is the lack of fuel, of which a line takes one.
  unfoldable pub trailer_lines : ℕ → ChunkedReader → Option Step
  unfolding check_trailer read_line
  trailer_lines zero r = none
  trailer_lines (suc fuel) r = elim (read_line r.ends r.input) [
    | ended ↦ some (trailers_done r [])
    | failed e ↦ some (stops e)
    | got line rest ↦ elim (is_empty line) [
      | true ↦ some (trailers_done r rest)
      | false ↦ elim (behind_trailer r line rest) [
        | stops e ↦ some (stops e)
        | goes r' ↦ trailer_lines fuel r'
      ]
    ]
  ]

  abbrev pub ran : Option Step → Step
  ran none = stops source_error
  ran (some s) = s

  -- `discardTrailers`. Behind a stream without trailers the result of `readCRLF` is dropped, and
  -- with it what it read: no byte is read later.
  unfoldable pub discard_trailers : ChunkedReader → Step
  unfolding trailer_lines
  discard_trailers r =
      if not r.trailer then goes r else ran (trailer_lines (suc (length r.input)) r)

  abbrev pub at_end : ChunkedReader → Step
  at_end r = goes (record r { eof = true })

  -- The framing in front of a chunk header: the end of the chunk before it.
  unfoldable pub skip_frame : ChunkedReader → Step
  skip_frame r =
      if r.started
      then onto (read_crlf r.ends r.input) (λ _ rest. goes (record r { input = rest }))
      else goes r

  -- `readChunkHeader` on the reader, which keeps the declared signature.
  unfoldable pub next_header : ChunkedReader → (ChunkHeader → ChunkedReader → Step) → Step
  next_header r k =
      onto (read_chunk_header r.ends r.signed r.input)
        (λ h rest. k h (record r { input = rest; chunk_sig = h.chunk_sig }))

  -- `readTerminal`.
  unfoldable pub read_terminal : ChunkedReader → Step
  unfolding next_header verify_chunk discard_trailers
  read_terminal r = onto (read_crlf r.ends r.input) (λ _ rest.
      next_header (record r { input = rest })
        (λ h r1.
          if not (h.size == 0)
          then stops chunk_too_large
          else (verify_chunk r1 then_step λ r2. discard_trailers r2 then_step λ r3. at_end r3)))

  -- The body of `Read`'s loop behind the header: the terminal chunk, or the start of a chunk.
  unfoldable pub begin_chunk : ChunkHeader → ChunkedReader → Step
  unfolding verify_chunk discard_trailers
  begin_chunk h r =
      if ltb r.undecoded h.size
      then stops chunk_too_large
      else if h.size == 0
      then (verify_chunk (record r { started = true }) then_step λ r2.
          if not (r2.undecoded == 0)
          then stops incomplete_body
          else (discard_trailers r2 then_step λ r3. at_end r3))
      else goes (record r { started = true; undecoded = r.undecoded - h.size; remaining = h.size })

  -- The loop of `Read`, which runs at most once: behind it `remaining` is the size, or the reader
  -- has returned.
  unfoldable pub open_chunk : ChunkedReader → Step
  unfolding skip_frame next_header begin_chunk
  open_chunk r =
      if r.remaining == 0 then (skip_frame r then_step λ r1. next_header r1 begin_chunk) else goes r

  abbrev pub hashed : Option TrailerHash → Text → Option TrailerHash
  hashed none p = none
  hashed (some t) p = some (record t { ck_hash = t.ck_hash ++ p })

  -- The reader behind `n` bytes of the chunk's data.
  unfoldable pub consume : ℕ → ChunkedReader → ChunkedReader
  consume n r = record r {
    input = drop n r.input;
    remaining = r.remaining - n;
    chunk_hash = if r.signed then r.chunk_hash ++ take n r.input else r.chunk_hash;
    ck = hashed r.ck (take n r.input);
  }

  -- What `Read` does once a chunk's data may be complete.
  unfoldable pub finish_chunk : ChunkedReader → Step
  unfolding verify_chunk read_terminal
  finish_chunk r =
      if not (r.remaining == 0)
      then goes r
      else (verify_chunk r then_step λ r1. if r1.undecoded == 0 then read_terminal r1 else goes r1)

  abbrev pub stopped : ChunkedReader → ReadError → ReadResult × ChunkedReader
  stopped r e = (fails [] e, record r { err = some e })

  -- The number of bytes that the source gives: at least one, if it has any.
  abbrev pub amount : Demand → ChunkedReader → ℕ
  amount d r = min (min (suc d.room) r.remaining) (min (suc d.more) (length r.input))

  -- The error that comes with `n` bytes: the source's, or that of an end inside a chunk.
  unfoldable pub joint_error : Demand → ℕ → ChunkedReader → Option ReadError
  joint_error d n r =
      if d.joint && leb (length r.input) n
      then elim r.ends [
        | at_eof ↦ if ltb n r.remaining then some incomplete_body else none
        | broken ↦ some source_error
      ]
      else none

  -- The second half of `Read`, inside a chunk.
  unfoldable pub read_data : Demand → ChunkedReader → ReadResult × ChunkedReader
  unfolding consume joint_error finish_chunk
  read_data d r =
      let n = amount d r in
      if n == 0
      then elim r.ends [ at_eof ↦ stopped r incomplete_body | broken ↦ stopped r source_error ]
      else elim (joint_error d n r) [
        | some e ↦ (fails (take n r.input) e, record (consume n r) { err = some e })
        | none ↦ elim (finish_chunk (consume n r)) [
          | stops e ↦ stopped r e
          | goes r' ↦ (bytes (take n r.input), r')
        ]
      ]

  -- `Read`.
  unfoldable pub read : Demand → ChunkedReader → ReadResult × ChunkedReader
  unfolding open_chunk read_data
  read d r = elim r.err [
    | some e ↦ (fails [] e, r)
    | none ↦ if r.eof then (eof_reached, r) else elim (open_chunk r) [
      | stops e ↦ stopped r e
      | goes r1 ↦ if r1.eof then (eof_reached, r1) else read_data d r1
    ]
  ]
