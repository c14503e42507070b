-- ===== src/Sigv4/Chunked/Complete.antt =====
-- sigv4/chunked.go: a consumer of the reader, who reads until the end or an error.
use s3rp.Common.{
  Bool-cases, ltb, ℕ, ◌+◌, ◌≤◌, ◌<◌, ◌≡◌, ◌⊎◌, inl, inr, refl, ◌∙◌, ap, true, false, List, [], ◌∷◌,
  ◌++◌, length, Text, arith, length-append,
}
use mathlib.Core.List.{append-nil}
use s3rp.Sigv4.Crypto.{Crypto}
use s3rp.Sigv4.Chunked.{
  SourceEnd, ReadError, ChunkedReader, VerifiedBody, new_chunked_reader, is_signed_stream, Demand,
  ReadResult, bytes, eof_reached, fails, read,
}
use s3rp.Sigv4.Chunked.Frames.{Chunk, Frames}
use s3rp.Sigv4.Chunked.Covered.{content, EndsWithTerminal, Chained, Covered}
use s3rp.Sigv4.Chunked.Reads.{read-Covered, read-EndCovered, read-bounded}

-- What a read returns, as a sum.
read-cases :
    (cr : Crypto) (d : Demand) (r : ChunkedReader)
    → ((p : Text) × (m : ChunkedReader) × (read cr d r ≡ (bytes p, m)))
      ⊎ ((m : ChunkedReader) × (read cr d r ≡ (eof_reached, m)))
      ⊎ ((p : Text) × (e : ReadError) × (m : ChunkedReader) × (read cr d r ≡ (fails p e, m)))
read-cases cr d r = result_cases (read cr d r).0 (read cr d r).1
  where
    result_cases :
        (x : ReadResult) (m : ChunkedReader)
        → ((p : Text) × (m' : ChunkedReader) × (◌≡◌ {A = ReadResult × ChunkedReader}
              (x, m)
              (bytes p, m')))
          ⊎ ((m' : ChunkedReader) × (◌≡◌ {A = ReadResult × ChunkedReader} (x, m) (eof_reached, m')))
          ⊎ ((p : Text) × (e : ReadError) × (m' : ChunkedReader) × (◌≡◌
                {A = ReadResult × ChunkedReader}
                (x, m)
                (fails p e, m')))
    result_cases (bytes p) m = inl (p, m, refl)
    result_cases eof_reached m = inr (inl (m, refl))
    result_cases (fails p e) m = inr (inr (p, e, m, refl))

-- A consumer: the bytes that are out, the last result, and the reader, behind reads into buffers of
-- the given sizes from a source that gives at most so much. A size is one less than it stands for.
unfoldable pub drain :
    Crypto → List Demand → Text → ChunkedReader → Text × ReadResult × ChunkedReader
unfolding read
drain cr [] out r = (out, bytes [], r)
drain cr (d ∷ sizes) out r =
    let (result, m) = read cr d r in
    elim result [
      | bytes p ↦ drain cr sizes (out ++ p) m
      | eof_reached ↦ (out, eof_reached, m)
      | fails p e ↦ (out, fails p e, m)
    ]

drain-bytes :
    (cr : Crypto) (d : Demand) (sizes : List Demand) (out p : Text) (r m : ChunkedReader)
    → read cr d r ≡ (bytes p, m)
    → drain cr (d ∷ sizes) out r ≡ drain cr sizes (out ++ p) m
unfolding drain
drain-bytes cr d sizes out p r m e =
    let result : (read cr d r).0 ≡ bytes p = ap (λ x. x.0) e in
    let behind : (read cr d r).1 ≡ m = ap (λ x. x.1) e in rw (drain, result, behind) refl

-- The bytes that a last error came with.
abbrev pub with_error : ReadResult → Text
with_error (fails p e) = p
with_error _ = []

module _ (cr : Crypto) (key timestamp scope first : Text) (total : ℕ) (ends : SourceEnd)
    (body : Text) where
  abbrev Safe : ChunkedReader → Text → Type 0
  Safe r out = Covered cr key timestamp scope first total ends body r out

  -- What is out is covered by a state of the reader, which is at its end if the consumer saw that.
  drain-Covered :
      (sizes : List Demand) (out : Text) (r : ChunkedReader)
      → Safe r out
      → (m : ChunkedReader) × Safe m (drain cr sizes out r).0
        × ((m.eof ≡ true) ⊎ (¬ ((drain cr sizes out r).1 ≡ eof_reached)))
  unfolding drain
  drain-Covered [] out r c = (r, c, inr (λ e. ground arith))
  drain-Covered (d ∷ sizes) out r c = elim (read-cases cr d r) [
    | inl (p, m, e) ↦ rw (drain-bytes cr d sizes out p r m e) (
        drain-Covered sizes (out ++ p) m
          (read-Covered cr key timestamp scope first total ends body d r m out p c e).0)
    | inr (inl (m, e)) ↦
        let (c', over) =
          read-EndCovered cr key timestamp scope first total ends body d r m out c e in
        rw (e, drain) (m, c', inl over)
    | inr (inr (p, x, m, e)) ↦ rw (e, drain) (r, c, inr (λ f. ground arith))
  ]

  -- What is out, with the bytes that an error came with, is within the declared length.
  drain-bounded :
      (sizes : List Demand) (out : Text) (r : ChunkedReader)
      → Safe r out
      → length (drain cr sizes out r).0 + length (with_error (drain cr sizes out r).1) ≤ total
  unfolding drain
  drain-bounded [] out r c = ground (arith, c.progress.budget)
  drain-bounded (d ∷ sizes) out r c = elim (read-cases cr d r) [
    | inl (p, m, e) ↦ rw (drain-bytes cr d sizes out p r m e) (
        drain-bounded sizes (out ++ p) m
          (read-Covered cr key timestamp scope first total ends body d r m out p c e).0)
    | inr (inl (m, e)) ↦ rw (e, drain) (ground (arith, c.progress.budget))
    | inr (inr (p, x, m, e)) ↦
        rw (e, drain) (read-bounded cr key timestamp scope first total ends body d r m out p x c e)
  ]

  -- A consumer who reads often enough sees an end.
  drain-Ends :
      (sizes : List Demand) (out : Text) (r : ChunkedReader)
      → Safe r out
      → total < length sizes + length out
      → ((drain cr sizes out r).1 ≡ eof_reached)
        ⊎ ((p : Text) × (e : ReadError) × ((drain cr sizes out r).1 ≡ fails p e))
  unfolding drain
  drain-Ends [] out r c enough = absurd (ground (arith, c.progress.budget))
  drain-Ends (d ∷ sizes) out r c enough = elim (read-cases cr d r) [
    | inl (p, m, e) ↦
        let (c', some_bytes) =
          read-Covered cr key timestamp scope first total ends body d r m out p c e in
        rw (drain-bytes cr d sizes out p r m e)
          (drain-Ends sizes (out ++ p) m c' (ground (arith, length-append out p)))
    | inr (inl (m, e)) ↦ rw (e, drain) (inl refl)
    | inr (inr (p, x, m, e)) ↦ rw (e, drain) (inr (p, x, refl))
  ]

new_chunked_reader-Covered :
    (cr : Crypto) (body : Text) (ends : SourceEnd) (vr : VerifiedBody) (alg : Text) (total : ℕ)
    → is_signed_stream vr.payload_hash ≡ true
    → Covered cr vr.signing_key vr.timestamp vr.scope vr.signature total ends body
        (new_chunked_reader cr body ends vr alg total)
        []
unfolding new_chunked_reader
new_chunked_reader-Covered cr body ends vr alg total signed = record {
  chunks = [];
  partial = [];
  progress = record {
    signed = signed;
    key_is = ground (arith, signed);
    time_is = ground (arith, signed);
    scope_is = ground (arith, signed);
    out_is = refl;
    chain = ground (arith, signed);
    hash_is = refl;
    budget = ground arith;
  };
  settled = inr refl;
  closing = inl refl;
  ready = inr (inl refl);
  place = inr (inl (record { ends_is = refl; frames = refl; begun_is = refl; none_left = refl }));
}

-- What a consumer has of a body: its bytes are the data of the chunks that stand at the front of the
-- body, one behind the other, up to the terminal one; the signature that each of them declares there
-- is the one of its data behind the chunk before it; and the bytes are as many as declared.
pub record CompleteBody (cr : Crypto) (body : Text) (ends : SourceEnd) (vr : VerifiedBody)
    (total : ℕ) (out : Text) : Type 0 where
  pub chunks : List Chunk
  pub rest : Text
  pub framed : Frames ends false body chunks rest
  pub last : Text
  pub chain : Chained cr vr.signing_key vr.timestamp vr.scope vr.signature chunks last
  pub data_is : out ≡ content chunks
  pub terminal : EndsWithTerminal chunks
  pub whole : length out ≡ total

-- A reader at its end has handed out a complete body.
Covered-CompleteBody :
    (cr : Crypto) (body : Text) (ends : SourceEnd) (vr : VerifiedBody) (total : ℕ)
    (r : ChunkedReader) (out : Text)
    → Covered cr vr.signing_key vr.timestamp vr.scope vr.signature total ends body r out
    → r.eof ≡ true
    → CompleteBody cr body ends vr total out
Covered-CompleteBody cr body ends vr total r out c over = elim c.closing [
  | inl live ↦ absurd (ground arith)
  | inr (drained, terminal) ↦
      let framed : (m : Text) × Frames ends false body c.chunks m = elim c.place [
        | inl (at_end, whole) ↦ whole
        | inr (inl resting) ↦ (r.input, resting.frames)
        | inr (inr (inside, busy)) ↦ absurd (ground (arith, inside, drained))
      ] in
      let none_left : c.partial ≡ [] = ground (arith, c.settled, drained) in
      record {
        chunks = c.chunks;
        rest = framed.0;
        framed = framed.1;
        last = r.prev_sig;
        chain = c.progress.chain;
        data_is =
            c.progress.out_is
            ∙ (ap (λ x. content c.chunks ++ x) none_left ∙ append-nil (content c.chunks));
        terminal = terminal;
        whole = ground (arith, c.progress.budget, drained);
      }
]

-- A reader whose declared length is out is at its end.
Covered-over :
    (cr : Crypto) (body : Text) (ends : SourceEnd) (vr : VerifiedBody) (total : ℕ)
    (r : ChunkedReader) (out : Text)
    → Covered cr vr.signing_key vr.timestamp vr.scope vr.signature total ends body r out
    → 1 ≤ total
    → length out ≡ total
    → r.eof ≡ true
Covered-over cr body ends vr total r out c some_bytes enough = elim c.ready [
  | inl over ↦ over
  | inr (inl nothing) ↦ absurd (ground arith)
  | inr (inr more) ↦ absurd (ground (arith, c.progress.budget))
]

-- Whoever reads a signed body to its end, or without an error just to the declared length if that
-- is not zero, has only bytes of the chunks that the body holds, in their order, and the signature
-- that each chunk declares was checked against its data and the chunk before it, the terminal chunk
-- included.
pub drain-CompleteBody :
    (cr : Crypto) (body : Text) (ends : SourceEnd) (vr : VerifiedBody) (alg : Text) (total : ℕ)
    (sizes : List Demand)
    → is_signed_stream vr.payload_hash ≡ true
    → ((drain cr sizes [] (new_chunked_reader cr body ends vr alg total)).1 ≡ eof_reached)
      ⊎ ((1 ≤ total)
          × (length (drain cr sizes [] (new_chunked_reader cr body ends vr alg total)).0 ≡ total))
    → CompleteBody cr body ends vr total
        (drain cr sizes [] (new_chunked_reader cr body ends vr alg total)).0
drain-CompleteBody cr body ends vr alg total sizes signed goal =
    let r = new_chunked_reader cr body ends vr alg total in
    let start = new_chunked_reader-Covered cr body ends vr alg total signed in
    let (m, c, seen) =
      drain-Covered cr vr.signing_key vr.timestamp vr.scope vr.signature total ends body sizes [] r
        start in
    Covered-CompleteBody cr body ends vr total m (drain cr sizes [] r).0 c (elim goal [
      | inl ended_it ↦ elim seen [ inl over ↦ over | inr unseen ↦ absurd (unseen ended_it) ]
      | inr (some_bytes, enough) ↦
          Covered-over cr body ends vr total m (drain cr sizes [] r).0 c some_bytes enough
    ])

-- A consumer of a signed body has no more than the declared length, the bytes that come with an error
-- included, and sees the end or an error if it reads more often than bytes are declared.
pub drain-IsEnded :
    (cr : Crypto) (body : Text) (ends : SourceEnd) (vr : VerifiedBody) (alg : Text) (total : ℕ)
    (sizes : List Demand)
    → is_signed_stream vr.payload_hash ≡ true
    → (length (drain cr sizes [] (new_chunked_reader cr body ends vr alg total)).0
          + length (with_error (drain cr sizes [] (new_chunked_reader cr body ends vr alg total)).1)
        ≤ total)
      × ((length sizes ≤ total)
          ⊎ ((drain cr sizes [] (new_chunked_reader cr body ends vr alg total)).1 ≡ eof_reached)
          ⊎ ((p : Text) × (e : ReadError) × ((drain cr sizes []
                  (new_chunked_reader cr body ends vr alg total)).1
                ≡ fails p e)))
drain-IsEnded cr body ends vr alg total sizes signed =
    let r = new_chunked_reader cr body ends vr alg total in
    let start = new_chunked_reader-Covered cr body ends vr alg total signed in
    (
      drain-bounded cr vr.signing_key vr.timestamp vr.scope vr.signature total ends body sizes [] r
          start,
      elim (Bool-cases (ltb total (length sizes))) [
        | inl enough ↦ inr (
            drain-Ends cr vr.signing_key vr.timestamp vr.scope vr.signature total ends body sizes []
              r start (ground (arith, enough)))
        | inr few ↦ inl (ground arith)
      ],
    )
