-- ===== src/Sigv4/Chunked/Covered.antt =====
-- sigv4/chunked.go: every byte that the reader hands out is covered by the chain of signatures.
use mathlib.Core.List.{append_assoc, append-nil}
use s3rp.Common.{
  ℕ, ◌+◌, ◌≤◌, ◌≡◌, ◌⊎◌, inl, inr, refl, sym, ◌∙◌, ap, subst, Bool, true, false, List, [], ◌∷◌,
  ◌++◌, length, ◌==◌, Text, codes, join, text_eq, text_eq_sound, Bool-cases, arith,
}
use s3rp.Sigv4.Crypto.{Crypto, to_hex}
use s3rp.Sigv4.Chunked.{
  SourceEnd, got, ChunkHeader, read_crlf, read_chunk_header, ChunkedReader, Step, goes, ◌then_step◌,
  chunk_signature, verify_chunk, discard_trailers, next_header, read_terminal, at_end,
}
use s3rp.Sigv4.Chunked.Frames.{Chunk, Separated, Opened, begun, Frames, Frames-snoc}
use s3rp.Sigv4.Chunked.Trailers.{Keeps, then_step-goes, onto-goes, discard_trailers-Keeps}

abbrev pub content : List Chunk → Text
content [] = []
content ((d, s) ∷ cs) = d ++ content cs

content-snoc : (cs : List Chunk) (d s : Text) → content (cs ++ ((d, s) ∷ [])) ≡ content cs ++ d
content-snoc [] d s = append-nil d
content-snoc ((e, t) ∷ cs) d s =
    ap (λ x. e ++ x) (content-snoc cs d s) ∙ sym (append_assoc e (content cs) d)

-- The last chunk is the terminal one, without data.
abbrev pub EndsWithTerminal : List Chunk → Type 0
EndsWithTerminal cs = (before : List Chunk) × (s : Text) × (cs ≡ before ++ (([], s) ∷ []))

-- The signatures of the chunks form a chain, from a first signature to a last.
module _ (cr : Crypto) (key timestamp scope : Text) where
  -- Each is the HMAC over the time, the scope, the signature before it and the hashes of nothing and
  -- of the chunk's data.
  abbrev pub Chained : Text → List Chunk → Text → Type 0
  Chained first [] last = first ≡ last
  Chained first ((d, s) ∷ cs) last =
      (s
        ≡ to_hex (
            cr.hmac key (
              join (10 ∷ []) (
                codes "AWS4-HMAC-SHA256-PAYLOAD"
                ∷ timestamp
                ∷ scope
                ∷ first
                ∷ to_hex (cr.sha256 [])
                ∷ to_hex (cr.sha256 d)
                ∷ []))))
      × Chained s cs last

  Chained-snoc :
      (first : Text) (cs : List Chunk) (last d s : Text)
      → Chained first cs last
      → s ≡ chunk_signature cr key timestamp scope last d
      → Chained first (cs ++ ((d, s) ∷ [])) s
  unfolding chunk_signature
  Chained-snoc first [] last d s c e = (rw c e, refl)
  Chained-snoc first ((d', s') ∷ cs) last d s c e = (c.0, Chained-snoc s' cs last d s c.1 e)

  module _ (first : Text) (total : ℕ) where
    -- The reader has checked chunks, and is inside one of which `partial` has been handed out.
    pub record Progress (r : ChunkedReader) (out : Text) (chunks : List Chunk) (partial : Text)
        : Type 0 where
      pub signed : r.signed ≡ true
      pub key_is : r.signing_key ≡ key
      pub time_is : r.timestamp ≡ timestamp
      pub scope_is : r.scope ≡ scope
      pub out_is : out ≡ content chunks ++ partial
      pub chain : Chained first chunks r.prev_sig
      pub hash_is : r.chunk_hash ≡ partial
      pub budget : length out + r.remaining + r.undecoded ≡ total

    pub Keeps-Progress :
        (r r' : ChunkedReader) (out : Text) (chunks : List Chunk) (partial : Text)
        → Keeps r r'
        → Progress r out chunks partial
        → Progress r' out chunks partial
    Keeps-Progress r r' out chunks partial k p = record {
      signed = ground (arith, k.signed, p.signed);
      key_is = ground arith;
      time_is = ground arith;
      scope_is = ground arith;
      out_is = p.out_is;
      chain = subst (Chained first chunks) (sym k.prev) p.chain;
      hash_is = ground arith;
      budget = ground arith;
    }

    -- The chunk at hand is checked.
    pub verify_chunk-Progress :
        (r r' : ChunkedReader) (out : Text) (chunks : List Chunk) (partial : Text)
        → Progress r out chunks partial
        → verify_chunk cr r ≡ goes r'
        → Progress r' out (chunks ++ ((partial, r.chunk_sig) ∷ [])) []
          × (r' ≡ record r { prev_sig = r.chunk_sig; chunk_hash = [] })
    unfolding verify_chunk
    verify_chunk-Progress r r' out chunks partial p e =
        let sig = chunk_signature cr r.signing_key r.timestamp r.scope r.prev_sig r.chunk_hash in
        elim (Bool-cases (text_eq sig r.chunk_sig)) [
          | inl same ↦
              let eq : sig ≡ r.chunk_sig = text_eq_sound sig r.chunk_sig same in
              let behind : r' ≡ record r { prev_sig = r.chunk_sig; chunk_hash = [] } =
                ground arith in
              let signs : r.chunk_sig ≡ chunk_signature cr key timestamp scope r.prev_sig partial =
                cc (eq, p.key_is, p.time_is, p.scope_is, p.hash_is) in
              let prev : r.chunk_sig ≡ r'.prev_sig = ground arith in
              (
                record {
                  signed = ground (arith, p.signed);
                  key_is = ground (arith, p.key_is);
                  time_is = ground (arith, p.time_is);
                  scope_is = ground (arith, p.scope_is);
                  out_is =
                      p.out_is
                      ∙ (sym (content-snoc chunks partial r.chunk_sig)
                          ∙ sym (append-nil (content (chunks ++ ((partial, r.chunk_sig) ∷ [])))));
                  chain =
                      subst (Chained first (chunks ++ ((partial, r.chunk_sig) ∷ []))) prev
                        (Chained-snoc first chunks r.prev_sig partial r.chunk_sig p.chain signs);
                  hash_is = ground arith;
                  budget = ground (arith, p.budget);
                },
                behind,
              )
          | inr other ↦ absurd (ground (arith, p.signed))
        ]

    -- Reading lines changes the input and the declared signature only.
    pub Progress-input :
        (r : ChunkedReader) (out : Text) (chunks : List Chunk) (partial input sig : Text)
        (begun : Bool)
        → Progress r out chunks partial
        → Progress (record r { input = input; chunk_sig = sig; started = begun }) out chunks partial
    Progress-input r out chunks partial input sig begun p = record {
      signed = p.signed;
      key_is = p.key_is;
      time_is = p.time_is;
      scope_is = p.scope_is;
      out_is = p.out_is;
      chain = p.chain;
      hash_is = p.hash_is;
      budget = p.budget;
    }

    module _ (ends : SourceEnd) (body : Text) where
      -- The checked chunks stand at the front of the body, and the input is what is behind them.
      pub record Idle (r : ChunkedReader) (chunks : List Chunk) : Type 0 where
        pub ends_is : r.ends ≡ ends
        pub frames : Frames ends false body chunks r.input
        pub begun_is : r.started ≡ begun false chunks
        pub none_left : r.remaining ≡ 0

      -- Behind the checked chunks stands one that declares the signature that the reader has, and of
      -- which `partial` has been read.
      pub record Busy (r : ChunkedReader) (chunks : List Chunk) (partial : Text) : Type 0 where
        pub ends_is : r.ends ≡ ends
        pub at : Text
        pub frames : Frames ends false body chunks at
        pub opened : Opened ends (begun false chunks) at r.chunk_sig partial r.remaining r.input
        pub on : r.started ≡ true

      -- What holds of the reader between two reads that have handed out `out` without an error: its
      -- chunks are checked, a chunk of which all bytes are out too, and stand in the body; it is at its
      -- end only behind the terminal chunk; and once the declared length is out it is at its end.
      pub record Covered (r : ChunkedReader) (out : Text) : Type 0 where
        pub chunks : List Chunk
        pub partial : Text
        pub progress : Progress r out chunks partial
        pub settled : (1 ≤ r.remaining) ⊎ (partial ≡ [])
        pub closing : (r.eof ≡ false) ⊎ ((r.remaining + r.undecoded ≡ 0) × EndsWithTerminal chunks)
        pub ready : (r.eof ≡ true) ⊎ (out ≡ []) ⊎ (1 ≤ r.remaining + r.undecoded)
        pub place :
            ((r.eof ≡ true) × ((m : Text) × Frames ends false body chunks m))
            ⊎ Idle r chunks
            ⊎ ((1 ≤ r.remaining) × Busy r chunks partial)

      -- The header of the chunk behind those that are checked.
      pub opened_lem :
          (r : ChunkedReader) (chunks : List Chunk) (before rest : Text) (h : ChunkHeader)
          → r.signed ≡ true
          → Idle r chunks
          → Separated ends r.started r.input before
          → read_chunk_header r.ends r.signed before ≡ got h rest
          → Opened ends (begun false chunks) r.input h.chunk_sig [] h.size rest
      opened_lem r chunks before rest h signed at_rest apart line = record {
        before = before;
        separated = subst (λ x. Separated ends x r.input before) at_rest.begun_is apart;
        header = h;
        behind = rest;
        header_is = cc (signed, at_rest.ends_is, line);
        sig_is = refl;
        size_is = ground arith;
        data_is = refl;
      }

      -- The terminal chunk and the trailers behind it: `verifyChunk`, `discardTrailers`, the end.
      pub close-Covered :
          (r a b r' : ChunkedReader) (out : Text) (chunks : List Chunk)
          → Progress r out chunks []
          → r.remaining + r.undecoded ≡ 0
          → (m : Text) × Frames ends false body (chunks ++ (([], r.chunk_sig) ∷ [])) m
          → verify_chunk cr r ≡ goes a
          → discard_trailers cr a ≡ goes b
          → at_end cr b ≡ goes r'
          → Covered r' out × (r'.eof ≡ true)
      close-Covered r a b r' out chunks p budget framed v t e =
          let (p1, same) = verify_chunk-Progress r a out chunks [] p v in
          let k = discard_trailers-Keeps cr a b t in
          let p2 = Keeps-Progress a b out _ [] k p1 in
          let last : r' ≡ record b { eof = true } = ground arith in
          let p3 : Progress (record b { eof = true }) out (chunks ++ (([], r.chunk_sig) ∷ [])) [] =
            record {
              signed = p2.signed;
              key_is = p2.key_is;
              time_is = p2.time_is;
              scope_is = p2.scope_is;
              out_is = p2.out_is;
              chain = p2.chain;
              hash_is = p2.hash_is;
              budget = p2.budget;
            } in
          let p4 =
            subst (λ x. Progress x out (chunks ++ (([], r.chunk_sig) ∷ [])) []) (sym last) p3 in
          let left : b.remaining + b.undecoded ≡ 0 = ground (arith, k.left, k.budget) in
          (
            record {
              chunks = chunks ++ (([], r.chunk_sig) ∷ []);
              partial = [];
              progress = p4;
              settled = inr refl;
              closing = inr (ground arith, (chunks, r.chunk_sig, refl));
              ready = inl (ground arith);
              place = inl (ground arith, framed);
            },
            ground arith,
          )

      pub read_terminal-Covered :
          (r r' : ChunkedReader) (out : Text) (chunks : List Chunk)
          → Progress r out chunks []
          → r.remaining + r.undecoded ≡ 0
          → Idle r chunks
          → r.started ≡ true
          → read_terminal cr r ≡ goes r'
          → Covered r' out
      unfolding read_terminal next_header
      read_terminal-Covered r r' out chunks p budget at_rest on e =
          let (x, rest, crlf, e1) = onto-goes (read_crlf r.ends r.input) _ r' e in
          let (h, rest', line, e2) = onto-goes (read_chunk_header r.ends r.signed rest) _ r' e1 in
          elim (Bool-cases (h.size == 0)) [
            | inl zero_size ↦
                let r1 : ChunkedReader = record r {
                  input = rest';
                  chunk_sig = h.chunk_sig;
                  started = r.started;
                } in
                let k : ChunkedReader → Step =
                  λ (a : ChunkedReader). discard_trailers cr a then_step λ b. at_end cr b in
                let e3 : (verify_chunk cr r1 then_step k) ≡ goes r' =
                  ground (arith, e2, zero_size) in
                let (a, v, e4) = then_step-goes (verify_chunk cr r1) k r' e3 in
                let (b, t, e5) = then_step-goes (discard_trailers cr a) (at_end cr) r' e4 in
                let o : Opened ends (begun false chunks) r.input h.chunk_sig [] h.size rest' =
                  opened_lem r chunks rest rest' h p.signed at_rest
                    (rw on (cc (crlf, at_rest.ends_is))) line in
                let none_left : h.size ≡ 0 = ground arith in
                let framed =
                  Frames-snoc ends false body r.input rest' [] h.chunk_sig chunks at_rest.frames (
                    subst (λ n. Opened ends (begun false chunks) r.input h.chunk_sig [] n rest')
                      none_left o) in
                (close-Covered r1 a b r' out chunks
                  (Progress-input r out chunks [] rest' h.chunk_sig r.started p) budget
                  (rest', framed) v t e5).0
            | inr more ↦ absurd (ground arith)
          ]
