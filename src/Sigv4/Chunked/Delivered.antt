-- ===== src/Sigv4/Chunked/Delivered.antt =====
-- sigv4/chunked.go: the steps of a read, from one covered state to the next.
use s3rp.Common.{
  ℕ, ◌+◌, ◌-◌, ◌≤◌, ◌≡◌, ◌⊎◌, inl, inr, refl, sym, ◌∙◌, ap, subst, true, false, not, List, [], ◌∷◌,
  ◌++◌, if◌then◌else◌, length, take, ltb, ◌==◌, Text, Bool-cases, arith, length-append, length-take,
}
use mathlib.Core.List.{append_assoc}
use s3rp.Sigv4.Crypto.{Crypto}
use s3rp.Sigv4.Chunked.{
  SourceEnd, got, incomplete_body, ChunkHeader, read_crlf, read_chunk_header, ChunkedReader, Step,
  stops, goes, ◌then_step◌, onto, verify_chunk, discard_trailers, skip_frame, next_header,
  read_terminal, begin_chunk, open_chunk, consume, finish_chunk, at_end,
}
use s3rp.Sigv4.Chunked.Frames.{
  Chunk, Separated, Opened, begun, begun-snoc, Frames, Frames-snoc, Opened-more,
}
use s3rp.Sigv4.Chunked.Trailers.{then_step-goes, onto-goes}
use s3rp.Sigv4.Chunked.Covered.{
  content, Progress, Covered, Idle, Busy, opened_lem, verify_chunk-Progress, close-Covered,
  Progress-input, read_terminal-Covered,
}

skip_frame-goes :
    (cr : Crypto) (r r' : ChunkedReader)
    → skip_frame cr r ≡ goes r'
    → (rest : Text) × Separated r.ends r.started r.input rest × (r' ≡ record r { input = rest })
unfolding skip_frame
skip_frame-goes cr r r' e = elim (Bool-cases r.started) [
  | inl begun_it ↦
      let k : Unit {0} → Text → Step =
        λ (x : Unit {0}) (rest : Text). goes (record r { input = rest }) in
      let e0 : onto (read_crlf r.ends r.input) k ≡ goes r' = ground (arith, e, begun_it) in
      let (x, rest, crlf, e1) = onto-goes (read_crlf r.ends r.input) k r' e0 in
      (rest, rw begun_it crlf, ground arith)
  | inr fresh ↦ (r.input, rw fresh refl, ground arith)
]

next_header-goes :
    (cr : Crypto) (r r' : ChunkedReader) (k : ChunkHeader → ChunkedReader → Step)
    → next_header cr r k ≡ goes r'
    → (h : ChunkHeader) × (rest : Text) × (read_chunk_header r.ends r.signed r.input ≡ got h rest)
      × (k h (record r { input = rest; chunk_sig = h.chunk_sig }) ≡ goes r')
unfolding next_header
next_header-goes cr r r' k e =
    let (h, rest, header, e1) = onto-goes (read_chunk_header r.ends r.signed r.input) _ r' e in
    (h, rest, header, e1)

module _ (cr : Crypto) (key timestamp scope first : Text) (total : ℕ) (ends : SourceEnd)
    (body : Text) where
  abbrev Moved : ChunkedReader → Text → List Chunk → Text → Type 0
  Moved r out chunks partial = Progress cr key timestamp scope first total r out chunks partial

  abbrev Safe : ChunkedReader → Text → Type 0
  Safe r out = Covered cr key timestamp scope first total ends body r out

  abbrev Resting : ChunkedReader → List Chunk → Type 0
  Resting r chunks = Idle cr key timestamp scope first total ends body r chunks

  abbrev Reading : ChunkedReader → List Chunk → Text → Type 0
  Reading r chunks partial = Busy cr key timestamp scope first total ends body r chunks partial

  begin_chunk-Covered :
      (h : ChunkHeader) (r r' : ChunkedReader) (out : Text) (chunks : List Chunk)
      → Moved r out chunks []
      → r.remaining ≡ 0
      → r.eof ≡ false
      → r.ends ≡ ends
      → (at : Text) × Frames ends false body chunks at
        × Opened ends (begun false chunks) at h.chunk_sig [] h.size r.input
      → r.chunk_sig ≡ h.chunk_sig
      → begin_chunk cr h r ≡ goes r'
      → Safe r' out × ((r'.eof ≡ true) ⊎ (1 ≤ r'.remaining))
  unfolding begin_chunk
  begin_chunk-Covered h r r' out chunks p idle live ends_is (at, frames, opened) sig e =
      elim (Bool-cases (ltb r.undecoded h.size)) [
        | inl large ↦ absurd (ground arith)
        | inr fits ↦ elim (Bool-cases (h.size == 0)) [
          | inl terminal ↦
              let r1 : ChunkedReader = record r { started = true } in
              let k : ChunkedReader → Step = λ (a : ChunkedReader).
                if not (a.undecoded == 0)
                then stops incomplete_body
                else (discard_trailers cr a then_step λ b. at_end cr b) in
              let e1 : (verify_chunk cr r1 then_step k) ≡ goes r' =
                ground (arith, e, fits, terminal) in
              let (a, v, e2) = then_step-goes (verify_chunk cr r1) k r' e1 in
              let p1 =
                Progress-input cr key timestamp scope first total r out chunks [] r.input
                  r.chunk_sig true p in
              let same =
                (verify_chunk-Progress cr key timestamp scope first total r1 a out chunks [] p1
                  v).1 in
              elim (Bool-cases (a.undecoded == 0)) [
                | inl drained ↦
                    let e3 : (discard_trailers cr a then_step λ b. at_end cr b) ≡ goes r' =
                      ground (arith, e2, drained) in
                    let (b, t, e4) = then_step-goes (discard_trailers cr a) (at_end cr) r' e3 in
                    let budget : r.remaining + r.undecoded ≡ 0 =
                      ground (arith, same, drained, idle) in
                    let none_left : h.size ≡ 0 = ground arith in
                    let whole =
                      subst (λ n. Opened ends (begun false chunks) at r.chunk_sig [] n r.input)
                        none_left
                        (subst (λ x. Opened ends (begun false chunks) at x [] h.size r.input)
                          (sym sig) opened) in
                    let framed =
                      Frames-snoc ends false body at r.input [] r.chunk_sig chunks frames whole in
                    let (c, over) =
                      close-Covered cr key timestamp scope first total ends body r1 a b r' out
                        chunks p1 budget (r.input, framed) v t e4 in
                    (c, inl over)
                | inr short ↦ absurd (ground arith)
              ]
          | inr more ↦
              let behind : record r {
                started = true;
                undecoded = r.undecoded - h.size;
                remaining = h.size;
              }
                  ≡ r' =
                ground arith in
              subst (λ x. Safe x out × ((x.eof ≡ true) ⊎ (1 ≤ x.remaining))) behind
                (
                  record {
                    chunks = chunks;
                    partial = [];
                    progress = record {
                      signed = p.signed;
                      key_is = p.key_is;
                      time_is = p.time_is;
                      scope_is = p.scope_is;
                      out_is = p.out_is;
                      chain = p.chain;
                      hash_is = p.hash_is;
                      budget = ground (arith, p.budget);
                    };
                    settled = inr refl;
                    closing = inl live;
                    ready = inr (inr (ground arith));
                    place = inr (
                        inr (
                          ground arith,
                          record {
                            ends_is = ends_is;
                            at = at;
                            frames = frames;
                            opened =
                                subst (λ x. Opened ends (begun false chunks) at x [] h.size r.input)
                                  (sym sig) opened;
                            on = refl;
                          },
                        ));
                  },
                  inr (ground arith),
                )
        ]
      ]

  -- The loop of `Read`: a chunk is at hand behind it, or the body is at its end.
  pub open_chunk-Covered :
      (r r' : ChunkedReader) (out : Text)
      → Safe r out
      → r.eof ≡ false
      → open_chunk cr r ≡ goes r'
      → Safe r' out × ((r'.eof ≡ true) ⊎ (1 ≤ r'.remaining))
  unfolding open_chunk next_header
  open_chunk-Covered r r' out c live e = elim (Bool-cases (r.remaining == 0)) [
    | inl idle ↦
        let whole : c.partial ≡ [] = ground (arith, c.settled, idle) in
        let p = subst (Moved r out c.chunks) whole c.progress in
        let at_rest : Resting r c.chunks = elim c.place [
          | inl (over, framed) ↦ absurd (ground (arith, over))
          | inr (inl resting) ↦ resting
          | inr (inr (inside, busy)) ↦ absurd (ground (arith, inside))
        ] in
        let k : ChunkedReader → Step = λ (a : ChunkedReader). next_header cr a (begin_chunk cr) in
        let e1 : (skip_frame cr r then_step k) ≡ goes r' = ground (arith, e, idle) in
        let (a, f, e2) = then_step-goes (skip_frame cr r) k r' e1 in
        let (rest, apart, moved) = skip_frame-goes cr r a f in
        let (h, rest', line, e3) = next_header-goes cr a r' (begin_chunk cr) e2 in
        let r1 : ChunkedReader = record r {
          input = rest';
          chunk_sig = h.chunk_sig;
          started = r.started;
        } in
        let e4 : begin_chunk cr h r1 ≡ goes r' =
          subst
            (λ x. begin_chunk cr h (record x { input = rest'; chunk_sig = h.chunk_sig }) ≡ goes r')
            moved e3 in
        begin_chunk-Covered h r1 r' out c.chunks
          (Progress-input cr key timestamp scope first total r out c.chunks [] rest' h.chunk_sig
            r.started p)
          (ground arith) live at_rest.ends_is
          (
            r.input,
            at_rest.frames,
            opened_lem cr key timestamp scope first total ends body r c.chunks rest rest' h p.signed
                at_rest (subst (λ x. Separated x r.started r.input rest) at_rest.ends_is apart)
                (subst (λ x. read_chunk_header x.ends x.signed x.input ≡ got h rest') moved line),
          )
          refl e4
    | inr inside ↦
        let same : r ≡ r' = ground arith in
        subst (λ x. Safe x out × ((x.eof ≡ true) ⊎ (1 ≤ x.remaining))) same (c, inr (ground arith))
  ]

  pub consume-Progress :
      (n : ℕ) (r : ChunkedReader) (out : Text) (chunks : List Chunk) (partial : Text)
      → Moved r out chunks partial
      → n ≤ r.remaining
      → n ≤ length r.input
      → Moved (consume cr n r) (out ++ take n r.input) chunks (partial ++ take n r.input)
  unfolding consume
  consume-Progress n r out chunks partial p small given =
      let handed : length (take n r.input) ≡ n = ground (arith, length-take n r.input) in
      record {
        signed = p.signed;
        key_is = p.key_is;
        time_is = p.time_is;
        scope_is = p.scope_is;
        out_is =
            ap (λ x. x ++ take n r.input) p.out_is
            ∙ append_assoc (content chunks) partial (take n r.input);
        chain = p.chain;
        hash_is = ground (arith, p.signed, p.hash_is);
        budget = ground (arith, p.budget, length-append out (take n r.input), handed);
      }

  pub consume-Busy :
      (n : ℕ) (r : ChunkedReader) (chunks : List Chunk) (partial : Text)
      → Reading r chunks partial
      → n ≤ r.remaining
      → n ≤ length r.input
      → Reading (consume cr n r) chunks (partial ++ take n r.input)
  unfolding consume
  consume-Busy n r chunks partial b small given = record {
    ends_is = b.ends_is;
    at = b.at;
    frames = b.frames;
    opened =
        Opened-more ends (begun false chunks) b.at r.chunk_sig partial r.input r.remaining n
          b.opened small given;
    on = b.on;
  }

  -- The reader behind a chunk that was checked.
  checked_lem :
      (r a : ChunkedReader) (chunks : List Chunk) (partial : Text)
      → Reading r chunks partial
      → r.remaining ≡ 0
      → a ≡ record r { prev_sig = r.chunk_sig; chunk_hash = [] }
      → Resting a (chunks ++ ((partial, r.chunk_sig) ∷ []))
  checked_lem r a chunks partial b complete same =
      subst (λ x. Resting x (chunks ++ ((partial, r.chunk_sig) ∷ []))) (sym same)
        (record {
          ends_is = b.ends_is;
          frames = Frames-snoc ends false body b.at r.input partial r.chunk_sig chunks b.frames (
              subst (λ n. Opened ends (begun false chunks) b.at r.chunk_sig partial n r.input)
                complete b.opened);
          begun_is = b.on ∙ sym (begun-snoc false chunks (partial, r.chunk_sig));
          none_left = complete;
        })

  pub finish_chunk-Covered :
      (r r' : ChunkedReader) (out : Text) (chunks : List Chunk) (partial : Text)
      → Moved r out chunks partial
      → Reading r chunks partial
      → r.eof ≡ false
      → finish_chunk cr r ≡ goes r'
      → Safe r' out
  unfolding finish_chunk
  finish_chunk-Covered r r' out chunks partial p b live e = elim (Bool-cases (r.remaining == 0)) [
    | inl complete ↦
        let k : ChunkedReader → Step =
          λ (a : ChunkedReader). if a.undecoded == 0 then read_terminal cr a else goes a in
        let e1 : (verify_chunk cr r then_step k) ≡ goes r' = ground (arith, e, complete) in
        let (a, v, e2) = then_step-goes (verify_chunk cr r) k r' e1 in
        let (q, same) =
          verify_chunk-Progress cr key timestamp scope first total r a out chunks partial p v in
        let at_rest = checked_lem r a chunks partial b (ground arith) same in
        elim (Bool-cases (a.undecoded == 0)) [
          | inl drained ↦
              read_terminal-Covered cr key timestamp scope first total ends body a r' out _ q
                (ground arith) at_rest (ground (arith, same, b.on)) (ground arith)
          | inr more ↦
              let behind : a ≡ r' = ground arith in
              subst (λ x. Safe x out) behind
                (record {
                  chunks = chunks ++ ((partial, r.chunk_sig) ∷ []);
                  partial = [];
                  progress = q;
                  settled = inr refl;
                  closing = inl (ground arith);
                  ready = inr (inr (ground arith));
                  place = inr (inl at_rest);
                })
        ]
    | inr inside ↦
        let behind : r ≡ r' = ground arith in
        subst (λ x. Safe x out) behind
          (record {
            chunks = chunks;
            partial = partial;
            progress = p;
            settled = inl (ground arith);
            closing = inl live;
            ready = inr (inr (ground arith));
            place = inr (inr (ground arith, b));
          })
  ]
