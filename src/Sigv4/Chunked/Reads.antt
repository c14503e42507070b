-- ===== src/Sigv4/Chunked/Reads.antt =====
-- sigv4/chunked.go: what `Read` hands out.
use s3rp.Common.{
  ℕ, ◌+◌, ◌≤◌, ◌≡◌, [], ◌⊎◌, inl, inr, refl, subst, true, false, ◌++◌, length, take, ◌==◌, Text,
  Bool-cases, Option-cases, arith, length-take,
}
use s3rp.Sigv4.Crypto.{Crypto}
use s3rp.Sigv4.Chunked.{
  SourceEnd, at_eof, broken, ChunkedReader, open_chunk, consume, finish_chunk, ReadError, bytes,
  eof_reached, fails, read_data, read, amount, Demand, joint_error,
}
use s3rp.Sigv4.Chunked.Trailers.{Step-cases}
use s3rp.Sigv4.Chunked.Covered.{Covered, Busy}
use s3rp.Sigv4.Chunked.Delivered.{
  open_chunk-Covered, consume-Progress, consume-Busy, finish_chunk-Covered,
}

pub end-cases : (s : SourceEnd) → (s ≡ at_eof) ⊎ (s ≡ broken)
end-cases at_eof = inl refl
end-cases broken = inr refl

read_data-bytes :
    (cr : Crypto) (d : Demand) (r r' : ChunkedReader) → ¬ (read_data cr d r ≡ (eof_reached, r'))
unfolding read_data
read_data-bytes cr d r r' e = elim (Bool-cases (amount cr d r == 0)) [
  | inl nothing ↦ elim (end-cases r.ends) [ inl over ↦ ground arith | inr bad ↦ ground arith ]
  | inr given ↦ elim (Option-cases (joint_error cr d (amount cr d r) r)) [
    | inr (e', with_it) ↦ ground arith
    | inl alone ↦ elim (Step-cases (finish_chunk cr (consume cr (amount cr d r) r))) [
      | inl (e', bad) ↦ ground arith
      | inr (m, on) ↦ ground arith
    ]
  ]
]

module _ (cr : Crypto) (key timestamp scope first : Text) (total : ℕ) (ends : SourceEnd)
    (body : Text) where
  abbrev Safe : ChunkedReader → Text → Type 0
  Safe r out = Covered cr key timestamp scope first total ends body r out

  read_data-Covered :
      (d : Demand) (r r' : ChunkedReader) (out p : Text)
      → Safe r out
      → r.eof ≡ false
      → read_data cr d r ≡ (bytes p, r')
      → Safe r' (out ++ p) × (1 ≤ length p)
  unfolding read_data
  read_data-Covered d r r' out p c live e =
      let n = amount cr d r in
      let small : n ≤ r.remaining = ground arith in
      let given : n ≤ length r.input = ground arith in
      elim (Bool-cases (n == 0)) [
        | inl nothing ↦ elim (end-cases r.ends) [
          | inl over ↦ absurd (ground arith)
          | inr bad ↦ absurd (ground arith)
        ]
        | inr some_bytes ↦ elim (Option-cases (joint_error cr d n r)) [
          | inr (e', with_it) ↦ absurd (ground arith)
          | inl alone ↦ elim (Step-cases (finish_chunk cr (consume cr n r))) [
            | inl (e', bad) ↦ absurd (ground arith)
            | inr (m, on) ↦
                let q =
                  consume-Progress cr key timestamp scope first total ends body n r out c.chunks
                    c.partial c.progress small given in
                let inside : Busy cr key timestamp scope first total ends body r c.chunks
                    c.partial =
                  elim c.place [
                    | inl (over, framed) ↦ absurd (ground (arith, over))
                    | inr (inl resting) ↦ absurd (ground (arith, resting.none_left))
                    | inr (inr (inside, busy)) ↦ busy
                  ] in
                let b =
                  consume-Busy cr key timestamp scope first total ends body n r c.chunks c.partial
                    inside small given in
                let s =
                  finish_chunk-Covered cr key timestamp scope first total ends body (consume cr n r)
                    m _ c.chunks _ q b live on in
                let same : m ≡ r' = ground arith in
                let text : take n r.input ≡ p = ground arith in
                let s' = subst (λ x. Safe x (out ++ take n r.input)) same s in
                (
                  subst (λ x. Safe r' (out ++ x)) text s',
                  ground (arith, length-take n r.input, text),
                )
          ]
        ]
      ]

  -- A read that hands out bytes hands out at least one, and what is out is covered.
  pub read-Covered :
      (d : Demand) (r r' : ChunkedReader) (out p : Text)
      → Safe r out
      → read cr d r ≡ (bytes p, r')
      → Safe r' (out ++ p) × (1 ≤ length p)
  unfolding read
  read-Covered d r r' out p c e = elim (Option-cases r.err) [
    | inr (e', bad) ↦ absurd (ground arith)
    | inl fine ↦ elim (Bool-cases r.eof) [
      | inl over ↦ absurd (ground arith)
      | inr live ↦ elim (Step-cases (open_chunk cr r)) [
        | inl (e', bad) ↦ absurd (ground arith)
        | inr (m, on) ↦ elim (Bool-cases m.eof) [
          | inl over ↦ absurd (ground arith)
          | inr inside ↦
              read_data-Covered d m r' out p
                (open_chunk-Covered cr key timestamp scope first total ends body r m out c live
                  on).0
                inside (ground arith)
        ]
      ]
    ]
  ]

  -- A read that reports the end leaves a reader at its end, with nothing more out.
  pub read-EndCovered :
      (d : Demand) (r r' : ChunkedReader) (out : Text)
      → Safe r out
      → read cr d r ≡ (eof_reached, r')
      → Safe r' out × (r'.eof ≡ true)
  unfolding read read_data
  read-EndCovered d r r' out c e = elim (Option-cases r.err) [
    | inr (e', bad) ↦ absurd (ground arith)
    | inl fine ↦ elim (Bool-cases r.eof) [
      | inl over ↦
          let same : r ≡ r' = ground arith in
          subst (λ x. Safe x out × (x.eof ≡ true)) same (c, over)
      | inr live ↦ elim (Step-cases (open_chunk cr r)) [
        | inl (e', bad) ↦ absurd (ground arith)
        | inr (m, on) ↦ elim (Bool-cases m.eof) [
          | inl over ↦
              let same : m ≡ r' = ground arith in
              subst (λ x. Safe x out × (x.eof ≡ true)) same
                (
                  (open_chunk-Covered cr key timestamp scope first total ends body r m out c live
                      on).0,
                  over,
                )
          | inr inside ↦ absurd (read_data-bytes cr d m r' (ground arith))
        ]
      ]
    ]
  ]

  read_data-bounded :
      (d : Demand) (r r' : ChunkedReader) (out p : Text) (e : ReadError)
      → Safe r out
      → read_data cr d r ≡ (fails p e, r')
      → length out + length p ≤ total
  unfolding read_data
  read_data-bounded d r r' out p e c h =
      let n = amount cr d r in
      let small : n ≤ r.remaining = ground arith in
      let given : n ≤ length r.input = ground arith in
      let budget = c.progress.budget in
      elim (Bool-cases (n == 0)) [
        | inl nothing ↦ elim (end-cases r.ends) [
          | inl over ↦ let none_of : [] ≡ p = ground arith in ground (arith, budget)
          | inr bad ↦ let none_of : [] ≡ p = ground arith in ground (arith, budget)
        ]
        | inr some_bytes ↦ elim (Option-cases (joint_error cr d n r)) [
          | inr (x, with_it) ↦
              let text : take n r.input ≡ p = ground arith in
              ground (arith, budget, length-take n r.input, text)
          | inl alone ↦ elim (Step-cases (finish_chunk cr (consume cr n r))) [
            | inl (x, bad) ↦ let none_of : [] ≡ p = ground arith in ground (arith, budget)
            | inr (m, on) ↦ absurd (ground arith)
          ]
        ]
      ]

  -- The bytes that come with an error are within the declared length too.
  pub read-bounded :
      (d : Demand) (r r' : ChunkedReader) (out p : Text) (e : ReadError)
      → Safe r out
      → read cr d r ≡ (fails p e, r')
      → length out + length p ≤ total
  unfolding read
  read-bounded d r r' out p e c h = elim (Option-cases r.err) [
    | inr (x, bad) ↦ let none_of : [] ≡ p = ground arith in ground (arith, c.progress.budget)
    | inl fine ↦ elim (Bool-cases r.eof) [
      | inl over ↦ absurd (ground arith)
      | inr live ↦ elim (Step-cases (open_chunk cr r)) [
        | inl (x, bad) ↦ let none_of : [] ≡ p = ground arith in ground (arith, c.progress.budget)
        | inr (m, on) ↦ elim (Bool-cases m.eof) [
          | inl over ↦ absurd (ground arith)
          | inr inside ↦
              read_data-bounded d m r' out p e
                (open_chunk-Covered cr key timestamp scope first total ends body r m out c live
                  on).0
                (ground arith)
        ]
      ]
    ]
  ]
