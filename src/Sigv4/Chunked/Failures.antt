-- ===== src/Sigv4/Chunked/Failures.antt =====
-- sigv4/chunked.go: the reader behind an error, and the lines of the trailers.
use s3rp.Common.{
  ℕ, zero, suc, ◌≤◌, ◌<◌, ◌≡◌, ◌⊎◌, inl, inr, refl, some, [], ◌∷◌, ◌++◌, length, Text, arith, leb,
  ltb, ◌==◌, is_empty, Bool-cases, Option-cases,
}
use s3rp.Sigv4.Crypto.{Crypto}
use s3rp.Sigv4.Chunked.{
  SourceEnd, at_eof, broken, got, ReadError, read_line, read_line_from, max_chunk_line_len,
  ChunkedReader, Step, stops, goes, check_trailer, behind_trailer, trailers_done, trailer_lines,
  open_chunk, consume, finish_chunk, amount, fails, read_data, read, Demand, joint_error,
}
use s3rp.Sigv4.Chunked.Trailers.{Got-cases, Step-cases}
use s3rp.Sigv4.Chunked.Reads.{end-cases}

read_data-err :
    (cr : Crypto) (d : Demand) (r r' : ChunkedReader) (p : Text) (e : ReadError)
    → read_data cr d r ≡ (fails p e, r')
    → r'.err ≡ some e
unfolding read_data
read_data-err cr d r r' p e h = elim (Bool-cases (amount cr d r == 0)) [
  | inl nothing ↦ elim (end-cases r.ends) [ inl over ↦ ground arith | inr bad ↦ ground arith ]
  | inr given ↦ elim (Option-cases (joint_error cr d (amount cr d r) r)) [
    | inr (e', with_it) ↦ ground arith
    | inl alone ↦ elim (Step-cases (finish_chunk cr (consume cr (amount cr d r) r))) [
      | inl (e', bad) ↦ ground arith
      | inr (m, on) ↦ absurd (ground arith)
    ]
  ]
]

-- An error of the reader is there for good: the next read returns it again, without bytes, and the
-- reader is the same behind it.
pub read-sticky :
    (cr : Crypto) (d d' : Demand) (r r' : ChunkedReader) (p : Text) (e : ReadError)
    → read cr d r ≡ (fails p e, r')
    → read cr d' r' ≡ (fails [] e, r')
unfolding read
read-sticky cr d d' r r' p e h = again kept
  where
    kept : r'.err ≡ some e
    kept = elim (Option-cases r.err) [
      | inr (e', bad) ↦ ground arith
      | inl fine ↦ elim (Bool-cases r.eof) [
        | inl over ↦ absurd (ground arith)
        | inr live ↦ elim (Step-cases (open_chunk cr r)) [
          | inl (e', bad) ↦ ground arith
          | inr (m, on) ↦ elim (Bool-cases m.eof) [
            | inl over ↦ absurd (ground arith)
            | inr inside ↦ read_data-err cr d m r' p e (ground arith)
          ]
        ]
      ]
    ]

    again : r'.err ≡ some e → read cr d' r' ≡ (fails [] e, r')
    again is = rw is refl

-- A line that was read has left the input.
read_line_from-shorter :
    (ends : SourceEnd) (line : Text) (n : ℕ) (input x rest : Text)
    → read_line_from ends line n input ≡ got x rest
    → (length rest < length input) ⊎ ((input ≡ []) × (1 ≤ n) × (rest ≡ []))
unfolding read_line_from
read_line_from-shorter at_eof line n [] x rest e = elim (Bool-cases (ltb 0 n)) [
  | inl some_bytes ↦ inr (refl, ground arith, ground arith)
  | inr nothing ↦ absurd (ground arith)
]
read_line_from-shorter broken line n [] x rest e = absurd (ground arith)
read_line_from-shorter at_eof line n (b ∷ input) x rest e = elim (Bool-cases (b == 10)) [
  | inl line_end ↦ inl (ground arith)
  | inr inside ↦ elim (Bool-cases (leb max_chunk_line_len n)) [
    | inl long ↦ absurd (ground arith)
    | inr fits ↦
        let shorter =
          read_line_from-shorter at_eof (line ++ (b ∷ [])) (suc n) input x rest (ground arith) in
        inl (ground (arith, shorter))
  ]
]
read_line_from-shorter broken line n (b ∷ input) x rest e = elim (Bool-cases (b == 10)) [
  | inl line_end ↦ inl (ground arith)
  | inr inside ↦ elim (Bool-cases (leb max_chunk_line_len n)) [
    | inl long ↦ absurd (ground arith)
    | inr fits ↦
        let shorter =
          read_line_from-shorter broken (line ++ (b ∷ [])) (suc n) input x rest (ground arith) in
        inl (ground (arith, shorter))
  ]
]

read_line-shorter :
    (ends : SourceEnd) (input x rest : Text)
    → read_line ends input ≡ got x rest
    → length rest < length input
unfolding read_line
read_line-shorter ends input x rest e = elim (read_line_from-shorter ends [] 0 input x rest e) [
  | inl shorter ↦ shorter
  | inr (nothing, some_bytes, over) ↦ absurd (ground arith)
]

behind_trailer-input :
    (cr : Crypto) (r r' : ChunkedReader) (line rest : Text)
    → behind_trailer cr r line rest ≡ goes r'
    → r'.input ≡ rest
behind_trailer-input cr r r' line rest e = elim (Option-cases r.ck) [
  | inl without ↦ ground arith
  | inr (t, declared) ↦ elim (Option-cases (check_trailer cr t line)) [
    | inl mismatch ↦ absurd (ground arith)
    | inr (t', checked) ↦ ground arith
  ]
]

-- The loop over the trailers ends: more fuel than there are bytes left is enough for it.
pub trailer_lines-enough :
    (cr : Crypto) (fuel : ℕ) (r : ChunkedReader)
    → length r.input < fuel
    → (s : Step) × (trailer_lines cr fuel r ≡ some s)
unfolding trailer_lines
trailer_lines-enough cr zero r enough = absurd (ground arith)
trailer_lines-enough cr (suc fuel) r enough = elim (Got-cases (read_line r.ends r.input)) [
  | inl over ↦ (trailers_done cr r [], ground arith)
  | inr (inl (e, bad)) ↦ (stops e, ground arith)
  | inr (inr (line, rest, read_it)) ↦ elim (Bool-cases (is_empty line)) [
    | inl blank ↦ (trailers_done cr r rest, ground arith)
    | inr text ↦ elim (Step-cases (behind_trailer cr r line rest)) [
      | inl (e, bad) ↦ (stops e, ground arith)
      | inr (m, on) ↦
          let left = behind_trailer-input cr r m line rest on in
          let shorter = read_line-shorter r.ends r.input line rest read_it in
          let (s, ran_to) = trailer_lines-enough cr fuel m (ground arith) in (s, ground arith)
    ]
  ]
]
