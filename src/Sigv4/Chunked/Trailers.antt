-- ===== src/Sigv4/Chunked/Trailers.antt =====
-- sigv4/chunked.go: how steps of the reader are put together, and what the trailers leave alone.
use s3rp.Common.{
  ℕ, zero, suc, ◌≡◌, ◌⊎◌, inl, inr, refl, some, [], is_empty, length, Text, Bool-cases,
  Option-cases, arith,
}
use s3rp.Sigv4.Crypto.{Crypto}
use s3rp.Sigv4.Chunked.{
  Got, ended, failed, got, ReadError, read_line, ChunkedReader, Step, stops, goes, ◌then_step◌,
  onto, check_trailer, trailer_lines, discard_trailers, trailers_done, behind_trailer,
}

-- The fields that reading lines and trailers leaves alone.
pub record Keeps (r r' : ChunkedReader) : Type 0 where
  pub signed : r'.signed ≡ r.signed
  pub key : r'.signing_key ≡ r.signing_key
  pub time : r'.timestamp ≡ r.timestamp
  pub scope : r'.scope ≡ r.scope
  pub prev : r'.prev_sig ≡ r.prev_sig
  pub hash : r'.chunk_hash ≡ r.chunk_hash
  pub left : r'.remaining ≡ r.remaining
  pub budget : r'.undecoded ≡ r.undecoded
  pub begun : r'.started ≡ r.started
  pub over : r'.eof ≡ r.eof

pub Got-cases {ℓ} :
    {X : Type ℓ} (g : Got X)
    → (g ≡ ended)
      ⊎ ((e : ReadError) × (g ≡ failed e))
      ⊎ ((x : X) × (rest : Text) × (g ≡ got x rest))
Got-cases ended = inl refl
Got-cases (failed e) = inr (inl (e, refl))
Got-cases (got x rest) = inr (inr (x, rest, refl))

pub Step-cases :
    (s : Step) → ((e : ReadError) × (s ≡ stops e)) ⊎ ((r : ChunkedReader) × (s ≡ goes r))
Step-cases (stops e) = inl (e, refl)
Step-cases (goes r) = inr (r, refl)

Keeps-trans : (a b c : ChunkedReader) → Keeps a b → Keeps b c → Keeps a c
Keeps-trans a b c k l = ground arith

pub then_step-goes :
    (s : Step) (k : ChunkedReader → Step) (r : ChunkedReader)
    → (s then_step k) ≡ goes r
    → (m : ChunkedReader) × (s ≡ goes m) × (k m ≡ goes r)
then_step-goes (stops e) k r h = absurd (ground arith)
then_step-goes (goes m) k r h = (m, refl, h)

pub onto-goes {ℓ} :
    {X : Type ℓ} (g : Got X) (k : X → Text → Step) (r : ChunkedReader)
    → onto g k ≡ goes r
    → (x : X) × (rest : Text) × (g ≡ got x rest) × (k x rest ≡ goes r)
onto-goes ended k r h = absurd (ground arith)
onto-goes (failed e) k r h = absurd (ground arith)
onto-goes (got x rest) k r h = (x, rest, refl, h)

module _ (cr : Crypto) where
  trailers_done-Keeps :
      (r r' : ChunkedReader) (rest : Text) → trailers_done cr r rest ≡ goes r' → Keeps r r'
  trailers_done-Keeps r r' rest e = elim (Option-cases r.ck) [
    | inl without ↦ ground arith
    | inr (t, declared) ↦ ground arith
  ]

  behind_trailer-Keeps :
      (r r' : ChunkedReader) (line rest : Text)
      → behind_trailer cr r line rest ≡ goes r'
      → Keeps r r'
  behind_trailer-Keeps r r' line rest e = elim (Option-cases r.ck) [
    | inl without ↦ ground arith
    | inr (t, declared) ↦ elim (Option-cases (check_trailer cr t line)) [
      | inl mismatch ↦ absurd (ground arith)
      | inr (t', checked) ↦ ground arith
    ]
  ]

  trailer_lines-Keeps :
      (fuel : ℕ) (r r' : ChunkedReader) → trailer_lines cr fuel r ≡ some (goes r') → Keeps r r'
  unfolding trailer_lines
  trailer_lines-Keeps zero r r' e = absurd (ground arith)
  trailer_lines-Keeps (suc fuel) r r' e = elim (Got-cases (read_line r.ends r.input)) [
    | inl over ↦ trailers_done-Keeps r r' [] (ground arith)
    | inr (inl (e', bad)) ↦ absurd (ground arith)
    | inr (inr (line, rest, read_it)) ↦ elim (Bool-cases (is_empty line)) [
      | inl blank ↦ trailers_done-Keeps r r' rest (ground arith)
      | inr text ↦ elim (Step-cases (behind_trailer cr r line rest)) [
        | inl (e', bad) ↦ absurd (ground arith)
        | inr (m, on) ↦
            Keeps-trans r m r' (behind_trailer-Keeps r m line rest on)
              (trailer_lines-Keeps fuel m r' (ground arith))
      ]
    ]
  ]

  pub discard_trailers-Keeps : (r r' : ChunkedReader) → discard_trailers cr r ≡ goes r' → Keeps r r'
  unfolding discard_trailers
  discard_trailers-Keeps r r' e = elim (Bool-cases r.trailer) [
    | inl with_trailer ↦ elim (Option-cases (trailer_lines cr (suc (length r.input)) r)) [
      | inl lacking ↦ absurd (ground arith)
      | inr (s, ran_to) ↦ trailer_lines-Keeps (suc (length r.input)) r r' (ground arith)
    ]
    | inr without ↦ ground arith
  ]
