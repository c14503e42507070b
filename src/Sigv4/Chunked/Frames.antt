-- ===== src/Sigv4/Chunked/Frames.antt =====
-- sigv4/chunked.go: chunks as they stand in a body, one behind the other.
use mathlib.Core.List.{append_assoc}
use s3rp.Common.{
  ℕ, ◌+◌, ◌-◌, ◌≤◌, ◌≡◌, refl, sym, ◌∙◌, ap, subst, Bool, true, false, List, [], ◌∷◌, ◌++◌, length,
  take, drop, Text, arith, take-append-drop, length-append, length-take,
}
use s3rp.Sigv4.Chunked.{SourceEnd, got, ChunkHeader, read_crlf, read_chunk_header}

-- A chunk: its data and its signature.
abbrev pub Chunk : Type 0
Chunk = Text × Text

-- The header of a chunk stands behind the line end of the chunk before it, if there is one.
abbrev pub Separated : SourceEnd → Bool → Text → Text → Type 0
Separated ends false body before = before ≡ body
Separated ends true body before = read_crlf ends body ≡ got tt before

-- A chunk that begins at the front of `body`: a header in a signed stream, which declares the
-- signature and the size, and behind it the data, of which `left` bytes are not in `part` yet.
pub record Opened (ends : SourceEnd) (later : Bool) (body sig part : Text) (left : ℕ) (rest : Text)
    : Type 0 where
  pub before : Text
  pub separated : Separated ends later body before
  pub header : ChunkHeader
  pub behind : Text
  pub header_is : read_chunk_header ends true before ≡ got header behind
  pub sig_is : sig ≡ header.chunk_sig
  pub size_is : header.size ≡ length part + left
  pub data_is : behind ≡ part ++ rest

-- Whether a chunk stands in front.
abbrev pub begun : Bool → List Chunk → Bool
begun later [] = later
begun later (_ ∷ _) = true

pub begun-snoc : (later : Bool) (cs : List Chunk) (c : Chunk) → begun later (cs ++ (c ∷ [])) ≡ true
begun-snoc later [] c = refl
begun-snoc later (_ ∷ _) c = refl

begun-true : (cs : List Chunk) → begun true cs ≡ true
begun-true [] = refl
begun-true (_ ∷ _) = refl

-- The chunks stand at the front of `body`, each whole, and `rest` is what is behind them.
abbrev pub Frames : SourceEnd → Bool → Text → List Chunk → Text → Type 0
Frames ends later body [] rest = body ≡ rest
Frames ends later body ((d, s) ∷ cs) rest =
    (m : Text) × Opened ends later body s d 0 m × Frames ends true m cs rest

pub Frames-snoc :
    (ends : SourceEnd) (later : Bool) (body at rest d s : Text) (cs : List Chunk)
    → Frames ends later body cs at
    → Opened ends (begun later cs) at s d 0 rest
    → Frames ends later body (cs ++ ((d, s) ∷ [])) rest
Frames-snoc ends later body at rest d s [] f o =
    (rest, subst (λ x. Opened ends later x s d 0 rest) (sym f) o, refl)
Frames-snoc ends later body at rest d s ((d', s') ∷ cs) (m, c, f) o = (
  m,
  c,
  Frames-snoc ends true m at rest d s cs f
      (subst (λ x. Opened ends x at s d 0 rest) (sym (begun-true cs)) o),
)

-- More of the data is read.
pub Opened-more :
    (ends : SourceEnd) (later : Bool) (body sig part rest : Text) (left n : ℕ)
    → Opened ends later body sig part left rest
    → n ≤ left
    → n ≤ length rest
    → Opened ends later body sig (part ++ take n rest) (left - n) (drop n rest)
Opened-more ends later body sig part rest left n o small given =
    let handed : length (take n rest) ≡ n = ground (arith, length-take n rest) in
    record {
      before = o.before;
      separated = o.separated;
      header = o.header;
      behind = o.behind;
      header_is = o.header_is;
      sig_is = o.sig_is;
      size_is = ground (arith, o.size_is, length-append part (take n rest), handed);
      data_is =
          o.data_is
          ∙ (ap (λ x. part ++ x) (sym (take-append-drop n rest))
              ∙ sym (append_assoc part (take n rest) (drop n rest)));
    }
