-- ===== src/Sigv4/Presigned/Readable.antt =====
-- sigv4/sigv4.go and s3gw/headers.go: how the handlers read headers that are covered by the signature.
use s3rp.Common.{
  ◌≡◌, ◌⊎◌, inl, inr, refl, subst, true, false, List, [], ◌∷◌, map, any, All, Text, codes, text_eq,
  text_eq_sound, has_prefix, Bool-cases, arith,
}
use s3rp.Sigv4.Http.{Library, Values, values_of, canonical_header_key}
use s3rp.Gateway.Headers.{signed, attribute, new_signed_header}
use s3rp.Sigv4.Requests.{has_unsigned_amz}
use s3rp.Sigv4.Presigned.Promoted.{LowersCase}

-- A header that is not an "x-amz-" header, or whose name in lower case is one of the names.
abbrev pub IsCovered : Library → List Text → Text × List Text → Type 0
IsCovered lib names (name, values) =
    (has_prefix (codes "x-amz-") (lib.to_lower name) ≡ false)
    ⊎ (any (λ n. text_eq n (lib.to_lower name)) names ≡ true)

pub has_unsigned_amz-All :
    (lib : Library) (header : Values) (names : List Text)
    → has_unsigned_amz lib header names ≡ false
    → All (IsCovered lib (map lib.to_lower names)) header
unfolding has_unsigned_amz
has_unsigned_amz-All lib [] names h = tt
has_unsigned_amz-All lib ((name, vs) ∷ header) names h =
    (ground arith, has_unsigned_amz-All lib header names (ground arith))

-- A name that is no "x-amz-" name, or that `Signed` and `Attribute` read alike.
abbrev pub IsReadable : Library → List Text → Values → Text → Type 0
IsReadable lib names header name =
    (has_prefix (codes "x-amz-") (lib.to_lower name) ≡ false)
    ⊎ (signed (new_signed_header lib header names) name
        ≡ attribute (new_signed_header lib header names) name)

-- A key that the headers do not have, or whose entry is covered.
values_of-IsCovered :
    (lib : Library) (names : List Text) (header : Values) (k : Text)
    → All (IsCovered lib names) header
    → (values_of header k ≡ []) ⊎ IsCovered lib names (k, [])
unfolding values_of
values_of-IsCovered lib names [] k a = inl refl
values_of-IsCovered lib names ((l, vs) ∷ header) k a = elim (Bool-cases (text_eq l k)) [
  | inl same ↦ inr (subst (λ x. IsCovered lib names (x, [])) (text_eq_sound l k same) a.0)
  | inr other ↦ rw other (values_of-IsCovered lib names header k a.1)
]

pub All-IsReadable :
    (lib : Library) (names : List Text) (header : Values)
    → LowersCase lib
    → All (IsCovered lib names) header
    → (name : Text) → IsReadable lib names header name
unfolding signed attribute new_signed_header
All-IsReadable lib names header lowers a name =
    let k = canonical_header_key name in
    let same = lowers.canonical name in
    elim (values_of-IsCovered lib names header k a) [
      | inl missing ↦ inr (ground (arith, missing))
      | inr (inl plain) ↦ inl (ground (arith, plain, same))
      | inr (inr covered) ↦ inr (ground (arith, covered, same))
    ]
