-- ===== src/Sigv4/Presigned/Promoted.antt =====
-- sigv4/sigv4.go: the headers behind `promoteHoistedQueryParams`.
use mathlib.Core.List.{append_assoc, append-nil}
use s3rp.Common.{
  ◌≡◌, inl, inr, refl, subst, Bool, true, false, ◌||◌, List, [], ◌∷◌, ◌++◌, map, is_empty, any,
  Text, text_eq, text_eq_refl, Bool-cases, arith,
}
use s3rp.Sigv4.Http.{
  Library, Values, values_of, first_of, delete_key, put_values, canonical_header_key,
}
use s3rp.Sigv4.Requests.{has_unsigned_amz}
use s3rp.Sigv4.Presigned.{is_kept_back, promote, promote_hoisted}

-- `strings.ToLower` changes nothing the second time, and undoes `http.CanonicalHeaderKey`.
pub record LowersCase (lib : Library) : Type 0 where
  pub idempotent : (t : Text) → lib.to_lower (lib.to_lower t) ≡ lib.to_lower t
  pub canonical : (t : Text) → lib.to_lower (canonical_header_key t) ≡ lib.to_lower t

module _ (lib : Library) where
  -- Whether a name is signed, once it is in lower case.
  abbrev covers : List Text → Text → Bool
  covers names n = any (λ m. text_eq m n) (map lib.to_lower names)

  covers-append :
      (names more : List Text) (n : Text)
      → covers (names ++ more) n ≡ (covers names n || covers more n)
  covers-append [] more n = refl
  covers-append (m ∷ names) more n = ground (arith, covers-append names more n)

  has_unsigned_amz-append :
      (header : Values) (names more : List Text)
      → has_unsigned_amz lib header names ≡ false
      → has_unsigned_amz lib header (names ++ more) ≡ false
  unfolding has_unsigned_amz
  has_unsigned_amz-append [] names more h = refl
  has_unsigned_amz-append ((name, vs) ∷ header) names more h =
      let rest : has_unsigned_amz lib header (names ++ more) ≡ false =
        has_unsigned_amz-append header names more (ground arith) in
      ground (arith, rest, covers-append names more (lib.to_lower name))

  has_unsigned_amz-delete_key :
      (k : Text) (header : Values) (names : List Text)
      → has_unsigned_amz lib header names ≡ false
      → has_unsigned_amz lib (delete_key k header) names ≡ false
  unfolding has_unsigned_amz delete_key
  has_unsigned_amz-delete_key k [] names h = refl
  has_unsigned_amz-delete_key k ((name, vs) ∷ header) names h =
      let rest : has_unsigned_amz lib (delete_key k header) names ≡ false =
        has_unsigned_amz-delete_key k header names (ground arith) in
      elim (Bool-cases (text_eq name k)) [
        | inl same ↦ rw same rest
        | inr other ↦ rw other (ground (arith, rest))
      ]

  module _ (lowers : LowersCase lib) where
    promote-signed :
        (k : Text) (vs : List Text) (header : Values) (names : List Text)
        → has_unsigned_amz lib header names ≡ false
        → has_unsigned_amz lib (promote k vs header) (names ++ (lib.to_lower k ∷ [])) ≡ false
    unfolding promote put_values has_unsigned_amz
    promote-signed k vs header names h =
        let more : has_unsigned_amz lib header (names ++ (lib.to_lower k ∷ [])) ≡ false =
          has_unsigned_amz-append header names (lib.to_lower k ∷ []) h in
        let here : covers (names ++ (lib.to_lower k ∷ [])) (lib.to_lower (canonical_header_key k))
            ≡ true =
          ground (
            arith,
            covers-append names (lib.to_lower k ∷ []) (lib.to_lower (canonical_header_key k)),
            lowers.canonical k,
            lowers.idempotent k,
            text_eq_refl (lib.to_lower k),
          ) in
        elim (Bool-cases (is_empty (first_of (values_of header (canonical_header_key k))))) [
          | inl free ↦
              let rest = has_unsigned_amz-delete_key (canonical_header_key k) header _ more in
              rw free (ground (arith, rest, here))
          | inr there ↦ rw there more
        ]

    -- The headers behind the promotion have no "x-amz-" header that is neither signed nor promoted.
    pub promote_hoisted-signed :
        (query header : Values) (names : List Text)
        → has_unsigned_amz lib header names ≡ false
        → has_unsigned_amz lib
            (promote_hoisted lib query header).1
            (names ++ (promote_hoisted lib query header).0)
          ≡ false
    unfolding promote_hoisted
    promote_hoisted-signed [] header names h = rw (append-nil names) h
    promote_hoisted-signed ((k, vs) ∷ query) header names h =
        elim (Bool-cases (is_kept_back lib k vs)) [
          | inl kept ↦ rw kept (promote_hoisted-signed query header names h)
          | inr hoisted ↦
              let rest =
                promote_hoisted-signed query (promote k vs header) (names ++ (lib.to_lower k ∷ []))
                  (promote-signed k vs header names h) in
              rw hoisted (
                subst
                  (λ x.
                    has_unsigned_amz lib (promote_hoisted lib query (promote k vs header)).1 x
                    ≡ false)
                  (append_assoc names (lib.to_lower k ∷ []) _) rest)
        ]
