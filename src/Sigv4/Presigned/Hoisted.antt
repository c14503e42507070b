-- ===== src/Sigv4/Presigned/Hoisted.antt =====
-- sigv4/sigv4.go: where the headers behind `promoteHoistedQueryParams` come from.
use mathlib.Core.List.{Memᴰ}
use s3rp.Common.{
  ◌≡◌, ◌⊎◌, inl, inr, refl, sym, ◌∙◌, subst, true, false, List, [], ◌∷◌, is_empty, All, Text,
  text_eq, text_eq_sound, Bool-cases, arith,
}
use s3rp.Sigv4.Http.{
  Library, Values, values_of, first_of, delete_key, put_values, sort_strings, canonical_header_key,
  HttpRequest,
}
use s3rp.Sigv4.Presigned.{is_kept_back, promote, promote_hoisted}

-- Every member of a list has what each of its members has.
All-Memᴰ {ℓ κ} :
    {A : Type ℓ} (P : A → Type κ) (xs : List A) → ((x : A) → Memᴰ x xs → P x) → All P xs
All-Memᴰ P [] h = tt
All-Memᴰ P (x ∷ xs) h = (h x (Memᴰ.head refl), All-Memᴰ P xs (λ y m. h y (Memᴰ.tail m)))

-- A parameter of the query that `promoteHoistedQueryParams` takes.
pub record Taken (lib : Library) (query : Values) : Type 0 where
  pub name : Text
  pub values : List Text
  pub there : Memᴰ (name, values) query
  pub is_taken : is_kept_back lib name values ≡ false

module _ (P : Text × List Text → Type 0) where
  delete_key-All : (k : Text) (header : Values) → All P header → All P (delete_key k header)
  unfolding delete_key
  delete_key-All k [] h = tt
  delete_key-All k ((l, vs) ∷ header) h = elim (Bool-cases (text_eq l k)) [
    | inl same ↦ rw same (delete_key-All k header h.1)
    | inr other ↦ rw other (h.0, delete_key-All k header h.1)
  ]

  promote-All :
      (k : Text) (vs : List Text) (header : Values)
      → All P header
      → P (canonical_header_key k, sort_strings vs)
      → All P (promote k vs header)
  unfolding put_values promote
  promote-All k vs header h p =
      elim (Bool-cases (is_empty (first_of (values_of header (canonical_header_key k))))) [
        | inl free ↦ rw free (p, delete_key-All (canonical_header_key k) header h)
        | inr there ↦ rw there h
      ]

  promote_hoisted-All :
      (lib : Library) (query header : Values)
      → ((t : Taken lib query) → P (canonical_header_key t.name, sort_strings t.values))
      → All P header
      → All P (promote_hoisted lib query header).1
  unfolding promote_hoisted
  promote_hoisted-All lib [] header p h = h
  promote_hoisted-All lib ((k, vs) ∷ query) header p h =
      let later : (t : Taken lib query) → P (canonical_header_key t.name, sort_strings t.values) =
        λ t. p (record {
          name = t.name;
          values = t.values;
          there = Memᴰ.tail t.there;
          is_taken = t.is_taken;
        }) in
      elim (Bool-cases (is_kept_back lib k vs)) [
        | inl kept ↦ rw kept (promote_hoisted-All lib query header later h)
        | inr hoisted ↦
            let here =
              p (record { name = k; values = vs; there = Memᴰ.head refl; is_taken = hoisted }) in
            rw hoisted (
              promote_hoisted-All lib query (promote k vs header) later
                (promote-All k vs header h here))
      ]

module _ (P : Text → Type 0) where
  promote_hoisted-names :
      (lib : Library) (query header : Values)
      → ((t : Taken lib query) → P (lib.to_lower t.name))
      → All P (promote_hoisted lib query header).0
  unfolding promote_hoisted
  promote_hoisted-names lib [] header p = tt
  promote_hoisted-names lib ((k, vs) ∷ query) header p =
      let later : (t : Taken lib query) → P (lib.to_lower t.name) = λ t. p (record {
        name = t.name;
        values = t.values;
        there = Memᴰ.tail t.there;
        is_taken = t.is_taken;
      }) in
      elim (Bool-cases (is_kept_back lib k vs)) [
        | inl kept ↦ rw kept (promote_hoisted-names lib query header later)
        | inr hoisted ↦ rw hoisted (
          p (record { name = k; values = vs; there = Memᴰ.head refl; is_taken = hoisted }),
          promote_hoisted-names lib query (promote k vs header) later,
        )
      ]

values_of-delete_key :
    (k n : Text) (header : Values)
    → text_eq k n ≡ false
    → values_of (delete_key k header) n ≡ values_of header n
unfolding values_of delete_key
values_of-delete_key k n [] off = refl
values_of-delete_key k n ((l, vs) ∷ header) off =
    let rest = values_of-delete_key k n header off in
    elim (Bool-cases (text_eq l k)) [
      | inl same ↦
          let other : text_eq l n ≡ false =
            subst (λ x. text_eq x n ≡ false) (sym (text_eq_sound l k same)) off in
          ground (arith, rest, same, other)
      | inr other ↦ ground (arith, rest, other)
    ]

promote-values_of :
    (k : Text) (vs : List Text) (header : Values) (n : Text)
    → is_empty (first_of (values_of header n)) ≡ false
    → values_of (promote k vs header) n ≡ values_of header n
unfolding put_values values_of promote
promote-values_of k vs header n given =
    elim (Bool-cases (is_empty (first_of (values_of header (canonical_header_key k))))) [
      | inr there ↦ rw there refl
      | inl free ↦ elim (Bool-cases (text_eq (canonical_header_key k) n)) [
        | inl same ↦
            let clash : is_empty (first_of (values_of header n)) ≡ true =
              subst (λ x. is_empty (first_of (values_of header x)) ≡ true)
                (text_eq_sound (canonical_header_key k) n same) free in
            absurd (ground (arith, clash, given))
        | inr other ↦
            rw (free, other) (values_of-delete_key (canonical_header_key k) n header other)
      ]
    ]

promote_hoisted-values_of :
    (lib : Library) (query header : Values) (n : Text)
    → is_empty (first_of (values_of header n)) ≡ false
    → values_of (promote_hoisted lib query header).1 n ≡ values_of header n
unfolding promote_hoisted
promote_hoisted-values_of lib [] header n given = refl
promote_hoisted-values_of lib ((k, vs) ∷ query) header n given =
    elim (Bool-cases (is_kept_back lib k vs)) [
      | inl kept ↦ rw kept (promote_hoisted-values_of lib query header n given)
      | inr hoisted ↦
          let one = promote-values_of k vs header n given in
          let more = promote_hoisted-values_of lib query (promote k vs header) n (rw one given) in
          rw hoisted (more ∙ one)
    ]

-- What is sent on of a presigned request: all but its headers is as it was; a header is one of the
-- request, or has the sorted values of a parameter that is taken; one that the request has a value
-- for stays as it is; and the promoted names are those of parameters that are taken.
pub record Hoists (lib : Library) (r sent : HttpRequest) (promoted : List Text) : Type 0 where
  pub rest : sent ≡ record r { header = sent.header }
  pub brought :
      All
        (λ e.
          Memᴰ e r.header
          ⊎ ((t : Taken lib r.url.query) × (e
                ≡ (canonical_header_key t.name, sort_strings t.values))))
        sent.header
  pub kept :
      (n : Text)
      → (is_empty (first_of (values_of r.header n)) ≡ true)
        ⊎ (values_of sent.header n ≡ values_of r.header n)
  pub names : All (λ n. (t : Taken lib r.url.query) × (n ≡ lib.to_lower t.name)) promoted

pub promote_hoisted-Hoists :
    (lib : Library) (r : HttpRequest)
    → Hoists lib r
        (record r { header = (promote_hoisted lib r.url.query r.header).1 })
        (promote_hoisted lib r.url.query r.header).0
promote_hoisted-Hoists lib r = record {
  rest = refl;
  brought =
      promote_hoisted-All
        (λ e.
          Memᴰ e r.header
          ⊎ ((t : Taken lib r.url.query) × (e
                ≡ (canonical_header_key t.name, sort_strings t.values))))
        lib r.url.query r.header (λ t. inr (t, refl)) (All-Memᴰ _ r.header (λ e m. inl m));
  kept = λ n. elim (Bool-cases (is_empty (first_of (values_of r.header n)))) [
    | inl missing ↦ inl missing
    | inr given ↦ inr (promote_hoisted-values_of lib r.url.query r.header n given)
  ];
  names =
      promote_hoisted-names (λ n. (t : Taken lib r.url.query) × (n ≡ lib.to_lower t.name)) lib
        r.url.query r.header (λ t. (t, refl));
}
