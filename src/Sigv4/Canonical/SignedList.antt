-- ===== src/Sigv4/Canonical/SignedList.antt =====
-- sigv4/canonical.go: which lists of names `checkSignedHeaderList` accepts.
use s3rp.Common.{
  ◌≡◌, ◌↔◌, inl, inr, refl, Bool, true, false, ◌&&◌, ◌||◌, Option, none, some, List, [], ◌∷◌,
  is_empty, any, All, Text, codes, text_eq, text_eq_iff, Bool-cases, arith,
}
use s3rp.Sigv4.Http.{Library, text_less}
use s3rp.Sigv4.Canonical.{check_names, check_signed_header_list}

-- A name that may be signed.
abbrev pub MaySign : Library → Text → Type 0
MaySign lib n =
    (is_empty n ≡ false) × (n ≡ lib.to_lower n) × (text_eq n (codes "authorization") ≡ false)

-- Every name is less than all behind it, so none stands there twice.
abbrev pub Ordered : List Text → Type 0
Ordered [] = Unit
Ordered (n ∷ names) = All (λ m. text_less n m ≡ true) names × Ordered names

abbrev pub has_host : List Text → Bool
has_host names = any (λ n. text_eq n (codes "host")) names

text_less_trans :
    (s t u : Text) → text_less s t ≡ true → text_less t u ≡ true → text_less s u ≡ true
unfolding text_less
text_less_trans [] [] u h k = absurd (ground arith)
text_less_trans [] (b ∷ t) [] h k = absurd (ground arith)
text_less_trans [] (b ∷ t) (c ∷ u) h k = refl
text_less_trans (a ∷ s) [] u h k = absurd (ground arith)
text_less_trans (a ∷ s) (b ∷ t) [] h k = absurd (ground arith)
text_less_trans (a ∷ s) (b ∷ t) (c ∷ u) h k = elim (Bool-cases (text_less s t && text_less t u)) [
  | inl both ↦ ground (arith, text_less_trans s t u (ground arith) (ground arith))
  | inr other ↦ ground arith
]

-- Each name is less than the next one.
abbrev Ascends : Option Text → List Text → Type 0
Ascends before [] = Unit
Ascends none (n ∷ names) = Ascends (some n) names
Ascends (some b) (n ∷ names) = (text_less b n ≡ true) × Ascends (some n) names

check_names_iff :
    (lib : Library) (before : Option Text) (seen : Bool) (names : List Text)
    → (check_names lib before seen names ≡ true)
      ↔ (All (MaySign lib) names × Ascends before names × ((seen || has_host names) ≡ true))
unfolding check_names
check_names_iff lib before seen [] = ground arith
check_names_iff lib none seen (n ∷ names) =
    let rest = check_names_iff lib (some n) (seen || text_eq n (codes "host")) names in
    ground (arith, rest, text_eq_iff n (lib.to_lower n))
check_names_iff lib (some b) seen (n ∷ names) =
    let rest = check_names_iff lib (some n) (seen || text_eq n (codes "host")) names in
    ground (arith, rest, text_eq_iff n (lib.to_lower n))

less_all :
    (b n : Text) (names : List Text)
    → text_less b n ≡ true
    → All (λ m. text_less n m ≡ true) names
    → All (λ m. text_less b m ≡ true) names
less_all b n [] h a = tt
less_all b n (m ∷ names) h a = (text_less_trans b n m h a.0, less_all b n names h a.1)

Ascends-Ordered : (n : Text) (names : List Text) → Ascends (some n) names ↔ Ordered (n ∷ names)
Ascends-Ordered n [] = (λ a. (tt, tt), λ o. tt)
Ascends-Ordered n (m ∷ names) =
    let (ordered, ascends) = Ascends-Ordered m names in
    (
      λ a. let o : Ordered (m ∷ names) = ordered a.1 in ((a.0, less_all n m names a.0 o.0), o),
      λ o. (o.0.0, ascends o.1),
    )

-- `checkSignedHeaderList` accepts a list exactly if every name is lower-case, not empty and not
-- "authorization", every name is less than all behind it, and host is one of them.
pub check_signed_header_list_iff :
    (lib : Library) (names : List Text)
    → (check_signed_header_list lib names ≡ true)
      ↔ (All (MaySign lib) names × Ordered names × (has_host names ≡ true))
unfolding check_signed_header_list
check_signed_header_list_iff lib [] = ground (arith, check_names_iff lib none false [])
check_signed_header_list_iff lib (n ∷ names) =
    let (there, back) = check_names_iff lib none false (n ∷ names) in
    let (ordered, ascends) = Ascends-Ordered n names in
    (
      λ ok. let (good, up, host) = there ok in (good, ordered up, host),
      λ (good, order, host). back (good, ascends order, host),
    )
