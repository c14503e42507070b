-- ===== src/Store/Principals.antt =====
-- Names and principals: a principal is read in one way only, and a policy entry of one tenant never
-- names a user of another.
use s3rp.Common.{
  has_suffix, ◌≡◌, ◌↔◌, inl, inr, refl, ap, true, false, none, [], ◌∷◌, ◌++◌, arith, Text, codes,
  text_eq, text_eq_iff, has_prefix, cut_suffix, contains_byte, Bool-cases, text_eq_refl,
}
use s3rp.Policy.Statement.{names, drop_last}
use s3rp.Policy.Validate.{is_principal_part, is_name_start, is_name_byte, all_name_bytes}
use s3rp.Store.{validate_tenant_name, validate_user_name, qualified}

abbrev pub HasNoSlash : Text → Type 0
HasNoSlash t = contains_byte b'/' t ≡ false

all_name_bytes-HasNoSlash : (t : Text) → all_name_bytes t ≡ true → HasNoSlash t
unfolding all_name_bytes contains_byte is_name_byte
all_name_bytes-HasNoSlash [] h = refl
all_name_bytes-HasNoSlash (c ∷ t) h = ground (arith, all_name_bytes-HasNoSlash t)

pub is_principal_part-HasNoSlash : (t : Text) → is_principal_part t ≡ true → HasNoSlash t
unfolding is_principal_part contains_byte is_name_start
is_principal_part-HasNoSlash [] h = refl
is_principal_part-HasNoSlash (c ∷ []) h = cc
is_principal_part-HasNoSlash (c ∷ d ∷ t) h = ground (arith, all_name_bytes-HasNoSlash (d ∷ t))

-- A tenant's prefix with its slash fits no other tenant's principal.
has_prefix-qualified :
    (t t' u : Text)
    → HasNoSlash t
    → HasNoSlash t'
    → has_prefix (t ++ b'/' ∷ []) (t' ++ (b'/' ∷ u)) ≡ true
    → t ≡ t'
unfolding has_prefix contains_byte
has_prefix-qualified [] [] u n n' h = refl
has_prefix-qualified [] (c ∷ t') u n n' h = ground arith
has_prefix-qualified (c ∷ t) [] u n n' h = ground arith
has_prefix-qualified (c ∷ t) (d ∷ t') u n n' h = ground (arith, has_prefix-qualified t t' u)

has_prefix_self : (t u : Text) → has_prefix (t ++ b'/' ∷ []) (t ++ (b'/' ∷ u)) ≡ true
unfolding has_prefix
has_prefix_self [] u = refl
has_prefix_self (c ∷ t) u = ground (arith, has_prefix_self t u)

qualified-split :
    (t t' u u' : Text)
    → HasNoSlash t
    → HasNoSlash t'
    → t ++ (b'/' ∷ u) ≡ t' ++ (b'/' ∷ u')
    → (t ≡ t') × (u ≡ u')
unfolding contains_byte
qualified-split [] [] u u' n n' h = (refl, cc)
qualified-split [] (d ∷ t') u u' n n' h = ground arith
qualified-split (c ∷ t) [] u u' n n' h = ground arith
qualified-split (c ∷ t) (d ∷ t') u u' n n' h = ground (arith, qualified-split t t' u u')

star : Text
star = b'*' ∷ []

drop_last-star : (t : Text) → drop_last (t ++ (b'/' ∷ star)) ≡ t ++ b'/' ∷ []
unfolding drop_last star
drop_last-star [] = refl
drop_last-star (c ∷ []) = refl
drop_last-star (c ∷ d ∷ t) = ap (λ s. c ∷ s) (drop_last-star (d ∷ t))

has_suffix_self : (t : Text) → has_suffix (codes "/*") (t ++ (b'/' ∷ star)) ≡ true
unfolding has_suffix cut_suffix text_eq star
has_suffix_self [] = refl
has_suffix_self (c ∷ t) = ground (arith, has_suffix_self t)

cut_suffix-HasNoSlash : (u : Text) → HasNoSlash u → cut_suffix (codes "/*") u ≡ none
unfolding cut_suffix text_eq contains_byte
cut_suffix-HasNoSlash [] n = refl
cut_suffix-HasNoSlash (c ∷ u) n = ground (arith, cut_suffix-HasNoSlash u)

has_suffix-qualified :
    (t u : Text)
    → HasNoSlash t
    → HasNoSlash u
    → text_eq u star ≡ false
    → has_suffix (codes "/*") (t ++ (b'/' ∷ u)) ≡ false
unfolding has_suffix cut_suffix text_eq contains_byte star
has_suffix-qualified [] u n n' h = ground (arith, cut_suffix-HasNoSlash u)
has_suffix-qualified (c ∷ t) u n n' h = ground (arith, has_suffix-qualified t u)

part-ne-star : (u : Text) → is_principal_part u ≡ true → text_eq u star ≡ false
unfolding is_principal_part text_eq star is_name_start
part-ne-star [] h = refl
part-ne-star (c ∷ []) h = cc
part-ne-star (c ∷ d ∷ u) h = ground arith

-- For valid tenant and user names, the principal "tenant/user" determines both.
pub qualified-injective :
    (t t' u u' : Text)
    → validate_tenant_name t ≡ true
    → validate_tenant_name t' ≡ true
    → qualified t u ≡ qualified t' u'
    → (t ≡ t') × (u ≡ u')
unfolding qualified validate_tenant_name
qualified-injective t t' u u' v v' =
    qualified-split t t' u u' (is_principal_part-HasNoSlash t v)
      (is_principal_part-HasNoSlash t' v')

-- For valid names, the policy entry "tenant/user" names exactly the principal of that tenant and
-- user, and the entry "tenant/*" names exactly the principals of that tenant: no entry of one tenant
-- reaches a user of another.
pub names_iff :
    (t t' u u' : Text)
    → validate_tenant_name t ≡ true
    → validate_tenant_name t' ≡ true
    → validate_user_name u ≡ true
    → ((names (qualified t u) (qualified t' u') ≡ true) ↔ ((t ≡ t') × (u ≡ u')))
      × ((names (qualified t (codes "*")) (qualified t' u') ≡ true) ↔ (t ≡ t'))
unfolding names qualified validate_tenant_name validate_user_name star
names_iff t t' u u' v v' w =
    let n = is_principal_part-HasNoSlash t v in
    let n' = is_principal_part-HasNoSlash t' v' in
    let m = is_principal_part-HasNoSlash u w in
    let exact = has_suffix-qualified t u n m (part-ne-star u w) in
    let eq = text_eq_iff (t ++ (b'/' ∷ u)) (t' ++ (b'/' ∷ u')) in
    let eq_star = text_eq_iff (t ++ (b'/' ∷ codes "*")) (t' ++ (b'/' ∷ u')) in
    (
      (
        λ h. qualified-split t t' u u' n n' (ground arith),
        λ (p, q). rw (p, q) (ground (arith, text_eq_refl (t' ++ (b'/' ∷ u')))),
      ),
      (
        λ h. elim (Bool-cases (text_eq (t ++ (b'/' ∷ codes "*")) (t' ++ (b'/' ∷ u')))) [
          | inl e ↦ (qualified-split t t' (codes "*") u' n n' (eq_star.0 e)).0
          | inr e ↦ has_prefix-qualified t t' u' n n' (ground (arith, drop_last-star t))
        ],
        λ p. rw p (ground (arith, has_suffix_self t', drop_last-star t', has_prefix_self t' u')),
      ),
    )
