-- ===== src/Sigv4/PostPolicy/Evaluated.antt =====
-- sigv4/postpolicy.go: which forms `evaluatePostPolicy` accepts.
use s3rp.Common.{
  ◌≡◌, ◌↔◌, ◌⊎◌, inl, inr, refl, sym, subst, true, false, some, List, [], ◌∷◌, ◌++◌, any, All, Text,
  codes, text_eq, text_eq_iff, has_prefix, Option-cases, Bool-cases, arith,
}
use s3rp.Sigv4.PostPolicy.{
  PostCondition, Fields, find_field, condition_holds, all_hold, all_covered, evaluate_post_policy,
}

-- A value that a condition admits: the same value, one that begins with it, or any if the operator
-- is another.
abbrev pub Admits : PostCondition → Text → Type 0
Admits c v =
    ((c.op ≡ codes "eq") × (v ≡ c.value))
    ⊎ ((c.op ≡ codes "starts-with") × ((rest : Text) × (v ≡ c.value ++ rest)))
    ⊎ ((text_eq c.op (codes "eq") ≡ false) × (text_eq c.op (codes "starts-with") ≡ false))

-- A condition whose field is in the form, with a value that it admits.
abbrev pub Holds : Fields → PostCondition → Type 0
Holds fields c = (v : Text) × (find_field fields c.field ≡ some v) × Admits c v

-- A field that a condition names, or that is the policy or its signature.
abbrev pub IsBound : List PostCondition → Text × Text → Type 0
IsBound conds (name, value) =
    (name ≡ codes "policy")
    ⊎ (name ≡ codes "x-amz-signature")
    ⊎ (any (λ c. text_eq c.field name) conds ≡ true)

has_prefix_iff : (p s : Text) → (has_prefix p s ≡ true) ↔ ((rest : Text) × (s ≡ p ++ rest))
unfolding has_prefix
has_prefix_iff [] s = (λ h. (s, refl), λ h. refl)
has_prefix_iff (a ∷ p) [] = ground arith
has_prefix_iff (a ∷ p) (b ∷ s) =
    let (there, back) = has_prefix_iff p s in
    (
      λ h. let (rest, e) = there (ground (arith, h)) in (rest, ground (arith, e, h)),
      λ (rest, e).
          let shorter : s ≡ p ++ rest = ground (arith, e) in
          ground (arith, back (rest, shorter), e),
    )

condition_holds-Admits :
    (c : PostCondition) (v : Text) → (condition_holds c (some v) ≡ true) ↔ Admits c v
unfolding condition_holds
condition_holds-Admits c v =
    let eq = text_eq_iff c.op (codes "eq") in
    let starts = text_eq_iff c.op (codes "starts-with") in
    let same = text_eq_iff v c.value in
    let prefix = has_prefix_iff c.value v in
    elim (Bool-cases (text_eq c.op (codes "eq"))) [
      | inl is_eq ↦ (
        λ h. inl (eq.0 is_eq, same.0 (ground (arith, h, is_eq))),
        λ a. elim a [
          | inl (op, v_is) ↦ ground (arith, is_eq, same.1 v_is)
          | inr (inl (op, rest)) ↦ absurd (ground (arith, eq.0 is_eq, op))
          | inr (inr (other, more)) ↦ absurd (ground (arith, is_eq, other))
        ],
      )
      | inr not_eq ↦ elim (Bool-cases (text_eq c.op (codes "starts-with"))) [
        | inl is_starts ↦ (
          λ h. inr (inl (starts.0 is_starts, prefix.0 (ground (arith, h, not_eq, is_starts)))),
          λ a. elim a [
            | inl (op, v_is) ↦ absurd (ground (arith, eq.1 op, not_eq))
            | inr (inl (op, rest)) ↦ ground (arith, not_eq, is_starts, prefix.1 rest)
            | inr (inr (other, more)) ↦ absurd (ground (arith, is_starts, more))
          ],
        )
        | inr neither ↦ (λ h. inr (inr (not_eq, neither)), λ a. ground (arith, not_eq, neither))
      ]
    ]

all_hold_iff :
    (conds : List PostCondition) (fields : Fields)
    → (all_hold conds fields ≡ true) ↔ All (Holds fields) conds
unfolding all_hold condition_holds
all_hold_iff [] fields = (λ h. tt, λ a. refl)
all_hold_iff (c ∷ conds) fields =
    let (there, back) = all_hold_iff conds fields in
    elim (Option-cases (find_field fields c.field)) [
      | inl missing ↦
          (λ h. absurd (ground (arith, h, missing)), λ a. absurd (ground (arith, a.0.1, missing)))
      | inr (v, given) ↦
          let (admits, holds) = condition_holds-Admits c v in
          rw given (
            λ h. ((v, refl, admits (ground (arith, h))), there (ground (arith, h))),
            λ a.
                let same : v ≡ a.0.0 = ground (arith, a.0.1) in
                let ok : condition_holds c (some v) ≡ true =
                  holds (subst (Admits c) (sym same) a.0.2) in
                ground (arith, ok, back a.1),
          )
    ]

all_covered_iff :
    (conds : List PostCondition) (fields : Fields)
    → (all_covered conds fields ≡ true) ↔ All (IsBound conds) fields
unfolding all_covered
all_covered_iff conds [] = (λ h. tt, λ a. refl)
all_covered_iff conds ((name, v) ∷ fields) =
    let rest = all_covered_iff conds fields in
    ground
      (arith, rest, text_eq_iff name (codes "policy"), text_eq_iff name (codes "x-amz-signature"))

-- `evaluatePostPolicy` accepts a form exactly if every condition holds of the field that it names,
-- and every field is named by a condition, save the policy and its signature.
pub evaluate_post_policy_iff :
    (conds : List PostCondition) (fields : Fields)
    → (evaluate_post_policy conds fields ≡ true)
      ↔ (All (Holds fields) conds × All (IsBound conds) fields)
unfolding evaluate_post_policy
evaluate_post_policy_iff conds fields =
    ground (arith, all_hold_iff conds fields, all_covered_iff conds fields)
