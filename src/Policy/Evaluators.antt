-- ===== src/Policy/Evaluators.antt =====
-- policy/policy.go: `DenyEvaluator` and `AllowEvaluator`, the checks of a request with many keys.
pub mod Agree
pub mod Refine
use s3rp.Common.{
  ℕ, suc, ◌+◌, Bool, true, false, not, ◌&&◌, ◌||◌, Option, none, some, List, [], ◌∷◌, ◌++◌, map,
  if◌then◌else◌, is_empty, get_elem?, Text, Runes, runes,
}
use s3rp.Policy.Document.{Platform, RequestContext, Statement, Policy}
use s3rp.Policy.Statement.{
  match_principal, match_condition, match_index_runes, match_any_runes, is_deny, is_allow,
  lower_runes, compile,
}
use s3rp.Policy.Decide.{unmap_context}

pub record DenyEvaluator : Type 0 where
  pub deny_resources : List Runes
  pub deny_statements : List ℕ

pub record AllowEvaluator : Type 0 where
  pub allow_resources : List Runes

-- The closure `matched` of `DenyEvaluatorFor`, and the guards of `AllowEvaluatorFor` (with the
-- test of the effect as the first argument); `none` is the panic of `matchPrincipal`.
unfoldable pub matched : Bool → Text → Runes → RequestContext → Statement → Option Bool
matched effect principal action rc st =
    if effect
    then elim (match_principal st principal) [
      | none ↦ none
      | some m ↦ some (m && match_condition st rc && match_any_runes st.action_runes action)
    ]
    else some false

abbrev pub repeat_for {ℓ} : {A : Type ℓ} → ℕ → List A → List ℕ
repeat_for i xs = map (λ _. i) xs

-- What a matched Deny statement adds to the slices.
abbrev pub add_denied : ℕ → Statement → DenyEvaluator → DenyEvaluator
add_denied i st e = record {
  deny_resources = st.resource_runes ++ e.deny_resources;
  deny_statements = repeat_for i st.resource_runes ++ e.deny_statements;
}

-- The second scan of `DenyEvaluatorFor`, which fills the slices; the first only counts.
unfoldable pub deny_from : Text → Runes → RequestContext → ℕ → List Statement → Option DenyEvaluator
deny_from principal action rc i [] = some (record { deny_resources = []; deny_statements = [] })
deny_from principal action rc i (st ∷ sts) = elim (matched (is_deny st) principal action rc st) [
  | none ↦ none
  | some m ↦ elim (deny_from principal action rc (suc i) sts) [
    | none ↦ none
    | some e ↦ some (if m then add_denied i st e else e)
  ]
]

unfoldable pub allow_from : Text → Runes → RequestContext → List Statement → Option (List Runes)
allow_from principal action rc [] = some []
allow_from principal action rc (st ∷ sts) = elim (matched (is_allow st) principal action rc st) [
  | none ↦ none
  | some m ↦ elim (allow_from principal action rc sts) [
    | none ↦ none
    | some rest ↦ some (if m then st.resource_runes ++ rest else rest)
  ]
]

module _ (std : Platform) where
  -- `Policy.DenyEvaluatorFor`.
  unfoldable pub deny_evaluator_for : Policy → Text → Text → RequestContext → Option DenyEvaluator
  unfolding deny_from matched
  deny_evaluator_for p principal action rc =
      deny_from principal (lower_runes std action) (unmap_context rc) 0 (compile std p).statement

  -- `Policy.AllowEvaluatorFor`.
  unfoldable pub allow_evaluator_for : Policy → Text → Text → RequestContext → Option AllowEvaluator
  unfolding allow_from matched
  allow_evaluator_for p principal action rc =
      elim (allow_from principal (lower_runes std action) (unmap_context rc)
        (compile std p).statement) [
          | none ↦ none
          | some rs ↦ some (record { allow_resources = rs })
        ]

-- `AllowEvaluator.AlwaysDenies`, `AllowsRunes` and `Allows`.
unfoldable pub always_denies : AllowEvaluator → Bool
always_denies e = is_empty e.allow_resources

unfoldable pub allows_runes : AllowEvaluator → Runes → Bool
allows_runes e resource =
    if is_empty e.allow_resources then false else match_any_runes e.allow_resources resource

unfoldable pub allows : AllowEvaluator → Text → Bool
unfolding allows_runes
allows e resource = allows_runes e (runes resource)

-- `DenyEvaluator.AlwaysAllows`, `DeniesRunes`, `Denies` and `DenyingStatement`.
unfoldable pub always_allows : DenyEvaluator → Bool
always_allows e = is_empty e.deny_resources

unfoldable pub denies_runes : DenyEvaluator → Runes → Bool
denies_runes e resource =
    if is_empty e.deny_resources then false else match_any_runes e.deny_resources resource

unfoldable pub denies : DenyEvaluator → Text → Bool
unfolding denies_runes
denies e resource = denies_runes e (runes resource)

-- `none` is the source's -1. The index of the pattern is one of the statements' list as well.
unfoldable pub denying_statement : DenyEvaluator → Runes → Option ℕ
denying_statement e resource = elim (match_index_runes e.deny_resources resource) [
  | none ↦ none
  | some i ↦ get_elem? e.deny_statements i
]
