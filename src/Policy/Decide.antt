-- ===== src/Policy/Decide.antt =====
-- policy/policy.go: `Policy.Decide`, `Policy.Evaluate`, `MentionsPrincipal`.
pub mod Verdict
use s3rp.Common.{
  ℕ, suc, ◌+◌, Bool, true, false, not, ◌&&◌, ◌||◌, Option, none, some, List, [], ◌∷◌, if◌then◌else◌,
  Text, Runes, runes,
}
use s3rp.Policy.Condition
use s3rp.Policy.Document.{
  Platform, RequestContext, Statement, Policy, Effect, none_effect, allow, deny, Decision,
}
use s3rp.Policy.Statement.{
  match_any_principal, match_principal, match_condition, match_any_runes, is_deny, is_allow,
  lower_runes, compile,
}

-- One request as the loop of `Decide` sees it: the source unmapped, the texts as runes.
pub record Asked : Type 0 where
  pub principal : Text
  pub context : RequestContext
  pub action_runes : Runes
  pub resource_runes : Runes

-- The four guards of the loop; `none` is the panic of `matchPrincipal`.
unfoldable pub applies : Asked → Statement → Option Bool
applies q st = elim (match_principal st q.principal) [
  | none ↦ none
  | some m ↦ some (
      m
      && match_condition st q.context
      && match_any_runes st.action_runes q.action_runes
      && match_any_runes st.resource_runes q.resource_runes)
]

abbrev is_none_effect : Effect → Bool
is_none_effect none_effect = true
is_none_effect _ = false

-- The first statement that applies and is no Deny is kept.
abbrev pub keep : ℕ → Decision → Decision
keep i result =
    if is_none_effect result.effect then record { effect = allow; statement = some i } else result

unfoldable pub decide_from : Asked → ℕ → List Statement → Decision → Option Decision
decide_from q i [] result = some result
decide_from q i (st ∷ sts) result = elim (applies q st) [
  | none ↦ none
  | some m ↦
      if m && is_deny st
      then some (record { effect = deny; statement = some i })
      else decide_from q (suc i) sts (if m then keep i result else result)
]

abbrev pub undecided : Decision
undecided = record { effect = none_effect; statement = none }

abbrev pub unmap_context : RequestContext → RequestContext
unmap_context rc = record { source_ip = Condition.unmap rc.source_ip }

module _ (std : Platform) where
  unfoldable pub ask : Text → Text → Text → RequestContext → Asked
  ask principal action resource rc = record {
    principal = principal;
    context = unmap_context rc;
    action_runes = lower_runes std action;
    resource_runes = runes resource;
  }

  -- `Policy.Decide`.
  unfoldable pub decide : Policy → Text → Text → Text → RequestContext → Option Decision
  unfolding decide_from ask applies
  decide p principal action resource rc =
      decide_from (ask principal action resource rc) 0 (compile std p).statement undecided

  -- `Policy.Evaluate`.
  unfoldable pub evaluate : Policy → Text → Text → Text → RequestContext → Option Effect
  unfolding decide
  evaluate p principal action resource rc = elim (decide p principal action resource rc) [
    | none ↦ none
    | some d ↦ some d.effect
  ]

-- One round of the loop of `MentionsPrincipal`.
mentions : Text → Statement → Bool
mentions principal st = elim st.principal [
  | none ↦ false
  | some p ↦ is_allow st && (p.all || match_any_principal p.users principal)
]

mentions_from : Text → List Statement → Bool
unfolding mentions
mentions_from principal [] = false
mentions_from principal (st ∷ sts) = mentions principal st || mentions_from principal sts

-- `Policy.MentionsPrincipal`.
unfoldable pub mentions_principal : Policy → Text → Bool
unfolding mentions_from
mentions_principal p principal = mentions_from principal p.statement
