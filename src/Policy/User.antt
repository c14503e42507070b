-- ===== src/Policy/User.antt =====
-- policy/policy.go: `UserPolicy`, the identity policy of a user.
pub mod Verdict
use s3rp.Common.{
  ℕ, suc, ◌+◌, Bool, true, false, not, ◌&&◌, ◌||◌, Option, none, some, List, [], ◌∷◌, map, ltb,
  if◌then◌else◌, is_empty, length, Text, Runes, codes, text_eq,
}
use s3rp.Policy.Document.{Platform, Effect, none_effect, allow, deny, Decision}
use s3rp.Policy.Statement.{match_any_runes, lower_runes, lower_pattern_runes}
use s3rp.Policy.Validate.{
  Checked, passes, rejects, ◌>>=◌, ◌>>◌, refuse, check_all, bad_effect, no_action, too_many_actions,
  too_many_statements, validate_action, max_statements, max_actions_per_statement,
}

pub record ActionStatement : Type 0 where
  pub effect : Text
  pub action : List Text
  pub action_runes : List Runes

pub record UserPolicy : Type 0 where
  pub statements : List ActionStatement
  pub compile_once : Bool

abbrev pub says_deny : ActionStatement → Bool
says_deny st = text_eq st.effect (codes "Deny")

abbrev pub says_allow : ActionStatement → Bool
says_allow st = text_eq st.effect (codes "Allow")

abbrev pub is_allow_decision : Effect → Bool
is_allow_decision allow = true
is_allow_decision _ = false

-- The `case "Allow"` of the loop; any other effect leaves the result.
abbrev pub keep_allow : ActionStatement → ℕ → Decision → Decision
keep_allow st i result =
    if says_allow st && not (is_allow_decision result.effect)
    then record { effect = allow; statement = some i }
    else result

unfoldable pub decide_from : Runes → ℕ → List ActionStatement → Decision → Decision
decide_from action i [] result = result
decide_from action i (st ∷ sts) result =
    let m = match_any_runes st.action_runes action in
    if m && says_deny st
    then record { effect = deny; statement = some i }
    else decide_from action (suc i) sts (if m then keep_allow st i result else result)

-- Nothing matched: the implicit deny.
abbrev pub implicit_deny : Decision
implicit_deny = record { effect = deny; statement = none }

abbrev pub everything_allowed : Decision
everything_allowed = record { effect = allow; statement = none }

module _ (std : Platform) where
  compile_statement : ActionStatement → ActionStatement
  compile_statement st = record st { action_runes = lower_pattern_runes std st.action }

  -- `up.compileOnce.Do(up.compile)`.
  unfoldable pub compile : UserPolicy → UserPolicy
  unfolding compile_statement
  compile up =
      if up.compile_once
      then up
      else record { statements = map compile_statement up.statements; compile_once = true }

  -- `UserPolicy.Decide`; the receiver may be nil.
  unfoldable pub decide : Option UserPolicy → Text → Decision
  unfolding decide_from
  decide none action = everything_allowed
  decide (some up) action =
      if is_empty up.statements
      then everything_allowed
      else decide_from (lower_runes std action) 0 (compile up).statements implicit_deny

  -- `UserPolicy.Allows`.
  unfoldable pub allows : Option UserPolicy → Text → Bool
  unfolding decide
  allows up action = is_allow_decision (decide up action).effect

  -- One round of the loop of `ValidateUserPolicy`.
  validate_statement : ActionStatement → Checked (Unit {0})
  validate_statement st = do
    refuse (not (says_allow st) && not (says_deny st)) bad_effect
    refuse (is_empty st.action) no_action
    refuse (ltb max_actions_per_statement (length st.action)) (too_many_actions (length st.action))
    check_all (validate_action std) st.action

  validate_from : List ActionStatement → Checked (Unit {0})
  unfolding validate_statement
  validate_from [] = passes tt
  validate_from (st ∷ sts) = do validate_statement st; validate_from sts

  -- `ValidateUserPolicy` without an action checker.
  unfoldable pub validate : Option UserPolicy → Checked (Unit {0})
  unfolding validate_from
  validate none = passes tt
  validate (some up) = do
    refuse (ltb max_statements (length up.statements)) (too_many_statements (length up.statements))
    validate_from up.statements
