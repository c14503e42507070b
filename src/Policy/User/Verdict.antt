-- ===== src/Policy/User/Verdict.antt =====
-- What `UserPolicy.Decide` promises: the first Deny that names the action, else the first Allow that
-- does, else an implicit deny; and everything where there is no policy.
use s3rp.Common.{
  ℕ, suc, ◌≡◌, refl, Bool, ◌&&◌, Option, none, some, List, [], ◌∷◌, if◌then◌else◌, is_empty, arith,
  Text, Runes,
}
use s3rp.Policy.Document.{Platform, allow, deny, Decision}
use s3rp.Policy.Statement.{match_any_runes, lower_runes}
use s3rp.Policy.Decide.Verdict.{first_from}
use s3rp.Policy.User.{
  ActionStatement, UserPolicy, says_deny, says_allow, decide_from, implicit_deny,
  everything_allowed, compile, decide,
}

-- The statement denies, or allows, the action.
abbrev pub denies : Runes → ActionStatement → Bool
denies action st = match_any_runes st.action_runes action && says_deny st

abbrev pub grants : Runes → ActionStatement → Bool
grants action st = match_any_runes st.action_runes action && says_allow st

abbrev pub or_granted : Option ℕ → Decision
or_granted none = implicit_deny
or_granted (some i) = record { effect = allow; statement = some i }

abbrev pub user_verdict : Option ℕ → Option ℕ → Decision
user_verdict (some i) granted = record { effect = deny; statement = some i }
user_verdict none granted = or_granted granted

abbrev deny_or : Decision → Option ℕ → Decision
deny_or result none = result
deny_or result (some j) = record { effect = deny; statement = some j }

decide_from-kept :
    (action : Runes) (i k : ℕ) (sts : List ActionStatement)
    → decide_from action i sts (or_granted (some k))
      ≡ deny_or (or_granted (some k)) (first_from (denies action) i sts)
unfolding decide_from
decide_from-kept action i k [] = refl
decide_from-kept action i k (st ∷ sts) = ground (arith, decide_from-kept action (suc i) k sts)

decide_from-verdict :
    (action : Runes) (i : ℕ) (sts : List ActionStatement)
    → decide_from action i sts implicit_deny
      ≡ user_verdict (first_from (denies action) i sts) (first_from (grants action) i sts)
unfolding decide_from
decide_from-verdict action i [] = refl
decide_from-verdict action i (st ∷ sts) =
    ground (arith, decide_from-kept action (suc i) i sts, decide_from-verdict action (suc i) sts)

-- A user policy with statements decides by the first "Deny" statement that names the action, else by
-- the first "Allow" statement that does, else by an implicit deny, and statements with any other
-- effect count for nothing; no policy, or one without statements, allows every action.
pub user-decide-verdict :
    (std : Platform) (up : Option UserPolicy) (action : Text)
    → decide std up action ≡ (elim up [
      | none ↦ everything_allowed
      | some u ↦
          if is_empty u.statements
          then everything_allowed
          else user_verdict
              (first_from (denies (lower_runes std action)) 0 (compile std u).statements)
              (first_from (grants (lower_runes std action)) 0 (compile std u).statements)
    ])
unfolding decide
user-decide-verdict std none action = refl
user-decide-verdict std (some u) action =
    ground (arith, decide_from-verdict (lower_runes std action) 0 (compile std u).statements)
