-- ===== src/Tests/Policies.antt =====
-- Evaluation and validation of policies at concrete documents.
use s3rp.Common.{
  ◌≡◌, refl, none, some, [], All, not, ◌&&◌, arith, Text, runes, length, ◌≤◌, text_eq, cut,
  has_prefix,
}
use s3rp.Policy.Document.{Decision}
use s3rp.Policy.Decide.{decide, ask}
use s3rp.Policy.Decide.Verdict.{
  NamesSomebody, verdict, first_from, denies as denies_statement, covers, decide-verdict,
}
use s3rp.Policy.Statement.{compile, lower_runes}
use s3rp.Policy.Evaluators.{
  DenyEvaluator, AllowEvaluator, deny_evaluator_for, allow_evaluator_for, denies, allows,
  denying_statement,
}
use s3rp.Policy.Evaluators.Agree.{is_some}
use s3rp.Policy.Evaluators.Refine.{
  HasEffect, is_deny_effect, is_allow_effect, denied_by, deny_evaluator_for-decide,
  allow_evaluator_for-decide,
}
use s3rp.Policy.Validate.{
  passes, validate, max_statements, validate_from, validate_statement, validate_principal,
  is_principal, validate_action, validate_optional,
}
use s3rp.Policy.Validate.Accepted.{IsFresh, IsValid, HasDistinctSids, validate-IsValid}
use s3rp.Policy.User
use s3rp.Policy.User.Verdict.{user-decide-verdict}
use s3rp.Tests.Data.{std, acme_alice, get_object, key, logs_policy, anywhere}

somebody : All NamesSomebody logs_policy.statement
somebody = ((λ e _. absurd (ground arith)), ((λ e _. absurd (ground arith)), tt))

effects : All HasEffect logs_policy.statement
unfolding text_eq
effects = (refl, (refl, tt))

decide-verdict_example :
    decide std logs_policy acme_alice get_object key anywhere
    ≡ some (
        verdict
          (first_from
            (denies_statement (ask std acme_alice get_object key anywhere))
            0
            (compile std logs_policy).statement)
          (first_from
            (covers (ask std acme_alice get_object key anywhere))
            0
            (compile std logs_policy).statement))
decide-verdict_example = decide-verdict std logs_policy acme_alice get_object key anywhere somebody

deny_evaluator_for-decide_example :
    (e : DenyEvaluator) × (deny_evaluator_for std logs_policy acme_alice get_object anywhere
      ≡ some e)
    × ((resource : Text)
        → (d : Decision) × (decide std logs_policy acme_alice get_object resource anywhere ≡ some d)
          × (denies e resource ≡ is_deny_effect d.effect)
          × (denying_statement e (runes resource) ≡ denied_by d)
          × (is_some (denying_statement e (runes resource)) ≡ is_deny_effect d.effect))
deny_evaluator_for-decide_example =
    deny_evaluator_for-decide std logs_policy acme_alice get_object anywhere somebody

allow_evaluator_for-decide_example :
    (e : DenyEvaluator) × (a : AllowEvaluator) × (deny_evaluator_for std logs_policy acme_alice
        get_object anywhere
      ≡ some e)
    × (allow_evaluator_for std logs_policy acme_alice get_object anywhere ≡ some a)
    × ((resource : Text)
        → (d : Decision) × (decide std logs_policy acme_alice get_object resource anywhere ≡ some d)
          × (is_allow_effect d.effect ≡ (allows a resource && not (denies e resource))))
allow_evaluator_for-decide_example =
    allow_evaluator_for-decide std logs_policy acme_alice get_object anywhere somebody effects

accepted : validate std logs_policy ≡ passes logs_policy
unfolding validate text_eq validate_from validate_statement validate_principal is_principal cut
    validate_action has_prefix lower_runes runes validate_optional
accepted = refl

fresh : All IsFresh logs_policy.statement
fresh = ((λ c e. absurd (ground arith)), ((λ c e. absurd (ground arith)), tt))

validate-IsValid_example :
    All IsValid logs_policy.statement
    × HasDistinctSids [] logs_policy.statement
    × (length logs_policy.statement ≡ length logs_policy.statement)
    × (1 ≤ length logs_policy.statement)
    × (length logs_policy.statement ≤ max_statements)
validate-IsValid_example = validate-IsValid std logs_policy logs_policy fresh accepted

user-decide-verdict_example : User.decide std none get_object ≡ User.everything_allowed
user-decide-verdict_example = user-decide-verdict std none get_object
