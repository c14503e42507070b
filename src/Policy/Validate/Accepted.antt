-- ===== src/Policy/Validate/Accepted.antt =====
-- What a validated policy is: the facts that evaluation rests on.
use s3rp.Common.{
  ◌≤◌, ◌≡◌, ap, suc, ◌⊎◌, refl, true, false, ◌&&◌, Option, none, some, List, [], ◌∷◌, if◌then◌else◌,
  is_empty, length, any, All, arith, Text, codes, text_eq,
}
use s3rp.Policy.Document.{Platform, Condition, Statement, Policy}
use s3rp.Policy.Condition
use s3rp.Policy.Statement.{is_deny}
use s3rp.Policy.Decide.Verdict.{NamesSomebody}
use s3rp.Policy.Evaluators.Refine.{HasEffect}
use s3rp.Policy.Validate.{
  PolicyError, Checked, passes, rejects, validate_optional, validate_statement, validate_from,
  validate, has_principal, max_statements, max_actions_per_statement, max_resources_per_statement,
}

-- The value of a run that ends well, for a call that stands in it.
ok_of {ℓ} :
    {A : Type ℓ} (r : Checked A)
    → ((e : PolicyError) → r ≡ rejects e → ⊥)
    → (a : A) × (r ≡ passes a)
ok_of (passes a) h = (a, refl)
ok_of (rejects e) h = absurd (h e refl)

text_eq-effects : (s : Text) → text_eq s (codes "Allow") ≡ true → text_eq s (codes "Deny") ≡ false
unfolding text_eq
text_eq-effects [] h = cc
text_eq-effects (c ∷ s) h = ground arith

-- A condition as it is decoded: not marked invalid.
abbrev pub IsFresh : Statement → Type 0
IsFresh st = (c : Condition) → st.condition ≡ some c → c.invalid ≡ false

-- What `Statement.validate` guarantees of the statement that it accepts.
pub record IsValid (st : Statement) : Type 0 where
  pub somebody : NamesSomebody st
  pub one_side : (has_principal st.principal && has_principal st.not_principal) ≡ false
  pub effect : HasEffect st
  pub exclusion_denies : has_principal st.not_principal ≡ true → is_deny st ≡ true
  pub actions : (1 ≤ length st.action) × (length st.action ≤ max_actions_per_statement)
  pub resources : (1 ≤ length st.resource) × (length st.resource ≤ max_resources_per_statement)
  pub condition :
      (c : Condition) → st.condition ≡ some c → (c.compiled ≡ true) × (c.invalid ≡ false)

compile-invalid :
    (std : Platform) (c : Condition)
    → (Condition.compile std c).1 ≡ true
    → ((Condition.compile std c).0.compiled ≡ true)
      × ((Condition.compile std c).0.invalid ≡ c.invalid)
unfolding Condition.compile
compile-invalid std c h = ground arith

validate_optional-condition :
    (std : Platform) (o o' : Option Condition)
    → ((c : Condition) → o ≡ some c → c.invalid ≡ false)
    → validate_optional std o ≡ passes o'
    → (c : Condition) → o' ≡ some c
    → (c.compiled ≡ true) × (c.invalid ≡ false)
unfolding validate_optional
validate_optional-condition std none o' fresh h c e = cc
validate_optional-condition std (some k) o' fresh h c e =
    ground (arith, compile-invalid std k, fresh k refl)

-- The guards before the condition are tests that all passed.
validate_statement-IsValid :
    (std : Platform) (st st' : Statement)
    → IsFresh st
    → validate_statement std st ≡ passes st'
    → IsValid st'
unfolding validate_statement
validate_statement-IsValid std st st' fresh h = record {
  somebody = ground arith;
  one_side = ground arith;
  effect = ground (arith, text_eq-effects st.effect);
  exclusion_denies = ground arith;
  actions = (ground arith, ground arith);
  resources = (ground arith, ground arith);
  condition = validate_optional-condition std st.condition st'.condition fresh (ground arith);
}

validate_statement-sid :
    (std : Platform) (st st' : Statement)
    → validate_statement std st ≡ passes st'
    → st'.sid ≡ st.sid
unfolding validate_statement
validate_statement-sid std st st' h = ground arith

-- No two statements share a name other than the empty one, and none has a name seen before.
abbrev pub HasDistinctSids : List Text → List Statement → Type 0
HasDistinctSids sids [] = Unit
HasDistinctSids sids (st ∷ sts) =
    ((is_empty st.sid ≡ true) ⊎ (any (text_eq st.sid) sids ≡ false))
    × HasDistinctSids (if is_empty st.sid then sids else st.sid ∷ sids) sts

validate_from-IsValid :
    (std : Platform) (sids : List Text) (sts sts' : List Statement)
    → All IsFresh sts
    → validate_from std sids sts ≡ passes sts'
    → All IsValid sts' × HasDistinctSids sids sts' × (length sts' ≡ length sts)
unfolding validate_from
validate_from-IsValid std sids [] sts' fresh h = let e : [] ≡ sts' = cc in rw (← e) (tt, tt, refl)
validate_from-IsValid std sids (st ∷ sts) sts' fresh h =
    let seen = if is_empty st.sid then sids else st.sid ∷ sids in
    let (st', checked) = ok_of (validate_statement std st) (λ e bad. ground arith) in
    let (rest, later) = ok_of (validate_from std seen sts) (λ e bad. ground arith) in
    let (valid, distinct, size) = validate_from-IsValid std seen sts rest fresh.1 later in
    let same : st'.sid ≡ st.sid = validate_statement-sid std st st' checked in
    let e : st' ∷ rest ≡ sts' = ground arith in
    rw (← e) (
      (validate_statement-IsValid std st st' fresh.0 checked, valid),
      rw same (ground arith, distinct),
      ap suc size,
    )

-- A policy that `validate` accepts has between 1 and 20 statements, as many as it was given, and
-- no two of them share a Sid that is not empty; each has exactly one of Principal and NotPrincipal,
-- an effect "Allow" or "Deny" (Deny if it has NotPrincipal), between 1 and 30 actions, between 1 and
-- 10 resources, and a compiled condition that is not marked invalid, if it has one. This is so for
-- conditions that were not marked invalid before.
pub validate-IsValid :
    (std : Platform) (p p' : Policy)
    → All IsFresh p.statement
    → validate std p ≡ passes p'
    → All IsValid p'.statement
      × HasDistinctSids [] p'.statement
      × (length p'.statement ≡ length p.statement)
      × (1 ≤ length p'.statement)
      × (length p'.statement ≤ max_statements)
unfolding validate
validate-IsValid std p p' fresh h =
    let (sts, checked) = ok_of (validate_from std [] p.statement) (λ e bad. ground arith) in
    let (valid, distinct, size) = validate_from-IsValid std [] p.statement sts fresh checked in
    let e : sts ≡ p'.statement = ground arith in
    rw (← e) (valid, distinct, size, ground arith, ground arith)
