-- ===== src/Policy/Evaluators/Refine.antt =====
-- `DenyEvaluatorFor` and `AllowEvaluatorFor` against `Decide`, as the gateway uses them.
use s3rp.Common.{
  ℕ, suc, ◌≡◌, sym, ◌∙◌, refl, Bool, true, false, not, ◌&&◌, ◌||◌, Option, none, some, List, [],
  ◌∷◌, All, any, if◌then◌else◌, arith, Text, runes, Bool-cases, inl, inr, map,
}
use s3rp.Policy.Document.{
  Platform, RequestContext, Statement, Policy, Effect, allow, deny, Decision,
}
use s3rp.Policy.Statement.{
  match_any_runes, is_deny, is_allow, lower_runes, compile, compile_statement,
}
use s3rp.Policy.Decide.{Asked, unmap_context, ask, decide}
use s3rp.Policy.Decide.Verdict.{
  NamesSomebody, first_from, covers, denies as denies_statement, verdict, compile-NamesSomebody,
  decide-verdict,
}
use s3rp.Policy.Evaluators.{
  DenyEvaluator, AllowEvaluator, deny_evaluator_for, allow_evaluator_for, allows, denies,
  denying_statement,
}
use s3rp.Policy.Evaluators.Agree.{is_some, grants, deny_from-Denying, allow_from-Allowing}

abbrev pub is_deny_effect : Effect → Bool
is_deny_effect deny = true
is_deny_effect _ = false

abbrev pub is_allow_effect : Effect → Bool
is_allow_effect allow = true
is_allow_effect _ = false

-- The Deny statement that a decision names.
abbrev pub denied_by : Decision → Option ℕ
denied_by d = if is_deny_effect d.effect then d.statement else none

is_some-first_from {ℓ} :
    {A : Type ℓ} (test : A → Bool) (i : ℕ) (xs : List A)
    → is_some (first_from test i xs) ≡ any test xs
is_some-first_from test i [] = refl
is_some-first_from test i (x ∷ xs) = ground (arith, is_some-first_from test (suc i) xs)

denies-match_any :
    (e : DenyEvaluator) (resource : Text)
    → denies e resource ≡ match_any_runes e.deny_resources (runes resource)
unfolding denies match_any_runes
denies-match_any e resource = ground arith

allows-match_any :
    (e : AllowEvaluator) (resource : Text)
    → allows e resource ≡ match_any_runes e.allow_resources (runes resource)
unfolding allows match_any_runes
allows-match_any e resource = ground arith

verdict-denied_by : (a b : Option ℕ) → denied_by (verdict a b) ≡ a
verdict-denied_by none none = refl
verdict-denied_by none (some j) = refl
verdict-denied_by (some i) b = refl

verdict-names :
    (a b : Option ℕ) → is_some (denied_by (verdict a b)) ≡ is_deny_effect (verdict a b).effect
verdict-names none none = refl
verdict-names none (some j) = refl
verdict-names (some i) b = refl

verdict-is_deny : (a b : Option ℕ) → is_deny_effect (verdict a b).effect ≡ is_some a
verdict-is_deny none none = refl
verdict-is_deny none (some j) = refl
verdict-is_deny (some i) b = refl

verdict-is_allow :
    (a b : Option ℕ) → is_allow_effect (verdict a b).effect ≡ (is_some b && not (is_some a))
verdict-is_allow none none = refl
verdict-is_allow none (some j) = refl
verdict-is_allow (some i) none = refl
verdict-is_allow (some i) (some j) = refl

-- Every statement of a validated policy has one of the two effects.
abbrev pub HasEffect : Statement → Type 0
HasEffect st = is_allow st ≡ not (is_deny st)

any-covers :
    (q : Asked) (sts : List Statement)
    → All HasEffect sts
    → any (covers q) sts ≡ (any (grants q) sts || any (denies_statement q) sts)
any-covers q [] h = refl
any-covers q (st ∷ sts) h = ground (arith, any-covers q sts h.1)

compile-HasEffect :
    (std : Platform) (p : Policy)
    → All HasEffect p.statement
    → All HasEffect (compile std p).statement
unfolding compile
compile-HasEffect std p h = elim (Bool-cases p.compile_once) [
  | inl e ↦ rw e h
  | inr e ↦ rw e (go p.statement h)
]
  where
    go :
        (sts : List Statement) → All HasEffect sts → All HasEffect (map (compile_statement std) sts)
    go [] k = tt
    go (st ∷ sts) k = (k.0, go sts k.1)

-- The verdict in terms of the tests alone.
module _ (q : Asked) (sts : List Statement) where
  abbrev judged : Decision
  judged = verdict (first_from (denies_statement q) 0 sts) (first_from (covers q) 0 sts)

  judged-is_deny : is_deny_effect judged.effect ≡ any (denies_statement q) sts
  judged-is_deny = verdict-is_deny _ _ ∙ is_some-first_from (denies_statement q) 0 sts

  judged-is_allow :
      All HasEffect sts
      → is_allow_effect judged.effect ≡ (any (grants q) sts && not (any (denies_statement q) sts))
  judged-is_allow h = ground (
    arith,
    verdict-is_allow (first_from (denies_statement q) 0 sts) (first_from (covers q) 0 sts),
    is_some-first_from (denies_statement q) 0 sts,
    is_some-first_from (covers q) 0 sts,
    any-covers q sts h,
  )

module _ (std : Platform) (p : Policy) (principal action : Text) (rc : RequestContext) where
  -- The effect of the decision, by the statements that apply.
  pub decide-any :
      All NamesSomebody p.statement
      → (resource : Text)
      → (d : Decision) × (decide std p principal action resource rc ≡ some d)
        × (is_deny_effect d.effect
            ≡ any
                (denies_statement (ask std principal action resource rc))
                (compile std p).statement)
        × (is_allow_effect d.effect ≡ (
            any (covers (ask std principal action resource rc)) (compile std p).statement
            && not (
                any
                  (denies_statement (ask std principal action resource rc))
                  (compile std p).statement)))
  decide-any n resource =
      let q = ask std principal action resource rc in
      let sts = (compile std p).statement in
      (
        _,
        decide-verdict std p principal action resource rc n,
        judged-is_deny q sts,
        ground (
          arith,
          verdict-is_allow (first_from (denies_statement q) 0 sts) (first_from (covers q) 0 sts),
          is_some-first_from (denies_statement q) 0 sts,
          is_some-first_from (covers q) 0 sts,
        ),
      )

  -- If every statement has a Principal or a NotPrincipal element, `DenyEvaluatorFor` does not panic,
  -- and its evaluator answers for every resource as `Decide` does on that resource: it denies
  -- exactly where the decision is Deny, where it names a statement, the one that the decision names.
  pub deny_evaluator_for-decide :
      All NamesSomebody p.statement
      → (e : DenyEvaluator) × (deny_evaluator_for std p principal action rc ≡ some e)
        × ((resource : Text)
            → (d : Decision) × (decide std p principal action resource rc ≡ some d)
              × (denies e resource ≡ is_deny_effect d.effect)
              × (denying_statement e (runes resource) ≡ denied_by d)
              × (is_some (denying_statement e (runes resource)) ≡ is_deny_effect d.effect))
  unfolding deny_evaluator_for ask
  deny_evaluator_for-decide n =
      let (e, run, h) =
        deny_from-Denying principal (lower_runes std action) (unmap_context rc) 0 _
          (compile-NamesSomebody std p n) in
      (
        e,
        run,
        λ resource. (
          _,
          decide-verdict std p principal action resource rc n,
          denies-match_any e resource
              ∙ (h.any_denies (runes resource) ∙ sym (judged-is_deny _ (compile std p).statement)),
          h.first_denies (runes resource) ∙ sym (verdict-denied_by _ _),
          cc (h.first_denies (runes resource), verdict-denied_by _ _, verdict-names _ _),
        ),
      )

  -- If every statement also has the effect "Allow" or "Deny", the two evaluators together decide
  -- Allow as `Decide` does: a resource is allowed exactly if the allow evaluator allows it and the
  -- deny evaluator does not deny it.
  pub allow_evaluator_for-decide :
      All NamesSomebody p.statement
      → All HasEffect p.statement
      → (e : DenyEvaluator) × (a : AllowEvaluator) × (deny_evaluator_for std p principal action rc
          ≡ some e)
        × (allow_evaluator_for std p principal action rc ≡ some a)
        × ((resource : Text)
            → (d : Decision) × (decide std p principal action resource rc ≡ some d)
              × (is_allow_effect d.effect ≡ (allows a resource && not (denies e resource))))
  unfolding deny_evaluator_for allow_evaluator_for ask
  allow_evaluator_for-decide n k =
      let somebody = compile-NamesSomebody std p n in
      let (e, run, h) =
        deny_from-Denying principal (lower_runes std action) (unmap_context rc) 0 _ somebody in
      let (rs, walk, g) =
        allow_from-Allowing principal (lower_runes std action) (unmap_context rc) _ somebody in
      (
        e,
        record { allow_resources = rs },
        run,
        rw (walk, allow_evaluator_for) refl,
        λ resource. (
          _,
          decide-verdict std p principal action resource rc n,
          judged-is_allow _ (compile std p).statement (compile-HasEffect std p k)
              ∙ cc (
                denies-match_any e resource,
                allows-match_any (record { allow_resources = rs }) resource,
                h.any_denies (runes resource),
                g (runes resource),
              ),
        ),
      )
