-- ===== src/Policy/Evaluators/Agree.antt =====
-- The evaluators of a request with many keys agree with `Decide`, key by key.
use s3rp.Common.{
  ℕ, suc, ◌≡◌, inl, inr, refl, Bool, true, false, ◌&&◌, ◌||◌, Option, none, some, List, [], ◌∷◌,
  ◌++◌, if◌then◌else◌, All, any, Bool-cases, arith, Text, Runes,
}
use s3rp.Policy.Document.{RequestContext, Statement}
use s3rp.Policy.Statement.{match_principal, match_condition, match_any_runes, is_deny, is_allow}
use s3rp.Policy.Decide.{Asked, applies}
use s3rp.Policy.Decide.Verdict.{
  NamesSomebody, first_from, holds, covers, denies as denies_statement,
}
use s3rp.Policy.Evaluators.{
  DenyEvaluator, matched, repeat_for, add_denied, deny_from, allow_from, denying_statement,
}

abbrev pub is_some {ℓ} : {A : Type ℓ} → Option A → Bool
is_some none = false
is_some (some _) = true

match_any_runes-append :
    (ps qs : List Runes) (value : Runes)
    → match_any_runes (ps ++ qs) value ≡ (match_any_runes ps value || match_any_runes qs value)
unfolding match_any_runes
match_any_runes-append [] qs value = refl
match_any_runes-append (p ∷ ps) qs value = ground (arith, match_any_runes-append ps qs value)

-- The patterns of one statement stand in front: a match among them names it.
denying_statement-append :
    (i : ℕ) (ps qs : List Runes) (is : List ℕ) (value : Runes)
    → denying_statement
        (record { deny_resources = ps ++ qs; deny_statements = repeat_for i ps ++ is })
        value
      ≡ (if match_any_runes ps value
          then some i
          else denying_statement (record { deny_resources = qs; deny_statements = is }) value)
unfolding denying_statement match_any_runes
denying_statement-append i [] qs is value = refl
denying_statement-append i (p ∷ ps) qs is value =
    ground (arith, denying_statement-append i ps qs is value)

abbrev pub grants : Asked → Statement → Bool
grants q st = covers q st && is_allow st

module _ (principal : Text) (action : Runes) (rc : RequestContext) where
  abbrev pub about : Runes → Asked
  about resource = record {
    principal = principal;
    context = rc;
    action_runes = action;
    resource_runes = resource;
  }

  -- The evaluator holds the patterns of the Deny statements that the request meets.
  pub record Denying (i : ℕ) (sts : List Statement) (e : DenyEvaluator) : Type 0 where
    pub any_denies :
        (resource : Runes)
        → match_any_runes e.deny_resources resource ≡ any (denies_statement (about resource)) sts
    pub first_denies :
        (resource : Runes)
        → denying_statement e resource ≡ first_from (denies_statement (about resource)) i sts

  abbrev reaches : Bool → Statement → Bool
  reaches effect st =
      effect
      && (holds (match_principal st principal)
          && match_condition st rc
          && match_any_runes st.action_runes action)

  matched-reaches :
      (effect : Bool) (st : Statement)
      → NamesSomebody st
      → matched effect principal action rc st ≡ some (reaches effect st)
  unfolding matched match_principal
  matched-reaches effect st n = ground arith

  -- A statement applies to a resource if it is reached and one of its patterns matches.
  covers-reaches :
      (effect : Bool) (st : Statement) (resource : Runes)
      → NamesSomebody st
      → (covers (about resource) st && effect)
        ≡ (reaches effect st && match_any_runes st.resource_runes resource)
  unfolding applies match_principal
  covers-reaches effect st resource n = ground arith

  Denying-add :
      (i : ℕ) (st : Statement) (sts : List Statement) (e : DenyEvaluator)
      → NamesSomebody st
      → reaches (is_deny st) st ≡ true
      → Denying (suc i) sts e
      → Denying i (st ∷ sts) (add_denied i st e)
  Denying-add i st sts e n h d = record {
    any_denies = λ r. ground (
      arith,
      match_any_runes-append st.resource_runes e.deny_resources r,
      covers-reaches (is_deny st) st r n,
      d.any_denies r,
    );
    first_denies = λ r. ground (
      arith,
      denying_statement-append i st.resource_runes e.deny_resources e.deny_statements r,
      covers-reaches (is_deny st) st r n,
      d.first_denies r,
    );
  }

  Denying-pass :
      (i : ℕ) (st : Statement) (sts : List Statement) (e : DenyEvaluator)
      → NamesSomebody st
      → reaches (is_deny st) st ≡ false
      → Denying (suc i) sts e
      → Denying i (st ∷ sts) e
  Denying-pass i st sts e n h d = record {
    any_denies = λ r. ground (arith, covers-reaches (is_deny st) st r n, d.any_denies r);
    first_denies = λ r. ground (arith, covers-reaches (is_deny st) st r n, d.first_denies r);
  }

  deny_from-cons :
      (i : ℕ) (st : Statement) (sts : List Statement) (e : DenyEvaluator) (m : Bool)
      → matched (is_deny st) principal action rc st ≡ some m
      → deny_from principal action rc (suc i) sts ≡ some e
      → deny_from principal action rc i (st ∷ sts) ≡ some (if m then add_denied i st e else e)
  unfolding deny_from
  deny_from-cons i st sts e m h k = rw (h, deny_from) (rw (k, deny_from) refl)

  pub deny_from-Denying :
      (i : ℕ) (sts : List Statement)
      → All NamesSomebody sts
      → (e : DenyEvaluator) × (deny_from principal action rc i sts ≡ some e) × Denying i sts e
  unfolding deny_from match_any_runes denying_statement
  deny_from-Denying i [] n = (_, refl, record { any_denies = λ r. refl; first_denies = λ r. refl })
  deny_from-Denying i (st ∷ sts) n =
      let (e, run, d) = deny_from-Denying (suc i) sts n.1 in
      let step = deny_from-cons i st sts e _ (matched-reaches (is_deny st) st n.0) run in
      elim (Bool-cases (reaches (is_deny st) st)) [
        | inl h ↦ (add_denied i st e, rw h at step, Denying-add i st sts e n.0 h d)
        | inr h ↦ (e, rw h at step, Denying-pass i st sts e n.0 h d)
      ]

  abbrev pub Allowing : List Statement → List Runes → Type 0
  Allowing sts rs = (r : Runes) → match_any_runes rs r ≡ any (grants (about r)) sts

  Allowing-add :
      (st : Statement) (sts : List Statement) (rs : List Runes)
      → NamesSomebody st
      → Allowing sts rs
      → Allowing (st ∷ sts) (if reaches (is_allow st) st then st.resource_runes ++ rs else rs)
  Allowing-add st sts rs n a r = ground (
    arith,
    match_any_runes-append st.resource_runes rs r,
    covers-reaches (is_allow st) st r n,
    a r,
  )

  pub allow_from-Allowing :
      (sts : List Statement)
      → All NamesSomebody sts
      → (rs : List Runes) × (allow_from principal action rc sts ≡ some rs) × Allowing sts rs
  unfolding allow_from match_any_runes
  allow_from-Allowing [] n = ([], refl, λ r. refl)
  allow_from-Allowing (st ∷ sts) n =
      let (rs, run, a) = allow_from-Allowing sts n.1 in
      (
        _,
        rw (matched-reaches (is_allow st) st n.0, allow_from) (rw (run, allow_from) refl),
        Allowing-add st sts rs n.0 a,
      )
