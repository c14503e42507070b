-- ===== src/Policy/Decide/Verdict.antt =====
-- What `Decide` promises, with no loop state in it: the first Deny that applies, else the first
-- statement that applies, else nothing.
use s3rp.Common.{
  ℕ, suc, ◌≡◌, inl, inr, refl, Bool, false, ◌&&◌, Option, none, some, List, [], ◌∷◌, map,
  if◌then◌else◌, All, Bool-cases, arith, Text,
}
use s3rp.Policy.Document.{Platform, RequestContext, Statement, Policy, allow, deny, Decision}
use s3rp.Policy.Statement.{match_principal, is_deny, compile, compile_statement}
use s3rp.Policy.Decide.{Asked, applies, decide_from, undecided, ask, decide}

-- The element names somebody: what `Statement.validate` enforces, and what keeps `matchPrincipal`
-- from a nil pointer.
abbrev pub NamesSomebody : Statement → Type 0
NamesSomebody st = (st.principal ≡ none) → (st.not_principal ≡ none) → ⊥

-- The index of the first element that passes the test, counted from `i`.
abbrev pub first_from {ℓ} : {A : Type ℓ} → (A → Bool) → ℕ → List A → Option ℕ
first_from test i [] = none
first_from test i (x ∷ xs) = if test x then some i else first_from test (suc i) xs

abbrev pub holds : Option Bool → Bool
holds none = false
holds (some b) = b

-- The statement applies to the request.
abbrev pub covers : Asked → Statement → Bool
covers q st = holds (applies q st)

-- The first Deny that applies decides; without one, the first statement that applies.
abbrev pub or_allowed : Option ℕ → Decision
or_allowed none = undecided
or_allowed (some i) = record { effect = allow; statement = some i }

abbrev pub verdict : Option ℕ → Option ℕ → Decision
verdict (some i) allowed = record { effect = deny; statement = some i }
verdict none allowed = or_allowed allowed

abbrev pub denies : Asked → Statement → Bool
denies q st = covers q st && is_deny st

pub applies-NamesSomebody :
    (q : Asked) (st : Statement) → NamesSomebody st → applies q st ≡ some (covers q st)
unfolding applies match_principal
applies-NamesSomebody q st n = ground arith

-- Once a statement that allows is kept, only a Deny changes the result.
abbrev deny_or : Decision → Option ℕ → Decision
deny_or result none = result
deny_or result (some j) = record { effect = deny; statement = some j }

decide_from-kept :
    (q : Asked) (i k : ℕ) (sts : List Statement)
    → All NamesSomebody sts
    → decide_from q i sts (or_allowed (some k))
      ≡ some (deny_or (or_allowed (some k)) (first_from (denies q) i sts))
unfolding decide_from
decide_from-kept q i k [] n = refl
decide_from-kept q i k (st ∷ sts) n =
    ground (arith, applies-NamesSomebody q st n.0, decide_from-kept q (suc i) k sts n.1)

decide_from-verdict :
    (q : Asked) (i : ℕ) (sts : List Statement)
    → All NamesSomebody sts
    → decide_from q i sts undecided
      ≡ some (verdict (first_from (denies q) i sts) (first_from (covers q) i sts))
unfolding decide_from
decide_from-verdict q i [] n = refl
decide_from-verdict q i (st ∷ sts) n = ground (
  arith,
  applies-NamesSomebody q st n.0,
  decide_from-kept q (suc i) i sts n.1,
  decide_from-verdict q (suc i) sts n.1,
)

All-map-compile :
    (std : Platform) (sts : List Statement)
    → All NamesSomebody sts
    → All NamesSomebody (map (compile_statement std) sts)
unfolding compile_statement
All-map-compile std [] n = tt
All-map-compile std (st ∷ sts) n = (n.0, All-map-compile std sts n.1)

pub compile-NamesSomebody :
    (std : Platform) (p : Policy)
    → All NamesSomebody p.statement
    → All NamesSomebody (compile std p).statement
unfolding compile
compile-NamesSomebody std p n = elim (Bool-cases p.compile_once) [
  | inl e ↦ rw e n
  | inr e ↦ rw e (All-map-compile std p.statement n)
]

-- If every statement has a Principal or a NotPrincipal element, `Decide` does not panic, and its
-- decision is the first Deny statement that applies to the request, else the first statement that
-- applies, else none: a Deny wins wherever it stands.
pub decide-verdict :
    (std : Platform) (p : Policy) (principal action resource : Text) (rc : RequestContext)
    → All NamesSomebody p.statement
    → decide std p principal action resource rc
      ≡ some (
          verdict
            (first_from (denies (ask std principal action resource rc)) 0 (compile std p).statement)
            (first_from
              (covers (ask std principal action resource rc))
              0
              (compile std p).statement))
unfolding decide
decide-verdict std p principal action resource rc n =
    decide_from-verdict _ 0 _ (compile-NamesSomebody std p n)
