-- ===== src/Policy/Statement.antt =====
-- policy/policy.go: whether a statement applies to a request, and the compiled patterns that this
-- is decided by.
use s3rp.Common.{
  has_suffix, ◌+◌, ℕ, suc, Bool, true, false, not, ◌&&◌, ◌||◌, Option, none, some, List, [], ◌∷◌,
  map, ltb, if◌then◌else◌, Text, Runes, codes, runes, text_eq, has_prefix,
}
use s3rp.Policy.Glob.{match_runes}
use s3rp.Policy.Condition
use s3rp.Policy.Document.{Platform, RequestContext, Condition, Statement, Policy}

-- `e[:len(e)-1]`, cut only where `e` is known to end in "/*".
unfoldable pub drop_last : Text → Text
drop_last [] = []
drop_last (c ∷ []) = []
drop_last (c ∷ d ∷ s) = c ∷ drop_last (d ∷ s)

-- One entry of a principal list names the principal.
unfoldable pub names : Text → Text → Bool
unfolding drop_last has_suffix
names entry principal =
    text_eq entry principal
    || (has_suffix (codes "/*") entry && has_prefix (drop_last entry) principal)

-- `matchAnyPrincipal`.
unfoldable pub match_any_principal : List Text → Text → Bool
unfolding names
match_any_principal [] principal = false
match_any_principal (e ∷ entries) principal =
    names e principal || match_any_principal entries principal

-- `Statement.matchPrincipal`; `none` is the panic on a statement that has neither element.
unfoldable pub match_principal : Statement → Text → Option Bool
match_principal st principal = elim st.principal [
  | some p ↦ some (p.all || match_any_principal p.users principal)
  | none ↦ elim st.not_principal [
    | some p ↦ some (not (match_any_principal p.users principal))
    | none ↦ none
  ]
]

abbrev pub is_deny : Statement → Bool
is_deny st = text_eq st.effect (codes "Deny")

abbrev pub is_allow : Statement → Bool
is_allow st = text_eq st.effect (codes "Allow")

-- `Statement.matchCondition`.
unfoldable pub match_condition : Statement → RequestContext → Bool
match_condition st rc = elim st.condition [
  | none ↦ true
  | some c ↦ if c.invalid then is_deny st else Condition.match c rc
]

-- `matchIndexRunes`; `none` is -1.
unfoldable pub match_index_runes : List Runes → Runes → Option ℕ
match_index_runes [] value = none
match_index_runes (p ∷ patterns) value =
    if match_runes p value
    then some 0
    else elim (match_index_runes patterns value) [ none ↦ none | some i ↦ some (suc i) ]

-- `matchAnyRunes`.
unfoldable pub match_any_runes : List Runes → Runes → Bool
unfolding match_index_runes
match_any_runes patterns value = elim (match_index_runes patterns value) [
  | none ↦ false
  | some _ ↦ true
]

-- `patternRunes`.
unfoldable pub pattern_runes : List Text → List Runes
pattern_runes = map runes

module _ (std : Platform) where
  unfoldable pub lower_rune : ℕ → ℕ
  lower_rune c = if ltb c 128 then (if ltb 64 c && ltb c 91 then c + 32 else c) else std.to_lower c

  -- `[]rune(strings.ToLower(s))`.
  unfoldable pub lower_runes : Text → Runes
  unfolding lower_rune
  lower_runes s = map lower_rune (runes s)

  -- `lowerPatternRunes`.
  unfoldable pub lower_pattern_runes : List Text → List Runes
  lower_pattern_runes = map lower_runes

  -- The body of the loop of `Policy.compile`.
  compile_condition : Condition → Condition
  compile_condition c = if c.compiled then c else (Condition.compile std c).0

  unfoldable pub compile_statement : Statement → Statement
  unfolding compile_condition
  compile_statement st = record st {
    action_runes = lower_pattern_runes st.action;
    resource_runes = pattern_runes st.resource;
    condition = elim st.condition [ none ↦ none | some c ↦ some (compile_condition c) ];
  }

  -- `p.compileOnce.Do(p.compile)`.
  unfoldable pub compile : Policy → Policy
  unfolding compile_statement
  compile p =
      if p.compile_once
      then p
      else record p { statement = map compile_statement p.statement; compile_once = true }
