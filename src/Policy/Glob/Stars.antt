-- ===== src/Policy/Glob/Stars.antt =====
-- A '*' in the value: the literal case of the loop takes the '*' of the pattern as a plain rune.
use s3rp.Common.{
  ℕ, zero, suc, ◌+◌, ◌*◌, ◌≤◌, ◌≡◌, refl, false, none, some, [], ◌∷◌, ◌++◌, Runes, arith, length,
  length-append,
}
use s3rp.Policy.Glob.{star_rune, backtrack, match_loop, match_runes, enough}
use s3rp.Policy.Glob.Relation.{Matches, end, skip, take}
use s3rp.Policy.Glob.Sound.{literal-Matches}

walk :
    (fuel : ℕ) (pre : Runes) (d : ℕ) (rest : Runes)
    → length pre + 2 ≤ fuel
    → match_loop fuel (pre ++ star_rune ∷ []) (pre ++ star_rune ∷ d ∷ rest) none ≡ some false
unfolding match_loop backtrack
walk zero pre d rest h = absurd (omega arith)
walk (suc zero) pre d rest h = absurd (omega arith)
walk (suc (suc fuel)) [] d rest h = refl
walk (suc (suc fuel)) (c ∷ pre) d rest h = ground (arith, walk (suc fuel) pre d rest)

Matches-prefix :
    (pre : Runes) {pat val : Runes} → Matches pat val → Matches (pre ++ pat) (pre ++ val)
Matches-prefix [] m = m
Matches-prefix (c ∷ pre) m = literal-Matches (ground arith) (Matches-prefix pre m)

any_run : (run : Runes) → Matches (star_rune ∷ []) run
any_run [] = skip refl end
any_run (d ∷ run) = take refl (any_run run)

le-mul : (a b c : ℕ) → a ≤ b → 1 ≤ c → a ≤ b * c
le-mul a b c h k = grind arith

room :
    (pre : Runes) (d : ℕ) (rest : Runes)
    → length pre + 2 ≤ enough (pre ++ star_rune ∷ []) (pre ++ star_rune ∷ d ∷ rest)
room pre d rest =
    le-mul (length pre + 2) _ _ (omega (arith, length-append pre (star_rune ∷ d ∷ rest)))
      (omega arith)

-- The trailing '*' of a pattern misses every value that has a '*' right behind the same prefix and
-- more runes after it, although the value matches.
pub match_runes-star_missed :
    (pre : Runes) (d : ℕ) (rest : Runes)
    → (match_runes (pre ++ star_rune ∷ []) (pre ++ star_rune ∷ d ∷ rest) ≡ false)
      × Matches (pre ++ star_rune ∷ []) (pre ++ star_rune ∷ d ∷ rest)
unfolding match_runes
match_runes-star_missed pre d rest = (
  rw
      (walk (enough (pre ++ star_rune ∷ []) (pre ++ star_rune ∷ d ∷ rest)) pre d rest
        (room pre d rest))
      refl,
  Matches-prefix pre (any_run (star_rune ∷ d ∷ rest)),
)
