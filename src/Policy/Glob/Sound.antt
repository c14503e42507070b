-- ===== src/Policy/Glob/Sound.antt =====
-- A match that `matchRunes` reports is one.
use s3rp.Common.{
  ℕ, zero, suc, ◌≡◌, ◌⊎◌, inl, inr, refl, Bool, true, ◌||◌, Option, none, some, [], ◌∷◌, ◌==◌,
  Bool-cases, Runes, arith,
}
use s3rp.Policy.Glob.{
  star_rune, any_rune, Back, only_stars, backtrack, match_loop, match_runes, enough,
}
use s3rp.Policy.Glob.Relation.{Matches, end, here, skip, take}

abbrev pub BackMatches : Back → Type 0
BackMatches none = ⊥
BackMatches (some (pat, val)) = Matches (star_rune ∷ pat) val

pub only_stars-Matches : (pat : Runes) → only_stars pat ≡ true → Matches pat []
unfolding only_stars
only_stars-Matches [] h = end
only_stars-Matches (c ∷ pat) h = skip (ground arith) (only_stars-Matches pat (ground arith))

-- The literal case, also where both runes are '*'.
pub literal-Matches :
    {c d : ℕ} {pat val : Runes}
    → (c == any_rune || c == d) ≡ true
    → Matches pat val
    → Matches (c ∷ pat) (d ∷ val)
literal-Matches {c} {d} h m = elim (Bool-cases (c == star_rune)) [
  | inl e ↦ let s : c ≡ star_rune = ground arith in take s (skip s m)
  | inr e ↦ here (ground arith) m
]

abbrev Found : Runes → Runes → Back → Type 0
Found pat val back = Matches pat val ⊎ BackMatches back

backtrack-Found :
    (back : Back) (next : Runes → Runes → Back → Option Bool)
    → ((pat val : Runes) (b : Back) → next pat val b ≡ some true → Found pat val b)
    → backtrack back next ≡ some true
    → BackMatches back
unfolding backtrack
backtrack-Found none next ih h = cc
backtrack-Found (some (pat, [])) next ih h = elim (ih pat [] (some (pat, [])) h) [
  | inl m ↦ skip refl m
  | inr m ↦ m
]
backtrack-Found (some (pat, d ∷ val)) next ih h = elim (ih pat val (some (pat, val)) h) [
  | inl m ↦ take refl (skip refl m)
  | inr m ↦ take refl m
]

match_loop-Found :
    (fuel : ℕ) (pat val : Runes) (back : Back)
    → match_loop fuel pat val back ≡ some true
    → Found pat val back
unfolding match_loop
match_loop-Found zero pat val back h = cc
match_loop-Found (suc fuel) pat [] back h = inl (only_stars-Matches pat (ground arith))
match_loop-Found (suc fuel) [] (d ∷ val) back h =
    inr (backtrack-Found back (match_loop fuel) (match_loop-Found fuel) h)
match_loop-Found (suc fuel) (c ∷ pat) (d ∷ val) back h =
    elim (Bool-cases (c == any_rune || c == d)) [
      | inl e ↦ elim (match_loop-Found fuel pat val back (ground arith)) [
        | inl m ↦ inl (literal-Matches e m)
        | inr m ↦ inr m
      ]
      | inr e ↦ elim (Bool-cases (c == star_rune)) [
        | inl s ↦ elim (match_loop-Found fuel pat (d ∷ val) (some (pat, d ∷ val)) (ground arith)) [
          | inl m ↦ inl (skip (ground arith) m)
          | inr m ↦ let k : star_rune ≡ c = ground arith in inl (rw (← k) m)
        ]
        | inr s ↦
            inr (backtrack-Found back (match_loop fuel) (match_loop-Found fuel) (ground arith))
      ]
    ]

-- Whatever `matchRunes` accepts does match the pattern, for every pattern and value.
pub match_runes-Matches : (pat val : Runes) → match_runes pat val ≡ true → Matches pat val
unfolding match_runes
match_runes-Matches pat val h =
    elim (match_loop-Found (enough pat val) pat val none (ground arith)) [
      | inl m ↦ m
      | inr b ↦ elim b [ ]
    ]
