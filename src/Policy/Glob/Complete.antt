-- ===== src/Policy/Glob/Complete.antt =====
-- On a value with no '*' in it `matchRunes` misses no match: going back to the last '*' only is
-- enough, and the literal case takes no '*' of the pattern.
use s3rp.Common.{
  ℕ, zero, suc, ◌≡◌, ◌≢◌, ◌↔◌, refl, Bool, true, false, ◌||◌, Option, none, some, [], ◌∷◌, ◌==◌,
  All, Bool-cases, inl, inr, Runes, arith,
}
use s3rp.Policy.Glob.{
  star_rune, any_rune, Back, only_stars, backtrack, match_loop, match_runes, enough,
}
use s3rp.Policy.Glob.Relation.{Matches, here, skip, take, here_inv, two_stars, star-here, star-nil}
use s3rp.Policy.Glob.Sound.{BackMatches, match_runes-Matches}
use s3rp.Policy.Glob.Total.{match_loop_total}

abbrev pub NoStar : Runes → Type 0
NoStar = All (λ d. d ≢ star_rune)

Matches-only_stars : (pat : Runes) → Matches pat [] → only_stars pat ≡ true
unfolding only_stars
Matches-only_stars [] m = refl
Matches-only_stars (c ∷ pat) (skip e m) = ground (arith, Matches-only_stars pat m)

-- What the walk from the last '*' to the present position has kept.
abbrev Kept : Runes → Runes → Back → Type 0
Kept pat val none = Unit
Kept pat val (some (bp, bv)) =
    NoStar bv
    × (Matches (star_rune ∷ bp) bv → Matches (star_rune ∷ pat) val)
    × (Matches bp bv → Matches pat val)

abbrev Missed : Runes → Runes → Back → Type 0
Missed pat val back = (¬ Matches pat val) × (¬ BackMatches back)

Kept-literal :
    (c d : ℕ) (pat val : Runes) (back : Back)
    → c ≢ star_rune
    → Kept (c ∷ pat) (d ∷ val) back
    → Kept pat val back
Kept-literal c d pat val none n k = tt
Kept-literal c d pat val (some (bp, bv)) n (free, later, down) =
    (free, λ m. star-here val n (later m), λ m. (here_inv n (down m)).1)

not-BackMatches-end :
    {pat : Runes} (back : Back) → Kept pat [] back → ¬ Matches pat [] → ¬ BackMatches back
not-BackMatches-end none k n m = m
not-BackMatches-end (some (bp, bv)) (free, later, down) n m = n (star-nil refl (later m))

not-BackMatches-star :
    {pat val : Runes} (back : Back)
    → Kept (star_rune ∷ pat) val back
    → ¬ Matches (star_rune ∷ pat) val
    → ¬ BackMatches back
not-BackMatches-star none k n m = m
not-BackMatches-star (some (bp, bv)) (free, later, down) n m = n (two_stars (later m))

backtrack-Missed :
    (pat val : Runes) (back : Back) (next : Runes → Runes → Back → Option Bool)
    → ((pat' val' : Runes) (b : Back)
        → NoStar val'
        → Kept pat' val' b
        → next pat' val' b ≡ some false
        → Missed pat' val' b)
    → Kept pat val back
    → ¬ Matches pat val
    → backtrack back next ≡ some false
    → ¬ BackMatches back
unfolding backtrack
backtrack-Missed pat val none next ih k n h m = m
backtrack-Missed pat val (some (bp, [])) next ih (free, later, down) n h (skip e m) = n (down m)
backtrack-Missed pat val (some (bp, d ∷ bv)) next ih (free, later, down) n h (skip e m) = n (down m)
backtrack-Missed pat val (some (bp, d ∷ bv)) next ih (free, later, down) n h (here e m) =
    ground arith
backtrack-Missed pat val (some (bp, d ∷ bv)) next ih (free, later, down) n h (take e m) =
    (ih bp bv (some (bp, bv)) free.1 (free.1, λ x. x, λ x. x) h).1 m

match_loop-Missed :
    (fuel : ℕ) (pat val : Runes) (back : Back)
    → NoStar val
    → Kept pat val back
    → match_loop fuel pat val back ≡ some false
    → Missed pat val back
unfolding match_loop
match_loop-Missed zero pat val back free k h = cc
match_loop-Missed (suc fuel) pat [] back free k h =
    let n : ¬ Matches pat [] = λ m. ground (arith, Matches-only_stars pat m) in
    (n, not-BackMatches-end back k n)
match_loop-Missed (suc fuel) [] (d ∷ val) back free k h =
    let n : ¬ Matches [] (d ∷ val) = λ m. elim m [ ] in
    (n, backtrack-Missed [] (d ∷ val) back (match_loop fuel) (match_loop-Missed fuel) k n h)
match_loop-Missed (suc fuel) (c ∷ pat) (d ∷ val) back free k h =
    elim (Bool-cases (c == any_rune || c == d)) [
      | inl e ↦
          let n : c ≢ star_rune = ground (arith, free.0) in
          let (m, b) =
            match_loop-Missed fuel pat val back free.1 (Kept-literal c d pat val back n k)
              (ground arith) in
          (λ x. m (here_inv n x).1, b)
      | inr e ↦ elim (Bool-cases (c == star_rune)) [
        | inl s ↦
            let same : star_rune ≡ c = ground arith in
            let (_, b) =
              match_loop-Missed fuel pat (d ∷ val) (some (pat, d ∷ val)) free (free, λ x. x, λ x. x)
                (ground arith) in
            (rw (← same) b, not-BackMatches-star back (rw same k) b)
        | inr s ↦
            let n : c ≢ star_rune = ground arith in
            let no : ¬ Matches (c ∷ pat) (d ∷ val) = λ x. let y = here_inv n x in ground arith in
            (
              no,
              backtrack-Missed (c ∷ pat) (d ∷ val) back (match_loop fuel) (match_loop-Missed fuel) k
                  no (ground arith),
            )
      ]
    ]

-- On a value free of '*', `matchRunes` answers true exactly on the matches.
pub match_runes_iff :
    (pat val : Runes) → NoStar val → (match_runes pat val ≡ true) ↔ Matches pat val
unfolding match_runes
match_runes_iff pat val free = (match_runes-Matches pat val, complete)
  where
    complete : Matches pat val → match_runes pat val ≡ true
    complete m =
        let (b, e) = match_loop_total pat val in
        elim (Bool-cases b) [
          | inl t ↦ ground arith
          | inr f ↦
              absurd ((match_loop-Missed (enough pat val) pat val none free tt (ground arith)).0 m)
        ]
