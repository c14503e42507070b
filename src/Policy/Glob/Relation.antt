-- ===== src/Policy/Glob/Relation.antt =====
-- What it means for a text to match a pattern: '*' stands for any run of runes, '?' for one rune,
-- and every other rune for itself. No order of search is in it.
use s3rp.Common.{ℕ, ◌≡◌, ◌≢◌, ◌⊎◌, refl, [], ◌∷◌, ◌++◌, Runes, arith}
use s3rp.Policy.Glob.{star_rune, any_rune}

pub data Matches : Runes → Runes → Type 0 where
  end : Matches [] []
  here :
      {c d : ℕ} {pat val : Runes}
      → (c ≡ any_rune) ⊎ ((c ≢ star_rune) × (c ≡ d))
      → Matches pat val
      → Matches (c ∷ pat) (d ∷ val)
  skip : {c : ℕ} {pat val : Runes} → c ≡ star_rune → Matches pat val → Matches (c ∷ pat) val
  take :
      {c d : ℕ} {pat val : Runes}
      → c ≡ star_rune
      → Matches (c ∷ pat) val
      → Matches (c ∷ pat) (d ∷ val)

-- A '*' stands for any run: it matches `run ++ val` where the rest matches `val`.
pub star-run :
    (run : Runes) {pat val : Runes} → Matches pat val → Matches (star_rune ∷ pat) (run ++ val)
star-run [] m = skip refl m
star-run (d ∷ run) m = take refl (star-run run m)

-- A rune that is no '*' takes exactly one rune of the value.
pub here_inv :
    {c d : ℕ} {pat val : Runes}
    → c ≢ star_rune
    → Matches (c ∷ pat) (d ∷ val)
    → ((c ≡ any_rune) ⊎ (c ≡ d)) × Matches pat val
here_inv n (here h m) = (ground arith, m)
here_inv n (skip e m) = absurd (n e)
here_inv n (take e m) = absurd (n e)

pub not-Matches-nil : {d : ℕ} {val : Runes} → ¬ Matches [] (d ∷ val)
not-Matches-nil m = elim m [ ]

pub two_stars :
    {pat val : Runes} → Matches (star_rune ∷ star_rune ∷ pat) val → Matches (star_rune ∷ pat) val
two_stars (here h m) = absurd (ground arith)
two_stars (skip e m) = m
two_stars (take e m) = take refl (two_stars m)

-- Where '*' and then `c` match, '*' alone matches from the second rune on.
pub star-here :
    {c d : ℕ} {pat : Runes} (val : Runes)
    → c ≢ star_rune
    → Matches (star_rune ∷ c ∷ pat) (d ∷ val)
    → Matches (star_rune ∷ pat) val
star-here val n (here h m) = absurd (ground arith)
star-here val n (skip e m) = skip refl ((here_inv n m).1)
star-here [] n (take e (skip e' (skip e'' m))) = absurd (n e'')
star-here (d ∷ val) n (take e m) = take refl (star-here val n m)

pub star-nil : {c : ℕ} {pat : Runes} → c ≡ star_rune → Matches (c ∷ pat) [] → Matches pat []
star-nil e (skip _ m) = m
