-- ===== src/Policy/Glob/Total.antt =====
-- The loop of `matchRunes` stops: the fuel is enough.
use s3rp.Common.{
  ℕ, zero, suc, ◌+◌, ◌*◌, ◌≤◌, ◌<◌, ◌≡◌, refl, Bool, false, ◌||◌, Option, none, some, [], ◌∷◌, ◌==◌,
  Bool-cases, inl, inr, Runes, arith, length,
}
use s3rp.Policy.Glob.{star_rune, any_rune, Back, only_stars, backtrack, match_loop, enough}

abbrev pub Returns : Option Bool → Type 0
Returns r = (b : Bool) × (r ≡ some b)

-- `k` is above the length of every pattern in play, `m` bounds the value that is left to retry.
abbrev InBounds : ℕ → ℕ → Runes → Back → Type 0
InBounds k m val none = length val ≤ m
InBounds k m val (some (pat, saved)) =
    (length val ≤ length saved) × (length saved ≤ m) × (length pat < k)

module _ (k : ℕ) where
  InBounds-tail :
      (m d : ℕ) (val : Runes) (back : Back) → InBounds k m (d ∷ val) back → InBounds k m val back
  InBounds-tail m d val none b = omega arith
  InBounds-tail m d val (some (pat, saved)) b = omega arith

  length-InBounds : (m : ℕ) (val : Runes) (back : Back) → InBounds k m val back → length val ≤ m
  length-InBounds m val none b = b
  length-InBounds m val (some (pat, saved)) b = omega arith

  backtrack-Returns :
      (d : ℕ) (val : Runes) (fuel m : ℕ) (p : Runes) (back : Back)
      → ((m' : ℕ) (pat' val' : Runes) (b : Back)
          → InBounds k m' val' b
          → length pat' < k
          → m' * k + length pat' < fuel
          → Returns (match_loop fuel pat' val' b))
      → InBounds k m (d ∷ val) back
      → m * k + length p < suc fuel
      → Returns (backtrack back (match_loop fuel))
  unfolding backtrack
  backtrack-Returns d val fuel m p none ih b f = (false, refl)
  backtrack-Returns d val fuel m p (some (pat, [])) ih b f = absurd (omega arith)
  backtrack-Returns d val fuel zero p (some (pat, a ∷ saved)) ih b f = absurd (omega arith)
  backtrack-Returns d val fuel (suc m) p (some (pat, a ∷ saved)) ih b f =
      ih m pat saved (some (pat, saved)) (omega arith) (omega arith) (grind arith)

  match_loop-Returns :
      (fuel m : ℕ) (pat val : Runes) (back : Back)
      → InBounds k m val back
      → length pat < k
      → m * k + length pat < fuel
      → Returns (match_loop fuel pat val back)
  unfolding match_loop
  match_loop-Returns zero m pat val back b l f = absurd (omega arith)
  match_loop-Returns (suc fuel) m pat [] back b l f = (only_stars pat, refl)
  match_loop-Returns (suc fuel) m [] (d ∷ val) back b l f =
      backtrack-Returns d val fuel m [] back (match_loop-Returns fuel) b f
  match_loop-Returns (suc fuel) m (c ∷ pat) (d ∷ val) back b l f =
      elim (Bool-cases (c == any_rune || c == d)) [
        | inl e ↦ rw e (
            match_loop-Returns fuel m pat val back (InBounds-tail m d val back b) (omega arith)
              (omega arith))
        | inr e ↦ rw e (elim (Bool-cases (c == star_rune)) [
          | inl s ↦ rw s (
              match_loop-Returns fuel m pat (d ∷ val) (some (pat, d ∷ val))
                (omega arith, length-InBounds m (d ∷ val) back b, omega arith) (omega arith)
                (omega arith))
          | inr s ↦
              rw s (backtrack-Returns d val fuel m (c ∷ pat) back (match_loop-Returns fuel) b f)
        ])
      ]

-- The loop returns an answer within its fuel.
pub match_loop_total : (pat val : Runes) → Returns (match_loop (enough pat val) pat val none)
match_loop_total pat val =
    match_loop-Returns (length pat + 1) (enough pat val) (length val) pat val none (omega arith)
      (omega arith) (grind arith)
