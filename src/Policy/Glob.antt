-- ===== src/Policy/Glob.antt =====
-- policy/policy.go: `Match` and `matchRunes`, the glob that actions and resources are matched by.
-- The indices `p`, `v`, `star`, `starV` into the two slices are the rest of each slice.
pub mod Relation
pub mod Sound
pub mod Total
pub mod Complete
pub mod Stars
use s3rp.Common.{
  ℕ, zero, suc, ◌+◌, ◌*◌, Bool, true, false, ◌&&◌, ◌||◌, not, Option, none, some, List, [], ◌∷◌,
  ◌==◌, if◌then◌else◌, length, Text, Runes, runes,
}

-- '*' and '?'.
abbrev pub star_rune : ℕ
star_rune = 42

abbrev pub any_rune : ℕ
any_rune = 63

-- `star` and `starV`, present when a '*' was seen: the pattern behind it, and the value from the
-- position at which it started.
abbrev pub Back : Type 0
Back = Option (Runes × Runes)

-- The second loop of `matchRunes` and its last line.
unfoldable pub only_stars : Runes → Bool
only_stars [] = true
only_stars (c ∷ pat) = c == star_rune && only_stars pat

abbrev pub tail_of : Runes → Runes
tail_of [] = []
tail_of (_ ∷ s) = s

-- The last two cases of the `switch`: go back to the last '*' and let it take one more rune.
unfoldable pub backtrack : Back → (Runes → Runes → Back → Option Bool) → Option Bool
backtrack none next = some false
backtrack (some (pat, val)) next = next pat (tail_of val) (some (pat, tail_of val))

-- The first loop. The literal case stands first in the source: a '*' of the pattern meets a '*' of
-- the value there. `none` is the model's own: the fuel ran out.
unfoldable pub match_loop : ℕ → Runes → Runes → Back → Option Bool
unfolding backtrack
match_loop zero pat val back = none
match_loop (suc fuel) pat [] back = some (only_stars pat)
match_loop (suc fuel) [] (d ∷ val) back = backtrack back (match_loop fuel)
match_loop (suc fuel) (c ∷ pat) (d ∷ val) back =
    let onward = match_loop fuel pat val back in
    let starred = match_loop fuel pat (d ∷ val) (some (pat, d ∷ val)) in
    if c == any_rune || c == d
    then onward
    else if c == star_rune
    then starred
    else backtrack back (match_loop fuel)

abbrev pub enough : Runes → Runes → ℕ
enough pat val = (length val + 1) * (length pat + 1)

abbrev pub is_some_true : Option Bool → Bool
is_some_true none = false
is_some_true (some b) = b

-- `matchRunes`.
unfoldable pub match_runes : Runes → Runes → Bool
unfolding match_loop only_stars
match_runes pat val = is_some_true (match_loop (enough pat val) pat val none)

-- `Match`.
unfoldable pub match : Text → Text → Bool
match pattern value = match_runes (runes pattern) (runes value)
