-- ===== src/Tests/Globs.antt =====
-- The matcher at concrete patterns.
use s3rp.Common.{◌≡◌, ◌↔◌, refl, true, false, [], ◌∷◌, ◌++◌, none, arith, codes, Runes}
use s3rp.Policy.Glob.{star_rune, match_runes, match_loop, enough}
use s3rp.Policy.Glob.Relation.{Matches}
use s3rp.Policy.Glob.Sound.{match_runes-Matches}
use s3rp.Policy.Glob.Total.{Returns, match_loop_total}
use s3rp.Policy.Glob.Complete.{match_runes_iff}
use s3rp.Policy.Glob.Stars.{match_runes-star_missed}

abbrev pattern : Runes
pattern = codes "a*c?"

abbrev value : Runes
value = codes "abbcd"

matched : match_runes pattern value ≡ true
unfolding match_runes
matched = refl

match_runes-Matches_example : Matches pattern value
match_runes-Matches_example = match_runes-Matches pattern value matched

match_loop_total_example : Returns (match_loop (enough pattern value) pattern value none)
match_loop_total_example = match_loop_total pattern value

match_runes_iff_example : (match_runes pattern value ≡ true) ↔ Matches pattern value
match_runes_iff_example = match_runes_iff pattern value (ground arith)

match_runes-star_missed_example :
    (match_runes (codes "logs/" ++ star_rune ∷ []) (codes "logs/" ++ star_rune ∷ b'x' ∷ []) ≡ false)
    × Matches (codes "logs/" ++ star_rune ∷ []) (codes "logs/" ++ star_rune ∷ b'x' ∷ [])
match_runes-star_missed_example = match_runes-star_missed (codes "logs/") b'x' []
