-- ===== src/Common/Texts.antt =====
-- Go strings as lists of bytes, the `strings` functions that the program calls on them, and the
-- conversion `[]rune(s)`.
use Prim.Native.Nat.{ℕ, zero, suc, ◌+◌, ◌-◌, ◌*◌, ◌<◌}
use Prim.Native.Char.{code}
use Prim.Native.String.{String}
use mathlib.Core.Path.{◌≡◌, refl}
use mathlib.Core.Logic.{◌↔◌}
use mathlib.Core.Bool.{Bool, true, false, ◌&&◌, ◌||◌}
use mathlib.Core.List.{List, [], ◌∷◌}
use mathlib.Core.Option.{Option, none, some}
use native.Mathlib.Omega.{arith}
use s3rp.Common.Tests.{leb, ltb, ◌==◌, if◌then◌else◌}
use s3rp.Common.Lists.{All}

-- A Go `string`: its bytes.
abbrev pub Text : Type 0
Text = List ℕ

-- A Go `[]rune`: its code points.
abbrev pub Runes : Type 0
Runes = List ℕ

-- The bytes of an ASCII literal.
abbrev pub codes : String → Text
codes String.[] = []
codes (String.◌∷◌ c s) = code c ∷ codes s

unfoldable pub text_eq : Text → Text → Bool
text_eq [] [] = true
text_eq [] (_ ∷ _) = false
text_eq (_ ∷ _) [] = false
text_eq (a ∷ s) (b ∷ t) = a == b && text_eq s t

pub text_eq_refl : (s : Text) → text_eq s s ≡ true
unfolding text_eq
text_eq_refl [] = refl
text_eq_refl (a ∷ s) = ground (arith, text_eq_refl s)

pub text_eq_sound : (s t : Text) → text_eq s t ≡ true → s ≡ t
unfolding text_eq
text_eq_sound [] [] h = refl
text_eq_sound [] (_ ∷ _) h = cc
text_eq_sound (_ ∷ _) [] h = cc
text_eq_sound (a ∷ s) (b ∷ t) h = ground (arith, text_eq_sound s t)

pub text_eq_iff : (s t : Text) → (text_eq s t ≡ true) ↔ (s ≡ t)
text_eq_iff s t = (text_eq_sound s t, ground (arith, text_eq_refl s))

-- `strings.CutPrefix`: what follows the prefix.
unfoldable pub cut_prefix : Text → Text → Option Text
cut_prefix [] s = some s
cut_prefix (_ ∷ _) [] = none
cut_prefix (a ∷ p) (b ∷ s) = if a == b then cut_prefix p s else none

-- `strings.HasPrefix(s, p)`, with the prefix first.
unfoldable pub has_prefix : Text → Text → Bool
has_prefix [] s = true
has_prefix (_ ∷ _) [] = false
has_prefix (a ∷ p) (b ∷ s) = a == b && has_prefix p s

-- `strings.TrimPrefix(s, p)`.
unfoldable pub trim_prefix : Text → Text → Text
unfolding cut_prefix
trim_prefix p s = elim (cut_prefix p s) [ none ↦ s | some rest ↦ rest ]

-- `strings.CutSuffix(s, p)`: what stands before the suffix.
unfoldable pub cut_suffix : Text → Text → Option Text
unfolding text_eq
cut_suffix p [] = if text_eq [] p then some [] else none
cut_suffix p (a ∷ s) =
    if text_eq (a ∷ s) p
    then some []
    else elim (cut_suffix p s) [ none ↦ none | some before ↦ some (a ∷ before) ]

-- `strings.HasSuffix(s, p)`, with the suffix first.
unfoldable pub has_suffix : Text → Text → Bool
unfolding cut_suffix
has_suffix p s = elim (cut_suffix p s) [ none ↦ false | some _ ↦ true ]

-- `strings.Cut(s, sep)` for a separator of one byte: before, after, found.
unfoldable pub cut : ℕ → Text → Text × Text × Bool
cut sep [] = ([], [], false)
cut sep (a ∷ s) =
    let (before, after, found) = cut sep s in
    if a == sep then ([], s, true) else (a ∷ before, after, found)

unfoldable pub contains_byte : ℕ → Text → Bool
contains_byte c [] = false
contains_byte c (a ∷ s) = a == c || contains_byte c s

-- A continuation byte of UTF-8, in the range that its first byte leaves.
is_between : ℕ → ℕ → ℕ → Bool
is_between lo hi b = leb lo b && leb b hi

-- The code point that starts with the byte, and its width, as `utf8.DecodeRune` has them: an
-- invalid byte is U+FFFD of width 1.
abbrev rune_error : ℕ × ℕ
rune_error = (0xFFFD, 1)

decode_two : ℕ → Text → ℕ × ℕ
unfolding is_between
decode_two a [] = rune_error
decode_two a (b ∷ _) =
    if is_between 0x80 0xBF b then ((a - 0xC0) * 64 + (b - 0x80), 2) else rune_error

decode_three : ℕ → ℕ → ℕ → Text → ℕ × ℕ
unfolding is_between
decode_three lo hi a (b ∷ c ∷ _) =
    if is_between lo hi b && is_between 0x80 0xBF c
    then ((a - 0xE0) * 4096 + (b - 0x80) * 64 + (c - 0x80), 3)
    else rune_error
decode_three lo hi a _ = rune_error

decode_four : ℕ → ℕ → ℕ → Text → ℕ × ℕ
unfolding is_between
decode_four lo hi a (b ∷ c ∷ d ∷ _) =
    if is_between lo hi b && is_between 0x80 0xBF c && is_between 0x80 0xBF d
    then ((a - 0xF0) * 262144 + (b - 0x80) * 4096 + (c - 0x80) * 64 + (d - 0x80), 4)
    else rune_error
decode_four lo hi a _ = rune_error

decode_rune : ℕ → Text → ℕ × ℕ
unfolding is_between decode_two decode_three decode_four
decode_rune a s =
    if ltb a 0x80
    then (a, 1)
    else if is_between 0xC2 0xDF a
    then decode_two a s
    else if a == 0xE0
    then decode_three 0xA0 0xBF a s
    else if a == 0xED
    then decode_three 0x80 0x9F a s
    else if is_between 0xE1 0xEF a
    then decode_three 0x80 0xBF a s
    else if a == 0xF0
    then decode_four 0x90 0xBF a s
    else if a == 0xF4
    then decode_four 0x80 0x8F a s
    else if is_between 0xF1 0xF3 a
    then decode_four 0x80 0xBF a s
    else rune_error

-- The first argument counts the bytes that the last code point still covers.
runes_from : ℕ → Text → Runes
runes_from k [] = []
runes_from (suc k) (_ ∷ s) = runes_from k s
runes_from zero (a ∷ s) = let (r, w) = decode_rune a s in r ∷ runes_from (w - 1) s

-- `[]rune(s)`.
unfoldable pub runes : Text → Runes
unfolding runes_from decode_rune
runes s = runes_from 0 s

abbrev pub IsAscii : Text → Type 0
IsAscii = All (λ c. c < 128)

-- An ASCII text is its own code points.
pub runes-IsAscii : (s : Text) → IsAscii s → runes s ≡ s
unfolding runes
runes-IsAscii [] h = refl
runes-IsAscii (a ∷ s) h = ground (arith, runes-IsAscii s)
