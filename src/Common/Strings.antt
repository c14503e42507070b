-- ===== src/Common/Strings.antt =====
-- More of the Go `strings` package on bytes: `TrimSpace`, `Split`, `Join`; `strconv.Itoa`; and the
-- signed integers.
use Prim.Native.Nat.{ℕ, zero, suc, ◌+◌, ◌-◌, ◌/◌, ◌%◌}
use mathlib.Core.Bool.{Bool, ◌&&◌, ◌||◌}
use mathlib.Core.List.{List, [], ◌∷◌, ◌++◌, reverse}
use s3rp.Common.Tests.{leb, ltb, ◌==◌, if◌then◌else◌}
use s3rp.Common.Texts.{Text}

-- `negsuc n` is -(n + 1).
pub data ℤ : Type 0 where
  pos : ℕ → ℤ
  negsuc : ℕ → ℤ

is_ascii_space : ℕ → Bool
is_ascii_space c = c == 32 || (leb 9 c && leb c 13)

-- The bytes of the white space character that the text begins with, 0 if it begins with none:
-- `unicode.IsSpace` on the code point that stands there.
space_width : Text → ℕ
unfolding is_ascii_space
space_width [] = 0
space_width (a ∷ []) = if is_ascii_space a then 1 else 0
space_width (a ∷ b ∷ []) =
    if is_ascii_space a then 1 else if a == 0xC2 && (b == 0x85 || b == 0xA0) then 2 else 0
space_width (a ∷ b ∷ c ∷ _) =
    if is_ascii_space a
    then 1
    else if a == 0xC2 && (b == 0x85 || b == 0xA0)
    then 2
    else if (a == 0xE1 && b == 0x9A && c == 0x80)
        || (a == 0xE2
            && b == 0x80
            && (leb c 0x8A && leb 0x80 c || c == 0xA8 || c == 0xA9 || c == 0xAF))
        || (a == 0xE2 && b == 0x81 && c == 0x9F)
        || (a == 0xE3 && b == 0x80 && c == 0x80)
    then 3
    else 0

-- The same of a text read from its end.
back_width : Text → ℕ
unfolding is_ascii_space
back_width [] = 0
back_width (a ∷ []) = if is_ascii_space a then 1 else 0
back_width (b ∷ a ∷ []) =
    if is_ascii_space b then 1 else if a == 0xC2 && (b == 0x85 || b == 0xA0) then 2 else 0
back_width (c ∷ b ∷ a ∷ _) =
    if is_ascii_space c
    then 1
    else if b == 0xC2 && (c == 0x85 || c == 0xA0)
    then 2
    else if (a == 0xE1 && b == 0x9A && c == 0x80)
        || (a == 0xE2
            && b == 0x80
            && (leb c 0x8A && leb 0x80 c || c == 0xA8 || c == 0xA9 || c == 0xAF))
        || (a == 0xE2 && b == 0x81 && c == 0x9F)
        || (a == 0xE3 && b == 0x80 && c == 0x80)
    then 3
    else 0

-- Cut white space off the front, where `width` measures it and `k` bytes of it are still to go.
trim_from : (Text → ℕ) → ℕ → Text → Text
trim_from width k [] = []
trim_from width (suc k) (_ ∷ s) = trim_from width k s
trim_from width zero (a ∷ s) =
    let rest = trim_from width (width (a ∷ s) - 1) s in if width (a ∷ s) == 0 then a ∷ s else rest

-- `strings.TrimSpace`.
unfoldable pub trim_space : Text → Text
unfolding trim_from space_width back_width
trim_space s = reverse (trim_from back_width 0 (reverse (trim_from space_width 0 s)))

-- `strings.Split(s, sep)` for a separator of one byte: one part more than separators.
push_head : ℕ → List Text → List Text
push_head a [] = (a ∷ []) ∷ []
push_head a (part ∷ parts) = (a ∷ part) ∷ parts

unfoldable pub split : ℕ → Text → List Text
unfolding push_head
split sep [] = [] ∷ []
split sep (a ∷ s) = let parts = split sep s in if a == sep then [] ∷ parts else push_head a parts

-- `strings.Join(parts, sep)`.
unfoldable pub join : Text → List Text → Text
join sep [] = []
join sep (part ∷ []) = part
join sep (part ∷ next ∷ parts) = part ++ (sep ++ join sep (next ∷ parts))

digits_from : ℕ → ℕ → Text → Text
digits_from zero n acc = acc
digits_from (suc fuel) n acc =
    let more = digits_from fuel (n / 10) ((n % 10 + b'0') ∷ acc) in
    if ltb n 10 then (n + b'0') ∷ acc else more

-- `strconv.Itoa` of a natural number.
unfoldable pub itoa : ℕ → Text
unfolding digits_from
itoa n = digits_from (n + 1) n []
