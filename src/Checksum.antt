-- ===== src/Checksum.antt =====
-- checksum/checksum.go: the algorithms, and which of them `NewHash` has a hash for.
use s3rp.Common.{Bool, true, false, Option, none, some, List, [], ◌∷◌, if◌then◌else◌, Text, codes}

-- `Algorithm`; `computable` is whether `newHash` is set.
pub record Algorithm : Type 0 where
  pub name : Text
  pub computable : Bool

-- The table of the algorithms, in its order.
abbrev pub algorithms : List Algorithm
algorithms =
    record { name = codes "CRC32"; computable = true }
    ∷ record { name = codes "CRC32C"; computable = true }
    ∷ record { name = codes "CRC64NVME"; computable = true }
    ∷ record { name = codes "SHA1"; computable = true }
    ∷ record { name = codes "SHA256"; computable = true }
    ∷ record { name = codes "SHA512"; computable = true }
    ∷ record { name = codes "MD5"; computable = true }
    ∷ record { name = codes "XXHASH64"; computable = false }
    ∷ record { name = codes "XXHASH3"; computable = false }
    ∷ record { name = codes "XXHASH128"; computable = false }
    ∷ []

-- The loop of `Lookup`, with `strings.EqualFold`.
unfoldable pub find_algorithm : (Text → Text → Bool) → Text → List Algorithm → Option Algorithm
find_algorithm equal_fold name [] = none
find_algorithm equal_fold name (a ∷ more) =
    if equal_fold a.name name then some a else find_algorithm equal_fold name more

-- `Lookup`.
unfoldable pub lookup : (Text → Text → Bool) → Text → Option Algorithm
unfolding find_algorithm
lookup equal_fold name = find_algorithm equal_fold name algorithms

-- Whether `NewHash` returns a hash and not nil.
unfoldable pub has_hash : (Text → Text → Bool) → Text → Bool
unfolding lookup
has_hash equal_fold name = elim (lookup equal_fold name) [ none ↦ false | some a ↦ a.computable ]
