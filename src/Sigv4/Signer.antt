-- ===== src/Sigv4/Signer.antt =====
-- sigv4/signer.go: the cache of signing keys.
pub mod Sound
use s3rp.Common.{
  ℕ, zero, suc, ◌+◌, ◌%◌, ◌^◌, Bool, true, false, not, ◌&&◌, ◌||◌, Option, none, some, List, [],
  if◌then◌else◌, is_empty, length, ltb, ◌==◌, Text, text_eq,
}
use s3rp.Sigv4.Crypto.{Crypto, derive_signing_key}

-- What a `SigningKeyFunc` returns: the key, `ErrUnknownKey`, or another error.
pub data Derived : Type 0 where
  derived_key : Text → Derived
  key_gone : Derived
  derive_failed : Derived

-- `SigningKeyFunc`, of a date and a region.
abbrev pub SigningKeyFunc : Type 0
SigningKeyFunc = Text → Text → Derived

-- `signingKeyID`.
pub record SigningKeyId : Type 0 where
  pub access_key_id : Text
  pub version : Text
  pub date : Text
  pub region : Text
  pub derived : Bool

pub record SignerSlot : Type 0 where
  pub key : SigningKeyId
  pub signing_key : Text

-- `signerCache`: the slot of each index below the capacity, and the counters, each a `uint64`.
pub record SignerCache : Type 0 where
  pub capacity : ℕ
  pub slots : ℕ → SignerSlot
  pub hits : ℕ
  pub misses : ℕ
  pub displacements : ℕ

abbrev pub zero_id : SigningKeyId
zero_id = record { access_key_id = []; version = []; date = []; region = []; derived = false }

abbrev zero_slot : SignerSlot
zero_slot = record { key = zero_id; signing_key = [] }

-- `newSignerCache`, of a size that is 0 here if it is negative.
unfoldable pub new_signer_cache : ℕ → SignerCache
new_signer_cache size = record {
  capacity = if ltb size 1 then 1 else size;
  slots = λ i. zero_slot;
  hits = 0;
  misses = 0;
  displacements = 0;
}

-- `SetSignerCacheSize`: a new cache, with the counters of the one before.
unfoldable pub set_signer_cache_size : ℕ → SignerCache → SignerCache
unfolding new_signer_cache
set_signer_cache_size n c = record (new_signer_cache n) {
  hits = c.hits;
  misses = c.misses;
  displacements = c.displacements;
}

unfoldable pub same_bool : Bool → Bool → Bool
same_bool true b = b
same_bool false b = not b

-- `==` on `signingKeyID`.
unfoldable pub same_id : SigningKeyId → SigningKeyId → Bool
unfolding same_bool
same_id a b =
    text_eq a.access_key_id b.access_key_id
    && text_eq a.version b.version
    && text_eq a.date b.date
    && text_eq a.region b.region
    && same_bool a.derived b.derived

-- `Uint64.Add(1)`.
abbrev pub add_one : ℕ → ℕ
add_one n = (n + 1) % 2 ^ 64

-- The key of an id that is not in the cache, where `sha256.Size` is 32.
unfoldable pub derive_key : Crypto → SigningKeyId → SigningKeyFunc → Derived
unfolding derive_signing_key
derive_key cr id derive =
    if id.derived
    then elim (derive id.date id.region) [
      | key_gone ↦ key_gone
      | derive_failed ↦ derive_failed
      | derived_key k ↦ if not (length k == 32) then derive_failed else derived_key k
    ]
    else derived_key (derive_signing_key cr id.version id.date id.region)

-- The slots behind a store into one of them.
abbrev pub with_slot : ℕ → SignerSlot → (ℕ → SignerSlot) → ℕ → SignerSlot
with_slot i slot slots j = if j == i then slot else slots j

-- The end of `get`, which keeps the key that it has derived.
unfoldable pub store_key : ℕ → SigningKeyId → Text → SignerCache → SignerCache
store_key i id k c =
    let old = (c.slots i).key.access_key_id in
    record c {
      displacements =
          if not (is_empty old) && not (text_eq old id.access_key_id)
          then add_one c.displacements
          else c.displacements;
      slots = with_slot i (record { key = id; signing_key = k }) c.slots;
    }

abbrev pub slot_index : (Text → ℕ) → SignerCache → SigningKeyId → ℕ
slot_index hash c id = hash id.access_key_id % c.capacity

-- `get`, with the seeded hash of a string.
unfoldable pub get :
    Crypto → (Text → ℕ) → SignerCache → SigningKeyId → SigningKeyFunc → Derived × SignerCache
unfolding same_id derive_key store_key
get cr hash c id derive =
    let i = slot_index hash c id in
    let missed : SignerCache = record c { misses = add_one c.misses } in
    if same_id (c.slots i).key id
    then (derived_key (c.slots i).signing_key, record c { hits = add_one c.hits })
    else elim (derive_key cr id derive) [
      | key_gone ↦ (key_gone, missed)
      | derive_failed ↦ (derive_failed, missed)
      | derived_key k ↦ (derived_key k, store_key i id k missed)
    ]

-- The number of the slots below an index that are taken.
unfoldable pub taken : (ℕ → SignerSlot) → ℕ → ℕ
taken slots zero = 0
taken slots (suc n) =
    let below = taken slots n in
    if not (is_empty (slots n).key.access_key_id) then suc below else below

pub record CacheStats : Type 0 where
  pub hits : ℕ
  pub misses : ℕ
  pub evictions : ℕ
  pub len : ℕ
  pub capacity : ℕ

-- `stats`.
unfoldable pub stats : SignerCache → CacheStats
unfolding taken
stats c = record {
  hits = c.hits;
  misses = c.misses;
  evictions = c.displacements;
  len = taken c.slots c.capacity;
  capacity = c.capacity;
}
