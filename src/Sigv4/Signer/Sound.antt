-- ===== src/Sigv4/Signer/Sound.antt =====
-- sigv4/signer.go: the keys that the cache hands out.
use s3rp.Common.{
  ℕ, ◌≡◌, ◌⊎◌, inl, inr, refl, sym, ap, Bool, true, false, if◌then◌else◌, is_empty, ◌==◌, Text,
  text_eq_sound, Bool-cases, arith,
}
use s3rp.Sigv4.Crypto.{Crypto, derive_signing_key}
use s3rp.Sigv4.Signer.{
  Derived, derived_key, key_gone, derive_failed, SigningKeyFunc, SigningKeyId, SignerSlot,
  SignerCache, zero_id, same_bool, same_id, derive_key, with_slot, store_key, slot_index, get,
}

-- The key of an id, where `secrets` stands for the keys of the secrets that stay elsewhere.
unfoldable pub key_for : Crypto → (SigningKeyId → Text) → SigningKeyId → Text
unfolding derive_signing_key
key_for cr secrets id =
    if id.derived then secrets id else derive_signing_key cr id.version id.date id.region

-- A slot that holds the key of its id, or nothing.
abbrev pub IsRight : Crypto → (SigningKeyId → Text) → SignerSlot → Type 0
IsRight cr secrets slot = (slot.key ≡ zero_id) ⊎ (slot.signing_key ≡ key_for cr secrets slot.key)

abbrev pub Sound : Crypto → (SigningKeyId → Text) → SignerCache → Type 0
Sound cr secrets c = (i : ℕ) → IsRight cr secrets (c.slots i)

same_bool_sound : (a b : Bool) → same_bool a b ≡ true → a ≡ b
unfolding same_bool
same_bool_sound true b h = sym h
same_bool_sound false b h = ground arith

same_id_sound : (a b : SigningKeyId) → same_id a b ≡ true → a ≡ b
unfolding same_id
same_id_sound a b h =
    let akid = text_eq_sound a.access_key_id b.access_key_id (ground arith) in
    let version = text_eq_sound a.version b.version (ground arith) in
    let date = text_eq_sound a.date b.date (ground arith) in
    let region = text_eq_sound a.region b.region (ground arith) in
    let derived = same_bool_sound a.derived b.derived (ground arith) in
    ground (arith, akid, version, date, region, derived)

-- The key, or an error in its place.
abbrev pub Gives : Derived → Text → Type 0
Gives d k = (d ≡ derived_key k) ⊎ (d ≡ key_gone) ⊎ (d ≡ derive_failed)

pub Derived-cases :
    (d : Derived) → ((k : Text) × (d ≡ derived_key k)) ⊎ (d ≡ key_gone) ⊎ (d ≡ derive_failed)
Derived-cases (derived_key k) = inl (k, refl)
Derived-cases key_gone = inr (inl refl)
Derived-cases derive_failed = inr (inr refl)

module _ (cr : Crypto) (secrets : SigningKeyId → Text) where
  derive_key-for :
      (id : SigningKeyId) (derive : SigningKeyFunc) (k : Text)
      → Gives (derive id.date id.region) (secrets id)
      → derive_key cr id derive ≡ derived_key k
      → k ≡ key_for cr secrets id
  unfolding derive_key key_for
  derive_key-for id derive k agrees e = elim (Bool-cases id.derived) [
    | inl delegated ↦ elim (Derived-cases (derive id.date id.region)) [
      | inl (k', made) ↦ ground (arith, agrees, made)
      | inr (inl gone) ↦ absurd (ground arith)
      | inr (inr bad) ↦ absurd (ground arith)
    ]
    | inr held ↦ ground arith
  ]

  with_slot-IsRight :
      (i : ℕ) (slot : SignerSlot) (slots : ℕ → SignerSlot)
      → IsRight cr secrets slot
      → ((j : ℕ) → IsRight cr secrets (slots j))
      → (j : ℕ) → IsRight cr secrets (with_slot i slot slots j)
  with_slot-IsRight i slot slots p q j = elim (Bool-cases (j == i)) [
    | inl here ↦ rw here p
    | inr other ↦ rw other (q j)
  ]

  -- From a cache whose slots are right, `get` returns the key of the id, whether the cache holds it
  -- or not, if the id has a version and the `SigningKeyFunc` returns the key of the id or an error.
  -- The slots behind it are right whatever it returns.
  pub get-Sound :
      (hash : Text → ℕ) (c : SignerCache) (id : SigningKeyId) (derive : SigningKeyFunc)
      → is_empty id.version ≡ false
      → Gives (derive id.date id.region) (secrets id)
      → Sound cr secrets c
      → Sound cr secrets (get cr hash c id derive).1
        × Gives (get cr hash c id derive).0 (key_for cr secrets id)
  unfolding get store_key
  get-Sound hash c id derive versioned agrees sound =
      let i = slot_index hash c id in
      elim (Bool-cases (same_id (c.slots i).key id)) [
        | inl hit ↦
            let same = same_id_sound (c.slots i).key id hit in
            elim (sound i) [
              | inl fresh ↦ absurd (ground arith)
              | inr right ↦ rw hit (sound, inl (ground (arith, ap derived_key right, same)))
            ]
        | inr miss ↦ elim (Derived-cases (derive_key cr id derive)) [
          | inl (k, made) ↦
              let right = derive_key-for id derive k agrees made in
              rw (miss, made)
                (
                  with_slot-IsRight i (record { key = id; signing_key = k }) c.slots (inr right)
                      sound,
                  inl (ap derived_key right),
                )
          | inr (inl gone) ↦ rw (miss, gone) (sound, inr (inl refl))
          | inr (inr bad) ↦ rw (miss, bad) (sound, inr (inr refl))
        ]
      ]
