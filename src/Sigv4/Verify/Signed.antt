-- ===== src/Sigv4/Verify/Signed.antt =====
-- sigv4/sigv4.go: what `checkSignature` has checked, with the cache of signing keys.
use s3rp.Common.{
  ◌≡◌, ◌⊎◌, inl, inr, refl, sym, subst, true, Option, none, some, is_empty, false, Text, text_eq,
  text_eq_sound, Bool-cases, Option-cases,
}
use s3rp.Sigv4.Http.{HttpRequest}
use s3rp.Sigv4.Canonical.{check_signed_header_list, canonical_request}
use s3rp.Sigv4.Signer.{SigningKeyFunc, SigningKeyId, SignerCache}
use s3rp.Sigv4.Signer.Sound.{key_for, Sound, get-Sound, Gives}
use s3rp.Sigv4.Requests.{
  AuthError, denied, accepted, mismatch_error, unknown_key_error, internal_error, invalid_request,
  SecretLookup, Lookup, found,
}
use s3rp.Sigv4.Verify.{
  Verifier, Claim, signing_key_id, derive_of, signing_key, expected_signature, check_signature,
}
use s3rp.Sigv4.Verify.Admitted.{Admitted}

-- A key function gives the key of its id, or an error; and so does that of a found credential.
abbrev pub GivesKeys :
    (SigningKeyId → Text) → (akid version : Text) → Option SigningKeyFunc → Type 0
GivesKeys secrets akid version none = Unit
GivesKeys secrets akid version (some f) =
    (date region : Text)
    → Gives (f date region) (
        secrets (record {
          access_key_id = akid;
          version = version;
          date = date;
          region = region;
          derived = true;
        }))

abbrev pub GivesFound : (SigningKeyId → Text) → Text → Lookup → Type 0
GivesFound secrets akid (found cred) = GivesKeys secrets akid cred.secret_version cred.signing_key
GivesFound secrets akid _ = Unit

-- So does every key function that a lookup returns.
abbrev pub Faithful : SecretLookup → (SigningKeyId → Text) → Type 0
Faithful lookup secrets = (akid token : Text) → GivesFound secrets akid (lookup akid token)

-- The signature of a claim: its key is that of the credential and the scope, its list of signed
-- headers is in the form that it must have, and what was presented is the signature, under that
-- key, of the canonical request.
pub record Signed (v : Verifier) (secrets : SigningKeyId → Text) (r : HttpRequest) (claim : Claim)
    (key : Text) : Type 0 where
  pub key_is : key ≡ key_for v.crypto secrets (signing_key_id claim)
  pub listed : check_signed_header_list v.lib claim.signed_headers ≡ true
  pub canonical : Text
  pub canonical_is :
      canonical_request r claim.signed_headers claim.drop_query claim.payload_hash ≡ some canonical
  pub matches : claim.presented ≡ expected_signature v claim key canonical

module _ (v : Verifier) (secrets : SigningKeyId → Text) (lookup : SecretLookup)
    (faithful : Faithful lookup secrets) where
  derive_of-Gives :
      (claim : Claim) (token : Text)
      → lookup claim.access_key_id token ≡ found claim.credential
      → Gives
          (derive_of claim.credential.signing_key
            (signing_key_id claim).date
            (signing_key_id claim).region)
          (secrets (signing_key_id claim))
  unfolding signing_key_id
  derive_of-Gives claim token is_found = elim (Option-cases claim.credential.signing_key) [
    | inl held ↦ rw held (inr (inr refl))
    | inr (f, delegated) ↦
        let given =
          subst (GivesFound secrets claim.access_key_id) is_found
            (faithful claim.access_key_id token) in
        let keys =
          subst (GivesKeys secrets claim.access_key_id claim.credential.secret_version) delegated
            given in
        rw delegated (keys claim.date claim.region)
  ]

  -- `signingKey` returns the key of the claim's credential, or an error, and leaves the cache sound.
  pub signing_key-Sound :
      (cache : SignerCache) (claim : Claim) (token : Text)
      → lookup claim.access_key_id token ≡ found claim.credential
      → is_empty (signing_key_id claim).version ≡ false
      → Sound v.crypto secrets cache
      → Sound v.crypto secrets (signing_key v cache claim).1
        × (((signing_key v cache claim).0
              ≡ accepted (key_for v.crypto secrets (signing_key_id claim)))
            ⊎ ((e : AuthError) × ((signing_key v cache claim).0 ≡ denied e)))
  unfolding signing_key
  signing_key-Sound cache claim token is_found versioned sound =
      let (behind, result) =
        get-Sound v.crypto secrets v.hash cache (signing_key_id claim)
          (derive_of claim.credential.signing_key) versioned (derive_of-Gives claim token is_found)
          sound in
      elim result [
        | inl right ↦ (behind, inl (rw (signing_key, right) refl))
        | inr (inl gone) ↦ (behind, inr (unknown_key_error, rw (signing_key, gone) refl))
        | inr (inr bad) ↦ (behind, inr (internal_error, rw (signing_key, bad) refl))
      ]

  pub check_signature-Signed :
      (r : HttpRequest) (cache : SignerCache) (claim : Claim)
      → Admitted v r lookup claim
      → Sound v.crypto secrets cache
      → Sound v.crypto secrets (check_signature v cache r claim).1
        × (((k : Text) × ((check_signature v cache r claim).0 ≡ accepted k)
              × Signed v secrets r claim k)
            ⊎ ((e : AuthError) × ((check_signature v cache r claim).0 ≡ denied e)))
  unfolding check_signature
  check_signature-Signed r cache claim a sound =
      elim (Bool-cases (check_signed_header_list v.lib claim.signed_headers)) [
        | inr unlisted ↦ rw unlisted (sound, inr (mismatch_error, refl))
        | inl listed ↦
            elim (Option-cases
              (canonical_request r claim.signed_headers claim.drop_query claim.payload_hash)) [
                | inl lacking ↦ rw (listed, lacking) (sound, inr (invalid_request, refl))
                | inr (canonical, is_canonical) ↦
                    let (behind, result) =
                      signing_key-Sound cache claim a.token a.credential a.versioned sound in
                    elim result [
                      | inr (e, bad) ↦ rw (listed, is_canonical, bad) (behind, inr (e, refl))
                      | inl right ↦
                          let k = key_for v.crypto secrets (signing_key_id claim) in
                          elim (Bool-cases
                            (text_eq (expected_signature v claim k canonical) claim.presented)) [
                              | inl equal ↦
                                  rw (listed, is_canonical, right, equal)
                                    (
                                      behind,
                                      inl (
                                        k,
                                        refl,
                                        record {
                                          key_is = refl;
                                          listed = listed;
                                          canonical = canonical;
                                          canonical_is = is_canonical;
                                          matches = sym (
                                              text_eq_sound (expected_signature v claim k canonical)
                                                claim.presented equal);
                                        },
                                      ),
                                    )
                              | inr other ↦
                                  rw (listed, is_canonical, right, other)
                                    (behind, inr (mismatch_error, refl))
                            ]
                    ]
              ]
      ]
